-- ===== src/Lib.antt =====
-- ShellSpectre records what runs in shell sessions. Its eBPF programs, on the tracepoints of execve,
-- exit_group, read and write, put events into a ring buffer; the daemon parses them, groups them into
-- sessions, filters them and hands them to a sink; a web server lists what was stored.
--
-- The parts, and the files that model them:
--
-- - Probe: shspectr-ebpf/src/main.rs. Probe/Kernel has the helpers and the maps; Probe/Exec the probes
--   on execve and exit_group; Probe/Io those on read and write, in the names of the source
--   (try_sys_enter_execve and so on). A probe is a function from what the kernel answers in one run
--   (Env) and the maps (State) to its result and the maps. A State lists the submitted events, the
--   newest first. Probe/Trace runs the probes in any order and on any threads: a program is not
--   interrupted between two accesses of the maps. Each probe of the source is one function here, with
--   helpers for the branches on a failed read. Probe/Loader is what shspectr/src/ebpf.rs puts into the
--   maps SELF_TGID and OFFSETS.
-- - Wire, Offsets: shspectr-common/src/event.rs, event_type.rs and offsets.rs. A word is a number; a
--   signed word is its bits, which as_signed reads. Wire/Layout and Event/Layout write the repr(C)
--   structs as bytes, little-endian, which is the order of the targets.
-- - Event: shspectr/src/event.rs, the parsers of the daemon; Event/Fields says what the fields are.
-- - SessionId: shspectr-common/src/session.rs, and the generator in shspectr/src/session.rs. What
--   getrandom does, the bytes it fills in or a failure, is an argument; a failure is the panic of expect.
-- - Session: shspectr/src/session.rs, the correlator: on_exec, session_for, on_exit, ancestor_comms
--   over the maps from processes and from terminals. An index of a missing key, and a failed
--   draw of random bytes, is the answer `none`; a panicking call leaves the maps as they were.
--   Children: Assign for the priorities, Trace for sequences of events, Validity for the invariant,
--   Exits and Ancestors.
-- - Filter: shspectr/src/filter.rs.
-- - Handler: shspectr/src/handler.rs and sink.rs, and the drain of the ring buffer in ebpf.rs. What an
--   event does is an Outcome: nothing, one call of the sink, or a panic, which ends the stream.
-- - Btf: shspectr/src/btf.rs, the parser of the kernel's types; `panicked` is a slice out of range.
-- - Listing: shspectr-web/src/domain/listing.rs, pages of results, and the bounds that the route
--   list_events of shspectr-web/src/application/routes/api.rs puts on a request.
-- - Query: shspectr-web/src/domain/filter.rs: levenshtein and suggest_keyword in Query, EventFilter and
--   its parser in Query/Parse. The match on the key is an enumeration of its arms, Keyword, with the body
--   of each arm; Query/Parse/Print writes a filter as a query.
-- - Username: shspectr-web/src/presentation/web/username.rs. The contents of the passwd file are an
--   argument, and the order of the entries stands for that in which a hash map is iterated.
-- - Database: the columns of shspectr-common/src/schema.rs, as records.
-- - Store: shspectr/src/sqlite_sink.rs. The two tables are lists of rows, the latest last. The clock, the
--   JSON text of a list and whether SQLite enforces foreign keys are the fields of Surroundings.
-- - Repository: build_where_clause of shspectr-web/src/infrastructure/repositories/event.rs. A Condition is
--   one of the texts that the builder pushes, condition_sql its text; Repository/Meaning is SQL's
--   three-valued logic on a row, Repository/Matching says without SQL which rows the clause means,
--   and Repository/Documented which rows the comments on the filters mean.
--   The operator LIKE is a parameter with the laws of Repository/Patterns, which SQLite documents.
-- - Reads: the queries of that file, on a table in the order of its identifiers, with the records of
--   shspectr-web/src/domain/event.rs.
-- - Sorting: the ORDER BY of list in that file, as an order of two rows. The sorting of the database is a
--   parameter with the laws that SQLite documents.
-- - Live: live_events of shspectr-web/src/application/routes/api.rs, over what the table holds at each
--   tick. An error of the database and an empty answer both send a comment and leave the cursor.
-- - Navigation: ListNavigator of shspectr-web/src/presentation/web/listing.rs. How the server decodes a
--   query string is a parameter with the laws of Navigation/Encoding.
-- - Presentation: shspectr-web/src/presentation/web/event.rs, the views of an event, of its children and
--   of its parent. The parser of JSON texts is a parameter; a slice inside a character is the answer `none`.
--   Presentation/Detail is the panel of an event; the converter of ANSI codes is a parameter.
-- - Routes: list_events of shspectr-web/src/application/routes/api.rs, with Paginated of
--   shspectr-web/src/presentation/web/listing.rs. Routes/Details has get_event_detail and
--   get_event_raw. The templates are a parameter; an answer is a value.
-- - Base has the helpers: lists, association lists for maps, texts as code points, bytes, UTF-8.
-- - Examples and the modules named Tests apply the theorems at concrete inputs.
--
-- Bounds and fuel. Loops of the source with a bound are recursion on the rounds that are left: 20
-- arguments of an exec, 32 levels of ancestors, the members of a struct. The walk over the BTF types has
-- one more unit of fuel than the section has bytes, and each round moves at least 12 bytes, so it is
-- never used up.
--
-- Not modelled: log messages; capacities of the BPF maps, beyond that an insertion may fail; the
-- ring buffer's memory, beyond that a reservation may fail; the helpers of the kernel, whose answers are
-- the fields of Env; the sinks that print or export through libraries; opening and migrating the
-- database, and its failures beside that of a foreign key; the connection pool; turning terminal codes into HTML, templates,
-- middleware and static files of the web server; the async runtime, and the command line.
pub mod Base
pub mod SessionId
pub mod Session
pub mod Wire
pub mod Event
pub mod Filter
pub mod Handler
pub mod Offsets
pub mod Probe
pub mod Btf
pub mod Listing
pub mod Query
pub mod Database
pub mod Username
pub mod Store
pub mod Repository
pub mod Reads
pub mod Live
pub mod Navigation
pub mod Presentation
pub mod Routes
pub mod Sorting
pub mod Examples
