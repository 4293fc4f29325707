-- ===== src/Reads.antt =====
-- The queries of the event repository: shspectr-web/src/infrastructure/repositories/event.rs, with the
-- records of shspectr-web/src/domain/event.rs.
pub mod Chunks
pub mod Cursor
pub mod Streams
pub mod Paging
pub mod Selected
use shellspectre.Base.{
  ℕ, ◌==◌, Bool, false, ◌&&◌, ◌||◌, Option, none, some, List, [], ◌∷◌, ◌++◌, map, ℤ, Text, text_eq,
  any, take, drop, length, ltb, unwrap_or, if◌then◌else◌,
}
use shellspectre.Database.{Row}
use shellspectre.Listing.{EventSortKey, SortDirection, ListRequest, offset, Page}
use shellspectre.Query.Parse.{EventFilter}
use shellspectre.Base.{Map}
use shellspectre.Sorting.{comes_first}
use shellspectre.Repository.{build_where_clause}
use shellspectre.Repository.Meaning.{selects}
use shellspectre.Wire.{EventType, exec, read, write, from_wire, as_wire}

pub record EventSummary : Type 0 where
  pub id : ℕ
  pub timestamp : Text
  pub session_id : Text
  pub event_type : EventType
  pub execution_id : ℕ
  pub pid : ℕ
  pub ppid : ℕ
  pub uid : ℕ
  pub euid : ℕ
  pub comm : Option Text
  pub filename : Option Text
  pub argv : Option Text
  pub exit_code : Option ℤ

pub record IoChunk : Type 0 where
  pub timestamp : Text
  pub payload : Text
  pub byte_count : ℕ

pub record ChildProcess : Type 0 where
  pub id : ℕ
  pub pid : ℕ
  pub comm : Option Text
  pub filename : Option Text
  pub argv : Option Text
  pub exit_code : Option ℤ
  pub has_io : Bool

pub record ParentProcess : Type 0 where
  pub id : ℕ
  pub comm : Option Text
  pub filename : Option Text
  pub argv : Option Text

pub record EventDetail : Type 0 where
  pub summary : EventSummary
  pub gid : ℕ
  pub tty_nr : Option ℕ
  pub fd : Option ℕ
  pub payload : Option Text
  pub data_len : Option ℕ
  pub byte_count : Option ℕ
  pub stdin_data : List IoChunk
  pub stdout_data : List IoChunk
  pub children : List ChildProcess
  pub parent : Option ParentProcess

abbrev pub keep_rows : (Row → Bool) → List Row → List Row
keep_rows test [] = []
keep_rows test (row ∷ rows) =
    let rest = keep_rows test rows in if test row then row ∷ rest else rest

summary_of : Row → EventType → EventSummary
summary_of row event_type = record {
  id = row.id;
  timestamp = row.timestamp;
  session_id = row.session_id;
  event_type = event_type;
  execution_id = row.execution_id;
  pid = row.pid;
  ppid = row.ppid;
  uid = row.uid;
  euid = row.euid;
  comm = row.comm;
  filename = row.filename;
  argv = row.argv;
  exit_code = row.exit_code;
}

abbrev pub map_option {ℓ κ} : {A : Type ℓ} {B : Type κ} → (A → B) → Option A → Option B
map_option f none = none
map_option f (some a) = some (f a)

-- `row_to_summary`: nothing is the error of an unknown event type
pub row_to_summary : Row → Option EventSummary
unfolding summary_of
row_to_summary row = map_option (summary_of row) (from_wire row.event_type)

abbrev pub push_both {ℓ} : {A : Type ℓ} → Option A → Option (List A) → Option (List A)
push_both (some a) (some rest) = some (a ∷ rest)
push_both _ _ = none

-- `collect::<Result<Vec<_>, _>>()`
pub summaries : List Row → Option (List EventSummary)
unfolding row_to_summary
summaries [] = some []
summaries (row ∷ rows) = push_both (row_to_summary row) (summaries rows)

-- `fd` of a row of I/O
pub is_stdin : Option ℕ → Bool
is_stdin none = false
is_stdin (some fd) = fd == 0

pub is_stdout : Option ℕ → Bool
is_stdout none = false
is_stdout (some fd) = (fd == 1) || (fd == 2)

-- `event_type IN (read, write)` of an execution
pub is_io_of : Text → ℕ → ℕ → Row → Bool
is_io_of session_id pid execution_id row =
    text_eq row.session_id session_id
    && (row.pid == pid)
    && (row.execution_id == execution_id)
    && ((row.event_type == as_wire read) || (row.event_type == as_wire write))

pub chunk_of : Row → IoChunk
chunk_of row = record {
  timestamp = row.timestamp;
  payload = unwrap_or row.payload [];
  byte_count = unwrap_or row.byte_count 0;
}

-- The loop of `fetch_io_chunks` over its rows.
pub push_chunks : List Row → EventDetail → EventDetail
unfolding is_stdin is_stdout chunk_of
push_chunks [] detail = detail
push_chunks (row ∷ rows) detail = push_chunks rows (
    if is_stdin row.fd
    then record detail { stdin_data = detail.stdin_data ++ chunk_of row ∷ [] }
    else if is_stdout row.fd
    then record detail { stdout_data = detail.stdout_data ++ chunk_of row ∷ [] }
    else detail)

-- `fetch_io_chunks`; the rows of the table stand in the order of their identifiers
pub fetch_io_chunks : List Row → EventDetail → EventDetail
unfolding push_chunks is_io_of
fetch_io_chunks table detail =
    let s = detail.summary in
    push_chunks (keep_rows (is_io_of s.session_id s.pid s.execution_id) table) detail

is_child_of : Text → ℕ → Row → Bool
is_child_of session_id pid row =
    text_eq row.session_id session_id && (row.ppid == pid) && (row.event_type == as_wire exec)

child_of : List Row → Row → ChildProcess
unfolding is_io_of
child_of table row = record {
  id = row.id;
  pid = row.pid;
  comm = row.comm;
  filename = row.filename;
  argv = row.argv;
  exit_code = row.exit_code;
  has_io = any (is_io_of row.session_id row.pid row.execution_id) table;
}

-- `fetch_children`
pub fetch_children : List Row → EventDetail → List ChildProcess
unfolding is_child_of child_of
fetch_children table detail =
    map (child_of table)
      (keep_rows (is_child_of detail.summary.session_id detail.summary.pid) table)

is_exec_in : Text → ℕ → Row → Bool
is_exec_in session_id pid row =
    text_eq row.session_id session_id && (row.pid == pid) && (row.event_type == as_wire exec)

abbrev last_row {ℓ} : {A : Type ℓ} → List A → Option A
last_row [] = none
last_row (a ∷ []) = some a
last_row (a ∷ b ∷ rest) = last_row (b ∷ rest)

parent_of : Row → ParentProcess
parent_of row = record { id = row.id; comm = row.comm; filename = row.filename; argv = row.argv }

-- `fetch_parent`: `ORDER BY id DESC LIMIT 1`
pub fetch_parent : List Row → EventDetail → Option ParentProcess
unfolding is_exec_in parent_of
fetch_parent table detail =
    map_option parent_of
      (last_row (keep_rows (is_exec_in detail.summary.session_id detail.summary.ppid) table))

detail_of : Row → EventSummary → EventDetail
detail_of row summary = record {
  summary = summary;
  gid = row.gid;
  tty_nr = row.tty_nr;
  fd = row.fd;
  payload = row.payload;
  data_len = row.data_len;
  byte_count = row.byte_count;
  stdin_data = [];
  stdout_data = [];
  children = [];
  parent = none;
}

filled : List Row → EventDetail → EventDetail
unfolding fetch_io_chunks fetch_children fetch_parent
filled table detail =
    let with_io = fetch_io_chunks table detail in
    let with_children = record with_io { children = fetch_children table with_io } in
    record with_children { parent = fetch_parent table with_children }

-- What a query ends in: an error, no row, or a value.
pub data Found {ℓ} (A : Type ℓ) : Type ℓ where
  failed : Found A
  missing : Found A
  found : A → Found A

detail_of_summary : List Row → Row → Option EventSummary → Found EventDetail
unfolding detail_of filled
detail_of_summary table row none = failed
detail_of_summary table row (some summary) = found (filled table (detail_of row summary))

detail_of_rows : List Row → List Row → Found EventDetail
unfolding detail_of_summary
detail_of_rows table [] = missing
detail_of_rows table (row ∷ rows) = detail_of_summary table row (row_to_summary row)

-- `get_detail`
pub get_detail : List Row → ℕ → Found EventDetail
unfolding detail_of_rows
get_detail table id = detail_of_rows table (keep_rows (λ row. row.id == id) table)

-- `COALESCE(MAX(id), 0)`
pub max_event_id : List Row → ℕ
max_event_id [] = 0
max_event_id (row ∷ rows) = let rest = max_event_id rows in if ltb rest row.id then row.id else rest

module _ (like : Text → Text → Bool) (users : Map Text) where
  -- `list_since`: the rows of the clause with `id > after`, in the order of their identifiers
  pub list_since : List Row → ℕ → EventFilter → Option (List EventSummary)
  unfolding summaries
  list_since table after filter =
      let clause = build_where_clause users filter in
      summaries (take 100 (keep_rows (λ row. selects like clause row && ltb after row.id) table))

  page_of : ListRequest → ℕ → List EventSummary → Page EventSummary
  page_of request total items = record {
    items = items;
    page = request.page;
    page_size = request.page_size;
    total_items = total;
  }

  -- `list`; `order_by` is the `ORDER BY` of the database, by an order of two rows
  pub list :
      ((Row → Row → Bool) → List Row → List Row)
      → List Row
      → ListRequest
      → EventFilter
      → Option (Page EventSummary)
  unfolding summaries page_of
  list order_by table request filter =
      let clause = build_where_clause users filter in
      let rows = keep_rows (selects like clause) table in
      let window =
        take request.page_size
          (drop (offset request) (order_by (comes_first request.sort request.direction) rows)) in
      map_option (page_of request (length rows)) (summaries window)
