-- ===== src/Store.antt =====
-- The SQLite sink: shspectr/src/sqlite_sink.rs.
pub mod Entries
pub mod Steps
pub mod Log
pub mod Sessions
pub mod Transcript
mod Tests
pub mod Tables
pub mod Backfill
use shellspectre.Base.{
  ℕ, ◌+◌, ◌-◌, ◌^◌, ◌==◌, min, Bool, not, ◌&&◌, Option, none, some, List, [], ◌∷◌, ◌++◌, ℤ, Text,
  text_eq, any, length, if◌then◌else◌, from_utf8_lossy,
}
use shellspectre.Database.{Row, SessionRow}
use shellspectre.Event.{ParsedExecEvent, ParsedExitEvent, ParsedIoEvent}
use shellspectre.Handler.{SessionInfo, SinkCall, exec_call, exit_call, io_call}
use shellspectre.SessionId.{SessionId}
use shellspectre.Wire.{EventType, exec, exit, as_wire}

-- The two tables, the latest row last, and the last identifier that AUTOINCREMENT gave.
pub record Database : Type 0 where
  pub sessions : List SessionRow
  pub events : List Row
  pub last_id : ℕ

-- A new database.
abbrev pub empty_database : Database
empty_database = record { sessions = []; events = []; last_id = 0 }

-- `i64::try_from(n).unwrap_or(i64::MAX)`
pub as_i64 : ℕ → ℕ
as_i64 n = min n (2 ^ 63 - 1)

pub has_session : SessionId → List SessionRow → Bool
has_session id = any (λ row. text_eq row.id id)

-- What the sink takes from its surroundings: the clock of the database, the JSON text of a list, and
-- whether the connection enforces foreign keys.
pub record Surroundings : Type 0 where
  pub now : Text
  pub argv_json : List Text → Text
  pub enforces_keys : Bool

-- `ensure_session`: `INSERT OR IGNORE`
pub ensure_session : Surroundings → SessionInfo → Database → Database
unfolding has_session as_i64
ensure_session world info db =
    let row : SessionRow = record {
      id = info.session_id;
      started_at = world.now;
      ended_at = none;
      root_pid = info.pid;
      root_comm = some info.comm;
      uid = info.uid;
      euid = info.euid;
      tty_nr = some info.tty_nr;
      cgroup_id = some (as_i64 info.cgroup_id);
    } in
    if has_session info.session_id db.sessions
    then db
    else record db { sessions = db.sessions ++ row ∷ [] }

-- One `INSERT INTO events`, which gives the next identifier. Nothing where a foreign key fails.
pub insert_row : Surroundings → (ℕ → Row) → SessionId → Database → Option Database
unfolding has_session
insert_row world row session_id db =
    if world.enforces_keys && not (has_session session_id db.sessions)
    then none
    else some
        (record db { events = db.events ++ row (db.last_id + 1) ∷ []; last_id = db.last_id + 1 })

pub exec_row : Surroundings → SessionId → ParsedExecEvent → ℕ → Row
unfolding as_i64
exec_row world session_id event id = record {
  id = id;
  session_id = session_id;
  event_type = as_wire exec;
  timestamp = world.now;
  pid = event.pid;
  ppid = event.ppid;
  uid = event.uid;
  gid = event.gid;
  euid = event.euid;
  comm = some event.comm;
  tty_nr = some event.tty_nr;
  execution_id = as_i64 event.execution_id;
  filename = some event.filename;
  argv = some (world.argv_json event.argv);
  fd = none;
  payload = none;
  data_len = none;
  byte_count = none;
  exit_code = none;
}

-- `insert_exec`
pub insert_exec : Surroundings → SessionId → ParsedExecEvent → Database → Option Database
unfolding insert_row exec_row
insert_exec world session_id event = insert_row world (exec_row world session_id event) session_id

pub exit_row : Surroundings → SessionId → ParsedExitEvent → ℕ → Row
unfolding as_i64
exit_row world session_id event id = record {
  id = id;
  session_id = session_id;
  event_type = as_wire exit;
  timestamp = world.now;
  pid = event.pid;
  ppid = event.ppid;
  uid = event.uid;
  gid = event.gid;
  euid = event.euid;
  comm = some event.comm;
  tty_nr = some event.tty_nr;
  execution_id = as_i64 event.execution_id;
  filename = none;
  argv = none;
  fd = none;
  payload = none;
  data_len = none;
  byte_count = none;
  exit_code = some event.exit_code;
}

-- `session_id = ?2 AND pid = ?3 AND execution_id = ?4 AND event_type = ?5`
pub is_exec_of : SessionId → ℕ → ℕ → Row → Bool
is_exec_of session_id pid execution_id row =
    text_eq row.session_id session_id
    && (row.pid == pid)
    && (row.execution_id == execution_id)
    && (row.event_type == as_wire exec)

-- `SELECT id .. ORDER BY id DESC LIMIT 1`
pub latest_id : (Row → Bool) → List Row → Option ℕ
latest_id test [] = none
latest_id test (row ∷ rows) = elim (latest_id test rows) [
  | some id ↦ some (if test row && shellspectre.Base.ltb id row.id then row.id else id)
  | none ↦ if test row then some row.id else none
]

set_exit_code : ℤ → ℕ → List Row → List Row
set_exit_code code id [] = []
set_exit_code code id (row ∷ rows) =
    let rest = set_exit_code code id rows in
    (if row.id == id then record row { exit_code = some code } else row) ∷ rest

pub set_on_latest : ℤ → Option ℕ → List Row → List Row
unfolding set_exit_code
set_on_latest code none rows = rows
set_on_latest code (some id) rows = set_exit_code code id rows

-- The `UPDATE` that backfills the exit code.
pub backfill : SessionId → ParsedExitEvent → List Row → List Row
unfolding is_exec_of latest_id set_on_latest as_i64
backfill session_id event rows =
    set_on_latest event.exit_code
      (latest_id (is_exec_of session_id event.pid (as_i64 event.execution_id)) rows) rows

pub end_session : Text → SessionId → List SessionRow → List SessionRow
end_session now id [] = []
end_session now id (row ∷ rows) =
    let rest = end_session now id rows in
    (if text_eq row.id id then record row { ended_at = some now } else row) ∷ rest

-- What `insert_exit` does once the row is in.
pub after_exit : Surroundings → SessionId → ParsedExitEvent → Bool → Database → Database
unfolding backfill end_session
after_exit world session_id event session_complete db =
    let filled = record db { events = backfill session_id event db.events } in
    if session_complete
    then record filled { sessions = end_session world.now session_id filled.sessions }
    else filled

pub insert_exit : Surroundings → SessionId → ParsedExitEvent → Bool → Database → Option Database
unfolding insert_row exit_row after_exit
insert_exit world session_id event session_complete db =
    elim (insert_row world (exit_row world session_id event) session_id db) [
      | none ↦ none
      | some inserted ↦ some (after_exit world session_id event session_complete inserted)
    ]

pub io_row : Surroundings → SessionId → ParsedIoEvent → EventType → ℕ → Row
unfolding as_i64
io_row world session_id event event_type id = record {
  id = id;
  session_id = session_id;
  event_type = as_wire event_type;
  timestamp = world.now;
  pid = event.pid;
  ppid = event.ppid;
  uid = event.uid;
  gid = event.gid;
  euid = event.euid;
  comm = some event.comm;
  tty_nr = some event.tty_nr;
  execution_id = as_i64 event.execution_id;
  filename = none;
  argv = none;
  fd = some event.fd;
  payload = some (from_utf8_lossy event.payload);
  data_len = some (as_i64 (length event.payload));
  byte_count = some (as_i64 event.count);
  exit_code = none;
}

-- `insert_io`
pub insert_io : Surroundings → SessionId → ParsedIoEvent → EventType → Database → Option Database
unfolding insert_row io_row
insert_io world session_id event event_type =
    insert_row world (io_row world session_id event event_type) session_id

-- An error is logged and leaves the database as it was.
logged : Option Database → Database → Database
logged none db = db
logged (some next) db = next

-- `on_exec`, `on_exit` and `on_io`
pub handle_call : Surroundings → SinkCall → Database → Database
unfolding ensure_session insert_exec insert_exit insert_io logged
handle_call world (exec_call session event) db =
    let ensured = ensure_session world session db in
    logged (insert_exec world session.session_id event ensured) ensured
handle_call world (exit_call session event session_complete) db =
    logged (insert_exit world session.session_id event session_complete db) db
handle_call world (io_call session event event_type) db =
    logged (insert_io world session.session_id event event_type db) db

-- The calls of a recording, each with what its surroundings were.
pub record_calls : List (Surroundings × SinkCall) → Database → Database
unfolding handle_call
record_calls [] db = db
record_calls ((world, call) ∷ calls) db = record_calls calls (handle_call world call db)
