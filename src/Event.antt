-- ===== src/Event.antt =====
-- The daemon's event parsing: shspectr/src/event.rs.
pub mod Layout
pub mod Fields
pub mod Parse
use shellspectre.Base.{
  ℕ, zero, suc, ◌+◌, min, Bool, true, false, List, [], ◌∷◌, map, leb, ◌==◌, if◌then◌else◌, length,
  take, slice, Text, codes, ℤ, as_signed, Result, ok, ok_or, ensure, from_utf8_lossy, le_at, ◌>>=◌,
  ◌>>◌,
}
use shellspectre.Wire.{
  EventType, exec, read, write, exit, EventHeader, decoded_event_type, header_try_from, header_at,
  ParseError, buffer_too_short, invalid_event_type, unexpected_event_type, ExecEvent, IoEvent,
  ExitEvent, exec_size, io_size, exit_size, max_argv_count, max_arg_len, max_data_len,
  max_filename_len,
}

-- the bytes before the first 0
until_nul : List ℕ → List ℕ
until_nul [] = []
until_nul (b ∷ bs) = let rest = until_nul bs in if b == 0 then [] else b ∷ rest

-- `cstr_from_bytes`
unfoldable pub cstr_from_bytes : List ℕ → Text
unfolding until_nul from_utf8_lossy
cstr_from_bytes bytes = from_utf8_lossy (until_nul bytes)

-- the rows of `[[u8; MAX_ARG_LEN]; n]` at an offset
pub rows : ℕ → ℕ → List ℕ → List (List ℕ)
rows zero off bytes = []
rows (suc n) off bytes = slice off max_arg_len bytes ∷ rows n (off + max_arg_len) bytes

-- `read_unaligned` of the three payloads
pub exec_at : List ℕ → ExecEvent
unfolding rows
exec_at bytes = record {
  header = header_at bytes;
  filename = slice 80 max_filename_len bytes;
  argv = rows max_argv_count 336 bytes;
  argc = le_at 5456 4 bytes;
  retval = le_at 5464 8 bytes;
}

pub io_at : List ℕ → IoEvent
io_at bytes = record {
  header = header_at bytes;
  fd = le_at 80 4 bytes;
  data_len = le_at 84 4 bytes;
  count = le_at 88 8 bytes;
  payload = slice 96 max_data_len bytes;
}

pub exit_at : List ℕ → ExitEvent
exit_at bytes = record { header = header_at bytes; exit_code = le_at 80 4 bytes }

pub record ParsedExecEvent : Type 0 where
  pub pid : ℕ
  pub ppid : ℕ
  pub uid : ℕ
  pub gid : ℕ
  pub euid : ℕ
  pub comm : Text
  pub tty_nr : ℕ
  pub cgroup_id : ℕ
  pub execution_id : ℕ
  pub filename : Text
  pub argv : List Text
  pub retval : ℤ

pub record ParsedExitEvent : Type 0 where
  pub pid : ℕ
  pub ppid : ℕ
  pub uid : ℕ
  pub gid : ℕ
  pub euid : ℕ
  pub comm : Text
  pub tty_nr : ℕ
  pub cgroup_id : ℕ
  pub execution_id : ℕ
  pub exit_code : ℤ

pub record ParsedIoEvent : Type 0 where
  pub pid : ℕ
  pub ppid : ℕ
  pub uid : ℕ
  pub gid : ℕ
  pub euid : ℕ
  pub comm : Text
  pub tty_nr : ℕ
  pub cgroup_id : ℕ
  pub execution_id : ℕ
  pub fd : ℕ
  pub payload : List ℕ
  pub count : ℕ

-- The owned value that each `try_from` builds from the event that it has read.
unfoldable pub exec_of : ExecEvent → ParsedExecEvent
exec_of event = record {
  pid = event.header.pid;
  ppid = event.header.ppid;
  uid = event.header.uid;
  gid = event.header.gid;
  euid = event.header.euid;
  comm = cstr_from_bytes event.header.comm;
  tty_nr = event.header.tty_nr;
  cgroup_id = event.header.cgroup_id;
  execution_id = event.header.execution_id;
  filename = cstr_from_bytes event.filename;
  argv = map cstr_from_bytes (take (min event.argc max_argv_count) event.argv);
  retval = as_signed 64 event.retval;
}

unfoldable pub exit_of : ExitEvent → ParsedExitEvent
exit_of event = record {
  pid = event.header.pid;
  ppid = event.header.ppid;
  uid = event.header.uid;
  gid = event.header.gid;
  euid = event.header.euid;
  comm = cstr_from_bytes event.header.comm;
  tty_nr = event.header.tty_nr;
  cgroup_id = event.header.cgroup_id;
  execution_id = event.header.execution_id;
  exit_code = as_signed 32 event.exit_code;
}

unfoldable pub io_of : IoEvent → ParsedIoEvent
io_of event = record {
  pid = event.header.pid;
  ppid = event.header.ppid;
  uid = event.header.uid;
  gid = event.header.gid;
  euid = event.header.euid;
  comm = cstr_from_bytes event.header.comm;
  tty_nr = event.header.tty_nr;
  cgroup_id = event.header.cgroup_id;
  execution_id = event.header.execution_id;
  fd = event.fd;
  payload = take (min event.data_len max_data_len) event.payload;
  count = event.count;
}

abbrev pub is_exec : EventType → Bool
is_exec exec = true
is_exec _ = false

abbrev pub is_exit : EventType → Bool
is_exit exit = true
is_exit _ = false

abbrev pub is_io : EventType → Bool
is_io read = true
is_io write = true
is_io _ = false

-- the header, and its event type again
pub typed_header : List ℕ → Result ParseError (EventHeader × EventType)
typed_header bytes = do
  header ← header_try_from bytes
  event_type ← ok_or (decoded_event_type header) (invalid_event_type header.event_type)
  ok (header, event_type)

too_short : ℕ → List ℕ → ParseError
too_short need bytes = buffer_too_short need (length bytes)

-- The three `try_from`s.
pub parsed_exec : List ℕ → Result ParseError ParsedExecEvent
unfolding typed_header too_short
parsed_exec bytes = do
  found ← typed_header bytes
  ensure (is_exec found.1) (unexpected_event_type (codes "Exec") found.0.event_type)
  ensure (leb exec_size (length bytes)) (too_short exec_size bytes)
  ok (exec_of (exec_at bytes))

pub parsed_exit : List ℕ → Result ParseError ParsedExitEvent
unfolding typed_header too_short
parsed_exit bytes = do
  found ← typed_header bytes
  ensure (is_exit found.1) (unexpected_event_type (codes "Exit") found.0.event_type)
  ensure (leb exit_size (length bytes)) (too_short exit_size bytes)
  ok (exit_of (exit_at bytes))

pub parsed_io : List ℕ → Result ParseError ParsedIoEvent
unfolding typed_header too_short
parsed_io bytes = do
  found ← typed_header bytes
  ensure (is_io found.1) (unexpected_event_type (codes "Read or Write") found.0.event_type)
  ensure (leb io_size (length bytes)) (too_short io_size bytes)
  ok (io_of (io_at bytes))
