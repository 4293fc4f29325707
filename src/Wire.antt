-- ===== src/Wire.antt =====
-- The events on the ring buffer: shspectr-common/src/event.rs and event_type.rs.
pub mod Layout
pub mod Types
use shellspectre.Base.{
  ℕ, ◌+◌, ◌*◌, not, Option, none, some, List, ltb, ◌==◌, if◌then◌else◌, is_some, length, slice,
  Text, codes, text_eq, Result, ok, err, le_at,
}

-- Discriminant 1 is reserved.
pub data EventType : Type 0 where
  exec read write exit : EventType

-- `EventType::from_wire`
unfoldable pub from_wire : ℕ → Option EventType
from_wire value =
    if value == 0
    then some exec
    else if value == 2
    then some read
    else if value == 3
    then some write
    else if value == 4
    then some exit
    else none

-- `EventType::as_wire`
unfoldable pub as_wire : EventType → ℕ
as_wire exec = 0
as_wire read = 2
as_wire write = 3
as_wire exit = 4

-- `EventType::as_str`
unfoldable pub as_str : EventType → Text
as_str exec = codes "exec"
as_str read = codes "read"
as_str write = codes "write"
as_str exit = codes "exit"

-- `EventType::from_str`; `none` is `ParseEventTypeError`
unfoldable pub from_str : Text → Option EventType
from_str s =
    if text_eq s (codes "exec")
    then some exec
    else if text_eq s (codes "read")
    then some read
    else if text_eq s (codes "write")
    then some write
    else if text_eq s (codes "exit")
    then some exit
    else none

abbrev pub max_argv_count : ℕ
max_argv_count = 20

abbrev pub max_arg_len : ℕ
max_arg_len = 256

abbrev pub max_data_len : ℕ
max_data_len = 4096

abbrev pub max_filename_len : ℕ
max_filename_len = 256

abbrev pub comm_len : ℕ
comm_len = 16

abbrev pub wire_version : ℕ
wire_version = 1

pub data ParseError : Type 0 where
  buffer_too_short : ℕ → ℕ → ParseError
  invalid_wire_version : ℕ → ParseError
  invalid_event_type : ℕ → ParseError
  unexpected_event_type : Text → ℕ → ParseError

-- `EventHeader`; every field is an unsigned word, `comm` is bytes; `version` is `wire_version`
pub record EventHeader : Type 0 where
  pub event_type : ℕ
  pub version : ℕ
  pub timestamp_ns : ℕ
  pub pid : ℕ
  pub ppid : ℕ
  pub tgid : ℕ
  pub tid : ℕ
  pub uid : ℕ
  pub gid : ℕ
  pub euid : ℕ
  pub comm : List ℕ
  pub tty_nr : ℕ
  pub execution_id : ℕ
  pub cgroup_id : ℕ

-- `EventHeader::decoded_event_type`
unfoldable pub decoded_event_type : EventHeader → Option EventType
decoded_event_type h = if h.version == wire_version then from_wire h.event_type else none

-- `EventHeader::new`
unfoldable pub new_header :
    EventType → ℕ → ℕ → ℕ → ℕ → ℕ → ℕ → ℕ → ℕ → List ℕ → ℕ → ℕ → ℕ → EventHeader
new_header event_type timestamp_ns pid ppid tgid tid uid gid euid comm tty_nr execution_id
      cgroup_id =
    record {
      event_type = as_wire event_type;
      version = wire_version;
      timestamp_ns = timestamp_ns;
      pid = pid;
      ppid = ppid;
      tgid = tgid;
      tid = tid;
      uid = uid;
      gid = gid;
      euid = euid;
      comm = comm;
      tty_nr = tty_nr;
      execution_id = execution_id;
      cgroup_id = cgroup_id;
    }

pub record ExecEvent : Type 0 where
  pub header : EventHeader
  pub filename : List ℕ
  pub argv : List (List ℕ)
  pub argc : ℕ
  -- `i64`, as its 64 bits
  pub retval : ℕ

-- `payload` is the field `data`
pub record IoEvent : Type 0 where
  pub header : EventHeader
  pub fd : ℕ
  pub data_len : ℕ
  pub count : ℕ
  pub payload : List ℕ

pub record ExitEvent : Type 0 where
  pub header : EventHeader
  -- `i32`, as its 32 bits
  pub exit_code : ℕ

-- `size_of` of the `repr(C)` structs, asserted at compile time
abbrev pub header_size : ℕ
header_size = 80

abbrev pub exec_size : ℕ
exec_size = 80 + max_filename_len + max_argv_count * max_arg_len + 16

abbrev pub io_size : ℕ
io_size = 80 + 16 + max_data_len

abbrev pub exit_size : ℕ
exit_size = 88

-- `read_unaligned` of an `EventHeader`: each field at its offset
unfoldable pub header_at : List ℕ → EventHeader
header_at bytes = record {
  event_type = le_at 0 4 bytes;
  version = le_at 4 4 bytes;
  timestamp_ns = le_at 8 8 bytes;
  pid = le_at 16 4 bytes;
  ppid = le_at 20 4 bytes;
  tgid = le_at 24 4 bytes;
  tid = le_at 28 4 bytes;
  uid = le_at 32 4 bytes;
  gid = le_at 36 4 bytes;
  euid = le_at 40 4 bytes;
  comm = slice 44 comm_len bytes;
  tty_nr = le_at 60 4 bytes;
  execution_id = le_at 64 8 bytes;
  cgroup_id = le_at 72 8 bytes;
}

-- `EventHeader::try_from`
unfoldable pub header_try_from : List ℕ → Result ParseError EventHeader
header_try_from bytes =
    if ltb (length bytes) header_size
    then err (buffer_too_short header_size (length bytes))
    else if not ((header_at bytes).version == wire_version)
    then err (invalid_wire_version (header_at bytes).version)
    else if not (is_some (from_wire (header_at bytes).event_type))
    then err (invalid_event_type (header_at bytes).event_type)
    else ok (header_at bytes)
