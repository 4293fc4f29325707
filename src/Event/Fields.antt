-- ===== src/Event/Fields.antt =====
-- What the fields of a parsed event are, from the layout that the probes and the daemon share
-- (shspectr-common/src/event.rs), without the parsers.
use shellspectre.Base.{
  ℕ, zero, suc, ◌≡◌, refl, ap, min, List, [], ◌∷◌, map, take, Text, as_signed, arith,
  from_utf8_lossy,
}
use shellspectre.Event.{
  ParsedExecEvent, ParsedExitEvent, ParsedIoEvent, until_nul, cstr_from_bytes, exec_of, exit_of,
  io_of,
}
use shellspectre.Wire.{ExecEvent, IoEvent, ExitEvent}

-- The bytes in front of the first 0 byte.
abbrev pub c_bytes : List ℕ → List ℕ
c_bytes [] = []
c_bytes (zero ∷ bytes) = []
c_bytes (suc b ∷ bytes) = suc b ∷ c_bytes bytes

abbrev pub c_text : List ℕ → Text
c_text bytes = from_utf8_lossy (c_bytes bytes)

-- The fields of the header by their names, the file name, at most 20 arguments and as many as are counted,
-- and the return value with its sign.
abbrev pub exec_fields : ExecEvent → ParsedExecEvent
exec_fields e = record {
  pid = e.header.pid;
  ppid = e.header.ppid;
  uid = e.header.uid;
  gid = e.header.gid;
  euid = e.header.euid;
  comm = c_text e.header.comm;
  tty_nr = e.header.tty_nr;
  cgroup_id = e.header.cgroup_id;
  execution_id = e.header.execution_id;
  filename = c_text e.filename;
  argv = map c_text (take (min e.argc 20) e.argv);
  retval = as_signed 64 e.retval;
}

abbrev pub exit_fields : ExitEvent → ParsedExitEvent
exit_fields e = record {
  pid = e.header.pid;
  ppid = e.header.ppid;
  uid = e.header.uid;
  gid = e.header.gid;
  euid = e.header.euid;
  comm = c_text e.header.comm;
  tty_nr = e.header.tty_nr;
  cgroup_id = e.header.cgroup_id;
  execution_id = e.header.execution_id;
  exit_code = as_signed 32 e.exit_code;
}

-- The captured bytes are the first 4096 at most, as many as the event holds.
abbrev pub io_fields : IoEvent → ParsedIoEvent
io_fields e = record {
  pid = e.header.pid;
  ppid = e.header.ppid;
  uid = e.header.uid;
  gid = e.header.gid;
  euid = e.header.euid;
  comm = c_text e.header.comm;
  tty_nr = e.header.tty_nr;
  cgroup_id = e.header.cgroup_id;
  execution_id = e.header.execution_id;
  fd = e.fd;
  payload = take (min e.data_len 4096) e.payload;
  count = e.count;
}

until_nul-c_bytes : (bytes : List ℕ) → until_nul bytes ≡ c_bytes bytes
unfolding until_nul
until_nul-c_bytes [] = refl
until_nul-c_bytes (zero ∷ bytes) = refl
until_nul-c_bytes (suc b ∷ bytes) = ground (arith, until_nul-c_bytes bytes)

cstr_from_bytes-c_text : (bytes : List ℕ) → cstr_from_bytes bytes ≡ c_text bytes
unfolding cstr_from_bytes
cstr_from_bytes-c_text bytes = ap from_utf8_lossy (until_nul-c_bytes bytes)

texts : (rows : List (List ℕ)) → map cstr_from_bytes rows ≡ map c_text rows
texts [] = refl
texts (row ∷ rows) = rw (cstr_from_bytes-c_text row, texts rows) refl

pub exec_of-exec_fields : (e : ExecEvent) → exec_of e ≡ exec_fields e
unfolding exec_of
exec_of-exec_fields e =
    rw (cstr_from_bytes-c_text e.header.comm, cstr_from_bytes-c_text e.filename, texts _) refl

pub exit_of-exit_fields : (e : ExitEvent) → exit_of e ≡ exit_fields e
unfolding exit_of
exit_of-exit_fields e = rw (cstr_from_bytes-c_text e.header.comm) refl

pub io_of-io_fields : (e : IoEvent) → io_of e ≡ io_fields e
unfolding io_of
io_of-io_fields e = rw (cstr_from_bytes-c_text e.header.comm) refl
