-- ===== src/Handler.antt =====
-- The daemon's event handler and the sink interface: shspectr/src/handler.rs and sink.rs.
pub mod Filtering
pub mod Admission
pub mod Delivery
use shellspectre.Base.{
  ℕ, Bool, true, false, not, Option, none, some, List, [], ◌∷◌, if◌then◌else◌, Text, Result, ok,
  err,
}
use shellspectre.Wire.{
  EventType, exec, read, write, exit, EventHeader, decoded_event_type, header_try_from, ParseError,
}
use shellspectre.SessionId.{SessionId}
use shellspectre.Session.{
  SessionCorrelator, EventInfo, on_exec, session_for, on_exit, ancestor_comms, ExitInfo,
}
use shellspectre.Event.{
  ParsedExecEvent, ParsedExitEvent, ParsedIoEvent, parsed_exec, parsed_exit, parsed_io,
}
use shellspectre.Filter.{FilterConfig, no_filters, passes_filter}

pub record SessionInfo : Type 0 where
  pub session_id : SessionId
  pub pid : ℕ
  pub comm : Text
  pub uid : ℕ
  pub euid : ℕ
  pub tty_nr : ℕ
  pub cgroup_id : ℕ

-- The calls of the `Sink` trait.
pub data SinkCall : Type 0 where
  exec_call : SessionInfo → ParsedExecEvent → SinkCall
  exit_call : SessionInfo → ParsedExitEvent → Bool → SinkCall
  io_call : SessionInfo → ParsedIoEvent → EventType → SinkCall

-- What handling one event does beside the correlator: nothing, one call of the sink, or a panic, of a
-- missing map key or of a draw of random bytes that fails.
pub data Outcome : Type 0 where
  silent : Outcome
  delivered : SinkCall → Outcome
  panicked : Outcome

-- `if !filter_config.is_empty() { .. passes_filter .. }`
pub admitted : FilterConfig → ℕ → ℕ → Text → SessionCorrelator → Bool
admitted config pid tty_nr comm c =
    if not (no_filters config)
    then passes_filter config
        (record { tty_nr = tty_nr; comm = comm; ancestor_comms = ancestor_comms pid c })
    else true

pub exec_info : ParsedExecEvent → EventInfo
exec_info e = record {
  pid = e.pid;
  ppid = e.ppid;
  tty_nr = e.tty_nr;
  comm = e.comm;
  execution_id = e.execution_id;
}

pub exit_event_info : ParsedExitEvent → EventInfo
exit_event_info e = record {
  pid = e.pid;
  ppid = e.ppid;
  tty_nr = e.tty_nr;
  comm = e.comm;
  execution_id = e.execution_id;
}

pub io_info : ParsedIoEvent → EventInfo
io_info e = record {
  pid = e.pid;
  ppid = e.ppid;
  tty_nr = e.tty_nr;
  comm = e.comm;
  execution_id = e.execution_id;
}

pub exec_session : SessionId → ParsedExecEvent → SessionInfo
exec_session sid e = record {
  session_id = sid;
  pid = e.pid;
  comm = e.comm;
  uid = e.uid;
  euid = e.euid;
  tty_nr = e.tty_nr;
  cgroup_id = e.cgroup_id;
}

pub exit_session : SessionId → ParsedExitEvent → SessionInfo
exit_session sid e = record {
  session_id = sid;
  pid = e.pid;
  comm = e.comm;
  uid = e.uid;
  euid = e.euid;
  tty_nr = e.tty_nr;
  cgroup_id = e.cgroup_id;
}

pub io_session : SessionId → ParsedIoEvent → SessionInfo
io_session sid e = record {
  session_id = sid;
  pid = e.pid;
  comm = e.comm;
  uid = e.uid;
  euid = e.euid;
  tty_nr = e.tty_nr;
  cgroup_id = e.cgroup_id;
}

-- The indexing of the map, and the draw, behind `on_exec` and `session_for`.
or_panic : Option SessionId → (SessionId → Outcome) → Outcome
or_panic none k = panicked
or_panic (some sid) k = k sid

deliver_exec : FilterConfig → ParsedExecEvent → SessionCorrelator → SessionId → Outcome
unfolding admitted exec_session
deliver_exec config e c sid =
    if admitted config e.pid e.tty_nr e.comm c
    then delivered (exec_call (exec_session sid e) e)
    else silent

-- `handle_exec_event` behind the parser. `fill` is what `getrandom::fill` does, if it is called.
exec_with :
    Result ParseError ParsedExecEvent
    → Option (List ℕ)
    → FilterConfig
    → SessionCorrelator
    → Outcome × SessionCorrelator
unfolding deliver_exec exec_info or_panic
exec_with (err x) fill config c = (silent, c)
exec_with (ok e) fill config c =
    let (sid, c') = on_exec (exec_info e) fill c in (or_panic sid (deliver_exec config e c'), c')

pub handle_exec_event :
    List ℕ → Option (List ℕ) → FilterConfig → SessionCorrelator → Outcome × SessionCorrelator
unfolding exec_with
handle_exec_event bytes fill config c = exec_with (parsed_exec bytes) fill config c

pub is_complete : Option ExitInfo → Bool
is_complete none = false
is_complete (some info) = info.session_complete

deliver_exit :
    FilterConfig → ParsedExitEvent → SessionCorrelator → Option ExitInfo → SessionId → Outcome
unfolding admitted exit_session is_complete
deliver_exit config e c report sid =
    if admitted config e.pid e.tty_nr e.comm c
    then delivered (exit_call (exit_session sid e) e (is_complete report))
    else silent

-- `handle_exit_event` behind the parser: `on_exit` is called on both sides of the filter, after the
-- ancestors were read.
exit_with :
    Result ParseError ParsedExitEvent
    → Option (List ℕ)
    → FilterConfig
    → SessionCorrelator
    → Outcome × SessionCorrelator
unfolding deliver_exit exit_event_info or_panic
exit_with (err x) fill config c = (silent, c)
exit_with (ok e) fill config c =
    let (sid, c') = session_for (exit_event_info e) fill c in
    let (report, c'') = on_exit e.pid c' in (or_panic sid (deliver_exit config e c' report), c'')

pub handle_exit_event :
    List ℕ → Option (List ℕ) → FilterConfig → SessionCorrelator → Outcome × SessionCorrelator
unfolding exit_with
handle_exit_event bytes fill config c = exit_with (parsed_exit bytes) fill config c

deliver_io : FilterConfig → ParsedIoEvent → EventType → SessionCorrelator → SessionId → Outcome
unfolding admitted io_session
deliver_io config e t c sid =
    if admitted config e.pid e.tty_nr e.comm c
    then delivered (io_call (io_session sid e) e t)
    else silent

io_with :
    Result ParseError ParsedIoEvent
    → EventType
    → Option (List ℕ)
    → FilterConfig
    → SessionCorrelator
    → Outcome × SessionCorrelator
unfolding deliver_io io_info or_panic
io_with (err x) t fill config c = (silent, c)
io_with (ok e) t fill config c =
    let (sid, c') = session_for (io_info e) fill c in (or_panic sid (deliver_io config e t c'), c')

pub handle_io_event :
    EventType
    → List ℕ
    → Option (List ℕ)
    → FilterConfig
    → SessionCorrelator
    → Outcome × SessionCorrelator
unfolding io_with
handle_io_event t bytes fill config c = io_with (parsed_io bytes) t fill config c

-- `match event_type`
dispatch :
    EventType
    → List ℕ
    → Option (List ℕ)
    → FilterConfig
    → SessionCorrelator
    → Outcome × SessionCorrelator
dispatch exec bytes fill config c = handle_exec_event bytes fill config c
dispatch exit bytes fill config c = handle_exit_event bytes fill config c
dispatch read bytes fill config c = handle_io_event read bytes fill config c
dispatch write bytes fill config c = handle_io_event write bytes fill config c

-- the `let Some(event_type) .. else` of `handle_event`
dispatch_decoded :
    Option EventType
    → List ℕ
    → Option (List ℕ)
    → FilterConfig
    → SessionCorrelator
    → Outcome × SessionCorrelator
unfolding dispatch
dispatch_decoded none bytes fill config c = (silent, c)
dispatch_decoded (some t) bytes fill config c = dispatch t bytes fill config c

dispatch_header :
    Result ParseError EventHeader
    → List ℕ
    → Option (List ℕ)
    → FilterConfig
    → SessionCorrelator
    → Outcome × SessionCorrelator
unfolding dispatch_decoded
dispatch_header (err e) bytes fill config c = (silent, c)
dispatch_header (ok h) bytes fill config c =
    dispatch_decoded (decoded_event_type h) bytes fill config c

pub handle_event :
    List ℕ → Option (List ℕ) → FilterConfig → SessionCorrelator → Outcome × SessionCorrelator
unfolding dispatch_header
handle_event bytes fill config c = dispatch_header (header_try_from bytes) bytes fill config c

-- A panic ends the program: what comes after an event is left out then.
abbrev pub and_then :
    Outcome
    → SessionCorrelator
    → List SinkCall × SessionCorrelator
    → List SinkCall × SessionCorrelator
and_then (delivered call) c (calls, last) = (call ∷ calls, last)
and_then silent c rest = rest
and_then panicked c rest = ([], c)

-- The loop of `consume_events` over the items of the ring buffer, with the calls of the sink in order.
pub consume :
    List (List ℕ × Option (List ℕ))
    → FilterConfig
    → SessionCorrelator
    → List SinkCall × SessionCorrelator
consume [] config c = ([], c)
consume ((bytes, fill) ∷ items) config c =
    let (out, c') = handle_event bytes fill config c in and_then out c' (consume items config c')
