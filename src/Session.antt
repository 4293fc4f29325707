-- ===== src/Session.antt =====
-- The session correlator: shspectr/src/session.rs.
use shellspectre.Base.{
  ℕ, zero, suc, Bool, true, false, not, ◌&&◌, Option, none, some, List, [], ◌∷◌, ◌==◌,
  if◌then◌else◌, any, Map, lookup, insert, remove, values, Text, text_eq,
}
pub mod Assign
pub mod Trace
pub mod Validity
pub mod Exits
pub mod Ancestors
use shellspectre.SessionId.{SessionId, generate_session_id}

-- Information about a tracked process.
pub record ProcessInfo : Type 0 where
  pub session_id : SessionId
  pub ppid : ℕ
  pub tty_nr : ℕ
  pub comm : Text
  pub execution_id : ℕ

-- The session of a terminal.
pub record TtySession : Type 0 where
  pub session_id : SessionId

pub record ExitInfo : Type 0 where
  pub session_id : SessionId
  pub session_complete : Bool

pub record SessionCorrelator : Type 0 where
  pub pid_map : Map ProcessInfo
  pub tty_sessions : Map TtySession

abbrev pub default : SessionCorrelator
default = record { pid_map = []; tty_sessions = [] }

pub record EventInfo : Type 0 where
  pub pid : ℕ
  pub ppid : ℕ
  pub tty_nr : ℕ
  pub comm : Text
  pub execution_id : ℕ

-- The first process on a terminal opens the session of the terminal, if an identifier was drawn.
open_tty : Option SessionId → ℕ → SessionCorrelator → Option SessionId × SessionCorrelator
open_tty none nr c = (none, c)
open_tty (some sid) nr c =
    (some sid, record c { tty_sessions = insert nr (record { session_id = sid }) c.tty_sessions })

resolve_tty :
    Option TtySession
    → ℕ
    → Option (List ℕ)
    → SessionCorrelator
    → Option SessionId × SessionCorrelator
unfolding open_tty
resolve_tty (some tty) nr fill c = (some tty.session_id, c)
resolve_tty none nr fill c = open_tty (generate_session_id fill) nr c

resolve_parent : Option ProcessInfo → Option (List ℕ) → Option SessionId
resolve_parent (some parent) fill = some parent.session_id
resolve_parent none fill = generate_session_id fill

-- `resolve_session`. `fill` is what `getrandom::fill` does if an identifier is drawn; an operation draws at
-- most one. No identifier is the panic of a draw that fails.
resolve_session :
    EventInfo → Option (List ℕ) → SessionCorrelator → Option SessionId × SessionCorrelator
unfolding resolve_tty resolve_parent
resolve_session info fill c =
    if info.tty_nr == 0
    then (resolve_parent (lookup info.ppid c.pid_map) fill, c)
    else resolve_tty (lookup info.tty_nr c.tty_sessions) info.tty_nr fill c

-- the `ProcessInfo` literal of `on_exec` and `session_for`
abbrev pub process_of : EventInfo → SessionId → ProcessInfo
process_of info sid = record {
  session_id = sid;
  ppid = info.ppid;
  tty_nr = info.tty_nr;
  comm = info.comm;
  execution_id = info.execution_id;
}

-- `&self.pid_map[&pid].session_id`; `none` is the panic of a
-- missing key, and of the draw in front of it
unfoldable pub session_of : ℕ → SessionCorrelator → Option SessionId
session_of pid c = elim (lookup pid c.pid_map) [ none ↦ none | some p ↦ some p.session_id ]

-- the `pid_map.insert` behind `resolve_session`, which a panic does not reach
track : EventInfo → Option SessionId × SessionCorrelator → SessionCorrelator
track info (none, c) = c
track info (some sid, c) = record c { pid_map = insert info.pid (process_of info sid) c.pid_map }

-- A re-exec keeps the session and refreshes the rest.
exec_map : Option ProcessInfo → EventInfo → Option (List ℕ) → SessionCorrelator → SessionCorrelator
unfolding track resolve_session
exec_map (some existing) info fill c = record c {
  pid_map = insert info.pid (process_of info existing.session_id) c.pid_map;
}
exec_map none info fill c = track info (resolve_session info fill c)

pub on_exec : EventInfo → Option (List ℕ) → SessionCorrelator → Option SessionId × SessionCorrelator
unfolding exec_map session_of
on_exec info fill c =
    let c' = exec_map (lookup info.pid c.pid_map) info fill c in (session_of info.pid c', c')

touch_map : Option ProcessInfo → EventInfo → Option (List ℕ) → SessionCorrelator → SessionCorrelator
unfolding track resolve_session
touch_map (some existing) info fill c = c
touch_map none info fill c = track info (resolve_session info fill c)

pub session_for :
    EventInfo → Option (List ℕ) → SessionCorrelator → Option SessionId × SessionCorrelator
unfolding touch_map session_of
session_for info fill c =
    let c' = touch_map (lookup info.pid c.pid_map) info fill c in (session_of info.pid c', c')

-- The exit of a process, with the map that is left.
exit_info : ProcessInfo → Map ProcessInfo → ExitInfo
exit_info info rest = record {
  session_id = info.session_id;
  session_complete =
      (info.tty_nr == 0)
      && not (
          any (λ (tracked : ProcessInfo). text_eq tracked.session_id info.session_id)
            (values rest));
}

exit_with : Option ProcessInfo → ℕ → SessionCorrelator → Option ExitInfo × SessionCorrelator
unfolding exit_info
exit_with none pid c = (none, c)
exit_with (some info) pid c =
    let rest = remove pid c.pid_map in (some (exit_info info rest), record c { pid_map = rest })

pub on_exit : ℕ → SessionCorrelator → Option ExitInfo × SessionCorrelator
unfolding exit_with
on_exit pid c = exit_with (lookup pid c.pid_map) pid c

-- The rounds of `for _ in 0..32`; each `break` ends the list.
ancestors : ℕ → ℕ → Map ProcessInfo → List Text
ancestors zero current m = []
ancestors (suc n) current m = elim (lookup current m) [
  | none ↦ []
  | some info ↦ elim (info.ppid == current) [
    | true ↦ []
    | false ↦ elim (lookup info.ppid m) [
      | none ↦ []
      | some parent ↦ parent.comm ∷ ancestors n info.ppid m
    ]
  ]
]

abbrev pub max_levels : ℕ
max_levels = 32

pub ancestor_comms : ℕ → SessionCorrelator → List Text
unfolding ancestors
ancestor_comms pid c = ancestors max_levels pid c.pid_map
