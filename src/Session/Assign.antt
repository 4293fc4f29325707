-- ===== src/Session/Assign.antt =====
-- How a process gets its session.
use shellspectre.Base.{
  ℕ, ◌≡◌, refl, inl, inr, Option-cases, Map, Option, none, some, List, arith, ◌==◌, if◌then◌else◌,
  is_some, unwrap_or, lookup, insert, remove, lookup-insert,
}
use shellspectre.SessionId.{SessionId, generate_session_id, generate_session_id-drawn}
use shellspectre.Session.{
  SessionCorrelator, ProcessInfo, EventInfo, process_of, session_of, on_exec, session_for, on_exit,
}

-- The session of a terminal, if one was opened on it.
unfoldable pub tty_session : SessionCorrelator → ℕ → Option SessionId
tty_session c nr = elim (lookup nr c.tty_sessions) [ none ↦ none | some t ↦ some t.session_id ]

abbrev or_then {ℓ} : {A : Type ℓ} → Option A → Option A → Option A
or_then none other = other
or_then (some a) other = some a

-- The session that the priorities of the module name: the process's own if it is tracked, then the
-- terminal's, then the parent's, then a fresh one, of which there is none if no bytes can be drawn.
unfoldable pub assigned : EventInfo → Option (List ℕ) → SessionCorrelator → Option SessionId
assigned info fill c = or_then (session_of info.pid c) (
    if info.tty_nr == 0
    then or_then (session_of info.ppid c) (generate_session_id fill)
    else or_then (tty_session c info.tty_nr) (generate_session_id fill))

-- Where the priorities give a session, `on_exec` returns it, and does not miss the key that it indexes;
-- the process is tracked with that session and the metadata of the event, on a first exec and on a
-- re-exec; and no other process is touched.
pub on_exec-tracks :
    (info : EventInfo) (fill : Option (List ℕ)) (c : SessionCorrelator) (k : ℕ) (sid : SessionId)
    → assigned info fill c ≡ some sid
    → let (result, c') = on_exec info fill c in
      (result ≡ some sid)
      × (lookup k c'.pid_map
          ≡ (if info.pid == k then some (process_of info sid) else lookup k c.pid_map))
unfolding on_exec assigned tty_session
on_exec-tracks info fill c k sid h = ground (
  arith,
  lookup-insert info.pid info.pid (process_of info sid) c.pid_map,
  lookup-insert info.pid k (process_of info sid) c.pid_map,
)

-- `session_for` returns the session of the priorities too; it tracks an untracked process as
-- `on_exec` does, leaves a tracked one with the metadata that it has, and touches no other process.
pub session_for-tracks :
    (info : EventInfo) (fill : Option (List ℕ)) (c : SessionCorrelator) (k : ℕ) (sid : SessionId)
    → assigned info fill c ≡ some sid
    → let (result, c') = session_for info fill c in
      (result ≡ some sid)
      × (lookup k c'.pid_map ≡ (
          if info.pid == k
          then some (unwrap_or (lookup info.pid c.pid_map) (process_of info sid))
          else lookup k c.pid_map))
unfolding session_for assigned tty_session
session_for-tracks info fill c k sid h = ground (
  arith,
  lookup-insert info.pid info.pid (process_of info sid) c.pid_map,
  lookup-insert info.pid k (process_of info sid) c.pid_map,
)

-- Where there is no session, an operation panics before it changes anything.
pub on_exec_panics :
    (info : EventInfo) (fill : Option (List ℕ)) (c : SessionCorrelator)
    → assigned info fill c ≡ none
    → on_exec info fill c ≡ (none, c)
unfolding on_exec assigned tty_session
on_exec_panics info fill c h = ground arith

pub session_for_panics :
    (info : EventInfo) (fill : Option (List ℕ)) (c : SessionCorrelator)
    → assigned info fill c ≡ none
    → session_for info fill c ≡ (none, c)
unfolding session_for assigned tty_session
session_for_panics info fill c h = ground arith

-- There is a session wherever the bytes can be drawn.
pub assigned-drawn :
    (info : EventInfo) (buf : List ℕ) (c : SessionCorrelator)
    → (sid : SessionId) × (assigned info (some buf) c ≡ some sid)
unfolding assigned
assigned-drawn info buf c =
    let (drawn, d) = generate_session_id-drawn buf in
    elim (Option-cases (assigned info (some buf) c)) [
      | inl e ↦ absurd (ground (arith, e, d))
      | inr (sid, e) ↦ (sid, e)
    ]

-- Without a session, the bytes could not be drawn.
pub assigned-eq-none :
    (info : EventInfo) (fill : Option (List ℕ)) (c : SessionCorrelator)
    → assigned info fill c ≡ none
    → fill ≡ none
assigned-eq-none info none c h = refl
assigned-eq-none info (some buf) c h =
    let (sid, e) = assigned-drawn info buf c in absurd (ground (arith, h, e))

abbrev pub tracked : EventInfo → Option SessionId → Map ProcessInfo → Map ProcessInfo
tracked info none m = m
tracked info (some sid) m = insert info.pid (process_of info sid) m

-- What the calls write: one entry, for the process of the event.
pub pid_map-on_exec :
    (info : EventInfo) (fill : Option (List ℕ)) (c : SessionCorrelator)
    → (on_exec info fill c).1.pid_map ≡ tracked info (assigned info fill c) c.pid_map
unfolding on_exec assigned tty_session
pid_map-on_exec info fill c = ground arith

pub pid_map-session_for :
    (info : EventInfo) (fill : Option (List ℕ)) (c : SessionCorrelator)
    → (session_for info fill c).1.pid_map ≡ (
        if is_some (lookup info.pid c.pid_map)
        then c.pid_map
        else tracked info (assigned info fill c) c.pid_map)
unfolding session_for assigned tty_session
pid_map-session_for info fill c = ground arith

pub pid_map-on_exit :
    (pid : ℕ) (c : SessionCorrelator)
    → (on_exit pid c).1.pid_map
      ≡ (if is_some (lookup pid c.pid_map) then remove pid c.pid_map else c.pid_map)
unfolding on_exit
pid_map-on_exit pid c = ground arith

pub session_of-session_for :
    (info : EventInfo) (fill : Option (List ℕ)) (c : SessionCorrelator) (sid : SessionId)
    → assigned info fill c ≡ some sid
    → session_of info.pid (session_for info fill c).1 ≡ some sid
unfolding session_for
session_of-session_for info fill c sid h = (session_for-tracks info fill c info.pid sid h).0
