-- ===== src/Session/Trace.antt =====
-- What holds over every sequence of events that the correlator is fed.
use shellspectre.Base.{
  ℕ, ◌≡◌, inl, inr, Option, Option-cases, sym, ◌∙◌, ◌≢◌, none, some, List, [], ◌∷◌, arith, All,
  lookup, lookup-insert, lookup-remove,
}
use shellspectre.SessionId.{SessionId, generate_session_id, generate_session_id-drawn}
use shellspectre.Session.{
  SessionCorrelator, EventInfo, process_of, session_of, on_exec, session_for, on_exit,
}
use shellspectre.Session.Assign.{
  assigned, assigned-drawn, tty_session, on_exec-tracks, pid_map-on_exec, pid_map-session_for,
}

-- One call of the correlator, with what the random bytes that it may draw are.
pub data Op : Type 0 where
  exec : EventInfo → Option (List ℕ) → Op
  touch : EventInfo → Option (List ℕ) → Op
  exit : ℕ → Op

unfoldable pub step : Op → SessionCorrelator → SessionCorrelator
step (exec info fill) c = (on_exec info fill c).1
step (touch info fill) c = (session_for info fill c).1
step (exit pid) c = (on_exit pid c).1

unfoldable pub run : List Op → SessionCorrelator → SessionCorrelator
run [] c = c
run (op ∷ ops) c = run ops (step op c)

-- Once a terminal has a session, it keeps it.
tty_session-step :
    (op : Op) (c : SessionCorrelator) (nr : ℕ) (sid : SessionId)
    → tty_session c nr ≡ some sid
    → tty_session (step op c) nr ≡ some sid
unfolding step on_exec session_for on_exit tty_session
tty_session-step (exec info fill) c nr sid h = elim (Option-cases (generate_session_id fill)) [
  | inl e ↦ ground (arith, e)
  | inr (new, e) ↦
      ground (arith, e, lookup-insert info.tty_nr nr (record { session_id = new }) c.tty_sessions)
]
tty_session-step (touch info fill) c nr sid h = elim (Option-cases (generate_session_id fill)) [
  | inl e ↦ ground (arith, e)
  | inr (new, e) ↦
      ground (arith, e, lookup-insert info.tty_nr nr (record { session_id = new }) c.tty_sessions)
]
tty_session-step (exit pid) c nr sid h = ground arith

tty_session-run :
    (ops : List Op) (c : SessionCorrelator) (nr : ℕ) (sid : SessionId)
    → tty_session c nr ≡ some sid
    → tty_session (run ops c) nr ≡ some sid
unfolding run
tty_session-run [] c nr sid h = h
tty_session-run (op ∷ ops) c nr sid h =
    tty_session-run ops (step op c) nr sid (tty_session-step op c nr sid h)

-- The first exec on a terminal leaves the session of the process with the terminal.
tty_session-on_exec :
    (info : EventInfo) (buf : List ℕ) (c : SessionCorrelator)
    → lookup info.pid c.pid_map ≡ none
    → info.tty_nr ≢ 0
    → tty_session (on_exec info (some buf) c).1 info.tty_nr ≡ (on_exec info (some buf) c).0
unfolding on_exec tty_session assigned session_of
tty_session-on_exec info buf c new nz =
    let (drawn, d) = generate_session_id-drawn buf in
    let (sid, e) = assigned-drawn info buf c in
    ground (
      arith,
      d,
      lookup-insert info.tty_nr info.tty_nr (record { session_id = drawn }) c.tty_sessions,
      lookup-insert info.pid info.pid (process_of info drawn) c.pid_map,
      e,
      (on_exec-tracks info (some buf) c info.pid sid e).0,
    )

-- A new process on a terminal that has a session joins it.
on_exec-joins :
    (info : EventInfo) (fill : Option (List ℕ)) (c : SessionCorrelator) (sid : SessionId)
    → lookup info.pid c.pid_map ≡ none
    → info.tty_nr ≢ 0
    → tty_session c info.tty_nr ≡ some sid
    → (on_exec info fill c).0 ≡ some sid
unfolding assigned session_of
on_exec-joins info fill c sid new nz h =
    (on_exec-tracks info fill c info.pid sid (ground (arith, h, new))).0

-- Two processes that are first seen on the same terminal share a session, whatever the correlator
-- is fed between the two execs: exits of the first one included. The first one can draw its bytes.
pub pty_shared :
    (a b : EventInfo) (buf : List ℕ) (fill : Option (List ℕ)) (c : SessionCorrelator)
    (between : List Op)
    → a.tty_nr ≢ 0
    → a.tty_nr ≡ b.tty_nr
    → lookup a.pid c.pid_map ≡ none
    → lookup b.pid (run between (on_exec a (some buf) c).1).pid_map ≡ none
    → (on_exec b fill (run between (on_exec a (some buf) c).1)).0 ≡ (on_exec a (some buf) c).0
pty_shared a b buf fill c between nz same new new' =
    let (sid, e) = assigned-drawn a buf c in
    let first = (on_exec-tracks a (some buf) c a.pid sid e).0 in
    let opened = tty_session-on_exec a buf c new nz ∙ first in
    let kept = tty_session-run between (on_exec a (some buf) c).1 a.tty_nr sid opened in
    let c2 = run between (on_exec a (some buf) c).1 in
    let kept' : tty_session c2 b.tty_nr ≡ some sid = rw (sym same) kept in
    on_exec-joins b fill c2 sid new' (λ z. nz (same ∙ z)) kept' ∙ sym first

-- The events that do not end a process.
abbrev pub Spares : ℕ → Op → Type 0
Spares pid (exec _ _) = Unit
Spares pid (touch _ _) = Unit
Spares pid (exit p) = p ≢ pid

session_of-step :
    (op : Op) (c : SessionCorrelator) (pid : ℕ) (sid : SessionId)
    → Spares pid op
    → session_of pid c ≡ some sid
    → session_of pid (step op c) ≡ some sid
unfolding step session_of assigned
session_of-step (exec info fill) c pid sid sp h = elim (Option-cases (assigned info fill c)) [
  | inl e ↦ ground (arith, pid_map-on_exec info fill c, e)
  | inr (new, e) ↦ ground (
    arith,
    pid_map-on_exec info fill c,
    e,
    lookup-insert info.pid pid (process_of info new) c.pid_map,
  )
]
session_of-step (touch info fill) c pid sid sp h = elim (Option-cases (assigned info fill c)) [
  | inl e ↦ ground (arith, pid_map-session_for info fill c, e)
  | inr (new, e) ↦ ground (
    arith,
    pid_map-session_for info fill c,
    e,
    lookup-insert info.pid pid (process_of info new) c.pid_map,
  )
]
session_of-step (exit p) c pid sid sp h =
    unfold on_exit in ground (arith, lookup-remove p pid c.pid_map)

-- A tracked process keeps its session over every sequence of events that does not hold its exit:
-- re-execs on another terminal and events of other processes included.
pub session_kept :
    (ops : List Op) (c : SessionCorrelator) (pid : ℕ) (sid : SessionId)
    → All (Spares pid) ops
    → session_of pid c ≡ some sid
    → session_of pid (run ops c) ≡ some sid
unfolding run
session_kept [] c pid sid sp h = h
session_kept (op ∷ ops) c pid sid sp h =
    session_kept ops (step op c) pid sid sp.1 (session_of-step op c pid sid sp.0 h)
