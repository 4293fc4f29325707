-- ===== src/Session/Validity.antt =====
-- What the correlator's maps hold.
use shellspectre.Base.{
  ℕ, ◌≡◌, refl, Map, Option, none, inl, inr, true, some, List, [], ◌∷◌, arith, Bool-cases,
  Option-cases, is_some, length, All, lookup, lookup-insert, lookup-remove, IsUnique,
  insert-IsUnique, remove-IsUnique,
}
use shellspectre.SessionId.{
  SessionId, generate_session_id-none, is_valid, generate_session_id, is_valid-generate_session_id,
  suffix_len,
}
use shellspectre.Session.{
  ProcessInfo, TtySession, SessionCorrelator, default, EventInfo, process_of, session_of,
  resolve_session, track, exec_map, touch_map, on_exec, session_for, on_exit,
}
use shellspectre.Session.Assign.{
  assigned, tracked, tty_session, pid_map-on_exec, pid_map-session_for, pid_map-on_exit,
}
use shellspectre.Session.Trace.{Op, exec, touch, exit, step, run}

-- The correlator's maps hold each key once, and only identifiers that `SessionId::is_valid` accepts.
pub record IsWellFormed (c : SessionCorrelator) : Type 0 where
  pub unique_pids : IsUnique c.pid_map
  pub valid_pids :
      (pid : ℕ) (p : ProcessInfo) → lookup pid c.pid_map ≡ some p → is_valid p.session_id ≡ true
  pub valid_ttys :
      (nr : ℕ) (t : TtySession) → lookup nr c.tty_sessions ≡ some t → is_valid t.session_id ≡ true

-- The operating system fills in the eight bytes that are asked for, or fails.
abbrev pub IsFill : Option (List ℕ) → Type 0
IsFill none = Unit
IsFill (some buf) = length buf ≡ suffix_len

abbrev pub Drawn : Op → Type 0
Drawn (exec _ fill) = IsFill fill
Drawn (touch _ fill) = IsFill fill
Drawn (exit _) = Unit

drawn-valid :
    (fill : Option (List ℕ)) (sid : SessionId)
    → IsFill fill
    → generate_session_id fill ≡ some sid
    → is_valid sid ≡ true
drawn-valid none sid drawn e = absurd (ground (arith, e, generate_session_id-none))
drawn-valid (some buf) sid drawn e = is_valid-generate_session_id buf sid drawn e

assigned-valid :
    (info : EventInfo) (fill : Option (List ℕ)) (c : SessionCorrelator) (sid : SessionId)
    → IsFill fill
    → IsWellFormed c
    → assigned info fill c ≡ some sid
    → is_valid sid ≡ true
unfolding assigned session_of tty_session
assigned-valid info fill c sid drawn w e = grind (
  arith,
  drawn-valid fill sid drawn,
  w.valid_pids info.pid,
  w.valid_pids info.ppid,
  w.valid_ttys info.tty_nr,
)

tty_sessions-resolve_session :
    (info : EventInfo) (fill : Option (List ℕ)) (c : SessionCorrelator)
    → IsFill fill
    → IsWellFormed c
    → (nr : ℕ) (t : TtySession) → lookup nr (resolve_session info fill c).1.tty_sessions ≡ some t
    → is_valid t.session_id ≡ true
unfolding resolve_session
tty_sessions-resolve_session info fill c drawn w nr t h =
    elim (Option-cases (generate_session_id fill)) [
      | inl e ↦ ground (arith, e, w.valid_ttys nr t)
      | inr (sid, e) ↦ ground (
        arith,
        e,
        drawn-valid fill sid drawn e,
        w.valid_ttys nr t,
        lookup-insert info.tty_nr nr (record { session_id = sid }) c.tty_sessions,
      )
    ]

track-tty_sessions :
    (info : EventInfo) (r : Option SessionId × SessionCorrelator)
    → (track info r).tty_sessions ≡ r.1.tty_sessions
unfolding track
track-tty_sessions info (none, c) = refl
track-tty_sessions info (some sid, c) = refl

step_ttys :
    (op : Op) (c : SessionCorrelator)
    → Drawn op
    → IsWellFormed c
    → (nr : ℕ) (t : TtySession) → lookup nr (step op c).tty_sessions ≡ some t
    → is_valid t.session_id ≡ true
unfolding step on_exec session_for on_exit
step_ttys (exec info fill) c d w nr t h = elim (Option-cases (lookup info.pid c.pid_map)) [
  | inl e ↦
      tty_sessions-resolve_session info fill c d w nr t (rw (e, exec_map, track-tty_sessions) at h)
  | inr (p, e) ↦ w.valid_ttys nr t (rw (e, exec_map) at h)
]
step_ttys (touch info fill) c d w nr t h = elim (Option-cases (lookup info.pid c.pid_map)) [
  | inl e ↦
      tty_sessions-resolve_session info fill c d w nr t (rw (e, touch_map, track-tty_sessions) at h)
  | inr (p, e) ↦ w.valid_ttys nr t (rw (e, touch_map) at h)
]
step_ttys (exit pid) c d w nr t h = w.valid_ttys nr t (ground arith)

insert-valid :
    (info : EventInfo) (fill : Option (List ℕ)) (c : SessionCorrelator)
    → IsFill fill
    → IsWellFormed c
    → (pid : ℕ) (p : ProcessInfo)
    → lookup pid (tracked info (assigned info fill c) c.pid_map) ≡ some p
    → is_valid p.session_id ≡ true
insert-valid info fill c d w pid p h = elim (Option-cases (assigned info fill c)) [
  | inl e ↦ w.valid_pids pid p (rw e at h)
  | inr (sid, e) ↦ ground (
    arith,
    e,
    w.valid_pids pid p,
    assigned-valid info fill c sid d w e,
    lookup-insert info.pid pid (process_of info sid) c.pid_map,
  )
]

step_pids :
    (op : Op) (c : SessionCorrelator)
    → Drawn op
    → IsWellFormed c
    → (pid : ℕ) (p : ProcessInfo) → lookup pid (step op c).pid_map ≡ some p
    → is_valid p.session_id ≡ true
unfolding step
step_pids (exec info fill) c d w pid p h =
    insert-valid info fill c d w pid p (rw (pid_map-on_exec info fill c) at h)
step_pids (touch info fill) c d w pid p h =
    ground (
      arith,
      pid_map-session_for info fill c,
      insert-valid info fill c d w pid p,
      w.valid_pids pid p,
    )
step_pids (exit q) c d w pid p h =
    unfold on_exit in ground (arith, lookup-remove q pid c.pid_map, w.valid_pids pid p)

tracked-IsUnique :
    (info : EventInfo) (sid : Option SessionId) (m : Map ProcessInfo)
    → IsUnique m
    → IsUnique (tracked info sid m)
tracked-IsUnique info none m u = u
tracked-IsUnique info (some sid) m u = insert-IsUnique _ _ _ u

step-IsUnique :
    (op : Op) (c : SessionCorrelator) → IsUnique c.pid_map → IsUnique (step op c).pid_map
unfolding step
step-IsUnique (exec info fill) c u = rw (pid_map-on_exec info fill c) (tracked-IsUnique info _ _ u)
step-IsUnique (touch info fill) c u =
    rw (pid_map-session_for info fill c) (elim (Bool-cases (is_some (lookup info.pid c.pid_map))) [
      | inl e ↦ rw e u
      | inr e ↦ rw e (tracked-IsUnique info _ _ u)
    ])
step-IsUnique (exit pid) c u =
    rw (pid_map-on_exit pid c) (elim (Bool-cases (is_some (lookup pid c.pid_map))) [
      | inl e ↦ rw e (remove-IsUnique _ _ u)
      | inr e ↦ rw e u
    ])

step-IsWellFormed :
    (op : Op) (c : SessionCorrelator) → Drawn op → IsWellFormed c → IsWellFormed (step op c)
step-IsWellFormed op c d w = record {
  unique_pids = step-IsUnique op c w.unique_pids;
  valid_pids = step_pids op c d w;
  valid_ttys = step_ttys op c d w;
}

-- From a well-formed correlator, every sequence of events leads to a well-formed one: no process
-- is tracked twice, and every session identifier in the maps has the documented form.
pub run-IsWellFormed :
    (ops : List Op) (c : SessionCorrelator)
    → All Drawn ops
    → IsWellFormed c
    → IsWellFormed (run ops c)
unfolding run
run-IsWellFormed [] c d w = w
run-IsWellFormed (op ∷ ops) c d w =
    run-IsWellFormed ops (step op c) d.1 (step-IsWellFormed op c d.0 w)

pub default-IsWellFormed : IsWellFormed default
default-IsWellFormed = record {
  unique_pids = tt;
  valid_pids = λ pid p h. unfold lookup in cc h;
  valid_ttys = λ nr t h. unfold lookup in cc h;
}
