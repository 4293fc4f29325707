-- ===== src/Session/Exits.antt =====
-- What an exit reports and leaves behind.
use shellspectre.Base.{
  ℕ, ◌≡◌, refl, ◌≢◌, ◌↔◌, inl, inr, Bool, true, none, some, arith, ◌==◌, if◌then◌else◌, Bool-cases,
  Option-cases, is_some, any, lookup, remove, values, lookup-remove, text_eq, text_eq_refl,
  text_eq_sound, IsUnique, remove-IsUnique, lookup-any-values, any-values-lookup,
}
use shellspectre.SessionId.{SessionId}
use shellspectre.Session.{ProcessInfo, ExitInfo, SessionCorrelator, session_of, exit_info, on_exit}

-- Some process other than `pid` is tracked with the session.
pub IsShared : ℕ → SessionId → SessionCorrelator → Type 0
IsShared pid sid c = (k : ℕ) × (k ≢ pid) × (session_of k c ≡ some sid)

-- Exiting an untracked process reports nothing and changes nothing; exiting a tracked one reports
-- and stops tracking it, and leaves every other process and all terminals as they were.
pub on_exit-untracks :
    (pid k : ℕ) (c : SessionCorrelator)
    → let (report, c') = on_exit pid c in
      (lookup k c'.pid_map ≡ (if pid == k then none else lookup k c.pid_map))
      × (c'.tty_sessions ≡ c.tty_sessions)
      × (is_some report ≡ is_some (lookup pid c.pid_map))
unfolding on_exit
on_exit-untracks pid k c = ground (arith, lookup-remove pid k c.pid_map)

abbrev same_session : SessionId → ProcessInfo → Bool
same_session sid tracked = text_eq tracked.session_id sid

others-IsShared :
    (pid : ℕ) (p : ProcessInfo) (c : SessionCorrelator)
    → IsUnique c.pid_map
    → any (same_session p.session_id) (values (remove pid c.pid_map)) ≡ true
    → IsShared pid p.session_id c
unfolding IsShared session_of
others-IsShared pid p c u h = from (
    any-values-lookup (same_session p.session_id) (remove pid c.pid_map)
      (remove-IsUnique pid c.pid_map u) h)
  where
    from :
        (k : ℕ) × (v : ProcessInfo) × (lookup k (remove pid c.pid_map) ≡ some v)
          × (same_session p.session_id v ≡ true)
        → IsShared pid p.session_id c
    from (k, v, l, e) = (
      k,
      ground (arith, lookup-remove pid k c.pid_map),
      ground (arith, lookup-remove pid k c.pid_map, text_eq_sound v.session_id p.session_id),
    )

IsShared-others :
    (pid : ℕ) (p : ProcessInfo) (c : SessionCorrelator)
    → IsShared pid p.session_id c
    → any (same_session p.session_id) (values (remove pid c.pid_map)) ≡ true
unfolding IsShared session_of
IsShared-others pid p c (k, ne, s) = elim (Option-cases (lookup k c.pid_map)) [
  | inl e ↦ absurd (ground (arith, e))
  | inr (q, e) ↦
      lookup-any-values (same_session p.session_id) (remove pid c.pid_map) k q
        (ground (arith, lookup-remove pid k c.pid_map)) (ground (arith, text_eq_refl q.session_id))
]

-- The exit of a tracked process reports its session, and reports the session complete exactly when
-- the process has no terminal and no other tracked process is in the session.
pub on_exit-complete_iff :
    (pid : ℕ) (p : ProcessInfo) (c : SessionCorrelator)
    → IsUnique c.pid_map
    → lookup pid c.pid_map ≡ some p
    → (report : ExitInfo) × ((on_exit pid c).0 ≡ some report)
      × (report.session_id ≡ p.session_id)
      × ((report.session_complete ≡ true) ↔ ((p.tty_nr ≡ 0) × ¬ (IsShared pid p.session_id c)))
unfolding on_exit
on_exit-complete_iff pid p c u h = (
  exit_info p (remove pid c.pid_map),
  ground arith,
  refl,
  (
    λ done. (ground arith, λ s. ground (arith, IsShared-others pid p c s)),
    λ e. elim (Bool-cases (any (same_session p.session_id) (values (remove pid c.pid_map)))) [
      | inl t ↦ absurd (e.1 (others-IsShared pid p c u t))
      | inr f ↦ ground arith
    ],
  ),
)
