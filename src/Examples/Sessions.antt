-- ===== src/Examples/Sessions.antt =====
-- The session correlator.
use shellspectre.Base.{
  ℕ, ◌≤◌, ◌≡◌, refl, ◌∙◌, ◌↔◌, true, some, List, [], ◌∷◌, arith, ◌==◌, if◌then◌else◌, length, take,
  lookup, codes,
}
use shellspectre.Session.{
  ProcessInfo, SessionCorrelator, default, EventInfo, ExitInfo, process_of, session_of, on_exec,
  on_exit, ancestor_comms, max_levels,
}
use shellspectre.Session.Assign.{assigned-drawn, assigned, on_exec-tracks}
use shellspectre.Session.Trace.{exec, exit, step, run, pty_shared, session_kept}
use shellspectre.Session.Validity.{default-IsWellFormed, run-IsWellFormed}
use shellspectre.Session.Exits.{IsShared, on_exit-untracks, on_exit-complete_iff}
use shellspectre.Session.Ancestors.{IsChain, end, up, ancestor_comms-exact}

abbrev drawn : List ℕ
drawn = 0 ∷ 1 ∷ 2 ∷ 3 ∷ 4 ∷ 5 ∷ 6 ∷ 7 ∷ []

abbrev shell : EventInfo
shell = record { pid = 7; ppid = 6; tty_nr = 1; comm = codes "bash"; execution_id = 5 }

abbrev child : EventInfo
child = record { pid = 8; ppid = 7; tty_nr = 1; comm = codes "ls"; execution_id = 6 }

abbrev bash : ProcessInfo
bash = record {
  session_id = codes "ox_00000000";
  ppid = 6;
  tty_nr = 0;
  comm = codes "bash";
  execution_id = 5;
}

abbrev ls : ProcessInfo
ls = record bash { ppid = 7; comm = codes "ls" }

-- two processes of one session
abbrev two : SessionCorrelator
two = record { pid_map = (8, ls) ∷ (7, bash) ∷ []; tty_sessions = [] }

pty_shared_example :
    (on_exec child (some drawn) (run (exit 7 ∷ []) (on_exec shell (some drawn) default).1)).0
    ≡ (on_exec shell (some drawn) default).0
unfolding run step lookup
pty_shared_example =
    pty_shared shell child drawn (some drawn) default (exit 7 ∷ []) (λ e. omega (arith, e)) refl
      refl
      ((on_exit-untracks 7 8 (on_exec shell (some drawn) default).1).0
        ∙ (on_exec-tracks shell (some drawn) default 8 _ (assigned-drawn shell drawn default).1).1)

session_kept_example :
    session_of 7 (run (exec shell (some drawn) ∷ exit 8 ∷ []) two) ≡ some (codes "ox_00000000")
unfolding session_of lookup
session_kept_example =
    session_kept (exec shell (some drawn) ∷ exit 8 ∷ []) two 7 (codes "ox_00000000")
      (tt, (λ e. omega (arith, e), tt)) refl

run-IsWellFormed_example :
    shellspectre.Session.Validity.IsWellFormed (run (exec shell (some drawn) ∷ exit 7 ∷ []) default)
run-IsWellFormed_example =
    run-IsWellFormed (exec shell (some drawn) ∷ exit 7 ∷ []) default (refl, (tt, tt))
      default-IsWellFormed

on_exec-tracks_example :
    let (result, c') = on_exec shell (some drawn) two in
    (result ≡ some (codes "ox_00000000"))
    × (lookup 7 c'.pid_map ≡ (
        if shell.pid == 7
        then some (process_of shell (codes "ox_00000000"))
        else lookup 7 two.pid_map))
unfolding assigned session_of lookup
on_exec-tracks_example = on_exec-tracks shell (some drawn) two 7 (codes "ox_00000000") refl

on_exit-complete_iff_example :
    (report : ExitInfo) × ((on_exit 7 two).0 ≡ some report)
    × (report.session_id ≡ bash.session_id)
    × ((report.session_complete ≡ true) ↔ ((bash.tty_nr ≡ 0) × ¬ (IsShared 7 bash.session_id two)))
unfolding lookup
on_exit-complete_iff_example = on_exit-complete_iff 7 bash two (refl, (refl, tt)) refl

ancestor_comms-exact_example :
    IsChain two.pid_map 8 (ancestor_comms 8 two)
    × (length (ancestor_comms 8 two) ≤ max_levels)
    × (take 1 (ancestor_comms 8 two) ≡ codes "bash" ∷ [])
unfolding lookup
ancestor_comms-exact_example =
    ancestor_comms-exact 8 two (codes "bash" ∷ [])
      (up ls bash refl (λ e. omega (arith, e)) refl end) (omega arith)
