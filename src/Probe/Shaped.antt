-- ===== src/Probe/Shaped.antt =====
-- The shape of the probes' state: what the probes on execve and exit_group keep of it.
use shellspectre.Base.{
  ℕ, ◌^◌, ◌<◌, ◌≡◌, refl, ◌⊎◌, inl, inr, Bool, true, false, Option, none, some, arith,
  if◌then◌else◌, Option-cases, if-both, unwrap_or, All, lookup, lookup-insert, lookup-remove, err,
}
use shellspectre.Wire.{exec, read, write, exit, ExecEvent}
use shellspectre.Event.Layout.{ExecFits, IoFits, ExitFits}
use shellspectre.Event.Parse.{IsCurrent}
use shellspectre.Probe.Kernel.{
  Env, Setup, tgid_of, is_self, check_not_self, Pending, RingEvent, exec_event, io_event,
  exit_event, State, start, Run,
}
use shellspectre.Probe.Exec.{
  exec_scratch, stash_exec, enter_execve, try_sys_enter_execve, submit_exec, exit_execve,
  try_sys_exit_execve, submit_exit, enter_exit_group, try_sys_enter_exit_group,
}
use shellspectre.Probe.Typed.{IsTyped, fill_header-Fits, exec_scratch-ExecFits, finished-ExecFits}

-- The event has the shape of its type.
abbrev pub IsReadable : RingEvent → Type 0
IsReadable (exec_event e) = ExecFits e × IsCurrent exec e.header
IsReadable (io_event e) = IoFits e × (IsCurrent read e.header ⊎ IsCurrent write e.header)
IsReadable (exit_event e) = ExitFits e × IsCurrent exit e.header

pub record Shaped (s : State) : Type 0 where
  pub tracked : (t x : ℕ) → lookup t s.exec_pids ≡ some x → x < 2 ^ 64
  pub execs :
      (k : ℕ) (e : ExecEvent)
      → lookup k s.pending_exec ≡ some e
      → ExecFits e × IsCurrent exec e.header
  pub reads : (k : ℕ) (p : Pending) → lookup k s.pending_read ≡ some p → p.fd < 2 ^ 32
  pub writes : (k : ℕ) (p : Pending) → lookup k s.pending_write ≡ some p → p.fd < 2 ^ 32
  pub events : All IsReadable s.events

pub start-Shaped : Shaped start
start-Shaped = record {
  tracked = λ t x h. unfold lookup in cc h;
  execs = λ k e h. unfold lookup in cc h;
  reads = λ k p h. unfold lookup in cc h;
  writes = λ k p h. unfold lookup in cc h;
  events = tt;
}

stash_exec-Shaped :
    (set : Setup) (env : Env) (f a : Option ℕ) (s : State)
    → IsTyped env
    → Shaped s
    → Shaped (stash_exec set env env.pid_tgid f a s).1
unfolding stash_exec
stash_exec-Shaped set env none a s t i = i
stash_exec-Shaped set env (some f) none s t i = i
stash_exec-Shaped set env (some f) (some a) s t i = record {
  tracked = i.tracked;
  execs = λ k e h. grind (
    arith,
    i.execs k e,
    exec_scratch-ExecFits set env f a t,
    lookup-insert env.pid_tgid k (exec_scratch set env env.pid_tgid f a) s.pending_exec,
  );
  reads = i.reads;
  writes = i.writes;
  events = i.events;
}

submit_exec-Shaped :
    (env : Env) (retval : ℕ) (e : ExecEvent) (s : State)
    → IsTyped env
    → retval < 2 ^ 64
    → ExecFits e × IsCurrent exec e.header
    → Shaped s
    → Shaped (submit_exec env retval e s).1
unfolding submit_exec
submit_exec-Shaped env retval e s t hr f i =
    if-both (λ (r : Run). Shaped r.1) env.reserve _ _
      (λ _. record {
        tracked = λ k x h. ground (
          arith,
          t.ktime,
          i.tracked k x,
          lookup-insert (tgid_of env.pid_tgid) k env.ktime s.exec_pids,
        );
        execs = λ k p h. i.execs k p (ground (arith, lookup-remove env.pid_tgid k s.pending_exec));
        reads = i.reads;
        writes = i.writes;
        events = (finished-ExecFits e env.ktime retval t.ktime hr f, i.events);
      })
      (λ _. record {
        tracked = i.tracked;
        execs = λ k p h. i.execs k p (ground (arith, lookup-remove env.pid_tgid k s.pending_exec));
        reads = i.reads;
        writes = i.writes;
        events = i.events;
      })

tracked-lt : (s : State) (k : ℕ) → Shaped s → unwrap_or (lookup k s.exec_pids) 0 < 2 ^ 64
tracked-lt s k i = elim (Option-cases (lookup k s.exec_pids)) [
  | inl e ↦ ground (arith, e)
  | inr (x, e) ↦ ground (arith, e, i.tracked k x)
]

submit_exit-Shaped :
    (set : Setup) (env : Env) (code : ℕ) (s : State)
    → IsTyped env
    → Shaped s
    → Shaped (submit_exit set env env.pid_tgid code s).1
unfolding submit_exit
submit_exit-Shaped set env code s t i =
    let h =
      fill_header-Fits set env exit (unwrap_or (lookup (tgid_of env.pid_tgid) s.exec_pids) 0) t
        (tracked-lt s (tgid_of env.pid_tgid) i) in
    if-both (λ (r : Run). Shaped r.1) env.reserve _ _
      (λ _. record {
        tracked = λ k x e.
            i.tracked k x (ground (arith, lookup-remove (tgid_of env.pid_tgid) k s.exec_pids));
        execs = i.execs;
        reads = λ k p e. i.reads k p (ground (arith, lookup-remove env.pid_tgid k s.pending_read));
        writes =
            λ k p e. i.writes k p (ground (arith, lookup-remove env.pid_tgid k s.pending_write));
        events = ((record { header = h.0; exit_code = omega arith }, h.1), i.events);
      })
      (λ _. i)

pub enter_execve-Shaped :
    (set : Setup) (env : Env) (s : State)
    → IsTyped env
    → Shaped s
    → Shaped (try_sys_enter_execve set env s).1
unfolding try_sys_enter_execve enter_execve check_not_self
enter_execve-Shaped set env s t i = go (is_self set.self_tgid (tgid_of env.pid_tgid))
  where
    go :
        (self : Bool) → Shaped (enter_execve set env (if self then none else some env.pid_tgid) s).1
    go true = i
    go false =
        if-both (λ (r : Run). Shaped r.1) env.scratch
          (stash_exec set env env.pid_tgid (env.ctx_at 16) (env.ctx_at 24) s) (err 1, s)
          (λ _. stash_exec-Shaped set env (env.ctx_at 16) (env.ctx_at 24) s t i) (λ _. i)

pub exit_execve-Shaped :
    (env : Env) (s : State) → IsTyped env → Shaped s → Shaped (try_sys_exit_execve env s).1
unfolding try_sys_exit_execve exit_execve
exit_execve-Shaped env s t i = go (env.ctx_at 16) (lookup env.pid_tgid s.pending_exec) refl refl
  where
    go :
        (ret : Option ℕ) (found : Option ExecEvent)
        → env.ctx_at 16 ≡ ret
        → lookup env.pid_tgid s.pending_exec ≡ found
        → Shaped (exit_execve env ret found s).1
    go none found r e = i
    go (some ret) none r e = i
    go (some ret) (some p) r e =
        submit_exec-Shaped env ret p s t (t.ctx_at 16 ret r) (i.execs env.pid_tgid p e) i

pub exit_group-Shaped :
    (set : Setup) (env : Env) (s : State)
    → IsTyped env
    → Shaped s
    → Shaped (try_sys_enter_exit_group set env s).1
unfolding try_sys_enter_exit_group enter_exit_group check_not_self
exit_group-Shaped set env s t i = go (is_self set.self_tgid (tgid_of env.pid_tgid)) (env.ctx_at 16)
  where
    go :
        (self : Bool) (code : Option ℕ)
        → Shaped (enter_exit_group set env (if self then none else some env.pid_tgid) code s).1
    go true code = i
    go false none = i
    go false (some code) = submit_exit-Shaped set env code s t i
