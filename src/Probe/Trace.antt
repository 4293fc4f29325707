-- ===== src/Probe/Trace.antt =====
-- What holds of the ring buffer over every sequence of probe runs.
use shellspectre.Base.{
  ℕ, ◌≡◌, refl, ◌⊎◌, inr, Bool, true, false, Option, none, some, List, [], ◌∷◌, arith,
  if◌then◌else◌, All, lookup, lookup-insert, lookup-remove, as_signed, is_negative,
}
use shellspectre.Wire.{ExecEvent}
use shellspectre.Probe.Kernel.{
  Env, Setup, tgid_of, is_self, fill_header, Pending, RingEvent, exec_event, io_event, exit_event,
  State, start, Run,
}
use shellspectre.Probe.Exec.{
  stash_exec, exec_scratch, submit_exec, submit_exit, exit_execve, enter_exit_group,
  try_sys_enter_execve, try_sys_exit_execve, try_sys_enter_exit_group,
}
use shellspectre.Probe.Io.{
  try_sys_enter_write, try_sys_exit_write, try_sys_enter_read, try_sys_exit_read,
}

-- The seven tracepoints.
pub data Probe : Type 0 where
  sys_enter_execve sys_exit_execve sys_enter_exit_group : Probe
  sys_enter_write sys_exit_write sys_enter_read sys_exit_read : Probe

unfoldable pub fire : Setup → Probe → Env → State → Run
fire set sys_enter_execve env s = try_sys_enter_execve set env s
fire set sys_exit_execve env s = try_sys_exit_execve env s
fire set sys_enter_exit_group env s = try_sys_enter_exit_group set env s
fire set sys_enter_write env s = try_sys_enter_write set env s
fire set sys_exit_write env s = try_sys_exit_write set env s
fire set sys_enter_read env s = try_sys_enter_read set env s
fire set sys_exit_read env s = try_sys_exit_read set env s

unfoldable pub run : Setup → List (Probe × Env) → State → State
run set [] s = s
run set ((p, env) ∷ rest) s = run set rest (fire set p env s).1

-- An exec that succeeded stands in the history, with the process and the execution.
abbrev pub Execd : ℕ → ℕ → List RingEvent → Type 0
Execd pid execution_id [] = ⊥
Execd pid execution_id (exec_event e ∷ l) =
    ((e.header.pid ≡ pid)
      × (e.header.execution_id ≡ execution_id)
      × (is_negative (as_signed 64 e.retval) ≡ false))
    ⊎ Execd pid execution_id l
Execd pid execution_id (io_event e ∷ l) = Execd pid execution_id l
Execd pid execution_id (exit_event e ∷ l) = Execd pid execution_id l

-- Each read or write event comes after a successful exec of its process and execution.
abbrev pub Justified : List RingEvent → Type 0
Justified [] = Unit
Justified (exec_event e ∷ l) = Justified l
Justified (io_event e ∷ l) = Execd e.header.pid e.header.execution_id l × Justified l
Justified (exit_event e ∷ l) = Justified l

-- The event is not about the recorder's own process.
abbrev pub NotSelf : Setup → RingEvent → Type 0
NotSelf set (exec_event e) = is_self set.self_tgid e.header.pid ≡ false
NotSelf set (io_event e) = is_self set.self_tgid e.header.pid ≡ false
NotSelf set (exit_event e) = is_self set.self_tgid e.header.pid ≡ false

pub record Inv (set : Setup) (s : State) : Type 0 where
  pub execd : (t x : ℕ) → lookup t s.exec_pids ≡ some x → Execd t x s.events
  pub execs :
      (k : ℕ) (e : ExecEvent)
      → lookup k s.pending_exec ≡ some e
      → (e.header.pid ≡ tgid_of k) × (is_self set.self_tgid (tgid_of k) ≡ false)
  pub reads :
      (k : ℕ) (p : Pending)
      → lookup k s.pending_read ≡ some p
      → is_self set.self_tgid (tgid_of k) ≡ false
  pub writes :
      (k : ℕ) (p : Pending)
      → lookup k s.pending_write ≡ some p
      → is_self set.self_tgid (tgid_of k) ≡ false
  pub justified : Justified s.events
  pub others : All (NotSelf set) s.events

pub start-Inv : (set : Setup) → Inv set start
start-Inv set = record {
  execd = λ t x h. unfold lookup in cc h;
  execs = λ k e h. unfold lookup in cc h;
  reads = λ k p h. unfold lookup in cc h;
  writes = λ k p h. unfold lookup in cc h;
  justified = tt;
  others = tt;
}

pub Execd-cons : (t x : ℕ) (e : RingEvent) (l : List RingEvent) → Execd t x l → Execd t x (e ∷ l)
Execd-cons t x (exec_event e) l h = inr h
Execd-cons t x (io_event e) l h = h
Execd-cons t x (exit_event e) l h = h

stash_exec-execs :
    (set : Setup) (env : Env) (f a : Option ℕ) (s : State) (k : ℕ) (e : ExecEvent)
    → is_self set.self_tgid (tgid_of env.pid_tgid) ≡ false
    → Inv set s
    → lookup k (stash_exec set env env.pid_tgid f a s).1.pending_exec ≡ some e
    → (e.header.pid ≡ tgid_of k) × (is_self set.self_tgid (tgid_of k) ≡ false)
unfolding stash_exec fill_header
stash_exec-execs set env none a s k e n i h = i.execs k e h
stash_exec-execs set env (some f) none s k e n i h = i.execs k e h
stash_exec-execs set env (some f) (some a) s k e n i h = ground (
  arith,
  i.execs k e,
  lookup-insert env.pid_tgid k (exec_scratch set env env.pid_tgid f a) s.pending_exec,
)

pub enter_execve-Inv :
    (set : Setup) (env : Env) (s : State) → Inv set s → Inv set (try_sys_enter_execve set env s).1
unfolding try_sys_enter_execve
enter_execve-Inv set env s i = record {
  execd = λ t x h. ground (arith, i.execd t x);
  execs = λ k e h.
      ground (arith, i.execs k e, stash_exec-execs set env (env.ctx_at 16) (env.ctx_at 24) s k e);
  reads = λ k p h. ground (arith, i.reads k p);
  writes = λ k p h. ground (arith, i.writes k p);
  justified = ground (arith, i.justified);
  others = ground (arith, i.others);
}

-- the state behind a successful exec, and what it keeps
submit_exec-Inv :
    (set : Setup) (env : Env) (retval : ℕ) (e : ExecEvent) (s : State)
    → lookup env.pid_tgid s.pending_exec ≡ some e
    → Inv set s
    → Inv set (submit_exec env retval e s).1
unfolding submit_exec
submit_exec-Inv set env retval e s found i = record {
  execd = λ t x h. ground (
    arith,
    i.execd t x,
    i.execs env.pid_tgid e,
    lookup-insert (tgid_of env.pid_tgid) t env.ktime s.exec_pids,
  );
  execs = λ k e' h. ground (arith, i.execs k e', lookup-remove env.pid_tgid k s.pending_exec);
  reads = λ k p h. ground (arith, i.reads k p);
  writes = λ k p h. ground (arith, i.writes k p);
  justified = ground (arith, i.justified);
  others = ground (arith, i.others, i.execs env.pid_tgid e);
}

pub exit_execve-Inv :
    (set : Setup) (env : Env) (s : State) → Inv set s → Inv set (try_sys_exit_execve env s).1
unfolding try_sys_exit_execve
exit_execve-Inv set env s i = go (env.ctx_at 16) (lookup env.pid_tgid s.pending_exec) refl
  where
    go :
        (ret : Option ℕ) (found : Option ExecEvent)
        → lookup env.pid_tgid s.pending_exec ≡ found
        → Inv set (exit_execve env ret found s).1
    go none found e = i
    go (some ret) none e = i
    go (some ret) (some p) e = submit_exec-Inv set env ret p s e i

submit_exit-Inv :
    (set : Setup) (env : Env) (code : ℕ) (s : State)
    → is_self set.self_tgid (tgid_of env.pid_tgid) ≡ false
    → Inv set s
    → Inv set (submit_exit set env env.pid_tgid code s).1
unfolding submit_exit fill_header
submit_exit-Inv set env code s n i = record {
  execd = λ t x h. ground (arith, i.execd t x, lookup-remove (tgid_of env.pid_tgid) t s.exec_pids);
  execs = λ k e h. ground (arith, i.execs k e);
  reads = λ k p h. ground (arith, i.reads k p, lookup-remove env.pid_tgid k s.pending_read);
  writes = λ k p h. ground (arith, i.writes k p, lookup-remove env.pid_tgid k s.pending_write);
  justified = ground (arith, i.justified);
  others = ground (arith, i.others);
}

pub exit_group-Inv :
    (set : Setup) (env : Env) (s : State)
    → Inv set s
    → Inv set (try_sys_enter_exit_group set env s).1
unfolding try_sys_enter_exit_group
exit_group-Inv set env s i = go (is_self set.self_tgid (tgid_of env.pid_tgid)) (env.ctx_at 16) refl
  where
    go :
        (self : Bool) (code : Option ℕ)
        → is_self set.self_tgid (tgid_of env.pid_tgid) ≡ self
        → Inv set (enter_exit_group set env (if self then none else some env.pid_tgid) code s).1
    go true code e = i
    go false none e = i
    go false (some code) e = submit_exit-Inv set env code s e i
