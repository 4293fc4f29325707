-- ===== src/Probe/Recording.antt =====
-- Sequences of probe runs: the read and write probes, and whole recordings.
use shellspectre.Base.{
  ℕ, ◌≡◌, refl, false, Option, none, some, List, [], ◌∷◌, arith, All, lookup, lookup-insert,
  lookup-remove,
}
use shellspectre.Wire.{read, write}
use shellspectre.Probe.Kernel.{Env, Setup, tgid_of, is_self, Pending, State, start}
use shellspectre.Probe.Io.{
  io_result, submitted, stash_write, stash_read, exit_write, exit_read, try_sys_enter_write,
  try_sys_exit_write, try_sys_enter_read, try_sys_exit_read,
}
use shellspectre.Probe.Trace.{
  Probe, sys_enter_execve, sys_exit_execve, sys_enter_exit_group, sys_enter_write, sys_exit_write,
  sys_enter_read, sys_exit_read, fire, run, Justified, NotSelf, Inv, start-Inv, enter_execve-Inv,
  exit_execve-Inv, exit_group-Inv,
}
use shellspectre.Probe.Branches.{enter_write-either, enter_read-either}
use shellspectre.Probe.Capture.{submitted-Justified, submitted-NotSelf, submitted-Execd}

exit_write-Inv :
    (set : Setup) (env : Env) (s : State) → Inv set s → Inv set (try_sys_exit_write set env s).1
unfolding try_sys_exit_write exit_write submitted
exit_write-Inv set env s i = go (lookup env.pid_tgid s.pending_write) (env.ctx_at 16) refl
  where
    go :
        (found : Option Pending) (ret : Option ℕ)
        → lookup env.pid_tgid s.pending_write ≡ found
        → Inv set (exit_write set env found ret s).1
    go none ret e = i
    go (some p) none e = i
    go (some p) (some ret) e = record {
      execd =
          λ t x h. submitted-Execd (io_result set env write p ret s) s.events t x (i.execd t x h);
      execs = i.execs;
      reads = i.reads;
      writes = λ k q h. ground (arith, i.writes k q, lookup-remove env.pid_tgid k s.pending_write);
      justified = submitted-Justified set env write p ret s i;
      others = submitted-NotSelf set env write p ret s (i.writes env.pid_tgid p e) i;
    }

exit_read-Inv :
    (set : Setup) (env : Env) (s : State) → Inv set s → Inv set (try_sys_exit_read set env s).1
unfolding try_sys_exit_read exit_read submitted
exit_read-Inv set env s i = go (lookup env.pid_tgid s.pending_read) (env.ctx_at 16) refl
  where
    go :
        (found : Option Pending) (ret : Option ℕ)
        → lookup env.pid_tgid s.pending_read ≡ found
        → Inv set (exit_read set env found ret s).1
    go none ret e = i
    go (some p) none e = i
    go (some p) (some ret) e = record {
      execd =
          λ t x h. submitted-Execd (io_result set env read p ret s) s.events t x (i.execd t x h);
      execs = i.execs;
      reads = λ k q h. ground (arith, i.reads k q, lookup-remove env.pid_tgid k s.pending_read);
      writes = i.writes;
      justified = submitted-Justified set env read p ret s i;
      others = submitted-NotSelf set env read p ret s (i.reads env.pid_tgid p e) i;
    }

stash_write-Inv :
    (set : Setup) (env : Env) (fd : ℕ) (buf count : Option ℕ) (s : State)
    → is_self set.self_tgid (tgid_of env.pid_tgid) ≡ false
    → Inv set s
    → Inv set (stash_write env env.pid_tgid fd buf count s).1
unfolding stash_write
stash_write-Inv set env fd none count s n i = i
stash_write-Inv set env fd (some b) none s n i = i
stash_write-Inv set env fd (some b) (some c) s n i = record {
  execd = i.execd;
  execs = i.execs;
  reads = i.reads;
  writes = λ k q h. ground (
    arith,
    i.writes k q,
    lookup-insert env.pid_tgid k (record { fd = fd; buf_ptr = b; count = c }) s.pending_write,
  );
  justified = i.justified;
  others = i.others;
}

stash_read-Inv :
    (set : Setup) (env : Env) (fd : ℕ) (buf count : Option ℕ) (s : State)
    → is_self set.self_tgid (tgid_of env.pid_tgid) ≡ false
    → Inv set s
    → Inv set (stash_read env env.pid_tgid fd buf count s).1
unfolding stash_read
stash_read-Inv set env fd none count s n i = i
stash_read-Inv set env fd (some b) none s n i = i
stash_read-Inv set env fd (some b) (some c) s n i = record {
  execd = i.execd;
  execs = i.execs;
  reads = λ k q h. ground (
    arith,
    i.reads k q,
    lookup-insert env.pid_tgid k (record { fd = fd; buf_ptr = b; count = c }) s.pending_read,
  );
  writes = i.writes;
  justified = i.justified;
  others = i.others;
}

enter_write-Inv :
    (set : Setup) (env : Env) (s : State) → Inv set s → Inv set (try_sys_enter_write set env s).1
enter_write-Inv set env s i =
    enter_write-either (Inv set) set env s i
      (λ fd _ n. stash_write-Inv set env fd (env.ctx_at 24) (env.ctx_at 32) s n i)

enter_read-Inv :
    (set : Setup) (env : Env) (s : State) → Inv set s → Inv set (try_sys_enter_read set env s).1
enter_read-Inv set env s i =
    enter_read-either (Inv set) set env s i
      (λ fd _ n. stash_read-Inv set env fd (env.ctx_at 24) (env.ctx_at 32) s n i)

fire-Inv :
    (set : Setup) (p : Probe) (env : Env) (s : State) → Inv set s → Inv set (fire set p env s).1
unfolding fire
fire-Inv set sys_enter_execve env s i = enter_execve-Inv set env s i
fire-Inv set sys_exit_execve env s i = exit_execve-Inv set env s i
fire-Inv set sys_enter_exit_group env s i = exit_group-Inv set env s i
fire-Inv set sys_enter_write env s i = enter_write-Inv set env s i
fire-Inv set sys_exit_write env s i = exit_write-Inv set env s i
fire-Inv set sys_enter_read env s i = enter_read-Inv set env s i
fire-Inv set sys_exit_read env s i = exit_read-Inv set env s i

run-Inv :
    (set : Setup) (calls : List (Probe × Env)) (s : State) → Inv set s → Inv set (run set calls s)
unfolding run
run-Inv set [] s i = i
run-Inv set ((p, env) ∷ calls) s i = run-Inv set calls (fire set p env s).1 (fire-Inv set p env s i)

-- Whatever the probes are called on, and in whatever order the threads reach them: every read or
-- write event that they submit comes after an exec event of the same process with the same
-- execution identifier and a return value that is no error. What ran before the recorder is not recorded.
pub run-Justified :
    (set : Setup) (calls : List (Probe × Env)) → Justified (run set calls start).events
run-Justified set calls = (run-Inv set calls start (start-Inv set)).justified

-- No event that the probes submit is about the recorder's own process, at any point of any sequence
-- of calls: the recorder does not feed on its own output.
pub run-NotSelf :
    (set : Setup) (calls : List (Probe × Env)) → All (NotSelf set) (run set calls start).events
run-NotSelf set calls = (run-Inv set calls start (start-Inv set)).others
