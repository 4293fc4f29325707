-- ===== src/Probe/Readable.antt =====
-- From the events that the probes submit to the daemon's parsers.
use shellspectre.Base.{
  ℕ, ◌^◌, ◌<◌, ◌≡◌, refl, inl, inr, Option, none, some, List, [], ◌∷◌, arith, All, lookup,
  lookup-insert, lookup-remove, ok,
}
use shellspectre.Wire.{read, write}
use shellspectre.Event.{exec_of, io_of, exit_of, parsed_exec, parsed_io, parsed_exit}
use shellspectre.Event.Layout.{exec_onto, io_onto, exit_onto}
use shellspectre.Event.Parse.{parsed_exec-exec_of, parsed_exit-exit_of, parsed_io-io_of}
use shellspectre.Probe.Kernel.{
  Env, Setup, Pending, RingEvent, exec_event, io_event, exit_event, State, start,
}
use shellspectre.Probe.Io.{
  stash_write, stash_read, exit_write, exit_read, try_sys_enter_write, try_sys_exit_write,
  try_sys_enter_read, try_sys_exit_read,
}
use shellspectre.Probe.Trace.{
  Probe, sys_enter_execve, sys_exit_execve, sys_enter_exit_group, sys_enter_write, sys_exit_write,
  sys_enter_read, sys_exit_read, fire, run,
}
use shellspectre.Probe.Typed.{IsTyped}
use shellspectre.Probe.Branches.{enter_write-either, enter_read-either}
use shellspectre.Probe.Shaped.{
  IsReadable, Shaped, start-Shaped, enter_execve-Shaped, exit_execve-Shaped, exit_group-Shaped,
}
use shellspectre.Probe.Built.{submitted-Readable}

-- one run of a probe, with helpers that keep their types
abbrev pub TypedCall : Probe × Env → Type 0
TypedCall (_, env) = IsTyped env

stash_write-Shaped :
    (env : Env) (fd : ℕ) (buf count : Option ℕ) (s : State)
    → fd < 2 ^ 32
    → Shaped s
    → Shaped (stash_write env env.pid_tgid fd buf count s).1
unfolding stash_write
stash_write-Shaped env fd none count s h i = i
stash_write-Shaped env fd (some b) none s h i = i
stash_write-Shaped env fd (some b) (some c) s h i = record {
  tracked = i.tracked;
  execs = i.execs;
  writes = λ k q e. ground (
    arith,
    i.writes k q,
    lookup-insert env.pid_tgid k (record { fd = fd; buf_ptr = b; count = c }) s.pending_write,
  );
  reads = i.reads;
  events = i.events;
}

enter_write-Shaped :
    (set : Setup) (env : Env) (s : State) → Shaped s → Shaped (try_sys_enter_write set env s).1
enter_write-Shaped set env s i =
    enter_write-either Shaped set env s i
      (λ fd h _. stash_write-Shaped env fd (env.ctx_at 24) (env.ctx_at 32) s h i)

exit_write-Shaped :
    (set : Setup) (env : Env) (s : State)
    → IsTyped env
    → Shaped s
    → Shaped (try_sys_exit_write set env s).1
unfolding try_sys_exit_write exit_write
exit_write-Shaped set env s t i = go (lookup env.pid_tgid s.pending_write) (env.ctx_at 16) refl refl
  where
    go :
        (found : Option Pending) (ret : Option ℕ)
        → lookup env.pid_tgid s.pending_write ≡ found
        → env.ctx_at 16 ≡ ret
        → Shaped (exit_write set env found ret s).1
    go none ret e r = i
    go (some p) none e r = i
    go (some p) (some ret) e r = record {
      tracked = i.tracked;
      execs = i.execs;
      writes = λ k q h. i.writes k q (ground (arith, lookup-remove env.pid_tgid k s.pending_write));
      reads = i.reads;
      events =
          submitted-Readable set env write p ret s refl t (i.writes env.pid_tgid p e)
            (t.ctx_at 16 ret r) i;
    }

stash_read-Shaped :
    (env : Env) (fd : ℕ) (buf count : Option ℕ) (s : State)
    → fd < 2 ^ 32
    → Shaped s
    → Shaped (stash_read env env.pid_tgid fd buf count s).1
unfolding stash_read
stash_read-Shaped env fd none count s h i = i
stash_read-Shaped env fd (some b) none s h i = i
stash_read-Shaped env fd (some b) (some c) s h i = record {
  tracked = i.tracked;
  execs = i.execs;
  reads = λ k q e. ground (
    arith,
    i.reads k q,
    lookup-insert env.pid_tgid k (record { fd = fd; buf_ptr = b; count = c }) s.pending_read,
  );
  writes = i.writes;
  events = i.events;
}

enter_read-Shaped :
    (set : Setup) (env : Env) (s : State) → Shaped s → Shaped (try_sys_enter_read set env s).1
enter_read-Shaped set env s i =
    enter_read-either Shaped set env s i
      (λ fd h _. stash_read-Shaped env fd (env.ctx_at 24) (env.ctx_at 32) s h i)

exit_read-Shaped :
    (set : Setup) (env : Env) (s : State)
    → IsTyped env
    → Shaped s
    → Shaped (try_sys_exit_read set env s).1
unfolding try_sys_exit_read exit_read
exit_read-Shaped set env s t i = go (lookup env.pid_tgid s.pending_read) (env.ctx_at 16) refl refl
  where
    go :
        (found : Option Pending) (ret : Option ℕ)
        → lookup env.pid_tgid s.pending_read ≡ found
        → env.ctx_at 16 ≡ ret
        → Shaped (exit_read set env found ret s).1
    go none ret e r = i
    go (some p) none e r = i
    go (some p) (some ret) e r = record {
      tracked = i.tracked;
      execs = i.execs;
      reads = λ k q h. i.reads k q (ground (arith, lookup-remove env.pid_tgid k s.pending_read));
      writes = i.writes;
      events =
          submitted-Readable set env read p ret s refl t (i.reads env.pid_tgid p e)
            (t.ctx_at 16 ret r) i;
    }

fire-Shaped :
    (set : Setup) (p : Probe) (env : Env) (s : State)
    → IsTyped env
    → Shaped s
    → Shaped (fire set p env s).1
unfolding fire
fire-Shaped set sys_enter_execve env s t i = enter_execve-Shaped set env s t i
fire-Shaped set sys_exit_execve env s t i = exit_execve-Shaped env s t i
fire-Shaped set sys_enter_exit_group env s t i = exit_group-Shaped set env s t i
fire-Shaped set sys_enter_write env s t i = enter_write-Shaped set env s i
fire-Shaped set sys_exit_write env s t i = exit_write-Shaped set env s t i
fire-Shaped set sys_enter_read env s t i = enter_read-Shaped set env s i
fire-Shaped set sys_exit_read env s t i = exit_read-Shaped set env s t i

run-Shaped :
    (set : Setup) (calls : List (Probe × Env)) (s : State)
    → All TypedCall calls
    → Shaped s
    → Shaped (run set calls s)
unfolding run
run-Shaped set [] s t i = i
run-Shaped set ((p, env) ∷ calls) s t i =
    run-Shaped set calls (fire set p env s).1 t.1 (fire-Shaped set p env s t.0 i)

-- The parser of the event's type gives the event's fields back, whatever follows the event.
abbrev pub IsParsed : RingEvent → Type 0
IsParsed (exec_event e) = (rest : List ℕ) → parsed_exec (exec_onto e rest) ≡ ok (exec_of e)
IsParsed (io_event e) = (rest : List ℕ) → parsed_io (io_onto e rest) ≡ ok (io_of e)
IsParsed (exit_event e) = (rest : List ℕ) → parsed_exit (exit_onto e rest) ≡ ok (exit_of e)

readable-IsParsed : (l : List RingEvent) → All IsReadable l → All IsParsed l
readable-IsParsed [] a = tt
readable-IsParsed (exec_event e ∷ l) ((f, c), a) =
    (λ rest. parsed_exec-exec_of e rest f c, readable-IsParsed l a)
readable-IsParsed (exit_event e ∷ l) ((f, c), a) =
    (λ rest. parsed_exit-exit_of e rest f c, readable-IsParsed l a)
readable-IsParsed (io_event e ∷ l) ((f, inl c), a) =
    (λ rest. parsed_io-io_of read e rest refl f c, readable-IsParsed l a)
readable-IsParsed (io_event e ∷ l) ((f, inr c), a) =
    (λ rest. parsed_io-io_of write e rest refl f c, readable-IsParsed l a)

-- Kernel and daemon agree: whatever sequence of probes runs, if the kernel's helpers answer values of
-- their types and fill the buffers that they are given, then the daemon's parsers accept every event
-- that was submitted, and return its fields.
pub run-IsParsed :
    (set : Setup) (calls : List (Probe × Env))
    → All TypedCall calls
    → All IsParsed (run set calls start).events
run-IsParsed set calls t =
    readable-IsParsed (run set calls start).events
      (run-Shaped set calls start t start-Shaped).events
