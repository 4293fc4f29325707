-- ===== src/Probe/Branches.antt =====
-- The branches of the entry probes on read and write.
use shellspectre.Base.{
  ℕ, ◌%◌, ◌^◌, ◌<◌, ◌≡◌, refl, Bool, true, false, not, ◌&&◌, Option, none, some, arith, ◌==◌,
  if◌then◌else◌, if-both, is_some, lookup, ok,
}
use shellspectre.Probe.Kernel.{Env, Setup, tgid_of, is_self, check_not_self, is_pty_fd, State, Run}
use shellspectre.Probe.Io.{
  stash_write, stash_read, enter_write, enter_read, try_sys_enter_write, try_sys_enter_read,
}

-- What holds of the state before the entry probe, and behind the stash, holds behind the probe.
arg_write-either :
    (P : State → Type 0) (set : Setup) (env : Env) (arg : ℕ) (s : State)
    → P s
    → P (stash_write env env.pid_tgid (arg % 2 ^ 32) (env.ctx_at 24) (env.ctx_at 32) s).1
    → P (enter_write set env (some env.pid_tgid) (some arg) s).1
unfolding enter_write
arg_write-either P set env arg s now stashed =
    if-both (λ (r : Run). P r.1)
      (not (arg % 2 ^ 32 == 1) && not (arg % 2 ^ 32 == 2) && not (is_pty_fd set env (arg % 2 ^ 32)))
      (ok tt, s)
      (if not (is_some (lookup (tgid_of env.pid_tgid) s.exec_pids))
        then (ok tt, s)
        else stash_write env env.pid_tgid (arg % 2 ^ 32) (env.ctx_at 24) (env.ctx_at 32) s)
      (λ _. now)
      (λ _.
        if-both (λ (r : Run). P r.1) (not (is_some (lookup (tgid_of env.pid_tgid) s.exec_pids)))
          (ok tt, s) (stash_write env env.pid_tgid (arg % 2 ^ 32) (env.ctx_at 24) (env.ctx_at 32) s)
          (λ _. now) (λ _. stashed))

pub enter_write-either :
    (P : State → Type 0) (set : Setup) (env : Env) (s : State)
    → P s
    → ((fd : ℕ)
        → fd < 2 ^ 32
        → is_self set.self_tgid (tgid_of env.pid_tgid) ≡ false
        → P (stash_write env env.pid_tgid fd (env.ctx_at 24) (env.ctx_at 32) s).1)
    → P (try_sys_enter_write set env s).1
unfolding try_sys_enter_write enter_write check_not_self
enter_write-either P set env s now stashed =
    go (is_self set.self_tgid (tgid_of env.pid_tgid)) (env.ctx_at 16) refl
  where
    go :
        (self : Bool) (arg : Option ℕ)
        → is_self set.self_tgid (tgid_of env.pid_tgid) ≡ self
        → P (enter_write set env (if self then none else some env.pid_tgid) arg s).1
    go true arg e = now
    go false none e = now
    go false (some arg) e =
        arg_write-either P set env arg s now (stashed (arg % 2 ^ 32) (omega arith) e)

-- What holds of the state before the entry probe, and behind the stash, holds behind the probe.
arg_read-either :
    (P : State → Type 0) (set : Setup) (env : Env) (arg : ℕ) (s : State)
    → P s
    → P (stash_read env env.pid_tgid (arg % 2 ^ 32) (env.ctx_at 24) (env.ctx_at 32) s).1
    → P (enter_read set env (some env.pid_tgid) (some arg) s).1
unfolding enter_read
arg_read-either P set env arg s now stashed =
    if-both (λ (r : Run). P r.1) (not (arg % 2 ^ 32 == 0) && not (is_pty_fd set env (arg % 2 ^ 32)))
      (ok tt, s)
      (if not (is_some (lookup (tgid_of env.pid_tgid) s.exec_pids))
        then (ok tt, s)
        else stash_read env env.pid_tgid (arg % 2 ^ 32) (env.ctx_at 24) (env.ctx_at 32) s)
      (λ _. now)
      (λ _.
        if-both (λ (r : Run). P r.1) (not (is_some (lookup (tgid_of env.pid_tgid) s.exec_pids)))
          (ok tt, s) (stash_read env env.pid_tgid (arg % 2 ^ 32) (env.ctx_at 24) (env.ctx_at 32) s)
          (λ _. now) (λ _. stashed))

pub enter_read-either :
    (P : State → Type 0) (set : Setup) (env : Env) (s : State)
    → P s
    → ((fd : ℕ)
        → fd < 2 ^ 32
        → is_self set.self_tgid (tgid_of env.pid_tgid) ≡ false
        → P (stash_read env env.pid_tgid fd (env.ctx_at 24) (env.ctx_at 32) s).1)
    → P (try_sys_enter_read set env s).1
unfolding try_sys_enter_read enter_read check_not_self
enter_read-either P set env s now stashed =
    go (is_self set.self_tgid (tgid_of env.pid_tgid)) (env.ctx_at 16) refl
  where
    go :
        (self : Bool) (arg : Option ℕ)
        → is_self set.self_tgid (tgid_of env.pid_tgid) ≡ self
        → P (enter_read set env (if self then none else some env.pid_tgid) arg s).1
    go true arg e = now
    go false none e = now
    go false (some arg) e =
        arg_read-either P set env arg s now (stashed (arg % 2 ^ 32) (omega arith) e)
