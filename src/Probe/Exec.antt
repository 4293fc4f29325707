-- ===== src/Probe/Exec.antt =====
-- The probes on execve and exit_group.
use shellspectre.Base.{
  ℕ, zero, suc, ◌+◌, ◌-◌, ◌*◌, ◌%◌, ◌^◌, true, false, Option, none, some, List, [], ◌∷◌, ◌++◌, ◌==◌,
  if◌then◌else◌, unwrap_or, length, replicate, lookup, remove, as_signed, is_negative, ok, err,
}
use shellspectre.Wire.{exec, exit, ExecEvent, max_argv_count, max_arg_len, max_filename_len}
use shellspectre.Probe.Kernel.{
  Env, Setup, tgid_of, check_not_self, fill_header, exec_event, exit_event, State, store, Run,
}

abbrev empty_arg : List ℕ
empty_arg = replicate max_arg_len 0

-- The rounds of `for i in 0..MAX_ARGV_COUNT`; each `break` ends the list.
unfoldable pub read_args : ℕ → ℕ → Env → ℕ → List (List ℕ)
read_args zero i env argv_base = []
read_args (suc n) i env argv_base = elim (env.user_ptr ((argv_base + 8 * i) % 2 ^ 64)) [
  | none ↦ []
  | some arg_ptr ↦ elim (arg_ptr == 0) [
    | true ↦ []
    | false ↦ env.user_str arg_ptr max_arg_len ∷ read_args n (i + 1) env argv_base
  ]
]

-- The scratch event of `try_sys_enter_execve`, when it is stashed: every field is written on the way.
unfoldable pub exec_scratch : Setup → Env → ℕ → ℕ → ℕ → ExecEvent
unfolding read_args
exec_scratch set env pid_tgid filename_ptr argv_base =
    let args = read_args max_argv_count 0 env argv_base in
    record {
      header = fill_header set env exec pid_tgid 0;
      filename = env.user_str filename_ptr max_filename_len;
      argv = args ++ replicate (max_argv_count - length args) empty_arg;
      argc = length args;
      retval = 0;
    }

-- `none` is one of the two failed reads of the tracepoint's arguments
unfoldable pub stash_exec : Setup → Env → ℕ → Option ℕ → Option ℕ → State → Run
unfolding exec_scratch
stash_exec set env pid_tgid (some filename_ptr) (some argv_base) s = (
  ok tt,
  record s {
    pending_exec =
        store env pid_tgid (exec_scratch set env pid_tgid filename_ptr argv_base) s.pending_exec;
  },
)
stash_exec set env pid_tgid (some filename_ptr) none s = (err 1, s)
stash_exec set env pid_tgid none argv_base s = (err 1, s)

unfoldable pub enter_execve : Setup → Env → Option ℕ → State → Run
unfolding stash_exec
enter_execve set env none s = (ok tt, s)
enter_execve set env (some pid_tgid) s =
    if env.scratch
    then stash_exec set env pid_tgid (env.ctx_at 16) (env.ctx_at 24) s
    else (err 1, s)

-- `try_sys_enter_execve`
unfoldable pub try_sys_enter_execve : Setup → Env → State → Run
unfolding enter_execve check_not_self
try_sys_enter_execve set env s = enter_execve set env (check_not_self set env) s

-- The copy of the pending event that goes to the ring buffer.
abbrev pub finished : ExecEvent → ℕ → ℕ → ExecEvent
finished e execution_id retval = record e {
  header = record (e.header) { execution_id = execution_id };
  retval = retval;
}

-- the rest of `try_sys_exit_execve`, with the pending event
unfoldable pub submit_exec : Env → ℕ → ExecEvent → State → Run
submit_exec env retval e s =
    let cleaned = record s { pending_exec = remove env.pid_tgid s.pending_exec } in
    if env.reserve
    then (
      ok tt,
      record cleaned {
        events = exec_event (finished e env.ktime retval) ∷ s.events;
        exec_pids =
            if is_negative (as_signed 64 retval)
            then s.exec_pids
            else store env (tgid_of env.pid_tgid) env.ktime s.exec_pids;
      },
    )
    else (err 1, cleaned)

unfoldable pub exit_execve : Env → Option ℕ → Option ExecEvent → State → Run
unfolding submit_exec
exit_execve env none found s = (err 1, s)
exit_execve env (some retval) none s = (err 1, s)
exit_execve env (some retval) (some e) s = submit_exec env retval e s

-- `try_sys_exit_execve`
unfoldable pub try_sys_exit_execve : Env → State → Run
unfolding exit_execve
try_sys_exit_execve env s = exit_execve env (env.ctx_at 16) (lookup env.pid_tgid s.pending_exec) s

-- the rest of `try_sys_enter_exit_group`, with the exit code
unfoldable pub submit_exit : Setup → Env → ℕ → ℕ → State → Run
submit_exit set env pid_tgid error_code s =
    let tgid = tgid_of pid_tgid in
    let execution_id = unwrap_or (lookup tgid s.exec_pids) 0 in
    if env.reserve
    then (
      ok tt,
      record s {
        events =
            exit_event (record {
              header = fill_header set env exit pid_tgid execution_id;
              exit_code = error_code % 2 ^ 32;
            })
            ∷ s.events;
        exec_pids = remove tgid s.exec_pids;
        pending_write = remove pid_tgid s.pending_write;
        pending_read = remove pid_tgid s.pending_read;
      },
    )
    else (err 1, s)

unfoldable pub enter_exit_group : Setup → Env → Option ℕ → Option ℕ → State → Run
unfolding submit_exit
enter_exit_group set env none code s = (ok tt, s)
enter_exit_group set env (some pid_tgid) none s = (err 1, s)
enter_exit_group set env (some pid_tgid) (some code) s = submit_exit set env pid_tgid code s

-- `try_sys_enter_exit_group`
unfoldable pub try_sys_enter_exit_group : Setup → Env → State → Run
unfolding enter_exit_group check_not_self
try_sys_enter_exit_group set env s =
    enter_exit_group set env (check_not_self set env) (env.ctx_at 16) s
