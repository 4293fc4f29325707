-- ===== src/Examples/Data.antt =====
-- Events and environments for the examples.
use shellspectre.Base.{
  ℕ, zero, suc, ◌+◌, ◌*◌, ◌^◌, refl, true, none, some, List, [], ◌∷◌, arith, replicate, All,
  length-replicate,
}
use shellspectre.Wire.{
  EventType, exec, write, exit, as_wire, EventHeader, ExecEvent, IoEvent, ExitEvent, max_argv_count,
  max_arg_len, max_data_len, max_filename_len, comm_len, wire_version,
}
use shellspectre.Wire.Layout.{Fits}
use shellspectre.Event.Layout.{IsRow, ExecFits, IoFits, ExitFits}
use shellspectre.Event.Parse.{IsCurrent}
use shellspectre.Probe.Kernel.{Env, Setup, Pending, State, start}
use shellspectre.Probe.Typed.{IsTyped}
use shellspectre.Probe.Trace.{
  Probe, sys_enter_execve, sys_exit_execve, sys_enter_exit_group, sys_enter_write, sys_exit_write,
}

-- Process 7 on terminal 1.
abbrev pub shell_header : EventType → EventHeader
shell_header t = record {
  event_type = as_wire t;
  version = wire_version;
  timestamp_ns = 1;
  pid = 7;
  ppid = 6;
  tgid = 7;
  tid = 7;
  uid = 1000;
  gid = 1000;
  euid = 1000;
  comm = replicate comm_len 0;
  tty_nr = 1;
  execution_id = 5;
  cgroup_id = 1;
}

pub shell_header-Fits : (t : EventType) → Fits (shell_header t) × IsCurrent t (shell_header t)
unfolding as_wire
shell_header-Fits t = (
  record {
    event_type = ground arith;
    version = omega arith;
    timestamp_ns = omega arith;
    pid = omega arith;
    ppid = omega arith;
    tgid = omega arith;
    tid = omega arith;
    uid = omega arith;
    gid = omega arith;
    euid = omega arith;
    comm = refl;
    tty_nr = omega arith;
    execution_id = omega arith;
    cgroup_id = omega arith;
  },
  record { version = refl; event_type = refl },
)

abbrev pub shell_exec : ExecEvent
shell_exec = record {
  header = shell_header exec;
  filename = replicate max_filename_len 0;
  argv = replicate max_argv_count (replicate max_arg_len 0);
  argc = 1;
  retval = 0;
}

rows-IsRow : (n : ℕ) → All IsRow (replicate n (replicate max_arg_len 0))
rows-IsRow zero = tt
rows-IsRow (suc n) = (length-replicate {A = ℕ} max_arg_len 0, rows-IsRow n)

pub shell_exec-ExecFits : ExecFits shell_exec
shell_exec-ExecFits = record {
  header = (shell_header-Fits exec).0;
  filename = length-replicate {A = ℕ} max_filename_len 0;
  argv = rows-IsRow max_argv_count;
  count = length-replicate max_argv_count (replicate {A = ℕ} max_arg_len 0);
  argc = omega arith;
  retval = omega arith;
}

abbrev pub shell_write : IoEvent
shell_write = record {
  header = shell_header write;
  fd = 1;
  data_len = 2;
  count = 2;
  payload = replicate max_data_len 104;
}

pub shell_write-IoFits : IoFits shell_write
shell_write-IoFits = record {
  header = (shell_header-Fits write).0;
  fd = omega arith;
  data_len = omega arith;
  count = omega arith;
  payload = length-replicate {A = ℕ} max_data_len 104;
}

abbrev pub shell_exit : ExitEvent
shell_exit = record { header = shell_header exit; exit_code = 0 }

pub shell_exit-ExitFits : ExitFits shell_exit
shell_exit-ExitFits = record { header = (shell_header-Fits exit).0; exit_code = omega arith }

-- The recorder is process 1.
abbrev pub recorder : Setup
recorder = record { self_tgid = some 1; offsets = [] }

-- Process 7 in a system call whose arguments and results are all 1.
abbrev pub call : Env
call = record {
  pid_tgid = 7 * 2 ^ 32 + 7;
  uid_gid = 0;
  task = 0;
  ktime = 5;
  cgroup_id = 1;
  comm = none;
  kernel_u64 = λ a. none;
  kernel_u32 = λ a. none;
  ctx_at = λ k. some 1;
  user_ptr = λ a. none;
  user_str = λ a n. replicate n 0;
  user_buf = λ a n. some (replicate n 104);
  scratch = true;
  reserve = true;
  stored = true;
}

pub call-IsTyped : IsTyped call
call-IsTyped = record {
  ktime = omega arith;
  cgroup_id = omega arith;
  comm = λ b h. absurd (cc);
  kernel_u32 = λ a v h. absurd (cc);
  ctx_at = λ k v h. ground arith;
  user_str = λ a n. length-replicate {A = ℕ} n 0;
  user_buf = λ a n b h. ground (arith, length-replicate {A = ℕ} n 104);
}

-- An exec, a write of one byte, and the exit.
abbrev pub calls : List (Probe × Env)
calls =
    (sys_enter_execve, call)
    ∷ (sys_exit_execve, call)
    ∷ (sys_enter_write, call)
    ∷ (sys_exit_write, call)
    ∷ (sys_enter_exit_group, call)
    ∷ []

-- A process that is tracked and waits in a write.
abbrev pub waiting : Pending
waiting = record { fd = 1; buf_ptr = 1; count = 1 }

abbrev pub in_write : State
in_write = record start { pending_write = (7 * 2 ^ 32 + 7, waiting) ∷ []; exec_pids = (7, 5) ∷ [] }
