-- ===== src/Probe/Calls.antt =====
-- What single probes do: a call that is recorded, and an exit.
use shellspectre.Base.{
  ℕ, ◌%◌, ◌^◌, inl, inr, Bool-cases, unwrap_or, ◌-◌, min, ◌≡◌, refl, ◌⊎◌, true, false, none, some,
  List, ◌∷◌, arith, length, take, replicate, lookup, lookup-remove, as_signed, is_nonpositive, ok,
  err,
}
use shellspectre.Wire.{write, exit, as_wire, ExitEvent, new_header, IoEvent, max_data_len}
use shellspectre.Probe.Kernel.{
  Env, Setup, tgid_of, is_self, check_not_self, fill_header, Pending, io_event, exit_event, State,
}
use shellspectre.Probe.Exec.{submit_exit, enter_exit_group, try_sys_enter_exit_group}
use shellspectre.Probe.Io.{io_header, io_result, submitted, exit_write, to_read, try_sys_exit_write}
use shellspectre.Probe.Built.{built}
use shellspectre.Base.{take-append}

-- The exit of a process that is not the recorder: with room in the ring buffer it is submitted, and
-- the process is neither tracked nor waiting in a call of this thread any more: exactly one event is
-- submitted, an exit of this process with its exit code in 32 bits and its execution, or 0 if it is not
-- tracked; with no room, nothing changes, so that the process stays tracked.
pub exit_group-untracks :
    (set : Setup) (env : Env) (s : State) (code : ℕ)
    → is_self set.self_tgid (tgid_of env.pid_tgid) ≡ false
    → env.ctx_at 16 ≡ some code
    → let (result, s') = try_sys_enter_exit_group set env s in
      ((env.reserve ≡ true)
        × (result ≡ ok tt)
        × ((e : ExitEvent) × (s'.events ≡ exit_event e ∷ s.events)
            × (e.exit_code ≡ code % 2 ^ 32)
            × (e.header.event_type ≡ as_wire exit)
            × (e.header.pid ≡ tgid_of env.pid_tgid)
            × (e.header.execution_id ≡ unwrap_or (lookup (tgid_of env.pid_tgid) s.exec_pids) 0))
        × (lookup (tgid_of env.pid_tgid) s'.exec_pids ≡ none)
        × (lookup env.pid_tgid s'.pending_write ≡ none)
        × (lookup env.pid_tgid s'.pending_read ≡ none))
      ⊎ ((env.reserve ≡ false) × (result ≡ err 1) × (s' ≡ s))
unfolding try_sys_enter_exit_group check_not_self enter_exit_group submit_exit fill_header
    new_header
exit_group-untracks set env s code n r = elim (Bool-cases env.reserve) [
  | inl room ↦ inl (
    room,
    ground (arith, room),
    (
      record {
        header =
            fill_header set env exit env.pid_tgid
              (unwrap_or (lookup (tgid_of env.pid_tgid) s.exec_pids) 0);
        exit_code = code % 2 ^ 32;
      },
      ground (arith, room),
      refl,
      refl,
      refl,
      refl,
    ),
    ground (arith, room, lookup-remove (tgid_of env.pid_tgid) (tgid_of env.pid_tgid) s.exec_pids),
    ground (arith, room, lookup-remove env.pid_tgid env.pid_tgid s.pending_write),
    ground (arith, room, lookup-remove env.pid_tgid env.pid_tgid s.pending_read),
  )
  | inr full ↦ inr (full, ground (arith, full), ground (arith, full))
]

-- A write that returns, whose buffer can be read, of a tracked process, with room in the ring
-- buffer: exactly one event is submitted, which holds the first 4096 bytes of the data at most, the
-- full count of bytes, the descriptor and the execution; and the call is not pending any more.
pub exit_write-records :
    (set : Setup) (env : Env) (s : State) (p : Pending) (ret x : ℕ) (bytes : List ℕ)
    → lookup env.pid_tgid s.pending_write ≡ some p
    → env.ctx_at 16 ≡ some ret
    → is_nonpositive (as_signed 64 ret) ≡ false
    → lookup (tgid_of env.pid_tgid) s.exec_pids ≡ some x
    → env.reserve ≡ true
    → env.user_buf p.buf_ptr (min ret max_data_len) ≡ some bytes
    → length bytes ≡ min ret max_data_len
    → let s' = (try_sys_exit_write set env s).1 in
      (e : IoEvent) × (s'.events ≡ io_event e ∷ s.events)
      × (take e.data_len e.payload ≡ bytes)
      × (e.data_len ≡ min ret max_data_len)
      × (e.count ≡ ret)
      × (e.fd ≡ p.fd)
      × (e.header ≡ fill_header set env write env.pid_tgid x)
      × (lookup env.pid_tgid s'.pending_write ≡ none)
unfolding try_sys_exit_write exit_write io_result submitted to_read io_header
exit_write-records set env s p ret x bytes found r moved tracked room read_bytes long = (
  built set env write p ret x bytes,
  ground arith,
  take-append (to_read ret) bytes (replicate (max_data_len - to_read ret) 0) (ground arith),
  ground arith,
  refl,
  refl,
  refl,
  ground (arith, lookup-remove env.pid_tgid env.pid_tgid s.pending_write),
)
