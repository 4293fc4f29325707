-- ===== src/Probe/Io.antt =====
-- The probes on read and write.
use shellspectre.Base.{
  ℕ, ◌-◌, ◌%◌, ◌^◌, true, false, not, ◌&&◌, Option, none, some, List, ◌∷◌, ◌++◌, ltb, ◌==◌,
  if◌then◌else◌, is_some, replicate, lookup, remove, as_signed, is_nonpositive, Result, ok, err,
}
use shellspectre.Wire.{EventType, read, write, IoEvent, max_data_len}
use shellspectre.Probe.Kernel.{
  Env, Setup, tgid_of, check_not_self, fill_header, is_pty_fd, Pending, RingEvent, io_event, State,
  store, Run,
}

-- `fill_io_data` on a zeroed event: how many bytes are read, and what stands in the buffer then
unfoldable pub to_read : ℕ → ℕ
to_read byte_count = if ltb byte_count max_data_len then byte_count else max_data_len

unfoldable pub fill_io_data : Env → ℕ → ℕ → IoEvent → Option IoEvent
unfolding to_read
fill_io_data env buf_ptr byte_count event = elim (env.user_buf buf_ptr (to_read byte_count)) [
  | none ↦ none
  | some bytes ↦ some (record event {
    payload = bytes ++ replicate (max_data_len - to_read byte_count) 0;
    data_len = to_read byte_count;
  })
]

-- the zeroed event with its header, descriptor and count
unfoldable pub io_header : Setup → Env → EventType → ℕ → ℕ → ℕ → IoEvent
io_header set env t execution_id fd count = record {
  header = fill_header set env t env.pid_tgid execution_id;
  fd = fd;
  data_len = 0;
  count = count;
  payload = replicate max_data_len 0;
}

-- The event that an exit probe submits for a call that moved `count` bytes: the process must be
-- tracked, the ring buffer must have room, and the data must be readable.
unfoldable pub io_submission :
    Setup → Env → EventType → Pending → ℕ → State → Result ℕ (Option IoEvent)
unfolding fill_io_data io_header
io_submission set env t pending count s = elim (lookup (tgid_of env.pid_tgid) s.exec_pids) [
  | none ↦ ok none
  | some execution_id ↦ elim env.reserve [
    | false ↦ err 1
    | true ↦
        elim (fill_io_data env pending.buf_ptr count
          (io_header set env t execution_id pending.fd count)) [
            | none ↦ err 1
            | some event ↦ ok (some event)
          ]
  ]
]

-- the events after such a submission
unfoldable pub submitted : Result ℕ (Option IoEvent) → List RingEvent → List RingEvent
submitted (ok (some event)) events = io_event event ∷ events
submitted (ok none) events = events
submitted (err e) events = events

unfoldable pub returned : Result ℕ (Option IoEvent) → Result ℕ (Unit {0})
returned (ok _) = ok tt
returned (err e) = err e

-- What an exit probe submits for the return value of the call: nothing for an error or for 0.
unfoldable pub io_result : Setup → Env → EventType → Pending → ℕ → State → Result ℕ (Option IoEvent)
unfolding io_submission
io_result set env t pending ret s =
    if is_nonpositive (as_signed 64 ret) then ok none else io_submission set env t pending ret s

-- `PENDING_WRITE.insert` at the end of the entry probe
unfoldable pub stash_write : Env → ℕ → ℕ → Option ℕ → Option ℕ → State → Run
stash_write env pid_tgid fd (some buf_ptr) (some count) s = (
  ok tt,
  record s {
    pending_write =
        store env pid_tgid (record { fd = fd; buf_ptr = buf_ptr; count = count }) s.pending_write;
  },
)
stash_write env pid_tgid fd (some buf_ptr) none s = (err 1, s)
stash_write env pid_tgid fd none count s = (err 1, s)

unfoldable pub enter_write : Setup → Env → Option ℕ → Option ℕ → State → Run
unfolding stash_write
enter_write set env none arg s = (ok tt, s)
enter_write set env (some pid_tgid) none s = (err 1, s)
enter_write set env (some pid_tgid) (some arg) s =
    let fd = arg % 2 ^ 32 in
    if not (fd == 1) && not (fd == 2) && not (is_pty_fd set env fd)
    then (ok tt, s)
    else if not (is_some (lookup (tgid_of pid_tgid) s.exec_pids))
    then (ok tt, s)
    else stash_write env pid_tgid fd (env.ctx_at 24) (env.ctx_at 32) s

-- `try_sys_enter_write`
unfoldable pub try_sys_enter_write : Setup → Env → State → Run
unfolding enter_write check_not_self
try_sys_enter_write set env s = enter_write set env (check_not_self set env) (env.ctx_at 16) s

unfoldable pub exit_write : Setup → Env → Option Pending → Option ℕ → State → Run
unfolding io_result submitted returned
exit_write set env none ret s = (ok tt, s)
exit_write set env (some pending) none s = (err 1, s)
exit_write set env (some pending) (some ret) s =
    let r = io_result set env write pending ret s in
    (
      returned r,
      record s {
        events = submitted r s.events;
        pending_write = remove env.pid_tgid s.pending_write;
      },
    )

-- `try_sys_exit_write`: past the read of the return value, every way out removes the entry
unfoldable pub try_sys_exit_write : Setup → Env → State → Run
unfolding exit_write
try_sys_exit_write set env s =
    exit_write set env (lookup env.pid_tgid s.pending_write) (env.ctx_at 16) s

unfoldable pub stash_read : Env → ℕ → ℕ → Option ℕ → Option ℕ → State → Run
stash_read env pid_tgid fd (some buf_ptr) (some count) s = (
  ok tt,
  record s {
    pending_read =
        store env pid_tgid (record { fd = fd; buf_ptr = buf_ptr; count = count }) s.pending_read;
  },
)
stash_read env pid_tgid fd (some buf_ptr) none s = (err 1, s)
stash_read env pid_tgid fd none count s = (err 1, s)

unfoldable pub enter_read : Setup → Env → Option ℕ → Option ℕ → State → Run
unfolding stash_read
enter_read set env none arg s = (ok tt, s)
enter_read set env (some pid_tgid) none s = (err 1, s)
enter_read set env (some pid_tgid) (some arg) s =
    let fd = arg % 2 ^ 32 in
    if not (fd == 0) && not (is_pty_fd set env fd)
    then (ok tt, s)
    else if not (is_some (lookup (tgid_of pid_tgid) s.exec_pids))
    then (ok tt, s)
    else stash_read env pid_tgid fd (env.ctx_at 24) (env.ctx_at 32) s

-- `try_sys_enter_read`
unfoldable pub try_sys_enter_read : Setup → Env → State → Run
unfolding enter_read check_not_self
try_sys_enter_read set env s = enter_read set env (check_not_self set env) (env.ctx_at 16) s

unfoldable pub exit_read : Setup → Env → Option Pending → Option ℕ → State → Run
unfolding io_result submitted returned
exit_read set env none ret s = (ok tt, s)
exit_read set env (some pending) none s = (err 1, s)
exit_read set env (some pending) (some ret) s =
    let r = io_result set env read pending ret s in
    (
      returned r,
      record s { events = submitted r s.events; pending_read = remove env.pid_tgid s.pending_read },
    )

-- `try_sys_exit_read`
unfoldable pub try_sys_exit_read : Setup → Env → State → Run
unfolding exit_read
try_sys_exit_read set env s =
    exit_read set env (lookup env.pid_tgid s.pending_read) (env.ctx_at 16) s
