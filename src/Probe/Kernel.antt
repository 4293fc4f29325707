-- ===== src/Probe/Kernel.antt =====
-- What the probes read of the kernel: the helpers of shspectr-ebpf/src/main.rs.
use shellspectre.Base.{
  ℕ, ◌+◌, ◌*◌, ◌/◌, ◌%◌, ◌^◌, Bool, false, ◌||◌, Option, none, some, List, [], ltb, ◌==◌,
  if◌then◌else◌, unwrap_or, replicate, Map, lookup, insert, Result, ok, err,
}
use shellspectre.Wire.{EventType, EventHeader, new_header, ExecEvent, IoEvent, ExitEvent, comm_len}
use shellspectre.Offsets.Idx.{
  task_real_parent, task_tgid, task_cred, cred_euid, task_signal, signal_tty, tty_index, task_files,
  files_fdt, fdt_fd, file_inode, inode_rdev,
}

-- What the kernel's helpers answer during one run of a probe. Reads of memory answer `none` on a
-- fault. `user_str` is what stands in a zeroed buffer of the given size after the call, `reserve`
-- says whether the ring buffer has room, and `stored` whether a map takes a new entry.
pub record Env : Type 0 where
  pub pid_tgid : ℕ
  pub uid_gid : ℕ
  pub task : ℕ
  pub ktime : ℕ
  pub cgroup_id : ℕ
  pub comm : Option (List ℕ)
  pub kernel_u64 : ℕ → Option ℕ
  pub kernel_u32 : ℕ → Option ℕ
  pub ctx_at : ℕ → Option ℕ
  pub user_ptr : ℕ → Option ℕ
  pub user_str : ℕ → ℕ → List ℕ
  pub user_buf : ℕ → ℕ → Option (List ℕ)
  pub scratch : Bool
  pub reserve : Bool
  pub stored : Bool

-- The maps that the daemon fills before it attaches the probes.
pub record Setup : Type 0 where
  pub self_tgid : Option ℕ
  pub offsets : Map ℕ

-- `(pid_tgid >> 32) as u32` and `pid_tgid as u32`
abbrev pub tgid_of : ℕ → ℕ
tgid_of pid_tgid = (pid_tgid / 2 ^ 32) % 2 ^ 32

abbrev pub tid_of : ℕ → ℕ
tid_of pid_tgid = pid_tgid % 2 ^ 32

abbrev pub is_self : Option ℕ → ℕ → Bool
is_self none tgid = false
is_self (some self) tgid = self == tgid

-- `check_not_self`
unfoldable pub check_not_self : Setup → Env → Option ℕ
check_not_self set env =
    if is_self set.self_tgid (tgid_of env.pid_tgid) then none else some env.pid_tgid

unfoldable pub get_offset : Setup → ℕ → ℕ
get_offset set idx = unwrap_or (lookup idx set.offsets) 0

-- the address of a field; the sum wraps
pub read_ptr : Env → ℕ → ℕ → Option ℕ
read_ptr env base offset = env.kernel_u64 ((base + offset) % 2 ^ 64)

unfoldable pub read_u32 : Env → ℕ → ℕ → Option ℕ
read_u32 env base offset = env.kernel_u32 ((base + offset) % 2 ^ 64)

infixl 5 ◌>>?◌
-- `let Ok(x) = .. else { return .. }`
abbrev pub ◌>>?◌ {ℓ} : {B : Type ℓ} → Option ℕ → (ℕ → Option B) → Option B
none >>? f = none
some x >>? f = f x

-- the check of a pointer against null, with the same way out
unfoldable pub non_null : Option ℕ → Option ℕ
non_null none = none
non_null (some p) = if p == 0 then none else some p

-- `read_ppid`
unfoldable pub read_ppid : Setup → Env → ℕ
unfolding read_ptr read_u32 get_offset
read_ppid set env =
    unwrap_or
      (read_ptr env env.task (get_offset set task_real_parent) >>? λ parent.
        read_u32 env parent (get_offset set task_tgid))
      0

-- `read_euid`
unfoldable pub read_euid : Setup → Env → ℕ
unfolding read_ptr read_u32 get_offset
read_euid set env =
    unwrap_or
      (read_ptr env env.task (get_offset set task_cred) >>? λ cred.
        read_u32 env cred (get_offset set cred_euid))
      0

-- `read_tty_nr`
unfoldable pub read_tty_nr : Setup → Env → ℕ
unfolding read_ptr read_u32 get_offset non_null
read_tty_nr set env =
    unwrap_or
      (read_ptr env env.task (get_offset set task_signal) >>? λ signal.
        non_null (read_ptr env signal (get_offset set signal_tty)) >>? λ tty.
        read_u32 env tty (get_offset set tty_index))
      0

-- `fill_header`
unfoldable pub fill_header : Setup → Env → EventType → ℕ → ℕ → EventHeader
unfolding new_header
fill_header set env event_type pid_tgid execution_id =
    new_header event_type env.ktime (tgid_of pid_tgid) (read_ppid set env) (tgid_of pid_tgid)
      (tid_of pid_tgid) (env.uid_gid % 2 ^ 32) ((env.uid_gid / 2 ^ 32) % 2 ^ 32) (read_euid set env)
      (unwrap_or env.comm (replicate comm_len 0)) (read_tty_nr set env) execution_id env.cgroup_id

abbrev pub pty_slave_major : ℕ
pty_slave_major = 136

abbrev pub pty_master_major : ℕ
pty_master_major = 128

abbrev pub max_pty_check_fd : ℕ
max_pty_check_fd = 255

-- `MAJOR(dev)`, as the probe computes it
pub major : ℕ → ℕ
major rdev = (rdev / 2 ^ 8) % 2 ^ 12

-- task->files->fdt->fd[fd_num]->f_inode->i_rdev
fd_device : Setup → Env → ℕ → Option ℕ
unfolding read_ptr read_u32 get_offset non_null
fd_device set env fd_num = non_null (read_ptr env env.task (get_offset set task_files)) >>? λ files.
    non_null (read_ptr env files (get_offset set files_fdt)) >>? λ fdt.
    non_null (read_ptr env fdt (get_offset set fdt_fd)) >>? λ fd_array.
    non_null (read_ptr env fd_array ((fd_num * 8) % 2 ^ 64)) >>? λ file_ptr.
    non_null (read_ptr env file_ptr (get_offset set file_inode)) >>? λ inode.
    read_u32 env inode (get_offset set inode_rdev)

is_pty_device : Option ℕ → Bool
unfolding major
is_pty_device none = false
is_pty_device (some rdev) = (major rdev == pty_slave_major) || (major rdev == pty_master_major)

-- `is_pty_fd`
pub is_pty_fd : Setup → Env → ℕ → Bool
unfolding fd_device is_pty_device
is_pty_fd set env fd_num =
    if ltb max_pty_check_fd fd_num then false else is_pty_device (fd_device set env fd_num)

-- Info stashed on entry to a read or write: `PendingRead` and `PendingWrite` have these fields.
pub record Pending : Type 0 where
  pub fd : ℕ
  pub buf_ptr : ℕ
  pub count : ℕ

pub data RingEvent : Type 0 where
  exec_event : ExecEvent → RingEvent
  io_event : IoEvent → RingEvent
  exit_event : ExitEvent → RingEvent

-- The maps that the probes share, and the events submitted so far, the newest first.
pub record State : Type 0 where
  pub events : List RingEvent
  pub pending_exec : Map ExecEvent
  pub pending_read : Map Pending
  pub pending_write : Map Pending
  pub exec_pids : Map ℕ

abbrev pub start : State
start = record {
  events = [];
  pending_exec = [];
  pending_read = [];
  pending_write = [];
  exec_pids = [];
}

-- `let _ = MAP.insert(..)`: a map that takes no entry is left as it was
abbrev pub store {ℓ} : {V : Type ℓ} → Env → ℕ → V → Map V → Map V
store env k v m = if env.stored then insert k v m else m

-- The result of a probe, and the maps behind it.
abbrev pub Run : Type 0
Run = Result ℕ (Unit {0}) × State

-- What a tracepoint returns to the kernel.
unfoldable pub ret_code : Run → ℕ
ret_code (ok _, _) = 0
ret_code (err _, _) = 1
