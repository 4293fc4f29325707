-- ===== src/Probe/Typed.antt =====
-- What the helpers promise, and the events that the probes build from it.
use shellspectre.Base.{
  ℕ, zero, suc, ◌+◌, ◌-◌, ◌*◌, ◌%◌, ◌^◌, ◌≤◌, ◌<◌, ◌≡◌, refl, inl, inr, Option, none, some, List,
  [], ◌∷◌, ◌++◌, arith, Option-cases, unwrap_or, length, replicate, All, length-append,
  length-replicate,
}
use shellspectre.Wire.{
  EventType, exec, as_wire, ExecEvent, max_argv_count, max_arg_len, max_filename_len, comm_len,
}
use shellspectre.Wire.Layout.{Fits}
use shellspectre.Event.Layout.{IsRow, ExecFits}
use shellspectre.Event.Parse.{IsCurrent}
use shellspectre.Probe.Kernel.{
  Env, Setup, fill_header, read_ppid, read_euid, read_tty_nr, read_ptr, read_u32, get_offset,
  non_null, ◌>>?◌,
}
use shellspectre.Offsets.Idx.{
  task_real_parent, task_tgid, task_cred, cred_euid, task_signal, signal_tty, tty_index,
}
use shellspectre.Probe.Exec.{read_args, exec_scratch, finished}

-- The helpers answer values of their types, and fill the buffers that they are given.
pub record IsTyped (env : Env) : Type 0 where
  pub ktime : env.ktime < 2 ^ 64
  pub cgroup_id : env.cgroup_id < 2 ^ 64
  pub comm : (b : List ℕ) → env.comm ≡ some b → length b ≡ comm_len
  pub kernel_u32 : (a v : ℕ) → env.kernel_u32 a ≡ some v → v < 2 ^ 32
  pub ctx_at : (k v : ℕ) → env.ctx_at k ≡ some v → v < 2 ^ 64
  pub user_str : (a n : ℕ) → length (env.user_str a n) ≡ n
  pub user_buf : (a n : ℕ) (b : List ℕ) → env.user_buf a n ≡ some b → length b ≡ n

-- a word that is read at the end of a chain of reads, or 0
then_word :
    (o : Option ℕ) (f : ℕ → Option ℕ)
    → ((v : ℕ) → unwrap_or (f v) 0 < 2 ^ 32)
    → unwrap_or (o >>? f) 0 < 2 ^ 32
then_word none f h = omega arith
then_word (some v) f h = h v

word : (env : Env) (base offset : ℕ) → IsTyped env → unwrap_or (read_u32 env base offset) 0 < 2 ^ 32
unfolding read_u32
word env base offset t = go (env.kernel_u32 ((base + offset) % 2 ^ 64)) refl
  where
    go :
        (found : Option ℕ)
        → env.kernel_u32 ((base + offset) % 2 ^ 64) ≡ found
        → unwrap_or found 0 < 2 ^ 32
    go none e = omega arith
    go (some v) e = t.kernel_u32 ((base + offset) % 2 ^ 64) v e

words :
    (set : Setup) (env : Env)
    → IsTyped env
    → (read_ppid set env < 2 ^ 32) × (read_euid set env < 2 ^ 32) × (read_tty_nr set env < 2 ^ 32)
unfolding read_ppid read_euid read_tty_nr
words set env t = (
  then_word (read_ptr env env.task (get_offset set task_real_parent))
      (λ parent. read_u32 env parent (get_offset set task_tgid))
      (λ parent. word env parent (get_offset set task_tgid) t),
  then_word (read_ptr env env.task (get_offset set task_cred))
      (λ cred. read_u32 env cred (get_offset set cred_euid))
      (λ cred. word env cred (get_offset set cred_euid) t),
  then_word (read_ptr env env.task (get_offset set task_signal))
      (λ signal. non_null (read_ptr env signal (get_offset set signal_tty)) >>? λ tty.
        read_u32 env tty (get_offset set tty_index))
      (λ signal.
        then_word (non_null (read_ptr env signal (get_offset set signal_tty)))
          (λ tty. read_u32 env tty (get_offset set tty_index))
          (λ tty. word env tty (get_offset set tty_index) t)),
)

length-comm :
    (env : Env) → IsTyped env → length (unwrap_or env.comm (replicate comm_len 0)) ≡ comm_len
length-comm env t = go env.comm refl
  where
    go :
        (found : Option (List ℕ))
        → env.comm ≡ found
        → length (unwrap_or found (replicate comm_len 0)) ≡ comm_len
    go none e = length-replicate {A = ℕ} comm_len 0
    go (some b) e = t.comm b e

-- the header of a probe's event
pub fill_header-Fits :
    (set : Setup) (env : Env) (t : EventType) (execution_id : ℕ)
    → IsTyped env
    → execution_id < 2 ^ 64
    → Fits (fill_header set env t env.pid_tgid execution_id)
      × IsCurrent t (fill_header set env t env.pid_tgid execution_id)
unfolding fill_header as_wire
fill_header-Fits set env t x ty hx = (
  record {
    event_type = ground arith;
    version = omega arith;
    timestamp_ns = omega (arith, ty.ktime);
    pid = omega arith;
    ppid = omega (arith, words set env ty);
    tgid = omega arith;
    tid = omega arith;
    uid = omega arith;
    gid = omega arith;
    euid = omega (arith, words set env ty);
    comm = length-comm env ty;
    tty_nr = omega (arith, words set env ty);
    execution_id = omega (arith, hx);
    cgroup_id = omega (arith, ty.cgroup_id);
  },
  record { version = refl; event_type = refl },
)

read_args-Fits :
    (n i : ℕ) (env : Env) (argv_base : ℕ)
    → IsTyped env
    → All IsRow (read_args n i env argv_base) × (length (read_args n i env argv_base) ≤ n)
unfolding read_args
read_args-Fits zero i env base t = (tt, omega arith)
read_args-Fits (suc n) i env base t = elim (Option-cases (env.user_ptr ((base + 8 * i) % 2 ^ 64))) [
  | inl e ↦ ground (arith, e)
  | inr (p, e) ↦ ground (arith, e, t.user_str p max_arg_len, read_args-Fits n (i + 1) env base t)
]

rows-IsRow :
    (l : List (List ℕ)) (n : ℕ)
    → All IsRow l
    → All IsRow (l ++ replicate n (replicate max_arg_len 0))
rows-IsRow [] zero a = tt
rows-IsRow [] (suc n) a = (length-replicate {A = ℕ} max_arg_len 0, rows-IsRow [] n tt)
rows-IsRow (r ∷ l) n a = (a.0, rows-IsRow l n a.1)

pub exec_scratch-ExecFits :
    (set : Setup) (env : Env) (filename_ptr argv_base : ℕ)
    → IsTyped env
    → let e = exec_scratch set env env.pid_tgid filename_ptr argv_base in
      ExecFits e × IsCurrent exec e.header
unfolding exec_scratch
exec_scratch-ExecFits set env f base t =
    let args = read_args max_argv_count 0 env base in
    let read = read_args-Fits max_argv_count 0 env base t in
    let header = fill_header-Fits set env exec 0 t (omega arith) in
    (
      record {
        header = header.0;
        filename = t.user_str f max_filename_len;
        argv = rows-IsRow args (max_argv_count - length args) read.0;
        count = omega (
          arith,
          read.1,
          length-append args
              (replicate (max_argv_count - length args) (replicate {A = ℕ} max_arg_len 0)),
          length-replicate (max_argv_count - length args) (replicate {A = ℕ} max_arg_len 0),
        );
        argc = omega (arith, read.1);
        retval = omega arith;
      },
      header.1,
    )

pub finished-ExecFits :
    (e : ExecEvent) (execution_id retval : ℕ)
    → execution_id < 2 ^ 64
    → retval < 2 ^ 64
    → ExecFits e × IsCurrent exec e.header
    → ExecFits (finished e execution_id retval)
      × IsCurrent exec (finished e execution_id retval).header
finished-ExecFits e x r hx hr (f, c) =
    let h = f.header in
    (
      record {
        header = record {
          event_type = h.event_type;
          version = h.version;
          timestamp_ns = h.timestamp_ns;
          pid = h.pid;
          ppid = h.ppid;
          tgid = h.tgid;
          tid = h.tid;
          uid = h.uid;
          gid = h.gid;
          euid = h.euid;
          comm = h.comm;
          tty_nr = h.tty_nr;
          execution_id = omega (arith, hx);
          cgroup_id = h.cgroup_id;
        };
        filename = f.filename;
        argv = f.argv;
        count = f.count;
        argc = f.argc;
        retval = omega (arith, hr);
      },
      record { version = c.version; event_type = c.event_type },
    )
