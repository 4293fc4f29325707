-- ===== src/Probe/Loader.antt =====
-- What the daemon puts into the probes' maps before it attaches them: shspectr/src/ebpf.rs.
use shellspectre.Base.{ℕ, ◌+◌, ◌≡◌, refl, some, List, [], ◌∷◌, Map, lookup, insert, values}
use shellspectre.Offsets.{TaskFieldOffsets, as_array}
use shellspectre.Offsets.Idx.{
  task_real_parent, task_tgid, task_cred, cred_euid, task_signal, signal_tty, tty_index, task_files,
  files_fdt, fdt_fd, file_inode, inode_rdev,
}
use shellspectre.Probe.Kernel.{Setup, get_offset}

-- `for (idx, value) in (0u32..).zip(offsets.as_array())`
publish : ℕ → List ℕ → Map ℕ → Map ℕ
publish idx [] m = m
publish idx (value ∷ values) m = publish (idx + 1) values (insert idx value m)

pub load : ℕ → TaskFieldOffsets → Setup
unfolding publish
load process_id offsets = record {
  self_tgid = some process_id;
  offsets = publish 0 (as_array offsets) [];
}

-- The probes read each kernel field at the offset that the daemon resolved for it: the order of
-- the published array and the indices of the probes agree.
pub get_offset-load :
    (process_id : ℕ) (o : TaskFieldOffsets)
    → let set = load process_id o in
      (get_offset set task_real_parent ≡ o.task_real_parent)
      × (get_offset set task_tgid ≡ o.task_tgid)
      × (get_offset set task_cred ≡ o.task_cred)
      × (get_offset set cred_euid ≡ o.cred_euid)
      × (get_offset set task_signal ≡ o.task_signal)
      × (get_offset set signal_tty ≡ o.signal_tty)
      × (get_offset set tty_index ≡ o.tty_index)
      × (get_offset set task_files ≡ o.task_files)
      × (get_offset set files_fdt ≡ o.files_fdt)
      × (get_offset set fdt_fd ≡ o.fdt_fd)
      × (get_offset set file_inode ≡ o.file_inode)
      × (get_offset set inode_rdev ≡ o.inode_rdev)
unfolding load get_offset as_array lookup insert
get_offset-load process_id o =
    (refl, refl, refl, refl, refl, refl, refl, refl, refl, refl, refl, refl)
