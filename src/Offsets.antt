-- ===== src/Offsets.antt =====
-- The offsets of kernel fields: shspectr-common/src/offsets.rs.
pub mod Idx
use shellspectre.Base.{ℕ, List, [], ◌∷◌}

pub record TaskFieldOffsets : Type 0 where
  pub task_real_parent : ℕ
  pub task_tgid : ℕ
  pub task_cred : ℕ
  pub cred_euid : ℕ
  pub task_signal : ℕ
  pub signal_tty : ℕ
  pub tty_index : ℕ
  pub task_files : ℕ
  pub files_fdt : ℕ
  pub fdt_fd : ℕ
  pub file_inode : ℕ
  pub inode_rdev : ℕ

-- `as_array`
unfoldable pub as_array : TaskFieldOffsets → List ℕ
as_array o =
    o.task_real_parent ∷ o.task_tgid ∷ o.task_cred ∷ o.cred_euid ∷ o.task_signal ∷ o.signal_tty
    ∷ o.tty_index ∷ o.task_files ∷ o.files_fdt ∷ o.fdt_fd ∷ o.file_inode ∷ o.inode_rdev ∷ []
