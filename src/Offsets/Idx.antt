-- ===== src/Offsets/Idx.antt =====
-- The positions in the OFFSETS map: the module offset_idx of shspectr-common/src/offsets.rs.
use shellspectre.Base.{ℕ}

-- `offset_idx`
abbrev pub task_real_parent : ℕ
task_real_parent = 0

abbrev pub task_tgid : ℕ
task_tgid = 1

abbrev pub task_cred : ℕ
task_cred = 2

abbrev pub cred_euid : ℕ
cred_euid = 3

abbrev pub task_signal : ℕ
task_signal = 4

abbrev pub signal_tty : ℕ
signal_tty = 5

abbrev pub tty_index : ℕ
tty_index = 6

abbrev pub task_files : ℕ
task_files = 7

abbrev pub files_fdt : ℕ
files_fdt = 8

abbrev pub fdt_fd : ℕ
fdt_fd = 9

abbrev pub file_inode : ℕ
file_inode = 10

abbrev pub inode_rdev : ℕ
inode_rdev = 11

abbrev pub count : ℕ
count = 12
