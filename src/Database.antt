-- ===== src/Database.antt =====
-- The tables of the database: shspectr-common/src/schema.rs.
use shellspectre.Base.{ℕ, Option, ℤ, Text}

-- A row of `events`. A column that may be NULL is an `Option`.
pub record Row : Type 0 where
  pub id : ℕ
  pub session_id : Text
  pub event_type : ℕ
  pub timestamp : Text
  pub pid : ℕ
  pub ppid : ℕ
  pub uid : ℕ
  pub gid : ℕ
  pub euid : ℕ
  pub comm : Option Text
  pub tty_nr : Option ℕ
  pub execution_id : ℕ
  pub filename : Option Text
  pub argv : Option Text
  pub fd : Option ℕ
  pub payload : Option Text
  pub data_len : Option ℕ
  pub byte_count : Option ℕ
  pub exit_code : Option ℤ

-- A row of `sessions`.
pub record SessionRow : Type 0 where
  pub id : Text
  pub started_at : Text
  pub ended_at : Option Text
  pub root_pid : ℕ
  pub root_comm : Option Text
  pub uid : ℕ
  pub euid : ℕ
  pub tty_nr : Option ℕ
  pub cgroup_id : Option ℕ
