-- ===== src/Wire/Layout.antt =====
-- The bytes of the events in memory, and reading them.
use shellspectre.Base.{
  ℕ, ◌+◌, ◌^◌, ◌<◌, ◌≡◌, refl, List, ◌++◌, arith, length, drop, to_le, length-append, length-to_le,
  drop-next, le_at-to_le, slice-at,
}
use shellspectre.Wire.{EventHeader, header_at, header_size, comm_len}

-- The `repr(C)` layout of the header, in front of other bytes.
pub header_onto : EventHeader → List ℕ → List ℕ
header_onto h rest =
    to_le 4 h.event_type
    ++ (to_le 4 h.version
        ++ (to_le 8 h.timestamp_ns
            ++ (to_le 4 h.pid
                ++ (to_le 4 h.ppid
                    ++ (to_le 4 h.tgid
                        ++ (to_le 4 h.tid
                            ++ (to_le 4 h.uid
                                ++ (to_le 4 h.gid
                                    ++ (to_le 4 h.euid
                                        ++ (h.comm
                                            ++ (to_le 4 h.tty_nr
                                                ++ (to_le 8 h.execution_id
                                                    ++ (to_le 8 h.cgroup_id ++ rest)))))))))))))

-- Every field fits its word.
pub record Fits (h : EventHeader) : Type 0 where
  pub event_type : h.event_type < 256 ^ 4
  pub version : h.version < 256 ^ 4
  pub timestamp_ns : h.timestamp_ns < 256 ^ 8
  pub pid : h.pid < 256 ^ 4
  pub ppid : h.ppid < 256 ^ 4
  pub tgid : h.tgid < 256 ^ 4
  pub tid : h.tid < 256 ^ 4
  pub uid : h.uid < 256 ^ 4
  pub gid : h.gid < 256 ^ 4
  pub euid : h.euid < 256 ^ 4
  pub comm : length h.comm ≡ comm_len
  pub tty_nr : h.tty_nr < 256 ^ 4
  pub execution_id : h.execution_id < 256 ^ 8
  pub cgroup_id : h.cgroup_id < 256 ^ 8

pub length-header_onto :
    (h : EventHeader) (rest : List ℕ)
    → Fits h
    → length (header_onto h rest) ≡ header_size + length rest
unfolding header_onto
length-header_onto h rest f = simp (length-append, length-to_le) (omega (arith, f.comm))

-- Reading a buffer that begins with the bytes of a header gives the header back, and what follows
-- the header stands behind it.
pub header_at-header_onto :
    (h : EventHeader) (rest : List ℕ)
    → Fits h
    → (header_at (header_onto h rest) ≡ h) × (drop header_size (header_onto h rest) ≡ rest)
unfolding header_at header_onto
header_at-header_onto h rest f =
    let bytes = header_onto h rest in
    let d0 : drop 0 bytes ≡ bytes = refl in
    let d4 = drop-next 0 4 4 (to_le 4 h.event_type) _ bytes (length-to_le 4 h.event_type) refl d0 in
    let d8 = drop-next 4 4 8 (to_le 4 h.version) _ bytes (length-to_le 4 h.version) refl d4 in
    let d16 =
      drop-next 8 8 16 (to_le 8 h.timestamp_ns) _ bytes (length-to_le 8 h.timestamp_ns) refl d8 in
    let d20 = drop-next 16 4 20 (to_le 4 h.pid) _ bytes (length-to_le 4 h.pid) refl d16 in
    let d24 = drop-next 20 4 24 (to_le 4 h.ppid) _ bytes (length-to_le 4 h.ppid) refl d20 in
    let d28 = drop-next 24 4 28 (to_le 4 h.tgid) _ bytes (length-to_le 4 h.tgid) refl d24 in
    let d32 = drop-next 28 4 32 (to_le 4 h.tid) _ bytes (length-to_le 4 h.tid) refl d28 in
    let d36 = drop-next 32 4 36 (to_le 4 h.uid) _ bytes (length-to_le 4 h.uid) refl d32 in
    let d40 = drop-next 36 4 40 (to_le 4 h.gid) _ bytes (length-to_le 4 h.gid) refl d36 in
    let d44 = drop-next 40 4 44 (to_le 4 h.euid) _ bytes (length-to_le 4 h.euid) refl d40 in
    let d60 = drop-next 44 16 60 (h.comm) _ bytes f.comm refl d44 in
    let d64 = drop-next 60 4 64 (to_le 4 h.tty_nr) _ bytes (length-to_le 4 h.tty_nr) refl d60 in
    let d72 =
      drop-next 64 8 72 (to_le 8 h.execution_id) _ bytes (length-to_le 8 h.execution_id) refl d64 in
    let d80 =
      drop-next 72 8 80 (to_le 8 h.cgroup_id) _ bytes (length-to_le 8 h.cgroup_id) refl d72 in
    (
      λ i. record {
        event_type = le_at-to_le 0 4 h.event_type _ bytes f.event_type d0 i;
        version = le_at-to_le 4 4 h.version _ bytes f.version d4 i;
        timestamp_ns = le_at-to_le 8 8 h.timestamp_ns _ bytes f.timestamp_ns d8 i;
        pid = le_at-to_le 16 4 h.pid _ bytes f.pid d16 i;
        ppid = le_at-to_le 20 4 h.ppid _ bytes f.ppid d20 i;
        tgid = le_at-to_le 24 4 h.tgid _ bytes f.tgid d24 i;
        tid = le_at-to_le 28 4 h.tid _ bytes f.tid d28 i;
        uid = le_at-to_le 32 4 h.uid _ bytes f.uid d32 i;
        gid = le_at-to_le 36 4 h.gid _ bytes f.gid d36 i;
        euid = le_at-to_le 40 4 h.euid _ bytes f.euid d40 i;
        comm = slice-at 44 16 h.comm _ bytes f.comm d44 i;
        tty_nr = le_at-to_le 60 4 h.tty_nr _ bytes f.tty_nr d60 i;
        execution_id = le_at-to_le 64 8 h.execution_id _ bytes f.execution_id d64 i;
        cgroup_id = le_at-to_le 72 8 h.cgroup_id _ bytes f.cgroup_id d72 i;
      },
      d80,
    )
