-- ===== src/Btf.antt =====
-- The parser of the kernel's type information: shspectr/src/btf.rs.
use shellspectre.Base.{
  ℕ, zero, suc, ◌+◌, ◌-◌, ◌*◌, ◌/◌, ◌%◌, ◌^◌, Bool, false, not, ◌&&◌, ◌||◌, Option, none, some,
  List, [], ◌∷◌, ltb, leb, ◌==◌, if◌then◌else◌, length, slice, Text, codes, text_eq, Result, ok,
  err, ◌>>=◌, ◌>>◌, ok_or, ensure, is_utf8, le_at,
}
use shellspectre.Offsets.{TaskFieldOffsets}
pub mod Bounds
pub mod Walk
pub mod Fields
mod Tests

-- The errors; `panicked` is a slice out of range, and `out_of_fuel` a walk that has not ended.
pub data BtfError : Type 0 where
  too_short : BtfError
  bad_magic : ℕ → BtfError
  invalid_header_length : ℕ → BtfError
  section_overflow : BtfError
  beyond_input : BtfError
  outside_string_table : ℕ → BtfError
  invalid_utf8 : BtfError
  truncated_members : BtfError
  field_not_found : BtfError
  struct_not_found : BtfError
  walk_overflow : BtfError
  panicked : BtfError
  out_of_fuel : BtfError

-- `Btf`; `bytes` is its `data`
pub record Btf : Type 0 where
  pub bytes : List ℕ
  pub hdr_len : ℕ
  pub type_off : ℕ
  pub type_len : ℕ
  pub str_off : ℕ
  pub str_len : ℕ

abbrev btf_magic : ℕ
btf_magic = 0xEB9F

abbrev btf_kind_struct : ℕ
btf_kind_struct = 4

-- `usize::checked_add`
checked_add : ℕ → ℕ → Option ℕ
checked_add a b = if ltb (a + b) (2 ^ 64) then some (a + b) else none

sections : Btf → Option (ℕ × ℕ × ℕ)
unfolding checked_add
sections btf = elim (checked_add btf.hdr_len btf.type_off) [
  | none ↦ none
  | some type_start ↦ elim (checked_add type_start btf.type_len) [
    | none ↦ none
    | some type_end ↦ elim (checked_add btf.hdr_len btf.str_off) [
      | none ↦ none
      | some str_start ↦ elim (checked_add str_start btf.str_len) [
        | none ↦ none
        | some str_end ↦ some (type_end, str_start, str_end)
      ]
    ]
  ]
]

-- `u32::from_ne_bytes(data[at..at + 4])`
u32_at : ℕ → List ℕ → Result BtfError ℕ
u32_at at bytes = do ensure (leb (at + 4) (length bytes)) panicked; ok (le_at at 4 bytes)

-- `u16::from_ne_bytes([data[0], data[1]])`
magic_of : List ℕ → Result BtfError ℕ
magic_of bytes = do ensure (leb 2 (length bytes)) panicked; ok (le_at 0 2 bytes)

-- the words of the header
header_words : List ℕ → Result BtfError Btf
unfolding u32_at
header_words bytes = do
  hdr_len ← u32_at 4 bytes
  type_off ← u32_at 8 bytes
  type_len ← u32_at 12 bytes
  str_off ← u32_at 16 bytes
  str_len ← u32_at 20 bytes
  ok (record {
    bytes = bytes;
    hdr_len = hdr_len;
    type_off = type_off;
    type_len = type_len;
    str_off = str_off;
    str_len = str_len;
  })

-- the last test of `from_bytes`
within_input : List ℕ → ℕ × ℕ × ℕ → Bool
within_input bytes (type_end, str_start, str_end) =
    not (ltb (length bytes) type_end || ltb (length bytes) str_end || ltb str_start type_end)

-- `Btf::from_bytes`
pub from_bytes : List ℕ → Result BtfError Btf
unfolding sections header_words magic_of within_input
from_bytes bytes = do
  ensure (leb 24 (length bytes)) too_short
  magic ← magic_of bytes
  ensure (magic == btf_magic) (bad_magic magic)
  btf ← header_words bytes
  ensure (leb 24 btf.hdr_len && leb btf.hdr_len (length bytes)) (invalid_header_length btf.hdr_len)
  found ← ok_or (sections btf) section_overflow
  ensure (within_input bytes found) beyond_input
  ok btf

-- the bytes before the first 0, or all of them
until_zero : List ℕ → List ℕ
until_zero [] = []
until_zero (b ∷ bs) = let rest = until_zero bs in if b == 0 then [] else b ∷ rest

-- `Btf::string`: the bytes of the text
pub string : Btf → ℕ → Result BtfError (List ℕ)
unfolding until_zero
string btf offset = do
  let str_base = btf.hdr_len + btf.str_off
  let str_end = str_base + btf.str_len
  let start = str_base + offset
  ensure (ltb start str_end) (outside_string_table offset)
  ensure (leb str_end (length btf.bytes)) panicked
  let text = until_zero (slice start (str_end - start) btf.bytes)
  ensure (is_utf8 text) invalid_utf8
  ok text

-- `Btf::read_u32`
pub read_u32 : Btf → ℕ → ℕ
read_u32 btf off = if leb (off + 4) (length btf.bytes) then le_at off 4 btf.bytes else 0

-- `Btf::extra_bytes`
pub extra_bytes : ℕ → ℕ → ℕ
extra_bytes kind vlen =
    if kind == 1
    then 4
    else if kind == 3
    then 12
    else if (kind == 4) || (kind == 5)
    then 12 * vlen
    else if kind == 6
    then 8 * vlen
    else if kind == 13
    then 8 * vlen
    else if kind == 14
    then 4
    else if kind == 15
    then 12 * vlen
    else if kind == 17
    then 4
    else if kind == 19
    then 12 * vlen
    else 0

-- `(info >> 24) & 0x1f` and `info & 0xffff` of the type at a position
pub kind_at : Btf → ℕ → ℕ
unfolding read_u32
kind_at btf pos = (read_u32 btf (pos + 4) / 2 ^ 24) % 2 ^ 5

pub vlen_at : Btf → ℕ → ℕ
unfolding read_u32
vlen_at btf pos = read_u32 btf (pos + 4) % 2 ^ 16

-- The rounds of `for i in 0..vlen` that are left.
pub members : ℕ → ℕ → ℕ → Btf → Text → Result BtfError ℕ
members zero m_off end btf field_name = err field_not_found
members (suc n) m_off end btf field_name =
    let rest = members n (m_off + 12) end btf field_name in
    do
      ensure (leb (m_off + 12) end) truncated_members
      name ← string btf (read_u32 btf m_off)
      if text_eq name field_name then ok (read_u32 btf (m_off + 8) / 8) else rest

-- `kind == BTF_KIND_STRUCT && self.string(name_off)? == struct_name`
pub is_named_struct : Btf → ℕ → Text → Result BtfError Bool
is_named_struct btf pos struct_name =
    if kind_at btf pos == btf_kind_struct
    then (string btf (read_u32 btf pos) >>= λ name. ok (text_eq name struct_name))
    else ok false

-- The rounds of `while pos + 12 <= end`, on fuel.
pub walk : ℕ → ℕ → ℕ → Btf → Text → Text → Result BtfError ℕ
walk zero pos end btf struct_name field_name = err out_of_fuel
walk (suc fuel) pos end btf struct_name field_name =
    let next = pos + (12 + extra_bytes (kind_at btf pos) (vlen_at btf pos)) in
    let rest = walk fuel next end btf struct_name field_name in
    do
      ensure (leb (pos + 12) end) struct_not_found
      found ← is_named_struct btf pos struct_name
      (if found
          then members (vlen_at btf pos) (pos + 12) end btf field_name
          else (ensure (ltb next (2 ^ 64)) walk_overflow >> rest))

-- `Btf::struct_field_offset`; each round moves at least 12 bytes on
pub struct_field_offset : Btf → Text → Text → Result BtfError ℕ
unfolding walk
struct_field_offset btf struct_name field_name =
    let base = btf.hdr_len + btf.type_off in
    walk (suc btf.type_len) base (base + btf.type_len) btf struct_name field_name

-- `resolve_task_field_offsets` on the bytes of the kernel's file
pub resolve_task_field_offsets : List ℕ → Result BtfError TaskFieldOffsets
resolve_task_field_offsets bytes = do
  btf ← from_bytes bytes
  a ← struct_field_offset btf (codes "task_struct") (codes "real_parent")
  b ← struct_field_offset btf (codes "task_struct") (codes "tgid")
  c ← struct_field_offset btf (codes "task_struct") (codes "cred")
  d ← struct_field_offset btf (codes "cred") (codes "euid")
  e ← struct_field_offset btf (codes "task_struct") (codes "signal")
  f ← struct_field_offset btf (codes "signal_struct") (codes "tty")
  g ← struct_field_offset btf (codes "tty_struct") (codes "index")
  h ← struct_field_offset btf (codes "task_struct") (codes "files")
  i ← struct_field_offset btf (codes "files_struct") (codes "fdt")
  j ← struct_field_offset btf (codes "fdtable") (codes "fd")
  k ← struct_field_offset btf (codes "file") (codes "f_inode")
  l ← struct_field_offset btf (codes "inode") (codes "i_rdev")
  ok (record {
    task_real_parent = a;
    task_tgid = b;
    task_cred = c;
    cred_euid = d;
    task_signal = e;
    signal_tty = f;
    tty_index = g;
    task_files = h;
    files_fdt = i;
    fdt_fd = j;
    file_inode = k;
    inode_rdev = l;
  })
