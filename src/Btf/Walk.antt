-- ===== src/Btf/Walk.antt =====
-- The walk over the types.
use shellspectre.Base.{
  ℕ, zero, suc, ◌+◌, ◌≤◌, ◌<◌, ◌≡◌, refl, ◌≢◌, inl, inr, List, arith, leb, Bool-cases, Text, Result,
  ok, err, ◌>>=◌,
}
use shellspectre.Btf.{
  BtfError, Btf, panicked, out_of_fuel, from_bytes, read_u32, extra_bytes, kind_at, vlen_at,
  members, is_named_struct, walk, struct_field_offset, resolve_task_field_offsets,
}
use shellspectre.Btf.Bounds.{InBounds, from_bytes-InBounds, string_sound}

-- neither a panic nor a walk that has not ended
abbrev pub Ends {ℓ} : {A : Type ℓ} → Result BtfError A → Type ℓ
Ends r = (r ≢ err panicked) × (r ≢ err out_of_fuel)

members-Ends :
    (n m_off end : ℕ) (btf : Btf) (field_name : Text)
    → InBounds btf
    → Ends (members n m_off end btf field_name)
unfolding members
members-Ends zero m_off end btf field_name b = ground arith
members-Ends (suc n) m_off end btf field_name b = ground (
  arith,
  string_sound btf (read_u32 btf m_off) b,
  members-Ends n (m_off + 12) end btf field_name b,
)

is_named_struct-Ends :
    (btf : Btf) (at : ℕ) (struct_name : Text)
    → InBounds btf
    → Ends (is_named_struct btf at struct_name)
unfolding is_named_struct
is_named_struct-Ends btf at struct_name b = ground (arith, string_sound btf (read_u32 btf at) b)

walk-Ends :
    (fuel at end : ℕ) (btf : Btf) (struct_name field_name : Text)
    → InBounds btf
    → 0 < fuel
    → end < fuel + at
    → Ends (walk fuel at end btf struct_name field_name)
unfolding walk
walk-Ends zero at end btf struct_name field_name b nz h = absurd (omega (arith, nz))
walk-Ends (suc fuel) at end btf struct_name field_name b nz h =
    elim (Bool-cases (leb (at + 12) end)) [
      | inl more ↦
          let next = at + (12 + extra_bytes (kind_at btf at) (vlen_at btf at)) in
          let room : at + 12 ≤ end = ground arith in
          ground (
            arith,
            is_named_struct-Ends btf at struct_name b,
            members-Ends (vlen_at btf at) (at + 12) end btf field_name b,
            walk-Ends fuel next end btf struct_name field_name b (omega arith) (omega arith),
          )
      | inr stop ↦ ground arith
    ]

struct_field_offset-Ends :
    (btf : Btf) (struct_name field_name : Text)
    → InBounds btf
    → Ends (struct_field_offset btf struct_name field_name)
unfolding struct_field_offset
struct_field_offset-Ends btf struct_name field_name b =
    walk-Ends (suc btf.type_len) (btf.hdr_len + btf.type_off)
      (btf.hdr_len + btf.type_off + btf.type_len) btf struct_name field_name b (omega arith)
      (omega arith)

-- one more `?`
bind-Ends :
    {A B : Type 0} (r : Result BtfError A) (f : A → Result BtfError B)
    → Ends r
    → ((a : A) → r ≡ ok a → Ends (f a))
    → Ends (r >>= f)
bind-Ends (ok a) f e k = k a refl
bind-Ends (err x) f e k = ground (arith, e)

from_bytes-Ends : (bytes : List ℕ) → Ends (from_bytes bytes)
unfolding from_bytes
from_bytes-Ends bytes = ground arith

-- one more look-up, of the twelve
look-Ends :
    {B : Type 0} (btf : Btf) (struct_name field_name : Text) (f : ℕ → Result BtfError B)
    → InBounds btf
    → ((a : ℕ) → Ends (f a))
    → Ends (struct_field_offset btf struct_name field_name >>= f)
look-Ends btf struct_name field_name f b k =
    bind-Ends (struct_field_offset btf struct_name field_name) f
      (struct_field_offset-Ends btf struct_name field_name b) (λ a e. k a)

ok-Ends : {A : Type 0} (a : A) → Ends (ok a)
ok-Ends a = ground arith

-- Whatever the kernel's file holds, resolving the offsets ends: the walk over the types never cycles,
-- and no slice is out of range.
pub resolve-Ends : (bytes : List ℕ) → Ends (resolve_task_field_offsets bytes)
unfolding resolve_task_field_offsets
resolve-Ends bytes = bind-Ends (from_bytes bytes) _ (from_bytes-Ends bytes) (λ btf e.
    let b = (from_bytes-InBounds bytes btf e).1 in
    look-Ends btf _ _ _ b (λ _. look-Ends btf _ _ _ b (λ _. look-Ends btf _ _ _ b (λ _.
      look-Ends btf _ _ _ b (λ _. look-Ends btf _ _ _ b (λ _. look-Ends btf _ _ _ b (λ _.
        look-Ends btf _ _ _ b (λ _. look-Ends btf _ _ _ b (λ _. look-Ends btf _ _ _ b (λ _.
          look-Ends btf _ _ _ b
            (λ _. look-Ends btf _ _ _ b (λ _. look-Ends btf _ _ _ b (λ _. ok-Ends _)))))))))))))
