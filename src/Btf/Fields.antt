-- ===== src/Btf/Fields.antt =====
-- Where an offset that is resolved comes from.
use shellspectre.Base.{
  ℕ, zero, suc, ◌+◌, ◌*◌, ◌/◌, ◌≤◌, ◌<◌, ◌≡◌, refl, ap, ◌∙◌, inl, inr, Bool, true, false, List,
  arith, leb, Bool-cases, Text, text_eq, text_eq_sound, Result, ok, err,
}
use mathlib.Core.Path.{subst}
use shellspectre.Btf.{
  BtfError, Btf, btf_kind_struct, string, read_u32, extra_bytes, kind_at, vlen_at, members,
  is_named_struct, walk, struct_field_offset,
}

-- A field in the types from a position on: the first type there that is a struct of the name has a
-- member of the field's name, which ends before `end`, and whose byte offset is the number.
pub data IsField (btf : Btf) (struct_name field_name : Text) (end : ℕ) : ℕ → ℕ → Type 0 where
  here :
      {at : ℕ} (k : ℕ)
      → kind_at btf at ≡ btf_kind_struct
      → string btf (read_u32 btf at) ≡ ok struct_name
      → k < vlen_at btf at
      → at + 12 + k * 12 + 12 ≤ end
      → string btf (read_u32 btf (at + 12 + k * 12)) ≡ ok field_name
      → IsField btf struct_name field_name end at (read_u32 btf (at + 12 + k * 12 + 8) / 8)
  later :
      {at v : ℕ}
      → at + 12 ≤ end
      → is_named_struct btf at struct_name ≡ ok false
      → IsField btf struct_name field_name end
          (at + (12 + extra_bytes (kind_at btf at) (vlen_at btf at)))
          v
      → IsField btf struct_name field_name end at v

members-ok :
    (n m_off end : ℕ) (btf : Btf) (field_name : Text) (v : ℕ)
    → members n m_off end btf field_name ≡ ok v
    → (k : ℕ) × (k < n)
      × (m_off + k * 12 + 12 ≤ end)
      × (string btf (read_u32 btf (m_off + k * 12)) ≡ ok field_name)
      × (read_u32 btf (m_off + k * 12 + 8) / 8 ≡ v)
unfolding members
members-ok zero m_off end btf field_name v h = absurd (ground arith)
members-ok (suc n) m_off end btf field_name v h = elim (Bool-cases (leb (m_off + 12) end)) [
  | inl room ↦
      go (string btf (read_u32 btf m_off)) refl (ground arith)
        (members-ok n (m_off + 12) end btf field_name v)
  | inr truncated ↦ absurd (ground arith)
]
  where
    go :
        (r : Result BtfError (List ℕ))
        → string btf (read_u32 btf m_off) ≡ r
        → m_off + 12 ≤ end
        → (members n (m_off + 12) end btf field_name ≡ ok v
            → (k : ℕ) × (k < n)
              × (m_off + 12 + k * 12 + 12 ≤ end)
              × (string btf (read_u32 btf (m_off + 12 + k * 12)) ≡ ok field_name)
              × (read_u32 btf (m_off + 12 + k * 12 + 8) / 8 ≡ v))
        → (k : ℕ) × (k < suc n)
          × (m_off + k * 12 + 12 ≤ end)
          × (string btf (read_u32 btf (m_off + k * 12)) ≡ ok field_name)
          × (read_u32 btf (m_off + k * 12 + 8) / 8 ≡ v)
    go (err x) e room next = absurd (ground (arith, e))
    go (ok name) e room next = elim (Bool-cases (text_eq name field_name)) [
      | inl same ↦
          let at : m_off + 0 * 12 ≡ m_off = omega arith in
          (
            0,
            omega arith,
            omega (arith, room),
            rw at (e ∙ ap ok (text_eq_sound name field_name same)),
            rw at (ground (arith, e, same)),
          )
      | inr other ↦
          let (k, lt, fits, named, value) = next (ground (arith, e, other)) in
          let at : m_off + suc k * 12 ≡ m_off + 12 + k * 12 = omega arith in
          (suc k, omega (arith, lt), omega (arith, fits), rw at named, rw at value)
    ]

is_named_struct-true :
    (btf : Btf) (at : ℕ) (struct_name : Text)
    → is_named_struct btf at struct_name ≡ ok true
    → (kind_at btf at ≡ btf_kind_struct) × (string btf (read_u32 btf at) ≡ ok struct_name)
unfolding is_named_struct
is_named_struct-true btf at struct_name h = go (string btf (read_u32 btf at)) refl
  where
    go :
        (r : Result BtfError (List ℕ))
        → string btf (read_u32 btf at) ≡ r
        → (kind_at btf at ≡ btf_kind_struct) × (string btf (read_u32 btf at) ≡ ok struct_name)
    go (err x) e = absurd (ground (arith, e))
    go (ok name) e =
        (ground (arith, e), e ∙ ap ok (text_eq_sound name struct_name (ground (arith, e))))

walk-IsField :
    (fuel at end : ℕ) (btf : Btf) (struct_name field_name : Text) (v : ℕ)
    → walk fuel at end btf struct_name field_name ≡ ok v
    → IsField btf struct_name field_name end at v
unfolding walk
walk-IsField zero at end btf struct_name field_name v h = absurd (ground arith)
walk-IsField (suc fuel) at end btf struct_name field_name v h =
    elim (Bool-cases (leb (at + 12) end)) [
      | inl room ↦ go (is_named_struct btf at struct_name) refl (ground arith) (
          walk-IsField fuel (at + (12 + extra_bytes (kind_at btf at) (vlen_at btf at))) end btf
            struct_name field_name v)
      | inr stop ↦ absurd (ground arith)
    ]
  where
    go :
        (r : Result BtfError Bool)
        → is_named_struct btf at struct_name ≡ r
        → at + 12 ≤ end
        → (walk fuel
                (at + (12 + extra_bytes (kind_at btf at) (vlen_at btf at)))
                end
                btf
                struct_name
                field_name
              ≡ ok v
            → IsField btf struct_name field_name end
                (at + (12 + extra_bytes (kind_at btf at) (vlen_at btf at)))
                v)
        → IsField btf struct_name field_name end at v
    go (err x) e room next = absurd (ground (arith, e))
    go (ok false) e room next = later room e (next (ground (arith, e)))
    go (ok true) e room next =
        let (kind, named) = is_named_struct-true btf at struct_name e in
        let (k, lt, fits, field, value) =
          members-ok (vlen_at btf at) (at + 12) end btf field_name v (ground (arith, e)) in
        subst (IsField btf struct_name field_name end at) value (here k kind named lt fits field)

-- An offset that is found is the byte offset of a member of that name of the first struct of that
-- name, and the whole member lies in the section of the types.
pub struct_field_offset-IsField :
    (btf : Btf) (struct_name field_name : Text) (v : ℕ)
    → struct_field_offset btf struct_name field_name ≡ ok v
    → let base = btf.hdr_len + btf.type_off in
      IsField btf struct_name field_name (base + btf.type_len) base v
unfolding struct_field_offset
struct_field_offset-IsField btf struct_name field_name v h =
    walk-IsField (suc btf.type_len) (btf.hdr_len + btf.type_off)
      (btf.hdr_len + btf.type_off + btf.type_len) btf struct_name field_name v h
