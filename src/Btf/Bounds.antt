-- ===== src/Btf/Bounds.antt =====
-- What a parsed header promises.
use shellspectre.Base.{ℕ, ◌+◌, ◌^◌, ◌≤◌, ◌<◌, ◌≡◌, ◌≢◌, List, arith, length, ok, err}
use shellspectre.Btf.{Btf, panicked, out_of_fuel, sections, from_bytes, string}

-- The sections lie in the buffer, the types before the strings.
pub record InBounds (btf : Btf) : Type 0 where
  pub header : 24 ≤ btf.hdr_len
  pub order : btf.hdr_len + btf.type_off + btf.type_len ≤ btf.hdr_len + btf.str_off
  pub strings : btf.hdr_len + btf.str_off + btf.str_len ≤ length btf.bytes
  pub usize : btf.hdr_len + btf.str_off + btf.str_len < 2 ^ 64

-- `from_bytes` refuses every header whose sections do not lie in the buffer, and keeps the buffer.
pub from_bytes-InBounds :
    (bytes : List ℕ) (btf : Btf) → from_bytes bytes ≡ ok btf → (btf.bytes ≡ bytes) × InBounds btf
unfolding from_bytes sections
from_bytes-InBounds bytes btf h = ground arith

-- Within such bounds, a text is read without a panic.
pub string_sound :
    (btf : Btf) (offset : ℕ)
    → InBounds btf
    → (string btf offset ≢ err panicked) × (string btf offset ≢ err out_of_fuel)
unfolding string
string_sound btf offset b = ground (arith, b.strings)
