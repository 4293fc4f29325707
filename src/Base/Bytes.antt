-- ===== src/Base/Bytes.antt =====
-- Little-endian words in byte buffers: the layout of integers on the targets the program builds for.
use Prim.Native.Nat.{ℕ, zero, suc, ◌+◌, ◌*◌, ◌/◌, ◌%◌, ◌^◌, ◌<◌}
use mathlib.Core.Path.{◌≡◌, refl, ap, sym, ◌∙◌}
use mathlib.Core.List.{List, [], ◌∷◌, ◌++◌}
use native.Mathlib.Omega.{arith}
use native.Mathlib.Nat.{pow-suc}
use shellspectre.Base.Lists.{length, take, drop, slice, drop-drop, drop-append, take-append}

-- the `n` low bytes of a word
unfoldable pub to_le : ℕ → ℕ → List ℕ
to_le zero v = []
to_le (suc n) v = (v % 256) ∷ to_le n (v / 256)

unfoldable pub from_le : List ℕ → ℕ
from_le [] = 0
from_le (b ∷ bs) = b + 256 * from_le bs

pub length-to_le : (n v : ℕ) → length (to_le n v) ≡ n
unfolding to_le
length-to_le zero v = refl
length-to_le (suc n) v = ap suc (length-to_le n (v / 256))

pub from_le-to_le : (n v : ℕ) → v < 256 ^ n → from_le (to_le n v) ≡ v
unfolding to_le from_le
from_le-to_le zero v h = omega arith
from_le-to_le (suc n) v h =
    let h' : v < 256 ^ n * 256 = rw (pow-suc 256 n) at h in
    omega (arith, from_le-to_le n (v / 256) (omega arith))

-- The word of `w` bytes at an offset.
unfoldable pub le_at : ℕ → ℕ → List ℕ → ℕ
unfolding from_le
le_at off w bytes = from_le (slice off w bytes)

pub drop-next :
    (off w off' : ℕ) (front tail bytes : List ℕ)
    → length front ≡ w
    → off + w ≡ off'
    → drop off bytes ≡ front ++ tail
    → drop off' bytes ≡ tail
drop-next off w off' front tail bytes l e h =
    sym (ap (λ k. drop k bytes) e)
    ∙ drop-drop off w bytes
    ∙ ap (λ d. drop w d) h
    ∙ drop-append w front tail l

pub le_at-to_le :
    (off w v : ℕ) (tail bytes : List ℕ)
    → v < 256 ^ w
    → drop off bytes ≡ to_le w v ++ tail
    → le_at off w bytes ≡ v
unfolding le_at
le_at-to_le off w v tail bytes lt h =
    ap (λ d. from_le (take w d)) h
    ∙ ap from_le (take-append w (to_le w v) tail (length-to_le w v))
    ∙ from_le-to_le w v lt

pub slice-at :
    (off w : ℕ) (front tail bytes : List ℕ)
    → length front ≡ w
    → drop off bytes ≡ front ++ tail
    → slice off w bytes ≡ front
slice-at off w front tail bytes l h = ap (λ d. take w d) h ∙ take-append w front tail l
