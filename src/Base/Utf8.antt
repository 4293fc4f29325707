-- ===== src/Base/Utf8.antt =====
-- `String::from_utf8_lossy`: the code points of a byte buffer, where each longest prefix of a
-- character that is not finished, and each byte that starts none, becomes U+FFFD.
use Prim.Native.Nat.{ℕ, ◌+◌, ◌*◌, ◌-◌}
use mathlib.Core.Path.{◌≡◌, refl}
use mathlib.Core.Bool.{Bool, true, false, ◌&&◌}
use mathlib.Core.Option.{Option, none, some}
use mathlib.Core.List.{List, [], ◌∷◌, ◌++◌}
use native.Mathlib.Omega.{arith}
use shellspectre.Base.Tests.{ltb, leb, ◌==◌, if◌then◌else◌}
use shellspectre.Base.Lists.{all, any}

-- Between characters, or inside one: how many bytes it still needs, the bits so far, and the range
-- of the next byte.
pub data Decoder : Type 0 where
  start : Decoder
  need : ℕ → ℕ → ℕ → ℕ → Decoder

abbrev replacement : ℕ
replacement = 0xfffd

abbrev within : ℕ → ℕ → ℕ → Bool
within lo hi b = leb lo b && leb b hi

begin : ℕ → List ℕ × Decoder
begin b =
    if ltb b 0x80
    then (b ∷ [], start)
    else if within 0xc2 0xdf b
    then ([], need 1 (b - 0xc0) 0x80 0xbf)
    else if b == 0xe0
    then ([], need 2 0 0xa0 0xbf)
    else if b == 0xed
    then ([], need 2 0xd 0x80 0x9f)
    else if within 0xe1 0xef b
    then ([], need 2 (b - 0xe0) 0x80 0xbf)
    else if b == 0xf0
    then ([], need 3 0 0x90 0xbf)
    else if within 0xf1 0xf3 b
    then ([], need 3 (b - 0xf0) 0x80 0xbf)
    else if b == 0xf4
    then ([], need 3 4 0x80 0x8f)
    else (replacement ∷ [], start)

restart : List ℕ × Decoder → List ℕ × Decoder
restart (out, s) = (replacement ∷ out, s)

advance : ℕ → ℕ → List ℕ × Decoder
advance k acc = if k == 1 then (acc ∷ [], start) else ([], need (k - 1) acc 0x80 0xbf)

step : Decoder → ℕ → List ℕ × Decoder
unfolding begin restart advance
step start b = begin b
step (need k acc lo hi) b =
    if within lo hi b then advance k (acc * 64 + (b - 0x80)) else restart (begin b)

finish : Decoder → List ℕ
finish start = []
finish (need k acc lo hi) = replacement ∷ []

decode : Decoder → List ℕ → List ℕ
decode s [] = finish s
decode s (b ∷ bs) = let (out, s') = step s b in out ++ decode s' bs

unfoldable pub from_utf8_lossy : List ℕ → List ℕ
unfolding decode step finish
from_utf8_lossy bytes = decode start bytes

abbrev pub is_ascii : ℕ → Bool
is_ascii b = ltb b 0x80

-- The state behind a byte that continues well-formed text.
accepts : Decoder → ℕ → Option Decoder
unfolding begin advance
accepts start b = let (out, s) = begin b in if any (λ c. c == replacement) out then none else some s
accepts (need k acc lo hi) b =
    if within lo hi b then some (advance k (acc * 64 + (b - 0x80))).1 else none

is_utf8_from : Option Decoder → List ℕ → Bool
unfolding accepts
is_utf8_from none bytes = false
is_utf8_from (some start) [] = true
is_utf8_from (some (need k acc lo hi)) [] = false
is_utf8_from (some s) (b ∷ bs) = is_utf8_from (accepts s b) bs

-- whether `str::from_utf8` accepts the bytes
unfoldable pub is_utf8 : List ℕ → Bool
unfolding is_utf8_from
is_utf8 bytes = is_utf8_from (some start) bytes

accepted : is_utf8 (0xe2 ∷ 0x82 ∷ 0xac ∷ 0x61 ∷ []) ≡ true
unfolding is_utf8
accepted = refl

refused : is_utf8 (0x61 ∷ 0xe2 ∷ 0x82 ∷ []) ≡ false
unfolding is_utf8
refused = refl

decode-ascii : (bytes : List ℕ) → all is_ascii bytes ≡ true → decode start bytes ≡ bytes
unfolding decode step finish
decode-ascii [] h = refl
decode-ascii (b ∷ bs) h = ground (arith, decode-ascii bs)

pub from_utf8_lossy-ascii :
    (bytes : List ℕ) → all is_ascii bytes ≡ true → from_utf8_lossy bytes ≡ bytes
unfolding from_utf8_lossy
from_utf8_lossy-ascii bytes h = decode-ascii bytes h

replaces : from_utf8_lossy (0xff ∷ 0xfe ∷ []) ≡ 0xfffd ∷ 0xfffd ∷ []
unfolding from_utf8_lossy
replaces = refl

truncated : from_utf8_lossy (0x61 ∷ 0xe2 ∷ 0x82 ∷ 0x62 ∷ []) ≡ 0x61 ∷ 0xfffd ∷ 0x62 ∷ []
unfolding from_utf8_lossy
truncated = refl

euro : from_utf8_lossy (0xe2 ∷ 0x82 ∷ 0xac ∷ []) ≡ 0x20ac ∷ []
unfolding from_utf8_lossy
euro = refl
