-- ===== src/Base/Words.antt =====
-- What the program uses of Rust's `str`: splitting, trimming, joining, replacing, and reading numbers.
use Prim.Native.Nat.{ℕ, zero, suc, ◌+◌, ◌-◌, ◌*◌, ◌^◌}
use mathlib.Core.Bool.{Bool, ◌&&◌, ◌||◌}
use mathlib.Core.Option.{Option, none, some}
use mathlib.Core.List.{List, [], ◌∷◌, ◌++◌}
use shellspectre.Base.Tests.{leb, ◌==◌, if◌then◌else◌}
use shellspectre.Base.Lists.{any, is_empty}
use shellspectre.Base.Strings.{Text, is_ascii_digit}
use shellspectre.Base.Int.{ℤ, pos, negsuc}

-- `char::is_whitespace`
unfoldable pub is_whitespace : ℕ → Bool
is_whitespace c =
    (leb 9 c && leb c 13)
    || (c == 32)
    || (c == 0x85)
    || (c == 0xA0)
    || (c == 0x1680)
    || (leb 0x2000 c && leb c 0x200A)
    || (c == 0x2028)
    || (c == 0x2029)
    || (c == 0x202F)
    || (c == 0x205F)
    || (c == 0x3000)

abbrev pub push_first : ℕ → List Text → List Text
push_first c [] = (c ∷ []) ∷ []
push_first c (w ∷ ws) = (c ∷ w) ∷ ws

-- `s.split(p)`
unfoldable pub split_by : (ℕ → Bool) → Text → List Text
split_by p [] = [] ∷ []
split_by p (c ∷ s) = let rest = split_by p s in if p c then [] ∷ rest else push_first c rest

abbrev pub filter_filled : List Text → List Text
filter_filled [] = []
filter_filled ([] ∷ ws) = filter_filled ws
filter_filled ((c ∷ w) ∷ ws) = (c ∷ w) ∷ filter_filled ws

-- `s.split_whitespace()`
unfoldable pub split_whitespace : Text → List Text
unfolding split_by is_whitespace
split_whitespace s = filter_filled (split_by is_whitespace s)

unfoldable pub trim_start : Text → Text
unfolding is_whitespace
trim_start [] = []
trim_start (c ∷ s) = let rest = trim_start s in if is_whitespace c then rest else c ∷ s

unfoldable pub trim_end : Text → Text
unfolding is_whitespace
trim_end [] = []
trim_end (c ∷ s) =
    let rest = trim_end s in if is_empty rest && is_whitespace c then [] else c ∷ rest

-- `s.trim()`
unfoldable pub trim : Text → Text
unfolding trim_start trim_end
trim s = trim_end (trim_start s)

abbrev pub push_left : ℕ → Option (Text × Text) → Option (Text × Text)
push_left c none = none
push_left c (some (a, b)) = some (c ∷ a, b)

-- `s.split_once(c)`
unfoldable pub split_once : ℕ → Text → Option (Text × Text)
split_once sep [] = none
split_once sep (c ∷ s) =
    let rest = split_once sep s in if c == sep then some ([], s) else push_left c rest

-- `s.contains(c)`
abbrev pub contains_char : ℕ → Text → Bool
contains_char c = any λ d. d == c

-- `words.join(sep)`
unfoldable pub join : Text → List Text → Text
join sep [] = []
join sep (w ∷ []) = w
join sep (w ∷ v ∷ ws) = w ++ (sep ++ join sep (v ∷ ws))

-- `s.replace(c, by)` for a character `c`
unfoldable pub replace : ℕ → Text → Text → Text
replace c by [] = []
replace c by (d ∷ s) = let rest = replace c by s in if d == c then by ++ rest else d ∷ rest

-- The digits behind a sign, with the overflow checks at `limit`.
unfoldable pub digits_value : ℕ → ℕ → Text → Option ℕ
unfolding is_ascii_digit
digits_value limit acc [] = some acc
digits_value limit acc (c ∷ s) =
    let next = acc * 10 + (c - b'0') in
    let rest = digits_value limit next s in
    if is_ascii_digit c && leb next limit then rest else none

unfoldable pub parse_digits : ℕ → Text → Option ℕ
unfolding digits_value
parse_digits limit [] = none
parse_digits limit (c ∷ s) = digits_value limit 0 (c ∷ s)

-- `s.parse::<u32>().ok()`
unfoldable pub parse_u32 : Text → Option ℕ
unfolding parse_digits
parse_u32 [] = none
parse_u32 (c ∷ s) =
    if c == b'+' then parse_digits (2 ^ 32 - 1) s else parse_digits (2 ^ 32 - 1) (c ∷ s)

abbrev pub negated_of : ℕ → ℤ
negated_of zero = pos 0
negated_of (suc n) = negsuc n

abbrev pub map_sign : (ℕ → ℤ) → Option ℕ → Option ℤ
map_sign f none = none
map_sign f (some n) = some (f n)

-- `s.parse().ok()` for a signed type whose least value is `-limit`
unfoldable pub parse_signed : ℕ → Text → Option ℤ
unfolding parse_digits
parse_signed limit [] = none
parse_signed limit (c ∷ s) =
    if c == b'-'
    then map_sign negated_of (parse_digits limit s)
    else if c == b'+'
    then map_sign pos (parse_digits (limit - 1) s)
    else map_sign pos (parse_digits (limit - 1) (c ∷ s))

-- `s.parse::<i32>().ok()`
unfoldable pub parse_i32 : Text → Option ℤ
unfolding parse_signed
parse_i32 = parse_signed (2 ^ 31)

-- `s.parse::<i64>().ok()`
unfoldable pub parse_i64 : Text → Option ℤ
unfolding parse_signed
parse_i64 = parse_signed (2 ^ 63)
