-- ===== src/Query/Parse/Tokens.antt =====
-- Tokens of every kind: what one round of the loop does with them.
use shellspectre.Base.{
  ℕ, zero, suc, ◌+◌, ◌-◌, ◌*◌, ◌/◌, ◌%◌, ◌^◌, ◌<◌, ◌≤◌, ◌≡◌, refl, ap, ◌∙◌, some, [], ◌∷◌, ℤ, pos,
  negsuc, Text, arith, parse_u32, parse_i32, parse_digits, digits_value, is_ascii_digit,
}
use shellspectre.Query.Parse.Print.{digits, decimal, decimal_int}

-- a digit in front of the rest
digits_value-digit :
    (limit acc d : ℕ) (s : Text)
    → d < 10
    → acc * 10 + d ≤ limit
    → digits_value limit acc ((b'0' + d) ∷ s) ≡ digits_value limit (acc * 10 + d) s
unfolding digits_value is_ascii_digit
digits_value-digit limit acc d s small fits = ground arith

digits_value-digits :
    (limit fuel n : ℕ) (out : Text)
    → n ≤ limit
    → n < 10 ^ fuel
    → 0 < fuel
    → digits_value limit 0 (digits fuel n out) ≡ digits_value limit n out
unfolding digits
digits_value-digits limit zero n out fits enough f = absurd (omega arith)
digits_value-digits limit (suc zero) n out fits enough f =
    ground (arith, digits_value-digit limit 0 (n % 10) out)
digits_value-digits limit (suc (suc fuel)) n out fits enough f = ground (
  arith,
  digits_value-digit limit 0 (n % 10) out,
  digits_value-digit limit (n / 10) (n % 10) out,
  digits_value-digits limit (suc fuel) (n / 10) ((b'0' + n % 10) ∷ out),
)

-- Text that starts with a digit and so with no sign.
abbrev StartsWithDigit : Text → Type 0
StartsWithDigit [] = ⊥
StartsWithDigit (c ∷ s) = (b'0' ≤ c) × (c < b'0' + 10)

digits-StartsWithDigit : (fuel n : ℕ) (out : Text) → 0 < fuel → StartsWithDigit (digits fuel n out)
unfolding digits
digits-StartsWithDigit zero n out f = absurd (omega arith)
digits-StartsWithDigit (suc zero) n out f = ground arith
digits-StartsWithDigit (suc (suc fuel)) n out f =
    ground (arith, digits-StartsWithDigit (suc fuel) (n / 10) ((b'0' + n % 10) ∷ out))

parse_digits-StartsWithDigit :
    (limit : ℕ) (s : Text) → StartsWithDigit s → parse_digits limit s ≡ digits_value limit 0 s
unfolding parse_digits
parse_digits-StartsWithDigit limit [] h = elim h [ ]
parse_digits-StartsWithDigit limit (c ∷ s) h = refl

parse_digits-decimal :
    (limit n : ℕ) → n ≤ limit → n < 10 ^ 10 → parse_digits limit (decimal n) ≡ some n
unfolding decimal digits_value
parse_digits-decimal limit n fits small =
    parse_digits-StartsWithDigit limit (digits 10 n [])
      (digits-StartsWithDigit 10 n [] (omega arith))
    ∙ digits_value-digits limit 10 n [] fits small (omega arith)

parse_u32-StartsWithDigit :
    (s : Text) → StartsWithDigit s → parse_u32 s ≡ parse_digits (2 ^ 32 - 1) s
unfolding parse_u32
parse_u32-StartsWithDigit [] h = elim h [ ]
parse_u32-StartsWithDigit (c ∷ s) h = ground arith

-- Every u32 is read back from its decimal digits.
pub parse_u32-decimal : (n : ℕ) → n < 2 ^ 32 → parse_u32 (decimal n) ≡ some n
unfolding decimal
parse_u32-decimal n h =
    parse_u32-StartsWithDigit (digits 10 n []) (digits-StartsWithDigit 10 n [] (omega arith))
    ∙ parse_digits-decimal (2 ^ 32 - 1) n (omega arith) (omega arith)

parse_i32-StartsWithDigit :
    (s : Text)
    → StartsWithDigit s
    → parse_i32 s ≡ shellspectre.Base.map_sign pos (parse_digits (2 ^ 31 - 1) s)
unfolding parse_i32
parse_i32-StartsWithDigit [] h = elim h [ ]
parse_i32-StartsWithDigit (c ∷ s) h = ground arith

-- `i32::MIN <= n <= i32::MAX`
abbrev pub IsI32 : ℤ → Type 0
IsI32 (pos n) = n < 2 ^ 31
IsI32 (negsuc n) = n < 2 ^ 31

-- Every i32 is read back from its decimal digits.
pub parse_i32-decimal_int : (n : ℤ) → IsI32 n → parse_i32 (decimal_int n) ≡ some n
unfolding decimal_int decimal
parse_i32-decimal_int (pos n) h =
    parse_i32-StartsWithDigit (digits 10 n []) (digits-StartsWithDigit 10 n [] (omega arith))
    ∙ ap (shellspectre.Base.map_sign pos)
        (parse_digits-decimal (2 ^ 31 - 1) n (omega arith) (omega arith))
parse_i32-decimal_int (negsuc n) h =
    unfold parse_i32 in
    ap (shellspectre.Base.map_sign shellspectre.Base.negated_of)
      (parse_digits-decimal (2 ^ 31) (suc n) (omega arith) (omega arith))
