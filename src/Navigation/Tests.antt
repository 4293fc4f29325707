-- ===== src/Navigation/Tests.antt =====
-- A query in a link.
use shellspectre.Base.{
  ℕ, ◌+◌, ◌-◌, ◌*◌, ◌==◌, ◌≡◌, refl, false, any, ◌||◌, [], ◌∷◌, Text, codes, arith, leb, replace,
  if◌then◌else◌,
}
use shellspectre.Navigation.Encoding.{IsDecoder, is_separator, decode-urlencoded}
use shellspectre.Navigation.{urlencoded}

hex : ℕ → ℕ
hex d = if leb d b'9' then d - b'0' else d - b'A' + 10

plain : ℕ → ℕ
plain c = if c == b'+' then b' ' else c

-- a decoder of form data
decode_form : Text → Text
unfolding hex plain
decode_form [] = []
decode_form (c ∷ []) = plain c ∷ []
decode_form (c ∷ d ∷ []) = plain c ∷ plain d ∷ []
decode_form (c ∷ d ∷ e ∷ s) =
    let short = decode_form s in
    let long = decode_form (d ∷ e ∷ s) in
    if c == b'%' then (hex d * 16 + hex e) ∷ short else plain c ∷ long

decode_form-ordinary :
    (c : ℕ) (s : Text)
    → ((c == b'%') || (c == b'+')) ≡ false
    → decode_form (c ∷ s) ≡ c ∷ decode_form s
unfolding decode_form
decode_form-ordinary c [] h = ground (arith, h)
decode_form-ordinary c (d ∷ []) h = ground (arith, h)
decode_form-ordinary c (d ∷ e ∷ s) h = ground (arith, h)

decode_form-plus : (s : Text) → decode_form (b'+' ∷ s) ≡ b' ' ∷ decode_form s
unfolding decode_form
decode_form-plus [] = refl
decode_form-plus (d ∷ []) = refl
decode_form-plus (d ∷ e ∷ s) = refl

decode_form-IsDecoder : IsDecoder decode_form
unfolding decode_form
decode_form-IsDecoder = record {
  at_end = refl;
  plus = decode_form-plus;
  percent_sign = λ s. refl;
  space = λ s. refl;
  ampersand = λ s. refl;
  equals_sign = λ s. refl;
  hash_sign = λ s. refl;
  ordinary = decode_form-ordinary;
}

decode-urlencoded_example :
    (decode_form (urlencoded (codes "comm:a b&c=1%")) ≡ codes "comm:a b&c=1%")
    × (any is_separator (urlencoded (codes "comm:a b&c=1%")) ≡ false)
decode-urlencoded_example =
    decode-urlencoded decode_form decode_form-IsDecoder (codes "comm:a b&c=1%") refl

-- A plus sign comes back as a space.
plus_is_lost : decode_form (urlencoded (codes "g++")) ≡ codes "g  "
unfolding decode_form urlencoded replace
plus_is_lost = refl
