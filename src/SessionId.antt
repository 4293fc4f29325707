-- ===== src/SessionId.antt =====
-- Session identifiers: shspectr-common/src/session.rs, and how shspectr/src/session.rs draws them.
use shellspectre.Base.{
  sym, ℕ, ◌+◌, ◌%◌, ◌<◌, ◌≡◌, refl, ap, ◌↔◌, inl, inr, Bool, true, false, ◌&&◌, Option, none, some,
  List, [], ◌∷◌, ◌++◌, map, arith, ltb, ◌==◌, if◌then◌else◌, Option-cases, length, get_or, all,
  Text, codes, strip_prefix, utf8_len, is_ascii_digit, is_ascii_alphanumeric, passes_under,
  passes_under_at, strip_prefix-eq-some,
}

-- A session identifier wraps a string; `From<String>` wraps without a check.
abbrev pub SessionId : Type 0
SessionId = Text

abbrev pub prefix : Text
prefix = codes "ox_"

abbrev pub suffix_len : ℕ
suffix_len = 8

-- what is left behind the prefix, if the text starts with it, is all alphanumeric
suffix_ok : Option Text → Bool
suffix_ok none = false
suffix_ok (some rest) = all is_ascii_alphanumeric rest

-- `SessionId::is_valid`: the length is in bytes
pub is_valid : Text → Bool
unfolding suffix_ok
is_valid s = (utf8_len s == utf8_len prefix + suffix_len) && suffix_ok (strip_prefix prefix s)

-- `SessionId::new`
pub new : Text → Option SessionId
new s = if is_valid s then some s else none

abbrev charset : Text
charset = codes "0123456789abcdefghijklmnopqrstuvwxyz"

-- one character of the suffix from one random byte
pick : ℕ → ℕ
pick b = get_or charset (b % length charset) 0

-- `generate_session_id`, on what `getrandom::fill` fills in: where it fails, the answer is the panic of
-- `expect`
pub generate_session_id : Option (List ℕ) → Option SessionId
unfolding pick
generate_session_id none = none
generate_session_id (some buf) = some (prefix ++ map pick buf)

pick_is_alphanumeric : ℕ → Bool
unfolding is_ascii_alphanumeric
pick_is_alphanumeric r = is_ascii_alphanumeric (get_or charset r 0) && ltb (get_or charset r 0) 0x80

pick_table : passes_under pick_is_alphanumeric 36 ≡ true
unfolding passes_under pick_is_alphanumeric
pick_table = refl

pick-alphanumeric : (b : ℕ) → (is_ascii_alphanumeric (pick b) ≡ true) × (pick b < 0x80)
unfolding pick pick_is_alphanumeric
pick-alphanumeric b =
    ground (arith, passes_under_at pick_is_alphanumeric 36 (b % 36) (omega arith) pick_table)

suffix-alphanumeric :
    (buf : List ℕ)
    → (all is_ascii_alphanumeric (map pick buf) ≡ true) × (utf8_len (map pick buf) ≡ length buf)
unfolding utf8_len
suffix-alphanumeric [] = (refl, refl)
suffix-alphanumeric (b ∷ bs) = ground (arith, pick-alphanumeric b, suffix-alphanumeric bs)

pub generate_session_id-none : generate_session_id none ≡ none
unfolding generate_session_id
generate_session_id-none = refl

-- Bytes that were drawn give an identifier.
pub generate_session_id-drawn :
    (buf : List ℕ) → (sid : SessionId) × (generate_session_id (some buf) ≡ some sid)
unfolding generate_session_id
generate_session_id-drawn buf = (prefix ++ map pick buf, refl)

-- An identifier drawn from eight random bytes, whatever they are, passes `is_valid`.
pub is_valid-generate_session_id :
    (buf : List ℕ) (sid : SessionId)
    → length buf ≡ suffix_len
    → generate_session_id (some buf) ≡ some sid
    → is_valid sid ≡ true
unfolding generate_session_id is_valid strip_prefix utf8_len
is_valid-generate_session_id buf sid h g =
    let made : prefix ++ map pick buf ≡ sid = ground arith in
    rw (sym made) (ground (arith, suffix-alphanumeric buf))

alphanumeric-lt : (c : ℕ) → is_ascii_alphanumeric c ≡ true → c < 0x80
unfolding is_ascii_alphanumeric is_ascii_digit
alphanumeric-lt c h = ground arith

utf8_len-alphanumeric : (s : Text) → all is_ascii_alphanumeric s ≡ true → utf8_len s ≡ length s
unfolding utf8_len
utf8_len-alphanumeric [] h = refl
utf8_len-alphanumeric (c ∷ s) h = ground (arith, alphanumeric-lt c, utf8_len-alphanumeric s)

-- What `is_valid` tests: the prefix, and eight ASCII letters or digits behind it.
unfoldable pub IsWellFormed : Text → Type 0
IsWellFormed s =
    (rest : Text) × (s ≡ prefix ++ rest)
    × (length rest ≡ suffix_len)
    × (all is_ascii_alphanumeric rest ≡ true)

is_valid-IsWellFormed : (s : Text) → is_valid s ≡ true → IsWellFormed s
unfolding is_valid IsWellFormed utf8_len
is_valid-IsWellFormed s h = elim (Option-cases (strip_prefix prefix s)) [
  | inl e ↦ absurd (ground (arith, e))
  | inr (rest, e) ↦ from_rest rest e
]
  where
    from_rest : (rest : Text) → strip_prefix prefix s ≡ some rest → IsWellFormed s
    from_rest rest e =
        let shape = strip_prefix-eq-some prefix s rest e in
        let long : utf8_len s ≡ 3 + utf8_len rest = rw (ap utf8_len shape) (omega arith) in
        (rest, shape, ground (arith, utf8_len-alphanumeric rest), ground (arith, e))

pub IsWellFormed-is_valid : (s : Text) → IsWellFormed s → is_valid s ≡ true
unfolding is_valid IsWellFormed utf8_len strip_prefix
IsWellFormed-is_valid s (rest, shape, long, letters) =
    rw shape (ground (arith, utf8_len-alphanumeric rest))

alphanumeric_is_ascii :
    (s : Text) → all is_ascii_alphanumeric s ≡ true → all (λ c. ltb c 0x80) s ≡ true
alphanumeric_is_ascii [] h = refl
alphanumeric_is_ascii (c ∷ s) h = ground (arith, alphanumeric-lt c, alphanumeric_is_ascii s)

-- A valid identifier has eleven characters of one byte.
pub is_valid_is_ascii :
    (s : Text)
    → is_valid s ≡ true
    → (all (λ c. ltb c 0x80) s ≡ true) × (utf8_len s ≡ 11) × (length s ≡ 11)
unfolding IsWellFormed utf8_len
is_valid_is_ascii s h =
    let (rest, shape, long, letters) = is_valid-IsWellFormed s h in
    let ascii = alphanumeric_is_ascii rest letters in
    let bytes = utf8_len-alphanumeric rest letters in
    rw shape (ascii, omega (arith, long, bytes), omega (arith, long))

-- `new` accepts exactly the texts `ox_` followed by eight ASCII letters or digits, and keeps them.
new_iff : (s t : Text) → (new s ≡ some t) ↔ ((s ≡ t) × IsWellFormed s)
unfolding new
new_iff s t = (
  λ h. (ground arith, is_valid-IsWellFormed s (ground arith)),
  λ h. ground (arith, IsWellFormed-is_valid s h.1),
)
