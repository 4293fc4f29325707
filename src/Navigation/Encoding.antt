-- ===== src/Navigation/Encoding.antt =====
-- The query of a link is read back by the server.
use shellspectre.Base.{
  ℕ, ◌==◌, ◌≡◌, refl, ap, ◌∙◌, Bool, false, ◌||◌, [], ◌∷◌, ◌++◌, Text, codes, any, arith,
  if◌then◌else◌, replace, any-append, contains_char,
}
use shellspectre.Navigation.{urlencoded}

abbrev is_encoded : ℕ → Bool
is_encoded c = (c == b'%') || (c == b' ') || (c == b'&') || (c == b'=') || (c == b'#')

-- What the standard for form data says of decoding a value: `%` and two hexadecimal digits stand for
-- a character, `+` for a space, and any other character for itself.
pub record IsDecoder (decode : Text → Text) : Type 0 where
  pub at_end : decode [] ≡ []
  pub plus : (s : Text) → decode (b'+' ∷ s) ≡ b' ' ∷ decode s
  pub percent_sign : (s : Text) → decode (codes "%25" ++ s) ≡ b'%' ∷ decode s
  pub space : (s : Text) → decode (codes "%20" ++ s) ≡ b' ' ∷ decode s
  pub ampersand : (s : Text) → decode (codes "%26" ++ s) ≡ b'&' ∷ decode s
  pub equals_sign : (s : Text) → decode (codes "%3D" ++ s) ≡ b'=' ∷ decode s
  pub hash_sign : (s : Text) → decode (codes "%23" ++ s) ≡ b'#' ∷ decode s
  pub ordinary :
      (c : ℕ) (s : Text) → ((c == b'%') || (c == b'+')) ≡ false → decode (c ∷ s) ≡ c ∷ decode s

-- what `urlencoded` makes of one character
encoded_char : ℕ → Text
encoded_char c =
    if c == b'%'
    then codes "%25"
    else if c == b' '
    then codes "%20"
    else if c == b'&'
    then codes "%26"
    else if c == b'='
    then codes "%3D"
    else if c == b'#'
    then codes "%23"
    else c ∷ []

urlencoded-cons : (c : ℕ) (s : Text) → urlencoded (c ∷ s) ≡ encoded_char c ++ urlencoded s
unfolding urlencoded replace encoded_char
urlencoded-cons c s = ground arith

decode-encoded_char :
    (decode : Text → Text) (laws : IsDecoder decode) (c : ℕ) (s : Text)
    → (c == b'+') ≡ false
    → decode (encoded_char c ++ s) ≡ c ∷ decode s
unfolding encoded_char
decode-encoded_char decode laws c s h = ground (
  arith,
  h,
  laws.percent_sign s,
  laws.space s,
  laws.ampersand s,
  laws.equals_sign s,
  laws.hash_sign s,
  laws.ordinary c s,
)

decoded :
    (decode : Text → Text) (laws : IsDecoder decode) (s : Text)
    → contains_char b'+' s ≡ false
    → decode (urlencoded s) ≡ s
decoded decode laws [] h = unfold urlencoded replace in laws.at_end
decoded decode laws (c ∷ s) h =
    let (here, later) = split c s h in
    ap decode (urlencoded-cons c s)
    ∙ decode-encoded_char decode laws c (urlencoded s) here
    ∙ ap (λ t. c ∷ t) (decoded decode laws s later)
  where
    split :
        (c : ℕ) (s : Text)
        → contains_char b'+' (c ∷ s) ≡ false
        → ((c == b'+') ≡ false) × (contains_char b'+' s ≡ false)
    split c s h = ground (arith, h)

pub is_separator : ℕ → Bool
is_separator c = (c == b'&') || (c == b'=') || (c == b'#') || (c == b' ')

any-is_separator-encoded_char : (c : ℕ) → any is_separator (encoded_char c) ≡ false
unfolding encoded_char is_separator
any-is_separator-encoded_char c = ground arith

-- An encoded query ends no parameter of the link: it has no `&`, `=`, `#` or space.
pub any-is_separator-urlencoded : (s : Text) → any is_separator (urlencoded s) ≡ false
any-is_separator-urlencoded [] = unfold urlencoded replace in refl
any-is_separator-urlencoded (c ∷ s) =
    ap (any is_separator) (urlencoded-cons c s)
    ∙ any-append is_separator (encoded_char c) (urlencoded s)
    ∙ ap (λ b. b || any is_separator (urlencoded s)) (any-is_separator-encoded_char c)
    ∙ any-is_separator-urlencoded s

-- A query without a plus sign is read back from its link, and ends no parameter of the link and starts no
-- other: what stands for it has no `&`, `=`, `#` or space. (`+` is not encoded, and is read as a space.)
pub decode-urlencoded :
    (decode : Text → Text) (laws : IsDecoder decode) (s : Text)
    → contains_char b'+' s ≡ false
    → (decode (urlencoded s) ≡ s) × (any is_separator (urlencoded s) ≡ false)
decode-urlencoded decode laws s h = (decoded decode laws s h, any-is_separator-urlencoded s)
