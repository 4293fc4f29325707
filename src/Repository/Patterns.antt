-- ===== src/Repository/Patterns.antt =====
-- LIKE patterns. The LIKE operator of SQLite is a parameter with its documented laws.
use shellspectre.Base.{
  ℕ, ◌==◌, ◌≡◌, refl, ap, ◌∙◌, Bool, true, false, ◌&&◌, ◌||◌, List, [], ◌∷◌, ◌++◌, Text, codes, any,
  any-ext, arith, is_empty, if◌then◌else◌, replace, Bool-cases, inl, inr,
}
use mathlib.Core.List.{append_assoc}
use shellspectre.Repository.{escape_like_pattern, glob_to_like_pattern}

-- every end of the text, itself and the empty one included
abbrev pub suffixes : Text → List Text
suffixes [] = [] ∷ []
suffixes (c ∷ s) = (c ∷ s) ∷ suffixes s

abbrev pub is_special : ℕ → Bool
is_special c = (c == b'%') || (c == b'_') || (c == b'\\')

-- One character, then what is left.
abbrev pub one_then : (ℕ → Bool) → (Text → Bool) → Text → Bool
one_then test left [] = false
one_then test left (d ∷ t) = test d && left t

-- What SQLite documents of `text LIKE pattern ESCAPE '\'`: `%` stands for any text, `_` for any one
-- character, a special character behind `\` for itself, and any other character for the characters
-- that are the same up to case.
pub record IsLike (same : ℕ → ℕ → Bool) (like : Text → Text → Bool) : Type 0 where
  pub at_end : (t : Text) → like [] t ≡ is_empty t
  pub percent : (p t : Text) → like (b'%' ∷ p) t ≡ any (like p) (suffixes t)
  pub underscore : (p t : Text) → like (b'_' ∷ p) t ≡ one_then (λ d. true) (like p) t
  pub escaped :
      (c : ℕ) (p t : Text)
      → is_special c ≡ true
      → like (b'\\' ∷ c ∷ p) t ≡ one_then (same c) (like p) t
  pub ordinary :
      (c : ℕ) (p t : Text) → is_special c ≡ false → like (c ∷ p) t ≡ one_then (same c) (like p) t

abbrev pub glob_cases : ℕ → Bool → Bool → Bool → Bool
glob_cases c many single itself = if c == b'*' then many else if c == b'?' then single else itself

module _ (same : ℕ → ℕ → Bool) where
  -- What a glob means: `*` stands for any text, `?` for any one character.
  abbrev pub glob_matches : Text → Text → Bool
  glob_matches [] t = is_empty t
  glob_matches (c ∷ g) t =
      glob_cases c (any (glob_matches g) (suffixes t)) (one_then (λ d. true) (glob_matches g) t)
        (one_then (same c) (glob_matches g) t)

  -- The text `v`, then what is left.
  abbrev pub text_then : Text → (Text → Bool) → Text → Bool
  text_then [] left t = left t
  text_then (c ∷ v) left t = one_then (same c) (text_then v left) t

-- what `escape_like_pattern` makes of one character
unfoldable pub escaped_char : ℕ → Text
escaped_char c = if is_special c then b'\\' ∷ c ∷ [] else c ∷ []

pub escape_like_pattern-cons :
    (c : ℕ) (s : Text) → escape_like_pattern (c ∷ s) ≡ escaped_char c ++ escape_like_pattern s
unfolding escape_like_pattern replace escaped_char
escape_like_pattern-cons c s = ground arith

unfoldable pub glob_char : ℕ → Text
unfolding escaped_char
glob_char c = if c == b'*' then codes "%" else if c == b'?' then codes "_" else escaped_char c

pub glob_to_like_pattern-cons :
    (c : ℕ) (s : Text) → glob_to_like_pattern (c ∷ s) ≡ glob_char c ++ glob_to_like_pattern s
unfolding glob_to_like_pattern escape_like_pattern replace glob_char escaped_char
glob_to_like_pattern-cons c s = ground arith

module _ (same : ℕ → ℕ → Bool) (like : Text → Text → Bool) (laws : IsLike same like) where
  pub one_then-ext :
      (test : ℕ → Bool) (f g : Text → Bool) (t : Text)
      → ((s : Text) → f s ≡ g s)
      → one_then test f t ≡ one_then test g t
  one_then-ext test f g [] h = refl
  one_then-ext test f g (d ∷ t) h = ap (λ b. test d && b) (h t)

  -- An escaped character matches itself, up to case.
  like-escaped_char :
      (c : ℕ) (p t : Text) → like (escaped_char c ++ p) t ≡ one_then (same c) (like p) t
  unfolding escaped_char
  like-escaped_char c p t = elim (Bool-cases (is_special c)) [
    | inl special ↦
        ap (λ b. like ((if b then b'\\' ∷ c ∷ [] else c ∷ []) ++ p) t) special
        ∙ laws.escaped c p t special
    | inr plain ↦
        ap (λ b. like ((if b then b'\\' ∷ c ∷ [] else c ∷ []) ++ p) t) plain
        ∙ laws.ordinary c p t plain
  ]

  -- An escaped text in front of a pattern.
  pub like-escape_like_pattern :
      (v p t : Text) → like (escape_like_pattern v ++ p) t ≡ text_then same v (like p) t
  like-escape_like_pattern [] p t = unfold escape_like_pattern replace in refl
  like-escape_like_pattern (c ∷ v) p t =
      ap (λ s. like (s ++ p) t) (escape_like_pattern-cons c v)
      ∙ ap (λ s. like s t) (append_assoc (escaped_char c) (escape_like_pattern v) p)
      ∙ like-escaped_char c (escape_like_pattern v ++ p) t
      ∙ one_then-ext (same c) (like (escape_like_pattern v ++ p)) (text_then same v (like p)) t
          (like-escape_like_pattern v p)

  like-glob_char :
      (c : ℕ) (p t : Text)
      → like (glob_char c ++ p) t
        ≡ glob_cases c
            (any (like p) (suffixes t))
            (one_then (λ d. true) (like p) t)
            (one_then (same c) (like p) t)
  unfolding glob_char
  like-glob_char c p t =
      let many = laws.percent p t in
      let single = laws.underscore p t in
      let itself = like-escaped_char c p t in
      elim (Bool-cases (c == b'*')) [
        | inl star ↦ rw star many
        | inr unstar ↦ elim (Bool-cases (c == b'?')) [
          | inl mark ↦ rw (unstar, mark) single
          | inr plain ↦ rw (unstar, plain) itself
        ]
      ]

  -- The pattern of a glob matches as the glob does, whatever characters it holds.
  pub like-glob_to_like_pattern :
      (g t : Text) → like (glob_to_like_pattern g) t ≡ glob_matches same g t
  like-glob_to_like_pattern [] t =
      unfold glob_to_like_pattern escape_like_pattern replace in laws.at_end t
  like-glob_to_like_pattern (c ∷ g) t =
      let p = glob_to_like_pattern g in
      let inner = like-glob_to_like_pattern g in
      let many = any-ext (like p) (glob_matches same g) (suffixes t) inner in
      let single = one_then-ext (λ d. true) (like p) (glob_matches same g) t inner in
      let itself = one_then-ext (same c) (like p) (glob_matches same g) t inner in
      ap (λ s. like s t) (glob_to_like_pattern-cons c g)
      ∙ like-glob_char c p t
      ∙ rw (many, single, itself)
