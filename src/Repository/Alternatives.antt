-- ===== src/Repository/Alternatives.antt =====
-- Alternatives behind bars, before and after the translation into LIKE patterns.
use shellspectre.Base.{
  ℕ, ◌≡◌, refl, sym, ap, ◌∙◌, Bool, true, false, List, [], ◌∷◌, ◌++◌, map, map-ext, Text, codes,
  any, arith, split_by, push_first, Bool-cases, inl, inr, split_by_one, replace,
}
use mathlib.Core.List.{append_assoc}
use shellspectre.Repository.{is_bar, escape_like_pattern, glob_to_like_pattern}
use shellspectre.Repository.Patterns.{
  escaped_char, glob_char, escape_like_pattern-cons, glob_to_like_pattern-cons,
}

-- Every character translated, with an end.
unfoldable pub translate : (ℕ → Text) → Text → Text → Text
translate f end [] = end
translate f end (c ∷ s) = f c ++ translate f end s

-- The pieces translated, the last one with the end.
unfoldable pub translated : (ℕ → Text) → Text → List Text → List Text
unfolding translate
translated f end [] = []
translated f end (piece ∷ []) = translate f end piece ∷ []
translated f end (piece ∷ next ∷ rest) = translate f [] piece ∷ translated f end (next ∷ rest)

prepend : Text → List Text → List Text
prepend w [] = w ∷ []
prepend w (piece ∷ pieces) = (w ++ piece) ∷ pieces

pub split_pieces :
    (p : ℕ → Bool) (s : Text) → (w : Text) × (ws : List Text) × (split_by p s ≡ w ∷ ws)
unfolding split_by
split_pieces p [] = ([], [], refl)
split_pieces p (c ∷ s) =
    let (w, ws, e) = split_pieces p s in
    elim (Bool-cases (p c)) [
      | inl bar ↦ ([], split_by p s, rw bar)
      | inr other ↦ (c ∷ w, ws, rw (other, e))
    ]

push_first-prepend :
    (c : ℕ) (w : Text) (xs : List Text) → push_first c (prepend w xs) ≡ prepend (c ∷ w) xs
unfolding prepend
push_first-prepend c w [] = refl
push_first-prepend c w (x ∷ xs) = refl

split_by-unbarred :
    (w s : Text) → any is_bar w ≡ false → split_by is_bar (w ++ s) ≡ prepend w (split_by is_bar s)
unfolding split_by
split_by-unbarred [] s h =
    let (piece, pieces, e) = split_pieces is_bar s in e ∙ unfold prepend in sym (ap (prepend []) e)
split_by-unbarred (c ∷ w) s h =
    ground (arith, split_by-unbarred w s, push_first-prepend c w (split_by is_bar s))

-- Bars stay bars, and no other character becomes one.
abbrev pub KeepsBars : (ℕ → Text) → Type 0
KeepsBars f =
    (c : ℕ) → (is_bar c ≡ true → f c ≡ c ∷ []) × (is_bar c ≡ false → any is_bar (f c) ≡ false)

escaped_char-KeepsBars : KeepsBars escaped_char
unfolding escaped_char is_bar
escaped_char-KeepsBars c = ground arith

pub glob_char-KeepsBars : KeepsBars glob_char
unfolding glob_char escaped_char is_bar
glob_char-KeepsBars c = ground arith

prepend-translated :
    (f : ℕ → Text) (end : Text) (c : ℕ) (x : Text) (xs : List Text)
    → prepend (f c) (translated f end (x ∷ xs)) ≡ translated f end ((c ∷ x) ∷ xs)
unfolding prepend translated translate
prepend-translated f end c x [] = refl
prepend-translated f end c x (y ∷ xs) = refl

translated_after_empty :
    (f : ℕ → Text) (end x : Text) (xs : List Text)
    → translated f end ([] ∷ x ∷ xs) ≡ [] ∷ translated f end (x ∷ xs)
unfolding translated translate
translated_after_empty f end x xs = refl

split_by_at_bar :
    (c : ℕ) (s : Text) → is_bar c ≡ true → split_by is_bar (c ∷ s) ≡ [] ∷ split_by is_bar s
unfolding split_by
split_by_at_bar c s h = rw h

split_by_at_other :
    (c : ℕ) (s w : Text) (ws : List Text)
    → is_bar c ≡ false
    → split_by is_bar s ≡ w ∷ ws
    → split_by is_bar (c ∷ s) ≡ (c ∷ w) ∷ ws
unfolding split_by
split_by_at_other c s w ws h e = rw (h, e)

-- The pieces of a translated text are the translated pieces of the text.
pub split_by-translate :
    (f : ℕ → Text) (end : Text)
    → KeepsBars f
    → any is_bar end ≡ false
    → (s : Text) → split_by is_bar (translate f end s) ≡ translated f end (split_by is_bar s)
unfolding translate
split_by-translate f end keeps plain [] =
    unfold translated split_by in split_by_one is_bar end plain
split_by-translate f end keeps plain (c ∷ s) =
    let (w, ws, e) = split_pieces is_bar s in
    let deeper = split_by-translate f end keeps plain s in
    let t = translate f end s in
    elim (Bool-cases (is_bar c)) [
      | inl bar ↦
          ap (λ u. split_by is_bar (u ++ t)) ((keeps c).0 bar)
          ∙ split_by_at_bar c t bar
          ∙ ap (λ ps. [] ∷ ps) (deeper ∙ ap (translated f end) e)
          ∙ sym (translated_after_empty f end w ws)
          ∙ ap (λ ps. translated f end ([] ∷ ps)) (sym e)
          ∙ ap (translated f end) (sym (split_by_at_bar c s bar))
      | inr other ↦
          split_by-unbarred (f c) t ((keeps c).1 other)
          ∙ ap (prepend (f c)) (deeper ∙ ap (translated f end) e)
          ∙ prepend-translated f end c w ws
          ∙ ap (translated f end) (sym (split_by_at_other c s w ws other e))
    ]

pub translated-nil : (f : ℕ → Text) (ps : List Text) → translated f [] ps ≡ map (translate f []) ps
unfolding translated
translated-nil f [] = refl
translated-nil f (p ∷ []) = refl
translated-nil f (p ∷ q ∷ ps) = ap (λ xs. translate f [] p ∷ xs) (translated-nil f (q ∷ ps))

pub glob_to_like_pattern-translate : (g : Text) → glob_to_like_pattern g ≡ translate glob_char [] g
unfolding translate
glob_to_like_pattern-translate [] = unfold glob_to_like_pattern escape_like_pattern replace in refl
glob_to_like_pattern-translate (c ∷ g) =
    glob_to_like_pattern-cons c g ∙ ap (λ t. glob_char c ++ t) (glob_to_like_pattern-translate g)

pub escape_like_pattern-translate :
    (v end : Text) → escape_like_pattern v ++ end ≡ translate escaped_char end v
unfolding translate
escape_like_pattern-translate [] end = unfold escape_like_pattern replace in refl
escape_like_pattern-translate (c ∷ v) end =
    ap (λ s. s ++ end) (escape_like_pattern-cons c v)
    ∙ append_assoc (escaped_char c) (escape_like_pattern v) end
    ∙ ap (λ t. escaped_char c ++ t) (escape_like_pattern-translate v end)

-- The alternatives of a glob's pattern are the patterns of the glob's alternatives.
pub split_by-glob_to_like_pattern :
    (g : Text)
    → split_by is_bar (glob_to_like_pattern g) ≡ map glob_to_like_pattern (split_by is_bar g)
split_by-glob_to_like_pattern g =
    let ps = split_by is_bar g in
    ap (split_by is_bar) (glob_to_like_pattern-translate g)
    ∙ split_by-translate glob_char [] glob_char-KeepsBars refl g
    ∙ translated-nil glob_char ps
    ∙ map-ext (translate glob_char []) glob_to_like_pattern ps
        (λ p. sym (glob_to_like_pattern-translate p))

-- The alternatives of a session's pattern.
pub split_by-session :
    (v : Text)
    → split_by is_bar (escape_like_pattern v ++ codes "%")
      ≡ translated escaped_char (codes "%") (split_by is_bar v)
unfolding is_bar
split_by-session v =
    ap (split_by is_bar) (escape_like_pattern-translate v (codes "%"))
    ∙ split_by-translate escaped_char (codes "%") escaped_char-KeepsBars refl v
