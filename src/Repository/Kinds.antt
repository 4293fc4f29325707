-- ===== src/Repository/Kinds.antt =====
-- What each kind of pattern matches, under the laws of LIKE.
use shellspectre.Base.{
  ℕ, ◌≡◌, refl, sym, ap, ◌∙◌, Bool, true, false, ◌||◌, List, [], ◌∷◌, ◌++◌, map, Text, codes, any,
  any-ext, any-map, All, arith, is_empty, split_by, join, push_first, split_by-join, any-append,
  if-both,
}
use mathlib.Core.Path.{subst}
use shellspectre.Repository.Alternatives.{
  translate, translated, split_by-glob_to_like_pattern, split_by-session, split_pieces,
  glob_to_like_pattern-translate, escape_like_pattern-translate, glob_char-KeepsBars,
}
use shellspectre.Repository.Matching.{
  glob_test, command_test, piece_test, session_test, substring_test,
}
use shellspectre.Repository.Patterns.{
  IsLike, suffixes, glob_matches, text_then, glob_char, escaped_char, one_then-ext,
  like-escape_like_pattern, like-glob_to_like_pattern,
}
use shellspectre.Repository.Truth.{||-false-right}
use shellspectre.Repository.{is_bar, escape_like_pattern, glob_to_like_pattern, basename_pattern}

-- No piece of a split holds a separator.
abbrev Unbarred : List Text → Type 0
Unbarred = All (λ w. any is_bar w ≡ false)

push_first-Unbarred :
    (c : ℕ) (ws : List Text) → is_bar c ≡ false → Unbarred ws → Unbarred (push_first c ws)
push_first-Unbarred c [] h k = (ground arith, tt)
push_first-Unbarred c (w ∷ ws) h k = (ground arith, k.1)

split_by-Unbarred : (s : Text) → Unbarred (split_by is_bar s)
unfolding split_by
split_by-Unbarred [] = (refl, tt)
split_by-Unbarred (c ∷ s) =
    if-both Unbarred (is_bar c) ([] ∷ split_by is_bar s) (push_first c (split_by is_bar s))
      (λ bar. (refl, split_by-Unbarred s))
      (λ other. push_first-Unbarred c (split_by is_bar s) other (split_by-Unbarred s))

||-eq-false : (a b : Bool) → (a || b) ≡ false → (a ≡ false) × (b ≡ false)
||-eq-false a b h = ground arith

translate-unbarred :
    (w : Text) → any is_bar w ≡ false → any is_bar (translate glob_char [] w) ≡ false
unfolding translate
translate-unbarred [] h = refl
translate-unbarred (c ∷ w) h =
    let (here, later) = ||-eq-false (is_bar c) (any is_bar w) h in
    any-append is_bar (glob_char c) (translate glob_char [] w)
    ∙ ap (λ b. b || any is_bar (translate glob_char [] w)) ((glob_char-KeepsBars c).1 here)
    ∙ translate-unbarred w later

basename_pattern-Unbarred : (ws : List Text) → Unbarred ws → Unbarred (map basename_pattern ws)
unfolding basename_pattern is_bar
basename_pattern-Unbarred [] h = tt
basename_pattern-Unbarred (w ∷ ws) h = (
  ap (any is_bar) (glob_to_like_pattern-translate w) ∙ translate-unbarred w h.0,
  basename_pattern-Unbarred ws h.1,
)

is_bar-bar : is_bar b'|' ≡ true
unfolding is_bar
is_bar-bar = refl

pub split_by-command :
    (g : Text)
    → split_by is_bar (join (codes "|") (map basename_pattern (split_by is_bar g)))
      ≡ map basename_pattern (split_by is_bar g)
split_by-command g =
    let (w, ws, e) = split_pieces is_bar g in
    let all = basename_pattern-Unbarred (split_by is_bar g) (split_by-Unbarred g) in
    let named = ap (map basename_pattern) e in
    ap (λ ws. split_by is_bar (join (codes "|") ws)) named
    ∙ split_by-join is_bar b'|' (basename_pattern w) (map basename_pattern ws) is_bar-bar
        (subst Unbarred named all)
    ∙ sym named

module _ (same : ℕ → ℕ → Bool) (like : Text → Text → Bool) (laws : IsLike same like) where
  text_then-ext :
      (v : Text) (f g : Text → Bool) (s : Text)
      → ((t : Text) → f t ≡ g t)
      → text_then same v f s ≡ text_then same v g s
  text_then-ext [] f g s h = h s
  text_then-ext (c ∷ v) f g s h =
      one_then-ext same like laws (same c) (text_then same v f) (text_then same v g) s
        (λ t. text_then-ext v f g t h)

  like_anything : (s : Text) → like (codes "%") s ≡ true
  like_anything s = laws.percent [] s ∙ some_end s
    where
      some_end : (s : Text) → any (like []) (suffixes s) ≡ true
      some_end [] = ground (arith, laws.at_end [])
      some_end (c ∷ s) = ground (arith, some_end s)

  pub any_like-glob :
      (g s : Text)
      → any (λ p. like p s) (split_by is_bar (glob_to_like_pattern g)) ≡ glob_test same g s
  unfolding glob_test
  any_like-glob g s =
      ap (any (λ p. like p s)) (split_by-glob_to_like_pattern g)
      ∙ any-map (λ p. like p s) glob_to_like_pattern (split_by is_bar g)
      ∙ any-ext _ _ (split_by is_bar g) (λ w. like-glob_to_like_pattern same like laws w s)

  slash_then :
      (g : Text) (t : Text)
      → like (b'/' ∷ glob_to_like_pattern g) t ≡ text_then same (codes "/") (glob_matches same g) t
  slash_then g t =
      laws.ordinary b'/' (glob_to_like_pattern g) t refl
      ∙ one_then-ext same like laws (same b'/') (like (glob_to_like_pattern g))
          (glob_matches same g) t (like-glob_to_like_pattern same like laws g)

  pub any_like-command :
      (g s : Text)
      → any
          (λ p. like p s)
          (split_by is_bar (join (codes "|") (map basename_pattern (split_by is_bar g))))
        ≡ command_test same g s
  unfolding command_test basename_pattern
  any_like-command g s =
      ap (any (λ p. like p s)) (split_by-command g)
      ∙ any-map (λ p. like p s) basename_pattern (split_by is_bar g)
      ∙ any-ext _ _ (split_by is_bar g) (λ w.
        laws.percent (b'/' ∷ glob_to_like_pattern w) s ∙ any-ext _ _ (suffixes s) (slash_then w))

  any_like-pieces :
      (ps : List Text) (s : Text)
      → any (λ p. like p s) (translated escaped_char (codes "%") ps) ≡ piece_test same ps s
  unfolding translated piece_test
  any_like-pieces [] s = refl
  any_like-pieces (p ∷ []) s =
      ||-false-right (like (translate escaped_char (codes "%") p) s)
      ∙ ap (λ q. like q s) (sym (escape_like_pattern-translate p (codes "%")))
      ∙ like-escape_like_pattern same like laws p (codes "%") s
      ∙ text_then-ext p (like (codes "%")) (λ t. true) s like_anything
  any_like-pieces (p ∷ q ∷ ps) s =
      ap (λ b. b || any (λ p. like p s) (translated escaped_char (codes "%") (q ∷ ps)))
        (ap (λ r. like r s) (sym (escape_like_pattern-translate p []))
          ∙ like-escape_like_pattern same like laws p [] s
          ∙ text_then-ext p (like []) is_empty s laws.at_end)
      ∙ ap (λ b. text_then same p is_empty s || b) (any_like-pieces (q ∷ ps) s)

  pub any_like-session :
      (v s : Text)
      → any (λ p. like p s) (split_by is_bar (escape_like_pattern v ++ codes "%"))
        ≡ session_test same v s
  unfolding session_test
  any_like-session v s =
      ap (any (λ p. like p s)) (split_by-session v) ∙ any_like-pieces (split_by is_bar v) s

  pub like-substring :
      (v s : Text)
      → like (codes "%" ++ (escape_like_pattern v ++ codes "%")) s ≡ substring_test same v s
  unfolding substring_test
  like-substring v s =
      laws.percent (escape_like_pattern v ++ codes "%") s
      ∙ any-ext _ _ (suffixes s) (λ t.
        like-escape_like_pattern same like laws v (codes "%") t
        ∙ text_then-ext v (like (codes "%")) (λ t. true) t like_anything)
