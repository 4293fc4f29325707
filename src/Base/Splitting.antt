-- ===== src/Base/Splitting.antt =====
-- Splitting joined words.
use mathlib.Core.Path.{◌≡◌, refl, sym, ap, ◌∙◌}
use mathlib.Core.Bool.{Bool, true, false}
use mathlib.Core.List.{List, [], ◌∷◌, ◌++◌, append-nil, append_assoc}
use Prim.Native.Nat.{ℕ}
use native.Mathlib.Omega.{arith}
use shellspectre.Base.Strings.{Text}
use shellspectre.Base.Lists.{any, All, is_empty}
use shellspectre.Base.Words.{
  is_whitespace, split_by, split_whitespace, filter_filled, trim_start, trim_end, trim, join,
}

-- A piece without separators, then a separator.
pub split_by-piece :
    (p : ℕ → Bool) (w : Text) (c : ℕ) (s : Text)
    → any p w ≡ false
    → p c ≡ true
    → split_by p (w ++ (c ∷ s)) ≡ w ∷ split_by p s
unfolding split_by
split_by-piece p [] c s h k = ground arith
split_by-piece p (d ∷ w) c s h k = ground (arith, split_by-piece p w c s)

pub split_by_one : (p : ℕ → Bool) (w : Text) → any p w ≡ false → split_by p w ≡ w ∷ []
unfolding split_by
split_by_one p [] h = refl
split_by_one p (d ∷ w) h = ground (arith, split_by_one p w)

-- Joining pieces without the separator and splitting gives the pieces.
pub split_by-join :
    (p : ℕ → Bool) (c : ℕ) (w : Text) (ws : List Text)
    → p c ≡ true
    → All (λ v. any p v ≡ false) (w ∷ ws)
    → split_by p (join (c ∷ []) (w ∷ ws)) ≡ w ∷ ws
unfolding join
split_by-join p c w [] k h = split_by_one p w h.0
split_by-join p c w (v ∷ ws) k h =
    split_by-piece p w c (join (c ∷ []) (v ∷ ws)) h.0 k
    ∙ ap (λ rest. w ∷ rest) (split_by-join p c v ws k h.1)

-- Text with a character, and no white space.
abbrev pub IsWord : Text → Type 0
IsWord w = (is_empty w ≡ false) × (any is_whitespace w ≡ false)

filter_filled-words : (ws : List Text) → All IsWord ws → filter_filled ws ≡ ws
filter_filled-words [] h = refl
filter_filled-words ([] ∷ ws) h = ground arith
filter_filled-words ((c ∷ w) ∷ ws) h = ap (λ rest. (c ∷ w) ∷ rest) (filter_filled-words ws h.1)

words_unspaced : (ws : List Text) → All IsWord ws → All (λ v. any is_whitespace v ≡ false) ws
words_unspaced [] h = tt
words_unspaced (w ∷ ws) h = (h.0.1, words_unspaced ws h.1)

space_is_whitespace : is_whitespace b' ' ≡ true
unfolding is_whitespace
space_is_whitespace = refl

pub split_whitespace-join :
    (w : Text) (ws : List Text)
    → All IsWord (w ∷ ws)
    → split_whitespace (join (b' ' ∷ []) (w ∷ ws)) ≡ w ∷ ws
unfolding split_whitespace
split_whitespace-join w ws h =
    ap filter_filled
      (split_by-join is_whitespace b' ' w ws space_is_whitespace (words_unspaced (w ∷ ws) h))
    ∙ filter_filled-words (w ∷ ws) h

-- no white space in front
trim_start-word : (w s : Text) → IsWord w → trim_start (w ++ s) ≡ w ++ s
unfolding trim_start
trim_start-word [] s h = ground arith
trim_start-word (c ∷ w) s h = ground arith

trim_end-word : (w : Text) → IsWord w → trim_end w ≡ w
unfolding trim_end
trim_end-word [] h = refl
trim_end-word (c ∷ []) h = ground arith
trim_end-word (c ∷ d ∷ w) h = ground (arith, trim_end-word (d ∷ w))

trim_end-append : (s w : Text) → is_empty w ≡ false → trim_end w ≡ w → trim_end (s ++ w) ≡ s ++ w
unfolding trim_end
trim_end-append [] w f h = h
trim_end-append (c ∷ []) [] f h = ground arith
trim_end-append (c ∷ []) (d ∷ w) f h = ground arith
trim_end-append (c ∷ b ∷ s) w f h = ground (arith, trim_end-append (b ∷ s) w)

join-filled :
    (sep w : Text) (ws : List Text) → All IsWord (w ∷ ws) → is_empty (join sep (w ∷ ws)) ≡ false
unfolding join
join-filled sep w [] h = h.0.0
join-filled sep [] (v ∷ ws) h = ground arith
join-filled sep (c ∷ w) (v ∷ ws) h = refl

trim_end-join :
    (sep w : Text) (ws : List Text)
    → All IsWord (w ∷ ws)
    → trim_end (join sep (w ∷ ws)) ≡ join sep (w ∷ ws)
unfolding join
trim_end-join sep w [] h = trim_end-word w h.0
trim_end-join sep w (v ∷ ws) h =
    let rest = join sep (v ∷ ws) in
    ap trim_end (sym (append_assoc w sep rest))
    ∙ trim_end-append (w ++ sep) rest (join-filled sep v ws h.1) (trim_end-join sep v ws h.1)
    ∙ append_assoc w sep rest

trim_start-join :
    (sep w : Text) (ws : List Text)
    → All IsWord (w ∷ ws)
    → trim_start (join sep (w ∷ ws)) ≡ join sep (w ∷ ws)
unfolding join
trim_start-join sep w [] h =
    ap trim_start (sym (append-nil w)) ∙ trim_start-word w [] h.0 ∙ append-nil w
trim_start-join sep w (v ∷ ws) h = trim_start-word w (sep ++ join sep (v ∷ ws)) h.0

-- Joined words are neither empty nor changed by trimming.
pub trim-join :
    (sep w : Text) (ws : List Text)
    → All IsWord (w ∷ ws)
    → (trim (join sep (w ∷ ws)) ≡ join sep (w ∷ ws)) × (is_empty (join sep (w ∷ ws)) ≡ false)
unfolding trim
trim-join sep w ws h =
    (ap trim_end (trim_start-join sep w ws h) ∙ trim_end-join sep w ws h, join-filled sep w ws h)
