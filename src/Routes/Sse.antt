-- ===== src/Routes/Sse.antt =====
-- The lines of an event of the stream: `sse_patch_elements`.
use shellspectre.Base.{
  ℕ, Bool, false, List, [], ◌∷◌, ◌++◌, ◌==◌, ◌≡◌, refl, sym, ap, ◌∙◌, Text, codes, is_empty, map,
  join, split_by, push_first, any, All, arith, if-both, split_by-piece, split_by-join,
}
use mathlib.Core.List.{append_assoc}
use shellspectre.Routes.{
  SseMergeMode, mode_name, strip_cr, line_pieces, text_lines, sse_patch_elements,
}

abbrev pub is_line_break : ℕ → Bool
is_line_break c = c == b'\n'

-- A text with no line break.
abbrev pub IsLine : Text → Type 0
IsLine line = any is_line_break line ≡ false

push_first-IsLine :
    (c : ℕ) (pieces : List Text)
    → is_line_break c ≡ false
    → All IsLine pieces
    → All IsLine (push_first c pieces)
push_first-IsLine c [] n h = (ground (arith, n), tt)
push_first-IsLine c (piece ∷ pieces) n h = (ground (arith, n, h.0), h.1)

split_by-IsLine : (s : Text) → All IsLine (split_by is_line_break s)
unfolding split_by
split_by-IsLine [] = (refl, tt)
split_by-IsLine (c ∷ s) =
    let rest = split_by-IsLine s in
    if-both (All IsLine) (is_line_break c) ([] ∷ split_by is_line_break s)
      (push_first c (split_by is_line_break s)) (λ _. (refl, rest))
      (λ n. push_first-IsLine c _ n rest)

strip_cr-IsLine : (line : Text) → IsLine line → IsLine (strip_cr line)
unfolding strip_cr
strip_cr-IsLine [] h = refl
strip_cr-IsLine (c ∷ []) h = ground (arith, h)
strip_cr-IsLine (c ∷ d ∷ s) h = ground (arith, h, strip_cr-IsLine (d ∷ s))

line_pieces-IsLine : (pieces : List Text) → All IsLine pieces → All IsLine (line_pieces pieces)
unfolding line_pieces
line_pieces-IsLine [] h = tt
line_pieces-IsLine (last ∷ []) h =
    if-both (All IsLine) (is_empty last) [] (last ∷ []) (λ _. tt) (λ _. h)
line_pieces-IsLine (piece ∷ next ∷ rest) h =
    (strip_cr-IsLine piece h.0, line_pieces-IsLine (next ∷ rest) h.1)

-- The lines of a text have no line break.
pub text_lines-IsLine : (s : Text) → All IsLine (text_lines s)
unfolding text_lines
text_lines-IsLine s = line_pieces-IsLine _ (split_by-IsLine s)

abbrev element : Text → Text
element line = codes "elements " ++ line

elements-IsLine : (lines : List Text) → All IsLine lines → All IsLine (map element lines)
elements-IsLine [] h = tt
elements-IsLine (line ∷ lines) h = (h.0, elements-IsLine lines h.1)

-- The last lines of an event: one for each line of the HTML, and an empty one where there are none.
abbrev pub element_lines : List Text → List Text
element_lines [] = [] ∷ []
element_lines (line ∷ lines) = element line ∷ map element lines

split_by-elements :
    (lines : List Text)
    → All IsLine lines
    → split_by is_line_break (join (codes "\n") (map element lines)) ≡ element_lines lines
split_by-elements [] h = unfold join split_by in refl
split_by-elements (line ∷ lines) h =
    split_by-join is_line_break b'\n' (element line) (map element lines) refl
      (elements-IsLine (line ∷ lines) h)

mode_name-IsLine : (mode : SseMergeMode) → IsLine (codes "mode " ++ mode_name mode)
unfolding mode_name
mode_name-IsLine SseMergeMode.append = refl
mode_name-IsLine SseMergeMode.replace = refl
mode_name-IsLine SseMergeMode.outer = refl
mode_name-IsLine SseMergeMode.prepend = refl

-- The data of an event has, line by line, the selector, the mode and the lines of the HTML, if the
-- selector has no line break.
pub split_by-sse_patch_elements :
    (html selector : Text) (mode : SseMergeMode)
    → any is_line_break selector ≡ false
    → split_by is_line_break (sse_patch_elements html selector mode)
      ≡ (codes "selector " ++ selector)
        ∷ (codes "mode " ++ mode_name mode)
        ∷ element_lines (text_lines html)
unfolding sse_patch_elements
split_by-sse_patch_elements html selector mode h =
    let elements = join (codes "\n") (map element (text_lines html)) in
    ap (λ t. split_by is_line_break (codes "selector " ++ (selector ++ (b'\n' ∷ t))))
      (sym (append_assoc (codes "mode ") (mode_name mode) (codes "\n" ++ elements)))
    ∙ split_by-piece is_line_break (codes "selector " ++ selector) b'\n' _ h refl
    ∙ ap (λ rest. (codes "selector " ++ selector) ∷ rest)
        (split_by-piece is_line_break (codes "mode " ++ mode_name mode) b'\n' elements
            (mode_name-IsLine mode) refl
          ∙ ap (λ rest. (codes "mode " ++ mode_name mode) ∷ rest)
              (split_by-elements (text_lines html) (text_lines-IsLine html)))
