-- ===== src/Query/Distance.antt =====
-- What the distance of two words is.
use shellspectre.Base.{
  ℕ, suc, ◌+◌, min, ◌≡◌, refl, sym, ap, ◌∙◌, ◌↔◌, List, [], ◌∷◌, ◌++◌, arith, ◌==◌, if◌then◌else◌,
  length, get_or, Text,
}
use shellspectre.Query.{next_cells, rows, count_from, levenshtein}

-- The edit distance by its recursion: drop a character of the first word, add one of the second, or
-- replace one by the other unless they are equal.
unfoldable pub distance : Text → Text → ℕ
distance [] t = length t
distance (c ∷ s) [] = suc (length s)
distance (c ∷ s) (b ∷ t) =
    min (min (distance s (b ∷ t) + 1) (distance (c ∷ s) t + 1))
      (distance s t + (if c == b then 0 else 1))

-- `t` read backwards in front of `s`
unfoldable pub reverse_onto : Text → Text → Text
reverse_onto [] s = s
reverse_onto (c ∷ t) s = reverse_onto t (c ∷ s)

-- the distances of `s` to `t` and to what the characters of `b` in front of it make, one by one
row_of : Text → Text → Text → List ℕ
unfolding distance
row_of s t [] = distance s t ∷ []
row_of s t (c ∷ b) = distance s t ∷ row_of s (c ∷ t) b

next_cells-row_of :
    (c : ℕ) (s t b : Text)
    → distance (c ∷ s) t ∷ next_cells c (distance (c ∷ s) t) (row_of s t b) b ≡ row_of (c ∷ s) t b
unfolding next_cells row_of
next_cells-row_of c s t [] = refl
next_cells-row_of c s t (x ∷ []) = refl
next_cells-row_of c s t (x ∷ y ∷ b) =
    ap (λ l. distance (c ∷ s) t ∷ l) (next_cells-row_of c s (x ∷ t) (y ∷ b))

rows-row_of :
    (i : ℕ) (a s b : Text)
    → i ≡ suc (length s)
    → rows i a b (row_of s [] b) ≡ row_of (reverse_onto a s) [] b
unfolding rows reverse_onto row_of distance
rows-row_of i [] s b e = refl
rows-row_of i (c ∷ a) s b e =
    ap (λ k. rows (i + 1) a b (k ∷ next_cells c k (row_of s [] b) b)) e
    ∙ ap (rows (i + 1) a b) (next_cells-row_of c s [] b)
    ∙ rows-row_of (i + 1) a (c ∷ s) b (omega (arith, e))

count_from-row_of : (n : ℕ) (t b : Text) → n ≡ length t → count_from n b ≡ row_of [] t b
unfolding count_from row_of distance
count_from-row_of n t [] e = ap (λ k. k ∷ []) e
count_from-row_of n t (c ∷ b) e =
    λ i. e i ∷ count_from-row_of (n + 1) (c ∷ t) b (omega (arith, e)) i

last-row_of : (s t b : Text) → get_or (row_of s t b) (length b) 0 ≡ distance s (reverse_onto b t)
unfolding row_of reverse_onto
last-row_of s t [] = refl
last-row_of s t (c ∷ b) = last-row_of s (c ∷ t) b

-- The two rows that `levenshtein` keeps compute the edit distance of the words, read backwards, as its
-- recursion gives it.
pub levenshtein_lem :
    (a b : Text) → levenshtein a b ≡ distance (reverse_onto a []) (reverse_onto b [])
unfolding levenshtein
levenshtein_lem a b =
    ap (λ l. get_or (rows 1 a b l) (length b) 0) (count_from-row_of 0 [] b refl)
    ∙ ap (λ l. get_or l (length b) 0) (rows-row_of 1 a [] b refl)
    ∙ last-row_of (reverse_onto a []) [] b

distance-eq-zero : (s t : Text) → distance s t ≡ 0 → s ≡ t
unfolding distance
distance-eq-zero [] [] h = refl
distance-eq-zero [] (b ∷ t) h = absurd (omega (arith, h))
distance-eq-zero (c ∷ s) [] h = absurd (omega (arith, h))
distance-eq-zero (c ∷ s) (b ∷ t) h = ground (arith, distance-eq-zero s t)

distance_self : (s : Text) → distance s s ≡ 0
unfolding distance
distance_self [] = refl
distance_self (c ∷ s) = ground (arith, distance_self s)

append_nil : (a : Text) → a ++ [] ≡ a
append_nil [] = refl
append_nil (c ∷ a) = ap (λ l. c ∷ l) (append_nil a)

reverse_onto-reverse_onto :
    (a s t : Text) → reverse_onto (reverse_onto a s) t ≡ reverse_onto s (a ++ t)
unfolding reverse_onto
reverse_onto-reverse_onto [] s t = refl
reverse_onto-reverse_onto (c ∷ a) s t = reverse_onto-reverse_onto a (c ∷ s) t

-- two reversals
twice : (a : Text) → reverse_onto (reverse_onto a []) [] ≡ a
unfolding reverse_onto
twice a = reverse_onto-reverse_onto a [] [] ∙ append_nil a

-- The distance that `levenshtein` computes is 0 exactly between equal words.
pub levenshtein-eq-zero_iff : (a b : Text) → (levenshtein a b ≡ 0) ↔ (a ≡ b)
levenshtein-eq-zero_iff a b = (
  λ h.
      let same =
        distance-eq-zero (reverse_onto a []) (reverse_onto b []) (sym (levenshtein_lem a b) ∙ h) in
      sym (twice a) ∙ ap (λ l. reverse_onto l []) same ∙ twice b,
  λ e.
      levenshtein_lem a b
      ∙ ap (λ (w : Text). distance (reverse_onto a []) (reverse_onto w [])) (sym e)
      ∙ distance_self (reverse_onto a []),
)
