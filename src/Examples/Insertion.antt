-- ===== src/Examples/Insertion.antt =====
-- A concrete `ORDER BY`.
use shellspectre.Base.{
  ◌≡◌, Bool, true, ◌||◌, List, [], ◌∷◌, arith, if◌then◌else◌, Bool-cases, inl, inr, All, if-both,
}
use mathlib.Core.List.{Perm}
use mathlib.Core.List.Perm
use shellspectre.Database.{Row}
use shellspectre.Sorting.{AreLinked, IsOrderBy}

place : (Row → Row → Bool) → Row → List Row → List Row
place before row [] = row ∷ []
place before row (next ∷ rows) =
    let rest = place before row rows in if before row next then row ∷ next ∷ rows else next ∷ rest

pub insertion_sort : (Row → Row → Bool) → List Row → List Row
unfolding place
insertion_sort before [] = []
insertion_sort before (row ∷ rows) = place before row (insertion_sort before rows)

place-All :
    (before : Row → Row → Bool) (P : Row → Type 0) (row : Row) (rows : List Row)
    → P row
    → All P rows
    → All P (place before row rows)
unfolding place
place-All before P row [] p h = (p, tt)
place-All before P row (next ∷ rows) p h =
    if-both (All P) (before row next) (row ∷ next ∷ rows) _ (λ _. (p, h))
      (λ _. (h.0, place-All before P row rows p h.1))

place-Perm :
    (before : Row → Row → Bool) (row : Row) (rows : List Row)
    → Perm (place before row rows) (row ∷ rows)
unfolding place
place-Perm before row [] = Perm.refl (row ∷ [])
place-Perm before row (next ∷ rows) =
    if-both (λ placed. Perm placed (row ∷ next ∷ rows)) (before row next) (row ∷ next ∷ rows) _
      (λ _. Perm.refl (row ∷ next ∷ rows))
      (λ _. Perm.trans (Perm.cons next (place-Perm before row rows)) (Perm.swap row next rows))

place-AreLinked :
    (before : Row → Row → Bool) (row : Row) (rows : List Row)
    → ((a b : Row) → (before a b || before b a) ≡ true)
    → AreLinked before rows
    → AreLinked before (place before row rows)
unfolding place
place-AreLinked before row [] total h = tt
place-AreLinked before row (next ∷ []) total h = elim (Bool-cases (before row next)) [
  | inl e ↦ rw e (e, tt)
  | inr e ↦ rw e (ground (arith, e, total row next), tt)
]
place-AreLinked before row (next ∷ third ∷ rows) total h =
    let rest = place-AreLinked before row (third ∷ rows) total h.1 in
    elim (Bool-cases (before row next)) [
      | inl e ↦ rw e (e, h)
      | inr e ↦ elim (Bool-cases (before row third)) [
        | inl k ↦ rw (e, k) (ground (arith, e, total row next), (k, h.1))
        | inr k ↦ rw (e, k) (h.0, (rw k at rest))
      ]
    ]

sorted-All :
    (before : Row → Row → Bool) (P : Row → Type 0) (rows : List Row)
    → All P rows
    → All P (insertion_sort before rows)
unfolding insertion_sort
sorted-All before P [] h = tt
sorted-All before P (row ∷ rows) h = place-All before P row _ h.0 (sorted-All before P rows h.1)

sorted-Perm : (before : Row → Row → Bool) (rows : List Row) → Perm (insertion_sort before rows) rows
unfolding insertion_sort
sorted-Perm before [] = Perm.refl []
sorted-Perm before (row ∷ rows) =
    Perm.trans (place-Perm before row (insertion_sort before rows))
      (Perm.cons row (sorted-Perm before rows))

sorted-AreLinked :
    (before : Row → Row → Bool)
    → ((a b : Row) → (before a b || before b a) ≡ true)
    → (rows : List Row) → AreLinked before (insertion_sort before rows)
unfolding insertion_sort
sorted-AreLinked before total [] = tt
sorted-AreLinked before total (row ∷ rows) =
    place-AreLinked before row _ total (sorted-AreLinked before total rows)

pub insertion_sort-IsOrderBy : IsOrderBy insertion_sort
insertion_sort-IsOrderBy = record {
  adds_no_row = sorted-All;
  permutes = sorted-Perm;
  in_order = sorted-AreLinked;
}
