-- ===== src/Reads/Cursor.antt =====
-- Cursors on increasing identifiers.
use shellspectre.Base.{
  ℕ, zero, suc, ◌≤◌, ◌<◌, ◌≡◌, refl, sym, ap, ◌∙◌, true, List, [], ◌∷◌, ◌++◌, arith, ltb,
  if◌then◌else◌, take, drop, Bool-cases, inl, inr, ltb→lt,
}
use mathlib.Core.Path.{subst}

abbrev pub AreIncreasing : ℕ → List ℕ → Type 0
AreIncreasing low [] = Unit
AreIncreasing low (id ∷ ids) = (low < id) × AreIncreasing id ids

-- the identifiers behind the cursor
unfoldable pub after : ℕ → List ℕ → List ℕ
after cursor [] = []
after cursor (id ∷ ids) = let rest = after cursor ids in if ltb cursor id then id ∷ rest else rest

-- the last identifier, or the one that is held
unfoldable pub last_of : ℕ → List ℕ → ℕ
last_of held [] = held
last_of held (id ∷ ids) = last_of id ids

after_below :
    (cursor low : ℕ) (ids : List ℕ) → cursor ≤ low → AreIncreasing low ids → after cursor ids ≡ ids
unfolding after
after_below cursor low [] h o = refl
after_below cursor low (id ∷ ids) h o =
    ground (arith, o.0, h, after_below cursor id ids (omega (arith, o.0, h)) o.1)

last_of_above :
    (held : ℕ) (n : ℕ) (ids : List ℕ) → AreIncreasing held ids → held ≤ last_of held (take n ids)
unfolding last_of
last_of_above held zero ids o = omega arith
last_of_above held (suc n) [] o = omega arith
last_of_above held (suc n) (id ∷ ids) o = omega (arith, o.0, last_of_above id n ids o.1)

after_skip :
    (cursor id : ℕ) (ids : List ℕ) → id ≤ cursor → after cursor (id ∷ ids) ≡ after cursor ids
unfolding after
after_skip cursor id ids h = ground (arith, h)

-- Behind the last of the first `n` are all but the first `n`.
after_taken :
    (low n : ℕ) (ids : List ℕ)
    → AreIncreasing low ids
    → after (last_of low (take n ids)) ids ≡ drop n ids
unfolding last_of
after_taken low zero ids o = after_below low low ids (omega arith) o
after_taken low (suc n) [] o = unfold after in refl
after_taken low (suc n) (id ∷ ids) o =
    after_skip (last_of id (take n ids)) id ids (last_of_above id n ids o.1)
    ∙ after_taken id n ids o.1

-- From the first identifier behind the cursor on, all are.
after_reached :
    (cursor low id : ℕ) (ids : List ℕ)
    → AreIncreasing low (id ∷ ids)
    → ltb cursor id ≡ true
    → after cursor (id ∷ ids) ≡ id ∷ ids
after_reached cursor low id ids o h =
    after_below cursor cursor (id ∷ ids) (omega arith) (ltb→lt cursor id h, o.1)

after-AreIncreasing :
    (cursor low : ℕ) (ids : List ℕ)
    → AreIncreasing low ids
    → AreIncreasing cursor (after cursor ids)
after-AreIncreasing cursor low [] o = unfold after in tt
after-AreIncreasing cursor low (id ∷ ids) o =
    let later = after-AreIncreasing cursor id ids o.1 in
    elim (Bool-cases (ltb cursor id)) [
      | inl h ↦
          subst (AreIncreasing cursor) (sym (after_reached cursor low id ids o h))
            (ltb→lt cursor id h, o.1)
      | inr h ↦
          subst (AreIncreasing cursor) (sym (after_skip cursor id ids (ground (arith, h)))) later
    ]

-- The last of the first `n` identifiers behind the cursor has all but the first `n` of them behind it.
pub after-last_of :
    (cursor low n : ℕ) (ids : List ℕ)
    → AreIncreasing low ids
    → after (last_of cursor (take n (after cursor ids))) ids ≡ drop n (after cursor ids)
after-last_of cursor low zero [] o = unfold after in refl
after-last_of cursor low (suc n) [] o = unfold after in refl
after-last_of cursor low n (id ∷ ids) o =
    let later = after-last_of cursor id n ids o.1 in
    elim (Bool-cases (ltb cursor id)) [
      | inl h ↦
          let e = after_reached cursor low id ids o h in
          ap (λ p. after (last_of cursor (take n p)) (id ∷ ids)) e
          ∙ after_taken cursor n (id ∷ ids) (ltb→lt cursor id h, o.1)
          ∙ ap (drop n) (sym e)
      | inr h ↦
          let low_id : id ≤ cursor = ground (arith, h) in
          let e = after_skip cursor id ids low_id in
          let pending = after cursor ids in
          let reached = last_of_above cursor n pending (after-AreIncreasing cursor id ids o.1) in
          ap (λ p. after (last_of cursor (take n p)) (id ∷ ids)) e
          ∙ after_skip (last_of cursor (take n pending)) id ids (omega (arith, low_id, reached))
          ∙ later
          ∙ ap (drop n) (sym e)
    ]

pub after-append :
    (cursor : ℕ) (ids more : List ℕ)
    → after cursor (ids ++ more) ≡ after cursor ids ++ after cursor more
unfolding after
after-append cursor [] more = refl
after-append cursor (id ∷ ids) more = ground (arith, after-append cursor ids more)
