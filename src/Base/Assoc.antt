-- ===== src/Base/Assoc.antt =====
-- Hash maps with number keys as association lists. No code here depends on the order of entries.
use Prim.Native.Nat.{ℕ}
use mathlib.Core.Path.{◌≡◌, refl}
use mathlib.Core.Option.{Option, none, some}
use mathlib.Core.List.{List, [], ◌∷◌}
use native.Mathlib.Omega.{arith}
use shellspectre.Base.Tests.{◌==◌, if◌then◌else◌, Bool-cases}
use shellspectre.Base.Lists.{any}
use mathlib.Core.Bool.{Bool, true}
use mathlib.Core.Logic.{inl, inr}

abbrev pub Map {ℓ} : Type ℓ → Type ℓ
Map V = List (ℕ × V)

module _ {ℓ} {V : Type ℓ} where
  -- `map.get(&k)`
  unfoldable pub lookup : ℕ → Map V → Option V
  lookup key [] = none
  lookup key ((held, value) ∷ rest) = if held == key then some value else lookup key rest

  -- `map.insert(k, v)`
  unfoldable pub insert : ℕ → V → Map V → Map V
  insert key new [] = (key, new) ∷ []
  insert key new ((held, old) ∷ rest) =
      let deeper = insert key new rest in
      if held == key then (held, new) ∷ rest else (held, old) ∷ deeper

  -- `map.remove(&k)`
  unfoldable pub remove : ℕ → Map V → Map V
  remove k [] = []
  remove k ((j, w) ∷ m) = let rest = remove k m in if j == k then rest else (j, w) ∷ rest

  -- `map.values()`
  unfoldable pub values : Map V → List V
  values [] = []
  values ((j, w) ∷ m) = w ∷ values m

  pub lookup-insert :
      (key other : ℕ) (new : V) (table : Map V)
      → lookup other (insert key new table)
        ≡ (if key == other then some new else lookup other table)
  unfolding lookup insert
  lookup-insert key other new [] = ground arith
  lookup-insert key other new (entry ∷ rest) =
      ground (arith, entry, lookup-insert key other new rest)

  pub lookup-remove :
      (k j : ℕ) (m : Map V) → lookup j (remove k m) ≡ (if k == j then none else lookup j m)
  unfolding lookup remove
  lookup-remove k j [] = ground arith
  lookup-remove k j ((i, w) ∷ m) = ground (arith, lookup-remove k j m)

pub ruleset map_laws = (lookup-insert, lookup-remove)

-- No key stands twice.
abbrev pub IsUnique {ℓ} : {V : Type ℓ} → Map V → Type ℓ
IsUnique [] = Unit
IsUnique ((k, v) ∷ m) = (lookup k m ≡ none) × IsUnique m

module _ {ℓ} {V : Type ℓ} where
  pub insert-IsUnique : (k : ℕ) (v : V) (m : Map V) → IsUnique m → IsUnique (insert k v m)
  unfolding lookup insert
  insert-IsUnique k v [] u = (refl, tt)
  insert-IsUnique k v ((j, w) ∷ m) u =
      ground (arith, lookup-insert k j v m, insert-IsUnique k v m u.1)

  pub remove-IsUnique : (k : ℕ) (m : Map V) → IsUnique m → IsUnique (remove k m)
  unfolding lookup remove
  remove-IsUnique k [] u = tt
  remove-IsUnique k ((j, w) ∷ m) u = ground (arith, lookup-remove k j m, remove-IsUnique k m u.1)

  -- With no key twice, a test on all values is a test on all keys.
  pub lookup-any-values :
      (p : V → Bool) (m : Map V) (k : ℕ) (v : V)
      → lookup k m ≡ some v
      → p v ≡ true
      → any p (values m) ≡ true
  unfolding lookup values
  lookup-any-values p [] k v h t = ground arith
  lookup-any-values p ((j, w) ∷ m) k v h t = ground (arith, lookup-any-values p m k v)

  pub any-values-lookup :
      (p : V → Bool) (m : Map V)
      → IsUnique m
      → any p (values m) ≡ true
      → (k : ℕ) × (v : V) × (lookup k m ≡ some v) × (p v ≡ true)
  unfolding lookup values
  any-values-lookup p [] u h = ground arith
  any-values-lookup p ((j, w) ∷ m) u h = elim (Bool-cases (p w)) [
    | inl t ↦ (j, w, ground arith, t)
    | inr f ↦ later u (any-values-lookup p m u.1 (ground arith))
  ]
    where
      later :
          IsUnique {V = V} ((j, w) ∷ m)
          → (k : ℕ) × (v : V) × (lookup k m ≡ some v) × (p v ≡ true)
          → (k : ℕ) × (v : V) × (lookup k ((j, w) ∷ m) ≡ some v) × (p v ≡ true)
      later u' (k, v, l, t) = (k, v, ground arith, t)
