-- ===== src/Repository/Steps.antt =====
-- Each step of the builder adds one test.
use shellspectre.Base.{
  ℕ, suc, ◌+◌, ◌≡◌, refl, sym, ap, ◌∙◌, Bool, true, false, not, ◌&&◌, Option, none, some, List, [],
  ◌∷◌, ◌++◌, map, map-append, ℤ, Text, any, all, arith, length, length-append, if◌then◌else◌,
}
use mathlib.Core.List.{append_assoc}
use mathlib.Core.Path.{subst}
use shellspectre.Database.{Row}
use shellspectre.Query.Parse.{FilterValue}
use shellspectre.Repository.Meaning.{
  as_text, as_int, column_value, not3, or3, and3, or_all, and_all, is_true, like3, equal3, is_null,
  bound, condition_truth,
}
use shellspectre.Repository.Matching.{text_test, number_test}
use shellspectre.Repository.{
  Column, Value, text_value, int_value, Condition, equals, differs, null_or_differs, like, not_like,
  null_or_not_like, any_like, none_like, null_or_none_like, Clause, next_index, push_condition,
  add_exact, indices, add_alternatives,
}
use shellspectre.Repository.Truth.{
  is_true-and_all-append, get_elem?-pushed, all-append, is_true-one, is_true-or3-none, or3-some,
  and3-not, ||-false-right, text_test-ext, &&-true-right,
}

module _ (matches : Text → Text → Bool) (row : Row) where
  unfoldable pub holds_under : List Value → List Condition → Bool
  holds_under params conditions =
      is_true (and_all (map (condition_truth matches params row) conditions))

  -- The clause means the tests, also when more parameters follow.
  unfoldable pub Means : Clause → List Bool → Type 0
  unfolding holds_under
  Means clause tests =
      (more : List Value)
      → holds_under (clause.params ++ more) clause.conditions ≡ all (λ b. b) tests

  pub push_condition-Means :
      (condition : Condition) (values : List Value) (clause : Clause) (tests : List Bool)
      (test : Bool)
      → ((more : List Value)
          → is_true (condition_truth matches (clause.params ++ (values ++ more)) row condition)
            ≡ test)
      → Means clause tests
      → Means (push_condition condition values clause) (tests ++ test ∷ [])
  unfolding push_condition holds_under Means
  push_condition-Means condition values clause tests test step means more =
      let ps = clause.params ++ (values ++ more) in
      let truth = condition_truth matches ps row in
      ap (λ qs. holds_under qs (clause.conditions ++ condition ∷ []))
        (append_assoc clause.params values more)
      ∙ ap (λ ts. is_true (and_all ts)) (map-append truth clause.conditions (condition ∷ []))
      ∙ is_true-and_all-append (map truth clause.conditions) (truth condition ∷ [])
      ∙ ap (λ b. b && is_true (and_all (truth condition ∷ []))) (means (values ++ more))
      ∙ ap (λ b. all (λ b. b) tests && b)
          (is_true-one (truth condition) ∙ step more ∙ sym (&&-true-right test))
      ∙ sym (all-append tests (test ∷ []))

  bound_at :
      (held : List Value) (value : Value) (more : List Value)
      → bound matches (held ++ (value ∷ more)) (length held + 1) ≡ some value
  unfolding bound
  bound_at held value more =
      let after : length held + 1 ≡ suc (length held) = omega arith in
      ap (bound matches (held ++ (value ∷ more))) after ∙ get_elem?-pushed held more value

  -- The value at the next index is the first one pushed.
  pub bound_next :
      (clause : Clause) (value : Value) (more : List Value)
      → bound matches (clause.params ++ (value ∷ more)) (next_index clause) ≡ some value
  unfolding next_index
  bound_next clause value more = bound_at clause.params value more

  -- A negated filter on a column that may be NULL says so.
  abbrev pub CanBeNull {ℓ} : {A : Type ℓ} → Bool → Option A → Type 0
  CanBeNull nullable none = nullable ≡ true
  CanBeNull nullable (some a) = Unit

  int_truth :
      (column : Column) (v : ℤ) (neg nullable : Bool) (idx : ℕ) (params : List Value) (o : Option ℤ)
      → column_value column row ≡ as_int o
      → CanBeNull nullable o
      → bound matches params idx ≡ some (int_value v)
      → is_true (
          condition_truth matches params row (
            if neg
            then (if nullable then null_or_differs column idx else differs column idx)
            else equals column idx))
        ≡ number_test v o neg
  unfolding condition_truth is_true number_test as_int equal3 not3 or3 is_null
  int_truth column v false nullable idx params none h n b = rw h
  int_truth column v false nullable idx params (some m) h n b = rw (h, b)
  int_truth column v true true idx params none h n b = rw h
  int_truth column v true true idx params (some m) h n b = rw (h, b)
  int_truth column v true false idx params none h n b = absurd (cc)
  int_truth column v true false idx params (some m) h n b = rw (h, b)

  pub add_exact-Means :
      (column : Column) (fv : FilterValue ℤ) (nullable : Bool) (o : Option ℤ)
      → column_value column row ≡ as_int o
      → CanBeNull nullable o
      → (clause : Clause) (tests : List Bool) → Means clause tests
      → Means
          (add_exact column fv nullable clause)
          (tests ++ number_test fv.value o fv.negated ∷ [])
  unfolding add_exact
  add_exact-Means column fv nullable o h n clause tests means =
      push_condition-Means _ (int_value fv.value ∷ []) clause tests _
        (λ more.
          int_truth column fv.value fv.negated nullable (next_index clause) _ o h n
            (bound_next clause (int_value fv.value) more))
        means

  -- What one pattern says of a column.
  like_truth :
      (column : Column) (p : Text) (neg nullable : Bool) (idx : ℕ) (params : List Value)
      (o : Option Text)
      → column_value column row ≡ as_text o
      → CanBeNull nullable o
      → bound matches params idx ≡ some (text_value p)
      → is_true (
          condition_truth matches params row (
            if neg
            then (if nullable then null_or_not_like column idx else not_like column idx)
            else like column idx))
        ≡ text_test (matches p) o neg
  unfolding condition_truth is_true text_test as_text like3 not3 or3 is_null
  like_truth column p false nullable idx params none h n b = rw h
  like_truth column p false nullable idx params (some m) h n b = rw (h, b)
  like_truth column p true true idx params none h n b = rw h
  like_truth column p true true idx params (some m) h n b = rw (h, b)
  like_truth column p true false idx params none h n b = absurd (cc)
  like_truth column p true false idx params (some m) h n b = rw (h, b)

  -- The patterns are bound to the placeholders from the given index on.
  abbrev AreBound : List Value → ℕ → List Text → Type 0
  AreBound params idx [] = Unit
  AreBound params idx (p ∷ ps) =
      (bound matches params idx ≡ some (text_value p)) × AreBound params (idx + 1) ps

  pushed-AreBound :
      (held : List Value) (ps : List Text) (more : List Value)
      → AreBound (held ++ (map text_value ps ++ more)) (length held + 1) ps
  pushed-AreBound held [] more = tt
  pushed-AreBound held (p ∷ ps) more =
      let v = text_value p in
      let rest = map text_value ps ++ more in
      let one : bound matches (held ++ (v ∷ rest)) (length held + 1) ≡ some v =
        bound_at held v rest in
      let n : length (held ++ v ∷ []) + 1 ≡ length held + 1 + 1 =
        omega (arith, length-append held (v ∷ [])) in
      let others = pushed-AreBound (held ++ v ∷ []) ps more in
      let moved =
        subst (λ qs. AreBound qs (length (held ++ v ∷ []) + 1) ps) (append_assoc held (v ∷ []) rest)
          others in
      (one, subst (λ i. AreBound (held ++ (v ∷ rest)) i ps) n moved)

  like_none :
      (params : List Value) (idx : ℕ) (ps : List Text)
      → is_true (or_all (map (λ i. like3 matches none (bound matches params i)) (indices idx ps)))
        ≡ false
  unfolding is_true or_all or3 like3 indices
  like_none params idx [] = refl
  like_none params idx (p ∷ ps) = is_true-or3-none _ ∙ like_none params (idx + 1) ps

  like_some :
      (params : List Value) (idx : ℕ) (ps : List Text) (s : Text)
      → AreBound params idx ps
      → or_all
          (map (λ i. like3 matches (some (text_value s)) (bound matches params i)) (indices idx ps))
        ≡ some (any (λ p. matches p s) ps)
  unfolding or_all or3 like3 indices
  like_some params idx [] s h = refl
  like_some params idx (p ∷ ps) s h =
      rw (h.0, like_some params (idx + 1) ps s h.1) (or3-some (matches p s) _)

  unlike_some :
      (params : List Value) (idx : ℕ) (ps : List Text) (s : Text)
      → AreBound params idx ps
      → and_all (
          map
            (λ i. not3 (like3 matches (some (text_value s)) (bound matches params i)))
            (indices idx ps))
        ≡ some (not (any (λ p. matches p s) ps))
  unfolding and_all and3 like3 indices not3
  unlike_some params idx [] s h = refl
  unlike_some params idx (p ∷ ps) s h =
      rw (h.0, unlike_some params (idx + 1) ps s h.1) (and3-not (matches p s) _)

  -- What several patterns say of a column.
  many_truth :
      (column : Column) (ps : List Text) (neg nullable : Bool) (idx : ℕ) (params : List Value)
      (o : Option Text)
      → column_value column row ≡ as_text o
      → CanBeNull nullable o
      → AreBound params idx ps
      → is_true (
          condition_truth matches params row (
            if neg
            then (if nullable
                then null_or_none_like column (indices idx ps)
                else none_like column (indices idx ps))
            else any_like column (indices idx ps)))
        ≡ text_test (λ s. any (λ p. matches p s) ps) o neg
  unfolding condition_truth text_test as_text or3 is_null
  many_truth column ps false nullable idx params none h n b = rw h (like_none params idx ps)
  many_truth column ps false nullable idx params (some s) h n b =
      rw h (ap is_true (like_some params idx ps s b) ∙ unfold is_true in refl)
  many_truth column ps true true idx params none h n b = rw h (unfold is_true in refl)
  many_truth column ps true true idx params (some s) h n b =
      rw h (ap is_true (unlike_some params idx ps s b) ∙ unfold is_true in refl)
  many_truth column ps true false idx params none h n b = absurd (cc)
  many_truth column ps true false idx params (some s) h n b =
      rw h (ap is_true (unlike_some params idx ps s b) ∙ unfold is_true in refl)

  pub add_alternatives-Means :
      (column : Column) (p : Text) (ps : List Text) (neg nullable : Bool) (o : Option Text)
      → column_value column row ≡ as_text o
      → CanBeNull nullable o
      → (clause : Clause) (tests : List Bool) → Means clause tests
      → Means
          (add_alternatives column (p ∷ ps) neg nullable clause)
          (tests ++ text_test (λ s. any (λ q. matches q s) (p ∷ ps)) o neg ∷ [])
  unfolding add_alternatives
  add_alternatives-Means column p [] neg nullable o h n clause tests means =
      push_condition-Means _ (text_value p ∷ []) clause tests _
        (λ more.
          like_truth column p neg nullable (next_index clause) _ o h n
            (bound_next clause (text_value p) more)
          ∙ text_test-ext o neg (λ s. sym (||-false-right (matches p s))))
        means
  add_alternatives-Means column p (q ∷ ps) neg nullable o h n clause tests means =
      push_condition-Means _ (map text_value (p ∷ q ∷ ps)) clause tests _
        (λ more.
          many_truth column (p ∷ q ∷ ps) neg nullable (next_index clause) _ o h n
            (unfold next_index in pushed-AreBound clause.params (p ∷ q ∷ ps) more))
        means
