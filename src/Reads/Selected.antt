-- ===== src/Reads/Selected.antt =====
-- The rows that `list_since` returns.
use shellspectre.Base.{
  ℕ, zero, suc, ◌≡◌, refl, sym, ap, ◌∙◌, Bool, true, ◌&&◌, some, List, [], ◌∷◌, map, Text, Map, All,
  take, ltb, Bool-cases, inl, inr, ==_iff, &&-true, if-both,
}
use shellspectre.Database.{Row}
use shellspectre.Reads.Cursor.{after}
use shellspectre.Query.Parse.{EventFilter}
use shellspectre.Reads.{EventSummary, keep_rows, row_to_summary, summary_of, summaries, list_since}
use shellspectre.Repository.Matching.{row_matches}
use shellspectre.Repository.Meaning.{selects}
use shellspectre.Repository.Patterns.{IsLike}
use shellspectre.Repository.Where.{selects-build_where_clause}
use shellspectre.Repository.{build_where_clause}
use shellspectre.Wire.{exec, as_wire, from_wire}

abbrev pub summary_ids : List EventSummary → List ℕ
summary_ids = map (λ (e : EventSummary). e.id)

abbrev pub row_ids : List Row → List ℕ
row_ids = map (λ (r : Row). r.id)

keep_rows-after :
    (test : Row → Bool) (cursor : ℕ) (rows : List Row)
    → row_ids (keep_rows (λ row. test row && ltb cursor row.id) rows)
      ≡ after cursor (row_ids (keep_rows test rows))
unfolding after
keep_rows-after test cursor [] = refl
keep_rows-after test cursor (row ∷ rows) =
    let rest = keep_rows-after test cursor rows in
    elim (Bool-cases (test row)) [
      | inl h ↦ elim (Bool-cases (ltb cursor row.id)) [
        | inl k ↦ rw (h, k) (ap (λ ids. row.id ∷ ids) rest)
        | inr k ↦ rw (h, k) rest
      ]
      | inr h ↦ rw h rest
    ]

pub take-row_ids : (n : ℕ) (rows : List Row) → row_ids (take n rows) ≡ take n (row_ids rows)
take-row_ids zero rows = refl
take-row_ids (suc n) [] = refl
take-row_ids (suc n) (row ∷ rows) = ap (λ ids. row.id ∷ ids) (take-row_ids n rows)

abbrev pub IsExec : Row → Type 0
IsExec row = row.event_type ≡ as_wire exec

pub keep_rows-All :
    (P : Row → Type 0) (test : Row → Bool) (rows : List Row)
    → ((row : Row) → test row ≡ true → P row)
    → All P (keep_rows test rows)
keep_rows-All P test [] h = tt
keep_rows-All P test (row ∷ rows) h =
    if-both (All P) (test row) (row ∷ keep_rows test rows) (keep_rows test rows)
      (λ t. (h row t, keep_rows-All P test rows h)) (λ _. keep_rows-All P test rows h)

pub take-All : (P : Row → Type 0) (n : ℕ) (rows : List Row) → All P rows → All P (take n rows)
take-All P zero rows h = tt
take-All P (suc n) [] h = tt
take-All P (suc n) (row ∷ rows) h = (h.0, take-All P n rows h.1)

-- Exec rows have summaries.
pub summaries-IsExec :
    (rows : List Row)
    → All IsExec rows
    → (events : List EventSummary) × (summaries rows ≡ some events)
      × (summary_ids events ≡ row_ids rows)
unfolding summaries row_to_summary summary_of from_wire as_wire
summaries-IsExec [] h = ([], refl, refl)
summaries-IsExec (row ∷ rows) h =
    let (events, e, ids) = summaries-IsExec rows h.1 in
    (summary_of row exec ∷ events, rw (h.0, e), ap (λ rest. row.id ∷ rest) ids)

module _ (same : ℕ → ℕ → Bool) (like : Text → Text → Bool) (laws : IsLike same like)
    (users : Map Text) (filter : EventFilter) where
  -- The identifiers of the rows that the filter selects.
  unfoldable pub selected_ids : List Row → List ℕ
  selected_ids table = row_ids (keep_rows (selects like (build_where_clause users filter)) table)

  pub selected-IsExec :
      (row : Row) → selects like (build_where_clause users filter) row ≡ true → IsExec row
  unfolding row_matches
  selected-IsExec row h =
      (==_iff row.event_type (as_wire exec)).0
        (&&-true _ _ (sym (selects-build_where_clause same like laws row users filter) ∙ h)).0

  pub list_since-selected :
      (table : List Row) (cursor : ℕ)
      → (events : List EventSummary) × (list_since like users table cursor filter ≡ some events)
        × (summary_ids events ≡ take 100 (after cursor (selected_ids table)))
  unfolding list_since selected_ids
  list_since-selected table cursor =
      let clause = build_where_clause users filter in
      let kept = keep_rows (λ row. selects like clause row && ltb cursor row.id) table in
      let execs = keep_rows-All IsExec _ table (λ row t.
        selected-IsExec row (&&-true (selects like clause row) (ltb cursor row.id) t).0) in
      let (events, e, ids) = summaries-IsExec (take 100 kept) (take-All IsExec 100 kept execs) in
      (
        events,
        e,
        ids
            ∙ take-row_ids 100 kept
            ∙ ap (take 100) (keep_rows-after (selects like clause) cursor table),
      )
