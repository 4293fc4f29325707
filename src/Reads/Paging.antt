-- ===== src/Reads/Paging.antt =====
-- The pages of `list`, one after the other.
use shellspectre.Base.{
  ℕ, zero, suc, ◌+◌, ◌-◌, ◌*◌, ◌^◌, ◌<◌, ◌≡◌, refl, sym, ap, ◌∙◌, Bool, Option, none, some, List,
  [], ◌∷◌, ◌++◌, Text, Map, All, take, drop, arith,
}
use native.Mathlib.Nat.{suc-mul}
use mathlib.Core.List.{Perm}
use shellspectre.Database.{Row}
use shellspectre.Listing.{ListRequest, offset, Page}
use shellspectre.Listing.Pages.{offset-fits}
use shellspectre.Query.Parse.{EventFilter}
use shellspectre.Reads.Selected.{
  summary_ids, row_ids, IsExec, keep_rows-All, take-All, take-row_ids, summaries-IsExec,
  selected-IsExec,
}
use shellspectre.Reads.{EventSummary, keep_rows, list}
use shellspectre.Sorting.{IsOrderBy, AreListed, comes_first, comes_first_total, linked-AreListed}
use shellspectre.Repository.Meaning.{selects}
use shellspectre.Repository.Patterns.{IsLike}
use shellspectre.Repository.{build_where_clause}

drop-All : (P : Row → Type 0) (n : ℕ) (rows : List Row) → All P rows → All P (drop n rows)
drop-All P zero rows h = h
drop-All P (suc n) [] h = tt
drop-All P (suc n) (row ∷ rows) h = drop-All P n rows h.1

drop-row_ids : (n : ℕ) (rows : List Row) → row_ids (drop n rows) ≡ drop n (row_ids rows)
drop-row_ids zero rows = refl
drop-row_ids (suc n) [] = refl
drop-row_ids (suc n) (row ∷ rows) = drop-row_ids n rows

take-nil : (n : ℕ) → take {A = ℕ} n [] ≡ []
take-nil zero = refl
take-nil (suc n) = refl

take-+ : (m n : ℕ) (xs : List ℕ) → take m xs ++ take n (drop m xs) ≡ take (m + n) xs
take-+ zero n xs = ap (λ k. take k xs) (omega arith)
take-+ (suc m) n [] = take-nil n ∙ sym (take-nil (suc m + n))
take-+ (suc m) n (x ∷ xs) =
    let sums : suc (m + n) ≡ suc m + n = omega arith in
    ap (λ rest. x ∷ rest) (take-+ m n xs) ∙ ap (λ k. take k (x ∷ xs)) sums

-- The identifiers on a page; an error has none.
abbrev pub page_ids : Option (Page EventSummary) → List ℕ
page_ids none = []
page_ids (some page) = summary_ids page.items

module _ (same : ℕ → ℕ → Bool) (like : Text → Text → Bool) (laws : IsLike same like)
    (users : Map Text) (filter : EventFilter) (order_by : (Row → Row → Bool) → List Row → List Row)
    (orders : IsOrderBy order_by) (table : List Row) (request : ListRequest) where
  -- The identifiers of the selected rows in the order of the request.
  sorted_ids : List ℕ
  sorted_ids = row_ids (
      order_by (comes_first request.sort request.direction)
        (keep_rows (selects like (build_where_clause users filter)) table))

  -- The identifiers on the first pages, one page after the other.
  unfoldable pub first_pages : ℕ → List ℕ
  first_pages zero = []
  first_pages (suc n) =
      first_pages n
      ++ page_ids (list like users order_by table (record request { page = suc n }) filter)

  list-window :
      (n : ℕ)
      → n * request.page_size < 2 ^ 32
      → page_ids (list like users order_by table (record request { page = suc n }) filter)
        ≡ take request.page_size (drop (n * request.page_size) sorted_ids)
  unfolding list sorted_ids
  list-window n fits =
      let clause = build_where_clause users filter in
      let kept = keep_rows (selects like clause) table in
      let ordered = order_by (comes_first request.sort request.direction) kept in
      let asked = record request { page = suc n } in
      let before : suc n - 1 ≡ n = omega arith in
      let at : offset asked ≡ n * request.page_size =
        offset-fits asked (rw before fits) ∙ ap (λ k. k * request.page_size) before in
      let execs = take-All IsExec request.page_size _ (
        drop-All IsExec (offset asked) ordered (
          orders.adds_no_row (comes_first request.sort request.direction) IsExec kept
            (keep_rows-All IsExec _ table (selected-IsExec same like laws users filter)))) in
      let (events, e, ids) =
        summaries-IsExec (take request.page_size (drop (offset asked) ordered)) execs in
      rw e (
        ids
        ∙ take-row_ids request.page_size (drop (offset asked) ordered)
        ∙ ap (take request.page_size)
            (drop-row_ids (offset asked) ordered ∙ ap (λ k. drop k (row_ids ordered)) at))

  first_pages-take :
      (n : ℕ)
      → n * request.page_size < 2 ^ 32
      → first_pages n ≡ take (n * request.page_size) sorted_ids
  unfolding first_pages
  first_pages-take zero fits =
      let none_yet : 0 ≡ 0 * request.page_size = omega arith in ap (λ k. take k sorted_ids) none_yet
  first_pages-take (suc n) fits =
      let before : n * request.page_size < 2 ^ 32 =
        omega (arith, fits, suc-mul n request.page_size) in
      ap
        (λ ids.
          ids ++ page_ids (list like users order_by table (record request { page = suc n }) filter))
        (first_pages-take n before)
      ∙ ap (λ ids. take (n * request.page_size) sorted_ids ++ ids) (list-window n before)
      ∙ take-+ (n * request.page_size) request.page_size sorted_ids
      ∙ ap (λ k. take k sorted_ids) (sym (suc-mul n request.page_size))

  -- There is a permutation of the rows of the table that the clause selects, sorted by the column and
  -- the direction of the request and the newest first where these do not tell, so that the first n
  -- pages of `list`, one after the other, are its first n times page_size rows: as long as the product
  -- is below 2 ^ 32, `LIKE` and `ORDER BY` do what SQLite documents.
  pub list-first_pages :
      (n : ℕ)
      → n * request.page_size < 2 ^ 32
      → (rows : List Row) × AreListed request.sort request.direction rows
        × Perm rows (keep_rows (selects like (build_where_clause users filter)) table)
        × (first_pages n ≡ take (n * request.page_size) (row_ids rows))
  unfolding sorted_ids
  list-first_pages n fits =
      let before = comes_first request.sort request.direction in
      let kept = keep_rows (selects like (build_where_clause users filter)) table in
      (
        order_by before kept,
        linked-AreListed request.sort request.direction _
            (orders.in_order before (comes_first_total request.sort request.direction) kept),
        orders.permutes before kept,
        first_pages-take n fits,
      )
