-- ===== src/Examples/Web.antt =====
-- Queries, clauses and the live tail.
use shellspectre.Base.{
  ℕ, List, ◌*◌, take, ◌==◌, ◌≡◌, ◌++◌, refl, sym, ap, ◌∙◌, is_whitespace, join, split_by, Bool,
  true, false, ◌&&◌, none, some, [], ◌∷◌, negsuc, Text, codes, any, is_empty, arith, if◌then◌else◌,
}
use shellspectre.Database.{Row}
use shellspectre.Live.Delivered.{delivered, live_events_complete}
use shellspectre.Live.{Tail, live_events}
use shellspectre.Query.Parse.Print.{
  filter_tokens, tokens_of, token, bang, key_text, decimal, decimal_int, digits,
}
use shellspectre.Query.Parse.RoundTrip.{query_text, joined, parse-query_text}
use shellspectre.Query.Parse.{EventFilter, parse}
use shellspectre.Listing.{ListRequest, default_request}
use shellspectre.Examples.Insertion.{insertion_sort, insertion_sort-IsOrderBy}
use mathlib.Core.List.{Perm}
use shellspectre.Sorting.{AreListed}
use shellspectre.Reads.{keep_rows}
use shellspectre.Reads.Cursor.{after}
use shellspectre.Reads.Paging.{first_pages, list-first_pages}
use shellspectre.Reads.Selected.{selected_ids, row_ids}
use shellspectre.Repository.Matching.{row_matches, glob_test, number_test, text_test, if_set}
use shellspectre.Repository.Meaning.{selects}
use shellspectre.Repository.Patterns.{IsLike, is_special, one_then, suffixes}
use shellspectre.Repository.Where.{selects-build_where_clause}
use shellspectre.Wire.{as_wire}
use shellspectre.Repository.{build_where_clause}

-- A LIKE operator that tells upper from lower case.
pub like_exactly : Text → Text → Bool
like_exactly [] t = is_empty t
like_exactly (c ∷ []) t =
    if c == b'%'
    then any is_empty (suffixes t)
    else if c == b'_'
    then one_then (λ d. true) is_empty t
    else one_then (λ d. c == d) is_empty t
like_exactly (c ∷ d ∷ p) t =
    if c == b'%'
    then any (like_exactly (d ∷ p)) (suffixes t)
    else if c == b'_'
    then one_then (λ d. true) (like_exactly (d ∷ p)) t
    else if (c == b'\\') && is_special d
    then one_then (λ e. d == e) (like_exactly p) t
    else one_then (λ e. c == e) (like_exactly (d ∷ p)) t

exactly_percent : (p t : Text) → like_exactly (b'%' ∷ p) t ≡ any (like_exactly p) (suffixes t)
unfolding like_exactly
exactly_percent [] t = refl
exactly_percent (d ∷ p) t = refl

exactly_underscore :
    (p t : Text) → like_exactly (b'_' ∷ p) t ≡ one_then (λ d. true) (like_exactly p) t
unfolding like_exactly
exactly_underscore [] t = refl
exactly_underscore (d ∷ p) t = refl

exactly_escaped :
    (c : ℕ) (p t : Text)
    → is_special c ≡ true
    → like_exactly (b'\\' ∷ c ∷ p) t ≡ one_then (λ d. c == d) (like_exactly p) t
unfolding like_exactly
exactly_escaped c p t h = rw h refl

unspecial :
    (c : ℕ)
    → is_special c ≡ false
    → ((c == b'%') ≡ false) × ((c == b'_') ≡ false) × ((c == b'\\') ≡ false)
unspecial c h = ground (arith, h)

exactly_ordinary :
    (c : ℕ) (p t : Text)
    → is_special c ≡ false
    → like_exactly (c ∷ p) t ≡ one_then (λ d. c == d) (like_exactly p) t
unfolding like_exactly
exactly_ordinary c [] t h = let (a, b, _) = unspecial c h in rw (a, b)
exactly_ordinary c (d ∷ p) t h = let (a, b, e) = unspecial c h in rw (a, b, e)

pub like_exactly-IsLike : IsLike (λ c d. c == d) like_exactly
like_exactly-IsLike = record {
  at_end = λ t. unfold like_exactly in refl;
  percent = exactly_percent;
  underscore = exactly_underscore;
  escaped = exactly_escaped;
  ordinary = exactly_ordinary;
}

-- the filter of a query
abbrev pub sample_filter : EventFilter
sample_filter = record {
  raw = none;
  warnings = [];
  user = none;
  comm = some (record { value = codes "ba*"; negated = false });
  exit_code = some (record { value = negsuc 0; negated = true });
  session_id = none;
  pid = some (record { value = 42; negated = false });
  ppid = none;
  gid = none;
  euid = none;
  tty = none;
  file = none;
  cmd = none;
  text = none;
}

sample_query : query_text sample_filter (codes "hi" ∷ []) ≡ codes "comm:ba* !exit:-1 pid:42 hi"
unfolding filter_tokens tokens_of token bang key_text decimal decimal_int digits join
sample_query = refl

parse-query_text_example :
    parse (query_text sample_filter (codes "hi" ∷ [])) ≡ record sample_filter {
      raw = some (query_text sample_filter (codes "hi" ∷ []));
      warnings = [];
      text = joined (codes "hi" ∷ []);
    }
parse-query_text_example =
    parse-query_text sample_filter (codes "hi" ∷ []) (omega arith, omega arith, tt, tt, tt, tt)
      (tt, unfold is_whitespace in refl, tt, tt, tt) ((refl, unfold is_whitespace in refl), tt)
      (refl, tt) (unfold filter_tokens tokens_of in refl)

-- An exec row.
abbrev pub bash_row : Row
bash_row = record {
  id = 7;
  session_id = codes "ox_aaaa1111";
  event_type = 0;
  timestamp = codes "2026-01-01 00:00:00";
  pid = 42;
  ppid = 1;
  uid = 1000;
  gid = 1000;
  euid = 1000;
  comm = some (codes "bash");
  tty_nr = none;
  execution_id = 0;
  filename = some (codes "/bin/bash");
  argv = none;
  fd = none;
  payload = none;
  data_len = none;
  byte_count = none;
  exit_code = none;
}

-- It is selected: its exit code is missing.
bash_selected : row_matches (λ c d. c == d) [] sample_filter bash_row ≡ true
unfolding row_matches glob_test number_test text_test if_set as_wire split_by
bash_selected = refl

bash_ids :
    selected_ids (λ c d. c == d) like_exactly like_exactly-IsLike [] sample_filter (bash_row ∷ [])
    ≡ 7 ∷ []
unfolding selected_ids
bash_ids = rw (
    selects-build_where_clause (λ c d. c == d) like_exactly like_exactly-IsLike bash_row []
      sample_filter
    ∙ bash_selected)

no_ids : selected_ids (λ c d. c == d) like_exactly like_exactly-IsLike [] sample_filter [] ≡ []
unfolding selected_ids
no_ids = refl

abbrev newcomer : Tail
newcomer = record { last_seen_id = 3; live_count = 0 }

live_events_complete_example :
    delivered (live_events like_exactly [] sample_filter ([] ∷ (bash_row ∷ []) ∷ []) newcomer).0
      ++ after
          (live_events like_exactly [] sample_filter
            ([] ∷ (bash_row ∷ []) ∷ [])
            newcomer).1.last_seen_id
          (7 ∷ [])
    ≡ after 3 (7 ∷ [])
live_events_complete_example =
    live_events_complete (λ c d. c == d) like_exactly like_exactly-IsLike [] sample_filter
      ([] ∷ (bash_row ∷ []) ∷ []) newcomer (7 ∷ []) 0 (omega arith, tt)
      (
        (7 ∷ [], ap (λ ids. ids ++ (7 ∷ [])) (sym no_ids)),
        (([], ap (λ ids. ids ++ []) (sym bash_ids)), tt),
      )

abbrev shells : List Row
shells = bash_row ∷ record bash_row { id = 5 } ∷ record bash_row { id = 6 } ∷ []

abbrev by_two : ListRequest
by_two = record default_request { page_size = 2 }

list-first_pages_example :
    (rows : List Row) × AreListed by_two.sort by_two.direction rows
    × Perm rows (keep_rows (selects like_exactly (build_where_clause [] sample_filter)) shells)
    × (first_pages
          (λ c d. c == d)
          like_exactly
          like_exactly-IsLike
          []
          sample_filter
          insertion_sort
          insertion_sort-IsOrderBy
          shells
          by_two
          2
        ≡ take (2 * 2) (row_ids rows))
list-first_pages_example =
    list-first_pages (λ c d. c == d) like_exactly like_exactly-IsLike [] sample_filter
      insertion_sort insertion_sort-IsOrderBy shells by_two 2 (omega arith)
