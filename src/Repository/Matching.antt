-- ===== src/Repository/Matching.antt =====
-- Which rows a filter means, without SQL.
use shellspectre.Base.{
  ℕ, ◌==◌, Bool, true, false, not, ◌||◌, Option, none, some, List, [], ◌∷◌, ℤ, pos, Text, codes,
  any, all, is_empty, if◌then◌else◌, split_by, Map,
}
use shellspectre.Database.{Row}
use shellspectre.Query.Parse.{EventFilter}
use shellspectre.Repository.Meaning.{int_eq}
use shellspectre.Repository.Patterns.{suffixes, glob_matches, text_then}
use shellspectre.Repository.{is_bar, user_id}
use shellspectre.Wire.{exec, as_wire}

-- A negated test holds of a column without a value.
unfoldable pub text_test : (Text → Bool) → Option Text → Bool → Bool
text_test test none neg = neg
text_test test (some s) neg = if neg then not (test s) else test s

unfoldable pub number_test : ℤ → Option ℤ → Bool → Bool
unfolding int_eq
number_test n none neg = neg
number_test n (some m) neg = if neg then not (int_eq m n) else int_eq m n

abbrev pub signed : Option ℕ → Option ℤ
signed none = none
signed (some n) = some (pos n)

-- The test of a field that is set.
unfoldable pub if_set {ℓ} : {A : Type ℓ} → (A → Bool) → Option A → Bool
if_set test none = true
if_set test (some value) = test value

module _ (same : ℕ → ℕ → Bool) where
  -- One of the alternatives matches the whole text.
  unfoldable pub glob_test : Text → Text → Bool
  unfolding is_bar
  glob_test g s = any (λ alternative. glob_matches same alternative s) (split_by is_bar g)

  -- One of the alternatives matches what follows a slash.
  unfoldable pub command_test : Text → Text → Bool
  unfolding is_bar
  command_test g s =
      any
        (λ alternative.
          any (text_then same (codes "/") (glob_matches same alternative)) (suffixes s))
        (split_by is_bar g)

  -- The text is one of the pieces, or starts with the last one.
  unfoldable pub piece_test : List Text → Text → Bool
  piece_test [] s = false
  piece_test (piece ∷ []) s = text_then same piece (λ rest. true) s
  piece_test (piece ∷ next ∷ rest) s = text_then same piece is_empty s || piece_test (next ∷ rest) s

  unfoldable pub session_test : Text → Text → Bool
  unfolding piece_test is_bar
  session_test v s = piece_test (split_by is_bar v) s

  unfoldable pub substring_test : Text → Text → Bool
  substring_test v s = any (text_then same v (λ rest. true)) (suffixes s)

  -- The text stands in the name, the path or the arguments.
  unfoldable pub words_test : Row → Text → Bool
  unfolding text_test substring_test
  words_test row v =
      text_test (substring_test v) row.comm false
      || (text_test (substring_test v) row.filename false
          || text_test (substring_test v) row.argv false)

  unfoldable pub row_matches : Map Text → EventFilter → Row → Bool
  unfolding if_set text_test number_test glob_test command_test session_test words_test user_id
  row_matches users f row =
      all (λ b. b)
        ((row.event_type == as_wire exec)
          ∷ if_set (λ fv. text_test (glob_test fv.value) row.comm fv.negated) f.comm
          ∷ if_set (λ fv. number_test fv.value row.exit_code fv.negated) f.exit_code
          ∷ if_set (λ fv. text_test (session_test fv.value) (some row.session_id) fv.negated)
              f.session_id
          ∷ if_set (λ fv. number_test (pos fv.value) (some (pos row.pid)) fv.negated) f.pid
          ∷ if_set (λ fv. number_test (pos fv.value) (some (pos row.ppid)) fv.negated) f.ppid
          ∷ if_set (λ fv. number_test (pos fv.value) (some (pos row.gid)) fv.negated) f.gid
          ∷ if_set (λ fv. number_test (pos fv.value) (some (pos row.euid)) fv.negated) f.euid
          ∷ if_set (λ fv. number_test (pos fv.value) (signed row.tty_nr) fv.negated) f.tty
          ∷ if_set (λ fv. text_test (glob_test fv.value) row.filename fv.negated) f.file
          ∷ if_set (λ fv. text_test (command_test fv.value) row.filename fv.negated) f.cmd
          ∷ if_set
              (λ fv.
                if_set (λ uid. number_test (pos uid) (some (pos row.uid)) fv.negated)
                  (user_id users fv.value))
              f.user
          ∷ if_set (words_test row) f.text
          ∷ [])
