-- ===== src/Repository/Documented.antt =====
-- What the documentation of the filters says of a row (the comments on EventFilter in
-- shspectr-web/src/domain/filter.rs), where the clause does the same.
use shellspectre.Base.{
  ℕ, ◌==◌, ◌≡◌, Bool, true, false, ◌||◌, Option, none, some, [], ◌∷◌, pos, Text, codes, all, any,
  if◌then◌else◌, split_by, Map, All, contains_char,
}
use shellspectre.Database.{Row}
use shellspectre.Query.Parse.{EventFilter}
use shellspectre.Repository.Matching.{text_test, number_test, signed, if_set, glob_test, words_test}
use shellspectre.Repository.Patterns.{glob_matches, text_then}
use shellspectre.Repository.{is_bar, user_id}
use shellspectre.Wire.{exec, as_wire}

-- The last part of a path.
pub basename_of : Text → Text
basename_of [] = []
basename_of (c ∷ s) =
    let rest = basename_of s in
    if contains_char b'/' s then rest else if c == b'/' then s else c ∷ s

abbrev pub is_wild : ℕ → Bool
is_wild c = (c == b'*') || (c == b'?') || (c == b'/')

-- A slash is the same as itself alone.
abbrev pub IsSlashExact : (ℕ → ℕ → Bool) → Type 0
IsSlashExact same = (c : ℕ) → (same c b'/' ≡ (c == b'/')) × (same b'/' c ≡ (c == b'/'))

abbrev pub IfSet {ℓ} : {A : Type ℓ} → (A → Type 0) → Option A → Type 0
IfSet P none = Unit
IfSet P (some a) = P a

-- Where the clause does what the documentation says: the names of `cmd` have no wildcard and no slash, the
-- path of the row has a slash, and the identifier of `session` has no bar.
pub record IsDocumented (filter : EventFilter) (row : Row) : Type 0 where
  pub command_names :
      IfSet (λ fv. All (λ name. any is_wild name ≡ false) (split_by is_bar fv.value)) filter.cmd
  pub path : IfSet (λ fv. IfSet (λ s. contains_char b'/' s ≡ true) row.filename) filter.cmd
  pub session : IfSet (λ fv. any is_bar fv.value ≡ false) filter.session_id

module _ (same : ℕ → ℕ → Bool) where
  -- One of the names is the last part of the path.
  pub basename_test : Text → Text → Bool
  unfolding basename_of
  basename_test v s = any (λ name. glob_matches same name (basename_of s)) (split_by is_bar v)

  -- The text starts with the value.
  pub prefix_test : Text → Text → Bool
  prefix_test v s = text_then same v (λ rest. true) s

  -- `cmd` matches the basename of the file, and `session` the start of the identifier.
  pub documented_matches : Map Text → EventFilter → Row → Bool
  unfolding basename_test prefix_test
  documented_matches users f row =
      all (λ b. b)
        ((row.event_type == as_wire exec)
          ∷ if_set (λ fv. text_test (glob_test same fv.value) row.comm fv.negated) f.comm
          ∷ if_set (λ fv. number_test fv.value row.exit_code fv.negated) f.exit_code
          ∷ if_set (λ fv. text_test (prefix_test fv.value) (some row.session_id) fv.negated)
              f.session_id
          ∷ if_set (λ fv. number_test (pos fv.value) (some (pos row.pid)) fv.negated) f.pid
          ∷ if_set (λ fv. number_test (pos fv.value) (some (pos row.ppid)) fv.negated) f.ppid
          ∷ if_set (λ fv. number_test (pos fv.value) (some (pos row.gid)) fv.negated) f.gid
          ∷ if_set (λ fv. number_test (pos fv.value) (some (pos row.euid)) fv.negated) f.euid
          ∷ if_set (λ fv. number_test (pos fv.value) (signed row.tty_nr) fv.negated) f.tty
          ∷ if_set (λ fv. text_test (glob_test same fv.value) row.filename fv.negated) f.file
          ∷ if_set (λ fv. text_test (basename_test fv.value) row.filename fv.negated) f.cmd
          ∷ if_set
              (λ fv.
                if_set (λ uid. number_test (pos uid) (some (pos row.uid)) fv.negated)
                  (user_id users fv.value))
              f.user
          ∷ if_set (words_test same row) f.text
          ∷ [])

  module _ (slash : IsSlashExact same) where
    command_at : Text → Text → Bool
    command_at name = text_then same (codes "/") (glob_matches same name)
