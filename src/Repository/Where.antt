-- ===== src/Repository/Where.antt =====
-- The WHERE clause selects the rows that the filter means.
use shellspectre.Base.{
  ℕ, ◌==◌, ◌≡◌, refl, sym, ap, ◌∙◌, Bool, true, false, ◌||◌, Option, none, some, List, [], ◌∷◌,
  ◌++◌, map, ℤ, pos, Text, codes, any, all, split_by, Map, join,
}
use mathlib.Core.List.{append-nil}
use mathlib.Core.Path.{subst}
use shellspectre.Database.{Row}
use shellspectre.Query.Parse.{FilterValue, EventFilter}
use shellspectre.Repository.Alternatives.{split_pieces}
use shellspectre.Repository.Kinds.{
  any_like-glob, any_like-command, any_like-session, like-substring,
}
use shellspectre.Repository.Matching.{
  text_test, number_test, signed, if_set, glob_test, command_test, session_test, substring_test,
  words_test, row_matches,
}
use shellspectre.Repository.Meaning.{
  as_text, as_int, as_unsigned, column_value, Truth, or3, is_true, like3, bound, condition_truth,
  selects,
}
use shellspectre.Repository.Patterns.{IsLike}
use shellspectre.Repository.Steps.{
  Means, holds_under, CanBeNull, push_condition-Means, bound_next, add_exact-Means,
  add_alternatives-Means,
}
use shellspectre.Repository.Truth.{all-append, is_true-one, &&-true-right, text_test-ext}
use shellspectre.Wire.{exec, as_wire}
use shellspectre.Repository.{
  Column, comm_column, exit_code_column, session_id_column, pid_column, ppid_column, gid_column,
  euid_column, tty_nr_column, filename_column, uid_column, Value, text_value, text_like, Clause,
  next_index, is_bar, add_like, add_alternatives, optionally, add_session, add_glob, add_command,
  basename_pattern, user_id, add_user_id, add_user, add_text, add_number, add_exit_code, exec_only,
  unsigned, build_where_clause, escape_like_pattern, glob_to_like_pattern,
}

module _ (same : ℕ → ℕ → Bool) (like : Text → Text → Bool) (laws : IsLike same like)
    (row : Row) where
  -- A step of the builder that adds a test, whatever came before.
  abbrev Adds : (Clause → Clause) → Bool → Type 0
  Adds step test =
      (clause : Clause) (tests : List Bool)
      → Means like row clause tests
      → Means like row (step clause) (tests ++ test ∷ [])

  optionally-Adds {ℓ} :
      {A : Type ℓ} (add : A → Clause → Clause) (test : A → Bool) (o : Option A)
      → ((v : A) → Adds (add v) (test v))
      → Adds (optionally add o) (if_set test o)
  unfolding optionally if_set Means
  optionally-Adds add test none steps clause tests means more =
      means more ∙ sym (&&-true-right (all (λ b. b) tests)) ∙ sym (all-append tests (true ∷ []))
  optionally-Adds add test (some v) steps clause tests means more = steps v clause tests means more

  add_like-Adds :
      (column : Column) (pattern : Text) (neg nullable : Bool) (o : Option Text)
      (test : Text → Bool)
      → column_value column row ≡ as_text o
      → CanBeNull like row nullable o
      → ((s : Text) → any (λ p. like p s) (split_by is_bar pattern) ≡ test s)
      → Adds (add_like column pattern neg nullable) (text_test test o neg)
  unfolding add_like
  add_like-Adds column pattern neg nullable o test h n same_test clause tests means =
      let (p, ps, e) = split_pieces is_bar pattern in
      let added =
        add_alternatives-Means like row column p ps neg nullable o h n clause tests means in
      let tested : text_test (λ s. any (λ q. like q s) (p ∷ ps)) o neg ≡ text_test test o neg =
        text_test-ext o neg (λ s. ap (any (λ q. like q s)) (sym e) ∙ same_test s) in
      let moved =
        subst
          (λ alts.
            Means like row (add_alternatives column alts neg nullable clause)
              (tests ++ text_test (λ s. any (λ q. like q s) (p ∷ ps)) o neg ∷ []))
          (sym e) added in
      subst
        (λ b.
          Means like row (add_alternatives column (split_by is_bar pattern) neg nullable clause)
            (tests ++ b ∷ []))
        tested moved

  maybe_null {ℓ} : {A : Type ℓ} (o : Option A) → CanBeNull like row true o
  maybe_null none = refl
  maybe_null (some a) = tt

  glob-Adds :
      (column : Column) (o : Option Text) (fv : FilterValue Text)
      → column_value column row ≡ as_text o
      → Adds (add_glob column fv) (text_test (glob_test same fv.value) o fv.negated)
  unfolding add_glob
  glob-Adds column o fv h =
      add_like-Adds column (glob_to_like_pattern fv.value) fv.negated true o
        (glob_test same fv.value) h (maybe_null o) (any_like-glob same like laws fv.value)

  session-Adds :
      (fv : FilterValue Text)
      → Adds
          (add_session fv)
          (text_test (session_test same fv.value) (some row.session_id) fv.negated)
  unfolding add_session column_value as_text
  session-Adds fv =
      add_like-Adds session_id_column (escape_like_pattern fv.value ++ codes "%") fv.negated false
        (some row.session_id) (session_test same fv.value) refl tt
        (any_like-session same like laws fv.value)

  command-Adds :
      (fv : FilterValue Text)
      → Adds (add_command fv) (text_test (command_test same fv.value) row.filename fv.negated)
  unfolding add_command column_value
  command-Adds fv =
      add_like-Adds filename_column
        (join (codes "|") (map basename_pattern (split_by is_bar fv.value))) fv.negated true
        row.filename (command_test same fv.value) refl (maybe_null row.filename)
        (any_like-command same like laws fv.value)

  exit_code-Adds :
      (fv : FilterValue ℤ) → Adds (add_exit_code fv) (number_test fv.value row.exit_code fv.negated)
  unfolding add_exit_code column_value
  exit_code-Adds fv =
      add_exact-Means like row exit_code_column fv true row.exit_code refl
        (maybe_null row.exit_code)

  number-Adds :
      (column : Column) (n : ℕ) (fv : FilterValue ℕ)
      → column_value column row ≡ as_int (some (pos n))
      → Adds (add_number column false fv) (number_test (pos fv.value) (some (pos n)) fv.negated)
  unfolding add_number unsigned
  number-Adds column n fv h =
      add_exact-Means like row column (unsigned fv) false (some (pos n)) h tt

  as_unsigned-signed : (o : Option ℕ) → as_unsigned o ≡ as_int (signed o)
  unfolding as_unsigned as_int
  as_unsigned-signed none = refl
  as_unsigned-signed (some n) = refl

  tty-Adds :
      (fv : FilterValue ℕ)
      → Adds
          (add_number tty_nr_column true fv)
          (number_test (pos fv.value) (signed row.tty_nr) fv.negated)
  unfolding add_number unsigned column_value
  tty-Adds fv =
      add_exact-Means like row tty_nr_column (unsigned fv) true (signed row.tty_nr)
        (as_unsigned-signed row.tty_nr) (maybe_null (signed row.tty_nr))

  user-Adds :
      (users : Map Text) (fv : FilterValue Text)
      → Adds (add_user users fv) (
          if_set
            (λ uid. number_test (pos uid) (some (pos row.uid)) fv.negated)
            (user_id users fv.value))
  unfolding add_user add_user_id column_value as_int
  user-Adds users fv = optionally-Adds (add_user_id fv.negated) _ (user_id users fv.value) (λ uid.
      add_exact-Means like row uid_column (record { value = pos uid; negated = fv.negated }) false
        (some (pos row.uid)) refl tt)

  like3_truth :
      (p v : Text) (o : Option Text)
      → ((s : Text) → like p s ≡ substring_test same v s)
      → is_true (like3 like (as_text o) (some (text_value p)))
        ≡ text_test (substring_test same v) o false
  unfolding is_true like3 as_text text_test
  like3_truth p v none h = refl
  like3_truth p v (some s) h = h s

  is_true-or3 : (s t : Truth) → is_true (or3 s t) ≡ (is_true s || is_true t)
  unfolding is_true or3
  is_true-or3 (some true) t = refl
  is_true-or3 (some false) t = refl
  is_true-or3 none (some true) = refl
  is_true-or3 none (some false) = refl
  is_true-or3 none none = refl

  text_truth :
      (p v : Text)
      → ((s : Text) → like p s ≡ substring_test same v s)
      → (idx : ℕ) (params : List Value) → bound like params idx ≡ some (text_value p)
      → is_true (condition_truth like params row (text_like idx)) ≡ words_test same row v
  unfolding condition_truth words_test
  text_truth p v h idx params b =
      let in_column = λ (o : Option Text). like3_truth p v o h in
      let later =
        is_true-or3 (like3 like (as_text row.filename) (some (text_value p)))
          (like3 like (as_text row.argv) (some (text_value p)))
        ∙ ap (λ t. t || is_true (like3 like (as_text row.argv) (some (text_value p))))
            (in_column row.filename)
        ∙ ap (λ t. text_test (substring_test same v) row.filename false || t)
            (in_column row.argv) in
      let rest =
        or3 (like3 like (as_text row.filename) (some (text_value p)))
          (like3 like (as_text row.argv) (some (text_value p))) in
      rw b (
        is_true-or3 (like3 like (as_text row.comm) (some (text_value p))) rest
        ∙ ap (λ t. t || is_true rest) (in_column row.comm)
        ∙ ap (λ t. text_test (substring_test same v) row.comm false || t) later)

  text-Adds : (v : Text) → Adds (add_text v) (words_test same row v)
  unfolding add_text
  text-Adds v clause tests =
      let p = codes "%" ++ (escape_like_pattern v ++ codes "%") in
      push_condition-Means like row (text_like (next_index clause)) (text_value p ∷ []) clause tests
        (words_test same row v)
        (λ more.
          text_truth p v (like-substring same like laws v) (next_index clause) _
            (bound_next like row clause (text_value p) more))

  comm_value : column_value comm_column row ≡ as_text row.comm
  unfolding column_value
  comm_value = refl

  filename_value : column_value filename_column row ≡ as_text row.filename
  unfolding column_value
  filename_value = refl

  exec_only-Means : Means like row exec_only ((row.event_type == as_wire exec) ∷ [])
  unfolding exec_only holds_under condition_truth is_true Means
  exec_only-Means more =
      is_true-one (some (row.event_type == as_wire exec))
      ∙ sym (&&-true-right (row.event_type == as_wire exec))

  at_last :
      (clause : Clause) (tests : List Bool)
      → Means like row clause tests
      → selects like clause row ≡ all (λ b. b) tests
  unfolding selects holds_under Means
  at_last clause tests means =
      ap (λ ps. holds_under like row ps clause.conditions) (sym (append-nil clause.params))
      ∙ means []

  -- The clause that the builder makes of a filter selects exactly the rows that the filter means.
  pub selects-build_where_clause :
      (users : Map Text) (f : EventFilter)
      → selects like (build_where_clause users f) row ≡ row_matches same users f row
  unfolding build_where_clause row_matches
  selects-build_where_clause users f =
      let comm =
        optionally-Adds (add_glob comm_column) _ f.comm
          (λ fv. glob-Adds comm_column row.comm fv comm_value) in
      let exit = optionally-Adds add_exit_code _ f.exit_code exit_code-Adds in
      let session = optionally-Adds add_session _ f.session_id session-Adds in
      let pid =
        optionally-Adds (add_number pid_column false) _ f.pid
          (λ fv. number-Adds pid_column row.pid fv (unfold column_value as_int in refl)) in
      let ppid =
        optionally-Adds (add_number ppid_column false) _ f.ppid
          (λ fv. number-Adds ppid_column row.ppid fv (unfold column_value as_int in refl)) in
      let gid =
        optionally-Adds (add_number gid_column false) _ f.gid
          (λ fv. number-Adds gid_column row.gid fv (unfold column_value as_int in refl)) in
      let euid =
        optionally-Adds (add_number euid_column false) _ f.euid
          (λ fv. number-Adds euid_column row.euid fv (unfold column_value as_int in refl)) in
      let tty = optionally-Adds (add_number tty_nr_column true) _ f.tty tty-Adds in
      let file =
        optionally-Adds (add_glob filename_column) _ f.file
          (λ fv. glob-Adds filename_column row.filename fv filename_value) in
      let cmd = optionally-Adds add_command _ f.cmd command-Adds in
      let user = optionally-Adds (add_user users) _ f.user (user-Adds users) in
      let words = optionally-Adds add_text _ f.text text-Adds in
      at_last (build_where_clause users f) _ (
        words _ _ (
          user _ _ (
            cmd _ _ (
              file _ _ (
                tty _ _ (
                  euid _ _ (
                    gid _ _ (
                      ppid _ _ (
                        pid _ _ (session _ _ (exit _ _ (comm exec_only _ exec_only-Means))))))))))))
