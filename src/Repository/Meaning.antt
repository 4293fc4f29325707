-- ===== src/Repository/Meaning.antt =====
-- What a clause selects: SQL's three-valued logic on a row.
use shellspectre.Base.{
  ℕ, zero, suc, ◌==◌, Bool, true, false, not, Option, none, some, List, [], ◌∷◌, map, ℤ, pos,
  negsuc, Text, get_elem?,
}
use shellspectre.Database.{Row}
use shellspectre.Repository.{
  Column, comm_column, exit_code_column, session_id_column, pid_column, ppid_column, gid_column,
  euid_column, tty_nr_column, filename_column, uid_column, Value, text_value, int_value, Condition,
  is_event_type, equals, differs, null_or_differs, like, not_like, null_or_not_like, any_like,
  none_like, null_or_none_like, text_like, Clause,
}

unfoldable pub int_eq : ℤ → ℤ → Bool
int_eq (pos a) (pos b) = a == b
int_eq (negsuc a) (negsuc b) = a == b
int_eq _ _ = false

unfoldable pub as_text : Option Text → Option Value
as_text none = none
as_text (some s) = some (text_value s)

unfoldable pub as_int : Option ℤ → Option Value
as_int none = none
as_int (some n) = some (int_value n)

unfoldable pub as_unsigned : Option ℕ → Option Value
as_unsigned none = none
as_unsigned (some n) = some (int_value (pos n))

-- A column of a row; nothing is NULL.
unfoldable pub column_value : Column → Row → Option Value
unfolding as_text as_int as_unsigned
column_value comm_column row = as_text row.comm
column_value exit_code_column row = as_int row.exit_code
column_value session_id_column row = some (text_value row.session_id)
column_value pid_column row = some (int_value (pos row.pid))
column_value ppid_column row = some (int_value (pos row.ppid))
column_value gid_column row = some (int_value (pos row.gid))
column_value euid_column row = some (int_value (pos row.euid))
column_value tty_nr_column row = as_unsigned row.tty_nr
column_value filename_column row = as_text row.filename
column_value uid_column row = some (int_value (pos row.uid))

-- Truth values: nothing is NULL.
abbrev pub Truth : Type 0
Truth = Option Bool

unfoldable pub not3 : Truth → Truth
not3 none = none
not3 (some b) = some (not b)

unfoldable pub or3 : Truth → Truth → Truth
or3 (some true) t = some true
or3 (some false) t = t
or3 none (some true) = some true
or3 none _ = none

unfoldable pub and3 : Truth → Truth → Truth
and3 (some false) t = some false
and3 (some true) t = t
and3 none (some false) = some false
and3 none _ = none

unfoldable pub or_all : List Truth → Truth
unfolding or3
or_all [] = some false
or_all (t ∷ ts) = or3 t (or_all ts)

unfoldable pub and_all : List Truth → Truth
unfolding and3
and_all [] = some true
and_all (t ∷ ts) = and3 t (and_all ts)

-- `WHERE` keeps a row whose condition is true, neither false nor NULL.
unfoldable pub is_true : Truth → Bool
is_true (some b) = b
is_true none = false

module _ (matches : Text → Text → Bool) where
  -- `value LIKE pattern`
  unfoldable pub like3 : Option Value → Option Value → Truth
  like3 (some (text_value s)) (some (text_value p)) = some (matches p s)
  like3 _ _ = none

  -- `a = b`
  unfoldable pub equal3 : Option Value → Option Value → Truth
  unfolding int_eq
  equal3 (some (int_value a)) (some (int_value b)) = some (int_eq a b)
  equal3 _ _ = none

  unfoldable pub is_null : Option Value → Truth
  is_null none = some true
  is_null (some v) = some false

  -- The value that is bound to a placeholder, which are counted from one.
  unfoldable pub bound : List Value → ℕ → Option Value
  bound params zero = none
  bound params (suc i) = get_elem? params i

  unfoldable pub condition_truth : List Value → Row → Condition → Truth
  unfolding column_value not3 or3 or_all and_all like3 equal3 is_null bound as_text
  condition_truth params row (is_event_type n) = some (row.event_type == n)
  condition_truth params row (equals c i) = equal3 (column_value c row) (bound params i)
  condition_truth params row (differs c i) = not3 (equal3 (column_value c row) (bound params i))
  condition_truth params row (null_or_differs c i) =
      let v = column_value c row in or3 (is_null v) (not3 (equal3 v (bound params i)))
  condition_truth params row (like c i) = like3 (column_value c row) (bound params i)
  condition_truth params row (not_like c i) = not3 (like3 (column_value c row) (bound params i))
  condition_truth params row (null_or_not_like c i) =
      let v = column_value c row in or3 (is_null v) (not3 (like3 v (bound params i)))
  condition_truth params row (any_like c is) =
      or_all (map (λ i. like3 (column_value c row) (bound params i)) is)
  condition_truth params row (none_like c is) =
      and_all (map (λ i. not3 (like3 (column_value c row) (bound params i))) is)
  condition_truth params row (null_or_none_like c is) =
      let v = column_value c row in
      or3 (is_null v) (and_all (map (λ i. not3 (like3 v (bound params i))) is))
  condition_truth params row (text_like i) = or3 (like3 (as_text row.comm) (bound params i)) (
      or3 (like3 (as_text row.filename) (bound params i))
        (like3 (as_text row.argv) (bound params i)))

  -- Whether the clause selects the row.
  unfoldable pub selects : Clause → Row → Bool
  unfolding is_true and_all condition_truth
  selects clause row = is_true (and_all (map (condition_truth clause.params row) clause.conditions))
