-- ===== src/Repository.antt =====
-- The WHERE clause of a filter: shspectr-web/src/infrastructure/repositories/event.rs.
mod Tests
pub mod Where
pub mod Documented
pub mod Kinds
pub mod Truth
pub mod Matching
pub mod Steps
pub mod Meaning
pub mod Alternatives
pub mod Patterns
use shellspectre.Base.{
  ℕ, ◌+◌, ◌==◌, Bool, true, false, Option, none, some, List, [], ◌∷◌, ◌++◌, map, ℤ, pos, Text,
  codes, if◌then◌else◌, length, join, replace, split_by, parse_u32, Map,
}
use shellspectre.Query.Parse.{FilterValue, EventFilter}
use shellspectre.Query.Parse.Print.{decimal}
use shellspectre.Username.{resolve_username}
use shellspectre.Wire.{exec, as_wire}

-- The columns that the clause names.
pub data Column : Type 0 where
  comm_column exit_code_column session_id_column pid_column ppid_column gid_column : Column
  euid_column tty_nr_column filename_column uid_column : Column

column_name : Column → Text
column_name comm_column = codes "comm"
column_name exit_code_column = codes "exit_code"
column_name session_id_column = codes "session_id"
column_name pid_column = codes "pid"
column_name ppid_column = codes "ppid"
column_name gid_column = codes "gid"
column_name euid_column = codes "euid"
column_name tty_nr_column = codes "tty_nr"
column_name filename_column = codes "filename"
column_name uid_column = codes "uid"

-- What is bound to a placeholder.
pub data Value : Type 0 where
  text_value : Text → Value
  int_value : ℤ → Value

-- One constructor for each text that the builder pushes; a number is the index of a placeholder.
pub data Condition : Type 0 where
  is_event_type : ℕ → Condition
  equals : Column → ℕ → Condition
  differs : Column → ℕ → Condition
  null_or_differs : Column → ℕ → Condition
  like : Column → ℕ → Condition
  not_like : Column → ℕ → Condition
  null_or_not_like : Column → ℕ → Condition
  any_like : Column → List ℕ → Condition
  none_like : Column → List ℕ → Condition
  null_or_none_like : Column → List ℕ → Condition
  text_like : ℕ → Condition

placeholder : ℕ → Text
placeholder idx = b'?' ∷ decimal idx

like_sql : Column → ℕ → Text
unfolding column_name placeholder
like_sql c idx = column_name c ++ (codes " LIKE " ++ (placeholder idx ++ codes " ESCAPE '\\'"))

not_like_sql : Column → ℕ → Text
unfolding column_name placeholder
not_like_sql c idx =
    column_name c ++ (codes " NOT LIKE " ++ (placeholder idx ++ codes " ESCAPE '\\'"))

null_or : Column → Text → Text
unfolding column_name
null_or c s = codes "(" ++ (column_name c ++ (codes " IS NULL OR " ++ (s ++ codes ")")))

-- The text of a condition.
pub condition_sql : Condition → Text
unfolding column_name placeholder like_sql not_like_sql null_or
condition_sql (is_event_type n) = codes "event_type = " ++ decimal n
condition_sql (equals c idx) = column_name c ++ (codes " = " ++ placeholder idx)
condition_sql (differs c idx) = column_name c ++ (codes " != " ++ placeholder idx)
condition_sql (null_or_differs c idx) =
    null_or c (column_name c ++ (codes " != " ++ placeholder idx))
condition_sql (like c idx) = like_sql c idx
condition_sql (not_like c idx) = not_like_sql c idx
condition_sql (null_or_not_like c idx) = null_or c (not_like_sql c idx)
condition_sql (any_like c idxs) =
    codes "(" ++ (join (codes " OR ") (map (like_sql c) idxs) ++ codes ")")
condition_sql (none_like c idxs) =
    codes "(" ++ (join (codes " AND ") (map (not_like_sql c) idxs) ++ codes ")")
condition_sql (null_or_none_like c idxs) =
    null_or c (codes "(" ++ (join (codes " AND ") (map (not_like_sql c) idxs) ++ codes ")"))
condition_sql (text_like idx) =
    codes "(comm LIKE "
    ++ (placeholder idx
        ++ (codes " ESCAPE '\\' OR filename LIKE "
            ++ (placeholder idx
                ++ (codes " ESCAPE '\\' OR argv LIKE "
                    ++ (placeholder idx ++ codes " ESCAPE '\\')")))))

-- The conditions and the parameters so far.
pub record Clause : Type 0 where
  pub conditions : List Condition
  pub params : List Value

-- `params.len() + 1`
pub next_index : Clause → ℕ
next_index clause = length clause.params + 1

pub push_condition : Condition → List Value → Clause → Clause
push_condition condition values clause = record {
  conditions = clause.conditions ++ condition ∷ [];
  params = clause.params ++ values;
}

-- `add_exact`
pub add_exact : Column → FilterValue ℤ → Bool → Clause → Clause
unfolding next_index push_condition
add_exact column fv nullable clause =
    let idx = next_index clause in
    push_condition
      (if fv.negated
        then (if nullable then null_or_differs column idx else differs column idx)
        else equals column idx)
      (int_value fv.value ∷ []) clause

-- the indices of as many placeholders as there are alternatives
pub indices : ℕ → List Text → List ℕ
indices idx [] = []
indices idx (alternative ∷ rest) = idx ∷ indices (idx + 1) rest

pub is_bar : ℕ → Bool
is_bar c = c == b'|'

-- `add_like` behind `pattern.split('|')`
pub add_alternatives : Column → List Text → Bool → Bool → Clause → Clause
unfolding next_index push_condition indices
add_alternatives column (pattern ∷ []) negated nullable clause =
    let idx = next_index clause in
    push_condition
      (if negated
        then (if nullable then null_or_not_like column idx else not_like column idx)
        else like column idx)
      (text_value pattern ∷ []) clause
add_alternatives column alternatives negated nullable clause =
    let idxs = indices (next_index clause) alternatives in
    push_condition
      (if negated
        then (if nullable then null_or_none_like column idxs else none_like column idxs)
        else any_like column idxs)
      (map text_value alternatives) clause

-- `add_like`
pub add_like : Column → Text → Bool → Bool → Clause → Clause
unfolding add_alternatives is_bar
add_like column pattern negated nullable =
    add_alternatives column (split_by is_bar pattern) negated nullable

-- `escape_like_pattern`
pub escape_like_pattern : Text → Text
escape_like_pattern value =
    replace b'_' (codes "\\_") (replace b'%' (codes "\\%") (replace b'\\' (codes "\\\\") value))

-- `glob_to_like_pattern`
pub glob_to_like_pattern : Text → Text
unfolding escape_like_pattern
glob_to_like_pattern value =
    replace b'?' (codes "_") (replace b'*' (codes "%") (escape_like_pattern value))

pub optionally {ℓ} : {A : Type ℓ} → (A → Clause → Clause) → Option A → Clause → Clause
optionally add none clause = clause
optionally add (some value) clause = add value clause

unsigned : FilterValue ℕ → FilterValue ℤ
unsigned fv = record { value = pos fv.value; negated = fv.negated }

add_session : FilterValue Text → Clause → Clause
unfolding add_like escape_like_pattern
add_session fv =
    add_like session_id_column (escape_like_pattern fv.value ++ codes "%") fv.negated false

add_glob : Column → FilterValue Text → Clause → Clause
unfolding add_like glob_to_like_pattern
add_glob column fv = add_like column (glob_to_like_pattern fv.value) fv.negated true

pub basename_pattern : Text → Text
unfolding glob_to_like_pattern
basename_pattern alternative = codes "%/" ++ glob_to_like_pattern alternative

add_command : FilterValue Text → Clause → Clause
unfolding add_like basename_pattern is_bar
add_command fv =
    add_like filename_column (join (codes "|") (map basename_pattern (split_by is_bar fv.value)))
      fv.negated true

-- `fv.value.parse::<u32>().ok().or_else(|| resolve_username(&fv.value))`
pub user_id : Map Text → Text → Option ℕ
user_id users name = elim (parse_u32 name) [
  | some uid ↦ some uid
  | none ↦ resolve_username users name
]

add_user_id : Bool → ℕ → Clause → Clause
unfolding add_exact
add_user_id neg uid = add_exact uid_column (record { value = pos uid; negated = neg }) false

add_user : Map Text → FilterValue Text → Clause → Clause
unfolding user_id add_user_id optionally
add_user users fv = optionally (add_user_id fv.negated) (user_id users fv.value)

add_text : Text → Clause → Clause
unfolding next_index push_condition escape_like_pattern
add_text text clause =
    push_condition (text_like (next_index clause))
      (text_value (codes "%" ++ (escape_like_pattern text ++ codes "%")) ∷ []) clause

add_number : Column → Bool → FilterValue ℕ → Clause → Clause
unfolding add_exact unsigned
add_number column nullable fv = add_exact column (unsigned fv) nullable

add_exit_code : FilterValue ℤ → Clause → Clause
unfolding add_exact
add_exit_code fv = add_exact exit_code_column fv true

exec_only : Clause
exec_only = record { conditions = is_event_type (as_wire exec) ∷ []; params = [] }

-- `build_where_clause`, with the map of user names
pub build_where_clause : Map Text → EventFilter → Clause
unfolding optionally add_glob add_exit_code add_session add_number add_command add_user add_text
    exec_only
build_where_clause users f =
    let with_comm = optionally (add_glob comm_column) f.comm exec_only in
    let with_exit = optionally add_exit_code f.exit_code with_comm in
    let with_session = optionally add_session f.session_id with_exit in
    let with_pid = optionally (add_number pid_column false) f.pid with_session in
    let with_ppid = optionally (add_number ppid_column false) f.ppid with_pid in
    let with_gid = optionally (add_number gid_column false) f.gid with_ppid in
    let with_euid = optionally (add_number euid_column false) f.euid with_gid in
    let with_tty = optionally (add_number tty_nr_column true) f.tty with_euid in
    let with_file = optionally (add_glob filename_column) f.file with_tty in
    let with_cmd = optionally add_command f.cmd with_file in
    let with_user = optionally (add_user users) f.user with_cmd in
    optionally add_text f.text with_user

-- The text of the clause.
pub where_sql : Clause → Text
unfolding condition_sql
where_sql clause = codes "WHERE " ++ join (codes " AND ") (map condition_sql clause.conditions)
