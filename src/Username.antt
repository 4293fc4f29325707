-- ===== src/Username.antt =====
-- User names: shspectr-web/src/presentation/web/username.rs.
use shellspectre.Base.{
  ℕ, zero, suc, ◌==◌, Option, none, some, List, [], ◌∷◌, Map, lookup, insert, Text, text_eq,
  unwrap_or, if◌then◌else◌, split_once, split_by, parse_u32,
}
use shellspectre.Query.Parse.Print.{decimal}

-- `line.splitn(n, ':')`
splitn : ℕ → Text → List Text
splitn zero s = []
splitn (suc zero) s = s ∷ []
splitn (suc (suc n)) s = elim (split_once b':' s) [
  | none ↦ s ∷ []
  | some (field, rest) ↦ field ∷ splitn (suc n) rest
]

is_newline : ℕ → shellspectre.Base.Bool
is_newline c = c == b'\n'

strip_return : Text → Text
strip_return [] = []
strip_return (c ∷ []) = if c == b'\r' then [] else c ∷ []
strip_return (c ∷ d ∷ s) = c ∷ strip_return (d ∷ s)

without_last_empty : List Text → List Text
unfolding strip_return
without_last_empty [] = []
without_last_empty ([] ∷ []) = []
without_last_empty (line ∷ []) = line ∷ []
without_last_empty (line ∷ next ∷ rest) = strip_return line ∷ without_last_empty (next ∷ rest)

-- `contents.lines()`
lines : Text → List Text
unfolding without_last_empty is_newline
lines contents = without_last_empty (split_by is_newline contents)

add_user : Option ℕ → Text → Map Text → Map Text
add_user none name users = users
add_user (some uid) name users = insert uid name users

-- The body of the loop over the lines.
add_line : List Text → Map Text → Map Text
unfolding add_user
add_line (name ∷ password ∷ uid ∷ rest) users = add_user (parse_u32 uid) name users
add_line _ users = users

add_lines : List Text → Map Text → Map Text
unfolding add_line splitn
add_lines [] users = users
add_lines (line ∷ rest) users = add_lines rest (add_line (splitn 4 line) users)

-- `load_passwd`, of the contents of the file if it can be read
pub load_passwd : Option Text → Map Text
unfolding add_lines lines
load_passwd none = []
load_passwd (some contents) = add_lines (lines contents) []

-- `resolve_username`; the order of the entries stands for the order in which the map is iterated
pub resolve_username : Map Text → Text → Option ℕ
resolve_username [] name = none
resolve_username ((uid, held) ∷ users) name =
    let rest = resolve_username users name in if text_eq held name then some uid else rest

-- `resolve_uid`
pub resolve_uid : Map Text → ℕ → Text
resolve_uid users uid = unwrap_or (lookup uid users) (decimal uid)
