-- ===== src/Repository/Tests.antt =====
-- The text and the parameters of a clause.
use shellspectre.Examples.Web.{sample_filter}
use shellspectre.Query.Parse.{EventFilter}
use shellspectre.Repository.{build_where_clause}
use shellspectre.Base.{
  ◌≡◌, refl, some, [], codes, split_by, ◌≡◌, refl, false, true, pos, none, some, [], ◌∷◌, codes,
  replace, join, split_by, parse_u32,
}
use shellspectre.Query.Parse.{EventFilter}
use shellspectre.Repository.{build_where_clause, text_value, int_value}

abbrev two_names : EventFilter
two_names = record {
  raw = none;
  warnings = [];
  user = some (record { value = codes "1000"; negated = false });
  comm = some (record { value = codes "git|p?"; negated = true });
  exit_code = none;
  session_id = none;
  pid = none;
  ppid = none;
  gid = none;
  euid = none;
  tty = none;
  file = none;
  cmd = some (record { value = codes "a_b"; negated = false });
  text = none;
}

two_names_params :
    (build_where_clause [] two_names).params
    ≡ text_value (codes "git")
      ∷ text_value (codes "p_")
      ∷ text_value (codes "%/a\\_b")
      ∷ int_value (pos 1000)
      ∷ []
unfolding build_where_clause replace join split_by parse_u32
two_names_params = refl

abbrev bash_filter : EventFilter
bash_filter = record sample_filter {
  cmd = some (record { value = codes "bash"; negated = false });
  session_id = some (record { value = codes "ox_aa"; negated = false });
}
