-- ===== src/Query/Tests.antt =====
-- A misspelt keyword.
use shellspectre.Base.{◌≤◌, ◌≡◌, refl, true, some, arith, is_some, codes}
use mathlib.Core.List.{Memᴰ}
use shellspectre.Query.{levenshtein, candidate, known_keywords, suggest_keyword}
use shellspectre.Query.Suggestion.{suggest_keyword_nearest, suggest_keyword_found}

distance_of_two : levenshtein (codes "usr") (codes "pid") ≡ 3
unfolding levenshtein
distance_of_two = refl

one_edit : levenshtein (codes "usr") (codes "user") ≡ 1
unfolding levenshtein
one_edit = refl

suggests_user : suggest_keyword (codes "usr") ≡ some (codes "user")
unfolding suggest_keyword known_keywords levenshtein candidate
suggests_user = refl

user_is_known : Memᴰ (codes "user") known_keywords
unfolding known_keywords
user_is_known = Memᴰ.tail (Memᴰ.tail (Memᴰ.head refl))

suggest_keyword_nearest_example :
    Memᴰ (codes "user") known_keywords
    × (1 ≤ levenshtein (codes "usr") (codes "user"))
    × (levenshtein (codes "usr") (codes "user") ≤ 2)
    × (levenshtein (codes "usr") (codes "user") ≤ levenshtein (codes "usr") (codes "user"))
suggest_keyword_nearest_example =
    suggest_keyword_nearest (codes "usr") (codes "user") (codes "user") suggests_user user_is_known
      (omega (arith, one_edit))

suggest_keyword_found_example : is_some (suggest_keyword (codes "usr")) ≡ true
suggest_keyword_found_example =
    suggest_keyword_found (codes "usr") (codes "user") user_is_known (omega (arith, one_edit))
      (omega (arith, one_edit))
