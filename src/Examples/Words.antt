-- ===== src/Examples/Words.antt =====
-- The distance of words.
use shellspectre.Base.{◌≡◌, refl, [], codes}
use shellspectre.Query.{levenshtein}
use shellspectre.Query.Distance.{distance, reverse_onto, levenshtein_lem}

levenshtein_lem_example :
    levenshtein (codes "comn") (codes "comm")
    ≡ distance (reverse_onto (codes "comn") []) (reverse_onto (codes "comm") [])
levenshtein_lem_example = levenshtein_lem (codes "comn") (codes "comm")

-- three edits
kitten : distance (codes "kitten") (codes "sitting") ≡ 3
unfolding distance
kitten = refl
