-- ===== src/Query.antt =====
-- Suggestions for misspelt keywords: shspectr-web/src/domain/filter.rs.
use shellspectre.Base.{
  codes, suc, leb, ltb, ◌||◌, ◌&&◌, Option, none, some, Bool, ℕ, ◌+◌, min, List, [], ◌∷◌, ◌==◌,
  if◌then◌else◌, length, get_or, Text,
}
pub mod Distance
pub mod Suggestion
pub mod Parse
mod Tests

-- one round of the inner loop: `curr[j]` from `prev[j]`, `curr[j - 1]` and `prev[j - 1]`
cell : ℕ → ℕ → ℕ → ℕ → ℕ → ℕ
cell c b above left corner = min (min (above + 1) (left + 1)) (corner + (if c == b then 0 else 1))

-- The inner loop behind `curr[0] = i`: the characters of `b` with the row `prev`, whose first two
-- entries are `prev[j - 1]` and `prev[j]`, and with `curr[j - 1]`.
next_cells : ℕ → ℕ → List ℕ → List ℕ → List ℕ
unfolding cell
next_cells c left (corner ∷ above ∷ prev) (b ∷ bs) =
    let x = cell c b above left corner in let rest = next_cells c x (above ∷ prev) bs in x ∷ rest
next_cells c left (corner ∷ []) bs = []
next_cells c left [] bs = []
next_cells c left (corner ∷ above ∷ prev) [] = []

-- The outer loop: `i` counts the characters of `a`, and `prev` and `curr` are swapped.
rows : ℕ → List ℕ → List ℕ → List ℕ → List ℕ
unfolding next_cells
rows i [] b prev = prev
rows i (c ∷ a) b prev = rows (i + 1) a b (i ∷ next_cells c i prev b)

-- `(from..=from + length b)`
count_from : ℕ → List ℕ → List ℕ
count_from n [] = n ∷ []
count_from n (c ∷ b) = n ∷ count_from (n + 1) b

-- `levenshtein`
pub levenshtein : Text → Text → ℕ
unfolding rows count_from
levenshtein a b = get_or (rows 1 a b (count_from 0 b)) (length b) 0

pub known_keywords : List Text
known_keywords =
    codes "ppid"
    ∷ codes "pid"
    ∷ codes "user"
    ∷ codes "comm"
    ∷ codes "exit"
    ∷ codes "session"
    ∷ codes "gid"
    ∷ codes "euid"
    ∷ codes "tty"
    ∷ codes "file"
    ∷ codes "cmd"
    ∷ []

-- `zip(..).take_while(|(a, b)| a == b).count()`
common_prefix : Text → Text → ℕ
common_prefix [] t = 0
common_prefix (a ∷ s) [] = 0
common_prefix (a ∷ s) (b ∷ t) = let rest = common_prefix s t in if a == b then suc rest else 0

-- what the `filter_map` keeps of a keyword, with the key `(edits, -prefix_len)`
pub record Best : Type 0 where
  pub keyword : Text
  pub edits : ℕ
  pub prefix_len : ℕ

pub candidate : Text → Text → Option Best
unfolding common_prefix
candidate unknown kw =
    let d = levenshtein unknown kw in
    if ltb 0 d && leb d 2
    then some (record { keyword = kw; edits = d; prefix_len = common_prefix unknown kw })
    else none

-- the order of the keys
beats : Best → Best → Bool
beats a b = ltb a.edits b.edits || ((a.edits == b.edits) && ltb b.prefix_len a.prefix_len)

-- `min_by_key` keeps the first of the smallest
keep : Option Best → Option Best → Option Best
unfolding beats
keep held none = held
keep none (some new) = some new
keep (some best) (some new) = if beats new best then some new else some best

closest : Text → Option Best → List Text → Option Best
unfolding keep
closest unknown held [] = held
closest unknown held (kw ∷ kws) = closest unknown (keep held (candidate unknown kw)) kws

keyword_of : Option Best → Option Text
keyword_of none = none
keyword_of (some best) = some best.keyword

-- `suggest_keyword`
pub suggest_keyword : Text → Option Text
unfolding closest keyword_of
suggest_keyword unknown = keyword_of (closest unknown none known_keywords)
