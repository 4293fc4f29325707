-- ===== src/Query/Suggestion.antt =====
-- Which keyword is suggested.
use shellspectre.Base.{
  ◌≤◌, ◌≡◌, refl, sym, ap, ◌∙◌, ◌⊎◌, inl, inr, true, Option, none, some, List, [], ◌∷◌, arith,
  Bool-cases, if-both, leb, is_some, all, Text,
}
use mathlib.Core.List.{Memᴰ}
use mathlib.Core.Path.{subst}
use shellspectre.Query.{
  levenshtein, known_keywords, Best, candidate, beats, keep, closest, keyword_of, suggest_keyword,
}

-- what is kept is no farther than either side
keep-some :
    (best : Best) (o : Option Best)
    → (kept : Best) × (keep (some best) o ≡ some kept)
      × (kept.edits ≤ best.edits)
      × ((kept ≡ best) ⊎ (o ≡ some kept))
      × ((new : Best) → o ≡ some new → kept.edits ≤ new.edits)
unfolding keep beats
keep-some best none = (best, refl, omega arith, inl refl, λ new e. absurd (cc))
keep-some best (some new) = elim (Bool-cases (beats new best)) [
  | inl e ↦ (new, ground (arith, e), ground arith, inr refl, λ other h. ground arith)
  | inr e ↦ (best, ground (arith, e), omega arith, inl refl, λ other h. ground arith)
]

closest-held :
    (u : Text) (best found : Best) (kws : List Text)
    → closest u (some best) kws ≡ some found
    → found.edits ≤ best.edits
unfolding closest
closest-held u best found [] h = ground arith
closest-held u best found (k ∷ kws) h =
    let (kept, e, le, _, _) = keep-some best (candidate u k) in
    let h' : closest u (some kept) kws ≡ some found = rw (← e) h in
    omega (arith, le, closest-held u kept found kws h')

keep_new :
    (held : Option Best) (new : Best)
    → (kept : Best) × (keep held (some new) ≡ some kept) × (kept.edits ≤ new.edits)
unfolding keep
keep_new none new = (new, refl, omega arith)
keep_new (some best) new =
    let (kept, e, _, _, le) = keep-some best (some new) in (kept, e, le new refl)

closest_least :
    (u other : Text) (found new : Best)
    → candidate u other ≡ some new
    → (kws : List Text) (held : Option Best) → closest u held kws ≡ some found
    → Memᴰ other kws
    → found.edits ≤ new.edits
unfolding closest
closest_least u other found new c [] held h m = elim m [ ]
closest_least u other found new c (k ∷ kws) held h (Memᴰ.head e) =
    let (kept, q, le) = keep_new held new in
    let same : candidate u k ≡ some new = ap (candidate u) (sym e) ∙ c in
    let h' : closest u (some kept) kws ≡ some found =
      ap (λ o. closest u o kws) (sym (ap (keep held) same ∙ q)) ∙ h in
    omega (arith, le, closest-held u kept found kws h')
closest_least u other found new c (k ∷ kws) held h (Memᴰ.tail m) =
    closest_least u other found new c kws (keep held (candidate u k)) h m

-- what is held comes from a keyword
abbrev IsHeld : Text → List Text → Option Best → Type 0
IsHeld u all none = Unit
IsHeld u all (some best) = Memᴰ best.keyword all × (candidate u best.keyword ≡ some best)

candidate-keyword : (u kw : Text) (best : Best) → candidate u kw ≡ some best → best.keyword ≡ kw
unfolding candidate
candidate-keyword u kw best h = ground arith

keep-IsHeld :
    (u : Text) (all : List Text) (held o : Option Best)
    → IsHeld u all held
    → IsHeld u all o
    → IsHeld u all (keep held o)
unfolding keep
keep-IsHeld u all none none h k = tt
keep-IsHeld u all none (some new) h k = k
keep-IsHeld u all (some best) none h k = h
keep-IsHeld u all (some best) (some new) h k =
    if-both (IsHeld u all) (beats new best) (some new) (some best) (λ _. k) (λ _. h)

candidate-IsHeld : (u kw : Text) (all : List Text) → Memᴰ kw all → IsHeld u all (candidate u kw)
candidate-IsHeld u kw all m = go (candidate u kw) refl
  where
    go : (o : Option Best) → candidate u kw ≡ o → IsHeld u all o
    go none e = tt
    go (some best) e =
        let same = candidate-keyword u kw best e in
        (subst (λ w. Memᴰ w all) (sym same) m, ap (candidate u) same ∙ e)

closest-IsHeld :
    (u : Text) (all kws : List Text) (held : Option Best)
    → ((k : Text) → Memᴰ k kws → Memᴰ k all)
    → IsHeld u all held
    → IsHeld u all (closest u held kws)
unfolding closest
closest-IsHeld u all [] held sub h = h
closest-IsHeld u all (k ∷ kws) held sub h =
    closest-IsHeld u all kws (keep held (candidate u k)) (λ j m. sub j (Memᴰ.tail m))
      (keep-IsHeld u all held (candidate u k) h (candidate-IsHeld u k all (sub k (Memᴰ.head refl))))

candidate-bounds :
    (u kw : Text) (best : Best)
    → candidate u kw ≡ some best
    → (best.edits ≡ levenshtein u kw) × (1 ≤ levenshtein u kw) × (levenshtein u kw ≤ 2)
unfolding candidate
candidate-bounds u kw best h = ground arith

near-candidate :
    (u kw : Text)
    → 1 ≤ levenshtein u kw
    → levenshtein u kw ≤ 2
    → (best : Best) × (candidate u kw ≡ some best) × (best.edits ≡ levenshtein u kw)
unfolding candidate
near-candidate u kw lo hi = (
  record {
    keyword = kw;
    edits = levenshtein u kw;
    prefix_len = shellspectre.Query.common_prefix u kw;
  },
  ground arith,
  refl,
)

-- A suggestion is a known keyword at distance 1 or 2 from the word, and no known keyword but the word
-- itself is nearer.
pub suggest_keyword_nearest :
    (u kw other : Text)
    → suggest_keyword u ≡ some kw
    → Memᴰ other known_keywords
    → 1 ≤ levenshtein u other
    → Memᴰ kw known_keywords
      × (1 ≤ levenshtein u kw)
      × (levenshtein u kw ≤ 2)
      × (levenshtein u kw ≤ levenshtein u other)
unfolding suggest_keyword keyword_of
suggest_keyword_nearest u kw other h m lo =
    go (closest u none known_keywords) refl
      (closest-IsHeld u known_keywords known_keywords none (λ k n. n) tt) h
  where
    nearest :
        (best : Best)
        → closest u none known_keywords ≡ some best
        → levenshtein u best.keyword ≤ 2
        → best.edits ≡ levenshtein u best.keyword
        → levenshtein u best.keyword ≤ levenshtein u other
    nearest best e near same = elim (Bool-cases (leb (levenshtein u other) 2)) [
      | inl close ↦
          let (new, c, d) = near-candidate u other lo (ground arith) in
          let least = closest_least u other best new c known_keywords none e m in
          omega (arith, least, d, same)
      | inr far ↦ ground (arith, near)
    ]

    go :
        (o : Option Best)
        → closest u none known_keywords ≡ o
        → IsHeld u known_keywords o
        → keyword_of o ≡ some kw
        → Memᴰ kw known_keywords
          × (1 ≤ levenshtein u kw)
          × (levenshtein u kw ≤ 2)
          × (levenshtein u kw ≤ levenshtein u other)
    go none e held q = absurd (ground arith)
    go (some best) e held q =
        let named : best.keyword ≡ kw = ground arith in
        let bounds = candidate-bounds u best.keyword best held.1 in
        let far = ap (levenshtein u) named in
        (
          subst (λ w. Memᴰ w known_keywords) named held.0,
          omega (arith, bounds, far),
          omega (arith, bounds, far),
          omega (arith, far, nearest best e bounds.2 bounds.0),
        )

closest-some :
    (u : Text) (kws : List Text) (best : Best) → is_some (closest u (some best) kws) ≡ true
unfolding closest
closest-some u [] best = refl
closest-some u (k ∷ kws) best =
    let (kept, e, _, _, _) = keep-some best (candidate u k) in
    ap (λ o. is_some (closest u o kws)) e ∙ closest-some u kws kept

closest_found :
    (u other : Text) (new : Best)
    → candidate u other ≡ some new
    → (kws : List Text) (held : Option Best) → Memᴰ other kws
    → is_some (closest u held kws) ≡ true
unfolding closest
closest_found u other new c [] held m = elim m [ ]
closest_found u other new c (k ∷ kws) held (Memᴰ.head e) =
    let (kept, q, le) = keep_new held new in
    let same : candidate u k ≡ some new = ap (candidate u) (sym e) ∙ c in
    ap (λ o. is_some (closest u o kws)) (ap (keep held) same ∙ q) ∙ closest-some u kws kept
closest_found u other new c (k ∷ kws) held (Memᴰ.tail m) =
    closest_found u other new c kws (keep held (candidate u k)) m

-- A word at distance 1 or 2 from a known keyword gets a suggestion.
pub suggest_keyword_found :
    (u other : Text)
    → Memᴰ other known_keywords
    → 1 ≤ levenshtein u other
    → levenshtein u other ≤ 2
    → is_some (suggest_keyword u) ≡ true
unfolding suggest_keyword keyword_of
suggest_keyword_found u other m lo hi =
    let (new, c, _) = near-candidate u other lo hi in
    go (closest u none known_keywords) (closest_found u other new c known_keywords none m)
  where
    go : (o : Option Best) → is_some o ≡ true → is_some (keyword_of o) ≡ true
    go none h = h
    go (some best) h = refl
