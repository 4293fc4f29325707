-- ===== src/Session/Ancestors.antt =====
-- The walk over the parents of a process.
use shellspectre.Base.{
  ℕ, zero, suc, ◌≤◌, ◌≡◌, refl, sym, ap, ◌∙◌, ◌≢◌, ◌⊎◌, inl, inr, some, List, [], ◌∷◌, arith, ◌==◌,
  Bool-cases, Option-cases, length, take, Map, lookup, Text,
}
use mathlib.Core.Path.{subst}
use shellspectre.Session.{ProcessInfo, SessionCorrelator, ancestors, max_levels, ancestor_comms}

-- The names of a stretch of the parent chain that starts at a process: each parent is tracked, and
-- no process on the way is its own parent.
pub data IsChain (m : Map ProcessInfo) : ℕ → List Text → Type 0 where
  end : {pid : ℕ} → IsChain m pid []
  up :
      {pid : ℕ} (info parent : ProcessInfo) {rest : List Text}
      → lookup pid m ≡ some info
      → info.ppid ≢ pid
      → lookup info.ppid m ≡ some parent
      → IsChain m info.ppid rest
      → IsChain m pid (parent.comm ∷ rest)

-- one round of the loop that goes on
ancestors_up :
    (n pid : ℕ) (m : Map ProcessInfo) (info parent : ProcessInfo)
    → lookup pid m ≡ some info
    → info.ppid ≢ pid
    → lookup info.ppid m ≡ some parent
    → ancestors (suc n) pid m ≡ parent.comm ∷ ancestors n info.ppid m
unfolding ancestors
ancestors_up n pid m info parent e ne e' = ground arith

-- a round that breaks, or one that goes on
ancestors_cases :
    (n pid : ℕ) (m : Map ProcessInfo)
    → (ancestors (suc n) pid m ≡ [])
      ⊎ ((info : ProcessInfo) × (parent : ProcessInfo) × (lookup pid m ≡ some info)
          × (info.ppid ≢ pid)
          × (lookup info.ppid m ≡ some parent))
unfolding ancestors
ancestors_cases n pid m = elim (Option-cases (lookup pid m)) [
  | inl e ↦ inl (ground arith)
  | inr (info, e) ↦ elim (Bool-cases (info.ppid == pid)) [
    | inl own ↦ inl (ground arith)
    | inr other ↦ elim (Option-cases (lookup info.ppid m)) [
      | inl e' ↦ inl (ground arith)
      | inr (parent, e') ↦ inr (info, parent, e, ground arith, e')
    ]
  ]
]

ancestors-IsChain : (n pid : ℕ) (m : Map ProcessInfo) → IsChain m pid (ancestors n pid m)
unfolding ancestors
ancestors-IsChain zero pid m = end
ancestors-IsChain (suc n) pid m = elim (ancestors_cases n pid m) [
  | inl stop ↦ subst (IsChain m pid) (sym stop) end
  | inr (info, parent, e, ne, e') ↦
      subst (IsChain m pid) (sym (ancestors_up n pid m info parent e ne e'))
        (up info parent e ne e' (ancestors-IsChain n info.ppid m))
]

length-ancestors : (n pid : ℕ) (m : Map ProcessInfo) → length (ancestors n pid m) ≤ n
unfolding ancestors
length-ancestors zero pid m = omega arith
length-ancestors (suc n) pid m = elim (ancestors_cases n pid m) [
  | inl stop ↦ omega (arith, ap length stop)
  | inr (info, parent, e, ne, e') ↦
      omega (
        arith,
        ap length (ancestors_up n pid m info parent e ne e'),
        length-ancestors n info.ppid m,
      )
]

ancestors_longest :
    (m : Map ProcessInfo) {pid : ℕ} {names : List Text}
    → IsChain m pid names
    → (n : ℕ) → length names ≤ n
    → take (length names) (ancestors n pid m) ≡ names
ancestors_longest m end n h = refl
ancestors_longest m (up info parent e ne e' r) zero h = absurd (omega arith)
ancestors_longest m (up {pid = k} info parent {rest = names} e ne e' r) (suc n) h =
    ap (λ l. take (suc (length names)) l) (ancestors_up n k m info parent e ne e')
    ∙ ap (λ l. parent.comm ∷ l) (ancestors_longest m r n (omega arith))

-- `ancestor_comms` is the parent chain of the process, cut at 32 names: it follows tracked parents
-- only, it ends also where the map's parents form a cycle, and every chain of at most 32 names is
-- a beginning of it.
pub ancestor_comms-exact :
    (pid : ℕ) (c : SessionCorrelator) (names : List Text)
    → IsChain c.pid_map pid names
    → length names ≤ max_levels
    → IsChain c.pid_map pid (ancestor_comms pid c)
      × (length (ancestor_comms pid c) ≤ max_levels)
      × (take (length names) (ancestor_comms pid c) ≡ names)
unfolding ancestor_comms
ancestor_comms-exact pid c names r h = (
  ancestors-IsChain max_levels pid c.pid_map,
  length-ancestors max_levels pid c.pid_map,
  ancestors_longest c.pid_map r max_levels h,
)
