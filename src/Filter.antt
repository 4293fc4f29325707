-- ===== src/Filter.antt =====
-- The daemon's event filter: shspectr/src/filter.rs.
use shellspectre.Base.{
  ℕ, ◌≡◌, refl, ap, ◌≢◌, ◌↔◌, inl, inr, Bool, true, false, not, ◌&&◌, List, [], ◌∷◌, arith, ◌==◌,
  if◌then◌else◌, Bool-cases, any, is_empty, Text, text_eq, text_eq_refl, text_eq_sound,
}
use mathlib.Core.List.{Memᴰ}
use mathlib.Core.Path.{subst}

pub record FilterConfig : Type 0 where
  pub filter_pty : Bool
  pub filter_ancestors : List Text

-- `FilterConfig::is_empty`
abbrev pub no_filters : FilterConfig → Bool
no_filters config = not config.filter_pty && is_empty config.filter_ancestors

pub record FilterInput : Type 0 where
  pub tty_nr : ℕ
  pub comm : Text
  pub ancestor_comms : List Text

-- `filter_ancestors.iter().any(|name| name == comm)`
names : List Text → Text → Bool
names ns comm = any (λ name. text_eq name comm) ns

pub passes_filter : FilterConfig → FilterInput → Bool
unfolding names
passes_filter config input =
    if no_filters config
    then true
    else if config.filter_pty && not (input.tty_nr == 0)
    then true
    else if not (is_empty config.filter_ancestors)
    then (if any (names config.filter_ancestors) input.ancestor_comms
        then true
        else if names config.filter_ancestors input.comm
        then true
        else false)
    else false

pub passes_filter_open :
    (config : FilterConfig) (input : FilterInput)
    → no_filters config ≡ true
    → passes_filter config input ≡ true
unfolding passes_filter
passes_filter_open config input h = ground (arith, h)

-- When an event is let through: no filter is active, or one of the active filters matches it.
pub data Admits (config : FilterConfig) (input : FilterInput) : Type 0 where
  unfiltered : config.filter_pty ≡ false → config.filter_ancestors ≡ [] → Admits config input
  on_pty : config.filter_pty ≡ true → input.tty_nr ≢ 0 → Admits config input
  named :
      (name : Text)
      → Memᴰ name config.filter_ancestors
      → Memᴰ name (input.comm ∷ input.ancestor_comms)
      → Admits config input

any-Memᴰ : (p : Text → Bool) (l : List Text) → any p l ≡ true → (x : Text) × Memᴰ x l × (p x ≡ true)
any-Memᴰ p [] h = absurd (cc)
any-Memᴰ p (x ∷ l) h = elim (Bool-cases (p x)) [
  | inl t ↦ (x, Memᴰ.head refl, t)
  | inr f ↦
      let rest : any p l ≡ true = ground arith in
      let (y, m, t) = any-Memᴰ p l rest in (y, Memᴰ.tail m, t)
]

any-cons : (p : Text → Bool) (x : Text) (l : List Text) → any p l ≡ true → any p (x ∷ l) ≡ true
any-cons p x l h = ground arith

Memᴰ-any : (p : Text → Bool) {x : Text} {l : List Text} → Memᴰ x l → p x ≡ true → any p l ≡ true
Memᴰ-any p (Memᴰ.head {x = y} {xs = l} e) h = let h' : p y ≡ true = rw (← e) h in rw h'
Memᴰ-any p (Memᴰ.tail {x = y} {xs = l} m) h = any-cons p y l (Memᴰ-any p m h)

names-named : (ns : List Text) (comm : Text) → names ns comm ≡ true → Memᴰ comm ns
unfolding names
names-named ns comm h =
    let (name, m, t) = any-Memᴰ (λ name. text_eq name comm) ns h in
    subst (λ x. Memᴰ x ns) (text_eq_sound name comm t) m

named-names : (ns : List Text) (comm : Text) → Memᴰ comm ns → names ns comm ≡ true
unfolding names
named-names ns comm m = Memᴰ-any (λ name. text_eq name comm) m (text_eq_refl comm)

is_empty-nil : (ns : List Text) → is_empty ns ≡ true → ns ≡ []
is_empty-nil [] h = refl
is_empty-nil (n ∷ ns) h = absurd (cc)

passes_filter-Admits :
    (config : FilterConfig) (input : FilterInput)
    → passes_filter config input ≡ true
    → Admits config input
unfolding passes_filter
passes_filter-Admits config input h = elim (Bool-cases (no_filters config)) [
  | inl e ↦ unfiltered (ground arith) (is_empty-nil config.filter_ancestors (ground arith))
  | inr active ↦ elim (Bool-cases (config.filter_pty && not (input.tty_nr == 0))) [
    | inl e ↦ on_pty (ground arith) (ground arith)
    | inr other ↦ elim (Bool-cases (any (names config.filter_ancestors) input.ancestor_comms)) [
      | inl e ↦ of_ancestor (any-Memᴰ (names config.filter_ancestors) input.ancestor_comms e)
      | inr e ↦
          named input.comm
            (names-named config.filter_ancestors input.comm (ground (arith, active, other, e)))
            (Memᴰ.head refl)
    ]
  ]
]
  where
    of_ancestor :
        (x : Text) × Memᴰ x input.ancestor_comms × (names config.filter_ancestors x ≡ true)
        → Admits config input
    of_ancestor (x, m, t) = named x (names-named config.filter_ancestors x t) (Memᴰ.tail m)

nonempty : (ns : List Text) {x : Text} → Memᴰ x ns → is_empty ns ≡ false
nonempty [] m = elim m [ ]
nonempty (n ∷ ns) m = refl

Admits-passes_filter :
    (config : FilterConfig) (input : FilterInput)
    → Admits config input
    → passes_filter config input ≡ true
unfolding passes_filter
Admits-passes_filter config input (unfiltered p q) = ground arith
Admits-passes_filter config input (on_pty p q) = ground arith
Admits-passes_filter config input (named name m (Memᴰ.head e)) = ground (
  arith,
  nonempty config.filter_ancestors m,
  named-names config.filter_ancestors name m,
  ap (names config.filter_ancestors) e,
)
Admits-passes_filter config input (named name m (Memᴰ.tail n)) = ground (
  arith,
  nonempty config.filter_ancestors m,
  Memᴰ-any (names config.filter_ancestors) n (named-names config.filter_ancestors name m),
)

-- An event passes exactly when no filter is active, or its process is on a terminal and the
-- terminal filter is on, or its process or one of its known ancestors has a configured name.
pub passes_filter_iff :
    (config : FilterConfig) (input : FilterInput)
    → (passes_filter config input ≡ true) ↔ Admits config input
passes_filter_iff config input =
    (passes_filter-Admits config input, Admits-passes_filter config input)
