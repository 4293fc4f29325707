-- ===== src/Sorting.antt =====
-- The order of a list of events: `ORDER BY {col} {dir}, id DESC` in `list` of
-- shspectr-web/src/infrastructure/repositories/event.rs.
use shellspectre.Base.{
  ◌≤◌, ◌≡◌, refl, ◌⊎◌, Bool, true, false, ◌&&◌, ◌||◌, Option, none, some, List, [], ◌∷◌, ℤ, pos,
  negsuc, Text, arith, ltb, leb, if◌then◌else◌, All,
}
use mathlib.Core.List.{Perm}
use shellspectre.Database.{Row}
use shellspectre.Listing.{EventSortKey, SortDirection, asc, desc, timestamp, comm, exit_code}

-- How SQLite compares values of a column: texts by their characters, numbers by size, and no value before
-- any other.
pub text_leb : Text → Text → Bool
text_leb [] t = true
text_leb (c ∷ s) [] = false
text_leb (c ∷ s) (d ∷ t) =
    let rest = text_leb s t in if ltb c d then true else (if ltb d c then false else rest)

pub int_leb : ℤ → ℤ → Bool
int_leb (pos m) (pos n) = leb m n
int_leb (pos m) (negsuc n) = false
int_leb (negsuc m) (pos n) = true
int_leb (negsuc m) (negsuc n) = leb n m

pub option_leb : {A : Type 0} → (A → A → Bool) → Option A → Option A → Bool
option_leb le none o = true
option_leb le (some a) none = false
option_leb le (some a) (some b) = le a b

-- `{order_col}`, ascending
pub column_leb : EventSortKey → Row → Row → Bool
unfolding text_leb int_leb option_leb
column_leb timestamp a b = text_leb a.timestamp b.timestamp
column_leb comm a b = option_leb text_leb a.comm b.comm
column_leb exit_code a b = option_leb int_leb a.exit_code b.exit_code

directed : SortDirection → Bool → Bool → Bool
directed asc up down = up
directed desc up down = down

-- `ORDER BY {order_col} {order_dir}, id DESC`: `a` may stand before `b`
pub comes_first : EventSortKey → SortDirection → Row → Row → Bool
unfolding column_leb directed
comes_first key dir a b =
    let up = column_leb key a b in
    let down = column_leb key b a in if up && down then leb b.id a.id else directed dir up down

-- Neighbours stand in the order.
abbrev pub AreLinked : (Row → Row → Bool) → List Row → Type 0
AreLinked before [] = Unit
AreLinked before (a ∷ []) = Unit
AreLinked before (a ∷ b ∷ rows) = (before a b ≡ true) × AreLinked before (b ∷ rows)

-- What SQLite documents of `ORDER BY`: it adds no row, keeps all of them, and puts them in
-- the order, if any two rows can be compared.
pub record IsOrderBy (order_by : (Row → Row → Bool) → List Row → List Row) : Type 1 where
  pub adds_no_row :
      (before : Row → Row → Bool) (P : Row → Type 0) (rows : List Row)
      → All P rows
      → All P (order_by before rows)
  pub permutes : (before : Row → Row → Bool) (rows : List Row) → Perm (order_by before rows) rows
  pub in_order :
      (before : Row → Row → Bool)
      → ((a b : Row) → (before a b || before b a) ≡ true)
      → (rows : List Row) → AreLinked before (order_by before rows)

text_leb_total : (s t : Text) → (text_leb s t || text_leb t s) ≡ true
unfolding text_leb
text_leb_total [] t = refl
text_leb_total (c ∷ s) [] = refl
text_leb_total (c ∷ s) (d ∷ t) = ground (arith, text_leb_total s t)

int_leb_total : (m n : ℤ) → (int_leb m n || int_leb n m) ≡ true
unfolding int_leb
int_leb_total (pos m) (pos n) = ground arith
int_leb_total (pos m) (negsuc n) = refl
int_leb_total (negsuc m) (pos n) = refl
int_leb_total (negsuc m) (negsuc n) = ground arith

option_leb_total :
    {A : Type 0} (le : A → A → Bool)
    → ((a b : A) → (le a b || le b a) ≡ true)
    → (o p : Option A) → (option_leb le o p || option_leb le p o) ≡ true
unfolding option_leb
option_leb_total le total none none = refl
option_leb_total le total none (some b) = refl
option_leb_total le total (some a) none = refl
option_leb_total le total (some a) (some b) = total a b

column_leb_total :
    (key : EventSortKey) (a b : Row) → (column_leb key a b || column_leb key b a) ≡ true
unfolding column_leb
column_leb_total timestamp a b = text_leb_total a.timestamp b.timestamp
column_leb_total comm a b = option_leb_total text_leb text_leb_total a.comm b.comm
column_leb_total exit_code a b = option_leb_total int_leb int_leb_total a.exit_code b.exit_code

pub comes_first_total :
    (key : EventSortKey) (dir : SortDirection) (a b : Row)
    → (comes_first key dir a b || comes_first key dir b a) ≡ true
unfolding comes_first directed
comes_first_total key asc a b = ground (arith, column_leb_total key a b)
comes_first_total key desc a b = ground (arith, column_leb_total key a b)

-- What the order of the rows is to be: by the column of the key, in the direction, and the newest first
-- where the column does not tell.
abbrev pub at_most : EventSortKey → Row → Row → Bool
at_most timestamp a b = text_leb a.timestamp b.timestamp
at_most comm a b = option_leb text_leb a.comm b.comm
at_most exit_code a b = option_leb int_leb a.exit_code b.exit_code

abbrev pub Precedes : EventSortKey → SortDirection → Row → Row → Type 0
Precedes key asc a b =
    (at_most key b a ≡ false)
    ⊎ ((at_most key a b ≡ true) × (at_most key b a ≡ true) × (b.id ≤ a.id))
Precedes key desc a b =
    (at_most key a b ≡ false)
    ⊎ ((at_most key a b ≡ true) × (at_most key b a ≡ true) × (b.id ≤ a.id))

abbrev pub AreListed : EventSortKey → SortDirection → List Row → Type 0
AreListed key dir [] = Unit
AreListed key dir (a ∷ []) = Unit
AreListed key dir (a ∷ b ∷ rows) = Precedes key dir a b × AreListed key dir (b ∷ rows)

column_leb-at_most : (key : EventSortKey) (a b : Row) → column_leb key a b ≡ at_most key a b
unfolding column_leb
column_leb-at_most timestamp a b = refl
column_leb-at_most comm a b = refl
column_leb-at_most exit_code a b = refl

comes_first-Precedes :
    (key : EventSortKey) (dir : SortDirection) (a b : Row)
    → comes_first key dir a b ≡ true
    → Precedes key dir a b
unfolding comes_first directed
comes_first-Precedes key asc a b h =
    ground (arith, h, column_leb-at_most key a b, column_leb-at_most key b a)
comes_first-Precedes key desc a b h =
    ground (arith, h, column_leb-at_most key a b, column_leb-at_most key b a)

pub linked-AreListed :
    (key : EventSortKey) (dir : SortDirection) (rows : List Row)
    → AreLinked (comes_first key dir) rows
    → AreListed key dir rows
linked-AreListed key dir [] h = tt
linked-AreListed key dir (a ∷ []) h = tt
linked-AreListed key dir (a ∷ b ∷ rows) h =
    (comes_first-Precedes key dir a b h.0, linked-AreListed key dir (b ∷ rows) h.1)
