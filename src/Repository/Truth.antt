-- ===== src/Repository/Truth.antt =====
-- Lemmas on truth values and lists of tests.
use shellspectre.Base.{
  ◌≡◌, refl, ap, Bool, true, false, not, ◌&&◌, ◌||◌, Option, none, some, List, [], ◌∷◌, ◌++◌, Text,
  all, arith, length, get_elem?, if◌then◌else◌,
}
use shellspectre.Repository.Meaning.{Truth, or3, and3, and_all, is_true}
use shellspectre.Repository.Matching.{text_test}

pub is_true-and3 : (s t : Truth) → is_true (and3 s t) ≡ (is_true s && is_true t)
unfolding is_true and3
is_true-and3 (some true) t = refl
is_true-and3 (some false) t = refl
is_true-and3 none (some true) = refl
is_true-and3 none (some false) = refl
is_true-and3 none none = refl

pub is_true-and_all-append :
    (ss ts : List Truth)
    → is_true (and_all (ss ++ ts)) ≡ (is_true (and_all ss) && is_true (and_all ts))
unfolding and_all
is_true-and_all-append [] ts = unfold is_true in refl
is_true-and_all-append (s ∷ ss) ts = ground (
  arith,
  is_true-and3 s (and_all (ss ++ ts)),
  is_true-and3 s (and_all ss),
  is_true-and_all-append ss ts,
)

-- a parameter stands where it has been pushed
pub get_elem?-pushed :
    {A : Type 0} (xs ys : List A) (y : A) → get_elem? (xs ++ (y ∷ ys)) (length xs) ≡ some y
get_elem?-pushed [] ys y = refl
get_elem?-pushed (x ∷ xs) ys y = get_elem?-pushed xs ys y

pub all-append :
    (bs cs : List Bool) → all (λ b. b) (bs ++ cs) ≡ (all (λ b. b) bs && all (λ b. b) cs)
all-append [] cs = refl
all-append (b ∷ bs) cs = ground (arith, all-append bs cs)

pub is_true-one : (t : Truth) → is_true (and_all (t ∷ [])) ≡ is_true t
unfolding is_true and_all and3
is_true-one (some true) = refl
is_true-one (some false) = refl
is_true-one none = refl

pub is_true-or3-none : (t : Truth) → is_true (or3 none t) ≡ is_true t
unfolding is_true or3
is_true-or3-none (some true) = refl
is_true-or3-none (some false) = refl
is_true-or3-none none = refl

pub or3-some : (a b : Bool) → or3 (some a) (some b) ≡ some (a || b)
unfolding or3
or3-some true b = refl
or3-some false b = refl

pub and3-not : (a b : Bool) → and3 (some (not a)) (some (not b)) ≡ some (not (a || b))
unfolding and3
and3-not true b = refl
and3-not false b = refl

pub ||-false-right : (b : Bool) → (b || false) ≡ b
||-false-right true = refl
||-false-right false = refl

pub text_test-ext :
    {f g : Text → Bool} (o : Option Text) (neg : Bool)
    → ((s : Text) → f s ≡ g s)
    → text_test f o neg ≡ text_test g o neg
unfolding text_test
text_test-ext none neg h = refl
text_test-ext (some s) neg h = ap (λ b. if neg then not b else b) (h s)

pub &&-true-right : (b : Bool) → (b && true) ≡ b
&&-true-right true = refl
&&-true-right false = refl
