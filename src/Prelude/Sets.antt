-- ===== src/Prelude/Sets.antt =====
-- Sets of numbers as ascending lists, and how often a number stands in a list.
use Prim.Native.Nat.{ℕ, suc, ◌+◌, ◌≤◌, ◌<◌}
use mathlib.Core.Path.{◌≡◌, refl}
use mathlib.Core.Logic.{inl, inr}
use mathlib.Core.Bool.{Bool, true, false, ◌||◌}
use mathlib.Core.List.{List, [], ◌∷◌, ◌++◌}
use native.Mathlib.Omega.{arith}
use droidsaw_hermes.Prelude.Tests.{ltb, ◌==◌, if◌then◌else◌, Bool-cases}
use droidsaw_hermes.Prelude.Lists.{All}
use droidsaw_hermes.Prelude.{subst}

-- How often `x` stands in the list.
unfoldable pub count : ℕ → List ℕ → ℕ
count x [] = 0
count x (y ∷ ys) = if x == y then suc (count x ys) else count x ys

unfoldable pub contains : List ℕ → ℕ → Bool
contains [] x = false
contains (y ∷ ys) x = y == x || contains ys x

-- `BTreeSet::insert`
unfoldable pub set_insert : ℕ → List ℕ → List ℕ
set_insert x [] = x ∷ []
set_insert x (y ∷ ys) =
    let more = set_insert x ys in
    if ltb x y then x ∷ y ∷ ys else if x == y then y ∷ ys else y ∷ more

-- The numbers ascend strictly, all at least `lo`.
abbrev pub AscendsFrom : ℕ → List ℕ → Type 0
AscendsFrom lo [] = Unit
AscendsFrom lo (x ∷ xs) = (lo ≤ x) × AscendsFrom (suc x) xs

pub count-append : (x : ℕ) (xs ys : List ℕ) → count x (xs ++ ys) ≡ count x xs + count x ys
unfolding count
count-append x [] ys = omega arith
count-append x (y ∷ xs) ys = ground (arith, count-append x xs ys)

pub contains-set_insert :
    (x y : ℕ) (ys : List ℕ) → contains (set_insert x ys) y ≡ (x == y || contains ys y)
unfolding contains set_insert
contains-set_insert x y [] = refl
contains-set_insert x y (z ∷ ys) = ground (arith, contains-set_insert x y ys)

-- Behind a bound a number does not stand.
pub count-below : (lo x : ℕ) (xs : List ℕ) → AscendsFrom lo xs → x < lo → count x xs ≡ 0
unfolding count
count-below lo x [] h l = refl
count-below lo x (y ∷ ys) h l = ground (arith, h, count-below (suc y) x ys h.1)

-- In an ascending list a number stands once if it is found, and not at all else.
pub count-AscendsFrom :
    (lo x : ℕ) (xs : List ℕ) → AscendsFrom lo xs → count x xs ≡ (if contains xs x then 1 else 0)
unfolding count contains
count-AscendsFrom lo x [] h = refl
count-AscendsFrom lo x (y ∷ ys) h =
    ground (arith, count-AscendsFrom (suc y) x ys h.1, count-below (suc y) x ys h.1)

pub contains-count :
    (x : ℕ) (xs : List ℕ) → contains xs x ≡ (if count x xs == 0 then false else true)
unfolding contains count
contains-count x [] = refl
contains-count x (y ∷ ys) = ground (arith, contains-count x ys)

-- What holds of every number that stands in a list holds along it, and the other way round.
pub contains-All {κ} :
    (Holds : ℕ → Type κ) (xs : List ℕ) → ((v : ℕ) → contains xs v ≡ true → Holds v) → All Holds xs
unfolding contains
contains-All Holds [] h = tt
contains-All Holds (x ∷ xs) h =
    (h x (ground arith), contains-All Holds xs (λ v k. h v (ground (arith, k))))

pub All-contains {κ} :
    (Holds : ℕ → Type κ) (xs : List ℕ) (v : ℕ) → All Holds xs → contains xs v ≡ true → Holds v
unfolding contains
All-contains Holds [] v h k = cc
All-contains Holds (x ∷ xs) v h k = elim (Bool-cases (x == v)) [
  | inl q ↦ let e : x ≡ v = ground (arith, q) in subst Holds e h.0
  | inr q ↦ All-contains Holds xs v h.1 (ground (arith, q, k))
]

pub AscendsFrom-le : (lo lo' : ℕ) (xs : List ℕ) → lo ≤ lo' → AscendsFrom lo' xs → AscendsFrom lo xs
AscendsFrom-le lo lo' [] l h = tt
AscendsFrom-le lo lo' (x ∷ xs) l h = (omega (arith, l, h.0), h.1)
