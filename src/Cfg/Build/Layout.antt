-- ===== src/Cfg/Build/Layout.antt =====
-- The test on the layout of catch blocks in src/decompile/cfg.rs.
use droidsaw_hermes.Prelude.{
  ℕ, suc, ◌<◌, ◌≡◌, refl, ap, true, List, [], ◌∷◌, ◌++◌, Option, none, some, ◌==◌, leb, arith,
  Bool-cases, inl, inr, Option-cases,
}
use droidsaw_hermes.Prelude.Sets.{contains}
use droidsaw_hermes.Errors.{ok}
use droidsaw_hermes.Cfg.{BasicBlock}
use droidsaw_hermes.Cfg.Order.{index_of}
use droidsaw_hermes.Cfg.Build.{check_layout}

-- The first stands in the list before a place of the second.
abbrev pub Before : List ℕ → ℕ → ℕ → Type 0
Before order x y =
    (front : List ℕ) × (back : List ℕ) × (order ≡ front ++ y ∷ back) × (contains front x ≡ true)

index_of-contains :
    (xs : List ℕ) (x : ℕ) → contains xs x ≡ true → (i : ℕ) × (index_of xs x ≡ some i)
unfolding contains index_of
index_of-contains [] x h = cc
index_of-contains (y ∷ ys) x h = elim (Bool-cases (y == x)) [
  | inl a ↦ (0, rw a refl)
  | inr a ↦
      let (i, e) = index_of-contains ys x (ground (arith, a, h)) in
      (suc i, rw (index_of, a, e) refl)
]

index_of-split :
    (xs : List ℕ) (y j : ℕ)
    → index_of xs y ≡ some j
    → (front : List ℕ) × (back : List ℕ) × (xs ≡ front ++ y ∷ back)
unfolding index_of
index_of-split [] y j h = cc
index_of-split (z ∷ zs) y j h = elim (Bool-cases (z == y)) [
  | inl a ↦ ([], zs, let e : z ≡ y = ground (arith, a) in rw e)
  | inr a ↦ elim (Option-cases (index_of zs y)) [
    | inl e ↦ let bad = rw (index_of, a, e) at h in cc
    | inr (k, e) ↦
        let (front, back, s) = index_of-split zs y k e in
        (z ∷ front, back, ap (λ (x : List ℕ). z ∷ x) s)
  ]
]

index_of-Before :
    (xs : List ℕ) (x y i j : ℕ)
    → index_of xs x ≡ some i
    → index_of xs y ≡ some j
    → i < j
    → Before xs x y
unfolding index_of contains
index_of-Before [] x y i j h k l = cc
index_of-Before (z ∷ zs) x y i j h k l = elim (Bool-cases (z == y)) [
  | inl a ↦ let first = rw (index_of, a) at k in absurd (ground (arith, first, l))
  | inr a ↦ elim (Option-cases (index_of zs y)) [
    | inl e ↦ let bad = rw (index_of, a, e) at k in cc
    | inr (j', e) ↦
        let later : suc j' ≡ j = let q = rw (index_of, a, e) at k in ground (arith, q) in
        elim (Bool-cases (z == x)) [
          | inl b ↦
              let (front, back, s) = index_of-split zs y j' e in
              (z ∷ front, back, ap (λ (w : List ℕ). z ∷ w) s, ground (arith, b))
          | inr b ↦ elim (Option-cases (index_of zs x)) [
            | inl f ↦ let bad = rw (index_of, b, f) at h in cc
            | inr (i', f) ↦
                let same : suc i' ≡ i = let q = rw (index_of, b, f) at h in ground (arith, q) in
                let (front, back, s, c) =
                  index_of-Before zs x y i' j' f e (omega (arith, l, same, later)) in
                (z ∷ front, back, ap (λ (w : List ℕ). z ∷ w) s, ground (arith, c))
          ]
        ]
  ]
]

-- A number that there may be is in a list.
abbrev pub NoneOrIn : List ℕ → Option ℕ → Type 0
NoneOrIn ids none = Unit
NoneOrIn ids (some c) = contains ids c ≡ true

module _ {Op : Type 0} (order : List ℕ) where
  -- Every catch block comes behind the blocks that it handles.
  abbrev pub LaidOut : List (BasicBlock Op) → Type 0
  LaidOut [] = Unit
  LaidOut (b ∷ bs) =
      elim b.exc_handler [ none ↦ Unit {0} | some catch ↦ Before order b.id catch ] × LaidOut bs

  -- The blocks and their catch blocks are in the order.
  abbrev pub Ordered : List (BasicBlock Op) → Type 0
  Ordered [] = Unit
  Ordered (b ∷ bs) = (contains order b.id ≡ true) × NoneOrIn order b.exc_handler × Ordered bs

  pub check_layout-LaidOut :
      (bs : List (BasicBlock Op)) → Ordered bs → check_layout order bs ≡ ok tt → LaidOut bs
  unfolding check_layout
  check_layout-LaidOut [] o h = tt
  check_layout-LaidOut (b ∷ bs) o h = elim (Option-cases b.exc_handler) [
    | inl e ↦ rw e (tt, check_layout-LaidOut bs o.2 (rw (check_layout, e) at h))
    | inr (catch, e) ↦
        let (i, hi) = index_of-contains order b.id o.0 in
        let (j, hj) = index_of-contains order catch (rw e at (o.1)) in
        elim (Bool-cases (leb j i)) [
          | inl a ↦ let bad = rw (check_layout, e, hi, hj, a) at h in cc
          | inr a ↦ rw e (
            index_of-Before order b.id catch i j hi hj (ground (arith, a)),
            check_layout-LaidOut bs o.2 (rw (check_layout, e, hi, hj, a) at h),
          )
        ]
  ]
