-- ===== src/Spans/Apart.antt =====
-- What the test of neighbours in src/parser/mod.rs shows for all pairs of functions.
use mathlib.Core.List.{Perm}
use mathlib.Core.List.Perm
use droidsaw_hermes.Prelude.{
  ℕ, ◌+◌, ◌≤◌, ◌≡◌, ◌⊎◌, List, [], ◌∷◌, Bool-cases, leb, inl, inr, arith, tests, All,
}
use droidsaw_hermes.Errors.{ok, >>=-eq-ok}
use droidsaw_hermes.Spans.{
  FnSpan, Dedups, insert_by_offset, sort_by_offset, same_body, check_pair, check_pairs,
  check_overlaps, no_dedups, count_dedup, check_dedups,
}

-- The offsets do not fall, from at least `lo` on.
abbrev pub RisesFrom : ℕ → List FnSpan → Type 0
RisesFrom lo [] = Unit
RisesFrom lo (x ∷ xs) = (lo ≤ x.offset) × RisesFrom x.offset xs

insert_by_offset-RisesFrom :
    (lo : ℕ) (x : FnSpan) (ys : List FnSpan)
    → lo ≤ x.offset
    → RisesFrom lo ys
    → RisesFrom lo (insert_by_offset x ys)
unfolding insert_by_offset
insert_by_offset-RisesFrom lo x [] l h = (l, tt)
insert_by_offset-RisesFrom lo x (y ∷ ys) l h = elim (Bool-cases (leb x.offset y.offset)) [
  | inl t ↦
      let above : RisesFrom x.offset (y ∷ ys) = (omega (tests, t), h.1) in
      rw (insert_by_offset, t) (l, above)
  | inr t ↦
      let below : y.offset ≤ x.offset = ground (arith, t) in
      rw (insert_by_offset, t) (h.0, insert_by_offset-RisesFrom y.offset x ys below h.1)
]

insert_by_offset-Perm : (x : FnSpan) (ys : List FnSpan) → Perm (insert_by_offset x ys) (x ∷ ys)
unfolding insert_by_offset
insert_by_offset-Perm x [] = Perm.refl (x ∷ [])
insert_by_offset-Perm x (y ∷ ys) = elim (Bool-cases (leb x.offset y.offset)) [
  | inl t ↦ rw (insert_by_offset, t) (Perm.refl (x ∷ y ∷ ys))
  | inr t ↦
      rw (insert_by_offset, t)
        (Perm.trans (Perm.cons y (insert_by_offset-Perm x ys)) (Perm.swap x y ys))
]

pub sort_by_offset-RisesFrom : (xs : List FnSpan) → RisesFrom 0 (sort_by_offset xs)
unfolding sort_by_offset
sort_by_offset-RisesFrom [] = tt
sort_by_offset-RisesFrom (x ∷ xs) =
    insert_by_offset-RisesFrom 0 x (sort_by_offset xs) (omega arith) (sort_by_offset-RisesFrom xs)

sort_by_offset-Perm : (xs : List FnSpan) → Perm (sort_by_offset xs) xs
unfolding sort_by_offset
sort_by_offset-Perm [] = Perm.refl []
sort_by_offset-Perm (x ∷ xs) =
    Perm.trans (insert_by_offset-Perm x (sort_by_offset xs)) (Perm.cons x (sort_by_offset-Perm xs))

-- Two functions share a body, or the first one's ends before the second one's starts.
abbrev pub Separate : FnSpan → FnSpan → Type 0
Separate a b = ((a.offset ≡ b.offset) × (a.size ≡ b.size)) ⊎ (a.offset + a.size ≤ b.offset)

-- All pairs are so.
abbrev pub AllSeparate : List FnSpan → Type 0
AllSeparate [] = Unit
AllSeparate (a ∷ rest) = All (Separate a) rest × AllSeparate rest

check_pair-Separate : (a b : FnSpan) → check_pair a b ≡ ok tt → Separate a b
unfolding check_pair same_body
check_pair-Separate a b h = elim (Bool-cases (same_body a b)) [
  | inl t ↦ inl (ground (arith, t), ground (arith, t))
  | inr t ↦ inr (ground (arith, t, h))
]

Separate-behind :
    (a : FnSpan) (lo : ℕ) (rest : List FnSpan)
    → a.offset + a.size ≤ lo
    → RisesFrom lo rest
    → All (Separate a) rest
Separate-behind a lo [] l h = tt
Separate-behind a lo (c ∷ rest) l h =
    (inr (omega (arith, l, h.0)), Separate-behind a c.offset rest (omega (arith, l, h.0)) h.1)

Separate-shared :
    (a b : FnSpan) (rest : List FnSpan)
    → a.offset ≡ b.offset
    → a.size ≡ b.size
    → All (Separate b) rest
    → All (Separate a) rest
Separate-shared a b [] p q h = tt
Separate-shared a b (c ∷ rest) p q h = (ground (arith, p, q, h.0), Separate-shared a b rest p q h.1)

pub check_pairs-AllSeparate :
    (lo : ℕ) (spans : List FnSpan) (d : Dedups) {out : Dedups}
    → RisesFrom lo spans
    → check_pairs spans d ≡ ok out
    → AllSeparate spans
unfolding check_pairs
check_pairs-AllSeparate lo [] d r h = tt
check_pairs-AllSeparate lo (a ∷ []) d r h = (tt, tt)
check_pairs-AllSeparate lo (a ∷ b ∷ rest) d r h =
    let (_, one, more) = >>=-eq-ok (check_pair a b) _ h in
    let later = check_pairs-AllSeparate a.offset (b ∷ rest) (count_dedup d a b) r.1 more in
    elim (check_pair-Separate a b one) [
      | inl shared ↦ ((inl shared, Separate-shared a b rest shared.0 shared.1 later.0), later)
      | inr behind ↦ ((inr behind, Separate-behind a b.offset rest behind r.1.1), later)
    ]

-- If the second pass accepts the functions, there is an order of them in which any two share a body
-- or the first one's ends before the second one's starts, and the offsets do not fall.
pub check_overlaps-AllSeparate :
    (spans : List FnSpan)
    → check_overlaps spans ≡ ok tt
    → (ordered : List FnSpan) × Perm ordered spans × RisesFrom 0 ordered × AllSeparate ordered
unfolding check_overlaps
check_overlaps-AllSeparate spans h =
    let (_, pairs, _) = >>=-eq-ok (check_pairs (sort_by_offset spans) no_dedups) check_dedups h in
    let rises = sort_by_offset-RisesFrom spans in
    (
      sort_by_offset spans,
      sort_by_offset-Perm spans,
      rises,
      check_pairs-AllSeparate 0 (sort_by_offset spans) no_dedups rises pairs,
    )
