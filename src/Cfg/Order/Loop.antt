-- ===== src/Cfg/Order/Loop.antt =====
-- The depth-first search of src/decompile/cfg.rs: its invariants, and that its fuel is enough.
use droidsaw_hermes.Prelude.{
  ℕ, zero, suc, ◌+◌, ◌*◌, ◌≤◌, ◌<◌, ◌≡◌, refl, Bool, true, false, List, [], ◌∷◌, ◌==◌, ◌⊎◌, inl,
  inr, length, if◌then◌else◌, arith, Bool-cases, All, ap, List-cases,
}
use droidsaw_hermes.Prelude.Sets.{count, contains, set_insert, contains-set_insert}
use droidsaw_hermes.Cfg.{BasicBlock}
use droidsaw_hermes.Cfg.Order.{Search, push_unvisited, successors_at, visit, search_loop, work}

abbrev pub weight : List (ℕ × Bool) → ℕ
weight [] = 0
weight ((id, true) ∷ st) = 1 + weight st
weight ((id, false) ∷ st) = 2 + weight st

-- How often a block is on the stack for its second visit.
abbrev pub open_count : ℕ → List (ℕ × Bool) → ℕ
open_count x [] = 0
open_count x ((id, true) ∷ st) = if x == id then suc (open_count x st) else open_count x st
open_count x ((id, false) ∷ st) = open_count x st

push_unvisited-weight :
    (visited ss : List ℕ) (st : List (ℕ × Bool))
    → weight (push_unvisited visited ss st) ≤ length ss * 2 + weight st
unfolding push_unvisited
push_unvisited-weight visited [] st = omega arith
push_unvisited-weight visited (s ∷ ss) st = ground (arith, push_unvisited-weight visited ss st)

push_unvisited-open :
    (x : ℕ) (visited ss : List ℕ) (st : List (ℕ × Bool))
    → open_count x (push_unvisited visited ss st) ≡ open_count x st
unfolding push_unvisited
push_unvisited-open x visited [] st = refl
push_unvisited-open x visited (s ∷ ss) st = ground (arith, push_unvisited-open x visited ss st)

-- The two entries of each edge of a block that is still to be visited.
abbrev pub pending : {Op : Type 0} → List ℕ → List (BasicBlock Op) → ℕ
pending visited [] = 0
pending visited (b ∷ bs) =
    (if contains visited b.id then 0 else length b.successors * 2) + pending visited bs

module _ {Op : Type 0} where
  pending-le :
      (visited : List ℕ) (id : ℕ) (bs : List (BasicBlock Op))
      → pending (set_insert id visited) bs ≤ pending visited bs
  pending-le visited id [] = omega arith
  pending-le visited id (b ∷ bs) =
      ground (arith, contains-set_insert id b.id visited, pending-le visited id bs)

  pending-visit :
      (visited : List ℕ) (id : ℕ) (bs : List (BasicBlock Op))
      → contains visited id ≡ false
      → pending (set_insert id visited) bs + length (successors_at bs id) * 2 ≤ pending visited bs
  unfolding successors_at
  pending-visit visited id [] new = omega arith
  pending-visit visited id (b ∷ bs) new = ground (
    arith,
    contains-set_insert id b.id visited,
    pending-le visited id bs,
    pending-visit visited id bs new,
  )

  pub pending-start : (bs : List (BasicBlock Op)) → pending [] bs ≡ work bs
  unfolding contains
  pending-start [] = refl
  pending-start (b ∷ bs) = omega (arith, pending-start bs)

-- Every number that is visited is on the stack for its second visit or behind it.
abbrev pub Balanced : ℕ → Search → Type 0
Balanced x s = count x s.post + open_count x s.stack ≡ (if contains s.visited x then 1 else 0)

-- Stack and visited numbers belong to blocks, for one number.
abbrev pub Inside : ℕ → List ℕ → Search → Type 0
Inside x ids s =
    All (λ (e : ℕ × Bool). contains ids e.0 ≡ true) s.stack
    × ((contains s.visited x ≡ false) ⊎ (contains ids x ≡ true))

-- The entry is at the bottom of the stack, for its second visit.
abbrev pub EndsWith : ℕ → List (ℕ × Bool) → Type 0
EndsWith e [] = ⊥
EndsWith e (x ∷ []) = (x.0 ≡ e) × (x.1 ≡ true)
EndsWith e (x ∷ y ∷ st) = EndsWith e (y ∷ st)

abbrev pub head_or : List ℕ → ℕ → ℕ
head_or [] d = d
head_or (x ∷ xs) d = x

-- The entry is still at the bottom, or it came last.
abbrev pub EntryLast : ℕ → Search → Type 0
EntryLast e s = EndsWith e s.stack ⊎ ((s.stack ≡ []) × (post : List ℕ) × (s.post ≡ e ∷ post))

pub weight-pos : (top : ℕ × Bool) (st : List (ℕ × Bool)) → 0 < weight (top ∷ st)
weight-pos (id, true) st = omega arith
weight-pos (id, false) st = omega arith

EndsWith-cons :
    (e : ℕ) (top : ℕ × Bool) (st : List (ℕ × Bool)) → EndsWith e st → EndsWith e (top ∷ st)
EndsWith-cons e top [] h = elim h [ ]
EndsWith-cons e top (y ∷ st) h = h

pub push_unvisited-EndsWith :
    (e : ℕ) (visited ss : List ℕ) (top : ℕ × Bool) (st : List (ℕ × Bool))
    → EndsWith e (top ∷ st)
    → EndsWith e (push_unvisited visited ss (top ∷ st))
unfolding push_unvisited
push_unvisited-EndsWith e visited [] top st h = h
push_unvisited-EndsWith e visited (s ∷ ss) top st h = elim (Bool-cases (contains visited s)) [
  | inl a ↦ rw (push_unvisited, a) (push_unvisited-EndsWith e visited ss top st h)
  | inr a ↦
      rw (push_unvisited, a)
        (EndsWith-cons e (s, false) (push_unvisited visited ss (top ∷ st))
          (push_unvisited-EndsWith e visited ss top st h))
]

push_unvisited-All :
    (ids visited ss : List ℕ) (st : List (ℕ × Bool))
    → All (λ (s : ℕ). contains ids s ≡ true) ss
    → All (λ (e : ℕ × Bool). contains ids e.0 ≡ true) st
    → All (λ (e : ℕ × Bool). contains ids e.0 ≡ true) (push_unvisited visited ss st)
unfolding push_unvisited
push_unvisited-All ids visited [] st h k = k
push_unvisited-All ids visited (s ∷ ss) st h k = elim (Bool-cases (contains visited s)) [
  | inl a ↦ rw (push_unvisited, a) (push_unvisited-All ids visited ss st h.1 k)
  | inr a ↦ rw (push_unvisited, a) (h.0, push_unvisited-All ids visited ss st h.1 k)
]

module _ {Op : Type 0} (blocks : List (BasicBlock Op)) where
  abbrev pub measure : Search → ℕ
  measure s = weight s.stack + pending s.visited blocks

  pub visit-measure :
      (id : ℕ) (flag : Bool) (st : List (ℕ × Bool)) (s : Search)
      → measure (visit blocks id flag st s) < weight ((id, flag) ∷ st) + pending s.visited blocks
  unfolding visit
  visit-measure id true st s = omega arith
  visit-measure id false st s = ground (
    arith,
    pending-visit s.visited id blocks,
    push_unvisited-weight (set_insert id s.visited) (successors_at blocks id) ((id, true) ∷ st),
  )

  pub visit-Balanced :
      (x id : ℕ) (flag : Bool) (st : List (ℕ × Bool)) (s : Search)
      → count x s.post + open_count x ((id, flag) ∷ st) ≡ (if contains s.visited x then 1 else 0)
      → Balanced x (visit blocks id flag st s)
  unfolding visit count
  visit-Balanced x id true st s h = ground (arith, h)
  visit-Balanced x id false st s h = ground (
    arith,
    h,
    contains-set_insert id x s.visited,
    push_unvisited-open x (set_insert id s.visited) (successors_at blocks id) ((id, true) ∷ st),
  )

  pub visit-EntryLast :
      (e id : ℕ) (flag : Bool) (st : List (ℕ × Bool)) (s : Search)
      → EndsWith e ((id, flag) ∷ st)
      → EntryLast e (visit blocks id flag st s)
  unfolding visit
  visit-EntryLast e id true [] s h = inr (refl, s.post, ap (λ (x : ℕ). x ∷ s.post) h.0)
  visit-EntryLast e id true (y ∷ st) s h = inl h
  visit-EntryLast e id false [] s h = cc
  visit-EntryLast e id false (y ∷ st) s h = elim (Bool-cases (contains s.visited id)) [
    | inl a ↦ rw (visit, a) (inl h)
    | inr a ↦
        rw (visit, a)
          (inl (
            push_unvisited-EndsWith e (set_insert id s.visited) (successors_at blocks id) (id, true)
              (y ∷ st) h))
  ]

  pub visit-Inside :
      (x : ℕ) (ids : List ℕ) (id : ℕ) (flag : Bool) (st : List (ℕ × Bool)) (s : Search)
      → ((i : ℕ) → All (λ (t : ℕ). contains ids t ≡ true) (successors_at blocks i))
      → contains ids id ≡ true
      → Inside x ids (record { visited = s.visited; post = s.post; stack = st })
      → Inside x ids (visit blocks id flag st s)
  unfolding visit
  visit-Inside x ids id true st s closed here (a, v) = (a, v)
  visit-Inside x ids id false st s closed here (a, v) = elim (Bool-cases (contains s.visited id)) [
    | inl c ↦ rw (visit, c) (a, v)
    | inr c ↦
        rw (visit, c)
          (
            push_unvisited-All ids (set_insert id s.visited) (successors_at blocks id)
                ((id, true) ∷ st) (closed id) (here, a),
            ground (arith, v, here, contains-set_insert id x s.visited),
          )
  ]

  -- What every round keeps, the loop keeps.
  pub search_loop_inv {κ} :
      (Holds : Search → Type κ)
      → ((top : ℕ × Bool) (st : List (ℕ × Bool)) (s : Search)
          → s.stack ≡ top ∷ st
          → Holds s
          → Holds (visit blocks top.0 top.1 st s))
      → (fuel : ℕ) (s : Search) → Holds s
      → Holds (search_loop blocks fuel s)
  unfolding search_loop
  search_loop_inv Holds keep zero s h = h
  search_loop_inv Holds keep (suc fuel) s h = elim (List-cases s.stack) [
    | inl e ↦ rw (e, search_loop) h
    | inr (top, st, e) ↦
        rw (e, search_loop)
          (search_loop_inv Holds keep fuel (visit blocks top.0 top.1 st s) (keep top st s e h))
  ]

  -- With fuel for all that is left to do, the search ends with an empty stack.
  pub search_loop-stack :
      (fuel : ℕ) (s : Search) → measure s ≤ fuel → (search_loop blocks fuel s).stack ≡ []
  unfolding search_loop
  search_loop-stack zero s h = elim (List-cases s.stack) [
    | inl e ↦ e
    | inr (top, st, e) ↦ absurd (omega (arith, h, weight-pos top st, ap weight e))
  ]
  search_loop-stack (suc fuel) s h = elim (List-cases s.stack) [
    | inl e ↦ rw (e, search_loop) e
    | inr (top, st, e) ↦
        let less = visit-measure top.0 top.1 st s in
        rw (e, search_loop)
          (search_loop-stack fuel (visit blocks top.0 top.1 st s)
            (omega (arith, h, less, ap weight e)))
  ]
