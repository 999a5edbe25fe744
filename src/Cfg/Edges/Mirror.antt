-- ===== src/Cfg/Edges/Mirror.antt =====
-- The predecessors in src/decompile/cfg.rs mirror the successors.
use mathlib.Core.Path.{◌≡⟨◌⟩◌, ◌∎}
use droidsaw_hermes.Prelude.{
  ℕ, suc, ◌≡◌, ◌<◌, refl, ap, sym, ◌∙◌, true, false, List, [], ◌∷◌, ◌++◌, ◌==◌, arith,
  if◌then◌else◌, append-nil, append_assoc,
}
use droidsaw_hermes.Prelude.Sets.{count, contains, count-append, AscendsFrom}
use droidsaw_hermes.Cfg.{BasicBlock, none, Option}
use droidsaw_hermes.Cfg.Edges.{
  ids_of, add_successors, edges_from, edges, push_predecessor, push_predecessors, add_edges,
  with_edges, first_id,
}
use droidsaw_hermes.Cfg.Order.{successors_at}
use droidsaw_hermes.Cfg.Edges.Skeleton.{ids_of_same, add_edges-skeletons}

-- The starts of the edges to a block.
abbrev pub froms : ℕ → List (ℕ × ℕ) → List ℕ
froms t [] = []
froms t ((from, to) ∷ es) = if to == t then from ∷ froms t es else froms t es

froms-append : (t : ℕ) (es fs : List (ℕ × ℕ)) → froms t (es ++ fs) ≡ froms t es ++ froms t fs
froms-append t [] fs = refl
froms-append t ((from, to) ∷ es) fs = ground (arith, froms-append t es fs)

count-edges_from :
    (a t id : ℕ) (ss : List ℕ)
    → count a (froms t (edges_from id ss)) ≡ (if id == a then count t ss else 0)
unfolding edges_from count
count-edges_from a t id [] = ground arith
count-edges_from a t id (s ∷ ss) = ground (arith, count-edges_from a t id ss)

module _ {Op : Type 0} where
  abbrev pub predecessors_at : List (BasicBlock Op) → ℕ → List ℕ
  predecessors_at [] id = []
  predecessors_at (b ∷ bs) id = if b.id == id then b.predecessors else predecessors_at bs id

  -- An edge to a block is recorded there, and nothing else changes.
  push_predecessor-at :
      (from to t : ℕ) (bs : List (BasicBlock Op))
      → predecessors_at (push_predecessor from to bs) t ≡ (
          if to == t
          then (if contains (ids_of bs) t then predecessors_at bs t ++ from ∷ [] else [])
          else predecessors_at bs t)
  unfolding push_predecessor contains
  push_predecessor-at from to t [] = ground arith
  push_predecessor-at from to t (b ∷ bs) = ground (arith, push_predecessor-at from to t bs)

  push_predecessor-ids :
      (from to : ℕ) (bs : List (BasicBlock Op)) → ids_of (push_predecessor from to bs) ≡ ids_of bs
  unfolding push_predecessor
  push_predecessor-ids from to [] = refl
  push_predecessor-ids from to (b ∷ bs) = ground (arith, push_predecessor-ids from to bs)

  push_predecessor-successors :
      (from to i : ℕ) (bs : List (BasicBlock Op))
      → successors_at (push_predecessor from to bs) i ≡ successors_at bs i
  unfolding push_predecessor successors_at
  push_predecessor-successors from to i [] = refl
  push_predecessor-successors from to i (b ∷ bs) =
      ground (arith, push_predecessor-successors from to i bs)

  pub push_predecessors-successors :
      (es : List (ℕ × ℕ)) (i : ℕ) (bs : List (BasicBlock Op))
      → successors_at (push_predecessors es bs) i ≡ successors_at bs i
  unfolding push_predecessors
  push_predecessors-successors [] i bs = refl
  push_predecessors-successors ((from, to) ∷ es) i bs =
      push_predecessors-successors es i (push_predecessor from to bs)
      ∙ push_predecessor-successors from to i bs

  push_predecessors-at :
      (es : List (ℕ × ℕ)) (t : ℕ) (bs : List (BasicBlock Op))
      → contains (ids_of bs) t ≡ true
      → predecessors_at (push_predecessors es bs) t ≡ predecessors_at bs t ++ froms t es
  unfolding push_predecessors
  push_predecessors-at [] t bs h = sym (append-nil (predecessors_at bs t))
  push_predecessors-at ((from, to) ∷ es) t bs h = ground (
    arith,
    h,
    push_predecessors-at es t (push_predecessor from to bs),
    push_predecessor-at from to t bs,
    push_predecessor-ids from to bs,
    append_assoc (predecessors_at bs t) (from ∷ []) (froms t es),
  )

  count-edges_none :
      (a t lo : ℕ) (bs : List (BasicBlock Op))
      → AscendsFrom lo (ids_of bs)
      → a < lo
      → count a (froms t (edges bs)) ≡ 0
  unfolding edges count
  count-edges_none a t lo [] h l = refl
  count-edges_none a t lo (b ∷ bs) h l = ground (
    arith,
    h.0,
    froms-append t (edges_from b.id b.successors) (edges bs),
    count-append a (froms t (edges_from b.id b.successors)) (froms t (edges bs)),
    count-edges_from a t b.id b.successors,
    count-edges_none a t (suc b.id) bs h.1 (omega (arith, h.0, l)),
  )

  count-edges :
      (a t lo : ℕ) (bs : List (BasicBlock Op))
      → AscendsFrom lo (ids_of bs)
      → count a (froms t (edges bs)) ≡ count t (successors_at bs a)
  unfolding edges count successors_at
  count-edges a t lo [] h = refl
  count-edges a t lo (b ∷ bs) h = ground (
    arith,
    h.0,
    froms-append t (edges_from b.id b.successors) (edges bs),
    count-append a (froms t (edges_from b.id b.successors)) (froms t (edges bs)),
    count-edges_from a t b.id b.successors,
    count-edges a t (suc b.id) bs h.1,
    count-edges_none a t (suc b.id) bs h.1,
  )

  -- No block has edges or a handler yet.
  abbrev pub Fresh : List (BasicBlock Op) → Type 0
  Fresh [] = Unit
  Fresh (b ∷ bs) = (b.successors ≡ []) × (b.predecessors ≡ []) × (b.exc_handler ≡ none) × Fresh bs

  with_edges-id :
      (code ids : List ℕ) (b : BasicBlock Op) (following : Option ℕ)
      → ((with_edges code ids b following).id ≡ b.id)
        × ((with_edges code ids b following).predecessors ≡ b.predecessors)
  unfolding with_edges
  with_edges-id code ids b following = ground arith

  add_successors-ids :
      (code ids : List ℕ) (bs : List (BasicBlock Op))
      → ids_of (add_successors code ids bs) ≡ ids_of bs
  unfolding add_successors
  add_successors-ids code ids [] = refl
  add_successors-ids code ids (b ∷ bs) =
      cc ((with_edges-id code ids b (first_id bs)).0, add_successors-ids code ids bs)

  add_successors-predecessors :
      (code ids : List ℕ) (t : ℕ) (bs : List (BasicBlock Op))
      → Fresh bs
      → predecessors_at (add_successors code ids bs) t ≡ []
  unfolding add_successors
  add_successors-predecessors code ids t [] h = refl
  add_successors-predecessors code ids t (b ∷ bs) h = ground (
    arith,
    h.1,
    with_edges-id code ids b (first_id bs),
    add_successors-predecessors code ids t bs h.3,
  )

  pub add_edges-ids :
      (code : List ℕ) (bs : List (BasicBlock Op)) → ids_of (add_edges code bs) ≡ ids_of bs
  add_edges-ids code bs = ids_of_same (add_edges code bs) bs (add_edges-skeletons code bs)

  -- Between any two blocks there are as many entries among the predecessors of the second as among the
  -- successors of the first.
  pub add_edges-mirror :
      (code : List ℕ) (bs : List (BasicBlock Op)) (a t : ℕ)
      → AscendsFrom 0 (ids_of bs)
      → Fresh bs
      → contains (ids_of bs) t ≡ true
      → count a (predecessors_at (add_edges code bs) t)
        ≡ count t (successors_at (add_edges code bs) a)
  unfolding add_edges
  add_edges-mirror code bs a t ascends fresh here =
      let linked = add_successors code (ids_of bs) bs in
      let ids = add_successors-ids code (ids_of bs) bs in
      count a (predecessors_at (push_predecessors (edges linked) linked) t)
      ≡⟨ ap (count a) (push_predecessors-at (edges linked) t linked (rw ids here)) ⟩
        count a (predecessors_at linked t ++ froms t (edges linked))
      ≡⟨ ap (λ (x : List ℕ). count a (x ++ froms t (edges linked)))
          (add_successors-predecessors code (ids_of bs) t bs fresh) ⟩
        count a (froms t (edges linked))
      ≡⟨ count-edges a t 0 linked (rw ids ascends) ⟩ count t (successors_at linked a)
      ≡⟨ ap (count t) (sym (push_predecessors-successors (edges linked) a linked)) ⟩
        count t (successors_at (push_predecessors (edges linked) linked) a) ∎

  -- A number that no block has is without predecessors.
  pub predecessors_at_none :
      (bs : List (BasicBlock Op)) (t : ℕ)
      → contains (ids_of bs) t ≡ false
      → predecessors_at bs t ≡ []
  unfolding contains
  predecessors_at_none [] t h = refl
  predecessors_at_none (b ∷ bs) t h = ground (arith, h, predecessors_at_none bs t)
