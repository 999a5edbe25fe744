-- ===== src/Cfg/Edges/Skeleton.antt =====
-- The steps of `Cfg::build` of src/decompile/cfg.rs that add edges leave the blocks themselves alone.
use droidsaw_hermes.Prelude.{ℕ, ◌≡◌, refl, ap, ◌∙◌, List, [], ◌∷◌, Option, none, arith, ◌↔◌}
use droidsaw_hermes.Cfg.{BasicBlock}
use droidsaw_hermes.Cfg.Blocks.Runs.{Cut, instructions_of}
use droidsaw_hermes.Cfg.Edges.{
  ids_of, with_edges, add_successors, edges, push_predecessor, push_predecessors, add_edges,
  first_id,
}

module _ {Op : Type 0} where
  -- A block without its edges and handlers.
  abbrev pub skeleton : BasicBlock Op → BasicBlock Op
  skeleton b = record {
    id = b.id;
    start = b.start;
    end = b.end;
    instructions = b.instructions;
    successors = [];
    predecessors = [];
    exc_handler = none;
    switch_string_ids = [];
  }

  abbrev pub skeletons : List (BasicBlock Op) → List (BasicBlock Op)
  skeletons [] = []
  skeletons (b ∷ bs) = skeleton b ∷ skeletons bs

  with_edges-skeleton :
      (code ids : List ℕ) (b : BasicBlock Op) (following : Option ℕ)
      → skeleton (with_edges code ids b following) ≡ skeleton b
  unfolding with_edges
  with_edges-skeleton code ids b following = ground arith

  add_successors-skeletons :
      (code ids : List ℕ) (bs : List (BasicBlock Op))
      → skeletons (add_successors code ids bs) ≡ skeletons bs
  unfolding add_successors
  add_successors-skeletons code ids [] = refl
  add_successors-skeletons code ids (b ∷ bs) =
      cc (with_edges-skeleton code ids b (first_id bs), add_successors-skeletons code ids bs)

  push_predecessor-skeletons :
      (from to : ℕ) (bs : List (BasicBlock Op))
      → skeletons (push_predecessor from to bs) ≡ skeletons bs
  unfolding push_predecessor
  push_predecessor-skeletons from to [] = refl
  push_predecessor-skeletons from to (b ∷ bs) =
      ground (arith, push_predecessor-skeletons from to bs)

  push_predecessors-skeletons :
      (es : List (ℕ × ℕ)) (bs : List (BasicBlock Op))
      → skeletons (push_predecessors es bs) ≡ skeletons bs
  unfolding push_predecessors
  push_predecessors-skeletons [] bs = refl
  push_predecessors-skeletons ((from, to) ∷ es) bs =
      push_predecessors-skeletons es (push_predecessor from to bs)
      ∙ push_predecessor-skeletons from to bs

  pub add_edges-skeletons :
      (code : List ℕ) (bs : List (BasicBlock Op)) → skeletons (add_edges code bs) ≡ skeletons bs
  unfolding add_edges
  add_edges-skeletons code bs =
      push_predecessors-skeletons (edges (add_successors code (ids_of bs) bs))
        (add_successors code (ids_of bs) bs)
      ∙ add_successors-skeletons code (ids_of bs) bs

  ids_of-skeletons : (bs : List (BasicBlock Op)) → ids_of (skeletons bs) ≡ ids_of bs
  ids_of-skeletons [] = refl
  ids_of-skeletons (b ∷ bs) = ap (λ (x : List ℕ). b.id ∷ x) (ids_of-skeletons bs)

  instructions_of-skeletons :
      (bs : List (BasicBlock Op)) → instructions_of (skeletons bs) ≡ instructions_of bs
  instructions_of-skeletons [] = refl
  instructions_of-skeletons (b ∷ bs) = rw (instructions_of-skeletons bs)

  pub ids_of_same :
      (bs cs : List (BasicBlock Op)) → skeletons bs ≡ skeletons cs → ids_of bs ≡ ids_of cs
  ids_of_same bs cs e = cc (ids_of-skeletons bs, ids_of-skeletons cs, ap ids_of e)

  pub instructions_of_same :
      (bs cs : List (BasicBlock Op))
      → skeletons bs ≡ skeletons cs
      → instructions_of bs ≡ instructions_of cs
  instructions_of_same bs cs e =
      cc (instructions_of-skeletons bs, instructions_of-skeletons cs, ap instructions_of e)

  Cut-skeletons :
      (starts : List ℕ) (at : ℕ) (bs : List (BasicBlock Op)) (stop : ℕ)
      → Cut starts at bs stop ↔ Cut starts at (skeletons bs) stop
  Cut-skeletons starts at [] stop = (λ h. h, λ h. h)
  Cut-skeletons starts at (b ∷ bs) stop =
      let rest = Cut-skeletons starts b.end bs stop in
      (λ h. (h.0, h.1, h.2, rest.0 h.3), λ h. (h.0, h.1, h.2, rest.1 h.3))

  pub Cut-same :
      (starts : List ℕ) (at : ℕ) (bs cs : List (BasicBlock Op)) (stop : ℕ)
      → skeletons bs ≡ skeletons cs
      → Cut starts at cs stop
      → Cut starts at bs stop
  Cut-same starts at bs cs stop e h =
      (Cut-skeletons starts at bs stop).1 (rw e ((Cut-skeletons starts at cs stop).0 h))
