-- ===== src/Cfg/Build/Graph.antt =====
-- What a control-flow graph that `Cfg::build` of src/decompile/cfg.rs returns satisfies.
use droidsaw_hermes.Prelude.{ℕ, ◌≤◌, ◌≡◌, refl, ◌∙◌, subst, List, [], ◌∷◌, inl, inr, List-cases}
use droidsaw_hermes.Errors.{ok, ok-injective, >>=-eq-ok}
use droidsaw_hermes.Sections.{u32_max}
use droidsaw_hermes.Decode.{DecodedInst}
use droidsaw_hermes.Cfg.{BasicBlock, ExcHandler, Cfg}
use droidsaw_hermes.Cfg.Boundaries.{boundaries}
use droidsaw_hermes.Cfg.Boundaries.Starts.{boundaries-zero}
use droidsaw_hermes.Cfg.Blocks.{split_blocks}
use droidsaw_hermes.Cfg.Blocks.Runs.{Consecutive, Cut, instructions_of}
use droidsaw_hermes.Cfg.Blocks.Partition.{split_blocks-Cut}
use droidsaw_hermes.Cfg.Blocks.Fresh.{split_blocks-Fresh}
use droidsaw_hermes.Cfg.Edges.{ids_of, add_edges}
use droidsaw_hermes.Cfg.Edges.Skeleton.{add_edges-skeletons, instructions_of_same}
use droidsaw_hermes.Cfg.Edges.Mirror.{Fresh}
use droidsaw_hermes.Cfg.Handlers.{map_handlers}
use droidsaw_hermes.Cfg.Handlers.Regions.{
  Handled, map_handlers-Handled, Handled-skeletons, ValidTargets, map_handlers-ValidTargets,
  caught_by, exc_predecessors_loop-caught_by,
}
use droidsaw_hermes.Cfg.Order.{reverse_post_order}
use droidsaw_hermes.Cfg.Build.{build, finish, check_layout}
use droidsaw_hermes.Cfg.Order.Permutes.{reverse_post_order-entry}

module _ {Op : Type 0} (b : BasicBlock Op) (bs : List (BasicBlock Op)) where
  -- A graph that is finished has these parts.
  pub record Finished (cfg : Cfg Op) : Type 0 where
    pub blocks_are : cfg.blocks ≡ b ∷ bs
    pub order_is : cfg.block_order ≡ reverse_post_order (b ∷ bs) b.id
    pub entry_is : cfg.entry ≡ b.id
    pub layout : check_layout (reverse_post_order (b ∷ bs) b.id) (b ∷ bs) ≡ ok tt
    pub catches : (c : ℕ) → cfg.exc_predecessors c ≡ caught_by c (b ∷ bs)

  pub finish-Finished : (cfg : Cfg Op) → finish (b ∷ bs) ≡ ok cfg → Finished cfg
  unfolding finish
  finish-Finished cfg h =
      let order = reverse_post_order (b ∷ bs) b.id in
      let (checked, layout, q) = >>=-eq-ok (check_layout order (b ∷ bs)) _ h in
      let (rest, first) = reverse_post_order-entry (b ∷ bs) b.id in
      subst Finished (ok-injective refl q) (record {
        blocks_are = refl;
        order_is = refl;
        entry_is = rw first refl;
        layout = layout;
        catches = exc_predecessors_loop-caught_by (b ∷ bs) (λ _. []);
      })

module _ {Op : Type 0} (insts : List (DecodedInst Op)) (ehs : List ExcHandler) (code : List ℕ) where
  -- The results of the steps.
  pub record Steps (stop : ℕ) (cfg : Cfg Op) : Type 0 where
    pub starts : List ℕ
    pub blocks : List (BasicBlock Op)
    pub first : BasicBlock Op
    pub rest : List (BasicBlock Op)
    pub starts_are : boundaries insts ehs code ≡ ok starts
    pub cut : Cut starts 0 blocks stop
    pub all : instructions_of blocks ≡ insts
    pub fresh : Fresh blocks
    pub handled : Handled ehs (add_edges code blocks) (first ∷ rest)
    pub valid : ValidTargets (ids_of (add_edges code blocks)) ehs
    pub finished : finish (first ∷ rest) ≡ ok cfg

module _ {Op : Type 0} (i : DecodedInst Op) (is : List (DecodedInst Op)) (ehs : List ExcHandler)
    (code : List ℕ) (stop : ℕ) (small : stop ≤ u32_max)
    (consecutive : Consecutive 0 (i ∷ is) stop) where
  pub build-Steps :
      (cfg : Cfg Op) → build (i ∷ is) ehs code ≡ ok cfg → Steps (i ∷ is) ehs code stop cfg
  unfolding build
  build-Steps cfg h =
      let (starts, s, h1) = >>=-eq-ok (boundaries (i ∷ is) ehs code) _ h in
      let (blocks, b, h2) = >>=-eq-ok (split_blocks starts (i ∷ is)) _ h1 in
      let linked = add_edges code blocks in
      let (out, m, f) = >>=-eq-ok (map_handlers (ids_of linked) ehs linked) finish h2 in
      let (blocks', b', cut, all) =
        split_blocks-Cut starts (i ∷ is) stop (boundaries-zero (i ∷ is) ehs code starts s) small
          consecutive in
      let same : blocks' ≡ blocks = ok-injective b' b in
      let handled = map_handlers-Handled (ids_of linked) ehs linked out m in
      elim (List-cases out) [
        | inl e ↦
            let none_left =
              instructions_of_same out blocks
                (Handled-skeletons ehs linked out handled ∙ add_edges-skeletons code blocks) in
            let none_left' = rw e at none_left in
            let all' : instructions_of blocks ≡ i ∷ is = rw same at all in cc
        | inr (first, rest, e) ↦ record {
          starts = starts;
          blocks = blocks;
          first = first;
          rest = rest;
          starts_are = s;
          cut = rw same at cut;
          all = rw same at all;
          fresh = split_blocks-Fresh starts (i ∷ is) blocks b;
          handled = rw e at handled;
          valid = map_handlers-ValidTargets (ids_of linked) ehs linked out m;
          finished = rw e at f;
        }
      ]
