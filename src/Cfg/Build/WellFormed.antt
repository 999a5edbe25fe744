-- ===== src/Cfg/Build/WellFormed.antt =====
-- The invariants of the graphs that `Cfg::build` of src/decompile/cfg.rs returns.
use droidsaw_hermes.Prelude.{
  ℕ, ◌≤◌, ◌≡◌, sym, ap, ◌∙◌, subst, true, List, ◌∷◌, arith, inl, inr, Bool-cases,
}
use droidsaw_hermes.Prelude.Sets.{count, contains, AscendsFrom, contains-count, contains-All}
use droidsaw_hermes.Errors.{ok}
use droidsaw_hermes.Sections.{u32_max}
use droidsaw_hermes.Decode.{DecodedInst}
use droidsaw_hermes.Cfg.{BasicBlock, ExcHandler, Cfg}
use droidsaw_hermes.Cfg.Boundaries.{boundaries}
use droidsaw_hermes.Cfg.Blocks.Runs.{Consecutive, Cut, Cut-AscendsFrom, instructions_of}
use droidsaw_hermes.Cfg.Edges.{ids_of, add_edges}
use droidsaw_hermes.Cfg.Edges.Skeleton.{
  skeletons, add_edges-skeletons, ids_of_same, instructions_of_same, Cut-same,
}
use droidsaw_hermes.Cfg.Edges.Mirror.{predecessors_at, add_edges-mirror, predecessors_at_none}
use droidsaw_hermes.Cfg.Edges.Closed.{AllIn, add_edges-AllIn, AllIn-count}
use droidsaw_hermes.Cfg.Handlers.Regions.{Handled-skeletons, Handled-edges, ValidTargets, caught_by}
use droidsaw_hermes.Cfg.Order.{successors_at, reverse_post_order}
use droidsaw_hermes.Cfg.Order.Permutes.{reverse_post_order-count, reverse_post_order-entry}
use droidsaw_hermes.Cfg.Build.{build}
use droidsaw_hermes.Cfg.Build.Layout.{LaidOut, check_layout-LaidOut}
use droidsaw_hermes.Cfg.Build.Graph.{Steps, build-Steps, finish-Finished}
use droidsaw_hermes.Cfg.Build.Catches.{
  RegionHandlers, add_edges-NoHandlers, Handled-RegionHandlers, RegionHandlers-Ordered,
}

module _ {Op : Type 0} {insts : List (DecodedInst Op)} {ehs : List ExcHandler} {code : List ℕ}
    {stop : ℕ} {cfg : Cfg Op} (s : Steps insts ehs code stop cfg) where
  abbrev final : List (BasicBlock Op)
  final = s.first ∷ s.rest

  final-skeletons : skeletons final ≡ skeletons s.blocks
  final-skeletons =
      Handled-skeletons ehs (add_edges code s.blocks) final s.handled
      ∙ add_edges-skeletons code s.blocks

  final-ids : ids_of final ≡ ids_of s.blocks
  final-ids = ids_of_same final s.blocks final-skeletons

  final-Cut : Cut s.starts 0 final stop
  final-Cut = Cut-same s.starts 0 final s.blocks stop final-skeletons s.cut

  final-AscendsFrom : AscendsFrom 0 (ids_of final)
  final-AscendsFrom = Cut-AscendsFrom s.starts 0 final stop final-Cut

  final-AllIn : (i : ℕ) → AllIn (ids_of final) (successors_at final i)
  final-AllIn i =
      rw (final-ids, (Handled-edges ehs i (add_edges code s.blocks) final s.handled).0)
        (add_edges-AllIn code s.blocks i s.fresh)

  final-mirror : (a t : ℕ) → count a (predecessors_at final t) ≡ count t (successors_at final a)
  unfolding count
  final-mirror a t = elim (Bool-cases (contains (ids_of final) t)) [
    | inl here ↦
        rw
          (
            (Handled-edges ehs t (add_edges code s.blocks) final s.handled).1,
            (Handled-edges ehs a (add_edges code s.blocks) final s.handled).0,
          )
          (add_edges-mirror code s.blocks a t (Cut-AscendsFrom s.starts 0 s.blocks stop s.cut)
            s.fresh (rw final-ids at here))
    | inr none_there ↦
        rw (predecessors_at_none final t none_there)
          (sym (AllIn-count (ids_of final) (successors_at final a) t (final-AllIn a) none_there))
  ]

  final-order : (x : ℕ) → count x (reverse_post_order final s.first.id) ≡ count x (ids_of final)
  unfolding contains
  final-order x =
      reverse_post_order-count final s.first.id x final-AllIn (ground arith) final-AscendsFrom

  order_contains :
      (x : ℕ) → contains (reverse_post_order final s.first.id) x ≡ contains (ids_of final) x
  order_contains x = ground (
    arith,
    contains-count x (reverse_post_order final s.first.id),
    contains-count x (ids_of final),
    final-order x,
  )

  final-RegionHandlers : RegionHandlers ehs final
  final-RegionHandlers =
      Handled-RegionHandlers ehs (add_edges code s.blocks) final
        (add_edges-NoHandlers code s.blocks s.fresh) s.handled

  final-valid : ValidTargets (ids_of final) ehs
  final-valid =
      rw
        (
          final-ids,
          sym (ids_of_same (add_edges code s.blocks) s.blocks (add_edges-skeletons code s.blocks)),
        )
        s.valid

  final-LaidOut : LaidOut (reverse_post_order final s.first.id) final
  final-LaidOut =
      check_layout-LaidOut (reverse_post_order final s.first.id) final
        (RegionHandlers-Ordered (ids_of final) (reverse_post_order final s.first.id) ehs final
          order_contains final-valid
          (contains-All (λ (t : ℕ). contains (ids_of final) t ≡ true) (ids_of final) (λ v h. h))
          final-RegionHandlers)
        (finish-Finished s.first s.rest cfg s.finished).layout

-- For instructions that follow each other from 0 on, within 32 bits.
module _ {Op : Type 0} (i : DecodedInst Op) (is : List (DecodedInst Op)) (ehs : List ExcHandler)
    (code : List ℕ) (stop : ℕ) (small : stop ≤ u32_max) (consecutive : Consecutive 0 (i ∷ is) stop)
    (cfg : Cfg Op) (built : build (i ∷ is) ehs code ≡ ok cfg) where
  steps : Steps (i ∷ is) ehs code stop cfg
  steps = build-Steps i is ehs code stop small consecutive cfg built

  -- When a graph is built from instructions that follow each other from 0 to a place below 2 ^ 32, its
  -- blocks are the runs into which the boundaries cut them: each begins at a boundary and has none
  -- inside, each ends where the next one begins, and all have together the instructions.
  pub build-Cut :
      (starts : List ℕ) × (boundaries (i ∷ is) ehs code ≡ ok starts)
      × Cut starts 0 cfg.blocks stop
      × (instructions_of cfg.blocks ≡ i ∷ is)
  build-Cut =
      let f = finish-Finished steps.first steps.rest cfg steps.finished in
      (
        steps.starts,
        steps.starts_are,
        rw (f.blocks_are) (final-Cut steps),
        rw (f.blocks_are)
            (instructions_of_same (final steps) steps.blocks (final-skeletons steps) ∙ steps.all),
      )

  -- In a graph that is built from such instructions, the successors of a block are blocks, and for
  -- any two numbers the first stands among the predecessors of the second as often as the second
  -- among the successors of the first.
  pub build-Mirrored :
      (a t : ℕ)
      → AllIn (ids_of cfg.blocks) (successors_at cfg.blocks a)
        × (count a (predecessors_at cfg.blocks t) ≡ count t (successors_at cfg.blocks a))
  build-Mirrored a t =
      let f = finish-Finished steps.first steps.rest cfg steps.finished in
      rw (f.blocks_are) (final-AllIn steps a, final-mirror steps a t)

  -- In a graph that is built from such instructions, the order has each number as often as the list
  -- of blocks has a block of that number, and it begins with the entry, which is block 0.
  pub build-order :
      (x : ℕ)
      → (count x cfg.block_order ≡ count x (ids_of cfg.blocks))
        × (cfg.entry ≡ 0)
        × (rest : List ℕ) × (cfg.block_order ≡ 0 ∷ rest)
  build-order x =
      let f = finish-Finished steps.first steps.rest cfg steps.finished in
      let zero_first : steps.first.id ≡ 0 = (final-Cut steps).0 in
      let (rest, first) = reverse_post_order-entry (final steps) steps.first.id in
      (
        ap (count x) f.order_is
            ∙ final-order steps x
            ∙ sym (ap (λ (bs : List (BasicBlock Op)). count x (ids_of bs)) f.blocks_are),
        f.entry_is ∙ zero_first,
        rest,
        f.order_is ∙ first ∙ ap (λ (n : ℕ). n ∷ rest) zero_first,
      )

  -- In a graph that is built from such instructions, the targets of the handlers are blocks; a
  -- block's handler is that of the last region that covers it; a catch block stands in the order
  -- behind each block that it handles; and the map of catch blocks gives the blocks that each handles.
  pub build-Catches :
      (c : ℕ)
      → ValidTargets (ids_of cfg.blocks) ehs
        × RegionHandlers ehs cfg.blocks
        × LaidOut cfg.block_order cfg.blocks
        × (cfg.exc_predecessors c ≡ caught_by c cfg.blocks)
  build-Catches c =
      let f = finish-Finished steps.first steps.rest cfg steps.finished in
      let laid =
        subst (LaidOut (reverse_post_order (final steps) steps.first.id)) (sym f.blocks_are)
          (final-LaidOut steps) in
      (
        rw (f.blocks_are) (final-valid steps),
        rw (f.blocks_are) (final-RegionHandlers steps),
        subst (λ (order : List ℕ). LaidOut order cfg.blocks) (sym f.order_is) laid,
        f.catches c ∙ sym (ap (caught_by c) f.blocks_are),
      )
