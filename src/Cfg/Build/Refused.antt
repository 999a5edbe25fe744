-- ===== src/Cfg/Build/Refused.antt =====
-- When `Cfg::build` of src/decompile/cfg.rs refuses the instructions of a function that decodes.
use droidsaw_hermes.Prelude.{
  ℕ, ◌+◌, ◌≤◌, ◌≡◌, refl, sym, ◌∙◌, ◌⊎◌, inl, inr, true, false, List, [], ◌∷◌, some, leb, arith,
  Bool-cases, Option-cases, subst,
}
use droidsaw_hermes.Prelude.Sets.{contains, set_insert}
use droidsaw_hermes.Errors.{
  HermesError, invalid_exception_handler_target, invalid_exception_layout, ok, err, err-injective,
  >>=-eq-err, ◌>>=◌,
}
use droidsaw_hermes.Sections.{u32_max}
use droidsaw_hermes.Decode.{DecodedInst}
use droidsaw_hermes.Cfg.{BasicBlock, ExcHandler, inst_next_offset}
use droidsaw_hermes.Cfg.Boundaries.{
  inst_boundaries, boundaries_loop, handler_boundaries, boundaries,
}
use droidsaw_hermes.Cfg.Boundaries.Starts.{boundaries-zero}
use droidsaw_hermes.Cfg.Blocks.Runs.{Consecutive, Consecutive-le, Cut, instructions_of}
use droidsaw_hermes.Cfg.Blocks.Partition.{split_blocks-Cut}
use droidsaw_hermes.Cfg.Edges.{ids_of, add_edges}
use droidsaw_hermes.Cfg.Handlers.{map_handlers, set_handler}
use droidsaw_hermes.Cfg.Order.{index_of, reverse_post_order}
use droidsaw_hermes.Cfg.Build.{build, finish, check_layout, or_else, usize_max}
use droidsaw_hermes.Cfg.Handlers.Regions.{Handled, map_handlers-Handled, Handled-skeletons}
use droidsaw_hermes.Cfg.Edges.Skeleton.{ids_of_same, add_edges-skeletons, skeletons, Cut-same}

-- A handler whose target is no valid one.
abbrev pub Untargeted : List ℕ → List ExcHandler → ℕ → Type 0
Untargeted valid [] t = ⊥
Untargeted valid (eh ∷ rest) t =
    ((eh.target ≡ t) × (contains valid t ≡ false)) ⊎ Untargeted valid rest t

module _ {Op : Type 0} where
  boundaries_loop_total :
      (code : List ℕ) (insts : List (DecodedInst Op)) (at stop : ℕ) (set : List ℕ)
      → stop ≤ u32_max
      → Consecutive at insts stop
      → (out : List ℕ) × (boundaries_loop code insts set ≡ ok out)
  unfolding boundaries_loop inst_next_offset
  boundaries_loop_total code [] at stop set small h = (set, refl)
  boundaries_loop_total code (i ∷ is) at stop set small h =
      let fits : leb (i.offset + i.size) u32_max ≡ true =
        ground (arith, h.0, small, Consecutive-le (at + i.size) is stop h.2) in
      rw (boundaries_loop, inst_next_offset, fits)
        (boundaries_loop_total code is (at + i.size) stop
          (inst_boundaries code i (i.offset + i.size) set) small h.2)

  map_handlers-Untargeted :
      (valid : List ℕ) (ehs : List ExcHandler) (bs : List (BasicBlock Op)) {e : HermesError}
      → map_handlers valid ehs bs ≡ err e
      → (t : ℕ) × (e ≡ invalid_exception_handler_target t) × Untargeted valid ehs t
  unfolding map_handlers
  map_handlers-Untargeted valid [] bs h = cc
  map_handlers-Untargeted valid (eh ∷ rest) bs h = elim (Bool-cases (contains valid eh.target)) [
    | inl a ↦
        let (t, q, u) =
          map_handlers-Untargeted valid rest (set_handler eh bs) (rw (map_handlers, a) at h) in
        (t, q, inr u)
    | inr a ↦ (eh.target, sym (err-injective refl (rw (map_handlers, a) at h)), inl (refl, a))
  ]

  -- A block whose catch block is not behind it in the order.
  abbrev pub Misplaced : List ℕ → List (BasicBlock Op) → ℕ → ℕ → Type 0
  Misplaced order [] catch id = ⊥
  Misplaced order (b ∷ bs) catch id =
      ((b.exc_handler ≡ some catch)
        × (b.id ≡ id)
        × (or_else (index_of order catch) usize_max ≤ or_else (index_of order id) 0))
      ⊎ Misplaced order bs catch id

  check_layout-Misplaced :
      (order : List ℕ) (bs : List (BasicBlock Op)) {e : HermesError}
      → check_layout order bs ≡ err e
      → (catch : ℕ) × (id : ℕ) × (e ≡ invalid_exception_layout catch id)
        × Misplaced order bs catch id
  unfolding check_layout
  check_layout-Misplaced order [] h = cc
  check_layout-Misplaced order (b ∷ bs) h = elim (Option-cases b.exc_handler) [
    | inl n ↦
        let (catch, id, q, m) = check_layout-Misplaced order bs (rw (check_layout, n) at h) in
        (catch, id, q, inr m)
    | inr (c, n) ↦
        elim (Bool-cases
          (leb (or_else (index_of order c) usize_max) (or_else (index_of order b.id) 0))) [
            | inl a ↦ (
              c,
              b.id,
              sym (err-injective refl (rw (check_layout, n, a) at h)),
              inl (n, refl, ground (arith, a)),
            )
            | inr a ↦
                let (catch, id, q, m) =
                  check_layout-Misplaced order bs (rw (check_layout, n, a) at h) in
                (catch, id, q, inr m)
          ]
  ]

module _ {Op : Type 0} (ehs : List ExcHandler) (code : List ℕ) where
  -- The two refusals: a handler that leads to no block, and a catch block that does not come behind.
  abbrev pub Refusal : HermesError → List (BasicBlock Op) → Type 0
  Refusal e blocks =
      ((t : ℕ) × (e ≡ invalid_exception_handler_target t) × Untargeted (ids_of blocks) ehs t)
      ⊎ ((out : List (BasicBlock Op)) × (catch : ℕ) × (id : ℕ) × (Handled ehs
            (add_edges code blocks) out)
          × (e ≡ invalid_exception_layout catch id)
          × Misplaced (reverse_post_order out 0) out catch id)

-- For instructions that follow each other from 0 on, within 32 bits.
module _ {Op : Type 0} (i : DecodedInst Op) (is : List (DecodedInst Op)) (ehs : List ExcHandler)
    (code : List ℕ) (stop : ℕ) (small : stop ≤ u32_max)
    (consecutive : Consecutive 0 (i ∷ is) stop) where
  finish-Misplaced :
      (out : List (BasicBlock Op)) {e : HermesError}
      → finish out ≡ err e
      → (b : BasicBlock Op) × (bs : List (BasicBlock Op)) × (out ≡ b ∷ bs)
        × (catch : ℕ) × (id : ℕ) × (e ≡ invalid_exception_layout catch id)
        × Misplaced (reverse_post_order (b ∷ bs) b.id) (b ∷ bs) catch id
  unfolding finish
  finish-Misplaced [] h = cc
  finish-Misplaced (b ∷ bs) h =
      let order = reverse_post_order (b ∷ bs) b.id in
      elim (>>=-eq-err (check_layout order (b ∷ bs)) _ h) [
        | inl r ↦
            let (catch, id, q, m) = check_layout-Misplaced order (b ∷ bs) r in
            (b, bs, refl, catch, id, q, m)
        | inr (u, r, q) ↦ cc
      ]

  -- When no graph is built from instructions that follow each other from 0 to a place below 2 ^ 32,
  -- this never comes from an overflow: they are cut into blocks, and a handler leads to a place where
  -- no block starts, or a block's catch block does not come behind it.
  pub build-Refusal :
      (e : HermesError)
      → build (i ∷ is) ehs code ≡ err e
      → (starts : List ℕ) × (blocks : List (BasicBlock Op)) × (boundaries (i ∷ is) ehs code
          ≡ ok starts)
        × Cut starts 0 blocks stop
        × (instructions_of blocks ≡ i ∷ is)
        × Refusal ehs code e blocks
  unfolding build boundaries
  build-Refusal e h =
      let (set, loop) =
        boundaries_loop_total code (i ∷ is) 0 stop (set_insert 0 []) small consecutive in
      let starts = handler_boundaries ehs set in
      let found : boundaries (i ∷ is) ehs code ≡ ok starts = rw (boundaries, loop) refl in
      let (blocks, cut_ok, cut, all) =
        split_blocks-Cut starts (i ∷ is) stop (boundaries-zero (i ∷ is) ehs code starts found) small
          consecutive in
      let linked = add_edges code blocks in
      let h1 : (map_handlers (ids_of linked) ehs linked >>= finish) ≡ err e =
        rw (build, found, cut_ok) at h in
      let ids : ids_of linked ≡ ids_of blocks =
        ids_of_same linked blocks (add_edges-skeletons code blocks) in
      (
        starts,
        blocks,
        found,
        cut,
        all,
        elim (>>=-eq-err (map_handlers (ids_of linked) ehs linked) finish h1) [
          | inl m ↦
              let (t, q, u) = map_handlers-Untargeted (ids_of linked) ehs linked m in
              inl (t, q, rw ids at u)
          | inr (out, m, f) ↦
              let (b, bs, o, catch, id, q, mis) = finish-Misplaced out f in
              let handled = map_handlers-Handled (ids_of linked) ehs linked out m in
              let same : skeletons out ≡ skeletons blocks =
                Handled-skeletons ehs linked out handled ∙ add_edges-skeletons code blocks in
              let zero_first : b.id ≡ 0 =
                (rw o at (Cut-same starts 0 out blocks stop same cut)).0 in
              let mis' =
                subst (λ (n : ℕ). Misplaced (reverse_post_order (b ∷ bs) n) (b ∷ bs) catch id)
                  zero_first mis in
              inr (
                out,
                catch,
                id,
                handled,
                q,
                subst
                    (λ (bs' : List (BasicBlock Op)).
                      Misplaced (reverse_post_order bs' 0) bs' catch id)
                    (sym o) mis',
              )
        ],
      )
