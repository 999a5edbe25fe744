-- ===== src/Cfg/Blocks/Partition.antt =====
-- The blocks of src/decompile/cfg.rs are the maximal runs of instructions without a boundary inside.
use droidsaw_hermes.Prelude.{
  some, ℕ, ◌+◌, ◌≤◌, ◌<◌, ◌≡◌, refl, sym, ap, ◌∙◌, true, false, List, [], ◌∷◌, ◌++◌, arith,
  Bool-cases, inl, inr, append_assoc, append-nil, leb,
}
use droidsaw_hermes.Prelude.Sets.{contains}
use droidsaw_hermes.Errors.{ok}
use droidsaw_hermes.Decode.{DecodedInst}
use droidsaw_hermes.Sections.{u32_max}
use droidsaw_hermes.Cfg.{BasicBlock, inst_next_offset}
use droidsaw_hermes.Cfg.Blocks.{
  Splitting, new_block, insert_block, last, finish_previous, collect, split_loop, finish_last,
  split_blocks,
}
use droidsaw_hermes.Cfg.Blocks.Runs.{
  Consecutive, instructions_of, instructions_of-append, Run, Cut, Cut-append, Run-append,
  insert_block-last,
}

module _ {Op : Type 0} where
  module _ (boundaries : List ℕ) where
    -- What is being collected: a run from `mid` to `at`, or nothing yet.
    abbrev Collecting : ℕ → ℕ → List (DecodedInst Op) → ℕ → Type 0
    Collecting mid start [] at = (mid ≡ at) × (contains boundaries at ≡ true)
    Collecting mid start (i ∷ is) at = (start ≡ mid) × Run boundaries mid (i ∷ is) at

    record SplitAt (done : List (DecodedInst Op)) (at : ℕ) (s : Splitting Op) : Type 0 where
      mid : ℕ
      cut : Cut boundaries 0 s.blocks mid
      collecting : Collecting mid s.current_start s.current_block_insts at
      all : instructions_of s.blocks ++ s.current_block_insts ≡ done

    -- A run that is collected is put behind the blocks before it.
    close_run :
        (done : List (DecodedInst Op)) (mid at start : ℕ) (blocks : List (BasicBlock Op))
        (i : DecodedInst Op) (is : List (DecodedInst Op))
        → Cut boundaries 0 blocks mid
        → Collecting mid start (i ∷ is) at
        → instructions_of blocks ++ i ∷ is ≡ done
        → Cut boundaries 0 (insert_block (new_block start at (i ∷ is)) blocks) at
          × (instructions_of (insert_block (new_block start at (i ∷ is)) blocks) ≡ done)
    close_run done mid at start blocks i is cut c all =
        let b = new_block start at (i ∷ is) in
        let cut' : Cut boundaries 0 blocks start = rw (c.0) cut in
        let put = insert_block-last boundaries 0 blocks b cut' in
        let one : Cut boundaries start (b ∷ []) at = (refl, refl, rw (c.0) c.1, refl) in
        rw put (
          Cut-append boundaries 0 blocks start b at cut' one,
          simp (instructions_of-append blocks (b ∷ []), append-nil, all),
        )

    module _ (done : List (DecodedInst Op)) (inst : DecodedInst Op) (pos : 0 < inst.size) where
      abbrev Next : Splitting Op → Type 0
      Next s = SplitAt (done ++ inst ∷ []) (inst.offset + inst.size) (collect inst s)

      -- The instruction begins a run.
      begin_run :
          (blocks : List (BasicBlock Op)) (start : ℕ)
          → Cut boundaries 0 blocks inst.offset
          → contains boundaries inst.offset ≡ true
          → instructions_of blocks ≡ done
          → Next (record { blocks = blocks; current_block_insts = []; current_start = start })
      unfolding collect
      begin_run blocks start cut here all = record {
        mid = inst.offset;
        cut = cut;
        collecting =
            let run : Run boundaries inst.offset (inst ∷ []) (inst.offset + inst.size) =
              (here, tt, (refl, pos, refl)) in
            (refl, run);
        all = ap (λ (x : List (DecodedInst Op)). x ++ inst ∷ []) all;
      }

      -- The instruction continues one.
      continue_run :
          (blocks : List (BasicBlock Op)) (i : DecodedInst Op) (is : List (DecodedInst Op))
          (start mid : ℕ)
          → Cut boundaries 0 blocks mid
          → Collecting mid start (i ∷ is) inst.offset
          → contains boundaries inst.offset ≡ false
          → instructions_of blocks ++ i ∷ is ≡ done
          → Next (record { blocks = blocks; current_block_insts = i ∷ is; current_start = start })
      unfolding collect
      continue_run blocks i is start mid cut c new all = record {
        mid = mid;
        cut = cut;
        collecting =
            let run = Run-append boundaries mid i is inst.offset inst c.1 new refl pos in
            (c.0, run);
        all =
            sym (append_assoc (instructions_of blocks) (i ∷ is) (inst ∷ []))
            ∙ ap (λ (x : List (DecodedInst Op)). x ++ inst ∷ []) all;
      }

      round :
          (blocks : List (BasicBlock Op)) (cur : List (DecodedInst Op)) (start mid : ℕ)
          → Cut boundaries 0 blocks mid
          → Collecting mid start cur inst.offset
          → instructions_of blocks ++ cur ≡ done
          → Next (
              finish_previous boundaries inst
                (record { blocks = blocks; current_block_insts = cur; current_start = start }))
      unfolding finish_previous
      round blocks [] start mid cut c all =
          rw (finish_previous, c.1)
            (begin_run blocks start (rw (c.0) at cut) c.1 (rw append-nil at all))
      round blocks (i ∷ is) start mid cut c all =
          elim (Bool-cases (contains boundaries inst.offset)) [
            | inl here ↦
                let closed = close_run done mid inst.offset start blocks i is cut c all in
                rw (finish_previous, here)
                  (begin_run (insert_block (new_block start inst.offset (i ∷ is)) blocks)
                    inst.offset closed.0 here closed.1)
            | inr new ↦ rw (finish_previous, new) (continue_run blocks i is start mid cut c new all)
          ]

    split_loop-SplitAt :
        (done insts : List (DecodedInst Op)) (at stop : ℕ) (s : Splitting Op)
        → Consecutive at insts stop
        → SplitAt done at s
        → SplitAt (done ++ insts) stop (split_loop boundaries insts s)
    unfolding split_loop
    split_loop-SplitAt done [] at stop s h k = rw (append-nil done, sym h) k
    split_loop-SplitAt done (inst ∷ rest) at stop s h k =
        let k' = rw (sym (h.0)) at k in
        let next =
          round done inst h.1 s.blocks s.current_block_insts s.current_start k'.mid k'.cut
            k'.collecting k'.all in
        rw (sym (append_assoc done (inst ∷ []) rest)) (
          split_loop-SplitAt (done ++ inst ∷ []) rest (inst.offset + inst.size) stop
            (collect inst (finish_previous boundaries inst s)) (rw (h.0) h.2) next)

    Consecutive-last :
        (at : ℕ) (i : DecodedInst Op) (is : List (DecodedInst Op)) (stop : ℕ)
        → Consecutive at (i ∷ is) stop
        → (l : DecodedInst Op) × (last (i ∷ is) ≡ some l) × (l.offset + l.size ≡ stop)
    Consecutive-last at i [] stop h = (i, refl, omega (arith, h.0, h.2))
    Consecutive-last at i (j ∷ is) stop h = Consecutive-last (at + i.size) j is stop h.2

    finish_last-Cut :
        (insts : List (DecodedInst Op)) (stop : ℕ) (blocks : List (BasicBlock Op))
        (cur : List (DecodedInst Op)) (start mid : ℕ)
        → stop ≤ u32_max
        → Cut boundaries 0 blocks mid
        → Collecting mid start cur stop
        → instructions_of blocks ++ cur ≡ insts
        → (out : List (BasicBlock Op)) × (finish_last
              (record { blocks = blocks; current_block_insts = cur; current_start = start })
            ≡ ok out)
          × Cut boundaries 0 out stop
          × (instructions_of out ≡ insts)
    unfolding finish_last inst_next_offset
    finish_last-Cut insts stop blocks [] start mid small cut c all =
        (blocks, refl, rw (sym (c.0)) cut, sym (append-nil (instructions_of blocks)) ∙ all)
    finish_last-Cut insts stop blocks (i ∷ is) start mid small cut c all =
        let (l, l_is, end) = Consecutive-last mid i is stop c.1.2 in
        let fits : leb (l.offset + l.size) u32_max ≡ true = ground (arith, end, small) in
        let closed = close_run insts mid stop start blocks i is cut c all in
        (
          insert_block (new_block start stop (i ∷ is)) blocks,
          rw (finish_last, l_is, inst_next_offset, fits, end) refl,
          closed.0,
          closed.1,
        )

    -- Instructions that follow each other are cut, at a set of boundaries that has 0, into maximal runs.
    pub split_blocks-Cut :
        (insts : List (DecodedInst Op)) (stop : ℕ)
        → contains boundaries 0 ≡ true
        → stop ≤ u32_max
        → Consecutive 0 insts stop
        → (blocks : List (BasicBlock Op)) × (split_blocks boundaries insts ≡ ok blocks)
          × Cut boundaries 0 blocks stop
          × (instructions_of blocks ≡ insts)
    unfolding split_blocks
    split_blocks-Cut insts stop zero_in small h =
        let start : Splitting Op = record {
          blocks = [];
          current_block_insts = [];
          current_start = 0;
        } in
        let s = split_loop boundaries insts start in
        let k =
          split_loop-SplitAt [] insts 0 stop start h
            (record { mid = 0; cut = refl; collecting = (refl, zero_in); all = refl }) in
        finish_last-Cut insts stop s.blocks s.current_block_insts s.current_start k.mid small k.cut
          k.collecting k.all
