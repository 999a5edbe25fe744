-- ===== src/Cfg/Blocks/Fresh.antt =====
-- The blocks that src/decompile/cfg.rs cuts have no edges and no handler yet.
use droidsaw_hermes.Prelude.{
  ◌≡◌, refl, List, [], ◌∷◌, ltb, ◌==◌, ◌&&◌, not, Bool-cases, inl, inr, Option-cases, subst, ℕ,
}
use droidsaw_hermes.Prelude.Sets.{contains}
use droidsaw_hermes.Errors.{ok, ok-injective}
use droidsaw_hermes.Decode.{DecodedInst}
use droidsaw_hermes.Cfg.{BasicBlock, inst_next_offset}
use droidsaw_hermes.Cfg.Blocks.{
  Splitting, new_block, insert_block, is_empty, last, finish_previous, collect, split_loop,
  finish_last, split_blocks,
}
use droidsaw_hermes.Cfg.Edges.Mirror.{Fresh}

module _ {Op : Type 0} where
  insert_block-Fresh :
      (start end : ℕ) (is : List (DecodedInst Op)) (bs : List (BasicBlock Op))
      → Fresh bs
      → Fresh (insert_block (new_block start end is) bs)
  unfolding insert_block
  insert_block-Fresh start end is [] f = (refl, refl, refl, tt)
  insert_block-Fresh start end is (c ∷ cs) f = elim (Bool-cases (ltb start c.id)) [
    | inl a ↦ rw (insert_block, a) (refl, refl, refl, f)
    | inr a ↦ elim (Bool-cases (start == c.id)) [
      | inl b ↦ rw (insert_block, a, b) (refl, refl, refl, f.3)
      | inr b ↦ rw (insert_block, a, b) (f.0, f.1, f.2, insert_block-Fresh start end is cs f.3)
    ]
  ]

  finish_previous-Fresh :
      (boundaries : List ℕ) (inst : DecodedInst Op) (s : Splitting Op)
      → Fresh s.blocks
      → Fresh (finish_previous boundaries inst s).blocks
  unfolding finish_previous
  finish_previous-Fresh boundaries inst s f =
      elim (Bool-cases (contains boundaries inst.offset && not (is_empty s.current_block_insts))) [
        | inl a ↦
            rw (finish_previous, a)
              (insert_block-Fresh s.current_start inst.offset s.current_block_insts s.blocks f)
        | inr a ↦ rw (finish_previous, a) f
      ]

  split_loop-Fresh :
      (boundaries : List ℕ) (insts : List (DecodedInst Op)) (s : Splitting Op)
      → Fresh s.blocks
      → Fresh (split_loop boundaries insts s).blocks
  unfolding split_loop collect
  split_loop-Fresh boundaries [] s f = f
  split_loop-Fresh boundaries (inst ∷ rest) s f =
      split_loop-Fresh boundaries rest (collect inst (finish_previous boundaries inst s))
        (finish_previous-Fresh boundaries inst s f)

  finish_last-Fresh :
      (s : Splitting Op) (out : List (BasicBlock Op))
      → Fresh s.blocks
      → finish_last s ≡ ok out
      → Fresh out
  unfolding finish_last
  finish_last-Fresh s out f h = elim (Option-cases (last s.current_block_insts)) [
    | inl e ↦ subst Fresh (ok-injective refl (rw (finish_last, e) at h)) f
    | inr (l, e) ↦ elim (Option-cases (inst_next_offset l)) [
      | inl n ↦ let bad = rw (finish_last, e, n) at h in cc
      | inr (end, n) ↦
          subst Fresh (ok-injective refl (rw (finish_last, e, n) at h))
            (insert_block-Fresh s.current_start end s.current_block_insts s.blocks f)
    ]
  ]

  pub split_blocks-Fresh :
      (boundaries : List ℕ) (insts : List (DecodedInst Op)) (out : List (BasicBlock Op))
      → split_blocks boundaries insts ≡ ok out
      → Fresh out
  unfolding split_blocks
  split_blocks-Fresh boundaries insts out h =
      let start : Splitting Op = record {
        blocks = [];
        current_block_insts = [];
        current_start = 0;
      } in
      finish_last-Fresh (split_loop boundaries insts start) out
        (split_loop-Fresh boundaries insts start tt) h
