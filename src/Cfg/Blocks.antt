-- ===== src/Cfg/Blocks.antt =====
-- The second step of `Cfg::build` of src/decompile/cfg.rs: the instructions are cut into blocks.
pub mod Runs
pub mod Partition
pub mod Fresh
use droidsaw_hermes.Prelude.{
  ℕ, ◌+◌, Bool, true, false, List, [], ◌∷◌, ◌++◌, Option, none, some, ltb, ◌==◌, ◌&&◌, not,
  if◌then◌else◌,
}
use droidsaw_hermes.Prelude.Sets.{contains}
use droidsaw_hermes.Errors.{HermesError, arithmetic_overflow, Result, ok, err}
use droidsaw_hermes.Decode.{DecodedInst}
use droidsaw_hermes.Cfg.{BasicBlock, inst_next_offset}

-- The blocks that are finished, and the block that is being collected.
pub record Splitting (Op : Type 0) : Type 0 where
  pub blocks : List (BasicBlock Op)
  pub current_block_insts : List (DecodedInst Op)
  pub current_start : ℕ

module _ {Op : Type 0} where
  abbrev pub new_block : ℕ → ℕ → List (DecodedInst Op) → BasicBlock Op
  new_block start end instructions = record {
    id = start;
    start = start;
    end = end;
    instructions = instructions;
    successors = [];
    predecessors = [];
    exc_handler = none;
    switch_string_ids = [];
  }

  -- `BTreeMap::insert`: a block with the same number is replaced.
  unfoldable pub insert_block : BasicBlock Op → List (BasicBlock Op) → List (BasicBlock Op)
  insert_block b [] = b ∷ []
  insert_block b (c ∷ cs) =
      let more = insert_block b cs in
      if ltb b.id c.id then b ∷ c ∷ cs else if b.id == c.id then b ∷ cs else c ∷ more

  abbrev pub is_empty : List (DecodedInst Op) → Bool
  is_empty [] = true
  is_empty (i ∷ is) = false

  abbrev pub last : List (DecodedInst Op) → Option (DecodedInst Op)
  last [] = none
  last (i ∷ []) = some i
  last (i ∷ j ∷ is) = last (j ∷ is)

  unfoldable pub finish_previous : List ℕ → DecodedInst Op → Splitting Op → Splitting Op
  finish_previous boundaries inst s =
      if contains boundaries inst.offset && not (is_empty s.current_block_insts)
      then record {
        blocks =
            insert_block (new_block s.current_start inst.offset s.current_block_insts) s.blocks;
        current_block_insts = [];
        current_start = inst.offset;
      }
      else s

  unfoldable pub collect : DecodedInst Op → Splitting Op → Splitting Op
  collect inst s = record {
    blocks = s.blocks;
    current_block_insts = s.current_block_insts ++ inst ∷ [];
    current_start = if is_empty s.current_block_insts then inst.offset else s.current_start;
  }

  unfoldable pub split_loop : List ℕ → List (DecodedInst Op) → Splitting Op → Splitting Op
  split_loop boundaries [] s = s
  split_loop boundaries (inst ∷ rest) s =
      split_loop boundaries rest (collect inst (finish_previous boundaries inst s))

  unfoldable pub finish_last : Splitting Op → Result HermesError (List (BasicBlock Op))
  finish_last s = elim (last s.current_block_insts) [
    | none ↦ ok s.blocks
    | some inst ↦ elim (inst_next_offset inst) [
      | none ↦ err (arithmetic_overflow "final block end offset")
      | some end ↦ ok (insert_block (new_block s.current_start end s.current_block_insts) s.blocks)
    ]
  ]

  unfoldable pub split_blocks :
      List ℕ → List (DecodedInst Op) → Result HermesError (List (BasicBlock Op))
  split_blocks boundaries instructions = finish_last (
      split_loop boundaries instructions
        (record { blocks = []; current_block_insts = []; current_start = 0 }))
