-- ===== src/Cfg/Edges.antt =====
-- The third step of `Cfg::build` of src/decompile/cfg.rs: successors and predecessors.
pub mod Skeleton
pub mod Mirror
pub mod Closed
use text.Mathlib.Text
use droidsaw_hermes.Prelude.{
  ℕ, Bool, true, false, List, [], ◌∷◌, ◌++◌, Option, none, some, ◌==◌, ◌||◌, ◌&&◌, not, map,
  if◌then◌else◌,
}
use droidsaw_hermes.Prelude.Sets.{contains}
use droidsaw_hermes.Decode.{ℤ, DecodedInst}
use droidsaw_hermes.Decode.Control.{
  checked_add_signed, branch_target, is_unconditional_jump, is_conditional_branch, is_return,
  is_throw, named, has_part,
}
use droidsaw_hermes.Cfg.{BasicBlock, inst_next_offset, string_cases, switch_cases, addr_at}
use droidsaw_hermes.Cfg.Boundaries.{target_from}
use droidsaw_hermes.Cfg.Blocks.{last}

-- A target that is a block is pushed.
unfoldable pub push_target : List ℕ → Option ℕ → List ℕ → List ℕ
push_target ids none succs = succs
push_target ids (some t) succs = if contains ids t then succs ++ t ∷ [] else succs

-- A target of a table entry is pushed only once.
unfoldable pub push_case : List ℕ → Option ℕ → List ℕ → List ℕ
push_case ids none succs = succs
push_case ids (some t) succs =
    if contains ids t && not (contains succs t) then succs ++ t ∷ [] else succs

unfoldable pub push_cases : List ℕ → ℕ → List ℤ → List ℕ → List ℕ
push_cases ids offset [] succs = succs
push_cases ids offset (rel ∷ cases) succs =
    push_cases ids offset cases (push_case ids (checked_add_signed offset rel) succs)

abbrev pub ids_of : {Op : Type 0} → List (BasicBlock Op) → List ℕ
ids_of [] = []
ids_of (b ∷ bs) = b.id ∷ ids_of bs

module _ {Op : Type 0} where
  abbrev pub takes_string_ids : DecodedInst Op → Bool
  takes_string_ids inst =
      not (is_unconditional_jump inst)
      && not (is_conditional_branch inst)
      && named inst.name "StringSwitchImm"

  abbrev pub first_id : List (BasicBlock Op) → Option ℕ
  first_id [] = none
  first_id (b ∷ bs) = some b.id

module _ {Op : Type 0} (code : List ℕ) (ids : List ℕ) where
  -- The successors of a block that ends with an instruction, and the number of the block behind it.
  unfoldable pub successors_of : DecodedInst Op → Option ℕ → List ℕ
  successors_of inst following =
      if is_unconditional_jump inst
      then push_target ids (branch_target inst) []
      else if is_conditional_branch inst
      then push_target ids (inst_next_offset inst) (push_target ids (branch_target inst) [])
      else if named inst.name "StringSwitchImm"
      then push_cases ids inst.offset (map (λ (e : ℕ × ℤ). e.1) (string_cases code inst))
          (push_target ids (target_from inst.offset (addr_at inst.operands 3)) [])
      else if has_part inst.name "SwitchImm"
      then push_cases ids inst.offset (switch_cases code inst)
          (push_target ids (target_from inst.offset (addr_at inst.operands 2)) [])
      else if is_return inst || is_throw inst || named inst.name "Unreachable"
      then []
      else elim following [ none ↦ [] | some next ↦ next ∷ [] ]

  unfoldable pub with_edges : BasicBlock Op → Option ℕ → BasicBlock Op
  with_edges b following = elim (last b.instructions) [
    | none ↦ b
    | some inst ↦ record b {
      successors = successors_of inst following;
      switch_string_ids =
          if takes_string_ids inst
          then map (λ (e : ℕ × ℤ). e.0) (string_cases code inst)
          else b.switch_string_ids;
    }
  ]

  unfoldable pub add_successors : List (BasicBlock Op) → List (BasicBlock Op)
  add_successors [] = []
  add_successors (b ∷ bs) = with_edges b (first_id bs) ∷ add_successors bs

unfoldable pub edges_from : ℕ → List ℕ → List (ℕ × ℕ)
edges_from id [] = []
edges_from id (s ∷ ss) = (id, s) ∷ edges_from id ss

module _ {Op : Type 0} where
  unfoldable pub edges : List (BasicBlock Op) → List (ℕ × ℕ)
  edges [] = []
  edges (b ∷ bs) = edges_from b.id b.successors ++ edges bs

  -- The change of one value of the map, if the key is there.
  unfoldable pub push_predecessor : ℕ → ℕ → List (BasicBlock Op) → List (BasicBlock Op)
  push_predecessor from to [] = []
  push_predecessor from to (b ∷ bs) =
      (if b.id == to then record b { predecessors = b.predecessors ++ from ∷ [] } else b)
      ∷ push_predecessor from to bs

  unfoldable pub push_predecessors : List (ℕ × ℕ) → List (BasicBlock Op) → List (BasicBlock Op)
  push_predecessors [] blocks = blocks
  push_predecessors ((from, to) ∷ rest) blocks =
      push_predecessors rest (push_predecessor from to blocks)

  unfoldable pub add_edges : List ℕ → List (BasicBlock Op) → List (BasicBlock Op)
  add_edges code blocks =
      let linked = add_successors code (ids_of blocks) blocks in
      push_predecessors (edges linked) linked
