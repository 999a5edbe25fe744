-- ===== src/Cfg.antt =====
-- The control-flow graph of src/decompile/cfg.rs: its data, and the tables of switch instructions.
-- A `BTreeMap` from block numbers is the list of its blocks, ascending by their numbers; a `BTreeSet`
-- is an ascending list. Positions in the bytecode lie far below 2 ^ 64, so the checked additions on
-- usize succeed.
pub mod Boundaries
pub mod Blocks
pub mod Edges
pub mod Handlers
pub mod Order
pub mod Build
use droidsaw_hermes.Prelude.{
  ℕ, zero, suc, ◌+◌, ◌*◌, ◌-◌, Bool, List, [], ◌∷◌, Option, none, some, leb, ltb, length, get_or,
  min, if◌then◌else◌,
}
use droidsaw_hermes.Sections.{u32_max}
use droidsaw_hermes.Decode.{ℤ, signed, Operand, uint, addr, DecodedInst, bytes_at}
use droidsaw_hermes.Decode.Control.{checked_add_signed}

pub record ExcHandler : Type 0 where
  pub start : ℕ
  pub end : ℕ
  pub target : ℕ

pub record BasicBlock (Op : Type 0) : Type 0 where
  pub id : ℕ
  pub start : ℕ
  pub end : ℕ
  pub instructions : List (DecodedInst Op)
  pub successors : List ℕ
  pub predecessors : List ℕ
  pub exc_handler : Option ℕ
  pub switch_string_ids : List ℕ

pub record Cfg (Op : Type 0) : Type 0 where
  pub blocks : List (BasicBlock Op)
  pub entry : ℕ
  pub block_order : List ℕ
  -- A block without an entry in the map has the empty list.
  pub exc_predecessors : ℕ → List ℕ

-- The number of the last byte but three and its followers, most significant first: `from_be_bytes`.
abbrev pub u32_be_at : List ℕ → ℕ → ℕ
u32_be_at code at =
    ((get_or code at 0 * 256 + get_or code (at + 1) 0) * 256 + get_or code (at + 2) 0) * 256
    + get_or code (at + 3) 0

-- The entries j, j + 1, … of a table of string cases that lie in the code: a string and a distance.
unfoldable pub string_table : List ℕ → ℕ → ℕ → ℕ → List (ℕ × ℤ)
string_table code start j zero = []
string_table code start j (suc left) =
    let entry_off = start + j * 8 in
    let rest = string_table code start (suc j) left in
    if leb (entry_off + 8) (length code)
    then (u32_be_at code entry_off, signed 32 (u32_be_at code (entry_off + 4))) ∷ rest
    else rest

-- The entries of a table of distances that lie in the code.
unfoldable pub jump_table : List ℕ → ℕ → ℕ → ℕ → List ℤ
jump_table code start j zero = []
jump_table code start j (suc left) =
    let entry_off = start + j * 4 in
    let rest = jump_table code start (suc j) left in
    if leb (entry_off + 4) (length code) then signed 32 (bytes_at code entry_off 4) ∷ rest else rest

abbrev pub uint_at : List Operand → ℕ → Option ℕ
uint_at [] i = none
uint_at (o ∷ os) zero = elim o [ uint v ↦ some v | _ ↦ none ]
uint_at (o ∷ os) (suc i) = uint_at os i

abbrev pub addr_at : List Operand → ℕ → Option ℤ
addr_at [] i = none
addr_at (o ∷ os) zero = elim o [ addr v ↦ some v | _ ↦ none ]
addr_at (o ∷ os) (suc i) = addr_at os i

unfoldable pub inst_next_offset : {Op : Type 0} → DecodedInst Op → Option ℕ
inst_next_offset inst =
    if leb (inst.offset + inst.size) u32_max then some (inst.offset + inst.size) else none

module _ {Op : Type 0} (code : List ℕ) where
  -- Operands: register, hash count, offset of the table, default distance, number of cases.
  unfoldable pub string_cases : DecodedInst Op → List (ℕ × ℤ)
  string_cases inst = elim (uint_at inst.operands 2) [
    | none ↦ []
    | some table ↦ elim (uint_at inst.operands 4) [
      | none ↦ []
      | some num_cases ↦ string_table code (inst.offset + table) 0 (min num_cases 65536)
    ]
  ]

  -- Operands: register, offset of the table, default distance, least case, greatest case.
  unfoldable pub switch_cases : DecodedInst Op → List ℤ
  switch_cases inst = elim (uint_at inst.operands 1) [
    | none ↦ []
    | some table ↦ elim (uint_at inst.operands 3) [
      | none ↦ []
      | some min_case ↦ elim (uint_at inst.operands 4) [
        | none ↦ []
        | some max_case ↦
            jump_table code (inst.offset + table) 0 (min (max_case + 1 - min_case) 65536)
      ]
    ]
  ]
