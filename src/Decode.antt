-- ===== src/Decode.antt =====
-- The instruction decoder of src/decompile/decode.rs. The tables of a version (src/opcodes.rs,
-- src/decompile/schemas.rs) are an argument; `Op` is the type of their opcodes.
pub mod Tiling
pub mod Failure
pub mod Control
use Prim.Native.String.{String}
use text.Mathlib.Text.{starts_with, find?}
use text.Mathlib.Text
use droidsaw_hermes.Prelude.{
  ℕ, zero, suc, ◌+◌, ◌*◌, ◌-◌, ◌%◌, ◌^◌, Bool, true, false, List, [], ◌∷◌, Option, none, some, ltb,
  leb, ◌==◌, ◌||◌, ◌&&◌, not, length, get_elem?, get_or, take, drop, if◌then◌else◌,
}
use droidsaw_hermes.Errors.{
  HermesError, unknown_opcode, truncated_instruction_stream, Result, ok, err, ◌>>=◌,
}
use droidsaw_hermes.Bytes.{from_le_bytes}

-- The signed numbers of i32: `pos n` is n and `negsuc n` is -(n + 1).
pub data ℤ : Type 0 where
  pos : ℕ → ℤ
  negsuc : ℕ → ℤ

-- The number of `w` bits read in two's complement.
abbrev pub signed : ℕ → ℕ → ℤ
signed w v = if ltb v (2 ^ (w - 1)) then pos v else negsuc (2 ^ w - 1 - v)

pub data OpType : Type 0 where
  r r4 u1 u2 u4 a1 a4 i4 d : OpType

abbrev pub byte_size : OpType → ℕ
byte_size r = 1
byte_size u1 = 1
byte_size a1 = 1
byte_size u2 = 2
byte_size r4 = 4
byte_size u4 = 4
byte_size a4 = 4
byte_size i4 = 4
byte_size d = 8

-- A double is held as its eight bytes.
pub data Operand : Type 0 where
  reg reg32 uint double : ℕ → Operand
  int addr : ℤ → Operand

abbrev pub as_reg : Operand → Option ℕ
as_reg (reg v) = some v
as_reg (reg32 v) = some v
as_reg _ = none

pub record Tables (Op : Type 0) : Type 0 where
  pub sizes : List ℕ
  pub names : List String
  pub opcode_table : List Op
  pub schemas : List (String × List OpType)
  -- `OpCode::Unreachable`
  pub fallback : Op

pub record DecodedInst (Op : Type 0) : Type 0 where
  pub offset : ℕ
  pub size : ℕ
  pub opcode : ℕ
  pub name : String
  pub op : Op
  pub operands : List Operand
  pub op_types : List OpType

abbrev pub get_schema : List (String × List OpType) → ℕ → String × List OpType
get_schema schemas opcode = get_or schemas opcode ("Unknown", [])

-- The little-endian number of the `n` bytes at `at`, which the caller has found in range.
abbrev pub bytes_at : List ℕ → ℕ → ℕ → ℕ
bytes_at code at n = from_le_bytes (take n (drop at code))

abbrev pub operand_at : OpType → List ℕ → ℕ → Operand
operand_at r code at = reg (bytes_at code at 1)
operand_at r4 code at = reg32 (bytes_at code at 4)
operand_at u1 code at = uint (bytes_at code at 1)
operand_at u2 code at = uint (bytes_at code at 2)
operand_at u4 code at = uint (bytes_at code at 4)
operand_at a1 code at = addr (signed 8 (bytes_at code at 1))
operand_at a4 code at = addr (signed 32 (bytes_at code at 4))
operand_at i4 code at = int (signed 32 (bytes_at code at 4))
operand_at d code at = double (bytes_at code at 8)

-- The loop over the operand types; `truncated` is the error of the instruction.
unfoldable pub decode_operands :
    List ℕ → HermesError → ℕ → List OpType → ℕ → Result HermesError (List Operand)
decode_operands code truncated inst_end [] op_pos = ok []
decode_operands code truncated inst_end (ot ∷ ots) op_pos =
    let op_end = op_pos + byte_size ot in
    if ltb inst_end op_end
    then err truncated
    else decode_operands code truncated inst_end ots op_end >>= λ operands.
        ok (operand_at ot code op_pos ∷ operands)

module _ {Op : Type 0} (tables : Tables Op) (code : List ℕ) where
  abbrev pub name_of : ℕ → String
  name_of opcode =
      let listed = get_or tables.names opcode "" in
      if text.Mathlib.Text.◌==◌ listed "" then (get_schema tables.schemas opcode).0 else listed

  -- The instruction at `at`, which lies in the code.
  unfoldable pub decode_one : ℕ → Result HermesError (DecodedInst Op)
  decode_one at =
      let opcode = get_or code at 0 in
      let inst_size = get_or tables.sizes opcode 0 in
      let inst_end = at + inst_size in
      let op_types = (get_schema tables.schemas opcode).1 in
      let truncated = truncated_instruction_stream at opcode in
      if leb (length tables.sizes) opcode
      then err (unknown_opcode at opcode (length tables.sizes))
      else if inst_size == 0 || ltb (length code) inst_end
      then err truncated
      else decode_operands code truncated inst_end op_types (at + 1) >>= λ operands. ok record {
        offset = at % 2 ^ 32;
        size = inst_size;
        opcode = opcode;
        name = name_of opcode;
        op = get_or tables.opcode_table opcode tables.fallback;
        operands = operands;
        op_types = op_types;
      }

  -- The loop from `at` on. Every round advances, so the length of the code is fuel enough.
  unfoldable pub decode_loop : ℕ → ℕ → Result HermesError (List (DecodedInst Op))
  decode_loop zero at = ok []
  decode_loop (suc fuel) at =
      if ltb at (length code)
      then (decode_one at >>= λ inst.
          decode_loop fuel (at + inst.size) >>= λ rest. ok (inst ∷ rest))
      else ok []

  unfoldable pub decode_function : Result HermesError (List (DecodedInst Op))
  decode_function = decode_loop (length code) 0
