-- ===== src/Tests/Decoding.antt =====
-- Runs of the instruction decoder.
use droidsaw_hermes.Prelude.{ℕ, ◌≡◌, refl, ◌⊎◌, List, [], ◌∷◌, arith}
use droidsaw_hermes.Errors.{HermesError, unknown_opcode, truncated_instruction_stream, ok, err}
use droidsaw_hermes.Decode.{
  Tables, DecodedInst, OpType, Operand, negsuc, decode_function, decode_loop, decode_one,
  decode_operands,
}
use droidsaw_hermes.Decode.Tiling.{Tiled, decode_function-Tiled}
use droidsaw_hermes.Cfg.{BasicBlock, Cfg}
use droidsaw_hermes.Cfg.Boundaries.{boundaries}
use droidsaw_hermes.Cfg.Blocks.Runs.{Cut, instructions_of}
use droidsaw_hermes.Cfg.Build.{build}
use droidsaw_hermes.Cfg.Build.Refused.{Refusal}
use droidsaw_hermes.Cfg.Build.Decoded.{decode_function-build}
use droidsaw_hermes.Decode.Failure.{Stopped, decode_function-Stopped}

-- Two opcodes: a move of one byte, named by its schema, and a jump with an 8-bit displacement.
abbrev small_tables : Tables ℕ
small_tables = record {
  sizes = 3 ∷ 2 ∷ [];
  names = "" ∷ "Jmp" ∷ [];
  opcode_table = 40 ∷ 41 ∷ [];
  schemas = ("Mov", OpType.r ∷ OpType.r ∷ []) ∷ ("Jump", OpType.a1 ∷ []) ∷ [];
  fallback = 99;
}

abbrev small_code : List ℕ
small_code = 0 ∷ 7 ∷ 9 ∷ 1 ∷ 253 ∷ []

abbrev first_inst : DecodedInst ℕ
first_inst = record {
  offset = 0;
  size = 3;
  opcode = 0;
  name = "Mov";
  op = 40;
  operands = Operand.reg 7 ∷ Operand.reg 9 ∷ [];
  op_types = OpType.r ∷ OpType.r ∷ [];
}

abbrev second_inst : DecodedInst ℕ
second_inst = record {
  offset = 3;
  size = 2;
  opcode = 1;
  name = "Jmp";
  op = 41;
  operands = Operand.addr (negsuc 2) ∷ [];
  op_types = OpType.a1 ∷ [];
}

abbrev small_insts : List (DecodedInst ℕ)
small_insts = first_inst ∷ second_inst ∷ []

small_decoded : decode_function small_tables small_code ≡ ok small_insts
unfolding decode_function decode_loop decode_one decode_operands
small_decoded = refl

decode_function-Tiled_example : Tiled small_tables small_code 0 small_insts 5
decode_function-Tiled_example =
    decode_function-Tiled small_tables small_code small_insts small_decoded

abbrev cut_code : List ℕ
cut_code = 1 ∷ 0 ∷ 0 ∷ 7 ∷ []

small_cut : decode_function small_tables cut_code ≡ err (truncated_instruction_stream 2 0)
unfolding decode_function decode_loop decode_one decode_operands
small_cut = refl

small_unknown : decode_function small_tables (1 ∷ 0 ∷ 5 ∷ []) ≡ err (unknown_opcode 2 5 2)
unfolding decode_function decode_loop decode_one decode_operands
small_unknown = refl

decode_function-Stopped_example : Stopped small_tables cut_code 0 (truncated_instruction_stream 2 0)
decode_function-Stopped_example =
    decode_function-Stopped small_tables cut_code (truncated_instruction_stream 2 0) small_cut

decode_function-build_example :
    (starts : List ℕ) × (blocks : List (BasicBlock ℕ)) × (boundaries small_insts [] small_code
      ≡ ok starts)
    × Cut starts 0 blocks 5
    × (instructions_of blocks ≡ small_insts)
    × (((cfg : Cfg ℕ) × (build small_insts [] small_code ≡ ok cfg) × (cfg.blocks ≡ blocks))
        ⊎ ((e : HermesError) × (build small_insts [] small_code ≡ err e)
            × Refusal [] small_code e blocks))
decode_function-build_example =
    decode_function-build small_tables small_code first_inst (second_inst ∷ []) [] (omega arith)
      small_decoded
