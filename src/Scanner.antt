-- ===== src/Scanner.antt =====
-- The cross-reference scanner of src/scanner.rs. The opcode tables of a version and the function
-- spans of the parsed file are arguments; a `BTreeMap` is a function to its vectors, which are empty
-- where the map has no entry.
pub mod References
use Prim.Native.String.{String}
use Prim.Native.String.{len, slice}
use text.Mathlib.Text.{starts_with}
use text.Mathlib.Text
use droidsaw_hermes.Prelude.{
  ℕ, zero, suc, ◌+◌, ◌*◌, ◌-◌, ◌%◌, ◌^◌, Bool, true, false, List, [], ◌∷◌, ◌++◌, Option, none, some,
  ltb, leb, ◌==◌, ◌||◌, ◌&&◌, not, length, get_elem?, get_or, take, drop, if◌then◌else◌,
}
use droidsaw_hermes.Bytes.{from_le_bytes, get_range, and_then}

-- The operand of 1, 2 or 4 bytes at a position.
unfoldable pub read_operand : List ℕ → ℕ → ℕ → Option ℕ
read_operand code at size =
    and_then (get_range code at (at + size))
      λ bytes. if size == 1 || size == 2 || size == 4 then some (from_le_bytes bytes) else none

-- Where an opcode has its operand: the byte offset and the size.
abbrev pub Place : Type 0
Place = Option (ℕ × ℕ)

-- The last entry for an opcode wins, as in the array that `OpLookup::build` fills.
unfoldable pub lookup_op : List (ℕ × ℕ × ℕ) → ℕ → Place
lookup_op [] opcode = none
lookup_op ((op, off, sz) ∷ rest) opcode = elim (lookup_op rest opcode) [
  | some place ↦ some place
  | none ↦ if op == opcode then some (off, sz) else none
]

-- Rust's `ends_with`.
abbrev pub ends_with : String → String → Bool
ends_with s t = leb (len t) (len s) && text.Mathlib.Text.◌==◌ (slice s (len s - len t) (len s)) t

-- The opcodes that create a closure have the function's number behind two registers.
unfoldable pub closure_op : String → Place
closure_op name =
    if starts_with name "CreateClosure"
      || starts_with name "CreateAsyncClosure"
      || starts_with name "CreateGeneratorClosure"
      || text.Mathlib.Text.◌==◌ name "CreateGenerator"
      || text.Mathlib.Text.◌==◌ name "CreateGeneratorLongIndex"
    then some (3, if ends_with name "LongIndex" || ends_with name "Long" then 4 else 2)
    else none

pub record ScanMode : Type 0 where
  pub xrefs : Bool
  pub callgraph : Bool

-- A map from numbers to vectors.
abbrev pub RefMap : Type 0
RefMap = ℕ → List ℕ

pub record ScanResult : Type 0 where
  pub string_refs : RefMap
  pub call_graph : RefMap
  pub closure_refs : RefMap

-- `if v.last() != Some(&x) { v.push(x) }`
unfoldable pub push_new : List ℕ → ℕ → List ℕ
push_new [] x = x ∷ []
push_new (y ∷ []) x = if y == x then y ∷ [] else y ∷ x ∷ []
push_new (y ∷ z ∷ zs) x = y ∷ push_new (z ∷ zs) x

-- `push_new` on the entry of a key.
unfoldable pub add_ref : RefMap → ℕ → ℕ → RefMap
add_ref refs key x k = if k == key then push_new (refs k) x else refs k

-- The tables of a version, and what the scanner asks of the file.
pub record Input : Type 0 where
  pub sizes : List ℕ
  pub str_ops : List (ℕ × ℕ × ℕ)
  pub call_ops : List (ℕ × ℕ × ℕ)
  pub names : List String
  pub file_data : List ℕ
  pub string_count : ℕ
  pub function_count : ℕ
  pub is_function_unrecognized : ℕ → Bool
  pub function_get : ℕ → ℕ × ℕ

-- The operand at the place of an opcode, if there is one and it is below the bound.
unfoldable pub operand_below : List ℕ → ℕ → Place → ℕ → Option ℕ
operand_below code at place bound =
    and_then place
      λ p. and_then (read_operand code (at + p.0) p.1) λ v. if ltb v bound then some v else none

-- The reference that one table finds is added under the key of `pair`.
abbrev pub add_found : Bool → Option ℕ → (ℕ → ℕ × ℕ) → RefMap → RefMap
add_found true (some v) pair refs = add_ref refs (pair v).0 (pair v).1
add_found true none pair refs = refs
add_found false found pair refs = refs

abbrev pub no_refs : ScanResult
no_refs = record { string_refs = λ k. []; call_graph = λ k. []; closure_refs = λ k. [] }

module _ (input : Input) (mode : ScanMode) where
  -- The instruction at `at` in function `fi`.
  unfoldable pub scan_inst : ℕ → List ℕ → ℕ → ScanResult → ScanResult
  scan_inst fi code at res =
      let opcode = get_or code at 0 in
      record {
        string_refs =
            add_found mode.xrefs
              (operand_below code at (lookup_op input.str_ops opcode) input.string_count)
              (λ v. (v, fi)) res.string_refs;
        call_graph =
            add_found mode.callgraph
              (operand_below code at (lookup_op input.call_ops opcode) input.function_count)
              (λ v. (fi, v)) res.call_graph;
        closure_refs =
            add_found mode.callgraph
              (operand_below code at (closure_op (get_or input.names opcode ""))
                input.function_count)
              (λ v. (fi, v)) res.closure_refs;
      }

  -- The loop over a function's code; every round advances.
  unfoldable pub scan_code : ℕ → ℕ → List ℕ → ℕ → ScanResult → ScanResult
  scan_code zero fi code at res = res
  scan_code (suc fuel) fi code at res =
      let opcode = get_or code at 0 in
      let inst_size = get_or input.sizes opcode 0 in
      let inst_end = at + inst_size in
      let rest = scan_code fuel fi code inst_end (scan_inst fi code at res) in
      if leb (length code) at
      then res
      else if leb (length input.sizes) opcode
      then res
      else if inst_size == 0 || ltb (length code) inst_end
      then res
      else rest

  unfoldable pub scan_function : ℕ → ScanResult → ScanResult
  scan_function fi res =
      let (offset, size) = input.function_get fi in
      if input.is_function_unrecognized fi
      then res
      else if size == 0 || ltb (length input.file_data) (offset + size)
      then res
      else scan_code size fi (take size (drop offset input.file_data)) 0 res

  -- The loop over the functions from number `fi` on; `n` of them are left.
  unfoldable pub scan_functions : ℕ → ℕ → ScanResult → ScanResult
  scan_functions zero fi res = res
  scan_functions (suc n) fi res = scan_functions n (suc fi) (scan_function fi res)

  unfoldable pub scan_parsed_with_mode : ScanResult
  scan_parsed_with_mode = scan_functions input.function_count 0 no_refs
