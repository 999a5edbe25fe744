-- ===== src/Decode/Control.antt =====
-- The predicates of src/decompile/decode.rs on the control flow of an instruction, by its name, and the
-- target of a branch; `checked_add_signed` is Rust's.
use Prim.Native.String.{String}
use text.Mathlib.Text.{starts_with, find?}
use text.Mathlib.Text
use droidsaw_hermes.Prelude.{
  ℕ, suc, ◌+◌, ◌-◌, Bool, true, false, [], ◌∷◌, Option, none, some, leb, ◌||◌, ◌&&◌, not,
  if◌then◌else◌,
}
use droidsaw_hermes.Sections.{u32_max}
use droidsaw_hermes.Decode.{ℤ, pos, negsuc, addr, DecodedInst}

abbrev pub named : String → String → Bool
named a b = text.Mathlib.Text.◌==◌ a b

-- Rust's `contains` on texts.
abbrev pub has_part : String → String → Bool
has_part text part = elim (find? text part) [ some at ↦ true | none ↦ false ]

-- `u32::checked_add_signed`
unfoldable pub checked_add_signed : ℕ → ℤ → Option ℕ
checked_add_signed base (pos n) = if leb (base + n) u32_max then some (base + n) else none
checked_add_signed base (negsuc n) = if leb (suc n) base then some (base - suc n) else none

module _ {Op : Type 0} where
  unfoldable pub branch_target : DecodedInst Op → Option ℕ
  branch_target inst = elim inst.operands [
    | [] ↦ none
    | o ∷ rest ↦ elim o [ addr rel ↦ checked_add_signed inst.offset rel | _ ↦ none ]
  ]

  unfoldable pub is_jump : DecodedInst Op → Bool
  is_jump inst = starts_with inst.name "J" || has_part inst.name "SwitchImm"

  unfoldable pub is_conditional_branch : DecodedInst Op → Bool
  is_conditional_branch inst =
      starts_with inst.name "J" && not (named inst.name "Jmp") && not (named inst.name "JmpLong")

  unfoldable pub is_unconditional_jump : DecodedInst Op → Bool
  is_unconditional_jump inst = named inst.name "Jmp" || named inst.name "JmpLong"

  unfoldable pub is_return : DecodedInst Op → Bool
  is_return inst = named inst.name "Ret"

  unfoldable pub is_throw : DecodedInst Op → Bool
  is_throw inst = named inst.name "Throw"

  unfoldable pub is_terminator : DecodedInst Op → Bool
  is_terminator inst =
      is_jump inst || is_return inst || is_throw inst || named inst.name "Unreachable"
