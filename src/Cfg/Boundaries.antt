-- ===== src/Cfg/Boundaries.antt =====
-- The first step of `Cfg::build` of src/decompile/cfg.rs: the offsets at which blocks start.
pub mod Starts
use text.Mathlib.Text
use droidsaw_hermes.Prelude.{
  ℕ, zero, suc, ◌+◌, Bool, true, false, List, [], ◌∷◌, Option, none, some, if◌then◌else◌,
}
use droidsaw_hermes.Prelude.Sets.{set_insert}
use droidsaw_hermes.Errors.{HermesError, arithmetic_overflow, Result, ok, err, ◌>>=◌}
use droidsaw_hermes.Decode.{ℤ, DecodedInst}
use droidsaw_hermes.Decode.Control.{
  checked_add_signed, branch_target, is_terminator, named, has_part,
}
use droidsaw_hermes.Cfg.{ExcHandler, inst_next_offset, string_cases, switch_cases, addr_at}

abbrev pub insert_some : Option ℕ → List ℕ → List ℕ
insert_some none set = set
insert_some (some x) set = set_insert x set

-- The target at a distance from an instruction, if there is such a distance.
abbrev pub target_from : ℕ → Option ℤ → Option ℕ
target_from offset none = none
target_from offset (some rel) = checked_add_signed offset rel

unfoldable pub insert_strings : ℕ → List (ℕ × ℤ) → List ℕ → List ℕ
insert_strings offset [] set = set
insert_strings offset ((_, rel) ∷ cases) set =
    insert_strings offset cases (insert_some (checked_add_signed offset rel) set)

unfoldable pub insert_cases : ℕ → List ℤ → List ℕ → List ℕ
insert_cases offset [] set = set
insert_cases offset (rel ∷ cases) set =
    insert_cases offset cases (insert_some (checked_add_signed offset rel) set)

module _ {Op : Type 0} (code : List ℕ) where
  unfoldable pub switch_boundaries : DecodedInst Op → List ℕ → List ℕ
  switch_boundaries inst set =
      if named inst.name "StringSwitchImm"
      then insert_strings inst.offset (string_cases code inst)
          (insert_some (target_from inst.offset (addr_at inst.operands 3)) set)
      else if has_part inst.name "SwitchImm"
      then insert_cases inst.offset (switch_cases code inst)
          (insert_some (target_from inst.offset (addr_at inst.operands 2)) set)
      else set

  -- One round of the loop over the instructions, once the next offset is known.
  unfoldable pub inst_boundaries : DecodedInst Op → ℕ → List ℕ → List ℕ
  inst_boundaries inst next set =
      switch_boundaries inst
        (insert_some (branch_target inst) (if is_terminator inst then set_insert next set else set))

  unfoldable pub boundaries_loop : List (DecodedInst Op) → List ℕ → Result HermesError (List ℕ)
  boundaries_loop [] set = ok set
  boundaries_loop (inst ∷ rest) set = elim (inst_next_offset inst) [
    | none ↦ err (arithmetic_overflow "instruction next-offset")
    | some next ↦ boundaries_loop rest (inst_boundaries inst next set)
  ]

unfoldable pub handler_boundaries : List ExcHandler → List ℕ → List ℕ
handler_boundaries [] set = set
handler_boundaries (eh ∷ rest) set =
    handler_boundaries rest (set_insert eh.target (set_insert eh.end (set_insert eh.start set)))

unfoldable pub boundaries :
    {Op : Type 0} → List (DecodedInst Op) → List ExcHandler → List ℕ → Result HermesError (List ℕ)
boundaries instructions exc_handlers bytecodes =
    boundaries_loop bytecodes instructions (set_insert 0 []) >>= λ set.
    ok (handler_boundaries exc_handlers set)
