-- ===== src/Cfg/Boundaries/Starts.antt =====
-- What is among the boundaries of src/decompile/cfg.rs.
use droidsaw_hermes.Prelude.{
  ℕ, ◌≡◌, refl, subst, true, List, [], ◌∷◌, Option, none, some, arith, if◌then◌else◌, Bool-cases,
  Option-cases, inl, inr,
}
use droidsaw_hermes.Prelude.Sets.{contains, set_insert, contains-set_insert}
use droidsaw_hermes.Errors.{ok, ok-injective, >>=-eq-ok}
use droidsaw_hermes.Decode.{ℤ, DecodedInst}
use droidsaw_hermes.Decode.Control.{
  checked_add_signed, branch_target, is_terminator, named, has_part,
}
use droidsaw_hermes.Cfg.{ExcHandler, inst_next_offset, string_cases, switch_cases, addr_at}
use droidsaw_hermes.Cfg.Boundaries.{
  insert_some, target_from, insert_strings, insert_cases, switch_boundaries, inst_boundaries,
  boundaries_loop, handler_boundaries, boundaries,
}

module _ (y : ℕ) where
  abbrev Has : List ℕ → Type 0
  Has set = contains set y ≡ true

  set_insert-Has : (x : ℕ) (set : List ℕ) → Has set → Has (set_insert x set)
  set_insert-Has x set h = ground (arith, h, contains-set_insert x y set)

  insert_some-Has : (o : Option ℕ) (set : List ℕ) → Has set → Has (insert_some o set)
  insert_some-Has none set h = h
  insert_some-Has (some x) set h = set_insert-Has x set h

  insert_strings-Has :
      (offset : ℕ) (cases : List (ℕ × ℤ)) (set : List ℕ)
      → Has set
      → Has (insert_strings offset cases set)
  unfolding insert_strings
  insert_strings-Has offset [] set h = h
  insert_strings-Has offset ((s, rel) ∷ cases) set h =
      insert_strings-Has offset cases (insert_some (checked_add_signed offset rel) set)
        (insert_some-Has (checked_add_signed offset rel) set h)

  insert_cases-Has :
      (offset : ℕ) (cases : List ℤ) (set : List ℕ) → Has set → Has (insert_cases offset cases set)
  unfolding insert_cases
  insert_cases-Has offset [] set h = h
  insert_cases-Has offset (rel ∷ cases) set h =
      insert_cases-Has offset cases (insert_some (checked_add_signed offset rel) set)
        (insert_some-Has (checked_add_signed offset rel) set h)

  handler_boundaries-Has :
      (ehs : List ExcHandler) (set : List ℕ) → Has set → Has (handler_boundaries ehs set)
  unfolding handler_boundaries
  handler_boundaries-Has [] set h = h
  handler_boundaries-Has (eh ∷ rest) set h =
      handler_boundaries-Has rest _
        (set_insert-Has eh.target _ (set_insert-Has eh.end _ (set_insert-Has eh.start set h)))

  module _ {Op : Type 0} (code : List ℕ) where
    switch_boundaries-Has :
        (inst : DecodedInst Op) (set : List ℕ) → Has set → Has (switch_boundaries code inst set)
    unfolding switch_boundaries
    switch_boundaries-Has inst set h = elim (Bool-cases (named inst.name "StringSwitchImm")) [
      | inl a ↦
          rw (switch_boundaries, a)
            (insert_strings-Has inst.offset (string_cases code inst) _
              (insert_some-Has (target_from inst.offset (addr_at inst.operands 3)) set h))
      | inr a ↦ elim (Bool-cases (has_part inst.name "SwitchImm")) [
        | inl b ↦
            rw (switch_boundaries, a, b)
              (insert_cases-Has inst.offset (switch_cases code inst) _
                (insert_some-Has (target_from inst.offset (addr_at inst.operands 2)) set h))
        | inr b ↦ rw (switch_boundaries, a, b) h
      ]
    ]

    next_Has :
        (inst : DecodedInst Op) (next : ℕ) (set : List ℕ)
        → Has set
        → Has (if is_terminator inst then set_insert next set else set)
    next_Has inst next set h = elim (Bool-cases (is_terminator inst)) [
      | inl a ↦ rw a (set_insert-Has next set h)
      | inr a ↦ rw a h
    ]

    inst_boundaries-Has :
        (inst : DecodedInst Op) (next : ℕ) (set : List ℕ)
        → Has set
        → Has (inst_boundaries code inst next set)
    unfolding inst_boundaries
    inst_boundaries-Has inst next set h =
        switch_boundaries-Has inst _
          (insert_some-Has (branch_target inst) _ (next_Has inst next set h))

    boundaries_loop-Has :
        (insts : List (DecodedInst Op)) (set out : List ℕ)
        → Has set
        → boundaries_loop code insts set ≡ ok out
        → Has out
    unfolding boundaries_loop
    boundaries_loop-Has [] set out h q = subst Has (ok-injective refl q) h
    boundaries_loop-Has (inst ∷ rest) set out h q = elim (Option-cases (inst_next_offset inst)) [
      | inl e ↦ let bad = rw (boundaries_loop, e) at q in cc
      | inr (next, e) ↦
          boundaries_loop-Has rest (inst_boundaries code inst next set) out
            (inst_boundaries-Has inst next set h) (rw (boundaries_loop, e) at q)
    ]

-- The beginning of the code is a boundary.
pub boundaries-zero :
    {Op : Type 0} (insts : List (DecodedInst Op)) (ehs : List ExcHandler) (code out : List ℕ)
    → boundaries insts ehs code ≡ ok out
    → contains out 0 ≡ true
unfolding boundaries set_insert contains
boundaries-zero insts ehs code out h =
    let (set, loop, q) = >>=-eq-ok (boundaries_loop code insts (set_insert 0 [])) _ h in
    subst (Has 0) (ok-injective refl q) (
      handler_boundaries-Has 0 ehs set
        (boundaries_loop-Has 0 code insts (set_insert 0 []) set refl loop))
