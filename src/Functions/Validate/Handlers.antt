-- ===== src/Functions/Validate/Handlers.antt =====
-- The third pass of `validate_function_regions` of src/parser/mod.rs.
use droidsaw_hermes.Prelude.{
  ℕ, zero, suc, ◌+◌, ◌≤◌, ◌<◌, ◌≡◌, ◌⊎◌, refl, sym, subst, inl, inr, true, false, List, ◌∷◌, none,
  some, ◌==◌, arith, Bool-cases, Option-cases,
}
use droidsaw_hermes.Errors.{ok, >>=-eq-ok, ok-injective, Result-cases}
use droidsaw_hermes.File.{HbcFile, UnrecognizedFunction}
use droidsaw_hermes.Unrecognized.Merge.{Ascends}
use droidsaw_hermes.Functions.{FunctionData, function_get_checked}
use droidsaw_hermes.Functions.Exceptions.{function_exception_count, function_exception_get}
use droidsaw_hermes.Functions.Validate.{
  recovered, contains_mark, in_range, bad_handler, check_handlers,
}
use droidsaw_hermes.Functions.Validate.Marks.{Ascends-le, Unmarked}

module _ (file : HbcFile) where
  -- The handlers of a function lie in a body of a size.
  abbrev pub HandlersIn : ℕ → ℕ → Type 0
  HandlersIn i size =
      (h : ℕ)
      → h < function_exception_count file i
      → in_range size (function_exception_get file i h) ≡ true

  bad_handler-none :
      (i size left from : ℕ)
      → bad_handler file i size left from ≡ none
      → (h : ℕ) → from ≤ h
      → h < from + left
      → in_range size (function_exception_get file i h) ≡ true
  unfolding bad_handler
  bad_handler-none i size zero from e h low high = ground arith
  bad_handler-none i size (suc left) from e h low high =
      elim (Bool-cases (in_range size (function_exception_get file i from))) [
        | inr out ↦ let bad = rw (bad_handler, out) at e in cc
        | inl good ↦ elim (Bool-cases (from == h)) [
          | inl here ↦
              subst (λ (n : ℕ). in_range size (function_exception_get file i n) ≡ true)
                (ground (arith, here)) good
          | inr later ↦
              bad_handler-none i size left (suc from) (rw (bad_handler, good) at e) h
                (ground (arith, later, low)) (omega (arith, high))
        ]
      ]

  bad_handler-some :
      (i size left from : ℕ) (u : UnrecognizedFunction)
      → bad_handler file i size left from ≡ some u
      → u.func_idx ≡ i
  unfolding bad_handler
  bad_handler-some i size zero from u e = cc
  bad_handler-some i size (suc left) from u e =
      elim (Bool-cases (in_range size (function_exception_get file i from))) [
        | inr out ↦ let same = rw (bad_handler, out) at e in cc
        | inl good ↦ bad_handler-some i size left (suc from) u (rw (bad_handler, good) at e)
      ]

  -- A function that can be read has its handlers in its body.
  abbrev pub Handled : ℕ → Type 0
  Handled i = (f : FunctionData) → function_get_checked file i ≡ ok f → HandlersIn i f.size

  module _ (us : List UnrecognizedFunction) where
    -- What the third pass says from a number on.
    pub record Covered (at left : ℕ) (vs : List UnrecognizedFunction) : Type 0 where
      pub ascends : Ascends at vs
      pub unmarked : Unmarked us vs
      pub handled :
          (i : ℕ)
          → at ≤ i
          → i < at + left
          → (contains_mark us i ≡ true) ⊎ ((contains_mark vs i ≡ true) ⊎ Handled i)

    skip_one :
        (left at : ℕ) (vs : List UnrecognizedFunction)
        → Covered (suc at) left vs
        → (contains_mark us at ≡ true) ⊎ ((contains_mark vs at ≡ true) ⊎ Handled at)
        → Covered at (suc left) vs
    skip_one left at vs rest first = record {
      ascends = Ascends-le at (suc at) vs (omega arith) rest.ascends;
      unmarked = rest.unmarked;
      handled = λ i low high. elim (Bool-cases (at == i)) [
        | inl here ↦
            subst
              (λ (n : ℕ). (contains_mark us n ≡ true) ⊎ ((contains_mark vs n ≡ true) ⊎ Handled n))
              (ground (arith, here)) first
        | inr later ↦ rest.handled i (ground (arith, later, low)) (omega (arith, high))
      ];
    }

    mark_one :
        (left at : ℕ) (u : UnrecognizedFunction) (vs : List UnrecognizedFunction)
        → Covered (suc at) left vs
        → u.func_idx ≡ at
        → contains_mark us at ≡ false
        → Covered at (suc left) (u ∷ vs)
    unfolding contains_mark
    mark_one left at u vs rest same free = record {
      ascends =
          (omega (arith, same), subst (λ (n : ℕ). Ascends (suc n) vs) (sym same) rest.ascends);
      unmarked = (subst (λ (n : ℕ). contains_mark us n ≡ false) (sym same) free, rest.unmarked);
      handled = λ i low high. elim (Bool-cases (u.func_idx == i)) [
        | inl here ↦ inr (inl (rw (contains_mark, here) refl))
        | inr later ↦
            elim (rest.handled i (ground (arith, later, low, same)) (omega (arith, high))) [
              | inl m ↦ inl m
              | inr (inl m) ↦ inr (inl (rw (contains_mark, later) m))
              | inr (inr handled) ↦ inr (inr handled)
            ]
      ];
    }

    handlers_of :
        (i : ℕ) (f : FunctionData)
        → function_get_checked file i ≡ ok f
        → bad_handler file i f.size (function_exception_count file i) 0 ≡ none
        → Handled i
    handlers_of i f got fine g got_too h lt =
        let same = ok-injective got got_too in
        subst (λ (k : FunctionData). in_range k.size (function_exception_get file i h) ≡ true) same
          (bad_handler-none i f.size (function_exception_count file i) 0 fine h (omega arith)
            (omega (arith, lt)))

    pub check_handlers-Covered :
        (left at : ℕ) (vs : List UnrecognizedFunction)
        → check_handlers file us left at ≡ ok vs
        → Covered at left vs
    unfolding check_handlers
    check_handlers-Covered zero at vs h =
        let same = ok-injective refl h in
        subst (Covered at zero) same
          record { ascends = tt; unmarked = tt; handled = λ i low high. ground arith }
    check_handlers-Covered (suc left) at vs h = elim (Bool-cases (contains_mark us at)) [
      | inl m ↦
          skip_one left at vs
            (check_handlers-Covered left (suc at) vs (rw (check_handlers, m) at h)) (inl m)
      | inr free ↦ elim (Result-cases (function_get_checked file at)) [
        | inr (e, failed) ↦ elim (Option-cases (recovered e)) [
          | inl fatal ↦ let bad = rw (check_handlers, free, failed, fatal) at h in cc
          | inr (u, mild) ↦
              skip_one left at vs
                (check_handlers-Covered left (suc at) vs
                  (rw (check_handlers, free, failed, mild) at h))
                (inr (inr (λ f got. cc)))
        ]
        | inl (f, got) ↦
            let (more, rest, last) =
              >>=-eq-ok (check_handlers file us left (suc at)) _
                (rw (check_handlers, free, got) at h) in
            let covered = check_handlers-Covered left (suc at) more rest in
            elim (Option-cases (bad_handler file at f.size (function_exception_count file at) 0)) [
              | inl fine ↦
                  let same : more ≡ vs = ok-injective refl (rw (fine) at last) in
                  subst (Covered at (suc left)) same
                    (skip_one left at more covered (inr (inr (handlers_of at f got fine))))
              | inr (u, found) ↦
                  let same : (u ∷ more) ≡ vs = ok-injective refl (rw (found) at last) in
                  subst (Covered at (suc left)) same (
                    mark_one left at u more covered
                      (bad_handler-some at f.size (function_exception_count file at) 0 u found)
                      free)
            ]
      ]
    ]
