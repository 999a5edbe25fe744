-- ===== src/Functions/Validate/Bodies.antt =====
-- The first pass of `validate_function_regions` of src/parser/mod.rs.
use droidsaw_hermes.Prelude.{
  ℕ, zero, suc, ◌+◌, ◌≤◌, ◌<◌, ◌≡◌, ◌⊎◌, refl, sym, subst, inl, inr, true, ◌||◌, List, none, some,
  ltb, leb, ◌==◌, length, arith, Bool-cases, Option-cases,
}
use droidsaw_hermes.Errors.{HermesError, ok, err, >>=-eq-ok, ok-injective, Result-cases}
use droidsaw_hermes.Header.{function_count}
use droidsaw_hermes.LargeHeader.{overflow_header_is_oob, large_function_header_size}
use droidsaw_hermes.File.{HbcFile, UnrecognizedFunction}
use droidsaw_hermes.Spans.{FnSpan}
use droidsaw_hermes.Spans.Pairs.{Has}
use droidsaw_hermes.Unrecognized.Merge.{Ascends}
use droidsaw_hermes.Functions.{
  FunctionData, function_get_checked, entry_of, small_fields, large_offset, is_overflowed,
  entry_is_out, span_overlaps_synthesized,
}
use droidsaw_hermes.Functions.Exceptions.{exc_table_overlaps_synthesized}
use droidsaw_hermes.Functions.Validate.{
  Outcome, marked, skipped, kept, Pass, recovered, add_outcome, contains_mark, check_body,
  check_function, check_functions,
}
use droidsaw_hermes.Functions.Validate.Marks.{Ascends-le}

-- The mark of an error has the number of the function that was asked for.
abbrev About : ℕ → HermesError → Type 0
About i e = (u : UnrecognizedFunction) → recovered e ≡ some u → u.func_idx ≡ i

module _ (file : HbcFile) (i : ℕ) where
  function_get_checked-About : (e : HermesError) → function_get_checked file i ≡ err e → About i e
  unfolding function_get_checked recovered
  function_get_checked-About e h u r =
      let entry = entry_of file i in
      let s = small_fields file.header entry in
      let large_off = large_offset file.header entry s in
      elim (Bool-cases (leb (function_count file.header) i)) [
        | inl a ↦ let bad = rw (function_get_checked, a) at h in cc
        | inr a ↦ elim (Bool-cases (entry_is_out file i)) [
          | inl b ↦ let same = rw (function_get_checked, a, b) at h in cc
          | inr b ↦ elim (Bool-cases (is_overflowed s)) [
            | inr c ↦ let bad = rw (function_get_checked, a, b, c) at h in cc
            | inl c ↦ elim (Bool-cases (overflow_header_is_oob large_off (length file.buf))) [
              | inl d ↦ let same = rw (function_get_checked, a, b, c, d) at h in cc
              | inr d ↦
                  elim (Bool-cases
                    (span_overlaps_synthesized file large_off large_function_header_size)) [
                      | inl o ↦ let same = rw (function_get_checked, a, b, c, d, o) at h in cc
                      | inr o ↦ elim (Option-cases file.large_header_layout) [
                        | inl l ↦ let same = rw (function_get_checked, a, b, c, d, o, l) at h in cc
                        | inr (layout, l) ↦
                            let bad = rw (function_get_checked, a, b, c, d, o, l) at h in cc
                      ]
                    ]
            ]
          ]
        ]
      ]

abbrev pub span_of : ℕ → FunctionData → FnSpan
span_of i f = record { func_idx = i; offset = f.offset; size = f.size }

module _ (file : HbcFile) where
  abbrev pub InRegion : FunctionData → Type 0
  InRegion f = (file.bytecode_region.0 ≤ f.offset) × (f.offset + f.size ≤ file.bytecode_region.1)

  -- A function that is read, with its exception table clear of what is written anew.
  abbrev pub Read : ℕ → FunctionData → Type 0
  Read i f = (function_get_checked file i ≡ ok f) × (exc_table_overlaps_synthesized file i ≡ none)

  -- What an outcome of the first pass says of its function.
  abbrev Tells : ℕ → Outcome → Type 0
  Tells i (marked u) = u.func_idx ≡ i
  Tells i skipped = (f : FunctionData) × Read i f × (f.size ≡ 0)
  Tells i (kept s) = (f : FunctionData) × Read i f × InRegion f × (s ≡ span_of i f)

  check_body-Tells :
      (i : ℕ) (f : FunctionData) (o : Outcome) → Read i f → check_body file i f ≡ ok o → Tells i o
  unfolding check_body
  check_body-Tells i f o read h = elim (Bool-cases (f.size == 0)) [
    | inl empty ↦
        let same : skipped ≡ o = ok-injective refl (rw (check_body, empty) at h) in
        subst (Tells i) same (f, read, ground (arith, empty))
    | inr some_body ↦
        elim (Bool-cases
          (ltb f.offset file.bytecode_region.0 || ltb file.bytecode_region.1 (f.offset + f.size))) [
            | inl out ↦ let bad = rw (check_body, some_body, out) at h in cc
            | inr inside ↦
                let same : kept (span_of i f) ≡ o =
                  ok-injective refl (rw (check_body, some_body, inside) at h) in
                subst (Tells i) same
                  (f, read, (ground (arith, inside), ground (arith, inside)), refl)
          ]
  ]

  check_function-Tells : (i : ℕ) (o : Outcome) → check_function file i ≡ ok o → Tells i o
  unfolding check_function
  check_function-Tells i o h = elim (Result-cases (function_get_checked file i)) [
    | inr (e, failed) ↦ elim (Option-cases (recovered e)) [
      | inl fatal ↦ let bad = rw (check_function, failed, fatal) at h in cc
      | inr (u, mild) ↦
          let same : marked u ≡ o = ok-injective refl (rw (check_function, failed, mild) at h) in
          subst (Tells i) same (function_get_checked-About file i e failed u mild)
    ]
    | inl (f, got) ↦ elim (Option-cases (exc_table_overlaps_synthesized file i)) [
      | inr (off, aliased) ↦
          let same = ok-injective refl (rw (check_function, got, aliased) at h) in
          subst (Tells i) same refl
      | inl clear ↦ check_body-Tells i f o (got, clear) (rw (check_function, got, clear) at h)
    ]
  ]

  -- What a function satisfies that the first pass does not mark.
  abbrev pub Placed : List FnSpan → ℕ → Type 0
  Placed spans i =
      (f : FunctionData) × Read i f × ((f.size ≡ 0) ⊎ (InRegion f × Has (span_of i f) spans))

  abbrev pub MarkedOrPlaced : Pass → ℕ → Type 0
  MarkedOrPlaced p i = (contains_mark p.unrecognized i ≡ true) ⊎ Placed p.spans i

  MarkedOrPlaced-here :
      (i : ℕ) (o : Outcome) (p : Pass) → Tells i o → MarkedOrPlaced (add_outcome o p) i
  unfolding contains_mark add_outcome
  MarkedOrPlaced-here i (marked u) p same =
      let here : (u.func_idx == i) ≡ true = ground (arith, same) in
      inl (rw (contains_mark, here) refl)
  MarkedOrPlaced-here i skipped p (f, read, empty) = inr (f, read, inl empty)
  MarkedOrPlaced-here i (kept s) p (f, read, region, same) = inr (f, read, inr (region, inl same))

  MarkedOrPlaced-later :
      (i : ℕ) (o : Outcome) (p : Pass) → MarkedOrPlaced p i → MarkedOrPlaced (add_outcome o p) i
  unfolding contains_mark add_outcome
  MarkedOrPlaced-later i (marked u) p (inl m) = inl (elim (Bool-cases (u.func_idx == i)) [
    | inl here ↦ rw (contains_mark, here) refl
    | inr other ↦ rw (contains_mark, other) m
  ])
  MarkedOrPlaced-later i (marked u) p (inr placed) = inr placed
  MarkedOrPlaced-later i skipped p h = h
  MarkedOrPlaced-later i (kept s) p (inl m) = inl m
  MarkedOrPlaced-later i (kept s) p (inr (f, read, inl empty)) = inr (f, read, inl empty)
  MarkedOrPlaced-later i (kept s) p (inr (f, read, inr (region, has))) =
      inr (f, read, inr (region, inr has))

  add_outcome-Ascends :
      (i : ℕ) (o : Outcome) (p : Pass)
      → Tells i o
      → Ascends (suc i) p.unrecognized
      → Ascends i (add_outcome o p).unrecognized
  unfolding add_outcome
  add_outcome-Ascends i (marked u) p same h =
      (omega (arith, same), subst (λ (n : ℕ). Ascends (suc n) p.unrecognized) (sym same) h)
  add_outcome-Ascends i skipped p told h = Ascends-le i (suc i) p.unrecognized (omega arith) h
  add_outcome-Ascends i (kept s) p told h = Ascends-le i (suc i) p.unrecognized (omega arith) h

  pub check_functions-Ascends :
      (left at : ℕ) (p : Pass)
      → check_functions file left at ≡ ok p
      → Ascends at p.unrecognized × ((i : ℕ) → at ≤ i → i < at + left → MarkedOrPlaced p i)
  unfolding check_functions
  check_functions-Ascends zero at p h =
      let same = ok-injective refl h in
      (subst (λ (q : Pass). Ascends at q.unrecognized) same tt, λ i low high. ground arith)
  check_functions-Ascends (suc left) at p h =
      let (o, one, more) = >>=-eq-ok (check_function file at) _ h in
      let (q, rest, last) = >>=-eq-ok (check_functions file left (suc at)) _ more in
      let told = check_function-Tells at o one in
      let (ascends, placed) = check_functions-Ascends left (suc at) q rest in
      let same : add_outcome o q ≡ p = ok-injective refl last in
      subst
        (λ (r : Pass).
          Ascends at r.unrecognized × ((i : ℕ) → at ≤ i → i < at + suc left → MarkedOrPlaced r i))
        same
        (
          add_outcome-Ascends at o q told ascends,
          λ i low high. elim (Bool-cases (at == i)) [
            | inl here ↦
                subst (MarkedOrPlaced (add_outcome o q)) (ground (arith, here))
                  (MarkedOrPlaced-here at o q told)
            | inr later ↦
                MarkedOrPlaced-later i o q
                  (placed i (ground (arith, later, low)) (omega (arith, high)))
          ],
        )
