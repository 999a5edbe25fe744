-- ===== src/Functions/Validate/Valid.antt =====
-- What holds of a file whose functions `validate_function_regions` of src/parser/mod.rs has accepted.
use droidsaw_hermes.Prelude.{
  ℕ, ◌<◌, ◌≡◌, ◌≢◌, ◌⊎◌, refl, sym, ap, subst, ◌∙◌, inl, inr, false, List, arith, Bool-cases,
}
use droidsaw_hermes.Errors.{ok, >>=-eq-ok, ok-injective}
use droidsaw_hermes.Header.{function_count}
use droidsaw_hermes.File.{HbcFile, UnrecognizedFunction}
use droidsaw_hermes.Spans.{FnSpan, check_overlaps}
use droidsaw_hermes.Spans.Apart.{Separate}
use droidsaw_hermes.Spans.Pairs.{Has, check_overlaps-Compatible}
use droidsaw_hermes.Unrecognized.{merge_sorted_unrecognized}
use droidsaw_hermes.Unrecognized.Merge.{Ascends, merge_sorted_unrecognized-Ascends}
use droidsaw_hermes.Functions.{FunctionData, function_get_checked}
use droidsaw_hermes.Functions.Validate.{
  Pass, contains_mark, check_functions, check_handlers, validate_function_regions,
}
use droidsaw_hermes.Functions.Validate.Marks.{
  Unmarked-Apart, contains_mark-merge_sorted_unrecognized,
}
use droidsaw_hermes.Functions.Validate.Bodies.{
  InRegion, Read, Placed, span_of, check_functions-Ascends,
}
use droidsaw_hermes.Functions.Validate.Handlers.{HandlersIn, Covered, check_handlers-Covered}

-- A function that is read has its body, unless it is empty, in the region of the bytecode, and its
-- handlers in its body.
abbrev pub Sound : HbcFile → ℕ → Type 0
Sound file i =
    (f : FunctionData) × Read file i f × ((f.size ≡ 0) ⊎ InRegion file f) × HandlersIn file i f.size

abbrev pub Free : HbcFile → ℕ → Type 0
Free out i = contains_mark out.unrecognized_functions i ≡ false

pub record Valid (file out : HbcFile) : Type 0 where
  pub only_marks : out ≡ record file { unrecognized_functions = out.unrecognized_functions }
  pub ascends : Ascends 0 out.unrecognized_functions
  pub sound : (i : ℕ) → i < function_count file.header → Free out i → Sound file i
  pub apart :
      (i j : ℕ) (f g : FunctionData)
      → i < function_count file.header
      → j < function_count file.header
      → i ≢ j
      → Free out i
      → Free out j
      → function_get_checked file i ≡ ok f
      → function_get_checked file j ≡ ok g
      → f.size ≢ 0
      → g.size ≢ 0
      → Separate (span_of i f) (span_of j g) ⊎ Separate (span_of j g) (span_of i f)

module _ (file : HbcFile) (p : Pass) (vs : List UnrecognizedFunction)
    (first : check_functions file (function_count file.header) 0 ≡ ok p)
    (second : check_overlaps p.spans ≡ ok tt)
    (third : check_handlers file p.unrecognized (function_count file.header) 0 ≡ ok vs) where
  abbrev marks : List UnrecognizedFunction
  marks = merge_sorted_unrecognized p.unrecognized vs

  covered : Covered file p.unrecognized 0 (function_count file.header) vs
  covered = check_handlers-Covered file p.unrecognized (function_count file.header) 0 vs third

  neither :
      (i : ℕ)
      → contains_mark marks i ≡ false
      → (contains_mark p.unrecognized i ≡ false) × (contains_mark vs i ≡ false)
  neither i free =
      let both = contains_mark-merge_sorted_unrecognized p.unrecognized vs i in
      elim (Bool-cases (contains_mark p.unrecognized i)) [
        | inl m ↦ let bad = rw (m) at both in cc
        | inr a ↦ elim (Bool-cases (contains_mark vs i)) [
          | inl m ↦ let bad = rw (a, m) at both in cc
          | inr b ↦ (a, b)
        ]
      ]

  placed :
      (i : ℕ)
      → i < function_count file.header
      → contains_mark marks i ≡ false
      → Placed file p.spans i
  placed i lt free =
      let (a, b) = neither i free in
      elim ((check_functions-Ascends file (function_count file.header) 0 p first).1 i (omega arith)
        (omega (arith, lt))) [ inl m ↦ cc | inr found ↦ found ]

  marks-Sound :
      (i : ℕ) → i < function_count file.header → contains_mark marks i ≡ false → Sound file i
  marks-Sound i lt free =
      let (a, b) = neither i free in
      let (f, read, body) = placed i lt free in
      let region : (f.size ≡ 0) ⊎ InRegion file f = elim body [
        | inl empty ↦ inl empty
        | inr (inside, has) ↦ inr inside
      ] in
      elim (covered.handled i (omega arith) (omega (arith, lt))) [
        | inl m ↦ cc
        | inr (inl m) ↦ cc
        | inr (inr handled) ↦ (f, read, region, handled f read.0)
      ]

  spanned :
      (i : ℕ) (f : FunctionData)
      → i < function_count file.header
      → contains_mark marks i ≡ false
      → function_get_checked file i ≡ ok f
      → f.size ≢ 0
      → Has (span_of i f) p.spans
  spanned i f lt free got some_body =
      let (g, read, body) = placed i lt free in
      let same : g ≡ f = ok-injective read.0 got in
      elim body [
        | inl empty ↦
            let bad : ⊥ = some_body (sym (ap (λ (k : FunctionData). k.size) same) ∙ empty) in
            elim bad [ ]
        | inr (inside, has) ↦ subst (λ (k : FunctionData). Has (span_of i k) p.spans) same has
      ]

-- In an accepted file nothing is changed but the marks, which ascend by number; each function without a
-- mark is read, has its exception table clear of what the emitters write anew, its body in the region of
-- the bytecode unless it is empty, and all its handlers in its body; and any two such functions that are
-- not empty share a body, or one ends before the other one starts.
pub validate_function_regions-Valid :
    (file out : HbcFile) → validate_function_regions file ≡ ok out → Valid file out
unfolding validate_function_regions
validate_function_regions-Valid file out h =
    let count = function_count file.header in
    let (p, first, h1) = >>=-eq-ok (check_functions file count 0) _ h in
    let (t, second, h2) = >>=-eq-ok (check_overlaps p.spans) _ h1 in
    let (vs, third, h3) = >>=-eq-ok (check_handlers file p.unrecognized count 0) _ h2 in
    let cover = check_handlers-Covered file p.unrecognized count 0 vs third in
    let merged =
      merge_sorted_unrecognized-Ascends 0 p.unrecognized vs
        (check_functions-Ascends file count 0 p first).0 cover.ascends
        (Unmarked-Apart p.unrecognized vs cover.unmarked) in
    subst (Valid file) (ok-injective refl h3) record {
      only_marks = refl;
      ascends = merged.0;
      sound = marks-Sound file p vs first second third;
      apart = λ i j f g low high other free_i free_j got_i got_j body_i body_j.
          elim (check_overlaps-Compatible p.spans second (span_of i f) (span_of j g)
            (spanned file p vs first second third i f low free_i got_i body_i)
            (spanned file p vs first second third j g high free_j got_j body_j)) [
              | inl same ↦
                  let bad : ⊥ = other (ap (λ (s : FnSpan). s.func_idx) same) in elim bad [ ]
              | inr separate ↦ separate
            ];
    }
