-- ===== src/LargeHeader/Selection/Coherent.antt =====
-- What the choice of a layout in src/parser/mod.rs says of the large headers of the file.
use mathlib.Core.Option
use droidsaw_hermes.Prelude.{
  ℕ, zero, suc, ◌+◌, ◌^◌, ◌≤◌, ◌<◌, ◌≡◌, sym, subst, ◌∙◌, inl, inr, Bool, true, false, ◌&&◌, List,
  none, some, length, ◌==◌, arith, Bool-cases, Option-cases,
}
use droidsaw_hermes.Bytes.{IsBytes}
use droidsaw_hermes.Header.{function_count, version}
use droidsaw_hermes.File.{HbcFile, LargeHeaderLayout, shape36, shape40}
use droidsaw_hermes.LargeHeader.{overflow_header_is_oob}
use droidsaw_hermes.LargeHeader.Shapes.{HasShape}
use droidsaw_hermes.LargeHeader.Selection.{
  Score, Memo, Tally, score_large_header, scored_off, add_score, select_loop, choose,
  select_v98_large_header_layout, first_memo, is_late, overflowed_large_off_v98late,
}
use droidsaw_hermes.LargeHeader.{large_function_header_size}
use droidsaw_hermes.Functions.{span_overlaps_synthesized}
use droidsaw_hermes.LargeHeader.Selection.Scores.{Right, Good, score_large_header-Good}

abbrev violates : LargeHeaderLayout → Score → Bool
violates shape36 s = s.violates36
violates shape40 s = s.violates40

abbrev violations : LargeHeaderLayout → Tally → ℕ
violations shape36 t = t.violations36
violations shape40 t = t.violations40

Right-HasShape :
    (buf : List ℕ) (shape : LargeHeaderLayout) (large_off : ℕ) (s : Score)
    → Right buf large_off s
    → violates shape s ≡ false
    → HasShape buf large_off shape
Right-HasShape buf shape36 large_off s right e = right.shape36_right.0 e
Right-HasShape buf shape40 large_off s right e = right.shape40_right.0 e

-- A count that stays 0 counts no violation.
add_score-violations :
    (shape : LargeHeaderLayout) (s : Score) (t : Tally)
    → violations shape (add_score s t) ≡ 0
    → (violates shape s ≡ false) × (violations shape t ≡ 0)
unfolding add_score
add_score-violations shape36 s t e = ground arith
add_score-violations shape40 s t e = ground arith

module _ (file : HbcFile) (bytes : IsBytes file.buf) (short : length file.buf < 2 ^ 63) where
  scored_off_inside :
      (i large_off : ℕ)
      → scored_off file i ≡ some large_off
      → overflow_header_is_oob large_off (length file.buf) ≡ false
  unfolding scored_off
  scored_off_inside i large_off e = elim (Option-cases (overflowed_large_off_v98late file i)) [
    | inl a ↦ let bad = rw (scored_off, a) at e in cc
    | inr (off, a) ↦ elim (Bool-cases (overflow_header_is_oob off (length file.buf))) [
      | inl out ↦ let bad = rw (scored_off, a, out) at e in cc
      | inr inside ↦
          elim (Bool-cases (span_overlaps_synthesized file off large_function_header_size)) [
            | inl over ↦ let bad = rw (scored_off, a, inside, over) at e in cc
            | inr clear ↦
                let same =
                  Option.some-injective off large_off (rw (scored_off, a, inside, clear) at e) in
                subst (λ (n : ℕ). overflow_header_is_oob n (length file.buf) ≡ false) same inside
          ]
    ]
  ]

  -- The large headers of the functions in a range that take part have a shape.
  abbrev pub AllHave : LargeHeaderLayout → ℕ → ℕ → Type 0
  AllHave shape at left =
      (i large_off : ℕ)
      → at ≤ i
      → i < at + left
      → scored_off file i ≡ some large_off
      → HasShape file.buf large_off shape

  select_loop-AllHave :
      (shape : LargeHeaderLayout) (left at : ℕ) (memo : Memo) (tally t : Tally)
      → Good file.buf memo
      → select_loop file left at memo tally ≡ some t
      → violations shape t ≡ 0
      → (violations shape tally ≡ 0) × AllHave shape at left
  unfolding select_loop
  select_loop-AllHave shape zero at memo tally t good e none_counted =
      let same = Option.some-injective tally t e in
      (
        subst (λ (u : Tally). violations shape u ≡ 0) (sym same) none_counted,
        λ i large_off low high found. ground arith,
      )
  select_loop-AllHave shape (suc left) at memo tally t good e none_counted =
      elim (Option-cases (scored_off file at)) [
        | inl absent ↦
            let (before, later) =
              select_loop-AllHave shape left (suc at) memo tally t good
                (rw (select_loop, absent) at e) none_counted in
            (
              before,
              λ i large_off low high found. elim (Bool-cases (at == i)) [
                | inl here ↦
                    let same : at ≡ i = ground (arith, here) in
                    let found' =
                      subst (λ (n : ℕ). scored_off file n ≡ some large_off) (sym same) found in
                    cc
                | inr other ↦
                    later i large_off (ground (arith, other, low)) (omega (arith, high)) found
              ],
            )
        | inr (off, scored) ↦
            let r = score_large_header file.buf off memo in
            elim (Option-cases r.0) [
              | inl exhausted ↦ let bad = rw (select_loop, scored, exhausted) at e in cc
              | inr (s, judged) ↦
                  let (right, good') =
                    score_large_header-Good file.buf bytes short off memo s
                      (scored_off_inside at off scored) good judged in
                  let (after, later) =
                    select_loop-AllHave shape left (suc at) r.1 (add_score s tally) t good'
                      (rw (select_loop, scored, judged) at e) none_counted in
                  let (fine, before) = add_score-violations shape s tally after in
                  (
                    before,
                    λ i large_off low high found. elim (Bool-cases (at == i)) [
                      | inl here ↦
                          let same : at ≡ i = ground (arith, here) in
                          let found' =
                            subst (λ (n : ℕ). scored_off file n ≡ some large_off) (sym same)
                              found in
                          let off_same =
                            Option.some-injective off large_off (sym scored ∙ found') in
                          subst (λ (n : ℕ). HasShape file.buf n shape) off_same
                            (Right-HasShape file.buf shape off s right fine)
                      | inr other ↦
                          later i large_off (ground (arith, other, low)) (omega (arith, high)) found
                    ],
                  )
            ]
      ]

  choose-none_counted :
      (shape : LargeHeaderLayout) (t : Tally)
      → choose (some t) ≡ some shape
      → violations shape t ≡ 0
  unfolding choose
  choose-none_counted shape36 t e = ground arith
  choose-none_counted shape40 t e = ground arith

  -- When a layout is chosen for a late file of version 98 that consists of bytes and is shorter than
  -- 2 ^ 63, then each large header of an overflowed function that lies in the file, clear of what the
  -- emitters write anew, has that shape: its flags are those of a large header, and a table of handlers
  -- that they announce fits behind it.
  pub select_v98_large_header_layout-HasShape :
      (shape : LargeHeaderLayout)
      → (is_late file.header && version file.header == 98) ≡ true
      → (select_v98_large_header_layout file).large_header_layout ≡ some shape
      → (i large_off : ℕ) → i < function_count file.header
      → scored_off file i ≡ some large_off
      → HasShape file.buf large_off shape
  unfolding select_v98_large_header_layout choose
  select_v98_large_header_layout-HasShape shape late e i large_off lt found =
      let chosen = rw (select_v98_large_header_layout, late) at e in
      let start : Tally = record { violations36 = 0; violations40 = 0; disagreements = 0 } in
      let loop = select_loop file (function_count file.header) 0 (first_memo file.buf) start in
      elim (Option-cases loop) [
        | inl exhausted ↦ let bad : none ≡ some shape = rw (exhausted) at chosen in cc
        | inr (t, tallied) ↦
            let counted = choose-none_counted shape t (rw (tallied) at chosen) in
            (select_loop-AllHave shape (function_count file.header) 0 (first_memo file.buf) start t
                record { remembers = tt; scores = tt } tallied counted).1
              i large_off (omega arith) (omega (arith, lt)) found
      ]
