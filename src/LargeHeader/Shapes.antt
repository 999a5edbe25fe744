-- ===== src/LargeHeader/Shapes.antt =====
-- What the verdict on a large header in src/parser/mod.rs stands for, through the map of summaries.
use droidsaw_hermes.Prelude.{
  if◌then◌else◌, not, ℕ, zero, ◌+◌, ◌*◌, ◌/◌, ◌%◌, ◌^◌, ◌≤◌, ◌<◌, ◌≡◌, ◌≢◌, ◌↔◌, ◌⊎◌, refl, sym, ap,
  List, [], ◌∷◌, Option, none, some, length, arith, tests, Bool, true, false, Bool-cases,
  Option-cases, inl, inr, ltb, ◌==◌, All, get_elem?, bit_and, min, ◌∙◌, subst,
}
use droidsaw_hermes.Bytes.{IsBytes, read_u32_le}
use droidsaw_hermes.Bytes.Value.{read_u32_le-lt}
use droidsaw_hermes.Sections.{u32_max}
use droidsaw_hermes.File.{LargeHeaderLayout, shape36, shape40}
use droidsaw_hermes.LargeHeader.{
  Summary, Scratch, header_bytes, flags_offset, u64_max, align4_u64, find, remember, judge,
  exc_table_summary_uncached, exc_table_summary, large_header_shape_violation,
  overflow_header_is_oob, suc,
}
use droidsaw_hermes.LargeHeader.Tables.{TableFits, exc_table_summary_uncached-Exact}

shape_small : (shape : LargeHeaderLayout) → (flags_offset shape ≤ 36) × (header_bytes shape ≤ 40)
shape_small shape36 = (omega arith, omega arith)
shape_small shape40 = (omega arith, omega arith)

get_elem?-none : (xs : List ℕ) (i : ℕ) → get_elem? xs i ≡ none → length xs ≤ i
get_elem?-none [] i h = omega arith
get_elem?-none (x ∷ xs) zero h = ground arith
get_elem?-none (x ∷ xs) (suc i) h = omega (arith, get_elem?-none xs i h)

module _ (buf : List ℕ) where
  -- Some budget gives the table this summary.
  abbrev pub Walked : ℕ → Option ℕ → Type 0
  Walked table summary =
      (budget : ℕ) × ((exc_table_summary_uncached buf table budget).0 ≡ some summary)

  -- Every summary that is remembered is that of its table.
  abbrev pub Remembers : Scratch → Type 0
  Remembers scratch = All (λ (entry : ℕ × Option ℕ). Walked entry.0 entry.1) scratch.per_table

  find-Walked :
      (entries : List (ℕ × Option ℕ)) (table : ℕ) (summary : Option ℕ)
      → All (λ (entry : ℕ × Option ℕ). Walked entry.0 entry.1) entries
      → find entries table ≡ some summary
      → Walked table summary
  unfolding find
  find-Walked [] table summary h q = ground arith
  find-Walked ((key, found) ∷ rest) table summary h q = elim (Bool-cases (key == table)) [
    | inl same ↦
        let k : key ≡ table = ground (arith, same) in
        let s : some found ≡ some summary = rw (find, same) at q in ground (arith, h.0, k, s)
    | inr other ↦ find-Walked rest table summary h.1 (rw (find, other) at q)
  ]

  abbrev Answer : ℕ → ℕ → Summary × Scratch → Type 0
  Answer table budget (none, after) = (budget < read_u32_le buf table) × Remembers after
  Answer table budget (some summary, after) = Walked table summary × Remembers after

  remember-Answer :
      (table : ℕ) (scratch : Scratch) (r : Summary × ℕ)
      → Remembers scratch
      → exc_table_summary_uncached buf table scratch.budget ≡ r
      → Answer table scratch.budget (remember scratch table r)
  remember-Answer table scratch (none, left) h q =
      (rw q at (exc_table_summary_uncached-Exact buf table scratch.budget 0 (omega arith)), h)
  remember-Answer table scratch (some summary, left) h q =
      let w : Walked table summary = (scratch.budget, ap (λ r. r.0) q) in
      let all : Walked table summary × Remembers scratch = (w, h) in (w, all)

  exc_table_summary-Answer :
      (table : ℕ) (scratch : Scratch)
      → Remembers scratch
      → Answer table scratch.budget (exc_table_summary buf table scratch)
  unfolding exc_table_summary
  exc_table_summary-Answer table scratch h = elim (Option-cases (find scratch.per_table table)) [
    | inl fresh ↦ rw (exc_table_summary, fresh) (remember-Answer table scratch _ h refl)
    | inr (summary, found) ↦
        rw (exc_table_summary, found) (find-Walked scratch.per_table table summary h found, h)
  ]

  -- The table that a flags byte asks for, if any, fits.
  abbrev pub HandlersFit : ℕ → ℕ → ℕ → Type 0
  HandlersFit flags table fn_size = (flags / 8 % 2 ≡ 0) ⊎ TableFits buf table fn_size

  -- A flags byte has no invalid kind of call and is not that of a small header, and if it says that
  -- there are handlers, their table is behind the header, from the next multiple of 4 on, and fits the
  -- size that the header gives.
  abbrev pub GoodFlags : ℕ → LargeHeaderLayout → ℕ → Type 0
  GoodFlags large_off shape flags =
      (bit_and flags 3 ≢ 3)
      × (flags / 32 % 2 ≡ 0)
      × HandlersFit flags ((large_off + header_bytes shape + 3) / 4 * 4)
          (read_u32_le buf (large_off + 12))

  -- The header at the position has a shape: its flags byte there is good.
  abbrev pub HasShape : ℕ → LargeHeaderLayout → Type 0
  HasShape large_off shape =
      (flags : ℕ) × (get_elem? buf (large_off + flags_offset shape) ≡ some flags)
      × GoodFlags large_off shape flags

  HasShape-GoodFlags :
      (large_off : ℕ) (shape : LargeHeaderLayout) (flags : ℕ)
      → get_elem? buf (large_off + flags_offset shape) ≡ some flags
      → HasShape large_off shape
      → GoodFlags large_off shape flags
  HasShape-GoodFlags large_off shape flags read (flags', read', good) =
      let same : some flags' ≡ some flags = sym read' ∙ read in
      let q : flags' ≡ flags = ground (arith, same) in
      subst (λ x. GoodFlags large_off shape x) q good

  -- What a verdict says; without one, the budget was too small for the table at the position.
  abbrev pub Verdict : Type 0 → ℕ → ℕ → Option Bool × Scratch → Type 0
  Verdict Right table budget (none, after) = (budget < read_u32_le buf table) × Remembers after
  Verdict Right table budget (some violated, after) = ((violated ≡ false) ↔ Right) × Remembers after

  Verdict-equivalent :
      {Right Right' : Type 0} (table budget : ℕ)
      → Right ↔ Right'
      → (r : Option Bool × Scratch) → Verdict Right table budget r
      → Verdict Right' table budget r
  Verdict-equivalent table budget e (none, after) v = v
  Verdict-equivalent table budget e (some violated, after) (v, h) =
      ((λ q. e.0 (v.0 q), λ f. v.1 (e.1 f)), h)

  judge-Verdict :
      (table fn_size budget : ℕ) (r : Summary × Scratch)
      → fn_size ≤ u32_max
      → Answer table budget r
      → Verdict (TableFits buf table fn_size) table budget (judge fn_size r.0, r.1)
  judge-Verdict table fn_size budget (none, after) small a = a
  judge-Verdict table fn_size budget (some none, after) small ((b, w), h) =
      let exact = rw w at (exc_table_summary_uncached-Exact buf table b fn_size small) in
      ((λ q. ground arith, λ f. elim (exact f) [ ]), h)
  judge-Verdict table fn_size budget (some (some required), after) small ((b, w), h) =
      let exact = rw w at (exc_table_summary_uncached-Exact buf table b fn_size small) in
      ((λ q. exact.1 (omega (tests, q)), λ f. let l = exact.0 f in omega (tests, l)), h)

  -- The verdict on a flags byte, where nothing overflows.
  abbrev by_flags : ℕ → ℕ → ℕ → Scratch → Option Bool × Scratch
  by_flags flags table fn_size scratch =
      let r = exc_table_summary buf table scratch in
      if bit_and flags 3 == 3
      then (some true, scratch)
      else if not (flags / 32 % 2 == 0)
      then (some true, scratch)
      else if flags / 8 % 2 == 0
      then (some false, scratch)
      else (judge fn_size r.0, r.1)

  large_header_shape_violation-by_flags :
      (large_off : ℕ) (shape : LargeHeaderLayout) (scratch : Scratch) (flags : ℕ)
      → large_off + 40 < 2 ^ 63
      → get_elem? buf (large_off + flags_offset shape) ≡ some flags
      → large_header_shape_violation buf large_off shape scratch
        ≡ by_flags flags
            ((large_off + header_bytes shape + 3) / 4 * 4)
            (read_u32_le buf (large_off + 12))
            scratch
  unfolding large_header_shape_violation align4_u64
  large_header_shape_violation-by_flags large_off shape scratch flags room read =
      let near = shape_small shape in
      let at_flags : min (large_off + flags_offset shape) u64_max ≡ large_off + flags_offset shape =
        omega (arith, room, near) in
      let at_table : min (min (large_off + header_bytes shape) u64_max + 3) u64_max
          ≡ large_off + header_bytes shape + 3 =
        omega (arith, room, near) in
      let far : ltb u64_max (large_off + 12) ≡ false = ground (arith, room) in
      rw (large_header_shape_violation, align4_u64, at_flags, read, at_table, far) refl

  module _ (large_off : ℕ) (shape : LargeHeaderLayout) (scratch : Scratch) (flags : ℕ)
      (read : get_elem? buf (large_off + flags_offset shape) ≡ some flags) (bytes : IsBytes buf)
      (h : Remembers scratch) where
    abbrev fn_size : ℕ
    fn_size = read_u32_le buf (large_off + 12)

    abbrev table : ℕ
    table = (large_off + header_bytes shape + 3) / 4 * 4

    abbrev Judged : Option Bool × Scratch → Type 0
    Judged = Verdict (HasShape large_off shape) table scratch.budget

    refused : ¬ GoodFlags large_off shape flags → Judged (some true, scratch)
    refused bad = (
      (λ q. ground arith, λ f. elim (bad (HasShape-GoodFlags large_off shape flags read f)) [ ]),
      h,
    )

    has_shape :
        (bit_and flags 3 ≢ 3)
        → flags / 32 % 2 ≡ 0
        → HandlersFit flags table fn_size
        → HasShape large_off shape
    has_shape a b c = let good : GoodFlags large_off shape flags = (a, b, c) in (flags, read, good)

    by_flags-Judged : Judged (by_flags flags table fn_size scratch)
    by_flags-Judged = elim (Bool-cases (bit_and flags 3 == 3)) [
      | inl a ↦ rw a (refused λ g. g.0 (ground (arith, a)))
      | inr a ↦ elim (Bool-cases (flags / 32 % 2 == 0)) [
        | inr b ↦ rw (a, b) (refused λ g. let z = g.1 in ground (arith, b, z))
        | inl b ↦
            let here = has_shape (ground (arith, a)) (ground (arith, b)) in
            elim (Bool-cases (flags / 8 % 2 == 0)) [
              | inl c ↦ rw (a, b, c) ((λ q. here (inl (ground (arith, c))), λ f. refl), h)
              | inr c ↦
                  let right : TableFits buf table fn_size ↔ HasShape large_off shape = (
                    λ f. here (inr f),
                    λ f. elim (HasShape-GoodFlags large_off shape flags read f).2 [
                      | inl none_there ↦ ground (arith, c, none_there)
                      | inr t ↦ t
                    ],
                  ) in
                  rw (a, b, c)
                    (Verdict-equivalent _ _ right _ (
                      judge-Verdict table fn_size scratch.budget _
                        (omega (arith, read_u32_le-lt buf (large_off + 12) bytes))
                        (exc_table_summary-Answer table scratch h)))
            ]
      ]
    ]

  -- For a buffer of bytes in which a large header fits at the position, and scratch that remembers the
  -- summaries of tables: a header is said to violate a shape exactly if it does not have it, there is no
  -- verdict only if the budget is below the number of handlers of the table behind the header, and
  -- afterwards the scratch remembers summaries of tables.
  pub large_header_shape_violation-Verdict :
      (large_off : ℕ) (shape : LargeHeaderLayout) (scratch : Scratch)
      → IsBytes buf
      → length buf < 2 ^ 63
      → overflow_header_is_oob large_off (length buf) ≡ false
      → Remembers scratch
      → Verdict
          (HasShape large_off shape)
          ((large_off + header_bytes shape + 3) / 4 * 4)
          scratch.budget
          (large_header_shape_violation buf large_off shape scratch)
  unfolding overflow_header_is_oob
  large_header_shape_violation-Verdict large_off shape scratch bytes short fits h =
      let room : large_off + 40 ≤ length buf = ground (arith, fits) in
      elim (Option-cases (get_elem? buf (large_off + flags_offset shape))) [
        | inl out ↦
            let bad : ⊥ = omega (arith, room, shape_small shape, get_elem?-none buf _ out) in
            elim bad [ ]
        | inr (flags, read) ↦
            subst (Judged large_off shape scratch flags read bytes h)
              (sym (
                large_header_shape_violation-by_flags large_off shape scratch flags
                  (omega (arith, room, short)) read))
              (by_flags-Judged large_off shape scratch flags read bytes h)
      ]
