-- ===== src/Functions/Strict.antt =====
-- The strict accessor `function_get_checked` of src/parser/mod.rs against the lenient `function_get`.
use droidsaw_hermes.Prelude.{
  ℕ, ◌+◌, ◌≤◌, ◌<◌, ◌≡◌, ◌⊎◌, refl, sym, inl, inr, Bool, true, false, ◌||◌, List, [], ◌∷◌, some,
  length, leb, ltb, ◌==◌, All, arith, Bool-cases, Option-cases, ◌∙◌,
}
use droidsaw_hermes.Errors.{ok, ok-injective}
use droidsaw_hermes.Header.{function_count}
use droidsaw_hermes.Header.Parse.{header_size}
use droidsaw_hermes.Sections.{Range}
use droidsaw_hermes.LargeHeader.{overflow_header_is_oob, large_function_header_size}
use droidsaw_hermes.File.{HbcFile, LargeHeaderLayout}
use droidsaw_hermes.DebugInfo.{range}
use droidsaw_hermes.Functions.{
  FunctionData, function_get, function_get_checked, entry_of, small_fields, large_offset,
  is_overflowed, entry_is_out, spans_intersect, overlaps_any, span_overlaps_synthesized,
  emit_synthesized_sections, no_function,
}

-- A span and a range have no byte in common.
abbrev pub Disjoint : ℕ → ℕ → Range → Type 0
Disjoint start len r =
    (len ≡ 0) ⊎ ((r.size ≡ 0) ⊎ ((start + len ≤ r.offset) ⊎ (r.offset + r.size ≤ start)))

spans_intersect-Disjoint :
    (start len : ℕ) (r : Range)
    → spans_intersect start len r.offset r.size ≡ false
    → Disjoint start len r
unfolding spans_intersect
spans_intersect-Disjoint start len r h = elim (Bool-cases (len == 0)) [
  | inl empty ↦ inl (ground (arith, empty))
  | inr a ↦ elim (Bool-cases (r.size == 0)) [
    | inl empty ↦ inr (inl (ground (arith, empty)))
    | inr b ↦ elim (Bool-cases (ltb start (r.offset + r.size))) [
      | inr behind ↦ inr (inr (inr (ground (arith, behind))))
      | inl c ↦ inr (inr (inl (ground (arith, h, a, b, c))))
    ]
  ]
]

or-false : (a b : Bool) → (a || b) ≡ false → (a ≡ false) × (b ≡ false)
or-false true b h = cc
or-false false b h = (refl, h)

overlaps_any-Disjoint :
    (start len : ℕ) (rs : List Range)
    → overlaps_any start len rs ≡ false
    → All (Disjoint start len) rs
unfolding overlaps_any
overlaps_any-Disjoint start len [] h = tt
overlaps_any-Disjoint start len (r ∷ rs) h =
    let (here, later) = or-false (spans_intersect start len r.offset r.size) _ h in
    (spans_intersect-Disjoint start len r here, overlaps_any-Disjoint start len rs later)

-- A span stays clear of the file header and of all that the emitters write anew.
abbrev pub Clear : HbcFile → ℕ → ℕ → Type 0
Clear file start len = All (Disjoint start len) (range 0 128 ∷ emit_synthesized_sections file)

pub span_overlaps_synthesized-Clear :
    (file : HbcFile) (start len : ℕ)
    → span_overlaps_synthesized file start len ≡ false
    → Clear file start len
unfolding span_overlaps_synthesized
span_overlaps_synthesized-Clear file start len h =
    let (here, later) = or-false (spans_intersect start len 0 header_size) _ h in
    (
      spans_intersect-Disjoint start len (range 0 128) here,
      overlaps_any-Disjoint start len (emit_synthesized_sections file) later,
    )

module _ (file : HbcFile) (i : ℕ) where
  abbrev pub large_off : ℕ
  large_off =
      large_offset file.header (entry_of file i) (small_fields file.header (entry_of file i))

  abbrev pub overflowed : Bool
  overflowed = is_overflowed (small_fields file.header (entry_of file i))

  -- What the strict accessor has tested of a large header.
  pub record LargeFits : Type 0 where
    pub fits : large_off + 40 ≤ length file.buf
    pub clear : Clear file large_off 40
    pub layout : LargeHeaderLayout
    pub chosen : file.large_header_layout ≡ some layout

  function_get_beyond :
      leb (function_count file.header) i ≡ true → function_get file i ≡ no_function
  unfolding function_get
  function_get_beyond a = rw (function_get, a) refl

  -- Where the strict accessor returns a function, the lenient one returns the same; and if the number is
  -- one of a function whose small header is overflowed, the large header of up to 40 bytes lies in the
  -- buffer, clear of the file header and of all that the emitters write anew, and a layout is chosen.
  pub function_get_checked-function_get :
      (f : FunctionData)
      → function_get_checked file i ≡ ok f
      → (f ≡ function_get file i) × (i < function_count file.header → overflowed ≡ true → LargeFits)
  unfolding function_get_checked overflow_header_is_oob
  function_get_checked-function_get f h = elim (Bool-cases (leb (function_count file.header) i)) [
    | inl a ↦
        let same = ok-injective (rw (function_get_checked, a) at h) refl in
        (same ∙ sym (function_get_beyond a), λ lt over. ground (arith, a, lt))
    | inr a ↦ elim (Bool-cases (entry_is_out file i)) [
      | inl b ↦ let bad = rw (function_get_checked, a, b) at h in cc
      | inr b ↦ elim (Bool-cases overflowed) [
        | inr c ↦ (ok-injective (rw (function_get_checked, a, b, c) at h) refl, λ lt over. cc)
        | inl c ↦ elim (Bool-cases (overflow_header_is_oob large_off (length file.buf))) [
          | inl d ↦ let bad = rw (function_get_checked, a, b, c, d) at h in cc
          | inr d ↦
              elim (Bool-cases
                (span_overlaps_synthesized file large_off large_function_header_size)) [
                  | inl o ↦ let bad = rw (function_get_checked, a, b, c, d, o) at h in cc
                  | inr o ↦ elim (Option-cases file.large_header_layout) [
                    | inl l ↦ let bad = rw (function_get_checked, a, b, c, d, o, l) at h in cc
                    | inr (layout, l) ↦ (
                      ok-injective (rw (function_get_checked, a, b, c, d, o, l) at h) refl,
                      λ lt over. record {
                        fits = ground (arith, d);
                        clear = span_overlaps_synthesized-Clear file large_off 40 o;
                        layout = layout;
                        chosen = l;
                      },
                    )
                  ]
                ]
        ]
      ]
    ]
  ]
