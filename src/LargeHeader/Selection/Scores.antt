-- ===== src/LargeHeader/Selection/Scores.antt =====
-- What the scores of `score_large_header` of src/parser/mod.rs say of a large header.
use mathlib.Core.Option
use droidsaw_hermes.Prelude.{
  ℕ, ◌+◌, ◌*◌, ◌/◌, ◌^◌, ◌<◌, ◌≡◌, ◌↔◌, subst, inl, inr, Bool, false, not, ◌&&◌, List, [], ◌∷◌,
  Option, none, some, length, get_elem?, ◌==◌, ltb, All, arith, Bool-cases, Option-cases, min, ◌%◌,
}
use droidsaw_hermes.Bytes.{IsBytes, read_u32_le}
use droidsaw_hermes.File.{shape36, shape40}
use droidsaw_hermes.LargeHeader.{
  Scratch, large_header_shape_violation, overflow_header_is_oob, header_bytes, flags_offset,
  u64_max,
}
use droidsaw_hermes.LargeHeader.Shapes.{
  Remembers, HasShape, Verdict, large_header_shape_violation-Verdict,
}
use droidsaw_hermes.LargeHeader.Selection.{
  Score, Memo, compare_tables, large_header_shapes_decode_equal, decode_if_both, find_score,
  score_large_header, table_of,
}

Verdict-Right :
    (buf : List ℕ) {Right : Type 0} (table budget : ℕ) (v : Bool) (r : Option Bool × Scratch)
    → r.0 ≡ some v
    → Verdict buf Right table budget r
    → ((v ≡ false) ↔ Right) × Remembers buf r.1
Verdict-Right buf {Right} table budget v (none, s) e h = cc
Verdict-Right buf {Right} table budget v (some w, s) e h =
    let same : w ≡ v = cc in (subst (λ (b : Bool). (b ≡ false) ↔ Right) same h.0, h.1)

module _ (buf : List ℕ) where
  compare_tables-Remembers :
      (t36 t40 : ℕ) (scratch : Scratch)
      → Remembers buf scratch
      → Remembers buf (compare_tables buf t36 t40 scratch).1
  unfolding compare_tables
  compare_tables-Remembers t36 t40 scratch h =
      elim (Bool-cases (read_u32_le buf t36 == read_u32_le buf t40)) [
        | inr other ↦ rw (compare_tables, other) h
        | inl same ↦ elim (Bool-cases (ltb scratch.budget (read_u32_le buf t36))) [
          | inl short ↦ rw (compare_tables, same, short) h
          | inr paid ↦ rw (compare_tables, same, paid) h
        ]
      ]

  decode_equal-Remembers :
      (large_off : ℕ) (scratch : Scratch)
      → Remembers buf scratch
      → Remembers buf (large_header_shapes_decode_equal buf large_off scratch).1
  unfolding large_header_shapes_decode_equal
  decode_equal-Remembers large_off scratch h =
      elim (Option-cases (get_elem? buf (min (large_off + flags_offset shape36) u64_max))) [
        | inl a ↦ rw (large_header_shapes_decode_equal, a) h
        | inr (f36, a) ↦
            elim (Option-cases (get_elem? buf (min (large_off + flags_offset shape40) u64_max))) [
              | inl b ↦ rw (large_header_shapes_decode_equal, a, b) h
              | inr (f40, b) ↦ elim (Bool-cases (f36 == f40)) [
                | inr c ↦ rw (large_header_shapes_decode_equal, a, b, c) h
                | inl c ↦ elim (Bool-cases (f36 / 8 % 2 == 0)) [
                  | inl d ↦ rw (large_header_shapes_decode_equal, a, b, c, d) h
                  | inr d ↦
                      rw (large_header_shapes_decode_equal, a, b, c, d)
                        (compare_tables-Remembers (table_of large_off shape36)
                          (table_of large_off shape40) scratch h)
                ]
              ]
            ]
      ]

  decode_if_both-Remembers :
      (large_off : ℕ) (v36 v40 : Bool) (scratch : Scratch)
      → Remembers buf scratch
      → Remembers buf (decode_if_both buf large_off v36 v40 scratch).1
  unfolding decode_if_both
  decode_if_both-Remembers large_off v36 v40 scratch h = elim (Bool-cases (not v36 && not v40)) [
    | inl both ↦ rw (decode_if_both, both) (decode_equal-Remembers large_off scratch h)
    | inr other ↦ rw (decode_if_both, other) h
  ]

  -- A score says which shapes a header has.
  pub record Right (large_off : ℕ) (s : Score) : Type 0 where
    pub shape36_right : (s.violates36 ≡ false) ↔ HasShape buf large_off shape36
    pub shape40_right : (s.violates40 ≡ false) ↔ HasShape buf large_off shape40

  pub record Good (memo : Memo) : Type 0 where
    pub remembers : Remembers buf memo.scratch
    pub scores : All (λ (entry : ℕ × Score). Right entry.0 entry.1) memo.per_off

  find_score-Right :
      (entries : List (ℕ × Score)) (large_off : ℕ) (s : Score)
      → All (λ (entry : ℕ × Score). Right entry.0 entry.1) entries
      → find_score entries large_off ≡ some s
      → Right large_off s
  unfolding find_score
  find_score-Right [] large_off s all e = cc
  find_score-Right ((key, found) ∷ rest) large_off s (here, all) e =
      elim (Bool-cases (key == large_off)) [
        | inl same ↦
            let k : key ≡ large_off = ground (arith, same) in
            let f : some found ≡ some s = rw (find_score, same) at e in
            let g : found ≡ s = cc in
            subst (λ (n : ℕ). Right n s) k (subst (λ (t : Score). Right key t) g here)
        | inr other ↦ find_score-Right rest large_off s all (rw (find_score, other) at e)
      ]

  module _ (bytes : IsBytes buf) (short : length buf < 2 ^ 63) where
    pub score_large_header-Good :
        (large_off : ℕ) (memo : Memo) (s : Score)
        → overflow_header_is_oob large_off (length buf) ≡ false
        → Good memo
        → (score_large_header buf large_off memo).0 ≡ some s
        → Right large_off s × Good (score_large_header buf large_off memo).1
    unfolding score_large_header
    score_large_header-Good large_off memo s fits good e =
        elim (Option-cases (find_score memo.per_off large_off)) [
          | inr (cached, a) ↦
              let same : some cached ≡ some s = rw (score_large_header, a) at e in
              let same' : cached ≡ s = cc in
              let right = find_score-Right memo.per_off large_off cached good.scores a in
              (subst (Right large_off) same' right, rw (score_large_header, a) good)
          | inl a ↦
              let r36 = large_header_shape_violation buf large_off shape36 memo.scratch in
              let r40 = large_header_shape_violation buf large_off shape40 r36.1 in
              let d36 =
                large_header_shape_violation-Verdict buf large_off shape36 memo.scratch bytes short
                  fits good.remembers in
              elim (Option-cases r36.0) [
                | inl b ↦ let bad = rw (score_large_header, a, b) at e in cc
                | inr (v36, b) ↦
                    let (right36, after36) =
                      Verdict-Right buf ((large_off + header_bytes shape36 + 3) / 4 * 4)
                        memo.scratch.budget v36 r36 b d36 in
                    let d40 =
                      large_header_shape_violation-Verdict buf large_off shape40 r36.1 bytes short
                        fits after36 in
                    elim (Option-cases r40.0) [
                      | inl c ↦ let bad = rw (score_large_header, a, b, c) at e in cc
                      | inr (v40, c) ↦
                          let (right40, after40) =
                            Verdict-Right buf ((large_off + header_bytes shape40 + 3) / 4 * 4)
                              r36.1.budget v40 r40 c d40 in
                          let eq = decode_if_both buf large_off v36 v40 r40.1 in
                          elim (Option-cases eq.0) [
                            | inl d ↦ let bad = rw (score_large_header, a, b, c, d) at e in cc
                            | inr (equal, d) ↦
                                let new : Score = record {
                                  violates36 = v36;
                                  violates40 = v40;
                                  decode_equal = equal;
                                } in
                                let right : Right large_off new = record {
                                  shape36_right = right36;
                                  shape40_right = right40;
                                } in
                                let same : some new ≡ some s =
                                  rw (score_large_header, a, b, c, d) at e in
                                let same' : new ≡ s = Option.some-injective new s same in
                                (
                                  subst (Right large_off) same' right,
                                  rw (score_large_header, a, b, c, d)
                                      (record {
                                        remembers =
                                            decode_if_both-Remembers large_off v36 v40 r40.1
                                              after40;
                                        scores = (right, good.scores);
                                      }),
                                )
                          ]
                    ]
              ]
        ]
