-- ===== src/Decode/Failure.antt =====
-- Where and why `decode_function` of src/decompile/decode.rs refuses a code.
use droidsaw_hermes.Prelude.{
  ℕ, zero, suc, ◌+◌, ◌≤◌, ◌<◌, ◌≡◌, ◌⊎◌, refl, List, [], ◌∷◌, ltb, leb, ◌==◌, ◌||◌, length, get_or,
  arith, tests, Bool-cases, inl, inr, leb→le,
}
use droidsaw_hermes.Errors.{
  HermesError, unknown_opcode, truncated_instruction_stream, err, >>=-eq-err, guard-eq-err,
}
use droidsaw_hermes.Decode.{
  OpType, byte_size, Tables, DecodedInst, get_schema, decode_operands, decode_one, decode_loop,
  decode_function,
}
use droidsaw_hermes.Decode.Tiling.{Tiled, decode_one-InstAt}

-- The bytes that operands of these types take.
abbrev pub total : List OpType → ℕ
total [] = 0
total (t ∷ ts) = byte_size t + total ts

decode_operands-err :
    (code : List ℕ) (e : HermesError) (stop : ℕ) (ts : List OpType) (at : ℕ) {e' : HermesError}
    → at ≤ stop
    → decode_operands code e stop ts at ≡ err e'
    → (e ≡ e') × (stop < at + total ts)
unfolding decode_operands
decode_operands-err code e stop [] at b h = ground arith
decode_operands-err code e stop (t ∷ ts) at b h =
    elim (guard-eq-err (ltb stop (at + byte_size t)) e _ h) [
      | inl (l, same) ↦ (same, omega (tests, l))
      | inr (l, m) ↦ elim (>>=-eq-err (decode_operands code e stop ts (at + byte_size t)) _ m) [
        | inl r ↦
            let (same, far) =
              decode_operands-err code e stop ts (at + byte_size t) (omega (tests, l)) r in
            (same, omega (arith, far))
        | inr (os, r, q) ↦ ground arith
      ]
    ]

module _ {Op : Type 0} (tables : Tables Op) (code : List ℕ) where
  abbrev opcode_at : ℕ → ℕ
  opcode_at at = get_or code at 0

  abbrev size_at : ℕ → ℕ
  size_at at = get_or tables.sizes (opcode_at at) 0

  -- The instruction at `at` has an opcode beyond the table, or its size is 0, leads out of the code, or
  -- is too small for the operands.
  abbrev pub Refused : ℕ → HermesError → Type 0
  Refused at e =
      ((length tables.sizes ≤ opcode_at at)
        × (unknown_opcode at (opcode_at at) (length tables.sizes) ≡ e))
      ⊎ ((opcode_at at < length tables.sizes)
          × (truncated_instruction_stream at (opcode_at at) ≡ e)
          × ((size_at at ≡ 0)
              ⊎ ((length code < at + size_at at)
                  ⊎ (size_at at < 1 + total (get_schema tables.schemas (opcode_at at)).1))))

  decode_one-Refused : (at : ℕ) {e : HermesError} → decode_one tables code at ≡ err e → Refused at e
  unfolding decode_one
  decode_one-Refused at {e} h =
      let types = (get_schema tables.schemas (opcode_at at)).1 in
      elim (guard-eq-err (leb (length tables.sizes) (opcode_at at)) _ _ h) [
        | inl (k, same) ↦ inl (leb→le _ _ k, same)
        | inr (k, h1) ↦
            let known : opcode_at at < length tables.sizes = ground (arith, k) in
            elim (guard-eq-err (size_at at == 0 || ltb (length code) (at + size_at at)) _ _ h1) [
              | inl (b, same) ↦ inr (known, same, ground (arith, b))
              | inr (b, h2) ↦
                  elim (>>=-eq-err (decode_operands code _ (at + size_at at) types (at + 1)) _ h2) [
                    | inl r ↦
                        let (same, far) =
                          decode_operands-err code _ (at + size_at at) types (at + 1)
                            (ground (arith, b)) r in
                        inr (known, same, inr (inr (omega (arith, far))))
                    | inr (os, r, q) ↦ ground arith
                  ]
            ]
      ]

  -- The instructions before a refused one tile the code up to it.
  pub record Stopped (at : ℕ) (e : HermesError) : Type 0 where
    pub before : List (DecodedInst Op)
    pub stop : ℕ
    pub tiled : Tiled tables code at before stop
    pub within : stop < length code
    pub refused : Refused stop e

  decode_loop-Stopped :
      (fuel at : ℕ) {e : HermesError} → decode_loop tables code fuel at ≡ err e → Stopped at e
  unfolding decode_loop
  decode_loop-Stopped zero at h = ground arith
  decode_loop-Stopped (suc fuel) at {e} h = elim (Bool-cases (ltb at (length code))) [
    | inl t ↦ elim (>>=-eq-err (decode_one tables code at) _ (rw (decode_loop, t) at h)) [
      | inl one ↦ record {
        before = [];
        stop = at;
        tiled = refl;
        within = omega (tests, t);
        refused = decode_one-Refused at one;
      }
      | inr (inst, one, h1) ↦
          elim (>>=-eq-err (decode_loop tables code fuel (at + inst.size)) _ h1) [
            | inl more ↦
                let s = decode_loop-Stopped fuel (at + inst.size) more in
                record {
                  before = inst ∷ s.before;
                  stop = s.stop;
                  tiled = (decode_one-InstAt tables code at one, s.tiled);
                  within = s.within;
                  refused = s.refused;
                }
            | inr (rest, more, q) ↦ ground arith
          ]
    ]
    | inr t ↦ let q = rw (decode_loop, t) at h in ground arith
  ]

  -- A code that does not decode is tiled by instructions up to a place within it where the next one has
  -- an opcode beyond the table, or has size 0, leads out of the code or is too small for its operands;
  -- the error names that place, that opcode and which of the two it is.
  pub decode_function-Stopped :
      (e : HermesError) → decode_function tables code ≡ err e → Stopped 0 e
  unfolding decode_function
  decode_function-Stopped e h = decode_loop-Stopped (length code) 0 h
