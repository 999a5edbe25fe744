-- ===== src/Decode/Tiling.antt =====
-- The instructions that `decode_function` of src/decompile/decode.rs returns tile the code.
use droidsaw_hermes.Prelude.{
  ℕ, zero, suc, ◌+◌, ◌%◌, ◌^◌, ◌≤◌, ◌<◌, ◌≡◌, refl, List, [], ◌∷◌, ltb, leb, ◌==◌, length, get_or,
  arith, tests, Bool-cases, inl, inr, subst, ◌||◌,
}
use droidsaw_hermes.Errors.{HermesError, ok, >>=-eq-ok, guard-eq-ok, ok-injective}
use droidsaw_hermes.Decode.{
  OpType, byte_size, Operand, Tables, DecodedInst, get_schema, operand_at, decode_operands,
  decode_one, decode_loop, decode_function,
}

-- The operands are those at `at` and behind it, and end by `stop`.
abbrev pub Reads : List ℕ → ℕ → List OpType → ℕ → List Operand → Type 0
Reads code stop [] at [] = Unit
Reads code stop [] at (o ∷ os) = ⊥
Reads code stop (t ∷ ts) at [] = ⊥
Reads code stop (t ∷ ts) at (o ∷ os) =
    (o ≡ operand_at t code at)
    × (at + byte_size t ≤ stop)
    × Reads code stop ts (at + byte_size t) os

decode_operands-Reads :
    (code : List ℕ) (e : HermesError) (stop : ℕ) (ts : List OpType) (at : ℕ) (os : List Operand)
    → decode_operands code e stop ts at ≡ ok os
    → Reads code stop ts at os
unfolding decode_operands
decode_operands-Reads code e stop [] at [] h = tt
decode_operands-Reads code e stop [] at (o ∷ os) h = ground arith
decode_operands-Reads code e stop (t ∷ ts) at os h =
    let (b, m) = guard-eq-ok (ltb stop (at + byte_size t)) e _ h in
    let (rest, r, q) = >>=-eq-ok (decode_operands code e stop ts (at + byte_size t)) _ m in
    subst (Reads code stop (t ∷ ts) at) (ok-injective refl q)
      (refl, omega (tests, b), decode_operands-Reads code e stop ts (at + byte_size t) rest r)

module _ {Op : Type 0} (tables : Tables Op) (code : List ℕ) where
  -- The instruction is the one at `at`.
  pub record InstAt (at : ℕ) (inst : DecodedInst Op) : Type 0 where
    pub offset_is : inst.offset ≡ at % 2 ^ 32
    pub opcode_is : inst.opcode ≡ get_or code at 0
    pub known : inst.opcode < length tables.sizes
    pub size_is : inst.size ≡ get_or tables.sizes inst.opcode 0
    pub positive : 0 < inst.size
    pub inside : at + inst.size ≤ length code
    pub types_are : inst.op_types ≡ (get_schema tables.schemas inst.opcode).1
    pub operands_are : Reads code (at + inst.size) inst.op_types (at + 1) inst.operands
    pub op_is : inst.op ≡ get_or tables.opcode_table inst.opcode tables.fallback

  -- The instructions follow each other from `at` to `stop`.
  abbrev pub Tiled : ℕ → List (DecodedInst Op) → ℕ → Type 0
  Tiled at [] stop = at ≡ stop
  Tiled at (i ∷ is) stop = InstAt at i × Tiled (at + i.size) is stop

  pub decode_one-InstAt :
      (at : ℕ) {inst : DecodedInst Op} → decode_one tables code at ≡ ok inst → InstAt at inst
  unfolding decode_one
  decode_one-InstAt at {inst} h =
      let opcode = get_or code at 0 in
      let size = get_or tables.sizes opcode 0 in
      let types = (get_schema tables.schemas opcode).1 in
      let (k, h1) = guard-eq-ok (leb (length tables.sizes) opcode) _ _ h in
      let (b, h2) = guard-eq-ok (size == 0 || ltb (length code) (at + size)) _ _ h1 in
      let (os, r, q) = >>=-eq-ok (decode_operands code _ (at + size) types (at + 1)) _ h2 in
      subst (InstAt at) (ok-injective refl q) record {
        offset_is = refl;
        opcode_is = refl;
        known = ground (arith, k);
        size_is = refl;
        positive = ground (arith, b);
        inside = ground (arith, b);
        types_are = refl;
        operands_are = decode_operands-Reads code _ (at + size) types (at + 1) os r;
        op_is = refl;
      }

  decode_loop-Tiled :
      (fuel at : ℕ) (insts : List (DecodedInst Op))
      → at ≤ length code
      → length code ≤ at + fuel
      → decode_loop tables code fuel at ≡ ok insts
      → Tiled at insts (length code)
  unfolding decode_loop
  decode_loop-Tiled zero at insts a b h =
      subst (λ (is : List (DecodedInst Op)). Tiled at is (length code)) (ok-injective refl h)
        (omega arith)
  decode_loop-Tiled (suc fuel) at insts a b h = elim (Bool-cases (ltb at (length code))) [
    | inl t ↦
        let h' = rw (decode_loop, t) at h in
        let (inst, one, h1) = >>=-eq-ok (decode_one tables code at) _ h' in
        let (rest, more, q) = >>=-eq-ok (decode_loop tables code fuel (at + inst.size)) _ h1 in
        let i = decode_one-InstAt at one in
        subst (λ (is : List (DecodedInst Op)). Tiled at is (length code)) (ok-injective refl q)
          (
            i,
            decode_loop-Tiled fuel (at + inst.size) rest i.inside (omega (arith, i.positive)) more,
          )
    | inr t ↦
        subst (λ (is : List (DecodedInst Op)). Tiled at is (length code))
          (ok-injective refl (rw (decode_loop, t) at h)) (omega (tests, t))
  ]

  -- The instructions of a function that decodes tile its code: the first begins at 0, each begins where
  -- the one before ends, with the opcode found there, the size of its opcode and the operands of its
  -- schema, which lie within it, and the last one ends with the code.
  pub decode_function-Tiled :
      (insts : List (DecodedInst Op))
      → decode_function tables code ≡ ok insts
      → Tiled 0 insts (length code)
  unfolding decode_function
  decode_function-Tiled insts h =
      decode_loop-Tiled (length code) 0 insts (omega arith) (omega arith) h
