-- ===== src/Errors.antt =====
-- The error values of src/error.rs and the `?` operator of Rust's `Result`.
-- The variants that wrap an error of droidsaw-common are left out, with the code that returns them.
use Prim.Native.String.{String}
use droidsaw_hermes.Prelude.{
  ℕ, ◌≡◌, refl, List, Bool, true, false, if◌then◌else◌, ◌⊎◌, inl, inr, ap,
}

pub data HermesError : Type 0 where
  header_too_small : ℕ → HermesError
  invalid_magic : List ℕ → HermesError
  unsupported_version : (observed supported_min supported_max : ℕ) → HermesError
  section_size_overflow : (name : String) (size : ℕ) → HermesError
  section_exceeds_bounds : (name : String) (cursor size file_len : ℕ) → HermesError
  section_cursor_overflow : (name : String) → HermesError
  invalid_exception_layout : (catch try_region : ℕ) → HermesError
  arithmetic_overflow : (context : String) → HermesError
  -- The payload is an error value of droidsaw-common, which is left out.
  bound_count_exceeded : HermesError
  inconsistent_debug_header : (lexical_data_offset debug_data_size : ℕ) → HermesError
  overflow_string_count_exceeds_string_count : (overflow total : ℕ) → HermesError
  unknown_opcode : (offset opcode_id num_opcodes : ℕ) → HermesError
  truncated_instruction_stream : (offset opcode_id : ℕ) → HermesError
  ambiguous_v98_form : (early late : ℕ) → HermesError
  function_body_out_of_bytecode_region :
      (func_idx offset size region_start region_end : ℕ) → HermesError
  function_body_overlap : (a_idx a_offset a_size b_idx b_offset b_size : ℕ) → HermesError
  function_body_dedup_overflow :
      (dedup_count threshold first_offset first_size first_a_idx first_b_idx : ℕ) → HermesError
  invalid_exception_handler_target : (target : ℕ) → HermesError
  function_header_entry_out_of_bounds : (func_idx entry_off fh_size buf_len : ℕ) → HermesError
  overflowed_header_out_of_bounds : (func_idx large_off buf_len : ℕ) → HermesError
  overflowed_header_overlaps_synthesized_region : (func_idx large_off : ℕ) → HermesError
  large_header_layout_ambiguous : (func_idx large_off : ℕ) → HermesError

pub data Result {ℓ κ} (E : Type κ) (T : Type ℓ) : Type (ℓ ⊔ κ) where
  ok : T → Result E T
  err : E → Result E T

-- The `?` operator: an error ends the chain.
infixl 5 ◌>>=◌
abbrev pub ◌>>=◌ {ℓ κ ι} :
    {E : Type ι} {T : Type ℓ} {U : Type κ} → Result E T → (T → Result E U) → Result E U
err failure >>= next = err failure
ok value >>= next = next value

-- `o.ok_or(e)?`
abbrev pub ok_or {ℓ κ} : {E : Type κ} {A : Type ℓ} → Bool → A → E → Result E A
ok_or true a e = ok a
ok_or false a e = err e

-- A chain that succeeds has succeeded at every step.
pub >>=-eq-ok {ℓ κ ι} :
    {E : Type ι} {T : Type ℓ} {U : Type κ} (first : Result E T) (next : T → Result E U) {out : U}
    → (first >>= next) ≡ ok out
    → (value : T) × (first ≡ ok value) × (next value ≡ ok out)
>>=-eq-ok (err failure) next h = cc
>>=-eq-ok (ok value) next h = (value, refl, h)

pub ok-injective {ℓ κ} :
    {E : Type κ} {A : Type ℓ} {r : Result E A} {a b : A} → r ≡ ok a → r ≡ ok b → a ≡ b
ok-injective g h = cc

-- Inversion of a successful early return.
pub guard-eq-ok {ℓ κ} :
    {E : Type κ} {A : Type ℓ} (b : Bool) (e : E) (m : Result E A) {a : A}
    → (if b then err e else m) ≡ ok a
    → (b ≡ false) × (m ≡ ok a)
guard-eq-ok true e m h = cc
guard-eq-ok false e m h = (refl, h)

pub err-injective {ℓ κ} :
    {E : Type κ} {T : Type ℓ} {r : Result E T} {a b : E} → r ≡ err a → r ≡ err b → a ≡ b
err-injective g h = cc

-- A chain that fails has failed at its first step or behind it.
pub >>=-eq-err {ℓ κ ι} :
    {E : Type ι} {T : Type ℓ} {U : Type κ} (first : Result E T) (next : T → Result E U) {e : E}
    → (first >>= next) ≡ err e
    → (first ≡ err e) ⊎ ((value : T) × (first ≡ ok value) × (next value ≡ err e))
>>=-eq-err (ok value) next h = inr (value, refl, h)
>>=-eq-err (err failure) next h =
    let same : failure ≡ _ = err-injective refl h in inl (ap (λ (x : _). err x) same)

pub guard-eq-err {ℓ κ} :
    {E : Type κ} {T : Type ℓ} (b : Bool) (e : E) (m : Result E T) {f : E}
    → (if b then err e else m) ≡ err f
    → ((b ≡ true) × (e ≡ f)) ⊎ ((b ≡ false) × (m ≡ err f))
guard-eq-err true e m h = inl (refl, err-injective refl h)
guard-eq-err false e m h = inr (refl, h)

pub Result-cases :
    {E T : Type 0} (r : Result E T) → ((t : T) × (r ≡ ok t)) ⊎ ((e : E) × (r ≡ err e))
Result-cases (ok t) = inl (t, refl)
Result-cases (err e) = inr (e, refl)
