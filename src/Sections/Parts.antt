-- ===== src/Sections/Parts.antt =====
-- What the optional parts of the section walk of src/parser/mod.rs leave behind.

use droidsaw_hermes.Prelude.{
  ℕ, ◌+◌, ◌*◌, ◌≤◌, ◌≡◌, refl, inl, inr, false, ltb, arith, if◌then◌else◌, Bool-cases, ◌<◌, tests,
  ◌%◌, ◌^◌,
}
use droidsaw_hermes.Header.{
  HbcHeader, pre_v84, v84_to_86, v87_to_96, v97_to_v98_early, v98_late_to_v99,
  obj_shape_table_count, big_int_count, function_source_count, obj_key_buffer_size,
  big_int_storage_size, obj_value_buffer_size,
}
use droidsaw_hermes.Sections.{
  Range, Walk, no_range, value_sections, shape_sections, object_sections, has_big_int, is_pre_v84,
  big_int_sections, source_section,
}
use droidsaw_hermes.Sections.Rules.{
  Inv, Kept, Ensures, bind_rule, section-Kept, section_opt-Kept, weaken, if-Kept,
}

abbrev pub Inside : ℕ → Range → Type 0
Inside len r = r.offset + r.size ≤ len

-- The bytes of the BigInt storage.
abbrev pub big_int_bytes : HbcHeader → ℕ
big_int_bytes h = if ltb 0 (big_int_count h) then big_int_storage_size h else 0

-- The sections of the object literals.
pub record Objects (len lo keys values shapes : ℕ) (r : Range × Range × Range) (w : Walk)
    : Type 0 where
  pub keys_size : r.0.size ≡ keys
  pub keys_inside : Inside len r.0
  pub values_size : r.1.size ≡ values
  pub values_inside : Inside len r.1
  pub shapes_size : r.2.size ≡ shapes
  pub shapes_inside : Inside len r.2
  pub shapes_after : 0 < shapes → lo ≤ r.2.offset
  pub later : lo ≤ w.cursor
  pub next : Inv len w

value_sections-Objects :
    (len : ℕ) (h : HbcHeader) (w : Walk)
    → Inv len w
    → Ensures
        (value_sections len h w)
        (Objects len w.cursor (obj_key_buffer_size h % 2 ^ 32) (obj_value_buffer_size h % 2 ^ 32) 0)
value_sections-Objects len h w inv =
    bind_rule _ _ w _ _ (section_opt-Kept len "ObjKeyBuffer" _ w inv) λ keys w1 k1.
      bind_rule _ _ w1 _ _ (section_opt-Kept len "ObjValueBuffer" _ w1 k1.next) λ values w2 k2.
        record {
          keys_size = k1.size_is;
          keys_inside = k1.inside;
          values_size = k2.size_is;
          values_inside = k2.inside;
          shapes_size = refl;
          shapes_inside = omega arith;
          shapes_after = omega arith;
          later = omega (arith, k1.later, k2.later);
          next = k2.next;
        }

shape_sections-Objects :
    (len : ℕ) (h : HbcHeader) (w : Walk)
    → Inv len w
    → Ensures
        (shape_sections len h w)
        (Objects len w.cursor (obj_key_buffer_size h % 2 ^ 32) 0 (obj_shape_table_count h * 8))
shape_sections-Objects len h w inv =
    bind_rule _ _ w _ _ (section_opt-Kept len "ObjKeyBuffer" _ w inv) λ keys w1 k1.
      bind_rule _ _ w1 _ _
        (if-Kept (ltb 0 (obj_shape_table_count h)) len "ObjShapeTable" _ w1 (λ z. omega (tests, z))
          k1.next)
        λ shapes w2 k2. record {
          keys_size = k1.size_is;
          keys_inside = k1.inside;
          values_size = refl;
          values_inside = omega arith;
          shapes_size = k2.size_is;
          shapes_inside = k2.inside;
          shapes_after = λ z. omega (arith, k2.after z, k1.later);
          later = omega (arith, k1.later, k2.later);
          next = k2.next;
        }

-- The projections are 0 on the layouts that lack the field.
pub object_sections-Objects :
    (len : ℕ) (h : HbcHeader) (w : Walk)
    → Inv len w
    → Ensures (object_sections len h w) (
        Objects len w.cursor
          (obj_key_buffer_size h % 2 ^ 32)
          (obj_value_buffer_size h % 2 ^ 32)
          (obj_shape_table_count h * 8))
unfolding object_sections obj_shape_table_count obj_value_buffer_size
object_sections-Objects len (pre_v84 h) w inv = value_sections-Objects len (pre_v84 h) w inv
object_sections-Objects len (v84_to_86 h) w inv = value_sections-Objects len (v84_to_86 h) w inv
object_sections-Objects len (v87_to_96 h) w inv = value_sections-Objects len (v87_to_96 h) w inv
object_sections-Objects len (v97_to_v98_early h) w inv =
    shape_sections-Objects len (v97_to_v98_early h) w inv
object_sections-Objects len (v98_late_to_v99 h) w inv =
    shape_sections-Objects len (v98_late_to_v99 h) w inv

pub record BigInts (len lo table storage : ℕ) (r : Range × Range) (w : Walk) : Type 0 where
  pub table_size : r.0.size ≡ table
  pub table_inside : Inside len r.0
  pub storage_size : r.1.size ≡ storage
  pub storage_inside : Inside len r.1
  pub later : lo ≤ w.cursor
  pub next : Inv len w

has_big_int-count : (h : HbcHeader) → has_big_int h ≡ false → big_int_count h ≡ 0
unfolding big_int_count
has_big_int-count (pre_v84 h) e = refl
has_big_int-count (v84_to_86 h) e = refl
has_big_int-count (v87_to_96 h) e = cc
has_big_int-count (v97_to_v98_early h) e = cc
has_big_int-count (v98_late_to_v99 h) e = cc

pub big_int_sections-BigInts :
    (len : ℕ) (h : HbcHeader) (w : Walk)
    → Inv len w
    → Ensures
        (big_int_sections len h w)
        (BigInts len w.cursor (big_int_count h * 8) (big_int_bytes h))
unfolding big_int_sections
big_int_sections-BigInts len h w inv = elim (Bool-cases (has_big_int h)) [
  | inl a ↦ elim (Bool-cases (ltb 0 (big_int_count h))) [
    | inl b ↦
        rw (a, b)
          (bind_rule _ _ w _ _ (section-Kept len "BigIntTable" _ w inv) λ table w1 k1.
            bind_rule _ _ w1 _ _ (section-Kept len "BigIntStorage" _ w1 k1.next) λ storage w2 k2.
              record {
                table_size = k1.size_is;
                table_inside = k1.inside;
                storage_size = k2.size_is;
                storage_inside = k2.inside;
                later = omega (arith, k1.later, k2.later);
                next = k2.next;
              })
    | inr b ↦ rw (a, b) (none_left (omega (tests, b)))
  ]
  | inr a ↦
      let z : ltb 0 (big_int_count h) ≡ false = omega (tests, has_big_int-count h a) in
      rw (a, z) (none_left (omega (arith, has_big_int-count h a)))
]
  where
    none_left :
        0 ≡ big_int_count h * 8
        → BigInts len w.cursor (big_int_count h * 8) 0 (no_range, no_range) w
    none_left z = record {
      table_size = z;
      table_inside = omega arith;
      storage_size = refl;
      storage_inside = omega arith;
      later = omega arith;
      next = inv;
    }

pub source_section-Kept :
    (len : ℕ) (h : HbcHeader) (w : Walk)
    → Inv len w
    → Ensures (source_section len h w) (λ r. Inv len)
unfolding source_section
source_section-Kept len h w inv = elim (Bool-cases (is_pre_v84 h)) [
  | inl a ↦ rw a inv
  | inr a ↦ rw a (
      weaken {R = Kept len w.cursor (function_source_count h * 8)} _
        (if-Kept (ltb 0 (function_source_count h)) len "FunctionSourceTable"
          (function_source_count h * 8) w (λ z. omega (tests, z)) inv)
        (λ r w' k. k.next))
]
