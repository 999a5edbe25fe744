-- ===== src/Sections/Layout.antt =====
-- Where the section walk of src/parser/mod.rs puts the sections.

use droidsaw_hermes.Prelude.{ℕ, ◌+◌, ◌*◌, ◌≤◌, ◌≡◌, refl, arith, ◌<◌, ◌%◌, ◌^◌}
use droidsaw_hermes.Header.{
  HbcHeader, func_header_size, function_count, string_count, overflow_string_count,
  obj_shape_table_count, big_int_count, string_kind_count, obj_key_buffer_size,
  obj_value_buffer_size, string_storage_size, array_buffer_size, reg_exp_count, cjs_module_count,
}
use droidsaw_hermes.Sections.{Walk, Ranges, walk_sections, start}
use droidsaw_hermes.Sections.Rules.{
  Tiled, Inv, Ensures, bind_rule, section_rule, section-Ensures, section_opt-Kept,
}
use droidsaw_hermes.Sections.Parts.{
  Inside, big_int_bytes, object_sections-Objects, big_int_sections-BigInts, source_section-Kept,
}

-- The ranges of a walk that succeeded: their sizes, that they lie in the buffer, and the order of the
-- tables that the emitters write again.
pub record Laid (len : ℕ) (h : HbcHeader) (rs : Ranges) (w : Walk) : Type 0 where
  pub headers_at : rs.func_headers.offset ≡ 128
  pub headers_size : rs.func_headers.size ≡ function_count h * func_header_size h
  pub headers_end : 128 + function_count h * func_header_size h ≤ rs.small_string_table.offset
  pub strings_size : rs.small_string_table.size ≡ string_count h * 4
  pub strings_end :
      rs.small_string_table.offset + string_count h * 4 ≤ rs.overflow_string_table.offset
  pub overflow_size : rs.overflow_string_table.size ≡ overflow_string_count h * 8
  pub overflow_end : rs.overflow_string_table.offset + overflow_string_count h * 8 ≤ len
  pub kinds_size : rs.string_kinds.size ≡ string_kind_count h * 4
  pub kinds_inside : Inside len rs.string_kinds
  pub storage_size : rs.string_storage.size ≡ string_storage_size h
  pub storage_inside : Inside len rs.string_storage
  pub array_size : rs.array_buffer.size ≡ array_buffer_size h % 2 ^ 32
  pub array_inside : Inside len rs.array_buffer
  pub keys_size : rs.obj_key_buffer.size ≡ obj_key_buffer_size h % 2 ^ 32
  pub keys_inside : Inside len rs.obj_key_buffer
  pub values_size : rs.obj_value_buffer.size ≡ obj_value_buffer_size h % 2 ^ 32
  pub values_inside : Inside len rs.obj_value_buffer
  pub shapes_size : rs.obj_shape_table.size ≡ obj_shape_table_count h * 8
  pub shapes_after :
      0 < obj_shape_table_count h * 8
      → rs.overflow_string_table.offset + overflow_string_count h * 8 ≤ rs.obj_shape_table.offset
  pub shapes_inside : Inside len rs.obj_shape_table
  pub big_table_size : rs.big_int_table.size ≡ big_int_count h * 8
  pub big_table_inside : Inside len rs.big_int_table
  pub big_storage_size : rs.big_int_storage.size ≡ big_int_bytes h
  pub big_storage_inside : Inside len rs.big_int_storage
  pub regexp_size : rs.regexp_table.size ≡ reg_exp_count h * 8 % 2 ^ 32
  pub regexp_after :
      0 < reg_exp_count h * 8 % 2 ^ 32
      → rs.overflow_string_table.offset + overflow_string_count h * 8 ≤ rs.regexp_table.offset
  pub regexp_inside : Inside len rs.regexp_table
  pub modules_size : rs.cjs_modules.size ≡ cjs_module_count h * 8 % 2 ^ 32
  pub modules_inside : Inside len rs.cjs_modules
  pub tiled : Tiled len 0 w.sections w.cursor

start-Inv : (len : ℕ) → 128 ≤ len → Inv len start
start-Inv len h = record { tiled = (refl, h, refl); capped = omega arith }

-- A section walk that succeeds puts every section into the buffer, at the next multiple of four
-- after the one before; the function headers begin at offset 128, and the function headers, the
-- string table and the overflow table have their declared sizes and come in this order.
pub walk_sections-Laid :
    (len : ℕ) (h : HbcHeader) → 128 ≤ len → Ensures (walk_sections len h start) (Laid len h)
unfolding walk_sections
walk_sections-Laid len h big =
    bind_rule _ _ start _ _ (section-Ensures len "FunctionHeaders" _ start (start-Inv len big))
      λ heads w1 (at1, k1). section_rule len w1 k1.next _ _ "StringKinds" _ λ kinds w2 (at2, k2).
        section_rule len w2 k2.next _ _ "IdentifierHashes" _ λ hashes w3 (at3, k3).
          section_rule len w3 k3.next _ _ "SmallStringTable" _ λ small w4 (at4, k4).
            section_rule len w4 k4.next _ _ "OverflowStringTable" _ λ overflow w5 (at5, k5).
              section_rule len w5 k5.next _ _ "StringStorage" _ λ storage w6 (at6, k6).
                bind_rule _ _ w6 _ _ (section_opt-Kept len "ArrayBuffer" _ w6 k6.next)
                  λ array w7 k7.
                    bind_rule _ _ w7 _ _ (object_sections-Objects len h w7 k7.next) λ object w8 k8.
                      bind_rule _ _ w8 _ _ (big_int_sections-BigInts len h w8 k8.next)
                        λ big_ints w9 k9.
                          bind_rule _ _ w9 _ _ (section_opt-Kept len "RegExpTable" _ w9 k9.next)
                            λ regexp w10 k10.
                              bind_rule _ _ w10 _ _
                                (section_opt-Kept len "RegExpStorage" _ w10 k10.next)
                                λ _ w11 k11.
                                  bind_rule _ _ w11 _ _
                                    (section_opt-Kept len "CJSModules" _ w11 k11.next)
                                    λ modules w12 k12.
                                      bind_rule _ _ w12 _ _ (source_section-Kept len h w12 k12.next)
                                        λ _ w13 k13. record {
                                          headers_at = at1;
                                          headers_size = k1.size_is;
                                          headers_end = omega (
                                            arith, at1, k1.before, at2, k2.from, k2.before, at3,
                                            k3.from, k3.before, at4, k4.from,
                                          );
                                          strings_size = k4.size_is;
                                          strings_end = omega (arith, k4.before, at5);
                                          overflow_size = k5.size_is;
                                          overflow_end = k5.inside;
                                          kinds_size = k2.size_is;
                                          kinds_inside = omega (arith, k2.inside, k2.size_is);
                                          storage_size = k6.size_is;
                                          storage_inside = omega (arith, k6.inside, k6.size_is);
                                          array_size = k7.size_is;
                                          array_inside = k7.inside;
                                          keys_size = k8.keys_size;
                                          keys_inside = k8.keys_inside;
                                          values_size = k8.values_size;
                                          values_inside = k8.values_inside;
                                          shapes_size = k8.shapes_size;
                                          shapes_after = λ z. omega (
                                            arith,
                                            k8.shapes_after z,
                                            k7.later,
                                            k6.before,
                                            k6.from,
                                            k5.before,
                                          );
                                          shapes_inside = k8.shapes_inside;
                                          big_table_size = k9.table_size;
                                          big_table_inside = k9.table_inside;
                                          big_storage_size = k9.storage_size;
                                          big_storage_inside = k9.storage_inside;
                                          regexp_size = k10.size_is;
                                          regexp_after = λ z. omega (
                                            arith,
                                            k10.after z,
                                            k9.later,
                                            k8.later,
                                            k7.later,
                                            k6.before,
                                            k6.from,
                                            k5.before,
                                          );
                                          regexp_inside = k10.inside;
                                          modules_size = k12.size_is;
                                          modules_inside = k12.inside;
                                          tiled = k13.tiled;
                                        }
