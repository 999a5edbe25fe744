-- ===== src/Emit/Body.antt =====
-- What the emitters of src/emit.rs share: behind the header they write the source again, when each
-- table is written as it is in the source and the tables lie in order.
use droidsaw_hermes.Prelude.{
  ℕ, ◌+◌, ◌*◌, ◌^◌, ◌≤◌, ◌<◌, ◌≡◌, refl, Bool, true, false, List, [], ◌∷◌, length, arith, tests,
  ltb, if◌then◌else◌,
}
use droidsaw_hermes.Errors.{ok}
use droidsaw_hermes.Header.{function_count, string_count, overflow_string_count, func_header_size}
use droidsaw_hermes.File.{HbcFile}
use droidsaw_hermes.Emit.{
  Writer, copy, emit_small_string_table_v96, emit_overflow_string_table_v96, String,
}
use droidsaw_hermes.Emit.Slices.{Writes, Writes-copy, Writes-copy_from, Writes-require}
use droidsaw_hermes.Emit.HeaderBytes.{Source}
use droidsaw_hermes.Emit.Chains.{Chain, end, ◌⨾◌, run-Chain}
use droidsaw_hermes.Emit.Files.{
  Region, region, Extra, when, consistent, stitch, emit_body, section_bytes_usize,
}

-- What an emitter finds in its file: the tables in order within the buffer, and a writer for each that
-- reproduces it.
pub record Ready (file : HbcFile) (functions : Writer) (extra : Extra) : Type 0 where
  pub source : Source file
  pub small : length file.buf < 2 ^ 32
  pub headers_at : file.ranges.func_headers.offset ≡ 128
  pub headers_end :
      128 + function_count file.header * func_header_size file.header
      ≤ file.ranges.small_string_table.offset
  pub strings_end :
      file.ranges.small_string_table.offset + string_count file.header * 4
      ≤ file.ranges.overflow_string_table.offset
  pub overflow_end :
      file.ranges.overflow_string_table.offset + overflow_string_count file.header * 8
      ≤ length file.buf
  pub functions_written :
      Writes file.buf 128
        (128 + function_count file.header * func_header_size file.header)
        functions
  pub strings_written :
      Writes file.buf file.ranges.small_string_table.offset
        (file.ranges.small_string_table.offset + string_count file.header * 4)
        (emit_small_string_table_v96 file)
  pub overflow_written :
      Writes file.buf file.ranges.overflow_string_table.offset
        (file.ranges.overflow_string_table.offset + overflow_string_count file.header * 8)
        (emit_overflow_string_table_v96 file)
  pub extra_after :
      0 < extra.count
      → file.ranges.overflow_string_table.offset + overflow_string_count file.header * 8
        ≤ extra.start
  pub extra_end : 0 < extra.count → extra.start + extra.count * 8 ≤ length file.buf
  pub extra_written :
      0 < extra.count → Writes file.buf extra.start (extra.start + extra.count * 8) extra.emit

-- A region of `count` entries that may be absent.
abbrev optional : ℕ → ℕ → ℕ → Region
optional start count last = record {
  present = ltb 0 count;
  start = start;
  end = if ltb 0 count then start + count * 8 else last;
}

abbrev required : ℕ → ℕ → Region
required start size = record { present = true; start = start; end = start + size }

region-required :
    (name : String) (start count stride last : ℕ)
    → start + count * stride < 2 ^ 64
    → region true name start count stride last ≡ ok (required start (count * stride))
unfolding region section_bytes_usize
region-required name start count stride last b = ground arith

region-optional :
    (name : String) (start count last : ℕ)
    → (0 < count → start + count * 8 < 2 ^ 64)
    → region (ltb 0 count) name start count 8 last ≡ ok (optional start count last)
unfolding region section_bytes_usize
region-optional name start count last b = ground arith

when-Chain :
    (src : List ℕ) (c : ℕ) (b : Bool) (a start stop : ℕ) (table : Writer) (rest : List Writer)
    → (b ≡ true → (a ≤ start) × (start ≤ length src) × Writes src start stop table)
    → Chain src c (if b then stop else a) rest
    → Chain src c a (when b (copy src a start ∷ table ∷ []) rest)
when-Chain src c true a start stop table rest h k =
    let (l, m, w) = h refl in Writes-copy src a start l m ⨾ w ⨾ k
when-Chain src c false a start stop table rest h k = k

consistent_lem :
    (len n ss sz os oc es ec : ℕ)
    → 128 + n ≤ ss
    → ss + sz ≤ os
    → os + oc * 8 ≤ len
    → (0 < ec → os + oc * 8 ≤ es)
    → (0 < ec → es + ec * 8 ≤ len)
    → (let ost = optional os oc (ss + sz) in
        consistent len (required 128 n) (required ss sz) ost (optional es ec ost.end) ≡ true)
consistent_lem len n ss sz os oc es ec a b c d e = ground arith

module _ (file : HbcFile) (functions : Writer) (extra : Extra)
    (r : Ready file functions extra) where
  abbrev fh : Region
  fh = required 128 (function_count file.header * func_header_size file.header)

  abbrev sst : Region
  sst = required file.ranges.small_string_table.offset (string_count file.header * 4)

  abbrev ost : Region
  ost =
      optional file.ranges.overflow_string_table.offset (overflow_string_count file.header) sst.end

  abbrev third : Region
  third = optional extra.start extra.count ost.end

  -- The overflow table ends before the next one begins, whether it is there or not.
  ost_end :
      ost.end ≤ file.ranges.overflow_string_table.offset + overflow_string_count file.header * 8
  ost_end = ground (arith, r.strings_end)

  third_end : third.end ≤ length file.buf
  third_end = ground (arith, r.extra_end, ost_end, r.overflow_end)

  stitch-Writes :
      (reason : String)
      → Writes file.buf 128
          (length file.buf)
          (stitch file functions extra.emit reason fh sst ost third)
  unfolding stitch
  stitch-Writes reason = run-Chain file.buf 128 (length file.buf) _ (
      Writes-require file.buf 128 _ _ (
        consistent_lem (length file.buf) (function_count file.header * func_header_size file.header)
          file.ranges.small_string_table.offset (string_count file.header * 4)
          file.ranges.overflow_string_table.offset (overflow_string_count file.header) extra.start
          extra.count r.headers_end r.strings_end r.overflow_end r.extra_after r.extra_end)
      ⨾ Writes-copy file.buf 128 128 (omega arith) r.source.long_enough
      ⨾ r.functions_written
      ⨾ Writes-copy file.buf fh.end sst.start r.headers_end
          (omega (arith, r.strings_end, r.overflow_end))
      ⨾ r.strings_written
      ⨾ when-Chain file.buf (length file.buf) ost.present sst.end ost.start _ _ _
          (λ _. (r.strings_end, omega (arith, r.overflow_end), r.overflow_written))
          (when-Chain file.buf (length file.buf) third.present ost.end third.start _ _ _
            (λ t.
              let c : 0 < extra.count = omega (tests, t) in
              (
                omega (arith, ost_end, r.extra_after c),
                omega (arith, r.extra_end c),
                r.extra_written c,
              ))
            (Writes-copy_from file.buf third.end third_end ⨾ end)))

  pub emit_body-Writes :
      (reason : String)
      → Writes file.buf 128 (length file.buf) (emit_body file functions extra reason)
  unfolding emit_body
  emit_body-Writes reason =
      let e0 : region true "FunctionHeaders" file.ranges.func_headers.offset
            (function_count file.header) (func_header_size file.header) 0
          ≡ ok fh =
        rw r.headers_at (
          region-required "FunctionHeaders" 128 (function_count file.header)
            (func_header_size file.header) 0
            (omega (arith, r.headers_end, r.strings_end, r.overflow_end, r.small))) in
      let e1 =
        region-required "SmallStringTable" file.ranges.small_string_table.offset
          (string_count file.header) 4 0 (omega (arith, r.strings_end, r.overflow_end, r.small)) in
      let e2 =
        region-optional "OverflowStringTable" file.ranges.overflow_string_table.offset
          (overflow_string_count file.header) sst.end
          (λ _. omega (arith, r.overflow_end, r.small)) in
      let e3 =
        region-optional extra.section extra.start extra.count ost.end
          (λ t. omega (arith, r.extra_end t, r.small)) in
      rw (emit_body, e0, e1, e2, e3) (stitch-Writes reason)
