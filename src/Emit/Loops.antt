-- ===== src/Emit/Loops.antt =====
-- The loops of the table writers of src/emit.rs, and single entries that are written as they are in
-- the source.
use droidsaw_hermes.Prelude.{
  ℕ, zero, suc, ◌+◌, ◌*◌, ◌-◌, ◌≤◌, ◌<◌, ◌≡◌, refl, Bool, true, false, List, ◌++◌, Option, some,
  length, arith, leb, ◌==◌,
}
use droidsaw_hermes.Errors.{ok, ◌>>=◌}
use droidsaw_hermes.Bytes.{IsBytes, read_u32_le}
use droidsaw_hermes.Bytes.Value.{read_le_in, IsBytes-take, IsBytes-drop}
use droidsaw_hermes.Header.{function_count, string_count}
use droidsaw_hermes.File.Raw.{raw_small_func_header_v98, v98_layout}
use droidsaw_hermes.Entries.{
  emit_one_small_func_header_v98, read_small_func_header_v96, small_func_header_v96_entry,
  emit_one_small_func_header_v96, read_small_string_table_entry, small_string_table_entry,
  emit_one_small_string_table_entry_v96, read_small_func_header_v98, small_func_header_v98_entry,
}
use droidsaw_hermes.Entries.V96.{small_func_header_v96_entry-read}
use droidsaw_hermes.Entries.Strings.{small_string_table_entry-read}
use droidsaw_hermes.Sections.{Range}
use droidsaw_hermes.File.{HbcFile}
use droidsaw_hermes.File.Raw.{
  read_entry, read_pair, pair_entry, raw_small_func_header_v96, raw_small_string_table_entry,
  has_16_byte_headers,
}
use droidsaw_hermes.Emit.{
  HermesEmitError, Writer, u32, table_loop, function_loop, ok_or_else, pair_writer,
  function_entry_v96, string_entry, advance, function_entry_v98,
}
use droidsaw_hermes.Emit.Slices.{slice, length-slice, Writes-done, Writes-u32, Writes-then, Writes}
use droidsaw_hermes.Entries.V98.{small_func_header_v98_entry-read}

module _ (src : List ℕ) (at size : ℕ) (entry : ℕ → Writer) where
  pub Writes-table_loop :
      (n i : ℕ)
      → ((j : ℕ) → j < i + n → Writes src (at + j * size) (at + j * size + size) (entry j))
      → Writes src (at + i * size) (at + (i + n) * size) (table_loop entry n i)
  unfolding table_loop
  Writes-table_loop zero i h =
      let e : i + 0 ≡ i = omega arith in rw e (Writes-done src (at + i * size))
  Writes-table_loop (suc n) i h =
      let step : at + i * size + size ≡ at + suc i * size = omega arith in
      let end : suc i + n ≡ i + suc n = omega arith in
      let rest : Writes src (at + suc i * size) (at + (suc i + n) * size)
          (table_loop entry n (suc i)) =
        Writes-table_loop n (suc i) (λ j k. h j (omega arith)) in
      Writes-then src (at + i * size) (at + suc i * size) (at + (i + suc n) * size) (entry i) _
        (rw step at (h i (omega arith))) (rw end at rest)

  pub Writes-function_loop :
      (n i : ℕ) (seq : Option ℕ)
      → advance seq i ≡ some i
      → ((j : ℕ) → j < i + n → Writes src (at + j * size) (at + j * size + size) (entry j))
      → Writes src (at + i * size) (at + (i + n) * size) (function_loop entry n i seq)
  unfolding function_loop
  Writes-function_loop zero i seq e h =
      let e : i + 0 ≡ i = omega arith in rw e (Writes-done src (at + i * size))
  Writes-function_loop (suc n) i seq e h =
      let step : at + i * size + size ≡ at + suc i * size = omega arith in
      let end : suc i + n ≡ i + suc n = omega arith in
      let rest : Writes src (at + suc i * size) (at + (suc i + n) * size)
          (function_loop entry n (suc i) (some i)) =
        Writes-function_loop n (suc i) (some i) (ground arith) (λ j k. h j (omega arith)) in
      rw (function_loop, e)
        (Writes-then src (at + i * size) (at + suc i * size) (at + (i + suc n) * size) (entry i) _
          (rw step at (h i (omega arith))) (rw end at rest))

-- An entry that reading and writing preserve.
Writes-entry :
    {A : Type 0} (src : List ℕ) (off size : ℕ) (f : List ℕ → A) (g : A → List ℕ)
    (missing : HermesEmitError) (o : Option A)
    → IsBytes src
    → off + size ≤ length src
    → ((e : List ℕ) → IsBytes e → length e ≡ size → g (f e) ≡ e)
    → o ≡ read_entry src off size f
    → Writes src off (off + size) (λ out. ok_or_else o missing >>= λ raw. ok (out ++ g raw))
Writes-entry src off size f g missing o h k same e =
    let n : length (slice src off (off + size)) ≡ size =
      omega (arith, length-slice src off (off + size) (omega arith) k) in
    let i : IsBytes (slice src off (off + size)) =
      IsBytes-take (off + size - off) _ (IsBytes-drop off src h) in
    let s : g (f (slice src off (off + size))) ≡ slice src off (off + size) = same _ i n in
    record { ordered = omega arith; appends = λ out. ground (arith, k, s, e) }

read_pair_in :
    (buf : List ℕ) (off : ℕ)
    → off + 8 ≤ length buf
    → read_pair buf off ≡ some (read_u32_le buf off, read_u32_le buf (off + 4))
unfolding read_pair read_u32_le
read_pair_in buf off h =
    let d : off + 4 - off ≡ 4 = omega arith in
    let d' : off + 4 + 4 - (off + 4) ≡ 4 = omega arith in
    ground
      (arith, d, d', read_le_in 4 buf off (omega arith), read_le_in 4 buf (off + 4) (omega arith))

module _ (file : HbcFile) (h : IsBytes file.buf) where
  pub function_entry_v96-Writes :
      (i : ℕ)
      → has_16_byte_headers file.header ≡ true
      → i < function_count file.header
      → (let off = file.ranges.func_headers.offset + i * 16 in
          off + 16 ≤ length file.buf → Writes file.buf off (off + 16) (function_entry_v96 file i))
  unfolding emit_one_small_func_header_v96 raw_small_func_header_v96
  function_entry_v96-Writes i t k b =
      let off = file.ranges.func_headers.offset + i * 16 in
      let l : leb (function_count file.header) i ≡ false = ground arith in
      Writes-entry file.buf off 16 read_small_func_header_v96 small_func_header_v96_entry _ _ h b
        small_func_header_v96_entry-read (rw (t, l) refl)

  pub string_entry-Writes :
      (i : ℕ)
      → i < string_count file.header
      → file.ranges.small_string_table.size ≡ string_count file.header * 4
      → (let off = file.ranges.small_string_table.offset + i * 4 in
          off + 4 ≤ length file.buf → Writes file.buf off (off + 4) (string_entry file i))
  unfolding emit_one_small_string_table_entry_v96 raw_small_string_table_entry
  string_entry-Writes i k size b =
      let off = file.ranges.small_string_table.offset + i * 4 in
      let l : leb (string_count file.header) i ≡ false = ground arith in
      let z : (file.ranges.small_string_table.size == 0) ≡ false = ground (arith, size, k) in
      Writes-entry file.buf off 4 read_small_string_table_entry small_string_table_entry _ _ h b
        small_string_table_entry-read (rw (l, z) refl)

  pub pair_entry-Writes :
      (i count : ℕ) (table : Range) (missing : HermesEmitError)
      → i < count
      → table.size ≡ count * 8
      → (let off = table.offset + i * 8 in
          off + 8 ≤ length file.buf
          → Writes file.buf off (off + 8) (pair_writer (pair_entry file count table i) missing))
  pair_entry-Writes i count table missing k size b =
      let off = table.offset + i * 8 in
      let l : leb count i ≡ false = ground arith in
      let z : (table.size == 0) ≡ false = ground (arith, size, k) in
      let e : off + 4 + 4 ≡ off + 8 = omega arith in
      let w : Writes file.buf off (off + 4) (u32 (read_u32_le file.buf off)) =
        Writes-u32 file.buf off h (omega arith) in
      let w' : Writes file.buf (off + 4) (off + 8) (u32 (read_u32_le file.buf (off + 4))) =
        rw e at (Writes-u32 file.buf (off + 4) h (omega arith)) in
      rw (l, z, read_pair_in file.buf off b) (Writes-then file.buf off (off + 4) (off + 8) _ _ w w')

  pub function_entry_v98-Writes :
      (i : ℕ) (late : Bool)
      → v98_layout file.header ≡ some late
      → i < function_count file.header
      → (let off = file.ranges.func_headers.offset + i * 12 in
          off + 12 ≤ length file.buf → Writes file.buf off (off + 12) (function_entry_v98 file i))
  unfolding emit_one_small_func_header_v98 raw_small_func_header_v98
  function_entry_v98-Writes i late t k b =
      let off = file.ranges.func_headers.offset + i * 12 in
      let l : leb (function_count file.header) i ≡ false = ground arith in
      Writes-entry file.buf off 12 (read_small_func_header_v98 late) small_func_header_v98_entry _ _
        h b (small_func_header_v98_entry-read late) (rw (t, l) refl)
