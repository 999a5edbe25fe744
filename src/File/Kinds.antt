-- ===== src/File/Kinds.antt =====
-- The decoding of the string kinds in `parse_inner`, src/parser/mod.rs, as expansion of its runs.
use droidsaw_hermes.Prelude.{
  ℕ, zero, suc, ◌+◌, ◌*◌, ◌/◌, ◌%◌, ◌^◌, ◌≤◌, ◌<◌, ◌≡◌, refl, ap, ◌∙◌, List, [], ◌∷◌, ◌++◌,
  append_assoc, append-nil, some, length, replicate, set, min, arith, tests, ltb, leb,
  if◌then◌else◌, Bool-cases, inl, inr, length-append, take, drop, length-take, ◌-◌, length-drop,
}
use droidsaw_hermes.File.{fill_run, kind_entry, kinds_loop, decode_string_kinds}
use droidsaw_hermes.Bytes.{IsBytes, read_u32_le, from_le_bytes, get_range}
use droidsaw_hermes.Bytes.Value.{from_le_bytes-lt, IsBytes-take, IsBytes-drop, read_le_in}
use droidsaw_hermes.Bitfield.Read.{read_bitfield_lem}
use droidsaw_hermes.Sections.{Range}
use droidsaw_hermes.Header.{HbcHeader, string_kind_count, string_count, version}

-- The list cut or padded with zeros to `n` elements.
abbrev pub pad : ℕ → List ℕ → List ℕ
pad zero xs = []
pad (suc n) [] = 0 ∷ pad n []
pad (suc n) (x ∷ xs) = x ∷ pad n xs

length-pad : (n : ℕ) (xs : List ℕ) → length (pad n xs) ≡ n
length-pad zero xs = refl
length-pad (suc n) [] = ap suc (length-pad n [])
length-pad (suc n) (x ∷ xs) = ap suc (length-pad n xs)

pad_nil : (n : ℕ) → replicate n 0 ≡ pad n []
pad_nil zero = refl
pad_nil (suc n) = ap (λ (xs : List ℕ). 0 ∷ xs) (pad_nil n)

set-pad :
    (n : ℕ) (xs : List ℕ) (v : ℕ)
    → length xs < n
    → set (pad n xs) (length xs) v ≡ pad n (xs ++ v ∷ [])
set-pad zero xs v h = ground arith
set-pad (suc n) [] v h = refl
set-pad (suc n) (x ∷ xs) v h = ap (λ (ys : List ℕ). x ∷ ys) (set-pad n xs v (omega arith))

pad_full : (n : ℕ) (xs ys : List ℕ) → n ≤ length xs → pad n (xs ++ ys) ≡ pad n xs
pad_full zero xs ys h = refl
pad_full (suc n) [] ys h = ground arith
pad_full (suc n) (x ∷ xs) ys h = ap (λ (zs : List ℕ). x ∷ zs) (pad_full n xs ys (omega arith))

-- The state of the loops when the kinds `xs` have been written.
abbrev written : ℕ → List ℕ → List ℕ × ℕ
written n xs = (pad n xs, min n (length xs))

fill_run_lem :
    (n count kind : ℕ) (xs : List ℕ)
    → fill_run count kind (written n xs) ≡ written n (xs ++ replicate count kind)
unfolding fill_run
fill_run_lem n zero kind xs = rw append-nil
fill_run_lem n (suc count) kind xs =
    elim (Bool-cases (ltb (min n (length xs)) (length (pad n xs)))) [
      | inl a ↦
          let lt : length xs < n = omega (tests, a, length-pad n xs) in
          let i : min n (length xs) ≡ length xs = omega arith in
          let e : suc (length xs) ≡ min n (length (xs ++ kind ∷ [])) =
            omega (arith, length-append xs (kind ∷ []), lt) in
          rw (fill_run, a, i, set-pad n xs kind lt, e)
            (rw (append_assoc xs (kind ∷ []) (replicate count kind)) at
              (fill_run_lem n count kind (xs ++ kind ∷ [])))
      | inr a ↦
          let full : n ≤ length xs = omega (tests, a, length-pad n xs) in
          let e : min n (length xs) ≡ min n (length (xs ++ replicate (suc count) kind)) =
            omega (arith, length-append xs (replicate (suc count) kind), full) in
          rw (fill_run, a, e, ← pad_full n xs (replicate (suc count) kind) full) refl
    ]

-- An entry as a number: the count in the low bits, the kind in the high ones.
abbrev run_of : ℕ → ℕ → ℕ × ℕ
run_of version w = if leb 72 version then (w % 2 ^ 31, w / 2 ^ 31) else (w % 2 ^ 30, w / 2 ^ 30)

-- The kinds of the entries from number `i` on, each repeated as often as its entry says.
abbrev pub expand : List ℕ → ℕ → ℕ → ℕ → ℕ → List ℕ
expand buf at version zero i = []
expand buf at version (suc n) i =
    let run = run_of version (read_u32_le buf (at + i * 4)) in
    replicate run.0 run.1 ++ expand buf at version n (suc i)

kind_entry_lem :
    (version : ℕ) (entry : List ℕ)
    → IsBytes entry
    → length entry ≡ 4
    → kind_entry version entry ≡ run_of version (from_le_bytes entry)
unfolding kind_entry
kind_entry_lem version entry h n =
    let b : from_le_bytes entry < 256 ^ 4 = rw n at (from_le_bytes-lt entry h) in
    rw
      (
        read_bitfield_lem entry 0 31 h (omega arith),
        read_bitfield_lem entry 31 1 h (omega arith),
        read_bitfield_lem entry 0 30 h (omega arith),
        read_bitfield_lem entry 30 2 h (omega arith),
      )
      (ground (arith, b))

get_range_four :
    (buf : List ℕ) (off : ℕ)
    → off + 4 ≤ length buf
    → get_range buf off (off + 4) ≡ some (take 4 (drop off buf))
get_range_four buf off h = let d : off + 4 - off ≡ 4 = omega arith in ground (arith, d)

-- The entry at an offset within the buffer.
entry_at :
    (buf : List ℕ) (off version : ℕ)
    → IsBytes buf
    → off + 4 ≤ length buf
    → kind_entry version (take 4 (drop off buf)) ≡ run_of version (read_u32_le buf off)
unfolding read_u32_le
entry_at buf off version b h =
    let n : length (take 4 (drop off buf)) ≡ 4 =
      omega (arith, length-take 4 (drop off buf), length-drop off buf) in
    let i : IsBytes (take 4 (drop off buf)) = IsBytes-take 4 _ (IsBytes-drop off buf b) in
    rw (read_le_in 4 buf off h) (kind_entry_lem version (take 4 (drop off buf)) i n)

kinds_loop_lem :
    (buf : List ℕ) (at version n m i : ℕ) (xs : List ℕ)
    → IsBytes buf
    → at + (i + m) * 4 ≤ length buf
    → kinds_loop buf at version m i (written n xs) ≡ written n (xs ++ expand buf at version m i)
unfolding kinds_loop
kinds_loop_lem buf at version n zero i xs b h = rw append-nil
kinds_loop_lem buf at version n (suc m) i xs b h =
    let r = run_of version (read_u32_le buf (at + i * 4)) in
    let g = get_range_four buf (at + i * 4) (omega arith) in
    let e = entry_at buf (at + i * 4) version b (omega arith) in
    rw (kinds_loop, g, e, fill_run_lem n r.0 r.1 xs)
      (rw (append_assoc xs (replicate r.0 r.1) (expand buf at version m (suc i))) at
        (kinds_loop_lem buf at version n m (suc i) (xs ++ replicate r.0 r.1) b (omega arith)))

-- For a table of entries that lies in the buffer, the kinds of the strings are the runs of the table
-- expanded in order, cut at the number of strings or padded with zeros to it.
pub decode_string_kinds-expand :
    (buf : List ℕ) (kinds : Range) (h : HbcHeader)
    → IsBytes buf
    → kinds.offset + string_kind_count h * 4 ≤ length buf
    → decode_string_kinds buf kinds h
      ≡ pad (string_count h) (expand buf kinds.offset (version h) (string_kind_count h) 0)
unfolding decode_string_kinds
decode_string_kinds-expand buf kinds h b inside =
    let n = string_count h in
    let z : 0 ≡ min n 0 = omega arith in
    let begin : ◌≡◌ {A = List ℕ × ℕ} (replicate n 0, 0) (written n []) = λ i. (pad_nil n i, z i) in
    ap (λ (st : List ℕ × ℕ). (kinds_loop buf kinds.offset (version h) (string_kind_count h) 0 st).0)
      begin
    ∙ ap (λ (st : List ℕ × ℕ). st.0)
        (kinds_loop_lem buf kinds.offset (version h) n (string_kind_count h) 0 [] b
          (omega (arith, inside)))
