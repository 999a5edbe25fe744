-- ===== src/DebugInfo/Locations/Ranges.antt =====
-- What holds of each list that `decode_source_locations` of src/parser/debug_info.rs returns, whatever
-- the data are.
use droidsaw_hermes.Prelude.{
  ℕ, zero, suc, ◌+◌, ◌-◌, ◌^◌, ◌≤◌, ◌≡◌, refl, sym, ap, subst, inl, inr, true, false, List, [], ◌∷◌,
  Option, none, some, length, ltb, ◌==◌, All, arith, Bool-cases, Option-cases, min,
}
use droidsaw_hermes.Decode.{ℤ, pos, negsuc}
use droidsaw_hermes.DebugInfo.Locations.{
  FunctionSourceInfo, Run, Cursor, Deltas, Entry, deltas, terminator, read, read_statement,
  skip_environment, read_deltas, read_entry, locations_loop, read_head, functions_loop,
  decode_source_locations, source_locations_max_pc_entries, source_locations_max_functions, advance,
  location_of, is_negative, at_least_zero, saturate, saturating_add, ◌+ℤ◌, ◌>>=◌, Reader, non_empty,
  start_cursor, is_odd,
}
use droidsaw_hermes.DebugInfo.Locations.Differences.{i32_max, Fits, AscendingFrom}

pub record InRange (f : FunctionSourceInfo) : Type 0 where
  pub count : length f.locations ≤ source_locations_max_pc_entries
  pub ascending : AscendingFrom 0 f.locations
  pub fitting : All Fits f.locations

-- Only the last function can be cut off.
abbrev pub CorruptLast : List FunctionSourceInfo → Type 0
CorruptLast [] = Unit
CorruptLast (f ∷ fs) = (f.corrupt ≡ true → fs ≡ []) × CorruptLast fs

-- An address that has been summed up so far.
abbrev Counted : ℤ → Type 0
Counted z = (n : ℕ) × (z ≡ pos n) × (n ≤ 2 ^ 63 - 1)

at_least_zero-saturate : (z : ℤ) → at_least_zero (saturate 32 z) ≤ i32_max
at_least_zero-saturate (pos n) = omega arith
at_least_zero-saturate (negsuc n) = omega arith

location_of-advance : (d : Deltas) (c : Cursor) → Fits (location_of (advance d c))
unfolding location_of advance
location_of-advance d c = record {
  address = omega arith;
  line = at_least_zero-saturate (c.line +ℤ d.line);
  column = at_least_zero-saturate (c.column +ℤ d.column);
  statement = omega arith;
}

pos_of : (z : ℤ) → is_negative z ≡ false → (n : ℕ) × (z ≡ pos n)
pos_of (pos n) h = (n, refl)
pos_of (negsuc n) h = cc

advance-Counted :
    (d : Deltas) (c : Cursor)
    → is_negative d.address ≡ false
    → Counted c.address
    → Counted (advance d c).address
      × ((location_of c).address ≤ (location_of (advance d c)).address)
unfolding advance location_of ◌+ℤ◌
advance-Counted d c positive (n, e, small) =
    let (m, f) = pos_of d.address positive in
    let sum : saturating_add 64 c.address d.address ≡ pos (min (n + m) (2 ^ 63 - 1)) =
      rw (e, f) refl in
    ((min (n + m) (2 ^ 63 - 1), sum, omega arith), rw (e, f) (omega (arith, small)))

non_empty-some : (listed fs : List FunctionSourceInfo) → non_empty listed ≡ some fs → listed ≡ fs
non_empty-some [] fs h = cc
non_empty-some (x ∷ xs) fs h = cc

-- The address of an entry that was read, or another value.
abbrev address_in : ℤ → Option (Entry × ℕ) → ℤ
address_in z none = z
address_in z (some (terminator, next)) = z
address_in z (some (deltas d, next)) = d.address

bind_some :
    {A B : Type 0} (m : Reader A) (f : A → Reader B) (at : ℕ) (r : B × ℕ)
    → (m >>= f) at ≡ some r
    → (a : A) × (mid : ℕ) × (m at ≡ some (a, mid)) × (f a mid ≡ some r)
bind_some m f at r h = elim (Option-cases (m at)) [
  | inl absent ↦ let bad = rw (◌>>=◌, absent) at h in cc
  | inr ((a, mid), found) ↦ (a, mid, found, rw (◌>>=◌, found) at h)
]

module _ (read_sleb128 : List ℕ → ℕ → Option (ℤ × ℕ)) (bytes : List ℕ) (version : ℕ) where
  read_deltas_address :
      (z : ℤ) (at : ℕ) (d : Deltas) (next : ℕ)
      → read_deltas read_sleb128 bytes version z at ≡ some (deltas d, next)
      → d.address ≡ z
  unfolding read_deltas
  read_deltas_address z at d next h =
      let (line, a, ra, ha) = bind_some (read read_sleb128 bytes) _ at (deltas d, next) h in
      let (column, b, rb, hb) = bind_some (read read_sleb128 bytes) _ a (deltas d, next) ha in
      let (u, c, rc, hc) =
        bind_some (skip_environment read_sleb128 bytes version) _ b (deltas d, next) hb in
      let (statement, e, re, he) =
        bind_some (read_statement read_sleb128 bytes (is_odd line)) _ c (deltas d, next) hc in
      sym (ap (address_in z) he)

  read_entry_address :
      (at : ℕ) (d : Deltas) (next : ℕ)
      → read_entry read_sleb128 bytes version at ≡ some (deltas d, next)
      → is_negative d.address ≡ false
  unfolding read_entry
  read_entry_address at d next h =
      let (address, a, ra, ha) = bind_some (read read_sleb128 bytes) _ at (deltas d, next) h in
      elim (Bool-cases (is_negative address)) [
        | inl negative ↦ let bad = rw (negative) at ha in cc
        | inr positive ↦
            let same = read_deltas_address address a d next (rw (positive) at ha) in
            rw (same) positive
      ]

  -- What the inner loop returns, from a place it has come to.
  record Listed (least left : ℕ) (run : Run) : Type 0 where
    count : length run.locations ≤ left
    ascending : AscendingFrom least run.locations
    fitting : All Fits run.locations

  locations_loop-Listed :
      (left : ℕ) (c : Cursor) (at : ℕ)
      → Counted c.address
      → Listed (location_of c).address left (locations_loop read_sleb128 bytes version left c at)
  unfolding locations_loop
  locations_loop-Listed zero c at counted = record {
    count = omega arith;
    ascending = tt;
    fitting = tt;
  }
  locations_loop-Listed (suc left) c at counted =
      elim (Option-cases (read_entry read_sleb128 bytes version at)) [
        | inl absent ↦
            rw (locations_loop, absent)
              (record { count = omega arith; ascending = tt; fitting = tt })
        | inr ((terminator, next), found) ↦
            rw (locations_loop, found)
              (record { count = omega arith; ascending = tt; fitting = tt })
        | inr ((deltas d, next), found) ↦
            let (further, le) = advance-Counted d c (read_entry_address at d next found) counted in
            let rest = locations_loop-Listed left (advance d c) next further in
            rw (locations_loop, found)
              (record {
                count = omega (arith, rest.count);
                ascending = (le, rest.ascending);
                fitting = (location_of-advance d c, rest.fitting);
              })
      ]

  functions_loop-Ranges :
      (left at : ℕ)
      → (length (functions_loop read_sleb128 bytes version left at) ≤ left)
        × All InRange (functions_loop read_sleb128 bytes version left at)
        × CorruptLast (functions_loop read_sleb128 bytes version left at)
  unfolding functions_loop location_of
  functions_loop-Ranges zero at = (omega arith, tt, tt)
  functions_loop-Ranges (suc left) at = elim (Bool-cases (ltb at (length bytes))) [
    | inr past ↦ rw (functions_loop, past) (omega arith, tt, tt)
    | inl within ↦ elim (Option-cases (read_head read_sleb128 bytes at)) [
      | inl absent ↦ rw (functions_loop, within, absent) (omega arith, tt, tt)
      | inr (((index, line, column), next), found) ↦
          let start = start_cursor line column in
          let run =
            locations_loop read_sleb128 bytes version source_locations_max_pc_entries start next in
          let listed =
            locations_loop-Listed source_locations_max_pc_entries start next
              (0, refl, omega arith) in
          let rest = functions_loop-Ranges left run.position in
          elim (Bool-cases run.corrupt) [
            | inl cut ↦
                rw (functions_loop, within, found, cut)
                  (
                    omega arith,
                    (
                      record {
                        count = listed.count;
                        ascending = listed.ascending;
                        fitting = listed.fitting;
                      },
                      tt,
                    ),
                    (λ _. refl, tt),
                  )
            | inr whole ↦
                rw (functions_loop, within, found, whole)
                  (
                    omega (arith, rest.0),
                    (
                      record {
                        count = listed.count;
                        ascending = listed.ascending;
                        fitting = listed.fitting;
                      },
                      rest.1,
                    ),
                    (λ h. cc, rest.2),
                  )
          ]
    ]
  ]

  -- A list of functions is returned with at most 2 ^ 22 of them, each with at most 2 ^ 20 locations, whose
  -- addresses do not descend and whose numbers are in range, and only the last function is marked corrupt.
  pub decode_source_locations-Ranges :
      (fs : List FunctionSourceInfo)
      → decode_source_locations read_sleb128 bytes version ≡ some fs
      → (length fs ≤ source_locations_max_functions) × All InRange fs × CorruptLast fs
  unfolding decode_source_locations
  decode_source_locations-Ranges fs h =
      let listed = functions_loop read_sleb128 bytes version source_locations_max_functions 0 in
      let ranges = functions_loop-Ranges source_locations_max_functions 0 in
      elim (Bool-cases (length bytes == 0)) [
        | inl empty ↦ let bad = rw (empty) at h in cc
        | inr filled ↦
            let same = non_empty-some listed fs (rw (filled) at h) in
            subst
              (λ (xs : List FunctionSourceInfo).
                (length xs ≤ source_locations_max_functions) × All InRange xs × CorruptLast xs)
              same ranges
      ]
