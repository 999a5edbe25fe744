-- ===== src/Tests/Lines.antt =====
-- Runs of the decoder of source locations, with numbers of one byte.
use droidsaw_hermes.Prelude.{
  ℕ, ◌-◌, ◌≤◌, ◌<◌, ◌≡◌, refl, false, List, [], ◌∷◌, Option, none, some, get_elem?, Option-cases,
  inl, inr, All, length, ltb, if◌then◌else◌, arith, zero, suc,
}
use droidsaw_hermes.Decode.{ℤ, pos, negsuc}
use droidsaw_hermes.DebugInfo.Locations.{
  FunctionSourceInfo, decode_source_locations, functions_loop, locations_loop, read_head,
  read_start, read_entry, read_deltas, read_statement, skip_environment, read, advance, location_of,
  ◌+ℤ◌, diff,
}
use droidsaw_hermes.DebugInfo.Locations.{source_locations_max_functions}
use droidsaw_hermes.DebugInfo.Locations.Differences.{Fits, tokens}
use droidsaw_hermes.DebugInfo.Locations.RoundTrip.{Whole, Holds, decode_source_locations-tokens}
use droidsaw_hermes.DebugInfo.Locations.Ranges.{
  InRange, CorruptLast, decode_source_locations-Ranges,
}

-- Numbers from -64 to 63 in one byte: what SLEB128 makes of a byte without a continuation bit.
unfoldable read_byte : List ℕ → ℕ → Option (ℤ × ℕ)
read_byte bytes at = elim (get_elem? bytes at) [
  | none ↦ none
  | some b ↦
      if ltb b 64 then some (pos b, 1) else if ltb b 128 then some (negsuc (127 - b), 1) else none
]

abbrev two_functions : List ℕ
two_functions = 7 ∷ 1 ∷ 1 ∷ 1 ∷ 2 ∷ 5 ∷ 0 ∷ 125 ∷ 1 ∷ 1 ∷ 127 ∷ 9 ∷ 2 ∷ 3 ∷ 127 ∷ []

abbrev long_function : FunctionSourceInfo
long_function = record {
  function_index = 7;
  start_line = 1;
  start_column = 1;
  locations =
      record { address = 1; line = 2; column = 6; statement = 0 }
      ∷ record { address = 1; line = 0; column = 7; statement = 1 }
      ∷ [];
  corrupt = false;
}

abbrev short_function : FunctionSourceInfo
short_function = record {
  function_index = 9;
  start_line = 2;
  start_column = 3;
  locations = [];
  corrupt = false;
}

abbrev two_infos : List FunctionSourceInfo
two_infos = long_function ∷ short_function ∷ []

two_decoded : decode_source_locations read_byte two_functions 97 ≡ some two_infos
unfolding read_byte decode_source_locations functions_loop locations_loop read_head read_start
    read_entry read_deltas read_statement skip_environment read advance location_of ◌+ℤ◌ diff
two_decoded = refl

get_elem?_inside : (xs : List ℕ) (i v : ℕ) → get_elem? xs i ≡ some v → i < length xs
get_elem?_inside [] i v h = ground arith
get_elem?_inside (x ∷ xs) zero v h = omega arith
get_elem?_inside (x ∷ xs) (suc i) v h = omega (arith, get_elem?_inside xs i v h)

read_byte_inside :
    (at : ℕ) (v : ℤ) (taken : ℕ)
    → read_byte two_functions at ≡ some (v, taken)
    → at < length two_functions
unfolding read_byte
read_byte_inside at v taken h = elim (Option-cases (get_elem? two_functions at)) [
  | inl absent ↦ let bad = rw (absent) at h in cc
  | inr (b, found) ↦ get_elem?_inside two_functions at b found
]

fit :
    (a l c s : ℕ)
    → a ≤ 9
    → l ≤ 9
    → c ≤ 9
    → s ≤ 9
    → Fits (record { address = a; line = l; column = c; statement = s })
fit a l c s ha hl hc hs = record {
  address = omega (arith, ha);
  line = omega (arith, hl);
  column = omega (arith, hc);
  statement = omega (arith, hs);
}

two-Whole : All Whole two_infos
two-Whole = (
  record {
    few = omega arith;
    ascending = (omega arith, (omega arith, tt));
    fitting = (
      fit 1 2 6 0 (omega arith) (omega arith) (omega arith) (omega arith),
      (fit 1 0 7 1 (omega arith) (omega arith) (omega arith) (omega arith), tt),
    );
    not_corrupt = refl;
  },
  (record { few = omega arith; ascending = tt; fitting = tt; not_corrupt = refl }, tt),
)

two-Holds : Holds read_byte two_functions (tokens 97 two_infos) 0 15
unfolding read_byte read diff
two-Holds = (
  1,
  refl,
  (
    2,
    refl,
    (
      3,
      refl,
      (
        4,
        refl,
        (
          5,
          refl,
          (
            6,
            refl,
            (
              7,
              refl,
              (
                8,
                refl,
                (
                  9,
                  refl,
                  (10, refl, (11, refl, (12, refl, (13, refl, (14, refl, (15, refl, refl)))))),
                ),
              ),
            ),
          ),
        ),
      ),
    ),
  ),
)

decode_source_locations-tokens_example :
    decode_source_locations read_byte two_functions 97 ≡ some two_infos
decode_source_locations-tokens_example =
    decode_source_locations-tokens read_byte two_functions read_byte_inside 97 long_function
      (short_function ∷ []) (omega arith) two-Whole two-Holds

decode_source_locations-Ranges_example :
    (length two_infos ≤ source_locations_max_functions)
    × All InRange two_infos
    × CorruptLast two_infos
decode_source_locations-Ranges_example =
    decode_source_locations-Ranges read_byte two_functions 97 two_infos two_decoded
