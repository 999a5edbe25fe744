-- ===== src/DebugInfo/Locations.antt =====
-- `decode_source_locations` of src/parser/debug_info.rs. The reader of one signed number,
-- `read_sleb128` of droidsaw-common, is a parameter: it returns the number and the bytes it took.
pub mod Differences
pub mod RoundTrip
pub mod Ranges
use droidsaw_hermes.Prelude.{
  ℕ, zero, suc, ◌+◌, ◌-◌, ◌*◌, ◌/◌, ◌%◌, ◌^◌, min, Bool, true, false, not, ◌&&◌, List, [], ◌∷◌,
  Option, none, some, length, ltb, leb, ◌==◌, if◌then◌else◌,
}
use droidsaw_hermes.Sections.{u32_max}
use droidsaw_hermes.Decode.{ℤ, pos, negsuc}

pub record SourceLocation : Type 0 where
  pub address : ℕ
  pub line : ℕ
  pub column : ℕ
  pub statement : ℕ

pub record FunctionSourceInfo : Type 0 where
  pub function_index : ℕ
  pub start_line : ℕ
  pub start_column : ℕ
  pub locations : List SourceLocation
  pub corrupt : Bool

abbrev pub source_locations_max_pc_entries : ℕ
source_locations_max_pc_entries = 2 ^ 20

abbrev pub source_locations_max_functions : ℕ
source_locations_max_functions = 2 ^ 22

-- The difference of two numbers.
unfoldable pub diff : ℕ → ℕ → ℤ
diff a b = if leb b a then pos (a - b) else negsuc (b - a - 1)

infixl 60 ◌+ℤ◌
unfoldable pub ◌+ℤ◌ : ℤ → ℤ → ℤ
pos a +ℤ pos b = pos (a + b)
pos a +ℤ negsuc b = diff a (b + 1)
negsuc a +ℤ pos b = diff b (a + 1)
negsuc a +ℤ negsuc b = negsuc (a + b + 1)

-- The sum of two signed numbers of some bits, kept between the least and the greatest.
abbrev pub saturate : ℕ → ℤ → ℤ
saturate bits (pos n) = pos (min n (2 ^ (bits - 1) - 1))
saturate bits (negsuc n) = negsuc (min n (2 ^ (bits - 1) - 1))

abbrev pub saturating_add : ℕ → ℤ → ℤ → ℤ
saturating_add bits a b = saturate bits (a +ℤ b)

abbrev pub is_negative : ℤ → Bool
is_negative (pos n) = false
is_negative (negsuc n) = true

-- `max(v, 0)`
abbrev pub at_least_zero : ℤ → ℕ
at_least_zero (pos n) = n
at_least_zero (negsuc n) = 0

-- `v & 1 != 0` and `v >> 1`, in two's complement.
abbrev pub is_odd : ℤ → Bool
is_odd (pos n) = n % 2 == 1
is_odd (negsuc n) = n % 2 == 0

abbrev pub half : ℤ → ℤ
half (pos n) = pos (n / 2)
half (negsuc n) = negsuc (n / 2)

-- A reader takes a position in the data, and fails or returns the next one with its result.
abbrev pub Reader : Type 0 → Type 0
Reader A = ℕ → Option (A × ℕ)

infixl 5 ◌>>=◌ ◌>>◌
abbrev pub ◌>>=◌ : {A B : Type 0} → Reader A → (A → Reader B) → Reader B
◌>>=◌ m f at = elim (m at) [ none ↦ none | some r ↦ f r.0 r.1 ]

abbrev pub ◌>>◌ : {A B : Type 0} → Reader A → Reader B → Reader B
m >> n = m >>= λ _. n

abbrev pub pure : {A : Type 0} → A → Reader A
pure a at = some (a, at)

abbrev pub fail : {A : Type 0} → Reader A
fail at = none

pub record Deltas : Type 0 where
  pub address : ℤ
  pub line : ℤ
  pub column : ℤ
  pub statement : ℤ

pub data Entry : Type 0 where
  terminator : Entry
  deltas : Deltas → Entry

-- `current_address` and its siblings.
pub record Cursor : Type 0 where
  pub address : ℤ
  pub line : ℤ
  pub column : ℤ
  pub statement : ℤ

unfoldable pub advance : Deltas → Cursor → Cursor
advance d c = record {
  address = saturating_add 64 c.address d.address;
  line = saturating_add 32 c.line d.line;
  column = saturating_add 32 c.column d.column;
  statement = saturating_add 64 c.statement d.statement;
}

unfoldable pub location_of : Cursor → SourceLocation
location_of c = record {
  address = min (at_least_zero c.address) u32_max;
  line = at_least_zero c.line;
  column = at_least_zero c.column;
  statement = min (at_least_zero c.statement) u32_max;
}

-- The locations of one function, where its entries end, and whether they end inside an entry.
pub record Run : Type 0 where
  pub locations : List SourceLocation
  pub corrupt : Bool
  pub position : ℕ

abbrev pub has_scope_env : ℕ → Bool
has_scope_env version = leb 94 version && ltb version 97

abbrev pub has_env_idx : ℕ → Bool
has_env_idx version = leb 99 version

abbrev pub start_cursor : ℤ → ℤ → Cursor
start_cursor line column = record {
  address = pos 0;
  line = pos (at_least_zero line);
  column = pos (at_least_zero column);
  statement = pos 0;
}

abbrev pub info : ℕ → ℤ → ℤ → Run → FunctionSourceInfo
info index line column run = record {
  function_index = index;
  start_line = at_least_zero line;
  start_column = at_least_zero column;
  locations = run.locations;
  corrupt = run.corrupt;
}

abbrev pub non_empty : List FunctionSourceInfo → Option (List FunctionSourceInfo)
non_empty [] = none
non_empty (f ∷ fs) = some (f ∷ fs)

module _ (read_sleb128 : List ℕ → ℕ → Option (ℤ × ℕ)) (bytes : List ℕ) where
  unfoldable pub read : Reader ℤ
  read at = elim (read_sleb128 bytes at) [ none ↦ none | some r ↦ some (r.0, at + r.1) ]

  unfoldable pub read_statement : Bool → Reader ℤ
  read_statement present = if present then read else pure (pos 0)

  unfoldable pub read_start : ℕ → Reader (ℕ × ℤ × ℤ)
  read_start index = do line ← read; column ← read; pure (index, line, column)

  -- The number of a function and where it starts: a failure ends the list.
  unfoldable pub read_head : Reader (ℕ × ℤ × ℤ)
  read_head = do index ← read; if is_negative index then fail else read_start (at_least_zero index)

  module _ (version : ℕ) where
    -- The values that are read only for the bytes they take.
    unfoldable pub skip_environment : Reader (Unit {0})
    skip_environment =
        if has_scope_env version
        then (do read; read; pure tt)
        else if has_env_idx version
        then (do read; pure tt)
        else pure tt

    unfoldable pub read_deltas : ℤ → Reader Entry
    read_deltas address = do
      line ← read
      column ← read
      skip_environment
      statement ← read_statement (is_odd line)
      pure (
          deltas (record {
            address = address;
            line = half line;
            column = column;
            statement = statement;
          }))

    -- One round of the inner loop: a failure is what sets `corrupt`.
    unfoldable pub read_entry : Reader Entry
    read_entry = do
      address ← read
      if is_negative address then pure terminator else read_deltas address

    -- `left` is how many more locations the list takes.
    unfoldable pub locations_loop : ℕ → Cursor → ℕ → Run
    locations_loop zero c at = record { locations = []; corrupt = false; position = at }
    locations_loop (suc left) c at = elim (read_entry at) [
      | none ↦ record { locations = []; corrupt = true; position = at }
      | some (terminator, next) ↦ record { locations = []; corrupt = false; position = next }
      | some (deltas d, next) ↦
          let run = locations_loop left (advance d c) next in
          record {
            locations = location_of (advance d c) ∷ run.locations;
            corrupt = run.corrupt;
            position = run.position;
          }
    ]

    -- `left` is how many more functions the list takes.
    unfoldable pub functions_loop : ℕ → ℕ → List FunctionSourceInfo
    functions_loop zero at = []
    functions_loop (suc left) at = elim (ltb at (length bytes)) [
      | false ↦ []
      | true ↦ elim (read_head at) [
        | none ↦ []
        | some ((index, line, column), next) ↦
            let run =
              locations_loop source_locations_max_pc_entries (start_cursor line column) next in
            info index line column run
            ∷ elim run.corrupt [ true ↦ [] | false ↦ functions_loop left run.position ]
      ]
    ]

    unfoldable pub decode_source_locations : Option (List FunctionSourceInfo)
    decode_source_locations =
        if length bytes == 0
        then none
        else non_empty (functions_loop source_locations_max_functions 0)
