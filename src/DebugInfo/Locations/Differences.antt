-- ===== src/DebugInfo/Locations/Differences.antt =====
-- The format that `decode_source_locations` of src/parser/debug_info.rs reads: what a writer puts into
-- the stream, each location as its differences from the one before.
use droidsaw_hermes.Prelude.{
  ℕ, ◌+◌, ◌-◌, ◌*◌, ◌^◌, ◌≤◌, ◌<◌, ◌≡◌, refl, ap, inl, inr, Bool, true, false, not, List, [], ◌∷◌,
  ◌++◌, leb, ◌==◌, if◌then◌else◌, arith, Bool-cases, min,
}
use droidsaw_hermes.Sections.{u32_max}
use droidsaw_hermes.Decode.{ℤ, pos, negsuc}
use droidsaw_hermes.DebugInfo.Locations.{
  SourceLocation, FunctionSourceInfo, Deltas, Cursor, diff, ◌+ℤ◌, is_odd, half, saturating_add,
  advance, location_of, has_scope_env, has_env_idx,
}

abbrev pub i32_max : ℕ
i32_max = 0x7FFF_FFFF

-- The numbers of a location fit what the reader keeps them in.
pub record Fits (l : SourceLocation) : Type 0 where
  pub address : l.address ≤ u32_max
  pub line : l.line ≤ i32_max
  pub column : l.column ≤ i32_max
  pub statement : l.statement ≤ u32_max

abbrev pub AscendingFrom : ℕ → List SourceLocation → Type 0
AscendingFrom least [] = Unit
AscendingFrom least (l ∷ ls) = (least ≤ l.address) × AscendingFrom l.address ls

abbrev pub bit : Bool → ℕ
bit b = if b then 1 else 0

-- Twice a number, and one more for a flag.
abbrev pub flagged : ℤ → Bool → ℤ
flagged (pos n) b = pos (2 * n + bit b)
flagged (negsuc n) b = negsuc (2 * n + 1 - bit b)

abbrev pub environment : ℕ → List ℤ
environment version =
    if has_scope_env version
    then pos 0 ∷ pos 0 ∷ []
    else if has_env_idx version
    then pos 0 ∷ []
    else []

abbrev pub moved : SourceLocation → SourceLocation → Bool
moved from to = not (to.statement == from.statement)

abbrev pub entry_tokens : ℕ → SourceLocation → SourceLocation → List ℤ
entry_tokens version from to =
    pos (to.address - from.address)
      ∷ flagged (diff to.line from.line) (moved from to)
      ∷ diff to.column from.column
      ∷ environment version
    ++ (if moved from to then diff to.statement from.statement ∷ [] else [])

abbrev pub locations_tokens : ℕ → SourceLocation → List SourceLocation → List ℤ
locations_tokens version from [] = negsuc 0 ∷ []
locations_tokens version from (l ∷ ls) =
    entry_tokens version from l ++ locations_tokens version l ls

abbrev pub start_of : FunctionSourceInfo → SourceLocation
start_of f = record { address = 0; line = f.start_line; column = f.start_column; statement = 0 }

abbrev pub function_tokens : ℕ → FunctionSourceInfo → List ℤ
function_tokens version f =
    pos f.function_index
    ∷ pos f.start_line
    ∷ pos f.start_column
    ∷ locations_tokens version (start_of f) f.locations

abbrev pub tokens : ℕ → List FunctionSourceInfo → List ℤ
tokens version [] = []
tokens version (f ∷ fs) = function_tokens version f ++ tokens version fs

-- What the reader makes of an entry, and of a location so far.
abbrev pub differences : SourceLocation → SourceLocation → Deltas
differences from to = record {
  address = pos (to.address - from.address);
  line = diff to.line from.line;
  column = diff to.column from.column;
  statement = diff to.statement from.statement;
}

abbrev pub cursor_at : SourceLocation → Cursor
cursor_at l = record {
  address = pos l.address;
  line = pos l.line;
  column = pos l.column;
  statement = pos l.statement;
}

diff_self : (a : ℕ) → diff a a ≡ pos 0
unfolding diff
diff_self a = ground arith

pub half-flagged : (v : ℤ) (b : Bool) → half (flagged v b) ≡ v
half-flagged (pos n) true = ap pos (omega arith)
half-flagged (pos n) false = ap pos (omega arith)
half-flagged (negsuc n) true = ap negsuc (omega arith)
half-flagged (negsuc n) false = ap negsuc (omega arith)

pub is_odd-flagged : (v : ℤ) (b : Bool) → is_odd (flagged v b) ≡ b
is_odd-flagged (pos n) true = ground arith
is_odd-flagged (pos n) false = ground arith
is_odd-flagged (negsuc n) true = ground arith
is_odd-flagged (negsuc n) false = ground arith

-- A number and the difference to another one make the other one.
+ℤ-diff : (a b : ℕ) → pos a +ℤ diff b a ≡ pos b
unfolding ◌+ℤ◌ diff
+ℤ-diff a b = elim (Bool-cases (leb a b)) [
  | inl le ↦ rw (le) (ap pos (ground arith))
  | inr gt ↦
      let lt : b < a = ground arith in
      let inside : leb (a - b - 1 + 1) a ≡ true = ground arith in
      rw (gt, inside) (ap pos (omega arith))
]

saturating_add-diff :
    (bits a b : ℕ) → b ≤ 2 ^ (bits - 1) - 1 → saturating_add bits (pos a) (diff b a) ≡ pos b
saturating_add-diff bits a b small = rw (+ℤ-diff a b) (ap pos (omega arith))

saturating_add_pos :
    (bits a b : ℕ)
    → a ≤ b
    → b ≤ 2 ^ (bits - 1) - 1
    → saturating_add bits (pos a) (pos (b - a)) ≡ pos b
unfolding ◌+ℤ◌
saturating_add_pos bits a b le small = ap pos (omega arith)

-- The differences of two locations lead from the first to the second.
pub advance-differences :
    (from to : SourceLocation)
    → from.address ≤ to.address
    → Fits to
    → advance (differences from to) (cursor_at from) ≡ cursor_at to
unfolding advance
advance-differences from to le fits =
    rw
      (
        saturating_add_pos 64 from.address to.address le (omega (arith, fits.address)),
        saturating_add-diff 32 from.line to.line (omega (arith, fits.line)),
        saturating_add-diff 32 from.column to.column (omega (arith, fits.column)),
        saturating_add-diff 64 from.statement to.statement (omega (arith, fits.statement)),
      )
      refl

pub location_of-cursor_at : (l : SourceLocation) → Fits l → location_of (cursor_at l) ≡ l
unfolding location_of
location_of-cursor_at l fits =
    let a : min l.address u32_max ≡ l.address = omega (arith, fits.address) in
    let s : min l.statement u32_max ≡ l.statement = omega (arith, fits.statement) in rw (a, s) refl
