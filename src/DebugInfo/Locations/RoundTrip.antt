-- ===== src/DebugInfo/Locations/RoundTrip.antt =====
-- Functions written as differences are read back by `decode_source_locations` of
-- src/parser/debug_info.rs.
use droidsaw_hermes.Prelude.{
  ℕ, zero, suc, ◌≤◌, ◌<◌, ◌≡◌, refl, sym, ap, inl, inr, Bool, true, false, List, [], ◌∷◌, ◌++◌,
  Option, some, length, ltb, All, arith, Bool-cases, if◌then◌else◌, Option-cases, ◌==◌,
}
use droidsaw_hermes.Decode.{ℤ, pos}
use droidsaw_hermes.DebugInfo.Locations.{
  SourceLocation, FunctionSourceInfo, Run, deltas, read, read_statement, skip_environment,
  read_deltas, read_entry, locations_loop, read_start, read_head, functions_loop,
  decode_source_locations, source_locations_max_pc_entries, source_locations_max_functions,
  has_scope_env, has_env_idx, diff, ◌>>◌, ◌>>=◌,
}
use droidsaw_hermes.DebugInfo.Locations.Differences.{
  Fits, AscendingFrom, environment, moved, entry_tokens, locations_tokens, start_of, tokens,
  differences, cursor_at, half-flagged, is_odd-flagged, advance-differences, location_of-cursor_at,
}

-- What a function satisfies that the reader can return whole.
pub record Whole (f : FunctionSourceInfo) : Type 0 where
  pub few : length f.locations < source_locations_max_pc_entries
  pub ascending : AscendingFrom 0 f.locations
  pub fitting : All Fits f.locations
  pub not_corrupt : f.corrupt ≡ false

unmoved :
    (from to : SourceLocation) → moved from to ≡ false → diff to.statement from.statement ≡ pos 0
unfolding diff
unmoved from to h = ground arith

module _ (read_sleb128 : List ℕ → ℕ → Option (ℤ × ℕ)) (bytes : List ℕ) where
  -- From a position on, the data hold these numbers, up to another position.
  abbrev pub Holds : List ℤ → ℕ → ℕ → Type 0
  Holds [] at stop = at ≡ stop
  Holds (v ∷ vs) at stop =
      (next : ℕ) × (read read_sleb128 bytes at ≡ some (v, next)) × Holds vs next stop

  Holds-append :
      (xs ys : List ℤ) (at stop : ℕ)
      → Holds (xs ++ ys) at stop
      → (mid : ℕ) × Holds xs at mid × Holds ys mid stop
  Holds-append [] ys at stop h = (at, refl, h)
  Holds-append (x ∷ xs) ys at stop (next, e, h) =
      let (mid, front, back) = Holds-append xs ys next stop h in (mid, (next, e, front), back)

  module _ (version : ℕ) where
    skip_environment-Holds :
        (at stop : ℕ)
        → Holds (environment version) at stop
        → skip_environment read_sleb128 bytes version at ≡ some (tt, stop)
    unfolding skip_environment
    skip_environment-Holds at stop h = elim (Bool-cases (has_scope_env version)) [
      | inl two ↦
          let (a, ra, (b, rb, last)) = rw (two) at h in rw (two, ◌>>◌, ◌>>=◌, ra, rb, last) refl
      | inr not_two ↦ elim (Bool-cases (has_env_idx version)) [
        | inl one ↦
            let (a, ra, last) = rw (not_two, one) at h in
            rw (not_two, one, ◌>>◌, ◌>>=◌, ra, last) refl
        | inr not_one ↦ let last = rw (not_two, not_one) at h in rw (not_two, not_one, last) refl
      ]
    ]

    read_statement-Holds :
        (b : Bool) (v : ℤ) (at stop : ℕ)
        → ((b ≡ false) → v ≡ pos 0)
        → Holds (if b then v ∷ [] else []) at stop
        → read_statement read_sleb128 bytes b at ≡ some (v, stop)
    unfolding read_statement
    read_statement-Holds true v at stop none_moved (next, e, last) = rw (e, last) refl
    read_statement-Holds false v at stop none_moved last = rw (none_moved refl, last) refl

    read_entry-Holds :
        (from to : SourceLocation) (at stop : ℕ)
        → Holds (entry_tokens version from to) at stop
        → read_entry read_sleb128 bytes version at ≡ some (deltas (differences from to), stop)
    unfolding read_entry read_deltas
    read_entry-Holds from to at stop (a, ra, (b, rb, (c, rc, rest))) =
        let (mid, env, tail) =
          Holds-append (environment version)
            (if moved from to then diff to.statement from.statement ∷ [] else []) c stop rest in
        let skipped = skip_environment-Holds c mid env in
        let stated =
          read_statement-Holds (moved from to) (diff to.statement from.statement) mid stop
            (unmoved from to) tail in
        rw
          (
            read_entry,
            ◌>>=◌,
            ra,
            read_deltas,
            ◌>>◌,
            ◌>>=◌,
            rb,
            rc,
            skipped,
            is_odd-flagged (diff to.line from.line) (moved from to),
            stated,
            half-flagged (diff to.line from.line) (moved from to),
          )
          refl

    locations_loop-Holds :
        (left : ℕ) (from : SourceLocation) (ls : List SourceLocation) (at stop : ℕ)
        → length ls < left
        → AscendingFrom from.address ls
        → All Fits ls
        → Holds (locations_tokens version from ls) at stop
        → locations_loop read_sleb128 bytes version left (cursor_at from) at
          ≡ record { locations = ls; corrupt = false; position = stop }
    unfolding locations_loop read_entry
    locations_loop-Holds zero from ls at stop few ascending fits h = ground (arith, few)
    locations_loop-Holds (suc left) from [] at stop few ascending fits (next, e, last) =
        rw (locations_loop, read_entry, ◌>>=◌, e, last) refl
    locations_loop-Holds (suc left) from (l ∷ ls) at stop few (le, ascending) (fit, fits) h =
        let (mid, entry, rest) =
          Holds-append (entry_tokens version from l) (locations_tokens version l ls) at stop h in
        let more =
          locations_loop-Holds left l ls mid stop (omega (arith, few)) ascending fits rest in
        rw
          (
            locations_loop,
            read_entry-Holds from l at mid entry,
            advance-differences from l le fit,
            more,
            location_of-cursor_at l fit,
          )
          refl

    functions_loop-Holds :
        ((at : ℕ) (v : ℤ) (next : ℕ)
          → read read_sleb128 bytes at ≡ some (v, next)
          → at < length bytes)
        → (left : ℕ) (fs : List FunctionSourceInfo) (at : ℕ) → length fs ≤ left
        → All Whole fs
        → Holds (tokens version fs) at (length bytes)
        → functions_loop read_sleb128 bytes version left at ≡ fs
    unfolding functions_loop read_head read_start
    functions_loop-Holds inside zero [] at few whole h = refl
    functions_loop-Holds inside zero (f ∷ fs) at few whole h = ground (arith, few)
    functions_loop-Holds inside (suc left) [] at few whole h =
        let past : ltb at (length bytes) ≡ false = ground (arith, h) in
        rw (functions_loop, past) refl
    functions_loop-Holds inside (suc left) (f ∷ fs) at few (w, whole) (a, ra, (b, rb, (c, rc, h))) =
        let within : ltb at (length bytes) ≡ true =
          ground (arith, inside at (pos f.function_index) a ra) in
        let (mid, front, rest) =
          Holds-append (locations_tokens version (start_of f) f.locations) (tokens version fs) c
            (length bytes) h in
        let run =
          locations_loop-Holds source_locations_max_pc_entries (start_of f) f.locations c mid w.few
            w.ascending w.fitting front in
        let more = functions_loop-Holds inside left fs mid (omega (arith, few)) whole rest in
        rw
          (
            functions_loop,
            within,
            read_head,
            ◌>>=◌,
            ra,
            read_start,
            ◌>>=◌,
            rb,
            rc,
            run,
            ap (λ (r : Run). r.position) run,
            more,
          )
          (ap (λ (b : Bool). record f { corrupt = b } ∷ fs) (sym w.not_corrupt))

module _ (read_sleb128 : List ℕ → ℕ → Option (ℤ × ℕ)) (bytes : List ℕ)
    (inside : (at : ℕ) (v : ℤ) (taken : ℕ)
      → read_sleb128 bytes at ≡ some (v, taken)
      → at < length bytes) where
  read-inside :
      (at : ℕ) (v : ℤ) (next : ℕ) → read read_sleb128 bytes at ≡ some (v, next) → at < length bytes
  unfolding read
  read-inside at v next h = elim (Option-cases (read_sleb128 bytes at)) [
    | inl absent ↦ let bad = rw (read, absent) at h in cc
    | inr ((w, taken), found) ↦ inside at w taken found
  ]

  -- If a read at or behind the end of the data fails, then functions that are fewer than 2 ^ 22 + 1, with
  -- fewer than 2 ^ 20 locations each, of numbers that fit and addresses that do not descend, are decoded
  -- from data that hold them as their differences up to the end, whatever the version.
  pub decode_source_locations-tokens :
      (version : ℕ) (f : FunctionSourceInfo) (fs : List FunctionSourceInfo)
      → length (f ∷ fs) ≤ source_locations_max_functions
      → All Whole (f ∷ fs)
      → Holds read_sleb128 bytes (tokens version (f ∷ fs)) 0 (length bytes)
      → decode_source_locations read_sleb128 bytes version ≡ some (f ∷ fs)
  unfolding decode_source_locations
  decode_source_locations-tokens version f fs few whole h =
      let some_data : (length bytes == 0) ≡ false =
        ground (arith, read-inside 0 (pos f.function_index) h.0 h.1) in
      rw
        (
          some_data,
          functions_loop-Holds read_sleb128 bytes version read-inside source_locations_max_functions
              (f ∷ fs) 0 few whole h,
        )
        refl
