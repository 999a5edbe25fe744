-- ===== src/Scanner/References.antt =====
-- The order and the bounds of the references that src/scanner.rs collects.
use droidsaw_hermes.Prelude.{
  ℕ, zero, suc, ◌+◌, ◌≤◌, ◌<◌, ◌≡◌, ◌≢◌, refl, Bool, true, false, List, [], ◌∷◌, ◌==◌, get_or, take,
  drop, arith, Bool-cases, inl, inr, Option, none, some,
}
use droidsaw_hermes.Scanner.{
  RefMap, ScanMode, ScanResult, Input, Place, push_new, add_ref, add_found, operand_below,
  scan_inst, scan_code, scan_function, scan_functions, scan_parsed_with_mode, no_refs,
}

-- The list ascends strictly, from at least `lo` on and below `hi`.
abbrev pub Ascends : ℕ → List ℕ → ℕ → Type 0
Ascends lo [] hi = lo ≤ hi
Ascends lo (x ∷ xs) hi = (lo ≤ x) × Ascends (suc x) xs hi

Ascends-le : (lo : ℕ) (xs : List ℕ) (hi : ℕ) → Ascends lo xs hi → lo ≤ hi
Ascends-le lo [] hi h = h
Ascends-le lo (x ∷ xs) hi h = omega (arith, h.0, Ascends-le (suc x) xs hi h.1)

Ascends-wider :
    (lo : ℕ) (xs : List ℕ) (hi hi' : ℕ) → hi ≤ hi' → Ascends lo xs hi → Ascends lo xs hi'
Ascends-wider lo [] hi hi' k h = omega (arith, h)
Ascends-wider lo (x ∷ xs) hi hi' k h = (h.0, Ascends-wider (suc x) xs hi hi' k h.1)

push_new-Ascends :
    (lo : ℕ) (xs : List ℕ) (x : ℕ)
    → lo ≤ x
    → Ascends lo xs (suc x)
    → Ascends lo (push_new xs x) (suc x)
unfolding push_new
push_new-Ascends lo [] x l h = (l, omega arith)
push_new-Ascends lo (y ∷ []) x l h = ground (arith, h)
push_new-Ascends lo (y ∷ z ∷ zs) x l h =
    let b = Ascends-le (suc z) zs (suc x) h.1.1 in
    (h.0, push_new-Ascends (suc y) (z ∷ zs) x (omega (arith, h.1.0, b)) h.1)

-- Values below a bound, no two neighbours equal.
abbrev pub Distinct : ℕ → List ℕ → Type 0
Distinct bound [] = Unit
Distinct bound (x ∷ []) = x < bound
Distinct bound (x ∷ y ∷ ys) = (x < bound) × (x ≢ y) × Distinct bound (y ∷ ys)

push_new-Distinct :
    (bound : ℕ) (xs : List ℕ) (x : ℕ)
    → x < bound
    → Distinct bound xs
    → Distinct bound (push_new xs x)
unfolding push_new
push_new-Distinct bound [] x l h = l
push_new-Distinct bound (y ∷ []) x l h = ground (arith, h)
push_new-Distinct bound (y ∷ z ∷ []) x l h = ground (arith, h)
push_new-Distinct bound (y ∷ z ∷ u ∷ us) x l h =
    (h.0, h.1, push_new-Distinct bound (z ∷ u ∷ us) x l h.2)

operand_below-lt :
    (code : List ℕ) (at : ℕ) (place : Place) (bound v : ℕ)
    → operand_below code at place bound ≡ some v
    → v < bound
unfolding operand_below
operand_below-lt code at place bound v h = ground arith

-- A property that adding a found reference keeps.
add_found_rule :
    (P : RefMap → Type 0) (b : Bool) (o : Option ℕ) (pair : ℕ → ℕ × ℕ) (refs : RefMap)
    → P refs
    → ((v : ℕ) → o ≡ some v → P (add_ref refs (pair v).0 (pair v).1))
    → P (add_found b o pair refs)
add_found_rule P true none pair refs h k = h
add_found_rule P true (some v) pair refs h k = k v refl
add_found_rule P false o pair refs h k = h

-- The string references, while the functions below `next` have been scanned.
pub record Strings (count next : ℕ) (refs : RefMap) : Type 0 where
  pub ascending : (id : ℕ) → Ascends 0 (refs id) next
  pub unknown : (id : ℕ) → count ≤ id → refs id ≡ []

-- References from functions below `next` to functions.
pub record Calls (count next : ℕ) (refs : RefMap) : Type 0 where
  pub distinct : (fi : ℕ) → Distinct count (refs fi)
  pub later : (fi : ℕ) → next ≤ fi → refs fi ≡ []

add_ref-Strings :
    (count fi : ℕ) (refs : RefMap) (id : ℕ)
    → id < count
    → Strings count (suc fi) refs
    → Strings count (suc fi) (add_ref refs id fi)
unfolding add_ref
add_ref-Strings count fi refs id l s = record {
  ascending = λ k. elim (Bool-cases (k == id)) [
    | inl e ↦ rw e (push_new-Ascends 0 (refs k) fi (omega arith) (s.ascending k))
    | inr e ↦ rw e (s.ascending k)
  ];
  unknown = λ k b. let e : (k == id) ≡ false = ground arith in rw e (s.unknown k b);
}

add_ref-Calls :
    (count fi : ℕ) (refs : RefMap) (v : ℕ)
    → v < count
    → Calls count (suc fi) refs
    → Calls count (suc fi) (add_ref refs fi v)
unfolding add_ref
add_ref-Calls count fi refs v l c = record {
  distinct = λ k. elim (Bool-cases (k == fi)) [
    | inl e ↦ rw e (push_new-Distinct count (refs k) v l (c.distinct k))
    | inr e ↦ rw e (c.distinct k)
  ];
  later = λ k b. let e : (k == fi) ≡ false = ground arith in rw e (c.later k b);
}

module _ (input : Input) (mode : ScanMode) where
  -- What the scanner's maps hold when the functions below `next` have been scanned.
  pub record Sound (next : ℕ) (res : ScanResult) : Type 0 where
    pub strings : Strings input.string_count next res.string_refs
    pub calls : Calls input.function_count next res.call_graph
    pub closures : Calls input.function_count next res.closure_refs

  scan_inst-Sound :
      (fi : ℕ) (code : List ℕ) (at : ℕ) (res : ScanResult)
      → Sound (suc fi) res
      → Sound (suc fi) (scan_inst input mode fi code at res)
  unfolding scan_inst
  scan_inst-Sound fi code at res s = record {
    strings =
        add_found_rule (Strings input.string_count (suc fi)) mode.xrefs _ (λ v. (v, fi))
          res.string_refs s.strings
          (λ v e.
            add_ref-Strings input.string_count fi res.string_refs v
              (operand_below-lt code at _ input.string_count v e) s.strings);
    calls =
        add_found_rule (Calls input.function_count (suc fi)) mode.callgraph _ (λ v. (fi, v))
          res.call_graph s.calls
          (λ v e.
            add_ref-Calls input.function_count fi res.call_graph v
              (operand_below-lt code at _ input.function_count v e) s.calls);
    closures =
        add_found_rule (Calls input.function_count (suc fi)) mode.callgraph _ (λ v. (fi, v))
          res.closure_refs s.closures
          (λ v e.
            add_ref-Calls input.function_count fi res.closure_refs v
              (operand_below-lt code at _ input.function_count v e) s.closures);
  }

  scan_code-Sound :
      (fuel fi : ℕ) (code : List ℕ) (at : ℕ) (res : ScanResult)
      → Sound (suc fi) res
      → Sound (suc fi) (scan_code input mode fuel fi code at res)
  unfolding scan_code
  scan_code-Sound zero fi code at res s = s
  scan_code-Sound (suc fuel) fi code at res s =
      let r =
        scan_code-Sound fuel fi code (at + get_or input.sizes (get_or code at 0) 0)
          (scan_inst input mode fi code at res) (scan_inst-Sound fi code at res s) in
      ground (arith, r, s)

  Sound-next : (fi : ℕ) (res : ScanResult) → Sound fi res → Sound (suc fi) res
  Sound-next fi res s = record {
    strings = record {
      ascending = λ id.
          Ascends-wider 0 (res.string_refs id) fi (suc fi) (omega arith) (s.strings.ascending id);
      unknown = s.strings.unknown;
    };
    calls = record {
      distinct = s.calls.distinct;
      later = λ k b. s.calls.later k (omega (arith, b));
    };
    closures = record {
      distinct = s.closures.distinct;
      later = λ k b. s.closures.later k (omega (arith, b));
    };
  }

  scan_function-Sound :
      (fi : ℕ) (res : ScanResult) → Sound fi res → Sound (suc fi) (scan_function input mode fi res)
  unfolding scan_function
  scan_function-Sound fi res s =
      let s' = Sound-next fi res s in
      let f = input.function_get fi in
      let r = scan_code-Sound f.1 fi (take f.1 (drop f.0 input.file_data)) 0 res s' in
      ground (arith, r, s')

  scan_functions-Sound :
      (n fi : ℕ) (res : ScanResult)
      → Sound fi res
      → Sound (fi + n) (scan_functions input mode n fi res)
  unfolding scan_functions
  scan_functions-Sound zero fi res s = let e : fi + 0 ≡ fi = omega arith in rw e s
  scan_functions-Sound (suc n) fi res s =
      let e : fi + suc n ≡ suc fi + n = omega arith in
      rw e (
        scan_functions-Sound n (suc fi) (scan_function input mode fi res)
          (scan_function-Sound fi res s))

  -- The functions listed for a string ascend strictly and exist; a number that is no string of the file
  -- has none. The functions that a function calls or creates as closures exist, and no two neighbours
  -- in these lists are equal; a number that is no function of the file has none.
  pub scan_parsed_with_mode-Sound : Sound input.function_count (scan_parsed_with_mode input mode)
  unfolding scan_parsed_with_mode
  scan_parsed_with_mode-Sound =
      let e : 0 + input.function_count ≡ input.function_count = omega arith in
      let s : Sound 0 no_refs = record {
        strings = record { ascending = λ id. omega arith; unknown = λ id b. refl };
        calls = record { distinct = λ fi. tt; later = λ fi b. refl };
        closures = record { distinct = λ fi. tt; later = λ fi b. refl };
      } in
      rw e at (scan_functions-Sound input.function_count 0 no_refs s)
