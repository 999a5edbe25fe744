-- ===== src/LargeHeader/Tables.antt =====
-- What the summary of an exception table in src/parser/mod.rs stands for.
use Prim.Native.Nat.{max}
use droidsaw_hermes.Prelude.{
  ℕ, zero, suc, ◌+◌, ◌*◌, ◌-◌, ◌≤◌, ◌<◌, ◌≡◌, ◌↔◌, List, none, some, length, arith, tests,
  Bool-cases, inl, inr, ltb, leb, ◌==◌,
}
use droidsaw_hermes.Bytes.{read_u32_le}
use droidsaw_hermes.Sections.{u32_max}
use droidsaw_hermes.LargeHeader.{
  Summary, check_triples, exc_table_summary_uncached, exc_table_pos_outside_runtime_domain,
  max_exception_handlers,
}

-- The handler triple at a position protects a range of a function of the given size.
abbrev pub TripleFits : List ℕ → ℕ → ℕ → Type 0
TripleFits buf at fn_size =
    (read_u32_le buf at < read_u32_le buf (at + 4))
    × (read_u32_le buf (at + 4) ≤ fn_size)
    × (read_u32_le buf (at + 8) < fn_size)

-- The triples from one number on, as many as are left.
abbrev pub TriplesFit : List ℕ → ℕ → ℕ → ℕ → ℕ → Type 0
TriplesFit buf fn_size count_end h_idx zero = Unit
TriplesFit buf fn_size count_end h_idx (suc left) =
    TripleFits buf (count_end + h_idx * 12) fn_size
    × TriplesFit buf fn_size count_end (suc h_idx) left

-- The table is at a position of 32 bits, lies in the file, is not too long, and its triples fit.
pub record TableFits (buf : List ℕ) (table fn_size : ℕ) : Type 0 where
  pub position : table ≤ u32_max
  pub counted : table + 4 ≤ length buf
  pub few : read_u32_le buf table ≤ max_exception_handlers
  pub whole : table + 4 + read_u32_le buf table * 12 ≤ length buf
  pub triples : TriplesFit buf fn_size (table + 4) 0 (read_u32_le buf table)

-- What a summary says of a property that holds from some size on, and of the budget without one.
abbrev pub Exact : Type 0 → Type 0 → ℕ → Summary → Type 0
Exact Fits Short fn_size none = Short
Exact Fits Short fn_size (some none) = ¬ Fits
Exact Fits Short fn_size (some (some required)) = Fits ↔ (required ≤ fn_size)

module _ {Fits Fits' Short Short' : Type 0} (fn_size : ℕ) (same : Fits ↔ Fits') where
  Exact-equivalent :
      (Short' → Short) → (s : Summary) → Exact Fits' Short' fn_size s → Exact Fits Short fn_size s
  Exact-equivalent k none x = k x
  Exact-equivalent k (some none) x = λ f. x (same.0 f)
  Exact-equivalent k (some (some r)) x = (λ f. x.0 (same.0 f), λ l. same.1 (x.1 l))

module _ (buf : List ℕ) (fn_size : ℕ) (small : fn_size ≤ u32_max) (count_end : ℕ) where
  -- The triples fit and the size is at least what was required before them.
  abbrev AllFit : ℕ → ℕ → ℕ → Type 0
  AllFit h_idx left required = TriplesFit buf fn_size count_end h_idx left × (required ≤ fn_size)

  next_required :
      (h_idx left required : ℕ)
      → read_u32_le buf (count_end + h_idx * 12) < read_u32_le buf (count_end + h_idx * 12 + 4)
      → AllFit h_idx (suc left) required
        ↔ AllFit (suc h_idx) left (
            max
              (max required (read_u32_le buf (count_end + h_idx * 12 + 4)))
              (read_u32_le buf (count_end + h_idx * 12 + 8) + 1))
  next_required h_idx left required ordered = (
    λ f. (f.0.1, omega (arith, f.0.0, f.1)),
    λ f. (((ordered, omega (arith, f.1), omega (arith, f.1)), f.0), omega (arith, f.1)),
  )

  pub check_triples-Exact :
      (h_idx left required budget : ℕ)
      → Exact
          (AllFit h_idx left required)
          (budget < left)
          fn_size
          (check_triples buf count_end h_idx left required budget).0
  unfolding check_triples
  check_triples-Exact h_idx zero required budget = (λ f. f.1, λ l. (tt, l))
  check_triples-Exact h_idx (suc left) required budget =
      let at = count_end + h_idx * 12 in
      elim (Bool-cases (budget == 0)) [
        | inl b ↦ rw (b) (let z : budget ≡ 0 = ground (arith, b) in omega (arith, z))
        | inr b ↦ elim (Bool-cases (leb (read_u32_le buf (at + 4)) (read_u32_le buf at))) [
          | inl o ↦ rw (b, o) (λ f. omega (tests, o, f.0.0))
          | inr o ↦ elim (Bool-cases (ltb u32_max (read_u32_le buf (at + 8) + 1))) [
            | inl t ↦ rw (b, o, t) (λ f. omega (tests, t, f.0.0, small))
            | inr t ↦
                rw (b, o, t)
                  (Exact-equivalent {Short = budget < suc left} {Short' = budget - 1 < left} fn_size
                    (next_required h_idx left required (ground (arith, o)))
                    (λ l. let z : 0 < budget = ground (arith, b) in omega (arith, z, l)) _
                    (check_triples-Exact (suc h_idx) left
                      (max (max required (read_u32_le buf (at + 4))) (read_u32_le buf (at + 8) + 1))
                      (budget - 1)))
          ]
        ]
      ]

-- For a function size of 32 bits, a table whose summary has a size fits the function exactly if the
-- function is not smaller than it; a table whose summary has none fits no such function; and there is
-- no summary only if the budget is below the number of handlers of the table.
pub exc_table_summary_uncached-Exact :
    (buf : List ℕ) (table budget fn_size : ℕ)
    → fn_size ≤ u32_max
    → Exact
        (TableFits buf table fn_size)
        (budget < read_u32_le buf table)
        fn_size
        (exc_table_summary_uncached buf table budget).0
unfolding exc_table_summary_uncached exc_table_pos_outside_runtime_domain
exc_table_summary_uncached-Exact buf table budget fn_size small =
    let count = read_u32_le buf table in
    elim (Bool-cases (ltb u32_max table)) [
      | inl a ↦ rw (a) (λ f. omega (tests, a, f.position))
      | inr a ↦ elim (Bool-cases (ltb (length buf) (table + 4))) [
        | inl b ↦ rw (a, b) (λ f. omega (tests, b, f.counted))
        | inr b ↦ elim (Bool-cases (ltb max_exception_handlers count)) [
          | inl c ↦ rw (a, b, c) (λ f. omega (tests, c, f.few))
          | inr c ↦ elim (Bool-cases (ltb (length buf) (table + (count * 12 + 4)))) [
            | inl d ↦ rw (a, b, c, d) (λ f. omega (tests, d, f.whole))
            | inr d ↦
                let same : TableFits buf table fn_size
                    ↔ AllFit buf fn_size small (table + 4) 0 count 0 =
                  (
                    λ f. (f.triples, omega arith),
                    λ f. record {
                      position = omega (tests, a);
                      counted = omega (tests, b);
                      few = omega (tests, c);
                      whole = omega (tests, d);
                      triples = f.0;
                    },
                  ) in
                rw (a, b, c, d)
                  (Exact-equivalent {Short = budget < count} {Short' = budget < count} fn_size same
                    (λ l. l) (check_triples buf (table + 4) 0 count 0 budget).0
                    (check_triples-Exact buf fn_size small (table + 4) 0 count 0 budget))
          ]
        ]
      ]
    ]
