-- ===== src/Sections/Rules.antt =====
-- One step of the section walk, and a rule for each of its forms.
use Prim.Native.String.{String}
use droidsaw_hermes.Prelude.{
  ℕ, ◌+◌, ◌*◌, ◌/◌, ◌%◌, ◌^◌, ◌≤◌, ◌<◌, ◌≡◌, refl, sym, subst, inl, inr, Bool, true, false,
  if◌then◌else◌, List, [], ◌∷◌, ◌++◌, Bool-cases, tests, ltb, arith,
}
use droidsaw_hermes.Prelude.Bits.{bit_and_lowest, bit_and-mask}
use droidsaw_hermes.Errors.{HermesError, Result, ok, err}
use droidsaw_hermes.Sections.{
  Range, Section, Walk, M, ◌>>=◌, return, u32_max, align4, no_range, section, section_opt,
}

-- The next multiple of four.
abbrev pub up4 : ℕ → ℕ
up4 v = (v + 3) / 4 * 4

pub align4-up4 : (v : ℕ) → v + 3 < 2 ^ 64 → align4 v ≡ up4 v
unfolding align4
align4-up4 v h = omega (
  arith,
  bit_and_lowest (v + 3) 0xFFFF_FFFF_FFFF_FFFC,
  bit_and_lowest ((v + 3) / 2) 0x7FFF_FFFF_FFFF_FFFE,
  bit_and-mask 62 ((v + 3) / 2 / 2),
)

-- The sections up to `lo`, each within the buffer and at the next multiple of four after the last.
abbrev pub Tiled : ℕ → ℕ → List Section → ℕ → Type 0
Tiled len lo [] cursor = cursor ≡ up4 lo
Tiled len lo (s ∷ ss) cursor =
    (s.range.offset ≡ up4 lo)
    × (s.range.offset + s.range.size ≤ len)
    × Tiled len (s.range.offset + s.range.size) ss cursor

Tiled-snoc :
    (len lo : ℕ) (ss : List Section) (cursor size : ℕ) (name : String)
    → Tiled len lo ss cursor
    → cursor + size ≤ len
    → Tiled len lo
        (ss ++ record { name = name; range = record { offset = cursor; size = size } } ∷ [])
        (up4 (cursor + size))
Tiled-snoc len lo [] cursor size name t h = (t, h, refl)
Tiled-snoc len lo (s ∷ ss) cursor size name (a, b, t) h =
    (a, b, Tiled-snoc len (s.range.offset + s.range.size) ss cursor size name t h)

-- What holds between two sections.
pub record Inv (len : ℕ) (w : Walk) : Type 0 where
  pub tiled : Tiled len 0 w.sections w.cursor
  pub capped : w.cursor ≤ u32_max

-- A range that lies in the buffer, from `lo` on, with the given size.
pub record Placed (len lo size : ℕ) (r : Range) (w : Walk) : Type 0 where
  pub size_is : r.size ≡ size
  pub from : lo ≤ r.offset
  pub inside : r.offset + size ≤ len
  pub before : r.offset + size ≤ w.cursor
  pub next : Inv len w

-- Every successful outcome satisfies `Q`.
abbrev pub Ensures : {A : Type 0} → Result HermesError (A × Walk) → (A → Walk → Type 0) → Type 0
Ensures (ok (a, w)) Q = Q a w
Ensures (err e) Q = Unit

-- A successful step takes its range at the cursor.
pub section-Ensures :
    (len : ℕ) (name : String) (size : ℕ) (w : Walk)
    → Inv len w
    → Ensures
        (section len name size w)
        (λ r w'. (r.offset ≡ w.cursor) × Placed len w.cursor size r w')
unfolding section
section-Ensures len name size w inv = elim (Bool-cases (ltb u32_max size)) [
  | inl a ↦ rw (a, section) tt
  | inr a ↦ elim (Bool-cases (ltb len (w.cursor + size))) [
    | inl b ↦ rw (a, b, section) tt
    | inr b ↦ elim (Bool-cases (ltb u32_max (align4 (w.cursor + size)))) [
      | inl c ↦ rw (a, b, c, section) tt
      | inr c ↦
          let inside : w.cursor + size ≤ len = omega (tests, b) in
          let small : w.cursor + size + 3 < 2 ^ 64 = omega (tests, a, inv.capped) in
          let e : align4 (w.cursor + size) ≡ up4 (w.cursor + size) =
            align4-up4 (w.cursor + size) small in
          rw (a, b, c, section)
            (
              refl,
              record {
                size_is = refl;
                from = omega arith;
                inside = inside;
                before = omega (arith, e);
                next = record {
                  tiled = rw e (Tiled-snoc len 0 w.sections w.cursor size name inv.tiled inside);
                  capped = omega (tests, c);
                };
              },
            )
    ]
  ]
]

module _ {A B : Type 0} where
  cases_rule :
      (r : Result HermesError (A × Walk)) (f : A → M B) (R : A → Walk → Type 0)
      (Q : B → Walk → Type 0)
      → Ensures r R
      → ((a : A) (w : Walk) → R a w → Ensures (f a w) Q)
      → Ensures (elim r [ ok (a, w) ↦ f a w | err e ↦ err e ]) Q
  cases_rule (ok (a, w)) f R Q h k = k a w h
  cases_rule (err e) f R Q h k = tt

  pub bind_rule :
      (m : M A) (f : A → M B) (w : Walk) (R : A → Walk → Type 0) (Q : B → Walk → Type 0)
      → Ensures (m w) R
      → ((a : A) (w : Walk) → R a w → Ensures (f a w) Q)
      → Ensures ((m >>= f) w) Q
  unfolding ◌>>=◌
  bind_rule m f w R Q = cases_rule (m w) f R Q

-- What an optional section of the given size leaves: a range in the buffer, from `lo` on if it is not
-- empty, and no smaller cursor.
pub record Kept (len lo size : ℕ) (r : Range) (w : Walk) : Type 0 where
  pub size_is : r.size ≡ size
  pub after : 0 < size → lo ≤ r.offset
  pub inside : r.offset + r.size ≤ len
  pub later : lo ≤ w.cursor
  pub next : Inv len w

pub no_range-Kept : (len : ℕ) (w : Walk) → Inv len w → Kept len w.cursor 0 no_range w
no_range-Kept len w inv = record {
  size_is = refl;
  after = omega arith;
  inside = omega arith;
  later = omega arith;
  next = inv;
}

module _ {B : Type 0} (len : ℕ) (w : Walk) (inv : Inv len w) (f : Range → M B)
    (Q : B → Walk → Type 0) where
  pub section_rule :
      (name : String) (size : ℕ)
      → ((r : Range) (w' : Walk)
          → (r.offset ≡ w.cursor) × Placed len w.cursor size r w'
          → Ensures (f r w') Q)
      → Ensures ((section len name size >>= f) w) Q
  section_rule name size =
      bind_rule (section len name size) f w _ Q (section-Ensures len name size w inv)

pub weaken :
    {A : Type 0} {R Q : A → Walk → Type 0} (r : Result HermesError (A × Walk))
    → Ensures r R
    → ((a : A) (w : Walk) → R a w → Q a w)
    → Ensures r Q
weaken (ok (a, w)) h k = k a w h
weaken (err e) h k = tt

pub section-Kept :
    (len : ℕ) (name : String) (size : ℕ) (w : Walk)
    → Inv len w
    → Ensures (section len name size w) (Kept len w.cursor size)
section-Kept len name size w inv =
    weaken (section len name size w) (section-Ensures len name size w inv) (λ r w' h. record {
      size_is = h.1.size_is;
      after = λ _. h.1.from;
      inside = omega (arith, h.1.inside, h.1.size_is);
      later = omega (arith, h.1.from, h.1.before);
      next = h.1.next;
    })

pub section_opt-Kept :
    (len : ℕ) (name : String) (size : ℕ) (w : Walk)
    → Inv len w
    → Ensures (section_opt len name size w) (Kept len w.cursor (size % 2 ^ 32))
unfolding section_opt
section_opt-Kept len name size w inv = elim (Bool-cases (ltb 0 (size % 2 ^ 32))) [
  | inl a ↦ rw a (section-Kept len name (size % 2 ^ 32) w inv)
  | inr a ↦
      let z : size % 2 ^ 32 ≡ 0 = omega (tests, a) in
      rw a (subst (λ (n : ℕ). Kept len w.cursor n no_range w) (sym z) (no_range-Kept len w inv))
]

-- A section under a condition without which its size is 0.
pub if-Kept :
    (b : Bool) (len : ℕ) (name : String) (size : ℕ) (w : Walk)
    → (b ≡ false → size ≡ 0)
    → Inv len w
    → Ensures ((if b then section len name size else return no_range) w) (Kept len w.cursor size)
if-Kept true len name size w z inv = section-Kept len name size w inv
if-Kept false len name size w z inv =
    subst (λ (n : ℕ). Kept len w.cursor n no_range w) (sym (z refl)) (no_range-Kept len w inv)

pub ensured :
    {A : Type 0} (Q : A → Walk → Type 0) {r : Result HermesError (A × Walk)} {a : A} {w : Walk}
    → Ensures r Q
    → r ≡ ok (a, w)
    → Q a w
ensured Q h e = subst (λ r. Ensures r Q) e h
