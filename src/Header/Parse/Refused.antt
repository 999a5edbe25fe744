-- ===== src/Header/Parse/Refused.antt =====
-- When `parse_hbc_header` of src/header.rs refuses a buffer, and with which error.
use droidsaw_hermes.Prelude.{
  ℕ, ◌*◌, ◌/◌, ◌%◌, ◌≤◌, ◌<◌, ◌≡◌, ◌≢◌, ◌⊎◌, inl, inr, subst, sym, refl, true, false, List, Option,
  none, some, arith, length, take, get_elem?, min, bit_and,
}
use droidsaw_hermes.Prelude.Bits.{bit_and_lowest, bit_and-mask}
use droidsaw_hermes.Errors.{
  HermesError, header_too_small, invalid_magic, unsupported_version, ambiguous_v98_form, err,
}
use droidsaw_hermes.Bytes.{from_le_bytes, read_u32_le}
use droidsaw_hermes.Header.Parse.{
  hbc_magic, parse_hbc_header, dispatch, detect_late_v98_form, disambiguate_both_options_valid,
  options_valid, detect_at,
}

-- One of the upper five bits of the byte is set.
abbrev pub Reserved : ℕ → Type 0
Reserved opt = opt / 8 % 32 ≢ 0

-- The offset, cut to 32 bits as the length is, lies in the file behind the header.
abbrev pub InFile : List ℕ → ℕ → Type 0
InFile buf offset = (128 ≤ offset) × (offset < min (length buf) 0xFFFF_FFFF)

-- What leaves the form of version 98 open: both options bytes have reserved bits, or neither has any,
-- there are functions, and the debug offsets of the two forms lie both in the file or both outside.
abbrev pub Ambiguous : List ℕ → ℕ → ℕ → Type 0
Ambiguous buf early late =
    Reserved early × Reserved late
    ⊎ ((¬ Reserved early)
        × (¬ Reserved late)
        × (0 < read_u32_le buf 40)
        × (InFile buf (read_u32_le buf 108) × InFile buf (read_u32_le buf 104)
            ⊎ (¬ InFile buf (read_u32_le buf 108)) × (¬ InFile buf (read_u32_le buf 104))))

-- 128 bytes that begin with the magic number.
abbrev pub Begun : List ℕ → Type 0
Begun buf = (128 ≤ length buf) × (from_le_bytes (take 8 buf) ≡ hbc_magic)

-- What each error of the header parser says of the buffer; no other error comes from it.
abbrev pub Refused : List ℕ → HermesError → Type 0
Refused buf (header_too_small n) = (n ≡ length buf) × (length buf < 128)
Refused buf (invalid_magic m) =
    (128 ≤ length buf) × (m ≡ take 8 buf) × (from_le_bytes m ≢ hbc_magic)
Refused buf (unsupported_version v low high) =
    Begun buf × (v ≡ read_u32_le buf 8) × (low ≡ 40) × (high ≡ 100) × ((v < 40) ⊎ (100 < v))
Refused buf (ambiguous_v98_form early late) =
    Begun buf
    × (read_u32_le buf 8 ≡ 98)
    × (get_elem? buf 108 ≡ some early)
    × (get_elem? buf 112 ≡ some late)
    × Ambiguous buf early late
Refused buf _ = ⊥

bit_and-reserved : (opt : ℕ) → bit_and opt 0xF8 ≡ opt / 8 % 32 * 8
bit_and-reserved opt = omega (
  arith,
  bit_and_lowest opt 0xF8,
  bit_and_lowest (opt / 2) 0x7C,
  bit_and_lowest (opt / 2 / 2) 0x3E,
  bit_and-mask 5 (opt / 2 / 2 / 2),
)

options_invalid-Reserved : (opt : ℕ) → options_valid opt ≡ false → Reserved opt
options_invalid-Reserved opt h = ground (arith, bit_and-reserved opt)

options_valid_clear : (opt : ℕ) → options_valid opt ≡ true → ¬ Reserved opt
options_valid_clear opt h = ground (arith, bit_and-reserved opt)

disambiguate_failed :
    (buf : List ℕ) (early late : ℕ) {e : HermesError}
    → get_elem? buf 108 ≡ some early
    → get_elem? buf 112 ≡ some late
    → (disambiguate_both_options_valid buf).result ≡ err e
    → (e ≡ ambiguous_v98_form early late)
      × (0 < read_u32_le buf 40)
      × (InFile buf (read_u32_le buf 108) × InFile buf (read_u32_le buf 104)
          ⊎ (¬ InFile buf (read_u32_le buf 108)) × (¬ InFile buf (read_u32_le buf 104)))
unfolding disambiguate_both_options_valid
disambiguate_failed buf early late he hl h = ground arith

dispatch_failed :
    (buf : List ℕ) (v : ℕ) {e : HermesError}
    → (dispatch buf v).result ≡ err e
    → (e ≡ unsupported_version v 40 100) × ((v < 40) ⊎ (100 < v))
      ⊎ (v ≡ 98) × ((detect_late_v98_form buf).result ≡ err e)
unfolding dispatch
dispatch_failed buf v h = ground arith

parse_hbc_header_failed :
    (buf : List ℕ) {e : HermesError}
    → (parse_hbc_header buf).result ≡ err e
    → (e ≡ header_too_small (length buf)) × (length buf < 128)
      ⊎ (e ≡ invalid_magic (take 8 buf))
        × (128 ≤ length buf)
        × (from_le_bytes (take 8 buf) ≢ hbc_magic)
      ⊎ Begun buf × ((dispatch buf (read_u32_le buf 8)).result ≡ err e)
unfolding parse_hbc_header
parse_hbc_header_failed buf h = ground arith

detect_at_failed :
    (buf : List ℕ) (o p : Option ℕ) {e : HermesError}
    → (detect_at buf o p).result ≡ err e
    → (early late : ℕ) × (o ≡ some early)
      × (p ≡ some late)
      × ((e ≡ ambiguous_v98_form early late)
            × (options_valid early ≡ false)
            × (options_valid late ≡ false)
          ⊎ (options_valid early ≡ true)
            × (options_valid late ≡ true)
            × ((disambiguate_both_options_valid buf).result ≡ err e))
detect_at_failed buf none p h = cc
detect_at_failed buf (some early) none h = cc
detect_at_failed buf (some early) (some late) h = (early, late, refl, refl, ground arith)

detect-Ambiguous :
    (buf : List ℕ) {e : HermesError}
    → (detect_late_v98_form buf).result ≡ err e
    → (early late : ℕ) × (e ≡ ambiguous_v98_form early late)
      × (get_elem? buf 108 ≡ some early)
      × (get_elem? buf 112 ≡ some late)
      × Ambiguous buf early late
unfolding detect_late_v98_form
detect-Ambiguous buf h =
    let (early, late, he, hl, reason) =
      detect_at_failed buf (get_elem? buf 108) (get_elem? buf 112) h in
    elim reason [
      | inl (is, ve, vl) ↦
          let reserved = options_invalid-Reserved in
          (early, late, is, he, hl, inl (reserved early ve, reserved late vl))
      | inr (ve, vl, left) ↦
          let (is, functions, offsets) = disambiguate_failed buf early late he hl left in
          let clear = options_valid_clear in
          (early, late, is, he, hl, inr (clear early ve, clear late vl, functions, offsets))
    ]

dispatch-Refused :
    (buf : List ℕ) {e : HermesError}
    → Begun buf
    → (dispatch buf (read_u32_le buf 8)).result ≡ err e
    → Refused buf e
dispatch-Refused buf begun d = elim (dispatch_failed buf (read_u32_le buf 8) d) [
  | inl (is, outside) ↦ subst (Refused buf) (sym is) (begun, refl, refl, refl, outside)
  | inr (v98, left) ↦
      let (early, late, is, he, hl, undecided) = detect-Ambiguous buf left in
      subst (Refused buf) (sym is) (begun, v98, he, hl, undecided)
]

-- If the header parser returns an error, then the buffer is shorter than 128 bytes, or does not begin
-- with the magic number, or its version is outside 40..=100, or it is of version 98 and its form is left
-- open: the options bytes at 108 and 112 both have reserved bits, or neither has any, functions are
-- declared, and the debug offsets at 108 and 104 lie both in the file behind the header or both
-- outside. The error is the one for the first of these that applies and has the values found there.
pub parse_hbc_header-Refused :
    (buf : List ℕ) (e : HermesError) → (parse_hbc_header buf).result ≡ err e → Refused buf e
parse_hbc_header-Refused buf e h = elim (parse_hbc_header_failed buf h) [
  | inl (small, n) ↦ subst (Refused buf) (sym small) (refl, n)
  | inr (inl (magic, n, m)) ↦ subst (Refused buf) (sym magic) (n, refl, m)
  | inr (inr (begun, d)) ↦ dispatch-Refused buf begun d
]
