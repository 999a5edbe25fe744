-- ===== src/Header/Parse/Layouts.antt =====
-- The layout that `parse_hbc_header` of src/header.rs reads for the versions that can be emitted.
use droidsaw_hermes.Prelude.{ℕ, ◌≡◌, ◌⊎◌, List, arith}
use droidsaw_hermes.Errors.{ok}
use droidsaw_hermes.Bytes.{read_u32_le}
use droidsaw_hermes.Header.{
  HbcHeader, v84_to_86, v87_to_96, v97_to_v98_early, v98_late_to_v99, version,
}
use droidsaw_hermes.Header.Parse.{
  parse_hbc_header, dispatch, parse_v84_to_86, parse_v87_to_96, parse_v97_to_v98_early,
  parse_v98_late_to_v99,
}

pub parse_hbc_header-v84 :
    (buf : List ℕ) (h : HbcHeader)
    → (parse_hbc_header buf).result ≡ ok h
    → version h ≡ 84
    → (h ≡ v84_to_86 (parse_v84_to_86 buf 84)) × (read_u32_le buf 8 ≡ 84)
unfolding parse_hbc_header dispatch version
parse_hbc_header-v84 buf h e v = ground arith

pub parse_hbc_header-v96 :
    (buf : List ℕ) (h : HbcHeader)
    → (parse_hbc_header buf).result ≡ ok h
    → version h ≡ 96
    → (h ≡ v87_to_96 (parse_v87_to_96 buf 96)) × (read_u32_le buf 8 ≡ 96)
unfolding parse_hbc_header dispatch version
parse_hbc_header-v96 buf h e v = ground arith

pub parse_hbc_header-v98 :
    (buf : List ℕ) (h : HbcHeader)
    → (parse_hbc_header buf).result ≡ ok h
    → version h ≡ 98
    → ((h ≡ v97_to_v98_early (parse_v97_to_v98_early buf 98))
        ⊎ (h ≡ v98_late_to_v99 (parse_v98_late_to_v99 buf 98)))
      × (read_u32_le buf 8 ≡ 98)
unfolding parse_hbc_header dispatch version
parse_hbc_header-v98 buf h e v = ground arith

pub parse_hbc_header-v99 :
    (buf : List ℕ) (h : HbcHeader)
    → (parse_hbc_header buf).result ≡ ok h
    → version h ≡ 99
    → (h ≡ v98_late_to_v99 (parse_v98_late_to_v99 buf 99)) × (read_u32_le buf 8 ≡ 99)
unfolding parse_hbc_header dispatch version
parse_hbc_header-v99 buf h e v = ground arith
