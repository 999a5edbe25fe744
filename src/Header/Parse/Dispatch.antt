-- ===== src/Header/Parse/Dispatch.antt =====
-- What `parse_hbc_header` of src/header.rs accepts.
use droidsaw_hermes.Prelude.{ℕ, ◌≤◌, ◌≡◌, ◌⊎◌, Bool, true, false, List, arith, length, take}
use droidsaw_hermes.Errors.{HermesError, Result, ok}
use droidsaw_hermes.Bytes.{from_le_bytes, read_u32_le}
use droidsaw_hermes.Header.{
  HbcHeader, pre_v84, v84_to_86, v87_to_96, v97_to_v98_early, v98_late_to_v99, version, file_length,
  function_count, string_count,
}
use droidsaw_hermes.Header.Parse.{hbc_magic, parse_hbc_header, dispatch, detect_late_v98_form}

-- The versions that each layout is for; `late` is what the detection of version 98 answered.
abbrev pub FitsLayout : ℕ → Result HermesError Bool → HbcHeader → Type 0
FitsLayout v late (pre_v84 h) = (40 ≤ v) × (v ≤ 83)
FitsLayout v late (v84_to_86 h) = (84 ≤ v) × (v ≤ 86)
FitsLayout v late (v87_to_96 h) = (87 ≤ v) × (v ≤ 96)
FitsLayout v late (v97_to_v98_early h) = (v ≡ 97) ⊎ (v ≡ 98) × (late ≡ ok false)
FitsLayout v late (v98_late_to_v99 h) = (v ≡ 98) × (late ≡ ok true) ⊎ (99 ≤ v) × (v ≤ 100)

-- What an accepted buffer and its header have to do with one another.
pub record Accepted (buf : List ℕ) (h : HbcHeader) : Type 0 where
  pub long_enough : 128 ≤ length buf
  pub has_magic : from_le_bytes (take 8 buf) ≡ hbc_magic
  pub version_read : version h ≡ read_u32_le buf 8
  pub fits : FitsLayout (read_u32_le buf 8) (detect_late_v98_form buf).result h
  pub length_read : file_length h ≡ read_u32_le buf 32
  pub functions_read : function_count h ≡ read_u32_le buf 40
  pub strings_read : string_count h ≡ read_u32_le buf 52

dispatch-FitsLayout :
    (buf : List ℕ) (v : ℕ) {h : HbcHeader}
    → (dispatch buf v).result ≡ ok h
    → (version h ≡ v)
      × FitsLayout v (detect_late_v98_form buf).result h
      × (file_length h ≡ read_u32_le buf 32)
      × (function_count h ≡ read_u32_le buf 40)
      × (string_count h ≡ read_u32_le buf 52)
unfolding dispatch version file_length function_count string_count
dispatch-FitsLayout buf v {h} e = ground arith

-- An accepted buffer is at least 128 bytes long, begins with the magic number, and its version from
-- offset 8 is in 40..=100 and fits the layout chosen, which for version 98 is the detected one.
pub parse_hbc_header-Accepted :
    (buf : List ℕ) {h : HbcHeader} → (parse_hbc_header buf).result ≡ ok h → Accepted buf h
unfolding parse_hbc_header
parse_hbc_header-Accepted buf {h} e =
    ground (arith, dispatch-FitsLayout buf (read_u32_le buf 8) {h = h})
