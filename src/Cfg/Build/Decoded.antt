-- ===== src/Cfg/Build/Decoded.antt =====
-- The graphs of functions that decode: src/decompile/decode.rs and src/decompile/cfg.rs together.
use droidsaw_hermes.Prelude.{ℕ, ◌+◌, ◌≤◌, ◌≡◌, refl, ◌⊎◌, inl, inr, List, [], ◌∷◌, length, arith}
use droidsaw_hermes.Errors.{HermesError, Result-cases, ok, err}
use droidsaw_hermes.Sections.{u32_max}
use droidsaw_hermes.Decode.{Tables, DecodedInst, decode_function}
use droidsaw_hermes.Decode.Tiling.{Tiled, decode_function-Tiled}
use droidsaw_hermes.Cfg.{BasicBlock, ExcHandler, Cfg}
use droidsaw_hermes.Cfg.Boundaries.{boundaries}
use droidsaw_hermes.Cfg.Blocks.Runs.{Consecutive, Consecutive-le, Cut, instructions_of}
use droidsaw_hermes.Cfg.Build.{build}
use droidsaw_hermes.Cfg.Build.WellFormed.{build-Cut}
use droidsaw_hermes.Cfg.Build.Refused.{Refusal, build-Refusal}

-- The instructions of a function that decodes follow each other.
pub Tiled-Consecutive :
    {Op : Type 0} (tables : Tables Op) (code : List ℕ) (at : ℕ) (insts : List (DecodedInst Op))
    (stop : ℕ)
    → stop ≤ u32_max
    → Tiled tables code at insts stop
    → Consecutive at insts stop
Tiled-Consecutive tables code at [] stop small h = h
Tiled-Consecutive tables code at (i ∷ is) stop small h =
    let rest = Tiled-Consecutive tables code (at + i.size) is stop small h.1 in
    (
      omega (arith, h.0.offset_is, Consecutive-le (at + i.size) is stop rest, small),
      h.0.positive,
      rest,
    )

-- The graph of a function that decodes, with code of less than 2 ^ 32 bytes, has blocks that tile the
-- code, cut at the boundaries, and have together the decoded instructions; or no graph is built, since
-- a handler leads to no such block, or the catch block of one does not come behind it.
pub decode_function-build :
    {Op : Type 0} (tables : Tables Op) (code : List ℕ) (i : DecodedInst Op)
    (is : List (DecodedInst Op)) (ehs : List ExcHandler)
    → length code ≤ u32_max
    → decode_function tables code ≡ ok (i ∷ is)
    → (starts : List ℕ) × (blocks : List (BasicBlock Op)) × (boundaries (i ∷ is) ehs code
        ≡ ok starts)
      × Cut starts 0 blocks (length code)
      × (instructions_of blocks ≡ i ∷ is)
      × (((cfg : Cfg Op) × (build (i ∷ is) ehs code ≡ ok cfg) × (cfg.blocks ≡ blocks))
          ⊎ ((e : HermesError) × (build (i ∷ is) ehs code ≡ err e) × Refusal ehs code e blocks))
decode_function-build tables code i is ehs small decoded =
    let follow =
      Tiled-Consecutive tables code 0 (i ∷ is) (length code) small
        (decode_function-Tiled tables code (i ∷ is) decoded) in
    elim (Result-cases (build (i ∷ is) ehs code)) [
      | inl (cfg, built) ↦
          let (starts, found, cut, all) =
            build-Cut i is ehs code (length code) small follow cfg built in
          (starts, cfg.blocks, found, cut, all, inl (cfg, built, refl))
      | inr (e, refused) ↦
          let (starts, blocks, found, cut, all, why) =
            build-Refusal i is ehs code (length code) small follow e refused in
          (starts, blocks, found, cut, all, inr (e, refused, why))
    ]
