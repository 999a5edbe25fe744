-- ===== src/Cfg/Blocks/Runs.antt =====
-- Runs of instructions without a boundary inside, and blocks that are such runs: the form that
-- src/decompile/cfg.rs gives to the blocks.
use droidsaw_hermes.Prelude.{
  ℕ, suc, ◌+◌, ◌≤◌, ◌<◌, ◌≡◌, refl, true, false, List, [], ◌∷◌, ◌++◌, arith, All, All-append,
  append_assoc,
}
use droidsaw_hermes.Prelude.Sets.{contains, AscendsFrom, AscendsFrom-le}
use droidsaw_hermes.Decode.{DecodedInst}
use droidsaw_hermes.Cfg.{BasicBlock}
use droidsaw_hermes.Cfg.Blocks.{insert_block}
use droidsaw_hermes.Cfg.Edges.{ids_of}

module _ {Op : Type 0} where
  -- The instructions follow each other from `at` to `stop`.
  abbrev pub Consecutive : ℕ → List (DecodedInst Op) → ℕ → Type 0
  Consecutive at [] stop = at ≡ stop
  Consecutive at (i ∷ is) stop = (i.offset ≡ at) × (0 < i.size) × Consecutive (at + i.size) is stop

  abbrev pub instructions_of : List (BasicBlock Op) → List (DecodedInst Op)
  instructions_of [] = []
  instructions_of (b ∷ bs) = b.instructions ++ instructions_of bs

  pub Consecutive-le :
      (at : ℕ) (is : List (DecodedInst Op)) (stop : ℕ) → Consecutive at is stop → at ≤ stop
  Consecutive-le at [] stop h = omega arith
  Consecutive-le at (i ∷ is) stop h = omega (arith, Consecutive-le (at + i.size) is stop h.2)

  pub Consecutive-append :
      (at : ℕ) (is js : List (DecodedInst Op)) (mid stop : ℕ)
      → Consecutive at is mid
      → Consecutive mid js stop
      → Consecutive at (is ++ js) stop
  Consecutive-append at [] js mid stop h k = rw h k
  Consecutive-append at (i ∷ is) js mid stop h k =
      (h.0, h.1, Consecutive-append (at + i.size) is js mid stop h.2 k)

  pub instructions_of-append :
      (bs cs : List (BasicBlock Op))
      → instructions_of (bs ++ cs) ≡ instructions_of bs ++ instructions_of cs
  instructions_of-append [] cs = refl
  instructions_of-append (b ∷ bs) cs = simp (instructions_of-append bs cs, append_assoc)

  module _ (boundaries : List ℕ) where
    -- The first instruction is at a boundary, and no later one.
    abbrev pub Run : ℕ → List (DecodedInst Op) → ℕ → Type 0
    Run at [] stop = ⊥
    Run at (i ∷ is) stop =
        (contains boundaries at ≡ true)
        × All (λ (j : DecodedInst Op). contains boundaries j.offset ≡ false) is
        × Consecutive at (i ∷ is) stop

    -- The blocks are such runs, one behind the other from `at` to `stop`.
    abbrev pub Cut : ℕ → List (BasicBlock Op) → ℕ → Type 0
    Cut at [] stop = at ≡ stop
    Cut at (b ∷ bs) stop =
        (b.id ≡ at) × (b.start ≡ at) × Run at b.instructions b.end × Cut b.end bs stop

    pub Run-lt : (at : ℕ) (is : List (DecodedInst Op)) (stop : ℕ) → Run at is stop → at < stop
    Run-lt at [] stop h = elim h [ ]
    Run-lt at (i ∷ is) stop h = omega (arith, h.2.1, Consecutive-le (at + i.size) is stop h.2.2)

    pub Cut-le : (at : ℕ) (bs : List (BasicBlock Op)) (stop : ℕ) → Cut at bs stop → at ≤ stop
    Cut-le at [] stop h = omega arith
    Cut-le at (b ∷ bs) stop h =
        omega (arith, Run-lt at b.instructions b.end h.2, Cut-le b.end bs stop h.3)

    pub Cut-AscendsFrom :
        (at : ℕ) (bs : List (BasicBlock Op)) (stop : ℕ)
        → Cut at bs stop
        → AscendsFrom at (ids_of bs)
    Cut-AscendsFrom at [] stop h = tt
    Cut-AscendsFrom at (b ∷ bs) stop h =
        let l = Run-lt at b.instructions b.end h.2 in
        (
          omega (arith, h.0),
          AscendsFrom-le (suc b.id) b.end (ids_of bs) (omega (arith, h.0, l))
              (Cut-AscendsFrom b.end bs stop h.3),
        )

    -- A block at the end of the others is inserted behind them.
    pub insert_block-last :
        (at : ℕ) (bs : List (BasicBlock Op)) (b : BasicBlock Op)
        → Cut at bs b.id
        → insert_block b bs ≡ bs ++ b ∷ []
    unfolding insert_block
    insert_block-last at [] b h = refl
    insert_block-last at (c ∷ cs) b h =
        let l = Run-lt at c.instructions c.end h.2 in
        let m = Cut-le c.end cs b.id h.3 in
        ground (arith, h.0, l, m, insert_block-last c.end cs b h.3)

    pub Cut-append :
        (at : ℕ) (bs : List (BasicBlock Op)) (mid : ℕ) (b : BasicBlock Op) (stop : ℕ)
        → Cut at bs mid
        → Cut mid (b ∷ []) stop
        → Cut at (bs ++ b ∷ []) stop
    Cut-append at [] mid b stop h k = rw h k
    Cut-append at (c ∷ cs) mid b stop h k = (h.0, h.1, h.2, Cut-append c.end cs mid b stop h.3 k)

    pub Run-append :
        (mid : ℕ) (i : DecodedInst Op) (is : List (DecodedInst Op)) (at : ℕ) (j : DecodedInst Op)
        → Run mid (i ∷ is) at
        → contains boundaries j.offset ≡ false
        → j.offset ≡ at
        → 0 < j.size
        → Run mid (i ∷ is ++ j ∷ []) (at + j.size)
    Run-append mid i is at j h new at_is pos = (
      h.0,
      All-append (λ (k : DecodedInst Op). contains boundaries k.offset ≡ false) is (j ∷ []) h.1
          (new, tt),
      Consecutive-append mid (i ∷ is) (j ∷ []) at (at + j.size) h.2 (at_is, pos, refl),
    )
