-- ===== src/Emit/Chains.antt =====
-- Lists of writers of src/emit.rs that reproduce one stretch of the source after the other.
use droidsaw_hermes.Prelude.{ℕ, List, [], ◌∷◌}
use droidsaw_hermes.Emit.{Writer, run}
use droidsaw_hermes.Emit.Slices.{Writes, Writes-nil, Writes-cons}

-- The writers append neighbouring stretches of the source.
infixr 4 ◌⨾◌
pub data Chain (src : List ℕ) (c : ℕ) : ℕ → List Writer → Type 0 where
  end : Chain src c c []
  ◌⨾◌ :
      {a b : ℕ} {w : Writer} {ws : List Writer}
      → Writes src a b w
      → Chain src c b ws
      → Chain src c a (w ∷ ws)

pub run-Chain :
    (src : List ℕ) (a c : ℕ) (ws : List Writer) → Chain src c a ws → Writes src a c (run ws)
run-Chain src a c [] end = Writes-nil src c
run-Chain src a c (w ∷ ws) (h ⨾ k) = Writes-cons src a _ c w ws h (run-Chain src _ c ws k)
