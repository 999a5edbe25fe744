-- ===== src/Cfg/Handlers.antt =====
-- The fourth step of `Cfg::build` of src/decompile/cfg.rs: the blocks inside try regions.
pub mod Regions
use droidsaw_hermes.Prelude.{
  ℕ, Bool, List, [], ◌∷◌, ◌++◌, Option, none, some, leb, ◌==◌, ◌&&◌, if◌then◌else◌,
}
use droidsaw_hermes.Prelude.Sets.{contains}
use droidsaw_hermes.Errors.{HermesError, invalid_exception_handler_target, Result, ok, err}
use droidsaw_hermes.Cfg.{BasicBlock, ExcHandler}
use droidsaw_hermes.Cfg.Edges.{ids_of}

-- A value is pushed to the vector of a key.
unfoldable pub push_at : ℕ → ℕ → (ℕ → List ℕ) → ℕ → List ℕ
push_at key value f x = if key == x then f x ++ value ∷ [] else f x

module _ {Op : Type 0} where
  abbrev pub covers : ExcHandler → BasicBlock Op → Bool
  covers eh b = leb eh.start b.start && leb b.end eh.end

  unfoldable pub set_handler : ExcHandler → List (BasicBlock Op) → List (BasicBlock Op)
  set_handler eh [] = []
  set_handler eh (b ∷ bs) =
      (if covers eh b then record b { exc_handler = some eh.target } else b) ∷ set_handler eh bs

  unfoldable pub map_handlers :
      List ℕ → List ExcHandler → List (BasicBlock Op) → Result HermesError (List (BasicBlock Op))
  map_handlers valid_targets [] blocks = ok blocks
  map_handlers valid_targets (eh ∷ rest) blocks =
      let more = map_handlers valid_targets rest (set_handler eh blocks) in
      if contains valid_targets eh.target
      then more
      else err (invalid_exception_handler_target eh.target)

  -- The reverse map: the blocks that a catch block handles.
  unfoldable pub exc_predecessors_loop : List (BasicBlock Op) → (ℕ → List ℕ) → ℕ → List ℕ
  exc_predecessors_loop [] f = f
  exc_predecessors_loop (b ∷ bs) f =
      exc_predecessors_loop bs (elim b.exc_handler [ none ↦ f | some catch ↦ push_at catch b.id f ])
