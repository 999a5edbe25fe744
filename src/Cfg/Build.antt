-- ===== src/Cfg/Build.antt =====
-- `Cfg::build` of src/decompile/cfg.rs, composed of its steps.
pub mod Layout
pub mod Graph
pub mod Catches
pub mod WellFormed
pub mod Refused
pub mod Decoded
use droidsaw_hermes.Prelude.{
  ℕ, ◌-◌, ◌^◌, Bool, List, [], ◌∷◌, Option, none, some, leb, if◌then◌else◌,
}
use droidsaw_hermes.Errors.{HermesError, invalid_exception_layout, Result, ok, err, ◌>>=◌}
use droidsaw_hermes.Decode.{DecodedInst}
use droidsaw_hermes.Cfg.{BasicBlock, ExcHandler, Cfg}
use droidsaw_hermes.Cfg.Boundaries.{boundaries}
use droidsaw_hermes.Cfg.Blocks.{split_blocks, new_block}
use droidsaw_hermes.Cfg.Edges.{ids_of, add_edges}
use droidsaw_hermes.Cfg.Handlers.{map_handlers, exc_predecessors_loop}
use droidsaw_hermes.Cfg.Order.{reverse_post_order, index_of}

-- `unwrap_or`
abbrev pub or_else : Option ℕ → ℕ → ℕ
or_else none d = d
or_else (some x) d = x

abbrev pub usize_max : ℕ
usize_max = 0xFFFF_FFFF_FFFF_FFFF

abbrev pub head_or_zero : List ℕ → ℕ
head_or_zero [] = 0
head_or_zero (x ∷ xs) = x

module _ {Op : Type 0} where
  -- A catch block has to come behind the blocks of its try region.
  unfoldable pub check_layout : List ℕ → List (BasicBlock Op) → Result HermesError (Unit {0})
  check_layout order [] = ok tt
  check_layout order (b ∷ bs) =
      let more = check_layout order bs in
      elim b.exc_handler [
        | none ↦ more
        | some catch ↦
            if leb (or_else (index_of order catch) usize_max) (or_else (index_of order b.id) 0)
            then err (invalid_exception_layout catch b.id)
            else more
      ]

  abbrev pub empty_cfg : List (BasicBlock Op) → List ℕ → Cfg Op
  empty_cfg blocks order = record {
    blocks = blocks;
    entry = 0;
    block_order = order;
    exc_predecessors = λ _. [];
  }

  -- From the blocks with their edges and handlers on.
  unfoldable pub finish : List (BasicBlock Op) → Result HermesError (Cfg Op)
  finish [] = ok (empty_cfg [] [])
  finish (b ∷ bs) =
      let order = reverse_post_order (b ∷ bs) b.id in
      check_layout order (b ∷ bs) >>= λ _. ok record {
        blocks = b ∷ bs;
        entry = head_or_zero order;
        block_order = order;
        exc_predecessors = exc_predecessors_loop (b ∷ bs) (λ _. []);
      }

  unfoldable pub build :
      List (DecodedInst Op) → List ExcHandler → List ℕ → Result HermesError (Cfg Op)
  build [] exc_handlers bytecodes = ok (empty_cfg (new_block 0 0 [] ∷ []) (0 ∷ []))
  build (i ∷ is) exc_handlers bytecodes = boundaries (i ∷ is) exc_handlers bytecodes >>= λ starts.
      split_blocks starts (i ∷ is) >>= λ blocks.
      let linked = add_edges bytecodes blocks in
      map_handlers (ids_of linked) exc_handlers linked >>= finish
