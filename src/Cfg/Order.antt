-- ===== src/Cfg/Order.antt =====
-- The fifth step of `Cfg::build` of src/decompile/cfg.rs: the reverse post-order of the blocks, by a
-- depth-first search with a stack, whose top is the head of the list.
pub mod Loop
pub mod Permutes
pub mod Reach
use droidsaw_hermes.Prelude.{
  ℕ, zero, suc, ◌+◌, ◌*◌, Bool, true, false, List, [], ◌∷◌, ◌++◌, Option, none, some, ◌==◌, not,
  length, if◌then◌else◌,
}
use droidsaw_hermes.Prelude.Sets.{contains, set_insert}
use droidsaw_hermes.Cfg.{BasicBlock}
use droidsaw_hermes.Cfg.Edges.{ids_of}

-- `post` is `post_order` from its end: what the reversal at the end leaves.
pub record Search : Type 0 where
  pub visited : List ℕ
  pub post : List ℕ
  pub stack : List (ℕ × Bool)

-- The loop goes over the successors from the last, so that the first one comes to lie on top.
unfoldable pub push_unvisited : List ℕ → List ℕ → List (ℕ × Bool) → List (ℕ × Bool)
push_unvisited visited [] stack = stack
push_unvisited visited (s ∷ ss) stack =
    let more = push_unvisited visited ss stack in
    if contains visited s then more else (s, false) ∷ more

module _ {Op : Type 0} where
  unfoldable pub successors_at : List (BasicBlock Op) → ℕ → List ℕ
  successors_at [] id = []
  successors_at (b ∷ bs) id = if b.id == id then b.successors else successors_at bs id

  abbrev pub work : List (BasicBlock Op) → ℕ
  work [] = 0
  work (b ∷ bs) = length b.successors * 2 + work bs

  unfoldable pub unvisited : List ℕ → List (BasicBlock Op) → List ℕ
  unvisited visited [] = []
  unvisited visited (b ∷ bs) =
      let more = unvisited visited bs in if contains visited b.id then more else b.id ∷ more

module _ {Op : Type 0} (blocks : List (BasicBlock Op)) where
  -- One round, with the block that was popped.
  unfoldable pub visit : ℕ → Bool → List (ℕ × Bool) → Search → Search
  visit bid true stack s = record { visited = s.visited; post = bid ∷ s.post; stack = stack }
  visit bid false stack s =
      if contains s.visited bid
      then record { visited = s.visited; post = s.post; stack = stack }
      else record {
        visited = set_insert bid s.visited;
        post = s.post;
        stack =
            push_unvisited (set_insert bid s.visited) (successors_at blocks bid)
              ((bid, true) ∷ stack);
      }

  unfoldable pub search_loop : ℕ → Search → Search
  search_loop zero s = s
  search_loop (suc fuel) s = elim s.stack [
    | [] ↦ s
    | top ∷ stack ↦ search_loop fuel (visit top.0 top.1 stack s)
  ]

  -- Two rounds for the entry and two for each edge are enough.
  unfoldable pub search : ℕ → Search
  search entry =
      search_loop (suc (work blocks + 1))
        (record { visited = []; post = []; stack = (entry, false) ∷ [] })

  unfoldable pub reverse_post_order : ℕ → List ℕ
  reverse_post_order entry = let s = search entry in s.post ++ unvisited s.visited blocks

-- The place of a number in a list.
unfoldable pub index_of : List ℕ → ℕ → Option ℕ
index_of [] x = none
index_of (y ∷ ys) x =
    let more = index_of ys x in
    if y == x then some 0 else elim more [ none ↦ none | some i ↦ some (suc i) ]
