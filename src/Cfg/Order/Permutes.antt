-- ===== src/Cfg/Order/Permutes.antt =====
-- The order of the blocks in src/decompile/cfg.rs has every block once, the entry first.
use droidsaw_hermes.Prelude.{
  ℕ, suc, ◌+◌, ◌≡◌, refl, sym, true, false, List, [], ◌∷◌, ◌++◌, inl, inr, if◌then◌else◌, arith,
  All, ap, ◌∙◌,
}
use droidsaw_hermes.Prelude.Sets.{
  count, contains, set_insert, count-append, AscendsFrom, count-AscendsFrom,
}
use droidsaw_hermes.Cfg.{BasicBlock}
use droidsaw_hermes.Cfg.Edges.{ids_of}
use droidsaw_hermes.Cfg.Order.{
  Search, successors_at, visit, search_loop, work, search, unvisited, reverse_post_order,
  push_unvisited,
}
use droidsaw_hermes.Cfg.Order.Loop.{
  Balanced, Inside, EntryLast, visit-Balanced, visit-Inside, visit-EntryLast, search_loop_inv,
  search_loop-stack, pending-start, weight, weight-pos, push_unvisited-EndsWith,
}

abbrev pub start_at : ℕ → Search
start_at entry = record { visited = []; post = []; stack = (entry, false) ∷ [] }

module _ {Op : Type 0} where
  count-unvisited :
      (x : ℕ) (visited : List ℕ) (bs : List (BasicBlock Op))
      → count x (unvisited visited bs) ≡ (if contains visited x then 0 else count x (ids_of bs))
  unfolding unvisited count
  count-unvisited x visited [] = ground arith
  count-unvisited x visited (b ∷ bs) = ground (arith, count-unvisited x visited bs)

  module _ (blocks : List (BasicBlock Op)) (entry : ℕ) where
    pub search-stack : (search blocks entry).stack ≡ []
    unfolding search
    search-stack =
        search_loop-stack blocks (suc (work blocks + 1)) (start_at entry)
          (omega (arith, pending-start blocks))

    search-Balanced : (x : ℕ) → Balanced x (search blocks entry)
    unfolding search count contains
    search-Balanced x =
        search_loop_inv blocks (Balanced x)
          (λ top st s e h. visit-Balanced blocks x top.0 top.1 st s (rw e at h))
          (suc (work blocks + 1)) (start_at entry) refl

    -- The post-order has what is visited, once.
    pub count-post :
        (x : ℕ)
        → count x (search blocks entry).post
          ≡ (if contains (search blocks entry).visited x then 1 else 0)
    count-post x = let h = rw search-stack at (search-Balanced x) in omega (arith, h)

    search-Inside :
        (x : ℕ)
        → ((i : ℕ) → All (λ (t : ℕ). contains (ids_of blocks) t ≡ true) (successors_at blocks i))
        → contains (ids_of blocks) entry ≡ true
        → Inside x (ids_of blocks) (search blocks entry)
    unfolding search contains
    search-Inside x closed here =
        search_loop_inv blocks (Inside x (ids_of blocks))
          (λ top st s e h.
            let h' = rw e at h in
            visit-Inside blocks x (ids_of blocks) top.0 top.1 st s closed h'.0.0 (h'.0.1, h'.1))
          (suc (work blocks + 1)) (start_at entry) ((here, tt), inl refl)

    pub reverse_post_order-count :
        (x : ℕ)
        → ((i : ℕ) → All (λ (t : ℕ). contains (ids_of blocks) t ≡ true) (successors_at blocks i))
        → contains (ids_of blocks) entry ≡ true
        → AscendsFrom 0 (ids_of blocks)
        → count x (reverse_post_order blocks entry) ≡ count x (ids_of blocks)
    unfolding reverse_post_order
    reverse_post_order-count x closed here ascends = ground (
      arith,
      count-append x (search blocks entry).post (unvisited (search blocks entry).visited blocks),
      count-unvisited x (search blocks entry).visited blocks,
      count-post x,
      (search-Inside x closed here).1,
      count-AscendsFrom 0 x (ids_of blocks) ascends,
    )

    pub first_visit : visit blocks entry false [] (start_at entry) ≡ record {
      visited = entry ∷ [];
      post = [];
      stack = push_unvisited (entry ∷ []) (successors_at blocks entry) ((entry, true) ∷ []);
    }
    unfolding visit contains set_insert
    first_visit = refl

    pub search-EntryLast : EntryLast entry (search blocks entry)
    unfolding search search_loop
    search-EntryLast =
        search_loop_inv blocks (EntryLast entry)
          (λ top st s e h. elim h [
            | inl bottom ↦ visit-EntryLast blocks entry top.0 top.1 st s (rw e at bottom)
            | inr (none_left, post, q) ↦
                absurd (omega (arith, ap weight (sym e ∙ none_left), weight-pos top st))
          ])
          (work blocks + 1) (visit blocks entry false [] (start_at entry))
          (rw first_visit (
            inl (
              push_unvisited-EndsWith entry (entry ∷ []) (successors_at blocks entry) (entry, true)
                [] (refl, refl))))

    pub reverse_post_order-entry :
        (rest : List ℕ) × (reverse_post_order blocks entry ≡ entry ∷ rest)
    unfolding reverse_post_order
    reverse_post_order-entry = elim search-EntryLast [
      | inl bottom ↦ elim (rw search-stack at bottom) [ ]
      | inr (none_left, post, e) ↦ (post ++ unvisited (search blocks entry).visited blocks, rw e)
    ]
