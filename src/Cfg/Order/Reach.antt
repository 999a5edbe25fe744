-- ===== src/Cfg/Order/Reach.antt =====
-- The search of src/decompile/cfg.rs visits the blocks that the entry reaches, and no other.
use droidsaw_hermes.Prelude.{
  ℕ, suc, ◌+◌, ◌≡◌, ◌↔◌, refl, Bool, true, false, List, [], ◌∷◌, ◌⊎◌, inl, inr, arith, Bool-cases,
  All, ◌==◌, subst, sym, ◌∙◌,
}
use droidsaw_hermes.Prelude.Sets.{
  contains-All, contains, set_insert, contains-set_insert, contains-count,
}
use droidsaw_hermes.Cfg.{BasicBlock}
use droidsaw_hermes.Cfg.Order.{Search, push_unvisited, successors_at, visit, work, search}
use droidsaw_hermes.Cfg.Order.Loop.{search_loop_inv}
use droidsaw_hermes.Cfg.Order.Permutes.{start_at, search-stack, count-post, search-EntryLast}

abbrev Waits : ℕ → List (ℕ × Bool) → Type 0
Waits v [] = ⊥
Waits v (top ∷ st) = ((top.0 ≡ v) × (top.1 ≡ false)) ⊎ Waits v st

push_unvisited-keeps :
    (v : ℕ) (visited ss : List ℕ) (st : List (ℕ × Bool))
    → Waits v st
    → Waits v (push_unvisited visited ss st)
unfolding push_unvisited
push_unvisited-keeps v visited [] st h = h
push_unvisited-keeps v visited (s ∷ ss) st h = elim (Bool-cases (contains visited s)) [
  | inl a ↦ rw (push_unvisited, a) (push_unvisited-keeps v visited ss st h)
  | inr a ↦ rw (push_unvisited, a) (inr (push_unvisited-keeps v visited ss st h))
]

push_unvisited-Waits :
    (v : ℕ) (visited ss : List ℕ) (st : List (ℕ × Bool))
    → contains ss v ≡ true
    → (contains visited v ≡ true) ⊎ Waits v (push_unvisited visited ss st)
unfolding push_unvisited contains
push_unvisited-Waits v visited [] st h = cc
push_unvisited-Waits v visited (s ∷ ss) st h = elim (Bool-cases (s == v)) [
  | inl q ↦ elim (Bool-cases (contains visited s)) [
    | inl a ↦ inl (let e : s ≡ v = ground (arith, q) in rw e at a)
    | inr a ↦ rw (push_unvisited, a) (inr (inl (ground (arith, q), refl)))
  ]
  | inr q ↦
      let more = push_unvisited-Waits v visited ss st (ground (arith, q, h)) in
      elim (Bool-cases (contains visited s)) [
        | inl a ↦ rw (push_unvisited, a) more
        | inr a ↦ rw (push_unvisited, a) (elim more [ inl m ↦ inl m | inr m ↦ inr (inr m) ])
      ]
]

module _ {Op : Type 0} (blocks : List (BasicBlock Op)) where
  -- The blocks on a walk along successors.
  pub data Reach (entry : ℕ) : ℕ → Type 0 where
    here : Reach entry entry
    step : {u v : ℕ} → Reach entry u → contains (successors_at blocks u) v ≡ true → Reach entry v

  -- Stack and visited numbers are reached, for one number.
  abbrev Reached : ℕ → ℕ → Search → Type 0
  Reached entry x s =
      All (λ (e : ℕ × Bool). Reach entry e.0) s.stack
      × ((contains s.visited x ≡ false) ⊎ Reach entry x)

  push_unvisited-Reach :
      (entry u : ℕ) (visited ss : List ℕ) (st : List (ℕ × Bool))
      → All (λ (v : ℕ). Reach entry v) ss
      → All (λ (e : ℕ × Bool). Reach entry e.0) st
      → All (λ (e : ℕ × Bool). Reach entry e.0) (push_unvisited visited ss st)
  unfolding push_unvisited
  push_unvisited-Reach entry u visited [] st h k = k
  push_unvisited-Reach entry u visited (s ∷ ss) st h k = elim (Bool-cases (contains visited s)) [
    | inl a ↦ rw (push_unvisited, a) (push_unvisited-Reach entry u visited ss st h.1 k)
    | inr a ↦ rw (push_unvisited, a) (h.0, push_unvisited-Reach entry u visited ss st h.1 k)
  ]

  -- For the end `v` of an edge from `u`: once `u` is visited, `v` is visited or waits.
  abbrev Followed : ℕ → ℕ → Search → Type 0
  Followed u v s =
      (contains s.visited u ≡ false) ⊎ ((contains s.visited v ≡ true) ⊎ Waits v s.stack)

  visit-Reached :
      (entry x id : ℕ) (flag : Bool) (st : List (ℕ × Bool)) (s : Search)
      → Reach entry id
      → Reached entry x (record { visited = s.visited; post = s.post; stack = st })
      → Reached entry x (visit blocks id flag st s)
  unfolding visit
  visit-Reached entry x id true st s r h = h
  visit-Reached entry x id false st s r (a, v) = elim (Bool-cases (contains s.visited id)) [
    | inl c ↦ rw (visit, c) (a, v)
    | inr c ↦
        rw (visit, c)
          (
            push_unvisited-Reach entry id (set_insert id s.visited) (successors_at blocks id)
                ((id, true) ∷ st)
                (contains-All (Reach entry) (successors_at blocks id) (λ v k. Reach.step r k))
                (r, a),
            elim (Bool-cases (id == x)) [
              | inl q ↦ let e : id ≡ x = ground (arith, q) in inr (subst (Reach entry) e r)
              | inr q ↦ elim v [
                | inl new ↦ inl (ground (arith, q, new, contains-set_insert id x s.visited))
                | inr old ↦ inr old
              ]
            ],
          )
  ]

  Waits-pop : (v id : ℕ) (st : List (ℕ × Bool)) → Waits v ((id, false) ∷ st) → (id ≡ v) ⊎ Waits v st
  Waits-pop v id st (inl top) = inl top.0
  Waits-pop v id st (inr later) = inr later

  visit-Followed :
      (u v id : ℕ) (flag : Bool) (st : List (ℕ × Bool)) (s : Search)
      → contains (successors_at blocks u) v ≡ true
      → Followed u v (record { visited = s.visited; post = s.post; stack = (id, flag) ∷ st })
      → Followed u v (visit blocks id flag st s)
  unfolding visit
  visit-Followed u v id true st s edge (inl new) = inl new
  visit-Followed u v id true st s edge (inr (inl done)) = inr (inl done)
  visit-Followed u v id true st s edge (inr (inr (inl top))) = cc
  visit-Followed u v id true st s edge (inr (inr (inr later))) = inr (inr later)
  visit-Followed u v id false st s edge h = elim (Bool-cases (contains s.visited id)) [
    | inl c ↦
        rw (visit, c)
          (elim h [
            | inl new ↦ inl new
            | inr (inl done) ↦ inr (inl done)
            | inr (inr w) ↦ elim (Waits-pop v id st w) [
              | inl e ↦ inr (inl (rw e at c))
              | inr later ↦ inr (inr later)
            ]
          ])
    | inr c ↦
        let more = set_insert id s.visited in
        let below : List (ℕ × Bool) = (id, true) ∷ st in
        rw (visit, c)
          (elim (Bool-cases (id == u)) [
            | inl q ↦
                let e : u ≡ id = ground (arith, q) in
                inr (push_unvisited-Waits v more (successors_at blocks id) below (rw e at edge))
            | inr q ↦ elim h [
              | inl new ↦ inl (ground (arith, q, new, contains-set_insert id u s.visited))
              | inr (inl done) ↦
                  inr (inl (ground (arith, done, contains-set_insert id v s.visited)))
              | inr (inr w) ↦ elim (Waits-pop v id st w) [
                | inl e ↦ inr (inl (ground (arith, e, contains-set_insert id v s.visited)))
                | inr later ↦
                    inr (
                      inr (push_unvisited-keeps v more (successors_at blocks id) below (inr later)))
              ]
            ]
          ])
  ]

  module _ (entry : ℕ) where
    search-Reached : (x : ℕ) → Reached entry x (search blocks entry)
    unfolding search contains
    search-Reached x =
        search_loop_inv blocks (Reached entry x)
          (λ top st s e h.
            let h' = rw e at h in visit-Reached entry x top.0 top.1 st s h'.0.0 (h'.0.1, h'.1))
          (suc (work blocks + 1)) (start_at entry) ((here, tt), inl refl)

    search-Followed :
        (u v : ℕ)
        → contains (successors_at blocks u) v ≡ true
        → (contains (search blocks entry).visited u ≡ false)
          ⊎ (contains (search blocks entry).visited v ≡ true)
    unfolding search contains
    search-Followed u v edge =
        let h =
          search_loop_inv blocks (Followed u v)
            (λ top st s e h. visit-Followed u v top.0 top.1 st s edge (rw e at h))
            (suc (work blocks + 1)) (start_at entry) (inl refl) in
        elim h [
          | inl new ↦ inl new
          | inr (inl done) ↦ inr done
          | inr (inr w) ↦ elim (rw (search-stack blocks entry) at w) [ ]
        ]

    contains-post :
        (x : ℕ) → contains (search blocks entry).post x ≡ contains (search blocks entry).visited x
    contains-post x =
        ground (arith, contains-count x (search blocks entry).post, count-post blocks entry x)

    entry_visited : contains (search blocks entry).post entry ≡ true
    unfolding contains
    entry_visited = elim (search-EntryLast blocks entry) [
      | inl bottom ↦ elim (rw (search-stack blocks entry) at bottom) [ ]
      | inr (none_left, post, e) ↦ rw e (ground arith)
    ]

    Reach-visited : {x : ℕ} → Reach entry x → contains (search blocks entry).visited x ≡ true
    Reach-visited here = sym (contains-post entry) ∙ entry_visited
    Reach-visited (step {u} {v} r edge) = elim (search-Followed u v edge) [
      | inl new ↦ let old = Reach-visited r in cc
      | inr old ↦ old
    ]

    -- The search comes to an end, and the blocks it has put in order are those that a walk along
    -- successors reaches from the entry.
    pub search-Reach :
        (x : ℕ)
        → ((search blocks entry).stack ≡ [])
          × ((contains (search blocks entry).post x ≡ true) ↔ Reach entry x)
    search-Reach x = (
      search-stack blocks entry,
      (
        λ h. elim (search-Reached x).1 [
          | inl new ↦ let old = sym (contains-post x) ∙ h in cc
          | inr r ↦ r
        ],
        λ r. contains-post x ∙ Reach-visited r,
      ),
    )
