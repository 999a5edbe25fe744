-- ===== src/Cfg/Build/Catches.antt =====
-- The handlers that the blocks of src/decompile/cfg.rs end up with.
use droidsaw_hermes.Prelude.{
  ℕ, ◌≡◌, sym, ap, ◌∙◌, subst, List, [], ◌∷◌, Option, none, some, arith, All, inl, inr, Bool-cases,
  ◌==◌, leb, ◌&&◌,
}
use droidsaw_hermes.Prelude.Sets.{contains}
use droidsaw_hermes.Cfg.{BasicBlock, ExcHandler}
use droidsaw_hermes.Cfg.Edges.{
  ids_of, add_edges, with_edges, add_successors, push_predecessor, push_predecessors, edges,
  first_id,
}
use droidsaw_hermes.Cfg.Edges.Mirror.{Fresh}
use droidsaw_hermes.Cfg.Edges.Closed.{AllIn}
use droidsaw_hermes.Cfg.Handlers.Regions.{Handled, ValidTargets, handler_for}
use droidsaw_hermes.Cfg.Build.Layout.{NoneOrIn, Ordered}

handler_for-NoneOrIn :
    (ids : List ℕ) (ehs : List ExcHandler) (start end : ℕ) (old : Option ℕ)
    → ValidTargets ids ehs
    → NoneOrIn ids old
    → NoneOrIn ids (handler_for ehs start end old)
handler_for-NoneOrIn ids [] start end old v h = h
handler_for-NoneOrIn ids (eh ∷ rest) start end old v h =
    elim (Bool-cases (leb eh.start start && leb end eh.end)) [
      | inl a ↦ rw a (handler_for-NoneOrIn ids rest start end (some eh.target) v.1 v.0)
      | inr a ↦ rw a (handler_for-NoneOrIn ids rest start end old v.1 h)
    ]

NoneOrIn-same :
    (ids order : List ℕ) (o : Option ℕ)
    → ((x : ℕ) → contains order x ≡ contains ids x)
    → NoneOrIn ids o
    → NoneOrIn order o
NoneOrIn-same ids order none same h = tt
NoneOrIn-same ids order (some c) same h = same c ∙ h

module _ {Op : Type 0} where
  abbrev pub NoHandlers : List (BasicBlock Op) → Type 0
  NoHandlers = All (λ (b : BasicBlock Op). b.exc_handler ≡ none)

  with_edges-handler :
      (code ids : List ℕ) (b : BasicBlock Op) (following : Option ℕ)
      → (with_edges code ids b following).exc_handler ≡ b.exc_handler
  unfolding with_edges
  with_edges-handler code ids b following = ground arith

  add_successors-NoHandlers :
      (code ids : List ℕ) (bs : List (BasicBlock Op))
      → Fresh bs
      → NoHandlers (add_successors code ids bs)
  unfolding add_successors
  add_successors-NoHandlers code ids [] f = tt
  add_successors-NoHandlers code ids (b ∷ bs) f =
      (with_edges-handler code ids b (first_id bs) ∙ f.2, add_successors-NoHandlers code ids bs f.3)

  push_predecessor-NoHandlers :
      (from to : ℕ) (bs : List (BasicBlock Op))
      → NoHandlers bs
      → NoHandlers (push_predecessor from to bs)
  unfolding push_predecessor
  push_predecessor-NoHandlers from to [] h = tt
  push_predecessor-NoHandlers from to (b ∷ bs) h = elim (Bool-cases (b.id == to)) [
    | inl a ↦ rw a (h.0, push_predecessor-NoHandlers from to bs h.1)
    | inr a ↦ rw a (h.0, push_predecessor-NoHandlers from to bs h.1)
  ]

  push_predecessors-NoHandlers :
      (es : List (ℕ × ℕ)) (bs : List (BasicBlock Op))
      → NoHandlers bs
      → NoHandlers (push_predecessors es bs)
  unfolding push_predecessors
  push_predecessors-NoHandlers [] bs h = h
  push_predecessors-NoHandlers ((from, to) ∷ es) bs h =
      push_predecessors-NoHandlers es (push_predecessor from to bs)
        (push_predecessor-NoHandlers from to bs h)

  pub add_edges-NoHandlers :
      (code : List ℕ) (bs : List (BasicBlock Op)) → Fresh bs → NoHandlers (add_edges code bs)
  unfolding add_edges
  add_edges-NoHandlers code bs f =
      let linked = add_successors code (ids_of bs) bs in
      push_predecessors-NoHandlers (edges linked) linked
        (add_successors-NoHandlers code (ids_of bs) bs f)

  -- The handler of each block is that of the last region that covers it, if any.
  abbrev pub RegionHandlers : List ExcHandler → List (BasicBlock Op) → Type 0
  RegionHandlers ehs =
      All (λ (b : BasicBlock Op). b.exc_handler ≡ handler_for ehs b.start b.end none)

  pub Handled-RegionHandlers :
      (ehs : List ExcHandler) (bs cs : List (BasicBlock Op))
      → NoHandlers bs
      → Handled ehs bs cs
      → RegionHandlers ehs cs
  Handled-RegionHandlers ehs [] [] n h = tt
  Handled-RegionHandlers ehs [] (c ∷ cs) n h = elim h [ ]
  Handled-RegionHandlers ehs (b ∷ bs) [] n h = elim h [ ]
  Handled-RegionHandlers ehs (b ∷ bs) (c ∷ cs) n h = (
    rw (h.0) (ap (λ (o : Option ℕ). handler_for ehs b.start b.end o) n.0),
    Handled-RegionHandlers ehs bs cs n.1 h.1,
  )

  pub RegionHandlers-Ordered :
      (ids order : List ℕ) (ehs : List ExcHandler) (bs : List (BasicBlock Op))
      → ((x : ℕ) → contains order x ≡ contains ids x)
      → ValidTargets ids ehs
      → AllIn ids (ids_of bs)
      → RegionHandlers ehs bs
      → Ordered order bs
  RegionHandlers-Ordered ids order ehs [] same v here r = tt
  RegionHandlers-Ordered ids order ehs (b ∷ bs) same v here r = (
    same b.id ∙ here.0,
    NoneOrIn-same ids order b.exc_handler same
        (subst (NoneOrIn ids) (sym r.0) (handler_for-NoneOrIn ids ehs b.start b.end none v tt)),
    RegionHandlers-Ordered ids order ehs bs same v here.1 r.1,
  )
