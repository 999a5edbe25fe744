-- ===== src/Cfg/Handlers/Regions.antt =====
-- Which handler a block has in src/decompile/cfg.rs, and the map back from handlers to blocks.
use droidsaw_hermes.Prelude.{
  ℕ, ◌≡◌, refl, sym, ◌∙◌, true, List, [], ◌∷◌, ◌++◌, Option, none, some, ◌==◌, leb, ◌&&◌,
  if◌then◌else◌, Bool-cases, inl, inr, subst, append-nil, append_assoc, Option-cases,
}
use droidsaw_hermes.Prelude.Sets.{contains}
use droidsaw_hermes.Errors.{ok, ok-injective}
use droidsaw_hermes.Cfg.{BasicBlock, ExcHandler}
use droidsaw_hermes.Cfg.Edges.Skeleton.{skeletons}
use droidsaw_hermes.Cfg.Edges.Mirror.{predecessors_at}
use droidsaw_hermes.Cfg.Order.{successors_at}
use droidsaw_hermes.Cfg.Handlers.{covers, set_handler, map_handlers, push_at, exc_predecessors_loop}

-- The target of the last handler whose region covers a block, or what it had before.
abbrev pub handler_for : List ExcHandler → ℕ → ℕ → Option ℕ → Option ℕ
handler_for [] start end old = old
handler_for (eh ∷ rest) start end old =
    handler_for rest start end
      (if leb eh.start start && leb end eh.end then some eh.target else old)

-- A handler's target is a valid one.
abbrev pub ValidTargets : List ℕ → List ExcHandler → Type 0
ValidTargets valid [] = Unit
ValidTargets valid (eh ∷ rest) = (contains valid eh.target ≡ true) × ValidTargets valid rest

module _ {Op : Type 0} where
  -- The blocks are the same but for their handlers, which are those of the regions.
  abbrev pub Handled : List ExcHandler → List (BasicBlock Op) → List (BasicBlock Op) → Type 0
  Handled ehs [] [] = Unit
  Handled ehs (b ∷ bs) [] = ⊥
  Handled ehs [] (c ∷ cs) = ⊥
  Handled ehs (b ∷ bs) (c ∷ cs) =
      (c ≡ record b { exc_handler = handler_for ehs b.start b.end b.exc_handler })
      × Handled ehs bs cs

  Handled-refl : (bs : List (BasicBlock Op)) → Handled [] bs bs
  Handled-refl [] = tt
  Handled-refl (b ∷ bs) = (refl, Handled-refl bs)

  Handled-step :
      (eh : ExcHandler) (rest : List ExcHandler) (bs cs : List (BasicBlock Op))
      → Handled rest (set_handler eh bs) cs
      → Handled (eh ∷ rest) bs cs
  unfolding set_handler
  Handled-step eh rest [] [] h = tt
  Handled-step eh rest [] (c ∷ cs) h = h
  Handled-step eh rest (b ∷ bs) [] h = h
  Handled-step eh rest (b ∷ bs) (c ∷ cs) h = elim (Bool-cases (covers eh b)) [
    | inl a ↦ let h' = rw (set_handler, a) at h in rw a (h'.0, Handled-step eh rest bs cs h'.1)
    | inr a ↦ let h' = rw (set_handler, a) at h in rw a (h'.0, Handled-step eh rest bs cs h'.1)
  ]

  pub map_handlers-Handled :
      (valid : List ℕ) (ehs : List ExcHandler) (bs out : List (BasicBlock Op))
      → map_handlers valid ehs bs ≡ ok out
      → Handled ehs bs out
  unfolding map_handlers
  map_handlers-Handled valid [] bs out h =
      subst (Handled [] bs) (ok-injective refl h) (Handled-refl bs)
  map_handlers-Handled valid (eh ∷ rest) bs out h = elim (Bool-cases (contains valid eh.target)) [
    | inl a ↦
        Handled-step eh rest bs out
          (map_handlers-Handled valid rest (set_handler eh bs) out (rw (map_handlers, a) at h))
    | inr a ↦ let bad = rw (map_handlers, a) at h in cc
  ]

  -- The blocks that a catch block handles.
  abbrev pub caught_by : ℕ → List (BasicBlock Op) → List ℕ
  caught_by c [] = []
  caught_by c (b ∷ bs) = elim b.exc_handler [
    | none ↦ caught_by c bs
    | some catch ↦ if catch == c then b.id ∷ caught_by c bs else caught_by c bs
  ]

  pub exc_predecessors_loop-caught_by :
      (bs : List (BasicBlock Op)) (f : ℕ → List ℕ) (c : ℕ)
      → exc_predecessors_loop bs f c ≡ f c ++ caught_by c bs
  unfolding exc_predecessors_loop push_at
  exc_predecessors_loop-caught_by [] f c = sym (append-nil (f c))
  exc_predecessors_loop-caught_by (b ∷ bs) f c = elim (Option-cases b.exc_handler) [
    | inl e ↦ rw (exc_predecessors_loop, e) (exc_predecessors_loop-caught_by bs f c)
    | inr (catch, e) ↦
        let rest = exc_predecessors_loop-caught_by bs (push_at catch b.id f) c in
        elim (Bool-cases (catch == c)) [
          | inl a ↦
              let r = rw (push_at, a) at rest in
              rw (exc_predecessors_loop, e, a) (r ∙ append_assoc (f c) (b.id ∷ []) (caught_by c bs))
          | inr a ↦ let r = rw (push_at, a) at rest in rw (exc_predecessors_loop, e, a) r
        ]
  ]

  pub Handled-skeletons :
      (ehs : List ExcHandler) (bs cs : List (BasicBlock Op))
      → Handled ehs bs cs
      → skeletons cs ≡ skeletons bs
  Handled-skeletons ehs [] [] h = refl
  Handled-skeletons ehs [] (c ∷ cs) h = elim h [ ]
  Handled-skeletons ehs (b ∷ bs) [] h = elim h [ ]
  Handled-skeletons ehs (b ∷ bs) (c ∷ cs) h = rw (h.0, Handled-skeletons ehs bs cs h.1)

  pub Handled-edges :
      (ehs : List ExcHandler) (i : ℕ) (bs cs : List (BasicBlock Op))
      → Handled ehs bs cs
      → (successors_at cs i ≡ successors_at bs i) × (predecessors_at cs i ≡ predecessors_at bs i)
  unfolding successors_at
  Handled-edges ehs i [] [] h = (refl, refl)
  Handled-edges ehs i [] (c ∷ cs) h = elim h [ ]
  Handled-edges ehs i (b ∷ bs) [] h = elim h [ ]
  Handled-edges ehs i (b ∷ bs) (c ∷ cs) h =
      let rest = Handled-edges ehs i bs cs h.1 in rw (h.0, rest.0, rest.1) (refl, refl)

  pub map_handlers-ValidTargets :
      (valid : List ℕ) (ehs : List ExcHandler) (bs out : List (BasicBlock Op))
      → map_handlers valid ehs bs ≡ ok out
      → ValidTargets valid ehs
  unfolding map_handlers
  map_handlers-ValidTargets valid [] bs out h = tt
  map_handlers-ValidTargets valid (eh ∷ rest) bs out h =
      elim (Bool-cases (contains valid eh.target)) [
        | inl a ↦ (
          a,
          map_handlers-ValidTargets valid rest (set_handler eh bs) out (rw (map_handlers, a) at h),
        )
        | inr a ↦ let bad = rw (map_handlers, a) at h in cc
      ]
