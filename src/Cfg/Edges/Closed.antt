-- ===== src/Cfg/Edges/Closed.antt =====
-- The successors in src/decompile/cfg.rs are blocks.
use droidsaw_hermes.Prelude.{
  ℕ, ◌≡◌, refl, true, false, List, [], ◌∷◌, Option, none, some, ◌||◌, arith, All, All-append,
  Bool-cases, inl, inr, Option-cases, ◌==◌,
}
use droidsaw_hermes.Prelude.Sets.{contains, contains-All, count}
use droidsaw_hermes.Decode.{ℤ, DecodedInst}
use droidsaw_hermes.Decode.Control.{
  checked_add_signed, branch_target, is_unconditional_jump, is_conditional_branch, is_return,
  is_throw, named, has_part,
}
use droidsaw_hermes.Cfg.{BasicBlock, inst_next_offset, addr_at}
use droidsaw_hermes.Cfg.Boundaries.{target_from}
use droidsaw_hermes.Cfg.Blocks.{last}
use droidsaw_hermes.Cfg.Edges.{
  ids_of, push_target, push_case, push_cases, successors_of, first_id, with_edges, add_successors,
  edges, add_edges,
}
use droidsaw_hermes.Cfg.Edges.Mirror.{push_predecessors-successors, Fresh}
use droidsaw_hermes.Cfg.Order.{successors_at}

module _ (ids : List ℕ) where
  abbrev pub AllIn : List ℕ → Type 0
  AllIn = All (λ (t : ℕ). contains ids t ≡ true)

  push_target-AllIn : (o : Option ℕ) (ss : List ℕ) → AllIn ss → AllIn (push_target ids o ss)
  unfolding push_target
  push_target-AllIn none ss h = h
  push_target-AllIn (some t) ss h = elim (Bool-cases (contains ids t)) [
    | inl a ↦ rw (push_target, a) (All-append _ ss (t ∷ []) h (a, tt))
    | inr a ↦ rw (push_target, a) h
  ]

  push_case-AllIn : (o : Option ℕ) (ss : List ℕ) → AllIn ss → AllIn (push_case ids o ss)
  unfolding push_case
  push_case-AllIn none ss h = h
  push_case-AllIn (some t) ss h = elim (Bool-cases (contains ids t)) [
    | inl a ↦ elim (Bool-cases (contains ss t)) [
      | inl b ↦ rw (push_case, a, b) h
      | inr b ↦ rw (push_case, a, b) (All-append _ ss (t ∷ []) h (a, tt))
    ]
    | inr a ↦ rw (push_case, a) h
  ]

  push_cases-AllIn :
      (offset : ℕ) (rels : List ℤ) (ss : List ℕ) → AllIn ss → AllIn (push_cases ids offset rels ss)
  unfolding push_cases
  push_cases-AllIn offset [] ss h = h
  push_cases-AllIn offset (rel ∷ rels) ss h =
      push_cases-AllIn offset rels (push_case ids (checked_add_signed offset rel) ss)
        (push_case-AllIn (checked_add_signed offset rel) ss h)

  -- What follows a block is a block, if anything does.
  abbrev FollowIn : Option ℕ → Type 0
  FollowIn none = Unit
  FollowIn (some next) = contains ids next ≡ true

  ending_AllIn :
      (following : Option ℕ)
      → FollowIn following
      → AllIn (elim following [ none ↦ [] | some next ↦ next ∷ [] ])
  ending_AllIn none h = tt
  ending_AllIn (some next) h = (h, tt)

  module _ {Op : Type 0} (code : List ℕ) where
    successors_of-AllIn :
        (inst : DecodedInst Op) (following : Option ℕ)
        → FollowIn following
        → AllIn (successors_of code ids inst following)
    unfolding successors_of
    successors_of-AllIn inst following h = elim (Bool-cases (is_unconditional_jump inst)) [
      | inl a ↦ rw (successors_of, a) (push_target-AllIn (branch_target inst) [] tt)
      | inr a ↦ elim (Bool-cases (is_conditional_branch inst)) [
        | inl b ↦
            rw (successors_of, a, b)
              (push_target-AllIn (inst_next_offset inst) (push_target ids (branch_target inst) [])
                (push_target-AllIn (branch_target inst) [] tt))
        | inr b ↦ elim (Bool-cases (named inst.name "StringSwitchImm")) [
          | inl c ↦
              rw (successors_of, a, b, c)
                (push_cases-AllIn inst.offset _ _
                  (push_target-AllIn (target_from inst.offset (addr_at inst.operands 3)) [] tt))
          | inr c ↦ elim (Bool-cases (has_part inst.name "SwitchImm")) [
            | inl d ↦
                rw (successors_of, a, b, c, d)
                  (push_cases-AllIn inst.offset _ _
                    (push_target-AllIn (target_from inst.offset (addr_at inst.operands 2)) [] tt))
            | inr d ↦
                elim (Bool-cases
                  (is_return inst || is_throw inst || named inst.name "Unreachable")) [
                    | inl e ↦ rw (successors_of, a, b, c, d, e) tt
                    | inr e ↦ rw (successors_of, a, b, c, d, e) (ending_AllIn following h)
                  ]
          ]
        ]
      ]
    ]

    with_edges-AllIn :
        (b : BasicBlock Op) (following : Option ℕ)
        → FollowIn following
        → b.successors ≡ []
        → AllIn (with_edges code ids b following).successors
    unfolding with_edges
    with_edges-AllIn b following h f = elim (Option-cases (last b.instructions)) [
      | inl e ↦ rw (with_edges, e) (rw f tt)
      | inr (inst, e) ↦ rw (with_edges, e) (successors_of-AllIn inst following h)
    ]

    first_id-FollowIn : (bs : List (BasicBlock Op)) → AllIn (ids_of bs) → FollowIn (first_id bs)
    first_id-FollowIn [] h = tt
    first_id-FollowIn (b ∷ bs) h = h.0

    -- Every block of a part of the blocks, whose numbers are among `ids`.
    add_successors-AllIn :
        (bs : List (BasicBlock Op)) (i : ℕ)
        → AllIn (ids_of bs)
        → Fresh bs
        → AllIn (successors_at (add_successors code ids bs) i)
    unfolding add_successors successors_at
    add_successors-AllIn [] i h f = tt
    add_successors-AllIn (b ∷ bs) i h f =
        elim (Bool-cases ((with_edges code ids b (first_id bs)).id == i)) [
          | inl a ↦ rw a (with_edges-AllIn b (first_id bs) (first_id-FollowIn bs h.1) f.0)
          | inr a ↦ rw a (add_successors-AllIn bs i h.1 f.3)
        ]

-- Every successor of every block is a block.
pub add_edges-AllIn :
    {Op : Type 0} (code : List ℕ) (bs : List (BasicBlock Op)) (i : ℕ)
    → Fresh bs
    → AllIn (ids_of bs) (successors_at (add_edges code bs) i)
unfolding add_edges
add_edges-AllIn code bs i fresh =
    let linked = add_successors code (ids_of bs) bs in
    rw (push_predecessors-successors (edges linked) i linked) (
      add_successors-AllIn (ids_of bs) code bs i
        (contains-All (λ (t : ℕ). contains (ids_of bs) t ≡ true) (ids_of bs) (λ v h. h)) fresh)

pub AllIn-count : (ids ss : List ℕ) (t : ℕ) → AllIn ids ss → contains ids t ≡ false → count t ss ≡ 0
unfolding count
AllIn-count ids [] t h n = refl
AllIn-count ids (s ∷ ss) t h n = elim (Bool-cases (t == s)) [
  | inl a ↦
      let same : t ≡ s = ground (arith, a) in
      let there : contains ids t ≡ true = rw same (h.0) in cc
  | inr a ↦ rw a (AllIn-count ids ss t h.1 n)
]
