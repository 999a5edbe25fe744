-- ===== src/Spans/Pairs.antt =====
-- The second pass of `validate_function_regions` of src/parser/mod.rs, for two functions of the list.
use droidsaw_hermes.Prelude.{
  ◌≡◌, ◌⊎◌, inl, inr, List, [], ◌∷◌, leb, All, Bool-cases, subst, sym, ◌∙◌,
}
use droidsaw_hermes.Errors.{ok}
use droidsaw_hermes.Spans.{
  FnSpan, insert_by_offset, sort_by_offset, check_overlaps, check_pairs, check_dedups, no_dedups,
}
use droidsaw_hermes.Errors.{>>=-eq-ok}
use droidsaw_hermes.Spans.Apart.{
  Separate, AllSeparate, sort_by_offset-RisesFrom, check_pairs-AllSeparate,
}

-- A span stands in a list.
abbrev pub Has : FnSpan → List FnSpan → Type 0
Has s [] = ⊥
Has s (x ∷ xs) = (x ≡ s) ⊎ Has s xs

insert_by_offset-Has :
    (s x : FnSpan) (xs : List FnSpan) → Has s (x ∷ xs) → Has s (insert_by_offset x xs)
unfolding insert_by_offset
insert_by_offset-Has s x [] h = h
insert_by_offset-Has s x (y ∷ ys) h = elim (Bool-cases (leb x.offset y.offset)) [
  | inl le ↦ rw (insert_by_offset, le) h
  | inr gt ↦
      rw (insert_by_offset, gt)
        (elim h [
          | inl here ↦ inr (insert_by_offset-Has s x ys (inl here))
          | inr (inl next) ↦ inl next
          | inr (inr later) ↦ inr (insert_by_offset-Has s x ys (inr later))
        ])
]

sort_by_offset-Has : (s : FnSpan) (xs : List FnSpan) → Has s xs → Has s (sort_by_offset xs)
unfolding sort_by_offset
sort_by_offset-Has s [] h = elim h [ ]
sort_by_offset-Has s (x ∷ xs) (inl here) = insert_by_offset-Has s x (sort_by_offset xs) (inl here)
sort_by_offset-Has s (x ∷ xs) (inr later) =
    insert_by_offset-Has s x (sort_by_offset xs) (inr (sort_by_offset-Has s xs later))

All-Has :
    (Holds : FnSpan → Type 0) (s : FnSpan) (xs : List FnSpan) → All Holds xs → Has s xs → Holds s
All-Has Holds s [] all h = elim h [ ]
All-Has Holds s (x ∷ xs) (h, hs) (inl here) = subst Holds here h
All-Has Holds s (x ∷ xs) (h, hs) (inr later) = All-Has Holds s xs hs later

-- The one span, or one of the two before the other.
abbrev pub Compatible : FnSpan → FnSpan → Type 0
Compatible s t = (s ≡ t) ⊎ (Separate s t ⊎ Separate t s)

AllSeparate-Compatible :
    (s t : FnSpan) (xs : List FnSpan) → AllSeparate xs → Has s xs → Has t xs → Compatible s t
AllSeparate-Compatible s t [] all a b = elim a [ ]
AllSeparate-Compatible s t (x ∷ xs) (all, rest) (inl a) (inl b) = inl (sym a ∙ b)
AllSeparate-Compatible s t (x ∷ xs) (all, rest) (inl a) (inr b) =
    inr (inl (subst (λ (u : FnSpan). Separate u t) a (All-Has (Separate x) t xs all b)))
AllSeparate-Compatible s t (x ∷ xs) (all, rest) (inr a) (inl b) =
    inr (inr (subst (λ (u : FnSpan). Separate u s) b (All-Has (Separate x) s xs all a)))
AllSeparate-Compatible s t (x ∷ xs) (all, rest) (inr a) (inr b) =
    AllSeparate-Compatible s t xs rest a b

pub check_overlaps-Compatible :
    (spans : List FnSpan)
    → check_overlaps spans ≡ ok tt
    → (s t : FnSpan) → Has s spans
    → Has t spans
    → Compatible s t
unfolding check_overlaps
check_overlaps-Compatible spans h s t a b =
    let (_, pairs, _) = >>=-eq-ok (check_pairs (sort_by_offset spans) no_dedups) check_dedups h in
    AllSeparate-Compatible s t (sort_by_offset spans)
      (check_pairs-AllSeparate 0 (sort_by_offset spans) no_dedups (sort_by_offset-RisesFrom spans)
        pairs)
      (sort_by_offset-Has s spans a) (sort_by_offset-Has t spans b)
