-- ===== src/Emitter/Registry/Merge.antt =====
-- Merging two parts of a list by sequence numbers gives the entries of both, in the list's order.
use elysia_nest.Base.{
  ℕ, zero, suc, ◌+◌, ◌≤◌, ◌≡◌, refl, inl, inr, Bool, true, false, ◌||◌, List, [], ◌∷◌, arith,
  length, filter, Bool-cases, ◌⊎◌, ap, ◌∙◌,
}
use elysia_nest.Emitter.Registry.{HandlerRegistration, merge_by_seq, merged}

-- Sequence numbers rise from `lo` on and stay below `hi`.
abbrev pub Between : ℕ → List HandlerRegistration → ℕ → Type 0
Between lo [] hi = lo ≤ hi
Between lo (r ∷ rs) hi = (lo ≤ r.seq) × Between (r.seq + 1) rs hi

pub Between-lower :
    (lo lo' : ℕ) (rs : List HandlerRegistration) (hi : ℕ)
    → lo' ≤ lo
    → Between lo rs hi
    → Between lo' rs hi
Between-lower lo lo' [] hi h b = omega arith
Between-lower lo lo' (r ∷ rs) hi h (b, bs) = (omega arith, bs)

List-cases {ℓ} : {A : Type ℓ} (l : List A) → (l ≡ []) ⊎ ((x : A) × (rest : List A) × (l ≡ x ∷ rest))
List-cases [] = inl refl
List-cases (x ∷ rest) = inr (x, rest, refl)

head_of_filter :
    (p : HandlerRegistration → Bool) (lo hi : ℕ) (rs : List HandlerRegistration)
    (y : HandlerRegistration) (l : List HandlerRegistration)
    → Between lo rs hi
    → filter p rs ≡ y ∷ l
    → lo ≤ y.seq
head_of_filter p lo hi [] y l b e = absurd (ground arith)
head_of_filter p lo hi (r ∷ rs) y l (b, bs) e = elim (Bool-cases (p r)) [
  | inl kept ↦
      let same : r ≡ y = ground arith in omega (arith, ap (λ (q : HandlerRegistration). q.seq) same)
  | inr gone ↦ omega (arith, head_of_filter p (r.seq + 1) hi rs y l bs (ground arith))
]

merge-nil : (fuel : ℕ) (l : List HandlerRegistration) → length l ≤ fuel → merge_by_seq fuel l [] ≡ l
unfolding merge_by_seq
merge-nil zero [] h = refl
merge-nil zero (x ∷ l) h = absurd (omega arith)
merge-nil (suc fuel) [] h = refl
merge-nil (suc fuel) (x ∷ l) h = refl

nil-merge : (fuel : ℕ) (l : List HandlerRegistration) → length l ≤ fuel → merge_by_seq fuel [] l ≡ l
unfolding merge_by_seq
nil-merge zero [] h = refl
nil-merge zero (x ∷ l) h = absurd (omega arith)
nil-merge (suc fuel) l h = refl

module _ (p q : HandlerRegistration → Bool)
    (disjoint : (r : HandlerRegistration) → p r ≡ true → q r ≡ false) where
  merge-filter :
      (rs : List HandlerRegistration) (fuel lo hi : ℕ)
      → Between lo rs hi
      → length (filter p rs) + length (filter q rs) ≤ fuel
      → merge_by_seq fuel (filter p rs) (filter q rs) ≡ filter (λ r. p r || q r) rs
  unfolding merge_by_seq
  merge-filter [] zero lo hi b h = refl
  merge-filter [] (suc fuel) lo hi b h = refl
  merge-filter (x ∷ rs) zero lo hi (b, bs) h =
      ground (arith, merge-filter rs zero (x.seq + 1) hi bs)
  merge-filter (x ∷ rs) (suc fuel) lo hi (b, bs) h = elim (Bool-cases (p x)) [
    | inl in_p ↦
        let out = disjoint x in_p in
        let rec = merge-filter rs fuel (x.seq + 1) hi bs (ground arith) in
        elim (List-cases (filter q rs)) [
          | inl e ↦ ground (arith, rec, merge-nil fuel (filter p rs))
          | inr (y, l, e) ↦ ground (arith, rec, head_of_filter q (x.seq + 1) hi rs y l bs e)
        ]
    | inr out_p ↦ elim (Bool-cases (q x)) [
      | inl in_q ↦
          let rec = merge-filter rs fuel (x.seq + 1) hi bs (ground arith) in
          elim (List-cases (filter p rs)) [
            | inl e ↦ ground (arith, rec, nil-merge fuel (filter q rs))
            | inr (y, l, e) ↦ ground (arith, rec, head_of_filter p (x.seq + 1) hi rs y l bs e)
          ]
      | inr out_q ↦ ground (arith, merge-filter rs (suc fuel) (x.seq + 1) hi bs)
    ]
  ]

merged_lem : (a b : List HandlerRegistration) → merged a b ≡ merge_by_seq (length a + length b) a b
unfolding merge_by_seq
merged_lem [] [] = refl
merged_lem [] (y ∷ b) = ground (arith, nil-merge (length (y ∷ b)) (y ∷ b))
merged_lem (x ∷ a) [] = ground (arith, merge-nil (length (x ∷ a) + 0) (x ∷ a))
merged_lem (x ∷ a) (y ∷ b) = refl

pub merged-filter :
    (p q : HandlerRegistration → Bool)
    → ((r : HandlerRegistration) → p r ≡ true → q r ≡ false)
    → (rs : List HandlerRegistration) (lo hi : ℕ) → Between lo rs hi
    → merged (filter p rs) (filter q rs) ≡ filter (λ r. p r || q r) rs
merged-filter p q disjoint rs lo hi b =
    merged_lem (filter p rs) (filter q rs)
    ∙ merge-filter p q disjoint rs (length (filter p rs) + length (filter q rs)) lo hi b
        (omega arith)
