-- ===== src/Core/Filters/Ordered.antt =====
-- The exception filters are asked in order, up to the first that answers.
use elysia_nest.Base.{
  ℕ, ◌≡◌, ◌⊎◌, refl, ap, Bool, true, false, List, [], ◌∷◌, ◌++◌, filter, Bool-cases, inl, inr,
}
use elysia_nest.Core.Filters.{
  CatchOutcome, gave, gave_undefined, catch_threw, Answer, answered, unanswered, filter_threw,
  Filters, Applied, catches_all, after_catch, each_filter, apply_exception_filters,
}

module _ {V : Type 0} where
  abbrev pub filters_called : List (ℕ × CatchOutcome V) → List ℕ
  filters_called [] = []
  filters_called ((f, outcome) ∷ calls) = f ∷ filters_called calls

  abbrev pub answer_of : CatchOutcome V → Answer V
  answer_of (gave v) = answered v
  answer_of gave_undefined = unanswered
  answer_of catch_threw = filter_threw

  -- The last call decides; all before it gave undefined.
  abbrev pub IsDecidedBy : List (ℕ × CatchOutcome V) → Answer V → Type 0
  IsDecidedBy [] a = a ≡ unanswered
  IsDecidedBy ((f, outcome) ∷ []) a = a ≡ answer_of outcome
  IsDecidedBy ((f, outcome) ∷ call ∷ calls) a =
      (outcome ≡ gave_undefined) × IsDecidedBy (call ∷ calls) a

  abbrev pub is_answer : Answer V → Bool
  is_answer unanswered = false
  is_answer _ = true

  -- The filters that were called are the first of the given ones, all of them unless one answered.
  abbrev pub IsPrefix : List ℕ → List (ℕ × CatchOutcome V) → Answer V → Type 0
  IsPrefix fs calls a =
      (rest : List ℕ) × (fs ≡ filters_called calls ++ rest) × ((rest ≡ []) ⊎ (is_answer a ≡ true))

  decided_later :
      (f : ℕ) (calls : List (ℕ × CatchOutcome V)) (a : Answer V)
      → IsDecidedBy calls a
      → IsDecidedBy ((f, gave_undefined) ∷ calls) a
  decided_later f [] a h = h
  decided_later f (call ∷ calls) a h = (refl, h)

module _ {C V : Type 0} (p : Filters C V) where
  unfoldable IsOrdered : List ℕ → Applied C V → Type 0
  IsOrdered fs r =
      IsPrefix (filter (catches_all p) fs) r.calls r.answer × IsDecidedBy r.calls r.answer

  each_filter-IsOrdered : (fs : List ℕ) (c : C) → IsOrdered fs (each_filter p fs c)
  unfolding each_filter IsOrdered
  each_filter-IsOrdered [] c = (([], refl, inl refl), refl)
  each_filter-IsOrdered (f ∷ fs) c = elim (Bool-cases (catches_all p f)) [
    | inl e ↦ rw e (called (p.catch_ f c).1 (each_filter-IsOrdered fs (p.catch_ f c).0))
    | inr e ↦ rw e (each_filter-IsOrdered fs c)
  ]
    where
      called :
          (o : CatchOutcome V)
          → IsOrdered fs (each_filter p fs (p.catch_ f c).0)
          → IsPrefix
              (f ∷ filter (catches_all p) fs)
              (after_catch p f o (p.catch_ f c).0 (each_filter p fs (p.catch_ f c).0)).calls
              (after_catch p f o (p.catch_ f c).0 (each_filter p fs (p.catch_ f c).0)).answer
            × IsDecidedBy
                (after_catch p f o (p.catch_ f c).0 (each_filter p fs (p.catch_ f c).0)).calls
                (after_catch p f o (p.catch_ f c).0 (each_filter p fs (p.catch_ f c).0)).answer
      called (gave v) ih = ((filter (catches_all p) fs, refl, inr refl), refl)
      called catch_threw ih = ((filter (catches_all p) fs, refl, inr refl), refl)
      called gave_undefined ((rest, same, ends), decided) =
          ((rest, ap (λ xs. f ∷ xs) same, ends), decided_later f _ _ decided)

  -- For an error, the exception filters that catch it are called in the order in which they were
  -- added, up to the first that gives a value or throws, and all of them if none does; the answer
  -- is what the last call gave, and each call before it gave undefined.
  pub filters_in_order :
      (fs : List ℕ) (c : C)
      → IsPrefix
          (filter (catches_all p) fs)
          (apply_exception_filters p true fs c).calls
          (apply_exception_filters p true fs c).answer
        × IsDecidedBy
            (apply_exception_filters p true fs c).calls
            (apply_exception_filters p true fs c).answer
  unfolding apply_exception_filters IsOrdered
  filters_in_order = each_filter-IsOrdered
