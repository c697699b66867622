-- ===== src/Di/Module/Lookup.antt =====
-- What the search over imported modules finds.
use elysia_nest.Base.{
  ℕ, zero, suc, ◌≡◌, refl, ◌⊎◌, inl, inr, true, Option, none, some, List, [], ◌∷◌, arith, has,
  get_elem?, Bool-cases, Option-cases, nat_eq, nat_beq_iff,
}
use elysia_nest.Di.Module.{Module, Search, search_imports, find_by_key}

-- Module `i` imports module `j`.
pub record Imports (heap : List Module) (i j : ℕ) : Type 0 where
  pub importer : Module
  pub at_ : get_elem? heap i ≡ some importer
  pub listed : has importer.imports j ≡ true

-- The modules from which `target` is imported, in any number of steps.
pub data ReachedFrom (heap : List Module) (target : ℕ) : ℕ → Type 0 where
  here : ReachedFrom heap target target
  step : {i j : ℕ} → Imports heap i j → ReachedFrom heap target j → ReachedFrom heap target i

pub Search-cases :
    (s : Search)
    → (s ≡ none)
      ⊎ ((v : List ℕ) × (w : ℕ) × (s ≡ some (v, some w)))
      ⊎ ((v : List ℕ) × (s ≡ some (v, none)))
Search-cases none = inl refl
Search-cases (some (v, some w)) = inr (inl (v, w, refl))
Search-cases (some (v, none)) = inr (inr (v, refl))

module _ (heap : List Module) (own_wrapper : Module → Option ℕ) where
  -- Module `m` or one that it imports owns the wrapper `w`.
  pub record Provides (m w : ℕ) : Type 0 where
    pub owner : ℕ
    pub provider : Module
    pub reached : ReachedFrom heap owner m
    pub at_ : get_elem? heap owner ≡ some provider
    pub owns : own_wrapper provider ≡ some w

  abbrev IsSound : (ℕ → List ℕ → Search) → Type 0
  IsSound find = (m : ℕ) (v v' : List ℕ) (w : ℕ) → find m v ≡ some (v', some w) → Provides m w

  search_imports_sound :
      (find : ℕ → List ℕ → Search)
      → IsSound find
      → (is v v' : List ℕ) (w : ℕ) → search_imports find is v ≡ some (v', some w)
      → (i : ℕ) × (has is i ≡ true) × Provides i w
  unfolding search_imports
  search_imports_sound find sound [] v v' w h = ground arith
  search_imports_sound find sound (i ∷ is) v v' w h = elim (Search-cases (find i v)) [
    | inl e ↦ ground arith
    | inr (inl (u, x, e)) ↦ (i, ground (arith, nat_beq_iff i i), sound i v u w (ground arith))
    | inr (inr (u, e)) ↦
        let (j, listed, p) = search_imports_sound find sound is u v' w (ground arith) in
        (j, ground arith, p)
  ]

  Provides-step : {m i w : ℕ} → Imports heap m i → Provides i w → Provides m w
  Provides-step edge p = record {
    owner = p.owner;
    provider = p.provider;
    reached = step edge p.reached;
    at_ = p.at_;
    owns = p.owns;
  }

  -- What the search returns is owned by the module or by one that it imports.
  pub find_by_key-IsSound : (fuel : ℕ) → IsSound (find_by_key heap own_wrapper fuel)
  unfolding find_by_key
  find_by_key-IsSound zero m v v' w h = ground arith
  find_by_key-IsSound (suc fuel) m v v' w h = elim (Bool-cases (has v m)) [
    | inl seen ↦ absurd (ground arith)
    | inr new ↦ elim (Option-cases (get_elem? heap m)) [
      | inl missing ↦ absurd (ground arith)
      | inr (r, at) ↦ elim (Option-cases (own_wrapper r)) [
        | inl not_own ↦
            let (i, listed, p) =
              search_imports_sound (find_by_key heap own_wrapper fuel) (find_by_key-IsSound fuel)
                r.imports (m ∷ v) v' w (ground arith) in
            Provides-step (record { importer = r; at_ = at; listed = listed }) p
        | inr (x, owned) ↦ record {
          owner = m;
          provider = r;
          reached = here;
          at_ = at;
          owns = ground arith;
        }
      ]
    ]
  ]
