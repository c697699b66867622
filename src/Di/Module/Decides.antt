-- ===== src/Di/Module/Decides.antt =====
-- `getProviderByKey` and `getControllerByKey` against reachability over imports.
use elysia_nest.Base.{
  ℕ, ◌+◌, ◌<◌, ◌≡◌, refl, ◌⊎◌, inl, inr, Option, none, some, List, [], arith, length, get_elem?,
  subst, sym,
}
use elysia_nest.Di.Wrapper.{Ref}
use elysia_nest.Di.Module.{Module, find_by_key, found, own_provider, get_provider_by_key}
use elysia_nest.Di.Module.Lookup.{ReachedFrom, Provides, find_by_key-IsSound, Search-cases}
use elysia_nest.Di.Module.Complete.{find_by_key-none}
use elysia_nest.Di.Module.Total.{find_by_key_returns}

module _ (heap : List Module) (own_wrapper : Module → Option ℕ) where
  -- Nothing that module `m` imports, itself included, owns a wrapper.
  abbrev pub OwnsNone : ℕ → Type 0
  OwnsNone m =
      (j : ℕ) (r : Module) → ReachedFrom heap j m → get_elem? heap j ≡ some r → own_wrapper r ≡ none

  abbrev pub Decides : ℕ → Option ℕ → Type 0
  Decides m o = ((w : ℕ) × (o ≡ some w) × Provides heap own_wrapper m w) ⊎ ((o ≡ none) × OwnsNone m)

  -- With a fuel above the number of modules the search returns: it finds a wrapper that the
  -- module or one that it imports owns, or finds nothing, and then none of them owns one.
  pub find_by_key-Decides :
      (fuel m : ℕ)
      → length heap < fuel
      → (v : List ℕ) × (o : Option ℕ) × (find_by_key heap own_wrapper fuel m [] ≡ some (v, o))
        × Decides m o
  find_by_key-Decides fuel m h = elim (Search-cases (find_by_key heap own_wrapper fuel m [])) [
    | inl e ↦
        let (r, returned) = find_by_key_returns heap own_wrapper fuel m h in absurd (ground arith)
    | inr (inl (v, w, e)) ↦
        (v, some w, e, inl (w, refl, find_by_key-IsSound heap own_wrapper fuel m [] v w e))
    | inr (inr (v, e)) ↦ (v, none, e, inr (refl, find_by_key-none heap own_wrapper fuel m v e))
  ]

-- `getProviderByKey` returns a wrapper that the module or one that it imports, in any number of
-- steps and with cycles among the imports, registers for the token; it returns nothing exactly
-- where none of them registers the token.
pub get_provider_by_key-Decides :
    (heap : List Module) (m : ℕ) (token : Ref)
    → Decides heap (own_provider token) m (get_provider_by_key heap m token)
unfolding get_provider_by_key
get_provider_by_key-Decides heap m token =
    let (v, o, e, d) =
      find_by_key-Decides heap (own_provider token) (length heap + 1) m (omega arith) in
    subst (λ s. Decides heap (own_provider token) m (found s)) (sym e) d
