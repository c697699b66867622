-- ===== src/Di/Module/Complete.antt =====
-- What a search over imported modules that finds nothing has seen.
use elysia_nest.Base.{
  ℕ, zero, suc, ◌≡◌, ◌⊎◌, inl, inr, true, Option, none, some, List, [], ◌∷◌, arith, has, subst,
  get_elem?, Bool-cases, Option-cases, nat_eq, nat_beq, nat_beq_iff,
}
use elysia_nest.Di.Module.{Module, Search, search_imports, find_by_key}
use elysia_nest.Di.Module.Lookup.{ReachedFrom, here, step, Search-cases}

module _ (heap : List Module) (own_wrapper : Module → Option ℕ) where
  -- `i` was visited, or is no module.
  abbrev IsSeen : List ℕ → ℕ → Type 0
  IsSeen v i = (has v i ≡ true) ⊎ (get_elem? heap i ≡ none)

  abbrev Within : List ℕ → List ℕ → Type 0
  Within v v' = (x : ℕ) → has v x ≡ true → has v' x ≡ true

  -- Module `u` owns nothing, and all its imports were seen.
  record IsClean (v : List ℕ) (u : ℕ) : Type 0 where
    owns_none : (r : Module) → get_elem? heap u ≡ some r → own_wrapper r ≡ none
    closed : (r : Module) (i : ℕ) → get_elem? heap u ≡ some r → has r.imports i ≡ true → IsSeen v i

  -- What a call that returned nothing leaves behind.
  record Missed (v v' : List ℕ) : Type 0 where
    grows : Within v v'
    clean : (u : ℕ) → has v' u ≡ true → (has v u ≡ true) ⊎ IsClean v' u

  IsSeen-Within : (v v' : List ℕ) (i : ℕ) → Within v v' → IsSeen v i → IsSeen v' i
  IsSeen-Within v v' i sub (inl h) = inl (sub i h)
  IsSeen-Within v v' i sub (inr h) = inr h

  IsClean-Within : (v v' : List ℕ) (u : ℕ) → Within v v' → IsClean v u → IsClean v' u
  IsClean-Within v v' u sub c = record {
    owns_none = c.owns_none;
    closed = λ r i at listed. IsSeen-Within v v' i sub (c.closed r i at listed);
  }

  Missed-same : (v v' : List ℕ) → v ≡ v' → Missed v v'
  Missed-same v v' e = subst (Missed v) e (record { grows = λ x h. h; clean = λ u h. inl h })

  Missed-trans : (v v' v'' : List ℕ) → Missed v v' → Missed v' v'' → Missed v v''
  Missed-trans v v' v'' a b = record {
    grows = λ x h. b.grows x (a.grows x h);
    clean = λ u h. elim (b.clean u h) [
      | inl old ↦ elim (a.clean u old) [
        | inl o ↦ inl o
        | inr c ↦ inr (IsClean-Within v' v'' u b.grows c)
      ]
      | inr c ↦ inr c
    ];
  }

  abbrev IsComplete : (ℕ → List ℕ → Search) → Type 0
  IsComplete find = (m : ℕ) (v v' : List ℕ) → find m v ≡ some (v', none) → Missed v v' × IsSeen v' m

  search_imports_complete :
      (find : ℕ → List ℕ → Search)
      → IsComplete find
      → (is v v' : List ℕ) → search_imports find is v ≡ some (v', none)
      → Missed v v' × ((i : ℕ) → has is i ≡ true → IsSeen v' i)
  unfolding search_imports
  search_imports_complete find complete [] v v' h =
      (Missed-same v v' (ground arith), λ i k. absurd (ground arith))
  search_imports_complete find complete (i ∷ is) v v' h = elim (Search-cases (find i v)) [
    | inl e ↦ absurd (ground arith)
    | inr (inl (u, x, e)) ↦ absurd (ground arith)
    | inr (inr (u, e)) ↦
        let (first, seen) = complete i v u e in
        let (rest, all) = search_imports_complete find complete is u v' (ground arith) in
        (
          Missed-trans v u v' first rest,
          λ j k. elim (Bool-cases (nat_beq i j)) [
            | inl same ↦
                subst (IsSeen v') ((nat_beq_iff i j).0 same) (IsSeen-Within u v' i rest.grows seen)
            | inr other ↦ all j (ground arith)
          ],
        )
  ]

  own-IsClean :
      (m : ℕ) (v' : List ℕ) (r : Module)
      → get_elem? heap m ≡ some r
      → own_wrapper r ≡ none
      → ((i : ℕ) → has r.imports i ≡ true → IsSeen v' i)
      → IsClean v' m
  own-IsClean m v' r at not_own all = record {
    owns_none = λ q at_q. let e : r ≡ q = cc in subst (λ x. own_wrapper x ≡ none) e not_own;
    closed = λ q i at_q k. let e : q ≡ r = cc in all i (subst (λ x. has x.imports i ≡ true) e k);
  }

  find_by_key-IsComplete : (fuel : ℕ) → IsComplete (find_by_key heap own_wrapper fuel)
  unfolding find_by_key
  find_by_key-IsComplete zero m v v' h = absurd (ground arith)
  find_by_key-IsComplete (suc fuel) m v v' h = elim (Bool-cases (has v m)) [
    | inl seen ↦ (Missed-same v v' (ground arith), inl (ground arith))
    | inr new ↦ elim (Option-cases (get_elem? heap m)) [
      | inl missing ↦ (Missed-same v v' (ground arith), inr missing)
      | inr (r, at) ↦ elim (Option-cases (own_wrapper r)) [
        | inl not_own ↦
            let (rest, all) =
              search_imports_complete (find_by_key heap own_wrapper fuel)
                (find_by_key-IsComplete fuel) r.imports (m ∷ v) v' (ground arith) in
            (
              record {
                grows = λ x k. rest.grows x (ground arith);
                clean = λ u k. elim (rest.clean u k) [
                  | inl old ↦ elim (Bool-cases (nat_beq m u)) [
                    | inl same ↦ inr (
                        subst (IsClean v') ((nat_beq_iff m u).0 same)
                          (own-IsClean m v' r at not_own all))
                    | inr other ↦ inl (ground arith)
                  ]
                  | inr c ↦ inr c
                ];
              },
              inl (rest.grows m (ground (arith, nat_beq_iff m m))),
            )
        | inr (x, owned) ↦ absurd (ground arith)
      ]
    ]
  ]

  module _ (m : ℕ) (v' : List ℕ) (missed : Missed [] v') where
    seen-IsClean : (u : ℕ) → has v' u ≡ true → IsClean v' u
    seen-IsClean u k = elim (missed.clean u k) [ inl old ↦ absurd (ground arith) | inr c ↦ c ]

    reached_is_clean :
        (j i : ℕ) (r : Module)
        → ReachedFrom heap j i
        → IsSeen v' i
        → get_elem? heap j ≡ some r
        → own_wrapper r ≡ none
    reached_is_clean j i r here (inl seen) at = (seen-IsClean j seen).owns_none r at
    reached_is_clean j i r here (inr gone) at = absurd (cc)
    reached_is_clean j i r (step {j = k} edge path) (inl seen) at =
        reached_is_clean j k r path
          ((seen-IsClean i seen).closed edge.importer k edge.at_ edge.listed) at
    reached_is_clean j i r (step edge path) (inr gone) at = absurd (cc edge.at_)

  -- Where the search finds nothing, no module that the first one imports owns a wrapper.
  pub find_by_key-none :
      (fuel m : ℕ) (v' : List ℕ)
      → find_by_key heap own_wrapper fuel m [] ≡ some (v', none)
      → (j : ℕ) (r : Module) → ReachedFrom heap j m
      → get_elem? heap j ≡ some r
      → own_wrapper r ≡ none
  find_by_key-none fuel m v' h j r path at =
      let (missed, seen) = find_by_key-IsComplete fuel m [] v' h in
      reached_is_clean m v' missed j m r path seen at
