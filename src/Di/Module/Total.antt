-- ===== src/Di/Module/Total.antt =====
-- The search over imported modules ends: each call but the last visits a new module.
use elysia_nest.Base.{
  subst, ℕ, zero, suc, ◌+◌, ◌≤◌, ◌<◌, ◌≡◌, refl, inl, inr, true, false, Option, none, some, List,
  [], ◌∷◌, arith, has, length, get_elem?, lt-length_of_get_elem?, Bool-cases, Option-cases,
  if◌then◌else◌, nat_eq, nat_beq, nat_beq_iff,
}
use elysia_nest.Di.Module.{Module, Search, search_imports, find_by_key}
use elysia_nest.Di.Module.Lookup.{Search-cases}

-- The numbers below `n` that are not in `v`.
unvisited : ℕ → List ℕ → ℕ
unvisited zero v = 0
unvisited (suc n) v = (if has v n then 0 else 1) + unvisited n v

abbrev Within : List ℕ → List ℕ → Type 0
Within v v' = (x : ℕ) → has v x ≡ true → has v' x ≡ true

unvisited-Within : (n : ℕ) (v v' : List ℕ) → Within v v' → unvisited n v' ≤ unvisited n v
unfolding unvisited
unvisited-Within zero v v' sub = omega arith
unvisited-Within (suc n) v v' sub = ground (arith, sub n, unvisited-Within n v v' sub)

unvisited-cons :
    (n m : ℕ) (v : List ℕ) → has v m ≡ false → m < n → unvisited n (m ∷ v) < unvisited n v
unfolding unvisited
unvisited-cons zero m v new h = absurd (omega arith)
unvisited-cons (suc n) m v new h = elim (Bool-cases (nat_beq m n)) [
  | inl same ↦
      let e = (nat_beq_iff m n).0 same in
      ground (arith, unvisited-Within n v (m ∷ v) (λ x k. ground arith))
  | inr other ↦ ground (arith, nat_beq_iff m n, unvisited-cons n m v new)
]

unvisited-nil : (n : ℕ) → unvisited n [] ≡ n
unfolding unvisited
unvisited-nil zero = refl
unvisited-nil (suc n) = omega (arith, unvisited-nil n)

module _ (heap : List Module) (own_wrapper : Module → Option ℕ) where
  -- The call returns, and the visited set only grows.
  record Returns (s : Search) (v : List ℕ) : Type 0 where
    result : List ℕ × Option ℕ
    returned : s ≡ some result
    grows : Within v result.0

  abbrev IsTotal : (ℕ → List ℕ → Search) → ℕ → Type 0
  IsTotal find bound =
      (m : ℕ) (v : List ℕ) → unvisited (length heap) v < bound → Returns (find m v) v

  search_imports_total :
      (find : ℕ → List ℕ → Search) (bound : ℕ)
      → IsTotal find bound
      → (is v : List ℕ) → unvisited (length heap) v < bound
      → Returns (search_imports find is v) v
  unfolding search_imports
  search_imports_total find bound total [] v h = record {
    result = (v, none);
    returned = refl;
    grows = λ x k. k;
  }
  search_imports_total find bound total (i ∷ is) v h =
      let first = total i v h in
      elim (Search-cases (find i v)) [
        | inl e ↦ absurd (ground (arith, first.returned))
        | inr (inl (u, w, e)) ↦ record {
          result = (u, some w);
          returned = ground arith;
          grows = λ x k.
              let q : first.result ≡ (u, some w) = ground (arith, first.returned) in
              subst (λ (p : List ℕ × Option ℕ). has p.0 x ≡ true) q (first.grows x k);
        }
        | inr (inr (u, e)) ↦
            let q : first.result ≡ (u, none) = ground (arith, first.returned) in
            let sub : Within v u =
              λ x k. subst (λ (p : List ℕ × Option ℕ). has p.0 x ≡ true) q (first.grows x k) in
            let rest =
              search_imports_total find bound total is u
                (omega (arith, unvisited-Within (length heap) v u sub)) in
            record {
              result = rest.result;
              returned = ground (arith, rest.returned);
              grows = λ x k. rest.grows x (sub x k);
            }
      ]

  find_by_key-IsTotal : (fuel : ℕ) → IsTotal (find_by_key heap own_wrapper fuel) fuel
  unfolding find_by_key
  find_by_key-IsTotal zero m v h = absurd (omega arith)
  find_by_key-IsTotal (suc fuel) m v h = elim (Bool-cases (has v m)) [
    | inl seen ↦ record { result = (v, none); returned = ground arith; grows = λ x k. k }
    | inr new ↦ elim (Option-cases (get_elem? heap m)) [
      | inl missing ↦ record { result = (v, none); returned = ground arith; grows = λ x k. k }
      | inr (r, at) ↦ elim (Option-cases (own_wrapper r)) [
        | inl not_own ↦
            let fewer = unvisited-cons (length heap) m v new (lt-length_of_get_elem? heap m at) in
            let rest =
              search_imports_total (find_by_key heap own_wrapper fuel) fuel
                (find_by_key-IsTotal fuel) r.imports (m ∷ v) (omega arith) in
            record {
              result = rest.result;
              returned = ground (arith, rest.returned);
              grows = λ x k. rest.grows x (ground arith);
            }
        | inr (w, owned) ↦ record {
          result = (m ∷ v, some w);
          returned = ground arith;
          grows = λ x k. ground arith;
        }
      ]
    ]
  ]

  -- With a fuel above the number of modules the search returns.
  pub find_by_key_returns :
      (fuel m : ℕ)
      → length heap < fuel
      → (r : List ℕ × Option ℕ) × (find_by_key heap own_wrapper fuel m [] ≡ some r)
  find_by_key_returns fuel m h =
      let run = find_by_key-IsTotal fuel m [] (omega (arith, unvisited-nil (length heap))) in
      (run.result, run.returned)
