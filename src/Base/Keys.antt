-- ===== src/Base/Keys.antt =====
-- Maps whose keys are distinct: the values that they hold, counted.
use Prim.Native.Nat.{ℕ, ◌+◌, ◌≤◌}
use mathlib.Core.Path.{◌≡◌, refl}
use mathlib.Core.Bool.{true}
use mathlib.Core.List.{List, [], ◌∷◌, ◌++◌}
use mathlib.Core.Option.{none, some}
use native.Mathlib.Omega.{arith}
use elysia_nest.Base.Tests.{Equality, ◌==◌, if◌then◌else◌, beq_self, nat_eq}
use elysia_nest.Base.Lists.{count, has}
use elysia_nest.Base.Maps.{Map, get, put, delete, get-put, get-delete}

-- `Map.values`
abbrev pub values {ℓ κ} : {K : Type ℓ} {V : Type κ} → Map K V → List V
values [] = []
values ((k, v) ∷ m) = v ∷ values m

module _ {ℓ κ} {K : Type ℓ} {V : Type κ} ⦃e : Equality K⦄ where
  abbrev pub HasDistinctKeys : Map K V → Type κ
  HasDistinctKeys [] = Unit
  HasDistinctKeys ((k, v) ∷ m) = (get m k ≡ none) × HasDistinctKeys m

  pub delete_absent : (m : Map K V) (k : K) → get m k ≡ none → delete m k ≡ m
  unfolding get delete
  delete_absent [] k h = refl
  delete_absent ((j, w) ∷ m) k h = ground (arith, delete_absent m k)

  pub delete-HasDistinctKeys :
      (m : Map K V) (k : K) → HasDistinctKeys m → HasDistinctKeys (delete m k)
  unfolding delete
  delete-HasDistinctKeys [] k h = tt
  delete-HasDistinctKeys ((j, w) ∷ m) k (h, hs) =
      ground (arith, get-delete m k j, delete-HasDistinctKeys m k hs)

  pub put-HasDistinctKeys :
      (m : Map K V) (k : K) (v : V) → HasDistinctKeys m → HasDistinctKeys (put m k v)
  unfolding get put
  put-HasDistinctKeys [] k v hs = (refl, tt)
  put-HasDistinctKeys ((j, w) ∷ m) k v (h, hs) =
      ground
        (arith, e.equal_iff j k, e.equal_iff k j, get-put m k v j, put-HasDistinctKeys m k v hs)

  pub values-put :
      (m : Map K V) (k : K) (v : V) → get m k ≡ none → values (put m k v) ≡ values m ++ v ∷ []
  unfolding get put
  values-put [] k v h = refl
  values-put ((j, w) ∷ m) k v h = ground (arith, values-put m k v)

module _ {ℓ} {K : Type ℓ} ⦃e : Equality K⦄ where
  pub count-delete :
      (m : Map K ℕ) (k : K) (v n : ℕ)
      → HasDistinctKeys m
      → get m k ≡ some v
      → count n (values m) ≡ (if v == n then 1 else 0) + count n (values (delete m k))
  unfolding get delete
  count-delete [] k v n hs h = ground arith
  count-delete ((j, w) ∷ m) k v n (absent, hs) h =
      ground (arith, e.equal_iff j k, delete_absent m j, count-delete m k v n hs)

  pub has-values : (m : Map K ℕ) (k : K) (v : ℕ) → get m k ≡ some v → has (values m) v ≡ true
  unfolding get
  has-values [] k v h = ground arith
  has-values ((j, w) ∷ m) k v h = ground (arith, beq_self v, has-values m k v)

pub count_of_has : (xs : List ℕ) (n : ℕ) → has xs n ≡ true → 1 ≤ count n xs
count_of_has [] n h = ground arith
count_of_has (x ∷ xs) n h = ground (arith, count_of_has xs n)
