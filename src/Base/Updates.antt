-- ===== src/Base/Updates.antt =====
-- A change of one entry of a list.
use Prim.Native.Nat.{ℕ, zero, suc}
use mathlib.Core.Path.{◌≡◌, refl, sym, ap}
use mathlib.Core.Logic.{◌≢◌, ◌⊎◌, inl, inr}
use mathlib.Core.List.{List, [], ◌∷◌}
use mathlib.Core.Option.{none, some}
use native.Mathlib.Omega.{arith}
use elysia_nest.Base.Lists.{get_elem?}

module _ {ℓ} {A : Type ℓ} where
  abbrev pub update : ℕ → (A → A) → List A → List A
  update n f [] = []
  update zero f (x ∷ xs) = f x ∷ xs
  update (suc n) f (x ∷ xs) = x ∷ update n f xs

  pub some_inj : (x y : A) → some x ≡ some y → y ≡ x
  some_inj x y e = sym (ap (λ o. elim o [ none ↦ x | some z ↦ z ]) e)

  pub get_elem?-update_self :
      (f : A → A) (n : ℕ) (xs : List A) (x : A)
      → get_elem? xs n ≡ some x
      → get_elem? (update n f xs) n ≡ some (f x)
  get_elem?-update_self f n [] x at = ground arith
  get_elem?-update_self f zero (y ∷ xs) x at =
      ap (λ o. elim o [ none ↦ none | some z ↦ some (f z) ]) at
  get_elem?-update_self f (suc n) (y ∷ xs) x at = get_elem?-update_self f n xs x at

  pub get_elem?-update_other :
      (f : A → A) (n : ℕ) (xs : List A) (m : ℕ)
      → m ≢ n
      → get_elem? (update n f xs) m ≡ get_elem? xs m
  get_elem?-update_other f n [] m h = refl
  get_elem?-update_other f zero (y ∷ xs) zero h = absurd (h refl)
  get_elem?-update_other f zero (y ∷ xs) (suc m) h = refl
  get_elem?-update_other f (suc n) (y ∷ xs) zero h = refl
  get_elem?-update_other f (suc n) (y ∷ xs) (suc m) h =
      get_elem?-update_other f n xs m (λ e. h (ap suc e))

  -- An entry after a change comes from one before it.
  pub update_from :
      (f : A → A) (n : ℕ) (xs : List A) (m : ℕ) (x : A)
      → get_elem? (update n f xs) m ≡ some x
      → (y : A) × (get_elem? xs m ≡ some y) × (((m ≡ n) × (x ≡ f y)) ⊎ ((m ≢ n) × (x ≡ y)))
  update_from f n [] m x at = ground arith
  update_from f zero (y ∷ xs) zero x at = (y, refl, inl (refl, some_inj (f y) x at))
  update_from f zero (y ∷ xs) (suc m) x at = (x, at, inr (λ e. omega arith, refl))
  update_from f (suc n) (y ∷ xs) zero x at = (x, at, inr (λ e. omega arith, refl))
  update_from f (suc n) (y ∷ xs) (suc m) x at =
      let (z, at', from) = update_from f n xs m x at in
      (
        z,
        at',
        elim from [
          | inl (e, same) ↦ inl (ap suc e, same)
          | inr (ne, same) ↦ inr (λ e. ne (omega arith), same)
        ],
      )
