-- ===== src/Core/Lifecycle/Once.antt =====
-- Which instances get their hooks, and how often.
use elysia_nest.Base.{
  ℕ, ◌+◌, ◌≡◌, refl, true, false, not, ◌&&◌, ◌||◌, some, List, [], ◌∷◌, ◌++◌, if◌then◌else◌, has,
  count, count-append, arith, beq_self, ◌==◌, Bool-cases, inl, inr, nat_eq, subst, nat_beq_iff,
}
use elysia_nest.Core.Lifecycle.{
  Hook, Hooks, Lifecycle, register_provider, init_instance, register_instance, init_instances,
  run_hook,
}

module _ (p : Hooks) where
  -- What was called and registered since the state `o` is what the flags that are new say.
  AreFlagged : Lifecycle → Lifecycle → ℕ → Type 0
  AreFlagged o s y =
      (count y s.providers + (if has o.registered y then 1 else 0)
        ≡ count y o.providers + (if has s.registered y then 1 else 0))
      × (count y s.inits + (if has o.init_called y then 1 else 0)
          ≡ count y o.inits + (if has s.init_called y then 1 else 0))
      × ((has s.init_called y && not (p.has_init y) && not (has o.init_called y)) ≡ false)
      × ((has o.init_called y && not (has s.init_called y)) ≡ false)

  abbrev inited : ℕ → Lifecycle → Lifecycle
  inited x s = record s { init_called = x ∷ s.init_called; inits = s.inits ++ x ∷ [] }

  abbrev with_init : ℕ → Lifecycle → Lifecycle
  with_init x s = if p.has_init x && not (has s.init_called x) then inited x s else s

  abbrev with_registration : ℕ → Lifecycle → Lifecycle
  with_registration x s =
      if not (has s.registered x)
      then register_provider x (record s { registered = x ∷ s.registered })
      else s

  with_all : List ℕ → Lifecycle → Lifecycle
  with_all [] s = s
  with_all (x ∷ xs) s = with_all xs (with_registration x (with_init x s))

  init_instance-ok :
      (x : ℕ) (s : Lifecycle)
      → p.takes_flags x ≡ true
      → p.init_throws x ≡ false
      → init_instance p x s ≡ some (with_init x s)
  unfolding init_instance
  init_instance-ok x s takes ok = elim (Bool-cases (p.has_init x && not (has s.init_called x))) [
    | inl e ↦ rw (e, takes, ok) refl
    | inr e ↦ rw e refl
  ]

  register_instance-ok :
      (x : ℕ) (s : Lifecycle)
      → p.takes_flags x ≡ true
      → register_instance p x s ≡ some (with_registration x s)
  unfolding register_instance
  register_instance-ok x s takes = elim (Bool-cases (not (has s.registered x))) [
    | inl e ↦ rw (e, takes) refl
    | inr e ↦ rw e refl
  ]

  init_instances-ok :
      (xs : List ℕ) (s : Lifecycle)
      → ((x : ℕ) → has xs x ≡ true → (p.takes_flags x ≡ true) × (p.init_throws x ≡ false))
      → init_instances p xs s ≡ some (with_all xs s)
  unfolding init_instances with_all
  init_instances-ok [] s h = refl
  init_instances-ok (x ∷ xs) s h =
      let (takes, ok) = h x (ground (arith, beq_self x)) in
      rw (init_instance-ok x s takes ok, register_instance-ok x (with_init x s) takes)
        (init_instances-ok xs _ (λ y m. h y (ground (arith, m))))

  with_init-AreFlagged :
      (x y : ℕ) (o s : Lifecycle) → AreFlagged o s y → AreFlagged o (with_init x s) y
  unfolding AreFlagged
  with_init-AreFlagged x y o s (a, b, c, d) =
      elim (Bool-cases (p.has_init x && not (has s.init_called x))) [
        | inl e ↦ rw e (
          a,
          ground (arith, b, count-append y s.inits (x ∷ []), nat_beq_iff x y),
          ground (arith, e, c, nat_beq_iff x y),
          ground (arith, d),
        )
        | inr e ↦ rw e (a, b, c, d)
      ]

  with_registration-AreFlagged :
      (x y : ℕ) (o s : Lifecycle) → AreFlagged o s y → AreFlagged o (with_registration x s) y
  unfolding AreFlagged register_provider
  with_registration-AreFlagged x y o s (a, b, c, d) = elim (Bool-cases (not (has s.registered x))) [
    | inl e ↦
        rw e (ground (arith, a, count-append y s.providers (x ∷ []), nat_beq_iff x y), b, c, d)
    | inr e ↦ rw e (a, b, c, d)
  ]

  with_all-AreFlagged :
      (xs : List ℕ) (y : ℕ) (o s : Lifecycle) → AreFlagged o s y → AreFlagged o (with_all xs s) y
  unfolding with_all
  with_all-AreFlagged [] y o s a = a
  with_all-AreFlagged (x ∷ xs) y o s a =
      with_all-AreFlagged xs y o (with_registration x (with_init x s))
        (with_registration-AreFlagged x y o (with_init x s) (with_init-AreFlagged x y o s a))

  -- An instance that is visited has its flags afterwards, and none is taken away.
  HasFlags : Lifecycle → ℕ → Type 0
  HasFlags s y = (has s.registered y ≡ true) × ((has s.init_called y || not (p.has_init y)) ≡ true)

  visited-HasFlags : (x : ℕ) (s : Lifecycle) → HasFlags (with_registration x (with_init x s)) x
  unfolding HasFlags register_provider
  visited-HasFlags x s = (ground (arith, beq_self x), ground (arith, beq_self x))

  kept-HasFlags :
      (x y : ℕ) (s : Lifecycle) → HasFlags s y → HasFlags (with_registration x (with_init x s)) y
  unfolding HasFlags register_provider
  kept-HasFlags x y s (a, b) = (ground (arith, a), ground (arith, b))

  with_all-keeps : (xs : List ℕ) (y : ℕ) (s : Lifecycle) → HasFlags s y → HasFlags (with_all xs s) y
  unfolding with_all
  with_all-keeps [] y s h = h
  with_all-keeps (x ∷ xs) y s h = with_all-keeps xs y _ (kept-HasFlags x y s h)

  with_all-HasFlags :
      (xs : List ℕ) (y : ℕ) (s : Lifecycle) → has xs y ≡ true → HasFlags (with_all xs s) y
  unfolding with_all
  with_all-HasFlags [] y s m = ground arith
  with_all-HasFlags (x ∷ xs) y s m = elim (Bool-cases (x == y)) [
    | inl e ↦ with_all-keeps xs y _ (
        subst (λ z. HasFlags (with_registration x (with_init x s)) z) ((nat_beq_iff x y).0 e)
          (visited-HasFlags x s))
    | inr e ↦ with_all-HasFlags xs y _ (ground (arith, m, e))
  ]

  count-run_hook :
      (h : Hook) (xs : List ℕ) (y : ℕ)
      → count y (run_hook p h xs).calls
        ≡ (if p.is_object y && p.has_hook h y then count y xs else 0)
  unfolding run_hook
  count-run_hook h [] y = ground arith
  count-run_hook h (x ∷ xs) y = elim (Bool-cases (p.is_object x && p.has_hook h x)) [
    | inl e ↦ rw e (ground (arith, e, nat_beq_iff x y, count-run_hook h xs y))
    | inr e ↦ rw e (ground (arith, e, nat_beq_iff x y, count-run_hook h xs y))
  ]

  -- If onModuleInit throws for none of the given instances and each of them takes flags, the pass
  -- ends in whatever state it starts. Of the given instances it calls onModuleInit once for those
  -- that have it and do not carry the flag of an earlier call, and for no other, and it registers
  -- once those that do not carry the flag of an earlier registration. A hook of the shutdown is then
  -- called for each given object that has it once more than it was registered before, if the pass
  -- registers it, however often it is given and whichever of these hooks throw.
  pub hooks_called_once :
      (xs : List ℕ) (h : Hook) (y : ℕ) (o : Lifecycle)
      → ((x : ℕ) → has xs x ≡ true → (p.takes_flags x ≡ true) × (p.init_throws x ≡ false))
      → has xs y ≡ true
      → (s : Lifecycle) × (init_instances p xs o ≡ some s)
        × (count y s.inits
            ≡ count y o.inits + (if p.has_init y && not (has o.init_called y) then 1 else 0))
        × (count y s.providers ≡ count y o.providers + (if has o.registered y then 0 else 1))
        × (count y (run_hook p h s.providers).calls ≡ (
            if p.is_object y && p.has_hook h y
            then count y o.providers + (if has o.registered y then 0 else 1)
            else 0))
  unfolding AreFlagged HasFlags
  hooks_called_once xs h y o ok m =
      let (registered, called) = with_all-HasFlags xs y o m in
      let (providers, inits, asked, kept) =
        with_all-AreFlagged xs y o o (refl, refl, ground arith, ground arith) in
      let listed : count y (with_all xs o).providers
          ≡ count y o.providers + (if has o.registered y then 0 else 1) =
        ground (arith, providers, registered) in
      (
        with_all xs o,
        init_instances-ok xs o ok,
        ground (arith, inits, called, asked, kept),
        listed,
        ground (arith, listed, count-run_hook h (with_all xs o).providers y),
      )
