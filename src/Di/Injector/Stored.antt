-- ===== src/Di/Injector/Stored.antt =====
-- Storing a new instance, and leaving the chain.
use elysia_nest.Base.{
  ℕ, ◌≡◌, refl, sym, ap, subst, ◌∙◌, inl, inr, true, false, some, List, [], ◌∷◌, ◌++◌, arith, get,
  get-put, has, has-append, get_elem?, set, get_elem?-set_self, get_elem?-set_ne,
  lt-length_of_get_elem?, Bool-cases, nat_eq, nat_beq, nat_beq_iff, count, count-append,
}
use elysia_nest.Di.Wrapper.{
  Value, Slot, shared, own, InstanceWrapper, is_singleton_scope, set_instance_by_context_id,
}
use elysia_nest.Di.Injector.{State, store_instance, pop}
use elysia_nest.Di.Injector.Advances.{IsOnce, Advances}

pop-append : (xs : List ℕ) (x : ℕ) → pop (xs ++ x ∷ []) ≡ xs
pop-append [] x = refl
pop-append (y ∷ []) x = refl
pop-append (y ∷ z ∷ xs) x = ap (λ l. y ∷ l) (pop-append (z ∷ xs) x)

abbrev pub pushed : State → ℕ → State
pushed s w = record s { chain = s.chain ++ w ∷ [] }

abbrev pub unpushed : State → State
unpushed s = record s { chain = pop s.chain }

store_instance_at :
    (w c : ℕ) (slot : Slot) (v : Value) (t : State) (x : InstanceWrapper)
    → get_elem? t.wrappers w ≡ some x
    → store_instance w c slot v t ≡ record {
      wrappers = set t.wrappers w (set_instance_by_context_id x c slot v);
      chain = t.chain;
      created = t.created ++ w ∷ [];
    }
unfolding store_instance
store_instance_at w c slot v t x at = ground arith

-- The object that a store writes.
stored_fields :
    (x : InstanceWrapper) (c : ℕ) (v : Value)
    → ((set_instance_by_context_id x c shared v).scope ≡ x.scope)
      × ((set_instance_by_context_id x c shared v).static_value.is_resolved ≡ true)
      × ((d : ℕ) (slot : Slot)
          → ((u : Slot) → get x.values d ≡ some u → u ≡ shared)
          → get (set_instance_by_context_id x c shared v).values d ≡ some slot
          → slot ≡ shared)
unfolding set_instance_by_context_id
stored_fields x c v =
    (refl, refl, λ d slot only h. ground (arith, get-put x.values c shared d, only slot))

stored_scope :
    (x : InstanceWrapper) (c : ℕ) (slot : Slot) (v : Value)
    → (set_instance_by_context_id x c slot v).scope ≡ x.scope
unfolding set_instance_by_context_id
stored_scope x c shared v = refl
stored_scope x c (own i) v = refl

-- Where the slot is not the static object, or that object was unresolved before.
stored_static :
    (x : InstanceWrapper) (c : ℕ) (slot : Slot) (v : Value)
    → (slot ≡ shared → x.static_value.is_resolved ≡ false)
    → x.static_value.is_resolved ≡ true
    → (set_instance_by_context_id x c slot v).static_value ≡ x.static_value
unfolding set_instance_by_context_id
stored_static x c shared v unresolved h = absurd (cc (unresolved refl))
stored_static x c (own i) v unresolved h = refl

-- What is known where an instance is about to be stored for the wrapper `w`: `s` is the state
-- before `w` joined the chain, `t` the one after its parameters were resolved.
module _ (w c : ℕ) (x : InstanceWrapper) (slot : Slot) (s t : State)
    (at : get_elem? s.wrappers w ≡ some x) (absent : has s.chain w ≡ false)
    (run : Advances (pushed s w) t) where
  in_chain : (v : ℕ) → has s.chain v ≡ true → has (pushed s w).chain v ≡ true
  in_chain v h = ground (arith, has-append s.chain (w ∷ []) v)

  w_in_chain : has (pushed s w).chain w ≡ true
  w_in_chain = ground (arith, has-append s.chain (w ∷ []) w, nat_beq_iff w w)

  -- The run failed, or ended with no instance.
  pub Advances-unpushed : Advances s (unpushed t)
  Advances-unpushed = record {
    chain = ap pop run.chain ∙ pop-append s.chain w;
    kept = λ v y at_y.
        let (y', at', scope, same, under) = run.kept v y at_y in
        (y', at', scope, same, λ h. under (in_chain v h));
    frame = λ v h. run.frame v (in_chain v h);
    once = λ o.
        let o' = run.once (record { counted = o.counted; shared_only = o.shared_only }) in
        record { counted = o'.counted; shared_only = o'.shared_only };
  }

  module _ (v : Value) (unresolved : slot ≡ shared → x.static_value.is_resolved ≡ false)
      (single : is_singleton_scope x.scope ≡ true → IsOnce s → slot ≡ shared) where
    -- The wrapper as the store finds it, and as it leaves it.
    abbrev before : InstanceWrapper
    before = (run.kept w x at).0

    abbrev after : InstanceWrapper
    after = set_instance_by_context_id before c slot v

    same_static : before.static_value ≡ x.static_value
    same_static = (run.kept w x at).4 w_in_chain

    unresolved_before : slot ≡ shared → before.static_value.is_resolved ≡ false
    unresolved_before e = ap (λ i. i.is_resolved) same_static ∙ unresolved e

    abbrev stored : State
    stored = record {
      wrappers = set t.wrappers w after;
      chain = pop t.chain;
      created = t.created ++ w ∷ [];
    }

    at_self : get_elem? stored.wrappers w ≡ some after
    at_self =
        get_elem?-set_self t.wrappers w after
          (lt-length_of_get_elem? t.wrappers w (run.kept w x at).1)

    at_other : (u : ℕ) → nat_beq w u ≡ false → get_elem? stored.wrappers u ≡ get_elem? t.wrappers u
    at_other u other = get_elem?-set_ne t.wrappers w u after (λ e. cc ((nat_beq_iff w u).1 e))

    created_other : (u : ℕ) → nat_beq w u ≡ false → count u stored.created ≡ count u t.created
    created_other u other = ground (arith, count-append u t.created (w ∷ []))

    stored_kept :
        (u : ℕ) (y : InstanceWrapper)
        → get_elem? s.wrappers u ≡ some y
        → (y' : InstanceWrapper) × (get_elem? stored.wrappers u ≡ some y')
          × (y'.scope ≡ y.scope)
          × (y.static_value.is_resolved ≡ true → y'.static_value ≡ y.static_value)
          × (has s.chain u ≡ true → y'.static_value ≡ y.static_value)
    stored_kept u y at_y = elim (Bool-cases (nat_beq w u)) [
      | inl here ↦
          let e = (nat_beq_iff w u).0 here in
          let y_is : y ≡ x = cc in
          (
            after,
            subst (λ i. get_elem? stored.wrappers i ≡ some after) e at_self,
            stored_scope before c slot v ∙ (run.kept w x at).2 ∙ ap (λ q. q.scope) (sym y_is),
            λ h.
                let resolved : before.static_value.is_resolved ≡ true =
                  ap (λ i. i.is_resolved) same_static
                  ∙ ap (λ q. q.static_value.is_resolved) (sym y_is)
                  ∙ h in
                stored_static before c slot v unresolved_before resolved
                ∙ same_static
                ∙ ap (λ q. q.static_value) (sym y_is),
            λ h. absurd (cc absent),
          )
      | inr other ↦
          let (y', at', scope, same, under) = run.kept u y at_y in
          (y', at_other u other ∙ at', scope, same, λ h. under (in_chain u h))
    ]

    stored_once : IsOnce s → IsOnce stored
    stored_once o =
        let o' = run.once (record { counted = o.counted; shared_only = o.shared_only }) in
        let is_shared : is_singleton_scope after.scope ≡ true → slot ≡ shared = λ k.
          single
            (subst (λ q. is_singleton_scope q ≡ true)
              (stored_scope before c slot v ∙ (run.kept w x at).2) k)
            o in
        record {
          counted = λ u y at_y k. elim (Bool-cases (nat_beq w u)) [
            | inl here ↦
                let e = (nat_beq_iff w u).0 here in
                let y_is : y ≡ after = cc at_self in
                let k' = subst (λ q. is_singleton_scope q.scope ≡ true) y_is k in
                let e_slot = is_shared k' in
                let none_yet = o.counted w x at (
                  subst (λ q. is_singleton_scope q ≡ true)
                    (stored_scope before c slot v ∙ (run.kept w x at).2) k') in
                let now : y.static_value.is_resolved ≡ true =
                  ap (λ q. q.static_value.is_resolved) y_is
                  ∙ ap (λ q. (set_instance_by_context_id before c q v).static_value.is_resolved)
                      e_slot
                  ∙ (stored_fields before c v).1 in
                ground (
                  arith,
                  count-append w t.created (w ∷ []),
                  run.frame w w_in_chain,
                  unresolved e_slot,
                  nat_beq_iff w w,
                )
            | inr other ↦
                rw (created_other u other) (o'.counted u y (sym (at_other u other) ∙ at_y) k)
          ];
          shared_only = λ u d y q at_y k h. elim (Bool-cases (nat_beq w u)) [
            | inl here ↦
                let e = (nat_beq_iff w u).0 here in
                let y_is : y ≡ after = cc at_self in
                let k' = subst (λ z. is_singleton_scope z.scope ≡ true) y_is k in
                let y_form : y ≡ set_instance_by_context_id before c shared v =
                  y_is ∙ ap (λ z. set_instance_by_context_id before c z v) (is_shared k') in
                (stored_fields before c v).2 d q
                  (λ z hz.
                    o'.shared_only w d before z (run.kept w x at).1
                      (subst (λ z'. is_singleton_scope z' ≡ true) (stored_scope before c slot v) k')
                      hz)
                  (subst (λ z. get z.values d ≡ some q) y_form h)
            | inr other ↦ o'.shared_only u d y q (sym (at_other u other) ∙ at_y) k h
          ];
        }

    pub Advances-stored : Advances s (unpushed (store_instance w c slot v t))
    Advances-stored =
        subst (λ q. Advances s (unpushed q))
          (sym (store_instance_at w c slot v t before (run.kept w x at).1))
          (record {
            chain = ap pop run.chain ∙ pop-append s.chain w;
            kept = stored_kept;
            frame = λ u h. elim (Bool-cases (nat_beq w u)) [
              | inl here ↦ absurd (cc (absent, ap (has s.chain) ((nat_beq_iff w u).0 here)))
              | inr other ↦ created_other u other ∙ run.frame u (in_chain u h)
            ];
            once = stored_once;
          })
