-- ===== src/Di/Injector/Advances.antt =====
-- What every part of a resolution keeps: the chain, the instances that are resolved, and the
-- count of instances made for the wrappers that are under construction.
use elysia_nest.Base.{
  ℕ, ◌+◌, ◌≤◌, ◌≡◌, refl, sym, ap, subst, ◌∙◌, inl, inr, Bool, true, false, Option, none, some,
  List, [], ◌∷◌, arith, get, has, get_elem?, set, get_elem?-set_self, get_elem?-set_ne,
  lt-length_of_get_elem?, Bool-cases, Option-cases, if◌then◌else◌, nat_eq, nat_beq, nat_beq_iff,
  count,
}
use elysia_nest.Di.Wrapper.{
  Ref, Value, TokenRef, resolved_token, Slot, shared, InstanceWrapper, is_singleton_scope,
  get_instance_by_context_id, is_dependency_tree_static,
}
use elysia_nest.Di.Injector.{
  Env, State, Result, ok, fail, out_of_fuel, Exec, enter_context, Param, resolve_params,
  resolve_token, and_then, guarded,
}

-- At most one instance was made for a singleton, and none while its wrapper is unresolved.
pub record IsOnce (s : State) : Type 0 where
  pub counted :
      (w : ℕ) (x : InstanceWrapper)
      → get_elem? s.wrappers w ≡ some x
      → is_singleton_scope x.scope ≡ true
      → count w s.created ≤ (if x.static_value.is_resolved then 1 else 0)
  pub shared_only :
      (w c : ℕ) (x : InstanceWrapper) (slot : Slot)
      → get_elem? s.wrappers w ≡ some x
      → is_singleton_scope x.scope ≡ true
      → get x.values c ≡ some slot
      → slot ≡ shared

pub record Advances (s s' : State) : Type 0 where
  pub chain : s'.chain ≡ s.chain
  pub kept :
      (w : ℕ) (x : InstanceWrapper)
      → get_elem? s.wrappers w ≡ some x
      → (x' : InstanceWrapper) × (get_elem? s'.wrappers w ≡ some x')
        × (x'.scope ≡ x.scope)
        × (x.static_value.is_resolved ≡ true → x'.static_value ≡ x.static_value)
        × (has s.chain w ≡ true → x'.static_value ≡ x.static_value)
  pub frame : (w : ℕ) → has s.chain w ≡ true → count w s'.created ≡ count w s.created
  pub once : IsOnce s → IsOnce s'

pub Advances-refl : (s : State) → Advances s s
Advances-refl s = record {
  chain = refl;
  kept = λ w x at. (x, at, refl, λ h. refl, λ h. refl);
  frame = λ w h. refl;
  once = λ o. o;
}

pub Advances-trans : (a b c : State) → Advances a b → Advances b c → Advances a c
Advances-trans a b c p q = record {
  chain = q.chain ∙ p.chain;
  kept = λ w x at.
      let (y, at_y, scope, same, under) = p.kept w x at in
      let (z, at_z, scope', same', under') = q.kept w y at_y in
      (
        z,
        at_z,
        scope' ∙ scope,
        λ h. same' (rw (same h) h) ∙ same h,
        λ h. under' (rw p.chain h) ∙ under h,
      );
  frame = λ w h. q.frame w (rw p.chain h) ∙ p.frame w h;
  once = λ o. q.once (p.once o);
}

-- `getInstanceByContextId` changes the map of contexts alone.
pub get_instance_fields :
    (has_prototype : Ref → Bool) (x : InstanceWrapper) (c : ℕ)
    → ((get_instance_by_context_id has_prototype x c).0.static_value ≡ x.static_value)
      × ((get_instance_by_context_id has_prototype x c).0.scope ≡ x.scope)
unfolding get_instance_by_context_id is_dependency_tree_static
get_instance_fields has_prototype x c = ground arith

-- For a singleton whose contexts share the static object it changes nothing.
pub get_instance_singleton :
    (has_prototype : Ref → Bool) (x : InstanceWrapper) (c : ℕ)
    → is_singleton_scope x.scope ≡ true
    → ((slot : Slot) → get x.values c ≡ some slot → slot ≡ shared)
    → get_instance_by_context_id has_prototype x c ≡ (x, shared)
unfolding get_instance_by_context_id is_dependency_tree_static
get_instance_singleton has_prototype x c h only = elim (Option-cases (get x.values c)) [
  | inl e ↦ ground arith
  | inr (slot, e) ↦ ground (arith, only slot e)
]

-- A change of one wrapper that leaves its scope and static object alone.
pub Advances-set :
    (s : State) (w : ℕ) (x x' : InstanceWrapper)
    → get_elem? s.wrappers w ≡ some x
    → x'.static_value ≡ x.static_value
    → x'.scope ≡ x.scope
    → (is_singleton_scope x.scope ≡ true → IsOnce s → x' ≡ x)
    → Advances s (record s { wrappers = set s.wrappers w x' })
Advances-set s w x x' at same scope single = record {
  chain = refl;
  kept = λ v y at_y. elim (Bool-cases (nat_beq w v)) [
    | inl here ↦
        let e = (nat_beq_iff w v).0 here in
        let y_is : y ≡ x = cc in
        (
          x',
          subst (λ i. get_elem? (set s.wrappers w x') i ≡ some x') e
              (get_elem?-set_self s.wrappers w x' (lt-length_of_get_elem? s.wrappers w at)),
          cc,
          λ h. cc,
          λ h. cc,
        )
    | inr other ↦ (
      y,
      get_elem?-set_ne s.wrappers w v x' (λ e. cc ((nat_beq_iff w v).1 e)) ∙ at_y,
      refl,
      λ h. refl,
      λ h. refl,
    )
  ];
  frame = λ v h. refl;
  once = λ o.
      let back : (v : ℕ) (y : InstanceWrapper)
          → get_elem? (set s.wrappers w x') v ≡ some y
          → is_singleton_scope y.scope ≡ true
          → get_elem? s.wrappers v ≡ some y =
        λ v y at_y k. elim (Bool-cases (nat_beq w v)) [
          | inl here ↦
              let e = (nat_beq_iff w v).0 here in
              let y_is : y ≡ x' =
                cc (get_elem?-set_self s.wrappers w x' (lt-length_of_get_elem? s.wrappers w at)) in
              cc (
                single (subst (λ q. is_singleton_scope q ≡ true) (ap (λ q. q.scope) y_is ∙ scope) k)
                  o)
          | inr other ↦
              sym (get_elem?-set_ne s.wrappers w v x' (λ e. cc ((nat_beq_iff w v).1 e))) ∙ at_y
        ] in
      record {
        counted = λ v y at_y k. o.counted v y (back v y at_y k) k;
        shared_only = λ v c y slot at_y k. o.shared_only v c y slot (back v y at_y k) k;
      };
}

pub Advances-enter_context :
    (env : Env) (w : ℕ) (x : InstanceWrapper) (c : ℕ) (s : State)
    → get_elem? s.wrappers w ≡ some x
    → Advances s (enter_context env w x c s).0
unfolding enter_context
Advances-enter_context env w x c s at =
    let (same, scope) = get_instance_fields env.has_prototype x c in
    Advances-set s w x (get_instance_by_context_id env.has_prototype x c).0 at same scope
      (λ single o.
        ap (λ (p : InstanceWrapper × Slot). p.0)
          (get_instance_singleton env.has_prototype x c single
            (λ slot e. o.shared_only w c x slot at single e)))

-- A property of the states in which a step and what follows it may end.
pub and_then_ends {ℓ} :
    {A B : Type 0} (P : State → Type ℓ) (r : Result A) (k : A → Result B × State) (s : State)
    → P s
    → ((a : A) → P (k a).1)
    → P (and_then r k s).1
and_then_ends P (ok a) k s h next = next a
and_then_ends P (fail e) k s h next = h
and_then_ends P out_of_fuel k s h next = h

guarded-state :
    (owner i : ℕ) (token : Ref) (optional : Bool) (r : Result Value) (s : State)
    → (guarded owner i token optional r s).1 ≡ s
guarded-state owner i token optional (ok v) s = refl
guarded-state owner i token optional (fail e) s = ground arith
guarded-state owner i token optional out_of_fuel s = refl

module _ (resolve : Ref → Exec Value)
    (steps : (t : Ref) (s : State) → Advances s (resolve t s).1) where
  Advances-resolve_token :
      (owner i : ℕ) (t : Option TokenRef) (optional : Bool) (s : State)
      → Advances s (resolve_token resolve owner i t optional s).1
  Advances-resolve_token owner i none true s = Advances-refl s
  Advances-resolve_token owner i none false s = Advances-refl s
  Advances-resolve_token owner i (some t) optional s =
      let (r, s') = resolve (resolved_token t) s in
      subst (Advances s) (sym (guarded-state owner i (resolved_token t) optional r s'))
        (steps (resolved_token t) s)

  pub Advances-resolve_params :
      (owner i : ℕ) (ps : List Param) (s : State)
      → Advances s (resolve_params resolve owner i ps s).1
  unfolding resolve_params
  Advances-resolve_params owner i [] s = Advances-refl s
  Advances-resolve_params owner i (p ∷ ps) s =
      let (r, s1) = resolve_token resolve owner i p.token p.optional s in
      let first = Advances-resolve_token owner i p.token p.optional s in
      and_then_ends (Advances s) r _ s1 first (λ v.
        let (rs, s2) = resolve_params resolve owner (i + 1) ps s1 in
        let both = Advances-trans s s1 s2 first (Advances-resolve_params owner (i + 1) ps s1) in
        and_then_ends (Advances s) rs (λ vs. (ok (v ∷ vs), s2)) s2 both (λ vs. both))
