-- ===== src/Di/Injector/Once.antt =====
-- Every resolution restores the chain, and makes at most one instance for a singleton.
use elysia_nest.Base.{
  ℕ, zero, suc, ◌≡◌, refl, sym, ap, subst, inl, inr, Bool, true, false, Option, none, some, List,
  arith, get, has, get_elem?, get_elem?-set_self, lt-length_of_get_elem?, Bool-cases, Option-cases,
  nat_eq, ◌==◌, index_of, index_of-none,
}
use elysia_nest.Di.Wrapper.{
  Ref, Value, Slot, shared, InstanceWrapper, is_singleton_scope, get_instance_by_context_id,
  read_slot, is_resolved_in, is_dependency_tree_static, undefined,
}
use elysia_nest.Di.Module.{Module}
use elysia_nest.Di.Injector.{
  Env, State, Result, ok, fail, out_of_fuel, Exec, enter_context, read_instance, build_instance,
  load_wrapper, store_result, wrapper_params, resolve_params, find_provider,
}
use elysia_nest.Di.Injector.Resolve.{resolve_dependency, alias_of, host_or, read_loaded}
use elysia_nest.Di.Injector.Advances.{
  IsOnce, Advances, Advances-refl, Advances-trans, Advances-enter_context, Advances-resolve_params,
  and_then_ends, get_instance_fields, get_instance_singleton,
}
use elysia_nest.Di.Injector.Stored.{pushed, unpushed, Advances-unpushed, Advances-stored}

get_instance_same :
    (has_prototype : Ref → Bool) (x : InstanceWrapper) (c : ℕ)
    → is_singleton_scope x.scope ≡ true
    → (get_instance_by_context_id has_prototype x c).0 ≡ x
unfolding get_instance_by_context_id is_dependency_tree_static
get_instance_same has_prototype x c h = elim (Option-cases (get x.values c)) [
  | inl e ↦ ground arith
  | inr (slot, e) ↦ ground arith
]

-- What `enter_context` leaves for the wrapper, and the slot that it returns.
entered :
    (env : Env) (w : ℕ) (x : InstanceWrapper) (c : ℕ) (s : State)
    → get_elem? s.wrappers w ≡ some x
    → (x' : InstanceWrapper) × (get_elem? (enter_context env w x c s).0.wrappers w ≡ some x')
      × (is_resolved_in env.has_prototype x c ≡ false
          → (enter_context env w x c s).1 ≡ shared
          → x'.static_value.is_resolved ≡ false)
      × (is_singleton_scope x'.scope ≡ true
          → IsOnce (enter_context env w x c s).0
          → (enter_context env w x c s).1 ≡ shared)
unfolding enter_context is_resolved_in
entered env w x c s at =
    let x' = (get_instance_by_context_id env.has_prototype x c).0 in
    let slot = (get_instance_by_context_id env.has_prototype x c).1 in
    let (same, scope) = get_instance_fields env.has_prototype x c in
    let at' = get_elem?-set_self s.wrappers w x' (lt-length_of_get_elem? s.wrappers w at) in
    (
      x',
      at',
      λ unresolved e. subst (λ q. (read_slot x' q).is_resolved ≡ false) e unresolved,
      λ single o.
          let single_x = subst (λ q. is_singleton_scope q ≡ true) scope single in
          let x_is = get_instance_same env.has_prototype x c single_x in
          ap (λ (p : InstanceWrapper × Slot). p.1)
            (get_instance_singleton env.has_prototype x c single_x (λ q e.
              o.shared_only w c x' q at' single
                (subst (λ z. get z.values c ≡ some q) (sym x_is) e))),
    )

module _ (env : Env) (resolve : Ref → Exec Value)
    (steps : (t : Ref) (s : State) → Advances s (resolve t s).1) where
  module _ (w c : ℕ) (x y : InstanceWrapper) (slot : Slot) (s : State)
      (at : get_elem? s.wrappers w ≡ some x) (absent : has s.chain w ≡ false)
      (unresolved : slot ≡ shared → x.static_value.is_resolved ≡ false)
      (single : is_singleton_scope x.scope ≡ true → IsOnce s → slot ≡ shared) where
    Advances-store_result :
        (t : State) (run : Advances (pushed s w) t) (r : Result Value)
        → Advances s (unpushed (store_result w c slot r t).1)
    Advances-store_result t run (ok v) =
        Advances-stored w c x slot s t at absent run v unresolved single
    Advances-store_result t run (fail e) = Advances-unpushed w c x slot s t at absent run
    Advances-store_result t run out_of_fuel = Advances-unpushed w c x slot s t at absent run

    Advances-build_instance :
        Advances s (unpushed (build_instance env resolve w y c slot (pushed s w)).1)
    unfolding build_instance
    Advances-build_instance =
        let (rs, t) = resolve_params resolve y.token 0 (wrapper_params env y) (pushed s w) in
        let run =
          Advances-resolve_params resolve steps y.token 0 (wrapper_params env y) (pushed s w) in
        and_then_ends (λ q. Advances s (unpushed q)) rs _ t
          (Advances-unpushed w c x slot s t at absent run) (λ deps. Advances-store_result t run _)

  pub Advances-load_wrapper :
      (w c : ℕ) (x : InstanceWrapper) (s : State)
      → get_elem? s.wrappers w ≡ some x
      → Advances s (load_wrapper env resolve w c x s).1
  unfolding load_wrapper
  Advances-load_wrapper w c x s at =
      let s' = (enter_context env w x c s).0 in
      let slot = (enter_context env w x c s).1 in
      let first = Advances-enter_context env w x c s at in
      let (x', at', unresolved, single) = entered env w x c s at in
      elim (Bool-cases x.is_alias) [
        | inl alias ↦ simp alias (Advances-refl s)
        | inr direct ↦ elim (Bool-cases (is_resolved_in env.has_prototype x c)) [
          | inl done ↦ simp (direct, done) first
          | inr pending ↦ elim (Option-cases (index_of s'.chain w)) [
            | inl absent ↦
                simp (direct, pending, absent)
                  (Advances-trans s s' _ first (
                    Advances-build_instance w c x' x slot s' at' (index_of-none s'.chain w absent)
                      (unresolved pending) single))
            | inr (i, found) ↦ simp (direct, pending, found) first
          ]
        ]
      ]

module _ (env : Env) (heap : List Module) (globals : List ℕ) where
  pub Advances-read_instance :
      (c w : ℕ) (x : InstanceWrapper) (s : State)
      → get_elem? s.wrappers w ≡ some x
      → Advances s (read_instance env w c x s).1
  unfolding read_instance
  Advances-read_instance c w x s at = Advances-enter_context env w x c s at

  read_found :
      (c w : ℕ) (o : Option InstanceWrapper) (s : State)
      → get_elem? s.wrappers w ≡ o
      → Advances s
          (elim o as (λ _. Result Value × State) [
            | none ↦ (ok undefined, s)
            | some x ↦ let (v, s') = read_instance env w c x s in (ok v, s')
          ]).1
  read_found c w none s at = Advances-refl s
  read_found c w (some x) s at = Advances-read_instance c w x s at

  pub Advances-read_loaded :
      (s : State) (c w : ℕ) (p : Result (Unit {0}) × State)
      → Advances s p.1
      → Advances s (read_loaded env heap globals c w p).1
  Advances-read_loaded s c w (r, t) first =
      and_then_ends (Advances s) r _ t first
        (λ _. Advances-trans s t _ first (read_found c w (get_elem? t.wrappers w) t refl))

  pub Advances-resolve_dependency :
      (fuel m c : ℕ) (t : Ref) (s : State)
      → Advances s (resolve_dependency env heap globals fuel m c t s).1
  unfolding resolve_dependency
  Advances-resolve_dependency zero m c t s = Advances-refl s
  Advances-resolve_dependency (suc fuel) m c t s = elim (Bool-cases (t == env.module_ref_token)) [
    | inl self ↦ rw self (Advances-refl s)
    | inr other ↦ rw other (elim (Option-cases (find_provider heap globals t m)) [
      | inl missing ↦ rw missing (Advances-refl s)
      | inr (w, found) ↦ rw found (elim (Option-cases (get_elem? s.wrappers w)) [
        | inl gone ↦ rw gone (Advances-refl s)
        | inr (x, at) ↦ rw at (elim (Option-cases (alias_of x)) [
          | inr (target, alias) ↦ rw alias (Advances-resolve_dependency fuel m c target s)
          | inl direct ↦ rw direct (
              Advances-read_loaded s c w _ (
                Advances-load_wrapper env
                  (resolve_dependency env heap globals fuel (host_or x.host m) c)
                  (Advances-resolve_dependency fuel (host_or x.host m) c) w c x s at))
        ])
      ])
    ])
  ]
