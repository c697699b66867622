-- ===== src/Di/Get/Laws.antt =====
-- `get` and `getFromModule`, and the resolutions below them.
use elysia_nest.Base.{
  ℕ, zero, suc, ◌≤◌, ◌≡◌, refl, inl, inr, true, false, Option, none, some, List, [], ◌∷◌, arith,
  get, get_elem?, Bool-cases, Option-cases, ap, ◌==◌, nat_eq, count,
}
use elysia_nest.Di.Wrapper.{Ref, InstanceWrapper, is_singleton_scope, is_transient, is_resolved_in}
use elysia_nest.Di.Module.{Module}
use elysia_nest.Di.Container.{Container}
use elysia_nest.Di.Injector.{Env, out_of_fuel, State, find_provider}
use elysia_nest.Di.Injector.Resolve.{resolve_dependency, alias_of, host_or}
use elysia_nest.Di.Injector.Advances.{IsOnce, Advances, Advances-refl, Advances-trans}
use elysia_nest.Di.Injector.Once.{
  Advances-load_wrapper, Advances-read_instance, Advances-read_loaded, Advances-resolve_dependency,
}
use elysia_nest.Di.Get.{
  Call, find_wrapper, load_and_read, load_direct, get_instance, load_in_module, provider_in,
  get_from_module, get_call, run_calls, effective_context,
}

module _ (env : Env) (heap : List Module) (globals : List ℕ) (m c : ℕ) (s : State) where
  -- Where each token of a class is an alias of another one of the class, as in a cycle of aliases,
  -- no amount of fuel lets the resolution of such a token end.
  pub alias_cycle_diverges :
      (IsLooping : Ref → Type 0)
      → ((t : Ref)
          → IsLooping t
          → ((t == env.module_ref_token) ≡ false)
            × ((w : ℕ) × (x : InstanceWrapper) × (target : Ref) × (find_provider heap globals t m
                  ≡ some w)
                × (get_elem? s.wrappers w ≡ some x)
                × (alias_of x ≡ some target)
                × IsLooping target))
      → (fuel : ℕ) (t : Ref) → IsLooping t
      → resolve_dependency env heap globals fuel m c t s ≡ (out_of_fuel, s)
  unfolding resolve_dependency
  alias_cycle_diverges IsLooping next zero t h = refl
  alias_cycle_diverges IsLooping next (suc fuel) t h =
      let (other, (w, x, target, found, at, alias, more)) = next t h in
      rw other (rw found (rw at (rw alias (alias_cycle_diverges IsLooping next fuel target more))))

-- Nothing was created and no context was entered.
pub record IsFresh (s : State) : Type 0 where
  pub none_created : s.created ≡ []
  pub no_contexts : (w : ℕ) (x : InstanceWrapper) → get_elem? s.wrappers w ≡ some x → x.values ≡ []

module _ (env : Env) (container : Container) where
  Advances-load_and_read :
      (fuel w m c : ℕ) (x : InstanceWrapper) (s : State)
      → get_elem? s.wrappers w ≡ some x
      → Advances s (load_and_read env container fuel w m c x s).1
  unfolding load_and_read
  Advances-load_and_read fuel w m c x s at =
      Advances-read_loaded env container.heap container.global_modules s c w _ (
        Advances-load_wrapper env _
          (Advances-resolve_dependency env container.heap container.global_modules fuel
            (host_or x.host m) c)
          w c x s at)

  Advances-load_direct :
      (fuel tc w m c : ℕ) (x : InstanceWrapper) (s : State)
      → get_elem? s.wrappers w ≡ some x
      → Advances s (load_direct env container fuel tc w m c x s).1
  unfolding load_direct
  Advances-load_direct fuel tc w m c x s at = elim (Bool-cases (is_transient x)) [
    | inl fresh ↦ rw fresh (Advances-load_and_read fuel w m tc x s at)
    | inr stored ↦ rw stored (elim (Bool-cases (is_resolved_in env.has_prototype x c)) [
      | inl done ↦
          rw done (Advances-read_instance env container.heap container.global_modules c w x s at)
      | inr pending ↦ rw pending (Advances-load_and_read fuel w m c x s at)
    ])
  ]

  Advances-get_instance :
      (fuel tc : ℕ) (key : Option Ref) (c : ℕ) (token : Ref) (s : State)
      → Advances s (get_instance env container fuel tc key c token s).1
  unfolding get_instance
  Advances-get_instance zero tc key c token s = Advances-refl s
  Advances-get_instance (suc fuel) tc key c token s =
      elim (Option-cases (find_wrapper container key token)) [
        | inl missing ↦ rw (missing, get_instance) (Advances-refl s)
        | inr ((w, m), found) ↦
            rw (found, get_instance)
              (elim (Option-cases (get_elem? s.wrappers w)) [
                | inl gone ↦ rw gone (Advances-refl s)
                | inr (x, at) ↦ rw at (elim (Option-cases (alias_of x)) [
                  | inl direct ↦ rw direct (Advances-load_direct fuel tc w m c x s at)
                  | inr (target, alias) ↦ rw alias (Advances-get_instance fuel tc key c target s)
                ])
              ])
      ]

  Advances-load_in_module :
      (fuel w m c : ℕ) (x : InstanceWrapper) (s : State)
      → get_elem? s.wrappers w ≡ some x
      → Advances s (load_in_module env container fuel w m c x s).1
  unfolding load_in_module
  Advances-load_in_module fuel w m c x s at =
      elim (Bool-cases (is_resolved_in env.has_prototype x c)) [
        | inl done ↦
            rw done (Advances-read_instance env container.heap container.global_modules c w x s at)
        | inr pending ↦ rw pending (
            Advances-read_loaded env container.heap container.global_modules s c w _ (
              Advances-load_wrapper env _
                (Advances-resolve_dependency env container.heap container.global_modules fuel m c) w
                c x s at))
      ]

  Advances-get_from_module :
      (fuel tc : ℕ) (r : Option ℕ) (key : Ref) (c : ℕ) (token : Ref) (s : State)
      → Advances s (get_from_module env container fuel tc r key c token s).1
  unfolding get_from_module
  Advances-get_from_module fuel tc r key c token s =
      elim (Option-cases (provider_in env container (get container.modules key) token)) [
        | inl missing ↦ rw (missing, get_from_module) (Advances-refl s)
        | inr ((w, m), found) ↦
            rw (found, get_from_module)
              (elim (Option-cases (get_elem? s.wrappers w)) [
                | inl gone ↦ rw gone (Advances-refl s)
                | inr (x, at) ↦ rw at (elim (Option-cases (alias_of x)) [
                  | inl direct ↦ rw direct (Advances-load_in_module fuel w m c x s at)
                  | inr (target, alias) ↦
                      rw alias (Advances-get_instance fuel tc none (effective_context r c) target s)
                ])
              ])
      ]

  Advances-get_call : (a : Call) (s : State) → Advances s (get_call env container a s).1
  unfolding get_call
  Advances-get_call a s = elim (Option-cases a.from_module) [
    | inl by_key ↦ rw by_key (
        Advances-get_instance a.fuel a.transient_context a.module_key
          (effective_context a.request_context a.context) a.token s)
    | inr (key, named) ↦ rw named (
        Advances-get_from_module a.fuel a.transient_context a.request_context key a.context a.token
          s)
  ]

  Advances-run_calls :
      (calls : List Call) (s : State) → Advances s (run_calls env container calls s)
  unfolding run_calls
  Advances-run_calls [] s = Advances-refl s
  Advances-run_calls (a ∷ calls) s =
      Advances-trans s (get_call env container a s).1 _ (Advances-get_call a s)
        (Advances-run_calls calls (get_call env container a s).1)

  IsOnce-IsFresh : (s : State) → IsFresh s → IsOnce s
  unfolding get
  IsOnce-IsFresh s f = record {
    counted = λ w x at k. rw f.none_created (omega arith);
    shared_only = λ w c x slot at k h. absurd (cc (ap (λ v. get v c) (f.no_contexts w x at)));
  }

  -- From a fresh state, after any calls of `get` and `getFromModule`, failing ones included, at most one instance was
  -- made for a wrapper of singleton scope, and the resolution chain is what it was.
  pub singleton_made_once :
      (s : State)
      → IsFresh s
      → (calls : List Call) (w : ℕ) (x : InstanceWrapper)
      → get_elem? (run_calls env container calls s).wrappers w ≡ some x
      → is_singleton_scope x.scope ≡ true
      → (count w (run_calls env container calls s).created ≤ 1)
        × ((run_calls env container calls s).chain ≡ s.chain)
  singleton_made_once s fresh calls w x at single =
      let run = Advances-run_calls calls s in
      let bound = (run.once (IsOnce-IsFresh s fresh)).counted w x at single in
      (ground arith, run.chain)

  -- The instance of a wrapper that is resolved in the static context stays the same object,
  -- whatever calls of `get` and `getFromModule` follow.
  pub resolved_instance_stays :
      (s : State) (calls : List Call) (w : ℕ) (x : InstanceWrapper)
      → get_elem? s.wrappers w ≡ some x
      → x.static_value.is_resolved ≡ true
      → (y : InstanceWrapper) × (get_elem? (run_calls env container calls s).wrappers w ≡ some y)
        × (y.static_value ≡ x.static_value)
  resolved_instance_stays s calls w x at resolved =
      let (y, at_y, scope, same, under) = (Advances-run_calls calls s).kept w x at in
      (y, at_y, same resolved)
