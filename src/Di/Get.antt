-- ===== src/Di/Get.antt =====
-- `get` and `getFromModule` of packages/core/src/di/container.ts: the search for a wrapper, and the instance of the
-- context. A call is run to its end before the next one starts.
pub mod Laws
use elysia_nest.Base.{
  ℕ, zero, suc, Bool, true, false, Option, none, some, List, [], ◌∷◌, Map, get, get_elem?,
  if◌then◌else◌, ◌==◌, nat_eq,
}
use elysia_nest.Di.Wrapper.{
  Ref, Value, undefined, InstanceWrapper, static_context, is_transient, is_resolved_in,
}
use elysia_nest.Di.Module.{Module, get_provider_by_key, get_controller_by_key}
use elysia_nest.Di.Container.{Container, module_of_key}
use elysia_nest.Di.Injector.{
  Env, Result, ok, fail, out_of_fuel, State, Exec, and_then, load_wrapper, read_instance,
}
use elysia_nest.Di.Injector.Resolve.{resolve_dependency, alias_of, host_or, read_loaded}

-- Providers first, then controllers; the wrapper and the module from which it was found.
abbrev pub found_in : ℕ → Option ℕ → Option ℕ → Option (ℕ × ℕ)
found_in m (some w) controller = some (w, m)
found_in m none (some w) = some (w, m)
found_in m none none = none

abbrev pub find_in_module : List Module → Ref → ℕ → Option (ℕ × ℕ)
find_in_module heap token m =
    found_in m (get_provider_by_key heap m token) (get_controller_by_key heap m token)

-- `Search in all modules`, in the order of registration.
abbrev pub find_in_modules : List Module → Ref → Map Ref ℕ → Option (ℕ × ℕ)
find_in_modules heap token [] = none
find_in_modules heap token ((name, m) ∷ rest) = elim (find_in_module heap token m) [
  | some p ↦ some p
  | none ↦ find_in_modules heap token rest
]

abbrev find_in_key : List Module → Ref → Option ℕ → Option (ℕ × ℕ)
find_in_key heap token none = none
find_in_key heap token (some m) = find_in_module heap token m

unfoldable pub find_wrapper : Container → Option Ref → Ref → Option (ℕ × ℕ)
find_wrapper c key token = elim (find_in_key c.heap token (module_of_key c key)) [
  | some p ↦ some p
  | none ↦ find_in_modules c.heap token c.modules
]

-- `if (contextId === STATIC_CONTEXT) { … if (requestCtx) contextId = requestCtx; }`
abbrev pub effective_context : Option ℕ → ℕ → ℕ
effective_context none c = c
effective_context (some r) c = if c == static_context then r else c

-- One call by a client: of `getFromModule` where `from_module` names a module, of `get` otherwise.
pub record Call : Type 0 where
  pub from_module : Option Ref
  pub fuel : ℕ
  pub transient_context : ℕ
  pub request_context : Option ℕ
  pub module_key : Option Ref
  pub context : ℕ
  pub token : Ref

module _ (env : Env) (container : Container) where
  -- `loadInstance(wrapper, wrapper.host ?? moduleRef, contextId)`, then the instance.
  unfoldable pub load_and_read : ℕ → ℕ → ℕ → ℕ → InstanceWrapper → Exec Value
  load_and_read fuel w m c x s = read_loaded env container.heap container.global_modules c w (
      load_wrapper env
        (resolve_dependency env container.heap container.global_modules fuel (host_or x.host m) c) w
        c x s)

  -- `loadAndReturn` behind its test for an alias.
  unfoldable pub load_direct : ℕ → ℕ → ℕ → ℕ → ℕ → InstanceWrapper → Exec Value
  unfolding load_and_read
  load_direct fuel transient_context w m c x s =
      if is_transient x
      then load_and_read fuel w m transient_context x s
      else (if is_resolved_in env.has_prototype x c
          then (let (v, s') = read_instance env w c x s in (ok v, s'))
          else load_and_read fuel w m c x s)

  -- `get(token, moduleKey, contextId)`; `transient_context` is the context made for a transient
  -- provider.
  unfoldable pub get_instance : ℕ → ℕ → Option Ref → ℕ → Ref → Exec Value
  get_instance zero transient_context key c token s = (out_of_fuel, s)
  get_instance (suc fuel) transient_context key c token s =
      elim (find_wrapper container key token) [
        | none ↦ (ok undefined, s)
        | some (w, m) ↦ elim (get_elem? s.wrappers w) [
          | none ↦ (ok undefined, s)
          | some x ↦ elim (alias_of x) [
            | some target ↦ get_instance fuel transient_context key c target s
            | none ↦ load_direct fuel transient_context w m c x s
          ]
        ]
      ]

  -- The part of `getFromModule` behind its test for an alias.
  unfoldable pub load_in_module : ℕ → ℕ → ℕ → ℕ → InstanceWrapper → Exec Value
  load_in_module fuel w m c x s =
      if is_resolved_in env.has_prototype x c
      then (let (v, s') = read_instance env w c x s in (ok v, s'))
      else read_loaded env container.heap container.global_modules c w (
          load_wrapper env (resolve_dependency env container.heap container.global_modules fuel m c)
            w c x s)

  unfoldable pub provider_in : Option ℕ → Ref → Option (ℕ × ℕ)
  provider_in none token = none
  provider_in (some m) token = elim (get_provider_by_key container.heap m token) [
    | none ↦ none
    | some w ↦ some (w, m)
  ]

  -- `getFromModule(token, moduleKey, contextId)`
  unfoldable pub get_from_module : ℕ → ℕ → Option ℕ → Ref → ℕ → Ref → Exec Value
  get_from_module fuel transient_context request_context key c token s =
      elim (provider_in (get container.modules key) token) [
        | none ↦ (ok undefined, s)
        | some (w, m) ↦ elim (get_elem? s.wrappers w) [
          | none ↦ (ok undefined, s)
          | some x ↦ elim (alias_of x) [
            | some target ↦
                get_instance fuel transient_context none (effective_context request_context c)
                  target s
            | none ↦ load_in_module fuel w m c x s
          ]
        ]
      ]

  unfoldable pub get_call : Call → Exec Value
  get_call a = elim a.from_module [
    | none ↦
        get_instance a.fuel a.transient_context a.module_key
          (effective_context a.request_context a.context) a.token
    | some key ↦ get_from_module a.fuel a.transient_context a.request_context key a.context a.token
  ]

  -- Calls one after another; a failing call leaves the state that it reached.
  unfoldable pub run_calls : List Call → State → State
  run_calls [] s = s
  run_calls (a ∷ rest) s = run_calls rest (get_call a s).1
