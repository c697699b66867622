-- ===== src/Di/Injector/Resolve.antt =====
-- `resolveDependency` and `loadInstance` of packages/core/src/di/injector.ts, and `get` of
-- packages/core/src/di/container.ts. Each call from the one into itself takes one unit of fuel.
use elysia_nest.Base.{
  ℕ, zero, suc, Option, none, some, List, get_elem?, if◌then◌else◌, ◌==◌, nat_eq,
}
use elysia_nest.Di.Wrapper.{Ref, Value, undefined, module_ref, InstanceWrapper}
use elysia_nest.Di.Module.{Module}
use elysia_nest.Di.Injector.{
  Env, not_found, Result, ok, fail, out_of_fuel, State, Exec, and_then, load_wrapper, read_instance,
  find_provider,
}

-- `wrapper.isAlias && wrapper.aliasTarget`
abbrev pub alias_of : InstanceWrapper → Option Ref
alias_of x = if x.is_alias then x.alias_target else none

-- `wrapper.host ?? moduleRef`
abbrev pub host_or : Option ℕ → ℕ → ℕ
host_or none m = m
host_or (some h) m = h

module _ (env : Env) (heap : List Module) (globals : List ℕ) where
  -- After `loadInstance`: the instance of the context.
  abbrev pub read_loaded : ℕ → ℕ → Result (Unit {0}) × State → Result Value × State
  read_loaded c w (r, s) =
      and_then r
        (λ _. elim (get_elem? s.wrappers w) [
          | none ↦ (ok undefined, s)
          | some x ↦ let (v, s') = read_instance env w c x s in (ok v, s')
        ])
        s

  unfoldable pub resolve_dependency : ℕ → ℕ → ℕ → Ref → Exec Value
  resolve_dependency zero m c t s = (out_of_fuel, s)
  resolve_dependency (suc fuel) m c t s =
      if t == env.module_ref_token
      then (ok (module_ref m), s)
      else elim (find_provider heap globals t m) [
        | none ↦ (fail (not_found t m), s)
        | some w ↦ elim (get_elem? s.wrappers w) [
          | none ↦ (fail (not_found t m), s)
          | some x ↦ elim (alias_of x) [
            | some t' ↦ resolve_dependency fuel m c t' s
            | none ↦
                read_loaded c w
                  (load_wrapper env (resolve_dependency fuel (host_or x.host m) c) w c x s)
          ]
        ]
      ]

  -- `loadInstance(wrapper, moduleRef, contextId)`
  unfoldable pub load_instance : ℕ → ℕ → ℕ → ℕ → Exec (Unit {0})
  load_instance fuel w m c s = elim (get_elem? s.wrappers w) [
    | none ↦ (ok tt, s)
    | some x ↦ load_wrapper env (resolve_dependency fuel m c) w c x s
  ]
