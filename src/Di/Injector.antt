-- ===== src/Di/Injector.antt =====
-- packages/core/src/di/injector.ts. The methods call one another while they resolve the
-- parameters of constructors; the fuel bounds the depth of these calls. Between them the code
-- awaits: the model runs one `loadInstance` with the calls that it makes, and no other.
pub mod Resolve
pub mod Advances
pub mod Stored
pub mod Once
use elysia_nest.Base.{
  ℕ, zero, suc, ◌+◌, Bool, true, false, ◌&&◌, Option, none, some, List, [], ◌∷◌, ◌++◌, map, get,
  has, get_elem?, set, length, if◌then◌else◌, ◌==◌, nat_eq, max, drop, index_of,
}
use elysia_nest.Di.Wrapper.{
  Ref, Value, undefined, module_ref, TokenRef, resolved_token, InjectEntry, plain, config, Slot,
  InstanceWrapper, is_factory, get_instance_by_context_id, read_slot, set_instance_by_context_id,
  is_resolved_in,
}
use elysia_nest.Di.Module.{Module, get_provider_by_key}

-- What the user's code did when it was called.
pub data Outcome : Type 0 where
  returned : Value → Outcome
  thrown : Ref → Outcome

-- What the program does not implement: the metadata that decorators leave on a class, and the
-- classes and factories themselves. A call is told how many instances were made before it.
pub record Env : Type 0 where
  pub module_ref_token : Ref
  pub param_types : Ref → List (Option TokenRef)
  pub injection_metadata : Ref → List (ℕ × Option TokenRef)
  pub optional_params : Ref → List ℕ
  pub has_prototype : Ref → Bool
  pub construct : ℕ → Ref → List Value → Outcome
  pub call_factory : ℕ → Ref → List Value → Outcome

-- The first two are `DIError`s, with the tokens that their messages name.
pub data Failure : Type 0 where
  circular : List Ref → Failure
  unresolved : Ref → ℕ → Option Ref → Failure
  not_found : Ref → ℕ → Failure
  no_metatype : Ref → Failure
  raised : Ref → Failure

abbrev pub is_di_error : Failure → Bool
is_di_error (circular tokens) = true
is_di_error (unresolved t i o) = true
is_di_error _ = false

pub data Result (A : Type 0) : Type 0 where
  ok : A → Result A
  fail : Failure → Result A
  out_of_fuel : Result A

-- `created` lists the wrappers in the order in which instances were made for them.
pub record State : Type 0 where
  pub wrappers : List InstanceWrapper
  pub chain : List ℕ
  pub created : List ℕ

abbrev pub Exec : Type 0 → Type 0
Exec A = State → Result A × State

abbrev pub and_then : {A B : Type 0} → Result A → (A → Result B × State) → State → Result B × State
and_then (ok a) k s = k a
and_then (fail e) k s = (fail e, s)
and_then out_of_fuel k s = (out_of_fuel, s)

-- A parameter of a constructor or a factory: its token, if it has one, and whether it is optional.
pub record Param : Type 0 where
  pub token : Option TokenRef
  pub optional : Bool

abbrev pub param_of_entry : InjectEntry → Param
param_of_entry (plain t) = record { token = some t; optional = false }
param_of_entry (config t o) = record { token = some t; optional = o }

-- `Map.set` for each entry, then `has(i) ? get(i) : paramTypes[i]`: the last entry for `i` counts.
abbrev pub token_at : List (ℕ × Option TokenRef) → ℕ → Option TokenRef → Option TokenRef
token_at [] i t = t
token_at ((j, x) ∷ rest) i t = token_at rest i (if j == i then x else t)

abbrev pub or_none : Option (Option TokenRef) → Option TokenRef
or_none none = none
or_none (some t) = t

abbrev pub top_index : List ℕ → ℕ
top_index [] = 0
top_index (i ∷ is) = max (i + 1) (top_index is)

abbrev pub indices : List (ℕ × Option TokenRef) → List ℕ
indices [] = []
indices ((i, t) ∷ rest) = i ∷ indices rest

abbrev pub params_from : Env → Ref → ℕ → ℕ → List Param
params_from env c i zero = []
params_from env c i (suc n) =
    (record {
      token = token_at (env.injection_metadata c) i (or_none (get_elem? (env.param_types c) i));
      optional = has (env.optional_params c) i;
    })
    ∷ params_from env c (i + 1) n

abbrev pub class_params : Env → Ref → List Param
class_params env c = params_from env c 0 (
    max (length (env.param_types c))
      (max (top_index (indices (env.injection_metadata c))) (top_index (env.optional_params c))))

abbrev pub params_of : Env → Option Ref → Option (List InjectEntry) → List Param
params_of env none inject = []
params_of env (some c) none = class_params env c
params_of env (some c) (some entries) = map param_of_entry entries

unfoldable pub wrapper_params : Env → InstanceWrapper → List Param
wrapper_params env w = params_of env w.metatype w.inject

-- What the `catch` of the parameter loop does with an error.
abbrev pub caught : Ref → ℕ → Ref → Bool → Failure → State → Result Value × State
caught owner i token optional e s =
    if optional
    then (ok undefined, s)
    else (if is_di_error e then (fail e, s) else (fail (unresolved owner i (some token)), s))

abbrev pub guarded : Ref → ℕ → Ref → Bool → Result Value → State → Result Value × State
guarded owner i token optional (ok v) s = (ok v, s)
guarded owner i token optional (fail e) s = caught owner i token optional e s
guarded owner i token optional out_of_fuel s = (out_of_fuel, s)

abbrev pub resolve_token : (Ref → Exec Value) → Ref → ℕ → Option TokenRef → Bool → Exec Value
resolve_token resolve owner i none optional s =
    if optional then (ok undefined, s) else (fail (unresolved owner i none), s)
resolve_token resolve owner i (some t) optional s =
    let (r, s') = resolve (resolved_token t) s in guarded owner i (resolved_token t) optional r s'

-- The parameter loops of `resolveConstructorParams`, over the call that resolves a token.
unfoldable pub resolve_params : (Ref → Exec Value) → Ref → ℕ → List Param → Exec (List Value)
resolve_params resolve owner i [] s = (ok [], s)
resolve_params resolve owner i (p ∷ ps) s =
    let (r, s') = resolve_token resolve owner i p.token p.optional s in
    and_then r
      (λ v.
        let (rs, s'') = resolve_params resolve owner (i + 1) ps s' in
        and_then rs (λ vs. (ok (v ∷ vs), s'')) s'')
      s'

abbrev pub outcome_result : Outcome → Result Value
outcome_result (returned v) = ok v
outcome_result (thrown e) = fail (raised e)

abbrev pub instantiate : Env → ℕ → InstanceWrapper → Option Ref → List Value → Result Value
instantiate env n w none deps = fail (no_metatype w.token)
instantiate env n w (some c) deps =
    outcome_result (if is_factory w then env.call_factory n c deps else env.construct n c deps)

unfoldable pub instantiate_class : Env → ℕ → InstanceWrapper → List Value → Result Value
unfolding is_factory
instantiate_class env n w deps = instantiate env n w w.metatype deps

-- `Array.pop`
abbrev pub pop : List ℕ → List ℕ
pop [] = []
pop (x ∷ []) = []
pop (x ∷ y ∷ l) = x ∷ pop (y ∷ l)

abbrev pub update_wrapper : State → ℕ → (InstanceWrapper → InstanceWrapper) → State
update_wrapper s w f = elim (get_elem? s.wrappers w) [
  | none ↦ s
  | some x ↦ record s { wrappers = set s.wrappers w (f x) }
]

-- The object that `getInstanceByContextId` returns, and the state with what it stored.
unfoldable pub enter_context : Env → ℕ → InstanceWrapper → ℕ → State → State × Slot
unfolding get_instance_by_context_id
enter_context env w x c s =
    let (x', slot) = get_instance_by_context_id env.has_prototype x c in
    (record s { wrappers = set s.wrappers w x' }, slot)

-- The instance is stored in the slot's object and the object under the context.
unfoldable pub store_instance : ℕ → ℕ → Slot → Value → State → State
unfolding set_instance_by_context_id
store_instance w c slot v s =
    update_wrapper (record s { created = s.created ++ w ∷ [] }) w
      (λ x. set_instance_by_context_id x c slot v)

abbrev pub store_result : ℕ → ℕ → Slot → Result Value → State → Result (Unit {0}) × State
store_result w c slot (ok v) s = (ok tt, store_instance w c slot v s)
store_result w c slot (fail e) s = (fail e, s)
store_result w c slot out_of_fuel s = (out_of_fuel, s)

-- `finally { this._resolutionChain.pop(); }`
abbrev pub popped : Result (Unit {0}) × State → Result (Unit {0}) × State
popped (r, s) = (r, record s { chain = pop s.chain })

abbrev pub tokens_of : List InstanceWrapper → List ℕ → List Ref
tokens_of ws [] = []
tokens_of ws (w ∷ is) = elim (get_elem? ws w) [
  | none ↦ tokens_of ws is
  | some x ↦ x.token ∷ tokens_of ws is
]

-- The `try` block of `loadInstance`, over the call that resolves a token.
unfoldable pub build_instance :
    Env → (Ref → Exec Value) → ℕ → InstanceWrapper → ℕ → Slot → Exec (Unit {0})
unfolding resolve_params wrapper_params instantiate_class store_instance
build_instance env resolve w x c slot s =
    let (rs, s') = resolve_params resolve x.token 0 (wrapper_params env x) s in
    and_then rs
      (λ deps. store_result w c slot (instantiate_class env (length s'.created) x deps) s') s'

-- `loadInstance`, over the call that resolves a token.
abbrev pub load_unresolved :
    Env → (Ref → Exec Value) → ℕ → InstanceWrapper → ℕ → Slot → Option ℕ → Exec (Unit {0})
load_unresolved env resolve w x c slot (some i) s =
    (fail (circular (tokens_of s.wrappers (drop i s.chain) ++ x.token ∷ [])), s)
load_unresolved env resolve w x c slot none s =
    popped (build_instance env resolve w x c slot (record s { chain = s.chain ++ w ∷ [] }))

unfoldable pub load_wrapper : Env → (Ref → Exec Value) → ℕ → ℕ → InstanceWrapper → Exec (Unit {0})
load_wrapper env resolve w c x s =
    if x.is_alias
    then (ok tt, s)
    else (let (s', slot) = enter_context env w x c s in
        if is_resolved_in env.has_prototype x c
        then (ok tt, s')
        else load_unresolved env resolve w x c slot (index_of s'.chain w) s')

-- The instance that the context sees, after `loadInstance`.
unfoldable pub read_instance : Env → ℕ → ℕ → InstanceWrapper → State → Value × State
unfolding enter_context
read_instance env w c x s =
    let (s', slot) = enter_context env w x c s in ((read_slot x slot).instance_value, s')

abbrev pub first_provider : List Module → Ref → List ℕ → Option ℕ
first_provider heap token [] = none
first_provider heap token (m ∷ ms) = elim (get_provider_by_key heap m token) [
  | some w ↦ some w
  | none ↦ first_provider heap token ms
]

abbrev pub imports_at : List Module → ℕ → List ℕ
imports_at heap m = elim (get_elem? heap m) [ none ↦ [] | some r ↦ r.imports ]

abbrev pub or_else : Option ℕ → Option ℕ → Option ℕ
or_else none o = o
or_else (some w) o = some w

-- The three lookups of `resolveDependency`.
unfoldable pub find_provider : List Module → List ℕ → Ref → ℕ → Option ℕ
find_provider heap globals token m =
    or_else (get_provider_by_key heap m token)
      (or_else (first_provider heap token (imports_at heap m)) (first_provider heap token globals))
