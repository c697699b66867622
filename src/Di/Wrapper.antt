-- ===== src/Di/Wrapper.antt =====
-- packages/core/src/di/instance-wrapper.ts. A wrapper's static `InstancePerContext` is one mutable
-- object that other contexts may share, so a context's entry is a slot: the shared object or one of
-- its own. Object identities (classes, symbols, strings, modules) are natural numbers.
use elysia_nest.Base.{
  ℕ, Bool, true, false, ◌&&◌, Option, none, some, List, Map, get, put, ◌==◌, nat_eq, if◌then◌else◌,
}

-- The identity of a class, a symbol, a string or another JavaScript value.
abbrev pub Ref : Type 0
Ref = ℕ

pub data Value : Type 0 where
  undefined null : Value
  object : Ref → Value
  -- `Object.create(metatype.prototype)`
  prototype_of : Ref → Value
  -- `new ModuleRef(container, moduleRef)`
  module_ref : ℕ → Value

-- packages/core/src/di/scope-options.interface.ts
pub data Scope : Type 0 where
  singleton request transient : Scope

-- A token as written, or `forwardRef(() => token)`.
pub data TokenRef : Type 0 where
  direct forward_ref : Ref → TokenRef

-- `isForwardRef(token) ? token.forwardRef() : token`
abbrev pub resolved_token : TokenRef → Ref
resolved_token (direct t) = t
resolved_token (forward_ref t) = t

-- An entry of a factory's `inject` array.
pub data InjectEntry : Type 0 where
  plain : TokenRef → InjectEntry
  config : TokenRef → Bool → InjectEntry

pub record InstancePerContext : Type 0 where
  pub instance_value : Value
  pub is_resolved : Bool

pub data Slot : Type 0 where
  shared : Slot
  own : InstancePerContext → Slot

abbrev pub static_context : ℕ
static_context = 1

pub record InstanceWrapper : Type 0 where
  pub token : Ref
  pub host : Option ℕ
  pub is_alias : Bool
  pub alias_target : Option Ref
  pub scope : Scope
  pub metatype : Option Ref
  pub inject : Option (List InjectEntry)
  pub static_value : InstancePerContext
  pub values : Map ℕ Slot

abbrev pub is_transient_scope : Scope → Bool
is_transient_scope transient = true
is_transient_scope _ = false

abbrev pub is_singleton_scope : Scope → Bool
is_singleton_scope singleton = true
is_singleton_scope _ = false

abbrev pub is_some {ℓ} : {A : Type ℓ} → Option A → Bool
is_some none = false
is_some (some a) = true

unfoldable pub is_transient : InstanceWrapper → Bool
is_transient w = is_transient_scope w.scope

-- `!!this.metatype && this.inject !== null`
unfoldable pub is_factory : InstanceWrapper → Bool
is_factory w = is_some w.metatype && is_some w.inject

-- No code adds constructor metadata, so the dependency tree is the wrapper alone.
unfoldable pub is_dependency_tree_static : InstanceWrapper → Bool
is_dependency_tree_static w = is_singleton_scope w.scope

-- `has_prototype` says which class or function has a `prototype`.
abbrev pub new_instance : (Ref → Bool) → Option Ref → Option (List InjectEntry) → Value
new_instance has_prototype (some c) none = if has_prototype c then prototype_of c else undefined
new_instance has_prototype _ _ = undefined

abbrev pub fresh_value : (Ref → Bool) → InstanceWrapper → InstancePerContext
fresh_value has_prototype w = record {
  instance_value = new_instance has_prototype w.metatype w.inject;
  is_resolved = false;
}

-- `cloneStaticInstance`: the wrapper after the call, and the slot of the returned object.
unfoldable pub clone_static_instance : (Ref → Bool) → InstanceWrapper → ℕ → InstanceWrapper × Slot
unfolding is_dependency_tree_static
clone_static_instance has_prototype w c = if is_dependency_tree_static w then (w, shared) else (
  record w { values = put w.values c (own (fresh_value has_prototype w)) },
  own (fresh_value has_prototype w),
)

stored_or_clone : (Ref → Bool) → InstanceWrapper → ℕ → Option Slot → InstanceWrapper × Slot
unfolding clone_static_instance
stored_or_clone has_prototype w c (some s) = (w, s)
stored_or_clone has_prototype w c none = clone_static_instance has_prototype w c

-- `getInstanceByContextId`, with no inquirer: no caller passes one.
unfoldable pub get_instance_by_context_id :
    (Ref → Bool) → InstanceWrapper → ℕ → InstanceWrapper × Slot
unfolding clone_static_instance stored_or_clone
get_instance_by_context_id has_prototype w c =
    if c == static_context then (w, shared) else stored_or_clone has_prototype w c (get w.values c)

-- The object in a slot.
abbrev pub read_slot : InstanceWrapper → Slot → InstancePerContext
read_slot w shared = w.static_value
read_slot w (own i) = i

-- `instance = v; isResolved = true; setInstanceByContextId(contextId, …)` on the slot's object.
unfoldable pub set_instance_by_context_id : InstanceWrapper → ℕ → Slot → Value → InstanceWrapper
set_instance_by_context_id w c shared v = record w {
  static_value = record { instance_value = v; is_resolved = true };
  values = if c == static_context then w.values else put w.values c shared;
}
set_instance_by_context_id w c (own i) v = record w {
  values = put w.values c (own (record { instance_value = v; is_resolved = true }));
}

-- `isResolved` of the object that the context sees.
unfoldable pub is_resolved_in : (Ref → Bool) → InstanceWrapper → ℕ → Bool
unfolding get_instance_by_context_id
is_resolved_in has_prototype w c =
    let (w', s) = get_instance_by_context_id has_prototype w c in (read_slot w' s).is_resolved
