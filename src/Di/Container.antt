-- ===== src/Di/Container.antt =====
-- packages/core/src/di/container.ts: the registry of modules.
pub mod Globals
pub mod WellFormed
pub mod Preserve
pub mod Reachable
use elysia_nest.Base.{
  ℕ, zero, ◌+◌, Bool, true, false, Option, none, some, List, [], ◌∷◌, ◌++◌, Map, get, put, has, add,
  get_elem?, set, length, if◌then◌else◌, ◌==◌, nat_eq,
}
use elysia_nest.Di.Wrapper.{Ref, Scope, InstanceWrapper}
use elysia_nest.Di.Module.{
  Module, Provider, provider_token, provider_wrapper, controller_wrapper, add_import, add_export,
}

-- `heap` and `wrappers` hold the objects that references name; the other fields are the class's.
pub record Container : Type 0 where
  pub heap : List Module
  pub wrappers : List InstanceWrapper
  pub modules : Map Ref ℕ
  pub global_modules : List ℕ
  pub module_by_metatype : Map Ref ℕ
  pub session_initialized : List Ref

-- `Container.create()`
abbrev pub create : Container
create = record {
  heap = [];
  wrappers = [];
  modules = [];
  global_modules = [];
  module_by_metatype = [];
  session_initialized = [];
}

-- A change of one module object; a reference that names no object does not occur.
unfoldable pub update_module : List Module → ℕ → (Module → Module) → List Module
update_module heap m f = elim (get_elem? heap m) [ none ↦ heap | some r ↦ set heap m (f r) ]

-- `addImport` and `addExport` of a module of the container.
unfoldable pub add_import_to : Container → ℕ → ℕ → Container
add_import_to c m i = record c { heap = update_module c.heap m (λ r. add_import r i) }

unfoldable pub add_export_to : Container → ℕ → Ref → Container
add_export_to c m token = record c { heap = update_module c.heap m (λ r. add_export r token) }

unfoldable pub bind_global_module_to_module : List Module → ℕ → ℕ → List Module
unfolding update_module add_import
bind_global_module_to_module heap target global =
    if target == global then heap else update_module heap target (λ r. add_import r global)

-- The loop of `bindGlobalsToImports` over the global modules.
unfoldable pub bind_each : List Module → ℕ → List ℕ → List Module
bind_each heap target [] = heap
bind_each heap target (g ∷ gs) = bind_each (bind_global_module_to_module heap target g) target gs

unfoldable pub bind_globals_to_imports : Container → ℕ → Container
bind_globals_to_imports c target = record c { heap = bind_each c.heap target c.global_modules }

-- The loop of `bindGlobalScope` over the registered modules.
unfoldable pub bind_all : List ℕ → List Module → Map Ref ℕ → List Module
bind_all globals heap [] = heap
bind_all globals heap ((token, m) ∷ rest) = bind_all globals (bind_each heap m globals) rest

unfoldable pub bind_global_scope : Container → Container
bind_global_scope c = record c { heap = bind_all c.global_modules c.heap c.modules }

unfoldable pub add_global_module : Container → ℕ → Container
add_global_module c m = record c { global_modules = add c.global_modules m }

abbrev pub new_module : Ref → Ref → Module
new_module metatype token = record {
  metatype = metatype;
  token = token;
  providers = [];
  controllers = [];
  imports = [];
  exports = [];
}

-- The part of `addModule` behind its two early returns.
unfoldable pub create_module : Container → Ref → Ref → Container × ℕ
create_module c metatype token =
    let m = length c.heap in
    (
      bind_globals_to_imports
          (record c {
            heap = c.heap ++ new_module metatype token ∷ [];
            modules = put c.modules token m;
            module_by_metatype = put c.module_by_metatype metatype m;
          })
          m,
      m,
    )

unfoldable pub add_module : Container → Ref → Ref → Container × ℕ
add_module c metatype token = elim (get c.modules token) [
  | some m ↦ (c, m)
  | none ↦ elim (get c.module_by_metatype metatype) [
    | some m ↦ (c, m)
    | none ↦ create_module c metatype token
  ]
]

-- `module.addProvider(provider)`: a new wrapper object, under the provider's token.
unfoldable pub add_provider : (Ref → Option Scope) → ℕ → Container → Provider → Container
add_provider injectable_scope m c p = record c {
  wrappers = c.wrappers ++ provider_wrapper injectable_scope m p ∷ [];
  heap =
      update_module c.heap m
        (λ r. record r { providers = put r.providers (provider_token p) (length c.wrappers) });
}

unfoldable pub add_controller : ℕ → Container → Ref → Container
add_controller m c class_ = record c {
  wrappers = c.wrappers ++ controller_wrapper m class_ ∷ [];
  heap =
      update_module c.heap m
        (λ r. record r { controllers = put r.controllers class_ (length c.wrappers) });
}

abbrev pub module_of_key : Container → Option Ref → Option ℕ
module_of_key c none = none
module_of_key c (some k) = get c.module_by_metatype k

abbrev pub first_module : Ref → Ref → Container → Map Ref ℕ → Container × ℕ
first_module default_class default_token c [] = add_module c default_class default_token
first_module default_class default_token c ((token, m) ∷ rest) = (c, m)

-- The module that `register` and `registerControllers` fill; `default_class` is the class that
-- they make, and `default_token` the text "default".
unfoldable pub target_module : Ref → Ref → Container → Option Ref → Container × ℕ
target_module default_class default_token c module_key = elim (module_of_key c module_key) [
  | some m ↦ (c, m)
  | none ↦ first_module default_class default_token c c.modules
]

unfoldable pub add_providers : (Ref → Option Scope) → ℕ → Container → List Provider → Container
add_providers injectable_scope m c [] = c
add_providers injectable_scope m c (p ∷ ps) =
    add_providers injectable_scope m (add_provider injectable_scope m c p) ps

unfoldable pub add_controllers : ℕ → Container → List Ref → Container
add_controllers m c [] = c
add_controllers m c (class_ ∷ rest) = add_controllers m (add_controller m c class_) rest

unfoldable pub register :
    (Ref → Option Scope) → Ref → Ref → Container → List Provider → Option Ref → Container
register injectable_scope default_class default_token c providers module_key =
    let (c', m) = target_module default_class default_token c module_key in
    bind_global_scope (add_providers injectable_scope m c' providers)

unfoldable pub register_controllers : Ref → Ref → Container → List Ref → Option Ref → Container
register_controllers default_class default_token c controllers module_key =
    let (c', m) = target_module default_class default_token c module_key in
    bind_global_scope (add_controllers m c' controllers)

-- The container's own part of `clear`; the objects stay with those who hold them.
unfoldable pub clear : Container → Container
clear c = record c {
  modules = [];
  global_modules = [];
  module_by_metatype = [];
  session_initialized = [];
}

unfoldable pub is_initialized_in_session : Container → Ref → Bool
is_initialized_in_session c metatype = has c.session_initialized metatype

unfoldable pub mark_initialized_in_session : Container → Ref → Container
mark_initialized_in_session c metatype = record c {
  session_initialized = add c.session_initialized metatype;
}
