-- ===== src/Di/Module.antt =====
-- packages/core/src/di/module.ts. Modules and wrappers are objects on a heap, and a number is a
-- reference to one; the `visited` set of the lookups is threaded through the calls, as the code
-- shares one `Set` between them. The fuel bounds the depth of the recursion over imports.
pub mod Lookup
pub mod Complete
pub mod Total
pub mod Decides
use elysia_nest.Base.{
  ℕ, zero, suc, ◌+◌, length, false, true, Option, none, some, List, [], ◌∷◌, Map, get, has, add,
  get_elem?, if◌then◌else◌, nat_eq,
}
use elysia_nest.Di.Wrapper.{Ref, Value, null, Scope, singleton, InjectEntry, InstanceWrapper}

-- How a provider makes its value; `bare` has `provide` alone.
pub data Recipe : Type 0 where
  use_class : Ref → Recipe
  use_factory : Ref → Option (List InjectEntry) → Recipe
  use_value : Value → Recipe
  use_existing : Ref → Recipe
  bare : Recipe

-- packages/core/src/di/provider.interface.ts
pub data Provider : Type 0 where
  type_provider : Ref → Provider
  custom_provider : Ref → Option Scope → Recipe → Provider

pub record Module : Type 0 where
  pub metatype : Ref
  pub token : Ref
  pub providers : Map Ref ℕ
  pub controllers : Map Ref ℕ
  pub imports : List ℕ
  pub exports : List Ref

abbrev pub provider_token : Provider → Ref
provider_token (type_provider c) = c
provider_token (custom_provider t scope r) = t

-- `wrapper.instance = options.instance ?? null`
abbrev or_null : Value → Value
or_null Value.undefined = null
or_null v = v

abbrev pub or_default : Option Scope → Scope
or_default none = singleton
or_default (some s) = s

abbrev or_empty : Option (List InjectEntry) → List InjectEntry
or_empty none = []
or_empty (some l) = l

-- The wrapper that `addProvider` builds; `injectable_scope` reads the @Injectable() metadata.
unfoldable pub provider_wrapper : (Ref → Option Scope) → ℕ → Provider → InstanceWrapper
provider_wrapper injectable_scope host (type_provider c) = record {
  token = c;
  host = some host;
  is_alias = false;
  alias_target = none;
  scope = or_default (injectable_scope c);
  metatype = some c;
  inject = none;
  static_value = record { instance_value = null; is_resolved = false };
  values = [];
}
provider_wrapper injectable_scope host (custom_provider t scope (use_class c)) = record {
  token = t;
  host = some host;
  is_alias = false;
  alias_target = none;
  scope = or_default (injectable_scope c);
  metatype = some c;
  inject = none;
  static_value = record { instance_value = null; is_resolved = false };
  values = [];
}
provider_wrapper injectable_scope host (custom_provider t scope (use_factory f inject)) = record {
  token = t;
  host = some host;
  is_alias = false;
  alias_target = none;
  scope = or_default (injectable_scope f);
  metatype = some f;
  inject = some (or_empty inject);
  static_value = record { instance_value = null; is_resolved = false };
  values = [];
}
provider_wrapper injectable_scope host (custom_provider t scope (use_value v)) = record {
  token = t;
  host = some host;
  is_alias = false;
  alias_target = none;
  scope = singleton;
  metatype = none;
  inject = none;
  static_value = record { instance_value = or_null v; is_resolved = true };
  values = [];
}
provider_wrapper injectable_scope host (custom_provider t scope (use_existing target)) = record {
  token = t;
  host = some host;
  is_alias = true;
  alias_target = some target;
  scope = singleton;
  metatype = none;
  inject = none;
  static_value = record { instance_value = null; is_resolved = false };
  values = [];
}
provider_wrapper injectable_scope host (custom_provider t scope bare) = record {
  token = t;
  host = some host;
  is_alias = false;
  alias_target = none;
  scope = singleton;
  metatype = none;
  inject = none;
  static_value = record { instance_value = null; is_resolved = false };
  values = [];
}

-- `addController` builds its wrapper with no scope.
unfoldable pub controller_wrapper : ℕ → Ref → InstanceWrapper
controller_wrapper host c = record {
  token = c;
  host = some host;
  is_alias = false;
  alias_target = none;
  scope = singleton;
  metatype = some c;
  inject = none;
  static_value = record { instance_value = null; is_resolved = false };
  values = [];
}

unfoldable pub add_import : Module → ℕ → Module
add_import m i = record m { imports = add m.imports i }

unfoldable pub add_export : Module → Ref → Module
add_export m t = record m { exports = add m.exports t }

-- `none` is a recursion deeper than the fuel; otherwise the `visited` set and what was found.
abbrev pub Search : Type 0
Search = Option (List ℕ × Option ℕ)

-- The loop over the imported modules, over the call for one of them.
unfoldable pub search_imports : (ℕ → List ℕ → Search) → List ℕ → List ℕ → Search
search_imports find [] visited = some (visited, none)
search_imports find (i ∷ is) visited = elim (find i visited) [
  | none ↦ none
  | some (visited', some w) ↦ some (visited', some w)
  | some (visited', none) ↦ search_imports find is visited'
]

module _ (heap : List Module) (own_wrapper : Module → Option ℕ) where
  -- `getProviderByKey` and `getControllerByKey` differ in the map that `own_wrapper` reads.
  unfoldable pub find_by_key : ℕ → ℕ → List ℕ → Search
  find_by_key zero m visited = none
  find_by_key (suc fuel) m visited =
      if has visited m then some (visited, none) else elim (get_elem? heap m) [
        | none ↦ some (visited, none)
        | some r ↦ elim (own_wrapper r) [
          | some w ↦ some (m ∷ visited, some w)
          | none ↦ search_imports (find_by_key fuel) r.imports (m ∷ visited)
        ]
      ]

abbrev pub own_provider : Ref → Module → Option ℕ
own_provider token r = get r.providers token

abbrev pub own_controller : Ref → Module → Option ℕ
own_controller token r = get r.controllers token

abbrev pub found : Search → Option ℕ
found none = none
found (some (visited, o)) = o

-- `getProviderByKey(token)`, with a fuel above the number of modules.
unfoldable pub get_provider_by_key : List Module → ℕ → Ref → Option ℕ
get_provider_by_key heap m token =
    found (find_by_key heap (own_provider token) (length heap + 1) m [])

-- `getControllerByKey(token)`
unfoldable pub get_controller_by_key : List Module → ℕ → Ref → Option ℕ
get_controller_by_key heap m token =
    found (find_by_key heap (own_controller token) (length heap + 1) m [])
