-- ===== src/Di/Tests.antt =====
-- Runs of the container, and the theorems on them.
use elysia_nest.Base.{
  ℕ, zero, suc, ◌+◌, ◌≤◌, ◌⊎◌, inl, inr, count, subst, sym, ◌≡◌, ◌≢◌, refl, true, false, Option,
  none, some, List, [], ◌∷◌, arith, get, put, get_elem?, nat_eq, ◌==◌, if◌then◌else◌,
}
use elysia_nest.Di.Wrapper.{
  Ref, Value, object, Scope, singleton, direct, InstanceWrapper, is_transient, is_factory,
  is_resolved_in, get_instance_by_context_id, set_instance_by_context_id,
}
use elysia_nest.Di.Module.{
  Module, type_provider, custom_provider, use_existing, own_provider, provider_wrapper, find_by_key,
  search_imports, get_provider_by_key,
}
use elysia_nest.Di.Module.Decides.{Decides, get_provider_by_key-Decides}
use elysia_nest.Di.Container.{
  Container, create, bind_each, bind_globals_to_imports, bind_global_scope, add_global_module,
  create_module, add_module, register, new_module,
}
use elysia_nest.Di.Container.Reachable.{Reachable, created}
use elysia_nest.Di.Container.Globals.{global_provider_found}
use elysia_nest.Di.Injector.{
  Env, returned, thrown, out_of_fuel, State, resolve_params, wrapper_params, instantiate_class,
  enter_context, store_instance, build_instance, load_wrapper, read_instance, find_provider,
}
use elysia_nest.Di.Injector.Resolve.{resolve_dependency, alias_of}
use elysia_nest.Di.Get.{
  Call, find_wrapper, load_and_read, load_direct, get_instance, get_call, run_calls,
}
use elysia_nest.Di.Get.Laws.{alias_cycle_diverges, singleton_made_once, resolved_instance_stays}

abbrev scopes : Ref → Option Scope
scopes c = none

-- Two modules that import one another; the second provides the token 7 as wrapper 3.
abbrev two_modules : List Module
two_modules =
    (record {
      metatype = 10;
      token = 11;
      providers = [];
      controllers = [];
      imports = 1 ∷ [];
      exports = [];
    })
    ∷ (record {
      metatype = 20;
      token = 21;
      providers = (7, 3) ∷ [];
      controllers = [];
      imports = 0 ∷ [];
      exports = [];
    })
    ∷ []

found_in_cycle : get_provider_by_key two_modules 0 7 ≡ some 3
unfolding get_provider_by_key find_by_key search_imports get
found_in_cycle = refl

missing_in_cycle : get_provider_by_key two_modules 0 8 ≡ none
unfolding get_provider_by_key find_by_key search_imports get
missing_in_cycle = refl

get_provider_by_key-Decides_example :
    Decides two_modules (own_provider 7) 0 (get_provider_by_key two_modules 0 7)
get_provider_by_key-Decides_example = get_provider_by_key-Decides two_modules 0 7

-- A module, a global module, and a provider that `register` puts into the global one.
abbrev one_module : Container
one_module = (add_module create 10 11).0

abbrev with_global : Container
with_global = add_global_module (add_module one_module 20 21).0 1

abbrev shop : Container
shop = register scopes 90 91 with_global (type_provider 5 ∷ []) (some 20)

global_registered : with_global.heap ≡ new_module 10 11 ∷ new_module 20 21 ∷ []
unfolding add_global_module add_module create_module bind_globals_to_imports bind_each get put
global_registered = refl

-- Module 0 is named 11, and the global module 1 provides the token 5.
abbrev globals_only : Container
globals_only = record {
  heap =
      new_module 10 11
      ∷ (record {
        metatype = 20;
        token = 21;
        providers = (5, 0) ∷ [];
        controllers = [];
        imports = [];
        exports = [];
      })
      ∷ [];
  wrappers = provider_wrapper scopes 1 (type_provider 5) ∷ [];
  modules = (11, 0) ∷ (21, 1) ∷ [];
  global_modules = 1 ∷ [];
  module_by_metatype = (10, 0) ∷ (20, 1) ∷ [];
  session_initialized = [];
}

global_provider_found_example : get_provider_by_key (bind_global_scope globals_only).heap 0 5 ≢ none
unfolding get
global_provider_found_example =
    global_provider_found globals_only 5 11 0 1 0 (new_module 10 11)
      (record {
        metatype = 20;
        token = 21;
        providers = (5, 0) ∷ [];
        controllers = [];
        imports = [];
        exports = [];
      })
      refl refl refl refl refl

-- A class 30 whose constructor takes the token 5, and a class 5 with no parameters; `made` is the
-- object that the n-th construction gives.
abbrev made : ℕ → Value
made n = object (n + 100)

abbrev shop_env : Env
shop_env = record {
  module_ref_token = 99;
  param_types = λ c. if c == 30 then some (direct 5) ∷ [] else [];
  injection_metadata = λ c. [];
  optional_params = λ c. [];
  has_prototype = λ c. true;
  construct = λ n c deps. returned (made n);
  call_factory = λ n c deps. thrown 0;
}

abbrev services : Container
services = record {
  heap =
      (record {
        metatype = 10;
        token = 11;
        providers = (5, 0) ∷ (30, 1) ∷ [];
        controllers = [];
        imports = [];
        exports = [];
      })
      ∷ [];
  wrappers =
      provider_wrapper scopes 0 (type_provider 5)
      ∷ provider_wrapper scopes 0 (type_provider 30)
      ∷ [];
  modules = (11, 0) ∷ [];
  global_modules = [];
  module_by_metatype = (10, 0) ∷ [];
  session_initialized = [];
}

abbrev services_state : State
services_state = record { wrappers = services.wrappers; chain = []; created = [] }

abbrev ask : Ref → Call
ask t = record {
  from_module = none;
  fuel = 5;
  transient_context = 2;
  request_context = none;
  module_key = some 10;
  context = 1;
  token = t;
}

abbrev two_calls : List Call
two_calls = ask 30 ∷ ask 5 ∷ []

-- The dependency is made first, and the second call makes nothing.
dependency_first : (run_calls shop_env services two_calls services_state).created ≡ 0 ∷ 1 ∷ []
unfolding run_calls get_call get_instance find_wrapper load_direct load_and_read is_transient
    is_factory is_resolved_in get_instance_by_context_id set_instance_by_context_id provider_wrapper
    load_wrapper enter_context build_instance store_instance resolve_params wrapper_params
    instantiate_class read_instance find_provider get_provider_by_key find_by_key search_imports get
    put resolve_dependency
dependency_first = refl

abbrev service_5 : InstanceWrapper
service_5 = record {
  token = 5;
  host = some 0;
  is_alias = false;
  alias_target = none;
  scope = singleton;
  metatype = some 5;
  inject = none;
  static_value = record { instance_value = made 0; is_resolved = true };
  values = [];
}

two_calls_made :
    get_elem? (run_calls shop_env services two_calls services_state).wrappers 0 ≡ some service_5
unfolding run_calls get_call get_instance find_wrapper load_direct load_and_read is_transient
    is_factory is_resolved_in get_instance_by_context_id set_instance_by_context_id provider_wrapper
    load_wrapper enter_context build_instance store_instance resolve_params wrapper_params
    instantiate_class read_instance find_provider get_provider_by_key find_by_key search_imports get
    put resolve_dependency
two_calls_made = refl

no_contexts_of_services :
    (w : ℕ) (x : InstanceWrapper) → get_elem? services_state.wrappers w ≡ some x → x.values ≡ []
unfolding provider_wrapper
no_contexts_of_services zero x h = ground arith
no_contexts_of_services (suc zero) x h = ground arith
no_contexts_of_services (suc (suc w)) x h = ground arith

singleton_made_once_example :
    (count 0 (run_calls shop_env services two_calls services_state).created ≤ 1)
    × ((run_calls shop_env services two_calls services_state).chain ≡ services_state.chain)
singleton_made_once_example =
    singleton_made_once shop_env services services_state
      (record { none_created = refl; no_contexts = no_contexts_of_services }) two_calls 0 service_5
      two_calls_made refl

abbrev running : State
running = record {
  wrappers = service_5 ∷ provider_wrapper scopes 0 (type_provider 30) ∷ [];
  chain = [];
  created = 0 ∷ [];
}

resolved_instance_stays_example :
    (y : InstanceWrapper) × (get_elem? (run_calls shop_env services two_calls running).wrappers 0
      ≡ some y)
    × (y.static_value ≡ service_5.static_value)
resolved_instance_stays_example =
    resolved_instance_stays shop_env services running two_calls 0 service_5 refl refl

-- Two tokens, each an alias of the other.
abbrev mirrors : List Module
mirrors =
    (record {
      metatype = 10;
      token = 11;
      providers = (7, 0) ∷ (8, 1) ∷ [];
      controllers = [];
      imports = [];
      exports = [];
    })
    ∷ []

abbrev mirror_state : State
mirror_state = record {
  wrappers =
      provider_wrapper scopes 0 (custom_provider 7 none (use_existing 8))
      ∷ provider_wrapper scopes 0 (custom_provider 8 none (use_existing 7))
      ∷ [];
  chain = [];
  created = [];
}

abbrev IsMirror : Ref → Type 0
IsMirror t = (t ≡ 7) ⊎ (t ≡ 8)

abbrev LoopsOn : Ref → Type 0
LoopsOn t =
    ((t == shop_env.module_ref_token) ≡ false)
    × ((w : ℕ) × (x : InstanceWrapper) × (target : Ref) × (find_provider mirrors [] t 0 ≡ some w)
        × (get_elem? mirror_state.wrappers w ≡ some x)
        × (alias_of x ≡ some target)
        × IsMirror target)

mirror_7 : LoopsOn 7
unfolding find_provider get_provider_by_key find_by_key search_imports get provider_wrapper
mirror_7 = (
  refl,
  (
    0,
    provider_wrapper scopes 0 (custom_provider 7 none (use_existing 8)),
    8,
    refl,
    refl,
    refl,
    inr refl,
  ),
)

mirror_8 : LoopsOn 8
unfolding find_provider get_provider_by_key find_by_key search_imports get provider_wrapper
mirror_8 = (
  refl,
  (
    1,
    provider_wrapper scopes 0 (custom_provider 8 none (use_existing 7)),
    7,
    refl,
    refl,
    refl,
    inl refl,
  ),
)

mirrors_loop : (t : Ref) → IsMirror t → LoopsOn t
mirrors_loop t (inl e) = subst LoopsOn (sym e) mirror_7
mirrors_loop t (inr e) = subst LoopsOn (sym e) mirror_8

alias_cycle_diverges_example :
    resolve_dependency shop_env mirrors [] 1000 0 1 7 mirror_state ≡ (out_of_fuel, mirror_state)
alias_cycle_diverges_example =
    alias_cycle_diverges shop_env mirrors [] 0 1 mirror_state IsMirror mirrors_loop 1000 7
      (inl refl)

-- Wrapper 0 is under construction.
abbrev in_progress : State
in_progress = record { wrappers = services.wrappers; chain = 0 ∷ []; created = [] }

pending_5 :
    is_resolved_in shop_env.has_prototype (provider_wrapper scopes 0 (type_provider 5)) 1 ≡ false
unfolding is_resolved_in get_instance_by_context_id provider_wrapper
pending_5 = refl

direct_5 : (provider_wrapper scopes 0 (type_provider 5)).is_alias ≡ false
unfolding provider_wrapper
direct_5 = refl
