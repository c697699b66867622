-- ===== src/Core/Tests.antt =====
-- Four exception filters, of which the third answers, and the lifecycle of three instances.
use elysia_nest.Base.{
  ℕ, ◌≡◌, refl, true, false, some, none, nat_eq, ◌==◌, [], ◌∷◌, filter, if◌then◌else◌, not, count,
}
use elysia_nest.Core.Filters.{
  Filters, gave, gave_undefined, apply_exception_filters, catches_all, answered, each_filter,
}
use elysia_nest.Core.Lifecycle.{
  Hooks, Lifecycle, on_module_destroy, new_lifecycle, register_provider, init_instance,
  register_instance, init_instances, run_hook, clear_lifecycle, trigger_on_application_bootstrap,
}
use elysia_nest.Core.Lifecycle.Once.{hooks_called_once}
use elysia_nest.Core.Filters.Ordered.{IsPrefix, IsDecidedBy, filters_in_order}

-- The filter 1 catches another class, 2 gives undefined, 3 and 4 give a value.
abbrev program : Filters ℕ ℕ
program = record {
  catch_exceptions = λ f. if f == 1 then some (9 ∷ []) else none;
  is_instance = λ t. false;
  catch_ = λ f c. (c, if f == 2 then gave_undefined else gave f);
}

third_answers : (apply_exception_filters program true (1 ∷ 2 ∷ 3 ∷ 4 ∷ []) 0).answer ≡ answered 3
unfolding apply_exception_filters each_filter
third_answers = refl

filters_in_order_example :
    IsPrefix
      (filter (catches_all program) (1 ∷ 2 ∷ 3 ∷ 4 ∷ []))
      (apply_exception_filters program true (1 ∷ 2 ∷ 3 ∷ 4 ∷ []) 0).calls
      (apply_exception_filters program true (1 ∷ 2 ∷ 3 ∷ 4 ∷ []) 0).answer
    × IsDecidedBy
        (apply_exception_filters program true (1 ∷ 2 ∷ 3 ∷ 4 ∷ []) 0).calls
        (apply_exception_filters program true (1 ∷ 2 ∷ 3 ∷ 4 ∷ []) 0).answer
filters_in_order_example = filters_in_order program (1 ∷ 2 ∷ 3 ∷ 4 ∷ []) 0

-- The instance 1 has no onModuleInit; 2 throws at the shutdown, for which 3 has no hook.
abbrev hooks : Hooks
hooks = record {
  is_object = λ x. true;
  takes_flags = λ x. true;
  has_init = λ x. not (x == 1);
  init_throws = λ x. false;
  has_bootstrap = λ x. true;
  bootstrap_throws = λ x. x == 3;
  has_hook = λ h x. not (x == 3);
  hook_throws = λ h x. x == 2;
}

shutdown_goes_on : (run_hook hooks on_module_destroy (2 ∷ 3 ∷ 1 ∷ [])).calls ≡ 2 ∷ 1 ∷ []
unfolding run_hook
shutdown_goes_on = refl

-- A string that a factory gives takes no flag.
primitive_instance_fails :
    init_instances (record hooks { takes_flags = λ x. x == 1 }) (1 ∷ 2 ∷ []) new_lifecycle ≡ none
unfolding init_instances init_instance register_instance register_provider
primitive_instance_fails = refl

-- An object that kept its flags is not registered with a manager that was cleared.
reused_instance_left_out :
    init_instances hooks
      (2 ∷ [])
      (clear_lifecycle (record new_lifecycle { registered = 2 ∷ []; init_called = 2 ∷ [] }))
    ≡ some (record new_lifecycle { registered = 2 ∷ []; init_called = 2 ∷ [] })
unfolding init_instances init_instance register_instance
reused_instance_left_out = refl

bootstrap_once :
    (trigger_on_application_bootstrap hooks
      (trigger_on_application_bootstrap hooks new_lifecycle).1).0
    ≡ []
unfolding trigger_on_application_bootstrap
bootstrap_once = refl

hooks_called_once_example :
    (s : Lifecycle) × (init_instances hooks (1 ∷ 2 ∷ 3 ∷ 2 ∷ []) new_lifecycle ≡ some s)
    × (count 2 s.inits ≡ 1)
    × (count 2 s.providers ≡ 1)
    × (count 2 (run_hook hooks on_module_destroy s.providers).calls ≡ 1)
hooks_called_once_example =
    hooks_called_once hooks (1 ∷ 2 ∷ 3 ∷ 2 ∷ []) on_module_destroy 2 new_lifecycle
      (λ x m. (refl, refl)) refl
