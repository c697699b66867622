-- ===== src/Core/Lifecycle.antt =====
-- packages/core/src/lifecycle/lifecycle-manager.ts, and the second pass of
-- initializeSingletonProviders in packages/core/src/core/module.utils.ts, which calls onModuleInit
-- and registers the instances. Instances are numbers; their hooks are code of the program.
pub mod Once
use elysia_nest.Base.{
  ℕ, Bool, true, false, not, ◌&&◌, Option, none, some, List, [], ◌∷◌, ◌++◌, if◌then◌else◌, has,
  nat_eq,
}

infixl 20 ◌>>=◌
abbrev ◌>>=◌ : {A B : Type 0} → Option A → (A → Option B) → Option B
none >>= f = none
some a >>= f = f a

pub data Hook : Type 0 where
  on_module_destroy before_application_shutdown on_application_shutdown : Hook

pub record Hooks : Type 0 where
  -- `typeof instance === "object"`
  pub is_object : ℕ → Bool
  -- Whether a property can be assigned: not so for a primitive value or a frozen object.
  pub takes_flags : ℕ → Bool
  pub has_init : ℕ → Bool
  pub init_throws : ℕ → Bool
  pub has_bootstrap : ℕ → Bool
  pub bootstrap_throws : ℕ → Bool
  pub has_hook : Hook → ℕ → Bool
  pub hook_throws : Hook → ℕ → Bool

-- The manager, and what its calls leave on the instances.
pub record Lifecycle : Type 0 where
  pub providers : List ℕ
  pub bootstrap_triggered : Bool
  -- The instances that carry `__lifecycleRegistered` and `__onModuleInitCalled`. These flags are
  -- properties of the instances: a manager that is new or cleared finds them where they were set.
  pub registered : List ℕ
  pub init_called : List ℕ
  -- All calls of onModuleInit.
  pub inits : List ℕ

pub record HookRun : Type 0 where
  pub calls : List ℕ
  -- The providers whose error was logged.
  pub logged : List ℕ

-- A new manager, and no instance with a flag.
abbrev pub new_lifecycle : Lifecycle
new_lifecycle = record {
  providers = [];
  bootstrap_triggered = false;
  registered = [];
  init_called = [];
  inits = [];
}

-- `LifecycleManager.clear`
abbrev pub clear_lifecycle : Lifecycle → Lifecycle
clear_lifecycle s = record s { providers = []; bootstrap_triggered = false }

-- `LifecycleManager.register`, of an instance that exists.
unfoldable pub register_provider : ℕ → Lifecycle → Lifecycle
register_provider x s = record s { providers = s.providers ++ x ∷ [] }

module _ (p : Hooks) where
  -- Nothing is returned where onModuleInit or the assignment of the flag throws.
  unfoldable pub init_instance : ℕ → Lifecycle → Option Lifecycle
  init_instance x s =
      if p.has_init x && not (has s.init_called x)
      then if not (p.init_throws x) && p.takes_flags x
        then some (record s { init_called = x ∷ s.init_called; inits = s.inits ++ x ∷ [] })
        else none
      else some s

  unfoldable pub register_instance : ℕ → Lifecycle → Option Lifecycle
  register_instance x s =
      if not (has s.registered x)
      then if p.takes_flags x
        then some (register_provider x (record s { registered = x ∷ s.registered }))
        else none
      else some s

  unfoldable pub init_instances : List ℕ → Lifecycle → Option Lifecycle
  init_instances [] s = some s
  init_instances (x ∷ xs) s = do
    s₁ ← init_instance x s
    s₂ ← register_instance x s₁
    init_instances xs s₂

  -- The calls of onApplicationBootstrap, up to the first that throws.
  unfoldable pub bootstrap_each : List ℕ → List ℕ
  bootstrap_each [] = []
  bootstrap_each (x ∷ xs) =
      let rest = bootstrap_each xs in
      if p.is_object x && p.has_bootstrap x
      then if p.bootstrap_throws x then x ∷ [] else x ∷ rest
      else rest

  unfoldable pub trigger_on_application_bootstrap : Lifecycle → List ℕ × Lifecycle
  trigger_on_application_bootstrap s =
      if s.bootstrap_triggered
      then ([], s)
      else (bootstrap_each s.providers, record s { bootstrap_triggered = true })

  unfoldable pub run_hook : Hook → List ℕ → HookRun
  run_hook h [] = record { calls = []; logged = [] }
  run_hook h (x ∷ xs) =
      let rest = run_hook h xs in
      if p.is_object x && p.has_hook h x
      then record {
        calls = x ∷ rest.calls;
        logged = if p.hook_throws h x then x ∷ rest.logged else rest.logged;
      }
      else rest
