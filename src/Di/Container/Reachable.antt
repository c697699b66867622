-- ===== src/Di/Container/Reachable.antt =====
-- The containers that a program can reach by the operations of the class.
use elysia_nest.Base.{ℕ, ◌<◌, Option, List, length}
use elysia_nest.Di.Wrapper.{Ref, Scope}
use elysia_nest.Di.Module.{Provider}
use elysia_nest.Di.Container.{
  Container, create, add_import_to, add_export_to, bind_global_scope, add_global_module, add_module,
  add_provider, add_controller, register, register_controllers, clear,
}

module _ (scopes : Ref → Option Scope) (default_class default_token : Ref) where
  -- One call of an operation; a global or imported module is a module that exists.
  pub data Step (c : Container) : Container → Type 0 where
    adds_module : (metatype token : Ref) → Step c (add_module c metatype token).0
    adds_global : (m : ℕ) → m < length c.heap → Step c (add_global_module c m)
    adds_import : (m i : ℕ) → i < length c.heap → Step c (add_import_to c m i)
    adds_export : (m : ℕ) (token : Ref) → Step c (add_export_to c m token)
    binds_globals : Step c (bind_global_scope c)
    adds_provider : (m : ℕ) (p : Provider) → Step c (add_provider scopes m c p)
    adds_controller : (m : ℕ) (class_ : Ref) → Step c (add_controller m c class_)
    registers :
        (ps : List Provider) (key : Option Ref)
        → Step c (register scopes default_class default_token c ps key)
    registers_controllers :
        (ks : List Ref) (key : Option Ref)
        → Step c (register_controllers default_class default_token c ks key)
    clears : Step c (clear c)

  pub data Reachable : Container → Type 0 where
    created : Reachable create
    next : {c d : Container} → Reachable c → Step c d → Reachable d
