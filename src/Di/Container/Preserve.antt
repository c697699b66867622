-- ===== src/Di/Container/Preserve.antt =====
-- Every operation of the container keeps it well formed.
use elysia_nest.Base.{
  ℕ, ◌<◌, ◌≡◌, refl, ap, subst, ◌∙◌, ◌⊎◌, inl, inr, true, Option, some, List, [], ◌∷◌, ◌++◌, arith,
  Map, get, get-put, has, has-add, get_elem?, length, length-append, get_elem?-append_left,
  get_elem?-append_last, get_elem?-append_one, put, Bool-cases, Option-cases, if◌then◌else◌, nat_eq,
  nat_beq, nat_beq_iff, ◌==◌,
}
use elysia_nest.Di.Wrapper.{Ref, Scope, InstanceWrapper}
use elysia_nest.Di.Module.{
  Module, Provider, provider_token, provider_wrapper, controller_wrapper, type_provider,
  custom_provider, add_export, use_class, use_factory, use_value, use_existing, bare,
}
use elysia_nest.Di.Container.{
  Container, create, add_import_to, add_export_to, update_module, bind_global_scope,
  bind_globals_to_imports, add_global_module, new_module, create_module, add_module, add_provider,
  add_controller, add_providers, add_controllers, target_module, module_of_key, first_module,
  register, register_controllers, clear,
}
use elysia_nest.Di.Container.Globals.{get_elem?-update_module}
use elysia_nest.Di.Container.WellFormed.{
  IsWellFormed, updated_at, length-update_module, Bound-update_module, Bound-add_import,
  Bound-bind_each, Bound-bind_all, IsWellFormed-Bound,
}

pub IsWellFormed-create : IsWellFormed create
unfolding get
IsWellFormed-create = record {
  named = λ t m h. absurd (ground arith);
  classed = λ k m h. absurd (ground arith);
  globals = λ m h. absurd (ground arith);
  imported = λ i j r h k. absurd (ground arith);
  hosted = λ i w r t h k. absurd (ground arith);
}

pub IsWellFormed-bind_globals_to_imports :
    (c : Container) (m : ℕ) → IsWellFormed c → IsWellFormed (bind_globals_to_imports c m)
unfolding bind_globals_to_imports
IsWellFormed-bind_globals_to_imports c m v =
    IsWellFormed-Bound c c.global_modules _ v.globals
      (Bound-bind_each c.global_modules c.heap m c.global_modules (λ x k. k)) v

pub IsWellFormed-bind_global_scope :
    (c : Container) → IsWellFormed c → IsWellFormed (bind_global_scope c)
unfolding bind_global_scope
IsWellFormed-bind_global_scope c v =
    IsWellFormed-Bound c c.global_modules _ v.globals
      (Bound-bind_all c.global_modules c.heap c.modules) v

pub IsWellFormed-add_import_to :
    (c : Container) (m i : ℕ)
    → i < length c.heap
    → IsWellFormed c
    → IsWellFormed (add_import_to c m i)
unfolding add_import_to
IsWellFormed-add_import_to c m i h v =
    IsWellFormed-Bound c (i ∷ []) _ (λ x k. ground (arith, nat_beq_iff i x))
      (Bound-add_import (i ∷ []) c.heap m i (ground (arith, nat_beq_iff i i))) v

pub IsWellFormed-add_export_to :
    (c : Container) (m : ℕ) (token : Ref) → IsWellFormed c → IsWellFormed (add_export_to c m token)
unfolding add_export_to add_export
IsWellFormed-add_export_to c m token v =
    IsWellFormed-Bound c [] _ (λ x k. absurd (ground arith))
      (Bound-update_module [] c.heap m (λ r. add_export r token) (λ r. refl) (λ r. refl)
        (λ r x k. inl k))
      v

pub IsWellFormed-add_global_module :
    (c : Container) (m : ℕ)
    → m < length c.heap
    → IsWellFormed c
    → IsWellFormed (add_global_module c m)
unfolding add_global_module
IsWellFormed-add_global_module c m h v = record {
  named = v.named;
  classed = v.classed;
  globals = λ x k. ground (arith, has-add c.global_modules m x, nat_beq_iff m x, v.globals x);
  imported = v.imported;
  hosted = v.hosted;
}

abbrev grown : Container → Ref → Ref → Container
grown c metatype token = record c {
  heap = c.heap ++ new_module metatype token ∷ [];
  modules = put c.modules token (length c.heap);
  module_by_metatype = put c.module_by_metatype metatype (length c.heap);
}

IsWellFormed-grown :
    (c : Container) (metatype token : Ref) → IsWellFormed c → IsWellFormed (grown c metatype token)
unfolding get
IsWellFormed-grown c metatype token v =
    let one = length-append c.heap (new_module metatype token ∷ []) in
    record {
      named = λ t m h. ground (arith, get-put c.modules token (length c.heap) t, v.named t m);
      classed = λ k m h. elim (Bool-cases (nat_beq metatype k)) [
        | inl same ↦
            let e : length c.heap ≡ m =
              ground (arith, get-put c.module_by_metatype metatype (length c.heap) k) in
            (
              new_module metatype token,
              subst
                  (λ i.
                    get_elem? (grown c metatype token).heap i ≡ some (new_module metatype token))
                  e (get_elem?-append_last c.heap (new_module metatype token)),
              (nat_beq_iff metatype k).0 same,
            )
        | inr other ↦
            let (r, at, e) =
              v.classed k m
                (ground (arith, get-put c.module_by_metatype metatype (length c.heap) k)) in
            (r, get_elem?-append_left c.heap _ m at, e)
      ];
      globals = λ m h. omega (arith, v.globals m h);
      imported = λ i j r at h.
          elim (get_elem?-append_one c.heap (new_module metatype token) r i at) [
            | inl old ↦ omega (arith, v.imported i j r old h)
            | inr (last, same) ↦ absurd (ground arith)
          ];
      hosted = λ i w r t at h.
          elim (get_elem?-append_one c.heap (new_module metatype token) r i at) [
            | inl old ↦ v.hosted i w r t old h
            | inr (last, same) ↦ absurd (ground arith)
          ];
    }

pub IsWellFormed-add_module :
    (c : Container) (metatype token : Ref)
    → IsWellFormed c
    → IsWellFormed (add_module c metatype token).0
unfolding add_module create_module
IsWellFormed-add_module c metatype token v = elim (Option-cases (get c.modules token)) [
  | inr (m, e) ↦ rw (e, add_module) v
  | inl e ↦ elim (Option-cases (get c.module_by_metatype metatype)) [
    | inr (m, e') ↦ rw (e, add_module) (rw e' v)
    | inl e' ↦
        rw (e, add_module)
          (rw e' (
            IsWellFormed-bind_globals_to_imports (grown c metatype token) (length c.heap)
              (IsWellFormed-grown c metatype token v)))
  ]
]

provider_wrapper_fields :
    (scopes : Ref → Option Scope) (m : ℕ) (p : Provider)
    → ((provider_wrapper scopes m p).token ≡ provider_token p)
      × ((provider_wrapper scopes m p).host ≡ some m)
unfolding provider_wrapper
provider_wrapper_fields scopes m (type_provider c) = (refl, refl)
provider_wrapper_fields scopes m (custom_provider t s (use_class c)) = (refl, refl)
provider_wrapper_fields scopes m (custom_provider t s (use_factory f i)) = (refl, refl)
provider_wrapper_fields scopes m (custom_provider t s (use_value x)) = (refl, refl)
provider_wrapper_fields scopes m (custom_provider t s (use_existing x)) = (refl, refl)
provider_wrapper_fields scopes m (custom_provider t s bare) = (refl, refl)

-- An update of a module and one more wrapper keep all but, perhaps, `hosted`.
IsWellFormed-updated :
    (c : Container) (m : ℕ) (f : Module → Module) (x : InstanceWrapper)
    → ((r : Module) → (f r).metatype ≡ r.metatype)
    → ((r : Module) → (f r).imports ≡ r.imports)
    → ((r : Module) (t : Ref) (w : ℕ)
        → get (f r).providers t ≡ some w
        → (get r.providers t ≡ some w)
          ⊎ ((w ≡ length c.wrappers) × (x.token ≡ t) × (x.host ≡ some m)))
    → IsWellFormed c
    → IsWellFormed (record c { wrappers = c.wrappers ++ x ∷ []; heap = update_module c.heap m f })
IsWellFormed-updated c m f x metatypes imports provided v =
    let size = length-update_module c.heap m f in
    record {
      named = λ t k h. rw size (v.named t k h);
      classed = λ k j h.
          let (r, at, e) = v.classed k j h in
          (
            (if m == j then f r else r),
            get_elem?-update_module c.heap m j f r at,
            ground (arith, metatypes r),
          );
      globals = λ k h. rw size (v.globals k h);
      imported = λ i j q at h.
          let (r, at_r, e) = updated_at c.heap m i f q at in
          let same : q.imports ≡ r.imports = ground (arith, imports r) in
          rw size (v.imported i j r at_r (subst (λ l. has l j ≡ true) same h));
      hosted = λ i w q t at h.
          let (r, at_r, e) = updated_at c.heap m i f q at in
          elim (Bool-cases (nat_beq m i)) [
            | inl same ↦
                let self = (nat_beq_iff m i).0 same in
                let e' : q ≡ f r = ground arith in
                elim (provided r t w (subst (λ y. get y.providers t ≡ some w) e' h)) [
                  | inl old ↦
                      let (y, at_y, named, host) = v.hosted i w r t at_r old in
                      (y, get_elem?-append_left c.wrappers _ w at_y, named, host)
                  | inr (last, named, host) ↦
                      (x, rw last (get_elem?-append_last c.wrappers x), named, host ∙ ap some self)
                ]
            | inr other ↦
                let e' : q ≡ r = ground arith in
                let (y, at_y, named, host) =
                  v.hosted i w r t at_r (subst (λ z. get z.providers t ≡ some w) e' h) in
                (y, get_elem?-append_left c.wrappers _ w at_y, named, host)
          ];
    }

pub IsWellFormed-add_provider :
    (scopes : Ref → Option Scope) (m : ℕ) (c : Container) (p : Provider)
    → IsWellFormed c
    → IsWellFormed (add_provider scopes m c p)
unfolding add_provider
IsWellFormed-add_provider scopes m c p v =
    IsWellFormed-updated c m _ (provider_wrapper scopes m p) (λ r. refl) (λ r. refl)
      (λ r t w h. ground (
        arith,
        get-put r.providers (provider_token p) (length c.wrappers) t,
        nat_beq_iff (provider_token p) t,
        provider_wrapper_fields scopes m p,
      ))
      v

pub IsWellFormed-add_controller :
    (m : ℕ) (c : Container) (class_ : Ref)
    → IsWellFormed c
    → IsWellFormed (add_controller m c class_)
unfolding add_controller
IsWellFormed-add_controller m c class_ v =
    IsWellFormed-updated c m _ (controller_wrapper m class_) (λ r. refl) (λ r. refl)
      (λ r t w h. inl h) v

IsWellFormed-add_providers :
    (scopes : Ref → Option Scope) (m : ℕ) (c : Container) (ps : List Provider)
    → IsWellFormed c
    → IsWellFormed (add_providers scopes m c ps)
unfolding add_providers
IsWellFormed-add_providers scopes m c [] v = v
IsWellFormed-add_providers scopes m c (p ∷ ps) v =
    IsWellFormed-add_providers scopes m (add_provider scopes m c p) ps
      (IsWellFormed-add_provider scopes m c p v)

IsWellFormed-add_controllers :
    (m : ℕ) (c : Container) (ks : List Ref) → IsWellFormed c → IsWellFormed (add_controllers m c ks)
unfolding add_controllers
IsWellFormed-add_controllers m c [] v = v
IsWellFormed-add_controllers m c (k ∷ ks) v =
    IsWellFormed-add_controllers m (add_controller m c k) ks (IsWellFormed-add_controller m c k v)

IsWellFormed-first_module :
    (default_class default_token : Ref) (c : Container) (ms : Map Ref ℕ)
    → IsWellFormed c
    → IsWellFormed (first_module default_class default_token c ms).0
IsWellFormed-first_module k t c [] v = IsWellFormed-add_module c k t v
IsWellFormed-first_module k t c ((x, m) ∷ ms) v = v

IsWellFormed-target_module :
    (default_class default_token : Ref) (c : Container) (key : Option Ref)
    → IsWellFormed c
    → IsWellFormed (target_module default_class default_token c key).0
unfolding target_module
IsWellFormed-target_module k t c key v = elim (Option-cases (module_of_key c key)) [
  | inl e ↦ rw (e, target_module) (IsWellFormed-first_module k t c c.modules v)
  | inr (m, e) ↦ rw (e, target_module) v
]

pub IsWellFormed-register :
    (scopes : Ref → Option Scope) (default_class default_token : Ref) (c : Container)
    (providers : List Provider) (key : Option Ref)
    → IsWellFormed c
    → IsWellFormed (register scopes default_class default_token c providers key)
unfolding register
IsWellFormed-register scopes k t c ps key v =
    IsWellFormed-bind_global_scope _
      (IsWellFormed-add_providers scopes _ _ ps (IsWellFormed-target_module k t c key v))

pub IsWellFormed-register_controllers :
    (default_class default_token : Ref) (c : Container) (controllers : List Ref) (key : Option Ref)
    → IsWellFormed c
    → IsWellFormed (register_controllers default_class default_token c controllers key)
unfolding register_controllers
IsWellFormed-register_controllers k t c ks key v =
    IsWellFormed-bind_global_scope _
      (IsWellFormed-add_controllers _ _ ks (IsWellFormed-target_module k t c key v))

pub IsWellFormed-clear : (c : Container) → IsWellFormed c → IsWellFormed (clear c)
unfolding clear get
IsWellFormed-clear c v = record {
  named = λ t m h. absurd (ground arith);
  classed = λ k m h. absurd (ground arith);
  globals = λ m h. absurd (ground arith);
  imported = v.imported;
  hosted = v.hosted;
}
