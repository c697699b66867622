-- ===== src/Di/Container/Globals.antt =====
-- The providers of global modules are found from every registered module.
use elysia_nest.Base.{
  ℕ, ◌≡◌, refl, sym, ap, subst, ◌∙◌, ◌≢◌, inl, inr, true, none, some, List, [], ◌∷◌, arith, Map,
  get, has, has-add, get_elem?, get_elem?-set_self, get_elem?-set_ne, lt-length_of_get_elem?,
  Bool-cases, Option-cases, if◌then◌else◌, nat_eq, nat_beq, nat_beq_iff, ◌==◌,
}
use elysia_nest.Di.Wrapper.{Ref}
use elysia_nest.Di.Module.{Module, add_import, get_provider_by_key}
use elysia_nest.Di.Module.Lookup.{ReachedFrom, here, step}
use elysia_nest.Di.Module.Decides.{get_provider_by_key-Decides}
use elysia_nest.Di.Container.{
  Container, update_module, bind_global_module_to_module, bind_each, bind_all, bind_global_scope,
}

-- Module `m` of the second heap has the providers that it has in the first, and at least its
-- imports.
pub record Extends (old new : List Module) (m : ℕ) : Type 0 where
  pub kept :
      (r : Module)
      → get_elem? old m ≡ some r
      → (q : Module) × (get_elem? new m ≡ some q)
        × (q.providers ≡ r.providers)
        × ((x : ℕ) → has r.imports x ≡ true → has q.imports x ≡ true)

abbrev pub ImportsIn : List Module → ℕ → ℕ → Type 0
ImportsIn heap m g = (q : Module) × (get_elem? heap m ≡ some q) × (has q.imports g ≡ true)

Extends-refl : (heap : List Module) (m : ℕ) → Extends heap heap m
Extends-refl heap m = record { kept = λ r at. (r, at, refl, λ x h. h) }

Extends-trans : (a b c : List Module) (m : ℕ) → Extends a b m → Extends b c m → Extends a c m
Extends-trans a b c m x y = record {
  kept = λ r at.
      let (q, at_q, same_q, more_q) = x.kept r at in
      let (p, at_p, same_p, more_p) = y.kept q at_q in
      (p, at_p, same_p ∙ same_q, λ i h. more_p i (more_q i h));
}

ImportsIn-Extends :
    (a b : List Module) (m g : ℕ) → Extends a b m → ImportsIn a m g → ImportsIn b m g
ImportsIn-Extends a b m g x (q, at, h) =
    let (p, at_p, same, more) = x.kept q at in (p, at_p, more g h)

-- A module after an update of module `target`.
pub get_elem?-update_module :
    (heap : List Module) (target m : ℕ) (f : Module → Module) (r : Module)
    → get_elem? heap m ≡ some r
    → get_elem? (update_module heap target f) m ≡ some (if target == m then f r else r)
unfolding update_module
get_elem?-update_module heap target m f r at = elim (Bool-cases (nat_beq target m)) [
  | inl same ↦
      let e = (nat_beq_iff target m).0 same in
      ground (arith, get_elem?-set_self heap target (f r) (rw e (lt-length_of_get_elem? heap m at)))
  | inr other ↦ elim (Option-cases (get_elem? heap target)) [
    | inl gone ↦ ground arith
    | inr (q, at_q) ↦
        ground (arith, get_elem?-set_ne heap target m (f q) (λ e. cc ((nat_beq_iff target m).1 e)))
  ]
]

abbrev bound : ℕ → ℕ → ℕ → Module → Module
bound target global m r =
    if target == global then r else (if target == m then add_import r global else r)

get_elem?-bind :
    (heap : List Module) (target global m : ℕ) (r : Module)
    → get_elem? heap m ≡ some r
    → get_elem? (bind_global_module_to_module heap target global) m ≡ some (bound target global m r)
unfolding bind_global_module_to_module
get_elem?-bind heap target global m r at = elim (Bool-cases (nat_beq target global)) [
  | inl same ↦ rw same at
  | inr other ↦ rw other (get_elem?-update_module heap target m (λ q. add_import q global) r at)
]

providers-bound :
    (target global m : ℕ) (r : Module) → (bound target global m r).providers ≡ r.providers
unfolding add_import
providers-bound target global m r = ground arith

imports-bound :
    (target global m x : ℕ) (r : Module)
    → has r.imports x ≡ true
    → has (bound target global m r).imports x ≡ true
unfolding add_import
imports-bound target global m x r h = ground (arith, has-add r.imports global x)

Extends-bind :
    (heap : List Module) (target global m : ℕ)
    → Extends heap (bind_global_module_to_module heap target global) m
Extends-bind heap target global m = record {
  kept = λ r at. (
    bound target global m r,
    get_elem?-bind heap target global m r at,
    providers-bound target global m r,
    λ x h. imports-bound target global m x r h,
  );
}

imports-bound_self :
    (target global : ℕ) (r : Module)
    → target ≢ global
    → has (bound target global target r).imports global ≡ true
unfolding add_import
imports-bound_self target global r ne =
    ground
      (arith, has-add r.imports global global, nat_beq_iff global global, nat_beq_iff target target)

ImportsIn-bind :
    (heap : List Module) (target global : ℕ) (r : Module)
    → get_elem? heap target ≡ some r
    → target ≢ global
    → ImportsIn (bind_global_module_to_module heap target global) target global
ImportsIn-bind heap target global r at ne = (
  bound target global target r,
  get_elem?-bind heap target global target r at,
  imports-bound_self target global r ne,
)

Extends-bind_each :
    (heap : List Module) (target : ℕ) (gs : List ℕ) (m : ℕ)
    → Extends heap (bind_each heap target gs) m
unfolding bind_each
Extends-bind_each heap target [] m = Extends-refl heap m
Extends-bind_each heap target (g ∷ gs) m =
    Extends-trans heap (bind_global_module_to_module heap target g) _ m
      (Extends-bind heap target g m)
      (Extends-bind_each (bind_global_module_to_module heap target g) target gs m)

-- Binding the globals to a module makes it import each of them but itself.
pub ImportsIn-bind_each :
    (heap : List Module) (target : ℕ) (gs : List ℕ) (g : ℕ) (r : Module)
    → get_elem? heap target ≡ some r
    → has gs g ≡ true
    → target ≢ g
    → ImportsIn (bind_each heap target gs) target g
unfolding bind_each
ImportsIn-bind_each heap target [] g r at listed ne = absurd (ground arith)
ImportsIn-bind_each heap target (x ∷ gs) g r at listed ne = elim (Bool-cases (nat_beq x g)) [
  | inl same ↦
      let e = (nat_beq_iff x g).0 same in
      subst
        (λ y. ImportsIn (bind_each (bind_global_module_to_module heap target y) target gs) target g)
        (sym e)
        (ImportsIn-Extends _ _ target g
          (Extends-bind_each (bind_global_module_to_module heap target g) target gs target)
          (ImportsIn-bind heap target g r at ne))
  | inr other ↦
      ImportsIn-bind_each (bind_global_module_to_module heap target x) target gs g
        (bound target x target r) (get_elem?-bind heap target x target r at) (ground arith) ne
]

Extends-bind_all :
    (globals : List ℕ) (heap : List Module) (ms : Map Ref ℕ) (m : ℕ)
    → Extends heap (bind_all globals heap ms) m
unfolding bind_all
Extends-bind_all globals heap [] m = Extends-refl heap m
Extends-bind_all globals heap ((t, x) ∷ ms) m =
    Extends-trans heap (bind_each heap x globals) _ m (Extends-bind_each heap x globals m)
      (Extends-bind_all globals (bind_each heap x globals) ms m)

ImportsIn-bind_all :
    (globals : List ℕ) (heap : List Module) (ms : Map Ref ℕ) (token : Ref) (m g : ℕ) (r : Module)
    → get ms token ≡ some m
    → get_elem? heap m ≡ some r
    → has globals g ≡ true
    → m ≢ g
    → ImportsIn (bind_all globals heap ms) m g
unfolding bind_all get
ImportsIn-bind_all globals heap [] token m g r named at listed ne = absurd (ground arith)
ImportsIn-bind_all globals heap ((t, x) ∷ ms) token m g r named at listed ne =
    elim (Bool-cases (nat_beq t token)) [
      | inl same ↦
          let e : x ≡ m = ground arith in
          subst (λ y. ImportsIn (bind_all globals (bind_each heap y globals) ms) m g) (sym e)
            (ImportsIn-Extends _ _ m g (Extends-bind_all globals (bind_each heap m globals) ms m)
              (ImportsIn-bind_each heap m globals g r at listed ne))
      | inr other ↦
          let (q, at_q, same, more) = (Extends-bind_each heap x globals m).kept r at in
          ImportsIn-bind_all globals (bind_each heap x globals) ms token m g q (ground arith) at_q
            listed ne
    ]

-- After `bindGlobalScope`, a token that a global module provides is found from every registered
-- module.
pub global_provider_found :
    (c : Container) (token name : Ref) (m g w : ℕ) (r q : Module)
    → get c.modules name ≡ some m
    → get_elem? c.heap m ≡ some r
    → has c.global_modules g ≡ true
    → get_elem? c.heap g ≡ some q
    → get q.providers token ≡ some w
    → get_provider_by_key (bind_global_scope c).heap m token ≢ none
unfolding bind_global_scope
global_provider_found c token name m g w r q named at_m listed at_g owned missing =
    let heap' = bind_all c.global_modules c.heap c.modules in
    let (q', at', same, more) =
      (Extends-bind_all c.global_modules c.heap c.modules g).kept q at_g in
    elim (get_provider_by_key-Decides heap' m token) [
      | inl (x, e, p) ↦ cc
      | inr (e, none_owned) ↦ elim (Bool-cases (nat_beq m g)) [
        | inl self ↦
            let to_g = subst (λ y. ReachedFrom heap' y m) ((nat_beq_iff m g).0 self) here in
            cc (none_owned g q' to_g at', ap (λ ps. get ps token) same)
        | inr other ↦
            let (i, at_i, h) =
              ImportsIn-bind_all c.global_modules c.heap c.modules name m g r named at_m listed
                (λ k. cc ((nat_beq_iff m g).1 k)) in
            cc (
              none_owned g q' (step (record { importer = i; at_ = at_i; listed = h }) here) at',
              ap (λ ps. get ps token) same,
            )
      ]
    ]
