-- ===== src/Di/Container/WellFormed.antt =====
-- The references of a container name objects, and the providers of a module are wrappers under
-- their own tokens whose host is that module.
use elysia_nest.Base.{
  ℕ, zero, suc, ◌<◌, ◌≡◌, refl, ap, subst, ◌∙◌, ◌⊎◌, inl, inr, true, some, List, [], ◌∷◌, arith,
  Map, get, has, has-add, get_elem?, length, length-set, lt-length_of_get_elem?, Bool-cases,
  Option-cases, if◌then◌else◌, nat_eq, nat_beq, nat_beq_iff, ◌==◌,
}
use elysia_nest.Di.Wrapper.{Ref, InstanceWrapper}
use elysia_nest.Di.Module.{Module, add_import}
use elysia_nest.Di.Container.{
  Container, update_module, bind_global_module_to_module, bind_each, bind_all,
}
use elysia_nest.Di.Container.Globals.{get_elem?-update_module}

pub record IsWellFormed (c : Container) : Type 0 where
  pub named : (t : Ref) (m : ℕ) → get c.modules t ≡ some m → m < length c.heap
  pub classed :
      (k : Ref) (m : ℕ)
      → get c.module_by_metatype k ≡ some m
      → (r : Module) × (get_elem? c.heap m ≡ some r) × (r.metatype ≡ k)
  pub globals : (m : ℕ) → has c.global_modules m ≡ true → m < length c.heap
  pub imported :
      (i j : ℕ) (r : Module)
      → get_elem? c.heap i ≡ some r
      → has r.imports j ≡ true
      → j < length c.heap
  pub hosted :
      (i w : ℕ) (r : Module) (t : Ref)
      → get_elem? c.heap i ≡ some r
      → get r.providers t ≡ some w
      → (x : InstanceWrapper) × (get_elem? c.wrappers w ≡ some x)
        × (x.token ≡ t)
        × (x.host ≡ some i)

-- The second heap is the first with imports of modules among `gs` added.
pub record Bound (gs : List ℕ) (old new : List Module) : Type 0 where
  pub size : length new ≡ length old
  pub forth :
      (m : ℕ) (r : Module)
      → get_elem? old m ≡ some r
      → (q : Module) × (get_elem? new m ≡ some q) × (q.metatype ≡ r.metatype)
  pub back :
      (m : ℕ) (q : Module)
      → get_elem? new m ≡ some q
      → (r : Module) × (get_elem? old m ≡ some r)
        × (q.providers ≡ r.providers)
        × ((x : ℕ) → has q.imports x ≡ true → (has r.imports x ≡ true) ⊎ (has gs x ≡ true))

pub length-update_module :
    (heap : List Module) (m : ℕ) (f : Module → Module)
    → length (update_module heap m f) ≡ length heap
unfolding update_module
length-update_module heap m f = elim (Option-cases (get_elem? heap m)) [
  | inl gone ↦ rw (gone, update_module)
  | inr (r, at) ↦ rw (at, update_module) (length-set heap m (f r))
]

some_at :
    (heap : List Module) (m : ℕ) → m < length heap → (r : Module) × (get_elem? heap m ≡ some r)
some_at [] m h = elim h [ ]
some_at (x ∷ heap) zero h = (x, refl)
some_at (x ∷ heap) (suc m) h = some_at heap m (omega arith)

-- What an update of module `target` leaves at `m`.
pub updated_at :
    (heap : List Module) (target m : ℕ) (f : Module → Module) (q : Module)
    → get_elem? (update_module heap target f) m ≡ some q
    → (r : Module) × (get_elem? heap m ≡ some r) × (q ≡ (if target == m then f r else r))
updated_at heap target m f q at =
    let (r, at_r) = some_at heap m (
      rw (← length-update_module heap target f)
        (lt-length_of_get_elem? (update_module heap target f) m at)) in
    (r, at_r, cc (get_elem?-update_module heap target m f r at_r))

Bound-refl : (gs : List ℕ) (heap : List Module) → Bound gs heap heap
Bound-refl gs heap = record {
  size = refl;
  forth = λ m r at. (r, at, refl);
  back = λ m q at. (q, at, refl, λ x h. inl h);
}

Bound-trans : (gs : List ℕ) (a b c : List Module) → Bound gs a b → Bound gs b c → Bound gs a c
Bound-trans gs a b c x y = record {
  size = y.size ∙ x.size;
  forth = λ m r at.
      let (q, at_q, same) = x.forth m r at in
      let (p, at_p, same_p) = y.forth m q at_q in (p, at_p, same_p ∙ same);
  back = λ m q at.
      let (r, at_r, same, more) = y.back m q at in
      let (p, at_p, same_p, more_p) = x.back m r at_r in
      (p, at_p, same ∙ same_p, λ i h. elim (more i h) [ inl k ↦ more_p i k | inr k ↦ inr k ]);
}

-- A change of one module that adds at most imports among `gs`.
pub Bound-update_module :
    (gs : List ℕ) (heap : List Module) (target : ℕ) (f : Module → Module)
    → ((r : Module) → (f r).metatype ≡ r.metatype)
    → ((r : Module) → (f r).providers ≡ r.providers)
    → ((r : Module) (x : ℕ)
        → has (f r).imports x ≡ true
        → (has r.imports x ≡ true) ⊎ (has gs x ≡ true))
    → Bound gs heap (update_module heap target f)
Bound-update_module gs heap target f metatypes providers imports = record {
  size = length-update_module heap target f;
  forth = λ m r at. (
    if target == m then f r else r,
    get_elem?-update_module heap target m f r at,
    ground (arith, metatypes r),
  );
  back = λ m q at.
      let (r, at_r, e) = updated_at heap target m f q at in
      elim (Bool-cases (target == m)) [
        | inl same ↦
            let own : q ≡ f r = e ∙ ap (λ b. if b then f r else r) same in
            (
              r,
              at_r,
              ap (λ p. p.providers) own ∙ providers r,
              λ x k. imports r x (subst (λ p. has p.imports x ≡ true) own k),
            )
        | inr other ↦
            let kept : q ≡ r = e ∙ ap (λ b. if b then f r else r) other in
            (
              r,
              at_r,
              ap (λ p. p.providers) kept,
              λ x k. inl (subst (λ p. has p.imports x ≡ true) kept k),
            )
      ];
}

pub Bound-add_import :
    (gs : List ℕ) (heap : List Module) (target i : ℕ)
    → has gs i ≡ true
    → Bound gs heap (update_module heap target (λ r. add_import r i))
unfolding add_import
Bound-add_import gs heap target i h =
    Bound-update_module gs heap target (λ r. add_import r i) (λ r. refl) (λ r. refl)
      (λ r x k. elim (Bool-cases (nat_beq i x)) [
        | inl same ↦ inr (subst (λ y. has gs y ≡ true) ((nat_beq_iff i x).0 same) h)
        | inr other ↦ inl (ground (arith, has-add r.imports i x))
      ])

Bound-bind :
    (gs : List ℕ) (heap : List Module) (target g : ℕ)
    → has gs g ≡ true
    → Bound gs heap (bind_global_module_to_module heap target g)
unfolding bind_global_module_to_module
Bound-bind gs heap target g h = elim (Bool-cases (nat_beq target g)) [
  | inl same ↦ rw same (Bound-refl gs heap)
  | inr other ↦ rw other (Bound-add_import gs heap target g h)
]

pub Bound-bind_each :
    (gs : List ℕ) (heap : List Module) (target : ℕ) (ls : List ℕ)
    → ((x : ℕ) → has ls x ≡ true → has gs x ≡ true)
    → Bound gs heap (bind_each heap target ls)
unfolding bind_each
Bound-bind_each gs heap target [] sub = Bound-refl gs heap
Bound-bind_each gs heap target (g ∷ ls) sub =
    Bound-trans gs heap (bind_global_module_to_module heap target g) _
      (Bound-bind gs heap target g (sub g (ground (arith, nat_beq_iff g g))))
      (Bound-bind_each gs (bind_global_module_to_module heap target g) target ls
        (λ x k. sub x (ground arith)))

pub Bound-bind_all :
    (gs : List ℕ) (heap : List Module) (ms : Map Ref ℕ) → Bound gs heap (bind_all gs heap ms)
unfolding bind_all
Bound-bind_all gs heap [] = Bound-refl gs heap
Bound-bind_all gs heap ((t, m) ∷ ms) =
    Bound-trans gs heap (bind_each heap m gs) _ (Bound-bind_each gs heap m gs (λ x k. k))
      (Bound-bind_all gs (bind_each heap m gs) ms)

pub IsWellFormed-Bound :
    (c : Container) (gs : List ℕ) (heap' : List Module)
    → ((m : ℕ) → has gs m ≡ true → m < length c.heap)
    → Bound gs c.heap heap'
    → IsWellFormed c
    → IsWellFormed (record c { heap = heap' })
IsWellFormed-Bound c gs heap' exist b v = record {
  named = λ t m h. rw b.size (v.named t m h);
  classed = λ k m h.
      let (r, at, e) = v.classed k m h in
      let (q, at_q, same) = b.forth m r at in (q, at_q, same ∙ e);
  globals = λ m h. rw b.size (v.globals m h);
  imported = λ i j q at h.
      let (r, at_r, same, more) = b.back i q at in
      rw b.size (elim (more j h) [ inl k ↦ v.imported i j r at_r k | inr k ↦ exist j k ]);
  hosted = λ i w q t at h.
      let (r, at_r, same, more) = b.back i q at in
      v.hosted i w r t at_r (subst (λ ps. get ps t ≡ some w) same h);
}
