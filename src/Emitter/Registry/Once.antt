-- ===== src/Emitter/Registry/Once.antt =====
-- `emit`, with handlers that leave the service alone.
use elysia_nest.Base.{
  ℕ, ◌+◌, ◌≤◌, ◌≡◌, refl, sym, ap, ◌∙◌, subst, inl, inr, Bool, false, ◌&&◌, not, List, [], ◌∷◌,
  ◌==◌, nat_eq, nat_beq_iff, filter, filter-filter, filter_ext, All, arith, Bool-cases,
}
use elysia_nest.Emitter.Registry.{
  EventName, HandlerRegistration, Options, Service, get_matching, remove_registrations, Handlers,
  call_each, emit,
}
use elysia_nest.Emitter.Registry.Merge.{Between}
use elysia_nest.Emitter.Registry.Refines.{Represents, receives, get_matching-Represents}
use elysia_nest.Emitter.Registry.Emits.{
  IsCompiled, IsOnly, IsRemovable, among, filter_ext_All, Represents-remove_registrations,
}

-- Registrations whose numbers are at least `lo`.
abbrev From : ℕ → List HandlerRegistration → Type 0
From lo rs = All (λ (r : HandlerRegistration). lo ≤ r.seq) rs

From-lower : (lo lo' : ℕ) (rs : List HandlerRegistration) → lo' ≤ lo → From lo rs → From lo' rs
From-lower lo lo' [] h f = tt
From-lower lo lo' (r ∷ rs) h (a, f) = (omega arith, From-lower lo lo' rs h f)

From-Between : (lo : ℕ) (rs : List HandlerRegistration) (hi : ℕ) → Between lo rs hi → From lo rs
From-Between lo [] hi b = tt
From-Between lo (r ∷ rs) hi (b, bs) =
    (b, From-lower (r.seq + 1) lo rs (omega arith) (From-Between (r.seq + 1) rs hi bs))

among_below :
    (p : HandlerRegistration → Bool) (r : HandlerRegistration) (rs : List HandlerRegistration)
    → From (r.seq + 1) rs
    → among (filter p rs) r ≡ false
among_below p r [] f = refl
among_below p r (q ∷ rs) (a, f) =
    let rest = among_below p r rs f in
    let apart : (r.seq == q.seq) ≡ false = ground arith in ground arith

-- A registration in front of later ones is not one of them.
among_cons :
    (p : HandlerRegistration → Bool) (q : HandlerRegistration) (ms : List HandlerRegistration)
    (rs : List HandlerRegistration)
    → From (q.seq + 1) rs
    → All (λ (r : HandlerRegistration). among ms r ≡ p r) rs
    → All (λ (r : HandlerRegistration). among (q ∷ ms) r ≡ p r) rs
among_cons p q ms [] f h = tt
among_cons p q ms (r ∷ rs) (a, f) (e, h) =
    let apart : (r.seq == q.seq) ≡ false = ground arith in (ground arith, among_cons p q ms rs f h)

among-filter :
    (p : HandlerRegistration → Bool) (lo : ℕ) (rs : List HandlerRegistration) (hi : ℕ)
    → Between lo rs hi
    → All (λ (r : HandlerRegistration). among (filter p rs) r ≡ p r) rs
among-filter p lo [] hi b = tt
among-filter p lo (q ∷ rs) hi (b, bs) =
    let later = From-Between (q.seq + 1) rs hi bs in
    let rest = among-filter p (q.seq + 1) rs hi bs in
    let out = among_below p q rs later in
    let Finds : List HandlerRegistration → Type 0 =
      λ ms. All (λ (r : HandlerRegistration). among ms r ≡ p r) (q ∷ rs) in
    elim (Bool-cases (p q)) [
      | inl kept ↦
          let grown : q ∷ filter p rs ≡ filter p (q ∷ rs) = ground arith in
          subst Finds grown
            (ground (arith, nat_beq_iff q.seq q.seq), among_cons p q (filter p rs) rs later rest)
      | inr gone ↦
          let stays : filter p rs ≡ filter p (q ∷ rs) = ground arith in
          subst Finds stays (out ∙ sym gone, rest)
    ]

IsOnly-later :
    (q : HandlerRegistration) (rs : List HandlerRegistration) → From (q.seq + 1) rs → IsOnly q rs
IsOnly-later q [] f = tt
IsOnly-later q (r ∷ rs) (a, f) = ((λ h. absurd (ground arith)), IsOnly-later q rs f)

All-IsOnly-cons :
    (x : HandlerRegistration) (rs qs : List HandlerRegistration)
    → From (x.seq + 1) qs
    → All (λ (q : HandlerRegistration). IsOnly q rs) qs
    → All (λ (q : HandlerRegistration). IsOnly q (x ∷ rs)) qs
All-IsOnly-cons x rs [] f h = tt
All-IsOnly-cons x rs (q ∷ qs) (a, f) (e, h) =
    (((λ k. absurd (ground arith)), e), All-IsOnly-cons x rs qs f h)

All-IsOnly :
    (lo : ℕ) (rs : List HandlerRegistration) (hi : ℕ)
    → Between lo rs hi
    → All (λ (q : HandlerRegistration). IsOnly q rs) rs
All-IsOnly lo [] hi b = tt
All-IsOnly lo (x ∷ rs) hi (b, bs) =
    let later = From-Between (x.seq + 1) rs hi bs in
    (
      ((λ h. refl), IsOnly-later x rs later),
      All-IsOnly-cons x rs rs later (All-IsOnly (x.seq + 1) rs hi bs),
    )

All-filter {ℓ} :
    (P : HandlerRegistration → Type ℓ) (p : HandlerRegistration → Bool)
    (rs : List HandlerRegistration)
    → All P rs
    → All P (filter p rs)
All-filter P p [] h = tt
All-filter P p (r ∷ rs) (a, h) = elim (Bool-cases (p r)) [
  | inl kept ↦ rw kept (a, All-filter P p rs h)
  | inr gone ↦ rw gone (All-filter P p rs h)
]

All-pair :
    (o : Options) (rs qs : List HandlerRegistration)
    → All (λ (q : HandlerRegistration). IsOnly q rs) qs
    → All (IsCompiled o) qs
    → All (IsRemovable o rs) qs
All-pair o rs [] a b = tt
All-pair o rs (q ∷ qs) (x, a) (y, b) = ((x, y), All-pair o rs qs a b)

All-not :
    (p : HandlerRegistration → Bool) (ms rs : List HandlerRegistration)
    → All (λ (r : HandlerRegistration). among ms r ≡ p r) rs
    → All (λ (r : HandlerRegistration). not (among ms r) ≡ not (p r)) rs
All-not p ms [] h = tt
All-not p ms (r ∷ rs) (e, h) = (ap not e, All-not p ms rs h)

call_each_quiet :
    (call : Handlers) (rs : List HandlerRegistration) (s : Service)
    → ((h : ℕ) → (call h s).0 ≡ s)
    → call_each call rs s ≡ s
unfolding call_each
call_each_quiet call [] s quiet = refl
call_each_quiet call (r ∷ rs) s quiet =
    ap (call_each call rs) (quiet r.handler) ∙ call_each_quiet call rs s quiet

-- What `emit` does to the service, for the registrations that match.
emit-matching :
    (call : Handlers) (s : Service) (e : EventName) (ms : List HandlerRegistration)
    → get_matching s e ≡ ms
    → ((h : ℕ) → (call h s).0 ≡ s)
    → (emit call s e).0 ≡ remove_registrations s (filter (λ q. q.once) ms)
unfolding emit remove_registrations
emit-matching call s e [] same quiet = rw (same, emit) refl
emit-matching call s e (r ∷ rs) same quiet =
    rw (same, emit)
      (ap (λ (t : Service). remove_registrations t (filter (λ q. q.once) (r ∷ rs)))
        (call_each_quiet call (r ∷ rs) s quiet))

-- Where the handlers leave the service alone, `emit` takes out exactly the one-time registrations
-- that receive the event, whether their handlers throw or not; the others stay, in order.
pub Represents-emit :
    (call : Handlers) (s : Service) (rs : List HandlerRegistration) (e : EventName)
    → ((h : ℕ) → (call h s).0 ≡ s)
    → All (IsCompiled s.options) rs
    → Represents s rs
    → Represents (emit call s e).0 (filter (λ r. not (r.once && receives s.options e r)) rs)
Represents-emit call s rs e quiet made v =
    let gets : HandlerRegistration → Bool = receives s.options e in
    let both : HandlerRegistration → Bool = λ r. r.once && gets r in
    let once : List HandlerRegistration = filter (λ q. q.once) (filter gets rs) in
    let ms = get_matching-Represents s rs e v in
    let same : once ≡ filter both rs =
      filter-filter (λ q. q.once) gets rs ∙ filter_ext _ _ rs (λ r. ground arith) in
    let removable =
      All-filter (IsRemovable s.options rs) both rs
        (All-pair s.options rs rs (All-IsOnly 0 rs s.seq v.ordered) made) in
    let kept = among-filter both 0 rs s.seq v.ordered in
    subst (λ (t : Service). Represents t (filter (λ r. not (both r)) rs))
      (sym (emit-matching call s e (filter gets rs) ms quiet ∙ ap (remove_registrations s) same))
      (subst (Represents (remove_registrations s (filter both rs)))
        (filter_ext_All _ _ rs (All-not both (filter both rs) rs kept))
        (Represents-remove_registrations s rs (filter both rs) removable v))
