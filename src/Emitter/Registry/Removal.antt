-- ===== src/Emitter/Registry/Removal.antt =====
-- Taking registrations out of the service, against taking them out of the list.
use elysia_nest.Base.{
  ℕ, ◌+◌, ◌≡◌, refl, sym, subst, inl, inr, Bool, true, false, ◌&&◌, not, List, [], ◌∷◌, ◌++◌, arith,
  filter, Bool-cases, Option-cases, if◌then◌else◌, ap, ◌∙◌, Option, none, some, get, get-put,
  get-delete, ◌==◌, remove_first, filter-filter, filter-remove_first_in, filter-remove_first_out,
  filter_none, filter_ext, nat_eq,
}
use elysia_nest.Emitter.Registry.{
  EventName, name_eq, name_beq_iff, HandlerRegistration, Options, Service, is_wild, compiled,
  or_nil, bucket, store_bucket, add_registration, off, remove_all_listeners,
}
use elysia_nest.Emitter.Registry.Merge.{Between, Between-lower}
use elysia_nest.Emitter.Registry.Refines.{
  is_exact_for, is_wild_reg, Represents, Represents-add_registration,
}

pub Between-filter :
    (lo hi : ℕ) (p : HandlerRegistration → Bool) (rs : List HandlerRegistration)
    → Between lo rs hi
    → Between lo (filter p rs) hi
Between-filter lo hi p [] b = b
Between-filter lo hi p (r ∷ rs) (b, bs) = elim (Bool-cases (p r)) [
  | inl kept ↦ rw kept (b, Between-filter (r.seq + 1) hi p rs bs)
  | inr gone ↦ rw gone (
      Between-lower (r.seq + 1) lo (filter p rs) hi (omega arith)
        (Between-filter (r.seq + 1) hi p rs bs))
]

Between-remove_first :
    (lo hi : ℕ) (p : HandlerRegistration → Bool) (rs : List HandlerRegistration)
    → Between lo rs hi
    → Between lo (remove_first p rs) hi
Between-remove_first lo hi p [] b = b
Between-remove_first lo hi p (r ∷ rs) (b, bs) = elim (Bool-cases (p r)) [
  | inl gone ↦ rw gone (Between-lower (r.seq + 1) lo rs hi (omega arith) bs)
  | inr kept ↦ rw kept (b, Between-remove_first (r.seq + 1) hi p rs bs)
]

same_wild :
    (o : Options) (r : HandlerRegistration) (e : EventName)
    → (r.pattern_ == e) ≡ true
    → is_wild o r.pattern_ ≡ is_wild o e
same_wild o r e h = ap (is_wild o) ((name_beq_iff r.pattern_ e).0 h)

-- `off(event)` and `removeAllListeners(event)` take out the registrations for the event.
pub Represents-off_event :
    (s : Service) (rs : List HandlerRegistration) (e : EventName)
    → Represents s rs
    → Represents (off s e none) (filter (λ r. not (r.pattern_ == e)) rs)
unfolding off bucket
Represents-off_event s rs e v =
    let gone : HandlerRegistration → Bool = λ r. not (r.pattern_ == e) in
    elim (Bool-cases (is_wild s.options e)) [
      | inl wild ↦ rw wild (record {
        ordered = Between-filter 0 s.seq gone rs v.ordered;
        buckets = λ d.
            v.buckets d
            ∙ filter_ext _ _ rs (λ r. ground (arith, same_wild s.options r e))
            ∙ sym (filter-filter (is_exact_for s.options d) gone rs);
        wilds =
            ap (filter gone) v.wilds
            ∙ (filter-filter gone (is_wild_reg s.options) rs
                ∙ filter_ext _ _ rs (λ r. ground arith)
                ∙ sym (filter-filter (is_wild_reg s.options) gone rs));
      })
      | inr exact ↦ rw exact (record {
        ordered = Between-filter 0 s.seq gone rs v.ordered;
        buckets = λ d. elim (Bool-cases (e == d)) [
          | inl same ↦
              ground (arith, get-delete s.exact e d)
              ∙ sym (
                  filter-filter (is_exact_for s.options d) gone rs
                  ∙ filter_none _ rs (λ r. ground (arith, name_beq_iff e d)))
          | inr other ↦
              ground (arith, get-delete s.exact e d)
              ∙ v.buckets d
              ∙ filter_ext _ _ rs (λ r.
                ground
                  (arith, name_beq_iff e d, name_beq_iff r.pattern_ e, name_beq_iff r.pattern_ d))
              ∙ sym (filter-filter (is_exact_for s.options d) gone rs)
        ];
        wilds =
            v.wilds
            ∙ (filter_ext _ _ rs (λ r. ground (arith, same_wild s.options r e))
                ∙ sym (filter-filter (is_wild_reg s.options) gone rs));
      })
    ]

pub bucket-store_bucket :
    (s : Service) (e d : EventName) (l : List HandlerRegistration)
    → bucket (store_bucket s e l) d ≡ (if e == d then l else bucket s d)
unfolding bucket store_bucket
bucket-store_bucket s e d [] = ground (arith, get-delete s.exact e d)
bucket-store_bucket s e d (r ∷ rs) = ground (arith, get-put s.exact e (r ∷ rs) d)

others-store_bucket :
    (s : Service) (e : EventName) (l : List HandlerRegistration)
    → ((store_bucket s e l).options ≡ s.options)
      × ((store_bucket s e l).wildcards ≡ s.wildcards)
      × ((store_bucket s e l).seq ≡ s.seq)
unfolding store_bucket
others-store_bucket s e [] = (refl, refl, refl)
others-store_bucket s e (r ∷ rs) = (refl, refl, refl)

filter-remove_first_and :
    (p q : HandlerRegistration → Bool) (xs : List HandlerRegistration)
    → filter p (remove_first (λ x. p x && q x) xs) ≡ remove_first q (filter p xs)
filter-remove_first_and p q [] = refl
filter-remove_first_and p q (x ∷ xs) = ground (arith, filter-remove_first_and p q xs)

remove_first_ext :
    (p q : HandlerRegistration → Bool) (xs : List HandlerRegistration)
    → ((x : HandlerRegistration) → p x ≡ q x)
    → remove_first p xs ≡ remove_first q xs
remove_first_ext p q [] h = refl
remove_first_ext p q (x ∷ xs) h = ground (arith, h x, remove_first_ext p q xs h)

-- A bucket that loses the first entry which passes a test, where the whole list loses the first
-- one for the event that passes it.
Represents-remove_exact :
    (s : Service) (rs : List HandlerRegistration) (e : EventName)
    (test : HandlerRegistration → Bool)
    → is_wild s.options e ≡ false
    → Represents s rs
    → Represents
        (store_bucket s e (remove_first test (bucket s e)))
        (remove_first (λ r. r.pattern_ == e && test r) rs)
Represents-remove_exact s rs e test exact v =
    let o = s.options in
    let taken : HandlerRegistration → Bool = λ r. r.pattern_ == e && test r in
    let (same_o, same_w, same_seq) = others-store_bucket s e (remove_first test (bucket s e)) in
    record {
      ordered = rw same_seq (Between-remove_first 0 s.seq taken rs v.ordered);
      buckets = λ d. bucket-store_bucket s e d _ ∙ elim (Bool-cases (e == d)) [
        | inl same ↦ rw same (
            ap (remove_first test) (v.buckets e)
            ∙ sym (filter-remove_first_and (is_exact_for o e) test rs)
            ∙ ap (filter (is_exact_for o e))
                (remove_first_ext _ taken rs (λ r. ground (arith, same_wild o r e)))
            ∙ ap (λ x. filter (is_exact_for o x) (remove_first taken rs))
                ((name_beq_iff e d).0 same)
            ∙ ap (λ x. filter (is_exact_for x d) (remove_first taken rs)) (sym same_o))
        | inr other ↦ rw other (
            v.buckets d
            ∙ sym (
                filter-remove_first_out (is_exact_for o d) taken rs (λ r k.
                  ground (
                    arith,
                    name_beq_iff e d,
                    name_beq_iff r.pattern_ e,
                    name_beq_iff r.pattern_ d,
                  )))
            ∙ ap (λ x. filter (is_exact_for x d) (remove_first taken rs)) (sym same_o))
      ];
      wilds =
          same_w
          ∙ v.wilds
          ∙ sym (
              filter-remove_first_out (is_wild_reg o) taken rs
                (λ r k. ground (arith, same_wild o r e)))
          ∙ ap (λ x. filter (is_wild_reg x) (remove_first taken rs)) (sym same_o);
    }

Represents-remove_wild :
    (s : Service) (rs : List HandlerRegistration) (test : HandlerRegistration → Bool)
    → ((r : HandlerRegistration) → test r ≡ true → is_wild s.options r.pattern_ ≡ true)
    → Represents s rs
    → Represents (record s { wildcards = remove_first test s.wildcards }) (remove_first test rs)
unfolding bucket
Represents-remove_wild s rs test wild v = record {
  ordered = Between-remove_first 0 s.seq test rs v.ordered;
  buckets = λ d.
      v.buckets d
      ∙ sym (
          filter-remove_first_out (is_exact_for s.options d) test rs
            (λ r k. ground (arith, wild r)));
  wilds =
      ap (remove_first test) v.wilds
      ∙ sym (filter-remove_first_in (is_wild_reg s.options) test rs wild);
}

-- Where there is no bucket, the list has no registration to take out.
Represents-no_bucket :
    (s : Service) (rs : List HandlerRegistration) (e : EventName)
    (test : HandlerRegistration → Bool)
    → is_wild s.options e ≡ false
    → get s.exact e ≡ none
    → Represents s rs
    → Represents s (remove_first (λ r. r.pattern_ == e && test r) rs)
unfolding store_bucket bucket
Represents-no_bucket s rs e test exact none_there v =
    let no_bucket : bucket s e ≡ [] = ground arith in
    let v' : Represents (store_bucket s e []) (remove_first (λ r. r.pattern_ == e && test r) rs) =
      subst
        (λ l. Represents (store_bucket s e l) (remove_first (λ r. r.pattern_ == e && test r) rs))
        (ap (remove_first test) no_bucket) (Represents-remove_exact s rs e test exact v) in
    record {
      ordered = v'.ordered;
      buckets = λ d.
          ground (arith, bucket-store_bucket s e d [], name_beq_iff e d, no_bucket) ∙ v'.buckets d;
      wilds = v'.wilds;
    }

-- `off(event, handler)` takes out the first registration of the handler for the event.
pub Represents-off_handler :
    (s : Service) (rs : List HandlerRegistration) (e : EventName) (h : ℕ)
    → Represents s rs
    → Represents (off s e (some h)) (remove_first (λ r. r.pattern_ == e && r.handler == h) rs)
unfolding off bucket
Represents-off_handler s rs e h v = elim (Bool-cases (is_wild s.options e)) [
  | inl wild ↦ rw wild (
      Represents-remove_wild s rs (λ r. r.pattern_ == e && r.handler == h)
        (λ r k. ground (arith, same_wild s.options r e)) v)
  | inr exact ↦ elim (Option-cases (get s.exact e)) [
    | inl gone ↦ rw (exact, gone) (Represents-no_bucket s rs e (λ r. r.handler == h) exact gone v)
    | inr (b, there) ↦
        rw (exact, there)
          (subst
            (λ l.
              Represents (store_bucket s e (remove_first (λ r. r.handler == h) l))
                (remove_first (λ r. r.pattern_ == e && r.handler == h) rs))
            (ap or_nil there) (Represents-remove_exact s rs e (λ r. r.handler == h) exact v))
  ]
]

-- The operations of the service, and what they do to the list of registrations.
pub data Operation : Type 0 where
  registers : EventName → ℕ → Bool → Operation
  removes : EventName → Option ℕ → Operation
  removes_all : Option EventName → Operation

abbrev pub run : Service → Operation → Service
run s (registers e h once) = add_registration s e h once
run s (removes e h) = off s e h
run s (removes_all e) = remove_all_listeners s e

abbrev pub run_list : ℕ → Options → List HandlerRegistration → Operation → List HandlerRegistration
run_list n o rs (registers e h once) =
    rs ++ (record { pattern_ = e; handler = h; once = once; seq = n; regex = compiled o e }) ∷ []
run_list n o rs (removes e none) = filter (λ r. not (r.pattern_ == e)) rs
run_list n o rs (removes e (some h)) = remove_first (λ r. r.pattern_ == e && r.handler == h) rs
run_list n o rs (removes_all none) = []
run_list n o rs (removes_all (some e)) = filter (λ r. not (r.pattern_ == e)) rs

Represents-clear :
    (s : Service) (rs : List HandlerRegistration)
    → Represents s rs
    → Represents (remove_all_listeners s none) []
unfolding remove_all_listeners bucket get
Represents-clear s rs v = record { ordered = omega arith; buckets = λ e. refl; wilds = refl }

-- `on`, `once`, `off` and `removeAllListeners` on the two indexes do what they do on one list of
-- registrations: a new one joins at the end, and those that are removed are taken out of it.
pub Represents-run :
    (s : Service) (rs : List HandlerRegistration) (op : Operation)
    → Represents s rs
    → Represents (run s op) (run_list s.seq s.options rs op)
unfolding remove_all_listeners
Represents-run s rs (registers e h once) v = Represents-add_registration s rs e h once v
Represents-run s rs (removes e none) v = Represents-off_event s rs e v
Represents-run s rs (removes e (some h)) v = Represents-off_handler s rs e h v
Represents-run s rs (removes_all none) v = Represents-clear s rs v
Represents-run s rs (removes_all (some e)) v = Represents-off_event s rs e v
