-- ===== src/Emitter/Registry/Emits.antt =====
-- `removeRegistrations` against the list of registrations.
use elysia_nest.Base.{
  ℕ, ◌+◌, ◌≤◌, ◌≡◌, refl, sym, ap, ◌∙◌, subst, inl, inr, Bool, true, false, ◌||◌, not, Option, none,
  some, List, [], ◌∷◌, get, if◌then◌else◌, ◌==◌, nat_eq, filter, filter-filter, filter_ext,
  remove_first, All, arith, Bool-cases,
}
use elysia_nest.Emitter.Registry.{
  EventName, name_eq, name_beq_iff, HandlerRegistration, Options, Service, is_wild, compiled,
  bucket, store_bucket, remove_registration, remove_by, remove_stored, remove_registrations, named,
  symbol,
}
use elysia_nest.Emitter.Pattern.{Atom}
use elysia_nest.Emitter.Registry.Merge.{Between}
use elysia_nest.Emitter.Registry.Refines.{is_exact_for, is_wild_reg, Represents}
use elysia_nest.Emitter.Registry.Removal.{Between-filter, bucket-store_bucket}

-- Every registration carries the expression of its pattern.
abbrev pub IsCompiled : Options → HandlerRegistration → Type 0
IsCompiled o r = r.regex ≡ compiled o r.pattern_

-- The registrations whose number is that of `q` are `q`.
abbrev pub IsOnly : HandlerRegistration → List HandlerRegistration → Type 0
IsOnly q rs = All (λ (r : HandlerRegistration). (r.seq == q.seq) ≡ true → r ≡ q) rs

other_than : ℕ → HandlerRegistration → Bool
other_than n r = not (r.seq == n)

filter_below :
    (n lo : ℕ) (rs : List HandlerRegistration) (hi : ℕ)
    → Between lo rs hi
    → n + 1 ≤ lo
    → filter (other_than n) rs ≡ rs
unfolding other_than
filter_below n lo [] hi b h = refl
filter_below n lo (r ∷ rs) hi (b, bs) h =
    let rest = filter_below n (r.seq + 1) rs hi bs (omega arith) in ground arith

-- Numbers rise, so removing the first registration with a number removes all with it.
remove_first_seq :
    (n lo : ℕ) (rs : List HandlerRegistration) (hi : ℕ)
    → Between lo rs hi
    → remove_first (λ r. r.seq == n) rs ≡ filter (other_than n) rs
unfolding other_than
remove_first_seq n lo [] hi b = refl
remove_first_seq n lo (r ∷ rs) hi (b, bs) = elim (Bool-cases (r.seq == n)) [
  | inl here ↦ let rest = filter_below n (r.seq + 1) rs hi bs (ground arith) in ground arith
  | inr there ↦ let rest = remove_first_seq n (r.seq + 1) rs hi bs in ground arith
]

pub filter_ext_All :
    (p q : HandlerRegistration → Bool) (rs : List HandlerRegistration)
    → All (λ (r : HandlerRegistration). p r ≡ q r) rs
    → filter p rs ≡ filter q rs
filter_ext_All p q [] h = refl
filter_ext_All p q (r ∷ rs) (e, h) = ground (arith, filter_ext_All p q rs h)

filter_comm :
    (p q : HandlerRegistration → Bool) (rs : List HandlerRegistration)
    → filter p (filter q rs) ≡ filter q (filter p rs)
filter_comm p q rs =
    filter-filter p q rs ∙ filter_ext _ _ rs (λ r. ground arith) ∙ sym (filter-filter q p rs)

-- A test that `q` fails does not see that `q` is gone.
filter_without :
    (p : HandlerRegistration → Bool) (q : HandlerRegistration) (rs : List HandlerRegistration)
    → p q ≡ false
    → IsOnly q rs
    → filter p (filter (other_than q.seq) rs) ≡ filter p rs
unfolding other_than
filter_without p q [] h only = refl
filter_without p q (r ∷ rs) h (same, only) = elim (Bool-cases (r.seq == q.seq)) [
  | inl here ↦
      let out : p r ≡ false = ap p (same here) ∙ h in ground (arith, filter_without p q rs h only)
  | inr there ↦ ground (arith, filter_without p q rs h only)
]

kept-store_bucket :
    (s : Service) (e : EventName) (l : List HandlerRegistration)
    → ((store_bucket s e l).options ≡ s.options)
      × ((store_bucket s e l).seq ≡ s.seq)
      × ((store_bucket s e l).wildcards ≡ s.wildcards)
unfolding store_bucket
kept-store_bucket s e [] = (refl, refl, refl)
kept-store_bucket s e (r ∷ l) = (refl, refl, refl)

filter_all :
    (p : HandlerRegistration → Bool) (rs : List HandlerRegistration)
    → ((r : HandlerRegistration) → p r ≡ true)
    → filter p rs ≡ rs
filter_all p [] h = refl
filter_all p (r ∷ rs) h = ground (arith, h r, filter_all p rs h)

bucket-remove_stored :
    (s : Service) (q : HandlerRegistration) (d : EventName) (o : Option (List HandlerRegistration))
    → get s.exact q.pattern_ ≡ o
    → bucket (remove_stored s q o) d
      ≡ (if q.pattern_ == d then remove_first (λ r. r.seq == q.seq) (bucket s d) else bucket s d)
unfolding bucket
bucket-remove_stored s q d none gone = elim (Bool-cases (q.pattern_ == d)) [
  | inl same ↦
      let e = (name_beq_iff q.pattern_ d).0 same in
      let gone_d : get s.exact d ≡ none = ap (λ (x : EventName). get s.exact x) (sym e) ∙ gone in
      ground arith
  | inr other ↦ ground arith
]
bucket-remove_stored s q d (some b) there =
    let stored = bucket-store_bucket s q.pattern_ d (remove_first (λ r. r.seq == q.seq) b) in
    elim (Bool-cases (q.pattern_ == d)) [
      | inl same ↦
          let e = (name_beq_iff q.pattern_ d).0 same in
          let at_d : get s.exact d ≡ some b =
            ap (λ (x : EventName). get s.exact x) (sym e) ∙ there in
          stored ∙ ground arith
      | inr other ↦ stored ∙ ground arith
    ]

-- The fields that a removal leaves.
kept-remove_stored :
    (s : Service) (q : HandlerRegistration) (o : Option (List HandlerRegistration))
    → ((remove_stored s q o).options ≡ s.options)
      × ((remove_stored s q o).seq ≡ s.seq)
      × ((remove_stored s q o).wildcards ≡ s.wildcards)
kept-remove_stored s q none = (refl, refl, refl)
kept-remove_stored s q (some b) =
    kept-store_bucket s q.pattern_ (remove_first (λ r. r.seq == q.seq) b)

wild_compiled : (o : Options) (p : EventName) → (compiled o p ≡ none) → is_wild o p ≡ false
wild_compiled o (named p) h = ground arith
wild_compiled o (symbol n) h = refl

compiled_wild :
    (o : Options) (p : EventName) (r : List Atom) → (compiled o p ≡ some r) → is_wild o p ≡ true
compiled_wild o (named p) r h = ground arith
compiled_wild o (symbol n) r h = absurd (ground arith)

Represents-remove_by :
    (s : Service) (rs : List HandlerRegistration) (q : HandlerRegistration) (x : Option (List Atom))
    → compiled s.options q.pattern_ ≡ x
    → IsOnly q rs
    → Represents s rs
    → Represents (remove_by s q x) (filter (other_than q.seq) rs)
unfolding bucket
Represents-remove_by s rs q (some x) wild only v =
    let is_w = compiled_wild s.options q.pattern_ x wild in
    record {
      ordered = Between-filter 0 s.seq (other_than q.seq) rs v.ordered;
      buckets = λ e.
          v.buckets e
          ∙ sym (filter_without (is_exact_for s.options e) q rs (ground (arith, is_w)) only);
      wilds =
          ap (remove_first (λ r. r.seq == q.seq)) v.wilds
          ∙ remove_first_seq q.seq 0 (filter (is_wild_reg s.options) rs) s.seq
              (Between-filter 0 s.seq (is_wild_reg s.options) rs v.ordered)
          ∙ filter_comm (other_than q.seq) (is_wild_reg s.options) rs;
    }
Represents-remove_by s rs q none plain only v =
    let not_w = wild_compiled s.options q.pattern_ plain in
    let plain_bucket : (e : EventName)
        → (if q.pattern_ == e then remove_first (λ r. r.seq == q.seq) (bucket s e) else bucket s e)
          ≡ filter (is_exact_for s.options e) (filter (other_than q.seq) rs) =
      λ e. elim (Bool-cases (q.pattern_ == e)) [
        | inl here ↦ rw here (
            ap (remove_first (λ r. r.seq == q.seq)) (v.buckets e)
            ∙ remove_first_seq q.seq 0 (filter (is_exact_for s.options e) rs) s.seq
                (Between-filter 0 s.seq (is_exact_for s.options e) rs v.ordered)
            ∙ filter_comm (other_than q.seq) (is_exact_for s.options e) rs)
        | inr there ↦ rw there (
            v.buckets e
            ∙ sym (filter_without (is_exact_for s.options e) q rs (ground (arith, not_w)) only))
      ] in
    let (same_o, same_seq, same_w) = kept-remove_stored s q (get s.exact q.pattern_) in
    record {
      ordered = rw same_seq (Between-filter 0 s.seq (other_than q.seq) rs v.ordered);
      buckets = λ e.
          rw same_o (bucket-remove_stored s q e (get s.exact q.pattern_) refl ∙ plain_bucket e);
      wilds =
          same_w
          ∙ v.wilds
          ∙ sym (filter_without (is_wild_reg s.options) q rs not_w only)
          ∙ ap (λ (o : Options). filter (is_wild_reg o) (filter (other_than q.seq) rs))
              (sym same_o);
    }

abbrev pub among : List HandlerRegistration → HandlerRegistration → Bool
among [] r = false
among (q ∷ qs) r = r.seq == q.seq || among qs r

IsOnly-filter :
    (p : HandlerRegistration → Bool) (q : HandlerRegistration) (rs : List HandlerRegistration)
    → IsOnly q rs
    → IsOnly q (filter p rs)
IsOnly-filter p q [] h = tt
IsOnly-filter p q (r ∷ rs) (same, h) = elim (Bool-cases (p r)) [
  | inl kept ↦ rw kept (same, IsOnly-filter p q rs h)
  | inr gone ↦ rw gone (IsOnly-filter p q rs h)
]

abbrev pub IsRemovable : Options → List HandlerRegistration → HandlerRegistration → Type 0
IsRemovable o rs q = IsOnly q rs × IsCompiled o q

All-IsRemovable-filter :
    (o : Options) (p : HandlerRegistration → Bool) (rs qs : List HandlerRegistration)
    → All (IsRemovable o rs) qs
    → All (IsRemovable o (filter p rs)) qs
All-IsRemovable-filter o p rs [] h = tt
All-IsRemovable-filter o p rs (q ∷ qs) ((only, made), h) =
    ((IsOnly-filter p q rs only, made), All-IsRemovable-filter o p rs qs h)

kept-remove_by :
    (s : Service) (q : HandlerRegistration) (x : Option (List Atom))
    → (remove_by s q x).options ≡ s.options
kept-remove_by s q (some x) = refl
kept-remove_by s q none = (kept-remove_stored s q (get s.exact q.pattern_)).0

pub Represents-remove_registrations :
    (s : Service) (rs qs : List HandlerRegistration)
    → All (IsRemovable s.options rs) qs
    → Represents s rs
    → Represents (remove_registrations s qs) (filter (λ r. not (among qs r)) rs)
unfolding remove_registrations remove_registration other_than
Represents-remove_registrations s rs [] h v =
    subst (Represents s) (sym (filter_all (λ r. true) rs (λ r. refl))) v
Represents-remove_registrations s rs (q ∷ qs) ((only, made), h) v =
    let s' = remove_by s q q.regex in
    let same = kept-remove_by s q q.regex in
    let rest =
      Represents-remove_registrations s' (filter (other_than q.seq) rs) qs
        (subst (λ (o : Options). All (IsRemovable o (filter (other_than q.seq) rs)) qs) (sym same)
          (All-IsRemovable-filter s.options (other_than q.seq) rs qs h))
        (Represents-remove_by s rs q q.regex (sym made) only v) in
    subst (Represents (remove_registrations s' qs))
      (filter-filter (λ r. not (among qs r)) (other_than q.seq) rs
        ∙ filter_ext _ _ rs (λ r. ground arith))
      rest
