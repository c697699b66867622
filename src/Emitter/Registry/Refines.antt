-- ===== src/Emitter/Registry/Refines.antt =====
-- The indexed registry against its specification: one list of registrations, in order.
use mathlib.Core.List.{append-nil}
use mathlib.Core.Path.{ap₂}
use elysia_nest.Base.{
  ℕ, ◌+◌, ◌≡◌, refl, sym, inl, inr, Bool, false, ◌&&◌, ◌||◌, not, List, [], ◌∷◌, ◌++◌, arith,
  filter, Bool-cases, if◌then◌else◌, ap, ◌∙◌, get, get-put, ◌==◌, filter-append, filter-filter,
  filter_ext, nat_eq,
}
use elysia_nest.Emitter.Registry.{
  EventName, named, symbol, name_eq, name_beq_iff, HandlerRegistration, Options, Service,
  new_service, is_wild, bucket, registration, add_registration, off, regex_test, merged,
  get_matching,
}
use elysia_nest.Emitter.Registry.Merge.{Between, merged-filter}

abbrev pub is_exact_for : Options → EventName → HandlerRegistration → Bool
is_exact_for o e r = not (is_wild o r.pattern_) && r.pattern_ == e

abbrev pub is_wild_reg : Options → HandlerRegistration → Bool
is_wild_reg o r = is_wild o r.pattern_

-- The service holds the registrations `rs`, in the order in which they were made.
pub record Represents (s : Service) (rs : List HandlerRegistration) : Type 0 where
  pub ordered : Between 0 rs s.seq
  pub buckets : (e : EventName) → bucket s e ≡ filter (is_exact_for s.options e) rs
  pub wilds : s.wildcards ≡ filter (is_wild_reg s.options) rs

-- Whether a registration receives an event.
abbrev pub receives : Options → EventName → HandlerRegistration → Bool
receives o (symbol n) r = r.pattern_ == symbol n
receives o (named e) r = r.pattern_ == named e || (is_wild o r.pattern_ && regex_test r.regex e)

not_wild : (o : Options) (p : EventName) → o.wildcard ≡ false → is_wild o p ≡ false
not_wild o (named p) h = ground arith
not_wild o (symbol n) h = refl

-- `getMatching` returns the registrations that receive the event, in the order in which they were
-- made, whichever index holds them.
pub get_matching-Represents :
    (s : Service) (rs : List HandlerRegistration) (e : EventName)
    → Represents s rs
    → get_matching s e ≡ filter (receives s.options e) rs
unfolding get_matching
get_matching-Represents s rs (symbol n) v =
    v.buckets (symbol n)
    ∙ filter_ext _ _ rs (λ r. elim (Bool-cases (r.pattern_ == symbol n)) [
      | inl same ↦
          let q = (name_beq_iff r.pattern_ (symbol n)).0 same in
          ground (arith, ap (is_wild s.options) q)
      | inr other ↦ ground arith
    ])
get_matching-Represents s rs (named e) v =
    let o = s.options in
    let hit : HandlerRegistration → Bool = λ r. r.pattern_ == named e || regex_test r.regex e in
    let wild : HandlerRegistration → Bool = λ r. is_wild_reg o r && hit r in
    elim (Bool-cases s.options.wildcard) [
      | inl on ↦
          ap
            (λ (b : Bool).
              if b
              then merged (bucket s (named e)) (filter hit s.wildcards)
              else bucket s (named e))
            on
          ∙ ap₂ merged (v.buckets (named e))
              (ap (filter hit) v.wilds ∙ filter-filter hit (is_wild_reg o) rs)
          ∙ merged-filter (is_exact_for o (named e)) wild (λ r k. ground arith) rs 0 s.seq v.ordered
          ∙ filter_ext _ _ rs (λ r. ground arith)
      | inr off ↦
          ap
            (λ (b : Bool).
              if b
              then merged (bucket s (named e)) (filter hit s.wildcards)
              else bucket s (named e))
            off
          ∙ v.buckets (named e)
          ∙ filter_ext _ _ rs (λ r. ground (arith, not_wild o r.pattern_ off))
    ]

pub Represents-new : (o : Options) → Represents (new_service o) []
unfolding bucket get
Represents-new o = record { ordered = omega arith; buckets = λ e. refl; wilds = refl }

-- A new registration joins the list at its end.
Between-append :
    (lo hi : ℕ) (rs : List HandlerRegistration) (r : HandlerRegistration)
    → Between lo rs hi
    → r.seq ≡ hi
    → Between lo (rs ++ r ∷ []) (hi + 1)
Between-append lo hi [] r b e = (omega arith, omega arith)
Between-append lo hi (x ∷ rs) r (b, bs) e = (b, Between-append (x.seq + 1) hi rs r bs e)

pub Represents-add_registration :
    (s : Service) (rs : List HandlerRegistration) (p : EventName) (h : ℕ) (once : Bool)
    → Represents s rs
    → Represents (add_registration s p h once) (rs ++ registration s p h once ∷ [])
unfolding add_registration bucket
Represents-add_registration s rs p h once v =
    let reg = registration s p h once in
    elim (Bool-cases (is_wild s.options p)) [
      | inl wild ↦ rw wild (record {
        ordered = Between-append 0 s.seq rs reg v.ordered refl;
        buckets = λ e.
            v.buckets e
            ∙ sym (append-nil _)
            ∙ ap (λ l. filter (is_exact_for s.options e) rs ++ l) (ground arith)
            ∙ sym (filter-append (is_exact_for s.options e) rs (reg ∷ []));
        wilds =
            ap₂ (λ a b. a ++ b) v.wilds (ground arith)
            ∙ sym (filter-append (is_wild_reg s.options) rs (reg ∷ []));
      })
      | inr exact ↦ rw exact (record {
        ordered = Between-append 0 s.seq rs reg v.ordered refl;
        buckets = λ e. ground (
          arith,
          get-put s.exact p (bucket s p ++ reg ∷ []) e,
          v.buckets p,
          v.buckets e,
          name_beq_iff p e,
          append-nil (filter (is_exact_for s.options e) rs),
          filter-append (is_exact_for s.options e) rs (reg ∷ []),
        );
        wilds =
            v.wilds
            ∙ sym (append-nil _)
            ∙ ap (λ l. filter (is_wild_reg s.options) rs ++ l) (ground arith)
            ∙ sym (filter-append (is_wild_reg s.options) rs (reg ∷ []));
      })
    ]
