-- ===== src/Apollo/Streams/Tracked/Changes.antt =====
-- The steps that a subscription of a connection makes keep what holds of its subscriptions.
use elysia_nest.Base.{
  update, get_elem?-update_self, update_from, ℕ, ◌≡◌, ◌≢◌, refl, sym, ap, ◌∙◌, subst, Bool, true,
  false, ◌&&◌, not, ◌⊎◌, inl, inr, Option, none, some, List, [], ◌∷◌, ◌++◌, nat_eq, ◌==◌, Map, get,
  delete, get-delete, get_elem?, has, has-append, values, has-values, Bool-cases, Option-cases,
  arith, nat_beq_iff,
}
use elysia_nest.Apollo.Streams.{
  Stage, setting_up, waiting_next, executing, returning, finished, SubscriptionHandle, Streams,
  iterator_of, abort, abort_all, release_own, finish_handle, start_loop, discard_stream, leave_loop,
  set_stage,
}
use elysia_nest.Apollo.Streams.Tracked.{
  is_finished, is_pulling, tracked, pulls, Pulled, IsTracked, Pulled-update,
}

stage_goes_on :
    (a : Bool) (st : Stage)
    → is_pulling st ≡ true
    → (not a && true) ≡ true
    → (not a && not (is_finished st)) ≡ true
stage_goes_on a waiting_next h live = live
stage_goes_on a executing h live = live
stage_goes_on a setting_up h live = absurd (ground arith)
stage_goes_on a returning h live = absurd (ground arith)
stage_goes_on a finished h live = absurd (ground arith)

release_own-get :
    (n : ℕ) (o : Option SubscriptionHandle) (subs : Map ℕ ℕ) (m i : ℕ)
    → m ≢ n
    → get subs i ≡ some m
    → get (release_own n o subs) i ≡ some m
release_own-get n none subs m i ne at = at
release_own-get n (some h) subs m i ne at = elim (Option-cases (get subs h.id)) [
  | inl e ↦ rw e at
  | inr (j, e) ↦ rw e (ground (arith, get-delete subs h.id i, nat_beq_iff h.id i, nat_beq_iff j n))
]

module _ (t : Streams) (k : IsTracked t) where
  -- A change of one handle, where the entries of the others stay.
  entry-update :
      (n : ℕ) (f : SubscriptionHandle → SubscriptionHandle) (subs : Map ℕ ℕ)
      → ((m i : ℕ) → m ≢ n → get t.subscriptions i ≡ some m → get subs i ≡ some m)
      → ((g : SubscriptionHandle)
          → get_elem? t.handles n ≡ some g
          → tracked (f g) ≡ true
          → get subs (f g).id ≡ some n)
      → (m : ℕ) (h : SubscriptionHandle) → get_elem? (update n f t.handles) m ≡ some h
      → tracked h ≡ true
      → get subs h.id ≡ some m
  entry-update n f subs others own m h at live =
      let (g, at', from) = update_from f n t.handles m h at in
      elim from [
        | inl (e, same) ↦
            subst (λ x. get subs x.id ≡ some m) (sym same)
              (subst (λ j. get subs (f g).id ≡ some j) (sym e)
                (own g (subst (λ j. get_elem? t.handles j ≡ some g) e at')
                  (subst (λ x. tracked x ≡ true) same live)))
        | inr (ne, same) ↦
            subst (λ x. get subs x.id ≡ some m) (sym same)
              (others m g.id ne (k.entry m g at' (subst (λ x. tracked x ≡ true) same live)))
      ]

  -- A change of one handle whose iterator is returned.
  released-returned :
      (n : ℕ) (f : SubscriptionHandle → SubscriptionHandle) (it : ℕ)
      → has t.obtained it ≡ true
      → (has (t.returned ++ iterator_of (get_elem? t.handles n)) it ≡ true)
        ⊎ Pulled (update n f t.handles) it
  released-returned n f it made = elim (k.released it made) [
    | inl back ↦
        inl (ground (arith, has-append t.returned (iterator_of (get_elem? t.handles n)) it))
    | inr pulled ↦ elim (Pulled-update f n t.handles it pulled) [
      | inl (g, at, pulling, has_it) ↦ inl (
          has-append t.returned (iterator_of (get_elem? t.handles n)) it
          ∙ rw (at, has_it) (ground arith))
      | inr still ↦ inr still
    ]
  ]

  -- A change of one handle whose loop does not go on.
  released-idle :
      (n : ℕ) (f : SubscriptionHandle → SubscriptionHandle) (it : ℕ)
      → ((g : SubscriptionHandle) → get_elem? t.handles n ≡ some g → pulls g ≡ false)
      → has t.obtained it ≡ true
      → (has t.returned it ≡ true) ⊎ Pulled (update n f t.handles) it
  released-idle n f it idle made = elim (k.released it made) [
    | inl back ↦ inl back
    | inr pulled ↦ elim (Pulled-update f n t.handles it pulled) [
      | inl (g, at, pulling, has_it) ↦ absurd (ground (arith, idle g at))
      | inr still ↦ inr still
    ]
  ]

  pub IsTracked-abort : (n : ℕ) → IsTracked (abort n t)
  unfolding abort
  IsTracked-abort n = record {
    entry = entry-update n _ t.subscriptions (λ m i ne at. at) (λ g at live. absurd (ground arith));
    released = released-returned n _;
  }

  pub IsTracked-leave_loop :
      (n : ℕ)
      → ((g : SubscriptionHandle) → get_elem? t.handles n ≡ some g → is_pulling g.stage ≡ true)
      → IsTracked (leave_loop n t)
  unfolding leave_loop
  IsTracked-leave_loop n pulling = record {
    entry =
        entry-update n _ t.subscriptions (λ m i ne at. at)
          (λ g at live. k.entry n g at (stage_goes_on g.aborted g.stage (pulling g at) live));
    released = released-returned n _;
  }

  pub IsTracked-set_stage :
      (n : ℕ) (st : Stage)
      → is_pulling st ≡ true
      → ((g : SubscriptionHandle) → get_elem? t.handles n ≡ some g → is_pulling g.stage ≡ true)
      → IsTracked (set_stage n st t)
  unfolding set_stage
  IsTracked-set_stage n st goes_on pulling = record {
    entry =
        entry-update n _ t.subscriptions (λ m i ne at. at)
          (λ g at live.
            k.entry n g at (stage_goes_on g.aborted g.stage (pulling g at) (ground arith)));
    released = λ it made. elim (k.released it made) [
      | inl back ↦ inl back
      | inr pulled ↦ elim (Pulled-update (λ h. record h { stage = st }) n t.handles it pulled) [
        | inl (g, at, live, has_it) ↦
            inr (n, _, get_elem?-update_self _ n t.handles g at, ground arith, has_it)
        | inr still ↦ inr still
      ]
    ];
  }

  pub IsTracked-finish_handle :
      (n : ℕ)
      → ((g : SubscriptionHandle) → get_elem? t.handles n ≡ some g → pulls g ≡ false)
      → IsTracked (finish_handle n t)
  unfolding finish_handle
  IsTracked-finish_handle n idle = record {
    entry =
        entry-update n _ (release_own n (get_elem? t.handles n) t.subscriptions)
          (release_own-get n (get_elem? t.handles n) t.subscriptions)
          (λ g at live. absurd (ground arith));
    released = λ it made. released-idle n _ it idle made;
  }

  pub IsTracked-start_loop :
      (n it : ℕ) (g : SubscriptionHandle)
      → get_elem? t.handles n ≡ some g
      → g.aborted ≡ false
      → ((h : SubscriptionHandle) → get_elem? t.handles n ≡ some h → h.stage ≡ setting_up)
      → IsTracked (start_loop n it t)
  unfolding start_loop
  IsTracked-start_loop n it g at live set_up = record {
    entry =
        entry-update n _ t.subscriptions (λ m i ne at'. at')
          (λ h at' live'. k.entry n h at' (rw (set_up h at') live'));
    released = λ it' made. elim (Bool-cases (it == it')) [
      | inl e ↦ inr (
        n,
        _,
        get_elem?-update_self _ n t.handles g at,
        rw live refl,
        ap some ((nat_beq_iff it it').0 e),
      )
      | inr e ↦
          released-idle n _ it' (λ h at'. rw (set_up h at') (ground arith))
            (ground (arith, has-append t.obtained (it ∷ []) it'))
    ];
  }

  pub IsTracked-discard_stream : (it : ℕ) → IsTracked (discard_stream it t)
  unfolding discard_stream
  IsTracked-discard_stream it = record {
    entry = k.entry;
    released = λ it' made. elim (Bool-cases (it == it')) [
      | inl e ↦ inl (ground (arith, has-append t.returned (it ∷ []) it'))
      | inr e ↦ elim (k.released it' (ground (arith, has-append t.obtained (it ∷ []) it'))) [
        | inl back ↦ inl (ground (arith, has-append t.returned (it ∷ []) it'))
        | inr pulled ↦ inr pulled
      ]
    ];
  }

abort_all-subscriptions :
    (ns : List ℕ) (t : Streams) → (abort_all ns t).subscriptions ≡ t.subscriptions
unfolding abort_all abort
abort_all-subscriptions [] t = refl
abort_all-subscriptions (n ∷ ns) t = abort_all-subscriptions ns (abort n t)

IsTracked-abort_all : (ns : List ℕ) (t : Streams) → IsTracked t → IsTracked (abort_all ns t)
unfolding abort_all
IsTracked-abort_all [] t k = k
IsTracked-abort_all (n ∷ ns) t k = IsTracked-abort_all ns (abort n t) (IsTracked-abort t k n)

-- A call that goes on was there before, and is not among those that were aborted.
abort_all-live :
    (ns : List ℕ) (t : Streams) (m : ℕ) (h : SubscriptionHandle)
    → get_elem? (abort_all ns t).handles m ≡ some h
    → tracked h ≡ true
    → (get_elem? t.handles m ≡ some h) × (has ns m ≡ false)
unfolding abort_all abort
abort_all-live [] t m h at live = (at, refl)
abort_all-live (n ∷ ns) t m h at live =
    let (at', others) = abort_all-live ns (abort n t) m h at live in
    let (g, at_g, from) = update_from _ n t.handles m h at' in
    elim from [
      | inl (e, same) ↦ absurd (ground (arith, ap (λ x. x.aborted) same))
      | inr (ne, same) ↦ (subst (λ x. get_elem? t.handles m ≡ some x) (sym same) at_g, ground arith)
    ]

-- `cleanupConnection`: all entries are aborted, and the map is emptied.
pub IsTracked-cleanup :
    (t : Streams)
    → IsTracked t
    → IsTracked (record (abort_all (values t.subscriptions) t) { subscriptions = [] })
IsTracked-cleanup t k =
    let k' = IsTracked-abort_all (values t.subscriptions) t k in
    record {
      entry = λ n h at live.
          let (at', others) = abort_all-live (values t.subscriptions) t n h at live in
          absurd (ground (arith, has-values t.subscriptions h.id n (k.entry n h at' live)));
      released = k'.released;
    }

pub IsTracked-delete :
    (t : Streams) (id n : ℕ)
    → get t.subscriptions id ≡ some n
    → IsTracked t
    → IsTracked (record (abort n t) { subscriptions = delete t.subscriptions id })
unfolding abort
IsTracked-delete t id n at k = record {
  entry =
      entry-update t k n _ (delete t.subscriptions id)
        (λ m i ne at'. ground (arith, get-delete t.subscriptions id i, nat_beq_iff id i))
        (λ g at' live. absurd (ground arith));
  released = (IsTracked-abort t k n).released;
}

pulls_tracked :
    (a : Bool) (st : Stage)
    → (not a && is_pulling st) ≡ true
    → (not a && not (is_finished st)) ≡ true
pulls_tracked a waiting_next h = h
pulls_tracked a executing h = h
pulls_tracked a setting_up h = absurd (ground arith)
pulls_tracked a returning h = absurd (ground arith)
pulls_tracked a finished h = absurd (ground arith)

none_found : (subs : Map ℕ ℕ) (id n : ℕ) → subs ≡ [] → get subs id ≢ some n
unfolding get
none_found subs id n empty at =
    let missing : none ≡ some n = subst (λ m. get m id ≡ some n) empty at in absurd (ground arith)

-- Once the map is empty no loop goes on, and every iterator was returned.
pub emptied_releases :
    (t : Streams)
    → IsTracked t
    → t.subscriptions ≡ []
    → (it : ℕ) → has t.obtained it ≡ true
    → has t.returned it ≡ true
emptied_releases t k empty it made = elim (k.released it made) [
  | inl back ↦ back
  | inr (n, h, at, pulling, has_it) ↦ absurd (
      none_found t.subscriptions h.id n empty
        (k.entry n h at (pulls_tracked h.aborted h.stage pulling)))
]
