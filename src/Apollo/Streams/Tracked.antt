-- ===== src/Apollo/Streams/Tracked.antt =====
-- What holds of the subscriptions of a connection: a call that is not aborted has its entry in the
-- map, and an iterator was returned unless the loop of such a call pulls it.
pub mod Changes
use elysia_nest.Base.{
  update, get_elem?-update_other, ℕ, ◌<◌, ◌≡◌, ◌≢◌, refl, sym, ap, ◌∙◌, subst, Bool, true, false,
  ◌&&◌, not, ◌⊎◌, inl, inr, Option, none, some, List, [], ◌∷◌, ◌++◌, length, nat_eq, ◌==◌,
  if◌then◌else◌, Map, get, put, delete, get-put, get-delete, zero, suc, get_elem?, has, has-append,
  values, has-values, get_elem?-append_one, get_elem?-append_left, lt-length_of_get_elem?,
  Bool-cases, Option-cases, arith, nat_beq_iff,
}
use elysia_nest.Apollo.Streams.{
  Stage, setting_up, waiting_next, executing, returning, finished, SubscriptionHandle, Streams,
  no_streams, iterator_list, iterator_of, start_handle, abort, abort_all, delete_own, release_own,
  finish_handle, start_loop, discard_stream, leave_loop, set_stage,
}

abbrev pub is_finished : Stage → Bool
is_finished finished = true
is_finished _ = false

abbrev pub is_pulling : Stage → Bool
is_pulling waiting_next = true
is_pulling executing = true
is_pulling _ = false

-- Calls that are neither aborted nor ended.
abbrev pub tracked : SubscriptionHandle → Bool
tracked h = not h.aborted && not (is_finished h.stage)

-- Calls that are not aborted and are in their loop.
abbrev pub pulls : SubscriptionHandle → Bool
pulls h = not h.aborted && is_pulling h.stage

abbrev pub Pulled : List SubscriptionHandle → ℕ → Type 0
Pulled hs it =
    (n : ℕ) × (h : SubscriptionHandle) × (get_elem? hs n ≡ some h)
    × (pulls h ≡ true)
    × (h.iterator ≡ some it)

pub record IsTracked (t : Streams) : Type 0 where
  pub entry :
      (n : ℕ) (h : SubscriptionHandle)
      → get_elem? t.handles n ≡ some h
      → tracked h ≡ true
      → get t.subscriptions h.id ≡ some n
  pub released :
      (it : ℕ) → has t.obtained it ≡ true → (has t.returned it ≡ true) ⊎ Pulled t.handles it

-- An iterator that a loop pulls is that of the changed handle, or is pulled after the change too.
Pulled-update :
    (f : SubscriptionHandle → SubscriptionHandle) (n : ℕ) (hs : List SubscriptionHandle) (it : ℕ)
    → Pulled hs it
    → ((g : SubscriptionHandle) × (get_elem? hs n ≡ some g)
        × (pulls g ≡ true)
        × (g.iterator ≡ some it))
      ⊎ Pulled (update n f hs) it
Pulled-update f n hs it (m, g, at, pulling, has_it) = elim (Bool-cases (m == n)) [
  | inl e ↦
      inl (g, subst (λ k. get_elem? hs k ≡ some g) ((nat_beq_iff m n).0 e) at, pulling, has_it)
  | inr e ↦ inr (m, g, get_elem?-update_other f n hs m (λ same. ground arith) ∙ at, pulling, has_it)
]

pub IsTracked-no_streams : IsTracked no_streams
IsTracked-no_streams = record {
  entry = λ n h at live. ground arith;
  released = λ it h. ground arith;
}

Pulled-append :
    (hs : List SubscriptionHandle) (h : SubscriptionHandle) (it : ℕ)
    → Pulled hs it
    → Pulled (hs ++ h ∷ []) it
Pulled-append hs h it (n, g, at, pulling, has_it) =
    (n, g, get_elem?-append_left hs (h ∷ []) n at, pulling, has_it)

pub IsTracked-start_handle :
    (id : ℕ) (t : Streams)
    → get t.subscriptions id ≡ none
    → IsTracked t
    → IsTracked (start_handle id t)
unfolding start_handle
IsTracked-start_handle id t absent k = record {
  entry = λ n h at live. elim (get_elem?-append_one t.handles _ h n at) [
    | inl old ↦ ground (
      arith,
      get-put t.subscriptions id (length t.handles) h.id,
      nat_beq_iff id h.id,
      k.entry n h old live,
    )
    | inr (last, same) ↦
        let e : h.id ≡ id = ap (λ x. x.id) same in
        ground (arith, get-put t.subscriptions id (length t.handles) h.id, nat_beq_iff id h.id)
  ];
  released = λ it made. elim (k.released it made) [
    | inl back ↦ inl back
    | inr pulled ↦ inr (Pulled-append t.handles _ it pulled)
  ];
}
