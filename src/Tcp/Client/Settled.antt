-- ===== src/Tcp/Client/Settled.antt =====
-- Every request of packages/microservices/src/client/tcp.client.ts is settled exactly once.
use elysia_nest.Base.{
  ℕ, ◌+◌, ◌<◌, ◌≡◌, refl, sym, subst, Bool, true, false, ◌&&◌, Option, none, some, List, [], ◌∷◌,
  Text, text_eq, nat_eq, if◌then◌else◌, ◌==◌, ltb, count, delete_absent, values, Map, get, delete,
  Bool-cases, Option-cases, inl, inr, arith, beq_self,
}
use elysia_nest.Tcp.Wire.{Value, text, other, Frame, Parsed, null_value, fields, Wire}
use elysia_nest.Tcp.Client.{
  Client, ClientEvent, connecting, connected, data_in, socket_error, socket_closed, sending,
  timer_fires, closing, outcome_of, settle_request, settle_all, reject_pending, settle_reply,
  handle_response, handle_parsed, handle_line, handle_lines, handle_data, send, fire, close,
  client_step, IsFresh, Reachable, starts, steps, timed_out, client_closed, connection_closed,
}
use elysia_nest.Tcp.Client.Accounts.{
  IsAccounted, times_settled, accounts_taken, accounts_sent, accounts_refused,
}

module _ {J D : Type 0} (w : Wire J D) where
  abbrev HasAccounts : Client J D → Type 0
  HasAccounts c = IsAccounted c.pending_requests c.timers c.settled c.sent

  head_taken :
      (id : Text) (n : ℕ) (pending : Map Text ℕ)
      → get pending id ≡ none
      → (get ((id, n) ∷ pending) id ≡ some n) × (delete ((id, n) ∷ pending) id ≡ pending)
  unfolding get delete
  head_taken id n pending absent = ground (arith, beq_self id, delete_absent pending id absent)

  -- The requests that wait are settled, and none waits.
  settle_all-HasAccounts :
      (f : Frame J) (pending : Map Text ℕ) (c : Client J D)
      → IsAccounted pending c.timers c.settled c.sent
      → c.pending_requests ≡ []
      → HasAccounts (settle_all w f (values pending) c)
  unfolding settle_all settle_request
  settle_all-HasAccounts f [] c a none_left =
      subst (λ p. IsAccounted p c.timers c.settled c.sent) (sym none_left) a
  settle_all-HasAccounts f ((id, n) ∷ pending) c a none_left =
      let (at, gone) = head_taken id n pending a.distinct.0 in
      let c' = settle_request w f n c in
      settle_all-HasAccounts f pending c'
        (subst (λ p. IsAccounted p c'.timers c'.settled c'.sent) gone
          (accounts_taken ((id, n) ∷ pending) c.timers c.settled c.sent id n (outcome_of w f) at a))
        none_left

  reject_pending-HasAccounts :
      (message : Text) (c : Client J D) → HasAccounts c → HasAccounts (reject_pending w message c)
  unfolding reject_pending
  reject_pending-HasAccounts message c a =
      settle_all-HasAccounts _ c.pending_requests (record c { pending_requests = [] }) a refl

  settle_reply-HasAccounts :
      (f : Frame J) (id : Text) (c : Client J D)
      → HasAccounts c
      → HasAccounts (settle_reply w f id (get c.pending_requests id) c)
  unfolding settle_request
  settle_reply-HasAccounts f id c a = elim (Option-cases (get c.pending_requests id)) [
    | inl e ↦ rw e a
    | inr (n, e) ↦
        rw e (accounts_taken c.pending_requests c.timers c.settled c.sent id n (outcome_of w f) e a)
  ]

  handle_response-HasAccounts :
      (f : Frame J) (id : Option (Value J)) (c : Client J D)
      → HasAccounts c
      → HasAccounts (handle_response w f id c)
  handle_response-HasAccounts f none c a = a
  handle_response-HasAccounts f (some (other j)) c a = a
  handle_response-HasAccounts f (some (text id)) c a = elim (Bool-cases (id == [])) [
    | inl e ↦ rw e a
    | inr e ↦ rw e (settle_reply-HasAccounts f id c a)
  ]

  handle_parsed-HasAccounts :
      (p : Option (Parsed J)) (c : Client J D) → HasAccounts c → HasAccounts (handle_parsed w p c)
  handle_parsed-HasAccounts none c a = a
  handle_parsed-HasAccounts (some null_value) c a = a
  handle_parsed-HasAccounts (some (fields f)) c a = handle_response-HasAccounts f f.id c a

  handle_lines-HasAccounts :
      (lines : List Text) (c : Client J D) → HasAccounts c → HasAccounts (handle_lines w c lines)
  unfolding handle_lines handle_line
  handle_lines-HasAccounts [] c a = a
  handle_lines-HasAccounts (line ∷ lines) c a =
      handle_lines-HasAccounts lines (handle_line w c line)
        (handle_parsed-HasAccounts (w.parse line) c a)

  send-HasAccounts :
      (id pattern_ : Text) (payload : Option (Value J)) (c : Client J D)
      → get c.pending_requests id ≡ none
      → HasAccounts c
      → HasAccounts (send w id pattern_ payload c)
  unfolding send
  send-HasAccounts id pattern_ payload c absent a =
      elim (Bool-cases (c.is_connected && c.has_socket)) [
        | inl e ↦ rw e (accounts_sent c.pending_requests c.timers c.settled c.sent id absent a)
        | inr e ↦ rw e (accounts_refused c.pending_requests c.timers c.settled c.sent a)
      ]

  fire-HasAccounts :
      (n : ℕ) (c : Client J D) → HasAccounts c → HasAccounts (fire w n (get c.timers n) c)
  fire-HasAccounts n c a = elim (Option-cases (get c.timers n)) [
    | inl e ↦ rw e a
    | inr (id, e) ↦ rw e (
        accounts_taken c.pending_requests c.timers c.settled c.sent id n timed_out
          (a.of_timer id n e) a)
  ]

  either_way :
      (b : Bool) (x y : Client J D)
      → HasAccounts x
      → HasAccounts y
      → HasAccounts (if b then x else y)
  either_way true x y a b = a
  either_way false x y a b = b

  client_step-HasAccounts :
      (e : ClientEvent J) (c : Client J D)
      → IsFresh w e c
      → HasAccounts c
      → HasAccounts (client_step w e c)
  unfolding client_step handle_data close
  client_step-HasAccounts connecting c fresh a = a
  client_step-HasAccounts connected c fresh a = a
  client_step-HasAccounts (data_in chunk) c fresh a = handle_lines-HasAccounts _ _ a
  client_step-HasAccounts (socket_error message) c fresh a =
      either_way c.is_connected _ _ (reject_pending-HasAccounts message c a) a
  client_step-HasAccounts socket_closed c fresh a = reject_pending-HasAccounts _ _ a
  client_step-HasAccounts (sending id pattern_ payload) c fresh a =
      send-HasAccounts id pattern_ payload c fresh a
  client_step-HasAccounts (timer_fires n) c fresh a = fire-HasAccounts n c a
  client_step-HasAccounts closing c fresh a = reject_pending-HasAccounts client_closed c a

  Reachable-HasAccounts : (c : Client J D) → Reachable w c → HasAccounts c
  unfolding get
  Reachable-HasAccounts _ starts = record {
    distinct = tt;
    counted = λ n. ground arith;
    timer_of = λ id n h. ground arith;
    of_timer = λ id n h. ground arith;
  }
  Reachable-HasAccounts _ (steps {c} e r fresh) =
      client_step-HasAccounts e c fresh (Reachable-HasAccounts c r)

  -- In every state that events lead to, where no id is given twice at the same time, each request
  -- that was sent either waits for its reply or was settled, once.
  pub requests_settled_once :
      (c : Client J D)
      → Reachable w c
      → (n : ℕ) → n < c.sent
      → times_settled n c.settled + count n (values c.pending_requests) ≡ 1
  requests_settled_once c r n h = ground (arith, (Reachable-HasAccounts c r).counted n)

  settle_all_keeps :
      (f : Frame J) (ns : List ℕ) (c : Client J D)
      → ((settle_all w f ns c).pending_requests ≡ c.pending_requests)
        × ((settle_all w f ns c).sent ≡ c.sent)
  unfolding settle_all settle_request
  settle_all_keeps f [] c = (refl, refl)
  settle_all_keeps f (n ∷ ns) c = settle_all_keeps f ns (settle_request w f n c)

  no_pending :
      (message : Text) (c : Client J D)
      → ((reject_pending w message c).pending_requests ≡ [])
        × ((reject_pending w message c).sent ≡ c.sent)
  unfolding reject_pending
  no_pending message c = settle_all_keeps _ _ _

  -- Where no request waits, each was settled.
  none_waits :
      (c : Client J D)
      → HasAccounts c
      → c.pending_requests ≡ []
      → (n : ℕ) → n < c.sent
      → times_settled n c.settled ≡ 1
  none_waits c a gone n h =
      let counted =
        subst
          (λ p. times_settled n c.settled + count n (values p) ≡ (if ltb n c.sent then 1 else 0))
          gone (a.counted n) in
      ground arith

  -- After the connection is closed, by the client or by the other end, each request that was sent
  -- has been settled, once.
  pub close_settles_all :
      (c : Client J D)
      → Reachable w c
      → (n : ℕ) → n < c.sent
      → (times_settled n (client_step w closing c).settled ≡ 1)
        × (times_settled n (client_step w socket_closed c).settled ≡ 1)
  unfolding client_step close
  close_settles_all c r n h =
      let a = Reachable-HasAccounts c r in
      let (gone, same) = no_pending client_closed c in
      let (gone', same') = no_pending connection_closed (record c { is_connected = false }) in
      (
        none_waits (reject_pending w client_closed c) (reject_pending-HasAccounts client_closed c a)
            gone n (subst (λ k. n < k) (sym same) h),
        none_waits (reject_pending w connection_closed (record c { is_connected = false }))
            (reject_pending-HasAccounts connection_closed _ a) gone' n
            (subst (λ k. n < k) (sym same') h),
      )
