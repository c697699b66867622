-- ===== src/Tcp/Client/Accounts.antt =====
-- Every request of packages/microservices/src/client/tcp.client.ts is settled exactly once:
-- the requests that wait, their timers and those that were settled.
use elysia_nest.Base.{
  ℕ, ◌+◌, ◌<◌, ◌≡◌, refl, ap, none, some, List, [], ◌∷◌, ◌++◌, Text, text_eq, nat_eq, if◌then◌else◌,
  ◌==◌, ltb, count, count-append, count-delete, has-values, count_of_has, values, values-put,
  HasDistinctKeys, put-HasDistinctKeys, delete-HasDistinctKeys, Map, get, put, delete, get-put,
  get-delete, arith, beq_self, text_beq_iff,
}
use elysia_nest.Tcp.Client.{Settlement, not_connected}

module _ {J : Type 0} where
  -- The requests that were settled, once for each time.
  abbrev pub settled_requests : List (ℕ × Settlement J) → List ℕ
  settled_requests [] = []
  settled_requests ((n, o) ∷ rest) = n ∷ settled_requests rest

  settled_requests-append :
      (xs ys : List (ℕ × Settlement J))
      → settled_requests (xs ++ ys) ≡ settled_requests xs ++ settled_requests ys
  settled_requests-append [] ys = refl
  settled_requests-append ((n, o) ∷ xs) ys = ap (λ ns. n ∷ ns) (settled_requests-append xs ys)

  abbrev pub times_settled : ℕ → List (ℕ × Settlement J) → ℕ
  times_settled n l = count n (settled_requests l)

  times_settled-append :
      (n m : ℕ) (o : Settlement J) (l : List (ℕ × Settlement J))
      → times_settled n (l ++ (m, o) ∷ []) ≡ times_settled n l + (if m == n then 1 else 0)
  times_settled-append n m o l =
      rw (settled_requests-append l ((m, o) ∷ []), count-append n (settled_requests l) (m ∷ []))
        (omega arith)

  -- The parts of a client that its requests are in.
  pub record IsAccounted (pending : Map Text ℕ) (timers : Map ℕ Text)
      (settled : List (ℕ × Settlement J)) (sent : ℕ) : Type 0 where
    pub distinct : HasDistinctKeys pending
    pub counted :
        (n : ℕ) → times_settled n settled + count n (values pending) ≡ (if ltb n sent then 1 else 0)
    pub timer_of : (id : Text) (n : ℕ) → get pending id ≡ some n → get timers n ≡ some id
    pub of_timer : (id : Text) (n : ℕ) → get timers n ≡ some id → get pending id ≡ some n

  -- A request that is taken out and settled.
  pub accounts_taken :
      (pending : Map Text ℕ) (timers : Map ℕ Text) (settled : List (ℕ × Settlement J)) (sent : ℕ)
      (id : Text) (n : ℕ) (o : Settlement J)
      → get pending id ≡ some n
      → IsAccounted pending timers settled sent
      → IsAccounted (delete pending id) (delete timers n) (settled ++ (n, o) ∷ []) sent
  accounts_taken pending timers settled sent id n o at a = record {
    distinct = delete-HasDistinctKeys pending id a.distinct;
    counted = λ m. omega (
      arith,
      times_settled-append m n o settled,
      count-delete pending id n m a.distinct at,
      a.counted m,
    );
    timer_of = λ id' n' h. ground (
      arith,
      get-delete pending id id',
      get-delete timers n n',
      a.timer_of id' n',
      a.timer_of id n at,
      beq_self id,
    );
    of_timer = λ id' n' h. ground (
      arith,
      get-delete pending id id',
      get-delete timers n n',
      text_beq_iff id id',
      a.of_timer id' n',
    );
  }

  -- Only requests that were sent wait.
  waiting_below :
      (pending : Map Text ℕ) (timers : Map ℕ Text) (settled : List (ℕ × Settlement J)) (sent : ℕ)
      (id : Text) (n : ℕ)
      → get pending id ≡ some n
      → IsAccounted pending timers settled sent
      → n < sent
  waiting_below pending timers settled sent id n at a =
      ground (arith, a.counted n, count_of_has (values pending) n (has-values pending id n at))

  -- A request that is sent.
  pub accounts_sent :
      (pending : Map Text ℕ) (timers : Map ℕ Text) (settled : List (ℕ × Settlement J)) (sent : ℕ)
      (id : Text)
      → get pending id ≡ none
      → IsAccounted pending timers settled sent
      → IsAccounted (put pending id sent) (put timers sent id) settled (sent + 1)
  accounts_sent pending timers settled sent id absent a = record {
    distinct = put-HasDistinctKeys pending id sent a.distinct;
    counted = λ m.
        rw (values-put pending id sent absent, count-append m (values pending) (sent ∷ []))
          (ground (arith, a.counted m));
    timer_of = λ id' n h.
        let below : (get pending id' ≡ some n) → n < sent =
          λ at. waiting_below pending timers settled sent id' n at a in
        ground (
          arith,
          get-put pending id sent id',
          get-put timers sent id n,
          text_beq_iff id id',
          a.timer_of id' n,
        );
    of_timer = λ id' n h. ground (
      arith,
      get-put pending id sent id',
      get-put timers sent id n,
      text_beq_iff id id',
      a.of_timer id' n,
    );
  }

  -- A request that is refused, as the client is not connected.
  pub accounts_refused :
      (pending : Map Text ℕ) (timers : Map ℕ Text) (settled : List (ℕ × Settlement J)) (sent : ℕ)
      → IsAccounted pending timers settled sent
      → IsAccounted pending timers (settled ++ (sent, not_connected) ∷ []) (sent + 1)
  accounts_refused pending timers settled sent a = record {
    distinct = a.distinct;
    counted = λ m. ground (arith, times_settled-append m sent not_connected settled, a.counted m);
    timer_of = a.timer_of;
    of_timer = a.of_timer;
  }
