-- ===== src/PubSub/Iterator/Order.antt =====
-- The queues of the iterator against the calls of `next` and the messages that came in.
use mathlib.Core.List.{append_assoc}
use elysia_nest.Base.{
  ℕ, suc, ◌≤◌, ◌≡◌, ◌⊎◌, refl, sym, ap, ◌∙◌, inl, inr, true, false, List, [], ◌∷◌, ◌++◌, nat_eq,
  length, arith, Bool-cases,
}
use elysia_nest.PubSub.Iterator.{
  Answer, yields, done, rejects, Parked, asks, closes, PubSubAsyncIterator, max_queue_size, answer,
  take_from, take_next, done_answers, teardown,
}

-- The calls that have an answer, and the messages that answers carry.
abbrev pub callers : List (ℕ × Answer) → List ℕ
callers [] = []
callers ((r, a) ∷ rest) = r ∷ callers rest

abbrev pub values : List (ℕ × Answer) → List ℕ
values [] = []
values ((r, yields v) ∷ rest) = v ∷ values rest
values ((r, done) ∷ rest) = values rest
values ((r, rejects e) ∷ rest) = values rest

abbrev pub asked_in : List Parked → List ℕ
asked_in [] = []
asked_in (asks r ∷ ws) = r ∷ asked_in ws
asked_in (closes ∷ ws) = asked_in ws

-- The state of the queues after the calls `asked` and the messages `pushed`, while `ws` wait for
-- the subscriptions.
pub record Ordered (asked pushed : List ℕ) (ws : List Parked) (s : PubSubAsyncIterator)
    : Type 0 where
  pub order : callers s.answers ++ (s.pull_queue ++ asked_in ws) ≡ asked
  pub one_empty : (s.pull_queue ≡ []) ⊎ (s.push_queue ≡ [])
  pub size : length s.push_queue ≤ max_queue_size
  pub bounded : length s.push_queue ≤ length pushed
  pub closed : s.listening ≡ false → (s.pull_queue ≡ []) × (s.push_queue ≡ [])
  pub delivered :
      s.listening ≡ true
      → length pushed ≤ max_queue_size
      → values s.answers ++ s.push_queue ≡ pushed

callers-append : (xs ys : List (ℕ × Answer)) → callers (xs ++ ys) ≡ callers xs ++ callers ys
callers-append [] ys = refl
callers-append ((r, a) ∷ xs) ys = ap (λ l. r ∷ l) (callers-append xs ys)

pub values-append : (xs ys : List (ℕ × Answer)) → values (xs ++ ys) ≡ values xs ++ values ys
values-append [] ys = refl
values-append ((r, yields v) ∷ xs) ys = ap (λ l. v ∷ l) (values-append xs ys)
values-append ((r, done) ∷ xs) ys = values-append xs ys
values-append ((r, rejects e) ∷ xs) ys = values-append xs ys

callers-done_answers : (rs : List ℕ) → callers (done_answers rs) ≡ rs
callers-done_answers [] = refl
callers-done_answers (r ∷ rs) = ap (λ l. r ∷ l) (callers-done_answers rs)

pub Ordered-teardown :
    (a p : List ℕ) (ws : List Parked) (s : PubSubAsyncIterator)
    → Ordered a p ws s
    → Ordered a p ws (teardown s)
unfolding teardown
Ordered-teardown a p ws s v = record {
  order =
      ap (λ l. l ++ asked_in ws)
        (callers-append s.answers (done_answers s.pull_queue)
          ∙ ap (λ l. callers s.answers ++ l) (callers-done_answers s.pull_queue))
      ∙ append_assoc (callers s.answers) s.pull_queue (asked_in ws)
      ∙ v.order;
  one_empty = inl refl;
  size = omega arith;
  bounded = omega arith;
  closed = λ h. (refl, refl);
  delivered = λ h. absurd (ground arith);
}

-- One more answer, in front of the calls `rest`.
pub callers-answer :
    (xs : List (ℕ × Answer)) (r : ℕ) (x : Answer) (rest : List ℕ)
    → callers (xs ++ (r, x) ∷ []) ++ rest ≡ callers xs ++ r ∷ rest
callers-answer xs r x rest =
    ap (λ l. l ++ rest) (callers-append xs ((r, x) ∷ [])) ∙ append_assoc (callers xs) (r ∷ []) rest

-- An answer to a call that no other one precedes.
order-answer :
    (a : List ℕ) (xs : List (ℕ × Answer)) (pull : List ℕ) (r : ℕ) (x : Answer) (rest : List ℕ)
    → pull ≡ []
    → callers xs ++ (pull ++ r ∷ rest) ≡ a
    → callers (xs ++ (r, x) ∷ []) ++ (pull ++ rest) ≡ a
order-answer a xs pull r x rest idle order =
    callers-answer xs r x (pull ++ rest)
    ∙ ap (λ l. callers xs ++ r ∷ (l ++ rest)) idle
    ∙ sym (ap (λ l. callers xs ++ (l ++ r ∷ rest)) idle)
    ∙ order

cons_empty :
    (xs ys : List ℕ) (y : ℕ) (rest : List ℕ) → (xs ≡ []) ⊎ (ys ≡ []) → ys ≡ y ∷ rest → xs ≡ []
cons_empty xs ys y rest (inl e) h = e
cons_empty xs ys y rest (inr e) h = absurd (ground arith)

Ordered-take_from :
    (a p : List ℕ) (ws : List Parked) (s : PubSubAsyncIterator) (r : ℕ) (q : List ℕ)
    → s.push_queue ≡ q
    → Ordered a p (asks r ∷ ws) s
    → Ordered a p ws (take_from s r q)
Ordered-take_from a p ws s r (x ∷ q) same v =
    let idle = cons_empty s.pull_queue s.push_queue x q v.one_empty same in
    let len : length s.push_queue ≡ suc (length q) = ap (λ (l : List ℕ). length l) same in
    record {
      order = order-answer a s.answers s.pull_queue r (yields x) (asked_in ws) idle v.order;
      one_empty = inl idle;
      size = omega (arith, v.size);
      bounded = omega (arith, v.bounded);
      closed = λ h. absurd (ground (arith, v.closed h));
      delivered = λ on few.
          ap (λ l. l ++ q) (values-append s.answers ((r, yields x) ∷ []))
          ∙ append_assoc (values s.answers) (x ∷ []) q
          ∙ ap (λ l. values s.answers ++ l) (sym same)
          ∙ v.delivered on few;
    }
Ordered-take_from a p ws s r [] same v = elim (Bool-cases s.listening) [
  | inl on ↦ rw on (record {
    order =
        ap (λ l. callers s.answers ++ l) (append_assoc s.pull_queue (r ∷ []) (asked_in ws))
        ∙ v.order;
    one_empty = inr same;
    size = v.size;
    bounded = v.bounded;
    closed = λ h. absurd (ground arith);
    delivered = λ h few. v.delivered on few;
  })
  | inr off ↦ rw off (record {
    order = order-answer a s.answers s.pull_queue r done (asked_in ws) (v.closed off).0 v.order;
    one_empty = v.one_empty;
    size = v.size;
    bounded = v.bounded;
    closed = λ h. v.closed off;
    delivered = λ h. absurd (ground arith);
  })
]

pub Ordered-take_next :
    (a p : List ℕ) (ws : List Parked) (s : PubSubAsyncIterator) (r : ℕ)
    → Ordered a p (asks r ∷ ws) s
    → Ordered a p ws (take_next s r)
unfolding take_next
Ordered-take_next a p ws s r v = Ordered-take_from a p ws s r s.push_queue refl v

-- A rejected call, after the queues were drained.
pub Ordered-reject :
    (a p : List ℕ) (ws : List Parked) (s : PubSubAsyncIterator) (r e : ℕ)
    → s.listening ≡ false
    → Ordered a p (asks r ∷ ws) s
    → Ordered a p ws (answer s r (rejects e))
Ordered-reject a p ws s r e off v = record {
  order =
      order-answer a s.answers s.pull_queue r (rejects e) (asked_in ws) (v.closed off).0 v.order;
  one_empty = v.one_empty;
  size = v.size;
  bounded = v.bounded;
  closed = v.closed;
  delivered = λ on few. absurd (ground arith);
}
