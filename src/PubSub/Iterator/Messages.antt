-- ===== src/PubSub/Iterator/Messages.antt =====
-- A message or a call that comes in, and the queues of the iterator.
use mathlib.Core.List.{append-nil, append_assoc}
use elysia_nest.Base.{
  ℕ, ◌+◌, ◌≤◌, ◌<◌, ◌≡◌, ◌⊎◌, refl, sym, ap, subst, ◌∙◌, inl, inr, Bool, true, not, List, [], ◌∷◌,
  ◌++◌, nat_eq, if◌then◌else◌, leb, length, length-append, arith, Bool-cases,
}
use elysia_nest.PubSub.Iterator.{
  yields, Parked, asks, closes, PubSubAsyncIterator, max_queue_size, enqueue, hand_over,
  arm_idle_timer, push_value,
}
use elysia_nest.PubSub.Iterator.Order.{
  callers, values, asked_in, Ordered, callers-answer, values-append,
}

length-enqueue :
    (q : List ℕ) (x : ℕ)
    → length q ≤ max_queue_size
    → (length (enqueue q x) ≤ max_queue_size)
      × (length (enqueue q x) ≤ length q + 1)
      × (length q < max_queue_size → enqueue q x ≡ q ++ x ∷ [])
length-enqueue [] x h = (omega arith, omega arith, λ k. refl)
length-enqueue (y ∷ q) x h = elim (Bool-cases (leb max_queue_size (length (y ∷ q)))) [
  | inl full ↦
      rw full
        (let n = length-append q (x ∷ []) in (omega arith, omega arith, λ k. absurd (ground arith)))
  | inr room ↦ rw room (let n = length-append q (x ∷ []) in (ground arith, omega arith, λ k. refl))
]

head_empty :
    (xs ys : List ℕ) (x : ℕ) (rest : List ℕ) → (xs ≡ []) ⊎ (ys ≡ []) → xs ≡ x ∷ rest → ys ≡ []
head_empty xs ys x rest (inl e) h = absurd (ground arith)
head_empty xs ys x rest (inr e) h = e

Ordered-hand_over :
    (a p : List ℕ) (ws : List Parked) (s : PubSubAsyncIterator) (x : ℕ) (q : List ℕ)
    → s.pull_queue ≡ q
    → s.listening ≡ true
    → Ordered a p ws s
    → Ordered a (p ++ x ∷ []) ws (hand_over s x q)
Ordered-hand_over a p ws s x (r ∷ rs) same on v =
    let quiet = head_empty s.pull_queue s.push_queue r rs v.one_empty same in
    let empty : length s.push_queue ≡ 0 = ap (λ (l : List ℕ). length l) quiet in
    record {
      order =
          callers-answer s.answers r (yields x) (rs ++ asked_in ws)
          ∙ ap (λ l. callers s.answers ++ (l ++ asked_in ws)) (sym same)
          ∙ v.order;
      one_empty = inr quiet;
      size = v.size;
      bounded = omega arith;
      closed = λ h. absurd (ground arith);
      delivered = λ h few.
          let n = length-append p (x ∷ []) in
          ap (λ l. values (s.answers ++ (r, yields x) ∷ []) ++ l) quiet
          ∙ append-nil _
          ∙ values-append s.answers ((r, yields x) ∷ [])
          ∙ ap (λ l. l ++ x ∷ [])
              (sym (append-nil _)
                ∙ sym (ap (λ l. values s.answers ++ l) quiet)
                ∙ v.delivered on (omega arith));
    }
Ordered-hand_over a p ws s x [] same on v =
    let (size, one_more, room) = length-enqueue s.push_queue x v.size in
    let n = length-append p (x ∷ []) in
    record {
      order = v.order;
      one_empty = inl same;
      size = size;
      bounded = omega (arith, v.bounded);
      closed = λ h. absurd (ground arith);
      delivered = λ h few.
          ap (λ l. values s.answers ++ l) (room (omega (arith, v.bounded)))
          ∙ sym (append_assoc (values s.answers) s.push_queue (x ∷ []))
          ∙ ap (λ l. l ++ x ∷ []) (v.delivered on (omega arith));
    }

pub Ordered-push_value :
    (a p : List ℕ) (ws : List Parked) (s : PubSubAsyncIterator) (x : ℕ)
    → Ordered a p ws s
    → Ordered a (p ++ x ∷ []) ws (push_value s x)
unfolding push_value arm_idle_timer
Ordered-push_value a p ws s x v = elim (Bool-cases s.listening) [
  | inl on ↦
      subst
        (λ (b : Bool).
          Ordered a (p ++ x ∷ []) ws
            (if not b then s else hand_over (arm_idle_timer s) x s.pull_queue))
        (sym on)
        (Ordered-hand_over a p ws (arm_idle_timer s) x s.pull_queue refl on (record {
          order = v.order;
          one_empty = v.one_empty;
          size = v.size;
          bounded = v.bounded;
          closed = v.closed;
          delivered = v.delivered;
        }))
  | inr off ↦ rw off (
      let n = length-append p (x ∷ []) in
      record {
        order = v.order;
        one_empty = v.one_empty;
        size = v.size;
        bounded = omega (arith, v.bounded);
        closed = λ h. v.closed off;
        delivered = λ h. absurd (ground arith);
      })
]

-- A call that is parked comes after all others.
asked_in-append :
    (ws : List Parked) (w : Parked) → asked_in (ws ++ w ∷ []) ≡ asked_in ws ++ asked_in (w ∷ [])
asked_in-append [] w = sym (append-nil (asked_in (w ∷ []))) ∙ append-nil (asked_in (w ∷ []))
asked_in-append (asks r ∷ ws) w = ap (λ l. r ∷ l) (asked_in-append ws w)
asked_in-append (closes ∷ ws) w = asked_in-append ws w

-- One more call of `next`, or of `return`, that waits.
pub Ordered-wait :
    (a p : List ℕ) (ws : List Parked) (w : Parked) (s : PubSubAsyncIterator)
    → Ordered a p ws s
    → Ordered (a ++ asked_in (w ∷ [])) p (ws ++ w ∷ []) s
Ordered-wait a p ws w s v = record {
  order =
      ap (λ l. callers s.answers ++ (s.pull_queue ++ l)) (asked_in-append ws w)
      ∙ ap (λ l. callers s.answers ++ l) (sym (append_assoc s.pull_queue (asked_in ws) _))
      ∙ sym (append_assoc (callers s.answers) (s.pull_queue ++ asked_in ws) _)
      ∙ ap (λ l. l ++ asked_in (w ∷ [])) v.order;
  one_empty = v.one_empty;
  size = v.size;
  bounded = v.bounded;
  closed = v.closed;
  delivered = v.delivered;
}
