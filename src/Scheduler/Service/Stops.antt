-- ===== src/Scheduler/Service/Stops.antt =====
-- The timers of the scheduler, and what cancelling all tasks stops.
use elysia_nest.Base.{
  ℕ, ◌≤◌, ◌≡◌, refl, sym, ap, ◌∙◌, subst, true, false, ◌||◌, not, some, List, [], ◌∷◌, length,
  nat_eq, ◌==◌, ltb, leb, filter, Bool-cases, Option-cases, inl, inr, arith, nat_beq_iff, has,
  get_elem?, update, update_from,
}
use elysia_nest.Scheduler.Service.{
  interval, Task, Scheduler, maybe_cleanup, running_task, start_cron, start_interval, start_timeout,
  schedule_cron, schedule_interval, schedule_timeout, schedule_at, cancel_task, cancel, cancel_each,
  cancel_all_tasks, get_tasks, after_firing, fire_task, fires, complete_timeout, settle_task,
  callback_settles, Reachable, starts, schedules_cron, schedules_interval, schedules_timeout,
  schedules_at, cancels, cancels_all, timer_fires, settles,
}
use elysia_nest.Scheduler.Service.Limits.{length-filter}
use elysia_nest.Scheduler.Service.Sound.{
  has-filter, IsListed, if_cases, IsSound-maybe_cleanup, IsSound-checked, IsSound-start_cron,
  IsSound-start_timeout, IsSound-register_task, IsSound,
}

-- A change of a task that arms no timer and cancels no running one.
IsListed-update :
    (tasks : List ℕ) (objects : List Task) (n : ℕ) (f : Task → Task)
    → ((t : Task) → (f t).armed ≡ true → (t.armed ≡ true) × ((f t).canceled ≡ t.canceled))
    → IsListed tasks objects
    → IsListed tasks (update n f objects)
IsListed-update tasks objects n f keeps k i t at armed =
    let (g, at', from) = update_from f n objects i t at in
    elim from [
      | inl (e, same) ↦
          let (was, kept) = keeps g (subst (λ x. x.armed ≡ true) same armed) in
          let (live, listed) = k i g at' was in (ap (λ x. x.canceled) same ∙ kept ∙ live, listed)
      | inr (ne, same) ↦
          let (live, listed) = k i g at' (subst (λ x. x.armed ≡ true) same armed) in
          (ap (λ x. x.canceled) same ∙ live, listed)
    ]

cancel_task_keeps :
    (t : Task)
    → (cancel_task t).armed ≡ true
    → (t.armed ≡ true) × ((cancel_task t).canceled ≡ t.canceled)
cancel_task_keeps t h = ground arith

after_firing_keeps :
    (t : Task)
    → (after_firing t).armed ≡ true
    → (t.armed ≡ true) × ((after_firing t).canceled ≡ t.canceled)
after_firing_keeps t h = ground arith

complete_timeout_idle :
    (t : Task)
    → (complete_timeout t).armed ≡ true
    → (t.armed ≡ true) × ((complete_timeout t).canceled ≡ t.canceled)
complete_timeout_idle t h = absurd (ground arith)

cancel_task_idle : (t : Task) → t.canceled ≡ false → (cancel_task t).armed ≡ false
cancel_task_idle t live = rw live refl

-- A timer that runs after tasks were cancelled ran before, and is not that of one of them.
cancel_each-armed :
    (tasks ns : List ℕ) (objects : List Task)
    → IsListed tasks objects
    → (n : ℕ) (t : Task) → get_elem? (cancel_each ns objects) n ≡ some t
    → t.armed ≡ true
    → (get_elem? objects n ≡ some t) × (has ns n ≡ false)
unfolding cancel_each cancel
cancel_each-armed tasks [] objects k n t at armed = (at, refl)
cancel_each-armed tasks (i ∷ ns) objects k n t at armed =
    let k' = IsListed-update tasks objects i cancel_task cancel_task_keeps k in
    let (at', others) = cancel_each-armed tasks ns (cancel i objects) k' n t at armed in
    let (g, at_g, from) = update_from cancel_task i objects n t at' in
    elim from [
      | inl (e, same) ↦
          let armed' = subst (λ x. x.armed ≡ true) same armed in
          let live = (k n g at_g (cancel_task_keeps g armed').0).0 in
          absurd (ground (arith, cancel_task_idle g live))
      | inr (ne, same) ↦ (subst (λ x. get_elem? objects n ≡ some x) (sym same) at_g, ground arith)
    ]

IsSound-cancel_all_tasks : (m : ℕ) (s : Scheduler) → IsSound m s → IsSound m (cancel_all_tasks s)
unfolding cancel_all_tasks
IsSound-cancel_all_tasks m s k = record {
  same_limit = k.same_limit;
  within = omega arith;
  is_listed = λ n t at armed.
      let (at', others) = cancel_each-armed s.tasks s.tasks s.objects k.is_listed n t at armed in
      absurd (ground (arith, (k.is_listed n t at' armed).1));
}

IsSound-fires : (m n : ℕ) (s : Scheduler) → IsSound m s → IsSound m (fires n s)
unfolding fires
IsSound-fires m n s k = elim (Option-cases (get_elem? s.objects n)) [
  | inl e ↦ subst (λ o. IsSound m (fire_task n o s)) (sym e) k
  | inr (t, e) ↦
      subst (λ o. IsSound m (fire_task n o s)) (sym e)
        (if_cases (IsSound m) t.armed _ s
          (λ armed.
            if_cases (IsSound m) (t.canceled || not t.has_callback) _ _ (λ e'. fired)
              (λ e'. record {
                same_limit = k.same_limit;
                within = k.within;
                is_listed = fired.is_listed;
              }))
          (λ idle. k))
]
  where
    fired : IsSound m (record s { objects = update n after_firing s.objects })
    fired = record {
      same_limit = k.same_limit;
      within = k.within;
      is_listed = IsListed-update s.tasks s.objects n after_firing after_firing_keeps k.is_listed;
    }

-- A task that awaits its callback has no timer.
IsSound-callback_settles :
    (m n : ℕ) (s : Scheduler) → IsSound m s → IsSound m (callback_settles n s)
unfolding callback_settles
IsSound-callback_settles m n s k = elim (Option-cases (get_elem? s.objects n)) [
  | inl e ↦ subst (λ o. IsSound m (settle_task n o s)) (sym e) k
  | inr (t, e) ↦
      subst (λ o. IsSound m (settle_task n o s)) (sym e)
        (if_cases (IsSound m) t.awaiting _ s (λ e'. settled) (λ e'. k))
]
  where
    settled : IsSound m (record s {
      objects = update n complete_timeout s.objects;
      tasks = filter (λ i. not (i == n)) s.tasks;
    })
    settled = record {
      same_limit = k.same_limit;
      within = omega (arith, k.within, length-filter (λ i. not (i == n)) s.tasks);
      is_listed = λ i t at armed.
          let (g, at', from) = update_from complete_timeout n s.objects i t at in
          elim from [
            | inl (e, same) ↦ absurd (ground (arith, ap (λ x. x.armed) same))
            | inr (ne, same) ↦
                let (live, listed) = k.is_listed i g at' (subst (λ x. x.armed ≡ true) same armed) in
                (
                  ap (λ x. x.canceled) same ∙ live,
                  ground (arith, has-filter (λ i. not (i == n)) s.tasks i, nat_beq_iff i n),
                )
          ];
    }

Reachable-IsSound : (m : ℕ) (s : Scheduler) → Reachable m s → IsSound m s
unfolding schedule_cron schedule_interval schedule_timeout schedule_at cancel
Reachable-IsSound m _ starts = record {
  same_limit = refl;
  within = omega arith;
  is_listed = λ n t at armed. ground arith;
}
Reachable-IsSound m _ (schedules_cron {s} valid job_starts on_init r) =
    IsSound-checked m (maybe_cleanup s) valid (start_cron job_starts on_init)
      (IsSound-start_cron m job_starts on_init)
      (IsSound-maybe_cleanup m s (Reachable-IsSound m s r))
Reachable-IsSound m _ (schedules_interval {s} interval_ms on_init r) =
    IsSound-checked m (maybe_cleanup s) (ltb 0 interval_ms) (start_interval on_init)
      (λ x free k. IsSound-register_task m x (running_task interval) _ free refl k)
      (IsSound-maybe_cleanup m s (Reachable-IsSound m s r))
Reachable-IsSound m _ (schedules_timeout {s} on_init r) =
    IsSound-checked m (maybe_cleanup s) true (start_timeout on_init)
      (IsSound-start_timeout m on_init) (IsSound-maybe_cleanup m s (Reachable-IsSound m s r))
Reachable-IsSound m _ (schedules_at {s} date now on_init r) =
    IsSound-checked m (maybe_cleanup s) (leb now date) (start_timeout on_init)
      (IsSound-start_timeout m on_init) (IsSound-maybe_cleanup m s (Reachable-IsSound m s r))
Reachable-IsSound m _ (cancels {s} n r) =
    let k = Reachable-IsSound m s r in
    record {
      same_limit = k.same_limit;
      within = k.within;
      is_listed = IsListed-update s.tasks s.objects n cancel_task cancel_task_keeps k.is_listed;
    }
Reachable-IsSound m _ (cancels_all {s} r) = IsSound-cancel_all_tasks m s (Reachable-IsSound m s r)
Reachable-IsSound m _ (timer_fires {s} n r) = IsSound-fires m n s (Reachable-IsSound m s r)
Reachable-IsSound m _ (settles {s} n r) = IsSound-callback_settles m n s (Reachable-IsSound m s r)

-- In every state of a scheduler its map has at most as many tasks as the limit.
pub tasks_within : (m : ℕ) (s : Scheduler) → Reachable m s → length s.tasks ≤ m
tasks_within m s r = (Reachable-IsSound m s r).within

-- In every state of a scheduler each task whose job or timer runs is one that getTasks returns.
pub tasks_listed :
    (m : ℕ) (s : Scheduler)
    → Reachable m s
    → (n : ℕ) (t : Task) → get_elem? s.objects n ≡ some t
    → t.armed ≡ true
    → has (get_tasks s) n ≡ true
unfolding get_tasks
tasks_listed m s r n t at armed =
    let (live, listed) = (Reachable-IsSound m s r).is_listed n t at armed in
    has-filter _ s.tasks n ∙ rw (listed, at, live) refl

fires_idle :
    (s : Scheduler) (n : ℕ)
    → ((t : Task) → get_elem? s.objects n ≡ some t → t.armed ≡ false)
    → fires n s ≡ s
unfolding fires
fires_idle s n idle = elim (Option-cases (get_elem? s.objects n)) [
  | inl e ↦ subst (λ o. fire_task n o s ≡ s) (sym e) refl
  | inr (t, e) ↦ subst (λ o. fire_task n o s ≡ s) (sym e) (rw (idle t e) refl)
]

none_armed :
    (m : ℕ) (s : Scheduler)
    → IsSound m s
    → s.tasks ≡ []
    → (n : ℕ) (t : Task) → get_elem? s.objects n ≡ some t
    → t.armed ≡ false
none_armed m s k empty n t at = elim (Bool-cases t.armed) [
  | inl armed ↦
      let listed = subst (λ ns. has ns n ≡ true) empty (k.is_listed n t at armed).1 in
      absurd (ground arith)
  | inr e ↦ e
]

-- After all tasks are cancelled no timer or job that fires has an effect: no callback is called.
pub cancel_all_tasks_stops :
    (m : ℕ) (s : Scheduler)
    → Reachable m s
    → (n : ℕ) → fires n (cancel_all_tasks s) ≡ cancel_all_tasks s
unfolding cancel_all_tasks
cancel_all_tasks_stops m s r n = fires_idle (cancel_all_tasks s) n (
    none_armed m (cancel_all_tasks s) (IsSound-cancel_all_tasks m s (Reachable-IsSound m s r)) refl
      n)
