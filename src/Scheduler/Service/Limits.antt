-- ===== src/Scheduler/Service/Limits.antt =====
-- When a call of the scheduler is refused for the number of tasks.
use elysia_nest.Base.{
  ℕ, ◌+◌, ◌*◌, ◌%◌, ◌≤◌, ◌≡◌, ◌≢◌, ◌↔◌, refl, Bool, true, false, ◌||◌, not, List, [], ◌∷◌, length,
  nat_eq, ◌==◌, ltb, leb, if◌then◌else◌, filter, Bool-cases, inl, inr, arith,
}
use elysia_nest.Scheduler.Service.{
  Scheduler, Outcome, limit_exceeded, invalid, canceled_at, cleanup_canceled_tasks, maybe_cleanup,
  is_full, checked, start_cron, start_interval, start_timeout, schedule_cron, schedule_interval,
  schedule_timeout, schedule_at, get_tasks,
}

pub length-filter : (p : ℕ → Bool) (xs : List ℕ) → length (filter p xs) ≤ length xs
length-filter p [] = omega arith
length-filter p (x ∷ xs) = ground (arith, length-filter p xs)

-- After the cleanup the map is full exactly where the active tasks reach the limit.
full_active : (s : Scheduler) → is_full (maybe_cleanup s) ≡ leb s.max_tasks (length (get_tasks s))
unfolding maybe_cleanup cleanup_canceled_tasks get_tasks
full_active s =
    elim (Bool-cases
      ((s.operation_count + 1) % 100 == 0 || ltb (4 * s.max_tasks) (5 * length s.tasks))) [
        | inl e ↦ rw e refl
        | inr e ↦ rw e (ground (arith, length-filter (λ n. not (canceled_at s.objects n)) s.tasks))
      ]

-- A call is refused for the limit, whatever it would start.
abbrev pub RefusedWhenFull : Scheduler → (Scheduler × Outcome) → Type 0
RefusedWhenFull s result = (result.1 ≡ limit_exceeded) ↔ (s.max_tasks ≤ length (get_tasks s))

limit_of_checks :
    (s : Scheduler) (valid : Bool) (start : Scheduler → Scheduler × Outcome)
    → ((x : Scheduler) → (start x).1 ≢ limit_exceeded)
    → RefusedWhenFull s (checked valid start (maybe_cleanup s))
limit_of_checks s valid start other = decided (is_full (maybe_cleanup s)) valid (full_active s)
  where
    decided :
        (full valid : Bool)
        → full ≡ leb s.max_tasks (length (get_tasks s))
        → RefusedWhenFull s (
            if full
            then (maybe_cleanup s, limit_exceeded)
            else (if valid then start (maybe_cleanup s) else (maybe_cleanup s, invalid)))
    decided true valid e = (λ refused. ground arith, λ many. refl)
    decided false true e = (λ refused. absurd (other _ refused), λ many. absurd (ground arith))
    decided false false e = (λ refused. absurd (ground arith), λ many. absurd (ground arith))

start_cron_other :
    (job_starts on_init : Bool) (s : Scheduler)
    → (start_cron job_starts on_init s).1 ≢ limit_exceeded
start_cron_other true on_init s e = ground arith
start_cron_other false on_init s e = ground arith

start_timeout_other :
    (on_init : Bool) (s : Scheduler) → (start_timeout on_init s).1 ≢ limit_exceeded
start_timeout_other true s e = ground arith
start_timeout_other false s e = ground arith

-- Each of the four calls that schedule a task fails for the limit exactly where the tasks that are
-- not cancelled reach it: cancelled tasks in the map never count.
pub limit_counts_active :
    (s : Scheduler)
    → ((valid job_starts on_init : Bool)
        → RefusedWhenFull s (schedule_cron valid job_starts on_init s))
      × ((interval_ms : ℕ) (on_init : Bool)
          → RefusedWhenFull s (schedule_interval interval_ms on_init s))
      × ((on_init : Bool) → RefusedWhenFull s (schedule_timeout on_init s))
      × ((date now : ℕ) (on_init : Bool) → RefusedWhenFull s (schedule_at date now on_init s))
unfolding schedule_cron schedule_interval schedule_timeout schedule_at
limit_counts_active s = (
  λ valid job_starts on_init.
      limit_of_checks s valid (start_cron job_starts on_init) (start_cron_other job_starts on_init),
  λ interval_ms on_init.
      limit_of_checks s (ltb 0 interval_ms) (start_interval on_init) (λ x e. ground arith),
  λ on_init. limit_of_checks s true (start_timeout on_init) (start_timeout_other on_init),
  λ date now on_init.
      limit_of_checks s (leb now date) (start_timeout on_init) (start_timeout_other on_init),
)
