-- ===== src/Scheduler/Tests.antt =====
-- A scheduler with a limit of two tasks, and the theorems on it.
use elysia_nest.Base.{nat_eq, ℕ, ◌≡◌, ◌≤◌, refl, Bool, true, false, [], ◌∷◌, length, has}
use elysia_nest.Scheduler.Cron.{is_valid_cron_expression}
use elysia_nest.Scheduler.Service.{
  Scheduler, running_task, timeout, schedule_cron, schedule_interval, schedule_timeout, schedule_at,
  get_tasks, cancel, cancel_all_tasks, fires, new_scheduler, maybe_cleanup, cleanup_canceled_tasks,
  Reachable, starts, schedules_interval, schedules_timeout, cancels,
}
use elysia_nest.Scheduler.Service.Limits.{limit_counts_active, RefusedWhenFull}
use elysia_nest.Scheduler.Service.Stops.{tasks_within, tasks_listed, cancel_all_tasks_stops}

abbrev is_blank_unit : ℕ → Bool
is_blank_unit x = has (32 ∷ 9 ∷ 10 ∷ []) x

-- "* * * * *" and "* * *"
five_stars :
    is_valid_cron_expression is_blank_unit
      (b'*' ∷ 32 ∷ b'*' ∷ 32 ∷ b'*' ∷ 32 ∷ b'*' ∷ 32 ∷ b'*' ∷ [])
    ≡ true
unfolding is_valid_cron_expression
five_stars = refl

three_stars : is_valid_cron_expression is_blank_unit (b'*' ∷ 32 ∷ b'*' ∷ 32 ∷ b'*' ∷ []) ≡ false
unfolding is_valid_cron_expression
three_stars = refl

-- An interval, which is cancelled, and a timeout.
abbrev with_interval : Scheduler
with_interval = (schedule_interval 50 true (new_scheduler 2)).0

abbrev with_timeout : Scheduler
with_timeout = (schedule_timeout false with_interval).0

abbrev one_canceled : Scheduler
one_canceled = record with_timeout { objects = cancel 0 with_timeout.objects }

one_canceled-Reachable : Reachable 2 one_canceled
one_canceled-Reachable = cancels 0 (schedules_timeout false (schedules_interval 50 true starts))

one_active : get_tasks one_canceled ≡ 1 ∷ []
unfolding schedule_interval schedule_timeout maybe_cleanup cleanup_canceled_tasks get_tasks cancel
one_active = refl

limit_counts_active_example :
    ((valid job_starts on_init : Bool)
      → RefusedWhenFull one_canceled (schedule_cron valid job_starts on_init one_canceled))
    × ((interval_ms : ℕ) (on_init : Bool)
        → RefusedWhenFull one_canceled (schedule_interval interval_ms on_init one_canceled))
    × ((on_init : Bool) → RefusedWhenFull one_canceled (schedule_timeout on_init one_canceled))
    × ((date now : ℕ) (on_init : Bool)
        → RefusedWhenFull one_canceled (schedule_at date now on_init one_canceled))
limit_counts_active_example = limit_counts_active one_canceled

tasks_within_example : length one_canceled.tasks ≤ 2
tasks_within_example = tasks_within 2 one_canceled one_canceled-Reachable

tasks_listed_example : has (get_tasks one_canceled) 1 ≡ true
unfolding schedule_interval schedule_timeout maybe_cleanup cleanup_canceled_tasks cancel
tasks_listed_example =
    tasks_listed 2 one_canceled one_canceled-Reachable 1 (running_task timeout) refl refl

cancel_all_tasks_stops_example :
    fires 1 (cancel_all_tasks one_canceled) ≡ cancel_all_tasks one_canceled
cancel_all_tasks_stops_example = cancel_all_tasks_stops 2 one_canceled one_canceled-Reachable 1
