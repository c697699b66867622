-- ===== src/Scheduler/Service.antt =====
-- packages/scheduler/src/services/scheduler.service.ts with the tasks of tasks/task.base.ts,
-- cron.task.ts, interval.task.ts and timeout.task.ts. A task is its index in the list of all tasks
-- that were constructed, and its id as well: randomUUID gives no id twice.
-- Limits, delays and times are natural numbers.
pub mod Limits
mod Sound
pub mod Stops
use elysia_nest.Base.{
  ℕ, ◌+◌, ◌*◌, ◌%◌, Bool, true, false, ◌&&◌, ◌||◌, not, Option, none, some, List, [], ◌∷◌, ◌++◌,
  length, nat_eq, ◌==◌, ltb, leb, if◌then◌else◌, filter, get_elem?, update,
}

pub data Kind : Type 0 where
  cron : Kind
  interval : Kind
  timeout : Kind

pub record Task : Type 0 where
  pub kind : Kind
  pub canceled : Bool
  -- Whether the callback is still held.
  pub has_callback : Bool
  -- Whether its job or timer runs.
  pub armed : Bool
  -- Whether the timer of a timeout awaits the callback.
  pub awaiting : Bool

pub record Scheduler : Type 0 where
  pub max_tasks : ℕ
  pub operation_count : ℕ
  -- The ids of the map, in its order.
  pub tasks : List ℕ
  pub objects : List Task
  -- The tasks whose callback was called.
  pub calls : List ℕ

pub data Outcome : Type 0 where
  scheduled : ℕ → Outcome
  limit_exceeded : Outcome
  -- The arguments are refused.
  invalid : Outcome
  -- The constructor of the job threw.
  job_failed : Outcome
  -- `handle` was read before its declaration.
  reference_error : Outcome

abbrev pub new_scheduler : ℕ → Scheduler
new_scheduler max_tasks = record {
  max_tasks = max_tasks;
  operation_count = 0;
  tasks = [];
  objects = [];
  calls = [];
}

abbrev pub is_canceled : Option Task → Bool
is_canceled none = false
is_canceled (some t) = t.canceled

abbrev pub canceled_at : List Task → ℕ → Bool
canceled_at objects n = is_canceled (get_elem? objects n)

unfoldable pub cleanup_canceled_tasks : Scheduler → Scheduler
cleanup_canceled_tasks s = record s { tasks = filter (λ n. not (canceled_at s.objects n)) s.tasks }

-- Every 100 operations, or if more than 0.8 of the limit is used.
unfoldable pub maybe_cleanup : Scheduler → Scheduler
maybe_cleanup s =
    let counted = record s { operation_count = s.operation_count + 1 } in
    if counted.operation_count % 100 == 0 || ltb (4 * s.max_tasks) (5 * length s.tasks)
    then cleanup_canceled_tasks counted
    else counted

abbrev pub is_full : Scheduler → Bool
is_full s = leb s.max_tasks (length s.tasks)

-- A task whose constructor has returned is put into the map.
abbrev pub register_task : Task → List ℕ → Scheduler → Scheduler × Outcome
register_task t calls s = (
  record s {
    objects = s.objects ++ t ∷ [];
    tasks = s.tasks ++ length s.objects ∷ [];
    calls = s.calls ++ calls;
  },
  scheduled (length s.objects),
)

-- A task whose constructor has thrown.
abbrev pub lose : Task → List ℕ → Outcome → Scheduler → Scheduler × Outcome
lose t calls error s = (record s { objects = s.objects ++ t ∷ []; calls = s.calls ++ calls }, error)

abbrev pub first_call : Bool → Scheduler → List ℕ
first_call on_init s = if on_init then length s.objects ∷ [] else []

abbrev pub running_task : Kind → Task
running_task kind = record {
  kind = kind;
  canceled = false;
  has_callback = true;
  armed = true;
  awaiting = false;
}

-- Whether the expression is valid, whether the job can be constructed, and executeOnInit.
abbrev pub start_cron : Bool → Bool → Scheduler → Scheduler × Outcome
start_cron job_starts on_init s =
    if job_starts
    then register_task (running_task cron) (first_call on_init s) s
    else lose
        (record {
          kind = cron;
          canceled = false;
          has_callback = true;
          armed = false;
          awaiting = false;
        })
        [] job_failed s

abbrev pub start_interval : Bool → Scheduler → Scheduler × Outcome
start_interval on_init s = register_task (running_task interval) (first_call on_init s) s

-- With executeOnInit the constructor calls `onComplete`, which reads `handle` too early.
abbrev pub start_timeout : Bool → Scheduler → Scheduler × Outcome
start_timeout on_init s =
    if on_init
    then lose
        (record {
          kind = timeout;
          canceled = true;
          has_callback = false;
          armed = false;
          awaiting = false;
        })
        (length s.objects ∷ []) reference_error s
    else register_task (running_task timeout) [] s

-- The checks before a task is constructed.
abbrev pub checked : Bool → (Scheduler → Scheduler × Outcome) → Scheduler → Scheduler × Outcome
checked valid start s =
    if is_full s then (s, limit_exceeded) else (if valid then start s else (s, invalid))

unfoldable pub schedule_cron : Bool → Bool → Bool → Scheduler → Scheduler × Outcome
schedule_cron valid job_starts on_init s =
    checked valid (start_cron job_starts on_init) (maybe_cleanup s)

unfoldable pub schedule_interval : ℕ → Bool → Scheduler → Scheduler × Outcome
schedule_interval interval_ms on_init s =
    checked (ltb 0 interval_ms) (start_interval on_init) (maybe_cleanup s)

-- The delay is not negative.
unfoldable pub schedule_timeout : Bool → Scheduler → Scheduler × Outcome
schedule_timeout on_init s = checked true (start_timeout on_init) (maybe_cleanup s)

unfoldable pub schedule_at : ℕ → ℕ → Bool → Scheduler → Scheduler × Outcome
schedule_at date now on_init s = checked (leb now date) (start_timeout on_init) (maybe_cleanup s)

abbrev pub cancel_task : Task → Task
cancel_task t =
    if t.canceled then t else record t { armed = false; canceled = true; has_callback = false }

unfoldable pub cancel : ℕ → List Task → List Task
cancel n objects = update n cancel_task objects

unfoldable pub cancel_each : List ℕ → List Task → List Task
cancel_each [] objects = objects
cancel_each (n ∷ ns) objects = cancel_each ns (cancel n objects)

unfoldable pub cancel_all_tasks : Scheduler → Scheduler
cancel_all_tasks s = record s { objects = cancel_each s.tasks s.objects; tasks = [] }

unfoldable pub get_tasks : Scheduler → List ℕ
get_tasks s = filter (λ n. not (canceled_at s.objects n)) s.tasks

abbrev pub is_timeout : Kind → Bool
is_timeout timeout = true
is_timeout _ = false

-- `executeCallback`
abbrev pub execute_callback : ℕ → Task → Scheduler → Scheduler
execute_callback n t s =
    if t.canceled || not t.has_callback then s else record s { calls = s.calls ++ n ∷ [] }

-- The timer of a timeout fires once.
abbrev pub after_firing : Task → Task
after_firing t = if is_timeout t.kind then record t { armed = false; awaiting = true } else t

abbrev pub fire_task : ℕ → Option Task → Scheduler → Scheduler
fire_task n none s = s
fire_task n (some t) s =
    if t.armed
    then execute_callback n t (record s { objects = update n after_firing s.objects })
    else s

unfoldable pub fires : ℕ → Scheduler → Scheduler
fires n s = fire_task n (get_elem? s.objects n) s

-- The rest of the callback of a timeout, once its task's callback has settled.
abbrev pub complete_timeout : Task → Task
complete_timeout t = record t { canceled = true; armed = false; awaiting = false }

abbrev pub settle_task : ℕ → Option Task → Scheduler → Scheduler
settle_task n none s = s
settle_task n (some t) s =
    if t.awaiting
    then record s {
      objects = update n complete_timeout s.objects;
      tasks = filter (λ m. not (m == n)) s.tasks;
    }
    else s

unfoldable pub callback_settles : ℕ → Scheduler → Scheduler
callback_settles n s = settle_task n (get_elem? s.objects n) s

-- The states of a scheduler that calls and timers lead to.
pub data Reachable (max_tasks : ℕ) : Scheduler → Type 0 where
  starts : Reachable max_tasks (new_scheduler max_tasks)
  schedules_cron :
      {s : Scheduler} (valid job_starts on_init : Bool)
      → Reachable max_tasks s
      → Reachable max_tasks (schedule_cron valid job_starts on_init s).0
  schedules_interval :
      {s : Scheduler} (interval_ms : ℕ) (on_init : Bool)
      → Reachable max_tasks s
      → Reachable max_tasks (schedule_interval interval_ms on_init s).0
  schedules_timeout :
      {s : Scheduler} (on_init : Bool)
      → Reachable max_tasks s
      → Reachable max_tasks (schedule_timeout on_init s).0
  schedules_at :
      {s : Scheduler} (date now : ℕ) (on_init : Bool)
      → Reachable max_tasks s
      → Reachable max_tasks (schedule_at date now on_init s).0
  cancels :
      {s : Scheduler} (n : ℕ)
      → Reachable max_tasks s
      → Reachable max_tasks (record s { objects = cancel n s.objects })
  cancels_all : {s : Scheduler} → Reachable max_tasks s → Reachable max_tasks (cancel_all_tasks s)
  timer_fires : {s : Scheduler} (n : ℕ) → Reachable max_tasks s → Reachable max_tasks (fires n s)
  settles :
      {s : Scheduler} (n : ℕ) → Reachable max_tasks s → Reachable max_tasks (callback_settles n s)
