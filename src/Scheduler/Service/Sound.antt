-- ===== src/Scheduler/Service/Sound.antt =====
-- The tasks of the scheduler that can run are in its map, which stays within the limit: what the
-- calls that schedule a task keep.
use elysia_nest.Base.{
  ℕ, ◌+◌, ◌≤◌, ◌≡◌, refl, ap, ◌∙◌, subst, Bool, true, false, ◌&&◌, not, some, List, [], ◌∷◌, length,
  length-append, nat_eq, ◌==◌, if◌then◌else◌, filter, Bool-cases, inl, inr, arith, nat_beq_iff, has,
  has-append, get_elem?, get_elem?-append_one,
}
use elysia_nest.Scheduler.Service.{
  cron, timeout, Task, Scheduler, Outcome, job_failed, reference_error, canceled_at,
  cleanup_canceled_tasks, maybe_cleanup, is_full, register_task, lose, running_task, checked,
  start_cron, start_timeout,
}
use elysia_nest.Scheduler.Service.Limits.{length-filter}

pub has-filter : (p : ℕ → Bool) (xs : List ℕ) (n : ℕ) → has (filter p xs) n ≡ (has xs n && p n)
has-filter p [] n = refl
has-filter p (x ∷ xs) n = elim (Bool-cases (x == n)) [
  | inl e ↦
      subst (λ k. has (filter p (x ∷ xs)) k ≡ (has (x ∷ xs) k && p k)) ((nat_beq_iff x n).0 e)
        (ground (arith, has-filter p xs x))
  | inr e ↦ ground (arith, has-filter p xs n)
]

abbrev pub IsListed : List ℕ → List Task → Type 0
IsListed tasks objects =
    (n : ℕ) (t : Task)
    → get_elem? objects n ≡ some t
    → t.armed ≡ true
    → (t.canceled ≡ false) × (has tasks n ≡ true)

pub record IsSound (max_tasks : ℕ) (s : Scheduler) : Type 0 where
  pub same_limit : s.max_tasks ≡ max_tasks
  pub within : length s.tasks ≤ max_tasks
  pub is_listed : IsListed s.tasks s.objects

IsSound-cleanup : (m : ℕ) (s : Scheduler) → IsSound m s → IsSound m (cleanup_canceled_tasks s)
unfolding cleanup_canceled_tasks
IsSound-cleanup m s k = record {
  same_limit = k.same_limit;
  within = omega (arith, k.within, length-filter (λ n. not (canceled_at s.objects n)) s.tasks);
  is_listed = λ n t at armed.
      let (live, listed) = k.is_listed n t at armed in
      (live, has-filter _ s.tasks n ∙ rw (listed, at, live) refl);
}

pub if_cases :
    (P : Scheduler → Type 0) (b : Bool) (x y : Scheduler)
    → (b ≡ true → P x)
    → (b ≡ false → P y)
    → P (if b then x else y)
if_cases P true x y a b = a refl
if_cases P false x y a b = b refl

pub IsSound-maybe_cleanup : (m : ℕ) (s : Scheduler) → IsSound m s → IsSound m (maybe_cleanup s)
unfolding maybe_cleanup
IsSound-maybe_cleanup m s k =
    let counted = record s { operation_count = s.operation_count + 1 } in
    let k' : IsSound m counted = record {
      same_limit = k.same_limit;
      within = k.within;
      is_listed = k.is_listed;
    } in
    if_cases (IsSound m) _ _ counted (λ e. IsSound-cleanup m counted k') (λ e. k')

pub IsSound-register_task :
    (m : ℕ) (s : Scheduler) (t : Task) (calls : List ℕ)
    → is_full s ≡ false
    → t.canceled ≡ false
    → IsSound m s
    → IsSound m (register_task t calls s).0
IsSound-register_task m s t calls free live k = record {
  same_limit = k.same_limit;
  within = ground (arith, length-append s.tasks (length s.objects ∷ []), k.same_limit);
  is_listed = λ n t' at armed. elim (get_elem?-append_one s.objects t t' n at) [
    | inl old ↦
        let (active, listed) = k.is_listed n t' old armed in
        (active, ground (arith, has-append s.tasks (length s.objects ∷ []) n))
    | inr (last, same) ↦ (
      ap (λ x. x.canceled) same ∙ live,
      ground (arith, has-append s.tasks (length s.objects ∷ []) n),
    )
  ];
}

IsSound-lose :
    (m : ℕ) (s : Scheduler) (t : Task) (calls : List ℕ) (error : Outcome)
    → t.armed ≡ false
    → IsSound m s
    → IsSound m (lose t calls error s).0
IsSound-lose m s t calls error idle k = record {
  same_limit = k.same_limit;
  within = k.within;
  is_listed = λ n t' at armed. elim (get_elem?-append_one s.objects t t' n at) [
    | inl old ↦ k.is_listed n t' old armed
    | inr (last, same) ↦ absurd (ground (arith, ap (λ x. x.armed) same))
  ];
}

result_cases :
    (P : Scheduler → Type 0) (b : Bool) (x y : Scheduler × Outcome)
    → (b ≡ true → P x.0)
    → (b ≡ false → P y.0)
    → P (if b then x else y).0
result_cases P true x y a b = a refl
result_cases P false x y a b = b refl

pub IsSound-checked :
    (m : ℕ) (s : Scheduler) (valid : Bool) (start : Scheduler → Scheduler × Outcome)
    → ((x : Scheduler) → is_full x ≡ false → IsSound m x → IsSound m (start x).0)
    → IsSound m s
    → IsSound m (checked valid start s).0
IsSound-checked m s true start k h =
    result_cases (IsSound m) (is_full s) _ _ (λ e. h) (λ e. k s e h)
IsSound-checked m s false start k h = result_cases (IsSound m) (is_full s) _ _ (λ e. h) (λ e. h)

pub IsSound-start_cron :
    (m : ℕ) (job_starts on_init : Bool) (s : Scheduler)
    → is_full s ≡ false
    → IsSound m s
    → IsSound m (start_cron job_starts on_init s).0
IsSound-start_cron m true on_init s free k =
    IsSound-register_task m s (running_task cron) _ free refl k
IsSound-start_cron m false on_init s free k = IsSound-lose m s _ [] job_failed refl k

pub IsSound-start_timeout :
    (m : ℕ) (on_init : Bool) (s : Scheduler)
    → is_full s ≡ false
    → IsSound m s
    → IsSound m (start_timeout on_init s).0
IsSound-start_timeout m true s free k = IsSound-lose m s _ _ reference_error refl k
IsSound-start_timeout m false s free k =
    IsSound-register_task m s (running_task timeout) _ free refl k
