-- ===== src/Route/Pipeline/Guarded.antt =====
-- The guards of a route stand before its handler.
use elysia_nest.Base.{
  ℕ, ◌≡◌, refl, sym, ap, ◌∙◌, subst, Bool, true, false, ◌&&◌, Option, none, some, List, [], ◌∷◌,
  ◌++◌, if◌then◌else◌, arith, Bool-cases, inl, inr,
}
use elysia_nest.Route.Params.{Values, Context, compile_resolvers}
use elysia_nest.Route.Pipeline.{
  GuardOutcome, allowed, refused, guard_threw, no_can_activate, Program, RouteMetadata, Call,
  guard_called, intercepted, handled, Response, returned, forbidden, internal_error, threw, Run,
  guards, is_empty, needs_full_path, defs_by_index, response_of, call_handler, then_calls,
  resolve_args, decorate, handle_decorated, run_interceptors, after_guard, run_guards, full_path,
  bound_call, params_only, handle_route,
}

abbrev pub passes : GuardOutcome → Bool
passes allowed = true
passes no_can_activate = true
passes _ = false

module _ {V : Type 0} where
  abbrev pub has_handled : List (Call V) → Bool
  has_handled [] = false
  has_handled (handled args ∷ calls) = true
  has_handled (_ ∷ calls) = has_handled calls

  abbrev pub has_intercepted : List (Call V) → Bool
  has_intercepted [] = false
  has_intercepted (intercepted i ∷ calls) = true
  has_intercepted (_ ∷ calls) = has_intercepted calls

  -- The guards that were called.
  abbrev pub guard_calls : List (Call V) → List ℕ
  guard_calls [] = []
  guard_calls (guard_called g outcome ∷ calls) = g ∷ guard_calls calls
  guard_calls (_ ∷ calls) = guard_calls calls

  abbrev pub all_passed : List (Call V) → Bool
  all_passed [] = true
  all_passed (guard_called g outcome ∷ calls) = passes outcome && all_passed calls
  all_passed (_ ∷ calls) = all_passed calls

  -- Where the handler is called, exactly these guards were, and each let the request pass.
  abbrev pub HandledAfter : List ℕ → Run V → Type 0
  HandledAfter gs r =
      has_handled r.calls ≡ true → (guard_calls r.calls ≡ gs) × (all_passed r.calls ≡ true)

  -- Where the answer is 403, neither an interceptor nor the handler was called.
  abbrev pub ForbiddenStops : Run V → Type 0
  ForbiddenStops r =
      r.response ≡ forbidden
      → (has_handled r.calls ≡ false) × (has_intercepted r.calls ≡ false) × (r.context.status ≡ 403)

  abbrev is_forbidden : Response V → Bool
  is_forbidden forbidden = true
  is_forbidden _ = false

is_nil : (xs : List ℕ) → is_empty xs ≡ true → xs ≡ []
is_nil [] h = refl
is_nil (x ∷ xs) h = absurd (ground arith)

module _ {V : Type 0} (js : Values V) (p : Program V) where
  if_cases : (P : Run V → Type 0) (b : Bool) (x y : Run V) → P x → P y → P (if b then x else y)
  if_cases P true x y a b = a
  if_cases P false x y a b = b

  decorate_keeps :
      (m : RouteMetadata) (r : Run V) (x : Response V)
      → ((decorate js p m r x).calls ≡ r.calls) × ((decorate js p m r x).response ≡ r.response)
  decorate_keeps m r (returned v) = (refl, refl)
  decorate_keeps m r forbidden = (refl, refl)
  decorate_keeps m r internal_error = (refl, refl)
  decorate_keeps m r threw = (refl, refl)

  response_of_allowed : (o : Option V) → is_forbidden (response_of js p o) ≡ false
  response_of_allowed none = refl
  response_of_allowed (some v) = refl

  -- After the guards: no guard is called, and the answer is not 403.
  abbrev Unguarded : Run V → Type 0
  Unguarded r =
      (guard_calls r.calls ≡ []) × (all_passed r.calls ≡ true) × (is_forbidden r.response ≡ false)

  handle_decorated-Unguarded :
      (m : RouteMetadata) (c : Context V) → Unguarded (handle_decorated js p m c)
  handle_decorated-Unguarded m c =
      let (same, answer) =
        decorate_keeps m (call_handler js p (resolve_args js p m c) c)
          (call_handler js p (resolve_args js p m c) c).response in
      (ap guard_calls same, ap all_passed same, ap is_forbidden answer ∙ response_of_allowed _)

  run_interceptors-Unguarded :
      (is : List ℕ) (m : RouteMetadata) (c : Context V) → Unguarded (run_interceptors js p is m c)
  unfolding run_interceptors
  run_interceptors-Unguarded [] m c = handle_decorated-Unguarded m c
  run_interceptors-Unguarded (i ∷ is) m c = elim (Bool-cases (p.intercept i c).1) [
    | inl e ↦ rw e (refl, refl, refl)
    | inr e ↦ rw e (run_interceptors-Unguarded is m (p.intercept i c).0)
  ]

  run_guards-HandledAfter :
      (gs : List ℕ) (m : RouteMetadata) (c : Context V) → HandledAfter gs (run_guards js p gs m c)
  unfolding run_guards
  run_guards-HandledAfter [] m c =
      let (none_called, passed, other) = run_interceptors-Unguarded m.interceptors m c in
      λ called. (none_called, passed)
  run_guards-HandledAfter (g ∷ gs) m c =
      after (p.can_activate g c).1 (run_guards-HandledAfter gs m (p.can_activate g c).0)
    where
      after :
          (o : GuardOutcome)
          → HandledAfter gs (run_guards js p gs m (p.can_activate g c).0)
          → HandledAfter (g ∷ gs) (
              then_calls js p (guard_called g o ∷ []) (
                after_guard js p o
                  (p.can_activate g c).0
                  (run_guards js p gs m (p.can_activate g c).0)))
      after allowed ih called = let (same, passed) = ih called in (ap (λ xs. g ∷ xs) same, passed)
      after no_can_activate ih called =
          let (same, passed) = ih called in (ap (λ xs. g ∷ xs) same, passed)
      after refused ih called = absurd (ground arith)
      after guard_threw ih called = absurd (ground arith)

  run_guards-ForbiddenStops :
      (gs : List ℕ) (m : RouteMetadata) (c : Context V) → ForbiddenStops (run_guards js p gs m c)
  unfolding run_guards
  run_guards-ForbiddenStops [] m c =
      let (none_called, passed, other) = run_interceptors-Unguarded m.interceptors m c in
      λ answer. absurd (ground (arith, ap is_forbidden answer))
  run_guards-ForbiddenStops (g ∷ gs) m c =
      after (p.can_activate g c).1 (run_guards-ForbiddenStops gs m (p.can_activate g c).0)
    where
      after :
          (o : GuardOutcome)
          → ForbiddenStops (run_guards js p gs m (p.can_activate g c).0)
          → ForbiddenStops (
              then_calls js p (guard_called g o ∷ []) (
                after_guard js p o
                  (p.can_activate g c).0
                  (run_guards js p gs m (p.can_activate g c).0)))
      after allowed ih answer = ih answer
      after no_can_activate ih answer = ih answer
      after refused ih answer = (refl, refl, refl)
      after guard_threw ih answer = absurd (ground (arith, ap is_forbidden answer))

  full_path-HandledAfter :
      (m : RouteMetadata) (c : Context V) → HandledAfter (guards m) (full_path js p m c)
  unfolding full_path
  full_path-HandledAfter m c =
      if_cases (HandledAfter (guards m)) (p.controller_found && p.method_found) _ _
        (run_guards-HandledAfter (guards m) m c) (λ called. absurd (ground arith))

  full_path-ForbiddenStops :
      (m : RouteMetadata) (c : Context V) → ForbiddenStops (full_path js p m c)
  unfolding full_path
  full_path-ForbiddenStops m c =
      if_cases ForbiddenStops (p.controller_found && p.method_found) _ _
        (run_guards-ForbiddenStops (guards m) m c)
        (λ answer. absurd (ground (arith, ap is_forbidden answer)))

  bound_call-HandledAfter :
      (args : List V) (c : Context V) → HandledAfter [] (bound_call js p args c)
  bound_call-HandledAfter args c =
      if_cases (HandledAfter []) (p.controller_found && p.method_found) _ _ (λ called. (refl, refl))
        (λ called. absurd (ground arith))

  bound_call-ForbiddenStops :
      (args : List V) (c : Context V) → ForbiddenStops (bound_call js p args c)
  bound_call-ForbiddenStops args c =
      if_cases ForbiddenStops (p.controller_found && p.method_found) _ _
        (λ answer.
          absurd (ground (arith, ap is_forbidden answer, response_of_allowed (p.handler args c).1)))
        (λ answer. absurd (ground (arith, ap is_forbidden answer)))

  -- A property of every path that the route may take.
  every_path :
      (P : Run V → Type 0) (m : RouteMetadata) (c : Context V)
      → P (full_path js p m c)
      → (is_empty (guards m) ≡ true → (args : List V) → P (bound_call js p args c))
      → P (handle_route js p m c)
  unfolding handle_route
  every_path P m c full bound = short (needs_full_path m) refl
    where
      only :
          is_empty (guards m) ≡ true
          → (rs : Option (List (Context V → V))) → P (params_only js p m rs c)
      only none_given none = full
      only none_given (some rs) = bound none_given _

      short :
          (b : Bool)
          → needs_full_path m ≡ b
          → P (
              if b
              then full_path js p m c
              else (if is_empty m.types
                  then bound_call js p [] c
                  else params_only js p m (compile_resolvers js (defs_by_index m) 0 m.types) c))
      short true e = full
      short false e =
          let none_given : is_empty (guards m) ≡ true = ground arith in
          if_cases P (is_empty m.types) _ _ (bound none_given []) (only none_given _)

  -- Whatever path a route takes, where its handler is called, all guards were called before, those
  -- of the class before those of the method, and each of them let the request pass.
  pub handler_after_guards :
      (m : RouteMetadata) (c : Context V)
      → has_handled (handle_route js p m c).calls ≡ true
      → (guard_calls (handle_route js p m c).calls ≡ m.class_guards ++ m.method_guards)
        × (all_passed (handle_route js p m c).calls ≡ true)
  handler_after_guards m c =
      every_path (HandledAfter (guards m)) m c (full_path-HandledAfter m c) (λ none_given args.
        subst (λ gs. HandledAfter gs (bound_call js p args c)) (sym (is_nil (guards m) none_given))
          (bound_call-HandledAfter args c))

  -- Where the answer of a route is that of a refusing guard, the status is 403, and neither an
  -- interceptor nor the handler was called.
  pub forbidden_stops :
      (m : RouteMetadata) (c : Context V)
      → (handle_route js p m c).response ≡ forbidden
      → (has_handled (handle_route js p m c).calls ≡ false)
        × (has_intercepted (handle_route js p m c).calls ≡ false)
        × ((handle_route js p m c).context.status ≡ 403)
  forbidden_stops m c =
      every_path ForbiddenStops m c (full_path-ForbiddenStops m c)
        (λ none_given args. bound_call-ForbiddenStops args c)
