-- ===== src/Route/Pipeline.antt =====
-- createRouteHandler of packages/core/src/core/route-handler.ts: the path that a route takes, and the
-- steps of the full path. Guards, interceptors and the handler are code of the program; they may
-- change the context. They are numbers, which stand for their instances.
pub mod Guarded
use elysia_nest.Base.{
  ℕ, zero, suc, Bool, true, false, ◌&&◌, ◌||◌, not, Option, none, some, List, [], ◌∷◌, ◌++◌, map,
  length, Text, text_eq, nat_eq, ◌==◌, if◌then◌else◌, Map, get, put,
}
use elysia_nest.Route.Params.{
  Values, Context, ParamType, ParamMetadata, compile_resolvers, resolve_param, param_type,
  body_type, query_type,
}

pub data GuardOutcome : Type 0 where
  allowed : GuardOutcome
  refused : GuardOutcome
  guard_threw : GuardOutcome
  -- The guard has no method canActivate.
  no_can_activate : GuardOutcome

-- What the calls of a request do.
pub record Program (V : Type 0) : Type 0 where
  pub can_activate : ℕ → Context V → Context V × GuardOutcome
  -- Whether it throws.
  pub intercept : ℕ → Context V → Context V × Bool
  -- The value, none if it throws.
  pub handler : List V → Context V → Context V × Option V
  pub controller_found : Bool
  pub method_found : Bool
  pub factory : ParamMetadata → Option (Context V → V)
  pub container : ℕ → Option V
  -- The value of processParameters for an index; it does not throw.
  pub file_param : Context V → ℕ → V

-- What collectMetadata reads. The guards of the class come before those of the method.
pub record RouteMetadata : Type 0 where
  pub class_guards : List ℕ
  pub method_guards : List ℕ
  pub interceptors : List ℕ
  -- The definitions of parameters with their indexes, in order.
  pub param_definitions : List (ℕ × ParamMetadata)
  pub types : List (Option ℕ)
  pub file_params : List ℕ
  pub http_code : Option ℕ
  pub headers : List (Text × Text)

pub data Call (V : Type 0) : Type 0 where
  guard_called : ℕ → GuardOutcome → Call V
  intercepted : ℕ → Call V
  handled : List V → Call V

pub data Response (V : Type 0) : Type 0 where
  returned : V → Response V
  -- `{ statusCode: 403, error: "Forbidden", message: "Forbidden" }`
  forbidden : Response V
  -- `{ error: "Internal server error" }`
  internal_error : Response V
  threw : Response V

pub record Run (V : Type 0) : Type 0 where
  pub context : Context V
  pub calls : List (Call V)
  pub response : Response V

abbrev pub guards : RouteMetadata → List ℕ
guards m = m.class_guards ++ m.method_guards

-- A later definition of an index replaces an earlier one.
abbrev pub put_definitions : List (ℕ × ParamMetadata) → Map ℕ ParamMetadata → Map ℕ ParamMetadata
put_definitions [] m = m
put_definitions ((i, d) ∷ ds) m = put_definitions ds (put m i d)

abbrev pub defs_by_index : RouteMetadata → Map ℕ ParamMetadata
defs_by_index m = put_definitions m.param_definitions []

abbrev pub is_empty {ℓ} : {A : Type ℓ} → List A → Bool
is_empty [] = true
is_empty (x ∷ xs) = false

abbrev pub is_none {ℓ} : {A : Type ℓ} → Option A → Bool
is_none none = true
is_none (some a) = false

abbrev pub needs_full_path : RouteMetadata → Bool
needs_full_path m =
    not (is_empty (guards m))
    || not (is_empty m.interceptors)
    || not (is_empty m.file_params)
    || not (is_none m.http_code)
    || not (is_empty m.headers)

module _ {V : Type 0} (js : Values V) (p : Program V) where
  abbrev pub response_of : Option V → Response V
  response_of none = threw
  response_of (some v) = returned v

  -- `originalMethod.apply`
  abbrev pub call_handler : List V → Context V → Run V
  call_handler args c =
      let (c', result) = p.handler args c in
      record { context = c'; calls = handled args ∷ []; response = response_of result }

  abbrev pub then_calls : List (Call V) → Run V → Run V
  then_calls calls r = record r { calls = calls ++ r.calls }

  abbrev pub resolve_each : Map ℕ ParamMetadata → ℕ → List (Option ℕ) → Context V → List V
  resolve_each defs i [] c = []
  resolve_each defs i (t ∷ types) c =
      resolve_param js p.factory p.container (get defs i) t c ∷ resolve_each defs (suc i) types c

  abbrev pub compiled_or : Option (List (Context V → V)) → RouteMetadata → Context V → List V
  compiled_or (some rs) m c = map (λ r. r c) rs
  compiled_or none m c = resolve_each (defs_by_index m) 0 m.types c

  -- `resolvedParams[i] = v`
  abbrev pub assign : List V → ℕ → V → List V
  assign [] zero v = v ∷ []
  assign [] (suc i) v = js.undefined ∷ assign [] i v
  assign (x ∷ xs) zero v = v ∷ xs
  assign (x ∷ xs) (suc i) v = x ∷ assign xs i v

  unfoldable pub set_files : List ℕ → Context V → List V → List V
  set_files [] c args = args
  set_files (i ∷ is) c args = set_files is c (assign args i (p.file_param c i))

  unfoldable pub resolve_args : RouteMetadata → Context V → List V
  resolve_args m c =
      set_files m.file_params c (compiled_or (compile_resolvers js (defs_by_index m) 0 m.types) m c)

  abbrev pub set_code : Option ℕ → Context V → Context V
  set_code none c = c
  set_code (some code) c = record c { status = code }

  abbrev pub set_headers : List (Text × Text) → Context V → Context V
  set_headers [] c = c
  set_headers ((name, v) ∷ hs) c =
      set_headers hs (record c { response_headers = put c.response_headers name v })

  -- The status and the headers are set only if the handler does not throw.
  abbrev pub decorate : RouteMetadata → Run V → Response V → Run V
  decorate m r (returned v) = record r {
    context = set_headers m.headers (set_code m.http_code r.context);
  }
  decorate m r _ = r

  abbrev pub handle_decorated : RouteMetadata → Context V → Run V
  handle_decorated m c = let r = call_handler (resolve_args m c) c in decorate m r r.response

  abbrev pub stop : Response V → Context V → Run V
  stop response c = record { context = c; calls = []; response = response }

  unfoldable pub run_interceptors : List ℕ → RouteMetadata → Context V → Run V
  run_interceptors [] m c = handle_decorated m c
  run_interceptors (i ∷ is) m c =
      let (c', throws) = p.intercept i c in
      then_calls (intercepted i ∷ []) (if throws then stop threw c' else run_interceptors is m c')

  abbrev pub after_guard : GuardOutcome → Context V → Run V → Run V
  after_guard allowed c rest = rest
  after_guard no_can_activate c rest = rest
  after_guard refused c rest = stop forbidden (record c { status = 403 })
  after_guard guard_threw c rest = stop threw c

  unfoldable pub run_guards : List ℕ → RouteMetadata → Context V → Run V
  run_guards [] m c = run_interceptors m.interceptors m c
  run_guards (g ∷ gs) m c =
      let (c', outcome) = p.can_activate g c in
      then_calls (guard_called g outcome ∷ []) (after_guard outcome c' (run_guards gs m c'))

  -- The full path.
  unfoldable pub full_path : RouteMetadata → Context V → Run V
  full_path m c =
      if p.controller_found && p.method_found
      then run_guards (guards m) m c
      else stop internal_error (record c { status = 500 })

  -- The paths without guards; binding a controller or a method that is not there throws.
  abbrev pub bound_call : List V → Context V → Run V
  bound_call args c =
      if p.controller_found && p.method_found then call_handler args c else stop threw c

  -- A single parameter that is the whole body, params or query is passed as it is.
  abbrev pub inline_property : Option ParamMetadata → Context V → Option V
  inline_property none c = none
  inline_property (some d) c = if d.data_ == [] then whole_property d.type c else none
    where
      whole_property : ParamType → Context V → Option V
      whole_property param_type c = some c.params
      whole_property body_type c = some c.body
      whole_property query_type c = some c.query
      whole_property _ c = none

  abbrev pub single_arg : Option V → (Context V → V) → Context V → List V
  single_arg (some v) r c = v ∷ []
  single_arg none r c = r c ∷ []

  abbrev pub params_only_args : Option ParamMetadata → List (Context V → V) → Context V → List V
  params_only_args first (r ∷ []) c = single_arg (inline_property first c) r c
  params_only_args first rs c = map (λ r. r c) rs

  abbrev pub params_only : RouteMetadata → Option (List (Context V → V)) → Context V → Run V
  params_only m (some rs) c = bound_call (params_only_args (get m.param_definitions 0) rs c) c
  params_only m none c = full_path m c

  unfoldable pub handle_route : RouteMetadata → Context V → Run V
  handle_route m c =
      if needs_full_path m
      then full_path m c
      else (if is_empty m.types
          then bound_call [] c
          else params_only m (compile_resolvers js (defs_by_index m) 0 m.types) c)
