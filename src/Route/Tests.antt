-- ===== src/Route/Tests.antt =====
-- A route with two guards, and the theorems on it.
use elysia_nest.Base.{
  ℕ, ◌≡◌, refl, true, false, not, none, some, List, [], ◌∷◌, text_eq, nat_eq, ◌==◌, if◌then◌else◌,
}
use elysia_nest.Route.Params.{
  Values, Context, ParamMetadata, body_type, compile_resolver, resolve_param,
}
use elysia_nest.Route.Params.Agree.{HasObjects, resolve_param-compile_resolver}
use elysia_nest.Route.Pipeline.{
  allowed, refused, Program, RouteMetadata, handle_route, full_path, run_guards, run_interceptors,
  resolve_args, set_files,
}
use elysia_nest.Route.Pipeline.Guarded.{
  has_handled, has_intercepted, guard_calls, all_passed, handler_after_guards, forbidden_stops,
}

-- Values are numbers, and 0 is undefined.
abbrev numbers : Values ℕ
numbers = record {
  undefined = 0;
  empty_object = 1;
  truthy = λ v. not (v == 0);
  nullish = λ v. v == 0;
  field = λ v name. v;
}

abbrev context : Context ℕ
context = record {
  body = 5;
  params = 0;
  query = 0;
  request = 6;
  headers = 7;
  header = λ name. 0;
  set_ = 8;
  cookie = 0;
  ip = 9;
  session = 0;
  whole = 2;
  status = 200;
  response_headers = [];
}

-- The guard 2 refuses, all others let pass.
abbrev program : Program ℕ
program = record {
  can_activate = λ g c. (c, if g == 2 then refused else allowed);
  intercept = λ i c. (c, false);
  handler = λ args c. (c, some 3);
  controller_found = true;
  method_found = true;
  factory = λ m. none;
  container = λ t. none;
  file_param = λ c i. 0;
}

abbrev route : List ℕ → List ℕ → RouteMetadata
route class_guards method_guards = record {
  class_guards = class_guards;
  method_guards = method_guards;
  interceptors = [];
  param_definitions = [];
  types = [];
  file_params = [];
  http_code = some 201;
  headers = [];
}

abbrev guarded_route : RouteMetadata
guarded_route = route (1 ∷ []) (3 ∷ [])

abbrev refused_route : RouteMetadata
refused_route = route (1 ∷ []) (2 ∷ 3 ∷ [])

handler_after_guards_example :
    (guard_calls (handle_route numbers program guarded_route context).calls ≡ 1 ∷ 3 ∷ [])
    × (all_passed (handle_route numbers program guarded_route context).calls ≡ true)
unfolding handle_route full_path run_guards run_interceptors resolve_args set_files
handler_after_guards_example = handler_after_guards numbers program guarded_route context refl

forbidden_stops_example :
    (has_handled (handle_route numbers program refused_route context).calls ≡ false)
    × (has_intercepted (handle_route numbers program refused_route context).calls ≡ false)
    × ((handle_route numbers program refused_route context).context.status ≡ 403)
unfolding handle_route full_path run_guards
forbidden_stops_example = forbidden_stops numbers program refused_route context refl

abbrev body_meta : ParamMetadata
body_meta = record { type = body_type; data_ = b'a' ∷ [] }

context-HasObjects : HasObjects numbers context
context-HasObjects = record { of_body = refl; of_params = refl; of_query = refl }

resolve_param-compile_resolver_example :
    resolve_param numbers (λ m. none) (λ t. none) (some body_meta) none context ≡ 5
unfolding compile_resolver
resolve_param-compile_resolver_example =
    resolve_param-compile_resolver numbers (λ m. none) (λ t. none) body_meta none context
      (λ c. if c.body == 0 then 0 else c.body) refl refl context-HasObjects
