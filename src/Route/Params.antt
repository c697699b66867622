-- ===== src/Route/Params.antt =====
-- The parameters of handlers: compileResolver of packages/core/src/core/route-handler.ts, and
-- resolveParam of param-resolver.ts, which runs where that gives none.
pub mod Agree
use elysia_nest.Base.{
  ℕ, ◌+◌, Bool, true, false, ◌&&◌, not, Option, none, some, List, [], ◌∷◌, map, Text, text_eq,
  nat_eq, ◌==◌, if◌then◌else◌, Map, get,
}

-- What the code asks of JavaScript values.
pub record Values (V : Type 0) : Type 0 where
  pub undefined : V
  -- `{}`
  pub empty_object : V
  -- `Boolean(v)`
  pub truthy : V → Bool
  -- Whether it is null or undefined.
  pub nullish : V → Bool
  -- A property of a value that is neither.
  pub field : V → Text → V

-- The context of a request.
pub record Context (V : Type 0) : Type 0 where
  pub body : V
  pub params : V
  pub query : V
  pub request : V
  -- `ctx.request.headers`, and its `get`
  pub headers : V
  pub header : Text → V
  -- `ctx.set`
  pub set_ : V
  pub cookie : V
  pub ip : V
  pub session : V
  -- The context itself as a value.
  pub whole : V
  -- `ctx.set.status` and `ctx.set.headers`
  pub status : ℕ
  pub response_headers : Map Text Text

pub data ParamType : Type 0 where
  factory_type : ParamType
  param_type : ParamType
  raw_body_type : ParamType
  body_type : ParamType
  query_type : ParamType
  request_type : ParamType
  response_type : ParamType
  context_type : ParamType
  headers_type : ParamType
  cookies_type : ParamType
  ip_type : ParamType
  session_type : ParamType
  unknown_type : ParamType

pub record ParamMetadata : Type 0 where
  pub type : ParamType
  -- The empty text counts as none.
  pub data_ : Text

-- `"value"` and `"x-forwarded-for"`
abbrev pub value_name : Text
value_name = b'v' ∷ b'a' ∷ b'l' ∷ b'u' ∷ b'e' ∷ []

abbrev pub forwarded_name : Text
forwarded_name =
    b'x' ∷ b'-' ∷ b'f' ∷ b'o' ∷ b'r' ∷ b'w' ∷ b'a' ∷ b'r' ∷ b'd' ∷ b'e' ∷ b'd' ∷ b'-' ∷ b'f' ∷ b'o'
    ∷ b'r' ∷ []

module _ {V : Type 0} (js : Values V) where
  -- `v?.[name]`
  abbrev pub optional_field : V → Text → V
  optional_field v name = if js.nullish v then js.undefined else js.field v name

  -- `v ? v[name] : undefined`
  abbrev pub guarded_field : V → Text → V
  guarded_field v name = if js.truthy v then js.field v name else js.undefined

  -- `v || w`
  abbrev pub value_or : V → V → V
  value_or v w = if js.truthy v then v else w

  abbrev pub by_name : Text → (Context V → V) → (Context V → V) → Option (Context V → V)
  by_name name with_name without = some (if name == [] then without else with_name)

  abbrev pub compile_type : ParamType → Text → Option (Context V → V)
  compile_type factory_type name = none
  compile_type param_type name =
      by_name name (λ c. optional_field c.params name) (λ c. value_or c.params js.empty_object)
  compile_type raw_body_type name = some (λ c. c.body)
  compile_type body_type name =
      by_name name (λ c. optional_field c.body name) (λ c. value_or c.body js.empty_object)
  compile_type query_type name =
      by_name name (λ c. optional_field c.query name) (λ c. value_or c.query js.empty_object)
  compile_type request_type name = some (λ c. c.request)
  compile_type response_type name = some (λ c. c.set_)
  compile_type context_type name = some (λ c. c.whole)
  compile_type headers_type name = by_name name (λ c. c.header name) (λ c. c.headers)
  compile_type cookies_type name =
      by_name name (λ c. optional_field (optional_field c.cookie name) value_name) (λ c. c.cookie)
  compile_type ip_type name = some (λ c. value_or (c.header forwarded_name) c.ip)
  compile_type session_type name = some (λ c. c.session)
  compile_type unknown_type name = none

  unfoldable pub compile_resolver : ParamMetadata → Option (Context V → V)
  compile_resolver meta = compile_type meta.type meta.data_

  -- A parameter without metadata must not have a type that needs an instance.
  abbrev pub compile_at : Option ParamMetadata → Option ℕ → Option (Context V → V)
  compile_at none none = some (λ c. js.undefined)
  compile_at none (some t) = none
  compile_at (some meta) t = compile_resolver meta

  abbrev pub cons_resolver :
      Option (Context V → V) → Option (List (Context V → V)) → Option (List (Context V → V))
  cons_resolver none rs = none
  cons_resolver (some r) none = none
  cons_resolver (some r) (some rs) = some (r ∷ rs)

  -- The types from the index on; a type that is missing or Object is none.
  unfoldable pub compile_resolvers :
      Map ℕ ParamMetadata → ℕ → List (Option ℕ) → Option (List (Context V → V))
  compile_resolvers defs i [] = some []
  compile_resolvers defs i (t ∷ types) =
      cons_resolver (compile_at (get defs i) t) (compile_resolvers defs (i + 1) types)

  abbrev pub name_or : Text → V → V → Option V
  name_or name with_name without = some (if name == [] then without else with_name)

  -- The switch of resolveParam, `none` where it breaks.
  abbrev pub resolve_type : ParamType → Text → Context V → Option V
  resolve_type body_type name c =
      name_or name (guarded_field c.body name) (value_or c.body js.empty_object)
  resolve_type param_type name c =
      name_or name (guarded_field c.params name) (value_or c.params js.empty_object)
  resolve_type query_type name c =
      name_or name (guarded_field c.query name) (value_or c.query js.empty_object)
  resolve_type request_type name c = some c.request
  resolve_type response_type name c = some c.set_
  resolve_type context_type name c = some c.whole
  resolve_type headers_type name c = name_or name (c.header name) c.headers
  resolve_type cookies_type name c =
      name_or name (optional_field (optional_field c.cookie name) value_name) c.cookie
  resolve_type ip_type name c = some (value_or (c.header forwarded_name) c.ip)
  resolve_type _ name c = none

  -- The container's instance of a type; none if there is no type or module, or if it fails.
  abbrev pub inject_param : (ℕ → Option V) → Option ℕ → V
  inject_param container none = js.undefined
  inject_param container (some t) = elim (container t) [ none ↦ js.undefined | some v ↦ v ]

  abbrev pub or_inject : Option V → (ℕ → Option V) → Option ℕ → V
  or_inject (some v) container t = v
  or_inject none container t = inject_param container t

  abbrev pub is_factory_param : ParamType → Bool
  is_factory_param factory_type = true
  is_factory_param _ = false

  abbrev pub resolve_made :
      Option (Context V → V) → (ℕ → Option V) → ParamMetadata → Option ℕ → Context V → V
  resolve_made (some make) container meta t c = make c
  resolve_made none container meta t c = or_inject (resolve_type meta.type meta.data_ c) container t

  -- The factory of the metadata, if it has one: its value, and undefined if it throws, as the caller
  -- catches it.
  abbrev pub resolve_param :
      (ParamMetadata → Option (Context V → V))
      → (ℕ → Option V)
      → Option ParamMetadata
      → Option ℕ
      → Context V
      → V
  resolve_param factory container none t c = inject_param container t
  resolve_param factory container (some meta) t c =
      resolve_made (if is_factory_param meta.type then factory meta else none) container meta t c
