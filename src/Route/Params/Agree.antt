-- ===== src/Route/Params/Agree.antt =====
-- The two ways in which packages/core/src/core resolves a parameter agree.
use elysia_nest.Base.{
  ℕ, ◌≡◌, refl, sym, ap, subst, Bool, true, false, not, Option, none, some, [], Text, text_eq, ◌==◌,
  if◌then◌else◌, arith, Bool-cases, inl, inr,
}
use elysia_nest.Route.Params.{
  Values, Context, ParamType, factory_type, param_type, raw_body_type, body_type, query_type,
  request_type, response_type, context_type, headers_type, cookies_type, ip_type, session_type,
  unknown_type, ParamMetadata, optional_field, guarded_field, compile_type, compile_resolver,
  resolve_type, resolve_param, is_factory_param, name_or,
}

-- The types that only compileResolver knows.
abbrev pub is_compiled_only : ParamType → Bool
is_compiled_only raw_body_type = true
is_compiled_only session_type = true
is_compiled_only _ = false

module _ {V : Type 0} (js : Values V) where
  -- Neither the body nor the params nor the query is a primitive value that is falsy.
  pub record HasObjects (c : Context V) : Type 0 where
    pub of_body : js.nullish c.body ≡ not (js.truthy c.body)
    pub of_params : js.nullish c.params ≡ not (js.truthy c.params)
    pub of_query : js.nullish c.query ≡ not (js.truthy c.query)

  optional-guard_called :
      (v : V) (name : Text)
      → js.nullish v ≡ not (js.truthy v)
      → optional_field js v name ≡ guarded_field js v name
  optional-guard_called v name h = elim (Bool-cases (js.truthy v)) [
    | inl e ↦ rw (h, e) refl
    | inr e ↦ rw (h, e) refl
  ]

  unfoldable Agrees : ParamType → Text → Context V → Option (Context V → V) → Type 0
  Agrees type name c none = Unit
  Agrees type name c (some r) =
      (is_factory_param js type ≡ false) × (resolve_type js type name c ≡ some (r c))

  named :
      (name : Text) (f g : Context V → V) (c : Context V) (x y : V)
      → x ≡ f c
      → y ≡ g c
      → name_or js name x y ≡ some ((if name == [] then g else f) c)
  named name f g c x y e e' = elim (Bool-cases (name == [])) [
    | inl h ↦ rw h (ap some e')
    | inr h ↦ rw h (ap some e)
  ]

  compile_type-Agrees :
      (type : ParamType) (name : Text) (c : Context V)
      → is_compiled_only type ≡ false
      → HasObjects c
      → Agrees type name c (compile_type js type name)
  unfolding Agrees
  compile_type-Agrees factory_type name c shared h = tt
  compile_type-Agrees param_type name c shared h =
      (refl, named name _ _ c _ _ (sym (optional-guard_called c.params name h.of_params)) refl)
  compile_type-Agrees raw_body_type name c shared h = absurd (ground arith)
  compile_type-Agrees body_type name c shared h =
      (refl, named name _ _ c _ _ (sym (optional-guard_called c.body name h.of_body)) refl)
  compile_type-Agrees query_type name c shared h =
      (refl, named name _ _ c _ _ (sym (optional-guard_called c.query name h.of_query)) refl)
  compile_type-Agrees request_type name c shared h = (refl, refl)
  compile_type-Agrees response_type name c shared h = (refl, refl)
  compile_type-Agrees context_type name c shared h = (refl, refl)
  compile_type-Agrees headers_type name c shared h = (refl, named name _ _ c _ _ refl refl)
  compile_type-Agrees cookies_type name c shared h = (refl, named name _ _ c _ _ refl refl)
  compile_type-Agrees ip_type name c shared h = (refl, refl)
  compile_type-Agrees session_type name c shared h = absurd (ground arith)
  compile_type-Agrees unknown_type name c shared h = tt

  resolved_as :
      (factory : ParamMetadata → Option (Context V → V)) (container : ℕ → Option V)
      (m : ParamMetadata) (t : Option ℕ) (c : Context V) (r : Context V → V)
      → Agrees m.type m.data_ c (some r)
      → resolve_param js factory container (some m) t c ≡ r c
  unfolding Agrees
  resolved_as factory container m t c r (no_factory, same) = rw (no_factory, same) refl

  -- A parameter that compileResolver compiles, and that is not of the types raw-body or session,
  -- gets the same value from resolveParam, if neither the body nor the params nor the query of the
  -- request is a primitive value that is falsy.
  pub resolve_param-compile_resolver :
      (factory : ParamMetadata → Option (Context V → V)) (container : ℕ → Option V)
      (m : ParamMetadata) (t : Option ℕ) (c : Context V) (r : Context V → V)
      → compile_resolver js m ≡ some r
      → is_compiled_only m.type ≡ false
      → HasObjects c
      → resolve_param js factory container (some m) t c ≡ r c
  unfolding compile_resolver
  resolve_param-compile_resolver factory container m t c r compiled shared h =
      resolved_as factory container m t c r
        (subst (Agrees m.type m.data_ c) compiled (compile_type-Agrees m.type m.data_ c shared h))
