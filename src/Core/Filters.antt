-- ===== src/Core/Filters.antt =====
-- packages/core/src/core/exception-filter.registry.ts: the global exception filters. The instances
-- are numbers; what `catch` does is code of the program, which may change the context.
pub mod Ordered
use elysia_nest.Base.{
  ℕ, Bool, true, false, ◌||◌, Option, none, some, List, [], ◌∷◌, ◌++◌, if◌then◌else◌,
}

pub data CatchOutcome (V : Type 0) : Type 0 where
  gave : V → CatchOutcome V
  -- The value undefined.
  gave_undefined : CatchOutcome V
  catch_threw : CatchOutcome V

pub data Answer (V : Type 0) : Type 0 where
  answered : V → Answer V
  unanswered : Answer V
  filter_threw : Answer V

-- The program: C is the context of a request.
pub record Filters (C V : Type 0) : Type 0 where
  -- The classes that `@Catch` names for the class of a filter, if it is decorated.
  pub catch_exceptions : ℕ → Option (List ℕ)
  -- `exception instanceof type`
  pub is_instance : ℕ → Bool
  pub catch_ : ℕ → C → C × CatchOutcome V

pub record Applied (C V : Type 0) : Type 0 where
  pub context : C
  -- The calls of `catch`, with what they gave.
  pub calls : List (ℕ × CatchOutcome V)
  pub answer : Answer V

unfoldable pub add_global_exception_filter : ℕ → List ℕ → List ℕ
add_global_exception_filter f fs = fs ++ f ∷ []

abbrev pub clear_global_exception_filters : List ℕ → List ℕ
clear_global_exception_filters fs = []

module _ {C V : Type 0} (p : Filters C V) where
  abbrev pub some_instance : List ℕ → Bool
  some_instance [] = false
  some_instance (t ∷ ts) = p.is_instance t || some_instance ts

  abbrev pub catches_types : Option (List ℕ) → Bool
  catches_types none = true
  catches_types (some []) = true
  catches_types (some (t ∷ ts)) = some_instance (t ∷ ts)

  abbrev pub catches_all : ℕ → Bool
  catches_all f = catches_types (p.catch_exceptions f)

  abbrev pub after_catch : ℕ → CatchOutcome V → C → Applied C V → Applied C V
  after_catch f (gave v) c rest = record {
    context = c;
    calls = (f, gave v) ∷ [];
    answer = answered v;
  }
  after_catch f catch_threw c rest = record {
    context = c;
    calls = (f, catch_threw) ∷ [];
    answer = filter_threw;
  }
  after_catch f gave_undefined c rest = record rest { calls = (f, gave_undefined) ∷ rest.calls }

  unfoldable pub each_filter : List ℕ → C → Applied C V
  each_filter [] c = record { context = c; calls = []; answer = unanswered }
  each_filter (f ∷ fs) c =
      let skipped = each_filter fs c in
      let (c', outcome) = p.catch_ f c in
      let rest = each_filter fs c' in
      if catches_all f then after_catch f outcome c' rest else skipped

  -- Whether there is an error at all.
  unfoldable pub apply_exception_filters : Bool → List ℕ → C → Applied C V
  apply_exception_filters has_error fs c =
      if has_error
      then each_filter fs c
      else record { context = c; calls = []; answer = unanswered }
