-- ===== src/Apollo/Timeouts.antt =====
-- The timeouts that packages/apollo/src/services/graphql-ws.handler.ts derives from its options.
-- The numbers of the options are natural.
use elysia_nest.Base.{
  ℕ, ◌+◌, ◌*◌, ◌/◌, ◌≤◌, ◌≡◌, ◌⊎◌, inl, inr, Bool, true, false, Option, none, some, nat_eq, ◌==◌,
  if◌then◌else◌, max, leb, arith, Option-cases,
}

-- An option that is a number, or false to turn it off.
pub data Setting : Type 0 where
  unset : Setting
  turned_off : Setting
  number : ℕ → Setting

pub record WsOptions : Type 0 where
  pub transport_idle_timeout : Option ℕ
  pub keep_alive : Setting
  pub keep_alive_timeout : Setting
  -- Whether there is a hook `onConnect`.
  pub has_on_connect : Bool

abbrev pub default_keep_alive_ms : ℕ
default_keep_alive_ms = 12000

abbrev pub default_keep_alive_timeout_multiplier : ℕ
default_keep_alive_timeout_multiplier = 2

-- The interval of the pings, 0 if there are none.
abbrev pub keep_alive_ms : Setting → ℕ
keep_alive_ms unset = default_keep_alive_ms
keep_alive_ms turned_off = 0
keep_alive_ms (number n) = n

-- After how long without a message the peer counts as dead, 0 for never.
abbrev pub timeout_of : Setting → ℕ → ℕ
timeout_of turned_off interval_ms = 0
timeout_of (number n) interval_ms = n
timeout_of unset interval_ms = interval_ms * default_keep_alive_timeout_multiplier

unfoldable pub resolve_keep_alive_timeout : WsOptions → ℕ → ℕ
resolve_keep_alive_timeout o interval_ms = timeout_of o.keep_alive_timeout interval_ms

-- `Math.min`
abbrev pub min : ℕ → ℕ → ℕ
min a b = if leb a b then a else b

-- `Math.ceil(ms / 1000)`
abbrev pub ceil_seconds : ℕ → ℕ
ceil_seconds ms = (ms + 999) / 1000

abbrev pub is_disabled : Setting → Bool
is_disabled unset = false
is_disabled turned_off = true
is_disabled (number n) = n == 0

unfoldable pub derive_idle_timeout : ℕ → Setting → Option ℕ
derive_idle_timeout interval_ms configured =
    if interval_ms == 0
    then none
    else (if is_disabled configured
        then none
        else some (min (max (ceil_seconds (timeout_of configured interval_ms) + 5) 10) 960))

abbrev pub explicit_or : Option ℕ → Option ℕ → Option ℕ
explicit_or (some n) derived = some (max 0 (min n 960))
explicit_or none derived = derived

unfoldable pub resolve_transport_idle_timeout : WsOptions → Option ℕ
resolve_transport_idle_timeout o =
    explicit_or o.transport_idle_timeout
      (derive_idle_timeout (keep_alive_ms o.keep_alive) o.keep_alive_timeout)

derived_bounds :
    (interval_ms : ℕ) (c : Setting) (t : ℕ)
    → derive_idle_timeout interval_ms c ≡ some t
    → (t ≤ 960) × (10 ≤ t) × ((timeout_of c interval_ms + 5000 ≤ 1000 * t) ⊎ (t ≡ 960))
unfolding derive_idle_timeout
derived_bounds interval_ms c t h = ground arith

-- The idle timeout that is passed to the transport is at most 960 seconds. It is either the one that
-- the options give, cut to 960 seconds, or it is at least 10 seconds, and at least 5 seconds above
-- the timeout of the watchdog or 960 seconds.
pub resolve_transport_idle_timeout_bounds :
    (o : WsOptions) (t : ℕ)
    → resolve_transport_idle_timeout o ≡ some t
    → (t ≤ 960)
      × (((n : ℕ) × (o.transport_idle_timeout ≡ some n) × (t ≡ min n 960))
          ⊎ ((10 ≤ t)
              × ((resolve_keep_alive_timeout o (keep_alive_ms o.keep_alive) + 5000 ≤ 1000 * t)
                  ⊎ (t ≡ 960))))
unfolding resolve_transport_idle_timeout resolve_keep_alive_timeout
resolve_transport_idle_timeout_bounds o t h = elim (Option-cases o.transport_idle_timeout) [
  | inl e ↦
      let (high, low, above) =
        derived_bounds (keep_alive_ms o.keep_alive) o.keep_alive_timeout t (ground arith) in
      (high, inr (low, above))
  | inr (n, e) ↦ (ground arith, inl (n, e, ground arith))
]
