-- ===== src/Apollo/Streams.antt =====
-- The subscriptions of one connection of packages/apollo/src/services/graphql-ws.handler.ts: the
-- map `state.subscriptions`, the handles and the source streams. A handle is its index in the list
-- of all handles of the connection; each belongs to one call of executeSubscription. An id is a
-- number that stands for a JavaScript value.
pub mod Tracked
use elysia_nest.Base.{
  ℕ, Bool, true, false, ◌&&◌, not, Option, none, some, List, [], ◌∷◌, ◌++◌, length, nat_eq, ◌==◌,
  if◌then◌else◌, Map, get, put, delete, zero, suc, get_elem?, update,
}

-- Where the call of executeSubscription or handleAsyncIterator stands.
pub data Stage : Type 0 where
  -- It prepares the source stream.
  setting_up : Stage
  -- It awaits `nextOrAbort`.
  waiting_next : Stage
  -- It awaits `execute` or `onNext`.
  executing : Stage
  -- It awaits `callReturnWithTimeout`.
  returning : Stage
  finished : Stage

pub record SubscriptionHandle : Type 0 where
  pub id : ℕ
  pub aborted : Bool
  pub iterator : Option ℕ
  pub stage : Stage

pub record Streams : Type 0 where
  pub subscriptions : Map ℕ ℕ
  pub handles : List SubscriptionHandle
  -- The iterators that were made, and those whose `return` was called.
  pub obtained : List ℕ
  pub returned : List ℕ

abbrev pub no_streams : Streams
no_streams = record { subscriptions = []; handles = []; obtained = []; returned = [] }

abbrev pub iterator_list : Option ℕ → List ℕ
iterator_list none = []
iterator_list (some it) = it ∷ []

abbrev pub iterator_of : Option SubscriptionHandle → List ℕ
iterator_of none = []
iterator_of (some h) = iterator_list h.iterator

-- A new handle, in the map before anything is awaited.
unfoldable pub start_handle : ℕ → Streams → Streams
start_handle id t = record t {
  subscriptions = put t.subscriptions id (length t.handles);
  handles =
      t.handles ++ record { id = id; aborted = false; iterator = none; stage = setting_up } ∷ [];
}

-- `handle.abortController.abort()`, and `return` of the iterator if there is one.
unfoldable pub abort : ℕ → Streams → Streams
abort n t = record t {
  handles = update n (λ h. record h { aborted = true }) t.handles;
  returned = t.returned ++ iterator_of (get_elem? t.handles n);
}

unfoldable pub abort_all : List ℕ → Streams → Streams
abort_all [] t = t
abort_all (n ∷ ns) t = abort_all ns (abort n t)

abbrev pub delete_own : ℕ → ℕ → Option ℕ → Map ℕ ℕ → Map ℕ ℕ
delete_own n id none m = m
delete_own n id (some k) m = if k == n then delete m id else m

-- The entry of the id is deleted if it is the handle n.
abbrev pub release_own : ℕ → Option SubscriptionHandle → Map ℕ ℕ → Map ℕ ℕ
release_own n none m = m
release_own n (some h) m = delete_own n h.id (get m h.id) m

-- The end of a call.
unfoldable pub finish_handle : ℕ → Streams → Streams
finish_handle n t = record t {
  handles = update n (λ h. record h { iterator = none; stage = finished }) t.handles;
  subscriptions = release_own n (get_elem? t.handles n) t.subscriptions;
}

-- A source stream whose loop starts.
unfoldable pub start_loop : ℕ → ℕ → Streams → Streams
start_loop n it t = record t {
  handles = update n (λ h. record h { iterator = some it; stage = waiting_next }) t.handles;
  obtained = t.obtained ++ it ∷ [];
}

-- A source stream that is not used.
unfoldable pub discard_stream : ℕ → Streams → Streams
discard_stream it t = record t {
  obtained = t.obtained ++ it ∷ [];
  returned = t.returned ++ it ∷ [];
}

-- The loop is left: `return` is called.
unfoldable pub leave_loop : ℕ → Streams → Streams
leave_loop n t = record t {
  handles = update n (λ h. record h { stage = returning }) t.handles;
  returned = t.returned ++ iterator_of (get_elem? t.handles n);
}

unfoldable pub set_stage : ℕ → Stage → Streams → Streams
set_stage n stage t = record t { handles = update n (λ h. record h { stage = stage }) t.handles }
