-- ===== src/Dashboard/HealthMonitor.antt =====
-- modules/dashboard/internal/cluster-api/health-monitor.go: the worker over EndpointSlices, its
-- watchers, and the worker that does nothing. A step of the worker returns what it publishes on the
-- event bus. A channel is the list of what is sent on it.
pub mod History
pub mod Ready
pub mod Workers
use kubetail.Prelude.{
  is_nil, ℕ, zero, suc, ◌+◌, ◌-◌, ◌*◌, ◌≤◌, ◌<◌, min, max, String, ◌≡◌, refl, sym, ap, ◌∙◌, subst,
  ◌≢◌, ◌↔◌, ◌⊎◌, inl, inr, Bool, true, false, not, ◌&&◌, ◌||◌, Option, none, some, List, [], ◌∷◌,
  ◌++◌, map, reverse, arith, ltb, leb, eqb, if◌then◌else◌, eqb_iff, Bool-cases, Option-cases,
  bool_ext, Comparable, ◌==◌, nat_comparable, same_refl, same→eq, length, take, drop, keep,
  keep-append, All-append, All-reverse, In, All, All-In, here, there, length-append, elem, distinct,
  elem-append, elem→In, In→elem, In-nil, In-append, In-append_left, In-append_right, In-singleton,
  In-cases, Str, str, same_str, same_str_iff, str_comparable, Map, lookup-delete, lookup-insert,
  Result, ok, err, ◌>>=◌, >>=-eq-ok, Result-cases,
}
use kubetail.Prelude.{lookup, insert, delete}

pub data HealthStatus : Type 0 where
  success : HealthStatus
  failure : HealthStatus
  pending : HealthStatus
  not_found : HealthStatus
  unknown : HealthStatus

abbrev pub same_status : HealthStatus → HealthStatus → Bool
same_status success success = true
same_status failure failure = true
same_status pending pending = true
same_status not_found not_found = true
same_status unknown unknown = true
same_status _ _ = false

pub same_status_iff : (a b : HealthStatus) → (same_status a b ≡ true) ↔ (a ≡ b)
same_status_iff a b = ground arith

instance abbrev pub status_comparable : Comparable HealthStatus
status_comparable = record { same = same_status; same_iff = same_status_iff }

-- Only what the monitor reads of an endpoint: its `ready` condition, which may be missing.
pub record EndpointSlice : Type 0 where
  pub uid : Str
  pub endpoints : List (Option Bool)

abbrev is_ready : Option Bool → Bool
is_ready none = false
is_ready (some ready) = ready

abbrev pub any_ready : List (Option Bool) → Bool
any_ready [] = false
any_ready (e ∷ es) = is_ready e || any_ready es

abbrev pub has_ready : Map Str EndpointSlice → Bool
has_ready [] = false
has_ready ((_, es) ∷ m) = any_ready es.endpoints || has_ready m

pub record Worker : Type 0 where
  pub last_status : HealthStatus
  pub es_cache : Map Str EndpointSlice

abbrev pub new_worker : Worker
new_worker = record { last_status = unknown; es_cache = [] }

unfoldable pub get_health_status_unsafe : Worker → HealthStatus
get_health_status_unsafe w =
    if is_nil w.es_cache then not_found else if has_ready w.es_cache then success else failure

abbrev pub pending_after : HealthStatus → HealthStatus → HealthStatus
pending_after last new_status =
    if (new_status == failure) && ((last == not_found) || (last == pending))
    then pending
    else new_status

unfoldable pub update_health_status_unsafe : Worker → Worker × List HealthStatus
unfolding get_health_status_unsafe
update_health_status_unsafe w =
    let new_status = pending_after w.last_status (get_health_status_unsafe w) in
    if new_status == w.last_status
    then (w, [])
    else (record { last_status = new_status; es_cache = w.es_cache }, new_status ∷ [])

-- What the informer reports.
pub data Event : Type 0 where
  added : EndpointSlice → Event
  updated : EndpointSlice → EndpointSlice → Event
  deleted : EndpointSlice → Event

abbrev pub cached : Event → Map Str EndpointSlice → Map Str EndpointSlice
cached (added es) m = insert es.uid es m
cached (updated old_es es) m = insert es.uid es m
cached (deleted es) m = delete es.uid m

-- `onInformerAdd`, `onInformerUpdate` and `onInformerDelete`.
unfoldable pub on_informer : Event → Worker → Worker × List HealthStatus
unfolding update_health_status_unsafe
on_informer e w =
    update_health_status_unsafe
      (record { last_status = w.last_status; es_cache = cached e w.es_cache })

abbrev pub init_cache : List EndpointSlice → Map Str EndpointSlice → Map Str EndpointSlice
init_cache [] m = m
init_cache (es ∷ list) m = init_cache list (insert es.uid es m)

-- `Start`: whether the informer has synced, the error of the context, and the informer's store.
unfoldable pub start :
    Bool
    → Option Str
    → List EndpointSlice
    → Worker
    → (Worker × List HealthStatus) × Result (Unit {0})
unfolding update_health_status_unsafe
start false ctx_err list w = ((w, []), err (str "failed to sync"))
start true (some e) list w = ((w, []), err e)
start true none list w = (
  update_health_status_unsafe
      (record { last_status = w.last_status; es_cache = init_cache list w.es_cache }),
  ok tt,
)

-- The worker after some events, and all that it has published.
unfoldable pub run : List Event → Worker → Worker × List HealthStatus
unfolding on_informer
run [] w = (w, [])
run (e ∷ es) w =
    let (w', sent) = on_informer e w in let (w'', rest) = run es w' in (w'', sent ++ rest)

-- `sendStatus` of a watcher whose context is open: its last status, and what it sends.
unfoldable pub send_status :
    Option HealthStatus → HealthStatus → Option HealthStatus × List HealthStatus
send_status none s = (some s, s ∷ [])
send_status (some last) s = if last == s then (some last, []) else (some s, s ∷ [])

unfoldable pub send_all : Option HealthStatus → List HealthStatus → List HealthStatus
unfolding send_status
send_all last [] = []
send_all last (s ∷ ss) = let (last', sent) = send_status last s in sent ++ send_all last' ss

abbrev pub put_at {ℓ} : {A : Type ℓ} → ℕ → A → List A → List A
put_at zero a xs = a ∷ xs
put_at (suc n) a [] = a ∷ []
put_at (suc n) a (x ∷ xs) = x ∷ put_at n a xs

-- `WatchHealthStatus`, which subscribes at the worker `w`. The worker receives the events `gap` before
-- the new goroutine reads the first status, and the events `later` after that. `sendStatus` is called
-- for all that is published, in order, and for the first status, which may come after `late` of them.
unfoldable pub watch_health_status : ℕ → List Event → List Event → Worker → List HealthStatus
unfolding send_all run
watch_health_status late gap later w =
    let (w', sent) = run gap w in
    send_all none (put_at late w'.last_status (sent ++ (run later w').1))

-- The loop of `ReadyWait` over what it receives; `none` while it waits for more.
unfoldable pub wait_loop : List (Result HealthStatus) → Option (Result (Unit {0}))
wait_loop [] = none
wait_loop (err e ∷ rest) = some (err e)
wait_loop (ok s ∷ rest) = let later = wait_loop rest in if s == success then some (ok tt) else later

-- `ReadyWait`: `w` is the worker when the status is checked, before the watcher subscribes. The end of
-- the context comes on the same list as the watcher's statuses, as an error.
unfoldable pub ready_wait : Worker → List (Result HealthStatus) → Option (Result (Unit {0}))
unfolding wait_loop
ready_wait w received = if w.last_status == success then some (ok tt) else wait_loop received

-- `noopHealthMonitorWorker`.
unfoldable pub noop_get_health_status : HealthStatus
noop_get_health_status = unknown

unfoldable pub noop_watch_health_status : Result (List HealthStatus)
noop_watch_health_status = err (str "not available")

unfoldable pub noop_ready_wait : Result (Unit {0})
noop_ready_wait = err (str "not available")
