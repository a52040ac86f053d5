-- ===== src/Dashboard/HealthMonitor/Ready.antt =====
-- `ReadyWait` over a watcher of the worker.
use kubetail.Prelude.{
  ℕ, zero, suc, ◌≡◌, refl, sym, ap, ◌∙◌, Bool, false, not, ◌&&◌, ◌||◌, Option, none, some, List, [],
  ◌∷◌, ◌++◌, arith, if◌then◌else◌, ◌==◌, nat_comparable, elem, elem-append, Str, str_comparable,
  Map, Result, ok,
}
use kubetail.Dashboard.HealthMonitor.{
  HealthStatus, success, unknown, status_comparable, Event, cached, EndpointSlice, has_ready,
  Worker, get_health_status_unsafe, update_health_status_unsafe, on_informer, run, init_cache,
  start, send_status, send_all, put_at, watch_health_status, wait_loop, ready_wait, same_status_iff,
}
use kubetail.Dashboard.HealthMonitor.History.{started}

abbrev pub received : List HealthStatus → List (Result HealthStatus)
received [] = []
received (s ∷ ss) = ok s ∷ received ss

abbrev ready_answer : Bool → Option (Result (Unit {0}))
ready_answer b = if b then some (ok tt) else none

abbrev has_success : List HealthStatus → Bool
has_success ss = elem success ss

wait_loop-received :
    (ss : List HealthStatus) → wait_loop (received ss) ≡ ready_answer (has_success ss)
unfolding wait_loop
wait_loop-received [] = refl
wait_loop-received (s ∷ ss) = ground (arith, wait_loop-received ss)

send_all-success :
    (last : HealthStatus) (ss : List HealthStatus)
    → (has_success (send_all (some last) ss) || (last == success))
      ≡ (has_success ss || (last == success))
unfolding send_all send_status
send_all-success last [] = refl
send_all-success last (s ∷ ss) =
    ground (arith, send_all-success s ss, send_all-success last ss, same_status_iff last s)

send_all-from_none : (ss : List HealthStatus) → has_success (send_all none ss) ≡ has_success ss
unfolding send_all send_status
send_all-from_none [] = refl
send_all-from_none (s ∷ ss) = ground (arith, send_all-success s ss)

put_at-success :
    (n : ℕ) (s : HealthStatus) (ss : List HealthStatus)
    → has_success (put_at n s ss) ≡ (has_success ss || (s == success))
put_at-success zero s ss = ground arith
put_at-success (suc n) s [] = ground arith
put_at-success (suc n) s (x ∷ ss) = ground (arith, put_at-success n s ss)

-- At some time, at first or after some of the events, an endpoint in the cache is ready.
unfoldable pub ever_ready : List Event → Map Str EndpointSlice → Bool
ever_ready [] m = has_ready m
ever_ready (e ∷ es) m = has_ready m || ever_ready es (cached e m)

update_success :
    (w : Worker)
    → (((update_health_status_unsafe w).0.last_status == success) ≡ has_ready w.es_cache)
      × ((update_health_status_unsafe w).0.es_cache ≡ w.es_cache)
      × (has_success (update_health_status_unsafe w).1
          ≡ (has_ready w.es_cache && not (w.last_status == success)))
unfolding update_health_status_unsafe get_health_status_unsafe
update_success w = ground arith

ever_ready-now :
    (es : List Event) (m : Map Str EndpointSlice)
    → ever_ready es m ≡ (has_ready m || ever_ready es m)
unfolding ever_ready
ever_ready-now [] m = ground arith
ever_ready-now (e ∷ es) m = ground arith

run-success :
    (es : List Event) (w : Worker)
    → (w.last_status == success) ≡ has_ready w.es_cache
    → (has_success (run es w).1 || (w.last_status == success)) ≡ ever_ready es w.es_cache
unfolding run on_informer ever_ready
run-success [] w h = h
run-success (e ∷ es) w h =
    let v : Worker = record { last_status = w.last_status; es_cache = cached e w.es_cache } in
    let (q, c, p) = update_success v in
    let w' = (update_health_status_unsafe v).0 in
    let ih = run-success es w' (q ∙ ap has_ready (sym c)) in
    let ih' : (has_success (run es w').1 || (w'.last_status == success))
        ≡ ever_ready es (cached e w.es_cache) =
      ih ∙ ap (ever_ready es) c in
    let m : ever_ready es (cached e w.es_cache)
        ≡ (has_ready (cached e w.es_cache) || ever_ready es (cached e w.es_cache)) =
      ever_ready-now es (cached e w.es_cache) in
    ground
      (arith, elem-append success (update_health_status_unsafe v).1 (run es w').1, p, q, ih', h, m)

-- The worker after these events.
abbrev pub after : List EndpointSlice → List Event → Worker
after list before_it = (run before_it (started list)).0

run-is_success :
    (es : List Event) (w : Worker)
    → (w.last_status == success) ≡ has_ready w.es_cache
    → ((run es w).0.last_status == success) ≡ has_ready (run es w).0.es_cache
unfolding run on_informer
run-is_success [] w h = h
run-is_success (e ∷ es) w h =
    let v : Worker = record { last_status = w.last_status; es_cache = cached e w.es_cache } in
    let (q, c, _) = update_success v in run-is_success es _ (q ∙ ap has_ready (sym c))

-- One of the events makes an endpoint ready where none was.
unfoldable pub turns_ready : List Event → Map Str EndpointSlice → Bool
turns_ready [] m = false
turns_ready (e ∷ es) m =
    (not (has_ready m) && has_ready (cached e m)) || turns_ready es (cached e m)

run-turns_ready :
    (es : List Event) (w : Worker)
    → (w.last_status == success) ≡ has_ready w.es_cache
    → has_success (run es w).1 ≡ turns_ready es w.es_cache
unfolding run on_informer turns_ready
run-turns_ready [] w h = refl
run-turns_ready (e ∷ es) w h =
    let v : Worker = record { last_status = w.last_status; es_cache = cached e w.es_cache } in
    let (q, c, p) = update_success v in
    let w' = (update_health_status_unsafe v).0 in
    let ih = run-turns_ready es w' (q ∙ ap has_ready (sym c)) ∙ ap (turns_ready es) c in
    ground (arith, elem-append success (update_health_status_unsafe v).1 (run es w').1, p, ih, h)

after-IsSuccess :
    (list : List EndpointSlice) (es : List Event)
    → ((after list es).last_status == success) ≡ has_ready (after list es).es_cache
unfolding start
after-IsSuccess list es =
    let (q, c, _) =
      update_success (record { last_status = unknown; es_cache = init_cache list [] }) in
    run-is_success es (started list) (q ∙ ap has_ready (sym c))

watch_health_status-success :
    (late : ℕ) (gap later : List Event) (w : Worker)
    → (w.last_status == success) ≡ has_ready w.es_cache
    → has_success (watch_health_status late gap later w)
      ≡ turns_ready gap w.es_cache || ever_ready later (run gap w).0.es_cache
unfolding watch_health_status
watch_health_status-success late gap later w h =
    let w' = (run gap w).0 in
    let all = (run gap w).1 ++ (run later w').1 in
    ground (
      arith,
      run-success later w' (run-is_success gap w h),
      run-turns_ready gap w h,
      elem-append success (run gap w).1 (run later w').1,
      put_at-success late w'.last_status all,
      send_all-from_none (put_at late w'.last_status all),
    )

-- `ReadyWait` checks the status of a worker that has started and received some events; it subscribes
-- after the events `missed`, reads the status again after the events `gap`, and goes on receiving
-- during the events `later`, while its context stays open. It returns, and without an error, exactly
-- if an endpoint in the cache is ready at the check, or one of the events of the gap makes an endpoint
-- ready where none was, or an endpoint is ready at the second reading or after one of the later
-- events, in whatever order the status of the second reading and the published updates reach it;
-- otherwise it still waits.
pub ready_wait-ever_ready :
    (list : List EndpointSlice) (before_it missed gap later : List Event) (late : ℕ)
    → let checked = after list before_it in
      let subscribed = (run missed checked).0 in
      ready_wait checked (received (watch_health_status late gap later subscribed)) ≡ (
        if has_ready checked.es_cache
          || (turns_ready gap subscribed.es_cache
              || ever_ready later (run gap subscribed).0.es_cache)
        then some (ok tt)
        else none)
unfolding ready_wait
ready_wait-ever_ready list before_it missed gap later late =
    let w = after list before_it in
    let h = after-IsSuccess list before_it in
    let w' = (run missed w).0 in
    ground (
      arith,
      h,
      watch_health_status-success late gap later w' (run-is_success missed w h),
      wait_loop-received (watch_health_status late gap later w'),
    )
