-- ===== src/Dashboard/HealthMonitor/History.antt =====
-- The status of a worker as a function of the caches it has had.
use kubetail.Prelude.{
  is_nil, ◌≡◌, refl, sym, ap, ◌∙◌, Bool, true, false, not, ◌&&◌, ◌||◌, none, List, [], ◌∷◌, ◌++◌,
  arith, if◌then◌else◌, ◌==◌, nat_comparable, Str, str_comparable, Map,
}
use kubetail.Dashboard.HealthMonitor.{
  status_comparable, init_cache, new_worker, start, on_informer, run, HealthStatus, success,
  failure, pending, not_found, unknown, Event, cached, EndpointSlice, has_ready, Worker,
  get_health_status_unsafe, update_health_status_unsafe,
}

abbrev Cache : Type 0
Cache = Map Str EndpointSlice

-- The newest cache first.
abbrev pub was_empty_last : List Cache → Bool
was_empty_last [] = false
was_empty_last (m ∷ ms) = is_nil m || (not (has_ready m) && was_empty_last ms)

-- No endpoint is ready: that is a failure, unless since the last time that one was, or from the
-- beginning, the cache has been empty.
unfoldable pub status_of : List Cache → HealthStatus
status_of [] = unknown
status_of (m ∷ ms) =
    if is_nil m
    then not_found
    else if has_ready m
    then success
    else if was_empty_last ms
    then pending
    else failure

-- The caches after each event.
unfoldable pub history : List Event → List Cache → Cache → List Cache
history [] ms m = m ∷ ms
history (e ∷ es) ms m = history es (m ∷ ms) (cached e m)

update_status :
    (w : Worker) (ms : List Cache)
    → w.last_status ≡ status_of ms
    → ((update_health_status_unsafe w).0.last_status ≡ status_of (w.es_cache ∷ ms))
      × ((update_health_status_unsafe w).0.es_cache ≡ w.es_cache)
unfolding update_health_status_unsafe get_health_status_unsafe status_of
update_status w [] h = ground (arith, h)
update_status w (m ∷ ms) h = ground (arith, h)

-- The status after each event.
unfoldable pub statuses : List Event → List Cache → Cache → List HealthStatus
unfolding status_of
statuses [] ms m = []
statuses (e ∷ es) ms m = status_of (cached e m ∷ m ∷ ms) ∷ statuses es (m ∷ ms) (cached e m)

-- What differs from the one before it.
unfoldable pub changes : HealthStatus → List HealthStatus → List HealthStatus
changes last [] = []
changes last (s ∷ ss) = let rest = changes s ss in if s == last then rest else s ∷ rest

published :
    (w : Worker)
    → (update_health_status_unsafe w).1
      ≡ changes w.last_status ((update_health_status_unsafe w).0.last_status ∷ [])
unfolding update_health_status_unsafe get_health_status_unsafe changes
published w = ground arith

changes-cons :
    (last s : HealthStatus) (ss : List HealthStatus)
    → changes last (s ∷ []) ++ changes s ss ≡ changes last (s ∷ ss)
unfolding changes
changes-cons last s ss = ground arith

run_from :
    (es : List Event) (w : Worker) (ms : List Cache)
    → w.last_status ≡ status_of (w.es_cache ∷ ms)
    → ((run es w).0.last_status ≡ status_of (history es ms w.es_cache))
      × ((run es w).1 ≡ changes w.last_status (statuses es ms w.es_cache))
unfolding run on_informer history statuses changes
run_from [] w ms h = (h, refl)
run_from (e ∷ es) w ms h =
    let v : Worker = record { last_status = w.last_status; es_cache = cached e w.es_cache } in
    let (q, c) = update_status v (w.es_cache ∷ ms) h in
    let w' = (update_health_status_unsafe v).0 in
    let (a, b) =
      run_from es w' (w.es_cache ∷ ms) (q ∙ ap (λ m. status_of (m ∷ w.es_cache ∷ ms)) (sym c)) in
    (
      a ∙ ap (λ m. status_of (history es (w.es_cache ∷ ms) m)) c,
      ap (λ x. x ++ (run es w').1) (published v)
          ∙ ap
              (λ x. changes w.last_status ((update_health_status_unsafe v).0.last_status ∷ []) ++ x)
              b
          ∙ changes-cons w.last_status w'.last_status _
          ∙ ap (λ m. changes w.last_status (w'.last_status ∷ statuses es (w.es_cache ∷ ms) m)) c
          ∙ ap
              (λ x. changes w.last_status (x ∷ statuses es (w.es_cache ∷ ms) (cached e w.es_cache)))
              q,
    )

-- The worker once it has started with the informer's store.
abbrev pub started : List EndpointSlice → Worker
started list = (start true none list new_worker).0.0

-- A worker that has started and then received any events has the status that the caches it has had
-- determine: not found while the cache is empty, success while an endpoint in it is ready, pending
-- while none is and the cache was empty after the last time that one was, failure otherwise. And it
-- has published each status that differs from the one before it, in order, and nothing else.
pub run-status :
    (list : List EndpointSlice) (es : List Event)
    → ((run es (started list)).0.last_status ≡ status_of (history es [] (init_cache list [])))
      × ((run es (started list)).1
          ≡ changes (started list).last_status (statuses es [] (init_cache list [])))
unfolding start status_of
run-status list es =
    let (q, c) =
      update_status (record { last_status = unknown; es_cache = init_cache list [] }) [] refl in
    let (a, b) = run_from es (started list) [] (q ∙ ap (λ m. status_of (m ∷ [])) (sym c)) in
    (
      a ∙ ap (λ m. status_of (history es [] m)) c,
      b ∙ ap (λ m. changes (started list).last_status (statuses es [] m)) c,
    )
