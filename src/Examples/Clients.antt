-- ===== src/Examples/Clients.antt =====
-- Namespaces, authorization, and the once-only computation.
use kubetail.Prelude.{
  inl, inr, ℕ, ◌+◌, ◌<◌, ◌≡◌, refl, ◌≢◌, ◌⊎◌, Bool, true, false, none, some, List, [], ◌∷◌, arith,
  if◌then◌else◌, ◌==◌, nat_comparable, In, All, Str, str, str_comparable, Result, ok, err,
}
use kubetail.Prelude.{lookup, insert, delete}
use kubetail.K8sHelpers.Namespaces.{
  to, err_forbidden, deref_namespace, deref_namespace_to_list, Permitted, deref_namespace_checks,
}
use kubetail.K8sHelpers.Authorizer.{Clock, CacheKey, cache_ttl, do_sar, ask, token_key}
use kubetail.Strings.{trim_space, trim_left}
use kubetail.Logs.WorkloadType.{GroupVersionResource}
use kubetail.K8sHelpers.Authorizer.{in_cluster_is_allowed, both}
use kubetail.K8sHelpers.Authorizer.Informers.{
  cache_after, HasGrant, check_of, in_cluster_is_allowed-granted,
}
use kubetail.Logs.Records.{Time}
use kubetail.K8sHelpers.Transport
use kubetail.K8sHelpers.Transport.{
  Expiration, Moment, read_token_from_file, get_token, empty_round_tripper,
}
use kubetail.K8sHelpers.Transport.Fresh.{read_at, get_token-fresh}
use kubetail.K8sHelpers.KubeConfigWatcher
use kubetail.K8sHelpers.KubeConfigWatcher.Burst.{Touches, IsBurst, run-reloaded}
use kubetail.K8sHelpers.KubeConfigWatcher.{
  FsEvent, KubeConfigWatcher, new_kube_config_watcher, reload_config, fire,
}
use kubetail.K8sHelpers.Authorizer.Granted.{Check, check, run_checks, granted}
use kubetail.K8sHelpers.Authorizer.Tokens.{TokenCheck, to_check, IsPlain}
use kubetail.Collections.SyncMap.{load, store, load_or_store}
use kubetail.Collections.SyncGroup.{new_group, run, act_in, enter, lock, check_value, keep_value}
use kubetail.Collections.SyncGroup.Memo.{value_of, computes, run-memoizes, run-computes_once}
use kubetail.Collections.SyncGroup.Progress.{IsHolder, CanReturn, run-can_return}

abbrev only_default : List Str
only_default = str "default" ∷ []

deref_namespace_checks_example :
    (((deref_namespace only_default (to (str "kube-system")) (str "default")
          ≡ ok (str "kube-system"))
        × Permitted only_default (str "kube-system"))
      ⊎ ((deref_namespace only_default (to (str "kube-system")) (str "default") ≡ err err_forbidden)
          × ¬ Permitted only_default (str "kube-system")))
    × ((deref_namespace_to_list only_default (to (str "kube-system")) (str "default")
          ≡ err err_forbidden)
        ⊎ ((l : List Str) × (deref_namespace_to_list only_default
                (to (str "kube-system"))
                (str "default")
              ≡ ok l)
            × All (Permitted only_default) l))
deref_namespace_checks_example =
    deref_namespace_checks only_default (to (str "kube-system")) (str "default") (λ e. absurd (cc))

abbrev list_pods : CacheKey
list_pods = record {
  namespace = str "default";
  group = [];
  resource = str "pods";
  verb = str "list";
}

-- A check that the API allows.
abbrev first_check : TokenCheck
first_check = record {
  token = str "secret";
  attrs = list_pods;
  clock = record { now = 1; stored_at = 2 };
  answer = ok true;
}

list_pods-IsPlain : IsPlain list_pods
unfolding IsPlain
list_pods-IsPlain = ground arith

abbrev pods : GroupVersionResource
pods = record { group = []; version = str "v1"; resource = str "pods" }

abbrev clientset_of : Str → Result (Str → Result Bool)
clientset_of token = ok (λ verb. if verb == str "list" then err (str "unreachable") else ok true)

abbrev a_minute_later : Str → Clock
a_minute_later verb = record { now = 60_000_000_000; stored_at = 60_000_000_001 }

pods_allowed :
    (in_cluster_is_allowed clientset_of
      (cache_after (first_check ∷ []))
      (str " secret ")
      (str "default")
      pods
      a_minute_later
      true).1
    ≡ ok tt
unfolding in_cluster_is_allowed both run_checks do_sar ask to_check token_key lookup insert delete
    trim_space trim_left
pods_allowed = refl

in_cluster_is_allowed-granted_example :
    (answer : Str → Result Bool) × (clientset_of (trim_space (str " secret ")) ≡ ok answer)
    × HasGrant (first_check ∷ []) (
        check_of
          (trim_space (str " secret "))
          (str "default")
          pods
          a_minute_later
          answer
          (str "list"))
    × HasGrant (first_check ∷ []) (
        check_of
          (trim_space (str " secret "))
          (str "default")
          pods
          a_minute_later
          answer
          (str "watch"))
in_cluster_is_allowed-granted_example =
    in_cluster_is_allowed-granted clientset_of (first_check ∷ []) (str " secret ") (str "default")
      pods a_minute_later true (list_pods-IsPlain, tt) (ground arith) (ground arith) (ground arith)
      pods_allowed

abbrev plain_check : Check Str
plain_check = record {
  key = str "k";
  attrs = list_pods;
  clock = record { now = 1; stored_at = 2 };
  answer = ok true;
}

granted_example :
    (((check (run_checks [] (plain_check ∷ [])) plain_check).1 ≡ ok tt)
      × ((plain_check.answer ≡ ok true)
          ⊎ ((e : Check Str) × In e (plain_check ∷ [])
              × (e.key ≡ str "k")
              × (e.answer ≡ ok true)
              × (1 < e.clock.stored_at + cache_ttl))))
    ⊎ ((message : Str) × ((check (run_checks [] (plain_check ∷ [])) plain_check).1 ≡ err message)
        × (plain_check.answer ≢ ok true))
granted_example = granted (plain_check ∷ []) plain_check

-- A token whose end is two minutes after the zero time, of which the file is then gone.
abbrev two_minutes : Str → Expiration
two_minutes claims = Expiration.at_time 120_000_000_000

abbrev at_start : Moment
at_start = record { now = 0; file = ok (str "secret ") }

abbrev half_a_minute_later : Moment
half_a_minute_later = record { now = 30_000_000_000; file = err (str "no such file") }

token_kept :
    (get_token
      (λ s. ok s)
      two_minutes
      (Transport.run (λ s. ok s) two_minutes (at_start ∷ []) empty_round_tripper)
      half_a_minute_later).1
    ≡ ok (str "secret")
unfolding get_token Transport.run read_token_from_file trim_space trim_left
token_kept = refl

get_token-fresh_example :
    ((t : Time) × (read_at (λ s. ok s) two_minutes half_a_minute_later ≡ ok (str "secret", t)))
    ⊎ ((u : Moment) × (t : Time) × In u (at_start ∷ [])
        × (read_at (λ s. ok s) two_minutes u ≡ ok (str "secret", t))
        × ((t ≡ 0) ⊎ (30_000_000_000 + empty_round_tripper.refresh_skew < t)))
get_token-fresh_example =
    get_token-fresh (λ s. ok s) two_minutes (at_start ∷ []) half_a_minute_later (str "secret")
      token_kept

-- A configuration is the time at which it was loaded. A file is created, written, and its mode
-- changed, shortly after each other.
abbrev load_time : Time → Result Time
load_time t = ok t

abbrev created : FsEvent
created = record { create = true; write = false; remove = false }

abbrev written : FsEvent
written = record { create = false; write = true; remove = false }

abbrev mode_changed : FsEvent
mode_changed = record { create = false; write = false; remove = false }

abbrev burst : List (Time × FsEvent)
burst = (5, created) ∷ (9, written) ∷ (12, mode_changed) ∷ []

abbrev watcher : KubeConfigWatcher Time
watcher = new_kube_config_watcher load_time 1

watcher-idle : watcher.debounce_timer ≡ none
unfolding new_kube_config_watcher reload_config
watcher-idle = refl

not_touched : ¬ Touches mode_changed
not_touched h = ground (arith, h)

burst-IsBurst : IsBurst 5 burst
burst-IsBurst = (
  (ground arith, ground arith),
  ((ground arith, ground arith), ((ground arith, ground arith), tt)),
)

run-reloaded_example :
    ((KubeConfigWatcher.run load_time burst watcher).1 ≡ [])
    × ((fire load_time 200_000_000 (KubeConfigWatcher.run load_time burst watcher).0).0.kube_config
        ≡ some 100_000_009)
    × ((fire load_time 200_000_000 (KubeConfigWatcher.run load_time burst watcher).0).1
        ≡ 100_000_009 ∷ [])
run-reloaded_example =
    run-reloaded load_time ((5, created) ∷ []) ((12, mode_changed) ∷ []) 5 9 200_000_000 written
      watcher 100_000_009 watcher-idle burst-IsBurst (inr (inl refl)) (not_touched, tt)
      (ground arith) refl

-- Two goroutines ask for the same key: the first computes 7 while the second waits.
abbrev same_key : ℕ → ℕ
same_key t = 1

abbrev accesses : List (ℕ × Result ℕ)
accesses =
    (0, ok 7)
    ∷ (1, ok 8)
    ∷ (0, ok 7)
    ∷ (1, ok 8)
    ∷ (0, ok 7)
    ∷ (0, ok 7)
    ∷ (1, ok 8)
    ∷ (1, ok 8)
    ∷ []

first_value : value_of ((run same_key accesses new_group).phase 0) ≡ some 7
unfolding run act_in enter lock check_value keep_value load store load_or_store new_group lookup
    insert delete
first_value = refl

second_value : value_of ((run same_key accesses new_group).phase 1) ≡ some 7
unfolding run act_in enter lock check_value keep_value load store load_or_store new_group lookup
    insert delete
second_value = refl

abbrev seven : ℕ
seven = 7

run-memoizes_example : seven ≡ seven
run-memoizes_example = run-memoizes same_key accesses 0 1 seven seven refl first_value second_value

abbrev until_compute : List (ℕ × Result ℕ)
until_compute = (0, ok 7) ∷ (1, ok 8) ∷ (0, ok 7) ∷ (1, ok 8) ∷ (0, ok 7) ∷ []

first_computes : computes ((run same_key until_compute new_group).phase 0) ≡ true
unfolding run act_in enter lock check_value keep_value load store load_or_store new_group lookup
    insert delete
first_computes = refl

abbrev zeroth : ℕ
zeroth = 0

abbrev first : ℕ
first = 1

run-computes_once_example :
    (zeroth ≡ first)
    ⊎ ((computes ((run same_key until_compute new_group).phase 1) ≡ false)
        × (value_of ((run same_key until_compute new_group).phase 1) ≡ none))
run-computes_once_example =
    run-computes_once same_key until_compute zeroth first refl first_computes

run-can_return_example :
    (u : ℕ) × IsHolder same_key u 1 (run same_key until_compute new_group)
    × CanReturn same_key u 1 (ok 8) (run same_key until_compute new_group)
run-can_return_example = run-can_return same_key until_compute 1 (ok 8)
