-- ===== src/Logs/Stream/New.antt =====
-- `NewStream` of modules/shared/logs/stream.go: the checks of its options and paths.
use kubetail.Prelude.{
  ◌≤◌, ◌≡◌, subst, ◌⊎◌, Bool, false, ◌&&◌, none, List, arith, if◌then◌else◌, nat_comparable, All,
  Str, str_comparable, Result, ok, >>=-eq-ok,
}
use kubetail.Collections.SetOf.{SetOf}
use kubetail.Logs.Sources.{LogSource, source_comparable}
use kubetail.Logs.Records.{Time}
use kubetail.Logs.Options.{LogOption, StreamConfig, apply_stream_options}
use kubetail.Logs.Watcher.{SourceWatcher}
use kubetail.Logs.Watcher.New.{new_source_watcher, IsKept, new_source_watcher-IsKept}
use kubetail.Logs.Stream.{Stream, validate, new_stream, zero_stream_config, is_head}

validate_ok :
    (now : Time) (c c' : StreamConfig)
    → validate now c ≡ ok c'
    → ((c'.follow && is_head c'.mode) ≡ false)
      × ((c'.follow ≡ false) ⊎ (c'.until_time ≡ 0) ⊎ (now ≤ c'.until_time))
unfolding validate
validate_ok now c c' h = ground arith

-- A stream that is made does not follow in head mode, follows only with a stop time that is not set
-- or has not passed, has not started and has no sources and no error; and every path of its watcher
-- has passed the checks.
pub new_stream_ok :
    {U : SetOf Str} {L : SetOf LogSource} (compile : Str → Result (Str → Bool))
    (get_default_namespace : Str → Str) (get_clientset : Str → Result (Unit {0})) (now : Time)
    (source_paths : List Str) (opts : List LogOption) (s : Stream L) (w : SourceWatcher U L)
    → new_stream compile get_default_namespace get_clientset now source_paths opts ≡ ok (s, w)
    → ((s.config.follow && is_head s.config.mode) ≡ false)
      × ((s.config.follow ≡ false) ⊎ (s.config.until_time ≡ 0) ⊎ (now ≤ s.config.until_time))
      × (s.is_started ≡ false)
      × (s.sources ≡ L.empty)
      × (s.error ≡ none)
      × All (IsKept w.config) w.parsed_paths
unfolding new_stream
new_stream_ok {U} {L} compile get_default_namespace get_clientset now source_paths opts s w h =
    let (c, e1, h1) = >>=-eq-ok (apply_stream_options compile zero_stream_config opts) _ h in
    let (c', e2, h2) = >>=-eq-ok (validate now c) _ h1 in
    let (sw, e3, h3) =
      >>=-eq-ok (new_source_watcher {U = U} {L = L} get_default_namespace source_paths opts) _ h2 in
    let (u, e4, h4) =
      >>=-eq-ok (if c'.has_fetcher then ok tt else get_clientset c'.kube_context) _ h3 in
    let (v1, v2) = validate_ok now c c' e2 in
    let made : c' ≡ s.config = ground arith in
    let watcher : sw ≡ w = ground arith in
    (
      subst (λ d. (d.follow && is_head d.mode) ≡ false) made v1,
      subst (λ d. (d.follow ≡ false) ⊎ (d.until_time ≡ 0) ⊎ (now ≤ d.until_time)) made v2,
      ground arith,
      ground arith,
      ground arith,
      subst (λ x. All (IsKept x.config) x.parsed_paths) watcher
          (new_source_watcher-IsKept get_default_namespace source_paths opts sw e3),
    )
