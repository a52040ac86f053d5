-- ===== src/Logs/Stream/Follows.antt =====
-- The handlers of the watcher's events of modules/shared/logs/stream.go, over the events of a run.
use kubetail.Prelude.{
  ℕ, ◌≡◌, refl, sym, ap, ◌∙◌, inl, inr, Bool, true, false, some, List, [], ◌∷◌, arith, Bool-cases,
  ◌==◌, nat_comparable, keep, Str, str_comparable, ok,
}
use kubetail.Collections.SetOf.{SetOf}
use kubetail.Logs.Sources.{LogSource, source_comparable, same_source_iff, Event, added, deleted}
use kubetail.Logs.Records.{LogRecord}
use kubetail.Logs.Options.{StreamConfig}
use kubetail.Logs.Watcher.{SourceWatcher}
use kubetail.Logs.Watcher.Events.{replay}
use kubetail.Logs.Watcher.Calls.{Call, run}
use kubetail.Logs.Watcher.Mirror.{run-Follows}
use kubetail.Logs.Stream.{Stream, LogFetcher, add_options, handle_source_add, handle_source_delete}

-- The fetcher opens a channel for every source that is added.
abbrev pub Opens : LogFetcher → StreamConfig → Type 0
Opens fetcher c =
    (x : LogSource) → (ch : List LogRecord) × (fetcher.stream_forward x (add_options c) ≡ ok ch)

abbrev pub is_about : LogSource → Event → Bool
is_about x (added y) = y == x
is_about x (deleted y) = y == x

module _ (L : SetOf LogSource) where
  -- Two sets that agree on a source agree on it after the same events.
  replay-local :
      (x : LogSource) (a b : L.Set) (es : List Event)
      → L.contains a x ≡ L.contains b x
      → L.contains (replay L a es) x ≡ L.contains (replay L b es) x
  replay-local x a b [] h = h
  replay-local x a b (added y ∷ es) h =
      replay-local x (L.add a y) (L.add b y) es
        (rw (L.contains-add a y x, L.contains-add b y x, h) refl)
  replay-local x a b (deleted y ∷ es) h =
      replay-local x (L.remove a y) (L.remove b y) es
        (rw (L.contains-remove a y x, L.contains-remove b y x, h) refl)

  other :
      (x : LogSource) (have : L.Set) (e : Event)
      → is_about x e ≡ false
      → L.contains (replay L have (e ∷ [])) x ≡ L.contains have x
  other x have (added y) h = ground (arith, L.contains-add have y x, same_source_iff y x)
  other x have (deleted y) h = ground (arith, L.contains-remove have y x, same_source_iff y x)

  -- An event about another source does not change whether the set has this one.
  replay-about :
      (x : LogSource) (have : L.Set) (es : List Event)
      → L.contains (replay L have es) x ≡ L.contains (replay L have (keep (is_about x) es)) x
  replay-about x have [] = refl
  replay-about x have (e ∷ es) = elim (Bool-cases (is_about x e)) [
    | inl h ↦ rw h (replay-about x (replay L have (e ∷ [])) es)
    | inr h ↦
        replay-about x (replay L have (e ∷ [])) es
        ∙ replay-local x (replay L have (e ∷ [])) have (keep (is_about x) es) (other x have e h)
        ∙ rw h refl
  ]

module _ {L : SetOf LogSource} (fetcher : LogFetcher) where
  -- The handlers of the two events.
  unfoldable pub handle_event : Stream L → Event → Stream L
  handle_event s (added x) = (handle_source_add fetcher s x).0
  handle_event s (deleted x) = handle_source_delete s x

  unfoldable pub handle_events : Stream L → List Event → Stream L
  handle_events s [] = s
  handle_events s (e ∷ es) = handle_events (handle_event s e) es

  -- The state of a started stream with these sources.
  record Mirrors (c : StreamConfig) (have : L.Set) (s : Stream L) : Type 0 where
    same_config : s.config ≡ c
    is_started : s.is_started ≡ true
    same_sources : (x : LogSource) → L.contains s.sources x ≡ L.contains have x

  handle_event-Mirrors :
      (c : StreamConfig) (have : L.Set) (s : Stream L) (e : Event)
      → Opens fetcher c
      → Mirrors c have s
      → Mirrors c (replay L have (e ∷ [])) (handle_event s e)
  unfolding handle_event handle_source_add handle_source_delete
  handle_event-Mirrors c have s (added x) o m = elim (Bool-cases (L.contains s.sources x)) [
    | inl old ↦ record {
      same_config = ground (arith, m.same_config, m.is_started);
      is_started = ground (arith, m.is_started);
      same_sources = λ y.
          ground
            (arith, m.is_started, m.same_sources y, L.contains-add have x y, same_source_iff x y);
    }
    | inr new ↦
        let (ch, q) = o x in
        let q' : fetcher.stream_forward x (add_options s.config) ≡ ok ch =
          ground (arith, m.same_config) in
        record {
          same_config = ground (arith, m.same_config, m.is_started);
          is_started = ground (arith, m.is_started);
          same_sources = λ y. ground (
            arith,
            m.is_started,
            m.same_sources y,
            L.contains-add have x y,
            L.contains-add s.sources x y,
          );
        }
  ]
  handle_event-Mirrors c have s (deleted x) o m = record {
    same_config = ground (arith, m.same_config, m.is_started);
    is_started = ground (arith, m.is_started);
    same_sources = λ y. ground (
      arith,
      m.is_started,
      m.same_sources y,
      L.contains-remove have x y,
      L.contains-remove s.sources x y,
    );
  }

  handle_events-Mirrors :
      (c : StreamConfig) (have : L.Set) (s : Stream L) (es : List Event)
      → Opens fetcher c
      → Mirrors c have s
      → Mirrors c (replay L have es) (handle_events s es)
  unfolding handle_events
  handle_events-Mirrors c have s [] o m = m
  handle_events-Mirrors c have s (e ∷ es) o m =
      handle_events-Mirrors c (replay L have (e ∷ [])) (handle_event s e) es o
        (handle_event-Mirrors c have s e o m)

  -- A started stream has its watcher's sources, and can open every source. The bus gives it the events
  -- that the watcher publishes over a run in some order `handled`, as each topic has a handler of its
  -- own. Of a source whose events it handles in the order in which they were published, in whatever
  -- order those of other sources come, it has in the end what the watcher has.
  pub stream-Follows :
      {U : SetOf Str} (depth : ℕ) (w w' : SourceWatcher U L) (cs : List Call)
      (published handled : List Event) (s : Stream L) (x : LogSource)
      → run depth w cs ≡ some (w', published)
      → s.is_started ≡ true
      → Opens fetcher s.config
      → s.sources ≡ w.sources
      → keep (is_about x) handled ≡ keep (is_about x) published
      → L.contains (handle_events s handled).sources x ≡ L.contains w'.sources x
  stream-Follows depth w w' cs published handled s x h started o e order =
      (handle_events-Mirrors s.config w.sources s handled o (record {
        same_config = refl;
        is_started = started;
        same_sources = λ y. ap (λ z. L.contains z y) e;
      })).same_sources
        x
      ∙ replay-about L x w.sources handled
      ∙ ap (λ es. L.contains (replay L w.sources es) x) order
      ∙ sym (replay-about L x w.sources published)
      ∙ run-Follows depth w w' cs published x h
