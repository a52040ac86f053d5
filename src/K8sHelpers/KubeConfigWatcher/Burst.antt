-- ===== src/K8sHelpers/KubeConfigWatcher/Burst.antt =====
-- Bursts of file system events in `start` of modules/shared/k8shelpers/kube-config-watcher.go.
use kubetail.Prelude.{
  ◌+◌, ◌≤◌, ◌<◌, ◌≡◌, refl, sym, ap, ◌∙◌, subst, ◌⊎◌, inl, inr, true, false, Option, none, some,
  List, [], ◌∷◌, ◌++◌, arith, leb, if◌then◌else◌, Bool-cases, Option-cases, nat_comparable, All,
  str_comparable, Result, ok,
}
use kubetail.Logs.Records.{Time}
use kubetail.K8sHelpers.KubeConfigWatcher.{
  FsEvent, is_change, debounce_delay, KubeConfigWatcher, reload_config, fire, on_event, run,
}

-- The event creates, writes or removes a file.
abbrev pub Touches : FsEvent → Type 0
Touches e = (e.create ≡ true) ⊎ ((e.write ≡ true) ⊎ (e.remove ≡ true))

-- All of it happens in less than the delay.
abbrev pub IsBurst : Time → List (Time × FsEvent) → Type 0
IsBurst first es = All (λ x. (first ≤ x.0) × (x.0 < first + debounce_delay)) es

-- The timer does not fire before the burst is over.
abbrev FiresLater : Time → Option Time → Type 0
FiresLater first none = Unit
FiresLater first (some at) = first + debounce_delay ≤ at

module _ {Config : Type 0} (load : Time → Result Config) where
  quiet_fire :
      (first now : Time) (w : KubeConfigWatcher Config)
      → FiresLater first w.debounce_timer
      → now < first + debounce_delay
      → fire load now w ≡ (w, [])
  unfolding fire
  quiet_fire first now w l h = elim (Option-cases w.debounce_timer) [
    | inl e ↦ ground (arith, e)
    | inr (at, e) ↦
        let later : first + debounce_delay ≤ at = subst (FiresLater first) e l in
        let waits : leb at now ≡ false = ground (arith, later, h) in ground (arith, e, waits)
  ]

  -- An event of a burst tells nothing, and sets the timer if it touches a file.
  quiet_event :
      (first now : Time) (e : FsEvent) (w : KubeConfigWatcher Config)
      → FiresLater first w.debounce_timer
      → now < first + debounce_delay
      → ((on_event load (now, e) w).1 ≡ [])
        × ((on_event load (now, e) w).0.debounce_timer
            ≡ (if is_change e then some (now + debounce_delay) else w.debounce_timer))
  unfolding on_event
  quiet_event first now e w l h =
      let q = quiet_fire first now w l h in
      elim (Bool-cases (is_change e)) [
        | inl c ↦ rw (on_event, q, c) (refl, refl)
        | inr c ↦ rw (on_event, q, c) (refl, refl)
      ]

  FiresLater-event :
      (first now : Time) (e : FsEvent) (w : KubeConfigWatcher Config)
      → FiresLater first w.debounce_timer
      → first ≤ now
      → now < first + debounce_delay
      → FiresLater first (on_event load (now, e) w).0.debounce_timer
  FiresLater-event first now e w l g h =
      let (_, t) = quiet_event first now e w l h in
      subst (FiresLater first) (sym t)
        (elim (Bool-cases (is_change e)) [ inl c ↦ rw c (omega arith) | inr c ↦ rw c l ])

  quiet_run :
      (first : Time) (es : List (Time × FsEvent)) (w : KubeConfigWatcher Config)
      → FiresLater first w.debounce_timer
      → IsBurst first es
      → ((run load es w).1 ≡ []) × FiresLater first (run load es w).0.debounce_timer
  unfolding run
  quiet_run first [] w l b = (refl, l)
  quiet_run first ((now, e) ∷ es) w l b =
      let (told, _) = quiet_event first now e w l b.0.1 in
      let (rest, later) = quiet_run first es _ (FiresLater-event first now e w l b.0.0 b.0.1) b.1 in
      (ap (λ x. x ++ (run load es (on_event load (now, e) w).0).1) told ∙ rest, later)

  run-append :
      (xs ys : List (Time × FsEvent)) (w : KubeConfigWatcher Config)
      → (run load (xs ++ ys) w).0 ≡ (run load ys (run load xs w).0).0
  unfolding run
  run-append [] ys w = refl
  run-append (x ∷ xs) ys w = run-append xs ys (on_event load x w).0

  -- What touches no file leaves the timer alone.
  untouched_run :
      (first : Time) (es : List (Time × FsEvent)) (w : KubeConfigWatcher Config)
      → FiresLater first w.debounce_timer
      → IsBurst first es
      → All (λ x. ¬ Touches x.1) es
      → (run load es w).0.debounce_timer ≡ w.debounce_timer
  unfolding run
  untouched_run first [] w l b n = refl
  untouched_run first ((now, e) ∷ es) w l b n =
      let (_, t) = quiet_event first now e w l b.0.1 in
      let not_changed : is_change e ≡ false = ground (arith, n.0) in
      untouched_run first es (on_event load (now, e) w).0
        (FiresLater-event first now e w l b.0.0 b.0.1) b.1 n.1
      ∙ t
      ∙ rw not_changed refl

  touched_timer :
      (first now : Time) (e : FsEvent) (w : KubeConfigWatcher Config)
      → FiresLater first w.debounce_timer
      → now < first + debounce_delay
      → Touches e
      → (on_event load (now, e) w).0.debounce_timer ≡ some (now + debounce_delay)
  touched_timer first now e w l h touched =
      let (_, t) = quiet_event first now e w l h in
      let changed : is_change e ≡ true = ground (arith, touched) in t ∙ rw changed refl

  fired :
      (at now : Time) (w : KubeConfigWatcher Config) (cfg : Config)
      → w.debounce_timer ≡ some at
      → at ≤ now
      → load at ≡ ok cfg
      → ((fire load now w).0.kube_config ≡ some cfg) × ((fire load now w).1 ≡ cfg ∷ [])
  unfolding fire reload_config
  fired at now w cfg t l h =
      let late : leb at now ≡ true = ground (arith, l) in
      rw (t, late, h, fire, reload_config) (refl, refl)

  IsBurst-append :
      (first : Time) (xs ys : List (Time × FsEvent))
      → IsBurst first (xs ++ ys)
      → IsBurst first xs × IsBurst first ys
  IsBurst-append first [] ys b = (tt, b)
  IsBurst-append first (x ∷ xs) ys b = let (f, g) = IsBurst-append first xs ys b.1 in ((b.0, f), g)

  -- A watcher without a running timer receives a burst of events, all within less than the delay. The
  -- subscribers are told nothing during the burst. Once the delay has passed since the last of the
  -- events that create, write or remove a file, which `e` is, the configuration is the one that the
  -- files had at the end of that delay, as long as they could be loaded then, and the subscribers are
  -- told of it, once for the whole burst.
  pub run-reloaded :
      (front back : List (Time × FsEvent)) (first last now : Time) (e : FsEvent)
      (w : KubeConfigWatcher Config) (cfg : Config)
      → w.debounce_timer ≡ none
      → IsBurst first (front ++ (last, e) ∷ back)
      → Touches e
      → All (λ x. ¬ Touches x.1) back
      → last + debounce_delay ≤ now
      → load (last + debounce_delay) ≡ ok cfg
      → let burst = front ++ (last, e) ∷ back in
        let after_it = (run load burst w).0 in
        ((run load burst w).1 ≡ [])
        × ((fire load now after_it).0.kube_config ≡ some cfg)
        × ((fire load now after_it).1 ≡ cfg ∷ [])
  unfolding run
  run-reloaded front back first last now e w cfg idle b touched untouched l q =
      let idle' : FiresLater first w.debounce_timer = subst (FiresLater first) (sym idle) tt in
      let (quiet, _) = quiet_run first (front ++ (last, e) ∷ back) w idle' b in
      let (b1, b2) = IsBurst-append first front ((last, e) ∷ back) b in
      let w1 = (run load front w).0 in
      let (_, l1) = quiet_run first front w idle' b1 in
      let w2 = (on_event load (last, e) w1).0 in
      let l2 = FiresLater-event first last e w1 l1 b2.0.0 b2.0.1 in
      let timer : (run load (front ++ (last, e) ∷ back) w).0.debounce_timer
          ≡ some (last + debounce_delay) =
        ap (λ x. x.debounce_timer) (run-append front ((last, e) ∷ back) w)
        ∙ untouched_run first back w2 l2 b2.1 untouched
        ∙ touched_timer first last e w1 l1 b2.0.1 touched in
      let (kept, told) =
        fired (last + debounce_delay) now (run load (front ++ (last, e) ∷ back) w).0 cfg timer l
          q in
      (quiet, kept, told)
