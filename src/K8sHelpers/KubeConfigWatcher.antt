-- ===== src/K8sHelpers/KubeConfigWatcher.antt =====
-- modules/shared/k8shelpers/kube-config-watcher.go: the configuration, and the reloads after changes of
-- its files. `Config` is what the loading rules give; their answer at a time is the argument `load`.
pub mod Burst
use kubetail.Prelude.{
  ℕ, zero, suc, ◌+◌, ◌-◌, ◌*◌, ◌≤◌, ◌<◌, min, max, String, ◌≡◌, refl, sym, ap, ◌∙◌, subst, ◌≢◌, ◌↔◌,
  ◌⊎◌, inl, inr, Bool, true, false, not, ◌&&◌, ◌||◌, Option, none, some, List, [], ◌∷◌, ◌++◌, map,
  reverse, arith, ltb, leb, eqb, if◌then◌else◌, eqb_iff, Bool-cases, Option-cases, bool_ext,
  Comparable, ◌==◌, nat_comparable, same_refl, same→eq, length, take, drop, keep, keep-append,
  All-append, All-reverse, In, All, All-In, here, there, length-append, elem, distinct, elem-append,
  elem→In, In→elem, In-nil, In-append, In-append_left, In-append_right, In-singleton, In-cases, Str,
  str, same_str, same_str_iff, str_comparable, Map, lookup-delete, lookup-insert, Result, ok, err,
  ◌>>=◌, >>=-eq-ok, Result-cases,
}
use kubetail.Prelude.{lookup, insert, delete, lookup-insert, lookup-delete}
use kubetail.Logs.Records.{Time}

-- The bits of a file system event.
pub record FsEvent : Type 0 where
  pub create : Bool
  pub write : Bool
  pub remove : Bool

abbrev pub is_change : FsEvent → Bool
is_change e = e.create || (e.write || e.remove)

-- 100 milliseconds.
abbrev pub debounce_delay : ℕ
debounce_delay = 100_000_000

-- The configuration, and the time at which the timer will fire.
pub record KubeConfigWatcher (Config : Type 0) : Type 0 where
  pub kube_config : Option Config
  pub debounce_timer : Option Time

-- `Get`, with an empty configuration where none has been loaded.
unfoldable pub get : {Config : Type 0} → Config → KubeConfigWatcher Config → Config
get empty w = elim w.kube_config [ none ↦ empty | some cfg ↦ cfg ]

module _ {Config : Type 0} (load : Time → Result Config) where
  -- The configuration is kept where the files cannot be loaded. Otherwise subscribers are told.
  unfoldable pub reload_config :
      Time → KubeConfigWatcher Config → KubeConfigWatcher Config × List Config
  reload_config now w = elim (load now) [
    | err e ↦ (w, [])
    | ok cfg ↦ (record w { kube_config = some cfg }, cfg ∷ [])
  ]

  -- The timer, at this time.
  unfoldable pub fire : Time → KubeConfigWatcher Config → KubeConfigWatcher Config × List Config
  unfolding reload_config
  fire now w = elim w.debounce_timer [
    | none ↦ (w, [])
    | some at ↦
        if leb at now then reload_config at (record w { debounce_timer = none }) else (w, [])
  ]

  -- An event at a time, before which the timer may have fired.
  unfoldable pub on_event :
      Time × FsEvent → KubeConfigWatcher Config → KubeConfigWatcher Config × List Config
  unfolding fire
  on_event (now, e) w =
      let (w', told) = fire now w in
      (
        (if is_change e then record w' { debounce_timer = some (now + debounce_delay) } else w'),
        told,
      )

  unfoldable pub run :
      List (Time × FsEvent) → KubeConfigWatcher Config → KubeConfigWatcher Config × List Config
  unfolding on_event
  run [] w = (w, [])
  run (e ∷ es) w =
      let (w', told) = on_event e w in let (w'', rest) = run es w' in (w'', told ++ rest)

  -- The watcher once it has loaded its files for the first time.
  unfoldable pub new_kube_config_watcher : Time → KubeConfigWatcher Config
  unfolding reload_config
  new_kube_config_watcher now =
      (reload_config now (record { kube_config = none; debounce_timer = none })).0
