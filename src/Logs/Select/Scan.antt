-- ===== src/Logs/Select/Scan.antt =====
-- What the loops over the containers of a pod and over the pods of a workload add.
use kubetail.Prelude.{
  ℕ, suc, ◌≡◌, refl, sym, subst, ◌↔◌, ◌⊎◌, inl, inr, true, Option, none, some, List, [], ◌∷◌, ◌++◌,
  arith, nat_comparable, In, here, there, In-nil, In-cases, Str, str_comparable, Map,
}
use mathlib.Core.Path.{subst₂}
use kubetail.Prelude.{iff_add}
use kubetail.Collections.SetOf.{SetOf}
use kubetail.Logs.Objects.{ContainerStatus, Pod, Node}
use kubetail.Logs.Sources.{LogSource, source_comparable, same_source_iff}
use kubetail.Logs.Select.{WatcherConfig, select, scan_statuses, scan_pods}

-- The element at a position, where counting begins at a given number.
pub data At {A : Type 0} (a : A) (n : ℕ) : ℕ → List A → Type 0 where
  now : {xs : List A} → At a n n (a ∷ xs)
  later : {k : ℕ} {x : A} {xs : List A} → At a n (suc k) xs → At a n k (x ∷ xs)

At-nil : {A : Type 0} {a : A} {n k : ℕ} → At a n k [] → ⊥
At-nil i = elim i [ ]

At-cases :
    {A : Type 0} {a x : A} {n k : ℕ} {xs : List A}
    → At a n k (x ∷ xs)
    → ((n ≡ k) × (a ≡ x)) ⊎ At a n (suc k) xs
At-cases now = inl (refl, refl)
At-cases (later i) = inr i

module _ (L : SetOf LogSource) (c : WatcherConfig) (nodes : Map Str Node) (want_name : Str) where
  -- The containers that `select` takes from a pod, and from pods.
  abbrev pub FromPod : Pod → ℕ → List ContainerStatus → LogSource → Type 0
  FromPod pod k l s =
      (n : ℕ) × (status : ContainerStatus) × At status n k l
      × (select c nodes want_name pod n status ≡ some s)

  FromPod-cons :
      (pod : Pod) (k : ℕ) (st : ContainerStatus) (l : List ContainerStatus) (s : LogSource)
      → FromPod pod k (st ∷ l) s
        ↔ ((select c nodes want_name pod k st ≡ some s) ⊎ FromPod pod (suc k) l s)
  FromPod-cons pod k st l s = (
    (λ (n, status, i, e). elim (At-cases i) [
      | inl (same, first) ↦
          inl (subst₂ (λ m x. select c nodes want_name pod m x ≡ some s) same first e)
      | inr j ↦ inr (n, status, j, e)
    ]),
    (λ h. elim h [ inl e ↦ (k, st, now, e) | inr (n, status, i, e) ↦ (n, status, later i, e) ]),
  )

  -- A source that a round may have found is added.
  added_if_exact :
      (o : Option LogSource) (want : L.Set) (s : LogSource)
      → (L.contains (elim o [ none ↦ want | some x ↦ L.add want x ]) s ≡ true)
        ↔ ((L.contains want s ≡ true) ⊎ (o ≡ some s))
  added_if_exact none want s = ((λ h. inl h), (λ h. elim h [ inl e ↦ e | inr e ↦ absurd (cc) ]))
  added_if_exact (some x) want s = (
    (λ h. ground (arith, L.contains-add want x s, same_source_iff x s)),
    (λ h. ground (arith, L.contains-add want x s, same_source_iff x s)),
  )

  scan_statuses_exact :
      (pod : Pod) (k : ℕ) (l : List ContainerStatus) (want : L.Set) (s : LogSource)
      → (L.contains (scan_statuses L c nodes want_name pod k l want) s ≡ true)
        ↔ ((L.contains want s ≡ true) ⊎ FromPod pod k l s)
  unfolding scan_statuses
  scan_statuses_exact pod k [] want s =
      ((λ h. inl h), (λ h. elim h [ inl e ↦ e | inr f ↦ absurd (At-nil f.2) ]))
  scan_statuses_exact pod k (st ∷ l) want s =
      iff_add (scan_statuses_exact pod (suc k) l _ s)
        (added_if_exact (select c nodes want_name pod k st) want s) (FromPod-cons pod k st l s)

  -- The containers that are taken from a list of pods.
  abbrev pub FromPods : List Pod → LogSource → Type 0
  FromPods pods s =
      (pod : Pod) × In pod pods
      × FromPod pod 0 (pod.container_statuses ++ pod.init_container_statuses) s

  FromPods-cons :
      (pod : Pod) (pods : List Pod) (s : LogSource)
      → FromPods (pod ∷ pods) s ↔ (
          FromPod pod 0 (pod.container_statuses ++ pod.init_container_statuses) s ⊎ FromPods pods s)
  FromPods-cons pod pods s = (
    (λ (p, i, f). elim (In-cases i) [
      | inl e ↦
          inl (
            subst (λ q. FromPod q 0 (q.container_statuses ++ q.init_container_statuses) s) (sym e)
              f)
      | inr j ↦ inr (p, j, f)
    ]),
    (λ h. elim h [ inl f ↦ (pod, here, f) | inr (p, i, f) ↦ (p, there i, f) ]),
  )

  -- Going over pods adds exactly what is selected from one of their containers, init containers
  -- counted behind the others.
  pub scan_pods_exact :
      (pods : List Pod) (want : L.Set) (s : LogSource)
      → (L.contains (scan_pods L c nodes want_name pods want) s ≡ true)
        ↔ ((L.contains want s ≡ true) ⊎ FromPods pods s)
  unfolding scan_pods
  scan_pods_exact [] want s =
      ((λ h. inl h), (λ h. elim h [ inl e ↦ e | inr (p, i, f) ↦ absurd (In-nil i) ]))
  scan_pods_exact (pod ∷ pods) want s =
      iff_add (scan_pods_exact pods _ s)
        (scan_statuses_exact pod 0 (pod.container_statuses ++ pod.init_container_statuses) want s)
        (FromPods-cons pod pods s)
