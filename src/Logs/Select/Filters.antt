-- ===== src/Logs/Select/Filters.antt =====
-- What the filters let through, and what the loops over containers and pods add.
use kubetail.Prelude.{
  ℕ, ◌≡◌, refl, ◌≢◌, ◌↔◌, ◌⊎◌, inl, inr, true, false, some, List, [], ◌∷◌, arith, Option-cases,
  ◌==◌, nat_comparable, In, elem→In, In→elem, Str, str, same_str_iff, str_comparable, Map,
}
use kubetail.Prelude.{lookup}
use kubetail.Logs.Objects.{ContainerStatus, Pod, Node}
use kubetail.Logs.Sources.{LogSource, source_comparable}
use kubetail.Logs.Select.{
  WatcherConfig, passes, label, region_label, zone_label, container_key, node_passes, wants, select,
  source_of,
}

-- An empty filter allows everything, any other only what it lists.
abbrev pub Allowed : List Str → Str → Type 0
Allowed filter value = (filter ≡ []) ⊎ In value filter

pub passes_iff : (filter : List Str) (v : Str) → (passes filter v ≡ true) ↔ Allowed filter v
unfolding passes
passes_iff [] v = ((λ h. inl refl), (λ h. refl))
passes_iff (f ∷ fs) v =
    ((λ h. inr (elem→In v (f ∷ fs) h)), (λ h. elim h [ inl e ↦ absurd (cc) | inr i ↦ In→elem i ]))

-- The conditions under which a container of a pod is a source.
pub record IsSelected (c : WatcherConfig) (nodes : Map Str Node) (want_name : Str) (pod : Pod)
    (n : ℕ) (status : ContainerStatus) (s : LogSource) : Type 0 where
  pub node : Node
  pub on_node : lookup pod.node_name nodes ≡ some node
  pub has_id : status.container_id ≢ []
  pub container : Allowed c.containers (container_key pod status)
  pub node_name : Allowed c.nodes node.meta.name
  pub region : Allowed c.regions (label node region_label)
  pub zone : Allowed c.zones (label node zone_label)
  pub os : Allowed c.oses node.operating_system
  pub arch : Allowed c.arches node.architecture
  pub named : (want_name ≡ str "*") ⊎ (want_name ≡ status.name) ⊎ ((want_name ≡ []) × (n ≡ 0))
  pub is_source : s ≡ source_of pod status node

module _ (c : WatcherConfig) (nodes : Map Str Node) (want_name : Str) (pod : Pod) (n : ℕ)
    (status : ContainerStatus) (s : LogSource) where
  wants_iff :
      (wants want_name n status ≡ true)
      ↔ ((want_name ≡ str "*") ⊎ (want_name ≡ status.name) ⊎ ((want_name ≡ []) × (n ≡ 0)))
  unfolding wants
  wants_iff = (
    (λ h. ground (
      arith,
      same_str_iff want_name (str "*"),
      same_str_iff want_name status.name,
      same_str_iff want_name [],
    )),
    (λ h. ground (
      arith,
      same_str_iff want_name (str "*"),
      same_str_iff want_name status.name,
      same_str_iff want_name [],
    )),
  )

  node_passes_parts :
      (node : Node)
      → (node_passes c node ≡ true) ↔ (
          (passes c.nodes node.meta.name ≡ true)
          × (passes c.regions (label node region_label) ≡ true)
          × (passes c.zones (label node zone_label) ≡ true)
          × (passes c.oses node.operating_system ≡ true)
          × (passes c.arches node.architecture ≡ true))
  unfolding node_passes
  node_passes_parts node = ((λ h. ground arith), (λ h. ground arith))

  -- The tests of the round, all of which a source has passed.
  select_tests : (select c nodes want_name pod n status ≡ some s) ↔ (
      (node : Node) × (lookup pod.node_name nodes ≡ some node)
      × ((status.container_id == []) ≡ false)
      × (passes c.containers (container_key pod status) ≡ true)
      × (node_passes c node ≡ true)
      × (wants want_name n status ≡ true)
      × (s ≡ source_of pod status node))
  unfolding select
  select_tests = (
    (λ h. elim (Option-cases (lookup pod.node_name nodes)) [
      | inl e ↦ absurd (ground arith)
      | inr (node, e) ↦
          (node, e, ground arith, ground arith, ground arith, ground arith, ground arith)
    ]),
    (λ (node, e, a, b, d, f, g). rw (e, select) (ground arith)),
  )

  -- A container of a pod becomes a source exactly if it has an ID, its node is known, all filters
  -- let it through, and it is the one that the path names: any for `*`, else the one of that name,
  -- or the first where the path names none.
  pub select_iff :
      (select c nodes want_name pod n status ≡ some s) ↔ IsSelected c nodes want_name pod n status s
  select_iff = (
    (λ h.
        let (node, e, id, cont, np, w, eq) = select_tests.0 h in
        let (p1, p2, p3, p4, p5) = (node_passes_parts node).0 np in
        record {
          node = node;
          on_node = e;
          has_id = λ z. ground (arith, same_str_iff status.container_id []);
          container = (passes_iff c.containers _).0 cont;
          node_name = (passes_iff c.nodes _).0 p1;
          region = (passes_iff c.regions _).0 p2;
          zone = (passes_iff c.zones _).0 p3;
          os = (passes_iff c.oses _).0 p4;
          arch = (passes_iff c.arches _).0 p5;
          named = wants_iff.0 w;
          is_source = eq;
        }),
    (λ h. select_tests.1 (
      h.node,
      h.on_node,
      ground (arith, same_str_iff status.container_id [], h.has_id),
      (passes_iff c.containers _).1 h.container,
      (node_passes_parts h.node).1 (
        (passes_iff c.nodes _).1 h.node_name,
        (passes_iff c.regions _).1 h.region,
        (passes_iff c.zones _).1 h.zone,
        (passes_iff c.oses _).1 h.os,
        (passes_iff c.arches _).1 h.arch,
      ),
      wants_iff.1 h.named,
      h.is_source,
    )),
  )
