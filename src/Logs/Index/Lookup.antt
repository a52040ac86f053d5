-- ===== src/Logs/Index/Lookup.antt =====
-- `getWorkloads` of modules/shared/logs/source-watcher.go, over the keys of the index.
use kubetail.Prelude.{
  In-nil, In-cases, ◌≡◌, sym, ap, ◌∙◌, subst, ◌↔◌, ◌⊎◌, inl, inr, true, ◌||◌, Option, some, List,
  [], ◌∷◌, reverse, arith, Bool-cases, Option-cases, ◌==◌, nat_comparable, In, here, there, elem→In,
  In→elem, Str, str, same_str_iff, str_comparable, Map,
}
use mathlib.Core.List.{reverse-reverse, reverse-append, append_assoc, reverse-cons}
use kubetail.Prelude.{lookup}
use kubetail.Strings.{cut_at}
use kubetail.Strings.Laws.{Without, Without-reverse, cut_at-append}
use kubetail.Collections.SetOf.{SetOf}
use kubetail.Collections.MapSet.{get, contains_one, contains_one-get, contains_one-get-none}
use kubetail.Logs.WorkloadType.{WorkloadType, to_string, cron_job}
use kubetail.Logs.WorkloadType.Names.{to_string-injective}
use kubetail.Logs.Objects.{ObjectMeta, Object}
use kubetail.Logs.Index.{
  WorkloadIndex, as_workload, generate_data_key, pick_workloads, get_workloads,
}

no_colon : (t : WorkloadType) → Without b':' (to_string t)
unfolding to_string
no_colon cron_job = ground arith
no_colon _ = ground arith

key-reverse :
    (ns : Str) (t : WorkloadType)
    → cut_at b':' (reverse (generate_data_key ns t)) ≡ some (reverse (to_string t), reverse ns)
unfolding generate_data_key
key-reverse ns t =
    rw (reverse-append ns (b':' ∷ to_string t), reverse-cons b':' (to_string t), append_assoc)
      (cut_at-append b':' (reverse (to_string t)) (reverse ns)
        (Without-reverse b':' (to_string t) (no_colon t)))

reverse-injective : (s t : Str) → reverse s ≡ reverse t → s ≡ t
reverse-injective s t e = sym (reverse-reverse s) ∙ ap reverse e ∙ reverse-reverse t

-- Two keys agree only for the same namespace and the same type, colons in a namespace or not.
pub generate_data_key-injective :
    (ns ns' : Str) (t t' : WorkloadType)
    → generate_data_key ns t ≡ generate_data_key ns' t'
    → (ns ≡ ns') × (t ≡ t')
generate_data_key-injective ns ns' t t' e =
    let parts : ◌≡◌ {A = Option (Str × Str)} (some (reverse (to_string t), reverse ns))
        (some (reverse (to_string t'), reverse ns')) =
      sym (key-reverse ns t) ∙ ap (λ k. cut_at b':' (reverse k)) e ∙ key-reverse ns' t' in
    (
      reverse-injective ns ns' (cc),
      to_string-injective t t' (reverse-injective (to_string t) (to_string t') (cc)),
    )

abbrev pub Matches : Str → ObjectMeta → Type 0
Matches name_filter m = (name_filter ≡ str "*") ⊎ (m.name ≡ name_filter)

-- The object that a listed UID stands for: stored, a workload, and of the wanted name.
abbrev Picked : Map Str Object → Str → List Str → ObjectMeta → Type 0
Picked dm f ids m =
    (id : Str) × (obj : Object) × In id ids
    × (lookup id dm ≡ some obj)
    × (as_workload obj ≡ some m)
    × Matches f m

Picked-there :
    (dm : Map Str Object) (f : Str) (ids : List Str) (m : ObjectMeta) (id : Str)
    → Picked dm f ids m
    → Picked dm f (id ∷ ids) m
Picked-there dm f ids m id (id', obj, k, p, q, r) = (id', obj, there k, p, q, r)

Matches-test : (f : Str) (m : ObjectMeta) → (((f == str "*") || (m.name == f)) ≡ true) ↔ Matches f m
Matches-test f m = (
  (λ h. ground (arith, same_str_iff f (str "*"), same_str_iff m.name f)),
  (λ h. ground (arith, same_str_iff f (str "*"), same_str_iff m.name f)),
)

-- The loop keeps the objects that are stored, are workloads, and match the name.
pick_sound :
    (dm : Map Str Object) (f : Str) (ids : List Str) (m : ObjectMeta)
    → In m (pick_workloads dm f ids)
    → Picked dm f ids m
unfolding pick_workloads
pick_sound dm f [] m i = elim i [ ]
pick_sound dm f (id ∷ ids) m i = elim (Option-cases (lookup id dm)) [
  | inl e ↦
      Picked-there dm f ids m id (pick_sound dm f ids m (subst (In m) (rw (e, pick_workloads)) i))
  | inr (obj, e) ↦ elim (Option-cases (as_workload obj)) [
    | inl e' ↦
        Picked-there dm f ids m id
          (pick_sound dm f ids m (subst (In m) (rw (e, e', pick_workloads)) i))
    | inr (m', e') ↦ elim (Bool-cases ((f == str "*") || (m'.name == f))) [
      | inl good ↦ elim (In-cases (subst (In m) (rw (e, e', good, pick_workloads)) i)) [
        | inl same ↦ (
          id,
          obj,
          here,
          e,
          e' ∙ ap (λ x. some x) same,
          subst (Matches f) same ((Matches-test f m').0 good),
        )
        | inr k ↦ Picked-there dm f ids m id (pick_sound dm f ids m k)
      ]
      | inr bad ↦
          Picked-there dm f ids m id
            (pick_sound dm f ids m (subst (In m) (rw (e, e', bad, pick_workloads)) i))
    ]
  ]
]

pick_complete :
    (dm : Map Str Object) (f : Str) (id : Str) (obj : Object) (m : ObjectMeta) (ids : List Str)
    → In id ids
    → lookup id dm ≡ some obj
    → as_workload obj ≡ some m
    → Matches f m
    → In m (pick_workloads dm f ids)
unfolding pick_workloads
pick_complete dm f id obj m _ (here {xs = ids}) p q r =
    rw (p, q, (Matches-test f m).1 r, pick_workloads) here
pick_complete dm f id obj m _ (there {x = z} {xs = ids} i) p q r =
    let ih = pick_complete dm f id obj m ids i p q r in
    elim (Option-cases (lookup z dm)) [
      | inl e ↦ rw (e, pick_workloads) ih
      | inr (obj', e) ↦ elim (Option-cases (as_workload obj')) [
        | inl e' ↦ rw (e, e', pick_workloads) ih
        | inr (m', e') ↦ elim (Bool-cases ((f == str "*") || (m'.name == f))) [
          | inl good ↦ rw (e, e', good, pick_workloads) (there ih)
          | inr bad ↦ rw (e, e', bad, pick_workloads) ih
        ]
      ]
    ]

module _ {S : SetOf Str} (wi : WorkloadIndex S) (ns : Str) (t : WorkloadType) (f : Str) where
  -- The result lists exactly the stored workloads of the namespace and type that match the name.
  pub get_workloads_exact :
      (m : ObjectMeta)
      → In m (get_workloads wi ns t f) ↔ (
          (id : Str) × (obj : Object) × (contains_one wi.list_map (generate_data_key ns t) id
            ≡ true)
          × (lookup id wi.data_map ≡ some obj)
          × (as_workload obj ≡ some m)
          × Matches f m)
  unfolding get_workloads
  get_workloads_exact m = elim (Option-cases (get wi.list_map (generate_data_key ns t))) [
    | inl e ↦ (
      (λ i. absurd (In-nil (subst (In m) (rw (e, get_workloads)) i))),
      (λ (id, obj, c, p, q, r).
          absurd (ground (arith, contains_one-get-none wi.list_map (generate_data_key ns t) id e))),
    )
    | inr (s, e) ↦ (
      (λ i.
          let (id, obj, k, p, q, r) =
            pick_sound wi.data_map f (S.to_slice s) m (subst (In m) (rw (e, get_workloads)) i) in
          (
            id,
            obj,
            contains_one-get wi.list_map _ id s e ∙ sym (S.elem-to_slice s id) ∙ In→elem k,
            p,
            q,
            r,
          )),
      (λ (id, obj, c, p, q, r).
          rw (e, get_workloads)
            (pick_complete wi.data_map f id obj m (S.to_slice s)
              (elem→In id (S.to_slice s)
                (S.elem-to_slice s id ∙ sym (contains_one-get wi.list_map _ id s e) ∙ c))
              p q r)),
    )
  ]
