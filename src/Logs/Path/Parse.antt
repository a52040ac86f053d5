-- ===== src/Logs/Path/Parse.antt =====
-- What `parse_path` accepts, and what it reads.
use mathlib.Core.List.{append_assoc}
use kubetail.Prelude.{
  ◌⊎◌, inl, inr, false, same_str_iff, ◌≡◌, ◌≢◌, true, ok, refl, [], ◌∷◌, ◌++◌, Str, List, Bool,
  arith, ◌↔◌, All, sym, ap, ◌∙◌,
}
use kubetail.Strings.{trim, split, join}
use kubetail.Strings.Laws.{
  Without, Without-append, cut_at-append, split-append, split_none, trim_kept,
}
use kubetail.Logs.WorkloadType.{WorkloadType, unknown}
use kubetail.Logs.Path.{ParsedPath, parse_path, parse_parts, finish, namespace_parts, is_unknown}

pub is_unknown_iff : (w : WorkloadType) → (is_unknown w ≡ true) ↔ (w ≡ unknown)
is_unknown_iff w = ground arith

finish_ok :
    (path : Str) (all : Bool) (out pp : ParsedPath)
    → finish path all out ≡ ok pp
    → (pp.workload_type ≢ unknown) × ((all ≡ false) ⊎ (pp.container_name ≢ []))
unfolding finish
finish_ok path true out pp h = (
  ground (arith, is_unknown_iff out.workload_type),
  inr (ground (arith, is_unknown_iff out.workload_type, same_str_iff out.container_name [])),
)
finish_ok path false out pp h = (ground (arith, is_unknown_iff out.workload_type), inl refl)

-- Whatever the text, a path that is accepted has a known workload type, and where all containers
-- are asked for it names a container or all of them.
pub parse_path_ok :
    (path ns : Str) (all : Bool) (pp : ParsedPath)
    → parse_path path ns all ≡ ok pp
    → (pp.workload_type ≢ unknown) × ((all ≡ false) ⊎ (pp.container_name ≢ []))
unfolding parse_path
parse_path_ok path ns all pp h = finish_ok path all _ pp h

append-ne-nil : (s : Str) → s ++ b':' ∷ [] ≢ []
append-ne-nil [] e = cc
append-ne-nil (x ∷ s) e = cc

-- The path `namespace:parts[0]/…/parts[n]`.
abbrev pub path_of : Str → List Str → Str
path_of ns parts = ns ++ (b':' ∷ join b'/' parts)

split-join :
    (p : Str) (ps : List Str)
    → All (Without b'/') (p ∷ ps)
    → split b'/' (join b'/' (p ∷ ps)) ≡ p ∷ ps
unfolding join
split-join p [] h = split_none b'/' p h.0
split-join p (q ∷ ps) h =
    split-append b'/' p (join b'/' (q ∷ ps)) h.0 ∙ ap (◌∷◌ p) (split-join q ps h.1)

join_ends : (ps : List Str) (last : Str) → (m : Str) × (join b'/' (ps ++ last ∷ []) ≡ m ++ last)
unfolding join
join_ends [] last = ([], refl)
join_ends (p ∷ []) last = (p ++ b'/' ∷ [], sym (append_assoc p (b'/' ∷ []) last))
join_ends (p ∷ q ∷ ps) last =
    let (m, e) = join_ends (q ∷ ps) last in
    (p ++ (b'/' ∷ m), ap (λ t. p ++ (b'/' ∷ t)) e ∙ sym (append_assoc p (b'/' ∷ m) last))

-- Trimming does nothing to such a path if its last part has text.
trim-path_of :
    (ns : Str) (ps : List Str) (last : Str)
    → Without b'/' ns
    → last ≢ []
    → Without b'/' last
    → trim b'/' (path_of ns (ps ++ last ∷ [])) ≡ path_of ns (ps ++ last ∷ [])
trim-path_of ns ps last pn nl pl =
    let (m, e) = join_ends ps last in
    rw (ap (λ t. ns ++ (b':' ∷ t)) e ∙ sym (append_assoc ns (b':' ∷ []) (m ++ last))) (
      trim_kept b'/' (ns ++ b':' ∷ []) m last (append-ne-nil ns)
        (Without-append b'/' ns (b':' ∷ []) pn (refl, tt)) nl pl)

split-join_ends :
    (ps : List Str) (last : Str)
    → All (Without b'/') (ps ++ last ∷ [])
    → split b'/' (join b'/' (ps ++ last ∷ [])) ≡ ps ++ last ∷ []
split-join_ends [] last h = split-join last [] h
split-join_ends (p ∷ ps) last h = split-join p (ps ++ last ∷ []) h

All-last : (ps : List Str) (last : Str) → All (Without b'/') (ps ++ last ∷ []) → Without b'/' last
All-last [] last h = h.0
All-last (p ∷ ps) last h = All-last ps last h.1

pub parse-path_of :
    (ns d : Str) (all : Bool) (ps : List Str) (last : Str)
    → Without b'/' ns
    → Without b':' ns
    → All (Without b'/') (ps ++ last ∷ [])
    → last ≢ []
    → parse_path (path_of ns (ps ++ last ∷ [])) d all
      ≡ finish (path_of ns (ps ++ last ∷ [])) all (parse_parts ns (ps ++ last ∷ []))
parse-path_of ns d all ps last pn cn h nl =
    let text = join b'/' (ps ++ last ∷ []) in
    unfold parse_path in
    rw (trim-path_of ns ps last pn nl (All-last ps last h))
      (rw (cut_at-append b':' ns text cn, namespace_parts) (rw (split-join_ends ps last h)))
