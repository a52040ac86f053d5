-- ===== src/Cli/Logs/Table/Widths.antt =====
-- The widths of the cells of a row against those of the columns.
use kubetail.Prelude.{
  ℕ, zero, suc, ◌≤◌, ◌<◌, ◌≡◌, refl, ap, subst, inl, inr, Bool, true, false, List, [], ◌∷◌, ◌++◌,
  arith, nat_comparable, length, In, In-nil, In-cases, Str, str, str_comparable,
}
use kubetail.Logs.Sources.{LogSource}
use kubetail.Logs.Records.{Time, LogRecord}
use kubetail.Cli.Logs.Table.{
  of_headers, Time, widths_of, or_default, row_cells, headers_of, Shown, ◌when◌, Lengths,
  add_source, max_lengths,
}
use kubetail.Cli.TableWriter.{nth}

-- One cell for each width, none longer than it, and one cell more.
unfoldable pub FitsAll : List Str → List ℕ → Type 0
FitsAll [] ws = ⊥
FitsAll (c ∷ []) [] = Unit
FitsAll (c ∷ (d ∷ cs)) [] = ⊥
FitsAll (c ∷ []) (w ∷ ws) = ⊥
FitsAll (c ∷ (d ∷ cs)) (w ∷ ws) = (length c ≤ w) × FitsAll (d ∷ cs) ws

FitsAll-cons :
    (c : Str) (cs : List Str) (w : ℕ) (ws : List ℕ)
    → length c ≤ w
    → FitsAll cs ws
    → FitsAll (c ∷ cs) (w ∷ ws)
unfolding FitsAll
FitsAll-cons c [] w ws h f = f
FitsAll-cons c (d ∷ cs) w ws h f = (h, f)

FitsAll-when :
    (c : Str) (w : ℕ) (b : Bool) (cs : List Str) (ws : List ℕ)
    → length c ≤ w
    → FitsAll cs ws
    → FitsAll ((c when b) ++ cs) ((w when b) ++ ws)
FitsAll-when c w true cs ws h f = FitsAll-cons c cs w ws h f
FitsAll-when c w false cs ws h f = f

pub FitsAll-length : (cs : List Str) (ws : List ℕ) → FitsAll cs ws → length cs ≡ suc (length ws)
unfolding FitsAll
FitsAll-length [] ws f = absurd f
FitsAll-length (c ∷ []) [] f = refl
FitsAll-length (c ∷ (d ∷ cs)) [] f = absurd f
FitsAll-length (c ∷ []) (w ∷ ws) f = absurd f
FitsAll-length (c ∷ (d ∷ cs)) (w ∷ ws) f = ap suc (FitsAll-length (d ∷ cs) ws f.1)

pub FitsAll-nth :
    (cs : List Str) (ws : List ℕ) (j : ℕ)
    → FitsAll cs ws
    → suc j < length cs
    → length (nth [] j cs) ≤ nth 0 j ws
unfolding FitsAll nth
FitsAll-nth [] ws j f l = absurd f
FitsAll-nth (c ∷ []) [] j f l = absurd (omega arith)
FitsAll-nth (c ∷ (d ∷ cs)) [] j f l = absurd f
FitsAll-nth (c ∷ []) (w ∷ ws) j f l = absurd f
FitsAll-nth (c ∷ (d ∷ cs)) (w ∷ ws) zero f l = f.0
FitsAll-nth (c ∷ (d ∷ cs)) (w ∷ ws) (suc j) f l = FitsAll-nth (d ∷ cs) ws j f.1 (omega arith)

-- The first five lengths are not less, one by one.
unfoldable pub AtLeast : Lengths → Lengths → Type 0
AtLeast l m =
    (l.node ≤ m.node)
    × (l.region ≤ m.region)
    × (l.zone ≤ m.zone)
    × (l.os ≤ m.os)
    × (l.arch ≤ m.arch)

-- And no part of a source is longer.
unfoldable pub Covers : LogSource → Lengths → Type 0
Covers s m =
    (length s.metadata.node ≤ m.node)
    × (length s.metadata.region ≤ m.region)
    × (length s.metadata.zone ≤ m.zone)
    × (length s.metadata.os ≤ m.os)
    × (length s.metadata.arch ≤ m.arch)

pub max_lengths-AtLeast : (l : Lengths) (ss : List LogSource) → AtLeast l (max_lengths l ss)
unfolding max_lengths add_source AtLeast
max_lengths-AtLeast l [] = omega arith
max_lengths-AtLeast l (s ∷ ss) =
    let (a, b, c, d, e) = max_lengths-AtLeast (add_source l s) ss in
    (omega arith, omega arith, omega arith, omega arith, omega arith)

pub max_lengths-Covers :
    (l : Lengths) (ss : List LogSource) (s : LogSource) → In s ss → Covers s (max_lengths l ss)
unfolding max_lengths add_source Covers AtLeast
max_lengths-Covers l [] s i = absurd (In-nil i)
max_lengths-Covers l (t ∷ ss) s i = elim (In-cases i) [
  | inl q ↦
      subst (λ x. Covers x (max_lengths (add_source l t) ss)) q
        (let (a, b, c, d, e) = max_lengths-AtLeast (add_source l t) ss in
          (omega arith, omega arith, omega arith, omega arith, omega arith))
  | inr j ↦ max_lengths-Covers (add_source l t) ss s j
]

length-or_default :
    (val : Str) (w : ℕ) → length val ≤ w → 1 ≤ w → length (or_default val (str "-")) ≤ w
length-or_default val w h p = ground (arith, h, p)

-- The columns whose widths are those of the longest cells.
unfoldable pub IsMeasured : Shown → Type 0
IsMeasured s = (s.dot ≡ false) × (s.namespace ≡ false) × (s.pod ≡ false) × (s.container ≡ false)

pub headers_of-fit :
    (s : Shown) (l : Lengths)
    → IsMeasured s
    → AtLeast of_headers l
    → FitsAll (headers_of s) (widths_of s l)
unfolding headers_of widths_of IsMeasured AtLeast FitsAll
headers_of-fit s l (d, n, p, c) (h1, h2, h3, h4, h5) =
    rw (d, n, p, c)
      (FitsAll-when _ 30 s.ts _ _ (omega arith) (
        FitsAll-when _ l.node s.node _ _ (omega arith) (
          FitsAll-when _ l.region s.region _ _ (omega arith) (
            FitsAll-when _ l.zone s.zone _ _ (omega arith) (
              FitsAll-when _ l.os s.os _ _ (omega arith)
                (FitsAll-when _ l.arch s.arch (str "MESSAGE" ∷ []) [] (omega arith) tt))))))

pub row_cells-fit :
    (format_time : Time → Str) (s : Shown) (l : Lengths) (r : LogRecord)
    → IsMeasured s
    → AtLeast of_headers l
    → Covers r.source l
    → length (format_time r.timestamp) ≤ 30
    → FitsAll (row_cells format_time s r) (widths_of s l)
unfolding row_cells widths_of IsMeasured AtLeast Covers FitsAll
row_cells-fit format_time s l r (d, n, p, c) (h1, h2, h3, h4, h5) (c1, c2, c3, c4, c5) t =
    rw (d, n, p, c)
      (FitsAll-when _ 30 s.ts _ _ t (
        FitsAll-when _ l.node s.node _ _ c1 (
          FitsAll-when _ l.region s.region _ _ (length-or_default _ _ c2 (omega arith)) (
            FitsAll-when _ l.zone s.zone _ _ (length-or_default _ _ c3 (omega arith)) (
              FitsAll-when _ l.os s.os _ _ (length-or_default _ _ c4 (omega arith)) (
                FitsAll-when _ l.arch s.arch (r.message ∷ []) []
                  (length-or_default _ _ c5 (omega arith)) tt))))))
