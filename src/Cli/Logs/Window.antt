-- ===== src/Cli/Logs/Window.antt =====
-- What the flags make of the stream.
use kubetail.Prelude.{
  ok-injective, ℕ, ◌+◌, ◌-◌, ◌<◌, ◌≡◌, refl, sym, ap, ◌∙◌, subst, ◌≢◌, ◌↔◌, ◌⊎◌, inl, inr, Bool,
  true, false, Option, none, some, List, [], ◌∷◌, ◌++◌, arith, Bool-cases, ◌==◌, nat_comparable,
  same→eq, Str, str, str_comparable, Result, ok, err, >>=-eq-ok, Result-cases,
}
use kubetail.Prelude.Int.{ℤ, pos, negsuc}
use kubetail.Strings.{trim_space}
use kubetail.Logs.Records.{Time, LogRecord}
use kubetail.Logs.Fetcher.{FetcherOptions, too_early, too_late}
use kubetail.Logs.Options as Options
use kubetail.Logs.Options.{
  LogOption, StreamMode, StreamConfig, apply_grep, apply_stream, apply_stream_options,
}
use kubetail.Cli.Logs.Flag.{
  Flags, LogsStreamMode, head_mode, tail_mode, all_mode, stream_mode, tail_num, mode_option,
  parse_time_arg, time_window, stream_options,
}

-- Where all four times can be read, --after gives a time a other than the zero time and --before a
-- time b more than a nanosecond after it, the fetcher finds a record neither too early nor too late
-- for the window that the flags give exactly if its time is strictly between a and b, whatever
-- --since and --until say.
pub time_window-strict :
    (parse_duration : Str → Option ℤ) (parse_time : Str → Option Time) (clock : ℕ → Time)
    (flags : Flags) (a b : Time) (window : Time × Time) (opts : FetcherOptions) (r : LogRecord)
    → parse_time_arg parse_duration parse_time (clock 2) flags.after ≡ ok a
    → parse_time_arg parse_duration parse_time (clock 3) flags.before ≡ ok b
    → 0 < a
    → 1 < b
    → time_window parse_duration parse_time clock flags ≡ ok window
    → opts.start_time ≡ window.0
    → opts.stop_time ≡ window.1
    → ((too_early opts r ≡ false) × (too_late opts r ≡ false))
      ↔ ((a < r.timestamp) × (r.timestamp < b))
unfolding time_window
time_window-strict pd pt clock flags a b window opts r ha hb pa pb h hs ht =
    let (s, _, h1) = >>=-eq-ok (parse_time_arg pd pt (clock 0) flags.since) _ h in
    let (u, _, h2) = >>=-eq-ok (parse_time_arg pd pt (clock 1) flags.until) _ h1 in
    let (a', qa, h3) = >>=-eq-ok (parse_time_arg pd pt (clock 2) flags.after) _ h2 in
    let (b', qb, h4) = >>=-eq-ok (parse_time_arg pd pt (clock 3) flags.before) _ h3 in
    let same_a : a ≡ a' = ok-injective _ _ (sym ha ∙ qa) in
    let same_b : b ≡ b' = ok-injective _ _ (sym hb ∙ qb) in
    let w = ok-injective _ _ h4 in
    let low : opts.start_time ≡ a + 1 = hs ∙ sym (ap (λ x. x.0) w) ∙ ground (arith, same_a, pa) in
    let high : opts.stop_time ≡ b - 1 = ht ∙ sym (ap (λ x. x.1) w) ∙ ground (arith, same_b, pb) in
    (
      λ x. (ground (arith, x.0, low), ground (arith, x.1, high, pb)),
      λ x. (ground (arith, x.0, low), ground (arith, x.1, high, pb)),
    )

abbrev mode_of : LogsStreamMode → StreamMode
mode_of head_mode = Options.head
mode_of tail_mode = Options.tail
mode_of all_mode = Options.all

abbrev number_of : Flags → LogsStreamMode → Option ℤ
number_of flags head_mode = some flags.head_val
number_of flags tail_mode = some (tail_num flags)
number_of flags all_mode = none

-- What the flags ask for: --head, then --tail, then --all, in this order; then --since alone asks
-- for the first records; and else the last ones are asked for, none of them if records are followed.
abbrev pub Asks : Flags → StreamMode → Option ℤ → Type 0
Asks flags mode n =
    ((flags.head ≡ true) × (mode ≡ Options.head) × (n ≡ some flags.head_val))
    ⊎ (((flags.head ≡ false)
          × (flags.tail ≡ true)
          × (mode ≡ Options.tail)
          × (n ≡ some flags.tail_val))
        ⊎ (((flags.head ≡ false)
              × (flags.tail ≡ false)
              × (flags.all ≡ true)
              × (mode ≡ Options.all)
              × (n ≡ none))
            ⊎ (((flags.head ≡ false)
                  × (flags.tail ≡ false)
                  × (flags.all ≡ false)
                  × (flags.since ≢ [])
                  × (mode ≡ Options.head)
                  × (n ≡ some flags.head_val))
                ⊎ (((flags.head ≡ false)
                      × (flags.tail ≡ false)
                      × (flags.all ≡ false)
                      × (flags.since ≡ [])
                      × (flags.follow ≡ true)
                      × (mode ≡ Options.tail)
                      × (n ≡ some (pos 0)))
                    ⊎ ((flags.head ≡ false)
                        × (flags.tail ≡ false)
                        × (flags.all ≡ false)
                        × (flags.since ≡ [])
                        × (flags.follow ≡ false)
                        × (mode ≡ Options.tail)
                        × (n ≡ some flags.tail_val))))))

stream_mode-Asks :
    (flags : Flags) → Asks flags (mode_of (stream_mode flags)) (number_of flags (stream_mode flags))
unfolding stream_mode tail_num
stream_mode-Asks flags = elim (Bool-cases flags.head) [
  | inl h ↦ inl (h, ground arith, ground arith)
  | inr h ↦ inr (elim (Bool-cases flags.tail) [
    | inl t ↦ inl (h, t, ground arith, ground arith)
    | inr t ↦ inr (elim (Bool-cases flags.all) [
      | inl a ↦ inl (h, t, a, ground arith, ground arith)
      | inr a ↦ inr (elim (Bool-cases (flags.since == [])) [
        | inl s ↦
            let e : flags.since ≡ [] = same→eq flags.since [] s in
            inr (elim (Bool-cases flags.follow) [
              | inl f ↦ inl (h, t, a, e, f, ground arith, ground arith)
              | inr f ↦ inr (h, t, a, e, f, ground arith, ground arith)
            ])
        | inr s ↦ inl (h, t, a, (λ e. absurd (ground (arith, s, e))), ground arith, ground arith)
      ])
    ])
  ])
]

-- The number, where the mode has one, is the limit of the stream.
abbrev pub Limits : Option ℤ → ℕ → Type 0
Limits n limit = (n ≡ none) ⊎ (n ≡ some (pos limit))

-- The window and the following of one configuration are those of another.
abbrev Keeps : StreamConfig → StreamConfig → Type 0
Keeps t c = (c.since_time ≡ t.since_time) × (c.until_time ≡ t.until_time) × (c.follow ≡ t.follow)

with_head-applied :
    (compile : Str → Result (Str → Bool)) (t c : StreamConfig) (n : ℤ)
    → apply_stream compile t (Options.with_head n) ≡ ok c
    → (c.mode ≡ Options.head) × Keeps t c × Limits (some n) c.max_num
unfolding apply_stream
with_head-applied compile t c (pos n) h =
    subst (λ x. (x.mode ≡ Options.head) × Keeps t x × Limits (some (pos n)) x.max_num)
      (ok-injective _ _ h) (refl, (refl, refl, refl), inr refl)
with_head-applied compile t c (negsuc n) h = absurd (cc)

with_tail-applied :
    (compile : Str → Result (Str → Bool)) (t c : StreamConfig) (n : ℤ)
    → apply_stream compile t (Options.with_tail n) ≡ ok c
    → (c.mode ≡ Options.tail) × Keeps t c × Limits (some n) c.max_num
unfolding apply_stream
with_tail-applied compile t c (pos n) h =
    subst (λ x. (x.mode ≡ Options.tail) × Keeps t x × Limits (some (pos n)) x.max_num)
      (ok-injective _ _ h) (refl, (refl, refl, refl), inr refl)
with_tail-applied compile t c (negsuc n) h = absurd (cc)

mode_option-applied :
    (compile : Str → Result (Str → Bool)) (t c : StreamConfig) (flags : Flags) (m : LogsStreamMode)
    → apply_stream compile t (mode_option flags m) ≡ ok c
    → (c.mode ≡ mode_of m) × Keeps t c × Limits (number_of flags m) c.max_num
unfolding apply_stream
mode_option-applied compile t c flags head_mode h = with_head-applied compile t c flags.head_val h
mode_option-applied compile t c flags tail_mode h = with_tail-applied compile t c (tail_num flags) h
mode_option-applied compile t c flags all_mode h =
    subst (λ x. (x.mode ≡ Options.all) × Keeps t x × Limits none x.max_num) (ok-injective _ _ h)
      (refl, (refl, refl, refl), inl refl)

apply_grep-Keeps :
    (compile : Str → Result (Str → Bool)) (t c : StreamConfig) (pattern : Str)
    → apply_grep compile t pattern ≡ ok c
    → Keeps t c
unfolding apply_grep
apply_grep-Keeps compile t c pattern h = elim (Bool-cases (pattern == [])) [
  | inl e ↦
      let same : ok t ≡ ok c = sym (rw (apply_grep, e) refl) ∙ h in
      subst (Keeps t) (ok-injective t c same) (refl, refl, refl)
  | inr e ↦ elim (Result-cases (compile (Options.grep_pattern pattern))) [
    | inl (m, q) ↦
        let bad : err (str "invalid grep pattern: " ++ m) ≡ ok c =
          sym (rw (apply_grep, e, q) refl) ∙ h in
        absurd (cc)
    | inr (regex, q) ↦
        let made : ok (record t { grep = Options.grep_pattern pattern; grep_regex = some regex })
            ≡ ok c =
          sym (rw (apply_grep, e, q) refl) ∙ h in
        subst (Keeps t) (ok-injective _ c made) (refl, refl, refl)
  ]
]

apply_stream_options-cons :
    (compile : Str → Result (Str → Bool)) (t c : StreamConfig) (o : LogOption) (os : List LogOption)
    → apply_stream_options compile t (o ∷ os) ≡ ok c
    → (u : StreamConfig) × (apply_stream compile t o ≡ ok u)
      × (apply_stream_options compile u os ≡ ok c)
unfolding apply_stream_options
apply_stream_options-cons compile t c o os h = elim (Result-cases (apply_stream compile t o)) [
  | inl (m, q) ↦ let bad : err m ≡ ok c = sym (rw (apply_stream_options, q) refl) ∙ h in absurd (cc)
  | inr (u, q) ↦ (u, q, sym (rw (apply_stream_options, q) refl) ∙ h)
]

abbrev after_grep : Flags → Bool → List LogOption
after_grep flags all_containers =
    Options.with_regions flags.regions
    ∷ Options.with_zones flags.zones
    ∷ Options.with_oses flags.oses
    ∷ Options.with_arches flags.arches
    ∷ Options.with_nodes flags.nodes
    ∷ Options.with_all_containers all_containers
    ∷ mode_option flags (stream_mode flags)
    ∷ []

configured :
    (compile : Str → Result (Str → Bool)) (flags : Flags) (ac : Bool) (t c : StreamConfig)
    → apply_stream_options compile t (Options.with_grep flags.grep ∷ after_grep flags ac) ≡ ok c
    → Keeps t c
      × (c.mode ≡ mode_of (stream_mode flags))
      × Limits (number_of flags (stream_mode flags)) c.max_num
unfolding apply_stream_options apply_stream
configured compile flags ac t c h =
    let (u, q, r) =
      apply_stream_options-cons compile t c (Options.with_grep flags.grep) (after_grep flags ac)
        h in
    let (v, q', r') =
      apply_stream_options-cons compile u c (mode_option flags (stream_mode flags)) [] r in
    let (mode, (s1, u1, f1), n) = mode_option-applied compile u v flags (stream_mode flags) q' in
    let (s2, u2, f2) = apply_grep-Keeps compile t u (trim_space flags.grep) q in
    subst
      (λ x.
        Keeps t x
        × (x.mode ≡ mode_of (stream_mode flags))
        × Limits (number_of flags (stream_mode flags)) x.max_num)
      (ok-injective v c r') ((s1 ∙ s2, u1 ∙ u2, f1 ∙ f2), mode, n)

-- The stream that the options of the flags configure has the window of the flags, follows records if
-- they ask for it, and has the mode that they ask for: the first records with --head, and with
-- --since where none of --head, --tail and --all is given; the last ones with --tail, and where none
-- of the four is given; all with --all. Its limit is the number of that mode, which is then not
-- negative: the value of --head for the first records; for the last ones the value of --tail, or 0
-- if records are followed and --tail is not given.
pub stream_options-configure :
    (parse_duration : Str → Option ℤ) (parse_time : Str → Option Time) (clock : ℕ → Time)
    (compile : Str → Result (Str → Bool)) (flags : Flags) (all_containers : Bool)
    (options : List LogOption) (t c : StreamConfig)
    → stream_options parse_duration parse_time clock flags all_containers ≡ ok options
    → apply_stream_options compile t options ≡ ok c
    → (time_window parse_duration parse_time clock flags ≡ ok (c.since_time, c.until_time))
      × (c.follow ≡ flags.follow)
      × ((n : Option ℤ) × Asks flags c.mode n × Limits n c.max_num)
unfolding stream_options apply_stream_options apply_stream
stream_options-configure pd pt clock compile flags ac options t c h g =
    let (w, qw, h1) = >>=-eq-ok (time_window pd pt clock flags) _ h in
    let ((s, u, f), mode, n) =
      configured compile flags ac
        (record t {
          kube_context = flags.kube_context;
          since_time = w.0;
          until_time = w.1;
          follow = flags.follow;
        })
        c (subst (λ os. apply_stream_options compile t os ≡ ok c) (sym (ok-injective _ _ h1)) g) in
    (
      qw ∙ (λ i. ok (sym s i, sym u i)),
      f,
      (
        number_of flags (stream_mode flags),
        subst (λ m. Asks flags m (number_of flags (stream_mode flags))) (sym mode)
            (stream_mode-Asks flags),
        n,
      ),
    )
