-- ===== src/Logs/Watcher/Calls.antt =====
-- Runs of the watcher: the handlers and the end of `Start` in any order.
use kubetail.Prelude.{
  ℕ, ◌≡◌, inl, inr, Option, none, some, List, [], ◌∷◌, ◌++◌, arith, Option-cases, nat_comparable,
  Str, str_comparable,
}
use kubetail.Collections.SetOf.{SetOf}
use kubetail.Logs.Objects.{Object}
use kubetail.Logs.Sources.{LogSource, source_comparable, Event}
use kubetail.Logs.Watcher.{
  SourceWatcher, handle_workload_add, handle_workload_update, handle_workload_delete,
  handle_node_add, handle_node_update, handle_node_delete, finish_start,
}

-- A call that takes the watcher's lock.
pub data Call : Type 0 where
  workload_added workload_deleted node_added node_deleted : Object → Call
  workload_updated node_updated : Object → Object → Call
  started : Call

pub pair_left :
    {A B : Type 0} {a a' : A} {b b' : B}
    → ◌≡◌ {A = Option (A × B)} (some (a, b)) (some (a', b'))
    → a ≡ a'
pair_left h = cc

module _ {U : SetOf Str} {L : SetOf LogSource} (depth : ℕ) where
  unfoldable pub handle : SourceWatcher U L → Call → Option (SourceWatcher U L × List Event)
  handle w (workload_added obj) = handle_workload_add depth w obj
  handle w (workload_updated old obj) = handle_workload_update depth w obj
  handle w (workload_deleted obj) = handle_workload_delete depth w obj
  handle w (node_added obj) = handle_node_add depth w obj
  handle w (node_updated old obj) = handle_node_update depth w obj
  handle w (node_deleted obj) = handle_node_delete depth w obj
  handle w started = finish_start depth w

  -- The calls in order, with all that they publish.
  unfoldable pub run : SourceWatcher U L → List Call → Option (SourceWatcher U L × List Event)
  run w [] = some (w, [])
  run w (c ∷ cs) = elim (handle w c) [
    | none ↦ none
    | some (w', es) ↦ elim (run w' cs) [ none ↦ none | some (w'', fs) ↦ some (w'', es ++ fs) ]
  ]

  -- The two parts of a run.
  pub run_cons :
      (w w' : SourceWatcher U L) (c : Call) (cs : List Call) (es : List Event)
      → run w (c ∷ cs) ≡ some (w', es)
      → (v : SourceWatcher U L) × (fs gs : List Event) × (handle w c ≡ some (v, fs))
        × (run v cs ≡ some (w', gs))
        × (fs ++ gs ≡ es)
  unfolding run
  run_cons w w' c cs es h = elim (Option-cases (handle w c)) [
    | inl e ↦ absurd (ground arith)
    | inr ((v, fs), e) ↦ elim (Option-cases (run v cs)) [
      | inl e' ↦ absurd (ground arith)
      | inr ((u, gs), e') ↦ (v, fs, gs, e, ground arith, ground arith)
    ]
  ]
