-- ===== src/Workflow/Moves/Open.antt =====
-- When a workflow is cancelled: which tasks `cancel_open` of src/orchestration/workflow.rs closes.
use aegis_runtime.Failure.{EffectCertainty, FailureClass}
use aegis_runtime.Workflow.Types.{TaskState, TaskNode, task_ids}
use aegis_runtime.Workflow.Ledger.{Env, Recorder, state_of, note_failure, failure}
use aegis_runtime.Workflow.Executor.{cancel_as, cancel_one, cancel_open}
use aegis_runtime.Workflow.Moves.Running.{transition-state}
use aegis_runtime.Prelude.{
  String, ◌≡◌, refl, List, [], ◌∷◌, Option, none, some, Bool, true, false, str_eq, eq_iff, contains,
  arith, Bool-cases, inl, inr, if◌then◌else◌,
}

-- Not terminal and not running.
abbrev pub is_open : Option TaskState → Bool
is_open (some TaskState.pending) = true
is_open (some TaskState.ready) = true
is_open (some TaskState.waiting_for_approval) = true
is_open _ = false

module _ (env : Env) where
  -- After `cancel_one` its task is not open, and what was not open before is not open.
  cancel_as-closes :
      (r : Recorder) (t : TaskNode) (certainty : EffectCertainty) (message : String) (j : String)
      → is_open (state_of (cancel_as env r t certainty message) j)
        ≡ (if str_eq t.id j then false else is_open (state_of r j))
  unfolding note_failure
  cancel_as-closes r t certainty message j =
      let f = failure env r t.id FailureClass.cancelled certainty message in
      let moved =
        transition-state env (note_failure env r t.id f) t.id TaskState.cancelled none j in
      elim (Bool-cases (str_eq t.id j)) [
        | inl same ↦ ground (arith, moved, same)
        | inr other ↦ ground (arith, moved, other)
      ]

  closed_at :
      (r : Recorder) (t : TaskNode) (j : String)
      → is_open (state_of r t.id) ≡ false
      → is_open (state_of r j) ≡ (if str_eq t.id j then false else is_open (state_of r j))
  closed_at r t j h = elim (Bool-cases (str_eq t.id j)) [
    | inr other ↦ rw other refl
    | inl same ↦ rw same (rw ((eq_iff t.id j).0 same) at h)
  ]

  cancel_one-closes :
      (r : Recorder) (t : TaskNode) (o : Option TaskState) (j : String)
      → state_of r t.id ≡ o
      → is_open (state_of (cancel_one env r t) j)
        ≡ (if str_eq t.id j then false else is_open (state_of r j))
  unfolding cancel_one
  cancel_one-closes r t (some TaskState.pending) j e =
      rw (e, cancel_one)
        (cancel_as-closes r t EffectCertainty.no_effect "workflow cancelled before start" j)
  cancel_one-closes r t (some TaskState.ready) j e =
      rw (e, cancel_one)
        (cancel_as-closes r t EffectCertainty.no_effect "workflow cancelled before start" j)
  cancel_one-closes r t (some TaskState.waiting_for_approval) j e =
      rw (e, cancel_one)
        (cancel_as-closes r t t.runner.certainty_on_interrupt
          "workflow cancelled while waiting for approval" j)
  cancel_one-closes r t none j e = rw (e, cancel_one) (closed_at r t j (rw e refl))
  cancel_one-closes r t (some TaskState.running) j e =
      rw (e, cancel_one) (closed_at r t j (rw e refl))
  cancel_one-closes r t (some TaskState.completed) j e =
      rw (e, cancel_one) (closed_at r t j (rw e refl))
  cancel_one-closes r t (some TaskState.cancelled) j e =
      rw (e, cancel_one) (closed_at r t j (rw e refl))
  cancel_one-closes r t (some (TaskState.failed f)) j e =
      rw (e, cancel_one) (closed_at r t j (rw e refl))
  cancel_one-closes r t (some (TaskState.skipped p)) j e =
      rw (e, cancel_one) (closed_at r t j (rw e refl))

  cancel_open-keeps :
      (r : Recorder) (ts : List TaskNode) (j : String)
      → is_open (state_of r j) ≡ false
      → is_open (state_of (cancel_open env r ts) j) ≡ false
  unfolding cancel_open
  cancel_open-keeps r [] j h = h
  cancel_open-keeps r (t ∷ ts) j h =
      cancel_open-keeps (cancel_one env r t) ts j
        (ground (arith, cancel_one-closes r t (state_of r t.id) j refl, h))

  pub cancel_open-closes :
      (r : Recorder) (ts : List TaskNode) (j : String)
      → contains (task_ids ts) j ≡ true
      → is_open (state_of (cancel_open env r ts) j) ≡ false
  unfolding cancel_open
  cancel_open-closes r [] j h = absurd (cc)
  cancel_open-closes r (t ∷ ts) j h = elim (Bool-cases (str_eq t.id j)) [
    | inl same ↦
        cancel_open-keeps (cancel_one env r t) ts j
          (ground (arith, cancel_one-closes r t (state_of r t.id) j refl, same))
    | inr other ↦ cancel_open-closes (cancel_one env r t) ts j (ground (arith, other))
  ]
