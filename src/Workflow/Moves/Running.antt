-- ===== src/Workflow/Moves/Running.antt =====
-- `cancel_open` and `propagate` of src/orchestration/workflow.rs neither start nor end a task.
use aegis_runtime.Events.{AegisEvent}
use aegis_runtime.Failure.{FailureRecord, EffectCertainty}
use aegis_runtime.Workflow.Types.{TaskState, TaskOutcome, TaskNode}
use aegis_runtime.Workflow.Ledger.{
  Env, Recorder, ResultHandle, Ledger, state_of, recorded, publish_some, transition, note_failure,
}
use aegis_runtime.Workflow.Executor.{
  is_pending, is_running, is_completed, is_bad, cancel_one, cancel_open, propagate_one,
  propagate_pass, propagate, Finish, outcome, timed_out, interrupted, Joined, finished, panicked,
  settle, join,
}
use aegis_runtime.Prelude.{
  ℕ, zero, suc, String, ◌≡◌, refl, ap, ◌∙◌, List, [], ◌∷◌, Option, none, some, true, false, str_eq,
  eq_iff, lookup, lookup-insert, find, all, arith, Bool-cases, Option-cases, inl, inr,
  if◌then◌else◌,
}

publish_some-ledger :
    (env : Env) (r : Recorder) (event : Option AegisEvent) (seq : ℕ)
    → (publish_some env r event seq).ledger ≡ r.ledger
publish_some-ledger env r none seq = refl
publish_some-ledger env r (some e) seq = refl

module _ (env : Env) where
  transition-ledger :
      (r : Recorder) (id : String) (to : TaskState) (result : Option ResultHandle)
      → (transition env r id to result).ledger ≡ recorded env r.ledger id to result
  unfolding transition
  transition-ledger r id to result = publish_some-ledger env _ _ _

  pub transition-state :
      (r : Recorder) (id : String) (to : TaskState) (result : Option ResultHandle) (j : String)
      → state_of (transition env r id to result) j ≡ (if str_eq id j then some to else state_of r j)
  transition-state r id to result j =
      ap (λ (l : Ledger). lookup j l.states) (transition-ledger r id to result)
      ∙ lookup-insert id j to r.states

  -- A task that is not running, and does not start, at every id.
  quiet :
      (r : Recorder) (id : String) (to : TaskState) (f : FailureRecord)
      → is_running (state_of r id) ≡ false
      → is_running (some to) ≡ false
      → (j : String)
      → is_running (state_of (transition env (note_failure env r id f) id to none) j)
        ≡ is_running (state_of r j)
  unfolding note_failure
  quiet r id to f before after j =
      let moved = transition-state (note_failure env r id f) id to none j in
      elim (Bool-cases (str_eq id j)) [
        | inl same ↦
            let at : id ≡ j = (eq_iff id j).0 same in
            let before_j : is_running (state_of r j) ≡ false = rw at at before in
            ground (arith, moved, same, before_j, after)
        | inr other ↦ ground (arith, moved, other)
      ]

  cancel_one-running :
      (r : Recorder) (t : TaskNode) (o : Option TaskState)
      → state_of r t.id ≡ o
      → (j : String) → is_running (state_of (cancel_one env r t) j) ≡ is_running (state_of r j)
  unfolding cancel_one
  cancel_one-running r t (some TaskState.pending) e j =
      rw (e, cancel_one) (quiet r t.id TaskState.cancelled _ (rw e) refl j)
  cancel_one-running r t (some TaskState.ready) e j =
      rw (e, cancel_one) (quiet r t.id TaskState.cancelled _ (rw e) refl j)
  cancel_one-running r t (some TaskState.waiting_for_approval) e j =
      rw (e, cancel_one) (quiet r t.id TaskState.cancelled _ (rw e) refl j)
  cancel_one-running r t _ e j = rw (e, cancel_one)

  pub cancel_open-running :
      (r : Recorder) (ts : List TaskNode) (j : String)
      → is_running (state_of (cancel_open env r ts) j) ≡ is_running (state_of r j)
  unfolding cancel_open
  cancel_open-running r [] j = refl
  cancel_open-running r (t ∷ ts) j =
      cancel_open-running (cancel_one env r t) ts j
      ∙ cancel_one-running r t (state_of r t.id) refl j

  pending-quiet : (o : Option TaskState) → is_pending o ≡ true → is_running o ≡ false
  pending-quiet (some TaskState.pending) e = refl
  pending-quiet _ e = absurd (cc)

  propagate_one-running :
      (r : Recorder) (t : TaskNode) (j : String)
      → is_running (state_of (propagate_one env r t).0 j) ≡ is_running (state_of r j)
  unfolding propagate_one
  propagate_one-running r t j = elim (Bool-cases (is_pending (state_of r t.id))) [
    | inr other ↦ rw (other, propagate_one)
    | inl pending ↦
        let still = pending-quiet (state_of r t.id) pending in
        elim (Option-cases (find (λ d. is_bad (state_of r d)) t.deps)) [
          | inr (bad, found) ↦
              rw (pending, found, propagate_one)
                (quiet r t.id (TaskState.skipped bad) _ still refl j)
          | inl clear ↦ elim (Bool-cases (all (λ d. is_completed (state_of r d)) t.deps)) [
            | inr blocked ↦ rw (pending, clear, blocked, propagate_one)
            | inl free ↦ rw (pending, clear, free, propagate_one) (to_ready still)
          ]
        ]
  ]
    where
      to_ready :
          is_running (state_of r t.id) ≡ false
          → is_running (state_of (transition env r t.id TaskState.ready none) j)
            ≡ is_running (state_of r j)
      to_ready still =
          let moved = transition-state r t.id TaskState.ready none j in
          elim (Bool-cases (str_eq t.id j)) [
            | inl same ↦
                let at : t.id ≡ j = (eq_iff t.id j).0 same in
                let before_j : is_running (state_of r j) ≡ false = rw at at still in
                ground (arith, moved, same, before_j)
            | inr other ↦ ground (arith, moved, other)
          ]

  propagate_pass-running :
      (r : Recorder) (ts : List TaskNode) (j : String)
      → is_running (state_of (propagate_pass env r ts).0 j) ≡ is_running (state_of r j)
  unfolding propagate_pass
  propagate_pass-running r [] j = refl
  propagate_pass-running r (t ∷ ts) j =
      propagate_pass-running (propagate_one env r t).0 ts j ∙ propagate_one-running r t j

  pub propagate-running :
      (fuel : ℕ) (r : Recorder) (ts : List TaskNode) (j : String)
      → is_running (state_of (propagate env fuel r ts) j) ≡ is_running (state_of r j)
  unfolding propagate
  propagate-running zero r ts j = refl
  propagate-running (suc fuel) r ts j = elim (Bool-cases (propagate_pass env r ts).1) [
    | inl changed ↦
        rw (changed, propagate)
          (propagate-running fuel (propagate_pass env r ts).0 ts j ∙ propagate_pass-running r ts j)
    | inr same ↦ rw (same, propagate) (propagate_pass-running r ts j)
  ]

  -- Joining a body ends its task, and touches no other.
  ends :
      (r : Recorder) (id : String) (to : TaskState) (result : Option ResultHandle)
      → is_running (some to) ≡ false
      → (j : String)
      → is_running (state_of (transition env r id to result) j)
        ≡ (if str_eq id j then false else is_running (state_of r j))
  ends r id to result still j = ground (arith, transition-state r id to result j, still)

  ends_noted :
      (r : Recorder) (id : String) (f : FailureRecord) (to : TaskState)
      → is_running (some to) ≡ false
      → (j : String)
      → is_running (state_of (transition env (note_failure env r id f) id to none) j)
        ≡ (if str_eq id j then false else is_running (state_of r j))
  unfolding note_failure
  ends_noted r id f to still j = ends (note_failure env r id f) id to none still j

  settle-running :
      (r : Recorder) (id : String) (f : Finish) (i : EffectCertainty) (j : String)
      → is_running (state_of (settle env r id f i) j)
        ≡ (if str_eq id j then false else is_running (state_of r j))
  unfolding settle
  settle-running r id (outcome (TaskOutcome.completed v)) i j =
      ends r id TaskState.completed _ refl j
  settle-running r id (outcome (TaskOutcome.failed fault)) i j = ends_noted r id _ _ refl j
  settle-running r id (outcome TaskOutcome.approval_pending) i j =
      ends r id TaskState.waiting_for_approval none refl j
  settle-running r id (outcome TaskOutcome.cancelled) i j = ends_noted r id _ _ refl j
  settle-running r id interrupted i j = ends_noted r id _ _ refl j
  settle-running r id timed_out i j = ends_noted r id _ _ refl j

  pub join-running :
      (r : Recorder) (t : TaskNode) (b : Joined) (j : String)
      → is_running (state_of (join env r t b) j)
        ≡ (if str_eq t.id j then false else is_running (state_of r j))
  unfolding join
  join-running r t (finished f) j = settle-running r t.id f t.runner.certainty_on_interrupt j
  join-running r t panicked j = ends_noted r t.id _ _ refl j
