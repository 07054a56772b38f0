-- ===== src/Workflow/Moves/Operations.antt =====
-- Every operation of the executor in src/orchestration/workflow.rs is a sequence of allowed moves.
use aegis_runtime.Failure.{FailureRecord, EffectCertainty}
use aegis_runtime.Workflow.Types.{TaskState, TaskOutcome, TaskNode}
use aegis_runtime.Workflow.Ledger.{Env, Recorder, state_of, transition, note_failure}
use aegis_runtime.Workflow.Executor.{
  Finish, finished, panicked, Joined, outcome, timed_out, interrupted, is_pending, is_completed,
  is_bad, cancel_one, cancel_open, propagate_one, propagate_pass, propagate, settle, join,
}
use aegis_runtime.Workflow.Moves.{
  unblock, skip, complete, suspend, fail, stop, cancel_pending, cancel_ready, cancel_waiting,
  as_failed, as_skipped, as_cancelled, at_ready, at_waiting, at_completed, Move, Moves, stay,
  Moves-trans, Moves-one, transition-Move, note_failure-Move,
}
use aegis_runtime.Prelude.{
  ℕ, zero, suc, String, ◌≡◌, refl, List, [], ◌∷◌, Option, none, some, Bool, true, In, All, here,
  there, arith, find, find-In, all, Option-cases, Bool-cases, inl, inr,
}

-- The states of a recorder at one id.
State-cases : (o : Option TaskState) → (is_pending o ≡ true → o ≡ some TaskState.pending)
State-cases (some TaskState.pending) e = refl
State-cases _ e = absurd (cc)

all-All : (p : String → Bool) (ds : List String) → all p ds ≡ true → All (λ d. p d ≡ true) ds
all-All p [] e = tt
all-All p (d ∷ ds) e = (ground arith, all-All p ds (ground arith))

module _ (env : Env) (tasks : List TaskNode) where
  module _ (r : Recorder) (t : TaskNode) (known : In t tasks) where
    cancel_one-at :
        (o : Option TaskState) → state_of r t.id ≡ o → Moves env tasks r (cancel_one env r t)
    unfolding cancel_one
    cancel_one-at (some TaskState.pending) e =
        rw (e, cancel_one)
          (Moves-one env tasks
            (note_failure-Move env tasks r t known e cancel_pending none _ (as_cancelled _)))
    cancel_one-at (some TaskState.ready) e =
        rw (e, cancel_one)
          (Moves-one env tasks
            (note_failure-Move env tasks r t known e cancel_ready none _ (as_cancelled _)))
    cancel_one-at (some TaskState.waiting_for_approval) e =
        rw (e, cancel_one)
          (Moves-one env tasks
            (note_failure-Move env tasks r t known e cancel_waiting none _ (as_cancelled _)))
    cancel_one-at _ e = rw (e, cancel_one) stay

    propagate_one-Moves : Moves env tasks r (propagate_one env r t).0
    unfolding propagate_one
    propagate_one-Moves = elim (Bool-cases (is_pending (state_of r t.id))) [
      | inr other ↦ rw (other, propagate_one) stay
      | inl pending ↦
          let old = State-cases (state_of r t.id) pending in
          elim (Option-cases (find (λ d. is_bad (state_of r d)) t.deps)) [
            | inr (bad, found) ↦
                let (m, is) = find-In (λ d. is_bad (state_of r d)) t.deps bad found in
                rw (pending, found, propagate_one)
                  (Moves-one env tasks
                    (note_failure-Move env tasks r t known old (skip m is) none _ (as_skipped _)))
            | inl clear ↦ elim (Bool-cases (all (λ d. is_completed (state_of r d)) t.deps)) [
              | inr blocked ↦ rw (pending, clear, blocked, propagate_one) stay
              | inl free ↦
                  rw (pending, clear, free, propagate_one)
                    (Moves-one env tasks (
                      transition-Move env tasks r t known old
                        (unblock (all-All (λ d. is_completed (state_of r d)) t.deps free)) none
                        at_ready))
            ]
          ]
    ]

    module _ (old : state_of r t.id ≡ some TaskState.running) where
      fail-Move :
          (f : FailureRecord)
          → Move env tasks r
              (transition env (note_failure env r t.id f) t.id (TaskState.failed f) none)
      fail-Move f = note_failure-Move env tasks r t known old fail none f as_failed

      stop-Move :
          (f : FailureRecord)
          → Move env tasks r
              (transition env (note_failure env r t.id f) t.id TaskState.cancelled none)
      stop-Move f = note_failure-Move env tasks r t known old stop none f (as_cancelled f)

      settle-Move : (f : Finish) (i : EffectCertainty) → Move env tasks r (settle env r t.id f i)
      unfolding settle
      settle-Move (outcome (TaskOutcome.completed v)) i =
          transition-Move env tasks r t known old complete _ at_completed
      settle-Move (outcome (TaskOutcome.failed fault)) i = fail-Move _
      settle-Move (outcome TaskOutcome.approval_pending) i =
          transition-Move env tasks r t known old suspend none at_waiting
      settle-Move (outcome TaskOutcome.cancelled) i = stop-Move _
      settle-Move interrupted i = stop-Move _
      settle-Move timed_out i = fail-Move _

      pub join-Move : (j : Joined) → Move env tasks r (join env r t j)
      unfolding join
      join-Move (finished f) = settle-Move f t.runner.certainty_on_interrupt
      join-Move panicked = fail-Move _

  pub cancel_open-Moves :
      (r : Recorder) (ts : List TaskNode)
      → ((t : TaskNode) → In t ts → In t tasks)
      → Moves env tasks r (cancel_open env r ts)
  unfolding cancel_open
  cancel_open-Moves r [] sub = stay
  cancel_open-Moves r (t ∷ ts) sub =
      Moves-trans env tasks (cancel_one-at r t (sub t (here refl)) (state_of r t.id) refl)
        (cancel_open-Moves (cancel_one env r t) ts (λ u m. sub u (there m)))

  propagate_pass-Moves :
      (r : Recorder) (ts : List TaskNode)
      → ((t : TaskNode) → In t ts → In t tasks)
      → Moves env tasks r (propagate_pass env r ts).0
  unfolding propagate_pass
  propagate_pass-Moves r [] sub = stay
  propagate_pass-Moves r (t ∷ ts) sub =
      Moves-trans env tasks (propagate_one-Moves r t (sub t (here refl)))
        (propagate_pass-Moves (propagate_one env r t).0 ts (λ u m. sub u (there m)))

  pub propagate-Moves : (fuel : ℕ) (r : Recorder) → Moves env tasks r (propagate env fuel r tasks)
  unfolding propagate
  propagate-Moves zero r = stay
  propagate-Moves (suc fuel) r =
      let pass = propagate_pass-Moves r tasks (λ t m. m) in
      elim (Bool-cases (propagate_pass env r tasks).1) [
        | inl changed ↦
            rw (changed, propagate)
              (Moves-trans env tasks pass (propagate-Moves fuel (propagate_pass env r tasks).0))
        | inr same ↦ rw (same, propagate) pass
      ]
