-- ===== src/Workflow/Executor.antt =====
-- `WorkflowExecutor` of src/orchestration/workflow.rs. The task bodies, the caller's cancel token and
-- the clock act between the coordinator's steps: each `Input` is one such act or one turn of the
-- coordinator, and a list of inputs is an interleaving. The ids of a spec are distinct, so a loop
-- over the ids with lookups in `nodes` is a loop over the tasks.
pub mod Stable
use aegis_runtime.Failure.{FailureRecord, FailureClass, EffectCertainty, payload_digest}
use aegis_runtime.Workflow.Types.{
  WorkflowError, invalid_config, TaskState, is_terminal, TaskOutcome, TaskNode,
}
use aegis_runtime.Workflow.Ledger.{
  Env, WorkflowStatus, Ledger, Recorder, state_of, transition, finish, note_failure, failure,
}
use aegis_runtime.Prelude.{
  ℕ, zero, suc, String, List, [], ◌∷◌, map, Option, none, some, Bool, true, false, ◌||◌, not, ◌==◌,
  find, any, all, select, text_append, if◌then◌else◌, Result, ok, err,
}

pub record WorkflowConfig : Type 0 where
  pub run_id : String
  pub session_id : String
  pub max_parallel : ℕ
  pub per_task_timeout : Option ℕ
  pub total_budget : Option ℕ

-- `WorkflowExecutor::new`
unfoldable pub new : WorkflowConfig → Result WorkflowError WorkflowConfig
new config =
    if config.max_parallel == 0
    then err (invalid_config "max_parallel must be at least 1")
    else ok config

pub data Finish : Type 0 where
  outcome : TaskOutcome → Finish
  timed_out interrupted : Finish

-- What joining a body gives: its `Finish`, or the error of a body that panicked.
pub data Joined : Type 0 where
  finished : Finish → Joined
  panicked : Joined

abbrev pub is_pending : Option TaskState → Bool
is_pending (some TaskState.pending) = true
is_pending _ = false

abbrev pub is_ready : Option TaskState → Bool
is_ready (some TaskState.ready) = true
is_ready _ = false

abbrev pub is_running : Option TaskState → Bool
is_running (some TaskState.running) = true
is_running _ = false

abbrev pub is_completed : Option TaskState → Bool
is_completed (some TaskState.completed) = true
is_completed _ = false

abbrev pub is_waiting : Option TaskState → Bool
is_waiting (some TaskState.waiting_for_approval) = true
is_waiting _ = false

-- Ended without success.
abbrev pub is_bad : Option TaskState → Bool
is_bad (some (TaskState.failed _)) = true
is_bad (some TaskState.cancelled) = true
is_bad (some (TaskState.skipped _)) = true
is_bad _ = false

module _ (env : Env) where
  -- One task of `cancel_open`.
  abbrev pub cancel_as : Recorder → TaskNode → EffectCertainty → String → Recorder
  cancel_as r t certainty message =
      let f = failure env r t.id FailureClass.cancelled certainty message in
      transition env (note_failure env r t.id f) t.id TaskState.cancelled none

  unfoldable pub cancel_one : Recorder → TaskNode → Recorder
  cancel_one r t = elim (state_of r t.id) [
    | some TaskState.pending ↦
        cancel_as r t EffectCertainty.no_effect "workflow cancelled before start"
    | some TaskState.ready ↦
        cancel_as r t EffectCertainty.no_effect "workflow cancelled before start"
    | some TaskState.waiting_for_approval ↦
        cancel_as r t t.runner.certainty_on_interrupt
          "workflow cancelled while waiting for approval"
    | _ ↦ r
  ]

  unfoldable pub cancel_open : Recorder → List TaskNode → Recorder
  cancel_open r [] = r
  cancel_open r (t ∷ ts) = cancel_open (cancel_one r t) ts

  -- The body of the inner loop of `propagate`, with `changed`.
  unfoldable pub propagate_one : Recorder → TaskNode → Recorder × Bool
  propagate_one r t =
      if is_pending (state_of r t.id)
      then elim (find (λ d. is_bad (state_of r d)) t.deps) [
        | some bad ↦
            let f =
              failure env r t.id FailureClass.rejected EffectCertainty.no_effect
                (text_append "prerequisite failed: " bad) in
            (transition env (note_failure env r t.id f) t.id (TaskState.skipped bad) none, true)
        | none ↦
            if all (λ d. is_completed (state_of r d)) t.deps
            then (transition env r t.id TaskState.ready none, true)
            else (r, false)
      ]
      else (r, false)

  unfoldable pub propagate_pass : Recorder → List TaskNode → Recorder × Bool
  propagate_pass r [] = (r, false)
  propagate_pass r (t ∷ ts) =
      let (r', one) = propagate_one r t in
      let (r'', more) = propagate_pass r' ts in (r'', one || more)

  -- The `loop`, with one round for each unit of fuel.
  unfoldable pub propagate : ℕ → Recorder → List TaskNode → Recorder
  propagate zero r ts = r
  propagate (suc fuel) r ts =
      let (r', changed) = propagate_pass r ts in
      let rest = propagate fuel r' ts in if changed then rest else r'

  abbrev fail_as :
      Recorder
      → String
      → FailureClass
      → EffectCertainty
      → String
      → (FailureRecord → TaskState)
      → Recorder
  fail_as r id class certainty message state =
      let f = failure env r id class certainty message in
      transition env (note_failure env r id f) id (state f) none

  unfoldable pub settle : Recorder → String → Finish → EffectCertainty → Recorder
  settle r id (outcome (TaskOutcome.completed v)) interrupt =
      transition env r id TaskState.completed
        (some (record { digest = payload_digest env.hashing v }))
  settle r id (outcome (TaskOutcome.failed fault)) interrupt =
      fail_as r id fault.class fault.certainty fault.message TaskState.failed
  settle r id (outcome TaskOutcome.approval_pending) interrupt =
      transition env r id TaskState.waiting_for_approval none
  settle r id (outcome TaskOutcome.cancelled) interrupt =
      fail_as r id FailureClass.cancelled interrupt "task cancelled while running"
        (λ _. TaskState.cancelled)
  settle r id interrupted interrupt =
      fail_as r id FailureClass.cancelled interrupt "task cancelled while running"
        (λ _. TaskState.cancelled)
  settle r id timed_out interrupt =
      fail_as r id FailureClass.timeout interrupt "per-task timeout elapsed" TaskState.failed

  -- What the coordinator does with a joined body.
  unfoldable pub join : Recorder → TaskNode → Joined → Recorder
  unfolding settle
  join r t (finished f) = settle r t.id f t.runner.certainty_on_interrupt
  join r t panicked =
      fail_as r t.id FailureClass.failed EffectCertainty.uncertain "task body panicked"
        TaskState.failed

pub record WorkflowReport : Type 0 where
  pub status : WorkflowStatus
  pub ledger : Ledger
  pub unfinished : List String
  pub peak_concurrency : ℕ
  pub budget_exhausted : Bool

abbrev pub open_state : Recorder → String → Bool
open_state r id = elim (state_of r id) [ some s ↦ not (is_terminal s) | none ↦ false ]

abbrev pub report_status : Recorder → Bool → WorkflowStatus
report_status r cancelled =
    let values = map (λ e. some e.1) r.states in
    if cancelled
    then WorkflowStatus.cancelled
    else if any is_waiting values
    then WorkflowStatus.waiting_for_approval
    else if all is_completed values
    then WorkflowStatus.completed
    else WorkflowStatus.failed

-- The recorder after `finish`, and the report, whose snapshot, failures and events are those of the
-- ledger then.
unfoldable pub report : Env → Recorder → List String → ℕ → Bool → Bool → Recorder × WorkflowReport
report env r ids peak budget_exhausted cancelled =
    let r' = finish env r (report_status r cancelled) in
    (
      r',
      record {
        status = report_status r cancelled;
        ledger = r'.ledger;
        unfinished = select (open_state r) ids;
        peak_concurrency = peak;
        budget_exhausted = budget_exhausted;
      },
    )
