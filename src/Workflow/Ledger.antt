-- ===== src/Workflow/Ledger.antt =====
-- `Ledger` and `Recorder` of src/orchestration/workflow.rs. The lock is not modelled: each function
-- runs under it from end to end. A bus is the list of what was published on it, in order. The
-- numbers are `u64` in the source; a run records at most a few events for each task.
use aegis_runtime.Events.{
  AegisEvent, EventEnvelope, workflow_task_ready, workflow_task_started, workflow_task_completed,
  workflow_task_waiting, workflow_task_failed, workflow_task_cancelled, workflow_task_skipped,
  workflow_finished,
}
use aegis_runtime.Failure.{
  Hashing, FailureRecord, FailureClass, EffectCertainty, new_record, with_cause, truncate_bytes,
  max_cause_message_bytes,
}
use aegis_runtime.Workflow.Types.{TaskState, state_name}
use aegis_runtime.Prelude.{ℕ, ◌+◌, String, List, [], ◌∷◌, ◌++◌, Option, none, some, lookup, insert}

-- What the code takes from outside: hashing, the fresh ids and times of envelopes, and the clock
-- reading of the failure that is recorded under a number.
pub record Env : Type 0 where
  pub hashing : Hashing
  pub event_id : ℕ → String
  pub timestamp : ℕ → ℕ
  pub now : ℕ → ℕ

pub record ResultHandle : Type 0 where
  pub digest : String

pub data WorkflowStatus : Type 0 where
  completed failed cancelled waiting_for_approval : WorkflowStatus

pub record WorkflowEvent : Type 0 where
  pub seq : ℕ
  pub task_id : Option String
  pub state : String

pub record Ledger : Type 0 where
  pub seq : ℕ
  pub states : List (String × TaskState)
  pub results : List (String × ResultHandle)
  pub failures : List (String × FailureRecord)
  pub events : List WorkflowEvent

pub record Recorder : Type 0 where
  pub ledger : Ledger
  pub open ledger use *
  pub bus : Option (List EventEnvelope)
  pub run_id : String
  pub session_id : String

-- `state_of`; `none` is a key that is not there, where the source panics.
abbrev pub state_of : Recorder → String → Option TaskState
state_of r id = lookup id r.states

unfoldable pub event_for :
    Recorder → ℕ → String → TaskState → Option ResultHandle → Option AegisEvent
event_for r seq id TaskState.pending result = none
event_for r seq id TaskState.ready result = some (workflow_task_ready r.run_id seq id)
event_for r seq id TaskState.running result = some (workflow_task_started r.run_id seq id)
event_for r seq id TaskState.completed result =
    let digest : String = elim result [ some h ↦ h.digest | none ↦ "" ] in
    some (workflow_task_completed r.run_id seq id digest)
event_for r seq id TaskState.waiting_for_approval result =
    some (workflow_task_waiting r.run_id seq id)
event_for r seq id (TaskState.failed f) result = some (workflow_task_failed r.run_id seq id f)
event_for r seq id TaskState.cancelled result = some (workflow_task_cancelled r.run_id seq id)
event_for r seq id (TaskState.skipped p) result = some (workflow_task_skipped r.run_id seq id p)

module _ (env : Env) where
  abbrev pub envelope : Recorder → AegisEvent → ℕ → EventEnvelope
  envelope r event seq = record {
    event_id = env.event_id seq;
    session_id = some r.session_id;
    run_id = some r.run_id;
    sequence = seq;
    timestamp = env.timestamp seq;
    event = event;
  }

  abbrev pub publish : Recorder → AegisEvent → ℕ → Recorder
  publish r event seq = record r {
    bus = elim r.bus [ none ↦ none | some sent ↦ some (sent ++ envelope r event seq ∷ []) ];
  }

  abbrev pub publish_some : Recorder → Option AegisEvent → ℕ → Recorder
  publish_some r none seq = r
  publish_some r (some event) seq = publish r event seq

  -- The ledger after a transition.
  abbrev pub recorded : Ledger → String → TaskState → Option ResultHandle → Ledger
  recorded l id state result = record l {
    seq = l.seq + 1;
    results = elim result [ some h ↦ insert id h l.results | none ↦ l.results ];
    states = insert id state l.states;
    events =
        l.events ++ record { seq = l.seq + 1; task_id = some id; state = state_name state } ∷ [];
  }

  unfoldable pub transition : Recorder → String → TaskState → Option ResultHandle → Recorder
  unfolding event_for
  transition r id state result =
      let seq = r.seq + 1 in
      let event = event_for r seq id state result in
      publish_some (record r { ledger = recorded r.ledger id state result }) event seq

  -- `format!("{status:?}").to_lowercase()`
  abbrev pub status_name : WorkflowStatus → String
  status_name WorkflowStatus.completed = "completed"
  status_name WorkflowStatus.failed = "failed"
  status_name WorkflowStatus.cancelled = "cancelled"
  status_name WorkflowStatus.waiting_for_approval = "waitingforapproval"

  unfoldable pub finish : Recorder → WorkflowStatus → Recorder
  finish r status =
      let seq = r.seq + 1 in
      let l = r.ledger in
      publish
        (record r {
          ledger = record l {
            seq = seq;
            events = l.events ++ record { seq = seq; task_id = none; state = "finished" } ∷ [];
          };
        })
        (workflow_finished r.run_id seq (status_name status)) seq

  unfoldable pub note_failure : Recorder → String → FailureRecord → Recorder
  note_failure r id f =
      let l = r.ledger in record r { ledger = record l { failures = insert id f l.failures } }

  -- `next_failure_seq` and `WorkflowExecutor::failure`.
  unfoldable pub failure :
      Recorder → String → FailureClass → EffectCertainty → String → FailureRecord
  failure r id class certainty message =
      let seq = r.seq + 1 in
      with_cause env.hashing
        (new_record seq r.run_id 0 id none "workflow_task" 1 class certainty (env.now seq)
          (env.now seq))
        "workflow" (truncate_bytes message max_cause_message_bytes) none
