-- ===== src/Events.antt =====
-- src/events/event.rs and src/events/envelope.rs: the events that the runtime publishes. The fresh id
-- and the clock reading of an envelope are arguments.
use aegis_runtime.Failure.{FailureRecord}
use aegis_runtime.Prelude.{ℕ, String, Option, Bool}

pub data AegisEvent : Type 0 where
  session_created : (session_id : String) → (objective : Option String) → AegisEvent
  session_branched : (session_id parent_session_id : String) → AegisEvent
  session_closed : (session_id : String) → AegisEvent
  run_started : (run_id session_id trigger : String) → AegisEvent
  run_completed : (run_id : String) → (steps duration_ms : ℕ) → AegisEvent
  run_failed : (run_id error : String) → AegisEvent
  step_failed : FailureRecord → AegisEvent
  workflow_task_ready workflow_task_started :
      (run_id : String) → (workflow_seq : ℕ) → (task_id : String) → AegisEvent
  workflow_task_completed :
      (run_id : String) → (workflow_seq : ℕ) → (task_id result_digest : String) → AegisEvent
  workflow_task_waiting : (run_id : String) → (workflow_seq : ℕ) → (task_id : String) → AegisEvent
  workflow_task_failed :
      (run_id : String) → (workflow_seq : ℕ) → (task_id : String) → FailureRecord → AegisEvent
  workflow_task_cancelled : (run_id : String) → (workflow_seq : ℕ) → (task_id : String) → AegisEvent
  workflow_task_skipped :
      (run_id : String) → (workflow_seq : ℕ) → (task_id prerequisite : String) → AegisEvent
  workflow_finished : (run_id : String) → (workflow_seq : ℕ) → (status : String) → AegisEvent
  assistant_delta : (text : String) → AegisEvent
  action_requested : (action_id capability : String) → AegisEvent
  action_authorized : (action_id decision : String) → AegisEvent
  action_denied : (action_id reason : String) → AegisEvent
  action_completed : (action_id : String) → (success : Bool) → (duration_ms : ℕ) → AegisEvent
  approval_required : (approval_id action_id capability : String) → AegisEvent
  approval_resolved : (approval_id : String) → (approved : Bool) → AegisEvent
  containment_activated : (level reason : String) → AegisEvent

pub record EventEnvelope : Type 0 where
  pub event_id : String
  pub session_id : Option String
  pub run_id : Option String
  pub sequence : ℕ
  pub timestamp : ℕ
  pub event : AegisEvent
