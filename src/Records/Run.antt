-- ===== src/Records/Run.antt =====
-- src/orchestration/run.rs, budget.rs, termination.rs and trigger.rs.
use aegis_runtime.Prelude.{ℕ, String, Option, none, some, str_eq, if◌then◌else◌}

pub data RunState : Type 0 where
  running waiting_for_approval waiting_for_tool completed failed cancelled : RunState

abbrev pub as_str : RunState → String
as_str RunState.running = "running"
as_str RunState.waiting_for_approval = "waiting_for_approval"
as_str RunState.waiting_for_tool = "waiting_for_tool"
as_str RunState.completed = "completed"
as_str RunState.failed = "failed"
as_str RunState.cancelled = "cancelled"

abbrev pub from_str : String → Option RunState
from_str s =
    if str_eq s "running"
    then some RunState.running
    else if str_eq s "waiting_for_approval"
    then some RunState.waiting_for_approval
    else if str_eq s "waiting_for_tool"
    then some RunState.waiting_for_tool
    else if str_eq s "completed"
    then some RunState.completed
    else if str_eq s "failed"
    then some RunState.failed
    else if str_eq s "cancelled"
    then some RunState.cancelled
    else none

pub record RunBudget : Type 0 where
  pub max_steps : ℕ
  pub max_inference_calls : ℕ
  pub max_actions : ℕ
  pub max_wall_time_secs : ℕ

abbrev pub default_budget : RunBudget
default_budget = record {
  max_steps = 25;
  max_inference_calls = 30;
  max_actions = 50;
  max_wall_time_secs = 300;
}

pub data TerminationReason : Type 0 where
  completed step_limit_exceeded inference_limit_exceeded time_limit_exceeded : TerminationReason
  user_cancelled doctrine_denied approval_required : TerminationReason
  inference_failure execution_failure : String → TerminationReason
  suspended : TerminationReason

pub data Trigger : Type 0 where
  user_message : (message_id : String) → Trigger
  heartbeat : Trigger
  scheduled_task : String → Trigger
  tool_result : (action_id : String) → Trigger
  external_event : String → Trigger
  resume : Trigger

pub record Run : Type 0 where
  pub id : String
  pub session_id : String
  pub state : RunState
  pub trigger : Trigger
  pub steps_used : ℕ
  pub inference_calls_used : ℕ
  pub actions_used : ℕ
  pub budget : RunBudget
  pub started_at : ℕ
  pub completed_at : Option ℕ
  pub termination : Option TerminationReason

abbrev pub new_run : (id : String) (now : ℕ) (session_id : String) → Trigger → RunBudget → Run
new_run id now session_id trigger budget = record {
  id = id;
  session_id = session_id;
  state = RunState.running;
  trigger = trigger;
  steps_used = 0;
  inference_calls_used = 0;
  actions_used = 0;
  budget = budget;
  started_at = now;
  completed_at = none;
  termination = none;
}
