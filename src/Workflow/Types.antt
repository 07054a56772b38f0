-- ===== src/Workflow/Types.antt =====
-- The data of src/orchestration/workflow.rs. A `TaskId` is the text that it wraps. What a task
-- body answers enters the executor as an input, and `TaskRunner` keeps the certainty
-- that is recorded when it is interrupted.
use aegis_runtime.Json.{Value}
use aegis_runtime.Failure.{FailureRecord, EffectCertainty, ToolFault}
use aegis_runtime.Prelude.{String, List, map, Bool, true, false}

pub data WorkflowError : Type 0 where
  empty_task_id : WorkflowError
  duplicate_task : String → WorkflowError
  unknown_predecessor duplicate_edge : (task predecessor : String) → WorkflowError
  self_dependency : String → WorkflowError
  cycle : List String → WorkflowError
  invalid_config : String → WorkflowError

pub data TaskState : Type 0 where
  pending ready running waiting_for_approval completed cancelled : TaskState
  failed : FailureRecord → TaskState
  skipped : (prerequisite : String) → TaskState

abbrev pub is_terminal : TaskState → Bool
is_terminal TaskState.completed = true
is_terminal (TaskState.failed _) = true
is_terminal TaskState.cancelled = true
is_terminal (TaskState.skipped _) = true
is_terminal _ = false

-- `TaskState::name`
abbrev pub state_name : TaskState → String
state_name TaskState.pending = "pending"
state_name TaskState.ready = "ready"
state_name TaskState.running = "running"
state_name TaskState.waiting_for_approval = "waiting_for_approval"
state_name TaskState.completed = "completed"
state_name (TaskState.failed _) = "failed"
state_name TaskState.cancelled = "cancelled"
state_name (TaskState.skipped _) = "skipped"

pub data TaskOutcome : Type 0 where
  completed : Value → TaskOutcome
  failed : ToolFault → TaskOutcome
  approval_pending cancelled : TaskOutcome

pub record TaskRunner : Type 0 where
  pub certainty_on_interrupt : EffectCertainty

pub record TaskNode : Type 0 where
  pub id : String
  pub deps : List String
  pub runner : TaskRunner

-- `WorkflowSpec`, whose one field is the list of tasks.
abbrev pub WorkflowSpec : Type 0
WorkflowSpec = List TaskNode

abbrev pub task_ids : List TaskNode → List String
task_ids ts = map (λ t. t.id) ts
