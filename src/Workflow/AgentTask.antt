-- ===== src/Workflow/AgentTask.antt =====
-- `agent_outcome` and `AgentTaskRunner` of src/orchestration/workflow.rs: an agent as a task body. The
-- default system prompt is a parameter.
pub mod Answers
mod Examples
use aegis_runtime.Json.{Value, string, object, field, end}
use aegis_runtime.Failure.{FailureClass, EffectCertainty, FailureRecord, CauseEntry, ToolFault}
use aegis_runtime.Redaction.{redact_payload_echoes}
use aegis_runtime.Security.Gate.{or_else}
use aegis_runtime.Agent.{
  ToolExecutionRecord, AgentStep, AgentExecutionResult, World, AgentEngine, fault_of,
}
use aegis_runtime.Agent.Loop.{pop_last}
use aegis_runtime.Agent.Task.{Outcome, execute_task}
use aegis_runtime.Agent.Records.{some_list}
use aegis_runtime.Workflow.Types.{TaskOutcome}
use aegis_runtime.Prelude.{
  ℕ, String, List, [], ◌∷◌, ◌++◌, map, Option, none, some, Bool, true, false, not, Result, ok, err,
  any, if◌then◌else◌,
}

-- The terminal failures of the calls, in order.
abbrev pub call_faults : List ToolExecutionRecord → List FailureRecord
call_faults [] = []
call_faults (c ∷ cs) = some_list c.failure ++ call_faults cs

abbrev pub step_faults : List AgentStep → List FailureRecord
step_faults [] = []
step_faults (s ∷ ss) = call_faults s.tool_calls ++ step_faults ss

abbrev pub is_approval_pending : FailureClass → Bool
is_approval_pending FailureClass.approval_pending = true
is_approval_pending _ = false

abbrev first_message : List CauseEntry → String
first_message [] = "agent tool call failed"
first_message (c ∷ cs) = c.message

abbrev pub of_failure : FailureRecord → TaskOutcome
of_failure f =
    if is_approval_pending f.class
    then TaskOutcome.approval_pending
    else TaskOutcome.failed (fault_of f.class f.effect_certainty (first_message f.cause))

abbrev pub any_failed : List AgentStep → Bool
any_failed steps = any (λ s. any (λ c. not c.success) s.tool_calls) steps

abbrev pub response_value : String → Value
response_value final_response = object (field "final_response" (string final_response) end)

-- Without a failure on record.
abbrev pub of_result : AgentExecutionResult → TaskOutcome
of_result result =
    if any_failed result.steps
    then TaskOutcome.failed (
        fault_of FailureClass.failed EffectCertainty.uncertain
          "agent tool call failed without a failure record")
    else if result.completed
    then TaskOutcome.completed (response_value result.final_response)
    else TaskOutcome.failed (
        fault_of FailureClass.failed EffectCertainty.uncertain
          "agent did not complete within its turn budget")

unfoldable pub agent_outcome : AgentExecutionResult → TaskOutcome
agent_outcome result = elim (pop_last (step_faults result.steps)).1 [
  | some f ↦ of_failure f
  | none ↦ of_result result
]

pub record AgentTaskRunner : Type 0 where
  pub goal : String
  pub max_turns : ℕ

module _ (world : World) (engine : AgentEngine) where
  abbrev pub outcome_of : String → Result String AgentExecutionResult → TaskOutcome
  outcome_of goal (ok r) = agent_outcome r
  outcome_of goal (err e) = TaskOutcome.failed (
      fault_of FailureClass.failed EffectCertainty.uncertain
        (redact_payload_echoes e (object (field "goal" (string goal) end))))

  unfoldable pub run : (default_system : String) → AgentTaskRunner → Option TaskOutcome
  run default_system r = elim (execute_task world engine default_system r.goal r.max_turns) [
    | none ↦ none
    | some o ↦ some (outcome_of r.goal o.result)
  ]
