-- ===== src/Workflow/AgentTask/Examples.antt =====
-- An agent as a task of src/orchestration/workflow.rs: a call of a tool is retried, and the task then
-- completes with the answer of the model.
use aegis_runtime.Failure.{retry_loop, retry_eligibility, skill_effect_profile}
use aegis_runtime.Agent.{attempt_tool}
use aegis_runtime.Agent.Task.{execute_task}
use aegis_runtime.Agent.Sample.{world, engine}
use aegis_runtime.Workflow.Types.{TaskOutcome}
use aegis_runtime.Workflow.AgentTask.{AgentTaskRunner, response_value, agent_outcome, run}
use aegis_runtime.Workflow.AgentTask.Answers.{Answers, run-Answers}
use aegis_runtime.Prelude.{◌≡◌, refl, some, trim, is_whitespace}

abbrev runner : AgentTaskRunner
runner = record { goal = "goal"; max_turns = 4 }

completes : run world engine "system" runner ≡ some (TaskOutcome.completed (response_value "done"))
unfolding run agent_outcome execute_task retry_loop attempt_tool retry_eligibility
    skill_effect_profile trim is_whitespace
completes = refl

run-Answers_example :
    (t : TaskOutcome) × (run world engine "system" runner ≡ some t)
    × Answers world engine "system" runner t
run-Answers_example = run-Answers world engine "system" runner
