-- ===== src/Agent/Examples.antt =====
-- Runs of src/agent.rs: a call that is retried and then answered, and one that waits for approval.
use aegis_runtime.Failure.{
  FailureClass, EffectCertainty, retry_loop, retry_eligibility, skill_effect_profile,
}
use aegis_runtime.Agent.{by_answer, World, fault_of, attempt_tool, prune_context_window}
use aegis_runtime.Agent.Loop.{message}
use aegis_runtime.Agent.Task.{Outcome, execute_task}
use aegis_runtime.Agent.Context.{IsPruned, prune_context_window-IsPruned}
use aegis_runtime.Agent.Executed.{Executes, execute_task-Executes}
use aegis_runtime.Prelude.{
  ℕ, ◌≡◌, refl, String, [], ◌∷◌, length, Option, some, false, ok, err, is_whitespace, trim,
}
use aegis_runtime.Agent.Sample.{world, engine}

abbrev text_of : Option (Outcome world engine) → String × ℕ × ℕ
text_of (some o) = elim o.result [
  | ok r ↦ (r.final_response, r.turns_taken, length o.published)
  | err e ↦ (e, 0, length o.published)
]
text_of _ = ("", 0, 0)

retried : text_of (execute_task world engine "system" "goal" 4) ≡ ("done", 2, 1)
unfolding execute_task retry_loop attempt_tool retry_eligibility skill_effect_profile trim
    is_whitespace
retried = refl

abbrev waiting : World
waiting = record world {
  moment = λ turn call attempt. record {
    is_cancelled = false;
    answer = err (fault_of FailureClass.approval_pending EffectCertainty.no_effect "ask");
    woken = by_answer;
  };
}

abbrev text_waiting : Option (Outcome waiting engine) → String × ℕ × ℕ
text_waiting (some o) = elim o.result [
  | ok r ↦ (r.final_response, r.turns_taken, length o.published)
  | err e ↦ (e, 0, length o.published)
]
text_waiting _ = ("", 0, 0)

halts :
    text_waiting (execute_task waiting engine "system" "goal" 4)
    ≡ ("Halted: tool call c1 is waiting for approval and will not be replayed automatically.", 1, 1)
unfolding execute_task retry_loop attempt_tool retry_eligibility
halts = refl

execute_task-Executes_example :
    (o : Outcome world engine) × (execute_task world engine "system" "goal" 4 ≡ some o)
    × Executes world engine 4 o
execute_task-Executes_example = execute_task-Executes world engine "system" "goal" 4

prune_context_window-IsPruned_example :
    IsPruned world.to_string 20
      (message "system" "a b")
      (message "user" "c")
      (message "tool" "d e f g h i" ∷ message "assistant" "j" ∷ [])
      (prune_context_window world.to_string
        (message "system" "a b"
          ∷ message "user" "c"
          ∷ message "tool" "d e f g h i"
          ∷ message "assistant" "j"
          ∷ [])
        20)
prune_context_window-IsPruned_example =
    prune_context_window-IsPruned world.to_string 20 (message "system" "a b") (message "user" "c")
      (message "tool" "d e f g h i" ∷ message "assistant" "j" ∷ [])
