-- ===== src/Agent/Task.antt =====
-- The turns of `execute_task` in src/agent.rs, and its result.
use aegis_runtime.Events.{EventEnvelope}
use aegis_runtime.Security.Workspace.{concat}
use aegis_runtime.Security.Gate.{or_else}
use aegis_runtime.Store.Legacy.{LegacyDatabase, record_turn}
use aegis_runtime.Prelude.{
  ℕ, zero, suc, ◌+◌, String, List, [], ◌∷◌, ◌++◌, Option, none, some, Bool, true, false, not, ◌&&◌,
  Result, ok, err, is_empty, trim, decimal, if◌then◌else◌,
}
use aegis_runtime.Agent.{
  ToolCallItem, ChatTurnResponse, AgentStep, AgentExecutionResult, default_max_context_tokens,
  World, AgentEngine, prune_context_window,
}
use aegis_runtime.Agent.Loop.{Loop, message, assistant_message, call_tools}

module _ (world : World) (engine : AgentEngine) where
  -- How the loop over the turns ends.
  pub record Ended : Type 0 where
    pub final_response : String
    pub steps : List AgentStep
    pub turns_taken : ℕ
    pub completed : Bool
    pub loop : Loop

  abbrev pub final_text : Option String → Option String → String
  final_text content reasoning =
      let text = or_else content "" in
      if not (is_empty (trim text))
      then text
      else or_else reasoning "Task processed with zero textual output."

  -- A turn whose answer has tool calls.
  abbrev pub with_tools :
      (turn : ℕ)
      → Loop
      → ChatTurnResponse
      → List ToolCallItem
      → Option (Loop × AgentStep × Option String)
  with_tools turn s turn_res tool_calls =
      elim (call_tools world engine turn 0
        (record s { messages = s.messages ++ assistant_message turn_res.content tool_calls ∷ [] })
        tool_calls) [
          | none ↦ none
          | some (s', recs, halted) ↦ some (
            s',
            record { step_index = turn; thought = turn_res.reasoning; tool_calls = recs },
            halted,
          )
        ]

  abbrev pub calls_of : ChatTurnResponse → List ToolCallItem
  calls_of turn_res = or_else turn_res.tool_calls []

  -- The messages that a turn sends.
  abbrev pub pruned : Loop → Loop
  pruned s = record s {
    messages = (prune_context_window world.to_string s.messages default_max_context_tokens).0;
  }

  -- The rounds that are left, from a turn on, with the steps so far. An error of the model ends the task.
  unfoldable pub turns :
      ℕ → (turn : ℕ) → Loop → List AgentStep → Option (Result (String × Loop) Ended)
  unfolding call_tools
  turns zero turn s steps = some (
      ok (record {
        final_response = "";
        steps = steps;
        turns_taken = turn;
        completed = false;
        loop = s;
      }))
  turns (suc n) turn s steps =
      let s' = pruned s in
      elim (world.generate (turn + 1) s'.messages) [
        | err e ↦ some (err (e, s'))
        | ok turn_res ↦ elim (calls_of turn_res) [
          | [] ↦ some (
              ok (record {
                final_response = final_text turn_res.content turn_res.reasoning;
                steps =
                    steps
                    ++ record {
                      step_index = turn + 1;
                      thought = turn_res.reasoning;
                      tool_calls = [];
                    }
                      ∷ [];
                turns_taken = turn + 1;
                completed = true;
                loop = s';
              }))
          | tc ∷ tcs ↦ elim (with_tools (turn + 1) s' turn_res (tc ∷ tcs)) [
            | none ↦ none
            | some (s'', step, some reason) ↦ some (
                ok (record {
                  final_response = reason;
                  steps = steps ++ step ∷ [];
                  turns_taken = turn + 1;
                  completed = false;
                  loop = s'';
                }))
            | some (s'', step, none) ↦ turns n (turn + 1) s'' (steps ++ step ∷ [])
          ]
        ]
      ]

  abbrev pub start : (sys_prompt goal : String) → Loop
  start sys_prompt goal = record {
    messages = message "system" sys_prompt ∷ message "user" goal ∷ [];
    failure_seq = 0;
    last_failed_call = none;
    published = [];
  }

  abbrev pub response_of : ℕ → Ended → String
  response_of max_turns e =
      if not e.completed && is_empty e.final_response
      then concat (
          "Agent reached maximum turn limit ("
          ∷ decimal max_turns
          ∷ ") before producing terminal output."
          ∷ [])
      else e.final_response

  -- The result or the error that is returned, the database afterwards, and what was published.
  pub record Outcome : Type 0 where
    pub result : Result String AgentExecutionResult
    pub db : Option LegacyDatabase
    pub published : List EventEnvelope

  abbrev pub recorded : String → String → Option LegacyDatabase
  recorded goal final_response = elim engine.db [
    | none ↦ none
    | some d ↦
        some
          (record_turn world.line d world.now "agent_autonomous" goal final_response world.elapsed)
  ]

  unfoldable pub execute_task : (sys_prompt goal : String) → (max_turns : ℕ) → Option Outcome
  unfolding turns
  execute_task sys_prompt goal max_turns = elim (turns max_turns 0 (start sys_prompt goal) []) [
    | none ↦ none
    | some (err (e, s)) ↦ some (record { result = err e; db = engine.db; published = s.published })
    | some (ok e) ↦ some (record {
      result = ok (record {
        final_response = response_of max_turns e;
        steps = e.steps;
        turns_taken = e.turns_taken;
        duration_ms = world.elapsed;
        completed = e.completed;
      });
      db = recorded goal (response_of max_turns e);
      published = e.loop.published;
    })
  ]
