-- ===== src/Agent/Executed.antt =====
-- What `execute_task` of src/agent.rs returns.
use aegis_runtime.Events.{EventEnvelope}
use aegis_runtime.Store.Legacy.{LegacyDatabase}
use aegis_runtime.Security.Workspace.{concat}
use aegis_runtime.Agent.{AgentStep, AgentExecutionResult, World, AgentEngine}
use aegis_runtime.Agent.Loop.{Loop, envelopes}
use aegis_runtime.Agent.Task.{Ended, Outcome, turns, start, response_of, recorded, execute_task}
use aegis_runtime.Agent.Records.{Numbered}
use aegis_runtime.Agent.Calls.{HaltsAt}
use aegis_runtime.Agent.Steps.{step_failures, Indexed, is_quiet, IsKept, AreKept-nil}
use aegis_runtime.Agent.Turns.{
  Ending, answered, halted, used_up, IsRun, IsFailed, RunsTo, turns-Total,
}
use aegis_runtime.Prelude.{
  ℕ, ◌≤◌, ◌+◌, String, ◌≡◌, refl, List, [], ◌∷◌, ◌++◌, Option, some, true, false, Result, ok, err,
  all, length, All, decimal, is_empty, arith,
}

module _ (world : World) (engine : AgentEngine) where
  -- How a run ends: with an answer without tool calls; at a call that a cancel or a pending approval
  -- stopped, with the reason; or when its turns are used up. Before that no call was stopped so.
  pub data Closing (max_turns : ℕ) (r : AgentExecutionResult) : Type 0 where
    with_answer :
        (before : List AgentStep) (last : AgentStep)
        → r.steps ≡ before ++ last ∷ []
        → last.tool_calls ≡ []
        → all is_quiet r.steps ≡ true
        → r.completed ≡ true
        → Closing max_turns r
    at_halt :
        (before : List AgentStep) (last : AgentStep)
        → r.steps ≡ before ++ last ∷ []
        → all is_quiet before ≡ true
        → HaltsAt world engine last.step_index last.tool_calls (some r.final_response)
        → r.completed ≡ false
        → Closing max_turns r
    at_limit :
        r.turns_taken ≡ max_turns
        → all is_quiet r.steps ≡ true
        → r.completed ≡ false
        → r.final_response
          ≡ concat (
              "Agent reached maximum turn limit ("
              ∷ decimal max_turns
              ∷ ") before producing terminal output."
              ∷ [])
        → Closing max_turns r

  pub record IsExecuted (max_turns : ℕ) (r : AgentExecutionResult) (published : List EventEnvelope)
      : Type 0 where
    pub indexed : Indexed 0 r.steps
    pub taken : length r.steps ≡ r.turns_taken
    pub bound : r.turns_taken ≤ max_turns
    pub kept : All (IsKept world engine) r.steps
    pub numbered : Numbered 0 (step_failures r.steps)
    pub sent : published ≡ envelopes world engine (step_failures r.steps)
    pub closing : Closing max_turns r

  abbrev result_of : ℕ → Ended world engine → AgentExecutionResult
  result_of max_turns e = record {
    final_response = response_of world engine max_turns e;
    steps = e.steps;
    turns_taken = e.turns_taken;
    duration_ms = world.elapsed;
    completed = e.completed;
  }

  abbrev outcome_of : String → ℕ → Ended world engine → Outcome world engine
  outcome_of goal max_turns e = record {
    result = ok (result_of max_turns e);
    db = recorded world engine goal (response_of world engine max_turns e);
    published = e.loop.published;
  }

  Ending-Closing :
      (max_turns : ℕ) (e : Ended world engine)
      → Ending world engine max_turns e
      → Closing max_turns (result_of max_turns e)
  Ending-Closing max_turns e (answered before last split none_there quiet done) =
      with_answer before last split none_there quiet done
  Ending-Closing max_turns e (halted before last split quiet h open_end) =
      let same : e.final_response ≡ h.reason = ground (arith, h.told) in
      let text : is_empty e.final_response ≡ false = rw same h.text in
      at_halt before last split quiet (rw (open_end, text) h) open_end
  Ending-Closing max_turns e (used_up at quiet open_end blank) =
      at_limit at quiet open_end (rw (open_end, blank) refl)

  IsRun-IsExecuted :
      (max_turns : ℕ) (e : Ended world engine)
      → IsRun world engine max_turns e
      → IsExecuted max_turns (result_of max_turns e) e.loop.published
  IsRun-IsExecuted max_turns e run = record {
    indexed = run.kept.indexed;
    taken = run.taken;
    bound = run.bound;
    kept = run.kept.kept;
    numbered = run.kept.numbered;
    sent = run.kept.sent;
    closing = Ending-Closing max_turns e run.ending;
  }

  abbrev Returns :
      ℕ → Result String AgentExecutionResult → Option LegacyDatabase → List EventEnvelope → Type 0
  Returns max_turns (err e) db published =
      (failure_seq : ℕ) × IsFailed world engine max_turns e failure_seq published × (db ≡ engine.db)
  Returns max_turns (ok r) db published = IsExecuted max_turns r published

  abbrev pub Executes : ℕ → Outcome world engine → Type 0
  Executes max_turns o = Returns max_turns o.result o.db o.published

  returns :
      (sys_prompt goal : String) (max_turns : ℕ) (r : Result (String × Loop) (Ended world engine))
      → turns world engine max_turns 0 (start world engine sys_prompt goal) [] ≡ some r
      → RunsTo world engine max_turns r
      → (o : Outcome world engine) × (execute_task world engine sys_prompt goal max_turns ≡ some o)
        × Executes max_turns o
  unfolding execute_task
  returns sys_prompt goal max_turns (err (e, s)) at runs = (
    record { result = err e; db = engine.db; published = s.published },
    rw (at, execute_task) refl,
    (s.failure_seq, runs, refl),
  )
  returns sys_prompt goal max_turns (ok e) at runs =
      (outcome_of goal max_turns e, rw (at, execute_task) refl, IsRun-IsExecuted max_turns e runs)

  -- Whatever the model, the tools, the clock and the token do, `execute_task` returns: the error of a
  -- call of the model, with the database as it was, or a result with one step for each turn taken, and no
  -- more turns than allowed. In both cases the steps are numbered from 1, and the record of each call is
  -- that of the attempts which the retry loop made at it: it succeeded, with the output, exactly if the
  -- last attempt did, and else it has the class and the certainty of the last fault. Each failed attempt
  -- has one failure record, with its class, certainty, number and times. These are numbered from 1 over
  -- the whole run, carry its id and their turn, and are what is published on the bus. No call follows one
  -- that was cancelled or waits for approval.
  pub execute_task-Executes :
      (sys_prompt goal : String) (max_turns : ℕ)
      → (o : Outcome world engine) × (execute_task world engine sys_prompt goal max_turns ≡ some o)
        × Executes max_turns o
  execute_task-Executes sys_prompt goal max_turns =
      let (r, at, runs) =
        turns-Total world engine max_turns 0 (start world engine sys_prompt goal) []
          (AreKept-nil world engine) refl refl in
      returns sys_prompt goal max_turns r at
        (let same : 0 + max_turns ≡ max_turns = omega arith in rw same at runs)
