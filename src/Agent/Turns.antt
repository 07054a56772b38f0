-- ===== src/Agent/Turns.antt =====
-- The loop over the turns of `execute_task` in src/agent.rs.
use aegis_runtime.Json.{Value}
use aegis_runtime.Events.{EventEnvelope}
use aegis_runtime.Agent.{
  ToolCallItem, ChatTurnResponse, ToolExecutionRecord, AgentStep, World, AgentEngine,
}
use aegis_runtime.Agent.Loop.{Loop, assistant_message, call_tools}
use aegis_runtime.Agent.Task.{Ended, calls_of, pruned, final_text, turns}
use aegis_runtime.Agent.Records.{goes_on}
use aegis_runtime.Agent.Calls.{HaltsAt, AreCalled, AreCalled-nil, call_tools-AreCalled}
use aegis_runtime.Prelude.{
  ℕ, zero, suc, ◌+◌, ◌≤◌, String, ◌≡◌, refl, List, [], ◌∷◌, ◌++◌, Option, none, some, true, false,
  Result, ok, err, all, length, length-append, inl, inr, arith,
}
use aegis_runtime.Agent.Steps.{is_quiet, all-snoc, AreKept, AreKept-calls}

module _ (world : World) (engine : AgentEngine) where
  -- How the run ends: with an answer without tool calls, at the call that halts it, or when its turns are
  -- used up.
  pub data Ending (max_turns : ℕ) (e : Ended world engine) : Type 0 where
    answered :
        (before : List AgentStep) (last : AgentStep)
        → e.steps ≡ before ++ last ∷ []
        → last.tool_calls ≡ []
        → all is_quiet e.steps ≡ true
        → e.completed ≡ true
        → Ending max_turns e
    halted :
        (before : List AgentStep) (last : AgentStep)
        → e.steps ≡ before ++ last ∷ []
        → all is_quiet before ≡ true
        → HaltsAt world engine last.step_index last.tool_calls (some e.final_response)
        → e.completed ≡ false
        → Ending max_turns e
    used_up :
        e.turns_taken ≡ max_turns
        → all is_quiet e.steps ≡ true
        → e.completed ≡ false
        → e.final_response ≡ ""
        → Ending max_turns e

  pub record IsRun (max_turns : ℕ) (e : Ended world engine) : Type 0 where
    pub kept : AreKept world engine e.steps e.loop.failure_seq e.loop.published
    pub taken : length e.steps ≡ e.turns_taken
    pub bound : e.turns_taken ≤ max_turns
    pub ending : Ending max_turns e

  -- A run that fails was failed by the model, after steps that did not halt it.
  pub record IsFailed (max_turns : ℕ) (e : String) (failure_seq : ℕ)
      (published : List EventEnvelope) : Type 0 where
    pub turn : ℕ
    pub ms : List Value
    pub steps : List AgentStep
    pub answer : world.generate turn ms ≡ err e
    pub bound : turn ≤ max_turns
    pub before : turn ≡ length steps + 1
    pub quiet : all is_quiet steps ≡ true
    pub kept : AreKept world engine steps failure_seq published

  abbrev pub RunsTo : ℕ → Result (String × Loop) (Ended world engine) → Type 0
  RunsTo max_turns (err (e, s)) = IsFailed max_turns e s.failure_seq s.published
  RunsTo max_turns (ok e) = IsRun max_turns e

  abbrev pub Total : ℕ → ℕ → Loop → List AgentStep → Type 0
  Total n turn s steps =
      (r : Result (String × Loop) (Ended world engine)) × (turns world engine n turn s steps
        ≡ some r)
      × RunsTo (turn + n) r

  module _ (n turn : ℕ) (s : Loop) (steps : List AgentStep)
      (k : AreKept world engine steps s.failure_seq s.published) (at : length steps ≡ turn)
      (quiet : all is_quiet steps ≡ true) where
    no_calls :
        (res : ChatTurnResponse)
        → world.generate (turn + 1) (pruned world engine s).messages ≡ ok res
        → calls_of world engine res ≡ []
        → Total (suc n) turn s steps
    unfolding turns
    no_calls res answer none_there =
        let st : AgentStep = record {
          step_index = turn + 1;
          thought = res.reasoning;
          tool_calls = [];
        } in
        let e : Ended world engine = record {
          final_response = final_text world engine res.content res.reasoning;
          steps = steps ++ st ∷ [];
          turns_taken = turn + 1;
          completed = true;
          loop = pruned world engine s;
        } in
        (
          ok e,
          rw (answer, none_there, turns) refl,
          record {
            kept =
                AreKept-calls world engine (pruned world engine s) steps turn res.reasoning []
                  (pruned world engine s) [] none k at
                  (AreCalled-nil world engine (turn + 1) 0 (pruned world engine s));
            taken = omega (arith, at, length-append steps (st ∷ []));
            bound = omega arith;
            ending = answered steps st refl refl (ground (arith, all-snoc steps st, quiet)) refl;
          },
        )

    abbrev asking : ChatTurnResponse → List ToolCallItem → Loop
    asking res tool_calls = record (pruned world engine s) {
      messages = (pruned world engine s).messages ++ assistant_message res.content tool_calls ∷ [];
    }

    abbrev step_of : ChatTurnResponse → List ToolExecutionRecord → AgentStep
    step_of res recs = record { step_index = turn + 1; thought = res.reasoning; tool_calls = recs }

    module _ (res : ChatTurnResponse) (tc : ToolCallItem) (tcs : List ToolCallItem)
        (answer : world.generate (turn + 1) (pruned world engine s).messages ≡ ok res)
        (some_there : calls_of world engine res ≡ tc ∷ tcs)
        (next : (s' : Loop) (st : AgentStep)
          → AreKept world engine (steps ++ st ∷ []) s'.failure_seq s'.published
          → length (steps ++ st ∷ []) ≡ turn + 1
          → all is_quiet (steps ++ st ∷ []) ≡ true
          → Total n (turn + 1) s' (steps ++ st ∷ [])) where
      going_on :
          (s' : Loop) (recs : List ToolExecutionRecord)
          → call_tools world engine (turn + 1) 0 (asking res (tc ∷ tcs)) (tc ∷ tcs)
            ≡ some (s', recs, none)
          → AreCalled world engine (turn + 1) 0 (asking res (tc ∷ tcs)) (tc ∷ tcs) (s', recs, none)
          → all goes_on recs ≡ true
          → Total (suc n) turn s steps
      unfolding turns
      going_on s' recs runs c quiet_here =
          let st = step_of res recs in
          let (r, more, ends) =
            next s' st
              (AreKept-calls world engine (asking res (tc ∷ tcs)) steps turn res.reasoning
                (tc ∷ tcs) s' recs none k at c)
              (omega (arith, at, length-append steps (st ∷ [])))
              (ground (arith, all-snoc steps st, quiet, quiet_here)) in
          let rounds : turn + 1 + n ≡ turn + suc n = omega arith in
          (r, rw (answer, some_there, runs, turns) more, rw rounds at ends)

      halting_now :
          (s' : Loop) (recs : List ToolExecutionRecord) (reason : String)
          → call_tools world engine (turn + 1) 0 (asking res (tc ∷ tcs)) (tc ∷ tcs)
            ≡ some (s', recs, some reason)
          → AreCalled world engine
              (turn + 1)
              0
              (asking res (tc ∷ tcs))
              (tc ∷ tcs)
              (s', recs, some reason)
          → HaltsAt world engine (turn + 1) recs (some reason)
          → Total (suc n) turn s steps
      unfolding turns
      halting_now s' recs reason runs c h =
          let st = step_of res recs in
          let e : Ended world engine = record {
            final_response = reason;
            steps = steps ++ st ∷ [];
            turns_taken = turn + 1;
            completed = false;
            loop = s';
          } in
          (
            ok e,
            rw (answer, some_there, runs, turns) refl,
            record {
              kept =
                  AreKept-calls world engine (asking res (tc ∷ tcs)) steps turn res.reasoning
                    (tc ∷ tcs) s' recs (some reason) k at c;
              taken = omega (arith, at, length-append steps (st ∷ []));
              bound = omega arith;
              ending = halted steps st refl quiet h refl;
            },
          )

      with_calls :
          (r : Loop × List ToolExecutionRecord × Option String)
          → call_tools world engine (turn + 1) 0 (asking res (tc ∷ tcs)) (tc ∷ tcs) ≡ some r
          → AreCalled world engine (turn + 1) 0 (asking res (tc ∷ tcs)) (tc ∷ tcs) r
          → Total (suc n) turn s steps
      with_calls (s', recs, none) runs c = elim c.halt [
        | inl (e, go, same) ↦ going_on s' recs runs c go
        | inr h ↦ absurd (cc (h.told))
      ]
      with_calls (s', recs, some reason) runs c = elim c.halt [
        | inl (e, go, same) ↦ absurd (cc)
        | inr h ↦ halting_now s' recs reason runs c h
      ]

    abbrev Next : Type 0
    Next =
        (s' : Loop) (st : AgentStep)
        → AreKept world engine (steps ++ st ∷ []) s'.failure_seq s'.published
        → length (steps ++ st ∷ []) ≡ turn + 1
        → all is_quiet (steps ++ st ∷ []) ≡ true
        → Total n (turn + 1) s' (steps ++ st ∷ [])

    by_calls :
        Next
        → (res : ChatTurnResponse)
        → world.generate (turn + 1) (pruned world engine s).messages ≡ ok res
        → (tcs : List ToolCallItem) → calls_of world engine res ≡ tcs
        → Total (suc n) turn s steps
    by_calls next res answer [] at_calls = no_calls res answer at_calls
    by_calls next res answer (tc ∷ tcs) at_calls =
        let (r, runs, c) =
          call_tools-AreCalled world engine (turn + 1) 0 (asking res (tc ∷ tcs)) (tc ∷ tcs) in
        with_calls res tc tcs answer at_calls next r runs c

    one_turn :
        Next
        → (answer : Result String ChatTurnResponse)
        → world.generate (turn + 1) (pruned world engine s).messages ≡ answer
        → Total (suc n) turn s steps
    unfolding turns
    one_turn next (err e) at_answer = (
      err (e, pruned world engine s),
      rw (at_answer, turns) refl,
      record {
        turn = turn + 1;
        ms = (pruned world engine s).messages;
        steps = steps;
        answer = at_answer;
        bound = omega arith;
        before = omega (arith, at);
        quiet = quiet;
        kept = k;
      },
    )
    one_turn next (ok res) at_answer = by_calls next res at_answer (calls_of world engine res) refl

  pub turns-Total :
      (n turn : ℕ) (s : Loop) (steps : List AgentStep)
      → AreKept world engine steps s.failure_seq s.published
      → length steps ≡ turn
      → all is_quiet steps ≡ true
      → Total n turn s steps
  unfolding turns
  turns-Total zero turn s steps k at quiet = (
    _,
    refl,
    record {
      kept = k;
      taken = at;
      bound = omega arith;
      ending = used_up (omega arith) quiet refl refl;
    },
  )
  turns-Total (suc n) turn s steps k at quiet =
      one_turn n turn s steps k at quiet
        (λ s' st k' at' quiet'. turns-Total n (turn + 1) s' (steps ++ st ∷ []) k' at' quiet')
        (world.generate (turn + 1) (pruned world engine s).messages) refl
