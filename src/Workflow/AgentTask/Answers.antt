-- ===== src/Workflow/AgentTask/Answers.antt =====
-- What an agent answers as a task of src/orchestration/workflow.rs.
use mathlib.Core.List.{append-nil, append_assoc}
use aegis_runtime.Json.{object, string, field, end}
use aegis_runtime.Failure.{FailureClass, EffectCertainty, FailureRecord, ToolFault}
use aegis_runtime.Events.{EventEnvelope}
use aegis_runtime.Redaction.{redact_payload_echoes}
use aegis_runtime.Agent.{
  ToolExecutionRecord, AgentStep, AgentExecutionResult, World, AgentEngine, fault_of,
}
use aegis_runtime.Agent.Loop.{pop_last}
use aegis_runtime.Agent.Task.{Outcome, execute_task}
use aegis_runtime.Agent.Records.{is_halting, some_list, goes_on, Succeeds, Fails}
use aegis_runtime.Agent.Steps.{is_quiet, IsKept}
use aegis_runtime.Agent.Executed.{
  Closing, with_answer, at_halt, at_limit, IsExecuted, Executes, execute_task-Executes,
}
use aegis_runtime.Workflow.Types.{TaskOutcome}
use aegis_runtime.Workflow.AgentTask.{
  call_faults, step_faults, is_approval_pending, of_failure, any_failed, response_value, of_result,
  agent_outcome, AgentTaskRunner, outcome_of, run,
}
use aegis_runtime.Prelude.{
  ℕ, String, ◌≡◌, ◌⊎◌, refl, sym, ap, ◌∙◌, List, [], ◌∷◌, ◌++◌, In, here, there, none, some, true,
  false, not, Result, ok, err, any, all, All, All-append, All-In, Bool-cases, Option-cases, inl,
  inr, arith,
}

-- Every call of every step succeeded.
abbrev pub AllSucceeded : List AgentStep → Type 0
AllSucceeded steps =
    All (λ s. All (λ (c : ToolExecutionRecord). c.success ≡ true) s.tool_calls) steps

-- The last call of the last step waits for approval.
pub record Waits (steps : List AgentStep) : Type 0 where
  pub before : List AgentStep
  pub last : AgentStep
  pub calls : List ToolExecutionRecord
  pub call : ToolExecutionRecord
  pub failure : FailureRecord
  pub split : steps ≡ before ++ last ∷ []
  pub split_calls : last.tool_calls ≡ calls ++ call ∷ []
  pub failed : call.failure ≡ some failure
  pub class : failure.class ≡ FailureClass.approval_pending

-- The class and the certainty of the last call that failed; or, if none did, that the turns are used up.
pub data Blames (result : AgentExecutionResult) (fault : ToolFault) : Type 0 where
  last_failure :
      (f : FailureRecord)
      → (pop_last (step_faults result.steps)).1 ≡ some f
      → fault.class ≡ f.class
      → fault.certainty ≡ f.effect_certainty
      → Blames result fault
  unfinished :
      AllSucceeded result.steps
      → result.completed ≡ false
      → fault.certainty ≡ EffectCertainty.uncertain
      → Blames result fault

pop_last-none : {A : Type 0} (xs : List A) → (pop_last xs).1 ≡ none → xs ≡ []
pop_last-none [] h = refl
pop_last-none (x ∷ []) h = absurd (cc)
pop_last-none (x ∷ y ∷ ys) h = absurd (cc (pop_last-none (y ∷ ys) h))

pop_last-In : {A : Type 0} (xs : List A) (a : A) → (pop_last xs).1 ≡ some a → In a xs
pop_last-In [] a h = absurd (cc)
pop_last-In (x ∷ []) a h = here (ground (arith, h))
pop_last-In (x ∷ y ∷ ys) a h = there (pop_last-In (y ∷ ys) a h)

pop_last-snoc : {A : Type 0} (xs : List A) (a : A) → (pop_last (xs ++ a ∷ [])).1 ≡ some a
pop_last-snoc [] a = refl
pop_last-snoc (x ∷ []) a = refl
pop_last-snoc (x ∷ y ∷ ys) a = pop_last-snoc (y ∷ ys) a

call_faults-append :
    (cs ds : List ToolExecutionRecord) → call_faults (cs ++ ds) ≡ call_faults cs ++ call_faults ds
call_faults-append [] ds = refl
call_faults-append (c ∷ cs) ds =
    ap (λ l. some_list c.failure ++ l) (call_faults-append cs ds)
    ∙ sym (append_assoc (some_list c.failure) (call_faults cs) (call_faults ds))

step_faults-append :
    (ss ts : List AgentStep) → step_faults (ss ++ ts) ≡ step_faults ss ++ step_faults ts
step_faults-append [] ts = refl
step_faults-append (s ∷ ss) ts =
    ap (λ l. call_faults s.tool_calls ++ l) (step_faults-append ss ts)
    ∙ sym (append_assoc (call_faults s.tool_calls) (step_faults ss) (step_faults ts))

abbrev Goes : FailureRecord → Type 0
Goes f = is_halting f.class ≡ false

call_faults-Goes :
    (cs : List ToolExecutionRecord) → all goes_on cs ≡ true → All Goes (call_faults cs)
call_faults-Goes [] h = tt
call_faults-Goes (c ∷ cs) h = elim (Option-cases c.failure) [
  | inl e ↦ rw e (call_faults-Goes cs (ground arith))
  | inr (f, e) ↦ rw e (ground (arith, e), call_faults-Goes cs (ground arith))
]

step_faults-Goes : (ss : List AgentStep) → all is_quiet ss ≡ true → All Goes (step_faults ss)
step_faults-Goes [] h = tt
step_faults-Goes (s ∷ ss) h =
    All-append Goes (call_faults s.tool_calls) (step_faults ss)
      (call_faults-Goes s.tool_calls (ground arith)) (step_faults-Goes ss (ground arith))

pending-halts :
    (c : FailureClass)
    → is_approval_pending c ≡ true
    → (c ≡ FailureClass.approval_pending) × (is_halting c ≡ true)
pending-halts FailureClass.approval_pending h = (refl, refl)
pending-halts FailureClass.cancelled h = absurd (cc)
pending-halts FailureClass.rejected h = absurd (cc)
pending-halts FailureClass.unavailable h = absurd (cc)
pending-halts FailureClass.timeout h = absurd (cc)
pending-halts FailureClass.uncertain h = absurd (cc)
pending-halts FailureClass.failed h = absurd (cc)
pending-halts FailureClass.malformed h = absurd (cc)

module _ (world : World) (engine : AgentEngine) where
  calls-succeeded :
      (turn : ℕ) (cs : List ToolExecutionRecord)
      → All (λ c. Succeeds world engine turn c ⊎ Fails world engine turn c) cs
      → call_faults cs ≡ []
      → All (λ (c : ToolExecutionRecord). c.success ≡ true) cs
        × (any (λ c. not c.success) cs ≡ false)
  calls-succeeded turn [] k h = (tt, refl)
  calls-succeeded turn (c ∷ cs) (inl (good, none_there), k) h =
      let (succeeded, none_failed) = calls-succeeded turn cs k (rw none_there at h) in
      ((good, succeeded), ground (arith, good, none_failed))
  calls-succeeded turn (c ∷ cs) (inr f, k) h = absurd (cc (rw f.failure at h))

  none_left : (xs ys : List FailureRecord) → xs ++ ys ≡ [] → (xs ≡ []) × (ys ≡ [])
  none_left [] ys h = (refl, h)
  none_left (x ∷ xs) ys h = absurd (cc)

  steps-succeeded :
      (ss : List AgentStep)
      → All (IsKept world engine) ss
      → step_faults ss ≡ []
      → AllSucceeded ss × (any_failed ss ≡ false)
  steps-succeeded [] k h = (tt, refl)
  steps-succeeded (s ∷ ss) (k, ks) h =
      let (here_none, later_none) = none_left (call_faults s.tool_calls) (step_faults ss) h in
      let (succeeded, none_failed) =
        calls-succeeded s.step_index s.tool_calls k.outcomes here_none in
      let (all_succeeded, none_later) = steps-succeeded ss ks later_none in
      ((succeeded, all_succeeded), ground (arith, none_failed, none_later))

  -- The last failure of a run waits for approval only where the run was halted by it.
  ends-Waits :
      (max_turns : ℕ) (res : AgentExecutionResult) (f : FailureRecord)
      → Closing world engine max_turns res
      → (pop_last (step_faults res.steps)).1 ≡ some f
      → is_approval_pending f.class ≡ true
      → Waits res.steps
  ends-Waits max_turns res f closing at pending =
      let (class, halts) = pending-halts f.class pending in
      let loud : all is_quiet res.steps ≡ true → ⊥ = λ quiet. absurd (
        cc (
          halts,
          All-In Goes (step_faults-Goes res.steps quiet) (pop_last-In (step_faults res.steps) f at),
        )) in
      elim closing [
        | with_answer before last split no_calls quiet done ↦ absurd (loud quiet)
        | at_limit taken quiet unfinished_run text ↦ absurd (loud quiet)
        | at_halt before last split quiet h unfinished_run ↦ elim (Option-cases h.last.failure) [
          | inl none_there ↦ absurd (ground (arith, none_there, h.loud))
          | inr (g, failed) ↦
              let faults : step_faults res.steps
                  ≡ (step_faults before ++ call_faults h.before) ++ g ∷ [] =
                ap step_faults split
                ∙ step_faults-append before (last ∷ [])
                ∙ ap (λ l. step_faults before ++ l)
                    (append-nil (call_faults last.tool_calls)
                      ∙ ap call_faults h.split
                      ∙ call_faults-append h.before (h.last ∷ [])
                      ∙ rw failed refl)
                ∙ sym (append_assoc (step_faults before) (call_faults h.before) (g ∷ [])) in
              let same : f ≡ g = ground (
                arith,
                rw faults at at,
                pop_last-snoc (step_faults before ++ call_faults h.before) g,
              ) in
              record {
                before = before;
                last = last;
                calls = h.before;
                call = h.last;
                failure = f;
                split = split;
                split_calls = h.split;
                failed = failed ∙ ap some (sym same);
                class = class;
              }
        ]
      ]

  -- What an outcome says of the result that it comes from.
  abbrev pub Says : AgentExecutionResult → TaskOutcome → Type 0
  Says result (TaskOutcome.completed v) =
      (result.completed ≡ true)
      × AllSucceeded result.steps
      × (v ≡ response_value result.final_response)
  Says result (TaskOutcome.failed fault) = Blames result fault
  Says result TaskOutcome.approval_pending = Waits result.steps
  Says result TaskOutcome.cancelled = ⊥

  of_failure-Says :
      (max_turns : ℕ) (res : AgentExecutionResult) (f : FailureRecord)
      → Closing world engine max_turns res
      → (pop_last (step_faults res.steps)).1 ≡ some f
      → Says res (of_failure f)
  of_failure-Says max_turns res f closing at = elim (Bool-cases (is_approval_pending f.class)) [
    | inl pending ↦ rw pending (ends-Waits max_turns res f closing at pending)
    | inr other ↦ rw other (last_failure f at refl refl)
  ]

  of_result-Says :
      (res : AgentExecutionResult)
      → AllSucceeded res.steps
      → any_failed res.steps ≡ false
      → Says res (of_result res)
  of_result-Says res succeeded none_failed = elim (Bool-cases res.completed) [
    | inl done ↦ rw (none_failed, done) (refl, succeeded, refl)
    | inr early ↦ rw (none_failed, early) (unfinished succeeded refl refl)
  ]

  agent_outcome-Says :
      (max_turns : ℕ) (res : AgentExecutionResult) (published : List EventEnvelope)
      → IsExecuted world engine max_turns res published
      → Says res (agent_outcome res)
  unfolding agent_outcome
  agent_outcome-Says max_turns res published k =
      elim (Option-cases (pop_last (step_faults res.steps)).1) [
        | inr (f, at) ↦ rw (at, agent_outcome) (of_failure-Says max_turns res f k.closing at)
        | inl at ↦
            let (succeeded, none_failed) =
              steps-succeeded res.steps k.kept (pop_last-none (step_faults res.steps) at) in
            rw (at, agent_outcome) (of_result-Says res succeeded none_failed)
      ]

  -- What a task body made of an agent answers: it says what became of the run, or the model failed.
  pub data Answers (default_system : String) (r : AgentTaskRunner) (t : TaskOutcome) : Type 0 where
    from_run :
        (o : Outcome world engine) (res : AgentExecutionResult)
        → execute_task world engine default_system r.goal r.max_turns ≡ some o
        → o.result ≡ ok res
        → Says res t
        → Answers default_system r t
    from_error :
        (o : Outcome world engine) (e : String)
        → execute_task world engine default_system r.goal r.max_turns ≡ some o
        → o.result ≡ err e
        → t
          ≡ TaskOutcome.failed (
              fault_of FailureClass.failed EffectCertainty.uncertain
                (redact_payload_echoes e (object (field "goal" (string r.goal) end))))
        → Answers default_system r t

  -- An agent that runs as a task always answers, and never as cancelled. It completes only if the run
  -- did, with the final response, and every call of a tool succeeded. It waits for approval only if the
  -- last call of its last step does. Otherwise it fails: with the class and certainty of the last call
  -- that failed; with an uncertain effect when its turns are used up; or, when the model failed, with an
  -- uncertain effect and the model's error, from which the goal is redacted.
  pub run-Answers :
      (default_system : String) (r : AgentTaskRunner)
      → (t : TaskOutcome) × (run world engine default_system r ≡ some t)
        × Answers default_system r t
  unfolding run
  run-Answers default_system r =
      let (o, at, executes) =
        execute_task-Executes world engine default_system r.goal r.max_turns in
      (
        outcome_of world engine r.goal o.result,
        rw (at, run) refl,
        answers o.result o at refl executes,
      )
    where
      answers :
          (x : Result String AgentExecutionResult) (o : Outcome world engine)
          → execute_task world engine default_system r.goal r.max_turns ≡ some o
          → o.result ≡ x
          → Executes world engine r.max_turns o
          → Answers default_system r (outcome_of world engine r.goal x)
      answers (ok res) o at same k =
          from_run o res at same (agent_outcome-Says r.max_turns res o.published (rw same at k))
      answers (err e) o at same k = from_error o e at same refl
