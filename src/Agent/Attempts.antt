-- ===== src/Agent/Attempts.antt =====
-- What the records of the tool calls of src/agent.rs say of the attempts that were made.
use aegis_runtime.Failure.{
  FailureRecord, ToolFault, AttemptFailure, push_cause, skill_effect_profile,
}
use aegis_runtime.Failure.Retry.{IsLog}
use aegis_runtime.Redaction.{redact_payload_echoes}
use aegis_runtime.Agent.{ToolCallItem, ToolExecutionRecord, World, AgentEngine, attempt_tool}
use aegis_runtime.Agent.Loop.{failure_record, failure_records}
use aegis_runtime.Agent.Records.{failures_of}
use aegis_runtime.Prelude.{
  ℕ, ◌+◌, String, ◌≡◌, List, [], ◌∷◌, Option, none, some, true, false, Result, ok, err, arith,
}

-- The record of one failed attempt of a call.
pub record IsOf (call_id tool_name : String) (f : FailureRecord) (a : AttemptFailure) : Type 0 where
  pub call : f.tool_call_id ≡ call_id
  pub tool : f.tool_name ≡ tool_name
  pub attempt : f.attempt ≡ a.attempt
  pub class : f.class ≡ a.fault.class
  pub certainty : f.effect_certainty ≡ a.fault.certainty
  pub created : f.created_at ≡ a.created_at
  pub failed : f.failed_at ≡ a.failed_at

-- One record for each failed attempt, in order.
abbrev pub EachOf : (call_id tool_name : String) → List FailureRecord → List AttemptFailure → Type 0
EachOf call_id tool_name [] [] = Unit
EachOf call_id tool_name (f ∷ fs) (a ∷ later) =
    IsOf call_id tool_name f a × EachOf call_id tool_name fs later
EachOf call_id tool_name _ _ = ⊥

-- What a record says of the call's result: its output, or its fault, with the record of that.
abbrev pub Tells : ToolExecutionRecord → Result ToolFault String → Type 0
Tells rec (ok out) = (rec.success ≡ true) × (rec.failure ≡ none) × (rec.output ≡ out)
Tells rec (err fault) =
    (rec.success ≡ false)
    × (rec.output ≡ redact_payload_echoes fault.message rec.arguments)
    × ((f : FailureRecord) × (rec.failure ≡ some f)
        × (f.class ≡ fault.class)
        × (f.effect_certainty ≡ fault.certainty))

module _ (world : World) (engine : AgentEngine) where
  -- The record of a call of a turn is that of the attempts which the retry loop made at it.
  pub record Matches (turn call : ℕ) (rec : ToolExecutionRecord) : Type 0 where
    pub result : Result ToolFault String
    pub attempts : List AttemptFailure
    pub log :
        IsLog engine.policy.retry
          (skill_effect_profile rec.tool_name)
          (λ n.
            attempt_tool engine.policy.tool_timeout
              (skill_effect_profile rec.tool_name)
              (world.moment turn call n))
          (world.clock turn call)
          1
          attempts
          result
    pub told : Tells rec result
    pub each : EachOf rec.call_id rec.tool_name (failures_of rec) attempts

  -- The records of the calls of a turn, from a call on.
  abbrev pub AllMatch : (turn call : ℕ) → List ToolExecutionRecord → Type 0
  AllMatch turn call [] = Unit
  AllMatch turn call (rec ∷ recs) = Matches turn call rec × AllMatch turn (call + 1) recs

  failure_record-IsOf :
      (turn : ℕ) (tc : ToolCallItem) (parent : Option String) (seq : ℕ) (a : AttemptFailure)
      → IsOf tc.id tc.name (failure_record world engine turn tc parent seq a) a
  unfolding push_cause
  failure_record-IsOf turn tc parent seq a = ground arith

  pub failure_records-EachOf :
      (turn : ℕ) (tc : ToolCallItem) (parent : Option String) (seq : ℕ)
      (attempts : List AttemptFailure)
      → EachOf tc.id tc.name (failure_records world engine turn tc parent seq attempts) attempts
  failure_records-EachOf turn tc parent seq [] = tt
  failure_records-EachOf turn tc parent seq (a ∷ later) = (
    failure_record-IsOf turn tc parent (seq + 1) a,
    failure_records-EachOf turn tc parent (seq + 1) later,
  )
