-- ===== src/Agent/Loop.antt =====
-- The tool calls of a turn in `execute_task` of src/agent.rs, with what the loop carries along.
use aegis_runtime.Json.{Value, string, array, object, Items, nil, cons, field, end}
use aegis_runtime.Events.{EventEnvelope, step_failed}
use aegis_runtime.Failure.{
  FailureClass, FailureRecord, ToolFault, AttemptFailure, new_record, push_cause, retry_loop,
  skill_effect_profile,
}
use aegis_runtime.Redaction.{redact_payload_echoes}
use aegis_runtime.Security.Workspace.{concat}
use aegis_runtime.Security.Gate.{or_else}
use aegis_runtime.Prelude.{
  ℕ, ◌+◌, String, List, [], ◌∷◌, ◌++◌, map, Option, none, some, true, false, Result, ok, err,
  length,
}
use aegis_runtime.Agent.{ToolCallItem, ToolExecutionRecord, World, AgentEngine, attempt_tool}

-- What the loop carries from call to call.
pub record Loop : Type 0 where
  pub messages : List Value
  pub failure_seq : ℕ
  pub last_failed_call : Option String
  pub published : List EventEnvelope

-- `pop`
abbrev pub pop_last {ℓ} : {A : Type ℓ} → List A → List A × Option A
pop_last [] = ([], none)
pop_last (x ∷ []) = ([], some x)
pop_last (x ∷ y ∷ ys) = let rest = pop_last (y ∷ ys) in (x ∷ rest.0, rest.1)

abbrev pub message : String → String → Value
message role content = object (field "role" (string role) (field "content" (string content) end))

abbrev pub call_value : ToolCallItem → Value
call_value tc = object (
    field "id" (string tc.id) (
      field "type" (string "function") (
        field "function"
          (object (field "name" (string tc.name) (field "arguments" (string tc.arguments) end)))
          end)))

abbrev pub call_values : List ToolCallItem → Items
call_values [] = nil
call_values (tc ∷ tcs) = cons (call_value tc) (call_values tcs)

abbrev pub assistant_message : Option String → List ToolCallItem → Value
assistant_message content tool_calls = object (
    field "role" (string "assistant") (
      field "content" (string (or_else content ""))
        (field "tool_calls" (array (call_values tool_calls)) end)))

abbrev pub tool_message : String → String → Value
tool_message id output = object (
    field "role" (string "tool")
      (field "tool_call_id" (string id) (field "content" (string output) end)))

-- Why the run is halted after a fault, if it is.
abbrev pub halted_by : String → FailureClass → Option String
halted_by id FailureClass.approval_pending = some (
    concat (
      "Halted: tool call " ∷ id ∷ " is waiting for approval and will not be replayed automatically."
      ∷ []))
halted_by id FailureClass.cancelled =
    some (concat ("Run cancelled during tool call " ∷ id ∷ "." ∷ []))
halted_by id _ = none

module _ (world : World) (engine : AgentEngine) where
  abbrev pub arguments_of : ToolCallItem → Value
  arguments_of tc =
      or_else (world.from_str tc.arguments) (object (field "raw" (string tc.arguments) end))

  -- The record of one failed attempt.
  abbrev pub failure_record :
      (turn : ℕ) → ToolCallItem → Option String → ℕ → AttemptFailure → FailureRecord
  failure_record turn tc parent seq a =
      let rec =
        new_record seq engine.run_id turn tc.id parent tc.name a.attempt a.fault.class
          a.fault.certainty a.created_at a.failed_at in
      push_cause world.hashing rec "tool_dispatch"
        (redact_payload_echoes a.fault.message (arguments_of tc)) (some (arguments_of tc))

  abbrev pub failure_records :
      (turn : ℕ) → ToolCallItem → Option String → ℕ → List AttemptFailure → List FailureRecord
  failure_records turn tc parent seq [] = []
  failure_records turn tc parent seq (a ∷ later) =
      failure_record turn tc parent (seq + 1) a ∷ failure_records turn tc parent (seq + 1) later

  abbrev pub envelope_of : Option String → FailureRecord → EventEnvelope
  envelope_of session_id rec = record {
    event_id = (world.stamp rec.sequence).0;
    session_id = session_id;
    run_id = some engine.run_id;
    sequence = rec.sequence;
    timestamp = (world.stamp rec.sequence).1;
    event = step_failed rec;
  }

  abbrev pub envelopes : List FailureRecord → List EventEnvelope
  envelopes recs = elim engine.events [
    | none ↦ []
    | some session_id ↦ map (envelope_of session_id) recs
  ]

  -- What follows the retry loop of a call: the loop's state, the record, and why to halt.
  abbrev pub after_call :
      (turn : ℕ)
      → Loop
      → ToolCallItem
      → Result ToolFault String
      → List AttemptFailure
      → Loop × ToolExecutionRecord × Option String
  after_call turn s tc (ok out) failed_attempts =
      let recs = failure_records turn tc s.last_failed_call s.failure_seq failed_attempts in
      (
        record {
          messages = s.messages ++ tool_message tc.id out ∷ [];
          failure_seq = s.failure_seq + length failed_attempts;
          last_failed_call = none;
          published = s.published ++ envelopes recs;
        },
        record {
          call_id = tc.id;
          tool_name = tc.name;
          arguments = arguments_of tc;
          output = out;
          success = true;
          failure = none;
          retry_failures = recs;
        },
        none,
      )
  after_call turn s tc (err fault) failed_attempts =
      let recs = failure_records turn tc s.last_failed_call s.failure_seq failed_attempts in
      let output = redact_payload_echoes fault.message (arguments_of tc) in
      (
        record {
          messages = s.messages ++ tool_message tc.id output ∷ [];
          failure_seq = s.failure_seq + length failed_attempts;
          last_failed_call = some tc.id;
          published = s.published ++ envelopes recs;
        },
        record {
          call_id = tc.id;
          tool_name = tc.name;
          arguments = arguments_of tc;
          output = output;
          success = false;
          failure = (pop_last recs).1;
          retry_failures = (pop_last recs).0;
        },
        halted_by tc.id fault.class,
      )

  -- `none` is the fuel of the retry loop that ran out.
  unfoldable pub call_tool :
      (turn call : ℕ) → Loop → ToolCallItem → Option (Loop × ToolExecutionRecord × Option String)
  call_tool turn call s tc =
      let idempotent = skill_effect_profile tc.name in
      elim (retry_loop engine.policy.retry idempotent
        (λ n. attempt_tool engine.policy.tool_timeout idempotent (world.moment turn call n))
        (world.clock turn call)) [
          | none ↦ none
          | some (result, failed_attempts) ↦ some (after_call turn s tc result failed_attempts)
        ]

  -- The calls of a turn, up to one that halts the run.
  unfoldable pub call_tools :
      (turn call : ℕ)
      → Loop
      → List ToolCallItem
      → Option (Loop × List ToolExecutionRecord × Option String)
  unfolding call_tool
  call_tools turn call s [] = some (s, [], none)
  call_tools turn call s (tc ∷ tcs) = elim (call_tool turn call s tc) [
    | none ↦ none
    | some (s', rec, some reason) ↦ some (s', rec ∷ [], some reason)
    | some (s', rec, none) ↦ elim (call_tools turn (call + 1) s' tcs) [
      | none ↦ none
      | some (s'', recs, halted) ↦ some (s'', rec ∷ recs, halted)
    ]
  ]
