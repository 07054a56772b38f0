-- ===== src/Agent.antt =====
-- src/agent.rs: the loop of model turns and tool calls, with the types of a model's answer from
-- src/inference.rs. The model, the dispatcher, the clock and the cancel token are taken from outside, by
-- turn, call and attempt (`World`).
pub mod Context
pub mod Loop
pub mod Task
pub mod Records
pub mod Attempts
mod Call
pub mod Calls
pub mod Steps
pub mod Turns
pub mod Executed
pub mod Sample
mod Examples
use aegis_runtime.Json.{
  Value, null, bool, number, string, array, object, Items, nil, cons, field, end, get,
}
use aegis_runtime.Events.{EventEnvelope, step_failed}
use aegis_runtime.Failure.{
  FailureClass, EffectCertainty, FailureRecord, RetryPolicy, ToolFault, AttemptFailure, Hashing,
  new_record, push_cause, retry_loop, skill_effect_profile, default_policy,
}
use aegis_runtime.Redaction.{redact_payload_echoes}
use aegis_runtime.Security.Workspace.{concat}
use aegis_runtime.Security.Gate.{or_else}
use aegis_runtime.Store.Legacy.{LegacyDatabase, record_turn}
use aegis_runtime.Prelude.{
  ℕ, zero, suc, ◌+◌, ◌*◌, ◌/◌, String, List, [], ◌∷◌, ◌++◌, map, Option, none, some, Bool, true,
  false, not, ◌&&◌, Result, ok, err, ltb, length, is_empty, trim, split_whitespace, decimal,
  text_append, if◌then◌else◌,
}

pub record ToolCallItem : Type 0 where
  pub id : String
  pub call_type : String
  pub name : String
  pub arguments : String

pub record ChatTurnResponse : Type 0 where
  pub content : Option String
  pub reasoning : Option String
  pub tool_calls : Option (List ToolCallItem)
  pub finish_reason : Option String

pub record ToolExecutionRecord : Type 0 where
  pub call_id : String
  pub tool_name : String
  pub arguments : Value
  pub output : String
  pub success : Bool
  pub failure : Option FailureRecord
  pub retry_failures : List FailureRecord

pub record FailurePolicy : Type 0 where
  pub retry : RetryPolicy
  pub tool_timeout : Option ℕ  -- milliseconds

abbrev pub default_failure_policy : FailurePolicy
default_failure_policy = record { retry = default_policy; tool_timeout = none }

pub record AgentStep : Type 0 where
  pub step_index : ℕ
  pub thought : Option String
  pub tool_calls : List ToolExecutionRecord

pub record AgentExecutionResult : Type 0 where
  pub final_response : String
  pub steps : List AgentStep
  pub turns_taken : ℕ
  pub duration_ms : ℕ
  pub completed : Bool

abbrev pub default_max_context_tokens : ℕ
default_max_context_tokens = 8192

-- What ends a guarded dispatch first: the dispatcher, the cancel token, or the deadline.
pub data Woken : Type 0 where
  by_answer by_cancel by_deadline : Woken

-- One attempt: whether the token is cancelled at its start, what the dispatcher answers, what comes first.
pub record Moment : Type 0 where
  pub is_cancelled : Bool
  pub answer : Result ToolFault String
  pub woken : Woken

pub record World : Type 0 where
  pub generate : (turn : ℕ) → List Value → Result String ChatTurnResponse
  pub moment : (turn call attempt : ℕ) → Moment
  pub clock : (turn call attempt : ℕ) → ℕ × ℕ
  pub from_str : String → Option Value
  pub to_string : Value → Option String
  pub hashing : Hashing
  pub stamp : ℕ → String × ℕ  -- the id and the time of the envelope of a failure
  pub elapsed : ℕ
  pub line : String → Value → Option String
  pub now : String

-- The engine, with the session of its event bus, if it has one.
pub record AgentEngine : Type 0 where
  pub policy : FailurePolicy
  pub events : Option (Option String)
  pub run_id : String
  pub db : Option LegacyDatabase

abbrev pub fault_of : FailureClass → EffectCertainty → String → ToolFault
fault_of class certainty message = record {
  class = class;
  certainty = certainty;
  message = message;
}

abbrev pub unknown_effect : Bool → EffectCertainty
unknown_effect idempotent =
    if idempotent then EffectCertainty.no_effect else EffectCertainty.uncertain

-- The `select!`, under the deadline where there is one.
abbrev pub guarded : Option ℕ → Bool → Woken → Result ToolFault String → Result ToolFault String
guarded timeout idempotent by_answer answer = answer
guarded timeout idempotent by_cancel answer =
    err (fault_of FailureClass.cancelled (unknown_effect idempotent) "cancelled while running")
guarded none idempotent by_deadline answer = answer
guarded (some d) idempotent by_deadline answer = err (
    fault_of FailureClass.timeout (unknown_effect idempotent)
      (concat ("deadline of " ∷ decimal d ∷ " ms exceeded" ∷ [])))

unfoldable pub attempt_tool : Option ℕ → Bool → Moment → Result ToolFault String
attempt_tool timeout idempotent m =
    if m.is_cancelled
    then err (fault_of FailureClass.cancelled EffectCertainty.no_effect "cancelled before dispatch")
    else guarded timeout idempotent m.woken m.answer

-- `(words * 4) / 3 + 4`
abbrev pub text_tokens : String → ℕ
text_tokens s = length (split_whitespace s) * 4 / 3 + 4

abbrev pub content_tokens : Option Value → ℕ
content_tokens (some (string s)) = text_tokens s
content_tokens _ = 0

module _ (to_string : Value → Option String) where
  abbrev pub call_tokens : Items → ℕ
  call_tokens nil = 0
  call_tokens (cons call calls) =
      (elim (to_string call) [ some s ↦ text_tokens s | none ↦ 0 ]) + call_tokens calls

  abbrev pub calls_tokens : Option Value → ℕ
  calls_tokens (some (array calls)) = call_tokens calls
  calls_tokens _ = 0

  unfoldable pub estimate_tokens : List Value → ℕ
  estimate_tokens [] = 0
  estimate_tokens (m ∷ ms) =
      content_tokens (get m "content") + calls_tokens (get m "tool_calls") + estimate_tokens ms

  -- The loop: what stands third is removed while there is too much.
  unfoldable pub prune_loop : ℕ → Value → Value → List Value → List Value × Bool
  prune_loop token_budget first second [] = (first ∷ second ∷ [], false)
  prune_loop token_budget first second (m ∷ ms) =
      let rest = prune_loop token_budget first second ms in
      if ltb token_budget (estimate_tokens (first ∷ second ∷ m ∷ ms))
      then (rest.0, true)
      else (first ∷ second ∷ m ∷ ms, false)

  unfoldable pub prune_context_window : List Value → ℕ → List Value × Bool
  unfolding prune_loop
  prune_context_window [] token_budget = ([], false)
  prune_context_window (m ∷ []) token_budget = (m ∷ [], false)
  prune_context_window (first ∷ second ∷ ms) token_budget = prune_loop token_budget first second ms
