-- ===== src/Records/Session.antt =====
-- src/sessions/session.rs and src/sessions/message.rs. The fresh id and the clock reading that a
-- constructor takes are arguments.
use aegis_runtime.Json.{Value}
use aegis_runtime.Prelude.{ℕ, String, List, [], Option, none, some, Bool, str_eq, if◌then◌else◌}

pub data SessionStatus : Type 0 where
  active suspended closed : SessionStatus

abbrev pub as_str : SessionStatus → String
as_str SessionStatus.active = "active"
as_str SessionStatus.suspended = "suspended"
as_str SessionStatus.closed = "closed"

abbrev pub from_str : String → Option SessionStatus
from_str s =
    if str_eq s "active"
    then some SessionStatus.active
    else if str_eq s "suspended"
    then some SessionStatus.suspended
    else if str_eq s "closed"
    then some SessionStatus.closed
    else none

pub record SessionBudget : Type 0 where
  pub max_total_tokens : ℕ
  pub max_wall_time_secs : ℕ

abbrev pub default_budget : SessionBudget
default_budget = record { max_total_tokens = 128000; max_wall_time_secs = 3600 }

pub data Role : Type 0 where
  system user assistant tool : Role

-- A tool call of the inference module, as its documented JSON value.
pub data Message : Type 0 where
  system user : (id content : String) → (created_at : ℕ) → Message
  assistant :
      (id : String)
      → (content : Option String) → (tool_calls : List Value) → (created_at : ℕ) → Message
  tool : (id tool_call_id content : String) → (is_error : Bool) → (created_at : ℕ) → Message

abbrev pub message_id : Message → String
message_id (Message.system i c t) = i
message_id (Message.user i c t) = i
message_id (Message.assistant i c calls t) = i
message_id (Message.tool i call c e t) = i

abbrev pub role : Message → Role
role (Message.system i c t) = Role.system
role (Message.user i c t) = Role.user
role (Message.assistant i c calls t) = Role.assistant
role (Message.tool i call c e t) = Role.tool

-- The `match` of `append` in src/persistence/sqlite/messages.rs.
abbrev pub role_str : Role → String
role_str Role.system = "system"
role_str Role.user = "user"
role_str Role.assistant = "assistant"
role_str Role.tool = "tool"

abbrev pub message_time : Message → ℕ
message_time (Message.system i c t) = t
message_time (Message.user i c t) = t
message_time (Message.assistant i c calls t) = t
message_time (Message.tool i call c e t) = t

pub record Session : Type 0 where
  pub id : String
  pub parent_session_id : Option String
  pub status : SessionStatus
  pub objective : Option String
  pub agent_profile : String
  pub model_profile : String
  pub policy_profile : String
  pub messages : List Message
  pub budget : SessionBudget
  pub created_at : ℕ
  pub updated_at : ℕ
  pub version : ℕ

abbrev pub new_session : (id : String) (now : ℕ) → Option String → Session
new_session id now objective = record {
  id = id;
  parent_session_id = none;
  status = SessionStatus.active;
  objective = objective;
  agent_profile = "default";
  model_profile = "default";
  policy_profile = "default";
  messages = [];
  budget = default_budget;
  created_at = now;
  updated_at = now;
  version = 1;
}

abbrev pub branch : (id : String) (now : ℕ) → Session → Session
branch id now s = record s {
  id = id;
  parent_session_id = some s.id;
  status = SessionStatus.active;
  created_at = now;
  updated_at = now;
  version = 1;
}
