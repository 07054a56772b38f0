-- ===== src/Store/Database.antt =====
-- The database of src/persistence/sqlite/schema.rs and the errors of src/persistence/error.rs. Each
-- store call runs alone on the connection, so it is a function of the database. The JSON codec of
-- serde is taken from outside. What SQLite says of a violated constraint is kept as the constraint.
use aegis_runtime.Json.{Value}
use aegis_runtime.Records.Session.{Message, SessionBudget}
use aegis_runtime.Records.Run.{Trigger, RunBudget, TerminationReason}
use aegis_runtime.Records.Action.{ActionReceipt}
use aegis_runtime.Prelude.{
  ℕ, String, List, [], ◌∷◌, Option, none, some, Bool, Result, ok, err, ◌>>=◌, str_eq, any,
}

pub data SqlError : Type 0 where
  unique_constraint foreign_key_constraint : SqlError

pub data PersistenceError : Type 0 where
  sqlite : SqlError → PersistenceError
  not_found : String → PersistenceError
  concurrency_conflict : (id : String) → (expected_version : ℕ) → PersistenceError
  active_run_conflict : (session_id active_run_id : String) → PersistenceError
  serialization : String → PersistenceError
  lock_poisoned : PersistenceError
  task_join other : String → PersistenceError

-- `serde_json::to_string` and `serde_json::from_str` at one type.
pub record Codec (A : Type 0) : Type 0 where
  pub encode : A → String
  pub decode : String → Result String A

pub record Serde : Type 0 where
  pub trigger : Codec Trigger
  pub run_budget : Codec RunBudget
  pub termination : Codec TerminationReason
  pub session_budget : Codec SessionBudget
  pub message : Codec Message
  pub params : Codec Value
  pub receipt : Codec ActionReceipt

pub record SessionRow : Type 0 where
  pub id : String
  pub parent_session_id : Option String
  pub status : String
  pub objective : Option String
  pub agent_profile : String
  pub model_profile : String
  pub policy_profile : String
  pub budget_json : String
  pub created_at : ℕ
  pub updated_at : ℕ
  pub version : ℕ

pub record MessageRow : Type 0 where
  pub id : String
  pub session_id : String
  pub role : String
  pub data_json : String
  pub created_at : ℕ

pub record RunRow : Type 0 where
  pub id : String
  pub session_id : String
  pub state : String
  pub trigger_json : String
  pub steps_used : ℕ
  pub inference_calls_used : ℕ
  pub actions_used : ℕ
  pub budget_json : String
  pub started_at : ℕ
  pub completed_at : Option ℕ
  pub termination_json : Option String

pub record ActionRow : Type 0 where
  pub id : String
  pub run_id : String
  pub session_id : String
  pub capability : String
  pub intent : String
  pub params_json : String
  pub status : String
  pub receipt_json : Option String
  pub created_at : ℕ
  pub completed_at : Option ℕ

pub record ApprovalRow : Type 0 where
  pub id : String
  pub action_id : String
  pub run_id : String
  pub session_id : String
  pub prompt : String
  pub status : String
  pub requested_at : ℕ
  pub decided_at : Option ℕ
  pub decided_by : Option String

pub record Database : Type 0 where
  pub sessions : List SessionRow
  pub messages : List MessageRow
  pub runs : List RunRow
  pub actions : List ActionRow
  pub approvals : List ApprovalRow

abbrev pub empty_database : Database
empty_database = record { sessions = []; messages = []; runs = []; actions = []; approvals = [] }

abbrev pub has_session : Database → String → Bool
has_session d id = any (λ (r : SessionRow). str_eq r.id id) d.sessions

abbrev pub has_run : Database → String → Bool
has_run d id = any (λ (r : RunRow). str_eq r.id id) d.runs

abbrev pub has_action : Database → String → Bool
has_action d id = any (λ (r : ActionRow). str_eq r.id id) d.actions

-- The `?` on a failed decoding, and the reading of an optional column.
abbrev pub decoded : {A : Type 0} → Result String A → Result PersistenceError A
decoded (ok a) = ok a
decoded (err e) = err (serialization e)

abbrev pub decode_optional :
    {A : Type 0} → Codec A → Option String → Result PersistenceError (Option A)
decode_optional c none = ok none
decode_optional c (some s) = decoded (c.decode s) >>= λ a. ok (some a)

abbrev pub encode_optional : {A : Type 0} → Codec A → Option A → Option String
encode_optional c none = none
encode_optional c (some a) = some (c.encode a)

-- `ok_or_else`
abbrev pub parsed : {A : Type 0} → Option A → String → Result PersistenceError A
parsed (some a) text = ok a
parsed none text = err (serialization text)

-- A loop that reads each row and stops at the first error.
abbrev pub read_all :
    {R A : Type 0} → (R → Result PersistenceError A) → List R → Result PersistenceError (List A)
read_all f [] = ok []
read_all f (r ∷ rs) = f r >>= λ a. read_all f rs >>= λ as'. ok (a ∷ as')
