-- ===== src/Records/Action.antt =====
-- src/execution/action.rs, src/execution/receipt.rs and src/defense/decision.rs.
use aegis_runtime.Json.{Value}
use aegis_runtime.Prelude.{ℕ, String, List, Option, none, some, Bool, str_eq, if◌then◌else◌}

pub data ActionStatus : Type 0 where
  pending approved denied executing completed failed : ActionStatus

abbrev pub as_str : ActionStatus → String
as_str ActionStatus.pending = "pending"
as_str ActionStatus.approved = "approved"
as_str ActionStatus.denied = "denied"
as_str ActionStatus.executing = "executing"
as_str ActionStatus.completed = "completed"
as_str ActionStatus.failed = "failed"

abbrev pub from_str : String → Option ActionStatus
from_str s =
    if str_eq s "pending"
    then some ActionStatus.pending
    else if str_eq s "approved"
    then some ActionStatus.approved
    else if str_eq s "denied"
    then some ActionStatus.denied
    else if str_eq s "executing"
    then some ActionStatus.executing
    else if str_eq s "completed"
    then some ActionStatus.completed
    else if str_eq s "failed"
    then some ActionStatus.failed
    else none

pub data ContainmentLevel : Type 0 where
  observe restrict isolate_process isolate_workspace suspend_agent emergency_stop : ContainmentLevel

pub data DoctrineDecision : Type 0 where
  allow : DoctrineDecision
  allow_restricted : List String → DoctrineDecision
  require_approval : DoctrineDecision
  deny : String → DoctrineDecision
  contain : ContainmentLevel → DoctrineDecision

pub record ActionReceipt : Type 0 where
  pub action_id : String
  pub session_id : String
  pub run_id : String
  pub capability : String
  pub target : String
  pub decision : DoctrineDecision
  pub output : String
  pub success : Bool
  pub duration_ms : ℕ

pub record Action : Type 0 where
  pub id : String
  pub run_id : String
  pub session_id : String
  pub capability : String
  pub intent : String
  pub params : Value
  pub status : ActionStatus
  pub receipt : Option ActionReceipt
  pub created_at : ℕ
  pub completed_at : Option ℕ

abbrev pub new_action :
    (id : String) (now : ℕ) (run_id session_id capability intent : String) → Value → Action
new_action id now run_id session_id capability intent params = record {
  id = id;
  run_id = run_id;
  session_id = session_id;
  capability = capability;
  intent = intent;
  params = params;
  status = ActionStatus.pending;
  receipt = none;
  created_at = now;
  completed_at = none;
}
