-- ===== src/Records/Approval.antt =====
-- src/defense/approval.rs.
use aegis_runtime.Prelude.{ℕ, String, Option, none, some, str_eq, if◌then◌else◌}

pub data ApprovalStatus : Type 0 where
  pending approved rejected expired : ApprovalStatus

abbrev pub as_str : ApprovalStatus → String
as_str ApprovalStatus.pending = "pending"
as_str ApprovalStatus.approved = "approved"
as_str ApprovalStatus.rejected = "rejected"
as_str ApprovalStatus.expired = "expired"

abbrev pub from_str : String → Option ApprovalStatus
from_str s =
    if str_eq s "pending"
    then some ApprovalStatus.pending
    else if str_eq s "approved"
    then some ApprovalStatus.approved
    else if str_eq s "rejected"
    then some ApprovalStatus.rejected
    else if str_eq s "expired"
    then some ApprovalStatus.expired
    else none

pub record Approval : Type 0 where
  pub id : String
  pub action_id : String
  pub run_id : String
  pub session_id : String
  pub prompt : String
  pub status : ApprovalStatus
  pub requested_at : ℕ
  pub decided_at : Option ℕ
  pub decided_by : Option String

abbrev pub new_approval :
    (id : String) (now : ℕ) (action_id run_id session_id prompt : String) → Approval
new_approval id now action_id run_id session_id prompt = record {
  id = id;
  action_id = action_id;
  run_id = run_id;
  session_id = session_id;
  prompt = prompt;
  status = ApprovalStatus.pending;
  requested_at = now;
  decided_at = none;
  decided_by = none;
}
