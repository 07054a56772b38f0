-- ===== src/Records/RoundTrips.antt =====
-- The texts by which src/orchestration/run.rs, src/sessions/session.rs, src/execution/action.rs and
-- src/defense/approval.rs store their states.
use aegis_runtime.Records.Session.{SessionStatus}
use aegis_runtime.Records.Session
use aegis_runtime.Records.Run.{RunState}
use aegis_runtime.Records.Run
use aegis_runtime.Records.Action.{ActionStatus}
use aegis_runtime.Records.Action
use aegis_runtime.Records.Approval.{ApprovalStatus}
use aegis_runtime.Records.Approval
use aegis_runtime.Prelude.{String, ◌≡◌, refl, ◌↔◌, some, eq_iff, arith}

run_back : (x : RunState) → Run.from_str (Run.as_str x) ≡ some x
run_back RunState.running = refl
run_back RunState.waiting_for_approval = refl
run_back RunState.waiting_for_tool = refl
run_back RunState.completed = refl
run_back RunState.failed = refl
run_back RunState.cancelled = refl

run_forth : (s : String) (x : RunState) → Run.from_str s ≡ some x → Run.as_str x ≡ s
run_forth s x h = ground (
  arith,
  eq_iff s "running",
  eq_iff s "waiting_for_approval",
  eq_iff s "waiting_for_tool",
  eq_iff s "completed",
  eq_iff s "failed",
  eq_iff s "cancelled",
)

session_back : (x : SessionStatus) → Session.from_str (Session.as_str x) ≡ some x
session_back SessionStatus.active = refl
session_back SessionStatus.suspended = refl
session_back SessionStatus.closed = refl

session_forth :
    (s : String) (x : SessionStatus) → Session.from_str s ≡ some x → Session.as_str x ≡ s
session_forth s x h = ground (arith, eq_iff s "active", eq_iff s "suspended", eq_iff s "closed")

action_back : (x : ActionStatus) → Action.from_str (Action.as_str x) ≡ some x
action_back ActionStatus.pending = refl
action_back ActionStatus.approved = refl
action_back ActionStatus.denied = refl
action_back ActionStatus.executing = refl
action_back ActionStatus.completed = refl
action_back ActionStatus.failed = refl

action_forth : (s : String) (x : ActionStatus) → Action.from_str s ≡ some x → Action.as_str x ≡ s
action_forth s x h = ground (
  arith,
  eq_iff s "pending",
  eq_iff s "approved",
  eq_iff s "denied",
  eq_iff s "executing",
  eq_iff s "completed",
  eq_iff s "failed",
)

approval_back : (x : ApprovalStatus) → Approval.from_str (Approval.as_str x) ≡ some x
approval_back ApprovalStatus.pending = refl
approval_back ApprovalStatus.approved = refl
approval_back ApprovalStatus.rejected = refl
approval_back ApprovalStatus.expired = refl

approval_forth :
    (s : String) (x : ApprovalStatus) → Approval.from_str s ≡ some x → Approval.as_str x ≡ s
approval_forth s x h =
    ground (arith, eq_iff s "pending", eq_iff s "approved", eq_iff s "rejected", eq_iff s "expired")

pub run_iff : (s : String) (x : RunState) → (Run.from_str s ≡ some x) ↔ (Run.as_str x ≡ s)
run_iff s x = (run_forth s x, λ e. rw (← e) (run_back x))

pub session_iff :
    (s : String) (x : SessionStatus) → (Session.from_str s ≡ some x) ↔ (Session.as_str x ≡ s)
session_iff s x = (session_forth s x, λ e. rw (← e) (session_back x))

pub action_iff :
    (s : String) (x : ActionStatus) → (Action.from_str s ≡ some x) ↔ (Action.as_str x ≡ s)
action_iff s x = (action_forth s x, λ e. rw (← e) (action_back x))

pub approval_iff :
    (s : String) (x : ApprovalStatus) → (Approval.from_str s ≡ some x) ↔ (Approval.as_str x ≡ s)
approval_iff s x = (approval_forth s x, λ e. rw (← e) (approval_back x))

-- For each of the four state types, a text parses to a state exactly when it is the text by which the
-- state is stored: no two states share a text, and no other text parses.
pub from_str_iff :
    (s : String)
    → ((x : RunState) → (Run.from_str s ≡ some x) ↔ (Run.as_str x ≡ s))
      × ((x : SessionStatus) → (Session.from_str s ≡ some x) ↔ (Session.as_str x ≡ s))
      × ((x : ActionStatus) → (Action.from_str s ≡ some x) ↔ (Action.as_str x ≡ s))
      × ((x : ApprovalStatus) → (Approval.from_str s ≡ some x) ↔ (Approval.as_str x ≡ s))
from_str_iff s = (run_iff s, session_iff s, action_iff s, approval_iff s)
