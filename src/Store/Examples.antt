-- ===== src/Store/Examples.antt =====
-- Calls of the stores of src/persistence/sqlite/ on small tables, with a codec that keeps a text for
-- each value that the examples use.
use aegis_runtime.Json.{null}
use aegis_runtime.Records.Session.{Session, SessionBudget, new_session, Message}
use aegis_runtime.Records.Run.{
  Run, RunState, RunBudget, Trigger, heartbeat, TerminationReason, new_run,
}
use aegis_runtime.Records.Run
use aegis_runtime.Records.Session
use aegis_runtime.Records.Action
use aegis_runtime.Records.Approval
use aegis_runtime.Records.Action.{Action, ActionReceipt, new_action, ActionStatus}
use aegis_runtime.Records.Approval.{Approval, new_approval, ApprovalStatus}
use aegis_runtime.Records.RoundTrips.{from_str_iff}
use aegis_runtime.Records.Session.{SessionStatus}
use aegis_runtime.Store.Database.{
  Serde, Codec, concurrency_conflict, active_run_conflict, Database, empty_database, ApprovalRow,
}
use aegis_runtime.Store.Messages.{list_messages}
use aegis_runtime.Store.Runs
use aegis_runtime.Store.Runs.OneActive.{
  HasOneActive, RunWrites-HasOneActive, unwritten, then_create, then_update,
}
use aegis_runtime.Store.Runs.Contract.{RunCodecs, Fits, get-create_run, get-update_run}
use aegis_runtime.Store.Sessions
use aegis_runtime.Store.Sessions.Contract.{update-update, update-current}
use aegis_runtime.Store.Actions
use aegis_runtime.Store.Approvals
use aegis_runtime.Store.Approvals.Contract.{list_pending_lem}
use aegis_runtime.Store.Table.Reading.{IsAscending}
use aegis_runtime.Store.Integrity.{IsIntact, run_created}
use aegis_runtime.Store.Integrity.Writes.{Write-IsIntact}
use aegis_runtime.Prelude.{
  In, String, ◌≡◌, refl, ◌↔◌, [], ◌∷◌, some, true, ok, err, arith, str_eq, if◌then◌else◌,
}

from_str_iff_example :
    ((x : RunState) → (Run.from_str "failed" ≡ some x) ↔ (Run.as_str x ≡ "failed"))
    × ((x : SessionStatus) → (Session.from_str "failed" ≡ some x) ↔ (Session.as_str x ≡ "failed"))
    × ((x : ActionStatus) → (Action.from_str "failed" ≡ some x) ↔ (Action.as_str x ≡ "failed"))
    × ((x : ApprovalStatus)
        → (Approval.from_str "failed" ≡ some x) ↔ (Approval.as_str x ≡ "failed"))
from_str_iff_example = from_str_iff "failed"

-- A codec for one value.
abbrev only : {A : Type 0} → A → Codec A
only a = record { encode = λ x. "{}"; decode = λ s. ok a }

abbrev serde : Serde
serde = record {
  trigger = only heartbeat;
  run_budget = only Run.default_budget;
  termination = only TerminationReason.completed;
  session_budget = only Session.default_budget;
  message = only (Message.user "msg_1" "hello" 5);
  params = only null;
  receipt = only (record {
    action_id = "act_1";
    session_id = "sess_1";
    run_id = "run_1";
    capability = "read_file";
    target = "a.txt";
    decision = Action.allow;
    output = "text";
    success = true;
    duration_ms = 3;
  });
}

abbrev session : Session
session = new_session "sess_1" 1 (some "goal")

abbrev a_run : Run
a_run = new_run "run_1" 2 "sess_1" heartbeat Run.default_budget

abbrev finished_run : Run
finished_run = record a_run { state = RunState.completed; steps_used = 4; completed_at = some 9 }

abbrev an_action : Action
an_action = new_action "act_1" 3 "run_1" "sess_1" "read_file" "look" null

abbrev an_approval : Approval
an_approval = new_approval "appr_1" 4 "act_1" "run_1" "sess_1" "may I?"

abbrev with_session : Database
with_session = record empty_database { sessions = Sessions.session_row serde session ∷ [] }

abbrev with_run : Database
with_run = record with_session { runs = Runs.run_row serde a_run ∷ [] }

abbrev with_action : Database
with_action = record with_run { actions = Actions.action_row serde an_action ∷ [] }

abbrev with_approval : Database
with_approval = record with_action { approvals = Approvals.approval_row an_approval ∷ [] }

abbrev second_run : Run
second_run = new_run "run_2" 5 "sess_1" heartbeat Run.default_budget

refuses_a_second_run :
    Runs.create serde with_run second_run ≡ err (active_run_conflict "sess_1" "run_1")
unfolding Runs.create
refuses_a_second_run = refl

creates_session : Sessions.create serde empty_database session ≡ ok with_session
unfolding Sessions.create
creates_session = refl

creates_run : Runs.create serde with_session a_run ≡ ok with_run
unfolding Runs.create
creates_run = refl

creates_action : Actions.create serde with_run an_action ≡ ok with_action
unfolding Actions.create
creates_action = refl

abbrev with_finished : Database
with_finished = record with_run {
  runs = Runs.set_run serde finished_run (Runs.run_row serde a_run) ∷ [];
}

updates_run : Runs.update serde with_run finished_run ≡ ok with_finished
unfolding Runs.update
updates_run = refl

session-HasOneActive : HasOneActive with_session
session-HasOneActive id = omega arith

RunWrites-HasOneActive_example : HasOneActive with_finished
RunWrites-HasOneActive_example =
    RunWrites-HasOneActive serde with_session with_finished session-HasOneActive (
      then_update finished_run (then_create a_run unwritten creates_run) (λ active. absurd (cc))
        updates_run)

run_codecs : RunCodecs serde a_run
run_codecs = record { trigger = refl; budget = refl; termination = refl }

a_run-Fits : Fits a_run
a_run-Fits = record { steps = omega arith; calls = omega arith; acts = omega arith }

get-create_run_example :
    ((id : String)
      → Runs.get serde with_run id
        ≡ (if str_eq "run_1" id then ok (some a_run) else Runs.get serde with_session id))
    × (Runs.get_active_run serde with_run "sess_1" ≡ ok (some a_run))
get-create_run_example =
    get-create_run serde with_session with_run a_run run_codecs a_run-Fits creates_run

finished-Fits : Fits finished_run
finished-Fits = record { steps = omega arith; calls = omega arith; acts = omega arith }

get-update_run_example :
    (e : Database) × (Runs.update serde with_run finished_run ≡ ok e)
    × ((id : String)
        → Runs.get serde e id
          ≡ (if str_eq "run_1" id then ok (some finished_run) else Runs.get serde with_run id))
get-update_run_example =
    get-update_run serde with_run finished_run (Runs.run_row serde a_run) heartbeat
      (record { trigger = refl; budget = refl; termination = refl }) finished-Fits refl refl

abbrev with_updated : Database
with_updated = record with_session {
  sessions = Sessions.set_session serde 7 session (Sessions.session_row serde session) ∷ [];
}

updates_session : Sessions.update serde 7 with_session session ≡ ok with_updated
unfolding Sessions.update
updates_session = refl

update-update_example :
    Sessions.update serde 8 with_updated session ≡ err (concurrency_conflict "sess_1" 1)
update-update_example =
    update-update serde 7 8 with_session with_updated session session updates_session refl refl

no_messages : list_messages serde with_session "sess_1" ≡ ok []
unfolding list_messages
no_messages = refl

update-current_example :
    (e : Database) × (Sessions.update serde 7 with_session session ≡ ok e)
    × (Sessions.get serde e "sess_1" ≡ ok (some (record session { updated_at = 7; version = 2 })))
update-current_example =
    update-current serde session refl 7 with_session (Sessions.session_row serde session) []
      (refl, tt) refl no_messages refl

abbrev denied_action : Action
denied_action = record an_action { status = ActionStatus.denied; completed_at = some 8 }

lists_pending : Approvals.list_pending with_approval ≡ ok (an_approval ∷ [])
unfolding Approvals.list_pending Approvals.read_approval
lists_pending = refl

list_pending_lem_example :
    IsAscending (λ (a : Approval). a.requested_at) (an_approval ∷ [])
    × ((a : Approval)
        → In a (an_approval ∷ []) ↔ (
            (r : ApprovalRow) × In r with_approval.approvals
            × (str_eq r.status "pending" ≡ true)
            × (Approvals.read_approval r ≡ ok a)))
list_pending_lem_example = list_pending_lem with_approval (an_approval ∷ []) lists_pending

session-IsIntact : IsIntact with_session
session-IsIntact = record {
  session_keys = (refl, tt);
  message_keys = tt;
  run_keys = tt;
  action_keys = tt;
  approval_keys = tt;
  message_refs = tt;
  run_refs = tt;
  action_refs = tt;
  approval_refs = tt;
}

Write-IsIntact_example : IsIntact with_run
Write-IsIntact_example =
    Write-IsIntact serde with_session with_run session-IsIntact (run_created a_run creates_run)
