-- ===== src/Store/Approvals.antt =====
-- src/persistence/sqlite/approvals.rs.
pub mod Contract
use aegis_runtime.Records.Approval.{Approval, ApprovalStatus, as_str, from_str}
use aegis_runtime.Store.Database.{
  SqlError, PersistenceError, sqlite, not_found, ApprovalRow, Database, has_session, has_run,
  has_action, parsed, read_all,
}
use aegis_runtime.Store.Table.{update_where, order_asc}
use aegis_runtime.Prelude.{
  String, List, [], ◌∷◌, ◌++◌, Option, none, some, Bool, true, false, ◌&&◌, Result, ok, err, ◌>>=◌,
  str_eq, any, find, select, text_append, if◌then◌else◌,
}

abbrev pub approval_row : Approval → ApprovalRow
approval_row a = record {
  id = a.id;
  action_id = a.action_id;
  run_id = a.run_id;
  session_id = a.session_id;
  prompt = a.prompt;
  status = as_str a.status;
  requested_at = a.requested_at;
  decided_at = a.decided_at;
  decided_by = a.decided_by;
}

unfoldable pub create : Database → Approval → Result PersistenceError Database
create d a =
    if any (λ (r : ApprovalRow). str_eq r.id a.id) d.approvals
    then err (sqlite SqlError.unique_constraint)
    else if has_session d a.session_id && has_run d a.run_id && has_action d a.action_id
    then ok (record d { approvals = d.approvals ++ approval_row a ∷ [] })
    else err (sqlite SqlError.foreign_key_constraint)

unfoldable pub read_approval : ApprovalRow → Result PersistenceError Approval
read_approval row =
    parsed (from_str row.status) (text_append "Invalid status: " row.status) >>= λ status.
    ok (record {
      id = row.id;
      action_id = row.action_id;
      run_id = row.run_id;
      session_id = row.session_id;
      prompt = row.prompt;
      status = status;
      requested_at = row.requested_at;
      decided_at = row.decided_at;
      decided_by = row.decided_by;
    })

abbrev read_optional : Option ApprovalRow → Result PersistenceError (Option Approval)
read_optional none = ok none
read_optional (some row) = read_approval row >>= λ a. ok (some a)

unfoldable pub get : Database → String → Result PersistenceError (Option Approval)
unfolding read_approval
get d id = read_optional (find (λ r. str_eq r.id id) d.approvals)

abbrev pub set_approval : Approval → ApprovalRow → ApprovalRow
set_approval a r = record r {
  status = as_str a.status;
  decided_at = a.decided_at;
  decided_by = a.decided_by;
}

unfoldable pub update : Database → Approval → Result PersistenceError Database
update d a =
    if any (λ (r : ApprovalRow). str_eq r.id a.id) d.approvals
    then ok
        (record d { approvals = update_where (λ r. str_eq r.id a.id) (set_approval a) d.approvals })
    else err (not_found a.id)

-- `WHERE status = 'pending' ORDER BY requested_at ASC`
unfoldable pub list_pending : Database → Result PersistenceError (List Approval)
list_pending d =
    read_all read_approval
      (order_asc (λ r. r.requested_at) (select (λ r. str_eq r.status "pending") d.approvals))
