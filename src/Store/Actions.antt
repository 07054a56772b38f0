-- ===== src/Store/Actions.antt =====
-- src/persistence/sqlite/actions.rs.
pub mod Contract
use aegis_runtime.Records.Action.{Action, ActionStatus, as_str, from_str}
use aegis_runtime.Store.Database.{
  Serde, SqlError, PersistenceError, sqlite, not_found, ActionRow, Database, has_session, has_run,
  has_action, decoded, decode_optional, encode_optional, parsed, read_all,
}
use aegis_runtime.Store.Table.{update_where, order_asc}
use aegis_runtime.Prelude.{
  String, List, [], ◌∷◌, ◌++◌, Option, none, some, Bool, true, false, ◌&&◌, Result, ok, err, ◌>>=◌,
  str_eq, any, find, select, text_append, if◌then◌else◌,
}

module _ (serde : Serde) where
  abbrev pub action_row : Action → ActionRow
  action_row a = record {
    id = a.id;
    run_id = a.run_id;
    session_id = a.session_id;
    capability = a.capability;
    intent = a.intent;
    params_json = serde.params.encode a.params;
    status = as_str a.status;
    receipt_json = encode_optional serde.receipt a.receipt;
    created_at = a.created_at;
    completed_at = a.completed_at;
  }

  unfoldable pub create : Database → Action → Result PersistenceError Database
  create d a =
      if has_action d a.id
      then err (sqlite SqlError.unique_constraint)
      else if has_session d a.session_id && has_run d a.run_id
      then ok (record d { actions = d.actions ++ action_row a ∷ [] })
      else err (sqlite SqlError.foreign_key_constraint)

  unfoldable pub read_action : ActionRow → Result PersistenceError Action
  read_action row = do
    params ← decoded (serde.params.decode row.params_json)
    status ← parsed (from_str row.status) (text_append "Invalid status: " row.status)
    receipt ← decode_optional serde.receipt row.receipt_json
    ok (record {
      id = row.id;
      run_id = row.run_id;
      session_id = row.session_id;
      capability = row.capability;
      intent = row.intent;
      params = params;
      status = status;
      receipt = receipt;
      created_at = row.created_at;
      completed_at = row.completed_at;
    })

  abbrev read_optional : Option ActionRow → Result PersistenceError (Option Action)
  read_optional none = ok none
  read_optional (some row) = read_action row >>= λ a. ok (some a)

  unfoldable pub get : Database → String → Result PersistenceError (Option Action)
  unfolding read_action
  get d id = read_optional (find (λ r. str_eq r.id id) d.actions)

  abbrev pub set_action : Action → ActionRow → ActionRow
  set_action a r = record r {
    status = as_str a.status;
    receipt_json = encode_optional serde.receipt a.receipt;
    completed_at = a.completed_at;
  }

  unfoldable pub update : Database → Action → Result PersistenceError Database
  update d a =
      if has_action d a.id
      then ok (record d { actions = update_where (λ r. str_eq r.id a.id) (set_action a) d.actions })
      else err (not_found a.id)

  unfoldable pub list_by_run : Database → String → Result PersistenceError (List Action)
  list_by_run d run_id =
      read_all read_action
        (order_asc (λ r. r.created_at) (select (λ r. str_eq r.run_id run_id) d.actions))
