-- ===== src/Store/Sessions.antt =====
-- src/persistence/sqlite/sessions.rs. A version is a `u64` that the table keeps as an `i64`; it starts
-- at 1 and rises by 1, so it stays below 2 ^ 63, as do the limit and the offset of `list`.
pub mod Contract
use aegis_runtime.Records.Session.{Session, SessionStatus, Message, as_str, from_str}
use aegis_runtime.Store.Database.{
  Serde, SqlError, PersistenceError, sqlite, concurrency_conflict, SessionRow, MessageRow, Database,
  has_session, decoded, parsed, read_all,
}
use aegis_runtime.Store.Messages.{list_messages}
use aegis_runtime.Store.Table.{update_where, order_desc}
use aegis_runtime.Prelude.{
  ℕ, ◌+◌, String, List, [], ◌∷◌, ◌++◌, Option, none, some, Bool, true, false, ◌&&◌, Result, ok, err,
  ◌>>=◌, str_eq, ◌==◌, any, find, select, take, drop, text_append, if◌then◌else◌,
}

module _ (serde : Serde) where
  abbrev pub session_row : Session → SessionRow
  session_row s = record {
    id = s.id;
    parent_session_id = s.parent_session_id;
    status = as_str s.status;
    objective = s.objective;
    agent_profile = s.agent_profile;
    model_profile = s.model_profile;
    policy_profile = s.policy_profile;
    budget_json = serde.session_budget.encode s.budget;
    created_at = s.created_at;
    updated_at = s.updated_at;
    version = s.version;
  }

  unfoldable pub create : Database → Session → Result PersistenceError Database
  create d s =
      if has_session d s.id
      then err (sqlite SqlError.unique_constraint)
      else ok (record d { sessions = d.sessions ++ session_row s ∷ [] })

  -- A row with the messages that go with it.
  unfoldable pub read_session :
      Result PersistenceError (List Message) → SessionRow → Result PersistenceError Session
  read_session messages row = do
    status ← parsed (from_str row.status) (text_append "Invalid status: " row.status)
    budget ← decoded (serde.session_budget.decode row.budget_json)
    loaded ← messages
    ok (record {
      id = row.id;
      parent_session_id = row.parent_session_id;
      status = status;
      objective = row.objective;
      agent_profile = row.agent_profile;
      model_profile = row.model_profile;
      policy_profile = row.policy_profile;
      messages = loaded;
      budget = budget;
      created_at = row.created_at;
      updated_at = row.updated_at;
      version = row.version;
    })

  abbrev read_optional : Database → Option SessionRow → Result PersistenceError (Option Session)
  read_optional d none = ok none
  read_optional d (some row) = read_session (list_messages serde d row.id) row >>= λ s. ok (some s)

  unfoldable pub get : Database → String → Result PersistenceError (Option Session)
  unfolding read_session
  get d id = read_optional d (find (λ r. str_eq r.id id) d.sessions)

  -- `WHERE id = ?9 AND version = ?10`
  abbrev pub current : Session → SessionRow → Bool
  current s r = str_eq r.id s.id && (r.version == s.version)

  abbrev pub set_session : (now : ℕ) → Session → SessionRow → SessionRow
  set_session now s r = record r {
    parent_session_id = s.parent_session_id;
    status = as_str s.status;
    objective = s.objective;
    agent_profile = s.agent_profile;
    model_profile = s.model_profile;
    policy_profile = s.policy_profile;
    budget_json = serde.session_budget.encode s.budget;
    updated_at = now;
    version = r.version + 1;
  }

  unfoldable pub update : (now : ℕ) → Database → Session → Result PersistenceError Database
  update now d s =
      if any (current s) d.sessions
      then ok (record d { sessions = update_where (current s) (set_session now s) d.sessions })
      else err (concurrency_conflict s.id s.version)

  unfoldable pub list : Database → (limit offset : ℕ) → Result PersistenceError (List Session)
  list d limit offset =
      read_all (read_session (ok []))
        (take limit (drop offset (order_desc (λ r. r.updated_at) d.sessions)))
