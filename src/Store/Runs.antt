-- ===== src/Store/Runs.antt =====
-- src/persistence/sqlite/runs.rs. The counters are `u32` in the source, read back with `as u32`.
pub mod OneActive
pub mod Contract
use aegis_runtime.Records.Run.{Run, RunState, as_str, from_str}
use aegis_runtime.Store.Database.{
  Serde, SqlError, PersistenceError, sqlite, not_found, active_run_conflict, RunRow, Database,
  has_session, has_run, decoded, decode_optional, encode_optional, parsed, read_all,
}
use aegis_runtime.Store.Table.{update_where, order_desc}
use aegis_runtime.Prelude.{
  ℕ, ◌%◌, ◌^◌, String, List, [], ◌∷◌, ◌++◌, Option, none, some, Bool, true, false, ◌&&◌, ◌||◌,
  Result, ok, err, ◌>>=◌, str_eq, any, find, select, text_append, if◌then◌else◌,
}

-- `state IN ('running', 'waiting_for_approval', 'waiting_for_tool')`
abbrev pub active_state : String → Bool
active_state s =
    str_eq s "running" || str_eq s "waiting_for_approval" || str_eq s "waiting_for_tool"

abbrev pub active_in : String → RunRow → Bool
active_in session_id r = str_eq r.session_id session_id && active_state r.state

module _ (serde : Serde) where
  abbrev pub run_row : Run → RunRow
  run_row run = record {
    id = run.id;
    session_id = run.session_id;
    state = as_str run.state;
    trigger_json = serde.trigger.encode run.trigger;
    steps_used = run.steps_used;
    inference_calls_used = run.inference_calls_used;
    actions_used = run.actions_used;
    budget_json = serde.run_budget.encode run.budget;
    started_at = run.started_at;
    completed_at = run.completed_at;
    termination_json = encode_optional serde.termination run.termination;
  }

  -- What `get`, `list_by_session` and `get_active_run` do with a row.
  unfoldable pub read_run : RunRow → Result PersistenceError Run
  read_run row = do
    state ← parsed (from_str row.state) (text_append "Invalid state: " row.state)
    trigger ← decoded (serde.trigger.decode row.trigger_json)
    budget ← decoded (serde.run_budget.decode row.budget_json)
    termination ← decode_optional serde.termination row.termination_json
    ok (record {
      id = row.id;
      session_id = row.session_id;
      state = state;
      trigger = trigger;
      steps_used = row.steps_used % 2 ^ 32;
      inference_calls_used = row.inference_calls_used % 2 ^ 32;
      actions_used = row.actions_used % 2 ^ 32;
      budget = budget;
      started_at = row.started_at;
      completed_at = row.completed_at;
      termination = termination;
    })

  abbrev read_optional : Option RunRow → Result PersistenceError (Option Run)
  read_optional none = ok none
  read_optional (some row) = read_run row >>= λ run. ok (some run)

  -- `INSERT INTO runs`, with the primary key and the foreign key of the table.
  abbrev insert_run : Database → Run → Result PersistenceError Database
  insert_run d run =
      if has_run d run.id
      then err (sqlite SqlError.unique_constraint)
      else if has_session d run.session_id
      then ok (record d { runs = d.runs ++ run_row run ∷ [] })
      else err (sqlite SqlError.foreign_key_constraint)

  unfoldable pub create : Database → Run → Result PersistenceError Database
  create d run = elim (find (active_in run.session_id) d.runs) [
    | some row ↦ err (active_run_conflict run.session_id row.id)
    | none ↦ insert_run d run
  ]

  unfoldable pub get : Database → String → Result PersistenceError (Option Run)
  unfolding read_run
  get d id = read_optional (find (λ r. str_eq r.id id) d.runs)

  abbrev pub set_run : Run → RunRow → RunRow
  set_run run r = record r {
    state = as_str run.state;
    steps_used = run.steps_used;
    inference_calls_used = run.inference_calls_used;
    actions_used = run.actions_used;
    budget_json = serde.run_budget.encode run.budget;
    completed_at = run.completed_at;
    termination_json = encode_optional serde.termination run.termination;
  }

  unfoldable pub update : Database → Run → Result PersistenceError Database
  update d run =
      if has_run d run.id
      then ok (record d { runs = update_where (λ r. str_eq r.id run.id) (set_run run) d.runs })
      else err (not_found run.id)

  unfoldable pub list_by_session : Database → String → Result PersistenceError (List Run)
  list_by_session d session_id =
      read_all read_run
        (order_desc (λ r. r.started_at) (select (λ r. str_eq r.session_id session_id) d.runs))

  unfoldable pub get_active_run : Database → String → Result PersistenceError (Option Run)
  unfolding read_run
  get_active_run d session_id = read_optional (find (active_in session_id) d.runs)
