-- ===== src/Store/Legacy.antt =====
-- src/persistence/legacy.rs: the tables of turns, heartbeats, tasks and memory crumbs, and the
-- transcript. Each call holds the connection's lock, so it is a function of the database; `now` is the
-- clock reading of the call. SQLite compares texts by their bytes, which is the order of code points.
-- `line` serialises an event for the transcript, and is none where that or opening the file fails.
pub mod Tasks
pub mod Pending
use aegis_runtime.Json.{Value, string, number, object, field, end}
use aegis_runtime.Store.Database.{SqlError}
use aegis_runtime.Store.Table.{update_where}
use aegis_runtime.Prelude.{
  text_leb, order_by, ℕ, ◌+◌, ◌^◌, String, List, [], ◌∷◌, ◌++◌, Option, none, some, Bool, true,
  false, not, ◌&&◌, Result, ok, err, str_eq, ◌==◌, leb, any, select, take, length, decimal,
  if◌then◌else◌,
}

pub record TaskRecord : Type 0 where
  pub id : String
  pub task_type : String
  pub payload : String
  pub status : String
  pub result : Option String
  pub created_at : String
  pub completed_at : Option String

pub record CrumbRecord : Type 0 where
  pub key : String
  pub value : String
  pub namespace : String
  pub created_at : String

-- A `u64` goes through an `i64` and comes back as it was.
pub record TurnRecord : Type 0 where
  pub id : ℕ
  pub session_id : String
  pub role : String
  pub prompt : String
  pub response : String
  pub duration_ms : ℕ
  pub created_at : String

pub record PulseReceipt : Type 0 where
  pub tick_id : ℕ
  pub timestamp : String
  pub status : String
  pub tasks_scanned : ℕ
  pub actions_dispatched : ℕ
  pub notes : String

-- `last_turn` is the counter of AUTOINCREMENT. `transcript` is none for a database in memory.
pub record LegacyDatabase : Type 0 where
  pub turns : List TurnRecord
  pub last_turn : ℕ
  pub heartbeats : List PulseReceipt
  pub tasks : List TaskRecord
  pub memory_crumbs : List CrumbRecord
  pub transcript : Option (List String)

abbrev pub open_in_memory : LegacyDatabase
open_in_memory = record {
  turns = [];
  last_turn = 0;
  heartbeats = [];
  tasks = [];
  memory_crumbs = [];
  transcript = none;
}

-- `LIMIT`: a `usize` from 2 ^ 63 on is a negative `i64`, which is no limit.
unfoldable pub limited {ℓ} : {R : Type ℓ} → ℕ → List R → List R
limited limit rows = if leb (2 ^ 63) limit then rows else take limit rows

abbrev pub with_status : TaskRecord → String → TaskRecord
with_status t s = record t { status = s }

abbrev pub is_pending : TaskRecord → Bool
is_pending t = str_eq t.status "pending"

abbrev pub earlier : TaskRecord → TaskRecord → Bool
earlier a b = text_leb a.created_at b.created_at

abbrev pub receipt_value : PulseReceipt → Value
receipt_value r = object (
    field "tick_id" (number (decimal r.tick_id)) (
      field "timestamp" (string r.timestamp) (
        field "status" (string r.status) (
          field "tasks_scanned" (number (decimal r.tasks_scanned)) (
            field "actions_dispatched" (number (decimal r.actions_dispatched))
              (field "notes" (string r.notes) end))))))

-- The row that `create_task` inserts.
abbrev pub new_task : (now : String) → (id task_type payload : String) → TaskRecord
new_task now id task_type payload = record {
  id = id;
  task_type = task_type;
  payload = payload;
  status = "pending";
  result = none;
  created_at = now;
  completed_at = none;
}

module _ (line : (event_type : String) → Value → Option String) where
  -- The time stamp of the event is part of `line`.
  unfoldable pub record_transcript : LegacyDatabase → String → Value → LegacyDatabase
  record_transcript d event_type data_value = elim d.transcript [
    | none ↦ d
    | some written ↦ elim (line event_type data_value) [
      | none ↦ d
      | some l ↦ record d { transcript = some (written ++ l ∷ []) }
    ]
  ]

  unfoldable pub record_turn :
      LegacyDatabase
      → (now : String) → (role prompt response : String) → (duration_ms : ℕ) → LegacyDatabase
  unfolding record_transcript
  record_turn d now role prompt response duration_ms =
      let row : TurnRecord = record {
        id = d.last_turn + 1;
        session_id = "default";
        role = role;
        prompt = prompt;
        response = response;
        duration_ms = duration_ms;
        created_at = now;
      } in
      record_transcript (record d { turns = d.turns ++ row ∷ []; last_turn = d.last_turn + 1 })
        "chat_turn"
        (object (
          field "role" (string role) (
            field "prompt" (string prompt) (
              field "response" (string response)
                (field "duration_ms" (number (decimal duration_ms)) end)))))

  unfoldable pub record_heartbeat_tick : LegacyDatabase → PulseReceipt → LegacyDatabase
  unfolding record_transcript
  record_heartbeat_tick d receipt =
      record_transcript
        (record d {
          heartbeats =
              select (λ r. not (r.tick_id == receipt.tick_id)) d.heartbeats ++ receipt ∷ [];
        })
        "heartbeat_tick" (receipt_value receipt)

  unfoldable pub create_task :
      LegacyDatabase
      → (now : String) → (id task_type payload : String) → Result SqlError LegacyDatabase
  unfolding record_transcript
  create_task d now id task_type payload =
      if any (λ t. str_eq t.id id) d.tasks
      then err SqlError.unique_constraint
      else ok (
          record_transcript (record d { tasks = d.tasks ++ new_task now id task_type payload ∷ [] })
            "task_created"
            (object (
              field "id" (string id)
                (field "task_type" (string task_type) (field "payload" (string payload) end)))))

  unfoldable pub complete_task :
      LegacyDatabase → (now : String) → (id result : String) → LegacyDatabase
  unfolding record_transcript
  complete_task d now id result =
      record_transcript
        (record d {
          tasks =
              update_where (λ t. str_eq t.id id)
                (λ t. record t {
                  status = "completed";
                  result = some result;
                  completed_at = some now;
                })
                d.tasks;
        })
        "task_completed"
        (object (
          field "id" (string id)
            (field "result" (string result) (field "completed_at" (string now) end))))

  unfoldable pub store_crumb :
      LegacyDatabase → (now : String) → (key value namespace : String) → LegacyDatabase
  unfolding record_transcript
  store_crumb d now key value namespace =
      let row : CrumbRecord = record {
        key = key;
        value = value;
        namespace = namespace;
        created_at = now;
      } in
      record_transcript
        (record d {
          memory_crumbs = select (λ c. not (str_eq c.key key)) d.memory_crumbs ++ row ∷ [];
        })
        "memory_crumb"
        (object (
          field "key" (string key)
            (field "value" (string value) (field "namespace" (string namespace) end))))

unfoldable pub list_recent_turns : LegacyDatabase → ℕ → List TurnRecord
unfolding limited
list_recent_turns d limit = limited limit (order_by (λ a b. leb b.id a.id) d.turns)

unfoldable pub list_pending_tasks : LegacyDatabase → List TaskRecord
list_pending_tasks d = order_by earlier (select is_pending d.tasks)

-- The number of rows that the UPDATE changed.
abbrev pub claimable : String → TaskRecord → Bool
claimable id t = str_eq t.id id && is_pending t

unfoldable pub claim_task : LegacyDatabase → String → LegacyDatabase × Bool
claim_task d id = (
  record d { tasks = update_where (claimable id) (λ t. with_status t "running") d.tasks },
  length (select (claimable id) d.tasks) == 1,
)

unfoldable pub get_recent_crumbs : LegacyDatabase → String → ℕ → List CrumbRecord
unfolding limited
get_recent_crumbs d namespace limit = limited limit (
    order_by (λ a b. text_leb b.created_at a.created_at)
      (select (λ c. str_eq c.namespace namespace) d.memory_crumbs))
