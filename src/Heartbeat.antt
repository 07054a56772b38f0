-- ===== src/Heartbeat.antt =====
-- src/heartbeat.rs: pulses over the task queue. A pulse gives up control at each call of the database
-- and at each await, so it is a machine that goes from one such place to the next, and a list of inputs
-- is an interleaving of several pulses with the callers that queue tasks. What the calls meet (`World`)
-- is part of the input. The record in the Crumb ledger, a process whose result is dropped, is left out.
pub mod Queue
mod Turn
pub mod Once
pub mod Alone
pub mod Shell
mod Examples
use aegis_runtime.Json.{Value}
use aegis_runtime.Security.Paths.{Component}
use aegis_runtime.Security.Workspace.{SecurityError, error_text, concat}
use aegis_runtime.Security.Shell.{Outside, Ran}
use aegis_runtime.Security.Gate.{Probing, dispatch_shell_gated}
use aegis_runtime.Store.Database.{SqlError}
use aegis_runtime.Store.Legacy.{
  TaskRecord, PulseReceipt, LegacyDatabase, record_heartbeat_tick, create_task, list_pending_tasks,
  claim_task, complete_task, store_crumb,
}
use aegis_runtime.Prelude.{
  ℕ, zero, suc, ◌+◌, ◌%◌, ◌^◌, String, List, [], ◌∷◌, ◌++◌, map, Option, none, some, Bool, true,
  false, ◌||◌, Result, ok, err, str_eq, is_empty, trim, length, decimal, get_elem?, if◌then◌else◌,
}

pub record Env : Type 0 where
  pub out : Outside
  pub root : List Component
  pub probing : Probing
  pub enforce : Option String
  pub line : String → Value → Option String

-- The clock, whether the call of the database fails, and whether the model seat is healthy.
pub record World : Type 0 where
  pub now : String
  pub fails : Bool
  pub is_healthy : Bool

-- The variables of `pulse_once`.
pub record Vars : Type 0 where
  pub tick : ℕ
  pub now : String
  pub tasks_count : ℕ
  pub actions : ℕ

-- Where a pulse stands: before it lists the tasks; at the head of the loop; with a claimed task to work
-- on; with the result of one to record; at its end.
pub data Phase : Type 0 where
  listing : Vars → Phase
  looping : Vars → List TaskRecord → Phase
  working : Vars → TaskRecord → List TaskRecord → Phase
  recording : Vars → TaskRecord → String → List TaskRecord → Phase
  ended : PulseReceipt → Phase

-- `dispatched` has the ids of the tasks whose work was begun, `ran` the shell command lines with the
-- commands that they come from, and `tx_pulse` the receipts that were sent.
pub record Engine : Type 0 where
  pub tick_counter : ℕ
  pub db : LegacyDatabase
  pub is_running : Bool
  pub loops : ℕ
  pub tx_pulse : List PulseReceipt
  pub dispatched : List String
  pub ran : List (String × String × List Component)

abbrev pub new : LegacyDatabase → Engine
new db = record {
  tick_counter = 0;
  db = db;
  is_running = false;
  loops = 0;
  tx_pulse = [];
  dispatched = [];
  ran = [];
}

-- The patterns of the `match` on the type of a task.
pub data Kind : Type 0 where
  model_health shell_exec consolidate_memory system_telemetry other : Kind

abbrev pub kind_of : String → Kind
kind_of task_type =
    if str_eq task_type "model_health" || str_eq task_type "max_health"
    then model_health
    else if str_eq task_type "build_monitor" || str_eq task_type "shell_exec"
    then shell_exec
    else if str_eq task_type "consolidate_memory"
    then consolidate_memory
    else if str_eq task_type "system_telemetry"
    then system_telemetry
    else other

abbrev pub command_of : TaskRecord → String
command_of task = if is_empty task.payload then "echo 'empty build task'" else task.payload

abbrev pub shell_text : Result SecurityError String → String
shell_text (ok stdout) = concat ("Exit code 0: " ∷ trim stdout ∷ [])
shell_text (err e) = concat ("Execution failure: " ∷ error_text e ∷ [])

abbrev pub health_text : Bool → String
health_text true = "Local model seat verified ACTIVE on port 18006"
health_text false = "Local model seat unreachable or offline on port 18006"

abbrev pub receipt_of : Vars → PulseReceipt
receipt_of v = record {
  tick_id = v.tick;
  timestamp = v.now;
  status = "nominal";
  tasks_scanned = v.tasks_count;
  actions_dispatched = v.actions;
  notes = concat (
      "Autonomous tick #"
      ∷ decimal v.tick
      ∷ " processed "
      ∷ decimal v.tasks_count
      ∷ " pending tasks"
      ∷ []);
}

abbrev pub acted : Vars → Vars
acted v = record v { actions = v.actions + 1 }

-- What the shell did, and the text of the result.
abbrev pub shelled : Engine → String → Ran → Engine × String
shelled e command shell =
    (record e { ran = e.ran ++ map (λ r. (command, r.0, r.1)) shell.ran }, shell_text shell.result)

-- `claim_task` answers: another pulse may have taken the task.
abbrev pub claimed :
    Engine → Vars → TaskRecord → List TaskRecord → LegacyDatabase × Bool → Engine × Phase
claimed e v task todo (db', true) =
    (record e { db = db'; dispatched = e.dispatched ++ task.id ∷ [] }, working v task todo)
claimed e v task todo (db', false) = (record e { db = db' }, looping v todo)

-- `pulse_once` is called: the next tick, modulo 2 ^ 64.
abbrev pub pulse_once : World → Engine → Engine × Phase
pulse_once w e =
    let tick = (e.tick_counter + 1) % 2 ^ 64 in
    (
      record e { tick_counter = tick },
      listing (record { tick = tick; now = w.now; tasks_count = 0; actions = 0 }),
    )

-- The loop is spawned once; what it does is to call `pulse_once`.
unfoldable pub start_loop : Engine → Engine
start_loop e = if e.is_running then e else record e { is_running = true; loops = e.loops + 1 }

-- Several pulses of one engine.
pub record System : Type 0 where
  pub engine : Engine
  pub pulses : List Phase

pub data Input : Type 0 where
  pulse : World → Input
  advance : ℕ → World → Input
  enqueue : World → (id task_type payload : String) → Input
  start : Input

abbrev pub set : List Phase → ℕ → Phase → List Phase
set [] i p = []
set (q ∷ qs) zero p = p ∷ qs
set (q ∷ qs) (suc i) p = q ∷ set qs i p

abbrev pub queued : Engine → Result SqlError LegacyDatabase → Engine
queued e (ok db) = record e { db = db }
queued e (err _) = e

module _ (env : Env) where
  -- The arms of the `match` on the type of a claimed task.
  abbrev pub work_as : World → Engine → ℕ → TaskRecord → Kind → Engine × String
  work_as w e tick task model_health = (e, health_text w.is_healthy)
  work_as w e tick task shell_exec =
      shelled e (command_of task)
        (dispatch_shell_gated env.probing env.out env.root env.enforce (command_of task) none 15)
  work_as w e tick task consolidate_memory = (
    if w.fails then e else record e {
      db =
          store_crumb env.line e.db w.now (concat ("consolidation_tick_" ∷ decimal tick ∷ []))
            "Episodic memory consolidated into WAL" "heartbeat";
    },
    "Memory crumbs recorded",
  )
  work_as w e tick task system_telemetry = (e, "System telemetry nominal: GB10 aarch64")
  work_as w e tick task other = (e, "Autonomous task processed by heartbeat loop")

  unfoldable pub work : World → Engine → ℕ → TaskRecord → Engine × String
  work w e tick task = work_as w e tick task (kind_of task.task_type)

  -- From one place where a pulse gives up control to the next.
  unfoldable pub turn : World → Engine → Phase → Engine × Phase
  unfolding work
  turn w e (listing v) =
      let pending_tasks = if w.fails then [] else list_pending_tasks e.db in
      (e, looping (record v { tasks_count = length pending_tasks }) pending_tasks)
  turn w e (looping v []) =
      let receipt = receipt_of v in
      (
        record e {
          db = if w.fails then e.db else record_heartbeat_tick env.line e.db receipt;
          tx_pulse = e.tx_pulse ++ receipt ∷ [];
        },
        ended receipt,
      )
  turn w e (looping v (task ∷ todo)) =
      if w.fails then (e, looping v todo) else claimed e v task todo (claim_task e.db task.id)
  turn w e (working v task todo) =
      let (e', res_text) = work w e v.tick task in (e', recording v task res_text todo)
  turn w e (recording v task res_text todo) = (
    record e { db = if w.fails then e.db else complete_task env.line e.db w.now task.id res_text },
    looping (acted v) todo,
  )
  turn w e (ended receipt) = (e, ended receipt)

  unfoldable pub step : System → Input → System
  unfolding turn
  step s (pulse w) =
      let (e, p) = pulse_once w s.engine in record { engine = e; pulses = s.pulses ++ p ∷ [] }
  step s (advance i w) = elim (get_elem? s.pulses i) [
    | none ↦ s
    | some p ↦ let (e, p') = turn w s.engine p in record { engine = e; pulses = set s.pulses i p' }
  ]
  step s (enqueue w id task_type payload) = record s {
    engine = queued s.engine (create_task env.line s.engine.db w.now id task_type payload);
  }
  step s start = record s { engine = start_loop s.engine }

  unfoldable pub run : System → List Input → System
  unfolding step
  run s [] = s
  run s (i ∷ is) = run (step s i) is
