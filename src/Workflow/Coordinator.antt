-- ===== src/Workflow/Coordinator.antt =====
-- `WorkflowExecutor::run` of src/orchestration/workflow.rs, as a machine. A turn of the coordinator
-- runs it to the next place where the bodies, the clock or the caller's token can matter: the top of
-- the loop, one task of the pass that starts tasks, or the `select!`. The flags of the two tokens
-- and of the deadline only ever rise. `JoinSet` may hand over any body that has ended.
pub mod Bodies
pub mod Core
pub mod Sound
pub mod Guarantees
pub mod Halt
pub mod Closing
use aegis_runtime.Events.{EventEnvelope}
use aegis_runtime.Workflow.Types.{TaskState, TaskNode, task_ids}
use aegis_runtime.Workflow.Ledger.{Env, Ledger, Recorder, state_of, transition}
use aegis_runtime.Workflow.Executor.{
  WorkflowConfig, WorkflowReport, Joined, Finish, finished, panicked, outcome, timed_out,
  interrupted, is_ready, cancel_open, propagate, join, report,
}
use aegis_runtime.Prelude.{
  ℕ, zero, suc, ◌+◌, ◌-◌, max, String, List, [], ◌∷◌, ◌++◌, map, Option, none, some, Bool, true,
  false, ◌&&◌, ◌||◌, not, str_eq, ◌==◌, length, lookup, insert, if◌then◌else◌,
}

pub data Phase : Type 0 where
  top : Phase
  starting : List TaskNode → Phase
  waiting : Phase
  ended : WorkflowReport → Phase

-- The coordinator's variables, the tokens and the deadline. `running` holds the bodies that are
-- spawned and not joined; one that has ended has its result and has given back its permit.
pub record Exec : Type 0 where
  pub rec : Recorder
  pub running : List (String × Option Joined)
  pub live : ℕ
  pub peak : ℕ
  pub run_cancelled : Bool
  pub cancel_seen : Bool
  pub budget_exhausted : Bool
  pub caller_cancelled : Bool
  pub deadline_passed : Bool
  pub phase : Phase

pub data Input : Type 0 where
  caller_cancel deadline : Input
  body_done : String → Joined → Input
  turn : (pick : String) → Input

-- Bodies that hold a permit.
abbrev pub unfinished : List (String × Option Joined) → ℕ
unfinished [] = 0
unfinished ((id, none) ∷ rs) = suc (unfinished rs)
unfinished ((id, some j) ∷ rs) = unfinished rs

-- The first body of that name that still runs ends with a result.
abbrev pub end_body :
    String → Joined → List (String × Option Joined) → List (String × Option Joined)
end_body id j [] = []
end_body id j ((k, some r) ∷ rs) = (k, some r) ∷ end_body id j rs
end_body id j ((k, none) ∷ rs) =
    if str_eq k id then (k, some j) ∷ rs else (k, none) ∷ end_body id j rs

-- The result of an ended body, and the others.
abbrev pub take_ended :
    String → List (String × Option Joined) → Option (Joined × List (String × Option Joined))
take_ended id [] = none
take_ended id ((k, some j) ∷ rs) =
    if str_eq k id
    then some (j, rs)
    else elim (take_ended id rs) [ none ↦ none | some (r, rest) ↦ some (r, (k, some j) ∷ rest) ]
take_ended id ((k, none) ∷ rs) = elim (take_ended id rs) [
  | none ↦ none
  | some (r, rest) ↦ some (r, (k, none) ∷ rest)
]

abbrev pub node_of : List TaskNode → String → Option TaskNode
node_of [] id = none
node_of (t ∷ ts) id = if str_eq t.id id then some t else node_of ts id

module _ (env : Env) (config : WorkflowConfig) (tasks : List TaskNode) where
  unfoldable pub start : Option (List EventEnvelope) → Exec
  start bus = record {
    rec = record {
      ledger = record {
        seq = 0;
        states = map (λ t. (t.id, TaskState.pending)) tasks;
        results = [];
        failures = [];
        events = [];
      };
      bus = bus;
      run_id = config.run_id;
      session_id = config.session_id;
    };
    running = [];
    live = 0;
    peak = 0;
    run_cancelled = false;
    cancel_seen = false;
    budget_exhausted = false;
    caller_cancelled = false;
    deadline_passed = false;
    phase = top;
  }

  -- The top of the loop: the deadline, the caller's token, and `cancel_open` when first seen.
  unfoldable pub observe : Exec → Exec
  observe s =
      let spent = not s.budget_exhausted && s.deadline_passed in
      let cancelled = s.run_cancelled || spent || s.caller_cancelled in
      let seen_now = not s.cancel_seen && cancelled in
      record s {
        budget_exhausted = s.budget_exhausted || spent;
        run_cancelled = cancelled;
        cancel_seen = s.cancel_seen || seen_now;
        rec = if seen_now then cancel_open env s.rec tasks else s.rec;
      }

  -- After the loop.
  unfoldable pub end_run : Exec → Exec
  end_run s =
      let rec' = if s.cancel_seen then cancel_open env s.rec tasks else s.rec in
      let last = report env rec' (task_ids tasks) s.peak s.budget_exhausted s.cancel_seen in
      record s { rec = last.0; phase = ended last.1 }

  -- `if live == 0 { break; }`, else on to the `select!`.
  unfoldable pub after_starts : Exec → Exec
  unfolding end_run
  after_starts s = if s.live == 0 then end_run s else record s { phase = waiting }

  unfoldable pub turn_top : Exec → Exec
  unfolding observe after_starts
  turn_top s =
      let o = observe s in
      if o.cancel_seen
      then after_starts o
      else record o { rec = propagate env (length tasks + 1) o.rec tasks; phase = starting tasks }

  unfoldable pub spawn : Exec → TaskNode → List TaskNode → Exec
  spawn s t ts =
      let running' = s.running ++ (t.id, none) ∷ [] in
      record s {
        rec = transition env s.rec t.id TaskState.running none;
        running = running';
        live = s.live + 1;
        peak = max s.peak (unfinished running');
        phase = starting ts;
      }

  -- One task of the pass that starts ready tasks.
  unfoldable pub turn_starting : Exec → TaskNode → List TaskNode → Exec
  unfolding after_starts spawn
  turn_starting s t ts =
      if is_ready (state_of s.rec t.id)
      then if s.caller_cancelled || s.run_cancelled || s.deadline_passed
        then record s { phase = top }
        else if unfinished s.running == config.max_parallel
        then after_starts s
        else spawn s t ts
      else record s { phase = starting ts }

  -- The `select!`, in its order.
  unfoldable pub turn_waiting : Exec → String → Exec
  unfolding end_run
  turn_waiting s pick =
      if s.caller_cancelled && not s.cancel_seen
      then record s { run_cancelled = true; phase = top }
      else if s.deadline_passed && not s.budget_exhausted
      then record s { budget_exhausted = true; run_cancelled = true; phase = top }
      else elim (take_ended pick s.running) [
        | none ↦ elim s.running [ [] ↦ end_run s | _ ↦ s ]
        | some (j, rest) ↦ elim (node_of tasks pick) [
          | none ↦ s
          | some t ↦ record s {
            rec = join env s.rec t j;
            running = rest;
            live = s.live - 1;
            phase = top;
          }
        ]
      ]

  unfoldable pub coordinate : Phase → Exec → String → Exec
  unfolding turn_top turn_starting after_starts turn_waiting
  coordinate top s pick = turn_top s
  coordinate (starting []) s pick = after_starts s
  coordinate (starting (t ∷ ts)) s pick = turn_starting s t ts
  coordinate waiting s pick = turn_waiting s pick
  coordinate (ended r) s pick = s

  -- A body can be interrupted only once the run's token has fired, and can time out only if the
  -- configuration gives a timeout.
  abbrev pub may_end : Exec → Joined → Bool
  may_end s (finished interrupted) = s.run_cancelled
  may_end s (finished timed_out) = elim config.per_task_timeout [ some _ ↦ true | none ↦ false ]
  may_end s _ = true

  unfoldable pub step : Exec → Input → Exec
  unfolding coordinate
  step s caller_cancel = record s { caller_cancelled = true }
  step s deadline = elim config.total_budget [
    | some _ ↦ record s { deadline_passed = true }
    | none ↦ s
  ]
  step s (body_done id j) =
      if may_end s j then record s { running = end_body id j s.running } else s
  step s (turn pick) = coordinate s.phase s pick

  unfoldable pub run : Exec → List Input → Exec
  unfolding step
  run s [] = s
  run s (i ∷ is) = run (step s i) is
