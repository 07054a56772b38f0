-- ===== src/Workflow/Examples.antt =====
-- Runs of src/orchestration/workflow.rs on two tasks, where the second needs the first.
use aegis_runtime.Json.{null}
use aegis_runtime.Failure.{EffectCertainty}
use aegis_runtime.Workflow.Types.{
  TaskState, TaskOutcome, TaskNode, TaskRunner, cycle, self_dependency,
}
use aegis_runtime.Workflow.Builder.{add_task, build}
use aegis_runtime.Workflow.Builder.Add.{IsWellFormed, Accepts, add_task_iff}
use aegis_runtime.Workflow.Builder.Build.{Builds, build-Builds}
use aegis_runtime.Workflow.Ledger.{
  Env, Recorder, state_of, transition, note_failure, failure, finish, event_for,
}
use aegis_runtime.Workflow.Executor.{
  WorkflowConfig, outcome, finished, cancel_open, cancel_one, propagate, propagate_pass,
  propagate_one, settle, join, report, is_running,
}
use aegis_runtime.Workflow.Coordinator.{
  Exec, Input, caller_cancel, body_done, turn, unfinished, start, observe, end_run, after_starts,
  turn_top, spawn, turn_starting, turn_waiting, coordinate, step, run,
}
use aegis_runtime.Workflow.Coordinator.Guarantees.{
  after, origin, Closes, run-Moves, run_bodies, run-IsJustified, run-IsHistory, run-IsKept,
  run-Settled,
}
use aegis_runtime.Workflow.Coordinator.Sound.{Linked}
use aegis_runtime.Workflow.Coordinator.Halt.{halted, run-NoneStarted}
use aegis_runtime.Workflow.Executor.Stable.{IsIdle, propagate-All}
use aegis_runtime.Workflow.Coordinator.Closing.{is_closed, run-is_closed}
use aegis_runtime.Workflow.Moves.{Moves}
use aegis_runtime.Workflow.Moves.Safety.{IsJustified}
use aegis_runtime.Workflow.Moves.Log.{IsHistory}
use aegis_runtime.Workflow.Moves.FailureNotes.{IsKept}
use aegis_runtime.Prelude.{
  All, false, ◌≤◌, String, ◌≡◌, refl, ◌↔◌, inr, List, [], ◌∷◌, ◌++◌, map, none, some, true, length,
  contains, keys, ok, err, insert,
}

abbrev body : TaskRunner
body = record { certainty_on_interrupt = EffectCertainty.uncertain }

abbrev task_a : TaskNode
task_a = record { id = "a"; deps = []; runner = body }

abbrev task_b : TaskNode
task_b = record { id = "b"; deps = "a" ∷ []; runner = body }

abbrev chain : List TaskNode
chain = task_a ∷ task_b ∷ []

abbrev env : Env
env = record {
  hashing = record { to_vec = λ v. some []; sha256 = λ bs. bs };
  event_id = λ n. "evt";
  timestamp = λ n. n;
  now = λ n. n;
}

abbrev config : WorkflowConfig
config = record {
  run_id = "run";
  session_id = "sess";
  max_parallel = 1;
  per_task_timeout = none;
  total_budget = none;
}

-- The first task runs and completes, then the caller cancels.
abbrev inputs : List Input
inputs =
    turn ""
    ∷ turn ""
    ∷ turn ""
    ∷ turn ""
    ∷ body_done "a" (finished (outcome (TaskOutcome.completed null)))
    ∷ turn "a"
    ∷ []

abbrev cancels : List Input
cancels = caller_cancel ∷ turn "" ∷ turn "" ∷ []

-- A run that its caller cancels at once.
abbrev ending : List Input
ending = caller_cancel ∷ turn "" ∷ []

records_the_end :
    map (λ e. e.state) (after env config chain (some []) ending).rec.events
    ≡ "cancelled" ∷ "cancelled" ∷ "finished" ∷ []
unfolding start observe end_run after_starts turn_top coordinate step run transition event_for
    insert cancel_open cancel_one failure note_failure finish report
records_the_end = refl

refuses_itself : add_task chain "c" ("c" ∷ []) body ≡ err (self_dependency "c")
unfolding add_task
refuses_itself = refl

finds_the_cycle :
    build (
      record { id = "x"; deps = "y" ∷ []; runner = body }
      ∷ record { id = "y"; deps = "x" ∷ []; runner = body }
      ∷ [])
    ≡ some (err (cycle ("y" ∷ "x" ∷ [])))
unfolding build
finds_the_cycle = refl

task_a-IsWellFormed : IsWellFormed (task_a ∷ [])
task_a-IsWellFormed = record { distinct = (refl, tt); nodes = ((refl, tt, refl), tt) }

chain-IsWellFormed : IsWellFormed chain
chain-IsWellFormed = record {
  distinct = (refl, (refl, tt));
  nodes = ((refl, tt, refl), ((refl, (refl, tt), refl), tt));
}

add_task_iff_example :
    (add_task (task_a ∷ []) "b" ("a" ∷ []) body ≡ ok chain)
    ↔ (Accepts (task_a ∷ []) task_b × (chain ≡ (task_a ∷ []) ++ task_b ∷ []))
add_task_iff_example = add_task_iff (task_a ∷ []) task_b chain

adds_b : add_task (task_a ∷ []) "b" ("a" ∷ []) body ≡ ok chain
unfolding add_task
adds_b = refl

build-Builds_example : Builds chain (build chain)
build-Builds_example = build-Builds chain chain-IsWellFormed

run-Moves_example :
    (before : Recorder) × Moves env chain (origin env config chain none) before
    × Linked env
        (after env config chain none inputs).phase
        before
        (after env config chain none inputs).rec
run-Moves_example = run-Moves env config chain none inputs

run_bodies_example :
    ((id : String)
      → is_running (state_of (after env config chain none inputs).rec id)
        ≡ contains (keys (after env config chain none inputs).running) id)
    × ((after env config chain none inputs).live
        ≡ length (after env config chain none inputs).running)
    × (unfinished (after env config chain none inputs).running ≤ 1)
    × ((after env config chain none inputs).peak ≤ 1)
run_bodies_example = run_bodies env config chain none inputs

run-IsJustified_example : IsJustified chain (after env config chain none inputs).rec
run-IsJustified_example = run-IsJustified env config chain none (refl, (refl, tt)) inputs

run-IsHistory_example :
    IsHistory (after env config chain (some []) ending).rec
    × Closes env config chain
        (some [])
        (after env config chain (some []) ending).phase
        (after env config chain (some []) ending).rec
run-IsHistory_example = run-IsHistory env config chain (some []) (inr refl) ending

run-IsKept_example : IsKept (after env config chain none inputs).rec
run-IsKept_example = run-IsKept env config chain none inputs

completes_a : state_of (after env config chain none inputs).rec "a" ≡ some TaskState.completed
unfolding start observe end_run after_starts turn_top spawn turn_starting turn_waiting coordinate
    step run transition event_for insert propagate propagate_pass propagate_one join settle
completes_a = refl

run-Settled_example :
    state_of (run env config chain (after env config chain none inputs) cancels).rec "a"
    ≡ some TaskState.completed
run-Settled_example =
    run-Settled env config chain none inputs cancels "a" TaskState.completed completes_a refl

-- The first task runs when the caller cancels.
abbrev cut : Exec
cut = run env config chain (start env config chain none) (turn "" ∷ turn "" ∷ caller_cancel ∷ [])

cut-halted : halted cut ≡ true
unfolding start observe end_run after_starts turn_top spawn turn_starting turn_waiting coordinate
    step run transition event_for insert propagate propagate_pass propagate_one join settle
cut-halted = refl

still_runs : contains (keys (run env config chain cut (turn "" ∷ turn "" ∷ [])).running) "a" ≡ true
unfolding start observe end_run after_starts turn_top spawn turn_starting turn_waiting coordinate
    step run transition event_for insert propagate propagate_pass propagate_one join settle
    cancel_open cancel_one failure note_failure finish report
still_runs = refl

run-NoneStarted_example : contains (keys cut.running) "a" ≡ true
run-NoneStarted_example =
    run-NoneStarted env config chain cut (turn "" ∷ turn "" ∷ []) "a" cut-halted still_runs

propagate-All_example :
    let v = propagate env 3 (origin env config chain none) chain in
    (propagate_pass env v chain ≡ (v, false)) × All (IsIdle v) chain
propagate-All_example = propagate-All env (origin env config chain none) chain

run-is_closed_example :
    is_closed (after env config chain none (turn "" ∷ turn "" ∷ caller_cancel ∷ turn "" ∷ [])).phase
    ≡ true
run-is_closed_example =
    run-is_closed env config chain none (turn "" ∷ turn "" ∷ caller_cancel ∷ turn "" ∷ [])
