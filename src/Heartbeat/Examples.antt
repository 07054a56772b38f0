-- ===== src/Heartbeat/Examples.antt =====
-- Pulses of src/heartbeat.rs over three queued tasks, alone and interleaved.
use aegis_runtime.Security.Shell.{dispatch_shell}
use aegis_runtime.Security.Gate.{dispatch_shell_gated}
use aegis_runtime.Security.Sample.{workspace, outside, probing, less_trans}
use aegis_runtime.Store.Legacy.{
  LegacyDatabase, open_in_memory, new_task, list_pending_tasks, create_task, claim_task,
  complete_task,
}
use aegis_runtime.Store.Legacy.Pending.{ids}
use aegis_runtime.Heartbeat.{
  Env, World, ended, new, receipt_of, start_loop, Input, pulse, advance, enqueue, start, run,
}
use aegis_runtime.Heartbeat.Once.{IsSound, run-IsOnce}
use aegis_runtime.Heartbeat.Shell.{IsGuarded, run-IsGuarded}
use aegis_runtime.Heartbeat.Alone.{run-Finishes}
use aegis_runtime.Prelude.{◌≡◌, refl, List, [], ◌∷◌, map, none, true, false, All, length, arith}

abbrev env : Env
env = record {
  out = outside;
  root = workspace;
  probing = probing;
  enforce = none;
  line = λ event_type v. none;
}

abbrev w : World
w = record { now = "2026-01-01T00:00:02+00:00"; fails = false; is_healthy = true }

abbrev queue : LegacyDatabase
queue = record open_in_memory {
  tasks =
      new_task "2026-01-01T00:00:01+00:00" "hb2" "consolidate_memory" "sync"
      ∷ new_task "2026-01-01T00:00:00+00:00" "hb1" "shell_exec" "git status"
      ∷ [];
}

-- Two pulses that overlap, while a task is queued.
abbrev overlap : List Input
overlap =
    start
    ∷ pulse w
    ∷ pulse w
    ∷ advance 0 w
    ∷ advance 1 w
    ∷ enqueue w "hb3" "model_health" ""
    ∷ advance 0 w
    ∷ advance 1 w
    ∷ advance 0 w
    ∷ advance 1 w
    ∷ advance 0 w
    ∷ advance 1 w
    ∷ []

begun_once :
    (run env (record { engine = new queue; pulses = [] }) overlap).engine.dispatched
    ≡ "hb1" ∷ "hb2" ∷ []
unfolding run list_pending_tasks create_task claim_task complete_task dispatch_shell_gated
    dispatch_shell start_loop
begun_once = refl

run-IsOnce_example : IsSound env (run env (record { engine = new queue; pulses = [] }) overlap)
run-IsOnce_example = run-IsOnce env queue overlap

run-IsGuarded_example :
    All (IsGuarded env) (run env (record { engine = new queue; pulses = [] }) overlap).engine.ran
run-IsGuarded_example = run-IsGuarded env less_trans queue overlap

abbrev turns : List World
turns = w ∷ w ∷ w ∷ w ∷ w ∷ w ∷ w ∷ []

run-Finishes_example :
    ((run env
        (record { engine = new queue; pulses = [] })
        (pulse w ∷ advance 0 w ∷ map (advance 0) turns)).pulses
      ≡ ended (
          receipt_of (record {
            tick = 1;
            now = w.now;
            tasks_count = length (list_pending_tasks queue);
            actions = length (list_pending_tasks queue);
          }))
        ∷ [])
    × (list_pending_tasks
          (run env
            (record { engine = new queue; pulses = [] })
            (pulse w ∷ advance 0 w ∷ map (advance 0) turns)).engine.db
        ≡ [])
    × ((run env
          (record { engine = new queue; pulses = [] })
          (pulse w ∷ advance 0 w ∷ map (advance 0) turns)).engine.dispatched
        ≡ ids (list_pending_tasks queue))
unfolding list_pending_tasks
run-Finishes_example =
    run-Finishes env queue w w turns (refl, (refl, tt)) refl
      (refl, (refl, (refl, (refl, (refl, (refl, (refl, tt))))))) (omega arith)
