-- ===== src/Heartbeat/Shell.antt =====
-- What the tasks of src/heartbeat.rs hand to the shell.
use aegis_runtime.Json.{string, object, field, end}
use aegis_runtime.Security.Paths.{Component}
use aegis_runtime.Security.Shell.Dispatch.{IsAdmitted}
use aegis_runtime.Security.Gate.{F64}
use aegis_runtime.Security.Gate.Passed.{Passes, dispatch_shell_gated-Passes}
use aegis_runtime.Store.Legacy.{TaskRecord, LegacyDatabase, claim_task, create_task}
use aegis_runtime.Store.Database.{SqlError}
use aegis_runtime.Heartbeat.{
  Kind, model_health, shell_exec, consolidate_memory, system_telemetry, other, kind_of, Env, World,
  Vars, Phase, listing, looping, working, recording, ended, Engine, new, command_of, work_as, work,
  claimed, turn, start_loop, System, Input, pulse, advance, enqueue, start, queued, step, run,
}
use aegis_runtime.Prelude.{
  ℕ, String, ◌≡◌, refl, List, [], ◌∷◌, map, Option, none, some, Bool, true, false, Result, ok, err,
  All, All-append, In, here, there, get_elem?, Bool-cases, inl, inr,
}

-- A command line that a task handed to the shell.
pub record IsGuarded (env : Env) (r : String × String × List Component) : Type 0 where
  pub gated :
      Passes env.probing env.out.escape_debug env.enforce "bash_eval"
        (object (field "command" (string r.0) end))
  pub admitted : IsAdmitted env.out env.root r.0 15 r.1 r.2

module _ (env : Env)
    (less_trans : (a b c : F64)
      → env.probing.less a b ≡ true
      → env.probing.less b c ≡ true
      → env.probing.less a c ≡ true) where
  abbrev Guarded : Engine → Type 0
  Guarded e = All (IsGuarded env) e.ran

  tagged :
      (command : String) (rs : List (String × List Component))
      → ((line : String) (dir : List Component)
          → In (line, dir) rs
          → IsGuarded env (command, line, dir))
      → All (IsGuarded env) (map (λ r. (command, r.0, r.1)) rs)
  tagged command [] h = tt
  tagged command (r ∷ rs) h =
      (h r.0 r.1 (here refl), tagged command rs (λ line dir m. h line dir (there m)))

  work_as-Guarded :
      (w : World) (e : Engine) (tick : ℕ) (task : TaskRecord) (k : Kind)
      → Guarded e
      → Guarded (work_as env w e tick task k).0
  work_as-Guarded w e tick task model_health g = g
  work_as-Guarded w e tick task shell_exec g = All-append (IsGuarded env) e.ran _ g (
      tagged (command_of task) _ λ line dir m.
        let (gate, form) =
          dispatch_shell_gated-Passes env.probing less_trans env.out env.root env.enforce
            (command_of task) none 15 line dir m in
        record { gated = gate; admitted = form })
  work_as-Guarded w e tick task consolidate_memory g = elim (Bool-cases w.fails) [
    | inl bad ↦ rw bad g
    | inr good ↦ rw good g
  ]
  work_as-Guarded w e tick task system_telemetry g = g
  work_as-Guarded w e tick task other g = g

  claimed-Guarded :
      (e : Engine) (v : Vars) (task : TaskRecord) (todo : List TaskRecord)
      (r : LegacyDatabase × Bool)
      → Guarded e
      → Guarded (claimed e v task todo r).0
  claimed-Guarded e v task todo (db', true) g = g
  claimed-Guarded e v task todo (db', false) g = g

  turn-Guarded : (w : World) (e : Engine) (p : Phase) → Guarded e → Guarded (turn env w e p).0
  unfolding turn work
  turn-Guarded w e (listing v) g = g
  turn-Guarded w e (looping v []) g = g
  turn-Guarded w e (looping v (task ∷ todo)) g = elim (Bool-cases w.fails) [
    | inl bad ↦ rw bad g
    | inr good ↦ rw good (claimed-Guarded e v task todo (claim_task e.db task.id) g)
  ]
  turn-Guarded w e (working v task todo) g =
      work_as-Guarded w e v.tick task (kind_of task.task_type) g
  turn-Guarded w e (recording v task res_text todo) g = g
  turn-Guarded w e (ended receipt) g = g

  advance-Guarded :
      (s : System) (i : ℕ) (w : World) (o : Option Phase)
      → get_elem? s.pulses i ≡ o
      → Guarded s.engine
      → Guarded (step env s (advance i w)).engine
  unfolding step
  advance-Guarded s i w none at g = rw (at, step) g
  advance-Guarded s i w (some p) at g = rw (at, step) (turn-Guarded w s.engine p g)

  queued-Guarded :
      (e : Engine) (r : Result SqlError LegacyDatabase) → Guarded e → Guarded (queued e r)
  queued-Guarded e (ok db) g = g
  queued-Guarded e (err x) g = g

  step-Guarded : (s : System) (i : Input) → Guarded s.engine → Guarded (step env s i).engine
  unfolding step start_loop
  step-Guarded s (pulse w) g = g
  step-Guarded s (advance i w) g = advance-Guarded s i w _ refl g
  step-Guarded s (enqueue w id task_type payload) g =
      queued-Guarded s.engine (create_task env.line s.engine.db w.now id task_type payload) g
  step-Guarded s start g = elim (Bool-cases s.engine.is_running) [
    | inl going ↦ rw going g
    | inr still ↦ rw still g
  ]

  run-All : (s : System) (is : List Input) → Guarded s.engine → Guarded (run env s is).engine
  unfolding run
  run-All s [] g = g
  run-All s (i ∷ is) g = run-All (step env s i) is (step-Guarded s i g)

  -- If `<` on floats is transitive, every command line that a task of the queue hands to the shell,
  -- whatever is queued and however the pulses interleave, has passed the gate, is one of the catalogued
  -- forms, is wrapped in a timeout of 15 seconds, and runs in a directory under the root.
  pub run-IsGuarded :
      (db : LegacyDatabase) (inputs : List Input)
      → All (IsGuarded env) (run env (record { engine = new db; pulses = [] }) inputs).engine.ran
  run-IsGuarded db inputs = run-All _ inputs tt
