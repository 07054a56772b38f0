-- ===== src/Heartbeat/Turn.antt =====
-- One turn of a pulse of src/heartbeat.rs, and the tasks that were begun.
use aegis_runtime.Store.Legacy.{
  PulseReceipt, TaskRecord, LegacyDatabase, claim_task, complete_task, record_heartbeat_tick,
}
use aegis_runtime.Store.Legacy.Tasks.{store_crumb-tasks, record_heartbeat_tick-tasks}
use aegis_runtime.Heartbeat.{
  Kind, model_health, shell_exec, consolidate_memory, system_telemetry, other, kind_of, work_as,
  Env, World, Vars, Phase, listing, looping, working, recording, ended, Engine, work, claimed, turn,
  receipt_of,
}
use aegis_runtime.Prelude.{
  ℕ, ◌+◌, String, ◌≡◌, refl, ap, List, [], ◌∷◌, Bool, true, false, length, length-append, arith,
  Bool-cases, inl, inr,
}
use aegis_runtime.Heartbeat.Queue.{IsOnce, claim-IsOnce, claim-IsOnce_snoc, complete-IsOnce}

module _ (env : Env) where
  -- Work on a task leaves the queue as it is.
  pub record Leaves (e : Engine) (r : Engine × String) : Type 0 where
    pub tasks : r.0.db.tasks ≡ e.db.tasks
    pub dispatched : r.0.dispatched ≡ e.dispatched
    pub loops : r.0.loops ≡ e.loops
    pub is_running : r.0.is_running ≡ e.is_running

  work_as-Leaves :
      (w : World) (e : Engine) (tick : ℕ) (task : TaskRecord) (k : Kind)
      → Leaves e (work_as env w e tick task k)
  work_as-Leaves w e tick task model_health = ground arith
  work_as-Leaves w e tick task shell_exec = ground arith
  work_as-Leaves w e tick task system_telemetry = ground arith
  work_as-Leaves w e tick task other = ground arith
  work_as-Leaves w e tick task consolidate_memory = elim (Bool-cases w.fails) [
    | inl bad ↦ rw bad (ground arith)
    | inr good ↦ rw good (record {
      tasks = store_crumb-tasks env.line e.db w.now _ _ _;
      dispatched = refl;
      loops = refl;
      is_running = refl;
    })
  ]

  pub work-Leaves :
      (w : World) (e : Engine) (tick : ℕ) (task : TaskRecord) → Leaves e (work env w e tick task)
  unfolding work
  work-Leaves w e tick task = work_as-Leaves w e tick task (kind_of task.task_type)

  -- How many tasks a pulse has begun.
  abbrev pub begun : Phase → ℕ
  begun (listing v) = v.actions
  begun (looping v todo) = v.actions
  begun (working v task todo) = v.actions + 1
  begun (recording v task res_text todo) = v.actions + 1
  begun (ended receipt) = receipt.actions_dispatched

  pub record Kept (e : Engine) (p : Phase) (r : Engine × Phase) : Type 0 where
    pub once : IsOnce r.0.dispatched r.0.db.tasks
    pub counted : begun r.1 + length e.dispatched ≡ begun p + length r.0.dispatched
    pub loops : r.0.loops ≡ e.loops
    pub is_running : r.0.is_running ≡ e.is_running

  claimed-Kept :
      (e : Engine) (v : Vars) (task : TaskRecord) (todo : List TaskRecord)
      (r : LegacyDatabase × Bool)
      → claim_task e.db task.id ≡ r
      → IsOnce e.dispatched e.db.tasks
      → Kept e (looping v (task ∷ todo)) (claimed e v task todo r)
  claimed-Kept e v task todo (db', true) at o = record {
    once =
        rw (ap (λ x. x.0) at) at (claim-IsOnce_snoc e.db e.dispatched task.id o (ap (λ x. x.1) at));
    counted = omega (arith, length-append e.dispatched (task.id ∷ []));
    loops = refl;
    is_running = refl;
  }
  claimed-Kept e v task todo (db', false) at o = record {
    once = rw (ap (λ x. x.0) at) at (claim-IsOnce e.db e.dispatched task.id o);
    counted = refl;
    loops = refl;
    is_running = refl;
  }

  -- A turn that leaves the list of begun tasks as it is.
  quiet :
      (e : Engine) (p : Phase) (db : LegacyDatabase) (sent : List PulseReceipt) (p' : Phase)
      → IsOnce e.dispatched db.tasks
      → begun p' ≡ begun p
      → Kept e p (record e { db = db; tx_pulse = sent }, p')
  quiet e p db sent p' o same = record {
    once = o;
    counted = omega (arith, same);
    loops = refl;
    is_running = refl;
  }

  pub turn-Kept :
      (w : World) (e : Engine) (p : Phase)
      → IsOnce e.dispatched e.db.tasks
      → Kept e p (turn env w e p)
  unfolding turn
  turn-Kept w e (listing v) o = quiet e _ e.db e.tx_pulse _ o refl
  turn-Kept w e (looping v []) o = elim (Bool-cases w.fails) [
    | inl bad ↦ rw bad (quiet e _ e.db _ _ o refl)
    | inr good ↦ rw good (
        quiet e _ (record_heartbeat_tick env.line e.db (receipt_of v)) _ _
          (rw (record_heartbeat_tick-tasks env.line e.db (receipt_of v)) o) refl)
  ]
  turn-Kept w e (looping v (task ∷ todo)) o = elim (Bool-cases w.fails) [
    | inl bad ↦ rw bad (quiet e _ e.db e.tx_pulse _ o refl)
    | inr good ↦ rw good (claimed-Kept e v task todo (claim_task e.db task.id) refl o)
  ]
  turn-Kept w e (working v task todo) o =
      let kept = work-Leaves w e v.tick task in
      record {
        once = rw (kept.tasks, kept.dispatched) o;
        counted = rw kept.dispatched refl;
        loops = kept.loops;
        is_running = kept.is_running;
      }
  turn-Kept w e (recording v task res_text todo) o = elim (Bool-cases w.fails) [
    | inl bad ↦ rw bad (quiet e _ e.db e.tx_pulse _ o refl)
    | inr good ↦ rw good (
        quiet e _ (complete_task env.line e.db w.now task.id res_text) e.tx_pulse _
          (complete-IsOnce env e.db e.dispatched w.now task.id res_text o) refl)
  ]
  turn-Kept w e (ended receipt) o = quiet e _ e.db e.tx_pulse _ o refl
