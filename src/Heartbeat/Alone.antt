-- ===== src/Heartbeat/Alone.antt =====
-- A pulse of src/heartbeat.rs that runs alone, on a database that answers, ends and leaves nothing pending.
use mathlib.Core.List.{append-nil, append_assoc}
use aegis_runtime.Store.Legacy.{
  TaskRecord, PulseReceipt, LegacyDatabase, list_pending_tasks, claim_task, complete_task,
  record_heartbeat_tick,
}
use aegis_runtime.Store.Legacy.Tasks.{record_heartbeat_tick-tasks}
use aegis_runtime.Store.Legacy.Pending.{
  ids, count, claim_task-count, complete_task-count, list_pending_tasks-count,
  list_pending_tasks-Distinct, list_pending_tasks-none,
}
use aegis_runtime.Heartbeat.{
  Env, World, Vars, Phase, listing, looping, working, recording, ended, Engine, new, work, claimed,
  turn, acted, receipt_of, System, pulse, advance, step, run,
}
use aegis_runtime.Heartbeat.Turn.{work-Leaves}
use aegis_runtime.Prelude.{
  ℕ, ◌+◌, ◌*◌, ◌≤◌, String, ◌≡◌, refl, sym, ◌∙◌, ap, List, [], ◌∷◌, ◌++◌, map, true, false, str_eq,
  eq_iff, eq_refl, contains, Distinct, length, indicator, All, arith, Bool-cases, inl, inr,
  if◌then◌else◌,
}

-- The pulse goes on while the database answers.
abbrev pub Answers : World → Type 0
Answers w = w.fails ≡ false

module _ (env : Env) where
  drive : Engine → Phase → List World → Engine × Phase
  drive e p [] = (e, p)
  drive e p (w ∷ ws) = let (e', p') = turn env w e p in drive e' p' ws

  -- The pending tasks are those that the pulse has still to take, each once.
  record IsReady (tasks : List TaskRecord) (todo : List TaskRecord) : Type 0 where
    distinct : Distinct (ids todo)
    counted : (j : String) → count j tasks ≡ indicator (contains (ids todo) j)

  -- How a pulse ends, from `actions` on.
  record Finishes (v : Vars) (dispatched : List String) (todo : List TaskRecord)
      (r : Engine × Phase) : Type 0 where
    final : r.1 ≡ ended (receipt_of (record v { actions = v.actions + length todo }))
    nothing_left : list_pending_tasks r.0.db ≡ []
    taken : r.0.dispatched ≡ dispatched ++ ids todo

  drive-ended :
      (e : Engine) (receipt : PulseReceipt) (ws : List World)
      → drive e (ended receipt) ws ≡ (e, ended receipt)
  unfolding drive turn
  drive-ended e receipt [] = refl
  drive-ended e receipt (w ∷ ws) = drive-ended e receipt ws

  turn-last :
      (w : World) (e : Engine) (v : Vars)
      → Answers w
      → turn env w e (looping v []) ≡ (
        record e {
          db = record_heartbeat_tick env.line e.db (receipt_of v);
          tx_pulse = e.tx_pulse ++ receipt_of v ∷ [];
        },
        ended (receipt_of v),
      )
  unfolding turn
  turn-last w e v fine = rw fine refl

  turn-claim :
      (w : World) (e : Engine) (v : Vars) (t : TaskRecord) (todo : List TaskRecord)
      → Answers w
      → (claim_task e.db t.id).1 ≡ true
      → turn env w e (looping v (t ∷ todo)) ≡ (
        record e { db = (claim_task e.db t.id).0; dispatched = e.dispatched ++ t.id ∷ [] },
        working v t todo,
      )
  unfolding turn
  turn-claim w e v t todo fine won =
      rw fine (ap (λ b. claimed e v t todo ((claim_task e.db t.id).0, b)) won)

  turn-record :
      (w : World) (e : Engine) (v : Vars) (t : TaskRecord) (text : String) (todo : List TaskRecord)
      → Answers w
      → turn env w e (recording v t text todo)
        ≡ (record e { db = complete_task env.line e.db w.now t.id text }, looping (acted v) todo)
  unfolding turn
  turn-record w e v t text todo fine = rw fine refl

  -- The tasks that are left after one was claimed, worked on and recorded.
  IsReady-next :
      (d : LegacyDatabase) (t : TaskRecord) (todo : List TaskRecord) (now text : String)
      (d' : LegacyDatabase)
      → IsReady d.tasks (t ∷ todo)
      → d'.tasks ≡ (claim_task d t.id).0.tasks
      → IsReady (complete_task env.line d' now t.id text).tasks todo
  IsReady-next d t todo now text d' ready same = record {
    distinct = ready.distinct.1;
    counted = λ j.
        let after : count j d'.tasks ≡ (if str_eq t.id j then 0 else count j d.tasks) =
          rw same (claim_task-count d t.id j).1 in
        complete_task-count env.line d' now t.id text j ∙ elim (Bool-cases (str_eq t.id j)) [
          | inl hit ↦
              let at : t.id ≡ j = (eq_iff t.id j).0 hit in
              let gone : contains (ids todo) j ≡ false = rw (← at) ready.distinct.0 in
              rw hit (rw gone refl)
          | inr apart ↦ ground (arith, apart, after, ready.counted j)
        ];
  }

  drive-step :
      (e : Engine) (p : Phase) (w : World) (ws : List World) (q : Engine × Phase)
      → turn env w e p ≡ q
      → drive e p (w ∷ ws) ≡ drive q.0 q.1 ws
  unfolding drive
  drive-step e p w ws q at = ap (λ x. drive x.0 x.1 ws) at

  turn-work :
      (w : World) (e : Engine) (v : Vars) (t : TaskRecord) (todo : List TaskRecord)
      → turn env w e (working v t todo)
        ≡ ((work env w e v.tick t).0, recording v t (work env w e v.tick t).1 todo)
  unfolding turn
  turn-work w e v t todo = refl

  module _ (e : Engine) (v : Vars) (t : TaskRecord) (todo : List TaskRecord) (w w' w'' : World)
      (won : (claim_task e.db t.id).1 ≡ true) where
    abbrev after_claim : Engine
    after_claim = record e { db = (claim_task e.db t.id).0; dispatched = e.dispatched ++ t.id ∷ [] }

    abbrev after_work : Engine × String
    after_work = work env w' after_claim v.tick t

    abbrev after_record : Engine
    after_record = record (after_work.0) {
      db = complete_task env.line (after_work.0.db) w''.now t.id (after_work.1);
    }

    drive-round :
        (ws : List World)
        → Answers w
        → Answers w''
        → drive e (looping v (t ∷ todo)) (w ∷ w' ∷ w'' ∷ ws)
          ≡ drive after_record (looping (acted v) todo) ws
    drive-round ws fine fine'' =
        drive-step e _ w _ _ (turn-claim w e v t todo fine won)
        ∙ drive-step after_claim _ w' _ _ (turn-work w' after_claim v t todo)
        ∙ drive-step (after_work.0) _ w'' ws _
            (turn-record w'' (after_work.0) v t (after_work.1) todo fine'')

    Finishes-round :
        (r : Engine × Phase)
        → Finishes (acted v) after_record.dispatched todo r
        → Finishes v e.dispatched (t ∷ todo) r
    Finishes-round r f = record {
      final = f.final ∙ ap (λ (n : ℕ). ended (receipt_of (record v { actions = n }))) (omega arith);
      nothing_left = f.nothing_left;
      taken =
          f.taken
          ∙ ap (λ l. l ++ ids todo) (work-Leaves env w' after_claim v.tick t).dispatched
          ∙ append_assoc e.dispatched (t.id ∷ []) (ids todo);
    }

  drive-Finishes :
      (e : Engine) (v : Vars) (todo : List TaskRecord) (ws : List World)
      → All Answers ws
      → 3 * length todo + 1 ≤ length ws
      → IsReady e.db.tasks todo
      → Finishes v e.dispatched todo (drive e (looping v todo) ws)
  drive-Finishes e v [] [] fine long ready = absurd (omega (arith, long))
  drive-Finishes e v [] (w ∷ ws) fine long ready =
      let at_end =
        drive-step e _ w ws _ (turn-last w e v fine.0) ∙ drive-ended _ (receipt_of v) ws in
      rw at_end (record {
        final = ap (λ (n : ℕ). ended (receipt_of (record v { actions = n }))) (omega arith);
        nothing_left =
            list_pending_tasks-none _ (λ j.
              rw (record_heartbeat_tick-tasks env.line e.db (receipt_of v)) (ready.counted j));
        taken = sym (append-nil e.dispatched);
      })
  drive-Finishes e v (t ∷ todo) (w ∷ w' ∷ w'' ∷ ws) fine long ready =
      let one : count t.id e.db.tasks ≡ 1 = ready.counted t.id ∙ ground (arith, eq_refl t.id) in
      let won : (claim_task e.db t.id).1 ≡ true =
        (claim_task-count e.db t.id t.id).0 ∙ ground (arith, one) in
      let next =
        IsReady-next e.db t todo w''.now (after_work e v t todo w w' w'' won).1
          (after_work e v t todo w w' w'' won).0.db ready
          (work-Leaves env w' (after_claim e v t todo w w' w'' won) v.tick t).tasks in
      rw (drive-round e v t todo w w' w'' won ws fine.0 fine.1.1.0) (
        Finishes-round e v t todo w w' w'' won _ (
          drive-Finishes (after_record e v t todo w w' w'' won) (acted v) todo ws fine.1.1.1
            (omega (arith, long)) next))
  drive-Finishes e v (t ∷ todo) [] fine long ready = absurd (omega (arith, long))
  drive-Finishes e v (t ∷ todo) (w ∷ []) fine long ready = absurd (omega (arith, long))
  drive-Finishes e v (t ∷ todo) (w ∷ w' ∷ []) fine long ready = absurd (omega (arith, long))

  run-advance :
      (e : Engine) (p : Phase) (ws : List World)
      → run env (record { engine = e; pulses = p ∷ [] }) (map (advance 0) ws)
        ≡ record { engine = (drive e p ws).0; pulses = (drive e p ws).1 ∷ [] }
  unfolding drive run step
  run-advance e p [] = refl
  run-advance e p (w ∷ ws) = run-advance (turn env w e p).0 (turn env w e p).1 ws

  turn-list :
      (w : World) (e : Engine) (v : Vars)
      → Answers w
      → turn env w e (listing v) ≡ (
        e,
        looping
            (record v { tasks_count = length (list_pending_tasks e.db) })
            (list_pending_tasks e.db),
      )
  unfolding turn
  turn-list w e v fine = rw fine refl

  -- A pulse that runs alone on an engine whose table has distinct ids, while the database answers, ends
  -- within `3 * n + 2` turns if n tasks are pending: it has then begun every pending task once, in the
  -- order in which they are listed, its receipt counts n tasks scanned and n actions, and no task is
  -- pending any more.
  pub run-Finishes :
      (db : LegacyDatabase) (first second : World) (ws : List World)
      → Distinct (ids db.tasks)
      → Answers second
      → All Answers ws
      → 3 * length (list_pending_tasks db) + 1 ≤ length ws
      → let s : System =
          run env
            (record { engine = new db; pulses = [] })
            (pulse first ∷ advance 0 second ∷ map (advance 0) ws) in
        (s.pulses
          ≡ ended (
              receipt_of (record {
                tick = 1;
                now = first.now;
                tasks_count = length (list_pending_tasks db);
                actions = length (list_pending_tasks db);
              }))
            ∷ [])
        × (list_pending_tasks s.engine.db ≡ [])
        × (s.engine.dispatched ≡ ids (list_pending_tasks db))
  unfolding run step
  run-Finishes db first second ws distinct fine_first fine long =
      let e : Engine = record (new db) { tick_counter = 1 } in
      let v : Vars = record { tick = 1; now = first.now; tasks_count = 0; actions = 0 } in
      let todo = list_pending_tasks db in
      let v' : Vars = record v { tasks_count = length todo } in
      let done = drive-Finishes e v' todo ws fine long (record {
        distinct = list_pending_tasks-Distinct db distinct;
        counted = λ j. list_pending_tasks-count db j distinct;
      }) in
      let runs =
        run-advance e (listing v) (second ∷ ws)
        ∙ ap
            (λ (r : Engine × Phase).
              (let s : System = record { engine = r.0; pulses = r.1 ∷ [] } in s))
            (drive-step e (listing v) second ws (e, looping v' todo)
              (turn-list second e v fine_first)) in
      rw runs (
        ap (λ p. p ∷ [])
            (done.final
              ∙ ap (λ (n : ℕ). ended (receipt_of (record v' { actions = n }))) (omega arith)),
        done.nothing_left,
        done.taken,
      )
