-- ===== src/Heartbeat/Once.antt =====
-- A task of the queue runs at most once, however the pulses of src/heartbeat.rs interleave.
use aegis_runtime.Store.Legacy.{LegacyDatabase, create_task}
use aegis_runtime.Heartbeat.{
  Env, World, Phase, new, turn, pulse_once, System, Input, pulse, advance, enqueue, start, set,
  queued, step, run,
}
use aegis_runtime.Prelude.{
  ℕ, zero, suc, ◌+◌, String, ◌≡◌, refl, ap, List, [], ◌∷◌, ◌++◌, Option, none, some, Result, ok,
  err, length, get_elem?, indicator, arith,
}
use aegis_runtime.Heartbeat.Queue.{IsOnce, start_loop_lem, queued-IsOnce}
use aegis_runtime.Heartbeat.Turn.{begun, turn-Kept}

module _ (env : Env) where
  -- What the pulses have begun in all.
  abbrev pub total : List Phase → ℕ
  total [] = 0
  total (p ∷ ps) = begun env p + total ps

  total-set :
      (ps : List Phase) (i : ℕ) (p p' : Phase)
      → get_elem? ps i ≡ some p
      → total (set ps i p') + begun env p ≡ total ps + begun env p'
  total-set [] i p p' h = absurd (ground arith)
  total-set (q ∷ qs) zero p p' h =
      let same : q ≡ p = ground arith in omega (arith, ap (begun env) same)
  total-set (q ∷ qs) (suc i) p p' h = omega (arith, total-set qs i p p' h)

  total-snoc : (ps : List Phase) (p : Phase) → total (ps ++ p ∷ []) ≡ total ps + begun env p
  total-snoc [] p = omega arith
  total-snoc (q ∷ qs) p = omega (arith, total-snoc qs p)

  pub record IsSound (s : System) : Type 0 where
    pub once : IsOnce s.engine.dispatched s.engine.db.tasks
    pub counted : total s.pulses ≡ length s.engine.dispatched
    pub single : s.engine.loops ≡ indicator s.engine.is_running

  advance-IsSound :
      (s : System) (i : ℕ) (w : World) (o : Option Phase)
      → get_elem? s.pulses i ≡ o
      → IsSound s
      → IsSound (step env s (advance i w))
  unfolding step
  advance-IsSound s i w none at sound = rw (at, step) sound
  advance-IsSound s i w (some p) at sound =
      let kept = turn-Kept env w s.engine p sound.once in
      rw (at, step)
        (record {
          once = kept.once;
          counted = omega (
            arith,
            kept.counted,
            sound.counted,
            total-set s.pulses i p (turn env w s.engine p).1 at,
          );
          single = rw (kept.loops, kept.is_running) sound.single;
        })

  enqueue-IsSound :
      (s : System) (r : Result _ LegacyDatabase) (now id task_type payload : String)
      → create_task env.line s.engine.db now id task_type payload ≡ r
      → IsSound s
      → IsSound (record s { engine = queued s.engine r })
  enqueue-IsSound s (ok d) now id task_type payload at sound = record {
    once = queued-IsOnce env s.engine (ok d) now id task_type payload at sound.once;
    counted = sound.counted;
    single = sound.single;
  }
  enqueue-IsSound s (err x) now id task_type payload at sound = sound

  step-IsSound : (s : System) (i : Input) → IsSound s → IsSound (step env s i)
  unfolding step
  step-IsSound s (pulse w) sound = record {
    once = sound.once;
    counted = omega (arith, sound.counted, total-snoc s.pulses (pulse_once w s.engine).1);
    single = sound.single;
  }
  step-IsSound s (advance i w) sound = advance-IsSound s i w (get_elem? s.pulses i) refl sound
  step-IsSound s (enqueue w id task_type payload) sound =
      enqueue-IsSound s (create_task env.line s.engine.db w.now id task_type payload) w.now id
        task_type payload refl sound
  step-IsSound s start sound =
      let (same, tasks, single) = start_loop_lem s.engine sound.single in
      record {
        once = rw (same, tasks) sound.once;
        counted = rw same sound.counted;
        single = single;
      }

  run-IsSound : (s : System) (is : List Input) → IsSound s → IsSound (run env s is)
  unfolding run
  run-IsSound s [] sound = sound
  run-IsSound s (i ∷ is) sound = run-IsSound (step env s i) is (step-IsSound s i sound)

  -- However pulses, the loop and callers that queue tasks act, from any table of tasks: no task is begun
  -- twice; a task that was begun is still in the table and never pending again; the pulses count the
  -- tasks that they begin, each once; and the loop is spawned at most once.
  pub run-IsOnce :
      (db : LegacyDatabase) (inputs : List Input)
      → IsSound (run env (record { engine = new db; pulses = [] }) inputs)
  run-IsOnce db inputs = run-IsSound _ inputs (record {
    once = record { distinct = tt; closed = λ id h. absurd (cc); kept = λ id h. absurd (cc) };
    counted = refl;
    single = refl;
  })
