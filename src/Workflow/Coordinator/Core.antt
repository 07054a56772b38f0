-- ===== src/Workflow/Coordinator/Core.antt =====
-- What the coordinator of src/orchestration/workflow.rs keeps true in every phase, and that the
-- parts of a turn keep it: cancelling, skipping, starting a body, its end and joining it.
use aegis_runtime.Workflow.Types.{TaskState, TaskNode}
use aegis_runtime.Workflow.Ledger.{Env, Recorder, state_of, transition}
use aegis_runtime.Workflow.Executor.{
  WorkflowConfig, Joined, is_ready, is_running, cancel_open, propagate, join,
}
use aegis_runtime.Workflow.Coordinator.{unfinished, end_body, take_ended, node_of}
use aegis_runtime.Workflow.Coordinator.Bodies.{
  keys-end_body, unfinished-end_body, length-keys, unfinished-snoc, take_ended-Taken, node_of-In,
}
use aegis_runtime.Workflow.Moves.{
  launch, at_running, Moves, Moves-trans, Moves-one, transition-Move,
}
use aegis_runtime.Workflow.Moves.Operations.{join-Move, cancel_open-Moves, propagate-Moves}
use aegis_runtime.Workflow.Moves.Running.{
  transition-state, cancel_open-running, propagate-running, join-running,
}
use mathlib.Core.List.{map-append}
use aegis_runtime.Prelude.{
  Distinct, contains-snoc, Distinct-snoc, ℕ, ◌+◌, ◌-◌, ◌≤◌, max, String, ◌≡◌, refl, sym, ◌∙◌, ap,
  List, [], ◌∷◌, ◌++◌, Option, none, some, true, false, str_eq, eq_iff, contains, keys, length, In,
  arith, Bool-cases, inl, inr, ◌==◌, length-append,
}

-- The part of the invariant that does not speak of the phase; `origin` is the recorder at the start.
pub record Core (env : Env) (config : WorkflowConfig) (tasks : List TaskNode)
    (origin rec : Recorder) (running : List (String × Option Joined)) (live peak : ℕ) : Type 0 where
  pub moves : Moves env tasks origin rec
  pub runs : (id : String) → is_running (state_of rec id) ≡ contains (keys running) id
  pub distinct : Distinct (keys running)
  pub counted : live ≡ length running
  pub permits : unfinished running ≤ config.max_parallel
  pub peak_le : peak ≤ config.max_parallel

ready-state :
    (o : Option TaskState) → is_ready o ≡ true → (o ≡ some TaskState.ready) × (is_running o ≡ false)
ready-state (some TaskState.ready) e = (refl, refl)
ready-state _ e = absurd (cc)

running-state : (o : Option TaskState) → is_running o ≡ true → o ≡ some TaskState.running
running-state (some TaskState.running) e = refl
running-state _ e = absurd (cc)

module _ (env : Env) (config : WorkflowConfig) (tasks : List TaskNode) (origin : Recorder) where
  module _ (rec : Recorder) (running : List (String × Option Joined)) (live peak : ℕ)
      (c : Core env config tasks origin rec running live peak) where
    pub Core-cancel_open :
        Core env config tasks origin (cancel_open env rec tasks) running live peak
    Core-cancel_open = record {
      moves = Moves-trans env tasks c.moves (cancel_open-Moves env tasks rec tasks (λ t m. m));
      runs = λ id. cancel_open-running env rec tasks id ∙ c.runs id;
      distinct = c.distinct;
      counted = c.counted;
      permits = c.permits;
      peak_le = c.peak_le;
    }

    pub Core-propagate :
        (fuel : ℕ) → Core env config tasks origin (propagate env fuel rec tasks) running live peak
    Core-propagate fuel = record {
      moves = Moves-trans env tasks c.moves (propagate-Moves env tasks fuel rec);
      runs = λ id. propagate-running env fuel rec tasks id ∙ c.runs id;
      distinct = c.distinct;
      counted = c.counted;
      permits = c.permits;
      peak_le = c.peak_le;
    }

    pub Core-end_body :
        (id : String) (j : Joined)
        → Core env config tasks origin rec (end_body id j running) live peak
    Core-end_body id j =
        let same = keys-end_body id j running in
        record {
          moves = c.moves;
          runs = λ k. c.runs k ∙ ap (λ l. contains l k) (sym same);
          distinct = rw same c.distinct;
          counted = omega (
            arith,
            c.counted,
            length-keys running,
            length-keys (end_body id j running),
            ap length same,
          );
          permits = omega (arith, c.permits, unfinished-end_body id j running);
          peak_le = c.peak_le;
        }

    pub Core-spawn :
        (t : TaskNode)
        → In t tasks
        → is_ready (state_of rec t.id) ≡ true
        → (unfinished running == config.max_parallel) ≡ false
        → let running' = running ++ (t.id, none) ∷ [] in
          Core env config tasks origin
            (transition env rec t.id TaskState.running none)
            running'
            (live + 1)
            (max peak (unfinished running'))
    Core-spawn t known is_r room =
        let (old, idle) = ready-state (state_of rec t.id) is_r in
        let more_keys : keys (running ++ (t.id, none) ∷ []) ≡ keys running ++ t.id ∷ [] =
          map-append (λ e. e.0) running ((t.id, none) ∷ []) in
        let step = transition-Move env tasks rec t known old launch none at_running in
        let fresh : contains (keys running) t.id ≡ false = sym (c.runs t.id) ∙ idle in
        let many = unfinished-snoc t.id running in
        record {
          moves = Moves-trans env tasks c.moves (Moves-one env tasks step);
          runs = λ id. ground (
            arith,
            transition-state env rec t.id TaskState.running none id,
            c.runs id,
            ap (λ l. contains l id) more_keys,
            contains-snoc (keys running) t.id id,
          );
          distinct = rw more_keys (Distinct-snoc (keys running) t.id c.distinct fresh);
          counted = omega (arith, c.counted, length-append running ((t.id, none) ∷ []));
          permits = ground (arith, room, c.permits, many);
          peak_le = ground (arith, room, c.permits, many, c.peak_le);
        }

    pub Core-join :
        (t : TaskNode) (j : Joined) (pick : String) (rest : List (String × Option Joined))
        → take_ended pick running ≡ some (j, rest)
        → node_of tasks pick ≡ some t
        → Core env config tasks origin (join env rec t j) rest (live - 1) peak
    Core-join t j pick rest took node =
        let (known, at) = node_of-In tasks pick t node in
        let k = take_ended-Taken pick running j rest c.distinct took in
        let old : state_of rec t.id ≡ some TaskState.running =
          running-state (state_of rec t.id)
            (c.runs t.id ∙ ap (contains (keys running)) at ∙ k.has) in
        let runs' : (id : String)
            → is_running (state_of (join env rec t j) id) ≡ contains (keys rest) id =
          λ id. elim (Bool-cases (str_eq t.id id)) [
            | inl same ↦
                let here_at : pick ≡ id = sym at ∙ (eq_iff t.id id).0 same in
                join-running env rec t j id ∙ rw same (sym (rw here_at at k.gone))
            | inr other ↦
                let apart : str_eq pick id ≡ false = rw at at other in
                join-running env rec t j id ∙ rw other (c.runs id ∙ sym (k.others id apart))
          ] in
        record {
          moves =
              Moves-trans env tasks c.moves
                (Moves-one env tasks (join-Move env tasks rec t known old j));
          runs = runs';
          distinct = k.distinct;
          counted = omega (arith, c.counted, k.fewer);
          permits = omega (arith, c.permits, k.permits);
          peak_le = c.peak_le;
        }
