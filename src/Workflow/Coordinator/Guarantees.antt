-- ===== src/Workflow/Coordinator/Guarantees.antt =====
-- What holds at every point of every run of the executor in src/orchestration/workflow.rs, whatever
-- the bodies answer and however bodies, clock, cancellation and coordinator interleave.
use mathlib.Core.Path.{subst}
use aegis_runtime.Events.{EventEnvelope}
use aegis_runtime.Workflow.Types.{TaskState, TaskNode, task_ids, is_terminal}
use aegis_runtime.Workflow.Ledger.{Env, Recorder, WorkflowStatus, state_of, finish}
use aegis_runtime.Workflow.Executor.{WorkflowConfig, is_running}
use aegis_runtime.Workflow.Coordinator.{
  Phase, top, starting, waiting, ended, Exec, Input, unfinished, start, run,
}
use aegis_runtime.Workflow.Coordinator.Sound.{IsSound, PhaseIn, Linked, carried, run-IsSound}
use aegis_runtime.Workflow.Moves.{Moves, stay}
use aegis_runtime.Workflow.Moves.Safety.{Justified, IsJustified, Moves-Settled, Moves-IsJustified}
use aegis_runtime.Workflow.Moves.Log.{
  IsHistory, Moves-IsHistory, Shown, Sequences, only_tasks, Moves-only_tasks, IsEnded,
  finish-IsHistory, finish-IsEnded,
}
use aegis_runtime.Workflow.Moves.FailureNotes.{IsKept, Kept, Moves-IsKept}
use aegis_runtime.Prelude.{
  Distinct, ap, ◌≤◌, String, ◌≡◌, refl, sym, ◌∙◌, List, [], ◌∷◌, map, Option, none, some, true,
  false, str_eq, eq_iff, contains, keys, if_ind, ◌⊎◌, lookup, length, All-of-In, In, here, there,
  arith, inl, inr,
}

abbrev pending_states : List TaskNode → List (String × TaskState)
pending_states ts = map (λ t. (t.id, TaskState.pending)) ts

start_none : (ts : List TaskNode) (id : String) → is_running (lookup id (pending_states ts)) ≡ false
start_none [] id = refl
start_none (t ∷ ts) id = ground (arith, start_none ts id)

start_pending :
    (ts : List TaskNode) (t : TaskNode)
    → In t ts
    → lookup t.id (pending_states ts) ≡ some TaskState.pending
start_pending [] t m = elim m [ ]
start_pending (x ∷ ts) t (here e) = ground (arith, ap (λ y. y.id) e, eq_iff x.id t.id)
start_pending (x ∷ ts) t (there m) = ground (arith, start_pending ts t m)

start-Shown : (ts : List TaskNode) (id : String) → Shown (lookup id (pending_states ts)) "pending"
start-Shown [] id = tt
start-Shown (t ∷ ts) id =
    if_ind (λ o. Shown o "pending") (str_eq t.id id) (λ _. refl) (λ _. start-Shown ts id)

start_unkept : (ts : List TaskNode) (id : String) → Kept none (lookup id (pending_states ts))
start_unkept [] id = tt
start_unkept (t ∷ ts) id = if_ind (Kept none) (str_eq t.id id) (λ _. refl) (λ _. start_unkept ts id)

start-Sequences :
    (bus : Option (List EventEnvelope)) → (bus ≡ none) ⊎ (bus ≡ some []) → Sequences bus []
start-Sequences none e = tt
start-Sequences (some []) e = refl
start-Sequences (some (x ∷ xs)) (inl e) = absurd (cc)
start-Sequences (some (x ∷ xs)) (inr e) = absurd (cc)

module _ (env : Env) (config : WorkflowConfig) (tasks : List TaskNode)
    (bus : Option (List EventEnvelope)) where
  pub start-IsSound :
      IsSound env config tasks (start env config tasks bus).rec (start env config tasks bus)
  unfolding start
  start-IsSound = record {
    before = (start env config tasks bus).rec;
    core = record {
      moves = stay;
      runs = start_none tasks;
      distinct = tt;
      counted = refl;
      permits = omega arith;
      peak_le = omega arith;
    };
    within = tt;
    linked = refl;
  }

  abbrev pub after : List Input → Exec
  after inputs = run env config tasks (start env config tasks bus) inputs

  abbrev pub origin : Recorder
  origin = (start env config tasks bus).rec

  sound : (inputs : List Input) → IsSound env config tasks origin (after inputs)
  sound inputs =
      run-IsSound env config tasks origin (start env config tasks bus) inputs start-IsSound

  -- What held of the recorder before the end of a run holds at every point, if `finish` keeps it.
  everywhere :
      (P : Recorder → Type 0)
      → ((r : Recorder) (status : WorkflowStatus) → P r → P (finish env r status))
      → (inputs : List Input) → P (sound inputs).before
      → P (after inputs).rec
  everywhere P keeps inputs h =
      let i = sound inputs in
      carried P env (after inputs).phase i.before (after inputs).rec i.linked (keeps i.before) h

  -- The executor refines the abstract machine: before its end, the recorder of a run is at every point
  -- reached from its start by allowed moves, each recorded once; a run that has ended has reached so
  -- the recorder that `finish` has then completed with the status of the report, whose ledger is that
  -- of the result.
  pub run-Moves :
      (inputs : List Input)
      → (before : Recorder) × Moves env tasks origin before
        × Linked env (after inputs).phase before (after inputs).rec
  run-Moves inputs = let i = sound inputs in (i.before, i.core.moves, i.linked)

  -- The tasks in state `running` are exactly those with a spawned body that is not joined; `live`
  -- counts these, and neither the bodies that hold a permit nor the reported peak are ever more
  -- than `max_parallel`.
  pub run_bodies :
      (inputs : List Input)
      → ((id : String)
          → is_running (state_of (after inputs).rec id) ≡ contains (keys (after inputs).running) id)
        × ((after inputs).live ≡ length (after inputs).running)
        × (unfinished (after inputs).running ≤ config.max_parallel)
        × ((after inputs).peak ≤ config.max_parallel)
  unfolding finish
  run_bodies inputs =
      let c = (sound inputs).core in
      (
        everywhere
            (λ r.
              (id : String)
              → is_running (state_of r id) ≡ contains (keys (after inputs).running) id)
            (λ r status h. h) inputs c.runs,
        c.counted,
        c.permits,
        c.peak_le,
      )

  -- If no two tasks share an id: at every point of a run, a task that is ready, running, waiting,
  -- completed or failed has completed predecessors only, and a skipped task names one of its
  -- predecessors, which has failed or is itself cancelled or skipped.
  pub run-IsJustified :
      Distinct (task_ids tasks) → (inputs : List Input) → IsJustified tasks (after inputs).rec
  unfolding start finish
  run-IsJustified dist inputs =
      everywhere (IsJustified tasks) (λ r status h. h) inputs
        (Moves-IsJustified env tasks dist (sound inputs).core.moves
          (All-of-In tasks λ t m. all_pending t (start_pending tasks t m)))
    where
      all_pending :
          (t : TaskNode)
          → state_of origin t.id ≡ some TaskState.pending
          → Justified origin t (state_of origin t.id)
      all_pending t e = rw e tt

  -- What is on record of the end of a run, and that before it there are events of tasks only.
  abbrev pub Closes : Phase → Recorder → Type 0
  Closes (ended rep) r = IsEnded env r rep
  Closes _ r = only_tasks r.events ≡ true

  -- At every point of a run that began with an empty bus, the end included, the recorded events are
  -- numbered from 1 without a gap, the last number is the counter, the last event of each task names its
  -- state, and the bus carries one envelope for each event, with its number, in the same order. All
  -- events are of tasks until the run ends; it then has one more, "finished", which is the last, the
  -- last envelope announces the status of the report, and the report has this ledger.
  pub run-IsHistory :
      (bus ≡ none) ⊎ (bus ≡ some [])
      → (inputs : List Input)
      → IsHistory (after inputs).rec × Closes (after inputs).phase (after inputs).rec
  unfolding start
  run-IsHistory fresh inputs =
      let i = sound inputs in
      (
        everywhere IsHistory (finish-IsHistory env) inputs
            (Moves-IsHistory env tasks i.core.moves (start_history fresh)),
        closes (after inputs).phase i.before (after inputs).rec i.linked
            (Moves-only_tasks env tasks i.core.moves refl),
      )
    where
      start_history : (bus ≡ none) ⊎ (bus ≡ some []) → IsHistory origin
      start_history e = record {
        counted = refl;
        numbered = tt;
        replays = start-Shown tasks;
        published = start-Sequences bus e;
      }

      closes :
          (p : Phase) (before r : Recorder)
          → Linked env p before r
          → only_tasks before.events ≡ true
          → Closes p r
      closes (ended rep) before r (same, ledger) h =
          subst (λ x. IsEnded env x rep) (sym same)
            (finish-IsEnded env before rep h (rw same at ledger))
      closes top before r same h = rw same h
      closes (starting ts) before r same h = rw same h
      closes waiting before r same h = rw same h

  -- At every point of a run a failed task has on record the failure that its state holds, a skipped
  -- or a cancelled one has some failure on record, and any other task has none.
  pub run-IsKept : (inputs : List Input) → IsKept (after inputs).rec
  unfolding start finish
  run-IsKept inputs =
      everywhere IsKept (λ r status h. h) inputs
        (Moves-IsKept env tasks (sound inputs).core.moves start_kept)
    where
      start_kept : IsKept origin
      start_kept id = start_unkept tasks id

  Linked-state :
      (p : Phase) (before r : Recorder)
      → Linked env p before r
      → (id : String) → state_of r id ≡ state_of before id
  unfolding finish
  Linked-state p before r l id =
      carried (λ x. state_of x id ≡ state_of before id) env p before r l (λ status h. h) refl

  -- What a run has settled it never changes: a task that is completed, failed, cancelled or skipped
  -- at one point of a run is in the same state, with the same failure or predecessor, at every later
  -- point.
  pub run-Settled :
      (earlier later : List Input) (id : String) (state : TaskState)
      → state_of (after earlier).rec id ≡ some state
      → is_terminal state ≡ true
      → state_of (run env config tasks (after earlier) later).rec id ≡ some state
  run-Settled earlier later id state e terminal =
      let s = after earlier in
      let i = sound earlier in
      let c = i.core in
      let again : IsSound env config tasks i.before s = record {
        before = i.before;
        core = record {
          moves = stay;
          runs = c.runs;
          distinct = c.distinct;
          counted = c.counted;
          permits = c.permits;
          peak_le = c.peak_le;
        };
        within = PhaseIn-any origin i.before s.phase i.within;
        linked = i.linked;
      } in
      let end = run-IsSound env config tasks i.before s later again in
      let v = run env config tasks s later in
      let settled =
        Moves-Settled env tasks end.core.moves id state
          (sym (Linked-state s.phase i.before s.rec i.linked id) ∙ e) terminal in
      Linked-state v.phase end.before v.rec end.linked id ∙ settled
    where
      PhaseIn-any :
          (o v : Recorder) (p : Phase) → PhaseIn env config tasks o p → PhaseIn env config tasks v p
      PhaseIn-any o v top w = tt
      PhaseIn-any o v (starting ts) w = w
      PhaseIn-any o v waiting w = tt
      PhaseIn-any o v (ended r) w = tt
