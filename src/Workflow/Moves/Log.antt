-- ===== src/Workflow/Moves/Log.antt =====
-- The ledger and the bus of src/orchestration/workflow.rs: numbering and replay.
use mathlib.Core.Path.{subst}
use mathlib.Core.List.{map-append}
use aegis_runtime.Events.{AegisEvent, EventEnvelope, workflow_finished}
use aegis_runtime.Workflow.Types.{TaskState, TaskNode, state_name}
use aegis_runtime.Workflow.Ledger.{
  Env, Recorder, WorkflowEvent, WorkflowStatus, Ledger, state_of, envelope, status_name, finish,
}
use aegis_runtime.Workflow.Executor.{WorkflowReport}
use aegis_runtime.Workflow.Moves.{Move, Moves, stay, more}
use aegis_runtime.Workflow.Moves.Safety.{Move-state}
use aegis_runtime.Prelude.{
  ℕ, ◌+◌, String, ◌≡◌, refl, sym, ap, ◌∙◌, List, [], ◌∷◌, ◌++◌, map, Option, none, some, Bool, true,
  false, str_eq, all, length, length-append, arith, if◌then◌else◌,
}

-- Numbered upwards from k, without a gap.
abbrev pub IsNumbered : ℕ → List WorkflowEvent → Type 0
IsNumbered k [] = Unit
IsNumbered k (e ∷ es) = (e.seq ≡ k) × IsNumbered (k + 1) es

-- The name of a task's state by the events alone, from the first to the last.
abbrev pub replay : String → List WorkflowEvent → String → String
replay id [] name = name
replay id (e ∷ es) name =
    replay id es (elim e.task_id [ some j ↦ if str_eq j id then e.state else name | none ↦ name ])

-- The state that a replay has to show; an id that is no task has none.
abbrev pub Shown : Option TaskState → String → Type 0
Shown none name = Unit
Shown (some s) name = state_name s ≡ name

abbrev pub Sequences : Option (List EventEnvelope) → List WorkflowEvent → Type 0
Sequences none es = Unit
Sequences (some sent) es = map (λ e. e.sequence) sent ≡ map (λ e. e.seq) es

-- The ledger's events are its history.
pub record IsHistory (r : Recorder) : Type 0 where
  pub counted : r.seq ≡ length r.events
  pub numbered : IsNumbered 1 r.events
  pub replays : (id : String) → Shown (state_of r id) (replay id r.events "pending")
  pub published : Sequences r.bus r.events

IsNumbered-snoc :
    (k : ℕ) (es : List WorkflowEvent) (e : WorkflowEvent)
    → IsNumbered k es
    → e.seq ≡ k + length es
    → IsNumbered k (es ++ e ∷ [])
IsNumbered-snoc k [] e h s = (omega (arith, s), tt)
IsNumbered-snoc k (x ∷ es) e h s = (h.0, IsNumbered-snoc (k + 1) es e h.1 (omega (arith, s)))

replay-snoc :
    (id : String) (es : List WorkflowEvent) (e : WorkflowEvent) (name : String)
    → replay id (es ++ e ∷ []) name ≡ (elim e.task_id [
      | some j ↦ if str_eq j id then e.state else replay id es name
      | none ↦ replay id es name
    ])
replay-snoc id [] e name = refl
replay-snoc id (x ∷ es) e name =
    replay-snoc id es e
      (elim x.task_id [ some j ↦ if str_eq j id then x.state else name | none ↦ name ])

Shown-if :
    (b : Bool) (s : TaskState) (o : Option TaskState) (name : String)
    → Shown o name
    → Shown (if b then some s else o) (if b then state_name s else name)
Shown-if true s o name h = refl
Shown-if false s o name h = h

Shown-along : {o p : Option TaskState} {n m : String} → o ≡ p → n ≡ m → Shown p m → Shown o n
Shown-along {o} {p} {n} {m} e f h = subst (λ x. Shown x n) (sym e) (subst (Shown p) (sym f) h)

Sequences-snoc :
    (env : Env) (r : Recorder) (event : AegisEvent) (bus : Option (List EventEnvelope))
    (es : List WorkflowEvent) (e : WorkflowEvent)
    → Sequences bus es
    → Sequences
        (elim bus [ none ↦ none | some sent ↦ some (sent ++ envelope env r event e.seq ∷ []) ])
        (es ++ e ∷ [])
Sequences-snoc env r event none es e h = tt
Sequences-snoc env r event (some sent) es e h = rw (map-append, map-append, h)

module _ (env : Env) (tasks : List TaskNode) where
  Move-events :
      {r v : Recorder} (m : Move env tasks r v)
      → v.events
        ≡ r.events
          ++ record { seq = r.seq + 1; task_id = some m.task.id; state = state_name m.to } ∷ []
  Move-events m = ap (λ (l : Ledger). l.events) m.ledger

  Move-seq : {r v : Recorder} (m : Move env tasks r v) → v.seq ≡ r.seq + 1
  Move-seq m = ap (λ (l : Ledger). l.seq) m.ledger

  Move-IsHistory : {r v : Recorder} → Move env tasks r v → IsHistory r → IsHistory v
  Move-IsHistory {r} {v} m h =
      let e : WorkflowEvent = record {
        seq = r.seq + 1;
        task_id = some m.task.id;
        state = state_name m.to;
      } in
      record {
        counted = omega (
          arith,
          Move-seq m,
          ap length (Move-events m),
          length-append r.events (e ∷ []),
          h.counted,
        );
        numbered =
            rw (Move-events m) (IsNumbered-snoc 1 r.events e h.numbered (omega (arith, h.counted)));
        replays = λ id.
            Shown-along (Move-state env tasks m id)
              (ap (λ es. replay id es "pending") (Move-events m)
                ∙ replay-snoc id r.events e "pending")
              (Shown-if (str_eq m.task.id id) m.to (state_of r id) (replay id r.events "pending")
                (h.replays id));
        published =
            subst (λ b. Sequences b v.events) (sym m.sent)
              (subst (Sequences _) (sym (Move-events m))
                (Sequences-snoc env r m.event r.bus r.events e h.published));
      }

  pub Moves-IsHistory : {r v : Recorder} → Moves env tasks r v → IsHistory r → IsHistory v
  Moves-IsHistory stay h = h
  Moves-IsHistory (more n m) h = Move-IsHistory m (Moves-IsHistory n h)

-- Whether all events are of tasks; that of the end of a run is not.
abbrev pub only_tasks : List WorkflowEvent → Bool
only_tasks es = all (λ e. elim e.task_id [ some id ↦ true | none ↦ false ]) es

only_tasks-snoc :
    (es : List WorkflowEvent) (seq : ℕ) (id state : String)
    → only_tasks es ≡ true
    → only_tasks (es ++ record { seq = seq; task_id = some id; state = state } ∷ []) ≡ true
only_tasks-snoc [] seq id state h = refl
only_tasks-snoc (x ∷ es) seq id state h = ground (arith, only_tasks-snoc es seq id state)

pub Moves-only_tasks :
    (env : Env) (tasks : List TaskNode) {r v : Recorder}
    → Moves env tasks r v
    → only_tasks r.events ≡ true
    → only_tasks v.events ≡ true
Moves-only_tasks env tasks stay h = h
Moves-only_tasks env tasks (more {u = u} n m) h = rw (Move-events env tasks m) (
    only_tasks-snoc u.events (u.seq + 1) m.task.id (state_name m.to)
      (Moves-only_tasks env tasks n h))

-- The end of a run is recorded as one more event.
pub finish-IsHistory :
    (env : Env) (r : Recorder) (status : WorkflowStatus)
    → IsHistory r
    → IsHistory (finish env r status)
unfolding finish
finish-IsHistory env r status h =
    let e : WorkflowEvent = record { seq = r.seq + 1; task_id = none; state = "finished" } in
    record {
      counted = omega (arith, length-append r.events (e ∷ []), h.counted);
      numbered = IsNumbered-snoc 1 r.events e h.numbered (omega (arith, h.counted));
      replays = λ id. rw (replay-snoc id r.events e "pending") (h.replays id);
      published =
          Sequences-snoc env r (workflow_finished r.run_id (r.seq + 1) (status_name env status))
            r.bus r.events e h.published;
    }

-- The last envelope on the bus tells the status with which the run ended.
abbrev pub Announced : Env → Option (List EventEnvelope) → Recorder → WorkflowStatus → Type 0
Announced env none r status = Unit
Announced env (some sent) r status =
    (before : List EventEnvelope) × (sent
      ≡ before
        ++ envelope env r (workflow_finished r.run_id r.seq (status_name env status)) r.seq ∷ [])

-- The recorder of a run that has ended with a report: one event "finished" stands after those of the
-- tasks, and the report has the ledger with it.
pub record IsEnded (env : Env) (r : Recorder) (rep : WorkflowReport) : Type 0 where
  pub before : List WorkflowEvent
  pub split : r.events ≡ before ++ record { seq = r.seq; task_id = none; state = "finished" } ∷ []
  pub tasks : only_tasks before ≡ true
  pub ledger : rep.ledger ≡ r.ledger
  pub announced : Announced env r.bus r rep.status

pub finish-IsEnded :
    (env : Env) (r : Recorder) (rep : WorkflowReport)
    → only_tasks r.events ≡ true
    → rep.ledger ≡ (finish env r rep.status).ledger
    → IsEnded env (finish env r rep.status) rep
unfolding finish
finish-IsEnded env r rep h same = record {
  before = r.events;
  split = refl;
  tasks = h;
  ledger = same;
  announced = by_bus r.bus refl;
}
  where
    by_bus :
        (bus : Option (List EventEnvelope))
        → r.bus ≡ bus
        → Announced env (finish env r rep.status).bus (finish env r rep.status) rep.status
    by_bus none at = rw at tt
    by_bus (some sent) at = rw at (sent, refl)
