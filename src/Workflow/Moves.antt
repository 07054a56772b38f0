-- ===== src/Workflow/Moves.antt =====
-- The abstract state machine behind `Recorder` of src/orchestration/workflow.rs: which changes of one
-- task's state may be recorded, and what recording one does to the ledger and the bus. That every
-- operation of the executor is a sequence of such moves is proved in `Operations`.
pub mod Operations
pub mod Safety
pub mod Running
pub mod Log
pub mod FailureNotes
pub mod Open
use aegis_runtime.Events.{AegisEvent, workflow_task_ready}
use aegis_runtime.Failure.{FailureRecord}
use aegis_runtime.Workflow.Types.{TaskState, state_name, TaskNode}
use aegis_runtime.Workflow.Ledger.{
  Env, ResultHandle, Ledger, Recorder, WorkflowEvent, state_of, event_for, publish, publish_some,
  recorded, transition, note_failure,
}
use aegis_runtime.Workflow.Executor.{is_completed, is_bad}
use aegis_runtime.Prelude.{
  ℕ, suc, ◌+◌, String, ◌≡◌, refl, ap, ◌∙◌, List, [], ◌∷◌, ◌++◌, Option, none, some, Bool, true,
  false, insert, In, All, arith,
}

-- The changes of state that task t may make, given the states of the others.
pub data Allowed (r : Recorder) (t : TaskNode) : TaskState → TaskState → Type 0 where
  unblock :
      All (λ d. is_completed (state_of r d) ≡ true) t.deps
      → Allowed r t TaskState.pending TaskState.ready
  skip :
      {p : String}
      → In p t.deps
      → is_bad (state_of r p) ≡ true
      → Allowed r t TaskState.pending (TaskState.skipped p)
  launch : Allowed r t TaskState.ready TaskState.running
  complete : Allowed r t TaskState.running TaskState.completed
  suspend : Allowed r t TaskState.running TaskState.waiting_for_approval
  fail : {f : FailureRecord} → Allowed r t TaskState.running (TaskState.failed f)
  stop : Allowed r t TaskState.running TaskState.cancelled
  cancel_pending : Allowed r t TaskState.pending TaskState.cancelled
  cancel_ready : Allowed r t TaskState.ready TaskState.cancelled
  cancel_waiting : Allowed r t TaskState.waiting_for_approval TaskState.cancelled

-- Which failure is noted beside a move to a state: the one that the state carries, some failure for
-- a task that is skipped or cancelled, and none otherwise.
pub data Noted (before : List (String × FailureRecord)) (id : String)
    : TaskState → List (String × FailureRecord) → Type 0 where
  as_failed : {f : FailureRecord} → Noted before id (TaskState.failed f) (insert id f before)
  as_skipped :
      {p : String} (f : FailureRecord) → Noted before id (TaskState.skipped p) (insert id f before)
  as_cancelled : (f : FailureRecord) → Noted before id TaskState.cancelled (insert id f before)
  at_ready : Noted before id TaskState.ready before
  at_running : Noted before id TaskState.running before
  at_waiting : Noted before id TaskState.waiting_for_approval before
  at_completed : Noted before id TaskState.completed before

module _ (env : Env) (tasks : List TaskNode) where
  -- One recorded move.
  pub record Move (r r' : Recorder) : Type 0 where
    pub task : TaskNode
    pub known : In task tasks
    pub from : TaskState
    pub to : TaskState
    pub old : state_of r task.id ≡ some from
    pub allowed : Allowed r task from to
    pub result : Option ResultHandle
    pub failures : List (String × FailureRecord)
    pub noted : Noted r.failures task.id to failures
    pub ledger :
        r'.ledger ≡ recorded env (record r.ledger { failures = failures }) task.id to result
    pub event : AegisEvent
    pub announced : event_for r (r.seq + 1) task.id to result ≡ some event
    pub sent : r'.bus ≡ (publish env r event (r.seq + 1)).bus
    pub same_run : r'.run_id ≡ r.run_id
    pub same_session : r'.session_id ≡ r.session_id

  pub data Moves (r : Recorder) : Recorder → Type 0 where
    stay : Moves r r
    more : {u v : Recorder} → Moves r u → Move u v → Moves r v

  pub Moves-trans : {a b c : Recorder} → Moves a b → Moves b c → Moves a c
  Moves-trans m stay = m
  Moves-trans m (more n s) = more (Moves-trans m n) s

  pub Moves-one : {a b : Recorder} → Move a b → Moves a b
  Moves-one s = more stay s

-- A state that is recorded has an event.
event_for-some :
    (r : Recorder) (seq : ℕ) (id : String) (result : Option ResultHandle)
    {before after : List (String × FailureRecord)} {to : TaskState}
    → Noted before id to after
    → (event : AegisEvent) × (event_for r seq id to result ≡ some event)
unfolding event_for
event_for-some r seq id result as_failed = (_, refl)
event_for-some r seq id result (as_skipped f) = (_, refl)
event_for-some r seq id result (as_cancelled f) = (_, refl)
event_for-some r seq id result at_ready = (_, refl)
event_for-some r seq id result at_running = (_, refl)
event_for-some r seq id result at_waiting = (_, refl)
event_for-some r seq id result at_completed = (_, refl)

-- An event depends on the recorder by its run alone.
event_for-same :
    (r s : Recorder) (seq : ℕ) (id : String) (to : TaskState) (result : Option ResultHandle)
    → r.run_id ≡ s.run_id
    → event_for r seq id to result ≡ event_for s seq id to result
unfolding event_for
event_for-same r s seq id TaskState.pending result e = refl
event_for-same r s seq id TaskState.ready result e = ap (λ n. some (workflow_task_ready n seq id)) e
event_for-same r s seq id _ result e = ground arith

module _ (env : Env) (r : Recorder) (id : String) (to : TaskState) (result : Option ResultHandle)
    (event : AegisEvent) (announced : event_for r (r.seq + 1) id to result ≡ some event) where
  transition-parts :
      transition env r id to result
      ≡ publish env (record r { ledger = recorded env r.ledger id to result }) event (r.seq + 1)
  unfolding transition
  transition-parts =
      ap
        (λ e.
          publish_some env (record r { ledger = recorded env r.ledger id to result }) e (r.seq + 1))
        announced

-- Recording a state with the failures that are noted beside it is one move.
module _ (env : Env) (tasks : List TaskNode) (r : Recorder) (t : TaskNode) (known : In t tasks)
    {from to : TaskState} (old : state_of r t.id ≡ some from) (allowed : Allowed r t from to)
    (result : Option ResultHandle) where
  noting-Move :
      (failures : List (String × FailureRecord))
      → Noted r.failures t.id to failures
      → Move env tasks r (
          transition env
            (record r { ledger = record r.ledger { failures = failures } })
            t.id
            to
            result)
  noting-Move failures noted =
      let r0 = record r { ledger = record r.ledger { failures = failures } } in
      let (event, announced) = event_for-some r (r.seq + 1) t.id result noted in
      let parts =
        transition-parts env r0 t.id to result event
          (event_for-same r0 r (r.seq + 1) t.id to result refl ∙ announced) in
      record {
        task = t;
        known = known;
        from = from;
        to = to;
        old = old;
        allowed = allowed;
        result = result;
        failures = failures;
        noted = noted;
        ledger = ap (λ x. x.ledger) parts;
        event = event;
        announced = announced;
        sent = ap (λ x. x.bus) parts;
        same_run = ap (λ x. x.run_id) parts;
        same_session = ap (λ x. x.session_id) parts;
      }

  pub transition-Move :
      Noted r.failures t.id to r.failures → Move env tasks r (transition env r t.id to result)
  transition-Move noted = noting-Move r.failures noted

  pub note_failure-Move :
      (f : FailureRecord)
      → Noted r.failures t.id to (insert t.id f r.failures)
      → Move env tasks r (transition env (note_failure env r t.id f) t.id to result)
  unfolding note_failure
  note_failure-Move f noted = noting-Move (insert t.id f r.failures) noted
