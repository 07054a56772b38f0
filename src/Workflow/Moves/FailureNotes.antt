-- ===== src/Workflow/Moves/FailureNotes.antt =====
-- The failures that the ledger of src/orchestration/workflow.rs keeps.
use mathlib.Core.Path.{subst}
use aegis_runtime.Failure.{FailureRecord}
use aegis_runtime.Workflow.Types.{TaskState, TaskNode}
use aegis_runtime.Workflow.Ledger.{Env, Recorder, Ledger, state_of}
use aegis_runtime.Workflow.Moves.{
  Allowed, unblock, skip, launch, complete, suspend, fail, stop, cancel_pending, cancel_ready,
  cancel_waiting, Noted, as_failed, as_skipped, as_cancelled, at_ready, at_running, at_waiting,
  at_completed, Move, Moves, stay, more,
}
use aegis_runtime.Workflow.Moves.Safety.{Move-state}
use aegis_runtime.Prelude.{
  String, ◌≡◌, refl, sym, ap, ◌∙◌, List, Option, none, some, false, str_eq, eq_iff, eq_refl, lookup,
  lookup-insert, insert, Bool-cases, inl, inr,
}

-- Which failure is kept for a task in a state.
abbrev pub Kept : Option FailureRecord → Option TaskState → Type 0
Kept failure none = Unit
Kept failure (some (TaskState.failed f)) = failure ≡ some f
Kept failure (some (TaskState.skipped p)) = (f : FailureRecord) × (failure ≡ some f)
Kept failure (some TaskState.cancelled) = (f : FailureRecord) × (failure ≡ some f)
Kept failure (some _) = failure ≡ none

-- A failed task has its own failure, a skipped or a cancelled one has some, no other has any.
abbrev pub IsKept : Recorder → Type 0
IsKept r = (id : String) → Kept (lookup id r.failures) (state_of r id)

-- What is kept of the failures, at the id of the move and elsewhere.
Noted-other :
    {before : List (String × FailureRecord)} {id : String} {to : TaskState}
    {after : List (String × FailureRecord)}
    → Noted before id to after
    → (j : String) → str_eq id j ≡ false
    → lookup j after ≡ lookup j before
Noted-other {before} {id = id} (as_failed {f}) j other = lookup-insert id j f before ∙ rw other refl
Noted-other {before} {id = id} (as_skipped f) j other = lookup-insert id j f before ∙ rw other refl
Noted-other {before} {id = id} (as_cancelled f) j other =
    lookup-insert id j f before ∙ rw other refl
Noted-other at_ready j other = refl
Noted-other at_running j other = refl
Noted-other at_waiting j other = refl
Noted-other at_completed j other = refl

Allowed-none :
    {r : Recorder} {t : TaskNode} {a b : TaskState} (x : Option FailureRecord)
    → Allowed r t a b
    → Kept x (some a)
    → x ≡ none
Allowed-none x (unblock _) k = k
Allowed-none x (skip _ _) k = k
Allowed-none x launch k = k
Allowed-none x complete k = k
Allowed-none x suspend k = k
Allowed-none x fail k = k
Allowed-none x stop k = k
Allowed-none x cancel_pending k = k
Allowed-none x cancel_ready k = k
Allowed-none x cancel_waiting k = k

lookup-insert_self :
    (id : String) (f : FailureRecord) (l : List (String × FailureRecord))
    → lookup id (insert id f l) ≡ some f
lookup-insert_self id f l = lookup-insert id id f l ∙ rw (eq_refl id) refl

Noted-Kept :
    {before : List (String × FailureRecord)} {id : String} {to : TaskState}
    {after : List (String × FailureRecord)}
    → Noted before id to after
    → lookup id before ≡ none
    → Kept (lookup id after) (some to)
Noted-Kept {before} {id = id} (as_failed {f}) e = lookup-insert_self id f before
Noted-Kept {before} {id = id} (as_skipped f) e = (f, lookup-insert_self id f before)
Noted-Kept {before} {id = id} (as_cancelled f) e = (f, lookup-insert_self id f before)
Noted-Kept at_ready e = e
Noted-Kept at_running e = e
Noted-Kept at_waiting e = e
Noted-Kept at_completed e = e

module _ (env : Env) (tasks : List TaskNode) where
  Move-failures : {r v : Recorder} (m : Move env tasks r v) → v.failures ≡ m.failures
  Move-failures m = ap (λ (l : Ledger). l.failures) m.ledger

  Move-IsKept : {r v : Recorder} → Move env tasks r v → IsKept r → IsKept v
  Move-IsKept {r} {v} m k id =
      let failures_at : lookup id v.failures ≡ lookup id m.failures =
        ap (λ l. lookup id l) (Move-failures m) in
      elim (Bool-cases (str_eq m.task.id id)) [
        | inr other ↦
            let same : lookup id v.failures ≡ lookup id r.failures =
              failures_at ∙ Noted-other m.noted id other in
            let state : state_of v id ≡ state_of r id = Move-state env tasks m id ∙ rw other refl in
            subst (λ x. Kept x (state_of v id)) (sym same) (subst (Kept _) (sym state) (k id))
        | inl same ↦
            let at : m.task.id ≡ id = (eq_iff m.task.id id).0 same in
            let state : state_of v id ≡ some m.to = Move-state env tasks m id ∙ rw same refl in
            let old : Kept (lookup m.task.id r.failures) (some m.from) =
              subst (Kept _) m.old (k m.task.id) in
            let now = Noted-Kept m.noted (Allowed-none _ m.allowed old) in
            subst (λ x. Kept x (state_of v id)) (sym failures_at)
              (subst (Kept _) (sym state)
                (subst (λ x. Kept (lookup x m.failures) (some m.to)) at now))
      ]

  pub Moves-IsKept : {r v : Recorder} → Moves env tasks r v → IsKept r → IsKept v
  Moves-IsKept stay k = k
  Moves-IsKept (more n m) k = Move-IsKept m (Moves-IsKept n k)
