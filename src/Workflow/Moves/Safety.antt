-- ===== src/Workflow/Moves/Safety.antt =====
-- Invariants of the moves of src/orchestration/workflow.rs: the states of a task and of its
-- predecessors.
use mathlib.Core.Path.{subst}
use aegis_runtime.Workflow.Types.{TaskState, TaskNode, is_terminal, task_ids}
use aegis_runtime.Workflow.Ledger.{Env, Recorder, Ledger, state_of}
use aegis_runtime.Workflow.Executor.{is_completed, is_bad}
use aegis_runtime.Workflow.Moves.{
  Allowed, unblock, skip, launch, complete, suspend, fail, stop, cancel_pending, cancel_ready,
  cancel_waiting, Move, Moves, stay, more,
}
use aegis_runtime.Prelude.{
  Distinct, String, ◌≡◌, refl, sym, ap, ◌∙◌, List, [], ◌∷◌, Option, none, some, true, false, str_eq,
  eq_iff, contains, lookup, lookup-insert, In, here, there, All, All-In, All-of-In, arith,
  Bool-cases, inl, inr, if◌then◌else◌,
}

-- Why a task may be in its state: what has started has completed predecessors only, and what is
-- skipped names a predecessor that ended without success.
abbrev pub Justified : Recorder → TaskNode → Option TaskState → Type 0
Justified r t none = ⊥
Justified r t (some TaskState.pending) = Unit
Justified r t (some TaskState.cancelled) = Unit
Justified r t (some (TaskState.skipped p)) = In p t.deps × (is_bad (state_of r p) ≡ true)
Justified r t (some _) = All (λ d. is_completed (state_of r d) ≡ true) t.deps

abbrev pub IsJustified : List TaskNode → Recorder → Type 0
IsJustified tasks r = All (λ t. Justified r t (state_of r t.id)) tasks

-- What is settled stays as it is.
abbrev pub Settled : Recorder → Recorder → Type 0
Settled r v =
    (id : String) (s : TaskState)
    → state_of r id ≡ some s
    → is_terminal s ≡ true
    → state_of v id ≡ some s

not-terminal :
    {r : Recorder} {t : TaskNode} {a b : TaskState} → Allowed r t a b → is_terminal a ≡ false
not-terminal (unblock _) = refl
not-terminal (skip _ _) = refl
not-terminal launch = refl
not-terminal complete = refl
not-terminal suspend = refl
not-terminal fail = refl
not-terminal stop = refl
not-terminal cancel_pending = refl
not-terminal cancel_ready = refl
not-terminal cancel_waiting = refl

module _ (env : Env) (tasks : List TaskNode) where
  pub Move-state :
      {r v : Recorder} (m : Move env tasks r v) (id : String)
      → state_of v id ≡ (if str_eq m.task.id id then some m.to else state_of r id)
  Move-state {r} m id =
      ap (λ (l : Ledger). lookup id l.states) m.ledger ∙ lookup-insert m.task.id id m.to r.states

  Move-Settled : {r v : Recorder} → Move env tasks r v → Settled r v
  Move-Settled {r} {v} m id s e terminal = elim (Bool-cases (str_eq m.task.id id)) [
    | inr other ↦ Move-state m id ∙ rw other e
    | inl same ↦
        let at : m.task.id ≡ id = (eq_iff m.task.id id).0 same in
        let from : m.from ≡ s = ground (arith, m.old, rw (← at) at e) in
        let open_from : is_terminal m.from ≡ false = not-terminal m.allowed in
        absurd (ground (arith, from, open_from))
  ]

  pub Moves-Settled : {r v : Recorder} → Moves env tasks r v → Settled r v
  Moves-Settled stay id s e terminal = e
  Moves-Settled (more n m) id s e terminal =
      Move-Settled m id s (Moves-Settled n id s e terminal) terminal

module _ (r v : Recorder) (kept : Settled r v) (d : String) where
  completed-kept :
      (o : Option TaskState)
      → state_of r d ≡ o
      → is_completed o ≡ true
      → is_completed (state_of v d) ≡ true
  completed-kept (some TaskState.completed) e h = rw (kept d TaskState.completed e refl)
  completed-kept _ e h = absurd (cc)

  bad-kept :
      (o : Option TaskState) → state_of r d ≡ o → is_bad o ≡ true → is_bad (state_of v d) ≡ true
  bad-kept (some (TaskState.failed f)) e h = rw (kept d (TaskState.failed f) e refl)
  bad-kept (some TaskState.cancelled) e h = rw (kept d TaskState.cancelled e refl)
  bad-kept (some (TaskState.skipped p)) e h = rw (kept d (TaskState.skipped p) e refl)
  bad-kept _ e h = absurd (cc)

module _ (r v : Recorder) (kept : Settled r v) where
  deps-kept :
      (ds : List String)
      → All (λ d. is_completed (state_of r d) ≡ true) ds
      → All (λ d. is_completed (state_of v d) ≡ true) ds
  deps-kept [] h = tt
  deps-kept (d ∷ ds) h = (completed-kept r v kept d (state_of r d) refl h.0, deps-kept ds h.1)

  Justified-kept : (t : TaskNode) (o : Option TaskState) → Justified r t o → Justified v t o
  Justified-kept t none j = j
  Justified-kept t (some TaskState.pending) j = tt
  Justified-kept t (some TaskState.cancelled) j = tt
  Justified-kept t (some (TaskState.skipped p)) j =
      (j.0, bad-kept r v kept p (state_of r p) refl j.1)
  Justified-kept t (some TaskState.ready) j = deps-kept t.deps j
  Justified-kept t (some TaskState.running) j = deps-kept t.deps j
  Justified-kept t (some TaskState.waiting_for_approval) j = deps-kept t.deps j
  Justified-kept t (some TaskState.completed) j = deps-kept t.deps j
  Justified-kept t (some (TaskState.failed f)) j = deps-kept t.deps j

-- A move leads from a justified state to a justified state.
Allowed-Justified :
    {r : Recorder} {t : TaskNode} {a b : TaskState}
    → Allowed r t a b
    → Justified r t (some a)
    → Justified r t (some b)
Allowed-Justified (unblock h) j = h
Allowed-Justified (skip m bad) j = (m, bad)
Allowed-Justified launch j = j
Allowed-Justified complete j = j
Allowed-Justified suspend j = j
Allowed-Justified fail j = j
Allowed-Justified stop j = tt
Allowed-Justified cancel_pending j = tt
Allowed-Justified cancel_ready j = tt
Allowed-Justified cancel_waiting j = tt

contains-In : (ts : List TaskNode) (u : TaskNode) → In u ts → contains (task_ids ts) u.id ≡ true
contains-In [] u m = elim m [ ]
contains-In (t ∷ ts) u (here e) =
    let same : u.id ≡ t.id = ap (λ x. x.id) e in ground (arith, eq_iff t.id u.id, same)
contains-In (t ∷ ts) u (there m) = ground (arith, contains-In ts u m)

-- Tasks with one id are one task.
pub same_task :
    (ts : List TaskNode) (t u : TaskNode)
    → Distinct (task_ids ts)
    → In t ts
    → In u ts
    → t.id ≡ u.id
    → t ≡ u
same_task [] t u dist m n e = elim m [ ]
same_task (x ∷ xs) t u dist (here a) (here b) e = a ∙ sym b
same_task (x ∷ xs) t u dist (here a) (there n) e =
    let at : t.id ≡ x.id = ap (λ y. y.id) a in absurd (cc (dist.0, contains-In xs u n, sym e ∙ at))
same_task (x ∷ xs) t u dist (there m) (here b) e =
    let at : u.id ≡ x.id = ap (λ y. y.id) b in absurd (cc (dist.0, contains-In xs t m, e ∙ at))
same_task (x ∷ xs) t u dist (there m) (there n) e = same_task xs t u dist.1 m n e

module _ (env : Env) (tasks : List TaskNode) (dist : Distinct (task_ids tasks)) where
  Move-IsJustified :
      {r v : Recorder} → Move env tasks r v → IsJustified tasks r → IsJustified tasks v
  Move-IsJustified {r} {v} m j = All-of-In tasks λ u known.
      let kept = Move-Settled env tasks m in
      let before = All-In (λ t. Justified r t (state_of r t.id)) j known in
      elim (Bool-cases (str_eq m.task.id u.id)) [
        | inr other ↦
            rw (Move-state env tasks m u.id, other)
              (Justified-kept r v kept u (state_of r u.id) before)
        | inl same ↦
            let at : m.task ≡ u =
              same_task tasks m.task u dist m.known known ((eq_iff m.task.id u.id).0 same) in
            let old : Justified r m.task (some m.from) =
              subst (λ o. Justified r m.task o) m.old
                (subst (λ x. Justified r x (state_of r x.id)) (sym at) before) in
            rw (Move-state env tasks m u.id, same)
              (Justified-kept r v kept u (some m.to)
                (subst (λ x. Justified r x (some m.to)) at (Allowed-Justified m.allowed old)))
      ]

  pub Moves-IsJustified :
      {r v : Recorder} → Moves env tasks r v → IsJustified tasks r → IsJustified tasks v
  Moves-IsJustified stay j = j
  Moves-IsJustified (more n m) j = Move-IsJustified m (Moves-IsJustified n j)
