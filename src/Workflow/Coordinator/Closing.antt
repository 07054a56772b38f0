-- ===== src/Workflow/Coordinator/Closing.antt =====
-- The report with which `run` of src/orchestration/workflow.rs ends.
use aegis_runtime.Events.{EventEnvelope}
use aegis_runtime.Workflow.Types.{TaskState, TaskNode, is_terminal, task_ids}
use aegis_runtime.Workflow.Ledger.{Env, Recorder, WorkflowStatus, state_of}
use aegis_runtime.Workflow.Executor.{
  WorkflowConfig, Joined, is_running, is_ready, is_waiting, is_completed, cancel_open, open_state,
  report_status, report, join,
}
use aegis_runtime.Workflow.Coordinator.{
  Phase, top, starting, waiting, ended, Exec, Input, caller_cancel, deadline, body_done, turn,
  unfinished, take_ended, node_of, start, observe, end_run, after_starts, turn_top, spawn,
  turn_starting, turn_waiting, coordinate, may_end, step, run,
}
use aegis_runtime.Workflow.Coordinator.Sound.{
  IsSound, IsGoing, Linked, opened, observe-IsGoing, step-IsSound,
}
use aegis_runtime.Workflow.Coordinator.Guarantees.{after, origin, start-IsSound}
use aegis_runtime.Workflow.Moves.Open.{is_open, cancel_open-closes}
use aegis_runtime.Workflow.Moves.Running.{cancel_open-running}
use aegis_runtime.Prelude.{
  ℕ, ◌-◌, String, ◌≡◌, refl, sym, ap, ◌∙◌, List, [], ◌∷◌, map, Option, none, some, Bool, true,
  false, ◌&&◌, ◌||◌, not, eq_iff, ◌==◌, ==_iff, contains, keys, length, select, any, all, arith,
  Bool-cases, inl, inr, if_ind,
}

abbrev pub is_cancelled : WorkflowStatus → Bool
is_cancelled WorkflowStatus.cancelled = true
is_cancelled _ = false

abbrev pub no_ids : List String → Bool
no_ids [] = true
no_ids (id ∷ ids) = false

-- A run that has not ended, or ended otherwise than cancelled, or left nothing unfinished.
abbrev pub is_closed : Phase → Bool
is_closed (ended r) = not (is_cancelled r.status) || no_ids r.unfinished
is_closed _ = true

abbrev pub IsClosed : Exec → Type 0
IsClosed s = is_closed s.phase ≡ true

settled_state :
    (o : Option TaskState)
    → is_open o ≡ false
    → is_running o ≡ false
    → (elim o [ some s ↦ not (is_terminal s) | none ↦ false ]) ≡ false
settled_state none h g = refl
settled_state (some TaskState.pending) h g = absurd (cc)
settled_state (some TaskState.ready) h g = absurd (cc)
settled_state (some TaskState.running) h g = absurd (cc)
settled_state (some TaskState.waiting_for_approval) h g = absurd (cc)
settled_state (some TaskState.completed) h g = refl
settled_state (some TaskState.cancelled) h g = refl
settled_state (some (TaskState.failed f)) h g = refl
settled_state (some (TaskState.skipped p)) h g = refl

none_selected :
    (p : String → Bool) (ids all_ids : List String)
    → ((id : String) → contains ids id ≡ true → contains all_ids id ≡ true)
    → ((id : String) → contains all_ids id ≡ true → p id ≡ false)
    → no_ids (select p ids) ≡ true
none_selected p [] all_ids sub h = refl
none_selected p (id ∷ ids) all_ids sub h =
    let out : p id ≡ false = h id (sub id (ground (arith, eq_iff id id))) in
    let rest = none_selected p ids all_ids (λ x m. sub x (ground (arith, m))) h in rw out rest

no_keys :
    (rs : List (String × Option Joined)) (id : String)
    → length rs ≡ 0
    → contains (keys rs) id ≡ false
no_keys [] id h = refl
no_keys (r ∷ rs) id h = absurd (omega (arith, h))

not_cancelled : (r : Recorder) → is_cancelled (report_status r false) ≡ false
not_cancelled r =
    if_ind (λ x. is_cancelled x ≡ false) (any is_waiting (map (λ e. some e.1) r.states)) (λ _. refl)
      (λ _.
        if_ind (λ x. is_cancelled x ≡ false) (all is_completed (map (λ e. some e.1) r.states))
          (λ _. refl) (λ _. refl))

module _ (env : Env) (config : WorkflowConfig) (tasks : List TaskNode) (origin : Recorder) where
  module _ (s : Exec) (i : IsGoing env config tasks origin s) where
    end_run-IsClosed : length s.running ≡ 0 → IsClosed (end_run env config tasks s)
    unfolding end_run report
    end_run-IsClosed idle = elim (Bool-cases s.cancel_seen) [
      | inr going ↦ rw going (ground (arith, not_cancelled s.rec))
      | inl seen ↦
          let closed : (id : String)
              → contains (task_ids tasks) id ≡ true
              → open_state (cancel_open env s.rec tasks) id ≡ false =
            λ id m.
              settled_state (state_of (cancel_open env s.rec tasks) id)
                (cancel_open-closes env s.rec tasks id m)
                (cancel_open-running env s.rec tasks id
                  ∙ i.core.runs id
                  ∙ no_keys s.running id idle) in
          rw seen (
            ground (
              arith,
              none_selected (open_state (cancel_open env s.rec tasks)) (task_ids tasks)
                  (task_ids tasks) (λ id m. m) closed,
            ))
    ]

    after_starts-IsClosed : IsClosed (after_starts env config tasks s)
    unfolding after_starts
    after_starts-IsClosed =
        if_ind IsClosed (s.live == 0)
          (λ none_live. end_run-IsClosed (sym i.core.counted ∙ (==_iff s.live 0).0 none_live))
          (λ _. refl)

    turn_starting-IsClosed :
        (t : TaskNode) (ts : List TaskNode) → IsClosed (turn_starting env config tasks s t ts)
    unfolding turn_starting spawn
    turn_starting-IsClosed t ts =
        let P = IsClosed in
        if_ind P (is_ready (state_of s.rec t.id))
          (λ _.
            if_ind P (s.caller_cancelled || s.run_cancelled || s.deadline_passed) (λ _. refl)
              (λ _.
                if_ind P (unfinished s.running == config.max_parallel) (λ _. after_starts-IsClosed)
                  (λ _. refl)))
          (λ _. refl)

    turn_waiting-IsClosed :
        (pick : String) → IsClosed s → IsClosed (turn_waiting env config tasks s pick)
    unfolding turn_waiting
    turn_waiting-IsClosed pick c =
        let P = IsClosed in
        if_ind P (s.caller_cancelled && not s.cancel_seen) (λ _. refl)
          (λ _.
            if_ind P (s.deadline_passed && not s.budget_exhausted) (λ _. refl)
              (λ _. joins (take_ended pick s.running)))
      where
        nothing :
            (rs : List (String × Option Joined))
            → s.running ≡ rs
            → IsClosed (elim rs [ [] ↦ end_run env config tasks s | _ ↦ s ])
        nothing [] e = end_run-IsClosed (ap length e)
        nothing (r ∷ rs) e = c

        joined :
            (j : Joined) (rest : List (String × Option Joined)) (n : Option TaskNode)
            → IsClosed (elim n [
              | none ↦ s
              | some t ↦ record s {
                rec = join env s.rec t j;
                running = rest;
                live = s.live - 1;
                phase = top;
              }
            ])
        joined j rest none = c
        joined j rest (some t) = refl

        joins :
            (o : Option (Joined × List (String × Option Joined)))
            → IsClosed (elim o [
              | none ↦ elim s.running [ [] ↦ end_run env config tasks s | _ ↦ s ]
              | some (j, rest) ↦ elim (node_of tasks pick) [
                | none ↦ s
                | some t ↦ record s {
                  rec = join env s.rec t j;
                  running = rest;
                  live = s.live - 1;
                  phase = top;
                }
              ]
            ])
        joins none = nothing s.running refl
        joins (some (j, rest)) = joined j rest (node_of tasks pick)

  turn_top-IsClosed :
      (s : Exec) → IsGoing env config tasks origin s → IsClosed (turn_top env config tasks s)
  unfolding turn_top
  turn_top-IsClosed s i =
      if_ind IsClosed (observe env config tasks s).cancel_seen
        (λ _.
          after_starts-IsClosed (observe env config tasks s)
            (observe-IsGoing env config tasks origin s i))
        (λ _. refl)

  coordinate-IsClosed :
      (p : Phase) (s : Exec) (pick : String) (i : IsSound env config tasks origin s)
      → Linked env p i.before s.rec
      → IsClosed s
      → IsClosed (coordinate env config tasks p s pick)
  unfolding coordinate
  coordinate-IsClosed top s pick i l c = turn_top-IsClosed s (opened env config tasks origin s i l)
  coordinate-IsClosed (starting []) s pick i l c =
      after_starts-IsClosed s (opened env config tasks origin s i l)
  coordinate-IsClosed (starting (t ∷ ts)) s pick i l c =
      turn_starting-IsClosed s (opened env config tasks origin s i l) t ts
  coordinate-IsClosed waiting s pick i l c =
      turn_waiting-IsClosed s (opened env config tasks origin s i l) pick c
  coordinate-IsClosed (ended r) s pick i l c = c

  step-IsClosed :
      (s : Exec) (x : Input)
      → IsSound env config tasks origin s
      → IsClosed s
      → IsClosed (step env config tasks s x)
  unfolding step
  step-IsClosed s caller_cancel i c = c
  step-IsClosed s deadline i c = elapses config.total_budget
    where
      elapses :
          (o : Option ℕ)
          → IsClosed (elim o [ some _ ↦ record s { deadline_passed = true } | none ↦ s ])
      elapses none = c
      elapses (some d) = c
  step-IsClosed s (body_done id j) i c =
      if_ind IsClosed (may_end env config tasks s j) (λ _. c) (λ _. c)
  step-IsClosed s (turn pick) i c = coordinate-IsClosed s.phase s pick i i.linked c

  run-IsClosed :
      (s : Exec) (is : List Input)
      → IsSound env config tasks origin s
      → IsClosed s
      → IsClosed (run env config tasks s is)
  unfolding run
  run-IsClosed s [] i c = c
  run-IsClosed s (x ∷ is) i c =
      run-IsClosed (step env config tasks s x) is (step-IsSound env config tasks origin s x i)
        (step-IsClosed s x i c)

-- A run that ends with status `Cancelled` reports no unfinished task, at whatever point and in
-- whatever order bodies, clock, cancellation and coordinator act.
pub run-is_closed :
    (env : Env) (config : WorkflowConfig) (tasks : List TaskNode)
    (bus : Option (List EventEnvelope)) (inputs : List Input)
    → is_closed (after env config tasks bus inputs).phase ≡ true
unfolding start
run-is_closed env config tasks bus inputs =
    run-IsClosed env config tasks (origin env config tasks bus) (start env config tasks bus) inputs
      (start-IsSound env config tasks bus) refl
