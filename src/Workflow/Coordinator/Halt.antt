-- ===== src/Workflow/Coordinator/Halt.antt =====
-- The executor of src/orchestration/workflow.rs after its caller has cancelled, its token has fired or
-- its budget is spent: nothing is started any more.
use aegis_runtime.Workflow.Types.{TaskNode}
use aegis_runtime.Workflow.Ledger.{Env, state_of}
use aegis_runtime.Workflow.Executor.{WorkflowConfig, Joined, is_ready, join}
use aegis_runtime.Workflow.Coordinator.{
  Phase, top, starting, waiting, ended, Exec, Input, caller_cancel, deadline, body_done, turn,
  unfinished, take_ended, node_of, observe, end_run, after_starts, turn_top, turn_starting,
  turn_waiting, coordinate, may_end, step, run,
}
use aegis_runtime.Workflow.Coordinator.Bodies.{keys-end_body}
use aegis_runtime.Prelude.{
  ℕ, String, ◌≡◌, refl, sym, ap, ◌∙◌, List, [], ◌∷◌, Option, none, some, Bool, true, str_eq,
  contains, keys, arith, Bool-cases, Option-cases, inl, inr, ◌-◌, if_ind, not, ◌&&◌, ◌||◌, ◌==◌,
}

-- The caller's token, the run's token or the deadline has fired.
abbrev pub halted : Exec → Bool
halted s = s.caller_cancelled || s.run_cancelled || s.deadline_passed

-- The bodies of the later point are bodies of the earlier one.
abbrev pub NoneStarted : List (String × Option Joined) → List (String × Option Joined) → Type 0
NoneStarted before after =
    (id : String) → contains (keys after) id ≡ true → contains (keys before) id ≡ true

-- Still halted, with no new body.
record Halts (s v : Exec) : Type 0 where
  pub still : halted s ≡ true → halted v ≡ true
  pub fewer : halted s ≡ true → NoneStarted s.running v.running

take_ended-NoneStarted :
    (pick : String) (rs : List (String × Option Joined)) (j : Joined)
    (rest : List (String × Option Joined))
    → take_ended pick rs ≡ some (j, rest)
    → NoneStarted rs rest
take_ended-NoneStarted pick [] j rest e id m = absurd (ground arith)
take_ended-NoneStarted pick ((k, none) ∷ rs) j rest e id m =
    elim (Option-cases (take_ended pick rs)) [
      | inl missing ↦ absurd (ground (arith, missing))
      | inr ((r, tail), found) ↦
          let same : rest ≡ (k, none) ∷ tail = ground (arith, found) in
          ground (arith, rw same at m, take_ended-NoneStarted pick rs r tail found id)
    ]
take_ended-NoneStarted pick ((k, some o) ∷ rs) j rest e id m = elim (Bool-cases (str_eq k pick)) [
  | inl hit ↦ let same : rest ≡ rs = ground (arith, hit) in ground (arith, rw same at m)
  | inr miss ↦ elim (Option-cases (take_ended pick rs)) [
    | inl missing ↦ absurd (ground (arith, miss, missing))
    | inr ((r, tail), found) ↦
        let same : rest ≡ (k, some o) ∷ tail = ground (arith, miss, found) in
        ground (arith, rw same at m, take_ended-NoneStarted pick rs r tail found id)
  ]
]

keeps : (s v : Exec) → v.running ≡ s.running → (halted s ≡ true → halted v ≡ true) → Halts s v
keeps s v same still = record { still = still; fewer = λ h id m. rw same at m }

Halts-trans : {s v w : Exec} → Halts s v → Halts v w → Halts s w
Halts-trans a b = record {
  still = λ h. b.still (a.still h);
  fewer = λ h id m. a.fewer h id (b.fewer (a.still h) id m);
}

module _ (env : Env) (config : WorkflowConfig) (tasks : List TaskNode) where
  module _ (s : Exec) where
    observe-Halts : Halts s (observe env config tasks s)
    unfolding observe
    observe-Halts = keeps s _ refl (λ h. ground arith)

    end_run-Halts : Halts s (end_run env config tasks s)
    unfolding end_run
    end_run-Halts = keeps s _ refl (λ h. h)

    after_starts-Halts : Halts s (after_starts env config tasks s)
    unfolding after_starts
    after_starts-Halts =
        if_ind (Halts s) (s.live == 0) (λ _. end_run-Halts) (λ _. keeps s _ refl (λ h. h))

    turn_starting-Halts :
        (t : TaskNode) (ts : List TaskNode) → Halts s (turn_starting env config tasks s t ts)
    unfolding turn_starting
    turn_starting-Halts t ts =
        if_ind (Halts s) (is_ready (state_of s.rec t.id))
          (λ _.
            if_ind (Halts s) (halted s) (λ _. keeps s _ refl (λ h. h))
              (λ going.
                if_ind (Halts s) (unfinished s.running == config.max_parallel)
                  (λ _. after_starts-Halts)
                  (λ _. record { still = λ h. absurd (cc); fewer = λ h. absurd (cc) })))
          (λ _. keeps s _ refl (λ h. h))

    turn_waiting-Halts : (pick : String) → Halts s (turn_waiting env config tasks s pick)
    unfolding turn_waiting
    turn_waiting-Halts pick =
        if_ind (Halts s) (s.caller_cancelled && not s.cancel_seen)
          (λ _. keeps s _ refl (λ h. ground arith))
          (λ _.
            if_ind (Halts s) (s.deadline_passed && not s.budget_exhausted)
              (λ _. keeps s _ refl (λ h. ground arith))
              (λ _. joins (take_ended pick s.running) refl))
      where
        nothing :
            (rs : List (String × Option Joined))
            → Halts s (elim rs [ [] ↦ end_run env config tasks s | _ ↦ s ])
        nothing [] = end_run-Halts
        nothing (r ∷ rs) = keeps s s refl (λ h. h)

        joined :
            (j : Joined) (rest : List (String × Option Joined)) (n : Option TaskNode)
            → take_ended pick s.running ≡ some (j, rest)
            → Halts s (elim n [
              | none ↦ s
              | some t ↦ record s {
                rec = join env s.rec t j;
                running = rest;
                live = s.live - 1;
                phase = top;
              }
            ])
        joined j rest none took = keeps s s refl (λ h. h)
        joined j rest (some t) took = record {
          still = λ h. h;
          fewer = λ h. take_ended-NoneStarted pick s.running j rest took;
        }

        joins :
            (o : Option (Joined × List (String × Option Joined)))
            → take_ended pick s.running ≡ o
            → Halts s (elim o [
              | none ↦ elim s.running [ [] ↦ end_run env config tasks s | _ ↦ s ]
              | some (j, rest) ↦ elim (node_of tasks pick) [
                | none ↦ s
                | some t ↦ record s {
                  rec = join env s.rec t j;
                  running = rest;
                  live = s.live - 1;
                  phase = top;
                }
              ]
            ])
        joins none took = nothing s.running
        joins (some (j, rest)) took = joined j rest (node_of tasks pick) took

  turn_top-Halts : (s : Exec) → Halts s (turn_top env config tasks s)
  unfolding turn_top
  turn_top-Halts s =
      let o = observe env config tasks s in
      if_ind (Halts s) o.cancel_seen (λ _. Halts-trans (observe-Halts s) (after_starts-Halts o))
        (λ _. Halts-trans (observe-Halts s) (keeps o _ refl (λ h. h)))

  coordinate-Halts :
      (p : Phase) (s : Exec) (pick : String) → Halts s (coordinate env config tasks p s pick)
  unfolding coordinate
  coordinate-Halts top s pick = turn_top-Halts s
  coordinate-Halts (starting []) s pick = after_starts-Halts s
  coordinate-Halts (starting (t ∷ ts)) s pick = turn_starting-Halts s t ts
  coordinate-Halts waiting s pick = turn_waiting-Halts s pick
  coordinate-Halts (ended r) s pick = keeps s s refl (λ h. h)

  step-Halts : (s : Exec) (i : Input) → Halts s (step env config tasks s i)
  unfolding step
  step-Halts s caller_cancel = keeps s _ refl (λ h. refl)
  step-Halts s deadline = elapses config.total_budget
    where
      elapses :
          (o : Option ℕ)
          → Halts s (elim o [ some _ ↦ record s { deadline_passed = true } | none ↦ s ])
      elapses none = keeps s s refl (λ h. h)
      elapses (some d) = keeps s _ refl (λ h. ground arith)
  step-Halts s (body_done id j) =
      if_ind (Halts s) (may_end env config tasks s j)
        (λ _. record {
          still = λ h. h;
          fewer = λ h k m. ap (λ l. contains l k) (sym (keys-end_body id j s.running)) ∙ m;
        })
        (λ _. keeps s s refl (λ h. h))
  step-Halts s (turn pick) = coordinate-Halts s.phase s pick

  -- Once the caller has cancelled, the run's token has fired or the total budget has elapsed, no task
  -- body is started any more, whatever comes: each body that is spawned and not joined later was so
  -- already then.
  pub run-NoneStarted :
      (s : Exec) (later : List Input) (id : String)
      → halted s ≡ true
      → contains (keys (run env config tasks s later).running) id ≡ true
      → contains (keys s.running) id ≡ true
  unfolding run
  run-NoneStarted s later id h m = (all_steps s later).fewer h id m
    where
      all_steps : (v : Exec) (is : List Input) → Halts v (run env config tasks v is)
      all_steps v [] = keeps v v refl (λ h. h)
      all_steps v (i ∷ is) = Halts-trans (step-Halts v i) (all_steps (step env config tasks v i) is)
