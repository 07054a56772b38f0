-- ===== src/Workflow/Coordinator/Sound.antt =====
-- The invariant of the coordinator of src/orchestration/workflow.rs: the recorder has made allowed
-- moves only, and the running tasks are those whose bodies are spawned and not joined.
use mathlib.Core.Path.{subst}
use aegis_runtime.Workflow.Types.{TaskNode, TaskState}
use aegis_runtime.Workflow.Ledger.{Env, Recorder, WorkflowStatus, state_of, transition, finish}
use aegis_runtime.Workflow.Executor.{
  WorkflowConfig, Joined, is_ready, cancel_open, propagate, join, report,
}
use aegis_runtime.Workflow.Coordinator.{
  Phase, top, starting, waiting, ended, Exec, Input, caller_cancel, deadline, body_done, turn,
  unfinished, take_ended, node_of, observe, end_run, after_starts, turn_top, spawn, turn_starting,
  turn_waiting, coordinate, may_end, step, run,
}
use aegis_runtime.Workflow.Coordinator.Core.{
  Core, Core-cancel_open, Core-propagate, Core-end_body, Core-spawn, Core-join,
}
use aegis_runtime.Prelude.{
  ℕ, ◌+◌, ◌-◌, String, ◌≡◌, refl, sym, if◌then◌else◌, List, [], ◌∷◌, Option, none, some, true,
  length, In, here, there, if_ind, not, ◌&&◌, ◌||◌, ◌==◌,
}

-- How the recorder stands to the one before the end of the run, which the report has finished.
abbrev pub Linked : Env → Phase → Recorder → Recorder → Type 0
Linked env (ended rep) before rec = (rec ≡ finish env before rep.status) × (rep.ledger ≡ rec.ledger)
Linked env _ before rec = rec ≡ before

-- What holds before the end, and is left as it is by `finish`.
pub carried :
    (P : Recorder → Type 0) (env : Env) (p : Phase) (before rec : Recorder)
    → Linked env p before rec
    → ((status : WorkflowStatus) → P before → P (finish env before status))
    → P before
    → P rec
carried P env (ended rep) before rec l keeps h = subst P (sym (l.0)) (keeps rep.status h)
carried P env top before rec l keeps h = subst P (sym l) h
carried P env (starting ts) before rec l keeps h = subst P (sym l) h
carried P env waiting before rec l keeps h = subst P (sym l) h

module _ (env : Env) (config : WorkflowConfig) (tasks : List TaskNode) (origin : Recorder) where
  abbrev pub PhaseIn : Phase → Type 0
  PhaseIn (starting ts) = (t : TaskNode) → In t ts → In t tasks
  PhaseIn _ = Unit

  -- The invariant of a run that has not ended.
  pub record IsGoing (s : Exec) : Type 0 where
    pub core : Core env config tasks origin s.rec s.running s.live s.peak
    pub within : PhaseIn s.phase

  -- The invariant.
  pub record IsSound (s : Exec) : Type 0 where
    pub before : Recorder
    pub core : Core env config tasks origin before s.running s.live s.peak
    pub within : PhaseIn s.phase
    pub linked : Linked env s.phase before s.rec

  pub opened : (s : Exec) (i : IsSound s) → s.rec ≡ i.before → IsGoing s
  opened s i same = record {
    core = subst (λ r. Core env config tasks origin r s.running s.live s.peak) (sym same) i.core;
    within = i.within;
  }

  module _ (s : Exec) (i : IsGoing s) where
    pub observe-IsGoing : IsGoing (observe env config tasks s)
    unfolding observe
    observe-IsGoing = record {
      core =
          if_ind (λ r. Core env config tasks origin r s.running s.live s.peak) _
            (λ _. Core-cancel_open env config tasks origin s.rec s.running s.live s.peak i.core)
            (λ _. i.core);
      within = i.within;
    }

    end_run-IsSound : IsSound (end_run env config tasks s)
    unfolding end_run report
    end_run-IsSound = record {
      before = if s.cancel_seen then cancel_open env s.rec tasks else s.rec;
      core =
          if_ind (λ r. Core env config tasks origin r s.running s.live s.peak) s.cancel_seen
            (λ _. Core-cancel_open env config tasks origin s.rec s.running s.live s.peak i.core)
            (λ _. i.core);
      within = tt;
      linked = (refl, refl);
    }

    after_starts-IsSound : IsSound (after_starts env config tasks s)
    unfolding after_starts
    after_starts-IsSound =
        if_ind IsSound (s.live == 0) (λ _. end_run-IsSound)
          (λ _. record { before = s.rec; core = i.core; within = tt; linked = refl })

    turn_starting-IsSound :
        (t : TaskNode) (ts : List TaskNode)
        → ((u : TaskNode) → In u (t ∷ ts) → In u tasks)
        → IsSound (turn_starting env config tasks s t ts)
    unfolding turn_starting spawn
    turn_starting-IsSound t ts sub =
        let rest : (u : TaskNode) → In u ts → In u tasks = λ u m. sub u (there m) in
        if_ind IsSound (is_ready (state_of s.rec t.id))
          (λ is_r.
            if_ind IsSound (s.caller_cancelled || s.run_cancelled || s.deadline_passed)
              (λ _. record { before = s.rec; core = i.core; within = tt; linked = refl })
              (λ _.
                if_ind IsSound (unfinished s.running == config.max_parallel)
                  (λ _. after_starts-IsSound)
                  (λ room. record {
                    before = transition env s.rec t.id TaskState.running none;
                    core =
                        Core-spawn env config tasks origin s.rec s.running s.live s.peak i.core t
                          (sub t (here refl)) is_r room;
                    within = rest;
                    linked = refl;
                  })))
          (λ _. record { before = s.rec; core = i.core; within = rest; linked = refl })

    turn_waiting-IsSound :
        (pick : String) → IsSound s → IsSound (turn_waiting env config tasks s pick)
    unfolding turn_waiting
    turn_waiting-IsSound pick back =
        if_ind IsSound (s.caller_cancelled && not s.cancel_seen)
          (λ _. record { before = s.rec; core = i.core; within = tt; linked = refl })
          (λ _.
            if_ind IsSound (s.deadline_passed && not s.budget_exhausted)
              (λ _. record { before = s.rec; core = i.core; within = tt; linked = refl })
              (λ _. joins (take_ended pick s.running) refl))
      where
        nothing :
            (rs : List (String × Option Joined))
            → IsSound (elim rs [ [] ↦ end_run env config tasks s | _ ↦ s ])
        nothing [] = end_run-IsSound
        nothing (r ∷ rs) = back

        joined :
            (j : Joined) (rest : List (String × Option Joined)) (n : Option TaskNode)
            → take_ended pick s.running ≡ some (j, rest)
            → node_of tasks pick ≡ n
            → IsSound (elim n [
              | none ↦ s
              | some t ↦ record s {
                rec = join env s.rec t j;
                running = rest;
                live = s.live - 1;
                phase = top;
              }
            ])
        joined j rest none took at = back
        joined j rest (some t) took at = record {
          before = join env s.rec t j;
          core =
              Core-join env config tasks origin s.rec s.running s.live s.peak i.core t j pick rest
                took at;
          within = tt;
          linked = refl;
        }

        joins :
            (o : Option (Joined × List (String × Option Joined)))
            → take_ended pick s.running ≡ o
            → IsSound (elim o [
              | none ↦ elim s.running [ [] ↦ end_run env config tasks s | _ ↦ s ]
              | some (j, rest) ↦ elim (node_of tasks pick) [
                | none ↦ s
                | some t ↦ record s {
                  rec = join env s.rec t j;
                  running = rest;
                  live = s.live - 1;
                  phase = top;
                }
              ]
            ])
        joins none took = nothing s.running
        joins (some (j, rest)) took = joined j rest (node_of tasks pick) took refl

  turn_top-IsSound : (s : Exec) → IsGoing s → IsSound (turn_top env config tasks s)
  unfolding turn_top
  turn_top-IsSound s i =
      let o = observe-IsGoing s i in
      if_ind IsSound (observe env config tasks s).cancel_seen
        (λ _. after_starts-IsSound (observe env config tasks s) o)
        (λ _. record {
          before = propagate env (length tasks + 1) (observe env config tasks s).rec tasks;
          core =
              Core-propagate env config tasks origin _ s.running s.live s.peak o.core
                (length tasks + 1);
          within = λ t m. m;
          linked = refl;
        })

  coordinate-IsSound :
      (p : Phase) (s : Exec) (pick : String) (i : IsSound s)
      → PhaseIn p
      → Linked env p i.before s.rec
      → IsSound (coordinate env config tasks p s pick)
  unfolding coordinate
  coordinate-IsSound top s pick i w l = turn_top-IsSound s (opened s i l)
  coordinate-IsSound (starting []) s pick i w l = after_starts-IsSound s (opened s i l)
  coordinate-IsSound (starting (t ∷ ts)) s pick i w l =
      turn_starting-IsSound s (opened s i l) t ts w
  coordinate-IsSound waiting s pick i w l = turn_waiting-IsSound s (opened s i l) pick i
  coordinate-IsSound (ended r) s pick i w l = i

  pub step-IsSound : (s : Exec) (i : Input) → IsSound s → IsSound (step env config tasks s i)
  unfolding step
  step-IsSound s caller_cancel i = record {
    before = i.before;
    core = i.core;
    within = i.within;
    linked = i.linked;
  }
  step-IsSound s deadline i = elapses config.total_budget
    where
      elapses :
          (o : Option ℕ)
          → IsSound (elim o [ some _ ↦ record s { deadline_passed = true } | none ↦ s ])
      elapses none = i
      elapses (some d) = record {
        before = i.before;
        core = i.core;
        within = i.within;
        linked = i.linked;
      }
  step-IsSound s (body_done id j) i =
      if_ind IsSound (may_end env config tasks s j)
        (λ _. record {
          before = i.before;
          core = Core-end_body env config tasks origin i.before s.running s.live s.peak i.core id j;
          within = i.within;
          linked = i.linked;
        })
        (λ _. i)
  step-IsSound s (turn pick) i = coordinate-IsSound s.phase s pick i i.within i.linked

  pub run-IsSound : (s : Exec) (is : List Input) → IsSound s → IsSound (run env config tasks s is)
  unfolding run
  run-IsSound s [] i = i
  run-IsSound s (x ∷ is) i = run-IsSound (step env config tasks s x) is (step-IsSound s x i)
