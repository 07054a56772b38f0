-- ===== src/Workflow/Executor/Stable.antt =====
-- That the `loop` of `propagate` in src/orchestration/workflow.rs ends within its rounds, and where.
use aegis_runtime.Failure.{FailureClass, EffectCertainty}
use aegis_runtime.Workflow.Types.{TaskState, TaskNode}
use aegis_runtime.Workflow.Ledger.{Env, Recorder, state_of, transition, note_failure, failure}
use aegis_runtime.Workflow.Executor.{
  is_pending, is_bad, is_completed, propagate_one, propagate_pass, propagate,
}
use aegis_runtime.Workflow.Moves.Running.{transition-state}
use aegis_runtime.Prelude.{
  ℕ, zero, suc, ◌+◌, ◌≤◌, ◌<◌, String, ◌≡◌, refl, sym, ap, ◌∙◌, ◌⊎◌, inl, inr, List, [], ◌∷◌, none,
  some, Bool, true, false, ◌&&◌, ◌||◌, str_eq, eq_iff, length, find, any, all, All, indicator,
  arith, Bool-cases, Option-cases, if◌then◌else◌, text_append, In, here, there,
}

-- A task that `propagate` has nothing to do for: if it is pending, no predecessor ended without
-- success, and not all of them have completed.
abbrev pub IsIdle : Recorder → TaskNode → Type 0
IsIdle r t =
    (is_pending (state_of r t.id)
      && (any (λ d. is_bad (state_of r d)) t.deps || all (λ d. is_completed (state_of r d)) t.deps))
    ≡ false

abbrev pending_count : Recorder → List TaskNode → ℕ
pending_count r [] = 0
pending_count r (t ∷ ts) = indicator (is_pending (state_of r t.id)) + pending_count r ts

-- The recorder after a task that was pending has another state.
record Leaves (r v : Recorder) (id : String) : Type 0 where
  pub was : is_pending (state_of r id) ≡ true
  pub now :
      (j : String)
      → is_pending (state_of v j) ≡ (if str_eq id j then false else is_pending (state_of r j))

any-find : (p : String → Bool) (ds : List String) → find p ds ≡ none → any p ds ≡ false
any-find p [] h = refl
any-find p (d ∷ ds) h = ground (arith, any-find p ds)

module _ (env : Env) where
  to-Leaves :
      (r v : Recorder) (id : String) (to : TaskState)
      → is_pending (state_of r id) ≡ true
      → is_pending (some to) ≡ false
      → ((j : String) → state_of v j ≡ (if str_eq id j then some to else state_of r j))
      → Leaves r v id
  to-Leaves r v id to was done moved = record {
    was = was;
    now = λ j. elim (Bool-cases (str_eq id j)) [
      | inl same ↦ ground (arith, moved j, same, done)
      | inr other ↦ ground (arith, moved j, other)
    ];
  }

  -- One task: either nothing happens and it is idle, or it leaves the pending state.
  propagate_one-cases :
      (r : Recorder) (t : TaskNode)
      → ((propagate_one env r t ≡ (r, false)) × IsIdle r t)
        ⊎ ((v : Recorder) × (propagate_one env r t ≡ (v, true)) × Leaves r v t.id)
  unfolding propagate_one note_failure
  propagate_one-cases r t = elim (Bool-cases (is_pending (state_of r t.id))) [
    | inr busy ↦ inl (rw (busy) refl, ground (arith, busy))
    | inl waits ↦ elim (Option-cases (find (λ d. is_bad (state_of r d)) t.deps)) [
      | inr (bad, found) ↦
          let f =
            failure env r t.id FailureClass.rejected EffectCertainty.no_effect
              (text_append "prerequisite failed: " bad) in
          let noted = note_failure env r t.id f in
          let v = transition env noted t.id (TaskState.skipped bad) none in
          inr (
            v,
            rw (waits, found) refl,
            to-Leaves r v t.id (TaskState.skipped bad) waits refl
                (λ j. transition-state env noted t.id (TaskState.skipped bad) none j),
          )
      | inl fine ↦ elim (Bool-cases (all (λ d. is_completed (state_of r d)) t.deps)) [
        | inl complete ↦
            let v = transition env r t.id TaskState.ready none in
            inr (
              v,
              rw (waits, fine, complete) refl,
              to-Leaves r v t.id TaskState.ready waits refl
                  (λ j. transition-state env r t.id TaskState.ready none j),
            )
        | inr open_deps ↦ inl (
          rw (waits, fine, open_deps) refl,
          ground (arith, any-find (λ d. is_bad (state_of r d)) t.deps fine, open_deps),
        )
      ]
    ]
  ]

  module _ {r v : Recorder} {id : String} (l : Leaves r v id) where
    Leaves-le : (ts : List TaskNode) → pending_count v ts ≤ pending_count r ts
    Leaves-le [] = omega arith
    Leaves-le (u ∷ ts) = ground (arith, l.now u.id, Leaves-le ts)

    Leaves-lt :
        (ts : List TaskNode) (t : TaskNode)
        → In t ts
        → t.id ≡ id
        → pending_count v ts < pending_count r ts
    Leaves-lt [] t m at = elim m [ ]
    Leaves-lt (u ∷ ts) t (here e) at =
        let same : u.id ≡ id = ap (λ x. x.id) (sym e) ∙ at in
        let was : is_pending (state_of r u.id) ≡ true = rw same l.was in
        ground (arith, l.now u.id, was, eq_iff id u.id, same, Leaves-le ts)
    Leaves-lt (u ∷ ts) t (there m) at = ground (arith, l.now u.id, Leaves-lt ts t m at)

  -- One round: either nothing happens and every task is idle, or fewer tasks are pending.
  pass-cases :
      (all_tasks : List TaskNode) (r : Recorder) (ts : List TaskNode)
      → ((t : TaskNode) → In t ts → In t all_tasks)
      → ((propagate_pass env r ts ≡ (r, false)) × All (IsIdle r) ts)
        ⊎ ((v : Recorder) × (propagate_pass env r ts ≡ (v, true))
            × (pending_count v all_tasks < pending_count r all_tasks))
  unfolding propagate_pass
  pass-cases all_tasks r [] sub = inl (refl, tt)
  pass-cases all_tasks r (t ∷ ts) sub = elim (propagate_one-cases r t) [
    | inl (stays, idle) ↦ elim (pass-cases all_tasks r ts (λ u m. sub u (there m))) [
      | inl (quiet, rest) ↦ inl (rw (stays, quiet) refl, (idle, rest))
      | inr (v, moves, less) ↦ inr (v, rw (stays, moves) refl, less)
    ]
    | inr (w, first, l) ↦
        let fewer = Leaves-lt l all_tasks t (sub t (here refl)) refl in
        elim (pass-cases all_tasks w ts (λ u m. sub u (there m))) [
          | inl (quiet, rest) ↦ inr (w, rw (first, quiet) refl, fewer)
          | inr (v, moves, less) ↦ inr (v, rw (first, moves) refl, omega (arith, less, fewer))
        ]
  ]

  count-length : (r : Recorder) (ts : List TaskNode) → pending_count r ts ≤ length ts
  count-length r [] = omega arith
  count-length r (t ∷ ts) = ground (arith, count-length r ts)

  stable_from :
      (fuel : ℕ) (r : Recorder) (ts : List TaskNode)
      → pending_count r ts < fuel
      → let v = propagate env fuel r ts in
        (propagate_pass env v ts ≡ (v, false)) × All (IsIdle v) ts
  unfolding propagate
  stable_from zero r ts room = absurd (omega (arith, room))
  stable_from (suc fuel) r ts room = elim (pass-cases ts r ts (λ t m. m)) [
    | inl (quiet, idle) ↦ rw (quiet) ((quiet, idle))
    | inr (v, moves, less) ↦ rw (moves) (stable_from fuel v ts (omega (arith, less, room)))
  ]

  -- The rounds that `propagate` is given are enough: after them one more round would change nothing, and
  -- no task is left pending that has a predecessor which ended without success, or whose
  -- predecessors have all completed.
  pub propagate-All :
      (r : Recorder) (ts : List TaskNode)
      → let v = propagate env (length ts + 1) r ts in
        (propagate_pass env v ts ≡ (v, false)) × All (IsIdle v) ts
  propagate-All r ts = stable_from (length ts + 1) r ts (omega (arith, count-length r ts))
