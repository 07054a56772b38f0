-- ===== src/Workflow/Builder/Build.antt =====
-- `build` of src/orchestration/workflow.rs: it always answers, and each answer says what is the case.
use native.Mathlib.Decide.{ℕ_discrete}
use aegis_runtime.Workflow.Types.{TaskNode, task_ids, WorkflowError, unknown_predecessor, cycle}
use aegis_runtime.Workflow.Builder.{
  index_from, unknown_in, check_known, run_peel, find_cycle, build,
}
use aegis_runtime.Workflow.Builder.Invariant.{DistinctDeps, Inv, left}
use aegis_runtime.Workflow.Builder.Add.{IsNode, IsWellFormed}
use aegis_runtime.Workflow.Builder.Order.{IsRank, IsAcyclic, rank, IsOrdered-IsRank}
use aegis_runtime.Workflow.Builder.Kahn.{run_peel-Peeled}
use aegis_runtime.Workflow.Builder.Left.{check_known-Known}
use aegis_runtime.Workflow.Builder.Cycle.{DependsOn, Chain, IsCycle, find_cycle-IsCycle}
use aegis_runtime.Prelude.{
  ℕ, suc, ◌<◌, String, ◌≡◌, ◌⊎◌, ◌≢◌, refl, List, [], ◌∷◌, true, false, str_eq, length, contains,
  All, All-In, In, here, there, arith, Result, ok, err, Option, none, some, Bool-cases, inl, inr,
}

-- No rank falls along a cycle.
DependsOn-lt :
    (tasks : List TaskNode) (rank : String → ℕ) (a b : String)
    → IsRank rank tasks
    → DependsOn tasks a b
    → rank b < rank a
DependsOn-lt tasks rank a b ranked d =
    let deps = All-In (λ t. All (λ x. rank x < rank t.id) t.deps) ranked d.known in
    rw d.named at (All-In (λ x. rank x < rank d.task.id) deps d.dep)

Chain-lt :
    (tasks : List TaskNode) (rank : String → ℕ) (a : String) (bs : List String) (z : String)
    → IsRank rank tasks
    → Chain tasks a bs z
    → rank a < rank z
Chain-lt tasks rank a [] z ranked c = DependsOn-lt tasks rank z a ranked c
Chain-lt tasks rank a (b ∷ bs) z ranked (d, c) =
    omega (arith, DependsOn-lt tasks rank b a ranked d, Chain-lt tasks rank b bs z ranked c)

IsCycle-not-IsAcyclic :
    (tasks : List TaskNode) (c : List String) → IsCycle tasks c → ¬ IsAcyclic tasks
IsCycle-not-IsAcyclic tasks [] closed acyclic = closed
IsCycle-not-IsAcyclic tasks (a ∷ bs) closed (rank, ranked) =
    absurd (omega (arith, Chain-lt tasks rank a bs a ranked closed))

-- All predecessors are ids of tasks.
abbrev pub IsClosed : List TaskNode → Type 0
IsClosed tasks = All (λ t. All (λ d. contains (task_ids tasks) d ≡ true) t.deps) tasks

index_from-contains :
    (k : ℕ) (ts : List TaskNode) (d : String)
    → (index_from k ts d ≡ none) × (contains (task_ids ts) d ≡ false)
      ⊎ ((i : ℕ) × (index_from k ts d ≡ some i) × (contains (task_ids ts) d ≡ true))
unfolding index_from
index_from-contains k [] d = inl (refl, refl)
index_from-contains k (t ∷ ts) d = elim (index_from-contains (suc k) ts d) [
  | inr (i, found, has) ↦ inr (i, ground (arith, found), ground (arith, has))
  | inl (missing, lacks) ↦ elim (Bool-cases (str_eq t.id d)) [
    | inl hit ↦ inr (k, ground (arith, missing, hit), ground (arith, hit))
    | inr miss ↦ inl (ground (arith, missing, miss), ground (arith, lacks, miss))
  ]
]

-- A task lists a predecessor that is no id of a task.
pub record IsUnknown (tasks ts : List TaskNode) (e : WorkflowError) : Type 0 where
  pub task : TaskNode
  pub predecessor : String
  pub listed : In task ts
  pub dep : In predecessor task.deps
  pub lacks : contains (task_ids tasks) predecessor ≡ false
  pub reports : e ≡ unknown_predecessor task.id predecessor

unknown_in-cases :
    (tasks : List TaskNode) (ds : List String)
    → (unknown_in tasks ds ≡ none) × All (λ d. contains (task_ids tasks) d ≡ true) ds
      ⊎ ((d : String) × (unknown_in tasks ds ≡ some d)
          × In d ds
          × (contains (task_ids tasks) d ≡ false))
unfolding unknown_in
unknown_in-cases tasks [] = inl (refl, tt)
unknown_in-cases tasks (d ∷ ds) = elim (index_from-contains 0 tasks d) [
  | inl (missing, lacks) ↦ inr (d, ground (arith, missing), here refl, lacks)
  | inr (i, found, has) ↦ elim (unknown_in-cases tasks ds) [
    | inl (e, all_known) ↦ inl (ground (arith, found, e), (has, all_known))
    | inr (x, e, m, lacks) ↦ inr (x, ground (arith, found, e), there m, lacks)
  ]
]

check_known-cases :
    (tasks ts : List TaskNode)
    → (check_known tasks ts ≡ none)
        × All (λ t. All (λ d. contains (task_ids tasks) d ≡ true) t.deps) ts
      ⊎ ((e : WorkflowError) × (check_known tasks ts ≡ some e) × IsUnknown tasks ts e)
unfolding check_known
check_known-cases tasks [] = inl (refl, tt)
check_known-cases tasks (t ∷ ts) = elim (unknown_in-cases tasks t.deps) [
  | inr (d, found, m, lacks) ↦ inr (
    unknown_predecessor t.id d,
    ground (arith, found),
    record {
      task = t;
      predecessor = d;
      listed = here refl;
      dep = m;
      lacks = lacks;
      reports = refl;
    },
  )
  | inl (clear, closed) ↦ elim (check_known-cases tasks ts) [
    | inl (e, rest) ↦ inl (ground (arith, clear, e), (closed, rest))
    | inr (x, e, u) ↦ inr (
      x,
      ground (arith, clear, e),
      record {
        task = u.task;
        predecessor = u.predecessor;
        listed = there u.listed;
        dep = u.dep;
        lacks = u.lacks;
        reports = u.reports;
      },
    )
  ]
]

All-peeled :
    (done : List String) (k : ℕ) (ts : List TaskNode) (ds : List ℕ)
    → Inv done [] k ts ds
    → left ds ≡ 0
    → All (λ t. contains done t.id ≡ true) ts
All-peeled done k [] ds inv e = tt
All-peeled done k (t ∷ ts) [] inv e = absurd inv
All-peeled done k (t ∷ ts) (d ∷ ds) (e1, e2, rest) e =
    (ground arith, All-peeled done (suc k) ts ds rest (ground arith))

All-deps : (ts : List TaskNode) → All IsNode ts → DistinctDeps ts
All-deps [] h = tt
All-deps (t ∷ ts) ((_, dist, _), h) = (dist, All-deps ts h)

-- What each answer of `build` means.
pub data Builds (tasks : List TaskNode)
    : Option (Result WorkflowError (List TaskNode)) → Type 0 where
  accepts : IsClosed tasks → IsAcyclic tasks → Builds tasks (some (ok tasks))
  cyclic :
      {c : List String}
      → IsClosed tasks
      → IsCycle tasks c
      → ¬ IsAcyclic tasks
      → Builds tasks (some (err (cycle c)))
  unknown : {e : WorkflowError} → IsUnknown tasks tasks e → Builds tasks (some (err e))

module _ (tasks : List TaskNode) where
  build-unknown :
      (e : WorkflowError) → check_known tasks tasks ≡ some e → build tasks ≡ some (err e)
  unfolding build
  build-unknown e found = ground arith

  module _ (peeled : ℕ) (ds : List ℕ) (clear : check_known tasks tasks ≡ none)
      (peels : run_peel tasks ≡ some (peeled, ds)) where
    build-ok : peeled ≡ length tasks → build tasks ≡ some (ok tasks)
    unfolding build
    build-ok full = ground (arith, clear, peels, full)

    build-cycle :
        (c : List String)
        → peeled ≢ length tasks
        → find_cycle tasks ds ≡ some c
        → build tasks ≡ some (err (cycle c))
    unfolding build
    build-cycle c short finds = ground (arith, clear, peels, short, finds)

-- On the tasks of a builder `build` always returns: the index operations stay in range and the loops
-- end. It returns the tasks unchanged if every predecessor is a task and the tasks have a rank that
-- falls from each task to its predecessors; a real cycle in dependency order if every predecessor
-- is a task and there is no such rank; and else a task with a predecessor that is no task.
pub build-Builds : (tasks : List TaskNode) → IsWellFormed tasks → Builds tasks (build tasks)
build-Builds tasks wf = elim (check_known-cases tasks tasks) [
  | inr (e, found, u) ↦ rw (build-unknown tasks e found) (unknown u)
  | inl (clear, closed) ↦
      let p = run_peel-Peeled tasks wf.distinct (All-deps tasks wf.nodes) in
      elim (ℕ_discrete p.peeled (length tasks)) [
        | yes full ↦
            let peeled_all =
              All-peeled p.done 0 tasks p.indegree p.inv (omega (arith, p.counted)) in
            rw (build-ok tasks p.peeled p.indegree clear p.returns full)
              (accepts closed (rank p.done, IsOrdered-IsRank tasks p.done p.ordered peeled_all))
        | no short ↦
            let (c, finds, loops) =
              find_cycle-IsCycle tasks p.indegree p.done p.inv (check_known-Known tasks tasks clear)
                (omega (arith, p.counted)) in
            rw (build-cycle tasks p.peeled p.indegree clear p.returns c short finds)
              (cyclic closed loops (IsCycle-not-IsAcyclic tasks c loops))
      ]
]
