-- ===== src/Workflow/Builder/Add.antt =====
-- `add_task` of src/orchestration/workflow.rs: which tasks it takes, and what it keeps.
use mathlib.Core.List.{map-append}
use aegis_runtime.Workflow.Types.{TaskNode, task_ids}
use aegis_runtime.Workflow.Builder.{check_deps, add_task}
use aegis_runtime.Prelude.{
  Distinct, Distinct-snoc, String, ◌≡◌, ◌↔◌, refl, List, [], ◌∷◌, ◌++◌, false, str_eq, eq_iff, any,
  contains, is_empty, All, All-append, arith, ok, Result-cases, inl, inr,
}

-- A builder's tasks: distinct ids, and each task has a name and distinct predecessors, not itself.
abbrev pub IsNode : TaskNode → Type 0
IsNode t = (is_empty t.id ≡ false) × Distinct t.deps × (contains t.deps t.id ≡ false)

pub record IsWellFormed (tasks : List TaskNode) : Type 0 where
  pub distinct : Distinct (task_ids tasks)
  pub nodes : All IsNode tasks

check_deps-ok :
    (id : String) (seen ds out : List String)
    → check_deps id seen ds ≡ ok out
    → (out ≡ ds) × Distinct ds × (contains ds id ≡ false) × All (λ d. contains seen d ≡ false) ds
unfolding check_deps
check_deps-ok id seen [] out e = (ground arith, tt, refl, tt)
check_deps-ok id seen (d ∷ ds) out e = elim (Result-cases (check_deps id (d ∷ seen) ds)) [
  | inr (x, failed) ↦ absurd (ground (arith, failed))
  | inl (rest, done) ↦
      let (same, dist, other, unseen) = check_deps-ok id (d ∷ seen) ds rest done in
      (
        ground (arith, done, same),
        (fresh-head d seen ds unseen, dist),
        ground (arith, done, other, eq_iff d id),
        (ground (arith, done), unseen-tail d seen ds unseen),
      )
]
  where
    fresh-head :
        (d : String) (seen ds : List String)
        → All (λ x. contains (d ∷ seen) x ≡ false) ds
        → contains ds d ≡ false
    fresh-head d seen [] h = refl
    fresh-head d seen (x ∷ xs) h =
        ground (arith, h.0, eq_iff d x, eq_iff x d, fresh-head d seen xs h.1)

    unseen-tail :
        (d : String) (seen ds : List String)
        → All (λ x. contains (d ∷ seen) x ≡ false) ds
        → All (λ x. contains seen x ≡ false) ds
    unseen-tail d seen [] h = tt
    unseen-tail d seen (x ∷ xs) h = (ground (arith, h.0), unseen-tail d seen xs h.1)

unseen-cons :
    (d : String) (seen ds : List String)
    → contains ds d ≡ false
    → All (λ x. contains seen x ≡ false) ds
    → All (λ x. contains (d ∷ seen) x ≡ false) ds
unseen-cons d seen [] fresh h = tt
unseen-cons d seen (x ∷ xs) fresh h =
    (ground (arith, h.0, eq_iff d x, eq_iff x d), unseen-cons d seen xs (ground arith) h.1)

check_deps-accepts :
    (id : String) (seen ds : List String)
    → Distinct ds
    → contains ds id ≡ false
    → All (λ d. contains seen d ≡ false) ds
    → check_deps id seen ds ≡ ok ds
unfolding check_deps
check_deps-accepts id seen [] dist other unseen = refl
check_deps-accepts id seen (d ∷ ds) (fresh, dist) other (new, unseen) =
    let ih =
      check_deps-accepts id (d ∷ seen) ds dist (ground arith)
        (unseen-cons d seen ds fresh unseen) in
    ground (arith, ih, new)

unseen-nil : (ds : List String) → All (λ d. contains [] d ≡ false) ds
unseen-nil [] = tt
unseen-nil (d ∷ ds) = (refl, unseen-nil ds)

any-contains :
    (id : String) (ts : List TaskNode) → any (λ t. str_eq t.id id) ts ≡ contains (task_ids ts) id
any-contains id [] = refl
any-contains id (t ∷ ts) = ground (arith, any-contains id ts)

-- What `add_task` asks of a new task.
pub record Accepts (tasks : List TaskNode) (node : TaskNode) : Type 0 where
  pub is_node : IsNode node
  pub unused : contains (task_ids tasks) node.id ≡ false

-- `add_task` succeeds exactly for a task with a name that no other task has and with predecessors
-- that are distinct and not the task itself. It then appends the task, with the predecessors as
-- they were given, and changes no other task.
pub add_task_iff :
    (tasks : List TaskNode) (node : TaskNode) (result : List TaskNode)
    → (add_task tasks node.id node.deps node.runner ≡ ok result)
      ↔ (Accepts tasks node × (result ≡ tasks ++ node ∷ []))
unfolding add_task
add_task_iff tasks node result = (taken, takes)
  where
    taken :
        add_task tasks node.id node.deps node.runner ≡ ok result
        → Accepts tasks node × (result ≡ tasks ++ node ∷ [])
    taken e = elim (Result-cases (check_deps node.id [] node.deps)) [
      | inr (x, failed) ↦ absurd (ground (arith, failed))
      | inl (out, done) ↦
          let (same, dist, other, _) = check_deps-ok node.id [] node.deps out done in
          (
            record {
              is_node = (ground (arith, done), dist, other);
              unused = ground (arith, done, any-contains node.id tasks);
            },
            ground (arith, done, same),
          )
    ]

    takes :
        Accepts tasks node × (result ≡ tasks ++ node ∷ [])
        → add_task tasks node.id node.deps node.runner ≡ ok result
    takes (a, e) =
        let (named, dist, other) = a.is_node in
        let done = check_deps-accepts node.id [] node.deps dist other (unseen-nil node.deps) in
        ground (arith, done, named, a.unused, any-contains node.id tasks, e)

-- A builder keeps its tasks well formed.
add_task-IsWellFormed :
    (tasks : List TaskNode) (node : TaskNode) (result : List TaskNode)
    → IsWellFormed tasks
    → add_task tasks node.id node.deps node.runner ≡ ok result
    → IsWellFormed result
add_task-IsWellFormed tasks node result wf e =
    let (a, same) = (add_task_iff tasks node result).0 e in
    rw same (record {
      distinct = rw map-append (Distinct-snoc (task_ids tasks) node.id wf.distinct a.unused);
      nodes = All-append IsNode tasks (node ∷ []) wf.nodes (a.is_node, tt);
    })
