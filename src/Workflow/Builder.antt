-- ===== src/Workflow/Builder.antt =====
-- `WorkflowBuilder` of src/orchestration/workflow.rs: `add_task`, and `build` with Kahn's algorithm
-- and the search for one cycle. A `Vec` used as a stack is a list with its top at the head. `none`
-- stands for fuel that ran out and for an index out of range; `Kahn` proves that neither happens.
pub mod Invariant
pub mod Order
pub mod Left
pub mod Cycle
pub mod Add
pub mod Build
pub mod Kahn
pub mod Unseen
use aegis_runtime.Workflow.Types.{
  WorkflowError, empty_task_id, duplicate_task, unknown_predecessor, duplicate_edge,
  self_dependency, cycle, TaskNode, TaskRunner, WorkflowSpec,
}
use mathlib.Core.List.{reverse}
use aegis_runtime.Prelude.{
  ℕ, zero, suc, ◌+◌, ◌-◌, ◌^◌, String, List, [], ◌∷◌, ◌++◌, map, Option, none, some, Bool, true,
  false, ◌&&◌, str_eq, ltb, ◌==◌, is_empty, length, get_elem?, any, contains, drop, if◌then◌else◌,
  Result, ok, err, ◌>>=◌,
}

-- The loop over the `deps` of a new task, with the set of those seen.
pub check_deps : String → List String → List String → Result WorkflowError (List String)
check_deps id seen [] = ok []
check_deps id seen (d ∷ ds) =
    let rest = check_deps id (d ∷ seen) ds in
    if str_eq d id
    then err (self_dependency id)
    else if contains seen d
    then err (duplicate_edge id d)
    else (do deps_out ← rest; ok (d ∷ deps_out))

unfoldable pub add_task :
    List TaskNode → String → List String → TaskRunner → Result WorkflowError (List TaskNode)
unfolding check_deps
add_task tasks id deps runner =
    if is_empty id
    then err empty_task_id
    else if any (λ t. str_eq t.id id) tasks
    then err (duplicate_task id)
    else do
      deps_out ← check_deps id [] deps
      ok (tasks ++ record { id = id; deps = deps_out; runner = runner } ∷ [])

-- `index`, the map from ids to positions that `collect` makes: a later entry replaces an earlier.
pub index_from : ℕ → List TaskNode → String → Option ℕ
index_from k [] d = none
index_from k (t ∷ ts) d = elim (index_from (suc k) ts d) [
  | some i ↦ some i
  | none ↦ if str_eq t.id d then some k else none
]

-- The first predecessor in a list that the index lacks, and the nested loops that look for one.
pub unknown_in : List TaskNode → List String → Option String
unfolding index_from
unknown_in tasks [] = none
unknown_in tasks (d ∷ ds) = elim (index_from 0 tasks d) [
  | some _ ↦ unknown_in tasks ds
  | none ↦ some d
]

pub check_known : List TaskNode → List TaskNode → Option WorkflowError
unfolding unknown_in
check_known tasks [] = none
check_known tasks (t ∷ ts) = elim (unknown_in tasks t.deps) [
  | some d ↦ some (unknown_predecessor t.id d)
  | none ↦ check_known tasks ts
]

-- `indegree[i] -= 1` on a `usize`, with its wrap at 0.
pub wrapping_dec : ℕ → ℕ
wrapping_dec zero = 2 ^ 64 - 1
wrapping_dec (suc n) = n

-- `(0..n).filter(|i| indegree[*i] == 0)`, collected in order.
pub push_zeros : ℕ → List ℕ → List ℕ → List ℕ
push_zeros k [] queue = queue
push_zeros k (d ∷ ds) queue = push_zeros (suc k) ds (if d == 0 then k ∷ queue else queue)

-- The `for` loop of one round: every dependent of `id` loses one, and is pushed when none is left.
pub relax : String → ℕ → List TaskNode → List ℕ → List ℕ → List ℕ × List ℕ
relax id k [] ds queue = (ds, queue)
relax id k (t ∷ ts) [] queue = ([], queue)
relax id k (t ∷ ts) (d ∷ ds) queue =
    let hit = contains t.deps id in
    let d' = if hit then wrapping_dec d else d in
    let queue' = if hit && d' == 0 then k ∷ queue else queue in
    let (ds', queue'') = relax id (suc k) ts ds queue' in (d' ∷ ds', queue'')

-- The `while` loop: how many were peeled, and the indegrees that are left.
pub peel : ℕ → List TaskNode → List ℕ → List ℕ → ℕ → Option (ℕ × List ℕ)
peel zero tasks indegree queue peeled = none
peel (suc fuel) tasks indegree [] peeled = some (peeled, indegree)
peel (suc fuel) tasks indegree (n ∷ queue) peeled = elim (get_elem? tasks n) [
  | none ↦ none
  | some t ↦
      let (indegree', queue') = relax t.id 0 tasks indegree queue in
      peel fuel tasks indegree' queue' (peeled + 1)
]

-- `indegree[i] > 0`
pub is_left : List ℕ → ℕ → Bool
is_left indegree i = elim (get_elem? indegree i) [ some d ↦ ltb 0 d | none ↦ false ]

-- `(0..n).find(|i| indegree[*i] > 0)`
pub first_left : ℕ → List ℕ → Option ℕ
first_left k [] = none
first_left k (d ∷ ds) = let rest = first_left (suc k) ds in if ltb 0 d then some k else rest

-- The first predecessor that is left, by its position.
pub dep_left : List TaskNode → List ℕ → List String → Option ℕ
unfolding index_from is_left
dep_left tasks indegree [] = none
dep_left tasks indegree (d ∷ ds) =
    let rest = dep_left tasks indegree ds in
    elim (index_from 0 tasks d) [
      | some i ↦ if is_left indegree i then some i else rest
      | none ↦ rest
    ]

-- `path.iter().position(|p| *p == next)`
pub position : List ℕ → ℕ → Option ℕ
position [] n = none
position (p ∷ ps) n = elim (p == n) [
  | true ↦ some 0
  | false ↦ elim (position ps n) [ some i ↦ some (suc i) | none ↦ none ]
]

pub ids_at : List TaskNode → List ℕ → List String
ids_at tasks [] = []
ids_at tasks (i ∷ is) =
    let rest = ids_at tasks is in elim (get_elem? tasks i) [ some t ↦ t.id ∷ rest | none ↦ rest ]

-- The `loop` of `find_cycle`.
pub walk : ℕ → List TaskNode → List ℕ → ℕ → List ℕ → ℕ → Option (List String)
walk zero tasks indegree start path cur = none
walk (suc fuel) tasks indegree start path cur = elim (get_elem? tasks cur) [
  | none ↦ none
  | some t ↦
      let next : ℕ = elim (dep_left tasks indegree t.deps) [ some i ↦ i | none ↦ start ] in
      elim (position path next) [
        | some pos ↦ some (reverse (ids_at tasks (drop pos path)))
        | none ↦ walk fuel tasks indegree start (path ++ next ∷ []) next
      ]
]

pub find_cycle : List TaskNode → List ℕ → Option (List String)
unfolding walk dep_left position ids_at first_left
find_cycle tasks indegree =
    let start : ℕ = elim (first_left 0 indegree) [ some i ↦ i | none ↦ 0 ] in
    walk (length tasks + 1) tasks indegree start (start ∷ []) start

abbrev pub indegrees : List TaskNode → List ℕ
indegrees ts = map (λ t. length t.deps) ts

abbrev pub run_peel : List TaskNode → Option (ℕ × List ℕ)
run_peel tasks =
    peel (length tasks + 1) tasks (indegrees tasks) (push_zeros 0 (indegrees tasks) []) 0

unfoldable pub build : List TaskNode → Option (Result WorkflowError WorkflowSpec)
unfolding check_known peel push_zeros relax wrapping_dec find_cycle
build tasks = elim (check_known tasks tasks) [
  | some e ↦ some (err e)
  | none ↦ elim (run_peel tasks) [
    | none ↦ none
    | some (peeled, indegree) ↦
        if peeled == length tasks
        then some (ok tasks)
        else elim (find_cycle tasks indegree) [ some c ↦ some (err (cycle c)) | none ↦ none ]
  ]
]
