-- ===== src/Workflow/Builder/Left.antt =====
-- What Kahn's algorithm leaves in `build` (src/orchestration/workflow.rs): a task that is left has a
-- predecessor that is left, and `find_cycle` finds it.
use aegis_runtime.Workflow.Types.{TaskNode}
use aegis_runtime.Workflow.Builder.{
  index_from, unknown_in, check_known, is_left, dep_left, first_left,
}
use aegis_runtime.Workflow.Builder.Invariant.{Inv, missing, left}
use aegis_runtime.Prelude.{
  ℕ, zero, suc, ◌+◌, ◌<◌, String, ◌≡◌, refl, List, [], ◌∷◌, true, eq_iff, ltb, get_elem?, contains,
  All, In, here, there, not, arith, none, some, Option-cases, Bool-cases, inl, inr,
}

-- A text of a list that the index knows.
abbrev pub Known : List TaskNode → String → Type 0
Known tasks d = (i : ℕ) × (index_from 0 tasks d ≡ some i)

index_from-get :
    (k : ℕ) (ts : List TaskNode) (d : String) (i : ℕ)
    → index_from k ts d ≡ some i
    → (j : ℕ) × (t : TaskNode) × (i ≡ k + j) × (get_elem? ts j ≡ some t) × (t.id ≡ d)
unfolding index_from
index_from-get k [] d i e = absurd (ground arith)
index_from-get k (t ∷ ts) d i e = elim (Option-cases (index_from (suc k) ts d)) [
  | inl missing ↦ (0, t, ground (arith, missing), refl, ground (arith, missing, eq_iff t.id d))
  | inr (i', found) ↦
      let (j, u, at, got, name) = index_from-get (suc k) ts d i' found in
      (suc j, u, ground (arith, found, at), got, name)
]

unknown_in-Known :
    (tasks : List TaskNode) (ds : List String) → unknown_in tasks ds ≡ none → All (Known tasks) ds
unfolding unknown_in
unknown_in-Known tasks [] e = tt
unknown_in-Known tasks (d ∷ ds) e = elim (Option-cases (index_from 0 tasks d)) [
  | inl missing ↦ absurd (ground (arith, missing))
  | inr (i, found) ↦ ((i, found), unknown_in-Known tasks ds (ground (arith, found)))
]

pub check_known-Known :
    (tasks ts : List TaskNode)
    → check_known tasks ts ≡ none
    → All (λ t. All (Known tasks) t.deps) ts
unfolding check_known
check_known-Known tasks [] e = tt
check_known-Known tasks (t ∷ ts) e = elim (Option-cases (unknown_in tasks t.deps)) [
  | inr (d, found) ↦ absurd (ground (arith, found))
  | inl missing ↦
      (unknown_in-Known tasks t.deps missing, check_known-Known tasks ts (ground (arith, missing)))
]

-- The invariant at one position, when nothing is queued.
Inv-at :
    (done : List String) (k j : ℕ) (ts : List TaskNode) (ds : List ℕ) (t : TaskNode)
    → Inv done [] k ts ds
    → get_elem? ts j ≡ some t
    → (is_left ds j ≡ ltb 0 (missing done t.deps)) × (is_left ds j ≡ not (contains done t.id))
unfolding is_left
Inv-at done k j [] ds t inv e = absurd (ground arith)
Inv-at done k j (u ∷ ts) [] t inv e = absurd inv
Inv-at done k zero (u ∷ ts) (d ∷ ds) t (e1, e2, rest) e = ground arith
Inv-at done k (suc j) (u ∷ ts) (d ∷ ds) t (e1, e2, rest) e = Inv-at done (suc k) j ts ds t rest e

pub is_left-get :
    (done : List String) (k j : ℕ) (ts : List TaskNode) (ds : List ℕ)
    → Inv done [] k ts ds
    → is_left ds j ≡ true
    → (t : TaskNode) × (get_elem? ts j ≡ some t)
unfolding is_left
is_left-get done k j [] [] inv e = absurd (ground arith)
is_left-get done k j [] (d ∷ ds) inv e = absurd inv
is_left-get done k j (u ∷ ts) [] inv e = absurd inv
is_left-get done k zero (u ∷ ts) (d ∷ ds) inv e = (u, refl)
is_left-get done k (suc j) (u ∷ ts) (d ∷ ds) (e1, e2, rest) e =
    is_left-get done (suc k) j ts ds rest e

module _ (tasks : List TaskNode) (ds : List ℕ) (done : List String)
    (inv : Inv done [] 0 tasks ds) where
  -- What `dep_left` finds.
  pub record LeftDep (deps : List String) : Type 0 where
    pub at : ℕ
    pub task : TaskNode
    pub finds : dep_left tasks ds deps ≡ some at
    pub there_is : get_elem? tasks at ≡ some task
    pub dep : In task.id deps
    pub still_left : is_left ds at ≡ true

  dep_left-LeftDep :
      (deps : List String) → All (Known tasks) deps → 0 < missing done deps → LeftDep deps
  unfolding dep_left
  dep_left-LeftDep [] known pos = absurd (omega arith)
  dep_left-LeftDep (d ∷ deps) ((i, found), known) pos =
      let (j, u, at, got, name) = index_from-get 0 tasks d i found in
      let same : i ≡ j = omega (arith, at) in
      let got' : get_elem? tasks i ≡ some u = rw same got in
      let (_, status) = Inv-at done 0 i tasks ds u inv got' in
      elim (Bool-cases (is_left ds i)) [
        | inl yes_left ↦ record {
          at = i;
          task = u;
          finds = rw (found, yes_left, dep_left);
          there_is = got';
          dep = here name;
          still_left = yes_left;
        }
        | inr no_left ↦
            let peeled : contains done d ≡ true = ground (arith, status, no_left, name) in
            let r = dep_left-LeftDep deps known (ground (arith, peeled)) in
            record {
              at = r.at;
              task = r.task;
              finds = rw (found, no_left, dep_left) r.finds;
              there_is = r.there_is;
              dep = there r.dep;
              still_left = r.still_left;
            }
      ]

  -- A task that is left has a predecessor that is left.
  pub left-LeftDep :
      (i : ℕ) (t : TaskNode)
      → get_elem? tasks i ≡ some t
      → is_left ds i ≡ true
      → All (Known tasks) t.deps
      → LeftDep t.deps
  left-LeftDep i t got waits known =
      let (status, _) = Inv-at done 0 i tasks ds t inv got in
      dep_left-LeftDep t.deps known (ground (arith, status, waits))

pub first_left-is_left :
    (k : ℕ) (ds : List ℕ)
    → 0 < left ds
    → (j : ℕ) × (first_left k ds ≡ some (k + j)) × (is_left ds j ≡ true)
unfolding first_left is_left
first_left-is_left k [] pos = absurd (omega arith)
first_left-is_left k (d ∷ ds) pos = elim (Bool-cases (ltb 0 d)) [
  | inl yes_left ↦ (0, ground (arith, yes_left), yes_left)
  | inr no_left ↦
      let (j, found, waits) = first_left-is_left (suc k) ds (ground (arith, no_left)) in
      (suc j, ground (arith, no_left, found), waits)
]
