-- ===== src/Workflow/Builder/Order.antt =====
-- What it means for the tasks of a workflow to have no cycle (src/orchestration/workflow.rs): a rank
-- of the ids that falls from a task to its predecessors. The order of peeling gives such a rank.
use aegis_runtime.Workflow.Types.{TaskNode}
use aegis_runtime.Workflow.Builder.Invariant.{missing}
use aegis_runtime.Prelude.{
  ℕ, suc, ◌<◌, ◌≤◌, String, ◌≡◌, refl, List, [], ◌∷◌, true, false, str_eq, eq_iff, length, contains,
  All, All-In, All-of-In, In, here, there, Bool-cases, inl, inr, if◌then◌else◌, arith,
}

abbrev pub IsRank : (String → ℕ) → List TaskNode → Type 0
IsRank rank ts = All (λ t. All (λ d. rank d < rank t.id) t.deps) ts

abbrev pub IsAcyclic : List TaskNode → Type 0
IsAcyclic ts = (rank : String → ℕ) × IsRank rank ts

-- `done`, the last one first: no id twice, and each behind the predecessors of its task.
abbrev pub IsOrdered : List TaskNode → List String → Type 0
IsOrdered ts [] = Unit
IsOrdered ts (x ∷ done) =
    (contains done x ≡ false)
    × All (λ t. str_eq x t.id ≡ true → missing done t.deps ≡ 0) ts
    × IsOrdered ts done

pub rank : List String → String → ℕ
rank [] x = 0
rank (y ∷ ys) x = if str_eq y x then suc (length ys) else rank ys x

rank-le : (ys : List String) (x : String) → rank ys x ≤ length ys
unfolding rank
rank-le [] x = omega arith
rank-le (y ∷ ys) x = ground (arith, rank-le ys x)

missing-zero : (done ds : List String) → missing done ds ≡ 0 → All (λ d. contains done d ≡ true) ds
missing-zero done [] e = tt
missing-zero done (d ∷ ds) e = (ground arith, missing-zero done ds (ground arith))

-- A predecessor of a peeled task is peeled, and earlier.
rank-lt :
    (ts : List TaskNode) (done : List String) (t : TaskNode) (d : String)
    → ((x : String) (rest : List String)
        → All (λ u. str_eq x u.id ≡ true → missing rest u.deps ≡ 0) ts
        → str_eq x t.id ≡ true
        → contains rest d ≡ true)
    → IsOrdered ts done
    → contains done t.id ≡ true
    → (contains done d ≡ true) × (rank done d < rank done t.id)
unfolding rank
rank-lt ts [] t d dep ord has = absurd (ground arith)
rank-lt ts (y ∷ ys) t d dep (fresh, ready, ord) has = elim (Bool-cases (str_eq y t.id)) [
  | inl same ↦
      let earlier = dep y ys ready same in ground (arith, earlier, eq_iff y d, rank-le ys d)
  | inr other ↦
      let ih = rank-lt ts ys t d dep ord (ground (arith, other)) in ground (arith, ih, eq_iff y d)
]

All-rank :
    (done : List String) (ts us : List TaskNode)
    → ((t : TaskNode) (d : String) (x : String) (rest : List String)
        → In t us
        → In d t.deps
        → All (λ u. str_eq x u.id ≡ true → missing rest u.deps ≡ 0) ts
        → str_eq x t.id ≡ true
        → contains rest d ≡ true)
    → IsOrdered ts done
    → All (λ t. contains done t.id ≡ true) us
    → IsRank (rank done) us
All-rank done ts [] dep ord has = tt
All-rank done ts (t ∷ us) dep ord (one, has) = (
  All-of-In t.deps
      (λ d m. (rank-lt ts done t d (λ x rest. dep t d x rest (here refl) m) ord one).1),
  All-rank done ts us (λ u d x rest m. dep u d x rest (there m)) ord has,
)

-- If every task of the workflow is peeled, the order of peeling ranks them.
pub IsOrdered-IsRank :
    (ts : List TaskNode) (done : List String)
    → IsOrdered ts done
    → All (λ t. contains done t.id ≡ true) ts
    → IsRank (rank done) ts
IsOrdered-IsRank ts done ord has =
    All-rank done ts ts
      (λ t d x rest m n ready same.
        All-In (λ e. contains rest e ≡ true)
          (missing-zero rest t.deps
            (All-In (λ u. str_eq x u.id ≡ true → missing rest u.deps ≡ 0) ready m same))
          n)
      ord has
