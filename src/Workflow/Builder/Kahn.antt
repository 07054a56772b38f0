-- ===== src/Workflow/Builder/Kahn.antt =====
-- The peeling loop of `build` (src/orchestration/workflow.rs) ends within its fuel, and leaves the
-- invariant with an empty queue.
use aegis_runtime.Workflow.Types.{TaskNode, task_ids}
use aegis_runtime.Workflow.Builder.{relax, wrapping_dec, peel, push_zeros, indegrees, run_peel}
use aegis_runtime.Workflow.Builder.Invariant.{
  DistinctDeps, Inv, Names, count, missing, left, relax-Inv, count-push_ne, count-push_self,
}
use aegis_runtime.Workflow.Builder.Order.{IsOrdered}
use aegis_runtime.Prelude.{
  Distinct, ℕ, zero, suc, ◌+◌, ◌<◌, ◌≤◌, String, ◌≡◌, refl, List, [], ◌∷◌, Bool, true, false, ◌&&◌,
  str_eq, eq_iff, eq_refl, ◌==◌, length, get_elem?, contains, All, if◌then◌else◌, arith, Option,
  some, ap, ◌∙◌, sym,
}

not-Names :
    (n k : ℕ) (x : String) (ts : List TaskNode)
    → n < k
    → contains (task_ids ts) x ≡ false
    → Names n x k ts
not-Names n k x [] lt fresh = tt
not-Names n k x (t ∷ ts) lt fresh = (
  ground (arith, eq_iff t.id x, eq_iff x t.id),
  not-Names n (suc k) x ts (omega arith) (ground arith),
)

contains-id :
    (ts : List TaskNode) (i : ℕ) (t : TaskNode)
    → get_elem? ts i ≡ some t
    → contains (task_ids ts) t.id ≡ true
contains-id [] i t e = absurd (ground arith)
contains-id (u ∷ ts) zero t e = ground (arith, eq_refl t.id)
contains-id (u ∷ ts) (suc i) t e = ground (arith, contains-id ts i t e)

Names-at :
    (n k i : ℕ) (ts : List TaskNode) (t : TaskNode)
    → n ≡ k + i
    → Distinct (task_ids ts)
    → get_elem? ts i ≡ some t
    → Names n t.id k ts
Names-at n k i [] t at dist e = tt
Names-at n k zero (u ∷ ts) t at (fresh, dist) e =
    let same : u ≡ t = ground arith in
    (
      ground (arith, same, eq_refl t.id),
      not-Names n (suc k) t.id ts (omega arith) (rw same at fresh),
    )
Names-at n k (suc i) (u ∷ ts) t at (fresh, dist) e = (
  ground (arith, contains-id ts i t e, eq_iff t.id u.id),
  Names-at n (suc k) i ts t (omega arith) dist e,
)

-- What the invariant says of a queued position.
queued-fresh :
    (done : List String) (queue : List ℕ) (n k i : ℕ) (ts : List TaskNode) (ds : List ℕ)
    (t : TaskNode)
    → n ≡ k + i
    → get_elem? ts i ≡ some t
    → Inv done (n ∷ queue) k ts ds
    → contains done t.id ≡ false
queued-fresh done queue n k i [] ds t at e inv = absurd (ground arith)
queued-fresh done queue n k i (u ∷ ts) [] t at e inv = absurd inv
queued-fresh done queue n k zero (u ∷ ts) (d ∷ ds) t at e (e1, e2, rest) = ground arith
queued-fresh done queue n k (suc i) (u ∷ ts) (d ∷ ds) t at e (e1, e2, rest) =
    queued-fresh done queue n (suc k) i ts ds t (omega arith) e rest

queued-ready :
    (done : List String) (n : ℕ) (queue : List ℕ) (x : String) (k : ℕ) (ts : List TaskNode)
    (ds : List ℕ)
    → Names n x k ts
    → Inv done (n ∷ queue) k ts ds
    → All (λ t. str_eq x t.id ≡ true → missing done t.deps ≡ 0) ts
queued-ready done n queue x k [] ds names inv = tt
queued-ready done n queue x k (t ∷ ts) [] names inv = absurd inv
queued-ready done n queue x k (t ∷ ts) (d ∷ ds) (name, names) (e1, e2, rest) =
    ((λ same. ground arith), queued-ready done n queue x (suc k) ts ds names rest)

get_elem?-lt :
    (ts : List TaskNode) (i : ℕ) → i < length ts → (t : TaskNode) × (get_elem? ts i ≡ some t)
get_elem?-lt [] i lt = absurd (omega arith)
get_elem?-lt (t ∷ ts) zero lt = (t, refl)
get_elem?-lt (t ∷ ts) (suc i) lt = get_elem?-lt ts i (omega arith)

All-push :
    {bound : ℕ} (b : Bool) (k : ℕ) (queue : List ℕ)
    → k < bound
    → All (λ q. q < bound) queue
    → All (λ q. q < bound) (if b then k ∷ queue else queue)
All-push true k queue lt h = (lt, h)
All-push false k queue lt h = h

relax-All :
    (bound : ℕ) (x : String) (k : ℕ) (ts : List TaskNode) (ds queue : List ℕ)
    → k + length ts ≤ bound
    → All (λ q. q < bound) queue
    → All (λ q. q < bound) (relax x k ts ds queue).1
unfolding relax
relax-All bound x k [] ds queue le h = h
relax-All bound x k (t ∷ ts) [] queue le h = h
relax-All bound x k (t ∷ ts) (d ∷ ds) queue le h =
    let d' = if contains t.deps x then wrapping_dec d else d in
    let b = contains t.deps x && d' == 0 in
    relax-All bound x (suc k) ts ds (if b then k ∷ queue else queue) (omega arith)
      (All-push b k queue (omega arith) h)

-- How the loop ends: `total` is the peeled count and the tasks that were queued or waiting before.
pub record Peeled (tasks : List TaskNode) (result : Option (ℕ × List ℕ)) (total : ℕ) : Type 0 where
  pub peeled : ℕ
  pub indegree : List ℕ
  pub done : List String
  pub returns : result ≡ some (peeled, indegree)
  pub inv : Inv done [] 0 tasks indegree
  pub ordered : IsOrdered tasks done
  pub counted : peeled + left indegree ≡ total

module _ (tasks : List TaskNode) (dist : Distinct (task_ids tasks))
    (deps : DistinctDeps tasks) where
  peel-Peeled :
      (fuel : ℕ) (done : List String) (ds queue : List ℕ) (peeled : ℕ)
      → Inv done queue 0 tasks ds
      → All (λ q. q < length tasks) queue
      → IsOrdered tasks done
      → length queue + left ds < fuel
      → Peeled tasks (peel fuel tasks ds queue peeled) (peeled + length queue + left ds)
  unfolding peel
  peel-Peeled zero done ds queue peeled inv range ord room = absurd (omega arith)
  peel-Peeled (suc fuel) done ds [] peeled inv range ord room = record {
    peeled = peeled;
    indegree = ds;
    done = done;
    returns = refl;
    inv = inv;
    ordered = ord;
    counted = omega arith;
  }
  peel-Peeled (suc fuel) done ds (n ∷ queue) peeled inv (lt, range) ord room =
      let (t, e) = get_elem?-lt tasks n lt in
      let at : n ≡ 0 + n = omega arith in
      let fresh = queued-fresh done queue n 0 n tasks ds t at e inv in
      let names = Names-at n 0 n tasks t at dist e in
      let (inv', size) = relax-Inv done n t.id 0 tasks ds queue fresh names deps inv in
      let (ds', queue') = relax t.id 0 tasks ds queue in
      let ih =
        peel-Peeled fuel (t.id ∷ done) ds' queue' (peeled + 1) inv'
          (relax-All (length tasks) t.id 0 tasks ds queue (omega arith) range)
          (fresh, queued-ready done n queue t.id 0 tasks ds names inv, ord) (omega (arith, size)) in
      record {
        peeled = ih.peeled;
        indegree = ih.indegree;
        done = ih.done;
        returns = rw (e, peel) ih.returns;
        inv = ih.inv;
        ordered = ih.ordered;
        counted = omega (arith, ih.counted, size);
      }

push_zeros-count :
    (j k : ℕ) (ds queue : List ℕ) → j < k → count j (push_zeros k ds queue) ≡ count j queue
unfolding push_zeros
push_zeros-count j k [] queue lt = refl
push_zeros-count j k (d ∷ ds) queue lt =
    push_zeros-count j (suc k) ds (if d == 0 then k ∷ queue else queue) (omega arith)
    ∙ count-push_ne (d == 0) j k queue lt

push_zeros-size :
    (k : ℕ) (ds queue : List ℕ)
    → length (push_zeros k ds queue) + left ds ≡ length queue + length ds
unfolding push_zeros
push_zeros-size k [] queue = refl
push_zeros-size k (d ∷ ds) queue =
    let (_, longer) = count-push_self (d == 0) k queue in
    ground (arith, longer, push_zeros-size (suc k) ds (if d == 0 then k ∷ queue else queue))

push_zeros-All :
    (bound k : ℕ) (ds queue : List ℕ)
    → k + length ds ≤ bound
    → All (λ q. q < bound) queue
    → All (λ q. q < bound) (push_zeros k ds queue)
unfolding push_zeros
push_zeros-All bound k [] queue le h = h
push_zeros-All bound k (d ∷ ds) queue le h =
    push_zeros-All bound (suc k) ds (if d == 0 then k ∷ queue else queue) (omega arith)
      (All-push (d == 0) k queue (omega arith) h)

missing-nil : (ds : List String) → missing [] ds ≡ length ds
missing-nil [] = refl
missing-nil (d ∷ ds) = omega (arith, missing-nil ds)

count-zero_above : (j : ℕ) (queue : List ℕ) → All (λ q. q < j) queue → count j queue ≡ 0
count-zero_above j [] h = refl
count-zero_above j (q ∷ qs) h = ground (arith, count-zero_above j qs h.1)

All-lt_suc : (k : ℕ) (queue : List ℕ) → All (λ q. q < k) queue → All (λ q. q < suc k) queue
All-lt_suc k [] h = tt
All-lt_suc k (q ∷ qs) h = (omega arith, All-lt_suc k qs h.1)

push_zeros-Inv :
    (k : ℕ) (ts : List TaskNode) (queue : List ℕ)
    → All (λ q. q < k) queue
    → Inv [] (push_zeros k (indegrees ts) queue) k ts (indegrees ts)
unfolding push_zeros
push_zeros-Inv k [] queue h = tt
push_zeros-Inv k (t ∷ ts) queue h =
    let d = length t.deps in
    let queue1 = if d == 0 then k ∷ queue else queue in
    let (more, _) = count-push_self (d == 0) k queue in
    let same = push_zeros-count k (suc k) (indegrees ts) queue1 (omega arith) in
    (
      sym (missing-nil t.deps),
      omega (arith, same, more, count-zero_above k queue h),
      push_zeros-Inv (suc k) ts queue1
          (All-push (d == 0) k queue (omega arith) (All-lt_suc k queue h)),
    )

length-indegrees : (ts : List TaskNode) → length (indegrees ts) ≡ length ts
length-indegrees [] = refl
length-indegrees (t ∷ ts) = ap suc (length-indegrees ts)

-- The loop of `build` as it is called: it returns, and the peeled and the waiting are all the tasks.
pub run_peel-Peeled :
    (tasks : List TaskNode)
    → Distinct (task_ids tasks)
    → DistinctDeps tasks
    → Peeled tasks (run_peel tasks) (length tasks)
run_peel-Peeled tasks dist deps =
    let ds = indegrees tasks in
    let queue = push_zeros 0 ds [] in
    let size = push_zeros-size 0 ds [] in
    let many = length-indegrees tasks in
    let p =
      peel-Peeled tasks dist deps (length tasks + 1) [] ds queue 0 (push_zeros-Inv 0 tasks [] tt)
        (push_zeros-All (length tasks) 0 ds [] (omega (arith, many)) tt) tt
        (omega (arith, size, many)) in
    record {
      peeled = p.peeled;
      indegree = p.indegree;
      done = p.done;
      returns = p.returns;
      inv = p.inv;
      ordered = p.ordered;
      counted = omega (arith, p.counted, size, many);
    }
