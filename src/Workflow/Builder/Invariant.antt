-- ===== src/Workflow/Builder/Invariant.antt =====
-- The invariant of Kahn's algorithm in `build` (src/orchestration/workflow.rs). `done` is the list of
-- ids that were peeled so far, the last one first; the program keeps only how many there are.
use aegis_runtime.Workflow.Types.{TaskNode}
use aegis_runtime.Workflow.Builder.{relax, wrapping_dec}
use aegis_runtime.Prelude.{
  Distinct, ℕ, zero, suc, ◌+◌, ◌<◌, String, ◌≡◌, refl, List, [], ◌∷◌, Bool, true, false, ◌&&◌, not,
  str_eq, eq_iff, ltb, ◌==◌, length, contains, All, indicator, if◌then◌else◌, arith, ◌∙◌,
}

-- How often a position stands in the queue.
abbrev pub count : ℕ → List ℕ → ℕ
count k [] = 0
count k (q ∷ qs) = indicator (q == k) + count k qs

-- How many predecessors are not peeled yet.
abbrev pub missing : List String → List String → ℕ
missing done [] = 0
missing done (d ∷ ds) = indicator (not (contains done d)) + missing done ds

-- How many tasks still wait for a predecessor.
abbrev pub left : List ℕ → ℕ
left [] = 0
left (d ∷ ds) = indicator (ltb 0 d) + left ds

-- Each indegree counts the predecessors that are missing, and each task with none missing is
-- either peeled or queued, once.
abbrev pub Inv : List String → List ℕ → ℕ → List TaskNode → List ℕ → Type 0
Inv done queue k [] [] = Unit
Inv done queue k (t ∷ ts) (d ∷ ds) =
    (d ≡ missing done t.deps)
    × (count k queue + indicator (contains done t.id) ≡ indicator (d == 0))
    × Inv done queue (suc k) ts ds
Inv done queue k _ _ = ⊥

-- Position n, and no other, holds the id x.
abbrev pub Names : ℕ → String → ℕ → List TaskNode → Type 0
Names n x k [] = Unit
Names n x k (t ∷ ts) = ((k == n) ≡ str_eq x t.id) × Names n x (suc k) ts

abbrev pub DistinctDeps : List TaskNode → Type 0
DistinctDeps ts = All (λ t. Distinct t.deps) ts

missing-le :
    (done : List String) (x : String) (ds : List String)
    → contains ds x ≡ true
    → contains done x ≡ false
    → 0 < missing done ds
missing-le done x [] has fresh = absurd (ground arith)
missing-le done x (d ∷ ds) has fresh = ground (arith, eq_iff d x, missing-le done x ds)

pub missing-cons :
    (done : List String) (x : String) (ds : List String)
    → Distinct ds
    → contains done x ≡ false
    → missing (x ∷ done) ds + indicator (contains ds x) ≡ missing done ds
missing-cons done x [] dist fresh = refl
missing-cons done x (d ∷ ds) dist fresh =
    ground (arith, eq_iff d x, eq_iff x d, missing-cons done x ds)

module _ (done : List String) (n : ℕ) (x : String) (fresh : contains done x ≡ false) where
  -- One task in a round: what becomes of its indegree, and whether it is pushed.
  relax_one :
      (k d : ℕ) (t : TaskNode) (queue : List ℕ)
      → ((k == n) ≡ str_eq x t.id)
      → Distinct t.deps
      → d ≡ missing done t.deps
      → count k (n ∷ queue) + indicator (contains done t.id) ≡ indicator (d == 0)
      → let d' = if contains t.deps x then wrapping_dec d else d in
        (d' ≡ missing (x ∷ done) t.deps)
        × (indicator (contains t.deps x && d' == 0)
              + count k queue
              + indicator (contains (x ∷ done) t.id)
            ≡ indicator (d' == 0))
        × (indicator (contains t.deps x && d' == 0) + indicator (ltb 0 d') ≡ indicator (ltb 0 d))
  unfolding wrapping_dec
  relax_one k zero t queue name dist e1 e2 = ground (arith, missing-cons done x t.deps dist fresh)
  relax_one k (suc d) t queue name dist e1 e2 =
      ground (arith, missing-cons done x t.deps dist fresh)

pub count-push_ne :
    (b : Bool) (j k : ℕ) (queue : List ℕ)
    → j < k
    → count j (if b then k ∷ queue else queue) ≡ count j queue
count-push_ne true j k queue lt = ground arith
count-push_ne false j k queue lt = refl

pub count-push_self :
    (b : Bool) (k : ℕ) (queue : List ℕ)
    → (count k (if b then k ∷ queue else queue) ≡ indicator b + count k queue)
      × (length (if b then k ∷ queue else queue) ≡ indicator b + length queue)
count-push_self true k queue = (ground arith, omega arith)
count-push_self false k queue = (omega arith, omega arith)

-- A round pushes only positions of its own range.
relax-count :
    (x : String) (k j : ℕ) (ts : List TaskNode) (ds queue : List ℕ)
    → j < k
    → count j (relax x k ts ds queue).1 ≡ count j queue
unfolding relax
relax-count x k j [] ds queue lt = refl
relax-count x k j (t ∷ ts) [] queue lt = refl
relax-count x k j (t ∷ ts) (d ∷ ds) queue lt =
    let d' = if contains t.deps x then wrapping_dec d else d in
    let b = contains t.deps x && d' == 0 in
    relax-count x (suc k) j ts ds (if b then k ∷ queue else queue) (omega arith)
    ∙ count-push_ne b j k queue lt

Inv-push :
    (done : List String) (n j k : ℕ) (queue : List ℕ) (ts : List TaskNode) (ds : List ℕ)
    → j < k
    → Inv done (n ∷ queue) k ts ds
    → Inv done (n ∷ j ∷ queue) k ts ds
Inv-push done n j k queue [] [] lt inv = tt
Inv-push done n j k queue (t ∷ ts) [] lt inv = inv
Inv-push done n j k queue [] (d ∷ ds) lt inv = inv
Inv-push done n j k queue (t ∷ ts) (d ∷ ds) lt (e1, e2, rest) =
    (e1, ground arith, Inv-push done n j (suc k) queue ts ds (omega arith) rest)

Inv-push_if :
    (b : Bool) (done : List String) (n j k : ℕ) (queue : List ℕ) (ts : List TaskNode) (ds : List ℕ)
    → j < k
    → Inv done (n ∷ queue) k ts ds
    → Inv done (n ∷ (if b then j ∷ queue else queue)) k ts ds
Inv-push_if true done n j k queue ts ds lt inv = Inv-push done n j k queue ts ds lt inv
Inv-push_if false done n j k queue ts ds lt inv = inv

-- A round of the loop: the invariant with one more id peeled, and the measure of the loop.
pub relax-Inv :
    (done : List String) (n : ℕ) (x : String) (k : ℕ) (ts : List TaskNode) (ds queue : List ℕ)
    → contains done x ≡ false
    → Names n x k ts
    → DistinctDeps ts
    → Inv done (n ∷ queue) k ts ds
    → let (ds', queue') = relax x k ts ds queue in
      Inv (x ∷ done) queue' k ts ds' × (length queue' + left ds' ≡ length queue + left ds)
unfolding relax
relax-Inv done n x k [] [] queue fresh names dist inv = (tt, refl)
relax-Inv done n x k (t ∷ ts) [] queue fresh names dist inv = absurd inv
relax-Inv done n x k [] (d ∷ ds) queue fresh names dist inv = absurd inv
relax-Inv done n x k (t ∷ ts) (d ∷ ds) queue fresh (name, names) (one, dist) (e1, e2, rest) =
    let d' = if contains t.deps x then wrapping_dec d else d in
    let b = contains t.deps x && d' == 0 in
    let queue1 = if b then k ∷ queue else queue in
    let (f1, f2, f3) = relax_one done n x fresh k d t queue name one e1 e2 in
    let (inv', size) =
      relax-Inv done n x (suc k) ts ds queue1 fresh names dist
        (Inv-push_if b done n k (suc k) queue ts ds (omega arith) rest) in
    let same = relax-count x (suc k) k ts ds queue1 (omega arith) in
    let (more, longer) = count-push_self b k queue in
    ((f1, omega (arith, same, more, f2), inv'), omega (arith, size, longer, f3))
