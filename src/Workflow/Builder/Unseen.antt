-- ===== src/Workflow/Builder/Unseen.antt =====
-- The walk of `find_cycle` in src/orchestration/workflow.rs meets a position twice in the end: each
-- step sees one that was unseen.
use aegis_runtime.Workflow.Builder.{position}
use aegis_runtime.Workflow.Builder.Invariant.{count}
use aegis_runtime.Prelude.{
  ℕ, zero, suc, ◌+◌, ◌<◌, ◌≤◌, ◌≡◌, refl, List, [], ◌∷◌, ◌++◌, ◌==◌, indicator, arith, none,
  Option-cases, inl, inr,
}

-- How many positions below n are not on the path.
abbrev pub unseen : ℕ → List ℕ → ℕ
unseen zero path = 0
unseen (suc n) path = indicator (count n path == 0) + unseen n path

count-snoc :
    (j x : ℕ) (path : List ℕ) → count j (path ++ x ∷ []) ≡ count j path + indicator (x == j)
count-snoc j x [] = omega arith
count-snoc j x (p ∷ ps) = omega (arith, count-snoc j x ps)

unseen-le : (n x : ℕ) (path : List ℕ) → unseen n (path ++ x ∷ []) ≤ unseen n path
unseen-le zero x path = omega arith
unseen-le (suc n) x path = ground (arith, count-snoc n x path, unseen-le n x path)

pub unseen-lt :
    (n x : ℕ) (path : List ℕ) → x < n → count x path ≡ 0 → unseen n (path ++ x ∷ []) < unseen n path
unseen-lt zero x path lt fresh = absurd (omega arith)
unseen-lt (suc n) x path lt fresh =
    ground (arith, count-snoc n x path, unseen-le n x path, unseen-lt n x path)

pub unseen-le_self : (n : ℕ) (path : List ℕ) → unseen n path ≤ n
unseen-le_self zero path = omega arith
unseen-le_self (suc n) path = ground (arith, unseen-le_self n path)

pub position-none : (path : List ℕ) (x : ℕ) → position path x ≡ none → count x path ≡ 0
unfolding position
position-none [] x e = refl
position-none (p ∷ ps) x e = elim (Option-cases (position ps x)) [
  | inl missing ↦ ground (arith, missing, position-none ps x missing)
  | inr (i, found) ↦ absurd (ground (arith, found))
]
