-- ===== src/Failure/Roots.antt =====
-- `root_cause` of src/failure.rs: it answers exactly for known records, with a record that is reached
-- by parent links, and where the links cannot run in a circle that record has no parent to go to.
use aegis_runtime.Failure.Record.{
  FailureRecord, same_attempt, parent_of, next_up, climb, root_cause,
}
use aegis_runtime.Prelude.{
  ℕ, zero, suc, ◌+◌, ◌<◌, ◌≤◌, ◌≡◌, ◌⊎◌, inl, inr, List, [], ◌∷◌, none, some, arith, length, find,
  find-In, rfind-In, In, indicator, ltb, ap, here, there, Option-cases, str_eq,
}

-- How many records have a smaller sequence number.
abbrev count_below : ℕ → List FailureRecord → ℕ
count_below n [] = 0
count_below n (r ∷ rs) = indicator (ltb r.sequence n) + count_below n rs

count_below-le : (n : ℕ) (rs : List FailureRecord) → count_below n rs ≤ length rs
count_below-le n [] = omega arith
count_below-le n (r ∷ rs) = ground (arith, count_below-le n rs)

count_below_mono : (m n : ℕ) (rs : List FailureRecord) → m ≤ n → count_below m rs ≤ count_below n rs
count_below_mono m n [] le = omega arith
count_below_mono m n (r ∷ rs) le = ground (arith, count_below_mono m n rs le)

count_below-lt :
    {p : FailureRecord} {rs : List FailureRecord}
    → In p rs
    → (n : ℕ) → p.sequence < n
    → count_below p.sequence rs < count_below n rs
count_below-lt {p} (here {x = x} {xs = xs} e) n lt =
    let same : p.sequence ≡ x.sequence = ap (λ r. r.sequence) e in
    ground (arith, same, count_below_mono p.sequence n xs (omega arith))
count_below-lt {p} (there {x = x} {xs = xs} m) n lt = ground (arith, count_below-lt m n lt)

parent_of-In :
    (records : List FailureRecord) (r q : FailureRecord)
    → parent_of records r ≡ some q
    → In q records
parent_of-In records r q e = elim (Option-cases r.parent_call_id) [
  | inl missing ↦ absurd (ground (arith, missing))
  | inr (pid, given) ↦ rfind-In (λ t. str_eq t.tool_call_id pid) records q (ground (arith, given))
]

module _ (records : List FailureRecord) where
  -- A chain of links that the walk follows, each to the parent that it finds.
  pub data Up : FailureRecord → FailureRecord → Type 0 where
    stay : {r : FailureRecord} → Up r r
    step : {r p q : FailureRecord} → next_up records r ≡ some p → Up p q → Up r q

  climb-Up : (n : ℕ) (r : FailureRecord) → Up r (climb n records r)
  unfolding climb
  climb-Up zero r = stay
  climb-Up (suc n) r = elim (Option-cases (next_up records r)) [
    | inl e ↦ rw (e, climb) stay
    | inr (p, e) ↦ rw (e, climb) (step e (climb-Up n p))
  ]

  -- Sequence numbers fall along the links.
  abbrev pub Falling : Type 0
  Falling =
      (r p : FailureRecord) → In r records → next_up records r ≡ some p → p.sequence < r.sequence

  next_up-In : (r p : FailureRecord) → next_up records r ≡ some p → In p records
  next_up-In r p e = elim (Option-cases (parent_of records r)) [
    | inl missing ↦ absurd (ground (arith, missing))
    | inr (q, found) ↦
        let same : q ≡ p = ground (arith, found) in rw same at (parent_of-In records r q found)
  ]

  climb-root :
      (n : ℕ) (r : FailureRecord)
      → Falling
      → In r records
      → count_below r.sequence records < n
      → next_up records (climb n records r) ≡ none
  unfolding climb
  climb-root zero r falls known room = absurd (omega arith)
  climb-root (suc n) r falls known room = elim (Option-cases (next_up records r)) [
    | inl e ↦ rw (e, climb) e
    | inr (p, e) ↦
        let p_known = next_up-In r p e in
        rw (e, climb)
          (climb-root n p falls p_known
            (omega (arith, count_below-lt p_known r.sequence (falls r p known e))))
  ]

-- If sequence numbers fall along the parent links of the records, so that no links form a cycle:
-- `root_cause` answers exactly if the attempt is among the records, and the answer is reached from it
-- by parent links and has no parent to go on to.
pub root_cause_lem :
    (records : List FailureRecord) (start : FailureRecord)
    → Falling records
    → ((find (same_attempt start) records ≡ none) × (root_cause records start ≡ none))
      ⊎ ((r q : FailureRecord) × (find (same_attempt start) records ≡ some r)
          × (root_cause records start ≡ some q)
          × Up records r q
          × (next_up records q ≡ none))
unfolding root_cause
root_cause_lem records start falls = elim (Option-cases (find (same_attempt start) records)) [
  | inl missing ↦ inl (missing, rw (missing, root_cause))
  | inr (r, found) ↦ inr (
    r,
    climb (length records + 1) records r,
    found,
    rw (found, root_cause),
    climb-Up records (length records + 1) r,
    climb-root records (length records + 1) r falls (find-In (same_attempt start) records r found).0
        (omega (arith, count_below-le r.sequence records)),
  )
]
