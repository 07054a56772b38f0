-- ===== src/Failure/Retry.antt =====
-- The retry rule and the retry loop of src/failure.rs.
use mathlib.Core.List.{append-nil, append_assoc}
use aegis_runtime.Failure.Kinds.{
  EffectCertainty, FailureClass, RetryPolicy, ToolFault, AttemptFailure, retry_eligibility, again,
  failed_attempt, retry_from, retry_loop,
}
use aegis_runtime.Prelude.{
  ℕ, zero, suc, ◌+◌, ◌<◌, ◌≤◌, ◌≡◌, ◌⊎◌, ◌∙◌, ap, refl, List, [], ◌∷◌, ◌++◌, some, Bool, true,
  false, Result, ok, err, Result-cases, arith, length, Bool-cases, inl, inr, max,
}

module _ {T : Type 0} (policy : RetryPolicy) (idempotent : Bool)
    (attempt_fn : ℕ → Result ToolFault T) (clock : ℕ → ℕ × ℕ) where
  -- What has to hold for attempt `k + 1` to follow a fault of attempt `k`.
  pub record MayRetry (k : ℕ) (fault : ToolFault) : Type 0 where
    pub unreached : fault.class ≡ FailureClass.unavailable
    pub harmless : fault.certainty ≡ EffectCertainty.no_effect
    pub repeatable : idempotent ≡ true
    pub allowed : k < policy.max_attempts
    pub under_ceiling : k < 5

  again-MayRetry :
      (k : ℕ) (fault : ToolFault)
      → again policy idempotent attempt_fn clock k fault ≡ true
      → MayRetry k fault
  unfolding retry_eligibility
  again-MayRetry k fault h = ground arith

  MayRetry-again :
      (k : ℕ) (fault : ToolFault)
      → 1 ≤ k
      → again policy idempotent attempt_fn clock k fault ≡ false
      → ¬ MayRetry k fault
  unfolding retry_eligibility
  MayRetry-again k fault pos h m =
      ground (arith, m.unreached, m.harmless, m.repeatable, m.allowed, m.under_ceiling)

  -- The failures that a run of the loop records from attempt `k` on, and what it returns. Each
  -- failure is that of its own attempt, and is followed by another attempt exactly if it may be.
  abbrev pub IsLog : ℕ → List AttemptFailure → Result ToolFault T → Type 0
  IsLog k [] r = (v : T) × (attempt_fn k ≡ ok v) × (r ≡ ok v)
  IsLog k (f ∷ fs) r =
      (f ≡ failed_attempt policy idempotent attempt_fn clock k f.fault)
      × (attempt_fn k ≡ err f.fault)
      × ((fs ≡ []) × (r ≡ err f.fault) × ¬ MayRetry k f.fault
          ⊎ MayRetry k f.fault × IsLog (k + 1) fs r)

  abbrev Runs : ℕ → ℕ → List AttemptFailure → Type 0
  Runs fuel k acc =
      (r : Result ToolFault T) × (fs : List AttemptFailure) × (retry_from policy idempotent
          attempt_fn clock fuel k acc
        ≡ some (r, acc ++ fs))
      × IsLog k fs r

  module _ (fuel k : ℕ) (acc : List AttemptFailure) (fault : ToolFault)
      (failed : attempt_fn k ≡ err fault) where
    retry_from-again :
        again policy idempotent attempt_fn clock k fault ≡ true
        → retry_from policy idempotent attempt_fn clock (suc fuel) k acc
          ≡ retry_from policy idempotent attempt_fn clock fuel
              (k + 1)
              (acc ++ failed_attempt policy idempotent attempt_fn clock k fault ∷ [])
    unfolding retry_from
    retry_from-again go = ground arith

    retry_from-stop :
        again policy idempotent attempt_fn clock k fault ≡ false
        → retry_from policy idempotent attempt_fn clock (suc fuel) k acc
          ≡ some (err fault, acc ++ failed_attempt policy idempotent attempt_fn clock k fault ∷ [])
    unfolding retry_from
    retry_from-stop stop = ground arith

  retry_from-ok :
      (fuel k : ℕ) (acc : List AttemptFailure) (v : T)
      → attempt_fn k ≡ ok v
      → retry_from policy idempotent attempt_fn clock (suc fuel) k acc ≡ some (ok v, acc)
  unfolding retry_from
  retry_from-ok fuel k acc v e = ground arith

  retry_from-Runs :
      (fuel k : ℕ) (acc : List AttemptFailure) → 1 ≤ k → k ≤ 5 → 5 < fuel + k → Runs fuel k acc
  retry_from-Runs zero k acc pos low room = absurd (omega arith)
  retry_from-Runs (suc fuel) k acc pos low room = elim (Result-cases (attempt_fn k)) [
    | inl (v, e) ↦ (ok v, [], rw append-nil (retry_from-ok fuel k acc v e), (v, e, refl))
    | inr (fault, e) ↦
        let f = failed_attempt policy idempotent attempt_fn clock k fault in
        elim (Bool-cases (again policy idempotent attempt_fn clock k fault)) [
          | inl go ↦
              let may = again-MayRetry k fault go in
              let (r, fs, runs, log) =
                retry_from-Runs fuel (k + 1) (acc ++ f ∷ []) (omega arith)
                  (omega (arith, may.under_ceiling)) (omega arith) in
              (
                r,
                f ∷ fs,
                retry_from-again fuel k acc fault e go
                    ∙ runs
                    ∙ ap (λ l. some (r, l)) (append_assoc acc (f ∷ []) fs),
                (refl, e, inr (may, log)),
              )
          | inr stop ↦ (
            err fault,
            f ∷ [],
            retry_from-stop fuel k acc fault e stop,
            (refl, e, inl (refl, refl, MayRetry-again k fault pos stop)),
          )
        ]
  ]

  length-IsLog :
      (k : ℕ) (fs : List AttemptFailure) (r : Result ToolFault T)
      → k ≤ 5
      → IsLog k fs r
      → (length fs + k ≤ 6) × (length fs + k ≤ max k policy.max_attempts + 1)
  length-IsLog k [] r low log = omega arith
  length-IsLog k (f ∷ fs) r low (_, _, inl (e, _, _)) = omega (arith, ap length e)
  length-IsLog k (f ∷ fs) r low (_, _, inr (may, log)) = omega (
    arith,
    may.under_ceiling,
    may.allowed,
    length-IsLog (k + 1) fs r (omega (arith, may.under_ceiling)) log,
  )

  -- The loop always returns, within five attempts and within the attempts that the policy allows
  -- (one, where it allows none). It records every failed attempt in order, numbered from 1; a fault
  -- is followed by another attempt exactly if its class is `Unavailable`, it had no effect, the
  -- call is idempotent and attempts are left; the result is that of the last attempt.
  pub retry_loop-IsLog :
      (r : Result ToolFault T) × (fs : List AttemptFailure) × (retry_loop policy idempotent
          attempt_fn clock
        ≡ some (r, fs))
      × IsLog 1 fs r
      × (length fs ≤ 5)
      × (length fs ≤ max 1 policy.max_attempts)
  unfolding retry_loop
  retry_loop-IsLog =
      let (r, fs, runs, log) = retry_from-Runs 5 1 [] (omega arith) (omega arith) (omega arith) in
      let bounds = length-IsLog 1 fs r (omega arith) log in
      (r, fs, runs, log, omega (arith, bounds), omega (arith, bounds))
