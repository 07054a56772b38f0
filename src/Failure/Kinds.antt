-- ===== src/Failure/Kinds.antt =====
-- src/failure.rs: the classes of failure, the retry rule and the bounded retry loop. The calls that
-- may fail and the clock readings are arguments.
use aegis_runtime.Prelude.{
  ℕ, zero, suc, ◌+◌, min, String, List, [], ◌∷◌, ◌++◌, Option, none, some, Bool, true, false, ◌&&◌,
  ltb, contains, if◌then◌else◌, Result, ok, err,
}

abbrev pub max_attempts_ceiling : ℕ
max_attempts_ceiling = 5

pub data FailureClass : Type 0 where
  rejected unavailable timeout cancelled uncertain failed malformed approval_pending : FailureClass

pub data EffectCertainty : Type 0 where
  no_effect uncertain effect_occurred : EffectCertainty

pub data RetryEligibility : Type 0 where
  retryable : ℕ → RetryEligibility
  not_retryable : RetryEligibility

pub record RetryPolicy : Type 0 where
  pub max_attempts : ℕ

abbrev pub default_policy : RetryPolicy
default_policy = record { max_attempts = 1 }

-- The derived `==` of the two enums, at the one value that the rule tests for.
abbrev pub is_unavailable : FailureClass → Bool
is_unavailable FailureClass.unavailable = true
is_unavailable _ = false

abbrev pub is_no_effect : EffectCertainty → Bool
is_no_effect EffectCertainty.no_effect = true
is_no_effect _ = false

unfoldable pub retry_eligibility :
    FailureClass → EffectCertainty → Bool → RetryPolicy → RetryEligibility
retry_eligibility class certainty idempotent policy =
    let class_ok = is_unavailable class in
    let attempts = min policy.max_attempts max_attempts_ceiling in
    if class_ok && is_no_effect certainty && idempotent && ltb 1 attempts
    then retryable attempts
    else not_retryable

-- `skill_effect_profile(name).idempotent`
unfoldable pub skill_effect_profile : String → Bool
skill_effect_profile skill_name =
    contains ("read_file" ∷ "list_dir" ∷ "git_status" ∷ "cortex.search" ∷ "cortex_recall" ∷ [])
      skill_name

pub record ToolFault : Type 0 where
  pub class : FailureClass
  pub certainty : EffectCertainty
  pub message : String

-- `ToolFault::rejected`, `ToolFault::unavailable`
abbrev pub rejected_fault : String → ToolFault
rejected_fault m = record {
  class = FailureClass.rejected;
  certainty = EffectCertainty.no_effect;
  message = m;
}

abbrev pub unavailable_fault : String → ToolFault
unavailable_fault m = record {
  class = FailureClass.unavailable;
  certainty = EffectCertainty.no_effect;
  message = m;
}

pub record AttemptFailure : Type 0 where
  pub attempt : ℕ
  pub fault : ToolFault
  pub created_at : ℕ
  pub failed_at : ℕ

-- What a retried call depends on: the answer of each attempt, and the two clock readings round it.
module _ {T : Type 0} (policy : RetryPolicy) (idempotent : Bool)
    (attempt_fn : ℕ → Result ToolFault T) (clock : ℕ → ℕ × ℕ) where
  -- The `again` of the loop.
  abbrev pub again : ℕ → ToolFault → Bool
  again attempt fault = elim (retry_eligibility fault.class fault.certainty idempotent policy) [
    | retryable max_attempts ↦ ltb attempt max_attempts
    | not_retryable ↦ false
  ]

  abbrev pub failed_attempt : ℕ → ToolFault → AttemptFailure
  failed_attempt attempt fault = record {
    attempt = attempt;
    fault = fault;
    created_at = (clock attempt).0;
    failed_at = (clock attempt).1;
  }

  -- One round for each unit of fuel; `none` is fuel that ran out.
  unfoldable pub retry_from :
      ℕ → ℕ → List AttemptFailure → Option (Result ToolFault T × List AttemptFailure)
  retry_from zero attempt failures = none
  retry_from (suc fuel) attempt failures = elim (attempt_fn attempt) [
    | ok v ↦ some (ok v, failures)
    | err fault ↦
        let failures' = failures ++ failed_attempt attempt fault ∷ [] in
        let rest = retry_from fuel (attempt + 1) failures' in
        if again attempt fault then rest else some (err fault, failures')
  ]

  unfoldable pub retry_loop : Option (Result ToolFault T × List AttemptFailure)
  unfolding retry_from
  retry_loop = retry_from max_attempts_ceiling 1 []
