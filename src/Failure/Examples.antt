-- ===== src/Failure/Examples.antt =====
-- Runs of src/failure.rs on concrete records and texts.
use aegis_runtime.Failure.{
  FailureClass, EffectCertainty, RetryPolicy, ToolFault, unavailable_fault, AttemptFailure,
  retry_loop, retry_eligibility, Hashing, FailureRecord, new_record, truncate_bytes, root_cause,
  same_attempt, next_up,
}
use aegis_runtime.Failure.Retry.{IsLog, retry_loop-IsLog}
use aegis_runtime.Failure.Causes.{Push, push_all, entry, push_all_lem}
use aegis_runtime.Failure.Truncation.{truncate_bytes_lem}
use aegis_runtime.Failure.Roots.{Falling, Up, root_cause_lem}
use aegis_runtime.Prelude.{
  ℕ, ◌≤◌, String, ◌≡◌, refl, sym, ap, ◌∙◌, ◌⊎◌, List, [], ◌∷◌, map, take, length, none, some, true,
  false, ◌||◌, ltb, Result, ok, err, max, ◌==◌, if◌then◌else◌, text_append, byte_len, All, find,
  here, there, arith, utf8_width,
}

-- A call that is unavailable at first, and a clock.
abbrev flaky : ℕ → Result ToolFault String
flaky n = if n == 1 then err (unavailable_fault "busy") else ok "done"

abbrev ticks : ℕ → ℕ × ℕ
ticks n = (n, n)

abbrev thrice : RetryPolicy
thrice = record { max_attempts = 3 }

retries_once :
    retry_loop thrice true flaky ticks
    ≡ some (
      ok "done",
      record { attempt = 1; fault = unavailable_fault "busy"; created_at = 1; failed_at = 1 } ∷ [],
    )
unfolding retry_loop retry_eligibility
retries_once = refl

gives_up_at_once :
    retry_loop thrice false flaky ticks
    ≡ some (
      err (unavailable_fault "busy"),
      record { attempt = 1; fault = unavailable_fault "busy"; created_at = 1; failed_at = 1 } ∷ [],
    )
unfolding retry_loop retry_eligibility
gives_up_at_once = refl

retry_loop-IsLog_example :
    (r : Result ToolFault String) × (fs : List AttemptFailure) × (retry_loop thrice true flaky ticks
      ≡ some (r, fs))
    × IsLog thrice true flaky ticks 1 fs r
    × (length fs ≤ 5)
    × (length fs ≤ max 1 thrice.max_attempts)
retry_loop-IsLog_example = retry_loop-IsLog thrice true flaky ticks

cuts_between_characters : truncate_bytes "aé" 2 ≡ "a"
unfolding truncate_bytes utf8_width
cuts_between_characters = refl

truncate_bytes_lem_example :
    ((rest : String) × (text_append (truncate_bytes "hello" 3) rest ≡ "hello"))
    × (byte_len (truncate_bytes "hello" 3) ≤ 3)
    × (byte_len "he" ≤ byte_len (truncate_bytes "hello" 3))
unfolding utf8_width
truncate_bytes_lem_example = truncate_bytes_lem "hello" 3 "he" "llo" refl (omega arith)

abbrev no_hash : Hashing
no_hash = record { to_vec = λ v. some []; sha256 = λ bs. bs }

abbrev parent_record : FailureRecord
parent_record =
    new_record 1 "run" 0 "call_1" none "read_file" 1 FailureClass.failed EffectCertainty.uncertain 0
      0

abbrev child_record : FailureRecord
child_record =
    new_record 2 "run" 1 "call_2" (some "call_1") "write_file" 1 FailureClass.rejected
      EffectCertainty.no_effect 0 0

abbrev two_records : List FailureRecord
two_records = parent_record ∷ child_record ∷ []

abbrev one_push : List Push
one_push = record { source = "tool"; message = "denied"; payload = none } ∷ []

push_all_lem_example :
    ((push_all no_hash parent_record one_push).cause ≡ map (entry no_hash) (take 8 one_push))
    × ((push_all no_hash parent_record one_push).cause_truncated ≡ (false || ltb 8 1))
    × All (λ c. byte_len c.message ≤ 512) (push_all no_hash parent_record one_push).cause
push_all_lem_example = push_all_lem no_hash parent_record one_push refl

finds_the_root : root_cause two_records child_record ≡ some parent_record
unfolding root_cause
finds_the_root = refl

two_records-Falling : Falling two_records
two_records-Falling r p (here e) h = absurd (cc (ap (next_up two_records) (sym e) ∙ h))
two_records-Falling r p (there (here e)) h =
    let at : some parent_record ≡ some p = ap (next_up two_records) (sym e) ∙ h in
    let below : 1 ≡ p.sequence = ap (λ o. elim o [ none ↦ 0 | some x ↦ x.sequence ]) at in
    let above : r.sequence ≡ 2 = ap (λ x. x.sequence) e in omega (arith, below, above)
two_records-Falling r p (there (there m)) h = elim m [ ]

root_cause_lem_example :
    ((find (same_attempt child_record) two_records ≡ none)
      × (root_cause two_records child_record ≡ none))
    ⊎ ((r q : FailureRecord) × (find (same_attempt child_record) two_records ≡ some r)
        × (root_cause two_records child_record ≡ some q)
        × Up two_records r q
        × (next_up two_records q ≡ none))
root_cause_lem_example = root_cause_lem two_records child_record two_records-Falling
