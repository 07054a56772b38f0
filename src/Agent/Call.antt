-- ===== src/Agent/Call.antt =====
-- One tool call in src/agent.rs.
use mathlib.Core.List.{append-nil}
use aegis_runtime.Failure.{FailureClass, ToolFault, AttemptFailure, skill_effect_profile}
use aegis_runtime.Failure.Retry.{IsLog, retry_loop-IsLog}
use aegis_runtime.Agent.{ToolCallItem, ToolExecutionRecord, World, AgentEngine, attempt_tool}
use aegis_runtime.Agent.Loop.{Loop, halted_by, failure_records, envelopes, after_call, call_tool}
use aegis_runtime.Prelude.{
  ℕ, ◌+◌, String, ◌≡◌, ◌⊎◌, refl, List, ◌++◌, Option, none, some, true, false, Result, ok, err,
  length, is_empty, All, inl, inr, arith,
}
use aegis_runtime.Agent.Records.{
  is_halting, failures_of, goes_on, Numbered, pop_last-append, BelongsTo, Succeeds, Fails,
  failure_records-Numbered, last_record,
}
use aegis_runtime.Agent.Attempts.{Matches, failure_records-EachOf}

module _ (world : World) (engine : AgentEngine) (turn : ℕ) where
  -- What one call adds: the records of its failed attempts, numbered on and published; and whether the
  -- run halts.
  pub record Called (call : ℕ) (s : Loop) (tc : ToolCallItem)
      (r : Loop × ToolExecutionRecord × Option String) : Type 0 where
    pub numbered : Numbered s.failure_seq (failures_of r.1)
    pub own : All (BelongsTo world engine turn) (failures_of r.1)
    pub counted : r.0.failure_seq ≡ s.failure_seq + length (failures_of r.1)
    pub sent : r.0.published ≡ s.published ++ envelopes world engine (failures_of r.1)
    pub id : r.1.call_id ≡ tc.id
    pub matched : Matches world engine turn call r.1
    pub outcome : Succeeds world engine turn r.1 ⊎ Fails world engine turn r.1
    pub halt :
        (r.2 ≡ none) × (goes_on r.1 ≡ true)
        ⊎ ((reason : String) × (r.2 ≡ some reason)
            × (is_empty reason ≡ false)
            × (goes_on r.1 ≡ false))

  halting :
      (id : String) (class : FailureClass)
      → (halted_by id class ≡ none) × (is_halting class ≡ false)
        ⊎ ((reason : String) × (halted_by id class ≡ some reason)
            × (is_empty reason ≡ false)
            × (is_halting class ≡ true))
  halting id FailureClass.approval_pending = inr (_, refl, refl, refl)
  halting id FailureClass.cancelled = inr (_, refl, refl, refl)
  halting id FailureClass.rejected = inl (refl, refl)
  halting id FailureClass.unavailable = inl (refl, refl)
  halting id FailureClass.timeout = inl (refl, refl)
  halting id FailureClass.uncertain = inl (refl, refl)
  halting id FailureClass.failed = inl (refl, refl)
  halting id FailureClass.malformed = inl (refl, refl)

  -- The attempts of a call.
  abbrev attempt_fn : (call : ℕ) → ToolCallItem → ℕ → Result ToolFault String
  attempt_fn call tc n =
      attempt_tool engine.policy.tool_timeout (skill_effect_profile tc.name)
        (world.moment turn call n)

  after_call-Called :
      (call : ℕ) (s : Loop) (tc : ToolCallItem) (result : Result ToolFault String)
      (attempts : List AttemptFailure)
      → IsLog engine.policy.retry
          (skill_effect_profile tc.name)
          (attempt_fn call tc)
          (world.clock turn call)
          1
          attempts
          result
      → Called call s tc (after_call world engine turn s tc result attempts)
  after_call-Called call s tc (ok out) attempts log =
      let recs = failure_records world engine turn tc s.last_failed_call s.failure_seq attempts in
      let (numbered, own, same) =
        failure_records-Numbered world engine turn tc s.last_failed_call s.failure_seq attempts in
      let each =
        failure_records-EachOf world engine turn tc s.last_failed_call s.failure_seq attempts in
      record {
        numbered = rw (append-nil recs) numbered;
        own = rw (append-nil recs) own;
        counted = rw (append-nil recs) (omega (arith, same));
        sent = rw (append-nil recs) refl;
        id = refl;
        matched = record {
          result = ok out;
          attempts = attempts;
          log = log;
          told = (refl, refl, refl);
          each = rw (append-nil recs) each;
        };
        outcome = inl (refl, refl);
        halt = inl (refl, refl);
      }
  after_call-Called call s tc (err fault) attempts log =
      let recs = failure_records world engine turn tc s.last_failed_call s.failure_seq attempts in
      let (numbered, own, same) =
        failure_records-Numbered world engine turn tc s.last_failed_call s.failure_seq attempts in
      let each =
        failure_records-EachOf world engine turn tc s.last_failed_call s.failure_seq attempts in
      let (f, at, class, certainty, own_call) =
        last_record world engine turn tc (skill_effect_profile tc.name) (attempt_fn call tc)
          (world.clock turn call) s.last_failed_call s.failure_seq 1 attempts fault log in
      record {
        numbered = rw (pop_last-append recs) numbered;
        own = rw (pop_last-append recs) own;
        counted = rw (pop_last-append recs) (omega (arith, same));
        sent = rw (pop_last-append recs) refl;
        id = refl;
        matched = record {
          result = err fault;
          attempts = attempts;
          log = log;
          told = (refl, refl, (f, at, class, certainty));
          each = rw (pop_last-append recs) each;
        };
        outcome = inr (record { last = f; success = refl; failure = at; call = own_call });
        halt = elim (halting tc.id fault.class) [
          | inl (go, quiet) ↦ inl (go, rw (at, class, quiet) refl)
          | inr (reason, stop, text, loud) ↦ inr (reason, stop, text, rw (at, class, loud) refl)
        ];
      }

  pub call_tool-Called :
      (call : ℕ) (s : Loop) (tc : ToolCallItem)
      → (r : Loop × ToolExecutionRecord × Option String) × (call_tool world engine turn call s tc
          ≡ some r)
        × Called call s tc r
  unfolding call_tool
  call_tool-Called call s tc =
      let (result, attempts, runs, log, low, allowed) =
        retry_loop-IsLog engine.policy.retry (skill_effect_profile tc.name) (attempt_fn call tc)
          (world.clock turn call) in
      (
        after_call world engine turn s tc result attempts,
        rw (runs, call_tool) refl,
        after_call-Called call s tc result attempts log,
      )
