-- ===== src/Agent/Records.antt =====
-- The failure records that a tool call of src/agent.rs leaves.
use aegis_runtime.Failure.{FailureClass, FailureRecord, ToolFault, AttemptFailure, push_cause}
use aegis_runtime.Failure.Retry.{IsLog}
use aegis_runtime.Agent.{ToolCallItem, ToolExecutionRecord, World, AgentEngine}
use aegis_runtime.Agent.Loop.{pop_last, failure_record, failure_records}
use aegis_runtime.Prelude.{
  ℕ, ◌+◌, String, ◌≡◌, refl, ap, ◌∙◌, List, [], ◌∷◌, ◌++◌, Option, none, some, Bool, true, false,
  not, Result, err, length, All, inl, inr, arith,
}

-- A failure that halts the run.
abbrev pub is_halting : FailureClass → Bool
is_halting FailureClass.approval_pending = true
is_halting FailureClass.cancelled = true
is_halting _ = false

abbrev pub some_list {ℓ} : {A : Type ℓ} → Option A → List A
some_list none = []
some_list (some a) = a ∷ []

-- The failed attempts of a call, in order.
abbrev pub failures_of : ToolExecutionRecord → List FailureRecord
failures_of rec = rec.retry_failures ++ some_list rec.failure

abbrev pub all_failures : List ToolExecutionRecord → List FailureRecord
all_failures [] = []
all_failures (r ∷ rs) = failures_of r ++ all_failures rs

abbrev pub goes_on : ToolExecutionRecord → Bool
goes_on rec = elim rec.failure [ none ↦ true | some f ↦ not (is_halting f.class) ]

-- Numbered one by one from `n + 1`.
abbrev pub Numbered : ℕ → List FailureRecord → Type 0
Numbered n [] = Unit
Numbered n (f ∷ fs) = (f.sequence ≡ n + 1) × Numbered (n + 1) fs

pub Numbered-append :
    (n m : ℕ) (fs gs : List FailureRecord)
    → Numbered n fs
    → m ≡ n + length fs
    → Numbered m gs
    → Numbered n (fs ++ gs)
Numbered-append n m [] gs h at k = let same : m ≡ n = omega (arith, at) in rw same at k
Numbered-append n m (f ∷ fs) gs (e, h) at k =
    (e, Numbered-append (n + 1) m fs gs h (omega (arith, at)) k)

pub pop_last-append {ℓ} :
    {A : Type ℓ} (xs : List A) → (pop_last xs).0 ++ some_list (pop_last xs).1 ≡ xs
pop_last-append [] = refl
pop_last-append (x ∷ []) = refl
pop_last-append (x ∷ y ∷ ys) = ap (λ l. x ∷ l) (pop_last-append (y ∷ ys))

module _ (world : World) (engine : AgentEngine) (turn : ℕ) where
  -- A record of the run and the turn.
  pub record BelongsTo (f : FailureRecord) : Type 0 where
    pub run_id : f.run_id ≡ engine.run_id
    pub step_index : f.step_index ≡ turn

  abbrev pub Succeeds : ToolExecutionRecord → Type 0
  Succeeds rec = (rec.success ≡ true) × (rec.failure ≡ none)

  -- A call that failed has the record of its last attempt.
  pub record Fails (rec : ToolExecutionRecord) : Type 0 where
    pub last : FailureRecord
    pub success : rec.success ≡ false
    pub failure : rec.failure ≡ some last
    pub call : last.tool_call_id ≡ rec.call_id

  module _ (tc : ToolCallItem) where
    failure_record-fields :
        (parent : Option String) (seq : ℕ) (a : AttemptFailure)
        → (let f = failure_record world engine turn tc parent seq a in
            (f.sequence ≡ seq)
            × (f.class ≡ a.fault.class)
            × (f.effect_certainty ≡ a.fault.certainty)
            × (f.tool_call_id ≡ tc.id)
            × BelongsTo f)
    unfolding push_cause
    failure_record-fields parent seq a = ground arith

    pub failure_records-Numbered :
        (parent : Option String) (seq : ℕ) (attempts : List AttemptFailure)
        → Numbered seq (failure_records world engine turn tc parent seq attempts)
          × All BelongsTo (failure_records world engine turn tc parent seq attempts)
          × (length (failure_records world engine turn tc parent seq attempts) ≡ length attempts)
    failure_records-Numbered parent seq [] = (tt, tt, refl)
    failure_records-Numbered parent seq (a ∷ later) =
        let (at, class, certainty, call, own) = failure_record-fields parent (seq + 1) a in
        let (numbered, belong, same) = failure_records-Numbered parent (seq + 1) later in
        ((at, numbered), (own, belong), omega (arith, same))

    pub last_record :
        (idempotent : Bool) (attempt_fn : ℕ → Result ToolFault String) (clock : ℕ → ℕ × ℕ)
        (parent : Option String) (seq k : ℕ) (attempts : List AttemptFailure) (fault : ToolFault)
        → IsLog engine.policy.retry idempotent attempt_fn clock k attempts (err fault)
        → (f : FailureRecord) × ((pop_last
              (failure_records world engine turn tc parent seq attempts)).1
            ≡ some f)
          × (f.class ≡ fault.class)
          × (f.effect_certainty ≡ fault.certainty)
          × (f.tool_call_id ≡ tc.id)
    last_record idempotent attempt_fn clock parent seq k [] fault (v, e, bad) = absurd (cc)
    last_record idempotent attempt_fn clock parent seq k (a ∷ []) fault
          (e, at, inl (none_left, same, stop)) =
        let (n, class, certainty, call, own) = failure_record-fields parent (seq + 1) a in
        let equal : a.fault ≡ fault = ground (arith, same) in
        (_, refl, class ∙ ap (λ x. x.class) equal, certainty ∙ ap (λ x. x.certainty) equal, call)
    last_record idempotent attempt_fn clock parent seq k (a ∷ []) fault
          (e, at, inr (may, (v, ok_v, bad))) =
        absurd (cc)
    last_record idempotent attempt_fn clock parent seq k (a ∷ b ∷ later) fault
          (e, at, inl (none_left, same, stop)) =
        absurd (cc)
    last_record idempotent attempt_fn clock parent seq k (a ∷ b ∷ later) fault
          (e, at, inr (may, log)) =
        last_record idempotent attempt_fn clock parent (seq + 1) (k + 1) (b ∷ later) fault log
