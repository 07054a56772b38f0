-- ===== src/Agent/Steps.antt =====
-- The steps that the turns of src/agent.rs add.
use mathlib.Core.List.{append-nil, append_assoc}
use aegis_runtime.Events.{EventEnvelope}
use aegis_runtime.Failure.{FailureRecord}
use aegis_runtime.Agent.{ToolCallItem, ToolExecutionRecord, AgentStep, World, AgentEngine}
use aegis_runtime.Agent.Loop.{Loop, envelopes}
use aegis_runtime.Agent.Records.{
  all_failures, goes_on, Numbered, Numbered-append, BelongsTo, Succeeds, Fails,
}
use aegis_runtime.Agent.Attempts.{AllMatch}
use aegis_runtime.Agent.Calls.{AreCalled, envelopes-append}
use aegis_runtime.Prelude.{
  ℕ, ◌+◌, String, ◌≡◌, ◌⊎◌, refl, sym, ap, ◌∙◌, List, [], ◌∷◌, ◌++◌, Option, none, some, Bool, ◌&&◌,
  all, length, length-append, All, All-append, arith,
}

abbrev pub step_failures : List AgentStep → List FailureRecord
step_failures [] = []
step_failures (st ∷ sts) = all_failures st.tool_calls ++ step_failures sts

-- The steps are numbered one by one from `n + 1`.
abbrev pub Indexed : ℕ → List AgentStep → Type 0
Indexed n [] = Unit
Indexed n (st ∷ sts) = (st.step_index ≡ n + 1) × Indexed (n + 1) sts

-- No call of the steps halted the run.
abbrev pub is_quiet : AgentStep → Bool
is_quiet st = all goes_on st.tool_calls

Indexed-snoc :
    (n : ℕ) (sts : List AgentStep) (st : AgentStep)
    → Indexed n sts
    → st.step_index ≡ n + length sts + 1
    → Indexed n (sts ++ st ∷ [])
Indexed-snoc n [] st h at = (omega (arith, at), tt)
Indexed-snoc n (x ∷ sts) st (e, h) at = (e, Indexed-snoc (n + 1) sts st h (omega (arith, at)))

step_failures-snoc :
    (sts : List AgentStep) (st : AgentStep)
    → step_failures (sts ++ st ∷ []) ≡ step_failures sts ++ all_failures st.tool_calls
step_failures-snoc [] st = append-nil (all_failures st.tool_calls)
step_failures-snoc (x ∷ sts) st =
    ap (λ l. all_failures x.tool_calls ++ l) (step_failures-snoc sts st)
    ∙ sym
        (append_assoc (all_failures x.tool_calls) (step_failures sts) (all_failures st.tool_calls))

pub all-snoc :
    (sts : List AgentStep) (st : AgentStep)
    → all is_quiet (sts ++ st ∷ []) ≡ (all is_quiet sts && is_quiet st)
all-snoc [] st = ground arith
all-snoc (x ∷ sts) st = ground (arith, all-snoc sts st)

module _ (world : World) (engine : AgentEngine) where
  -- The records of a step are of the run and of its turn, each call succeeded or has the record of its
  -- last failed attempt, and the records are those of the attempts which were made at the calls.
  pub record IsKept (st : AgentStep) : Type 0 where
    pub own : All (BelongsTo world engine st.step_index) (all_failures st.tool_calls)
    pub outcomes :
        All
          (λ rec. Succeeds world engine st.step_index rec ⊎ Fails world engine st.step_index rec)
          st.tool_calls
    pub matched : AllMatch world engine st.step_index 0 st.tool_calls

  -- What holds of the steps after a turn.
  pub record AreKept (steps : List AgentStep) (failure_seq : ℕ) (published : List EventEnvelope)
      : Type 0 where
    pub indexed : Indexed 0 steps
    pub kept : All IsKept steps
    pub numbered : Numbered 0 (step_failures steps)
    pub counted : failure_seq ≡ length (step_failures steps)
    pub sent : published ≡ envelopes world engine (step_failures steps)

  pub AreKept-nil : AreKept [] 0 []
  AreKept-nil = record {
    indexed = tt;
    kept = tt;
    numbered = tt;
    counted = refl;
    sent = nothing_sent engine.events refl;
  }
    where
      nothing_sent :
          (o : Option (Option String)) → engine.events ≡ o → [] ≡ envelopes world engine []
      nothing_sent none at = rw at refl
      nothing_sent (some session) at = rw at refl

  -- A turn with tool calls goes on from the steps before it.
  pub AreKept-calls :
      (s : Loop) (steps : List AgentStep) (turn : ℕ) (thought : Option String)
      (tcs : List ToolCallItem) (s' : Loop) (recs : List ToolExecutionRecord)
      (halted : Option String)
      → AreKept steps s.failure_seq s.published
      → length steps ≡ turn
      → AreCalled world engine (turn + 1) 0 s tcs (s', recs, halted)
      → AreKept
          (steps ++ record { step_index = turn + 1; thought = thought; tool_calls = recs } ∷ [])
          s'.failure_seq
          s'.published
  AreKept-calls s steps turn thought tcs s' recs halted k at c =
      let st : AgentStep = record { step_index = turn + 1; thought = thought; tool_calls = recs } in
      record {
        indexed = Indexed-snoc 0 steps st k.indexed (omega (arith, at));
        kept =
            All-append IsKept steps (st ∷ []) k.kept
              (record { own = c.own; outcomes = c.outcomes; matched = c.matched }, tt);
        numbered = rw (step_failures-snoc steps st) (
            Numbered-append 0 s.failure_seq (step_failures steps) (all_failures recs) k.numbered
              (omega (arith, k.counted)) c.numbered);
        counted = rw (step_failures-snoc steps st) (
            omega (
              arith,
              k.counted,
              c.counted,
              length-append (step_failures steps) (all_failures recs),
            ));
        sent = rw (step_failures-snoc steps st) (
            c.sent
            ∙ ap (λ l. l ++ envelopes world engine (all_failures recs)) k.sent
            ∙ sym (
                envelopes-append world engine (turn + 1) (step_failures steps)
                  (all_failures recs)));
      }
