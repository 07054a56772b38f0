-- ===== src/Agent/Calls.antt =====
-- The tool calls of one turn in src/agent.rs.
use mathlib.Core.List.{append-nil, append_assoc, map-append}
use aegis_runtime.Failure.{FailureRecord}
use aegis_runtime.Agent.{ToolCallItem, ToolExecutionRecord, World, AgentEngine}
use aegis_runtime.Agent.Loop.{Loop, envelope_of, envelopes, call_tool, call_tools}
use aegis_runtime.Prelude.{
  ℕ, ◌+◌, String, ◌≡◌, ◌⊎◌, refl, sym, ap, ◌∙◌, List, [], ◌∷◌, ◌++◌, map, Option, none, some, true,
  false, all, length, length-append, is_empty, All, All-append, inl, inr, arith,
}
use aegis_runtime.Agent.Records.{
  failures_of, all_failures, goes_on, Numbered, Numbered-append, BelongsTo, Succeeds, Fails,
}
use aegis_runtime.Agent.Attempts.{AllMatch}
use aegis_runtime.Agent.Call.{Called, call_tool-Called}

module _ (world : World) (engine : AgentEngine) (turn : ℕ) where
  -- The calls of a turn halt with the one that a cancel or a pending approval stopped.
  pub record HaltsAt (recs : List ToolExecutionRecord) (halted : Option String) : Type 0 where
    pub reason : String
    pub before : List ToolExecutionRecord
    pub last : ToolExecutionRecord
    pub split : recs ≡ before ++ last ∷ []
    pub told : halted ≡ some reason
    pub text : is_empty reason ≡ false
    pub quiet : all goes_on before ≡ true
    pub loud : goes_on last ≡ false

  abbrev pub ids_of : List ToolExecutionRecord → List String
  ids_of recs = map (λ r. r.call_id) recs

  -- What the calls of a turn add.
  pub record AreCalled (call : ℕ) (s : Loop) (tcs : List ToolCallItem)
      (r : Loop × List ToolExecutionRecord × Option String) : Type 0 where
    pub numbered : Numbered s.failure_seq (all_failures r.1)
    pub own : All (BelongsTo world engine turn) (all_failures r.1)
    pub counted : r.0.failure_seq ≡ s.failure_seq + length (all_failures r.1)
    pub sent : r.0.published ≡ s.published ++ envelopes world engine (all_failures r.1)
    pub outcomes : All (λ rec. Succeeds world engine turn rec ⊎ Fails world engine turn rec) r.1
    pub matched : AllMatch world engine turn call r.1
    pub made : (skipped : List String) × (map (λ t. t.id) tcs ≡ ids_of r.1 ++ skipped)
    pub halt :
        (r.2 ≡ none) × (all goes_on r.1 ≡ true) × (ids_of r.1 ≡ map (λ t. t.id) tcs)
        ⊎ HaltsAt r.1 r.2

  pub envelopes-append :
      (fs gs : List FailureRecord)
      → envelopes world engine (fs ++ gs) ≡ envelopes world engine fs ++ envelopes world engine gs
  envelopes-append fs gs = by_events engine.events refl
    where
      by_events :
          (o : Option (Option String))
          → engine.events ≡ o
          → envelopes world engine (fs ++ gs)
            ≡ envelopes world engine fs ++ envelopes world engine gs
      by_events none at = rw at refl
      by_events (some session) at = rw at (map-append (envelope_of world engine session) fs gs)

  -- One call, then the others.
  AreCalled-cons :
      (call : ℕ) (s : Loop) (tc : ToolCallItem) (tcs : List ToolCallItem) (s' s'' : Loop)
      (rec : ToolExecutionRecord) (recs : List ToolExecutionRecord) (first halted : Option String)
      → Called world engine turn call s tc (s', rec, first)
      → goes_on rec ≡ true
      → AreCalled (call + 1) s' tcs (s'', recs, halted)
      → AreCalled call s (tc ∷ tcs) (s'', rec ∷ recs, halted)
  AreCalled-cons call s tc tcs s' s'' rec recs first halted c go later = record {
    numbered =
        Numbered-append s.failure_seq s'.failure_seq (failures_of rec) (all_failures recs)
          c.numbered c.counted later.numbered;
    own =
        All-append (BelongsTo world engine turn) (failures_of rec) (all_failures recs) c.own
          later.own;
    counted =
        omega
          (arith, c.counted, later.counted, length-append (failures_of rec) (all_failures recs));
    sent =
        later.sent
        ∙ ap (λ l. l ++ envelopes world engine (all_failures recs)) c.sent
        ∙ append_assoc s.published (envelopes world engine (failures_of rec))
            (envelopes world engine (all_failures recs))
        ∙ ap (λ l. s.published ++ l) (sym (envelopes-append (failures_of rec) (all_failures recs)));
    outcomes = (c.outcome, later.outcomes);
    matched = (c.matched, later.matched);
    made = (later.made.0, rw c.id (ap (λ l. tc.id ∷ l) later.made.1));
    halt = elim later.halt [
      | inl (none_halted, quiet, same) ↦
          inl (none_halted, ground (arith, go, quiet), rw c.id (ap (λ l. tc.id ∷ l) same))
      | inr h ↦ inr (record {
        reason = h.reason;
        before = rec ∷ h.before;
        last = h.last;
        split = ap (λ l. rec ∷ l) h.split;
        told = h.told;
        text = h.text;
        quiet = ground (arith, go, h.quiet);
        loud = h.loud;
      })
    ];
  }

  -- The call that halts the run is the last.
  AreCalled-halt :
      (call : ℕ) (s : Loop) (tc : ToolCallItem) (tcs : List ToolCallItem) (s' : Loop)
      (rec : ToolExecutionRecord) (reason : String)
      → Called world engine turn call s tc (s', rec, some reason)
      → AreCalled call s (tc ∷ tcs) (s', rec ∷ [], some reason)
  AreCalled-halt call s tc tcs s' rec reason c = record {
    numbered = rw (append-nil (failures_of rec)) c.numbered;
    own = rw (append-nil (failures_of rec)) c.own;
    counted = rw (append-nil (failures_of rec)) c.counted;
    sent = rw (append-nil (failures_of rec)) c.sent;
    outcomes = (c.outcome, tt);
    matched = (c.matched, tt);
    made = (map (λ t. t.id) tcs, rw c.id refl);
    halt = elim c.halt [
      | inl (go, quiet) ↦ absurd (cc)
      | inr (why, stop, text, loud) ↦ inr (record {
        reason = why;
        before = [];
        last = rec;
        split = refl;
        told = stop;
        text = text;
        quiet = refl;
        loud = loud;
      })
    ];
  }

  abbrev Runs : ℕ → Loop → List ToolCallItem → Type 0
  Runs call s tcs =
      (r : Loop × List ToolExecutionRecord × Option String) × (call_tools world engine turn call s
          tcs
        ≡ some r)
      × AreCalled call s tcs r

  one_more :
      (call : ℕ) (s : Loop) (tc : ToolCallItem) (tcs : List ToolCallItem)
      (r : Loop × ToolExecutionRecord × Option String)
      → call_tool world engine turn call s tc ≡ some r
      → Called world engine turn call s tc r
      → Runs (call + 1) (r.0) tcs
      → Runs call s (tc ∷ tcs)
  unfolding call_tools
  one_more call s tc tcs (s', rec, some reason) at c later = (
    (s', rec ∷ [], some reason),
    rw (at, call_tools) refl,
    AreCalled-halt call s tc tcs s' rec reason c,
  )
  one_more call s tc tcs (s', rec, none) at c ((s'', recs, halted), runs, more) = (
    (s'', rec ∷ recs, halted),
    rw (at, call_tools) (rw (runs, call_tools) refl),
    AreCalled-cons call s tc tcs s' s'' rec recs none halted c (going c.halt) more,
  )
    where
      going :
          (◌≡◌ {A = Option String} none none) × (goes_on rec ≡ true)
            ⊎ ((reason : String) × (none ≡ some reason)
                × (is_empty reason ≡ false)
                × (goes_on rec ≡ false))
          → goes_on rec ≡ true
      going (inl (e, go)) = go
      going (inr (why, stop, text, loud)) = absurd (cc)

  pub AreCalled-nil : (call : ℕ) (s : Loop) → AreCalled call s [] (s, [], none)
  AreCalled-nil call s = record {
    numbered = tt;
    own = tt;
    counted = omega arith;
    sent = nothing_sent engine.events refl;
    outcomes = tt;
    matched = tt;
    made = ([], refl);
    halt = inl (refl, refl, refl);
  }
    where
      nothing_sent :
          (o : Option (Option String))
          → engine.events ≡ o
          → s.published ≡ s.published ++ envelopes world engine []
      nothing_sent none at = rw at (sym (append-nil s.published))
      nothing_sent (some session) at = rw at (sym (append-nil s.published))

  -- Whatever the dispatcher, the clock and the token do, the calls of a turn come to an end.
  pub call_tools-AreCalled : (call : ℕ) (s : Loop) (tcs : List ToolCallItem) → Runs call s tcs
  unfolding call_tools
  call_tools-AreCalled call s [] = ((s, [], none), refl, AreCalled-nil call s)
  call_tools-AreCalled call s (tc ∷ tcs) =
      let (r, at, c) = call_tool-Called world engine turn call s tc in
      one_more call s tc tcs r at c (call_tools-AreCalled (call + 1) (r.0) tcs)
