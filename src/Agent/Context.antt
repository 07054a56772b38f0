-- ===== src/Agent/Context.antt =====
-- `prune_context_window` of src/agent.rs.
use aegis_runtime.Json.{Value}
use aegis_runtime.Agent.{estimate_tokens, prune_loop, prune_context_window}
use aegis_runtime.Prelude.{
  ℕ, zero, suc, ◌<◌, ◌≤◌, ◌≡◌, ◌⊎◌, refl, String, List, [], ◌∷◌, Option, Bool, ltb, ltb→lt, drop,
  length, Bool-cases, inl, inr, arith,
}

module _ (to_string : Value → Option String) (token_budget : ℕ) (first second : Value) where
  -- The oldest messages behind the first two are dropped, as few as make the rest fit.
  pub record IsPruned (ms : List Value) (r : List Value × Bool) : Type 0 where
    pub dropped : ℕ
    pub within : dropped ≤ length ms
    pub rest : r.0 ≡ first ∷ second ∷ drop dropped ms
    pub told : r.1 ≡ ltb 0 dropped
    pub fits : (estimate_tokens to_string r.0 ≤ token_budget) ⊎ (drop dropped ms ≡ [])
    pub needed :
        (i : ℕ)
        → i < dropped
        → token_budget < estimate_tokens to_string (first ∷ second ∷ drop i ms)

  needed_next :
      (m : Value) (ms : List Value)
      → token_budget < estimate_tokens to_string (first ∷ second ∷ m ∷ ms)
      → (k : ℕ)
      → ((i : ℕ) → i < k → token_budget < estimate_tokens to_string (first ∷ second ∷ drop i ms))
      → (i : ℕ) → i < suc k
      → token_budget < estimate_tokens to_string (first ∷ second ∷ drop i (m ∷ ms))
  needed_next m ms over k need zero lt = over
  needed_next m ms over k need (suc i) lt = need i (omega (arith, lt))

  prune_loop-IsPruned :
      (ms : List Value) → IsPruned ms (prune_loop to_string token_budget first second ms)
  unfolding prune_loop
  prune_loop-IsPruned [] = record {
    dropped = 0;
    within = omega arith;
    rest = refl;
    told = refl;
    fits = inr refl;
    needed = λ i lt. absurd (omega arith);
  }
  prune_loop-IsPruned (m ∷ ms) =
      elim (Bool-cases (ltb token_budget (estimate_tokens to_string (first ∷ second ∷ m ∷ ms)))) [
        | inr fine ↦ rw fine (record {
          dropped = 0;
          within = omega arith;
          rest = refl;
          told = refl;
          fits = inl (ground (arith, fine));
          needed = λ i lt. absurd (omega arith);
        })
        | inl over ↦
            let p = prune_loop-IsPruned ms in
            rw over (record {
              dropped = suc p.dropped;
              within = omega (arith, p.within);
              rest = p.rest;
              told = ground arith;
              fits = p.fits;
              needed = needed_next m ms (ltb→lt _ _ over) p.dropped p.needed;
            })
      ]

  -- Pruning a window of two messages or more keeps the first two and drops the oldest of the others, as
  -- few of them as make the estimate fit the budget, or all; it tells whether it dropped any.
  pub prune_context_window-IsPruned :
      (ms : List Value)
      → IsPruned ms (prune_context_window to_string (first ∷ second ∷ ms) token_budget)
  unfolding prune_context_window
  prune_context_window-IsPruned ms = prune_loop-IsPruned ms
