-- ===== src/Failure/Causes.antt =====
-- The bounds on the causes of a failure record of src/failure.rs.
use native.Mathlib.Nat.{zero-add}
use mathlib.Core.List.{append-nil, append_assoc}
use aegis_runtime.Json.{Value}
use aegis_runtime.Failure.Record.{
  Hashing, FailureRecord, CauseEntry, cause_entry, push_cause, max_cause_entries,
}
use aegis_runtime.Failure.Truncation.{byte_len-truncate_bytes}
use aegis_runtime.Prelude.{
  suc, ◌+◌, ◌-◌, ◌≤◌, String, ◌≡◌, refl, ap, ◌∙◌, Bool-cases, inl, inr, leb, leb→le, List, [], ◌∷◌,
  ◌++◌, Option, true, false, ltb, arith, length, length-append, take-nil, map, All, byte_len, take,
  ◌||◌,
}

-- One call of `push_cause`: its source, message and payload.
pub record Push : Type 0 where
  pub source : String
  pub message : String
  pub payload : Option Value

module _ (h : Hashing) where
  abbrev pub entry : Push → CauseEntry
  entry p = cause_entry h p.source p.message p.payload

  pub push_all : FailureRecord → List Push → FailureRecord
  push_all r [] = r
  push_all r (p ∷ ps) = push_all (push_cause h r p.source p.message p.payload) ps

  module _ (r : FailureRecord) (p : Push) where
    push_cause-full :
        leb max_cause_entries (length r.cause) ≡ true
        → push_cause h r p.source p.message p.payload ≡ record r { cause_truncated = true }
    unfolding push_cause
    push_cause-full e = rw e

    push_cause-room :
        leb max_cause_entries (length r.cause) ≡ false
        → push_cause h r p.source p.message p.payload ≡ record r { cause = r.cause ++ entry p ∷ [] }
    unfolding push_cause
    push_cause-room e = rw e

  push_all-cause :
      (r : FailureRecord) (ps : List Push)
      → length r.cause ≤ 8
      → (push_all r ps).cause ≡ r.cause ++ map entry (take (8 - length r.cause) ps)
  unfolding push_all
  push_all-cause r [] le = rw (take-nil, append-nil)
  push_all-cause r (p ∷ ps) le = elim (Bool-cases (leb 8 (length r.cause))) [
    | inl full ↦
        let none_left : 8 - length r.cause ≡ 0 = omega (arith, leb→le _ _ full) in
        rw (push_cause-full r p full, push_all)
          (push_all-cause (record r { cause_truncated = true }) ps le ∙ rw none_left refl)
    | inr room ↦
        let longer : length (r.cause ++ entry p ∷ []) ≡ suc (length r.cause) =
          omega (arith, length-append r.cause (entry p ∷ [])) in
        let left : 8 - length r.cause ≡ suc (8 - suc (length r.cause)) = ground arith in
        rw (push_cause-room r p room, push_all)
          (push_all-cause (record r { cause = r.cause ++ entry p ∷ [] }) ps (ground (arith, longer))
            ∙ rw (longer, left) (append_assoc r.cause (entry p ∷ []) _))
  ]

  push_all-cause_truncated :
      (r : FailureRecord) (ps : List Push)
      → length r.cause ≤ 8
      → (push_all r ps).cause_truncated ≡ (r.cause_truncated || ltb 8 (length r.cause + length ps))
  unfolding push_all
  push_all-cause_truncated r [] le = ground arith
  push_all-cause_truncated r (p ∷ ps) le = elim (Bool-cases (leb 8 (length r.cause))) [
    | inl full ↦
        rw (push_cause-full r p full, push_all)
          (push_all-cause_truncated (record r { cause_truncated = true }) ps le ∙ ground arith)
    | inr room ↦
        let longer = length-append r.cause (entry p ∷ []) in
        rw (push_cause-room r p room, push_all)
          (push_all-cause_truncated (record r { cause = r.cause ++ entry p ∷ [] }) ps
              (ground (arith, longer))
            ∙ ground (arith, longer))
  ]

  -- Whatever is pushed onto a record without causes, its causes are the entries of the first eight
  -- pushes in order, `cause_truncated` tells exactly whether there were more (or was set before),
  -- and no message has more than 512 bytes.
  pub push_all_lem :
      (r : FailureRecord) (ps : List Push)
      → r.cause ≡ []
      → ((push_all r ps).cause ≡ map entry (take 8 ps))
        × ((push_all r ps).cause_truncated ≡ (r.cause_truncated || ltb 8 (length ps)))
        × All (λ c. byte_len c.message ≤ 512) (push_all r ps).cause
  push_all_lem r ps none_yet =
      let start : length r.cause ≤ 8 = omega (arith, ap length none_yet) in
      let causes : (push_all r ps).cause ≡ map entry (take 8 ps) =
        push_all-cause r ps start ∙ rw none_yet refl in
      (
        causes,
        push_all-cause_truncated r ps start ∙ rw none_yet (rw zero-add),
        rw causes (short (take 8 ps)),
      )
    where
      short : (qs : List Push) → All (λ c. byte_len c.message ≤ 512) (map entry qs)
      short [] = tt
      short (q ∷ qs) = (byte_len-truncate_bytes q.message 512, short qs)
