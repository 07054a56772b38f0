-- ===== src/Heartbeat/Queue.antt =====
-- What the calls of src/heartbeat.rs on the queue do to the tasks that were begun.
use aegis_runtime.Store.Legacy.{
  TaskRecord, LegacyDatabase, claimable, claim_task, complete_task, create_task,
}
use aegis_runtime.Store.Legacy.Tasks.{
  has_id, claim_task_lem, claim_task-true, complete_task_lem, create_task_lem,
}
use aegis_runtime.Heartbeat.{Env, Engine, start_loop, queued}
use aegis_runtime.Prelude.{
  String, ◌≡◌, ◌∙◌, List, [], ◌∷◌, ◌++◌, true, false, Result, ok, err, str_eq, eq_iff, any,
  contains, Distinct, Distinct-snoc, contains-snoc, indicator, arith, Bool-cases, inl, inr,
}

-- The tasks that were begun are all different, are in the table, and are no longer pending.
pub record IsOnce (dispatched : List String) (tasks : List TaskRecord) : Type 0 where
  pub distinct : Distinct dispatched
  pub closed : (id : String) → contains dispatched id ≡ true → any (claimable id) tasks ≡ false
  pub kept : (id : String) → contains dispatched id ≡ true → any (has_id id) tasks ≡ true

pub claim-IsOnce :
    (d : LegacyDatabase) (dispatched : List String) (k : String)
    → IsOnce dispatched d.tasks
    → IsOnce dispatched (claim_task d k).0.tasks
claim-IsOnce d dispatched k o = record {
  distinct = o.distinct;
  closed = λ id h. ground (arith, (claim_task_lem d k id).0, o.closed id h);
  kept = λ id h. (claim_task_lem d k id).1 ∙ o.kept id h;
}

pub claim-IsOnce_snoc :
    (d : LegacyDatabase) (dispatched : List String) (k : String)
    → IsOnce dispatched d.tasks
    → (claim_task d k).1 ≡ true
    → IsOnce (dispatched ++ k ∷ []) (claim_task d k).0.tasks
claim-IsOnce_snoc d dispatched k o won =
    let (was_pending, there_is) = claim_task-true d k won in
    let fresh : contains dispatched k ≡ false = elim (Bool-cases (contains dispatched k)) [
      | inl begun ↦ absurd (cc (o.closed k begun, was_pending))
      | inr new_one ↦ new_one
    ] in
    record {
      distinct = Distinct-snoc dispatched k o.distinct fresh;
      closed = λ id h. elim (Bool-cases (contains dispatched id)) [
        | inl begun ↦ ground (arith, (claim_task_lem d k id).0, o.closed id begun)
        | inr apart ↦ ground (arith, (claim_task_lem d k id).0, contains-snoc dispatched k id)
      ];
      kept = λ id h. elim (Bool-cases (contains dispatched id)) [
        | inl begun ↦ (claim_task_lem d k id).1 ∙ o.kept id begun
        | inr apart ↦
            let same : k ≡ id =
              (eq_iff k id).0 (ground (arith, apart, contains-snoc dispatched k id)) in
            (claim_task_lem d k id).1 ∙ rw (← same) there_is
      ];
    }

pub start_loop_lem :
    (e : Engine)
    → e.loops ≡ indicator e.is_running
    → ((start_loop e).dispatched ≡ e.dispatched)
      × ((start_loop e).db.tasks ≡ e.db.tasks)
      × ((start_loop e).loops ≡ indicator (start_loop e).is_running)
unfolding start_loop
start_loop_lem e single = elim (Bool-cases e.is_running) [
  | inl going ↦ (ground (arith, going), ground (arith, going), ground (arith, going, single))
  | inr still ↦ (ground (arith, still), ground (arith, still), ground (arith, still, single))
]

module _ (env : Env) where
  pub complete-IsOnce :
      (d : LegacyDatabase) (dispatched : List String) (now k result : String)
      → IsOnce dispatched d.tasks
      → IsOnce dispatched (complete_task env.line d now k result).tasks
  complete-IsOnce d dispatched now k result o = record {
    distinct = o.distinct;
    closed =
        λ id h. ground (arith, (complete_task_lem env.line d now k result id).0, o.closed id h);
    kept = λ id h. (complete_task_lem env.line d now k result id).1 ∙ o.kept id h;
  }

  pub queued-IsOnce :
      (e : Engine) (r : Result _ LegacyDatabase) (now id task_type payload : String)
      → create_task env.line e.db now id task_type payload ≡ r
      → IsOnce e.dispatched e.db.tasks
      → IsOnce (queued e r).dispatched (queued e r).db.tasks
  queued-IsOnce e (err x) now id task_type payload at o = o
  queued-IsOnce e (ok d) now id task_type payload at o =
      let (free, pending, ids) = create_task_lem env.line e.db d now id task_type payload at in
      record {
        distinct = o.distinct;
        closed = λ j h. elim (Bool-cases (str_eq id j)) [
          | inl same ↦ absurd (cc (rw ((eq_iff id j).0 same) at free, o.kept j h))
          | inr apart ↦ ground (arith, pending j, apart, o.closed j h)
        ];
        kept = λ j h. ground (arith, ids j, o.kept j h);
      }
