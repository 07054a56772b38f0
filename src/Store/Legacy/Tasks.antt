-- ===== src/Store/Legacy/Tasks.antt =====
-- What the calls of src/persistence/legacy.rs do to the queue of tasks.
use aegis_runtime.Json.{Value}
use aegis_runtime.Store.Database.{SqlError}
use aegis_runtime.Store.Legacy.{
  TaskRecord, PulseReceipt, LegacyDatabase, with_status, claimable, new_task, record_transcript,
  record_heartbeat_tick, create_task, claim_task, complete_task, store_crumb,
}
use aegis_runtime.Prelude.{
  ◌<◌, String, ◌≡◌, refl, sym, ◌∙◌, ap, List, [], ◌∷◌, ◌++◌, map, Option, some, Bool, true, false,
  ◌||◌, Result, ok, err, str_eq, eq_iff, any, select, length, arith, Bool-cases, Option-cases, inl,
  inr, if◌then◌else◌,
}

abbrev pub has_id : String → TaskRecord → Bool
has_id id t = str_eq t.id id

module _ (line : String → Value → Option String) where
  pub record_transcript-tasks :
      (d : LegacyDatabase) (event_type : String) (v : Value)
      → (record_transcript line d event_type v).tasks ≡ d.tasks
  unfolding record_transcript
  record_transcript-tasks d event_type v = elim (Option-cases d.transcript) [
    | inl e ↦ ground (arith, e)
    | inr (written, e) ↦ elim (Option-cases (line event_type v)) [
      | inl f ↦ ground (arith, e, f)
      | inr (l, f) ↦ ground (arith, e, f)
    ]
  ]

  pub store_crumb-tasks :
      (d : LegacyDatabase) (now key value namespace : String)
      → (store_crumb line d now key value namespace).tasks ≡ d.tasks
  unfolding store_crumb
  store_crumb-tasks d now key value namespace = record_transcript-tasks _ _ _

  pub record_heartbeat_tick-tasks :
      (d : LegacyDatabase) (receipt : PulseReceipt)
      → (record_heartbeat_tick line d receipt).tasks ≡ d.tasks
  unfolding record_heartbeat_tick
  record_heartbeat_tick-tasks d receipt = record_transcript-tasks _ _ _

claim_one : String → TaskRecord → TaskRecord
claim_one k t = if claimable k t then with_status t "running" else t

claim_one_lem :
    (k j : String) (t : TaskRecord)
    → (claimable j (claim_one k t) ≡ (if str_eq k j then false else claimable j t))
      × (has_id j (claim_one k t) ≡ has_id j t)
unfolding claim_one
claim_one_lem k j t = elim (Bool-cases (claimable k t)) [
  | inl hit ↦ rw hit (ground (arith, hit, eq_iff t.id k, eq_iff t.id j, eq_iff k j), refl)
  | inr miss ↦ rw miss (ground (arith, miss, eq_iff t.id k, eq_iff t.id j, eq_iff k j), refl)
]

any-claim :
    (k j : String) (ts : List TaskRecord)
    → (any (claimable j) (map (claim_one k) ts)
        ≡ (if str_eq k j then false else any (claimable j) ts))
      × (any (has_id j) (map (claim_one k) ts) ≡ any (has_id j) ts)
any-claim k j [] = (ground arith, refl)
any-claim k j (t ∷ ts) =
    let (one, same) = claim_one_lem k j t in
    let (more, rest) = any-claim k j ts in (rw (one, more) (ground arith), rw (same, rest) refl)

complete_one : String → String → String → TaskRecord → TaskRecord
complete_one k now result t =
    if str_eq t.id k
    then record t { status = "completed"; result = some result; completed_at = some now }
    else t

complete_one_lem :
    (k now result j : String) (t : TaskRecord)
    → (claimable j (complete_one k now result t) ≡ (if str_eq k j then false else claimable j t))
      × (has_id j (complete_one k now result t) ≡ has_id j t)
unfolding complete_one
complete_one_lem k now result j t = elim (Bool-cases (str_eq t.id k)) [
  | inl hit ↦ rw hit (ground (arith, hit, eq_iff t.id k, eq_iff t.id j, eq_iff k j), refl)
  | inr miss ↦ rw miss (ground (arith, miss, eq_iff t.id k, eq_iff t.id j, eq_iff k j), refl)
]

any_complete :
    (k now result j : String) (ts : List TaskRecord)
    → (any (claimable j) (map (complete_one k now result) ts)
        ≡ (if str_eq k j then false else any (claimable j) ts))
      × (any (has_id j) (map (complete_one k now result) ts) ≡ any (has_id j) ts)
any_complete k now result j [] = (ground arith, refl)
any_complete k now result j (t ∷ ts) =
    let (one, same) = complete_one_lem k now result j t in
    let (more, rest) = any_complete k now result j ts in
    (rw (one, more) (ground arith), rw (same, rest) refl)

-- A claim leaves no pending task with the id, and no other task changes its standing.
pub claim_task_lem :
    (d : LegacyDatabase) (k j : String)
    → (any (claimable j) (claim_task d k).0.tasks
        ≡ (if str_eq k j then false else any (claimable j) d.tasks))
      × (any (has_id j) (claim_task d k).0.tasks ≡ any (has_id j) d.tasks)
unfolding claim_task claim_one
claim_task_lem d k j = any-claim k j d.tasks

any-of-select :
    (p : TaskRecord → Bool) (ts : List TaskRecord) → 0 < length (select p ts) → any p ts ≡ true
any-of-select p [] h = absurd (omega arith)
any-of-select p (t ∷ ts) h = ground (arith, any-of-select p ts)

any-claimable-has_id :
    (k : String) (ts : List TaskRecord) → any (claimable k) ts ≡ true → any (has_id k) ts ≡ true
any-claimable-has_id k [] h = absurd (cc)
any-claimable-has_id k (t ∷ ts) h = ground (arith, any-claimable-has_id k ts)

-- A claim that succeeds found a pending task with the id.
pub claim_task-true :
    (d : LegacyDatabase) (k : String)
    → (claim_task d k).1 ≡ true
    → (any (claimable k) d.tasks ≡ true) × (any (has_id k) d.tasks ≡ true)
unfolding claim_task
claim_task-true d k h =
    let some_row = any-of-select (claimable k) d.tasks (ground arith) in
    (some_row, any-claimable-has_id k d.tasks some_row)

module _ (line : String → Value → Option String) where
  pub complete_task_lem :
      (d : LegacyDatabase) (now k result j : String)
      → (any (claimable j) (complete_task line d now k result).tasks
          ≡ (if str_eq k j then false else any (claimable j) d.tasks))
        × (any (has_id j) (complete_task line d now k result).tasks ≡ any (has_id j) d.tasks)
  unfolding complete_task complete_one
  complete_task_lem d now k result j =
      rw (record_transcript-tasks line _ _ _) (any_complete k now result j d.tasks)

  any-snoc :
      (p : TaskRecord → Bool) (ts : List TaskRecord) (t : TaskRecord)
      → any p (ts ++ t ∷ []) ≡ (any p ts || p t)
  any-snoc p [] t = ground arith
  any-snoc p (x ∷ xs) t = ground (arith, any-snoc p xs t)

  abbrev tasks_of : Result SqlError LegacyDatabase → List TaskRecord
  tasks_of (ok d) = d.tasks
  tasks_of (err e) = []

  -- A task that was queued had an id of its own, and is pending.
  pub create_task_lem :
      (d d' : LegacyDatabase) (now id task_type payload : String)
      → create_task line d now id task_type payload ≡ ok d'
      → (any (has_id id) d.tasks ≡ false)
        × ((j : String) → any (claimable j) d'.tasks ≡ (any (claimable j) d.tasks || str_eq id j))
        × ((j : String) → any (has_id j) d'.tasks ≡ (any (has_id j) d.tasks || str_eq id j))
  unfolding create_task
  create_task_lem d d' now id task_type payload h = elim (Bool-cases (any (has_id id) d.tasks)) [
    | inl taken ↦ absurd (cc (rw taken at h))
    | inr free ↦
        let row = new_task now id task_type payload in
        let tasks : d'.tasks ≡ d.tasks ++ row ∷ [] =
          sym (ap tasks_of (rw free at h)) ∙ record_transcript-tasks line _ _ _ in
        (
          free,
          λ j. rw tasks (any-snoc (claimable j) d.tasks row ∙ ground arith),
          λ j. rw tasks (any-snoc (has_id j) d.tasks row),
        )
  ]
