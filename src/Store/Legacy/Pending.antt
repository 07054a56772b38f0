-- ===== src/Store/Legacy/Pending.antt =====
-- The pending tasks of src/persistence/legacy.rs: how many there are with an id, in what order they are
-- listed, and what the calls do to their number.
use aegis_runtime.Json.{Value}
use aegis_runtime.Store.Table.{update_where}
use aegis_runtime.Store.Legacy.{
  TaskRecord, LegacyDatabase, is_pending, with_status, claimable, earlier, list_pending_tasks,
  claim_task, complete_task,
}
use aegis_runtime.Store.Legacy.Tasks.{record_transcript-tasks}
use aegis_runtime.Prelude.{
  put_by, order_by, ℕ, String, ◌≡◌, refl, sym, ◌∙◌, ap, List, [], ◌∷◌, map, Option, some, false,
  str_eq, eq_iff, eq_refl, contains, Distinct, select, length, indicator, ◌==◌, arith, Bool-cases,
  inl, inr, if◌then◌else◌,
}

abbrev pub ids : List TaskRecord → List String
ids ts = map (λ t. t.id) ts

-- The pending rows with an id.
abbrev pub count : String → List TaskRecord → ℕ
count j ts = length (select (claimable j) ts)

count-claim :
    (k j : String) (ts : List TaskRecord)
    → count j (update_where (claimable k) (λ t. with_status t "running") ts)
      ≡ (if str_eq k j then 0 else count j ts)
count-claim k j [] = ground arith
count-claim k j (t ∷ ts) = elim (Bool-cases (claimable k t)) [
  | inl hit ↦
      rw hit (ground (arith, hit, eq_iff t.id k, eq_iff t.id j, eq_iff k j, count-claim k j ts))
  | inr miss ↦
      rw miss (ground (arith, miss, eq_iff t.id k, eq_iff t.id j, eq_iff k j, count-claim k j ts))
]

count_complete :
    (k now result j : String) (ts : List TaskRecord)
    → count j (
        update_where
          (λ t. str_eq t.id k)
          (λ t. record t { status = "completed"; result = some result; completed_at = some now })
          ts)
      ≡ (if str_eq k j then 0 else count j ts)
count_complete k now result j [] = ground arith
count_complete k now result j (t ∷ ts) = elim (Bool-cases (str_eq t.id k)) [
  | inl hit ↦ rw hit (
      ground
        (arith, hit, eq_iff t.id k, eq_iff t.id j, eq_iff k j, count_complete k now result j ts))
  | inr miss ↦ rw miss (
      ground
        (arith, miss, eq_iff t.id k, eq_iff t.id j, eq_iff k j, count_complete k now result j ts))
]

-- A claim succeeds exactly on one pending row with the id, and takes it.
pub claim_task-count :
    (d : LegacyDatabase) (k j : String)
    → ((claim_task d k).1 ≡ (count k d.tasks == 1))
      × (count j (claim_task d k).0.tasks ≡ (if str_eq k j then 0 else count j d.tasks))
unfolding claim_task
claim_task-count d k j = (refl, count-claim k j d.tasks)

pub complete_task-count :
    (line : String → Value → Option String) (d : LegacyDatabase) (now k result j : String)
    → count j (complete_task line d now k result).tasks
      ≡ (if str_eq k j then 0 else count j d.tasks)
unfolding complete_task
complete_task-count line d now k result j =
    rw (record_transcript-tasks line _ _ _) (count_complete k now result j d.tasks)

contains-put_by :
    (r : TaskRecord) (xs : List TaskRecord) (j : String)
    → contains (ids (put_by earlier r xs)) j ≡ contains (ids (r ∷ xs)) j
contains-put_by r [] j = refl
contains-put_by r (x ∷ xs) j = elim (Bool-cases (earlier r x)) [
  | inl before ↦ rw before refl
  | inr after ↦ rw after (ground (arith, contains-put_by r xs j))
]

Distinct-put_by :
    (r : TaskRecord) (xs : List TaskRecord)
    → Distinct (ids (r ∷ xs))
    → Distinct (ids (put_by earlier r xs))
Distinct-put_by r [] h = h
Distinct-put_by r (x ∷ xs) (new, (fresh, more)) = elim (Bool-cases (earlier r x)) [
  | inl before ↦ rw before (new, (fresh, more))
  | inr after ↦ rw after (
    ground (arith, contains-put_by r xs x.id, new, fresh, eq_iff x.id r.id, eq_iff r.id x.id),
    Distinct-put_by r xs (ground (arith, new), more),
  )
]

contains-order_by :
    (ts : List TaskRecord) (j : String)
    → contains (ids (order_by earlier ts)) j ≡ contains (ids ts) j
contains-order_by [] j = refl
contains-order_by (t ∷ ts) j =
    contains-put_by t (order_by earlier ts) j ∙ ground (arith, contains-order_by ts j)

Distinct-order_by :
    (ts : List TaskRecord) → Distinct (ids ts) → Distinct (ids (order_by earlier ts))
Distinct-order_by [] h = tt
Distinct-order_by (t ∷ ts) (new, more) =
    Distinct-put_by t (order_by earlier ts)
      (contains-order_by ts t.id ∙ new, Distinct-order_by ts more)

contains-select :
    (ts : List TaskRecord) (j : String)
    → contains (ids ts) j ≡ false
    → (contains (ids (select is_pending ts)) j ≡ false) × (count j ts ≡ 0)
contains-select [] j h = (refl, refl)
contains-select (t ∷ ts) j h =
    let (out, zero_rows) = contains-select ts j (ground arith) in
    (ground (arith, out), ground (arith, zero_rows))

count-select :
    (ts : List TaskRecord) (j : String)
    → Distinct (ids ts)
    → count j ts ≡ indicator (contains (ids (select is_pending ts)) j)
count-select [] j h = refl
count-select (t ∷ ts) j (new, more) =
    let ih = count-select ts j more in
    let (out, none_left) = contains-select ts t.id new in
    elim (Bool-cases (str_eq t.id j)) [
      | inl same ↦
          let at : t.id ≡ j = (eq_iff t.id j).0 same in
          let out' : contains (ids (select is_pending ts)) j ≡ false = rw (← at) out in
          ground (arith, same, ih, out')
      | inr apart ↦ ground (arith, apart, ih)
    ]

Distinct-select : (ts : List TaskRecord) → Distinct (ids ts) → Distinct (ids (select is_pending ts))
Distinct-select [] h = tt
Distinct-select (t ∷ ts) (new, more) = elim (Bool-cases (is_pending t)) [
  | inl kept ↦ rw kept ((contains-select ts t.id new).0, Distinct-select ts more)
  | inr gone ↦ rw gone (Distinct-select ts more)
]

-- In a table with distinct ids every pending task is listed, once.
pub list_pending_tasks-count :
    (d : LegacyDatabase) (j : String)
    → Distinct (ids d.tasks)
    → count j d.tasks ≡ indicator (contains (ids (list_pending_tasks d)) j)
unfolding list_pending_tasks
list_pending_tasks-count d j h =
    count-select d.tasks j h ∙ ap indicator (sym (contains-order_by (select is_pending d.tasks) j))

pub list_pending_tasks-Distinct :
    (d : LegacyDatabase) → Distinct (ids d.tasks) → Distinct (ids (list_pending_tasks d))
unfolding list_pending_tasks
list_pending_tasks-Distinct d h =
    Distinct-order_by (select is_pending d.tasks) (Distinct-select d.tasks h)

none_pending : (ts : List TaskRecord) → ((j : String) → count j ts ≡ 0) → select is_pending ts ≡ []
none_pending [] h = refl
none_pending (t ∷ ts) h = elim (Bool-cases (is_pending t)) [
  | inl kept ↦ absurd (ground (arith, h t.id, kept, eq_refl t.id))
  | inr gone ↦ rw gone (none_pending ts (λ j. ground (arith, h j, gone)))
]

pub list_pending_tasks-none :
    (d : LegacyDatabase) → ((j : String) → count j d.tasks ≡ 0) → list_pending_tasks d ≡ []
unfolding list_pending_tasks
list_pending_tasks-none d h = rw (none_pending d.tasks h) refl
