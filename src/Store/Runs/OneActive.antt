-- ===== src/Store/Runs/OneActive.antt =====
-- One active run for each session, in src/persistence/sqlite/runs.rs.
use mathlib.Core.Path.{subst}
use aegis_runtime.Records.Run.{Run, as_str}
use aegis_runtime.Store.Database.{Serde, RunRow, Database, has_session, has_run}
use aegis_runtime.Store.Table.{update_where}
use aegis_runtime.Store.Runs.{active_state, active_in, run_row, set_run, create, update}
use aegis_runtime.Prelude.{
  All, ℕ, ◌+◌, ◌≤◌, String, ◌≡◌, refl, List, [], ◌∷◌, ◌++◌, none, true, false, ok, str_eq, eq_iff,
  find, arith, indicator, Bool-cases, Option-cases, inl, inr,
}

-- `SELECT COUNT(*)` of the active runs of a session.
abbrev pub active_count : String → List RunRow → ℕ
active_count session_id [] = 0
active_count session_id (r ∷ rs) = indicator (active_in session_id r) + active_count session_id rs

abbrev pub HasOneActive : Database → Type 0
HasOneActive d = (session_id : String) → active_count session_id d.runs ≤ 1

count-snoc :
    (id : String) (rs : List RunRow) (r : RunRow)
    → active_count id (rs ++ r ∷ []) ≡ active_count id rs + indicator (active_in id r)
count-snoc id [] r = omega arith
count-snoc id (x ∷ rs) r = omega (arith, count-snoc id rs r)

count-none :
    (id : String) (rs : List RunRow) → find (active_in id) rs ≡ none → active_count id rs ≡ 0
count-none id [] h = refl
count-none id (x ∷ rs) h = ground (arith, count-none id rs)

other-inactive :
    (r : RunRow) (id : String) → str_eq r.session_id id ≡ false → active_in id r ≡ false
other-inactive r id h = ground (arith, h)

-- What a successful `create` found and made.
pub record Created (serde : Serde) (d e : Database) (run : Run) : Type 0 where
  pub idle : find (active_in run.session_id) d.runs ≡ none
  pub fresh : has_run d run.id ≡ false
  pub known : has_session d run.session_id ≡ true
  pub made : e ≡ record d { runs = d.runs ++ run_row serde run ∷ [] }

module _ (serde : Serde) where
  pub create-Created :
      (d e : Database) (run : Run) → create serde d run ≡ ok e → Created serde d e run
  unfolding create
  create-Created d e run h = elim (Option-cases (find (active_in run.session_id) d.runs)) [
    | inr (row, found) ↦ absurd (ground (arith, found))
    | inl idle ↦ elim (Bool-cases (has_run d run.id)) [
      | inl twice ↦ absurd (ground (arith, idle, twice))
      | inr fresh ↦ elim (Bool-cases (has_session d run.session_id)) [
        | inr unknown ↦ absurd (ground (arith, idle, fresh, unknown))
        | inl known ↦ record {
          idle = idle;
          fresh = fresh;
          known = known;
          made = ground (arith, idle, fresh, known);
        }
      ]
    ]
  ]

  -- If each session has one active run at most, then it does after a run is created, whatever the run.
  create-HasOneActive :
      (d e : Database) (run : Run) → HasOneActive d → create serde d run ≡ ok e → HasOneActive e
  create-HasOneActive d e run one h id =
      let c = create-Created d e run h in
      let row = run_row serde run in
      let count : active_count id e.runs ≡ active_count id d.runs + indicator (active_in id row) =
        rw c.made (count-snoc id d.runs row) in
      elim (Bool-cases (str_eq run.session_id id)) [
        | inl same ↦
            let none_yet : active_count id d.runs ≡ 0 =
              subst (λ x. active_count x d.runs ≡ 0) ((eq_iff run.session_id id).0 same)
                (count-none run.session_id d.runs c.idle) in
            ground (arith, count, none_yet)
        | inr other ↦ ground (arith, count, one id, other-inactive row id other)
      ]

  -- No row is made active that was not.
  abbrev pub WakesNone : Database → Run → Type 0
  WakesNone d run =
      active_state (as_str run.state) ≡ true
      → All (λ (r : RunRow). str_eq r.id run.id ≡ true → active_state r.state ≡ true) d.runs

  count-update :
      (run : Run) (id : String) (rs : List RunRow)
      → (active_state (as_str run.state) ≡ true
          → All (λ (r : RunRow). str_eq r.id run.id ≡ true → active_state r.state ≡ true) rs)
      → active_count id (update_where (λ r. str_eq r.id run.id) (set_run serde run) rs)
        ≤ active_count id rs
  count-update run id [] w = omega arith
  count-update run id (r ∷ rs) w =
      let rest = count-update run id rs (λ a. (w a).1) in
      elim (Bool-cases (str_eq r.id run.id)) [
        | inr other ↦ ground (arith, other, rest)
        | inl same ↦ elim (Bool-cases (active_state (as_str run.state))) [
          | inl a ↦ ground (arith, same, a, (w a).0 same, rest)
          | inr a ↦ ground (arith, same, a, rest)
        ]
      ]

  -- If each session has one active run at most, then it does after an update that does not put a run
  -- which is over back into an active state.
  update-HasOneActive :
      (d e : Database) (run : Run)
      → HasOneActive d
      → WakesNone d run
      → update serde d run ≡ ok e
      → HasOneActive e
  unfolding update
  update-HasOneActive d e run one w h id = elim (Bool-cases (has_run d run.id)) [
    | inr missing ↦ absurd (ground (arith, missing))
    | inl found ↦
        let made : e ≡ record d {
          runs = update_where (λ r. str_eq r.id run.id) (set_run serde run) d.runs;
        } =
          ground (arith, found) in
        rw made (omega (arith, count-update run id d.runs w, one id))
  ]

  -- Successful writes of the run store, one after the other. An update puts no run which is over back
  -- into an active state.
  pub data RunWrites : Database → Database → Type 0 where
    unwritten : {d : Database} → RunWrites d d
    then_create :
        {d e : Database} (run : Run) {f : Database}
        → RunWrites d e
        → create serde e run ≡ ok f
        → RunWrites d f
    then_update :
        {d e : Database} (run : Run) {f : Database}
        → RunWrites d e
        → WakesNone e run
        → update serde e run ≡ ok f
        → RunWrites d f

  -- If each session has one active run at most, then it does after any sequence of successful creations
  -- of runs, whatever the runs, and of successful updates that wake no run which is over.
  pub RunWrites-HasOneActive : (d e : Database) → HasOneActive d → RunWrites d e → HasOneActive e
  RunWrites-HasOneActive d e one unwritten = one
  RunWrites-HasOneActive d e one (then_create run ws h) =
      create-HasOneActive _ e run (RunWrites-HasOneActive d _ one ws) h
  RunWrites-HasOneActive d e one (then_update run ws w h) =
      update-HasOneActive _ e run (RunWrites-HasOneActive d _ one ws) w h
