-- ===== src/Store/Runs/Contract.antt =====
-- What the run store of src/persistence/sqlite/runs.rs gives back of what it was given.
use mathlib.Core.Path.{subst}
use aegis_runtime.Records.Run.{Run, as_str, Trigger}
use aegis_runtime.Records.RoundTrips.{run_iff}
use aegis_runtime.Store.Database.{Serde, RunRow, Database, decode_optional, encode_optional}
use aegis_runtime.Store.Table.{update_where}
use aegis_runtime.Store.Table.Laws.{find-snoc, find-none, find-any, find-update_where}
use aegis_runtime.Store.Runs.{
  active_state, active_in, run_row, set_run, read_run, create, update, get, get_active_run,
}
use aegis_runtime.Store.Runs.OneActive.{create-Created}
use aegis_runtime.Prelude.{
  ℕ, ◌<◌, ◌%◌, ◌^◌, String, ◌≡◌, refl, sym, ap, ◌∙◌, Option, none, some, Bool, true, false, ok,
  str_eq, eq_iff, find, find-In, arith, Bool-cases, inl, inr, if◌then◌else◌,
}

-- The codecs read back what they write of a run.
pub record RunCodecs (serde : Serde) (run : Run) : Type 0 where
  pub trigger : serde.trigger.decode (serde.trigger.encode run.trigger) ≡ ok run.trigger
  pub budget : serde.run_budget.decode (serde.run_budget.encode run.budget) ≡ ok run.budget
  pub termination :
      decode_optional serde.termination (encode_optional serde.termination run.termination)
      ≡ ok run.termination

-- The counters are `u32`.
pub record Fits (run : Run) : Type 0 where
  pub steps : run.steps_used < 2 ^ 32
  pub calls : run.inference_calls_used < 2 ^ 32
  pub acts : run.actions_used < 2 ^ 32

small : (n : ℕ) → n < 2 ^ 32 → n % 2 ^ 32 ≡ n
small n h = omega (arith, h)

module _ (serde : Serde) where
  pub read_run-run_row :
      (run : Run) → RunCodecs serde run → Fits run → read_run serde (run_row serde run) ≡ ok run
  unfolding read_run
  read_run-run_row run codecs f =
      rw
        (
          (run_iff (as_str run.state) run.state).1 refl,
          codecs.trigger,
          codecs.budget,
          codecs.termination,
          small run.steps_used f.steps,
          small run.inference_calls_used f.calls,
          small run.actions_used f.acts,
        )
        refl

  get-row :
      (d : Database) (id : String) (row : RunRow) (run : Run)
      → find (λ r. str_eq r.id id) d.runs ≡ some row
      → read_run serde row ≡ ok run
      → get serde d id ≡ ok (some run)
  unfolding get
  get-row d id row run found reads = rw (found, reads) refl

  get-same :
      (d e : Database) (id : String)
      → find (λ r. str_eq r.id id) e.runs ≡ find (λ r. str_eq r.id id) d.runs
      → get serde e id ≡ get serde d id
  unfolding get
  get-same d e id same = rw (same) refl

  active-row :
      (d : Database) (id : String) (row : RunRow) (run : Run)
      → find (active_in id) d.runs ≡ some row
      → read_run serde row ≡ ok run
      → get_active_run serde d id ≡ ok (some run)
  unfolding get_active_run
  active-row d id row run found reads = rw (found, reads) refl

  active-none :
      (d : Database) (id : String)
      → find (active_in id) d.runs ≡ none
      → get_active_run serde d id ≡ ok none
  unfolding get_active_run
  active-none d id found = rw (found) refl

  -- If the codecs read back what they write of the run and the counters are 32-bit numbers: after a run was
  -- created, its id reads as that run and every other id as before, and its session's active run
  -- is this run when its state is an active one, and none otherwise.
  pub get-create_run :
      (d e : Database) (run : Run)
      → RunCodecs serde run
      → Fits run
      → create serde d run ≡ ok e
      → ((id : String)
          → get serde e id ≡ (if str_eq run.id id then ok (some run) else get serde d id))
        × (get_active_run serde e run.session_id
            ≡ ok (if active_state (as_str run.state) then some run else none))
  get-create_run d e run codecs f h =
      let c = create-Created serde d e run h in
      let row = run_row serde run in
      let reads = read_run-run_row run codecs f in
      let fresh = find-none (λ (r : RunRow). str_eq r.id run.id) d.runs c.fresh in
      let own : get serde e run.id ≡ ok (some run) =
        get-row e run.id row run
          (rw c.made (
            ground (
              arith,
              find-snoc (λ (r : RunRow). str_eq r.id run.id) d.runs row,
              fresh,
              eq_iff run.id run.id,
            )))
          reads in
      let its_active : find (active_in run.session_id) e.runs
          ≡ (if active_state (as_str run.state) then some row else none) =
        rw c.made (
          ground (
            arith,
            find-snoc (active_in run.session_id) d.runs row,
            c.idle,
            eq_iff run.session_id run.session_id,
          )) in
      (
        λ id. elim (Bool-cases (str_eq run.id id)) [
          | inl same ↦
              rw same (subst (λ k. get serde e k ≡ ok (some run)) ((eq_iff run.id id).0 same) own)
          | inr other ↦ rw other (
              get-same d e id (
                rw c.made
                  (ground (arith, find-snoc (λ (r : RunRow). str_eq r.id id) d.runs row, other))))
        ],
        elim (Bool-cases (active_state (as_str run.state))) [
          | inl a ↦
              active-row e run.session_id row run (its_active ∙ chosen _ a row) reads
              ∙ sym (ap ok (chosen _ a run))
          | inr a ↦
              active-none e run.session_id (its_active ∙ unchosen _ a row)
              ∙ sym (ap ok (unchosen _ a run))
        ],
      )
    where
      chosen : {A : Type 0} (b : Bool) → b ≡ true → (x : A) → (if b then some x else none) ≡ some x
      chosen b e x = rw e refl

      unchosen : {A : Type 0} (b : Bool) → b ≡ false → (x : A) → (if b then some x else none) ≡ none
      unchosen b e x = rw e refl

  set-row :
      (run : Run) (row : RunRow) (trigger : Trigger)
      → RunCodecs serde run
      → Fits run
      → serde.trigger.decode row.trigger_json ≡ ok trigger
      → read_run serde (set_run serde run row)
        ≡ ok (record run {
          id = row.id;
          session_id = row.session_id;
          trigger = trigger;
          started_at = row.started_at;
        })
  unfolding read_run
  set-row run row trigger codecs f old =
      rw
        (
          (run_iff (as_str run.state) run.state).1 refl,
          old,
          codecs.budget,
          codecs.termination,
          small run.steps_used f.steps,
          small run.inference_calls_used f.calls,
          small run.actions_used f.acts,
        )
        refl

  -- If the codecs read back what they write of the run, the counters are 32-bit numbers and a run with
  -- this id and a readable trigger is stored: an update succeeds; the id then reads as the run that was written, but
  -- with the session, the trigger and the start time that were stored; every other id reads as before.
  pub get-update_run :
      (d : Database) (run : Run) (row : RunRow) (trigger : Trigger)
      → RunCodecs serde run
      → Fits run
      → find (λ r. str_eq r.id run.id) d.runs ≡ some row
      → serde.trigger.decode row.trigger_json ≡ ok trigger
      → (e : Database) × (update serde d run ≡ ok e)
        × ((id : String)
            → get serde e id ≡ (
                if str_eq run.id id
                then ok (
                    some (record run {
                      id = row.id;
                      session_id = row.session_id;
                      trigger = trigger;
                      started_at = row.started_at;
                    }))
                else get serde d id))
  unfolding update
  get-update_run d run row trigger codecs f found old =
      let p = λ (r : RunRow). str_eq r.id run.id in
      let here_is : str_eq row.id run.id ≡ true = (find-In p d.runs row found).1 in
      let after = λ (id : String).
        find-update_where (λ (r : RunRow). str_eq r.id id) p (set_run serde run) (λ r hit. refl)
          d.runs in
      let merged : Run = record run {
        id = row.id;
        session_id = row.session_id;
        trigger = trigger;
        started_at = row.started_at;
      } in
      let e = record d { runs = update_where p (set_run serde run) d.runs } in
      let own =
        get-row e run.id (set_run serde run row) _ (ground (arith, after run.id, found, here_is))
          (set-row run row trigger codecs f old) in
      (
        e,
        ground (arith, find-any p d.runs row found),
        λ id. elim (Bool-cases (str_eq run.id id)) [
          | inl same ↦
              rw same
                (subst (λ k. get serde e k ≡ ok (some merged)) ((eq_iff run.id id).0 same) own)
          | inr other ↦ rw other (
              get-same d e id
                (after id ∙ kept id other (find (λ (r : RunRow). str_eq r.id id) d.runs) refl))
        ],
      )
    where
      kept :
          (id : String)
          → str_eq run.id id ≡ false
          → (o : Option RunRow) → find (λ (r : RunRow). str_eq r.id id) d.runs ≡ o
          → (elim o [
            | none ↦ none
            | some r ↦ some (if str_eq r.id run.id then set_run serde run r else r)
          ])
            ≡ o
      kept id other none e = refl
      kept id other (some r) e =
          let at = (find-In (λ (x : RunRow). str_eq x.id id) d.runs r e).1 in
          ground (arith, eq_iff r.id id, eq_iff r.id run.id, eq_iff run.id id)
