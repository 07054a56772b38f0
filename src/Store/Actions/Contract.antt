-- ===== src/Store/Actions/Contract.antt =====
-- What the action store of src/persistence/sqlite/actions.rs gives back.
use aegis_runtime.Records.Action.{Action, as_str}
use aegis_runtime.Records.RoundTrips.{action_iff}
use aegis_runtime.Json.{Value}
use aegis_runtime.Store.Database.{
  Serde, ActionRow, Database, has_session, has_run, has_action, decode_optional, encode_optional,
}
use aegis_runtime.Store.Table.{update_where}
use aegis_runtime.Store.Table.Laws.{find-snoc, find-none, find-any, find-update_where}
use aegis_runtime.Store.Actions.{action_row, set_action, read_action, create, get, update}
use aegis_runtime.Prelude.{
  String, ◌≡◌, refl, [], ◌∷◌, ◌++◌, some, ◌&&◌, ok, str_eq, eq_iff, find, find-In, arith,
  Bool-cases, inl, inr,
}

-- The codecs read back what they write of an action.
pub record ActionCodecs (serde : Serde) (a : Action) : Type 0 where
  pub params : serde.params.decode (serde.params.encode a.params) ≡ ok a.params
  pub receipt :
      decode_optional serde.receipt (encode_optional serde.receipt a.receipt) ≡ ok a.receipt

module _ (serde : Serde) (a : Action) (codecs : ActionCodecs serde a) where
  read_action-action_row : read_action serde (action_row serde a) ≡ ok a
  unfolding read_action
  read_action-action_row =
      rw (codecs.params, (action_iff (as_str a.status) a.status).1 refl, codecs.receipt) refl

  get-row :
      (d : Database) (id : String) (row : ActionRow) (v : Action)
      → find (λ r. str_eq r.id id) d.actions ≡ some row
      → read_action serde row ≡ ok v
      → get serde d id ≡ ok (some v)
  unfolding get
  get-row d id row v found back = rw (found, back) refl

  -- If the codecs read back what they write of the action, an action that was created is read back as it was.
  get-create_action : (d e : Database) → create serde d a ≡ ok e → get serde e a.id ≡ ok (some a)
  unfolding create
  get-create_action d e h = elim (Bool-cases (has_action d a.id)) [
    | inl twice ↦ absurd (ground (arith, twice))
    | inr fresh ↦ elim (Bool-cases (has_session d a.session_id && has_run d a.run_id)) [
      | inr unknown ↦ absurd (ground (arith, fresh, unknown))
      | inl known ↦
          let row = action_row serde a in
          let made : e ≡ record d { actions = d.actions ++ row ∷ [] } =
            ground (arith, fresh, known) in
          let p = λ (r : ActionRow). str_eq r.id a.id in
          get-row e a.id row a
            (rw made (
              ground
                (arith, find-snoc p d.actions row, find-none p d.actions fresh, eq_iff a.id a.id)))
            (read_action-action_row)
    ]
  ]

  set-row :
      (row : ActionRow) (params : Value)
      → serde.params.decode row.params_json ≡ ok params
      → read_action serde (set_action serde a row)
        ≡ ok (record {
          id = row.id;
          run_id = row.run_id;
          session_id = row.session_id;
          capability = row.capability;
          intent = row.intent;
          params = params;
          status = a.status;
          receipt = a.receipt;
          created_at = row.created_at;
          completed_at = a.completed_at;
        })
  unfolding read_action
  set-row row params old =
      rw (old, (action_iff (as_str a.status) a.status).1 refl, codecs.receipt) refl

  -- If the codecs read back what they write of the action and an action with this id and readable parameters is
  -- stored, an update succeeds, and of the stored action it changes the status, the receipt and the
  -- completion time only.
  get-update_action :
      (d : Database) (row : ActionRow) (params : Value)
      → find (λ r. str_eq r.id a.id) d.actions ≡ some row
      → serde.params.decode row.params_json ≡ ok params
      → (e : Database) × (update serde d a ≡ ok e)
        × (get serde e a.id
            ≡ ok (
                some (record {
                  id = row.id;
                  run_id = row.run_id;
                  session_id = row.session_id;
                  capability = row.capability;
                  intent = row.intent;
                  params = params;
                  status = a.status;
                  receipt = a.receipt;
                  created_at = row.created_at;
                  completed_at = a.completed_at;
                })))
  unfolding update
  get-update_action d row params found old =
      let p = λ (r : ActionRow). str_eq r.id a.id in
      let here_is = (find-In p d.actions row found).1 in
      let after = find-update_where p p (set_action serde a) (λ r h. refl) d.actions in
      let e = record d { actions = update_where p (set_action serde a) d.actions } in
      (
        e,
        ground (arith, find-any p d.actions row found),
        get-row e a.id (set_action serde a row) _ (ground (arith, after, found, here_is))
            (set-row row params old),
      )
