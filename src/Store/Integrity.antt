-- ===== src/Store/Integrity.antt =====
-- What the schema of src/persistence/sqlite/schema.rs promises of the tables, under every write of
-- the stores: ids are unique in their table, and what a row refers to is there.
pub mod Writes
use mathlib.Core.List.{map-append}
use aegis_runtime.Records.Session.{Session, Message, message_id}
use aegis_runtime.Records.Run.{Run}
use aegis_runtime.Records.Action.{Action}
use aegis_runtime.Records.Approval.{Approval}
use aegis_runtime.Store.Database.{
  Serde, PersistenceError, SessionRow, MessageRow, RunRow, ActionRow, ApprovalRow, Database,
  has_session, has_run, has_action, empty_database,
}
use aegis_runtime.Store.Table.{update_where}
use aegis_runtime.Store.Table.Laws.{keys-update_where, any-contains}
use aegis_runtime.Store.Messages.{append, message_row}
use aegis_runtime.Store.Runs
use aegis_runtime.Store.Sessions
use aegis_runtime.Store.Actions
use aegis_runtime.Store.Approvals
use aegis_runtime.Prelude.{
  ℕ, String, ◌≡◌, refl, sym, ap, ◌∙◌, List, [], ◌∷◌, ◌++◌, map, Bool, true, false, ◌&&◌, Result, ok,
  err, str_eq, eq_iff, any, contains, Distinct, Distinct-snoc, contains-snoc, All, All-append,
  arith, Bool-cases, inl, inr, if_ind, if◌then◌else◌, Option, none, some, find, Option-cases,
}

-- A table's ids and its rows, each with its references.
abbrev pub Keyed : {R : Type 0} → (R → String) → List R → Type 0
Keyed key rs = Distinct (map key rs)

module _ {R : Type 0} (key : R → String) where
  pub Keyed-snoc :
      (rs : List R) (r : R)
      → Keyed key rs
      → any (λ x. str_eq (key x) (key r)) rs ≡ false
      → Keyed key (rs ++ r ∷ [])
  Keyed-snoc rs r k fresh =
      rw map-append
        (Distinct-snoc (map key rs) (key r) k (sym (any-contains key (key r) rs) ∙ fresh))

  pub Keyed-update :
      (p : R → Bool) (f : R → R) (rs : List R)
      → ((r : R) → key (f r) ≡ key r)
      → Keyed key rs
      → Keyed key (update_where p f rs)
  Keyed-update p f rs same k = rw (keys-update_where key p f (λ r _. same r) rs) k

  pub any-update :
      (p : R → Bool) (f : R → R) (rs : List R) (id : String)
      → ((r : R) → key (f r) ≡ key r)
      → any (λ x. str_eq (key x) id) (update_where p f rs) ≡ any (λ x. str_eq (key x) id) rs
  any-update p f rs id same =
      any-contains key id (update_where p f rs)
      ∙ ap (λ l. contains l id) (keys-update_where key p f (λ r _. same r) rs)
      ∙ sym (any-contains key id rs)

  pub any-snoc :
      (rs : List R) (r : R) (id : String)
      → any (λ x. str_eq (key x) id) rs ≡ true
      → any (λ x. str_eq (key x) id) (rs ++ r ∷ []) ≡ true
  any-snoc [] r id h = absurd (cc)
  any-snoc (x ∷ rs) r id h = ground (arith, any-snoc rs r id)

pub All-map :
    {R : Type 0} {P Q : R → Type 0} (rs : List R) → ((r : R) → P r → Q r) → All P rs → All Q rs
All-map [] f h = tt
All-map (r ∷ rs) f h = (f r h.0, All-map rs f h.1)

-- An update leaves references alone.
pub All-update :
    {R : Type 0} (P : R → Type 0) (p : R → Bool) (f : R → R) (rs : List R)
    → ((r : R) → P r → P (f r))
    → All P rs
    → All P (update_where p f rs)
All-update P p f [] g h = tt
All-update P p f (r ∷ rs) g h =
    (if_ind P (p r) (λ _. g r h.0) (λ _. h.0), All-update P p f rs g h.1)

-- The references of the rows.
abbrev pub MessageRefers : Database → MessageRow → Type 0
MessageRefers d r = has_session d r.session_id ≡ true

abbrev pub RunRefers : Database → RunRow → Type 0
RunRefers d r = has_session d r.session_id ≡ true

abbrev pub ActionRefers : Database → ActionRow → Type 0
ActionRefers d r = (has_session d r.session_id ≡ true) × (has_run d r.run_id ≡ true)

abbrev pub ApprovalRefers : Database → ApprovalRow → Type 0
ApprovalRefers d r =
    (has_session d r.session_id ≡ true)
    × (has_run d r.run_id ≡ true)
    × (has_action d r.action_id ≡ true)

pub record IsIntact (d : Database) : Type 0 where
  pub session_keys : Keyed (λ (r : SessionRow). r.id) d.sessions
  pub message_keys : Keyed (λ (r : MessageRow). r.id) d.messages
  pub run_keys : Keyed (λ (r : RunRow). r.id) d.runs
  pub action_keys : Keyed (λ (r : ActionRow). r.id) d.actions
  pub approval_keys : Keyed (λ (r : ApprovalRow). r.id) d.approvals
  pub message_refs : All (MessageRefers d) d.messages
  pub run_refs : All (RunRefers d) d.runs
  pub action_refs : All (ActionRefers d) d.actions
  pub approval_refs : All (ApprovalRefers d) d.approvals

-- A write of one of the stores that succeeded.
pub data Write (serde : Serde) (d e : Database) : Type 0 where
  session_created : (s : Session) → Sessions.create serde d s ≡ ok e → Write serde d e
  session_updated : (now : ℕ) (s : Session) → Sessions.update serde now d s ≡ ok e → Write serde d e
  message_appended : (id : String) (m : Message) → append serde d id m ≡ ok e → Write serde d e
  run_created : (r : Run) → Runs.create serde d r ≡ ok e → Write serde d e
  run_updated : (r : Run) → Runs.update serde d r ≡ ok e → Write serde d e
  action_created : (a : Action) → Actions.create serde d a ≡ ok e → Write serde d e
  action_updated : (a : Action) → Actions.update serde d a ≡ ok e → Write serde d e
  approval_created : (a : Approval) → Approvals.create d a ≡ ok e → Write serde d e
  approval_updated : (a : Approval) → Approvals.update d a ≡ ok e → Write serde d e

module _ (d : Database) (k : IsIntact d) where
  pub Intact-sessions :
      (rows : List SessionRow)
      → Keyed (λ (r : SessionRow). r.id) rows
      → ((id : String)
          → has_session d id ≡ true
          → any (λ (r : SessionRow). str_eq r.id id) rows ≡ true)
      → IsIntact (record d { sessions = rows })
  Intact-sessions rows keyed grows = record {
    session_keys = keyed;
    message_keys = k.message_keys;
    run_keys = k.run_keys;
    action_keys = k.action_keys;
    approval_keys = k.approval_keys;
    message_refs = All-map d.messages (λ r h. grows r.session_id h) k.message_refs;
    run_refs = All-map d.runs (λ r h. grows r.session_id h) k.run_refs;
    action_refs = All-map d.actions (λ r h. (grows r.session_id h.0, h.1)) k.action_refs;
    approval_refs = All-map d.approvals (λ r h. (grows r.session_id h.0, h.1, h.2)) k.approval_refs;
  }

  pub Intact-messages :
      (rows : List MessageRow)
      → Keyed (λ (r : MessageRow). r.id) rows
      → All (MessageRefers d) rows
      → IsIntact (record d { messages = rows })
  Intact-messages rows keyed refs = record {
    session_keys = k.session_keys;
    message_keys = keyed;
    run_keys = k.run_keys;
    action_keys = k.action_keys;
    approval_keys = k.approval_keys;
    message_refs = refs;
    run_refs = k.run_refs;
    action_refs = k.action_refs;
    approval_refs = k.approval_refs;
  }

  pub Intact-runs :
      (rows : List RunRow)
      → Keyed (λ (r : RunRow). r.id) rows
      → ((id : String) → has_run d id ≡ true → any (λ (r : RunRow). str_eq r.id id) rows ≡ true)
      → All (RunRefers d) rows
      → IsIntact (record d { runs = rows })
  Intact-runs rows keyed grows refs = record {
    session_keys = k.session_keys;
    message_keys = k.message_keys;
    run_keys = keyed;
    action_keys = k.action_keys;
    approval_keys = k.approval_keys;
    message_refs = k.message_refs;
    run_refs = refs;
    action_refs = All-map d.actions (λ r h. (h.0, grows r.run_id h.1)) k.action_refs;
    approval_refs = All-map d.approvals (λ r h. (h.0, grows r.run_id h.1, h.2)) k.approval_refs;
  }

  pub Intact-actions :
      (rows : List ActionRow)
      → Keyed (λ (r : ActionRow). r.id) rows
      → ((id : String)
          → has_action d id ≡ true
          → any (λ (r : ActionRow). str_eq r.id id) rows ≡ true)
      → All (ActionRefers d) rows
      → IsIntact (record d { actions = rows })
  Intact-actions rows keyed grows refs = record {
    session_keys = k.session_keys;
    message_keys = k.message_keys;
    run_keys = k.run_keys;
    action_keys = keyed;
    approval_keys = k.approval_keys;
    message_refs = k.message_refs;
    run_refs = k.run_refs;
    action_refs = refs;
    approval_refs = All-map d.approvals (λ r h. (h.0, h.1, grows r.action_id h.2)) k.approval_refs;
  }

  pub Intact-approvals :
      (rows : List ApprovalRow)
      → Keyed (λ (r : ApprovalRow). r.id) rows
      → All (ApprovalRefers d) rows
      → IsIntact (record d { approvals = rows })
  Intact-approvals rows keyed refs = record {
    session_keys = k.session_keys;
    message_keys = k.message_keys;
    run_keys = k.run_keys;
    action_keys = k.action_keys;
    approval_keys = keyed;
    message_refs = k.message_refs;
    run_refs = k.run_refs;
    action_refs = k.action_refs;
    approval_refs = refs;
  }
