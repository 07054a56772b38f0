-- ===== src/Store/Integrity/Writes.antt =====
-- Every write of the stores of src/persistence/sqlite/ keeps the tables intact.
use mathlib.Core.Path.{subst}
use aegis_runtime.Records.Session.{Session, Message, message_id}
use aegis_runtime.Records.Run.{Run}
use aegis_runtime.Records.Action.{Action}
use aegis_runtime.Records.Approval.{Approval}
use aegis_runtime.Store.Database.{
  Serde, PersistenceError, SessionRow, MessageRow, RunRow, ActionRow, ApprovalRow, Database,
  has_session, has_run, has_action,
}
use aegis_runtime.Store.Table.{update_where}
use aegis_runtime.Store.Messages.{append, message_row}
use aegis_runtime.Store.Runs
use aegis_runtime.Store.Runs.OneActive.{create-Created}
use aegis_runtime.Store.Sessions
use aegis_runtime.Store.Actions
use aegis_runtime.Store.Approvals
use aegis_runtime.Store.Integrity.{
  Keyed-snoc, Keyed-update, any-update, any-snoc, All-update, MessageRefers, RunRefers,
  ActionRefers, ApprovalRefers, IsIntact, Write, session_created, session_updated, message_appended,
  run_created, run_updated, action_created, action_updated, approval_created, approval_updated,
  Intact-sessions, Intact-messages, Intact-runs, Intact-actions, Intact-approvals,
}
use aegis_runtime.Prelude.{
  ℕ, String, ◌≡◌, refl, sym, ◌∙◌, [], ◌∷◌, ◌++◌, Bool, true, false, ◌&&◌, ok, err, str_eq, any,
  All-append, arith, if◌then◌else◌, and-true,
}

-- An accepted write under a test, and under a refusal and a test.
guarded :
    (b : Bool) {e v : Database} (x : PersistenceError)
    → (if b then ok v else err x) ≡ ok e
    → (b ≡ true) × (e ≡ v)
guarded true x h = (refl, ground arith)
guarded false x h = absurd (cc)

guarded_twice :
    (b c : Bool) {e v : Database} (x y : PersistenceError)
    → (if b then err x else if c then ok v else err y) ≡ ok e
    → (b ≡ false) × (c ≡ true) × (e ≡ v)
guarded_twice false true x y h = (refl, refl, ground arith)
guarded_twice false false x y h = absurd (cc)
guarded_twice true c x y h = absurd (cc)

module _ (serde : Serde) (d e : Database) (k : IsIntact d) where
  Intact-to : {v : Database} → e ≡ v → IsIntact v → IsIntact e
  Intact-to same i = subst IsIntact (sym same) i

  run_created_lem : (r : Run) → Runs.create serde d r ≡ ok e → IsIntact e
  run_created_lem r h =
      let c = create-Created serde d e r h in
      let key = λ (x : RunRow). x.id in
      let row = Runs.run_row serde r in
      Intact-to c.made (
        Intact-runs d k (d.runs ++ row ∷ []) (Keyed-snoc key d.runs row k.run_keys c.fresh)
          (any-snoc key d.runs row)
          (All-append (RunRefers d) d.runs (row ∷ []) k.run_refs (c.known, tt)))

  run_updated_lem : (r : Run) → Runs.update serde d r ≡ ok e → IsIntact e
  unfolding Runs.update
  run_updated_lem r h =
      let key = λ (x : RunRow). x.id in
      let p = λ (x : RunRow). str_eq x.id r.id in
      let f = Runs.set_run serde r in
      Intact-to (guarded (has_run d r.id) _ h).1 (
        Intact-runs d k (update_where p f d.runs)
          (Keyed-update key p f d.runs (λ _. refl) k.run_keys)
          (λ id m. any-update key p f d.runs id (λ _. refl) ∙ m)
          (All-update (RunRefers d) p f d.runs (λ _ m. m) k.run_refs))

  session_created_lem : (s : Session) → Sessions.create serde d s ≡ ok e → IsIntact e
  unfolding Sessions.create
  session_created_lem s h =
      let key = λ (x : SessionRow). x.id in
      let row = Sessions.session_row serde s in
      let new = created (has_session d s.id) _ h in
      Intact-to new.1 (
        Intact-sessions d k (d.sessions ++ row ∷ [])
          (Keyed-snoc key d.sessions row k.session_keys new.0) (any-snoc key d.sessions row))
    where
      created :
          (b : Bool) {v : Database} (x : PersistenceError)
          → (if b then err x else ok v) ≡ ok e
          → (b ≡ false) × (e ≡ v)
      created false x h = (refl, ground arith)
      created true x h = absurd (cc)

  session_updated_lem : (now : ℕ) (s : Session) → Sessions.update serde now d s ≡ ok e → IsIntact e
  unfolding Sessions.update
  session_updated_lem now s h =
      let key = λ (x : SessionRow). x.id in
      let p = Sessions.current serde s in
      let f = Sessions.set_session serde now s in
      Intact-to (guarded (any p d.sessions) _ h).1 (
        Intact-sessions d k (update_where p f d.sessions)
          (Keyed-update key p f d.sessions (λ _. refl) k.session_keys)
          (λ id m. any-update key p f d.sessions id (λ _. refl) ∙ m))

  message_appended_lem : (id : String) (m : Message) → append serde d id m ≡ ok e → IsIntact e
  unfolding append
  message_appended_lem id m h =
      let key = λ (x : MessageRow). x.id in
      let row = message_row serde id m in
      let new =
        guarded_twice (any (λ (x : MessageRow). str_eq x.id (message_id m)) d.messages)
          (has_session d id) _ _ h in
      Intact-to new.2 (
        Intact-messages d k (d.messages ++ row ∷ [])
          (Keyed-snoc key d.messages row k.message_keys new.0)
          (All-append (MessageRefers d) d.messages (row ∷ []) k.message_refs (new.1, tt)))

  action_created_lem : (a : Action) → Actions.create serde d a ≡ ok e → IsIntact e
  unfolding Actions.create
  action_created_lem a h =
      let key = λ (x : ActionRow). x.id in
      let row = Actions.action_row serde a in
      let new =
        guarded_twice (has_action d a.id) (has_session d a.session_id && has_run d a.run_id) _ _
          h in
      Intact-to new.2 (
        Intact-actions d k (d.actions ++ row ∷ [])
          (Keyed-snoc key d.actions row k.action_keys new.0) (any-snoc key d.actions row)
          (All-append (ActionRefers d) d.actions (row ∷ []) k.action_refs
            (and-true (has_session d a.session_id) (has_run d a.run_id) new.1, tt)))

  action_updated_lem : (a : Action) → Actions.update serde d a ≡ ok e → IsIntact e
  unfolding Actions.update
  action_updated_lem a h =
      let key = λ (x : ActionRow). x.id in
      let p = λ (x : ActionRow). str_eq x.id a.id in
      let f = Actions.set_action serde a in
      Intact-to (guarded (has_action d a.id) _ h).1 (
        Intact-actions d k (update_where p f d.actions)
          (Keyed-update key p f d.actions (λ _. refl) k.action_keys)
          (λ id m. any-update key p f d.actions id (λ _. refl) ∙ m)
          (All-update (ActionRefers d) p f d.actions (λ _ m. m) k.action_refs))

  approval_created_lem : (a : Approval) → Approvals.create d a ≡ ok e → IsIntact e
  unfolding Approvals.create
  approval_created_lem a h =
      let key = λ (x : ApprovalRow). x.id in
      let row = Approvals.approval_row a in
      let new =
        guarded_twice (any (λ (x : ApprovalRow). str_eq x.id a.id) d.approvals)
          (has_session d a.session_id && has_run d a.run_id && has_action d a.action_id) _ _ h in
      let refers : ApprovalRefers d row = ground (arith, new.1) in
      Intact-to new.2 (
        Intact-approvals d k (d.approvals ++ row ∷ [])
          (Keyed-snoc key d.approvals row k.approval_keys new.0)
          (All-append (ApprovalRefers d) d.approvals (row ∷ []) k.approval_refs (refers, tt)))

  approval_updated_lem : (a : Approval) → Approvals.update d a ≡ ok e → IsIntact e
  unfolding Approvals.update
  approval_updated_lem a h =
      let key = λ (x : ApprovalRow). x.id in
      let p = λ (x : ApprovalRow). str_eq x.id a.id in
      let f = Approvals.set_approval a in
      Intact-to (guarded (any p d.approvals) _ h).1 (
        Intact-approvals d k (update_where p f d.approvals)
          (Keyed-update key p f d.approvals (λ _. refl) k.approval_keys)
          (All-update (ApprovalRefers d) p f d.approvals (λ _ m. m) k.approval_refs))

-- If the ids of each table are unique and each row's session, run and action are there, then this is
-- so after any write of any of the five stores that succeeds, with any record.
pub Write-IsIntact : (serde : Serde) (d e : Database) → IsIntact d → Write serde d e → IsIntact e
Write-IsIntact serde d e k (session_created s h) = session_created_lem serde d e k s h
Write-IsIntact serde d e k (session_updated now s h) = session_updated_lem serde d e k now s h
Write-IsIntact serde d e k (message_appended id m h) = message_appended_lem serde d e k id m h
Write-IsIntact serde d e k (run_created r h) = run_created_lem serde d e k r h
Write-IsIntact serde d e k (run_updated r h) = run_updated_lem serde d e k r h
Write-IsIntact serde d e k (action_created a h) = action_created_lem serde d e k a h
Write-IsIntact serde d e k (action_updated a h) = action_updated_lem serde d e k a h
Write-IsIntact serde d e k (approval_created a h) = approval_created_lem serde d e k a h
Write-IsIntact serde d e k (approval_updated a h) = approval_updated_lem serde d e k a h
