-- ===== src/Store/Sessions/Contract.antt =====
-- Versions and contents in src/persistence/sqlite/sessions.rs.
use aegis_runtime.Records.Session.{Session, Message, as_str}
use aegis_runtime.Records.RoundTrips.{session_iff}
use aegis_runtime.Store.Database.{Serde, concurrency_conflict, SessionRow, Database, has_session}
use aegis_runtime.Store.Messages.{list_messages}
use aegis_runtime.Store.Table.{update_where}
use aegis_runtime.Store.Table.Laws.{find-snoc, find-none, find-update_where, any-contains}
use aegis_runtime.Store.Sessions.{
  session_row, read_session, current, set_session, create, get, update,
}
use aegis_runtime.Prelude.{
  Distinct, ℕ, ◌+◌, String, ◌≡◌, refl, sym, ◌∙◌, List, [], ◌∷◌, ◌++◌, map, some, true, false, ok,
  err, str_eq, eq_iff, ◌==◌, ==_iff, any, find, find-In, arith, Bool-cases, inl, inr,
}

module _ (serde : Serde) where
  none_current :
      (now : ℕ) (s t : Session)
      → t.id ≡ s.id
      → t.version ≡ s.version
      → (rs : List SessionRow)
      → any (current serde t) (update_where (current serde s) (set_session serde now s) rs) ≡ false
  none_current now s t same at [] = refl
  none_current now s t same at (r ∷ rs) = elim (Bool-cases (current serde s r)) [
    | inl hit ↦ ground (arith, hit, at, none_current now s t same at rs)
    | inr miss ↦ rw (miss, same, at) (rw (miss) (ground (arith, none_current now s t same at rs)))
  ]

  -- No update is lost: when one update of a session has succeeded, a second one that was made from the
  -- same version of that session is refused with a conflict that names the session and the version.
  pub update-update :
      (now later : ℕ) (d e : Database) (s t : Session)
      → update serde now d s ≡ ok e
      → t.id ≡ s.id
      → t.version ≡ s.version
      → update serde later e t ≡ err (concurrency_conflict t.id t.version)
  unfolding update
  update-update now later d e s t h same at = elim (Bool-cases (any (current serde s) d.sessions)) [
    | inr stale ↦ absurd (ground (arith, stale))
    | inl fresh ↦
        let made : e ≡ record d {
          sessions = update_where (current serde s) (set_session serde now s) d.sessions;
        } =
          ground (arith, fresh) in
        let old : any (current serde t) e.sessions ≡ false =
          rw made (none_current now s t same at d.sessions) in
        ground (arith, old)
  ]

  one_current :
      (s : Session) (row : SessionRow) (rs : List SessionRow)
      → Distinct (map (λ r. r.id) rs)
      → find (λ r. str_eq r.id s.id) rs ≡ some row
      → any (current serde s) rs ≡ (row.version == s.version)
  one_current s row [] k found = absurd (ground arith)
  one_current s row (r ∷ rs) k found = elim (Bool-cases (str_eq r.id s.id)) [
    | inr other ↦ ground (arith, other, one_current s row rs k.1)
    | inl same ↦
        let at : r ≡ row = ground (arith, same) in
        let alone : any (λ (x : SessionRow). str_eq x.id s.id) rs ≡ false =
          any-contains (λ x. x.id) s.id rs ∙ rw ((eq_iff r.id s.id).0 same) at k.0 in
        rw (← at) (ground (arith, same, no_current rs alone))
  ]
    where
      no_current :
          (xs : List SessionRow)
          → any (λ (x : SessionRow). str_eq x.id s.id) xs ≡ false
          → any (current serde s) xs ≡ false
      no_current [] h = refl
      no_current (x ∷ xs) h = ground (arith, no_current xs)

  -- If session ids are unique and the session is stored in another version than the one that it was
  -- read in, an update is refused with a conflict.
  update-stale :
      (now : ℕ) (d : Database) (s : Session) (row : SessionRow)
      → Distinct (map (λ (r : SessionRow). r.id) d.sessions)
      → find (λ r. str_eq r.id s.id) d.sessions ≡ some row
      → (row.version == s.version) ≡ false
      → update serde now d s ≡ err (concurrency_conflict s.id s.version)
  unfolding update
  update-stale now d s row k found stale =
      ground (arith, one_current s row d.sessions k found, stale)

module _ (serde : Serde) (s : Session)
    (reads : serde.session_budget.decode (serde.session_budget.encode s.budget) ≡ ok s.budget) where
  read_session-session_row :
      (ms : List Message)
      → read_session serde (ok ms) (session_row serde s) ≡ ok (record s { messages = ms })
  unfolding read_session
  read_session-session_row ms = rw ((session_iff (as_str s.status) s.status).1 refl, reads) refl

  get-row :
      (d : Database) (id : String) (row : SessionRow) (v : Session) (ms : List Message)
      → find (λ r. str_eq r.id id) d.sessions ≡ some row
      → list_messages serde d row.id ≡ ok ms
      → read_session serde (ok ms) row ≡ ok v
      → get serde d id ≡ ok (some v)
  unfolding get
  get-row d id row v ms found loaded back = rw (found, loaded, back) refl

  -- If the codec reads back the budget of the session: a session that was created is read back as it was,
  -- but with the messages that the message table has for its id in place of its own.
  get-create_session :
      (d e : Database) (ms : List Message)
      → create serde d s ≡ ok e
      → list_messages serde e s.id ≡ ok ms
      → get serde e s.id ≡ ok (some (record s { messages = ms }))
  unfolding create
  get-create_session d e ms h loaded = elim (Bool-cases (has_session d s.id)) [
    | inl twice ↦ absurd (ground (arith, twice))
    | inr fresh ↦
        let row = session_row serde s in
        let made : e ≡ record d { sessions = d.sessions ++ row ∷ [] } = ground (arith, fresh) in
        let p = λ (r : SessionRow). str_eq r.id s.id in
        let found : find p e.sessions ≡ some row = rw made (
          ground
            (arith, find-snoc p d.sessions row, find-none p d.sessions fresh, eq_iff s.id s.id)) in
        get-row e s.id row (record s { messages = ms }) ms found loaded
          (read_session-session_row ms)
  ]

  set-row :
      (now : ℕ) (row : SessionRow) (ms : List Message)
      → read_session serde (ok ms) (set_session serde now s row)
        ≡ ok (record s {
          id = row.id;
          messages = ms;
          created_at = row.created_at;
          updated_at = now;
          version = row.version + 1;
        })
  unfolding read_session
  set-row now row ms = rw ((session_iff (as_str s.status) s.status).1 refl, reads) refl

  -- Messages are read from the message table alone.
  sessions-list_messages :
      (d : Database) (rows : List SessionRow) (id : String)
      → list_messages serde (record d { sessions = rows }) id ≡ list_messages serde d id
  unfolding list_messages
  sessions-list_messages d rows id = refl

  -- If session ids are unique, the codec reads back the budget of the session, and the session is stored in
  -- the version that it was read in: an update succeeds, and the session then reads as it was written,
  -- with the next version, the time of the update, and the stored creation time and messages.
  pub update-current :
      (now : ℕ) (d : Database) (row : SessionRow) (ms : List Message)
      → Distinct (map (λ (r : SessionRow). r.id) d.sessions)
      → find (λ r. str_eq r.id s.id) d.sessions ≡ some row
      → list_messages serde d row.id ≡ ok ms
      → s.version ≡ row.version
      → (e : Database) × (update serde now d s ≡ ok e)
        × (get serde e s.id
            ≡ ok (
                some (record s {
                  id = row.id;
                  messages = ms;
                  created_at = row.created_at;
                  updated_at = now;
                  version = row.version + 1;
                })))
  unfolding update
  update-current now d row ms k found loaded same =
      let one = one_current serde s row d.sessions k found in
      let hit : any (current serde s) d.sessions ≡ true =
        one ∙ (==_iff row.version s.version).1 (sym same) in
      let here_is = (find-In (λ (r : SessionRow). str_eq r.id s.id) d.sessions row found).1 in
      let now_is : current serde s row ≡ true = ground (arith, here_is, same) in
      let after =
        find-update_where (λ (r : SessionRow). str_eq r.id s.id) (current serde s)
          (set_session serde now s) (λ r h. refl) d.sessions in
      let rows = update_where (current serde s) (set_session serde now s) d.sessions in
      let e = record d { sessions = rows } in
      (
        e,
        ground (arith, hit),
        get-row e s.id (set_session serde now s row) _ ms (ground (arith, after, found, now_is))
            (sessions-list_messages d rows row.id ∙ loaded) (set-row now row ms),
      )
