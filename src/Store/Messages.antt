-- ===== src/Store/Messages.antt =====
-- src/persistence/sqlite/messages.rs.
use aegis_runtime.Records.Session.{Message, message_id, message_time, role, role_str}
use aegis_runtime.Store.Database.{
  Serde, SqlError, PersistenceError, sqlite, MessageRow, Database, has_session, decoded, read_all,
}
use aegis_runtime.Store.Table.{order_asc}
use aegis_runtime.Prelude.{
  String, List, [], ◌∷◌, ◌++◌, Option, none, some, Result, ok, err, ◌>>=◌, str_eq, any, find,
  select, if◌then◌else◌,
}

module _ (serde : Serde) where
  abbrev pub message_row : String → Message → MessageRow
  message_row session_id m = record {
    id = message_id m;
    session_id = session_id;
    role = role_str (role m);
    data_json = serde.message.encode m;
    created_at = message_time m;
  }

  unfoldable pub append : Database → String → Message → Result PersistenceError Database
  append d session_id m =
      if any (λ (r : MessageRow). str_eq r.id (message_id m)) d.messages
      then err (sqlite SqlError.unique_constraint)
      else if has_session d session_id
      then ok (record d { messages = d.messages ++ message_row session_id m ∷ [] })
      else err (sqlite SqlError.foreign_key_constraint)

  abbrev pub read_message : MessageRow → Result PersistenceError Message
  read_message r = decoded (serde.message.decode r.data_json)

  -- `ORDER BY created_at ASC, rowid ASC`
  unfoldable pub list_messages : Database → String → Result PersistenceError (List Message)
  list_messages d session_id =
      read_all read_message
        (order_asc (λ r. r.created_at) (select (λ r. str_eq r.session_id session_id) d.messages))

  abbrev read_optional : Option MessageRow → Result PersistenceError (Option Message)
  read_optional none = ok none
  read_optional (some r) = read_message r >>= λ m. ok (some m)

  unfoldable pub get_message : Database → String → Result PersistenceError (Option Message)
  get_message d id = read_optional (find (λ r. str_eq r.id id) d.messages)
