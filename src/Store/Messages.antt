-- ===== src/Store/Messages.antt =====
-- internal/store/message_repo.go and jid_sql.go: the table `messages`.
-- `lid_map` is the table `whatsmeow_lid_map`, which whatsmeow writes: the phone number of a hidden
-- user.
pub mod Pages
pub mod Saves
pub mod Tests
use interactive_whatsapp_meo.Base.{
  ℕ, ◌+◌, String, Bool, true, false, not, ◌&&◌, ◌||◌, Option, none, some, List, [], ◌∷◌, ◌++◌, ok,
  err, sentinel, not_found, plain, str_eq, ltb, leb, ◌==◌, is_some, if◌then◌else◌, keep, map_if,
  sort_by, take,
}
use interactive_whatsapp_meo.Base.Int.{ℤ, pos, negsuc, is_positive, pos_part}
use interactive_whatsapp_meo.Base.Order.{largest_first}
use interactive_whatsapp_meo.Base.Text.{◌++ₛ◌, is_empty, trim_space, before_sep, after_sep}
use interactive_whatsapp_meo.Store.Models.{MessageDirection, MessageStatus, Message}
use interactive_whatsapp_meo.Store.Db.{Db, Action, pure, throw, wrapping, sql, ◌>>=◌, ◌>>◌}
use interactive_whatsapp_meo.Store.Table.{find}
use interactive_whatsapp_meo.Store.Sessions.{has_id}
use interactive_whatsapp_meo.Store.Webhooks.{mem}

pub record SaveMessageParams : Type 0 where
  pub session_id : String
  pub external_message_id : String
  pub chat_jid : String
  pub sender_jid : String
  pub direction : MessageDirection
  pub message_type : String
  pub text : String
  pub media_mime_type : String
  pub media_file_name : String
  pub status : MessageStatus
  pub payload : String
  pub message_timestamp : ℕ

pub record ListMessagesParams : Type 0 where
  pub session_id : String
  pub chat_jid : String
  pub limit : ℤ
  pub cursor : ℤ

-- `session_id = $1 AND external_message_id = $2`
abbrev pub is_message : String → String → Message → Bool
is_message session_id external_id m =
    str_eq m.session_id session_id && str_eq m.external_message_id external_id

-- The row of the `INSERT`.
abbrev pub inserted : SaveMessageParams → ℕ → ℕ → Message
inserted params id now = record {
  id = id;
  session_id = params.session_id;
  external_message_id = params.external_message_id;
  chat_jid = params.chat_jid;
  sender_jid = params.sender_jid;
  direction = params.direction;
  message_type = params.message_type;
  text = params.text;
  media_mime_type = params.media_mime_type;
  media_file_name = params.media_file_name;
  status = params.status;
  payload = params.payload;
  message_timestamp = params.message_timestamp;
  created_at = now;
  updated_at = now;
}

-- `ON CONFLICT … DO UPDATE SET`
abbrev pub overwritten : SaveMessageParams → ℕ → Message → Message
overwritten params now m = record m {
  chat_jid = params.chat_jid;
  sender_jid = params.sender_jid;
  direction = params.direction;
  message_type = params.message_type;
  text = params.text;
  media_mime_type = params.media_mime_type;
  media_file_name = params.media_file_name;
  status = params.status;
  payload = params.payload;
  message_timestamp = params.message_timestamp;
  updated_at = now;
}

-- The upsert. The sequence of ids moves on in any case; a new row needs its session.
upsert_message : SaveMessageParams → Action Message
upsert_message params before =
    let db = record before { next_message = before.next_message + 1 } in
    let test = is_message params.session_id params.external_message_id in
    elim (find test db.messages) [
      | some m ↦ (
        ok (overwritten params db.now m),
        record db { messages = map_if test (overwritten params db.now) db.messages },
      )
      | none ↦
          let row = inserted params before.next_message db.now in
          if is_some (find (has_id params.session_id) db.sessions)
          then (ok row, record db { messages = db.messages ++ row ∷ [] })
          else (err (plain "violates foreign key constraint"), db)
    ]

unfoldable pub save : SaveMessageParams → Action Message
unfolding upsert_message sql
save params = wrapping "save message" (sql (upsert_message params))

unfoldable pub get_by_external_id : String → String → Action Message
unfolding sql
get_by_external_id session_id external_id = do
  row ←
      wrapping "get message by external id"
        (sql (λ db. (ok (find (is_message session_id external_id) db.messages), db)))
  elim row [ none ↦ throw (sentinel not_found) | some m ↦ pure m ]

-- `session_id = $1 AND external_message_id = ANY($2)`
abbrev pub is_listed : String → List String → Message → Bool
is_listed session_id ids m = str_eq m.session_id session_id && mem m.external_message_id ids

unfoldable pub update_status : String → List String → MessageStatus → Action (Unit {0})
unfolding sql
update_status session_id [] status = pure tt
update_status session_id (id ∷ ids) status = wrapping "update message status" (
    sql (λ db. (
      ok tt,
      record db {
        messages =
            map_if (is_listed session_id (id ∷ ids))
              (λ m. record m { status = status; updated_at = db.now }) db.messages;
      },
    )))

-- `limit <= 0 || limit > 100` gives 50.
unfoldable pub page_limit : ℤ → ℕ
page_limit (negsuc n) = 50
page_limit (pos n) = if n == 0 || ltb 100 n then 50 else n

module _ (lid_map : String → Option String) where
  -- `canonicalChatJIDExpr`
  unfoldable pub canonical_chat_jid : String → String
  canonical_chat_jid jid =
      if str_eq (after_sep b'@' jid) "lid"
      then (elim (lid_map (before_sep b'@' jid)) [
        | none ↦ jid
        | some pn ↦ pn ++ₛ "@s.whatsapp.net"
      ])
      else jid

  -- The messages of a session, and of a chat if one is asked for.
  abbrev pub is_in_chat : ListMessagesParams → Message → Bool
  is_in_chat params m =
      str_eq m.session_id params.session_id
      && (is_empty (trim_space params.chat_jid)
          || str_eq (canonical_chat_jid m.chat_jid) (canonical_chat_jid params.chat_jid)
          || str_eq m.chat_jid params.chat_jid)

  -- The four queries of `List`: with a positive cursor only the messages with a smaller id.
  abbrev pub is_on_page : ListMessagesParams → Message → Bool
  is_on_page params m =
      is_in_chat params m && (not (is_positive params.cursor) || ltb m.id (pos_part params.cursor))

  unfoldable pub list : ListMessagesParams → Action (List Message)
  unfolding page_limit sql
  list params = wrapping "list messages" (
      sql (λ db. (
        ok (
            take (page_limit params.limit) (
              sort_by (largest_first (λ (m : Message). m.id))
                (keep (is_on_page params) db.messages))),
        db,
      )))
