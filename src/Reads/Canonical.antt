-- ===== src/Reads/Canonical.antt =====
-- The queries of internal/store/read_service.go that take the canonical JID of a chat:
-- countRecentMessages and ListChats.
use interactive_whatsapp_meo.Base.{
  ℕ, String, Bool, true, ◌&&◌, Option, none, some, List, [], ◌∷◌, ◌++◌, map, ok, plain, str_eq, ltb,
  ◌==◌, if◌then◌else◌, keep, sort_by, length,
}
use interactive_whatsapp_meo.Base.Text.{is_empty, trim_space}
use interactive_whatsapp_meo.Store.Models.{Message}
use interactive_whatsapp_meo.Store.Db.{Action, throw, wrapping, sql}
use interactive_whatsapp_meo.Store.Messages.{canonical_chat_jid}
use interactive_whatsapp_meo.Reads.Groups.{distinct, group}
use interactive_whatsapp_meo.Reads.Models.{MessageCounts, ChatSummary}
use interactive_whatsapp_meo.Reads.Queries.{
  counted, inbound_of, outbound_of, session_of, preview, latest,
}

module _ (lid_map : String → Option String) where
  abbrev pub chat_of : Message → String
  chat_of m = canonical_chat_jid lid_map m.chat_jid

  abbrev pub counts_of : List Message → MessageCounts
  counts_of rows = record {
    total = length rows;
    inbound = inbound_of rows;
    outbound = outbound_of rows;
    active_chats = length (distinct str_eq (map chat_of rows));
    active_sessions = length (distinct str_eq (map session_of rows));
  }

  unfoldable pub count_recent_messages : ℕ → Option String → Action MessageCounts
  unfolding canonical_chat_jid sql
  count_recent_messages since session_id =
      sql (λ db. (ok (counts_of (counted since session_id db.messages)), db))

  -- A chat of `ListChats`, where its partition has a message.
  abbrev pub chat_summary : String → String → List Message → List ChatSummary
  chat_summary session_id chat_jid rows = elim (latest rows) [
    | none ↦ []
    | some m ↦
        record {
          session_id = session_id;
          chat_jid = chat_jid;
          last_message_id = m.external_message_id;
          last_message_text = preview m;
          last_message_type = m.message_type;
          last_message_at = m.message_timestamp;
          last_direction = m.direction;
          message_count = length rows;
        }
        ∷ []
  ]

  unfoldable pub chat_summaries : String → List Message → List String → List ChatSummary
  chat_summaries session_id rows [] = []
  chat_summaries session_id rows (jid ∷ jids) =
      chat_summary session_id jid (group str_eq chat_of jid rows)
      ++ chat_summaries session_id rows jids

  module _ (text_before : String → String → Bool) where
    -- `ORDER BY message_timestamp DESC, canonical_chat_jid ASC`
    abbrev pub latest_chat_first : ChatSummary → ChatSummary → Bool
    latest_chat_first a b =
        if ltb b.last_message_at a.last_message_at
        then true
        else b.last_message_at == a.last_message_at && text_before a.chat_jid b.chat_jid

    unfoldable pub list_chats : String → Action (List ChatSummary)
    unfolding chat_summaries canonical_chat_jid latest preview sql
    list_chats given =
        let session_id = trim_space given in
        if is_empty session_id
        then throw (plain "sessionId is required")
        else wrapping "query chats" (
            sql (λ db.
              let rows = keep (λ (m : Message). str_eq m.session_id session_id) db.messages in
              (
                ok (
                    sort_by latest_chat_first
                      (chat_summaries session_id rows (distinct str_eq (map chat_of rows)))),
                db,
              )))
