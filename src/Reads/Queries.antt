-- ===== src/Reads/Queries.antt =====
-- The queries of internal/store/read_service.go.
-- `text_before` is the order of texts in the database, which its collation decides.
use interactive_whatsapp_meo.Base.{
  ℕ, ◌*◌, ◌/◌, String, Bool, true, not, ◌&&◌, Option, none, some, List, [], ◌∷◌, ◌++◌, map, ok,
  str_eq, ltb, leb, ◌==◌, if◌then◌else◌, keep, sort_by, take, length,
}
use interactive_whatsapp_meo.Base.Text.{◌++ₛ◌, is_empty, trim_space}
use interactive_whatsapp_meo.Store.Models.{Message, SessionRow, is_outbound}
use interactive_whatsapp_meo.Store.Db.{Action, wrapping, sql}
use interactive_whatsapp_meo.Store.Table.{find}
use interactive_whatsapp_meo.Store.Sessions.{has_id}
use interactive_whatsapp_meo.Reads.Groups.{distinct, group}
use interactive_whatsapp_meo.Reads.Models.{
  DailyCountRow, DashboardActivity, AnalyticsChat, SessionBreakdown,
}

-- Durations and times are in nanoseconds.
abbrev pub day : ℕ
day = 86_400_000_000_000

-- The number of the day of a time, and the time at which the day starts.
abbrev pub day_of : ℕ → ℕ
day_of time = time / day

unfoldable pub start_of_utc_day : ℕ → ℕ
start_of_utc_day time = day_of time * day

-- `AND session_id = $2`, where a session is asked for.
abbrev pub is_for : Option String → Message → Bool
is_for none m = true
is_for (some session_id) m =
    if is_empty (trim_space session_id) then true else str_eq m.session_id (trim_space session_id)

-- `WHERE message_timestamp >= $1`, with the session.
abbrev pub is_counted : ℕ → Option String → Message → Bool
is_counted since session_id m = leb since m.message_timestamp && is_for session_id m

abbrev pub counted : ℕ → Option String → List Message → List Message
counted since session_id messages = keep (is_counted since session_id) messages

abbrev pub is_inbound : Message → Bool
is_inbound m = not (is_outbound m.direction)

abbrev pub inbound_of : List Message → ℕ
inbound_of rows = length (keep is_inbound rows)

abbrev pub outbound_of : List Message → ℕ
outbound_of rows = length (keep (λ m. is_outbound m.direction) rows)

abbrev pub session_of : Message → String
session_of m = m.session_id

-- `COALESCE(NULLIF(text, ''), NULLIF(media_file_name, ''), '[' || message_type || ']')`
unfoldable pub preview : Message → String
preview m =
    if not (is_empty m.text)
    then m.text
    else if not (is_empty m.media_file_name)
    then m.media_file_name
    else "[" ++ₛ (m.message_type ++ₛ "]")

-- `ORDER BY message_timestamp DESC, id DESC`
abbrev pub latest_first : Message → Message → Bool
latest_first a b =
    if ltb b.message_timestamp a.message_timestamp
    then true
    else b.message_timestamp == a.message_timestamp && leb b.id a.id

-- The row with `row_num = 1` of a partition.
unfoldable pub latest : List Message → Option Message
latest rows = elim (sort_by latest_first rows) [ [] ↦ none | m ∷ _ ↦ some m ]

abbrev pub activity_of : Message → DashboardActivity
activity_of m = record {
  session_id = m.session_id;
  message_id = m.external_message_id;
  chat_jid = m.chat_jid;
  direction = m.direction;
  message_type = m.message_type;
  text = preview m;
  status = m.status;
  message_timestamp = m.message_timestamp;
}

-- The limit is one of the code's constants, so it is positive.
unfoldable pub list_recent_activity : ℕ → Action (List DashboardActivity)
unfolding preview sql
list_recent_activity limit = wrapping "query recent activity" (
    sql (λ db. (
      ok (
          map activity_of
            (take (if limit == 0 then 12 else limit) (sort_by latest_first db.messages))),
      db,
    )))

unfoldable pub count_active_webhooks : Action ℕ
unfolding sql
count_active_webhooks = sql (λ db. (ok (length (keep (λ w. w.is_active) db.webhooks)), db))

-- The counts of one day.
abbrev pub daily_row : List Message → ℕ → DailyCountRow
daily_row rows d =
    let today = group ◌==◌ (λ (m : Message). day_of m.message_timestamp) d rows in
    record {
      day = d;
      total = length today;
      inbound = inbound_of today;
      outbound = outbound_of today;
    }

-- `GROUP BY 1 ORDER BY 1 ASC`
abbrev pub daily_rows : List Message → List DailyCountRow
daily_rows rows =
    map (daily_row rows) (sort_by leb (distinct ◌==◌ (map (λ m. day_of m.message_timestamp) rows)))

unfoldable pub list_daily_counts : ℕ → Option String → Action (List DailyCountRow)
unfolding sql
list_daily_counts since session_id =
    wrapping "query daily counts"
      (sql (λ db. (ok (daily_rows (counted since session_id db.messages)), db)))

-- A session with the counts of its messages, joined with its row in `sessions`.
abbrev pub breakdown_row : List SessionRow → List Message → String → SessionBreakdown
breakdown_row sessions rows session_id =
    let mine = group str_eq session_of session_id rows in
    let row = find (has_id session_id) sessions in
    record {
      session_id = session_id;
      name = elim row [ none ↦ "" | some r ↦ r.name ];
      status = elim row [ none ↦ none | some r ↦ some r.status ];
      total_messages = length mine;
      inbound_messages = inbound_of mine;
      outbound_messages = outbound_of mine;
      last_message_at = elim (latest mine) [ none ↦ none | some m ↦ some m.message_timestamp ];
    }

module _ (text_before : String → String → Bool) where
  -- `ORDER BY COUNT(*) DESC, m.session_id ASC`
  abbrev pub busiest_session_first : SessionBreakdown → SessionBreakdown → Bool
  busiest_session_first a b =
      if ltb b.total_messages a.total_messages
      then true
      else b.total_messages == a.total_messages && text_before a.session_id b.session_id

  abbrev pub breakdown : List SessionRow → List Message → List SessionBreakdown
  breakdown sessions rows =
      sort_by busiest_session_first
        (map (breakdown_row sessions rows) (distinct str_eq (map session_of rows)))

  unfoldable pub list_session_breakdown : ℕ → Option String → Action (List SessionBreakdown)
  unfolding sql latest
  list_session_breakdown since session_id =
      wrapping "query session breakdown"
        (sql (λ db. (ok (breakdown db.sessions (counted since session_id db.messages)), db)))

-- A chat with its last message, where the partition has one.
abbrev pub top_chat : String → String → List Message → List AnalyticsChat
top_chat session_id chat_jid rows = elim (latest rows) [
  | none ↦ []
  | some m ↦
      record {
        session_id = session_id;
        chat_jid = chat_jid;
        last_message_text = preview m;
        last_message_at = m.message_timestamp;
        message_count = length rows;
      }
      ∷ []
]

-- The chats of one session, by the JIDs as they are stored.
unfoldable pub top_chats_of : String → List Message → List String → List AnalyticsChat
top_chats_of session_id rows [] = []
top_chats_of session_id rows (jid ∷ jids) =
    top_chat session_id jid (group str_eq (λ (m : Message). m.chat_jid) jid rows)
    ++ top_chats_of session_id rows jids

unfoldable pub top_chats_in : List Message → List String → List AnalyticsChat
unfolding top_chats_of
top_chats_in rows [] = []
top_chats_in rows (session_id ∷ ids) =
    let mine = group str_eq session_of session_id rows in
    top_chats_of session_id mine (distinct str_eq (map (λ m. m.chat_jid) mine))
    ++ top_chats_in rows ids

-- `ORDER BY message_count DESC, message_timestamp DESC`
abbrev pub busiest_chat_first : AnalyticsChat → AnalyticsChat → Bool
busiest_chat_first a b =
    if ltb b.message_count a.message_count
    then true
    else b.message_count == a.message_count && leb b.last_message_at a.last_message_at

unfoldable pub list_top_chats : ℕ → Option String → ℕ → Action (List AnalyticsChat)
unfolding top_chats_in latest preview sql
list_top_chats since session_id limit = wrapping "query top chats" (
    sql (λ db.
      let rows = counted since session_id db.messages in
      (
        ok (
            take (if limit == 0 then 8 else limit) (
              sort_by busiest_chat_first
                (top_chats_in rows (distinct str_eq (map session_of rows))))),
        db,
      )))
