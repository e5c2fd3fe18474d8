-- ===== src/Reads/Models.antt =====
-- internal/store/read_models.go, and the rows that the queries of read_service.go return.
-- A date is the number of its day since the epoch; Go writes it as a text.
use interactive_whatsapp_meo.Base.{ℕ, String, Option, List}
use interactive_whatsapp_meo.Store.Models.{Session, SessionStatus, MessageDirection, MessageStatus}

pub record DashboardTotals : Type 0 where
  pub total_sessions : ℕ
  pub connected_sessions : ℕ
  pub pairing_sessions : ℕ
  pub disconnected_sessions : ℕ
  pub messages_24h : ℕ
  pub inbound_24h : ℕ
  pub outbound_24h : ℕ
  pub active_webhooks : ℕ

pub record DashboardActivity : Type 0 where
  pub session_id : String
  pub message_id : String
  pub chat_jid : String
  pub direction : MessageDirection
  pub message_type : String
  pub text : String
  pub status : MessageStatus
  pub message_timestamp : ℕ

pub record DashboardSummary : Type 0 where
  pub totals : DashboardTotals
  pub sessions : List Session
  pub recent_activity : List DashboardActivity

pub record ChatSummary : Type 0 where
  pub session_id : String
  pub chat_jid : String
  pub last_message_id : String
  pub last_message_text : String
  pub last_message_type : String
  pub last_message_at : ℕ
  pub last_direction : MessageDirection
  pub message_count : ℕ

pub record AnalyticsSummaryInput : Type 0 where
  pub session_id : Option String
  pub range : String

pub record AnalyticsTotals : Type 0 where
  pub total_messages : ℕ
  pub inbound_messages : ℕ
  pub outbound_messages : ℕ
  pub active_chats : ℕ
  pub active_sessions : ℕ

pub record AnalyticsDaily : Type 0 where
  pub date : ℕ
  pub total_messages : ℕ
  pub inbound_messages : ℕ
  pub outbound_messages : ℕ

pub record AnalyticsChat : Type 0 where
  pub session_id : String
  pub chat_jid : String
  pub last_message_text : String
  pub last_message_at : ℕ
  pub message_count : ℕ

-- The status is NULL, read as an empty text, where the session has no row.
pub record SessionBreakdown : Type 0 where
  pub session_id : String
  pub name : String
  pub status : Option SessionStatus
  pub total_messages : ℕ
  pub inbound_messages : ℕ
  pub outbound_messages : ℕ
  pub last_message_at : Option ℕ

pub record AnalyticsSummary : Type 0 where
  pub range : ℕ  -- days
  pub totals : AnalyticsTotals
  pub daily_series : List AnalyticsDaily
  pub top_chats : List AnalyticsChat
  pub session_breakdown : List SessionBreakdown

-- `messageCounts`
pub record MessageCounts : Type 0 where
  pub total : ℕ
  pub inbound : ℕ
  pub outbound : ℕ
  pub active_chats : ℕ
  pub active_sessions : ℕ

-- `dailyCountRow`
pub record DailyCountRow : Type 0 where
  pub day : ℕ
  pub total : ℕ
  pub inbound : ℕ
  pub outbound : ℕ
