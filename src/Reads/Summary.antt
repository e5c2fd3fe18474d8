-- ===== src/Reads/Summary.antt =====
-- What internal/store/read_service.go makes of the queries: the dashboard and the analytics.
pub mod Series
pub mod Balance
pub mod Totals
use interactive_whatsapp_meo.Base.{
  ℕ, zero, suc, ◌+◌, ◌-◌, ◌*◌, String, Bool, true, false, Option, none, some, List, [], ◌∷◌, ok,
  str_eq, ◌==◌, if◌then◌else◌, length,
}
use interactive_whatsapp_meo.Base.Text.{trim_space}
use interactive_whatsapp_meo.Store.Models.{
  Session, SessionStatus, initializing, qr_ready, pairing, connected, disconnected, logged_out,
  deleted, error,
}
use interactive_whatsapp_meo.Store.Db.{Db, Action, pure, wrapping, time_now, ◌>>=◌, ◌>>◌}
use interactive_whatsapp_meo.Store.Sessions
use interactive_whatsapp_meo.Reads.Models.{
  DashboardTotals, DashboardSummary, AnalyticsSummaryInput, AnalyticsTotals, AnalyticsDaily,
  AnalyticsSummary, MessageCounts, DailyCountRow,
}
use interactive_whatsapp_meo.Reads.Queries.{
  day, day_of, start_of_utc_day, count_active_webhooks, list_recent_activity, list_daily_counts,
  list_top_chats, list_session_breakdown,
}
use interactive_whatsapp_meo.Reads.Canonical.{count_recent_messages}

-- The `switch` in the loop of `buildDashboardTotals`.
abbrev pub count_status : SessionStatus → DashboardTotals → DashboardTotals
count_status connected t = record t { connected_sessions = t.connected_sessions + 1 }
count_status initializing t = record t { pairing_sessions = t.pairing_sessions + 1 }
count_status qr_ready t = record t { pairing_sessions = t.pairing_sessions + 1 }
count_status pairing t = record t { pairing_sessions = t.pairing_sessions + 1 }
count_status disconnected t = record t { disconnected_sessions = t.disconnected_sessions + 1 }
count_status logged_out t = record t { disconnected_sessions = t.disconnected_sessions + 1 }
count_status error t = record t { disconnected_sessions = t.disconnected_sessions + 1 }
count_status deleted t = t

unfoldable pub count_statuses : List Session → DashboardTotals → DashboardTotals
count_statuses [] t = t
count_statuses (s ∷ sessions) t = count_statuses sessions (count_status s.status t)

unfoldable pub build_dashboard_totals : List Session → MessageCounts → ℕ → DashboardTotals
unfolding count_statuses
build_dashboard_totals sessions counts active_webhooks = count_statuses sessions (record {
  total_sessions = length sessions;
  connected_sessions = 0;
  pairing_sessions = 0;
  disconnected_sessions = 0;
  messages_24h = counts.total;
  inbound_24h = counts.inbound;
  outbound_24h = counts.outbound;
  active_webhooks = active_webhooks;
})

unfoldable pub build_analytics_totals : MessageCounts → AnalyticsTotals
build_analytics_totals counts = record {
  total_messages = counts.total;
  inbound_messages = counts.inbound;
  outbound_messages = counts.outbound;
  active_chats = counts.active_chats;
  active_sessions = counts.active_sessions;
}

-- `rowMap`: a later row of a day replaces an earlier one.
unfoldable pub row_of : ℕ → List DailyCountRow → Option DailyCountRow
row_of d [] = none
row_of d (row ∷ rows) = elim (row_of d rows) [
  | some later ↦ some later
  | none ↦ if row.day == d then some row else none
]

-- One day of the series.
abbrev pub daily_item : ℕ → Option DailyCountRow → AnalyticsDaily
daily_item d none = record {
  date = d;
  total_messages = 0;
  inbound_messages = 0;
  outbound_messages = 0;
}
daily_item d (some row) = record {
  date = d;
  total_messages = row.total;
  inbound_messages = row.inbound;
  outbound_messages = row.outbound;
}

-- The loop, for the days from `first` on.
unfoldable pub series_from : ℕ → ℕ → List DailyCountRow → List AnalyticsDaily
unfolding row_of
series_from first zero rows = []
series_from first (suc rounds) rows =
    daily_item first (row_of first rows) ∷ series_from (first + 1) rounds rows

unfoldable pub build_daily_series : ℕ → ℕ → List DailyCountRow → List AnalyticsDaily
unfolding series_from
build_daily_series start day_count rows = series_from (day_of start) day_count rows

unfoldable pub normalize_analytics_range : String → ℕ
normalize_analytics_range value = if str_eq (trim_space value) "30d" then 30 else 7

-- The start of the range, `day_count` days with today's.
unfoldable pub range_start : ℕ → ℕ → ℕ
unfolding start_of_utc_day
range_start now day_count = start_of_utc_day now - (day_count - 1) * day

module _ (lid_map : String → Option String) (text_before : String → String → Bool) where
  unfoldable pub get_dashboard_summary : Action DashboardSummary
  unfolding build_dashboard_totals
  get_dashboard_summary = do
    sessions ← wrapping "list sessions" Sessions.list
    now ← time_now
    counts ← wrapping "count recent messages" (count_recent_messages lid_map (now - day) none)
    active_webhooks ← wrapping "count active webhooks" count_active_webhooks
    activity ← wrapping "list recent activity" (list_recent_activity 12)
    pure (record {
      totals = build_dashboard_totals sessions counts active_webhooks;
      sessions = sessions;
      recent_activity = activity;
    })

  unfoldable pub get_analytics_summary : AnalyticsSummaryInput → Action AnalyticsSummary
  unfolding build_analytics_totals build_daily_series range_start
  get_analytics_summary input = do
    now ← time_now
    let day_count = normalize_analytics_range input.range
    let start = range_start now day_count
    totals ←
        wrapping "count analytics totals" (count_recent_messages lid_map start input.session_id)
    daily ← wrapping "list daily counts" (list_daily_counts start input.session_id)
    top_chats ← wrapping "list top chats" (list_top_chats start input.session_id 8)
    breakdown ←
        wrapping "list session breakdown"
          (list_session_breakdown text_before start input.session_id)
    pure (record {
      range = day_count;
      totals = build_analytics_totals totals;
      daily_series = build_daily_series start day_count daily;
      top_chats = top_chats;
      session_breakdown = breakdown;
    })
