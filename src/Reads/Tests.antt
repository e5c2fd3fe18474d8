-- ===== src/Reads/Tests.antt =====
-- Runs of the read models, and their theorems at a small database.
use interactive_whatsapp_meo.Base.{
  Option, refl, none, [], ◌∷◌, List, String, Bool, true, arith, str_eq, keep,
}
use interactive_whatsapp_meo.Base.Text.{trim_space}
use interactive_whatsapp_meo.Store.Models.{Message}
use interactive_whatsapp_meo.Store.Db.{take_turn}
use interactive_whatsapp_meo.Store.Sessions.{scan_session}
use interactive_whatsapp_meo.Store.Messages.Tests.{three_messages}
use interactive_whatsapp_meo.Sessions.Login.{or_else}
use interactive_whatsapp_meo.Sessions.Tests.{ana}
use interactive_whatsapp_meo.Reads.Models.{
  AnalyticsSummaryInput, AnalyticsSummary, ChatSummary, MessageCounts,
}
use interactive_whatsapp_meo.Reads.Queries.{
  list_daily_counts, list_top_chats, list_session_breakdown,
}
use interactive_whatsapp_meo.Reads.Canonical.{list_chats, count_recent_messages}
use interactive_whatsapp_meo.Reads.Summary.{
  build_dashboard_totals, get_analytics_summary, range_start, normalize_analytics_range,
}
use interactive_whatsapp_meo.Reads.Summary.Balance.{Balances, get_analytics_summary-Balances}
use interactive_whatsapp_meo.Reads.Summary.Totals.{Counts, build_dashboard_totals-Counts}
use interactive_whatsapp_meo.Reads.Chats.{IsChatList, list_chats-IsChatList}

abbrev before : String → String → Bool
before a b = true

abbrev nobody : String → Option String
nobody user = none

abbrev three_counts : MessageCounts
three_counts = record {
  total = 3;
  inbound = 3;
  outbound = 0;
  active_chats = 1;
  active_sessions = 1;
}

build_dashboard_totals-Counts_example :
    Counts (scan_session ana ∷ []) (build_dashboard_totals (scan_session ana ∷ []) three_counts 1)
build_dashboard_totals-Counts_example =
    build_dashboard_totals-Counts (scan_session ana ∷ []) three_counts 1

abbrev chats : List ChatSummary
unfolding list_chats
chats = or_else [] (list_chats nobody before "ana" three_messages).0

list_chats-IsChatList_example :
    IsChatList nobody
      (keep (λ (m : Message). str_eq m.session_id (trim_space "ana")) three_messages.messages)
      chats
unfolding chats list_chats take_turn trim_space
list_chats-IsChatList_example = list_chats-IsChatList nobody before "ana" three_messages chats refl

abbrev week : AnalyticsSummaryInput
week = record { session_id = none; range = "7d" }

abbrev no_summary : AnalyticsSummary
no_summary = record {
  range = 0;
  totals = record {
    total_messages = 0;
    inbound_messages = 0;
    outbound_messages = 0;
    active_chats = 0;
    active_sessions = 0;
  };
  daily_series = [];
  top_chats = [];
  session_breakdown = [];
}

abbrev summary : AnalyticsSummary
unfolding get_analytics_summary
summary = or_else no_summary (get_analytics_summary nobody before week three_messages).0

get_analytics_summary-Balances_example :
    Balances
      (range_start three_messages.now (normalize_analytics_range week.range))
      (normalize_analytics_range week.range)
      summary
unfolding summary get_analytics_summary take_turn count_recent_messages list_daily_counts
    list_top_chats list_session_breakdown
get_analytics_summary-Balances_example =
    get_analytics_summary-Balances nobody before week three_messages summary
      (omega arith, (omega arith, (omega arith, tt))) refl
