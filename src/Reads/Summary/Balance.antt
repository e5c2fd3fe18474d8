-- ===== src/Reads/Summary/Balance.antt =====
-- `GetAnalyticsSummary`: its parts agree with one another.
use text.Mathlib.TextEquality.{eq_iff}
use interactive_whatsapp_meo.Base.{
  ℕ, ◌+◌, ◌*◌, ◌≤◌, ◌<◌, ◌≡◌, ◌⊎◌, refl, ap, ◌∙◌, String, Bool, Option, List, [], ◌∷◌, arith, inl,
  inr, Bool-cases, Option-cases, map, str_eq, length, All, ok, Result-cases,
}
use interactive_whatsapp_meo.Base.Text.{trim_space}
use interactive_whatsapp_meo.Store.Models.{Message, SessionRow}
use interactive_whatsapp_meo.Store.Db.{Db, take_turn, take_turn-IsTurn}
use interactive_whatsapp_meo.Reads.Models.{
  AnalyticsSummaryInput, AnalyticsSummary, SessionBreakdown, MessageCounts, DailyCountRow,
}
use interactive_whatsapp_meo.Reads.Groups.{
  distinct, sum_by, sum_by-sort_by, sum_by-map, distinct-IsDistinct, keys_cover, sum_of_groups,
}
use interactive_whatsapp_meo.Reads.Queries.{
  day, day_of, is_counted, counted, inbound_of, outbound_of, session_of, daily_rows, breakdown_row,
  breakdown, list_daily_counts, list_top_chats, list_session_breakdown,
}
use interactive_whatsapp_meo.Reads.Canonical.{counts_of, count_recent_messages}
use interactive_whatsapp_meo.Reads.Summary.{
  build_analytics_totals, build_daily_series, normalize_analytics_range, range_start,
  get_analytics_summary,
}
use interactive_whatsapp_meo.Reads.Summary.Series.{days, IsWithin, series_from-Accounts}

-- A message goes in or out.
directions : (rows : List Message) → inbound_of rows + outbound_of rows ≡ length rows
directions [] = refl
directions (r ∷ rows) = ground (arith, directions rows)

-- The breakdown counts every message in one session.
breakdown-total :
    (text_before : String → String → Bool) (sessions : List SessionRow) (rows : List Message)
    → sum_by (λ b. b.total_messages) (breakdown text_before sessions rows) ≡ length rows
breakdown-total text_before sessions rows =
    let ids = distinct str_eq (map session_of rows) in
    sum_by-sort_by (λ b. b.total_messages) _ (map (breakdown_row sessions rows) ids)
    ∙ sum_by-map (λ b. b.total_messages) (breakdown_row sessions rows) ids
    ∙ sum_of_groups str_eq eq_iff session_of ids rows
        (distinct-IsDistinct str_eq eq_iff (map session_of rows))
        (keys_cover str_eq eq_iff session_of rows)

-- A query that succeeds answers from the tables as they are, and changes none of them.
module _ (db : Db) (since : ℕ) (session_id : Option String) where
  module _ (lid_map : String → Option String) where
    count_recent_messages_lem :
        (counts : MessageCounts)
        → (count_recent_messages lid_map since session_id db).0 ≡ ok counts
        → counts ≡ counts_of lid_map (counted since session_id db.messages)
    unfolding count_recent_messages
    count_recent_messages_lem counts h = elim (Option-cases (take_turn db).0) [
      | inr (e, broke) ↦ absurd (ground (arith, h))
      | inl went ↦ rw (← (take_turn-IsTurn db).messages) (ground (arith, h))
    ]

    count_recent_messages-keeps :
        ((count_recent_messages lid_map since session_id db).1.messages ≡ db.messages)
        × ((count_recent_messages lid_map since session_id db).1.sessions ≡ db.sessions)
    unfolding count_recent_messages
    count_recent_messages-keeps = ground (arith, take_turn-IsTurn db)

  list_daily_counts_lem :
      (daily : List DailyCountRow)
      → (list_daily_counts since session_id db).0 ≡ ok daily
      → daily ≡ daily_rows (counted since session_id db.messages)
  unfolding list_daily_counts
  list_daily_counts_lem daily h = elim (Option-cases (take_turn db).0) [
    | inr (e, broke) ↦ absurd (ground (arith, h))
    | inl went ↦ rw (← (take_turn-IsTurn db).messages) (ground (arith, h))
  ]

  list_daily_counts-keeps :
      ((list_daily_counts since session_id db).1.messages ≡ db.messages)
      × ((list_daily_counts since session_id db).1.sessions ≡ db.sessions)
  unfolding list_daily_counts
  list_daily_counts-keeps = ground (arith, take_turn-IsTurn db)

  list_top_chats-keeps :
      (limit : ℕ)
      → ((list_top_chats since session_id limit db).1.messages ≡ db.messages)
        × ((list_top_chats since session_id limit db).1.sessions ≡ db.sessions)
  unfolding list_top_chats
  list_top_chats-keeps limit = ground (arith, take_turn-IsTurn db)

  list_session_breakdown_lem :
      (text_before : String → String → Bool) (items : List SessionBreakdown)
      → (list_session_breakdown text_before since session_id db).0 ≡ ok items
      → items ≡ breakdown text_before db.sessions (counted since session_id db.messages)
  unfolding list_session_breakdown
  list_session_breakdown_lem text_before items h = elim (Option-cases (take_turn db).0) [
    | inr (e, broke) ↦ absurd (ground (arith, h))
    | inl went ↦
        rw (← (take_turn-IsTurn db).messages, ← (take_turn-IsTurn db).sessions) (ground (arith, h))
  ]

-- The parts of a summary, each read from the same tables.
record IsSummary (lid_map : String → Option String) (text_before : String → String → Bool)
    (start day_count : ℕ) (sessions : List SessionRow) (rows : List Message) (s : AnalyticsSummary)
    : Type 0 where
  range : s.range ≡ day_count
  totals : s.totals ≡ build_analytics_totals (counts_of lid_map rows)
  daily_series : s.daily_series ≡ build_daily_series start day_count (daily_rows rows)
  session_breakdown : s.session_breakdown ≡ breakdown text_before sessions rows

module _ (lid_map : String → Option String) (text_before : String → String → Bool)
    (input : AnalyticsSummaryInput) (db : Db) where
  abbrev pub day_count : ℕ
  day_count = normalize_analytics_range input.range

  abbrev pub start : ℕ
  start = range_start db.now day_count

  get_analytics_summary-IsSummary :
      (s : AnalyticsSummary)
      → (get_analytics_summary lid_map text_before input db).0 ≡ ok s
      → IsSummary lid_map text_before start day_count db.sessions
          (counted start input.session_id db.messages)
          s
  unfolding get_analytics_summary
  get_analytics_summary-IsSummary s h =
      let sid = input.session_id in
      let q1 = count_recent_messages lid_map start sid db in
      let keeps1 = count_recent_messages-keeps db start sid lid_map in
      elim (Result-cases q1.0) [
        | inr (e, failed) ↦ absurd (ground (arith, h, failed))
        | inl (counts, fine1) ↦
            let q2 = list_daily_counts start sid q1.1 in
            let keeps2 = list_daily_counts-keeps q1.1 start sid in
            elim (Result-cases q2.0) [
              | inr (e, failed) ↦ absurd (ground (arith, h, fine1, failed))
              | inl (daily, fine2) ↦
                  let q3 = list_top_chats start sid 8 q2.1 in
                  let keeps3 = list_top_chats-keeps q2.1 start sid 8 in
                  elim (Result-cases q3.0) [
                    | inr (e, failed) ↦ absurd (ground (arith, h, fine1, fine2, failed))
                    | inl (top, fine3) ↦
                        let q4 = list_session_breakdown text_before start sid q3.1 in
                        elim (Result-cases q4.0) [
                          | inr (e, failed) ↦
                              absurd (ground (arith, h, fine1, fine2, fine3, failed))
                          | inl (items, fine4) ↦
                              let at1 =
                                count_recent_messages_lem db start sid lid_map counts fine1 in
                              let at2 = list_daily_counts_lem q1.1 start sid daily fine2 in
                              let at4 =
                                list_session_breakdown_lem q3.1 start sid text_before items fine4 in
                              record {
                                range = ground (arith, h, fine1, fine2, fine3, fine4);
                                totals = ground (arith, h, fine1, fine2, fine3, fine4, at1);
                                daily_series =
                                    ground (arith, h, fine1, fine2, fine3, fine4)
                                    ∙ ap (build_daily_series start day_count)
                                        (at2 ∙ ap (λ l. daily_rows (counted start sid l)) keeps1.0);
                                session_breakdown =
                                    ground (arith, h, fine1, fine2, fine3, fine4)
                                    ∙ at4
                                    ∙ ap
                                        (λ l.
                                          breakdown text_before l (counted start sid q3.1.messages))
                                        (keeps3.1 ∙ keeps2.1 ∙ keeps1.1)
                                    ∙ ap
                                        (λ l.
                                          breakdown text_before db.sessions (counted start sid l))
                                        (keeps3.0 ∙ keeps2.0 ∙ keeps1.0);
                              }
                        ]
                  ]
            ]
      ]

in_range :
    (now time n : ℕ)
    → (n ≡ 30) ⊎ (n ≡ 7)
    → range_start now n ≤ time
    → time < (day_of now + 1) * day
    → (day_of (range_start now n) ≤ day_of time) × (day_of time < day_of (range_start now n) + n)
unfolding range_start
in_range now time n (inl thirty) low high = omega arith
in_range now time n (inr seven) low high = omega arith

-- The messages of the range fall on its days, if none is dated later than today.
counted-IsWithin :
    (now n : ℕ) (session_id : Option String) (messages : List Message)
    → (n ≡ 30) ⊎ (n ≡ 7)
    → All (λ m. m.message_timestamp < (day_of now + 1) * day) messages
    → IsWithin (counted (range_start now n) session_id messages) (day_of (range_start now n)) n
counted-IsWithin now n session_id [] width today = tt
counted-IsWithin now n session_id (m ∷ ms) width today =
    let rest = counted-IsWithin now n session_id ms width today.1 in
    elim (Bool-cases (is_counted (range_start now n) session_id m)) [
      | inr out ↦ rw out rest
      | inl in_it ↦
          rw in_it (in_range now m.message_timestamp n width (ground (arith, in_it)) today.0, rest)
    ]

range_width :
    (value : String)
    → (normalize_analytics_range value ≡ 30) ⊎ (normalize_analytics_range value ≡ 7)
unfolding normalize_analytics_range
range_width value = elim (Bool-cases (str_eq (trim_space value) "30d")) [
  | inl y ↦ inl (rw y refl)
  | inr n ↦ inr (rw n refl)
]

-- The totals count the messages of the range, each in one direction; the series has an item for
-- each day of the range, whose counts add up to the totals; so do those of the sessions.
pub record Balances (start n : ℕ) (s : AnalyticsSummary) : Type 0 where
  pub directions : s.totals.inbound_messages + s.totals.outbound_messages ≡ s.totals.total_messages
  pub dates : map (λ i. i.date) s.daily_series ≡ days (day_of start) n
  pub total : sum_by (λ i. i.total_messages) s.daily_series ≡ s.totals.total_messages
  pub inbound : sum_by (λ i. i.inbound_messages) s.daily_series ≡ s.totals.inbound_messages
  pub outbound : sum_by (λ i. i.outbound_messages) s.daily_series ≡ s.totals.outbound_messages
  pub sessions : sum_by (λ b. b.total_messages) s.session_breakdown ≡ s.totals.total_messages

-- When `GetAnalyticsSummary` succeeds and no message is dated later than today, the summary adds
-- up: inbound and outbound messages make the total; the series has one item for each day of the
-- range, in order, and its items add up to the totals, in each direction too; and the counts of
-- the sessions add up to the total.
pub get_analytics_summary-Balances :
    (lid_map : String → Option String) (text_before : String → String → Bool)
    (input : AnalyticsSummaryInput) (db : Db) (s : AnalyticsSummary)
    → All (λ m. m.message_timestamp < (day_of db.now + 1) * day) db.messages
    → (get_analytics_summary lid_map text_before input db).0 ≡ ok s
    → Balances
        (range_start db.now (normalize_analytics_range input.range))
        (normalize_analytics_range input.range)
        s
unfolding build_analytics_totals build_daily_series
get_analytics_summary-Balances lid_map text_before input db s today h =
    let n = normalize_analytics_range input.range in
    let first = range_start db.now n in
    let rows = counted first input.session_id db.messages in
    let parts = get_analytics_summary-IsSummary lid_map text_before input db s h in
    let within =
      counted-IsWithin db.now n input.session_id db.messages (range_width input.range) today in
    let series = series_from-Accounts rows (day_of first) n within in
    record {
      directions = rw parts.totals (directions rows);
      dates = rw parts.daily_series series.dates;
      total = rw (parts.daily_series, parts.totals) series.total;
      inbound = rw (parts.daily_series, parts.totals) series.inbound;
      outbound = rw (parts.daily_series, parts.totals) series.outbound;
      sessions =
          rw (parts.session_breakdown, parts.totals) (breakdown-total text_before db.sessions rows);
    }
