-- ===== src/Reads/Summary/Totals.antt =====
-- `buildDashboardTotals` and `GetDashboardSummary`: every session in one of the three columns.
use interactive_whatsapp_meo.Base.{
  ℕ, ◌+◌, ◌≡◌, refl, ◌∙◌, Bool, true, false, List, [], ◌∷◌, arith, if◌then◌else◌, keep, length,
}
use interactive_whatsapp_meo.Store.Models.{
  Session, SessionStatus, initializing, qr_ready, pairing, connected, disconnected, logged_out,
  deleted, error, status_eq,
}
use interactive_whatsapp_meo.Reads.Models.{DashboardTotals, MessageCounts}
use interactive_whatsapp_meo.Reads.Summary.{count_status, count_statuses, build_dashboard_totals}

-- How many sessions of a list have one of some statuses.
abbrev pub how_many : (SessionStatus → Bool) → List Session → ℕ
how_many test sessions = length (keep (λ (s : Session). test s.status) sessions)

abbrev pub is_connected : SessionStatus → Bool
is_connected status = status_eq status connected

abbrev pub is_pairing : SessionStatus → Bool
is_pairing initializing = true
is_pairing qr_ready = true
is_pairing pairing = true
is_pairing _ = false

abbrev pub is_offline : SessionStatus → Bool
is_offline disconnected = true
is_offline logged_out = true
is_offline error = true
is_offline _ = false

abbrev pub is_deleted : SessionStatus → Bool
is_deleted status = status_eq status deleted

-- The columns count the sessions of their statuses, and with the deleted ones they are all.
pub record Counts (sessions : List Session) (t : DashboardTotals) : Type 0 where
  pub connected : t.connected_sessions ≡ how_many is_connected sessions
  pub pairing : t.pairing_sessions ≡ how_many is_pairing sessions
  pub offline : t.disconnected_sessions ≡ how_many is_offline sessions
  pub total : t.total_sessions ≡ length sessions
  pub all :
      t.connected_sessions
        + t.pairing_sessions
        + t.disconnected_sessions
        + how_many is_deleted sessions
      ≡ t.total_sessions

-- One session is counted in one column.
count_status_lem :
    (status : SessionStatus) (t : DashboardTotals)
    → let t' = count_status status t in
      (t'.connected_sessions ≡ t.connected_sessions + (if is_connected status then 1 else 0))
      × (t'.pairing_sessions ≡ t.pairing_sessions + (if is_pairing status then 1 else 0))
      × (t'.disconnected_sessions ≡ t.disconnected_sessions + (if is_offline status then 1 else 0))
      × (t'.total_sessions ≡ t.total_sessions)
count_status_lem connected t = ground arith
count_status_lem initializing t = ground arith
count_status_lem qr_ready t = ground arith
count_status_lem pairing t = ground arith
count_status_lem disconnected t = ground arith
count_status_lem logged_out t = ground arith
count_status_lem error t = ground arith
count_status_lem deleted t = ground arith

-- Keeping a first element adds one where it passes.
how_many_cons :
    (test : SessionStatus → Bool) (s : Session) (sessions : List Session)
    → how_many test (s ∷ sessions) ≡ (if test s.status then 1 else 0) + how_many test sessions
how_many_cons test s sessions = ground arith

count_statuses_lem :
    (sessions : List Session) (t : DashboardTotals)
    → let t' = count_statuses sessions t in
      (t'.connected_sessions ≡ t.connected_sessions + how_many is_connected sessions)
      × (t'.pairing_sessions ≡ t.pairing_sessions + how_many is_pairing sessions)
      × (t'.disconnected_sessions ≡ t.disconnected_sessions + how_many is_offline sessions)
      × (t'.total_sessions ≡ t.total_sessions)
unfolding count_statuses
count_statuses_lem [] t = omega arith
count_statuses_lem (s ∷ sessions) t =
    let one = count_status_lem s.status t in
    let rest = count_statuses_lem sessions (count_status s.status t) in
    (
      rest.0 ∙ omega (arith, one.0, how_many_cons is_connected s sessions),
      rest.1 ∙ omega (arith, one.1, how_many_cons is_pairing s sessions),
      rest.2 ∙ omega (arith, one.2, how_many_cons is_offline s sessions),
      rest.3 ∙ one.3,
    )

one_column :
    (status : SessionStatus)
    → (if is_connected status then 1 else 0)
        + (if is_pairing status then 1 else 0)
        + (if is_offline status then 1 else 0)
        + (if is_deleted status then 1 else 0)
      ≡ 1
one_column connected = refl
one_column initializing = refl
one_column qr_ready = refl
one_column pairing = refl
one_column disconnected = refl
one_column logged_out = refl
one_column error = refl
one_column deleted = refl

columns :
    (sessions : List Session)
    → how_many is_connected sessions
        + how_many is_pairing sessions
        + how_many is_offline sessions
        + how_many is_deleted sessions
      ≡ length sessions
columns [] = refl
columns (s ∷ sessions) = omega (
  arith,
  columns sessions,
  one_column s.status,
  how_many_cons is_connected s sessions,
  how_many_cons is_pairing s sessions,
  how_many_cons is_offline s sessions,
  how_many_cons is_deleted s sessions,
)

-- `buildDashboardTotals` counts every session that is not deleted in one of the three columns, and
-- each column counts the sessions of its statuses.
pub build_dashboard_totals-Counts :
    (sessions : List Session) (counts : MessageCounts) (active_webhooks : ℕ)
    → Counts sessions (build_dashboard_totals sessions counts active_webhooks)
unfolding build_dashboard_totals
build_dashboard_totals-Counts sessions counts active_webhooks =
    let t = count_statuses_lem sessions _ in
    let c = columns sessions in
    record {
      connected = t.0 ∙ omega arith;
      pairing = t.1 ∙ omega arith;
      offline = t.2 ∙ omega arith;
      total = t.3;
      all = omega (arith, t.0, t.1, t.2, t.3, c);
    }
