-- ===== src/Reads/Summary/Series.antt =====
-- `buildDailySeries`: the series accounts for every message of its days.
use interactive_whatsapp_meo.Base.{
  ℕ, zero, suc, ◌+◌, ◌≤◌, ◌<◌, ◌≡◌, ◌≢◌, ◌↔◌, refl, ap, ◌∙◌, Bool, true, none, some, List, [], ◌∷◌,
  arith, ◌==◌, inl, inr, Bool-cases, if◌then◌else◌, map, keep, length, sort_by, All, All-map,
  All-keep, Option-cases, IsDistinct, leb,
}
use interactive_whatsapp_meo.Store.Models.{Message, is_outbound}
use interactive_whatsapp_meo.Reads.Models.{AnalyticsDaily, DailyCountRow}
use interactive_whatsapp_meo.Reads.Groups.{
  is_in, distinct, group, sum_by, is_in-sort_by, is_in-distinct, no_group, sum_of_groups,
  sum_by-ext,
}
use interactive_whatsapp_meo.Reads.Queries.{
  day_of, is_inbound, inbound_of, outbound_of, daily_row, daily_rows,
}
use interactive_whatsapp_meo.Reads.Summary.{row_of, daily_item, series_from}

-- `n` days from `first` on.
abbrev pub days : ℕ → ℕ → List ℕ
days first zero = []
days first (suc n) = first ∷ days (first + 1) n

abbrev pub message_day : Message → ℕ
message_day m = day_of m.message_timestamp

pub ==_lem : (a b : ℕ) → (a == b ≡ true) ↔ (a ≡ b)
==_lem a b = ((λ h. ground arith), (λ h. ground arith))

days_after : (k first n : ℕ) → k < first → All (λ d. k ≢ d) (days first n)
days_after k first zero h = tt
days_after k first (suc n) h =
    ((λ same. omega (arith, same)), days_after k (first + 1) n (omega arith))

days-IsDistinct : (first n : ℕ) → IsDistinct (days first n)
days-IsDistinct first zero = tt
days-IsDistinct first (suc n) =
    (days_after first (first + 1) n (omega arith), days-IsDistinct (first + 1) n)

is_in-days : (d first n : ℕ) → first ≤ d → d < first + n → is_in ◌==◌ d (days first n) ≡ true
is_in-days d first zero low high = absurd (omega arith)
is_in-days d first (suc n) low high = elim (Bool-cases (d == first)) [
  | inl here ↦ rw here refl
  | inr later ↦ rw later (is_in-days d (first + 1) n (ground arith) (omega arith))
]

-- The row of a day, in a list that has one row for each of some days.
module _ (f : ℕ → DailyCountRow) (day_f : (k : ℕ) → (f k).day ≡ k) where
  row_of-map :
      (d : ℕ) (ks : List ℕ) → row_of d (map f ks) ≡ (if is_in ◌==◌ d ks then some (f d) else none)
  unfolding row_of
  row_of-map d [] = refl
  row_of-map d (k ∷ ks) = ground (arith, row_of-map d ks, day_f k)

-- Rows counted twice over: those of a day that pass a test.
keep_comm :
    (p q : Message → Bool) (rows : List Message) → keep p (keep q rows) ≡ keep q (keep p rows)
keep_comm p q [] = refl
keep_comm p q (r ∷ rows) = ground (arith, keep_comm p q rows)

module _ (rows : List Message) where
  -- The item of a day counts the messages of that day, whether or not it has a row.
  daily_item-total :
      (d : ℕ)
      → let item = daily_item d (row_of d (daily_rows rows)) in
        let today = group ◌==◌ message_day d rows in
        (item.total_messages ≡ length today)
        × (item.inbound_messages ≡ inbound_of today)
        × (item.outbound_messages ≡ outbound_of today)
  daily_item-total d =
      let ks = distinct ◌==◌ (map message_day rows) in
      let found = row_of-map (daily_row rows) (λ k. refl) d (sort_by leb ks) in
      let there =
        is_in-sort_by ◌==◌ leb d ks ∙ is_in-distinct ◌==◌ ==_lem d (map message_day rows) in
      elim (Bool-cases (is_in ◌==◌ d (map message_day rows))) [
        | inl active ↦ rw (found, there, active) (refl, refl, refl)
        | inr quiet ↦
            rw (found, there, quiet, no_group ◌==◌ ==_lem message_day d rows quiet)
              (refl, refl, refl)
      ]

  -- Every message's day is one of `n` days from `first` on.
  abbrev pub IsWithin : ℕ → ℕ → Type 0
  IsWithin first n = All (λ m. (first ≤ message_day m) × (message_day m < first + n)) rows

-- The number of messages of some days that pass a test, one day after the other.
module _ (p : Message → Bool) where
  keep-IsWithin :
      (first n : ℕ) (rows : List Message) → IsWithin rows first n → IsWithin (keep p rows) first n
  keep-IsWithin first n rows h =
      All-keep (λ (m : Message). (first ≤ message_day m) × (message_day m < first + n)) p rows h

  pub sum_of_days :
      (first n : ℕ) (rows : List Message)
      → IsWithin rows first n
      → sum_by (λ d. length (keep p (group ◌==◌ message_day d rows))) (days first n)
        ≡ length (keep p rows)
  sum_of_days first n rows h =
      sum_by-ext _ (λ d. length (group ◌==◌ message_day d (keep p rows))) (days first n)
        (λ d. ap length (keep_comm p (λ m. message_day m == d) rows))
      ∙ sum_of_groups ◌==◌ ==_lem message_day (days first n) (keep p rows) (days-IsDistinct first n)
          (All-map (λ (m : Message). (first ≤ message_day m) × (message_day m < first + n)) _
            (λ m within. is_in-days (message_day m) first n within.0 within.1) (keep p rows)
            (keep-IsWithin first n rows h))

-- What the series adds up to: all messages of its days, and those of each direction; and its dates
-- are the days, one after the other.
pub record Accounts (first n : ℕ) (rows : List Message) (series : List AnalyticsDaily)
    : Type 0 where
  pub dates : map (λ i. i.date) series ≡ days first n
  pub total : sum_by (λ i. i.total_messages) series ≡ length rows
  pub inbound : sum_by (λ i. i.inbound_messages) series ≡ inbound_of rows
  pub outbound : sum_by (λ i. i.outbound_messages) series ≡ outbound_of rows

module _ (rows : List Message) where
  series_from-dates :
      (first n : ℕ) (daily : List DailyCountRow)
      → map (λ i. i.date) (series_from first n daily) ≡ days first n
  unfolding series_from
  series_from-dates first zero daily = refl
  series_from-dates first (suc n) daily = elim (Option-cases (row_of first daily)) [
    | inl absent ↦ rw absent (ap (λ l. first ∷ l) (series_from-dates (first + 1) n daily))
    | inr (row, there) ↦ rw there (ap (λ l. first ∷ l) (series_from-dates (first + 1) n daily))
  ]

  series_from-sums :
      (first n : ℕ)
      → let series = series_from first n (daily_rows rows) in
        let today = λ (d : ℕ). group ◌==◌ message_day d rows in
        (sum_by (λ i. i.total_messages) series ≡ sum_by (λ d. length (today d)) (days first n))
        × (sum_by (λ i. i.inbound_messages) series
            ≡ sum_by (λ d. inbound_of (today d)) (days first n))
        × (sum_by (λ i. i.outbound_messages) series
            ≡ sum_by (λ d. outbound_of (today d)) (days first n))
  unfolding series_from
  series_from-sums first zero = (refl, refl, refl)
  series_from-sums first (suc n) =
      let item = daily_item-total rows first in
      let rest = series_from-sums (first + 1) n in
      (omega (arith, item.0, rest.0), omega (arith, item.1, rest.1), omega (arith, item.2, rest.2))

  -- The series of the rows' daily counts accounts for the rows, where all fall on its days.
  pub series_from-Accounts :
      (first n : ℕ)
      → IsWithin rows first n
      → Accounts first n rows (series_from first n (daily_rows rows))
  series_from-Accounts first n h =
      let sums = series_from-sums first n in
      record {
        dates = series_from-dates first n (daily_rows rows);
        total =
            sums.0
            ∙ sum_of_groups ◌==◌ ==_lem message_day (days first n) rows (days-IsDistinct first n) (
                All-map (λ (m : Message). (first ≤ message_day m) × (message_day m < first + n)) _
                  (λ m within. is_in-days (message_day m) first n within.0 within.1) rows h);
        inbound = sums.1 ∙ sum_of_days is_inbound first n rows h;
        outbound = sums.2 ∙ sum_of_days (λ m. is_outbound m.direction) first n rows h;
      }
