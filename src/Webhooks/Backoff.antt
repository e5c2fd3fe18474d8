-- ===== src/Webhooks/Backoff.antt =====
-- `backoffForAttempt`: the wait before the next attempt.
use interactive_whatsapp_meo.Base.{
  ℕ, zero, suc, ◌+◌, ◌*◌, ◌≤◌, ◌≡◌, refl, ◌⊎◌, inl, inr, arith, ◌&&◌, leb, ltb, if◌then◌else◌,
}
use interactive_whatsapp_meo.Webhooks.Service.{second, backoff_for_attempt}

-- The waits, in full: ten seconds at first, doubled at each attempt, and never more than at the
-- fifth.
backoff_table :
    (n : ℕ)
    → ((n ≤ 1) × (backoff_for_attempt n ≡ 10 * second))
      ⊎ ((n ≡ 2) × (backoff_for_attempt n ≡ 20 * second))
      ⊎ ((n ≡ 3) × (backoff_for_attempt n ≡ 40 * second))
      ⊎ ((n ≡ 4) × (backoff_for_attempt n ≡ 80 * second))
      ⊎ ((5 ≤ n) × (backoff_for_attempt n ≡ 160 * second))
unfolding backoff_for_attempt
backoff_table zero = inl (omega arith, refl)
backoff_table (suc zero) = inl (omega arith, refl)
backoff_table (suc (suc zero)) = inr (inl (refl, refl))
backoff_table (suc (suc (suc zero))) = inr (inr (inl (refl, refl)))
backoff_table (suc (suc (suc (suc zero)))) = inr (inr (inr (inl (refl, refl))))
backoff_table (suc (suc (suc (suc (suc zero))))) = inr (inr (inr (inr (omega arith, refl))))
backoff_table (suc (suc (suc (suc (suc (suc n)))))) =
    inr (inr (inr (inr (omega arith, ground arith))))

-- The wait lies between ten seconds and 160, which fits the 64 bits of a `time.Duration`; it never
-- falls from one attempt to a later one; and from the first attempt to the fifth it doubles.
pub backoff_for_attempt_lem :
    (m n : ℕ)
    → m ≤ n
    → (10 * second ≤ backoff_for_attempt m)
      × (backoff_for_attempt m ≤ backoff_for_attempt n)
      × (backoff_for_attempt n ≤ 160 * second)
      × (backoff_for_attempt (m + 1)
          ≡ (if leb 1 m && ltb m 5 then 2 * backoff_for_attempt m else backoff_for_attempt m))
backoff_for_attempt_lem m n h =
    let at_m = backoff_table m in
    let at_n = backoff_table n in
    let at_next = backoff_table (m + 1) in (omega arith, omega arith, omega arith, ground arith)
