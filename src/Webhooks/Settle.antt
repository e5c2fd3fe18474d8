-- ===== src/Webhooks/Settle.antt =====
-- How the worker records an attempt: `processDue` after the answer, as one rewrite of a row.
use interactive_whatsapp_meo.Base.{
  ℕ, ◌+◌, String, ◌≡◌, refl, Bool, false, not, ◌&&◌, none, some, arith, ltb, leb, if◌then◌else◌,
  error_text, Bool-cases, Option-cases, inl, inr,
}
use interactive_whatsapp_meo.Store.Models.{DeliveryStatus, DeliveryRow, delivered, failed, retry}
use interactive_whatsapp_meo.Store.Db.{Db}
use interactive_whatsapp_meo.Store.Webhooks.{
  update_delivery, mark_delivered, mark_retry, mark_failed, set_delivered, set_retry, set_failed,
}
use interactive_whatsapp_meo.Webhooks.Service.{
  Reply, bad_request, no_answer, response, Delivered, read_reply, backoff_for_attempt, int_pointer,
  record_outcome,
}

-- An answer with a status code from 200 to 299.
abbrev pub is_success : Reply → Bool
is_success (bad_request e) = false
is_success (no_answer e) = false
is_success (response status_code body) = leb 200 status_code && ltb status_code 300

-- The status that an attempt leads to.
abbrev pub status_after : ℕ → ℕ → Reply → DeliveryStatus
status_after max_attempts attempt_count reply =
    if is_success reply then delivered else if leb max_attempts attempt_count then failed else retry

-- The statement that records an attempt, as one rewrite of the row.
abbrev pub settle : ℕ → ℕ → ℕ → Delivered → ℕ → DeliveryRow → DeliveryRow
settle max_attempts attempt_count at result = elim result.failure [
  | none ↦ set_delivered result.status_code result.body
  | some e ↦
      if leb max_attempts attempt_count
      then set_failed (int_pointer result.status_code) result.body (error_text e)
      else set_retry (int_pointer result.status_code) result.body (error_text e)
          (at + backoff_for_attempt attempt_count)
]

abbrev pub settle_text : ℕ → ℕ → Delivered → String
settle_text max_attempts attempt_count result = elim result.failure [
  | none ↦ "mark webhook delivered"
  | some e ↦ if leb max_attempts attempt_count then "mark webhook failed" else "mark webhook retry"
]

pub record_outcome_lem :
    (max_attempts id attempt_count : ℕ) (result : Delivered) (db : Db)
    → record_outcome max_attempts id attempt_count result db
      ≡ update_delivery
          (settle_text max_attempts attempt_count result)
          id
          (settle max_attempts attempt_count db.now result)
          db
unfolding record_outcome mark_delivered mark_failed mark_retry
record_outcome_lem max_attempts id attempt_count result db = elim (Option-cases result.failure) [
  | inl fine ↦ rw fine refl
  | inr (e, wrong) ↦ elim (Bool-cases (leb max_attempts attempt_count)) [
    | inl last ↦ rw (wrong, last) refl
    | inr again ↦ rw (wrong, again) refl
  ]
]

-- What `settle` does to the columns that the worker reads.
pub settle_lem :
    (max_attempts attempt_count at n : ℕ) (reply : Reply) (d : DeliveryRow)
    → let d' = settle max_attempts attempt_count at (read_reply reply) n d in
      (d'.id ≡ d.id)
      × (d'.status ≡ status_after max_attempts attempt_count reply)
      × (d'.attempt_count ≡ d.attempt_count)
      × (d'.next_attempt_at ≡ (
          if not (is_success reply) && not (leb max_attempts attempt_count)
          then at + backoff_for_attempt attempt_count
          else d.next_attempt_at))
settle_lem max_attempts attempt_count at n (bad_request e) d = ground arith
settle_lem max_attempts attempt_count at n (no_answer e) d = ground arith
settle_lem max_attempts attempt_count at n (response code body) d = ground arith
