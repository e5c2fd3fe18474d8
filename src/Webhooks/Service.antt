-- ===== src/Webhooks/Service.antt =====
-- internal/webhooks/service.go. The HTTP client and `json.Marshal` are parameters: `post` answers
-- each attempt at a delivery, named by the delivery and the number of the attempt, and says how
-- long it took; `marshal` is the JSON text of an envelope.
use interactive_whatsapp_meo.Base.{
  ℕ, zero, suc, ◌+◌, ◌-◌, ◌*◌, ◌^◌, String, ◌||◌, Option, none, some, List, [], ◌∷◌, Error, Result,
  ok, err, plain, wrap, error_text, ltb, leb, ◌==◌, if◌then◌else◌, take,
}
use interactive_whatsapp_meo.Base.Text.{◌++ₛ◌, decimal}
use interactive_whatsapp_meo.Store.Models.{Webhook, WebhookDelivery}
use interactive_whatsapp_meo.Store.Db.{
  Db, Action, pure, throw, wrapping, attempt, time_now, ◌>>=◌, ◌>>◌,
}
use interactive_whatsapp_meo.Store.Webhooks.{
  list_matching, enqueue_delivery, list_due_deliveries, start_attempt, mark_delivered, mark_retry,
  mark_failed,
}

-- How a POST can end: no request can be built, there is no answer, or there is one.
pub data Reply : Type 0 where
  bad_request : Error → Reply
  no_answer : Error → Reply
  response : (status_code : ℕ) (body : List ℕ) → Reply

pub record Exchange : Type 0 where
  pub took : ℕ
  pub reply : Reply

-- What `deliver` returns: the status code, the body and the error.
pub record Delivered : Type 0 where
  pub status_code : ℕ
  pub body : List ℕ
  pub failure : Option Error

-- `store.WebhookEnvelope`; the data is left abstract.
pub record Envelope (Payload : Type 0) : Type 0 where
  pub event : String
  pub session_id : String
  pub timestamp : ℕ
  pub payload : Payload

-- Durations are in nanoseconds.
abbrev pub second : ℕ
second = 1_000_000_000

unfoldable pub backoff_for_attempt : ℕ → ℕ
backoff_for_attempt attempt =
    let at_least = if ltb attempt 1 then 1 else attempt in
    let clamped = if ltb 5 at_least then 5 else at_least in 2 ^ (clamped - 1) * 10 * second

unfoldable pub int_pointer : ℕ → Option ℕ
int_pointer value = if value == 0 then none else some value

-- The part of a body that `io.LimitReader` lets through.
abbrev pub body_limit : ℕ
body_limit = 32 * 1024

-- `deliver`, after the exchange.
abbrev pub read_reply : Reply → Delivered
read_reply (bad_request e) = record {
  status_code = 0;
  body = [];
  failure = some (wrap "build request" e);
}
read_reply (no_answer e) = record {
  status_code = 0;
  body = [];
  failure = some (wrap "execute request" e);
}
read_reply (response status_code body) = record {
  status_code = status_code;
  body = take body_limit body;
  failure =
      if ltb status_code 200 || leb 300 status_code
      then some (plain ("unexpected response status " ++ₛ decimal status_code))
      else none;
}

-- The log of POSTs after an exchange: without a request nothing goes out.
abbrev pub logged : ℕ → Reply → List ℕ → List ℕ
logged id (bad_request e) posts = posts
logged id (no_answer e) posts = id ∷ posts
logged id (response status_code body) posts = id ∷ posts

-- What the worker records of an attempt.
unfoldable pub record_outcome : ℕ → ℕ → ℕ → Delivered → Action (Unit {0})
unfolding backoff_for_attempt int_pointer
record_outcome max_attempts id attempt_count result = elim result.failure [
  | none ↦ mark_delivered id result.status_code result.body
  | some e ↦
      if leb max_attempts attempt_count
      then mark_failed id (int_pointer result.status_code) result.body (error_text e)
      else (do
        now ← time_now
        mark_retry id (int_pointer result.status_code) result.body (error_text e)
            (now + backoff_for_attempt attempt_count))
]

module _ (post : WebhookDelivery → ℕ → Exchange) where
  -- The request goes out, and is logged, unless it cannot be built.
  unfoldable pub deliver : WebhookDelivery → ℕ → Action Delivered
  deliver delivery attempt_count db =
      let exchange = post delivery attempt_count in
      (
        ok (read_reply exchange.reply),
        record db {
          now = db.now + exchange.took;
          posts = logged delivery.row.id exchange.reply db.posts;
        },
      )

  -- One round of the loop in `processDue`.
  unfoldable pub process_delivery : ℕ → WebhookDelivery → Action (Unit {0})
  unfolding deliver record_outcome
  process_delivery max_attempts delivery = do
    let attempt_count = delivery.row.attempt_count + 1
    start_attempt delivery.row.id attempt_count
    result ← deliver delivery attempt_count
    record_outcome max_attempts delivery.row.id attempt_count result

  unfoldable pub process_all : ℕ → List WebhookDelivery → Action (Unit {0})
  process_all max_attempts [] = pure tt
  process_all max_attempts (delivery ∷ deliveries) =
      process_delivery max_attempts delivery >> process_all max_attempts deliveries

  unfoldable pub process_due : ℕ → ℕ → Action (Unit {0})
  unfolding process_all process_delivery
  process_due max_attempts batch_size = do
    now ← time_now
    deliveries ← list_due_deliveries now batch_size
    process_all max_attempts deliveries

  -- The loop of `run`, for a number of rounds: an error is logged and the loop goes on after the
  -- poll interval.
  unfoldable pub run : ℕ → ℕ → ℕ → ℕ → Db → Db
  run max_attempts batch_size poll_interval zero db = db
  run max_attempts batch_size poll_interval (suc rounds) db =
      let db' = (process_due max_attempts batch_size db).1 in
      run max_attempts batch_size poll_interval rounds
        (record db' { now = db'.now + poll_interval })

module _ {Payload : Type 0} (marshal : Envelope Payload → Result String) where
  -- The loop of `Emit`.
  unfoldable pub enqueue_all : String → String → String → List Webhook → Action (Unit {0})
  enqueue_all session_id event_type payload [] = pure tt
  enqueue_all session_id event_type payload (webhook ∷ webhooks) =
      wrapping "enqueue webhook delivery"
        (enqueue_delivery webhook.id session_id event_type payload)
      >> enqueue_all session_id event_type payload webhooks

  -- `Emit`, once the matching webhooks are known.
  unfoldable pub emit_to : String → String → Payload → List Webhook → Action (Unit {0})
  unfolding enqueue_all
  emit_to session_id event_type payload [] = pure tt
  emit_to session_id event_type payload (webhook ∷ webhooks) = do
    now ← time_now
    elim (marshal (record {
      event = event_type;
      session_id = session_id;
      timestamp = now;
      payload = payload;
    })) [
      | err e ↦ throw (wrap "marshal webhook payload" e)
      | ok text ↦ enqueue_all session_id event_type text (webhook ∷ webhooks)
    ]

  unfoldable pub emit : String → String → Payload → Action (Unit {0})
  unfolding emit_to
  emit session_id event_type payload = do
    webhooks ← wrapping "list matching webhooks" (list_matching session_id event_type)
    emit_to session_id event_type payload webhooks
