-- ===== src/Webhooks/Tests.antt =====
-- Runs of the webhook service, and its theorems at a small database.
use interactive_whatsapp_meo.Base.{
  ℕ, ◌*◌, ◌≤◌, arith, String, ◌≡◌, refl, some, none, [], ◌∷◌, ◌&&◌, leb, ltb, if◌then◌else◌, Result,
  ok, All, ◌+◌, true,
}
use interactive_whatsapp_meo.Store.Models.{Webhook, DeliveryRow, WebhookDelivery}
use interactive_whatsapp_meo.Store.Db.{Db, empty_db, sql, take_turn}
use interactive_whatsapp_meo.Store.Webhooks.{
  new_delivery, set_delivered, list_due_deliveries, due_rows, start_attempt, mark_delivered,
  mark_retry, update_delivery,
}
use interactive_whatsapp_meo.Store.Webhooks.Marks.{delivery_at}
use interactive_whatsapp_meo.Webhooks.Service.{
  deliver, process_due, process_all, record_outcome, Exchange, response, Envelope, second,
  backoff_for_attempt, process_delivery, run,
}
use interactive_whatsapp_meo.Webhooks.Backoff.{backoff_for_attempt_lem}
use interactive_whatsapp_meo.Webhooks.Delivery.{Processes, process_delivery-Processes}
use interactive_whatsapp_meo.Webhooks.Counts.{IsCounted}
use interactive_whatsapp_meo.Webhooks.Attempts.{run-IsCounted}
use interactive_whatsapp_meo.Store.Table.{HasKeys}
use interactive_whatsapp_meo.Base.Text.{decimal}
use interactive_whatsapp_meo.Webhooks.Posts.{posts_of}
use interactive_whatsapp_meo.Webhooks.Settled.{run_keeps_settled}

abbrev hook : Webhook
hook = record {
  id = 7;
  session_id = none;
  url = "https://example.org/hook";
  events = "message.sent" ∷ [];
  is_active = true;
  created_at = 1;
  updated_at = 1;
}

-- A queue with one delivery to make and one that was made.
abbrev waiting_row : DeliveryRow
waiting_row = new_delivery 7 "ana" "message.sent" "{}" 1 1

abbrev settled_row : DeliveryRow
settled_row = set_delivered 200 [] 1 (new_delivery 7 "ana" "message.sent" "{}" 2 1)

abbrev queue : Db
queue = record empty_db {
  webhooks = hook ∷ [];
  deliveries = waiting_row ∷ settled_row ∷ [];
  next_delivery = 3;
}

-- A receiver that is down until the second attempt.
abbrev flaky : WebhookDelivery → ℕ → Exchange
flaky delivery attempt_count = record {
  took = second;
  reply = response (if ltb attempt_count 2 then 503 else 204) [];
}

backoff_for_attempt_lem_example :
    (10 * second ≤ backoff_for_attempt 2)
    × (backoff_for_attempt 2 ≤ backoff_for_attempt 9)
    × (backoff_for_attempt 9 ≤ 160 * second)
    × (backoff_for_attempt (2 + 1)
        ≡ (if leb 1 2 && ltb 2 5 then 2 * backoff_for_attempt 2 else backoff_for_attempt 2))
backoff_for_attempt_lem_example = backoff_for_attempt_lem 2 9 (omega arith)

abbrev marshal : Envelope ℕ → Result String
marshal envelope = ok "{}"

process_delivery-Processes_example :
    Processes flaky 5
      (record { row = waiting_row; webhook_url = hook.url })
      waiting_row
      queue
      (process_delivery flaky 5 (record { row = waiting_row; webhook_url = hook.url }) queue)
process_delivery-Processes_example =
    process_delivery-Processes flaky 5 (record { row = waiting_row; webhook_url = hook.url })
      waiting_row queue refl

queue-keys : HasKeys (λ (d : DeliveryRow). d.id) queue.deliveries
queue-keys = ((λ e. omega (arith, e), tt), (tt, tt))

queue-IsCounted : All (IsCounted 5 queue.posts) queue.deliveries
queue-IsCounted = (
  record { sent = omega arith; within = omega arith; waiting = λ w. omega arith },
  (record { sent = omega arith; within = omega arith; waiting = λ w. omega arith }, tt),
)

run-IsCounted_example :
    let db' = run flaky 5 10 second 3 queue in
    All (IsCounted 5 db'.posts) db'.deliveries
    × All (λ d. posts_of d.id db'.posts ≤ 5) db'.deliveries
run-IsCounted_example = run-IsCounted flaky 5 10 second 3 queue queue-keys queue-IsCounted

run_keeps_settled_example :
    let db' = run flaky 5 10 second 3 queue in
    (delivery_at 2 db' ≡ some settled_row) × (posts_of 2 db'.posts ≡ posts_of 2 queue.posts)
run_keeps_settled_example =
    run_keeps_settled flaky 5 10 second 3 2 settled_row queue queue-keys refl refl

decimal_runs : (decimal 503 ≡ "503") × (decimal 0 ≡ "0")
unfolding decimal
decimal_runs = (refl, refl)

-- A receiver that stays down for one attempt is POSTed twice.
posted_twice : posts_of 1 (run flaky 5 10 (60 * second) 3 queue).posts ≡ 2
unfolding run process_due list_due_deliveries due_rows sql take_turn process_all process_delivery
    deliver start_attempt record_outcome mark_delivered mark_retry update_delivery
posted_twice = refl
