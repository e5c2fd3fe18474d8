-- ===== src/Store/Webhooks.antt =====
-- internal/store/webhook_repo.go: the tables `webhooks` and `webhook_deliveries`.
pub mod Due
pub mod Marks
use interactive_whatsapp_meo.Base.{
  ℕ, ◌+◌, String, Bool, true, false, not, ◌&&◌, ◌||◌, Option, none, some, List, [], ◌∷◌, ◌++◌, map,
  ok, err, sentinel, not_found, plain, str_eq, ltb, leb, ◌==◌, is_some, if◌then◌else◌, keep, map_if,
  sort_by, take,
}
use interactive_whatsapp_meo.Base.Int.{ℤ, pos, negsuc}
use interactive_whatsapp_meo.Store.Models.{
  Webhook, DeliveryStatus, pending, processing, retry, delivered, failed, DeliveryRow,
  WebhookDelivery,
}
use interactive_whatsapp_meo.Store.Db.{Db, Action, pure, throw, wrapping, sql, ◌>>=◌, ◌>>◌}
use interactive_whatsapp_meo.Store.Table.{find}
use interactive_whatsapp_meo.Store.Sessions.{has_id}

-- A nil slice of events is taken for an empty one.
pub record CreateWebhookParams : Type 0 where
  pub session_id : Option String
  pub url : String
  pub events : List String

-- The foreign key on `session_id`.
abbrev pub refers_to_session : Option String → Db → Bool
refers_to_session none db = true
refers_to_session (some id) db = is_some (find (has_id id) db.sessions)

insert_webhook : CreateWebhookParams → Action Webhook
insert_webhook params before =
    let db = record before { next_webhook = before.next_webhook + 1 } in
    let row : Webhook = record {
      id = before.next_webhook;
      session_id = params.session_id;
      url = params.url;
      events = params.events;
      is_active = true;
      created_at = before.now;
      updated_at = before.now;
    } in
    if refers_to_session params.session_id db
    then (ok row, record db { webhooks = db.webhooks ++ row ∷ [] })
    else (err (plain "violates foreign key constraint"), db)

unfoldable pub create : CreateWebhookParams → Action Webhook
unfolding insert_webhook sql
create params = wrapping "create webhook" (sql (insert_webhook params))

abbrev pub newest_first : Webhook → Webhook → Bool
newest_first a b = leb b.created_at a.created_at

abbrev pub oldest_first : Webhook → Webhook → Bool
oldest_first a b = leb a.created_at b.created_at

-- `session_id = $1 OR session_id IS NULL`
abbrev pub concerns : String → Webhook → Bool
concerns session_id w = elim w.session_id [ none ↦ true | some id ↦ str_eq id session_id ]

abbrev pub is_listed : Option String → Webhook → Bool
is_listed none w = true
is_listed (some session_id) w = concerns session_id w

unfoldable pub list : Option String → Action (List Webhook)
unfolding sql
list session_id =
    wrapping "list webhooks"
      (sql (λ db. (ok (sort_by newest_first (keep (is_listed session_id) db.webhooks)), db)))

-- Whether a row has an id that the caller gave, an `int64`.
abbrev is_id : ℤ → ℕ → Bool
is_id (pos n) id = id == n
is_id (negsuc n) id = false

-- `DELETE FROM webhooks`; the deliveries of the webhook go with it.
delete_webhook : ℤ → Action (Unit {0})
delete_webhook id db =
    let rest = record db {
      webhooks = keep (λ w. not (is_id id w.id)) db.webhooks;
      deliveries = keep (λ d. not (is_id id d.webhook_id)) db.deliveries;
    } in
    if is_some (find (λ w. is_id id w.id) db.webhooks)
    then (ok tt, rest)
    else (err (sentinel not_found), rest)

-- An error of the call is wrapped; that no row was affected is not.
unfoldable pub delete : ℤ → Action (Unit {0})
unfolding delete_webhook sql
delete id = do
  gone ←
      wrapping "delete webhook"
        (sql (λ db. let (answer, db') = delete_webhook id db in (ok answer, db')))
  λ db. (gone, db)

abbrev pub mem : String → List String → Bool
mem s [] = false
mem s (t ∷ ts) = str_eq s t || mem s ts

-- `is_active = TRUE AND $2 = ANY(events) AND (session_id IS NULL OR session_id = $1)`
abbrev pub is_matching : String → String → Webhook → Bool
is_matching session_id event_type w =
    w.is_active && mem event_type w.events && concerns session_id w

unfoldable pub list_matching : String → String → Action (List Webhook)
unfolding sql
list_matching session_id event_type = wrapping "list matching webhooks" (
    sql (λ db.
      (ok (sort_by oldest_first (keep (is_matching session_id event_type) db.webhooks)), db)))

abbrev pub new_delivery : ℕ → String → String → String → ℕ → ℕ → DeliveryRow
new_delivery webhook_id session_id event_type payload id now = record {
  id = id;
  webhook_id = webhook_id;
  session_id = session_id;
  event_type = event_type;
  payload = payload;
  status = pending;
  attempt_count = 0;
  next_attempt_at = now;
  last_error = "";
  last_http_status = none;
  last_response_body = [];
  delivered_at = none;
  created_at = now;
  updated_at = now;
}

insert_delivery : ℕ → String → String → String → Action (Unit {0})
insert_delivery webhook_id session_id event_type payload before =
    let db = record before { next_delivery = before.next_delivery + 1 } in
    let row =
      new_delivery webhook_id session_id event_type payload before.next_delivery before.now in
    if is_some (find (λ w. w.id == webhook_id) db.webhooks)
    then (ok tt, record db { deliveries = db.deliveries ++ row ∷ [] })
    else (err (plain "violates foreign key constraint"), db)

unfoldable pub enqueue_delivery : ℕ → String → String → String → Action (Unit {0})
unfolding insert_delivery sql
enqueue_delivery webhook_id session_id event_type payload =
    wrapping "enqueue webhook delivery"
      (sql (insert_delivery webhook_id session_id event_type payload))

abbrev pub is_waiting : DeliveryStatus → Bool
is_waiting pending = true
is_waiting retry = true
is_waiting _ = false

-- `ORDER BY d.next_attempt_at ASC, d.id ASC`
abbrev pub due_first : WebhookDelivery → WebhookDelivery → Bool
due_first a b =
    if ltb a.row.next_attempt_at b.row.next_attempt_at
    then true
    else a.row.next_attempt_at == b.row.next_attempt_at && leb a.row.id b.row.id

-- The join with `webhooks`: the active webhook of a delivery.
abbrev pub active_webhook : List Webhook → ℕ → Option Webhook
active_webhook webhooks id = find (λ w. w.id == id && w.is_active) webhooks

-- `WHERE d.status IN ('pending', 'retry') AND d.next_attempt_at <= $1 AND w.is_active = TRUE`
unfoldable pub due_rows : List Webhook → ℕ → List DeliveryRow → List WebhookDelivery
due_rows webhooks now [] = []
due_rows webhooks now (d ∷ ds) =
    let rest = due_rows webhooks now ds in
    if is_waiting d.status && leb d.next_attempt_at now
    then (elim (active_webhook webhooks d.webhook_id) [
      | none ↦ rest
      | some w ↦ record { row = d; webhook_url = w.url } ∷ rest
    ])
    else rest

unfoldable pub list_due_deliveries : ℕ → ℕ → Action (List WebhookDelivery)
unfolding due_rows sql
list_due_deliveries now limit =
    wrapping "list due deliveries" (
      sql
        (λ db. (ok (take limit (sort_by due_first (due_rows db.webhooks now db.deliveries))), db)))

-- `UPDATE webhook_deliveries SET … WHERE id = $1`; that no row has the id is no error.
unfoldable pub update_delivery : String → ℕ → (ℕ → DeliveryRow → DeliveryRow) → Action (Unit {0})
unfolding sql
update_delivery text id set = wrapping text (
    sql (λ db.
      (ok tt, record db { deliveries = map_if (λ d. d.id == id) (set db.now) db.deliveries })))

abbrev pub set_started : ℕ → ℕ → DeliveryRow → DeliveryRow
set_started attempt_count now d = record d {
  status = processing;
  attempt_count = attempt_count;
  updated_at = now;
}

abbrev pub set_delivered : ℕ → List ℕ → ℕ → DeliveryRow → DeliveryRow
set_delivered status_code body now d = record d {
  status = delivered;
  last_http_status = some status_code;
  last_response_body = body;
  delivered_at = some now;
  updated_at = now;
}

abbrev pub set_retry : Option ℕ → List ℕ → String → ℕ → ℕ → DeliveryRow → DeliveryRow
set_retry status_code body last_error next_attempt_at now d = record d {
  status = retry;
  last_http_status = status_code;
  last_response_body = body;
  last_error = last_error;
  next_attempt_at = next_attempt_at;
  updated_at = now;
}

abbrev pub set_failed : Option ℕ → List ℕ → String → ℕ → DeliveryRow → DeliveryRow
set_failed status_code body last_error now d = record d {
  status = failed;
  last_http_status = status_code;
  last_response_body = body;
  last_error = last_error;
  updated_at = now;
}

unfoldable pub start_attempt : ℕ → ℕ → Action (Unit {0})
unfolding update_delivery
start_attempt id attempt_count =
    update_delivery "start webhook attempt" id (set_started attempt_count)

unfoldable pub mark_delivered : ℕ → ℕ → List ℕ → Action (Unit {0})
unfolding update_delivery
mark_delivered id status_code body =
    update_delivery "mark webhook delivered" id (set_delivered status_code body)

unfoldable pub mark_retry : ℕ → Option ℕ → List ℕ → String → ℕ → Action (Unit {0})
unfolding update_delivery
mark_retry id status_code body last_error next_attempt_at =
    update_delivery "mark webhook retry" id (set_retry status_code body last_error next_attempt_at)

unfoldable pub mark_failed : ℕ → Option ℕ → List ℕ → String → Action (Unit {0})
unfolding update_delivery
mark_failed id status_code body last_error =
    update_delivery "mark webhook failed" id (set_failed status_code body last_error)
