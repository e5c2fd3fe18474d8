-- ===== src/Store/Webhooks/Due.antt =====
-- Which deliveries `ListDueDeliveries` hands to the worker.
use interactive_whatsapp_meo.Base.{
  ℕ, ◌≤◌, ◌≡◌, true, ◌&&◌, none, some, List, [], ◌∷◌, arith, leb, Error, ok, err, wrap,
  Option-cases, inl, inr, All, All-map, ◌≢◌, sym, map, All-take, All-sort_by, take, sort_by,
  Bool-cases,
}
use interactive_whatsapp_meo.Base.Order.{IsKeyed, IsKeyed-take, IsKeyed-sort_by}
use interactive_whatsapp_meo.Store.Table.{HasKeys}
use interactive_whatsapp_meo.Store.Models.{DeliveryRow, Webhook, WebhookDelivery}
use interactive_whatsapp_meo.Store.Db.{Db, take_turn, take_turn-IsTurn}
use interactive_whatsapp_meo.Store.Webhooks.{
  is_waiting, due_first, due_rows, active_webhook, list_due_deliveries,
}

abbrev pub due : ℕ → ℕ → Db → List WebhookDelivery
due now limit db = take limit (sort_by due_first (due_rows db.webhooks now db.deliveries))

module _ (now limit : ℕ) (db : Db) where
  pub list_due_deliveries_fault :
      (e : Error)
      → (take_turn db).0 ≡ some e
      → (list_due_deliveries now limit db).0 ≡ err (wrap "list due deliveries" e)
  unfolding list_due_deliveries
  list_due_deliveries_fault e broke = ground arith

  pub list_due_deliveries_done :
      (take_turn db).0 ≡ none → (list_due_deliveries now limit db).0 ≡ ok (due now limit db)
  unfolding list_due_deliveries
  list_due_deliveries_done went = ground (arith, take_turn-IsTurn db)

  pub list_due_deliveries-state : (list_due_deliveries now limit db).1 ≡ (take_turn db).1
  unfolding list_due_deliveries
  list_due_deliveries-state = ground arith

-- A delivery that is handed out waits for an attempt whose time has come.
record IsDue (now : ℕ) (wd : WebhookDelivery) : Type 0 where
  pub waiting : is_waiting wd.row.status ≡ true
  pub time : wd.row.next_attempt_at ≤ now

due_rows-IsDue :
    (webhooks : List Webhook) (now : ℕ) (rows : List DeliveryRow)
    → All (IsDue now) (due_rows webhooks now rows)
unfolding due_rows
due_rows-IsDue webhooks now [] = tt
due_rows-IsDue webhooks now (d ∷ ds) = ground (arith, due_rows-IsDue webhooks now ds)

-- A property of all rows holds of what is handed out.
pub due_rows-All :
    (P : DeliveryRow → Type 0) (webhooks : List Webhook) (now : ℕ) (rows : List DeliveryRow)
    → All P rows
    → All (λ wd. P wd.row × (is_waiting wd.row.status ≡ true)) (due_rows webhooks now rows)
unfolding due_rows
due_rows-All P webhooks now [] h = tt
due_rows-All P webhooks now (d ∷ ds) h =
    elim (Bool-cases (is_waiting d.status && leb d.next_attempt_at now)) [
      | inr no_turn ↦ rw no_turn (due_rows-All P webhooks now ds h.1)
      | inl turn ↦ elim (Option-cases (active_webhook webhooks d.webhook_id)) [
        | inl idle ↦ rw (turn, idle) (due_rows-All P webhooks now ds h.1)
        | inr (w, active) ↦
            rw (turn, active) ((h.0, ground arith), due_rows-All P webhooks now ds h.1)
      ]
    ]

-- No delivery is handed out twice.
due_rows-IsKeyed :
    (webhooks : List Webhook) (now : ℕ) (rows : List DeliveryRow)
    → HasKeys (λ d. d.id) rows
    → IsKeyed (λ wd. wd.row.id) (due_rows webhooks now rows)
unfolding due_rows
due_rows-IsKeyed webhooks now [] h = tt
due_rows-IsKeyed webhooks now (d ∷ ds) h =
    let rest = due_rows-IsKeyed webhooks now ds h.1 in
    elim (Bool-cases (is_waiting d.status && leb d.next_attempt_at now)) [
      | inr no_turn ↦ rw no_turn rest
      | inl turn ↦ elim (Option-cases (active_webhook webhooks d.webhook_id)) [
        | inl idle ↦ rw (turn, idle) rest
        | inr (w, active) ↦
            rw (turn, active)
              (
                All-map _ _ (λ wd away. away.0) (due_rows webhooks now ds)
                    (due_rows-All (λ e. e.id ≢ d.id) webhooks now ds (others ds h.0)),
                rest,
              )
      ]
    ]
  where
    others :
        (es : List DeliveryRow)
        → All (λ k. d.id ≢ k) (map (λ e. e.id) es)
        → All (λ e. e.id ≢ d.id) es
    others [] away = tt
    others (e ∷ es) away = (λ same. away.0 (sym same), others es away.1)

pub due-IsKeyed :
    (now limit : ℕ) (db : Db)
    → HasKeys (λ d. d.id) db.deliveries
    → IsKeyed (λ wd. wd.row.id) (due now limit db)
due-IsKeyed now limit db h =
    IsKeyed-take (λ wd. wd.row.id) limit _
      (IsKeyed-sort_by (λ (wd : WebhookDelivery). wd.row.id) due_first _
        (due_rows-IsKeyed db.webhooks now db.deliveries h))

pub due-All :
    (P : DeliveryRow → Type 0) (now limit : ℕ) (db : Db)
    → All P db.deliveries
    → All (λ wd. P wd.row × (is_waiting wd.row.status ≡ true)) (due now limit db)
due-All P now limit db h = All-take _ limit _ (
    All-sort_by (λ (wd : WebhookDelivery). P wd.row × (is_waiting wd.row.status ≡ true)) due_first _
      (due_rows-All P db.webhooks now db.deliveries h))
