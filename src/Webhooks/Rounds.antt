-- ===== src/Webhooks/Rounds.antt =====
-- The rounds of `run`: what `processDue` does with the deliveries that are due.
use interactive_whatsapp_meo.Base.{
  ℕ, String, ◌≡◌, true, false, none, some, List, ◌∷◌, arith, ◌==◌, Error, ok, err, wrap, All,
  All-map_if,
}
use interactive_whatsapp_meo.Store.Models.{DeliveryRow, WebhookDelivery}
use interactive_whatsapp_meo.Store.Db.{Db, take_turn}
use interactive_whatsapp_meo.Store.Webhooks.{update_delivery}
use interactive_whatsapp_meo.Store.Webhooks.Marks.{update_delivery_done}
use interactive_whatsapp_meo.Store.Webhooks.Due.{
  due, list_due_deliveries_fault, list_due_deliveries_done, list_due_deliveries-state,
}
use interactive_whatsapp_meo.Webhooks.Service.{Exchange, process_delivery, process_all, process_due}

-- A round of the worker: the deliveries that are due, one after the other.
module _ (post : WebhookDelivery → ℕ → Exchange) (max_attempts batch_size : ℕ) (db : Db) where
  pub process_due_fault :
      (e : Error)
      → (take_turn db).0 ≡ some e
      → process_due post max_attempts batch_size db
        ≡ (err (wrap "list due deliveries" e), (take_turn db).1)
  unfolding process_due
  process_due_fault e broke = ground (
    arith,
    list_due_deliveries_fault db.now batch_size db e broke,
    list_due_deliveries-state db.now batch_size db,
  )

  pub process_due_done :
      (take_turn db).0 ≡ none
      → process_due post max_attempts batch_size db
        ≡ process_all post max_attempts (due db.now batch_size db) (take_turn db).1
  unfolding process_due
  process_due_done went = ground (
    arith,
    list_due_deliveries_done db.now batch_size db went,
    list_due_deliveries-state db.now batch_size db,
  )

-- The deliveries of a round: an error ends it.
module _ (post : WebhookDelivery → ℕ → Exchange) (max_attempts : ℕ) (delivery : WebhookDelivery)
    (deliveries : List WebhookDelivery) (db : Db) where
  pub process_all_fault :
      (e : Error)
      → (process_delivery post max_attempts delivery db).0 ≡ err e
      → process_all post max_attempts (delivery ∷ deliveries) db
        ≡ (err e, (process_delivery post max_attempts delivery db).1)
  unfolding process_all
  process_all_fault e stopped = ground arith

  pub process_all_done :
      (process_delivery post max_attempts delivery db).0 ≡ ok tt
      → process_all post max_attempts (delivery ∷ deliveries) db
        ≡ process_all post max_attempts deliveries
            (process_delivery post max_attempts delivery db).1
  unfolding process_all
  process_all_done went = ground arith

module _ (P Q : DeliveryRow → Type 0) (text : String) (id : ℕ) (set : ℕ → DeliveryRow → DeliveryRow)
    (db : Db) where
  -- A property of rows across a statement that may fail: `P` before, `Q` after, where every row
  -- with `P` has it if the statement does nothing.
  pub update_delivery-All :
      ((n : ℕ) (d : DeliveryRow) → (d.id == id) ≡ true → P d → Q (set n d))
      → ((d : DeliveryRow) → (d.id == id) ≡ false → P d → Q d)
      → (take_turn db).0 ≡ none
      → All P db.deliveries
      → All Q (update_delivery text id set db).1.deliveries
  update_delivery-All hit miss went h = rw ((update_delivery_done text id set db went).1) (
      All-map_if P Q (λ d. d.id == id) (set (take_turn db).1.now) (hit (take_turn db).1.now) miss
        db.deliveries h)
