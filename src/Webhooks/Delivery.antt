-- ===== src/Webhooks/Delivery.antt =====
-- One attempt at a delivery: how `processDue` treats one row.
use interactive_whatsapp_meo.Webhooks.Settle.{
  is_success, status_after, settle, settle_text, settle_lem, record_outcome_lem,
}
use interactive_whatsapp_meo.Base.{
  List, ℕ, ◌+◌, ◌≤◌, ◌≡◌, refl, ap, ◌∙◌, not, ◌&&◌, none, some, arith, ◌==◌, leb, if◌then◌else◌,
  Error, Result, ok, err, wrap, Option-cases, inl, inr,
}
use interactive_whatsapp_meo.Store.Models.{DeliveryRow, WebhookDelivery, processing}
use interactive_whatsapp_meo.Store.Db.{Db, take_turn, take_turn-IsTurn}
use interactive_whatsapp_meo.Store.Table.{find, find-holds}
use interactive_whatsapp_meo.Store.Webhooks.{update_delivery, start_attempt, set_started}
use interactive_whatsapp_meo.Store.Webhooks.Marks.{
  delivery_at, update_delivery_fault, update_delivery_done, update_delivery-delivery_at,
  update_delivery-posts,
}
use interactive_whatsapp_meo.Webhooks.Service.{
  Reply, Exchange, read_reply, logged, backoff_for_attempt, record_outcome, deliver,
  process_delivery,
}

module _ (post : WebhookDelivery → ℕ → Exchange) (max_attempts : ℕ) (delivery : WebhookDelivery)
    (db : Db) where
  abbrev pub id : ℕ
  id = delivery.row.id

  abbrev pub attempt_count : ℕ
  attempt_count = delivery.row.attempt_count + 1

  abbrev pub reply : Reply
  reply = (post delivery attempt_count).reply

  -- The database when the answer is there.
  abbrev pub started : Result (Unit {0}) × Db
  started = start_attempt id attempt_count db

  abbrev pub answered : Db
  answered = record started.1 {
    now = started.1.now + (post delivery attempt_count).took;
    posts = logged id reply started.1.posts;
  }

  -- The log of POSTs then: the delivery was sent once, if a request could be built.
  abbrev pub sent_posts : List ℕ
  sent_posts = logged id reply db.posts

  pub process_delivery_not_started :
      (e : Error)
      → started.0 ≡ err e
      → process_delivery post max_attempts delivery db ≡ (err e, started.1)
  unfolding process_delivery
  process_delivery_not_started e h = ground arith

  pub process_delivery_started :
      started.0 ≡ ok tt
      → process_delivery post max_attempts delivery db
        ≡ record_outcome max_attempts id attempt_count (read_reply reply) answered
  unfolding process_delivery deliver
  process_delivery_started h = ground arith

  pub start_fault :
      (e : Error)
      → (take_turn db).0 ≡ some e
      → (started.0 ≡ err (wrap "start webhook attempt" e)) × (started.1.deliveries ≡ db.deliveries)
  unfolding start_attempt
  start_fault e broke =
      update_delivery_fault "start webhook attempt" id (set_started attempt_count) db e broke

  pub start_fine : (take_turn db).0 ≡ none → started.0 ≡ ok tt
  unfolding start_attempt
  start_fine went =
      (update_delivery_done "start webhook attempt" id (set_started attempt_count) db went).0

  start_done :
      (row : DeliveryRow)
      → (take_turn db).0 ≡ none
      → delivery_at id db ≡ some row
      → (started.0 ≡ ok tt)
        × ((j : ℕ)
            → delivery_at j answered ≡ (
                if id == j
                then some (set_started attempt_count (take_turn db).1.now row)
                else delivery_at j db))
  unfolding start_attempt
  start_done row went found = (
    start_fine went,
    λ j. ground (
      arith,
      update_delivery-delivery_at "start webhook attempt" id (set_started attempt_count) db
          (λ n d. refl) went j,
    ),
  )

  started-now : db.now ≤ started.1.now
  unfolding start_attempt update_delivery
  started-now = ground (arith, take_turn-IsTurn db)

  pub started-posts : started.1.posts ≡ db.posts
  unfolding start_attempt
  started-posts = update_delivery-posts "start webhook attempt" id (set_started attempt_count) db

-- How an attempt can end for a delivery with the row `row`. Other rows stay as they are.
pub data Processes (post : WebhookDelivery → ℕ → Exchange) (max_attempts : ℕ)
    (delivery : WebhookDelivery) (row : DeliveryRow) (db : Db) (out : Result (Unit {0}) × Db)
    : Type 0 where
  -- The database failed at the start: nothing was sent, and nothing is changed.
  not_started :
      (e : Error)
      → (take_turn db).0 ≡ some e
      → out.0 ≡ err (wrap "start webhook attempt" e)
      → out.1.posts ≡ db.posts
      → ((j : ℕ) → delivery_at j out.1 ≡ delivery_at j db)
      → Processes post max_attempts delivery row db out
  -- The database failed at the statement after the POST: the row stays in `processing`.
  left_processing :
      (e : Error) (row' : DeliveryRow)
      → (take_turn db).0 ≡ none
      → (take_turn (answered post max_attempts delivery db)).0 ≡ some e
      → out.0
        ≡ err (
            wrap
              (settle_text max_attempts
                (delivery.row.attempt_count + 1)
                (read_reply (post delivery (delivery.row.attempt_count + 1)).reply))
              e)
      → out.1.posts ≡ sent_posts post max_attempts delivery db
      → row'.status ≡ processing
      → row'.attempt_count ≡ delivery.row.attempt_count + 1
      → ((j : ℕ)
          → delivery_at j out.1 ≡ (if delivery.row.id == j then some row' else delivery_at j db))
      → Processes post max_attempts delivery row db out
  -- The database did not fail: the attempt is counted and its outcome recorded, where `at` is the
  -- time when the answer was there.
  recorded :
      (at : ℕ) (row' : DeliveryRow)
      → (take_turn db).0 ≡ none
      → (take_turn (answered post max_attempts delivery db)).0 ≡ none
      → at ≡ (answered post max_attempts delivery db).now
      → db.now + (post delivery (delivery.row.attempt_count + 1)).took ≤ at
      → out.0 ≡ ok tt
      → out.1.posts ≡ sent_posts post max_attempts delivery db
      → row'.id ≡ delivery.row.id
      → row'.attempt_count ≡ delivery.row.attempt_count + 1
      → row'.status
        ≡ status_after max_attempts
            (delivery.row.attempt_count + 1)
            (post delivery (delivery.row.attempt_count + 1)).reply
      → row'.next_attempt_at ≡ (
          if not (is_success (post delivery (delivery.row.attempt_count + 1)).reply)
            && not (leb max_attempts (delivery.row.attempt_count + 1))
          then at + backoff_for_attempt (delivery.row.attempt_count + 1)
          else row.next_attempt_at)
      → ((j : ℕ)
          → delivery_at j out.1 ≡ (if delivery.row.id == j then some row' else delivery_at j db))
      → Processes post max_attempts delivery row db out

module _ (post : WebhookDelivery → ℕ → Exchange) (max_attempts : ℕ) (delivery : WebhookDelivery)
    (row : DeliveryRow) (db : Db) (found : delivery_at delivery.row.id db ≡ some row) where
  -- One attempt at a delivery that has a row, on every branch. If the database fails at the first
  -- statement, nothing is sent and no row changes. Otherwise the delivery is sent once, if a
  -- request can be built for it, and the attempt is counted; if the database fails at the statement
  -- after the POST, the row stays in `processing`, and if it does not, the row is delivered, failed
  -- or due again, as the answer and the number of attempts say. No other row changes. An error is
  -- returned only where the database failed.
  pub process_delivery-Processes :
      Processes post max_attempts delivery row db (process_delivery post max_attempts delivery db)
  process_delivery-Processes =
      let sent = delivery.row.attempt_count + 1 in
      let answer = (post delivery sent).reply in
      let after = answered post max_attempts delivery db in
      elim (Option-cases (take_turn db).0) [
        | inr (e, broke) ↦
            let (stopped, same) = start_fault post max_attempts delivery db e broke in
            let ends = process_delivery_not_started post max_attempts delivery db _ stopped in
            not_started e broke (ap (λ o. o.0) ends)
              (ap (λ o. o.1.posts) ends ∙ started-posts post max_attempts delivery db)
              (λ j. ap (λ o. delivery_at j o.1) ends ∙ ap (find (λ d. d.id == j)) same)
        | inl went ↦
            let (fine, rows) = start_done post max_attempts delivery db row went found in
            let text = settle_text max_attempts sent (read_reply answer) in
            let set = settle max_attempts sent after.now (read_reply answer) in
            let set_keeps =
              λ (n : ℕ) (d : DeliveryRow). (settle_lem max_attempts sent after.now n answer d).0 in
            let goes : process_delivery post max_attempts delivery db
                ≡ update_delivery text delivery.row.id set after =
              process_delivery_started post max_attempts delivery db fine
              ∙ record_outcome_lem max_attempts delivery.row.id sent (read_reply answer) after in
            let log =
              ap (λ o. o.1.posts) goes
              ∙ update_delivery-posts text delivery.row.id set after
              ∙ ap (logged delivery.row.id answer) (started-posts post max_attempts delivery db) in
            let row1 = set_started sent (take_turn db).1.now row in
            let row_id : row.id ≡ delivery.row.id = ground (
              arith,
              find-holds (λ (d : DeliveryRow). d.id == delivery.row.id) db.deliveries row found,
            ) in
            elim (Option-cases (take_turn after).0) [
              | inr (e, broke) ↦
                  let (stopped, same) =
                    update_delivery_fault text delivery.row.id set after e broke in
                  left_processing e row1 went broke (ap (λ o. o.0) goes ∙ stopped) log refl refl
                    (λ j.
                      ap (λ o. delivery_at j o.1) goes ∙ ap (find (λ d. d.id == j)) same ∙ rows j)
              | inl again ↦
                  let (same_id, status, count, next) =
                    settle_lem max_attempts sent after.now (take_turn after).1.now answer row1 in
                  recorded after.now (set (take_turn after).1.now row1) went again refl
                    (omega (arith, started-now post max_attempts delivery db))
                    (ap (λ o. o.0) goes
                      ∙ (update_delivery_done text delivery.row.id set after again).0)
                    log (same_id ∙ row_id) count status next
                    (λ j.
                      ap (λ o. delivery_at j o.1) goes
                      ∙ ground (
                        arith,
                        rows j,
                        update_delivery-delivery_at text delivery.row.id set after set_keeps again
                            j,
                      ))
            ]
      ]
