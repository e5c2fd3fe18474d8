-- ===== src/Webhooks/Settled.antt =====
-- A delivery that no longer waits is out of the worker's reach.
use interactive_whatsapp_meo.Base.{
  ℕ, zero, suc, ◌+◌, ◌≢◌, String, ◌≡◌, refl, ap, ◌∙◌, true, false, some, List, [], ◌∷◌, arith, ◌==◌,
  map, Bool-cases, Option-cases, Result-cases, inl, inr, All, All-map_if, All-map,
}
use interactive_whatsapp_meo.Store.Models.{DeliveryRow, WebhookDelivery}
use interactive_whatsapp_meo.Store.Db.{Db, take_turn, take_turn-IsTurn}
use interactive_whatsapp_meo.Store.Table.{find, HasKeys}
use interactive_whatsapp_meo.Store.Webhooks.{
  is_waiting, update_delivery, start_attempt, set_started,
}
use interactive_whatsapp_meo.Store.Webhooks.Marks.{
  delivery_at, update_delivery_fault, update_delivery_done, update_delivery-delivery_at,
  update_delivery-posts,
}
use interactive_whatsapp_meo.Store.Webhooks.Due.{due, due-All}
use interactive_whatsapp_meo.Webhooks.Service.{
  Exchange, read_reply, process_delivery, process_all, process_due, run,
}
use interactive_whatsapp_meo.Webhooks.Settle.{settle, settle_text, settle_lem, record_outcome_lem}
use interactive_whatsapp_meo.Webhooks.Delivery.{
  answered, process_delivery_not_started, process_delivery_started,
}
use interactive_whatsapp_meo.Webhooks.Posts.{posts_of, logged-posts_of}
use interactive_whatsapp_meo.Webhooks.Rounds.{process_due_fault, process_due_done}

-- Every row with the id has left the queue.
abbrev IsSettled : ℕ → DeliveryRow → Type 0
IsSettled id d = (d.id == id) ≡ true → is_waiting d.status ≡ false

-- The row found under the id is `row`, which was POSTed `n` times, and no row with the id waits.
record Settled (id : ℕ) (row : DeliveryRow) (n : ℕ) (db : Db) : Type 0 where
  found : delivery_at id db ≡ some row
  sent : posts_of id db.posts ≡ n
  settled : All (IsSettled id) db.deliveries

module _ (id : ℕ) (row : DeliveryRow) (sends : ℕ) where
  -- A statement on another delivery keeps the row.
  update_delivery-Settled :
      (text : String) (other : ℕ) (set : ℕ → DeliveryRow → DeliveryRow) (db : Db)
      → ((n : ℕ) (d : DeliveryRow) → (set n d).id ≡ d.id)
      → (other == id) ≡ false
      → Settled id row sends db
      → Settled id row sends (update_delivery text other set db).1
  update_delivery-Settled text other set db keeps differ s = elim (Option-cases (take_turn db).0) [
    | inr (e, broke) ↦
        let same = (update_delivery_fault text other set db e broke).1 in
        record {
          found = ap (find (λ d. d.id == id)) same ∙ s.found;
          sent = ap (posts_of id) (update_delivery-posts text other set db) ∙ s.sent;
          settled = rw same s.settled;
        }
    | inl went ↦
        let now = (take_turn db).1.now in
        record {
          found =
              ground (arith, update_delivery-delivery_at text other set db keeps went id, s.found);
          sent = ap (posts_of id) (update_delivery-posts text other set db) ∙ s.sent;
          settled = rw ((update_delivery_done text other set db went).1) (
              All-map_if (IsSettled id) (IsSettled id) (λ d. d.id == other) (set now)
                (λ d here h again. absurd (ground (arith, keeps now d))) (λ d there h. h)
                db.deliveries s.settled);
        }
  ]

  start_attempt-Settled :
      (other n : ℕ) (db : Db)
      → (other == id) ≡ false
      → Settled id row sends db
      → Settled id row sends (start_attempt other n db).1
  unfolding start_attempt
  start_attempt-Settled other n db differ s =
      update_delivery-Settled "start webhook attempt" other (set_started n) db (λ k d. refl) differ
        s

  module _ (post : WebhookDelivery → ℕ → Exchange) (max_attempts : ℕ) where
    process_delivery-Settled :
        (delivery : WebhookDelivery) (db : Db)
        → (delivery.row.id == id) ≡ false
        → Settled id row sends db
        → Settled id row sends (process_delivery post max_attempts delivery db).1
    process_delivery-Settled delivery db differ s =
        let n = delivery.row.attempt_count + 1 in
        let started = start_attempt-Settled delivery.row.id n db differ s in
        elim (Result-cases (start_attempt delivery.row.id n db).0) [
          | inr (e, stopped) ↦
              rw (process_delivery_not_started post max_attempts delivery db e stopped) started
          | inl (u, fine) ↦
              let after = answered post max_attempts delivery db in
              let reply = (post delivery n).reply in
              let result = read_reply reply in
              rw
                (process_delivery_started post max_attempts delivery db fine
                  ∙ record_outcome_lem max_attempts delivery.row.id n result after)
                (update_delivery-Settled (settle_text max_attempts n result) delivery.row.id
                  (settle max_attempts n after.now result) after
                  (λ k d. (settle_lem max_attempts n after.now k reply d).0) differ
                  (record {
                    found = started.found;
                    sent =
                        logged-posts_of delivery.row.id id reply
                          (start_attempt delivery.row.id n db).1.posts differ
                        ∙ started.sent;
                    settled = started.settled;
                  }))
        ]

    process_all-Settled :
        (deliveries : List WebhookDelivery) (db : Db)
        → All (λ wd. (wd.row.id == id) ≡ false) deliveries
        → Settled id row sends db
        → Settled id row sends (process_all post max_attempts deliveries db).1
    unfolding process_all
    process_all-Settled [] db differ s = s
    process_all-Settled (d ∷ ds) db differ s = ground (
      arith,
      process_delivery-Settled d db differ.0 s,
      process_all-Settled ds (process_delivery post max_attempts d db).1 differ.1,
    )

    process_due-Settled :
        (batch_size : ℕ) (db : Db)
        → Settled id row sends db
        → Settled id row sends (process_due post max_attempts batch_size db).1
    process_due-Settled batch_size db s =
        let turn = take_turn-IsTurn db in
        let s' : Settled id row sends (take_turn db).1 = record {
          found = ap (find (λ d. d.id == id)) turn.deliveries ∙ s.found;
          sent = ap (posts_of id) turn.posts ∙ s.sent;
          settled = rw turn.deliveries s.settled;
        } in
        elim (Option-cases (take_turn db).0) [
          | inr (e, broke) ↦ rw (process_due_fault post max_attempts batch_size db e broke) s'
          | inl went ↦ rw (process_due_done post max_attempts batch_size db went) (
              process_all-Settled (due db.now batch_size db) (take_turn db).1
                (All-map _ _ other_id (due db.now batch_size db)
                  (due-All (IsSettled id) db.now batch_size db s.settled))
                s')
        ]
      where
        other_id :
            (wd : WebhookDelivery)
            → IsSettled id wd.row × (is_waiting wd.row.status ≡ true)
            → (wd.row.id == id) ≡ false
        other_id wd h = elim (Bool-cases (wd.row.id == id)) [
          | inr differ ↦ differ
          | inl same ↦ absurd (ground (arith, h.0 same, h.1))
        ]

    run-Settled :
        (batch_size poll_interval rounds : ℕ) (db : Db)
        → Settled id row sends db
        → Settled id row sends (run post max_attempts batch_size poll_interval rounds db)
    unfolding run
    run-Settled batch_size poll_interval zero db s = s
    run-Settled batch_size poll_interval (suc rounds) db s =
        let after = process_due-Settled batch_size db s in
        let db' = (process_due post max_attempts batch_size db).1 in
        run-Settled batch_size poll_interval rounds (record db' { now = db'.now + poll_interval })
          (record { found = after.found; sent = after.sent; settled = after.settled })

-- With one row for each id, the row that is found is the only one.
IsSettled-rows :
    (id : ℕ) (row : DeliveryRow) (rows : List DeliveryRow)
    → HasKeys (λ d. d.id) rows
    → find (λ d. d.id == id) rows ≡ some row
    → is_waiting row.status ≡ false
    → All (IsSettled id) rows
IsSettled-rows id row [] keys found status = tt
IsSettled-rows id row (d ∷ ds) keys found status = elim (Bool-cases (d.id == id)) [
  | inr differ ↦ (
    λ same. ground (arith, same, differ),
    IsSettled-rows id row ds keys.1 (ground (arith, found, differ)) status,
  )
  | inl here ↦ (λ same. ground (arith, found, status, here), later ds (ground arith) keys.0)
]
  where
    later :
        (es : List DeliveryRow)
        → d.id ≡ id
        → All (λ k. d.id ≢ k) (map (λ e. e.id) es)
        → All (IsSettled id) es
    later [] same others = tt
    later (e ∷ es) same others = (λ again. absurd (others.0 (ground arith)), later es same others.1)

-- With one row for each id, a delivery that was delivered or given up, or was left in `processing`
-- by a fault, stays as it is however long the worker runs: it is not POSTed again and its row does
-- not change.
pub run_keeps_settled :
    (post : WebhookDelivery → ℕ → Exchange) (max_attempts batch_size poll_interval rounds id : ℕ)
    (row : DeliveryRow) (db : Db)
    → HasKeys (λ d. d.id) db.deliveries
    → delivery_at id db ≡ some row
    → is_waiting row.status ≡ false
    → let db' = run post max_attempts batch_size poll_interval rounds db in
      (delivery_at id db' ≡ some row) × (posts_of id db'.posts ≡ posts_of id db.posts)
run_keeps_settled post max_attempts batch_size poll_interval rounds id row db keys found status =
    let kept =
      run-Settled id row (posts_of id db.posts) post max_attempts batch_size poll_interval rounds db
        (record {
          found = found;
          sent = refl;
          settled = IsSettled-rows id row db.deliveries keys found status;
        }) in
    (kept.found, kept.sent)
