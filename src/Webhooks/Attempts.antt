-- ===== src/Webhooks/Attempts.antt =====
-- The worker never spends more attempts on a delivery than it is allowed.
use interactive_whatsapp_meo.Webhooks.Counts.{
  IsCounted, IsUnderway, Adds, settle-IsCounted, start_attempt-IsUnderway,
}
use interactive_whatsapp_meo.Base.{
  ℕ, zero, suc, ◌+◌, ◌≤◌, ◌<◌, ◌≡◌, ◌∙◌, true, List, [], ◌∷◌, arith, refl, ap, map, ◌≢◌,
  Result-cases, Option-cases, inl, inr, All, All-map,
}
use interactive_whatsapp_meo.Store.Models.{WebhookDelivery}
use interactive_whatsapp_meo.Store.Db.{Db, take_turn, take_turn-IsTurn}
use interactive_whatsapp_meo.Store.Webhooks.{is_waiting}
use interactive_whatsapp_meo.Store.Webhooks.Marks.{update_delivery_fault, update_delivery-posts}
use interactive_whatsapp_meo.Store.Webhooks.Due.{due, due-All, due-IsKeyed}
use interactive_whatsapp_meo.Base.Order.{IsKeyed}
use interactive_whatsapp_meo.Store.Table.{HasKeys}
use interactive_whatsapp_meo.Webhooks.Rounds.{
  process_all_fault, process_all_done, process_due_fault, process_due_done, update_delivery-All,
}
use interactive_whatsapp_meo.Webhooks.Posts.{
  posts_of, ids_of, logged-cases, process_delivery-log, process_delivery-posts_of,
}
use interactive_whatsapp_meo.Webhooks.Service.{
  Exchange, read_reply, process_delivery, process_all, process_due, run,
}
use interactive_whatsapp_meo.Webhooks.Settle.{settle, settle_text, record_outcome_lem}
use interactive_whatsapp_meo.Webhooks.Delivery.{
  answered, start_fault, started-posts, start_fine, process_delivery_not_started,
  process_delivery_started,
}

-- What an attempt at a delivery asks of it.
record IsReady (max_attempts : ℕ) (posts : List ℕ) (wd : WebhookDelivery) : Type 0 where
  left : wd.row.attempt_count < max_attempts
  sent : posts_of wd.row.id posts ≤ wd.row.attempt_count

module _ (post : WebhookDelivery → ℕ → Exchange) (max_attempts : ℕ) where
  -- An attempt keeps the count, wherever the database fails.
  process_delivery-IsCounted :
      (delivery : WebhookDelivery) (db : Db)
      → IsReady max_attempts db.posts delivery
      → All (IsCounted max_attempts db.posts) db.deliveries
      → let out = (process_delivery post max_attempts delivery db).1 in
        All (IsCounted max_attempts out.posts) out.deliveries
  process_delivery-IsCounted delivery db ready h = elim (Option-cases (take_turn db).0) [
    | inr (e, broke) ↦
        let (stopped, same) = start_fault post max_attempts delivery db e broke in
        rw (process_delivery_not_started post max_attempts delivery db _ stopped)
          (rw (same, started-posts post max_attempts delivery db) h)
    | inl went ↦
        let n = delivery.row.attempt_count + 1 in
        let id = delivery.row.id in
        let reply = (post delivery n).reply in
        let after = answered post max_attempts delivery db in
        let adds : Adds id db.posts after.posts =
          rw (started-posts post max_attempts delivery db) (logged-cases id reply db.posts) in
        let underway : All (IsUnderway max_attempts after.posts id n) after.deliveries =
          start_attempt-IsUnderway max_attempts id n db after.posts (omega (arith, ready.left))
            (omega (arith, ready.sent)) adds went h in
        let goes =
          process_delivery_started post max_attempts delivery db
            (start_fine post max_attempts delivery db went)
          ∙ record_outcome_lem max_attempts id n (read_reply reply) after in
        let text = settle_text max_attempts n (read_reply reply) in
        let set = settle max_attempts n after.now (read_reply reply) in
        rw goes (
          rw (update_delivery-posts text id set after) (elim (Option-cases (take_turn after).0) [
            | inr (e, broke) ↦ rw ((update_delivery_fault text id set after e broke).1) (
                All-map (IsUnderway max_attempts after.posts id n)
                  (IsCounted max_attempts after.posts) (λ d u. u.counted) after.deliveries underway)
            | inl again ↦
                update_delivery-All (IsUnderway max_attempts after.posts id n)
                  (IsCounted max_attempts after.posts) text id set after
                  (settle-IsCounted max_attempts id n (omega (arith, ready.left)) after.now reply
                    after.posts)
                  (λ d _ u. u.counted) again underway
          ]))
  ]

  -- The deliveries that follow are as ready as before.
  IsReady-later :
      (delivery : WebhookDelivery) (deliveries : List WebhookDelivery) (db : Db)
      → All (λ wd. wd.row.id ≢ delivery.row.id) deliveries
      → All (IsReady max_attempts db.posts) deliveries
      → All
          (IsReady max_attempts (process_delivery post max_attempts delivery db).1.posts)
          deliveries
  IsReady-later delivery [] db differ ready = tt
  IsReady-later delivery (d ∷ ds) db differ ready = (
    record {
      left = ready.0.left;
      sent =
          rw
            (process_delivery-posts_of post max_attempts delivery db d.row.id
              (ground (arith, differ.0)))
            ready.0.sent;
    },
    IsReady-later delivery ds db differ.1 ready.1,
  )

  process_all-IsCounted :
      (deliveries : List WebhookDelivery) (db : Db)
      → IsKeyed (λ wd. wd.row.id) deliveries
      → All (IsReady max_attempts db.posts) deliveries
      → All (IsCounted max_attempts db.posts) db.deliveries
      → let out = (process_all post max_attempts deliveries db).1 in
        All (IsCounted max_attempts out.posts) out.deliveries × (ids_of out ≡ ids_of db)
  unfolding process_all
  process_all-IsCounted [] db keys ready h = (h, refl)
  process_all-IsCounted (d ∷ ds) db keys ready h =
      let after = process_delivery post max_attempts d db in
      let counted = process_delivery-IsCounted d db ready.0 h in
      let ids = (process_delivery-log post max_attempts d db).1 in
      elim (Result-cases after.0) [
        | inr (e, stopped) ↦
            rw (process_all_fault post max_attempts d ds db e stopped) (counted, ids)
        | inl (u, went) ↦
            let rest =
              process_all-IsCounted ds after.1 keys.1 (IsReady-later d ds db keys.0 ready.1)
                counted in
            rw (process_all_done post max_attempts d ds db went) (rest.0, rest.1 ∙ ids)
      ]

  process_due-IsCounted :
      (batch_size : ℕ) (db : Db)
      → HasKeys (λ d. d.id) db.deliveries
      → All (IsCounted max_attempts db.posts) db.deliveries
      → let out = (process_due post max_attempts batch_size db).1 in
        All (IsCounted max_attempts out.posts) out.deliveries × (ids_of out ≡ ids_of db)
  process_due-IsCounted batch_size db keys h =
      let turn = take_turn-IsTurn db in
      let h' : All (IsCounted max_attempts (take_turn db).1.posts) (take_turn db).1.deliveries =
        rw (turn.deliveries, turn.posts) h in
      let ids : ids_of (take_turn db).1 ≡ ids_of db = ap (map (λ d. d.id)) turn.deliveries in
      elim (Option-cases (take_turn db).0) [
        | inr (e, broke) ↦ rw (process_due_fault post max_attempts batch_size db e broke) (h', ids)
        | inl went ↦
            let done =
              process_all-IsCounted (due db.now batch_size db) (take_turn db).1
                (due-IsKeyed db.now batch_size db keys)
                (rw turn.posts (
                  All-map _ _ ready_of (due db.now batch_size db)
                    (due-All (IsCounted max_attempts db.posts) db.now batch_size db h)))
                h' in
            rw (process_due_done post max_attempts batch_size db went) (done.0, done.1 ∙ ids)
      ]
    where
      ready_of :
          (wd : WebhookDelivery)
          → IsCounted max_attempts db.posts wd.row × (is_waiting wd.row.status ≡ true)
          → IsReady max_attempts db.posts wd
      ready_of wd h = record { left = h.0.waiting h.1; sent = h.0.sent }

  -- If each delivery has one row, was POSTed no more often than its attempts say, has had no more
  -- than `max_attempts` attempts, and fewer if it waits for another one, then this holds however
  -- long the worker runs and wherever the database fails: no delivery is ever POSTed more than
  -- `max_attempts` times.
  pub run-IsCounted :
      (batch_size poll_interval rounds : ℕ) (db : Db)
      → HasKeys (λ d. d.id) db.deliveries
      → All (IsCounted max_attempts db.posts) db.deliveries
      → let db' = run post max_attempts batch_size poll_interval rounds db in
        All (IsCounted max_attempts db'.posts) db'.deliveries
        × All (λ d. posts_of d.id db'.posts ≤ max_attempts) db'.deliveries
  unfolding run
  run-IsCounted batch_size poll_interval zero db keys h =
      (h, All-map _ _ (λ d c. omega (arith, c.sent, c.within)) db.deliveries h)
  run-IsCounted batch_size poll_interval (suc rounds) db keys h =
      let db' = (process_due post max_attempts batch_size db).1 in
      let (counted, ids) = process_due-IsCounted batch_size db keys h in
      run-IsCounted batch_size poll_interval rounds (record db' { now = db'.now + poll_interval })
        (rw ids keys) counted
