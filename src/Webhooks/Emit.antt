-- ===== src/Webhooks/Emit.antt =====
-- `Emit`: which deliveries an event queues.
use interactive_whatsapp_meo.Base.{
  ℕ, String, ◌≡◌, ◌⊎◌, inl, inr, List, [], ◌∷◌, ◌++◌, map, arith, Error, Result, ok, err, wrap,
  Option-cases, Bool-cases, All, is_some, keep, sort_by, ◌==◌, plain,
}
use interactive_whatsapp_meo.Store.Models.{DeliveryRow, Webhook, pending}
use interactive_whatsapp_meo.Store.Db.{Db, take_turn, take_turn-IsTurn}
use interactive_whatsapp_meo.Store.Table.{find}
use interactive_whatsapp_meo.Store.Webhooks.{
  enqueue_delivery, new_delivery, is_matching, oldest_first,
}
use interactive_whatsapp_meo.Webhooks.Service.{Envelope, enqueue_all}

-- A delivery that was just queued for an event.
pub record IsQueued (session_id event_type : String) (d : DeliveryRow) : Type 0 where
  pub session : d.session_id ≡ session_id
  pub event : d.event_type ≡ event_type
  pub status : d.status ≡ pending
  pub attempts : d.attempt_count ≡ 0

-- Deliveries were added at the end of the queue: one for each webhook, in order, if the call
-- succeeded, and for the webhooks up to the failure if it did not.
pub record Queues (session_id event_type : String) (webhooks : List Webhook) (db : Db)
    (out : Result (Unit {0}) × Db) : Type 0 where
  pub added : List DeliveryRow
  pub queue : out.1.deliveries ≡ db.deliveries ++ added
  pub queued : All (IsQueued session_id event_type) added
  pub answer :
      ((out.0 ≡ ok tt) × (map (λ d. d.webhook_id) added ≡ map (λ w. w.id) webhooks))
      ⊎ ((e : Error) × (rest : List ℕ) × (out.0 ≡ err e)
          × (map (λ d. d.webhook_id) added ++ rest ≡ map (λ w. w.id) webhooks))

module _ (webhook_id : ℕ) (session_id event_type payload : String) (db : Db) where
  -- One `INSERT`: it fails and adds nothing, or adds one pending delivery.
  pub enqueue_delivery-cases :
      ((e : Error) × ((enqueue_delivery webhook_id session_id event_type payload db).0 ≡ err e)
        × ((enqueue_delivery webhook_id session_id event_type payload db).1.deliveries
            ≡ db.deliveries))
      ⊎ ((id : ℕ) × (now : ℕ) × ((enqueue_delivery webhook_id session_id event_type payload db).0
            ≡ ok tt)
          × ((enqueue_delivery webhook_id session_id event_type payload db).1.deliveries
              ≡ db.deliveries ++ new_delivery webhook_id session_id event_type payload id now ∷ []))
  unfolding enqueue_delivery
  enqueue_delivery-cases = elim (Option-cases (take_turn db).0) [
    | inr (e, broke) ↦
        inl (wrap "enqueue webhook delivery" e, ground arith, ground (arith, take_turn-IsTurn db))
    | inl went ↦ elim (Bool-cases (is_some (find (λ w. w.id == webhook_id) db.webhooks))) [
      | inr gone ↦ inl (
        wrap "enqueue webhook delivery" (plain "violates foreign key constraint"),
        ground (arith, take_turn-IsTurn db),
        ground (arith, take_turn-IsTurn db),
      )
      | inl there ↦ inr (
        (take_turn db).1.next_delivery,
        (take_turn db).1.now,
        ground (arith, take_turn-IsTurn db),
        ground (arith, take_turn-IsTurn db),
      )
    ]
  ]

module _ {Payload : Type 0} (marshal : Envelope Payload → Result String)
    (session_id event_type : String) where
  pub enqueue_all_cons :
      (payload : String) (w : Webhook) (ws : List Webhook) (db : Db)
      → (enqueue_delivery w.id session_id event_type payload db).0 ≡ ok tt
      → enqueue_all marshal session_id event_type payload (w ∷ ws) db
        ≡ enqueue_all marshal session_id event_type payload ws
            (enqueue_delivery w.id session_id event_type payload db).1
  unfolding enqueue_all
  enqueue_all_cons payload w ws db fine = ground arith

  -- The webhooks that an event concerns, the oldest first.
  abbrev pub matching : Db → List Webhook
  matching db = sort_by oldest_first (keep (is_matching session_id event_type) db.webhooks)
