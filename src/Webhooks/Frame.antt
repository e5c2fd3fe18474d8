-- ===== src/Webhooks/Frame.antt =====
-- `Emit` only adds to the queue.
use interactive_whatsapp_meo.Base.{
  ℕ, String, ◌≡◌, refl, ◌∙◌, List, [], ◌∷◌, arith, Result, Result-cases, inl, inr, IsPrefix, Error,
  IsPrefix-refl, IsPrefix-trans, err, ok,
}
use interactive_whatsapp_meo.Store.Models.{Webhook}
use interactive_whatsapp_meo.Store.Db.{Db, take_turn-IsTurn}
use interactive_whatsapp_meo.Store.Webhooks.{enqueue_delivery, list_matching}
use interactive_whatsapp_meo.Webhooks.Service.{Envelope, enqueue_all, emit_to, emit}
use interactive_whatsapp_meo.Webhooks.Emit.{enqueue_delivery-cases, enqueue_all_cons}

-- Deliveries may have been added at the end of the queue; the other tables are as they were.
pub record OnlyQueues (db db' : Db) : Type 0 where
  pub sessions : db'.sessions ≡ db.sessions
  pub messages : db'.messages ≡ db.messages
  pub webhooks : db'.webhooks ≡ db.webhooks
  pub api_keys : db'.api_keys ≡ db.api_keys
  pub posts : db'.posts ≡ db.posts
  pub deliveries : IsPrefix db.deliveries db'.deliveries

pub OnlyQueues-refl : (db : Db) → OnlyQueues db db
OnlyQueues-refl db = record {
  sessions = refl;
  messages = refl;
  webhooks = refl;
  api_keys = refl;
  posts = refl;
  deliveries = IsPrefix-refl db.deliveries;
}

OnlyQueues-trans : {a b c : Db} → OnlyQueues a b → OnlyQueues b c → OnlyQueues a c
OnlyQueues-trans {a} {b} {c} first next = record {
  sessions = next.sessions ∙ first.sessions;
  messages = next.messages ∙ first.messages;
  webhooks = next.webhooks ∙ first.webhooks;
  api_keys = next.api_keys ∙ first.api_keys;
  posts = next.posts ∙ first.posts;
  deliveries =
      IsPrefix-trans a.deliveries b.deliveries c.deliveries first.deliveries next.deliveries;
}

enqueue_delivery-OnlyQueues :
    (webhook_id : ℕ) (session_id event_type payload : String) (db : Db)
    → OnlyQueues db (enqueue_delivery webhook_id session_id event_type payload db).1
unfolding enqueue_delivery
enqueue_delivery-OnlyQueues webhook_id session_id event_type payload db = record {
  sessions = ground (arith, take_turn-IsTurn db);
  messages = ground (arith, take_turn-IsTurn db);
  webhooks = ground (arith, take_turn-IsTurn db);
  api_keys = ground (arith, take_turn-IsTurn db);
  posts = ground (arith, take_turn-IsTurn db);
  deliveries = elim (enqueue_delivery-cases webhook_id session_id event_type payload db) [
    | inl (e, failed, same) ↦ rw same (IsPrefix-refl db.deliveries)
    | inr (id, now, went, more) ↦ (_, more)
  ];
}

module _ {Payload : Type 0} (marshal : Envelope Payload → Result String)
    (session_id event_type : String) where
  enqueue_all_fault :
      (payload : String) (w : Webhook) (ws : List Webhook) (db : Db) (e : Error)
      → (enqueue_delivery w.id session_id event_type payload db).0 ≡ err e
      → (enqueue_all marshal session_id event_type payload (w ∷ ws) db).1
        ≡ (enqueue_delivery w.id session_id event_type payload db).1
  unfolding enqueue_all
  enqueue_all_fault payload w ws db e failed = ground arith

  emit_fault :
      (payload : Payload) (db : Db) (e : Error)
      → (list_matching session_id event_type db).0 ≡ err e
      → (emit marshal session_id event_type payload db).1
        ≡ (list_matching session_id event_type db).1
  unfolding emit
  emit_fault payload db e broke = ground arith

  emit_listed :
      (payload : Payload) (db : Db) (webhooks : List Webhook)
      → (list_matching session_id event_type db).0 ≡ ok webhooks
      → (emit marshal session_id event_type payload db).1
        ≡ (emit_to marshal session_id event_type payload webhooks
            (list_matching session_id event_type db).1).1
  unfolding emit
  emit_listed payload db webhooks fine = ground arith

  enqueue_all-OnlyQueues :
      (payload : String) (webhooks : List Webhook) (db : Db)
      → OnlyQueues db (enqueue_all marshal session_id event_type payload webhooks db).1
  unfolding enqueue_all
  enqueue_all-OnlyQueues payload [] db = OnlyQueues-refl db
  enqueue_all-OnlyQueues payload (w ∷ ws) db =
      let queued = enqueue_delivery w.id session_id event_type payload db in
      let first = enqueue_delivery-OnlyQueues w.id session_id event_type payload db in
      elim (Result-cases queued.0) [
        | inr (e, failed) ↦ rw (enqueue_all_fault payload w ws db e failed) first
        | inl (u, went) ↦
            rw (enqueue_all_cons marshal session_id event_type payload w ws db went)
              (OnlyQueues-trans first (enqueue_all-OnlyQueues payload ws queued.1))
      ]

  emit_to-OnlyQueues :
      (payload : Payload) (webhooks : List Webhook) (db : Db)
      → OnlyQueues db (emit_to marshal session_id event_type payload webhooks db).1
  unfolding emit_to
  emit_to-OnlyQueues payload [] db = OnlyQueues-refl db
  emit_to-OnlyQueues payload (w ∷ ws) db =
      let envelope : Envelope Payload = record {
        event = event_type;
        session_id = session_id;
        timestamp = db.now;
        payload = payload;
      } in
      elim (Result-cases (marshal envelope)) [
        | inr (e, broke) ↦ rw broke (OnlyQueues-refl db)
        | inl (text, fine) ↦ rw fine (enqueue_all-OnlyQueues text (w ∷ ws) db)
      ]

  list_matching-deliveries :
      (db : Db) → (list_matching session_id event_type db).1.deliveries ≡ db.deliveries
  unfolding list_matching
  list_matching-deliveries db = ground (arith, take_turn-IsTurn db)

  list_matching-OnlyQueues : (db : Db) → OnlyQueues db (list_matching session_id event_type db).1
  unfolding list_matching
  list_matching-OnlyQueues db = record {
    sessions = ground (arith, take_turn-IsTurn db);
    messages = ground (arith, take_turn-IsTurn db);
    webhooks = ground (arith, take_turn-IsTurn db);
    api_keys = ground (arith, take_turn-IsTurn db);
    posts = ground (arith, take_turn-IsTurn db);
    deliveries = rw (list_matching-deliveries db) (IsPrefix-refl db.deliveries);
  }

  pub emit-OnlyQueues :
      (payload : Payload) (db : Db)
      → OnlyQueues db (emit marshal session_id event_type payload db).1
  unfolding emit
  emit-OnlyQueues payload db = elim (Result-cases (list_matching session_id event_type db).0) [
    | inr (e, broke) ↦ rw (emit_fault payload db e broke) (list_matching-OnlyQueues db)
    | inl (webhooks, fine) ↦ rw (emit_listed payload db webhooks fine) (
        OnlyQueues-trans (list_matching-OnlyQueues db)
          (emit_to-OnlyQueues payload webhooks (list_matching session_id event_type db).1))
  ]
