-- ===== src/Webhooks/Posts.antt =====
-- The log of POSTs, and what an attempt at one delivery adds to it.
use interactive_whatsapp_meo.Base.{
  ℕ, ◌+◌, ◌≡◌, refl, ap, ◌∙◌, ◌⊎◌, inl, inr, List, [], ◌∷◌, arith, ◌==◌, if◌then◌else◌, map,
  Result-cases, false,
}
use interactive_whatsapp_meo.Store.Models.{WebhookDelivery}
use interactive_whatsapp_meo.Store.Db.{Db}
use interactive_whatsapp_meo.Store.Webhooks.{start_attempt, set_started}
use interactive_whatsapp_meo.Store.Webhooks.Marks.{update_delivery-posts, update_delivery-ids}
use interactive_whatsapp_meo.Webhooks.Service.{
  Reply, bad_request, no_answer, response, Exchange, read_reply, logged, process_delivery,
}
use interactive_whatsapp_meo.Webhooks.Settle.{settle, settle_text, settle_lem, record_outcome_lem}
use interactive_whatsapp_meo.Webhooks.Delivery.{
  answered, process_delivery_not_started, process_delivery_started,
}

-- How often a delivery was POSTed.
abbrev pub posts_of : ℕ → List ℕ → ℕ
posts_of id [] = 0
posts_of id (k ∷ ks) = (if k == id then 1 else 0) + posts_of id ks

-- The ids in the table `webhook_deliveries`.
abbrev pub ids_of : Db → List ℕ
ids_of db = map (λ d. d.id) db.deliveries

pub logged-cases :
    (id : ℕ) (reply : Reply) (posts : List ℕ)
    → (logged id reply posts ≡ posts) ⊎ (logged id reply posts ≡ id ∷ posts)
logged-cases id (bad_request e) posts = inl refl
logged-cases id (no_answer e) posts = inr refl
logged-cases id (response status_code body) posts = inr refl

-- The other deliveries are not POSTed.
pub logged-posts_of :
    (id j : ℕ) (reply : Reply) (posts : List ℕ)
    → (id == j) ≡ false
    → posts_of j (logged id reply posts) ≡ posts_of j posts
logged-posts_of id j (bad_request e) posts differ = refl
logged-posts_of id j (no_answer e) posts differ = ground (arith, differ)
logged-posts_of id j (response status_code body) posts differ = ground (arith, differ)

start_attempt-log :
    (id n : ℕ) (db : Db)
    → ((start_attempt id n db).1.posts ≡ db.posts) × (ids_of (start_attempt id n db).1 ≡ ids_of db)
unfolding start_attempt
start_attempt-log id n db = (
  update_delivery-posts "start webhook attempt" id (set_started n) db,
  update_delivery-ids "start webhook attempt" id (set_started n) db (λ k d. refl),
)

module _ (post : WebhookDelivery → ℕ → Exchange) (max_attempts : ℕ) (delivery : WebhookDelivery)
    (db : Db) where
  -- An attempt POSTs its delivery once at most, and no other, and keeps the ids.
  pub process_delivery-log :
      let out = (process_delivery post max_attempts delivery db).1 in
      ((out.posts ≡ db.posts) ⊎ (out.posts ≡ delivery.row.id ∷ db.posts)) × (ids_of out ≡ ids_of db)
  process_delivery-log =
      let n = delivery.row.attempt_count + 1 in
      let id = delivery.row.id in
      let reply = (post delivery n).reply in
      let (posts, ids) = start_attempt-log id n db in
      elim (Result-cases (start_attempt id n db).0) [
        | inr (e, stopped) ↦
            rw (process_delivery_not_started post max_attempts delivery db e stopped)
              (inl posts, ids)
        | inl (u, fine) ↦
            let after = answered post max_attempts delivery db in
            let result = read_reply reply in
            let text = settle_text max_attempts n result in
            let set = settle max_attempts n after.now result in
            rw
              (process_delivery_started post max_attempts delivery db fine
                ∙ record_outcome_lem max_attempts id n result after)
              (
                rw (update_delivery-posts text id set after, posts)
                    (logged-cases id reply db.posts),
                update_delivery-ids text id set after
                      (λ k d. (settle_lem max_attempts n after.now k reply d).0)
                    ∙ ids,
              )
      ]

  pub process_delivery-posts_of :
      (j : ℕ)
      → (delivery.row.id == j) ≡ false
      → posts_of j (process_delivery post max_attempts delivery db).1.posts ≡ posts_of j db.posts
  process_delivery-posts_of j differ = elim process_delivery-log.0 [
    | inl same ↦ ap (posts_of j) same
    | inr once ↦ ap (posts_of j) once ∙ ground (arith, differ)
  ]
