-- ===== src/Store/Webhooks/Marks.antt =====
-- What a statement on one delivery does to the table `webhook_deliveries`.
use mathlib.Core.Option
use interactive_whatsapp_meo.Base.{
  ℕ, String, ◌≡◌, Option, none, some, List, [], ◌∷◌, arith, ◌==◌, if◌then◌else◌, map_if, Error, ok,
  err, wrap, ap, ◌∙◌, map, Option-cases, inl, inr,
}
use interactive_whatsapp_meo.Store.Models.{DeliveryRow}
use interactive_whatsapp_meo.Store.Db.{Db, take_turn, take_turn-IsTurn}
use interactive_whatsapp_meo.Store.Table.{find, map-map_if}
use interactive_whatsapp_meo.Store.Webhooks.{update_delivery}

-- The table as a map from delivery ids to rows.
abbrev pub delivery_at : ℕ → Db → Option DeliveryRow
delivery_at id db = find (λ d. d.id == id) db.deliveries

delivery_at-map_if :
    (id j : ℕ) (f : DeliveryRow → DeliveryRow)
    → ((d : DeliveryRow) → (f d).id ≡ d.id)
    → (rows : List DeliveryRow)
    → find (λ d. d.id == j) (map_if (λ d. d.id == id) f rows)
      ≡ (if id == j then Option.map f (find (λ d. d.id == j) rows) else find (λ d. d.id == j) rows)
delivery_at-map_if id j f keeps [] = ground arith
delivery_at-map_if id j f keeps (d ∷ rows) =
    ground (arith, keeps d, delivery_at-map_if id j f keeps rows)

module _ (text : String) (id : ℕ) (set : ℕ → DeliveryRow → DeliveryRow) (db : Db) where
  -- A fault: no row changes.
  pub update_delivery_fault :
      (e : Error)
      → (take_turn db).0 ≡ some e
      → ((update_delivery text id set db).0 ≡ err (wrap text e))
        × ((update_delivery text id set db).1.deliveries ≡ db.deliveries)
  unfolding update_delivery
  update_delivery_fault e failed = ground (arith, take_turn-IsTurn db)

  -- No fault: the row with the id, and no other, is rewritten.
  pub update_delivery_done :
      (take_turn db).0 ≡ none
      → ((update_delivery text id set db).0 ≡ ok tt)
        × ((update_delivery text id set db).1.deliveries
            ≡ map_if (λ d. d.id == id) (set (take_turn db).1.now) db.deliveries)
  unfolding update_delivery
  update_delivery_done went = ground (arith, take_turn-IsTurn db)

  -- Nothing is POSTed.
  pub update_delivery-posts : (update_delivery text id set db).1.posts ≡ db.posts
  unfolding update_delivery
  update_delivery-posts = ground (arith, take_turn-IsTurn db)

  pub update_delivery-ids :
      ((n : ℕ) (d : DeliveryRow) → (set n d).id ≡ d.id)
      → map (λ d. d.id) (update_delivery text id set db).1.deliveries
        ≡ map (λ d. d.id) db.deliveries
  update_delivery-ids keeps = elim (Option-cases (take_turn db).0) [
    | inr (e, broke) ↦ ap (map (λ d. d.id)) (update_delivery_fault e broke).1
    | inl went ↦
        ap (map (λ d. d.id)) (update_delivery_done went).1
        ∙ map-map_if (λ d. d.id) (λ d. d.id == id) (set (take_turn db).1.now)
            (keeps (take_turn db).1.now) db.deliveries
  ]

  pub update_delivery-delivery_at :
      ((n : ℕ) (d : DeliveryRow) → (set n d).id ≡ d.id)
      → (take_turn db).0 ≡ none
      → (j : ℕ)
      → delivery_at j (update_delivery text id set db).1 ≡ (
          if id == j
          then Option.map (set (take_turn db).1.now) (delivery_at j db)
          else delivery_at j db)
  update_delivery-delivery_at keeps went j =
      ap (find (λ d. d.id == j)) (update_delivery_done went).1
      ∙ delivery_at-map_if id j (set (take_turn db).1.now) (keeps (take_turn db).1.now)
          db.deliveries
