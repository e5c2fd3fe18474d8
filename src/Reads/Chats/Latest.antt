-- ===== src/Reads/Chats/Latest.antt =====
-- The message that `ROW_NUMBER() … ORDER BY message_timestamp DESC` puts first.
use mathlib.Core.Path.{subst}
use interactive_whatsapp_meo.Base.{
  ℕ, ◌≤◌, ◌≡◌, ◌⊎◌, refl, sym, ap, Bool, none, some, List, [], ◌∷◌, arith, inl, inr, Bool-cases,
  length, length-sort_by, sort_by, insert_by, All,
}
use interactive_whatsapp_meo.Base.Order.{IsDescending, sort_by-descends}
use interactive_whatsapp_meo.Store.Models.{Message}
use interactive_whatsapp_meo.Reads.Queries.{latest_first, latest}

abbrev pub timestamp : Message → ℕ
timestamp m = m.message_timestamp

-- A message stands in a list.
abbrev pub Among : Message → List Message → Type 0
Among m [] = ⊥
Among m (x ∷ xs) = (x ≡ m) ⊎ Among m xs

pub Among-insert_by :
    (before : Message → Message → Bool) (m x : Message) (xs : List Message)
    → Among m (insert_by before x xs)
    → (x ≡ m) ⊎ Among m xs
Among-insert_by before m x [] h = h
Among-insert_by before m x (y ∷ ys) h = elim (Bool-cases (before x y)) [
  | inl first ↦ rw first at h
  | inr later ↦ elim (rw later at h) [
    | inl here ↦ inr (inl here)
    | inr there ↦ elim (Among-insert_by before m x ys there) [
      | inl it ↦ inl it
      | inr rest ↦ inr (inr rest)
    ]
  ]
]

pub Among-sort_by :
    (before : Message → Message → Bool) (m : Message) (xs : List Message)
    → Among m (sort_by before xs)
    → Among m xs
Among-sort_by before m [] h = h
Among-sort_by before m (x ∷ xs) h = elim (Among-insert_by before m x (sort_by before xs) h) [
  | inl here ↦ inl here
  | inr there ↦ inr (Among-sort_by before m xs there)
]

-- What holds of a sorted list holds of the list.
module _ (P : Message → Type 0) (before : Message → Message → Bool) where
  All-insert_by_inv :
      (x : Message) (xs : List Message) → All P (insert_by before x xs) → P x × All P xs
  All-insert_by_inv x [] h = h
  All-insert_by_inv x (y ∷ ys) h = elim (Bool-cases (before x y)) [
    | inl first ↦ rw first at h
    | inr later ↦
        let both : P y × All P (insert_by before x ys) = rw later at h in
        let rest = All-insert_by_inv x ys both.1 in (rest.0, (both.0, rest.1))
  ]

  pub All-sort_by_inv : (xs : List Message) → All P (sort_by before xs) → All P xs
  All-sort_by_inv [] h = tt
  All-sort_by_inv (x ∷ xs) h =
      let both = All-insert_by_inv x (sort_by before xs) h in (both.0, All-sort_by_inv xs both.1)

pub sorted-latest_first : (rows : List Message) → IsDescending timestamp (sort_by latest_first rows)
sorted-latest_first =
    sort_by-descends timestamp latest_first (λ a b h. ground arith) (λ a b h. ground arith)

-- The last message of some rows, and none only where there is no row.
pub latest-cases :
    (rows : List Message)
    → ((latest rows ≡ none) × (length rows ≡ 0))
      ⊎ ((m : Message) × (latest rows ≡ some m)
          × Among m rows
          × All (λ r. timestamp r ≤ timestamp m) rows)
unfolding latest
latest-cases rows = by_head (sort_by latest_first rows) refl
  where
    by_head :
        (sorted : List Message)
        → sort_by latest_first rows ≡ sorted
        → ((latest rows ≡ none) × (length rows ≡ 0))
          ⊎ ((m : Message) × (latest rows ≡ some m)
              × Among m rows
              × All (λ r. timestamp r ≤ timestamp m) rows)
    by_head [] e =
        inl ((rw (e, latest) refl), omega (arith, length-sort_by latest_first rows, ap length e))
    by_head (m ∷ ms) e =
        let descends : IsDescending timestamp (m ∷ ms) =
          subst (IsDescending timestamp) e (sorted-latest_first rows) in
        inr (
          m,
          (rw (e, latest) refl),
          Among-sort_by latest_first m rows (subst (Among m) (sym e) (inl refl)),
          All-sort_by_inv (λ r. timestamp r ≤ timestamp m) latest_first rows
              (subst (All (λ r. timestamp r ≤ timestamp m)) (sym e) (omega arith, descends.0)),
        )
