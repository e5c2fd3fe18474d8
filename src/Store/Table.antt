-- ===== src/Store/Table.antt =====
-- Rows found and rewritten by a test: what `SELECT` and `UPDATE … RETURNING` do to a table.
use interactive_whatsapp_meo.Base.{
  ◌≡◌, refl, Bool, true, false, Option, none, some, List, [], ◌∷◌, ◌++◌, arith, if◌then◌else◌,
  map_if, All, IsDistinct, map, ◌≢◌, Bool-cases, inl, inr,
}
use mathlib.Core.Option

module _ {ℓ} {A : Type ℓ} where
  -- The first row that passes a test.
  abbrev pub find : (A → Bool) → List A → Option A
  find p [] = none
  find p (x ∷ xs) = if p x then some x else find p xs

  pub find-holds : (p : A → Bool) (xs : List A) (x : A) → find p xs ≡ some x → p x ≡ true
  find-holds p [] x h = cc
  find-holds p (y ∷ ys) x h = elim (Bool-cases (p y)) [
    | inl here ↦ ground arith
    | inr there ↦ find-holds p ys x (rw there at h)
  ]

  -- A test that a rewrite keeps finds the same row, rewritten.
  pub find-map_if :
      (q p : A → Bool) (f : A → A)
      → ((x : A) → p x ≡ true → q (f x) ≡ q x)
      → (xs : List A)
      → find q (map_if p f xs) ≡ Option.map (λ x. if p x then f x else x) (find q xs)
  find-map_if q p f keeps [] = refl
  find-map_if q p f keeps (x ∷ xs) = ground (arith, keeps x, find-map_if q p f keeps xs)

  -- Nothing is found exactly where no row passes.
  pub find-none-All : (p : A → Bool) (xs : List A) → find p xs ≡ none → All (λ x. p x ≡ false) xs
  find-none-All p [] h = tt
  find-none-All p (x ∷ xs) h = ground (arith, find-none-All p xs)

  pub find-append_none :
      (p : A → Bool) (xs ys : List A) → find p xs ≡ none → find p (xs ++ ys) ≡ find p ys
  find-append_none p [] ys h = refl
  find-append_none p (x ∷ xs) ys h = ground (arith, find-append_none p xs ys)

  pub find-append_some :
      (p : A → Bool) (xs ys : List A) (a : A) → find p xs ≡ some a → find p (xs ++ ys) ≡ some a
  find-append_some p [] ys a h = cc
  find-append_some p (x ∷ xs) ys a h = ground (arith, find-append_some p xs ys a)

module _ {ℓ κ} {A : Type ℓ} {K : Type κ} (key : A → K) where
  -- No key stands in two rows.
  abbrev pub HasKeys : List A → Type κ
  HasKeys xs = IsDistinct (map key xs)

  -- A row with a new key may be added.
  pub HasKeys-concat :
      (xs : List A) (x : A) → HasKeys xs → All (λ y. key y ≢ key x) xs → HasKeys (xs ++ x ∷ [])
  HasKeys-concat [] x h new = (tt, tt)
  HasKeys-concat (y ∷ ys) x h new = (All_map-concat ys x h.0 new.0, HasKeys-concat ys x h.1 new.1)
    where
      All_map-concat :
          (zs : List A) (z : A)
          → All (λ k. key y ≢ k) (map key zs)
          → key y ≢ key z
          → All (λ k. key y ≢ k) (map key (zs ++ z ∷ []))
      All_map-concat [] z hs hz = (hz, tt)
      All_map-concat (w ∷ ws) z hs hz = (hs.0, All_map-concat ws z hs.1 hz)

  pub map-map_if :
      (p : A → Bool) (f : A → A)
      → ((x : A) → key (f x) ≡ key x)
      → (xs : List A) → map key (map_if p f xs) ≡ map key xs
  map-map_if p f keeps [] = refl
  map-map_if p f keeps (x ∷ xs) = ground (arith, keeps x, map-map_if p f keeps xs)
