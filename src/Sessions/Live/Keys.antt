-- ===== src/Sessions/Live/Keys.antt =====
-- Lists in which no key stands twice, when rows are left out.
use interactive_whatsapp_meo.Base.{
  ◌≡◌, ◌≢◌, sym, Bool, not, some, List, [], ◌∷◌, ◌++◌, arith, keep, map, All, Bool-cases, inl, inr,
}
use mathlib.Core.Path.{subst}
use interactive_whatsapp_meo.Store.Table.{find, HasKeys}

module _ {ℓ κ} {A : Type ℓ} (P : A → Type κ) where
  -- What holds of all rows holds of the one that is found.
  pub find-All : (p : A → Bool) (xs : List A) (x : A) → find p xs ≡ some x → All P xs → P x
  find-All p [] x h all = absurd (ground (arith, h))
  find-All p (y ∷ ys) x h all = elim (Bool-cases (p y)) [
    | inl here ↦ subst P (ground (arith, h, here)) all.0
    | inr there ↦ find-All p ys x (ground (arith, h, there)) all.1
  ]

  -- A row more at the end.
  pub All-concat : (xs : List A) (x : A) → All P xs → P x → All P (xs ++ x ∷ [])
  All-concat [] x h new = (new, tt)
  All-concat (y ∷ ys) x h new = (h.0, All-concat ys x h.1 new)

module _ {ℓ κ} {A : Type ℓ} {K : Type κ} (key : A → K) where
  -- A property of the keys, of the rows and of their keys.
  pub All-of_map : (P : K → Type κ) (xs : List A) → All P (map key xs) → All (λ x. P (key x)) xs
  All-of_map P [] h = tt
  All-of_map P (x ∷ xs) h = (h.0, All-of_map P xs h.1)

  pub All-to_map : (P : K → Type κ) (xs : List A) → All (λ x. P (key x)) xs → All P (map key xs)
  All-to_map P [] h = tt
  All-to_map P (x ∷ xs) h = (h.0, All-to_map P xs h.1)

  All-map-keep :
      (P : K → Type κ) (p : A → Bool) (xs : List A)
      → All P (map key xs)
      → All P (map key (keep p xs))
  All-map-keep P p [] h = tt
  All-map-keep P p (x ∷ xs) h = elim (Bool-cases (p x)) [
    | inl y ↦ rw y (h.0, All-map-keep P p xs h.1)
    | inr n ↦ rw n (All-map-keep P p xs h.1)
  ]

  pub HasKeys-keep : (p : A → Bool) (xs : List A) → HasKeys key xs → HasKeys key (keep p xs)
  HasKeys-keep p [] h = tt
  HasKeys-keep p (x ∷ xs) h = elim (Bool-cases (p x)) [
    | inl y ↦ rw y (All-map-keep (λ v. key x ≢ v) p xs h.0, HasKeys-keep p xs h.1)
    | inr n ↦ rw n (HasKeys-keep p xs h.1)
  ]

  -- The rows that do not pass a test have other keys than the one that is found by it.
  pub keep-others :
      (p : A → Bool) (xs : List A) (x : A)
      → find p xs ≡ some x
      → HasKeys key xs
      → All (λ y. key x ≢ key y) (keep (λ y. not (p y)) xs)
  keep-others p [] x h keys = tt
  keep-others p (y ∷ ys) x h keys = elim (Bool-cases (p y)) [
    | inl here ↦
        let same : y ≡ x = ground (arith, h, here) in
        rw here (
          subst (λ z. All (λ v. key z ≢ key v) (keep (λ v. not (p v)) ys)) same
            (All-of_map (λ v. key y ≢ v) (keep (λ v. not (p v)) ys)
              (All-map-keep (λ v. key y ≢ v) (λ v. not (p v)) ys keys.0)))
    | inr there ↦
        let found : find p ys ≡ some x = ground (arith, h, there) in
        rw there (
          (λ same.
              find-All (λ v. key y ≢ key v) p ys x found (All-of_map (λ v. key y ≢ v) ys keys.0)
                (sym same)),
          keep-others p ys x found keys.1,
        )
  ]

pub All-append {ℓ κ} :
    {A : Type ℓ} (P : A → Type κ) (xs ys : List A) → All P xs → All P ys → All P (xs ++ ys)
All-append P [] ys h k = k
All-append P (x ∷ xs) ys h k = (h.0, All-append P xs ys h.1 k)
