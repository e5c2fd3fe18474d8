-- ===== src/Base/Order.antt =====
-- Lists sorted by a number that each element carries, the largest first.
use Prim.Native.Nat.{ℕ, zero, suc, ◌≤◌, ◌<◌}
use mathlib.Core.Path.{◌≡◌, refl, sym}
use mathlib.Core.Logic.{◌≢◌, inl, inr}
use mathlib.Core.Bool.{Bool, true, false}
use mathlib.Core.List.{List, [], ◌∷◌, ◌++◌}
use native.Mathlib.Omega.{arith}
use interactive_whatsapp_meo.Base.Tests.{leb, ltb, if◌then◌else◌, Bool-cases}
use interactive_whatsapp_meo.Base.Lists.{
  take, All-take, keep, insert_by, sort_by, All, All-keep, All-insert_by, All-map, All-sort_by,
}

module _ {ℓ} {A : Type ℓ} (key : A → ℕ) where
  -- `ORDER BY key DESC`
  abbrev pub largest_first : A → A → Bool
  largest_first a b = leb (key b) (key a)

  abbrev pub IsDescending : List A → Type 0
  IsDescending [] = Unit
  IsDescending (x ∷ xs) = All (λ y. key y ≤ key x) xs × IsDescending xs

  insert_by-IsDescending :
      (x : A) (xs : List A) → IsDescending xs → IsDescending (insert_by largest_first x xs)
  insert_by-IsDescending x [] h = (tt, tt)
  insert_by-IsDescending x (y ∷ ys) h = elim (Bool-cases (leb (key y) (key x))) [
    | inl first ↦ rw first ((ground arith, All-map _ _ (λ z below. ground arith) ys h.0), h)
    | inr later ↦ rw later (
      All-insert_by (λ z. key z ≤ key y) largest_first x ys (ground arith) h.0,
      insert_by-IsDescending x ys h.1,
    )
  ]

  pub sort_by-IsDescending : (xs : List A) → IsDescending (sort_by largest_first xs)
  sort_by-IsDescending [] = tt
  sort_by-IsDescending (x ∷ xs) = insert_by-IsDescending x _ (sort_by-IsDescending xs)

  -- An element that no other exceeds is inserted at the front.
  insert_by-front :
      (x : A) (xs : List A) → All (λ y. key y ≤ key x) xs → insert_by largest_first x xs ≡ x ∷ xs
  insert_by-front x [] h = refl
  insert_by-front x (y ∷ ys) h = ground (arith, h.0)

  keep-insert_by :
      (p : A → Bool) (x : A) (xs : List A)
      → IsDescending xs
      → keep p (insert_by largest_first x xs)
        ≡ (if p x then insert_by largest_first x (keep p xs) else keep p xs)
  keep-insert_by p x [] h = ground arith
  keep-insert_by p x (y ∷ ys) h = elim (Bool-cases (leb (key y) (key x))) [
    | inl first ↦
        let front =
          insert_by-front x (keep p (y ∷ ys))
            (All-keep _ p (y ∷ ys) (ground arith, All-map _ _ (λ z below. ground arith) ys h.0)) in
        rw first (ground (arith, front))
    | inr later ↦ rw later (ground (arith, keep-insert_by p x ys h.1))
  ]

  -- Filtering and sorting commute.
  pub keep-sort_by :
      (p : A → Bool) (xs : List A)
      → keep p (sort_by largest_first xs) ≡ sort_by largest_first (keep p xs)
  keep-sort_by p [] = refl
  keep-sort_by p (x ∷ xs) = ground (
    arith,
    keep-insert_by p x (sort_by largest_first xs) (sort_by-IsDescending xs),
    keep-sort_by p xs,
  )

  -- No two elements carry the same number.
  abbrev pub IsKeyed : List A → Type 0
  IsKeyed [] = Unit
  IsKeyed (x ∷ xs) = All (λ y. key y ≢ key x) xs × IsKeyed xs

  pub IsKeyed-keep : (p : A → Bool) (xs : List A) → IsKeyed xs → IsKeyed (keep p xs)
  IsKeyed-keep p [] h = tt
  IsKeyed-keep p (x ∷ xs) h = elim (Bool-cases (p x)) [
    | inl y ↦ rw y (All-keep (λ z. key z ≢ key x) p xs h.0, IsKeyed-keep p xs h.1)
    | inr n ↦ rw n (IsKeyed-keep p xs h.1)
  ]

  IsKeyed-insert_by :
      (before : A → A → Bool) (x : A) (xs : List A)
      → All (λ y. key y ≢ key x) xs
      → IsKeyed xs
      → IsKeyed (insert_by before x xs)
  IsKeyed-insert_by before x [] new h = (tt, tt)
  IsKeyed-insert_by before x (y ∷ ys) new h = elim (Bool-cases (before x y)) [
    | inl first ↦ rw first (new, h)
    | inr later ↦ rw later (
      All-insert_by (λ z. key z ≢ key y) before x ys (λ e. new.0 (sym e)) h.0,
      IsKeyed-insert_by before x ys new.1 h.1,
    )
  ]

  pub IsKeyed-take : (n : ℕ) (xs : List A) → IsKeyed xs → IsKeyed (take n xs)
  IsKeyed-take zero xs h = tt
  IsKeyed-take (suc n) [] h = tt
  IsKeyed-take (suc n) (x ∷ xs) h = (All-take _ n xs h.0, IsKeyed-take n xs h.1)

  pub IsKeyed-sort_by :
      (before : A → A → Bool) (xs : List A) → IsKeyed xs → IsKeyed (sort_by before xs)
  IsKeyed-sort_by before [] h = tt
  IsKeyed-sort_by before (x ∷ xs) h =
      IsKeyed-insert_by before x _ (All-sort_by (λ y. key y ≢ key x) before xs h.0)
        (IsKeyed-sort_by before xs h.1)

  keep_below : (k : ℕ) (xs : List A) → All (λ y. key y < k) xs → keep (λ y. ltb (key y) k) xs ≡ xs
  keep_below k [] h = refl
  keep_below k (x ∷ xs) h = ground (arith, h.0, keep_below k xs h.1)

  strictly :
      (k : ℕ) (xs : List A)
      → All (λ y. key y ≤ k) xs
      → All (λ y. key y ≢ k) xs
      → All (λ y. key y < k) xs
  strictly k [] h n = tt
  strictly k (x ∷ xs) h n = (omega (arith, h.0, n.0), strictly k xs h.1 n.1)

  pub All-middle : (P : A → Type 0) (xs : List A) (x : A) (ys : List A) → All P (xs ++ x ∷ ys) → P x
  All-middle P [] x ys h = h.0
  All-middle P (y ∷ xs) x ys h = All-middle P xs x ys h.1

  -- In a sorted list, the elements below one of them are those that follow it.
  pub keep-after :
      (xs : List A) (x : A) (ys : List A)
      → IsDescending (xs ++ x ∷ ys)
      → IsKeyed (xs ++ x ∷ ys)
      → keep (λ y. ltb (key y) (key x)) (xs ++ x ∷ ys) ≡ ys
  keep-after [] x ys d k = ground (arith, keep_below (key x) ys (strictly (key x) ys d.0 k.0))
  keep-after (z ∷ xs) x ys d k =
      let above = All-middle (λ y. key y ≤ key z) xs x ys d.0 in
      ground (arith, keep-after xs x ys d.1 k.1, above)

-- A stable sort by any order that agrees with the numbers.
module _ {ℓ} {A : Type ℓ} (key : A → ℕ) (before : A → A → Bool)
    (first : (a b : A) → before a b ≡ true → key b ≤ key a)
    (later : (a b : A) → before a b ≡ false → key a ≤ key b) where
  insert_by-descends :
      (x : A) (xs : List A) → IsDescending key xs → IsDescending key (insert_by before x xs)
  insert_by-descends x [] h = (tt, tt)
  insert_by-descends x (y ∷ ys) h = elim (Bool-cases (before x y)) [
    | inl y_after ↦
        let le = first x y y_after in
        rw y_after ((le, All-map _ _ (λ z below. omega (arith, le, below)) ys h.0), h)
    | inr x_after ↦ rw x_after (
      All-insert_by (λ z. key z ≤ key y) before x ys (later x y x_after) h.0,
      insert_by-descends x ys h.1,
    )
  ]

  pub sort_by-descends : (xs : List A) → IsDescending key (sort_by before xs)
  sort_by-descends [] = tt
  sort_by-descends (x ∷ xs) = insert_by-descends x _ (sort_by-descends xs)
