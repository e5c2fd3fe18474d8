-- ===== src/Reads/Groups.antt =====
-- `GROUP BY`, `PARTITION BY` and `COUNT(DISTINCT …)`: rows grouped by a key.
use interactive_whatsapp_meo.Base.{
  ℕ, ◌+◌, ◌≡◌, refl, ◌∙◌, Bool, true, false, List, [], ◌∷◌, arith, ◌↔◌, ◌≢◌, inl, inr,
  if◌then◌else◌, Bool-cases, keep, length, map, All, All-map, sym, IsDistinct, sort_by, insert_by,
  ◌||◌,
}

-- Keys are compared by a Boolean test.
module _ {K : Type 0} (eqb : K → K → Bool) where
  abbrev pub is_in : K → List K → Bool
  is_in k [] = false
  is_in k (x ∷ xs) = eqb k x || is_in k xs

  abbrev pub distinct : List K → List K
  distinct [] = []
  distinct (k ∷ ks) = let rest = distinct ks in if is_in k ks then rest else k ∷ rest

  abbrev pub group {ℓ} : {A : Type ℓ} → (A → K) → K → List A → List A
  group key k rows = keep (λ r. eqb (key r) k) rows

-- Membership in a sorted list, and in the distinct elements.
module _ {K : Type 0} (eqb : K → K → Bool) where
  is_in-insert_by :
      (before : K → K → Bool) (k x : K) (xs : List K)
      → is_in eqb k (insert_by before x xs) ≡ (eqb k x || is_in eqb k xs)
  is_in-insert_by before k x [] = refl
  is_in-insert_by before k x (y ∷ ys) = ground (arith, is_in-insert_by before k x ys)

  pub is_in-sort_by :
      (before : K → K → Bool) (k : K) (xs : List K)
      → is_in eqb k (sort_by before xs) ≡ is_in eqb k xs
  is_in-sort_by before k [] = refl
  is_in-sort_by before k (x ∷ xs) =
      ground (arith, is_in-insert_by before k x (sort_by before xs), is_in-sort_by before k xs)

  module _ (eqb_iff : (a b : K) → (eqb a b ≡ true) ↔ (a ≡ b)) where
    pub is_in-distinct : (k : K) (ks : List K) → is_in eqb k (distinct eqb ks) ≡ is_in eqb k ks
    is_in-distinct k [] = refl
    is_in-distinct k (j ∷ js) = elim (Bool-cases (is_in eqb j js)) [
      | inr new ↦ rw new (ground (arith, is_in-distinct k js))
      | inl old ↦ elim (Bool-cases (eqb k j)) [
        | inr differ ↦ rw (old, differ) (is_in-distinct k js)
        | inl hit ↦ rw (old, hit) (is_in-distinct k js ∙ (rw ((eqb_iff k j).0 hit) old))
      ]
    ]

    absent_All : (k : K) (ks : List K) → is_in eqb k ks ≡ false → All (λ j. k ≢ j) ks
    absent_All k [] h = tt
    absent_All k (j ∷ js) h =
        ((λ same. ground (arith, h, (eqb_iff k j).1 same)), absent_All k js (ground (arith, h)))

    pub distinct-IsDistinct : (ks : List K) → IsDistinct (distinct eqb ks)
    distinct-IsDistinct [] = tt
    distinct-IsDistinct (k ∷ ks) = elim (Bool-cases (is_in eqb k ks)) [
      | inl old ↦ rw old (distinct-IsDistinct ks)
      | inr new ↦
          rw new
            (absent_All k (distinct eqb ks) (is_in-distinct k ks ∙ new), distinct-IsDistinct ks)
    ]

    module _ {A : Type 0} (key : A → K) where
      is_in-later :
          (k : K) (ks : List K) (rows : List A)
          → All (λ r. is_in eqb (key r) ks ≡ true) rows
          → All (λ r. is_in eqb (key r) (k ∷ ks) ≡ true) rows
      is_in-later k ks [] h = tt
      is_in-later k ks (r ∷ rows) h = (ground (arith, h.0), is_in-later k ks rows h.1)

      is_in-map : (rows : List A) → All (λ r. is_in eqb (key r) (map key rows) ≡ true) rows
      is_in-map [] = tt
      is_in-map (r ∷ rows) = (
        ground (arith, (eqb_iff (key r) (key r)).1 refl),
        is_in-later (key r) (map key rows) rows (is_in-map rows),
      )

      -- Every row's key is among the distinct keys.
      pub keys_cover :
          (rows : List A) → All (λ r. is_in eqb (key r) (distinct eqb (map key rows)) ≡ true) rows
      keys_cover rows =
          All-map _ _ (λ r h. is_in-distinct (key r) (map key rows) ∙ h) rows (is_in-map rows)

      -- No row has a key that is not among the rows' keys.
      pub no_group :
          (k : K) (rows : List A) → is_in eqb k (map key rows) ≡ false → group eqb key k rows ≡ []
      no_group k [] h = refl
      no_group k (r ∷ rows) h = elim (Bool-cases (eqb (key r) k)) [
        | inl hit ↦
            absurd (ground (arith, h, (eqb_iff k (key r)).1 (sym ((eqb_iff (key r) k).0 hit))))
        | inr miss ↦ rw miss (no_group k rows (ground (arith, h)))
      ]

-- The sum of a number that each element has.
abbrev pub sum_by {ℓ} : {A : Type ℓ} → (A → ℕ) → List A → ℕ
sum_by f [] = 0
sum_by f (x ∷ xs) = f x + sum_by f xs

pub sum_by-sort_by {ℓ} :
    {A : Type ℓ} (f : A → ℕ) (before : A → A → Bool) (xs : List A)
    → sum_by f (sort_by before xs) ≡ sum_by f xs
sum_by-sort_by f before [] = refl
sum_by-sort_by {A} f before (x ∷ xs) =
    omega (arith, insert x (sort_by before xs), sum_by-sort_by f before xs)
  where
    insert : (y : A) (ys : List A) → sum_by f (insert_by before y ys) ≡ f y + sum_by f ys
    insert y [] = refl
    insert y (z ∷ zs) = ground (arith, insert y zs)

pub sum_by-map {ℓ κ} :
    {A : Type ℓ} {B : Type κ} (f : B → ℕ) (g : A → B) (xs : List A)
    → sum_by f (map g xs) ≡ sum_by (λ x. f (g x)) xs
sum_by-map f g [] = refl
sum_by-map f g (x ∷ xs) = omega (arith, sum_by-map f g xs)

pub sum_by-ext {ℓ} :
    {A : Type ℓ} (f g : A → ℕ) (xs : List A) → ((x : A) → f x ≡ g x) → sum_by f xs ≡ sum_by g xs
sum_by-ext f g [] h = refl
sum_by-ext f g (x ∷ xs) h = omega (arith, h x, sum_by-ext f g xs h)

module _ {K : Type 0} (eqb : K → K → Bool) (eqb_iff : (a b : K) → (eqb a b ≡ true) ↔ (a ≡ b)) where
  -- Distinct keys hit a given key once, where it is among them, and never where it is not.
  sum_of_hits :
      (k : K) (ks : List K)
      → IsDistinct ks
      → sum_by (λ j. if eqb k j then 1 else 0) ks ≡ (if is_in eqb k ks then 1 else 0)
  sum_of_hits k [] d = refl
  sum_of_hits k (j ∷ js) d = elim (Bool-cases (eqb k j)) [
    | inl hit ↦ rw hit (omega (arith, no_more js (rw ((eqb_iff k j).0 hit) d.0)))
    | inr miss ↦ rw miss (omega (arith, sum_of_hits k js d.1))
  ]
    where
      no_more : (is : List K) → All (λ i. k ≢ i) is → sum_by (λ i. if eqb k i then 1 else 0) is ≡ 0
      no_more [] h = refl
      no_more (i ∷ is) h = elim (Bool-cases (eqb k i)) [
        | inl hit ↦ absurd (h.0 ((eqb_iff k i).0 hit))
        | inr miss ↦ rw miss (omega (arith, no_more is h.1))
      ]

  module _ {A : Type 0} (key : A → K) where
    -- Rows whose keys are among distinct keys are counted once by the groups of those keys.
    pub sum_of_groups :
        (ks : List K) (rows : List A)
        → IsDistinct ks
        → All (λ r. is_in eqb (key r) ks ≡ true) rows
        → sum_by (λ k. length (group eqb key k rows)) ks ≡ length rows
    sum_of_groups ks [] d h = zeros ks
      where
        zeros : (js : List K) → sum_by (λ k. length {A = A} []) js ≡ 0
        zeros [] = refl
        zeros (j ∷ js) = omega (arith, zeros js)
    sum_of_groups ks (r ∷ rows) d h = split ks ∙ omega (arith, sum_of_groups ks rows d h.1, one)
      where
        split :
            (js : List K)
            → sum_by (λ k. length (group eqb key k (r ∷ rows))) js
              ≡ sum_by (λ k. if eqb (key r) k then 1 else 0) js
                + sum_by (λ k. length (group eqb key k rows)) js
        split [] = refl
        split (j ∷ js) = ground (arith, split js)

        one : sum_by (λ k. if eqb (key r) k then 1 else 0) ks ≡ 1
        one = sum_of_hits (key r) ks d ∙ (rw h.0 refl)
