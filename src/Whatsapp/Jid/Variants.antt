-- ===== src/Whatsapp/Jid/Variants.antt =====
-- `CandidatePhones`, the `switch`: the variants of a Brazilian mobile number with and without the ninth digit.
use Prim.Native.Char.{Char}
use Prim.Native.String.{String, [], ◌∷◌}
use interactive_whatsapp_meo.Base.{
  ◌≡◌, refl, ◌≢◌, ◌⊎◌, inl, inr, Bool-cases, arith, Bool, true, false, ◌&&◌, if◌then◌else◌, List,
  [], ◌∷◌, ◌==◌,
}
use interactive_whatsapp_meo.Base.Text.{is_empty, drop, length, take, ◌++ₛ◌}
use interactive_whatsapp_meo.Whatsapp.Jid.{has_prefix, ninth_digit_variants}
use interactive_whatsapp_meo.Whatsapp.Jid.Digits.{IsDigits}
use text.Mathlib.TextLemmas.{nil-append, cons-append}
use text.Mathlib.TextEquality.{Char-path}

-- The variants of a number with an area code, by what stands behind it.
ninth_digit_variants-brazil :
    (a b : Char) (r : String)
    → ninth_digit_variants ("5" ∷ "5" ∷ a ∷ b ∷ r) ≡ (
        if length r == 8
        then ("+" ∷ "5" ∷ "5" ∷ a ∷ b ∷ "9" ∷ r) ∷ []
        else if length r == 9 && has_prefix r "9"
        then ("+" ∷ "5" ∷ "5" ∷ a ∷ b ∷ drop 1 r) ∷ []
        else [])
unfolding ninth_digit_variants
ninth_digit_variants-brazil a b r = simp (cons-append, nil-append) (ground arith)

-- Only a number that begins with 55 and an area code has a variant.
ninth_digit_variants_inv :
    (d q : String)
    → ninth_digit_variants d ≡ q ∷ []
    → (a : Char) × (b : Char) × (r : String) × (d ≡ "5" ∷ "5" ∷ a ∷ b ∷ r)
unfolding ninth_digit_variants
ninth_digit_variants_inv [] q h = cc
ninth_digit_variants_inv (c ∷ []) q h = ground arith
ninth_digit_variants_inv (c ∷ d ∷ []) q h = ground arith
ninth_digit_variants_inv (c ∷ d ∷ a ∷ []) q h = ground arith
ninth_digit_variants_inv (c ∷ d ∷ a ∷ b ∷ r) q h =
    (a, b, r, ground (arith, Char-path c "5", Char-path d "5"))

ninth_digit_variants_add :
    (a b : Char) (r : String)
    → length r ≡ 8
    → ninth_digit_variants ("5" ∷ "5" ∷ a ∷ b ∷ r) ≡ ("+" ∷ "5" ∷ "5" ∷ a ∷ b ∷ "9" ∷ r) ∷ []
ninth_digit_variants_add a b r h = rw (ninth_digit_variants-brazil a b r) (ground arith)

ninth_digit_variants_remove :
    (a b : Char) (r : String)
    → length r ≡ 8
    → ninth_digit_variants ("5" ∷ "5" ∷ a ∷ b ∷ "9" ∷ r) ≡ ("+" ∷ "5" ∷ "5" ∷ a ∷ b ∷ r) ∷ []
ninth_digit_variants_remove a b r h = rw (ninth_digit_variants-brazil a b ("9" ∷ r)) (ground arith)

-- What adding or removing the ninth digit gives has the original number as its own variant.
pub record IsVariantOf (d q : String) : Type 0 where
  pub digits : String
  pub shape : q ≡ "+" ∷ digits
  pub all_digits : IsDigits digits
  pub some_digit : is_empty digits ≡ false
  pub other_length : length digits ≢ length d
  pub back : ninth_digit_variants digits ≡ ("+" ∷ d) ∷ []

module _ (a b : Char) where
  -- With eight digits behind the area code the variant has one more.
  IsVariantOf-add :
      (r q : String)
      → length r ≡ 8
      → IsDigits ("5" ∷ "5" ∷ a ∷ b ∷ r)
      → ninth_digit_variants ("5" ∷ "5" ∷ a ∷ b ∷ r) ≡ q ∷ []
      → IsVariantOf ("5" ∷ "5" ∷ a ∷ b ∷ r) q
  IsVariantOf-add r q n h e = record {
    digits = "5" ∷ "5" ∷ a ∷ b ∷ "9" ∷ r;
    shape = cc (ninth_digit_variants_add a b r n);
    all_digits = ground arith;
    some_digit = refl;
    other_length = omega arith;
    back = ninth_digit_variants_remove a b r n;
  }

  -- With nine digits behind the area code, the first a nine, the variant has one less.
  IsVariantOf-remove :
      (r q : String)
      → length r ≡ 8
      → IsDigits ("5" ∷ "5" ∷ a ∷ b ∷ "9" ∷ r)
      → ninth_digit_variants ("5" ∷ "5" ∷ a ∷ b ∷ "9" ∷ r) ≡ q ∷ []
      → IsVariantOf ("5" ∷ "5" ∷ a ∷ b ∷ "9" ∷ r) q
  IsVariantOf-remove r q n h e = record {
    digits = "5" ∷ "5" ∷ a ∷ b ∷ r;
    shape = cc (ninth_digit_variants_remove a b r n);
    all_digits = ground arith;
    some_digit = refl;
    other_length = omega arith;
    back = ninth_digit_variants_add a b r n;
  }

  -- There is no other number with a variant.
  brazil_cases :
      (r q : String)
      → ninth_digit_variants ("5" ∷ "5" ∷ a ∷ b ∷ r) ≡ q ∷ []
      → (length r ≡ 8) ⊎ ((s : String) × (r ≡ "9" ∷ s) × (length s ≡ 8))
  brazil_cases [] q h = absurd (cc (ninth_digit_variants-brazil a b []))
  brazil_cases (c ∷ s) q h = elim (Bool-cases (length (c ∷ s) == 8)) [
    | inl n ↦ inl (ground arith)
    | inr n ↦ inr (
      s,
      ground (arith, ninth_digit_variants-brazil a b (c ∷ s), Char-path c "9"),
      ground (arith, ninth_digit_variants-brazil a b (c ∷ s)),
    )
  ]

pub ninth_digit_variants-IsVariantOf :
    (d q : String) → IsDigits d → ninth_digit_variants d ≡ q ∷ [] → IsVariantOf d q
ninth_digit_variants-IsVariantOf d q h e =
    let (a, b, r, same) = ninth_digit_variants_inv d q e in
    let e' = rw same at e in
    let h' : IsDigits ("5" ∷ "5" ∷ a ∷ b ∷ r) = rw same at h in
    rw same (elim (brazil_cases a b r q e') [
      | inl n ↦ IsVariantOf-add a b r q n h' e'
      | inr (s, nine, n) ↦ rw nine (IsVariantOf-remove a b s q n (rw nine at h') (rw nine at e'))
    ])

-- A list of at most one text, chosen by three tests.
one_of :
    (b c e : Bool) (x y : String)
    → let l : List String = if b then (if c then x ∷ [] else if e then y ∷ [] else []) else [] in
      (l ≡ []) ⊎ ((q : String) × (l ≡ q ∷ []))
one_of false c e x y = inl refl
one_of true true e x y = inr (x, refl)
one_of true false true x y = inr (y, refl)
one_of true false false x y = inl refl

-- There is at most one variant.
pub ninth_digit_variants-cases :
    (d : String)
    → (ninth_digit_variants d ≡ []) ⊎ ((q : String) × (ninth_digit_variants d ≡ q ∷ []))
unfolding ninth_digit_variants
ninth_digit_variants-cases d =
    one_of (has_prefix d "55") (length (drop 2 d) == 10)
      (length (drop 2 d) == 11 && has_prefix (drop 2 (drop 2 d)) "9")
      ("+" ∷ "5" ∷ "5" ∷ (take 2 (drop 2 d) ++ₛ ("9" ∷ drop 2 (drop 2 d))))
      ("+" ∷ "5" ∷ "5" ∷ (take 2 (drop 2 d) ++ₛ drop 3 (drop 2 d)))
