-- ===== src/Whatsapp/Jid/Candidates.antt =====
-- `CandidatePhones`: the numbers that are looked up for a target.
use Prim.Native.String.{String, [], ◌∷◌}
use interactive_whatsapp_meo.Base.{
  ◌⊎◌, ◌≡◌, refl, ◌≢◌, ap, sym, ◌∙◌, inl, inr, Bool-cases, arith, List, [], ◌∷◌, str_eq,
  str_eq_of_true, length, All, IsDistinct, ◌≤◌,
}
use interactive_whatsapp_meo.Base.Text.{length as text_length}
use interactive_whatsapp_meo.Whatsapp.Jid.{
  normalize_phone, ninth_digit_variants, unique_from, candidate_phones,
}
use interactive_whatsapp_meo.Whatsapp.Jid.Normalize.{
  IsPhone, normalize_phone-IsPhone, normalize_phone_of_IsPhone,
}
use interactive_whatsapp_meo.Whatsapp.Jid.Variants.{
  IsVariantOf, ninth_digit_variants-cases, ninth_digit_variants-IsVariantOf,
}

unique_from_one : (d : String) → unique_from [] (("+" ∷ d) ∷ []) ≡ ("+" ∷ d) ∷ []
unfolding unique_from
unique_from_one d = refl

unique_from_two :
    (d e : String)
    → text_length e ≢ text_length d
    → unique_from [] (("+" ∷ d) ∷ ("+" ∷ e) ∷ []) ≡ ("+" ∷ d) ∷ ("+" ∷ e) ∷ []
unfolding unique_from
unique_from_two d e h = elim (Bool-cases (str_eq ("+" ∷ e) ("+" ∷ d))) [
  | inl same ↦ absurd (omega (arith, ap text_length (str_eq_of_true ("+" ∷ e) ("+" ∷ d) same)))
  | inr other ↦ rw other refl
]

-- The list that the loop sees, for a number that is in normal form.
candidate_phones_of_IsPhone :
    (raw : String) (p : IsPhone (normalize_phone raw))
    → candidate_phones raw ≡ unique_from [] (("+" ∷ p.digits) ∷ ninth_digit_variants p.digits)
unfolding candidate_phones
candidate_phones_of_IsPhone raw p = rw p.shape refl

-- What `CandidatePhones` can return.
pub data Candidates (raw : String) : Type 0 where
  none_at_all : normalize_phone raw ≡ "" → candidate_phones raw ≡ [] → Candidates raw
  only_one :
      (p : IsPhone (normalize_phone raw))
      → ninth_digit_variants p.digits ≡ []
      → candidate_phones raw ≡ normalize_phone raw ∷ []
      → Candidates raw
  two :
      (p : IsPhone (normalize_phone raw)) (q : String)
      → IsVariantOf p.digits q
      → candidate_phones raw ≡ normalize_phone raw ∷ q ∷ []
      → Candidates raw

pub candidate_phones-Candidates : (raw : String) → Candidates raw
unfolding candidate_phones
candidate_phones-Candidates raw = elim (normalize_phone-IsPhone raw) [
  | inl (e, _) ↦ none_at_all e (rw e refl)
  | inr (p, _) ↦ elim (ninth_digit_variants-cases p.digits) [
    | inl alone ↦
        only_one p alone
          (candidate_phones_of_IsPhone raw p ∙ (rw (alone, p.shape) (unique_from_one p.digits)))
    | inr (q, e) ↦
        let v = ninth_digit_variants-IsVariantOf p.digits q p.all_digits e in
        two p q v (
          candidate_phones_of_IsPhone raw p
          ∙ (rw (e, p.shape, v.shape) (unique_from_two p.digits v.digits v.other_length)))
  ]
]

-- A number in normal form with a variant is listed with it, in that order.
candidate_phones_of_variant :
    (d e : String)
    → IsPhone ("+" ∷ d)
    → ninth_digit_variants d ≡ ("+" ∷ e) ∷ []
    → text_length e ≢ text_length d
    → candidate_phones ("+" ∷ d) ≡ ("+" ∷ d) ∷ ("+" ∷ e) ∷ []
unfolding candidate_phones
candidate_phones_of_variant d e p h n =
    rw (normalize_phone_of_IsPhone ("+" ∷ d) p, h) (unique_from_two d e n)

-- The lookup is symmetric: if a number is looked up together with a second form of it, with or
-- without the ninth digit, then the second form is looked up together with the first.
pub candidate_phones_symmetric :
    (raw p q : String) → candidate_phones raw ≡ p ∷ q ∷ [] → candidate_phones q ≡ q ∷ p ∷ []
candidate_phones_symmetric raw p q e = elim (candidate_phones-Candidates raw) [
  | none_at_all _ none ↦ absurd (cc)
  | only_one _ _ one ↦ absurd (cc)
  | two f q' v both ↦
      let to_q : q ≡ "+" ∷ v.digits = ground (arith, v.shape, both) in
      let to_p : p ≡ "+" ∷ f.digits = ground (arith, f.shape, both) in
      let f' : IsPhone ("+" ∷ v.digits) = record {
        digits = v.digits;
        shape = refl;
        all_digits = v.all_digits;
        some_digit = v.some_digit;
      } in
      rw (to_q, to_p)
        (candidate_phones_of_variant v.digits f.digits f' v.back
          (λ same. v.other_length (sym same)))
]

-- What a list of numbers is for a number that is looked up: the number itself, and at most one more,
-- which differs from it; each is a plus sign with digits.
pub record IsLookup (phone : String) (phones : List String) : Type 0 where
  pub others : List String
  pub shape : phones ≡ phone ∷ others
  pub at_most_one : length others ≤ 1
  pub all_phones : All IsPhone phones
  pub distinct : IsDistinct phones

-- Either the text normalizes to nothing and `CandidatePhones` returns nothing, or it returns the
-- number in normal form and at most one more, which differs from it; each is a plus sign with
-- digits.
pub candidate_phones-IsPhone :
    (raw : String)
    → ((normalize_phone raw ≡ "") × (candidate_phones raw ≡ []))
      ⊎ ((normalize_phone raw ≢ "") × IsLookup (normalize_phone raw) (candidate_phones raw))
candidate_phones-IsPhone raw = elim (candidate_phones-Candidates raw) [
  | none_at_all empty e ↦ inl (empty, e)
  | only_one p _ e ↦ inr (
    phone_full p,
    record {
      others = [];
      shape = e;
      at_most_one = omega arith;
      all_phones = rw e (p, tt);
      distinct = rw e (tt, tt);
    },
  )
  | two p q v e ↦
      let q-IsPhone : IsPhone q = record {
        digits = v.digits;
        shape = v.shape;
        all_digits = v.all_digits;
        some_digit = v.some_digit;
      } in
      let differ : normalize_phone raw ≢ q =
        λ same. v.other_length (omega (arith, ap text_length (sym v.shape ∙ sym same ∙ p.shape))) in
      inr (
        phone_full p,
        record {
          others = q ∷ [];
          shape = e;
          at_most_one = omega arith;
          all_phones = rw e (p, (q-IsPhone, tt));
          distinct = rw e ((differ, tt), (tt, tt));
        },
      )
]
  where
    phone_full : IsPhone (normalize_phone raw) → normalize_phone raw ≢ ""
    phone_full p empty = omega (arith, ap text_length (sym p.shape ∙ empty))
