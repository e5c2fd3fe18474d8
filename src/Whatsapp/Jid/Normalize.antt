-- ===== src/Whatsapp/Jid/Normalize.antt =====
-- `NormalizePhone`: what a normalised number looks like.
use Prim.Native.String.{String, ◌∷◌}
use interactive_whatsapp_meo.Base.{◌≡◌, refl, ap, sym, ◌∙◌, ◌⊎◌, inl, inr, Bool-cases, true, false}
use interactive_whatsapp_meo.Base.Text.{is_empty, trim_space}
use interactive_whatsapp_meo.Whatsapp.Jid.{digits_only, normalize_phone}
use interactive_whatsapp_meo.Whatsapp.Jid.Digits.{
  IsDigits, digits_only-IsDigits, digits_only_of_IsDigits, digits_only-trim_space,
}

-- A plus sign in front of one or more digits.
pub record IsPhone (s : String) : Type 0 where
  pub digits : String
  pub shape : s ≡ "+" ∷ digits
  pub all_digits : IsDigits digits
  pub some_digit : is_empty digits ≡ false

pub normalize_phone_of_digits :
    (d : String) → IsDigits d → is_empty d ≡ false → normalize_phone d ≡ "+" ∷ d
unfolding normalize_phone
normalize_phone_of_digits d h e = rw (digits_only_of_IsDigits d h) (rw e refl)

pub digits_only-plus : (d : String) → digits_only ("+" ∷ d) ≡ digits_only d
unfolding digits_only
digits_only-plus d = refl

-- The digits of a number decide its normal form.
pub normalize_phone_cong :
    (s t : String) → digits_only s ≡ digits_only t → normalize_phone s ≡ normalize_phone t
unfolding normalize_phone
normalize_phone_cong s t e = rw e refl

pub normalize_phone-plus : (d : String) → normalize_phone ("+" ∷ d) ≡ normalize_phone d
normalize_phone-plus d = normalize_phone_cong ("+" ∷ d) d (digits_only-plus d)

pub normalize_phone-trim_space : (s : String) → normalize_phone (trim_space s) ≡ normalize_phone s
normalize_phone-trim_space s = normalize_phone_cong (trim_space s) s (digits_only-trim_space s)

-- `NormalizePhone` returns the empty text or a plus sign with digits; it is empty exactly when the
-- input has no digit.
pub normalize_phone-IsPhone :
    (raw : String)
    → ((normalize_phone raw ≡ "") × (is_empty (digits_only raw) ≡ true))
      ⊎ (IsPhone (normalize_phone raw) × (is_empty (digits_only raw) ≡ false))
unfolding normalize_phone
normalize_phone-IsPhone raw = elim (Bool-cases (is_empty (digits_only raw))) [
  | inl e ↦ inl (rw e refl, e)
  | inr e ↦ inr (
    record {
      digits = digits_only raw;
      shape = rw e refl;
      all_digits = digits_only-IsDigits raw;
      some_digit = e;
    },
    e,
  )
]

pub normalize_phone_of_IsPhone : (s : String) → IsPhone s → normalize_phone s ≡ s
normalize_phone_of_IsPhone s p = rw p.shape (
    rw (normalize_phone-plus p.digits)
      (normalize_phone_of_digits p.digits p.all_digits p.some_digit))

-- Normalising a number a second time changes nothing.
pub normalize_phone_idempotent :
    (raw : String) → normalize_phone (normalize_phone raw) ≡ normalize_phone raw
unfolding normalize_phone digits_only
normalize_phone_idempotent raw = elim (normalize_phone-IsPhone raw) [
  | inl (e, _) ↦ ap normalize_phone e ∙ sym e
  | inr (p, _) ↦ normalize_phone_of_IsPhone (normalize_phone raw) p
]
