-- ===== src/Whatsapp/Jid/Digits.antt =====
-- Texts of digits, and what `\D` removes.
use Prim.Native.Char.{Char}
use Prim.Native.String.{String, [], ◌∷◌}
use interactive_whatsapp_meo.Base.{
  ℕ, zero, suc, ◌≡◌, refl, ap, true, false, ◌&&◌, arith, inl, inr, Bool-cases,
}
use interactive_whatsapp_meo.Base.Text.{
  is_space, is_empty, trim_left, trim_right, trim_space, take, drop, ◌++ₛ◌,
}
use interactive_whatsapp_meo.Whatsapp.Jid.{is_digit, digits_only}
use text.Mathlib.TextLemmas.{nil-append, cons-append}

abbrev pub IsDigits : String → Type 0
IsDigits [] = Unit
IsDigits (c ∷ s) = (is_digit c ≡ true) × IsDigits s

pub digits_only-IsDigits : (s : String) → IsDigits (digits_only s)
unfolding digits_only
digits_only-IsDigits [] = tt
digits_only-IsDigits (c ∷ s) = elim (Bool-cases (is_digit c)) [
  | inl d ↦ rw d (d, digits_only-IsDigits s)
  | inr n ↦ rw n (digits_only-IsDigits s)
]

pub digits_only_of_IsDigits : (s : String) → IsDigits s → digits_only s ≡ s
unfolding digits_only
digits_only_of_IsDigits [] h = refl
digits_only_of_IsDigits (c ∷ s) h = rw h.0 (ap (λ t. c ∷ t) (digits_only_of_IsDigits s h.1))

-- Only blanks are trimmed, and no blank is a digit.
is_space-not_digit : (c : Char) → is_space c ≡ true → is_digit c ≡ false
unfolding is_space
is_space-not_digit c h = ground arith

digits_only-trim_left : (s : String) → digits_only (trim_left s) ≡ digits_only s
unfolding digits_only trim_left
digits_only-trim_left [] = refl
digits_only-trim_left (c ∷ s) = elim (Bool-cases (is_space c)) [
  | inl b ↦ rw (b, is_space-not_digit c b) (digits_only-trim_left s)
  | inr n ↦ rw n refl
]

pub digits_only_of_is_empty : (s : String) → is_empty s ≡ true → digits_only s ≡ []
unfolding digits_only
digits_only_of_is_empty [] h = refl
digits_only_of_is_empty (c ∷ s) h = cc

digits_only-trim_right : (s : String) → digits_only (trim_right s) ≡ digits_only s
unfolding digits_only trim_right
digits_only-trim_right [] = refl
digits_only-trim_right (c ∷ s) = elim (Bool-cases (is_space c && is_empty (trim_right s))) [
  | inl b ↦ ground (
    arith,
    is_space-not_digit c,
    digits_only_of_is_empty (trim_right s),
    digits_only-trim_right s,
  )
  | inr n ↦ rw n (rw (digits_only-trim_right s) refl)
]

pub digits_only-trim_space : (s : String) → digits_only (trim_space s) ≡ digits_only s
unfolding trim_space
digits_only-trim_space s = rw digits_only-trim_right (digits_only-trim_left s)

pub IsDigits-append : (s t : String) → IsDigits s → IsDigits t → IsDigits (s ++ₛ t)
IsDigits-append [] t hs ht = rw nil-append ht
IsDigits-append (c ∷ s) t hs ht = rw cons-append (hs.0, IsDigits-append s t hs.1 ht)

pub IsDigits-take : (n : ℕ) (s : String) → IsDigits s → IsDigits (take n s)
IsDigits-take zero s h = tt
IsDigits-take (suc n) [] h = tt
IsDigits-take (suc n) (c ∷ s) h = (h.0, IsDigits-take n s h.1)

pub IsDigits-drop : (n : ℕ) (s : String) → IsDigits s → IsDigits (drop n s)
IsDigits-drop zero s h = h
IsDigits-drop (suc n) [] h = tt
IsDigits-drop (suc n) (c ∷ s) h = IsDigits-drop n s h.1
