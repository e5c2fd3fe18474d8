-- ===== src/Whatsapp/Jid/Target.antt =====
-- `ParseTargetJID`: which targets are phone numbers.
use Prim.Native.String.{String, [], ◌∷◌}
use interactive_whatsapp_meo.Base.{
  ℕ, ◌≡◌, refl, ap, sym, inl, inr, Bool-cases, arith, false, if◌then◌else◌, ok, err, plain,
}
use interactive_whatsapp_meo.Base.Text.{
  is_empty, eq_nil_of_is_empty, contains, trim_left, trim_right, trim_space, is_space, trim_prefix,
}
use interactive_whatsapp_meo.Whatsapp.Jid.{
  JidLib, digits_only, normalize_phone, default_user_server, parse_target_jid, parse_trimmed,
}
use interactive_whatsapp_meo.Whatsapp.Jid.Digits.{
  IsDigits, digits_only_of_is_empty, digits_only-IsDigits, digits_only-trim_space,
  digits_only_of_IsDigits,
}
use interactive_whatsapp_meo.Whatsapp.Jid.Normalize.{
  IsPhone, normalize_phone-IsPhone, digits_only-plus,
}

-- What trimming leaves holds no character that was not there.
contains-trim_left : (k : ℕ) (s : String) → contains k s ≡ false → contains k (trim_left s) ≡ false
unfolding trim_left
contains-trim_left k [] h = refl
contains-trim_left k (c ∷ s) h = ground (arith, contains-trim_left k s)

contains-trim_right :
    (k : ℕ) (s : String) → contains k s ≡ false → contains k (trim_right s) ≡ false
unfolding trim_right
contains-trim_right k [] h = refl
contains-trim_right k (c ∷ s) h = ground (arith, contains-trim_right k s)

-- No digit is a blank, so trimming a plus sign with digits changes nothing.
trim_right_of_IsDigits : (s : String) → IsDigits s → trim_right s ≡ s
unfolding trim_right is_space
trim_right_of_IsDigits [] h = refl
trim_right_of_IsDigits (c ∷ s) h = ground (arith, trim_right_of_IsDigits s)

trim_space_of_IsPhone : (s : String) → IsPhone s → trim_space s ≡ s
unfolding trim_space trim_left trim_right is_space
trim_space_of_IsPhone s p =
    rw p.shape (ap (λ t. "+" ∷ t) (trim_right_of_IsDigits p.digits p.all_digits))

contains_of_IsDigits : (s : String) → IsDigits s → contains b'@' s ≡ false
contains_of_IsDigits [] h = refl
contains_of_IsDigits (c ∷ s) h = ground (arith, contains_of_IsDigits s)

contains_of_IsPhone : (s : String) → IsPhone s → contains b'@' s ≡ false
contains_of_IsPhone s p = rw p.shape (contains_of_IsDigits p.digits p.all_digits)

contains-trim_space :
    (k : ℕ) (s : String) → contains k s ≡ false → contains k (trim_space s) ≡ false
unfolding trim_space
contains-trim_space k s h = contains-trim_right k (trim_left s) (contains-trim_left k s h)

-- Without its plus sign a normalised number is the digits of the text.
trim_prefix-normalize_phone : (s : String) → trim_prefix b'+' (normalize_phone s) ≡ digits_only s
unfolding normalize_phone
trim_prefix-normalize_phone s = elim (Bool-cases (is_empty (digits_only s))) [
  | inl e ↦ rw e (sym (eq_nil_of_is_empty _ e))
  | inr e ↦ rw e refl
]

module _ (lib : JidLib) where
  open lib use {Jid, new_jid}

  parse_trimmed_phone :
      (t : String)
      → contains b'@' t ≡ false
      → parse_trimmed lib t ≡ (
          if is_empty (digits_only t)
          then err (plain (if is_empty t then "target is required" else "invalid phone number"))
          else ok (new_jid (digits_only t) default_user_server))
  unfolding parse_trimmed
  parse_trimmed_phone t h =
      rw (trim_prefix-normalize_phone t, h) (ground (arith, digits_only_of_is_empty t))

  -- A target with no at sign is a phone number: its digits, however they are set out, name the
  -- account on the default server. Without a digit the target is refused.
  pub parse_target_jid_phone :
      (raw : String)
      → contains b'@' raw ≡ false
      → parse_target_jid lib raw ≡ (
          if is_empty (digits_only raw)
          then err (
              plain (
                if is_empty (trim_space raw) then "target is required" else "invalid phone number"))
          else ok (new_jid (digits_only raw) default_user_server))
  unfolding parse_target_jid
  parse_target_jid_phone raw h =
      rw (← digits_only-trim_space raw)
        (parse_trimmed_phone (trim_space raw) (contains-trim_space b'@' raw h))

  -- A target that is a phone number may be normalised first: the same chat is addressed.
  pub parse_target_jid-normalize_phone :
      (raw : String)
      → contains b'@' raw ≡ false
      → is_empty (digits_only raw) ≡ false
      → parse_target_jid lib (normalize_phone raw) ≡ parse_target_jid lib raw
  unfolding normalize_phone
  parse_target_jid-normalize_phone raw h d = elim (normalize_phone-IsPhone raw) [
    | inl (_, e) ↦ absurd (cc)
    | inr (p, _) ↦
        let same : digits_only (normalize_phone raw) ≡ digits_only raw =
          rw d (rw digits_only-plus (digits_only_of_IsDigits _ (digits_only-IsDigits raw))) in
        ground (
          arith,
          parse_target_jid_phone (normalize_phone raw) (contains_of_IsPhone _ p),
          parse_target_jid_phone raw h,
          same,
        )
  ]
