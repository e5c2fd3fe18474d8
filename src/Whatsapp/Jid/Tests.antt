-- ===== src/Whatsapp/Jid/Tests.antt =====
-- Runs of the phone number code (internal/whatsapp/jid_test.go), and its theorems at inputs.
use interactive_whatsapp_meo.Base.{
  ◌⊎◌, ◌≢◌, String, ◌≡◌, refl, [], ◌∷◌, ok, err, plain, if◌then◌else◌,
}
use interactive_whatsapp_meo.Base.Text.{◌++ₛ◌, is_empty, trim_space}
use interactive_whatsapp_meo.Whatsapp.Jid.{
  JidLib, default_user_server, digits_only, normalize_phone, candidate_phones, parse_target_jid,
  parse_trimmed,
}
use interactive_whatsapp_meo.Whatsapp.Jid.Normalize.{normalize_phone_idempotent}
use interactive_whatsapp_meo.Whatsapp.Jid.Candidates.{
  IsLookup, candidate_phones-IsPhone, candidate_phones_symmetric,
}
use interactive_whatsapp_meo.Whatsapp.Jid.Target.{
  parse_target_jid_phone, parse_target_jid-normalize_phone,
}

adds_ninth_digit : candidate_phones "554184634146" ≡ "+554184634146" ∷ "+5541984634146" ∷ []
unfolding candidate_phones
adds_ninth_digit = refl

removes_ninth_digit : candidate_phones "5541984634146" ≡ "+5541984634146" ∷ "+554184634146" ∷ []
unfolding candidate_phones
removes_ninth_digit = refl

other_country : candidate_phones "+1 (415) 555-0123" ≡ "+14155550123" ∷ []
unfolding candidate_phones
other_country = refl

-- A small library of JIDs: a user and a server.
abbrev pairs : JidLib
pairs = record {
  Jid = String × String;
  user = λ j. j.0;
  server = λ j. j.1;
  device = λ j. 0;
  new_jid = λ u s. (u, s);
  empty_jid = ("", "");
  is_empty_jid = λ j. is_empty j.1;
  to_non_ad = λ j. j;
  text = λ j. j.0;
  parse_jid = λ s. ok (s, "g.us");
  quoted = λ s. "\"" ++ₛ (s ++ₛ "\"");
}

target_runs :
    (parse_target_jid pairs " +55 (41) 8463 " ≡ ok ("55418463", "s.whatsapp.net"))
    × (parse_target_jid pairs "--" ≡ err (plain "invalid phone number"))
    × (parse_target_jid pairs " " ≡ err (plain "target is required"))
    × (parse_target_jid pairs " 1@g.us " ≡ ok ("1@g.us", "g.us"))
unfolding parse_target_jid parse_trimmed trim_space digits_only
target_runs = (refl, refl, refl, refl)

normalize_phone_idempotent_example :
    normalize_phone (normalize_phone "(41) 8463") ≡ normalize_phone "(41) 8463"
normalize_phone_idempotent_example = normalize_phone_idempotent "(41) 8463"

candidate_phones-IsPhone_example :
    ((normalize_phone "55 41 8463-4146" ≡ "") × (candidate_phones "55 41 8463-4146" ≡ []))
    ⊎ ((normalize_phone "55 41 8463-4146" ≢ "")
        × IsLookup (normalize_phone "55 41 8463-4146") (candidate_phones "55 41 8463-4146"))
candidate_phones-IsPhone_example = candidate_phones-IsPhone "55 41 8463-4146"

candidate_phones_symmetric_example :
    candidate_phones "+5541984634146" ≡ "+5541984634146" ∷ "+554184634146" ∷ []
candidate_phones_symmetric_example =
    candidate_phones_symmetric "554184634146" "+554184634146" "+5541984634146" adds_ninth_digit

parse_target_jid_phone_example : parse_target_jid pairs "41 84" ≡ (
    if is_empty (digits_only "41 84")
    then err (
        plain
          (if is_empty (trim_space "41 84") then "target is required" else "invalid phone number"))
    else ok (digits_only "41 84", default_user_server))
parse_target_jid_phone_example = parse_target_jid_phone pairs "41 84" refl

parse_target_jid-normalize_phone_example :
    parse_target_jid pairs (normalize_phone "41 84") ≡ parse_target_jid pairs "41 84"
unfolding digits_only
parse_target_jid-normalize_phone_example = parse_target_jid-normalize_phone pairs "41 84" refl refl
