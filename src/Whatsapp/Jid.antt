-- ===== src/Whatsapp/Jid.antt =====
-- internal/whatsapp/jid.go: phone numbers and chat targets.
-- The JIDs are those of the whatsmeow module, which enters as the interface `JidLib`.
mod Digits
mod Variants
pub mod Normalize
pub mod Candidates
pub mod Target
mod Tests
use Prim.Native.Char.{Char, code}
use Prim.Native.String.{[], ◌∷◌}
use interactive_whatsapp_meo.Base.{
  ℕ, String, Bool, true, false, ◌&&◌, List, [], ◌∷◌, Result, ok, err, plain, leb, ◌==◌, str_eq,
  if◌then◌else◌,
}
use interactive_whatsapp_meo.Base.Text.{
  ◌++ₛ◌, is_empty, trim_space, contains, trim_prefix, length, take, drop,
}

-- What the code uses of whatsmeow's `types` package.
pub record JidLib : Type 1 where
  pub Jid : Type 0
  pub user : Jid → String
  pub server : Jid → String
  pub device : Jid → ℕ
  pub new_jid : String → String → Jid
  pub empty_jid : Jid
  pub is_empty_jid : Jid → Bool
  pub to_non_ad : Jid → Jid
  pub text : Jid → String
  pub parse_jid : String → Result Jid
  -- `%q`, with the escapes of package fmt
  pub quoted : String → String

-- `types.DefaultUserServer` and `types.HiddenUserServer`
abbrev pub default_user_server : String
default_user_server = "s.whatsapp.net"

abbrev pub hidden_user_server : String
hidden_user_server = "lid"

abbrev pub is_digit : Char → Bool
is_digit c = leb b'0' (code c) && leb (code c) b'9'

-- `nondigitPattern.ReplaceAllString(raw, "")`
unfoldable pub digits_only : String → String
digits_only [] = []
digits_only (c ∷ s) = if is_digit c then c ∷ digits_only s else digits_only s

unfoldable pub normalize_phone : String → String
normalize_phone raw = let clean = digits_only raw in if is_empty clean then "" else "+" ∷ clean

-- `strings.HasPrefix`
abbrev pub has_prefix : String → String → Bool
has_prefix s [] = true
has_prefix [] (d ∷ t) = false
has_prefix (c ∷ s) (d ∷ t) = code c == code d && has_prefix s t

-- What the `switch` on a Brazilian local number appends to the candidates.
unfoldable pub ninth_digit_variants : String → List String
ninth_digit_variants digits =
    if has_prefix digits "55"
    then (let local = drop 2 digits in
        if length local == 10
        then ("+" ∷ "5" ∷ "5" ∷ (take 2 local ++ₛ ("9" ∷ drop 2 local))) ∷ []
        else if length local == 11 && has_prefix (drop 2 local) "9"
        then ("+" ∷ "5" ∷ "5" ∷ (take 2 local ++ₛ drop 3 local)) ∷ []
        else [])
    else []

-- Membership in the map `seen`.
abbrev pub seen_before : String → List String → Bool
seen_before s [] = false
seen_before s (t ∷ seen) = if str_eq s t then true else seen_before s seen

-- The loop that drops empty and repeated candidates.
unfoldable pub unique_from : List String → List String → List String
unique_from seen [] = []
unique_from seen (c ∷ cs) =
    let skipped = unique_from seen cs in
    let kept : List String = c ∷ unique_from (c ∷ seen) cs in
    if is_empty c then skipped else if seen_before c seen then skipped else kept

unfoldable pub candidate_phones : String → List String
unfolding normalize_phone ninth_digit_variants unique_from digits_only
candidate_phones raw =
    let normalized = normalize_phone raw in
    if is_empty normalized
    then []
    else unique_from [] (normalized ∷ ninth_digit_variants (trim_prefix b'+' normalized))

module _ (lib : JidLib) where
  open lib use {Jid, new_jid, parse_jid}

  -- What `ParseTargetJID` does with the trimmed text.
  unfoldable pub parse_trimmed : String → Result Jid
  unfolding normalize_phone
  parse_trimmed raw =
      if is_empty raw
      then err (plain "target is required")
      else if contains b'@' raw
      then parse_jid raw
      else (let phone = trim_prefix b'+' (normalize_phone raw) in
          if is_empty phone
          then err (plain "invalid phone number")
          else ok (new_jid phone default_user_server))

  unfoldable pub parse_target_jid : String → Result Jid
  parse_target_jid raw = parse_trimmed (trim_space raw)
