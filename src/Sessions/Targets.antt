-- ===== src/Sessions/Targets.antt =====
-- `preferredDirectTarget`, `resolveDirectTarget` and `VerifyNumber` of internal/session/manager.go:
-- which JID a message goes to. A runtime always has a client and the client a store, so the tests
-- for nil are left out.
pub mod Choice
use interactive_whatsapp_meo.Base.{
  ℕ, ◌+◌, String, Bool, true, false, not, ◌&&◌, ◌||◌, Option, none, some, List, [], ◌∷◌, Error,
  Result, ok, err, wrap, detail, map_error, sentinel, phone_required, number_not_on_whats_app,
  str_eq, ◌==◌, ltb, if◌then◌else◌,
}
use interactive_whatsapp_meo.Base.Text.{is_empty}
use interactive_whatsapp_meo.Whatsapp.Jid.{
  JidLib, default_user_server, hidden_user_server, candidate_phones, normalize_phone,
}
use interactive_whatsapp_meo.Sessions.World.{
  Runtime, OnWhatsApp, Client, World, Method, pure, throw, ask, lift, ◌>>=◌, ◌>>◌,
}
use interactive_whatsapp_meo.Sessions.Runtimes.{require_connected}

pub record VerifyNumberResult : Type 0 where
  pub session_id : String
  pub phone : String
  pub exists : Bool
  pub jid : String
  pub verified_name : String

module _ (lib : JidLib) where
  open lib use {Jid, user, server, device, empty_jid, is_empty_jid, to_non_ad, text}

  -- What `preferredDirectTarget` makes of the alternate JID.
  abbrev pub preferred : Jid → Result Jid → Jid
  preferred target (err e) = target
  preferred target (ok alt) =
      if is_empty_jid alt
      then target
      else if str_eq (server (to_non_ad alt)) default_user_server
      then to_non_ad alt
      else target

  -- The loop of `resolveDirectTarget`: a number as it was asked for, else the first that exists.
  unfoldable pub pick_target : String → Jid → List (OnWhatsApp lib) → Option Jid
  pick_target wanted fallback [] = if is_empty_jid fallback then none else some fallback
  pick_target wanted fallback (found ∷ results) =
      let candidate = to_non_ad found.jid in
      let as_before = pick_target wanted fallback results in
      let with_fallback = pick_target wanted candidate results in
      if not found.is_in || is_empty_jid found.jid
      then as_before
      else if str_eq (user candidate) wanted
      then some candidate
      else if is_empty_jid fallback
      then with_fallback
      else as_before

  abbrev pub verified : String → String → List (OnWhatsApp lib) → VerifyNumberResult
  verified session_id phone [] = record {
    session_id = session_id;
    phone = phone;
    exists = false;
    jid = "";
    verified_name = "";
  }
  verified session_id phone (response ∷ rest) = record {
    session_id = session_id;
    phone = phone;
    exists = response.is_in;
    jid = if response.is_in then text response.jid else "";
    verified_name = elim response.verified_name [ none ↦ "" | some name ↦ name ];
  }

  module _ (client : Client lib) where
    unfoldable pub preferred_direct_target : Runtime → Jid → Method lib Jid
    preferred_direct_target runtime given =
        let target = to_non_ad given in
        if str_eq (server target) hidden_user_server
        then (do
          alt ← ask (λ call. client.get_alt_jid runtime.number call target)
          pure (preferred target alt))
        else pure target

    abbrev pub chosen : Jid → Option Jid → Method lib Jid
    chosen target (some candidate) = pure candidate
    chosen target none = throw (detail (sentinel number_not_on_whats_app) (text target))

    -- The lookup of the candidates, when there are some.
    abbrev pub look_up : Runtime → Jid → List String → Method lib Jid
    look_up runtime target [] = pure target
    look_up runtime target (c ∷ cs) = do
      answer ← ask (λ call. client.is_on_whats_app runtime.number call (c ∷ cs))
      results ← lift (map_error (wrap "verify target on whatsapp") answer)
      chosen target (pick_target (user target) empty_jid results)

    -- `resolveDirectTarget`, once the preferred target is known.
    abbrev pub resolve_preferred : Runtime → Jid → Method lib Jid
    resolve_preferred runtime target =
        if not (str_eq (server target) default_user_server) || ltb 0 (device target)
        then pure target
        else look_up runtime target (candidate_phones (user target))

    unfoldable pub resolve_direct_target : Runtime → Jid → Method lib Jid
    unfolding preferred_direct_target pick_target
    resolve_direct_target runtime given = do
      target ← preferred_direct_target runtime given
      resolve_preferred runtime target

    unfoldable pub verify_number : String → String → Method lib VerifyNumberResult
    unfolding require_connected
    verify_number session_id phone = do
      (runtime, session) ← require_connected client session_id
      let normalized = normalize_phone phone
      if is_empty normalized then throw (sentinel phone_required) else (do
        answer ← ask (λ call. client.is_on_whats_app runtime.number call (normalized ∷ []))
        results ← lift (map_error (wrap "verify phone on whatsapp") answer)
        pure (verified session.session_id normalized results))
