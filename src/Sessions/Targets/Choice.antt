-- ===== src/Sessions/Targets/Choice.antt =====
-- `resolveDirectTarget`: the JID that is chosen among WhatsApp's answers.
use mathlib.Core.Option
use interactive_whatsapp_meo.Base.{
  String, ◌≡◌, Bool, true, false, not, ◌&&◌, Option, none, some, List, [], ◌∷◌, arith, str_eq,
}
use interactive_whatsapp_meo.Store.Table.{find}
use interactive_whatsapp_meo.Whatsapp.Jid.{JidLib}
use interactive_whatsapp_meo.Sessions.World.{OnWhatsApp}
use interactive_whatsapp_meo.Sessions.Targets.{pick_target}

-- The documented behaviour of whatsmeow's JIDs: the empty JID is empty, and dropping the device
-- of a JID keeps whether it is.
pub record IsJidLib (lib : JidLib) : Type 0 where
  pub empty : lib.is_empty_jid lib.empty_jid ≡ true
  pub to_non_ad : (jid : lib.Jid) → lib.is_empty_jid (lib.to_non_ad jid) ≡ lib.is_empty_jid jid

module _ (lib : JidLib) (laws : IsJidLib lib) (wanted : String) where
  open lib use {Jid, user, empty_jid, is_empty_jid, to_non_ad}

  -- A number that is on WhatsApp.
  abbrev pub exists : OnWhatsApp lib → Bool
  exists found = found.is_in && not (is_empty_jid found.jid)

  -- A number that is on WhatsApp, spelled as it was asked for.
  abbrev pub exact : OnWhatsApp lib → Bool
  exact found = exists found && str_eq (user (to_non_ad found.jid)) wanted

  abbrev pub jid_of : OnWhatsApp lib → Jid
  jid_of found = to_non_ad found.jid

  -- The first answer that exists, where there is one.
  abbrev pub or_first : Option (OnWhatsApp lib) → Option (OnWhatsApp lib) → Option (OnWhatsApp lib)
  or_first none second = second
  or_first (some found) second = some found

  with_fallback :
      (fallback : Jid) (results : List (OnWhatsApp lib))
      → is_empty_jid fallback ≡ false
      → pick_target lib wanted fallback results
        ≡ (elim (find exact results) [ none ↦ some fallback | some found ↦ some (jid_of found) ])
  unfolding pick_target
  with_fallback fallback [] h = ground arith
  with_fallback fallback (found ∷ results) h = ground (arith, with_fallback fallback results h)

  -- With JIDs as they are documented: among the answers, the choice is the first that exists and is spelled as it was asked for;
  -- where there is none, the first that exists; and there is no choice where no number exists.
  pub pick_target_lem :
      (results : List (OnWhatsApp lib))
      → pick_target lib wanted empty_jid results
        ≡ Option.map jid_of (or_first (find exact results) (find exists results))
  unfolding pick_target
  pick_target_lem [] = ground (arith, laws.empty)
  pick_target_lem (found ∷ results) = ground (
    arith,
    laws.empty,
    laws.to_non_ad found.jid,
    pick_target_lem results,
    with_fallback (to_non_ad found.jid) results,
  )
