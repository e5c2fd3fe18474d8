-- ===== src/Sessions/Login/Quiet.antt =====
-- What the manager does besides sending sends nothing.
use interactive_whatsapp_meo.Base.{String, ◌≡◌, refl, ◌∙◌}
use interactive_whatsapp_meo.Whatsapp.Jid.{JidLib}
use interactive_whatsapp_meo.Sessions.World.{Client, World, Method}
use interactive_whatsapp_meo.Sessions.Runtimes.{delete_session, get_qr_code}
use interactive_whatsapp_meo.Sessions.Targets.{verify_number}
use interactive_whatsapp_meo.Sessions.Login.{
  CreateSessionInput, attach_runtime, generate_pair_code, create_session,
}
use interactive_whatsapp_meo.Sessions.Restart.{open_qr_code, reconnect_session}
use interactive_whatsapp_meo.Sessions.Kept.{Kept, IsKept}
use interactive_whatsapp_meo.Sessions.Login.Kept.{
  delete_session-Kept, get_qr_code-Kept, verify_number-Kept, generate_pair_code-Kept,
  create_session-Kept, open_qr_code-Kept, reconnect_session-Kept,
}
use interactive_whatsapp_meo.Sessions.Sending.Quiet.{IsQuiet}

module _ {lib : JidLib} where
  abbrev SameSends : World lib → World lib → Type 0
  SameSends w w' = w'.sends ≡ w.sends

  SameSends-IsKept : IsKept SameSends
  unfolding attach_runtime
  SameSends-IsKept = record {
    trans = λ first next. next ∙ first;
    frame = λ w db calls launched. refl;
    attach = λ session ready w. refl;
    disconnect = λ session_id runtime w there. refl;
  }

  of-Kept : {A : Type 0} {m : Method lib A} → Kept SameSends m → IsQuiet m
  of-Kept h = record { quiet = h.kept }

  pub delete_session-IsQuiet :
      (session_id : String) → IsQuiet {lib = lib} (delete_session session_id)
  delete_session-IsQuiet session_id =
      of-Kept (delete_session-Kept SameSends SameSends-IsKept session_id)

  pub get_qr_code-IsQuiet : (session_id : String) → IsQuiet {lib = lib} (get_qr_code session_id)
  get_qr_code-IsQuiet session_id = of-Kept (get_qr_code-Kept SameSends SameSends-IsKept session_id)

  module _ (client : Client lib) where
    pub verify_number-IsQuiet :
        (session_id phone : String) → IsQuiet (verify_number lib client session_id phone)
    verify_number-IsQuiet session_id phone =
        of-Kept (verify_number-Kept SameSends SameSends-IsKept client session_id phone)

    pub generate_pair_code-IsQuiet :
        (session_id given : String) → IsQuiet (generate_pair_code client session_id given)
    generate_pair_code-IsQuiet session_id given =
        of-Kept (generate_pair_code-Kept SameSends SameSends-IsKept client session_id given)

    pub create_session-IsQuiet :
        (input : CreateSessionInput) → IsQuiet (create_session client input)
    create_session-IsQuiet input =
        of-Kept (create_session-Kept SameSends SameSends-IsKept client input)

    pub open_qr_code-IsQuiet : (session_id : String) → IsQuiet (open_qr_code client session_id)
    open_qr_code-IsQuiet session_id =
        of-Kept (open_qr_code-Kept SameSends SameSends-IsKept client session_id)

    pub reconnect_session-IsQuiet :
        (session_id : String) → IsQuiet (reconnect_session client session_id)
    reconnect_session-IsQuiet session_id =
        of-Kept (reconnect_session-Kept SameSends SameSends-IsKept client session_id)
