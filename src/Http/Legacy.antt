-- ===== src/Http/Legacy.antt =====
-- internal/httpapi/legacy_handlers.go: the routes under /api.
use interactive_whatsapp_meo.Base.{String, List, [], ◌∷◌, Error, plain, if◌then◌else◌}
use interactive_whatsapp_meo.Base.Text.{◌++ₛ◌, is_empty, trim_space}
use interactive_whatsapp_meo.Whatsapp.Jid.{JidLib}
use interactive_whatsapp_meo.Sessions.Runtimes
use interactive_whatsapp_meo.Sessions.Restart
use interactive_whatsapp_meo.Messages
use interactive_whatsapp_meo.Http.Types.{
  Request, status_ok, sent_body, legacy_qr_body, legacy_session_body, Server, Handler,
}
use interactive_whatsapp_meo.Http.Responses.{write_json, write_error, respond, reading}

unfoldable pub first_non_empty : List String → String
first_non_empty [] = ""
first_non_empty (value ∷ values) =
    let trimmed = trim_space value in if is_empty trimmed then first_non_empty values else trimmed

-- `errRequired`, whose text is that of `fieldRequiredError`
abbrev pub err_required : String → Error
err_required field = plain (field ++ₛ " is required")

module _ {lib : JidLib} (server : Server lib) (r : Request) where
  unfoldable pub legacy_test_handler : Handler lib
  legacy_test_handler w = (write_json 200 status_ok, w)

  unfoldable pub legacy_send_text_handler : Handler lib
  unfolding first_non_empty
  legacy_send_text_handler =
      reading (r.decode ("sessionId" ∷ "to" ∷ "phone" ∷ "message" ∷ "text" ∷ [])) (λ req.
        respond 200 sent_body (
          Messages.send_text lib server.client (trim_space (req "sessionId"))
            (first_non_empty (req "to" ∷ req "phone" ∷ []))
            (first_non_empty (req "message" ∷ req "text" ∷ []))))

  unfoldable pub legacy_qr_code_handler : Handler lib
  legacy_qr_code_handler w =
      let session_id = trim_space (r.query "id") in
      if is_empty session_id
      then (write_error 400 (err_required "id"), w)
      else respond 200 (λ qr. legacy_qr_body qr.session_id qr.qr_code qr.qr_code qr.expires_at)
          (Runtimes.get_qr_code session_id) w

  unfoldable pub legacy_reconnect_handler : Handler lib
  legacy_reconnect_handler w =
      let session_id = trim_space (r.query "id") in
      if is_empty session_id
      then (write_error 400 (err_required "id"), w)
      else respond 200 (legacy_session_body "ok")
          (Restart.reconnect_session server.client session_id) w
