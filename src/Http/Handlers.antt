-- ===== src/Http/Handlers.antt =====
-- The handlers of internal/httpapi/router.go and internal/httpapi/read_handlers.go, and what they
-- call of the webhook service. The read service is always there.
use interactive_whatsapp_meo.Base.{String, Option, none, some, List, [], ◌∷◌, str_eq, if◌then◌else◌}
use interactive_whatsapp_meo.Base.Text.{is_empty, trim_space}
use interactive_whatsapp_meo.Base.Int.{ℤ}
use interactive_whatsapp_meo.Store.Models.{LoginMethod, qr, pair_code, other, Session, Webhook}
use interactive_whatsapp_meo.Store.Db.{Action}
use interactive_whatsapp_meo.Store.Sessions
use interactive_whatsapp_meo.Store.Webhooks
use interactive_whatsapp_meo.Store.Webhooks.{CreateWebhookParams}
use interactive_whatsapp_meo.Whatsapp.Jid.{JidLib}
use interactive_whatsapp_meo.Sessions.World.{Method, on_db}
use interactive_whatsapp_meo.Sessions.Runtimes
use interactive_whatsapp_meo.Sessions.Targets
use interactive_whatsapp_meo.Sessions.Login
use interactive_whatsapp_meo.Sessions.Restart
use interactive_whatsapp_meo.Messages
use interactive_whatsapp_meo.Reads.Summary.{get_dashboard_summary, get_analytics_summary}
use interactive_whatsapp_meo.Reads.Canonical.{list_chats}
use interactive_whatsapp_meo.Http.Types.{
  FileHeader, FormFile, Request, no_content, created_body, sessions_body, session_body, qr_body,
  opened_body, pair_code_body, sent_body, messages_body, verified_body, webhook_body, webhooks_body,
  dashboard_body, chats_body, analytics_body, Server, Handler,
}
use interactive_whatsapp_meo.Http.Responses.{write_error, respond, reading}

-- `store.LoginMethod(req.LoginMethod)`
abbrev pub login_method_of : String → LoginMethod
login_method_of text =
    if str_eq text "qr" then qr else if str_eq text "pair_code" then pair_code else other text

unfoldable pub detect_multipart_content_type : Option FileHeader → String
detect_multipart_content_type none = "application/octet-stream"
detect_multipart_content_type (some header) = elim header.content_type [
  | none ↦ "application/octet-stream"
  | some given ↦ if is_empty given then "application/octet-stream" else given
]

-- A value of the query that may be missing: `&value` where it is not blank.
abbrev pub optional : String → Option String
optional given = let value = trim_space given in if is_empty value then none else some value

-- `CreateWebhook`, `ListWebhooks` and `DeleteWebhook` of internal/webhooks/service.go
unfoldable pub create_webhook : CreateWebhookParams → Action Webhook
create_webhook input =
    Webhooks.create
      (record { session_id = input.session_id; url = input.url; events = input.events })

unfoldable pub list_webhooks : Option String → Action (List Webhook)
list_webhooks session_id = Webhooks.list session_id

unfoldable pub delete_webhook : ℤ → Action (Unit {0})
delete_webhook id = Webhooks.delete id

-- `ListSessions` and `GetSession` of internal/session/manager.go
module _ {lib : JidLib} where
  unfoldable pub list_sessions : Method lib (List Session)
  list_sessions = on_db Sessions.list

  unfoldable pub get_session : String → Method lib Session
  get_session session_id = on_db (Sessions.get session_id)

module _ {lib : JidLib} (server : Server lib) (r : Request) where
  unfoldable pub create_session_handler : Handler lib
  create_session_handler =
      reading (r.decode ("sessionId" ∷ "name" ∷ "loginMethod" ∷ "phone" ∷ [])) (λ req.
        respond 201 created_body (
          Login.create_session server.client (record {
            session_id = req "sessionId";
            name = req "name";
            login_method = login_method_of (req "loginMethod");
            phone = req "phone";
          })))

  unfoldable pub list_sessions_handler : Handler lib
  unfolding list_sessions
  list_sessions_handler = respond 200 sessions_body list_sessions

  unfoldable pub get_session_handler : Handler lib
  unfolding get_session
  get_session_handler = respond 200 session_body (get_session (r.url_param "sessionId"))

  unfoldable pub get_qr_code_handler : Handler lib
  get_qr_code_handler = respond 200 qr_body (Runtimes.get_qr_code (r.url_param "sessionId"))

  unfoldable pub open_qr_code_handler : Handler lib
  open_qr_code_handler =
      respond 200 opened_body (Restart.open_qr_code server.client (r.url_param "sessionId"))

  unfoldable pub generate_pair_code_handler : Handler lib
  generate_pair_code_handler = reading (r.decode ("phone" ∷ [])) (λ req.
      respond 200 pair_code_body
        (Login.generate_pair_code server.client (r.url_param "sessionId") (req "phone")))

  unfoldable pub reconnect_session_handler : Handler lib
  reconnect_session_handler =
      respond 200 session_body (Restart.reconnect_session server.client (r.url_param "sessionId"))

  unfoldable pub delete_session_handler : Handler lib
  delete_session_handler =
      respond 204 (λ _. no_content) (Runtimes.delete_session (r.url_param "sessionId"))

  unfoldable pub send_text_handler : Handler lib
  send_text_handler = reading (r.decode ("sessionId" ∷ "to" ∷ "text" ∷ [])) (λ req.
      respond 200 sent_body
        (Messages.send_text lib server.client (req "sessionId") (req "to") (req "text")))

  -- The file of the form, read.
  abbrev send_file : FormFile → Handler lib
  send_file file = reading file.contents (λ contents. respond 200 sent_body (
      Messages.send_media lib server.client (r.form_value "sessionId") (r.form_value "to")
        (r.form_value "caption") file.header.file_name
        (detect_multipart_content_type (some file.header)) contents))

  unfoldable pub send_media_handler : Handler lib
  unfolding detect_multipart_content_type
  send_media_handler w = elim r.parse_form [
    | some e ↦ (write_error 400 e, w)
    | none ↦ reading r.form_file send_file w
  ]

  unfoldable pub reply_message_handler : Handler lib
  reply_message_handler =
      reading (r.decode ("sessionId" ∷ "chatJid" ∷ "messageId" ∷ "text" ∷ [])) (λ req.
        respond 200 sent_body (
          Messages.reply lib server.client (req "sessionId") (req "chatJid") (req "messageId")
            (req "text")))

  unfoldable pub edit_message_handler : Handler lib
  edit_message_handler = reading (r.decode ("sessionId" ∷ "chatJid" ∷ "text" ∷ [])) (λ req.
      respond 200 sent_body (
        Messages.edit lib server.client (req "sessionId") (req "chatJid") (r.url_param "messageId")
          (req "text")))

  -- A limit or a cursor that is no number counts as the number that comes beside the error.
  unfoldable pub list_messages_handler : Handler lib
  list_messages_handler = respond 200 messages_body (
      on_db (
        Messages.list server.lid_map (record {
          session_id = trim_space (r.query "sessionId");
          chat_jid = trim_space (r.query "chatJid");
          limit = (server.parse_int (trim_space (r.query "limit"))).0;
          cursor = (server.parse_int (trim_space (r.query "cursor"))).0;
        })))

  unfoldable pub verify_number_handler : Handler lib
  verify_number_handler = reading (r.decode ("sessionId" ∷ "phone" ∷ [])) (λ req.
      respond 200 verified_body
        (Targets.verify_number lib server.client (req "sessionId") (req "phone")))

  unfoldable pub create_webhook_handler : Handler lib
  unfolding create_webhook
  create_webhook_handler =
      reading r.decode_webhook (λ req. respond 201 webhook_body (on_db (create_webhook req)))

  unfoldable pub list_webhooks_handler : Handler lib
  unfolding list_webhooks
  list_webhooks_handler =
      respond 200 webhooks_body (on_db (list_webhooks (optional (r.query "sessionId"))))

  unfoldable pub delete_webhook_handler : Handler lib
  unfolding delete_webhook
  delete_webhook_handler w =
      let (id, failure) = server.parse_int (r.url_param "id") in
      elim failure [
        | some e ↦ (write_error 400 e, w)
        | none ↦ respond 204 (λ _. no_content) (on_db (delete_webhook id)) w
      ]

  unfoldable pub dashboard_summary_handler : Handler lib
  dashboard_summary_handler =
      respond 200 dashboard_body (on_db (get_dashboard_summary server.lid_map server.text_before))

  unfoldable pub list_chats_handler : Handler lib
  list_chats_handler =
      respond 200 chats_body
        (on_db (list_chats server.lid_map server.text_before (trim_space (r.query "sessionId"))))

  unfoldable pub analytics_summary_handler : Handler lib
  analytics_summary_handler = respond 200 analytics_body (
      on_db (
        get_analytics_summary server.lid_map server.text_before (record {
          session_id = optional (r.query "sessionId");
          range = trim_space (r.query "range");
        })))
