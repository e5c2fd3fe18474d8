-- ===== src/Http/Routes.antt =====
-- `NewRouter` of internal/httpapi/router.go, and internal/auth/middleware.go. An endpoint is a route
-- that `chi` has matched; the pages and files of static.go are left out.
use interactive_whatsapp_meo.Base.{
  Bool, true, false, Option, none, some, Result, ok, err, if◌then◌else◌,
}
use interactive_whatsapp_meo.Base.Text.{is_empty, trim_space}
use interactive_whatsapp_meo.Store.ApiKeys.{validate}
use interactive_whatsapp_meo.Whatsapp.Jid.{JidLib}
use interactive_whatsapp_meo.Http.Types.{Request, text_error, status_ok, Response, Server, Handler}
use interactive_whatsapp_meo.Http.Responses.{write_json}
use interactive_whatsapp_meo.Http.Handlers.{
  create_session_handler, list_sessions_handler, get_session_handler, get_qr_code_handler,
  open_qr_code_handler, generate_pair_code_handler, reconnect_session_handler,
  delete_session_handler, send_text_handler, send_media_handler, reply_message_handler,
  edit_message_handler, list_messages_handler, verify_number_handler, create_webhook_handler,
  list_webhooks_handler, delete_webhook_handler, dashboard_summary_handler, list_chats_handler,
  analytics_summary_handler,
}
use interactive_whatsapp_meo.Http.Legacy.{
  legacy_test_handler, legacy_send_text_handler, legacy_qr_code_handler, legacy_reconnect_handler,
}

pub data Endpoint : Type 0 where
  get_health : Endpoint
  -- /api
  get_test post_message_text get_qr get_reconnect : Endpoint
  -- /v1/sessions
  post_sessions get_sessions get_one_session get_session_qr post_session_qr : Endpoint
  post_pair_code post_reconnect delete_one_session : Endpoint
  -- /v1/messages
  post_text post_media post_reply put_message get_messages : Endpoint
  -- the read models, and the numbers
  get_dashboard get_chats get_analytics post_verify : Endpoint
  -- /v1/webhooks
  post_webhooks get_webhooks delete_one_webhook : Endpoint

-- The group that uses the middleware has every route but one.
abbrev pub is_protected : Endpoint → Bool
is_protected get_health = false
is_protected _ = true

-- How the middleware ends: an answer of its own, or the key is valid.
abbrev pub verdict : Result Bool → Option Response
verdict (err _) = some (write_json 500 (text_error "failed to validate api key"))
verdict (ok false) = some (write_json 401 (text_error "invalid api key"))
verdict (ok true) = none

module _ {lib : JidLib} (server : Server lib) where
  unfoldable pub authenticate : Request → (Handler lib) → Handler lib
  authenticate r next w =
      let key = trim_space r.api_key in
      if is_empty key
      then (write_json 401 (text_error "missing X-API-Key header"), w)
      else (let (valid, db') = validate server.hash key w.db in
          let w' = record w { db = db' } in
          elim (verdict valid) [ some refusal ↦ (refusal, w') | none ↦ next w' ])

  unfoldable pub handle : Endpoint → Request → Handler lib
  handle get_health r = λ w. (write_json 200 status_ok, w)
  handle get_test r = legacy_test_handler server r
  handle post_message_text r = legacy_send_text_handler server r
  handle get_qr r = legacy_qr_code_handler server r
  handle get_reconnect r = legacy_reconnect_handler server r
  handle post_sessions r = create_session_handler server r
  handle get_sessions r = list_sessions_handler server r
  handle get_one_session r = get_session_handler server r
  handle get_session_qr r = get_qr_code_handler server r
  handle post_session_qr r = open_qr_code_handler server r
  handle post_pair_code r = generate_pair_code_handler server r
  handle post_reconnect r = reconnect_session_handler server r
  handle delete_one_session r = delete_session_handler server r
  handle post_text r = send_text_handler server r
  handle post_media r = send_media_handler server r
  handle post_reply r = reply_message_handler server r
  handle put_message r = edit_message_handler server r
  handle get_messages r = list_messages_handler server r
  handle get_dashboard r = dashboard_summary_handler server r
  handle get_chats r = list_chats_handler server r
  handle get_analytics r = analytics_summary_handler server r
  handle post_verify r = verify_number_handler server r
  handle post_webhooks r = create_webhook_handler server r
  handle get_webhooks r = list_webhooks_handler server r
  handle delete_one_webhook r = delete_webhook_handler server r

  unfoldable pub serve : Endpoint → Request → Handler lib
  unfolding authenticate handle
  serve endpoint r =
      if is_protected endpoint then authenticate r (handle endpoint r) else handle endpoint r
