-- ===== src/Http/Once.antt =====
-- How many messages a request sends, over all routes of internal/httpapi/router.go.
use interactive_whatsapp_meo.Base.{
  ℕ, ◌≡◌, ◌≢◌, ◌⊎◌, refl, ap, sym, Bool, true, false, arith, Bool-cases, inl, inr,
}
use mathlib.Core.Path.{subst}
use interactive_whatsapp_meo.Base.Text.{is_empty, trim_space}
use interactive_whatsapp_meo.Store.Sessions
use interactive_whatsapp_meo.Store.ApiKeys.{has_hash}
use interactive_whatsapp_meo.Whatsapp.Jid.{JidLib}
use interactive_whatsapp_meo.Sessions.World.{World}
use interactive_whatsapp_meo.Sessions.Login.Quiet.{
  delete_session-IsQuiet, get_qr_code-IsQuiet, verify_number-IsQuiet, generate_pair_code-IsQuiet,
  create_session-IsQuiet, open_qr_code-IsQuiet, reconnect_session-IsQuiet,
}
use interactive_whatsapp_meo.Http.Types.{
  no_content, created_body, sessions_body, session_body, qr_body, opened_body, pair_code_body,
  messages_body, verified_body, webhook_body, webhooks_body, dashboard_body, chats_body,
  analytics_body, Request, Response, Server,
}
use interactive_whatsapp_meo.Http.Handlers
use interactive_whatsapp_meo.Http.Legacy
use interactive_whatsapp_meo.Http.Routes
use interactive_whatsapp_meo.Http.Routes.{Endpoint, is_protected, handle, serve}
use interactive_whatsapp_meo.Http.Guards.{asked, Served, serve-Served}
use interactive_whatsapp_meo.Http.Sends.{
  Sends, nothing, one, SendingHandler, Sends-false, responding, storing, answering,
  reading-SendingHandler, texting, sending_media, replying, editing, if-SendingHandler,
  failing-SendingHandler,
}

-- The routes that send a message.
abbrev pub is_sending : Endpoint → Bool
is_sending Routes.post_message_text = true
is_sending Routes.post_text = true
is_sending Routes.post_media = true
is_sending Routes.post_reply = true
is_sending Routes.put_message = true
is_sending _ = false

-- Only one route is open to all, and it sends nothing.
open-still : (endpoint : Endpoint) → is_protected endpoint ≡ false → is_sending endpoint ≡ false
open-still Routes.get_health h = refl
open-still _ h = cc

module _ {lib : JidLib} (server : Server lib) (r : Request) where
  open server use {client}

  handling :
      (endpoint : Endpoint) → SendingHandler client (is_sending endpoint) (handle server endpoint r)
  unfolding handle Handlers.create_session_handler Handlers.list_sessions_handler
      Handlers.get_session_handler Handlers.get_qr_code_handler Handlers.open_qr_code_handler
      Handlers.generate_pair_code_handler Handlers.reconnect_session_handler
      Handlers.delete_session_handler Handlers.send_text_handler Handlers.send_media_handler
      Handlers.delete_webhook_handler Handlers.reply_message_handler Handlers.edit_message_handler
      Handlers.list_messages_handler Handlers.verify_number_handler Handlers.create_webhook_handler
      Handlers.list_webhooks_handler Handlers.dashboard_summary_handler Handlers.list_chats_handler
      Handlers.analytics_summary_handler Legacy.legacy_test_handler Legacy.legacy_send_text_handler
      Legacy.legacy_qr_code_handler Legacy.legacy_reconnect_handler Handlers.list_sessions
      Handlers.get_session
  handling Routes.get_health = answering client _
  handling Routes.get_test = answering client _
  handling Routes.post_message_text =
      reading-SendingHandler client (r.decode _) (λ req. texting client _ _ _)
  handling Routes.get_qr =
      if-SendingHandler client (is_empty (trim_space (r.query "id"))) (answering client _)
        (responding client 200 _ (get_qr_code-IsQuiet _))
  handling Routes.get_reconnect =
      if-SendingHandler client (is_empty (trim_space (r.query "id"))) (answering client _)
        (responding client 200 _ (reconnect_session-IsQuiet client _))
  handling Routes.post_sessions =
      reading-SendingHandler client (r.decode _)
        (λ req. responding client 201 created_body (create_session-IsQuiet client _))
  handling Routes.get_sessions = storing client 200 sessions_body Sessions.list
  handling Routes.get_one_session =
      storing client 200 session_body (Sessions.get (r.url_param "sessionId"))
  handling Routes.get_session_qr = responding client 200 qr_body (get_qr_code-IsQuiet _)
  handling Routes.post_session_qr =
      responding client 200 opened_body (open_qr_code-IsQuiet client _)
  handling Routes.post_pair_code =
      reading-SendingHandler client (r.decode _)
        (λ req. responding client 200 pair_code_body (generate_pair_code-IsQuiet client _ _))
  handling Routes.post_reconnect =
      responding client 200 session_body (reconnect_session-IsQuiet client _)
  handling Routes.delete_one_session =
      responding client 204 (λ _. no_content) (delete_session-IsQuiet _)
  handling Routes.post_text =
      reading-SendingHandler client (r.decode _) (λ req. texting client _ _ _)
  handling Routes.post_media = failing-SendingHandler client r.parse_form (
      reading-SendingHandler client r.form_file (λ file.
        reading-SendingHandler client file.contents
          (λ contents. sending_media client _ _ _ _ _ contents)))
  handling Routes.post_reply =
      reading-SendingHandler client (r.decode _) (λ req. replying client _ _ _ _)
  handling Routes.put_message =
      reading-SendingHandler client (r.decode _) (λ req. editing client _ _ _ _)
  handling Routes.get_messages = storing client 200 messages_body _
  handling Routes.get_dashboard = storing client 200 dashboard_body _
  handling Routes.get_chats = storing client 200 chats_body _
  handling Routes.get_analytics = storing client 200 analytics_body _
  handling Routes.post_verify =
      reading-SendingHandler client (r.decode _)
        (λ req. responding client 200 verified_body (verify_number-IsQuiet client _ _))
  handling Routes.post_webhooks =
      reading-SendingHandler client r.decode_webhook (λ req. storing client 201 webhook_body _)
  handling Routes.get_webhooks = storing client 200 webhooks_body _
  handling Routes.delete_one_webhook =
      failing-SendingHandler client (server.parse_int (r.url_param "id")).1
        (storing client 204 (λ _. no_content) _)

  -- A request sends at most one message, through the connected runtime of a session, whatever its
  -- route, body and query are. It sends one if a route that sends answers with 200; it sends none
  -- if the route is one that does not send, or if the hash of the trimmed key is not in the table.
  pub serve-Sends :
      (endpoint : Endpoint) (w : World lib)
      → Sends client (is_sending endpoint) w (serve server endpoint r w)
        × (has_hash (server.hash (trim_space r.api_key)) w.db ≡ false
            → (serve server endpoint r w).1.sends ≡ w.sends)
  unfolding serve
  serve-Sends endpoint w = elim (Bool-cases (is_protected endpoint)) [
    | inr free ↦
        rw (free, serve)
          (
            (handling endpoint).run w,
            λ _.
                Sends-false client (is_sending endpoint) w _ (open-still endpoint free)
                  ((handling endpoint).run w),
          )
    | inl guarded ↦ elim (serve-Served server endpoint r w guarded) [
      | Served.refused status same ↦ (nothing (λ _. not_ok _ status) (still same), λ _. still same)
      | Served.passed full known goes ↦ (
        subst (λ out. Sends client (is_sending endpoint) w out) (sym goes)
            (Sends-asked w ((handling endpoint).run (asked server w))),
        λ unknown. absurd (ground (arith, known, unknown)),
      )
    ]
  ]
    where
      Sends-asked :
          (v : World lib) {sending : Bool} {out : Response × World lib}
          → Sends client sending (asked server v) out
          → Sends client sending v out
      Sends-asked v (nothing h same) = nothing h same
      Sends-asked v (one id runtime s h there connected by sent) =
          one id runtime s h there connected by sent

      not_ok : (n : ℕ) → (n ≡ 401) ⊎ (n ≡ 500) → n ≢ 200
      not_ok n (inl e) same = ground (arith, e, same)
      not_ok n (inr e) same = ground (arith, e, same)

      still : {w' : World lib} → (w' ≡ w) ⊎ (w' ≡ asked server w) → w'.sends ≡ w.sends
      still (inl e) = ap (λ v. v.sends) e
      still (inr e) = ap (λ v. v.sends) e
