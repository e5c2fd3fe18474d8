-- ===== src/Http/Refusals.antt =====
-- The statuses that the manager's errors end as, through `internal/messages` and the handlers of
-- internal/httpapi/router.go.
use interactive_whatsapp_meo.Base.{
  ℕ, String, ◌≡◌, ◌⊎◌, refl, true, false, none, some, [], ◌∷◌, arith, Error, ok, err, sentinel,
  is_error, not_found, session_not_connected, inl, inr,
}
use interactive_whatsapp_meo.Base.Text.{is_empty, trim_space}
use interactive_whatsapp_meo.Store.Models.{Session}
use interactive_whatsapp_meo.Store.Sessions.{get}
use interactive_whatsapp_meo.Whatsapp.Jid.{JidLib}
use interactive_whatsapp_meo.Sessions.World.{Runtime, Client, World, Method, ◌>>=◌}
use interactive_whatsapp_meo.Sessions.Runtimes.{runtime_of, require_connected}
use interactive_whatsapp_meo.Sessions.Login.{create_session}
use interactive_whatsapp_meo.Sessions.Sending
use interactive_whatsapp_meo.Sessions.Sending.{SendResult}
use interactive_whatsapp_meo.Sessions.Sending.Quiet.{bind_err}
use interactive_whatsapp_meo.Messages
use interactive_whatsapp_meo.Messages.{wrapped}
use interactive_whatsapp_meo.Http.Types.{sent_body, Request, Server}
use interactive_whatsapp_meo.Http.Responses.{domain_status, write_domain_error, respond, reading}
use interactive_whatsapp_meo.Http.Handlers.{create_session_handler, send_text_handler}

-- Why a session cannot send, with the status of the answer: it is unknown, it has no runtime, or
-- its runtime is not connected.
pub data Refusal {lib : JidLib} (client : Client lib) (session_id : String) (w : World lib)
    : ℕ → Type 0 where
  unknown :
      (e : Error)
      → (get session_id w.db).0 ≡ err e
      → is_error e not_found ≡ true
      → Refusal client session_id w 404
  absent :
      (session : Session)
      → (get session_id w.db).0 ≡ ok session
      → runtime_of session_id w.runtimes ≡ none
      → Refusal client session_id w 409
  offline :
      (session : Session) (runtime : Runtime)
      → (get session_id w.db).0 ≡ ok session
      → runtime_of session_id w.runtimes ≡ some runtime
      → client.is_connected runtime.number w.calls ≡ false
      → Refusal client session_id w 409

module _ {lib : JidLib} (client : Client lib) (session_id : String) (w : World lib) where
  require_connected-Refusal :
      (status : ℕ)
      → Refusal client session_id w status
      → (e : Error) × ((require_connected client session_id w).0 ≡ err e)
        × ((require_connected client session_id w).1.sends ≡ w.sends)
        × (domain_status e ≡ status)
  unfolding require_connected ◌>>=◌ domain_status
  require_connected-Refusal _ (unknown e failed lost) =
      (e, ground arith, ground arith, ground arith)
  require_connected-Refusal _ (absent session found gone) =
      (sentinel session_not_connected, ground arith, ground arith, refl)
  require_connected-Refusal _ (offline session runtime found there quiet) =
      (sentinel session_not_connected, ground arith, ground arith, refl)

  -- An operation that starts with the guard, behind the message service and a handler.
  guarded-Refusal :
      (text : String) (f : Runtime × Session → Method lib SendResult) (status : ℕ)
      → Refusal client session_id w status
      → ((respond 200 sent_body
            (wrapped text (require_connected client session_id >>= f))
            w).0.status
          ≡ status)
        × ((respond 200 sent_body
              (wrapped text (require_connected client session_id >>= f))
              w).1.sends
            ≡ w.sends)
  unfolding write_domain_error domain_status
  guarded-Refusal text f status why =
      let (e, failed, same, ends) = require_connected-Refusal status why in
      rw (bind_err (require_connected client session_id) f w e failed) (ends, same)

module _ {lib : JidLib} (server : Server lib) (r : Request) (w : World lib) where
  -- POST /v1/messages/text answers 404 if the session is unknown, and 409 if it has no runtime or
  -- its runtime is not connected; nothing is sent then.
  pub send_text_handler-Refusal :
      (req : String → String) (status : ℕ)
      → r.decode ("sessionId" ∷ "to" ∷ "text" ∷ []) ≡ ok req
      → Refusal server.client (req "sessionId") w status
      → ((send_text_handler server r w).0.status ≡ status)
        × ((send_text_handler server r w).1.sends ≡ w.sends)
  unfolding send_text_handler Messages.send_text Sending.send_text
  send_text_handler-Refusal req status read why =
      rw read (guarded-Refusal server.client (req "sessionId") w "send text" _ status why)

  -- POST /v1/sessions answers 409 if the session is known, and neither a session nor a runtime is
  -- made: nothing changes but what the one query does.
  pub create_session_handler-known :
      (req : String → String) (session : Session)
      → r.decode ("sessionId" ∷ "name" ∷ "loginMethod" ∷ "phone" ∷ []) ≡ ok req
      → is_empty (trim_space (req "sessionId")) ≡ false
      → (req "loginMethod" ≡ "qr") ⊎ (req "loginMethod" ≡ "pair_code")
      → (get (req "sessionId") w.db).0 ≡ ok session
      → ((create_session_handler server r w).0.status ≡ 409)
        × ((create_session_handler server r w).1 ≡ record w { db = (get (req "sessionId") w.db).1 })
  unfolding create_session_handler create_session write_domain_error domain_status ◌>>=◌
  create_session_handler-known req session read named (inl by_code) found =
      rw (read, reading, named, by_code) (ground (arith, found))
  create_session_handler-known req session read named (inr by_phone) found =
      rw (read, reading, named, by_phone) (ground (arith, found))
