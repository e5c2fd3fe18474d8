-- ===== src/Sessions/Channel.antt =====
-- `consumeQRChannel`, `startPendingLogin` and `connectExisting` of internal/session/manager.go: what
-- the goroutines of a login do. The items are those that the client's QR channel yields.
pub mod Frame
use interactive_whatsapp_meo.Base.{
  ℕ, ◌+◌, ◌*◌, String, Bool, true, false, Option, none, some, List, [], ◌∷◌, Error, Result, ok, err,
  wrap, map_if, ◌==◌, if◌then◌else◌, plain,
}
use interactive_whatsapp_meo.Store.Models.{
  LoginMethod, qr, pair_code, qr_ready, pairing, method_eq, Session,
}
use interactive_whatsapp_meo.Store.Db.{time_now}
use interactive_whatsapp_meo.Store.Sessions.{UpdateSessionStateParams, update_state}
use interactive_whatsapp_meo.Webhooks.Service.{second}
use interactive_whatsapp_meo.Whatsapp.Jid.{JidLib}
use interactive_whatsapp_meo.Sessions.World.{
  Runtime, qr_data, Client, World, Method, pure, on_db, try_db, ask, emit_event, ◌>>=◌, ◌>>◌,
}
use interactive_whatsapp_meo.Sessions.Events.{bare_state, set_session_error}

-- `whatsmeow.QRChannelItem`, by its event.
pub data QrChannelItem : Type 0 where
  item_code : String → QrChannelItem
  item_timeout : QrChannelItem
  item_error : Option Error → QrChannelItem
  item_other : QrChannelItem

-- The state that a code gives to its session, at a time.
abbrev pub code_state : String → LoginMethod → String → ℕ → UpdateSessionStateParams
code_state session_id login_method code now =
    record (bare_state session_id (if method_eq login_method pair_code then pairing else qr_ready)
      "") {
        qr_code = if method_eq login_method qr then some code else none;
        qr_expires_at = some (now + 20 * second);
      }

module _ {lib : JidLib} (client : Client lib) where
  -- `close(readyCh)`, once
  abbrev pub make_ready : Runtime → Method lib (Unit {0})
  make_ready runtime w = pure tt (record w {
    runtimes = map_if (λ r. r.number == runtime.number) (λ r. record r { ready = true }) w.runtimes;
  })

  -- What follows the update: only a login by QR code tells the webhooks.
  abbrev pub announce_code : String → Runtime → Session → Method lib (Unit {0})
  announce_code session_id runtime session =
      if method_eq runtime.login_method qr
      then emit_event client session_id "session.qr_updated" (
          qr_data (record {
            session_id = session_id;
            qr_code = session.qr_code;
            expires_at = session.qr_expires_at;
          }))
      else pure tt

  -- One round of the loop.
  unfoldable pub consume_item : String → Runtime → QrChannelItem → Method lib (Unit {0})
  consume_item session_id runtime (item_code code) =
      make_ready runtime
      >> (on_db time_now >>= λ now.
          try_db (update_state (code_state session_id runtime.login_method code now)) >>= λ updated.
          elim updated [ err _ ↦ pure tt | ok session ↦ announce_code session_id runtime session ])
  consume_item session_id runtime item_timeout =
      set_session_error session_id (some (plain "pairing QR timed out"))
  consume_item session_id runtime (item_error e) = set_session_error session_id e
  consume_item session_id runtime item_other = pure tt

  unfoldable pub consume_qr_channel : String → Runtime → List QrChannelItem → Method lib (Unit {0})
  unfolding consume_item
  consume_qr_channel session_id runtime [] = pure tt
  consume_qr_channel session_id runtime (item ∷ items) =
      consume_item session_id runtime item >> consume_qr_channel session_id runtime items

  -- The two goroutines, by what the client answers: `GetQRChannel` and `Connect`. The channel of a
  -- login is consumed apart.
  unfoldable pub start_pending_login : String → Option Error → Option Error → Method lib (Unit {0})
  start_pending_login session_id (some e) connecting =
      set_session_error session_id (some (wrap "get qr channel" e))
  start_pending_login session_id none (some e) =
      set_session_error session_id (some (wrap "connect new session" e))
  start_pending_login session_id none none = pure tt

  unfoldable pub run_connect_existing : String → Option Error → Method lib (Unit {0})
  run_connect_existing session_id (some e) =
      set_session_error session_id (some (wrap "connect existing session" e))
  run_connect_existing session_id none = pure tt
