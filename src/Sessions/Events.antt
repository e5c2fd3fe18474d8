-- ===== src/Sessions/Events.antt =====
-- `handleEvent`, `persistIncomingEvent` and `setSessionError` of internal/session/manager.go.
-- The handler that `newRuntime` registers always has a runtime.
pub mod Touches
pub mod Confined
pub mod Isolation
use interactive_whatsapp_meo.Base.{
  ℕ, ◌+◌, String, Bool, true, false, not, Option, none, some, List, [], ◌∷◌, ◌++◌, Error, Result,
  ok, err, error_text, if◌then◌else◌,
}
use interactive_whatsapp_meo.Base.Text.{◌++ₛ◌}
use interactive_whatsapp_meo.Store.Models
use interactive_whatsapp_meo.Store.Models.{
  SessionStatus, connected, disconnected, logged_out, error, MessageDirection, inbound, outbound,
  MessageStatus, received, sent, is_outbound,
}
use interactive_whatsapp_meo.Store.Sessions.{UpdateSessionStateParams, update_state}
use interactive_whatsapp_meo.Store.Messages.{SaveMessageParams, save, update_status}
use interactive_whatsapp_meo.Whatsapp.Jid.{JidLib}
use interactive_whatsapp_meo.Whatsapp.Message.{
  Message, ReceiptType, resolve_receipt_status, media_metadata, detect_message_type, extract_text,
  marshal_message,
}
use interactive_whatsapp_meo.Sessions.World.{
  Runtime, session_data, message_data, status_data, Client, World, Method, pure, try_db, ask,
  emit_event, ◌>>=◌, ◌>>◌,
}
use interactive_whatsapp_meo.Sessions.Runtimes.{is_current_runtime, drop_runtime}

-- `events.Message`, unwrapped.
pub record IncomingMessage (lib : JidLib) : Type 0 where
  pub id : String
  pub chat : lib.Jid
  pub sender : lib.Jid
  pub is_from_me : Bool
  pub timestamp : ℕ
  pub message : Option Message

-- The events that the handler knows, and any other.
pub data Event (lib : JidLib) : Type 0 where
  on_connected : Event lib
  on_disconnected : Event lib
  on_logged_out : (reason : String) → Event lib
  on_message : IncomingMessage lib → Event lib
  on_receipt : ReceiptType → (message_ids : List String) → (timestamp : ℕ) → Event lib
  on_other : Event lib

-- The parameters of an `UpdateState` that gives a status and clears the QR code.
abbrev pub bare_state : String → SessionStatus → String → UpdateSessionStateParams
bare_state session_id status last_error = record {
  session_id = session_id;
  status = status;
  phone = "";
  device_jid = "";
  qr_code = none;
  qr_expires_at = none;
  last_error = last_error;
}

module _ {lib : JidLib} where
  unfoldable pub set_session_error : String → Option Error → Method lib (Unit {0})
  set_session_error session_id none = pure tt
  set_session_error session_id (some e) =
      try_db (update_state (bare_state session_id error (error_text e))) >> pure tt

  -- `SendPresence` of a runtime's client; its error is dropped.
  unfoldable pub send_presence : Runtime → Method lib (Unit {0})
  send_presence runtime w =
      pure tt (record w { calls = w.calls + 1; presences = runtime.number ∷ w.presences })

module _ (lib : JidLib) (client : Client lib) where
  open lib use {Jid, user, text}

  -- What `persistIncomingEvent` saves.
  abbrev pub incoming : String → IncomingMessage lib → SaveMessageParams
  incoming session_id event = record {
    session_id = session_id;
    external_message_id = event.id;
    chat_jid = text event.chat;
    sender_jid = text event.sender;
    direction = if event.is_from_me then outbound else inbound;
    message_type = detect_message_type event.message;
    text = extract_text event.message;
    media_mime_type = (media_metadata event.message).0;
    media_file_name = (media_metadata event.message).1;
    status = if event.is_from_me then sent else received;
    payload = marshal_message client.marshal event.message;
    message_timestamp = event.timestamp;
  }

  unfoldable pub persist_incoming_event : String → IncomingMessage lib → Method lib (Unit {0})
  persist_incoming_event session_id event = do
    saved ← try_db (save (incoming session_id event))
    elim saved [
      | err _ ↦ pure tt
      | ok row ↦
          emit_event client session_id
            (if is_outbound row.direction then "message.sent" else "message.received")
            (message_data row)
    ]

  -- The device's JID and its phone number.
  abbrev pub online_state : String → Option Jid → UpdateSessionStateParams
  online_state session_id none = bare_state session_id connected ""
  online_state session_id (some jid) = record (bare_state session_id connected "") {
    device_jid = text jid;
    phone = "+" ++ₛ user jid;
  }

  -- The cases of `handleEvent`.
  unfoldable pub handle_current : String → Runtime → Event lib → Method lib (Unit {0})
  unfolding persist_incoming_event send_presence
  handle_current session_id runtime on_connected = do
    send_presence runtime
    id ← ask (client.store_id runtime.number)
    updated ← try_db (update_state (online_state session_id id))
    elim updated [
      | err _ ↦ pure tt
      | ok session ↦ emit_event client session_id "session.connected" (session_data session)
    ]
  handle_current session_id runtime on_disconnected = do
    updated ← try_db (update_state (bare_state session_id disconnected ""))
    elim updated [
      | err _ ↦ pure tt
      | ok session ↦ emit_event client session_id "session.disconnected" (session_data session)
    ]
  handle_current session_id runtime (on_logged_out reason) = do
    try_db (update_state (bare_state session_id logged_out reason))
    λ w. pure tt (record w { runtimes = drop_runtime session_id w.runtimes })
  handle_current session_id runtime (on_message event) = persist_incoming_event session_id event
  handle_current session_id runtime (on_receipt kind message_ids timestamp) = do
    let status = resolve_receipt_status kind
    updated ← try_db (update_status session_id message_ids status)
    elim updated [
      | err _ ↦ pure tt
      | ok _ ↦
          emit_event client session_id "message.status_updated"
            (status_data session_id message_ids status timestamp)
    ]
  handle_current session_id runtime on_other = pure tt

  unfoldable pub handle_event : String → Runtime → Event lib → Method lib (Unit {0})
  unfolding handle_current
  handle_event session_id runtime event w =
      if is_current_runtime session_id runtime w
      then handle_current session_id runtime event w
      else pure tt w
