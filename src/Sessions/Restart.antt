-- ===== src/Sessions/Restart.antt =====
-- `OpenQRCode`, `ReconnectSession` and `Rehydrate` of internal/session/manager.go. The manager
-- always has a container.
use interactive_whatsapp_meo.Base.{
  String, ◌||◌, some, List, [], ◌∷◌, ok, err, wrap, map_error, sentinel, not_found,
  session_connected, is_some, if◌then◌else◌,
}
use interactive_whatsapp_meo.Base.Text.{is_empty}
use interactive_whatsapp_meo.Store.Models.{initializing, deleted, status_eq, Session}
use interactive_whatsapp_meo.Store.Db.{time_now}
use interactive_whatsapp_meo.Store.Sessions
use interactive_whatsapp_meo.Store.Sessions.{get, update_state, reset_for_qr_code}
use interactive_whatsapp_meo.Whatsapp.Jid.{JidLib}
use interactive_whatsapp_meo.Sessions.World.{
  connect_existing, pending_login, Client, Method, pure, throw, on_db, try_db, lift, ◌>>=◌, ◌>>◌,
}
use interactive_whatsapp_meo.Sessions.Runtimes.{disconnect_runtime, get_qr_code}
use interactive_whatsapp_meo.Sessions.Events.{bare_state}
use interactive_whatsapp_meo.Sessions.Login.{
  to_option, or_else, qr_of, has_fresh_qr, try, launch, attach_new_runtime, attach_existing_runtime,
  attach_and_launch, is_session_connected, delete_stored_device, OpenQrSessionResult,
}

module _ {lib : JidLib} (client : Client lib) where
  -- `OpenQRCode`, where no QR code can be reused: the session starts over.
  unfoldable pub start_over : String → Session → Method lib OpenQrSessionResult
  unfolding disconnect_runtime delete_stored_device attach_new_runtime get_qr_code
  start_over session_id session = do
    disconnect_runtime session_id
    delete_stored_device client session.device_jid
    answer ← try_db (reset_for_qr_code session_id)
    reset ← lift (map_error (wrap "reset session for qr") answer)
    runtime ← attach_new_runtime reset
    launch (pending_login runtime.number reset.session_id)
    code ← try (get_qr_code session_id)
    pure (record { session = reset; qr_code = to_option code })

  unfoldable pub open_qr_code : String → Method lib OpenQrSessionResult
  unfolding is_session_connected start_over
  open_qr_code session_id = do
    session ← on_db (get session_id)
    if is_some session.deleted_at || status_eq session.status deleted
        then throw (sentinel not_found)
        else (is_session_connected client session >>= λ online.
            if online
            then throw (sentinel session_connected)
            else (on_db time_now >>= λ now.
                if has_fresh_qr now session
                then pure (record { session = session; qr_code = some (qr_of session) })
                else start_over session_id session))

  unfoldable pub reconnect_session : String → Method lib Session
  unfolding disconnect_runtime attach_and_launch
  reconnect_session session_id = do
    session ← on_db (get session_id)
    disconnect_runtime session_id
    runtime ← attach_and_launch client session
    updated ← try_db (
        update_state
          (record (bare_state session.session_id initializing "") { phone = session.phone }))
    pure (or_else session updated)

  -- The loop of `Rehydrate`: a session that cannot be attached is only logged.
  unfoldable pub rehydrate_all : List Session → Method lib (Unit {0})
  unfolding attach_existing_runtime
  rehydrate_all [] = pure tt
  rehydrate_all (session ∷ sessions) =
      let rest = rehydrate_all sessions in
      if is_empty session.device_jid
        || status_eq session.status deleted
        || is_some session.deleted_at
      then rest
      else (try (attach_existing_runtime client session) >>= λ attached. elim attached [
        | err _ ↦ rest
        | ok runtime ↦ launch (connect_existing runtime.number session.session_id) >> rest
      ])

  unfoldable pub rehydrate : Method lib (Unit {0})
  unfolding rehydrate_all
  rehydrate = do
    answer ← try_db Sessions.list
    sessions ← lift (map_error (wrap "list sessions for rehydrate") answer)
    rehydrate_all sessions
