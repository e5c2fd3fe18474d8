-- ===== src/Sessions/Runtimes.antt =====
-- The map `runtimes` of internal/session/manager.go, and the methods that guard with it.
use interactive_whatsapp_meo.Base.{
  String, Bool, false, not, Option, none, some, List, [], ◌∷◌, ◌++◌, ok, err, sentinel, not_found,
  session_not_connected, qr_code_unavailable, is_error, str_eq, ◌==◌, if◌then◌else◌, keep,
}
use interactive_whatsapp_meo.Base.Text.{is_empty, trim_space}
use interactive_whatsapp_meo.Store.Models.{Session}
use interactive_whatsapp_meo.Store.Sessions.{get, mark_deleted}
use interactive_whatsapp_meo.Store.Table.{find}
use interactive_whatsapp_meo.Whatsapp.Jid.{JidLib}
use interactive_whatsapp_meo.Sessions.World.{
  Runtime, QrCodeResult, Client, World, Method, pure, throw, on_db, ask, ◌>>=◌,
}

abbrev pub is_of : String → Runtime → Bool
is_of session_id r = str_eq r.session_id session_id

-- `m.runtimes[sessionID]`
abbrev pub runtime_of : String → List Runtime → Option Runtime
runtime_of session_id runtimes = find (is_of session_id) runtimes

-- `delete(m.runtimes, sessionID)`
abbrev pub drop_runtime : String → List Runtime → List Runtime
drop_runtime session_id runtimes = keep (λ r. not (is_of session_id r)) runtimes

module _ {lib : JidLib} where
  unfoldable pub is_current_runtime : String → Runtime → World lib → Bool
  is_current_runtime session_id runtime w = elim (runtime_of session_id w.runtimes) [
    | none ↦ false
    | some current ↦ current.number == runtime.number
  ]

  unfoldable pub disconnect_runtime : String → Method lib (Unit {0})
  disconnect_runtime session_id w = elim (runtime_of session_id w.runtimes) [
    | none ↦ pure tt w
    | some runtime ↦ pure tt (record w {
      disconnected = w.disconnected ++ runtime.number ∷ [];
      runtimes = drop_runtime session_id w.runtimes;
    })
  ]

  unfoldable pub delete_session : String → Method lib (Unit {0})
  unfolding disconnect_runtime
  delete_session session_id w =
      let (stopped, w') = disconnect_runtime session_id w in
      elim stopped [
        | ok _ ↦ on_db (mark_deleted session_id) w'
        | err e ↦ if is_error e not_found then on_db (mark_deleted session_id) w' else throw e w'
      ]

  unfoldable pub get_qr_code : String → Method lib QrCodeResult
  get_qr_code session_id = do
    session ← on_db (get session_id)
    if is_empty (trim_space session.qr_code)
        then throw (sentinel qr_code_unavailable)
        else pure (record {
          session_id = session_id;
          qr_code = session.qr_code;
          expires_at = session.qr_expires_at;
        })

  module _ (client : Client lib) where
    unfoldable pub require_connected : String → Method lib (Runtime × Session)
    require_connected session_id = do
      session ← on_db (get session_id)
      λ w. elim (runtime_of session_id w.runtimes) [
        | none ↦ throw (sentinel session_not_connected) w
        | some runtime ↦
            (ask (client.is_connected runtime.number) >>= λ connected.
            if connected then pure (runtime, session) else throw (sentinel session_not_connected))
              w
      ]
