-- ===== src/Sessions/Login.antt =====
-- `CreateSession`, `GeneratePairCode`, `Close` and what they call, of internal/session/manager.go.
-- The manager always has a container.
pub mod Replaced
pub mod Opened
pub mod Kept
pub mod Quiet
use interactive_whatsapp_meo.Base.{
  ℕ, ◌+◌, String, Bool, true, false, not, ◌&&◌, ◌||◌, Option, none, some, List, [], ◌∷◌, ◌++◌, map,
  Error, Result, ok, err, wrap, plain, map_error, sentinel, not_found, is_error,
  login_method_invalid, session_exists, phone_required, pair_code_not_available, session_connected,
  is_some, ltb, if◌then◌else◌,
}
use interactive_whatsapp_meo.Base.Text.{◌++ₛ◌, is_empty, trim_space}
use interactive_whatsapp_meo.Store.Models.{
  LoginMethod, qr, pair_code, SessionStatus, initializing, qr_ready, pairing, connected, deleted,
  method_eq, status_eq, Session,
}
use interactive_whatsapp_meo.Store.Db.{time_now}
use interactive_whatsapp_meo.Store.Sessions
use interactive_whatsapp_meo.Store.Sessions.{get, update_state, reset_for_qr_code}
use interactive_whatsapp_meo.Whatsapp.Jid.{JidLib, normalize_phone}
use interactive_whatsapp_meo.Sessions.World.{
  Runtime, QrCodeResult, Wait, cancelled, timed_out, is_ready, Task, connect_existing,
  pending_login, Client, World, Method, pure, throw, on_db, try_db, ask, lift, ◌>>=◌, ◌>>◌,
}
use interactive_whatsapp_meo.Sessions.Runtimes.{
  runtime_of, drop_runtime, disconnect_runtime, get_qr_code,
}
use interactive_whatsapp_meo.Sessions.Events.{bare_state}

pub record CreateSessionInput : Type 0 where
  pub session_id : String
  pub name : String
  pub login_method : LoginMethod
  pub phone : String

pub record PairCodeResult : Type 0 where
  pub session_id : String
  pub phone : String
  pub pairing_code : String

pub record CreateSessionResult : Type 0 where
  pub session : Session
  pub pair_code : Option PairCodeResult
  pub qr_code : Option QrCodeResult

pub record OpenQrSessionResult : Type 0 where
  pub session : Session
  pub qr_code : Option QrCodeResult

-- The value of a result whose error is dropped.
abbrev pub to_option : {A : Type 0} → Result A → Option A
to_option (ok a) = some a
to_option (err _) = none

abbrev pub or_else : {A : Type 0} → A → Result A → A
or_else a (ok b) = b
or_else a (err _) = a

abbrev pub qr_of : Session → QrCodeResult
qr_of session = record {
  session_id = session.session_id;
  qr_code = session.qr_code;
  expires_at = session.qr_expires_at;
}

-- A QR code is reused if it is there and has not expired.
abbrev pub has_fresh_qr : ℕ → Session → Bool
has_fresh_qr now session =
    status_eq session.status qr_ready
    && not (is_empty (trim_space session.qr_code))
    && (elim session.qr_expires_at [ none ↦ true | some expires_at ↦ ltb now expires_at ])

module _ {lib : JidLib} where
  -- A method whose error the caller inspects.
  abbrev pub try : {A : Type 0} → Method lib A → Method lib (Result A)
  try m w = let (r, w') = m w in (ok r, w')

  -- The cases of the `select` of `GeneratePairCode`.
  abbrev pub after_wait : Wait → Method lib (Unit {0})
  after_wait (cancelled e) = throw e
  after_wait timed_out = throw (sentinel pair_code_not_available)
  after_wait is_ready = pure tt

  -- A goroutine starts.
  abbrev pub launch : Task → Method lib (Unit {0})
  launch task w = pure tt (record w { launched = w.launched ++ task ∷ [] })

  -- `newRuntime`, and `m.runtimes[record.SessionID] = runtimeSession`
  unfoldable pub attach_runtime : Session → Bool → Method lib Runtime
  attach_runtime session ready w =
      let runtime : Runtime = record {
        number = w.next_runtime;
        session_id = session.session_id;
        login_method = session.login_method;
        ready = ready;
      } in
      pure runtime (record w {
        next_runtime = w.next_runtime + 1;
        runtimes = runtime ∷ drop_runtime session.session_id w.runtimes;
      })

  unfoldable pub attach_new_runtime : Session → Method lib Runtime
  attach_new_runtime session = attach_runtime session false

  unfoldable pub close : Method lib (Unit {0})
  close w =
      pure tt (record w {
        disconnected = w.disconnected ++ map (λ r. r.number) w.runtimes;
        runtimes = [];
      })

module _ {lib : JidLib} (client : Client lib) where
  open lib use {Jid, parse_jid}

  unfoldable pub attach_existing_runtime : Session → Method lib Runtime
  attach_existing_runtime session = do
    jid ← lift (map_error (wrap "parse stored device jid") (parse_jid session.device_jid))
    answer ← ask (λ call. client.get_device call jid)
    found ← lift (map_error (wrap "get existing device") answer)
    if found
        then attach_runtime session true
        else throw (plain ("device not found for session " ++ₛ session.session_id))

  -- What `ReconnectSession` and `ensurePendingRuntime` share: the runtime of a session is attached,
  -- and its goroutine started.
  unfoldable pub attach_and_launch : Session → Method lib Runtime
  unfolding attach_existing_runtime attach_new_runtime
  attach_and_launch session =
      if not (is_empty session.device_jid)
      then (do
        runtime ← attach_existing_runtime session
        launch (connect_existing runtime.number session.session_id)
        pure runtime)
      else (do
        runtime ← attach_new_runtime session
        launch (pending_login runtime.number session.session_id)
        pure runtime)

  unfoldable pub ensure_pending_runtime : Session → Method lib Runtime
  unfolding attach_and_launch
  ensure_pending_runtime session w = elim (runtime_of session.session_id w.runtimes) [
    | some runtime ↦ pure runtime w
    | none ↦ attach_and_launch session w
  ]

  unfoldable pub is_session_connected : Session → Method lib Bool
  is_session_connected session w = elim (runtime_of session.session_id w.runtimes) [
    | none ↦ pure false w
    | some runtime ↦
        if status_eq session.status connected
        then pure true w
        else ask (client.is_connected runtime.number) w
  ]

  -- `deleteStoredDevice`; a JID that cannot be read is only logged.
  unfoldable pub delete_stored_device : String → Method lib (Unit {0})
  delete_stored_device device_jid =
      if is_empty (trim_space device_jid)
      then pure tt
      else (elim (parse_jid (trim_space device_jid)) [
        | err _ ↦ pure tt
        | ok jid ↦
            (ask (λ call. client.get_device call jid) >>= λ answer.
            lift (map_error (wrap "get stored device") answer) >>= λ found.
            if found
            then (ask (λ call. client.delete_device call jid) >>= λ failure. elim failure [
              | none ↦ pure tt
              | some e ↦ throw (wrap "delete stored device" e)
            ])
            else pure tt)
      ])

  unfoldable pub generate_pair_code : String → String → Method lib PairCodeResult
  unfolding ensure_pending_runtime
  generate_pair_code session_id given =
      let phone = normalize_phone given in
      if is_empty phone then throw (sentinel phone_required) else (do
        session ← on_db (get session_id)
        runtime ← ensure_pending_runtime session
        wait ← ask (client.wait_ready runtime.number)
        after_wait wait
        answer ← ask (λ call. client.pair_phone runtime.number call phone)
        code ← lift (map_error (wrap "pair phone") answer)
        updated ←
            try_db
              (update_state (record (bare_state session.session_id pairing "") { phone = phone }))
        let session' : Session = or_else session updated
        pure (record {
          session_id = session'.session_id;
          phone = session'.phone;
          pairing_code = code;
        }))

  -- `CreateSession`, once the input is valid and the session unknown.
  unfoldable pub create_unknown : CreateSessionInput → Method lib CreateSessionResult
  unfolding generate_pair_code attach_new_runtime get_qr_code
  create_unknown input = do
    created ← try_db (
        Sessions.create (record {
          session_id = input.session_id;
          name = trim_space input.name;
          login_method = input.login_method;
          phone = trim_space input.phone;
          status = initializing;
        }))
    session ← lift (map_error (wrap "create session record") created)
    runtime ← attach_new_runtime session
    launch (pending_login runtime.number session.session_id)
    if method_eq input.login_method pair_code
        then (if is_empty (trim_space input.phone)
            then pure (record { session = session; pair_code = none; qr_code = none })
            else (generate_pair_code input.session_id input.phone >>= λ code.
                pure (record { session = session; pair_code = some code; qr_code = none })))
        else (try (get_qr_code input.session_id) >>= λ code.
            pure (record { session = session; pair_code = none; qr_code = to_option code }))

  unfoldable pub create_session : CreateSessionInput → Method lib CreateSessionResult
  unfolding create_unknown
  create_session input =
      if is_empty (trim_space input.session_id)
      then throw (plain "sessionId is required")
      else if not (method_eq input.login_method qr) && not (method_eq input.login_method pair_code)
      then throw (sentinel login_method_invalid)
      else (try_db (get input.session_id) >>= λ known. elim known [
        | ok _ ↦ throw (sentinel session_exists)
        | err e ↦
            if is_error e not_found
            then create_unknown input
            else throw (wrap "get existing session" e)
      ])
