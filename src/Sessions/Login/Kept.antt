-- ===== src/Sessions/Login/Kept.antt =====
-- What the operations of the manager besides sending do to its world, for any relation between
-- worlds that their steps keep.
use interactive_whatsapp_meo.Base.{
  ◌≡◌, Option, none, some, List, [], ◌∷◌, Error, Result-cases, Bool-cases, Option-cases, inl, inr,
  String, Bool, true, false, not, arith, Result, ok, err, wrap, sentinel, is_error, not_found,
  session_exists, is_some, ◌&&◌, ◌||◌, if◌then◌else◌,
}
use interactive_whatsapp_meo.Base.Text.{is_empty, trim_space}
use interactive_whatsapp_meo.Store.Models.{
  Session, qr, pair_code, connected, deleted, method_eq, status_eq,
}
use interactive_whatsapp_meo.Whatsapp.Jid.{JidLib, normalize_phone}
use interactive_whatsapp_meo.Sessions.World.{
  Runtime, Client, World, Method, Wait, cancelled, timed_out, is_ready, Task, connect_existing,
  pure, throw, ask, ◌>>◌,
}
use interactive_whatsapp_meo.Sessions.Runtimes.{
  runtime_of, disconnect_runtime, delete_session, get_qr_code, require_connected,
}
use interactive_whatsapp_meo.Sessions.Targets.{verify_number}
use interactive_whatsapp_meo.Sessions.Login.{
  CreateSessionInput, CreateSessionResult, has_fresh_qr, after_wait, launch, attach_runtime,
  attach_new_runtime, attach_existing_runtime, attach_and_launch, ensure_pending_runtime,
  is_session_connected, delete_stored_device, generate_pair_code, create_unknown, create_session,
}
use interactive_whatsapp_meo.Sessions.Restart.{
  start_over, open_qr_code, reconnect_session, rehydrate_all, rehydrate,
}
use interactive_whatsapp_meo.Sessions.Kept.{
  Kept, IsKept, bind-Kept, on_db-Kept, try_db-Kept, ask-Kept, lift-Kept, if-Kept, try-Kept,
  lookup-Kept,
}

module _ {lib : JidLib} (R : World lib → World lib → Type 0) (laws : IsKept R) where
  disconnect_runtime-Kept : (session_id : String) → Kept R (disconnect_runtime session_id)
  unfolding disconnect_runtime
  disconnect_runtime-Kept session_id = record {
    kept = λ w. elim (Option-cases (runtime_of session_id w.runtimes)) [
      | inl gone ↦ rw (disconnect_runtime, gone) (laws.frame w _ _ _)
      | inr (r, there) ↦ rw (disconnect_runtime, there) (laws.disconnect session_id r w there)
    ];
  }

  disconnect_runtime_ok :
      (session_id : String) (w : World lib) → (disconnect_runtime session_id w).0 ≡ ok tt
  unfolding disconnect_runtime
  disconnect_runtime_ok session_id w = ground arith

  pub delete_session-Kept : (session_id : String) → Kept R (delete_session session_id)
  unfolding delete_session
  delete_session-Kept session_id = record {
    kept = λ w.
        rw (delete_session, disconnect_runtime_ok session_id w)
          (laws.trans ((disconnect_runtime-Kept session_id).kept w) (laws.frame _ _ _ _));
  }

  pub get_qr_code-Kept : (session_id : String) → Kept R (get_qr_code session_id)
  unfolding get_qr_code
  get_qr_code-Kept session_id = on_db-Kept R laws _ (λ session.
      if-Kept R laws (is_empty (trim_space session.qr_code))
        (record { kept = λ w. laws.frame w _ _ _ }) (record { kept = λ w. laws.frame w _ _ _ }))

  launching-Kept : (runtime : Runtime) (task : Task) → Kept R (launch task >> pure runtime)
  launching-Kept runtime task =
      bind-Kept R laws _ _ (record { kept = λ w. laws.frame w _ _ _ })
        (λ _. record { kept = λ w. laws.frame w _ _ _ })

  attach_runtime-Kept : (session : Session) (ready : Bool) → Kept R (attach_runtime session ready)
  attach_runtime-Kept session ready = record { kept = λ w. laws.attach session ready w }

  module _ (client : Client lib) where
    pub require_connected-Kept :
        (session_id : String) → Kept R (require_connected client session_id)
    unfolding require_connected
    require_connected-Kept session_id = on_db-Kept R laws _ (λ session.
        lookup-Kept R laws session_id _ _ record { kept = λ w. laws.frame w _ _ _ }
          (λ r. ask-Kept R laws _ (λ online.
            if-Kept R laws online record { kept = λ w. laws.frame w _ _ _ }
              record { kept = λ w. laws.frame w _ _ _ })))

    pub verify_number-Kept :
        (session_id phone : String) → Kept R (verify_number lib client session_id phone)
    unfolding verify_number
    verify_number-Kept session_id phone =
        bind-Kept R laws _ _ (require_connected-Kept session_id) (λ r.
          if-Kept R laws (is_empty (normalize_phone phone))
            (record { kept = λ w. laws.frame w _ _ _ })
            (ask-Kept R laws _ (λ answer.
              lift-Kept R laws _ (λ results. record { kept = λ w. laws.frame w _ _ _ }))))

    attach_existing_runtime-Kept :
        (session : Session) → Kept R (attach_existing_runtime client session)
    unfolding attach_existing_runtime
    attach_existing_runtime-Kept session = lift-Kept R laws _ (λ jid. ask-Kept R laws _ (λ answer.
        lift-Kept R laws _ (λ found.
          if-Kept R laws found (attach_runtime-Kept session true)
            (record { kept = λ w. laws.frame w _ _ _ }))))

    attach_and_launch-Kept : (session : Session) → Kept R (attach_and_launch client session)
    unfolding attach_and_launch attach_new_runtime
    attach_and_launch-Kept session =
        if-Kept R laws (not (is_empty session.device_jid))
          (bind-Kept R laws _ _ (attach_existing_runtime-Kept session)
            (λ runtime. launching-Kept runtime _))
          (bind-Kept R laws _ _ (attach_runtime-Kept session false)
            (λ runtime. launching-Kept runtime _))

    ensure_pending_runtime-Kept :
        (session : Session) → Kept R (ensure_pending_runtime client session)
    unfolding ensure_pending_runtime
    ensure_pending_runtime-Kept session =
        lookup-Kept R laws session.session_id _ _ (attach_and_launch-Kept session)
          (λ r. record { kept = λ w. laws.frame w _ _ _ })

    pub generate_pair_code-Kept :
        (session_id given : String) → Kept R (generate_pair_code client session_id given)
    unfolding generate_pair_code
    generate_pair_code-Kept session_id given =
        if-Kept R laws (is_empty (normalize_phone given))
          (record { kept = λ w. laws.frame w _ _ _ })
          (on_db-Kept R laws _ (λ session.
            bind-Kept R laws _ _ (ensure_pending_runtime-Kept session) (λ runtime.
              ask-Kept R laws _ (λ wait. bind-Kept R laws _ _ (after_wait-Kept wait) (λ _.
                ask-Kept R laws _ (λ answer. lift-Kept R laws _ (λ code.
                  try_db-Kept R laws _ (λ updated. record { kept = λ w. laws.frame w _ _ _ }))))))))
      where
        after_wait-Kept : (wait : Wait) → Kept R (after_wait wait)
        after_wait-Kept (cancelled e) = record { kept = λ w. laws.frame w _ _ _ }
        after_wait-Kept timed_out = record { kept = λ w. laws.frame w _ _ _ }
        after_wait-Kept is_ready = record { kept = λ w. laws.frame w _ _ _ }

    create_unknown-Kept : (input : CreateSessionInput) → Kept R (create_unknown client input)
    unfolding create_unknown attach_new_runtime
    create_unknown-Kept input = try_db-Kept R laws _ (λ created. lift-Kept R laws _ (λ session.
        bind-Kept R laws _ _ (attach_runtime-Kept session false) (λ runtime.
          bind-Kept R laws _ _ (record { kept = λ w. laws.frame w _ _ _ })
            (λ _.
              if-Kept R laws (method_eq input.login_method pair_code)
                (if-Kept R laws (is_empty (trim_space input.phone))
                  (record { kept = λ w. laws.frame w _ _ _ })
                  (bind-Kept R laws _ _ (generate_pair_code-Kept input.session_id input.phone)
                    (λ code. record { kept = λ w. laws.frame w _ _ _ })))
                (bind-Kept R laws _ _ (try-Kept R laws _ (get_qr_code-Kept input.session_id))
                  (λ code. record { kept = λ w. laws.frame w _ _ _ }))))))

    pub create_session-Kept : (input : CreateSessionInput) → Kept R (create_session client input)
    unfolding create_session
    create_session-Kept input =
        if-Kept R laws (is_empty (trim_space input.session_id))
          (record { kept = λ w. laws.frame w _ _ _ })
          (if-Kept R laws
            (not (method_eq input.login_method qr) && not (method_eq input.login_method pair_code))
            (record { kept = λ w. laws.frame w _ _ _ }) (try_db-Kept R laws _ known-Kept))
      where
        known-Kept :
            (known : Result Session)
            → Kept R {A = CreateSessionResult} (elim known [
              | ok _ ↦ throw (sentinel session_exists)
              | err e ↦
                  if is_error e not_found
                  then create_unknown client input
                  else throw (wrap "get existing session" e)
            ])
        known-Kept (ok _) = record { kept = λ w. laws.frame w _ _ _ }
        known-Kept (err e) =
            if-Kept R laws (is_error e not_found) (create_unknown-Kept input)
              (record { kept = λ w. laws.frame w _ _ _ })

    delete_stored_device-Kept :
        (device_jid : String) → Kept R (delete_stored_device client device_jid)
    unfolding delete_stored_device
    delete_stored_device-Kept device_jid = record {
      kept = λ w. elim (Bool-cases (is_empty (trim_space device_jid))) [
        | inl blank ↦ rw blank (laws.frame w _ _ _)
        | inr full ↦ elim (Result-cases (lib.parse_jid (trim_space device_jid))) [
          | inr (e, unread) ↦ rw (full, unread) (laws.frame w _ _ _)
          | inl (jid, read) ↦
              rw (full, read)
                (run w (
                  ask-Kept R laws _ (λ answer. lift-Kept R laws _ (λ found.
                    if-Kept R laws found (ask-Kept R laws _ deleting)
                      record { kept = λ w. laws.frame w _ _ _ }))))
        ]
      ];
    }
      where
        run : (w : World lib) {m : Method lib (Unit {0})} → Kept R m → R w (m w).1
        run w h = h.kept w

        deleting :
            (failure : Option Error)
            → Kept R
                (elim failure [ none ↦ pure tt | some e ↦ throw (wrap "delete stored device" e) ])
        deleting none = record { kept = λ w. laws.frame w _ _ _ }
        deleting (some e) = record { kept = λ w. laws.frame w _ _ _ }

    start_over-Kept :
        (session_id : String) (session : Session) → Kept R (start_over client session_id session)
    unfolding start_over attach_new_runtime
    start_over-Kept session_id session =
        bind-Kept R laws _ _ (disconnect_runtime-Kept session_id) (λ _.
          bind-Kept R laws _ _ (delete_stored_device-Kept session.device_jid) (λ _.
            try_db-Kept R laws _ (λ answer. lift-Kept R laws _ (λ reset.
              bind-Kept R laws _ _ (attach_runtime-Kept reset false) (λ runtime.
                bind-Kept R laws _ _ (record { kept = λ w. laws.frame w _ _ _ })
                  (λ _.
                    bind-Kept R laws _ _ (try-Kept R laws _ (get_qr_code-Kept session_id))
                      (λ code. record { kept = λ w. laws.frame w _ _ _ })))))))

    is_session_connected-Kept : (session : Session) → Kept R (is_session_connected client session)
    unfolding is_session_connected
    is_session_connected-Kept session =
        lookup-Kept R laws session.session_id (pure false)
          (λ r w.
            if status_eq session.status connected
            then pure true w
            else ask (client.is_connected r.number) w)
          record { kept = λ w. laws.frame w _ _ _ }
          (λ r. record {
            kept = λ w. elim (Bool-cases (status_eq session.status connected)) [
              | inl online ↦ rw online (laws.frame w _ _ _)
              | inr offline ↦ rw offline (laws.frame w _ _ _)
            ];
          })

    pub open_qr_code-Kept : (session_id : String) → Kept R (open_qr_code client session_id)
    unfolding open_qr_code
    open_qr_code-Kept session_id = on_db-Kept R laws _ (λ session.
        if-Kept R laws (is_some session.deleted_at || status_eq session.status deleted)
          (record { kept = λ w. laws.frame w _ _ _ })
          (bind-Kept R laws _ _ (is_session_connected-Kept session) (λ online.
            if-Kept R laws online (record { kept = λ w. laws.frame w _ _ _ })
              (on_db-Kept R laws _ (λ now.
                if-Kept R laws (has_fresh_qr now session)
                  (record { kept = λ w. laws.frame w _ _ _ })
                  (start_over-Kept session_id session))))))

    pub reconnect_session-Kept :
        (session_id : String) → Kept R (reconnect_session client session_id)
    unfolding reconnect_session
    reconnect_session-Kept session_id = on_db-Kept R laws _ (λ session.
        bind-Kept R laws _ _ (disconnect_runtime-Kept session_id) (λ _.
          bind-Kept R laws _ _ (attach_and_launch-Kept session) (λ runtime.
            try_db-Kept R laws _ (λ updated. record { kept = λ w. laws.frame w _ _ _ }))))

    rehydrate_all-Kept : (sessions : List Session) → Kept R (rehydrate_all client sessions)
    unfolding rehydrate_all
    rehydrate_all-Kept [] = record { kept = λ w. laws.frame w _ _ _ }
    rehydrate_all-Kept (session ∷ sessions) =
        if-Kept R laws
          (is_empty session.device_jid
            || status_eq session.status deleted
            || is_some session.deleted_at)
          (rehydrate_all-Kept sessions)
          (bind-Kept R laws _ _ (try-Kept R laws _ (attach_existing_runtime-Kept session))
            (attached-Kept (rehydrate_all-Kept sessions)))
      where
        attached-Kept :
            Kept R (rehydrate_all client sessions)
            → (attached : Result Runtime)
            → Kept R {A = Unit {0}} (elim attached [
              | err _ ↦ rehydrate_all client sessions
              | ok runtime ↦
                  launch (connect_existing runtime.number session.session_id)
                  >> rehydrate_all client sessions
            ])
        attached-Kept rest (err _) = rest
        attached-Kept rest (ok runtime) =
            bind-Kept R laws _ _ (record { kept = λ w. laws.frame w _ _ _ }) (λ _. rest)

    pub rehydrate-Kept : Kept R (rehydrate client)
    unfolding rehydrate
    rehydrate-Kept =
        try_db-Kept R laws _
          (λ answer. lift-Kept R laws _ (λ sessions. rehydrate_all-Kept sessions))
