-- ===== src/Start/Serves.antt =====
-- A process that has started lets the configured key through.
use interactive_whatsapp_meo.Base.{
  ◌≡◌, refl, ap, ◌∙◌, true, none, List, [], ◌∷◌, arith, ok, Result-cases, Option-cases, Bool-cases,
  is_some, str_eq, ◌++◌, ◌||◌, inl, inr,
}
use interactive_whatsapp_meo.Base.Text.{is_empty, trim_space}
use interactive_whatsapp_meo.Store.Models.{ApiKey, Session, deleted, status_eq}
use interactive_whatsapp_meo.Store.Db.{Db, take_turn, take_turn-IsTurn, sql}
use interactive_whatsapp_meo.Store.Sessions
use interactive_whatsapp_meo.Store.ApiKeys.{has_hash, bootstrap}
use interactive_whatsapp_meo.Whatsapp.Jid.{JidLib}
use interactive_whatsapp_meo.Sessions.World.{Client, World, connect_existing, webhook_worker, ◌>>=◌}
use interactive_whatsapp_meo.Sessions.Login.{attach_runtime, attach_existing_runtime}
use interactive_whatsapp_meo.Sessions.Restart.{rehydrate_all, rehydrate}
use interactive_whatsapp_meo.Http.Types.{Request, Server}
use interactive_whatsapp_meo.Http.Routes.{Endpoint, is_protected, handle, serve}
use interactive_whatsapp_meo.Http.Guards.{asked, authenticate_known}
use interactive_whatsapp_meo.Config.{Config, load}
use interactive_whatsapp_meo.Config.Start.{load-IsUsable, load-bootstrap}
use interactive_whatsapp_meo.Store.Table.{find}
use interactive_whatsapp_meo.Start.{Machine, start}

module _ {lib : JidLib} (client : Client lib) where
  attach_existing_runtime-db :
      (session : Session) (w : World lib) → (attach_existing_runtime client session w).1.db ≡ w.db
  unfolding attach_existing_runtime attach_runtime ◌>>=◌
  attach_existing_runtime-db session w = ground arith

  rehydrate_all-db :
      (sessions : List Session) (w : World lib) → (rehydrate_all client sessions w).1.db ≡ w.db
  unfolding rehydrate_all ◌>>=◌
  rehydrate_all-db [] w = refl
  rehydrate_all-db (session ∷ sessions) w =
      let attached = attach_existing_runtime client session w in
      elim (Bool-cases (
        is_empty session.device_jid
        || status_eq session.status deleted
        || is_some session.deleted_at)) [
          | inl skipped ↦ rw skipped (rehydrate_all-db sessions w)
          | inr goes ↦ elim (Result-cases attached.0) [
            | inr (e, failed) ↦ ground (
              arith,
              goes,
              failed,
              rehydrate_all-db sessions attached.1,
              attach_existing_runtime-db session w,
            )
            | inl (runtime, fine) ↦ ground (
              arith,
              goes,
              fine,
              attach_existing_runtime-db session w,
              rehydrate_all-db sessions (record attached.1 {
                launched =
                    attached.1.launched ++ connect_existing runtime.number session.session_id ∷ [];
              }),
            )
          ]
        ]

  rehydrate-api_keys : (w : World lib) → (rehydrate client w).1.db.api_keys ≡ w.db.api_keys
  unfolding rehydrate ◌>>=◌ Sessions.list sql
  rehydrate-api_keys w = elim (Result-cases (Sessions.list w.db).0) [
    | inr (e, failed) ↦ rw failed (list-api_keys w.db)
    | inl (sessions, fine) ↦ rw fine (
        ap (λ db. db.api_keys)
          (rehydrate_all-db sessions (record w { db = (Sessions.list w.db).1 }))
        ∙ list-api_keys w.db)
  ]
    where
      list-api_keys : (db : Db) → (Sessions.list db).1.api_keys ≡ db.api_keys
      list-api_keys db = ground (arith, (take_turn-IsTurn db).api_keys)

module _ {lib : JidLib} (machine : Machine) (server : Server lib) where
  -- What a start that succeeded has done.
  start_lem :
      (cfg : Config) (w w' : World lib)
      → start machine server w ≡ (ok cfg, w')
      → (load machine.getenv machine.atoi machine.parse_duration ≡ ok cfg)
        × ((bootstrap server.hash cfg.api_key w.db).0 ≡ ok tt)
        × (w'.db.api_keys ≡ (bootstrap server.hash cfg.api_key w.db).1.api_keys)
  unfolding start ◌>>=◌
  start_lem cfg w w' h =
      elim (Result-cases (load machine.getenv machine.atoi machine.parse_duration)) [
        | inr (e, failed) ↦ absurd (ground (arith, h, failed))
        | inl (c, loaded) ↦ elim (Option-cases machine.opening) [
          | inr (e, failed) ↦ absurd (ground (arith, h, loaded, failed))
          | inl opened ↦ elim (Option-cases machine.migrating) [
            | inr (e, failed) ↦ absurd (ground (arith, h, loaded, opened, failed))
            | inl migrated ↦ elim (Result-cases (bootstrap server.hash c.api_key w.db).0) [
              | inr (e, failed) ↦ absurd (ground (arith, h, loaded, opened, migrated, failed))
              | inl (u, written) ↦
                  let keyed : World lib = record w {
                    db = (bootstrap server.hash c.api_key w.db).1;
                    launched = w.launched ++ webhook_worker ∷ [];
                  } in
                  elim (Option-cases machine.container) [
                    | inr (e, failed) ↦
                        absurd (ground (arith, h, loaded, opened, migrated, written, failed))
                    | inl contained ↦ elim (Result-cases (rehydrate server.client keyed).0) [
                      | inr (e, failed) ↦
                          absurd (
                            ground (arith, h, loaded, opened, migrated, written, contained, failed))
                      | inl (v, done) ↦ (
                        ground (arith, h, loaded, opened, migrated, written, contained, done),
                        ground (arith, h, loaded, opened, migrated, written, contained, done),
                        ground (
                          arith,
                          h,
                          loaded,
                          opened,
                          migrated,
                          written,
                          contained,
                          done,
                          rehydrate-api_keys server.client keyed,
                        ),
                      )
                    ]
                  ]
            ]
          ]
        ]
      ]

  -- When the process has started, a request to a protected route with the configured key, blanks
  -- around it aside, gets the handler's answer, if the statement that looks for the key does not
  -- fail: a configuration that loads has a key, which is written before any request.
  pub start-serve :
      (cfg : Config) (endpoint : Endpoint) (r : Request) (w w' : World lib)
      → start machine server w ≡ (ok cfg, w')
      → is_protected endpoint ≡ true
      → trim_space r.api_key ≡ trim_space cfg.api_key
      → (take_turn w'.db).0 ≡ none
      → serve server endpoint r w' ≡ handle server endpoint r (asked server w')
  unfolding serve
  start-serve cfg endpoint r w w' begun guarded same quiet =
      let (loaded, written, kept) = start_lem cfg w w' begun in
      let db' = (bootstrap server.hash cfg.api_key w.db).1 in
      let full = (load-IsUsable machine.getenv machine.atoi machine.parse_duration cfg loaded).1 in
      let known : has_hash (server.hash (trim_space cfg.api_key)) w'.db ≡ true =
        ap
          (λ keys.
            is_some (
              find (λ (k : ApiKey). str_eq k.key_hash (server.hash (trim_space cfg.api_key))) keys))
          kept
        ∙ load-bootstrap machine.getenv machine.atoi machine.parse_duration cfg server.hash w.db db'
            loaded (ap (λ a. (a, db')) written) in
      rw (guarded, serve)
        (authenticate_known server (handle server endpoint r) r w' (rw same full) (rw same known)
          quiet)
