-- ===== src/Sessions/Login/Replaced.antt =====
-- `ReconnectSession`: what becomes of the runtime that a session had.
use text.Mathlib.TextEquality.{eq_iff}
use interactive_whatsapp_meo.Base.{
  ◌≡◌, ap, sym, ◌∙◌, ◌<◌, String, some, arith, ok, Result-cases, Option-cases, inl, inr,
}
use interactive_whatsapp_meo.Store.Models.{Session}
use interactive_whatsapp_meo.Store.Db.{Db, sql, take_turn}
use interactive_whatsapp_meo.Store.Sessions.{get, lookup, has_id}
use interactive_whatsapp_meo.Store.Table.{find-holds}
use interactive_whatsapp_meo.Whatsapp.Jid.{JidLib}
use interactive_whatsapp_meo.Sessions.World.{Runtime, Client, World, ◌>>=◌}
use interactive_whatsapp_meo.Sessions.Runtimes.{runtime_of, is_current_runtime, disconnect_runtime}
use interactive_whatsapp_meo.Sessions.Events.{Event, handle_event}
use interactive_whatsapp_meo.Sessions.Login.{
  attach_runtime, attach_new_runtime, attach_existing_runtime, attach_and_launch,
}
use interactive_whatsapp_meo.Sessions.Restart.{reconnect_session}

-- `Get` answers with the session that it is asked for.
pub get-session_id :
    (session_id : String) (db : Db) (session : Session)
    → (get session_id db).0 ≡ ok session
    → session.session_id ≡ session_id
unfolding get sql
get-session_id session_id db session h = elim (Option-cases (take_turn db).0) [
  | inr (e, broke) ↦ absurd (ground (arith, h))
  | inl went ↦ elim (Option-cases (lookup session_id (take_turn db).1)) [
    | inl absent ↦ absurd (ground (arith, h))
    | inr (row, found) ↦
        let same = find-holds (has_id session_id) (take_turn db).1.sessions row found in
        ground (arith, h, same, eq_iff row.session_id session_id)
  ]
]

module _ (lib : JidLib) (client : Client lib) where
  -- The runtime that a session was given is its current one, and newer than all before.
  attach_and_launch_lem :
      (session : Session) (w : World lib) (runtime : Runtime)
      → (attach_and_launch client session w).0 ≡ ok runtime
      → (runtime_of session.session_id (attach_and_launch client session w).1.runtimes
          ≡ some runtime)
        × (runtime.number ≡ w.next_runtime)
  unfolding attach_and_launch attach_existing_runtime attach_new_runtime attach_runtime ◌>>=◌
  attach_and_launch_lem session w runtime h =
      (ground (arith, eq_iff session.session_id session.session_id), ground arith)

  -- What `ReconnectSession` leaves when it succeeds.
  reconnect_session_lem :
      (session_id : String) (w : World lib) (session : Session)
      → (reconnect_session client session_id w).0 ≡ ok session
      → (runtime : Runtime) × (runtime_of session_id
            (reconnect_session client session_id w).1.runtimes
          ≡ some runtime)
        × (runtime.number ≡ w.next_runtime)
  unfolding reconnect_session disconnect_runtime ◌>>=◌
  reconnect_session_lem session_id w session h = elim (Result-cases (get session_id w.db).0) [
    | inr (e, failed) ↦ absurd (ground (arith, h))
    | inl (found, fine) ↦
        let mid : World lib = record w { db = (get session_id w.db).1 } in
        let cleared = (disconnect_runtime session_id mid).1 in
        let same = get-session_id session_id w.db found fine in
        elim (Result-cases (attach_and_launch client found cleared).0) [
          | inr (e, failed) ↦ absurd (ground (arith, h))
          | inl (runtime, attached) ↦
              let (current, fresh) = attach_and_launch_lem found cleared runtime attached in
              (runtime, ground (arith, current, same, fine, attached), ground (arith, fresh))
        ]
  ]

-- When `ReconnectSession` succeeds, every client that served the session before, and any other
-- client that was started before, is cut off: its events are ignored and change nothing at all.
pub reconnect_session_replaces :
    (lib : JidLib) (client : Client lib) (session_id : String) (w w' : World lib)
    (session : Session)
    → reconnect_session client session_id w ≡ (ok session, w')
    → (old : Runtime) (event : Event lib) → old.number < w.next_runtime
    → handle_event lib client session_id old event w' ≡ (ok tt, w')
unfolding handle_event is_current_runtime
reconnect_session_replaces lib client session_id w w' session h old event older =
    let (runtime, current, fresh) =
      reconnect_session_lem lib client session_id w session (ap (λ o. o.0) h) in
    let now_current : runtime_of session_id w'.runtimes ≡ some runtime =
      sym (ap (λ o. runtime_of session_id o.1.runtimes) h) ∙ current in
    ground (arith, now_current, fresh, older)
