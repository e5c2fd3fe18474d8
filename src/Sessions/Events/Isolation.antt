-- ===== src/Sessions/Events/Isolation.antt =====
-- What an event of a client can change.
use interactive_whatsapp_meo.Base.{
  ℕ, ◌+◌, String, ◌≡◌, refl, ap, inl, inr, false, Option, none, some, List, ◌∷◌, Result, ok, err,
  Result-cases, Bool-cases, if◌then◌else◌, str_eq,
}
use interactive_whatsapp_meo.Store.Models.{Message, disconnected, logged_out, is_outbound}
use interactive_whatsapp_meo.Store.Db.{Db}
use interactive_whatsapp_meo.Store.Table.{find}
use interactive_whatsapp_meo.Store.Sessions.{UpdateSessionStateParams, has_id, update_state}
use interactive_whatsapp_meo.Store.Messages.{save, update_status}
use interactive_whatsapp_meo.Webhooks.Frame.{OnlyQueues, emit-OnlyQueues}
use interactive_whatsapp_meo.Whatsapp.Jid.{JidLib}
use interactive_whatsapp_meo.Whatsapp.Message.{resolve_receipt_status}
use interactive_whatsapp_meo.Sessions.World.{
  Runtime, EventData, session_data, message_data, status_data, Client, World, Method, emit_event,
  pure, try_db, ◌>>=◌,
}
use interactive_whatsapp_meo.Sessions.Runtimes.{runtime_of, is_current_runtime}
use interactive_whatsapp_meo.Sessions.Events.Touches.{
  Touches, same, Touches-after, update_state-Touches, save-sessions, update_status-sessions,
  runtime_of-drop_runtime,
}
use interactive_whatsapp_meo.Sessions.Events.Confined.{
  IsConfined, IsConfined-refl, IsConfined-emit, update_state-IsConfined, save-IsConfined,
  update_status-IsConfined,
}
use interactive_whatsapp_meo.Sessions.Events.{
  Event, on_connected, on_disconnected, on_logged_out, on_message, on_receipt, on_other, bare_state,
  online_state, incoming, handle_current, handle_event,
}

module _ (lib : JidLib) (client : Client lib) where
  -- The state that an event gives to its session.
  abbrev pub state_of : String → Runtime → Event lib → World lib → Option UpdateSessionStateParams
  state_of session_id runtime on_connected w =
      some (online_state lib client session_id (client.store_id runtime.number (w.calls + 1)))
  state_of session_id runtime on_disconnected w = some (bare_state session_id disconnected "")
  state_of session_id runtime (on_logged_out reason) w =
      some (bare_state session_id logged_out reason)
  state_of session_id runtime _ w = none

  -- The presences once an event is handled: a connection makes its client available.
  abbrev pub told : Runtime → Event lib → List ℕ → List ℕ
  told runtime on_connected presences = runtime.number ∷ presences
  told runtime _ presences = presences

  -- What `emit_event` leaves alone.
  record IsTold (w : World lib) (out : Result (Unit {0}) × World lib) : Type 0 where
    answer : out.0 ≡ ok tt
    sends : out.1.sends ≡ w.sends
    presences : out.1.presences ≡ w.presences
    runtimes : out.1.runtimes ≡ w.runtimes
    db : OnlyQueues w.db out.1.db

  emit_event-IsTold :
      (session_id event_type : String) (payload : EventData) (w : World lib)
      → IsTold w (emit_event client session_id event_type payload w)
  unfolding emit_event ◌>>=◌
  emit_event-IsTold session_id event_type payload w = record {
    answer = refl;
    sends = refl;
    presences = refl;
    runtimes = refl;
    db = emit-OnlyQueues client.marshal_envelope session_id event_type payload w.db;
  }

  -- What an event does to the world, when it may give a session a state: it ends without an error
  -- and sends no message, and the presences are those given; the other sessions keep their rows,
  -- their messages and their runtimes, and of the other tables only the queue of deliveries may
  -- grow.
  pub record IsEffect (session_id : String) (state : Option UpdateSessionStateParams)
      (presences : List ℕ) (w : World lib) (out : Result (Unit {0}) × World lib) : Type 0 where
    pub answer : out.0 ≡ ok tt
    pub sends : out.1.sends ≡ w.sends
    pub available : out.1.presences ≡ presences
    pub touches : Touches session_id state w.db out.1.db
    pub confined : IsConfined session_id w.db out.1.db
    pub runtimes :
        (j : String)
        → str_eq session_id j ≡ false
        → runtime_of j out.1.runtimes ≡ runtime_of j w.runtimes

  -- A statement on the database, then an event for the webhooks if it succeeded.
  announce-IsEffect :
      {A : Type 0} (session_id : String) (state : Option UpdateSessionStateParams)
      (statement : Db → Result A × Db) (next : A → Method lib (Unit {0})) (w : World lib)
      → Touches session_id state w.db (statement w.db).1
      → IsConfined session_id w.db (statement w.db).1
      → ((a : A) (w : World lib) → IsTold w (next a w))
      → IsEffect session_id state w.presences w
          ((try_db statement >>= λ r. elim r [ err _ ↦ pure tt | ok a ↦ next a ]) w)
  unfolding ◌>>=◌
  announce-IsEffect session_id state statement next w touches confined fine =
      let mid = record w { db = (statement w.db).1 } in
      elim (Result-cases (statement w.db).0) [
        | inr (e, broke) ↦ rw broke (record {
          answer = refl;
          sends = refl;
          available = refl;
          touches = touches;
          confined = confined;
          runtimes = λ j differ. refl;
        })
        | inl (a, went) ↦
            let next_told = fine a mid in
            rw went (record {
              answer = next_told.answer;
              sends = next_told.sends;
              available = next_told.presences;
              touches =
                  Touches-after session_id state w.db (statement w.db).1 _ next_told.db.sessions
                    touches;
              confined = IsConfined-emit session_id w.db (statement w.db).1 _ confined next_told.db;
              runtimes = λ j differ. ap (runtime_of j) next_told.runtimes;
            })
      ]

  online_state-Touches :
      (session_id : String) (id : Option lib.Jid) (db : Db)
      → Touches session_id
          (some (online_state lib client session_id id))
          db
          (update_state (online_state lib client session_id id) db).1
  online_state-Touches session_id none db =
      update_state-Touches (online_state lib client session_id none) db
  online_state-Touches session_id (some jid) db =
      update_state-Touches (online_state lib client session_id (some jid)) db

  handle_current-IsEffect :
      (session_id : String) (runtime : Runtime) (event : Event lib) (w : World lib)
      → IsEffect session_id
          (state_of session_id runtime event w)
          (told runtime event w.presences)
          w
          (handle_current lib client session_id runtime event w)
  unfolding handle_current ◌>>=◌
  handle_current-IsEffect session_id runtime on_connected w =
      let id = client.store_id runtime.number (w.calls + 1) in
      let params = online_state lib client session_id id in
      let begun = record w { calls = w.calls + 1 + 1; presences = runtime.number ∷ w.presences } in
      let effect =
        announce-IsEffect session_id (some params) (update_state params)
          (λ session. emit_event client session_id "session.connected" (session_data session)) begun
          (online_state-Touches session_id id w.db) (update_state-IsConfined session_id params w.db)
          (λ session. emit_event-IsTold session_id "session.connected" (session_data session)) in
      record {
        answer = effect.answer;
        sends = effect.sends;
        available = effect.available;
        touches = effect.touches;
        confined = effect.confined;
        runtimes = effect.runtimes;
      }
  handle_current-IsEffect session_id runtime on_disconnected w =
      let params = bare_state session_id disconnected "" in
      announce-IsEffect session_id (some params) (update_state params)
        (λ session. emit_event client session_id "session.disconnected" (session_data session)) w
        (update_state-Touches params w.db) (update_state-IsConfined session_id params w.db)
        (λ session. emit_event-IsTold session_id "session.disconnected" (session_data session))
  handle_current-IsEffect session_id runtime (on_logged_out reason) w = record {
    answer = refl;
    sends = refl;
    available = refl;
    touches = update_state-Touches (bare_state session_id logged_out reason) w.db;
    confined = update_state-IsConfined session_id (bare_state session_id logged_out reason) w.db;
    runtimes = λ j differ. runtime_of-drop_runtime session_id j w.runtimes differ;
  }
  handle_current-IsEffect session_id runtime (on_message event) w =
      let name = λ (row : Message).
        if is_outbound row.direction then "message.sent" else "message.received" in
      announce-IsEffect session_id none (save (incoming lib client session_id event))
        (λ row. emit_event client session_id (name row) (message_data row)) w
        (same
          (λ j. ap (find (has_id j)) (save-sessions (incoming lib client session_id event) w.db)))
        (save-IsConfined (incoming lib client session_id event) w.db)
        (λ row. emit_event-IsTold session_id (name row) (message_data row))
  handle_current-IsEffect session_id runtime (on_receipt kind ids timestamp) w =
      let status = resolve_receipt_status kind in
      let payload = status_data session_id ids status timestamp in
      announce-IsEffect session_id none (update_status session_id ids status)
        (λ _. emit_event client session_id "message.status_updated" payload) w
        (same (λ j. ap (find (has_id j)) (update_status-sessions session_id ids status w.db)))
        (update_status-IsConfined session_id ids status w.db)
        (λ _. emit_event-IsTold session_id "message.status_updated" payload)
  handle_current-IsEffect session_id runtime on_other w = record {
    answer = refl;
    sends = refl;
    available = refl;
    touches = same (λ j. refl);
    confined = IsConfined-refl session_id w.db;
    runtimes = λ j differ. refl;
  }

  -- The state that an event may give: none if the runtime is not the session's current one.
  abbrev pub state_if_current :
      String → Runtime → Event lib → World lib → Option UpdateSessionStateParams
  state_if_current session_id runtime event w =
      if is_current_runtime session_id runtime w then state_of session_id runtime event w else none

  abbrev pub told_if_current : String → Runtime → Event lib → World lib → List ℕ
  told_if_current session_id runtime event w =
      if is_current_runtime session_id runtime w
      then told runtime event w.presences
      else w.presences

  -- An event is handled without an error and without sending a message; if it is a connection of
  -- the session's current runtime, the client sends one presence, and else none. In the table
  -- `sessions` only the session's own row may change, and then to the state that the event gives,
  -- and only for the session's current runtime. The other sessions keep their messages and their
  -- runtimes, the webhooks and API keys stay as they are, nothing is POSTed, and the queue of
  -- deliveries at most grows.
  pub handle_event-IsEffect :
      (session_id : String) (runtime : Runtime) (event : Event lib) (w : World lib)
      → IsEffect session_id
          (state_if_current session_id runtime event w)
          (told_if_current session_id runtime event w)
          w
          (handle_event lib client session_id runtime event w)
  unfolding handle_event
  handle_event-IsEffect session_id runtime event w =
      elim (Bool-cases (is_current_runtime session_id runtime w)) [
        | inl current ↦ rw current (handle_current-IsEffect session_id runtime event w)
        | inr stale ↦ rw stale (record {
          answer = refl;
          sends = refl;
          available = refl;
          touches = same (λ j. refl);
          confined = IsConfined-refl session_id w.db;
          runtimes = λ j differ. refl;
        })
      ]
