-- ===== src/Sessions/Live/Events.antt =====
-- The map of runtimes under the events of a client and the goroutines of a login.
use interactive_whatsapp_meo.Base.{
  ◌<◌, String, ◌≢◌, refl, true, Option, none, some, List, [], ◌∷◌, Error, Result, ok, err, All,
  All-map_if, ◌==◌, Bool-cases, inl, inr, if◌then◌else◌,
}
use interactive_whatsapp_meo.Store.Models
use interactive_whatsapp_meo.Store.Models.{Session, qr, method_eq, is_outbound}
use interactive_whatsapp_meo.Store.Table.{map-map_if}
use interactive_whatsapp_meo.Whatsapp.Jid.{JidLib}
use interactive_whatsapp_meo.Sessions.World.{
  Runtime, Client, Method, EventData, session_data, message_data, pure, emit_event,
}
use interactive_whatsapp_meo.Sessions.Runtimes.{is_current_runtime}
use interactive_whatsapp_meo.Sessions.Events.{
  Event, on_connected, on_disconnected, on_logged_out, on_message, on_receipt, on_other,
  set_session_error, send_presence, persist_incoming_event, handle_current, handle_event,
}
use interactive_whatsapp_meo.Sessions.Channel.{
  QrChannelItem, item_code, item_timeout, item_error, item_other, make_ready, announce_code,
  consume_item, consume_qr_channel, start_pending_login, run_connect_existing,
}
use interactive_whatsapp_meo.Sessions.Kept.{
  Kept, bind-Kept, on_db-Kept, try_db-Kept, ask-Kept, if-Kept,
}
use interactive_whatsapp_meo.Sessions.Sending.Kept.{emit_event-Kept}
use interactive_whatsapp_meo.Sessions.Live.{KeepsLive, drop-KeepsLive, KeepsLive-IsKept}

module _ {lib : JidLib} where
  -- A method that keeps the map in order.
  abbrev pub Live : {A : Type 0} → Method lib A → Type 0
  Live m = Kept KeepsLive m

  still : {A : Type 0} (a : A) → Live (pure a)
  still a = record { kept = λ w h. h }

  set_session_error-Live :
      (session_id : String) (e : Option Error) → Live (set_session_error session_id e)
  unfolding set_session_error
  set_session_error-Live session_id none = still tt
  set_session_error-Live session_id (some e) =
      try_db-Kept KeepsLive KeepsLive-IsKept _ (λ _. still tt)

  send_presence-Live : (runtime : Runtime) → Live (send_presence {lib = lib} runtime)
  unfolding send_presence
  send_presence-Live runtime = record {
    kept = λ w h. record {
      sessions = h.sessions;
      numbers = h.numbers;
      given = h.given;
      stopped = h.stopped;
      live = h.live;
    };
  }

module _ {lib : JidLib} (client : Client lib) where
  -- An answer of the database that is told to the webhooks, or dropped.
  telling :
      {A : Type 0} (session_id event_type : String) (payload : A → EventData) (r : Result A)
      → Live {lib = lib} {A = Unit {0}}
          (elim r [ err _ ↦ pure tt | ok a ↦ emit_event client session_id event_type (payload a) ])
  telling session_id event_type payload (err _) = still tt
  telling session_id event_type payload (ok a) =
      emit_event-Kept KeepsLive KeepsLive-IsKept client session_id event_type (payload a)

  handle_current-Live :
      (session_id : String) (runtime : Runtime) (event : Event lib)
      → Live (handle_current lib client session_id runtime event)
  unfolding handle_current persist_incoming_event
  handle_current-Live session_id runtime on_connected =
      bind-Kept KeepsLive KeepsLive-IsKept (send_presence runtime) _ (send_presence-Live runtime)
        (λ _. ask-Kept KeepsLive KeepsLive-IsKept _ (λ id.
          try_db-Kept KeepsLive KeepsLive-IsKept _
            (telling session_id "session.connected" session_data)))
  handle_current-Live session_id runtime on_disconnected =
      try_db-Kept KeepsLive KeepsLive-IsKept _
        (telling session_id "session.disconnected" session_data)
  handle_current-Live session_id runtime (on_logged_out reason) =
      try_db-Kept KeepsLive KeepsLive-IsKept _
        (λ _. record { kept = λ w. drop-KeepsLive session_id w })
  handle_current-Live session_id runtime (on_message event) =
      try_db-Kept KeepsLive KeepsLive-IsKept _ saved
    where
      saved :
          (r : Result Models.Message)
          → Live {lib = lib} {A = Unit {0}} (elim r [
            | err _ ↦ pure tt
            | ok row ↦
                emit_event client session_id
                  (if is_outbound row.direction then "message.sent" else "message.received")
                  (message_data row)
          ])
      saved (err _) = still tt
      saved (ok row) =
          emit_event-Kept KeepsLive KeepsLive-IsKept client session_id _ (message_data row)
  handle_current-Live session_id runtime (on_receipt kind message_ids timestamp) =
      try_db-Kept KeepsLive KeepsLive-IsKept _ (telling session_id "message.status_updated" _)
  handle_current-Live session_id runtime on_other = still tt

  pub handle_event-Live :
      (session_id : String) (runtime : Runtime) (event : Event lib)
      → Live (handle_event lib client session_id runtime event)
  unfolding handle_event
  handle_event-Live session_id runtime event = record {
    kept = λ w. elim (Bool-cases (is_current_runtime session_id runtime w)) [
      | inl current ↦
          rw (handle_event, current) ((handle_current-Live session_id runtime event).kept w)
      | inr old ↦ rw (handle_event, old) (λ h. h)
    ];
  }

  -- A runtime that becomes ready stays where it is.
  make_ready-Live : (runtime : Runtime) → Live (make_ready client runtime)
  make_ready-Live runtime = record {
    kept = λ w h. record {
      sessions =
          rw
            (map-map_if (λ (r : Runtime). r.session_id) (λ r. r.number == runtime.number)
              (λ r. record r { ready = true }) (λ r. refl) w.runtimes)
            h.sessions;
      numbers =
          rw
            (map-map_if (λ (r : Runtime). r.number) (λ r. r.number == runtime.number)
              (λ r. record r { ready = true }) (λ r. refl) w.runtimes)
            h.numbers;
      given =
          All-map_if (λ (r : Runtime). r.number < w.next_runtime)
            (λ (r : Runtime). r.number < w.next_runtime)
            (λ (r : Runtime). r.number == runtime.number) (λ r. record r { ready = true })
            (λ r _ below. below) (λ r _ below. below) w.runtimes h.given;
      stopped = h.stopped;
      live =
          All-map_if (λ (r : Runtime). All (λ k. k ≢ r.number) w.disconnected)
            (λ (r : Runtime). All (λ k. k ≢ r.number) w.disconnected)
            (λ (r : Runtime). r.number == runtime.number) (λ r. record r { ready = true })
            (λ r _ apart. apart) (λ r _ apart. apart) w.runtimes h.live;
    };
  }

  consume_item-Live :
      (session_id : String) (runtime : Runtime) (item : QrChannelItem)
      → Live (consume_item client session_id runtime item)
  unfolding consume_item
  consume_item-Live session_id runtime (item_code code) =
      bind-Kept KeepsLive KeepsLive-IsKept _ _ (make_ready-Live runtime) (λ _.
        on_db-Kept KeepsLive KeepsLive-IsKept _
          (λ now. try_db-Kept KeepsLive KeepsLive-IsKept _ announcing))
    where
      announcing :
          (r : Result Session)
          → Live {lib = lib} {A = Unit {0}} (elim r [
            | err _ ↦ pure tt
            | ok session ↦ announce_code client session_id runtime session
          ])
      announcing (err _) = still tt
      announcing (ok session) =
          if-Kept KeepsLive KeepsLive-IsKept (method_eq runtime.login_method qr)
            (emit_event-Kept KeepsLive KeepsLive-IsKept client session_id _ _) (still tt)
  consume_item-Live session_id runtime item_timeout = set_session_error-Live session_id _
  consume_item-Live session_id runtime (item_error e) = set_session_error-Live session_id e
  consume_item-Live session_id runtime item_other = still tt

  pub consume_qr_channel-Live :
      (session_id : String) (runtime : Runtime) (items : List QrChannelItem)
      → Live (consume_qr_channel client session_id runtime items)
  unfolding consume_qr_channel
  consume_qr_channel-Live session_id runtime [] = still tt
  consume_qr_channel-Live session_id runtime (item ∷ items) =
      bind-Kept KeepsLive KeepsLive-IsKept _ _ (consume_item-Live session_id runtime item)
        (λ _. consume_qr_channel-Live session_id runtime items)

  pub start_pending_login-Live :
      (session_id : String) (opening connecting : Option Error)
      → Live (start_pending_login client session_id opening connecting)
  unfolding start_pending_login
  start_pending_login-Live session_id (some e) connecting = set_session_error-Live session_id _
  start_pending_login-Live session_id none (some e) = set_session_error-Live session_id _
  start_pending_login-Live session_id none none = still tt

  pub run_connect_existing-Live :
      (session_id : String) (connecting : Option Error)
      → Live (run_connect_existing client session_id connecting)
  unfolding run_connect_existing
  run_connect_existing-Live session_id (some e) = set_session_error-Live session_id _
  run_connect_existing-Live session_id none = still tt
