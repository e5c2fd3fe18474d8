-- ===== src/Sessions/Live/Steps.antt =====
-- Whatever happens to the manager of internal/session/manager.go: its operations, the events of its
-- clients and the goroutines of its logins, in any order and with any answers.
use interactive_whatsapp_meo.Base.{ℕ, ◌<◌, String, Option, List, [], Error}
use interactive_whatsapp_meo.Store.Db.{Db}
use interactive_whatsapp_meo.Whatsapp.Jid.{JidLib}
use interactive_whatsapp_meo.Sessions.World.{Runtime, Client, World}
use interactive_whatsapp_meo.Sessions.Runtimes.{delete_session, get_qr_code}
use interactive_whatsapp_meo.Sessions.Targets.{verify_number}
use interactive_whatsapp_meo.Sessions.Sending.{send_text, send_media, reply, edit}
use interactive_whatsapp_meo.Sessions.Sending.Kept.{
  send_text-Kept, send_media-Kept, reply-Kept, edit-Kept,
}
use interactive_whatsapp_meo.Sessions.Events.{Event, handle_event}
use interactive_whatsapp_meo.Sessions.Channel.{
  QrChannelItem, consume_qr_channel, start_pending_login, run_connect_existing,
}
use interactive_whatsapp_meo.Sessions.Login.{
  CreateSessionInput, generate_pair_code, create_session, close,
}
use interactive_whatsapp_meo.Sessions.Restart.{open_qr_code, reconnect_session, rehydrate}
use interactive_whatsapp_meo.Sessions.Login.Kept.{
  delete_session-Kept, get_qr_code-Kept, verify_number-Kept, generate_pair_code-Kept,
  create_session-Kept, open_qr_code-Kept, reconnect_session-Kept, rehydrate-Kept,
}
use interactive_whatsapp_meo.Sessions.Live.{IsLive, KeepsLive, KeepsLive-IsKept, send-KeepsLive}
use interactive_whatsapp_meo.Sessions.Live.Keys.{All-append, All-to_map}
use interactive_whatsapp_meo.Sessions.Live.Events.{
  handle_event-Live, consume_qr_channel-Live, start_pending_login-Live, run_connect_existing-Live,
}

-- One thing that happens. An event or a goroutine may belong to a runtime that is gone.
pub data Step {lib : JidLib} (client : Client lib) (w : World lib) : World lib → Type 0 where
  creates : (input : CreateSessionInput) → Step client w (create_session client input w).1
  opens : (session_id : String) → Step client w (open_qr_code client session_id w).1
  pairs :
      (session_id phone : String) → Step client w (generate_pair_code client session_id phone w).1
  reconnects : (session_id : String) → Step client w (reconnect_session client session_id w).1
  deletes : (session_id : String) → Step client w (delete_session session_id w).1
  asks_for_qr : (session_id : String) → Step client w (get_qr_code session_id w).1
  verifies :
      (session_id phone : String) → Step client w (verify_number lib client session_id phone w).1
  rehydrates : Step client w (rehydrate client w).1
  closes : Step client w (close w).1
  sends_text :
      (session_id to body : String) → Step client w (send_text lib client session_id to body w).1
  sends_media :
      (session_id to caption file_name mime_type : String) (contents : List ℕ)
      → Step client w (send_media lib client session_id to caption file_name mime_type contents w).1
  replies :
      (session_id chat_jid message_id body : String)
      → Step client w (reply lib client session_id chat_jid message_id body w).1
  edits :
      (session_id chat_jid message_id body : String)
      → Step client w (edit lib client session_id chat_jid message_id body w).1
  handles :
      (session_id : String) (runtime : Runtime) (event : Event lib)
      → Step client w (handle_event lib client session_id runtime event w).1
  consumes :
      (session_id : String) (runtime : Runtime) (items : List QrChannelItem)
      → Step client w (consume_qr_channel client session_id runtime items w).1
  logs_in :
      (session_id : String) (opening connecting : Option Error)
      → Step client w (start_pending_login client session_id opening connecting w).1
  connects :
      (session_id : String) (connecting : Option Error)
      → Step client w (run_connect_existing client session_id connecting w).1
  -- what the other parts of the server do to the database
  others : (db : Db) → Step client w (record w { db = db })

pub data Reach {lib : JidLib} (client : Client lib) (w : World lib) : World lib → Type 0 where
  start : Reach client w w
  next : {u v : World lib} → Reach client w u → Step client u v → Reach client w v

-- The manager when the process starts.
abbrev pub started : {lib : JidLib} → Db → World lib
started db = record {
  db = db;
  runtimes = [];
  calls = 0;
  sends = [];
  disconnected = [];
  next_runtime = 1;
  launched = [];
  presences = [];
}

module _ {lib : JidLib} (client : Client lib) where
  close-KeepsLive : (w : World lib) → KeepsLive w (close w).1
  unfolding close
  close-KeepsLive w h = record {
    sessions = tt;
    numbers = tt;
    given = tt;
    stopped =
        All-append (λ k. k < w.next_runtime) w.disconnected _ h.stopped
          (All-to_map (λ (r : Runtime). r.number) (λ k. k < w.next_runtime) w.runtimes h.given);
    live = tt;
  }

  step-KeepsLive : (w w' : World lib) → Step client w w' → KeepsLive w w'
  step-KeepsLive w _ (creates input) =
      (create_session-Kept KeepsLive KeepsLive-IsKept client input).kept w
  step-KeepsLive w _ (opens id) = (open_qr_code-Kept KeepsLive KeepsLive-IsKept client id).kept w
  step-KeepsLive w _ (pairs id phone) =
      (generate_pair_code-Kept KeepsLive KeepsLive-IsKept client id phone).kept w
  step-KeepsLive w _ (reconnects id) =
      (reconnect_session-Kept KeepsLive KeepsLive-IsKept client id).kept w
  step-KeepsLive w _ (deletes id) = (delete_session-Kept KeepsLive KeepsLive-IsKept id).kept w
  step-KeepsLive w _ (asks_for_qr id) = (get_qr_code-Kept KeepsLive KeepsLive-IsKept id).kept w
  step-KeepsLive w _ (verifies id phone) =
      (verify_number-Kept KeepsLive KeepsLive-IsKept client id phone).kept w
  step-KeepsLive w _ rehydrates = (rehydrate-Kept KeepsLive KeepsLive-IsKept client).kept w
  step-KeepsLive w _ closes = close-KeepsLive w
  step-KeepsLive w _ (sends_text id to body) =
      (send_text-Kept lib KeepsLive KeepsLive-IsKept send-KeepsLive client id to body).kept w
  step-KeepsLive w _ (sends_media id to caption file_name mime_type contents) =
      (send_media-Kept lib KeepsLive KeepsLive-IsKept send-KeepsLive client id to caption file_name
          mime_type contents).kept
        w
  step-KeepsLive w _ (replies id chat_jid message_id body) =
      (reply-Kept lib KeepsLive KeepsLive-IsKept send-KeepsLive client id chat_jid message_id
          body).kept
        w
  step-KeepsLive w _ (edits id chat_jid message_id body) =
      (edit-Kept lib KeepsLive KeepsLive-IsKept send-KeepsLive client id chat_jid message_id
          body).kept
        w
  step-KeepsLive w _ (handles id runtime event) = (handle_event-Live client id runtime event).kept w
  step-KeepsLive w _ (consumes id runtime items) =
      (consume_qr_channel-Live client id runtime items).kept w
  step-KeepsLive w _ (logs_in id opening connecting) =
      (start_pending_login-Live client id opening connecting).kept w
  step-KeepsLive w _ (connects id connecting) =
      (run_connect_existing-Live client id connecting).kept w
  step-KeepsLive w _ (others db) = KeepsLive-IsKept.frame w db w.calls w.launched

  -- Whatever operations, events and goroutines follow the start of the process, in any order: the
  -- map never has two runtimes of one session, nor two with one number; each number in it is one
  -- that was given to a runtime; and no runtime that has been disconnected is in it.
  pub reach-IsLive : (db : Db) (w : World lib) → Reach client (started db) w → IsLive w
  reach-IsLive db _ start = record {
    sessions = tt;
    numbers = tt;
    given = tt;
    stopped = tt;
    live = tt;
  }
  reach-IsLive db w (next before last) = step-KeepsLive _ w last (reach-IsLive db _ before)
