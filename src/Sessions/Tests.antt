-- ===== src/Sessions/Tests.antt =====
-- Runs of the session manager, and its theorems at a small world.
use mathlib.Core.Option
use interactive_whatsapp_meo.Base.{
  arith, String, ℕ, ◌≡◌, refl, Bool, true, none, some, List, [], ◌∷◌, Error, Result, ok, err, plain,
}
use interactive_whatsapp_meo.Base.Text.{◌++ₛ◌, is_empty, before_sep, trim_space}
use interactive_whatsapp_meo.Store.Models.{
  SessionRow, Session, qr, qr_ready, initializing, connected,
}
use interactive_whatsapp_meo.Store.Sessions.{lookup, scan_session, get, update_state}
use interactive_whatsapp_meo.Store.Db.{empty_db, sql}
use interactive_whatsapp_meo.Store.Table.{find}
use interactive_whatsapp_meo.Whatsapp.Jid.{JidLib}
use interactive_whatsapp_meo.Whatsapp.Message.{UploadResponse}
use interactive_whatsapp_meo.Sessions.World.{Runtime, OnWhatsApp, Client, World, ◌>>=◌, is_ready}
use interactive_whatsapp_meo.Sessions.Runtimes.{delete_session}
use interactive_whatsapp_meo.Sessions.Targets.{pick_target}
use interactive_whatsapp_meo.Sessions.Targets.Choice.{
  IsJidLib, exact, exists, jid_of, or_first, pick_target_lem,
}
use interactive_whatsapp_meo.Sessions.Sending.{send_text, send_media, reply, edit}
use interactive_whatsapp_meo.Sessions.Sending.Guarded.{
  Guarded, send_text-Guarded, send_media-Guarded, reply-Guarded, edit-Guarded,
}
use interactive_whatsapp_meo.Sessions.Events.{Event, on_disconnected, handle_event}
use interactive_whatsapp_meo.Sessions.Events.Isolation.{
  IsEffect, state_if_current, told_if_current, handle_event-IsEffect,
}
use interactive_whatsapp_meo.Sessions.Login.{
  CreateSessionInput, OpenQrSessionResult, qr_of, create_session, attach_runtime,
}
use interactive_whatsapp_meo.Sessions.Restart.{reconnect_session, open_qr_code}
use interactive_whatsapp_meo.Sessions.Login.Replaced.{reconnect_session_replaces}
use interactive_whatsapp_meo.Sessions.Login.Opened.{Opens, open_qr_code-Opens}
use interactive_whatsapp_meo.Sessions.Channel.{item_code, item_timeout, consume_qr_channel}
use interactive_whatsapp_meo.Sessions.Channel.Frame.{consume_qr_channel-others}
use interactive_whatsapp_meo.Sessions.Live.{IsLive}
use interactive_whatsapp_meo.Sessions.Live.Steps.{
  creates, sends_text, deletes, start, next, started, reach-IsLive,
}
use interactive_whatsapp_meo.Sessions.Deleted.{delete_session_silences}

-- A small library of JIDs: a user and a server.
abbrev pub jids : JidLib
jids = record {
  Jid = String × String;
  user = λ j. j.0;
  server = λ j. j.1;
  device = λ j. 0;
  new_jid = λ u s. (u, s);
  empty_jid = ("", "");
  is_empty_jid = λ j. is_empty j.1;
  to_non_ad = λ j. j;
  text = λ j. j.0;
  parse_jid = λ s. ok (before_sep b'@' s, "g.us");
  quoted = λ s. "\"" ++ₛ (s ++ₛ "\"");
}

abbrev jids-IsJidLib : IsJidLib jids
jids-IsJidLib = record { empty = refl; to_non_ad = λ jid. refl }

abbrev answer : String → Bool → OnWhatsApp jids
answer user is_in = record { jid = (user, "s.whatsapp.net"); is_in = is_in; verified_name = none }

abbrev upload_response : UploadResponse
upload_response = record {
  url = "";
  direct_path = "";
  media_key = "";
  file_enc_sha256 = "";
  file_sha256 = "";
  file_length = 0;
}

-- A client that is online and finds every number.
abbrev pub online : Client jids
online = record {
  is_connected = λ runtime call. true;
  store_id = λ runtime call. some ("551", "s.whatsapp.net");
  get_alt_jid = λ runtime call jid. err (plain "unknown");
  is_on_whats_app = λ runtime call phones. ok (answer "14155550123" true ∷ []);
  upload = λ runtime call contents kind. ok upload_response;
  send_message = λ runtime call target message. ok (record { id = "M1"; timestamp = 5 });
  pair_phone = λ runtime call phone. ok "ABCD-EFGH";
  wait_ready = λ runtime call. is_ready;
  get_device = λ call jid. ok true;
  delete_device = λ call jid. none;
  build_edit = λ jid id message. message;
  type_by_extension = λ extension. "";
  marshal = λ message. some "{}";
  marshal_envelope = λ envelope. ok "{}";
}

abbrev pub ana : SessionRow
ana = record {
  id = 1;
  session_id = "ana";
  name = "Ana";
  login_method = qr;
  phone = "+551";
  device_jid = some "551";
  status = connected;
  qr_code = none;
  qr_expires_at = none;
  last_error = "";
  created_at = 1;
  updated_at = 1;
  deleted_at = none;
}

abbrev runtime_one : Runtime
runtime_one = record { number = 1; session_id = "ana"; login_method = qr; ready = true }

abbrev pub one_session : World jids
one_session = record {
  db = record empty_db { sessions = ana ∷ [] };
  runtimes = runtime_one ∷ [];
  calls = 0;
  sends = [];
  disconnected = [];
  next_runtime = 2;
  launched = [];
  presences = [];
}

pick_target_lem_example :
    pick_target jids "551" ("", "") (answer "552" true ∷ answer "551" true ∷ [])
    ≡ Option.map (jid_of jids jids-IsJidLib "551") (
        or_first jids jids-IsJidLib "551"
          (find (exact jids jids-IsJidLib "551") (answer "552" true ∷ answer "551" true ∷ []))
          (find (exists jids jids-IsJidLib "551") (answer "552" true ∷ answer "551" true ∷ [])))
pick_target_lem_example =
    pick_target_lem jids jids-IsJidLib "551" (answer "552" true ∷ answer "551" true ∷ [])

send_text-Guarded_example :
    Guarded online "ana" one_session (send_text jids online "ana" "+14155550123" "hi" one_session)
send_text-Guarded_example = send_text-Guarded jids online "ana" "+14155550123" "hi" one_session

send_media-Guarded_example :
    Guarded online "ana" one_session
      (send_media jids online "ana" "+14155550123" "" "a.png" "image/png" (1 ∷ []) one_session)
send_media-Guarded_example =
    send_media-Guarded jids online "ana" "+14155550123" "" "a.png" "image/png" (1 ∷ []) one_session

reply-Guarded_example :
    Guarded online "ana" one_session (reply jids online "ana" "1@g.us" "M0" "hi" one_session)
reply-Guarded_example = reply-Guarded jids online "ana" "1@g.us" "M0" "hi" one_session

edit-Guarded_example :
    Guarded online "ana" one_session (edit jids online "ana" "1@g.us" "M0" "hi" one_session)
edit-Guarded_example = edit-Guarded jids online "ana" "1@g.us" "M0" "hi" one_session

handle_event-IsEffect_example :
    IsEffect jids online "ana"
      (state_if_current jids online "ana" runtime_one on_disconnected one_session)
      (told_if_current jids online "ana" runtime_one on_disconnected one_session)
      one_session
      (handle_event jids online "ana" runtime_one on_disconnected one_session)
handle_event-IsEffect_example =
    handle_event-IsEffect jids online "ana" runtime_one on_disconnected one_session

abbrev without_ana : World jids
unfolding delete_session
without_ana = (delete_session "ana" one_session).1

delete_session_silences_example :
    ((runtime : Runtime) (event : Event jids)
      → handle_event jids online "ana" runtime event without_ana ≡ (ok tt, without_ana))
    × ((to body : String)
        → ((e : Error) × ((send_text jids online "ana" to body without_ana).0 ≡ err e))
          × ((send_text jids online "ana" to body without_ana).1.sends ≡ without_ana.sends))
    × ((to caption file_name mime_type : String) (contents : List ℕ)
        → ((e : Error) × ((send_media jids online "ana" to caption file_name mime_type contents
                without_ana).0
              ≡ err e))
          × ((send_media jids online "ana" to caption file_name mime_type contents
                without_ana).1.sends
              ≡ without_ana.sends))
    × ((chat_jid message_id body : String)
        → ((e : Error) × ((reply jids online "ana" chat_jid message_id body without_ana).0 ≡ err e))
          × ((reply jids online "ana" chat_jid message_id body without_ana).1.sends
              ≡ without_ana.sends))
    × ((chat_jid message_id body : String)
        → ((e : Error) × ((edit jids online "ana" chat_jid message_id body without_ana).0 ≡ err e))
          × ((edit jids online "ana" chat_jid message_id body without_ana).1.sends
              ≡ without_ana.sends))
unfolding without_ana delete_session
delete_session_silences_example =
    delete_session_silences jids online "ana" one_session without_ana refl

-- What `ReconnectSession` leaves of the small world.
abbrev reconnected : Result Session × World jids
unfolding reconnect_session
reconnected = reconnect_session online "ana" one_session

abbrev ana_again : Session
ana_again = scan_session (record ana { status = initializing })

reconnect_session_replaces_example :
    handle_event jids online "ana" runtime_one on_disconnected reconnected.1
    ≡ (ok tt, reconnected.1)
unfolding reconnected reconnect_session ◌>>=◌ get sql attach_runtime update_state
reconnect_session_replaces_example =
    reconnect_session_replaces jids online "ana" one_session reconnected.1 ana_again refl
      runtime_one on_disconnected (omega arith)

-- A session that waits for its QR code to be scanned.
abbrev rui : SessionRow
rui = record ana {
  session_id = "rui";
  device_jid = none;
  status = qr_ready;
  qr_code = some "2@rui";
  qr_expires_at = some 9;
}

abbrev with_rui : World jids
with_rui = record one_session { db = record empty_db { sessions = ana ∷ rui ∷ [] } }

abbrev opened : Result OpenQrSessionResult × World jids
unfolding open_qr_code
opened = open_qr_code online "rui" with_rui

abbrev rui_qr : OpenQrSessionResult
rui_qr = record { session = scan_session rui; qr_code = some (qr_of (scan_session rui)) }

open_qr_code-Opens_example : Opens "rui" with_rui opened.1 rui_qr
unfolding opened open_qr_code ◌>>=◌ get sql trim_space
open_qr_code-Opens_example = open_qr_code-Opens jids online "rui" with_rui opened.1 rui_qr refl

consume_qr_channel-others_example :
    lookup "ana"
      (consume_qr_channel online "rui" runtime_one
        (item_code "2@new" ∷ item_timeout ∷ [])
        with_rui).1.db
    ≡ lookup "ana" with_rui.db
consume_qr_channel-others_example =
    consume_qr_channel-others online "rui" "ana" refl runtime_one
      (item_code "2@new" ∷ item_timeout ∷ []) with_rui

-- Ana logs in, a text is sent, and her session is deleted.
abbrev ana_input : CreateSessionInput
ana_input = record { session_id = "ana"; name = "Ana"; login_method = qr; phone = "" }

abbrev logged_in : World jids
unfolding create_session
logged_in = (create_session online ana_input (started empty_db)).1

reach-IsLive_example :
    IsLive (delete_session "ana" (send_text jids online "ana" "+14155550123" "hi" logged_in).1).1
unfolding logged_in create_session
reach-IsLive_example =
    reach-IsLive online empty_db
      (delete_session "ana" (send_text jids online "ana" "+14155550123" "hi" logged_in).1).1
      (next (next (next start (creates ana_input)) (sends_text "ana" "+14155550123" "hi"))
        (deletes "ana"))
