-- ===== src/Http/Tests.antt =====
-- Runs of the HTTP interface, and its theorems at a small world.
use interactive_whatsapp_meo.Base.{
  [], String, ◌≡◌, refl, true, false, none, ok, err, plain, inl, str_eq, if◌then◌else◌,
}
use interactive_whatsapp_meo.Base.Int.{pos}
use interactive_whatsapp_meo.Base.Text.{trim_space, trim_left, trim_right, is_space}
use interactive_whatsapp_meo.Store.Db.{take_turn, sql}
use interactive_whatsapp_meo.Store.ApiKeys.{has_hash, bootstrap}
use interactive_whatsapp_meo.Store.Sessions.{scan_session, get}
use interactive_whatsapp_meo.Sessions.World.{World}
use interactive_whatsapp_meo.Sessions.Tests.{jids, online, ana, one_session}
use interactive_whatsapp_meo.Http.Types.{Request, Server}
use interactive_whatsapp_meo.Http.Handlers.{create_session_handler, send_text_handler}
use interactive_whatsapp_meo.Http.Routes
use interactive_whatsapp_meo.Http.Routes.{handle, serve}
use interactive_whatsapp_meo.Http.Guards.{asked, Served, serve-Served, bootstrap-serve}
use interactive_whatsapp_meo.Http.Sends.{Sends}
use interactive_whatsapp_meo.Http.Once.{serve-Sends}
use interactive_whatsapp_meo.Http.Refusals.{
  absent, send_text_handler-Refusal, create_session_handler-known,
}

abbrev pub server : Server jids
server = record {
  client = online;
  lid_map = λ user. none;
  text_before = λ a b. true;
  hash = λ key. key;
  parse_int = λ text. (pos 0, none);
}

abbrev field : String → String
field name =
    if str_eq name "sessionId"
    then "ana"
    else if str_eq name "to"
    then "+14155550123"
    else if str_eq name "loginMethod"
    then "qr"
    else "hi"

abbrev pub request : Request
request = record {
  api_key = "k ";
  query = λ name. "";
  url_param = λ name. "ana";
  decode = λ names. ok field;
  decode_webhook = err (plain "EOF");
  parse_form = none;
  form_file = err (plain "http: no such file");
  form_value = field;
}

-- The small world once the key is written.
abbrev with_key : World jids
unfolding bootstrap take_turn trim_space
with_key = record one_session { db = (bootstrap server.hash "k" one_session.db).1 }

serve-Served_example :
    Served server
      (handle server Routes.post_text request)
      request
      with_key
      (serve server Routes.post_text request with_key)
serve-Served_example = serve-Served server Routes.post_text request with_key refl

bootstrap-serve_example :
    serve server Routes.post_text request with_key
    ≡ handle server Routes.post_text request (asked server with_key)
unfolding with_key bootstrap sql take_turn trim_space trim_left trim_right is_space
bootstrap-serve_example =
    bootstrap-serve server "k" Routes.post_text request one_session with_key refl refl refl refl
      refl

serve-Sends_example :
    Sends online true with_key (serve server Routes.post_text request with_key)
    × (has_hash (server.hash (trim_space request.api_key)) with_key.db ≡ false
        → (serve server Routes.post_text request with_key).1.sends ≡ with_key.sends)
serve-Sends_example = serve-Sends server request Routes.post_text with_key

abbrev without_runtime : World jids
without_runtime = record one_session { runtimes = [] }

send_text_handler-Refusal_example :
    ((send_text_handler server request without_runtime).0.status ≡ 409)
    × ((send_text_handler server request without_runtime).1.sends ≡ without_runtime.sends)
unfolding get sql take_turn
send_text_handler-Refusal_example =
    send_text_handler-Refusal server request without_runtime field 409 refl
      (absent (scan_session ana) refl refl)

create_session_handler-known_example :
    ((create_session_handler server request one_session).0.status ≡ 409)
    × ((create_session_handler server request one_session).1
        ≡ record one_session { db = (get "ana" one_session.db).1 })
unfolding get sql take_turn trim_space trim_left trim_right is_space
create_session_handler-known_example =
    create_session_handler-known server request one_session field (scan_session ana) refl refl
      (inl refl) refl
