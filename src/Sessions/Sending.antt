-- ===== src/Sessions/Sending.antt =====
-- `SendText`, `SendMedia`, `Reply`, `Edit` and `persistOutboundMessage` of
-- internal/session/manager.go.
pub mod Quiet
pub mod Guarded
pub mod Kept
use interactive_whatsapp_meo.Base.{
  ℕ, ◌+◌, String, Bool, true, false, not, Option, none, some, List, [], ◌∷◌, ◌++◌, Error, Result,
  ok, err, wrap, plain, map_error, ◌==◌, if◌then◌else◌,
}
use interactive_whatsapp_meo.Base.Text.{is_empty, trim_space}
use interactive_whatsapp_meo.Store.Models.{MessageStatus, outbound, sent, edited}
use interactive_whatsapp_meo.Store.Db.{Db, Action, time_now}
use interactive_whatsapp_meo.Store.Messages.{save, get_by_external_id, update_status}
use interactive_whatsapp_meo.Whatsapp.Jid.{JidLib, parse_target_jid}
use interactive_whatsapp_meo.Whatsapp.Message.{
  Message, new_text_message, new_reply_message, build_media_message, detect_media_type_from_mime,
  media_metadata, detect_message_type, extract_text, marshal_message, must_parse_jid,
}
use interactive_whatsapp_meo.Sessions.World.{
  Runtime, message_data, Client, World, SendResponse, Send, Method, pure, throw, on_db, try_db, ask,
  lift, emit_event, ◌>>=◌, ◌>>◌,
}
use interactive_whatsapp_meo.Sessions.Runtimes.{require_connected}
use interactive_whatsapp_meo.Sessions.Targets.{resolve_direct_target}

pub record SendResult : Type 0 where
  pub session_id : String
  pub message_id : String
  pub chat_jid : String
  pub recipient : String
  pub sender_jid : String
  pub message_type : String
  pub status : MessageStatus

module _ (lib : JidLib) (client : Client lib) where
  open lib use {Jid, to_non_ad, text}

  -- `client.SendMessage`, with its error wrapped: the call is made whatever it answers.
  unfoldable pub send_message : String → Runtime → Jid → Message → Method lib SendResponse
  send_message failure runtime target message w = (
    map_error (wrap failure) (client.send_message runtime.number w.calls target message),
    record w {
      calls = w.calls + 1;
      sends =
          w.sends ++ record { runtime = runtime.number; target = target; message = message } ∷ [];
    },
  )

  unfoldable pub persist_outbound_message :
      String → Runtime → Jid → SendResponse → Message → Method lib SendResult
  persist_outbound_message session_id runtime target response message = do
    now ← on_db time_now
    id ← ask (client.store_id runtime.number)
    let (mime_type, file_name) = media_metadata (some message)
    saved ← on_db (λ db.
        let (answer, db') =
          save
            (record {
              session_id = session_id;
              external_message_id = response.id;
              chat_jid = text target;
              sender_jid = elim id [ none ↦ "" | some jid ↦ text (to_non_ad jid) ];
              direction = outbound;
              message_type = detect_message_type (some message);
              text = extract_text (some message);
              media_mime_type = mime_type;
              media_file_name = file_name;
              status = sent;
              payload = marshal_message client.marshal (some message);
              message_timestamp = if response.timestamp == 0 then now else response.timestamp;
            })
            db in
        (map_error (wrap "save outbound message") answer, db'))
    emit_event client session_id "message.sent" (message_data saved)
    pure (record {
      session_id = session_id;
      message_id = saved.external_message_id;
      chat_jid = saved.chat_jid;
      recipient = text target;
      sender_jid = saved.sender_jid;
      message_type = saved.message_type;
      status = saved.status;
    })

  -- The end that the four operations share.
  abbrev pub send_and_persist : String → String → Runtime → Jid → Message → Method lib SendResult
  send_and_persist failure session_id runtime target message = do
    response ← send_message failure runtime target message
    persist_outbound_message session_id runtime target response message

  unfoldable pub send_text : String → String → String → Method lib SendResult
  send_text session_id to body = do
    (runtime, session) ← require_connected client session_id
    if is_empty (trim_space body) then throw (plain "text is required") else (do
      parsed ← lift (parse_target_jid lib to)
      target ← resolve_direct_target lib client runtime parsed
      send_and_persist "send text message" session.session_id runtime target
          (new_text_message body))

  unfoldable pub send_media :
      String → String → String → String → String → List ℕ → Method lib SendResult
  send_media session_id to caption file_name mime_type contents = do
    (runtime, session) ← require_connected client session_id
    parsed ← lift (parse_target_jid lib to)
    target ← resolve_direct_target lib client runtime parsed
    answer ←
        ask (λ call.
          client.upload runtime.number call contents (detect_media_type_from_mime mime_type))
    upload ← lift (map_error (wrap "upload media") answer)
    send_and_persist "send media message" session.session_id runtime target
        (build_media_message client.type_by_extension upload mime_type file_name caption).message

  unfoldable pub reply : String → String → String → String → Method lib SendResult
  reply session_id chat_jid message_id body = do
    (runtime, session) ← require_connected client session_id
    if is_empty (trim_space body) then throw (plain "text is required") else (do
      quoted ← on_db (get_by_external_id session_id message_id)
      parsed ← lift (must_parse_jid lib chat_jid)
      target ← resolve_direct_target lib client runtime parsed
      send_and_persist "reply to message" session.session_id runtime target
          (new_reply_message body quoted.chat_jid quoted.sender_jid quoted.external_message_id))

  unfoldable pub edit : String → String → String → String → Method lib SendResult
  edit session_id chat_jid message_id body = do
    (runtime, session) ← require_connected client session_id
    if is_empty (trim_space body) then throw (plain "text is required") else (do
      parsed ← lift (must_parse_jid lib chat_jid)
      target ← resolve_direct_target lib client runtime parsed
      let message = client.build_edit target message_id (new_text_message body)
      response ← send_message "edit message" runtime target message
      try_db (update_status session_id (message_id ∷ []) edited)
      persist_outbound_message session.session_id runtime target response message)
