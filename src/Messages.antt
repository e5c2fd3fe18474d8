-- ===== src/Messages.antt =====
-- internal/messages/service.go: the message service, over the session manager and the messages.
use interactive_whatsapp_meo.Base.{ℕ, String, Option, List, wrap, map_error}
use interactive_whatsapp_meo.Base.Int.{ℤ}
use interactive_whatsapp_meo.Store.Models.{Message}
use interactive_whatsapp_meo.Store.Db.{Action, wrapping}
use interactive_whatsapp_meo.Store.Messages
use interactive_whatsapp_meo.Whatsapp.Jid.{JidLib}
use interactive_whatsapp_meo.Sessions.World.{Client, Method}
use interactive_whatsapp_meo.Sessions.Sending
use interactive_whatsapp_meo.Sessions.Sending.{SendResult}

pub record ListInput : Type 0 where
  pub session_id : String
  pub chat_jid : String
  pub limit : ℤ
  pub cursor : ℤ

-- A call of the sender, with its error wrapped.
abbrev pub wrapped : {lib : JidLib} → String → Method lib SendResult → Method lib SendResult
wrapped text m w = let (r, w') = m w in (map_error (wrap text) r, w')

module _ (lib : JidLib) (client : Client lib) where
  unfoldable pub send_text : String → String → String → Method lib SendResult
  send_text session_id to text =
      wrapped "send text" (Sending.send_text lib client session_id to text)

  unfoldable pub send_media :
      String → String → String → String → String → List ℕ → Method lib SendResult
  send_media session_id to caption file_name mime_type contents =
      wrapped "send media"
        (Sending.send_media lib client session_id to caption file_name mime_type contents)

  unfoldable pub reply : String → String → String → String → Method lib SendResult
  reply session_id chat_jid message_id text =
      wrapped "reply message" (Sending.reply lib client session_id chat_jid message_id text)

  unfoldable pub edit : String → String → String → String → Method lib SendResult
  edit session_id chat_jid message_id text =
      wrapped "edit message" (Sending.edit lib client session_id chat_jid message_id text)

unfoldable pub list : (String → Option String) → ListInput → Action (List Message)
list lid_map input = wrapping "list messages" (
    Messages.list lid_map (record {
      session_id = input.session_id;
      chat_jid = input.chat_jid;
      limit = input.limit;
      cursor = input.cursor;
    }))
