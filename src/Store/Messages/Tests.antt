-- ===== src/Store/Messages/Tests.antt =====
-- Runs of the message repository, and its theorems at a small database.
use interactive_whatsapp_meo.Base.{ℕ, arith, String, Option, ◌≡◌, refl, some, [], ◌∷◌, ok, take}
use interactive_whatsapp_meo.Base.Int.{pos}
use interactive_whatsapp_meo.Base.Text.{trim_space}
use interactive_whatsapp_meo.Store.Models.{Message, inbound, received}
use interactive_whatsapp_meo.Store.Db.{Db, empty_db, take_turn}
use interactive_whatsapp_meo.Store.Messages.{
  SaveMessageParams, ListMessagesParams, inserted, overwritten, page_limit, list, save,
}
use interactive_whatsapp_meo.Store.Messages.Saves.{Saves, save-Saves}
use interactive_whatsapp_meo.Store.Messages.Pages.{IsPage, after, list-IsPage, list_continues}

abbrev pub hello : SaveMessageParams
hello = record {
  session_id = "ana";
  external_message_id = "A";
  chat_jid = "551@s.whatsapp.net";
  sender_jid = "551@s.whatsapp.net";
  direction = inbound;
  message_type = "text";
  text = "hello";
  media_mime_type = "";
  media_file_name = "";
  status = received;
  payload = "{}";
  message_timestamp = 1;
}

abbrev pub message : ℕ → Message
message n = inserted hello n 1

abbrev pub three_messages : Db
three_messages = record empty_db {
  messages = message 1 ∷ message 2 ∷ message 3 ∷ [];
  next_message = 4;
}

-- A hidden user whose phone number is known.
abbrev known : String → Option String
known user = some "551"

abbrev of_ana : ListMessagesParams
of_ana = record { session_id = "ana"; chat_jid = ""; limit = pos 0; cursor = pos 0 }

list-IsPage_example : IsPage known of_ana (message 3 ∷ message 2 ∷ message 1 ∷ [])
unfolding list take_turn page_limit trim_space
list-IsPage_example =
    list-IsPage known of_ana three_messages (message 3 ∷ message 2 ∷ message 1 ∷ []) refl

list_continues_example :
    (list known (after of_ana (message 3)) three_messages).0
    ≡ ok (take (page_limit of_ana.limit) (message 2 ∷ message 1 ∷ []))
unfolding list take_turn page_limit trim_space
list_continues_example =
    list_continues known of_ana three_messages [] (message 3) (message 2 ∷ message 1 ∷ [])
      (
        ((λ e. omega (arith, e)), ((λ e. omega (arith, e)), tt)),
        (((λ e. omega (arith, e)), tt), (tt, tt)),
      )
      (omega arith) refl refl

-- The first message is saved again, now with another text.
abbrev hello_again : SaveMessageParams
hello_again = record hello { text = "hello again" }

abbrev saved_again : Message
saved_again = overwritten hello_again 1 (message 1)

abbrev one_message : Db
one_message = record empty_db { messages = message 1 ∷ []; next_message = 2 }

save-Saves_example :
    Saves hello_again 2 (message 1 ∷ []) (save hello_again one_message).1.messages saved_again
unfolding save take_turn
save-Saves_example = save-Saves hello_again one_message saved_again refl
