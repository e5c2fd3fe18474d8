-- ===== src/Http/Sends.antt =====
-- What the handlers of internal/httpapi make the manager send.
use interactive_whatsapp_meo.Base.{
  ℕ, String, ◌≡◌, ◌≢◌, refl, Bool, true, false, Option, none, some, List, [], ◌∷◌, ◌++◌, arith,
  Error, Result, ok, err, wrap, if◌then◌else◌,
}
use interactive_whatsapp_meo.Store.Db.{Action}
use interactive_whatsapp_meo.Whatsapp.Jid.{JidLib}
use interactive_whatsapp_meo.Sessions.World.{Runtime, Client, World, Send, Method, on_db}
use interactive_whatsapp_meo.Sessions.Runtimes.{runtime_of}
use interactive_whatsapp_meo.Sessions.Sending
use interactive_whatsapp_meo.Sessions.Sending.{SendResult}
use interactive_whatsapp_meo.Sessions.Sending.Quiet.{IsQuiet}
use interactive_whatsapp_meo.Sessions.Sending.Guarded.{
  Guarded, refused, through, send_text-Guarded, send_media-Guarded, reply-Guarded, edit-Guarded,
}
use interactive_whatsapp_meo.Messages
use interactive_whatsapp_meo.Messages.{wrapped}
use interactive_whatsapp_meo.Http.Types.{Body, sent_body, Response, Handler}
use interactive_whatsapp_meo.Http.Responses.{
  write_error, domain_status, write_domain_error, respond, reading,
}

-- What a request sends: nothing, and then the status is not 200 if the route is one that sends; or
-- one message, through the connected runtime of a session, and only if the route is one that sends.
pub data Sends {lib : JidLib} (client : Client lib) (sending : Bool) (w : World lib)
    (out : Response × World lib) : Type 0 where
  nothing :
      (sending ≡ true → out.0.status ≢ 200) → out.1.sends ≡ w.sends → Sends client sending w out
  one :
      (session_id : String) (runtime : Runtime) (s : Send lib)
      → sending ≡ true
      → runtime_of session_id w.runtimes ≡ some runtime
      → client.is_connected runtime.number w.calls ≡ true
      → s.runtime ≡ runtime.number
      → out.1.sends ≡ w.sends ++ s ∷ []
      → Sends client sending w out

domain_status-not_ok : (e : Error) → domain_status e ≢ 200
unfolding domain_status
domain_status-not_ok e same = ground arith

-- The same of every run of a handler.
pub record SendingHandler {lib : JidLib} (client : Client lib) (sending : Bool) (h : Handler lib)
    : Type 0 where
  pub run : (w : World lib) → Sends client sending w (h w)

-- A route that does not send.
pub Sends-false :
    {lib : JidLib} (client : Client lib) (sending : Bool) (w : World lib)
    (out : Response × World lib)
    → sending ≡ false
    → Sends client sending w out
    → out.1.sends ≡ w.sends
Sends-false client sending w out silent (nothing _ same) = same
Sends-false client sending w out silent (one _ _ _ sends _ _ _ _) =
    absurd (ground (arith, silent, sends))

module _ {lib : JidLib} (client : Client lib) where
  -- A handler that calls a quiet method.
  pub responding :
      {A : Type 0} (status : ℕ) (body : A → Body) {m : Method lib A}
      → IsQuiet m
      → SendingHandler client false (respond status body m)
  responding status body h = record {
    run = λ w. nothing (λ never. absurd (ground (arith, never))) (h.quiet w);
  }

  -- A handler that only calls the database.
  pub storing :
      {A : Type 0} (status : ℕ) (body : A → Body) (m : Action A)
      → SendingHandler client false (respond status body (on_db m))
  storing status body m = responding status body (record { quiet = λ w. refl })

  -- A handler that answers by itself.
  pub answering : (answer : Response) → SendingHandler client false (λ w. (answer, w))
  answering answer = record { run = λ w. nothing (λ never. absurd (ground (arith, never))) refl }

  -- A failure before the service is called sends nothing.
  pub reading-SendingHandler :
      {A : Type 0} {sending : Bool} (r : Result A) {next : A → Handler lib}
      → ((a : A) → SendingHandler client sending (next a))
      → SendingHandler client sending (reading r next)
  reading-SendingHandler (ok a) h = h a
  reading-SendingHandler (err e) h = record {
    run = λ w. nothing (λ _ same. absurd (ground (arith, same))) refl;
  }

  -- An operation of the manager that sends, behind the message service.
  guarded-Sends :
      (text session_id : String) (m : Method lib SendResult) (w : World lib)
      → Guarded client session_id w (m w)
      → Sends client true w (respond 200 sent_body (wrapped text m) w)
  unfolding write_domain_error
  guarded-Sends text session_id m w (refused e failed same) =
      nothing (rw failed (λ _. domain_status-not_ok (wrap text e))) same
  guarded-Sends text session_id m w (through runtime s there connected by sent) =
      one session_id runtime s refl there connected by sent

  pub texting :
      (session_id to text : String)
      → SendingHandler client true
          (respond 200 sent_body (Messages.send_text lib client session_id to text))
  unfolding Messages.send_text
  texting session_id to text = record {
    run = λ w.
        guarded-Sends "send text" session_id (Sending.send_text lib client session_id to text) w
          (send_text-Guarded lib client session_id to text w);
  }

  pub sending_media :
      (session_id to caption file_name mime_type : String) (contents : List ℕ)
      → SendingHandler client true (
          respond 200 sent_body
            (Messages.send_media lib client session_id to caption file_name mime_type contents))
  unfolding Messages.send_media
  sending_media session_id to caption file_name mime_type contents = record {
    run = λ w.
        guarded-Sends "send media" session_id
          (Sending.send_media lib client session_id to caption file_name mime_type contents) w
          (send_media-Guarded lib client session_id to caption file_name mime_type contents w);
  }

  pub replying :
      (session_id chat_jid message_id text : String)
      → SendingHandler client true
          (respond 200 sent_body (Messages.reply lib client session_id chat_jid message_id text))
  unfolding Messages.reply
  replying session_id chat_jid message_id text = record {
    run = λ w.
        guarded-Sends "reply message" session_id
          (Sending.reply lib client session_id chat_jid message_id text) w
          (reply-Guarded lib client session_id chat_jid message_id text w);
  }

  pub editing :
      (session_id chat_jid message_id text : String)
      → SendingHandler client true
          (respond 200 sent_body (Messages.edit lib client session_id chat_jid message_id text))
  unfolding Messages.edit
  editing session_id chat_jid message_id text = record {
    run = λ w.
        guarded-Sends "edit message" session_id
          (Sending.edit lib client session_id chat_jid message_id text) w
          (edit-Guarded lib client session_id chat_jid message_id text w);
  }

  -- A handler that tests something first.
  pub if-SendingHandler :
      {sending : Bool} (b : Bool) {h k : Handler lib}
      → SendingHandler client sending h
      → SendingHandler client sending k
      → SendingHandler client sending (λ w. if b then h w else k w)
  if-SendingHandler true first second = first
  if-SendingHandler false first second = second

  pub failing-SendingHandler :
      {sending : Bool} (o : Option Error) {h : Handler lib}
      → SendingHandler client sending h
      → SendingHandler client sending (λ w. elim o [ some e ↦ (write_error 400 e, w) | none ↦ h w ])
  failing-SendingHandler none first = first
  failing-SendingHandler (some e) first = record {
    run = λ w. nothing (λ _ same. absurd (ground (arith, same))) refl;
  }
