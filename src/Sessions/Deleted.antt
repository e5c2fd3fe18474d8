-- ===== src/Sessions/Deleted.antt =====
-- `DeleteSession`: what a deleted session can still do.
use interactive_whatsapp_meo.Base.{
  ℕ, String, ◌≡◌, refl, ap, sym, ◌∙◌, inl, inr, none, List, [], ◌∷◌, arith, Error, Result, ok, err,
  Option-cases,
}
use interactive_whatsapp_meo.Whatsapp.Jid.{JidLib}
use interactive_whatsapp_meo.Sessions.World.{Runtime, Client, World}
use interactive_whatsapp_meo.Sessions.Runtimes.{
  runtime_of, drop_runtime, is_current_runtime, disconnect_runtime, delete_session,
}
use interactive_whatsapp_meo.Sessions.Sending.{SendResult, send_text, send_media, reply, edit}
use interactive_whatsapp_meo.Sessions.Sending.Guarded.{
  Guarded, refused, through, send_text-Guarded, send_media-Guarded, reply-Guarded, edit-Guarded,
}
use interactive_whatsapp_meo.Sessions.Events.{Event, handle_event}

runtime_of-dropped :
    (session_id : String) (runtimes : List Runtime)
    → runtime_of session_id (drop_runtime session_id runtimes) ≡ none
runtime_of-dropped session_id [] = refl
runtime_of-dropped session_id (r ∷ rs) = ground (arith, runtime_of-dropped session_id rs)

module _ {lib : JidLib} where
  delete_session-runtime_of :
      (session_id : String) (w : World lib)
      → runtime_of session_id (delete_session session_id w).1.runtimes ≡ none
  unfolding delete_session disconnect_runtime
  delete_session-runtime_of session_id w = elim (Option-cases (runtime_of session_id w.runtimes)) [
    | inl absent ↦ ground arith
    | inr (runtime, there) ↦ ground (arith, runtime_of-dropped session_id w.runtimes)
  ]

  -- With no runtime for the session, nothing goes out.
  not_through :
      (client : Client lib) (session_id : String) (w : World lib)
      (out : Result SendResult × World lib)
      → runtime_of session_id w.runtimes ≡ none
      → Guarded client session_id w out
      → ((e : Error) × (out.0 ≡ err e)) × (out.1.sends ≡ w.sends)
  not_through client session_id w out gone (refused e failed same) = ((e, failed), same)
  not_through client session_id w out gone (through runtime s there connected by sent) =
      absurd (ground (arith, gone, there))

-- After `DeleteSession`, whatever it returned, the session sends nothing, as text, media, reply or
-- edit, and each of these is refused; and an event of any client that had served the session is
-- ignored: it changes nothing at all.
pub delete_session_silences :
    (lib : JidLib) (client : Client lib) (session_id : String) (w w' : World lib)
    → (delete_session session_id w).1 ≡ w'
    → ((runtime : Runtime) (event : Event lib)
        → handle_event lib client session_id runtime event w' ≡ (ok tt, w'))
      × ((to body : String)
          → ((e : Error) × ((send_text lib client session_id to body w').0 ≡ err e))
            × ((send_text lib client session_id to body w').1.sends ≡ w'.sends))
      × ((to caption file_name mime_type : String) (contents : List ℕ)
          → ((e : Error) × ((send_media lib client session_id to caption file_name mime_type
                  contents w').0
                ≡ err e))
            × ((send_media lib client session_id to caption file_name mime_type contents w').1.sends
                ≡ w'.sends))
      × ((chat_jid message_id body : String)
          → ((e : Error) × ((reply lib client session_id chat_jid message_id body w').0 ≡ err e))
            × ((reply lib client session_id chat_jid message_id body w').1.sends ≡ w'.sends))
      × ((chat_jid message_id body : String)
          → ((e : Error) × ((edit lib client session_id chat_jid message_id body w').0 ≡ err e))
            × ((edit lib client session_id chat_jid message_id body w').1.sends ≡ w'.sends))
unfolding handle_event is_current_runtime
delete_session_silences lib client session_id w w' after =
    let gone : runtime_of session_id w'.runtimes ≡ none =
      ap (λ v. runtime_of session_id v.runtimes) (sym after)
      ∙ delete_session-runtime_of session_id w in
    (
      λ runtime event. ground (arith, gone),
      λ to body.
          not_through client session_id w' _ gone
            (send_text-Guarded lib client session_id to body w'),
      λ to caption file_name mime_type contents.
          not_through client session_id w' _ gone
            (send_media-Guarded lib client session_id to caption file_name mime_type contents w'),
      λ chat_jid message_id body.
          not_through client session_id w' _ gone
            (reply-Guarded lib client session_id chat_jid message_id body w'),
      λ chat_jid message_id body.
          not_through client session_id w' _ gone
            (edit-Guarded lib client session_id chat_jid message_id body w'),
    )
