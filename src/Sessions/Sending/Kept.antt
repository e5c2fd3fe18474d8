-- ===== src/Sessions/Sending/Kept.antt =====
-- The four operations that send, for any relation between worlds that their steps keep.
use interactive_whatsapp_meo.Base.{
  ℕ, String, Option, none, some, List, [], ◌∷◌, not, ◌||◌, str_eq, ltb,
}
use interactive_whatsapp_meo.Base.Text.{is_empty, trim_space}
use interactive_whatsapp_meo.Whatsapp.Jid.{
  JidLib, default_user_server, hidden_user_server, candidate_phones,
}
use interactive_whatsapp_meo.Whatsapp.Message.{Message}
use interactive_whatsapp_meo.Sessions.World.{
  Runtime, SendResponse, Client, World, Send, EventData, emit_event, message_data,
}
use interactive_whatsapp_meo.Sessions.Targets.{
  preferred_direct_target, chosen, look_up, pick_target, resolve_direct_target,
}
use interactive_whatsapp_meo.Sessions.Sending.{
  send_message, persist_outbound_message, send_and_persist, send_text, send_media, reply, edit,
}
use interactive_whatsapp_meo.Sessions.Kept.{
  Kept, IsKept, bind-Kept, on_db-Kept, try_db-Kept, ask-Kept, lift-Kept, if-Kept,
}
use interactive_whatsapp_meo.Sessions.Login.Kept.{require_connected-Kept}

pub emit_event-Kept :
    {lib : JidLib} (R : World lib → World lib → Type 0) (laws : IsKept R) (client : Client lib)
    (session_id event_type : String) (payload : EventData)
    → Kept R (emit_event client session_id event_type payload)
unfolding emit_event
emit_event-Kept R laws client session_id event_type payload =
    try_db-Kept R laws _ (λ _. record { kept = λ w. laws.frame w _ _ _ })

module _ (lib : JidLib) (R : World lib → World lib → Type 0) (laws : IsKept R)
    (send : (w : World lib) (calls : ℕ) (sends : List (Send lib))
      → R w (record w { calls = calls; sends = sends }))
    (client : Client lib) where
  open lib use {Jid, user, server, device, to_non_ad, empty_jid}

  chosen-Kept : (target : Jid) (choice : Option Jid) → Kept R (chosen lib client target choice)
  chosen-Kept target none = record { kept = λ w. laws.frame w _ _ _ }
  chosen-Kept target (some candidate) = record { kept = λ w. laws.frame w _ _ _ }

  look_up-Kept :
      (runtime : Runtime) (target : Jid) (phones : List String)
      → Kept R (look_up lib client runtime target phones)
  look_up-Kept runtime target [] = record { kept = λ w. laws.frame w _ _ _ }
  look_up-Kept runtime target (c ∷ cs) = ask-Kept R laws _ (λ answer.
      lift-Kept R laws _
        (λ results. chosen-Kept target (pick_target lib (user target) empty_jid results)))

  preferred_direct_target-Kept :
      (runtime : Runtime) (given : Jid) → Kept R (preferred_direct_target lib client runtime given)
  unfolding preferred_direct_target
  preferred_direct_target-Kept runtime given =
      if-Kept R laws (str_eq (server (to_non_ad given)) hidden_user_server)
        (ask-Kept R laws _ (λ alt. record { kept = λ w. laws.frame w _ _ _ }))
        (record { kept = λ w. laws.frame w _ _ _ })

  resolve_direct_target-Kept :
      (runtime : Runtime) (given : Jid) → Kept R (resolve_direct_target lib client runtime given)
  unfolding resolve_direct_target
  resolve_direct_target-Kept runtime given =
      bind-Kept R laws _ _ (preferred_direct_target-Kept runtime given) (λ target.
        if-Kept R laws (not (str_eq (server target) default_user_server) || ltb 0 (device target))
          (record { kept = λ w. laws.frame w _ _ _ })
          (look_up-Kept runtime target (candidate_phones (user target))))

  send_message-Kept :
      (failure : String) (runtime : Runtime) (target : Jid) (message : Message)
      → Kept R (send_message lib client failure runtime target message)
  unfolding send_message
  send_message-Kept failure runtime target message = record { kept = λ w. send w _ _ }

  persist_outbound_message-Kept :
      (session_id : String) (runtime : Runtime) (target : Jid) (response : SendResponse)
      (message : Message)
      → Kept R (persist_outbound_message lib client session_id runtime target response message)
  unfolding persist_outbound_message
  persist_outbound_message-Kept session_id runtime target response message =
      on_db-Kept R laws _ (λ now. ask-Kept R laws _ (λ id. on_db-Kept R laws _ (λ saved.
        bind-Kept R laws _ _
          (emit_event-Kept R laws client session_id "message.sent" (message_data saved))
          (λ _. record { kept = λ w. laws.frame w _ _ _ }))))

  send_and_persist-Kept :
      (failure session_id : String) (runtime : Runtime) (target : Jid) (message : Message)
      → Kept R (send_and_persist lib client failure session_id runtime target message)
  send_and_persist-Kept failure session_id runtime target message =
      bind-Kept R laws _ _ (send_message-Kept failure runtime target message)
        (λ response. persist_outbound_message-Kept session_id runtime target response message)

  pub send_text-Kept :
      (session_id to body : String) → Kept R (send_text lib client session_id to body)
  unfolding send_text
  send_text-Kept session_id to body =
      bind-Kept R laws _ _ (require_connected-Kept R laws client session_id) (λ r.
        if-Kept R laws (is_empty (trim_space body)) (record { kept = λ w. laws.frame w _ _ _ })
          (lift-Kept R laws _ (λ parsed.
            bind-Kept R laws _ _ (resolve_direct_target-Kept r.0 parsed)
              (λ target. send_and_persist-Kept _ _ r.0 target _))))

  pub send_media-Kept :
      (session_id to caption file_name mime_type : String) (contents : List ℕ)
      → Kept R (send_media lib client session_id to caption file_name mime_type contents)
  unfolding send_media
  send_media-Kept session_id to caption file_name mime_type contents =
      bind-Kept R laws _ _ (require_connected-Kept R laws client session_id) (λ r.
        lift-Kept R laws _ (λ parsed.
          bind-Kept R laws _ _ (resolve_direct_target-Kept r.0 parsed) (λ target.
            ask-Kept R laws _
              (λ answer. lift-Kept R laws _ (λ upload. send_and_persist-Kept _ _ r.0 target _)))))

  pub reply-Kept :
      (session_id chat_jid message_id body : String)
      → Kept R (reply lib client session_id chat_jid message_id body)
  unfolding reply
  reply-Kept session_id chat_jid message_id body =
      bind-Kept R laws _ _ (require_connected-Kept R laws client session_id) (λ r.
        if-Kept R laws (is_empty (trim_space body)) (record { kept = λ w. laws.frame w _ _ _ })
          (on_db-Kept R laws _ (λ quoted. lift-Kept R laws _ (λ parsed.
            bind-Kept R laws _ _ (resolve_direct_target-Kept r.0 parsed)
              (λ target. send_and_persist-Kept _ _ r.0 target _)))))

  pub edit-Kept :
      (session_id chat_jid message_id body : String)
      → Kept R (edit lib client session_id chat_jid message_id body)
  unfolding edit
  edit-Kept session_id chat_jid message_id body =
      bind-Kept R laws _ _ (require_connected-Kept R laws client session_id) (λ r.
        if-Kept R laws (is_empty (trim_space body)) (record { kept = λ w. laws.frame w _ _ _ })
          (lift-Kept R laws _ (λ parsed.
            bind-Kept R laws _ _ (resolve_direct_target-Kept r.0 parsed) (λ target.
              bind-Kept R laws _ _ (send_message-Kept _ r.0 target _) (λ response.
                try_db-Kept R laws _
                  (λ _. persist_outbound_message-Kept _ r.0 target response _))))))
