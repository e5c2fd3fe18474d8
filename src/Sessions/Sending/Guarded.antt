-- ===== src/Sessions/Sending/Guarded.antt =====
-- What the four send operations send: at most one message, and only through a connected runtime.
use interactive_whatsapp_meo.Base.{
  ℕ, String, ◌≡◌, refl, ap, ◌∙◌, ◌⊎◌, inl, inr, true, Option, none, some, List, [], ◌∷◌, ◌++◌,
  arith, Error, Result, ok, err, wrap, map_error, Result-cases, Bool-cases, Option-cases,
  if◌then◌else◌, sentinel, session_not_connected,
}
use interactive_whatsapp_meo.Base.Text.{is_empty, trim_space}
use interactive_whatsapp_meo.Store.Models.{Session}
use interactive_whatsapp_meo.Store.Sessions.{get}
use interactive_whatsapp_meo.Whatsapp.Jid.{JidLib, parse_target_jid, candidate_phones}
use interactive_whatsapp_meo.Whatsapp.Message.{
  Message, new_text_message, new_reply_message, build_media_message, must_parse_jid,
}
use interactive_whatsapp_meo.Sessions.World.{
  Runtime, message_data, SendResponse, Client, World, Send, Method, throw, ask, lift, ◌>>=◌,
}
use interactive_whatsapp_meo.Sessions.Runtimes.{runtime_of, require_connected}
use interactive_whatsapp_meo.Sessions.Targets.{
  preferred_direct_target, chosen, look_up, pick_target, resolve_preferred, resolve_direct_target,
}
use interactive_whatsapp_meo.Sessions.Sending.{
  SendResult, send_message, persist_outbound_message, send_and_persist, send_text, send_media,
  reply, edit,
}
use interactive_whatsapp_meo.Sessions.Sending.Quiet.{
  IsQuiet, SendsOne, emit_event-IsQuiet, throw-SendsOne, bind_ok, bind_err, bind-IsQuiet,
  bind-SendsOne, bind-SendsOne_then,
}

module _ (lib : JidLib) (client : Client lib) where
  open lib use {Jid, to_non_ad, user, empty_jid, server, device}

  chosen-IsQuiet : (target : Jid) (choice : Option Jid) → IsQuiet (chosen lib client target choice)
  chosen-IsQuiet target none = record { quiet = λ w. refl }
  chosen-IsQuiet target (some candidate) = record { quiet = λ w. refl }

  look_up-IsQuiet :
      (runtime : Runtime) (target : Jid) (phones : List String)
      → IsQuiet (look_up lib client runtime target phones)
  look_up-IsQuiet runtime target [] = record { quiet = λ w. refl }
  look_up-IsQuiet runtime target (c ∷ cs) =
      bind-IsQuiet _ _ (record { quiet = λ w. refl })
        (λ answer.
          bind-IsQuiet _ _ (record { quiet = λ w. refl })
            (λ results. chosen-IsQuiet target (pick_target lib (user target) empty_jid results)))

  preferred_direct_target-IsQuiet :
      (runtime : Runtime) (given : Jid) → IsQuiet (preferred_direct_target lib client runtime given)
  unfolding preferred_direct_target ◌>>=◌
  preferred_direct_target-IsQuiet runtime given = record { quiet = λ w. ground arith }

  resolve_preferred-IsQuiet :
      (runtime : Runtime) (target : Jid) → IsQuiet (resolve_preferred lib client runtime target)
  resolve_preferred-IsQuiet runtime target = record {
    quiet = λ w.
        ground (arith, (look_up-IsQuiet runtime target (candidate_phones (user target))).quiet w);
  }

  resolve_direct_target-IsQuiet :
      (runtime : Runtime) (given : Jid) → IsQuiet (resolve_direct_target lib client runtime given)
  unfolding resolve_direct_target
  resolve_direct_target-IsQuiet runtime given =
      bind-IsQuiet _ _ (preferred_direct_target-IsQuiet runtime given)
        (resolve_preferred-IsQuiet runtime)

  persist_outbound_message-IsQuiet :
      (session_id : String) (runtime : Runtime) (target : Jid) (response : SendResponse)
      (message : Message)
      → IsQuiet (persist_outbound_message lib client session_id runtime target response message)
  unfolding persist_outbound_message
  persist_outbound_message-IsQuiet session_id runtime target response message =
      bind-IsQuiet _ _ (record { quiet = λ w. refl })
        (λ now.
          bind-IsQuiet _ _ (record { quiet = λ w. refl })
            (λ id.
              bind-IsQuiet _ _ (record { quiet = λ w. refl })
                (λ saved.
                  bind-IsQuiet _ _
                    (emit_event-IsQuiet client session_id "message.sent" (message_data saved))
                    (λ _. record { quiet = λ w. refl }))))

  -- A message that goes out through a runtime.
  abbrev pub Through : Runtime → Send lib → Type 0
  Through runtime s = s.runtime ≡ runtime.number

  send_message_lem :
      (failure : String) (runtime : Runtime) (target : Jid) (message : Message) (w : World lib)
      → (s : Send lib) × Through runtime s
        × ((send_message lib client failure runtime target message w).1.sends ≡ w.sends ++ s ∷ [])
  unfolding send_message
  send_message_lem failure runtime target message w = (_, refl, refl)

  send_and_persist-SendsOne :
      (failure session_id : String) (runtime : Runtime) (target : Jid) (message : Message)
      → SendsOne
          (Through runtime)
          (send_and_persist lib client failure session_id runtime target message)
  send_and_persist-SendsOne failure session_id runtime target message =
      bind-SendsOne_then _ _ (Through runtime) (send_message_lem failure runtime target message)
        (λ response. persist_outbound_message-IsQuiet session_id runtime target response message)

  -- What follows the guard in each operation.
  module _ (runtime : Runtime) where
    resolved-SendsOne :
        {A : Type 0} (jid : Result Jid) (f : Jid → Method lib A)
        → ((target : Jid) → SendsOne (Through runtime) (f target))
        → SendsOne
            (Through runtime)
            (lift jid >>= λ parsed. resolve_direct_target lib client runtime parsed >>= f)
    resolved-SendsOne jid f h =
        bind-SendsOne _ _ (Through runtime) (record { quiet = λ w. refl })
          (λ parsed.
            bind-SendsOne _ _ (Through runtime) (resolve_direct_target-IsQuiet runtime parsed) h)

    texted-SendsOne :
        {A : Type 0} (body : String) (e : Error) (m : Method lib A)
        → SendsOne (Through runtime) m
        → SendsOne (Through runtime) (if is_empty (trim_space body) then throw e else m)
    texted-SendsOne body e m h = elim (Bool-cases (is_empty (trim_space body))) [
      | inl blank ↦ rw blank (throw-SendsOne (Through runtime) e)
      | inr fine ↦ rw fine h
    ]

-- How a send operation ends: an error, and nothing was sent; or exactly one message was sent,
-- through the runtime that the session had, which was connected when it was asked.
pub data Guarded {lib : JidLib} (client : Client lib) (session_id : String) (w : World lib)
    (out : Result SendResult × World lib) : Type 0 where
  refused : (e : Error) → out.0 ≡ err e → out.1.sends ≡ w.sends → Guarded client session_id w out
  through :
      (runtime : Runtime) (s : Send lib)
      → runtime_of session_id w.runtimes ≡ some runtime
      → client.is_connected runtime.number w.calls ≡ true
      → s.runtime ≡ runtime.number
      → out.1.sends ≡ w.sends ++ s ∷ []
      → Guarded client session_id w out

module _ (lib : JidLib) (client : Client lib) where
  open lib use {Jid}

  require_connected-cases :
      (session_id : String) (w : World lib)
      → ((require_connected client session_id w).1.sends ≡ w.sends)
        × (((e : Error) × ((require_connected client session_id w).0 ≡ err e))
            ⊎ ((runtime : Runtime) × (session : Session) × ((require_connected client session_id
                    w).0
                  ≡ ok (runtime, session))
                × (runtime_of session_id w.runtimes ≡ some runtime)
                × (client.is_connected runtime.number w.calls ≡ true)))
  unfolding require_connected ◌>>=◌
  require_connected-cases session_id w = elim (Result-cases (get session_id w.db).0) [
    | inr (e, failed) ↦ (ground arith, inl (e, ground arith))
    | inl (session, fine) ↦ elim (Option-cases (runtime_of session_id w.runtimes)) [
      | inl absent ↦ (ground arith, inl (sentinel session_not_connected, ground arith))
      | inr (runtime, there) ↦ elim (Bool-cases (client.is_connected runtime.number w.calls)) [
        | inl connected ↦ (ground arith, inr (runtime, session, ground arith, there, connected))
        | inr offline ↦ (ground arith, inl (sentinel session_not_connected, ground arith))
      ]
    ]
  ]

  -- An operation that starts with the guard.
  require_connected-Guarded :
      (session_id : String) (f : Runtime × Session → Method lib SendResult)
      → ((r : Runtime × Session) → SendsOne (Through lib client r.0) (f r))
      → (w : World lib)
      → Guarded client session_id w ((require_connected client session_id >>= f) w)
  require_connected-Guarded session_id f h w =
      let (same, answer) = require_connected-cases session_id w in
      let guard = require_connected client session_id in
      elim answer [
        | inl (e, failed) ↦
            let ends = bind_err guard f w e failed in
            refused e (ap (λ o. o.0) ends) (ap (λ o. o.1.sends) ends ∙ same)
        | inr (runtime, session, fine, there, connected) ↦
            let goes = bind_ok guard f w (runtime, session) fine in
            elim ((h (runtime, session)).one (guard w).1) [
              | inl (e, failed, none_sent) ↦
                  refused e (ap (λ o. o.0) goes ∙ failed)
                    (ap (λ o. o.1.sends) goes ∙ none_sent ∙ same)
              | inr (s, by, sent) ↦
                  through runtime s there connected by
                    (ap (λ o. o.1.sends) goes ∙ sent ∙ ap (λ l. l ++ s ∷ []) same)
            ]
      ]

  -- An answer that is only waited for.
  answered-SendsOne :
      {A : Type 0} (runtime : Runtime) (answer : ℕ → Result A) (failure : String)
      (f : A → Method lib SendResult)
      → ((a : A) → SendsOne (Through lib client runtime) (f a))
      → SendsOne
          (Through lib client runtime)
          (ask answer >>= λ r. lift (map_error (wrap failure) r) >>= f)
  answered-SendsOne runtime answer failure f h =
      bind-SendsOne _ _ (Through lib client runtime) (record { quiet = λ w. refl })
        (λ r. bind-SendsOne _ _ (Through lib client runtime) (record { quiet = λ w. refl }) h)

  -- `SendText` sends exactly one message or returns an error and sends none; it sends only through
  -- the runtime of the session, and only if that is connected.
  pub send_text-Guarded :
      (session_id to body : String) (w : World lib)
      → Guarded client session_id w (send_text lib client session_id to body w)
  unfolding send_text
  send_text-Guarded session_id to body = require_connected-Guarded session_id _ (λ r.
      texted-SendsOne lib client r.0 body _ _ (
        resolved-SendsOne lib client r.0 (parse_target_jid lib to) _ (λ target.
          send_and_persist-SendsOne lib client "send text message" r.1.session_id r.0 target
            (new_text_message body))))

  -- `SendMedia` sends exactly one message or returns an error and sends none; it sends only through
  -- the runtime of the session, and only if that is connected.
  pub send_media-Guarded :
      (session_id to caption file_name mime_type : String) (contents : List ℕ) (w : World lib)
      → Guarded client session_id w
          (send_media lib client session_id to caption file_name mime_type contents w)
  unfolding send_media
  send_media-Guarded session_id to caption file_name mime_type contents =
      require_connected-Guarded session_id _ (λ r.
        resolved-SendsOne lib client r.0 (parse_target_jid lib to) _ (λ target.
          answered-SendsOne r.0 _ "upload media" _ (λ upload.
            send_and_persist-SendsOne lib client "send media message" r.1.session_id r.0 target
              (build_media_message client.type_by_extension upload mime_type file_name
                caption).message)))

  -- `Reply` sends exactly one message or returns an error and sends none; it sends only through
  -- the runtime of the session, and only if that is connected.
  pub reply-Guarded :
      (session_id chat_jid message_id body : String) (w : World lib)
      → Guarded client session_id w (reply lib client session_id chat_jid message_id body w)
  unfolding reply
  reply-Guarded session_id chat_jid message_id body = require_connected-Guarded session_id _ (λ r.
      texted-SendsOne lib client r.0 body _ _ (
        bind-SendsOne _ _ (Through lib client r.0) (record { quiet = λ w. refl })
          (λ quoted. resolved-SendsOne lib client r.0 (must_parse_jid lib chat_jid) _ (λ target.
            send_and_persist-SendsOne lib client "reply to message" r.1.session_id r.0 target (
              new_reply_message body quoted.chat_jid quoted.sender_jid
                quoted.external_message_id)))))

  -- `Edit` sends exactly one message or returns an error and sends none; it sends only through
  -- the runtime of the session, and only if that is connected.
  pub edit-Guarded :
      (session_id chat_jid message_id body : String) (w : World lib)
      → Guarded client session_id w (edit lib client session_id chat_jid message_id body w)
  unfolding edit
  edit-Guarded session_id chat_jid message_id body = require_connected-Guarded session_id _ (λ r.
      texted-SendsOne lib client r.0 body _ _ (
        resolved-SendsOne lib client r.0 (must_parse_jid lib chat_jid) _ (λ target.
          bind-SendsOne_then _ _ (Through lib client r.0)
            (send_message_lem lib client "edit message" r.0 target
              (client.build_edit target message_id (new_text_message body)))
            (λ response.
              bind-IsQuiet _ _ (record { quiet = λ w. refl })
                (λ _.
                  persist_outbound_message-IsQuiet lib client r.1.session_id r.0 target response
                    (client.build_edit target message_id (new_text_message body)))))))
