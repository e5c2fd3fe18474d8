-- ===== src/Sessions/Sending/Quiet.antt =====
-- Calls of the manager that send nothing, and how many messages a call sends.
use interactive_whatsapp_meo.Base.{
  String, ◌≡◌, refl, ap, ◌∙◌, ◌⊎◌, inl, inr, [], ◌∷◌, ◌++◌, arith, Error, ok, err, Result-cases,
}
use interactive_whatsapp_meo.Whatsapp.Jid.{JidLib}
use interactive_whatsapp_meo.Sessions.World.{
  Client, World, Send, Method, EventData, throw, emit_event, ◌>>=◌,
}

module _ {lib : JidLib} {A : Type 0} where
  -- Nothing is sent.
  pub record IsQuiet (m : Method lib A) : Type 0 where
    pub quiet : (w : World lib) → (m w).1.sends ≡ w.sends

  -- An error and nothing sent, or one message sent that satisfies a predicate.
  pub record SendsOne (P : Send lib → Type 0) (m : Method lib A) : Type 0 where
    pub one :
        (w : World lib)
        → ((e : Error) × ((m w).0 ≡ err e) × ((m w).1.sends ≡ w.sends))
          ⊎ ((s : Send lib) × P s × ((m w).1.sends ≡ w.sends ++ s ∷ []))

  pub throw-SendsOne : (P : Send lib → Type 0) (e : Error) → SendsOne P (throw e)
  throw-SendsOne P e = record { one = λ w. inl (e, refl, refl) }

module _ {lib : JidLib} {A B : Type 0} (m : Method lib A) (f : A → Method lib B) where
  pub bind_ok : (w : World lib) (a : A) → (m w).0 ≡ ok a → (m >>= f) w ≡ f a (m w).1
  unfolding ◌>>=◌
  bind_ok w a h = ground arith

  pub bind_err : (w : World lib) (e : Error) → (m w).0 ≡ err e → (m >>= f) w ≡ (err e, (m w).1)
  unfolding ◌>>=◌
  bind_err w e h = ground arith

  pub bind-IsQuiet : IsQuiet m → ((a : A) → IsQuiet (f a)) → IsQuiet (m >>= f)
  bind-IsQuiet first next = record {
    quiet = λ w. elim (Result-cases (m w).0) [
      | inl (a, fine) ↦ rw (bind_ok w a fine) ((next a).quiet (m w).1 ∙ first.quiet w)
      | inr (e, failed) ↦ rw (bind_err w e failed) (first.quiet w)
    ];
  }

  pub bind-SendsOne :
      (P : Send lib → Type 0) → IsQuiet m → ((a : A) → SendsOne P (f a)) → SendsOne P (m >>= f)
  bind-SendsOne P first next = record {
    one = λ w. elim (Result-cases (m w).0) [
      | inr (e, failed) ↦ rw (bind_err w e failed) (inl (e, refl, first.quiet w))
      | inl (a, fine) ↦ rw (bind_ok w a fine) (elim ((next a).one (m w).1) [
        | inl (e, failed, none_sent) ↦ inl (e, failed, none_sent ∙ first.quiet w)
        | inr (s, h, sent) ↦ inr (s, h, sent ∙ ap (λ l. l ++ s ∷ []) (first.quiet w))
      ])
    ];
  }

  -- A method that sends one message even if it then fails, before one that sends none.
  pub bind-SendsOne_then :
      (P : Send lib → Type 0)
      → ((w : World lib) → (s : Send lib) × P s × ((m w).1.sends ≡ w.sends ++ s ∷ []))
      → ((a : A) → IsQuiet (f a))
      → SendsOne P (m >>= f)
  bind-SendsOne_then P first next = record {
    one = λ w.
        let (s, h, sent) = first w in
        elim (Result-cases (m w).0) [
          | inr (e, failed) ↦ rw (bind_err w e failed) (inr (s, h, sent))
          | inl (a, fine) ↦ rw (bind_ok w a fine) (inr (s, h, (next a).quiet (m w).1 ∙ sent))
        ];
  }

pub emit_event-IsQuiet :
    {lib : JidLib} (client : Client lib) (session_id event_type : String) (payload : EventData)
    → IsQuiet (emit_event client session_id event_type payload)
unfolding emit_event ◌>>=◌
emit_event-IsQuiet client session_id event_type payload = record { quiet = λ w. refl }
