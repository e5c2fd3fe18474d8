-- ===== src/Sessions/Channel/Frame.antt =====
-- The goroutine of a login changes no other session.
use interactive_whatsapp_meo.Base.{
  String, ◌≡◌, refl, ap, ◌∙◌, false, Option, none, some, List, [], ◌∷◌, arith, Error, Result-cases,
  Bool-cases, inl, inr, str_eq,
}
use interactive_whatsapp_meo.Store.Models.{qr, method_eq}
use interactive_whatsapp_meo.Store.Db.{Db}
use interactive_whatsapp_meo.Store.Table.{find}
use interactive_whatsapp_meo.Store.Sessions.{UpdateSessionStateParams, has_id, lookup, update_state}
use interactive_whatsapp_meo.Store.Sessions.Updates.{fault, missing, done, update_state-Updates}
use interactive_whatsapp_meo.Webhooks.Frame.{emit-OnlyQueues}
use interactive_whatsapp_meo.Whatsapp.Jid.{JidLib}
use interactive_whatsapp_meo.Sessions.World.{Runtime, qr_data, Client, World, emit_event, ◌>>=◌}
use interactive_whatsapp_meo.Sessions.Sending.Quiet.{bind_ok, bind_err}
use interactive_whatsapp_meo.Sessions.Events.{set_session_error}
use interactive_whatsapp_meo.Sessions.Channel.{
  QrChannelItem, item_code, item_timeout, item_error, item_other, code_state, consume_item,
  consume_qr_channel,
}

update_state-others :
    (params : UpdateSessionStateParams) (db : Db) (j : String)
    → str_eq params.session_id j ≡ false
    → lookup j (update_state params db).1 ≡ lookup j db
update_state-others params db j differ = elim (update_state-Updates params db) [
  | fault e broke answer keeps ↦ keeps j
  | missing went absent answer keeps ↦ keeps j
  | done row went found answer after ↦ ground (arith, after j, differ)
]

module _ {lib : JidLib} (client : Client lib) (session_id j : String)
    (differ : str_eq session_id j ≡ false) where
  set_session_error-others :
      (e : Option Error) (w : World lib)
      → lookup j (set_session_error session_id e w).1.db ≡ lookup j w.db
  unfolding set_session_error ◌>>=◌
  set_session_error-others none w = refl
  set_session_error-others (some e) w = update_state-others _ w.db j differ

  consume_item-others :
      (runtime : Runtime) (item : QrChannelItem) (w : World lib)
      → lookup j (consume_item client session_id runtime item w).1.db ≡ lookup j w.db
  unfolding consume_item emit_event ◌>>=◌
  consume_item-others runtime (item_code code) w =
      let params = code_state session_id runtime.login_method code w.db.now in
      let same = update_state-others params w.db j differ in
      let mid = (update_state params w.db).1 in
      elim (Result-cases (update_state params w.db).0) [
        | inr (e, failed) ↦ ground (arith, same)
        | inl (session, fine) ↦
            let payload = qr_data (record {
              session_id = session_id;
              qr_code = session.qr_code;
              expires_at = session.qr_expires_at;
            }) in
            let told =
              (emit-OnlyQueues client.marshal_envelope session_id "session.qr_updated" payload
                mid).sessions in
            elim (Bool-cases (method_eq runtime.login_method qr)) [
              | inl y ↦ ground (arith, same, ap (find (has_id j)) told)
              | inr n ↦ ground (arith, same)
            ]
      ]
  consume_item-others runtime item_timeout w = set_session_error-others _ w
  consume_item-others runtime (item_error e) w = set_session_error-others e w
  consume_item-others runtime item_other w = refl

-- Whatever the QR channel of a login yields, and wherever the database fails, no other session's
-- row changes.
pub consume_qr_channel-others :
    {lib : JidLib} (client : Client lib) (session_id j : String)
    → str_eq session_id j ≡ false
    → (runtime : Runtime) (items : List QrChannelItem) (w : World lib)
    → lookup j (consume_qr_channel client session_id runtime items w).1.db ≡ lookup j w.db
unfolding consume_qr_channel
consume_qr_channel-others client session_id j differ runtime [] w = refl
consume_qr_channel-others client session_id j differ runtime (item ∷ items) w =
    let first = consume_item client session_id runtime item in
    let rest = consume_qr_channel client session_id runtime items in
    let same = consume_item-others client session_id j differ runtime item w in
    elim (Result-cases (first w).0) [
      | inr (e, failed) ↦ ap (λ o. lookup j o.1.db) (bind_err first (λ _. rest) w e failed) ∙ same
      | inl (a, fine) ↦
          ap (λ o. lookup j o.1.db) (bind_ok first (λ _. rest) w a fine)
          ∙ consume_qr_channel-others client session_id j differ runtime items (first w).1
          ∙ same
    ]
