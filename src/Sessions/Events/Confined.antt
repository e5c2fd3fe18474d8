-- ===== src/Sessions/Events/Confined.antt =====
-- What a statement of the event handler leaves alone, outside the table `sessions`.
use text.Mathlib.TextEquality.{eq_iff}
use interactive_whatsapp_meo.Base.{
  String, ◌≡◌, refl, ap, ◌∙◌, Bool, true, false, none, some, List, [], ◌∷◌, ◌++◌, arith, str_eq,
  keep, map_if, IsPrefix, IsPrefix-refl, IsPrefix-trans, Bool-cases, Option-cases, inl, inr,
  is_some,
}
use interactive_whatsapp_meo.Store.Models.{Message, MessageStatus}
use interactive_whatsapp_meo.Store.Db.{Db, take_turn, take_turn-IsTurn}
use interactive_whatsapp_meo.Store.Table.{find}
use interactive_whatsapp_meo.Store.Sessions.{
  UpdateSessionStateParams, has_id, update_one, update_state,
}
use interactive_whatsapp_meo.Store.Messages.{
  SaveMessageParams, is_message, is_listed, inserted, overwritten, save, update_status,
}
use interactive_whatsapp_meo.Webhooks.Frame.{OnlyQueues}

-- The messages of a session.
abbrev pub messages_of : String → Db → List Message
messages_of j db = keep (λ m. str_eq m.session_id j) db.messages

-- The other sessions keep their messages; webhooks and API keys stay as they are, nothing is
-- POSTed, and the queue of deliveries at most grows.
pub record IsConfined (session_id : String) (db db' : Db) : Type 0 where
  pub messages : (j : String) → str_eq session_id j ≡ false → messages_of j db' ≡ messages_of j db
  pub webhooks : db'.webhooks ≡ db.webhooks
  pub api_keys : db'.api_keys ≡ db.api_keys
  pub posts : db'.posts ≡ db.posts
  pub deliveries : IsPrefix db.deliveries db'.deliveries

-- The tables but `sessions` and `messages`.
record IsSame (db db' : Db) : Type 0 where
  webhooks : db'.webhooks ≡ db.webhooks
  api_keys : db'.api_keys ≡ db.api_keys
  posts : db'.posts ≡ db.posts
  deliveries : db'.deliveries ≡ db.deliveries

IsSame-IsConfined :
    (session_id : String) (db db' : Db)
    → ((j : String) → str_eq session_id j ≡ false → messages_of j db' ≡ messages_of j db)
    → IsSame db db'
    → IsConfined session_id db db'
IsSame-IsConfined session_id db db' messages same = record {
  messages = messages;
  webhooks = same.webhooks;
  api_keys = same.api_keys;
  posts = same.posts;
  deliveries = rw same.deliveries (IsPrefix-refl db.deliveries);
}

pub IsConfined-refl : (session_id : String) (db : Db) → IsConfined session_id db db
IsConfined-refl session_id db = record {
  messages = λ j differ. refl;
  webhooks = refl;
  api_keys = refl;
  posts = refl;
  deliveries = IsPrefix-refl db.deliveries;
}

-- Then an event may be emitted.
pub IsConfined-emit :
    (session_id : String) (db mid db' : Db)
    → IsConfined session_id db mid
    → OnlyQueues mid db'
    → IsConfined session_id db db'
IsConfined-emit session_id db mid db' first next = record {
  messages =
      λ j differ. ap (keep (λ m. str_eq m.session_id j)) next.messages ∙ first.messages j differ;
  webhooks = next.webhooks ∙ first.webhooks;
  api_keys = next.api_keys ∙ first.api_keys;
  posts = next.posts ∙ first.posts;
  deliveries =
      IsPrefix-trans db.deliveries mid.deliveries db'.deliveries first.deliveries next.deliveries;
}

pub update_state-IsConfined :
    (session_id : String) (params : UpdateSessionStateParams) (db : Db)
    → IsConfined session_id db (update_state params db).1
unfolding update_state update_one
update_state-IsConfined session_id params db =
    IsSame-IsConfined session_id db (update_state params db).1
      (λ j differ. ap (keep (λ m. str_eq m.session_id j)) (ground (arith, take_turn-IsTurn db)))
      (record {
        webhooks = ground (arith, take_turn-IsTurn db);
        api_keys = ground (arith, take_turn-IsTurn db);
        posts = ground (arith, take_turn-IsTurn db);
        deliveries = ground (arith, take_turn-IsTurn db);
      })

-- A rewrite of messages of one session.
keep-map_if :
    (session_id j : String) (test : Message → Bool) (f : Message → Message)
    → ((m : Message) → test m ≡ true → str_eq m.session_id session_id ≡ true)
    → ((m : Message) → (f m).session_id ≡ m.session_id)
    → str_eq session_id j ≡ false
    → (ms : List Message)
    → keep (λ m. str_eq m.session_id j) (map_if test f ms) ≡ keep (λ m. str_eq m.session_id j) ms
keep-map_if session_id j test f of keeps differ [] = refl
keep-map_if session_id j test f of keeps differ (m ∷ ms) =
    let rest = keep-map_if session_id j test f of keeps differ ms in
    elim (Bool-cases (test m)) [
      | inr other ↦ rw other (ground (arith, rest))
      | inl its ↦
          let away : str_eq m.session_id j ≡ false = ground (
            arith,
            of m its,
            differ,
            eq_iff m.session_id session_id,
            eq_iff m.session_id j,
            eq_iff session_id j,
          ) in
          rw (its, keeps m, away) rest
    ]

keep-concat :
    (session_id j : String) (row : Message) (ms : List Message)
    → row.session_id ≡ session_id
    → str_eq session_id j ≡ false
    → keep (λ m. str_eq m.session_id j) (ms ++ row ∷ []) ≡ keep (λ m. str_eq m.session_id j) ms
keep-concat session_id j row [] its differ = rw (its, differ) refl
keep-concat session_id j row (m ∷ ms) its differ =
    ground (arith, keep-concat session_id j row ms its differ)

update_status-messages :
    (session_id : String) (id : String) (ids : List String) (status : MessageStatus) (db : Db)
    → (take_turn db).0 ≡ none
    → (update_status session_id (id ∷ ids) status db).1.messages
      ≡ map_if
          (is_listed session_id (id ∷ ids))
          (λ m. record m { status = status; updated_at = (take_turn db).1.now })
          db.messages
unfolding update_status
update_status-messages session_id id ids status db went = ground (arith, take_turn-IsTurn db)

update_status-fault :
    (session_id : String) (ids : List String) (status : MessageStatus) (db : Db)
    → is_some (take_turn db).0 ≡ true
    → (update_status session_id ids status db).1.messages ≡ db.messages
unfolding update_status
update_status-fault session_id [] status db broke = refl
update_status-fault session_id (id ∷ ids) status db broke = ground (arith, take_turn-IsTurn db)

update_status-IsSame :
    (session_id : String) (ids : List String) (status : MessageStatus) (db : Db)
    → IsSame db (update_status session_id ids status db).1
unfolding update_status
update_status-IsSame session_id [] status db = record {
  webhooks = refl;
  api_keys = refl;
  posts = refl;
  deliveries = refl;
}
update_status-IsSame session_id (id ∷ ids) status db = record {
  webhooks = ground (arith, take_turn-IsTurn db);
  api_keys = ground (arith, take_turn-IsTurn db);
  posts = ground (arith, take_turn-IsTurn db);
  deliveries = ground (arith, take_turn-IsTurn db);
}

pub update_status-IsConfined :
    (session_id : String) (ids : List String) (status : MessageStatus) (db : Db)
    → IsConfined session_id db (update_status session_id ids status db).1
unfolding update_status
update_status-IsConfined session_id [] status db = IsConfined-refl session_id db
update_status-IsConfined session_id (id ∷ ids) status db =
    IsSame-IsConfined session_id db (update_status session_id (id ∷ ids) status db).1
      (λ j differ. elim (Option-cases (take_turn db).0) [
        | inr (e, broke) ↦
            ap (keep (λ m. str_eq m.session_id j))
              (update_status-fault session_id (id ∷ ids) status db (ground arith))
        | inl went ↦
            ap (keep (λ m. str_eq m.session_id j))
              (update_status-messages session_id id ids status db went)
            ∙ keep-map_if session_id j (is_listed session_id (id ∷ ids)) _ (λ m its. ground arith)
                (λ m. refl) differ db.messages
      ])
      (update_status-IsSame session_id (id ∷ ids) status db)

save-IsSame : (params : SaveMessageParams) (db : Db) → IsSame db (save params db).1
unfolding save
save-IsSame params db = record {
  webhooks = ground (arith, take_turn-IsTurn db);
  api_keys = ground (arith, take_turn-IsTurn db);
  posts = ground (arith, take_turn-IsTurn db);
  deliveries = ground (arith, take_turn-IsTurn db);
}

module _ (params : SaveMessageParams) (db : Db) where
  abbrev known : Message → Bool
  known = is_message params.session_id params.external_message_id

  save_unchanged : is_some (take_turn db).0 ≡ true → (save params db).1.messages ≡ db.messages
  unfolding save
  save_unchanged broke = ground (arith, take_turn-IsTurn db)

  save_again :
      (m : Message)
      → (take_turn db).0 ≡ none
      → find known db.messages ≡ some m
      → (save params db).1.messages
        ≡ map_if known (overwritten params (take_turn db).1.now) db.messages
  unfolding save
  save_again m went found = ground (arith, take_turn-IsTurn db)

  save_refused :
      (take_turn db).0 ≡ none
      → find known db.messages ≡ none
      → is_some (find (has_id params.session_id) db.sessions) ≡ false
      → (save params db).1.messages ≡ db.messages
  unfolding save
  save_refused went absent stranger = ground (arith, take_turn-IsTurn db)

  save_new :
      (take_turn db).0 ≡ none
      → find known db.messages ≡ none
      → is_some (find (has_id params.session_id) db.sessions) ≡ true
      → (save params db).1.messages
        ≡ db.messages ++ inserted params (take_turn db).1.next_message (take_turn db).1.now ∷ []
  unfolding save
  save_new went absent there = ground (arith, take_turn-IsTurn db)

  save-messages_of :
      (j : String)
      → str_eq params.session_id j ≡ false
      → messages_of j (save params db).1 ≡ messages_of j db
  save-messages_of j differ =
      let its = keep (λ (m : Message). str_eq m.session_id j) in
      elim (Option-cases (take_turn db).0) [
        | inr (e, broke) ↦ ap its (save_unchanged (rw broke refl))
        | inl went ↦ elim (Option-cases (find known db.messages)) [
          | inr (m, found) ↦
              ap its (save_again m went found)
              ∙ keep-map_if params.session_id j known (overwritten params (take_turn db).1.now)
                  (λ m same. ground arith) (λ m. refl) differ db.messages
          | inl absent ↦ elim (Bool-cases (is_some (find (has_id params.session_id) db.sessions))) [
            | inr stranger ↦ ap its (save_refused went absent stranger)
            | inl there ↦
                ap its (save_new went absent there)
                ∙ keep-concat params.session_id j _ db.messages refl differ
          ]
        ]
      ]

  pub save-IsConfined : IsConfined params.session_id db (save params db).1
  save-IsConfined =
      IsSame-IsConfined params.session_id db (save params db).1 save-messages_of
        (save-IsSame params db)
