-- ===== src/Store/Messages/Saves.antt =====
-- `Save` of internal/store/message_repo.go: what the table holds after it.
use interactive_whatsapp_meo.Base.{
  ℕ, String, ◌≡◌, ◌≢◌, ◌⊎◌, refl, sym, ap, ◌∙◌, Bool, true, false, Option, none, some, List, [],
  ◌∷◌, ◌++◌, arith, ok, Bool-cases, Result-cases, Option-cases, inl, inr, map_if, is_some,
  if◌then◌else◌,
}
use mathlib.Core.Option
use mathlib.Core.Path.{subst}
use text.Mathlib.TextEquality.{eq_iff}
use interactive_whatsapp_meo.Store.Models.{Message}
use interactive_whatsapp_meo.Store.Db.{Db, take_turn, take_turn-IsTurn, sql_fault, sql_done}
use interactive_whatsapp_meo.Store.Table.{
  find, find-holds, find-map_if, find-append_none, find-append_some,
}
use interactive_whatsapp_meo.Store.Sessions.{has_id}
use interactive_whatsapp_meo.Store.Messages.{
  SaveMessageParams, is_message, inserted, overwritten, upsert_message, save,
}

-- The message with an external id, and what was asked to be saved of a message.
abbrev pub message_at : String → String → List Message → Option Message
message_at session_id external_id messages = find (is_message session_id external_id) messages

abbrev pub params_of : Message → SaveMessageParams
params_of m = record {
  session_id = m.session_id;
  external_message_id = m.external_message_id;
  chat_jid = m.chat_jid;
  sender_jid = m.sender_jid;
  direction = m.direction;
  message_type = m.message_type;
  text = m.text;
  media_mime_type = m.media_mime_type;
  media_file_name = m.media_file_name;
  status = m.status;
  payload = m.payload;
  message_timestamp = m.message_timestamp;
}

-- A message `m` was saved: the row with its key is `m`, which says what was asked; the row that was
-- there before lends it its id and its creation time, else it has a new id; no other row changed.
pub record Saves (params : SaveMessageParams) (next : ℕ) (before after : List Message) (m : Message)
    : Type 0 where
  pub saved : params_of m ≡ params
  pub found : message_at params.session_id params.external_message_id after ≡ some m
  pub kept :
      (old : Message)
      → message_at params.session_id params.external_message_id before ≡ some old
      → (m.id ≡ old.id) × (m.created_at ≡ old.created_at)
  pub fresh : message_at params.session_id params.external_message_id before ≡ none → m.id ≡ next
  pub others :
      (session_id external_id : String)
      → (session_id ≢ params.session_id) ⊎ (external_id ≢ params.external_message_id)
      → message_at session_id external_id after ≡ message_at session_id external_id before

find-append_miss :
    (p : Message → Bool) (xs : List Message) (x : Message)
    → p x ≡ false
    → find p (xs ++ x ∷ []) ≡ find p xs
find-append_miss p xs x miss = elim (Option-cases (find p xs)) [
  | inl gone ↦ find-append_none p xs (x ∷ []) gone ∙ rw miss (sym gone)
  | inr (y, there) ↦ find-append_some p xs (x ∷ []) y there ∙ sym there
]

-- The key of a row that passes the test, and the row that has the key.
is_message_lem :
    (session_id external_id : String) (x : Message)
    → is_message session_id external_id x ≡ true
    → (x.session_id ≡ session_id) × (x.external_message_id ≡ external_id)
is_message_lem session_id external_id x h =
    ground (arith, h, eq_iff x.session_id session_id, eq_iff x.external_message_id external_id)

is_message-key : (x : Message) → is_message x.session_id x.external_message_id x ≡ true
is_message-key x = ground (
  arith,
  (eq_iff x.session_id x.session_id).1 refl,
  (eq_iff x.external_message_id x.external_message_id).1 refl,
)

module _ (params : SaveMessageParams) where
  abbrev test : Message → Bool
  test = is_message params.session_id params.external_message_id

  -- Another key is another row.
  apart :
      (session_id external_id : String)
      → (session_id ≢ params.session_id) ⊎ (external_id ≢ params.external_message_id)
      → (x : Message) → is_message session_id external_id x ≡ true
      → test x ≡ false
  apart session_id external_id differs x holds = elim (Bool-cases (test x)) [
    | inr miss ↦ miss
    | inl hit ↦
        let mine = is_message_lem params.session_id params.external_message_id x hit in
        let theirs = is_message_lem session_id external_id x holds in
        elim differs [
          | inl no_session ↦ absurd (no_session (sym theirs.0 ∙ mine.0))
          | inr no_message ↦ absurd (no_message (sym theirs.1 ∙ mine.1))
        ]
  ]

  -- What a rewrite of the row with the key leaves of another.
  unmoved :
      (f : Message → Message) (session_id external_id : String)
      → (session_id ≢ params.session_id) ⊎ (external_id ≢ params.external_message_id)
      → (rows : List Message)
      → Option.map (λ x. if test x then f x else x) (message_at session_id external_id rows)
        ≡ message_at session_id external_id rows
  unmoved f session_id external_id differs rows =
      elim (Option-cases (message_at session_id external_id rows)) [
        | inl gone ↦ rw gone refl
        | inr (x, there) ↦
            let holds = find-holds (is_message session_id external_id) rows x there in
            rw there (rw (apart session_id external_id differs x holds) refl)
      ]

  overwritten-Saves :
      (next now : ℕ) (rows : List Message) (old : Message)
      → find test rows ≡ some old
      → Saves params next rows
          (map_if test (overwritten params now) rows)
          (overwritten params now old)
  overwritten-Saves next now rows old there =
      let holds = find-holds test rows old there in
      let keys = is_message_lem params.session_id params.external_message_id old holds in
      record {
        saved =
            ap
              (λ (k : String). record params {
                session_id = k;
                external_message_id = old.external_message_id;
              })
              keys.0
            ∙ ap (λ (k : String). record params { external_message_id = k }) keys.1;
        found =
            find-map_if test test (overwritten params now) (λ x h. refl) rows
            ∙ rw there (rw holds refl);
        kept = λ o h. ground (arith, h, there);
        fresh = λ h. absurd (ground (arith, h, there));
        others = λ s e differs.
            find-map_if (is_message s e) test (overwritten params now) (λ x h. refl) rows
            ∙ unmoved (overwritten params now) s e differs rows;
      }

  inserted-Saves :
      (next now : ℕ) (rows : List Message)
      → find test rows ≡ none
      → Saves params next rows (rows ++ inserted params next now ∷ []) (inserted params next now)
  inserted-Saves next now rows new = record {
    saved = refl;
    found = find-append_none test rows _ new ∙ rw (is_message-key (inserted params next now)) refl;
    kept = λ old h. absurd (ground (arith, h, new));
    fresh = λ h. refl;
    others = λ s e differs.
        find-append_miss (is_message s e) rows (inserted params next now)
          (elim (Bool-cases (is_message s e (inserted params next now))) [
            | inr miss ↦ miss
            | inl hit ↦ absurd (
                ground (
                  arith,
                  is_message-key (inserted params next now),
                  apart s e differs (inserted params next now) hit,
                ))
          ]);
  }

  upsert_message-Saves :
      (db : Db) (m : Message)
      → (upsert_message params db).0 ≡ ok m
      → Saves params db.next_message db.messages (upsert_message params db).1.messages m
  unfolding upsert_message
  upsert_message-Saves db m h = elim (Option-cases (find test db.messages)) [
    | inr (old, there) ↦
        let same : overwritten params db.now old ≡ m = ground (arith, h, there) in
        rw (upsert_message, there)
          (subst
            (Saves params db.next_message db.messages
              (map_if test (overwritten params db.now) db.messages))
            same (overwritten-Saves db.next_message db.now db.messages old there))
    | inl new ↦ elim (Bool-cases (is_some (find (has_id params.session_id) db.sessions))) [
      | inr lost ↦ absurd (ground (arith, h, new, lost))
      | inl known ↦
          let same : inserted params db.next_message db.now ≡ m = ground (arith, h, new, known) in
          rw (upsert_message, new, known)
            (subst
              (Saves params db.next_message db.messages
                (db.messages ++ inserted params db.next_message db.now ∷ []))
              same (inserted-Saves db.next_message db.now db.messages new))
    ]
  ]

  -- When `Save` returns a message, the table has it under its key, with all that was asked to be
  -- saved; a message that had the key keeps its id and its creation time, else the id is the next
  -- one; and the messages with other keys are what they were.
  pub save-Saves :
      (db : Db) (m : Message)
      → (save params db).0 ≡ ok m
      → Saves params db.next_message db.messages (save params db).1.messages m
  unfolding save
  save-Saves db m h = elim (Option-cases (take_turn db).0) [
    | inr (e, fault) ↦ absurd (ground (arith, h, sql_fault (upsert_message params) db e fault))
    | inl quiet ↦
        let turn = take_turn-IsTurn db in
        let went = sql_done (upsert_message params) db quiet in
        let answer : (upsert_message params (take_turn db).1).0 ≡ ok m =
          ground (arith, h, went, Result-cases (upsert_message params (take_turn db).1).0) in
        let out : (save params db).1.messages
            ≡ (upsert_message params (take_turn db).1).1.messages =
          ground (arith, went, answer) in
        subst (λ n. Saves params n db.messages (save params db).1.messages m) turn.next_message
          (subst (λ ms. Saves params (take_turn db).1.next_message ms (save params db).1.messages m)
            turn.messages
            (subst (λ ms. Saves params (take_turn db).1.next_message (take_turn db).1.messages ms m)
              (sym out) (upsert_message-Saves (take_turn db).1 m answer)))
  ]
