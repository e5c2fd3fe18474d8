-- ===== src/Reads/Chats.antt =====
-- `ListChats`: one entry for each chat of a session, with its last message.
pub mod Latest
use text.Mathlib.TextEquality.{eq_iff}
use mathlib.Core.Path.{subst}
use interactive_whatsapp_meo.Base.{
  ℕ, ◌≤◌, ◌≡◌, ◌≢◌, ◌⊎◌, refl, sym, ap, ◌∙◌, String, Bool, Option, none, some, List, [], ◌∷◌, arith,
  inl, inr, Bool-cases, Option-cases, map, keep, str_eq, length, length-sort_by, sort_by, insert_by,
  All, All-sort_by, All-insert_by, IsDistinct, ok,
}
use interactive_whatsapp_meo.Base.Text.{is_empty, trim_space}
use interactive_whatsapp_meo.Base.Order.{IsDescending, sort_by-descends}
use interactive_whatsapp_meo.Store.Models.{Message}
use interactive_whatsapp_meo.Store.Db.{Db, take_turn, take_turn-IsTurn}
use interactive_whatsapp_meo.Reads.Models.{ChatSummary}
use interactive_whatsapp_meo.Reads.Groups.{
  distinct, group, sum_by, sum_by-sort_by, distinct-IsDistinct, keys_cover, sum_of_groups,
}
use interactive_whatsapp_meo.Reads.Queries.{preview, latest_first, latest}
use interactive_whatsapp_meo.Reads.Canonical.{
  chat_of, chat_summaries, latest_chat_first, list_chats,
}
use interactive_whatsapp_meo.Reads.Chats.Latest.{
  timestamp, Among, Among-insert_by, Among-sort_by, All-sort_by_inv, sorted-latest_first,
  latest-cases,
}

-- What an entry says of its chat: how many messages it has, which is the last, and that none is
-- later.
pub record IsEntry (lid_map : String → Option String) (rows : List Message) (c : ChatSummary)
    : Type 0 where
  pub count : c.message_count ≡ length (group str_eq (chat_of lid_map) c.chat_jid rows)
  pub last : Message
  pub is_in_chat : Among last (group str_eq (chat_of lid_map) c.chat_jid rows)
  pub is_last :
      All (λ r. timestamp r ≤ timestamp last) (group str_eq (chat_of lid_map) c.chat_jid rows)
  pub last_message_id : c.last_message_id ≡ last.external_message_id
  pub last_message_text : c.last_message_text ≡ preview last
  pub last_message_at : c.last_message_at ≡ timestamp last

module _ (lid_map : String → Option String) (session_id : String) (rows : List Message) where
  abbrev pub in_chat : String → List Message
  in_chat jid = group str_eq (chat_of lid_map) jid rows

  abbrev summaries_of : List String → List ChatSummary
  summaries_of jids = chat_summaries lid_map session_id rows jids

  chat_summary_none :
      (jid : String) (jids : List String)
      → latest (in_chat jid) ≡ none
      → summaries_of (jid ∷ jids) ≡ summaries_of jids
  unfolding chat_summaries
  chat_summary_none jid jids absent = ground (arith, absent)

  -- The entry of a chat with a last message.
  abbrev entry : String → Message → ChatSummary
  entry jid m = record {
    session_id = session_id;
    chat_jid = jid;
    last_message_id = m.external_message_id;
    last_message_text = preview m;
    last_message_type = m.message_type;
    last_message_at = m.message_timestamp;
    last_direction = m.direction;
    message_count = length (in_chat jid);
  }

  chat_summary_some :
      (jid : String) (jids : List String) (m : Message)
      → latest (in_chat jid) ≡ some m
      → summaries_of (jid ∷ jids) ≡ entry jid m ∷ summaries_of jids
  unfolding chat_summaries
  chat_summary_some jid jids m there = ground (arith, there)

  -- The entries, for any chats: those with messages, each counted once.
  summaries_of-total :
      (jids : List String)
      → sum_by (λ c. c.message_count) (summaries_of jids)
        ≡ sum_by (λ jid. length (in_chat jid)) jids
  unfolding chat_summaries
  summaries_of-total [] = refl
  summaries_of-total (jid ∷ jids) = elim (latest-cases (in_chat jid)) [
    | inl (absent, empty) ↦
        ap (sum_by (λ c. c.message_count)) (chat_summary_none jid jids absent)
        ∙ omega (arith, summaries_of-total jids, empty)
    | inr (m, there, among, last) ↦
        ap (sum_by (λ c. c.message_count)) (chat_summary_some jid jids m there)
        ∙ omega (arith, summaries_of-total jids)
  ]

  summaries_of-IsEntry : (jids : List String) → All (IsEntry lid_map rows) (summaries_of jids)
  unfolding chat_summaries
  summaries_of-IsEntry [] = tt
  summaries_of-IsEntry (jid ∷ jids) = elim (latest-cases (in_chat jid)) [
    | inl (absent, empty) ↦
        subst (All (IsEntry lid_map rows)) (sym (chat_summary_none jid jids absent))
          (summaries_of-IsEntry jids)
    | inr (m, there, among, last) ↦
        subst (All (IsEntry lid_map rows)) (sym (chat_summary_some jid jids m there)) (
          record {
            count = refl;
            last = m;
            is_in_chat = among;
            is_last = last;
            last_message_id = refl;
            last_message_text = refl;
            last_message_at = refl;
          },
          summaries_of-IsEntry jids,
        )
  ]

  -- A chat that is not asked for has no entry, and distinct chats have distinct entries.
  absent-summaries_of :
      (k : String) (jids : List String)
      → All (λ j. k ≢ j) jids
      → All (λ c. k ≢ c.chat_jid) (summaries_of jids)
  unfolding chat_summaries
  absent-summaries_of k [] h = tt
  absent-summaries_of k (jid ∷ jids) h = elim (latest-cases (in_chat jid)) [
    | inl (absent, empty) ↦
        subst (All (λ c. k ≢ c.chat_jid)) (sym (chat_summary_none jid jids absent))
          (absent-summaries_of k jids h.1)
    | inr (m, there, among, last) ↦
        subst (All (λ c. k ≢ c.chat_jid)) (sym (chat_summary_some jid jids m there))
          (h.0, absent-summaries_of k jids h.1)
  ]

-- No chat has two entries.
abbrev pub HasChats : List ChatSummary → Type 0
HasChats [] = Unit
HasChats (c ∷ cs) = All (λ d. c.chat_jid ≢ d.chat_jid) cs × HasChats cs

HasChats-insert_by :
    (before : ChatSummary → ChatSummary → Bool) (c : ChatSummary) (cs : List ChatSummary)
    → All (λ d. c.chat_jid ≢ d.chat_jid) cs
    → HasChats cs
    → HasChats (insert_by before c cs)
HasChats-insert_by before c [] new h = (tt, tt)
HasChats-insert_by before c (d ∷ ds) new h = elim (Bool-cases (before c d)) [
  | inl first ↦ rw first (new, h)
  | inr later ↦ rw later (
    All-insert_by (λ e. d.chat_jid ≢ e.chat_jid) before c ds (λ same. new.0 (sym same)) h.0,
    HasChats-insert_by before c ds new.1 h.1,
  )
]

HasChats-sort_by :
    (before : ChatSummary → ChatSummary → Bool) (cs : List ChatSummary)
    → HasChats cs
    → HasChats (sort_by before cs)
HasChats-sort_by before [] h = tt
HasChats-sort_by before (c ∷ cs) h =
    HasChats-insert_by before c _ (All-sort_by (λ d. c.chat_jid ≢ d.chat_jid) before cs h.0)
      (HasChats-sort_by before cs h.1)

module _ (lid_map : String → Option String) (session_id : String) (rows : List Message) where
  summaries_of-HasChats :
      (jids : List String) → IsDistinct jids → HasChats (summaries_of lid_map session_id rows jids)
  unfolding chat_summaries
  summaries_of-HasChats [] h = tt
  summaries_of-HasChats (jid ∷ jids) h = elim (latest-cases (in_chat lid_map session_id rows jid)) [
    | inl (absent, empty) ↦
        subst HasChats (sym (chat_summary_none lid_map session_id rows jid jids absent))
          (summaries_of-HasChats jids h.1)
    | inr (m, there, among, last) ↦
        subst HasChats (sym (chat_summary_some lid_map session_id rows jid jids m there))
          (absent-summaries_of lid_map session_id rows jid jids h.0, summaries_of-HasChats jids h.1)
  ]

-- What a chat list is, for the messages of a session.
pub record IsChatList (lid_map : String → Option String) (rows : List Message)
    (chats : List ChatSummary) : Type 0 where
  pub entries : All (IsEntry lid_map rows) chats
  pub once : HasChats chats
  pub total : sum_by (λ c. c.message_count) chats ≡ length rows
  pub sorted : IsDescending (λ c. c.last_message_at) chats

list_chats_lem :
    (lid_map : String → Option String) (text_before : String → String → Bool) (given : String)
    (db : Db) (chats : List ChatSummary)
    → (list_chats lid_map text_before given db).0 ≡ ok chats
    → let rows = keep (λ (m : Message). str_eq m.session_id (trim_space given)) db.messages in
      chats
      ≡ sort_by (latest_chat_first lid_map text_before) (
          chat_summaries lid_map
            (trim_space given)
            rows
            (distinct str_eq (map (chat_of lid_map) rows)))
unfolding list_chats
list_chats_lem lid_map text_before given db chats h =
    elim (Bool-cases (is_empty (trim_space given))) [
      | inl blank ↦ absurd (ground (arith, h, blank))
      | inr named ↦ elim (Option-cases (take_turn db).0) [
        | inr (e, broke) ↦ absurd (ground (arith, h, named))
        | inl went ↦ rw (← (take_turn-IsTurn db).messages) (ground (arith, h, named))
      ]
    ]

-- When `ListChats` succeeds, it lists every chat of the session once, a hidden user's under the
-- phone number if that is known: each entry has the number of the chat's messages and the last of
-- them, the entries' numbers add up to all messages of the session, and the chat with the latest
-- message stands first.
pub list_chats-IsChatList :
    (lid_map : String → Option String) (text_before : String → String → Bool) (given : String)
    (db : Db) (chats : List ChatSummary)
    → (list_chats lid_map text_before given db).0 ≡ ok chats
    → IsChatList lid_map
        (keep (λ (m : Message). str_eq m.session_id (trim_space given)) db.messages)
        chats
list_chats-IsChatList lid_map text_before given db chats h =
    let rows = keep (λ (m : Message). str_eq m.session_id (trim_space given)) db.messages in
    let jids = distinct str_eq (map (chat_of lid_map) rows) in
    let entries = chat_summaries lid_map (trim_space given) rows jids in
    let before = latest_chat_first lid_map text_before in
    let distinct_jids = distinct-IsDistinct str_eq eq_iff (map (chat_of lid_map) rows) in
    subst (IsChatList lid_map rows) (sym (list_chats_lem lid_map text_before given db chats h))
      (record {
        entries =
            All-sort_by (IsEntry lid_map rows) before entries
              (summaries_of-IsEntry lid_map (trim_space given) rows jids);
        once =
            HasChats-sort_by before entries
              (summaries_of-HasChats lid_map (trim_space given) rows jids distinct_jids);
        total =
            sum_by-sort_by (λ c. c.message_count) before entries
            ∙ summaries_of-total lid_map (trim_space given) rows jids
            ∙ sum_of_groups str_eq eq_iff (chat_of lid_map) jids rows distinct_jids
                (keys_cover str_eq eq_iff (chat_of lid_map) rows);
        sorted =
            sort_by-descends (λ c. c.last_message_at) before (λ a b first. ground arith)
              (λ a b later. ground arith) entries;
      })
