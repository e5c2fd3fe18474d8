-- ===== src/Store/Messages/Pages.antt =====
-- `List`: a page of messages, and the pages after it.
use interactive_whatsapp_meo.Base.{
  ℕ, zero, suc, ◌≤◌, ◌<◌, String, ◌≡◌, refl, ap, sym, ◌∙◌, Bool, true, false, not, ◌&&◌, ◌||◌,
  Option, none, some, List, [], ◌∷◌, ◌++◌, arith, ltb, Error, ok, err, wrap, Option-cases, inl, inr,
  All, All-take, All-sort_by, length, length-take, take, keep, sort_by, Bool-cases,
}
use interactive_whatsapp_meo.Base.Int.{ℤ, pos, negsuc, is_positive, pos_part}
use interactive_whatsapp_meo.Base.Order.{
  largest_first, IsDescending, sort_by-IsDescending, keep-sort_by, IsKeyed, IsKeyed-keep,
  IsKeyed-sort_by, keep-after, All-middle,
}
use interactive_whatsapp_meo.Store.Models.{Message}
use interactive_whatsapp_meo.Store.Db.{Db, take_turn, take_turn-IsTurn}
use interactive_whatsapp_meo.Store.Messages.{
  ListMessagesParams, is_in_chat, is_on_page, page_limit, list,
}

abbrev pub id_of : Message → ℕ
id_of m = m.id

module _ (lid_map : String → Option String) (params : ListMessagesParams) (db : Db) where
  -- Everything that a page is cut from.
  abbrev pub listing : List Message
  listing = sort_by (largest_first id_of) (keep (is_on_page lid_map params) db.messages)

  list_done :
      (take_turn db).0 ≡ none
      → (list lid_map params db).0 ≡ ok (take (page_limit params.limit) listing)
  unfolding list
  list_done went = ground (arith, take_turn-IsTurn db)

  list_fault :
      (e : Error)
      → (take_turn db).0 ≡ some e
      → (list lid_map params db).0 ≡ err (wrap "list messages" e)
  unfolding list
  list_fault e broke = ground arith

page_limit_bounds : (z : ℤ) → (1 ≤ page_limit z) × (page_limit z ≤ 100)
unfolding page_limit
page_limit_bounds (pos n) = ground arith
page_limit_bounds (negsuc n) = ground arith

IsDescending-take :
    (n : ℕ) (xs : List Message) → IsDescending id_of xs → IsDescending id_of (take n xs)
IsDescending-take zero xs h = tt
IsDescending-take (suc n) [] h = tt
IsDescending-take (suc n) (x ∷ xs) h = (All-take _ n xs h.0, IsDescending-take n xs h.1)

All-kept : (p : Message → Bool) (xs : List Message) → All (λ m. p m ≡ true) (keep p xs)
All-kept p [] = tt
All-kept p (x ∷ xs) = elim (Bool-cases (p x)) [
  | inl y ↦ rw y (y, All-kept p xs)
  | inr n ↦ rw n (All-kept p xs)
]

-- What a page is: at most a hundred messages, every one asked for, the newest first.
pub record IsPage (lid_map : String → Option String) (params : ListMessagesParams)
    (page : List Message) : Type 0 where
  pub short : length page ≤ 100
  pub asked_for : All (λ m. is_on_page lid_map params m ≡ true) page
  pub sorted : IsDescending id_of page

-- A listing that the database answers is a page: at most a hundred messages, whatever limit was
-- asked for, each of the session, of the chat if one was asked for, and below a positive cursor,
-- with the ids descending.
pub list-IsPage :
    (lid_map : String → Option String) (params : ListMessagesParams) (db : Db) (page : List Message)
    → (list lid_map params db).0 ≡ ok page
    → IsPage lid_map params page
list-IsPage lid_map params db page h = elim (Option-cases (take_turn db).0) [
  | inr (e, broke) ↦ absurd (ground (arith, h, list_fault lid_map params db e broke))
  | inl went ↦
      let rows = listing lid_map params db in
      let n = page_limit params.limit in
      let cut : page ≡ take n rows = ground (arith, h, list_done lid_map params db went) in
      rw cut (record {
        short = omega (arith, length-take n rows, page_limit_bounds params.limit);
        asked_for =
            All-take _ n rows
              (All-sort_by _ _ _ (All-kept (is_on_page lid_map params) db.messages));
        sorted =
            IsDescending-take n rows
              (sort_by-IsDescending id_of (keep (is_on_page lid_map params) db.messages));
      })
]

keep-keep :
    (p q r : Message → Bool)
    → ((m : Message) → r m ≡ (p m && q m))
    → (xs : List Message) → keep r xs ≡ keep q (keep p xs)
keep-keep p q r e [] = refl
keep-keep p q r e (x ∷ xs) = ground (arith, e x, keep-keep p q r e xs)

-- The page after: the same request with the id of the last message seen as its cursor.
abbrev pub after : ListMessagesParams → Message → ListMessagesParams
after params m = record params { cursor = pos m.id }

and_right : (a b : Bool) → a && b ≡ true → b ≡ true
and_right true b h = h
and_right false b h = cc

below_cursor :
    (a : Bool) (z : ℤ) (i l : ℕ)
    → 0 < l
    → (not (is_positive z) || ltb l (pos_part z)) ≡ true
    → (a && (not (is_positive (pos l)) || ltb i (pos_part (pos l))))
      ≡ (a && (not (is_positive z) || ltb i (pos_part z)) && ltb i l)
below_cursor a (pos n) i l positive seen = ground arith
below_cursor a (negsuc n) i l positive seen = ground arith

on_next_page :
    (lid_map : String → Option String) (params : ListMessagesParams) (last m : Message)
    → 0 < last.id
    → is_on_page lid_map params last ≡ true
    → is_on_page lid_map (after params last) m ≡ (is_on_page lid_map params m && ltb m.id last.id)
on_next_page lid_map params last m positive seen =
    below_cursor (is_in_chat lid_map params m) params.cursor m.id last.id positive (
      and_right (is_in_chat lid_map params last)
        (not (is_positive params.cursor) || ltb last.id (pos_part params.cursor)) seen)

-- The pages of a listing tile it. When no two messages have the same id and the messages asked for
-- are `seen`, then `last`, whose id is positive, then the rest, the same request with the id of
-- `last` as its cursor lists the rest, from its first message on, up to the limit, unless the
-- database fails.
pub list_continues :
    (lid_map : String → Option String) (params : ListMessagesParams) (db : Db) (seen : List Message)
    (last : Message) (rest : List Message)
    → IsKeyed id_of db.messages
    → 0 < last.id
    → listing lid_map params db ≡ seen ++ last ∷ rest
    → (take_turn db).0 ≡ none
    → (list lid_map (after params last) db).0 ≡ ok (take (page_limit params.limit) rest)
list_continues lid_map params db seen last rest keyed positive split went =
    let p = is_on_page lid_map params in
    let q : Message → Bool = λ m. ltb m.id last.id in
    let rows = sort_by (largest_first id_of) (keep p db.messages) in
    let all : All (λ m. p m ≡ true) (listing lid_map params db) =
      All-sort_by (λ (m : Message). p m ≡ true) (largest_first id_of) (keep p db.messages)
        (All-kept p db.messages) in
    let ordered : IsDescending id_of (listing lid_map params db) =
      sort_by-IsDescending id_of (keep p db.messages) in
    let unique : IsKeyed id_of (listing lid_map params db) =
      IsKeyed-sort_by id_of (largest_first id_of) (keep p db.messages)
        (IsKeyed-keep id_of p db.messages keyed) in
    let asked : p last ≡ true =
      All-middle id_of (λ m. p m ≡ true) seen last rest (rw (sym split) all) in
    let same =
      keep-keep p q (is_on_page lid_map (after params last))
        (λ m. on_next_page lid_map params last m positive asked) db.messages in
    let sorted : IsDescending id_of (seen ++ last ∷ rest) = rw (sym split) ordered in
    let distinct : IsKeyed id_of (seen ++ last ∷ rest) = rw (sym split) unique in
    let tail = keep-after id_of seen last rest sorted distinct in
    let filtered = keep-sort_by id_of q (keep p db.messages) in
    let next : listing lid_map (after params last) db ≡ rest =
      ap (sort_by (largest_first id_of)) same ∙ sym filtered ∙ ap (keep q) split ∙ tail in
    list_done lid_map (after params last) db went
    ∙ ap (λ l. ok (take (page_limit params.limit) l)) next
