-- ===== src/Store/Sessions/Life.antt =====
-- The first and the last statement on a session: `Create`, and what is left after `MarkDeleted`.
use text.Mathlib.TextEquality.{eq_iff}
use interactive_whatsapp_meo.Base.{
  ℕ, String, ◌≡◌, refl, ◌≢◌, Bool, true, false, none, some, List, [], ◌∷◌, ◌++◌, arith, str_eq,
  str_eq_of_false, if◌then◌else◌, map_if, All, is_some, ◌&&◌, Bool-cases, Option-cases, inl, inr,
  ◌∙◌, ap, Error, Result, ok, err, wrap, plain, sentinel, not_found, map, keep, sort_by,
  All-sort_by,
}
use interactive_whatsapp_meo.Store.Models.{SessionRow, Session, deleted}
use interactive_whatsapp_meo.Store.Db.{Db, take_turn, sql, take_turn-IsTurn}
use interactive_whatsapp_meo.Store.Table.{find}
use interactive_whatsapp_meo.Store.Sessions.{
  newest_first, has_id, is_live, lookup, new_row, scan_session, is_login_method,
  CreateSessionParams, create, list, get, reset_for_qr_code, mark_deleted, set_deleted,
}
use interactive_whatsapp_meo.Store.Sessions.Lookup.{lookup-add}
use interactive_whatsapp_meo.Store.Sessions.Updates.{
  take_turn-lookup, mark_deleted-Updates, done, fault, missing,
}

-- How `Create` can end: the database fails, the session has a row, the login method is none of the
-- two, each with an error of its own and no row more, or none of these, with a new row.
pub data Creates (params : CreateSessionParams) (db : Db) (out : Result Session × Db) : Type 0 where
  broken :
      (e : Error)
      → (take_turn db).0 ≡ some e
      → out.0 ≡ err (wrap "create session" e)
      → ((j : String) → lookup j out.1 ≡ lookup j db)
      → Creates params db out
  taken :
      (row : SessionRow)
      → (take_turn db).0 ≡ none
      → lookup params.session_id db ≡ some row
      → out.0 ≡ err (wrap "create session" (plain "duplicate key value violates unique constraint"))
      → ((j : String) → lookup j out.1 ≡ lookup j db)
      → Creates params db out
  bad_method :
      (take_turn db).0 ≡ none
      → lookup params.session_id db ≡ none
      → is_login_method params.login_method ≡ false
      → out.0 ≡ err (wrap "create session" (plain "violates check constraint"))
      → ((j : String) → lookup j out.1 ≡ lookup j db)
      → Creates params db out
  created :
      (take_turn db).0 ≡ none
      → lookup params.session_id db ≡ none
      → is_login_method params.login_method ≡ true
      → out.0 ≡ ok (scan_session (new_row params db.next_session out.1.now))
      → ((j : String)
          → lookup j out.1 ≡ (
              if str_eq params.session_id j
              then some (new_row params db.next_session out.1.now)
              else lookup j db))
      → Creates params db out

create_done :
    (params : CreateSessionParams) (db : Db)
    → (take_turn db).0 ≡ none
    → lookup params.session_id (take_turn db).1 ≡ none
    → is_login_method params.login_method ≡ true
    → let row = new_row params db.next_session (take_turn db).1.now in
      ((create params db).0 ≡ ok (scan_session row))
      × ((create params db).1.sessions ≡ db.sessions ++ row ∷ [])
      × ((create params db).1.now ≡ (take_turn db).1.now)
unfolding create
create_done params db went absent fine = ground (arith, take_turn-IsTurn db)

-- `Create`, on every branch: if the database does not fail, the session has no row, deleted or not,
-- and the login method is `qr` or `pairing`, it adds one row, with what was asked for, and answers
-- with it; else it returns the error of the first of these that is not so and adds none. No other
-- row changes.
pub create-Creates : (params : CreateSessionParams) (db : Db) → Creates params db (create params db)
unfolding create
create-Creates params db =
    let before = take_turn-lookup db params.session_id in
    elim (Option-cases (take_turn db).0) [
      | inr (e, stopped) ↦
          broken e stopped (ground arith) (λ j. ground (arith, take_turn-lookup db j))
      | inl went ↦ elim (Option-cases (lookup params.session_id (take_turn db).1)) [
        | inr (row, found) ↦
            taken row went (rw (← before) found) (ground arith)
              (λ j. ground (arith, take_turn-lookup db j))
        | inl absent ↦ elim (Bool-cases (is_login_method params.login_method)) [
          | inr refused ↦
              bad_method went (rw (← before) absent) refused (ground arith)
                (λ j. ground (arith, take_turn-lookup db j))
          | inl fine ↦
              let row = new_row params db.next_session (take_turn db).1.now in
              let (answer, rows, now) = create_done params db went absent fine in
              created went (rw (← before) absent) fine (rw now answer) (λ j.
                rw now
                  (ap (find (has_id j)) rows ∙ lookup-add j row db.sessions (rw (← before) absent)))
        ]
      ]
    ]

-- After `MarkDeleted` no row of the session is live.
mark_deleted-rows :
    (id : String) (now : ℕ) (rows : List SessionRow)
    → All (λ r. (has_id id r && is_live r) ≡ false) (map_if (has_id id) (set_deleted now) rows)
mark_deleted-rows id now [] = tt
mark_deleted-rows id now (r ∷ rows) = ground (arith, mark_deleted-rows id now rows)

All-false-find :
    (p : SessionRow → Bool) (rows : List SessionRow)
    → All (λ r. p r ≡ false) rows
    → find p rows ≡ none
All-false-find p [] h = refl
All-false-find p (r ∷ rows) h = ground (arith, All-false-find p rows)

keep-live :
    (id : String) (rows : List SessionRow)
    → All (λ r. (has_id id r && is_live r) ≡ false) rows
    → All (λ r. r.session_id ≢ id) (keep is_live rows)
keep-live id [] h = tt
keep-live id (r ∷ rows) h = elim (Bool-cases (is_live r)) [
  | inr dead ↦ rw dead (keep-live id rows h.1)
  | inl live ↦
      rw live (str_eq_of_false r.session_id id (ground (arith, h.0)), keep-live id rows h.1)
]

All-map_scan :
    (id : String) (rows : List SessionRow)
    → All (λ r. r.session_id ≢ id) rows
    → All (λ (s : Session). s.session_id ≢ id) (map scan_session rows)
All-map_scan id [] h = tt
All-map_scan id (r ∷ rows) h = (h.0, All-map_scan id rows h.1)

module _ (id : String) (db : Db) (gone : (mark_deleted id db).0 ≡ ok tt) where
  abbrev after : Db
  after = (mark_deleted id db).1

  mark_deleted-sessions :
      after.sessions ≡ map_if (has_id id) (set_deleted (take_turn db).1.now) db.sessions
  unfolding mark_deleted
  mark_deleted-sessions = ground (arith, take_turn-IsTurn db)

  none_live : All (λ r. (has_id id r && is_live r) ≡ false) after.sessions
  none_live = rw mark_deleted-sessions (mark_deleted-rows id (take_turn db).1.now db.sessions)

  found_deleted :
      (row : SessionRow) × (lookup id after ≡ some row)
      × (row.status ≡ deleted)
      × (row.deleted_at ≡ some after.now)
  found_deleted = elim (mark_deleted-Updates id db) [
    | fault e _ stopped _ ↦ absurd (cc)
    | missing _ _ stopped _ ↦ absurd (cc)
    | done row _ _ _ lookups ↦
        (set_deleted after.now row, ground (arith, lookups id, eq_iff id id), refl, refl)
  ]

  reset_refused :
      (take_turn after).0 ≡ none → (reset_for_qr_code id after).0 ≡ err (sentinel not_found)
  unfolding reset_for_qr_code
  reset_refused went = ground (
    arith,
    take_turn-IsTurn after,
    All-false-find (λ r. has_id id r && is_live r) after.sessions none_live,
  )

  listed : List Session
  listed = map scan_session (sort_by newest_first (keep is_live after.sessions))

  list_lem : (take_turn after).0 ≡ none → (list after).0 ≡ ok listed
  unfolding list sql listed
  list_lem went = ground (arith, take_turn-IsTurn after)

  get_lem :
      (row : SessionRow)
      → (take_turn after).0 ≡ none
      → lookup id after ≡ some row
      → (get id after).0 ≡ ok (scan_session row)
  unfolding get sql
  get_lem row went found = ground (arith, take_turn-IsTurn after)

  -- A deleted session is gone from the list and cannot be opened for a QR code again, but its row
  -- is still found, as deleted.
  pub mark_deleted_hides :
      (take_turn after).0 ≡ none
      → ((sessions : List Session) × ((list after).0 ≡ ok sessions)
          × All (λ s. s.session_id ≢ id) sessions)
        × ((reset_for_qr_code id after).0 ≡ err (sentinel not_found))
        × ((row : SessionRow) × ((get id after).0 ≡ ok (scan_session row))
            × (row.status ≡ deleted)
            × (is_some row.deleted_at ≡ true))
  unfolding listed
  mark_deleted_hides went =
      let (row, found, status, at) = found_deleted in
      (
        (
          listed,
          list_lem went,
          All-map_scan id _ (
              All-sort_by (λ r. r.session_id ≢ id) newest_first _
                (keep-live id after.sessions none_live)),
        ),
        reset_refused went,
        (row, get_lem row went found, status, rw at refl),
      )
