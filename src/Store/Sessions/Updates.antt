-- ===== src/Store/Sessions/Updates.antt =====
-- What each statement on the table `sessions` answers and does, faults included.
use text.Mathlib.TextEquality.{eq_iff}
use interactive_whatsapp_meo.Base.{
  ℕ, String, ◌≡◌, refl, Bool, none, some, arith, str_eq, if◌then◌else◌, map_if, Option-cases, inl,
  inr, ◌∙◌, ap, Error, Result, ok, err, wrap, sentinel, not_found,
}
use interactive_whatsapp_meo.Store.Models.{SessionRow}
use interactive_whatsapp_meo.Store.Db.{Db, take_turn, take_turn-IsTurn}
use interactive_whatsapp_meo.Store.Table.{find}
use interactive_whatsapp_meo.Store.Sessions.{
  has_id, lookup, update_one, scan_session, set_state, set_deleted, update_state, mark_deleted,
  UpdateSessionStateParams,
}
use interactive_whatsapp_meo.Store.Sessions.Lookup.{lookup-update}

-- The three ways in which a rewrite of one session's row can end: the database fails and nothing
-- changes, there is no such session and nothing changes, or the session's row, and no other, is
-- rewritten, and the answer is read from the row as it is now.
pub data Updates {A : Type 0} (text : String) (id : String) (set : ℕ → SessionRow → SessionRow)
    (answer : SessionRow → A) (db : Db) (out : Result A × Db) : Type 0 where
  fault :
      (e : Error)
      → (take_turn db).0 ≡ some e
      → out.0 ≡ err (wrap text e)
      → ((j : String) → lookup j out.1 ≡ lookup j db)
      → Updates text id set answer db out
  missing :
      (take_turn db).0 ≡ none
      → lookup id db ≡ none
      → out.0 ≡ err (sentinel not_found)
      → ((j : String) → lookup j out.1 ≡ lookup j db)
      → Updates text id set answer db out
  done :
      (row : SessionRow)
      → (take_turn db).0 ≡ none
      → lookup id db ≡ some row
      → out.0 ≡ ok (answer (set out.1.now row))
      → ((j : String)
          → lookup j out.1 ≡ (if str_eq id j then some (set out.1.now row) else lookup j db))
      → Updates text id set answer db out

pub take_turn-lookup : (db : Db) (j : String) → lookup j (take_turn db).1 ≡ lookup j db
take_turn-lookup db j = rw ((take_turn-IsTurn db).sessions) refl

module _ {A : Type 0} (text : String) (test : SessionRow → Bool) (set : ℕ → SessionRow → SessionRow)
    (answer : SessionRow → A) (db : Db) where
  update_one_fault :
      (e : Error)
      → (take_turn db).0 ≡ some e
      → update_one text test set answer db ≡ (err (wrap text e), (take_turn db).1)
  unfolding update_one
  update_one_fault e failed = ground arith

  update_one_missing :
      (take_turn db).0 ≡ none
      → find test db.sessions ≡ none
      → (update_one text test set answer db).0 ≡ err (sentinel not_found)
  unfolding update_one
  update_one_missing went absent = ground (arith, take_turn-IsTurn db)

  update_one_done :
      (row : SessionRow)
      → (take_turn db).0 ≡ none
      → find test db.sessions ≡ some row
      → (update_one text test set answer db).0 ≡ ok (answer (set (take_turn db).1.now row))
  unfolding update_one
  update_one_done row went found = ground (arith, take_turn-IsTurn db)

  update_one-sessions :
      (take_turn db).0 ≡ none
      → ((update_one text test set answer db).1.sessions
          ≡ map_if test (set (take_turn db).1.now) db.sessions)
        × ((update_one text test set answer db).1.now ≡ (take_turn db).1.now)
  unfolding update_one
  update_one-sessions went = ground (arith, take_turn-IsTurn db)

module _ {A : Type 0} (text : String) (id : String) (set : ℕ → SessionRow → SessionRow)
    (answer : SessionRow → A)
    (keeps : (n : ℕ) (r : SessionRow) → (set n r).session_id ≡ r.session_id) (db : Db) where
  update_one-Updates : Updates text id set answer db (update_one text (has_id id) set answer db)
  update_one-Updates = elim (Option-cases (take_turn db).0) [
    | inr (e, failed) ↦
        let ends = update_one_fault text (has_id id) set answer db e failed in
        fault e failed (ap (λ o. o.0) ends)
          (λ j. ap (λ o. lookup j o.1) ends ∙ take_turn-lookup db j)
    | inl went ↦
        let (rows, now) = update_one-sessions text (has_id id) set answer db went in
        let after = λ (j : String).
          ap (find (has_id j)) rows
          ∙ lookup-update id j (set (take_turn db).1.now) (keeps (take_turn db).1.now)
              db.sessions in
        elim (Option-cases (lookup id db)) [
          | inl absent ↦
              missing went absent (update_one_missing text (has_id id) set answer db went absent)
                (λ j. ground (arith, after j, eq_iff id j))
          | inr (row, found) ↦
              done row went found
                (rw now (update_one_done text (has_id id) set answer db row went found))
                (λ j. rw now (ground (arith, after j, eq_iff id j)))
        ]
  ]

pub update_state-Updates :
    (params : UpdateSessionStateParams) (db : Db)
    → Updates "update session state" params.session_id
        (set_state params)
        scan_session
        db
        (update_state params db)
unfolding update_state
update_state-Updates params db =
    update_one-Updates "update session state" params.session_id (set_state params) scan_session
      (λ n r. refl) db

-- `MarkDeleted` as such a rewrite, by `set_deleted`.
pub mark_deleted-Updates :
    (session_id : String) (db : Db)
    → Updates "mark session deleted" session_id set_deleted
        (λ _. tt)
        db
        (mark_deleted session_id db)
unfolding mark_deleted
mark_deleted-Updates session_id db =
    update_one-Updates "mark session deleted" session_id set_deleted (λ _. tt) (λ n r. refl) db
