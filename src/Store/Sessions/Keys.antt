-- ===== src/Store/Sessions/Keys.antt =====
-- The table `sessions` has one row for each session id, whatever is done to it.
use interactive_whatsapp_meo.Base.{
  ℕ, String, ◌≡◌, refl, ◌≢◌, Bool, false, List, [], ◌∷◌, arith, str_eq_of_false, All, Bool-cases,
  Option-cases, inl, inr,
}
use interactive_whatsapp_meo.Store.Models.{SessionRow}
use interactive_whatsapp_meo.Store.Db.{
  Db, Action, take_turn, sql, sql_done, sql_fault, take_turn-IsTurn,
}
use interactive_whatsapp_meo.Store.Table.{find, find-none-All, HasKeys, HasKeys-concat, map-map_if}
use interactive_whatsapp_meo.Store.Sessions.{
  has_id, new_row, is_login_method, CreateSessionParams, UpdateSessionStateParams, create,
  update_state, reset_for_qr_code, mark_deleted, update_one, update_sessions, insert_session,
  set_state, set_for_qr, set_deleted,
}

abbrev pub HasSessionKeys : Db → Type 0
HasSessionKeys db = HasKeys (λ r. r.session_id) db.sessions

-- A statement leaves the keys alone if its query does.
sql-HasSessionKeys :
    {A : Type 0} (query : Action A)
    → ((d : Db) → HasSessionKeys d → HasSessionKeys (query d).1)
    → (db : Db) → HasSessionKeys db
    → HasSessionKeys (sql query db).1
sql-HasSessionKeys query keeps db h =
    let h' : HasSessionKeys (take_turn db).1 = rw ((take_turn-IsTurn db).sessions) h in
    elim (Option-cases (take_turn db).0) [
      | inr (e, failed) ↦ rw (sql_fault query db e failed) h'
      | inl went ↦ rw (sql_done query db went) (keeps (take_turn db).1 h')
    ]

update_sessions-HasSessionKeys :
    (test : SessionRow → Bool) (set : ℕ → SessionRow → SessionRow)
    → ((n : ℕ) (r : SessionRow) → (set n r).session_id ≡ r.session_id)
    → (d : Db) → HasSessionKeys d
    → HasSessionKeys (update_sessions test set d).1
update_sessions-HasSessionKeys test set same d h =
    rw (map-map_if (λ (r : SessionRow). r.session_id) test (set d.now) (same d.now) d.sessions) h

insert_session-HasSessionKeys :
    (params : CreateSessionParams) (d : Db)
    → HasSessionKeys d
    → HasSessionKeys (insert_session params d).1
unfolding insert_session
insert_session-HasSessionKeys params d h =
    elim (Option-cases (find (has_id params.session_id) d.sessions)) [
      | inr (row, found) ↦ rw found h
      | inl new ↦ elim (Bool-cases (is_login_method params.login_method)) [
        | inr refused ↦ rw (new, refused) h
        | inl fine ↦
            rw (new, fine)
              (HasKeys-concat (λ (r : SessionRow). r.session_id) d.sessions
                (new_row params d.next_session d.now) h
                (others d.sessions (find-none-All (has_id params.session_id) d.sessions new)))
      ]
    ]
  where
    others :
        (rows : List SessionRow)
        → All (λ r. has_id params.session_id r ≡ false) rows
        → All (λ r. r.session_id ≢ params.session_id) rows
    others [] all = tt
    others (r ∷ rows) all =
        (str_eq_of_false r.session_id params.session_id all.0, others rows all.1)

-- What follows a statement does not touch the database.
update_one-state :
    {A : Type 0} (text : String) (test : SessionRow → Bool) (set : ℕ → SessionRow → SessionRow)
    (answer : SessionRow → A) (db : Db)
    → (update_one text test set answer db).1 ≡ (sql (update_sessions test set) db).1
unfolding update_one
update_one-state text test set answer db = ground arith

update_one-HasSessionKeys :
    {A : Type 0} (text : String) (test : SessionRow → Bool) (set : ℕ → SessionRow → SessionRow)
    (answer : SessionRow → A)
    → ((n : ℕ) (r : SessionRow) → (set n r).session_id ≡ r.session_id)
    → (db : Db) → HasSessionKeys db
    → HasSessionKeys (update_one text test set answer db).1
update_one-HasSessionKeys text test set answer same db h =
    rw (update_one-state text test set answer db) (
      sql-HasSessionKeys (update_sessions test set) (update_sessions-HasSessionKeys test set same)
        db h)

create-state :
    (params : CreateSessionParams) (db : Db)
    → (create params db).1 ≡ (sql (insert_session params) db).1
unfolding create
create-state params db = ground arith

-- If no session id has two rows, none has after a statement of the repository.
pub sessions-HasSessionKeys :
    (db : Db)
    → HasSessionKeys db
    → ((params : CreateSessionParams) → HasSessionKeys (create params db).1)
      × ((params : UpdateSessionStateParams) → HasSessionKeys (update_state params db).1)
      × ((session_id : String) → HasSessionKeys (reset_for_qr_code session_id db).1)
      × ((session_id : String) → HasSessionKeys (mark_deleted session_id db).1)
unfolding update_state reset_for_qr_code mark_deleted
sessions-HasSessionKeys db h = (
  λ params.
      rw (create-state params db)
        (sql-HasSessionKeys (insert_session params) (insert_session-HasSessionKeys params) db h),
  λ params. update_one-HasSessionKeys _ _ (set_state params) _ (λ n r. refl) db h,
  λ id. update_one-HasSessionKeys _ _ set_for_qr _ (λ n r. refl) db h,
  λ id. update_one-HasSessionKeys _ _ set_deleted _ (λ n r. refl) db h,
)
