-- ===== src/Store/Sessions.antt =====
-- internal/store/session_repo.go: the table `sessions`.
pub mod Updates
pub mod Keys
pub mod Lookup
pub mod Life
mod Tests
use mathlib.Core.Option
use interactive_whatsapp_meo.Base.{
  ℕ, ◌+◌, String, Bool, true, false, not, ◌&&◌, ◌||◌, Option, none, some, List, [], ◌∷◌, ◌++◌, map,
  ok, err, sentinel, not_found, plain, str_eq, leb, is_some, if◌then◌else◌, keep, map_if, sort_by,
}
use interactive_whatsapp_meo.Base.Text.{is_empty}
use interactive_whatsapp_meo.Store.Models.{
  LoginMethod, qr, pair_code, other, SessionStatus, initializing, deleted, SessionRow, Session,
  coalesce,
}
use interactive_whatsapp_meo.Store.Db.{Db, Action, pure, throw, wrapping, sql, ◌>>=◌, ◌>>◌}
use interactive_whatsapp_meo.Store.Table.{find}

pub record CreateSessionParams : Type 0 where
  pub session_id : String
  pub name : String
  pub login_method : LoginMethod
  pub phone : String
  pub status : SessionStatus

pub record UpdateSessionStateParams : Type 0 where
  pub session_id : String
  pub status : SessionStatus
  pub phone : String
  pub device_jid : String
  pub qr_code : Option String
  pub qr_expires_at : Option ℕ
  pub last_error : String

-- The columns that every query selects, and `scanSession`.
abbrev pub scan_session : SessionRow → Session
scan_session r = record {
  id = r.id;
  session_id = r.session_id;
  name = r.name;
  login_method = r.login_method;
  phone = r.phone;
  device_jid = coalesce r.device_jid;
  status = r.status;
  qr_code = coalesce r.qr_code;
  qr_expires_at = r.qr_expires_at;
  last_error = r.last_error;
  created_at = r.created_at;
  updated_at = r.updated_at;
  deleted_at = r.deleted_at;
}

-- `WHERE session_id = $1`
abbrev pub has_id : String → SessionRow → Bool
has_id session_id r = str_eq r.session_id session_id

abbrev pub is_live : SessionRow → Bool
is_live r = not (is_some r.deleted_at)

-- The table's check on `login_method`.
abbrev pub is_login_method : LoginMethod → Bool
is_login_method (other _) = false
is_login_method _ = true

-- The table as a map from session ids to rows.
abbrev pub lookup : String → Db → Option SessionRow
lookup session_id db = find (has_id session_id) db.sessions

-- `sql.ErrNoRows` becomes `ErrNotFound`.
abbrev pub or_not_found : Option SessionRow → Action Session
or_not_found none = throw (sentinel not_found)
or_not_found (some r) = pure (scan_session r)

-- The row that the `INSERT` of `Create` writes.
abbrev pub new_row : CreateSessionParams → ℕ → ℕ → SessionRow
new_row params id now = record {
  id = id;
  session_id = params.session_id;
  name = params.name;
  login_method = params.login_method;
  phone = params.phone;
  device_jid = none;
  status = params.status;
  qr_code = none;
  qr_expires_at = none;
  last_error = "";
  created_at = now;
  updated_at = now;
  deleted_at = none;
}

-- The `INSERT`: the table refuses a second row for a session and an unknown login method. The
-- sequence of ids moves on in any case.
unfoldable pub insert_session : CreateSessionParams → Action Session
insert_session params before =
    let row = new_row params before.next_session before.now in
    let db = record before { next_session = before.next_session + 1 } in
    if is_some (find (has_id params.session_id) db.sessions)
    then (err (plain "duplicate key value violates unique constraint"), db)
    else if not (is_login_method params.login_method)
    then (err (plain "violates check constraint"), db)
    else (ok (scan_session row), record db { sessions = db.sessions ++ row ∷ [] })

-- `UPDATE sessions SET … WHERE … RETURNING …`
abbrev pub update_sessions :
    (SessionRow → Bool) → (ℕ → SessionRow → SessionRow) → Action (Option SessionRow)
update_sessions test set db = (
  ok (Option.map (set db.now) (find test db.sessions)),
  record db { sessions = map_if test (set db.now) db.sessions },
)

-- The `SET` clauses of `UpdateState`, `ResetForQRCode` and `MarkDeleted`.
abbrev pub set_state : UpdateSessionStateParams → ℕ → SessionRow → SessionRow
set_state params now r = record r {
  status = params.status;
  phone = if is_empty params.phone then r.phone else params.phone;
  device_jid = if is_empty params.device_jid then r.device_jid else some params.device_jid;
  qr_code = params.qr_code;
  qr_expires_at = params.qr_expires_at;
  last_error = params.last_error;
  updated_at = now;
}

abbrev pub set_for_qr : ℕ → SessionRow → SessionRow
set_for_qr now r = record r {
  login_method = qr;
  status = initializing;
  device_jid = none;
  qr_code = none;
  qr_expires_at = none;
  last_error = "";
  updated_at = now;
}

abbrev pub set_deleted : ℕ → SessionRow → SessionRow
set_deleted now r = record r {
  status = deleted;
  qr_code = none;
  qr_expires_at = none;
  updated_at = now;
  deleted_at = some now;
}

unfoldable pub create : CreateSessionParams → Action Session
unfolding insert_session sql
create params = wrapping "create session" (sql (insert_session params))

-- `ORDER BY created_at DESC`
abbrev pub newest_first : SessionRow → SessionRow → Bool
newest_first a b = leb b.created_at a.created_at

unfoldable pub list : Action (List Session)
list =
    wrapping "list sessions"
      (sql (λ db. (ok (map scan_session (sort_by newest_first (keep is_live db.sessions))), db)))

unfoldable pub get : String → Action Session
get session_id = do
  row ← wrapping "get session" (sql (λ db. (ok (lookup session_id db), db)))
  or_not_found row

-- `UPDATE … RETURNING`, where `sql.ErrNoRows`, or no row affected, becomes `ErrNotFound`.
unfoldable pub update_one :
    {A : Type 0}
    → String
    → (SessionRow → Bool)
    → (ℕ → SessionRow → SessionRow)
    → (SessionRow → A)
    → Action A
unfolding sql
update_one text test set answer = do
  row ← wrapping text (sql (update_sessions test set))
  elim row [ none ↦ throw (sentinel not_found) | some r ↦ pure (answer r) ]

unfoldable pub update_state : UpdateSessionStateParams → Action Session
unfolding update_one
update_state params =
    update_one "update session state" (has_id params.session_id) (set_state params) scan_session

unfoldable pub reset_for_qr_code : String → Action Session
unfolding update_one
reset_for_qr_code session_id =
    update_one "reset session for qr" (λ r. has_id session_id r && is_live r) set_for_qr
      scan_session

unfoldable pub mark_deleted : String → Action (Unit {0})
unfolding update_one
mark_deleted session_id =
    update_one "mark session deleted" (has_id session_id) set_deleted (λ _. tt)
