-- ===== src/Store/Sessions/Tests.antt =====
-- Runs of the session repository, and its theorems at a small database.
use text.Mathlib.TextEquality.{eq_iff}
use interactive_whatsapp_meo.Base.{
  arith, String, ◌≡◌, refl, ◌≢◌, none, List, ok, err, sentinel, not_found, All, is_some, true,
}
use interactive_whatsapp_meo.Store.Models.{
  Session, SessionRow, qr, initializing, connected, deleted,
}
use interactive_whatsapp_meo.Store.Db.{Db, empty_db, take_turn}
use interactive_whatsapp_meo.Store.Sessions.{
  CreateSessionParams, UpdateSessionStateParams, scan_session, create, list, get, update_state,
  reset_for_qr_code, mark_deleted,
}
use interactive_whatsapp_meo.Store.Sessions.Updates.{Updates}
use interactive_whatsapp_meo.Store.Sessions.Keys.{HasSessionKeys, sessions-HasSessionKeys}
use interactive_whatsapp_meo.Store.Sessions.Life.{Creates, create-Creates, mark_deleted_hides}

abbrev ana : CreateSessionParams
ana = record {
  session_id = "ana";
  name = "Ana";
  login_method = qr;
  phone = "";
  status = initializing;
}

abbrev rui : CreateSessionParams
rui = record ana { session_id = "rui"; name = "Rui" }

abbrev two_sessions : Db
unfolding create
two_sessions = (create rui (create ana empty_db).1).1

abbrev online : UpdateSessionStateParams
online = record {
  session_id = "rui";
  status = connected;
  phone = "+551";
  device_jid = "";
  qr_code = none;
  qr_expires_at = none;
  last_error = "";
}

abbrev eva : CreateSessionParams
eva = record ana { session_id = "eva"; name = "Eva" }

create-Creates_example : Creates eva two_sessions (create eva two_sessions)
create-Creates_example = create-Creates eva two_sessions

two_sessions-keys : HasSessionKeys two_sessions
unfolding create
two_sessions-keys = ((λ e. ground (arith, eq_iff "ana" "rui"), tt), (tt, tt))

sessions-HasSessionKeys_example :
    ((params : CreateSessionParams) → HasSessionKeys (create params two_sessions).1)
    × ((params : UpdateSessionStateParams) → HasSessionKeys (update_state params two_sessions).1)
    × ((session_id : String) → HasSessionKeys (reset_for_qr_code session_id two_sessions).1)
    × ((session_id : String) → HasSessionKeys (mark_deleted session_id two_sessions).1)
sessions-HasSessionKeys_example = sessions-HasSessionKeys two_sessions two_sessions-keys

mark_deleted_hides_example :
    let after = (mark_deleted "rui" two_sessions).1 in
    ((sessions : List Session) × ((list after).0 ≡ ok sessions)
      × All (λ s. s.session_id ≢ "rui") sessions)
    × ((reset_for_qr_code "rui" after).0 ≡ err (sentinel not_found))
    × ((row : SessionRow) × ((get "rui" after).0 ≡ ok (scan_session row))
        × (row.status ≡ deleted)
        × (is_some row.deleted_at ≡ true))
unfolding create mark_deleted take_turn
mark_deleted_hides_example = mark_deleted_hides "rui" two_sessions refl refl
