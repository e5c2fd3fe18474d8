-- ===== src/Sessions/Events/Touches.antt =====
-- What a statement of the event handler does to the table `sessions`, and to the map of runtimes.
use text.Mathlib.TextEquality.{eq_iff}
use interactive_whatsapp_meo.Base.{
  ℕ, String, ◌≡◌, refl, ap, ◌∙◌, false, Option, some, List, [], ◌∷◌, arith, if◌then◌else◌, str_eq,
}
use interactive_whatsapp_meo.Store.Models.{SessionRow, MessageStatus}
use interactive_whatsapp_meo.Store.Db.{Db, take_turn-IsTurn}
use interactive_whatsapp_meo.Store.Table.{find}
use interactive_whatsapp_meo.Store.Sessions.{
  UpdateSessionStateParams, has_id, lookup, set_state, update_state,
}
use interactive_whatsapp_meo.Store.Sessions.Updates.{fault, missing, done, update_state-Updates}
use interactive_whatsapp_meo.Store.Messages.{SaveMessageParams, save, update_status}
use interactive_whatsapp_meo.Sessions.World.{Runtime}
use interactive_whatsapp_meo.Sessions.Runtimes.{runtime_of, drop_runtime}

-- The table `sessions` is as it was, or the row of one session, and no other, has the given state.
pub data Touches (session_id : String) (state : Option UpdateSessionStateParams) (db db' : Db)
    : Type 0 where
  same : ((j : String) → lookup j db' ≡ lookup j db) → Touches session_id state db db'
  moved :
      (params : UpdateSessionStateParams) (now : ℕ) (row : SessionRow)
      → state ≡ some params
      → lookup session_id db ≡ some row
      → ((j : String)
          → lookup j db'
            ≡ (if str_eq session_id j then some (set_state params now row) else lookup j db))
      → Touches session_id state db db'

pub update_state-Touches :
    (params : UpdateSessionStateParams) (db : Db)
    → Touches params.session_id (some params) db (update_state params db).1
update_state-Touches params db = elim (update_state-Updates params db) [
  | fault e broke answer keeps ↦ same keeps
  | missing went absent answer keeps ↦ same keeps
  | done row went found answer after ↦
      moved params (update_state params db).1.now row refl found after
]

-- Statements on other tables may follow.
pub Touches-after :
    (session_id : String) (state : Option UpdateSessionStateParams) (db mid db' : Db)
    → db'.sessions ≡ mid.sessions
    → Touches session_id state db mid
    → Touches session_id state db db'
Touches-after session_id state db mid db' e (same keeps) =
    same (λ j. ap (find (has_id j)) e ∙ keeps j)
Touches-after session_id state db mid db' e (moved params now row is_state found after) =
    moved params now row is_state found (λ j. ap (find (has_id j)) e ∙ after j)

pub save-sessions :
    (params : SaveMessageParams) (db : Db) → (save params db).1.sessions ≡ db.sessions
unfolding save
save-sessions params db = ground (arith, take_turn-IsTurn db)

pub update_status-sessions :
    (session_id : String) (ids : List String) (status : MessageStatus) (db : Db)
    → (update_status session_id ids status db).1.sessions ≡ db.sessions
unfolding update_status
update_status-sessions session_id [] status db = refl
update_status-sessions session_id (id ∷ ids) status db = ground (arith, take_turn-IsTurn db)

-- Dropping the runtime of a session keeps those of the others.
pub runtime_of-drop_runtime :
    (session_id j : String) (runtimes : List Runtime)
    → str_eq session_id j ≡ false
    → runtime_of j (drop_runtime session_id runtimes) ≡ runtime_of j runtimes
runtime_of-drop_runtime session_id j [] differ = refl
runtime_of-drop_runtime session_id j (r ∷ rs) differ = ground (
  arith,
  runtime_of-drop_runtime session_id j rs differ,
  eq_iff r.session_id session_id,
  eq_iff r.session_id j,
  eq_iff session_id j,
)
