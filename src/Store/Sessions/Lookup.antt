-- ===== src/Store/Sessions/Lookup.antt =====
-- The table as a map: what rewriting or adding a row does to every lookup.
use mathlib.Core.Option
use text.Mathlib.TextEquality.{eq_iff}
use interactive_whatsapp_meo.Base.{
  String, ◌≡◌, none, some, List, [], ◌∷◌, ◌++◌, arith, str_eq, if◌then◌else◌, map_if,
}
use interactive_whatsapp_meo.Store.Models.{SessionRow}
use interactive_whatsapp_meo.Store.Table.{find}
use interactive_whatsapp_meo.Store.Sessions.{has_id}

-- A rewrite of the rows of one session is seen in that session's lookup and in no other.
pub lookup-update :
    (id j : String) (f : SessionRow → SessionRow)
    → ((r : SessionRow) → (f r).session_id ≡ r.session_id)
    → (rows : List SessionRow)
    → find (has_id j) (map_if (has_id id) f rows)
      ≡ (if str_eq id j then Option.map f (find (has_id j) rows) else find (has_id j) rows)
lookup-update id j f keeps [] = ground arith
lookup-update id j f keeps (r ∷ rows) = ground (
  arith,
  keeps r,
  lookup-update id j f keeps rows,
  eq_iff id j,
  eq_iff r.session_id id,
  eq_iff r.session_id j,
  eq_iff (f r).session_id j,
)

-- A row added for a session that has none is found, and hides no other.
pub lookup-add :
    (j : String) (r : SessionRow) (rows : List SessionRow)
    → find (has_id r.session_id) rows ≡ none
    → find (has_id j) (rows ++ r ∷ [])
      ≡ (if str_eq r.session_id j then some r else find (has_id j) rows)
lookup-add j r [] h = ground arith
lookup-add j r (s ∷ rows) h = ground (
  arith,
  lookup-add j r rows,
  eq_iff r.session_id j,
  eq_iff s.session_id r.session_id,
  eq_iff s.session_id j,
)
