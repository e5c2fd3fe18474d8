-- ===== src/Sessions/Live.antt =====
-- The map of runtimes of internal/session/manager.go, whatever is done to it: which clients it may
-- hold.
pub mod Keys
pub mod Events
pub mod Steps
use interactive_whatsapp_meo.Base.{
  ℕ, ◌+◌, ◌<◌, String, ◌≡◌, ◌≢◌, refl, sym, Bool, true, false, not, Option, none, some, List, [],
  ◌∷◌, ◌++◌, arith, keep, map, map_if, All, All-keep, All-map, All-map_if, str_eq, str_eq_of_false,
  ◌==◌, Bool-cases, inl, inr, if◌then◌else◌,
}
use interactive_whatsapp_meo.Store.Models.{Session}
use interactive_whatsapp_meo.Store.Db.{Db}
use interactive_whatsapp_meo.Store.Table.{HasKeys, map-map_if}
use interactive_whatsapp_meo.Whatsapp.Jid.{JidLib}
use interactive_whatsapp_meo.Sessions.World.{Runtime, Send, World}
use interactive_whatsapp_meo.Sessions.Runtimes.{is_of, runtime_of, drop_runtime}
use interactive_whatsapp_meo.Sessions.Login.{attach_runtime}
use interactive_whatsapp_meo.Sessions.Kept.{IsKept}
use interactive_whatsapp_meo.Sessions.Live.Keys.{
  find-All, All-concat, All-of_map, All-to_map, HasKeys-keep, keep-others,
}

-- The map has at most one runtime of a session; no two of its runtimes have one number; the numbers
-- in it, and those that were disconnected, have been given; and what was disconnected is not in it.
pub record IsLive {lib : JidLib} (w : World lib) : Type 0 where
  pub sessions : HasKeys (λ (r : Runtime). r.session_id) w.runtimes
  pub numbers : HasKeys (λ (r : Runtime). r.number) w.runtimes
  pub given : All (λ (r : Runtime). r.number < w.next_runtime) w.runtimes
  pub stopped : All (λ k. k < w.next_runtime) w.disconnected
  pub live : All (λ (r : Runtime). All (λ k. k ≢ r.number) w.disconnected) w.runtimes

-- What is left when the runtimes of a session are dropped.
others :
    (session_id : String) (rs : List Runtime)
    → All (λ (r : Runtime). session_id ≢ r.session_id) (drop_runtime session_id rs)
others session_id [] = tt
others session_id (r ∷ rs) = elim (Bool-cases (is_of session_id r)) [
  | inl his ↦ rw his (others session_id rs)
  | inr apart ↦
      rw apart
        ((λ same. str_eq_of_false r.session_id session_id apart (sym same)), others session_id rs)
]

module _ {lib : JidLib} where
  -- A step keeps the map in order.
  abbrev pub KeepsLive : World lib → World lib → Type 0
  KeepsLive w w' = IsLive w → IsLive w'

  -- A runtime leaves the map.
  pub drop-KeepsLive :
      (session_id : String) (w : World lib)
      → KeepsLive w (record w { runtimes = drop_runtime session_id w.runtimes })
  drop-KeepsLive session_id w h = record {
    sessions = HasKeys-keep _ _ w.runtimes h.sessions;
    numbers = HasKeys-keep _ _ w.runtimes h.numbers;
    given = All-keep _ _ w.runtimes h.given;
    stopped = h.stopped;
    live = All-keep _ _ w.runtimes h.live;
  }

  disconnect-KeepsLive :
      (session_id : String) (runtime : Runtime) (w : World lib)
      → runtime_of session_id w.runtimes ≡ some runtime
      → KeepsLive w (record w {
        disconnected = w.disconnected ++ runtime.number ∷ [];
        runtimes = drop_runtime session_id w.runtimes;
      })
  disconnect-KeepsLive session_id runtime w there h =
      let dropped = drop-KeepsLive session_id w h in
      record {
        sessions = dropped.sessions;
        numbers = dropped.numbers;
        given = dropped.given;
        stopped = All-concat _ w.disconnected runtime.number h.stopped (
            find-All (λ (r : Runtime). r.number < w.next_runtime) (is_of session_id) w.runtimes
              runtime there h.given);
        live = both (drop_runtime session_id w.runtimes) dropped.live (
            keep-others (λ (r : Runtime). r.number) (is_of session_id) w.runtimes runtime there
              h.numbers);
      }
    where
      both :
          (rs : List Runtime)
          → All (λ (r : Runtime). All (λ k. k ≢ r.number) w.disconnected) rs
          → All (λ (r : Runtime). runtime.number ≢ r.number) rs
          → All
              (λ (r : Runtime). All (λ k. k ≢ r.number) (w.disconnected ++ runtime.number ∷ []))
              rs
      both [] old new = tt
      both (r ∷ rs) old new = (
        All-concat (λ k. k ≢ r.number) w.disconnected runtime.number old.0 new.0,
        both rs old.1 new.1,
      )

  attach-KeepsLive :
      (session : Session) (ready : Bool) (w : World lib)
      → KeepsLive w (attach_runtime session ready w).1
  unfolding attach_runtime
  attach-KeepsLive session ready w h =
      let dropped = drop-KeepsLive session.session_id w h in
      let rest = drop_runtime session.session_id w.runtimes in
      record {
        sessions = (All-to_map _ _ rest (others session.session_id w.runtimes), dropped.sessions);
        numbers = (
          All-to_map _ _ rest
              (All-map _ _ (λ r below same. ground (arith, below, same)) rest dropped.given),
          dropped.numbers,
        );
        given = (omega arith, All-map _ _ (λ r below. omega (arith, below)) rest dropped.given);
        stopped = All-map _ _ (λ k below. omega (arith, below)) w.disconnected h.stopped;
        live = (
          All-map _ _ (λ k below same. ground (arith, below, same)) w.disconnected h.stopped,
          dropped.live,
        );
      }

  pub KeepsLive-IsKept : IsKept KeepsLive
  KeepsLive-IsKept = record {
    trans = λ first next h. next (first h);
    frame = λ w db calls launched h. record {
      sessions = h.sessions;
      numbers = h.numbers;
      given = h.given;
      stopped = h.stopped;
      live = h.live;
    };
    attach = attach-KeepsLive;
    disconnect = disconnect-KeepsLive;
  }

  pub send-KeepsLive :
      (w : World lib) (calls : ℕ) (sends : List (Send lib))
      → KeepsLive w (record w { calls = calls; sends = sends })
  send-KeepsLive w calls sends h = record {
    sessions = h.sessions;
    numbers = h.numbers;
    given = h.given;
    stopped = h.stopped;
    live = h.live;
  }
