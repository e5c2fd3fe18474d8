-- ===== src/Store/Db.antt =====
-- The PostgreSQL database as the repositories see it (internal/store), and calls of it.
-- `script` says what the environment does to each coming call: how much time passes before it, and
-- whether it fails. A call that fails changes nothing; when the script ends, calls are instant and
-- succeed. What a call did stays done when a later one fails: no code opens a transaction.
-- `posts` is no table: it logs the deliveries that were POSTed, by their ids, the latest first. The
-- program does not read it.
use interactive_whatsapp_meo.Base.{
  ℕ, ◌+◌, ◌≤◌, ◌≡◌, Option, none, some, List, [], ◌∷◌, String, Error, Result, ok, err, wrap, arith,
}
use interactive_whatsapp_meo.Store.Models.{SessionRow, Message, Webhook, DeliveryRow, ApiKey}

pub record Turn : Type 0 where
  pub elapsed : ℕ
  pub fault : Option Error

pub record Db : Type 0 where
  pub sessions : List SessionRow
  pub messages : List Message
  pub webhooks : List Webhook
  pub deliveries : List DeliveryRow
  pub api_keys : List ApiKey
  pub next_session : ℕ
  pub next_message : ℕ
  pub next_webhook : ℕ
  pub next_delivery : ℕ
  pub posts : List ℕ
  pub now : ℕ
  pub script : List Turn

abbrev pub empty_db : Db
empty_db = record {
  sessions = [];
  messages = [];
  webhooks = [];
  deliveries = [];
  api_keys = [];
  next_session = 1;
  next_message = 1;
  next_webhook = 1;
  next_delivery = 1;
  posts = [];
  now = 1;
  script = [];
}

-- A computation on the database; the database comes back after an error too.
abbrev pub Action {ℓ} : Type ℓ → Type ℓ
Action A = Db → Result A × Db

module _ {ℓ} {A : Type ℓ} where
  abbrev pub pure : A → Action A
  pure a db = (ok a, db)

  abbrev pub throw : Error → Action A
  throw e db = (err e, db)

  -- `fmt.Errorf("text: %w", err)` around the error of a call
  abbrev pub wrapping : String → Action A → Action A
  wrapping text m db =
      let (r, db') = m db in elim r [ ok a ↦ (ok a, db') | err e ↦ (err (wrap text e), db') ]

  -- The answer of a call whose error the caller inspects.
  abbrev pub attempt : Action A → Action (Result A)
  attempt m db = let (r, db') = m db in (ok r, db')

infixl 5 ◌>>=◌ ◌>>◌
abbrev pub ◌>>=◌ {ℓ κ} : {A : Type ℓ} {B : Type κ} → Action A → (A → Action B) → Action B
◌>>=◌ m f db = let (r, db') = m db in elim r [ ok a ↦ f a db' | err e ↦ throw e db' ]

abbrev pub ◌>>◌ {ℓ κ} : {A : Type ℓ} {B : Type κ} → Action A → Action B → Action B
m >> k = m >>= λ _. k

-- The environment's turn: the fault of the call, and the time and the script after it.
unfoldable pub take_turn : Db → Option Error × Db
take_turn db = elim db.script [
  | [] ↦ (none, db)
  | t ∷ ts ↦ (t.fault, record db { now = db.now + t.elapsed; script = ts })
]

-- One statement sent to the database.
unfoldable pub sql {ℓ} : {A : Type ℓ} → Action A → Action A
unfolding take_turn
sql query db =
    let (fault, db') = take_turn db in elim fault [ some e ↦ (err e, db') | none ↦ query db' ]

-- `time.Now().UTC()`
abbrev pub time_now : Action ℕ
time_now db = (ok db.now, db)

-- How a statement ends, by the environment's turn.
pub sql_fault {ℓ} :
    {A : Type ℓ} (query : Action A) (db : Db) (e : Error)
    → (take_turn db).0 ≡ some e
    → sql query db ≡ (err e, (take_turn db).1)
unfolding sql
sql_fault query db e h = rw (h, sql)

pub sql_done {ℓ} :
    {A : Type ℓ} (query : Action A) (db : Db)
    → (take_turn db).0 ≡ none
    → sql query db ≡ query (take_turn db).1
unfolding sql
sql_done query db h = rw (h, sql)

-- A turn moves the clock and the script, and nothing else.
pub record IsTurn (db db' : Db) : Type 0 where
  pub sessions : db'.sessions ≡ db.sessions
  pub messages : db'.messages ≡ db.messages
  pub webhooks : db'.webhooks ≡ db.webhooks
  pub deliveries : db'.deliveries ≡ db.deliveries
  pub api_keys : db'.api_keys ≡ db.api_keys
  pub next_session : db'.next_session ≡ db.next_session
  pub next_message : db'.next_message ≡ db.next_message
  pub next_webhook : db'.next_webhook ≡ db.next_webhook
  pub next_delivery : db'.next_delivery ≡ db.next_delivery
  pub posts : db'.posts ≡ db.posts
  pub now : db.now ≤ db'.now

pub take_turn-IsTurn : (db : Db) → IsTurn db (take_turn db).1
unfolding take_turn
take_turn-IsTurn db = ground arith
