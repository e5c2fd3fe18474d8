-- ===== src/Sessions/World.antt =====
-- The state of the manager in internal/session/manager.go, and calls from it.
-- The map `runtimes` is a list without two entries of one session, in which a runtime is known by
-- its number, as in Go by its address. The whatsmeow client is a parameter, `Client`: what it
-- answers may differ from call to call, so it is given the number of the call. What the manager
-- makes it do is kept in `sends`, `presences` and `disconnected`, and the goroutines that are started
-- in `launched`.
-- The device container is part of the client.
use interactive_whatsapp_meo.Base.{ℕ, ◌+◌, String, Bool, Option, List, Error, Result, ok, err}
use interactive_whatsapp_meo.Store.Models.{LoginMethod, Session, MessageStatus}
use interactive_whatsapp_meo.Store.Models
use interactive_whatsapp_meo.Store.Db.{Db, Action}
use interactive_whatsapp_meo.Webhooks.Service.{Envelope, emit}
use interactive_whatsapp_meo.Whatsapp.Jid.{JidLib}
use interactive_whatsapp_meo.Whatsapp.Message.{Message, UploadResponse, MediaType}

-- `runtimeSession`: its channel `readyCh` is closed when it is ready.
pub record Runtime : Type 0 where
  pub number : ℕ
  pub session_id : String
  pub login_method : LoginMethod
  pub ready : Bool

pub record QrCodeResult : Type 0 where
  pub session_id : String
  pub qr_code : String
  pub expires_at : Option ℕ

-- The data of the webhook events that the manager emits.
pub data EventData : Type 0 where
  session_data : Session → EventData
  qr_data : QrCodeResult → EventData
  message_data : Models.Message → EventData
  status_data :
      (session_id : String) (message_ids : List String) (status : MessageStatus) (timestamp : ℕ)
      → EventData

-- `types.IsOnWhatsAppResponse`
pub record OnWhatsApp (lib : JidLib) : Type 0 where
  pub jid : lib.Jid
  pub is_in : Bool
  pub verified_name : Option String

-- `whatsmeow.SendResponse`
pub record SendResponse : Type 0 where
  pub id : String
  pub timestamp : ℕ

-- The `select` of `GeneratePairCode`.
pub data Wait : Type 0 where
  cancelled : Error → Wait
  timed_out : Wait
  is_ready : Wait

-- A goroutine that is started: `connectExisting` or `startPendingLogin` of a runtime, or the worker
-- of the webhook service.
pub data Task : Type 0 where
  connect_existing pending_login : (runtime : ℕ) (session_id : String) → Task
  webhook_worker : Task

-- What the manager uses of a client: the first number is the runtime's, the second the call's.
pub record Client (lib : JidLib) : Type 0 where
  pub is_connected : ℕ → ℕ → Bool
  pub store_id : ℕ → ℕ → Option lib.Jid
  pub get_alt_jid : ℕ → ℕ → lib.Jid → Result lib.Jid
  pub is_on_whats_app : ℕ → ℕ → List String → Result (List (OnWhatsApp lib))
  pub upload : ℕ → ℕ → List ℕ → MediaType → Result UploadResponse
  pub send_message : ℕ → ℕ → lib.Jid → Message → Result SendResponse
  -- `PairPhone`, for a phone number
  pub pair_phone : ℕ → ℕ → String → Result String
  -- how the wait for `readyCh` ends
  pub wait_ready : ℕ → ℕ → Wait
  -- the container's `GetDevice`, which may find none, and a device's `Delete`
  pub get_device : ℕ → lib.Jid → Result Bool
  pub delete_device : ℕ → lib.Jid → Option Error
  pub build_edit : lib.Jid → String → Message → Message
  -- `mime.TypeByExtension`, `protojson.Marshal` and `json.Marshal`
  pub type_by_extension : String → String
  pub marshal : Message → Option String
  pub marshal_envelope : Envelope EventData → Result String

-- A call of `SendMessage`.
pub record Send (lib : JidLib) : Type 0 where
  pub runtime : ℕ
  pub target : lib.Jid
  pub message : Message

pub record World (lib : JidLib) : Type 0 where
  pub db : Db
  pub runtimes : List Runtime
  pub calls : ℕ
  pub sends : List (Send lib)
  pub disconnected : List ℕ
  pub next_runtime : ℕ
  pub launched : List Task
  -- the runtimes whose clients sent the presence `available`, the latest first
  pub presences : List ℕ

-- A method of the manager: what it changed stays changed when it returns an error.
abbrev pub Method : JidLib → Type 0 → Type 0
Method lib A = World lib → Result A × World lib

module _ {lib : JidLib} {A : Type 0} where
  abbrev pub pure : A → Method lib A
  pure a w = (ok a, w)

  abbrev pub throw : Error → Method lib A
  throw e w = (err e, w)

  -- A call of a repository.
  abbrev pub on_db : Action A → Method lib A
  on_db m w = let (r, db') = m w.db in (r, record w { db = db' })

  -- A repository's call whose error is only logged, or dropped.
  abbrev pub try_db : Action A → Method lib (Result A)
  try_db m w = let (r, db') = m w.db in (ok r, record w { db = db' })

  -- A call of the client.
  abbrev pub ask : (ℕ → A) → Method lib A
  ask answer w = (ok (answer w.calls), record w { calls = w.calls + 1 })

  -- A result, with its error wrapped.
  abbrev pub lift : Result A → Method lib A
  lift r w = (r, w)

infixl 5 ◌>>=◌ ◌>>◌
unfoldable pub ◌>>=◌ :
    {lib : JidLib} {A B : Type 0} → Method lib A → (A → Method lib B) → Method lib B
◌>>=◌ m f w = let (r, w') = m w in elim r [ ok a ↦ f a w' | err e ↦ throw e w' ]

abbrev pub ◌>>◌ : {lib : JidLib} {A B : Type 0} → Method lib A → Method lib B → Method lib B
m >> k = m >>= λ _. k

-- `_ = m.webhooks.Emit(…)`
unfoldable pub emit_event :
    {lib : JidLib} → Client lib → String → String → EventData → Method lib (Unit {0})
emit_event client session_id event_type payload =
    try_db (emit client.marshal_envelope session_id event_type payload) >> pure tt
