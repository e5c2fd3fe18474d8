-- ===== src/Store/Models.antt =====
-- internal/store/models.go and migrations/: what the tables hold and what the repositories return.
-- A column that may be NULL is an `Option`; times are numbers, 0 is Go's zero time; a text type
-- whose values are all constants of the source is an enumeration.
use interactive_whatsapp_meo.Base.{ℕ, String, Bool, true, false, Option, none, some, List}

-- A login method is checked only by `CreateSession` and by the table, so others can be asked for.
pub data LoginMethod : Type 0 where
  qr pair_code : LoginMethod
  other : String → LoginMethod

pub data SessionStatus : Type 0 where
  initializing qr_ready pairing connected disconnected logged_out deleted error : SessionStatus

pub data MessageDirection : Type 0 where
  inbound outbound : MessageDirection

pub data MessageStatus : Type 0 where
  received sent delivered read edited failed : MessageStatus

pub data DeliveryStatus : Type 0 where
  pending processing retry delivered failed : DeliveryStatus

-- A row of the table `sessions`.
pub record SessionRow : Type 0 where
  pub id : ℕ
  pub session_id : String
  pub name : String
  pub login_method : LoginMethod
  pub phone : String
  pub device_jid : Option String
  pub status : SessionStatus
  pub qr_code : Option String
  pub qr_expires_at : Option ℕ
  pub last_error : String
  pub created_at : ℕ
  pub updated_at : ℕ
  pub deleted_at : Option ℕ

-- `store.Session`
pub record Session : Type 0 where
  pub id : ℕ
  pub session_id : String
  pub name : String
  pub login_method : LoginMethod
  pub phone : String
  pub device_jid : String
  pub status : SessionStatus
  pub qr_code : String
  pub qr_expires_at : Option ℕ
  pub last_error : String
  pub created_at : ℕ
  pub updated_at : ℕ
  pub deleted_at : Option ℕ

-- `store.Message`, and a row of the table `messages`.
pub record Message : Type 0 where
  pub id : ℕ
  pub session_id : String
  pub external_message_id : String
  pub chat_jid : String
  pub sender_jid : String
  pub direction : MessageDirection
  pub message_type : String
  pub text : String
  pub media_mime_type : String
  pub media_file_name : String
  pub status : MessageStatus
  pub payload : String
  pub message_timestamp : ℕ
  pub created_at : ℕ
  pub updated_at : ℕ

-- `store.Webhook`, and a row of the table `webhooks`.
pub record Webhook : Type 0 where
  pub id : ℕ
  pub session_id : Option String
  pub url : String
  pub events : List String
  pub is_active : Bool
  pub created_at : ℕ
  pub updated_at : ℕ

-- A row of the table `webhook_deliveries`.
pub record DeliveryRow : Type 0 where
  pub id : ℕ
  pub webhook_id : ℕ
  pub session_id : String
  pub event_type : String
  pub payload : String
  pub status : DeliveryStatus
  pub attempt_count : ℕ
  pub next_attempt_at : ℕ
  pub last_error : String
  pub last_http_status : Option ℕ
  pub last_response_body : List ℕ  -- bytes
  pub delivered_at : Option ℕ
  pub created_at : ℕ
  pub updated_at : ℕ

-- `store.WebhookDelivery`: a row with the URL of its webhook.
pub record WebhookDelivery : Type 0 where
  pub row : DeliveryRow
  pub webhook_url : String

-- A row of the table `api_keys`.
pub record ApiKey : Type 0 where
  pub name : String
  pub key_hash : String

abbrev pub coalesce : Option String → String
coalesce none = ""
coalesce (some s) = s

abbrev pub method_eq : LoginMethod → LoginMethod → Bool
method_eq qr qr = true
method_eq pair_code pair_code = true
method_eq _ _ = false

abbrev pub status_eq : SessionStatus → SessionStatus → Bool
status_eq initializing initializing = true
status_eq qr_ready qr_ready = true
status_eq pairing pairing = true
status_eq connected connected = true
status_eq disconnected disconnected = true
status_eq logged_out logged_out = true
status_eq deleted deleted = true
status_eq error error = true
status_eq _ _ = false

abbrev pub is_outbound : MessageDirection → Bool
is_outbound outbound = true
is_outbound inbound = false
