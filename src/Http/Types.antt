-- ===== src/Http/Types.antt =====
-- What the handlers of internal/httpapi get and give: a request, as far as they read it, and an
-- answer. `net/http`, `chi` and `encoding/json` make the one and write the other.
use interactive_whatsapp_meo.Base.{ℕ, String, Bool, Option, List, Error, Result}
use interactive_whatsapp_meo.Base.Int.{ℤ}
use interactive_whatsapp_meo.Store.Models.{Session, Message, Webhook}
use interactive_whatsapp_meo.Store.Webhooks.{CreateWebhookParams}
use interactive_whatsapp_meo.Whatsapp.Jid.{JidLib}
use interactive_whatsapp_meo.Sessions.World.{QrCodeResult, Client, World}
use interactive_whatsapp_meo.Sessions.Login.{
  CreateSessionResult, OpenQrSessionResult, PairCodeResult,
}
use interactive_whatsapp_meo.Sessions.Targets.{VerifyNumberResult}
use interactive_whatsapp_meo.Sessions.Sending.{SendResult}
use interactive_whatsapp_meo.Reads.Models.{DashboardSummary, ChatSummary, AnalyticsSummary}

-- `multipart.FileHeader`; the content type is `none` where the header is nil, and empty where it
-- is missing.
pub record FileHeader : Type 0 where
  pub file_name : String
  pub content_type : Option String

pub record FormFile : Type 0 where
  pub header : FileHeader
  -- `io.ReadAll(file)`
  pub contents : Result (List ℕ)

pub record Request : Type 0 where
  -- the header `X-API-Key`
  pub api_key : String
  -- `r.URL.Query().Get` and `chi.URLParam`
  pub query : String → String
  pub url_param : String → String
  -- what the body decodes to, for the names of the texts that a handler asks for
  pub decode : List String → Result (String → String)
  pub decode_webhook : Result CreateWebhookParams
  -- the failure of `ParseMultipartForm`, `FormFile("file")` and `FormValue`
  pub parse_form : Option Error
  pub form_file : Result FormFile
  pub form_value : String → String

-- The payload of an answer.
pub data Body : Type 0 where
  no_content : Body
  -- `http.Error`, and the object with the one field `error`
  text_error json_error : String → Body
  -- `{"status": "ok"}`
  status_ok : Body
  created_body : CreateSessionResult → Body
  sessions_body : List Session → Body
  session_body : Session → Body
  qr_body : QrCodeResult → Body
  opened_body : OpenQrSessionResult → Body
  pair_code_body : PairCodeResult → Body
  sent_body : SendResult → Body
  messages_body : List Message → Body
  verified_body : VerifyNumberResult → Body
  webhook_body : Webhook → Body
  webhooks_body : List Webhook → Body
  dashboard_body : DashboardSummary → Body
  chats_body : List ChatSummary → Body
  analytics_body : AnalyticsSummary → Body
  -- the objects that only the legacy handlers build
  legacy_qr_body : (session_id code qr : String) (expires_at : Option ℕ) → Body
  legacy_session_body : (status : String) → Session → Body

pub record Response : Type 0 where
  pub status : ℕ
  pub body : Body

-- What the handlers use of code that is not theirs.
pub record Server (lib : JidLib) : Type 0 where
  pub client : Client lib
  -- the table of the whatsmeow store that maps a hidden user to a phone number
  pub lid_map : String → Option String
  -- the database's order of texts
  pub text_before : String → String → Bool
  -- `hashAPIKey`
  pub hash : String → String
  -- `strconv.Atoi` and `strconv.ParseInt`: they give a number beside an error too
  pub parse_int : String → ℤ × Option Error

abbrev pub Handler : JidLib → Type 0
Handler lib = World lib → Response × World lib
