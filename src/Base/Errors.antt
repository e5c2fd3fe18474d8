-- ===== src/Base/Errors.antt =====
-- Go's error values: the packages' sentinels, `errors.New` texts, and what `fmt.Errorf` wraps.
use Prim.Native.String.{String}
use mathlib.Core.Path.{◌≡◌, refl}
use mathlib.Core.Logic.{◌⊎◌, inl, inr}
use mathlib.Core.Bool.{Bool, true, false}
use interactive_whatsapp_meo.Base.Text.{◌++ₛ◌}

-- The sentinel errors of internal/store/models.go and internal/session/manager.go.
pub data Sentinel : Type 0 where
  not_found session_exists session_not_connected qr_code_unavailable phone_required : Sentinel
  number_not_on_whats_app login_method_invalid pair_code_not_available session_connected : Sentinel

pub Sentinel-discrete : Discrete Sentinel
Sentinel-discrete = hlevel

pub data Error : Type 0 where
  sentinel : Sentinel → Error
  -- an error with a text of its own
  plain : String → Error
  -- `fmt.Errorf("text: %w", err)`
  wrap : String → Error → Error
  -- `fmt.Errorf("%w: %s", err, text)`
  detail : Error → String → Error

pub data Result {ℓ} (A : Type ℓ) : Type ℓ where
  ok : A → Result A
  err : Error → Result A

abbrev pub sentinel_eq : Sentinel → Sentinel → Bool
sentinel_eq not_found not_found = true
sentinel_eq session_exists session_exists = true
sentinel_eq session_not_connected session_not_connected = true
sentinel_eq qr_code_unavailable qr_code_unavailable = true
sentinel_eq phone_required phone_required = true
sentinel_eq number_not_on_whats_app number_not_on_whats_app = true
sentinel_eq login_method_invalid login_method_invalid = true
sentinel_eq pair_code_not_available pair_code_not_available = true
sentinel_eq session_connected session_connected = true
sentinel_eq _ _ = false

-- The sentinel at the bottom of a chain of wrapped errors.
abbrev pub is_error : Error → Sentinel → Bool
is_error (sentinel t) s = sentinel_eq t s
is_error (plain _) s = false
is_error (wrap _ e) s = is_error e s
is_error (detail e _) s = is_error e s

abbrev pub map_error {ℓ} : {A : Type ℓ} → (Error → Error) → Result A → Result A
map_error f (ok a) = ok a
map_error f (err e) = err (f e)

abbrev pub sentinel_text : Sentinel → String
sentinel_text not_found = "record not found"
sentinel_text session_exists = "session already exists"
sentinel_text session_not_connected = "session is not connected"
sentinel_text qr_code_unavailable = "qr code not available"
sentinel_text phone_required = "phone is required"
sentinel_text number_not_on_whats_app = "number is not on WhatsApp"
sentinel_text login_method_invalid = "invalid login method"
sentinel_text pair_code_not_available = "pairing flow is not ready yet"
sentinel_text session_connected = "session already connected"

-- `err.Error()`
unfoldable pub error_text : Error → String
error_text (sentinel s) = sentinel_text s
error_text (plain text) = text
error_text (wrap text e) = text ++ₛ (": " ++ₛ error_text e)
error_text (detail e text) = error_text e ++ₛ (": " ++ₛ text)

pub Result-cases {ℓ} :
    {A : Type ℓ} (r : Result A) → ((a : A) × (r ≡ ok a)) ⊎ ((e : Error) × (r ≡ err e))
Result-cases (ok a) = inl (a, refl)
Result-cases (err e) = inr (e, refl)
