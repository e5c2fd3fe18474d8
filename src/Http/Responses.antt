-- ===== src/Http/Responses.antt =====
-- `writeJSON`, `writeError` and `writeDomainError` of internal/httpapi/router.go, and how a handler
-- answers with the result of a service.
use interactive_whatsapp_meo.Base.{
  ℕ, Error, Result, ok, err, is_error, error_text, not_found, session_exists, session_connected,
  session_not_connected, qr_code_unavailable, if◌then◌else◌,
}
use interactive_whatsapp_meo.Whatsapp.Jid.{JidLib}
use interactive_whatsapp_meo.Sessions.World.{Method}
use interactive_whatsapp_meo.Http.Types.{Body, json_error, Response, Handler}

abbrev pub write_json : ℕ → Body → Response
write_json status body = record { status = status; body = body }

abbrev pub write_error : ℕ → Error → Response
write_error status e = write_json status (json_error (error_text e))

-- The status that `writeDomainError` picks.
unfoldable pub domain_status : Error → ℕ
domain_status e =
    if is_error e not_found
    then 404
    else if is_error e session_exists
    then 409
    else if is_error e session_connected
    then 409
    else if is_error e session_not_connected
    then 409
    else if is_error e qr_code_unavailable
    then 404
    else 400

unfoldable pub write_domain_error : Error → Response
unfolding domain_status
write_domain_error e = write_error (domain_status e) e

abbrev pub answer_of : {A : Type 0} → ℕ → (A → Body) → Result A → Response
answer_of status body (ok a) = write_json status (body a)
answer_of status body (err e) = write_domain_error e

module _ {lib : JidLib} {A : Type 0} where
  -- A service is called, and its result or its error written.
  abbrev pub respond : ℕ → (A → Body) → Method lib A → Handler lib
  respond status body call w = let (r, w') = call w in (answer_of status body r, w')

  -- A failure before the service is called is a bad request.
  abbrev pub reading : Result A → (A → Handler lib) → Handler lib
  reading (ok a) next w = next a w
  reading (err e) next w = (write_error 400 e, w)
