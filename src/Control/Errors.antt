-- ===== src/Control/Errors.antt =====
-- The ApiError of crates/as-control/src/main.rs: a status, a message and the Retry-After mark.
use agent_scale.Base.{String, Bool, true, false}

pub data StatusCode : Type 0 where
  bad_request unauthorized_status forbidden_status conflict_status gone_status : StatusCode
  internal_server_error too_many_requests service_unavailable : StatusCode

pub record ApiError : Type 0 where
  pub status : StatusCode
  pub message : String
  pub retry_after : Bool

abbrev pub api_error : StatusCode → String → ApiError
api_error status message = record { status = status; message = message; retry_after = false }

abbrev pub bad : String → ApiError
bad message = api_error bad_request message

abbrev pub unauthorized : String → ApiError
unauthorized message = api_error unauthorized_status message

abbrev pub forbidden : String → ApiError
forbidden message = api_error forbidden_status message

abbrev pub conflict : String → ApiError
conflict message = api_error conflict_status message

abbrev pub gone : String → ApiError
gone message = api_error gone_status message

abbrev pub internal : String → ApiError
internal message = api_error internal_server_error message

abbrev pub retryable : StatusCode → String → ApiError
retryable status message = record { status = status; message = message; retry_after = true }
