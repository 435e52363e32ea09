-- ===== src/Control/Authorization.antt =====
-- `POST /v1/provisioner`: the signature over the exact body, and the request
-- (crates/control-api/src/provisioner.rs; crates/as-control/src/main.rs, provisioner_request).
use agent_scale.Base.{
  ℕ, String, not, ◌&&◌, ◌<>◌, ◌==◌, eqb, len, Option, Result, ok, err, ok_or, ensure, map_err,
  ◌>>=◌, ◌>>◌, strip_prefix, split_once, contains,
}
use agent_scale.Control.Errors.{ApiError, bad, unauthorized}
use agent_scale.Control.Wire.{ProvisionerRequest, ProvisionerResponse, control_protocol_version}
use agent_scale.Control.Commit.{Store, ApplyDelta, run_section}
use agent_scale.Control.Platform.{Platform}
use agent_scale.Control.Checks.{check_time, validate_request_id}
use agent_scale.Control.Provisioner.{provisioner_section}

abbrev pub provisioner_auth_scheme : String
provisioner_auth_scheme = "AgentScale-Ed25519"

abbrev pub signature_length : ℕ
signature_length = 64

module _ (p : Platform) where
  -- The preimage: a fixed method and path, then the bytes of the digest of the body.
  abbrev pub provisioner_signing_bytes : String → String
  provisioner_signing_bytes body =
      "agent-scale-control-provisioner-http-v1\0POST\0/v1/provisioner\0" <> p.sha256 body

  -- The value of the `Authorization` header for a body.
  unfoldable pub provisioner_authorization : String → String → String
  provisioner_authorization key body =
      provisioner_auth_scheme
      <> " "
      <> p.public_id key
      <> ":"
      <> p.hex_encode (p.sign key (provisioner_signing_bytes body))

  unfoldable pub verify_provisioner_authorization : String → String → Result String String
  verify_provisioner_authorization value body = do
    scheme_rest ←
        ok_or (strip_prefix provisioner_auth_scheme value)
          "unsupported provisioner authorization scheme"
    credentials ←
        ok_or (strip_prefix " " scheme_rest) "unsupported provisioner authorization scheme"
    (endpoint_text, encoded_signature) ←
        ok_or (split_once b':' credentials) "malformed provisioner authorization credentials"
    ensure (not (endpoint_text == "")) "missing provisioner endpoint id"
    ensure (not (encoded_signature == "") && not (contains b':' encoded_signature))
        "malformed provisioner signature"
    endpoint_id ← ok_or (p.parse_endpoint endpoint_text) "invalid provisioner endpoint id"
    signature ← ok_or (p.hex_decode encoded_signature) "invalid provisioner signature encoding"
    ensure (eqb (len signature) signature_length) "invalid provisioner signature length"
    ensure (p.verify_signature endpoint_id (provisioner_signing_bytes body) signature)
        "invalid provisioner request signature"
    ok endpoint_id

  -- What is checked before the lock is taken; the header is absent or has its text.
  unfoldable pub provisioner_verification :
      Option String → String → ℕ → Result ApiError (String × ProvisionerRequest)
  provisioner_verification header body arrival = do
    value ← ok_or header (unauthorized "missing provisioner authorization")
    id ← map_err unauthorized (verify_provisioner_authorization value body)
    request ← ok_or (p.parse_request body) (bad "malformed request")
    map_err bad (
        ensure (eqb request.protocol_version control_protocol_version)
          "unsupported control protocol version")
    map_err unauthorized (check_time request.issued_at arrival)
    map_err bad (validate_request_id request.request_id)
    ok (id, request)

  module _ (key : String) {D : Type 0} (apply_delta : ApplyDelta D) where
    unfoldable pub provisioner_request :
        Option String
        → String
        → ℕ
        → ℕ
        → ℕ
        → String
        → Store D
        → Result ApiError ProvisionerResponse × Store D
    provisioner_request header body arrival scan now invite_id store =
        elim (provisioner_verification header body arrival) [
          | ok (id, request) ↦
              run_section apply_delta (provisioner_section p key id request scan now invite_id)
                store
          | err e ↦ (err e, store)
        ]
