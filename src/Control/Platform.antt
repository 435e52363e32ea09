-- ===== src/Control/Platform.antt =====
-- What Control takes from libraries and the system: Ed25519 keys, SHA-256, serde's JSON with
-- base64url, URL parsing and certificate issuing. Bytes are texts here.
use Prim.Native.Char.{code}
use agent_scale.Base.{
  ℕ, String, Bool, Option, ◌<>◌, ◌==◌, eqb, if◌then◌else◌, ◌&&◌, Result, ok_or, ensure, ok, ◌>>=◌,
  ◌>>◌,
}
use agent_scale.Control.Wire.{
  Invite, JoinToken, Claim, ClaimRequest, EdgeInviteRequest, EdgeRemoveRequest, ProvisionerAction,
  ProvisionerRequest, NodeMap, RelayCredential, control_protocol_version,
}

pub record Platform : Type 0 where
  -- `parse::<EndpointId>()`, given back by `to_string()`.
  pub parse_endpoint : String → Option String
  -- `id.verify(bytes, signature)`, `key.sign(bytes)` and `key.public().to_string()`.
  pub verify_signature : String → String → String → Bool
  pub sign : String → String → String
  pub public_id : String → String
  -- The bytes of the SHA-256 digest.
  pub sha256 : String → String
  -- The JSON of each signed payload, and the base64url texts of tokens and credentials.
  pub invite_json : Invite → String
  pub claim_json : Claim → String
  pub edge_invite_json : EdgeInviteRequest → String
  pub edge_remove_json : EdgeRemoveRequest → String
  pub action_json : ProvisionerAction → String
  pub map_json : NodeMap → String
  pub credential_json : RelayCredential → String
  pub token_text : JoinToken → String
  pub signed_credential_text : RelayCredential → String → String
  -- `SignedRelayCredential::decode`: base64url and JSON.
  pub decode_credential : String → Option (RelayCredential × String)
  -- `serde_json::from_slice`, and the `hex` crate.
  pub parse_request : String → Option ProvisionerRequest
  pub hex_encode : String → String
  pub hex_decode : String → Option String
  -- A `u64` in decimal.
  pub decimal : ℕ → String
  -- `Url::parse`, then `host_str`; the subject alternative names that a CSR asks for and that the
  -- host has; and the certificate that the relay CA signs
  -- at a time, from which it is valid.
  pub url_host : String → Option (Option String)
  pub csr_names : String → Option String
  pub host_names : String → Option String
  pub csr_size : String → ℕ
  pub issue_certificate : String → String → ℕ → Option String
  -- `normalize_relay_url` parses, checks and prints with the `url` crate.
  pub normalize_relay_url : String → Option String

-- `value.trim_end_matches('/')`.
unfoldable pub trim_end_slashes : String → String
trim_end_slashes String.[] = String.[]
trim_end_slashes (String.◌∷◌ c s) =
    let rest = trim_end_slashes s in
    if eqb (code c) b'/' && rest == "" then "" else String.◌∷◌ c rest

module _ (p : Platform) where
  open p use {
    parse_endpoint, verify_signature, sign, public_id, sha256, hex_encode, invite_json, claim_json,
  }

  unfoldable pub domain_bytes : String → String → String
  domain_bytes domain payload = domain <> payload

  unfoldable pub hash_secret : String → String
  hash_secret secret = hex_encode (sha256 ("agent-scale-invite-secret-v2\0" <> secret))

  -- `JoinToken::new` with the Control key.
  unfoldable pub new_token : String → Invite → String → JoinToken
  unfolding domain_bytes
  new_token key invite secret = record {
    invite = invite;
    secret = secret;
    signature = sign key (domain_bytes "agent-scale-control-invite-v5\0" (invite_json invite));
  }

  unfoldable pub verify_token : JoinToken → Result String String
  unfolding domain_bytes hash_secret
  verify_token token = do
    ensure (eqb token.invite.protocol_version control_protocol_version)
        "unsupported control protocol version"
    id ← ok_or (parse_endpoint token.invite.control_id) "invalid control id"
    ensure
        (verify_signature id
          (domain_bytes "agent-scale-control-invite-v5\0" (invite_json token.invite))
          token.signature)
        "invalid invite signature"
    ensure (hash_secret token.secret == token.invite.secret_hash) "invalid invite secret"
    ok id

  unfoldable pub verify_claim : ClaimRequest → Result String String
  unfolding domain_bytes
  verify_claim request = do
    ensure (eqb request.claim.protocol_version control_protocol_version)
        "unsupported control protocol version"
    ensure (request.claim.invite_id == request.token.invite.invite_id) "invite id mismatch"
    id ← ok_or (parse_endpoint request.claim.endpoint_id) "invalid endpoint id"
    ensure
        (verify_signature id
          (domain_bytes "agent-scale-control-claim-v5\0" (claim_json request.claim))
          request.signature)
        "invalid claim signature"
    ok id

  unfoldable pub verify_edge_invite : EdgeInviteRequest → Result String String
  unfolding domain_bytes
  verify_edge_invite request = do
    ensure (eqb request.protocol_version control_protocol_version)
        "unsupported control protocol version"
    id ← ok_or (parse_endpoint request.client_id) "invalid client id"
    ensure
        (verify_signature id
          (domain_bytes "agent-scale-control-edge-invite-request-v5\0" (p.edge_invite_json request))
          request.signature)
        "invalid edge invitation request signature"
    ok id

  unfoldable pub verify_edge_remove : EdgeRemoveRequest → Result String String
  unfolding domain_bytes
  verify_edge_remove request = do
    ensure (eqb request.protocol_version control_protocol_version)
        "unsupported control protocol version"
    ok_or (parse_endpoint request.endpoint_id) "invalid edge endpoint id"
    id ← ok_or (parse_endpoint request.client_id) "invalid client id"
    ensure
        (verify_signature id
          (domain_bytes "agent-scale-control-edge-remove-request-v5\0" (p.edge_remove_json request))
          request.signature)
        "invalid edge removal request signature"
    ok id

  unfoldable pub join_url : JoinToken → String
  unfolding trim_end_slashes
  join_url token = trim_end_slashes token.invite.control_url <> "/join#" <> p.token_text token
