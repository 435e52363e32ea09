-- ===== src/Control/Claim.antt =====
-- Enrolment: `POST /v1/claim` (crates/as-control/src/main.rs, claim and its helpers).
use agent_scale.Base.{
  xor, ℕ, String, Bool, true, false, not, ◌&&◌, ◌||◌, Option, none, some, [], ◌∷◌, ◌==◌, ltb, eqb,
  is_some, holds, any, find, Result, ok, err, ok_or, reject_if, ◌>>=◌, ◌>>◌, map_err, checked_add,
  saturating_add, if◌then◌else◌,
}
use agent_scale.Control.Errors.{ApiError, bad, conflict, gone, unauthorized, internal}
use agent_scale.Control.Wire.{Invite, InviteKind, client, edge, relay, ClaimRequest, JoinResult}
use agent_scale.Control.State.{
  ControlState, RelayRecord, StateChange, put_client, put_edge, put_relay, put_invite, InviteRecord,
  InviteState, pending, claimed, revoked, topology, relay_credential_lifetime_secs,
}
use agent_scale.Control.Commit.{Decision, answer, commit, Store, ApplyDelta, run_section}
use agent_scale.Control.Platform.{Platform, verify_token, verify_claim}
use agent_scale.Control.Checks.{anyhow_client_exists, check_time, validate_qad_port}
use agent_scale.Control.Invites.{validate_token_for_state, find_invite}
use agent_scale.Control.Map.{signed_map}

-- Equality of two optional ports.
abbrev pub port_eq : Option ℕ → Option ℕ → Bool
port_eq none none = true
port_eq (some a) (some b) = eqb a b
port_eq _ _ = false

-- Only a relay may advertise a port, and then with a CSR.
unfoldable pub validate_relay_claim :
    InviteKind → Option ℕ → Option String → Result ApiError (Option ℕ)
validate_relay_claim (relay url) qad_port csr_der = do
  map_err bad (validate_qad_port qad_port)
  reject_if (xor (is_some qad_port) (is_some csr_der))
      (bad "Relay QAD port and TLS CSR must be provided together")
  ok qad_port
validate_relay_claim _ qad_port csr_der = do
  reject_if (is_some qad_port || is_some csr_der) (bad "only Relay claims may advertise QAD")
  ok none

abbrev pub max_csr_size : ℕ
max_csr_size = 16384

-- What the new record says, by the kind of the invitation. `generation` is the credential's.
unfoldable pub claimed_node_change :
    ControlState
    → Invite
    → InviteKind
    → String
    → Option String
    → Option ℕ
    → ℕ
    → ℕ
    → Result ApiError StateChange
claimed_node_change state invite client endpoint_id managed_by qad_port generation now = do
  reject_if
      (any (λ item. item.name == invite.name || item.endpoint_id == endpoint_id) state.clients)
      (conflict "client name or identity already exists")
  ok (
      put_client (record {
        name = invite.name;
        endpoint_id = endpoint_id;
        managed_by = managed_by;
        credential_generation = generation;
        credential_issued_at = now;
        credential_expires_at = saturating_add now relay_credential_lifetime_secs;
      }))
claimed_node_change state invite (edge owner_id) endpoint_id managed_by qad_port generation now = do
  anyhow_client_exists state owner_id
  reject_if
      (any
        (λ item.
          item.owner_id == owner_id && item.name == invite.name || item.endpoint_id == endpoint_id)
        state.edges)
      (conflict "edge name or identity already exists")
  ok (
      put_edge (record {
        name = invite.name;
        endpoint_id = endpoint_id;
        owner_id = owner_id;
        credential_generation = generation;
        credential_issued_at = now;
        credential_expires_at = saturating_add now relay_credential_lifetime_secs;
      }))
claimed_node_change state invite (relay url) endpoint_id managed_by qad_port generation now = do
  reject_if
      (any (λ item. item.name == invite.name || item.url == url || item.endpoint_id == endpoint_id)
        state.relays)
      (conflict "relay name, URL, or identity already exists")
  ok (
      put_relay
        (record { name = invite.name; endpoint_id = endpoint_id; url = url; qad_port = qad_port }))

-- The enrolled relay with the claim's identity, if there is one, has another port.
abbrev pub differs_from : Option RelayRecord → Option ℕ → Bool
differs_from none qad_port = false
differs_from (some enrolled) qad_port = not (port_eq enrolled.qad_port qad_port)

unfoldable pub port_differs : ControlState → String → Option ℕ → Bool
port_differs state endpoint_id qad_port =
    differs_from (find (λ item. item.endpoint_id == endpoint_id) state.relays) qad_port

-- The claimed form of the invitation's record.
abbrev pub claimed_record : InviteRecord → String → ℕ → InviteRecord
claimed_record r endpoint_id now = record r {
  state = claimed;
  claimed_by = some endpoint_id;
  terminal_at = some now;
}

module _ (p : Platform) (key : String) where
  -- A certificate for the host of the relay's URL, and only for it.
  unfoldable pub issue_relay_tls_certificate :
      Option String → InviteKind → Option ℕ → ℕ → Result ApiError (Option String)
  issue_relay_tls_certificate (some csr_der) (relay url) (some port) now = do
    reject_if (ltb max_csr_size (p.csr_size csr_der)) (bad "Relay TLS CSR is too large")
    parsed ← ok_or (p.url_host url) (bad "invalid Relay URL")
    host ← ok_or parsed (bad "Relay URL has no host")
    names ← ok_or (p.csr_names csr_der) (bad "invalid Relay TLS CSR")
    expected ← ok_or (p.host_names host) (bad "invalid Relay URL host")
    reject_if (not (names == expected)) (bad "Relay TLS CSR SAN does not match its Relay URL host")
    certificate ←
        ok_or (p.issue_certificate csr_der host now) (internal "certificate signing failed")
    ok (some certificate)
  issue_relay_tls_certificate none (relay url) (some port) now =
      err (bad "QAD-enabled Relay claim is missing its TLS CSR")
  issue_relay_tls_certificate csr_der (relay url) none now = do
    reject_if (is_some csr_der) (bad "QAD is disabled for this Relay enrollment")
    ok none
  issue_relay_tls_certificate csr_der _ qad_port now = do
    reject_if (is_some csr_der) (bad "only Relay claims may include a TLS CSR")
    ok none

  abbrev pub join_result :
      Invite → String → Option String → ℕ → ControlState → Result ApiError JoinResult
  join_result invite endpoint_id certificate map_time state = do
    map' ← map_err internal (signed_map p key state endpoint_id map_time)
    ok (record {
      name = invite.name;
      kind = invite.kind;
      map = map';
      relay_tls_certificate_der = certificate;
    })

  -- By the state of the stored invitation: a first claim commits, the same claim again is answered
  -- alike, and any other is refused. `claimed_id` is the identity as the claim spells it.
  unfoldable pub claim_by_state :
      ControlState
      → InviteRecord
      → InviteState
      → String
      → String
      → Option ℕ
      → Option String
      → ℕ
      → ℕ
      → Decision JoinResult
  claim_by_state state r pending claimed_id endpoint_id qad_port certificate now map_time = do
    generation ← ok_or (checked_add state.revision 1) (internal "revision overflow")
    node_change ←
        claimed_node_change state r.invite r.invite.kind endpoint_id r.managed_by qad_port
          generation now
    ok (
        commit (topology (node_change ∷ put_invite (claimed_record r endpoint_id now) ∷ []))
          (join_result r.invite endpoint_id certificate map_time))
  claim_by_state state r claimed claimed_id endpoint_id qad_port certificate now map_time =
      let again : Decision JoinResult = do
        reject_if (port_differs state claimed_id qad_port)
            (conflict "Relay QAD port differs from its enrolled value")
        result ← join_result r.invite endpoint_id certificate map_time state
        ok (answer result)
      in if holds r.claimed_by claimed_id
        then again
        else err (conflict "invite was already claimed")
  claim_by_state state r revoked claimed_id endpoint_id qad_port certificate now map_time =
      err (gone "invite was revoked")

  -- The locked section. `endpoint_id` is the verified identity, and `now` was read at the start;
  -- the certificate is issued at `issue_time`, and the map at `map_time`.
  unfoldable pub claim_section :
      ClaimRequest → String → ℕ → ℕ → ℕ → ControlState → Decision JoinResult
  claim_section request endpoint_id now issue_time map_time state = do
    validate_token_for_state request.token state (p.public_id key) now
    r ← ok_or (find_invite state request.claim.invite_id) (gone "unknown invite")
    qad_port ←
        validate_relay_claim r.invite.kind request.claim.relay_qad_port request.claim.relay_tls_csr
    certificate ←
        issue_relay_tls_certificate request.claim.relay_tls_csr r.invite.kind qad_port issue_time
    claim_by_state state r r.state request.claim.endpoint_id endpoint_id qad_port certificate now
        map_time

  -- The signatures and the time are checked before the section.
  unfoldable pub claim_verification : ClaimRequest → ℕ → Result ApiError String
  claim_verification request now = do
    map_err unauthorized (verify_token p request.token)
    endpoint_id ← map_err unauthorized (verify_claim p request)
    map_err unauthorized (check_time request.claim.issued_at now)
    ok endpoint_id

  module _ {D : Type 0} (apply_delta : ApplyDelta D) where
    unfoldable pub claim : ClaimRequest → ℕ → ℕ → ℕ → Store D → Result ApiError JoinResult × Store D
    claim request now issue_time map_time store = elim (claim_verification request now) [
      | ok endpoint_id ↦
          run_section apply_delta (claim_section request endpoint_id now issue_time map_time) store
      | err e ↦ (err e, store)
    ]
