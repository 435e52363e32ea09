-- ===== src/Examples/World.antt =====
-- A platform whose texts are readable, a Control with one client, one edge and pending invitations,
-- and requests to it.
use agent_scale.Base.{◌+◌, ℕ, String, none, some, [], ◌∷◌, ◌==◌, ok, epoch}
use agent_scale.Control.Wire.{
  RelayCredential, client_subject, remove_client, EdgeRemoveRequest, Invite, client, ClaimRequest,
  ProvisionerRequest, get_topology, control_protocol_version,
}
use agent_scale.Control.State.{ControlState, ClientRecord, EdgeRecord, InviteRecord, pending}
use agent_scale.Control.Commit.{Store, ApplyDelta}
use agent_scale.Control.Platform.{Platform}

-- Every signature of this platform is this text of 64 characters.
abbrev pub seal : String
seal = "signature-signature-signature-signature-signature-signature-----"

abbrev pub removal_request : ProvisionerRequest
removal_request = record {
  protocol_version = control_protocol_version;
  audience = "prod";
  request_id = "r1";
  issued_at = epoch + 1000;
  expected_revision = none;
  action = get_topology;
}

-- The credential that the platform decodes.
abbrev pub alices_credential : RelayCredential
alices_credential = record {
  protocol_version = 3;
  audience = "prod";
  control_id = "control";
  endpoint_id = "a";
  kind = client_subject;
  generation = 1;
  issued_at = epoch;
  expires_at = epoch + 604800;
}

abbrev pub platform : Platform
platform = record {
  parse_endpoint = λ s. some s;
  verify_signature = λ id bytes signature. signature == seal;
  sign = λ key bytes. seal;
  public_id = λ key. key;
  sha256 = λ s. s;
  invite_json = λ i. i.invite_id;
  claim_json = λ c. c.nonce;
  edge_invite_json = λ r. r.request_id;
  edge_remove_json = λ r. r.nonce;
  action_json = λ a. "action";
  map_json = λ m. m.recipient_id;
  credential_json = λ c. c.endpoint_id;
  token_text = λ t. t.secret;
  signed_credential_text = λ c s. c.endpoint_id;
  decode_credential = λ t. some (alices_credential, seal);
  parse_request = λ s. some removal_request;
  hex_encode = λ s. s;
  hex_decode = λ s. some s;
  decimal = λ n. "n";
  url_host = λ u. some (some u);
  csr_names = λ c. some c;
  host_names = λ h. some h;
  csr_size = λ c. 1;
  issue_certificate = λ c h n. some c;
  normalize_relay_url = λ u. some u;
}

abbrev pub control_key : String
control_key = "control"

abbrev pub accept : ApplyDelta Unit
accept database revision relay_revision revision' relay_revision' delta = ok tt

abbrev pub now : ℕ
now = epoch + 1000

abbrev pub invitation : Invite
invitation = record {
  protocol_version = control_protocol_version;
  audience = "prod";
  control_url = "https://control";
  control_id = "control";
  invite_id = "i1";
  name = "bob";
  kind = client;
  secret_hash = "agent-scale-invite-secret-v2\0s";
  expires_at = epoch + 2000;
}

abbrev pub alice : ClientRecord
alice = record {
  name = "alice";
  endpoint_id = "a";
  managed_by = none;
  credential_generation = 1;
  credential_issued_at = epoch;
  credential_expires_at = epoch + 604800;
}

abbrev pub laptop : EdgeRecord
laptop = record {
  name = "laptop";
  endpoint_id = "e";
  owner_id = "a";
  credential_generation = 2;
  credential_issued_at = epoch;
  credential_expires_at = epoch + 604800;
}

abbrev pub pending_record : InviteRecord
pending_record = record {
  invite = invitation;
  state = pending;
  claimed_by = none;
  request_id = none;
  managed_by = none;
  request_hash = none;
  terminal_at = none;
}

abbrev pub state : ControlState
state = record {
  schema = 6;
  audience = "prod";
  public_url = "https://control";
  relay_ca_der = 1 ∷ [];
  revision = 4;
  relay_revision = 1;
  clients = alice ∷ [];
  edges = laptop ∷ [];
  relays = [];
  invites = pending_record ∷ [];
  provisioners = record { name = "scheduler"; endpoint_id = "p" } ∷ [];
  revocations = [];
}

abbrev pub store : Store Unit
store = record { database = tt; state = state; changed = 0; relay_changed = 0 }

abbrev pub claim_request : ClaimRequest
claim_request = record {
  token = record { invite = invitation; secret = "s"; signature = seal };
  claim = record {
    protocol_version = control_protocol_version;
    invite_id = "i1";
    endpoint_id = "b";
    issued_at = epoch + 990;
    nonce = "n";
    relay_qad_port = none;
    relay_tls_csr = none;
  };
  signature = seal;
}

abbrev pub edge_removal_request : EdgeRemoveRequest
edge_removal_request = record {
  protocol_version = control_protocol_version;
  client_id = "a";
  audience = "prod";
  nonce = "n";
  issued_at = epoch + 1000;
  name = "laptop";
  endpoint_id = "e";
  signature = seal;
}

-- A scheduler's request to remove a client, and the same state with a client that the scheduler manages.
abbrev pub managed_removal : ProvisionerRequest
managed_removal = record removal_request {
  expected_revision = some 4;
  action = remove_client "carol";
}

abbrev pub carol : ClientRecord
carol = record {
  name = "carol";
  endpoint_id = "c";
  managed_by = some "p";
  credential_generation = 3;
  credential_issued_at = epoch;
  credential_expires_at = epoch + 604800;
}

abbrev pub managed_state : ControlState
managed_state = record state { clients = alice ∷ carol ∷ [] }

-- The state with a revocation.
abbrev pub revoked_state : ControlState
revoked_state = record state {
  revocations =
      record {
        endpoint_id = "x";
        revoked_through_generation = 2;
        expires_at = epoch + 5000;
        revision = 1;
      }
      ∷ [];
}
