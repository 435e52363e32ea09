-- ===== src/Control/Wire.antt =====
-- The messages of crates/control-api and crates/relay-api that Control stores or answers with.
use agent_scale.Base.{ℕ, String, Bool, true, false, Option, List, ◌&&◌, ◌==◌, eqb}

abbrev pub control_protocol_version : ℕ
control_protocol_version = 5

abbrev pub relay_protocol_version : ℕ
relay_protocol_version = 3

-- `relay url`, `edge owner_id`.
pub data InviteKind : Type 0 where
  client : InviteKind
  edge relay : String → InviteKind

pub record Invite : Type 0 where
  pub protocol_version : ℕ
  pub audience : String
  pub control_url : String
  pub control_id : String
  pub invite_id : String
  pub name : String
  pub kind : InviteKind
  pub secret_hash : String
  pub expires_at : ℕ

-- The derived `PartialEq` of both.
abbrev pub kind_eq : InviteKind → InviteKind → Bool
kind_eq client client = true
kind_eq (edge a) (edge b) = a == b
kind_eq (relay a) (relay b) = a == b
kind_eq _ _ = false

unfoldable pub invite_eq : Invite → Invite → Bool
invite_eq a b =
    eqb a.protocol_version b.protocol_version
    && a.audience == b.audience
    && a.control_url == b.control_url
    && a.control_id == b.control_id
    && a.invite_id == b.invite_id
    && a.name == b.name
    && kind_eq a.kind b.kind
    && a.secret_hash == b.secret_hash
    && eqb a.expires_at b.expires_at

pub record JoinToken : Type 0 where
  pub invite : Invite
  pub secret : String
  pub signature : String

pub record Claim : Type 0 where
  pub protocol_version : ℕ
  pub invite_id : String
  pub endpoint_id : String
  pub issued_at : ℕ
  pub nonce : String
  pub relay_qad_port : Option ℕ
  pub relay_tls_csr : Option String

pub record ClaimRequest : Type 0 where
  pub token : JoinToken
  pub claim : Claim
  pub signature : String

pub record InviteResult : Type 0 where
  pub invite_id : String
  pub join_url : String
  pub expires_at : ℕ

pub record RelayInfo : Type 0 where
  pub name : String
  pub url : String
  pub qad_port : Option ℕ

pub record EdgeInfo : Type 0 where
  pub name : String
  pub endpoint_id : String
  pub owner_id : String
  pub owner_name : String

pub record NodeMap : Type 0 where
  pub protocol_version : ℕ
  pub audience : String
  pub control_url : String
  pub control_id : String
  pub revision : ℕ
  pub issued_at : ℕ
  pub recipient_id : String
  pub relays : List RelayInfo
  pub relay_credential : Option String
  pub relay_ca_der : List ℕ
  pub allowed_clients : List String
  pub edges : List EdgeInfo

pub record SignedNodeMap : Type 0 where
  pub map : NodeMap
  pub signature : String

pub record JoinResult : Type 0 where
  pub name : String
  pub kind : InviteKind
  pub map : SignedNodeMap
  pub relay_tls_certificate_der : Option String

pub data RelaySubjectKind : Type 0 where
  client_subject edge_subject : RelaySubjectKind

pub record RelayCredential : Type 0 where
  pub protocol_version : ℕ
  pub audience : String
  pub control_id : String
  pub endpoint_id : String
  pub kind : RelaySubjectKind
  pub generation : ℕ
  pub issued_at : ℕ
  pub expires_at : ℕ

pub record EdgeInviteRequest : Type 0 where
  pub protocol_version : ℕ
  pub client_id : String
  pub audience : String
  pub request_id : String
  pub issued_at : ℕ
  pub name : String
  pub ttl_secs : ℕ
  pub signature : String

pub record EdgeRemoveRequest : Type 0 where
  pub protocol_version : ℕ
  pub client_id : String
  pub audience : String
  pub nonce : String
  pub issued_at : ℕ
  pub name : String
  pub endpoint_id : String
  pub signature : String

-- The fields stand in the order of the source: name, lifetime and secret; owner before the name;
-- owner, name, identity and new owner.
pub data ProvisionerAction : Type 0 where
  get_topology : ProvisionerAction
  invite_client : String → ℕ → String → ProvisionerAction
  invite_edge : String → String → ℕ → String → ProvisionerAction
  revoke_invite : String → ProvisionerAction
  remove_client : String → ProvisionerAction
  remove_edge : String → String → ProvisionerAction
  transfer_edge : String → String → String → String → ProvisionerAction

pub record ProvisionerRequest : Type 0 where
  pub protocol_version : ℕ
  pub audience : String
  pub request_id : String
  pub issued_at : ℕ
  pub expected_revision : Option ℕ
  pub action : ProvisionerAction

pub record InviteInfo : Type 0 where
  pub invite_id : String
  pub name : String
  pub kind : InviteKind
  pub expires_at : ℕ
  pub state : String

pub record ManagedEdgeInfo : Type 0 where
  pub name : String
  pub endpoint_id : String

pub record ManagedClientInfo : Type 0 where
  pub name : String
  pub endpoint_id : String
  pub edges : List ManagedEdgeInfo

pub record ProvisionerTopology : Type 0 where
  pub revision : ℕ
  pub clients : List ManagedClientInfo
  pub invites : List InviteInfo

pub data ProvisionerResponse : Type 0 where
  topology_response : ProvisionerTopology → ProvisionerResponse
  invite_response : InviteResult → ProvisionerResponse
  ok_response : ℕ → ProvisionerResponse
