-- ===== src/Control/State.antt =====
-- The records that Control keeps, the changes to them, and how a delta is applied in memory
-- (crates/as-control/src/main.rs, ControlState and StateDelta).
use agent_scale.Base.{ℕ, String, not, Option, List, [], ◌∷◌, ◌==◌, upsert_record, retain}
use agent_scale.Control.Wire.{Invite}

abbrev pub relay_credential_lifetime_secs : ℕ
relay_credential_lifetime_secs = 604800

abbrev pub relay_credential_renew_before_secs : ℕ
relay_credential_renew_before_secs = 172800

abbrev pub invitation_retention_secs : ℕ
invitation_retention_secs = 604800

pub record ClientRecord : Type 0 where
  pub name : String
  pub endpoint_id : String
  pub managed_by : Option String
  pub credential_generation : ℕ
  pub credential_issued_at : ℕ
  pub credential_expires_at : ℕ

pub record EdgeRecord : Type 0 where
  pub name : String
  pub endpoint_id : String
  pub owner_id : String
  pub credential_generation : ℕ
  pub credential_issued_at : ℕ
  pub credential_expires_at : ℕ

pub record RelayRecord : Type 0 where
  pub name : String
  pub endpoint_id : String
  pub url : String
  pub qad_port : Option ℕ

pub record RevocationRecord : Type 0 where
  pub endpoint_id : String
  pub revoked_through_generation : ℕ
  pub expires_at : ℕ
  pub revision : ℕ

pub record ProvisionerRecord : Type 0 where
  pub name : String
  pub endpoint_id : String

pub data InviteState : Type 0 where
  pending claimed revoked : InviteState

pub record InviteRecord : Type 0 where
  pub invite : Invite
  pub state : InviteState
  pub claimed_by : Option String
  pub request_id : Option String
  pub managed_by : Option String
  pub request_hash : Option String
  pub terminal_at : Option ℕ

pub record ControlState : Type 0 where
  pub schema : ℕ
  pub audience : String
  pub public_url : String
  pub relay_ca_der : List ℕ
  pub revision : ℕ
  pub relay_revision : ℕ
  pub clients : List ClientRecord
  pub edges : List EdgeRecord
  pub relays : List RelayRecord
  pub invites : List InviteRecord
  pub provisioners : List ProvisionerRecord
  pub revocations : List RevocationRecord

pub data StateChange : Type 0 where
  put_client : ClientRecord → StateChange
  delete_client : String → StateChange
  put_edge : EdgeRecord → StateChange
  delete_edge : String → StateChange
  put_relay : RelayRecord → StateChange
  delete_relay : String → StateChange
  put_invite : InviteRecord → StateChange
  delete_invite : String → StateChange
  put_provisioner : ProvisionerRecord → StateChange
  delete_provisioner : String → StateChange
  put_revocation : RevocationRecord → StateChange
  delete_revocation : String → StateChange

pub data Publish : Type 0 where
  publish_none nodes nodes_and_relays : Publish

pub record StateDelta : Type 0 where
  pub changes : List StateChange
  pub publish : Publish

abbrev pub quiet : List StateChange → StateDelta
quiet changes = record { changes = changes; publish = publish_none }

abbrev pub topology : List StateChange → StateDelta
topology changes = record { changes = changes; publish = nodes }

abbrev pub revocation : List StateChange → StateDelta
revocation changes = record { changes = changes; publish = nodes_and_relays }

-- The identifier under which an invitation is stored.
abbrev pub invite_key : InviteRecord → String
invite_key record' = record'.invite.invite_id

-- One round of the loop of `StateDelta::apply`.
unfoldable pub apply_change : StateChange → ControlState → ControlState
apply_change (put_client r) s = record s {
  clients = upsert_record s.clients r (λ item key. item.endpoint_id == key.endpoint_id);
}
apply_change (delete_client id) s = record s {
  clients = retain (λ item. not (item.endpoint_id == id)) s.clients;
}
apply_change (put_edge r) s = record s {
  edges = upsert_record s.edges r (λ item key. item.endpoint_id == key.endpoint_id);
}
apply_change (delete_edge id) s = record s {
  edges = retain (λ item. not (item.endpoint_id == id)) s.edges;
}
apply_change (put_relay r) s = record s {
  relays = upsert_record s.relays r (λ item key. item.endpoint_id == key.endpoint_id);
}
apply_change (delete_relay id) s = record s {
  relays = retain (λ item. not (item.endpoint_id == id)) s.relays;
}
apply_change (put_invite r) s = record s {
  invites = upsert_record s.invites r (λ item key. invite_key item == invite_key key);
}
apply_change (delete_invite id) s = record s {
  invites = retain (λ item. not (invite_key item == id)) s.invites;
}
apply_change (put_provisioner r) s = record s {
  provisioners = upsert_record s.provisioners r (λ item key. item.endpoint_id == key.endpoint_id);
}
apply_change (delete_provisioner id) s = record s {
  provisioners = retain (λ item. not (item.endpoint_id == id)) s.provisioners;
}
apply_change (put_revocation r) s = record s {
  revocations = upsert_record s.revocations r (λ item key. item.endpoint_id == key.endpoint_id);
}
apply_change (delete_revocation id) s = record s {
  revocations = retain (λ item. not (item.endpoint_id == id)) s.revocations;
}

unfoldable pub apply_changes : List StateChange → ControlState → ControlState
unfolding apply_change
apply_changes [] s = s
apply_changes (c ∷ cs) s = apply_changes cs (apply_change c s)

unfoldable pub apply : StateDelta → ControlState → ControlState
unfolding apply_changes
apply delta s = apply_changes delta.changes s

abbrev pub state_schema : ℕ
state_schema = 6

-- What `init` and the first run of a container write: nothing is registered yet.
unfoldable pub initial_state : String → String → List ℕ → ControlState
initial_state audience public_url relay_ca_der = record {
  schema = state_schema;
  audience = audience;
  public_url = public_url;
  relay_ca_der = relay_ca_der;
  revision = 0;
  relay_revision = 1;
  clients = [];
  edges = [];
  relays = [];
  invites = [];
  provisioners = [];
  revocations = [];
}
