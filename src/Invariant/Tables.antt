-- ===== src/Invariant/Tables.antt =====
-- The invariant of the state of crates/as-control: keys that records do not share, owners that
-- exist, and generations and revisions within bounds.
use agent_scale.Base.{ℕ, ◌≤◌, ◌<◌, String, ◌≡◌, true, List, ◌==◌, any, All, Distinct}
use agent_scale.Control.State.{
  ControlState, ClientRecord, EdgeRecord, RelayRecord, ProvisionerRecord, RevocationRecord,
  invite_key,
}

-- A credential generation is positive and at most the revision.
abbrev pub InRange : ℕ → ℕ → Type 0
InRange bound generation = (0 < generation) × (generation ≤ bound)

pub record ClientsInv (bound : ℕ) (clients : List ClientRecord) : Type 0 where
  pub ids : Distinct (λ (c : ClientRecord). c.endpoint_id) clients
  pub names : Distinct (λ (c : ClientRecord). c.name) clients
  pub generations : All (λ c. InRange bound c.credential_generation) clients

-- An owner has one edge of a name.
abbrev pub edge_slot : EdgeRecord → String × String
edge_slot e = (e.owner_id, e.name)

pub record EdgesInv (bound : ℕ) (edges : List EdgeRecord) : Type 0 where
  pub ids : Distinct (λ (e : EdgeRecord). e.endpoint_id) edges
  pub slots : Distinct edge_slot edges
  pub generations : All (λ e. InRange bound e.credential_generation) edges

-- Every edge belongs to a registered client.
abbrev pub Owned : List ClientRecord → List EdgeRecord → Type 0
Owned clients edges = All (λ e. any (λ c. c.endpoint_id == e.owner_id) clients ≡ true) edges

pub record RelaysInv (relays : List RelayRecord) : Type 0 where
  pub ids : Distinct (λ (r : RelayRecord). r.endpoint_id) relays
  pub names : Distinct (λ (r : RelayRecord). r.name) relays
  pub urls : Distinct (λ (r : RelayRecord). r.url) relays

pub record ProvisionersInv (provisioners : List ProvisionerRecord) : Type 0 where
  pub ids : Distinct (λ (p : ProvisionerRecord). p.endpoint_id) provisioners
  pub names : Distinct (λ (p : ProvisionerRecord). p.name) provisioners

-- A revocation was published at a relay revision, for a generation that was in use.
abbrev pub RevocationInRange : ℕ → ℕ → RevocationRecord → Type 0
RevocationInRange bound relay_bound r =
    InRange bound r.revoked_through_generation × (r.revision ≤ relay_bound)

pub record RevocationsInv (bound relay_bound : ℕ) (revocations : List RevocationRecord)
    : Type 0 where
  pub ids : Distinct (λ (r : RevocationRecord). r.endpoint_id) revocations
  pub ranges : All (RevocationInRange bound relay_bound) revocations

-- The invariant for given bounds: while a delta is applied these are the revisions to come.
pub record Bounded (bound relay_bound : ℕ) (s : ControlState) : Type 0 where
  pub clients : ClientsInv bound s.clients
  pub edges : EdgesInv bound s.edges
  pub owned : Owned s.clients s.edges
  pub relays : RelaysInv s.relays
  pub invites : Distinct invite_key s.invites
  pub provisioners : ProvisionersInv s.provisioners
  pub revocations : RevocationsInv bound relay_bound s.revocations

abbrev pub WellFormed : ControlState → Type 0
WellFormed s = Bounded s.revision s.relay_revision s
