-- ===== src/Control/Map.antt =====
-- The node map that Control signs for one recipient, and the relay credential inside it
-- (crates/as-control/src/main.rs, signed_map; crates/relay-api/src/lib.rs, RelayCredential).
use agent_scale.Base.{
  ℕ, String, not, Option, none, some, List, [], ◌∷◌, map, ◌==◌, ltb, eqb, find, retain, Result, ok,
  ensure, ok_or, ◌>>=◌, ◌>>◌,
}
use agent_scale.Control.Wire.{
  NodeMap, SignedNodeMap, RelayInfo, EdgeInfo, RelayCredential, RelaySubjectKind, client_subject,
  edge_subject, control_protocol_version, relay_protocol_version,
}
use agent_scale.Control.State.{ControlState, ClientRecord, EdgeRecord, RelayRecord}
use agent_scale.Control.Platform.{Platform, domain_bytes}
use agent_scale.Control.Checks.{client_name, client_with_id, has_relay}

abbrev pub edge_with_id : ControlState → String → Option EdgeRecord
edge_with_id state id = find (λ edge. edge.endpoint_id == id) state.edges

abbrev pub name_or_unknown : Option String → String
name_or_unknown none = "unknown"
name_or_unknown (some name) = name

-- The edges that a client's map and the overview show.
unfoldable pub edge_info : ControlState → EdgeRecord → EdgeInfo
edge_info state edge = record {
  name = edge.name;
  endpoint_id = edge.endpoint_id;
  owner_id = edge.owner_id;
  owner_name = name_or_unknown (client_name state edge.owner_id);
}

abbrev pub relay_info : RelayRecord → RelayInfo
relay_info relay = record { name = relay.name; url = relay.url; qad_port = relay.qad_port }

module _ (p : Platform) (key : String) where
  -- `RelayCredential::validate`.
  unfoldable pub validate_credential : RelayCredential → Result String Unit
  validate_credential c = do
    ensure (eqb c.protocol_version relay_protocol_version) "unsupported Relay protocol version"
    ensure (not (c.audience == "")) "credential audience is empty"
    ensure (ltb 0 c.generation) "credential generation must be positive"
    ensure (ltb c.issued_at c.expires_at) "credential expiry must follow issuance"
    ok_or (p.parse_endpoint c.endpoint_id) "invalid credential endpoint id"
    ok_or (p.parse_endpoint c.control_id) "invalid credential control id"
    ok tt

  unfoldable pub sign_relay_credential :
      ControlState → String → RelaySubjectKind → ℕ → ℕ → ℕ → Result String String
  unfolding validate_credential
  sign_relay_credential state endpoint_id kind generation issued_at expires_at = do
    let credential : RelayCredential = record {
      protocol_version = relay_protocol_version;
      audience = state.audience;
      control_id = p.public_id key;
      endpoint_id = endpoint_id;
      kind = kind;
      generation = generation;
      issued_at = issued_at;
      expires_at = expires_at;
    }
    validate_credential credential
    ok (
        p.signed_credential_text credential (
          p.sign key
            (domain_bytes p "agent-scale-relay-credential-v3\0" (p.credential_json credential))))

  -- What the map says that depends on the recipient's role: credential, allowed clients and edges.
  abbrev pub Role : Type 0
  Role = Option String × List String × List EdgeInfo

  unfoldable pub edge_role : ControlState → String → EdgeRecord → Result String Role
  unfolding sign_relay_credential
  edge_role state recipient edge = do
    credential ←
        sign_relay_credential state recipient edge_subject edge.credential_generation
          edge.credential_issued_at edge.credential_expires_at
    ok (some credential, edge.owner_id ∷ [], [])

  unfoldable pub client_role : ControlState → String → ClientRecord → Result String Role
  unfolding sign_relay_credential edge_info
  client_role state recipient client = do
    let edges = map (edge_info state) (retain (λ edge. edge.owner_id == recipient) state.edges)
    credential ←
        sign_relay_credential state recipient client_subject client.credential_generation
          client.credential_issued_at client.credential_expires_at
    ok (some credential, [], edges)

  unfoldable pub relay_role : ControlState → String → Result String Role
  relay_role state recipient = do
    ensure (has_relay state recipient) "node is not registered"
    ok (none, [], [])

  -- By what is registered under the identity: an edge comes first, then a client, then a relay.
  unfoldable pub role_of :
      ControlState → String → Option EdgeRecord → Option ClientRecord → Result String Role
  unfolding edge_role client_role relay_role
  role_of state recipient (some edge) _ = edge_role state recipient edge
  role_of state recipient none (some client) = client_role state recipient client
  role_of state recipient none none = relay_role state recipient

  unfoldable pub recipient_role : ControlState → String → Result String Role
  unfolding role_of
  recipient_role state recipient =
      role_of state recipient (edge_with_id state recipient) (client_with_id state recipient)

  -- `issued_at` is the clock's reading.
  unfoldable pub node_map : ControlState → String → ℕ → Role → NodeMap
  node_map state recipient issued_at (credential, allowed_clients, edges) = record {
    protocol_version = control_protocol_version;
    audience = state.audience;
    control_url = state.public_url;
    control_id = p.public_id key;
    revision = state.revision;
    issued_at = issued_at;
    recipient_id = recipient;
    relays = map relay_info state.relays;
    relay_credential = credential;
    relay_ca_der = state.relay_ca_der;
    allowed_clients = allowed_clients;
    edges = edges;
  }

  unfoldable pub signed_map : ControlState → String → ℕ → Result String SignedNodeMap
  unfolding recipient_role node_map
  signed_map state recipient issued_at = do
    role ← recipient_role state recipient
    let map' = node_map state recipient issued_at role
    ok (record {
      map = map';
      signature = p.sign key (domain_bytes p "agent-scale-control-map-v5\0" (p.map_json map'));
    })
