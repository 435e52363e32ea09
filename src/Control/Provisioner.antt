-- ===== src/Control/Provisioner.antt =====
-- Scheduler requests: `POST /v1/provisioner` after its signature was verified
-- (crates/as-control/src/main.rs, dispatch_provisioner_mutation and its helpers).
use agent_scale.Base.{
  Option, ℕ, String, Bool, not, ◌&&◌, none, some, [], ◌∷◌, map, ◌==◌, ltb, holds, any, find, retain,
  Result, ok, err, ok_or, reject_if, ◌>>=◌, ◌>>◌, map_err, ◌<>◌, if◌then◌else◌,
}
use agent_scale.Control.Errors.{ApiError, bad, conflict, forbidden, internal}
use agent_scale.Control.Wire.{
  InviteKind, client, edge, ProvisionerRequest, ProvisionerAction, get_topology, invite_client,
  invite_edge, revoke_invite, remove_client, remove_edge, transfer_edge, ProvisionerResponse,
  topology_response, invite_response, ok_response, ProvisionerTopology, ManagedClientInfo,
  ManagedEdgeInfo, InviteInfo,
}
use agent_scale.Control.State.{
  ControlState, ClientRecord, EdgeRecord, InviteRecord, InviteState, pending, claimed, revoked,
  put_invite, put_edge, topology,
}
use agent_scale.Control.Commit.{Decision, answer, commit}
use agent_scale.Control.Platform.{Platform}
use agent_scale.Control.Checks.{
  authorize_provisioner, managed_client_id, check_expected_revision, validate_name,
  validate_join_secret,
}
use agent_scale.Control.Invites.{validate_invite_name, build_invite, invite_result}
use agent_scale.Control.Removal.{client_removal, edge_removal, check_client_unused}

abbrev pub provisioner_ok : ControlState → Result ApiError ProvisionerResponse
provisioner_ok state = ok (ok_response state.revision)

-- The same answer without a commit: the request has been served before.
abbrev pub unchanged : ControlState → Decision ProvisionerResponse
unchanged state = ok (answer (ok_response state.revision))

-- The revoked form of a pending invitation's record.
abbrev pub revoked_record : InviteRecord → ℕ → InviteRecord
revoked_record r now = record r { state = revoked; terminal_at = some now }

-- The word that `invite_info` shows.
unfoldable pub shown_state : InviteRecord → ℕ → InviteState → String
shown_state r now pending = if ltb r.invite.expires_at now then "expired" else "pending"
shown_state r now claimed = "claimed"
shown_state r now revoked = "revoked"

unfoldable pub invite_info : ℕ → InviteRecord → InviteInfo
unfolding shown_state
invite_info now r = record {
  invite_id = r.invite.invite_id;
  name = r.invite.name;
  kind = r.invite.kind;
  expires_at = r.invite.expires_at;
  state = shown_state r now r.state;
}

abbrev pub managed_edge_info : EdgeRecord → ManagedEdgeInfo
managed_edge_info e = record { name = e.name; endpoint_id = e.endpoint_id }

unfoldable pub managed_client_info : ControlState → ClientRecord → ManagedClientInfo
managed_client_info state c = record {
  name = c.name;
  endpoint_id = c.endpoint_id;
  edges = map managed_edge_info (retain (λ item. item.owner_id == c.endpoint_id) state.edges);
}

unfoldable pub provisioner_topology : ControlState → String → ℕ → ProvisionerTopology
unfolding managed_client_info invite_info
provisioner_topology state provisioner_id now = record {
  revision = state.revision;
  clients =
      map (managed_client_info state)
        (retain (λ c. holds c.managed_by provisioner_id) state.clients);
  invites = map (invite_info now) (retain (λ r. holds r.managed_by provisioner_id) state.invites);
}

abbrev pub edge_at : String → String → String → EdgeRecord → Bool
edge_at owner_id name endpoint_id item =
    item.owner_id == owner_id && item.name == name && item.endpoint_id == endpoint_id

module _ (p : Platform) (key : String) where
  -- The digest of `action_hash`.
  unfoldable pub action_hash : ProvisionerAction → String
  action_hash action =
      p.hex_encode
        (p.sha256 ("agent-scale-control-provisioner-action-v1\0" <> p.action_json action))

  -- A request that was served before is answered from the stored invitation, if the action is the
  -- same.
  unfoldable pub repeated_invite :
      InviteRecord → ProvisionerAction → String → Decision ProvisionerResponse
  repeated_invite existing action secret = do
    reject_if (not (holds existing.request_hash (action_hash action)))
        (conflict "request id was already used for another action")
    result ← map_err internal (invite_result p key existing.invite secret)
    ok (answer (invite_response result))

  -- Answers a repeated request, or commits a new invitation.
  unfoldable pub invite_or_repeat :
      ControlState
      → String
      → ProvisionerRequest
      → String
      → InviteKind
      → ℕ
      → String
      → ℕ
      → ℕ
      → String
      → Option InviteRecord
      → Decision ProvisionerResponse
  invite_or_repeat state id request name kind ttl_secs secret scan now invite_id (some existing) =
      repeated_invite existing request.action secret
  invite_or_repeat state id request name kind ttl_secs secret scan now invite_id none = do
    check_expected_revision p.decimal state request.expected_revision
    validate_invite_name state scan name kind
    (result, r) ← map_err bad (build_invite p key state name kind ttl_secs secret now invite_id)
    ok (
        commit
          (topology (
            put_invite (record r {
              request_id = some request.request_id;
              managed_by = some id;
              request_hash = some (action_hash request.action);
            })
            ∷ []))
          (λ _. ok (invite_response result)))

  unfoldable pub served_invite : ControlState → String → String → Option InviteRecord
  served_invite state id request_id =
      find (λ item. holds item.managed_by id && holds item.request_id request_id) state.invites

  unfoldable pub provisioner_invite :
      ControlState
      → String
      → ProvisionerRequest
      → String
      → InviteKind
      → ℕ
      → String
      → ℕ
      → ℕ
      → String
      → Decision ProvisionerResponse
  provisioner_invite state id request name kind ttl_secs secret scan now invite_id = do
    map_err bad (validate_name name)
    map_err bad (validate_join_secret secret)
    invite_or_repeat state id request name kind ttl_secs secret scan now invite_id
        (served_invite state id request.request_id)

  unfoldable pub revoke_by_state :
      ControlState
      → ProvisionerRequest
      → ℕ
      → InviteRecord
      → InviteState
      → Decision ProvisionerResponse
  revoke_by_state state request now r revoked = unchanged state
  revoke_by_state state request now r claimed = err (conflict "claimed invites cannot be revoked")
  revoke_by_state state request now r pending = do
    check_expected_revision p.decimal state request.expected_revision
    ok (commit (topology (put_invite (revoked_record r now) ∷ [])) provisioner_ok)

  unfoldable pub remove_found_client :
      ControlState
      → ProvisionerRequest
      → ℕ
      → String
      → Option ClientRecord
      → Decision ProvisionerResponse
  remove_found_client state request scan name none = do
    reject_if (any (λ item. item.name == name) state.clients)
        (forbidden "client is managed by another authority")
    unchanged state
  remove_found_client state request scan name (some c) = do
    check_client_unused state scan c
    check_expected_revision p.decimal state request.expected_revision
    ok (commit (client_removal state c) provisioner_ok)

  unfoldable pub remove_managed_client :
      ControlState → String → ProvisionerRequest → ℕ → String → Decision ProvisionerResponse
  remove_managed_client state id request scan name =
      remove_found_client state request scan name
        (find (λ item. item.name == name && holds item.managed_by id) state.clients)

  unfoldable pub remove_found_edge :
      ControlState → ProvisionerRequest → Option EdgeRecord → Decision ProvisionerResponse
  remove_found_edge state request none = unchanged state
  remove_found_edge state request (some e) = do
    check_expected_revision p.decimal state request.expected_revision
    ok (commit (edge_removal state e) provisioner_ok)

  unfoldable pub remove_managed_edge :
      ControlState → String → ProvisionerRequest → String → String → Decision ProvisionerResponse
  remove_managed_edge state id request owner name = do
    owner_id ← managed_client_id state owner id
    remove_found_edge state request
        (find (λ item. item.owner_id == owner_id && item.name == name) state.edges)

  unfoldable pub transfer_found_edge :
      ControlState
      → ProvisionerRequest
      → String
      → String
      → String
      → Option EdgeRecord
      → Decision ProvisionerResponse
  transfer_found_edge state request name endpoint_id new_owner_id none = do
    reject_if (not (any (edge_at new_owner_id name endpoint_id) state.edges))
        (bad "unknown managed edge")
    unchanged state
  transfer_found_edge state request name endpoint_id new_owner_id (some e) = do
    reject_if (any (λ item. item.owner_id == new_owner_id && item.name == name) state.edges)
        (conflict "target client already has an edge with this name")
    check_expected_revision p.decimal state request.expected_revision
    ok (commit (topology (put_edge (record e { owner_id = new_owner_id }) ∷ [])) provisioner_ok)

  unfoldable pub transfer_managed_edge :
      ControlState
      → String
      → ProvisionerRequest
      → String
      → String
      → String
      → String
      → Decision ProvisionerResponse
  transfer_managed_edge state id request owner name endpoint_text new_owner = do
    endpoint_id ← ok_or (p.parse_endpoint endpoint_text) (bad "invalid edge endpoint id")
    owner_id ← managed_client_id state owner id
    new_owner_id ← managed_client_id state new_owner id
    transfer_found_edge state request name endpoint_id new_owner_id
        (find (edge_at owner_id name endpoint_id) state.edges)

  -- The clock is read for the pending invitations (`scan`) and for the new record (`now`).
  unfoldable pub dispatch_provisioner_mutation :
      String
      → ProvisionerRequest
      → ProvisionerAction
      → ℕ
      → ℕ
      → String
      → ControlState
      → Decision ProvisionerResponse
  dispatch_provisioner_mutation id request get_topology scan now invite_id state =
      ok (answer (topology_response (provisioner_topology state id now)))
  dispatch_provisioner_mutation id request (invite_client name ttl_secs secret) scan now invite_id
        state =
      provisioner_invite state id request name client ttl_secs secret scan now invite_id
  dispatch_provisioner_mutation id request (invite_edge owner name ttl_secs secret) scan now
        invite_id state =
      do
        owner_id ← managed_client_id state owner id
        provisioner_invite state id request name (edge owner_id) ttl_secs secret scan now invite_id
  dispatch_provisioner_mutation id request (revoke_invite invite) scan now invite_id state = do
    r ←
        ok_or
          (find (λ item. item.invite.invite_id == invite && holds item.managed_by id) state.invites)
          (bad "unknown managed invite")
    revoke_by_state state request now r r.state
  dispatch_provisioner_mutation id request (remove_client name) scan now invite_id state =
      remove_managed_client state id request scan name
  dispatch_provisioner_mutation id request (remove_edge owner name) scan now invite_id state =
      remove_managed_edge state id request owner name
  dispatch_provisioner_mutation id request (transfer_edge owner name endpoint_id new_owner) scan now
        invite_id state =
      transfer_managed_edge state id request owner name endpoint_id new_owner

  -- The locked section: a query and a mutation are authorized alike.
  unfoldable pub provisioner_section :
      String → ProvisionerRequest → ℕ → ℕ → String → ControlState → Decision ProvisionerResponse
  provisioner_section id request scan now invite_id state = do
    authorize_provisioner state request.audience id
    dispatch_provisioner_mutation id request request.action scan now invite_id state
