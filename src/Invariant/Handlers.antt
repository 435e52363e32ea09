-- ===== src/Invariant/Handlers.antt =====
-- Every section's delta fits a well-formed state.
use agent_scale.Base.{
  ℕ, String, ◌≡◌, refl, Bool, true, false, ◌==◌, Option, none, some, any, find, find_sound,
  any_found, eq_of_==, &&-true, Ensures, Ensures-ok, Ensures-err, Ensures-bind, Ensures-then,
  Ensures-ok_or, Ensures-reject_if,
}
use agent_scale.Control.State.{
  ControlState, ClientRecord, EdgeRecord, InviteRecord, InviteState, pending, claimed, revoked,
}
use agent_scale.Control.Wire.{
  InviteKind, client, edge, get_topology, invite_client, invite_edge, revoke_invite, remove_client,
  remove_edge, transfer_edge, EdgeInviteRequest, EdgeRemoveRequest, ProvisionerRequest,
  ProvisionerAction,
}
use agent_scale.Control.Platform.{Platform}
use agent_scale.Control.Checks.{has_client, managed_client_id, client_id_by_name, client_named}
use agent_scale.Control.Removal.{check_client_unused}
use agent_scale.Control.Requests.{edge_invite_section, edge_remove_section}
use agent_scale.Control.Provisioner.{
  repeated_invite, invite_or_repeat, provisioner_invite, revoke_by_state, remove_found_client,
  remove_managed_client, remove_found_edge, remove_managed_edge, transfer_found_edge,
  transfer_managed_edge, dispatch_provisioner_mutation, provisioner_section, edge_at,
}
use agent_scale.Invariant.Tables.{WellFormed}
use agent_scale.Invariant.Sections.{OutcomeFits}
use agent_scale.Invariant.Removals.{client_removal-Fits, edge_removal-Fits, transfer-Fits}

module _ (s : ControlState) where
  pub managed_client_id-registered :
      (name id : String)
      → Ensures (λ owner. has_client s owner ≡ true) (managed_client_id s name id)
  unfolding managed_client_id
  managed_client_id-registered name id =
      Ensures-ok_or _ _ _
        λ c e. Ensures-ok (any_found (λ (x : ClientRecord). x.endpoint_id) _ s.clients e)

  pub client_id_by_name-registered :
      (name : String) → Ensures (λ owner. has_client s owner ≡ true) (client_id_by_name s name)
  unfolding client_id_by_name client_named
  client_id_by_name-registered name =
      Ensures-ok_or _ _ _
        λ c e. Ensures-ok (any_found (λ (x : ClientRecord). x.endpoint_id) _ s.clients e)

  pub check_client_unused-unowned :
      (scan : ℕ) (c : ClientRecord)
      → Ensures
          (λ _. any (λ (e : EdgeRecord). e.owner_id == c.endpoint_id) s.edges ≡ false)
          (check_client_unused s scan c)
  unfolding check_client_unused
  check_client_unused-unowned scan c =
      Ensures-reject_if _ _ _ λ unowned. record { value = λ _ _. unowned }

module _ (p : Platform) (key : String) (s : ControlState) (v : WellFormed s) where
  pub edge_invite_section-Fits :
      (request : EdgeInviteRequest) (id : String) (scan now : ℕ) (secret invite_id : String)
      → Ensures (OutcomeFits s) (edge_invite_section p key request id scan now secret invite_id s)
  unfolding edge_invite_section
  edge_invite_section-Fits request id scan now secret invite_id = Ensures-reject_if _ _ _ λ _.
      Ensures-ok_or _ _ _ λ owner _.
        Ensures-reject_if _ _ _
          λ _. Ensures-bind _ _ λ _ _. Ensures-bind _ _ λ _ _. Ensures-ok (tt, tt)

  pub edge_remove_section-Fits :
      (request : EdgeRemoveRequest) (id : String) (map_time : ℕ)
      → Ensures (OutcomeFits s) (edge_remove_section p key request id map_time s)
  unfolding edge_remove_section
  edge_remove_section-Fits request id map_time = Ensures-reject_if _ _ _ λ _.
      Ensures-reject_if _ _ _
        λ _. Ensures-ok_or _ _ _ λ e found. Ensures-ok (edge_removal-Fits s v _ found)

  invite_or_repeat-Fits :
      (id : String) (request : ProvisionerRequest) (name : String) (kind : InviteKind) (ttl : ℕ)
      (secret : String) (scan now : ℕ) (invite_id : String) (o : Option InviteRecord)
      → Ensures
          (OutcomeFits s)
          (invite_or_repeat p key s id request name kind ttl secret scan now invite_id o)
  unfolding invite_or_repeat repeated_invite
  invite_or_repeat-Fits id request name kind ttl secret scan now invite_id (some existing) =
      Ensures-reject_if _ _ _ λ _. Ensures-bind _ _ λ _ _. Ensures-ok tt
  invite_or_repeat-Fits id request name kind ttl secret scan now invite_id none =
      Ensures-bind _ _ λ _ _. Ensures-bind _ _ λ _ _. Ensures-bind _ _ λ _ _. Ensures-ok (tt, tt)

  provisioner_invite-Fits :
      (id : String) (request : ProvisionerRequest) (name : String) (kind : InviteKind) (ttl : ℕ)
      (secret : String) (scan now : ℕ) (invite_id : String)
      → Ensures
          (OutcomeFits s)
          (provisioner_invite p key s id request name kind ttl secret scan now invite_id)
  unfolding provisioner_invite
  provisioner_invite-Fits id request name kind ttl secret scan now invite_id =
      Ensures-bind _ _ λ _ _.
        Ensures-bind _ _
          λ _ _. invite_or_repeat-Fits id request name kind ttl secret scan now invite_id _

  revoke_by_state-Fits :
      (request : ProvisionerRequest) (now : ℕ) (r : InviteRecord) (state : InviteState)
      → Ensures (OutcomeFits s) (revoke_by_state p key s request now r state)
  unfolding revoke_by_state
  revoke_by_state-Fits request now r pending = Ensures-bind _ _ λ _ _. Ensures-ok (tt, tt)
  revoke_by_state-Fits request now r claimed = Ensures-err _
  revoke_by_state-Fits request now r revoked = Ensures-ok tt

  remove_found_client-Fits :
      (request : ProvisionerRequest) (scan : ℕ) (name : String) (q : ClientRecord → Bool)
      (o : Option ClientRecord)
      → find q s.clients ≡ o
      → Ensures (OutcomeFits s) (remove_found_client p key s request scan name o)
  unfolding remove_found_client
  remove_found_client-Fits request scan name q none found =
      Ensures-reject_if _ _ _ λ _. Ensures-ok tt
  remove_found_client-Fits request scan name q (some c) found =
      Ensures-then _ _ (check_client_unused-unowned s scan c)
        λ _ unowned. Ensures-bind _ _ λ _ _. Ensures-ok (client_removal-Fits s v q found unowned)

  remove_found_edge-Fits :
      (request : ProvisionerRequest) (q : EdgeRecord → Bool) (o : Option EdgeRecord)
      → find q s.edges ≡ o
      → Ensures (OutcomeFits s) (remove_found_edge p key s request o)
  unfolding remove_found_edge
  remove_found_edge-Fits request q none found = Ensures-ok tt
  remove_found_edge-Fits request q (some e) found =
      Ensures-bind _ _ λ _ _. Ensures-ok (edge_removal-Fits s v q found)

  edge_at-name :
      (owner name id : String) (e : EdgeRecord) → edge_at owner name id e ≡ true → e.name ≡ name
  edge_at-name owner name id e h = eq_of_== e.name name (&&-true _ _ (&&-true _ _ h).0).1

  transfer_found_edge-Fits :
      (request : ProvisionerRequest) (owner name id new_owner : String) (o : Option EdgeRecord)
      → has_client s new_owner ≡ true
      → find (edge_at owner name id) s.edges ≡ o
      → Ensures (OutcomeFits s) (transfer_found_edge p key s request name id new_owner o)
  unfolding transfer_found_edge
  transfer_found_edge-Fits request owner name id new_owner none registered found =
      Ensures-reject_if _ _ _ λ _. Ensures-ok tt
  transfer_found_edge-Fits request owner name id new_owner (some e) registered found =
      Ensures-reject_if _ _ _ λ free. Ensures-bind _ _ λ _ _. Ensures-ok (
        transfer-Fits s v (edge_at owner name id) name new_owner found
            (edge_at-name owner name id e (find_sound _ s.edges found)) free registered,
        tt,
      )

  dispatch-Fits :
      (id : String) (request : ProvisionerRequest) (action : ProvisionerAction) (scan now : ℕ)
      (invite_id : String)
      → Ensures
          (OutcomeFits s)
          (dispatch_provisioner_mutation p key id request action scan now invite_id s)
  unfolding dispatch_provisioner_mutation remove_managed_client remove_managed_edge
      transfer_managed_edge
  dispatch-Fits id request get_topology scan now invite_id = Ensures-ok tt
  dispatch-Fits id request (invite_client name ttl secret) scan now invite_id =
      provisioner_invite-Fits id request name client ttl secret scan now invite_id
  dispatch-Fits id request (invite_edge owner name ttl secret) scan now invite_id =
      Ensures-bind _ _ λ owner_id _.
        provisioner_invite-Fits id request name (edge owner_id) ttl secret scan now invite_id
  dispatch-Fits id request (revoke_invite invite) scan now invite_id =
      Ensures-ok_or _ _ _ λ r _. revoke_by_state-Fits request now r r.state
  dispatch-Fits id request (remove_client name) scan now invite_id =
      remove_found_client-Fits request scan name _ _ refl
  dispatch-Fits id request (remove_edge owner name) scan now invite_id =
      Ensures-bind _ _ λ owner_id _. remove_found_edge-Fits request _ _ refl
  dispatch-Fits id request (transfer_edge owner name text new_owner) scan now invite_id =
      Ensures-ok_or _ _ _ λ edge_id _. Ensures-bind _ _ λ owner_id _.
        Ensures-then _ _ (managed_client_id-registered s new_owner id) λ new_id registered.
          transfer_found_edge-Fits request owner_id name edge_id new_id _ registered refl

  pub provisioner_section-Fits :
      (id : String) (request : ProvisionerRequest) (scan now : ℕ) (invite_id : String)
      → Ensures (OutcomeFits s) (provisioner_section p key id request scan now invite_id s)
  unfolding provisioner_section
  provisioner_section-Fits id request scan now invite_id =
      Ensures-bind _ _ λ _ _. dispatch-Fits id request request.action scan now invite_id
