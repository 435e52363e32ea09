-- ===== src/Invariant/Operations.antt =====
-- Each request and background task of Control either leaves the store as it was or commits one delta
-- that fits the state, whatever its arguments.
use agent_scale.Base.{
  refl, inl, inl, none, ℕ, String, Bool, true, false, Option, Result, ok, err, ok_or, map_err,
}
use agent_scale.Control.Errors.{ApiError, bad}
use agent_scale.Control.Wire.{
  InviteKind, client, edge, relay, ClaimRequest, EdgeInviteRequest, EdgeRemoveRequest,
}
use agent_scale.Control.Commit.{Store, ApplyDelta, run_section}
use agent_scale.Control.Platform.{Platform}
use agent_scale.Control.Checks.{validate_name}
use agent_scale.Control.Claim.{claim, claim_verification}
use agent_scale.Control.Requests.{
  client_edge_invite, client_edge_remove, edge_invite_verification, edge_remove_verification,
}
use agent_scale.Control.Authorization.{provisioner_request, provisioner_verification}
use agent_scale.Control.Admin.{
  LocalAdminRequest, invite_client, invite_edge, invite_relay, revoke_invite, remove_client,
  transfer_edge, remove_edge, remove_relay, add_provisioner, remove_provisioner,
  dispatch_local_admin, local_create_invite, edge_invite_owner,
}
use agent_scale.Control.Upkeep.{
  renew_section, update_port_section, cleanup_section, renew_relay_credential_if_needed,
  renewal_due, update_relay_qad_port_if_needed, invitation_cleanup,
}
use agent_scale.Invariant.Tables.{WellFormed}
use agent_scale.Invariant.Sections.{Settled, run_section-Settled}
use agent_scale.Invariant.Enrolment.{claim_section-Fits}
use agent_scale.Invariant.Handlers.{
  edge_invite_section-Fits, edge_remove_section-Fits, provisioner_section-Fits,
}
use agent_scale.Invariant.Admin.{
  admin_revoke_invite-Fits, admin_remove_client-Fits, admin_transfer_edge-Fits,
  admin_remove_edge-Fits, admin_remove_relay-Fits, admin_add_provisioner-Fits,
  admin_remove_provisioner-Fits, create_invite_section-Fits, renew_section-Fits,
  update_port_section-Fits, cleanup_section-Fits,
}

module _ (p : Platform) (key : String) {D : Type 0} (apply_delta : ApplyDelta D) (store : Store D)
    (v : WellFormed store.state) where
  -- What runs once its arguments were checked.
  checked-Settled :
      {A B : Type 0} (checked : Result ApiError A) (run : A → Result ApiError B × Store D)
      → ((a : A) → Settled apply_delta store (run a).1)
      → Settled apply_delta store
          (elim checked as (λ _. Result ApiError B × Store D) [
            | ok a ↦ run a
            | err e ↦ (err e, store)
          ]).1
  checked-Settled (ok a) run h = h a
  checked-Settled (err e) run h = inl refl

  pub claim-Settled :
      (request : ClaimRequest) (now issue_time map_time : ℕ)
      → Settled apply_delta store (claim p key apply_delta request now issue_time map_time store).1
  unfolding claim
  claim-Settled request now issue_time map_time =
      checked-Settled (claim_verification p key request now) _ λ id.
        run_section-Settled apply_delta _ store
          (claim_section-Fits p key store.state request id now issue_time map_time)

  pub client_edge_invite-Settled :
      (request : EdgeInviteRequest) (arrival scan now : ℕ) (secret invite_id : String)
      → Settled apply_delta store
          (client_edge_invite p key apply_delta request arrival scan now secret invite_id store).1
  unfolding client_edge_invite
  client_edge_invite-Settled request arrival scan now secret invite_id =
      checked-Settled (edge_invite_verification p key request arrival) _ λ id.
        run_section-Settled apply_delta _ store
          (edge_invite_section-Fits p key store.state v request id scan now secret invite_id)

  pub client_edge_remove-Settled :
      (request : EdgeRemoveRequest) (arrival map_time : ℕ)
      → Settled apply_delta store
          (client_edge_remove p key apply_delta request arrival map_time store).1
  unfolding client_edge_remove
  client_edge_remove-Settled request arrival map_time =
      checked-Settled (edge_remove_verification p key request arrival) _ λ id.
        run_section-Settled apply_delta _ store
          (edge_remove_section-Fits p key store.state v request id map_time)

  pub provisioner_request-Settled :
      (header : Option String) (body : String) (arrival scan now : ℕ) (invite_id : String)
      → Settled apply_delta store
          (provisioner_request p key apply_delta header body arrival scan now invite_id store).1
  unfolding provisioner_request
  provisioner_request-Settled header body arrival scan now invite_id =
      checked-Settled (provisioner_verification p header body arrival) _ λ q.
        run_section-Settled apply_delta _ store
          (provisioner_section-Fits p key store.state v q.0 q.1 scan now invite_id)

  pub local_create_invite-Settled :
      (name : String) (kind : InviteKind) (ttl : ℕ) (managed_by : Option String) (scan now : ℕ)
      (secret invite_id : String)
      → Settled apply_delta store
          (local_create_invite p key apply_delta name kind ttl managed_by scan now secret invite_id
            store).1
  unfolding local_create_invite
  local_create_invite-Settled name kind ttl managed_by scan now secret invite_id =
      checked-Settled (map_err bad (validate_name name)) _ λ _.
        run_section-Settled apply_delta _ store (
          create_invite_section-Fits store.state v p key name kind ttl managed_by scan now secret
            invite_id)

  pub dispatch_local_admin-Settled :
      (request : LocalAdminRequest) (scan now : ℕ) (secret invite_id : String)
      → Settled apply_delta store
          (dispatch_local_admin p key apply_delta request scan now secret invite_id store).1
  unfolding dispatch_local_admin
  dispatch_local_admin-Settled (invite_client name ttl) scan now secret invite_id =
      local_create_invite-Settled name client ttl none scan now secret invite_id
  dispatch_local_admin-Settled (invite_edge name owner ttl) scan now secret invite_id =
      checked-Settled (edge_invite_owner p key apply_delta owner store.state) _
        λ q. local_create_invite-Settled name (edge q.0) ttl q.1 scan now secret invite_id
  dispatch_local_admin-Settled (invite_relay name url ttl) scan now secret invite_id =
      checked-Settled (ok_or (p.normalize_relay_url url) (bad "invalid relay URL")) _
        λ normal. local_create_invite-Settled name (relay normal) ttl none scan now secret invite_id
  dispatch_local_admin-Settled (revoke_invite id) scan now secret invite_id =
      run_section-Settled apply_delta _ store (admin_revoke_invite-Fits store.state v id now)
  dispatch_local_admin-Settled (remove_client name) scan now secret invite_id =
      run_section-Settled apply_delta _ store (admin_remove_client-Fits store.state v name scan)
  dispatch_local_admin-Settled (transfer_edge edge_ref to) scan now secret invite_id =
      run_section-Settled apply_delta _ store (admin_transfer_edge-Fits store.state v edge_ref to)
  dispatch_local_admin-Settled (remove_edge edge_ref) scan now secret invite_id =
      run_section-Settled apply_delta _ store (admin_remove_edge-Fits store.state v edge_ref)
  dispatch_local_admin-Settled (remove_relay name) scan now secret invite_id =
      run_section-Settled apply_delta _ store (admin_remove_relay-Fits store.state v name)
  dispatch_local_admin-Settled (add_provisioner name id) scan now secret invite_id =
      checked-Settled _ _ λ endpoint_id.
        run_section-Settled apply_delta _ store
          (admin_add_provisioner-Fits store.state v name endpoint_id)
  dispatch_local_admin-Settled (remove_provisioner name) scan now secret invite_id =
      run_section-Settled apply_delta _ store
        (admin_remove_provisioner-Fits store.state v name scan)

  renew_if-Settled :
      (endpoint : String) (now : ℕ) (due : Result ApiError Bool)
      → Settled apply_delta store
          (elim due as (λ _. Result ApiError Bool × Store D) [
            | ok true ↦ run_section apply_delta (renew_section endpoint now) store
            | ok false ↦ (ok false, store)
            | err e ↦ (err e, store)
          ]).1
  renew_if-Settled endpoint now (ok true) =
      run_section-Settled apply_delta (renew_section endpoint now) store
        (renew_section-Fits store.state v endpoint now)
  renew_if-Settled endpoint now (ok false) = inl refl
  renew_if-Settled endpoint now (err e) = inl refl

  pub renew_relay_credential_if_needed-Settled :
      (endpoint : String) (now : ℕ)
      → Settled apply_delta store
          (renew_relay_credential_if_needed apply_delta endpoint now store).1
  unfolding renew_relay_credential_if_needed
  renew_relay_credential_if_needed-Settled endpoint now =
      renew_if-Settled endpoint now (renewal_due endpoint now store.state)

  pub update_relay_qad_port_if_needed-Settled :
      (endpoint : String) (qad_port : Option ℕ)
      → Settled apply_delta store
          (update_relay_qad_port_if_needed apply_delta endpoint qad_port store).1
  unfolding update_relay_qad_port_if_needed
  update_relay_qad_port_if_needed-Settled endpoint qad_port =
      run_section-Settled apply_delta (update_port_section endpoint qad_port) store
        (update_port_section-Fits store.state v endpoint qad_port)

  pub invitation_cleanup-Settled :
      (now : ℕ) → Settled apply_delta store (invitation_cleanup apply_delta now store)
  unfolding invitation_cleanup
  invitation_cleanup-Settled now =
      run_section-Settled apply_delta (cleanup_section now) store
        (cleanup_section-Fits store.state v now)
