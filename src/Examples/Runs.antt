-- ===== src/Examples/Runs.antt =====
-- Runs of the handlers at concrete inputs: each is accepted and does what it should.
use agent_scale.Base.{
  ◌&&◌, eqb, not, ◌≡◌, refl, true, ◌+◌, find, any, retain, upsert_record, ◌==◌, ◌>>=◌, ok_or,
  ensure, reject_if, map_err, err, epoch,
}
use agent_scale.Control.Errors.{gone}
use agent_scale.Control.State.{apply, apply_changes, apply_change}
use agent_scale.Control.Commit.{advance, commit_delta, run_decision, run_section}
use agent_scale.Control.Platform.{
  domain_bytes, hash_secret, verify_token, verify_claim, verify_edge_remove,
}
use agent_scale.Control.Checks.{
  byte_len, check_time, validate_name, all_bytes, is_name_byte, is_ascii_alphanumeric,
  authorize_provisioner, check_expected_revision,
}
use agent_scale.Control.Wire.{invite_eq}
use agent_scale.Control.Invites.{validate_token_for_state, invite_is_active_pending}
use agent_scale.Control.Map.{signed_map}
use agent_scale.Control.Removal.{
  revocation_change, edge_removal, client_removal, check_client_unused,
}
use agent_scale.Control.Claim.{
  validate_relay_claim, claimed_node_change, issue_relay_tls_certificate, claim_by_state,
  claim_section, claim_verification, claim,
}
use agent_scale.Control.Requests.{edge_remove_section, edge_remove_verification, client_edge_remove}
use agent_scale.Control.Provisioner.{
  remove_found_client, remove_managed_client, dispatch_provisioner_mutation, provisioner_section,
}
use agent_scale.Examples.World.{
  platform, control_key, accept, store, state, claim_request, edge_removal_request, managed_state,
  managed_removal, now,
}

-- The claim of the pending invitation is committed at the next revision.
claim_revision :
    (claim platform control_key accept claim_request now now now store).1.state.revision ≡ 5
unfolding claim claim_verification verify_token verify_claim hash_secret domain_bytes check_time
    run_section run_decision commit_delta claim_section validate_token_for_state invite_eq
    validate_relay_claim issue_relay_tls_certificate claim_by_state claimed_node_change advance
    apply apply_changes apply_change signed_map find any retain upsert_record ◌==◌ ◌>>=◌ ok_or
    ensure reject_if map_err
claim_revision = refl

-- After its expiry the invitation is gone, and nothing changes.
claim_expired :
    claim_section platform control_key claim_request "b" (epoch + 2001) now now state
    ≡ err (gone "invite expired")
unfolding claim_section validate_token_for_state ◌==◌ ◌>>=◌ reject_if
claim_expired = refl

-- The removal of the edge publishes its revocation.
edge_remove_revocations :
    (let after =
        (client_edge_remove platform control_key accept edge_removal_request now now store).1 in
      any (λ r. r.endpoint_id == "e" && eqb r.revision 2) after.state.revocations
      && not (any (λ e. e.endpoint_id == "e") after.state.edges)
      && eqb after.state.relay_revision 2)
    ≡ true
unfolding client_edge_remove edge_remove_verification verify_edge_remove domain_bytes check_time
    validate_name all_bytes is_name_byte is_ascii_alphanumeric byte_len run_section run_decision
    commit_delta edge_remove_section edge_removal revocation_change advance apply apply_changes
    apply_change find any retain upsert_record ◌==◌ ◌>>=◌ ok_or ensure reject_if map_err
edge_remove_revocations = refl

-- A provisioner removes its own client, at the revision that it expects.
provisioner_removal_clients :
    (run_section accept
      (provisioner_section platform control_key "p" managed_removal now now "i2")
      (record store { state = managed_state })).1.state.clients
    ≡ state.clients
unfolding provisioner_section authorize_provisioner dispatch_provisioner_mutation
    remove_managed_client remove_found_client check_client_unused invite_is_active_pending
    check_expected_revision client_removal revocation_change run_section run_decision commit_delta
    advance apply apply_changes apply_change find any retain upsert_record ◌==◌ ◌>>=◌ ok_or ensure
    reject_if map_err
provisioner_removal_clients = refl
