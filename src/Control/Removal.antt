-- ===== src/Control/Removal.antt =====
-- Revocation records, and the deltas of removals (crates/as-control/src/main.rs).
use agent_scale.Base.{
  ℕ, max, String, Bool, false, ◌&&◌, Option, none, some, [], ◌∷◌, ◌==◌, find, any, saturating_add,
  Result, ◌>>◌, reject_if,
}
use agent_scale.Control.Errors.{ApiError, conflict}
use agent_scale.Control.Wire.{InviteKind, edge}
use agent_scale.Control.State.{
  ControlState, ClientRecord, EdgeRecord, RevocationRecord, StateChange, StateDelta, put_revocation,
  delete_client, delete_edge, revocation,
}
use agent_scale.Control.Invites.{invite_is_active_pending}

-- An identity that was revoked before keeps the later generation and expiry.
abbrev pub merge_revocation : Option RevocationRecord → String → ℕ → ℕ → ℕ → RevocationRecord
merge_revocation none endpoint_id generation expires_at revision = record {
  endpoint_id = endpoint_id;
  revoked_through_generation = generation;
  expires_at = expires_at;
  revision = revision;
}
merge_revocation (some existing) endpoint_id generation expires_at revision = record {
  endpoint_id = endpoint_id;
  revoked_through_generation = max existing.revoked_through_generation generation;
  expires_at = max existing.expires_at expires_at;
  revision = revision;
}

abbrev pub revocation_of : ControlState → String → Option RevocationRecord
revocation_of state endpoint_id = find (λ r. r.endpoint_id == endpoint_id) state.revocations

unfoldable pub revocation_change : ControlState → String → ℕ → ℕ → StateChange
revocation_change state endpoint_id generation expires_at = put_revocation (
    merge_revocation (revocation_of state endpoint_id) endpoint_id generation expires_at
      (saturating_add state.relay_revision 1))

unfoldable pub client_removal : ControlState → ClientRecord → StateDelta
unfolding revocation_change
client_removal state c = revocation (
    delete_client c.endpoint_id
    ∷ revocation_change state c.endpoint_id c.credential_generation c.credential_expires_at
    ∷ [])

unfoldable pub edge_removal : ControlState → EdgeRecord → StateDelta
unfolding revocation_change
edge_removal state e = revocation (
    delete_edge e.endpoint_id
    ∷ revocation_change state e.endpoint_id e.credential_generation e.credential_expires_at
    ∷ [])

abbrev pub invites_edge_of : String → InviteKind → Bool
invites_edge_of owner (edge owner_id) = owner_id == owner
invites_edge_of owner _ = false

-- The two refusals before a client is removed.
unfoldable pub check_client_unused : ControlState → ℕ → ClientRecord → Result ApiError Unit
check_client_unused state now c = do
  reject_if (any (λ item. item.owner_id == c.endpoint_id) state.edges)
      (conflict "client still owns edges")
  reject_if
      (any
        (λ item.
          invite_is_active_pending now item && invites_edge_of c.endpoint_id item.invite.kind)
        state.invites)
      (conflict "client still has pending edge invites")
