-- ===== src/Control/Requests.antt =====
-- The requests that a client signs for its own edges: `POST /v1/edges/invite` and `/remove`
-- (crates/as-control/src/main.rs, client_edge_invite and client_edge_remove).
use agent_scale.Base.{
  ℕ, String, not, ◌&&◌, some, [], ◌∷◌, ◌==◌, holds, any, find, Result, ok, err, ok_or, reject_if,
  ◌>>=◌, ◌>>◌, map_err, ◌<>◌,
}
use agent_scale.Control.Errors.{ApiError, bad, conflict, forbidden, unauthorized, internal}
use agent_scale.Control.Wire.{
  edge, EdgeInviteRequest, EdgeRemoveRequest, InviteResult, SignedNodeMap,
}
use agent_scale.Control.State.{ControlState, put_invite, topology}
use agent_scale.Control.Commit.{Decision, commit, Store, ApplyDelta, run_section}
use agent_scale.Control.Platform.{Platform, verify_edge_invite, verify_edge_remove}
use agent_scale.Control.Checks.{check_time, validate_name, is_short, client_with_id, has_client}
use agent_scale.Control.Invites.{validate_invite_name, build_invite}
use agent_scale.Control.Map.{signed_map}
use agent_scale.Control.Removal.{edge_removal}

module _ (p : Platform) (key : String) where
  -- `scan` and `now` are the clock's readings for the pending invitations and for the new one;
  -- `secret` and `invite_id` are random.
  unfoldable pub edge_invite_section :
      EdgeInviteRequest → String → ℕ → ℕ → String → String → ControlState → Decision InviteResult
  edge_invite_section request client_id scan now secret invite_id state = do
    reject_if (not (request.audience == state.audience)) (unauthorized "control audience mismatch")
    owner ← ok_or (client_with_id state client_id) (forbidden "client is not registered")
    reject_if (any (λ item. holds item.request_id request.request_id) state.invites)
        (conflict "edge invitation request was already used")
    validate_invite_name state scan request.name (edge client_id)
    (result, r) ← map_err bad (
        build_invite p key state request.name (edge client_id) request.ttl_secs secret now
          invite_id)
    ok (
        commit
          (topology (
            put_invite
              (record r { request_id = some request.request_id; managed_by = owner.managed_by })
            ∷ []))
          (λ _. ok result))

  unfoldable pub edge_remove_section :
      EdgeRemoveRequest → String → ℕ → ControlState → Decision SignedNodeMap
  edge_remove_section request client_id map_time state = do
    reject_if (not (request.audience == state.audience)) (unauthorized "control audience mismatch")
    reject_if (not (has_client state client_id)) (forbidden "client is not registered")
    removed ←
        ok_or
          (find
            (λ item.
              item.owner_id == client_id
              && item.name == request.name
              && item.endpoint_id == request.endpoint_id)
            state.edges)
          (bad ("unknown edge '" <> request.name <> "' with the expected identity"))
    ok (
        commit (edge_removal state removed)
          (λ after. map_err internal (signed_map p key after client_id map_time)))

  unfoldable pub edge_invite_verification : EdgeInviteRequest → ℕ → Result ApiError String
  edge_invite_verification request now = do
    client_id ← map_err unauthorized (verify_edge_invite p request)
    map_err unauthorized (check_time request.issued_at now)
    map_err bad (validate_name request.name)
    reject_if (not (is_short request.request_id)) (bad "request id must contain 1-128 characters")
    ok client_id

  unfoldable pub edge_remove_verification : EdgeRemoveRequest → ℕ → Result ApiError String
  edge_remove_verification request now = do
    client_id ← map_err unauthorized (verify_edge_remove p request)
    map_err unauthorized (check_time request.issued_at now)
    map_err bad (validate_name request.name)
    reject_if (not (is_short request.nonce)) (bad "nonce must contain 1-128 characters")
    ok client_id

  module _ {D : Type 0} (apply_delta : ApplyDelta D) where
    -- `arrival` is the reading that the request's time is checked against.
    unfoldable pub client_edge_invite :
        EdgeInviteRequest
        → ℕ
        → ℕ
        → ℕ
        → String
        → String
        → Store D
        → Result ApiError InviteResult × Store D
    client_edge_invite request arrival scan now secret invite_id store =
        elim (edge_invite_verification request arrival) [
          | ok client_id ↦
              run_section apply_delta
                (edge_invite_section request client_id scan now secret invite_id) store
          | err e ↦ (err e, store)
        ]

    unfoldable pub client_edge_remove :
        EdgeRemoveRequest → ℕ → ℕ → Store D → Result ApiError SignedNodeMap × Store D
    client_edge_remove request arrival map_time store =
        elim (edge_remove_verification request arrival) [
          | ok client_id ↦
              run_section apply_delta (edge_remove_section request client_id map_time) store
          | err e ↦ (err e, store)
        ]
