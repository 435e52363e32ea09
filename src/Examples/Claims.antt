-- ===== src/Examples/Claims.antt =====
-- A claim that is committed and comes again on a later state.
use agent_scale.Base.{none, [], ◌∷◌, ◌+◌, Result}
use agent_scale.Control.Errors.{ApiError}
use agent_scale.Control.Wire.{JoinResult}
use agent_scale.Control.State.{
  ControlState, ClientRecord, StateDelta, put_client, put_invite, topology,
}
use agent_scale.Control.Commit.{advance}
use agent_scale.Control.Claim.{claimed_record, join_result}
use agent_scale.Examples.World.{platform, control_key, state, invitation, pending_record, now}

abbrev bob : ClientRecord
bob = record {
  name = invitation.name;
  endpoint_id = "b";
  managed_by = none;
  credential_generation = 5;
  credential_issued_at = now;
  credential_expires_at = now + 604800;
}

abbrev bobs_delta : StateDelta
bobs_delta = topology (put_client bob ∷ put_invite (claimed_record pending_record "b" now) ∷ [])

abbrev bobs_reply : ControlState → Result ApiError JoinResult
bobs_reply = join_result platform control_key invitation "b" none now

-- After the claim was committed the edges were removed.
abbrev later_state : ControlState
later_state = record (advance bobs_delta 5 1 state) { edges = []; revision = 6 }
