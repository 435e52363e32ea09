-- ===== src/Enrolment/Retry.antt =====
-- A claim that is sent again after it was committed (crates/as-control/src/main.rs, claim).
use agent_scale.Base.{ℕ, String, ◌≡◌, Option, some, Result, ok, ◌>>=◌}
use agent_scale.Control.Errors.{ApiError}
use agent_scale.Control.Wire.{ClaimRequest, JoinResult}
use agent_scale.Control.State.{ControlState, InviteRecord}
use agent_scale.Control.Commit.{Outcome, answer, commit, advance}
use agent_scale.Control.Platform.{Platform}
use agent_scale.Control.Invites.{find_invite, validate_token_for_state}
use agent_scale.Control.Claim.{
  validate_relay_claim, claim_section, join_result, issue_relay_tls_certificate,
}
use agent_scale.Enrolment.Enrolled.{After, Persists}

module _ (p : Platform) (key : String) (s : ControlState) where
  -- The certificate that a claim is given at a time, and the map that goes with it.
  abbrev pub fresh_answer :
      ClaimRequest
      → InviteRecord
      → String
      → Option ℕ
      → ℕ
      → ℕ
      → ControlState
      → Result ApiError (Outcome JoinResult)
  fresh_answer request r id q issue_time map_time t =
      issue_relay_tls_certificate p key request.claim.relay_tls_csr r.invite.kind q issue_time
      >>= λ certificate.
          join_result p key r.invite id certificate map_time t >>= λ result. ok (answer result)

  -- How a committed claim is answered, and how the same claim that comes again is: with the name and
  -- the kind of the invitation, and a map and a certificate of the time and the state of the answer.
  pub record Answered (request : ClaimRequest) (id : String)
      (issue_time map_time now' issue_time' map_time' : ℕ)
      (reply : ControlState → Result ApiError JoinResult) (later : ControlState) : Type 0 where
    pub claimed_invite : InviteRecord
    pub stored : find_invite s request.claim.invite_id ≡ some claimed_invite
    pub port : Option ℕ
    pub reported :
        validate_relay_claim claimed_invite.invite.kind request.claim.relay_qad_port
          request.claim.relay_tls_csr
        ≡ ok port
    pub first :
        (t : ControlState)
        → (reply t >>= λ result. ok (answer result))
          ≡ fresh_answer request claimed_invite id port issue_time map_time t
    pub again :
        claim_section p key request id now' issue_time' map_time' later
        ≡ fresh_answer request claimed_invite id port issue_time' map_time' later

  Retried : ClaimRequest → String → ℕ → ℕ → ℕ → ℕ → ℕ → Outcome JoinResult → Type 0
  Retried request id issue_time map_time now' issue_time' map_time' (answer a) = Unit
  Retried request id issue_time map_time now' issue_time' map_time' (commit delta reply) =
      (b rb : ℕ) (later : ControlState)
      → Persists (advance delta b rb s) later request.claim.invite_id id
      → Answered request id issue_time map_time now' issue_time' map_time' reply later

  -- What the token's check of the first claim says of a second one.
  Repeatable : ClaimRequest → String → ℕ → ℕ → Type 0
  Repeatable request id now now' =
      (s' : ControlState) (r : InviteRecord) (q : Option ℕ)
      → find_invite s request.token.invite.invite_id ≡ some r
      → After s s' r id now q
      → validate_token_for_state request.token s' (p.public_id key) now' ≡ ok tt
