-- ===== src/Invariant/Enrolment.antt =====
-- An enrolment fits the state: the guards of `claim` leave no other record with the new one's name,
-- slot or URL.
use agent_scale.Base.{
  checked_add-eq, ◌+◌, ℕ, String, ◌≡◌, ◌≢◌, ap, Bool, true, false, ◌&&◌, ◌==◌, Option, Result, ok,
  All-map, any-All, ==_of_eq, ||-false, arith, Ensures, Ensures-ok, Ensures-err, Ensures-ensure,
  Ensures-bind, reject_if, err, ◌>>=◌, ◌>>◌, holds, if◌then◌else◌, Ensures-then, Ensures-ok_or,
  Ensures-reject_if,
}
use agent_scale.Control.Errors.{ApiError, conflict}
use agent_scale.Control.Wire.{Invite, InviteKind, client, edge, relay, ClaimRequest, JoinResult}
use agent_scale.Control.State.{ControlState, InviteRecord, InviteState, pending, claimed, revoked}
use agent_scale.Control.Commit.{answer}
use agent_scale.Control.Platform.{Platform}
use agent_scale.Control.Checks.{anyhow_client_exists}
use agent_scale.Control.Claim.{
  claimed_node_change, claim_by_state, claim_section, port_differs, join_result,
}
use agent_scale.Invariant.Tables.{InRange}
use agent_scale.Invariant.Changes.{Fits}
use agent_scale.Invariant.Sections.{OutcomeFits}

pub not-slot :
    (a b o n : String) → (a == o && b == n) ≡ false → ◌≢◌ {A = String × String} (a, b) (o, n)
not-slot a b o n h e =
    let q = ==_of_eq a o (ap (λ (t : String × String). t.0) e) in
    let q' = ==_of_eq b n (ap (λ (t : String × String). t.1) e) in ground arith

pub not-same : (a b : String) → (a == b) ≡ false → a ≢ b
not-same a b h e = let q = ==_of_eq a b e in cc

module _ (b rb : ℕ) (s : ControlState) where
  pub claimed_node_change-Fits :
      (invite : Invite) (kind : InviteKind) (id : String) (managed_by : Option String)
      (qad_port : Option ℕ) (generation now : ℕ)
      → InRange b generation
      → Ensures
          (λ c. Fits b rb c s)
          (claimed_node_change s invite kind id managed_by qad_port generation now)
  unfolding claimed_node_change anyhow_client_exists
  claimed_node_change-Fits invite client id m q g now r = Ensures-reject_if _ _ _ λ free.
      Ensures-ok (
        All-map _ (λ c t e. absurd (not-same _ _ (||-false _ _ t).0 e)) s.clients
            (any-All _ s.clients free),
        r,
      )
  claimed_node_change-Fits invite (edge owner) id m q g now r = Ensures-ensure _ _ _ λ owned.
      Ensures-reject_if _ _ _ λ free. Ensures-ok (
        All-map _ (λ e t same. absurd (not-slot _ _ owner invite.name (||-false _ _ t).0 same))
            s.edges (any-All _ s.edges free),
        r,
        owned,
      )
  claimed_node_change-Fits invite (relay url) id m q g now r = Ensures-reject_if _ _ _ λ free.
      let apart = any-All _ s.relays free in
      Ensures-ok (
        All-map _
            (λ x t e. absurd (not-same x.name invite.name (||-false _ _ (||-false _ _ t).0).0 e))
            s.relays apart,
        All-map _ (λ x t e. absurd (not-same x.url url (||-false _ _ (||-false _ _ t).0).1 e))
            s.relays apart,
      )

module _ (p : Platform) (key : String) (s : ControlState) where
  -- A decision that only answers fits.
  pub join_result-answers :
      (m : Result ApiError JoinResult)
      → Ensures (OutcomeFits s) (m >>= λ result. ok (answer result))
  join_result-answers m = Ensures-bind m _ λ result e. Ensures-ok tt

  pub claim_by_state-Fits :
      (r : InviteRecord) (state : InviteState) (claimed_id id : String) (qad_port : Option ℕ)
      (certificate : Option String) (now map_time : ℕ)
      → Ensures
          (OutcomeFits s)
          (claim_by_state p key s r state claimed_id id qad_port certificate now map_time)
  unfolding claim_by_state
  claim_by_state-Fits r pending claimed_id id q certificate now map_time =
      Ensures-ok_or _ _ _ λ generation e.
        let g = checked_add-eq s.revision 1 e in
        Ensures-then _ _
          (claimed_node_change-Fits (s.revision + 1) s.relay_revision s r.invite r.invite.kind id
            r.managed_by q generation now (omega arith, omega arith))
          λ change fits. Ensures-ok (fits, (tt, tt))
  claim_by_state-Fits r claimed claimed_id id q certificate now map_time =
      ensures_again (holds r.claimed_by claimed_id)
    where
      ensures_again :
          (b : Bool)
          → Ensures (OutcomeFits s) (
              if b
              then (reject_if
                    (port_differs s claimed_id q)
                    (conflict "Relay QAD port differs from its enrolled value")
                  >> (join_result p key r.invite id certificate map_time s >>= λ result.
                      ok (answer result)))
              else err (conflict "invite was already claimed"))
      ensures_again true = Ensures-reject_if _ _ _ λ same. join_result-answers _
      ensures_again false = Ensures-err _
  claim_by_state-Fits r revoked claimed_id id q certificate now map_time = Ensures-err _

  pub claim_section-Fits :
      (request : ClaimRequest) (id : String) (now issue_time map_time : ℕ)
      → Ensures (OutcomeFits s) (claim_section p key request id now issue_time map_time s)
  unfolding claim_section
  claim_section-Fits request id now issue_time map_time = Ensures-bind _ _ λ _ valid.
      Ensures-ok_or _ _ _ λ r found. Ensures-bind _ _ λ q port.
        Ensures-bind _ _ λ certificate issued.
          claim_by_state-Fits r r.state request.claim.endpoint_id id q certificate now map_time
