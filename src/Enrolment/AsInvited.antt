-- ===== src/Enrolment/AsInvited.antt =====
-- A claim enrols what its invitation says (crates/as-control/src/main.rs, claim and
-- claimed_node_change).
use mathlib.Core.Option.{some-injective}
use agent_scale.Control.Claim.{port_differs, join_result}
use agent_scale.Enrolment.Equality.{invite_eq_sound}
use agent_scale.Control.Errors.{conflict}
use agent_scale.Base.{
  ltb-false, not-false, checked_add-eq, holds, reject_if, ◌>>◌, ◌>>=◌, if◌then◌else◌, sym, ◌∙◌,
  subst, reject_if-ok, ◌+◌, ◌≤◌, ℕ, String, ◌≡◌, refl, ◌⊎◌, inl, inr, Bool, true, false, eq_of_==,
  Option, some, [], ◌∷◌, Result, ok, err, saturating_add, Ensures, Ensures-ok, Ensures-err,
  Ensures-bind, Ensures-then, Ensures-ok_or, Ensures-reject_if, Ensures-ensure, Ensures-map_err,
}
use agent_scale.Control.Errors.{ApiError, unauthorized}
use agent_scale.Control.Wire.{
  Invite, InviteKind, client, edge, relay, JoinToken, ClaimRequest, JoinResult,
}
use agent_scale.Control.State.{
  ControlState, StateChange, StateDelta, put_client, put_edge, put_relay, put_invite, InviteRecord,
  InviteState, pending, claimed, revoked, topology, relay_credential_lifetime_secs,
}
use agent_scale.Control.Commit.{Outcome, answer, commit, Store, ApplyDelta, run_section}
use agent_scale.Control.Commit.Laws.{Committed, run_section_cases}
use agent_scale.Control.Platform.{Platform, verify_claim}
use agent_scale.Control.Invites.{find_invite, validate_token_for_state}
use agent_scale.Control.Claim.{
  claimed_node_change, claimed_record, claim_by_state, claim_section, claim_verification, claim,
}

-- The credential that a record carries: `revision` is the one before the enrolment.
abbrev pub Issued : ℕ → ℕ → ℕ → ℕ → ℕ → Type 0
Issued revision now generation issued_at expires_at =
    (generation ≡ revision + 1)
    × (issued_at ≡ now)
    × (expires_at ≡ saturating_add now relay_credential_lifetime_secs)

-- The change registers the identity in the table of the invitation's kind, under its name, with its
-- manager, owner or URL, and for a client or an edge with a new credential.
abbrev pub Installs : ℕ → ℕ → String → InviteKind → Option String → String → StateChange → Type 0
Installs revision now name client managed_by id (put_client c) =
    (c.name ≡ name)
    × (c.endpoint_id ≡ id)
    × (c.managed_by ≡ managed_by)
    × Issued revision now c.credential_generation c.credential_issued_at c.credential_expires_at
Installs revision now name (edge owner) managed_by id (put_edge e) =
    (e.name ≡ name)
    × (e.endpoint_id ≡ id)
    × (e.owner_id ≡ owner)
    × Issued revision now e.credential_generation e.credential_issued_at e.credential_expires_at
Installs revision now name (relay url) managed_by id (put_relay r) =
    (r.name ≡ name) × (r.endpoint_id ≡ id) × (r.url ≡ url)
Installs _ _ _ _ _ _ _ = ⊥

pub record Enrolled (s : ControlState) (request : ClaimRequest) (id : String) (now : ℕ)
    (delta : StateDelta) : Type 0 where
  pub invitation : InviteRecord
  pub change : StateChange
  pub listed : find_invite s request.token.invite.invite_id ≡ some invitation
  pub presented : invitation.invite ≡ request.token.invite
  pub unclaimed : invitation.state ≡ pending
  pub in_time : now ≤ request.token.invite.expires_at
  pub as_invited :
      Installs s.revision now invitation.invite.name invitation.invite.kind invitation.managed_by id
        change
  pub changes : delta ≡ topology (change ∷ put_invite (claimed_record invitation id now) ∷ [])

claimed_node_change-Installs :
    (s : ControlState) (invite : Invite) (kind : InviteKind) (id : String)
    (managed_by : Option String) (q : Option ℕ) (generation now : ℕ)
    → generation ≡ s.revision + 1
    → Ensures
        (Installs s.revision now invite.name kind managed_by id)
        (claimed_node_change s invite kind id managed_by q generation now)
unfolding claimed_node_change
claimed_node_change-Installs s invite client id m q g now e =
    Ensures-reject_if _ _ _ λ _. Ensures-ok (refl, refl, refl, (e, refl, refl))
claimed_node_change-Installs s invite (edge owner) id m q g now e =
    Ensures-bind _ _
      λ _ _. Ensures-reject_if _ _ _ λ _. Ensures-ok (refl, refl, refl, (e, refl, refl))
claimed_node_change-Installs s invite (relay url) id m q g now e =
    Ensures-reject_if _ _ _ λ _. Ensures-ok (refl, refl, refl)

-- What a decision says when it commits.
abbrev pub WhenCommitted : {A : Type 0} → (StateDelta → Type 0) → Outcome A → Type 0
WhenCommitted P (answer a) = Unit
WhenCommitted P (commit delta reply) = P delta

-- The presented invitation is the stored one, and it has not expired.
record Valid (token : JoinToken) (s : ControlState) (now : ℕ) : Type 0 where
  pub in_time : now ≤ token.invite.expires_at
  pub same :
      (r : InviteRecord) → find_invite s token.invite.invite_id ≡ some r → r.invite ≡ token.invite

validate_token_for_state-Valid :
    (token : JoinToken) (s : ControlState) (control_id : String) (now : ℕ)
    → Ensures (λ _. Valid token s now) (validate_token_for_state token s control_id now)
unfolding validate_token_for_state
validate_token_for_state-Valid token s control_id now = Ensures-reject_if _ _ _ λ _.
    Ensures-reject_if _ _ _ λ fresh. Ensures-ok_or _ _ _ λ stored found. record {
      value = λ _ checked. record {
        in_time = ltb-false token.invite.expires_at now fresh;
        same = λ r e.
            let q : stored ≡ r = some-injective _ _ (sym found ∙ e) in
            subst (λ x. x.invite ≡ token.invite) q
              (invite_eq_sound stored.invite token.invite (not-false _ (reject_if-ok _ _ checked)));
      };
    }

-- A repeated claim commits nothing.
pub answers_again :
    {A : Type 0} (P : StateDelta → Type 0) (same differs : Bool) (e e' : ApiError)
    (m : Result ApiError A)
    → Ensures
        (WhenCommitted P)
        (if same then reject_if differs e >> (m >>= λ result. ok (answer result)) else err e')
answers_again P true differs e e' m =
    Ensures-reject_if _ _ _ λ _. Ensures-bind m _ λ _ _. Ensures-ok tt
answers_again P false differs e e' m = Ensures-err e'

module _ (p : Platform) (key : String) (s : ControlState) where
  claim_by_state-Enrolled :
      (request : ClaimRequest) (r : InviteRecord) (state : InviteState) (claimed_id id : String)
      (q : Option ℕ) (certificate : Option String) (now map_time : ℕ)
      → Valid request.token s now
      → find_invite s request.token.invite.invite_id ≡ some r
      → r.state ≡ state
      → Ensures
          (WhenCommitted (Enrolled s request id now))
          (claim_by_state p key s r state claimed_id id q certificate now map_time)
  unfolding claim_by_state
  claim_by_state-Enrolled request r pending claimed_id id q certificate now map_time v found e =
      Ensures-ok_or _ _ _ λ generation g.
        Ensures-then _ _
          (claimed_node_change-Installs s r.invite r.invite.kind id r.managed_by q generation now
            (checked_add-eq s.revision 1 g))
          λ change installs. Ensures-ok (record {
            invitation = r;
            change = change;
            listed = found;
            presented = v.same r found;
            unclaimed = e;
            in_time = v.in_time;
            as_invited = installs;
            changes = refl;
          })
  claim_by_state-Enrolled request r claimed claimed_id id q certificate now map_time v found e =
      answers_again (Enrolled s request id now) (holds r.claimed_by claimed_id)
        (port_differs s claimed_id q) (conflict "Relay QAD port differs from its enrolled value")
        (conflict "invite was already claimed")
        (join_result p key r.invite id certificate map_time s)
  claim_by_state-Enrolled request r revoked claimed_id id q certificate now map_time v found e =
      Ensures-err _

  claim_section-Enrolled :
      (request : ClaimRequest) (id : String) (now issue_time map_time : ℕ)
      → request.claim.invite_id ≡ request.token.invite.invite_id
      → Ensures
          (WhenCommitted (Enrolled s request id now))
          (claim_section p key request id now issue_time map_time s)
  unfolding claim_section
  claim_section-Enrolled request id now issue_time map_time named =
      Ensures-then _ _ (validate_token_for_state-Valid request.token s (p.public_id key) now) λ _ v.
        Ensures-ok_or _ _ _ λ r found. Ensures-bind _ _ λ q _. Ensures-bind _ _ λ certificate _.
          claim_by_state-Enrolled request r r.state request.claim.endpoint_id id q certificate now
            map_time v (subst (λ k. find_invite s k ≡ some r) named found) refl

-- A claim that passes verification names the invitation of its token.
verify_claim-named :
    (p : Platform) (request : ClaimRequest)
    → Ensures
        (λ _. request.claim.invite_id ≡ request.token.invite.invite_id)
        (verify_claim p request)
unfolding verify_claim
verify_claim-named p request = Ensures-ensure _ _ _ λ _.
    Ensures-ensure _ _ _
      λ same. Ensures-ok_or _ _ _ λ id _. Ensures-ensure _ _ _ λ _. Ensures-ok (eq_of_== _ _ same)

claim_verification-named :
    (p : Platform) (key : String) (request : ClaimRequest) (now : ℕ)
    → Ensures
        (λ _. request.claim.invite_id ≡ request.token.invite.invite_id)
        (claim_verification p key request now)
unfolding claim_verification
claim_verification-named p key request now = Ensures-bind _ _ λ _ _.
    Ensures-then _ _ (Ensures-map_err unauthorized _ (verify_claim-named p request))
      λ id named. Ensures-bind _ _ λ _ _. Ensures-ok named

module _ (p : Platform) (key : String) {D : Type 0} (apply_delta : ApplyDelta D) where
  -- What `claim` did to the store, if anything.
  pub record ClaimCommitted (request : ClaimRequest) (now : ℕ) (store after : Store D)
      : Type 0 where
    pub id : String
    pub delta : StateDelta
    pub verified : claim_verification p key request now ≡ ok id
    pub enrolled : Enrolled store.state request id now delta
    pub committed : Committed apply_delta store delta after

  checked_claim :
      (request : ClaimRequest) (now issue_time map_time : ℕ) (store : Store D)
      (checked : Result ApiError String)
      → claim_verification p key request now ≡ checked
      → (let after =
            (elim checked as (λ _. Result ApiError JoinResult × Store D) [
              | ok id ↦
                  run_section apply_delta
                    (claim_section p key request id now issue_time map_time)
                    store
              | err e ↦ (err e, store)
            ]).1 in
          (after ≡ store) ⊎ ClaimCommitted request now store after)
  checked_claim request now issue_time map_time store (ok id) e =
      run_section_cases apply_delta
        (λ after. (after ≡ store) ⊎ ClaimCommitted request now store after)
        (claim_section p key request id now issue_time map_time) store (inl refl)
        λ delta reply after decided c. inr (record {
          id = id;
          delta = delta;
          verified = e;
          enrolled =
              (claim_section-Enrolled p key store.state request id now issue_time map_time
                  ((claim_verification-named p key request now).value id e)).value
                (commit delta reply) decided;
          committed = c;
        })
  checked_claim request now issue_time map_time store (err x) e = inl refl

  -- A claim leaves the store as it was, or it was verified and commits one delta: the invitation
  -- of its token is stored, equal to the presented one, pending and not expired; the verified
  -- identity is registered in the table of the invitation's kind under the invited name, with its
  -- manager, owner or URL and a credential of the next revision's generation; and the invitation is
  -- marked as claimed by that identity.
  pub claim_as_invited :
      (request : ClaimRequest) (now issue_time map_time : ℕ) (store : Store D)
      → (let after = (claim p key apply_delta request now issue_time map_time store).1 in
          (after ≡ store) ⊎ ClaimCommitted request now store after)
  unfolding claim
  claim_as_invited request now issue_time map_time store =
      checked_claim request now issue_time map_time store (claim_verification p key request now)
        refl
