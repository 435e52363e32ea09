-- ===== src/Enrolment/Issued.antt =====
-- An invitation that was issued is accepted until it expires (crates/as-control/src/main.rs,
-- build_invite, local_create_invite and validate_token_for_state; crates/control-api/src/lib.rs,
-- JoinToken).
use agent_scale.Base.{
  false-ltb, checked_add-eq, ◌+◌, ◌≤◌, ◌<◌, ℕ, String, ◌≡◌, refl, ◌∙◌, ap, Bool, true, not, ◌&&◌,
  ==_refl, leb, Option, some, find-upsert_record, Result, ok, reject_if, ok_or-some, pass, arith,
  Ensures, Ensures-ok, Ensures-bind, Ensures-then, Ensures-ok_or, Ensures-ensure, Ensures-map_err,
  proceed,
}
use agent_scale.Enrolment.Equality.{invite_eq_refl}
use agent_scale.Control.Errors.{ApiError, bad}
use agent_scale.Control.Wire.{InviteKind, InviteResult, control_protocol_version}
use agent_scale.Control.State.{
  ControlState, InviteRecord, pending, StateDelta, invite_key, apply, apply_changes, apply_change,
}
use agent_scale.Control.Commit.{Outcome, answer, commit, advance}
use agent_scale.Control.Platform.{Platform, hash_secret, new_token, verify_token, join_url}
use agent_scale.Control.Invites.{max_ttl_secs, build_invite, validate_token_for_state, find_invite}
use agent_scale.Control.Admin.{create_invite_section, LocalAdminResponse, invite_response}

-- What Control's key satisfies: its identity is parsed back, and verifies its signatures.
pub record SignsInvites (p : Platform) (key : String) : Type 0 where
  pub id_parses : p.parse_endpoint (p.public_id key) ≡ some (p.public_id key)
  pub verifies :
      (bytes : String) → p.verify_signature (p.public_id key) bytes (p.sign key bytes) ≡ true

-- The invitation that `build_invite` makes, in the state it is made for.
pub record Built (p : Platform) (key : String) (s : ControlState) (name : String)
    (kind : InviteKind) (secret : String) (now : ℕ) (result : InviteResult) (r : InviteRecord)
    : Type 0 where
  pub names : (r.invite.name ≡ name) × (r.invite.kind ≡ kind) × (r.state ≡ pending)
  pub later : now < r.invite.expires_at
  pub within_week : r.invite.expires_at ≤ now + max_ttl_secs
  pub url : result.join_url ≡ join_url p (new_token p key r.invite secret)
  pub ours :
      (r.invite.protocol_version ≡ control_protocol_version)
      × (r.invite.control_id ≡ p.public_id key)
      × (r.invite.audience ≡ s.audience)
      × (r.invite.control_url ≡ s.public_url)
      × (r.invite.secret_hash ≡ hash_secret p secret)

ttl_bounds :
    (ttl : ℕ) → (leb 1 ttl && leb ttl max_ttl_secs) ≡ true → (1 ≤ ttl) × (ttl ≤ max_ttl_secs)
ttl_bounds ttl h = ground arith

accepted_last : (b : Bool) (e : ApiError) → b ≡ true → reject_if (not b) e ≡ ok tt
unfolding reject_if
accepted_last b e h = rw h refl

module _ (p : Platform) (key : String) (s : ControlState) where
  build_invite-Built :
      (name : String) (kind : InviteKind) (ttl : ℕ) (secret : String) (now : ℕ) (invite_id : String)
      → Ensures
          (λ (q : InviteResult × InviteRecord). Built p key s name kind secret now q.0 q.1)
          (build_invite p key s name kind ttl secret now invite_id)
  unfolding build_invite
  build_invite-Built name kind ttl secret now invite_id = Ensures-ensure _ _ _ λ bounds.
      Ensures-ok_or _ _ _ λ expires_at e.
        let t = ttl_bounds ttl bounds in
        let x = checked_add-eq now ttl e in
        Ensures-ok (record {
          names = (refl, refl, refl);
          later = omega (arith, t.0, x);
          within_week = omega (arith, t.1, x);
          url = refl;
          ours = (refl, refl, refl, refl, refl);
        })

  -- The token verifies with Control's own key.
  new_token-verifies :
      (r : InviteRecord) (name : String) (kind : InviteKind) (secret : String) (now : ℕ)
      (result : InviteResult)
      → SignsInvites p key
      → Built p key s name kind secret now result r
      → verify_token p (new_token p key r.invite secret) ≡ ok (p.public_id key)
  unfolding verify_token new_token
  new_token-verifies r name kind secret now result h b =
      proceed _ _ (rw b.ours.0 refl)
      ∙ ok_or-some _ _ (ap p.parse_endpoint b.ours.1 ∙ h.id_parses)
      ∙ proceed _ _ (h.verifies _)
      ∙ proceed _ _ (rw b.ours.4 (==_refl (hash_secret p secret)))

  -- The stored invitation passes Control's check of a presented token.
  stored-validates :
      (after : ControlState) (r : InviteRecord) (name : String) (kind : InviteKind)
      (secret : String) (now now' : ℕ) (result : InviteResult) (stored : InviteRecord)
      → Built p key s name kind secret now result r
      → after.audience ≡ s.audience
      → after.public_url ≡ s.public_url
      → find_invite after r.invite.invite_id ≡ some stored
      → stored.invite ≡ r.invite
      → now' ≤ r.invite.expires_at
      → validate_token_for_state (new_token p key r.invite secret) after (p.public_id key) now'
        ≡ ok tt
  unfolding validate_token_for_state new_token
  stored-validates after r name kind secret now now' result stored b same same' found equal fresh =
      pass _ _ (
        rw
          (
            b.ours.1,
            b.ours.2,
            b.ours.3,
            same,
            same',
            ==_refl (p.public_id key),
            ==_refl s.audience,
            ==_refl s.public_url,
          )
          refl)
      ∙ pass _ _ (false-ltb r.invite.expires_at now' fresh)
      ∙ ok_or-some _ _ found
      ∙ accepted_last _ _ (rw equal (invite_eq_refl r.invite))

  -- What a committed invitation promises to whoever holds its token.
  pub record IssuedInvite (name : String) (kind : InviteKind) (secret : String) (now : ℕ)
      (managed_by : Option String) (delta : StateDelta)
      (reply : ControlState → Result ApiError LocalAdminResponse) : Type 0 where
    pub result : InviteResult
    pub invitation : InviteRecord
    pub answered : (after : ControlState) → reply after ≡ ok (invite_response result)
    pub built : Built p key s name kind secret now result invitation
    pub manager : invitation.managed_by ≡ managed_by
    pub token_verifies :
        verify_token p (new_token p key invitation.invite secret) ≡ ok (p.public_id key)
    pub accepted :
        (b rb now' : ℕ)
        → now' ≤ invitation.invite.expires_at
        → validate_token_for_state
            (new_token p key invitation.invite secret)
            (advance delta b rb s)
            (p.public_id key)
            now'
          ≡ ok tt

  abbrev pub IssuedBy :
      String → InviteKind → String → ℕ → Option String → Outcome LocalAdminResponse → Type 0
  IssuedBy name kind secret now managed_by (answer a) = Unit
  IssuedBy name kind secret now managed_by (commit delta reply) =
      IssuedInvite name kind secret now managed_by delta reply

  -- With a key whose signatures verify: an invitation that the local administration creates is for
  -- the given name, kind and manager, expires within seven days, and is answered with the URL of a
  -- token; the token's signature and secret verify, and until the invitation expires Control's
  -- check of a presented token accepts it in the state after the commit.
  pub create_invite_section-Issued :
      (name : String) (kind : InviteKind) (ttl : ℕ) (managed_by : Option String) (scan now : ℕ)
      (secret invite_id : String)
      → SignsInvites p key
      → Ensures
          (IssuedBy name kind secret now managed_by)
          (create_invite_section p key name kind ttl managed_by scan now secret invite_id s)
  unfolding create_invite_section advance apply apply_changes apply_change
  create_invite_section-Issued name kind ttl managed_by scan now secret invite_id h =
      Ensures-bind _ _ λ _ _.
        Ensures-then _ _
          (Ensures-map_err bad _ (build_invite-Built name kind ttl secret now invite_id))
          λ q b. Ensures-ok (record {
            result = q.0;
            invitation = record q.1 { managed_by = managed_by };
            answered = λ after. refl;
            built = record {
              names = b.names;
              later = b.later;
              within_week = b.within_week;
              url = b.url;
              ours = b.ours;
            };
            manager = refl;
            token_verifies = new_token-verifies q.1 name kind secret now q.0 h b;
            accepted = λ n m now' fresh.
                stored-validates _ q.1 name kind secret now now' q.0
                  (record q.1 { managed_by = managed_by }) b refl refl
                  (find-upsert_record invite_key s.invites (record q.1 { managed_by = managed_by }))
                  refl fresh;
          })
