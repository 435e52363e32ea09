-- ===== src/Provisioning/Isolation.antt =====
-- A provisioner changes only what it manages (crates/as-control/src/main.rs, provisioner_request and
-- dispatch_provisioner_mutation).
use agent_scale.Base.{
  holds, ◌&&◌, inr, Ensures-ensure, inl, Ensures-map_err, &&-intro, not-false, ℕ, String, ◌≡◌, refl,
  sym, ap, subst, Bool, true, ◌||◌, ◌==◌, ==_refl, eq_of_==, &&-true, Option, none, some, any, find,
  find_sound, any_of_found, All, Ensures, Ensures-ok, Ensures-err, Ensures-bind, Ensures-then,
  Ensures-ok_or, Ensures-reject_if, reject_if-ok,
}
use agent_scale.Control.Wire.{
  InviteResult, InviteKind, ProvisionerResponse, client, edge, ProvisionerRequest,
  ProvisionerAction, get_topology, invite_client, invite_edge, revoke_invite, remove_client,
  remove_edge, transfer_edge,
}
use agent_scale.Control.State.{
  ControlState, ProvisionerRecord, ClientRecord, EdgeRecord, InviteRecord, InviteState, pending,
  claimed, revoked, StateDelta,
}
use agent_scale.Control.Commit.{Outcome, answer, commit}
use agent_scale.Control.Platform.{Platform}
use agent_scale.Control.Checks.{managed_client_id, authorize_provisioner, check_expected_revision}
use agent_scale.Control.Removal.{client_removal, edge_removal, revocation_change, revocation_of}
use agent_scale.Control.Provisioner.{
  repeated_invite, invite_or_repeat, provisioner_invite, revoke_by_state, remove_found_client,
  remove_managed_client, remove_found_edge, remove_managed_edge, transfer_found_edge,
  transfer_managed_edge, dispatch_provisioner_mutation, provisioner_section,
}
use agent_scale.Enrolment.AsInvited.{WhenCommitted}
use agent_scale.Removal.Revoked.{merged_id}
use agent_scale.Provisioning.Scope.{
  Inviteable, manages, manages_edge, Scoped, AtRevision, Isolated, not-eqb_sound, holds-some,
  or-intro,
}
use agent_scale.Control.Invites.{build_invite}

module _ (p : Platform) (key : String) (s : ControlState) (id : String)
    (request : ProvisionerRequest) where
  revision-checked :
      (e : Option ℕ) → Ensures (λ _. AtRevision s e) (check_expected_revision p.decimal s e)
  unfolding check_expected_revision
  revision-checked none = Ensures-ok tt
  revision-checked (some n) = record {
    value = λ _ h. not-eqb_sound n s.revision (reject_if-ok _ _ h);
  }

  managed_client_id-manages :
      (name : String) → Ensures (λ owner. manages s id owner ≡ true) (managed_client_id s name id)
  unfolding managed_client_id
  managed_client_id-manages name = Ensures-ok_or _ _ _ λ c e. Ensures-ok (
      any_of_found _ _ s.clients e
        (&&-intro _ _ (==_refl c.endpoint_id) (&&-true _ _ (find_sound _ s.clients e)).1))

  revocation-Scoped :
      (k : String) (g x : ℕ)
      → (manages s id k || manages_edge s id k) ≡ true
      → Scoped s id (revocation_change s k g x)
  unfolding revocation_change
  revocation-Scoped k g x h =
      subst (λ j. (manages s id j || manages_edge s id j) ≡ true)
        (sym (merged_id (revocation_of s k) k g x _)) h

  repeated-Isolated :
      (r : InviteRecord) (action : ProvisionerAction) (secret : String)
      → Ensures (WhenCommitted (Isolated s id request)) (repeated_invite p key r action secret)
  unfolding repeated_invite
  repeated-Isolated r action secret =
      Ensures-reject_if _ _ _ λ _. Ensures-bind _ _ λ _ _. Ensures-ok tt

  build_invite-Pending :
      (name : String) (kind : InviteKind) (ttl : ℕ) (secret : String) (now : ℕ) (invite_id : String)
      → Ensures
          (λ (x : InviteResult × InviteRecord). (x.1.state ≡ pending) × (x.1.invite.kind ≡ kind))
          (build_invite p key s name kind ttl secret now invite_id)
  unfolding build_invite
  build_invite-Pending name kind ttl secret now invite_id =
      Ensures-ensure _ _ _ λ _. Ensures-ok_or _ _ _ λ _ _. Ensures-ok (refl, refl)

  invite_or_repeat-Isolated :
      (name : String) (kind : InviteKind) (ttl : ℕ) (secret : String) (scan now : ℕ)
      (invite_id : String) (o : Option InviteRecord)
      → Inviteable s id kind
      → Ensures
          (WhenCommitted (Isolated s id request))
          (invite_or_repeat p key s id request name kind ttl secret scan now invite_id o)
  unfolding invite_or_repeat
  invite_or_repeat-Isolated name kind ttl secret scan now invite_id (some existing) may =
      repeated-Isolated existing request.action secret
  invite_or_repeat-Isolated name kind ttl secret scan now invite_id none may =
      Ensures-then _ _ (revision-checked request.expected_revision) λ _ at. Ensures-bind _ _ λ _ _.
        Ensures-then _ _
          (Ensures-map_err _ _ (build_invite-Pending name kind ttl secret now invite_id))
          λ (result, r) new. Ensures-ok (
            at,
            (
              record {
                manager = refl;
                change = inl (new.0, subst (Inviteable s id) (sym new.1) may);
              },
              tt,
            ),
          )

  provisioner_invite-Isolated :
      (name : String) (kind : InviteKind) (ttl : ℕ) (secret : String) (scan now : ℕ)
      (invite_id : String)
      → Inviteable s id kind
      → Ensures
          (WhenCommitted (Isolated s id request))
          (provisioner_invite p key s id request name kind ttl secret scan now invite_id)
  unfolding provisioner_invite
  provisioner_invite-Isolated name kind ttl secret scan now invite_id may = Ensures-bind _ _ λ _ _.
      Ensures-bind _ _
        λ _ _. invite_or_repeat-Isolated name kind ttl secret scan now invite_id _ may

  revoke_by_state-Isolated :
      (now : ℕ) (r : InviteRecord) (state : InviteState)
      → r.state ≡ state
      → find
          (λ item. item.invite.invite_id == r.invite.invite_id && holds item.managed_by id)
          s.invites
        ≡ some r
      → r.managed_by ≡ some id
      → Ensures
          (WhenCommitted (Isolated s id request))
          (revoke_by_state p key s request now r state)
  unfolding revoke_by_state
  revoke_by_state-Isolated now r pending was found mine =
      Ensures-then _ _ (revision-checked request.expected_revision) λ _ at. Ensures-ok (
        at,
        (
          record {
            manager = mine;
            change = inr (record {
              stored = r;
              registered = found;
              was_pending = was;
              at = now;
              revision = refl;
            });
          },
          tt,
        ),
      )
  revoke_by_state-Isolated now r claimed was found mine = Ensures-err _
  revoke_by_state-Isolated now r revoked was found mine = Ensures-ok tt

  remove_found_client-Isolated :
      (scan : ℕ) (name : String) (o : Option ClientRecord)
      → ((c : ClientRecord) → o ≡ some c → manages s id c.endpoint_id ≡ true)
      → Ensures
          (WhenCommitted (Isolated s id request))
          (remove_found_client p key s request scan name o)
  unfolding remove_found_client client_removal
  remove_found_client-Isolated scan name none mine = Ensures-reject_if _ _ _ λ _. Ensures-ok tt
  remove_found_client-Isolated scan name (some c) mine = Ensures-bind _ _ λ _ _.
      Ensures-then _ _ (revision-checked request.expected_revision) λ _ at.
        let m = mine c refl in
        Ensures-ok (
          at,
          (
            m,
            (
              revocation-Scoped c.endpoint_id c.credential_generation c.credential_expires_at
                  (ap (λ b. b || manages_edge s id c.endpoint_id) m),
              tt,
            ),
          ),
        )

  remove_found_edge-Isolated :
      (o : Option EdgeRecord)
      → ((e : EdgeRecord) → o ≡ some e → manages_edge s id e.endpoint_id ≡ true)
      → Ensures (WhenCommitted (Isolated s id request)) (remove_found_edge p key s request o)
  unfolding remove_found_edge edge_removal
  remove_found_edge-Isolated none mine = Ensures-ok tt
  remove_found_edge-Isolated (some e) mine =
      Ensures-then _ _ (revision-checked request.expected_revision) λ _ at.
        let m = mine e refl in
        Ensures-ok (
          at,
          (
            m,
            (
              revocation-Scoped e.endpoint_id e.credential_generation e.credential_expires_at
                  (or-intro (manages s id e.endpoint_id) _ m),
              tt,
            ),
          ),
        )

  transfer_found_edge-Isolated :
      (name edge_id new_owner : String) (o : Option EdgeRecord)
      → manages s id new_owner ≡ true
      → ((e : EdgeRecord) → o ≡ some e → manages_edge s id e.endpoint_id ≡ true)
      → Ensures
          (WhenCommitted (Isolated s id request))
          (transfer_found_edge p key s request name edge_id new_owner o)
  unfolding transfer_found_edge
  transfer_found_edge-Isolated name edge_id new_owner none to mine =
      Ensures-reject_if _ _ _ λ _. Ensures-ok tt
  transfer_found_edge-Isolated name edge_id new_owner (some e) to mine =
      Ensures-reject_if _ _ _ λ _.
        Ensures-then _ _ (revision-checked request.expected_revision)
          λ _ at. Ensures-ok (at, ((mine e refl, to), tt))

  -- An edge that was looked up under a managed owner is a managed edge.
  found_edge-manages :
      (q : EdgeRecord → Bool) (owner : String) (e : EdgeRecord)
      → manages s id owner ≡ true
      → find q s.edges ≡ some e
      → e.owner_id ≡ owner
      → manages_edge s id e.endpoint_id ≡ true
  found_edge-manages q owner e m found same =
      any_of_found q _ s.edges found
        (&&-intro _ _ (==_refl e.endpoint_id) (subst (λ k. manages s id k ≡ true) (sym same) m))

  dispatch-Isolated :
      (action : ProvisionerAction) (scan now : ℕ) (invite_id : String)
      → Ensures
          (WhenCommitted (Isolated s id request))
          (dispatch_provisioner_mutation p key id request action scan now invite_id s)
  unfolding dispatch_provisioner_mutation remove_managed_client remove_managed_edge
      transfer_managed_edge
  dispatch-Isolated get_topology scan now invite_id = Ensures-ok tt
  dispatch-Isolated (invite_client name ttl secret) scan now invite_id =
      provisioner_invite-Isolated name client ttl secret scan now invite_id tt
  dispatch-Isolated (invite_edge owner name ttl secret) scan now invite_id =
      Ensures-then _ _ (managed_client_id-manages owner) λ owner_id may.
        provisioner_invite-Isolated name (edge owner_id) ttl secret scan now invite_id may
  dispatch-Isolated (revoke_invite invite) scan now invite_id = Ensures-ok_or _ _ _ λ r found.
      let q = &&-true _ _ (find_sound _ s.invites found) in
      revoke_by_state-Isolated now r r.state refl
        (subst
          (λ k.
            find (λ item. item.invite.invite_id == k && holds item.managed_by id) s.invites
            ≡ some r)
          (sym (eq_of_== _ _ q.0)) found)
        (holds-some r.managed_by id q.1)
  dispatch-Isolated (remove_client name) scan now invite_id =
      remove_found_client-Isolated scan name _ λ c found.
        any_of_found _ _ s.clients found
          (&&-intro _ _ (==_refl c.endpoint_id) (&&-true _ _ (find_sound _ s.clients found)).1)
  dispatch-Isolated (remove_edge owner name) scan now invite_id =
      Ensures-then _ _ (managed_client_id-manages owner) λ owner_id m.
        remove_found_edge-Isolated _ λ e found.
          found_edge-manages _ owner_id e m found
            (eq_of_== _ _ (&&-true _ _ (find_sound _ s.edges found)).0)
  dispatch-Isolated (transfer_edge owner name text new_owner) scan now invite_id =
      Ensures-ok_or _ _ _ λ edge_id _.
        Ensures-then _ _ (managed_client_id-manages owner) λ owner_id m.
          Ensures-then _ _ (managed_client_id-manages new_owner) λ new_id to.
            transfer_found_edge-Isolated name edge_id new_id _ to λ e found.
              found_edge-manages _ owner_id e m found
                (eq_of_== _ _ (&&-true _ _ (&&-true _ _ (find_sound _ s.edges found)).0).0)

  -- Who may commit, and what.
  pub record Permitted (delta : StateDelta) : Type 0 where
    pub registered : any (λ (x : ProvisionerRecord). x.endpoint_id == id) s.provisioners ≡ true
    pub audience : request.audience ≡ s.audience
    pub at_revision : AtRevision s request.expected_revision
    pub scoped : All (Scoped s id) delta.changes

  authorized :
      Ensures
        (λ _.
          (any (λ (x : ProvisionerRecord). x.endpoint_id == id) s.provisioners ≡ true)
          × (request.audience ≡ s.audience))
        (authorize_provisioner s request.audience id)
  unfolding authorize_provisioner
  authorized = Ensures-reject_if _ _ _ λ same. record {
    value = λ _ h.
        (not-false _ (reject_if-ok _ _ h), eq_of_== request.audience s.audience (not-false _ same));
  }

  permitted :
      (registered : any (λ (x : ProvisionerRecord). x.endpoint_id == id) s.provisioners ≡ true)
      (audience : request.audience ≡ s.audience) (o : Outcome ProvisionerResponse)
      → WhenCommitted (Isolated s id request) o
      → WhenCommitted Permitted o
  permitted registered audience (answer a) h = tt
  permitted registered audience (commit delta reply) h = record {
    registered = registered;
    audience = audience;
    at_revision = h.0;
    scoped = h.1;
  }

  -- A provisioner's request commits only when the provisioner is registered, the request names this
  -- Control's audience and the revision that it expects, if any, is the current one; and then every
  -- change is within what the provisioner manages: it invites
  -- under its own name, clients or edges of its own clients, revokes pending invitations of its own,
  -- removes its own clients and their edges, moves an edge only between two of its own clients, and
  -- revokes only identities of its own.
  pub provisioner_section-Permitted :
      (scan now : ℕ) (invite_id : String)
      → Ensures
          (WhenCommitted Permitted)
          (provisioner_section p key id request scan now invite_id s)
  unfolding provisioner_section
  provisioner_section-Permitted scan now invite_id = Ensures-then _ _ authorized λ _ q. record {
    value = λ o e.
        permitted q.0 q.1 o ((dispatch-Isolated request.action scan now invite_id).value o e);
  }
