-- ===== src/Invariant/Reach.antt =====
-- The runs of Control (crates/as-control/src/main.rs): any sequence of its requests, local commands
-- and background tasks, in the order in which their sections take the state lock.
use agent_scale.Control.State.{
  ControlState, StateChange, put_client, delete_client, put_edge, delete_edge, put_relay,
  delete_relay, put_invite, delete_invite, put_provisioner, delete_provisioner, put_revocation,
  delete_revocation, apply_change, apply_changes, apply, Publish, publish_none, nodes,
  nodes_and_relays, StateDelta,
}
use agent_scale.Base.{
  refl, inl, inr, ◌∙◌, ap, sym, subst, [], ◌∷◌, List, ◌≤◌, arith, ◌+◌, ℕ, String, Option, ◌≡◌, ◌≤◌,
}
use agent_scale.Control.Wire.{InviteKind, ClaimRequest, EdgeInviteRequest, EdgeRemoveRequest}
use agent_scale.Control.Commit.Laws.{Committed}
use agent_scale.Control.Commit.{
  notify_relays, notify_nodes, relay_bumped, bumped, advance, Store, ApplyDelta,
}
use agent_scale.Control.Platform.{Platform}
use agent_scale.Control.Claim.{claim}
use agent_scale.Control.Requests.{client_edge_invite, client_edge_remove}
use agent_scale.Control.Authorization.{provisioner_request}
use agent_scale.Control.Admin.{LocalAdminRequest, dispatch_local_admin, local_create_invite}
use agent_scale.Control.Upkeep.{
  renew_relay_credential_if_needed, update_relay_qad_port_if_needed, invitation_cleanup,
}
use agent_scale.Invariant.Tables.{WellFormed}
use agent_scale.Invariant.Sections.{Settled, Settled-WellFormed}
use agent_scale.Invariant.Operations.{
  claim-Settled, client_edge_invite-Settled, client_edge_remove-Settled,
  provisioner_request-Settled, local_create_invite-Settled, dispatch_local_admin-Settled,
  renew_relay_credential_if_needed-Settled, update_relay_qad_port_if_needed-Settled,
  invitation_cleanup-Settled,
}

apply_change-audience :
    (c : StateChange) (s : ControlState) → (apply_change c s).audience ≡ s.audience
unfolding apply_change
apply_change-audience (put_client r) s = refl
apply_change-audience (delete_client id) s = refl
apply_change-audience (put_edge r) s = refl
apply_change-audience (delete_edge id) s = refl
apply_change-audience (put_relay r) s = refl
apply_change-audience (delete_relay id) s = refl
apply_change-audience (put_invite r) s = refl
apply_change-audience (delete_invite id) s = refl
apply_change-audience (put_provisioner r) s = refl
apply_change-audience (delete_provisioner id) s = refl
apply_change-audience (put_revocation r) s = refl
apply_change-audience (delete_revocation id) s = refl

apply_changes-audience :
    (cs : List StateChange) (s : ControlState) → (apply_changes cs s).audience ≡ s.audience
unfolding apply_changes
apply_changes-audience [] s = refl
apply_changes-audience (c ∷ cs) s =
    apply_changes-audience cs (apply_change c s) ∙ apply_change-audience c s

apply-audience : (d : StateDelta) (s : ControlState) → (apply d s).audience ≡ s.audience
unfolding apply
apply-audience d s = apply_changes-audience d.changes s

-- What a delta does to the revisions and to the notifications.
publish-Progress :
    (q : Publish) (r rr n m : ℕ)
    → (r ≤ bumped q r)
      × (rr ≤ relay_bumped q rr)
      × (notify_nodes q n + r ≡ n + bumped q r)
      × (notify_relays q m + rr ≡ m + relay_bumped q rr)
      × (relay_bumped q rr + r ≤ rr + bumped q r)
publish-Progress publish_none r rr n m = ground arith
publish-Progress nodes r rr n m = ground arith
publish-Progress nodes_and_relays r rr n m = ground arith

module _ (p : Platform) (key : String) {D : Type 0} (apply_delta : ApplyDelta D) where
  -- One operation. The invitation of `edge invite` is created after the lock was released, so it is
  -- an operation of its own, for whichever owner was read before.
  pub data Step (store : Store D) : Store D → Type 0 where
    claim_step :
        (request : ClaimRequest) (now issue_time map_time : ℕ)
        → Step store (claim p key apply_delta request now issue_time map_time store).1
    client_edge_invite_step :
        (request : EdgeInviteRequest) (arrival scan now : ℕ) (secret invite_id : String)
        → Step store
            (client_edge_invite p key apply_delta request arrival scan now secret invite_id store).1
    client_edge_remove_step :
        (request : EdgeRemoveRequest) (arrival map_time : ℕ)
        → Step store (client_edge_remove p key apply_delta request arrival map_time store).1
    provisioner_step :
        (header : Option String) (body : String) (arrival scan now : ℕ) (invite_id : String)
        → Step store
            (provisioner_request p key apply_delta header body arrival scan now invite_id store).1
    admin_step :
        (request : LocalAdminRequest) (scan now : ℕ) (secret invite_id : String)
        → Step store
            (dispatch_local_admin p key apply_delta request scan now secret invite_id store).1
    create_invite_step :
        (name : String) (kind : InviteKind) (ttl : ℕ) (managed_by : Option String) (scan now : ℕ)
        (secret invite_id : String)
        → Step store
            (local_create_invite p key apply_delta name kind ttl managed_by scan now secret
              invite_id store).1
    renew_step :
        (endpoint : String) (now : ℕ)
        → Step store (renew_relay_credential_if_needed apply_delta endpoint now store).1
    update_port_step :
        (endpoint : String) (qad_port : Option ℕ)
        → Step store (update_relay_qad_port_if_needed apply_delta endpoint qad_port store).1
    cleanup_step : (now : ℕ) → Step store (invitation_cleanup apply_delta now store)

  pub data Run (store : Store D) : Store D → Type 0 where
    stop : Run store store
    then_step : {middle after : Store D} → Run store middle → Step middle after → Run store after

  pub Step-Settled :
      (store : Store D) {after : Store D}
      → WellFormed store.state
      → Step store after
      → Settled apply_delta store after
  Step-Settled store v (claim_step request now issue_time map_time) =
      claim-Settled p key apply_delta store v request now issue_time map_time
  Step-Settled store v (client_edge_invite_step request arrival scan now secret invite_id) =
      client_edge_invite-Settled p key apply_delta store v request arrival scan now secret invite_id
  Step-Settled store v (client_edge_remove_step request arrival map_time) =
      client_edge_remove-Settled p key apply_delta store v request arrival map_time
  Step-Settled store v (provisioner_step header body arrival scan now invite_id) =
      provisioner_request-Settled p key apply_delta store v header body arrival scan now invite_id
  Step-Settled store v (admin_step request scan now secret invite_id) =
      dispatch_local_admin-Settled p key apply_delta store v request scan now secret invite_id
  Step-Settled store v (create_invite_step name kind ttl managed_by scan now secret invite_id) =
      local_create_invite-Settled p key apply_delta store v name kind ttl managed_by scan now secret
        invite_id
  Step-Settled store v (renew_step endpoint now) =
      renew_relay_credential_if_needed-Settled p key apply_delta store v endpoint now
  Step-Settled store v (update_port_step endpoint qad_port) =
      update_relay_qad_port_if_needed-Settled p key apply_delta store v endpoint qad_port
  Step-Settled store v (cleanup_step now) = invitation_cleanup-Settled p key apply_delta store v now

  -- Every run from a well-formed state ends in one: identities, names, slots, URLs and invitation
  -- identifiers stay distinct, every edge's owner is registered, and no credential or revocation
  -- is ahead of the revisions.
  pub run-WellFormed :
      {store after : Store D} → WellFormed store.state → Run store after → WellFormed after.state
  run-WellFormed v stop = v
  run-WellFormed v (then_step {middle} {after} run step) =
      let w = run-WellFormed v run in
      Settled-WellFormed apply_delta middle after (Step-Settled middle w step) w

  -- How the revisions and the notifications of two stores compare.
  pub record Progress (store after : Store D) : Type 0 where
    pub revision_grows : store.state.revision ≤ after.state.revision
    pub relay_revision_grows : store.state.relay_revision ≤ after.state.relay_revision
    -- The channel of the nodes is notified once for each new revision, and the relays' once for each
    -- new relay revision.
    pub notified : after.changed + store.state.revision ≡ store.changed + after.state.revision
    pub relays_notified :
        after.relay_changed + store.state.relay_revision
        ≡ store.relay_changed + after.state.relay_revision
    -- Nodes learn of every revision that relays learn of.
    pub relay_with_nodes :
        after.state.relay_revision + store.state.revision
        ≤ store.state.relay_revision + after.state.revision
    pub same_audience : after.state.audience ≡ store.state.audience

  Progress-refl : (store : Store D) → Progress store store
  Progress-refl store = record {
    revision_grows = omega arith;
    relay_revision_grows = omega arith;
    notified = refl;
    relays_notified = refl;
    relay_with_nodes = omega arith;
    same_audience = refl;
  }

  Committed-Progress :
      (store : Store D) (delta : StateDelta) (after : Store D)
      → Committed apply_delta store delta after
      → Progress store after
  unfolding advance
  Committed-Progress store delta after c =
      let r : after.state.revision ≡ bumped delta.publish store.state.revision =
        ap (λ (s : ControlState). s.revision) c.state_after in
      let rr : after.state.relay_revision ≡ relay_bumped delta.publish store.state.relay_revision =
        ap (λ (s : ControlState). s.relay_revision) c.state_after in
      let q =
        publish-Progress delta.publish store.state.revision store.state.relay_revision store.changed
          store.relay_changed in
      record {
        revision_grows = subst (λ n. store.state.revision ≤ n) (sym r) q.0;
        relay_revision_grows = subst (λ n. store.state.relay_revision ≤ n) (sym rr) q.1;
        notified = rw (c.notified, r) q.2;
        relays_notified = rw (c.relays_notified, rr) q.3;
        relay_with_nodes = rw (r, rr) q.4;
        same_audience =
            ap (λ (s : ControlState). s.audience) c.state_after ∙ apply-audience delta store.state;
      }

  Settled-Progress :
      (store after : Store D) → Settled apply_delta store after → Progress store after
  Settled-Progress store after (inl same) = rw same (Progress-refl store)
  Settled-Progress store after (inr (delta, fits, c)) = Committed-Progress store delta after c

  -- Along every run from a well-formed state, both revisions only grow and the audience stays; the
  -- channel of the nodes is notified exactly once for each new revision, and that of the relays for
  -- each new relay revision, which never grows by more than the revision does.
  pub run-Progress :
      {store after : Store D} → WellFormed store.state → Run store after → Progress store after
  run-Progress {store} v stop = Progress-refl store
  run-Progress {store} v (then_step {middle} {after} run step) =
      let q = run-Progress v run in
      let q' = Settled-Progress middle after (Step-Settled middle (run-WellFormed v run) step) in
      record {
        revision_grows = omega (arith, q.revision_grows, q'.revision_grows);
        relay_revision_grows = omega (arith, q.relay_revision_grows, q'.relay_revision_grows);
        notified = omega (arith, q.notified, q'.notified);
        relays_notified = omega (arith, q.relays_notified, q'.relays_notified);
        relay_with_nodes = omega (arith, q.relay_with_nodes, q'.relay_with_nodes);
        same_audience = q'.same_audience ∙ q.same_audience;
      }
