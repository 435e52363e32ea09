-- ===== src/Removal/Revoked.antt =====
-- A removed client or edge is gone, and its credentials are revoked
-- (crates/as-control/src/main.rs, revocation_change and the removals).
use agent_scale.Invariant.Handlers.{check_client_unused-unowned}
use agent_scale.Base.{
  ◌&&◌, Ensures-then, any, false, ◌≤◌, ℕ, max, String, ◌≡◌, ◌≢◌, refl, sym, ◌∙◌, ap, subst, ◌⊎◌,
  inl, inr, ◌==◌, eq_of_==, &&-true, Option, none, some, find, find_sound, upsert_record,
  find-upsert_record, find-upsert_record_other, find-retain_deleted, find-retain_other,
  saturating_add, Result, ok, err, arith, Ensures, Ensures-ok, Ensures-ok_or, Ensures-reject_if,
}
use mathlib.Core.Option.{some-injective}
use agent_scale.Control.Errors.{ApiError}
use agent_scale.Control.Wire.{EdgeRemoveRequest, SignedNodeMap}
use agent_scale.Control.State.{
  ControlState, ClientRecord, EdgeRecord, RevocationRecord, StateDelta, apply, apply_changes,
  apply_change,
}
use agent_scale.Control.Commit.{Store, ApplyDelta, commit, advance, run_section}
use agent_scale.Control.Commit.Laws.{Committed, run_section_cases}
use agent_scale.Control.Platform.{Platform}
use agent_scale.Control.Checks.{client_with_id, client_named}
use agent_scale.Control.Map.{edge_with_id}
use agent_scale.Control.Removal.{
  merge_revocation, revocation_of, revocation_change, client_removal, edge_removal,
}
use agent_scale.Control.Requests.{edge_remove_section, edge_remove_verification, client_edge_remove}
use agent_scale.Control.Admin.{admin_remove_client}
use agent_scale.Enrolment.AsInvited.{WhenCommitted}

-- The revocation of an identity covers a generation and lasts at least until an expiry.
pub record Covers (generation expires_at revision : ℕ) (before : Option RevocationRecord)
    (r : RevocationRecord) : Type 0 where
  pub through : generation ≤ r.revoked_through_generation
  pub lasting : expires_at ≤ r.expires_at
  pub published : r.revision ≡ revision
  -- What was revoked before stays revoked.
  pub kept :
      (earlier : RevocationRecord)
      → before ≡ some earlier
      → (earlier.revoked_through_generation ≤ r.revoked_through_generation)
        × (earlier.expires_at ≤ r.expires_at)

pub merged_id :
    (o : Option RevocationRecord) (id : String) (g x n : ℕ)
    → (merge_revocation o id g x n).endpoint_id ≡ id
merged_id none id g x n = refl
merged_id (some r) id g x n = refl

merged-Covers :
    (o : Option RevocationRecord) (id : String) (g x n : ℕ)
    → Covers g x n o (merge_revocation o id g x n)
merged-Covers none id g x n = record {
  through = omega arith;
  lasting = omega arith;
  published = refl;
  kept = λ earlier e. cc;
}
merged-Covers (some r) id g x n = record {
  through = omega arith;
  lasting = omega arith;
  published = refl;
  kept = λ earlier e.
      let q : r ≡ earlier = some-injective _ _ e in
      subst
        (λ (y : RevocationRecord).
          (y.revoked_through_generation ≤ max r.revoked_through_generation g)
          × (y.expires_at ≤ max r.expires_at x))
        q (omega arith, omega arith);
}

-- The identity has a revocation for its generation and expiry, published at the next relay
-- revision, and the revocations of the others are as they were.
pub record Revoked (s after : ControlState) (id : String) (generation expires_at : ℕ) : Type 0 where
  pub entry : RevocationRecord
  pub listed : revocation_of after id ≡ some entry
  pub covers :
      Covers generation expires_at (saturating_add s.relay_revision 1) (revocation_of s id) entry
  pub others : (k : String) → id ≢ k → revocation_of after k ≡ revocation_of s k

-- A state whose table of revocations was updated with the merged record.
entry-Revoked :
    (s after : ControlState) (id : String) (g x : ℕ)
    → after.revocations
      ≡ upsert_record s.revocations
          (merge_revocation (revocation_of s id) id g x (saturating_add s.relay_revision 1))
          (λ item key. item.endpoint_id == key.endpoint_id)
    → Revoked s after id g x
entry-Revoked s after id g x e =
    let m = merge_revocation (revocation_of s id) id g x (saturating_add s.relay_revision 1) in
    let same : m.endpoint_id ≡ id =
      merged_id (revocation_of s id) id g x (saturating_add s.relay_revision 1) in
    let ids = λ (r : RevocationRecord). r.endpoint_id in
    record {
      entry = m;
      listed =
          ap (find (λ (r : RevocationRecord). r.endpoint_id == id)) e
          ∙ subst
              (λ k.
                find (λ (r : RevocationRecord). r.endpoint_id == k)
                  (upsert_record s.revocations m (λ item key. item.endpoint_id == key.endpoint_id))
                ≡ some m)
              same (find-upsert_record ids s.revocations m);
      covers = merged-Covers (revocation_of s id) id g x (saturating_add s.relay_revision 1);
      others = λ k ne.
          ap (find (λ (r : RevocationRecord). r.endpoint_id == k)) e
          ∙ find-upsert_record_other ids s.revocations m k (λ q. ne (sym same ∙ q));
    }

module _ (s : ControlState) (b rb : ℕ) where
  pub record ClientRevoked (c : ClientRecord) (after : ControlState) : Type 0 where
    pub gone : client_with_id after c.endpoint_id ≡ none
    pub revoked : Revoked s after c.endpoint_id c.credential_generation c.credential_expires_at
    pub other_clients :
        (k : String) → c.endpoint_id ≢ k → client_with_id after k ≡ client_with_id s k
    pub same_edges : after.edges ≡ s.edges

  pub record EdgeRevoked (e : EdgeRecord) (after : ControlState) : Type 0 where
    pub gone : edge_with_id after e.endpoint_id ≡ none
    pub revoked : Revoked s after e.endpoint_id e.credential_generation e.credential_expires_at
    pub other_edges : (k : String) → e.endpoint_id ≢ k → edge_with_id after k ≡ edge_with_id s k
    pub same_clients : after.clients ≡ s.clients

  pub client_removal-Revoked :
      (c : ClientRecord) → ClientRevoked c (advance (client_removal s c) b rb s)
  unfolding client_removal revocation_change advance apply apply_changes apply_change client_with_id
  client_removal-Revoked c = record {
    gone = find-retain_deleted (λ (x : ClientRecord). x.endpoint_id) s.clients c.endpoint_id;
    revoked = entry-Revoked s _ _ _ _ refl;
    other_clients = λ k ne.
        find-retain_other (λ (x : ClientRecord). x.endpoint_id) s.clients c.endpoint_id k ne;
    same_edges = refl;
  }

  edge_removal-Revoked : (e : EdgeRecord) → EdgeRevoked e (advance (edge_removal s e) b rb s)
  unfolding edge_removal revocation_change advance apply apply_changes apply_change
  edge_removal-Revoked e = record {
    gone = find-retain_deleted (λ (x : EdgeRecord). x.endpoint_id) s.edges e.endpoint_id;
    revoked = entry-Revoked s _ _ _ _ refl;
    other_edges =
        λ k ne. find-retain_other (λ (x : EdgeRecord). x.endpoint_id) s.edges e.endpoint_id k ne;
    same_clients = refl;
  }

-- The delta removes the client of that name, who owns no edge.
pub record ClientRemoval (s : ControlState) (name : String) (delta : StateDelta) : Type 0 where
  pub removed : ClientRecord
  pub registered : client_named s name ≡ some removed
  pub owns_nothing : any (λ (e : EdgeRecord). e.owner_id == removed.endpoint_id) s.edges ≡ false
  pub effect : (b rb : ℕ) → ClientRevoked s b rb removed (advance delta b rb s)

-- Whatever the administration's removal of a client commits, it removes the registered client of
-- that name, who owns no edge: the client is gone, its credentials are revoked, no revocation is
-- weakened, and the edges and every other client and revocation are as they were.
pub admin_remove_client-Revoked :
    (s : ControlState) (name : String) (scan : ℕ)
    → Ensures (WhenCommitted (ClientRemoval s name)) (admin_remove_client name scan s)
unfolding admin_remove_client
admin_remove_client-Revoked s name scan = Ensures-ok_or _ _ _ λ c found.
    Ensures-then _ _ (check_client_unused-unowned s scan c) λ _ unowned. Ensures-ok (record {
      removed = c;
      registered = found;
      owns_nothing = unowned;
      effect = λ b rb. client_removal-Revoked s b rb c;
    })

-- The registered edge that a request names, of a client.
abbrev pub requested_edge : ControlState → String → EdgeRemoveRequest → Option EdgeRecord
requested_edge s client_id request =
    find
      (λ (e : EdgeRecord).
        (e.owner_id == client_id && e.name == request.name) && e.endpoint_id == request.endpoint_id)
      s.edges

module _ (p : Platform) (key : String) {D : Type 0} (apply_delta : ApplyDelta D) where
  -- What `client_edge_remove` did.
  pub record EdgeRemoved (request : EdgeRemoveRequest) (arrival : ℕ) (store after : Store D)
      : Type 0 where
    pub client_id : String
    pub removed : EdgeRecord
    -- The edge that is looked up by its owner, name and identity.
    pub registered : requested_edge store.state client_id request ≡ some removed
    pub verified : edge_remove_verification p key request arrival ≡ ok client_id
    pub own : removed.owner_id ≡ client_id
    pub named : removed.name ≡ request.name
    pub identified : removed.endpoint_id ≡ request.endpoint_id
    pub delta : StateDelta
    pub committed : Committed apply_delta store delta after
    pub effect : (b rb : ℕ) → EdgeRevoked store.state b rb removed (advance delta b rb store.state)

  -- The edge that the section removes.
  record Removes (s : ControlState) (request : EdgeRemoveRequest) (id : String) (delta : StateDelta)
      : Type 0 where
    pub removed : EdgeRecord
    pub registered : requested_edge s id request ≡ some removed
    pub own : removed.owner_id ≡ id
    pub named : removed.name ≡ request.name
    pub identified : removed.endpoint_id ≡ request.endpoint_id
    pub effect : (b rb : ℕ) → EdgeRevoked s b rb removed (advance delta b rb s)

  edge_remove_section-Removes :
      (s : ControlState) (request : EdgeRemoveRequest) (id : String) (map_time : ℕ)
      → Ensures
          (WhenCommitted (Removes s request id))
          (edge_remove_section p key request id map_time s)
  unfolding edge_remove_section
  edge_remove_section-Removes s request id map_time = Ensures-reject_if _ _ _ λ _.
      Ensures-reject_if _ _ _ λ _. Ensures-ok_or _ _ _ λ e found.
        let q = &&-true _ _ (find_sound _ s.edges found) in
        let q' = &&-true _ _ q.0 in
        Ensures-ok (record {
          removed = e;
          registered = found;
          own = eq_of_== _ _ q'.0;
          named = eq_of_== _ _ q'.1;
          identified = eq_of_== _ _ q.1;
          effect = λ b rb. edge_removal-Revoked s b rb e;
        })

  checked_removal :
      (request : EdgeRemoveRequest) (arrival map_time : ℕ) (store : Store D)
      (checked : Result ApiError String)
      → edge_remove_verification p key request arrival ≡ checked
      → (let after =
            (elim checked as (λ _. Result ApiError SignedNodeMap × Store D) [
              | ok id ↦
                  run_section apply_delta (edge_remove_section p key request id map_time) store
              | err e ↦ (err e, store)
            ]).1 in
          (after ≡ store) ⊎ EdgeRemoved request arrival store after)
  checked_removal request arrival map_time store (err x) e = inl refl
  checked_removal request arrival map_time store (ok id) e =
      run_section_cases apply_delta
        (λ after. (after ≡ store) ⊎ EdgeRemoved request arrival store after)
        (edge_remove_section p key request id map_time) store (inl refl)
        λ delta reply after decided c.
          let h =
            (edge_remove_section-Removes store.state request id map_time).value (commit delta reply)
              decided in
          inr (record {
            client_id = id;
            removed = h.removed;
            registered = h.registered;
            verified = e;
            own = h.own;
            named = h.named;
            identified = h.identified;
            delta = delta;
            committed = c;
            effect = h.effect;
          })

  -- A client's request to remove an edge leaves the store as it was, or its signature was verified
  -- and it removes the registered edge of that very client with the requested name and identity: the
  -- edge is gone, its credentials are revoked through its stored generation and at least to its stored
  -- expiry, no revocation is weakened, and every client and every other edge and revocation is as it
  -- was.
  pub client_edge_remove_revokes :
      (request : EdgeRemoveRequest) (arrival map_time : ℕ) (store : Store D)
      → (let after = (client_edge_remove p key apply_delta request arrival map_time store).1 in
          (after ≡ store) ⊎ EdgeRemoved request arrival store after)
  unfolding client_edge_remove
  client_edge_remove_revokes request arrival map_time store =
      checked_removal request arrival map_time store
        (edge_remove_verification p key request arrival) refl
