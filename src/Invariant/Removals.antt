-- ===== src/Invariant/Removals.antt =====
-- Removals, transfers and renewals fit the state.
use agent_scale.Base.{
  ◌+◌, ℕ, String, ◌≡◌, ap, ◌∙◌, Bool, true, false, ◌&&◌, ◌==◌, Option, some, inl, inr, Option-cases,
  any, find, All-map, All-find, any-All, Distinct-find, arith, saturating_add,
}
use agent_scale.Control.State.{
  ControlState, ClientRecord, EdgeRecord, RelayRecord, put_edge, put_client, put_relay,
}
use agent_scale.Control.Removal.{
  merge_revocation, revocation_of, revocation_change, client_removal, edge_removal,
}
use agent_scale.Control.Upkeep.{renewed_client, renewed_edge}
use agent_scale.Invariant.Tables.{InRange, RevocationInRange, edge_slot, WellFormed}
use agent_scale.Invariant.Changes.{Fits}
use agent_scale.Invariant.Sections.{DeltaFits}
use agent_scale.Invariant.Enrolment.{not-slot, not-same}

module _ (s : ControlState) (v : WellFormed s) where
  -- The record of a removal is published at the next relay revision, for a generation in use.
  pub merged-InRange :
      (id : String) (generation expires_at : ℕ)
      → InRange s.revision generation
      → RevocationInRange (s.revision + 1) (s.relay_revision + 1) (
          merge_revocation
            (revocation_of s id)
            id
            generation
            expires_at
            (saturating_add s.relay_revision 1))
  merged-InRange id generation expires_at r = elim (Option-cases (revocation_of s id)) [
    | inl e ↦ rw e ((omega arith, omega arith), omega arith)
    | inr (old, e) ↦
        let q = All-find _ _ s.revocations v.revocations.ranges e in
        rw e ((omega arith, omega arith), omega arith)
  ]

  pub client_removal-Fits :
      (p : ClientRecord → Bool) {c : ClientRecord}
      → find p s.clients ≡ some c
      → any (λ (e : EdgeRecord). e.owner_id == c.endpoint_id) s.edges ≡ false
      → DeltaFits (client_removal s c) s
  unfolding client_removal revocation_change
  client_removal-Fits p {c} found unused = (
    All-map _ (λ e t. not-same e.owner_id c.endpoint_id t) s.edges (any-All _ s.edges unused),
    (
      merged-InRange c.endpoint_id c.credential_generation c.credential_expires_at
          (All-find _ p s.clients v.clients.generations found).0,
      tt,
    ),
  )

  pub edge_removal-Fits :
      (p : EdgeRecord → Bool) {e : EdgeRecord}
      → find p s.edges ≡ some e
      → DeltaFits (edge_removal s e) s
  unfolding edge_removal revocation_change
  edge_removal-Fits p {e} found = (
    tt,
    (
      merged-InRange e.endpoint_id e.credential_generation e.credential_expires_at
          (All-find _ p s.edges v.edges.generations found).0,
      tt,
    ),
  )

  -- The edge keeps its name and identity; the new owner has no edge of that name.
  pub transfer-Fits :
      (p : EdgeRecord → Bool) {e : EdgeRecord} (name owner : String)
      → find p s.edges ≡ some e
      → e.name ≡ name
      → any (λ (x : EdgeRecord). x.owner_id == owner && x.name == name) s.edges ≡ false
      → any (λ (c : ClientRecord). c.endpoint_id == owner) s.clients ≡ true
      → Fits (s.revision + 1) s.relay_revision (put_edge (record e { owner_id = owner })) s
  transfer-Fits p {e} name owner found named free registered =
      let g = (All-find _ p s.edges v.edges.generations found).0 in
      (
        All-map _
            (λ x t same. absurd (
              not-slot x.owner_id x.name owner name t
                (same ∙ ap (λ (n : String). (owner, n)) named)))
            s.edges (any-All _ s.edges free),
        (g.0, omega arith),
        registered,
      )

  pub renewed_client-Fits :
      (p : ClientRecord → Bool) {c : ClientRecord} (now : ℕ)
      → find p s.clients ≡ some c
      → Fits s.revision s.relay_revision (put_client (renewed_client c now)) s
  renewed_client-Fits p {c} now found = (
    All-map _ (λ x same e. ap (λ (y : ClientRecord). y.endpoint_id) (same e)) s.clients
        (Distinct-find (λ (x : ClientRecord). x.name) p s.clients v.clients.names found),
    (All-find _ p s.clients v.clients.generations found).0,
  )

  pub renewed_edge-Fits :
      (p : EdgeRecord → Bool) {e : EdgeRecord} (now : ℕ)
      → find p s.edges ≡ some e
      → Fits s.revision s.relay_revision (put_edge (renewed_edge e now)) s
  renewed_edge-Fits p {e} now found = (
    All-map _ (λ x same q. ap (λ (y : EdgeRecord). y.endpoint_id) (same q)) s.edges
        (Distinct-find edge_slot p s.edges v.edges.slots found),
    (All-find _ p s.edges v.edges.generations found).0,
    (All-find _ p s.edges v.owned found).0,
  )

  pub update_port-Fits :
      (p : RelayRecord → Bool) {r : RelayRecord} (qad_port : Option ℕ)
      → find p s.relays ≡ some r
      → Fits (s.revision + 1) s.relay_revision (put_relay (record r { qad_port = qad_port })) s
  update_port-Fits p {r} qad_port found = (
    All-map _ (λ x same e. ap (λ (y : RelayRecord). y.endpoint_id) (same e)) s.relays
        (Distinct-find (λ (x : RelayRecord). x.name) p s.relays v.relays.names found),
    All-map _ (λ x same e. ap (λ (y : RelayRecord). y.endpoint_id) (same e)) s.relays
        (Distinct-find (λ (x : RelayRecord). x.url) p s.relays v.relays.urls found),
  )
