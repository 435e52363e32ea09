-- ===== src/Maps/Agreement.antt =====
-- The maps of a client and of an edge agree (crates/as-control/src/main.rs, signed_map).
use mathlib.Core.Option.{some-injective}
use agent_scale.Base.{
  ℕ, String, ◌≡◌, ◌≢◌, refl, sym, ◌∙◌, ap, Bool, false, ◌||◌, ◌==◌, ==-false, eq_of_==, none, some,
  List, [], ◌∷◌, map, any, find, retain, All, All-map, Distinct, Bool-cases, inl, inr, ok, arith,
  Ensures, Ensures-ok, Ensures-bind, Ensures-then,
}
use agent_scale.Control.Wire.{EdgeInfo, SignedNodeMap}
use agent_scale.Control.State.{ControlState, ClientRecord, EdgeRecord}
use agent_scale.Control.Platform.{Platform}
use agent_scale.Control.Checks.{client_with_id}
use agent_scale.Control.Map.{
  Role, edge_with_id, edge_info, edge_role, client_role, role_of, recipient_role, node_map,
  signed_map,
}
use agent_scale.Invariant.Tables.{WellFormed}

or_false : (b : Bool) → (b || false) ≡ b
or_false b = ground arith

module _ (s : ControlState) (q : EdgeRecord → Bool) (k : String) where
  -- Whether an edge is among the shown ones.
  shown : List EdgeRecord → Bool
  shown xs = any (λ (i : EdgeInfo). i.endpoint_id == k) (map (edge_info s) (retain q xs))

  shown-absent : (xs : List EdgeRecord) → All (λ x. x.endpoint_id ≢ k) xs → shown xs ≡ false
  unfolding shown any retain edge_info
  shown-absent [] h = refl
  shown-absent (x ∷ xs) h = elim (Bool-cases (q x)) [
    | inl t ↦ rw (t, ==-false x.endpoint_id k h.0) (shown-absent xs h.1)
    | inr f ↦ rw f (shown-absent xs h.1)
  ]

  -- An edge is shown exactly when it passes the filter.
  shown-found :
      (xs : List EdgeRecord) (e : EdgeRecord)
      → Distinct (λ (x : EdgeRecord). x.endpoint_id) xs
      → find (λ x. x.endpoint_id == k) xs ≡ some e
      → shown xs ≡ q e
  unfolding shown any retain edge_info find
  shown-found [] e d h = cc
  shown-found (x ∷ xs) e d h = elim (Bool-cases (x.endpoint_id == k)) [
    | inl t ↦
        let same : x ≡ e = some-injective _ _ (rw t at h) in
        let rest =
          shown-absent xs
            (All-map _ (λ y ne r. ne (r ∙ sym (eq_of_== x.endpoint_id k t))) xs d.0) in
        elim (Bool-cases (q x)) [
          | inl y ↦ rw (y, t) (sym y ∙ ap q same)
          | inr n ↦ rw n (rest ∙ sym n ∙ ap q same)
        ]
    | inr f ↦
        let rest = shown-found xs e d.1 (rw f at h) in
        elim (Bool-cases (q x)) [ inl y ↦ rw (y, f) rest | inr n ↦ rw n rest ]
  ]

module _ (p : Platform) (key : String) (s : ControlState) where
  edge_map-allows :
      (id : String) (t : ℕ) (e : EdgeRecord)
      → edge_with_id s id ≡ some e
      → Ensures
          (λ (m : SignedNodeMap). m.map.allowed_clients ≡ e.owner_id ∷ [])
          (signed_map p key s id t)
  unfolding signed_map recipient_role role_of edge_role node_map
  edge_map-allows id t e found = Ensures-then _ _ edge_allows λ role h. Ensures-ok h
    where
      edge_allows :
          Ensures (λ (role : Role p key). role.1 ≡ e.owner_id ∷ []) (recipient_role p key s id)
      edge_allows = rw found (Ensures-bind _ _ λ credential _. Ensures-ok refl)

  client_map-lists :
      (id : String) (t : ℕ) (c : ClientRecord)
      → edge_with_id s id ≡ none
      → client_with_id s id ≡ some c
      → Ensures
          (λ (m : SignedNodeMap).
            m.map.edges ≡ map (edge_info s) (retain (λ (e : EdgeRecord). e.owner_id == id) s.edges))
          (signed_map p key s id t)
  unfolding signed_map recipient_role role_of client_role node_map
  client_map-lists id t c absent found = Ensures-then _ _ client_lists λ role h. Ensures-ok h
    where
      client_lists :
          Ensures
            (λ (role : Role p key).
              role.2 ≡ map (edge_info s) (retain (λ (e : EdgeRecord). e.owner_id == id) s.edges))
            (recipient_role p key s id)
      client_lists = rw (absent, found) (Ensures-bind _ _ λ credential _. Ensures-ok refl)

  -- Of a well-formed state, with an edge and a client that is no edge itself registered, and a map
  -- signed for each: the client's map lists the edge exactly when the edge's map allows the client.
  pub signed_map-agrees :
      (edge_id client_id : String) (t t' : ℕ) (e : EdgeRecord) (c : ClientRecord)
      (m m' : SignedNodeMap)
      → WellFormed s
      → edge_with_id s edge_id ≡ some e
      → edge_with_id s client_id ≡ none
      → client_with_id s client_id ≡ some c
      → signed_map p key s edge_id t ≡ ok m
      → signed_map p key s client_id t' ≡ ok m'
      → any (λ (i : EdgeInfo). i.endpoint_id == edge_id) m'.map.edges
        ≡ any (λ a. a == client_id) m.map.allowed_clients
  unfolding any shown
  signed_map-agrees edge_id client_id t t' e c m m' v edge absent client for_edge for_client =
      ap (any (λ (i : EdgeInfo). i.endpoint_id == edge_id))
        ((client_map-lists client_id t' c absent client).value m' for_client)
      ∙ shown-found s (λ x. x.owner_id == client_id) edge_id s.edges e v.edges.ids edge
      ∙ sym (or_false (e.owner_id == client_id))
      ∙ ap (any (λ a. a == client_id)) (sym ((edge_map-allows edge_id t e edge).value m for_edge))
