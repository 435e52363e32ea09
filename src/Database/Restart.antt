-- ===== src/Database/Restart.antt =====
-- Loading the tables that hold a state (crates/as-control/src/db.rs, load).
use agent_scale.Base.{
  ◌≢◌, inl, inr, Bool-cases, String, Bool, true, ◌≡◌, refl, sym, ap, ◌∙◌, ◌==◌, eqb, Option, List,
  [], ◌∷◌, any, All, All-map, Distinct, ok, ok_or-some, bind_ok, proceed,
}
use agent_scale.Base.Same.{Same, All-of_lookup, Distinct-of_lookup, any-of_lookup}
use agent_scale.Control.Wire.{Invite}
use agent_scale.Control.State.{
  ControlState, ClientRecord, EdgeRecord, RelayRecord, ProvisionerRecord, InviteRecord,
  state_schema,
}
use agent_scale.Invariant.Tables.{edge_slot, WellFormed}
use agent_scale.Database.Tables.{ProvisionerRow, InviteRow, Database}
use agent_scale.Database.Load.{
  active_provisioners, read_invites, client_before, edge_before, relay_before, provisioner_before,
  revocation_before, load_state, load,
}
use agent_scale.Database.Agreement.{
  Stored, nothing, row_of, Holds, client_id, edge_id, relay_id, provisioner_id, revocation_id,
  row_id,
}
use agent_scale.Base.Sorting.{order_by, order_by-Distinct, order_by-Same}

active-Distinct :
    (rows : List ProvisionerRow)
    → Distinct row_id rows
    → Distinct provisioner_id (active_provisioners rows)
unfolding active_provisioners
active-Distinct [] d = tt
active-Distinct (x ∷ xs) d = elim (Bool-cases x.active) [
  | inl t ↦ rw t (active-All (row_id x) xs d.0, active-Distinct xs d.1)
  | inr t ↦ rw t (active-Distinct xs d.1)
]
  where
    active-All :
        (k : String) (rows : List ProvisionerRow)
        → All (λ r. row_id r ≢ k) rows
        → All (λ r. provisioner_id r ≢ k) (active_provisioners rows)
    active-All k [] h = tt
    active-All k (y ∷ ys) h = elim (Bool-cases y.active) [
      | inl t ↦ rw t (h.0, active-All k ys h.1)
      | inr t ↦ rw t (active-All k ys h.1)
    ]

module _ (to_json : Invite → String) (parse_invite : String → Option Invite)
    (before : String → String → Bool) where
  read_invites-Stored :
      (rows : List InviteRow) (items : List InviteRecord)
      → Stored to_json parse_invite rows items
      → read_invites parse_invite rows ≡ ok items
  unfolding read_invites
  read_invites-Stored rows items nothing = refl
  read_invites-Stored rows items (row_of {rows = rs} {items = is} k e rest) =
      bind_ok _ e ∙ bind_ok _ (read_invites-Stored rs is rest)

  -- The state that is read back: the same, but for the order of its tables.
  abbrev pub loaded : Database → ControlState → ControlState
  loaded db s = record s {
    clients = order_by (client_before parse_invite before) db.clients;
    edges = order_by (edge_before parse_invite before) db.edges;
    relays = order_by (relay_before parse_invite before) db.relays;
    provisioners =
        order_by (provisioner_before parse_invite before) (active_provisioners db.provisioners);
    revocations = order_by (revocation_before parse_invite before) db.relay_revocations;
  }

  pub load-loaded :
      (db : Database) (s : ControlState)
      → Holds to_json parse_invite db s
      → load parse_invite before db ≡ ok (loaded db s)
  unfolding load load_state
  load-loaded db s v =
      ok_or-some _ _ v.metadata
      ∙ proceed _ _ (ap (λ n. eqb n state_schema) v.schema)
      ∙ bind_ok _ (read_invites-Stored db.invitations s.invites v.invites)

  pub loaded-Holds :
      (db : Database) (s : ControlState)
      → Holds to_json parse_invite db s
      → Holds to_json parse_invite db (loaded db s)
  loaded-Holds db s v = record {
    metadata = v.metadata;
    schema = v.schema;
    clients = λ k. sym (order_by-Same client_id _ db.clients v.keys.client_ids k);
    edges = λ k. sym (order_by-Same edge_id _ db.edges v.keys.edge_ids k);
    relays = λ k. sym (order_by-Same relay_id _ db.relays v.keys.relay_ids k);
    invites = v.invites;
    provisioners = λ k. sym (
        order_by-Same provisioner_id _ (active_provisioners db.provisioners)
          (active-Distinct _ v.keys.row_ids) k);
    revocations =
        λ k. sym (order_by-Same revocation_id _ db.relay_revocations v.keys.revocation_ids k);
    keys = v.keys;
  }

  -- A table with the records of a well-formed one, under distinct identifiers, is well-formed.
  pub loaded-WellFormed :
      (db : Database) (s : ControlState)
      → Holds to_json parse_invite db s
      → WellFormed s
      → WellFormed (loaded db s)
  loaded-WellFormed db s v w =
      let u = loaded-Holds db s v in
      let kc =
        order_by-Distinct client_id (client_before parse_invite before) db.clients
          v.keys.client_ids in
      let ke =
        order_by-Distinct edge_id (edge_before parse_invite before) db.edges v.keys.edge_ids in
      let kr =
        order_by-Distinct relay_id (relay_before parse_invite before) db.relays v.keys.relay_ids in
      let kp =
        order_by-Distinct provisioner_id (provisioner_before parse_invite before)
          (active_provisioners db.provisioners) (active-Distinct _ v.keys.row_ids) in
      let kv =
        order_by-Distinct revocation_id (revocation_before parse_invite before) db.relay_revocations
          v.keys.revocation_ids in
      let sc : Same client_id s.clients (loaded db s).clients =
        λ k. sym (v.clients k) ∙ u.clients k in
      let se : Same edge_id s.edges (loaded db s).edges = λ k. sym (v.edges k) ∙ u.edges k in
      let sr : Same relay_id s.relays (loaded db s).relays = λ k. sym (v.relays k) ∙ u.relays k in
      let sp : Same provisioner_id s.provisioners (loaded db s).provisioners =
        λ k. sym (v.provisioners k) ∙ u.provisioners k in
      let sv : Same revocation_id s.revocations (loaded db s).revocations =
        λ k. sym (v.revocations k) ∙ u.revocations k in
      record {
        clients = record {
          ids = kc;
          names =
              Distinct-of_lookup client_id (λ (c : ClientRecord). c.name) _ _ kc sc w.clients.names;
          generations = All-of_lookup client_id _ _ _ kc sc w.clients.generations;
        };
        edges = record {
          ids = ke;
          slots = Distinct-of_lookup edge_id edge_slot _ _ ke se w.edges.slots;
          generations = All-of_lookup edge_id _ _ _ ke se w.edges.generations;
        };
        owned =
            All-map _ (λ e o. any-of_lookup client_id _ _ e.owner_id sc o) _
              (All-of_lookup edge_id
                (λ (e : EdgeRecord).
                  any (λ (c : ClientRecord). c.endpoint_id == e.owner_id) s.clients ≡ true)
                _ _ ke se w.owned);
        relays = record {
          ids = kr;
          names =
              Distinct-of_lookup relay_id (λ (r : RelayRecord). r.name) _ _ kr sr w.relays.names;
          urls = Distinct-of_lookup relay_id (λ (r : RelayRecord). r.url) _ _ kr sr w.relays.urls;
        };
        invites = w.invites;
        provisioners = record {
          ids = kp;
          names =
              Distinct-of_lookup provisioner_id (λ (r : ProvisionerRecord). r.name) _ _ kp sp
                w.provisioners.names;
        };
        revocations = record {
          ids = kv;
          ranges = All-of_lookup revocation_id _ _ _ kv sv w.revocations.ranges;
        };
      }
