-- ===== src/Database/Changes.antt =====
-- Each change of a delta, in the tables and in memory (crates/as-control/src/db.rs,
-- apply_delta_sync; crates/as-control/src/main.rs, StateDelta::apply).
use agent_scale.Invariant.Changes.{ids-upsert}
use agent_scale.Base.Same.{Same, Same-upsert, Same-retain}
use agent_scale.Base.{
  ◌≢◌, All-map, All, Distinct, Distinct-retain, ℕ, String, ◌==◌, ◌≡◌, refl, sym, ◌∙◌, Bool-cases,
  inl, inr, Option, some, List, [], ◌∷◌, map, ok_or-some, bind_ok, ok, Ensures, Ensures-ok,
  Ensures-bind, Ensures-then,
}
use agent_scale.Control.Wire.{Invite}
use agent_scale.Control.State.{
  ControlState, StateChange, put_client, delete_client, put_edge, delete_edge, put_relay,
  delete_relay, put_invite, delete_invite, put_provisioner, delete_provisioner, put_revocation,
  delete_revocation, InviteRecord, ProvisionerRecord, invite_key, apply_change, apply_changes,
}
use agent_scale.Database.Tables.{ProvisionerRow, InviteRow, Database}
use agent_scale.Database.Statements.{
  put_client_row, delete_client_row, put_edge_row, put_relay_row, put_revocation_row,
  put_provisioner_row, deactivate, put_invite_row, put_owned_row, invite_row,
}
use agent_scale.Database.Apply.{apply_row, apply_rows}
use agent_scale.Database.Load.{read_invite, active_provisioners}
use agent_scale.Database.Agreement.{
  client_id, edge_id, relay_id, provisioner_id, revocation_id, row_id, Stored, Holds, Stored-upsert,
  Stored-retain, Stored-forget_owner, upserted, deactivated, placeholder-Holds, read_state-text,
}
use agent_scale.Control.State.{ClientRecord, EdgeRecord, RelayRecord, RevocationRecord}

deactivate-id :
    (id : String) (row : ProvisionerRow) → (deactivate id row).endpoint_id ≡ row.endpoint_id
unfolding deactivate
deactivate-id id row = elim (Bool-cases (row.endpoint_id == id)) [
  | inl t ↦ rw t refl
  | inr t ↦ rw t refl
]

All-deactivate :
    (id k : String) (rows : List ProvisionerRow)
    → All (λ r. row_id r ≢ k) rows
    → All (λ r. row_id r ≢ k) (map (deactivate id) rows)
All-deactivate id k [] h = tt
All-deactivate id k (x ∷ xs) h =
    (λ e. h.0 (sym (deactivate-id id x) ∙ e), All-deactivate id k xs h.1)

deactivate-Distinct :
    (id : String) (rows : List ProvisionerRow)
    → Distinct row_id rows
    → Distinct row_id (map (deactivate id) rows)
deactivate-Distinct id [] d = tt
deactivate-Distinct id (x ∷ xs) d = (
  All-deactivate id (row_id (deactivate id x)) xs
      (All-map (λ y. row_id y ≢ row_id x) (λ y ne e. ne (e ∙ deactivate-id id x)) xs d.0),
  deactivate-Distinct id xs d.1,
)

module _ (to_json : Invite → String) (parse_invite : String → Option Invite) where
  abbrev Held : Database → ControlState → Type 0
  Held db s = Holds to_json parse_invite db s

  set_clients :
      {db : Database} {s : ControlState} {xs ys : List ClientRecord}
      → Same client_id xs ys
      → Distinct client_id xs
      → Held db s
      → Held (record db { clients = xs }) (record s { clients = ys })
  set_clients e d v = record {
    metadata = v.metadata;
    schema = v.schema;
    clients = e;
    edges = v.edges;
    relays = v.relays;
    invites = v.invites;
    provisioners = v.provisioners;
    revocations = v.revocations;
    keys = record {
      client_ids = d;
      edge_ids = v.keys.edge_ids;
      relay_ids = v.keys.relay_ids;
      row_ids = v.keys.row_ids;
      revocation_ids = v.keys.revocation_ids;
    };
  }

  set_edges :
      {db : Database} {s : ControlState} {xs ys : List EdgeRecord}
      → Same edge_id xs ys
      → Distinct edge_id xs
      → Held db s
      → Held (record db { edges = xs }) (record s { edges = ys })
  set_edges e d v = record {
    metadata = v.metadata;
    schema = v.schema;
    clients = v.clients;
    edges = e;
    relays = v.relays;
    invites = v.invites;
    provisioners = v.provisioners;
    revocations = v.revocations;
    keys = record {
      client_ids = v.keys.client_ids;
      edge_ids = d;
      relay_ids = v.keys.relay_ids;
      row_ids = v.keys.row_ids;
      revocation_ids = v.keys.revocation_ids;
    };
  }

  set_relays :
      {db : Database} {s : ControlState} {xs ys : List RelayRecord}
      → Same relay_id xs ys
      → Distinct relay_id xs
      → Held db s
      → Held (record db { relays = xs }) (record s { relays = ys })
  set_relays e d v = record {
    metadata = v.metadata;
    schema = v.schema;
    clients = v.clients;
    edges = v.edges;
    relays = e;
    invites = v.invites;
    provisioners = v.provisioners;
    revocations = v.revocations;
    keys = record {
      client_ids = v.keys.client_ids;
      edge_ids = v.keys.edge_ids;
      relay_ids = d;
      row_ids = v.keys.row_ids;
      revocation_ids = v.keys.revocation_ids;
    };
  }

  set_revocations :
      {db : Database} {s : ControlState} {xs ys : List RevocationRecord}
      → Same revocation_id xs ys
      → Distinct revocation_id xs
      → Held db s
      → Held (record db { relay_revocations = xs }) (record s { revocations = ys })
  set_revocations e d v = record {
    metadata = v.metadata;
    schema = v.schema;
    clients = v.clients;
    edges = v.edges;
    relays = v.relays;
    invites = v.invites;
    provisioners = v.provisioners;
    revocations = e;
    keys = record {
      client_ids = v.keys.client_ids;
      edge_ids = v.keys.edge_ids;
      relay_ids = v.keys.relay_ids;
      row_ids = v.keys.row_ids;
      revocation_ids = d;
    };
  }

  set_invites :
      {db : Database} {s : ControlState} {rows : List InviteRow} {items : List InviteRecord}
      → Stored to_json parse_invite rows items
      → Held db s
      → Held (record db { invitations = rows }) (record s { invites = items })
  set_invites e v = record {
    metadata = v.metadata;
    schema = v.schema;
    clients = v.clients;
    edges = v.edges;
    relays = v.relays;
    invites = e;
    provisioners = v.provisioners;
    revocations = v.revocations;
    keys = record {
      client_ids = v.keys.client_ids;
      edge_ids = v.keys.edge_ids;
      relay_ids = v.keys.relay_ids;
      row_ids = v.keys.row_ids;
      revocation_ids = v.keys.revocation_ids;
    };
  }

  set_provisioners :
      {db : Database} {s : ControlState} {rows : List ProvisionerRow} {xs : List ProvisionerRecord}
      → Same provisioner_id (active_provisioners rows) xs
      → Distinct row_id rows
      → Held db s
      → Held (record db { provisioners = rows }) (record s { provisioners = xs })
  set_provisioners e d v = record {
    metadata = v.metadata;
    schema = v.schema;
    clients = v.clients;
    edges = v.edges;
    relays = v.relays;
    invites = v.invites;
    provisioners = e;
    revocations = v.revocations;
    keys = record {
      client_ids = v.keys.client_ids;
      edge_ids = v.keys.edge_ids;
      relay_ids = v.keys.relay_ids;
      row_ids = d;
      revocation_ids = v.keys.revocation_ids;
    };
  }

  module _ (round_trip : (i : Invite) → parse_invite (to_json i) ≡ some i) where
    pub invite_row-read :
        (item : InviteRecord) (owner_id : Option String)
        → read_invite parse_invite (invite_row to_json item owner_id) ≡ ok item
    unfolding read_invite invite_row
    invite_row-read item owner_id =
        ok_or-some _ _ (round_trip item.invite)
        ∙ bind_ok _ (read_state-text to_json parse_invite item.state)

    invite_row-key :
        (item : InviteRecord) (owner_id : Option String)
        → (invite_row to_json item owner_id).invite_id ≡ invite_key item
    unfolding invite_row
    invite_row-key item owner_id = refl

    -- Each statement keeps the tables in step with the change in memory.
    apply_row-Holds :
        (relay_revision : ℕ) (c : StateChange) (db : Database) (s : ControlState)
        → Held db s
        → Ensures (λ db'. Held db' (apply_change c s)) (apply_row to_json relay_revision c db)
    unfolding apply_change apply_row put_client_row delete_client_row put_edge_row put_relay_row
        put_revocation_row put_provisioner_row put_invite_row put_owned_row
    apply_row-Holds rr (put_client r) db s v =
        let w = placeholder-Holds to_json parse_invite r.managed_by db s v in
        Ensures-bind _ _ λ _ _. Ensures-bind _ _ λ _ _. Ensures-bind _ _ λ _ _.
          Ensures-bind _ _ λ _ _. Ensures-bind _ _ λ _ _. Ensures-ok (
            set_clients (Same-upsert client_id _ _ r w.clients)
              (ids-upsert client_id r _ w.keys.client_ids) w)
    apply_row-Holds rr (delete_client id) db s v = Ensures-bind _ _ λ _ _. Ensures-ok (
        set_clients (Same-retain client_id _ _ id v.clients)
          (Distinct-retain client_id _ _ v.keys.client_ids)
          (set_invites (Stored-forget_owner to_json parse_invite id v.invites) v))
    apply_row-Holds rr (put_edge r) db s v = Ensures-bind _ _ λ _ _. Ensures-bind _ _ λ _ _.
        Ensures-bind _ _ λ _ _. Ensures-bind _ _ λ _ _. Ensures-bind _ _ λ _ _.
          Ensures-ok (
            set_edges (Same-upsert edge_id _ _ r v.edges) (ids-upsert edge_id r _ v.keys.edge_ids)
              v)
    apply_row-Holds rr (delete_edge id) db s v = Ensures-ok (
        set_edges (Same-retain edge_id _ _ id v.edges) (Distinct-retain edge_id _ _ v.keys.edge_ids)
          v)
    apply_row-Holds rr (put_relay r) db s v = Ensures-bind _ _ λ _ _. Ensures-bind _ _ λ _ _.
        Ensures-bind _ _ λ _ _. Ensures-ok (
          set_relays (Same-upsert relay_id _ _ r v.relays)
            (ids-upsert relay_id r _ v.keys.relay_ids) v)
    apply_row-Holds rr (delete_relay id) db s v = Ensures-ok (
        set_relays (Same-retain relay_id _ _ id v.relays)
          (Distinct-retain relay_id _ _ v.keys.relay_ids) v)
    apply_row-Holds rr (put_invite r) db s v =
        let w = placeholder-Holds to_json parse_invite r.managed_by db s v in
        Ensures-bind _ _ λ _ _. Ensures-bind _ _ λ _ _. Ensures-bind _ _ λ _ _.
          Ensures-bind _ _ λ _ _. Ensures-ok (
            set_invites
              (Stored-upsert to_json parse_invite _ _ _ r (invite_row-key r _) (invite_row-read r _)
                w.invites)
              w)
    apply_row-Holds rr (delete_invite id) db s v =
        Ensures-ok (set_invites (Stored-retain to_json parse_invite id v.invites) v)
    apply_row-Holds rr (put_provisioner r) db s v = Ensures-bind _ _ λ _ _. Ensures-ok (
        set_provisioners (λ k. upserted to_json parse_invite k r _ _ (v.provisioners k))
          (ids-upsert row_id _ _ v.keys.row_ids) v)
    apply_row-Holds rr (delete_provisioner id) db s v = Ensures-ok (
        set_provisioners (λ k. deactivated to_json parse_invite k id _ _ (v.provisioners k))
          (deactivate-Distinct id _ v.keys.row_ids) v)
    apply_row-Holds rr (put_revocation r) db s v = Ensures-bind _ _ λ _ _. Ensures-bind _ _ λ _ _.
        Ensures-bind _ _ λ _ _. Ensures-bind _ _ λ _ _. Ensures-bind _ _ λ _ _. Ensures-ok (
          set_revocations (Same-upsert revocation_id _ _ r v.revocations)
            (ids-upsert revocation_id r _ v.keys.revocation_ids) v)
    apply_row-Holds rr (delete_revocation id) db s v = Ensures-ok (
        set_revocations (Same-retain revocation_id _ _ id v.revocations)
          (Distinct-retain revocation_id _ _ v.keys.revocation_ids) v)

    pub apply_rows-Holds :
        (relay_revision : ℕ) (changes : List StateChange) (db : Database) (s : ControlState)
        → Held db s
        → Ensures
            (λ db'. Held db' (apply_changes changes s))
            (apply_rows to_json relay_revision changes db)
    unfolding apply_rows apply_changes
    apply_rows-Holds rr [] db s v = Ensures-ok v
    apply_rows-Holds rr (c ∷ cs) db s v =
        Ensures-then _ _ (apply_row-Holds rr c db s v)
          λ db' w. apply_rows-Holds rr cs db' (apply_change c s) w
