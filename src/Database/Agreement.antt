-- ===== src/Database/Agreement.antt =====
-- When the tables hold a state, and that each statement keeps it (crates/as-control/src/db.rs,
-- apply_delta_sync; crates/as-control/src/main.rs, StateDelta::apply).
use agent_scale.Invariant.Changes.{ids-upsert}
use agent_scale.Base.Same.{Same}
use agent_scale.Base.{
  Distinct-retain, Distinct, String, true, not, ◌==◌, ◌≡◌, refl, sym, ap, ◌∙◌, Bool-cases, inl, inr,
  Option, none, some, List, [], ◌∷◌, map, any, find, retain, holds, upsert_record,
  find-upsert_record, find-upsert_record_other, find-retain_deleted, find-retain_other, eq_of_==,
  ne_of_==, subst, ok,
}
use agent_scale.Control.Wire.{Invite}
use agent_scale.Control.State.{
  state_schema, RevocationRecord, RelayRecord, EdgeRecord, ClientRecord, ControlState, InviteRecord,
  ProvisionerRecord, invite_key, pending, claimed, revoked, InviteState,
}
use agent_scale.Database.Tables.{Metadata, ProvisionerRow, InviteRow, Database, prune_provisioners}
use agent_scale.Database.Statements.{
  ensure_provisioner_placeholder, deactivate, forget_owner, state_text,
}
use agent_scale.Database.Load.{read_invite, read_state, active_provisioners}
use agent_scale.Database.Provisioners.{
  active_with, active-placeholder, active_with-put, active_with-put_other, active_with-deactivate,
  active_with-deactivate_other, active-retain,
}

abbrev pub client_id : ClientRecord → String
client_id r = r.endpoint_id

abbrev pub edge_id : EdgeRecord → String
edge_id r = r.endpoint_id

abbrev pub relay_id : RelayRecord → String
relay_id r = r.endpoint_id

abbrev pub provisioner_id : ProvisionerRecord → String
provisioner_id r = r.endpoint_id

abbrev pub revocation_id : RevocationRecord → String
revocation_id r = r.endpoint_id

abbrev pub row_id : ProvisionerRow → String
row_id r = r.endpoint_id

-- The primary keys of the tables.
pub record Keys (db : Database) : Type 0 where
  pub client_ids : Distinct client_id db.clients
  pub edge_ids : Distinct edge_id db.edges
  pub relay_ids : Distinct relay_id db.relays
  pub row_ids : Distinct row_id db.provisioners
  pub revocation_ids : Distinct revocation_id db.relay_revocations

-- The row of `metadata` for a state.
abbrev pub metadata_of : ControlState → Metadata
metadata_of s = record {
  schema_version = s.schema;
  audience = s.audience;
  public_url = s.public_url;
  relay_ca_der = s.relay_ca_der;
  revision = s.revision;
  relay_revision = s.relay_revision;
}

abbrev pub find_record : String → List ProvisionerRecord → Option ProvisionerRecord
find_record k xs = find (λ x. x.endpoint_id == k) xs

abbrev pub active_row : ProvisionerRecord → ProvisionerRow
active_row r = record { endpoint_id = r.endpoint_id; name = r.name; active = true }

module _ (to_json : Invite → String) (parse_invite : String → Option Invite) where
  -- The rows of the invitations, in order: each has its record's key and is read as the record.
  pub data Stored : List InviteRow → List InviteRecord → Type 0 where
    nothing : Stored [] []
    row_of :
        {row : InviteRow} {item : InviteRecord} {rows : List InviteRow} {items : List InviteRecord}
        → row.invite_id ≡ invite_key item
        → read_invite parse_invite row ≡ ok item
        → Stored rows items
        → Stored (row ∷ rows) (item ∷ items)

  -- The tables hold the records of a state: the schedulers' without their order, and without those
  -- that are kept for the records that name them.
  pub record Holds (db : Database) (s : ControlState) : Type 0 where
    pub metadata : db.metadata ≡ some (metadata_of s)
    pub schema : s.schema ≡ state_schema
    pub clients : Same client_id db.clients s.clients
    pub edges : Same edge_id db.edges s.edges
    pub relays : Same relay_id db.relays s.relays
    pub invites : Stored db.invitations s.invites
    pub provisioners : Same provisioner_id (active_provisioners db.provisioners) s.provisioners
    pub revocations : Same revocation_id db.relay_revocations s.revocations
    pub keys : Keys db

  same_test : {a b c d : String} → a ≡ c → b ≡ d → (a == b) ≡ (c == d)
  same_test e f = λ i. e i == f i

  pub Stored-upsert :
      (rows : List InviteRow) (items : List InviteRecord) (row : InviteRow) (item : InviteRecord)
      → row.invite_id ≡ invite_key item
      → read_invite parse_invite row ≡ ok item
      → Stored rows items
      → Stored
          (upsert_record rows row (λ item' key. item'.invite_id == key.invite_id))
          (upsert_record items item (λ item' key. invite_key item' == invite_key key))
  unfolding upsert_record
  Stored-upsert rows items row item k e nothing = row_of k e nothing
  Stored-upsert rows items row item k e
        (row_of {row = r} {item = i} {rows = rs} {items = is} k' e' rest) =
      elim (Bool-cases (invite_key i == invite_key item)) [
        | inl t ↦ rw (same_test k' k ∙ t, t) (row_of k e rest)
        | inr t ↦ rw (same_test k' k ∙ t, t) (row_of k' e' (Stored-upsert rs is row item k e rest))
      ]

  pub Stored-retain :
      (id : String) {rows : List InviteRow} {items : List InviteRecord}
      → Stored rows items
      → Stored
          (retain (λ (r : InviteRow). not (r.invite_id == id)) rows)
          (retain (λ i. not (invite_key i == id)) items)
  unfolding retain
  Stored-retain id nothing = nothing
  Stored-retain id (row_of {row = r} {item = i} {rows = rs} {items = is} k e rest) =
      elim (Bool-cases (invite_key i == id)) [
        | inl t ↦ rw (same_test k refl ∙ t, t) (Stored-retain id rest)
        | inr t ↦ rw (same_test k refl ∙ t, t) (row_of k e (Stored-retain id rest))
      ]

  forget_owner-read :
      (id : String) (row : InviteRow)
      → ((forget_owner id row).invite_id ≡ row.invite_id)
        × (read_invite parse_invite (forget_owner id row) ≡ read_invite parse_invite row)
  unfolding forget_owner read_invite
  forget_owner-read id row = elim (Bool-cases (holds row.owner_id id)) [
    | inl t ↦ rw t (refl, refl)
    | inr t ↦ rw t (refl, refl)
  ]

  pub Stored-forget_owner :
      (id : String) {rows : List InviteRow} {items : List InviteRecord}
      → Stored rows items
      → Stored (map (forget_owner id) rows) items
  Stored-forget_owner id nothing = nothing
  Stored-forget_owner id (row_of {row = r} k e rest) =
      let q = forget_owner-read id r in row_of (q.0 ∙ k) (q.1 ∙ e) (Stored-forget_owner id rest)

  pub upserted :
      (k : String) (r : ProvisionerRecord) (rows : List ProvisionerRow)
      (xs : List ProvisionerRecord)
      → active_with k rows ≡ find_record k xs
      → active_with k
          (upsert_record rows (active_row r) (λ item key. item.endpoint_id == key.endpoint_id))
        ≡ find_record k (upsert_record xs r (λ item key. item.endpoint_id == key.endpoint_id))
  upserted k r rows xs e = elim (Bool-cases (r.endpoint_id == k)) [
    | inl t ↦
        subst
          (λ k'.
            active_with k'
              (upsert_record rows (active_row r) (λ item key. item.endpoint_id == key.endpoint_id))
            ≡ find_record k' (upsert_record xs r (λ item key. item.endpoint_id == key.endpoint_id)))
          (eq_of_== _ _ t)
          (active_with-put rows (active_row r) refl
            ∙ sym (find-upsert_record (λ (x : ProvisionerRecord). x.endpoint_id) xs r))
    | inr t ↦
        let ne = ne_of_== _ _ t in
        active_with-put_other k rows _ ne
        ∙ e
        ∙ sym (find-upsert_record_other (λ (x : ProvisionerRecord). x.endpoint_id) xs r k ne)
  ]

  pub deactivated :
      (k id : String) (rows : List ProvisionerRow) (xs : List ProvisionerRecord)
      → active_with k rows ≡ find_record k xs
      → active_with k (map (deactivate id) rows)
        ≡ find_record k (retain (λ (x : ProvisionerRecord). not (x.endpoint_id == id)) xs)
  deactivated k id rows xs e = elim (Bool-cases (id == k)) [
    | inl t ↦
        subst
          (λ k'.
            active_with k' (map (deactivate id) rows)
            ≡ find_record k' (retain (λ (x : ProvisionerRecord). not (x.endpoint_id == id)) xs))
          (eq_of_== _ _ t)
          (active_with-deactivate id rows
            ∙ sym (find-retain_deleted (λ (x : ProvisionerRecord). x.endpoint_id) xs id))
    | inr t ↦
        let ne = ne_of_== _ _ t in
        active_with-deactivate_other k id rows ne
        ∙ e
        ∙ sym (find-retain_other (λ (x : ProvisionerRecord). x.endpoint_id) xs id k ne)
  ]

  same_active-Holds :
      (rows : List ProvisionerRow) (db : Database) (s : ControlState)
      → active_provisioners rows ≡ active_provisioners db.provisioners
      → Distinct row_id rows
      → Holds db s
      → Holds (record db { provisioners = rows }) s
  same_active-Holds rows db s e d v = record {
    metadata = v.metadata;
    schema = v.schema;
    clients = v.clients;
    edges = v.edges;
    relays = v.relays;
    invites = v.invites;
    provisioners = λ k. ap (find_record k) e ∙ v.provisioners k;
    revocations = v.revocations;
    keys = record {
      client_ids = v.keys.client_ids;
      edge_ids = v.keys.edge_ids;
      relay_ids = v.keys.relay_ids;
      row_ids = d;
      revocation_ids = v.keys.revocation_ids;
    };
  }

  -- The placeholder of a manager, and the rows that nothing refers to, are no records.
  pub placeholder-Holds :
      (m : Option String) (db : Database) (s : ControlState)
      → Holds db s
      → Holds (ensure_provisioner_placeholder m db) s
  unfolding ensure_provisioner_placeholder
  placeholder-Holds none db s v = v
  placeholder-Holds (some id) db s v =
      elim (Bool-cases (any (λ (r : ProvisionerRow). r.endpoint_id == id) db.provisioners)) [
        | inl t ↦ rw t v
        | inr t ↦ rw t (
            same_active-Holds _ db s (active-placeholder db.provisioners _ refl t)
              (ids-upsert row_id _ db.provisioners v.keys.row_ids) v)
      ]

  pub prune-Holds :
      (db : Database) (s : ControlState) → Holds db s → Holds (prune_provisioners db) s
  unfolding prune_provisioners
  prune-Holds db s v =
      same_active-Holds _ db s (active-retain _ db.provisioners)
        (Distinct-retain row_id _ db.provisioners v.keys.row_ids) v

  pub read_state-text : (i : InviteState) → read_state (state_text i) ≡ ok i
  unfolding read_state ◌==◌
  read_state-text pending = refl
  read_state-text claimed = refl
  read_state-text revoked = refl
