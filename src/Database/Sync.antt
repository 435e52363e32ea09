-- ===== src/Database/Sync.antt =====
-- The transaction that writes the difference of two states (crates/as-control/src/db.rs, apply_sync).
use agent_scale.Base.{
  ℕ, String, Bool, true, false, not, ◌&&◌, ◌||◌, ◌==◌, eqb, leb, ltb, Option, none, some, List, [],
  ◌∷◌, ◌++◌, map, any, find, retain, saturating_add, Result, ok, err, ensure, ok_or, ◌>>=◌, ◌>>◌,
  if◌then◌else◌,
}
use agent_scale.Control.Wire.{Invite, InviteKind, edge, invite_eq}
use agent_scale.Control.State.{
  ControlState, ClientRecord, EdgeRecord, RelayRecord, RevocationRecord, ProvisionerRecord,
  InviteRecord, InviteState, pending, claimed, revoked, invite_key, StateChange, delete_client,
  delete_edge, delete_relay, delete_invite, delete_provisioner, delete_revocation,
}
use agent_scale.Control.Claim.{port_eq}
use agent_scale.Database.Tables.{Metadata, Database, prune_provisioners}
use agent_scale.Database.Statements.{
  check_i64, ensure_provisioner_placeholder, put_client_row, put_edge_row, put_relay_row,
  put_revocation_row, put_provisioner_row, put_owned_row,
}
use agent_scale.Database.Apply.{apply_rows, commit_transaction}

-- The derived `PartialEq` of the records.
abbrev pub text_eq : Option String → Option String → Bool
text_eq none none = true
text_eq none (some b) = false
text_eq (some a) none = false
text_eq (some a) (some b) = a == b

unfoldable pub client_eq : ClientRecord → ClientRecord → Bool
client_eq a b =
    (a.name == b.name)
    && ((a.endpoint_id == b.endpoint_id)
        && (text_eq a.managed_by b.managed_by
            && (eqb a.credential_generation b.credential_generation
                && (eqb a.credential_issued_at b.credential_issued_at
                    && eqb a.credential_expires_at b.credential_expires_at))))

unfoldable pub edge_eq : EdgeRecord → EdgeRecord → Bool
edge_eq a b =
    (a.name == b.name)
    && ((a.endpoint_id == b.endpoint_id)
        && ((a.owner_id == b.owner_id)
            && (eqb a.credential_generation b.credential_generation
                && (eqb a.credential_issued_at b.credential_issued_at
                    && eqb a.credential_expires_at b.credential_expires_at))))

unfoldable pub relay_eq : RelayRecord → RelayRecord → Bool
relay_eq a b =
    (a.name == b.name)
    && ((a.endpoint_id == b.endpoint_id) && ((a.url == b.url) && port_eq a.qad_port b.qad_port))

unfoldable pub revocation_record_eq : RevocationRecord → RevocationRecord → Bool
revocation_record_eq a b =
    (a.endpoint_id == b.endpoint_id)
    && (eqb a.revoked_through_generation b.revoked_through_generation
        && (eqb a.expires_at b.expires_at && eqb a.revision b.revision))

unfoldable pub provisioner_eq : ProvisionerRecord → ProvisionerRecord → Bool
provisioner_eq a b = (a.name == b.name) && (a.endpoint_id == b.endpoint_id)

abbrev pub state_eq : InviteState → InviteState → Bool
state_eq pending pending = true
state_eq claimed claimed = true
state_eq revoked revoked = true
state_eq a b = false

unfoldable pub invite_record_eq : InviteRecord → InviteRecord → Bool
invite_record_eq a b =
    invite_eq a.invite b.invite
    && (state_eq a.state b.state
        && (text_eq a.claimed_by b.claimed_by
            && (text_eq a.request_id b.request_id
                && (text_eq a.managed_by b.managed_by
                    && (text_eq a.request_hash b.request_hash
                        && port_eq a.terminal_at b.terminal_at)))))

abbrev pub equals : {A : Type 0} → (A → A → Bool) → Option A → A → Bool
equals eq none x = false
equals eq (some y) x = eq y x

-- The keys of the previous records that the next ones lack; and the next records that are new or
-- not as they were. Keys are once in a table, so that its `HashMap` is a lookup.
unfoldable pub removed : {A : Type 0} → (A → String) → List A → List A → List String
removed key previous next = retain (λ k. not (any (λ y. key y == k) next)) (map key previous)

unfoldable pub changed : {A : Type 0} → (A → String) → (A → A → Bool) → List A → List A → List A
changed key eq previous next =
    retain (λ x. not (equals eq (find (λ y. key y == key x) previous) x)) next

unfoldable pub put_each :
    {A : Type 0}
    → (A → Database → Result String Database)
    → List A
    → Database
    → Result String Database
put_each put [] db = ok db
put_each put (x ∷ xs) db = do db' ← put x db; put_each put xs db'

unfoldable pub placeholders : List (Option String) → Database → Database
placeholders [] db = db
placeholders (m ∷ ms) db = placeholders ms (ensure_provisioner_placeholder m db)

abbrev pub all_published : ℕ → List RevocationRecord → Bool
all_published bound [] = true
all_published bound (r ∷ rs) = leb r.revision bound && all_published bound rs

-- The owner's column, if the owner is registered in the next state.
abbrev pub owner_column : ControlState → InviteKind → Option String
owner_column next (edge owner) =
    if any (λ (c : ClientRecord). c.endpoint_id == owner) next.clients then some owner else none
owner_column next _ = none

-- The keys that are deleted, in the order of the statements; that of a `HashMap`'s keys is arbitrary.
unfoldable pub deletions : ControlState → ControlState → List StateChange
deletions previous next =
    map delete_invite (removed invite_key previous.invites next.invites)
    ++ (map delete_edge (removed (λ (e : EdgeRecord). e.endpoint_id) previous.edges next.edges)
        ++ (map delete_client
              (removed (λ (c : ClientRecord). c.endpoint_id) previous.clients next.clients)
            ++ (map delete_relay
                  (removed (λ (r : RelayRecord). r.endpoint_id) previous.relays next.relays)
                ++ map delete_revocation (
                    removed (λ (r : RevocationRecord). r.endpoint_id) previous.revocations
                      next.revocations))))

-- `UPDATE metadata SET` all columns, if the revisions are those of the previous state.
unfoldable pub replace_metadata :
    ControlState → ControlState → Option Metadata → Result String (Option Metadata)
replace_metadata previous next none = err "durable Control revision changed while applying mutation"
replace_metadata previous next (some row) = do
  ensure (eqb row.revision previous.revision && eqb row.relay_revision previous.relay_revision)
      "durable Control revision changed while applying mutation"
  ensure (ltb 0 next.relay_revision) "CHECK constraint failed"
  ok (
      some (record {
        schema_version = next.schema;
        audience = next.audience;
        public_url = next.public_url;
        relay_ca_der = next.relay_ca_der;
        revision = next.revision;
        relay_revision = next.relay_revision;
      }))

module _ (to_json : Invite → String) (fault : Database → Option String) where
  -- The records that are new or changed, table by table.
  unfoldable pub put_changed : ControlState → ControlState → Database → Result String Database
  put_changed previous next db = do
    p ←
        put_each put_provisioner_row
          (changed (λ (r : ProvisionerRecord). r.endpoint_id) provisioner_eq previous.provisioners
            next.provisioners)
          db
    c ←
        put_each put_client_row
          (changed (λ (r : ClientRecord). r.endpoint_id) client_eq previous.clients next.clients) p
    e ←
        put_each put_edge_row
          (changed (λ (r : EdgeRecord). r.endpoint_id) edge_eq previous.edges next.edges) c
    r ←
        put_each put_relay_row
          (changed (λ (r : RelayRecord). r.endpoint_id) relay_eq previous.relays next.relays) e
    v ←
        put_each (put_revocation_row next.relay_revision)
          (changed (λ (r : RevocationRecord). r.endpoint_id) revocation_record_eq
            previous.revocations next.revocations)
          r
    put_each (λ item. put_owned_row to_json item (owner_column next item.invite.kind))
        (changed invite_key invite_record_eq previous.invites next.invites) v

  -- An error leaves the tables as they were: the transaction is rolled back.
  unfoldable pub apply_sync : Database → ControlState → ControlState → Result String Database
  unfolding put_changed
  apply_sync db previous next = do
    stored ← ok_or db.metadata "Query returned no rows"
    ensure
        (eqb stored.revision previous.revision && eqb stored.relay_revision previous.relay_revision)
        "durable Control state changed while applying mutation"
    ensure
        (eqb next.revision previous.revision
          || eqb next.revision (saturating_add previous.revision 1))
        "control revision must remain unchanged or advance atomically by one"
    ensure
        (eqb next.relay_revision previous.relay_revision
          || eqb next.relay_revision (saturating_add previous.relay_revision 1))
        "Relay revision must remain unchanged or advance atomically by one"
    ensure (all_published next.relay_revision next.revocations)
        "revocation record is ahead of the Relay revision"
    deleted ← apply_rows to_json next.relay_revision (deletions previous next) db
    put ← put_changed previous next (
        placeholders
          (map (λ (c : ClientRecord). c.managed_by) next.clients
            ++ map (λ (i : InviteRecord). i.managed_by) next.invites)
          deleted)
    retired ←
        apply_rows to_json next.relay_revision
          (map delete_provisioner (
            removed (λ (r : ProvisionerRecord). r.endpoint_id) previous.provisioners
              next.provisioners))
          put
    let pruned = prune_provisioners retired
    check_i64 next.revision "control revision exceeds SQLite range"
    check_i64 next.relay_revision "Relay revision exceeds SQLite range"
    check_i64 previous.revision "control revision exceeds SQLite range"
    check_i64 previous.relay_revision "Relay revision exceeds SQLite range"
    metadata ← replace_metadata previous next pruned.metadata
    let written = record pruned { metadata = metadata }
    commit_transaction (fault written) written
