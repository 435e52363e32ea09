-- ===== src/Database/Statements.antt =====
-- The statements of a transaction with the constraints that SQLite checks after each of them
-- (crates/as-control/src/db.rs, apply_delta_sync; crates/as-control/src/schema.sql).
use agent_scale.Base.{
  ℕ, String, Bool, true, false, not, ◌&&◌, ◌==◌, ◌<>◌, ltb, leb, is_some, Option, none, some, map,
  any, retain, upsert_record, holds, xor, Result, ok, ensure, ◌>>◌, if◌then◌else◌,
}
use agent_scale.Control.Wire.{Invite, InviteKind, client, edge, relay}
use agent_scale.Control.State.{
  ClientRecord, EdgeRecord, RelayRecord, RevocationRecord, ProvisionerRecord, InviteRecord,
  InviteState, pending, claimed, revoked,
}
use agent_scale.Database.Tables.{ProvisionerRow, InviteRow, Database, i64_max, refers, taken}

-- `i64::try_from`.
unfoldable pub check_i64 : ℕ → String → Result String Unit
check_i64 n context = ensure (leb n i64_max) context

-- `ensure_provisioner_placeholder`, for the manager of a record if it has one.
unfoldable pub ensure_provisioner_placeholder : Option String → Database → Database
ensure_provisioner_placeholder none db = db
ensure_provisioner_placeholder (some id) db =
    if any (λ (r : ProvisionerRow). r.endpoint_id == id) db.provisioners then db else record db {
      provisioners =
          upsert_record db.provisioners
            (record { endpoint_id = id; name = "deleted:" <> id; active = false })
            (λ item key. item.endpoint_id == key.endpoint_id);
    }

unfoldable pub put_client_row : ClientRecord → Database → Result String Database
put_client_row item db = do
  check_i64 item.credential_generation "Client credential generation exceeds SQLite range"
  ensure (ltb 0 item.credential_generation) "CHECK constraint failed"
  ensure (ltb item.credential_issued_at item.credential_expires_at) "CHECK constraint failed"
  ensure
      (not (
        taken (λ (c : ClientRecord). c.endpoint_id) item.endpoint_id (λ c. c.name == item.name)
          db.clients))
      "UNIQUE constraint failed"
  ensure (refers item.managed_by (λ (r : ProvisionerRow). r.endpoint_id) db.provisioners)
      "FOREIGN KEY constraint failed"
  ok (record db {
    clients = upsert_record db.clients item (λ item' key. item'.endpoint_id == key.endpoint_id);
  })

-- `ON DELETE SET NULL` of `invitations.owner_id`.
unfoldable pub forget_owner : String → InviteRow → InviteRow
forget_owner id row = if holds row.owner_id id then record row { owner_id = none } else row

-- Edges restrict the deletion of their owner.
unfoldable pub delete_client_row : String → Database → Result String Database
delete_client_row id db = do
  ensure
      (not (
        any (λ (e : EdgeRecord). e.owner_id == id) db.edges
        && any (λ (c : ClientRecord). c.endpoint_id == id) db.clients))
      "FOREIGN KEY constraint failed"
  ok (record db {
    clients = retain (λ item. not (item.endpoint_id == id)) db.clients;
    invitations = map (forget_owner id) db.invitations;
  })

unfoldable pub put_edge_row : EdgeRecord → Database → Result String Database
put_edge_row item db = do
  check_i64 item.credential_generation "Edge credential generation exceeds SQLite range"
  ensure (ltb 0 item.credential_generation) "CHECK constraint failed"
  ensure (ltb item.credential_issued_at item.credential_expires_at) "CHECK constraint failed"
  ensure
      (not (
        taken (λ (e : EdgeRecord). e.endpoint_id) item.endpoint_id
          (λ e. (e.owner_id == item.owner_id) && (e.name == item.name)) db.edges))
      "UNIQUE constraint failed"
  ensure (any (λ (c : ClientRecord). c.endpoint_id == item.owner_id) db.clients)
      "FOREIGN KEY constraint failed"
  ok (record db {
    edges = upsert_record db.edges item (λ item' key. item'.endpoint_id == key.endpoint_id);
  })

-- `qad_port BETWEEN 1 AND 65535`, which holds of null.
abbrev pub port_in_range : Option ℕ → Bool
port_in_range none = true
port_in_range (some port) = ltb 0 port && leb port 65535

unfoldable pub put_relay_row : RelayRecord → Database → Result String Database
put_relay_row item db = do
  ensure (port_in_range item.qad_port) "CHECK constraint failed"
  ensure
      (not (
        taken (λ (r : RelayRecord). r.endpoint_id) item.endpoint_id (λ r. r.name == item.name)
          db.relays))
      "UNIQUE constraint failed"
  ensure
      (not (
        taken (λ (r : RelayRecord). r.endpoint_id) item.endpoint_id (λ r. r.url == item.url)
          db.relays))
      "UNIQUE constraint failed"
  ok (record db {
    relays = upsert_record db.relays item (λ item' key. item'.endpoint_id == key.endpoint_id);
  })

unfoldable pub put_revocation_row : ℕ → RevocationRecord → Database → Result String Database
put_revocation_row relay_revision item db = do
  ensure (leb item.revision relay_revision) "revocation record is ahead of Relay revision"
  check_i64 item.revoked_through_generation "revoked credential generation exceeds SQLite range"
  check_i64 item.revision "revocation revision exceeds SQLite range"
  ensure (ltb 0 item.revoked_through_generation) "CHECK constraint failed"
  ensure (ltb 0 item.revision) "CHECK constraint failed"
  ok (record db {
    relay_revocations =
        upsert_record db.relay_revocations item (λ item' key. item'.endpoint_id == key.endpoint_id);
  })

unfoldable pub put_provisioner_row : ProvisionerRecord → Database → Result String Database
put_provisioner_row item db = do
  ensure
      (not (
        taken (λ (r : ProvisionerRow). r.endpoint_id) item.endpoint_id
          (λ r. r.active && (r.name == item.name)) db.provisioners))
      "UNIQUE constraint failed"
  ok (record db {
    provisioners =
        upsert_record db.provisioners
          (record { endpoint_id = item.endpoint_id; name = item.name; active = true })
          (λ item' key. item'.endpoint_id == key.endpoint_id);
  })

unfoldable pub deactivate : String → ProvisionerRow → ProvisionerRow
deactivate id row = if row.endpoint_id == id then record row { active = false } else row

abbrev pub kind_text : InviteKind → String
kind_text client = "client"
kind_text (edge owner_id) = "edge"
kind_text (relay url) = "relay"

-- The owner's column of an edge's invitation.
abbrev pub kind_owner : InviteKind → Option String
kind_owner client = none
kind_owner (edge owner_id) = some owner_id
kind_owner (relay url) = none

abbrev pub state_text : InviteState → String
state_text pending = "pending"
state_text claimed = "claimed"
state_text revoked = "revoked"

abbrev is_pending : InviteState → Bool
is_pending pending = true
is_pending state = false

-- Whether a row uses a request identifier, which is unique where it is not null.
abbrev same_request : Option String → InviteRow → Bool
same_request none row = false
same_request (some request) row = holds row.request_id request

module _ (to_json : Invite → String) where
  unfoldable pub invite_row : InviteRecord → Option String → InviteRow
  invite_row item owner_id = record {
    invite_id = item.invite.invite_id;
    name = item.invite.name;
    kind = kind_text item.invite.kind;
    owner_id = owner_id;
    invite_json = to_json item.invite;
    expires_at = item.invite.expires_at;
    state = state_text item.state;
    claimed_by = item.claimed_by;
    request_id = item.request_id;
    managed_by = item.managed_by;
    request_hash = item.request_hash;
    terminal_at = item.terminal_at;
  }

  -- The checks on the kind and the state hold of every row that is written, but for the last: an
  -- invitation has a time of its end exactly when it is not pending.
  unfoldable pub put_owned_row : InviteRecord → Option String → Database → Result String Database
  put_owned_row item owner_id db = do
    ensure (xor (is_pending item.state) (is_some item.terminal_at)) "CHECK constraint failed"
    ensure
        (not (
          taken (λ (r : InviteRow). r.invite_id) item.invite.invite_id
            (same_request item.request_id) db.invitations))
        "UNIQUE constraint failed"
    ensure (refers owner_id (λ (c : ClientRecord). c.endpoint_id) db.clients)
        "FOREIGN KEY constraint failed"
    ensure (refers item.managed_by (λ (r : ProvisionerRow). r.endpoint_id) db.provisioners)
        "FOREIGN KEY constraint failed"
    ok (record db {
      invitations =
          upsert_record db.invitations (invite_row item owner_id)
            (λ item' key. item'.invite_id == key.invite_id);
    })

  unfoldable pub put_invite_row : InviteRecord → Database → Result String Database
  unfolding put_owned_row
  put_invite_row item db = put_owned_row item (kind_owner item.invite.kind) db
