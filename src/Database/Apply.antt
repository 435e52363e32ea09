-- ===== src/Database/Apply.antt =====
-- The transaction of a delta (crates/as-control/src/db.rs, apply_delta_sync). What SQLite or the
-- disk refuses beyond the constraints is a parameter, `fault`, of the tables to be written.
use agent_scale.Base.{
  ℕ, String, not, ◌&&◌, ◌||◌, ◌==◌, eqb, ltb, Option, none, some, List, [], ◌∷◌, map, retain,
  saturating_add, Result, ok, err, ensure, ◌>>=◌, ◌>>◌,
}
use agent_scale.Control.Wire.{Invite}
use agent_scale.Control.Commit.{ApplyDelta}
use agent_scale.Control.State.{
  StateChange, put_client, delete_client, put_edge, delete_edge, put_relay, delete_relay,
  put_invite, delete_invite, put_provisioner, delete_provisioner, put_revocation, delete_revocation,
}
use agent_scale.Database.Tables.{Metadata, Database, prune_provisioners}
use agent_scale.Database.Statements.{
  check_i64, ensure_provisioner_placeholder, put_client_row, delete_client_row, put_edge_row,
  put_relay_row, put_revocation_row, put_provisioner_row, deactivate, put_invite_row,
}

-- `UPDATE metadata SET ... WHERE revision = expected AND relay_revision = expected`.
unfoldable pub update_metadata : ℕ → ℕ → ℕ → ℕ → Option Metadata → Result String (Option Metadata)
update_metadata expected_revision expected_relay_revision revision relay_revision none =
    err "durable Control revision changed while applying mutation"
update_metadata expected_revision expected_relay_revision revision relay_revision (some row) = do
  ensure (eqb row.revision expected_revision && eqb row.relay_revision expected_relay_revision)
      "durable Control revision changed while applying mutation"
  ensure (ltb 0 relay_revision) "CHECK constraint failed"
  ok (some (record row { revision = revision; relay_revision = relay_revision }))

unfoldable pub commit_transaction : Option String → Database → Result String Database
commit_transaction none db = ok db
commit_transaction (some error) db = err error

module _ (to_json : Invite → String) where
  unfoldable pub apply_row : ℕ → StateChange → Database → Result String Database
  apply_row relay_revision (put_client item) db =
      put_client_row item (ensure_provisioner_placeholder item.managed_by db)
  apply_row relay_revision (delete_client id) db = delete_client_row id db
  apply_row relay_revision (put_edge item) db = put_edge_row item db
  apply_row relay_revision (delete_edge id) db =
      ok (record db { edges = retain (λ item. not (item.endpoint_id == id)) db.edges })
  apply_row relay_revision (put_relay item) db = put_relay_row item db
  apply_row relay_revision (delete_relay id) db =
      ok (record db { relays = retain (λ item. not (item.endpoint_id == id)) db.relays })
  apply_row relay_revision (put_invite item) db =
      put_invite_row to_json item (ensure_provisioner_placeholder item.managed_by db)
  apply_row relay_revision (delete_invite id) db =
      ok (record db { invitations = retain (λ item. not (item.invite_id == id)) db.invitations })
  apply_row relay_revision (put_provisioner item) db = put_provisioner_row item db
  apply_row relay_revision (delete_provisioner id) db =
      ok (record db { provisioners = map (deactivate id) db.provisioners })
  apply_row relay_revision (put_revocation item) db = put_revocation_row relay_revision item db
  apply_row relay_revision (delete_revocation id) db = ok (record db {
    relay_revocations = retain (λ item. not (item.endpoint_id == id)) db.relay_revocations;
  })

  unfoldable pub apply_rows : ℕ → List StateChange → Database → Result String Database
  unfolding apply_row
  apply_rows relay_revision [] db = ok db
  apply_rows relay_revision (change ∷ changes) db = do
    db' ← apply_row relay_revision change db
    apply_rows relay_revision changes db'

  -- An error leaves the tables as they were: the transaction is rolled back.
  unfoldable pub apply_delta_sync : (Database → Option String) → ApplyDelta Database
  unfolding apply_rows
  apply_delta_sync fault db expected_revision expected_relay_revision revision relay_revision
        delta =
      do
        ensure (eqb revision expected_revision || eqb revision (saturating_add expected_revision 1))
            "control revision must remain unchanged or advance atomically by one"
        ensure
            (eqb relay_revision expected_relay_revision
              || eqb relay_revision (saturating_add expected_relay_revision 1))
            "Relay revision must remain unchanged or advance atomically by one"
        changed ← apply_rows relay_revision delta.changes db
        let pruned = prune_provisioners changed
        check_i64 revision "control revision exceeds SQLite range"
        check_i64 relay_revision "Relay revision exceeds SQLite range"
        check_i64 expected_revision "control revision exceeds SQLite range"
        check_i64 expected_relay_revision "Relay revision exceeds SQLite range"
        metadata ←
            update_metadata expected_revision expected_relay_revision revision relay_revision
              pruned.metadata
        let written = record pruned { metadata = metadata }
        commit_transaction (fault written) written
