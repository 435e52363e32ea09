-- ===== src/Database/Durable.antt =====
-- The database behind Control's runs (crates/as-control/src/db.rs, apply_delta_sync and load;
-- crates/as-control/src/main.rs, commit_delta).
use mathlib.Core.Path.{subst}
use agent_scale.Base.{
  ℕ, String, ◌≡◌, refl, sym, inl, inr, Option, none, some, Ensures, Ensures-ok, Ensures-err,
  Ensures-bind, Ensures-then,
}
use agent_scale.Control.Wire.{Invite}
use agent_scale.Control.Platform.{Platform}
use agent_scale.Control.State.{ControlState, StateDelta, apply, apply_changes}
use agent_scale.Control.Commit.{Store, advance}
use agent_scale.Invariant.Tables.{WellFormed}
use agent_scale.Invariant.Sections.{Settled}
use agent_scale.Invariant.Reach.{Run, stop, then_step, Step-Settled, run-WellFormed}
use agent_scale.Database.Tables.{Metadata, Database, prune_provisioners}
use agent_scale.Database.Apply.{update_metadata, commit_transaction, apply_delta_sync}
use agent_scale.Database.Agreement.{Holds, metadata_of, prune-Holds}
use agent_scale.Database.Changes.{apply_rows-Holds}

module _ (to_json : Invite → String) (parse_invite : String → Option Invite)
    (fault : Database → Option String)
    (round_trip : (i : Invite) → parse_invite (to_json i) ≡ some i) where
  pub commit_transaction-same :
      (error : Option String) (db : Database)
      → Ensures (λ db'. db' ≡ db) (commit_transaction error db)
  unfolding commit_transaction
  commit_transaction-same none db = Ensures-ok refl
  commit_transaction-same (some e) db = Ensures-err e

  update_metadata-row :
      (er err' r rr : ℕ) (m : Option Metadata) (row : Metadata)
      → m ≡ some row
      → Ensures
          (λ m'. m' ≡ some (record row { revision = r; relay_revision = rr }))
          (update_metadata er err' r rr m)
  unfolding update_metadata
  update_metadata-row er err' r rr m row e =
      rw e (Ensures-bind _ _ λ _ _. Ensures-bind _ _ λ _ _. Ensures-ok refl)

  held :
      (db : Database) (s : ControlState) (delta : StateDelta) (r rr : ℕ) (m : Option Metadata)
      → Holds to_json parse_invite db (apply_changes delta.changes s)
      → m
        ≡ some (record (metadata_of (apply_changes delta.changes s)) {
          revision = r;
          relay_revision = rr;
        })
      → Holds to_json parse_invite (record db { metadata = m }) (advance delta r rr s)
  unfolding advance apply
  held db s delta r rr m v e = record {
    metadata = e;
    schema = v.schema;
    clients = v.clients;
    edges = v.edges;
    relays = v.relays;
    invites = v.invites;
    provisioners = v.provisioners;
    revocations = v.revocations;
    keys = record {
      client_ids = v.keys.client_ids;
      edge_ids = v.keys.edge_ids;
      relay_ids = v.keys.relay_ids;
      row_ids = v.keys.row_ids;
      revocation_ids = v.keys.revocation_ids;
    };
  }

  -- An accepted transaction leaves the tables of the state that follows in memory.
  pub apply_delta_sync-Holds :
      (db : Database) (s : ControlState) (er err' r rr : ℕ) (delta : StateDelta)
      → Holds to_json parse_invite db s
      → Ensures
          (λ db'. Holds to_json parse_invite db' (advance delta r rr s))
          (apply_delta_sync to_json fault db er err' r rr delta)
  unfolding apply_delta_sync advance apply
  apply_delta_sync-Holds db s er err' r rr delta v = Ensures-bind _ _ λ _ _. Ensures-bind _ _ λ _ _.
      Ensures-then _ _ (apply_rows-Holds to_json parse_invite round_trip rr delta.changes db s v)
        λ db' w.
          let pruned = prune-Holds to_json parse_invite db' _ w in
          Ensures-bind _ _ λ _ _. Ensures-bind _ _ λ _ _. Ensures-bind _ _ λ _ _.
            Ensures-bind _ _ λ _ _.
              Ensures-then _ _ (update_metadata-row er err' r rr _ _ pruned.metadata) λ m q.
                record {
                  value = λ a e.
                      subst (λ d. Holds to_json parse_invite d (advance delta r rr s))
                        (sym ((commit_transaction-same _ _).value a e))
                        (held (prune_provisioners db') s delta r rr m pruned q);
                }

  -- The store after a run of Control on this database: its tables hold the state in memory.
  Settled-Holds :
      (store after : Store Database)
      → Settled (apply_delta_sync to_json fault) store after
      → Holds to_json parse_invite store.database store.state
      → Holds to_json parse_invite after.database after.state
  Settled-Holds store after (inl same) v = rw same v
  Settled-Holds store after (inr (delta, _, c)) v =
      subst (Holds to_json parse_invite after.database) (sym c.state_after)
        ((apply_delta_sync-Holds store.database store.state _ _ _ _ delta v).value _ c.accepted)

  module _ (p : Platform) (key : String) where
    pub run-Holds :
        {store after : Store Database}
        → WellFormed store.state
        → Holds to_json parse_invite store.database store.state
        → Run p key (apply_delta_sync to_json fault) store after
        → Holds to_json parse_invite after.database after.state
    run-Holds v held' stop = held'
    run-Holds v held' (then_step {middle = middle} {after = after} run step) =
        Settled-Holds middle after
          (Step-Settled p key (apply_delta_sync to_json fault) middle
            (run-WellFormed p key (apply_delta_sync to_json fault) v run) step)
          (run-Holds v held' run)
