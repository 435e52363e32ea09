-- ===== src/Database/Cleaned.antt =====
-- The write of a starting Control after its cleanup (crates/as-control/src/db.rs, apply_sync;
-- crates/as-control/src/main.rs, run).
use mathlib.Core.Path.{subst}
use agent_scale.Base.{
  ℕ, String, Bool, not, ◌≡◌, refl, sym, ap, ◌∙◌, ltb, leb, Option, none, some, List, [], ◌∷◌, ◌++◌,
  map, retain, All-retain, Distinct-retain, arith, saturating_add, Result, Ensures, Ensures-ok,
  Ensures-err, Ensures-bind, Ensures-then, Ensures-ok_or,
}
use agent_scale.Control.Wire.{Invite}
use agent_scale.Control.State.{
  invitation_retention_secs, ControlState, RevocationRecord, InviteRecord, invite_key, StateChange,
  delete_invite, delete_revocation, delete_provisioner,
}
use agent_scale.Control.Upkeep.{
  invite_is_stale, terminal_time, cleanup_invitations, cleanup_revocations, cleanup_changes,
  stale_invites, expired_revocations,
}
use agent_scale.Invariant.Tables.{WellFormed}
use agent_scale.Retention.Cleanup.{cleanup_changes-agrees}
use agent_scale.Database.Tables.{Metadata, Database, prune_provisioners}
use agent_scale.Database.Apply.{apply_rows}
use agent_scale.Database.Agreement.{
  Holds, metadata_of, prune-Holds, placeholder-Holds, client_id, edge_id, relay_id, provisioner_id,
  revocation_id,
}
use agent_scale.Database.Changes.{apply_rows-Holds}
use agent_scale.Database.Durable.{commit_transaction-same}
use agent_scale.Database.Sync.{
  client_eq, edge_eq, relay_eq, revocation_record_eq, provisioner_eq, invite_record_eq, removed,
  put_each, placeholders, deletions, replace_metadata, put_changed, apply_sync,
}
use agent_scale.Database.Diff.{
  client_eq_refl, edge_eq_refl, relay_eq_refl, revocation_record_eq_refl, provisioner_eq_refl,
  invite_record_eq_refl, changed_self, changed-retain, removed_self, removed-retain,
}

-- The state of a process that starts.
abbrev pub cleaned : ControlState → ℕ → ControlState
cleaned s now = (cleanup_revocations (cleanup_invitations s now).0 now).0

map-deletions :
    {A : Type 0} (change : String → StateChange) (key : A → String) (xs : List A)
    → map change (map key xs) ≡ map (λ x. change (key x)) xs
map-deletions change key [] = refl
map-deletions change key (x ∷ xs) = ap (λ cs. change (key x) ∷ cs) (map-deletions change key xs)

not-ltb : (a b : ℕ) → not (ltb a b) ≡ leb b a
not-ltb a b = ground arith

-- What is deleted is what the delta of the cleanup deletes.
deletions-cleanup :
    (s : ControlState) (now : ℕ)
    → WellFormed s
    → deletions s (cleaned s now) ≡ cleanup_changes now s
unfolding deletions cleanup_changes cleanup_invitations cleanup_revocations invite_is_stale
deletions-cleanup s now w =
    rw
      (
        removed_self edge_id s.edges w.edges.ids,
        removed_self client_id s.clients w.clients.ids,
        removed_self relay_id s.relays w.relays.ids,
      )
      (λ i. invites i ++ revocations i)
  where
    keep : InviteRecord → Bool
    keep r = ltb now (saturating_add (terminal_time r now r.state) invitation_retention_secs)

    invites :
        map delete_invite (removed invite_key s.invites (retain keep s.invites))
        ≡ map (λ r. delete_invite (invite_key r)) (stale_invites now s)
    invites =
        ap (map delete_invite) (removed-retain invite_key keep s.invites w.invites)
        ∙ map-deletions delete_invite invite_key _
        ∙ (λ i.
            map (λ r. delete_invite (invite_key r))
              (retain
                (λ (r : InviteRecord).
                  not-ltb now
                    (saturating_add (terminal_time r now r.state) invitation_retention_secs) i)
                s.invites))

    revocations :
        map delete_revocation (
          removed revocation_id s.revocations
            (retain (λ (r : RevocationRecord). ltb now r.expires_at) s.revocations))
        ≡ map (λ r. delete_revocation r.endpoint_id) (expired_revocations now s)
    revocations =
        ap (map delete_revocation)
          (removed-retain revocation_id (λ r. ltb now r.expires_at) s.revocations w.revocations.ids)
        ∙ map-deletions delete_revocation revocation_id _
        ∙ (λ i.
            map (λ r. delete_revocation r.endpoint_id)
              (retain (λ (r : RevocationRecord). not-ltb now r.expires_at i) s.revocations))

pub cleaned-WellFormed : (s : ControlState) (now : ℕ) → WellFormed s → WellFormed (cleaned s now)
unfolding cleanup_invitations cleanup_revocations
cleaned-WellFormed s now w = record {
  clients = w.clients;
  edges = w.edges;
  owned = w.owned;
  relays = w.relays;
  invites = Distinct-retain invite_key _ s.invites w.invites;
  provisioners = w.provisioners;
  revocations = record {
    ids = Distinct-retain revocation_id _ s.revocations w.revocations.ids;
    ranges = All-retain _ _ s.revocations w.revocations.ranges;
  };
}

module _ (to_json : Invite → String) (parse_invite : String → Option Invite)
    (fault : Database → Option String)
    (round_trip : (i : Invite) → parse_invite (to_json i) ≡ some i) where
  placeholders-Holds :
      (managers : List (Option String)) (db : Database) (s : ControlState)
      → Holds to_json parse_invite db s
      → Holds to_json parse_invite (placeholders managers db) s
  unfolding placeholders
  placeholders-Holds [] db s v = v
  placeholders-Holds (m ∷ ms) db s v =
      placeholders-Holds ms _ s (placeholder-Holds to_json parse_invite m db s v)

  put_each-none :
      {A : Type 0} (P : Database → Type 0) (put : A → Database → Result String Database)
      (xs : List A) (db : Database)
      → xs ≡ []
      → P db
      → Ensures P (put_each put xs db)
  unfolding put_each
  put_each-none P put xs db empty v = rw empty (Ensures-ok v)

  module _ (s : ControlState) (now : ℕ) (w : WellFormed s) where
    abbrev Synced : Database → Type 0
    Synced db = Holds to_json parse_invite db (cleaned s now)

    put_changed-Synced :
        (db : Database)
        → Synced db
        → Ensures Synced (put_changed to_json fault s (cleaned s now) db)
    unfolding put_changed cleanup_invitations cleanup_revocations
    put_changed-Synced db v =
        Ensures-then _ _
          (put_each-none Synced _ _ db
            (changed_self provisioner_id provisioner_eq _ provisioner_eq_refl w.provisioners.ids) v)
          λ _ v.
            Ensures-then _ _
              (put_each-none Synced _ _ _
                (changed_self client_id client_eq _ client_eq_refl w.clients.ids) v)
              λ _ v.
                Ensures-then _ _
                  (put_each-none Synced _ _ _
                    (changed_self edge_id edge_eq _ edge_eq_refl w.edges.ids) v)
                  λ _ v.
                    Ensures-then _ _
                      (put_each-none Synced _ _ _
                        (changed_self relay_id relay_eq _ relay_eq_refl w.relays.ids) v)
                      λ _ v.
                        Ensures-then _ _
                          (put_each-none Synced _ _ _
                            (changed-retain revocation_id revocation_record_eq _ _
                              revocation_record_eq_refl w.revocations.ids)
                            v)
                          λ _ v.
                            put_each-none Synced _ _ _
                              (changed-retain invite_key invite_record_eq _ _ invite_record_eq_refl
                                w.invites)
                              v

    deleted-Synced :
        (db : Database)
        → Holds to_json parse_invite db s
        → Ensures Synced (apply_rows to_json s.relay_revision (deletions s (cleaned s now)) db)
    deleted-Synced db v =
        subst (λ changes. Ensures Synced (apply_rows to_json s.relay_revision changes db))
          (sym (deletions-cleanup s now w))
          (subst
            (λ t.
              Ensures (λ db'. Holds to_json parse_invite db' t)
                (apply_rows to_json s.relay_revision (cleanup_changes now s) db))
            (cleanup_changes-agrees now s w)
            (apply_rows-Holds to_json parse_invite round_trip s.relay_revision
              (cleanup_changes now s) db s v))

    retired-Synced :
        (db : Database)
        → Synced db
        → Ensures Synced (
            apply_rows to_json s.relay_revision
              (map delete_provisioner (removed provisioner_id s.provisioners s.provisioners))
              db)
    unfolding apply_rows
    retired-Synced db v =
        rw (removed_self provisioner_id s.provisioners w.provisioners.ids) (Ensures-ok v)

    with_metadata :
        (db : Database) (m : Option Metadata)
        → Synced db
        → m ≡ some (metadata_of (cleaned s now))
        → Synced (record db { metadata = m })
    with_metadata db m v e = record {
      metadata = e;
      schema = v.schema;
      clients = v.clients;
      edges = v.edges;
      relays = v.relays;
      invites = v.invites;
      provisioners = v.provisioners;
      revocations = v.revocations;
      keys = record {
        client_ids = v.keys.client_ids;
        edge_ids = v.keys.edge_ids;
        relay_ids = v.keys.relay_ids;
        row_ids = v.keys.row_ids;
        revocation_ids = v.keys.revocation_ids;
      };
    }

    replace_metadata-row :
        (next : ControlState) (m : Option Metadata)
        → Ensures (λ m'. m' ≡ some (metadata_of next)) (replace_metadata s next m)
    unfolding replace_metadata
    replace_metadata-row next none = Ensures-err _
    replace_metadata-row next (some row) =
        Ensures-bind _ _ λ _ _. Ensures-bind _ _ λ _ _. Ensures-ok refl

    -- The write of the cleanup, when it is accepted, leaves tables that hold the cleaned state.
    pub apply_sync-Holds :
        (db : Database)
        → Holds to_json parse_invite db s
        → Ensures Synced (apply_sync to_json fault db s (cleaned s now))
    unfolding apply_sync cleanup_invitations cleanup_revocations
    apply_sync-Holds db v = Ensures-ok_or _ _ _ λ _ _. Ensures-bind _ _ λ _ _.
        Ensures-bind _ _ λ _ _. Ensures-bind _ _ λ _ _. Ensures-bind _ _ λ _ _.
          Ensures-then _ _ (deleted-Synced db v) λ db1 v1.
            Ensures-then _ _ (put_changed-Synced _ (placeholders-Holds _ db1 _ v1)) λ db2 v2.
              Ensures-then _ _ (retired-Synced db2 v2) λ db3 v3.
                let pruned = prune-Holds to_json parse_invite db3 _ v3 in
                Ensures-bind _ _ λ _ _. Ensures-bind _ _ λ _ _. Ensures-bind _ _ λ _ _.
                  Ensures-bind _ _ λ _ _.
                    Ensures-then _ _ (replace_metadata-row (cleaned s now) _) λ m q. record {
                      value = λ a e.
                          subst Synced
                            (sym (
                              (commit_transaction-same to_json parse_invite fault round_trip _
                                  _).value
                                a e))
                            (with_metadata (prune_provisioners db3) m pruned q);
                    }
