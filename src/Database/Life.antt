-- ===== src/Database/Life.antt =====
-- Control's operations and starts on one database (crates/as-control/src/db.rs;
-- crates/as-control/src/main.rs, commit_delta).
use agent_scale.Base.{ℕ, ok-injective, subst, Bool, String, ◌≡◌, refl, sym, ◌∙◌, Option, some, ok}
use agent_scale.Base.Same.{Same}
use agent_scale.Control.Wire.{Invite}
use agent_scale.Control.Platform.{Platform}
use agent_scale.Control.State.{ControlState}
use agent_scale.Control.Commit.{Store}
use agent_scale.Invariant.Tables.{WellFormed}
use agent_scale.Invariant.Reach.{Step, stop, then_step, run-WellFormed}
use agent_scale.Database.Tables.{Database}
use agent_scale.Database.Apply.{apply_delta_sync}
use agent_scale.Database.Load.{load}
use agent_scale.Database.Agreement.{
  Holds, client_id, edge_id, relay_id, provisioner_id, revocation_id,
}
use agent_scale.Database.Durable.{run-Holds}
use agent_scale.Database.Restart.{loaded, load-loaded, loaded-Holds, loaded-WellFormed}
use agent_scale.Database.Sync.{apply_sync}
use agent_scale.Database.Cleaned.{cleaned, cleaned-WellFormed, apply_sync-Holds}

-- What `load` reads of a database, compared with the state that was in memory.
pub record Recovered (parse_invite : String → Option Invite) (before : String → String → Bool)
    (db : Database) (s : ControlState) : Type 0 where
  pub state : ControlState
  pub reads : load parse_invite before db ≡ ok state
  pub well_formed : WellFormed state
  pub revision : state.revision ≡ s.revision
  pub relay_revision : state.relay_revision ≡ s.relay_revision
  pub audience : state.audience ≡ s.audience
  pub invites : state.invites ≡ s.invites
  pub clients : Same client_id state.clients s.clients
  pub edges : Same edge_id state.edges s.edges
  pub relays : Same relay_id state.relays s.relays
  pub provisioners : Same provisioner_id state.provisioners s.provisioners
  pub revocations : Same revocation_id state.revocations s.revocations

module _ (p : Platform) (key : String) (parse_invite : String → Option Invite)
    (before : String → String → Bool) (fault : Database → Option String) where
  -- Operations, in the order in which their sections take the state lock, and starts: a process may
  -- stop between two operations, and the next one loads the tables, cleans the state up and writes it
  -- back before it serves. A start that fails leaves the tables for another one.
  pub data Life (store : Store Database) : Store Database → Type 0 where
    begin : Life store store
    operation :
        {middle after : Store Database}
        → Life store middle
        → Step p key (apply_delta_sync p.invite_json fault) middle after
        → Life store after
    restart :
        {middle : Store Database} {state : ControlState} {written : Database} (now : ℕ)
        → Life store middle
        → load parse_invite before middle.database ≡ ok state
        → apply_sync p.invite_json fault middle.database state (cleaned state now) ≡ ok written
        → Life store (record {
          database = written;
          state = cleaned state now;
          changed = 0;
          relay_changed = 0;
        })

  module _ (round_trip : (i : Invite) → parse_invite (p.invite_json i) ≡ some i) where
    abbrev pub Kept : Database → ControlState → Type 0
    Kept db s = WellFormed s × Holds p.invite_json parse_invite db s

    Step-Kept :
        (store after : Store Database)
        → Step p key (apply_delta_sync p.invite_json fault) store after
        → Kept store.database store.state
        → Kept after.database after.state
    Step-Kept store after step v =
        let run = then_step stop step in
        (
          run-WellFormed p key (apply_delta_sync p.invite_json fault) v.0 run,
          run-Holds p.invite_json parse_invite fault round_trip p key v.0 v.1 run,
        )

    load-Kept :
        (db : Database) (s state : ControlState)
        → load parse_invite before db ≡ ok state
        → Kept db s
        → Kept db state
    load-Kept db s state e v =
        subst (Kept db)
          (ok-injective (sym (load-loaded p.invite_json parse_invite before db s v.1) ∙ e))
          (
            loaded-WellFormed p.invite_json parse_invite before db s v.1 v.0,
            loaded-Holds p.invite_json parse_invite before db s v.1,
          )

    start-Kept :
        (db written : Database) (s : ControlState) (now : ℕ)
        → apply_sync p.invite_json fault db s (cleaned s now) ≡ ok written
        → Kept db s
        → Kept written (cleaned s now)
    start-Kept db written s now e v = (
      cleaned-WellFormed s now v.0,
      (apply_sync-Holds p.invite_json parse_invite fault round_trip s now v.0 db v.1).value written
          e,
    )

    Life-Kept :
        {store after : Store Database}
        → Kept store.database store.state
        → Life store after
        → Kept after.database after.state
    Life-Kept v begin = v
    Life-Kept v (operation {middle = middle} {after = after} life step) =
        Step-Kept middle after step (Life-Kept v life)
    Life-Kept v
          (restart {middle = middle} {state = state} {written = written} now life loads writes) =
        start-Kept middle.database written state now writes
          (load-Kept middle.database middle.state state loads (Life-Kept v life))

    -- After any operations and restarts, each with its cleanup and its write, and however many
    -- transactions were refused, the tables can be loaded, and give a well-formed state with the
    -- revisions, the audience and the invitations in memory and the same record for every identity:
    -- the store began with tables that hold a well-formed state, and JSON reads back the invitations
    -- that it writes.
    pub Life-Recovered :
        {store after : Store Database}
        → WellFormed store.state
        → Holds p.invite_json parse_invite store.database store.state
        → Life store after
        → Recovered parse_invite before after.database after.state
    Life-Recovered {store} {after} v held life =
        let kept = Life-Kept (v, held) life in
        let again =
          loaded-Holds p.invite_json parse_invite before after.database after.state kept.1 in
        record {
          state = loaded p.invite_json parse_invite before after.database after.state;
          reads = load-loaded p.invite_json parse_invite before after.database after.state kept.1;
          well_formed =
              loaded-WellFormed p.invite_json parse_invite before after.database after.state kept.1
                kept.0;
          revision = refl;
          relay_revision = refl;
          audience = refl;
          invites = refl;
          clients = λ k. sym (again.clients k) ∙ kept.1.clients k;
          edges = λ k. sym (again.edges k) ∙ kept.1.edges k;
          relays = λ k. sym (again.relays k) ∙ kept.1.relays k;
          provisioners = λ k. sym (again.provisioners k) ∙ kept.1.provisioners k;
          revocations = λ k. sym (again.revocations k) ∙ kept.1.revocations k;
        }
