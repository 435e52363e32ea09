-- ===== src/Examples/Durability.antt =====
-- The durable copy of the example's state, a start and a claim after it.
use agent_scale.Base.{
  retain, find, any, upsert_record, ◌==◌, ◌>>=◌, ok_or, ensure, ℕ, ok, ◌≡◌, ◌+◌, String, Bool, refl,
  true, false, none, some, [], ◌∷◌, Option,
}
use agent_scale.Control.Platform.{Platform}
use agent_scale.Control.Commit.{Store}
use agent_scale.Control.Claim.{claim}
use agent_scale.Invariant.Reach.{claim_step}
use agent_scale.Database.Tables.{prune_provisioners, is_managed, refers, Database}
use agent_scale.Database.Statements.{check_i64, ensure_provisioner_placeholder, invite_row}
use agent_scale.Database.Load.{active_provisioners}
use agent_scale.Database.Apply.{apply_rows, apply_row, commit_transaction, apply_delta_sync}
use agent_scale.Database.Agreement.{Holds, metadata_of, nothing, row_of}
use agent_scale.Database.Changes.{invite_row-read}
use agent_scale.Database.Sync.{
  put_changed, put_each, changed, removed, deletions, placeholders, replace_metadata, client_eq,
  edge_eq, relay_eq, revocation_record_eq, provisioner_eq, invite_record_eq, apply_sync,
}
use agent_scale.Database.Cleaned.{cleaned}
use agent_scale.Database.Restart.{loaded, load-loaded}
use agent_scale.Database.Life.{Life, begin, operation, restart, Recovered, Life-Recovered}
use agent_scale.Examples.Json.{invite_json, parse_invite, parse_invite-invite_json}
use agent_scale.Examples.World.{
  platform, control_key, state, alice, laptop, pending_record, claim_request, now,
}
use agent_scale.Examples.Witnesses.{state-WellFormed}
use agent_scale.Control.State.{ControlState}
use agent_scale.Base.Sorting.{order_by, insert_row}
use agent_scale.Control.Wire.{invite_eq}
use agent_scale.Control.Upkeep.{cleanup_invitations, cleanup_revocations}

abbrev readable : Platform
readable = record platform { invite_json = invite_json }

abbrev never : Database → Option String
never db = none

-- No text comes before another: tables are read in their order.
abbrev collation : String → String → Bool
collation a b = false

abbrev tables : Database
tables = record {
  metadata = some (metadata_of state);
  provisioners = record { endpoint_id = "p"; name = "scheduler"; active = true } ∷ [];
  clients = alice ∷ [];
  edges = laptop ∷ [];
  relay_revocations = [];
  relays = [];
  invitations = invite_row invite_json pending_record none ∷ [];
}

abbrev durable_store : Store Database
durable_store = record { database = tables; state = state; changed = 3; relay_changed = 0 }

tables-Holds : Holds invite_json parse_invite tables state
unfolding invite_row active_provisioners
tables-Holds = record {
  metadata = refl;
  schema = refl;
  clients = λ k. refl;
  edges = λ k. refl;
  relays = λ k. refl;
  invites =
      row_of refl
        (invite_row-read invite_json parse_invite parse_invite-invite_json pending_record none)
        nothing;
  provisioners = λ k. refl;
  revocations = λ k. refl;
  keys = record {
    client_ids = (tt, tt);
    edge_ids = (tt, tt);
    relay_ids = tt;
    row_ids = (tt, tt);
    revocation_ids = tt;
  };
}

-- A start an hour later, when nothing has to be cleaned up.
abbrev start_time : ℕ
start_time = now + 3600

abbrev loaded_state : ControlState
loaded_state = loaded invite_json parse_invite collation tables state

abbrev restarted : Store Database
restarted = record {
  database = tables;
  state = cleaned loaded_state start_time;
  changed = 0;
  relay_changed = 0;
}

start_written :
    apply_sync invite_json never tables loaded_state (cleaned loaded_state start_time) ≡ ok tables
unfolding apply_sync put_changed put_each changed removed deletions placeholders replace_metadata
    client_eq edge_eq relay_eq revocation_record_eq provisioner_eq invite_record_eq invite_eq
    apply_rows apply_row commit_transaction check_i64 ensure_provisioner_placeholder invite_row
    prune_provisioners is_managed refers active_provisioners cleanup_invitations cleanup_revocations
    order_by insert_row retain find any upsert_record ◌==◌ ◌>>=◌ ok_or ensure
start_written = refl

abbrev claimed_after : Store Database
claimed_after =
    (claim readable control_key (apply_delta_sync invite_json never) claim_request now now now
      restarted).1

restart_and_claim :
    Life readable control_key parse_invite collation never durable_store claimed_after
restart_and_claim =
    operation
      (restart start_time begin
        (load-loaded invite_json parse_invite collation tables state tables-Holds) start_written)
      (claim_step claim_request now now now)

Life-Recovered_example : Recovered parse_invite collation claimed_after.database claimed_after.state
Life-Recovered_example =
    Life-Recovered readable control_key parse_invite collation never parse_invite-invite_json
      state-WellFormed tables-Holds restart_and_claim
