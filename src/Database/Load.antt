-- ===== src/Database/Load.antt =====
-- Reading the state back (crates/as-control/src/db.rs, load). What JSON reads of a text, and the
-- collation by which SQLite orders texts, are parameters.
use agent_scale.Base.{
  String, Bool, ◌&&◌, ◌||◌, ◌==◌, eqb, Option, List, [], ◌∷◌, Result, ok, err, ensure, ok_or, ◌>>=◌,
  ◌>>◌, if◌then◌else◌,
}
use agent_scale.Base.Sorting.{order_by}
use agent_scale.Control.Wire.{Invite}
use agent_scale.Control.State.{
  ControlState, ClientRecord, EdgeRecord, RelayRecord, RevocationRecord, ProvisionerRecord,
  InviteRecord, InviteState, pending, claimed, revoked, state_schema,
}
use agent_scale.Database.Tables.{ProvisionerRow, InviteRow, Metadata, Database}

-- `SELECT name, endpoint_id FROM provisioners WHERE active = 1`.
unfoldable pub active_provisioners : List ProvisionerRow → List ProvisionerRecord
active_provisioners [] = []
active_provisioners (r ∷ rs) =
    let rest = active_provisioners rs in
    if r.active then record { name = r.name; endpoint_id = r.endpoint_id } ∷ rest else rest

unfoldable pub read_state : String → Result String InviteState
read_state text =
    if text == "pending"
    then ok pending
    else if text == "claimed"
    then ok claimed
    else if text == "revoked"
    then ok revoked
    else err "Query is not read-only"

module _ (parse_invite : String → Option Invite) where
  unfoldable pub read_invite : InviteRow → Result String InviteRecord
  unfolding read_state
  read_invite row = do
    invite ← ok_or (parse_invite row.invite_json) "conversion error"
    state ← read_state row.state
    ok (record {
      invite = invite;
      state = state;
      claimed_by = row.claimed_by;
      request_id = row.request_id;
      managed_by = row.managed_by;
      request_hash = row.request_hash;
      terminal_at = row.terminal_at;
    })

  unfoldable pub read_invites : List InviteRow → Result String (List InviteRecord)
  unfolding read_invite
  read_invites [] = ok []
  read_invites (row ∷ rows) = do
    item ← read_invite row
    items ← read_invites rows
    ok (item ∷ items)

  module _ (before : String → String → Bool) where
    abbrev pub client_before : ClientRecord → ClientRecord → Bool
    client_before a b = before a.name b.name

    abbrev pub edge_before : EdgeRecord → EdgeRecord → Bool
    edge_before a b =
        before a.owner_id b.owner_id || ((a.owner_id == b.owner_id) && before a.name b.name)

    abbrev pub relay_before : RelayRecord → RelayRecord → Bool
    relay_before a b = before a.name b.name

    abbrev pub provisioner_before : ProvisionerRecord → ProvisionerRecord → Bool
    provisioner_before a b = before a.name b.name

    abbrev pub revocation_before : RevocationRecord → RevocationRecord → Bool
    revocation_before a b = before a.endpoint_id b.endpoint_id

    unfoldable pub load_state : Metadata → Database → Result String ControlState
    unfolding order_by active_provisioners read_invites
    load_state row db = do
      ensure (eqb row.schema_version state_schema) "unsupported state schema"
      invites ← read_invites db.invitations
      ok (record {
        schema = row.schema_version;
        audience = row.audience;
        public_url = row.public_url;
        relay_ca_der = row.relay_ca_der;
        revision = row.revision;
        relay_revision = row.relay_revision;
        clients = order_by client_before db.clients;
        edges = order_by edge_before db.edges;
        relays = order_by relay_before db.relays;
        invites = invites;
        provisioners = order_by provisioner_before (active_provisioners db.provisioners);
        revocations = order_by revocation_before db.relay_revocations;
      })

    unfoldable pub load : Database → Result String ControlState
    unfolding load_state
    load db = do
      row ←
          ok_or db.metadata
            "database is not initialized; run `as-control init` to initialize a new network"
      load_state row db
