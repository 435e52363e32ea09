-- ===== src/Database/Tables.antt =====
-- The rows of the database (crates/as-control/src/schema.sql). A client, an edge, a relay and a
-- revocation have the columns of their records; every integer column is written from a `u64` below
-- 2 ^ 63, from an `i64` or from a port, and is kept as the number that was written.
use agent_scale.Base.{
  ℕ, String, Bool, true, not, ◌&&◌, ◌||◌, ◌==◌, Option, none, some, List, any, retain, holds, ◌-◌,
  ◌^◌,
}
use agent_scale.Control.State.{ClientRecord, EdgeRecord, RelayRecord, RevocationRecord}

pub record ProvisionerRow : Type 0 where
  pub endpoint_id : String
  pub name : String
  pub active : Bool

pub record InviteRow : Type 0 where
  pub invite_id : String
  pub name : String
  pub kind : String
  pub owner_id : Option String
  pub invite_json : String
  pub expires_at : ℕ
  pub state : String
  pub claimed_by : Option String
  pub request_id : Option String
  pub managed_by : Option String
  pub request_hash : Option String
  pub terminal_at : Option ℕ

-- The only row of `metadata`.
pub record Metadata : Type 0 where
  pub schema_version : ℕ
  pub audience : String
  pub public_url : String
  pub relay_ca_der : List ℕ
  pub revision : ℕ
  pub relay_revision : ℕ

pub record Database : Type 0 where
  pub metadata : Option Metadata
  pub provisioners : List ProvisionerRow
  pub clients : List ClientRecord
  pub edges : List EdgeRecord
  pub relay_revocations : List RevocationRecord
  pub relays : List RelayRecord
  pub invitations : List InviteRow

abbrev pub i64_max : ℕ
i64_max = 2 ^ 63 - 1

-- A nullable foreign key.
unfoldable pub refers : {A : Type 0} → Option String → (A → String) → List A → Bool
refers none id rows = true
refers (some key) id rows = any (λ r. id r == key) rows

-- Another row, of another primary key, for which the test holds.
abbrev pub taken : {A : Type 0} → (A → String) → String → (A → Bool) → List A → Bool
taken id key test rows = any (λ r. test r && not (id r == key)) rows

unfoldable pub is_managed : Database → String → Bool
is_managed db id =
    any (λ (i : InviteRow). holds i.managed_by id) db.invitations
    || any (λ (c : ClientRecord). holds c.managed_by id) db.clients

-- `DELETE FROM provisioners WHERE active = 0` and no row refers to them, so that no foreign key acts.
unfoldable pub prune_provisioners : Database → Database
unfolding is_managed
prune_provisioners db = record db {
  provisioners =
      retain (λ (r : ProvisionerRow). r.active || is_managed db r.endpoint_id) db.provisioners;
}
