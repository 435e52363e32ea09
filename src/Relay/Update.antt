-- ===== src/Relay/Update.antt =====
-- How a relay applies Control's revocation updates (crates/as-relay/src/main.rs,
-- apply_revocation_update, load_or_initialize, revoke_all and DynamicAccess;
-- crates/relay-api/src/lib.rs, SignedRevocationUpdate). The JSON of an update, the order of texts and
-- whether a file can be written are parameters. The readings of the clock are after the Unix epoch.
use agent_scale.Base.{
  ℕ, String, Bool, true, false, not, ◌||◌, ◌&&◌, ◌==◌, ltb, leb, eqb, Option, none, some, List, [],
  ◌∷◌, ◌++◌, map, any, find, retain, length, upsert_record, abs_diff, Result, ok, err, ensure,
  reject_if, ok_or, map_err, ◌>>=◌, ◌>>◌, if◌then◌else◌,
}
use agent_scale.Base.Sorting.{order_by}
use agent_scale.Control.Errors.{ApiError, bad, conflict, unauthorized, internal}
use agent_scale.Control.Wire.{relay_protocol_version}
use agent_scale.Control.Platform.{Platform, domain_bytes}
use agent_scale.Control.Watch.{Revocation, RevocationUpdate, Entry}
use agent_scale.Relay.Access.{
  lookup, revoked_through, validate_revocations, admit, max_clock_skew_secs,
}

-- AdminState and DynamicAccess, which share the index; `stored` is the file of the state, and
-- `disconnected` lists the calls of `Clients::disconnect`.
pub record RelayState : Type 0 where
  pub audience : String
  pub authority_id : String
  pub current : RevocationUpdate
  pub revoked : List Entry
  pub stored : RevocationUpdate
  pub disconnected : List String
  pub enrollment_revoked : Bool
  pub marker_stored : Bool
  pub shut_down : Bool

pub record RelayStatus : Type 0 where
  pub audience : String
  pub control_id : String
  pub version : ℕ
  pub revocations : ℕ

unfoldable pub relay_status : RelayState → RelayStatus
relay_status s = record {
  audience = s.audience;
  control_id = s.authority_id;
  version = s.current.version;
  revocations = length s.current.revocations;
}

-- The derived `PartialEq`.
unfoldable pub revocation_eq : Revocation → Revocation → Bool
revocation_eq a b =
    (a.endpoint_id == b.endpoint_id)
    && (eqb a.revoked_through_generation b.revoked_through_generation
        && (eqb a.expires_at b.expires_at && eqb a.revision b.revision))

unfoldable pub already_applied : List Revocation → List Revocation → Bool
unfolding revocation_eq
already_applied [] current = true
already_applied (r ∷ rs) current =
    any (λ existing. revocation_eq existing r) current && already_applied rs current

-- The map from identities to revocations.
abbrev pub Merged : Type 0
Merged = List (String × Revocation)

abbrev pub insert : String → Revocation → Merged → Merged
insert id r merged = upsert_record merged (id, r) (λ item key. item.0 == key.0)

-- Identities that do not parse are left out.
unfoldable pub insert_parsed : Option String → Revocation → Merged → Merged
insert_parsed none r merged = merged
insert_parsed (some id) r merged = insert id r merged

unfoldable pub moves_backwards : Option (String × Revocation) → Revocation → Bool
moves_backwards none r = false
moves_backwards (some (id, existing)) r =
    ltb r.revoked_through_generation existing.revoked_through_generation

-- Whom an update disconnects: the entries that are active and revoke more than before.
unfoldable pub to_disconnect : ℕ → List Entry → List Entry → List String
to_disconnect now old delta =
    map (λ e. e.0)
      (retain (λ e. ltb now e.1.1 && ltb (revoked_through (lookup old e.0) now) e.1.0) delta)

unfoldable pub written : Option String → Result ApiError Unit
written none = ok tt
written (some error) = err (internal error)

module _ (p : Platform) where
  -- `verify` of a signed update.
  unfoldable pub verify_update :
      (RevocationUpdate → String) → RevocationUpdate → String → String → Result String Unit
  verify_update update_json update signature control_id =
      ensure
        (p.verify_signature control_id
          (domain_bytes p "agent-scale-relay-revocations-v3\0" (update_json update)) signature)
        "invalid Control signature"

  unfoldable pub unexpired : ℕ → List Revocation → Merged → Merged
  unfolding insert_parsed
  unexpired now [] merged = merged
  unexpired now (r ∷ rs) merged =
      let merged' = insert_parsed (p.parse_endpoint r.endpoint_id) r merged in
      unexpired now rs (if ltb now r.expires_at then merged' else merged)

  unfoldable pub merge_revocations : List Revocation → Merged → Result ApiError Merged
  unfolding moves_backwards
  merge_revocations [] merged = ok merged
  merge_revocations (r ∷ rs) merged = do
    id ← ok_or (p.parse_endpoint r.endpoint_id) (bad "invalid endpoint id")
    reject_if (moves_backwards (find (λ e. e.0 == id) merged) r)
        (conflict "revocation generation moved backwards")
    merge_revocations rs (insert id r merged)

  module _ (before : String → String → Bool) (fault : RevocationUpdate → Option String) where
    -- `persist_revocation_state`: the file is replaced, or it is as it was.
    unfoldable pub persist : RevocationUpdate → Result ApiError Unit
    persist update = written (fault update)

    unfoldable pub accumulate : RevocationUpdate → Merged → RevocationUpdate
    accumulate update merged = record {
      protocol_version = relay_protocol_version;
      audience = update.audience;
      version = update.version;
      issued_at = update.issued_at;
      revocations =
          order_by (λ (a : Revocation) b. before a.endpoint_id b.endpoint_id)
            (map (λ (e : String × Revocation). e.1) merged);
    }

    -- The state that is written drops what has expired.
    unfoldable pub prune_expired : ℕ → RelayState → Result ApiError RelayState
    prune_expired now s = do
      let pruned = record s.current {
        revocations = retain (λ r. ltb now r.expires_at) s.current.revocations;
      }
      active ← map_err bad (validate_revocations p pruned s.audience)
      persist pruned
      ok (record s { stored = pruned; revoked = active; current = pruned })

    unfoldable pub same_version : ℕ → RevocationUpdate → RelayState → Result ApiError RelayState
    same_version now update s = do
      reject_if (not (already_applied update.revocations s.current.revocations))
          (conflict "revocation version already has different content")
      if any (λ (r : Revocation). leb r.expires_at now) s.current.revocations
          then prune_expired now s
          else ok s

    unfoldable pub newer_version :
        ℕ → ℕ → RevocationUpdate → List Entry → RelayState → Result ApiError RelayState
    newer_version arrival now update delta s = do
      reject_if (ltb max_clock_skew_secs (abs_diff arrival update.issued_at))
          (unauthorized "revocation timestamp is outside the 5 minute window")
      reject_if (any (λ (r : Revocation). leb r.revision s.current.version) update.revocations)
          (conflict "revocation update overlaps the applied revision")
      merged ← merge_revocations update.revocations (unexpired now s.current.revocations [])
      let accumulated = accumulate update merged
      next ← map_err bad (validate_revocations p accumulated s.audience)
      persist accumulated
      ok (record s {
        stored = accumulated;
        revoked = next;
        disconnected = s.disconnected ++ to_disconnect now s.revoked delta;
        current = accumulated;
      })

    -- The part of `apply_revocation_update` that holds the lock of the current state.
    unfoldable pub update_section :
        ℕ → ℕ → RevocationUpdate → List Entry → RelayState → Result ApiError RelayState
    update_section arrival now update delta s = do
      reject_if (ltb update.version s.current.version) (conflict "revocation version is older")
      if eqb update.version s.current.version
          then same_version now update s
          else newer_version arrival now update delta s

    unfoldable pub apply_revocation_update :
        (RevocationUpdate → String)
        → RevocationUpdate
        → String
        → ℕ
        → ℕ
        → RelayState
        → Result ApiError RelayState
    apply_revocation_update update_json update signature arrival now s = do
      map_err unauthorized (verify_update update_json update signature s.authority_id)
      delta ← map_err bad (validate_revocations p update s.audience)
      update_section arrival now update delta s

  -- `on_connect`: whether a node may use the relay.
  unfoldable pub on_connect : Option String → String → ℕ → RelayState → Result String Unit
  on_connect token endpoint_id now s = do
    reject_if s.enrollment_revoked "Relay enrollment is revoked"
    admit p token endpoint_id s.authority_id s.audience s.revoked now

-- `revoke_all`; the marker file may fail to be written.
unfoldable pub revoke_all : Bool → RelayState → RelayState
revoke_all stored s = record s {
  enrollment_revoked = true;
  marker_stored = s.marker_stored || stored;
  shut_down = true;
}

-- The state of a relay that has stored none.
unfoldable pub initial_update : String → ℕ → RevocationUpdate
initial_update audience now = record {
  protocol_version = relay_protocol_version;
  audience = audience;
  version = 0;
  issued_at = now;
  revocations = [];
}
