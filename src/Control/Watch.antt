-- ===== src/Control/Watch.antt =====
-- The revocations that a relay polls for (crates/as-control/src/main.rs, relay_watch;
-- crates/relay-api/src/lib.rs, RevocationUpdate).
use agent_scale.Base.{
  ℕ, String, not, ◌&&◌, ◌==◌, ltb, leb, eqb, List, [], ◌∷◌, map, retain, Result, ok, ensure, ok_or,
  ◌>>=◌, ◌>>◌,
}
use agent_scale.Control.Wire.{relay_protocol_version}
use agent_scale.Control.State.{ControlState, RevocationRecord}
use agent_scale.Control.Platform.{Platform}

pub record Revocation : Type 0 where
  pub endpoint_id : String
  pub revoked_through_generation : ℕ
  pub expires_at : ℕ
  pub revision : ℕ

pub record RevocationUpdate : Type 0 where
  pub protocol_version : ℕ
  pub audience : String
  pub version : ℕ
  pub issued_at : ℕ
  pub revocations : List Revocation

abbrev pub published : RevocationRecord → Revocation
published r = record {
  endpoint_id = r.endpoint_id;
  revoked_through_generation = r.revoked_through_generation;
  expires_at = r.expires_at;
  revision = r.revision;
}

-- The update for a relay that has applied the revision `known`.
unfoldable pub revocation_update : ControlState → ℕ → ℕ → RevocationUpdate
revocation_update state known now = record {
  protocol_version = relay_protocol_version;
  audience = state.audience;
  version = state.relay_revision;
  issued_at = now;
  revocations = map published (retain (λ r. ltb known r.revision) state.revocations);
}

-- The loop of `validate`.
unfoldable pub validate_entries : ℕ → List Revocation → Result String Unit
validate_entries version [] = ok tt
validate_entries version (r ∷ rs) = do
  ensure (ltb 0 r.revoked_through_generation) "revoked generation must be positive"
  ensure (ltb 0 r.revision && leb r.revision version)
      "revocation revision is outside the signed update range"
  validate_entries version rs

-- What a relay keeps by identity: the generation and the expiry.
abbrev pub Entry : Type 0
Entry = String × (ℕ × ℕ)

module _ (p : Platform) where
  unfoldable pub entries : List Revocation → Result String (List Entry)
  entries [] = ok []
  entries (r ∷ rs) = do
    id ← ok_or (p.parse_endpoint r.endpoint_id) "invalid revoked endpoint id"
    rest ← entries rs
    ok ((id, (r.revoked_through_generation, r.expires_at)) ∷ rest)

  unfoldable pub validate_update : RevocationUpdate → Result String Unit
  validate_update update = do
    ensure (eqb update.protocol_version relay_protocol_version) "unsupported Relay protocol version"
    ensure (not (update.audience == "")) "revocation audience is empty"
    validate_entries update.version update.revocations
    entries update.revocations
    ok tt
