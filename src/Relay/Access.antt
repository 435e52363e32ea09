-- ===== src/Relay/Access.antt =====
-- Admission at a relay (crates/as-relay/src/main.rs, validate_credential and validate_revocations;
-- crates/relay-api/src/lib.rs, SignedRelayCredential).
use agent_scale.Base.{
  ℕ, String, Bool, false, not, ◌||◌, ◌==◌, ltb, leb, Option, none, some, List, [], ◌∷◌, any, find,
  saturating_add, Result, ok, ensure, ok_or, ◌>>=◌, ◌>>◌, if◌then◌else◌,
}
use agent_scale.Control.Wire.{RelayCredential}
use agent_scale.Control.Platform.{Platform, domain_bytes}
use agent_scale.Control.Map.{validate_credential}
use agent_scale.Control.Watch.{RevocationUpdate, Entry, entries, validate_update}

abbrev pub max_clock_skew_secs : ℕ
max_clock_skew_secs = 300

abbrev pub lookup : List Entry → String → Option Entry
lookup index id = find (λ e. e.0 == id) index

-- Two entries of one identity make the collected map shorter than the list.
unfoldable pub has_duplicates : List Entry → Bool
has_duplicates [] = false
has_duplicates (e ∷ es) = any (λ x. x.0 == e.0) es || has_duplicates es

-- The generation that is revoked now, or zero.
abbrev pub revoked_through : Option Entry → ℕ → ℕ
revoked_through none now = 0
revoked_through (some (id, (generation, expires_at))) now =
    if ltb now expires_at then generation else 0

module _ (p : Platform) where
  unfoldable pub validate_revocations : RevocationUpdate → String → Result String (List Entry)
  validate_revocations update audience = do
    validate_update p update
    ensure (update.audience == audience) "revocation audience mismatch"
    index ← entries p update.revocations
    ensure (not (has_duplicates index)) "revocation update contains duplicate endpoint ids"
    ok index

  unfoldable pub verify_credential : RelayCredential → String → String → Result String Unit
  verify_credential credential signature control_id = do
    ensure (credential.control_id == control_id) "control id mismatch"
    ensure
        (p.verify_signature control_id
          (domain_bytes p "agent-scale-relay-credential-v3\0" (p.credential_json credential))
          signature)
        "invalid Control signature"

  -- `validate_credential` of the relay.
  unfoldable pub admit :
      Option String → String → String → String → List Entry → ℕ → Result String Unit
  admit token endpoint_id authority_id audience revoked now = do
    text ← ok_or token "missing Relay credential"
    (credential, signature) ← ok_or (p.decode_credential text) "invalid Relay credential"
    verify_credential credential signature authority_id
    validate_credential p authority_id credential
    ensure (credential.audience == audience) "credential audience mismatch"
    subject ← ok_or (p.parse_endpoint credential.endpoint_id) "invalid credential endpoint id"
    ensure (subject == endpoint_id) "credential endpoint mismatch"
    ensure (leb credential.issued_at (saturating_add now max_clock_skew_secs))
        "credential is not valid yet"
    ensure (ltb now credential.expires_at) "credential expired"
    ensure (ltb (revoked_through (lookup revoked endpoint_id) now) credential.generation)
        "credential was revoked"
