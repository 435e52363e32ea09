-- ===== src/Relay/Forever.antt =====
-- The updates and restarts of a relay, in their order (crates/as-relay/src/main.rs,
-- apply_revocation_update, run and DynamicAccess::on_connect).
use agent_scale.Base.{
  ℕ, String, Bool, false, ◌≡◌, refl, sym, subst, ◌≤◌, ◌<◌, ◌⊎◌, inl, inr, Option, some, List, [],
  Result, ok, err, arith, Ensures, Ensures-bind, Ensures-then, Ensures-ok, reject_if,
}
use agent_scale.Control.Errors.{ApiError}
use agent_scale.Control.Platform.{Platform}
use agent_scale.Control.Wire.{RelayCredential}
use agent_scale.Control.Watch.{Revocation, RevocationUpdate, Entry}
use agent_scale.Relay.Access.{lookup, revoked_through, validate_revocations}
use agent_scale.Relay.Denied.{admit-Fresh, covered-refused}
use agent_scale.Relay.Update.{RelayState, apply_revocation_update, on_connect}
use agent_scale.Relay.Held.{Strong, Listed}
use agent_scale.Relay.Merge.{Lasting, Covers, entries-Covers}
use agent_scale.Relay.Revoked.{
  Consistent, Revokes, apply-Ensures, prune_expired-Consistent, prune_expired-Revokes,
  newer_version-Consistent, newer_version-Revokes,
}

-- The state after a request, which an error leaves as it was.
abbrev pub settle : Result ApiError RelayState → RelayState → RelayState
settle (ok after) s = after
settle (err e) s = s

settle-Ensures :
    (P : RelayState → Type 0) (r : Result ApiError RelayState) (s : RelayState)
    → P s
    → Ensures P r
    → P (settle r s)
settle-Ensures P (ok after) s v h = h.value after refl
settle-Ensures P (err e) s v h = v

-- A process that starts from the stored state; it does so only without the marker file.
abbrev pub restarted : RelayState → List Entry → RelayState
restarted s index = record s {
  current = s.stored;
  revoked = index;
  disconnected = [];
  shut_down = false;
  enrollment_revoked = false;
}

module _ (p : Platform) (before : String → String → Bool) (fault : RevocationUpdate → Option String)
    (update_json : RevocationUpdate → String) (id : String) (exp : ℕ) where
  -- Requests that arrive in the order of the clock, and restarts. What Control publishes of the
  -- identity never lasts shorter than `exp`.
  pub data Updates (s : RelayState) (start : ℕ) : ℕ → RelayState → Type 0 where
    received : Updates s start start s
    applied :
        {last : ℕ} {middle : RelayState} (arrival now : ℕ) (update : RevocationUpdate)
        (signature : String)
        → Updates s start last middle
        → last ≤ now
        → Lasting p id 0 exp update.revocations
        → Updates s start now (
            settle
              (apply_revocation_update p before fault update_json update signature arrival now
                middle)
              middle)
    restarts :
        {last : ℕ} {middle : RelayState} {index : List Entry}
        → Updates s start last middle
        → middle.marker_stored ≡ false
        → validate_revocations p middle.stored middle.audience ≡ ok index
        → Updates s start last (restarted middle index)

  module _ (gen : ℕ) where
    Lasting-any : (rs : List Revocation) → Lasting p id 0 exp rs → Lasting p id gen exp rs
    Lasting-any rs h = h

    later :
        (last now : ℕ) (s : RelayState)
        → last ≤ now
        → Revokes p before fault id gen exp last s
        → Revokes p before fault id gen exp now s
    later last now s le (inl gone) = inl (omega (arith, le, gone))
    later last now s le (inr held) = inr held

    Updates-Revokes :
        {s : RelayState} {start last : ℕ} {after : RelayState}
        → Consistent p s
        → Revokes p before fault id gen exp start s
        → Updates s start last after
        → Consistent p after × Revokes p before fault id gen exp last after
    Updates-Revokes c v received = (c, v)
    Updates-Revokes c v (applied {last = last} {middle = m} arrival now u g run le lasting) =
        let q = Updates-Revokes c v run in
        let held = later last now m le q.1 in
        let request = apply_revocation_update p before fault update_json u g arrival now m in
        (
          settle-Ensures (Consistent p) request m q.0 (
              apply-Ensures p before fault (Consistent p) update_json u g arrival now m q.0
                (prune_expired-Consistent p before fault now m)
                (λ delta. newer_version-Consistent p before fault arrival now u delta m)),
          settle-Ensures (Revokes p before fault id gen exp now) request m held (
              apply-Ensures p before fault (Revokes p before fault id gen exp now) update_json u g
                arrival now m held (prune_expired-Revokes p before fault id gen exp now m held)
                (λ delta.
                  newer_version-Revokes p before fault id gen exp arrival now u delta m lasting
                    held)),
        )
    Updates-Revokes c v (restarts {last = last} {middle = m} {index = index} run unmarked e) =
        let q = Updates-Revokes c v run in
        (
          record { index = e; durable = refl },
          subst
              (λ (u : RevocationUpdate).
                (exp ≤ last)
                ⊎ (Strong p id gen exp u.revocations × Listed p id gen exp u.revocations))
              (sym q.0.durable) q.1,
        )

    index-Covers :
        (update : RevocationUpdate) (audience : String)
        → Strong p id gen exp update.revocations
        → Listed p id gen exp update.revocations
        → Ensures
            (λ index. Covers p id gen exp (lookup index id))
            (validate_revocations p update audience)
    unfolding validate_revocations
    index-Covers update audience h k = Ensures-bind _ _ λ _ _. Ensures-bind _ _ λ _ _.
        Ensures-then _ _ (entries-Covers p id gen exp update.revocations h k)
          λ index c. Ensures-bind _ _ λ _ _. Ensures-ok c

    -- A relay holds revocations that cover an identity through `gen` and at least until `exp`. Then it
    -- refuses the credentials of a generation up to `gen` that expire by `exp` for good: after any
    -- requests in the order of the clock, accepted or not, and restarts, at any time from the last of
    -- them on, provided that none of the updates has a revocation of the identity that expires before
    -- `exp`.
    pub revoked-denied :
        {s : RelayState} {start last : ℕ} {after : RelayState} (now : ℕ) (text signature : String)
        (credential : RelayCredential)
        → Consistent p s
        → Strong p id gen exp s.current.revocations
        → Listed p id gen exp s.current.revocations
        → Updates s start last after
        → last ≤ now
        → p.decode_credential text ≡ some (credential, signature)
        → credential.generation ≤ gen
        → credential.expires_at ≤ exp
        → ¬ (on_connect p (some text) id now after ≡ ok tt)
    unfolding on_connect
    revoked-denied {last = last} {after = after} now text signature credential c strong listed run
          le decoded older sooner admitted =
        let q = Updates-Revokes c (inr (strong, listed)) run in
        let fresh =
          (Ensures-bind (reject_if after.enrollment_revoked "Relay enrollment is revoked") _ λ _ _.
              admit-Fresh p text id after.authority_id after.audience signature after.revoked now
                credential decoded).value
            tt admitted in
        refuse q.0 q.1 fresh
      where
        refuse :
            Consistent p after
            → Revokes p before fault id gen exp last after
            → (now < credential.expires_at)
              × (revoked_through (lookup after.revoked id) now < credential.generation)
            → ⊥
        refuse c' (inl gone) fresh = omega (arith, le, gone, sooner, fresh.0)
        refuse c' (inr (h, k)) fresh =
            let cover =
              (index-Covers after.current after.audience h k).value after.revoked c'.index in
            covered-refused p (lookup after.revoked id) cover.0.0 cover.0.1.0 cover.0.1.1 now
              credential.generation credential.expires_at cover.1 (omega (arith, older, cover.2))
              (omega (arith, sooner, cover.3)) fresh.0 fresh.1
