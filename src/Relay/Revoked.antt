-- ===== src/Relay/Revoked.antt =====
-- A revocation at a relay through its later updates and restarts (crates/as-relay/src/main.rs,
-- apply_revocation_update, run and DynamicAccess::on_connect).
use agent_scale.Base.{
  false, ℕ, String, Bool, ◌≡◌, refl, ◌≤◌, ◌<◌, ◌⊎◌, inl, inr, ltb, leb, eqb, true-ltb, ltb-true,
  ltb-false, Bool-cases, Option, List, [], ◌∷◌, any, retain, All-retain, ok, arith, map_err-ok,
  Ensures, Ensures-ok, Ensures-bind, Ensures-if,
}
use agent_scale.Control.Platform.{Platform}
use agent_scale.Control.Watch.{Revocation, RevocationUpdate, Entry}
use agent_scale.Relay.Access.{validate_revocations}
use agent_scale.Relay.Update.{
  Merged, RelayState, unexpired, merge_revocations, accumulate, prune_expired, same_version,
  newer_version, update_section, apply_revocation_update,
}
use agent_scale.Relay.Held.{of_holds, is_of, Strong, Listed}
use agent_scale.Relay.Merge.{accumulated, installed, Lasting}

not_same : (a b : ℕ) → b < a → eqb a b ≡ false
not_same a b h = ground arith

module _ (p : Platform) where
  -- The index is that of the current revocations, which are also the stored ones.
  pub record Consistent (s : RelayState) : Type 0 where
    pub index : validate_revocations p s.current s.audience ≡ ok s.revoked
    pub durable : s.stored ≡ s.current

  module _ (before : String → String → Bool) (fault : RevocationUpdate → Option String) where
    pub prune_expired-Consistent :
        (now : ℕ) (s : RelayState) → Ensures Consistent (prune_expired p before fault now s)
    unfolding prune_expired
    prune_expired-Consistent now s = Ensures-bind _ _ λ active e.
        Ensures-bind _ _ λ _ _. Ensures-ok (record { index = map_err-ok _ _ _ e; durable = refl })

    -- What holds after each branch holds after an update.
    same_version-Ensures :
        (P : RelayState → Type 0) (now : ℕ) (update : RevocationUpdate) (s : RelayState)
        → P s
        → Ensures P (prune_expired p before fault now s)
        → Ensures P (same_version p before fault now update s)
    unfolding same_version
    same_version-Ensures P now update s v h = Ensures-bind _ _ λ _ _.
        Ensures-if (any (λ (r : Revocation). leb r.expires_at now) s.current.revocations)
          (prune_expired p before fault now s) (ok s) (λ _. h) λ _. Ensures-ok v

    pub apply-Ensures :
        (P : RelayState → Type 0) (update_json : RevocationUpdate → String)
        (update : RevocationUpdate) (signature : String) (arrival now : ℕ) (s : RelayState)
        → P s
        → Ensures P (prune_expired p before fault now s)
        → ((delta : List Entry)
            → Ensures P (newer_version p before fault arrival now update delta s))
        → Ensures P
            (apply_revocation_update p before fault update_json update signature arrival now s)
    unfolding apply_revocation_update update_section
    apply-Ensures P update_json update signature arrival now s v h k = Ensures-bind _ _ λ _ _.
        Ensures-bind _ _ λ delta _. Ensures-bind _ _ λ _ _.
          Ensures-if (eqb update.version s.current.version)
            (same_version p before fault now update s)
            (newer_version p before fault arrival now update delta s)
            (λ _. same_version-Ensures P now update s v h) λ _. k delta

    pub newer_version-Consistent :
        (arrival now : ℕ) (update : RevocationUpdate) (delta : List Entry) (s : RelayState)
        → Ensures Consistent (newer_version p before fault arrival now update delta s)
    unfolding newer_version
    newer_version-Consistent arrival now update delta s = Ensures-bind _ _ λ _ _.
        Ensures-bind _ _ λ _ _. Ensures-bind _ _ λ merged _. Ensures-bind _ _ λ next e.
          Ensures-bind _ _ λ _ _. Ensures-ok (record { index = map_err-ok _ _ _ e; durable = refl })

    module _ (id : String) (gen exp : ℕ) where
      -- The relay holds a revocation of the identity, or it has expired.
      abbrev pub Revokes : ℕ → RelayState → Type 0
      Revokes now s =
          (exp ≤ now)
          ⊎ (Strong p id gen exp s.current.revocations × Listed p id gen exp s.current.revocations)

      Listed-retain :
          (now : ℕ) (rs : List Revocation)
          → now < exp
          → Strong p id gen exp rs
          → Listed p id gen exp rs
          → Listed p id gen exp (retain (λ r. ltb now r.expires_at) rs)
      unfolding any retain
      Listed-retain now [] alive h k = k
      Listed-retain now (r ∷ rs) alive h k = elim (Bool-cases (is_of p id gen exp r)) [
        | inl mine ↦
            let covering = h.0 (of_holds p id gen exp (p.parse_endpoint r.endpoint_id) mine) in
            rw (true-ltb now r.expires_at (omega (arith, alive, covering.1)), mine) refl
        | inr other ↦
            let rest = Listed-retain now rs alive h.1 (rw other at k) in
            elim (Bool-cases (ltb now r.expires_at)) [
              | inl t ↦ rw (t, other) rest
              | inr t ↦ rw t rest
            ]
      ]

      pub prune_expired-Revokes :
          (now : ℕ) (s : RelayState)
          → Revokes now s
          → Ensures (Revokes now) (prune_expired p before fault now s)
      unfolding prune_expired
      prune_expired-Revokes now s v =
          Ensures-bind _ _ λ active _. Ensures-bind _ _ λ _ _. Ensures-ok (pruned v)
        where
          pruned :
              Revokes now s
              → (exp ≤ now)
                ⊎ (Strong p id gen exp (retain (λ r. ltb now r.expires_at) s.current.revocations)
                    × Listed p id gen exp
                        (retain (λ r. ltb now r.expires_at) s.current.revocations))
          pruned (inl gone) = inl gone
          pruned (inr (h, k)) = elim (Bool-cases (ltb now exp)) [
            | inl t ↦ inr (
              All-retain _ _ s.current.revocations h,
              Listed-retain now s.current.revocations (ltb-true _ _ t) h k,
            )
            | inr t ↦ inl (ltb-false _ _ t)
          ]

      pub newer_version-Revokes :
          (arrival now : ℕ) (update : RevocationUpdate) (delta : List Entry) (s : RelayState)
          → Lasting p id gen exp update.revocations
          → Revokes now s
          → Ensures (Revokes now) (newer_version p before fault arrival now update delta s)
      unfolding newer_version accumulate
      newer_version-Revokes arrival now update delta s lasting v = Ensures-bind _ _ λ _ _.
          Ensures-bind _ _ λ _ _. Ensures-bind _ _ λ merged e.
            Ensures-bind _ _ λ _ _. Ensures-bind _ _ λ _ _. Ensures-ok (merged_too merged e v)
        where
          merged_too :
              (merged : Merged)
              → merge_revocations p update.revocations (unexpired p now s.current.revocations [])
                ≡ ok merged
              → Revokes now s
              → (exp ≤ now)
                ⊎ (Strong p id gen exp (accumulate p before fault update merged).revocations
                    × Listed p id gen exp (accumulate p before fault update merged).revocations)
          merged_too merged e (inl gone) = inl gone
          merged_too merged e (inr (h, k)) = elim (Bool-cases (ltb now exp)) [
            | inl t ↦ inr (
                accumulated p id gen exp _ now (ltb-true _ _ t) update.revocations
                  s.current.revocations merged lasting h k e)
            | inr t ↦ inl (ltb-false _ _ t)
          ]

      -- What an accepted update of a newer version leaves: its version, and what it revokes.
      pub record Installed (update : RevocationUpdate) (after : RelayState) : Type 0 where
        pub version : after.current.version ≡ update.version
        pub consistent : Consistent after
        pub strong : Strong p id gen exp after.current.revocations
        pub listed : Listed p id gen exp after.current.revocations

      newer_version-Installed :
          (arrival now : ℕ) (update : RevocationUpdate) (delta : List Entry) (s : RelayState)
          → Strong p id gen exp update.revocations
          → Listed p id gen exp update.revocations
          → Ensures (Installed update) (newer_version p before fault arrival now update delta s)
      unfolding newer_version accumulate
      newer_version-Installed arrival now update delta s h k = Ensures-bind _ _ λ _ _.
          Ensures-bind _ _ λ _ _. Ensures-bind _ _ λ merged e.
            let q =
              installed p id gen exp _ now update.revocations s.current.revocations merged h k e in
            Ensures-bind _ _ λ _ index. Ensures-bind _ _ λ _ _. Ensures-ok (record {
              version = refl;
              consistent = record { index = map_err-ok _ _ _ index; durable = refl };
              strong = q.0;
              listed = q.1;
            })

      -- An update of a newer version that is accepted takes effect whatever the relay knew: the index
      -- and the stored state are those of the new revocations, at its version, and they revoke an
      -- identity that the update revokes.
      pub apply_revocation_update-Installed :
          (update_json : RevocationUpdate → String) (update : RevocationUpdate) (signature : String)
          (arrival now : ℕ) (s : RelayState)
          → s.current.version < update.version
          → Strong p id gen exp update.revocations
          → Listed p id gen exp update.revocations
          → Ensures
              (Installed update)
              (apply_revocation_update p before fault update_json update signature arrival now s)
      unfolding apply_revocation_update update_section
      apply_revocation_update-Installed update_json update signature arrival now s newer h k =
          Ensures-bind _ _ λ _ _. Ensures-bind _ _ λ delta _. Ensures-bind _ _ λ _ _.
            let other : eqb update.version s.current.version ≡ false =
              not_same update.version s.current.version newer in
            rw other (newer_version-Installed arrival now update delta s h k)
