-- ===== src/Relay/Feed.antt =====
-- Control can always sign the update that a relay polls for (crates/as-control/src/main.rs,
-- relay_watch; crates/relay-api/src/lib.rs, RevocationUpdate::validate).
use agent_scale.Base.{
  ◌≤◌, ◌<◌, ℕ, ◌≡◌, refl, ◌∙◌, ap, true, false, not, ◌&&◌, ◌==◌, ltb, leb, List, [], ◌∷◌, map,
  retain, All, All-retain, Bool-cases, inl, inr, ok, proceed, bind_ok, ok_or-some, arith,
}
use agent_scale.Control.State.{ControlState, RevocationRecord}
use agent_scale.Control.Platform.{Platform}
use agent_scale.Control.Watch.{
  Entry, published, revocation_update, validate_entries, entries, validate_update,
}
use agent_scale.Invariant.Tables.{WellFormed, RevocationInRange}
use agent_scale.Relay.Denied.{Canonical}

positive : (n : ℕ) → 0 < n → ltb 0 n ≡ true
positive n h = ground arith

in_update :
    (known n version : ℕ) → ltb known n ≡ true → n ≤ version → (ltb 0 n && leb n version) ≡ true
in_update known n version h k = ground arith

-- The records that a relay has not seen pass the checks of an update.
validate_entries-ok :
    (bound known version : ℕ) (xs : List RevocationRecord)
    → All (RevocationInRange bound version) xs
    → validate_entries version
        (map published (retain (λ (r : RevocationRecord). ltb known r.revision) xs))
      ≡ ok tt
unfolding validate_entries retain
validate_entries-ok bound known version [] h = refl
validate_entries-ok bound known version (x ∷ xs) h = elim (Bool-cases (ltb known x.revision)) [
  | inl newer ↦ rw newer (
      proceed _ _ (positive x.revoked_through_generation h.0.0.0)
      ∙ proceed _ _ (in_update known x.revision version newer h.0.1)
      ∙ validate_entries-ok bound known version xs h.1)
  | inr older ↦ rw older (validate_entries-ok bound known version xs h.1)
]

entry_of : RevocationRecord → Entry
entry_of r = (r.endpoint_id, (r.revoked_through_generation, r.expires_at))

module _ (p : Platform) where
  entries-ok :
      (xs : List RevocationRecord)
      → All (λ (x : RevocationRecord). Canonical p x.endpoint_id) xs
      → entries p (map published xs) ≡ ok (map entry_of xs)
  unfolding entries entry_of
  entries-ok [] h = refl
  entries-ok (x ∷ xs) h = ok_or-some _ _ h.0 ∙ bind_ok _ (entries-ok xs h.1)

  -- Of a well-formed state with an audience and with identities as they are parsed, the update for
  -- any known revision passes the validation before it is signed.
  pub revocation_update-validates :
      (s : ControlState) (known now : ℕ)
      → WellFormed s
      → (s.audience == "") ≡ false
      → All (λ (x : RevocationRecord). Canonical p x.endpoint_id) s.revocations
      → validate_update p (revocation_update s known now) ≡ ok tt
  unfolding validate_update revocation_update
  revocation_update-validates s known now v audience canonical =
      proceed _ _ refl
      ∙ proceed _ _ (ap not audience)
      ∙ bind_ok _
          (validate_entries-ok s.revision known s.relay_revision s.revocations v.revocations.ranges)
      ∙ bind_ok _ (
          entries-ok (retain (λ (r : RevocationRecord). ltb known r.revision) s.revocations)
            (All-retain _ _ s.revocations canonical))
