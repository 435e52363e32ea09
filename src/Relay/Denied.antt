-- ===== src/Relay/Denied.antt =====
-- From a removal at Control to the refusal at a relay (crates/as-control/src/main.rs,
-- revocation_change and relay_watch; crates/as-relay/src/main.rs, validate_credential).
use mathlib.Core.Option.{some-injective}
use agent_scale.Base.{
  true-ltb, ltb-true, ◌≤◌, ◌<◌, ℕ, String, ◌≡◌, sym, ◌∙◌, ap, subst, true, ◌==◌, ltb, Option, some,
  List, [], ◌∷◌, map, find, retain, All, All-retain, All-upsert_record, Bool-cases, inl, inr,
  if◌then◌else◌, word_max, saturating_add, ok, arith, Ensures, Ensures-ok, Ensures-bind,
  Ensures-then, Ensures-ok_or, ensure-ok,
}
use agent_scale.Control.Wire.{RelayCredential}
use agent_scale.Control.State.{
  ControlState, ClientRecord, RevocationRecord, apply, apply_changes, apply_change,
}
use agent_scale.Control.Commit.{advance}
use agent_scale.Control.Platform.{Platform}
use agent_scale.Control.Removal.{client_removal, revocation_change, revocation_of}
use agent_scale.Control.Watch.{Revocation, Entry, published, revocation_update, entries}
use agent_scale.Relay.Access.{lookup, revoked_through, validate_revocations, admit}
use agent_scale.Removal.Revoked.{merged_id, client_removal-Revoked}

module _ (p : Platform) where
  -- The stored identity is the one that its text parses to.
  abbrev pub Canonical : String → Type 0
  Canonical id = p.parse_endpoint id ≡ some id

  -- What an admitted credential satisfies.
  pub admit-Fresh :
      (text id authority audience signature : String) (index : List Entry) (now : ℕ)
      (credential : RelayCredential)
      → p.decode_credential text ≡ some (credential, signature)
      → Ensures
          (λ _.
            (now < credential.expires_at)
            × (revoked_through (lookup index id) now < credential.generation))
          (admit p (some text) id authority audience index now)
  unfolding admit
  admit-Fresh text id authority audience signature index now credential decoded =
      Ensures-ok_or _ _ _ λ t e. Ensures-ok_or _ _ _ λ q e'. Ensures-bind _ _ λ _ _.
        Ensures-bind _ _ λ _ _. Ensures-bind _ _ λ _ _. Ensures-ok_or _ _ _ λ subject _.
          Ensures-bind _ _ λ _ _. Ensures-bind _ _ λ _ _. Ensures-bind _ _ λ _ alive. record {
            value = λ _ h.
                let same_text : text ≡ t = some-injective _ _ e in
                let same : q ≡ (credential, signature) =
                  some-injective _ _ (sym e' ∙ ap p.decode_credential (sym same_text) ∙ decoded) in
                let c = ap (λ (x : RelayCredential × String). x.0) same in
                (
                  subst (λ (x : RelayCredential). now < x.expires_at) c
                      (ltb-true now _ (ensure-ok _ _ alive)),
                  subst
                      (λ (x : RelayCredential).
                        revoked_through (lookup index id) now < x.generation)
                      c (ltb-true _ _ (ensure-ok _ _ h)),
                );
          }

  -- An entry that covers a credential never admits it: before the entry expires it is revoked, and
  -- then it has expired itself.
  pub covered-refused :
      (o : Option Entry) (id : String) (through lasting now generation expires_at : ℕ)
      → o ≡ some (id, (through, lasting))
      → generation ≤ through
      → expires_at ≤ lasting
      → now < expires_at
      → ¬ (revoked_through o now < generation)
  covered-refused o id through lasting now generation expires_at e g x alive fresh =
      let active : ltb now lasting ≡ true = true-ltb now lasting (omega arith) in
      let revoked : revoked_through o now ≡ through =
        ap (λ y. revoked_through y now) e ∙ ap (λ b. if b then through else 0) active in
      omega (arith, revoked, fresh, g)

  -- The index of an update finds what the update lists.
  entries-find :
      (rs : List Revocation) (k : String) (r : Revocation)
      → All (λ (x : Revocation). Canonical x.endpoint_id) rs
      → find (λ (x : Revocation). x.endpoint_id == k) rs ≡ some r
      → Ensures
          (λ index.
            lookup index k ≡ some (r.endpoint_id, (r.revoked_through_generation, r.expires_at)))
          (entries p rs)
  unfolding entries find
  entries-find [] k r canonical found = cc
  entries-find (x ∷ xs) k r canonical found = Ensures-ok_or _ _ _ λ id e.
      let same : id ≡ x.endpoint_id = some-injective _ _ (sym e ∙ canonical.0) in
      elim (Bool-cases (x.endpoint_id == k)) [
        | inl t ↦
            let q : x ≡ r = some-injective _ _ (rw t at found) in
            Ensures-bind _ _ λ rest _. Ensures-ok (
              rw (same, t)
                (ap
                  (λ (y : Revocation).
                    some (y.endpoint_id, (y.revoked_through_generation, y.expires_at)))
                  q))
        | inr f ↦
            Ensures-then _ _ (entries-find xs k r canonical.1 (rw f at found))
              λ rest h. Ensures-ok (rw (same, f) h)
      ]

  feed-find :
      (xs : List RevocationRecord) (known : ℕ) (k : String) (m : RevocationRecord)
      → find (λ (x : RevocationRecord). x.endpoint_id == k) xs ≡ some m
      → known < m.revision
      → find
          (λ (x : Revocation). x.endpoint_id == k)
          (map published (retain (λ (r : RevocationRecord). ltb known r.revision) xs))
        ≡ some (published m)
  unfolding find retain
  feed-find [] known k m found newer = cc
  feed-find (x ∷ xs) known k m found newer = elim (Bool-cases (x.endpoint_id == k)) [
    | inl t ↦
        let same : x ≡ m = some-injective _ _ (rw t at found) in
        rw
          (
            true-ltb known x.revision
                (subst (λ (y : RevocationRecord). known < y.revision) (sym same) newer),
            t,
          )
          (ap (λ y. some (published y)) same)
    | inr f ↦ elim (Bool-cases (ltb known x.revision)) [
      | inl n ↦ rw (n, f) (feed-find xs known k m (rw f at found) newer)
      | inr n ↦ rw n (feed-find xs known k m (rw f at found) newer)
    ]
  ]

  All-published :
      (xs : List RevocationRecord)
      → All (λ (x : RevocationRecord). Canonical x.endpoint_id) xs
      → All (λ (x : Revocation). Canonical x.endpoint_id) (map published xs)
  All-published [] h = tt
  All-published (x ∷ xs) h = (h.0, All-published xs h.1)

  after-Canonical :
      (s : ControlState) (c : ClientRecord) (b rb : ℕ)
      → Canonical c.endpoint_id
      → All (λ (r : RevocationRecord). Canonical r.endpoint_id) s.revocations
      → All
          (λ (r : RevocationRecord). Canonical r.endpoint_id)
          (advance (client_removal s c) b rb s).revocations
  unfolding client_removal revocation_change advance apply apply_changes apply_change
  after-Canonical s c b rb own others =
      All-upsert_record _ s.revocations _ _
        (subst Canonical
          (sym (
            merged_id (revocation_of s c.endpoint_id) c.endpoint_id c.credential_generation
              c.credential_expires_at (saturating_add s.relay_revision 1)))
          own)
        others

  -- The index of the update after a removal has the entry of the removed client.
  update-find :
      (s : ControlState) (c : ClientRecord) (b rb known issued : ℕ) (audience : String)
      → Canonical c.endpoint_id
      → All (λ (r : RevocationRecord). Canonical r.endpoint_id) s.revocations
      → (m : RevocationRecord)
      → revocation_of (advance (client_removal s c) b rb s) c.endpoint_id ≡ some m
      → known < m.revision
      → Ensures
          (λ index.
            lookup index c.endpoint_id
            ≡ some (m.endpoint_id, (m.revoked_through_generation, m.expires_at)))
          (validate_revocations p
            (revocation_update (advance (client_removal s c) b rb s) known issued)
            audience)
  unfolding validate_revocations revocation_update
  update-find s c b rb known issued audience own others m listed newer =
      let after = (advance (client_removal s c) b rb s).revocations in
      Ensures-bind _ _ λ _ _. Ensures-bind _ _ λ _ _.
        Ensures-then _ _
          (entries-find _ c.endpoint_id (published m)
            (All-published _ (All-retain _ _ after (after-Canonical s c b rb own others)))
            (feed-find after known c.endpoint_id m listed newer))
          λ index h. Ensures-bind _ _ λ _ _. Ensures-ok h

  -- A relay that has built its index from Control's update refuses the credentials of a client that
  -- was removed, at any time: the update was asked for from a revision that the relay had applied
  -- before the removal, the relay revisions have not run out, Control stores identities as they are
  -- parsed, and the credential has at most the generation and the expiry of the client's record.
  pub removed_client-denied :
      (s : ControlState) (c : ClientRecord) (b rb known issued now : ℕ)
      (audience authority text signature : String) (credential : RelayCredential)
      (index : List Entry)
      → known ≤ s.relay_revision
      → s.relay_revision < word_max
      → Canonical c.endpoint_id
      → All (λ (r : RevocationRecord). Canonical r.endpoint_id) s.revocations
      → validate_revocations p
          (revocation_update (advance (client_removal s c) b rb s) known issued)
          audience
        ≡ ok index
      → p.decode_credential text ≡ some (credential, signature)
      → credential.generation ≤ c.credential_generation
      → credential.expires_at ≤ c.credential_expires_at
      → ¬ (admit p (some text) c.endpoint_id authority audience index now ≡ ok tt)
  removed_client-denied s c b rb known issued now audience authority text signature credential index
        applied room own others built decoded older sooner admitted =
      let gone = (client_removal-Revoked s b rb c).revoked in
      let entry = gone.entry in
      let found =
        (update-find s c b rb known issued audience own others entry gone.listed
            (subst (λ n. known < n) (sym gone.covers.published) (omega arith))).value
          index built in
      let fresh =
        (admit-Fresh text c.endpoint_id authority audience signature index now credential
            decoded).value
          tt admitted in
      covered-refused (lookup index c.endpoint_id) entry.endpoint_id
        entry.revoked_through_generation entry.expires_at now credential.generation
        credential.expires_at found (omega (arith, older, gone.covers.through))
        (omega (arith, sooner, gone.covers.lasting)) fresh.0 fresh.1
