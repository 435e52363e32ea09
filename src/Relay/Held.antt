-- ===== src/Relay/Held.antt =====
-- What a relay holds of an identity before it merges an update: the revocations that have not expired,
-- as a map from identities (crates/as-relay/src/main.rs, apply_revocation_update).
use agent_scale.Base.{
  ℕ, String, Bool, true, ◌≡◌, refl, sym, ap, ◌∙◌, subst, ◌≤◌, ◌<◌, ◌==◌, ==_of_eq, eq_of_==, ltb,
  true-ltb, Bool-cases, inl, inr, Option, none, some, List, [], ◌∷◌, any, All, All-upsert_record,
  Distinct, any-upsert_record, any_of_find, find-upsert_record, holds, arith,
}
use agent_scale.Control.Platform.{Platform}
use agent_scale.Control.Watch.{Revocation}
use agent_scale.Invariant.Changes.{ids-upsert}
use agent_scale.Relay.Update.{Merged, insert, insert_parsed, unexpired}

module _ (p : Platform) (id : String) (gen exp : ℕ) where
  -- A revocation covers the credentials of a generation and an expiry.
  abbrev pub Covering : Revocation → Type 0
  Covering r = (gen ≤ r.revoked_through_generation) × (exp ≤ r.expires_at)

  abbrev pub is_of : Revocation → Bool
  is_of r = holds (p.parse_endpoint r.endpoint_id) id

  -- Revocations that revoke an identity: it is listed, and whatever lists it covers.
  abbrev pub Strong : List Revocation → Type 0
  Strong rs = All (λ r. p.parse_endpoint r.endpoint_id ≡ some id → Covering r) rs

  abbrev pub Listed : List Revocation → Type 0
  Listed rs = any is_of rs ≡ true

  -- The same of the map that is merged.
  abbrev pub Strongly : Merged → Type 0
  Strongly merged = All (λ (e : String × Revocation). e.0 ≡ id → Covering e.1) merged

  abbrev pub Mapped : Merged → Type 0
  Mapped merged = any (λ (e : String × Revocation). e.0 == id) merged ≡ true

  abbrev pub Parsed : Merged → Type 0
  Parsed merged =
      All (λ (e : String × Revocation). p.parse_endpoint e.1.endpoint_id ≡ some e.0) merged

  pub insert-Mapped :
      (k : String) (r : Revocation) (merged : Merged) → Mapped merged → Mapped (insert k r merged)
  insert-Mapped k r merged h =
      any-upsert_record (λ (e : String × Revocation). e.0 == id) merged (k, r) _
        (λ x same mine. ==_of_eq _ _ (sym (eq_of_== _ _ same) ∙ eq_of_== _ _ mine)) h

  pub insert-maps : (r : Revocation) (merged : Merged) → Mapped (insert id r merged)
  insert-maps r merged =
      any_of_find (λ e. e.0 == id) (insert id r merged)
        (find-upsert_record (λ (e : String × Revocation). e.0) merged (id, r))

  insert_parsed-Strongly :
      (o : Option String) (r : Revocation) (merged : Merged)
      → (o ≡ some id → Covering r)
      → Strongly merged
      → Strongly (insert_parsed o r merged)
  unfolding insert_parsed
  insert_parsed-Strongly none r merged c h = h
  insert_parsed-Strongly (some k) r merged c h =
      All-upsert_record _ merged (k, r) _ (λ e. c (ap some e)) h

  insert_parsed-Mapped :
      (o : Option String) (r : Revocation) (merged : Merged)
      → Mapped merged
      → Mapped (insert_parsed o r merged)
  unfolding insert_parsed
  insert_parsed-Mapped none r merged h = h
  insert_parsed-Mapped (some k) r merged h = insert-Mapped k r merged h

  insert_parsed-maps :
      (o : Option String) (r : Revocation) (merged : Merged)
      → holds o id ≡ true
      → Mapped (insert_parsed o r merged)
  unfolding insert_parsed
  insert_parsed-maps none r merged h = cc
  insert_parsed-maps (some k) r merged h =
      subst (λ k'. Mapped (insert k' r merged)) (sym (eq_of_== k id h)) (insert-maps r merged)

  pub of_holds : (o : Option String) → holds o id ≡ true → o ≡ some id
  of_holds none h = cc
  of_holds (some k) h = ap some (eq_of_== k id h)

  pub unexpired-Strongly :
      (now : ℕ) (rs : List Revocation) (merged : Merged)
      → Strong rs
      → Strongly merged
      → Strongly (unexpired p now rs merged)
  unfolding unexpired
  unexpired-Strongly now [] merged h k = k
  unexpired-Strongly now (r ∷ rs) merged h k = elim (Bool-cases (ltb now r.expires_at)) [
    | inl t ↦ rw t (
        unexpired-Strongly now rs _ h.1
          (insert_parsed-Strongly (p.parse_endpoint r.endpoint_id) r merged h.0 k))
    | inr t ↦ rw t (unexpired-Strongly now rs merged h.1 k)
  ]

  unexpired-keeps :
      (now : ℕ) (rs : List Revocation) (merged : Merged)
      → Mapped merged
      → Mapped (unexpired p now rs merged)
  unfolding unexpired
  unexpired-keeps now [] merged k = k
  unexpired-keeps now (r ∷ rs) merged k = elim (Bool-cases (ltb now r.expires_at)) [
    | inl t ↦ rw t (
        unexpired-keeps now rs _ (insert_parsed-Mapped (p.parse_endpoint r.endpoint_id) r merged k))
    | inr t ↦ rw t (unexpired-keeps now rs merged k)
  ]

  -- An identity that is revoked for longer than now stays in the map.
  pub unexpired-Mapped :
      (now : ℕ) (rs : List Revocation) (merged : Merged)
      → now < exp
      → Strong rs
      → Listed rs
      → Mapped (unexpired p now rs merged)
  unfolding unexpired any
  unexpired-Mapped now [] merged alive h k = cc
  unexpired-Mapped now (r ∷ rs) merged alive h k = elim (Bool-cases (is_of r)) [
    | inl mine ↦
        let covering = h.0 (of_holds (p.parse_endpoint r.endpoint_id) mine) in
        let lasting : ltb now r.expires_at ≡ true =
          true-ltb _ _ (omega (arith, alive, covering.1)) in
        rw lasting (
          unexpired-keeps now rs _
            (insert_parsed-maps (p.parse_endpoint r.endpoint_id) r merged mine))
    | inr other ↦
        let rest : Listed rs = rw other at k in
        elim (Bool-cases (ltb now r.expires_at)) [
          | inl t ↦ rw t (unexpired-Mapped now rs _ alive h.1 rest)
          | inr t ↦ rw t (unexpired-Mapped now rs merged alive h.1 rest)
        ]
  ]

  -- The bookkeeping of the map: identities are parsed, and each is once in it.
  abbrev pub Kept : Merged → Type 0
  Kept merged = Parsed merged × Distinct (λ (e : String × Revocation). e.0) merged

  pub insert-Kept :
      (k : String) (r : Revocation) (merged : Merged)
      → p.parse_endpoint r.endpoint_id ≡ some k
      → Kept merged
      → Kept (insert k r merged)
  insert-Kept k r merged e h = (
    All-upsert_record _ merged (k, r) _ e h.0,
    ids-upsert (λ (x : String × Revocation). x.0) (k, r) merged h.1,
  )

  insert_parsed-Kept :
      (o : Option String) (r : Revocation) (merged : Merged)
      → p.parse_endpoint r.endpoint_id ≡ o
      → Kept merged
      → Kept (insert_parsed o r merged)
  unfolding insert_parsed
  insert_parsed-Kept none r merged e h = h
  insert_parsed-Kept (some k) r merged e h = insert-Kept k r merged e h

  pub unexpired-Kept :
      (now : ℕ) (rs : List Revocation) (merged : Merged)
      → Kept merged
      → Kept (unexpired p now rs merged)
  unfolding unexpired
  unexpired-Kept now [] merged h = h
  unexpired-Kept now (r ∷ rs) merged h = elim (Bool-cases (ltb now r.expires_at)) [
    | inl t ↦ rw t (
        unexpired-Kept now rs _
          (insert_parsed-Kept (p.parse_endpoint r.endpoint_id) r merged refl h))
    | inr t ↦ rw t (unexpired-Kept now rs merged h)
  ]
