-- ===== src/Retention/Cleanup.antt =====
-- The cleanup drops exactly what has expired (crates/as-control/src/main.rs, invitation_cleanup_loop,
-- cleanup_changes and invite_is_stale).
use agent_scale.Base.{
  arith, ltb, saturating_add, ℕ, String, ◌≡◌, ◌≢◌, refl, sym, ◌∙◌, ap, Bool, not, ◌==◌, ==-false,
  ==_refl, leb, List, [], ◌∷◌, ◌++◌, map, retain, All, All-retain, Distinct, Bool-cases, inl, inr,
}
use agent_scale.Control.State.{
  invitation_retention_secs, ControlState, StateChange, delete_invite, delete_revocation,
  InviteRecord, RevocationRecord, invite_key, apply_change, apply_changes,
}
use agent_scale.Control.Upkeep.{
  cleanup_invitations, cleanup_revocations, terminal_time, invite_is_stale, stale_invites,
  expired_revocations, cleanup_changes,
}
use agent_scale.Invariant.Tables.{WellFormed}

module _ {ℓ} {A : Type ℓ} (id : A → String) where
  -- Deleting one identifier after another.
  unfoldable pub drop_all : List String → List A → List A
  drop_all [] xs = xs
  drop_all (k ∷ ks) xs = drop_all ks (retain (λ x. not (id x == k)) xs)

  retain-others :
      (k : String) (xs : List A) → All (λ y. id y ≢ k) xs → retain (λ x. not (id x == k)) xs ≡ xs
  unfolding retain
  retain-others k [] h = refl
  retain-others k (x ∷ xs) h = rw (==-false (id x) k h.0, retain-others k xs h.1) refl

  drop_all-keeps :
      (ks : List String) (x : A) (xs : List A)
      → All (λ k. k ≢ id x) ks
      → drop_all ks (x ∷ xs) ≡ x ∷ drop_all ks xs
  unfolding drop_all retain
  drop_all-keeps [] x xs h = refl
  drop_all-keeps (k ∷ ks) x xs h =
      rw (==-false (id x) k (λ e. h.0 (sym e))) (drop_all-keeps ks x _ h.1)

  drop_all-drops :
      (ks : List String) (x : A) (xs : List A)
      → All (λ y. id y ≢ id x) xs
      → drop_all (id x ∷ ks) (x ∷ xs) ≡ drop_all ks xs
  unfolding drop_all retain
  drop_all-drops ks x xs h = rw (==_refl (id x)) (ap (drop_all ks) (retain-others (id x) xs h))

  All-ids : (x : A) (xs : List A) → All (λ y. id y ≢ id x) xs → All (λ k. k ≢ id x) (map id xs)
  All-ids x [] h = tt
  All-ids x (y ∷ ys) h = (h.0, All-ids x ys h.1)

  -- Deleting the identifiers of the records that pass a test leaves those that do not.
  pub drop_all-retain :
      (q : A → Bool) (xs : List A)
      → Distinct id xs
      → drop_all (map id (retain q xs)) xs ≡ retain (λ x. not (q x)) xs
  unfolding drop_all retain
  drop_all-retain q [] d = refl
  drop_all-retain q (x ∷ xs) d = elim (Bool-cases (q x)) [
    | inl e ↦ rw e (drop_all-drops (map id (retain q xs)) x xs d.0 ∙ drop_all-retain q xs d.1)
    | inr e ↦ rw e (
        drop_all-keeps (map id (retain q xs)) x xs (All-ids x _ (All-retain _ q xs d.0))
        ∙ ap (λ ys. x ∷ ys) (drop_all-retain q xs d.1))
  ]

apply_changes-append :
    (cs ds : List StateChange) (s : ControlState)
    → apply_changes (cs ++ ds) s ≡ apply_changes ds (apply_changes cs s)
unfolding apply_changes
apply_changes-append [] ds s = refl
apply_changes-append (c ∷ cs) ds s = apply_changes-append cs ds (apply_change c s)

apply_changes-invites :
    (rs : List InviteRecord) (s : ControlState)
    → apply_changes (map (λ r. delete_invite (invite_key r)) rs) s
      ≡ record s { invites = drop_all invite_key (map invite_key rs) s.invites }
unfolding apply_changes apply_change drop_all
apply_changes-invites [] s = refl
apply_changes-invites (r ∷ rs) s = apply_changes-invites rs _

apply_changes-revocations :
    (rs : List RevocationRecord) (s : ControlState)
    → apply_changes (map (λ r. delete_revocation r.endpoint_id) rs) s ≡ record s {
      revocations = drop_all (λ r. r.endpoint_id) (map (λ r. r.endpoint_id) rs) s.revocations;
    }
unfolding apply_changes apply_change drop_all
apply_changes-revocations [] s = refl
apply_changes-revocations (r ∷ rs) s = apply_changes-revocations rs _

-- The cleanup's delta keeps, in their order, what is neither stale nor expired.
cleanup_changes-exact :
    (now : ℕ) (s : ControlState)
    → WellFormed s
    → apply_changes (cleanup_changes now s) s ≡ record s {
      invites = retain (λ r. not (invite_is_stale now r)) s.invites;
      revocations = retain (λ r. not (leb r.expires_at now)) s.revocations;
    }
unfolding cleanup_changes
cleanup_changes-exact now s v =
    apply_changes-append (map (λ r. delete_invite (invite_key r)) (stale_invites now s))
      (map (λ r. delete_revocation r.endpoint_id) (expired_revocations now s)) s
    ∙ ap (apply_changes (map (λ r. delete_revocation r.endpoint_id) (expired_revocations now s)))
        (apply_changes-invites (stale_invites now s) s)
    ∙ apply_changes-revocations (expired_revocations now s) _
    ∙ (λ i. record s {
      invites = drop_all-retain invite_key (invite_is_stale now) s.invites v.invites i;
      revocations =
          drop_all-retain (λ (r : RevocationRecord). r.endpoint_id) (λ r. leb r.expires_at now)
            s.revocations v.revocations.ids i;
    })

not-leb : (a now : ℕ) → not (leb a now) ≡ ltb now a
not-leb a now = ground arith

-- On a well-formed state the delta that the hourly cleanup commits leaves the same state as the
-- cleanup of the startup: it drops exactly the invitations and revocations whose time has come,
-- keeps the others in their order, and changes nothing else.
pub cleanup_changes-agrees :
    (now : ℕ) (s : ControlState)
    → WellFormed s
    → apply_changes (cleanup_changes now s) s
      ≡ (cleanup_revocations (cleanup_invitations s now).0 now).0
unfolding cleanup_invitations cleanup_revocations invite_is_stale
cleanup_changes-agrees now s v = cleanup_changes-exact now s v ∙ (λ i. record s {
  invites =
      retain
        (λ r.
          not-leb (saturating_add (terminal_time r now r.state) invitation_retention_secs) now i)
        s.invites;
  revocations = retain (λ r. not-leb r.expires_at now i) s.revocations;
})
