-- ===== src/Database/Diff.antt =====
-- The difference of two states whose records are the same or fewer (crates/as-control/src/db.rs,
-- apply_sync).
use mathlib.Core.Path.{subst}
use agent_scale.Base.{
  ℕ, String, Bool, true, false, not, ◌==◌, ==_refl, ◌≡◌, ◌≢◌, refl, sym, ap, ◌∙◌, eqb, Bool-cases,
  inl, inr, Option, none, some, List, [], ◌∷◌, map, any, find, retain, any_of_find, All, All-map,
  All-retain, Distinct, ==-false, arith,
}
use agent_scale.Base.Same.{All-lookup}
use agent_scale.Control.Wire.{Invite, InviteKind, client, edge, relay, invite_eq, kind_eq}
use agent_scale.Control.State.{
  ClientRecord, EdgeRecord, RelayRecord, RevocationRecord, ProvisionerRecord, InviteRecord,
  InviteState, pending, claimed, revoked,
}
use agent_scale.Enrolment.Enrolled.{port_eq_refl}
use agent_scale.Database.Sync.{
  text_eq, client_eq, edge_eq, relay_eq, revocation_record_eq, provisioner_eq, state_eq,
  invite_record_eq, equals, removed, changed,
}

text_eq_refl : (o : Option String) → text_eq o o ≡ true
text_eq_refl none = refl
text_eq_refl (some a) = ==_refl a

state_eq_refl : (s : InviteState) → state_eq s s ≡ true
state_eq_refl pending = refl
state_eq_refl claimed = refl
state_eq_refl revoked = refl

eqb_self : (n : ℕ) → eqb n n ≡ true
eqb_self n = ground arith

kind_eq_refl : (k : InviteKind) → kind_eq k k ≡ true
kind_eq_refl client = refl
kind_eq_refl (edge owner) = ==_refl owner
kind_eq_refl (relay url) = ==_refl url

pub client_eq_refl : (x : ClientRecord) → client_eq x x ≡ true
unfolding client_eq
client_eq_refl x =
    rw
      (
        ==_refl x.name,
        ==_refl x.endpoint_id,
        text_eq_refl x.managed_by,
        eqb_self x.credential_generation,
        eqb_self x.credential_issued_at,
        eqb_self x.credential_expires_at,
      )
      refl

pub edge_eq_refl : (x : EdgeRecord) → edge_eq x x ≡ true
unfolding edge_eq
edge_eq_refl x =
    rw
      (
        ==_refl x.name,
        ==_refl x.endpoint_id,
        ==_refl x.owner_id,
        eqb_self x.credential_generation,
        eqb_self x.credential_issued_at,
        eqb_self x.credential_expires_at,
      )
      refl

pub relay_eq_refl : (x : RelayRecord) → relay_eq x x ≡ true
unfolding relay_eq
relay_eq_refl x =
    rw (==_refl x.name, ==_refl x.endpoint_id, ==_refl x.url, port_eq_refl x.qad_port) refl

pub revocation_record_eq_refl : (x : RevocationRecord) → revocation_record_eq x x ≡ true
unfolding revocation_record_eq
revocation_record_eq_refl x =
    rw
      (
        ==_refl x.endpoint_id,
        eqb_self x.revoked_through_generation,
        eqb_self x.expires_at,
        eqb_self x.revision,
      )
      refl

pub provisioner_eq_refl : (x : ProvisionerRecord) → provisioner_eq x x ≡ true
unfolding provisioner_eq
provisioner_eq_refl x = rw (==_refl x.name, ==_refl x.endpoint_id) refl

invite_eq_refl : (x : Invite) → invite_eq x x ≡ true
unfolding invite_eq
invite_eq_refl x =
    rw
      (
        eqb_self x.protocol_version,
        ==_refl x.audience,
        ==_refl x.control_url,
        ==_refl x.control_id,
        ==_refl x.invite_id,
        ==_refl x.name,
        kind_eq_refl x.kind,
        ==_refl x.secret_hash,
        eqb_self x.expires_at,
      )
      refl

pub invite_record_eq_refl : (x : InviteRecord) → invite_record_eq x x ≡ true
unfolding invite_record_eq
invite_record_eq_refl x =
    rw
      (
        invite_eq_refl x.invite,
        state_eq_refl x.state,
        text_eq_refl x.claimed_by,
        text_eq_refl x.request_id,
        text_eq_refl x.managed_by,
        text_eq_refl x.request_hash,
        port_eq_refl x.terminal_at,
      )
      refl

module _ {A : Type 0} (key : A → String) where
  retain-none : (q : A → Bool) (xs : List A) → All (λ x. q x ≡ false) xs → retain q xs ≡ []
  unfolding retain
  retain-none q [] h = refl
  retain-none q (x ∷ xs) h = rw (h.0, retain-none q xs h.1) refl

  -- Records that are all kept as they were are not changed.
  changed-none :
      (eq : A → A → Bool) (previous next : List A)
      → ((x : A) → eq x x ≡ true)
      → All (λ x. find (λ y. key y == key x) previous ≡ some x) next
      → changed key eq previous next ≡ []
  unfolding changed
  changed-none eq previous next same h =
      retain-none _ next
        (All-map _ (λ x e. ap (λ o. not (equals eq o x)) e ∙ ap not (same x)) next h)

  pub changed_self :
      (eq : A → A → Bool) (xs : List A)
      → ((x : A) → eq x x ≡ true)
      → Distinct key xs
      → changed key eq xs xs ≡ []
  changed_self eq xs same d = changed-none eq xs xs same (All-lookup key xs d)

  pub changed-retain :
      (eq : A → A → Bool) (keep : A → Bool) (xs : List A)
      → ((x : A) → eq x x ≡ true)
      → Distinct key xs
      → changed key eq xs (retain keep xs) ≡ []
  changed-retain eq keep xs same d =
      changed-none eq xs (retain keep xs) same (All-retain _ keep xs (All-lookup key xs d))

  removed-by :
      (keep : A → Bool) (next xs : List A)
      → All (λ x. any (λ y. key y == key x) next ≡ keep x) xs
      → removed key xs next ≡ map key (retain (λ x. not (keep x)) xs)
  unfolding removed retain
  removed-by keep next [] h = refl
  removed-by keep next (x ∷ xs) h = elim (Bool-cases (keep x)) [
    | inl t ↦ rw (h.0, t) (removed-by keep next xs h.1)
    | inr t ↦ rw (h.0, t) (ap (λ ks. key x ∷ ks) (removed-by keep next xs h.1))
  ]

  pub removed_self : (xs : List A) → Distinct key xs → removed key xs xs ≡ []
  removed_self xs d =
      removed-by (λ _. true) xs xs
        (All-map _ (λ x e. any_of_find (λ y. key y == key x) xs e) xs (All-lookup key xs d))
      ∙ ap (map key)
          (retain-none (λ _. false) xs (All-map _ (λ x _. refl) xs (All-lookup key xs d)))

  absent :
      (x : A) (xs : List A) → All (λ y. key y ≢ key x) xs → any (λ y. key y == key x) xs ≡ false
  unfolding any
  absent x [] h = refl
  absent x (y ∷ ys) h = rw (==-false (key y) (key x) h.0) (absent x ys h.1)

  -- The records whose key is in a list are those that a test keeps.
  abbrev Keeps : (A → Bool) → List A → List A → Type 0
  Keeps keep next xs = All (λ x. any (λ y. key y == key x) next ≡ keep x) xs

  Keeps-cons :
      (keep : A → Bool) (x : A) (next ys : List A)
      → All (λ y. key y ≢ key x) ys
      → Keeps keep next ys
      → Keeps keep (x ∷ next) ys
  unfolding any
  Keeps-cons keep x next [] h k = tt
  Keeps-cons keep x next (y ∷ ys) h k =
      (rw (==-false (key x) (key y) (λ e. h.0 (sym e))) k.0, Keeps-cons keep x next ys h.1 k.1)

  found-first : (x : A) (next : List A) → any (λ y. key y == key x) (x ∷ next) ≡ true
  unfolding any
  found-first x next = rw (==_refl (key x)) refl

  retain-kept :
      (keep : A → Bool) (x : A) (xs : List A)
      → keep x ≡ true
      → retain keep (x ∷ xs) ≡ x ∷ retain keep xs
  unfolding retain
  retain-kept keep x xs t = rw t refl

  retain-dropped :
      (keep : A → Bool) (x : A) (xs : List A)
      → keep x ≡ false
      → retain keep (x ∷ xs) ≡ retain keep xs
  unfolding retain
  retain-dropped keep x xs t = rw t refl

  present : (keep : A → Bool) (xs : List A) → Distinct key xs → Keeps keep (retain keep xs) xs
  present keep [] d = tt
  present keep (x ∷ xs) d = elim (Bool-cases (keep x)) [
    | inl t ↦
        subst (λ next. Keeps keep next (x ∷ xs)) (sym (retain-kept keep x xs t))
          (
            found-first x (retain keep xs) ∙ sym t,
            Keeps-cons keep x (retain keep xs) xs d.0 (present keep xs d.1),
          )
    | inr t ↦
        subst (λ next. Keeps keep next (x ∷ xs)) (sym (retain-dropped keep x xs t))
          (absent x (retain keep xs) (All-retain _ keep xs d.0) ∙ sym t, present keep xs d.1)
  ]

  pub removed-retain :
      (keep : A → Bool) (xs : List A)
      → Distinct key xs
      → removed key xs (retain keep xs) ≡ map key (retain (λ x. not (keep x)) xs)
  removed-retain keep xs d = removed-by keep (retain keep xs) xs (present keep xs d)
