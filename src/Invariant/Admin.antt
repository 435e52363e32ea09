-- ===== src/Invariant/Admin.antt =====
-- The deltas of the administration commands and of the upkeep fit a well-formed state.
use agent_scale.Base.{
  ℕ, String, ◌≡◌, refl, Bool, true, false, Option, none, some, find, All, All-map, any-All,
  find_sound, List, [], ◌∷◌, ◌++◌, map, eq_of_==, ||-false, &&-true, Ensures, Ensures-ok,
  Ensures-err, Ensures-bind, Ensures-then, Ensures-ok_or, Ensures-reject_if,
}
use agent_scale.Control.State.{
  invite_key, ControlState, ClientRecord, EdgeRecord, InviteRecord, RevocationRecord, InviteState,
  pending, claimed, revoked, StateChange, delete_invite, delete_revocation,
}
use agent_scale.Control.Wire.{InviteKind}
use agent_scale.Control.Platform.{Platform}
use agent_scale.Control.Checks.{client_named, client_with_id}
use agent_scale.Control.Commit.{Outcome}
use agent_scale.Control.Admin.{
  revoke_pending, admin_revoke_invite, admin_remove_client, admin_transfer_edge, admin_remove_edge,
  admin_remove_relay, admin_add_provisioner, admin_remove_provisioner, create_invite_section,
}
use agent_scale.Control.Upkeep.{
  stale_invites, expired_revocations, answer_if, renew_found_edge, renew_found, renew_section,
  update_port_section, cleanup_changes, cleanup_section, commit_if_any,
}
use agent_scale.Invariant.Tables.{WellFormed}
use agent_scale.Invariant.Changes.{Fits, FitsAll}
use agent_scale.Invariant.Sections.{OutcomeFits}
use agent_scale.Invariant.Enrolment.{not-same}
use agent_scale.Invariant.Removals.{
  client_removal-Fits, edge_removal-Fits, transfer-Fits, renewed_client-Fits, renewed_edge-Fits,
  update_port-Fits,
}
use agent_scale.Invariant.Handlers.{client_id_by_name-registered, check_client_unused-unowned}

-- A deletion of an invitation or a revocation fits any state.
abbrev Drops : StateChange → Type 0
Drops (delete_invite id) = Unit
Drops (delete_revocation id) = Unit
Drops _ = ⊥

Drops-Fits : (b rb : ℕ) (c : StateChange) (s : ControlState) → Drops c → Fits b rb c s
Drops-Fits b rb (delete_invite id) s d = tt
Drops-Fits b rb (delete_revocation id) s d = tt
Drops-Fits b rb _ s d = absurd d

Drops-FitsAll :
    (b rb : ℕ) (cs : List StateChange) (s : ControlState) → All Drops cs → FitsAll b rb cs s
Drops-FitsAll b rb [] s d = tt
Drops-FitsAll b rb (c ∷ cs) s d = (Drops-Fits b rb c s d.0, Drops-FitsAll b rb cs _ d.1)

All-append {ℓ κ} :
    {A : Type ℓ} (P : A → Type κ) (xs ys : List A) → All P xs → All P ys → All P (xs ++ ys)
All-append P [] ys h k = k
All-append P (x ∷ xs) ys h k = (h.0, All-append P xs ys h.1 k)

All-image {ℓ μ κ} :
    {A : Type ℓ} {B : Type μ} (P : B → Type κ) (f : A → B)
    → ((x : A) → P (f x))
    → (xs : List A) → All P (map f xs)
All-image P f h [] = tt
All-image P f h (x ∷ xs) = (h x, All-image P f h xs)

module _ (s : ControlState) (v : WellFormed s) where
  revoke_pending-Fits :
      (r : InviteRecord) (now : ℕ) (state : InviteState)
      → Ensures (OutcomeFits s) (revoke_pending r now state)
  unfolding revoke_pending
  revoke_pending-Fits r now pending = Ensures-ok (tt, tt)
  revoke_pending-Fits r now claimed = Ensures-err _
  revoke_pending-Fits r now revoked = Ensures-ok tt

  pub admin_revoke_invite-Fits :
      (id : String) (now : ℕ) → Ensures (OutcomeFits s) (admin_revoke_invite id now s)
  unfolding admin_revoke_invite
  admin_revoke_invite-Fits id now = Ensures-ok_or _ _ _ λ r _. revoke_pending-Fits r now r.state

  pub admin_remove_client-Fits :
      (name : String) (scan : ℕ) → Ensures (OutcomeFits s) (admin_remove_client name scan s)
  unfolding admin_remove_client client_named
  admin_remove_client-Fits name scan = Ensures-ok_or _ _ _ λ c found.
      Ensures-then _ _ (check_client_unused-unowned s scan c)
        λ _ unowned. Ensures-ok (client_removal-Fits s v _ found unowned)

  pub admin_transfer_edge-Fits :
      (edge_ref new_client : String)
      → Ensures (OutcomeFits s) (admin_transfer_edge edge_ref new_client s)
  unfolding admin_transfer_edge
  admin_transfer_edge-Fits edge_ref new_client = Ensures-bind _ _ λ names _.
      Ensures-bind _ _ λ old_owner _.
        Ensures-then _ _ (client_id_by_name-registered s new_client) λ new_owner registered.
          Ensures-reject_if _ _ _ λ free. Ensures-ok_or _ _ _ λ e found. Ensures-ok (
            transfer-Fits s v _ names.1 new_owner found
                (eq_of_== e.name names.1 (&&-true _ _ (find_sound _ s.edges found)).1) free
                registered,
            tt,
          )

  pub admin_remove_edge-Fits :
      (edge_ref : String) → Ensures (OutcomeFits s) (admin_remove_edge edge_ref s)
  unfolding admin_remove_edge
  admin_remove_edge-Fits edge_ref = Ensures-bind _ _ λ names _.
      Ensures-bind _ _
        λ owner _. Ensures-ok_or _ _ _ λ e found. Ensures-ok (edge_removal-Fits s v _ found)

  pub admin_remove_relay-Fits :
      (name : String) → Ensures (OutcomeFits s) (admin_remove_relay name s)
  unfolding admin_remove_relay
  admin_remove_relay-Fits name = Ensures-ok_or _ _ _ λ r _. Ensures-ok (tt, tt)

  pub admin_add_provisioner-Fits :
      (name id : String) → Ensures (OutcomeFits s) (admin_add_provisioner name id s)
  unfolding admin_add_provisioner
  admin_add_provisioner-Fits name id = Ensures-reject_if _ _ _ λ free. Ensures-ok (
    All-map _ (λ x t e. absurd (not-same x.name name (||-false _ _ t).0 e)) s.provisioners
        (any-All _ s.provisioners free),
    tt,
  )

  pub admin_remove_provisioner-Fits :
      (name : String) (scan : ℕ) → Ensures (OutcomeFits s) (admin_remove_provisioner name scan s)
  unfolding admin_remove_provisioner
  admin_remove_provisioner-Fits name scan =
      Ensures-ok_or _ _ _
        λ q _. Ensures-reject_if _ _ _ λ _. Ensures-reject_if _ _ _ λ _. Ensures-ok (tt, tt)

  pub create_invite_section-Fits :
      (p : Platform) (key name : String) (kind : InviteKind) (ttl : ℕ) (managed_by : Option String)
      (scan now : ℕ) (secret invite_id : String)
      → Ensures
          (OutcomeFits s)
          (create_invite_section p key name kind ttl managed_by scan now secret invite_id s)
  unfolding create_invite_section
  create_invite_section-Fits p key name kind ttl managed_by scan now secret invite_id =
      Ensures-bind _ _ λ _ _. Ensures-bind _ _ λ _ _. Ensures-ok (tt, tt)

  answer_if-Fits :
      {A : Type 0} (b : Bool) (a : A) (o : Outcome A)
      → OutcomeFits s o
      → Ensures (OutcomeFits s) (answer_if b a o)
  answer_if-Fits true a o h = Ensures-ok tt
  answer_if-Fits false a o h = Ensures-ok h

  renew_found_edge-Fits :
      (endpoint : String) (now : ℕ) (q : EdgeRecord → Bool) (o : Option EdgeRecord)
      → find q s.edges ≡ o
      → Ensures (OutcomeFits s) (renew_found_edge s endpoint now o)
  unfolding renew_found_edge
  renew_found_edge-Fits endpoint now q none found = Ensures-bind _ _ λ _ _. Ensures-ok tt
  renew_found_edge-Fits endpoint now q (some e) found =
      answer_if-Fits _ _ _ (renewed_edge-Fits s v q now found, tt)

  renew_found-Fits :
      (endpoint : String) (now : ℕ) (q : ClientRecord → Bool) (o : Option ClientRecord)
      → find q s.clients ≡ o
      → Ensures (OutcomeFits s) (renew_found s endpoint now o)
  unfolding renew_found
  renew_found-Fits endpoint now q none found = renew_found_edge-Fits endpoint now _ _ refl
  renew_found-Fits endpoint now q (some c) found =
      answer_if-Fits _ _ _ (renewed_client-Fits s v q now found, tt)

  pub renew_section-Fits :
      (endpoint : String) (now : ℕ) → Ensures (OutcomeFits s) (renew_section endpoint now s)
  unfolding renew_section client_with_id
  renew_section-Fits endpoint now = renew_found-Fits endpoint now _ _ refl

  pub update_port_section-Fits :
      (endpoint : String) (qad_port : Option ℕ)
      → Ensures (OutcomeFits s) (update_port_section endpoint qad_port s)
  unfolding update_port_section
  update_port_section-Fits endpoint qad_port =
      Ensures-ok_or _ _ _
        λ r found. answer_if-Fits _ _ _ (update_port-Fits s v _ qad_port found, tt)

  cleanup_changes-Drops : (now : ℕ) → All Drops (cleanup_changes now s)
  unfolding cleanup_changes
  cleanup_changes-Drops now =
      All-append Drops (map (λ r. delete_invite (invite_key r)) (stale_invites now s))
        (map (λ r. delete_revocation r.endpoint_id) (expired_revocations now s))
        (All-image Drops (λ r. delete_invite (invite_key r)) (λ r. tt) (stale_invites now s))
        (All-image Drops (λ (r : RevocationRecord). delete_revocation r.endpoint_id) (λ r. tt)
          (expired_revocations now s))

  commit_if_any-Fits :
      (cs : List StateChange) → All Drops cs → Ensures (OutcomeFits s) (commit_if_any cs)
  commit_if_any-Fits [] d = Ensures-ok tt
  commit_if_any-Fits (c ∷ cs) d =
      Ensures-ok (Drops-FitsAll s.revision s.relay_revision (c ∷ cs) s d)

  pub cleanup_section-Fits : (now : ℕ) → Ensures (OutcomeFits s) (cleanup_section now s)
  unfolding cleanup_section
  cleanup_section-Fits now = commit_if_any-Fits (cleanup_changes now s) (cleanup_changes-Drops now)
