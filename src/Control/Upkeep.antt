-- ===== src/Control/Upkeep.antt =====
-- Upkeep of the state: renewing a node's relay credential, updating a relay's port, and dropping
-- what has expired (crates/as-control/src/main.rs).
use agent_scale.Base.{
  eqb, length, ℕ, String, Bool, true, false, not, Option, none, some, List, [], ◌∷◌, ◌++◌, map,
  ◌==◌, ltb, leb, find, retain, Result, ok, err, ok_or, ◌>>=◌, ◌>>◌, saturating_add,
}
use agent_scale.Control.Errors.{ApiError, forbidden}
use agent_scale.Control.State.{
  ControlState, ClientRecord, EdgeRecord, InviteRecord, InviteState, pending, RevocationRecord,
  StateChange, put_client, put_edge, put_relay, delete_invite, delete_revocation, quiet, topology,
  relay_credential_lifetime_secs, relay_credential_renew_before_secs, invitation_retention_secs,
  invite_key,
}
use agent_scale.Control.Commit.{Outcome, Decision, answer, commit, Store, ApplyDelta, run_section}
use agent_scale.Control.Checks.{anyhow_node_exists, client_with_id}
use agent_scale.Control.Map.{edge_with_id}
use agent_scale.Control.Claim.{port_eq}

abbrev pub renew_at : ℕ → ℕ
renew_at now = saturating_add now relay_credential_renew_before_secs

abbrev pub renewed_client : ClientRecord → ℕ → ClientRecord
renewed_client r now = record r {
  credential_issued_at = now;
  credential_expires_at = saturating_add now relay_credential_lifetime_secs;
}

abbrev pub renewed_edge : EdgeRecord → ℕ → EdgeRecord
renewed_edge r now = record r {
  credential_issued_at = now;
  credential_expires_at = saturating_add now relay_credential_lifetime_secs;
}

-- The early answer, or else the commit.
abbrev pub answer_if : {A : Type 0} → Bool → A → Outcome A → Decision A
answer_if true a rest = ok (answer a)
answer_if false a rest = ok rest

-- What either section does for a node that is no client and no edge.
unfoldable pub no_credential : ControlState → String → Decision Bool
no_credential state endpoint = do anyhow_node_exists state endpoint; ok (answer false)

unfoldable pub renew_found_edge : ControlState → String → ℕ → Option EdgeRecord → Decision Bool
unfolding no_credential
renew_found_edge state endpoint now none = no_credential state endpoint
renew_found_edge state endpoint now (some r) =
    answer_if (ltb (renew_at now) r.credential_expires_at) false
      (commit (quiet (put_edge (renewed_edge r now) ∷ [])) (λ _. ok true))

unfoldable pub renew_found : ControlState → String → ℕ → Option ClientRecord → Decision Bool
unfolding renew_found_edge
renew_found state endpoint now none =
    renew_found_edge state endpoint now (edge_with_id state endpoint)
renew_found state endpoint now (some r) =
    answer_if (ltb (renew_at now) r.credential_expires_at) false
      (commit (quiet (put_client (renewed_client r now) ∷ [])) (λ _. ok true))

-- The locked section that renews. The section before it, under its own lock, asks the same
-- questions and only decides whether to queue.
unfoldable pub renew_section : String → ℕ → ControlState → Decision Bool
unfolding renew_found
renew_section endpoint now state = renew_found state endpoint now (client_with_id state endpoint)

-- Whether the first section queues a renewal.
abbrev pub due : ℕ → ℕ → Bool
due now expires_at = not (ltb (renew_at now) expires_at)

unfoldable pub renewal_due : String → ℕ → ControlState → Result ApiError Bool
renewal_due endpoint now state = elim (client_with_id state endpoint) [
  | some r ↦ ok (due now r.credential_expires_at)
  | none ↦ elim (edge_with_id state endpoint) [
    | some r ↦ ok (due now r.credential_expires_at)
    | none ↦ do anyhow_node_exists state endpoint; ok false
  ]
]

unfoldable pub update_port_section : String → Option ℕ → ControlState → Decision Unit
update_port_section endpoint qad_port state = do
  r ←
      ok_or (find (λ item. item.endpoint_id == endpoint) state.relays)
        (forbidden "relay is not registered")
  answer_if (port_eq r.qad_port qad_port) tt
      (commit (topology (put_relay (record r { qad_port = qad_port }) ∷ [])) (λ _. ok tt))

-- When an invitation stopped mattering.
abbrev pub settled_at : Option ℕ → ℕ → ℕ
settled_at none now = now
settled_at (some t) now = t

abbrev pub terminal_time : InviteRecord → ℕ → InviteState → ℕ
terminal_time r now pending = r.invite.expires_at
terminal_time r now _ = settled_at r.terminal_at now

unfoldable pub invite_is_stale : ℕ → InviteRecord → Bool
invite_is_stale now r =
    leb (saturating_add (terminal_time r now r.state) invitation_retention_secs) now

abbrev pub stale_invites : ℕ → ControlState → List InviteRecord
stale_invites now state = retain (invite_is_stale now) state.invites

abbrev pub expired_revocations : ℕ → ControlState → List RevocationRecord
expired_revocations now state = retain (λ r. leb r.expires_at now) state.revocations

unfoldable pub cleanup_changes : ℕ → ControlState → List StateChange
cleanup_changes now state =
    map (λ r. delete_invite (invite_key r)) (stale_invites now state)
    ++ map (λ r. delete_revocation r.endpoint_id) (expired_revocations now state)

abbrev pub commit_if_any : List StateChange → Decision Unit
commit_if_any [] = ok (answer tt)
commit_if_any (c ∷ cs) = ok (commit (quiet (c ∷ cs)) (λ _. ok tt))

-- One round of `invitation_cleanup_loop`.
unfoldable pub cleanup_section : ℕ → ControlState → Decision Unit
cleanup_section now state = commit_if_any (cleanup_changes now state)

-- The cleanup of the startup, in place: the state, and whether records were dropped.
unfoldable pub cleanup_invitations : ControlState → ℕ → ControlState × Bool
cleanup_invitations state now =
    let kept =
      retain (λ r. ltb now (saturating_add (terminal_time r now r.state) invitation_retention_secs))
        state.invites in
    (record state { invites = kept }, not (eqb (length kept) (length state.invites)))

unfoldable pub cleanup_revocations : ControlState → ℕ → ControlState × Bool
cleanup_revocations state now =
    let kept = retain (λ r. ltb now r.expires_at) state.revocations in
    (record state { revocations = kept }, not (eqb (length kept) (length state.revocations)))

module _ {D : Type 0} (apply_delta : ApplyDelta D) where
  -- With nothing between its two sections.
  unfoldable pub renew_relay_credential_if_needed :
      String → ℕ → Store D → Result ApiError Bool × Store D
  renew_relay_credential_if_needed endpoint now store =
      elim (renewal_due endpoint now store.state) [
        | ok true ↦ run_section apply_delta (renew_section endpoint now) store
        | ok false ↦ (ok false, store)
        | err e ↦ (err e, store)
      ]

  unfoldable pub update_relay_qad_port_if_needed :
      String → Option ℕ → Store D → Result ApiError Unit × Store D
  update_relay_qad_port_if_needed endpoint qad_port store =
      run_section apply_delta (update_port_section endpoint qad_port) store

  unfoldable pub invitation_cleanup : ℕ → Store D → Store D
  invitation_cleanup now store = (run_section apply_delta (cleanup_section now) store).1
