-- ===== src/Provisioning/Scope.antt =====
-- The part of the topology that a provisioner manages (crates/as-control/src/main.rs,
-- dispatch_provisioner_mutation).
use agent_scale.Base.{
  ◌⊎◌, find, ℕ, String, ◌≡◌, ap, Bool, true, false, not, ◌&&◌, ◌||◌, ◌==◌, eq_of_==, holds, eqb,
  Option, none, some, any, arith, All,
}
use agent_scale.Control.Wire.{client, edge, relay, InviteKind, ProvisionerRequest}
use agent_scale.Control.State.{
  revoked, pending, InviteRecord, ControlState, StateChange, StateDelta, delete_client, put_edge,
  delete_edge, put_invite, put_revocation,
}

-- The identity is a client that the provisioner manages.
abbrev pub manages : ControlState → String → String → Bool
manages s id k = any (λ c. c.endpoint_id == k && holds c.managed_by id) s.clients

-- The identity is an edge of a client that the provisioner manages.
abbrev pub manages_edge : ControlState → String → String → Bool
manages_edge s id k = any (λ e. e.endpoint_id == k && manages s id e.owner_id) s.edges

-- What a provisioner may invite: a client, or an edge of a client that it manages.
abbrev pub Inviteable : ControlState → String → InviteKind → Type 0
Inviteable s id client = Unit
Inviteable s id (edge owner) = manages s id owner ≡ true
Inviteable s id (relay url) = ⊥

-- A stored invitation of the provisioner, with its state and the time of that alone replaced.
pub record Revised (s : ControlState) (id : String) (r : InviteRecord) : Type 0 where
  pub stored : InviteRecord
  pub registered :
      find
        (λ item. item.invite.invite_id == r.invite.invite_id && holds item.managed_by id)
        s.invites
      ≡ some stored
  pub was_pending : stored.state ≡ pending
  pub at : ℕ
  pub revision : r ≡ record stored { state = revoked; terminal_at = some at }

-- An invitation of the provisioner: a new one that is pending and within what it may invite, or one
-- of its stored ones that is revoked.
pub record ScopedInvite (s : ControlState) (id : String) (r : InviteRecord) : Type 0 where
  pub manager : r.managed_by ≡ some id
  pub change : ((r.state ≡ pending) × Inviteable s id r.invite.kind) ⊎ Revised s id r

-- The change is within the provisioner's own part of the topology.
abbrev pub Scoped : ControlState → String → StateChange → Type 0
Scoped s id (delete_client k) = manages s id k ≡ true
Scoped s id (put_edge e) =
    (manages_edge s id e.endpoint_id ≡ true) × (manages s id e.owner_id ≡ true)
Scoped s id (delete_edge k) = manages_edge s id k ≡ true
Scoped s id (put_invite r) = ScopedInvite s id r
Scoped s id (put_revocation r) =
    (manages s id r.endpoint_id || manages_edge s id r.endpoint_id) ≡ true
Scoped s id _ = ⊥

-- The request's condition on the revision, if it has one.
abbrev pub AtRevision : ControlState → Option ℕ → Type 0
AtRevision s none = Unit
AtRevision s (some n) = n ≡ s.revision

abbrev pub Isolated : ControlState → String → ProvisionerRequest → StateDelta → Type 0
Isolated s id request delta =
    AtRevision s request.expected_revision × All (Scoped s id) delta.changes

pub not-eqb_sound : (a b : ℕ) → not (eqb a b) ≡ false → a ≡ b
not-eqb_sound a b h = ground arith

pub holds-some : (o : Option String) (s : String) → holds o s ≡ true → o ≡ some s
holds-some none s h = cc
holds-some (some t) s h = ap some (eq_of_== t s h)

pub or-intro : (a b : Bool) → b ≡ true → (a || b) ≡ true
or-intro a b h = ground arith
