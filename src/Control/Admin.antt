-- ===== src/Control/Admin.antt =====
-- The commands of the local administration socket that change the state
-- (crates/as-control/src/main.rs, dispatch_local_admin and local_create_invite).
use agent_scale.Base.{
  ℕ, String, ◌&&◌, ◌||◌, Option, none, [], ◌∷◌, ◌==◌, holds, any, find, split_once, Result, ok, err,
  ok_or, reject_if, ◌>>=◌, ◌>>◌, map_err, ◌<>◌,
}
use agent_scale.Control.Errors.{ApiError, bad, conflict}
use agent_scale.Control.Wire.{InviteKind, client, edge, relay, InviteResult}
use agent_scale.Control.State.{
  ControlState, InviteRecord, InviteState, pending, claimed, revoked, put_invite, put_edge,
  put_provisioner, delete_relay, delete_provisioner, topology, revocation,
}
use agent_scale.Control.Commit.{Decision, answer, commit, Store, ApplyDelta, run_section}
use agent_scale.Control.Platform.{Platform}
use agent_scale.Control.Checks.{client_named, client_id_by_name, validate_name}
use agent_scale.Control.Invites.{
  validate_invite_name, build_invite, find_invite, invite_is_active_pending,
}
use agent_scale.Control.Removal.{client_removal, edge_removal, check_client_unused}
use agent_scale.Control.Provisioner.{revoked_record}

-- The mutating commands; those that only list are queries of the state.
pub data LocalAdminRequest : Type 0 where
  invite_client : String → ℕ → LocalAdminRequest
  invite_edge : String → String → ℕ → LocalAdminRequest
  invite_relay : String → String → ℕ → LocalAdminRequest
  revoke_invite : String → LocalAdminRequest
  remove_client : String → LocalAdminRequest
  transfer_edge : String → String → LocalAdminRequest
  remove_edge : String → LocalAdminRequest
  remove_relay : String → LocalAdminRequest
  add_provisioner : String → String → LocalAdminRequest
  remove_provisioner : String → LocalAdminRequest

pub data LocalAdminResponse : Type 0 where
  invite_response : InviteResult → LocalAdminResponse
  ok_response : LocalAdminResponse

unfoldable pub parse_edge_ref : String → Result ApiError (String × String)
parse_edge_ref value = ok_or (split_once b'/' value) (bad "edge must be written as <client>/<edge>")

abbrev done : ControlState → Result ApiError LocalAdminResponse
done _ = ok ok_response

unfoldable pub revoke_pending : InviteRecord → ℕ → InviteState → Decision LocalAdminResponse
revoke_pending r now pending = ok (commit (topology (put_invite (revoked_record r now) ∷ [])) done)
revoke_pending r now claimed = err (conflict "claimed invites cannot be revoked")
revoke_pending r now revoked = ok (answer ok_response)

unfoldable pub admin_revoke_invite : String → ℕ → ControlState → Decision LocalAdminResponse
unfolding revoke_pending
admin_revoke_invite invite_id now state = do
  r ← ok_or (find_invite state invite_id) (bad "unknown invite")
  revoke_pending r now r.state

unfoldable pub admin_remove_client : String → ℕ → ControlState → Decision LocalAdminResponse
admin_remove_client name scan state = do
  c ← ok_or (client_named state name) (bad ("unknown client '" <> name <> "'"))
  check_client_unused state scan c
  ok (commit (client_removal state c) done)

unfoldable pub admin_transfer_edge : String → String → ControlState → Decision LocalAdminResponse
admin_transfer_edge edge_ref new_client state = do
  (owner_name, edge_name) ← parse_edge_ref edge_ref
  old_owner ← client_id_by_name state owner_name
  new_owner ← client_id_by_name state new_client
  reject_if (any (λ item. item.owner_id == new_owner && item.name == edge_name) state.edges)
      (conflict "target client already has an edge with this name")
  e ←
      ok_or (find (λ item. item.owner_id == old_owner && item.name == edge_name) state.edges)
        (bad ("unknown edge '" <> edge_ref <> "'"))
  ok (commit (topology (put_edge (record e { owner_id = new_owner }) ∷ [])) done)

unfoldable pub admin_remove_edge : String → ControlState → Decision LocalAdminResponse
admin_remove_edge edge_ref state = do
  (owner_name, edge_name) ← parse_edge_ref edge_ref
  owner_id ← client_id_by_name state owner_name
  e ←
      ok_or (find (λ item. item.owner_id == owner_id && item.name == edge_name) state.edges)
        (bad ("unknown edge '" <> edge_ref <> "'"))
  ok (commit (edge_removal state e) done)

unfoldable pub admin_remove_relay : String → ControlState → Decision LocalAdminResponse
admin_remove_relay name state = do
  r ← ok_or (find (λ item. item.name == name) state.relays) (bad ("unknown relay '" <> name <> "'"))
  ok (commit (revocation (delete_relay r.endpoint_id ∷ [])) done)

unfoldable pub admin_add_provisioner : String → String → ControlState → Decision LocalAdminResponse
admin_add_provisioner name endpoint_id state = do
  reject_if (any (λ item. item.name == name || item.endpoint_id == endpoint_id) state.provisioners)
      (conflict "provisioner name or identity already exists")
  ok (
      commit (topology (put_provisioner (record { name = name; endpoint_id = endpoint_id }) ∷ []))
        done)

unfoldable pub admin_remove_provisioner : String → ℕ → ControlState → Decision LocalAdminResponse
admin_remove_provisioner name scan state = do
  provisioner ←
      ok_or (find (λ item. item.name == name) state.provisioners)
        (bad ("unknown provisioner '" <> name <> "'"))
  reject_if (any (λ item. holds item.managed_by provisioner.endpoint_id) state.clients)
      (conflict "provisioner still manages clients")
  reject_if
      (any
        (λ item.
          invite_is_active_pending scan item && holds item.managed_by provisioner.endpoint_id)
        state.invites)
      (conflict "provisioner still owns pending invites")
  ok (commit (topology (delete_provisioner provisioner.endpoint_id ∷ [])) done)

module _ (p : Platform) (key : String) where
  -- The section of `local_create_invite`, after the name was validated.
  unfoldable pub create_invite_section :
      String
      → InviteKind
      → ℕ
      → Option String
      → ℕ
      → ℕ
      → String
      → String
      → ControlState
      → Decision LocalAdminResponse
  create_invite_section name kind ttl_secs managed_by scan now secret invite_id state = do
    validate_invite_name state scan name kind
    (result, r) ← map_err bad (build_invite p key state name kind ttl_secs secret now invite_id)
    ok (
        commit (topology (put_invite (record r { managed_by = managed_by }) ∷ []))
          (λ _. ok (invite_response result)))

  module _ {D : Type 0} (apply_delta : ApplyDelta D) where
    unfoldable pub local_create_invite :
        String
        → InviteKind
        → ℕ
        → Option String
        → ℕ
        → ℕ
        → String
        → String
        → Store D
        → Result ApiError LocalAdminResponse × Store D
    local_create_invite name kind ttl_secs managed_by scan now secret invite_id store =
        elim (map_err bad (validate_name name)) [
          | ok _ ↦
              run_section apply_delta
                (create_invite_section name kind ttl_secs managed_by scan now secret invite_id)
                store
          | err e ↦ (err e, store)
        ]

    -- The first section of `InviteEdge` only reads the owner. The lock is released before the second.
    unfoldable pub edge_invite_owner :
        String → ControlState → Result ApiError (String × Option String)
    edge_invite_owner owner state = do
      c ← ok_or (client_named state owner) (bad ("unknown client '" <> owner <> "'"))
      ok (c.endpoint_id, c.managed_by)

    -- One command at a time. `scan` and `now` are readings of the clock.
    unfoldable pub dispatch_local_admin :
        LocalAdminRequest
        → ℕ
        → ℕ
        → String
        → String
        → Store D
        → Result ApiError LocalAdminResponse × Store D
    dispatch_local_admin (invite_client name ttl_secs) scan now secret invite_id store =
        local_create_invite name client ttl_secs none scan now secret invite_id store
    dispatch_local_admin (invite_edge name owner ttl_secs) scan now secret invite_id store =
        elim (edge_invite_owner owner store.state) [
          | ok (owner_id, managed_by) ↦
              local_create_invite name (edge owner_id) ttl_secs managed_by scan now secret invite_id
                store
          | err e ↦ (err e, store)
        ]
    dispatch_local_admin (invite_relay name url ttl_secs) scan now secret invite_id store =
        elim (ok_or (p.normalize_relay_url url) (bad "invalid relay URL")) [
          | ok normal ↦
              local_create_invite name (relay normal) ttl_secs none scan now secret invite_id store
          | err e ↦ (err e, store)
        ]
    dispatch_local_admin (revoke_invite invite) scan now secret invite_id store =
        run_section apply_delta (admin_revoke_invite invite now) store
    dispatch_local_admin (remove_client name) scan now secret invite_id store =
        run_section apply_delta (admin_remove_client name scan) store
    dispatch_local_admin (transfer_edge edge_ref new_client) scan now secret invite_id store =
        run_section apply_delta (admin_transfer_edge edge_ref new_client) store
    dispatch_local_admin (remove_edge edge_ref) scan now secret invite_id store =
        run_section apply_delta (admin_remove_edge edge_ref) store
    dispatch_local_admin (remove_relay name) scan now secret invite_id store =
        run_section apply_delta (admin_remove_relay name) store
    dispatch_local_admin (add_provisioner name endpoint_text) scan now secret invite_id store =
        let parsed : Result ApiError String = do
          map_err bad (validate_name name)
          ok_or (p.parse_endpoint endpoint_text) (bad "invalid provisioner endpoint id")
        in elim parsed [
          | ok endpoint_id ↦ run_section apply_delta (admin_add_provisioner name endpoint_id) store
          | err e ↦ (err e, store)
        ]
    dispatch_local_admin (remove_provisioner name) scan now secret invite_id store =
        run_section apply_delta (admin_remove_provisioner name scan) store
