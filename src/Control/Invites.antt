-- ===== src/Control/Invites.antt =====
-- Invitations: creating one, naming conflicts, and the checks of a presented token
-- (crates/as-control/src/main.rs).
use agent_scale.Base.{
  ℕ, String, Bool, true, false, not, ◌&&◌, ◌||◌, Option, none, ◌==◌, leb, ltb, any, find, Result,
  ok, ensure, ok_or, reject_if, ◌>>=◌, ◌>>◌, checked_add,
}
use agent_scale.Control.Errors.{ApiError, conflict, gone, unauthorized}
use agent_scale.Control.Wire.{
  Invite, InviteKind, client, edge, relay, invite_eq, JoinToken, InviteResult,
  control_protocol_version,
}
use agent_scale.Control.State.{ControlState, InviteRecord, InviteState, pending}
use agent_scale.Control.Platform.{Platform, hash_secret, new_token, join_url}

abbrev pub is_pending : InviteState → Bool
is_pending pending = true
is_pending _ = false

unfoldable pub invite_is_active_pending : ℕ → InviteRecord → Bool
invite_is_active_pending now record' =
    is_pending record'.state && not (ltb record'.invite.expires_at now)

-- A registered record that has the name, or for a relay the URL, already.
unfoldable pub registered_duplicate : ControlState → String → InviteKind → Bool
registered_duplicate state name client = any (λ item. item.name == name) state.clients
registered_duplicate state name (edge owner_id) =
    any (λ item. item.owner_id == owner_id && item.name == name) state.edges
registered_duplicate state name (relay url) =
    any (λ item. item.name == name || item.url == url) state.relays

-- Whether an invitation of the first kind, for the name `other`, stands in the way of one of the
-- second kind for `name`.
abbrev pub same_slot : InviteKind → String → InviteKind → String → Bool
same_slot client other client name = other == name
same_slot (edge left) other (edge right) name = left == right && other == name
same_slot (relay left) other (relay right) name = other == name || left == right
same_slot _ other _ name = false

unfoldable pub pending_duplicate : ControlState → ℕ → String → InviteKind → Bool
unfolding invite_is_active_pending
pending_duplicate state now name kind =
    any
      (λ item.
        invite_is_active_pending now item && same_slot item.invite.kind item.invite.name kind name)
      state.invites

unfoldable pub validate_invite_name : ControlState → ℕ → String → InviteKind → Result ApiError Unit
unfolding registered_duplicate pending_duplicate
validate_invite_name state now name kind =
    reject_if (registered_duplicate state name kind || pending_duplicate state now name kind)
      (conflict "name or relay URL already exists")

abbrev pub max_ttl_secs : ℕ
max_ttl_secs = 604800

abbrev pub find_invite : ControlState → String → Option InviteRecord
find_invite state invite_id = find (λ item. item.invite.invite_id == invite_id) state.invites

unfoldable pub validate_token_for_state :
    JoinToken → ControlState → String → ℕ → Result ApiError Unit
validate_token_for_state token state control_id now = do
  reject_if
      (not (token.invite.control_id == control_id)
        || not (token.invite.audience == state.audience)
        || not (token.invite.control_url == state.public_url))
      (unauthorized "invite belongs to another control")
  reject_if (ltb token.invite.expires_at now) (gone "invite expired")
  stored ← ok_or (find_invite state token.invite.invite_id) (gone "unknown invite")
  reject_if (not (invite_eq stored.invite token.invite)) (unauthorized "invite payload mismatch")

module _ (p : Platform) (key : String) where
  -- `now` is the clock's reading, and `invite_id` the 16 random bytes in base64url.
  unfoldable pub build_invite :
      ControlState
      → String
      → InviteKind
      → ℕ
      → String
      → ℕ
      → String
      → Result String (InviteResult × InviteRecord)
  build_invite state name kind ttl_secs secret now invite_id = do
    ensure (leb 1 ttl_secs && leb ttl_secs max_ttl_secs) "TTL must be between 1 second and 7 days"
    expires_at ← ok_or (checked_add now ttl_secs) "invite expiry overflow"
    let invite : Invite = record {
      protocol_version = control_protocol_version;
      audience = state.audience;
      control_url = state.public_url;
      control_id = p.public_id key;
      invite_id = invite_id;
      name = name;
      kind = kind;
      secret_hash = hash_secret p secret;
      expires_at = expires_at;
    }
    let token : JoinToken = new_token p key invite secret
    ok (
      record { invite_id = invite_id; join_url = join_url p token; expires_at = expires_at },
      record {
        invite = invite;
        state = pending;
        claimed_by = none;
        request_id = none;
        managed_by = none;
        request_hash = none;
        terminal_at = none;
      },
    )

  unfoldable pub invite_result : Invite → String → Result String InviteResult
  invite_result invite secret = do
    ensure (hash_secret p secret == invite.secret_hash)
        "join secret does not match existing request"
    ok (record {
      invite_id = invite.invite_id;
      join_url = join_url p (new_token p key invite secret);
      expires_at = invite.expires_at;
    })
