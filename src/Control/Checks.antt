-- ===== src/Control/Checks.antt =====
-- The validations and lookups that the handlers of crates/as-control/src/main.rs share.
use Prim.Native.Char.{code}
use agent_scale.Base.{
  ◌+◌, ltb, if◌then◌else◌, ℕ, String, Bool, true, not, ◌&&◌, ◌||◌, Option, none, some, ◌==◌, leb,
  eqb, holds, any, find, Result, ok, ensure, ok_or, reject_if, ◌>>=◌, ◌>>◌, abs_diff, ◌<>◌,
}
use agent_scale.Control.Errors.{ApiError, bad, forbidden, conflict, unauthorized}
use agent_scale.Control.State.{ControlState, ClientRecord}

-- `value.bytes().all(test)` for a test that no byte above 127 passes: such bytes are those of the
-- characters above 127.
unfoldable pub all_bytes : (ℕ → Bool) → String → Bool
all_bytes test String.[] = true
all_bytes test (String.◌∷◌ c s) = test (code c) && all_bytes test s

unfoldable pub is_ascii_alphanumeric : ℕ → Bool
is_ascii_alphanumeric c =
    (leb b'0' c && leb c b'9') || (leb b'A' c && leb c b'Z') || (leb b'a' c && leb c b'z')

-- `String::len`: the bytes of a text in UTF-8.
abbrev pub char_size : ℕ → ℕ
char_size c = if ltb c 128 then 1 else if ltb c 2048 then 2 else if ltb c 65536 then 3 else 4

unfoldable pub byte_len : String → ℕ
byte_len String.[] = 0
byte_len (String.◌∷◌ c s) = char_size (code c) + byte_len s

-- The bytes that a name may have.
unfoldable pub is_name_byte : ℕ → Bool
unfolding is_ascii_alphanumeric
is_name_byte b = is_ascii_alphanumeric b || eqb b b'-' || eqb b b'_' || eqb b b'.'

unfoldable pub validate_name : String → Result String Unit
unfolding all_bytes is_name_byte
validate_name name = do
  ensure (not (name == "") && leb (byte_len name) 64) "name must contain 1-64 characters"
  ensure (all_bytes is_name_byte name)
      "name may contain only ASCII letters, digits, '-', '_', and '.'"

unfoldable pub validate_request_id : String → Result String Unit
unfolding all_bytes is_ascii_alphanumeric
validate_request_id value = do
  ensure (leb 1 (byte_len value) && leb (byte_len value) 128)
      "request id must contain 1-128 characters"
  ensure
      (all_bytes
        (λ b.
          is_ascii_alphanumeric b
          || eqb b b'-'
          || eqb b b'_'
          || eqb b b'.'
          || eqb b b':'
          || eqb b b'/')
        value)
      "request id contains unsupported characters"

unfoldable pub validate_join_secret : String → Result String Unit
unfolding all_bytes is_ascii_alphanumeric
validate_join_secret value = do
  ensure (leb 32 (byte_len value) && leb (byte_len value) 128)
      "join secret must contain 32-128 characters"
  ensure (all_bytes (λ b. is_ascii_alphanumeric b || eqb b b'-' || eqb b b'_') value)
      "join secret must use URL-safe base64 characters"

abbrev pub clock_skew_secs : ℕ
clock_skew_secs = 300

unfoldable pub check_time : ℕ → ℕ → Result String Unit
check_time issued_at now =
    ensure (leb (abs_diff issued_at now) clock_skew_secs) "request timestamp outside allowed window"

unfoldable pub validate_qad_port : Option ℕ → Result String Unit
validate_qad_port none = ok tt
validate_qad_port (some port) =
    ensure (not (eqb port 0)) "QAD public port must be between 1 and 65535"

-- The 1-128 characters that a nonce or a request id must have.
abbrev pub is_short : String → Bool
is_short value = not (value == "") && leb (byte_len value) 128

unfoldable pub client_named : ControlState → String → Option ClientRecord
client_named state name = find (λ client. client.name == name) state.clients

unfoldable pub client_with_id : ControlState → String → Option ClientRecord
client_with_id state id = find (λ client. client.endpoint_id == id) state.clients

unfoldable pub client_name : ControlState → String → Option String
unfolding client_with_id
client_name state id = elim (client_with_id state id) [
  | none ↦ none
  | some client ↦ some client.name
]

abbrev pub has_client : ControlState → String → Bool
has_client state id = any (λ client. client.endpoint_id == id) state.clients

abbrev pub has_edge : ControlState → String → Bool
has_edge state id = any (λ edge. edge.endpoint_id == id) state.edges

abbrev pub has_relay : ControlState → String → Bool
has_relay state id = any (λ relay. relay.endpoint_id == id) state.relays

unfoldable pub anyhow_client_exists : ControlState → String → Result ApiError Unit
anyhow_client_exists state id = ensure (has_client state id) (bad "unknown client")

unfoldable pub anyhow_node_exists : ControlState → String → Result ApiError Unit
anyhow_node_exists state id =
    ensure (has_client state id || has_edge state id) (forbidden "node is not registered")

unfoldable pub anyhow_relay_exists : ControlState → String → Result ApiError Unit
anyhow_relay_exists state id = ensure (has_relay state id) (forbidden "relay is not registered")

unfoldable pub client_id_by_name : ControlState → String → Result ApiError String
unfolding client_named
client_id_by_name state name = do
  client ← ok_or (client_named state name) (bad ("unknown client '" <> name <> "'"))
  ok client.endpoint_id

unfoldable pub managed_client_id : ControlState → String → String → Result ApiError String
managed_client_id state name provisioner_id = do
  client ←
      ok_or
        (find (λ client. client.name == name && holds client.managed_by provisioner_id)
          state.clients)
        (bad ("unknown managed client '" <> name <> "'"))
  ok client.endpoint_id

unfoldable pub authorize_provisioner : ControlState → String → String → Result ApiError Unit
authorize_provisioner state audience provisioner_id = do
  reject_if (not (audience == state.audience)) (unauthorized "control audience mismatch")
  reject_if (not (any (λ item. item.endpoint_id == provisioner_id) state.provisioners))
      (forbidden "provisioner is not registered")

module _ (decimal : ℕ → String) where
  unfoldable pub check_expected_revision : ControlState → Option ℕ → Result ApiError Unit
  check_expected_revision state none = ok tt
  check_expected_revision state (some expected) = reject_if (not (eqb expected state.revision)) (
      conflict (
        "revision mismatch: expected "
        <> decimal expected
        <> ", current "
        <> decimal state.revision))
