-- ===== src/Edge/Registry.antt =====
-- The registry of an edge's MCP servers (crates/as-edge/src/mcp_registry.rs, RegistryStore;
-- crates/protocol/src/lib.rs, McpTransport and McpCatalog). Each operation holds the lock of the file
-- from its reading to its writing, and is a function of the file's text; an error leaves the file as
-- it was. JSON, the scheme of a URL, and what refuses a write are parameters. The servers are a
-- `BTreeMap`: here a list of entries, which JSON may read back in another order.
use agent_scale.Base.{
  ℕ, String, Bool, not, ◌&&◌, ◌||◌, ◌==◌, eqb, is_some, contains, Option, none, some, List, [],
  Result, ok, err, ensure, ok_or, ◌>>=◌, ◌>>◌, checked_add,
}
use agent_scale.Base.Maps.{Map, get, insert, remove}

pub data McpTransport : Type 0 where
  stdio : String → List String → Option String → McpTransport
  http sse : String → McpTransport

pub record McpCatalog : Type 0 where
  pub revision : ℕ
  pub servers : Map McpTransport

abbrev pub schema_version : ℕ
schema_version = 1

pub record RegistryFile : Type 0 where
  pub version : ℕ
  pub revision : ℕ
  pub servers : Map McpTransport

unfoldable pub default_registry : RegistryFile
default_registry = record { version = schema_version; revision = 0; servers = [] }

unfoldable pub validate_mcp_name : String → Result String Unit
validate_mcp_name name = ensure (not (name == "") && not (contains 0 name)) "invalid MCP name"

module _ (url_scheme : String → Option String) where
  unfoldable pub validate_url : String → Result String Unit
  validate_url url = do
    scheme ← ok_or (url_scheme url) "invalid MCP URL"
    ensure ((scheme == "http") || (scheme == "https")) "MCP URL must use http or https"

  unfoldable pub validate_transport : McpTransport → Result String Unit
  unfolding validate_url
  validate_transport (stdio command args cwd) =
      ensure (not (command == "")) "stdio MCP command cannot be empty"
  validate_transport (http url) = validate_url url
  validate_transport (sse url) = validate_url url

unfoldable pub saved : Option String → String → Result String (Option String)
saved none text = ok (some text)
saved (some error) text = err error

module _ (to_json : RegistryFile → String) (parse : String → Option RegistryFile) where
  unfoldable pub load_unlocked : Option String → Result String RegistryFile
  unfolding default_registry
  load_unlocked none = ok default_registry
  load_unlocked (some text) = do
    registry ← ok_or (parse text) "parse MCP registry"
    ensure (eqb registry.version schema_version) "unsupported MCP registry version"
    ok registry

  unfoldable pub list_servers : Option String → Result String McpCatalog
  unfolding load_unlocked
  list_servers file = do
    registry ← load_unlocked file
    ok (record { revision = registry.revision; servers = registry.servers })

  unfoldable pub get_server : Option String → String → Result String McpTransport
  unfolding list_servers
  get_server file name = do
    validate_mcp_name name
    catalog ← list_servers file
    ok_or (get catalog.servers name) "no MCP with this name"

  module _ (fault : String → Option String) where
    -- `save_unlocked`: the file is replaced, or it is as it was.
    unfoldable pub save_unlocked : RegistryFile → Result String (Option String)
    unfolding saved
    save_unlocked registry = saved (fault (to_json registry)) (to_json registry)

    -- The value of the change, and the file afterwards.
    unfoldable pub mutate :
        {T : Type 0}
        → (RegistryFile → Result String (T × RegistryFile))
        → Option String
        → Result String (T × Option String)
    unfolding load_unlocked save_unlocked
    mutate change file = do
      registry ← load_unlocked file
      (value, changed) ← change registry
      revision ← ok_or (checked_add changed.revision 1) "MCP registry revision overflow"
      file' ← save_unlocked (record changed { revision = revision })
      ok (value, file')

    unfoldable pub insert_server :
        String → McpTransport → RegistryFile → Result String (Bool × RegistryFile)
    insert_server name transport registry = ok (
      is_some (get registry.servers name),
      record registry { servers = insert registry.servers name transport },
    )

    unfoldable pub upsert :
        (String → Option String)
        → String
        → McpTransport
        → Option String
        → Result String (Bool × Option String)
    unfolding mutate insert_server
    upsert url_scheme name transport file = do
      validate_mcp_name name
      validate_transport url_scheme transport
      mutate (insert_server name transport) file

    unfoldable pub remove_server : String → RegistryFile → Result String (Unit × RegistryFile)
    remove_server name registry = do
      ensure (is_some (get registry.servers name)) "no MCP with this name"
      ok (tt, record registry { servers = remove registry.servers name })

    unfoldable pub remove_mcp : String → Option String → Result String (Unit × Option String)
    unfolding mutate remove_server
    remove_mcp name file = do validate_mcp_name name; mutate (remove_server name) file
