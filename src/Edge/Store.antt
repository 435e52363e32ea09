-- ===== src/Edge/Store.antt =====
-- The registry's file as a counted map (crates/as-edge/src/mcp_registry.rs, RegistryStore).
use agent_scale.Base.{
  ℕ, String, ◌≡◌, refl, ap, ◌∙◌, ◌<◌, ◌+◌, Option, inl, inr, none, some, is_some, Result, ok, err,
  ok_or, bind_ok, ok_or-some, proceed, checked_add, word_max, arith, if◌then◌else◌, [], ◌==◌,
  ==_refl, eq_of_==, ne_of_==, Bool-cases, subst,
}
use agent_scale.Base.Maps.{
  Map, get, insert, remove, get-insert, get-insert_other, get-remove, get-remove_other,
}
use agent_scale.Edge.Registry.{
  McpTransport, RegistryFile, schema_version, default_registry, validate_mcp_name,
  validate_transport, load_unlocked, list_servers, get_server, saved, save_unlocked, mutate,
  insert_server, upsert, remove_server, remove_mcp,
}

found_server : {A : Type 0} {o : Option A} {a : A} (e : String) → o ≡ some a → ok_or o e ≡ ok a
unfolding ok_or
found_server e h = rw h refl

no_server : {A : Type 0} {o : Option A} (e : String) → o ≡ none → ok_or o e ≡ err e
unfolding ok_or
no_server e h = rw h refl

get-insert_any :
    {A : Type 0} (m : Map A) (k : String) (a : A) (k' : String)
    → get (insert m k a) k' ≡ (if k == k' then some a else get m k')
get-insert_any m k a k' = elim (Bool-cases (k == k')) [
  | inl t ↦
      subst (λ q. get (insert m k a) q ≡ (if k == q then some a else get m q)) (eq_of_== k k' t)
        (rw (==_refl k) (get-insert m k a))
  | inr t ↦ rw t (get-insert_other m k a k' (ne_of_== k k' t))
]

get-remove_any :
    {A : Type 0} (m : Map A) (k k' : String)
    → get (remove m k) k' ≡ (if k == k' then none else get m k')
get-remove_any m k k' = elim (Bool-cases (k == k')) [
  | inl t ↦
      subst (λ q. get (remove m k) q ≡ (if k == q then none else get m q)) (eq_of_== k k' t)
        (rw (==_refl k) (get-remove m k))
  | inr t ↦ rw t (get-remove_other m k k' (ne_of_== k k' t))
]

checked_add-some : (n : ℕ) → n < word_max → checked_add n 1 ≡ some (n + 1)
checked_add-some n h = ground arith

abbrev pub registry_of : Map McpTransport → ℕ → RegistryFile
registry_of servers revision = record {
  version = schema_version;
  revision = revision;
  servers = servers;
}

module _ (to_json : RegistryFile → String) (parse : String → Option RegistryFile) where
  -- A file holds a map and counts its changes.
  abbrev pub Represents : Option String → Map McpTransport → ℕ → Type 0
  Represents file servers revision =
      load_unlocked to_json parse file ≡ ok (registry_of servers revision)

  missing-Represents : Represents none [] 0
  unfolding load_unlocked default_registry
  missing-Represents = refl

  pub get_server-of_map :
      (file : Option String) (servers : Map McpTransport) (revision : ℕ) (name : String)
      → Represents file servers revision
      → validate_mcp_name name ≡ ok tt
      → get_server to_json parse file name ≡ ok_or (get servers name) "no MCP with this name"
  unfolding get_server list_servers
  get_server-of_map file servers revision name r v = bind_ok _ v ∙ bind_ok _ (bind_ok _ r)

  module _ (fault : String → Option String) where
    -- A written registry, with JSON that reads back what it writes.
    saved-Represents :
        (servers read : Map McpTransport) (revision : ℕ)
        → parse (to_json (registry_of servers revision)) ≡ some (registry_of read revision)
        → Represents (some (to_json (registry_of servers revision))) read revision
    unfolding load_unlocked
    saved-Represents servers read revision e = ok_or-some _ _ e ∙ proceed _ _ refl

    mutate-Represents :
        {T : Type 0} (change : RegistryFile → Result String (T × RegistryFile))
        (file : Option String) (servers servers' : Map McpTransport) (revision : ℕ) (value : T)
        → Represents file servers revision
        → revision < word_max
        → change (registry_of servers revision) ≡ ok (value, registry_of servers' revision)
        → fault (to_json (registry_of servers' (revision + 1))) ≡ none
        → mutate to_json parse fault change file
          ≡ ok (value, some (to_json (registry_of servers' (revision + 1))))
    unfolding mutate save_unlocked saved
    mutate-Represents change file servers servers' revision value r room changed writable =
        bind_ok _ r
        ∙ bind_ok _ changed
        ∙ ok_or-some _ _ (checked_add-some revision room)
        ∙ bind_ok _ (ap (λ o. saved o (to_json (registry_of servers' (revision + 1)))) writable)

    -- A registry that can be written, and that JSON reads back, in an order of its own: as a list with
    -- the same server under each name.
    pub record Storable (servers read : Map McpTransport) (revision : ℕ) : Type 0 where
      pub writable : fault (to_json (registry_of servers revision)) ≡ none
      pub reads : parse (to_json (registry_of servers revision)) ≡ some (registry_of read revision)
      pub same : (k : String) → get read k ≡ get servers k

    -- What an accepted change leaves: its answer, a file with the new map and one more revision,
    -- and every server read back from it.
    pub record Changed {T : Type 0} (file : Option String) (servers : Map McpTransport)
        (revision : ℕ) (value : T) (r : Result String (T × Option String)) : Type 0 where
      pub accepted : r ≡ ok (value, file)
      pub contents : Represents file servers revision

    -- An upsert with a valid name and transport is accepted while the revisions last and the file can
    -- be written and read back: it answers whether it replaced a server, and the file then holds the map
    -- with that server alone changed, and one more revision; the server is read back.
    pub upsert-Changed :
        (url_scheme : String → Option String) (file : Option String)
        (servers read : Map McpTransport) (revision : ℕ) (name : String) (transport : McpTransport)
        → Represents file servers revision
        → revision < word_max
        → validate_mcp_name name ≡ ok tt
        → validate_transport url_scheme transport ≡ ok tt
        → Storable (insert servers name transport) read (revision + 1)
        → (file' : Option String) × Changed file' read
            (revision + 1)
            (is_some (get servers name))
            (upsert to_json parse fault url_scheme name transport file)
          × (get_server to_json parse file' name ≡ ok transport)
          × ((k : String) → get read k ≡ (if name == k then some transport else get servers k))
    unfolding upsert insert_server
    upsert-Changed url_scheme file servers read revision name transport r room valid sound
          storable =
        let servers' = insert servers name transport in
        let stored = saved-Represents servers' read (revision + 1) storable.reads in
        (
          some (to_json (registry_of servers' (revision + 1))),
          record {
            accepted =
                bind_ok _ valid
                ∙ bind_ok _ sound
                ∙ mutate-Represents _ file servers servers' revision _ r room refl
                    storable.writable;
            contents = stored;
          },
          get_server-of_map _ read (revision + 1) name stored valid
              ∙ found_server _ (storable.same name ∙ get-insert servers name transport),
          λ k. storable.same k ∙ get-insert_any servers name transport k,
        )

    -- A removal of a server that the file holds is accepted while the revisions last and the file can
    -- be written and read back: the file then holds the map without that server alone, and one more
    -- revision; the server is no more read.
    pub remove_mcp-Changed :
        (file : Option String) (servers read : Map McpTransport) (revision : ℕ) (name : String)
        (transport : McpTransport)
        → Represents file servers revision
        → revision < word_max
        → validate_mcp_name name ≡ ok tt
        → get servers name ≡ some transport
        → Storable (remove servers name) read (revision + 1)
        → (file' : Option String) × Changed file' read
            (revision + 1)
            tt
            (remove_mcp to_json parse fault name file)
          × (get_server to_json parse file' name ≡ err "no MCP with this name")
          × ((k : String) → get read k ≡ (if name == k then none else get servers k))
    unfolding remove_mcp remove_server
    remove_mcp-Changed file servers read revision name transport r room valid held storable =
        let servers' = remove servers name in
        let stored = saved-Represents servers' read (revision + 1) storable.reads in
        (
          some (to_json (registry_of servers' (revision + 1))),
          record {
            accepted =
                bind_ok _ valid
                ∙ mutate-Represents _ file servers servers' revision _ r room
                    (proceed _ _ (ap is_some held)) storable.writable;
            contents = stored;
          },
          get_server-of_map _ read (revision + 1) name stored valid
              ∙ no_server _ (storable.same name ∙ get-remove servers name),
          λ k. storable.same k ∙ get-remove_any servers name k,
        )
