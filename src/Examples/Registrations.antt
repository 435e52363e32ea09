-- ===== src/Examples/Registrations.antt =====
-- A project whose configuration is synchronized, interrupted and recovered, and an edge's registry.
use agent_scale.Base.{
  any, ◌>>=◌, ensure, ok_or, take, retain, find, upsert_record, String, ◌≡◌, refl, false, none,
  some, [], ◌∷◌, List, Option, ok, err, arith, Ensures, ◌<>◌, contains, ◌==◌, if◌then◌else◌,
}
use agent_scale.Base.Maps.{Map, get}
use agent_scale.Sync.Reconcile.{Desired, prepare}
use agent_scale.Sync.Synced.{Synced, prepare-Synced}
use agent_scale.Sync.Again.{prepare-again}
use agent_scale.Sync.Journal.{
  Component, normal, SyncJournal, PreparedFile, Disk, perform, journal_files,
  validate_relative_path,
}
use agent_scale.Sync.Crashes.{
  synchronization, recovery, Crashed, in_commit, in_recovery, Recovered, crashed-Recovered,
}
use agent_scale.Edge.Registry.{
  McpTransport, http, validate_mcp_name, validate_transport, validate_url, upsert, remove_mcp,
  get_server, RegistryFile, default_registry, load_unlocked,
}
use agent_scale.Edge.Store.{registry_of, Changed, upsert-Changed, remove_mcp-Changed}

-- The entry of an alias is the text that names its edge and server, and so is its fingerprint.
abbrev proxy_text : String → String → String
proxy_text edge server = edge <> "/" <> server

abbrev same_text : String → String
same_text v = v

abbrev wanted : Desired
wanted = ("win__debugger", ("win", "debugger")) ∷ []

-- An entry written by hand, and one that was synchronized before.
abbrev servers_before : Map String
servers_before = ("manual", "manual") ∷ ("old__tool", "old/tool") ∷ []

abbrev owned_before : Map String
owned_before = ("old__tool", "old/tool") ∷ []

prepare-Synced_example :
    Ensures
      (Synced proxy_text same_text "manual" wanted owned_before servers_before)
      (prepare proxy_text same_text wanted owned_before servers_before)
prepare-Synced_example =
    prepare-Synced proxy_text same_text "manual" wanted owned_before servers_before (tt, tt)
      (tt, tt)

prepare-again_example :
    Ensures
      (λ (r : Map String × Map String). prepare proxy_text same_text wanted r.0 r.1 ≡ ok r)
      (prepare proxy_text same_text wanted owned_before servers_before)
prepare-again_example =
    prepare-again proxy_text same_text wanted owned_before servers_before (tt, tt) (tt, tt)

abbrev path_components : String → List Component
path_components path = normal path ∷ []

abbrev strip_root : String → Option String
strip_root path = some path

abbrev outputs : List PreparedFile
outputs =
    record { path = ".mcp.json"; bytes = "new" } ∷ record { path = "manifest"; bytes = "new" } ∷ []

abbrev journal : SyncJournal
journal = record {
  version = 1;
  files =
      record { relative_path = ".mcp.json"; bytes = "new" }
      ∷ record { relative_path = "manifest"; bytes = "new" }
      ∷ [];
}

abbrev journal_text : SyncJournal → String
journal_text j = "journal"

abbrev read_journal : String → Option SyncJournal
read_journal text = if text == "journal" then some journal else none

abbrev disk_before : Disk
disk_before = record { files = (".mcp.json", "old") ∷ []; journal = none }

outputs-journal : journal_files path_components strip_root outputs ≡ ok journal.files
unfolding journal_files validate_relative_path any ◌==◌ ◌>>=◌ ensure ok_or
outputs-journal = refl

-- A synchronization that stops after the journal and one file, and a recovery that stops at once.
abbrev after_two_steps : Disk
after_two_steps =
    perform
      (take 2 (synchronization path_components journal_text read_journal strip_root outputs).steps)
      disk_before

abbrev after_crashes : Disk
after_crashes =
    perform (take 1 (recovery path_components journal_text read_journal after_two_steps).steps)
      after_two_steps

crashes :
    Crashed path_components journal_text read_journal strip_root outputs disk_before after_crashes
crashes = in_recovery 1 (in_commit 2)

crashed-Recovered_example :
    Recovered path_components journal_text read_journal strip_root outputs disk_before after_crashes
unfolding ◌==◌
crashed-Recovered_example =
    crashed-Recovered path_components journal_text read_journal strip_root outputs disk_before
      journal.files outputs-journal refl refl crashes

abbrev web : McpTransport
web = http "https://tools"

abbrev scheme_of : String → Option String
scheme_of url = some "https"

abbrev registry_text : RegistryFile → String
registry_text r = "registry"

abbrev with_web : RegistryFile
with_web = registry_of (("web", web) ∷ []) 1

abbrev read_registry : String → Option RegistryFile
read_registry text = some with_web

abbrev writable : String → Option String
writable text = none

upsert-Changed_example :
    (file : Option String) × Changed registry_text read_registry writable file
      (("web", web) ∷ [])
      1
      false
      (upsert registry_text read_registry writable scheme_of "web" web none)
    × (get_server registry_text read_registry file "web" ≡ ok web)
    × ((k : String) → get (("web", web) ∷ []) k ≡ (if "web" == k then some web else none))
unfolding validate_mcp_name validate_transport validate_url load_unlocked default_registry contains
    ◌==◌ ◌>>=◌ ensure ok_or find upsert_record
upsert-Changed_example =
    upsert-Changed registry_text read_registry writable scheme_of none [] (("web", web) ∷ []) 0
      "web" web refl (omega arith) refl refl
      (record { writable = refl; reads = refl; same = λ k. refl })

-- A registry that was removed from is read as empty.
abbrev read_after : String → Option RegistryFile
read_after text = if text == "full" then some with_web else some (registry_of [] 2)

remove_mcp-Changed_example :
    (file : Option String) × Changed registry_text read_after writable file [] 2 tt
      (remove_mcp registry_text read_after writable "web" (some "full"))
    × (get_server registry_text read_after file "web" ≡ err "no MCP with this name")
    × ((k : String) → get [] k ≡ (if "web" == k then none else get (("web", web) ∷ []) k))
unfolding validate_mcp_name load_unlocked contains ◌==◌ ◌>>=◌ ensure ok_or retain find
remove_mcp-Changed_example =
    remove_mcp-Changed registry_text read_after writable (some "full") (("web", web) ∷ []) [] 1
      "web" web refl (omega arith) refl refl
      (record { writable = refl; reads = refl; same = λ k. refl })
