-- ===== src/Sync/Journal.antt =====
-- The journal of a synchronization (crates/agent-scale/src/mcp_sync.rs, commit_prepared,
-- recover_journal, apply_journal, validate_relative_path). Each function is the steps that it takes
-- on the disk, in their order, and the error on which it stops: a file is replaced at once, so that a
-- crash, or an error of the disk, leaves a prefix of the steps. JSON and the components of a path are
-- parameters; bytes are texts.
use agent_scale.Base.{
  ℕ, String, Bool, true, false, not, ◌&&◌, ◌==◌, eqb, Option, none, some, List, [], ◌∷◌, ◌++◌, any,
  Result, ok, err, ensure, ok_or, ◌>>=◌, ◌>>◌, if◌then◌else◌,
}
use agent_scale.Base.Maps.{Map, insert}

-- `std::path::Component`.
pub data Component : Type 0 where
  path_prefix root_dir cur_dir parent_dir : Component
  normal : String → Component

pub record JournalFile : Type 0 where
  pub relative_path : String
  pub bytes : String

pub record SyncJournal : Type 0 where
  pub version : ℕ
  pub files : List JournalFile

pub record PreparedFile : Type 0 where
  pub path : String
  pub bytes : String

-- The project's files by their relative paths, and the journal's text.
pub record Disk : Type 0 where
  pub files : Map String
  pub journal : Option String

pub data DiskStep : Type 0 where
  write_file : JournalFile → DiskStep
  write_journal : String → DiskStep
  remove_journal : DiskStep

-- Writing what a file already holds changes nothing.
abbrev pub perform_step : DiskStep → Disk → Disk
perform_step (write_file f) d = record d { files = insert d.files f.relative_path f.bytes }
perform_step (write_journal text) d = record d { journal = some text }
perform_step remove_journal d = record d { journal = none }

unfoldable pub perform : List DiskStep → Disk → Disk
perform [] d = d
perform (step ∷ steps) d = perform steps (perform_step step d)

-- The steps of a call, and the error that ends it.
pub record Call : Type 0 where
  pub steps : List DiskStep
  pub error : Option String

-- More steps after a call that succeeded.
unfoldable pub and_then : Option String → List DiskStep → List DiskStep → Call
and_then none steps more = record { steps = steps ++ more; error = none }
and_then (some error) steps more = record { steps = steps; error = some error }

abbrev pub failed : String → Call
failed error = record { steps = []; error = some error }

abbrev is_normal : Component → Bool
is_normal (normal name) = true
is_normal component = false

module _ (components : String → List Component) where
  unfoldable pub validate_relative_path : String → Bool
  validate_relative_path path =
      not (path == "") && not (any (λ c. not (is_normal c)) (components path))

  unfoldable pub apply_journal : List JournalFile → Call
  unfolding validate_relative_path
  apply_journal [] = record { steps = []; error = none }
  apply_journal (f ∷ fs) =
      let rest = apply_journal fs in
      if validate_relative_path f.relative_path
      then record { steps = write_file f ∷ rest.steps; error = rest.error }
      else record { steps = []; error = some "unsafe path in MCP sync journal" }

  unfoldable pub journal_files :
      (String → Option String) → List PreparedFile → Result String (List JournalFile)
  unfolding validate_relative_path
  journal_files strip_root [] = ok []
  journal_files strip_root (file ∷ files) = do
    relative_path ← ok_or (strip_root file.path) "sync output escaped project root"
    ensure (validate_relative_path relative_path) "unsafe path in MCP sync journal"
    rest ← journal_files strip_root files
    ok (record { relative_path = relative_path; bytes = file.bytes } ∷ rest)

  module _ (to_json : SyncJournal → String) (parse : String → Option SyncJournal) where
    -- The part of `commit_prepared` that writes.
    unfoldable pub commit_files : List JournalFile → Call
    unfolding apply_journal and_then
    commit_files files =
        let applied =
          and_then (apply_journal files).error (apply_journal files).steps (remove_journal ∷ []) in
        record {
          steps = write_journal (to_json (record { version = 1; files = files })) ∷ applied.steps;
          error = applied.error;
        }

    unfoldable pub commit_result : Result String (List JournalFile) → Call
    unfolding commit_files
    commit_result (ok files) = commit_files files
    commit_result (err error) = failed error

    unfoldable pub commit_prepared : (String → Option String) → List PreparedFile → Call
    unfolding commit_result journal_files
    commit_prepared strip_root prepared = commit_result (journal_files strip_root prepared)

    unfoldable pub recover_parsed : Option SyncJournal → Call
    unfolding apply_journal and_then
    recover_parsed none = failed "parse journal"
    recover_parsed (some journal) =
        if eqb journal.version 1
        then and_then (apply_journal journal.files).error (apply_journal journal.files).steps
            (remove_journal ∷ [])
        else failed "unsupported MCP sync journal version"

    unfoldable pub recover_journal : Option String → Call
    unfolding recover_parsed
    recover_journal none = record { steps = []; error = none }
    recover_journal (some text) = recover_parsed (parse text)
