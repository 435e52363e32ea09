-- ===== src/Sync/Recovery.antt =====
-- What crashes leave, and that a recovery completes it (crates/agent-scale/src/mcp_sync.rs,
-- commit_prepared and recover_journal).
use agent_scale.Base.{
  ℕ, zero, suc, String, Bool, true, false, ◌≡◌, refl, sym, ap, ◌∙◌, ◌⊎◌, inl, inr, ||-false, ◌==◌,
  eq_of_==, ne_of_==, Bool-cases, Option, none, some, List, [], ◌∷◌, ◌++◌, map, any, take, All,
  Ensures, Ensures-ok, Ensures-bind, Ensures-ok_or, Ensures-then, ensure-ok, subst,
}
use agent_scale.Base.Maps.{Map, get, insert, get-insert, get-insert_other}
use agent_scale.Sync.Journal.{
  Component, JournalFile, SyncJournal, PreparedFile, Disk, DiskStep, write_file, write_journal,
  remove_journal, perform_step, perform, Call, and_then, validate_relative_path, apply_journal,
  journal_files, commit_files, recover_parsed, recover_journal,
}

-- The files after all of a journal is applied.
unfoldable pub write_all : List JournalFile → Map String → Map String
write_all [] m = m
write_all (f ∷ fs) m = write_all fs (insert m f.relative_path f.bytes)

-- Two tables agree on a path.
abbrev pub Agree : Map String → Map String → String → Type 0
Agree m m' p = get m p ≡ get m' p

insert-Agree :
    (m m' : Map String) (k v p : String) → Agree m m' p → Agree (insert m k v) (insert m' k v) p
insert-Agree m m' k v p h = elim (Bool-cases (k == p)) [
  | inl t ↦
      subst (λ q. get (insert m k v) q ≡ get (insert m' k v) q) (eq_of_== k p t)
        (get-insert m k v ∙ sym (get-insert m' k v))
  | inr t ↦
      let ne = ne_of_== k p t in
      get-insert_other m k v p ne ∙ h ∙ sym (get-insert_other m' k v p ne)
]

-- Whatever a journal's files held, they hold what it writes; the other files are kept.
abbrev pub lists : List JournalFile → String → Bool
lists fs p = any (λ f. f.relative_path == p) fs

write_all-Agree :
    (fs : List JournalFile) (m m' : Map String) (p : String)
    → (lists fs p ≡ false → Agree m m' p)
    → Agree (write_all fs m) (write_all fs m') p
unfolding write_all any
write_all-Agree [] m m' p h = h refl
write_all-Agree (f ∷ fs) m m' p h = elim (Bool-cases (f.relative_path == p)) [
  | inl t ↦ write_all-Agree fs _ _ p λ _. same_path m m' f.relative_path f.bytes p t
  | inr t ↦
      write_all-Agree fs _ _ p λ q. insert-Agree m m' f.relative_path f.bytes p (h (rw (t, q) refl))
]
  where
    same_path :
        (m m' : Map String) (k v p : String)
        → (k == p) ≡ true
        → get (insert m k v) p ≡ get (insert m' k v) p
    same_path m m' k v p t =
        subst (λ q. get (insert m k v) q ≡ get (insert m' k v) q) (eq_of_== k p t)
          (get-insert m k v ∙ sym (get-insert m' k v))

-- The steps of an application of a journal that succeeds.
abbrev pub applying : List JournalFile → List DiskStep
applying fs = map write_file fs ++ (remove_journal ∷ [])

-- A prefix of them has not touched other files and keeps the journal, or is all of them.
abbrev Halfway : List JournalFile → Disk → Disk → Type 0
Halfway fs before after =
    ((after.journal ≡ before.journal)
      × ((p : String) → lists fs p ≡ false → Agree after.files before.files p))
    ⊎ ((after.journal ≡ none) × (after.files ≡ write_all fs before.files))

take-Halfway :
    (n : ℕ) (fs : List JournalFile) (d : Disk) → Halfway fs d (perform (take n (applying fs)) d)
unfolding take perform write_all any
take-Halfway zero fs d = inl (refl, λ p _. refl)
take-Halfway (suc zero) [] d = inr (refl, refl)
take-Halfway (suc (suc n)) [] d = inr (refl, refl)
take-Halfway (suc n) (f ∷ fs) d = elim (take-Halfway n fs (perform_step (write_file f) d)) [
  | inl (j, h) ↦ inl (
    j,
    λ p other.
        let q = ||-false (f.relative_path == p) (lists fs p) other in
        h p q.1
        ∙ get-insert_other d.files f.relative_path f.bytes p (ne_of_== f.relative_path p q.0),
  )
  | inr (j, h) ↦ inr (j, h)
]

pub perform-applying :
    (fs : List JournalFile) (d : Disk)
    → ((perform (applying fs) d).journal ≡ none)
      × ((perform (applying fs) d).files ≡ write_all fs d.files)
unfolding perform write_all
perform-applying [] d = (refl, refl)
perform-applying (f ∷ fs) d = perform-applying fs (perform_step (write_file f) d)

module _ (components : String → List Component) where
  abbrev pub Valid : List JournalFile → Type 0
  Valid fs = All (λ (f : JournalFile). validate_relative_path components f.relative_path ≡ true) fs

  apply_journal-Valid :
      (fs : List JournalFile)
      → Valid fs
      → ((apply_journal components fs).steps ≡ map write_file fs)
        × ((apply_journal components fs).error ≡ none)
  unfolding apply_journal
  apply_journal-Valid [] h = (refl, refl)
  apply_journal-Valid (f ∷ fs) h =
      let q = apply_journal-Valid fs h.1 in rw h.0 (ap (λ steps. write_file f ∷ steps) q.0, q.1)

  pub journal_files-Valid :
      (strip_root : String → Option String) (prepared : List PreparedFile)
      → Ensures Valid (journal_files components strip_root prepared)
  unfolding journal_files
  journal_files-Valid strip_root [] = Ensures-ok tt
  journal_files-Valid strip_root (file ∷ files) = Ensures-ok_or _ _ _ λ path _.
      Ensures-bind _ _ λ _ valid.
        Ensures-then _ _ (journal_files-Valid strip_root files)
          λ rest h. Ensures-ok (ensure-ok _ _ valid, h)

  module _ (to_json : SyncJournal → String) (parse : String → Option SyncJournal)
      (fs : List JournalFile) (before : Disk) where
    abbrev pub text : String
    text = to_json (record { version = 1; files = fs })

    completing-steps :
        Valid fs
        → and_then
            (apply_journal components fs).error
            (apply_journal components fs).steps
            (remove_journal ∷ [])
          ≡ record { steps = applying fs; error = none }
    unfolding and_then
    completing-steps h =
        let q = apply_journal-Valid fs h in
        ap (λ e. and_then e (apply_journal components fs).steps (remove_journal ∷ [])) q.1
        ∙ ap (λ steps. and_then none steps (remove_journal ∷ [])) q.0

    pub commit_files-steps :
        Valid fs
        → (commit_files components to_json parse fs).steps ≡ (write_journal text ∷ applying fs)
    unfolding commit_files
    commit_files-steps h = ap (λ (c : Call). write_journal text ∷ c.steps) (completing-steps h)

    pub recover_journal-steps :
        Valid fs
        → parse text ≡ some (record { version = 1; files = fs })
        → recover_journal components to_json parse (some text)
          ≡ record { steps = applying fs; error = none }
    unfolding recover_journal recover_parsed
    recover_journal-steps h e = ap (recover_parsed components to_json parse) e ∙ completing-steps h

    abbrev pub Untouched : Disk → Type 0
    Untouched d = (d.journal ≡ none) × ((p : String) → Agree d.files before.files p)

    abbrev pub Rolling : Disk → Type 0
    Rolling d =
        (d.journal ≡ some text) × ((p : String) → lists fs p ≡ false → Agree d.files before.files p)

    abbrev pub Done : Disk → Type 0
    Done d = (d.journal ≡ none) × ((p : String) → Agree d.files (write_all fs before.files) p)

    abbrev pub Stage : Disk → Type 0
    Stage d = Untouched d ⊎ (Rolling d ⊎ Done d)

    pub written-Done :
        (d : Disk)
        → Rolling d
        → (after : Disk) → after.journal ≡ none
        → after.files ≡ write_all fs d.files
        → Done after
    written-Done d r after j e =
        (j, λ p. ap (λ m. get m p) e ∙ write_all-Agree fs d.files before.files p (r.1 p))

    pub roll : (n : ℕ) (d : Disk) → Rolling d → Stage (perform (take n (applying fs)) d)
    roll n d r = elim (take-Halfway n fs d) [
      | inl (j, h) ↦ inr (inl (j ∙ r.0, λ p other. h p other ∙ r.1 p other))
      | inr (j, h) ↦ inr (inr (written-Done d r _ j h))
    ]
