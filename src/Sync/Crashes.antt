-- ===== src/Sync/Crashes.antt =====
-- A synchronization that is interrupted, and its recoveries, which may be interrupted too
-- (crates/agent-scale/src/mcp_sync.rs, commit_prepared and recover_journal).
use agent_scale.Base.{
  ℕ, zero, suc, String, ◌≡◌, refl, sym, ap, ◌∙◌, ◌⊎◌, inl, inr, Option, none, some, List, [], ◌∷◌,
  take, ok, subst,
}
use agent_scale.Base.Maps.{get}
use agent_scale.Sync.Journal.{
  Component, JournalFile, SyncJournal, PreparedFile, Disk, write_journal, perform, Call,
  journal_files, commit_result, commit_prepared, recover_journal,
}
use agent_scale.Sync.Recovery.{
  Agree, applying, perform-applying, Valid, journal_files-Valid, text, commit_files-steps,
  recover_journal-steps, Rolling, Stage, roll, written-Done, write_all,
}

module _ (components : String → List Component) (to_json : SyncJournal → String)
    (parse : String → Option SyncJournal) where
  abbrev pub recovery : Disk → Call
  recovery d = recover_journal components to_json parse d.journal

  module _ (strip_root : String → Option String) (prepared : List PreparedFile) where
    abbrev pub synchronization : Call
    synchronization = commit_prepared components to_json parse strip_root prepared

    -- What crashes leave: a synchronization that stops after some of its steps, and recoveries that
    -- do. All of the steps are the call that completes.
    pub data Crashed (before : Disk) : Disk → Type 0 where
      in_commit : (n : ℕ) → Crashed before (perform (take n synchronization.steps) before)
      in_recovery :
          {d : Disk} (n : ℕ)
          → Crashed before d
          → Crashed before (perform (take n (recovery d).steps) d)

    -- A recovery that completes: no journal is left, and either no file has changed or all have been
    -- written.
    pub record Recovered (before d : Disk) : Type 0 where
      pub succeeds : (recovery d).error ≡ none
      pub no_journal : (perform (recovery d).steps d).journal ≡ none
      pub all_or_nothing :
          ((p : String) → Agree (perform (recovery d).steps d).files before.files p)
          ⊎ ((p : String)
              → Agree
                  (perform (recovery d).steps d).files
                  (perform synchronization.steps before).files
                  p)

    module _ (before : Disk) (fs : List JournalFile)
        (outputs : journal_files components strip_root prepared ≡ ok fs)
        (round_trip : parse (to_json (record { version = 1; files = fs }))
          ≡ some (record { version = 1; files = fs })) where
      valid : Valid components fs
      valid = (journal_files-Valid components strip_root prepared).value fs outputs

      synchronization-steps :
          synchronization.steps
          ≡ (write_journal (text components to_json parse fs before) ∷ applying fs)
      unfolding commit_prepared commit_result
      synchronization-steps =
          ap (λ r. (commit_result components to_json parse r).steps) outputs
          ∙ commit_files-steps components to_json parse fs before valid

      abbrev AtStage : Disk → Type 0
      AtStage d = Stage components to_json parse fs before d

      recover-none :
          recover_journal components to_json parse none ≡ record { steps = []; error = none }
      unfolding recover_journal
      recover-none = refl

      take-none : (n : ℕ) (d : Disk) → perform (take n []) d ≡ d
      unfolding take perform
      take-none zero d = refl
      take-none (suc n) d = refl

      -- The recovery of each stage.
      idle : (d : Disk) → d.journal ≡ none → recovery d ≡ record { steps = []; error = none }
      idle d e = ap (recover_journal components to_json parse) e ∙ recover-none

      rolling :
          (d : Disk)
          → Rolling components to_json parse fs before d
          → recovery d ≡ record { steps = applying fs; error = none }
      rolling d r =
          ap (recover_journal components to_json parse) r.0
          ∙ recover_journal-steps components to_json parse fs before valid round_trip

      recover-AtStage :
          (n : ℕ) (d : Disk) → AtStage d → AtStage (perform (take n (recovery d).steps) d)
      recover-AtStage n d (inl u) = rw (idle d u.0, take-none n d) (inl u)
      recover-AtStage n d (inr (inr u)) = rw (idle d u.0, take-none n d) (inr (inr u))
      recover-AtStage n d (inr (inl r)) =
          rw (rolling d r) (roll components to_json parse fs before n d r)

      commit-AtStage :
          (n : ℕ) → before.journal ≡ none → AtStage (perform (take n synchronization.steps) before)
      unfolding take perform
      commit-AtStage zero e = inl (e, λ p. refl)
      commit-AtStage (suc n) e = rw synchronization-steps (
          roll components to_json parse fs before n
            (record before { journal = some (text components to_json parse fs before) })
            (refl, λ p _. refl))

      Crashed-AtStage : {d : Disk} → before.journal ≡ none → Crashed before d → AtStage d
      Crashed-AtStage e (in_commit n) = commit-AtStage n e
      Crashed-AtStage e (in_recovery {d = d} n c) = recover-AtStage n d (Crashed-AtStage e c)

      committed :
          (p : String)
          → Agree (perform synchronization.steps before).files (write_all fs before.files) p
      unfolding perform
      committed p = rw synchronization-steps (
          ap (λ m. get m p)
            (perform-applying fs
              (record before { journal = some (text components to_json parse fs before) })).1)

      all_written :
          (d : Disk)
          → ((p : String) → Agree d.files (write_all fs before.files) p)
          → (p : String) → Agree d.files (perform synchronization.steps before).files p
      all_written d h p = h p ∙ sym (committed p)

      idle-Recovered :
          (d : Disk)
          → d.journal ≡ none
          → ((p : String) → Agree d.files before.files p)
            ⊎ ((p : String) → Agree d.files (perform synchronization.steps before).files p)
          → Recovered before d
      unfolding perform
      idle-Recovered d e h = record {
        succeeds = ap (λ (c : Call). c.error) (idle d e);
        no_journal = ap (λ (c : Call). (perform c.steps d).journal) (idle d e) ∙ e;
        all_or_nothing =
            subst
              (λ (c : Call).
                ((p : String) → Agree (perform c.steps d).files before.files p)
                ⊎ ((p : String)
                    → Agree (perform c.steps d).files (perform synchronization.steps before).files
                        p))
              (sym (idle d e)) h;
      }

      finished : (d : Disk) → AtStage d → Recovered before d
      finished d (inl u) = idle-Recovered d u.0 (inl u.1)
      finished d (inr (inr u)) = idle-Recovered d u.0 (inr (all_written d u.1))
      finished d (inr (inl r)) =
          let after = perform-applying fs d in
          let done =
            written-Done components to_json parse fs before d r (perform (applying fs) d) after.0
              after.1 in
          record {
            succeeds = ap (λ (c : Call). c.error) (rolling d r);
            no_journal = ap (λ (c : Call). (perform c.steps d).journal) (rolling d r) ∙ after.0;
            all_or_nothing = inr (λ p.
                ap (λ (c : Call). get (perform c.steps d).files p) (rolling d r)
                ∙ all_written (perform (applying fs) d) done.1 p);
          }

      -- However often a synchronization and its recoveries are interrupted, a recovery that completes
      -- succeeds, leaves no journal, and leaves either all files as they were before or all files as
      -- the synchronization writes them: it began without a journal, its outputs lie in the project,
      -- and JSON reads back its journal.
      pub crashed-Recovered :
          {d : Disk} → before.journal ≡ none → Crashed before d → Recovered before d
      crashed-Recovered {d} e c = finished d (Crashed-AtStage e c)
