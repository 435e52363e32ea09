-- ===== src/Control/Commit/Laws.antt =====
-- What a successful `commit_delta` leaves, and how a section runs.
use agent_scale.Base.{
  ℕ, ◌≡◌, refl, some, Result, ok, err, map_err, map_err-ok, Ensures, Ensures-ok_or, Ensures-bind,
  Ensures-ok, arith,
}
use agent_scale.Control.Errors.{ApiError, internal}
use agent_scale.Control.State.{
  ControlState, StateDelta, Publish, publish_none, nodes, nodes_and_relays,
}
use agent_scale.Control.Commit.{
  Decision, answer, commit, next_revision, next_relay_revision, bumped, relay_bumped, notify_nodes,
  notify_relays, Store, ApplyDelta, advance, commit_delta, finish, run_decision, run_section,
}

next_revision-bumped : (q : Publish) (n : ℕ) {m : ℕ} → next_revision q n ≡ some m → m ≡ bumped q n
next_revision-bumped publish_none n h = ground arith
next_revision-bumped nodes n h = ground arith
next_revision-bumped nodes_and_relays n h = ground arith

next_relay_revision-bumped :
    (q : Publish) (n : ℕ) {m : ℕ} → next_relay_revision q n ≡ some m → m ≡ relay_bumped q n
next_relay_revision-bumped publish_none n h = ground arith
next_relay_revision-bumped nodes n h = ground arith
next_relay_revision-bumped nodes_and_relays n h = ground arith

module _ {D : Type 0} (apply_delta : ApplyDelta D) where
  -- A commit stands for one accepted transaction and the delta in memory, with the revisions that
  -- the delta publishes and as many notifications.
  pub record Committed (store : Store D) (delta : StateDelta) (after : Store D) : Type 0 where
    pub state_after :
        after.state
        ≡ advance delta
            (bumped delta.publish store.state.revision)
            (relay_bumped delta.publish store.state.relay_revision)
            store.state
    pub accepted :
        apply_delta store.database store.state.revision store.state.relay_revision
          (bumped delta.publish store.state.revision)
          (relay_bumped delta.publish store.state.relay_revision)
          delta
        ≡ ok after.database
    pub notified : after.changed ≡ notify_nodes delta.publish store.changed
    pub relays_notified : after.relay_changed ≡ notify_relays delta.publish store.relay_changed

  pub commit_delta-Committed :
      (store : Store D) (delta : StateDelta)
      → Ensures (Committed store delta) (commit_delta apply_delta store delta)
  unfolding commit_delta
  commit_delta-Committed store delta = Ensures-ok_or _ _ _ λ r e. Ensures-ok_or _ _ _ λ rr e'.
      Ensures-bind
        (map_err internal
          (apply_delta store.database store.state.revision store.state.relay_revision r rr delta))
        (λ db. ok (record {
          database = db;
          state = advance delta r rr store.state;
          changed = notify_nodes delta.publish store.changed;
          relay_changed = notify_relays delta.publish store.relay_changed;
        }))
        λ db done.
          let q = next_revision-bumped delta.publish store.state.revision e in
          let q' = next_relay_revision-bumped delta.publish store.state.relay_revision e' in
          Ensures-ok (record {
            state_after = cc (q, q');
            accepted = cc (q, q', map_err-ok internal _ _ done);
            notified = refl;
            relays_notified = refl;
          })

  -- Whatever the section decides, the state that follows is the old one or that of its delta.
  pub run_section_cases :
      {A : Type 0} (P : Store D → Type 0) (section : ControlState → Decision A) (store : Store D)
      → P store
      → ((delta : StateDelta) (reply : ControlState → Result ApiError A) (after : Store D)
          → section store.state ≡ ok (commit delta reply)
          → Committed store delta after
          → P after)
      → P (run_section apply_delta section store).1
  unfolding run_section
  run_section_cases {A} P section store kept committed = by_decision (section store.state) refl
    where
      by_commit :
          (delta : StateDelta) (reply : ControlState → Result ApiError A)
          → section store.state ≡ ok (commit delta reply)
          → (r : Result ApiError (Store D)) → Ensures (Committed store delta) r
          → P (finish apply_delta reply store r).1
      by_commit delta reply e (ok after) c = committed delta reply after e (c.value after refl)
      by_commit delta reply e (err x) c = kept

      by_decision :
          (d : Decision A) → section store.state ≡ d → P (run_decision apply_delta d store).1
      by_decision (ok (answer a)) e = kept
      by_decision (ok (commit delta reply)) e =
          by_commit delta reply e (commit_delta apply_delta store delta)
            (commit_delta-Committed store delta)
      by_decision (err x) e = kept
