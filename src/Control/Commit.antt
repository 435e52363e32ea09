-- ===== src/Control/Commit.antt =====
-- The locked section of a handler and `commit_delta` (crates/as-control/src/main.rs). A section
-- reads the state, and either answers or commits one delta and answers from the state that follows.
pub mod Laws
use agent_scale.Base.{
  ◌+◌, ℕ, String, Option, some, Result, ok, err, ◌>>=◌, ok_or, map_err, checked_add, suc,
}
use agent_scale.Control.Errors.{ApiError, internal}
use agent_scale.Control.State.{
  ControlState, StateDelta, Publish, publish_none, nodes_and_relays, apply,
}

pub data Outcome (A : Type 0) : Type 0 where
  answer : A → Outcome A
  commit : StateDelta → (ControlState → Result ApiError A) → Outcome A

-- A section's decision.
abbrev pub Decision : Type 0 → Type 0
Decision A = Result ApiError (Outcome A)

-- The revisions that a delta publishes; `none` is an overflow of the `u64`.
abbrev pub next_revision : Publish → ℕ → Option ℕ
next_revision publish_none revision = some revision
next_revision _ revision = checked_add revision 1

abbrev pub next_relay_revision : Publish → ℕ → Option ℕ
next_relay_revision nodes_and_relays revision = checked_add revision 1
next_relay_revision _ revision = some revision

-- The revisions after a commit.
abbrev pub bumped : Publish → ℕ → ℕ
bumped publish_none revision = revision
bumped _ revision = revision + 1

abbrev pub relay_bumped : Publish → ℕ → ℕ
relay_bumped nodes_and_relays revision = revision + 1
relay_bumped _ revision = revision

-- The calls of `notify_waiters` on the two channels are counted.
abbrev pub notify_nodes : Publish → ℕ → ℕ
notify_nodes publish_none n = n
notify_nodes _ n = suc n

abbrev pub notify_relays : Publish → ℕ → ℕ
notify_relays nodes_and_relays n = suc n
notify_relays _ n = n

pub record Store (D : Type 0) : Type 0 where
  pub database : D
  pub state : ControlState
  pub changed : ℕ
  pub relay_changed : ℕ

-- A database transaction: the expected revisions, the new ones and the delta.
abbrev pub ApplyDelta : Type 0 → Type 0
ApplyDelta D = D → ℕ → ℕ → ℕ → ℕ → StateDelta → Result String D

-- The state after the delta and the new revisions.
unfoldable pub advance : StateDelta → ℕ → ℕ → ControlState → ControlState
unfolding apply
advance delta revision relay_revision current = record (apply delta current) {
  revision = revision;
  relay_revision = relay_revision;
}

module _ {D : Type 0} (apply_delta : ApplyDelta D) where
  unfoldable pub commit_delta : Store D → StateDelta → Result ApiError (Store D)
  commit_delta store delta = do
    let current = store.state
    revision ← ok_or (next_revision delta.publish current.revision) (internal "revision overflow")
    relay_revision ←
        ok_or (next_relay_revision delta.publish current.relay_revision)
          (internal "Relay revision overflow")
    database ← map_err internal (
        apply_delta store.database current.revision current.relay_revision revision relay_revision
          delta)
    ok (record {
      database = database;
      state = advance delta revision relay_revision current;
      changed = notify_nodes delta.publish store.changed;
      relay_changed = notify_relays delta.publish store.relay_changed;
    })

  abbrev pub finish :
      {A : Type 0}
      → (ControlState → Result ApiError A)
      → Store D
      → Result ApiError (Store D)
      → Result ApiError A × Store D
  finish reply store (ok after) = (reply after.state, after)
  finish reply store (err e) = (err e, store)

  unfoldable pub run_decision : {A : Type 0} → Decision A → Store D → Result ApiError A × Store D
  run_decision (ok (answer a)) store = (ok a, store)
  run_decision (ok (commit delta reply)) store = finish reply store (commit_delta store delta)
  run_decision (err e) store = (err e, store)

  -- A section that holds the state lock: a refused commit leaves memory and database as they were,
  -- and an error of the answer comes after the commit.
  unfoldable pub run_section :
      {A : Type 0} → (ControlState → Decision A) → Store D → Result ApiError A × Store D
  unfolding run_decision
  run_section section store = run_decision (section store.state) store
