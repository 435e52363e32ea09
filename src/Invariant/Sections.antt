-- ===== src/Invariant/Sections.antt =====
-- A section whose delta fits the state keeps the state well-formed.
use agent_scale.Base.{
  ◌≡◌, refl, ◌⊎◌, inl, inr, inr, inl, ◌≤◌, ℕ, sym, subst, Ensures, All-map, arith,
}
use agent_scale.Control.State.{
  ControlState, StateDelta, Publish, publish_none, nodes, nodes_and_relays, apply,
}
use agent_scale.Control.Commit.{
  Outcome, Decision, answer, commit, bumped, relay_bumped, Store, ApplyDelta, advance, run_section,
}
use agent_scale.Control.Commit.Laws.{Committed, run_section_cases}
use agent_scale.Invariant.Tables.{Bounded, WellFormed}
use agent_scale.Invariant.Changes.{FitsAll, apply_changes-Bounded}

-- The delta fits, at the revisions that it publishes.
abbrev pub DeltaFits : StateDelta → ControlState → Type 0
DeltaFits d s =
    FitsAll (bumped d.publish s.revision) (relay_bumped d.publish s.relay_revision) d.changes s

abbrev pub OutcomeFits : {A : Type 0} → ControlState → Outcome A → Type 0
OutcomeFits s (answer a) = Unit
OutcomeFits s (commit d reply) = DeltaFits d s

pub le-bumped : (q : Publish) (n : ℕ) → n ≤ bumped q n
le-bumped publish_none n = omega arith
le-bumped nodes n = omega arith
le-bumped nodes_and_relays n = omega arith

pub le-relay_bumped : (q : Publish) (n : ℕ) → n ≤ relay_bumped q n
le-relay_bumped publish_none n = omega arith
le-relay_bumped nodes n = omega arith
le-relay_bumped nodes_and_relays n = omega arith

-- The invariant holds for larger bounds.
Bounded-mono :
    (b b' rb rb' : ℕ) (s : ControlState) → b ≤ b' → rb ≤ rb' → Bounded b rb s → Bounded b' rb' s
Bounded-mono b b' rb rb' s h h' v = record {
  clients = record {
    ids = v.clients.ids;
    names = v.clients.names;
    generations = All-map _ (λ c q. (q.0, omega arith)) s.clients v.clients.generations;
  };
  edges = record {
    ids = v.edges.ids;
    slots = v.edges.slots;
    generations = All-map _ (λ e q. (q.0, omega arith)) s.edges v.edges.generations;
  };
  owned = v.owned;
  relays = v.relays;
  invites = v.invites;
  provisioners = v.provisioners;
  revocations = record {
    ids = v.revocations.ids;
    ranges =
        All-map _ (λ r q. ((q.0.0, omega arith), omega arith)) s.revocations v.revocations.ranges;
  };
}

-- The revisions of a state say nothing about its tables.
Bounded-with_revisions :
    (b rb r rr : ℕ) (s : ControlState)
    → Bounded b rb s
    → Bounded b rb (record s { revision = r; relay_revision = rr })
Bounded-with_revisions b rb r rr s v = record {
  clients = v.clients;
  edges = v.edges;
  owned = v.owned;
  relays = v.relays;
  invites = v.invites;
  provisioners = v.provisioners;
  revocations = v.revocations;
}

-- A delta that fits leaves a well-formed state, at its new revisions.
pub advance-WellFormed :
    (d : StateDelta) (s : ControlState)
    → WellFormed s
    → DeltaFits d s
    → WellFormed
        (advance d (bumped d.publish s.revision) (relay_bumped d.publish s.relay_revision) s)
unfolding advance
advance-WellFormed d s v f =
    let b = bumped d.publish s.revision in
    let rb = relay_bumped d.publish s.relay_revision in
    Bounded-with_revisions b rb b rb (apply d s) (
      unfold apply in
      apply_changes-Bounded b rb d.changes s
        (Bounded-mono s.revision b s.relay_revision rb s (le-bumped d.publish s.revision)
          (le-relay_bumped d.publish s.relay_revision) v)
        f)

module _ {D : Type 0} (apply_delta : ApplyDelta D) where
  -- The store is as it was, or one delta that fits was committed.
  abbrev pub Settled : Store D → Store D → Type 0
  Settled store after =
      (after ≡ store)
      ⊎ ((delta : StateDelta) × DeltaFits delta store.state
          × Committed apply_delta store delta after)

  pub run_section-Settled :
      {A : Type 0} (section : ControlState → Decision A) (store : Store D)
      → Ensures (OutcomeFits store.state) (section store.state)
      → Settled store (run_section apply_delta section store).1
  run_section-Settled section store fits =
      run_section_cases apply_delta (Settled store) section store (inl refl)
        λ delta reply after e c. inr (delta, fits.value (commit delta reply) e, c)

  pub Settled-WellFormed :
      (store after : Store D)
      → Settled store after
      → WellFormed store.state
      → WellFormed after.state
  Settled-WellFormed store after (inl same) v = rw same v
  Settled-WellFormed store after (inr (delta, fits, c)) v =
      subst WellFormed (sym c.state_after) (advance-WellFormed delta store.state v fits)
