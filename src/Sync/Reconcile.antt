-- ===== src/Sync/Reconcile.antt =====
-- What a synchronization puts and removes (crates/agent-scale/src/mcp_sync.rs, reconcile,
-- prepare_claude and prepare_codex). A map is the list of its entries; its order only decides in
-- which order the actions come and which of several conflicts is reported.
use agent_scale.Base.{
  String, Bool, true, not, ◌==◌, Option, none, some, List, [], ◌∷◌, ◌++◌, map, Result, ok, err,
  ensure, ◌>>=◌, ◌>>◌, if◌then◌else◌,
}
use agent_scale.Base.Maps.{Map, get, contains_key, insert, remove}

pub data ReconcileAction : Type 0 where
  put : String → String → String → ReconcileAction
  remove_entry : String → ReconcileAction

-- The edge and the server that an alias stands for.
abbrev pub Desired : Type 0
Desired = Map (String × String)

-- The removal of an entry that is not wanted any more, unless it was modified or is gone.
unfoldable pub stale_action : String → String → Option String → Result String (List ReconcileAction)
stale_action alias previous none = ok []
stale_action alias previous (some current) = do
  ensure (current == previous) "MCP entry was modified; refusing to remove it"
  ok (remove_entry alias ∷ [])

-- One round of the first loop: an owned entry that is desired is kept.
unfoldable pub stale_round :
    Desired
    → Map String
    → String
    → String
    → Map String
    → Result String (Map String × List ReconcileAction)
stale_round desired current alias previous owned =
    let removed = (do
      actions ← stale_action alias previous (get current alias)
      ok (remove owned alias, actions)) in
    if contains_key desired alias then ok (owned, []) else removed

-- The first loop, over the entries owned at its start.
unfoldable pub remove_stale :
    Desired
    → Map String
    → List (String × String)
    → Map String
    → Result String (Map String × List ReconcileAction)
remove_stale desired current [] owned = ok (owned, [])
remove_stale desired current ((alias, previous) ∷ rest) owned = do
  (owned', actions) ← stale_round desired current alias previous owned
  (owned'', actions') ← remove_stale desired current rest owned'
  ok (owned'', actions ++ actions')

-- Whether an entry is written: not when it is owned, unmodified and already as desired.
unfoldable pub must_put : Option String → Option String → String → Result String Bool
must_put none (some current) next = err "MCP entry already exists and is not managed by agent-scale"
must_put (some previous) (some current) next = do
  ensure (current == previous) "MCP entry was modified; refusing to overwrite it"
  ok (not (previous == next))
must_put previous none next = ok true

module _ (desired_hash : String → String → String) where
  -- One round of the second loop.
  unfoldable pub put_round :
      Map String
      → String
      → String
      → String
      → Map String
      → Result String (Map String × List ReconcileAction)
  put_round current alias edge server owned = do
    let next = desired_hash edge server
    writes ← must_put (get owned alias) (get current alias) next
    if writes then ok (insert owned alias next, put alias edge server ∷ []) else ok (owned, [])

  unfoldable pub put_desired :
      Map String
      → List (String × (String × String))
      → Map String
      → Result String (Map String × List ReconcileAction)
  put_desired current [] owned = ok (owned, [])
  put_desired current ((alias, (edge, server)) ∷ rest) owned = do
    (owned', actions) ← put_round current alias edge server owned
    (owned'', actions') ← put_desired current rest owned'
    ok (owned'', actions ++ actions')

  unfoldable pub reconcile :
      Desired → Map String → Map String → Result String (Map String × List ReconcileAction)
  reconcile desired owned current = do
    (owned', removals) ← remove_stale desired current owned owned
    (owned'', writes) ← put_desired current desired owned'
    ok (owned'', removals ++ writes)

module _ {Value : Type 0} (proxy : String → String → Value) where
  -- The loop over the actions, on the servers of a document.
  unfoldable pub apply_actions : List ReconcileAction → Map Value → Map Value
  apply_actions [] servers = servers
  apply_actions (put alias edge server ∷ actions) servers =
      apply_actions actions (insert servers alias (proxy edge server))
  apply_actions (remove_entry alias ∷ actions) servers =
      apply_actions actions (remove servers alias)

  module _ (fingerprint : Value → String) where
    unfoldable pub fingerprints : Map Value → Map String
    fingerprints servers = map (λ e. (e.0, fingerprint e.1)) servers

    -- The part of `prepare_claude` and `prepare_codex` between reading and writing the document.
    unfoldable pub prepare :
        Desired → Map String → Map Value → Result String (Map String × Map Value)
    prepare desired owned servers = do
      (owned', actions) ←
          reconcile (λ edge server. fingerprint (proxy edge server)) desired owned
            (fingerprints servers)
      ok (owned', apply_actions actions servers)
