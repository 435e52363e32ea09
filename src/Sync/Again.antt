-- ===== src/Sync/Again.antt =====
-- A synchronization that comes again changes nothing (crates/agent-scale/src/mcp_sync.rs).
use agent_scale.Base.{
  String, true, false, not, ◌≡◌, ◌≢◌, refl, ap, ◌∙◌, ==_refl, Option, Option-cases, inl, inr, none,
  some, List, [], ◌∷◌, subst, All, All-map, Distinct, ok, bind_ok, proceed, is_some, Ensures,
}
use agent_scale.Base.Maps.{Map, get, value_of, contains_key}
use agent_scale.Base.Same.{All-lookup}
use agent_scale.Sync.Reconcile.{
  Desired, remove_stale, stale_round, put_desired, put_round, must_put, reconcile, apply_actions,
  fingerprints, prepare,
}
use agent_scale.Sync.Rounds.{get-fingerprints, absent_keys}
use agent_scale.Sync.Writes.{hash}
use agent_scale.Sync.Synced.{Synced, EntryAfter, prepare-Synced}

-- Every entry of a list has an entry with its key.
present :
    {A : Type 0} (m : Map A) → All (λ (e : String × A). ¬ All (λ (x : String × A). x.0 ≢ e.0) m) m
present [] = tt
present (x ∷ xs) = (λ h. h.0 refl, All-map _ (λ e f h. f h.1) xs (present xs))

module _ {Value : Type 0} (proxy : String → String → Value) (fingerprint : Value → String) where
  remove_stale-kept :
      (desired : Desired) (current owned : Map String) (entries : List (String × String))
      → All (λ (e : String × String). contains_key desired e.0 ≡ true) entries
      → remove_stale desired current entries owned ≡ ok (owned, [])
  unfolding remove_stale stale_round
  remove_stale-kept desired current owned [] h = refl
  remove_stale-kept desired current owned ((alias, previous) ∷ rest) h =
      rw h.0 (bind_ok _ refl ∙ bind_ok _ (remove_stale-kept desired current owned rest h.1))

  -- An entry that is owned and stands as desired.
  AsDesired : Map String → Map String → String × (String × String) → Type 0
  AsDesired current owned (alias, (edge, server)) =
      (get owned alias ≡ some (hash proxy fingerprint edge server))
      × (get current alias ≡ some (hash proxy fingerprint edge server))

  must_put-same : (h : String) → must_put (some h) (some h) h ≡ ok false
  unfolding must_put
  must_put-same h = proceed _ _ (==_refl h) ∙ ap (λ b. ok (not b)) (==_refl h)

  put_desired-kept :
      (current owned : Map String) (entries : List (String × (String × String)))
      → All (AsDesired current owned) entries
      → put_desired (hash proxy fingerprint) current entries owned ≡ ok (owned, [])
  unfolding put_desired put_round AsDesired
  put_desired-kept current owned [] h = refl
  put_desired-kept current owned ((alias, (edge, server)) ∷ rest) h =
      bind_ok {a = (owned, [])} _
        (rw (h.0.0, h.0.1) (bind_ok _ (must_put-same (hash proxy fingerprint edge server))))
      ∙ bind_ok _ (put_desired-kept current owned rest h.1)

  desired-AsDesired :
      (desired : Desired) (owned : Map String) (servers : Map Value) (owned' : Map String)
      (servers' : Map Value)
      → Distinct (λ (e : String × (String × String)). e.0) desired
      → ((a : String) → Synced proxy fingerprint a desired owned servers (owned', servers'))
      → All (AsDesired (fingerprints proxy fingerprint servers') owned') desired
  unfolding AsDesired
  desired-AsDesired desired owned servers owned' servers' d synced =
      All-map _
        (λ (alias, (edge, server)) found.
          let q =
            subst
              (λ o.
                EntryAfter proxy fingerprint alias o (get owned alias) (get servers alias)
                  (get owned' alias) (get servers' alias))
              (ap value_of found) (synced alias).0 in
          (q.0, get-fingerprints proxy fingerprint servers' alias ∙ q.1))
        desired (All-lookup (λ (e : String × (String × String)). e.0) desired d)

  not_desired :
      (desired : Desired) (owned : Map String) (servers : Map Value) (owned' : Map String)
      (servers' : Map Value) (a : String)
      → Synced proxy fingerprint a desired owned servers (owned', servers')
      → get desired a ≡ none
      → get owned' a ≡ none
  not_desired desired owned servers owned' servers' a synced e = by_previous (get owned a) (
      subst
        (λ o.
          EntryAfter proxy fingerprint a o (get owned a) (get servers a) (get owned' a)
            (get servers' a))
        e synced.0)
    where
      by_previous :
          (previous : Option String)
          → EntryAfter proxy fingerprint a none previous
              (get servers a)
              (get owned' a)
              (get servers' a)
          → get owned' a ≡ none
      by_previous none x = x.0
      by_previous (some p) x = x.0

  owned-desired :
      (desired : Desired) (owned : Map String) (servers : Map Value) (owned' : Map String)
      (servers' : Map Value)
      → ((a : String) → Synced proxy fingerprint a desired owned servers (owned', servers'))
      → All (λ (e : String × String). contains_key desired e.0 ≡ true) owned'
  owned-desired desired owned servers owned' servers' synced =
      All-map _
        (λ e listed. elim (Option-cases (get desired e.0)) [
          | inl absent ↦ absurd (
              listed (
                absent_keys proxy fingerprint owned' e.0
                  (not_desired desired owned servers owned' servers' e.0 (synced e.0) absent)))
          | inr (w, found) ↦ ap is_some found
        ])
        owned' (present owned')

  -- A synchronization that follows a successful one, with the same servers desired and no change in
  -- between, succeeds and leaves the entries and the ownership as they are.
  pub prepare-again :
      (desired : Desired) (owned : Map String) (servers : Map Value)
      → Distinct (λ (e : String × (String × String)). e.0) desired
      → Distinct (λ (e : String × String). e.0) owned
      → Ensures
          (λ (r : Map String × Map Value). prepare proxy fingerprint desired r.0 r.1 ≡ ok r)
          (prepare proxy fingerprint desired owned servers)
  unfolding prepare reconcile apply_actions
  prepare-again desired owned servers d d' = record {
    value = λ (owned', servers') e.
        let synced = λ (a : String).
          (prepare-Synced proxy fingerprint a desired owned servers d d').value (owned', servers')
            e in
        let current = fingerprints proxy fingerprint servers' in
        let first =
          remove_stale-kept desired current owned' owned'
            (owned-desired desired owned servers owned' servers' synced) in
        let second =
          put_desired-kept current owned' desired
            (desired-AsDesired desired owned servers owned' servers' d synced) in
        bind_ok _ (bind_ok _ first ∙ bind_ok _ second);
  }
