-- ===== src/Sync/Synced.antt =====
-- What a synchronization leaves of every alias (crates/agent-scale/src/mcp_sync.rs, reconcile,
-- prepare_claude and prepare_codex).
use agent_scale.Base.{
  String, ◌≡◌, refl, sym, ap, ◌∙◌, ◌⊎◌, inl, inr, Option, none, some, List, ◌++◌, Distinct, is_some,
  Ensures, Ensures-ok, Ensures-then, subst,
}
use agent_scale.Base.Maps.{Map, get}
use agent_scale.Sync.Reconcile.{
  Desired, ReconcileAction, reconcile, apply_actions, fingerprints, prepare,
}
use agent_scale.Sync.Rounds.{
  fingerprint_of, get-fingerprints, remove_stale-desired, remove_stale-Dropped,
  remove_stale-not_owned, after-Untouched, Gone-then-Untouched,
}
use agent_scale.Sync.Writes.{
  hash, put_desired-not_desired, put_desired-Placed, Untouched-then-Placed,
}

module _ {Value : Type 0} (proxy : String → String → Value) (fingerprint : Value → String)
    (a : String) where
  -- By what is desired of an alias and whether it was owned: the entry and the ownership afterwards.
  abbrev pub EntryAfter :
      Option (String × String)
      → Option String
      → Option Value
      → Option String
      → Option Value
      → Type 0
  EntryAfter (some (edge, server)) owned before owned' after =
      (owned' ≡ some (hash proxy fingerprint edge server))
      × (fingerprint_of proxy fingerprint after ≡ some (hash proxy fingerprint edge server))
  EntryAfter none (some previous) before owned' after = (owned' ≡ none) × (after ≡ none)
  EntryAfter none none before owned' after = (owned' ≡ none) × (after ≡ before)

  -- The entry is as it was, or there was none, or it was owned and had not been modified.
  abbrev pub Respectful : Option String → Option Value → Option Value → Type 0
  Respectful owned before after =
      (after ≡ before) ⊎ ((before ≡ none) ⊎ (fingerprint_of proxy fingerprint before ≡ owned))

  abbrev pub Synced : Desired → Map String → Map Value → Map String × Map Value → Type 0
  Synced desired owned servers (owned', servers') =
      EntryAfter (get desired a) (get owned a) (get servers a) (get owned' a) (get servers' a)
      × Respectful (get owned a) (get servers a) (get servers' a)

  absent_value : (o : Option Value) → fingerprint_of proxy fingerprint o ≡ none → o ≡ none
  absent_value none e = refl
  absent_value (some v) e = cc

  -- The outcome for an alias, by whether it is desired and owned.
  Outcome : Desired → Map String → Map Value → Map String × List ReconcileAction → Type 0
  Outcome desired owned servers (owned', actions) =
      Synced desired owned servers (owned', apply_actions proxy actions servers)

  conclude :
      (desired : Desired) (owned : Map String) (servers : Map Value) (owned' : Map String)
      (actions : List ReconcileAction) (wanted : Option (String × String))
      (previous : Option String)
      → get desired a ≡ wanted
      → get owned a ≡ previous
      → EntryAfter wanted previous
          (get servers a)
          (get owned' a)
          (get (apply_actions proxy actions servers) a)
        × Respectful previous (get servers a) (get (apply_actions proxy actions servers) a)
      → Outcome desired owned servers (owned', actions)
  unfolding Outcome
  conclude desired owned servers owned' actions wanted previous e e' x =
      subst
        (λ o.
          EntryAfter o (get owned a) (get servers a) (get owned' a)
            (get (apply_actions proxy actions servers) a)
          × Respectful (get owned a) (get servers a) (get (apply_actions proxy actions servers) a))
        (sym e)
        (subst
          (λ o.
            EntryAfter wanted o (get servers a) (get owned' a)
              (get (apply_actions proxy actions servers) a)
            × Respectful o (get servers a) (get (apply_actions proxy actions servers) a))
          (sym e') x)

  -- What was read of the table is so of the table.
  as_read :
      (before : Option Value) (owned : Option String) {current : Option String}
      → current ≡ fingerprint_of proxy fingerprint before
      → (current ≡ none) ⊎ (current ≡ owned)
      → (before ≡ none) ⊎ (fingerprint_of proxy fingerprint before ≡ owned)
  as_read before owned read (inl q) = inl (absent_value before (sym read ∙ q))
  as_read before owned read (inr q) = inr (sym read ∙ q)

  both :
      (desired : Desired) (owned : Map String) (servers : Map Value)
      → Distinct (λ (e : String × (String × String)). e.0) desired
      → Distinct (λ (e : String × String). e.0) owned
      → (wanted : Option (String × String)) → get desired a ≡ wanted
      → (previous : Option String) → get owned a ≡ previous
      → Ensures (Outcome desired owned servers) (
          reconcile (hash proxy fingerprint) desired owned (fingerprints proxy fingerprint servers))
  unfolding reconcile Outcome
  both desired owned servers d d' (some (edge, server)) e previous e' =
      let current = fingerprints proxy fingerprint servers in
      let read = get-fingerprints proxy fingerprint servers a in
      Ensures-then _ _
        (remove_stale-desired proxy fingerprint a desired current owned owned (ap is_some e))
        λ (owned', xs) h.
          Ensures-then _ _
            (put_desired-Placed proxy fingerprint a current desired owned' edge server d e)
            λ (owned'', ys) k.
              let placed =
                Untouched-then-Placed proxy fingerprint a current owned owned' owned'' _ xs ys h
                  k.0 in
              Ensures-ok (
                conclude desired owned servers owned'' (xs ++ ys) (some (edge, server))
                  (get owned a) e refl
                  (
                    (placed.0, placed.1 servers (sym read)),
                    inr (
                        as_read (get servers a) (get owned a) read
                          (subst (λ o. (get current a ≡ none) ⊎ (get current a ≡ o)) h.0 k.1)),
                  ))
  both desired owned servers d d' none e (some previous) e' =
      let current = fingerprints proxy fingerprint servers in
      let read = get-fingerprints proxy fingerprint servers a in
      Ensures-then _ _
        (remove_stale-Dropped proxy fingerprint a desired current owned owned previous
          (ap is_some e) d' e')
        λ (owned', xs) h.
          Ensures-then _ _ (put_desired-not_desired proxy fingerprint a current desired owned' e)
            λ (owned'', ys) k.
              let gone =
                Gone-then-Untouched proxy fingerprint a current owned' owned'' xs ys h.0 k in
              Ensures-ok (
                conclude desired owned servers owned'' (xs ++ ys) none (some previous) e e' (
                  (gone.0, gone.1 servers (λ q. absent_value (get servers a) (sym read ∙ q))),
                  inr (as_read (get servers a) (some previous) read h.1),
                ))
  both desired owned servers d d' none e none e' =
      let current = fingerprints proxy fingerprint servers in
      Ensures-then _ _ (remove_stale-not_owned proxy fingerprint a desired current owned owned e')
        λ (owned', xs) h.
          Ensures-then _ _ (put_desired-not_desired proxy fingerprint a current desired owned' e)
            λ (owned'', ys) k.
              let kept = after-Untouched proxy fingerprint a owned owned' owned'' xs ys h k in
              Ensures-ok (
                conclude desired owned servers owned'' (xs ++ ys) none none e e'
                  ((kept.0 ∙ e', kept.1 servers), inl (kept.1 servers)))

  -- After a synchronization that succeeds, for every alias: one that is desired has the desired entry
  -- and is owned with its fingerprint; one that is owned and not desired any more has no entry and is
  -- not owned; and any other is as it was. An entry that is not owned, or that was modified since it
  -- was written, is never changed: then the synchronization fails.
  pub prepare-Synced :
      (desired : Desired) (owned : Map String) (servers : Map Value)
      → Distinct (λ (e : String × (String × String)). e.0) desired
      → Distinct (λ (e : String × String). e.0) owned
      → Ensures (Synced desired owned servers) (prepare proxy fingerprint desired owned servers)
  unfolding prepare Outcome
  prepare-Synced desired owned servers d d' =
      Ensures-then _ _ (both desired owned servers d d' (get desired a) refl (get owned a) refl)
        λ (owned', actions) h. Ensures-ok h
