-- ===== src/Sync/Rounds.antt =====
-- What the rounds of a reconciliation do to one alias (crates/agent-scale/src/mcp_sync.rs).
use agent_scale.Base.{
  String, true, false, ◌≡◌, ◌≢◌, refl, sym, ap, ◌∙◌, ◌⊎◌, inl, inr, ◌==◌, eq_of_==, ne_of_==,
  Bool-cases, Option, none, some, List, [], ◌∷◌, ◌++◌, find, All, Distinct, ok, Ensures, Ensures-ok,
  Ensures-bind, Ensures-ensure, Ensures-then, Ensures-if, subst,
}
use agent_scale.Base.Maps.{Map, get, contains_key, remove, get-remove, get-remove_other}
use agent_scale.Sync.Reconcile.{
  Desired, ReconcileAction, put, remove_entry, stale_action, stale_round, remove_stale,
  apply_actions, fingerprints,
}

some_is_not_none : {A : Type 0} {x : A} → ¬ (◌≡◌ {A = Option A} (some x) none)
some_is_not_none e = cc

module _ {Value : Type 0} (proxy : String → String → Value) (fingerprint : Value → String) where
  abbrev pub Written : Type 0
  Written = Map String × List ReconcileAction

  abbrev pub fingerprint_of : Option Value → Option String
  fingerprint_of none = none
  fingerprint_of (some v) = some (fingerprint v)

  pub get-fingerprints :
      (servers : Map Value) (a : String)
      → get (fingerprints proxy fingerprint servers) a ≡ fingerprint_of (get servers a)
  unfolding fingerprints find
  get-fingerprints [] a = refl
  get-fingerprints (x ∷ xs) a = elim (Bool-cases (x.0 == a)) [
    | inl t ↦ rw t refl
    | inr t ↦ rw t (get-fingerprints xs a)
  ]

  pub absent_keys :
      {A : Type 0} (entries : List (String × A)) (a : String)
      → get entries a ≡ none
      → All (λ (e : String × A). e.0 ≢ a) entries
  unfolding find
  absent_keys [] a e = tt
  absent_keys (x ∷ xs) a e = elim (Bool-cases (x.0 == a)) [
    | inl t ↦ absurd (some_is_not_none (rw t at e))
    | inr t ↦ (ne_of_== x.0 a t, absent_keys xs a (rw t at e))
  ]

  pub apply-append :
      (xs ys : List ReconcileAction) (s : Map Value)
      → apply_actions proxy (xs ++ ys) s ≡ apply_actions proxy ys (apply_actions proxy xs s)
  unfolding apply_actions
  apply-append [] ys s = refl
  apply-append (put alias edge server ∷ xs) ys s = apply-append xs ys _
  apply-append (remove_entry alias ∷ xs) ys s = apply-append xs ys _

  module _ (a : String) where
    -- Neither the entry nor its ownership changes.
    abbrev pub Untouched : Map String → Written → Type 0
    Untouched owned (owned', actions) =
        (get owned' a ≡ get owned a)
        × ((s : Map Value) → get (apply_actions proxy actions s) a ≡ get s a)

    -- The entry is gone, and so is its ownership.
    abbrev pub Gone : Map String → Written → Type 0
    Gone current (owned', actions) =
        (get owned' a ≡ none)
        × ((s : Map Value)
            → (get current a ≡ none → get s a ≡ none)
            → get (apply_actions proxy actions s) a ≡ none)

    -- The entry is as desired, for a table whose entry has the fingerprint that was read.
    abbrev pub Placed : Map String → String → Written → Type 0
    Placed current hash (owned', actions) =
        (get owned' a ≡ some hash)
        × ((s : Map Value)
            → fingerprint_of (get s a) ≡ get current a
            → fingerprint_of (get (apply_actions proxy actions s) a) ≡ some hash)

    pub after-Untouched :
        (owned owned' owned'' : Map String) (xs ys : List ReconcileAction)
        → Untouched owned (owned', xs)
        → Untouched owned' (owned'', ys)
        → Untouched owned (owned'', xs ++ ys)
    after-Untouched owned owned' owned'' xs ys h k = (
      k.0 ∙ h.0,
      λ s. ap (λ t. get t a) (apply-append xs ys s) ∙ k.1 (apply_actions proxy xs s) ∙ h.1 s,
    )

    stale_action-Gone :
        (current : Map String) (previous : String) (owned : Map String) (o : Option String)
        → get current a ≡ o
        → Ensures
            (λ actions.
              Gone current (remove owned a, actions)
              × ((get current a ≡ none) ⊎ (get current a ≡ some previous)))
            (stale_action a previous o)
    unfolding stale_action apply_actions
    stale_action-Gone current previous owned none e =
        Ensures-ok ((get-remove owned a, λ s h. h e), inl e)
    stale_action-Gone current previous owned (some c) e = Ensures-ensure _ _ _ λ same.
        Ensures-ok (
          (get-remove owned a, λ s _. get-remove s a),
          inr (e ∙ ap some (eq_of_== c previous same)),
        )

    stale_action-other :
        (alias previous : String) (owned : Map String) (o : Option String)
        → alias ≢ a
        → Ensures
            (λ actions. Untouched owned (remove owned alias, actions))
            (stale_action alias previous o)
    unfolding stale_action apply_actions
    stale_action-other alias previous owned none ne =
        Ensures-ok (get-remove_other owned alias a ne, λ s. refl)
    stale_action-other alias previous owned (some c) ne =
        Ensures-bind _ _
          λ _ _. Ensures-ok (get-remove_other owned alias a ne, λ s. get-remove_other s alias a ne)

    stale_round-other :
        (desired : Desired) (current : Map String) (alias previous : String) (owned : Map String)
        → alias ≢ a
        → Ensures (Untouched owned) (stale_round desired current alias previous owned)
    unfolding stale_round apply_actions
    stale_round-other desired current alias previous owned ne =
        Ensures-if (contains_key desired alias) (ok (owned, [])) _
          (λ _. Ensures-ok (refl, λ s. refl))
          λ _.
            Ensures-then _ _ (stale_action-other alias previous owned (get current alias) ne)
              λ actions h. Ensures-ok h

    stale_round-desired :
        (desired : Desired) (current : Map String) (previous : String) (owned : Map String)
        → contains_key desired a ≡ true
        → Ensures (Untouched owned) (stale_round desired current a previous owned)
    unfolding stale_round apply_actions
    stale_round-desired desired current previous owned wanted =
        rw wanted (Ensures-ok (refl, λ s. refl))

    stale_round-Gone :
        (desired : Desired) (current : Map String) (previous : String) (owned : Map String)
        → contains_key desired a ≡ false
        → Ensures
            (λ w. Gone current w × ((get current a ≡ none) ⊎ (get current a ≡ some previous)))
            (stale_round desired current a previous owned)
    unfolding stale_round
    stale_round-Gone desired current previous owned unwanted = rw unwanted (
        Ensures-then _ _ (stale_action-Gone current previous owned (get current a) refl)
          λ actions h. Ensures-ok h)

    remove_stale-Untouched :
        (desired : Desired) (current : Map String) (entries : List (String × String))
        (owned : Map String)
        → All (λ (e : String × String). e.0 ≢ a) entries
        → Ensures (Untouched owned) (remove_stale desired current entries owned)
    unfolding remove_stale apply_actions
    remove_stale-Untouched desired current [] owned h = Ensures-ok (refl, λ s. refl)
    remove_stale-Untouched desired current ((alias, previous) ∷ rest) owned h =
        Ensures-then _ _ (stale_round-other desired current alias previous owned h.0)
          λ (owned', xs) k.
            Ensures-then _ _ (remove_stale-Untouched desired current rest owned' h.1)
              λ (owned'', ys) l. Ensures-ok (after-Untouched owned owned' owned'' xs ys k l)

    pub remove_stale-desired :
        (desired : Desired) (current : Map String) (entries : List (String × String))
        (owned : Map String)
        → contains_key desired a ≡ true
        → Ensures (Untouched owned) (remove_stale desired current entries owned)
    unfolding remove_stale apply_actions
    remove_stale-desired desired current [] owned h = Ensures-ok (refl, λ s. refl)
    remove_stale-desired desired current ((alias, previous) ∷ rest) owned h =
        Ensures-then _ _ (round (Bool-cases (alias == a))) λ (owned', xs) k.
          Ensures-then _ _ (remove_stale-desired desired current rest owned' h)
            λ (owned'', ys) l. Ensures-ok (after-Untouched owned owned' owned'' xs ys k l)
      where
        round :
            ((alias == a) ≡ true) ⊎ ((alias == a) ≡ false)
            → Ensures (Untouched owned) (stale_round desired current alias previous owned)
        round (inl t) =
            subst (λ k. Ensures (Untouched owned) (stale_round desired current k previous owned))
              (sym (eq_of_== alias a t)) (stale_round-desired desired current previous owned h)
        round (inr t) = stale_round-other desired current alias previous owned (ne_of_== alias a t)

    -- An owned alias that is not desired: gone, and it was as it was left.
    abbrev pub Dropped : Map String → Option String → Written → Type 0
    Dropped current previous w =
        Gone current w × ((get current a ≡ none) ⊎ (get current a ≡ previous))

    pub Gone-then-Untouched :
        (current owned' owned'' : Map String) (xs ys : List ReconcileAction)
        → Gone current (owned', xs)
        → Untouched owned' (owned'', ys)
        → Gone current (owned'', xs ++ ys)
    Gone-then-Untouched current owned' owned'' xs ys h k = (
      k.0 ∙ h.0,
      λ s absent.
          ap (λ t. get t a) (apply-append xs ys s) ∙ k.1 (apply_actions proxy xs s) ∙ h.1 s absent,
    )

    Untouched-then-Gone :
        (current owned owned' owned'' : Map String) (xs ys : List ReconcileAction)
        → Untouched owned (owned', xs)
        → Gone current (owned'', ys)
        → Gone current (owned'', xs ++ ys)
    Untouched-then-Gone current owned owned' owned'' xs ys h k = (
      k.0,
      λ s absent.
          ap (λ t. get t a) (apply-append xs ys s)
          ∙ k.1 (apply_actions proxy xs s) (λ e. h.1 s ∙ absent e),
    )

    pub remove_stale-Dropped :
        (desired : Desired) (current : Map String) (entries : List (String × String))
        (owned : Map String) (previous : String)
        → contains_key desired a ≡ false
        → Distinct (λ (e : String × String). e.0) entries
        → get entries a ≡ some previous
        → Ensures (Dropped current (some previous)) (remove_stale desired current entries owned)
    unfolding remove_stale find
    remove_stale-Dropped desired current [] owned previous un d e = cc
    remove_stale-Dropped desired current ((alias, previous') ∷ rest) owned previous un d e =
        elim (Bool-cases (alias == a)) [
          | inl t ↦
              let same = eq_of_== alias a t in
              let stored : ◌≡◌ {A = Option String} (some previous') (some previous) = rw t at e in
              Ensures-then _ _
                (subst
                  (λ k.
                    Ensures (Dropped current (some previous'))
                      (stale_round desired current k previous' owned))
                  (sym same) (stale_round-Gone desired current previous' owned un))
                λ (owned', xs) h.
                  Ensures-then _ _
                    (remove_stale-Untouched desired current rest owned'
                      (subst (λ k. All (λ (x : String × String). x.0 ≢ k) rest) same d.0))
                    λ (owned'', ys) k. Ensures-ok (
                      Gone-then-Untouched current owned' owned'' xs ys h.0 k,
                      subst (λ o. (get current a ≡ none) ⊎ (get current a ≡ o)) stored h.1,
                    )
          | inr t ↦
              Ensures-then _ _
                (stale_round-other desired current alias previous' owned (ne_of_== alias a t))
                λ (owned', xs) h.
                  Ensures-then _ _
                    (remove_stale-Dropped desired current rest owned' previous un d.1 (rw t at e))
                    λ (owned'', ys) k.
                      Ensures-ok (Untouched-then-Gone current owned owned' owned'' xs ys h k.0, k.1)
        ]

    pub remove_stale-not_owned :
        (desired : Desired) (current : Map String) (entries : List (String × String))
        (owned : Map String)
        → get entries a ≡ none
        → Ensures (Untouched owned) (remove_stale desired current entries owned)
    remove_stale-not_owned desired current entries owned e =
        remove_stale-Untouched desired current entries owned (absent_keys entries a e)
