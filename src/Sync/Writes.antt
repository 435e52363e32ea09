-- ===== src/Sync/Writes.antt =====
-- What the second loop of a reconciliation does to one alias (crates/agent-scale/src/mcp_sync.rs).
use agent_scale.Base.{
  String, true, false, ◌≡◌, ◌≢◌, refl, sym, ap, ◌∙◌, ◌⊎◌, inl, inr, ◌==◌, eq_of_==, ne_of_==,
  Bool-cases, not-false, Option, none, some, List, [], ◌∷◌, ◌++◌, find, All, Distinct, Ensures,
  Ensures-ok, Ensures-err, Ensures-bind, Ensures-ensure, Ensures-then, subst,
}
use mathlib.Core.Option.{some-injective}
use agent_scale.Base.Maps.{Map, get, get-insert, get-insert_other}
use agent_scale.Sync.Reconcile.{ReconcileAction, must_put, put_round, put_desired, apply_actions}
use agent_scale.Sync.Rounds.{
  Untouched, Placed, fingerprint_of, apply-append, after-Untouched, absent_keys,
}

module _ {Value : Type 0} (proxy : String → String → Value) (fingerprint : Value → String) where
  abbrev pub hash : String → String → String
  hash edge server = fingerprint (proxy edge server)

  -- An entry is written when there is none or it is owned as it is, and is left when it is owned and
  -- already has the fingerprint.
  must_put-Owned :
      (previous current : Option String) (next : String)
      → Ensures
          (λ writes.
            (writes ≡ true → (current ≡ none) ⊎ (current ≡ previous))
            × (writes ≡ false → (previous ≡ some next) × (current ≡ previous)))
          (must_put previous current next)
  unfolding must_put
  must_put-Owned none none next = Ensures-ok (λ _. inl refl, λ f. cc)
  must_put-Owned (some p) none next = Ensures-ok (λ _. inl refl, λ f. cc)
  must_put-Owned none (some c) next = Ensures-err _
  must_put-Owned (some p) (some c) next = Ensures-ensure _ _ _ λ same.
      let kept : ◌≡◌ {A = Option String} (some c) (some p) = ap some (eq_of_== c p same) in
      Ensures-ok (λ _. inr kept, λ f. (ap some (eq_of_== p next (not-false (p == next) f)), kept))

  module _ (a : String) where
    put_round-other :
        (current : Map String) (alias edge server : String) (owned : Map String)
        → alias ≢ a
        → Ensures
            (Untouched proxy fingerprint a owned)
            (put_round hash current alias edge server owned)
    unfolding put_round apply_actions
    put_round-other current alias edge server owned ne = Ensures-bind _ _ (elim [
      | true ↦ λ _. Ensures-ok (
        get-insert_other owned alias (hash edge server) a ne,
        λ s. get-insert_other s alias (proxy edge server) a ne,
      )
      | false ↦ λ _. Ensures-ok (refl, λ s. refl)
    ])

    -- What was read was absent, or as it was owned.
    abbrev pub Respected : Map String → Map String → Type 0
    Respected current owned = (get current a ≡ none) ⊎ (get current a ≡ get owned a)

    put_round-Placed :
        (current : Map String) (edge server : String) (owned : Map String)
        → Ensures
            (λ w. Placed proxy fingerprint a current (hash edge server) w × Respected current owned)
            (put_round hash current a edge server owned)
    unfolding put_round apply_actions
    put_round-Placed current edge server owned =
        Ensures-then _ _ (must_put-Owned (get owned a) (get current a) (hash edge server)) (elim [
          | true ↦ λ h. Ensures-ok (
            (
              get-insert owned a (hash edge server),
              λ s _. ap (fingerprint_of proxy fingerprint) (get-insert s a (proxy edge server)),
            ),
            h.0 refl,
          )
          | false ↦ λ h. let q = h.1 refl in Ensures-ok ((q.0, λ s e. e ∙ q.1 ∙ q.0), inr q.1)
        ])

    put_desired-Untouched :
        (current : Map String) (entries : List (String × (String × String))) (owned : Map String)
        → All (λ (e : String × (String × String)). e.0 ≢ a) entries
        → Ensures (Untouched proxy fingerprint a owned) (put_desired hash current entries owned)
    unfolding put_desired apply_actions
    put_desired-Untouched current [] owned h = Ensures-ok (refl, λ s. refl)
    put_desired-Untouched current ((alias, (edge, server)) ∷ rest) owned h =
        Ensures-then _ _ (put_round-other current alias edge server owned h.0) λ (owned', xs) k.
          Ensures-then _ _ (put_desired-Untouched current rest owned' h.1) λ (owned'', ys) l.
            Ensures-ok (after-Untouched proxy fingerprint a owned owned' owned'' xs ys k l)

    pub put_desired-not_desired :
        (current : Map String) (entries : List (String × (String × String))) (owned : Map String)
        → get entries a ≡ none
        → Ensures (Untouched proxy fingerprint a owned) (put_desired hash current entries owned)
    put_desired-not_desired current entries owned e =
        put_desired-Untouched current entries owned (absent_keys proxy fingerprint entries a e)

    Placed-then-Untouched :
        (current owned' owned'' : Map String) (h : String) (xs ys : List ReconcileAction)
        → Placed proxy fingerprint a current h (owned', xs)
        → Untouched proxy fingerprint a owned' (owned'', ys)
        → Placed proxy fingerprint a current h (owned'', xs ++ ys)
    Placed-then-Untouched current owned' owned'' h xs ys p u = (
      u.0 ∙ p.0,
      λ s e.
          ap (fingerprint_of proxy fingerprint) (
            ap (λ t. get t a) (apply-append proxy fingerprint xs ys s)
            ∙ u.1 (apply_actions proxy xs s))
          ∙ p.1 s e,
    )

    pub Untouched-then-Placed :
        (current owned owned' owned'' : Map String) (h : String) (xs ys : List ReconcileAction)
        → Untouched proxy fingerprint a owned (owned', xs)
        → Placed proxy fingerprint a current h (owned'', ys)
        → Placed proxy fingerprint a current h (owned'', xs ++ ys)
    Untouched-then-Placed current owned owned' owned'' h xs ys u p = (
      p.0,
      λ s e.
          ap (λ t. fingerprint_of proxy fingerprint (get t a))
            (apply-append proxy fingerprint xs ys s)
          ∙ p.1 (apply_actions proxy xs s) (ap (fingerprint_of proxy fingerprint) (u.1 s) ∙ e),
    )

    pub put_desired-Placed :
        (current : Map String) (entries : List (String × (String × String))) (owned : Map String)
        (edge server : String)
        → Distinct (λ (e : String × (String × String)). e.0) entries
        → get entries a ≡ some (edge, server)
        → Ensures
            (λ w. Placed proxy fingerprint a current (hash edge server) w × Respected current owned)
            (put_desired hash current entries owned)
    unfolding put_desired find
    put_desired-Placed current [] owned edge server d e = cc
    put_desired-Placed current ((alias, (edge', server')) ∷ rest) owned edge server d e =
        elim (Bool-cases (alias == a)) [
          | inl t ↦
              let same = eq_of_== alias a t in
              let target : ◌≡◌ {A = Option (String × String)} (some (edge', server'))
                  (some (edge, server)) =
                rw t at e in
              let pair : (edge', server') ≡ (edge, server) = some-injective _ _ target in
              let hashes : hash edge' server' ≡ hash edge server =
                ap (λ (x : String × String). hash x.0 x.1) pair in
              Ensures-then _ _
                (subst
                  (λ k.
                    Ensures
                      (λ w.
                        Placed proxy fingerprint a current (hash edge' server') w
                        × Respected current owned)
                      (put_round hash current k edge' server' owned))
                  (sym same) (put_round-Placed current edge' server' owned))
                λ (owned', xs) h.
                  Ensures-then _ _
                    (put_desired-Untouched current rest owned' (
                      subst (λ k. All (λ (x : String × (String × String)). x.0 ≢ k) rest) same d.0))
                    λ (owned'', ys) k. Ensures-ok (
                      subst (λ g. Placed proxy fingerprint a current g (owned'', xs ++ ys)) hashes
                          (Placed-then-Untouched current owned' owned'' _ xs ys h.0 k),
                      h.1,
                    )
          | inr t ↦
              Ensures-then _ _
                (put_round-other current alias edge' server' owned (ne_of_== alias a t))
                λ (owned', xs) h.
                  Ensures-then _ _
                    (put_desired-Placed current rest owned' edge server d.1 (rw t at e))
                    λ (owned'', ys) k. Ensures-ok (
                      Untouched-then-Placed current owned owned' owned'' _ xs ys h k.0,
                      subst (λ o. (get current a ≡ none) ⊎ (get current a ≡ o)) h.0 k.1,
                    )
        ]
