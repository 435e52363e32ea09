-- ===== src/Base/Lookups.antt =====
-- Looking a record up by its identifier after an update or a deletion in the same table.
use mathlib.Core.Path.{subst, ◌≡◌, refl, ◌∙◌, sym}
use mathlib.Core.Bool.{true, Bool, false, not}
use mathlib.Core.Logic.{◌≢◌, inl, inr}
use mathlib.Core.Option.{some-injective, none, some}
use mathlib.Core.List.{List, [], ◌∷◌}
use Prim.Native.String.{String}
use native.Mathlib.Omega.{arith}
use agent_scale.Base.Tests.{◌==◌, ==_of_eq, eq_of_==, Bool-cases}
use agent_scale.Base.Lists.{find, any, retain, upsert_record}

pub ==-false : (a b : String) → a ≢ b → (a == b) ≡ false
==-false a b ne = elim (Bool-cases (a == b)) [ inl e ↦ absurd (ne (eq_of_== a b e)) | inr e ↦ e ]

module _ {ℓ} {A : Type ℓ} (id : A → String) where
  -- The updated record is the one that is found.
  pub find-upsert_record :
      (xs : List A) (r : A)
      → find (λ x. id x == id r) (upsert_record xs r (λ item key. id item == id key)) ≡ some r
  unfolding find upsert_record
  find-upsert_record [] r = rw (==_of_eq (id r) (id r) refl) refl
  find-upsert_record (x ∷ xs) r = elim (Bool-cases (id x == id r)) [
    | inl e ↦ rw (e, ==_of_eq (id r) (id r) refl) refl
    | inr e ↦ rw (e, e) (find-upsert_record xs r)
  ]

  -- A lookup of another identifier finds what it found.
  pub find-upsert_record_other :
      (xs : List A) (r : A) (k : String)
      → id r ≢ k
      → find (λ x. id x == k) (upsert_record xs r (λ item key. id item == id key))
        ≡ find (λ x. id x == k) xs
  unfolding find upsert_record
  find-upsert_record_other [] r k ne = rw (==-false (id r) k ne) refl
  find-upsert_record_other (x ∷ xs) r k ne = elim (Bool-cases (id x == id r)) [
    | inl e ↦
        let other : (id x == k) ≡ false =
          ==-false (id x) k (λ q. ne (sym (eq_of_== (id x) (id r) e) ∙ q)) in
        rw (e, ==-false (id r) k ne, other) refl
    | inr e ↦ rw (e, find-upsert_record_other xs r k ne) refl
  ]

  -- A deleted identifier is not found.
  pub find-retain_deleted :
      (xs : List A) (k : String) → find (λ x. id x == k) (retain (λ x. not (id x == k)) xs) ≡ none
  unfolding find retain
  find-retain_deleted [] k = refl
  find-retain_deleted (x ∷ xs) k = elim (Bool-cases (id x == k)) [
    | inl e ↦ rw e (find-retain_deleted xs k)
    | inr e ↦ rw (e, e) (find-retain_deleted xs k)
  ]

  pub find-retain_other :
      (xs : List A) (d k : String)
      → d ≢ k
      → find (λ x. id x == k) (retain (λ x. not (id x == d)) xs) ≡ find (λ x. id x == k) xs
  unfolding find retain
  find-retain_other [] d k ne = refl
  find-retain_other (x ∷ xs) d k ne = elim (Bool-cases (id x == d)) [
    | inl e ↦
        let other : (id x == k) ≡ false =
          ==-false (id x) k (λ q. ne (sym (eq_of_== (id x) d e) ∙ q)) in
        rw (e, other) (find-retain_other xs d k ne)
    | inr e ↦ rw (e, find-retain_other xs d k ne) refl
  ]

  -- What no record has is not found.
  pub find-absent :
      (xs : List A) (k : String) → any (λ x. id x == k) xs ≡ false → find (λ x. id x == k) xs ≡ none
  unfolding find any
  find-absent [] k h = refl
  find-absent (x ∷ xs) k h = ground (arith, find-absent xs k)

module _ {ℓ} {A : Type ℓ} where
  -- A found record that passes a test shows that one does.
  pub any_of_found :
      (q p : A → Bool) (xs : List A) {a : A} → find q xs ≡ some a → p a ≡ true → any p xs ≡ true
  unfolding find any
  any_of_found q p [] e h = cc
  any_of_found q p (x ∷ xs) {a} e h = elim (Bool-cases (q x)) [
    | inl t ↦
        let same : x ≡ a = some-injective _ _ (rw t at e) in
        rw (subst (λ y. p y ≡ true) (sym same) h) refl
    | inr f ↦ rw (any_of_found q p xs (rw f at e) h) (ground arith)
  ]
