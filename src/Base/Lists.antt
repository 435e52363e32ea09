-- ===== src/Base/Lists.antt =====
-- The list operations of the source (`iter().any`, `find`, `filter`, `retain`) and what is proved of
-- them: a predicate on every member, and keys that no two members share.
use mathlib.Core.Path.{◌≡◌, refl, sym, ap, subst, ◌∙◌}
use mathlib.Core.Logic.{◌≢◌, inl, inr}
use mathlib.Core.Bool.{Bool, true, false, ◌||◌}
use mathlib.Core.Option.{Option, none, some, some-injective}
use mathlib.Core.List.{List, [], ◌∷◌}
use Prim.Native.Nat.{ℕ, suc}
use Prim.Native.String.{String}
use native.Mathlib.Omega.{arith}
use agent_scale.Base.Tests.{==_of_eq, ◌==◌, eq_of_==, ne_of_==, Bool-cases, if◌then◌else◌, ||-false}

module _ {ℓ} {A : Type ℓ} where
  unfoldable pub length : List A → ℕ
  length [] = 0
  length (x ∷ xs) = suc (length xs)

  unfoldable pub any : (A → Bool) → List A → Bool
  any p [] = false
  any p (x ∷ xs) = p x || any p xs

  unfoldable pub find : (A → Bool) → List A → Option A
  find p [] = none
  find p (x ∷ xs) = if p x then some x else find p xs

  -- `filter(keep).collect()` and `retain(keep)`.
  unfoldable pub retain : (A → Bool) → List A → List A
  retain keep [] = []
  retain keep (x ∷ xs) = let rest = retain keep xs in if keep x then x ∷ rest else rest

  abbrev pub All {κ} : (A → Type κ) → List A → Type κ
  All P [] = Unit
  All P (x ∷ xs) = P x × All P xs

  -- No two members share their key.
  abbrev pub Distinct {κ} : {K : Type κ} → (A → K) → List A → Type κ
  Distinct key [] = Unit
  Distinct key (x ∷ xs) = All (λ y. key y ≢ key x) xs × Distinct key xs

-- Updates in place: the first member that matches is replaced, or the record goes to the end.
unfoldable pub upsert_record {ℓ} : {A : Type ℓ} → List A → A → (A → A → Bool) → List A
upsert_record [] record' same_key = record' ∷ []
upsert_record (x ∷ xs) record' same_key =
    let rest = upsert_record xs record' same_key in
    if same_key x record' then record' ∷ xs else x ∷ rest

module _ {ℓ κ} {A : Type ℓ} (P : A → Type κ) where
  pub All-map {μ} : {Q : A → Type μ} → ((x : A) → P x → Q x) → (xs : List A) → All P xs → All Q xs
  All-map f [] h = tt
  All-map f (x ∷ xs) h = (f x h.0, All-map f xs h.1)

  pub All-× {μ} : (Q : A → Type μ) (xs : List A) → All P xs → All Q xs → All (λ x. P x × Q x) xs
  All-× Q [] h k = tt
  All-× Q (x ∷ xs) h k = ((h.0, k.0), All-× Q xs h.1 k.1)

  pub All-upsert_record :
      (xs : List A) (r : A) (same_key : A → A → Bool)
      → P r
      → All P xs
      → All P (upsert_record xs r same_key)
  unfolding upsert_record
  All-upsert_record [] r s p h = (p, tt)
  All-upsert_record (x ∷ xs) r s p h = elim (Bool-cases (s x r)) [
    | inl e ↦ rw e (p, h.1)
    | inr e ↦ rw e (h.0, All-upsert_record xs r s p h.1)
  ]

  pub All-retain : (keep : A → Bool) (xs : List A) → All P xs → All P (retain keep xs)
  unfolding retain
  All-retain keep [] h = tt
  All-retain keep (x ∷ xs) h = elim (Bool-cases (keep x)) [
    | inl e ↦ rw e (h.0, All-retain keep xs h.1)
    | inr e ↦ rw e (All-retain keep xs h.1)
  ]

  pub All-find :
      (p : A → Bool) (xs : List A) {a : A} → All P xs → find p xs ≡ some a → P a × (p a ≡ true)
  unfolding find
  All-find p [] h e = cc
  All-find p (x ∷ xs) {a} h e = elim (Bool-cases (p x)) [
    | inl t ↦ subst (λ y. P y × (p y ≡ true)) (some-injective _ _ (rw t at e)) (h.0, t)
    | inr f ↦ All-find p xs h.1 (rw f at e)
  ]

  pub All-of_pointwise : ((x : A) → P x) → (xs : List A) → All P xs
  All-of_pointwise f [] = tt
  All-of_pointwise f (x ∷ xs) = (f x, All-of_pointwise f xs)

module _ {ℓ} {A : Type ℓ} (p : A → Bool) where
  -- What a found record satisfies.
  pub find_sound : (xs : List A) {a : A} → find p xs ≡ some a → p a ≡ true
  find_sound xs e = (All-find (λ _. Unit {0}) p xs (All-of_pointwise _ (λ _. tt) xs) e).1

  pub any-All : (xs : List A) → any p xs ≡ false → All (λ x. p x ≡ false) xs
  unfolding any
  any-All [] h = tt
  any-All (x ∷ xs) h = let q = ||-false (p x) (any p xs) h in (q.0, any-All xs q.1)

  pub any_of_find : (xs : List A) {a : A} → find p xs ≡ some a → any p xs ≡ true
  unfolding any find
  any_of_find [] e = cc
  any_of_find (x ∷ xs) {a} e = ground (arith, any_of_find xs {a = a})

  pub any-false_of_find : (xs : List A) → find p xs ≡ none → any p xs ≡ false
  unfolding any find
  any-false_of_find [] e = refl
  any-false_of_find (x ∷ xs) e = ground (arith, any-false_of_find xs)

  -- A member that passes is still there when no member that passes is dropped.
  pub any-retain :
      (keep : A → Bool) (xs : List A)
      → All (λ x. p x ≡ true → keep x ≡ true) xs
      → any p (retain keep xs) ≡ any p xs
  unfolding any retain
  any-retain keep [] h = refl
  any-retain keep (x ∷ xs) h = ground (arith, any-retain keep xs h.1, h.0)

  pub any-upsert_record :
      (xs : List A) (r : A) (same_key : A → A → Bool)
      → ((x : A) → same_key x r ≡ true → p x ≡ true → p r ≡ true)
      → any p xs ≡ true
      → any p (upsert_record xs r same_key) ≡ true
  unfolding any upsert_record
  any-upsert_record [] r s f h = cc
  any-upsert_record (x ∷ xs) r s f h = ground (arith, any-upsert_record xs r s f, f x)

-- Records with an identifier: an update keeps every key distinct that it does not duplicate.
module _ {ℓ κ} {A : Type ℓ} {K : Type κ} (id : A → String) (key : A → K) where
  pub Distinct-upsert_record :
      (xs : List A) (r : A)
      → Distinct id xs
      → All (λ x. key x ≡ key r → id x ≡ id r) xs
      → Distinct key xs
      → Distinct key (upsert_record xs r (λ item k. id item == id k))
  unfolding upsert_record
  Distinct-upsert_record [] r d f h = (tt, tt)
  Distinct-upsert_record (x ∷ xs) r d f h = elim (Bool-cases (id x == id r)) [
    | inl e ↦ rw e (
      All-map (λ y. (key y ≡ key r → id y ≡ id r) × (id y ≢ id x))
          (λ y q k. q.1 (q.0 k ∙ sym (eq_of_== _ _ e))) xs (All-× _ _ xs f.1 d.0),
      h.1,
    )
    | inr e ↦ rw e (
      All-upsert_record _ xs r _ (λ k. ne_of_== _ _ e (f.0 (sym k))) h.0,
      Distinct-upsert_record xs r d.1 f.1 h.1,
    )
  ]

module _ {ℓ κ} {A : Type ℓ} {K : Type κ} (key : A → K) where
  pub Distinct-retain :
      (keep : A → Bool) (xs : List A) → Distinct key xs → Distinct key (retain keep xs)
  unfolding retain
  Distinct-retain keep [] h = tt
  Distinct-retain keep (x ∷ xs) h = elim (Bool-cases (keep x)) [
    | inl e ↦ rw e (All-retain _ keep xs h.0, Distinct-retain keep xs h.1)
    | inr e ↦ rw e (Distinct-retain keep xs h.1)
  ]

  -- Two members with one key are the same member.
  pub Distinct-find :
      (p : A → Bool) (xs : List A) {a : A}
      → Distinct key xs
      → find p xs ≡ some a
      → All (λ x. key x ≡ key a → x ≡ a) xs
  unfolding find
  Distinct-find p [] d e = tt
  Distinct-find p (x ∷ xs) {a} d e = elim (Bool-cases (p x)) [
    | inl t ↦
        let same : x ≡ a = some-injective _ _ (rw t at e) in
        (
          λ _. same,
          All-map (λ y. key y ≢ key x) (λ y ne k. absurd (ne (k ∙ ap key (sym same)))) xs d.0,
        )
    | inr f ↦
        let rest : find p xs ≡ some a = rw f at e in
        (
          λ k. absurd ((All-find (λ y. key y ≢ key x) p xs d.0 rest).0 (sym k)),
          Distinct-find p xs d.1 rest,
        )
  ]

module _ {ℓ} {A : Type ℓ} (id : A → String) where
  -- The identifier of a found record is one of the list's.
  pub any_found :
      (p : A → Bool) (xs : List A) {a : A} → find p xs ≡ some a → any (λ x. id x == id a) xs ≡ true
  unfolding any find
  any_found p [] e = cc
  any_found p (x ∷ xs) {a} e = elim (Bool-cases (p x)) [
    | inl t ↦
        let same : id x ≡ id a = ap id (some-injective _ _ (rw t at e)) in
        rw (==_of_eq (id x) (id a) same)
    | inr f ↦ rw (any_found p xs (rw f at e)) (ground arith)
  ]
