-- ===== src/Base/Same.antt =====
-- Tables with the same records, whatever their order: what an identifier finds is the same in both.
-- Updates and deletions keep them the same, and what is true of one's records is true of the other's.
use mathlib.Core.Path.{◌≡◌, refl, sym, ap, ◌∙◌, subst}
use mathlib.Core.Logic.{◌≢◌, inl, inr}
use mathlib.Core.Bool.{true≢false, true, not}
use mathlib.Core.Option.{Option, some}
use mathlib.Core.List.{List, [], ◌∷◌}
use Prim.Native.String.{String}
use agent_scale.Base.Tests.{◌==◌, ==_refl, eq_of_==, ne_of_==, Bool-cases, Option-cases}
use agent_scale.Base.Lists.{
  All-×, Distinct-find, any, any_of_find, any-false_of_find, find, retain, upsert_record, All,
  All-map, All-find, Distinct,
}
use agent_scale.Base.Lookups.{
  ==-false, find-upsert_record, find-upsert_record_other, find-retain_deleted, find-retain_other,
}

module _ {ℓ} {A : Type ℓ} (id : A → String) where
  abbrev pub lookup_by : String → List A → Option A
  lookup_by k xs = find (λ x. id x == k) xs

  abbrev pub Same : List A → List A → Type ℓ
  Same xs ys = (k : String) → lookup_by k xs ≡ lookup_by k ys

  abbrev upsert : List A → A → List A
  upsert xs r = upsert_record xs r (λ item key. id item == id key)

  pub Same-upsert : (xs ys : List A) (r : A) → Same xs ys → Same (upsert xs r) (upsert ys r)
  Same-upsert xs ys r e k = elim (Bool-cases (id r == k)) [
    | inl t ↦
        subst (λ k'. lookup_by k' (upsert xs r) ≡ lookup_by k' (upsert ys r)) (eq_of_== _ _ t)
          (find-upsert_record id xs r ∙ sym (find-upsert_record id ys r))
    | inr t ↦
        let ne = ne_of_== _ _ t in
        find-upsert_record_other id xs r k ne ∙ e k ∙ sym (find-upsert_record_other id ys r k ne)
  ]

  pub Same-retain :
      (xs ys : List A) (d : String)
      → Same xs ys
      → Same (retain (λ x. not (id x == d)) xs) (retain (λ x. not (id x == d)) ys)
  Same-retain xs ys d e k = elim (Bool-cases (d == k)) [
    | inl t ↦
        subst
          (λ k'.
            lookup_by k' (retain (λ x. not (id x == d)) xs)
            ≡ lookup_by k' (retain (λ x. not (id x == d)) ys))
          (eq_of_== _ _ t) (find-retain_deleted id xs d ∙ sym (find-retain_deleted id ys d))
    | inr t ↦
        let ne = ne_of_== _ _ t in
        find-retain_other id xs d k ne ∙ e k ∙ sym (find-retain_other id ys d k ne)
  ]

  -- Of distinct records, each is found by its identifier.
  pub All-lookup : (xs : List A) → Distinct id xs → All (λ x. lookup_by (id x) xs ≡ some x) xs
  unfolding find
  All-lookup [] d = tt
  All-lookup (x ∷ xs) d = (
    rw (==_refl (id x)) refl,
    All-map (λ y. (id y ≢ id x) × (lookup_by (id y) xs ≡ some y))
        (λ y q. rw (==-false (id x) (id y) (λ e. q.0 (sym e))) q.1) xs
        (All-× _ _ xs d.0 (All-lookup xs d.1)),
  )

  pub All-of_lookup :
      (P : A → Type 0) (xs ys : List A) → Distinct id ys → Same xs ys → All P xs → All P ys
  All-of_lookup P xs ys d e h =
      All-map _ (λ y q. (All-find _ (λ x. id x == id y) xs h (e (id y) ∙ q)).0) ys (All-lookup ys d)

  find_in_tail :
      (y a : A) (ys : List A)
      → All (λ z. id z ≢ id y) ys
      → lookup_by (id a) ys ≡ some a
      → lookup_by (id a) (y ∷ ys) ≡ some a
  unfolding find
  find_in_tail y a ys d e =
      rw (==-false (id y) (id a) (λ q. (All-find _ (λ z. id z == id a) ys d e).0 (sym q))) e

  module _ {κ} {K : Type κ} (key : A → K) where
    -- Records that are found share no key.
    abbrev Injective : List A → Type (ℓ ⊔ κ)
    Injective xs =
        (a b : A)
        → lookup_by (id a) xs ≡ some a
        → lookup_by (id b) xs ≡ some b
        → key a ≡ key b
        → id a ≡ id b

    Distinct-Injective : (xs : List A) → Distinct key xs → Injective xs
    Distinct-Injective xs d a b ea eb same = ap id (
        (All-find _ (λ x. id x == id a) xs (Distinct-find key (λ x. id x == id b) xs d eb) ea).0
          same)

    Injective-Distinct : (xs : List A) → Distinct id xs → Injective xs → Distinct key xs
    Injective-Distinct [] d inj = tt
    Injective-Distinct (y ∷ ys) d inj =
        let found = All-lookup (y ∷ ys) d in
        (
          All-map (λ z. (id z ≢ id y) × (lookup_by (id z) (y ∷ ys) ≡ some z))
              (λ z q same. q.0 (inj z y q.1 found.0 same)) ys (All-× _ _ ys d.0 found.1),
          Injective-Distinct ys d.1
              λ a b ea eb. inj a b (find_in_tail y a ys d.0 ea) (find_in_tail y b ys d.0 eb),
        )

    pub Distinct-of_lookup :
        (xs ys : List A) → Distinct id ys → Same xs ys → Distinct key xs → Distinct key ys
    Distinct-of_lookup xs ys d e h =
        Injective-Distinct ys d
          λ a b ea eb. Distinct-Injective xs h a b (e (id a) ∙ ea) (e (id b) ∙ eb)

  -- An identifier that is listed in one is listed in the other.
  pub any-of_lookup :
      (xs ys : List A) (k : String)
      → Same xs ys
      → any (λ x. id x == k) xs ≡ true
      → any (λ x. id x == k) ys ≡ true
  any-of_lookup xs ys k e h = elim (Option-cases (lookup_by k xs)) [
    | inl none' ↦ absurd (true≢false (sym h ∙ any-false_of_find _ xs none'))
    | inr (a, found) ↦ any_of_find (λ x. id x == k) ys (sym (e k) ∙ found)
  ]
