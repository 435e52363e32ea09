-- ===== src/Base/Sorting.antt =====
-- Stable insertion sorts, for the test that one record comes strictly before another, and that they
-- keep the records of a table.
use mathlib.Core.Path.{◌≡◌, refl, sym, ◌∙◌}
use mathlib.Core.Logic.{◌≢◌, inl, inr}
use mathlib.Core.Bool.{Bool}
use mathlib.Core.List.{List, [], ◌∷◌}
use Prim.Native.String.{String}
use agent_scale.Base.Tests.{◌==◌, eq_of_==, Bool-cases, if◌then◌else◌}
use agent_scale.Base.Lists.{find, All, Distinct}
use agent_scale.Base.Lookups.{==-false}
use agent_scale.Base.Same.{Same, lookup_by}

unfoldable pub insert_row : {A : Type 0} → (A → A → Bool) → A → List A → List A
insert_row before x [] = x ∷ []
insert_row before x (y ∷ ys) =
    let later = insert_row before x ys in if before y x then y ∷ later else x ∷ y ∷ ys

unfoldable pub order_by : {A : Type 0} → (A → A → Bool) → List A → List A
unfolding insert_row
order_by before [] = []
order_by before (x ∷ xs) = insert_row before x (order_by before xs)

module _ {A : Type 0} (id : A → String) (before : A → A → Bool) where
  insert_row-All :
      (P : A → Type 0) (x : A) (ys : List A) → P x → All P ys → All P (insert_row before x ys)
  unfolding insert_row
  insert_row-All P x [] p h = (p, tt)
  insert_row-All P x (y ∷ ys) p h = elim (Bool-cases (before y x)) [
    | inl t ↦ rw t (h.0, insert_row-All P x ys p h.1)
    | inr t ↦ rw t (p, h)
  ]

  insert_row-Distinct :
      (x : A) (ys : List A)
      → All (λ y. id y ≢ id x) ys
      → Distinct id ys
      → Distinct id (insert_row before x ys)
  unfolding insert_row
  insert_row-Distinct x [] h d = (tt, tt)
  insert_row-Distinct x (y ∷ ys) h d = elim (Bool-cases (before y x)) [
    | inl t ↦ rw t (
      insert_row-All (λ z. id z ≢ id y) x ys (λ e. h.0 (sym e)) d.0,
      insert_row-Distinct x ys h.1 d.1,
    )
    | inr t ↦ rw t (h, d)
  ]

  -- Two records of different identifiers may change places.
  swap :
      (x y : A) (xs : List A) (k : String)
      → id y ≢ id x
      → lookup_by id k (x ∷ y ∷ xs) ≡ lookup_by id k (y ∷ x ∷ xs)
  unfolding find
  swap x y xs k ne = elim (Bool-cases (id x == k)) [
    | inl t ↦ rw (t, ==-false (id y) k (λ e. ne (e ∙ sym (eq_of_== _ _ t)))) refl
    | inr t ↦ rw t refl
  ]

  cons-Same :
      (x : A) (xs ys : List A) (k : String)
      → lookup_by id k xs ≡ lookup_by id k ys
      → lookup_by id k (x ∷ xs) ≡ lookup_by id k (x ∷ ys)
  unfolding find
  cons-Same x xs ys k e = rw e refl

  insert_row-Same :
      (x : A) (ys : List A) → All (λ y. id y ≢ id x) ys → Same id (insert_row before x ys) (x ∷ ys)
  unfolding insert_row
  insert_row-Same x [] h k = refl
  insert_row-Same x (y ∷ ys) h k = elim (Bool-cases (before y x)) [
    | inl t ↦ rw t (cons-Same y _ _ k (insert_row-Same x ys h.1 k) ∙ sym (swap x y ys k h.0))
    | inr t ↦ rw t refl
  ]

  pub order_by-All : (P : A → Type 0) (xs : List A) → All P xs → All P (order_by before xs)
  unfolding order_by
  order_by-All P [] h = tt
  order_by-All P (x ∷ xs) h = insert_row-All P x _ h.0 (order_by-All P xs h.1)

  pub order_by-Distinct : (xs : List A) → Distinct id xs → Distinct id (order_by before xs)
  unfolding order_by
  order_by-Distinct [] d = tt
  order_by-Distinct (x ∷ xs) d =
      insert_row-Distinct x _ (order_by-All _ xs d.0) (order_by-Distinct xs d.1)

  pub order_by-Same : (xs : List A) → Distinct id xs → Same id (order_by before xs) xs
  unfolding order_by
  order_by-Same [] d k = refl
  order_by-Same (x ∷ xs) d k =
      insert_row-Same x _ (order_by-All _ xs d.0) k ∙ cons-Same x _ xs k (order_by-Same xs d.1 k)
