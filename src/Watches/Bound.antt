-- ===== src/Watches/Bound.antt =====
-- The registry counts the open guards of each endpoint (crates/as-control/src/main.rs,
-- WatchRegistry::acquire and the drop of WatchGuard).
use agent_scale.Base.{
  not, retain, ◌+◌, ◌-◌, ◌≤◌, ◌<◌, ℕ, String, ◌≡◌, refl, sym, ◌∙◌, ap, subst, Bool, true, false,
  ◌==◌, eq_of_==, ne_of_==, Option, none, some, List, [], ◌∷◌, leb, eqb, Bool-cases, inl, inr,
  if◌then◌else◌, find, find-upsert_record, find-upsert_record_other, find-retain_deleted,
  find-retain_other, ok, ok-injective, err-ne-ok, arith,
}
use agent_scale.Control.Registry.{
  watches_per_endpoint, Watching, count_in, watching, count_of, put_count, acquire, release_from,
  release,
}

-- How many open guards an endpoint has, and the guards after one was dropped.
unfoldable pub open_guards : String → List String → ℕ
open_guards k [] = 0
open_guards k (g ∷ gs) = if g == k then open_guards k gs + 1 else open_guards k gs

unfoldable pub drop_guard : String → List String → List String
drop_guard k [] = []
drop_guard k (g ∷ gs) = let rest = drop_guard k gs in if g == k then gs else g ∷ rest

-- The runs of a registry: a guard is acquired, or one that is open is dropped.
pub data Guarded : List String → List Watching → Type 0 where
  no_guards : Guarded [] []
  acquired :
      {guards : List String} {counts after : List Watching} (id : String)
      → Guarded guards counts
      → acquire counts id ≡ ok after
      → Guarded (id ∷ guards) after
  dropped :
      {guards : List String} {counts : List Watching} (id : String)
      → Guarded guards counts
      → 0 < open_guards id guards
      → Guarded (drop_guard id guards) (release counts id)

open_guards-drop :
    (k id : String) (gs : List String)
    → 0 < open_guards id gs
    → open_guards k (drop_guard id gs)
      ≡ (if id == k then open_guards k gs - 1 else open_guards k gs)
unfolding open_guards drop_guard
open_guards-drop k id [] h = omega arith
open_guards-drop k id (g ∷ gs) h = elim (Bool-cases (g == id)) [
  | inl e ↦
      let same : (g == k) ≡ (id == k) = ap (λ x. x == k) (eq_of_== g id e) in
      elim (Bool-cases (id == k)) [
        | inl y ↦ rw (e, same, y) (omega arith)
        | inr n ↦ rw (e, same, n) refl
      ]
  | inr e ↦
      let rest = open_guards-drop k id gs (rw e at h) in
      elim (Bool-cases (id == k)) [
        | inl y ↦
            let other : (g == k) ≡ false = ap (λ x. g == x) (sym (eq_of_== id k y)) ∙ e in
            rw (e, other, y) (rw y at rest)
        | inr n ↦
            let same : open_guards k (drop_guard id gs) ≡ open_guards k gs = rw n at rest in
            rw (e, n, same) refl
      ]
]

count-put :
    (counts : List Watching) (id k : String) (n : ℕ)
    → count_of (put_count counts id n) k ≡ (if id == k then n else count_of counts k)
count-put counts id k n = elim (Bool-cases (id == k)) [
  | inl e ↦ rw e (
      subst (λ j. count_of (put_count counts id n) j ≡ n) (eq_of_== id k e)
        (ap count_in (
          find-upsert_record (λ (w : Watching). w.endpoint_id) counts
            (record { endpoint_id = id; count = n }))))
  | inr e ↦ rw e (
      ap count_in (
        find-upsert_record_other (λ (w : Watching). w.endpoint_id) counts
          (record { endpoint_id = id; count = n }) k (ne_of_== id k e)))
]

count-removed :
    (counts : List Watching) (id k : String)
    → count_of (retain (λ item. not (item.endpoint_id == id)) counts) k
      ≡ (if id == k then 0 else count_of counts k)
count-removed counts id k = elim (Bool-cases (id == k)) [
  | inl e ↦ rw e (
      subst (λ j. count_of (retain (λ item. not (item.endpoint_id == id)) counts) j ≡ 0)
        (eq_of_== id k e)
        (ap count_in (find-retain_deleted (λ (w : Watching). w.endpoint_id) counts id)))
  | inr e ↦ rw e (
      ap count_in
        (find-retain_other (λ (w : Watching). w.endpoint_id) counts id k (ne_of_== id k e)))
]

zero_left : (n : ℕ) → eqb (n - 1) 0 ≡ true → 0 ≡ n - 1
zero_left n h = ground arith

below : (n : ℕ) → leb watches_per_endpoint n ≡ false → n + 1 ≤ watches_per_endpoint
below n h = ground arith

count-acquire :
    (counts after : List Watching) (id k : String)
    → acquire counts id ≡ ok after
    → (count_of after k ≡ (if id == k then count_of counts id + 1 else count_of counts k))
      × (count_of counts id + 1 ≤ watches_per_endpoint)
unfolding acquire
count-acquire counts after id k h =
    elim (Bool-cases (leb watches_per_endpoint (count_of counts id))) [
      | inl full ↦ absurd (err-ne-ok (rw full at h))
      | inr free ↦
          let same : put_count counts id (count_of counts id + 1) ≡ after =
            ok-injective (rw free at h) in
          (
            ap (λ c. count_of c k) (sym same) ∙ count-put counts id k (count_of counts id + 1),
            below (count_of counts id) free,
          )
    ]

if-same {ℓ} :
    {A : Type ℓ} (b : Bool) (x y z : A)
    → (b ≡ true → x ≡ y)
    → (b ≡ false → x ≡ z)
    → x ≡ (if b then y else z)
if-same true x y z h k = h refl
if-same false x y z h k = k refl

count-release_from :
    (counts : List Watching) (id k : String) (o : Option Watching)
    → watching counts id ≡ o
    → count_of (release_from counts id o) k
      ≡ (if id == k then count_in o - 1 else count_of counts k)
unfolding release_from
count-release_from counts id k none e =
    if-same (id == k) _ _ _ (λ y. ap (count_of counts) (sym (eq_of_== id k y)) ∙ ap count_in e)
      λ n. refl
count-release_from counts id k (some w) e = elim (Bool-cases (eqb (w.count - 1) 0)) [
  | inl z ↦ rw z (
      count-removed counts id k
      ∙ ap (λ m. if id == k then m else count_of counts k) (zero_left w.count z))
  | inr z ↦ rw z (count-put counts id k (w.count - 1))
]

count-release :
    (counts : List Watching) (id k : String)
    → count_of (release counts id) k
      ≡ (if id == k then count_of counts id - 1 else count_of counts k)
unfolding release
count-release counts id k = count-release_from counts id k (watching counts id) refl

-- In every run of the registry, the count of each endpoint is the number of its open guards, and
-- that is at most two.
pub Guarded-bounded :
    (guards : List String) (counts : List Watching) (k : String)
    → Guarded guards counts
    → (count_of counts k ≡ open_guards k guards) × (open_guards k guards ≤ watches_per_endpoint)
unfolding open_guards find
Guarded-bounded guards counts k no_guards = (refl, omega arith)
Guarded-bounded guards counts k (acquired {guards = before} {counts = earlier} id run done) =
    let v = Guarded-bounded before earlier k run in
    let v' = Guarded-bounded before earlier id run in
    let q = count-acquire earlier counts id k done in
    elim (Bool-cases (id == k)) [
      | inl y ↦
          let same = eq_of_== id k y in
          let count : count_of counts k ≡ count_of earlier id + 1 = rw y at q.0 in
          let here : open_guards id before ≡ open_guards k before =
            ap (λ x. open_guards x before) same in
          rw y (omega (arith, count, v'.0, here), omega (arith, q.1, v'.0, here))
      | inr n ↦
          let count : count_of counts k ≡ count_of earlier k = rw n at q.0 in
          rw n (count ∙ v.0, v.1)
    ]
Guarded-bounded guards counts k (dropped {guards = before} {counts = earlier} id run open') =
    let v = Guarded-bounded before earlier k run in
    let q = count-release earlier id k in
    let d = open_guards-drop k id before open' in
    elim (Bool-cases (id == k)) [
      | inl y ↦
          let count : count_of (release earlier id) k ≡ count_of earlier id - 1 = rw y at q in
          let left : open_guards k (drop_guard id before) ≡ open_guards k before - 1 = rw y at d in
          let same = ap (count_of earlier) (eq_of_== id k y) in
          (omega (arith, count, left, same, v.0), omega (arith, left, v.1))
      | inr n ↦
          let count : count_of (release earlier id) k ≡ count_of earlier k = rw n at q in
          let left : open_guards k (drop_guard id before) ≡ open_guards k before = rw n at d in
          (count ∙ v.0 ∙ sym left, omega (arith, left, v.1))
    ]
