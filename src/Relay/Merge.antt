-- ===== src/Relay/Merge.antt =====
-- What a relay's accumulated revocations keep of an identity (crates/as-relay/src/main.rs,
-- apply_revocation_update).
use mathlib.Core.Bool.{true≢false}
use mathlib.Core.Option.{some-injective}
use agent_scale.Base.{
  ℕ, String, Bool, true, false, ◌≡◌, ◌≢◌, refl, sym, ap, ◌∙◌, ◌≤◌, ◌<◌, ◌==◌, eq_of_==, ltb-false,
  Bool-cases, Option-cases, inl, inr, Option, some, List, [], ◌∷◌, map, any, find, All, All-map,
  All-upsert_record, All-find, Distinct, any-false_of_find, ne_of_==, upsert_record, holds, arith,
  ok, Ensures, Ensures-ok, Ensures-bind, Ensures-ok_or, Ensures-reject_if, Ensures-then,
}
use agent_scale.Base.Sorting.{insert_row, order_by, order_by-All}
use agent_scale.Control.Platform.{Platform}
use agent_scale.Control.Watch.{Revocation, Entry, entries}
use agent_scale.Relay.Access.{lookup}
use agent_scale.Relay.Update.{Merged, insert, moves_backwards, unexpired, merge_revocations}
use agent_scale.Relay.Held.{
  Covering, is_of, Strong, Listed, Strongly, Mapped, Parsed, insert-Mapped, insert-maps, of_holds,
  unexpired-Strongly, unexpired-Mapped, Kept, insert-Kept, unexpired-Kept,
}

any-insert_row :
    {A : Type 0} (test : A → Bool) (before : A → A → Bool) (x : A) (ys : List A)
    → any test (x ∷ ys) ≡ true
    → any test (insert_row before x ys) ≡ true
unfolding any insert_row
any-insert_row test before x [] h = h
any-insert_row test before x (y ∷ ys) h = ground (arith, any-insert_row test before x ys)

pub any-order_by :
    {A : Type 0} (test : A → Bool) (before : A → A → Bool) (xs : List A)
    → any test xs ≡ true
    → any test (order_by before xs) ≡ true
unfolding any order_by
any-order_by test before [] h = h
any-order_by test before (x ∷ xs) h =
    any-insert_row test before x (order_by before xs) (ground (arith, any-order_by test before xs))

module _ (p : Platform) (id : String) (gen exp : ℕ) where
  -- An update that lasts as long leaves the identity covered.
  abbrev pub Lasting : List Revocation → Type 0
  Lasting rs = All (λ r. p.parse_endpoint r.endpoint_id ≡ some id → exp ≤ r.expires_at) rs

  not_backwards :
      (merged : Merged) (k : String) (r : Revocation)
      → moves_backwards (find (λ e. e.0 == k) merged) r ≡ false
      → k ≡ id
      → Mapped p id gen exp merged
      → Strongly p id gen exp merged
      → gen ≤ r.revoked_through_generation
  unfolding moves_backwards
  not_backwards merged k r ahead same mapped strong =
      elim (Option-cases (find (λ (e : String × Revocation). e.0 == k) merged)) [
        | inl absent ↦ absurd (
            true≢false (
              sym mapped
              ∙ any-false_of_find _ merged (
                  ap (λ k'. find (λ (e : String × Revocation). e.0 == k') merged) (sym same)
                  ∙ absent)))
        | inr ((i, x), found) ↦
            let q = All-find _ (λ (e : String × Revocation). e.0 == k) merged strong found in
            let old = q.0 (eq_of_== i k q.1 ∙ same) in
            let now = ltb-false _ _ (rw found at ahead) in omega (arith, old.0, now)
      ]

  merge-Covering :
      (rs : List Revocation) (merged : Merged)
      → Lasting rs
      → Strongly p id gen exp merged
      → Mapped p id gen exp merged
      → Ensures
          (λ m. Strongly p id gen exp m × Mapped p id gen exp m)
          (merge_revocations p rs merged)
  unfolding merge_revocations
  merge-Covering [] merged l h k = Ensures-ok (h, k)
  merge-Covering (r ∷ rs) merged l h k = Ensures-ok_or _ _ _ λ id' e.
      Ensures-reject_if _ _ _ λ ahead.
        merge-Covering rs (insert id' r merged) l.1
          (All-upsert_record _ merged (id', r) _
            (λ same. (not_backwards merged id' r ahead same k h, l.0 (e ∙ ap some same))) h)
          (insert-Mapped p id gen exp id' r merged k)

  insert-replaces :
      (r : Revocation) (merged : Merged)
      → Covering p id gen exp r
      → Distinct (λ (e : String × Revocation). e.0) merged
      → Strongly p id gen exp (insert id r merged)
  unfolding upsert_record
  insert-replaces r [] c d = (λ _. c, tt)
  insert-replaces r (x ∷ xs) c d = elim (Bool-cases (x.0 == id)) [
    | inl t ↦ rw t (
      λ _. c,
      All-map (λ (y : String × Revocation). y.0 ≢ x.0)
          (λ y ne same. absurd (ne (same ∙ sym (eq_of_== x.0 id t)))) xs d.0,
    )
    | inr t ↦ rw t (λ same. absurd (ne_of_== x.0 id t same), insert-replaces r xs c d.1)
  ]

  Strong-Lasting : (rs : List Revocation) → Strong p id gen exp rs → Lasting rs
  Strong-Lasting rs = All-map _ (λ r h e. (h e).1) rs

  -- Whatever the map held of an identity, it is covered once an update lists it.
  merge-covers :
      (rs : List Revocation) (merged : Merged)
      → Strong p id gen exp rs
      → Listed p id gen exp rs
      → Kept p id gen exp merged
      → Ensures
          (λ m. Strongly p id gen exp m × Mapped p id gen exp m)
          (merge_revocations p rs merged)
  unfolding merge_revocations any
  merge-covers [] merged h k d = cc
  merge-covers (r ∷ rs) merged h k d = Ensures-ok_or _ _ _ λ id' e. Ensures-reject_if _ _ _ λ ahead.
      elim (Bool-cases (is_of p id gen exp r)) [
        | inl mine ↦
            let of : p.parse_endpoint r.endpoint_id ≡ some id =
              of_holds p id gen exp (p.parse_endpoint r.endpoint_id) mine in
            let same : id' ≡ id = some-injective _ _ (sym e ∙ of) in
            rw same (
              merge-Covering rs (insert id r merged) (Strong-Lasting rs h.1)
                (insert-replaces r merged (h.0 of) d.1) (insert-maps p id gen exp r merged))
        | inr other ↦
            merge-covers rs (insert id' r merged) h.1 (rw other at k)
              (insert-Kept p id gen exp id' r merged e d)
      ]

  pub merge-Kept :
      (rs : List Revocation) (merged : Merged)
      → Kept p id gen exp merged
      → Ensures (Kept p id gen exp) (merge_revocations p rs merged)
  unfolding merge_revocations
  merge-Kept [] merged h = Ensures-ok h
  merge-Kept (r ∷ rs) merged h = Ensures-ok_or _ _ _ λ id' e.
      Ensures-reject_if _ _ _
        λ _. merge-Kept rs (insert id' r merged) (insert-Kept p id gen exp id' r merged e h)

  values-Strong :
      (merged : Merged)
      → Parsed p id gen exp merged
      → Strongly p id gen exp merged
      → Strong p id gen exp (map (λ (e : String × Revocation). e.1) merged)
  values-Strong [] h k = tt
  values-Strong (x ∷ xs) h k =
      (λ e. k.0 (some-injective _ _ (sym h.0 ∙ e)), values-Strong xs h.1 k.1)

  values-Listed :
      (merged : Merged)
      → Parsed p id gen exp merged
      → Mapped p id gen exp merged
      → Listed p id gen exp (map (λ (e : String × Revocation). e.1) merged)
  unfolding any
  values-Listed [] h k = cc
  values-Listed (x ∷ xs) h k = elim (Bool-cases (x.0 == id)) [
    | inl t ↦
        let mine : is_of p id gen exp x.1 ≡ true = ap (λ o. holds o id) h.0 ∙ t in rw mine refl
    | inr t ↦
        let other : is_of p id gen exp x.1 ≡ false = ap (λ o. holds o id) h.0 ∙ t in
        rw other (values-Listed xs h.1 (rw t at k))
  ]

  -- The index of revocations that revoke an identity covers it.
  abbrev pub Covers : Option Entry → Type 0
  Covers o = (e : Entry) × (o ≡ some e) × (gen ≤ e.1.0) × (exp ≤ e.1.1)

  pub entries-Covers :
      (rs : List Revocation)
      → Strong p id gen exp rs
      → Listed p id gen exp rs
      → Ensures (λ index. Covers (lookup index id)) (entries p rs)
  unfolding entries find any
  entries-Covers [] h k = cc
  entries-Covers (r ∷ rs) h k = Ensures-ok_or _ _ _ λ id' e.
      let test : is_of p id gen exp r ≡ (id' == id) = ap (λ o. holds o id) e in
      elim (Bool-cases (id' == id)) [
        | inl t ↦
            let q = h.0 (e ∙ ap some (eq_of_== id' id t)) in
            Ensures-bind _ _ λ rest _. Ensures-ok (rw t (_, refl, q.0, q.1))
        | inr t ↦
            Ensures-then _ _ (entries-Covers rs h.1 (rw (test, t) at k))
              λ rest c. Ensures-ok (rw t c)
      ]

  -- The revocations that an accepted update leaves.
  pub accumulated :
      (before : Revocation → Revocation → Bool) (now : ℕ)
      → now < exp
      → (update current : List Revocation) (merged : Merged) → Lasting update
      → Strong p id gen exp current
      → Listed p id gen exp current
      → merge_revocations p update (unexpired p now current []) ≡ ok merged
      → Strong p id gen exp (order_by before (map (λ (e : String × Revocation). e.1) merged))
        × Listed p id gen exp (order_by before (map (λ (e : String × Revocation). e.1) merged))
  accumulated before now alive update current merged lasting h k e =
      let held =
        (merge-Covering update _ lasting (unexpired-Strongly p id gen exp now current [] h tt)
            (unexpired-Mapped p id gen exp now current [] alive h k)).value
          merged e in
      let kept =
        (merge-Kept update _ (unexpired-Kept p id gen exp now current [] (tt, tt))).value merged
          e in
      (
        order_by-All (λ r. r.endpoint_id) before _ _ (values-Strong merged kept.0 held.0),
        any-order_by (is_of p id gen exp) before _ (values-Listed merged kept.0 held.1),
      )

  pub installed :
      (before : Revocation → Revocation → Bool) (now : ℕ) (update current : List Revocation)
      (merged : Merged)
      → Strong p id gen exp update
      → Listed p id gen exp update
      → merge_revocations p update (unexpired p now current []) ≡ ok merged
      → Strong p id gen exp (order_by before (map (λ (e : String × Revocation). e.1) merged))
        × Listed p id gen exp (order_by before (map (λ (e : String × Revocation). e.1) merged))
  installed before now update current merged h k e =
      let kept = unexpired-Kept p id gen exp now current [] (tt, tt) in
      let held = (merge-covers update _ h k kept).value merged e in
      let parsed = ((merge-Kept update _ kept).value merged e).0 in
      (
        order_by-All (λ r. r.endpoint_id) before _ _ (values-Strong merged parsed held.0),
        any-order_by (is_of p id gen exp) before _ (values-Listed merged parsed held.1),
      )
