-- ===== src/Database/Provisioners.antt =====
-- What the statements do to the active rows of the schedulers' table (crates/as-control/src/db.rs).
use agent_scale.Base.{
  String, Bool, true, false, ◌||◌, ◌==◌, ◌≡◌, refl, sym, ◌∙◌, Bool-cases, inl, inr, Option, none,
  some, List, [], ◌∷◌, map, any, find, retain, upsert_record, ==_refl, ==-false, eq_of_==, ||-false,
  ◌≢◌,
}
use agent_scale.Control.State.{ProvisionerRecord}
use agent_scale.Database.Tables.{ProvisionerRow}
use agent_scale.Database.Statements.{deactivate}
use agent_scale.Database.Load.{active_provisioners}

-- The active scheduler of an identity.
abbrev pub active_with : String → List ProvisionerRow → Option ProvisionerRecord
active_with k rows = find (λ r. r.endpoint_id == k) (active_provisioners rows)

abbrev upsert_row : List ProvisionerRow → ProvisionerRow → List ProvisionerRow
upsert_row rows r = upsert_record rows r (λ item key. item.endpoint_id == key.endpoint_id)

-- A placeholder is not active.
pub active-placeholder :
    (rows : List ProvisionerRow) (r : ProvisionerRow)
    → r.active ≡ false
    → any (λ (x : ProvisionerRow). x.endpoint_id == r.endpoint_id) rows ≡ false
    → active_provisioners (upsert_row rows r) ≡ active_provisioners rows
unfolding active_provisioners upsert_record any
active-placeholder [] r h absent = rw h refl
active-placeholder (x ∷ xs) r h absent =
    let q =
      ||-false (x.endpoint_id == r.endpoint_id)
        (any (λ (y : ProvisionerRow). y.endpoint_id == r.endpoint_id) xs) absent in
    rw (q.0, active-placeholder xs r h q.1) refl

pub active_with-put :
    (rows : List ProvisionerRow) (r : ProvisionerRow)
    → r.active ≡ true
    → active_with r.endpoint_id (upsert_row rows r)
      ≡ some (record { name = r.name; endpoint_id = r.endpoint_id })
unfolding active_provisioners upsert_record find
active_with-put [] r h = rw (h, ==_refl r.endpoint_id) refl
active_with-put (x ∷ xs) r h = elim (Bool-cases (x.endpoint_id == r.endpoint_id)) [
  | inl e ↦ rw (e, h, ==_refl r.endpoint_id) refl
  | inr e ↦ elim (Bool-cases x.active) [
    | inl a ↦ rw (e, a, e) (active_with-put xs r h)
    | inr a ↦ rw (e, a) (active_with-put xs r h)
  ]
]

-- A row of another identity does not count.
drop_row :
    (k : String) (x : ProvisionerRow) (xs : List ProvisionerRow)
    → (x.endpoint_id == k) ≡ false
    → active_with k (x ∷ xs) ≡ active_with k xs
unfolding active_provisioners find
drop_row k x xs h = elim (Bool-cases x.active) [ inl a ↦ rw (a, h) refl | inr a ↦ rw a refl ]

keep_row :
    (k : String) (x : ProvisionerRow) (xs ys : List ProvisionerRow)
    → active_with k xs ≡ active_with k ys
    → active_with k (x ∷ xs) ≡ active_with k (x ∷ ys)
unfolding active_provisioners find
keep_row k x xs ys e = elim (Bool-cases x.active) [
  | inl a ↦ elim (Bool-cases (x.endpoint_id == k)) [ inl b ↦ rw (a, b) refl | inr b ↦ rw (a, b) e ]
  | inr a ↦ rw a e
]

pub active_with-put_other :
    (k : String) (rows : List ProvisionerRow) (r : ProvisionerRow)
    → r.endpoint_id ≢ k
    → active_with k (upsert_row rows r) ≡ active_with k rows
unfolding upsert_record
active_with-put_other k [] r ne = drop_row k r [] (==-false _ _ ne)
active_with-put_other k (x ∷ xs) r ne = elim (Bool-cases (x.endpoint_id == r.endpoint_id)) [
  | inl e ↦
      let other : (x.endpoint_id == k) ≡ false =
        ==-false _ _ (λ q. ne (sym (eq_of_== _ _ e) ∙ q)) in
      rw e (drop_row k r xs (==-false _ _ ne) ∙ sym (drop_row k x xs other))
  | inr e ↦ rw e (keep_row k x _ _ (active_with-put_other k xs r ne))
]

-- A deactivated scheduler is not active, and the others are as they were.
pub active_with-deactivate :
    (k : String) (rows : List ProvisionerRow) → active_with k (map (deactivate k) rows) ≡ none
unfolding deactivate active_provisioners find
active_with-deactivate k [] = refl
active_with-deactivate k (x ∷ xs) = elim (Bool-cases (x.endpoint_id == k)) [
  | inl e ↦ rw e (active_with-deactivate k xs)
  | inr e ↦ rw e (drop_row k x (map (deactivate k) xs) e ∙ active_with-deactivate k xs)
]

pub active_with-deactivate_other :
    (k id : String) (rows : List ProvisionerRow)
    → id ≢ k
    → active_with k (map (deactivate id) rows) ≡ active_with k rows
unfolding deactivate active_provisioners find
active_with-deactivate_other k id [] ne = refl
active_with-deactivate_other k id (x ∷ xs) ne = elim (Bool-cases (x.endpoint_id == id)) [
  | inl e ↦
      let other : (x.endpoint_id == k) ≡ false =
        ==-false _ _ (λ q. ne (sym (eq_of_== _ _ e) ∙ q)) in
      rw e (active_with-deactivate_other k id xs ne ∙ sym (drop_row k x xs other))
  | inr e ↦
      rw e (keep_row k x (map (deactivate id) xs) xs (active_with-deactivate_other k id xs ne))
]

-- Rows that are kept whenever they are active.
pub active-retain :
    (test : ProvisionerRow → Bool) (rows : List ProvisionerRow)
    → active_provisioners (retain (λ r. r.active || test r) rows) ≡ active_provisioners rows
unfolding active_provisioners retain
active-retain test [] = refl
active-retain test (x ∷ xs) = elim (Bool-cases x.active) [
  | inl a ↦ rw (a, active-retain test xs) refl
  | inr a ↦ elim (Bool-cases (test x)) [
    | inl t ↦ rw (t, a, active-retain test xs) refl
    | inr t ↦ rw (t, a, active-retain test xs) refl
  ]
]
