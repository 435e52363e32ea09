-- ===== src/Base/Results.antt =====
-- Results with errors, their `do` blocks, and the rules by which a postcondition of a block is
-- proved from the facts that its guards leave.
use mathlib.Core.Path.{◌≡◌, refl, subst}
use mathlib.Core.Logic.{◌≢◌}
use mathlib.Core.Bool.{Bool, true, false}
use agent_scale.Base.Tests.{if◌then◌else◌}
use mathlib.Core.Option.{Option, none, some}

pub data Result {ℓ} (E A : Type ℓ) : Type ℓ where
  ok : A → Result E A
  err : E → Result E A

infixl 5 ◌>>=◌ ◌>>◌
unfoldable pub ◌>>=◌ {ℓ} : {E A B : Type ℓ} → Result E A → (A → Result E B) → Result E B
ok a >>= f = f a
err e >>= f = err e

abbrev pub ◌>>◌ {ℓ} : {E A B : Type ℓ} → Result E A → Result E B → Result E B
m >> k = m >>= λ _. k

-- `ensure!`: the error unless the test holds.
unfoldable pub ensure {ℓ} : {E : Type ℓ} → Bool → E → Result E (Unit {ℓ})
ensure true e = ok tt
ensure false e = err e

-- `if test { return Err(e) }`.
unfoldable pub reject_if {ℓ} : {E : Type ℓ} → Bool → E → Result E (Unit {ℓ})
reject_if true e = err e
reject_if false e = ok tt

-- `option.ok_or_else(...)`.
unfoldable pub ok_or {ℓ} : {E A : Type ℓ} → Option A → E → Result E A
ok_or none e = err e
ok_or (some a) e = ok a

unfoldable pub map_err {ℓ} : {E F A : Type ℓ} → (E → F) → Result E A → Result F A
map_err f (ok a) = ok a
map_err f (err e) = err (f e)

-- `P` holds of the value, if there is one.
pub record Ensures {ℓ κ} {E A : Type ℓ} (P : A → Type κ) (m : Result E A) : Type (ℓ ⊔ κ) where
  pub value : (a : A) → m ≡ ok a → P a

module _ {ℓ} {E A : Type ℓ} where
  pub ok-injective : {a b : A} → ◌≡◌ {A = Result E A} (ok a) (ok b) → a ≡ b
  ok-injective h = cc

  pub err-ne-ok : {e : E} {a : A} → ◌≢◌ {A = Result E A} (err e) (ok a)
  err-ne-ok h = cc

-- A result that is never a value is an error.
pub err_of_no_value {ℓ} :
    {E A : Type ℓ} (m : Result E A) → ((a : A) → ¬ (m ≡ ok a)) → (e : E) × (m ≡ err e)
err_of_no_value (ok a) h = absurd (h a refl)
err_of_no_value (err e) h = (e, refl)

module _ {ℓ κ} {E B : Type ℓ} {P : B → Type κ} where
  pub Ensures-ok : {b : B} → P b → Ensures {E = E} P (ok b)
  Ensures-ok p = record { value = λ a h. subst P (ok-injective h) p }

  pub Ensures-err : (e : E) → Ensures P (err e)
  Ensures-err e = record { value = λ a h. absurd (err-ne-ok h) }

module _ {ℓ κ} {E A B : Type ℓ} {P : B → Type κ} where
  pub Ensures-bind :
      (m : Result E A) (f : A → Result E B)
      → ((a : A) → m ≡ ok a → Ensures P (f a))
      → Ensures P (m >>= f)
  unfolding ◌>>=◌
  Ensures-bind (ok a) f h = h a refl
  Ensures-bind (err e) f h = Ensures-err e

  -- The first part ensures `Q`, on which the rest may rely.
  pub Ensures-then :
      {Q : A → Type κ} (m : Result E A) (f : A → Result E B)
      → Ensures Q m
      → ((a : A) → Q a → Ensures P (f a))
      → Ensures P (m >>= f)
  Ensures-then m f q h = Ensures-bind m f λ a e. h a (q.value a e)

  pub Ensures-ok_or :
      (o : Option A) (e : E) (f : A → Result E B)
      → ((a : A) → o ≡ some a → Ensures P (f a))
      → Ensures P (ok_or o e >>= f)
  unfolding ok_or ◌>>=◌
  Ensures-ok_or none e f h = Ensures-err e
  Ensures-ok_or (some a) e f h = h a refl

module _ {ℓ κ} {E B : Type ℓ} {P : B → Type κ} where
  pub Ensures-reject_if :
      (b : Bool) (e : E) (m : Result E B)
      → (b ≡ false → Ensures P m)
      → Ensures P (reject_if b e >> m)
  unfolding reject_if ◌>>=◌
  Ensures-reject_if true e m h = Ensures-err e
  Ensures-reject_if false e m h = h refl

  pub Ensures-ensure :
      (b : Bool) (e : E) (m : Result E B) → (b ≡ true → Ensures P m) → Ensures P (ensure b e >> m)
  unfolding ensure ◌>>=◌
  Ensures-ensure true e m h = h refl
  Ensures-ensure false e m h = Ensures-err e

  pub Ensures-if :
      (b : Bool) (m n : Result E B)
      → (b ≡ true → Ensures P m)
      → (b ≡ false → Ensures P n)
      → Ensures P (if b then m else n)
  Ensures-if true m n h k = h refl
  Ensures-if false m n h k = k refl

pub map_err-ok {ℓ} :
    {E F A : Type ℓ} (f : E → F) (m : Result E A) (a : A) → map_err f m ≡ ok a → m ≡ ok a
unfolding map_err
map_err-ok f (ok b) a h = let q = ok-injective h in rw q refl
map_err-ok f (err e) a h = absurd (err-ne-ok h)

pub Ensures-map_err {ℓ κ} :
    {E F A : Type ℓ} {P : A → Type κ} (f : E → F) (m : Result E A)
    → Ensures P m
    → Ensures P (map_err f m)
Ensures-map_err f m h = record { value = λ a e. h.value a (map_err-ok f m a e) }

pub reject_if-ok {ℓ} :
    {E : Type ℓ} (b : Bool) (e : E) {u : Unit {ℓ}} → reject_if b e ≡ ok u → b ≡ false
unfolding reject_if
reject_if-ok true e h = absurd (err-ne-ok h)
reject_if-ok false e h = refl

pub ensure-ok {ℓ} : {E : Type ℓ} (b : Bool) (e : E) {u : Unit {ℓ}} → ensure b e ≡ ok u → b ≡ true
unfolding ensure
ensure-ok true e h = refl
ensure-ok false e h = absurd (err-ne-ok h)

-- How a block goes on once a part of it is known.
module _ {ℓ} {E A B : Type ℓ} where
  pub bind_ok : {m : Result E A} {a : A} (f : A → Result E B) → m ≡ ok a → (m >>= f) ≡ f a
  unfolding ◌>>=◌
  bind_ok {m} {a} f h = rw h refl

  pub ok_or-some :
      {o : Option A} {a : A} (e : E) (f : A → Result E B) → o ≡ some a → (ok_or o e >>= f) ≡ f a
  unfolding ◌>>=◌ ok_or
  ok_or-some {o} {a} e f h = rw h refl

pub pass {ℓ} :
    {E B : Type ℓ} {b : Bool} (e : E) (m : Result E B) → b ≡ false → (reject_if b e >> m) ≡ m
unfolding ◌>>=◌ reject_if
pass e m h = rw h refl

pub proceed {ℓ} :
    {E B : Type ℓ} {b : Bool} (e : E) (m : Result E B) → b ≡ true → (ensure b e >> m) ≡ m
unfolding ◌>>=◌ ensure
proceed e m h = rw h refl
