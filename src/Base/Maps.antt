-- ===== src/Base/Maps.antt =====
-- Maps from texts as the lists of their entries: reading, insertion, removal, and what each entry is
-- afterwards. The order of the entries is that of insertion.
use mathlib.Core.Path.{◌≡◌, ap}
use mathlib.Core.Logic.{◌≢◌}
use mathlib.Core.Bool.{Bool, not}
use mathlib.Core.Option.{Option, none, some}
use mathlib.Core.List.{List}
use Prim.Native.String.{String}
use agent_scale.Base.Tests.{◌==◌, is_some}
use agent_scale.Base.Lists.{find, retain, upsert_record}
use agent_scale.Base.Lookups.{
  find-upsert_record, find-upsert_record_other, find-retain_deleted, find-retain_other,
}

abbrev pub Map {ℓ} : Type ℓ → Type ℓ
Map A = List (String × A)

module _ {ℓ} {A : Type ℓ} where
  abbrev pub value_of : Option (String × A) → Option A
  value_of none = none
  value_of (some (k, a)) = some a

  abbrev pub get : Map A → String → Option A
  get m k = value_of (find (λ e. e.0 == k) m)

  abbrev pub contains_key : Map A → String → Bool
  contains_key m k = is_some (get m k)

  abbrev pub insert : Map A → String → A → Map A
  insert m k a = upsert_record m (k, a) (λ item key. item.0 == key.0)

  abbrev pub remove : Map A → String → Map A
  remove m k = retain (λ e. not (e.0 == k)) m

  pub get-insert : (m : Map A) (k : String) (a : A) → get (insert m k a) k ≡ some a
  get-insert m k a = ap value_of (find-upsert_record (λ (e : String × A). e.0) m (k, a))

  pub get-insert_other :
      (m : Map A) (k : String) (a : A) (k' : String) → k ≢ k' → get (insert m k a) k' ≡ get m k'
  get-insert_other m k a k' ne =
      ap value_of (find-upsert_record_other (λ (e : String × A). e.0) m (k, a) k' ne)

  pub get-remove : (m : Map A) (k : String) → get (remove m k) k ≡ none
  get-remove m k = ap value_of (find-retain_deleted (λ (e : String × A). e.0) m k)

  pub get-remove_other : (m : Map A) (k k' : String) → k ≢ k' → get (remove m k) k' ≡ get m k'
  get-remove_other m k k' ne = ap value_of (find-retain_other (λ (e : String × A). e.0) m k k' ne)
