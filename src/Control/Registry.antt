-- ===== src/Control/Registry.antt =====
-- The watches that are open, by endpoint (crates/as-control/src/main.rs, WatchRegistry and
-- WatchGuard).
use agent_scale.Base.{
  ◌+◌, ◌-◌, ℕ, String, not, Option, none, some, List, ◌==◌, leb, eqb, find, retain, upsert_record,
  Result, ok, err, if◌then◌else◌,
}
use agent_scale.Control.Errors.{ApiError, too_many_requests, retryable}

abbrev pub watches_per_endpoint : ℕ
watches_per_endpoint = 2

pub record Watching : Type 0 where
  pub endpoint_id : String
  pub count : ℕ

abbrev pub count_in : Option Watching → ℕ
count_in none = 0
count_in (some w) = w.count

abbrev pub watching : List Watching → String → Option Watching
watching counts id = find (λ w. w.endpoint_id == id) counts

abbrev pub count_of : List Watching → String → ℕ
count_of counts id = count_in (watching counts id)

abbrev pub put_count : List Watching → String → ℕ → List Watching
put_count counts id n =
    upsert_record counts (record { endpoint_id = id; count = n })
      (λ item key. item.endpoint_id == key.endpoint_id)

unfoldable pub acquire : List Watching → String → Result ApiError (List Watching)
acquire counts id =
    if leb watches_per_endpoint (count_of counts id)
    then err (retryable too_many_requests "too many concurrent watches for this endpoint")
    else ok (put_count counts id (count_of counts id + 1))

-- The drop of a guard: the subtraction does not underflow while the count is of open guards.
unfoldable pub release_from : List Watching → String → Option Watching → List Watching
release_from counts id none = counts
release_from counts id (some w) =
    if eqb (w.count - 1) 0
    then retain (λ item. not (item.endpoint_id == id)) counts
    else put_count counts id (w.count - 1)

unfoldable pub release : List Watching → String → List Watching
unfolding release_from
release counts id = release_from counts id (watching counts id)
