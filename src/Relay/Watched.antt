-- ===== src/Relay/Watched.antt =====
-- A relay that watches Control makes no other steps than accepted updates and the revocation of its
-- enrolment (crates/as-relay/src/main.rs, poll_control).
use agent_scale.Base.{ℕ, String, Bool, ◌≡◌, ◌≤◌, ◌⊎◌, Option, none, some, List, [], ◌∷◌}
use agent_scale.Control.Platform.{Platform}
use agent_scale.Control.Watch.{RevocationUpdate}
use agent_scale.Relay.Merge.{Lasting}
use agent_scale.Relay.Update.{RelayState, revoke_all}
use agent_scale.Relay.Forever.{Updates}
use agent_scale.Relay.Poll.{watch_answer, WatchAnswer, responded, Round, Polled, again, wait, stop}

module _ (p : Platform) (before : String → String → Bool) (fault : RevocationUpdate → Option String)
    (update_json : RevocationUpdate → String) (control_id audience id : String) (exp : ℕ) where
  -- What an answer publishes of the identity does not last shorter than `exp`.
  abbrev pub Published : Option (RevocationUpdate × String) → Type 0
  Published none = Unit
  Published (some (update, signature)) = Lasting p id 0 exp update.revocations

  abbrev pub Publishes : WatchAnswer → Type 0
  Publishes (responded status body) = Published body
  Publishes _ = Unit

  -- Rounds in the order of the clock.
  abbrev pub Timely : ℕ → List Round → Type 0
  Timely last [] = Unit
  Timely last (r ∷ rs) = (last ≤ r.now) × Publishes (watch_answer r.request) × Timely r.now rs

  module _ (s : RelayState) (start : ℕ) where
    -- Updates lead to the state by a time.
    abbrev pub Reached : ℕ → RelayState → Type 0
    Reached now after =
        (last : ℕ) × (last ≤ now) × Updates p before fault update_json id exp s start last after

    -- The same, perhaps with the revocation of the enrolment as the last step.
    abbrev pub Ended : RelayState → Type 0
    Ended after =
        (now : ℕ) × (middle : RelayState) × Reached now middle
        × ((after ≡ middle) ⊎ ((marker : Bool) × (after ≡ revoke_all marker middle)))

    abbrev Follows : ℕ → Polled → Type 0
    Follows now (again after) = Reached now after
    Follows now (wait after) = Reached now after
    Follows now (stop after) = Ended after
