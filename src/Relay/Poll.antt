-- ===== src/Relay/Poll.antt =====
-- How a relay watches Control (crates/as-relay/src/main.rs, the loop of poll_control). A round is what
-- the loop meets in one pass. The signing of a request and the transport of HTTP are parts of the
-- rounds. Nothing else changes the relay between the rounds.
use agent_scale.Base.{
  ◌++◌, map, ℕ, String, Bool, ◌*◌, ◌&&◌, ◌||◌, eqb, leb, ltb, min, Option, List, [], ◌∷◌, Result,
  ok, err, map_err, ok_or, ◌>>=◌, ◌>>◌, if◌then◌else◌,
}
use agent_scale.Control.Errors.{ApiError}
use agent_scale.Control.Platform.{Platform}
use agent_scale.Control.Watch.{RevocationUpdate}
use agent_scale.Relay.Access.{validate_revocations}
use agent_scale.Relay.Update.{RelayState, verify_update, apply_revocation_update, revoke_all}
use agent_scale.Relay.Send.{Response, Exchange, send_control, watch_timeout}

-- What comes of a watch request: it cannot be signed, nothing comes back, or a status and a body, if
-- that decodes as a signed update.
pub data WatchAnswer : Type 0 where
  unsigned unavailable : WatchAnswer
  responded : ℕ → Option (RevocationUpdate × String) → WatchAnswer

abbrev answer_of : Result String Response → WatchAnswer
answer_of (ok response) = responded response.status response.body
answer_of (err error) = unavailable

-- A watch request, which cannot be signed, or what its attempts meet.
pub data WatchRequest : Type 0 where
  not_signed : WatchRequest
  sent : Exchange → WatchRequest

unfoldable pub watch_answer : WatchRequest → WatchAnswer
watch_answer not_signed = unsigned
watch_answer (sent exchange) = answer_of (send_control watch_timeout exchange).0

-- A sleep: of a retry, in nanoseconds, or after a round that failed, in seconds.
pub data Sleep : Type 0 where
  retried backed_off : ℕ → Sleep

unfoldable pub retries : WatchRequest → List Sleep
retries not_signed = []
retries (sent exchange) = map retried (send_control watch_timeout exchange).1

-- The clock when an update arrives and when it is merged, and whether a marker file can be written.
pub record Round : Type 0 where
  pub request : WatchRequest
  pub arrival : ℕ
  pub now : ℕ
  pub marker : Bool

-- How a round ends: at once with the next request, with a wait, or with the loop.
pub data Polled : Type 0 where
  again wait stop : RelayState → Polled

abbrev pub is_success : ℕ → Bool
is_success status = leb 200 status && ltb status 300

-- The statuses FORBIDDEN and GONE.
abbrev pub is_revocation : ℕ → Bool
is_revocation status = eqb status 403 || eqb status 410

unfoldable pub next_backoff : ℕ → ℕ
next_backoff backoff = min (backoff * 2) 60

module _ (p : Platform) (before : String → String → Bool) (fault : RevocationUpdate → Option String)
    (update_json : RevocationUpdate → String) (control_id audience : String) where
  -- The error is what the log shows.
  unfoldable pub take_update :
      Option (RevocationUpdate × String) → ℕ → ℕ → RelayState → Result String RelayState
  take_update body arrival now s = do
    signed ← ok_or body "cannot decode Relay revocations"
    verify_update p update_json signed.0 signed.1 control_id
    validate_revocations p signed.0 audience
    map_err (λ (e : ApiError). e.message)
        (apply_revocation_update p before fault update_json signed.0 signed.1 arrival now s)

  unfoldable pub after_update : Result String RelayState → RelayState → Polled
  after_update (ok s') s = again s'
  after_update (err e) s = wait s

  unfoldable pub poll_round : WatchAnswer → ℕ → ℕ → Bool → RelayState → Polled
  poll_round unsigned arrival now marker s = stop s
  poll_round unavailable arrival now marker s = wait s
  poll_round (responded status body) arrival now marker s =
      if eqb status 204
      then again s
      else if is_success status
      then after_update (take_update body arrival now s) s
      else if is_revocation status
      then stop (revoke_all marker s)
      else wait s

  -- The state that the rounds leave, and the sleeps of the loop and its requests.
  unfoldable pub poll_control : List Round → ℕ → RelayState → RelayState × List Sleep
  poll_control [] seconds s = (s, [])
  poll_control (r ∷ rs) seconds s =
      elim (poll_round (watch_answer r.request) r.arrival r.now r.marker s) [
        | again s' ↦ let rest = poll_control rs 1 s' in (rest.0, retries r.request ++ rest.1)
        | wait s' ↦
            let rest = poll_control rs (next_backoff seconds) s' in
            (rest.0, retries r.request ++ (backed_off seconds ∷ rest.1))
        | stop s' ↦ (s', retries r.request)
      ]
