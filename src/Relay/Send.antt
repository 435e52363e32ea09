-- ===== src/Relay/Send.antt =====
-- How a relay sends a request while Control is busy (crates/as-relay/src/main.rs, send_control). The
-- clock is read as the nanoseconds since the request began, and a `Duration` is its nanoseconds; the
-- cap of a `Duration` is far above every timeout.
use agent_scale.Base.{
  ℕ, String, Bool, ◌+◌, ◌-◌, ◌*◌, ◌^◌, ◌||◌, eqb, leb, ltb, Option, none, some, List, [], ◌∷◌,
  Result, ok, err, if◌then◌else◌,
}
use Prim.Native.Nat.{◌%◌}
use agent_scale.Control.Watch.{RevocationUpdate}

-- The status, the `Retry-After` header if it is a `u64`, and the body if it is a signed update.
pub record Response : Type 0 where
  pub status : ℕ
  pub retry_after : Option ℕ
  pub body : Option (RevocationUpdate × String)

-- What the attempts of a request meet: one that fails or is not answered in time, or a response to
-- one that began at a time, with the random number and the time at which a retry is decided, and
-- what further attempts would meet.
pub data Exchange : Type 0 where
  failed : Exchange
  answered : ℕ → Response → ℕ → ℕ → Exchange → Exchange

abbrev pub second : ℕ
second = 10 ^ 9

-- CONTROL_WATCH_TIMEOUT.
abbrev pub watch_timeout : ℕ
watch_timeout = 90 * second

-- The statuses TOO_MANY_REQUESTS and SERVICE_UNAVAILABLE.
abbrev pub is_busy : ℕ → Bool
is_busy status = eqb status 429 || eqb status 503

-- The wait before a retry, with a jitter of up to a second from a random `u16`.
abbrev pub retry_delay : ℕ → ℕ → ℕ
retry_delay seconds random = seconds * second + (random % 1001) * 10 ^ 6

-- The response, and the sleeps in nanoseconds. `after_response` decides on one response, given what
-- the next attempts come to.
unfoldable pub after_response :
    ℕ → Response → ℕ → ℕ → Result String Response × List ℕ → Result String Response × List ℕ
after_response timeout response random elapsed next =
    if is_busy response.status
    then elim response.retry_after [
      | none ↦ (ok response, [])
      | some seconds ↦
          let delay = retry_delay seconds random in
          if ltb delay (timeout - elapsed)
          then (next.0, delay ∷ next.1)
          else (err "Control is busy", [])
    ]
    else (ok response, [])

unfoldable pub send_control : ℕ → Exchange → Result String Response × List ℕ
unfolding after_response
send_control timeout failed = (err "Control request failed", [])
send_control timeout (answered began response random elapsed next) =
    let rest = send_control timeout next in
    if leb timeout began
    then (err "Control request timed out", [])
    else after_response timeout response random elapsed rest
