-- ===== src/Relay/Polls.antt =====
-- What the watch of a relay guarantees (crates/as-relay/src/main.rs, poll_control, revoke_all and
-- on_connect).
use agent_scale.Base.{
  ◌<◌, ◌*◌, ◌^◌, ◌-◌, ◌++◌, map, ltb, leb, ltb-true, Option-cases, ◌||◌, ℕ, String, Bool, true,
  false, ◌≡◌, refl, ◌≤◌, ◌⊎◌, inl, inr, Bool-cases, any, eqb, Option, List, [], ◌∷◌, All, Result,
  ok, err, arith, reject_if, ◌>>=◌,
}
use agent_scale.Control.Platform.{Platform}
use agent_scale.Control.Watch.{RevocationUpdate}
use agent_scale.Relay.Update.{RelayState, on_connect, revoke_all}
use agent_scale.Relay.Poll.{
  WatchRequest, watch_answer, not_signed, sent, Sleep, retried, backed_off, retries, WatchAnswer,
  unsigned, unavailable, responded, Round, Polled, again, wait, stop, is_success, is_revocation,
  next_backoff, after_update, poll_round, poll_control,
}
use agent_scale.Relay.Send.{
  Response, Exchange, failed, answered, send_control, watch_timeout, after_response, is_busy,
  retry_delay,
}

-- The answer says that the enrolment is revoked: 403 (Forbidden) or 410 (Gone).
abbrev pub revokes : WatchAnswer → Bool
revokes (responded status body) = eqb status 403 || eqb status 410
revokes _ = false

abbrev pub is_signed : WatchAnswer → Bool
is_signed unsigned = false
is_signed _ = true

-- The loop goes on.
abbrev pub Goes : Polled → Type 0
Goes x = ((s : RelayState) × (x ≡ again s)) ⊎ ((s : RelayState) × (x ≡ wait s))

pub Polled-cases : (x : Polled) → Goes x ⊎ ((s : RelayState) × (x ≡ stop s))
Polled-cases (again s) = inl (inl (s, refl))
Polled-cases (wait s) = inl (inr (s, refl))
Polled-cases (stop s) = inr (s, refl)

revocation-not_empty : (status : ℕ) → is_revocation status ≡ true → eqb status 204 ≡ false
revocation-not_empty status h = ground arith

revocation-not_success : (status : ℕ) → is_revocation status ≡ true → is_success status ≡ false
revocation-not_success status h = ground arith

next_backoff-bounds :
    (backoff : ℕ) → 1 ≤ backoff → 1 ≤ next_backoff backoff × next_backoff backoff ≤ 60
unfolding next_backoff
next_backoff-bounds backoff h = (omega (arith, h), omega arith)

-- What a sleep may last.
abbrev pub Bounded : Sleep → Type 0
Bounded (retried nanoseconds) = nanoseconds < 90 * 10 ^ 9
Bounded (backed_off seconds) = (1 ≤ seconds) × (seconds ≤ 60)

All-append : {A : Type 0} (P : A → Type 0) (xs ys : List A) → All P xs → All P ys → All P (xs ++ ys)
All-append P [] ys h k = k
All-append P (x ∷ xs) ys h k = (h.0, All-append P xs ys h.1 k)

after_response-bounded :
    (timeout : ℕ) (response : Response) (random elapsed : ℕ)
    (next : Result String Response × List ℕ)
    → All (λ delay. delay < timeout) next.1
    → All (λ delay. delay < timeout) (after_response timeout response random elapsed next).1
unfolding after_response
after_response-bounded timeout response random elapsed next h =
    elim (Bool-cases (is_busy response.status)) [
      | inr t ↦ rw t tt
      | inl t ↦ elim (Option-cases response.retry_after) [
        | inl e ↦ rw (t, e) tt
        | inr (seconds, e) ↦
            elim (Bool-cases (ltb (retry_delay seconds random) (timeout - elapsed))) [
              | inl u ↦ rw (t, e, u) (omega (arith, ltb-true _ _ u), h)
              | inr u ↦ rw (t, e, u) tt
            ]
      ]
    ]

send_control-bounded :
    (timeout : ℕ) (exchange : Exchange)
    → All (λ delay. delay < timeout) (send_control timeout exchange).1
unfolding send_control
send_control-bounded timeout failed = tt
send_control-bounded timeout (answered began response random elapsed next) =
    elim (Bool-cases (leb timeout began)) [
      | inl t ↦ rw t tt
      | inr t ↦ rw t (
          after_response-bounded timeout response random elapsed _
            (send_control-bounded timeout next))
    ]

retries-Bounded : (request : WatchRequest) → All Bounded (retries request)
unfolding retries
retries-Bounded not_signed = tt
retries-Bounded (sent exchange) =
    each (send_control watch_timeout exchange).1 (send_control-bounded watch_timeout exchange)
  where
    each :
        (delays : List ℕ)
        → All (λ delay. delay < watch_timeout) delays
        → All Bounded (map retried delays)
    each [] h = tt
    each (d ∷ ds) h = (h.0, each ds h.1)

module _ (p : Platform) (before : String → String → Bool) (fault : RevocationUpdate → Option String)
    (update_json : RevocationUpdate → String) (control_id audience : String) where
  after_update-Goes :
      (r : Result String RelayState) (s : RelayState)
      → Goes (after_update p before fault update_json control_id audience r s)
  unfolding after_update
  after_update-Goes (ok s') s = inl (s', refl)
  after_update-Goes (err e) s = inr (s, refl)

  round-cases :
      (a : WatchAnswer) (arrival now : ℕ) (marker : Bool) (s : RelayState)
      → is_signed a ≡ true
      → (poll_round p before fault update_json control_id audience a arrival now marker s
          ≡ stop (revoke_all marker s))
        ⊎ ((revokes a ≡ false)
            × Goes
                (poll_round p before fault update_json control_id audience a arrival now marker s))
  unfolding poll_round
  round-cases unsigned arrival now marker s h = cc
  round-cases unavailable arrival now marker s h = inr (refl, inr (s, refl))
  round-cases (responded status body) arrival now marker s h =
      elim (Bool-cases (is_revocation status)) [
        | inl t ↦ inl (rw (revocation-not_empty status t, revocation-not_success status t, t) refl)
        | inr f ↦ inr (
          f,
          elim (Bool-cases (eqb status 204)) [
            | inl t ↦ rw t (inl (s, refl))
            | inr t ↦ elim (Bool-cases (is_success status)) [
              | inl u ↦ rw (t, u) (after_update-Goes _ s)
              | inr u ↦ rw (t, u, f) (inr (s, refl))
            ]
          ],
        )
      ]

  poll_control-revoked :
      (rs : List Round) (backoff : ℕ) (s : RelayState)
      → All (λ r. is_signed (watch_answer r.request) ≡ true) rs
      → any (λ (r : Round). revokes (watch_answer r.request)) rs ≡ true
      → (poll_control p before fault update_json control_id audience rs backoff
          s).0.enrollment_revoked
        ≡ true
  unfolding poll_control any revoke_all
  poll_control-revoked [] backoff s signed told = cc
  poll_control-revoked (r ∷ rs) backoff s signed told =
      elim (round-cases (watch_answer r.request) r.arrival r.now r.marker s signed.0) [
        | inl e ↦ rw (e, poll_control) refl
        | inr (f, inl (s', e)) ↦
            rw (e, poll_control) (poll_control-revoked rs 1 s' signed.1 (rw f at told))
        | inr (f, inr (s', e)) ↦
            rw (e, poll_control)
              (poll_control-revoked rs (next_backoff backoff) s' signed.1 (rw f at told))
      ]

  -- If the requests of a relay are all signed, and one of Control's answers is 403 or 410, then after
  -- its watch, for as long as the process runs, the relay denies every node, whatever it presents,
  -- whether or not the marker was written.
  pub poll_control-Disconnected :
      (rs : List Round) (s : RelayState) (token : Option String) (endpoint_id : String) (now : ℕ)
      → All (λ r. is_signed (watch_answer r.request) ≡ true) rs
      → any (λ (r : Round). revokes (watch_answer r.request)) rs ≡ true
      → on_connect p token endpoint_id now
          (poll_control p before fault update_json control_id audience rs 1 s).0
        ≡ err "Relay enrollment is revoked"
  unfolding on_connect reject_if ◌>>=◌
  poll_control-Disconnected rs s token endpoint_id now signed told =
      rw (poll_control-revoked rs 1 s signed told) refl

  waits-Bounded :
      (rs : List Round) (seconds : ℕ) (s : RelayState)
      → 1 ≤ seconds
      → seconds ≤ 60
      → All Bounded (poll_control p before fault update_json control_id audience rs seconds s).1
  unfolding poll_control
  waits-Bounded [] seconds s low high = tt
  waits-Bounded (r ∷ rs) seconds s low high =
      let own = retries-Bounded r.request in
      elim (Polled-cases (
        poll_round p before fault update_json control_id audience (watch_answer r.request) r.arrival
          r.now r.marker s)) [
            | inl (inl (s', e)) ↦
                rw (e, poll_control)
                  (All-append Bounded _ _ own (waits-Bounded rs 1 s' (omega arith) (omega arith)))
            | inl (inr (s', e)) ↦
                let next = next_backoff-bounds seconds low in
                rw (e, poll_control)
                  (All-append Bounded _ _ own
                    ((low, high), waits-Bounded rs (next_backoff seconds) s' next.0 next.1))
            | inr (s', e) ↦ rw (e, poll_control) own
          ]

  -- Each sleep of the watch is bounded: a retry of a request sleeps for less than the timeout of 90
  -- seconds, and the loop, after a round that failed, from 1 to 60 seconds.
  pub poll_control-Bounded :
      (rs : List Round) (s : RelayState)
      → All Bounded (poll_control p before fault update_json control_id audience rs 1 s).1
  poll_control-Bounded rs s = waits-Bounded rs 1 s (omega arith) (omega arith)
