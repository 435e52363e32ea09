-- ===== src/Examples/Relays.antt =====
-- A relay that holds the revocation of a client, and an update that it applies.
use agent_scale.Base.{
  err, All, any, ◌>>=◌, ensure, ok_or, ℕ, String, Bool, ◌≡◌, refl, false, none, some, [], ◌∷◌, List,
  Option, ok, arith, ◌+◌, epoch, ◌==◌, Ensures,
}
use agent_scale.Control.Watch.{
  Revocation, RevocationUpdate, validate_update, validate_entries, entries,
}
use agent_scale.Relay.Access.{validate_revocations, has_duplicates}
use agent_scale.Relay.Update.{RelayState, apply_revocation_update, on_connect}
use agent_scale.Relay.Revoked.{Consistent, Installed, apply_revocation_update-Installed}
use agent_scale.Relay.Poll.{watch_answer, sent, Round, poll_control}
use agent_scale.Relay.Polls.{Bounded, poll_control-Disconnected, poll_control-Bounded}
use agent_scale.Relay.Forever.{settle, Updates, received, applied, revoked-denied}
use agent_scale.Examples.World.{platform, alices_credential, seal, now}
use agent_scale.Relay.Send.{send_control, Response, Exchange, failed, answered}

abbrev of_alice : Revocation
of_alice = record {
  endpoint_id = "a";
  revoked_through_generation = 1;
  expires_at = epoch + 604800;
  revision = 1;
}

abbrev of_bob : Revocation
of_bob = record {
  endpoint_id = "b";
  revoked_through_generation = 4;
  expires_at = epoch + 700000;
  revision = 2;
}

abbrev update_of : ℕ → List Revocation → RevocationUpdate
update_of version revocations = record {
  protocol_version = 3;
  audience = "prod";
  version = version;
  issued_at = now;
  revocations = revocations;
}

abbrev update_text : RevocationUpdate → String
update_text u = u.audience

abbrev relay_state : RelayState
relay_state = record {
  audience = "prod";
  authority_id = "control";
  current = update_of 1 (of_alice ∷ []);
  revoked = ("a", (1, epoch + 604800)) ∷ [];
  stored = update_of 1 (of_alice ∷ []);
  disconnected = [];
  enrollment_revoked = false;
  marker_stored = false;
  shut_down = false;
}

abbrev text_before : String → String → Bool
text_before a b = false

abbrev disk : RevocationUpdate → Option String
disk u = none

relay_state-Consistent : Consistent platform relay_state
unfolding validate_revocations validate_update validate_entries entries has_duplicates any ◌==◌
    ◌>>=◌ ensure ok_or
relay_state-Consistent = record { index = refl; durable = refl }

abbrev with_bob : RelayState
with_bob =
    settle
      (apply_revocation_update platform text_before disk update_text (update_of 2 (of_bob ∷ []))
        seal now now relay_state)
      relay_state

one_update :
    Updates platform text_before disk update_text "a" (epoch + 604800) relay_state now now with_bob
one_update =
    applied now now (update_of 2 (of_bob ∷ [])) seal received (omega arith) (λ e. omega arith, tt)

revoked-denied_example : ¬ (on_connect platform (some "t") "a" (now + 5) with_bob ≡ ok tt)
unfolding any ◌==◌
revoked-denied_example =
    revoked-denied platform text_before disk update_text "a" (epoch + 604800) 1 (now + 5) "t" seal
      alices_credential relay_state-Consistent (λ e. (omega arith, omega arith), tt) refl one_update
      (omega arith) refl (omega arith) (omega arith)

apply_revocation_update-Installed_example :
    Ensures
      (Installed platform text_before disk "b" 4 (epoch + 700000) (update_of 2 (of_bob ∷ [])))
      (apply_revocation_update platform text_before disk update_text
        (update_of 2 (of_bob ∷ []))
        seal
        now
        now
        relay_state)
unfolding any ◌==◌
apply_revocation_update-Installed_example =
    apply_revocation_update-Installed platform text_before disk "b" 4 (epoch + 700000) update_text
      (update_of 2 (of_bob ∷ [])) seal now now relay_state (omega arith)
      (λ e. (omega arith, omega arith), tt) refl

abbrev round_of : Exchange → Round
round_of exchange = record { request = sent exchange; arrival = now; now = now; marker = false }

abbrev reply_of : ℕ → Option (RevocationUpdate × String) → Response
reply_of status body = record { status = status; retry_after = none; body = body }

-- Control is away, is busy for two seconds before it publishes an update, and then refuses the relay.
abbrev watched : List Round
watched =
    round_of failed
    ∷ round_of (
        answered 0 (record (reply_of 503 none) { retry_after = some 2 }) 7 1000
          (answered 3000000000 (reply_of 200 (some (update_of 2 (of_bob ∷ []), seal))) 0 0 failed))
    ∷ round_of (answered 0 (reply_of 403 none) 0 0 failed)
    ∷ []

poll_control-Disconnected_example :
    on_connect platform
      (some "t")
      "b"
      (now + 5)
      (poll_control platform text_before disk update_text "control" "prod" watched 1 relay_state).0
    ≡ err "Relay enrollment is revoked"
unfolding any watch_answer send_control
poll_control-Disconnected_example =
    poll_control-Disconnected platform text_before disk update_text "control" "prod" watched
      relay_state (some "t") "b" (now + 5) (refl, (refl, (refl, tt))) refl

poll_control-Bounded_example :
    All Bounded
      (poll_control platform text_before disk update_text "control" "prod" watched 1 relay_state).1
poll_control-Bounded_example =
    poll_control-Bounded platform text_before disk update_text "control" "prod" watched relay_state
