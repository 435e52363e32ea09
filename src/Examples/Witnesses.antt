-- ===== src/Examples/Witnesses.antt =====
-- The theorems at concrete inputs.
use agent_scale.Base.{ℕ, List, ◌≤◌}
use agent_scale.Control.Registry.{Watching, watches_per_endpoint, count_of, acquire, release}
use agent_scale.Watches.Bound.{
  Guarded, no_guards, acquired, dropped, open_guards, drop_guard, Guarded-bounded,
}
use agent_scale.Base.{epoch, upsert_record}
use agent_scale.Control.State.{apply_change, apply}
use agent_scale.Control.Commit.{advance}
use agent_scale.Control.Removal.{client_removal, revocation_change}
use agent_scale.Control.Watch.{revocation_update, validate_update, validate_entries, entries}
use agent_scale.Relay.Access.{admit, validate_revocations, has_duplicates}
use agent_scale.Relay.Denied.{removed_client-denied}
use agent_scale.Relay.Feed.{revocation_update-validates}
use agent_scale.Examples.World.{revoked_state, alices_credential}
use agent_scale.Base.{String, find, ok, ◌>>=◌, [], ◌∷◌, some, none, retain, contains, ok_or, ensure}
use agent_scale.Control.Wire.{client, EdgeInfo, NodeMap, SignedNodeMap, control_protocol_version}
use agent_scale.Control.State.{apply_changes}
use agent_scale.Control.Platform.{domain_bytes}
use agent_scale.Control.Checks.{byte_len, validate_name, all_bytes, client_name, client_with_id}
use agent_scale.Control.Map.{
  signed_map, recipient_role, role_of, edge_role, client_role, node_map, edge_info,
  sign_relay_credential, validate_credential,
}
use agent_scale.Control.Requests.{client_edge_remove}
use agent_scale.Control.Admin.{admin_remove_client, create_invite_section, parse_edge_ref}
use agent_scale.Control.Provisioner.{provisioner_section}
use agent_scale.Control.Authorization.{verify_provisioner_authorization, provisioner_authorization}
use agent_scale.Control.Upkeep.{cleanup_invitations, cleanup_revocations, cleanup_changes}
use agent_scale.Enrolment.AsInvited.{WhenCommitted}
use agent_scale.Enrolment.Issued.{IssuedBy, create_invite_section-Issued}
use agent_scale.Removal.Revoked.{
  EdgeRemoved, client_edge_remove_revokes, ClientRemoval, admin_remove_client-Revoked,
}
use agent_scale.Provisioning.Isolation.{Permitted, provisioner_section-Permitted}
use agent_scale.Maps.Agreement.{signed_map-agrees}
use agent_scale.Retention.Cleanup.{cleanup_changes-agrees}
use agent_scale.Texts.Authorization.{verify_provisioner_authorization-of_signed}
use agent_scale.Texts.EdgeRef.{parse_edge_ref-of_names}
use agent_scale.Examples.World.{
  seal, edge_removal_request, managed_state, managed_removal, alice, laptop,
}
use agent_scale.Base.{arith, ◌≡◌, refl, ◌⊎◌, ◌+◌, any, ◌==◌, Ensures}
use agent_scale.Control.Upkeep.{invitation_cleanup}
use agent_scale.Control.Commit.{Store}
use agent_scale.Control.Claim.{claim}
use agent_scale.Enrolment.AsInvited.{ClaimCommitted, claim_as_invited}
use agent_scale.Invariant.Tables.{WellFormed}
use agent_scale.Invariant.Reach.{
  Run, stop, then_step, claim_step, cleanup_step, run-WellFormed, Progress, run-Progress,
}
use agent_scale.Examples.World.{platform, control_key, accept, store, state, claim_request, now}

claim_as_invited_example :
    (let after = (claim platform control_key accept claim_request now now now store).1 in
      (after ≡ store) ⊎ ClaimCommitted platform control_key accept claim_request now store after)
claim_as_invited_example =
    claim_as_invited platform control_key accept claim_request now now now store

pub state-WellFormed : WellFormed state
unfolding any ◌==◌
state-WellFormed = record {
  clients = record {
    ids = (tt, tt);
    names = (tt, tt);
    generations = ((omega arith, omega arith), tt);
  };
  edges = record {
    ids = (tt, tt);
    slots = (tt, tt);
    generations = ((omega arith, omega arith), tt);
  };
  owned = (refl, tt);
  relays = record { ids = tt; names = tt; urls = tt };
  invites = (tt, tt);
  provisioners = record { ids = (tt, tt); names = (tt, tt) };
  revocations = record { ids = tt; ranges = tt };
}

abbrev claimed_store : Store Unit
claimed_store = (claim platform control_key accept claim_request now now now store).1

abbrev claim_and_cleanup :
    Run platform control_key accept store (invitation_cleanup accept (now + 5000) claimed_store)
claim_and_cleanup =
    then_step (then_step stop (claim_step claim_request now now now)) (cleanup_step (now + 5000))

run-WellFormed_example : WellFormed (invitation_cleanup accept (now + 5000) claimed_store).state
run-WellFormed_example =
    run-WellFormed platform control_key accept state-WellFormed claim_and_cleanup

run-Progress_example :
    Progress platform control_key accept store
      (invitation_cleanup accept (now + 5000) claimed_store)
run-Progress_example = run-Progress platform control_key accept state-WellFormed claim_and_cleanup

client_edge_remove_revokes_example :
    (let after =
        (client_edge_remove platform control_key accept edge_removal_request now now store).1 in
      (after ≡ store)
      ⊎ EdgeRemoved platform control_key accept edge_removal_request now store after)
client_edge_remove_revokes_example =
    client_edge_remove_revokes platform control_key accept edge_removal_request now now store

admin_remove_client-Revoked_example :
    Ensures
      (WhenCommitted (ClientRemoval managed_state "carol"))
      (admin_remove_client "carol" now managed_state)
admin_remove_client-Revoked_example = admin_remove_client-Revoked managed_state "carol" now

provisioner_section-Permitted_example :
    Ensures
      (WhenCommitted (Permitted platform control_key managed_state "p" managed_removal))
      (provisioner_section platform control_key "p" managed_removal now now "i2" managed_state)
provisioner_section-Permitted_example =
    provisioner_section-Permitted platform control_key managed_state "p" managed_removal now now
      "i2"

create_invite_section-Issued_example :
    Ensures
      (IssuedBy platform control_key state "dave" client "t" now none)
      (create_invite_section platform control_key "dave" client 3600 none now now "t" "i2" state)
unfolding ◌==◌
create_invite_section-Issued_example =
    create_invite_section-Issued platform control_key state "dave" client 3600 none now now "t" "i2"
      (record { id_parses = refl; verifies = λ bytes. refl })

-- The map of a recipient.
abbrev map_for : String → NodeMap
map_for recipient = record {
  protocol_version = control_protocol_version;
  audience = "prod";
  control_url = "https://control";
  control_id = "control";
  revision = 4;
  issued_at = now;
  recipient_id = recipient;
  relays = [];
  relay_credential = some recipient;
  relay_ca_der = 1 ∷ [];
  allowed_clients = [];
  edges = [];
}

abbrev edge_map : SignedNodeMap
edge_map = record { map = record (map_for "e") { allowed_clients = "a" ∷ [] }; signature = seal }

abbrev client_map : SignedNodeMap
client_map = record {
  map = record (map_for "a") {
    edges =
        record { name = "laptop"; endpoint_id = "e"; owner_id = "a"; owner_name = "alice" } ∷ [];
  };
  signature = seal;
}

signed_map-agrees_example :
    any (λ (i : EdgeInfo). i.endpoint_id == "e") client_map.map.edges
    ≡ any (λ a. a == "a") edge_map.map.allowed_clients
unfolding signed_map recipient_role role_of edge_role client_role node_map edge_info client_name
    client_with_id sign_relay_credential validate_credential find retain any ◌==◌ ◌>>=◌ ok_or ensure
    domain_bytes
signed_map-agrees_example =
    signed_map-agrees platform control_key state "e" "a" now now laptop alice edge_map client_map
      state-WellFormed refl refl refl refl refl

cleanup_changes-agrees_example :
    apply_changes (cleanup_changes (now + 700000) state) state
    ≡ (cleanup_revocations (cleanup_invitations state (now + 700000)).0 (now + 700000)).0
cleanup_changes-agrees_example = cleanup_changes-agrees (now + 700000) state state-WellFormed

verify_provisioner_authorization-of_signed_example :
    verify_provisioner_authorization platform
      (provisioner_authorization platform control_key "body")
      "body"
    ≡ ok "control"
unfolding contains ◌==◌
verify_provisioner_authorization-of_signed_example =
    verify_provisioner_authorization-of_signed platform control_key "body" (record {
      id_parses = refl;
      id_text = refl;
      id_plain = refl;
      hex_decodes = λ bytes. refl;
      hex_text = λ bytes. refl;
      hex_plain = λ bytes. refl;
      signature_size = λ bytes. refl;
      verifies = λ bytes. refl;
    })

parse_edge_ref-of_names_example : parse_edge_ref "alice/laptop" ≡ ok ("alice", "laptop")
unfolding validate_name ensure ◌>>=◌ all_bytes byte_len ◌==◌
parse_edge_ref-of_names_example = parse_edge_ref-of_names "alice" "laptop" refl

removed_client-denied_example : ¬ (
    admit platform (some "token") "a" "control" "prod" (("a", (1, epoch + 604800)) ∷ []) (now + 10)
    ≡ ok tt)
unfolding validate_revocations revocation_update validate_update validate_entries entries
    has_duplicates client_removal revocation_change advance apply apply_changes apply_change
    upsert_record retain find any ◌==◌ ◌>>=◌ ok_or ensure
removed_client-denied_example =
    removed_client-denied platform state alice 5 2 1 now (now + 10) "prod" "control" "token" seal
      alices_credential (("a", (1, epoch + 604800)) ∷ []) (omega arith) (omega arith) refl tt refl
      refl (omega arith) (omega arith)

revoked_state-WellFormed : WellFormed revoked_state
unfolding any ◌==◌
revoked_state-WellFormed = record {
  clients = state-WellFormed.clients;
  edges = state-WellFormed.edges;
  owned = state-WellFormed.owned;
  relays = state-WellFormed.relays;
  invites = state-WellFormed.invites;
  provisioners = state-WellFormed.provisioners;
  revocations = record { ids = (tt, tt); ranges = (((omega arith, omega arith), omega arith), tt) };
}

revocation_update-validates_example :
    validate_update platform (revocation_update revoked_state 0 now) ≡ ok tt
unfolding ◌==◌
revocation_update-validates_example =
    revocation_update-validates platform revoked_state 0 now revoked_state-WellFormed refl
      (refl, tt)

abbrev watch_counts : ℕ → List Watching
watch_counts n = record { endpoint_id = "a"; count = n } ∷ []

two_guards : Guarded ("a" ∷ "a" ∷ []) (watch_counts 2)
unfolding acquire find upsert_record ◌==◌
two_guards = acquired "a" (acquired "a" no_guards refl) refl

Guarded-bounded_example :
    (count_of (release (watch_counts 2) "a") "a"
      ≡ open_guards "a" (drop_guard "a" ("a" ∷ "a" ∷ [])))
    × (open_guards "a" (drop_guard "a" ("a" ∷ "a" ∷ [])) ≤ watches_per_endpoint)
unfolding open_guards ◌==◌
Guarded-bounded_example =
    Guarded-bounded (drop_guard "a" ("a" ∷ "a" ∷ [])) (release (watch_counts 2) "a") "a"
      (dropped "a" two_guards (omega arith))
