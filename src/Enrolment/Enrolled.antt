-- ===== src/Enrolment/Enrolled.antt =====
-- What a committed claim leaves in the state, and what of it a later claim relies on
-- (crates/as-control/src/main.rs, claim and claimed_node_change).
use agent_scale.Base.{
  ℕ, String, ◌≡◌, refl, sym, ◌∙◌, ap, ◌==◌, ltb, not, ◌||◌, true, false, Option, none, some, [],
  ◌∷◌, find, find-upsert_record, find-absent, Result, ok, err, ◌>>=◌, reject_if, arith, Ensures,
  Ensures-ok, Ensures-bind, Ensures-reject_if, ok_or-some, pass,
}
use agent_scale.Control.Wire.{InviteKind, client, edge, relay, invite_eq, JoinToken}
use agent_scale.Control.State.{
  ControlState, RelayRecord, StateChange, put_invite, InviteRecord, topology, invite_key,
  apply_change, apply_changes, apply,
}
use agent_scale.Control.Commit.{advance}
use agent_scale.Control.Checks.{has_relay}
use agent_scale.Control.Invites.{find_invite, validate_token_for_state}
use agent_scale.Control.Claim.{
  port_eq, differs_from, port_differs, validate_relay_claim, claimed_node_change, claimed_record,
}

pub port_eq_refl : (q : Option ℕ) → port_eq q q ≡ true
port_eq_refl none = refl
port_eq_refl (some n) = ground arith

-- Only a relay's claim reports a port.
abbrev pub Portless : InviteKind → Option ℕ → Type 0
Portless (relay url) q = Unit
Portless _ q = q ≡ none

pub validate_relay_claim-Portless :
    (kind : InviteKind) (q : Option ℕ) (csr : Option String)
    → Ensures (Portless kind) (validate_relay_claim kind q csr)
unfolding validate_relay_claim
validate_relay_claim-Portless client q csr = Ensures-reject_if _ _ _ λ _. Ensures-ok refl
validate_relay_claim-Portless (edge owner) q csr = Ensures-reject_if _ _ _ λ _. Ensures-ok refl
validate_relay_claim-Portless (relay url) q csr =
    Ensures-bind _ _ λ _ _. Ensures-reject_if _ _ _ λ _. Ensures-ok tt

port_differs-absent :
    (t : ControlState) (id : String) (q : Option ℕ)
    → find (λ (x : RelayRecord). x.endpoint_id == id) t.relays ≡ none
    → port_differs t id q ≡ false
unfolding port_differs
port_differs-absent t id q h = ap (λ o. differs_from o q) h

port_differs-enrolled :
    (t : ControlState) (id : String) (r : RelayRecord)
    → find (λ (x : RelayRecord). x.endpoint_id == id) t.relays ≡ some r
    → port_differs t id r.qad_port ≡ false
unfolding port_differs
port_differs-enrolled t id r h =
    ap (λ o. differs_from o r.qad_port) h ∙ ap not (port_eq_refl r.qad_port)

-- What the second claim finds.
pub record After (s s' : ControlState) (r : InviteRecord) (id : String) (now : ℕ) (q : Option ℕ)
    : Type 0 where
  pub same_audience : s'.audience ≡ s.audience
  pub same_url : s'.public_url ≡ s.public_url
  pub stored : find_invite s' r.invite.invite_id ≡ some (claimed_record r id now)
  pub same_port : port_differs s' id q ≡ false

-- What the later claim relies on of the state after the first one.
pub record Persists (after later : ControlState) (invite_id id : String) : Type 0 where
  pub same_audience : later.audience ≡ after.audience
  pub same_url : later.public_url ≡ after.public_url
  pub same_invite : find_invite later invite_id ≡ find_invite after invite_id
  pub same_relay :
      find (λ (x : RelayRecord). x.endpoint_id == id) later.relays
      ≡ find (λ (x : RelayRecord). x.endpoint_id == id) after.relays

pub Persists-After :
    (s after later : ControlState) (r : InviteRecord) (id invite_id : String) (now : ℕ)
    (q : Option ℕ)
    → r.invite.invite_id ≡ invite_id
    → After s after r id now q
    → Persists after later invite_id id
    → After s later r id now q
unfolding port_differs
Persists-After s after later r id invite_id now q named h kept = record {
  same_audience = kept.same_audience ∙ h.same_audience;
  same_url = kept.same_url ∙ h.same_url;
  stored =
      ap (find_invite later) named
      ∙ kept.same_invite
      ∙ ap (find_invite after) (sym named)
      ∙ h.stored;
  same_port = ap (λ o. differs_from o q) kept.same_relay ∙ h.same_port;
}

pub bind-cong :
    {E A B : Type 0} (m : Result E A) (f g : A → Result E B)
    → ((a : A) → f a ≡ g a)
    → (m >>= f) ≡ (m >>= g)
unfolding ◌>>=◌
bind-cong (ok a) f g h = h a
bind-cong (err e) f g h = refl

module _ (s : ControlState) (r : InviteRecord) (id : String) (now : ℕ)
    (absent : has_relay s id ≡ false) where
  no_relay : find (λ (x : RelayRecord). x.endpoint_id == id) s.relays ≡ none
  no_relay = find-absent (λ (x : RelayRecord). x.endpoint_id) s.relays id absent

  pub change-After :
      (kind : InviteKind) (m : Option String) (q : Option ℕ) (generation : ℕ)
      → Portless kind q
      → Ensures
          (λ (change : StateChange).
            (b rb : ℕ)
            → After s
                (advance (topology (change ∷ put_invite (claimed_record r id now) ∷ [])) b rb s)
                r
                id
                now
                q)
          (claimed_node_change s r.invite kind id m q generation now)
  unfolding claimed_node_change advance apply apply_changes apply_change
  change-After client m q generation portless = Ensures-reject_if _ _ _ λ _. Ensures-ok λ b rb.
      record {
        same_audience = refl;
        same_url = refl;
        stored = find-upsert_record invite_key s.invites (claimed_record r id now);
        same_port = port_differs-absent _ id q no_relay;
      }
  change-After (edge owner) m q generation portless = Ensures-bind _ _ λ _ _.
      Ensures-reject_if _ _ _ λ _. Ensures-ok λ b rb. record {
        same_audience = refl;
        same_url = refl;
        stored = find-upsert_record invite_key s.invites (claimed_record r id now);
        same_port = port_differs-absent _ id q no_relay;
      }
  change-After (relay url) m q generation portless = Ensures-reject_if _ _ _ λ _. Ensures-ok λ b rb.
      record {
        same_audience = refl;
        same_url = refl;
        stored = find-upsert_record invite_key s.invites (claimed_record r id now);
        same_port =
            let x : RelayRecord = record {
              name = r.invite.name;
              endpoint_id = id;
              url = url;
              qad_port = q;
            } in
            port_differs-enrolled _ id x
              (find-upsert_record (λ (y : RelayRecord). y.endpoint_id) s.relays x);
      }

-- Whether the presented invitation belongs to another Control, or differs from the stored one.
pub validate_again :
    (token : JoinToken) (s s' : ControlState) (control_id : String) (now' : ℕ)
    (stored : InviteRecord)
    → s'.audience ≡ s.audience
    → s'.public_url ≡ s.public_url
    → (not (token.invite.control_id == control_id)
        || not (token.invite.audience == s.audience)
        || not (token.invite.control_url == s.public_url))
      ≡ false
    → ltb token.invite.expires_at now' ≡ false
    → find_invite s' token.invite.invite_id ≡ some stored
    → not (invite_eq stored.invite token.invite) ≡ false
    → validate_token_for_state token s' control_id now' ≡ ok tt
unfolding validate_token_for_state reject_if
validate_again token s s' control_id now' stored same same' ours fresh found equal =
    pass _ _ (rw (same, same') ours) ∙ pass _ _ fresh ∙ ok_or-some _ _ found ∙ rw equal refl
