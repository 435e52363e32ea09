-- ===== src/Enrolment/Equality.antt =====
-- The comparison of two invitations is equality (crates/control-api/src/lib.rs, the derived
-- PartialEq of Invite and InviteKind).
use agent_scale.Base.{◌≡◌, refl, true, ◌==◌, eq_of_==, ==_refl, eqb, eqb_sound, eqb_refl, arith}
use agent_scale.Control.Wire.{Invite, InviteKind, client, edge, relay, kind_eq, invite_eq}

kind_eq_sound : (a b : InviteKind) → kind_eq a b ≡ true → a ≡ b
kind_eq_sound client client h = refl
kind_eq_sound (edge a) (edge b) h = rw (eq_of_== a b h) refl
kind_eq_sound (relay a) (relay b) h = rw (eq_of_== a b h) refl
kind_eq_sound client (edge b) h = cc
kind_eq_sound client (relay b) h = cc
kind_eq_sound (edge a) client h = cc
kind_eq_sound (edge a) (relay b) h = cc
kind_eq_sound (relay a) client h = cc
kind_eq_sound (relay a) (edge b) h = cc

-- The comparison of a stored invitation with a presented one is equality.
pub invite_eq_sound : (a b : Invite) → invite_eq a b ≡ true → a ≡ b
unfolding invite_eq
invite_eq_sound a b h =
    let audience' : (a.audience == b.audience) ≡ true = ground arith in
    let control_url' : (a.control_url == b.control_url) ≡ true = ground arith in
    let control_id' : (a.control_id == b.control_id) ≡ true = ground arith in
    let invite_id' : (a.invite_id == b.invite_id) ≡ true = ground arith in
    let name' : (a.name == b.name) ≡ true = ground arith in
    let secret_hash' : (a.secret_hash == b.secret_hash) ≡ true = ground arith in
    let version' : eqb a.protocol_version b.protocol_version ≡ true = ground arith in
    let kind' : kind_eq a.kind b.kind ≡ true = ground arith in
    let expiry' : eqb a.expires_at b.expires_at ≡ true = ground arith in
    λ i. record {
      protocol_version = eqb_sound a.protocol_version b.protocol_version version' i;
      audience = eq_of_== a.audience b.audience audience' i;
      control_url = eq_of_== a.control_url b.control_url control_url' i;
      control_id = eq_of_== a.control_id b.control_id control_id' i;
      invite_id = eq_of_== a.invite_id b.invite_id invite_id' i;
      name = eq_of_== a.name b.name name' i;
      kind = kind_eq_sound a.kind b.kind kind' i;
      secret_hash = eq_of_== a.secret_hash b.secret_hash secret_hash' i;
      expires_at = eqb_sound a.expires_at b.expires_at expiry' i;
    }

kind_eq_refl : (k : InviteKind) → kind_eq k k ≡ true
kind_eq_refl client = refl
kind_eq_refl (edge o) = ==_refl o
kind_eq_refl (relay u) = ==_refl u

pub invite_eq_refl : (a : Invite) → invite_eq a a ≡ true
unfolding invite_eq
invite_eq_refl a =
    rw
      (
        eqb_refl a.protocol_version,
        ==_refl a.audience,
        ==_refl a.control_url,
        ==_refl a.control_id,
        ==_refl a.invite_id,
        ==_refl a.name,
        kind_eq_refl a.kind,
        ==_refl a.secret_hash,
      )
      (eqb_refl a.expires_at)
