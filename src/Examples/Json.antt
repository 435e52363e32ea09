-- ===== src/Examples/Json.antt =====
-- A readable encoding of invitations that is read back, in place of JSON.
use Prim.Native.Char.{Char}
use Prim.Native.String.{String}
use agent_scale.Base.{ℕ, zero, suc, ◌≡◌, refl, ap, ◌∙◌, Option, none, some, is_code, if◌then◌else◌}
use agent_scale.Control.Wire.{Invite, InviteKind, client, edge, relay}

-- A text ends with `y`, and each of its characters follows an `x`.
abbrev write_text : String → String → String
write_text String.[] rest = String.◌∷◌ "y" rest
write_text (String.◌∷◌ c s) rest = String.◌∷◌ "x" (String.◌∷◌ c (write_text s rest))

abbrev with_char : Char → Option (String × String) → Option (String × String)
with_char c none = none
with_char c (some (s, rest)) = some (String.◌∷◌ c s, rest)

abbrev read_text : String → Option (String × String)
read_text String.[] = none
read_text (String.◌∷◌ m String.[]) = if is_code 121 m then some ("", "") else none
read_text (String.◌∷◌ m (String.◌∷◌ c r)) =
    let later = read_text r in
    if is_code 121 m then some ("", String.◌∷◌ c r) else with_char c later

read_text-write_text : (s rest : String) → read_text (write_text s rest) ≡ some (s, rest)
read_text-write_text String.[] String.[] = refl
read_text-write_text String.[] (String.◌∷◌ c r) = refl
read_text-write_text (String.◌∷◌ c s) rest = ap (with_char c) (read_text-write_text s rest)

-- A number is as many `x`.
abbrev write_number : ℕ → String → String
write_number zero rest = String.◌∷◌ "y" rest
write_number (suc n) rest = String.◌∷◌ "x" (write_number n rest)

abbrev one_more : Option (ℕ × String) → Option (ℕ × String)
one_more none = none
one_more (some (n, rest)) = some (suc n, rest)

abbrev read_number : String → Option (ℕ × String)
read_number String.[] = none
read_number (String.◌∷◌ m r) =
    let later = read_number r in if is_code 121 m then some (0, r) else one_more later

read_number-write_number :
    (n : ℕ) (rest : String) → read_number (write_number n rest) ≡ some (n, rest)
read_number-write_number zero rest = refl
read_number-write_number (suc n) rest = ap one_more (read_number-write_number n rest)

infixl 5 ◌then◌
abbrev ◌then◌ : {A B : Type 0} → Option (A × String) → (A → String → Option B) → Option B
none then f = none
(some (a, rest)) then f = f a rest

abbrev write_kind : InviteKind → String → String
write_kind client rest = write_number 0 rest
write_kind (edge owner_id) rest = write_number 1 (write_text owner_id rest)
write_kind (relay url) rest = write_number 2 (write_text url rest)

abbrev kind_of : ℕ → String → Option (InviteKind × String)
kind_of zero rest = some (client, rest)
kind_of (suc zero) rest = read_text rest then λ owner rest'. some (edge owner, rest')
kind_of (suc (suc n)) rest = read_text rest then λ url rest'. some (relay url, rest')

abbrev read_kind : String → Option (InviteKind × String)
read_kind s = read_number s then kind_of

read_kind-write_kind :
    (k : InviteKind) (rest : String) → read_kind (write_kind k rest) ≡ some (k, rest)
read_kind-write_kind client rest = refl
read_kind-write_kind (edge owner) rest =
    ap (λ o. o then λ t r. some (edge t, r)) (read_text-write_text owner rest)
read_kind-write_kind (relay url) rest =
    ap (λ o. o then λ t r. some (relay t, r)) (read_text-write_text url rest)

abbrev pub invite_json : Invite → String
invite_json i = write_number i.protocol_version (
    write_text i.audience (
      write_text i.control_url (
        write_text i.control_id (
          write_text i.invite_id (
            write_text i.name
              (write_kind i.kind (write_text i.secret_hash (write_number i.expires_at ""))))))))

abbrev pub parse_invite : String → Option Invite
parse_invite s = read_number s then λ protocol_version s1. read_text s1 then λ audience s2.
    read_text s2 then λ control_url s3. read_text s3 then λ control_id s4.
    read_text s4 then λ invite_id s5. read_text s5 then λ name s6. read_kind s6 then λ kind s7.
    read_text s7 then λ secret_hash s8. read_number s8 then λ expires_at s9. some (record {
      protocol_version = protocol_version;
      audience = audience;
      control_url = control_url;
      control_id = control_id;
      invite_id = invite_id;
      name = name;
      kind = kind;
      secret_hash = secret_hash;
      expires_at = expires_at;
    })

then-some :
    {A B : Type 0} {o : Option (A × String)} {a : A} {rest : String} (f : A → String → Option B)
    → o ≡ some (a, rest)
    → (o then f) ≡ f a rest
then-some f e = ap (λ o. o then f) e

pub parse_invite-invite_json : (i : Invite) → parse_invite (invite_json i) ≡ some i
parse_invite-invite_json i =
    then-some _ (read_number-write_number i.protocol_version _)
    ∙ then-some _ (read_text-write_text i.audience _)
    ∙ then-some _ (read_text-write_text i.control_url _)
    ∙ then-some _ (read_text-write_text i.control_id _)
    ∙ then-some _ (read_text-write_text i.invite_id _)
    ∙ then-some _ (read_text-write_text i.name _)
    ∙ then-some _ (read_kind-write_kind i.kind _)
    ∙ then-some _ (read_text-write_text i.secret_hash _)
    ∙ then-some _ (read_number-write_number i.expires_at _)
