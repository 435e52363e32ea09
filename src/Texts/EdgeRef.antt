-- ===== src/Texts/EdgeRef.antt =====
-- References of the form `<client>/<edge>` (crates/as-control/src/main.rs, parse_edge_ref and
-- validate_name).
use Prim.Native.Char.{Char, code}
use Prim.Native.String.append
use agent_scale.Base.{
  ℕ, String, ◌<>◌, ◌≡◌, refl, ap, ◌∙◌, Bool, true, false, ◌||◌, ok, some, split_once, contains,
  is_code, eqb, Bool-cases, inl, inr, arith, Ensures, Ensures-ensure, ||-false, &&-true, ensure-ok,
  ok_or,
}
use agent_scale.Control.Checks.{all_bytes, is_name_byte, is_ascii_alphanumeric, validate_name}
use agent_scale.Control.Admin.{parse_edge_ref}

true-ne-false : {A : Type 0} (a b : Bool) → a ≡ true → (a || b) ≡ false → A
true-ne-false a b h k = ground arith

-- The first separator is found when the part before it has none.
pub split_once-append :
    (n : ℕ) (before : String) (c : Char) (rest : String)
    → contains n before ≡ false
    → is_code n c ≡ true
    → split_once n (before <> String.◌∷◌ c rest) ≡ some (before, rest)
unfolding split_once contains
split_once-append n String.[] c rest free found =
    ap (split_once n) (λ i. append.nil (String.◌∷◌ c rest) i) ∙ rw found refl
split_once-append n (String.◌∷◌ d s) c rest free found =
    ap (split_once n) (λ i. append.cons d s (String.◌∷◌ c rest) i)
    ∙ elim (Bool-cases (is_code n d)) [
      | inl e ↦ true-ne-false (is_code n d) (contains n s) e free
      | inr e ↦ let q = split_once-append n s c rest (||-false _ _ free).1 found in rw (e, q) refl
    ]

name_byte-not-slash : (b : ℕ) → is_name_byte b ≡ true → eqb b b'/' ≡ false
unfolding is_name_byte is_ascii_alphanumeric
name_byte-not-slash b h = ground arith

name_bytes-slashless : (s : String) → all_bytes is_name_byte s ≡ true → contains b'/' s ≡ false
unfolding all_bytes contains
name_bytes-slashless String.[] h = refl
name_bytes-slashless (String.◌∷◌ c s) h =
    let q = &&-true _ _ h in rw (name_byte-not-slash (code c) q.0) (name_bytes-slashless s q.1)

validate_name-slashless :
    (name : String) → Ensures (λ _. contains b'/' name ≡ false) (validate_name name)
unfolding validate_name
validate_name-slashless name =
    Ensures-ensure _ _ _ λ _. record { value = λ _ h. name_bytes-slashless name (ensure-ok _ _ h) }

-- An edge reference is read back: for an owner's name that passes validation and any edge name, the
-- text `<owner>/<edge>` parses to the two names.
pub parse_edge_ref-of_names :
    (owner name : String)
    → validate_name owner ≡ ok tt
    → parse_edge_ref (owner <> String.◌∷◌ "/" name) ≡ ok (owner, name)
unfolding parse_edge_ref ok_or
parse_edge_ref-of_names owner name valid =
    rw (split_once-append b'/' owner "/" name ((validate_name-slashless owner).value tt valid) refl)
      refl
