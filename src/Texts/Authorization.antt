-- ===== src/Texts/Authorization.antt =====
-- The authorization of a provisioner's request is read back
-- (crates/control-api/src/provisioner.rs).
use Prim.Native.Char.{code}
use Prim.Native.String.append
use agent_scale.Base.{
  eqb_refl, proceed, String, ◌<>◌, ◌==◌, ◌≡◌, refl, ap, ◌∙◌, true, false, not, ok, some, len,
  strip_prefix, split_once, contains, ok_or-some,
}
use agent_scale.Control.Platform.{Platform}
use agent_scale.Control.Authorization.{
  provisioner_authorization, provisioner_signing_bytes, verify_provisioner_authorization,
  provisioner_auth_scheme, signature_length,
}
use agent_scale.Texts.EdgeRef.{split_once-append}

strip_prefix-append : (p s : String) → strip_prefix p (p <> s) ≡ some s
unfolding strip_prefix
strip_prefix-append String.[] s = ap (strip_prefix "") (λ i. append.nil s i)
strip_prefix-append (String.◌∷◌ c p) s =
    ap (strip_prefix (String.◌∷◌ c p)) (λ i. append.cons c p s i)
    ∙ rw (eqb_refl (code c), strip_prefix-append p s) refl

colon_text : (t : String) → (":" <> t) ≡ String.◌∷◌ ":" t
colon_text t = (λ i. append.cons ":" "" t i) ∙ ap (String.◌∷◌ ":") (λ i. append.nil t i)

split_signed :
    (id signature : String)
    → contains b':' id ≡ false
    → split_once b':' (id <> ":" <> signature) ≡ some (id, signature)
split_signed id signature plain =
    ap (λ t. split_once b':' (id <> t)) (colon_text signature)
    ∙ split_once-append b':' id ":" signature plain refl

-- What a key's signatures and their hexadecimal text satisfy.
pub record SignsBody (p : Platform) (key body : String) : Type 0 where
  -- `EndpointId` prints a text without a colon, and parses it back.
  pub id_parses : p.parse_endpoint (p.public_id key) ≡ some (p.public_id key)
  pub id_text : ((p.public_id key) == "") ≡ false
  pub id_plain : contains b':' (p.public_id key) ≡ false
  -- `hex::decode` gives back what `hex::encode` printed; of a signature it prints a text without
  -- a colon.
  pub hex_decodes : (bytes : String) → p.hex_decode (p.hex_encode bytes) ≡ some bytes
  pub hex_text : (bytes : String) → (p.hex_encode (p.sign key bytes) == "") ≡ false
  pub hex_plain : (bytes : String) → contains b':' (p.hex_encode (p.sign key bytes)) ≡ false
  -- A signature has 64 bytes, and the public key verifies it.
  pub signature_size : (bytes : String) → len (p.sign key bytes) ≡ signature_length
  pub verifies :
      (bytes : String) → p.verify_signature (p.public_id key) bytes (p.sign key bytes) ≡ true

module _ (p : Platform) (key body : String) (h : SignsBody p key body) where
  -- The header that a provisioner signs for a body is verified for that body, and yields the
  -- provisioner's identity: given that identities and hexadecimal texts have no colon and are
  -- parsed back, that signatures have 64 bytes, and that the public key verifies them.
  pub verify_provisioner_authorization-of_signed :
      verify_provisioner_authorization p (provisioner_authorization p key body) body
      ≡ ok (p.public_id key)
  unfolding verify_provisioner_authorization provisioner_authorization
  verify_provisioner_authorization-of_signed =
      ok_or-some _ _ (strip_prefix-append provisioner_auth_scheme _)
      ∙ ok_or-some _ _ (strip_prefix-append " " _)
      ∙ ok_or-some _ _ (split_signed (p.public_id key) (p.hex_encode (p.sign key bytes)) h.id_plain)
      ∙ proceed _ _ (ap not h.id_text)
      ∙ proceed _ _ (rw (h.hex_text bytes, h.hex_plain bytes) refl)
      ∙ ok_or-some _ _ h.id_parses
      ∙ ok_or-some _ _ (h.hex_decodes (p.sign key bytes))
      ∙ proceed _ _ (rw (h.signature_size bytes) refl)
      ∙ proceed _ _ (h.verifies bytes)
    where
      bytes : String
      bytes = provisioner_signing_bytes p body
