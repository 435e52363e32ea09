-- ===== src/Examples/Wire.antt =====
-- Frames and datagrams at concrete inputs.
use mathlib.Core.Option.{some-injective}
use agent_scale.Base.{
  ℕ, String, ◌≡◌, refl, Option, none, some, List, [], ◌∷◌, ◌++◌, ok, err, length, sym, ◌==◌, eqb,
  eqb_sound, &&-true, ◌&&◌, if◌then◌else◌, Bool-cases, inl, inr, arith, Ensures,
}
use agent_scale.Transport.Frame.{
  tag_byte, Frame, t_stdout, finished, read_frame_with_limit, write_frame,
}
use agent_scale.Transport.RoundTrip.{encoded, read_frame-of_write}
use agent_scale.Transport.Exact.{Exact, read_frame_with_limit-Exact, truncated-refused}
use agent_scale.Transport.Datagram.{ProxyDatagram, encode_proxy_datagram, decode_proxy_datagram}
use agent_scale.Transport.Packets.{Fits, decode-of_encode, encode-of_decode}

abbrev greeting : Frame
greeting = record { tag = t_stdout; payload = 104 ∷ 105 ∷ [] }

abbrev goodbye : List ℕ
goodbye = 3 ∷ 0 ∷ []

read_frame-of_write_example :
    (bytes : List ℕ) × (write_frame t_stdout (104 ∷ 105 ∷ []) ≡ ok bytes)
    × (read_frame_with_limit (bytes ++ goodbye) finished 16 ≡ ok (some (greeting, goodbye)))
unfolding length
read_frame-of_write_example =
    read_frame-of_write greeting goodbye finished 16 (omega arith) (omega arith)

read_frame_with_limit-Exact_example :
    (read_frame_with_limit (encoded greeting ++ goodbye) finished 2 ≡ ok (some (greeting, goodbye))
      → Exact (encoded greeting ++ goodbye) finished 2 (some (greeting, goodbye)))
    × (Exact (encoded greeting ++ goodbye) finished 2 (some (greeting, goodbye))
        → read_frame_with_limit (encoded greeting ++ goodbye) finished 2
          ≡ ok (some (greeting, goodbye)))
unfolding length tag_byte
read_frame_with_limit-Exact_example =
    read_frame_with_limit-Exact (encoded greeting ++ goodbye) finished 2 (some (greeting, goodbye))
      (
        omega arith,
        (
          omega arith,
          (
            omega arith,
            (
              omega arith,
              (omega arith, (omega arith, (omega arith, (omega arith, (omega arith, tt))))),
            ),
          ),
        ),
      )

truncated-refused_example :
    (error : String) × (read_frame_with_limit (1 ∷ 2 ∷ []) finished 16 ≡ err error)
unfolding length tag_byte
truncated-refused_example =
    truncated-refused greeting (1 ∷ 2 ∷ []) (0 ∷ 0 ∷ 0 ∷ 104 ∷ 105 ∷ []) finished 16 (omega arith)
      (omega arith, (omega arith, tt)) refl (omega arith) (omega arith)

-- UTF-8, for one name.
abbrev as_bytes : String → List ℕ
as_bytes s = if s == "db" then 100 ∷ 98 ∷ [] else []

abbrev from_utf8 : List ℕ → Option String
from_utf8 (a ∷ b ∷ []) = if eqb a 100 && eqb b 98 then some "db" else none
from_utf8 bytes = none

abbrev query : ProxyDatagram
query = record { target = record { host = "db"; port = 5353 }; payload = 0 ∷ 255 ∷ [] }

query-Fits : Fits as_bytes from_utf8 query
unfolding length ◌==◌
query-Fits = (omega arith, omega arith, omega arith, omega arith)

decode-of_encode_example :
    (bytes : List ℕ) × (encode_proxy_datagram as_bytes query ≡ ok bytes)
    × (decode_proxy_datagram from_utf8 bytes ≡ ok query)
unfolding ◌==◌
decode-of_encode_example = decode-of_encode as_bytes from_utf8 query refl query-Fits

as_bytes-from_utf8 :
    (part : List ℕ) (host : String) → from_utf8 part ≡ some host → as_bytes host ≡ part
unfolding ◌==◌
as_bytes-from_utf8 [] host e = cc
as_bytes-from_utf8 (a ∷ []) host e = cc
as_bytes-from_utf8 (a ∷ b ∷ c ∷ r) host e = cc
as_bytes-from_utf8 (a ∷ b ∷ []) host e = elim (Bool-cases (eqb a 100 && eqb b 98)) [
  | inl t ↦
      let q = &&-true (eqb a 100) (eqb b 98) t in
      let same : "db" ≡ host = some-injective _ _ (rw t at e) in
      rw (sym same, eqb_sound a 100 q.0, eqb_sound b 98 q.1) refl
  | inr t ↦ let refused : ◌≡◌ {A = Option String} none (some host) = rw t at e in cc
]

encode-of_decode_example :
    Ensures
      (λ d.
        Fits as_bytes from_utf8 d
        × (encode_proxy_datagram as_bytes d ≡ ok (2 ∷ 20 ∷ 233 ∷ 100 ∷ 98 ∷ 7 ∷ [])))
      (decode_proxy_datagram from_utf8 (2 ∷ 20 ∷ 233 ∷ 100 ∷ 98 ∷ 7 ∷ []))
encode-of_decode_example =
    encode-of_decode as_bytes from_utf8 (2 ∷ 20 ∷ 233 ∷ 100 ∷ 98 ∷ 7 ∷ []) as_bytes-from_utf8
      (omega arith, (omega arith, (omega arith, (omega arith, (omega arith, (omega arith, tt))))))
