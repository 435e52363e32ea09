-- ===== src/Transport/Datagram.antt =====
-- UDP packets in a frame (crates/transport/src/lib.rs: encode_proxy_datagram and
-- decode_proxy_datagram; crates/protocol/src/lib.rs: ProxyTarget, ProxyDatagram). The UTF-8 bytes of
-- a text and the text of UTF-8 bytes are parameters.
use agent_scale.Base.{
  ℕ, String, not, ◌&&◌, Option, List, [], ◌∷◌, ◌++◌, length, take, skip, leb, eqb, Result, ok, err,
  ensure, ok_or, ◌>>=◌, ◌>>◌, be_high, be_low, from_be_bytes,
}

pub record ProxyTarget : Type 0 where
  pub host : String
  pub port : ℕ

pub record ProxyDatagram : Type 0 where
  pub target : ProxyTarget
  pub payload : List ℕ

abbrev pub max_udp_payload : ℕ
max_udp_payload = 65507

module _ (as_bytes : String → List ℕ) where
  unfoldable pub encode_proxy_datagram : ProxyDatagram → Result String (List ℕ)
  encode_proxy_datagram datagram = do
    let host = as_bytes datagram.target.host
    ensure (not (eqb (length host) 0)) "proxy datagram host is empty"
    ensure (leb (length host) 255) "proxy datagram host is too long"
    ensure (not (eqb datagram.target.port 0)) "proxy datagram port is zero"
    ensure (leb (length datagram.payload) max_udp_payload) "proxy UDP payload is too large"
    ok (
        (length host ∷ be_high datagram.target.port ∷ be_low datagram.target.port ∷ [])
        ++ (host ++ datagram.payload))

module _ (from_utf8 : List ℕ → Option String) where
  -- The packet after its host's length and its port; `3 + host_len` does not overflow a usize.
  unfoldable pub decode_after_port : ℕ → ℕ → List ℕ → Result String ProxyDatagram
  decode_after_port host_len port bytes = do
    ensure (not (eqb host_len 0) && leb host_len (length bytes)) "proxy datagram host is truncated"
    ensure (not (eqb port 0)) "proxy datagram port is zero"
    host ← ok_or (from_utf8 (take host_len bytes)) "proxy datagram host is not UTF-8"
    let payload = skip host_len bytes
    ensure (leb (length payload) max_udp_payload) "proxy UDP payload is too large"
    ok (record { target = record { host = host; port = port }; payload = payload })

  unfoldable pub decode_proxy_datagram : List ℕ → Result String ProxyDatagram
  decode_proxy_datagram (host_len ∷ high ∷ low ∷ next ∷ bytes) =
      decode_after_port host_len (from_be_bytes high low) (next ∷ bytes)
  decode_proxy_datagram encoded = err "proxy datagram is truncated"
