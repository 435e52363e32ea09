-- ===== src/Transport/Packets.antt =====
-- Datagrams between their encoding and their decoding (crates/transport/src/lib.rs).
use agent_scale.Base.{
  ℕ, String, true, not, ◌≡◌, refl, ap, ◌∙◌, ◌≤◌, ◌<◌, Option, some, List, [], ◌∷◌, ◌++◌, All,
  length, take, skip, leb, true-leb, leb-true, eqb, ok, ensure, ◌>>◌, ok_or-some, proceed, arith,
  IsByte, &&-intro, &&-true, append-take-skip, length-take, length-append, take-append, skip-append,
  be_high, be_low, from_be_bytes, from_be_bytes-be_bytes, be_bytes-from_be_bytes, Ensures,
  Ensures-ok, Ensures-err, Ensures-ok_or, Ensures-ensure,
}
use agent_scale.Transport.Datagram.{
  ProxyDatagram, max_udp_payload, encode_proxy_datagram, decode_after_port, decode_proxy_datagram,
}

module _ (as_bytes : String → List ℕ) (from_utf8 : List ℕ → Option String) where
  -- What fits in an encoded packet.
  abbrev pub Fits : ProxyDatagram → Type 0
  Fits d =
      (0 < length (as_bytes d.target.host))
      × (length (as_bytes d.target.host) ≤ 255)
      × (0 < d.target.port)
      × (length d.payload ≤ max_udp_payload)

  abbrev packet : ProxyDatagram → List ℕ
  packet d =
      (length (as_bytes d.target.host) ∷ be_high d.target.port ∷ be_low d.target.port ∷ [])
      ++ (as_bytes d.target.host ++ d.payload)

  positive : (n : ℕ) → 0 < n → not (eqb n 0) ≡ true
  positive n h = ground arith

  not_zero : (n : ℕ) → not (eqb n 0) ≡ true → 0 < n
  not_zero n h = ground arith

  encode-packet : (d : ProxyDatagram) → Fits d → encode_proxy_datagram as_bytes d ≡ ok (packet d)
  unfolding encode_proxy_datagram
  encode-packet d (some_host, host, port, payload) =
      proceed _ _ (positive _ some_host)
      ∙ proceed _ _ (true-leb _ _ host)
      ∙ proceed _ _ (positive _ port)
      ∙ proceed _ _ (true-leb _ _ payload)

  after_port-packet :
      (d : ProxyDatagram)
      → from_utf8 (as_bytes d.target.host) ≡ some d.target.host
      → Fits d
      → decode_after_port from_utf8
          (length (as_bytes d.target.host))
          d.target.port
          (as_bytes d.target.host ++ d.payload)
        ≡ ok d
  unfolding decode_after_port
  after_port-packet d utf8 (some_host, host, port, payload) =
      let bytes = as_bytes d.target.host in
      let long : length bytes ≤ length (bytes ++ d.payload) =
        omega (arith, length-append bytes d.payload) in
      proceed _ _ (&&-intro _ _ (positive _ some_host) (true-leb _ _ long))
      ∙ proceed _ _ (positive _ port)
      ∙ ok_or-some _ _ (ap from_utf8 (take-append bytes d.payload) ∙ utf8)
      ∙ ap
          (λ rest.
            ensure (leb (length rest) max_udp_payload) "proxy UDP payload is too large"
            >> ok (record { target = d.target; payload = rest }))
          (skip-append bytes d.payload)
      ∙ proceed _ _ (true-leb _ _ payload)

  decode-long :
      (n high low : ℕ) (bytes : List ℕ)
      → 0 < length bytes
      → decode_proxy_datagram from_utf8 (n ∷ high ∷ low ∷ bytes)
        ≡ decode_after_port from_utf8 n (from_be_bytes high low) bytes
  unfolding decode_proxy_datagram length
  decode-long n high low [] h = absurd (omega arith)
  decode-long n high low (b ∷ bytes) h = refl

  -- A packet whose host and payload fit is encoded, and decodes to itself, whenever the host's bytes
  -- are read back as the host.
  pub decode-of_encode :
      (d : ProxyDatagram)
      → from_utf8 (as_bytes d.target.host) ≡ some d.target.host
      → Fits d
      → (bytes : List ℕ) × (encode_proxy_datagram as_bytes d ≡ ok bytes)
        × (decode_proxy_datagram from_utf8 bytes ≡ ok d)
  decode-of_encode d utf8 fits =
      let host = as_bytes d.target.host in
      let same = from_be_bytes-be_bytes d.target.port in
      (
        packet d,
        encode-packet d fits,
        decode-long _ _ _ (host ++ d.payload) (omega (arith, fits.0, length-append host d.payload))
            ∙ ap (λ port. decode_after_port from_utf8 (length host) port (host ++ d.payload)) same
            ∙ after_port-packet d utf8 fits,
      )

  same_packet :
      {host : String} {n high low : ℕ} (bytes payload : List ℕ)
      → length (as_bytes host) ≡ n
      → (be_high (from_be_bytes high low) ≡ high) × (be_low (from_be_bytes high low) ≡ low)
      → as_bytes host ≡ take n bytes
      → (payload ≡ skip n bytes)
      → packet (record {
        target = record { host = host; port = from_be_bytes high low };
        payload = payload;
      })
        ≡ (n ∷ high ∷ low ∷ bytes)
  same_packet {host} {n} {high} {low} bytes payload size be part rest =
      rw (size, be.0, be.1, part, rest, append-take-skip n bytes) refl

  -- A decoded packet fits, and is encoded as the bytes that it came from, whenever the text that
  -- bytes are read as has those bytes.
  pub encode-of_decode :
      (bytes : List ℕ)
      → ((part : List ℕ) (host : String) → from_utf8 part ≡ some host → as_bytes host ≡ part)
      → All IsByte bytes
      → Ensures
          (λ d. Fits d × (encode_proxy_datagram as_bytes d ≡ ok bytes))
          (decode_proxy_datagram from_utf8 bytes)
  unfolding decode_proxy_datagram decode_after_port
  encode-of_decode [] utf8 h = Ensures-err _
  encode-of_decode (n ∷ []) utf8 h = Ensures-err _
  encode-of_decode (n ∷ high ∷ []) utf8 h = Ensures-err _
  encode-of_decode (n ∷ high ∷ low ∷ []) utf8 h = Ensures-err _
  encode-of_decode (n ∷ high ∷ low ∷ b ∷ bytes) utf8 (hn, (_, (hl, _))) =
      Ensures-ensure _ _ _ λ enough. Ensures-ensure _ _ _ λ port. Ensures-ok_or _ _ _ λ host e.
        Ensures-ensure _ _ _ λ small.
          let q = &&-true (not (eqb n 0)) (leb n (length (b ∷ bytes))) enough in
          let part = utf8 _ host e in
          let size : length (as_bytes host) ≡ n =
            ap length part ∙ length-take n (b ∷ bytes) (leb-true _ _ q.1) in
          let be = be_bytes-from_be_bytes high low hl in
          let fits : Fits (record {
            target = record { host = host; port = from_be_bytes high low };
            payload = skip n (b ∷ bytes);
          }) =
            (
              omega (arith, size, not_zero _ q.0),
              omega (arith, size, hn),
              not_zero _ port,
              leb-true _ _ small,
            ) in
          Ensures-ok (fits, encode-packet _ fits ∙ ap ok (same_packet _ _ size be part refl))
