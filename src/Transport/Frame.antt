-- ===== src/Transport/Frame.antt =====
-- Frames (crates/transport/src/lib.rs: FrameTag, header, split_header, iroh_wire and io_wire).
-- What a peer sends is the bytes that arrive and how the stream then ends; a `usize` holds every
-- u32. Error texts are without the values that the code formats into them.
use agent_scale.Base.{
  ℕ, String, Option, none, some, List, [], ◌∷◌, ◌++◌, length, take, skip, leb, ltb, eqb, ◌^◌, ◌*◌,
  Result, ok, err, ensure, ◌>>=◌, ◌>>◌, if◌then◌else◌, le_byte_0, le_byte_1, le_byte_2, le_byte_3,
  from_le_bytes,
}

pub data FrameTag : Type 0 where
  t_start t_stdout t_stderr t_exit t_result t_data : FrameTag

-- `tag as u8`.
unfoldable pub tag_byte : FrameTag → ℕ
tag_byte t_start = 0
tag_byte t_stdout = 1
tag_byte t_stderr = 2
tag_byte t_exit = 3
tag_byte t_result = 4
tag_byte t_data = 5

unfoldable pub try_from : ℕ → Result String FrameTag
try_from value =
    if eqb value 0
    then ok t_start
    else if eqb value 1
    then ok t_stdout
    else if eqb value 2
    then ok t_stderr
    else if eqb value 3
    then ok t_exit
    else if eqb value 4
    then ok t_result
    else if eqb value 5
    then ok t_data
    else err "unknown frame tag"

pub record Frame : Type 0 where
  pub tag : FrameTag
  pub payload : List ℕ

abbrev pub max_frame : ℕ
max_frame = 16 * 1024 * 1024

unfoldable pub header : FrameTag → ℕ → Result String (List ℕ)
header tag len = do
  ensure (leb len max_frame) "frame too large"
  ensure (ltb len (2 ^ 32)) "frame length exceeds u32"
  ok (tag_byte tag ∷ le_byte_0 len ∷ le_byte_1 len ∷ le_byte_2 len ∷ le_byte_3 len ∷ [])

unfoldable pub split_header : ℕ → ℕ → ℕ → ℕ → ℕ → Result String (FrameTag × ℕ)
split_header t a b c d = do
  tag ← try_from t
  ensure (leb (from_le_bytes a b c d) max_frame) "frame too large"
  ok (tag, from_le_bytes a b c d)

-- The bytes that one call writes, to either kind of stream.
unfoldable pub write_frame : FrameTag → List ℕ → Result String (List ℕ)
write_frame tag payload = do hdr ← header tag (length payload); ok (hdr ++ payload)

-- How a stream ends: the peer finished it, or it failed.
pub data Ending : Type 0 where
  finished : Ending
  broken : String → Ending

-- `read_exact` of `n` bytes: them and the bytes after them.
unfoldable pub read_exact : ℕ → List ℕ → String → Result String (List ℕ × List ℕ)
read_exact n bytes context = do
  ensure (leb n (length bytes)) context
  ok (take n bytes, skip n bytes)

-- The payload of a frame whose header is read, when it is at most `max_payload` long.
unfoldable pub read_payload : FrameTag × ℕ → List ℕ → ℕ → Result String (Option (Frame × List ℕ))
read_payload (tag, n) bytes max_payload = do
  ensure (leb n max_payload) "frame too large for this request"
  (payload, rest) ← read_exact n bytes "read payload"
  ok (some (record { tag = tag; payload = payload }, rest))

unfoldable pub read_after_tag : ℕ → List ℕ → ℕ → Result String (Option (Frame × List ℕ))
read_after_tag t (a ∷ b ∷ c ∷ d ∷ bytes) max_payload = do
  head ← split_header t a b c d
  read_payload head bytes max_payload
read_after_tag t bytes max_payload = err "read frame header"

-- `read_frame_with_limit`: no frame on a clean end of the stream, or the frame and what follows it.
unfoldable pub read_frame_with_limit : List ℕ → Ending → ℕ → Result String (Option (Frame × List ℕ))
read_frame_with_limit [] finished max_payload = ok none
read_frame_with_limit [] (broken error) max_payload = err "read frame tag"
read_frame_with_limit (t ∷ bytes) ending max_payload = read_after_tag t bytes max_payload

-- `read_frame` of both wires.
unfoldable pub read_frame : List ℕ → Ending → Result String (Option (Frame × List ℕ))
read_frame bytes ending = read_frame_with_limit bytes ending max_frame
