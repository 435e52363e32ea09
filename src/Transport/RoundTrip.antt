-- ===== src/Transport/RoundTrip.antt =====
-- Reading back what was written (crates/transport/src/lib.rs, write_frame and read_frame).
use agent_scale.Base.{
  ℕ, String, true, ◌≡◌, refl, ap, ◌∙◌, ◌≤◌, ◌^◌, some, List, [], ◌∷◌, ◌++◌, length, skip, true-leb,
  ltb, true-ltb, ok, bind_ok, proceed, arith, take-append, skip-append, length-append,
  from_le_bytes-le_bytes, le_byte_0, le_byte_1, le_byte_2, le_byte_3,
}
use agent_scale.Transport.Frame.{
  FrameTag, t_start, t_stdout, t_stderr, t_exit, t_result, t_data, tag_byte, try_from, Frame,
  max_frame, header, split_header, write_frame, Ending, read_exact, read_payload, read_after_tag,
  read_frame_with_limit,
}

try_from-tag_byte : (tag : FrameTag) → try_from (tag_byte tag) ≡ ok tag
unfolding try_from tag_byte
try_from-tag_byte t_start = refl
try_from-tag_byte t_stdout = refl
try_from-tag_byte t_stderr = refl
try_from-tag_byte t_exit = refl
try_from-tag_byte t_result = refl
try_from-tag_byte t_data = refl

-- The bytes of a frame, which `write_frame` writes when the payload is not too long.
abbrev pub encoded : Frame → List ℕ
encoded f =
    let n = length f.payload in
    (tag_byte f.tag ∷ le_byte_0 n ∷ le_byte_1 n ∷ le_byte_2 n ∷ le_byte_3 n ∷ []) ++ f.payload

below_word : (n : ℕ) → n ≤ max_frame → ltb n (2 ^ 32) ≡ true
below_word n h = true-ltb n (2 ^ 32) (omega arith)

pub write_frame-encoded :
    (f : Frame) → length f.payload ≤ max_frame → write_frame f.tag f.payload ≡ ok (encoded f)
unfolding write_frame header
write_frame-encoded f h = bind_ok _ (proceed _ _ (true-leb _ _ h) ∙ proceed _ _ (below_word _ h))

split_header-of_header :
    (tag : FrameTag) (n : ℕ)
    → n ≤ max_frame
    → split_header (tag_byte tag) (le_byte_0 n) (le_byte_1 n) (le_byte_2 n) (le_byte_3 n)
      ≡ ok (tag, n)
unfolding split_header
split_header-of_header tag n h =
    let same = from_le_bytes-le_bytes n (omega arith) in
    bind_ok _ (try_from-tag_byte tag)
    ∙ proceed _ _ (true-leb _ _ (omega (arith, same)))
    ∙ ap (λ l. ok (tag, l)) same

read_exact-append :
    (xs ys : List ℕ) (context : String) → read_exact (length xs) (xs ++ ys) context ≡ ok (xs, ys)
unfolding read_exact
read_exact-append xs ys context =
    proceed _ _ (true-leb _ _ (omega (arith, length-append xs ys)))
    ∙ ap (λ l. ok (l, skip (length xs) (xs ++ ys))) (take-append xs ys)
    ∙ ap (λ l. ok (xs, l)) (skip-append xs ys)

pub read_frame-of_encoded :
    (f : Frame) (rest : List ℕ) (ending : Ending) (max_payload : ℕ)
    → length f.payload ≤ max_frame
    → length f.payload ≤ max_payload
    → read_frame_with_limit (encoded f ++ rest) ending max_payload ≡ ok (some (f, rest))
unfolding read_frame_with_limit read_after_tag read_payload
read_frame-of_encoded f rest ending m h k =
    bind_ok _ (split_header-of_header f.tag _ h)
    ∙ proceed _ _ (true-leb _ _ k)
    ∙ bind_ok _ (read_exact-append f.payload rest "read payload")

-- A written frame is read back, with exactly what follows it, whenever its payload is within the
-- limit of frames and that of the reader.
pub read_frame-of_write :
    (f : Frame) (rest : List ℕ) (ending : Ending) (max_payload : ℕ)
    → length f.payload ≤ max_frame
    → length f.payload ≤ max_payload
    → (bytes : List ℕ) × (write_frame f.tag f.payload ≡ ok bytes)
      × (read_frame_with_limit (bytes ++ rest) ending max_payload ≡ ok (some (f, rest)))
read_frame-of_write f rest ending m h k =
    (encoded f, write_frame-encoded f h, read_frame-of_encoded f rest ending m h k)
