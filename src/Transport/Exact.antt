-- ===== src/Transport/Exact.antt =====
-- What a reader of frames accepts (crates/transport/src/lib.rs, read_frame_with_limit).
use agent_scale.Base.{
  ℕ, String, ◌≡◌, refl, sym, ap, ◌∙◌, ◌≤◌, ◌<◌, Option, none, some, List, [], ◌∷◌, ◌++◌, All,
  length, leb-true, eqb, eqb_sound, Result, ok, err, arith, IsByte, append-take-skip, length-take,
  from_le_bytes, le_bytes-from_le_bytes, from_le_bytes-le_bytes, length-append, le_byte_0,
  le_byte_1, le_byte_2, le_byte_3, Ensures, Ensures-ok, Ensures-err, Ensures-bind, Ensures-ensure,
  Ensures-if, err_of_no_value, append_nil, append_assoc, if◌then◌else◌,
}
use agent_scale.Transport.Frame.{
  FrameTag, t_start, t_stdout, t_stderr, t_exit, t_result, t_data, tag_byte, try_from, Frame,
  max_frame, split_header, Ending, finished, broken, read_exact, read_payload, read_after_tag,
  read_frame_with_limit,
}
use agent_scale.Transport.RoundTrip.{encoded, read_frame-of_encoded}

-- What is read: nothing at a clean end only, and otherwise a frame that the bytes begin with.
abbrev pub Exact : List ℕ → Ending → ℕ → Option (Frame × List ℕ) → Type 0
Exact bytes ending limit none = (bytes ≡ []) × (ending ≡ finished)
Exact bytes ending limit (some (f, rest)) =
    (bytes ≡ encoded f ++ rest) × (length f.payload ≤ max_frame) × (length f.payload ≤ limit)

choose :
    (v k : ℕ) (tag : FrameTag) (m : Result String FrameTag)
    → tag_byte tag ≡ k
    → Ensures (λ t. tag_byte t ≡ v) m
    → Ensures (λ t. tag_byte t ≡ v) (if eqb v k then ok tag else m)
choose v k tag m same h = Ensures-if _ _ _ (λ e. Ensures-ok (same ∙ sym (eqb_sound v k e))) (λ _. h)

try_from-Byte : (value : ℕ) → Ensures (λ tag. tag_byte tag ≡ value) (try_from value)
unfolding try_from tag_byte
try_from-Byte v = choose v 0 t_start _ refl (
    choose v 1 t_stdout _ refl (
      choose v 2 t_stderr _ refl (
        choose v 3 t_exit _ refl
          (choose v 4 t_result _ refl (choose v 5 t_data _ refl (Ensures-err _))))))

-- The bytes of a read header are those that are written for its tag and length.
abbrev Header : ℕ → ℕ → ℕ → ℕ → ℕ → FrameTag × ℕ → Type 0
Header t a b c d (tag, n) =
    (n ≤ max_frame)
    × (tag_byte tag ≡ t)
    × (le_byte_0 n ≡ a)
    × (le_byte_1 n ≡ b)
    × (le_byte_2 n ≡ c)
    × (le_byte_3 n ≡ d)

split_header-Header :
    (t a b c d : ℕ)
    → IsByte a
    → IsByte b
    → IsByte c
    → IsByte d
    → Ensures (Header t a b c d) (split_header t a b c d)
unfolding split_header
split_header-Header t a b c d ha hb hc hd = Ensures-bind _ _ λ tag e. Ensures-ensure _ _ _ λ small.
    let q = le_bytes-from_le_bytes a b c d ha hb hc hd in
    Ensures-ok (leb-true _ _ small, (try_from-Byte t).value tag e, q.0, q.1, q.2, q.3)

read_exact-Exact :
    (n : ℕ) (bytes : List ℕ) (context : String)
    → Ensures
        (λ (r : List ℕ × List ℕ). (bytes ≡ r.0 ++ r.1) × (length r.0 ≡ n))
        (read_exact n bytes context)
unfolding read_exact
read_exact-Exact n bytes context =
    Ensures-ensure _ _ _ λ enough.
      Ensures-ok (sym (append-take-skip n bytes), length-take n bytes (leb-true _ _ enough))

encoded-eq :
    (t a b c d : ℕ) (head : FrameTag × ℕ) (payload rest bytes : List ℕ)
    → Header t a b c d head
    → (bytes ≡ payload ++ rest) × (length payload ≡ head.1)
    → ◌≡◌ {A = List ℕ}
        (t ∷ a ∷ b ∷ c ∷ d ∷ bytes)
        (encoded (record { tag = head.0; payload = payload }) ++ rest)
encoded-eq t a b c d (tag, n) payload rest bytes (small, ht, ha, hb, hc, hd) (e, size) =
    rw (e, size, sym ht, sym ha, sym hb, sym hc, sym hd) refl

read_after_tag-Exact :
    (t : ℕ) (bytes : List ℕ) (ending : Ending) (limit : ℕ)
    → All IsByte bytes
    → Ensures (Exact (t ∷ bytes) ending limit) (read_after_tag t bytes limit)
unfolding read_after_tag read_payload
read_after_tag-Exact t [] ending limit h = Ensures-err _
read_after_tag-Exact t (a ∷ []) ending limit h = Ensures-err _
read_after_tag-Exact t (a ∷ b ∷ []) ending limit h = Ensures-err _
read_after_tag-Exact t (a ∷ b ∷ c ∷ []) ending limit h = Ensures-err _
read_after_tag-Exact t (a ∷ b ∷ c ∷ d ∷ bytes) ending limit (ha, (hb, (hc, (hd, _)))) =
    Ensures-bind _ _ λ (tag, n) e.
      let q = (split_header-Header t a b c d ha hb hc hd).value (tag, n) e in
      Ensures-ensure _ _ _ λ small. Ensures-bind _ _ λ (payload, rest) e'.
        let r = (read_exact-Exact n bytes _).value (payload, rest) e' in
        Ensures-ok (
          encoded-eq _ _ _ _ _ (tag, n) payload rest bytes q r,
          omega (arith, q.0, r.1),
          omega (arith, leb-true _ _ small, r.1),
        )

accepted-Exact :
    (bytes : List ℕ) (ending : Ending) (limit : ℕ)
    → All IsByte bytes
    → Ensures (Exact bytes ending limit) (read_frame_with_limit bytes ending limit)
unfolding read_frame_with_limit
accepted-Exact [] finished limit h = Ensures-ok (refl, refl)
accepted-Exact [] (broken e) limit h = Ensures-err _
accepted-Exact (t ∷ bytes) ending limit h = read_after_tag-Exact t bytes ending limit h.1

Exact-accepted :
    (bytes : List ℕ) (ending : Ending) (limit : ℕ) (r : Option (Frame × List ℕ))
    → Exact bytes ending limit r
    → read_frame_with_limit bytes ending limit ≡ ok r
unfolding read_frame_with_limit
Exact-accepted bytes ending limit none (empty, over) = rw (empty, over) refl
Exact-accepted bytes ending limit (some (f, rest)) (e, small, fits) =
    ap (λ l. read_frame_with_limit l ending limit) e
    ∙ read_frame-of_encoded f rest ending limit small fits

-- A reader accepts exactly the encodings: it reports an end if and only if the stream is finished and
-- has no byte, and a frame with what follows it if and only if the bytes begin with its encoding and
-- its payload is at most as long as both limits.
pub read_frame_with_limit-Exact :
    (bytes : List ℕ) (ending : Ending) (limit : ℕ) (r : Option (Frame × List ℕ))
    → All IsByte bytes
    → (read_frame_with_limit bytes ending limit ≡ ok r → Exact bytes ending limit r)
      × (Exact bytes ending limit r → read_frame_with_limit bytes ending limit ≡ ok r)
read_frame_with_limit-Exact bytes ending limit r h =
    ((accepted-Exact bytes ending limit h).value r, Exact-accepted bytes ending limit r)

-- The length that a header gives.
abbrev declared : List ℕ → ℕ
declared (t ∷ a ∷ b ∷ c ∷ d ∷ bytes) = from_le_bytes a b c d
declared bytes = 0

encoded-size :
    (f g : Frame) (xs ys : List ℕ)
    → length f.payload ≤ max_frame
    → length g.payload ≤ max_frame
    → (encoded f ++ xs) ≡ (encoded g ++ ys)
    → length f.payload ≡ length g.payload
encoded-size f g xs ys hf hg e =
    sym (from_le_bytes-le_bytes _ (omega arith))
    ∙ ap declared e
    ∙ from_le_bytes-le_bytes (length g.payload) (omega arith)

not_cut :
    (f : Frame) (bytes missing : List ℕ) (ending : Ending) (limit : ℕ) (r : Option (Frame × List ℕ))
    → length f.payload ≤ max_frame
    → (bytes ++ missing) ≡ encoded f
    → 0 < length bytes
    → 0 < length missing
    → ¬ (Exact bytes ending limit r)
unfolding length
not_cut f bytes missing ending limit none small e some_read some_missing (empty, _) =
    omega (arith, ap length empty)
not_cut f bytes missing ending limit (some (g, rest)) small e some_read some_missing (q, k, _) =
    let all : (encoded f ++ []) ≡ (encoded g ++ (rest ++ missing)) =
      append_nil _ ∙ sym e ∙ ap (λ l. l ++ missing) q ∙ append_assoc (encoded g) rest missing in
    omega (
      arith,
      encoded-size f g [] (rest ++ missing) small k all,
      ap length all,
      length-append f.payload [],
      length-append g.payload (rest ++ missing),
      length-append rest missing,
    )

-- A stream that is cut short within a frame, after its first byte, is an error: it is never read as
-- a shorter frame nor as an end.
pub truncated-refused :
    (f : Frame) (bytes missing : List ℕ) (ending : Ending) (limit : ℕ)
    → length f.payload ≤ max_frame
    → All IsByte bytes
    → (bytes ++ missing) ≡ encoded f
    → 0 < length bytes
    → 0 < length missing
    → (error : String) × (read_frame_with_limit bytes ending limit ≡ err error)
truncated-refused f bytes missing ending limit small h e some_read some_missing =
    let exact = (accepted-Exact bytes ending limit h).value in
    err_of_no_value _
      λ r q. not_cut f bytes missing ending limit r small e some_read some_missing (exact r q)
