-- ===== src/Http2/Frame/Wire.antt =====
-- luaclib-src/lhttp.c: frames as `write_frame_header` and `memcpy` lay them out, read back.
use silly.Common.{
  ℕ, zero, suc, ◌+◌, ◌/◌, ◌%◌, ◌^◌, ◌<◌, ◌≤◌, ◌≡◌, refl, sym, ap, ◌∙◌, List, [], ◌∷◌, ◌++◌, some,
  arith, length, length-append, take, drop, All, ltb, drop-append_length, take-append_left,
  take_all, false,
}
use silly.Http2.Frame.{write_int, write_frame_header}
use silly.Http2.Frame.Receive.{FrameIn, read_int, take_payload, read_frame, read_frames, receive}

-- A frame written with the stream identifier `id`.
abbrev pub frame_bytes : ℕ → FrameIn → List ℕ
frame_bytes id f = write_frame_header (length f.payload) f.kind f.flags id ++ f.payload

abbrev pub wire : ℕ → List FrameIn → List ℕ
wire id [] = []
wire id (f ∷ fs) = frame_bytes id f ++ wire id fs

-- Each field fits its place in the header, where the stream is `id` without its reserved bit.
pub record IsFrame (id : ℕ) (f : FrameIn) : Type 0 where
  pub kind_fits : f.kind < 256
  pub flags_fit : f.flags < 256
  pub id_fits : id < 2 ^ 32
  pub stream_is : f.stream ≡ id % 2 ^ 31
  pub payload_fits : length f.payload < 2 ^ 24

pub read_int-write_int :
    (n : ℕ)
    → n < 2 ^ 32
    → read_int (n / 16777216 % 256) (n / 65536 % 256) (n / 256 % 256) (n % 256) ≡ n
unfolding read_int
read_int-write_int n h = omega arith

read_int-length : (n : ℕ) → n < 2 ^ 24 → read_int 0 (n / 65536 % 256) (n / 256 % 256) (n % 256) ≡ n
unfolding read_int
read_int-length n h = omega arith

split-append :
    (xs ys : List ℕ) → (take (length xs) (xs ++ ys) ≡ xs) × (drop (length xs) (xs ++ ys) ≡ ys)
split-append xs ys = (
  take-append_left (length xs) xs ys (omega arith) ∙ take_all (length xs) xs (omega arith),
  drop-append_length xs ys,
)

-- The two values of a frame's reader, with the length that the header announces.
read_payload :
    (f : FrameIn) (rest : List ℕ) (n kind flags stream : ℕ)
    → n ≡ length f.payload
    → kind ≡ f.kind
    → flags ≡ f.flags
    → stream ≡ f.stream
    → take_payload n kind flags stream (f.payload ++ rest) ≡ some (f, rest)
unfolding take_payload
read_payload f rest n kind flags stream en ek ef es =
    let (t, d) = split-append f.payload rest in
    let long : ltb (length (f.payload ++ rest)) (length f.payload) ≡ false =
      ground (arith, length-append {0} f.payload rest) in
    simp (en, ek, ef, es, long, t, d) refl

pub read_frame-wire :
    (id : ℕ) (f : FrameIn) (rest : List ℕ)
    → IsFrame id f
    → read_frame (frame_bytes id f ++ rest) ≡ some (f, rest)
unfolding read_frame write_frame_header
read_frame-wire id f rest h =
    read_payload f rest _ _ _ _ (read_int-length (length f.payload) h.payload_fits) (omega arith)
      (omega arith) (ap (λ (n : ℕ). n % 2 ^ 31) (read_int-write_int id h.id_fits) ∙ sym h.stream_is)

read_frames-cons :
    (fuel : ℕ) (bytes rest : List ℕ) (f : FrameIn) (fs : List FrameIn)
    → read_frame bytes ≡ some (f, rest)
    → read_frames fuel rest ≡ some fs
    → read_frames (suc fuel) bytes ≡ some (f ∷ fs)
unfolding read_frames
read_frames-cons fuel [] rest f fs e g = unfold read_frame in cc
read_frames-cons fuel (x ∷ bytes) rest f fs e g = rw (e, g)

read_frames-nil : (fuel : ℕ) → read_frames fuel [] ≡ some []
unfolding read_frames
read_frames-nil zero = refl
read_frames-nil (suc fuel) = refl

read_frames-wire :
    (id fuel : ℕ) (fs : List FrameIn)
    → All (IsFrame id) fs
    → length fs ≤ fuel
    → read_frames fuel (wire id fs) ≡ some fs
read_frames-wire id fuel [] h hf = read_frames-nil fuel
read_frames-wire id zero (f ∷ fs) h hf = absurd (omega arith)
read_frames-wire id (suc fuel) (f ∷ fs) (h, hs) hf =
    read_frames-cons fuel (wire id (f ∷ fs)) (wire id fs) f fs (read_frame-wire id f (wire id fs) h)
      (read_frames-wire id fuel fs hs (omega arith))

pub length-frame_bytes : (id : ℕ) (f : FrameIn) → length (frame_bytes id f) ≡ 9 + length f.payload
unfolding write_frame_header write_int
length-frame_bytes id f = omega arith

length-wire : (id : ℕ) (fs : List FrameIn) → length fs ≤ length (wire id fs)
length-wire id [] = omega arith
length-wire id (f ∷ fs) = omega (
  arith,
  length-append {0} (frame_bytes id f) (wire id fs),
  length-frame_bytes id f,
  length-wire id fs,
)

pub receive-wire :
    (id : ℕ) (fs : List FrameIn) → All (IsFrame id) fs → receive (wire id fs) ≡ some fs
unfolding receive
receive-wire id fs h = read_frames-wire id (length (wire id fs)) fs h (length-wire id fs)
