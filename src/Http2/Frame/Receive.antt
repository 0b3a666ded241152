-- ===== src/Http2/Frame/Receive.antt =====
-- How a receiver takes the bytes of a connection apart into frames (RFC 7540, 4.1): what the
-- builders of luaclib-src/lhttp.c are measured by.
use silly.Common.{
  ℕ, zero, suc, ◌+◌, ◌*◌, ◌%◌, ◌^◌, List, [], ◌∷◌, ◌++◌, Option, none, some, ltb, if◌then◌else◌,
  length, take, drop, ◌>>=◌,
}

pub record FrameIn : Type 0 where
  pub kind : ℕ
  pub flags : ℕ
  pub stream : ℕ
  pub payload : List ℕ

-- Four bytes, the high one first; the stream is behind a bit that is reserved.
unfoldable pub read_int : ℕ → ℕ → ℕ → ℕ → ℕ
read_int a b c d = a * 16777216 + b * 65536 + c * 256 + d

-- A frame whose header announces `len` bytes, and the bytes behind it.
unfoldable pub take_payload : ℕ → ℕ → ℕ → ℕ → List ℕ → Option (FrameIn × List ℕ)
take_payload len kind flags stream r =
    if ltb (length r) len
    then none
    else some
        (record { kind = kind; flags = flags; stream = stream; payload = take len r }, drop len r)

-- One frame, and the bytes behind it.
unfoldable pub read_frame : List ℕ → Option (FrameIn × List ℕ)
unfolding read_int take_payload
read_frame (l ∷ m ∷ n ∷ kind ∷ flags ∷ a ∷ b ∷ c ∷ d ∷ r) =
    take_payload (read_int 0 l m n) kind flags (read_int a b c d % 2 ^ 31) r
read_frame _ = none

-- All of them, at most as many as the fuel says.
unfoldable pub read_frames : ℕ → List ℕ → Option (List FrameIn)
unfolding read_frame
read_frames fuel [] = some []
read_frames zero (x ∷ bytes) = none
read_frames (suc fuel) (x ∷ bytes) =
    read_frame (x ∷ bytes) >>= λ p. read_frames fuel p.1 >>= λ fs. some (p.0 ∷ fs)

-- A frame has nine bytes at least.
unfoldable pub receive : List ℕ → Option (List FrameIn)
unfolding read_frames
receive bytes = read_frames (length bytes) bytes

-- What the frames carry.
abbrev pub payloads : List FrameIn → List ℕ
payloads [] = []
payloads (f ∷ fs) = f.payload ++ payloads fs
