-- ===== src/Http2/Frame/Header.antt =====
-- luaclib-src/lhttp.c: the frames of `lframe_build_header`.
use silly.Common.{
  ℕ, zero, suc, ◌+◌, ◌%◌, ◌^◌, ◌<◌, ◌≤◌, ◌≡◌, ◌↔◌, refl, sym, ap, ◌∙◌, List, [], ◌∷◌, ◌++◌,
  append_assoc, append-nil, Option, some, arith, length, length-append, length-drop, take, drop,
  take-append-drop, All, Bool, false, Bool-cases, inl, inr, ltb, ◌==◌,
}
use silly.Http2.Frame.{
  write_frame_header, frame_headers, frame_continuation, end_stream, end_headers, need, header_loop,
  lframe_build_header,
}
use silly.Http2.Frame.Receive.{FrameIn, receive, payloads}
use silly.Http2.Frame.Wire.{IsFrame, frame_bytes, wire, receive-wire, length-frame_bytes}
use silly.Http2.Frame.Body.{need-less, le-need, length-cut}

-- What the loop writes from a `type` and a `flag` on: END_HEADERS stands in the last frame only,
-- whose type is HEADERS.
abbrev pub IsBlock : ℕ → ℕ → ℕ → ℕ → List FrameIn → Type 0
IsBlock id framesize type flag [] = ⊥
IsBlock id framesize type flag (f ∷ []) =
    (f.kind ≡ frame_headers)
    × (f.stream ≡ id)
    × (length f.payload ≤ framesize)
    × (f.flags ≡ flag + end_headers)
IsBlock id framesize type flag (f ∷ g ∷ fs) =
    (f.kind ≡ type)
    × (f.stream ≡ id)
    × (length f.payload ≤ framesize)
    × (f.flags ≡ flag)
    × IsBlock id framesize frame_continuation 0 (g ∷ fs)

-- RFC 7540, 6.2: behind the HEADERS frame a header block goes on in CONTINUATION frames.
abbrev pub Continued : List FrameIn → Type 0
Continued [] = ⊥
Continued (f ∷ fs) =
    (f.kind ≡ frame_headers) × All (λ (g : FrameIn). g.kind ≡ frame_continuation) fs

record Written (id framesize type flag : ℕ) (hdr : List ℕ) (out : Option (List ℕ)) : Type 0 where
  frames : List FrameIn
  written : out ≡ some (wire id frames)
  shaped : IsBlock (id % 2 ^ 31) framesize type flag frames
  whole : payloads frames ≡ hdr
  fit : All (IsFrame id) frames
  counted : length (wire id frames) ≤ need framesize (length hdr) + 9
  split : type ≡ frame_headers → Continued frames ↔ (length hdr ≤ framesize)

IsBlock-cons :
    (id framesize type flag : ℕ) (f : FrameIn) (fs : List FrameIn)
    → f.kind ≡ type
    → f.stream ≡ id
    → length f.payload ≤ framesize
    → f.flags ≡ flag
    → IsBlock id framesize frame_continuation 0 fs
    → IsBlock id framesize type flag (f ∷ fs)
IsBlock-cons id framesize type flag f [] a b c d h = absurd h
IsBlock-cons id framesize type flag f (g ∷ fs) a b c d h = (a, b, c, d, h)

-- The last frame is no CONTINUATION.
IsBlock-ends :
    (id framesize type flag : ℕ) (fs : List FrameIn)
    → IsBlock id framesize type flag fs
    → ¬ All (λ (g : FrameIn). g.kind ≡ frame_continuation) fs
IsBlock-ends id framesize type flag [] h = λ _. h
IsBlock-ends id framesize type flag (f ∷ []) h = λ a. omega arith
IsBlock-ends id framesize type flag (f ∷ g ∷ fs) h =
    λ a. IsBlock-ends id framesize frame_continuation 0 (g ∷ fs) h.4 a.1

module _ (id framesize : ℕ) (h0 : 0 < framesize) (hs : framesize < 2 ^ 24) (hi : id < 2 ^ 32) where
  one_frame :
      (type flag : ℕ) (hdr : List ℕ)
      → flag < 2
      → length hdr ≤ framesize
      → Written id framesize type flag hdr
          (some (write_frame_header (length hdr) frame_headers (flag + end_headers) id ++ hdr))
  one_frame type flag hdr hf h =
      let f : FrameIn = record {
        kind = frame_headers;
        flags = flag + end_headers;
        stream = id % 2 ^ 31;
        payload = hdr;
      } in
      record {
        frames = f ∷ [];
        written = ap (λ (xs : List ℕ). some xs) (sym (append-nil (frame_bytes id f)));
        shaped = (refl, refl, h, refl);
        whole = append-nil hdr;
        fit = (
          record {
            kind_fits = omega arith;
            flags_fit = omega arith;
            id_fits = hi;
            stream_is = refl;
            payload_fits = omega arith;
          },
          tt,
        );
        counted = omega (
          arith,
          length-append {0} (frame_bytes id f) [],
          length-frame_bytes id f,
          le-need framesize (length hdr),
        );
        split = λ _. ((λ _. h), (λ _. (refl, tt)));
      }

  header_loop-Written :
      (fuel type flag : ℕ) (hdr : List ℕ)
      → type < 256
      → flag < 2
      → length hdr < fuel
      → Written id framesize type flag hdr (header_loop fuel framesize id type flag hdr)
  unfolding header_loop
  header_loop-Written zero type flag hdr ht hf h = absurd (omega arith)
  header_loop-Written (suc fuel) type flag hdr ht hf h =
      elim (Bool-cases (ltb framesize (length hdr))) [
        | inr e ↦ rw e (one_frame type flag hdr hf (ground arith))
        | inl e ↦ rw e (
            let more : framesize < length hdr = ground arith in
            let size = length-drop {0} framesize hdr in
            let w =
              header_loop-Written fuel frame_continuation 0 (drop framesize hdr) (omega arith)
                (omega arith) (omega arith) in
            let cut = length-cut framesize hdr more in
            let f : FrameIn = record {
              kind = type;
              flags = flag;
              stream = id % 2 ^ 31;
              payload = take framesize hdr;
            } in
            let header : write_frame_header framesize type flag id
                  ++ (take framesize hdr ++ wire id w.frames)
                ≡ wire id (f ∷ w.frames) =
              ap
                (λ (n : ℕ).
                  write_frame_header n type flag id ++ (take framesize hdr ++ wire id w.frames))
                (sym cut)
              ∙ sym (
                  append_assoc (write_frame_header (length f.payload) type flag id) f.payload
                    (wire id w.frames)) in
            record {
              frames = f ∷ w.frames;
              written = rw w.written (ap (λ (xs : List ℕ). some xs) header);
              shaped =
                  IsBlock-cons (id % 2 ^ 31) framesize type flag f w.frames refl refl (omega arith)
                    refl w.shaped;
              whole =
                  ap (λ (xs : List ℕ). take framesize hdr ++ xs) w.whole
                  ∙ take-append-drop framesize hdr;
              fit = (
                record {
                  kind_fits = ht;
                  flags_fit = omega arith;
                  id_fits = hi;
                  stream_is = refl;
                  payload_fits = omega arith;
                },
                w.fit,
              );
              counted = omega (
                arith,
                length-append {0} (frame_bytes id f) (wire id w.frames),
                length-frame_bytes id f,
                w.counted,
                ap (need framesize) size,
                need-less framesize (length hdr) h0 more,
              );
              split = λ _. (
                (λ c. absurd (
                    IsBlock-ends (id % 2 ^ 31) framesize frame_continuation 0 w.frames w.shaped
                      c.1)),
                (λ short. absurd (omega arith)),
              );
            })
      ]

-- For a frame size from 1 to 2^24 - 1, `lframe_build_header` returns bytes that a receiver takes
-- apart into frames of at most `framesize` bytes, on the stream that the identifier names without
-- its reserved bit, which together carry the header block. END_STREAM stands in the first if it was asked for, END_HEADERS in the last. The bytes fit
-- the buffer that was reserved for them. The block goes on in CONTINUATION frames, as RFC 7540
-- wants it, exactly when it fits one frame: a longer one ends in a second HEADERS frame.
pub lframe_build_header-receive :
    (id framesize : ℕ) (hdr : List ℕ) (endstream : Bool)
    → 0 < framesize
    → framesize < 2 ^ 24
    → id < 2 ^ 32
    → (out : List ℕ) × (frames : List FrameIn) × (lframe_build_header id framesize hdr endstream
        ≡ some out)
      × (receive out ≡ some frames)
      × IsBlock (id % 2 ^ 31) framesize frame_headers (end_stream endstream) frames
      × (payloads frames ≡ hdr)
      × (length out ≤ need framesize (length hdr) + 9)
      × (Continued frames ↔ (length hdr ≤ framesize))
unfolding lframe_build_header
lframe_build_header-receive id framesize hdr endstream h0 hs hi =
    let w : Written id framesize frame_headers (end_stream endstream) hdr
        (header_loop (suc (length hdr)) framesize id frame_headers (end_stream endstream) hdr) =
      header_loop-Written id framesize h0 hs hi (suc (length hdr)) frame_headers
        (end_stream endstream) hdr (omega arith) (ground arith) (omega arith) in
    let nonzero : (framesize == 0) ≡ false = ground arith in
    (
      wire id w.frames,
      w.frames,
      rw nonzero w.written,
      receive-wire id w.frames w.fit,
      w.shaped,
      w.whole,
      w.counted,
      w.split refl,
    )
