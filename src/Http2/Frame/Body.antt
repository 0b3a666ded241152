-- ===== src/Http2/Frame/Body.antt =====
-- luaclib-src/lhttp.c: the DATA frames of `lframe_build_body`.
use silly.Common.{
  ℕ, zero, suc, ◌+◌, ◌-◌, ◌/◌, ◌%◌, ◌^◌, ◌<◌, ◌≤◌, ◌≡◌, refl, sym, ap, ◌∙◌, List, [], ◌∷◌, ◌++◌,
  append_assoc, append-nil, Option, some, arith, length, length-append, length-take, length-drop,
  take, drop, take-append-drop, All, Bool, true, false, Bool-cases, inl, inr, ltb, leb, ◌==◌,
}
use silly.Common.Int.{pos, to_int32, to_int32_lem}
use silly.Http2.Frame.{
  write_frame_header, frame_data, end_stream, need, body_loop, build_slice, check_slice,
  lframe_build_body,
}
use silly.Http2.Frame.Receive.{FrameIn, receive, payloads}
use silly.Http2.Frame.Wire.{IsFrame, frame_bytes, wire, receive-wire, length-frame_bytes}
use native.Mathlib.Nat.{add-div_right}

-- DATA frames of one stream, none larger than `framesize`; only the last one has flags.
abbrev pub IsBody : ℕ → ℕ → ℕ → List FrameIn → Type 0
IsBody id framesize flag [] = ⊥
IsBody id framesize flag (f ∷ []) =
    (f.kind ≡ frame_data) × (f.stream ≡ id) × (length f.payload ≤ framesize) × (f.flags ≡ flag)
IsBody id framesize flag (f ∷ g ∷ fs) =
    (f.kind ≡ frame_data)
    × (f.stream ≡ id)
    × (length f.payload ≤ framesize)
    × (f.flags ≡ 0)
    × IsBody id framesize flag (g ∷ fs)

-- The frames that the loop writes.
record Written (id framesize flag : ℕ) (body : List ℕ) (out : Option (List ℕ)) : Type 0 where
  frames : List FrameIn
  written : out ≡ some (wire id frames)
  shaped : IsBody (id % 2 ^ 31) framesize flag frames
  whole : payloads frames ≡ body
  fit : All (IsFrame id) frames
  counted : length (wire id frames) ≤ need framesize (length body) + 9

pub need-less :
    (framesize n : ℕ)
    → 0 < framesize
    → framesize < n
    → need framesize n ≡ need framesize (n - framesize) + framesize + 9
unfolding need
need-less framesize n h k =
    let e : n + framesize - 1 ≡ n - framesize + framesize - 1 + framesize = omega arith in
    let q : (n + framesize - 1) / framesize ≡ (n - framesize + framesize - 1) / framesize + 1 =
      ap (λ (x : ℕ). x / framesize) e ∙ add-div_right (n - framesize + framesize - 1) h in
    omega (arith, q)

pub le-need : (framesize n : ℕ) → n ≤ need framesize n
unfolding need
le-need framesize n = omega arith

-- A cut of `framesize` bytes.
pub length-cut :
    (framesize : ℕ) (body : List ℕ)
    → framesize < length body
    → length (take framesize body) ≡ framesize
length-cut framesize body h = omega (arith, length-take {0} framesize body)

IsBody-cons :
    (id framesize flag : ℕ) (f : FrameIn) (fs : List FrameIn)
    → f.kind ≡ frame_data
    → f.stream ≡ id
    → length f.payload ≤ framesize
    → f.flags ≡ 0
    → IsBody id framesize flag fs
    → IsBody id framesize flag (f ∷ fs)
IsBody-cons id framesize flag f [] a b c d h = absurd h
IsBody-cons id framesize flag f (g ∷ fs) a b c d h = (a, b, c, d, h)

module _ (id framesize flag : ℕ) (h0 : 0 < framesize) (hs : framesize < 2 ^ 24) (hi : id < 2 ^ 32)
    (hf : flag < 256) where
  one_frame :
      (body : List ℕ)
      → length body ≤ framesize
      → Written id framesize flag body
          (some (write_frame_header (length body) frame_data flag id ++ body))
  one_frame body h =
      let f : FrameIn = record {
        kind = frame_data;
        flags = flag;
        stream = id % 2 ^ 31;
        payload = body;
      } in
      record {
        frames = f ∷ [];
        written = ap (λ (xs : List ℕ). some xs) (sym (append-nil (frame_bytes id f)));
        shaped = (refl, refl, h, refl);
        whole = append-nil body;
        fit = (
          record {
            kind_fits = omega arith;
            flags_fit = hf;
            id_fits = hi;
            stream_is = refl;
            payload_fits = omega arith;
          },
          tt,
        );
        counted = omega (
          arith,
          length-append {0} (frame_bytes id f) [],
          length-frame_bytes id f,
          le-need framesize (length body),
        );
      }

  body_loop-Written :
      (fuel : ℕ) (body : List ℕ)
      → length body < fuel
      → Written id framesize flag body (body_loop fuel framesize id flag body)
  unfolding body_loop
  body_loop-Written zero body h = absurd (omega arith)
  body_loop-Written (suc fuel) body h = elim (Bool-cases (ltb framesize (length body))) [
    | inr e ↦ rw e (one_frame body (ground arith))
    | inl e ↦ rw e (
        let more : framesize < length body = ground arith in
        let size = length-drop {0} framesize body in
        let w = body_loop-Written fuel (drop framesize body) (omega arith) in
        let cut = length-cut framesize body more in
        let f : FrameIn = record {
          kind = frame_data;
          flags = 0;
          stream = id % 2 ^ 31;
          payload = take framesize body;
        } in
        let header : write_frame_header framesize frame_data 0 id
              ++ (take framesize body ++ wire id w.frames)
            ≡ wire id (f ∷ w.frames) =
          ap
            (λ (n : ℕ).
              write_frame_header n frame_data 0 id ++ (take framesize body ++ wire id w.frames))
            (sym cut)
          ∙ sym (
              append_assoc (write_frame_header (length f.payload) frame_data 0 id) f.payload
                (wire id w.frames)) in
        record {
          frames = f ∷ w.frames;
          written = rw w.written (ap (λ (xs : List ℕ). some xs) header);
          shaped =
              IsBody-cons (id % 2 ^ 31) framesize flag f w.frames refl refl (omega arith) refl
                w.shaped;
          whole =
              ap (λ (xs : List ℕ). take framesize body ++ xs) w.whole
              ∙ take-append-drop framesize body;
          fit = (
            record {
              kind_fits = omega arith;
              flags_fit = omega arith;
              id_fits = hi;
              stream_is = refl;
              payload_fits = omega arith;
            },
            w.fit,
          );
          counted = omega (
            arith,
            length-append {0} (frame_bytes id f) (wire id w.frames),
            length-frame_bytes id f,
            w.counted,
            ap (need framesize) size,
            need-less framesize (length body) h0 more,
          );
        })
  ]

-- For a slice of a string shorter than 2^31 and a frame size from 1 to 2^24 - 1,
-- `lframe_build_body` returns bytes that a receiver takes apart into DATA frames on the stream that
-- the identifier names without its reserved bit: each has at most `framesize` bytes, together they
-- carry the slice, only the last one has flags, END_STREAM exactly if it was asked for, and the
-- bytes fit the buffer that was reserved for them.
pub lframe_build_body-receive :
    (id framesize offset len : ℕ) (dat : List ℕ) (endstream : Bool)
    → 0 < framesize
    → framesize < 2 ^ 24
    → id < 2 ^ 32
    → length dat < 2 ^ 31
    → offset + len ≤ length dat
    → (out : List ℕ) × (frames : List FrameIn) × (lframe_build_body id framesize dat endstream
          (pos offset)
          (pos len)
        ≡ some out)
      × (receive out ≡ some frames)
      × IsBody (id % 2 ^ 31) framesize (end_stream endstream) frames
      × (payloads frames ≡ take len (drop offset dat))
      × (length out ≤ need framesize len + 9)
unfolding lframe_build_body check_slice build_slice
lframe_build_body-receive id framesize offset len dat endstream h0 hs hi short hl =
    let first : to_int32 (pos offset) ≡ pos offset = to_int32_lem offset (omega arith) in
    let wide : to_int32 (pos len) ≡ pos len = to_int32_lem len (omega arith) in
    let body : List ℕ = take len (drop offset dat) in
    let size : length body ≡ len =
      omega (arith, length-take {0} len (drop offset dat), length-drop {0} offset dat) in
    let w : Written id framesize (end_stream endstream) body
        (body_loop (suc len) framesize id (end_stream endstream) body) =
      body_loop-Written id framesize (end_stream endstream) h0 hs hi (ground arith) (suc len) body
        (omega arith) in
    let inside : leb (offset + len) (length dat) ≡ true = ground arith in
    let nonzero : (framesize == 0) ≡ false = ground arith in
    (
      wire id w.frames,
      w.frames,
      rw (first, wide, inside, nonzero) w.written,
      receive-wire id w.frames w.fit,
      w.shaped,
      w.whole,
      omega (arith, w.counted, ap (need framesize) size),
    )
