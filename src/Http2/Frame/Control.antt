-- ===== src/Http2/Frame/Control.antt =====
-- luaclib-src/lhttp.c: the frames that carry settings and numbers, read back.
use silly.Common.{
  ℕ, ◌+◌, ◌*◌, ◌%◌, ◌^◌, ◌<◌, ◌≡◌, refl, sym, ap, ap₂, ◌∙◌, List, [], ◌∷◌, ◌++◌, append-nil, Option,
  none, some, arith, length, All, ◌>>=◌,
}
use silly.Http2.Frame.{
  write_int, write_frame_header, write_settings, lframe_build_setting, lframe_build_winupdate,
  lframe_build_rst, lframe_build_goaway, frame_settings, frame_winupdate, frame_rst, frame_goaway,
}
use silly.Http2.Frame.Receive.{FrameIn, read_int, receive}
use silly.Http2.Frame.Wire.{IsFrame, frame_bytes, receive-wire, read_int-write_int}

-- The pairs of a SETTINGS frame (RFC 7540, 6.5.1).
unfoldable pub read_settings : List ℕ → Option (List (ℕ × ℕ))
unfolding read_int
read_settings [] = some []
read_settings (i ∷ j ∷ a ∷ b ∷ c ∷ d ∷ r) =
    read_settings r >>= λ rest. some ((i * 256 + j, read_int a b c d) ∷ rest)
read_settings _ = none

-- The numbers of the other frames.
unfoldable pub read_ints : List ℕ → List ℕ
unfolding read_int
read_ints (a ∷ b ∷ c ∷ d ∷ r) = read_int a b c d ∷ read_ints r
read_ints _ = []

abbrev pub IsSetting : ℕ × ℕ → Type 0
IsSetting s = (s.0 < 2 ^ 16) × (s.1 < 2 ^ 32)

length-write_settings :
    (settings : List (ℕ × ℕ)) → length (write_settings settings) ≡ length settings * 6
unfolding write_settings write_int
length-write_settings [] = omega arith
length-write_settings ((id, val) ∷ r) = omega (arith, length-write_settings r)

read_settings-write_settings :
    (settings : List (ℕ × ℕ))
    → All IsSetting settings
    → read_settings (write_settings settings) ≡ some settings
unfolding read_settings write_settings write_int
read_settings-write_settings [] h = refl
read_settings-write_settings ((id, val) ∷ r) (hs, h) =
    rw (read_settings-write_settings r h)
      (ap₂ (λ (i v : ℕ). some ((i, v) ∷ r)) (omega arith) (read_int-write_int val (omega arith)))

-- One frame on the wire.
receive-one :
    (id : ℕ) (f : FrameIn) (len : ℕ)
    → IsFrame id f
    → len ≡ length f.payload
    → receive (write_frame_header len f.kind f.flags id ++ f.payload) ≡ some (f ∷ [])
receive-one id f len h e =
    ap (λ (n : ℕ). receive (write_frame_header n f.kind f.flags id ++ f.payload)) e
    ∙ ap receive (sym (append-nil (frame_bytes id f)))
    ∙ receive-wire id (f ∷ []) (h, tt)

-- A receiver takes what `lframe_build_setting` returns for one SETTINGS frame of the connection
-- with the flags, and reads from it the settings in their order. The identifiers are below 2^16,
-- the values below 2^32, the flags below 256, and there are fewer than 2^21 settings.
pub lframe_build_setting-receive :
    (flag : ℕ) (settings : List (ℕ × ℕ))
    → flag < 256
    → length settings < 2 ^ 21
    → All IsSetting settings
    → (f : FrameIn) × (receive (lframe_build_setting flag settings) ≡ some (f ∷ []))
      × (f.kind ≡ frame_settings)
      × (f.flags ≡ flag)
      × (f.stream ≡ 0)
      × (read_settings f.payload ≡ some settings)
unfolding lframe_build_setting
lframe_build_setting-receive flag settings hf hn h =
    let size = length-write_settings settings in
    let f : FrameIn = record {
      kind = frame_settings;
      flags = flag;
      stream = 0;
      payload = write_settings settings;
    } in
    let ok : IsFrame 0 f = record {
      kind_fits = omega arith;
      flags_fit = hf;
      id_fits = omega arith;
      stream_is = refl;
      payload_fits = omega arith;
    } in
    (
      f,
      receive-one 0 f (length settings * 6) ok (sym size),
      refl,
      refl,
      refl,
      read_settings-write_settings settings h,
    )

-- A receiver takes what `lframe_build_winupdate`, `lframe_build_rst` and `lframe_build_goaway`
-- return for one frame of their type each, which carries the numbers that were given: GOAWAY on
-- stream 0, the others on the stream that was given, without its reserved bit. All numbers are below 2^32, and the flags
-- below 256.
pub control-receive :
    (id flag a b : ℕ)
    → id < 2 ^ 32
    → flag < 256
    → a < 2 ^ 32
    → b < 2 ^ 32
    → ((p q r : List ℕ) × (receive (lframe_build_winupdate id flag a)
          ≡ some (
              record { kind = frame_winupdate; flags = flag; stream = id % 2 ^ 31; payload = p }
              ∷ []))
        × (receive (lframe_build_rst id a)
            ≡ some (record { kind = frame_rst; flags = 0; stream = id % 2 ^ 31; payload = q } ∷ []))
        × (receive (lframe_build_goaway a b)
            ≡ some (record { kind = frame_goaway; flags = 0; stream = 0; payload = r } ∷ []))
        × (read_ints p ≡ a ∷ [])
        × (read_ints q ≡ a ∷ [])
        × (read_ints r ≡ a ∷ b ∷ []))
unfolding lframe_build_winupdate lframe_build_rst lframe_build_goaway read_ints write_int
control-receive id flag a b hi hf ha hb =
    let one = read_int-write_int a ha in
    let two = read_int-write_int b hb in
    (
      write_int a,
      write_int a,
      write_int a ++ write_int b,
      receive-one id
          (record {
            kind = frame_winupdate;
            flags = flag;
            stream = id % 2 ^ 31;
            payload = write_int a;
          })
          4 (omega arith) refl,
      receive-one id
          (record { kind = frame_rst; flags = 0; stream = id % 2 ^ 31; payload = write_int a }) 4
          (omega arith) refl,
      receive-one 0
          (record {
            kind = frame_goaway;
            flags = 0;
            stream = 0;
            payload = write_int a ++ write_int b;
          })
          8 (omega arith) refl,
      rw one,
      rw one,
      rw (one, two),
    )
