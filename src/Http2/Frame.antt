-- ===== src/Http2/Frame.antt =====
-- luaclib-src/lhttp.c: the frame builders. A frame builder returns the bytes that it hands to Lua.
pub mod Receive
mod Wire
pub mod Body
pub mod Header
pub mod Control
use silly.Common.{
  ℕ, zero, suc, ◌+◌, ◌-◌, ◌*◌, ◌/◌, ◌%◌, List, [], ◌∷◌, ◌++◌, Option, none, some, Bool, ◌&&◌, ltb,
  leb, ◌==◌, if◌then◌else◌, length, take, drop, ◌>>=◌, assert,
}
use silly.Common.Int.{ℤ, pos, negsuc, to_int32}

abbrev pub frame_hdr_size : ℕ
frame_hdr_size = 9

abbrev pub frame_data : ℕ
frame_data = 0

abbrev pub frame_headers : ℕ
frame_headers = 1

abbrev pub frame_rst : ℕ
frame_rst = 3

abbrev pub frame_settings : ℕ
frame_settings = 4

abbrev pub frame_goaway : ℕ
frame_goaway = 7

abbrev pub frame_winupdate : ℕ
frame_winupdate = 8

abbrev pub frame_continuation : ℕ
frame_continuation = 9

abbrev pub end_stream : Bool → ℕ
end_stream b = if b then 1 else 0

abbrev pub end_headers : ℕ
end_headers = 4

-- `write_int`: four bytes, the high one first.
unfoldable pub write_int : ℕ → List ℕ
write_int n = n / 16777216 % 256 ∷ n / 65536 % 256 ∷ n / 256 % 256 ∷ n % 256 ∷ []

unfoldable pub write_frame_header : ℕ → ℕ → ℕ → ℕ → List ℕ
unfolding write_int
write_frame_header len type flag id =
    len / 65536 % 256 ∷ len / 256 % 256 ∷ len % 256 ∷ type % 256 ∷ flag % 256 ∷ write_int id

-- `need`, for as many bytes in frames of `framesize`; the division faults at 0.
unfoldable pub need : ℕ → ℕ → ℕ
need framesize sz = sz + (sz + framesize - 1) / framesize * frame_hdr_size

-- The loop of `lframe_build_body` and the frame behind it, on what is left of the body. The frame
-- size is not 0, so as many rounds as there are bytes and one more suffice.
unfoldable pub body_loop : ℕ → ℕ → ℕ → ℕ → List ℕ → Option (List ℕ)
unfolding write_frame_header
body_loop zero framesize id flag body = none
body_loop (suc fuel) framesize id flag body =
    let rest = body_loop fuel framesize id flag (drop framesize body) in
    if ltb framesize (length body)
    then (rest >>= λ r.
        some (write_frame_header framesize frame_data 0 id ++ (take framesize body ++ r)))
    else some (write_frame_header (length body) frame_data flag id ++ body)

-- `none` is a failed `luaL_argcheck` or a division by 0.
unfoldable pub build_slice : ℕ → ℕ → List ℕ → ℕ → ℕ → ℕ → Option (List ℕ)
unfolding body_loop
build_slice id framesize dat flag offset len =
    if leb (offset + len) (length dat)
    then (if framesize == 0
        then none
        else body_loop (suc len) framesize id flag (take len (drop offset dat)))
    else none

-- The part of `luaL_argcheck` on the signs.
unfoldable pub check_slice : ℕ → ℕ → List ℕ → ℕ → ℤ → ℤ → Option (List ℕ)
unfolding build_slice
check_slice id framesize dat flag (pos offset) (pos len) =
    build_slice id framesize dat flag offset len
check_slice id framesize dat flag _ _ = none

-- The integers that `luaL_optinteger` returns for `offset` and `len` become `int`s.
unfoldable pub lframe_build_body : ℕ → ℕ → List ℕ → Bool → ℤ → ℤ → Option (List ℕ)
unfolding check_slice to_int32
lframe_build_body id framesize dat endstream offset len =
    check_slice id framesize dat (end_stream endstream) (to_int32 offset) (to_int32 len)

-- The loop of `lframe_build_header` with its `type` and `flag`, and the frame behind it.
unfoldable pub header_loop : ℕ → ℕ → ℕ → ℕ → ℕ → List ℕ → Option (List ℕ)
unfolding write_frame_header
header_loop zero framesize id type flag hdr = none
header_loop (suc fuel) framesize id type flag hdr =
    let rest = header_loop fuel framesize id frame_continuation 0 (drop framesize hdr) in
    if ltb framesize (length hdr)
    then (rest >>= λ r.
        some (write_frame_header framesize type flag id ++ (take framesize hdr ++ r)))
    else some (write_frame_header (length hdr) frame_headers (flag + end_headers) id ++ hdr)

unfoldable pub lframe_build_header : ℕ → ℕ → List ℕ → Bool → Option (List ℕ)
unfolding header_loop
lframe_build_header id framesize hdr endstream =
    if framesize == 0
    then none
    else header_loop (suc (length hdr)) framesize id frame_headers (end_stream endstream) hdr

-- The loop over the pairs of `lframe_build_setting`.
unfoldable pub write_settings : List (ℕ × ℕ) → List ℕ
unfolding write_int
write_settings [] = []
write_settings ((id, val) ∷ r) = id / 256 % 256 ∷ id % 256 ∷ (write_int val ++ write_settings r)

unfoldable pub lframe_build_setting : ℕ → List (ℕ × ℕ) → List ℕ
unfolding write_settings write_frame_header
lframe_build_setting flag settings =
    write_frame_header (length settings * 6) frame_settings flag 0 ++ write_settings settings

unfoldable pub lframe_build_winupdate : ℕ → ℕ → ℕ → List ℕ
unfolding write_frame_header
lframe_build_winupdate id flag size = write_frame_header 4 frame_winupdate flag id ++ write_int size

unfoldable pub lframe_build_rst : ℕ → ℕ → List ℕ
unfolding write_frame_header
lframe_build_rst id errorcode = write_frame_header 4 frame_rst 0 id ++ write_int errorcode

unfoldable pub lframe_build_goaway : ℕ → ℕ → List ℕ
unfolding write_frame_header
lframe_build_goaway last_stream_id errorcode =
    write_frame_header 8 frame_goaway 0 0 ++ (write_int last_stream_id ++ write_int errorcode)
