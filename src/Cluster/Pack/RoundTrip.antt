-- ===== src/Cluster/Pack/RoundTrip.antt =====
-- What one node packs, the other reads: requests and responses over a stream.
use silly.Common.{
  ℕ, ◌+◌, ◌-◌, ◌%◌, ◌^◌, ◌≤◌, ◌<◌, ◌≡◌, refl, sym, ap, subst, ◌∙◌, List, [], ◌++◌, append_assoc,
  none, some, true, false, arith, ltb, leb, ◌>>=◌, length, length-append, drop,
}
use silly.Common.Bytes.{put_u32, get_u32, put_u64, get_u64, get_u32-put_u32_append, get_u32-put_u32}
use silly.Cluster.State.{Packet, NetPacket, ack_bit}
use silly.Cluster.Frame.{fresh, validate_psize, validate_payload}
use silly.Cluster.Frame.Stream.{
  emit, feed, after_header, after_body, feed-header_end, feed-body_end,
}
use silly.Cluster.Pack.{
  unpack, Packed, packed, validate_pack_size, fill_pack, next_session, pack_request, lrequest,
  pack_response, lresponse, with_ack,
}

-- A frame: a body of a valid size under a header that announces it.
feed-frame :
    (limit fd : ℕ) (hdr body rest : List ℕ)
    → length hdr ≡ 4
    → get_u32 hdr ≡ length body
    → 4 ≤ length body
    → length body ≤ limit
    → validate_payload (length body) body ≡ none
    → feed limit (hdr ++ body ++ rest) (fresh fd)
      ≡ emit (record { fd = fd; buff = body }) (feed limit rest (fresh fd))
unfolding validate_psize
feed-frame limit fd hdr body rest four size lo hi ok =
    let valid : validate_psize limit (get_u32 hdr) ≡ none =
      validate_psize-ok limit (get_u32 hdr) (omega arith) (omega arith) in
    ap (λ bs. feed limit bs (fresh fd)) (append_assoc hdr body rest)
    ∙ feed-header_end limit fd hdr (body ++ rest) [] (omega arith) (omega arith)
    ∙ rw (after_header, valid)
        (feed-body_end limit fd body rest hdr [] (omega arith) (omega arith) ∙ rw (after_body, ok))
  where
    validate_psize-ok : (l n : ℕ) → 4 ≤ n → n ≤ l → validate_psize l n ≡ none
    validate_psize-ok l n lo hi = ground arith

-- The bytes of a frame, and that it is one buffer.
fill_pack-ok :
    (hdr str : List ℕ)
    → length hdr + length str + 5 < 2 ^ 32
    → fill_pack hdr str ≡ some (put_u32 (length hdr + length str) ++ (hdr ++ str))
unfolding fill_pack
fill_pack-ok hdr str h =
    let fits : leb (4 + (length hdr + length str) + 1)
          (((4 + (length hdr + length str)) % 2 ^ 32 + 1) % 2 ^ 32)
        ≡ true =
      ground arith in
    rw fits

validate_payload-response :
    (session n : ℕ) (r : List ℕ)
    → ack_bit ≤ session
    → session < 2 ^ 32
    → validate_payload n (put_u32 session ++ r) ≡ none
unfolding validate_payload
validate_payload-response session n r lo hi =
    let t : leb ack_bit session ≡ true = ground arith in rw (get_u32-put_u32_append session r hi, t)

validate_payload-request :
    (body : List ℕ) → 16 ≤ length body → validate_payload (length body) body ≡ none
unfolding validate_payload
validate_payload-request body h = ground arith

fits-limit : (np : NetPacket) (n : ℕ) → n ≤ np.hardlimit → validate_pack_size np n ≡ none
unfolding validate_pack_size
fits-limit np n h = let t : ltb np.hardlimit n ≡ false = ground arith in rw t

unpack-response :
    (fd session : ℕ) (str : List ℕ)
    → session < 2 ^ 31
    → unpack (record { fd = fd; buff = put_u32 (session + ack_bit) ++ str })
      ≡ record { fd = fd; body = str; session = session; cmd = none; traceid = 0 }
unfolding unpack put_u32
unpack-response fd session str h =
    let t : leb ack_bit (session + ack_bit) ≡ true = ground arith in
    let back : session + ack_bit - ack_bit ≡ session = omega arith in
    rw (get_u32-put_u32_append (session + ack_bit) str (omega arith), t, back, put_u32)

length-put_u32 : (v : ℕ) → length (put_u32 v) ≡ 4
unfolding put_u32
length-put_u32 v = refl

append_u32 : (v : ℕ) (str : List ℕ) → length (put_u32 v ++ str) ≡ 4 + length str
unfolding put_u32
append_u32 v str = omega arith

lresponse-bytes :
    (np : NetPacket) (session : ℕ) (str : List ℕ)
    → session < 2 ^ 31
    → length str + 4 ≤ np.hardlimit
    → length str + 9 < 2 ^ 32
    → lresponse np session str
      ≡ some (
          packed (session + ack_bit) (
            put_u32 (length (put_u32 (session + ack_bit)) + length str)
            ++ (put_u32 (session + ack_bit) ++ str)))
unfolding lresponse pack_response
lresponse-bytes np session str hs hn hw =
    let ack : with_ack session ≡ session + ack_bit = ground arith in
    ap (λ s. pack_response np s str) ack
    ∙ rw (
      pack_response,
      fits-limit np (4 + length str) (omega arith),
      fill_pack-ok (put_u32 (session + ack_bit)) str
          (omega (arith, length-put_u32 (session + ack_bit))),
    )

-- A response to a session below 2 ^ 31 within the sender's hard limit, which the receiver's is not
-- below, is sent as bytes that the receiver reads as one packet, before the rest of the stream; its
-- values are those sent. Its frame is shorter than 2 ^ 31 bytes.
pub lresponse-read :
    (np : NetPacket) (limit fd session : ℕ) (str rest : List ℕ)
    → session < 2 ^ 31
    → length str + 4 ≤ np.hardlimit
    → np.hardlimit ≤ limit
    → length str + 9 < 2 ^ 31
    → (bytes : List ℕ) × (pk : Packet) × (lresponse np session str
        ≡ some (packed (session + ack_bit) bytes))
      × (feed limit (bytes ++ rest) (fresh fd) ≡ emit pk (feed limit rest (fresh fd)))
      × (unpack pk ≡ record { fd = fd; body = str; session = session; cmd = none; traceid = 0 })
lresponse-read np limit fd session str rest hs hn hl hw =
    let hdr : List ℕ = put_u32 (session + ack_bit) in
    let size : length (hdr ++ str) ≡ 4 + length str = append_u32 (session + ack_bit) str in
    (
      put_u32 (length hdr + length str) ++ (hdr ++ str),
      record { fd = fd; buff = hdr ++ str },
      lresponse-bytes np session str hs hn (omega arith),
      feed-frame limit fd (put_u32 (length hdr + length str)) (hdr ++ str) rest
          (length-put_u32 (length hdr + length str))
          (get_u32-put_u32 (length hdr + length str)
              (omega (arith, length-put_u32 (session + ack_bit)))
            ∙ sym (length-append hdr str))
          (omega (arith, size)) (omega (arith, size))
          (validate_payload-response (session + ack_bit) (length (hdr ++ str)) str (omega arith)
            (omega arith)),
      unpack-response fd session str hs,
    )

abbrev request_bytes : ℕ → ℕ → ℕ → List ℕ
request_bytes session cmd traceid = put_u32 session ++ (put_u32 cmd ++ put_u64 traceid)

length-request_bytes : (session cmd traceid : ℕ) → length (request_bytes session cmd traceid) ≡ 16
unfolding put_u32 put_u64
length-request_bytes session cmd traceid = refl

next_session-below : (idx : ℕ) → idx < 2 ^ 31 → next_session idx ≡ (idx, idx + 1)
unfolding next_session
next_session-below idx h =
    let below : leb ack_bit idx ≡ false = ground arith in
    let next : (idx + 1) % 2 ^ 32 ≡ idx + 1 = omega arith in rw (below, next)

pack_request-bytes :
    (np : NetPacket) (session cmd traceid : ℕ) (str : List ℕ)
    → length str + 16 ≤ np.hardlimit
    → length str + 21 < 2 ^ 32
    → let hdr = request_bytes session cmd traceid in
      pack_request np session cmd traceid str
      ≡ some (packed session (put_u32 (length hdr + length str) ++ (hdr ++ str)))
unfolding pack_request
pack_request-bytes np session cmd traceid str hn hw = rw (
  pack_request,
  fits-limit np (16 + length str) (omega arith),
  fill_pack-ok (request_bytes session cmd traceid) str
      (omega (arith, length-request_bytes session cmd traceid)),
)

lrequest-bytes :
    (np : NetPacket) (idx cmd traceid : ℕ) (str : List ℕ)
    → idx < 2 ^ 31
    → length str + 16 ≤ np.hardlimit
    → length str + 21 < 2 ^ 32
    → let hdr = request_bytes idx cmd traceid in
      lrequest idx np cmd traceid str
      ≡ some (packed idx (put_u32 (length hdr + length str) ++ (hdr ++ str)), idx + 1)
unfolding lrequest
lrequest-bytes np idx cmd traceid str hi hn hw =
    subst
      (λ (s : ℕ × ℕ).
        ◌>>=◌ {B = Packed × ℕ} (pack_request np s.0 cmd traceid str) (λ r. some (r, s.1))
        ≡ some (
          packed idx (
              put_u32 (length (request_bytes idx cmd traceid) + length str)
              ++ (request_bytes idx cmd traceid ++ str)),
          idx + 1,
        ))
      (sym (next_session-below idx hi)) (rw (pack_request-bytes np idx cmd traceid str hn hw))

unpack-parts :
    (fd session cmd traceid : ℕ) (str buff : List ℕ)
    → session < 2 ^ 31
    → get_u32 buff ≡ session
    → get_u32 (drop 4 buff) ≡ cmd
    → get_u64 (drop 8 buff) ≡ traceid
    → drop 16 buff ≡ str
    → unpack (record { fd = fd; buff = buff })
      ≡ record { fd = fd; body = str; session = session; cmd = some cmd; traceid = traceid }
unfolding unpack
unpack-parts fd session cmd traceid str buff hs e0 e4 e8 e16 =
    let clear : leb ack_bit session ≡ false = ground arith in rw (e0, clear, e4, e8, e16)

unpack-request :
    (fd session cmd traceid : ℕ) (str : List ℕ)
    → session < 2 ^ 31
    → cmd < 2 ^ 32
    → traceid < 2 ^ 64
    → unpack (record { fd = fd; buff = request_bytes session cmd traceid ++ str })
      ≡ record { fd = fd; body = str; session = session; cmd = some cmd; traceid = traceid }
unfolding put_u32 put_u64 get_u32 get_u64
unpack-request fd session cmd traceid str hs hc ht =
    unpack-parts fd session cmd traceid str (request_bytes session cmd traceid ++ str) hs
      (omega arith) (omega arith) (omega arith) refl

-- A request within the sender's hard limit, which the receiver's is not below, under a session
-- index below 2 ^ 31, is sent as bytes that the receiver reads as one packet, before the rest of
-- the stream; its values are those sent, its session is the index, and the index moves on. Its
-- frame is shorter than 2 ^ 31 bytes.
pub lrequest-read :
    (np : NetPacket) (limit fd idx cmd traceid : ℕ) (str rest : List ℕ)
    → idx < 2 ^ 31
    → cmd < 2 ^ 32
    → traceid < 2 ^ 64
    → length str + 16 ≤ np.hardlimit
    → np.hardlimit ≤ limit
    → length str + 21 < 2 ^ 31
    → (bytes : List ℕ) × (pk : Packet) × (lrequest idx np cmd traceid str
        ≡ some (packed idx bytes, idx + 1))
      × (feed limit (bytes ++ rest) (fresh fd) ≡ emit pk (feed limit rest (fresh fd)))
      × (unpack pk
          ≡ record { fd = fd; body = str; session = idx; cmd = some cmd; traceid = traceid })
lrequest-read np limit fd idx cmd traceid str rest hi hc ht hn hl hw =
    let hdr = request_bytes idx cmd traceid in
    let len : length hdr ≡ 16 = length-request_bytes idx cmd traceid in
    let size : length (hdr ++ str) ≡ length hdr + length str = length-append hdr str in
    (
      put_u32 (length hdr + length str) ++ (hdr ++ str),
      record { fd = fd; buff = hdr ++ str },
      lrequest-bytes np idx cmd traceid str hi hn (omega arith),
      feed-frame limit fd (put_u32 (length hdr + length str)) (hdr ++ str) rest
          (length-put_u32 (length hdr + length str))
          (get_u32-put_u32 (length hdr + length str) (omega (arith, len)) ∙ sym size)
          (omega (arith, size, len)) (omega (arith, size, len))
          (validate_payload-request (hdr ++ str) (omega (arith, size, len))),
      unpack-request fd idx cmd traceid str hi hc ht,
    )
