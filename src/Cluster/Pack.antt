-- ===== src/Cluster/Pack.antt =====
-- Packets as the Lua side sees them: `lcreate`, `lrequest`, `lresponse` and `lpop` of lcluster.c.
pub mod RoundTrip
pub mod Fresh
use silly.Common.{
  ℕ, ◌+◌, ◌-◌, ◌%◌, ◌^◌, List, [], ◌++◌, Option, none, some, Bool, ◌||◌, ltb, leb, if◌then◌else◌,
  assert, ◌>>=◌, length, drop,
}
use silly.Common.Bytes.{put_u32, get_u32, put_u64, get_u64}
use silly.Cluster.State.{
  Packet, Ring, NetPacket, Error, err_hardlimit, header_size, default_queue_size, request_header,
  response_header, ack_bit,
}
use silly.Cluster.Ring.{pop_packet}

-- The zeroed object of `lcreate` with the limits.
abbrev pub new_netpacket : ℕ → ℕ → NetPacket
new_netpacket hardval softval = record {
  ring = record {
    cap = default_queue_size;
    head = 0;
    tail = 0;
    queue = λ _. record { fd = 0; buff = [] };
  };
  hardlimit = hardval;
  softlimit = softval;
  hash = λ _. [];
}

-- `lcreate` of arguments that are not negative; `none` is a Lua error.
unfoldable pub lcreate : ℕ → ℕ → Option NetPacket
lcreate hardval softval =
    if leb (2 ^ 32) hardval || leb (2 ^ 32) softval || ltb hardval softval
    then none
    else some (new_netpacket hardval softval)

-- The five values that `lpop` returns; `cmd` is nil for a response.
pub record Popped : Type 0 where
  pub fd : ℕ
  pub body : List ℕ
  pub session : ℕ
  pub cmd : Option ℕ
  pub traceid : ℕ

-- `lpop` on the packet that it took; `push_complete` lets no size of 2^31 or more in, so that `size`
-- is the length.
unfoldable pub unpack : Packet → Popped
unpack pk =
    let session = get_u32 pk.buff in
    if leb ack_bit session
    then record {
      fd = pk.fd;
      body = drop response_header pk.buff;
      session = session - ack_bit;
      cmd = none;
      traceid = 0;
    }
    else record {
      fd = pk.fd;
      body = drop request_header pk.buff;
      session = session;
      cmd = some (get_u32 (drop 4 pk.buff));
      traceid = get_u64 (drop 8 pk.buff);
    }

-- `lpop`: nothing where the queue is empty; `none` is a failed `assert`.
unfoldable pub lpop : NetPacket → Option (Option Popped × NetPacket)
unfolding unpack
lpop p = elim (pop_packet p.ring) [
  | none ↦ none
  | some (none, r) ↦ some (none, record p { ring = r })
  | some (some pk, r) ↦ some (some (unpack pk), record p { ring = r })
]

-- What `lrequest` and `lresponse` give: the session and the bytes to send, or an error.
pub data Packed : Type 0 where
  packed : ℕ → List ℕ → Packed
  refused : Error → Packed

-- The verdict of `validate_pack_size`; above the soft limit it only logs.
unfoldable pub validate_pack_size : NetPacket → ℕ → Option Error
validate_pack_size np size = if ltb np.hardlimit size then some err_hardlimit else none

-- The buffer of `lrequest` and `lresponse`: `total` is a `uint32_t`, and so is the size given to
-- `silly_malloc`. `none` is a write past its end.
unfoldable pub fill_pack : List ℕ → List ℕ → Option (List ℕ)
fill_pack hdr str =
    let body = length hdr + length str in
    let total = (header_size + body) % 2 ^ 32 in
    assert (leb (header_size + body + 1) ((total + 1) % 2 ^ 32))
      (some (put_u32 body ++ (hdr ++ str)))

-- `session_idx++`: the session of this request, and the next index.
unfoldable pub next_session : ℕ → ℕ × ℕ
next_session idx = if leb ack_bit idx then (0, 0) else (idx, (idx + 1) % 2 ^ 32)

-- The rest of `lrequest`, once it has the session.
unfoldable pub pack_request : NetPacket → ℕ → ℕ → ℕ → List ℕ → Option Packed
unfolding validate_pack_size fill_pack
pack_request np session cmd traceid str =
    elim (validate_pack_size np (request_header + length str)) [
      | some e ↦ some (refused e)
      | none ↦ fill_pack (put_u32 session ++ (put_u32 cmd ++ put_u64 traceid)) str >>= λ bs.
          some (packed session bs)
    ]

-- `lrequest`, with `session_idx` before and after.
unfoldable pub lrequest : ℕ → NetPacket → ℕ → ℕ → List ℕ → Option (Packed × ℕ)
unfolding next_session pack_request
lrequest idx np cmd traceid str =
    pack_request np (next_session idx).0 cmd traceid str >>= λ r. some (r, (next_session idx).1)

-- `session | ACK_BIT` of a `uint32_t`.
abbrev pub with_ack : ℕ → ℕ
with_ack session =
    if leb ack_bit (session % 2 ^ 32) then session % 2 ^ 32 else session % 2 ^ 32 + ack_bit

-- The rest of `lresponse`, once it has set the bit.
unfoldable pub pack_response : NetPacket → ℕ → List ℕ → Option Packed
unfolding validate_pack_size fill_pack
pack_response np session str = elim (validate_pack_size np (response_header + length str)) [
  | some e ↦ some (refused e)
  | none ↦ fill_pack (put_u32 session) str >>= λ bs. some (packed session bs)
]

unfoldable pub lresponse : NetPacket → ℕ → List ℕ → Option Packed
unfolding pack_response
lresponse np session str = pack_response np (with_ack session) str
