-- ===== src/Cluster/Frame.antt =====
-- Cutting a byte stream into packets: `push_once` and the loop over it, in lcluster.c.
-- `none` is a failed `assert`.
pub mod Stream
pub mod Absorb
pub mod Table
pub mod Push
pub mod Cuts
use silly.Common.{
  ℕ, zero, suc, ◌+◌, ◌-◌, ◌*◌, ◌/◌, ◌%◌, ◌^◌, min, List, [], ◌∷◌, ◌++◌, Option, none, some, Bool,
  true, false, ltb, leb, ◌==◌, if◌then◌else◌, ◌>>=◌, update, length, take, drop,
}
use silly.Common.Bytes.{get_u32}
use silly.Cluster.State.{
  Packet, Incomplete, Ring, NetPacket, Error, err_hardlimit, err_psize, header_size, hash_size,
  request_header, response_header, ack_bit,
}
use silly.Cluster.Ring.{push_complete}

-- The walk of `get_incomplete` along a chain: the entry of the descriptor.
unfoldable pub find : ℕ → List Incomplete → Option Incomplete
find fd [] = none
find fd (i ∷ is) = if i.fd == fd then some i else find fd is

-- The chain without that entry.
unfoldable pub unlink : ℕ → List Incomplete → List Incomplete
unlink fd [] = []
unlink fd (i ∷ is) = if i.fd == fd then is else i ∷ unlink fd is

unfoldable pub get_incomplete : NetPacket → ℕ → Option Incomplete × NetPacket
get_incomplete p fd =
    let idx = fd % hash_size in
    (find fd (p.hash idx), record p { hash = update p.hash idx (unlink fd (p.hash idx)) })

unfoldable pub put_incomplete : NetPacket → Incomplete → NetPacket
put_incomplete p ic =
    let idx = ic.fd % hash_size in record p { hash = update p.hash idx (ic ∷ p.hash idx) }

unfoldable pub validate_psize : ℕ → ℕ → Option Error
validate_psize hardlimit psize =
    if ltb psize response_header
    then some err_psize
    else if ltb hardlimit psize
    then some err_hardlimit
    else none

-- The session is the first word of the body; with its top bit set it is a response.
unfoldable pub validate_payload : ℕ → List ℕ → Option Error
validate_payload psize body =
    if leb ack_bit (get_u32 body)
    then none
    else if ltb psize request_header
    then some err_psize
    else none

-- What `push_once` makes of one read: bytes eaten and the entry to put back, bytes eaten and a
-- whole packet, an error, with the entry dropped, or a failed `assert`.
pub data Eaten : Type 0 where
  partial : ℕ → Incomplete → Eaten
  whole : ℕ → Packet → Eaten
  failed : Error → Eaten
  aborted : Eaten

-- A body under the verdict of `validate_payload`; the `assert` compares its size to the header.
unfoldable pub complete : Incomplete → ℕ → List ℕ → ℕ → Option Error → Eaten
complete ic psize body eat (some e) = failed e
complete ic psize body eat none =
    if psize == length body then whole eat (record { fd = ic.fd; buff = body }) else aborted

-- The end of `push_once`: the packet is complete with the body `body`, or the entry goes on.
unfoldable pub close : Incomplete → ℕ → List ℕ → ℕ → Eaten
unfolding complete
close ic psize body eat =
    if leb psize (length body)
    then complete ic psize body eat (validate_payload psize body)
    else partial eat (record ic { buff = some body })

-- `push_once` from `fill body` on, with the buffer there; `psize` is the header's word.
unfoldable pub fill_body : Incomplete → ℕ → List ℕ → ℕ → List ℕ → Eaten
unfolding close
fill_body ic psize body eat buff =
    let need = psize - length body in
    let left = length buff - eat in
    let copy = min need left in close ic psize (body ++ take copy (drop eat buff)) (eat + copy)

-- With the header complete: the body's buffer is allocated once, if the size is valid. The size
-- given to `silly_malloc` is a `uint32_t`: a block that is smaller than the body and its 0 is a write
-- past its end, and aborts here.
unfoldable pub start_body : ℕ → Incomplete → ℕ → List ℕ → Eaten
start_body hardlimit ic eat buff = elim ic.buff [
  | some body ↦ fill_body ic (get_u32 ic.hdr) body eat buff
  | none ↦ elim (validate_psize hardlimit (get_u32 ic.hdr)) [
    | some e ↦ failed e
    | none ↦
        let fits = leb (get_u32 ic.hdr + 1) ((get_u32 ic.hdr + 1) % 2 ^ 32) in
        if fits then fill_body ic (get_u32 ic.hdr) [] eat buff else aborted
  ]
]

-- `fill header bytes`, then the body if the header is complete.
unfoldable pub absorb : ℕ → Incomplete → List ℕ → Eaten
absorb hardlimit ic buff =
    let copy = min (header_size - length ic.hdr) (length buff) in
    let ic' = record ic { hdr = ic.hdr ++ take copy buff } in
    if leb header_size (length ic'.hdr)
    then start_body hardlimit ic' copy buff
    else partial copy ic'

-- The entry of `push_once` where the descriptor has none.
abbrev pub fresh : ℕ → Incomplete
fresh fd = record { fd = fd; hdr = []; buff = none }

abbrev pub or_fresh : ℕ → Option Incomplete → Incomplete
or_fresh fd none = fresh fd
or_fresh fd (some ic) = ic

-- What a call of `push` or `push_once` returns: bytes eaten, or the error.
pub data Pushed : Type 0 where
  ate : ℕ → Pushed
  fault : Error → Pushed

unfoldable pub settle : NetPacket → Eaten → Option (Pushed × NetPacket)
settle p (partial eat ic) = some (ate eat, put_incomplete p ic)
settle p (whole eat pk) = push_complete p.ring pk >>= λ r. some (ate eat, record p { ring = r })
settle p (failed e) = some (fault e, p)
settle p aborted = none

unfoldable pub push_once : NetPacket → ℕ → List ℕ → Option (Pushed × NetPacket)
unfolding get_incomplete settle
push_once p fd buff =
    let (found, p') = get_incomplete p fd in settle p' (absorb p.hardlimit (or_fresh fd found) buff)

-- The `do … while (left)` of `push`, on fuel; `none` is also fuel run out.
unfoldable pub push : ℕ → NetPacket → ℕ → List ℕ → Option (Pushed × NetPacket)
push zero p fd data' = none
push (suc fuel) p fd data' = elim (push_once p fd data') [
  | none ↦ none
  | some (fault e, p') ↦ some (fault e, p')
  | some (ate n, p') ↦ elim (length data' - n == 0) [
    | true ↦ some (ate 0, p')
    | false ↦ push fuel p' fd (drop n data')
  ]
]

-- `clear_incomplete`
unfoldable pub clear_incomplete : NetPacket → ℕ → NetPacket
unfolding get_incomplete
clear_incomplete p fd = (get_incomplete p fd).1
