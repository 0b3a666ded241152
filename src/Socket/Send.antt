-- ===== src/Socket/Send.antt =====
-- Sending: the write list of a connection drained by `writev`, the batch of dirty sockets, and
-- datagrams. `none` is a failed `assert`.
pub mod Stream
pub mod Drain
pub mod Flush
pub mod Batch
use silly.Common.{
  ℕ, zero, suc, ◌+◌, ◌-◌, ◌%◌, ◌^◌, List, [], ◌∷◌, ◌++◌, Option, none, some, Bool, true, false, not,
  ◌||◌, ltb, leb, ◌==◌, if◌then◌else◌, assert, ◌>>=◌, update, length, take, drop,
}
use silly.Socket.State.{
  tcp_connection, Wlist, Socket, Port, Manager, Datagram, sent, again, failed, Kernel, dirty_size,
  iov_size,
}
use silly.Socket.Pool.{at, put, wlist_empty, wcache_put, has_sid}
use silly.Socket.Sp.{
  is_kind, set_port, report_close, free_socket, zombine_socket, sub_connection, write_enable,
}

-- The bytes that the `iov` of `k` places covers.
unfoldable pub iov_bytes : ℕ → ℕ → List Wlist → List ℕ
iov_bytes zero offset ws = []
iov_bytes (suc k) offset [] = []
iov_bytes (suc k) offset (w ∷ ws) = drop offset w.buf ++ iov_bytes k 0 ws

-- `consume sent bytes from wlist`: the offset, the list and the cache after `total` bytes.
unfoldable pub consume : ℕ → ℕ → List Wlist → List ℕ → ℕ × List Wlist × List ℕ
unfolding wcache_put
consume total offset [] cache = (offset, [], cache)
consume total offset (w ∷ ws) cache =
    let rest = consume (total - (length w.buf - offset)) 0 ws (wcache_put cache w) in
    if total == 0
    then (offset, w ∷ ws, cache)
    else if ltb total (length w.buf - offset)
    then (offset + total, w ∷ ws, cache)
    else rest

-- The counter and the list after `writev` took `total` bytes.
unfoldable pub took : Manager → ℕ → ℕ → Manager
unfolding consume iov_bytes
took ss i total =
    let s = at ss i in
    let c = consume total s.wloffset s.wlhead ss.wcache in
    record ss {
      wcache = c.2;
      slots = update ss.slots i (record s {
        wlbytes = (s.wlbytes + 2 ^ 32 - total) % 2 ^ 32;
        wloffset = c.0;
        wlhead = c.1;
      });
      ports = update ss.ports i (record (ss.ports i) {
        wire = (ss.ports i).wire ++ take total (iov_bytes iov_size s.wloffset s.wlhead);
      });
    }

-- The end of `drain_wlist_tcp`: wait for room, or stop waiting and close if that was asked for.
unfoldable pub after_send : Manager → ℕ → Option Manager
after_send ss i =
    if wlist_empty (at ss i)
    then (if (at (write_enable ss i false) i).state.closewait
        then free_socket (sub_connection (write_enable ss i false)) i
        else some (write_enable ss i false))
    else some (write_enable ss i true)

-- What `drain_wlist_tcp` returns: -1, or 0 with the state.
pub data Drained : Type 0 where
  broken : Drained
  drained : Manager → Drained

-- `sendv` answered: an error, EAGAIN, or bytes.
unfoldable pub sent_some : Manager → ℕ → Option ℕ → Option Drained
unfolding took after_send
sent_some ss i none = some broken
sent_some ss i (some zero) = some (drained (write_enable ss i true))
sent_some ss i (some (suc n)) = after_send (took ss i (suc n)) i >>= λ ss'. some (drained ss')

unfoldable pub drain_wlist_tcp : Kernel → Manager → ℕ → Option Drained
unfolding sent_some
drain_wlist_tcp k ss i =
    if wlist_empty (at ss i) then some (drained ss) else sent_some ss i (k.writev i)

-- The body of the loop of `flush_dirty` behind its three tests.
unfoldable pub flush_socket : Kernel → Manager → ℕ → Option Manager
unfolding drain_wlist_tcp
flush_socket k ss i = elim (drain_wlist_tcp k ss i) [
  | none ↦ none
  | some (drained ss') ↦ some ss'
  | some broken ↦ report_close ss i k.errno >>= λ ss'. zombine_socket ss' i
]

-- Whether `flush_dirty` passes a socket by.
abbrev pub skips_flush : Socket → Bool
skips_flush s =
    s.state.zombine || not (has_sid s) || wlist_empty s || not (is_kind s.kind tcp_connection)

unfoldable pub flush_loop : Kernel → List ℕ → Manager → Option Manager
unfolding flush_socket
flush_loop k [] ss = some ss
flush_loop k (i ∷ is) ss =
    let ss' = put ss i (record (at ss i) { dirty = false }) in
    (if skips_flush (at ss' i) then some ss' else flush_socket k ss' i) >>= flush_loop k is

unfoldable pub flush_dirty : Kernel → Manager → Option Manager
unfolding flush_loop
flush_dirty k ss = flush_loop k ss.dirty_sockets (record ss { dirty_sockets = [] })

unfoldable pub mark_dirty : Kernel → Manager → ℕ → Option Manager
mark_dirty k ss i =
    let ss' =
      put (record ss { dirty_sockets = ss.dirty_sockets ++ i ∷ [] }) i
        (record (at ss i) { dirty = true }) in
    if (at ss i).dirty
    then some ss
    else if leb dirty_size (length ss'.dirty_sockets)
    then flush_dirty k ss'
    else some ss'

-- The head of the write list is gone; what of it was sent counts.
unfoldable pub drop_head : Manager → ℕ → Wlist → List Wlist → Bool → Manager
drop_head ss i w ws ok = record ss {
  slots = update ss.slots i (record (at ss i) {
    wlhead = ws;
    wlbytes =
        if ok then ((at ss i).wlbytes + 2 ^ 32 - length w.buf) % 2 ^ 32 else (at ss i).wlbytes;
  });
  ports =
      update ss.ports i (record (ss.ports i) {
        wire = if ok then (ss.ports i).wire ++ w.buf else (ss.ports i).wire;
      });
}

-- The loop of `send_msg_udp`, with the number of the datagram.
unfoldable pub send_loop : Kernel → ℕ → List Wlist → Manager → ℕ → Option Manager
unfolding drop_head
send_loop k n [] ss i =
    if (at (write_enable ss i false) i).state.closewait
    then free_socket (write_enable ss i false) i
    else some (write_enable ss i false)
send_loop k n (w ∷ ws) ss i = elim (k.sendto n) [
  | again ↦ some ss
  | sent ↦ send_loop k (n + 1) ws (drop_head ss i w ws true) i
  | failed ↦ send_loop k (n + 1) ws (drop_head ss i w ws false) i
]

unfoldable pub send_msg_udp : Kernel → Manager → ℕ → Option Manager
unfolding send_loop
send_msg_udp k ss i = assert (not (wlist_empty (at ss i))) (send_loop k 0 (at ss i).wlhead ss i)
