-- ===== src/Cluster/Ring.antt =====
-- The packet queue of lcluster.c: a ring that grows by 2048 places when it is full.
-- `none` is a failed `assert`.
pub mod Fifo
use silly.Common.{
  ℕ, ◌+◌, ◌%◌, ◌^◌, length, Option, none, some, ltb, ◌==◌, ◌&&◌, if◌then◌else◌, assert, update,
}
use silly.Cluster.State.{Packet, Ring, default_queue_size}

-- `expand_queue`: the packets from `tail` on, laid out from 0. `cap`, and `h`, which runs to `tail`
-- and `cap` together, are `int`s; `none` is their overflow.
unfoldable pub expand_queue : Ring → Option Ring
expand_queue r =
    assert (ltb (r.cap + default_queue_size) (2 ^ 31) && ltb (r.tail + r.cap) (2 ^ 31)) (
      some (record {
        cap = r.cap + default_queue_size;
        head = r.cap;
        tail = 0;
        queue = λ i. if ltb i r.cap then r.queue ((r.tail + i) % r.cap) else r.queue i;
      }))

-- `push_complete`; the size of a packet becomes an `int`, behind which it writes a 0: `none` is also
-- a size that is negative then.
unfoldable pub push_complete : Ring → Packet → Option Ring
push_complete r pk =
    let head = (r.head + 1) % r.cap in
    let r' = record r { head = head; queue = update r.queue r.head pk } in
    assert (ltb (length pk.buff) (2 ^ 31) && (ltb head r.cap && ltb r.tail r.cap))
      (if head == r.tail then expand_queue r' else some r')

-- `pop_packet`
unfoldable pub pop_packet : Ring → Option (Option Packet × Ring)
pop_packet r = assert (ltb r.head r.cap && ltb r.tail r.cap) (
    some (
      if r.tail == r.head
      then (none, r)
      else (some (r.queue r.tail), record r { tail = (r.tail + 1) % r.cap })))
