-- ===== src/Socket/Tests.antt =====
-- Runs of the socket engine at concrete inputs.
use silly.Common.{ℕ, update_all, ◌≡◌, refl, ◌⊎◌, inl, [], ◌∷◌, none, some, true, false, arith}
use silly.Socket.State.{
  Socket, tcp_connection, op_shut, op_exit, Manager, connect_done, Kernel, sent, would_block,
}
use silly.Socket.Pool.{
  at, put, no_flags, pool_init, pool_alloc, pool_free, pool_get, slots_from, socket_default,
}
use silly.Socket.Pool.Ids.{
  IsPool, filled, filled-IsPool, pool_init-IsPool, Opens, pool_alloc-Opens, Shuts, pool_free-Shuts,
}
use silly.Socket.Sp.{free_socket}
use silly.Socket.Sp.Ends.{Freed, free_socket-Freed}
use silly.Socket.Send.{took, iov_bytes, consume}
use silly.Socket.Send.Stream.{IsList}
use silly.Socket.Send.Flush.{IsLists}
use silly.Socket.Send.Batch.{IsBatch, clash}
use silly.Socket.Ops.Append.{Appends, op_tcp_send-Appends}
use silly.Socket.Ops.{op_tcp_send}
use silly.Socket.Pool.{wlist_append}
use silly.Socket.Calls.Wakeup.{push_all, op_process-all}
use silly.Socket.Ops.{op_loop, op_process}
use silly.Socket.Poll.{Event, poll_tcp}
use silly.Socket.Poll.Closing.{poll_tcp-aborts}
use silly.Socket.Life.{blank}

-- A pool with every slot free, and with one connection in the first.
abbrev empty : Manager
empty = pool_init blank

abbrev one_open : Manager
one_open = filled empty 0 (slots_from 1 65535) (some 5) tcp_connection

one_open-IsPool : IsPool one_open
unfolding slots_from pool_init
one_open-IsPool =
    filled-IsPool empty 0 (slots_from 1 65535) (some 5) tcp_connection
      (λ j. (pool_init-IsPool blank).frees j) (pool_init-IsPool blank)

pool_alloc-Opens_example :
    ((empty.free ≡ []) × (pool_alloc empty (some 5) tcp_connection ≡ none))
    ⊎ ((i : ℕ) × (ss' : Manager) × (pool_alloc empty (some 5) tcp_connection ≡ some (i, ss'))
        × Opens empty (some 5) tcp_connection i ss')
pool_alloc-Opens_example = pool_alloc-Opens empty (some 5) tcp_connection (pool_init-IsPool blank)

pool_free-Shuts_example :
    (ss' : Manager) × (pool_free one_open 0 ≡ some ss') × Shuts one_open 0 0 ss'
unfolding pool_init socket_default
pool_free-Shuts_example = pool_free-Shuts one_open 0 0 one_open-IsPool (omega arith) refl refl

found_zero : pool_get one_open 0 ≡ some 0
unfolding pool_get pool_init socket_default
found_zero = refl

-- A connection that waits to close with two nodes to write, of the first of which a byte is gone.
abbrev busy : Manager
busy = put one_open 0 (record (at one_open 0) {
  kind = tcp_connection;
  state = record no_flags { polling = true; closing = true; closewait = true; writing = true };
  wlbytes = 4;
  wloffset = 1;
  wlhead =
      record { node = none; buf = 1 ∷ 2 ∷ 3 ∷ []; udpaddress = none }
      ∷ record { node = none; buf = 4 ∷ 5 ∷ []; udpaddress = none }
      ∷ [];
})

-- A kernel whose `writev` takes `n` bytes.
abbrev takes : ℕ → Kernel
takes n = record {
  errno = 0;
  sp_add = true;
  connect = connect_done;
  writev = λ i. some n;
  sendto = λ i. sent;
  accept = none;
  recv = would_block;
  recv_from = 0;
  sock_error = 0;
}

free_socket-Freed_example : (ss' : Manager) × (free_socket busy 0 ≡ some ss') × Freed 0 busy ss'
free_socket-Freed_example = free_socket-Freed busy 0 refl

abbrev both : Event
both = record { slot = 0; can_read = true; can_write = true; has_error = false; has_eof = false }

poll_tcp-aborts_example : poll_tcp (takes 4) both busy 0 ≡ none
unfolding took consume
poll_tcp-aborts_example =
    poll_tcp-aborts (takes 4) both busy 0 3 refl refl refl refl refl refl refl refl refl refl

op_process-all_example :
    let after = push_all busy (op_shut 0 ∷ op_exit ∷ []) in
    op_process (λ n. takes n) after
    ≡ op_loop
        (λ n. takes n)
        0
        (op_shut 0 ∷ op_exit ∷ [])
        (record after { fired = false; opbuf = [] })
unfolding pool_init
op_process-all_example = op_process-all (λ n. takes n) busy (op_shut 0) (op_exit ∷ []) (inl refl)

-- A connection with no bytes to write, next to which others have none either.
abbrev idle : Manager
idle = put one_open 0 (record (at one_open 0) { state = record no_flags { polling = true } })

one_open-IsLists : IsLists one_open
unfolding pool_init socket_default
one_open-IsLists =
    update_all (λ j (s : Socket). IsList s.wloffset s.wlhead) empty.slots 0 _ refl (λ j ne. refl)

idle-IsLists : IsLists idle
unfolding pool_init socket_default
idle-IsLists =
    update_all (λ j (s : Socket). IsList s.wloffset s.wlhead) one_open.slots 0 _ refl
      (λ j ne. one_open-IsLists j)

one_open-clean : (j : ℕ) → (at one_open j).dirty ≡ false
unfolding pool_init socket_default
one_open-clean = update_all (λ j (s : Socket). s.dirty ≡ false) empty.slots 0 _ refl (λ j ne. refl)

idle-clean : (j : ℕ) → (at idle j).dirty ≡ false
unfolding pool_init socket_default
idle-clean =
    update_all (λ j (s : Socket). s.dirty ≡ false) one_open.slots 0 _ refl
      (λ j ne. one_open-clean j)

idle-IsBatch : IsBatch idle
unfolding pool_init
idle-IsBatch = record {
  distinct = tt;
  marked = tt;
  listed = λ j h. absurd (clash h (idle-clean j));
  room = omega arith;
}

op_tcp_send-Appends_example :
    (ss' : Manager) × (op_tcp_send (takes 1) idle 0 (8 ∷ 9 ∷ []) ≡ some ss')
    × Appends (takes 1) 0 (8 ∷ 9 ∷ []) idle ss'
unfolding pool_init wlist_append iov_bytes socket_default
op_tcp_send-Appends_example =
    op_tcp_send-Appends (takes 1) idle 0 (8 ∷ 9 ∷ []) refl (omega arith) idle-IsLists idle-IsBatch
      ((1, refl, omega arith), tt)

abbrev one_dirty : Manager
one_dirty = record busy { dirty_sockets = 0 ∷ [] }
