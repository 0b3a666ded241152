-- ===== src/Socket/Poll.antt =====
-- The events of `socket_poll`, and `socket_init`. `none` is a failed `assert`.
pub mod Closing
use silly.Common.{
  ℕ, zero, suc, ◌+◌, ◌-◌, ◌*◌, ◌%◌, ◌^◌, List, [], ◌∷◌, ◌++◌, Option, none, some, Bool, true, false,
  not, ◌&&◌, ◌||◌, leb, ◌==◌, if◌then◌else◌, assert, ◌>>=◌, length,
}
use silly.Socket.State.{
  Kind, reserve, tcp_listen, udp_listen, tcp_connection, udp_connection, pipe_ctrl, Socket, Netstat,
  Manager, Received, bytes, end_of_file, would_block, recv_error, Kernel, read_buf_size,
}
use silly.Socket.Pool.{at, put, wlist_empty, pool_init, wcache_init, pool_alloc, has_sid}
use silly.Socket.Sp.{
  set_state, report_accept, report_connect, report_close, report_tcpdata, report_udpdata, add_to_sp,
  free_socket, zombine_socket, add_connection, write_enable, read_enable,
}
use silly.Socket.Send.{Drained, broken, drained, drain_wlist_tcp, send_msg_udp}

-- `exec_accept`; the descriptor is that of `accept`. Without one nothing changes: the reserve
-- descriptor is closed and opened again.
unfoldable pub exec_accept : Kernel → Manager → ℕ → Option Manager
exec_accept k ss listen = elim k.accept [
  | none ↦ some ss
  | some fd ↦ elim (pool_alloc ss (some fd) tcp_connection) [
    | none ↦ some (record ss { shut_fds = ss.shut_fds ++ some fd ∷ [] })
    | some (i, ss') ↦
        let freed = free_socket ss' i in
        if k.sp_add
        then some (add_connection (report_accept (add_to_sp ss' i true) listen i))
        else freed
  ]
]

-- `get_sock_error`, of a socket that has a descriptor.
unfoldable pub get_sock_error : Kernel → Manager → ℕ → Option ℕ
get_sock_error k ss i = elim (at ss i).fd [ none ↦ none | some fd ↦ some k.sock_error ]

-- The end of a `connect` that was in progress.
unfoldable pub checkconnected : Kernel → Manager → ℕ → Option Manager
unfolding get_sock_error
checkconnected k ss i =
    let ss' = if wlist_empty (at ss i) then write_enable ss i false else ss in
    get_sock_error k ss i >>= (λ err.
      let freed = free_socket (report_connect ss i err) i in
      if err == 0 then some (report_connect (add_connection ss') i 0) else freed)

-- `enum read_result`
pub data ReadResult : Type 0 where
  read_some read_all read_eof read_error : ReadResult

abbrev pub count_received : Manager → ℕ → ℕ → Manager
count_received ss i n =
    put
      (record ss {
        netstat = record (ss.netstat) { received_bytes = (ss.netstat.received_bytes + n) % 2 ^ 64 };
      })
      i (record (at ss i) { received_bytes = ((at ss i).received_bytes + n) % 2 ^ 64 })

-- What `recv` answered, of a connection; a read of the whole buffer leaves more to read.
unfoldable pub forward_tcp : Manager → ℕ → Received → Option (ReadResult × Manager)
forward_tcp ss i would_block = some (read_all, ss)
forward_tcp ss i recv_error = some (read_error, ss)
forward_tcp ss i end_of_file = some (read_eof, ss)
forward_tcp ss i (bytes bs) = report_tcpdata ss i bs >>= λ ss'. some (
  if leb read_buf_size (length bs) then read_some else read_all,
  count_received ss' i (length bs),
)

unfoldable pub forward_msg_tcp : Kernel → Manager → ℕ → Option (ReadResult × Manager)
unfolding forward_tcp
forward_msg_tcp k ss i =
    if (at ss i).state.closing then some (read_eof, ss) else forward_tcp ss i k.recv

-- A datagram may be empty.
unfoldable pub forward_udp : Manager → ℕ → Received → ℕ → Option Manager
forward_udp ss i would_block addr = some ss
forward_udp ss i recv_error addr = some ss
forward_udp ss i end_of_file addr =
    report_udpdata ss i [] addr >>= λ ss'. some (count_received ss' i 0)
forward_udp ss i (bytes bs) addr =
    report_udpdata ss i bs addr >>= λ ss'. some (count_received ss' i (length bs))

unfoldable pub forward_msg_udp : Kernel → Manager → ℕ → Option Manager
unfolding forward_udp
forward_msg_udp k ss i =
    if (at ss i).state.closing then some ss else forward_udp ss i k.recv k.recv_from

-- The bits of an event that the code tests.
pub record Event : Type 0 where
  pub slot : ℕ
  pub can_read : Bool
  pub can_write : Bool
  pub has_error : Bool
  pub has_eof : Bool

-- `eof`, `err` and `has_data_to_read` of `socket_poll`.
pub record Seen : Type 0 where
  pub eof : Bool
  pub err : ℕ
  pub more : Bool

unfoldable pub parse_read_error : Kernel → ReadResult → Seen
parse_read_error k read_eof = record { eof = true; err = 0; more = false }
parse_read_error k read_error = record { eof = false; err = k.errno; more = false }
parse_read_error k read_some = record { eof = false; err = 0; more = true }
parse_read_error k read_all = record { eof = false; err = 0; more = false }

abbrev pub nothing_seen : Seen
nothing_seen = record { eof = false; err = 0; more = false }

unfoldable pub poll_read : Kernel → Event → Manager → ℕ → Option (Seen × Manager)
unfolding forward_msg_tcp parse_read_error
poll_read k e ss i =
    let after = forward_msg_tcp k ss i in
    if e.can_read
    then after >>= (λ r. some (parse_read_error k r.0, r.1))
    else some (nothing_seen, ss)

abbrev pub drain_result : Kernel → Seen → Manager → Drained → Seen × Manager
drain_result k seen ss broken = (record seen { err = k.errno }, ss)
drain_result k seen ss (drained ss') = (seen, ss')

unfoldable pub poll_write : Kernel → Event → Seen → Manager → ℕ → Option (Seen × Manager)
poll_write k e seen ss i =
    let after = drain_wlist_tcp k ss i in
    if e.can_write then after >>= (λ d. some (drain_result k seen ss d)) else some (seen, ss)

-- The error that the loop acts on.
unfoldable pub final_error : Kernel → Event → Seen → Manager → ℕ → Option ℕ
unfolding get_sock_error
final_error k e seen ss i =
    let asked = get_sock_error k ss i in
    if (seen.err == 0) && e.has_error then asked else some seen.err

-- EXEOF, which only Lua reads.
abbrev pub ex_eof : ℕ
ex_eof = 10004

unfoldable pub poll_end : Kernel → Event → Seen → Manager → ℕ → Option Manager
unfolding final_error
poll_end k e seen ss i =
    let half = report_close ss i ex_eof >>= (λ ss'. some (read_enable ss' i false)) in
    let acted = final_error k e seen ss i >>= (λ err.
      let ended = report_close ss i err >>= (λ ss'. zombine_socket ss' i) in
      if not (err == 0) then ended else if seen.eof || e.has_eof then half else some ss) in
    if seen.more then some ss else acted

-- The case of a connection.
unfoldable pub poll_tcp : Kernel → Event → Manager → ℕ → Option Manager
unfolding checkconnected poll_read poll_write poll_end
poll_tcp k e ss i =
    let begun = checkconnected k (set_state ss i (λ f. record f { connecting = false })) i in
    let served =
      poll_read k e ss i >>= (λ r. poll_write k e r.0 r.1 i >>= (λ q. poll_end k e q.0 q.1 i)) in
    if (at ss i).state.connecting then begun else served

abbrev pub unless : Bool → (Manager → Option Manager) → Manager → Option Manager
unless true f ss = f ss
unless false f ss = some ss

-- The case of a UDP socket.
unfoldable pub poll_udp : Kernel → Event → Manager → ℕ → Option Manager
unfolding forward_msg_udp get_sock_error
poll_udp k e ss i = unless e.can_read (λ a. forward_msg_udp k a i) ss >>= (λ a.
    unless e.can_write (λ b. send_msg_udp k b i) a >>= (λ b.
      unless e.has_error
        (λ c. get_sock_error k c i >>= (λ err. report_close c i err >>= (λ d. zombine_socket d i)))
        b))

unfoldable pub poll_kind : Kind → Kernel → Event → Manager → ℕ → Option Manager
unfolding exec_accept poll_tcp poll_udp
poll_kind tcp_listen k e ss i = assert e.can_read (exec_accept k ss i)
poll_kind tcp_connection k e ss i = poll_tcp k e ss i
poll_kind udp_listen k e ss i = poll_udp k e ss i
poll_kind udp_connection k e ss i = poll_udp k e ss i
poll_kind pipe_ctrl k e ss i = some ss
poll_kind reserve k e ss i = some ss

-- One event; those of a socket that is freed or a zombie are passed by.
unfoldable pub poll_event : Kernel → Event → Manager → Option Manager
unfolding poll_kind
poll_event k e ss =
    if (at ss e.slot).state.zombine || not (has_sid (at ss e.slot))
    then some ss
    else poll_kind (at ss e.slot).kind k e ss e.slot

-- The loop over the events, each with the answers during it.
unfoldable pub poll_loop : (ℕ → Kernel) → ℕ → List Event → Manager → Option Manager
unfolding poll_event
poll_loop k n [] ss = some ss
poll_loop k n (e ∷ es) ss = poll_event (k n) e ss >>= poll_loop k (n + 1) es
