-- ===== src/Socket/Sp.antt =====
-- The poller's view of a socket, the reports to the worker, and how a socket ends.
-- `none` is a failed `assert`.
pub mod Ends
use silly.Common.{
  ℕ, ◌+◌, ◌-◌, ◌%◌, ◌^◌, List, [], ◌∷◌, ◌++◌, Option, none, some, Bool, true, false, not, ◌&&◌,
  ◌||◌, if◌then◌else◌, assert, ◌>>=◌, update,
}
use silly.Socket.State.{
  Kind, reserve, tcp_listen, udp_listen, tcp_connection, udp_connection, pipe_ctrl, Flags, Socket,
  Netstat, Message, listened, connected, accepted, tcp_received, udp_received, closed, Port,
  Manager,
}
use silly.Socket.Pool.{at, put, wlist_empty, wlist_free, pool_free}

abbrev pub is_kind : Kind → Kind → Bool
is_kind reserve reserve = true
is_kind tcp_listen tcp_listen = true
is_kind udp_listen udp_listen = true
is_kind tcp_connection tcp_connection = true
is_kind udp_connection udp_connection = true
is_kind pipe_ctrl pipe_ctrl = true
is_kind _ _ = false

-- `socket_type(s) == SOCKET_CONNECTION`
abbrev pub is_connection : Kind → Bool
is_connection k = is_kind k tcp_connection || is_kind k udp_connection

-- `socket_protocol(s) == PROTOCOL_UDP`
abbrev pub is_udp : Kind → Bool
is_udp k = is_kind k udp_listen || is_kind k udp_connection

abbrev pub set_state : Manager → ℕ → (Flags → Flags) → Manager
set_state ss i f = put ss i (record (at ss i) { state = f (at ss i).state })

abbrev pub set_port : Manager → ℕ → Port → Manager
set_port ss i p = record ss { ports = update ss.ports i p }

-- `worker_push`
abbrev pub worker_push : Manager → Message → Manager
worker_push ss m = record ss { out = ss.out ++ m ∷ [] }

unfoldable pub report_accept : Manager → ℕ → ℕ → Manager
report_accept ss listen i = worker_push ss (accepted (at ss i).sid (at ss listen).sid)

unfoldable pub report_listen : Manager → ℕ → ℕ → Manager
report_listen ss i err = worker_push ss (listened (at ss i).sid err)

unfoldable pub report_connect : Manager → ℕ → ℕ → Manager
report_connect ss i err = worker_push ss (connected (at ss i).sid err)

-- The first report sets the flag, and any other does nothing.
unfoldable pub report_close : Manager → ℕ → ℕ → Option Manager
report_close ss i err =
    let ss' = set_state ss i (λ f. record f { closing = true }) in
    if (at ss i).state.closing
    then some ss
    else assert (is_connection (at ss i).kind) (some (worker_push ss' (closed (at ss i).sid err)))

unfoldable pub report_tcpdata : Manager → ℕ → List ℕ → Option Manager
report_tcpdata ss i bytes =
    assert (is_kind (at ss i).kind tcp_connection)
      (some (worker_push ss (tcp_received (at ss i).sid bytes)))

unfoldable pub report_udpdata : Manager → ℕ → List ℕ → ℕ → Option Manager
report_udpdata ss i bytes addr =
    assert (is_udp (at ss i).kind) (some (worker_push ss (udp_received (at ss i).sid bytes addr)))

-- `sp_add` of the poller either fails or watches for input.
unfoldable pub add_to_sp : Manager → ℕ → Bool → Manager
add_to_sp ss i ok =
    if ok
    then set_port (set_state ss i (λ f. record f { polling = true; reading = true })) i
        (record (ss.ports i) { watched = true; watch_in = true; watch_out = false })
    else ss

unfoldable pub remove_from_sp : Manager → ℕ → Manager
remove_from_sp ss i =
    if (at ss i).state.polling
    then record ss {
      slots = update ss.slots i (record (at ss i) {
        fd = none;
        state = record ((at ss i).state) { polling = false; reading = false; writing = false };
      });
      ports =
          update ss.ports i
            (record (ss.ports i) { watched = false; watch_in = false; watch_out = false });
      shut_fds = ss.shut_fds ++ (at ss i).fd ∷ [];
    }
    else ss

unfoldable pub free_socket : Manager → ℕ → Option Manager
unfolding remove_from_sp
free_socket ss i =
    assert (not (is_kind (at ss i).kind reserve)) (pool_free (remove_from_sp (wlist_free ss i) i) i)

-- `atomic_sub_relaxed(&SM->netstat.tcp_connections, 1)` and its opposite, on 16 bits.
abbrev pub sub_connection : Manager → Manager
sub_connection ss = record ss {
  netstat = record (ss.netstat) {
    tcp_connections = (ss.netstat.tcp_connections + 2 ^ 16 - 1) % 2 ^ 16;
  };
}

abbrev pub add_connection : Manager → Manager
add_connection ss = record ss {
  netstat = record (ss.netstat) { tcp_connections = (ss.netstat.tcp_connections + 1) % 2 ^ 16 };
}

-- `if (s->type == SOCKET_TCP_CONNECTION)` before the subtraction.
abbrev pub leave_connection : Manager → Kind → Manager
leave_connection ss k = if is_kind k tcp_connection then sub_connection ss else ss

unfoldable pub zombine_socket : Manager → ℕ → Option Manager
unfolding remove_from_sp
zombine_socket ss i =
    if (at ss i).state.closewait
    then free_socket (leave_connection ss (at ss i).kind) i
    else some (set_state (remove_from_sp (wlist_free ss i) i) i (λ f. record f { zombine = true }))

-- `test_state(s, state) == enable` compares 0 or 1.
abbrev pub same : Bool → Bool → Bool
same true b = b
same false b = not b

-- `sp_ctrl` with the flags of the socket.
unfoldable pub sp_ctrl : Manager → ℕ → Manager
sp_ctrl ss i = set_port ss i (record (ss.ports i) {
  watch_in = (at ss i).state.reading;
  watch_out = (at ss i).state.writing;
})

-- `rw_enable` of STATE_WRITING, and of STATE_READING.
unfoldable pub write_enable : Manager → ℕ → Bool → Manager
unfolding sp_ctrl
write_enable ss i enable =
    if same (at ss i).state.writing enable
    then ss
    else sp_ctrl (set_state ss i (λ f. record f { writing = enable })) i

unfoldable pub read_enable : Manager → ℕ → Bool → Manager
unfolding sp_ctrl
read_enable ss i enable =
    if same (at ss i).state.reading enable
    then ss
    else sp_ctrl (set_state ss i (λ f. record f { reading = enable })) i
