-- ===== src/Socket/Calls.antt =====
-- The calls of the worker threads: each checks what it can and queues an operation. A descriptor
-- from the kernel is an argument, as the number or as the error that its making met.
-- `none` is a failed `assert`.
pub mod Wakeup
use silly.Common.{
  ℕ, ◌+◌, ◌-◌, ◌%◌, ◌^◌, List, [], ◌∷◌, ◌++◌, Option, none, some, Bool, true, false, ◌||◌, ◌⊎◌, inl,
  inr, if◌then◌else◌, assert, ◌>>=◌, length,
}
use silly.Socket.State.{
  Kind, tcp_listen, udp_listen, tcp_connection, udp_connection, Netstat, Op, op_listen_tcp,
  op_listen_udp, op_connect_tcp, op_connect_udp, op_send_tcp, op_send_udp, op_enable, op_shut,
  op_exit, Manager,
}
use silly.Socket.Pool.{at, put, make_sid, pool_alloc, pool_get}
use silly.Socket.Sp.{is_kind, set_state, leave_connection, free_socket}

-- `flipbuf_write`, `trigger_fire` where the buffer was empty, and the counter.
unfoldable pub op_push : Manager → Op → Manager
op_push ss op = record ss {
  opbuf = ss.opbuf ++ op ∷ [];
  fired = elim ss.opbuf [ [] ↦ true | o ∷ os ↦ ss.fired ];
  netstat = record (ss.netstat) { operate_request = (ss.netstat.operate_request + 1) % 2 ^ 64 };
}

-- What a call returns: an id, or an error.
pub data Opened : Type 0 where
  opened : ℕ → Opened
  no_socket : Opened
  refused : ℕ → Opened

-- What follows `pool_alloc`; with no slot left the descriptor is closed.
unfoldable pub request : (ℕ → Op) → Manager → ℕ → Option (ℕ × Manager) → Opened × Manager
unfolding op_push
request op ss fd none = (no_socket, record ss { shut_fds = ss.shut_fds ++ some fd ∷ [] })
request op ss fd (some (i, ss')) =
    let ss'' = set_state ss' i (λ f. record f { connecting = true }) in
    let id = make_sid (at ss i).version i in (opened id, op_push ss'' (op id))

-- The calls that open a socket are one but for the kind and the operation.
unfoldable pub open_socket : Kind → (ℕ → Op) → Manager → ℕ ⊎ ℕ → Opened × Manager
unfolding request
open_socket kind op ss (inl err) = (refused err, ss)
open_socket kind op ss (inr fd) = request op ss fd (pool_alloc ss (some fd) kind)

unfoldable pub socket_tcp_listen : Manager → ℕ ⊎ ℕ → Opened × Manager
unfolding open_socket
socket_tcp_listen = open_socket tcp_listen op_listen_tcp

unfoldable pub socket_udp_bind : Manager → ℕ ⊎ ℕ → Opened × Manager
unfolding open_socket
socket_udp_bind = open_socket udp_listen op_listen_udp

unfoldable pub socket_tcp_connect : Manager → ℕ ⊎ ℕ → Opened × Manager
unfolding open_socket
socket_tcp_connect = open_socket tcp_connection op_connect_tcp

unfoldable pub socket_udp_connect : Manager → ℕ ⊎ ℕ → Opened × Manager
unfolding open_socket
socket_udp_connect = open_socket udp_connection op_connect_udp

-- 0, -EXCLOSED or -EXCLOSING.
pub data Answer : Type 0 where
  accepted ex_closed ex_closing : Answer

-- `s == NULL || is_zombine(s)`
abbrev pub is_gone : Manager → Option ℕ → Bool
is_gone ss none = true
is_gone ss (some i) = (at ss i).state.zombine

unfoldable pub socket_read_enable : Manager → ℕ → Bool → Manager
unfolding op_push
socket_read_enable ss id flag =
    if is_gone ss (pool_get ss id) then ss else op_push ss (op_enable id flag)

unfoldable pub socket_send_size : Manager → ℕ → ℕ
socket_send_size ss id = elim (pool_get ss id) [ none ↦ 0 | some i ↦ (at ss i).wlbytes ]

-- The answer for a slot that `pool_get` found or did not find.
unfoldable pub close_found : Manager → ℕ → Option ℕ → Option (Answer × Manager)
unfolding op_push
close_found ss id none = some (ex_closed, ss)
close_found ss id (some i) =
    let freed = free_socket (leave_connection ss (at ss i).kind) i in
    if (at ss i).state.closewait
    then some (ex_closing, ss)
    else if (at ss i).state.zombine
    then freed >>= (λ ss'. some (accepted, ss'))
    else some (accepted, op_push (set_state ss i (λ f. record f { closing = true })) (op_shut id))

unfoldable pub socket_close : Manager → ℕ → Option (Answer × Manager)
unfolding close_found
socket_close ss id = close_found ss id (pool_get ss id)

-- `atomic_add_relaxed(&s->wlbytes, sz)`
abbrev pub add_wlbytes : Manager → ℕ → ℕ → Manager
add_wlbytes ss i sz = put ss i (record (at ss i) { wlbytes = ((at ss i).wlbytes + sz) % 2 ^ 32 })

-- A socket that is not gone is there.
abbrev pub push_send : Manager → Option ℕ → ℕ → Op → Manager
push_send ss none sz op = ss
push_send ss (some i) sz op = op_push (add_wlbytes ss i sz) op

abbrev pub is_nil : List ℕ → Bool
is_nil [] = true
is_nil (b ∷ bs) = false

unfoldable pub socket_tcp_send : Manager → ℕ → List ℕ → Answer × Manager
unfolding op_push
socket_tcp_send ss id buf =
    if is_gone ss (pool_get ss id)
    then (ex_closed, ss)
    else if is_nil buf
    then (accepted, ss)
    else (accepted, push_send ss (pool_get ss id) (length buf) (op_send_tcp id buf))

unfoldable pub socket_udp_send : Manager → ℕ → List ℕ → ℕ → Answer × Manager
unfolding op_push
socket_udp_send ss id buf addr =
    if is_gone ss (pool_get ss id)
    then (ex_closed, ss)
    else (accepted, push_send ss (pool_get ss id) (length buf) (op_send_udp id buf addr))

unfoldable pub socket_stop : Manager → Manager
unfolding op_push
socket_stop ss = op_push ss op_exit
