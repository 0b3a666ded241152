-- ===== src/Socket/Ops.antt =====
-- The operations that the socket thread runs, and `op_process`. `none` is a failed `assert`.
pub mod Append
use silly.Common.{
  ℕ, ◌+◌, ◌-◌, ◌%◌, ◌^◌, List, [], ◌∷◌, ◌++◌, Option, none, some, Bool, true, false, not, ◌&&◌,
  ◌||◌, if◌then◌else◌, assert, ◌>>=◌, length,
}
use silly.Socket.State.{
  Kind, reserve, tcp_listen, udp_listen, tcp_connection, udp_connection, pipe_ctrl, Op,
  op_listen_tcp, op_listen_udp, op_connect_tcp, op_connect_udp, op_send_tcp, op_send_udp, op_enable,
  op_shut, op_exit, Manager, connect_done, connect_in_progress, connect_error, Datagram, sent,
  again, failed, Kernel,
}
use silly.Socket.Pool.{at, put, wlist_empty, pool_get, wlist_append, wlist_appendudp}
use silly.Socket.Sp.{
  is_kind, is_udp, set_state, set_port, report_listen, report_connect, add_to_sp, free_socket,
  add_connection, sub_connection, write_enable, read_enable,
}
use silly.Socket.Send.{mark_dirty, flush_dirty}

-- `op_tcp_listen` and `op_udp_listen`, which differ in the kind.
unfoldable pub op_listen : Kind → Kernel → Manager → ℕ → Option Manager
op_listen kind k ss i =
    let ss' = report_listen ss i k.errno in
    let polled = add_to_sp ss i true in
    assert ((at ss i).state.connecting && is_kind (at ss i).kind kind) (
      if k.sp_add
      then some (report_listen (set_state polled i (λ f. record f { connecting = false })) i 0)
      else free_socket (record ss' { shut_fds = ss'.shut_fds ++ (at ss i).fd ∷ [] }) i)

unfoldable pub op_tcp_listen : Kernel → Manager → ℕ → Option Manager
unfolding op_listen
op_tcp_listen = op_listen tcp_listen

unfoldable pub op_udp_listen : Kernel → Manager → ℕ → Option Manager
unfolding op_listen
op_udp_listen = op_listen udp_listen

abbrev pub has_fd : Manager → ℕ → Bool
has_fd ss i = elim (at ss i).fd [ none ↦ false | some fd ↦ true ]

-- The end of `op_tcp_connect` on a connection that is there at once.
unfoldable pub connect_now : Manager → ℕ → Manager
connect_now ss i =
    let ss' =
      report_connect (add_connection (set_state ss i (λ f. record f { connecting = false }))) i 0 in
    if wlist_empty (at ss' i) then ss' else write_enable ss' i true

unfoldable pub op_tcp_connect : Kernel → Manager → ℕ → Option Manager
unfolding connect_now
op_tcp_connect k ss i =
    let failed_poll = free_socket (report_connect ss i k.errno) i in
    let polled = add_to_sp ss i true in
    assert (has_fd ss i) (
      assert ((at ss i).state.connecting && is_kind (at ss i).kind tcp_connection) (elim k.connect [
        | connect_error err ↦ free_socket (report_connect ss i err) i
        | connect_done ↦ if k.sp_add then some (connect_now polled i) else failed_poll
        | connect_in_progress ↦ if k.sp_add then some (write_enable polled i true) else failed_poll
      ]))

unfoldable pub op_udp_connect : Kernel → Manager → ℕ → Option Manager
op_udp_connect k ss i =
    let ss' = set_state ss i (λ f. record f { connecting = false }) in
    assert (has_fd ss i) (
      assert ((at ss i).state.connecting && is_kind (at ss i).kind udp_connection) (
        if k.sp_add
        then some (report_connect (add_to_sp ss' i true) i 0)
        else free_socket (report_connect ss' i k.errno) i))

unfoldable pub op_close : Manager → ℕ → Option Manager
op_close ss i =
    let counted =
      if is_kind (at ss i).kind tcp_connection && not (at ss i).state.connecting
      then sub_connection ss
      else ss in
    if is_kind (at ss i).kind pipe_ctrl || is_kind (at ss i).kind reserve
    then some ss
    else if wlist_empty (at ss i)
    then free_socket counted i
    else some (read_enable (set_state ss i (λ f. record f { closewait = true })) i false)

-- The bytes counted as sent, of the manager and of the socket.
abbrev pub count_sent : Manager → ℕ → ℕ → Manager
count_sent ss i sz =
    put
      (record ss {
        netstat = record (ss.netstat) { sent_bytes = (ss.netstat.sent_bytes + sz) % 2 ^ 64 };
      })
      i (record (at ss i) { sent_bytes = ((at ss i).sent_bytes + sz) % 2 ^ 64 })

abbrev pub sub_wlbytes : Manager → ℕ → ℕ → Manager
sub_wlbytes ss i sz =
    put ss i (record (at ss i) { wlbytes = ((at ss i).wlbytes + 2 ^ 32 - sz) % 2 ^ 32 })

unfoldable pub op_tcp_send : Kernel → Manager → ℕ → List ℕ → Option Manager
unfolding mark_dirty
op_tcp_send k ss i buf =
    let ss' = wlist_append (count_sent ss i (length buf)) i buf in
    let marked = mark_dirty k ss' i in
    if is_kind (at ss i).kind tcp_connection
    then (if (at ss i).state.connecting then some ss' else marked)
    else some (sub_wlbytes ss i (length buf))

-- The datagram reaches the kernel, is dropped for an error, or waits.
unfoldable pub try_udp : Manager → ℕ → List ℕ → Option ℕ → Datagram → Manager
try_udp ss i buf addr sent =
    set_port (sub_wlbytes ss i (length buf)) i
      (record (ss.ports i) { wire = (ss.ports i).wire ++ buf })
try_udp ss i buf addr failed = sub_wlbytes ss i (length buf)
try_udp ss i buf addr again = write_enable (wlist_appendudp ss i buf addr) i true

unfoldable pub op_udp_send : Kernel → Manager → ℕ → List ℕ → ℕ → Manager
unfolding try_udp
op_udp_send k ss i buf to =
    let ss' = count_sent ss i (length buf) in
    let addr = if is_kind (at ss i).kind udp_listen then some to else none in
    if is_udp (at ss i).kind
    then (if wlist_empty (at ss i)
        then try_udp ss' i buf addr (k.sendto 0)
        else wlist_appendudp ss' i buf addr)
    else sub_wlbytes ss i (length buf)

unfoldable pub op_read_enable : Manager → ℕ → Bool → Manager
op_read_enable ss i flag = read_enable ss i flag

-- The id of an operation.
abbrev pub op_sid : Op → ℕ
op_sid (op_listen_tcp id) = id
op_sid (op_listen_udp id) = id
op_sid (op_connect_tcp id) = id
op_sid (op_connect_udp id) = id
op_sid (op_send_tcp id buf) = id
op_sid (op_send_udp id buf addr) = id
op_sid (op_enable id flag) = id
op_sid (op_shut id) = id
op_sid op_exit = 0

abbrev pub is_shut : Op → Bool
is_shut (op_shut id) = true
is_shut _ = false

-- The `switch` of `op_process`.
unfoldable pub run_op : Kernel → Manager → ℕ → Op → Option Manager
unfolding op_tcp_listen op_udp_listen op_tcp_connect op_udp_connect op_close op_tcp_send op_udp_send
    op_read_enable
run_op k ss i (op_listen_tcp id) = op_tcp_listen k ss i
run_op k ss i (op_listen_udp id) = op_udp_listen k ss i
run_op k ss i (op_connect_tcp id) = op_tcp_connect k ss i
run_op k ss i (op_connect_udp id) = op_udp_connect k ss i
run_op k ss i (op_shut id) = op_close ss i
run_op k ss i (op_send_tcp id buf) = op_tcp_send k ss i buf
run_op k ss i (op_send_udp id buf addr) = some (op_udp_send k ss i buf addr)
run_op k ss i (op_enable id flag) = some (op_read_enable ss i flag)
run_op k ss i op_exit = some ss

-- An operation of a slot that `pool_get` found or did not find; what is stale is dropped.
unfoldable pub dispatch : Kernel → Manager → Option ℕ → Op → Option Manager
unfolding run_op
dispatch k ss none op = some ss
dispatch k ss (some i) op =
    if not (is_shut op) && (at ss i).state.zombine then some ss else run_op k ss i op

-- What `op_process` returns: 0, or -1 at OP_EXIT.
pub data Looped : Type 0 where
  looped exited : Manager → Looped

abbrev pub count_op : Manager → Manager
count_op ss = record ss {
  netstat = record (ss.netstat) { operate_processed = (ss.netstat.operate_processed + 1) % 2 ^ 64 };
}

-- The loop of `op_process`; step `n` has the answers of the kernel `k n`.
unfoldable pub op_loop : (ℕ → Kernel) → ℕ → List Op → Manager → Option Looped
unfolding dispatch
op_loop k n [] ss = flush_dirty (k n) ss >>= λ ss'. some (looped ss')
op_loop k n (op_exit ∷ ops) ss = some (exited (count_op ss))
op_loop k n (op ∷ ops) ss =
    dispatch (k n) (count_op ss) (pool_get (count_op ss) (op_sid op)) op >>= op_loop k (n + 1) ops

unfoldable pub op_process : (ℕ → Kernel) → Manager → Option Looped
unfolding op_loop
op_process k ss =
    let rest = op_loop k 0 ss.opbuf (record ss { fired = false; opbuf = [] }) in
    if ss.fired then rest else some (looped ss)
