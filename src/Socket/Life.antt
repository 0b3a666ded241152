-- ===== src/Socket/Life.antt =====
-- The start and the end of the socket engine, and its statistics.
pub mod Stats
use silly.Common.{
  ℕ, zero, suc, ◌+◌, ◌*◌, ◌≡◌, refl, List, [], ◌∷◌, ◌++◌, Option, none, some, Bool, true, false,
  ◌&&◌, ◌||◌, not, ◌==◌, if◌then◌else◌, ◌>>=◌,
}
use silly.Socket.State.{
  Kind, reserve, tcp_listen, udp_listen, tcp_connection, udp_connection, pipe_ctrl, Socket, Netstat,
  Manager, Kernel, pool_size,
}
use silly.Socket.Pool.{at, no_flags, pool_init, wcache_init, pool_alloc, pool_get}
use silly.Socket.Sp.{is_kind, add_to_sp, free_socket}
use silly.Socket.Send.{flush_dirty}
use silly.Socket.Calls.{is_gone}

-- The manager that `memset` leaves; an id and a descriptor of 0 do not outlast `pool_init`.
abbrev pub blank : Manager
blank = record {
  slots = λ i. record {
    sid = some 0;
    fd = some 0;
    version = 0;
    kind = reserve;
    dirty = false;
    state = no_flags;
    wlbytes = 0;
    wloffset = 0;
    wlhead = [];
    sent_bytes = 0;
    received_bytes = 0;
  };
  free = [];
  wcache = [];
  netstat = record {
    tcp_connections = 0;
    received_bytes = 0;
    sent_bytes = 0;
    operate_request = 0;
    operate_processed = 0;
  };
  opbuf = [];
  fired = false;
  dirty_sockets = [];
  out = [];
  shut_fds = [];
  ports = λ i. record { wire = []; watched = false; watch_in = false; watch_out = false };
}

-- 0 with the manager, or -errno.
pub data Started : Type 0 where
  started : Manager → Started
  not_started : Started

-- The slot of the trigger's descriptor goes to the poller, which may refuse it.
unfoldable pub init_trigger : Bool → Option (ℕ × Manager) → Option Started
init_trigger polled none = none
init_trigger polled (some (i, ss)) =
    let freed = free_socket ss i >>= (λ ss'. some not_started) in
    if polled then some (started (add_to_sp ss i true)) else freed

-- `socket_init`, with what `sp_create`, `trigger_init` and `sp_add` answer.
unfoldable pub socket_init : Bool → Option ℕ → Bool → Option Started
unfolding init_trigger
socket_init created trigger polled = elim trigger [
  | none ↦ some not_started
  | some fd ↦
      let alloc =
        init_trigger polled (pool_alloc (wcache_init (pool_init blank)) (some fd) pipe_ctrl) in
      if created then alloc else some not_started
]

-- `s->type & 0x0f`, `s->type >> 4`, and the whole.
abbrev pub type_of : Kind → ℕ
type_of reserve = 0
type_of tcp_listen = 1
type_of udp_listen = 1
type_of tcp_connection = 2
type_of udp_connection = 2
type_of pipe_ctrl = 3

abbrev pub protocol_of : Kind → ℕ
protocol_of reserve = 0
protocol_of tcp_listen = 1
protocol_of udp_listen = 2
protocol_of tcp_connection = 1
protocol_of udp_connection = 2
protocol_of pipe_ctrl = 3

abbrev pub make_type : ℕ → ℕ → ℕ
make_type protocol type = protocol * 16 + type

-- The descriptors of the `n` slots from `i` that `socket_exit` closes.
unfoldable pub open_fds : ℕ → ℕ → Manager → List (Option ℕ)
open_fds i zero ss = []
open_fds i (suc n) ss =
    let rest = open_fds (i + 1) n ss in
    if (type_of (at ss i).kind == 2) || (type_of (at ss i).kind == 1)
    then (at ss i).fd ∷ rest
    else rest

unfoldable pub socket_exit : Kernel → Manager → Option Manager
unfolding open_fds
socket_exit k ss = flush_dirty k ss >>= λ ss'.
    some (record ss' { shut_fds = ss'.shut_fds ++ open_fds 0 pool_size ss' })

unfoldable pub socket_netstat : Manager → Netstat
socket_netstat ss = ss.netstat

-- "*.*", or the address of the peer.
pub data Remote : Type 0 where
  anyone : Remote
  peer_of : ℕ → Remote

-- `struct silly_socketstat`; a name is that of its index, and an address none where it is unset.
pub record SocketStat : Type 0 where
  pub sid : ℕ
  pub fd : Option ℕ
  pub type_name : ℕ
  pub protocol_name : ℕ
  pub sent_bytes : ℕ
  pub received_bytes : ℕ
  pub localaddr : Option ℕ
  pub remoteaddr : Option Remote

-- What `memset` leaves.
abbrev pub no_stat : SocketStat
no_stat = record {
  sid = 0;
  fd = some 0;
  type_name = 0;
  protocol_name = 0;
  sent_bytes = 0;
  received_bytes = 0;
  localaddr = none;
  remoteaddr = none;
}

-- The addresses, of a descriptor that is no pipe's; `local` and `peer` are the kernel's answers.
unfoldable pub stat_addr : (ℕ → ℕ) → (ℕ → ℕ) → Kind → Option ℕ → SocketStat → SocketStat
stat_addr local peer kind none info = info
stat_addr local peer kind (some fd) info = if protocol_of kind == 3 then info else record info {
  localaddr = some (local fd);
  remoteaddr = some (if type_of kind == make_type 1 2 then peer_of (peer fd) else anyone);
}

-- The statistics of the slot of the first look, with what the second look answers.
unfoldable pub stat_found : (ℕ → ℕ) → (ℕ → ℕ) → Manager → Option ℕ → Bool → ℕ → SocketStat
unfolding stat_addr
stat_found local peer ss none gone id = no_stat
stat_found local peer ss (some i) gone id =
    let s = at ss i in
    let counted : SocketStat = record no_stat {
      sent_bytes = s.sent_bytes;
      received_bytes = s.received_bytes;
    } in
    if gone
    then counted
    else stat_addr local peer s.kind s.fd (record counted {
      sid = id;
      fd = s.fd;
      type_name = type_of s.kind;
      protocol_name = protocol_of s.kind;
    })

-- `socket_stat` of a worker: the state at the first look and at the second, `ss` and `ss'`.
unfoldable pub socket_stat : (ℕ → ℕ) → (ℕ → ℕ) → Manager → Manager → ℕ → SocketStat
unfolding stat_found
socket_stat local peer ss ss' id =
    stat_found local peer ss (pool_get ss id) (is_gone ss' (pool_get ss' id)) id
