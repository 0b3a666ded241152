-- ===== src/Socket/State.antt =====
-- The data of src/socket.c. A `struct socket *` is the index of its slot in the pool, and the
-- intrusive lists (`free_head`, `wlhead`) are lists.
use silly.Common.{ℕ, ◌*◌, List, Option, Bool}

-- The types that `make_type` makes.
pub data Kind : Type 0 where
  reserve tcp_listen udp_listen tcp_connection udp_connection pipe_ctrl : Kind

-- The bits of `state`; STATE_CONNECTING and STATE_LISTENING are one bit.
pub record Flags : Type 0 where
  pub polling : Bool
  pub connecting : Bool
  pub reading : Bool
  pub writing : Bool
  pub closing : Bool
  pub closewait : Bool
  pub zombine : Bool

-- `struct wlist`: `node` is its place in the cache, none for one of the heap; the size is that of
-- `buf`, whose `free` is not modelled.
pub record Wlist : Type 0 where
  pub node : Option ℕ
  pub buf : List ℕ
  pub udpaddress : Option ℕ

-- `struct socket`; none stands for the -1 of `sid` and `fd`.
pub record Socket : Type 0 where
  pub sid : Option ℕ
  pub fd : Option ℕ
  pub version : ℕ
  pub kind : Kind
  pub dirty : Bool
  pub state : Flags
  pub wlbytes : ℕ
  pub wloffset : ℕ
  pub wlhead : List Wlist
  pub sent_bytes : ℕ
  pub received_bytes : ℕ

-- `struct silly_netstat`
pub record Netstat : Type 0 where
  pub tcp_connections : ℕ
  pub received_bytes : ℕ
  pub sent_bytes : ℕ
  pub operate_request : ℕ
  pub operate_processed : ℕ

-- The messages to the worker, each with `s->sid`.
pub data Message : Type 0 where
  listened : Option ℕ → ℕ → Message
  connected : Option ℕ → ℕ → Message
  accepted : Option ℕ → Option ℕ → Message
  tcp_received : Option ℕ → List ℕ → Message
  udp_received : Option ℕ → List ℕ → ℕ → Message
  closed : Option ℕ → ℕ → Message

-- `struct op_pkt`
pub data Op : Type 0 where
  op_listen_tcp : ℕ → Op
  op_listen_udp : ℕ → Op
  op_connect_tcp : ℕ → Op
  op_connect_udp : ℕ → Op
  op_send_tcp : ℕ → List ℕ → Op
  op_send_udp : ℕ → List ℕ → ℕ → Op
  op_enable : ℕ → Bool → Op
  op_shut : ℕ → Op
  op_exit : Op

-- What the kernel has of a slot's descriptor: the bytes that it took, and the events that the
-- poller watches.
pub record Port : Type 0 where
  pub wire : List ℕ
  pub watched : Bool
  pub watch_in : Bool
  pub watch_out : Bool

-- `struct socket_manager`. `out` is what `worker_push` was given, `shut_fds` what `closesocket`
-- was, both oldest first, `fired` is that of the trigger, and `ports` is the kernel's side.
pub record Manager : Type 0 where
  pub slots : ℕ → Socket
  pub free : List ℕ
  pub wcache : List ℕ
  pub netstat : Netstat
  pub opbuf : List Op
  pub fired : Bool
  pub dirty_sockets : List ℕ
  pub out : List Message
  pub shut_fds : List (Option ℕ)
  pub ports : ℕ → Port

-- SOCKET_POOL_SIZE, SOCKET_WLIST_CACHE_SIZE, the room of `dirty_sockets` and that of `iov`.
abbrev pub pool_size : ℕ
pool_size = 65536

abbrev pub wlist_cache_size : ℕ
wlist_cache_size = 128

abbrev pub dirty_size : ℕ
dirty_size = 64

abbrev pub iov_size : ℕ
iov_size = 64

-- TCP_READ_BUF_SIZE
abbrev pub read_buf_size : ℕ
read_buf_size = 2 * 1024 * 1024

-- What `connect` answers.
pub data Connect : Type 0 where
  connect_done connect_in_progress : Connect
  connect_error : ℕ → Connect

-- What `sendto` answers: the whole datagram is sent, EAGAIN, or an error.
pub data Datagram : Type 0 where
  sent again failed : Datagram

-- What `recv` answers: bytes, end of file, EAGAIN, or an error.
pub data Received : Type 0 where
  bytes : List ℕ → Received
  end_of_file would_block recv_error : Received

-- The answers of the kernel during one step, by slot where one step asks for several. `writev` is
-- the count of bytes taken, 0 for EAGAIN and none for an error; `sendto` has the datagrams of a
-- step by their order.
pub record Kernel : Type 0 where
  pub errno : ℕ
  pub sp_add : Bool
  pub connect : Connect
  pub writev : ℕ → Option ℕ
  pub sendto : ℕ → Datagram
  pub accept : Option ℕ
  pub recv : Received
  pub recv_from : ℕ
  pub sock_error : ℕ
