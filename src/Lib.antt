-- ===== src/Lib.antt =====
-- Models of the C core of silly, a server framework that runs Lua services: what is written here
-- is translated from the files under src/ and luaclib-src/ of the repository.
--
-- Timer models src/timer.c. A worker thread calls timer_after and timer_cancel, which put commands
-- into a buffer; the timer thread calls timer_update, which runs them, turns the wheel by the ticks
-- that have passed and sends the sessions of expired nodes to the worker.
--   Timer.State     the structs, with a node pointer as the node's number and a list of nodes
--                   for each intrusive list
--   Timer.Pool      pool_newpage, pool_init, pool_locate, pool_freelist, pool_newnode
--   Timer.Wheel     linklist, add_node, expire_timer, cascade_timer, update_timer
--   Timer.Commands  timer_after, timer_cancel, process_cmd, timer_update, timer_init
-- Clocks are numbers with the wrap of uint32_t and uint64_t written out. The time that timer_update
-- reads is its argument. The wheel is stated by Timer.Wheel.Inv.Inv: each pending node is in a slot
-- that its distance to the clock allows. Timer.Wheel.Sent.messages is what the worker is to be sent
-- when nodes fire: their sessions, each under the version that the node has when its turn comes.
--
-- Cluster models luaclib-src/lcluster.c: a stream of bytes for each descriptor is cut into packets
-- with a 4-byte size in front, which wait in a ring until Lua takes them.
--   Cluster.State   the structs; a buffer is the list of its bytes
--   Cluster.Ring    expand_queue, push_complete, pop_packet
--   Cluster.Frame   get_incomplete, put_incomplete, push_once, push, clear_incomplete
--   Cluster.Pack    lcreate, lrequest, lresponse, lpop
-- Cluster.Frame.Stream.feed, which reads one byte at a time, is the specification of push. The loop
-- of push runs on fuel; each round but the last eats a byte, so one more than the bytes is enough.
-- The size of a packet and the places of the ring are ints in the source; the theorems about push take
-- a hard limit below 2^31 and a ring that stays within 2^29 places.
--
-- Base64 models luaclib-src/encoding/lbase64.c: encodex with its two alphabets, and ldecode, up to the
-- lengths that their ints can count.
--
-- Dns models luaclib-src/ldns.c: the query that is sent and the response that is parsed, each the list
-- of its bytes. A read or a write outside a buffer is a result of its own, Parse.outside.
--   Dns             unpack_u16, unpack_u32, read_name
--   Dns.Query       ldotcount, lvalidname, lquestion
--   Dns.Record      parse_rr_begin to push_rr; inet_ntop is an argument
--   Dns.Answer      push_rrs, lanswer
-- read_name has as many rounds as the source gives it, 128.
--
-- Http2 models parts of luaclib-src/lhttp.c.
--   Http2.Frame     the frame builders; Http2.Frame.Receive.receive, a reader of frames after RFC 7540,
--                   is what they are measured by
--   Http2.Varint    write_varint, read_varint
--   Http2.Huffman   huffman_len, huffman_encode, write_literal, and the tables of http2_table.h
--   Http2.Index     push_ik, read_index_kv, write_index_kv; the static table is an argument
--   Http2.Table     the dynamic table of HPACK: add_to_table, try_evict, prune, lhpack_new
-- The table is read by its entries from the oldest on, Http2.Table.Held.IsTable; the sizes are natural
-- numbers, which the invariant keeps from falling below 0, and its limit fits an int. The loops of the
-- frame builders run on fuel, one round more than there are bytes; the loop of write_varint has the five rounds that 32 bits can take, that of huffman_encode a round for each bit.
--
-- Socket models src/socket.c. Worker threads make or look up a socket in the pool and queue an
-- operation; the socket thread runs the queue (op_process) and then the events of the poller
-- (socket_poll), and pushes messages to the worker.
--   Socket.State    the structs: a socket pointer is the number of its slot, an intrusive list is a
--                   list, and the kernel's side of a descriptor is the record Port
--   Socket.Pool     pool_init to pool_get, the cache of write nodes, the write list
--   Socket.Sp       the reports, add_to_sp to zombine_socket, rw_enable
--   Socket.Send     drain_wlist_tcp, flush_dirty, mark_dirty, send_msg_udp
--   Socket.Calls    the calls of the workers, socket_tcp_listen to socket_stop
--   Socket.Ops      op_tcp_listen to op_udp_send, and op_process
--   Socket.Poll     exec_accept, checkconnected, forward_msg_tcp, forward_msg_udp, socket_poll
--   Socket.Life     socket_init, socket_exit, socket_netstat, socket_stat
-- What the kernel answers (writev, sendto, recv, accept, connect, the poller) is the argument of type
-- Kernel, one for each step; retries on EINTR are left out. The bytes that the kernel took of a
-- connection are kept in its Port, so that what was sent can be compared with what was asked for.
--
-- Buffer models luaclib-src/adt/lbuffer.c: strings and blocks of memory are appended as nodes, and
-- bytes are read by count or up to a delimiter.
--   Buffer          the structs, lappend, reader_consume, clear
--   Buffer.Read     read_bytes, lreadall, read_line
-- The loop of reader_push_size runs on fuel; each round reads a byte, so one for each byte is enough.
-- A Lua string that a node refers to is its bytes, so the table of references is not modelled.
--
-- Queue models luaclib-src/adt/lqueue.c: lnew, lpush, lpop, lclear. The array is the list of its cells
-- below writei, of which those from readi on are in use. The values of Lua are numbers; the loop of
-- expand runs on fuel, and each round adds one to the capacity at least.
--
-- A result of type Option is none where the source would fail an assert, leave a buffer or overflow
-- an int. Bytes are numbers; words have their low byte first in Cluster, and their high byte in Dns and Http2.
--
-- Not modelled: freeing memory, logging, the Lua stack, locks (each operation is one step), and the
-- rest of the program, in particular src/worker.c, the Huffman decoder of HPACK and the packing and
-- unpacking of whole header lists in luaclib-src/lhttp.c, and the resolving and binding of addresses
-- in src/socket.c, whose descriptors are arguments here.
pub mod Common
pub mod Timer
pub mod Cluster
pub mod Base64
pub mod Dns
pub mod Http2
pub mod Socket
pub mod Buffer
pub mod Queue
