-- ===== src/Socket/Pool.antt =====
-- The pool of sockets, the cache of write nodes and the write list of a socket.
-- `none` is a failed `assert`, but that of `pool_get` and `pool_alloc` is NULL.
pub mod Ids
use silly.Common.{
  ℕ, zero, suc, ◌+◌, ◌*◌, ◌%◌, ◌^◌, List, [], ◌∷◌, ◌++◌, Option, none, some, Bool, true, false,
  ◌==◌, if◌then◌else◌, assert, update, length,
}
use silly.Socket.State.{
  Kind, reserve, Flags, Wlist, Socket, Netstat, Port, Manager, pool_size, wlist_cache_size,
}

abbrev pub at : Manager → ℕ → Socket
at ss i = ss.slots i

abbrev pub put : Manager → ℕ → Socket → Manager
put ss i s = record ss { slots = update ss.slots i s }

abbrev pub no_flags : Flags
no_flags = record {
  polling = false;
  connecting = false;
  reading = false;
  writing = false;
  closing = false;
  closewait = false;
  zombine = false;
}

-- `k` numbers from `i` on.
unfoldable pub slots_from : ℕ → ℕ → List ℕ
slots_from i zero = []
slots_from i (suc k) = i ∷ slots_from (i + 1) k

-- `socket_default`: all but the version.
unfoldable pub socket_default : Socket → Socket
socket_default s = record {
  sid = none;
  fd = none;
  version = s.version;
  kind = reserve;
  dirty = false;
  state = no_flags;
  wlbytes = 0;
  wloffset = 0;
  wlhead = [];
  sent_bytes = 0;
  received_bytes = 0;
}

-- `pool_init`: every slot free, in order.
unfoldable pub pool_init : Manager → Manager
unfolding socket_default slots_from
pool_init ss = record ss {
  slots = λ i. record (socket_default (ss.slots i)) { version = 0 };
  free = slots_from 0 pool_size;
}

unfoldable pub wcache_init : Manager → Manager
unfolding slots_from
wcache_init ss = record ss { wcache = slots_from 0 wlist_cache_size }

-- The id of slot `i` at a version.
abbrev pub make_sid : ℕ → ℕ → ℕ
make_sid version i = version * 2 ^ 16 + i

-- The slot of `pool_alloc` with what is left of the free list.
unfoldable pub take_slot : List ℕ → Manager → Option ℕ → Kind → Option (ℕ × Manager)
take_slot [] ss fd kind = none
take_slot (i ∷ is) ss fd kind = some (
  i,
  put (record ss { free = is }) i
      (record (at ss i) { fd = fd; kind = kind; sid = some (make_sid (at ss i).version i) }),
)

unfoldable pub pool_alloc : Manager → Option ℕ → Kind → Option (ℕ × Manager)
unfolding take_slot
pool_alloc ss fd kind = take_slot ss.free ss fd kind

abbrev pub wlist_empty : Socket → Bool
wlist_empty s = elim s.wlhead [ [] ↦ true | w ∷ ws ↦ false ]

unfoldable pub pool_free : Manager → ℕ → Option Manager
unfolding socket_default
pool_free ss i = assert (wlist_empty (at ss i)) (
    some (
      put (record ss { free = ss.free ++ i ∷ [] }) i
        (socket_default (record (at ss i) { version = ((at ss i).version + 1) % 2 ^ 32 }))))

abbrev pub has_sid : Socket → Bool
has_sid s = elim s.sid [ none ↦ false | some id ↦ true ]

abbrev pub sid_is : Option ℕ → ℕ → Bool
sid_is none id = false
sid_is (some n) id = n == id

unfoldable pub pool_get : Manager → ℕ → Option ℕ
pool_get ss id = if sid_is (at ss (id % pool_size)).sid id then some (id % pool_size) else none

-- A node of the cache, or of the heap where that is empty.
unfoldable pub wcache_get : List ℕ → Option ℕ × List ℕ
wcache_get [] = (none, [])
wcache_get (n ∷ ns) = (some n, ns)

unfoldable pub wcache_put : List ℕ → Wlist → List ℕ
wcache_put cache w = elim w.node [ none ↦ cache | some n ↦ n ∷ cache ]

unfoldable pub wlist_append : Manager → ℕ → List ℕ → Manager
unfolding wcache_get
wlist_append ss i buf =
    put (record ss { wcache = (wcache_get ss.wcache).1 }) i
      (record (at ss i) {
        wlhead =
            (at ss i).wlhead
            ++ record { node = (wcache_get ss.wcache).0; buf = buf; udpaddress = none } ∷ [];
      })

-- The node of a datagram is always of the heap; `addr` is none where its length is 0.
unfoldable pub wlist_appendudp : Manager → ℕ → List ℕ → Option ℕ → Manager
wlist_appendudp ss i buf addr = put ss i (record (at ss i) {
  wlhead = (at ss i).wlhead ++ record { node = none; buf = buf; udpaddress = addr } ∷ [];
})

-- The nodes of a list, back in the cache one by one.
unfoldable pub give_nodes : List Wlist → List ℕ → List ℕ
unfolding wcache_put
give_nodes [] cache = cache
give_nodes (w ∷ ws) cache = give_nodes ws (wcache_put cache w)

unfoldable pub wlist_free : Manager → ℕ → Manager
unfolding give_nodes
wlist_free ss i =
    put (record ss { wcache = give_nodes (at ss i).wlhead ss.wcache }) i
      (record (at ss i) { wlhead = []; wlbytes = 0 })
