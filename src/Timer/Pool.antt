-- ===== src/Timer/Pool.antt =====
-- The node pool of src/timer.c: pages of 128 nodes and one free list.
use silly.Common.{
  ℕ, zero, suc, ◌+◌, ◌*◌, ◌/◌, ◌%◌, ◌^◌, List, [], ◌∷◌, ◌++◌, Option, none, some, ltb, ◌==◌,
  if◌then◌else◌, assert,
}
use silly.Timer.State.{freed, Nodes, Timer, add32, page_size}

-- `k` numbers from `i` on: the nodes of a page in the order that `next` links them.
unfoldable pub range : ℕ → ℕ → List ℕ
range i zero = []
range i (suc k) = i ∷ range (i + 1) k

-- `memset`, then state and cookie of each node of the new page.
unfoldable pub page_nodes : Nodes → ℕ → Nodes
page_nodes ns page_id = record {
  version = λ n. if n / page_size == page_id then 0 else ns.version n;
  state = λ n. if n / page_size == page_id then freed else ns.state n;
  cookie = λ n. if n / page_size == page_id then n % 2 ^ 32 else ns.cookie n;
  expire = λ n. if n / page_size == page_id then 0 else ns.expire n;
}

-- `pool_newpage`, with the page's own list of nodes.
unfoldable pub pool_newpage : Timer → List ℕ × Timer
unfolding range page_nodes
pool_newpage t =
    let page_id = t.pool.count in
    let count = add32 page_id 1 in
    (
      range (page_id * page_size) page_size,
      record t {
        nodes = page_nodes t.nodes page_id;
        pool = record (t.pool) {
          count = count;
          cap = if ltb count t.pool.cap then t.pool.cap else 2 * count % 2 ^ 32;
        };
      },
    )

-- `pool_init`: the free list is the first page.
unfoldable pub pool_init : Timer → Timer
unfolding pool_newpage
pool_init t =
    let (page, t') = pool_newpage (record t { pool = record { cap = 0; count = 0; free = [] } }) in
    record t' { pool = record (t'.pool) { free = page } }

-- `pool_locate`: the node of a cookie, if its page exists.
unfoldable pub pool_locate : Timer → ℕ → Option ℕ
pool_locate t cookie =
    let page_id = cookie / page_size in
    let page_offset = cookie % page_size in
    assert (ltb page_id t.pool.count) (some (page_id * page_size + page_offset))

-- `pool_freelist`: a list of nodes onto the tail of the free list.
unfoldable pub pool_freelist : Timer → List ℕ → Timer
pool_freelist t ns = record t { pool = record (t.pool) { free = t.pool.free ++ ns } }

-- The free list of `pool_newnode` before it takes the head: a new page where none is left.
unfoldable pub refill : List ℕ → Timer → Timer
refill (n ∷ ns) t = t
refill [] t = let (page, t') = pool_newpage t in pool_freelist t' page

take_head : List ℕ → Timer → Option (ℕ × Timer)
take_head [] t = none
take_head (n ∷ ns) t = some (n, record t { pool = record (t.pool) { free = ns } })

-- `pool_newnode`; `none` is a read through NULL, which a page of nodes rules out.
unfoldable pub pool_newnode : Timer → Option (ℕ × Timer)
unfolding take_head refill
pool_newnode t = let t' = refill t.pool.free t in take_head t'.pool.free t'
