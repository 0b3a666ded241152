-- ===== src/Timer/Wheel.antt =====
-- The wheel of src/timer.c: linking a node, expiring a slot, cascading a level, one tick.
-- `none` is a failed `assert`.
pub mod Placement
pub mod Inv
pub mod Sent
pub mod Cascade
pub mod Expire
pub mod Tick
pub mod Run
pub mod OnTime
use silly.Common.{
  ℕ, zero, suc, ◌+◌, ◌-◌, ◌*◌, ◌/◌, ◌%◌, ◌^◌, List, [], ◌∷◌, ◌++◌, Option, none, some, Bool, true,
  false, ◌||◌, if◌then◌else◌, ltb, leb, ◌==◌, assert, ◌>>=◌, update,
}
use silly.Timer.State.{NodeState, freed, Timer, add32, sub32, add64, sub64}

-- `linklist` at a slot of the root, and of a level.
unfoldable pub link_root : Timer → ℕ → ℕ → Timer
link_root t i n = record t { root = update t.root i (n ∷ t.root i) }

unfoldable pub link_level : Timer → ℕ → ℕ → ℕ → Timer
link_level t i s n = record t { level = update t.level i (update (t.level i) s (n ∷ t.level i s)) }

-- The loop of `add_node` over the levels: the first `i` below 3 that `idx` fits, or 3.
unfoldable pub find_level : ℕ → ℕ → ℕ → ℕ
find_level zero i idx = i
find_level (suc k) i idx =
    let rest = find_level k (i + 1) idx in if ltb idx (2 ^ ((i + 1) * 6 + 8)) then i else rest

-- `(expire >> (i * SL_BITS + SR_BITS)) & SL_MASK`
abbrev pub level_slot : ℕ → ℕ → ℕ
level_slot i e = e / 2 ^ (i * 6 + 8) % 64

-- `idx` is `expire - jiffies` as an `int32_t`: negative from 2 ^ 31 on.
unfoldable pub add_node : Timer → ℕ → Timer
unfolding find_level
add_node t n =
    let e = t.nodes.expire n in
    let idx = sub32 e t.jiffies in
    if leb (2 ^ 31) idx
    then link_root t (t.jiffies % 256) n
    else if ltb idx 256
    then link_root t (e % 256) n
    else link_level t (find_level 3 0 idx) (level_slot (find_level 3 0 idx) e) n

-- `session_of`: the version above the cookie.
unfoldable pub session_of : Timer → ℕ → ℕ
session_of t n = t.nodes.version n * 2 ^ 32 + t.nodes.cookie n

-- `timeout`: the counters, and the message to the worker.
unfoldable pub timeout : Timer → ℕ → Timer
timeout t n = record t {
  stat = record (t.stat) { pending = sub64 t.stat.pending 1; fired = add64 t.stat.fired 1 };
  sent = t.sent ++ session_of t n ∷ [];
}

-- `node_free`: onto the tail of the list of freed nodes, under the next version.
unfoldable pub node_free : Timer → ℕ → Timer
node_free t n = record t {
  nodes = record (t.nodes) {
    version = update t.nodes.version n (add32 (t.nodes.version n) 1);
    state = update t.nodes.state n freed;
  };
  done = t.done ++ n ∷ [];
}

-- `(int32_t)(expire - jiffies) <= 0`
abbrev pub is_due : ℕ → ℕ → Bool
is_due j e = sub32 e j == 0 || leb (2 ^ 31) (sub32 e j)

-- The inner loop of `expire_timer`.
unfoldable pub expire_nodes : List ℕ → Timer → Option Timer
expire_nodes [] t = some t
expire_nodes (n ∷ ns) t =
    assert (is_due t.jiffies (t.nodes.expire n)) (expire_nodes ns (node_free (timeout t n) n))

-- The outer loop empties the slot and links nothing, so its second test fails.
unfoldable pub expire_timer : Timer → Option Timer
expire_timer t =
    let idx = t.jiffies % 256 in
    expire_nodes (t.root idx) (record t { root = update t.root idx [] })

unfoldable pub cascade_nodes : ℕ → List ℕ → Timer → Option Timer
cascade_nodes i [] t = some t
cascade_nodes i (n ∷ ns) t =
    assert (t.nodes.expire n / 2 ^ (i * 6 + 8) == t.jiffies / 2 ^ (i * 6 + 8))
      (cascade_nodes i ns (add_node t n))

-- The slot that it empties, and the timer after it.
unfoldable pub cascade_timer : Timer → ℕ → Option (ℕ × Timer)
cascade_timer t i =
    let idx = level_slot i t.jiffies in
    let cleared = record t { level = update t.level i (update (t.level i) idx []) } in
    assert (ltb i 4) (cascade_nodes i (t.level i idx) cleared >>= λ t'. some (idx, t'))

-- `for (i = 0; i < 4; i++)`, left at the first slot that is not 0.
unfoldable pub cascade_loop : ℕ → ℕ → Timer → Option Timer
cascade_loop zero i t = some t
cascade_loop (suc k) i t = elim (cascade_timer t i) [
  | none ↦ none
  | some (idx, t') ↦ elim (idx == 0) [ true ↦ cascade_loop k (i + 1) t' | false ↦ some t' ]
]

-- The middle of `update_timer`: the clock moves to `j`, and at slot 0 the levels cascade.
unfoldable pub advance : ℕ → Timer → Option Timer
advance j t =
    let t' = record t { jiffies = j } in if j % 256 == 0 then cascade_loop 4 0 t' else some t'

unfoldable pub update_timer : Timer → Option Timer
update_timer t = expire_timer t >>= λ a. advance (add32 a.jiffies 1) a >>= expire_timer

-- The `for (i = 0; i < ticks; i++)` of `timer_update`.
unfoldable pub update_loop : ℕ → Timer → Option Timer
update_loop zero t = some t
update_loop (suc k) t = update_timer t >>= update_loop k
