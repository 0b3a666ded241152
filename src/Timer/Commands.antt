-- ===== src/Timer/Commands.antt =====
-- The calls of src/timer.c: those of the worker thread, which queue commands, and `timer_update` of
-- the timer thread, which runs them and turns the wheel. `none` is a failed `assert`.
pub mod Sessions
pub mod Update
pub mod Init
use silly.Common.{
  ℕ, zero, suc, ◌+◌, ◌-◌, ◌*◌, ◌/◌, ◌%◌, ◌^◌, List, [], ◌∷◌, ◌++◌, Option, none, some, Bool, true,
  false, ◌&&◌, ltb, leb, ◌==◌, if◌then◌else◌, assert, ◌>>=◌, update, without,
}
use silly.Timer.State.{
  NodeState, adding, ticking, cancled, freed, Cmd, after, cancel, exit, Nodes, Stat, Timer, add64,
  sub64, resolution,
}
use silly.Timer.Pool.{pool_init, pool_locate, pool_freelist, pool_newnode}
use silly.Timer.Wheel.{add_node, node_free, session_of, update_loop}

-- Whether a node is in the state.
abbrev pub is_state : NodeState → NodeState → Bool
is_state adding adding = true
is_state ticking ticking = true
is_state cancled cancled = true
is_state freed freed = true
is_state _ _ = false

unfoldable pub timer_now : Timer → ℕ
timer_now t = add64 t.startwall t.monotonic

unfoldable pub timer_monotonic : Timer → ℕ
timer_monotonic t = t.monotonic

unfoldable pub timer_stat : Timer → Stat
timer_stat t = t.stat

-- `flipbuf_write` on the command buffer.
unfoldable pub push_cmd : Timer → Cmd → Timer
push_cmd t c = record t { cmdbuf = t.cmdbuf ++ c ∷ [] }

unfoldable pub version_of : ℕ → ℕ
version_of session = session / 2 ^ 32

unfoldable pub cookie_of : ℕ → ℕ
cookie_of session = session % 2 ^ 32

-- The expiry of `timer_after`: the deadline in ticks, rounded up.
unfoldable pub expire_of : ℕ → ℕ → ℕ
expire_of ticktime timeout = add64 (ticktime + timeout) (resolution - 1) / resolution % 2 ^ 32

-- `timer_after` once it has its node.
unfoldable pub schedule : Timer → ℕ → ℕ → Option (ℕ × Timer)
unfolding expire_of push_cmd
schedule t n timeout = assert (is_state (t.nodes.state n) freed) (
    some (
      session_of t n,
      push_cmd
          (record t {
            nodes = record (t.nodes) {
              state = update t.nodes.state n adding;
              expire = update t.nodes.expire n (expire_of t.ticktime timeout);
            };
          })
          (after n),
    ))

unfoldable pub timer_after : Timer → ℕ → Option (ℕ × Timer)
timer_after t timeout =
    let t' = record t {
      stat = record (t.stat) {
        scheduled = add64 t.stat.scheduled 1;
        pending = add64 t.stat.pending 1;
      };
    } in
    pool_newnode t' >>= λ p. schedule p.1 p.0 timeout

unfoldable pub timer_cancel : Timer → ℕ → Option (Bool × Timer)
unfolding version_of cookie_of push_cmd
timer_cancel t session =
    let version = version_of session in
    pool_locate t (cookie_of session) >>= λ n.
    if t.nodes.version n == version
    then some (true, push_cmd t (cancel n version))
    else some (false, t)

unfoldable pub timer_stop : Timer → Timer
unfolding push_cmd
timer_stop t = push_cmd t exit

-- `unlinklist`: the node leaves the list that it is linked in, found through its `prev`.
unfoldable pub unlinklist : Timer → ℕ → Timer
unlinklist t n = record t {
  root = λ s. without n (t.root s);
  level = λ i s. without n (t.level i s);
}

-- 1 with the node freed, or 0 where its version has moved on.
unfoldable pub process_cancel : Timer → ℕ → ℕ → Option (ℕ × Timer)
unfolding unlinklist
process_cancel t n version =
    if t.nodes.version n == version
    then assert (is_state (t.nodes.state n) ticking) (some (1, node_free (unlinklist t n) n))
    else some (0, t)

unfoldable pub process_after : Timer → ℕ → Option Timer
process_after t n = assert (is_state (t.nodes.state n) adding) (
    some (
      add_node (record t { nodes = record (t.nodes) { state = update t.nodes.state n ticking } })
        n))

-- What `process_cmd` ends with: done with the count of cancels, or left at OP_EXIT.
pub data Processed : Type 0 where
  went_on : ℕ → Timer → Processed
  exited : Timer → Processed

-- The loop of `process_cmd`.
unfoldable pub process_loop : List Cmd → ℕ → Timer → Option Processed
process_loop [] count t = some (went_on count t)
process_loop (after n ∷ cs) count t = process_after t n >>= process_loop cs count
process_loop (cancel n v ∷ cs) count t =
    process_cancel t n v >>= λ p. process_loop cs (count + p.0) p.1
process_loop (exit ∷ cs) count t = some (exited t)

-- The counters move by the number of cancels, unless the loop left at OP_EXIT.
unfoldable pub count_cancels : Processed → Processed
count_cancels (went_on count t) = went_on count (record t {
  stat = record (t.stat) {
    pending = sub64 t.stat.pending count;
    canceled = add64 t.stat.canceled count;
  };
})
count_cancels (exited t) = exited t

-- `process_cmd` takes the commands queued so far.
unfoldable pub process_cmd : Timer → Option Processed
unfolding count_cancels
process_cmd t = process_loop t.cmdbuf 0 (record t { cmdbuf = [] }) >>= λ p. some (count_cancels p)

-- `if (head != NULL) pool_freelist(...)`
unfoldable pub give_back : List ℕ → Timer → Timer
give_back [] t = t
give_back (n ∷ ns) t = pool_freelist t (n ∷ ns)

-- The last part of `timer_update`: the freed nodes go back to the pool, and the clocks agree.
unfoldable pub finish : ℕ → Timer → Option (ℕ × Timer)
unfolding give_back
finish delta t =
    let t' = give_back t.done t in
    assert (t'.ticktime % 2 ^ 32 == t'.jiffies * resolution % 2 ^ 32)
      (some (resolution - delta % resolution, t'))

-- What `timer_update` returns: the ms to sleep, or -1 for OP_EXIT.
pub data Updated : Type 0 where
  sleep : ℕ → Timer → Updated
  stopped : Timer → Updated

-- `timer_update` after its commands: the ticks, unless it is to stop.
unfoldable pub turn : ℕ → Processed → Option Updated
unfolding finish
turn delta (exited t) = some (stopped t)
turn delta (went_on count t) =
    update_loop (delta / resolution) t >>= λ w. finish delta w >>= λ r. some (sleep r.0 r.1)

-- `timer_update` once a tick has passed.
unfoldable pub run_ticks : Timer → ℕ → Option Updated
unfolding turn
run_ticks t delta =
    let tickstep = delta / resolution * resolution in
    assert (ltb 0 delta && ltb delta (2 ^ 31)) (
      process_cmd (record t {
        ticktime = add64 t.ticktime tickstep;
        monotonic = add64 t.monotonic tickstep;
        done = [];
      })
      >>= turn delta)

-- `timer_update` at the time of the monotonic clock.
unfoldable pub timer_update : Timer → ℕ → Option Updated
unfolding run_ticks
timer_update t time =
    if ltb time (add64 t.ticktime resolution)
    then some (sleep (sub64 (add64 t.ticktime resolution) time) t)
    else run_ticks t (sub64 time t.ticktime % 2 ^ 32)

-- `timer_init` at the times of the two clocks.
unfoldable pub timer_init : ℕ → ℕ → Timer
unfolding pool_init
timer_init tt wall = pool_init (record {
  nodes = record { version = λ _. 0; state = λ _. adding; cookie = λ _. 0; expire = λ _. 0 };
  pool = record { cap = 0; count = 0; free = [] };
  startwall = wall;
  jiffies = tt / resolution % 2 ^ 32;
  ticktime = tt / resolution * resolution;
  monotonic = 0;
  root = λ _. [];
  level = λ _ _. [];
  stat = record { pending = 0; scheduled = 0; fired = 0; canceled = 0 };
  cmdbuf = [];
  sent = [];
  done = [];
})
