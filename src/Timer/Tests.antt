-- ===== src/Timer/Tests.antt =====
-- The timer theorems at concrete inputs: a timer of `timer_init` with one node set and pending.
use silly.Common.{
  ℕ, ◌/◌, ◌%◌, ◌^◌, ◌<◌, ◌≡◌, ◌⊎◌, inl, refl, List, [], ◌∷◌, ◌++◌, some, arith, All, In,
}
use silly.Timer.State.{after, adding, Timer, page_size}
use silly.Timer.Wheel.{
  add_node, find_level, link_level, link_root, node_free, session_of, update_timer, update_loop,
}
use silly.Timer.Wheel.Placement.{dist, Due}
use silly.Timer.Wheel.Inv.{Fits-own, Inv, InWheel, Fits-same, add_node-Fits, add_node-InWheel}
use silly.Timer.Wheel.Sent.{messages}
use silly.Timer.Wheel.Tick.{next}
use silly.Timer.Wheel.OnTime.{update_loop-on_time, update_timer-Due}
use silly.Timer.Pool.{pool_init, pool_newpage, page_nodes}
use silly.Timer.Commands.{unlinklist, process_cancel, timer_init}
use silly.Timer.Commands.Sessions.{process_cancel-once}
use silly.Timer.Commands.Update.{started}

-- Node 0 is set to expire at tick 300 and waits in the command buffer.
abbrev waiting : Timer
waiting = record (timer_init 0 0) {
  nodes = record ((timer_init 0 0).nodes) { state = λ _. adding; expire = λ n. 300 };
  cmdbuf = after 0 ∷ [];
}

waiting-Inv : Inv waiting
unfolding timer_init pool_init pool_newpage page_nodes
waiting-Inv = record {
  small = omega arith;
  clock = refl;
  table = refl;
  expires = λ n. omega arith;
  roots = λ s. tt;
  levels = λ i s hi. tt;
}

-- Node 0 pending, and node 1 still to be added.
abbrev pending : Timer
pending = add_node (started waiting 0) 0

pending-Inv : Inv pending
unfolding timer_init pool_init pool_newpage page_nodes
pending-Inv = Fits-own (
    add_node-Fits (started waiting 0) 0 0 (λ n. 300) (λ _. 0)
      (Fits-same waiting (started waiting 0) refl refl refl refl waiting-Inv) (λ i hi far. refl))

pending-InWheel : InWheel 0 pending
unfolding timer_init pool_init pool_newpage page_nodes
pending-InWheel = add_node-InWheel (started waiting 0) 0 0 (omega arith) (omega arith) (inl refl)

pending-dist : dist pending.jiffies (pending.nodes.expire 0) ≡ 300
unfolding timer_init pool_init pool_newpage page_nodes add_node find_level link_level link_root
pending-dist = refl

update_loop-on_time_example :
    (before after : Timer) × (early fired : List ℕ) × (update_loop 299 pending ≡ some before)
    × (before.done ≡ pending.done ++ early)
    × (before.sent ≡ pending.sent ++ messages pending early)
    × InWheel 0 before
    × ¬ In 0 early
    × (update_loop 300 pending ≡ some after)
    × (after.done ≡ pending.done ++ fired)
    × (after.sent ≡ pending.sent ++ messages pending fired)
    × In 0 fired
    × In (session_of pending 0) (messages pending fired)
update_loop-on_time_example =
    update_loop-on_time 299 0 pending pending-Inv pending-InWheel pending-dist (omega arith)

update_timer-Due_example :
    (t' : Timer) × (fired : List ℕ) × (update_timer pending ≡ some t')
    × Inv t'
    × (t'.jiffies ≡ next pending.jiffies)
    × (t'.done ≡ pending.done ++ fired)
    × (t'.sent ≡ pending.sent ++ messages pending fired)
    × All
        (λ n.
          Due pending.jiffies (pending.nodes.expire n)
          ⊎ (dist pending.jiffies (pending.nodes.expire n) ≡ 1))
        fired
    × ((In 0 fired × In (session_of pending 0) (messages pending fired)) ⊎ InWheel 0 t')
update_timer-Due_example = update_timer-Due 0 pending pending-Inv pending-InWheel

pending-adding : pending.nodes.state 1 ≡ adding
unfolding timer_init pool_init pool_newpage page_nodes add_node find_level link_level link_root
pending-adding = refl

waiting-cookie : waiting.nodes.cookie 5 < 2 ^ 32
unfolding timer_init pool_init pool_newpage page_nodes
waiting-cookie = omega arith

abbrev cancelled : Timer
cancelled = node_free (unlinklist pending 0) 0

pending-version : pending.nodes.version 0 < 2 ^ 32
unfolding timer_init pool_init pool_newpage page_nodes add_node find_level link_level link_root
pending-version = omega arith

pending-cancel : process_cancel pending 0 0 ≡ some (1, cancelled)
unfolding timer_init pool_init pool_newpage page_nodes add_node find_level link_level link_root
    process_cancel
pending-cancel = refl

process_cancel-once_example :
    ¬ InWheel 0 cancelled
    × (cancelled.done ≡ pending.done ++ 0 ∷ [])
    × (process_cancel cancelled 0 0 ≡ some (0, cancelled))
process_cancel-once_example =
    process_cancel-once pending cancelled 0 0 pending-version pending-cancel

waiting-page : 5 % 2 ^ 32 / page_size < waiting.pool.count
unfolding timer_init pool_init pool_newpage page_nodes
waiting-page = omega arith
