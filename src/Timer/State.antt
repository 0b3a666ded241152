-- ===== src/Timer/State.antt =====
-- The data of src/timer.c. A `struct node *` is the node's number: page times 128 plus offset.
-- Each field of `struct node` is a table over those numbers, and an intrusive list (`next`, `prev`)
-- is the list of the nodes that it runs through, its head first.
use silly.Common.{ℕ, ◌+◌, ◌-◌, ◌%◌, ◌^◌, List}

-- `enum NODE_STATE`
pub data NodeState : Type 0 where
  adding ticking cancled freed : NodeState

-- `struct cmdpkt`: OP_AFTER with its node, OP_CANCEL with its node and version, OP_EXIT.
pub data Cmd : Type 0 where
  after : ℕ → Cmd
  cancel : ℕ → ℕ → Cmd
  exit : Cmd

-- The fields of all nodes.
pub record Nodes : Type 0 where
  pub version : ℕ → ℕ
  pub state : ℕ → NodeState
  pub cookie : ℕ → ℕ
  pub expire : ℕ → ℕ

-- `struct pool` without its lock; `free` and `tail` are one list.
pub record Pool : Type 0 where
  pub cap : ℕ
  pub count : ℕ
  pub free : List ℕ

-- `struct silly_timerstat`
pub record Stat : Type 0 where
  pub pending : ℕ
  pub scheduled : ℕ
  pub fired : ℕ
  pub canceled : ℕ

-- `struct timer`. `sent` is what `worker_push` was given, oldest first; `done` is the list that
-- `timer_update` builds through its local `head` and `tail`.
pub record Timer : Type 0 where
  pub nodes : Nodes
  pub pool : Pool
  pub startwall : ℕ
  pub jiffies : ℕ
  pub ticktime : ℕ
  pub monotonic : ℕ
  pub root : ℕ → List ℕ
  pub level : ℕ → ℕ → List ℕ
  pub stat : Stat
  pub cmdbuf : List Cmd
  pub sent : List ℕ
  pub done : List ℕ

-- Wrapping additions and subtractions of `uint32_t` and `uint64_t`.
abbrev pub add32 : ℕ → ℕ → ℕ
add32 a b = (a + b) % 2 ^ 32

abbrev pub sub32 : ℕ → ℕ → ℕ
sub32 a b = (a + 2 ^ 32 - b) % 2 ^ 32

abbrev pub add64 : ℕ → ℕ → ℕ
add64 a b = (a + b) % 2 ^ 64

abbrev pub sub64 : ℕ → ℕ → ℕ
sub64 a b = (a + 2 ^ 64 - b) % 2 ^ 64

-- TIMER_RESOLUTION, in ms.
abbrev pub resolution : ℕ
resolution = 10

-- PAGE_SIZE: 4096 over the 32 bytes of a `struct node`.
abbrev pub page_size : ℕ
page_size = 128
