-- ===== src/Timer/Commands/Update.antt =====
-- `timer_update` as a whole: it runs the queued commands and the ticks that are due without a
-- failed `assert`, and keeps the wheel and the clocks in step.
use silly.Common.{
  ℕ, ◌+◌, ◌*◌, ◌%◌, ◌^◌, ◌≤◌, ◌<◌, ◌≡◌, List, [], ◌∷◌, some, true, arith, ◌==◌, if◌then◌else◌,
  update,
}
use silly.Timer.State.{NodeState, adding, freed, ticking, Cmd, after, cancel, exit, Timer, add32}
use silly.Timer.Wheel.{add_node}
use silly.Timer.Wheel.Inv.{Fits, Inv}
use silly.Timer.Commands.{process_after, Processed, went_on, exited, Updated, sleep, stopped}

-- The commands make sense in their order: OP_AFTER finds its node adding, and OP_CANCEL of the
-- current version finds it ticking.
abbrev pub Ready : List Cmd → (ℕ → NodeState) → (ℕ → ℕ) → Type 0
Ready [] state version = Unit
Ready (after n ∷ cs) state version = (state n ≡ adding) × Ready cs (update state n ticking) version
Ready (cancel n v ∷ cs) state version =
    ((version n == v) ≡ true → state n ≡ ticking)
    × Ready cs (if version n == v then update state n freed else state)
        (if version n == v then update version n (add32 (version n) 1) else version)
Ready (exit ∷ cs) state version = Unit

abbrev pub started : Timer → ℕ → Timer
started t n = record t { nodes = record (t.nodes) { state = update t.nodes.state n ticking } }

pub process_after-adding :
    (t : Timer) (n : ℕ)
    → t.nodes.state n ≡ adding
    → process_after t n ≡ some (add_node (started t n) n)
unfolding process_after
process_after-adding t n e = ground arith

module _ (j : ℕ) (x : ℕ → ℕ) where
  -- A timer that fits, with the times that commands leave alone.
  record Stands (tick : ℕ) (t : Timer) : Type 0 where
    fits : Fits j x (λ _. j) t
    ticktime : t.ticktime ≡ tick

  Ends : ℕ → Processed → Type 0
  Ends tick (went_on count u) = Stands tick u
  Ends tick (exited u) = Unit

-- The clocks are in step: the wheel stands at the last whole tick.
pub record InStep (t : Timer) : Type 0 where
  pub whole : t.ticktime % 10 ≡ 0
  pub word : t.ticktime < 2 ^ 64
  pub agree : t.ticktime % 2 ^ 32 ≡ t.jiffies * 10 % 2 ^ 32

-- After `timer_update` at `time` the wheel is at the tick of `time`, and the sleep ends at the next.
abbrev pub UpTo : ℕ → Updated → Type 0
UpTo time (sleep ms t) =
    Inv t × InStep t × (t.ticktime ≤ time) × (1 ≤ ms) × (t.ticktime + 10 ≡ time + ms)
UpTo time (stopped t) = Unit

record Returned (t t' : Timer) : Type 0 where
  jiffies : t'.jiffies ≡ t.jiffies
  ticktime : t'.ticktime ≡ t.ticktime
  expire : t'.nodes.expire ≡ t.nodes.expire
  root : t'.root ≡ t.root
  level : t'.level ≡ t.level
