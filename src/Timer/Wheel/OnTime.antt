-- ===== src/Timer/Wheel/OnTime.antt =====
-- When a pending node fires: the ticks of `timer_update`, seen from one node of the wheel.
use silly.Common.{ℕ, suc, ◌^◌, ◌<◌, ◌≡◌, ◌⊎◌, inl, inr, List, ◌++◌, some, arith, All, In}
use silly.Timer.State.{Timer}
use silly.Timer.Wheel.{session_of, update_timer, update_loop}
use silly.Timer.Wheel.Placement.{dist, Due}
use silly.Timer.Wheel.Inv.{Fits-own, Inv, InWheel}
use silly.Timer.Wheel.Sent.{messages, sessions-In}
use silly.Timer.Wheel.Tick.{next, update_timer-Ticked}
use silly.Timer.Wheel.Run.{update_loop-Ran}

-- A node of the wheel whose expiry is `k + 1` ticks ahead, less than 2 ^ 31, is not among the nodes
-- that `k` ticks fire, but still in the wheel, and is among those that `k + 1` ticks fire. Both
-- times the fired nodes go to the freed list, and the worker is sent exactly one message for each,
-- its session, in the same order; the session that the node has now is among those of the `k + 1`
-- ticks. No `assert` fails on the way.
pub update_loop-on_time :
    (k m : ℕ) (t : Timer)
    → Inv t
    → InWheel m t
    → dist t.jiffies (t.nodes.expire m) ≡ suc k
    → suc k < 2 ^ 31
    → (before after : Timer) × (early fired : List ℕ) × (update_loop k t ≡ some before)
      × (before.done ≡ t.done ++ early)
      × (before.sent ≡ t.sent ++ messages t early)
      × InWheel m before
      × ¬ In m early
      × (update_loop (suc k) t ≡ some after)
      × (after.done ≡ t.done ++ fired)
      × (after.sent ≡ t.sent ++ messages t fired)
      × In m fired
      × In (session_of t m) (messages t fired)
unfolding session_of
update_loop-on_time k m t v w d h =
    let (b, es, eb, rb) = update_loop-Ran k t.jiffies t.nodes.expire t v in
    let (a, fs, ea, ra) = update_loop-Ran (suc k) t.jiffies t.nodes.expire t v in
    let now : In m fs = ra.in_time m w (omega arith) (omega arith) h in
    let (stays, not) = rb.early m w (omega arith) (omega arith) in
    (
      b,
      a,
      es,
      fs,
      eb,
      rb.done,
      rb.sent.appended,
      stays,
      not,
      ea,
      ra.done,
      ra.sent.appended,
      now,
      sessions-In t.nodes.cookie t.nodes.version m fs now,
    )

-- One tick never fails, keeps the invariant, and fires only nodes whose expiry is the new clock or
-- before it: they go to the freed list, and the worker is sent exactly their sessions, in the same
-- order. A node that was pending is still in the wheel, or it has fired and its session is sent.
pub update_timer-Due :
    (m : ℕ) (t : Timer)
    → Inv t
    → InWheel m t
    → (t' : Timer) × (fired : List ℕ) × (update_timer t ≡ some t')
      × Inv t'
      × (t'.jiffies ≡ next t.jiffies)
      × (t'.done ≡ t.done ++ fired)
      × (t'.sent ≡ t.sent ++ messages t fired)
      × All (λ n. Due t.jiffies (t.nodes.expire n) ⊎ (dist t.jiffies (t.nodes.expire n) ≡ 1)) fired
      × ((In m fired × In (session_of t m) (messages t fired)) ⊎ InWheel m t')
unfolding session_of
update_timer-Due m t v w =
    let (t', fired, e, tick) = update_timer-Ticked t.jiffies t.nodes.expire t v in
    (
      t',
      fired,
      e,
      Fits-own tick.fits,
      tick.fits.clock,
      tick.done,
      tick.sent.appended,
      tick.due,
      elim (tick.keeps m w) [
        | inl h ↦ inl (h, sessions-In t.nodes.cookie t.nodes.version m fired h)
        | inr h ↦ inr h
      ],
    )
