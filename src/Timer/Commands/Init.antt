-- ===== src/Timer/Commands/Init.antt =====
-- How the timer and each of its nodes begin: `timer_init` and `process_after`.
use silly.Common.{
  ℕ, ◌/◌, ◌^◌, ◌<◌, ◌≡◌, inl, inr, refl, sym, subst, ==_refl, some, arith, Bool-cases, ◌==◌,
}
use silly.Timer.State.{adding, ticking, Timer}
use silly.Timer.Pool.{pool_init, pool_newpage, page_nodes}
use silly.Timer.Wheel.{add_node}
use silly.Timer.Wheel.Inv.{
  Fits-own, Inv, InWheel, Fits-same, add_node-Fits, add_node-same, add_node-InWheel,
}
use silly.Timer.Commands.{process_after, timer_init}
use silly.Timer.Commands.Update.{InStep, started, process_after-adding}

-- `timer_init` makes an empty wheel that fits its clock, and clocks in step, at any time of the
-- monotonic clock.
pub timer_init-Inv :
    (mono wall : ℕ) → mono < 2 ^ 64 → Inv (timer_init mono wall) × InStep (timer_init mono wall)
unfolding timer_init pool_init pool_newpage page_nodes
timer_init-Inv mono wall h = (
  record {
    small = omega arith;
    clock = refl;
    table = refl;
    expires = λ n. elim (Bool-cases (n / 128 == 0)) [
      | inl e ↦ rw e (omega arith)
      | inr e ↦ rw e (omega arith)
    ];
    roots = λ s. tt;
    levels = λ i s hi. tt;
  },
  record { whole = omega arith; word = omega arith; agree = omega arith },
)

-- OP_AFTER of a node that is adding links it into the wheel: the invariant stays, what was pending
-- is still pending, and so is the node, in its state.
pub process_after-InWheel :
    (t : Timer) (n m : ℕ)
    → Inv t
    → t.nodes.state n ≡ adding
    → InWheel m t
    → (t' : Timer) × (process_after t n ≡ some t')
      × Inv t'
      × InWheel n t'
      × InWheel m t'
      × (t'.nodes.state n ≡ ticking)
process_after-InWheel t n m v e w =
    let u = started t n in
    let fit : Inv u = Fits-same t u refl refl refl refl v in
    let (same, clock, _, _, _) = add_node-same u n in
    (
      add_node u n,
      process_after-adding t n e,
      Fits-own (add_node-Fits u n t.jiffies t.nodes.expire (λ _. t.jiffies) fit (λ i hi far. refl)),
      add_node-InWheel u n n v.small (v.expires n) (inl refl),
      add_node-InWheel u n m v.small (v.expires n) (inr w),
      subst (λ ns. ns.state n ≡ ticking) (sym same) (rw (==_refl n)),
    )
