-- ===== src/Cluster/Pack/Fresh.antt =====
-- A new object: `lcreate` of limits in range.
use silly.Common.{ℕ, ◌≤◌, ◌<◌, ◌^◌, ◌≡◌, refl, inl, [], some, false, arith, ltb, leb}
use silly.Cluster.State.{NetPacket}
use silly.Cluster.Ring.Fifo.{contents}
use silly.Cluster.Frame.{find}
use silly.Cluster.Frame.Table.{count}
use silly.Cluster.Frame.Push.{IsHeld}
use silly.Cluster.Pack.{new_netpacket, lcreate}

pub new_netpacket-IsHeld :
    (hardval softval : ℕ) → hardval < 2 ^ 31 → IsHeld (new_netpacket hardval softval)
unfolding find count
new_netpacket-IsHeld hardval softval h = record {
  ring = record { head_in = omega arith; tail_in = omega arith };
  once = λ fd k. omega arith;
  entries = λ fd. inl ([], refl, omega arith);
  narrow = h;
}

-- `lcreate` accepts limits below 2^31 of which the hard one is not below the soft one, and makes an
-- empty queue and an empty table that are well formed.
pub lcreate-IsHeld :
    (hardval softval : ℕ)
    → hardval < 2 ^ 31
    → softval ≤ hardval
    → (p : NetPacket) × (lcreate hardval softval ≡ some p) × IsHeld p × (contents p.ring ≡ [])
unfolding lcreate
lcreate-IsHeld hardval softval hh hs =
    let a : leb (2 ^ 32) hardval ≡ false = ground arith in
    let b : leb (2 ^ 32) softval ≡ false = ground arith in
    let c : ltb hardval softval ≡ false = ground arith in
    (new_netpacket hardval softval, rw (a, b, c), new_netpacket-IsHeld hardval softval hh, refl)
