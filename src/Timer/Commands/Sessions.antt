-- ===== src/Timer/Commands/Sessions.antt =====
-- Deadlines and sessions: what `timer_after` promises, and which cancels take effect.
use silly.Common.{
  ℕ, ◌+◌, ◌*◌, ◌/◌, ◌%◌, ◌^◌, ◌≤◌, ◌<◌, ◌≡◌, ◌≢◌, ◌⊎◌, inl, inr, refl, sym, subst, List, [], ◌∷◌,
  ◌++◌, some, true, false, arith, ltb, ◌==◌, Bool-cases, In, without,
}
use silly.Timer.State.{cancel, Timer, page_size}
use silly.Timer.Wheel.{node_free, session_of}
use silly.Timer.Wheel.Placement.{dist}
use silly.Timer.Wheel.Inv.{InWheel}
use silly.Timer.Pool.{pool_locate}
use silly.Timer.Commands.{
  version_of, cookie_of, expire_of, timer_cancel, push_cmd, unlinklist, process_cancel,
}

-- A timer set at a whole tick is the fewest ticks ahead that last its timeout, never early and less
-- than one resolution late, while the deadline fits 64 bits and the timeout 32.
pub expire_of-deadline :
    (tick timeout : ℕ)
    → timeout < 2 ^ 32
    → tick * 10 + timeout + 9 < 2 ^ 64
    → (timeout ≤ dist (tick % 2 ^ 32) (expire_of (tick * 10) timeout) * 10)
      × (dist (tick % 2 ^ 32) (expire_of (tick * 10) timeout) * 10 < timeout + 10)
unfolding expire_of
expire_of-deadline tick timeout ht h = omega arith

-- Of the session of a node whose cookie has 32 bits, version_of and cookie_of give back the node's
-- version and cookie.
pub session_parts :
    (t : Timer) (n : ℕ)
    → t.nodes.cookie n < 2 ^ 32
    → (version_of (session_of t n) ≡ t.nodes.version n)
      × (cookie_of (session_of t n) ≡ t.nodes.cookie n)
unfolding version_of cookie_of session_of
session_parts t n h = omega arith

not-In-without : (n : ℕ) (xs : List ℕ) → ¬ In n (without n xs)
not-In-without n [] h = h
not-In-without n (x ∷ xs) h = elim (Bool-cases (n == x)) [
  | inl e ↦ not-In-without n xs (rw e at h)
  | inr e ↦
      let h' : (n ≡ x) ⊎ In n (without n xs) = rw e at h in
      elim h' [ inl q ↦ absurd (ground (arith, e)) | inr q ↦ not-In-without n xs q ]
]

-- What a cancel that takes effect does.
process_cancel-freed :
    (t t' : Timer) (n v : ℕ)
    → process_cancel t n v ≡ some (1, t')
    → (t.nodes.version n ≡ v) × (t' ≡ node_free (unlinklist t n) n)
unfolding process_cancel
process_cancel-freed t t' n v e = ground arith

abbrev Once : Timer → ℕ → ℕ → Timer → Type 0
Once t n v t' =
    ¬ InWheel n t' × (t'.done ≡ t.done ++ n ∷ []) × (process_cancel t' n v ≡ some (0, t'))

freed-Once :
    (t : Timer) (n v : ℕ)
    → t.nodes.version n < 2 ^ 32
    → t.nodes.version n ≡ v
    → Once t n v (node_free (unlinklist t n) n)
unfolding process_cancel node_free
freed-Once t n v h e = (
  (λ z. elim z [
    | inl (s, i) ↦ not-In-without n (t.root s) i
    | inr (k, s, hk, i) ↦ not-In-without n (t.level k s) i
  ]),
  refl,
  ground arith,
)

-- A cancel that takes effect, of a node whose version has 32 bits, leaves the node out of the wheel
-- and on the freed list, and the same command again has no effect.
pub process_cancel-once :
    (t t' : Timer) (n v : ℕ)
    → t.nodes.version n < 2 ^ 32
    → process_cancel t n v ≡ some (1, t')
    → ¬ InWheel n t' × (t'.done ≡ t.done ++ n ∷ []) × (process_cancel t' n v ≡ some (0, t'))
process_cancel-once t t' n v h e =
    let (same, f) = process_cancel-freed t t' n v e in
    subst (Once t n v) (sym f) (freed-Once t n v h same)

-- For a session whose page exists: if its version is the current one of its node, `timer_cancel`
-- queues a cancel of it and says so; else nothing is queued.
pub timer_cancel_lem :
    (t : Timer) (s : ℕ)
    → s / 2 ^ 32 < 2 ^ 32
    → s % 2 ^ 32 / page_size < t.pool.count
    → let n = s % 2 ^ 32 in
      ((t.nodes.version n ≡ s / 2 ^ 32)
        × (timer_cancel t s ≡ some (true, push_cmd t (cancel n (s / 2 ^ 32)))))
      ⊎ ((t.nodes.version n ≢ s / 2 ^ 32) × (timer_cancel t s ≡ some (false, t)))
unfolding timer_cancel pool_locate
timer_cancel_lem t s hv h =
    let page : s % 2 ^ 32 / page_size * page_size + s % 2 ^ 32 % page_size ≡ s % 2 ^ 32 =
      omega arith in
    let exists : ltb (s % 2 ^ 32 / page_size) t.pool.count ≡ true = ground arith in
    elim (Bool-cases (t.nodes.version (s % 2 ^ 32) == s / 2 ^ 32)) [
      | inl same ↦ inl (ground arith, rw (exists, page, same))
      | inr other ↦ inr (ground arith, rw (exists, page, other))
    ]
