-- ===== src/Timer/Wheel/Run.antt =====
-- Many ticks: a pending node fires at the tick of its expiry, neither before nor after.
use silly.Common.{
  ℕ, zero, suc, ◌+◌, ◌%◌, ◌^◌, ◌≤◌, ◌<◌, ◌≡◌, inl, inr, refl, sym, subst, ◌∙◌, List, [], ◌++◌,
  append-nil, append_assoc, ap, some, arith, All-In, In, In-append, In-append_left, In-append_right,
}
use native.Mathlib.Decide.{dec_lt}
use silly.Timer.State.{Timer}
use silly.Timer.Wheel.{update_loop}
use silly.Timer.Wheel.Placement.{dist}
use silly.Timer.Wheel.Inv.{Fits, InWheel}
use silly.Timer.Wheel.Sent.{Sent, Sent-nil, Sent-trans}
use silly.Timer.Wheel.Tick.{next, Ticked, update_timer-Ticked}

-- What `k` ticks from the clock `j` end with.
pub record Ran (k j : ℕ) (x : ℕ → ℕ) (fired : List ℕ) (t t' : Timer) : Type 0 where
  pub fits : Fits ((j + k) % 2 ^ 32) x (λ _. (j + k) % 2 ^ 32) t'
  pub done : t'.done ≡ t.done ++ fired
  pub sent : Sent fired t t'
  pub ticktime : t'.ticktime ≡ t.ticktime
  pub early :
      (m : ℕ) → InWheel m t → k < dist j (x m) → dist j (x m) < 2 ^ 31 → InWheel m t' × ¬ In m fired
  pub in_time :
      (m : ℕ) → InWheel m t → 0 < dist j (x m) → dist j (x m) ≤ k → k < 2 ^ 31 → In m fired

-- The distance after a tick of a node that is ahead.
dist-next : (j e : ℕ) → j < 2 ^ 32 → e < 2 ^ 32 → 0 < dist j e → dist (next j) e + 1 ≡ dist j e
dist-next j e hj he h = omega arith

module _ (j : ℕ) (x : ℕ → ℕ) (fired : List ℕ) (t u : Timer) (v : Fits j x (λ _. j) t)
    (tick : Ticked j x fired t u) where
  -- A node two or more ticks ahead is not among the fired.
  not_yet : (m : ℕ) → 1 < dist j (x m) → dist j (x m) < 2 ^ 31 → ¬ In m fired
  not_yet m far near h = elim (All-In _ fired m tick.due h) [
    | inl (inl z) ↦ absurd (omega arith)
    | inl (inr z) ↦ absurd (omega arith)
    | inr z ↦ absurd (omega arith)
  ]

  stays : (m : ℕ) → InWheel m t → 1 < dist j (x m) → dist j (x m) < 2 ^ 31 → InWheel m u
  stays m w far near = elim (tick.keeps m w) [ inl h ↦ absurd (not_yet m far near h) | inr h ↦ h ]

  -- A node one tick ahead is among them.
  fires : (m : ℕ) → InWheel m t → dist j (x m) ≡ 1 → In m fired
  fires m w one = elim (tick.keeps m w) [
    | inl h ↦ h
    | inr h ↦ absurd (tick.later m h (inl (omega (arith, v.small, v.expires m))))
  ]

pub update_loop-Ran :
    (k j : ℕ) (x : ℕ → ℕ) (t : Timer)
    → Fits j x (λ _. j) t
    → (t' : Timer) × (fired : List ℕ) × (update_loop k t ≡ some t') × Ran k j x fired t t'
unfolding update_loop
update_loop-Ran zero j x t v = (
  t,
  [],
  refl,
  record {
    fits =
        let e : j ≡ (j + 0) % 2 ^ 32 = omega (arith, v.small) in
        subst (λ i. Fits i x (λ _. i) t) e v;
    done = sym (append-nil t.done);
    sent = Sent-nil t;
    ticktime = refl;
    early = λ m w h n. (w, λ z. z);
    in_time = λ m w p h n. absurd (omega arith);
  },
)
update_loop-Ran (suc k) j x t v =
    let (u, fired, e, tick) = update_timer-Ticked j x t v in
    let (w, rest, e', ran) = update_loop-Ran k (next j) x u tick.fits in
    (
      w,
      fired ++ rest,
      rw e e',
      record {
        fits =
            let c : (next j + k) % 2 ^ 32 ≡ (j + suc k) % 2 ^ 32 = omega arith in
            subst (λ i. Fits i x (λ _. i) w) c ran.fits;
        done = ran.done ∙ ap (λ (d : List ℕ). d ++ rest) tick.done ∙ append_assoc t.done fired rest;
        sent = Sent-trans t u w tick.sent ran.sent;
        ticktime = ran.ticktime ∙ tick.ticktime;
        early = λ m i far near.
            let d : dist (next j) (x m) + 1 ≡ dist j (x m) =
              dist-next j (x m) v.small (v.expires m) (omega arith) in
            let (i', out) =
              ran.early m (stays j x fired t u v tick m i (omega arith) near) (omega arith)
                (omega arith) in
            (
              i',
              λ z. elim (In-append m fired rest z) [
                | inl y ↦ not_yet j x fired t u v tick m (omega arith) near y
                | inr y ↦ out y
              ],
            );
        in_time = λ m i pos late lim. elim (dec_lt 1 (dist j (x m))) [
          | yes far ↦
              let d : dist (next j) (x m) + 1 ≡ dist j (x m) =
                dist-next j (x m) v.small (v.expires m) (omega arith) in
              In-append_right m fired rest (
                ran.in_time m (stays j x fired t u v tick m i far (omega arith)) (omega arith)
                  (omega arith) (omega arith))
          | no near ↦ In-append_left m fired rest (fires j x fired t u v tick m i (omega arith))
        ];
      },
    )
