-- ===== src/Timer/Wheel/Tick.antt =====
-- `update_timer`: one tick of the wheel.
use silly.Common.{
  ℕ, ◌+◌, ◌%◌, ◌^◌, ◌≡◌, ◌⊎◌, inl, inr, refl, sym, subst, ap, ◌∙◌, List, [], ◌++◌, append_assoc,
  some, arith, All, All-map, All-In, All-append, In, In-append_left, In-append_right, ◌==◌,
  Bool-cases, ◌>>=◌,
}
use native.Mathlib.Decide.{ℕ_discrete}
use silly.Timer.State.{Timer}
use silly.Timer.Wheel.{expire_timer, advance, update_timer}
use silly.Timer.Wheel.Placement.{
  dist, Due, RootFits, root_next, level_next, level_later, root_inside, Due-before,
}
use silly.Timer.Wheel.Inv.{Fits, InWheel}
use silly.Timer.Wheel.Sent.{Sent, Sent-from, Sent-trans}
use silly.Timer.Wheel.Cascade.{Moved, turned_zero, Fits-agree, cascade_loop-Moved}
use silly.Timer.Wheel.Expire.{expire_timer-Expired}

abbrev pub next : ℕ → ℕ
next j = (j + 1) % 2 ^ 32

-- With its slot empty the clock may advance: the root fits the new one, the levels the old one.
advance-Fits :
    (j : ℕ) (x : ℕ → ℕ) (t : Timer)
    → Fits j x (λ _. j) t
    → t.root (j % 256) ≡ []
    → Fits (next j) x (λ _. j) (record t { jiffies = next j })
advance-Fits j x t v e = record {
  small = omega arith;
  clock = refl;
  table = v.table;
  expires = v.expires;
  roots = λ s. elim (ℕ_discrete s (j % 256)) [
    | yes q ↦
        subst (λ (xs : List ℕ). All (λ n. RootFits (next j) s (x n)) xs) (sym (ap t.root q ∙ e)) tt
    | no q ↦ All-map (t.root s) (λ n h. (root_next j s (x n) v.small q h).0) (v.roots s)
  ];
  levels = v.levels;
}

-- The cascade, or its absence inside a block, brings all levels to the new clock.
advance-Moved :
    (j : ℕ) (x : ℕ → ℕ) (t : Timer)
    → Fits j x (λ _. j) t
    → t.root (j % 256) ≡ []
    → (t' : Timer) × (advance (next j) t ≡ some t')
      × Moved (next j) x (λ _. next j) [] (record t { jiffies = next j }) t'
unfolding advance
advance-Moved j x t v empty =
    let fit = advance-Fits j x t v empty in
    elim (Bool-cases (next j % 256 == 0)) [
      | inl z ↦ rw z (
          cascade_loop-Moved 4 0 j x (record t { jiffies = next j }) refl v.small (ground arith)
            (Fits-agree (λ i hi s e h. rw (turned_zero j (next j) i) h) fit))
      | inr z ↦ (
        record t { jiffies = next j },
        rw z,
        record {
          fits =
              Fits-agree
                (λ i hi s e h. level_next i j s e hi v.small (root_inside i j hi (ground arith)) h)
                fit;
          nodes = refl;
          done = refl;
          sent = refl;
          ticktime = refl;
          keeps = λ m. elim [ inl q ↦ absurd q | inr h ↦ h ];
        },
      )
    ]

-- A wheel whose current slot is empty holds nothing that is due.
settled :
    (j : ℕ) (x : ℕ → ℕ) (t : Timer)
    → Fits j x (λ _. j) t
    → t.root (j % 256) ≡ []
    → (m : ℕ) → InWheel m t
    → ¬ Due j (x m)
settled j x t v e m (inl (s, h)) = elim (ℕ_discrete s (j % 256)) [
  | yes q ↦ absurd (subst (In m) (ap t.root q ∙ e) h)
  | no q ↦ (root_next j s (x m) v.small q (All-In _ (t.root s) m (v.roots s) h)).1
]
settled j x t v e m (inr (i, s, hi, h)) =
    level_later i j s (x m) hi v.small (All-In _ (t.level i s) m (v.levels i s hi) h)

-- One tick: the nodes `fired` join the freed list, each due by now, and nothing due is left.
pub record Ticked (j : ℕ) (x : ℕ → ℕ) (fired : List ℕ) (t t' : Timer) : Type 0 where
  pub fits : Fits (next j) x (λ _. next j) t'
  pub done : t'.done ≡ t.done ++ fired
  pub sent : Sent fired t t'
  pub ticktime : t'.ticktime ≡ t.ticktime
  pub due : All (λ n. Due j (x n) ⊎ (dist j (x n) ≡ 1)) fired
  pub keeps : (m : ℕ) → InWheel m t → In m fired ⊎ InWheel m t'
  pub later : (m : ℕ) → InWheel m t' → ¬ Due (next j) (x m)

pub update_timer-Ticked :
    (j : ℕ) (x : ℕ → ℕ) (t : Timer)
    → Fits j x (λ _. j) t
    → (t' : Timer) × (fired : List ℕ) × (update_timer t ≡ some t') × Ticked j x fired t t'
unfolding update_timer
update_timer-Ticked j x t v =
    let (a, ea, fa) = expire_timer-Expired j x (λ _. j) t v in
    let (b, eb, mb) = advance-Moved j x a fa.fits fa.slot in
    let (c, ec, fc) = expire_timer-Expired (next j) x (λ _. next j) b mb.fits in
    let first = t.root (j % 256) in
    let second = b.root (next j % 256) in
    (
      c,
      first ++ second,
      run a b c fa.fits.clock ea eb ec,
      record {
        fits = fc.fits;
        done =
            fc.done
            ∙ ap (λ (d : List ℕ). d ++ second) (mb.done ∙ fa.done)
            ∙ append_assoc t.done first second;
        sent = Sent-trans t a c fa.sent (Sent-from a b c mb.nodes mb.sent fc.sent);
        ticktime = fc.ticktime ∙ mb.ticktime ∙ fa.ticktime;
        due =
            All-append _ first second (All-map first (λ n h. inl h) fa.due)
              (All-map second (λ n h. Due-before j (x n) v.small (v.expires n) h) fc.due);
        keeps = λ m h. elim (fa.keeps m h) [
          | inl z ↦ inl (In-append_left m first second z)
          | inr z ↦ elim (fc.keeps m (mb.keeps m (inr z))) [
            | inl y ↦ inl (In-append_right m first second y)
            | inr y ↦ inr y
          ]
        ];
        later = settled (next j) x c fc.fits fc.slot;
      },
    )
  where
    run :
        (a b c : Timer)
        → a.jiffies ≡ j
        → expire_timer t ≡ some a
        → advance (next j) a ≡ some b
        → expire_timer b ≡ some c
        → update_timer t ≡ some c
    run a b c h p q r =
        rw p (subst (λ i. (advance (next i) a >>= expire_timer) ≡ some c) (sym h) (rw q r))
