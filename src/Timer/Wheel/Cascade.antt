-- ===== src/Timer/Wheel/Cascade.antt =====
-- `cascade_timer` and the loop over the levels: no `assert` fails, no node is lost, and the wheel
-- fits the new clock.
use silly.Common.{
  ℕ, zero, suc, ◌+◌, ◌*◌, ◌/◌, ◌%◌, ◌^◌, ◌<◌, ◌≡◌, ◌⊎◌, inl, inr, refl, sym, ◌≢◌, ap, All-map, ◌∙◌,
  List, [], ◌∷◌, some, subst, lt→ltb, assert, ◌>>=◌, arith, All, In, In-update_ne, ◌==◌, update,
  update_all, ==_refl, ==_iff, ==-eq-false, true, false, Bool-cases, if◌then◌else◌, ltb,
}
use native.Mathlib.Decide.{ℕ_discrete}
use silly.Timer.State.{Timer}
use silly.Timer.Wheel.{level_slot, add_node, cascade_nodes, cascade_timer, cascade_loop}
use silly.Timer.Wheel.Placement.{
  dist, LevelFits, level_below, level_due, level_turn, level_next, block_end, block_inside,
}
use silly.Timer.Wheel.Inv.{Fits, InWheel, add_node-Fits, add_node-same, add_node-InWheel}

-- What a step that moves nodes about ends with.
pub record Moved (j : ℕ) (x at : ℕ → ℕ) (moving : List ℕ) (t t' : Timer) : Type 0 where
  pub fits : Fits j x at t'
  pub nodes : t'.nodes ≡ t.nodes
  pub done : t'.done ≡ t.done
  pub sent : t'.sent ≡ t.sent
  pub ticktime : t'.ticktime ≡ t.ticktime
  pub keeps : (m : ℕ) → In m moving ⊎ InWheel m t → InWheel m t'

-- The node expires in the block of level `i` that begins at `j`.
abbrev pub Begins : ℕ → ℕ → ℕ → Type 0
Begins i j e = (e / 2 ^ (i * 6 + 8) ≡ j / 2 ^ (i * 6 + 8)) × (dist j e < 2 ^ (i * 6 + 8))

pub cascade_nodes-Moved :
    (i j : ℕ) (x at : ℕ → ℕ) (ns : List ℕ) (t : Timer)
    → Fits j x at t
    → ((k : ℕ) → k < i → at k ≡ j)
    → All (λ n. Begins i j (x n)) ns
    → (t' : Timer) × (cascade_nodes i ns t ≡ some t') × Moved j x at ns t t'
unfolding cascade_nodes
cascade_nodes-Moved i j x at [] t v run h = (
  t,
  refl,
  record {
    fits = v;
    nodes = refl;
    done = refl;
    sent = refl;
    ticktime = refl;
    keeps = λ m. elim [ inl z ↦ absurd z | inr z ↦ z ];
  },
)
cascade_nodes-Moved i j x at (n ∷ ns) t v run ((blk, near), rest) =
    let same : t.nodes.expire n ≡ x n = ap (λ (f : ℕ → ℕ). f n) v.table in
    let ok : (t.nodes.expire n / 2 ^ (i * 6 + 8) == t.jiffies / 2 ^ (i * 6 + 8)) ≡ true =
      rw (same, v.clock, blk) (==_refl (j / 2 ^ (i * 6 + 8))) in
    let fit : Fits j x at (add_node t n) =
      add_node-Fits t n j x at v (λ k _ far. run k (level_below i k (dist j (x n)) far near)) in
    let (t', e, m) = cascade_nodes-Moved i j x at ns (add_node t n) fit run rest in
    (
      t',
      rw ok e,
      record {
        fits = m.fits;
        nodes = m.nodes ∙ (add_node-same t n).0;
        done = m.done ∙ (add_node-same t n).2;
        sent = m.sent ∙ (add_node-same t n).4;
        ticktime = m.ticktime ∙ (add_node-same t n).3;
        keeps = λ k. elim [
          | inl (inl z) ↦
              m.keeps k
                (inr (add_node-InWheel t n k (rw v.clock v.small) (rw same (v.expires n)) (inl z)))
          | inl (inr z) ↦ m.keeps k (inl z)
          | inr z ↦
              m.keeps k
                (inr (add_node-InWheel t n k (rw v.clock v.small) (rw same (v.expires n)) (inr z)))
        ];
      },
    )

-- The clocks of the levels while the loop stands at level `k`: those below run by the new one.
abbrev pub turned : ℕ → ℕ → ℕ → ℕ → ℕ
turned k j j' i = if ltb i k then j' else j

pub turned_zero : (j j' i : ℕ) → turned 0 j j' i ≡ j
turned_zero j j' i = ground arith

turned_self : (k j j' : ℕ) → turned k j j' k ≡ j
turned_self k j j' = ground arith

turned-suc : (k j j' : ℕ) → turned (suc k) j j' k ≡ j'
turned-suc k j j' = ground arith

turned_ne : (k j j' i : ℕ) → k ≢ i → turned (suc k) j j' i ≡ turned k j j' i
turned_ne k j j' i ne = ground arith

module _ (k j : ℕ) (x : ℕ → ℕ) (t : Timer) where
  abbrev next : ℕ
  next = (j + 1) % 2 ^ 32

  abbrev slot : ℕ
  slot = level_slot k next

  -- With its current slot emptied, level `k` fits the new clock.
  cleared-Fits :
      k < 4
      → j < 2 ^ 32
      → Fits next x (turned k j next) t
      → Fits next x
          (turned (suc k) j next)
          (record t { level = update t.level k (update (t.level k) slot []) })
  cleared-Fits hk hj v = record {
    small = v.small;
    clock = v.clock;
    table = v.table;
    expires = v.expires;
    roots = v.roots;
    levels = λ i r hi.
        update_all
          (λ i f. (r : ℕ) → i < 4 → All (λ n. LevelFits i (turned (suc k) j next i) r (x n)) (f r))
          t.level k (update (t.level k) slot [])
          (λ r _.
            update_all (λ r. All (λ n. LevelFits k (turned (suc k) j next k) r (x n))) (t.level k)
              slot [] tt
              (λ r ne. rw (turned-suc k j next) (
                All-map (t.level k r)
                  (λ n h.
                    level_turn k j r (x n) hk hj (λ e. ne (sym e)) (rw (turned_self k j next) at h))
                  (v.levels k r hk)))
              r)
          (λ i ne r hi. rw (turned_ne k j next i ne) (v.levels i r hi)) i r hi;
  }

  -- What was in the wheel is in the slot that is moved, or in the wheel without it.
  cleared-InWheel :
      (m : ℕ)
      → InWheel m t
      → In m (t.level k slot)
        ⊎ InWheel m (record t { level = update t.level k (update (t.level k) slot []) })
  cleared-InWheel m (inl h) = inr (inl h)
  cleared-InWheel m (inr (i, s, hi, h)) = elim (ℕ_discrete k i) [
    | yes e ↦ elim (ℕ_discrete slot s) [
      | yes f ↦
          inl (subst (λ r. In m (t.level k r)) (sym f) (subst (λ l. In m (t.level l s)) (sym e) h))
      | no f ↦ inr (
          inr (
            i,
            s,
            hi,
            subst (λ l. In m (update t.level k (update (t.level k) slot []) l s)) e
                (rw (==_refl k) (
                  In-update_ne (t.level k) slot [] m s f
                    (subst (λ l. In m (t.level l s)) (sym e) h))),
          ))
    ]
    | no e ↦ inr (inr (i, s, hi, rw (==-eq-false k i e) h))
  ]

  -- The nodes of the slot begin their block.
  slot-Begins :
      k < 4
      → j < 2 ^ 32
      → (j + 1) % 2 ^ (k * 6 + 8) ≡ 0
      → Fits next x (turned k j next) t
      → All (λ n. Begins k next (x n)) (t.level k slot)
  slot-Begins hk hj z v =
      All-map (t.level k slot)
        (λ n h. level_due k j slot (x n) hk hj z refl (rw (turned_self k j next) at h))
        (v.levels k slot hk)

  pub cascade_timer-Moved :
      k < 4
      → j < 2 ^ 32
      → (j + 1) % 2 ^ (k * 6 + 8) ≡ 0
      → Fits next x (turned k j next) t
      → (t' : Timer) × (cascade_timer t k ≡ some (slot, t'))
        × Moved next x (turned (suc k) j next) [] t t'
  unfolding cascade_timer
  cascade_timer-Moved hk hj z v =
      let (t', e, m) =
        cascade_nodes-Moved k next x (turned (suc k) j next) (t.level k slot)
          (record t { level = update t.level k (update (t.level k) slot []) })
          (cleared-Fits hk hj v) (λ i hi. ground arith) (slot-Begins hk hj z v) in
      (
        t',
        subst (From t') (sym v.clock) (rw (lt→ltb k 4 hk, e)),
        record {
          fits = m.fits;
          nodes = m.nodes;
          done = m.done;
          sent = m.sent;
          ticktime = m.ticktime;
          keeps = λ i. elim [ inl z ↦ absurd z | inr h ↦ m.keeps i (cleared-InWheel i h) ];
        },
      )
    where
      From : Timer → ℕ → Type 0
      From u c =
          assert {A = ℕ × Timer} (ltb k 4) (
            cascade_nodes k (t.level k (level_slot k c))
              (record t { level = update t.level k (update (t.level k) (level_slot k c) []) })
            >>= λ t'. some (level_slot k c, t'))
          ≡ some (slot, u)

-- A wheel that fits some clocks fits others that agree on the four levels.
pub Fits-agree :
    {j : ℕ} {x at to : ℕ → ℕ} {t : Timer}
    → ((i : ℕ) → i < 4 → (s e : ℕ) → LevelFits i (at i) s e → LevelFits i (to i) s e)
    → Fits j x at t
    → Fits j x to t
Fits-agree {t = t} f v = record {
  small = v.small;
  clock = v.clock;
  table = v.table;
  expires = v.expires;
  roots = v.roots;
  levels = λ i s hi. All-map (t.level i s) (λ n h. f i hi s _ h) (v.levels i s hi);
}

Moved-trans :
    {j : ℕ} {x at to : ℕ → ℕ} {t u w : Timer}
    → Moved j x at [] t u
    → Moved j x to [] u w
    → Moved j x to [] t w
Moved-trans p q = record {
  fits = q.fits;
  nodes = q.nodes ∙ p.nodes;
  done = q.done ∙ p.done;
  sent = q.sent ∙ p.sent;
  ticktime = q.ticktime ∙ p.ticktime;
  keeps = λ m. elim [ inl z ↦ absurd z | inr h ↦ q.keeps m (inr (p.keeps m (inr h))) ];
}

-- The loop stops at a slot other than 0: the higher levels fit the new clock as they are.
stopped :
    (k j : ℕ)
    → j < 2 ^ 32
    → (level_slot k ((j + 1) % 2 ^ 32) == 0) ≡ false
    → (i : ℕ) → i < 4
    → (s e : ℕ) → LevelFits i (turned (suc k) j ((j + 1) % 2 ^ 32) i) s e
    → LevelFits i ((j + 1) % 2 ^ 32) s e
stopped k j hj stop i hi s e h = elim (Bool-cases (ltb i (suc k))) [
  | inl below ↦ rw below at h
  | inr above ↦
      level_next i j s e hi hj (block_inside k i j (ground arith) hi (λ z. ground arith))
        (rw above at h)
]

-- One round of the loop: it goes on from slot 0, and stops at another.
cascade_loop-suc :
    (r k s : ℕ) (t u : Timer)
    → cascade_timer t k ≡ some (s, u)
    → cascade_loop (suc r) k t ≡ (if s == 0 then cascade_loop r (k + 1) u else some u)
unfolding cascade_loop
cascade_loop-suc r k s t u e = ground arith

-- The loop from level `k` on brings every level to the new clock.
pub cascade_loop-Moved :
    (r k j : ℕ) (x : ℕ → ℕ) (t : Timer)
    → k + r ≡ 4
    → j < 2 ^ 32
    → (j + 1) % 2 ^ (k * 6 + 8) ≡ 0
    → Fits ((j + 1) % 2 ^ 32) x (turned k j ((j + 1) % 2 ^ 32)) t
    → (t' : Timer) × (cascade_loop r k t ≡ some t')
      × Moved ((j + 1) % 2 ^ 32) x (λ _. (j + 1) % 2 ^ 32) [] t t'
unfolding cascade_loop
cascade_loop-Moved zero k j x t hk hj z v = (
  t,
  refl,
  record {
    fits = Fits-agree (λ i hi s e h. rw (lt→ltb i k (omega arith)) at h) v;
    nodes = refl;
    done = refl;
    sent = refl;
    ticktime = refl;
    keeps = λ m. elim [ inl z ↦ absurd z | inr h ↦ h ];
  },
)
cascade_loop-Moved (suc r) k j x t hk hj z v =
    let hk' : k < 4 = omega arith in
    let suc_k : suc k ≡ k + 1 = omega arith in
    let (u, e, m) = cascade_timer-Moved k j x t hk' hj z v in
    elim (Bool-cases (level_slot k ((j + 1) % 2 ^ 32) == 0)) [
      | inl first ↦
          let (w, e', m') =
            cascade_loop-Moved r (k + 1) j x u (omega arith) hj
              (block_end k j hk' z ((==_iff _ _).0 first))
              (subst (λ q. Fits ((j + 1) % 2 ^ 32) x (turned q j ((j + 1) % 2 ^ 32)) u) suc_k
                m.fits) in
          (w, rw (cascade_loop-suc r k _ t u e, first) e', Moved-trans m m')
      | inr stop ↦ (
        u,
        rw (cascade_loop-suc r k _ t u e, stop),
        record {
          fits = Fits-agree (stopped k j hj stop) m.fits;
          nodes = m.nodes;
          done = m.done;
          sent = m.sent;
          ticktime = m.ticktime;
          keeps = m.keeps;
        },
      )
    ]
