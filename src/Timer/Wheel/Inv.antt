-- ===== src/Timer/Wheel/Inv.antt =====
-- The invariant of the wheel, and that `add_node` keeps it.
use silly.Common.{
  ℕ, ◌+◌, ◌*◌, ◌%◌, ◌^◌, ◌≤◌, ◌<◌, ◌≡◌, ◌⊎◌, inl, inr, refl, sym, subst, ap, ◌∙◌, List, ◌∷◌, arith,
  All, In, Bool-cases, leb, ltb, update, update_all, In-update_cons, In-update_self, ==_refl,
}
use silly.Timer.State.{Timer}
use silly.Timer.Wheel.{link_root, link_level, level_slot, add_node}
use silly.Timer.Wheel.Placement.{dist, RootFits, LevelFits, level_new}

-- The root fits the clock `j`, level `i` the clock `at i`, with the expiries `x`.
pub record Fits (j : ℕ) (x : ℕ → ℕ) (at : ℕ → ℕ) (t : Timer) : Type 0 where
  pub small : j < 2 ^ 32
  pub clock : t.jiffies ≡ j
  pub table : t.nodes.expire ≡ x
  pub expires : (n : ℕ) → x n < 2 ^ 32
  pub roots : (s : ℕ) → All (λ n. RootFits j s (x n)) (t.root s)
  pub levels : (i s : ℕ) → i < 4 → All (λ n. LevelFits i (at i) s (x n)) (t.level i s)

abbrev pub Inv : Timer → Type 0
Inv t = Fits t.jiffies t.nodes.expire (λ i. t.jiffies) t

-- The node stands in some slot.
abbrev pub InWheel : ℕ → Timer → Type 0
InWheel n t = ((s : ℕ) × In n (t.root s)) ⊎ ((i : ℕ) × (s : ℕ) × (i < 4) × In n (t.level i s))

-- What `add_node` does, with the place it picks.
abbrev Placed : Timer → ℕ → Type 0
Placed t n =
    ((s : ℕ) × (add_node t n ≡ link_root t s n) × RootFits t.jiffies s (t.nodes.expire n))
    ⊎ ((i : ℕ) × (s : ℕ) × (add_node t n ≡ link_level t i s n)
        × (i < 4)
        × (2 ^ (i * 6 + 8) ≤ dist t.jiffies (t.nodes.expire n))
        × LevelFits i t.jiffies s (t.nodes.expire n))

pub add_node-Placed :
    (t : Timer) (n : ℕ) → t.jiffies < 2 ^ 32 → t.nodes.expire n < 2 ^ 32 → Placed t n
unfolding add_node
add_node-Placed t n hj he = elim (Bool-cases (leb (2 ^ 31) d)) [
  | inl late ↦ inl (t.jiffies % 256, rw late, (he, inr (ground arith, refl)))
  | inr ahead ↦ elim (Bool-cases (ltb d 256)) [
    | inl near ↦ inl (e % 256, rw (ahead, near), (he, inl (ground arith, refl)))
    | inr far ↦ elim (Bool-cases (ltb d (2 ^ 14))) [
      | inl b0 ↦ inr (
        0,
        level_slot 0 e,
        rw (ahead, far, b0),
        omega arith,
        ground arith,
        level_new 0 t.jiffies e (omega arith) hj he (ground arith) (ground arith) (ground arith),
      )
      | inr b0 ↦ elim (Bool-cases (ltb d (2 ^ 20))) [
        | inl b1 ↦ inr (
          1,
          level_slot 1 e,
          rw (ahead, far, b0, b1),
          omega arith,
          ground arith,
          level_new 1 t.jiffies e (omega arith) hj he (ground arith) (ground arith) (ground arith),
        )
        | inr b1 ↦ elim (Bool-cases (ltb d (2 ^ 26))) [
          | inl b2 ↦ inr (
            2,
            level_slot 2 e,
            rw (ahead, far, b0, b1, b2),
            omega arith,
            ground arith,
            level_new 2 t.jiffies e (omega arith) hj he (ground arith) (ground arith)
                (ground arith),
          )
          | inr b2 ↦ inr (
            3,
            level_slot 3 e,
            rw (ahead, far, b0, b1, b2),
            omega arith,
            ground arith,
            level_new 3 t.jiffies e (omega arith) hj he (ground arith) (ground arith)
                (ground arith),
          )
        ]
      ]
    ]
  ]
]
  where
    e : ℕ
    e = t.nodes.expire n

    d : ℕ
    d = dist t.jiffies (t.nodes.expire n)

module _ (t : Timer) (n : ℕ) where
  -- Linking at a place that fits keeps the invariant.
  link_root-Fits :
      (j s : ℕ) (x at : ℕ → ℕ) → Fits j x at t → RootFits j s (x n) → Fits j x at (link_root t s n)
  unfolding link_root
  link_root-Fits j s x at v h = record {
    small = v.small;
    clock = v.clock;
    table = v.table;
    expires = v.expires;
    roots =
        update_all (λ r. All (λ m. RootFits j r (x m))) t.root s (n ∷ t.root s) (h, v.roots s)
          (λ r _. v.roots r);
    levels = v.levels;
  }

  link_level-Fits :
      (j i s : ℕ) (x at : ℕ → ℕ)
      → Fits j x at t
      → LevelFits i (at i) s (x n)
      → Fits j x at (link_level t i s n)
  unfolding link_level
  link_level-Fits j i s x at v h = record {
    small = v.small;
    clock = v.clock;
    table = v.table;
    expires = v.expires;
    roots = v.roots;
    levels = λ k r hk.
        update_all (λ k f. (r : ℕ) → k < 4 → All (λ m. LevelFits k (at k) r (x m)) (f r)) t.level i
          (update (t.level i) s (n ∷ t.level i s))
          (λ r hi.
            update_all (λ r. All (λ m. LevelFits i (at i) r (x m))) (t.level i) s (n ∷ t.level i s)
              (h, v.levels i s hi) (λ r _. v.levels i r hi) r)
          (λ k _ r hk. v.levels k r hk) k r hk;
  }

  -- `add_node` keeps the invariant, if the level that it may pick runs by the clock.
  pub add_node-Fits :
      (j : ℕ) (x at : ℕ → ℕ)
      → Fits j x at t
      → ((i : ℕ) → i < 4 → 2 ^ (i * 6 + 8) ≤ dist j (x n) → at i ≡ j)
      → Fits j x at (add_node t n)
  add_node-Fits j x at v run =
      let same : t.nodes.expire n ≡ x n = ap (λ (f : ℕ → ℕ). f n) v.table in
      elim (add_node-Placed t n (rw v.clock v.small) (rw same (v.expires n))) [
        | inl (s, e, h) ↦ rw e (link_root-Fits j s x at v (rw (v.clock, same) at h))
        | inr (i, s, e, hi, far, h) ↦ rw e (
            link_level-Fits j i s x at v
              (rw (run i hi (rw (v.clock, same) at far)) (rw (v.clock, same) at h)))
      ]

  -- It changes the slots only.
  pub add_node-same :
      ((add_node t n).nodes ≡ t.nodes)
      × ((add_node t n).jiffies ≡ t.jiffies)
      × ((add_node t n).done ≡ t.done)
      × ((add_node t n).ticktime ≡ t.ticktime)
      × ((add_node t n).sent ≡ t.sent)
  unfolding add_node link_root link_level
  add_node-same = ground arith

  link_root-InWheel : (m s : ℕ) → (m ≡ n) ⊎ InWheel m t → InWheel m (link_root t s n)
  unfolding link_root
  link_root-InWheel m s (inl e) = inl (s, rw e (In-update_self t.root s n))
  link_root-InWheel m s (inr (inl (r, h))) = inl (r, In-update_cons t.root s n m r h)
  link_root-InWheel m s (inr (inr h)) = inr h

  link_level-InWheel : (m i s : ℕ) → i < 4 → (m ≡ n) ⊎ InWheel m t → InWheel m (link_level t i s n)
  unfolding link_level
  link_level-InWheel m i s hi (inl e) =
      inr (i, s, hi, rw (e, ==_refl i) (In-update_self (t.level i) s n))
  link_level-InWheel m i s hi (inr (inl h)) = inl h
  link_level-InWheel m i s hi (inr (inr (k, r, hk, h))) = inr (
    k,
    r,
    hk,
    update_all (λ k f. In m (t.level k r) → In m (f r)) t.level i
        (update (t.level i) s (n ∷ t.level i s)) (In-update_cons (t.level i) s n m r) (λ k _ h. h) k
        h,
  )

  -- The node is in the wheel then, with all that was.
  pub add_node-InWheel :
      (m : ℕ)
      → t.jiffies < 2 ^ 32
      → t.nodes.expire n < 2 ^ 32
      → (m ≡ n) ⊎ InWheel m t
      → InWheel m (add_node t n)
  add_node-InWheel m hj he h = elim (add_node-Placed t n hj he) [
    | inl (s, e, _) ↦ rw e (link_root-InWheel m s h)
    | inr (i, s, e, hi, _, _) ↦ rw e (link_level-InWheel m i s hi h)
  ]

-- The invariant is about the clock, the expiries and the slots alone.
pub Fits-same :
    {j : ℕ} {x at : ℕ → ℕ} (t u : Timer)
    → u.jiffies ≡ t.jiffies
    → u.nodes.expire ≡ t.nodes.expire
    → u.root ≡ t.root
    → u.level ≡ t.level
    → Fits j x at t
    → Fits j x at u
Fits-same {j} {x} {at} t u c e r l v = record {
  small = v.small;
  clock = c ∙ v.clock;
  table = e ∙ v.table;
  expires = v.expires;
  roots = λ s. subst (λ (f : ℕ → List ℕ). All (λ n. RootFits j s (x n)) (f s)) (sym r) (v.roots s);
  levels = λ i s hi.
      subst (λ (f : ℕ → ℕ → List ℕ). All (λ n. LevelFits i (at i) s (x n)) (f i s)) (sym l)
        (v.levels i s hi);
}

pub Fits-own : {j : ℕ} {x : ℕ → ℕ} {t : Timer} → Fits j x (λ _. j) t → Inv t
Fits-own {j} {t = t} v =
    subst (λ i. Fits i t.nodes.expire (λ _. i) t) (sym v.clock)
      (subst (λ y. Fits j y (λ _. j) t) (sym v.table) v)
