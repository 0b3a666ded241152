-- ===== src/Timer/Wheel/Placement.antt =====
-- Where a pending node stands, as a relation between the clock, its expiry and its slot.
use silly.Common.{
  ℕ, zero, suc, ◌+◌, ◌-◌, ◌*◌, ◌/◌, ◌%◌, ◌^◌, ◌≤◌, ◌<◌, ◌≡◌, ◌≢◌, ◌⊎◌, inl, inr, arith,
}
use native.Mathlib.Nat.{pow-le-pow_right}
use native.Mathlib.Decide.{dec_lt}
use silly.Timer.State.{sub32}

-- Ticks from `j` to `e` on the 32-bit clock.
abbrev pub dist : ℕ → ℕ → ℕ
dist j e = sub32 e j

-- The expiry is now, or the last 2 ^ 31 ticks passed it.
abbrev pub Due : ℕ → ℕ → Type 0
Due j e = (dist j e ≡ 0) ⊎ (2 ^ 31 ≤ dist j e)

-- A node of root slot `s`: due within 256 ticks under its own slot, or late under the current one.
abbrev pub RootFits : ℕ → ℕ → ℕ → Type 0
RootFits j s e =
    (e < 2 ^ 32) × (((dist j e < 256) × (s ≡ e % 256)) ⊎ ((2 ^ 31 ≤ dist j e) × (s ≡ j % 256)))

-- Blocks of 2 ^ (6 i + 8) ticks from the one of `j` to the one of `e`.
abbrev pub blocks : ℕ → ℕ → ℕ → ℕ
blocks i j e =
    (e / 2 ^ (i * 6 + 8) + 2 ^ 32 / 2 ^ (i * 6 + 8) - j / 2 ^ (i * 6 + 8))
    % (2 ^ 32 / 2 ^ (i * 6 + 8))

-- A node of slot `s` of level `i`: in one of the 64 blocks that follow the current one.
abbrev pub LevelFits : ℕ → ℕ → ℕ → ℕ → Type 0
LevelFits i j s e =
    (e < 2 ^ 32)
    × (s ≡ e / 2 ^ (i * 6 + 8) % 64)
    × (1 ≤ blocks i j e)
    × (blocks i j e ≤ 64)
    × (dist j e < 2 ^ 31)

-- A node of the current root slot is due.
pub root-Due : (j e : ℕ) → j < 2 ^ 32 → RootFits j (j % 256) e → Due j e
root-Due j e hj (he, inl (d, s)) = inl (omega arith)
root-Due j e hj (he, inr (d, s)) = inr d

-- A node of another root slot is not, and fits after the tick.
pub root_next :
    (j s e : ℕ)
    → j < 2 ^ 32
    → s ≢ j % 256
    → RootFits j s e
    → RootFits ((j + 1) % 2 ^ 32) s e × ¬ Due j e
root_next j s e hj ne (he, inl (d, hs)) = (
  (he, inl (omega arith, hs)),
  (λ z. elim z [ inl z ↦ ne (omega arith) | inr z ↦ absurd (omega arith) ]),
)
root_next j s e hj ne (he, inr (d, hs)) = absurd (ne hs)

-- Within a block the levels stand still.
pub level_next :
    (i j s e : ℕ)
    → i < 4
    → j < 2 ^ 32
    → (j + 1) % 2 ^ (i * 6 + 8) ≢ 0
    → LevelFits i j s e
    → LevelFits i ((j + 1) % 2 ^ 32) s e
level_next zero j s e hi hj ne (he, hs, b, b', d) = omega arith
level_next (suc zero) j s e hi hj ne (he, hs, b, b', d) = omega arith
level_next (suc (suc zero)) j s e hi hj ne (he, hs, b, b', d) = omega arith
level_next (suc (suc (suc zero))) j s e hi hj ne (he, hs, b, b', d) = omega arith
level_next (suc (suc (suc (suc i)))) j s e hi hj ne h = absurd (omega arith)

-- At the end of a block a node of another slot than the one to cascade fits still.
pub level_turn :
    (i j s e : ℕ)
    → i < 4
    → j < 2 ^ 32
    → s ≢ (j + 1) % 2 ^ 32 / 2 ^ (i * 6 + 8) % 64
    → LevelFits i j s e
    → LevelFits i ((j + 1) % 2 ^ 32) s e
level_turn zero j s e hi hj ne (he, hs, b, b', d) = omega arith
level_turn (suc zero) j s e hi hj ne (he, hs, b, b', d) = omega arith
level_turn (suc (suc zero)) j s e hi hj ne (he, hs, b, b', d) = omega arith
level_turn (suc (suc (suc zero))) j s e hi hj ne (he, hs, b, b', d) = omega arith
level_turn (suc (suc (suc (suc i)))) j s e hi hj ne h = absurd (omega arith)

-- The nodes of the slot to cascade expire within the block that begins.
pub level_due :
    (i j s e : ℕ)
    → i < 4
    → j < 2 ^ 32
    → (j + 1) % 2 ^ (i * 6 + 8) ≡ 0
    → s ≡ (j + 1) % 2 ^ 32 / 2 ^ (i * 6 + 8) % 64
    → LevelFits i j s e
    → (e / 2 ^ (i * 6 + 8) ≡ (j + 1) % 2 ^ 32 / 2 ^ (i * 6 + 8))
      × (dist ((j + 1) % 2 ^ 32) e < 2 ^ (i * 6 + 8))
level_due zero j s e hi hj z t (he, hs, b, b', d) = omega arith
level_due (suc zero) j s e hi hj z t (he, hs, b, b', d) = omega arith
level_due (suc (suc zero)) j s e hi hj z t (he, hs, b, b', d) = omega arith
level_due (suc (suc (suc zero))) j s e hi hj z t (he, hs, b, b', d) = omega arith
level_due (suc (suc (suc (suc i)))) j s e hi hj z t h = absurd (omega arith)

-- A node of a level is not due.
pub level_later : (i j s e : ℕ) → i < 4 → j < 2 ^ 32 → LevelFits i j s e → ¬ Due j e
level_later zero j s e hi hj (he, hs, b, b', d) z = omega arith
level_later (suc zero) j s e hi hj (he, hs, b, b', d) z = omega arith
level_later (suc (suc zero)) j s e hi hj (he, hs, b, b', d) z = omega arith
level_later (suc (suc (suc zero))) j s e hi hj (he, hs, b, b', d) z = omega arith
level_later (suc (suc (suc (suc i)))) j s e hi hj h z = absurd (omega arith)

-- A node as far ahead as level `i` reaches fits the slot of its expiry there.
pub level_new :
    (i j e : ℕ)
    → i < 4
    → j < 2 ^ 32
    → e < 2 ^ 32
    → 2 ^ (i * 6 + 8) ≤ dist j e
    → dist j e < 2 ^ ((i + 1) * 6 + 8)
    → dist j e < 2 ^ 31
    → LevelFits i j (e / 2 ^ (i * 6 + 8) % 64) e
level_new zero j e hi hj he l u d = omega arith
level_new (suc zero) j e hi hj he l u d = omega arith
level_new (suc (suc zero)) j e hi hj he l u d = omega arith
level_new (suc (suc (suc zero))) j e hi hj he l u d = omega arith
level_new (suc (suc (suc (suc i)))) j e hi hj he l u d = absurd (omega arith)

-- A node that is less ahead than level `i` reaches is placed below it.
pub level_below : (i k d : ℕ) → 2 ^ (k * 6 + 8) ≤ d → d < 2 ^ (i * 6 + 8) → k < i
level_below i k d l u = elim (dec_lt k i) [
  | yes p ↦ p
  | no p ↦
      let q : 2 ^ (i * 6 + 8) ≤ 2 ^ (k * 6 + 8) =
        pow-le-pow_right {n = 2} (omega arith) {i = i * 6 + 8} {j = k * 6 + 8} (omega arith) in
      absurd (omega arith)
]

-- Slot 0 of a level at the end of its block is the end of a block of the next level.
pub block_end :
    (i j : ℕ)
    → i < 4
    → (j + 1) % 2 ^ (i * 6 + 8) ≡ 0
    → (j + 1) % 2 ^ 32 / 2 ^ (i * 6 + 8) % 64 ≡ 0
    → (j + 1) % 2 ^ ((i + 1) * 6 + 8) ≡ 0
block_end zero j hi e z = omega arith
block_end (suc zero) j hi e z = omega arith
block_end (suc (suc zero)) j hi e z = omega arith
block_end (suc (suc (suc zero))) j hi e z = omega arith
block_end (suc (suc (suc (suc i)))) j hi e z = absurd (omega arith)

-- Any other slot is not the end of a block of a higher level.
pub block_inside :
    (k i j : ℕ)
    → k < i
    → i < 4
    → (j + 1) % 2 ^ 32 / 2 ^ (k * 6 + 8) % 64 ≢ 0
    → (j + 1) % 2 ^ (i * 6 + 8) ≢ 0
block_inside zero (suc zero) j p q ne z = omega arith
block_inside zero (suc (suc zero)) j p q ne z = omega arith
block_inside zero (suc (suc (suc zero))) j p q ne z = omega arith
block_inside (suc zero) (suc (suc zero)) j p q ne z = omega arith
block_inside (suc zero) (suc (suc (suc zero))) j p q ne z = omega arith
block_inside (suc (suc zero)) (suc (suc (suc zero))) j p q ne z = omega arith
block_inside k i j p q ne z = absurd (omega arith)

-- Outside the end of a root block no level is at the end of one.
pub root_inside : (i j : ℕ) → i < 4 → (j + 1) % 2 ^ 32 % 256 ≢ 0 → (j + 1) % 2 ^ (i * 6 + 8) ≢ 0
root_inside zero j hi ne z = omega arith
root_inside (suc zero) j hi ne z = omega arith
root_inside (suc (suc zero)) j hi ne z = omega arith
root_inside (suc (suc (suc zero))) j hi ne z = omega arith
root_inside (suc (suc (suc (suc i)))) j hi ne z = absurd (omega arith)

-- What is due after a tick was due before it, or was one tick ahead.
pub Due-before :
    (j e : ℕ) → j < 2 ^ 32 → e < 2 ^ 32 → Due ((j + 1) % 2 ^ 32) e → Due j e ⊎ (dist j e ≡ 1)
Due-before j e hj he (inl z) = inr (omega arith)
Due-before j e hj he (inr z) =
    inl (elim (dec_lt (dist j e) 1) [ yes p ↦ inl (omega arith) | no p ↦ inr (omega arith) ])
