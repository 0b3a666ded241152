-- ===== src/Buffer/Laws/Ids.antt =====
-- The ids of a pool: each one given out and not yet returned is held once.
use silly.Common.{
  ℕ, ◌+◌, ◌^◌, ◌<◌, ◌≡◌, refl, List, [], ◌∷◌, some, true, false, ltb, lt→ltb, ◌&&◌, arith, leb,
  if◌then◌else◌, count, ==_refl,
}
use silly.Buffer.{IdPool, refuses, pop_id, id_pool_alloc, id_pool_free}

-- Each id up to the largest either lies free or is live, once.
abbrev pub IsOwned : IdPool → List ℕ → Type 0
IsOwned p live =
    (id : ℕ) → count id p.freelist + count id live ≡ (if leb 1 id && leb id p.max_id then 1 else 0)

-- What an allocation gives: an id that is not live, and a pool that knows that it is.
abbrev pub Fresh : IdPool → List ℕ → ℕ × IdPool → Type 0
Fresh p live r = (count r.0 live ≡ 0) × (0 < r.0) × IsOwned r.1 (r.0 ∷ live)

pop_id-Fresh :
    (p : IdPool) (ids live : List ℕ)
    → ((id : ℕ) → count id ids + count id live ≡ (if leb 1 id && leb id p.max_id then 1 else 0))
    → p.max_id + 1 < 2 ^ 31
    → (r : ℕ × IdPool) × (pop_id p ids ≡ some r) × Fresh p live r
unfolding pop_id
pop_id-Fresh p [] live o h =
    let fits : ltb (p.max_id + 1) 2147483648 ≡ true = lt→ltb _ _ h in
    (
      (p.max_id + 1, record { freelist = []; max_id = p.max_id + 1 }),
      rw fits,
      (ground (arith, o (p.max_id + 1)), omega arith, λ j. ground (arith, o j, o (p.max_id + 1))),
    )
pop_id-Fresh p (id ∷ ids) live o h = (
  (id, record p { freelist = ids }),
  refl,
  (ground (arith, o id, ==_refl id), ground (arith, o id, ==_refl id), λ j. ground (arith, o j)),
)

pub id_pool_alloc-Fresh :
    (p : IdPool) (live : List ℕ)
    → IsOwned p live
    → p.max_id + 1 < 2 ^ 31
    → (r : ℕ × IdPool) × (id_pool_alloc p ≡ some r) × Fresh p live r
unfolding id_pool_alloc
id_pool_alloc-Fresh p live o h = pop_id-Fresh p p.freelist live o h

-- An id that is live is in range.
pub owned-known :
    (p : IdPool) (live : List ℕ) (id : ℕ) → IsOwned p (id ∷ live) → refuses p id ≡ false
owned-known p live id o = ground (arith, o id, ==_refl id)

pub id_pool_free-IsOwned :
    (p : IdPool) (live : List ℕ) (id : ℕ) → IsOwned p (id ∷ live) → IsOwned (id_pool_free p id) live
unfolding id_pool_free
id_pool_free-IsOwned p live id o =
    let known : refuses p id ≡ false = owned-known p live id o in
    rw known (λ j. ground (arith, o j))

-- While fewer than 2 ^ 31 - 1 ids were made, `id_pool_alloc` gives an id above 0 that no one holds,
-- and `id_pool_free` of an id that is held takes it back, so that ids that are live stay different
-- from each other.
pub id_pool-IsOwned :
    (p : IdPool) (live : List ℕ) (id : ℕ)
    → IsOwned p (id ∷ live)
    → p.max_id + 1 < 2 ^ 31
    → ((r : ℕ × IdPool) × (id_pool_alloc p ≡ some r) × Fresh p (id ∷ live) r)
      × IsOwned (id_pool_free p id) live
id_pool-IsOwned p live id o h =
    (id_pool_alloc-Fresh p (id ∷ live) o h, id_pool_free-IsOwned p live id o)
