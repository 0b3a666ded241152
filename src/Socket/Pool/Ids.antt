-- ===== src/Socket/Pool/Ids.antt =====
-- The ids of sockets: an id names one slot while it is open, and none once it is closed.
use silly.Common.{
  ℕ, zero, suc, ◌+◌, ◌%◌, ◌^◌, ◌<◌, ◌≡◌, ◌⊎◌, inl, inr, refl, sym, ap, subst, ◌∙◌, List, [], ◌∷◌,
  ◌++◌, Option, none, some, true, false, not, ◌&&◌, arith, ltb, if◌then◌else◌, update, update_all,
  count, count-append, ==_refl, ==-eq-false,
}
use native.Mathlib.Decide.{ℕ_discrete}
use silly.Socket.State.{Kind, Socket, Manager, pool_size}
use silly.Socket.Pool.{
  at, put, make_sid, slots_from, socket_default, pool_init, take_slot, pool_alloc, wlist_empty,
  pool_free, has_sid, sid_is, pool_get,
}

-- A slot without an id, or with the id of its version.
abbrev pub IsId : Option ℕ → ℕ → Type 0
IsId none n = Unit
IsId (some k) n = k ≡ n

-- How often a slot stands in the free list.
abbrev pub free_count : Manager → ℕ → ℕ
free_count ss i = if ltb i pool_size && not (has_sid (at ss i)) then 1 else 0

-- The free list holds each slot that has no id once, and nothing else.
pub record IsPool (ss : Manager) : Type 0 where
  pub frees :
      (i : ℕ) → count i ss.free ≡ (if ltb i pool_size && not (has_sid (at ss i)) then 1 else 0)
  pub ids : (i : ℕ) → IsId (at ss i).sid (make_sid (at ss i).version i)

count-slots_from :
    (j i k : ℕ) → count j (slots_from i k) ≡ (if ltb j (i + k) && not (ltb j i) then 1 else 0)
unfolding slots_from
count-slots_from j i zero = ground arith
count-slots_from j i (suc k) = ground (arith, count-slots_from j (i + 1) k)

-- `pool_init` frees every slot, once.
pub pool_init-IsPool : (ss : Manager) → IsPool (pool_init ss)
unfolding pool_init socket_default
pool_init-IsPool ss = record {
  frees = λ i. count-slots_from i 0 pool_size ∙ ground arith;
  ids = λ i. tt;
}

abbrev pub filled : Manager → ℕ → List ℕ → Option ℕ → Kind → Manager
filled ss i is fd kind =
    put (record ss { free = is }) i
      (record (at ss i) { fd = fd; kind = kind; sid = some (make_sid (at ss i).version i) })

pub filled-IsPool :
    (ss : Manager) (i : ℕ) (is : List ℕ) (fd : Option ℕ) (kind : Kind)
    → ((j : ℕ) → count j (i ∷ is) ≡ free_count ss j)
    → IsPool ss
    → IsPool (filled ss i is fd kind)
filled-IsPool ss i is fd kind f v = record {
  frees = λ j. elim (ℕ_discrete i j) [
    | yes e ↦
        subst (λ q. count q is ≡ free_count (filled ss i is fd kind) q) e
          (rw (==_refl i) (ground (arith, f i)))
    | no ne ↦
        rw (==-eq-false i j ne)
          (let h : count j is ≡ free_count ss j = rw (==-eq-false i j ne) at (f j) in h)
  ];
  ids =
      update_all (λ j (s : Socket). IsId s.sid (make_sid s.version j)) ss.slots i _ refl
        (λ j ne. v.ids j);
}

-- The result of `pool_get` on the slot `q` and the id that is asked for.
abbrev found : Option ℕ → ℕ → ℕ → Option ℕ
found sid id q = if sid_is sid id then some q else none

-- A lookup does not see that a slot changes, if it finds as much in that slot as before.
found-update :
    (slots : ℕ → Socket) (i id q : ℕ) (s : Socket)
    → found s.sid id i ≡ found (slots i).sid id i
    → found (update slots i s q).sid id q ≡ found (slots q).sid id q
found-update slots i id q s h = elim (ℕ_discrete i q) [
  | yes e ↦
      subst (λ q. found (update slots i s q).sid id q ≡ found (slots q).sid id q) e
        (rw (==_refl i) h)
  | no ne ↦ rw (==-eq-false i q ne)
]

found_new :
    (slots : ℕ → Socket) (i id q : ℕ) (s : Socket)
    → s.sid ≡ some id
    → q ≡ i
    → found (update slots i s q).sid id q ≡ some i
found_new slots i id q s h e =
    subst (λ q. found (update slots i s q).sid id q ≡ some i) (sym e)
      (rw (==_refl i, h, ==_refl id))

no_sid : (s : Option ℕ) → elim s [ none ↦ false | some id ↦ true ] ≡ false → s ≡ none
no_sid none h = refl
no_sid (some id) h = cc

make_sid-slot : (v i : ℕ) → i < 65536 → make_sid v i % 65536 ≡ i
make_sid-slot v i h = omega arith

-- What an allocation ends with: a slot of the pool that had no id, the pool in order, the id found,
-- and other ids found or not as before.
abbrev pub Opens : Manager → Option ℕ → Kind → ℕ → Manager → Type 0
Opens ss fd kind i ss' =
    (i < pool_size)
    × ((at ss i).sid ≡ none)
    × IsPool ss'
    × ((at ss' i).fd ≡ fd)
    × (pool_get ss' (make_sid (at ss i).version i) ≡ some i)
    × ((id : ℕ) → (id ≡ make_sid (at ss i).version i) ⊎ (pool_get ss' id ≡ pool_get ss id))

filled-Opens :
    (ss : Manager) (i : ℕ) (is : List ℕ) (fd : Option ℕ) (kind : Kind)
    → ((j : ℕ) → count j (i ∷ is) ≡ free_count ss j)
    → IsPool ss
    → Opens ss fd kind i (filled ss i is fd kind)
unfolding pool_get
filled-Opens ss i is fd kind f v =
    let one : suc (count i is) ≡ free_count ss i = rw (==_refl i) at (f i) in
    let small : i < 65536 = ground (arith, one) in
    let unnamed : (at ss i).sid ≡ none = no_sid (at ss i).sid (ground (arith, one)) in
    (
      small,
      unnamed,
      filled-IsPool ss i is fd kind f v,
      rw (==_refl i),
      found_new ss.slots i (make_sid (at ss i).version i) (make_sid (at ss i).version i % pool_size)
          _ refl (make_sid-slot (at ss i).version i small),
      λ id. elim (ℕ_discrete (make_sid (at ss i).version i) id) [
        | yes e ↦ inl (sym e)
        | no ne ↦ inr (
            found-update ss.slots i id (id % pool_size) _
              (rw (unnamed, ==-eq-false (make_sid (at ss i).version i) id ne)))
      ],
    )

-- `pool_alloc` fails only where no slot is free. Else it opens a free slot under an id of which
-- `pool_get` finds it, keeps the pool in order, and changes no other id.
pub pool_alloc-Opens :
    (ss : Manager) (fd : Option ℕ) (kind : Kind)
    → IsPool ss
    → ((ss.free ≡ []) × (pool_alloc ss fd kind ≡ none))
      ⊎ ((i : ℕ) × (ss' : Manager) × (pool_alloc ss fd kind ≡ some (i, ss'))
          × Opens ss fd kind i ss')
unfolding pool_alloc
pool_alloc-Opens ss fd kind v = go ss.free refl
  where
    go :
        (fs : List ℕ)
        → ss.free ≡ fs
        → ((ss.free ≡ []) × (take_slot fs ss fd kind ≡ none))
          ⊎ ((i : ℕ) × (ss' : Manager) × (take_slot fs ss fd kind ≡ some (i, ss'))
              × Opens ss fd kind i ss')
    go [] e = inl (e, refl)
    go (i ∷ is) e = inr (
      i,
      filled ss i is fd kind,
      refl,
      filled-Opens ss i is fd kind (λ j. ap (count j) (sym e) ∙ v.frees j) v,
    )

abbrev emptied : Manager → ℕ → Manager
emptied ss i =
    put (record ss { free = ss.free ++ i ∷ [] }) i
      (socket_default (record (at ss i) { version = ((at ss i).version + 1) % 2 ^ 32 }))

emptied-IsPool :
    (ss : Manager) (i : ℕ)
    → i < 65536
    → has_sid (at ss i) ≡ true
    → IsPool ss
    → IsPool (emptied ss i)
unfolding socket_default
emptied-IsPool ss i hi hs v = record {
  frees = λ j. elim (ℕ_discrete i j) [
    | yes e ↦
        subst (λ q. count q (ss.free ++ i ∷ []) ≡ free_count (emptied ss i) q) e
          (rw (==_refl i)
            (ground (arith, count-append i ss.free (i ∷ []), ==_refl i, v.frees i, hs, hi)))
    | no ne ↦
        rw (==-eq-false i j ne)
          (ground (arith, count-append j ss.free (i ∷ []), ==-eq-false i j ne, v.frees j))
  ];
  ids =
      update_all (λ j (s : Socket). IsId s.sid (make_sid s.version j)) ss.slots i _ tt
        (λ j ne. v.ids j);
}

id_of : {s : Option ℕ} (n id : ℕ) → IsId s n → s ≡ some id → id ≡ n
id_of n id h e = subst (λ s. IsId s n) e h

found-none :
    (slots : ℕ → Socket) (i id q : ℕ) (s : Socket)
    → s.sid ≡ none
    → q ≡ i
    → found (update slots i s q).sid id q ≡ none
found-none slots i id q s h e =
    subst (λ q. found (update slots i s q).sid id q ≡ none) (sym e) (rw (==_refl i, h))

-- What a free ends with: the pool in order, the slot under its next version, its id found no more,
-- and other ids found or not as before.
abbrev pub Shuts : Manager → ℕ → ℕ → Manager → Type 0
Shuts ss i id ss' =
    IsPool ss'
    × ((at ss' i).version ≡ ((at ss i).version + 1) % 2 ^ 32)
    × (pool_get ss' id ≡ none)
    × ((other : ℕ) → (other ≡ id) ⊎ (pool_get ss' other ≡ pool_get ss other))

-- `pool_free` of an open socket of the pool with nothing left to write does not fail: the pool stays
-- in order, the slot has its next version, `pool_get` finds the old id no more, and finds any other
-- as before.
pub pool_free-Shuts :
    (ss : Manager) (i id : ℕ)
    → IsPool ss
    → i < 65536
    → (at ss i).sid ≡ some id
    → wlist_empty (at ss i) ≡ true
    → (ss' : Manager) × (pool_free ss i ≡ some ss') × Shuts ss i id ss'
unfolding pool_free pool_get socket_default
pool_free-Shuts ss i id v hi hs he =
    let named : id ≡ make_sid (at ss i).version i =
      id_of (make_sid (at ss i).version i) id (v.ids i) hs in
    let slot : id % 65536 ≡ i = omega arith in
    (
      emptied ss i,
      rw he,
      (
        emptied-IsPool ss i hi (rw (has_sid, hs)) v,
        rw (==_refl i),
        found-none ss.slots i id (id % pool_size) _ refl slot,
        λ other. elim (ℕ_discrete id other) [
          | yes e ↦ inl (sym e)
          | no ne ↦ inr (
              found-update ss.slots i other (other % pool_size) _
                (rw (hs, ==-eq-false id other ne)))
        ],
      ),
    )
