-- ===== src/Queue/Fifo.antt =====
-- The queue read as the list of its values.
use silly.Common.{
  ℕ, zero, suc, ◌+◌, ◌*◌, ◌/◌, ◌≤◌, ◌<◌, ◌≡◌, ◌≢◌, ◌-◌, ◌^◌, ◌&&◌, subst, length, drop,
  length-append, length-take, length-drop, drop-append_left, drop-drop, drop_all, take_all, ◌⊎◌,
  inl, inr, refl, sym, ap, ap₂, ◌∙◌, List, [], ◌∷◌, ◌++◌, map, Option, none, some, true, arith, ltb,
  leb, ◌==◌, if◌then◌else◌, update, count, count-append, Bool-cases, ==_refl, ==-eq-false, lt→ltb,
}
use native.Mathlib.Decide.{dec_lt}
use silly.Buffer.{id_pool_free}
use silly.Buffer.Laws.Ids.{IsOwned, owned-known, id_pool_alloc-Fresh, id_pool_free-IsOwned}
use silly.Queue.{
  Queue, write_index, qsize, refs, int_max, grow, expand, compact, grow_full, make_room, store,
  lpush, pop_ref, lpop,
}

-- The values from the front to the back.
abbrev pub values : Queue → List (Option ℕ)
values q = map q.objects (refs q)

-- The ids between the two indices are those that the pool has given out, each once.
abbrev pub IsQueue : Queue → Type 0
IsQueue q = (q.readi ≤ write_index q) × IsOwned q.idx (refs q)

map-update :
    (f : ℕ → Option ℕ) (i : ℕ) (v : Option ℕ) (refs : List ℕ)
    → count i refs ≡ 0
    → map (update f i v) refs ≡ map f refs
map-update f i v [] h = refl
map-update f i v (r ∷ rs) h =
    let other : i ≢ r = λ e. ground (arith, h, e) in
    let none_behind : count i rs ≡ 0 = ground (arith, h) in
    rw (==-eq-false i r other) (ap (λ xs. f r ∷ xs) (map-update f i v rs none_behind))

map-append : (f : ℕ → Option ℕ) (xs : List ℕ) (i : ℕ) → map f (xs ++ i ∷ []) ≡ map f xs ++ f i ∷ []
map-append f [] i = refl
map-append f (x ∷ xs) i = ap (λ ys. f x ∷ ys) (map-append f xs i)

grow-enough : (k cap need : ℕ) → 0 < cap → need ≤ cap + k → need ≤ grow k cap need
unfolding grow
grow-enough zero cap need p h = omega arith
grow-enough (suc k) cap need p h = elim (Bool-cases (ltb cap need)) [
  | inl e ↦ rw e (grow-enough k (cap * 2) need (omega arith) (omega arith))
  | inr e ↦ rw e (ground arith)
]

-- What making room leaves: the same cells and values, and a free place.
abbrev Room : Queue → Queue → Type 0
Room q q' =
    (refs q' ≡ refs q)
    × (q'.readi ≤ write_index q')
    × (q'.objects ≡ q.objects)
    × (q'.idx ≡ q.idx)
    × (write_index q' < q'.bufcap)

expand-Room :
    (q : Queue)
    → q.readi ≤ write_index q
    → write_index q + 1 < int_max / 2
    → (q' : Queue) × (expand q (write_index q + 1) ≡ some q') × Room q q'
unfolding expand
expand-Room q w h =
    let cap : ℕ = if q.bufcap == 0 then 8 else q.bufcap in
    let fits : ltb (write_index q + 1) (int_max / 2) ≡ true =
      lt→ltb (write_index q + 1) (int_max / 2) h in
    let start : 0 < cap = ground arith in
    let enough : write_index q + 1 ≤ grow (write_index q + 1) cap (write_index q + 1) =
      grow-enough (write_index q + 1) cap (write_index q + 1) start (omega arith) in
    (
      record q { bufcap = grow (write_index q + 1) cap (write_index q + 1) },
      rw fits refl,
      (refl, w, refl, refl, omega (arith, enough)),
    )

-- `compact` keeps the cells from `readi` to `writei`, at the front.
refs-compact : (q : Queue) → refs (compact q) ≡ refs q
unfolding compact
refs-compact q = elim (Bool-cases (ltb 0 (qsize q) && ltb 0 q.readi)) [
  | inl e ↦ rw e
  | inr e ↦ elim (dec_lt 0 q.readi) [
    | yes p ↦
        let none_left : length q.buf - q.readi ≡ 0 = ground arith in
        rw (e, none_left) (sym (drop_all q.readi q.buf (omega arith)))
    | no p ↦
        let start : q.readi ≡ 0 = omega arith in
        rw (e, start) (take_all (length q.buf - 0) q.buf (omega arith))
  ]
]

compact-shorter : (q : Queue) → write_index (compact q) ≤ write_index q
unfolding compact
compact-shorter q = elim (Bool-cases (ltb 0 (qsize q) && ltb 0 q.readi)) [
  | inl e ↦ rw e (omega (arith, length-drop q.readi q.buf))
  | inr e ↦ rw e (omega (arith, length-take (qsize q) q.buf))
]

compact-same : (q : Queue) → ((compact q).objects ≡ q.objects) × ((compact q).idx ≡ q.idx)
unfolding compact
compact-same q = (refl, refl)

compact-front : (q : Queue) → (compact q).readi ≤ write_index (compact q)
unfolding compact
compact-front q = omega arith

Room-compact : (q q' : Queue) → Room (compact q) q' → Room q q'
Room-compact q q' (r, w, o, i, room) =
    let (co, ci) = compact-same q in (r ∙ refs-compact q, w, o ∙ co, i ∙ ci, room)

grow_full-Room :
    (q : Queue)
    → q.readi ≤ write_index q
    → write_index q + 1 < int_max / 2
    → (q' : Queue) × (grow_full q ≡ some q') × Room q q'
unfolding grow_full
grow_full-Room q w h = elim (Bool-cases (leb q.bufcap (write_index q))) [
  | inr room ↦ (q, rw room, (refl, w, refl, refl, ground arith))
  | inl full ↦ let (q', e, m) = expand-Room q w h in (q', rw full e, m)
]

make_room-Room :
    (q : Queue)
    → q.readi ≤ write_index q
    → write_index q + 1 < int_max / 2
    → (q' : Queue) × (make_room q ≡ some q') × Room q q'
unfolding make_room
make_room-Room q w h = elim (Bool-cases (leb q.bufcap (write_index q) && ltb 0 q.readi)) [
  | inr e ↦ let (q', g, m) = grow_full-Room q w h in (q', rw e g, m)
  | inl e ↦
      let (q', g, m) =
        grow_full-Room (compact q) (compact-front q) (omega (arith, compact-shorter q)) in
      (q', rw e g, Room-compact q q' m)
]

-- What a push ends with.
abbrev pub Pushes : Queue → ℕ → Queue → Type 0
Pushes q v q' = (values q' ≡ values q ++ some v ∷ []) × IsQueue q'

store-Pushes :
    (q : Queue) (v : ℕ)
    → write_index q < q.bufcap
    → q.idx.max_id + 1 < 2 ^ 31
    → IsQueue q
    → (q' : Queue) × (store q v ≡ some q') × Pushes q v q'
unfolding store
store-Pushes q v h few (w, o) =
    let (r, alloc, (new, pos, own)) = id_pool_alloc-Fresh q.idx (refs q) o few in
    let room : ltb (write_index q) q.bufcap ≡ true = lt→ltb (write_index q) q.bufcap h in
    let objects : ℕ → Option ℕ = update q.objects r.0 (some v) in
    let cells : drop q.readi (q.buf ++ r.0 ∷ []) ≡ refs q ++ r.0 ∷ [] =
      drop-append_left q.readi q.buf (r.0 ∷ []) w in
    (
      record q { idx = r.1; buf = q.buf ++ r.0 ∷ []; objects = objects },
      rw (alloc, room) refl,
      (
        ap (map objects) cells
            ∙ map-append objects (refs q) r.0
            ∙ ap₂ (λ xs (y : Option ℕ). xs ++ y ∷ [])
                (map-update q.objects r.0 (some v) (refs q) new) (rw (==_refl r.0) refl),
        (
          omega (arith, length-append q.buf (r.0 ∷ [])),
          subst (IsOwned r.1) (sym cells)
              (λ j. ground (arith, own j, count-append j (refs q) (r.0 ∷ []))),
        ),
      ),
    )

-- What a pop ends with: the front value, or nil of an empty queue.
abbrev pub Pops : Queue → Type 0
Pops q =
    ((values q ≡ []) × (lpop q ≡ some (none, q)))
    ⊎ ((v : Option ℕ) × (q' : Queue) × (lpop q ≡ some (v, q'))
        × (values q ≡ v ∷ values q')
        × IsQueue q')

-- A queue whose first cell is `ref` has it behind the index that is read.
first-inside :
    (i ref : ℕ) (buf rest : List ℕ)
    → drop i buf ≡ ref ∷ rest
    → (i < length buf) × (drop (i + 1) buf ≡ rest)
first-inside i ref buf rest e = (
  omega (arith, length-drop i buf, ap (λ (xs : List ℕ). length xs) e),
  sym (drop-drop i 1 buf) ∙ ap (λ (xs : List ℕ). drop 1 xs) e,
)

pop_ref-Pops :
    (q : Queue) (cells : List ℕ)
    → refs q ≡ cells
    → IsOwned q.idx cells
    → ((map q.objects cells ≡ []) × (pop_ref q cells ≡ some (none, q)))
      ⊎ ((v : Option ℕ) × (q' : Queue) × (pop_ref q cells ≡ some (v, q'))
          × (map q.objects cells ≡ v ∷ values q')
          × IsQueue q')
unfolding pop_ref
pop_ref-Pops q [] e o = inl (refl, refl)
pop_ref-Pops q (ref ∷ rest) e o =
    let gone : count ref rest ≡ 0 = ground (arith, o ref, ==_refl ref) in
    let (inside, behind) = first-inside q.readi ref q.buf rest e in
    inr (
      q.objects ref,
      record q {
        idx = id_pool_free q.idx ref;
        readi = q.readi + 1;
        objects = update q.objects ref none;
      },
      rw (owned-known q.idx rest ref o) refl,
      ap (λ xs. q.objects ref ∷ xs)
          (sym (
            ap (map (update q.objects ref none)) behind ∙ map-update q.objects ref none rest gone)),
      (
        omega (arith, inside),
        subst (IsOwned (id_pool_free q.idx ref)) (sym behind)
            (id_pool_free-IsOwned q.idx rest ref o),
      ),
    )

-- The queue is first in, first out: `lpush` puts a value at the back, growing or compacting the
-- array where it is full, and `lpop` takes the one at the front, or nil of an empty queue; both
-- keep the ids of the values apart, and neither fails below 2 ^ 30 - 2 writes and 2 ^ 31 - 1 ids.
pub queue-fifo :
    (q : Queue) (v : ℕ)
    → IsQueue q
    → write_index q + 1 < int_max / 2
    → q.idx.max_id + 1 < 2 ^ 31
    → ((q' : Queue) × (lpush q v ≡ some q') × Pushes q v q') × Pops q
unfolding lpush lpop
queue-fifo q v (w, o) h few =
    let (mid, e, (rs, low, os, ix, room)) = make_room-Room q w h in
    let small : ltb (write_index q) int_max ≡ true = lt→ltb (write_index q) int_max (omega arith) in
    let (q', e', p) = store-Pushes mid v room (rw ix few) (low, rw (ix, rs) o) in
    ((q', rw (small, e) e', (p.0 ∙ rw (os, rs) refl, p.1)), pop_ref-Pops q (refs q) refl o)
