-- ===== src/Queue.antt =====
-- luaclib-src/adt/lqueue.c: a queue of Lua values, kept in a table by reference ids.
pub mod Fifo
mod Tests
use silly.Common.{
  ℕ, zero, suc, ◌+◌, ◌*◌, ◌/◌, ◌^◌, ◌-◌, List, [], ◌∷◌, ◌++◌, Option, none, some, Bool, true, false,
  not, ◌&&◌, ltb, leb, ◌==◌, if◌then◌else◌, assert, ◌>>=◌, length, take, drop, update,
}
use silly.Buffer.{IdPool, refuses, id_pool_alloc, id_pool_free}

-- `struct queue`; `buf` is what its array has below `writei`, and `objects` is the table of the user
-- value, where a value of Lua is a number.
pub record Queue : Type 0 where
  pub idx : IdPool
  pub readi : ℕ
  pub bufcap : ℕ
  pub buf : List ℕ
  pub objects : ℕ → Option ℕ

abbrev pub write_index : Queue → ℕ
write_index q = length q.buf

abbrev pub qsize : Queue → ℕ
qsize q = write_index q - q.readi

-- The cells from `readi` to `writei`.
abbrev pub refs : Queue → List ℕ
refs q = drop q.readi q.buf

abbrev pub int_max : ℕ
int_max = 2 ^ 31 - 1

abbrev pub initial_cap : ℕ
initial_cap = 8

-- The loop of `expand`; each round adds one to the capacity at least, so `need` rounds are enough.
unfoldable pub grow : ℕ → ℕ → ℕ → ℕ
grow zero cap need = cap
grow (suc k) cap need = let rest = grow k (cap * 2) need in if ltb cap need then rest else cap

-- `none` is the error of the Lua assertion.
unfoldable pub expand : Queue → ℕ → Option Queue
unfolding grow
expand q need =
    let cap = if q.bufcap == 0 then initial_cap else q.bufcap in
    assert (ltb need (int_max / 2)) (some (record q { bufcap = grow need cap need }))

-- After the `memmove` the array begins with the cells from `readi` on; without it the cells stay
-- where they are. Then `writei` is the count of the former.
unfoldable pub compact : Queue → Queue
compact q = record q {
  readi = 0;
  buf = if ltb 0 (qsize q) && ltb 0 q.readi then drop q.readi q.buf else take (qsize q) q.buf;
}

-- The second test of `lpush` for room.
unfoldable pub grow_full : Queue → Option Queue
grow_full q =
    let grown = expand q (write_index q + 1) in
    if leb q.bufcap (write_index q) then grown else some q

-- Both tests of `lpush` for room.
unfoldable pub make_room : Queue → Option Queue
make_room q = grow_full (if leb q.bufcap (write_index q) && ltb 0 q.readi then compact q else q)

-- The value under its new id; a write behind the array is none.
unfoldable pub store : Queue → ℕ → Option Queue
store q v = id_pool_alloc q.idx >>= λ r. assert (ltb (write_index q) q.bufcap) (
    some (record q { idx = r.1; buf = q.buf ++ r.0 ∷ []; objects = update q.objects r.0 (some v) }))

unfoldable pub lpush : Queue → ℕ → Option Queue
unfolding make_room store
lpush q v = assert (ltb (write_index q) int_max) (make_room q >>= λ q'. store q' v)

-- The value at the front, or none for nil, with the refs behind it. An id that the pool refuses is
-- an error of Lua.
unfoldable pub pop_ref : Queue → List ℕ → Option (Option ℕ × Queue)
pop_ref q [] = some (none, q)
pop_ref q (ref ∷ rest) = assert (not (refuses q.idx ref)) (
    some (
      q.objects ref,
      record q {
        idx = id_pool_free q.idx ref;
        readi = q.readi + 1;
        objects = update q.objects ref none;
      },
    ))

unfoldable pub lpop : Queue → Option (Option ℕ × Queue)
unfolding pop_ref
lpop q = pop_ref q (refs q)

-- The loop of `lclear`.
unfoldable pub free_refs : List ℕ → Queue → Queue
free_refs [] q = q
free_refs (ref ∷ rest) q =
    free_refs rest (record q { idx = id_pool_free q.idx ref; objects = update q.objects ref none })

unfoldable pub lclear : Queue → Queue
unfolding free_refs
lclear q = record (free_refs (refs q) q) { readi = 0; buf = [] }

-- `lnew`
abbrev pub new_queue : Queue
new_queue = record {
  idx = record { freelist = []; max_id = 0 };
  readi = 0;
  bufcap = 0;
  buf = [];
  objects = λ ref. none;
}
