-- ===== src/Http2/Table.antt =====
-- luaclib-src/lhttp.c: the dynamic table of HPACK, which the encoder and the decoder share.
pub mod Held
pub mod Prune
pub mod Refine
pub mod Adding
use silly.Common.{
  ℕ, zero, suc, ◌+◌, ◌-◌, ◌/◌, ◌^◌, List, [], ◌∷◌, ◌++◌, Option, none, some, Bool, true, false,
  ◌&&◌, ltb, leb, ◌==◌, if◌then◌else◌, length, update, ◌>>=◌, assert,
}

abbrev pub static_tbl_size : ℕ
static_tbl_size = 61

-- A table at an index: the two strings of a header field.
pub record Field : Type 0 where
  pub key : List ℕ
  pub value : List ℕ

-- `struct hpack` with the Lua table of its user value, of which `dyna` is the part at integers and
-- `ids` the part at strings.
pub record Hpack : Type 0 where
  pub hard_limit : ℕ
  pub soft_limit : ℕ
  pub table_size : ℕ
  pub queue_head : ℕ
  pub queue_tail : ℕ
  pub queue_used_min : ℕ
  pub evict_count : ℕ
  pub dyna : ℕ → Option Field
  pub ids : List (List ℕ × ℕ)

unfoldable pub field_size : Field → ℕ
field_size f = length f.key + length f.value + 32

-- `queue_used_min` is not set here: it is what the memory held.
unfoldable pub lhpack_new : ℕ → ℕ → Hpack
lhpack_new limit old = record {
  hard_limit = limit;
  soft_limit = limit;
  table_size = 0;
  queue_head = 1;
  queue_tail = 1;
  queue_used_min = old;
  evict_count = 0;
  dyna = λ i. none;
  ids = [];
}

-- The first line of `lhpack_pack` and `lhpack_unpack` that changes it: no entry is in use yet.
unfoldable pub begin_block : Hpack → Hpack
begin_block h = record h { queue_used_min = h.queue_head }

-- The position of an entry, counted from the newest behind the static table, and back; `none` is a
-- failed `assert`.
unfoldable pub dynamic_id : Hpack → ℕ → Option ℕ
dynamic_id h idx = assert (ltb idx h.queue_head) (some (h.queue_head - idx + static_tbl_size))

unfoldable pub dynamic_index : Hpack → ℕ → Option ℕ
dynamic_index h id =
    assert (ltb (id - static_tbl_size) h.queue_head) (some (h.queue_head - (id - static_tbl_size)))

-- `push_kv`: the key, ": " and the value.
unfoldable pub push_kv : Field → List ℕ
push_kv f = f.key ++ 58 ∷ 32 ∷ f.value

unfoldable pub same_bytes : List ℕ → List ℕ → Bool
same_bytes [] [] = true
same_bytes (x ∷ xs) (y ∷ ys) = (x == y) && same_bytes xs ys
same_bytes _ _ = false

-- The assignments of nil and of an index at a string.
unfoldable pub clear_id : List ℕ → List (List ℕ × ℕ) → List (List ℕ × ℕ)
unfolding same_bytes
clear_id kv [] = []
clear_id kv ((s, idx) ∷ r) = if same_bytes s kv then clear_id kv r else (s, idx) ∷ clear_id kv r

unfoldable pub set_id : List ℕ → ℕ → List (List ℕ × ℕ) → List (List ℕ × ℕ)
unfolding clear_id
set_id kv idx ids = (kv, idx) ∷ clear_id kv ids

-- The body of the loop of `prune` on an entry: it moves from `i` to `idx`.
unfoldable pub move : Hpack → ℕ → ℕ → Field → Hpack
unfolding push_kv set_id
move h i idx f = record h {
  dyna = update (update h.dyna idx (some f)) i none;
  ids = set_id (push_kv f) idx h.ids;
}

-- Its loop, with the rounds left; an index with no entry makes Lua raise an error.
unfoldable pub prune_loop : ℕ → Hpack → ℕ → ℕ → Option (Hpack × ℕ)
unfolding move
prune_loop zero h i idx = some (h, idx)
prune_loop (suc n) h i idx = h.dyna i >>= λ f. prune_loop n (move h i (idx + 1) f) (i + 1) (idx + 1)

unfoldable pub prune : Hpack → Option Hpack
unfolding prune_loop
prune h = prune_loop (h.queue_head - h.queue_tail) h h.queue_tail 0 >>= λ r. some (record r.0 {
  queue_used_min = r.0.queue_used_min - (r.0.queue_tail - 1);
  queue_tail = 1;
  queue_head = r.1 + 1;
  evict_count = 0;
})

-- The body of the loop of `try_evict` on the oldest entry.
unfoldable pub evict : Hpack → Field → Hpack
unfolding push_kv clear_id field_size
evict h f = record h {
  dyna = update h.dyna h.queue_tail none;
  ids = clear_id (push_kv f) h.ids;
  queue_tail = h.queue_tail + 1;
  evict_count = h.evict_count + 1;
  table_size = h.table_size - field_size f;
}

-- Its loop, with the rounds left; `none` is a failed `assert`.
unfoldable pub evict_loop : ℕ → Hpack → Option Hpack
unfolding evict
evict_loop zero h = some h
evict_loop (suc n) h = h.dyna h.queue_tail >>= λ f. evict_loop n (evict h f)

unfoldable pub try_prune : Hpack → Option Hpack
unfolding prune
try_prune h =
    if ltb (h.queue_head / 2) h.evict_count && ltb 64 h.evict_count then prune h else some h

unfoldable pub has_room : Hpack → ℕ → Bool
has_room h left = leb (h.table_size + left) h.soft_limit

unfoldable pub try_evict : Hpack → ℕ → Option (Hpack × Bool)
unfolding evict_loop try_prune has_room
try_evict h left =
    if has_room h left
    then some (h, true)
    else (evict_loop (h.queue_used_min - h.queue_tail) h >>= λ g.
        try_prune g >>= λ p. some (p, has_room p left))

-- `add_to_table` with room for the field.
unfoldable pub append_field : Hpack → Field → Hpack
unfolding push_kv set_id field_size
append_field h f = record h {
  queue_head = h.queue_head + 1;
  dyna = update h.dyna h.queue_head (some f);
  ids = set_id (push_kv f) h.queue_head h.ids;
  table_size = h.table_size + field_size f;
}

-- `fsz` is an `int`: a field of 2^31 bytes or more is the fault `none` here.
unfoldable pub add_to_table : Hpack → Field → Option (Hpack × Bool)
unfolding try_evict append_field
add_to_table h f = assert (ltb (field_size f) (2 ^ 31)) (
    try_evict h (field_size f) >>= λ r.
    if r.1 then some (append_field r.0 f, true) else some (r.0, false))

unfoldable pub lhpack_hardlimit : Hpack → ℕ → Option Hpack
unfolding try_evict
lhpack_hardlimit h limit =
    try_evict (record h { hard_limit = limit; soft_limit = limit }) 0 >>= λ r. some r.0
