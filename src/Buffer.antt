-- ===== src/Buffer.antt =====
-- luaclib-src/adt/lbuffer.c: bytes appended in nodes and read by count or up to a delimiter.
-- `nodes` are those from `readi` to `writei`, and `none` is a failed `assert`.
pub mod Read
pub mod Laws
mod Tests
use silly.Common.{
  ℕ, zero, suc, ◌+◌, ◌-◌, ◌*◌, ◌/◌, ◌^◌, max, List, [], ◌∷◌, ◌++◌, Option, none, some, Bool, true,
  false, ◌&&◌, ◌||◌, not, ltb, leb, ◌==◌, if◌then◌else◌, assert, ◌>>=◌, length,
}

-- `struct node`; a `ref` of 0 is none. A Lua string that is referred to is its bytes.
pub record Node : Type 0 where
  pub ref : ℕ
  pub bytes : ℕ
  pub buff : List ℕ

-- `struct id_pool`, its stack with the top first.
pub record IdPool : Type 0 where
  pub freelist : List ℕ
  pub max_id : ℕ

-- `struct buffer`
pub record Buffer : Type 0 where
  pub bytes : ℕ
  pub cap : ℕ
  pub readi : ℕ
  pub delim : ℕ
  pub delim_last_checki : ℕ
  pub offset : ℕ
  pub nodes : List Node
  pub idx : IdPool

abbrev pub writei : Buffer → ℕ
writei b = b.readi + length b.nodes

-- The id of `id_pool_alloc`: the top of the stack, or a new one where that is empty; `none` is the
-- overflow of the `int max_id`.
unfoldable pub pop_id : IdPool → List ℕ → Option (ℕ × IdPool)
pop_id p [] =
    assert (ltb (p.max_id + 1) (2 ^ 31))
      (some (p.max_id + 1, record { freelist = []; max_id = p.max_id + 1 }))
pop_id p (id ∷ ids) = some (id, record p { freelist = ids })

unfoldable pub id_pool_alloc : IdPool → Option (ℕ × IdPool)
unfolding pop_id
id_pool_alloc p = pop_id p p.freelist

-- An id out of range is refused.
abbrev pub refuses : IdPool → ℕ → Bool
refuses p id = ltb id 1 || ltb p.max_id id

unfoldable pub id_pool_free : IdPool → ℕ → IdPool
id_pool_free p id = if refuses p id then p else record p { freelist = id ∷ p.freelist }

-- The table `log_2` has the count of bits of its index.
unfoldable pub bits : ℕ → ℕ → ℕ
bits zero x = 0
bits (suc k) x = let rest = bits k (x / 2) in if x == 0 then 0 else suc rest

-- The loop of `ceillog2`, at most four rounds for an `unsigned int`.
unfoldable pub log2_loop : ℕ → ℕ → ℕ
unfolding bits
log2_loop zero x = bits 8 x
log2_loop (suc k) x = let rest = 8 + log2_loop k (x / 256) in if leb 256 x then rest else bits 8 x

unfoldable pub ceillog2 : ℕ → ℕ
unfolding log2_loop
ceillog2 x = log2_loop 4 (x - 1)

-- NB_INIT_EXP
abbrev pub nb_init_exp : ℕ
nb_init_exp = 6

-- `sizeof(struct node)`
abbrev pub node_size : ℕ
node_size = 16

-- The live nodes move to the front; `none` is the overflow of the `int`s `cap` and `need`.
unfoldable pub buffer_expand : Buffer → Option Buffer
buffer_expand b =
    let cap = 2 ^ max (ceillog2 (length b.nodes + 1)) nb_init_exp in
    assert (ltb (node_size * cap) (2 ^ 31))
      (some (record b { cap = cap; readi = 0; delim_last_checki = b.delim_last_checki - b.readi }))

-- `buffer_append` with the node that `push_data` writes into the place.
unfoldable pub buffer_append : Buffer → Node → Option Buffer
unfolding buffer_expand
buffer_append b n = (if leb b.cap (writei b) then buffer_expand b else some b) >>= λ b'.
    assert (ltb (writei b') b'.cap) (some (record b' { nodes = b'.nodes ++ n ∷ [] }))

-- `b->bytes` is an `int`, as is `sz`; `none` is also its overflow.
unfoldable pub push_data : Buffer → List ℕ → ℕ → Option Buffer
unfolding buffer_append
push_data b bs ref = buffer_append b (record { ref = ref; bytes = length bs; buff = bs }) >>= λ b'.
    assert (ltb (b'.bytes + length bs) (2 ^ 31)) (some (record b' { bytes = b'.bytes + length bs }))

-- An argument of `lappend`: a string, or a pointer with its length; any other is an error.
pub data Arg : Type 0 where
  string : List ℕ → Arg
  pointer : List ℕ → Arg

abbrev pub is_nil : List ℕ → Bool
is_nil [] = true
is_nil (x ∷ xs) = false

unfoldable pub append_one : Buffer → Arg → Option Buffer
unfolding push_data id_pool_alloc
append_one b (string s) =
    if is_nil s
    then some b
    else (id_pool_alloc b.idx >>= λ r. push_data (record b { idx = r.1 }) s r.0)
append_one b (pointer s) = if is_nil s then some b else push_data b s 0

unfoldable pub lappend : Buffer → List Arg → Option Buffer
unfolding append_one
lappend b [] = some b
lappend b (x ∷ xs) = append_one b x >>= λ b'. lappend b' xs

-- `node_destroy`
unfoldable pub node_destroy : Node → Buffer → Buffer
unfolding id_pool_free
node_destroy n b = if ltb 0 n.ref then record b { idx = id_pool_free b.idx n.ref } else b

-- `reader_pop` behind its test: `n` is the head and `ns` is behind it.
unfoldable pub pop_node : Node → List Node → Buffer → Buffer
unfolding node_destroy
pop_node n ns b =
    let gone = ltb b.delim_last_checki (b.readi + 1) in
    node_destroy n (record b {
      nodes = ns;
      readi = b.readi + 1;
      offset = 0;
      delim = if gone then 0 else b.delim;
      delim_last_checki = if gone then b.readi + 1 else b.delim_last_checki;
    })

-- The loop of `reader_consume`.
unfoldable pub consume_loop : List Node → ℕ → Buffer → Option Buffer
unfolding pop_node
consume_loop [] size b = if size == 0 then some b else none
consume_loop (n ∷ ns) size b =
    let rest = consume_loop ns (size - n.bytes) (pop_node n ns b) in
    if size == 0
    then some b
    else if ltb size n.bytes
    then some
        (record b { nodes = record n { bytes = n.bytes - size } ∷ ns; offset = b.offset + size })
    else rest

unfoldable pub reader_consume : Buffer → ℕ → Option Buffer
unfolding consume_loop
reader_consume b size = consume_loop b.nodes size b >>= λ b'.
    assert (leb size b'.bytes) (some (record b' { bytes = b'.bytes - size }))

-- The nodes of a list destroyed one after another.
unfoldable pub destroy_all : List Node → Buffer → Buffer
unfolding node_destroy
destroy_all [] b = b
destroy_all (n ∷ ns) b = destroy_all ns (node_destroy n b)

unfoldable pub clear : Buffer → Buffer
unfolding destroy_all
clear b = record (destroy_all b.nodes b) {
  bytes = 0;
  offset = 0;
  delim = 0;
  delim_last_checki = 0;
  readi = 0;
  nodes = [];
}

-- `lnew`, and `lsize`.
abbrev pub new_buffer : Buffer
new_buffer = record {
  bytes = 0;
  cap = 0;
  readi = 0;
  delim = 0;
  delim_last_checki = 0;
  offset = 0;
  nodes = [];
  idx = record { freelist = []; max_id = 0 };
}

abbrev pub lsize : Buffer → ℕ
lsize b = b.bytes
