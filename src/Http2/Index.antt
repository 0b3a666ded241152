-- ===== src/Http2/Index.antt =====
-- luaclib-src/lhttp.c: how the decoder finds an indexed field in the two tables.
pub mod Total
use silly.Common.{
  ℕ, ◌-◌, ◌≤◌, List, [], ◌∷◌, Option, none, some, ltb, leb, ◌==◌, if◌then◌else◌, ◌>>=◌, length,
}
use silly.Common.Int.{ℤ, pos, negsuc}
use silly.Http2.Table.{Field, Hpack, dynamic_index, static_tbl_size}
use silly.Http2.Varint.{write_varint, read_varint}

-- What the tables have at an index: a string, which is a key, or a table with a key and a value.
pub data Entry : Type 0 where
  name : List ℕ → Entry
  pair : Field → Entry

-- The outer `none` is a failed `assert`, the inner one the return value -1.
abbrev pub Found : Type 0 → Type 0
Found A = Option (Option A)

-- The entry of the dynamic table at an `id` behind the static one.
unfoldable pub dynamic_entry : Hpack → ℕ → Found Entry
dynamic_entry h id =
    if ltb (h.queue_head - h.queue_tail) (id - static_tbl_size)
    then some none
    else (dynamic_index h id >>= λ idx. some (h.dyna idx >>= λ f. some (pair f)))

-- The encoder's side.
unfoldable pub write_index_kv : ℕ → List ℕ
unfolding write_varint
write_index_kv id = write_varint 1 id 7

-- `stat` is the table that create_static_table fills: it has an entry at 1 to 61 and at no other
-- index.
module _ (stat : ℕ → Option Entry) where
  unfoldable pub find_entry : Hpack → ℤ → Found Entry
  unfolding dynamic_entry
  find_entry h (negsuc n) = some none
  find_entry h (pos id) =
      if id == 0
      then some none
      else if leb id static_tbl_size
      then some (stat id)
      else dynamic_entry h id

  abbrev pub key_of : Entry → List ℕ
  key_of (name k) = k
  key_of (pair f) = f.key

  abbrev pub value_of : Entry → List ℕ
  value_of (name k) = []
  value_of (pair f) = f.value

  unfoldable pub push_ik : Hpack → ℤ → Found (List ℕ)
  unfolding find_entry
  push_ik h id = find_entry h id >>= λ e. some (e >>= λ x. some (key_of x))

  -- The field and the rest of the input; an integer that C leaves undefined is `none` too.
  unfoldable pub read_index_kv : Hpack → ℕ → List ℕ → Found (Field × List ℕ)
  unfolding find_entry read_varint
  read_index_kv h flag [] = some none
  read_index_kv h flag (b ∷ p) = read_varint 7 flag (b ∷ p) >>= λ r. find_entry h r.0 >>= λ e.
      some (e >>= λ x. some (record { key = key_of x; value = value_of x }, r.2))
