-- ===== src/Buffer/Read.antt =====
-- The reads of a buffer: by count, and up to a delimiter.
use silly.Common.{
  ℕ, zero, suc, ◌+◌, ◌-◌, min, List, [], ◌∷◌, ◌++◌, Option, none, some, ◌&&◌, ltb, leb, ◌==◌,
  if◌then◌else◌, assert, ◌>>=◌, take, drop,
}
use silly.Buffer.{Node, Buffer, writei, reader_consume}

-- A string that is read whole is the one that was appended, if it was one of Lua.
abbrev pub read_string : Buffer → Node → ℕ → List ℕ
read_string b n size =
    if (b.offset == 0) && (n.bytes == size) && ltb 0 n.ref
    then n.buff
    else take size (drop b.offset n.buff)

unfoldable pub reader_push_single_node : Buffer → Node → ℕ → Option (List ℕ × Buffer)
reader_push_single_node b n size =
    assert (leb size n.bytes) (reader_consume b size >>= λ b'. some (read_string b n size, b'))

-- The loop of `reader_push_size`; each round reads a byte, so `size` rounds are enough.
unfoldable pub gather : ℕ → ℕ → Buffer → Option (List ℕ × Buffer)
gather fuel zero b = some ([], b)
gather zero (suc sz) b = none
gather (suc fuel) (suc sz) b = elim b.nodes [
  | [] ↦ none
  | n ∷ ns ↦
      let once = min (suc sz) n.bytes in
      reader_consume b once >>= (λ b'.
        gather fuel (suc sz - once) b'
        >>= (λ r. some (take once (drop b.offset n.buff) ++ r.0, r.1)))
]

unfoldable pub reader_push_size : Buffer → ℕ → Option (List ℕ × Buffer)
unfolding reader_push_single_node gather
reader_push_size b zero = some ([], b)
reader_push_size b (suc sz) = elim b.nodes [
  | [] ↦ none
  | n ∷ ns ↦
      let single = reader_push_single_node b n (suc sz) in
      let many = gather (suc sz) (suc sz) b in if leb (suc sz) n.bytes then single else many
]

-- What a read returns: the bytes, or none for nil.
unfoldable pub read_bytes : Buffer → ℕ → Option (Option (List ℕ) × Buffer)
unfolding reader_push_size
read_bytes b zero = some (some [], b)
read_bytes b (suc sz) =
    let found = reader_push_size b (suc sz) >>= (λ r. some (some r.0, r.1)) in
    if ltb b.bytes (suc sz) then some (none, b) else found

unfoldable pub lreadall : Buffer → Option (Option (List ℕ) × Buffer)
unfolding read_bytes
lreadall b = read_bytes b b.bytes >>= λ r. assert (r.1.bytes == 0) (some r)

-- `memchr`
unfoldable pub memchr : ℕ → List ℕ → Option ℕ
memchr c [] = none
memchr c (x ∷ xs) =
    let rest = memchr c xs >>= (λ i. some (suc i)) in if x == c then some 0 else rest

-- The loop of `buffer_find_delim` from node `ni`: where the delimiter is, and the last node checked.
unfoldable pub find_loop : ℕ → ℕ → ℕ → List Node → ℕ → Option (ℕ × ℕ) × ℕ
unfolding memchr
find_loop delim ni offset [] last = (none, last)
find_loop delim ni offset (n ∷ ns) last = elim (memchr delim (take n.bytes (drop offset n.buff))) [
  | some x ↦ (some (ni, x + 1), last)
  | none ↦ find_loop delim (ni + 1) 0 ns ni
]

abbrev pub reset_delim : Buffer → ℕ → Buffer
reset_delim b delim =
    if delim == b.delim then b else record b { delim = delim; delim_last_checki = b.readi }

unfoldable pub buffer_find_delim : Buffer → ℕ → Option (Option (ℕ × ℕ) × Buffer)
unfolding find_loop
buffer_find_delim b delim =
    let b' = reset_delim b delim in
    let offset = if b'.readi == b'.delim_last_checki then b'.offset else 0 in
    let found =
      find_loop delim b'.delim_last_checki offset (drop (b'.delim_last_checki - b'.readi) b'.nodes)
        b'.delim_last_checki in
    assert (leb b'.readi b'.delim_last_checki) (
      assert (leb b'.delim_last_checki (writei b'))
        (some (found.0, record b' { delim_last_checki = found.1 })))

-- `n` whole nodes.
unfoldable pub whole_nodes : ℕ → Buffer → Option (List ℕ × Buffer)
whole_nodes zero b = some ([], b)
whole_nodes (suc k) b = elim b.nodes [
  | [] ↦ none
  | n ∷ ns ↦
      reader_consume b n.bytes
      >>= (λ b'. whole_nodes k b' >>= (λ r. some (take n.bytes (drop b.offset n.buff) ++ r.0, r.1)))
]

-- The end of `reader_push_delim`, in the node `i`.
unfoldable pub last_node : ℕ → ℕ → List ℕ → Buffer → Option (List ℕ × Buffer)
last_node i size front b = elim b.nodes [
  | [] ↦ none
  | n ∷ ns ↦ assert (i == b.readi) (
      assert (leb size n.bytes)
        (reader_consume b size >>= (λ b'. some (front ++ take size (drop b.offset n.buff), b'))))
]

unfoldable pub reader_push_delim : Buffer → ℕ → ℕ → Option (List ℕ × Buffer)
unfolding reader_push_single_node whole_nodes last_node
reader_push_delim b i size = elim b.nodes [
  | [] ↦ none
  | n ∷ ns ↦
      let single = reader_push_single_node b n size in
      let many = whole_nodes (i - b.readi) b >>= (λ r. last_node i size r.0 r.1) in
      if i == b.readi then single else many
]

unfoldable pub read_line : Buffer → ℕ → Option (Option (List ℕ) × Buffer)
unfolding buffer_find_delim reader_push_delim
read_line b delim = buffer_find_delim b delim >>= λ r. elim r.0 [
  | none ↦ some (none, r.1)
  | some (i, size) ↦ reader_push_delim r.1 i size >>= (λ q. some (some q.0, q.1))
]
