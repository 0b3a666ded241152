-- ===== src/Buffer/Tests.antt =====
-- Runs of a buffer at concrete inputs.
use silly.Common.{
  ℕ, ◌<◌, ◌≡◌, refl, ◌⊎◌, List, [], ◌∷◌, Option, none, some, arith, length, take, drop,
}
use silly.Buffer.Laws.Ids.{IsOwned, Fresh, id_pool-IsOwned}
use silly.Buffer.{IdPool, id_pool_alloc, id_pool_free, Buffer, push_data, reader_consume}
use silly.Buffer.Read.{read_bytes, read_line}
use silly.Buffer.Laws.{contents, IsValid}
use silly.Buffer.Laws.Append.{IsAfter, push_data-IsAfter}
use silly.Buffer.Laws.Reads.{read_bytes-take}

-- Two nodes, of the first of which a byte is read; the table has one place more.
abbrev two : Buffer
two = record {
  bytes = 4;
  cap = 3;
  readi = 0;
  delim = 0;
  delim_last_checki = 0;
  offset = 1;
  nodes =
      record { ref = 1; bytes = 2; buff = 10 ∷ 11 ∷ 12 ∷ [] }
      ∷ record { ref = 0; bytes = 2; buff = 13 ∷ 14 ∷ [] }
      ∷ [];
  idx = record { freelist = []; max_id = 1 };
}

two-IsValid : IsValid two
two-IsValid = record {
  nodes = (refl, omega arith, (refl, omega arith, refl));
  size = refl;
  checked = omega arith;
  checked_in = omega arith;
}

read_bytes-take_example :
    ((length (contents two) < 3) × (read_bytes two 3 ≡ some (none, two)))
    ⊎ ((b' : Buffer) × (read_bytes two 3 ≡ some (some (take 3 (contents two)), b'))
        × (contents b' ≡ drop 3 (contents two))
        × IsValid b')
read_bytes-take_example = read_bytes-take two 3 two-IsValid

push_data-IsAfter_example :
    (b' : Buffer) × (push_data two (15 ∷ []) 2 ≡ some b') × IsAfter two (15 ∷ []) b'
push_data-IsAfter_example =
    push_data-IsAfter two (15 ∷ []) 2 two-IsValid (omega arith) (omega arith) (omega arith)

-- The line ends in the second node.
abbrev across : Option (List ℕ)
across = elim (read_line two 13) [ none ↦ none | some (s, b) ↦ s ]

across-line : across ≡ some (11 ∷ 12 ∷ 13 ∷ [])
unfolding read_line reader_consume
across-line = refl

abbrev one_id : IdPool
one_id = record { freelist = []; max_id = 1 }

one_id-IsOwned : IsOwned one_id (1 ∷ [])
one_id-IsOwned j = ground arith

id_pool-IsOwned_example :
    ((r : ℕ × IdPool) × (id_pool_alloc one_id ≡ some r) × Fresh one_id (1 ∷ []) r)
    × IsOwned (id_pool_free one_id 1) []
id_pool-IsOwned_example = id_pool-IsOwned one_id [] 1 one_id-IsOwned (omega arith)
