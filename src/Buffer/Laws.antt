-- ===== src/Buffer/Laws.antt =====
-- What a buffer holds, and that every operation keeps it in order.
pub mod Append
pub mod Reads
pub mod Ids
use silly.Common.{
  ℕ, zero, suc, ◌+◌, ◌-◌, ◌≤◌, ◌<◌, ◌≡◌, refl, sym, ap, subst, ◌∙◌, List, [], ◌∷◌, ◌++◌, append-nil,
  append_assoc, Option, none, some, Bool, true, false, arith, ltb, leb, ◌==◌, if◌then◌else◌, assert,
  ◌>>=◌, length, take, drop, length-append, length-drop, drop-drop, drop-append_left,
  drop-append_length, drop_all, Bool-cases, inl, inr, drop-append_right, ==_iff, ltb→lt, lt→ltb,
}
use silly.Buffer.{
  Node, IdPool, Buffer, writei, node_destroy, pop_node, consume_loop, reader_consume,
}

-- The bytes of the nodes behind the offset into the first.
abbrev pub held : ℕ → List Node → List ℕ
held offset [] = []
held offset (n ∷ ns) = drop offset n.buff ++ held 0 ns

abbrev pub contents : Buffer → List ℕ
contents b = held b.offset b.nodes

-- `bytes` of a node is what is left of it, and no node is empty.
abbrev pub IsNodes : ℕ → List Node → Type 0
IsNodes offset [] = offset ≡ 0
IsNodes offset (n ∷ ns) = (n.bytes + offset ≡ length n.buff) × (0 < n.bytes) × IsNodes 0 ns

-- The sizes are right, and the last node checked for a delimiter is one of the buffer's.
pub record IsValid (b : Buffer) : Type 0 where
  pub nodes : IsNodes b.offset b.nodes
  pub size : b.bytes ≡ length (contents b)
  pub checked : b.readi ≤ b.delim_last_checki
  pub checked_in : b.delim_last_checki ≤ writei b

-- The loop of `reader_consume` drops bytes from the front; the count of bytes comes later.
record Dropped (rest : List ℕ) (bytes : ℕ) (b' : Buffer) : Type 0 where
  left : contents b' ≡ rest
  nodes : IsNodes b'.offset b'.nodes
  total : b'.bytes ≡ bytes
  checked : b'.readi ≤ b'.delim_last_checki
  checked_in : b'.delim_last_checki ≤ writei b'

popped-keeps :
    (n : Node) (ns : List Node) (b : Buffer)
    → ((pop_node n ns b).offset ≡ 0)
      × ((pop_node n ns b).nodes ≡ ns)
      × ((pop_node n ns b).bytes ≡ b.bytes)
      × ((pop_node n ns b).readi ≡ b.readi + 1)
unfolding pop_node node_destroy
popped-keeps n ns b = elim (Bool-cases (ltb 0 n.ref)) [
  | inl e ↦ rw e (refl, refl, refl, refl)
  | inr e ↦ rw e (refl, refl, refl, refl)
]

popped-checked :
    (n : Node) (ns : List Node) (b : Buffer)
    → b.delim_last_checki ≤ b.readi + suc (length ns)
    → ((pop_node n ns b).readi ≤ (pop_node n ns b).delim_last_checki)
      × ((pop_node n ns b).delim_last_checki ≤ writei (pop_node n ns b))
unfolding pop_node node_destroy
popped-checked n ns b h = elim (Bool-cases (ltb 0 n.ref)) [
  | inl e ↦ rw e (ground arith, ground arith)
  | inr e ↦ rw e (ground arith, ground arith)
]

consume_loop-Dropped :
    (ns : List Node) (size : ℕ) (b : Buffer)
    → b.nodes ≡ ns
    → IsNodes b.offset ns
    → size ≤ length (held b.offset ns)
    → b.readi ≤ b.delim_last_checki
    → b.delim_last_checki ≤ b.readi + length ns
    → (b' : Buffer) × (consume_loop ns size b ≡ some b')
      × Dropped (drop size (held b.offset ns)) b.bytes b'
unfolding consume_loop
consume_loop-Dropped [] size b e v h c c' = (
  b,
  rw ((==_iff size 0).1 (omega arith)) refl,
  record {
    left = ap (held b.offset) e ∙ sym (drop_all size [] (omega arith));
    nodes = subst (IsNodes b.offset) (sym e) v;
    total = refl;
    checked = c;
    checked_in = rw e c';
  },
)
consume_loop-Dropped (n ∷ ns) size b e (vn, vp, vs) h c c' = elim (Bool-cases (size == 0)) [
  | inl z ↦ (
    b,
    rw z refl,
    record {
      left =
          ap (held b.offset) e
          ∙ ap (λ k. drop k (held b.offset (n ∷ ns))) (sym ((==_iff size 0).0 z));
      nodes = subst (IsNodes b.offset) (sym e) (vn, vp, vs);
      total = refl;
      checked = c;
      checked_in = rw e c';
    },
  )
  | inr z ↦ elim (Bool-cases (ltb size n.bytes)) [
    | inl part ↦ (
      record b { nodes = record n { bytes = n.bytes - size } ∷ ns; offset = b.offset + size },
      rw (z, part) refl,
      record {
        left =
            ap (λ xs. xs ++ held 0 ns) (sym (drop-drop b.offset size n.buff))
            ∙ sym (
                drop-append_left size (drop b.offset n.buff) (held 0 ns)
                  (omega (arith, length-drop b.offset n.buff, ltb→lt size n.bytes part)));
        nodes =
            (omega (arith, ltb→lt size n.bytes part), omega (arith, ltb→lt size n.bytes part), vs);
        total = refl;
        checked = c;
        checked_in = c';
      },
    )
    | inr all ↦
        let many : n.bytes ≤ size = ground arith in
        let (o, ns_eq, by, ri) = popped-keeps n ns b in
        let (ck, ck') = popped-checked n ns b c' in
        let avail : length (drop b.offset n.buff) ≡ n.bytes =
          omega (arith, length-drop b.offset n.buff) in
        let (b', r, d) =
          consume_loop-Dropped ns (size - n.bytes) (pop_node n ns b) ns_eq (rw o vs)
            (rw o (omega (arith, h, length-append (drop b.offset n.buff) (held 0 ns), avail))) ck
            (subst (λ xs. (pop_node n ns b).delim_last_checki ≤ (pop_node n ns b).readi + length xs)
              ns_eq ck') in
        (
          b',
          rw (z, all) r,
          record {
            left =
                d.left
                ∙ ap (λ k. drop (size - n.bytes) (held k ns)) o
                ∙ drop-append_right (drop b.offset n.buff) (held 0 ns) size (omega (arith, avail))
                    (omega (arith, avail));
            nodes = d.nodes;
            total = d.total ∙ by;
            checked = d.checked;
            checked_in = d.checked_in;
          },
        )
  ]
]

-- `reader_consume` of bytes that are there drops them from the front.
pub reader_consume-contents :
    (b : Buffer) (size : ℕ)
    → IsValid b
    → size ≤ length (contents b)
    → (b' : Buffer) × (reader_consume b size ≡ some b')
      × (contents b' ≡ drop size (contents b))
      × IsValid b'
unfolding reader_consume
reader_consume-contents b size v h =
    let (b', r, d) = consume_loop-Dropped b.nodes size b refl v.nodes h v.checked v.checked_in in
    let fits : leb size b'.bytes ≡ true = ground (arith, d.total, v.size, h) in
    (
      record b' { bytes = b'.bytes - size },
      rw (r, fits) refl,
      d.left,
      record {
        nodes = d.nodes;
        size = omega (
          arith,
          d.total,
          v.size,
          ap (λ (xs : List ℕ). length xs) d.left,
          length-drop size (contents b),
        );
        checked = d.checked;
        checked_in = d.checked_in;
      },
    )
