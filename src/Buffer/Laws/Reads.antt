-- ===== src/Buffer/Laws/Reads.antt =====
-- Reads by count return the bytes at the front.
use silly.Common.{
  ℕ, zero, suc, ◌+◌, ◌-◌, ◌≤◌, ◌<◌, ◌≡◌, ◌⊎◌, inl, inr, min, refl, sym, ap, ap₂, subst, ◌∙◌, List,
  [], ◌∷◌, ◌++◌, Option, none, some, true, false, arith, ltb, leb, ◌==◌, length, take, drop,
  take_all, take-append_left, length-drop, drop-drop, Bool-cases, ==_iff, ltb→lt,
}
use silly.Buffer.{Node, Buffer, reader_consume}
use silly.Buffer.Read.{read_string, reader_push_single_node, gather, reader_push_size, read_bytes}
use silly.Buffer.Laws.{held, contents, IsNodes, IsValid, reader_consume-contents}

-- The bytes that are read, and what is left.
abbrev pub Reads : Buffer → ℕ → Option (List ℕ × Buffer) → Type 0
Reads b sz r =
    (b' : Buffer) × (r ≡ some (take sz (contents b), b'))
    × (contents b' ≡ drop sz (contents b))
    × IsValid b'

take-split :
    (once sz : ℕ) (xs : List ℕ)
    → once ≤ sz
    → take once xs ++ take (sz - once) (drop once xs) ≡ take sz xs
take-split zero sz xs h = ap (λ k. take k xs) (omega arith)
take-split (suc k) zero xs h = absurd (omega arith)
take-split (suc k) (suc sz) [] h = take_all (suc sz - suc k) [] (omega arith)
take-split (suc k) (suc sz) (x ∷ xs) h =
    ap (λ j. x ∷ (take k xs ++ take j (drop k xs))) {x = suc sz - suc k} {y = sz - k} (omega arith)
    ∙ ap (λ ys. x ∷ ys) (take-split k sz xs (omega arith))

head-take :
    (n : Node) (ns : List Node) (offset size : ℕ)
    → n.bytes + offset ≡ length n.buff
    → size ≤ n.bytes
    → take size (drop offset n.buff) ≡ take size (held offset (n ∷ ns))
head-take n ns offset size e h = sym (
    take-append_left size (drop offset n.buff) (held 0 ns)
      (omega (arith, length-drop offset n.buff)))

node-cases : (ns : List Node) → (ns ≡ []) ⊎ ((n : Node) × (ns' : List Node) × (ns ≡ n ∷ ns'))
node-cases [] = inl refl
node-cases (n ∷ ns) = inr (n, ns, refl)

gather-step :
    (fuel sz : ℕ) (b b' : Buffer) (n : Node) (ns : List Node) (r : List ℕ × Buffer)
    → b.nodes ≡ n ∷ ns
    → reader_consume b (min (suc sz) n.bytes) ≡ some b'
    → gather fuel (suc sz - min (suc sz) n.bytes) b' ≡ some r
    → gather (suc fuel) (suc sz) b
      ≡ some (take (min (suc sz) n.bytes) (drop b.offset n.buff) ++ r.0, r.1)
unfolding gather
gather-step fuel sz b b' n ns r e h h' = simp (gather, e, h, h') refl

empty-short : (b : Buffer) (sz : ℕ) → b.nodes ≡ [] → suc sz ≤ length (contents b) → ⊥
empty-short b sz e h = absurd (omega (arith, ap (λ ns. length (held b.offset ns)) e))

gather-none : (fuel : ℕ) (b : Buffer) → gather fuel 0 b ≡ some ([], b)
unfolding gather
gather-none zero b = refl
gather-none (suc fuel) b = refl

many-step :
    (b : Buffer) (n : Node) (ns : List Node) (sz : ℕ)
    → b.nodes ≡ n ∷ ns
    → leb (suc sz) n.bytes ≡ false
    → reader_push_size b (suc sz) ≡ gather (suc sz) (suc sz) b
unfolding reader_push_size
many-step b n ns sz e l = rw (e, l) refl

one-step :
    (b : Buffer) (n : Node) (ns : List Node) (sz : ℕ)
    → b.nodes ≡ n ∷ ns
    → leb (suc sz) n.bytes ≡ true
    → reader_push_size b (suc sz) ≡ reader_push_single_node b n (suc sz)
unfolding reader_push_size
one-step b n ns sz e l = rw (e, l) refl

-- With one round for each byte the loop of `reader_push_size` ends, fails no assertion, and has all
-- the bytes that it is asked for, from the front of the contents.
pub gather-Reads :
    (fuel sz : ℕ) (b : Buffer)
    → sz ≤ fuel
    → IsValid b
    → sz ≤ length (contents b)
    → Reads b sz (gather fuel sz b)
gather-Reads fuel zero b f v h = (b, gather-none fuel b, refl, v)
gather-Reads zero (suc sz) b f v h = absurd (omega arith)
gather-Reads (suc fuel) (suc sz) b f v h = elim (node-cases b.nodes) [
  | inl e ↦ absurd (empty-short b sz e h)
  | inr (n, ns, e) ↦
      let once : ℕ = min (suc sz) n.bytes in
      let (vn, vp, vs) = subst (IsNodes b.offset) e v.nodes in
      let (b', r, d, v') = reader_consume-contents b once v (omega arith) in
      let (b'', r', d', v'') =
        gather-Reads fuel (suc sz - once) b' (omega arith) v'
          (omega (arith, h, ap (λ (xs : List ℕ). length xs) d, length-drop once (contents b))) in
      let front : take once (drop b.offset n.buff) ≡ take once (contents b) =
        head-take n ns b.offset once vn (omega arith)
        ∙ ap (λ ns. take once (held b.offset ns)) (sym e) in
      (
        b'',
        gather-step fuel sz b b' n ns (take (suc sz - once) (contents b'), b'') e r r'
            ∙ ap (λ xs. some (xs, b''))
                (ap₂ (λ (xs ys : List ℕ). xs ++ take (suc sz - once) ys) front d
                  ∙ take-split once (suc sz) (contents b) (omega arith)),
        d'
            ∙ ap (λ xs. drop (suc sz - once) xs) d
            ∙ drop-drop once (suc sz - once) (contents b)
            ∙ ap (λ k. drop k (contents b)) {y = suc sz} (omega arith),
        v'',
      )
]

single-step :
    (b b' : Buffer) (n : Node) (size : ℕ)
    → leb size n.bytes ≡ true
    → reader_consume b size ≡ some b'
    → reader_push_single_node b n size ≡ some (read_string b n size, b')
unfolding reader_push_single_node
single-step b b' n size l h = rw (l, h) refl

-- The whole string of Lua is that node's bytes.
read_string-take :
    (b : Buffer) (n : Node) (size : ℕ)
    → n.bytes + b.offset ≡ length n.buff
    → read_string b n size ≡ take size (drop b.offset n.buff)
read_string-take b n size e = elim (Bool-cases (b.offset == 0)) [
  | inr o ↦ rw o refl
  | inl o ↦ elim (Bool-cases (n.bytes == size)) [
    | inr m ↦ rw (o, m) refl
    | inl m ↦ elim (Bool-cases (ltb 0 n.ref)) [
      | inr f ↦ rw (o, m, f) refl
      | inl f ↦
          let zero_offset : b.offset ≡ 0 = (==_iff b.offset 0).0 o in
          let whole : n.bytes ≡ size = (==_iff n.bytes size).0 m in
          rw (o, m, f)
            (sym (
              ap (λ k. take size (drop k n.buff)) zero_offset
              ∙ take_all size n.buff (omega (arith, whole, zero_offset, e))))
    ]
  ]
]

-- `reader_push_size` of bytes that are there: by one node or several, it is the bytes at the front.
push_size-Reads :
    (b : Buffer) (sz : ℕ)
    → IsValid b
    → suc sz ≤ length (contents b)
    → Reads b (suc sz) (reader_push_size b (suc sz))
push_size-Reads b sz v h = elim (node-cases b.nodes) [
  | inl e ↦ absurd (empty-short b sz e h)
  | inr (n, ns, e) ↦
      let (vn, vp, vs) = subst (IsNodes b.offset) e v.nodes in
      elim (Bool-cases (leb (suc sz) n.bytes)) [
        | inr l ↦
            let (b', r, d, v') = gather-Reads (suc sz) (suc sz) b (omega arith) v h in
            (b', many-step b n ns sz e l ∙ r, d, v')
        | inl l ↦
            let fits : suc sz ≤ n.bytes = ground arith in
            let (b', r, d, v') = reader_consume-contents b (suc sz) v h in
            (
              b',
              one-step b n ns sz e l
                  ∙ single-step b b' n (suc sz) l r
                  ∙ ap (λ xs. some (xs, b'))
                      (read_string-take b n (suc sz) vn
                        ∙ head-take n ns b.offset (suc sz) vn fits
                        ∙ ap (λ ns. take (suc sz) (held b.offset ns)) (sym e)),
              d,
              v',
            )
      ]
]

-- `read_bytes` of a buffer in order never fails. It returns nil and changes nothing where there are
-- fewer bytes than asked for; else it returns exactly the bytes at the front of the contents, also
-- across nodes, and leaves the rest.
pub read_bytes-take :
    (b : Buffer) (sz : ℕ)
    → IsValid b
    → ((length (contents b) < sz) × (read_bytes b sz ≡ some (none, b)))
      ⊎ ((b' : Buffer) × (read_bytes b sz ≡ some (some (take sz (contents b)), b'))
          × (contents b' ≡ drop sz (contents b))
          × IsValid b')
unfolding read_bytes
read_bytes-take b zero v = inr (b, refl, refl, v)
read_bytes-take b (suc sz) v = elim (Bool-cases (ltb b.bytes (suc sz))) [
  | inl l ↦ inl (omega (arith, ltb→lt b.bytes (suc sz) l, v.size), rw l refl)
  | inr l ↦
      let there : suc sz ≤ length (contents b) = ground (arith, v.size) in
      let (b', r, d, v') = push_size-Reads b sz v there in inr (b', rw (l, r) refl, d, v')
]
