-- ===== src/Buffer/Laws/Append.antt =====
-- Appended bytes stand at the end, and there is always a place for their node.
use silly.Common.{
  ℕ, zero, suc, ◌+◌, ◌-◌, ◌*◌, ◌/◌, ◌^◌, ◌≤◌, ◌<◌, ◌≡◌, inl, inr, max, refl, sym, ap, subst, ◌∙◌,
  List, [], ◌∷◌, ◌++◌, append-nil, append_assoc, some, true, false, arith, ltb, leb, ◌==◌, length,
  drop, length-append, Bool-cases, ==_iff, lt→ltb,
}
use native.Mathlib.Nat.{pow-le-pow_right}
use native.Mathlib.Decide.{dec_lt}
use silly.Buffer.{
  Node, Buffer, writei, bits, log2_loop, ceillog2, buffer_expand, buffer_append, push_data,
}
use silly.Buffer.Laws.{held, contents, IsNodes, IsValid}

bits-step : (k x : ℕ) → (x == 0) ≡ false → bits (suc k) x ≡ suc (bits k (x / 2))
unfolding bits
bits-step k x e = rw e refl

bits-bound : (k x : ℕ) → x < 2 ^ k → x < 2 ^ bits k x
unfolding bits
bits-bound zero x h = h
bits-bound (suc k) x h = elim (Bool-cases (x == 0)) [
  | inl e ↦ rw e (omega (arith, (==_iff x 0).0 e))
  | inr e ↦
      let half : x / 2 < 2 ^ k = omega arith in
      subst (λ n. x < 2 ^ n) (sym (bits-step k x e)) (omega (arith, bits-bound k (x / 2) half))
]

-- The number has at most `8 * (k + 1)` bits.
abbrev Small : ℕ → ℕ → Type 0
Small zero x = x < 256
Small (suc k) x = Small k (x / 256)

pow_byte : (r : ℕ) → 2 ^ (8 + r) ≡ 256 * 2 ^ r
pow_byte zero = refl
pow_byte (suc r) =
    ap (λ k. 2 ^ k) {x = 8 + suc r} {y = suc (8 + r)} (omega arith) ∙ omega (arith, pow_byte r)

log2_loop-step : (k x : ℕ) → leb 256 x ≡ true → log2_loop (suc k) x ≡ 8 + log2_loop k (x / 256)
unfolding log2_loop
log2_loop-step k x e = rw e refl

log2_loop-bound : (k x : ℕ) → Small k x → x < 2 ^ log2_loop k x
unfolding log2_loop
log2_loop-bound zero x h = bits-bound 8 x h
log2_loop-bound (suc k) x h = elim (Bool-cases (leb 256 x)) [
  | inl e ↦
      subst (λ n. x < 2 ^ n) (sym (log2_loop-step k x e))
        (omega (arith, log2_loop-bound k (x / 256) h, pow_byte (log2_loop k (x / 256))))
  | inr e ↦ rw e (bits-bound 8 x (ground arith))
]

-- `ceillog2` of a positive `unsigned int` is no less than its logarithm.
pub ceillog2-bound : (x : ℕ) → 0 < x → x < 2 ^ 32 → x ≤ 2 ^ ceillog2 x
unfolding ceillog2
ceillog2-bound x p h = omega (arith, log2_loop-bound 4 (x - 1) (omega arith))

-- No more bits than a power of 2 allows.
bits-at_most : (m k x : ℕ) → x < 2 ^ m → bits k x ≤ m
unfolding bits
bits-at_most m zero x h = omega arith
bits-at_most zero (suc k) x h = let e : (x == 0) ≡ true = ground arith in rw e (omega arith)
bits-at_most (suc m) (suc k) x h = elim (Bool-cases (x == 0)) [
  | inl e ↦ rw e (omega arith)
  | inr e ↦
      subst (λ n. n ≤ suc m) (sym (bits-step k x e))
        (omega (arith, bits-at_most m k (x / 2) (omega arith)))
]

log2_loop-at_most : (k m x : ℕ) → x < 2 ^ m → log2_loop k x ≤ m
unfolding log2_loop
log2_loop-at_most zero m x h = bits-at_most m 8 x h
log2_loop-at_most (suc k) m x h = elim (Bool-cases (leb 256 x)) [
  | inr e ↦ rw e (bits-at_most m 8 x h)
  | inl e ↦ elim (dec_lt m 8) [
    | yes few ↦
        let low : 2 ^ m ≤ 2 ^ 8 = pow-le-pow_right (omega arith) {j = 8} (omega arith) in
        absurd (ground (arith, low))
    | no many ↦
        let split : 2 ^ m ≡ 256 * 2 ^ (m - 8) =
          ap (λ (n : ℕ). 2 ^ n) {x = m} {y = 8 + (m - 8)} (omega arith) ∙ pow_byte (m - 8) in
        subst (λ n. n ≤ m) (sym (log2_loop-step k x e))
          (omega (arith, log2_loop-at_most k (m - 8) (x / 256) (omega (arith, split))))
  ]
]

ceillog2-at_most : (m x : ℕ) → x ≤ 2 ^ m → 0 < x → ceillog2 x ≤ m
unfolding ceillog2
ceillog2-at_most m x h p = log2_loop-at_most 4 m (x - 1) (omega arith)

-- What `buffer_expand` makes of a buffer.
abbrev pub expanded : Buffer → Buffer
expanded b = record b {
  cap = 2 ^ max (ceillog2 (length b.nodes + 1)) 6;
  readi = 0;
  delim_last_checki = b.delim_last_checki - b.readi;
}

-- Its sizes fit their `int`s.
pub buffer_expand-some :
    (b : Buffer) → length b.nodes < 2 ^ 26 → buffer_expand b ≡ some (expanded b)
unfolding buffer_expand
buffer_expand-some b h =
    let few = ceillog2-at_most 26 (length b.nodes + 1) (omega arith) (omega arith) in
    let cap : 2 ^ max (ceillog2 (length b.nodes + 1)) 6 ≤ 2 ^ 26 =
      pow-le-pow_right (omega arith) {j = 26} (omega (arith, few)) in
    let small : ltb (16 * 2 ^ max (ceillog2 (length b.nodes + 1)) 6) 2147483648 ≡ true =
      lt→ltb _ _ (omega (arith, cap)) in
    rw small

-- There is a place for one more node in that table.
pub expanded-room :
    (b : Buffer) → length b.nodes + 1 < 2 ^ 32 → writei (expanded b) < (expanded b).cap
expanded-room b h =
    let bound : length b.nodes + 1 ≤ 2 ^ ceillog2 (length b.nodes + 1) =
      ceillog2-bound (length b.nodes + 1) (omega arith) h in
    let grown : 2 ^ ceillog2 (length b.nodes + 1) ≤ 2 ^ max (ceillog2 (length b.nodes + 1)) 6 =
      pow-le-pow_right (omega arith) (omega arith) in
    omega (arith, bound, grown)

-- A node of `bs` at the end.
abbrev pub IsAfter : Buffer → List ℕ → Buffer → Type 0
IsAfter b bs b' = (contents b' ≡ contents b ++ bs) × IsValid b'

held-append :
    (offset : ℕ) (ns : List Node) (n : Node)
    → IsNodes offset ns
    → n.bytes ≡ length n.buff
    → held offset (ns ++ n ∷ []) ≡ held offset ns ++ n.buff
held-append offset [] n h e = subst (λ o. drop o n.buff ++ [] ≡ n.buff) (sym h) (append-nil n.buff)
held-append offset (m ∷ ns) n (h, p, hs) e =
    ap (λ xs. drop offset m.buff ++ xs) (held-append 0 ns n hs e)
    ∙ sym (append_assoc (drop offset m.buff) (held 0 ns) n.buff)

IsNodes-append :
    (offset : ℕ) (ns : List Node) (n : Node)
    → IsNodes offset ns
    → n.bytes ≡ length n.buff
    → 0 < n.bytes
    → IsNodes offset (ns ++ n ∷ [])
IsNodes-append offset [] n h e p = (omega (arith, e, h), p, refl)
IsNodes-append offset (m ∷ ns) n (h, q, hs) e p = (h, q, IsNodes-append 0 ns n hs e p)

expand-IsValid : (b : Buffer) → IsValid b → IsValid (expanded b)
expand-IsValid b v = record {
  nodes = v.nodes;
  size = v.size;
  checked = omega arith;
  checked_in = omega (arith, v.checked, v.checked_in);
}

-- A buffer with one more node.
abbrev placed : Buffer → Node → Buffer
placed b n = record b { nodes = b.nodes ++ n ∷ []; bytes = b.bytes + n.bytes }

placed-IsAfter :
    (b : Buffer) (n : Node)
    → IsValid b
    → n.bytes ≡ length n.buff
    → 0 < n.bytes
    → IsAfter b n.buff (placed b n)
placed-IsAfter b n v e p =
    let same : contents (placed b n) ≡ contents b ++ n.buff =
      held-append b.offset b.nodes n v.nodes e in
    (
      same,
      record {
        nodes = IsNodes-append b.offset b.nodes n v.nodes e p;
        size = omega (
          arith,
          v.size,
          e,
          ap (λ (xs : List ℕ). length xs) same,
          length-append (contents b) n.buff,
        );
        checked = v.checked;
        checked_in = omega (arith, v.checked_in, length-append b.nodes (n ∷ []));
      },
    )

abbrev new_node : List ℕ → ℕ → Node
new_node bs ref = record { ref = ref; bytes = length bs; buff = bs }

expanded-IsAfter :
    (b : Buffer) (bs : List ℕ) (b' : Buffer) → IsAfter (expanded b) bs b' → IsAfter b bs b'
expanded-IsAfter b bs b' h = h

-- `push_data` of bytes never fails below 2 ^ 26 nodes and 2 ^ 31 bytes: the table grows where it is
-- full, and the bytes stand at the end of the contents.
pub push_data-IsAfter :
    (b : Buffer) (bs : List ℕ) (ref : ℕ)
    → IsValid b
    → 0 < length bs
    → length b.nodes < 2 ^ 26
    → b.bytes + length bs < 2 ^ 31
    → (b' : Buffer) × (push_data b bs ref ≡ some b') × IsAfter b bs b'
unfolding push_data buffer_append
push_data-IsAfter b bs ref v p h w =
    let sum : ltb (b.bytes + length bs) 2147483648 ≡ true = lt→ltb _ _ w in
    elim (Bool-cases (leb b.cap (writei b))) [
      | inl full ↦
          let room : ltb (writei (expanded b)) (expanded b).cap ≡ true =
            lt→ltb (writei (expanded b)) (expanded b).cap (expanded-room b (omega arith)) in
          (
            placed (expanded b) (new_node bs ref),
            rw (full, buffer_expand-some b h, room, sum) refl,
            expanded-IsAfter b bs _
                (placed-IsAfter (expanded b) (new_node bs ref) (expand-IsValid b v) refl p),
          )
      | inr free ↦
          let room : ltb (writei b) b.cap ≡ true = ground arith in
          (
            placed b (new_node bs ref),
            rw (free, room, sum) refl,
            placed-IsAfter b (new_node bs ref) v refl p,
          )
    ]
