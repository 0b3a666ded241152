-- ===== src/Cluster/Ring/Fifo.antt =====
-- The ring is a queue: what is pushed comes out in order, and it never fills up.
use silly.Common.{
  ℕ, zero, suc, ◌+◌, ◌-◌, ◌%◌, ◌^◌, length, ◌≤◌, ◌<◌, ◌≡◌, ◌≢◌, ◌⊎◌, refl, sym, ap, ◌∙◌, List, [],
  ◌∷◌, ◌++◌, none, some, arith, true, false, leb, ltb, ◌==◌, if◌then◌else◌, update, ==_refl,
  ==-eq-false, lt→ltb, Bool-cases, inl, inr,
}
use native.Mathlib.Nat.{mod-eq_of_lt, mod-eq-sub-mod}
use native.Mathlib.Decide.{dec_lt}
use silly.Cluster.State.{Packet, Ring}
use silly.Cluster.Ring.{expand_queue, push_complete, pop_packet}

pub record IsValid (r : Ring) : Type 0 where
  pub head_in : r.head < r.cap
  pub tail_in : r.tail < r.cap

-- The place `k` places after `i`, round the ring.
abbrev wrap : ℕ → ℕ → ℕ → ℕ
wrap cap i k = if ltb (i + k) cap then i + k else i + k - cap

mod-wrap : (cap i k : ℕ) → i < cap → k ≤ cap → (i + k) % cap ≡ wrap cap i k
mod-wrap cap i k hi hk = elim (dec_lt (i + k) cap) [
  | yes p ↦ rw (lt→ltb (i + k) cap p) (mod-eq_of_lt p)
  | no p ↦
      let q : ltb (i + k) cap ≡ false = ground arith in
      rw q (
        mod-eq-sub-mod {n = i + k} {m = cap} (omega arith)
        ∙ mod-eq_of_lt {n = i + k - cap} {m = cap} (omega arith))
]

-- The `n` packets from place `i` on.
abbrev items : (ℕ → Packet) → ℕ → ℕ → ℕ → List Packet
items q cap i zero = []
items q cap i (suc n) = items q cap i n ++ q (wrap cap i n) ∷ []

-- How many packets there are, and which.
abbrev pub count : Ring → ℕ
count r = if leb r.tail r.head then r.head - r.tail else r.head + r.cap - r.tail

abbrev pub contents : Ring → List Packet
contents r = items r.queue r.cap r.tail (count r)

items-update :
    (q : ℕ → Packet) (cap i n : ℕ) (h : ℕ) (v : Packet)
    → ((k : ℕ) → k < n → h ≢ wrap cap i k)
    → items (update q h v) cap i n ≡ items q cap i n
items-update q cap i zero h v f = refl
items-update q cap i (suc n) h v f = rw (==-eq-false h (wrap cap i n) (f n (omega arith))) (
    ap (λ (l : List Packet). l ++ q (wrap cap i n) ∷ [])
      (items-update q cap i n h v (λ k hk. f k (omega arith))))

wrap-suc : (cap i n : ℕ) → i < cap → suc n < cap → wrap cap (wrap cap i 1) n ≡ wrap cap i (suc n)
wrap-suc cap i n hi hn = ground arith

wrap_zero : (cap i : ℕ) → i < cap → wrap cap i 0 ≡ i
wrap_zero cap i h = ground arith

-- The first packet and the others.
items-suc :
    (q : ℕ → Packet) (cap i n : ℕ)
    → i < cap
    → n < cap
    → items q cap i (suc n) ≡ q i ∷ items q cap (wrap cap i 1) n
items-suc q cap i zero hi hn = rw (wrap_zero cap i hi)
items-suc q cap i (suc n) hi hn = rw (wrap-suc cap i n hi hn) (
    ap (λ (l : List Packet). l ++ q (wrap cap i (suc n)) ∷ [])
      (items-suc q cap i n hi (omega arith)))

-- Laid out from 0 in a larger array, the same packets.
items-expand :
    (q : ℕ → Packet) (cap wide t n : ℕ)
    → t < cap
    → n ≤ cap
    → cap ≤ wide
    → items (λ i. if ltb i cap then q ((t + i) % cap) else q i) wide 0 n ≡ items q cap t n
items-expand q cap wide t zero ht hn hw = refl
items-expand q cap wide t (suc n) ht hn hw =
    let here : wrap wide 0 n ≡ n = ground arith in
    rw (here, lt→ltb n cap hn, mod-wrap cap t n ht (omega arith))
      (ap (λ (l : List Packet). l ++ q (wrap cap t n) ∷ [])
        (items-expand q cap wide t n ht (omega arith) hw))

count-lt : (r : Ring) → IsValid r → count r < r.cap
count-lt r v = ground arith

wrap-count : (r : Ring) → IsValid r → wrap r.cap r.tail (count r) ≡ r.head
wrap-count r v = ground arith

-- The place that is written is none of those that are held.
head_free : (r : Ring) → IsValid r → (k : ℕ) → k < count r → r.head ≢ wrap r.cap r.tail k
head_free r v k h e = ground arith

items-pushed :
    (r : Ring) (pk : Packet)
    → IsValid r
    → items (update r.queue r.head pk) r.cap r.tail (suc (count r)) ≡ contents r ++ pk ∷ []
items-pushed r pk v =
    rw (wrap-count r v, ==_refl r.head)
      (ap (λ (l : List Packet). l ++ pk ∷ [])
        (items-update r.queue r.cap r.tail (count r) r.head pk (head_free r v)))

-- What `expand_queue` makes of a ring, within the bounds of its `int`s.
abbrev expanded : Ring → Ring
expanded r = record {
  cap = r.cap + 2048;
  head = r.cap;
  tail = 0;
  queue = λ i. if ltb i r.cap then r.queue ((r.tail + i) % r.cap) else r.queue i;
}

expand_queue-some :
    (r : Ring) → r.cap ≤ 2 ^ 29 → r.tail < r.cap → expand_queue r ≡ some (expanded r)
unfolding expand_queue
expand_queue-some r h t =
    let wide : ltb (r.cap + 2048) 2147483648 ≡ true = lt→ltb _ _ (omega arith) in
    let last : ltb (r.tail + r.cap) 2147483648 ≡ true = lt→ltb _ _ (omega arith) in rw (wide, last)

-- `push_complete` of a packet smaller than 2^31 never fails on a valid ring of at most 2^29 places,
-- adds the packet behind the others, and leaves a valid ring, whether it had to grow or not, of at
-- most 2048 places more.
pub push_complete-contents :
    (r : Ring) (pk : Packet)
    → IsValid r
    → r.cap ≤ 2 ^ 29
    → length pk.buff < 2 ^ 31
    → (r' : Ring) × (push_complete r pk ≡ some r')
      × IsValid r'
      × (contents r' ≡ contents r ++ pk ∷ [])
      × (r'.cap ≤ r.cap + 2048)
unfolding push_complete
push_complete-contents r pk v few short =
    let size : ltb (length pk.buff) 2147483648 ≡ true = lt→ltb _ _ short in
    let head : (r.head + 1) % r.cap ≡ wrap r.cap r.head 1 =
      mod-wrap r.cap r.head 1 v.head_in (omega (arith, v.tail_in)) in
    let fits : ltb ((r.head + 1) % r.cap) r.cap ≡ true =
      lt→ltb _ r.cap (omega (arith, v.tail_in)) in
    let ok : ltb r.tail r.cap ≡ true = lt→ltb r.tail r.cap v.tail_in in
    elim (Bool-cases ((r.head + 1) % r.cap == r.tail)) [
      | inl full ↦
          let r₁ : Ring = record r {
            head = (r.head + 1) % r.cap;
            queue = update r.queue r.head pk;
          } in
          let grown : expand_queue r₁ ≡ some (expanded r₁) = expand_queue-some r₁ few v.tail_in in
          let all : suc (count r) ≡ r.cap = ground arith in
          (
            expanded r₁,
            rw (size, fits, ok, full) grown,
            omega (arith, v.head_in),
            ap (items (expanded r₁).queue (r.cap + 2048) 0)
                  (let z : count (expanded r₁) ≡ r.cap = ground arith in z)
                ∙ items-expand (update r.queue r.head pk) r.cap (r.cap + 2048) r.tail r.cap
                    v.tail_in (omega arith) (omega arith)
                ∙ ap (items (update r.queue r.head pk) r.cap r.tail) (sym all)
                ∙ items-pushed r pk v,
            omega arith,
          )
      | inr room ↦
          let r' : Ring = record r {
            head = (r.head + 1) % r.cap;
            queue = update r.queue r.head pk;
          } in
          let more : count r' ≡ suc (count r) = ground arith in
          (
            r',
            rw (size, fits, ok, room),
            omega (arith, v.head_in, v.tail_in),
            ap (items (update r.queue r.head pk) r.cap r.tail) more ∙ items-pushed r pk v,
            omega arith,
          )
    ]

popped :
    (r : Ring)
    → IsValid r
    → (r.tail == r.head) ≡ false
    → contents r ≡ r.queue r.tail ∷ contents (record r { tail = (r.tail + 1) % r.cap })
popped r v e =
    let tail : (r.tail + 1) % r.cap ≡ wrap r.cap r.tail 1 =
      mod-wrap r.cap r.tail 1 v.tail_in (omega (arith, v.head_in)) in
    let rest : Ring = record r { tail = wrap r.cap r.tail 1 } in
    let less : count r ≡ suc (count rest) = ground arith in
    rw tail (
      ap (items r.queue r.cap r.tail) less
      ∙ items-suc r.queue r.cap r.tail (count rest) v.tail_in (ground arith))

-- On a valid ring `pop_packet` never fails: it takes the oldest packet and leaves a valid ring with
-- the others, or says that there is none and changes nothing.
pub pop_packet-contents :
    (r : Ring)
    → IsValid r
    → ((contents r ≡ []) × (pop_packet r ≡ some (none, r)))
      ⊎ ((pk : Packet) × (r' : Ring) × (pop_packet r ≡ some (some pk, r'))
          × IsValid r'
          × (contents r ≡ pk ∷ contents r'))
unfolding pop_packet
pop_packet-contents r v = elim (Bool-cases (r.tail == r.head)) [
  | inl e ↦ inl (
    ap (items r.queue r.cap r.tail) (let z : count r ≡ 0 = ground arith in z),
    rw (lt→ltb r.head r.cap v.head_in, lt→ltb r.tail r.cap v.tail_in, e),
  )
  | inr e ↦ inr (
    r.queue r.tail,
    record r { tail = (r.tail + 1) % r.cap },
    rw (lt→ltb r.head r.cap v.head_in, lt→ltb r.tail r.cap v.tail_in, e),
    omega (arith, v.head_in, v.tail_in),
    popped r v e,
  )
]
