-- ===== src/Http2/Index/Total.antt =====
-- luaclib-src/lhttp.c: an index is refused or finds the field that the peer means.
use silly.Common.{
  ◌^◌, ℕ, ◌+◌, ◌-◌, ◌<◌, ◌≤◌, ◌≡◌, ◌⊎◌, inl, inr, refl, ap, ◌∙◌, List, [], ◌∷◌, ◌++◌, Option, none,
  some, false, arith, length, length-append, subst, ltb, leb, ◌==◌, ltb→lt, Bool-cases,
}
use silly.Common.Int.{pos}
use silly.Http2.Table.{Field, Hpack, dynamic_index, dynamic_id}
use silly.Http2.Varint.{read_varint}
use silly.Http2.Varint.RoundTrip.{read_varint-write_varint}
use silly.Http2.Table.Held.{IsTable}
use silly.Http2.Table.Adding.{dynamic_index-finds}
use silly.Http2.Index.{
  Entry, pair, dynamic_entry, find_entry, push_ik, read_index_kv, write_index_kv,
}

-- The field with `n` fields behind it.
split_at :
    (n : ℕ) (fs : List Field)
    → n < length fs
    → (older : List Field) × (f : Field) × (newer : List Field) × (fs ≡ older ++ f ∷ newer)
      × (length newer ≡ n)
split_at n [] h = absurd (omega arith)
split_at n (g ∷ fs) h = elim (Bool-cases (ltb n (length fs))) [
  | inl e ↦
      let (older, f, newer, same, size) = split_at n fs (ltb→lt n (length fs) e) in
      (g ∷ older, f, newer, ap (◌∷◌ g) same, size)
  | inr e ↦ ([], g, fs, refl, ground arith)
]

-- An index behind the static table, for any table: if there are so many fields, `push_ik` finds the
-- key of the one with `id` - 62 newer fields; if not, it refuses. No assertion fails.
pub push_ik-total :
    (stat : ℕ → Option Entry) (h : Hpack) (fs : List Field) (unused id : ℕ)
    → IsTable h fs unused
    → 62 ≤ id
    → ((older : List Field) × (f : Field) × (newer : List Field) × (fs ≡ older ++ f ∷ newer)
        × (id ≡ 62 + length newer)
        × (push_ik stat h (pos id) ≡ some (some f.key)))
      ⊎ ((61 + length fs < id) × (push_ik stat h (pos id) ≡ some none))
unfolding push_ik find_entry dynamic_entry
push_ik-total stat h fs unused id t behind =
    let nonzero : (id == 0) ≡ false = ground arith in
    let dynamic : leb id 61 ≡ false = ground arith in
    let size : h.queue_head - h.queue_tail ≡ length fs = omega (arith, t.head_is) in
    elim (Bool-cases (ltb (h.queue_head - h.queue_tail) (id - 61))) [
      | inl e ↦ inr (ground (arith, size), rw (nonzero, dynamic, e))
      | inr e ↦
          let (older, f, newer, same, behind_it) = split_at (id - 62) fs (ground (arith, size)) in
          let index : id ≡ 62 + length newer = omega arith in
          let (idx, at, found, _) =
            dynamic_index-finds h older f newer unused
              (subst (λ (l : List Field). IsTable h l unused) same t) in
          let at' : dynamic_index h id ≡ some idx = ap (dynamic_index h) index ∙ at in
          inl (older, f, newer, same, index, rw (nonzero, dynamic, e, at', found))
    ]

read_index_kv-step :
    (stat : ℕ → Option Entry) (h : Hpack) (flag : ℕ) (bytes rest : List ℕ) (id flag' : ℕ)
    (f : Field)
    → 0 < length bytes
    → read_varint 7 flag bytes ≡ some (pos id, flag', rest)
    → find_entry stat h (pos id) ≡ some (some (pair f))
    → read_index_kv stat h flag bytes ≡ some (some (f, rest))
unfolding read_index_kv
read_index_kv-step stat h flag [] rest id flag' f long e found = absurd (omega arith)
read_index_kv-step stat h flag (b ∷ p) rest id flag' f long e found = rw (e, found)

write_index_kv-nonempty : (id : ℕ) (rest : List ℕ) → 0 < length (write_index_kv id ++ rest)
unfolding write_index_kv
write_index_kv-nonempty id rest = elim (Bool-cases (ltb id 127)) [
  | inl e ↦ rw e (omega arith)
  | inr e ↦ rw e (omega arith)
]

-- The index that `dynamic_id` gives the encoder for a field of its table, written by
-- `write_index_kv`, is read by `read_index_kv` as that field, where the decoder's table holds it
-- with as many newer fields behind it; what follows is left.
pub read_index_kv-write_index_kv :
    (stat : ℕ → Option Entry) (g h : Hpack) (olds older : List Field) (f : Field)
    (newer : List Field) (m n old : ℕ) (rest : List ℕ)
    → IsTable g (olds ++ f ∷ newer) m
    → IsTable h (older ++ f ∷ newer) n
    → 62 + length newer < 2 ^ 31
    → (idx id : ℕ) × (g.dyna idx ≡ some f)
      × (dynamic_id g idx ≡ some id)
      × (read_index_kv stat h old (write_index_kv id ++ rest) ≡ some (some (f, rest)))
unfolding find_entry dynamic_entry
read_index_kv-write_index_kv stat g h olds older f newer m n old rest tg th small =
    let (idx, _, at, back) = dynamic_index-finds g olds f newer m tg in
    let (jdx, to, found, _) = dynamic_index-finds h older f newer n th in
    let id : ℕ = 62 + length newer in
    let nonzero : (62 + length newer == 0) ≡ false = ground arith in
    let dynamic : leb (62 + length newer) 61 ≡ false = ground arith in
    let inside : ltb (h.queue_head - h.queue_tail) (62 + length newer - 61) ≡ false =
      ground (arith, th.head_is, length-append {0} older (f ∷ newer)) in
    let entry : find_entry stat h (pos (62 + length newer)) ≡ some (some (pair f)) =
      rw (nonzero, dynamic, inside, to, found) in
    (
      idx,
      62 + length newer,
      at,
      back,
      read_index_kv-step stat h old (write_index_kv (62 + length newer) ++ rest) rest
          (62 + length newer) 1 f (write_index_kv-nonempty (62 + length newer) rest)
          (unfold write_index_kv in
            read_varint-write_varint 1 (62 + length newer) 7 old rest small (omega arith))
          entry,
    )
