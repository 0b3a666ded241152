-- ===== src/Http2/Table/Adding.antt =====
-- luaclib-src/lhttp.c: `add_to_table` and the indices of the dynamic table.
use silly.Common.{
  ℕ, zero, suc, ◌+◌, ◌-◌, ◌^◌, ◌<◌, ◌≤◌, ◌≡◌, ◌≢◌, sym, ap, ◌∙◌, subst, List, [], ◌∷◌, ◌++◌, Option,
  some, Bool, true, false, Bool-cases, inl, inr, arith, length, length-append, drop, drop_all,
  update, ltb, leb, if◌then◌else◌, ◌>>=◌, lt→ltb,
}
use silly.Http2.Table.{
  Field, Hpack, field_size, begin_block, dynamic_id, dynamic_index, append_field, add_to_table,
}
use silly.Http2.Table.Held.{
  total, IsTable, Holds-update, Holds-snoc, Holds-at, update_self, total-snoc,
}
use silly.Http2.Table.Refine.{kept, still_unused, kept_used, try_evict-Evicted}

total-drop : (n : ℕ) (fs : List Field) → total (drop n fs) ≤ total fs
unfolding total
total-drop zero fs = omega arith
total-drop (suc n) [] = omega arith
total-drop (suc n) (f ∷ fs) = omega (arith, total-drop n fs)

total-kept : (s left : ℕ) (fs : List Field) (unused : ℕ) → total (kept s left fs unused) ≤ total fs
unfolding kept
total-kept s left fs unused = elim (Bool-cases (leb (total fs + left) s)) [
  | inl e ↦ rw e (omega arith)
  | inr e ↦ rw e (total-drop unused fs)
]

append_field-IsTable :
    (h : Hpack) (f : Field) (fs : List Field) (unused : ℕ)
    → IsTable h fs unused
    → IsTable (append_field h f) (fs ++ f ∷ []) unused
unfolding append_field
append_field-IsTable h f fs unused t = record {
  held =
      Holds-snoc _ h.queue_tail fs f
        (Holds-update h.dyna h.queue_head (some f) h.queue_tail fs (inr (omega (arith, t.head_is)))
          t.held)
        (ap (update h.dyna h.queue_head (some f)) (sym t.head_is)
          ∙ update_self h.dyna h.queue_head (some f));
  head_is = omega (arith, t.head_is, length-append {0} fs (f ∷ []));
  size_is = omega (arith, t.size_is, total-snoc fs f);
  evicted_is = omega (arith, t.evicted_is);
  unused_is = omega (arith, t.unused_is);
  unused_fits = omega (arith, t.unused_fits, length-append {0} fs (f ∷ []));
  limit_fits = t.limit_fits;
}

-- What the table holds after `add_to_table`, and whether the field was added.
abbrev pub fits : ℕ → Field → List Field → ℕ → Bool
fits s f fs unused = leb (total (kept s (field_size f) fs unused) + field_size f) s

abbrev pub added : ℕ → Field → List Field → ℕ → List Field
added s f fs unused =
    if fits s f fs unused
    then kept s (field_size f) fs unused ++ f ∷ []
    else kept s (field_size f) fs unused

-- `add_to_table` of a field smaller than 2^31 on a table that holds the fields `fs`, of which the
-- current block does not use the first `unused`: if the new field does not fit beside them, exactly
-- the unused ones go; then it becomes the newest if it fits now, and the result says so. No assertion fails, whether or not
-- the entries are renumbered; the sizes add up, and a table within its limit stays within it.
pub add_to_table-Adds :
    (h : Hpack) (f : Field) (fs : List Field) (unused : ℕ)
    → IsTable h fs unused
    → h.table_size ≤ h.soft_limit
    → field_size f < 2 ^ 31
    → (g : Hpack) × (add_to_table h f ≡ some (g, fits h.soft_limit f fs unused))
      × IsTable g
          (added h.soft_limit f fs unused)
          (still_unused h.soft_limit (field_size f) fs unused)
      × (g.soft_limit ≡ h.soft_limit)
      × (g.table_size ≤ g.soft_limit)
unfolding add_to_table
add_to_table-Adds h f fs unused t within small =
    let fsz : ltb (field_size f) 2147483648 ≡ true = lt→ltb _ _ small in
    let w = try_evict-Evicted h (field_size f) fs unused t in
    let before : w.after.table_size ≤ h.soft_limit =
      omega (arith, w.table.size_is, t.size_is, total-kept h.soft_limit (field_size f) fs unused) in
    let close : Option (Hpack × Bool) → Option (Hpack × Bool) =
      λ o. o >>= λ r. if r.1 then some (append_field r.0 f, true) else some (r.0, false) in
    elim (Bool-cases (fits h.soft_limit f fs unused)) [
      | inl e ↦ (
        append_field w.after f,
        rw fsz (ap close w.result_is ∙ rw e),
        rw e
            (append_field-IsTable w.after f (kept h.soft_limit (field_size f) fs unused) _ w.table),
        unfold append_field in w.soft_same,
        unfold append_field in ground (arith, w.table.size_is, w.soft_same),
      )
      | inr e ↦ (
        w.after,
        rw fsz (ap close w.result_is ∙ rw e),
        rw e w.table,
        w.soft_same,
        omega (arith, w.soft_same),
      )
    ]

-- The entry with `newer` entries behind it has the index 62 + `length newer`: `dynamic_index` finds
-- it, and `dynamic_id` leads back.
pub dynamic_index-finds :
    (h : Hpack) (older : List Field) (f : Field) (newer : List Field) (unused : ℕ)
    → IsTable h (older ++ f ∷ newer) unused
    → (idx : ℕ) × (dynamic_index h (62 + length newer) ≡ some idx)
      × (h.dyna idx ≡ some f)
      × (dynamic_id h idx ≡ some (62 + length newer))
unfolding dynamic_index dynamic_id
dynamic_index-finds h older f newer unused t =
    let idx : ℕ = h.queue_tail + length older in
    let head : h.queue_head ≡ idx + 1 + length newer =
      omega (arith, t.head_is, length-append {0} older (f ∷ newer)) in
    let below : ltb (62 + length newer - 61) h.queue_head ≡ true =
      lt→ltb _ _ (omega (arith, head, t.evicted_is)) in
    let inside : ltb idx h.queue_head ≡ true = lt→ltb _ _ (omega (arith, head)) in
    (
      idx,
      rw below (ap (λ (n : ℕ). some n) (omega (arith, head))),
      Holds-at h.dyna h.queue_tail older f newer t.held,
      rw inside (ap (λ (n : ℕ). some n) (omega (arith, head))),
    )

-- RFC 7541, 4.4: the oldest entries go until the new field fits.
unfoldable pub rfc_kept : ℕ → ℕ → List Field → List Field
rfc_kept limit size [] = []
rfc_kept limit size (f ∷ fs) =
    if leb (total (f ∷ fs) + size) limit then f ∷ fs else rfc_kept limit size fs

rfc_kept-newest :
    (limit size : ℕ) (older : List Field) (newest : Field)
    → field_size newest + size ≤ limit
    → rfc_kept limit size (older ++ newest ∷ []) ≢ []
unfolding rfc_kept total
rfc_kept-newest limit size [] newest h =
    let room : leb (field_size newest + 0 + size) limit ≡ true = ground arith in
    λ e. cc (rw room at e)
rfc_kept-newest limit size (f ∷ older) newest h =
    elim (Bool-cases (leb (field_size f + total (older ++ newest ∷ []) + size) limit)) [
      | inl e ↦ rw e (λ q. cc)
      | inr e ↦ rw e (rfc_kept-newest limit size older newest h)
    ]

pub begin_block-IsTable :
    (h : Hpack) (fs : List Field) (unused : ℕ)
    → IsTable h fs unused
    → IsTable (begin_block h) fs (length fs)
unfolding begin_block
begin_block-IsTable h fs unused t = record {
  held = t.held;
  head_is = t.head_is;
  size_is = t.size_is;
  evicted_is = t.evicted_is;
  unused_is = t.head_is;
  unused_fits = omega arith;
  limit_fits = t.limit_fits;
}

-- At the start of a block, a new field that does not fit beside the entries, but fits beside the
-- newest of them, becomes the only entry of the table: all the entries of earlier blocks go, where
-- the rule of RFC 7541 keeps some.
pub add_to_table-forgets :
    (h : Hpack) (older : List Field) (newest f : Field) (unused : ℕ)
    → IsTable h (older ++ newest ∷ []) unused
    → h.table_size ≤ h.soft_limit
    → h.soft_limit < total (older ++ newest ∷ []) + field_size f
    → field_size newest + field_size f ≤ h.soft_limit
    → (g : Hpack) × (add_to_table (begin_block h) f ≡ some (g, true))
      × IsTable g (f ∷ []) 0
      × (rfc_kept h.soft_limit (field_size f) (older ++ newest ∷ []) ≢ [])
unfolding begin_block total
add_to_table-forgets h older newest f unused t within full room =
    let fs : List Field = older ++ newest ∷ [] in
    let s : ℕ = h.soft_limit in
    let (g, same, table, _, _) =
      add_to_table-Adds (begin_block h) f fs (length fs) (begin_block-IsTable h fs unused t) within
        (omega (arith, t.limit_fits)) in
    let no_room : leb (total fs + field_size f) s ≡ false = ground arith in
    let (rest, still) = kept_used s (field_size f) fs (length fs) no_room in
    let nothing : kept s (field_size f) fs (length fs) ≡ [] =
      rest ∙ drop_all (length fs) fs (omega arith) in
    let alone : fits s f fs (length fs) ≡ true =
      ap (λ (l : List Field). leb (total l + field_size f) s) nothing ∙ ground arith in
    let only : added s f fs (length fs) ≡ f ∷ [] =
      rw alone (ap (λ (l : List Field). l ++ f ∷ []) nothing) in
    (
      g,
      same ∙ ap (λ (b : Bool). some (g, b)) alone,
      subst (λ (l : List Field). IsTable g l 0) only
          (subst (λ (n : ℕ). IsTable g (added s f fs (length fs)) n) still table),
      rfc_kept-newest s (field_size f) older newest room,
    )
