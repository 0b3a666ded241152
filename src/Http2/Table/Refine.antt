-- ===== src/Http2/Table/Refine.antt =====
-- luaclib-src/lhttp.c: the dynamic table as a list of fields from the oldest on.
use silly.Common.{
  ap₂, ℕ, zero, suc, ◌+◌, ◌-◌, ◌/◌, ◌≡◌, inl, inr, refl, sym, ap, ◌∙◌, subst, List, [], ◌∷◌, Option,
  none, some, Bool, true, false, ◌&&◌, Bool-cases, arith, drop, ltb, leb, if◌then◌else◌, ◌>>=◌,
}
use silly.Http2.Table.{Field, Hpack, evict, evict_loop, try_prune, has_room, try_evict}
use silly.Http2.Table.Held.{total, IsTable, Holds-update}
use silly.Http2.Table.Prune.{prune-IsTable}

-- What a step that only evicts and renumbers leaves: the table holds `fs`, under the same limits.
pub record Kept (h : Hpack) (fs : List Field) (unused : ℕ) (r : Option Hpack) : Type 0 where
  pub after : Hpack
  pub result_is : r ≡ some after
  pub table : IsTable after fs unused
  pub soft_same : after.soft_limit ≡ h.soft_limit
  pub hard_same : after.hard_limit ≡ h.hard_limit

evict-IsTable :
    (h : Hpack) (f : Field) (fs : List Field) (unused : ℕ)
    → IsTable h (f ∷ fs) (suc unused)
    → IsTable (evict h f) fs unused
unfolding evict total
evict-IsTable h f fs unused t = record {
  held = Holds-update h.dyna h.queue_tail none (h.queue_tail + 1) fs (inl (omega arith)) t.held.1;
  head_is = omega (arith, t.head_is);
  size_is = omega (arith, t.size_is);
  evicted_is = omega (arith, t.evicted_is);
  unused_is = omega (arith, t.unused_is);
  unused_fits = omega (arith, t.unused_fits);
  limit_fits = t.limit_fits;
}

evict_loop-Kept :
    (unused : ℕ) (h : Hpack) (fs : List Field)
    → IsTable h fs unused
    → Kept h (drop unused fs) 0 (evict_loop unused h)
unfolding evict_loop
evict_loop-Kept zero h fs t = record {
  after = h;
  result_is = refl;
  table = t;
  soft_same = refl;
  hard_same = refl;
}
evict_loop-Kept (suc unused) h [] t = absurd (omega (arith, t.unused_fits))
evict_loop-Kept (suc unused) h (f ∷ fs) t =
    rw t.held.0 (lifted (evict_loop-Kept unused (evict h f) fs (evict-IsTable h f fs unused t)))
  where
    lifted : {l : List Field} {r : Option Hpack} → Kept (evict h f) l 0 r → Kept h l 0 r
    lifted k =
        unfold evict in
        record {
          after = k.after;
          result_is = k.result_is;
          table = k.table;
          soft_same = k.soft_same;
          hard_same = k.hard_same;
        }

try_prune-Kept :
    (h : Hpack) (fs : List Field) (unused : ℕ)
    → IsTable h fs unused
    → Kept h fs unused (try_prune h)
unfolding try_prune
try_prune-Kept h fs unused t =
    elim (Bool-cases (ltb (h.queue_head / 2) h.evict_count && ltb 64 h.evict_count)) [
      | inl e ↦
          let (g, same, table, soft, hard) = prune-IsTable h fs unused (ground arith) t in
          rw e record {
            after = g;
            result_is = same;
            table = table;
            soft_same = soft;
            hard_same = hard;
          }
      | inr e ↦
          rw e record { after = h; result_is = refl; table = t; soft_same = refl; hard_same = refl }
    ]

-- What stays when `left` more bytes are wanted: everything if they fit, else only the entries that
-- the current block uses.
unfoldable pub kept : ℕ → ℕ → List Field → ℕ → List Field
kept soft_limit left fs unused = if leb (total fs + left) soft_limit then fs else drop unused fs

unfoldable pub still_unused : ℕ → ℕ → List Field → ℕ → ℕ
still_unused soft_limit left fs unused = if leb (total fs + left) soft_limit then unused else 0

pub record Evicted (h : Hpack) (left : ℕ) (fs : List Field) (unused : ℕ) (r : Option (Hpack × Bool))
    : Type 0 where
  pub after : Hpack
  pub result_is :
      r ≡ some (after, leb (total (kept h.soft_limit left fs unused) + left) h.soft_limit)
  pub table :
      IsTable after (kept h.soft_limit left fs unused) (still_unused h.soft_limit left fs unused)
  pub soft_same : after.soft_limit ≡ h.soft_limit
  pub hard_same : after.hard_limit ≡ h.hard_limit

-- The two cases of that.
kept_all :
    (s left : ℕ) (fs : List Field) (unused : ℕ)
    → leb (total fs + left) s ≡ true
    → (kept s left fs unused ≡ fs) × (still_unused s left fs unused ≡ unused)
unfolding kept still_unused
kept_all s left fs unused e = (rw e, rw e)

pub kept_used :
    (s left : ℕ) (fs : List Field) (unused : ℕ)
    → leb (total fs + left) s ≡ false
    → (kept s left fs unused ≡ drop unused fs) × (still_unused s left fs unused ≡ 0)
unfolding kept still_unused
kept_used s left fs unused e = (rw e, rw e)

same_entries-IsTable :
    {h : Hpack} {fs gs : List Field} {m n : ℕ} → gs ≡ fs → n ≡ m → IsTable h fs m → IsTable h gs n
same_entries-IsTable {h} {fs} {gs} {m} {n} e f t =
    subst (λ (l : List Field). IsTable h l n) (sym e) (subst (λ (k : ℕ). IsTable h fs k) (sym f) t)

pub try_evict-Evicted :
    (h : Hpack) (left : ℕ) (fs : List Field) (unused : ℕ)
    → IsTable h fs unused
    → Evicted h left fs unused (try_evict h left)
unfolding try_evict has_room
try_evict-Evicted h left fs unused t = elim (Bool-cases (leb (total fs + left) h.soft_limit)) [
  | inl e ↦
      let (all, still) = kept_all h.soft_limit left fs unused e in
      let room : leb (h.table_size + left) h.soft_limit ≡ true =
        ap (λ (n : ℕ). leb (n + left) h.soft_limit) t.size_is ∙ e in
      let fits : leb (total (kept h.soft_limit left fs unused) + left) h.soft_limit ≡ true =
        ap (λ (l : List Field). leb (total l + left) h.soft_limit) all ∙ e in
      record {
        after = h;
        result_is = rw room (ap (λ (b : Bool). some (h, b)) (sym fits));
        table = same_entries-IsTable all still t;
        soft_same = refl;
        hard_same = refl;
      }
  | inr e ↦
      let (rest, still) = kept_used h.soft_limit left fs unused e in
      let full : leb (h.table_size + left) h.soft_limit ≡ false =
        ap (λ (n : ℕ). leb (n + left) h.soft_limit) t.size_is ∙ e in
      let rounds : h.queue_used_min - h.queue_tail ≡ unused = omega (arith, t.unused_is) in
      let one = evict_loop-Kept unused h fs t in
      let two = try_prune-Kept one.after (drop unused fs) 0 one.table in
      let soft : two.after.soft_limit ≡ h.soft_limit = two.soft_same ∙ one.soft_same in
      let last : Option Hpack → Option (Hpack × Bool) =
        λ o. o >>= λ p. some (p, leb (p.table_size + left) p.soft_limit) in
      let both : Option Hpack → Option (Hpack × Bool) = λ o. o >>= λ g. last (try_prune g) in
      let answer : leb (two.after.table_size + left) two.after.soft_limit
          ≡ leb (total (kept h.soft_limit left fs unused) + left) h.soft_limit =
        ap₂ (λ (n s : ℕ). leb (n + left) s) two.table.size_is soft
        ∙ ap (λ (l : List Field). leb (total l + left) h.soft_limit) (sym rest) in
      record {
        after = two.after;
        result_is = rw full (
            ap (λ (n : ℕ). both (evict_loop n h)) rounds
            ∙ ap both one.result_is
            ∙ ap last two.result_is
            ∙ ap (λ (b : Bool). some (two.after, b)) answer);
        table = same_entries-IsTable rest still two.table;
        soft_same = soft;
        hard_same = two.hard_same ∙ one.hard_same;
      }
]
