-- ===== src/Http2/Table/Prune.antt =====
-- luaclib-src/lhttp.c: `prune` moves the entries to the front and keeps them all.
use silly.Common.{
  ℕ, ◌+◌, ◌-◌, ◌<◌, ◌≡◌, inl, inr, refl, sym, ap, ◌∙◌, subst, List, [], ◌∷◌, ◌++◌, append-nil,
  append_assoc, Option, none, some, arith, length, length-append, update, ◌>>=◌,
}
use silly.Http2.Table.{Field, Hpack, move, prune_loop, prune}
use silly.Http2.Table.Held.{Holds, IsTable, Holds-update, Holds-snoc, update_self, update_other}

-- What moving entries leaves alone.
record Frame (h g : Hpack) : Type 0 where
  hard_same : g.hard_limit ≡ h.hard_limit
  soft_same : g.soft_limit ≡ h.soft_limit
  size_same : g.table_size ≡ h.table_size
  tail_same : g.queue_tail ≡ h.queue_tail
  used_same : g.queue_used_min ≡ h.queue_used_min

-- One entry moves down.
move-Holds :
    (h : Hpack) (i idx : ℕ) (f : Field) (fs moved : List Field)
    → idx ≡ length moved
    → idx + 1 < i
    → Holds h.dyna 1 moved
    → Holds h.dyna (i + 1) fs
    → Holds (move h i (idx + 1) f).dyna 1 (moved ++ f ∷ [])
      × Holds (move h i (idx + 1) f).dyna (i + 1) fs
unfolding move
move-Holds h i idx f fs moved e lt done rest = (
  Holds-snoc _ 1 moved f
      (Holds-update _ i none 1 moved (inr (omega arith))
        (Holds-update h.dyna (idx + 1) (some f) 1 moved (inr (omega arith)) done))
      (update_other (update h.dyna (idx + 1) (some f)) i (1 + length moved) none (λ q. omega arith)
        ∙ ap (update h.dyna (idx + 1) (some f)) {x = 1 + length moved} {y = idx + 1} (omega arith)
        ∙ update_self h.dyna (idx + 1) (some f)),
  Holds-update _ i none (i + 1) fs (inl (omega arith))
      (Holds-update h.dyna (idx + 1) (some f) (i + 1) fs (inl (omega arith)) rest),
)

record Moved (h : Hpack) (all : List Field) (r : Option (Hpack × ℕ)) : Type 0 where
  after : Hpack
  result_is : r ≡ some (after, length all)
  frame : Frame h after
  held : Holds after.dyna 1 all

prune_loop-Moved :
    (h : Hpack) (i idx : ℕ) (fs moved : List Field)
    → idx ≡ length moved
    → idx + 1 < i
    → Holds h.dyna 1 moved
    → Holds h.dyna i fs
    → Moved h (moved ++ fs) (prune_loop (length fs) h i idx)
unfolding prune_loop
prune_loop-Moved h i idx [] moved e lt done rest = record {
  after = h;
  result_is =
      ap (λ (n : ℕ). some (h, n)) {x = idx} {y = length (moved ++ [])}
        (omega (arith, ap length (append-nil moved)));
  frame = record {
    hard_same = refl;
    soft_same = refl;
    size_same = refl;
    tail_same = refl;
    used_same = refl;
  };
  held = subst (Holds h.dyna 1) (sym (append-nil moved)) done;
}
prune_loop-Moved h i idx (f ∷ fs) moved e lt done rest =
    let (done', rest') = move-Holds h i idx f fs moved e lt done rest.1 in
    let w : Moved (move h i (idx + 1) f) ((moved ++ f ∷ []) ++ fs)
        (prune_loop (length fs) (move h i (idx + 1) f) (i + 1) (idx + 1)) =
      prune_loop-Moved (move h i (idx + 1) f) (i + 1) (idx + 1) fs (moved ++ f ∷ [])
        (omega (arith, length-append {0} moved (f ∷ []))) (omega arith) done' rest' in
    let again : (moved ++ f ∷ []) ++ fs ≡ moved ++ f ∷ fs = append_assoc moved (f ∷ []) fs in
    rw rest.0 (
      subst
        (λ (l : List Field).
          Moved h l (prune_loop (length fs) (move h i (idx + 1) f) (i + 1) (idx + 1)))
        again (framed w))
  where
    framed :
        {l : List Field} {r : Option (Hpack × ℕ)} → Moved (move h i (idx + 1) f) l r → Moved h l r
    framed w =
        unfold move in
        record {
          after = w.after;
          result_is = w.result_is;
          frame = record {
            hard_same = w.frame.hard_same;
            soft_same = w.frame.soft_same;
            size_same = w.frame.size_same;
            tail_same = w.frame.tail_same;
            used_same = w.frame.used_same;
          };
          held = w.held;
        }

-- After at least one eviction, `prune` renumbers the entries and changes nothing else.
pub prune-IsTable :
    (h : Hpack) (fs : List Field) (unused : ℕ)
    → 0 < h.evict_count
    → IsTable h fs unused
    → (g : Hpack) × (prune h ≡ some g)
      × IsTable g fs unused
      × (g.soft_limit ≡ h.soft_limit)
      × (g.hard_limit ≡ h.hard_limit)
unfolding prune
prune-IsTable h fs unused some_evicted t =
    let n : h.queue_head - h.queue_tail ≡ length fs = omega (arith, t.head_is) in
    let w = prune_loop-Moved h h.queue_tail 0 fs [] refl (omega (arith, t.evicted_is)) tt t.held in
    let close : Hpack × ℕ → Hpack = λ r. record r.0 {
      queue_used_min = r.0.queue_used_min - (r.0.queue_tail - 1);
      queue_tail = 1;
      queue_head = r.1 + 1;
      evict_count = 0;
    } in
    let finish : Option (Hpack × ℕ) → Option Hpack = λ o. o >>= λ r. some (close r) in
    (
      close (w.after, length fs),
      ap (λ (m : ℕ). finish (prune_loop m h h.queue_tail 0)) n ∙ ap finish w.result_is,
      record {
        held = w.held;
        head_is = omega arith;
        size_is = w.frame.size_same ∙ t.size_is;
        evicted_is = omega arith;
        unused_is = omega (arith, w.frame.used_same, w.frame.tail_same, t.unused_is, t.evicted_is);
        unused_fits = t.unused_fits;
        limit_fits = omega (arith, w.frame.soft_same, t.limit_fits);
      },
      w.frame.soft_same,
      w.frame.hard_same,
    )
