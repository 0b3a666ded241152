-- ===== src/Http2/Table/Held.antt =====
-- luaclib-src/lhttp.c: the entries that the dynamic table holds, as a list from the oldest on.
use silly.Common.{
  ℕ, suc, ◌+◌, ◌^◌, ◌<◌, ◌≤◌, ◌≡◌, ◌≢◌, ◌⊎◌, inl, inr, ap, ◌∙◌, List, [], ◌∷◌, ◌++◌, Option, some,
  arith, length, update, ==-eq-false, ==_refl,
}
use silly.Http2.Table.{Field, Hpack, field_size}

-- From index `i` on the table has these entries.
abbrev pub Holds : (ℕ → Option Field) → ℕ → List Field → Type 0
Holds dyna i [] = Unit {0}
Holds dyna i (f ∷ fs) = (dyna i ≡ some f) × Holds dyna (i + 1) fs

unfoldable pub total : List Field → ℕ
total [] = 0
total (f ∷ fs) = field_size f + total fs

-- The table of `h` holds `fs`, of which the first `unused` may be evicted; its limit is an `int`.
pub record IsTable (h : Hpack) (fs : List Field) (unused : ℕ) : Type 0 where
  pub held : Holds h.dyna h.queue_tail fs
  pub head_is : h.queue_head ≡ h.queue_tail + length fs
  pub size_is : h.table_size ≡ total fs
  pub evicted_is : h.queue_tail ≡ h.evict_count + 1
  pub unused_is : h.queue_used_min ≡ h.queue_tail + unused
  pub unused_fits : unused ≤ length fs
  pub limit_fits : h.soft_limit < 2 ^ 31

pub Holds-update :
    (dyna : ℕ → Option Field) (j : ℕ) (v : Option Field) (i : ℕ) (fs : List Field)
    → (j < i) ⊎ (i + length fs ≤ j)
    → Holds dyna i fs
    → Holds (update dyna j v) i fs
Holds-update dyna j v i [] side h = tt
Holds-update dyna j v i (f ∷ fs) side h =
    (rw (==-eq-false j i (apart side)) h.0, Holds-update dyna j v (i + 1) fs (later side) h.1)
  where
    apart : (j < i) ⊎ (i + length (f ∷ fs) ≤ j) → j ≢ i
    apart (inl p) = λ e. omega arith
    apart (inr p) = λ e. omega arith

    later : (j < i) ⊎ (i + length (f ∷ fs) ≤ j) → (j < i + 1) ⊎ (i + 1 + length fs ≤ j)
    later (inl p) = inl (omega arith)
    later (inr p) = inr (omega arith)

pub Holds-snoc :
    (dyna : ℕ → Option Field) (i : ℕ) (fs : List Field) (f : Field)
    → Holds dyna i fs
    → dyna (i + length fs) ≡ some f
    → Holds dyna i (fs ++ f ∷ [])
Holds-snoc dyna i [] f h e = (ap dyna {x = i} {y = i + 0} (omega arith) ∙ e, tt)
Holds-snoc dyna i (g ∷ fs) f h e =
    (h.0, Holds-snoc dyna (i + 1) fs f h.1 (ap dyna (omega arith) ∙ e))

pub update_self : (dyna : ℕ → Option Field) (j : ℕ) (v : Option Field) → update dyna j v j ≡ v
update_self dyna j v = rw (==_refl j)

pub update_other :
    (dyna : ℕ → Option Field) (j k : ℕ) (v : Option Field) → j ≢ k → update dyna j v k ≡ dyna k
update_other dyna j k v ne = rw (==-eq-false j k ne)

pub total-snoc : (fs : List Field) (f : Field) → total (fs ++ f ∷ []) ≡ total fs + field_size f
unfolding total
total-snoc [] f = omega arith
total-snoc (g ∷ fs) f = omega (arith, total-snoc fs f)

-- An entry in the middle.
pub Holds-at :
    (dyna : ℕ → Option Field) (i : ℕ) (older : List Field) (f : Field) (newer : List Field)
    → Holds dyna i (older ++ f ∷ newer)
    → dyna (i + length older) ≡ some f
Holds-at dyna i [] f newer h = ap dyna {x = i + 0} {y = i} (omega arith) ∙ h.0
Holds-at dyna i (g ∷ older) f newer h =
    ap dyna {x = i + suc (length older)} {y = i + 1 + length older} (omega arith)
    ∙ Holds-at dyna (i + 1) older f newer h.1
