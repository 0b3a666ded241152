-- ===== src/Timer/Wheel/Expire.antt =====
-- `expire_timer`: the current root slot goes to the worker, and its nodes to the freed list.
use silly.Common.{
  ℕ, ◌%◌, ◌≡◌, ◌⊎◌, inl, inr, refl, sym, subst, ap, ◌∙◌, List, [], ◌∷◌, ◌++◌, append-nil,
  append_assoc, some, arith, All, All-map, In, In-update_ne, update, update_all, ==_refl, true,
}
use native.Mathlib.Decide.{ℕ_discrete}
use silly.Timer.State.{Timer}
use silly.Timer.Wheel.{timeout, node_free, expire_nodes, expire_timer, is_due, session_of}
use silly.Timer.Wheel.Placement.{Due, RootFits, LevelFits, root-Due}
use silly.Timer.Wheel.Inv.{Fits, InWheel}
use silly.Timer.Wheel.Sent.{Sent, Sent-nil}

-- What firing the nodes `ns` leaves as it was, and what it adds.
pub record Fired (ns : List ℕ) (t t' : Timer) : Type 0 where
  pub jiffies : t'.jiffies ≡ t.jiffies
  pub expire : t'.nodes.expire ≡ t.nodes.expire
  pub root : t'.root ≡ t.root
  pub level : t'.level ≡ t.level
  pub done : t'.done ≡ t.done ++ ns
  pub sent : Sent ns t t'
  pub ticktime : t'.ticktime ≡ t.ticktime

Due-test : (j e : ℕ) → Due j e → is_due j e ≡ true
Due-test j e (inl h) = ground arith
Due-test j e (inr h) = ground arith

-- No `assert` fails on due nodes.
expire_nodes-Fired :
    (ns : List ℕ) (t : Timer)
    → All (λ n. Due t.jiffies (t.nodes.expire n)) ns
    → (t' : Timer) × (expire_nodes ns t ≡ some t') × Fired ns t t'
unfolding expire_nodes node_free timeout session_of
expire_nodes-Fired [] t h = (
  t,
  refl,
  record {
    jiffies = refl;
    expire = refl;
    root = refl;
    level = refl;
    done = sym (append-nil t.done);
    sent = Sent-nil t;
    ticktime = refl;
  },
)
expire_nodes-Fired (n ∷ ns) t (h, hs) =
    let (t', e, f) = expire_nodes-Fired ns (node_free (timeout t n) n) (same-due) in
    (
      t',
      rw (Due-test _ _ h) e,
      record {
        jiffies = f.jiffies;
        expire = f.expire;
        root = f.root;
        level = f.level;
        done = f.done ∙ append_assoc t.done (n ∷ []) ns;
        sent = record {
          cookies = f.sent.cookies;
          versions = f.sent.versions;
          appended = f.sent.appended ∙ append_assoc t.sent _ _;
        };
        ticktime = f.ticktime;
      },
    )
  where
    same-due :
        All
          (λ m.
            Due (node_free (timeout t n) n).jiffies ((node_free (timeout t n) n).nodes.expire m))
          ns
    same-due = hs

-- The root after its slot `i` was emptied fits as it did.
emptied-InWheel :
    (m i : ℕ) (t : Timer)
    → InWheel m t
    → In m (t.root i) ⊎ InWheel m (record t { root = update t.root i [] })
emptied-InWheel m i t (inr h) = inr (inr h)
emptied-InWheel m i t (inl (s, h)) = elim (ℕ_discrete i s) [
  | yes e ↦ inl (subst (λ r. In m (t.root r)) (sym e) h)
  | no e ↦ inr (inl (s, In-update_ne t.root i [] m s e h))
]

-- What `expire_timer` ends with: the slot of the clock is fired whole and left empty.
pub record Expired (j : ℕ) (x at : ℕ → ℕ) (t t' : Timer) : Type 0 where
  pub fits : Fits j x at t'
  pub slot : t'.root (j % 256) ≡ []
  pub done : t'.done ≡ t.done ++ t.root (j % 256)
  pub sent : Sent (t.root (j % 256)) t t'
  pub ticktime : t'.ticktime ≡ t.ticktime
  pub due : All (λ n. Due j (x n)) (t.root (j % 256))
  pub keeps : (m : ℕ) → InWheel m t → In m (t.root (j % 256)) ⊎ InWheel m t'

InWheel-same :
    (m : ℕ) (t u : Timer) → u.root ≡ t.root → u.level ≡ t.level → InWheel m t → InWheel m u
InWheel-same m t u p q (inl (s, h)) = inl (s, subst (λ (r : ℕ → List ℕ). In m (r s)) (sym p) h)
InWheel-same m t u p q (inr (k, s, hk, h)) =
    inr (k, s, hk, subst (λ (r : ℕ → ℕ → List ℕ). In m (r k s)) (sym q) h)

abbrev Expires : (at : ℕ → ℕ) → Timer → ℕ → (ℕ → ℕ) → Type 0
Expires at t j x = Fits j x at t → (t' : Timer) × (expire_timer t ≡ some t') × Expired j x at t t'

expire_now : (at : ℕ → ℕ) (t : Timer) → Expires at t t.jiffies t.nodes.expire
unfolding expire_timer
expire_now at t v =
    let i : ℕ = t.jiffies % 256 in
    let emptied : Timer = record t { root = update t.root i [] } in
    let due : All (λ n. Due t.jiffies (t.nodes.expire n)) (t.root i) =
      All-map (t.root i) (λ n h. root-Due t.jiffies (t.nodes.expire n) v.small h) (v.roots i) in
    let (t', e, f) = expire_nodes-Fired (t.root i) emptied due in
    (
      t',
      e,
      record {
        fits = record {
          small = v.small;
          clock = f.jiffies;
          table = f.expire;
          expires = v.expires;
          roots = λ s.
              subst (λ (r : ℕ → List ℕ). All (λ n. RootFits t.jiffies s (t.nodes.expire n)) (r s))
                (sym f.root)
                (update_all (λ s. All (λ n. RootFits t.jiffies s (t.nodes.expire n))) t.root i [] tt
                  (λ s _. v.roots s) s);
          levels = λ k s hk.
              subst
                (λ (l : ℕ → ℕ → List ℕ). All (λ n. LevelFits k (at k) s (t.nodes.expire n)) (l k s))
                (sym f.level) (v.levels k s hk);
        };
        slot = ap (λ (r : ℕ → List ℕ). r i) f.root ∙ rw (==_refl i);
        done = f.done;
        sent = record {
          cookies = f.sent.cookies;
          versions = f.sent.versions;
          appended = f.sent.appended;
        };
        ticktime = f.ticktime;
        due = due;
        keeps = λ m h. elim (emptied-InWheel m i t h) [
          | inl z ↦ inl z
          | inr z ↦ inr (InWheel-same m emptied t' f.root f.level z)
        ];
      },
    )

pub expire_timer-Expired : (j : ℕ) (x at : ℕ → ℕ) (t : Timer) → Expires at t j x
expire_timer-Expired j x at t v =
    subst (λ i. Expires at t i x) v.clock
      (subst (λ y. Expires at t t.jiffies y) v.table (expire_now at t)) v
