-- ===== src/Socket/Send/Flush.antt =====
-- The batch of dirty sockets: `flush_dirty` and `mark_dirty` keep every stream.
use silly.Common.{
  ℕ, ◌≤◌, ◌≡◌, ◌≢◌, refl, sym, subst, ◌∙◌, inl, inr, List, [], ◌∷◌, ◌++◌, some, Bool, true, false,
  not, ◌||◌, if◌then◌else◌, length, take, All, update_all, Bool-cases, ==_refl, ==-eq-false,
}
use native.Mathlib.Decide.{ℕ_discrete}
use silly.Socket.Sp.Ends.{Others, Others-trans}
use silly.Socket.State.{tcp_connection, Socket, Port, Manager, Kernel, iov_size}
use silly.Socket.Pool.{at, put, has_sid, wlist_empty}
use silly.Socket.Sp.{is_kind}
use silly.Socket.Send.{iov_bytes, skips_flush, flush_socket, flush_loop, flush_dirty}
use silly.Socket.Send.Stream.{waiting, IsList, stream}
use silly.Socket.Send.Drain.{Settled, drain_wlist_tcp-Settled}

-- `writev` answers for socket `j` with a count of the bytes that it is offered.
abbrev pub CanTake : Kernel → ℕ → Socket → Type 0
CanTake k j s =
    (n : ℕ) × (k.writev j ≡ some n) × (n ≤ length (iov_bytes iov_size s.wloffset s.wlhead))

abbrev pub Distinct : List ℕ → Type 0
Distinct [] = Unit
Distinct (i ∷ is) = All (λ j. i ≢ j) is × Distinct is

abbrev pub IsLists : Manager → Type 0
IsLists ss = (j : ℕ) → IsList (at ss j).wloffset (at ss j).wlhead

-- Every stream is as before, and every list in order.
abbrev pub Streams : Manager → Manager → Type 0
Streams ss ss' =
    (j : ℕ) → (stream ss' j ≡ stream ss j) × IsList (at ss' j).wloffset (at ss' j).wlhead

Settled-Streams : (i : ℕ) (ss ss' : Manager) → IsLists ss → Settled i ss ss' → Streams ss ss'
Settled-Streams i ss ss' l s j = elim (ℕ_discrete i j) [
  | yes e ↦
      subst (λ j. (stream ss' j ≡ stream ss j) × IsList (at ss' j).wloffset (at ss' j).wlhead) e
        (s.kept, s.list)
  | no ne ↦ let (a, p) = s.others j ne in rw (a, p) (refl, l j)
]

pub dirtied-Streams :
    (b : Bool) (i : ℕ) (ss : Manager)
    → IsLists ss
    → Streams ss (put ss i (record (at ss i) { dirty = b }))
dirtied-Streams b i ss l =
    update_all
      (λ j (s : Socket).
        ((ss.ports j).wire ++ waiting s.wloffset s.wlhead ≡ stream ss j)
        × IsList s.wloffset s.wlhead)
      ss.slots i _ (refl, l i) (λ j ne. (refl, l j))

pub carry :
    (k : Kernel) (i : ℕ) (ss ss' : Manager) (is : List ℕ)
    → ((j : ℕ) → i ≢ j → at ss' j ≡ at ss j)
    → All (λ j. i ≢ j) is
    → All (λ j. CanTake k j (at ss j)) is
    → All (λ j. CanTake k j (at ss' j)) is
carry k i ss ss' [] f d c = tt
carry k i ss ss' (j ∷ js) f (ne, d) (c, cs) =
    (subst (CanTake k j) (sym (f j ne)) c, carry k i ss ss' js f d cs)

bool_clash : {b : Bool} → b ≡ true → b ≡ false → ⊥
bool_clash h e = cc

skip_parts : (z h w t : Bool) → (z || not h || w || not t) ≡ false → (w ≡ false) × (t ≡ true)
skip_parts false true false true e = (refl, refl)
skip_parts _ _ _ _ e = cc

-- What the flush leaves of a socket of the batch: its mark is gone, and unless it was passed by,
-- what `writev` took of its bytes is on the wire, and the poller watches for room just as long as
-- bytes wait.
abbrev pub Drains : Kernel → ℕ → Socket → Port → Socket → Port → Type 0
Drains k i s p s' p' =
    (s'.dirty ≡ false)
    × (skips_flush s ≡ false
        → (n : ℕ) × (k.writev i ≡ some n)
          × (p'.wire ≡ p.wire ++ take n (iov_bytes iov_size s.wloffset s.wlhead))
          × (s'.state.writing ≡ not (wlist_empty s')))

abbrev pub Flushed : Kernel → Manager → Manager → ℕ → Type 0
Flushed k ss ss' i = Drains k i (at ss i) (ss.ports i) (at ss' i) (ss'.ports i)

-- What one round leaves.
record Round (k : Kernel) (i : ℕ) (ss ss' : Manager) : Type 0 where
  streams : Streams ss ss'
  batch : ss'.dirty_sockets ≡ ss.dirty_sockets
  others : Others i ss ss'
  flushed : Flushed k ss ss' i

flush_socket-Round :
    (k : Kernel) (ss : Manager) (i : ℕ)
    → skips_flush (at ss i) ≡ false
    → (at ss i).dirty ≡ false
    → IsLists ss
    → CanTake k i (at ss i)
    → (ss' : Manager) × (flush_socket k ss i ≡ some ss') × Round k i ss ss'
unfolding flush_socket
flush_socket-Round k ss i e d l (n, a, h) =
    let (ne, c) =
      skip_parts (at ss i).state.zombine (has_sid (at ss i)) (wlist_empty (at ss i))
        (is_kind (at ss i).kind tcp_connection) e in
    let (ss', r, s, w) = drain_wlist_tcp-Settled k ss i n c (l i) ne a h in
    (
      ss',
      rw (flush_socket, r),
      record {
        streams = Settled-Streams i ss ss' l s;
        batch = s.batch;
        others = s.others;
        flushed = (s.clean d, λ _. (n, a, w, s.watch));
      },
    )

pub Streams-trans : (a b c : Manager) → Streams a b → Streams b c → Streams a c
Streams-trans a b c f g j = ((g j).0 ∙ (f j).0, (g j).1)

-- The state of a round once the mark is gone.
abbrev unmarked : Manager → ℕ → Manager
unmarked ss i = put ss i (record (at ss i) { dirty = false })

unmarked-Others : (ss : Manager) (i : ℕ) → Others i ss (unmarked ss i)
unmarked-Others ss i j ne = rw (==-eq-false i j ne) (refl, refl)

unmarked-Round :
    (k : Kernel) (ss ss' : Manager) (i : ℕ)
    → IsLists ss
    → Round k i (unmarked ss i) ss'
    → Round k i ss ss'
unmarked-Round k ss ss' i l t = record {
  streams = Streams-trans ss (unmarked ss i) ss' (dirtied-Streams false i ss l) t.streams;
  batch = t.batch;
  others = Others-trans i ss (unmarked ss i) ss' (unmarked-Others ss i) t.others;
  flushed = rw (==_refl i) at t.flushed;
}

skipped-Round :
    (k : Kernel) (ss : Manager) (i : ℕ)
    → IsLists ss
    → skips_flush (at (unmarked ss i) i) ≡ true
    → Round k i (unmarked ss i) (unmarked ss i)
skipped-Round k ss i l e = record {
  streams = λ j. (refl, (dirtied-Streams false i ss l j).1);
  batch = refl;
  others = λ j ne. (refl, refl);
  flushed = (rw (==_refl i), λ f. absurd (bool_clash e f));
}

-- The body of the loop.
flush_one :
    (k : Kernel) (ss : Manager) (i : ℕ)
    → IsLists ss
    → CanTake k i (at ss i)
    → (ss' : Manager) × ((if skips_flush (at (unmarked ss i) i)
          then some (unmarked ss i)
          else flush_socket k (unmarked ss i) i)
        ≡ some ss')
      × Round k i ss ss'
flush_one k ss i l c =
    let clean : Manager = unmarked ss i in
    elim (Bool-cases (skips_flush (at clean i))) [
      | inl e ↦ (clean, rw e, unmarked-Round k ss clean i l (skipped-Round k ss i l e))
      | inr e ↦
          let (ss', r, t) =
            flush_socket-Round k clean i e (rw (==_refl i))
              (λ j. (dirtied-Streams false i ss l j).1) (rw (==_refl i) c) in
          (ss', rw e r, unmarked-Round k ss ss' i l t)
    ]

carry-Flushed :
    (k : Kernel) (i : ℕ) (a b c : Manager) (is : List ℕ)
    → Others i a b
    → All (λ j. i ≢ j) is
    → All (Flushed k b c) is
    → All (Flushed k a c) is
carry-Flushed k i a b c [] f d h = tt
carry-Flushed k i a b c (j ∷ js) f (ne, d) (h, hs) =
    let (s, p) = f j ne in
    (
      subst (λ q. Drains k j (at a j) q (at c j) (c.ports j)) p
          (subst (λ u. Drains k j u (b.ports j) (at c j) (c.ports j)) s h),
      carry-Flushed k i a b c js f d hs,
    )

-- What the loop leaves when it has gone through `is`.
pub record Loop (k : Kernel) (is : List ℕ) (ss ss' : Manager) : Type 0 where
  pub streams : Streams ss ss'
  pub batch : ss'.dirty_sockets ≡ ss.dirty_sockets
  pub others : (j : ℕ) → All (λ i. j ≢ i) is → (at ss' j ≡ at ss j) × (ss'.ports j ≡ ss.ports j)
  pub flushed : All (Flushed k ss ss') is
  pub clean : (j : ℕ) → (at ss j).dirty ≡ false → (at ss' j).dirty ≡ false

Round-clean :
    (k : Kernel) (i : ℕ) (ss ss' : Manager)
    → Round k i ss ss'
    → (j : ℕ) → (at ss j).dirty ≡ false
    → (at ss' j).dirty ≡ false
Round-clean k i ss ss' t j h = elim (ℕ_discrete i j) [
  | yes e ↦ subst (λ j. (at ss' j).dirty ≡ false) e t.flushed.0
  | no ne ↦ rw ((t.others j ne).0) h
]

Loop-cons :
    (k : Kernel) (i : ℕ) (is : List ℕ) (a b c : Manager)
    → All (λ j. i ≢ j) is
    → Round k i a b
    → Loop k is b c
    → Loop k (i ∷ is) a c
Loop-cons k i is a b c ne t u =
    let (s, p) = u.others i ne in
    record {
      streams = Streams-trans a b c t.streams u.streams;
      batch = u.batch ∙ t.batch;
      others = λ j (n, ns).
          let (s, p) = t.others j (λ e. n (sym e)) in
          let (s', p') = u.others j ns in (s' ∙ s, p' ∙ p);
      flushed = (
        subst (λ q. Drains k i (at a i) (a.ports i) (at c i) q) (sym p)
            (subst (λ v. Drains k i (at a i) (a.ports i) v (b.ports i)) (sym s) t.flushed),
        carry-Flushed k i a b c is t.others ne u.flushed,
      );
      clean = λ j h. u.clean j (Round-clean k i a b t j h);
    }

flush_loop-Loop :
    (k : Kernel) (is : List ℕ) (ss : Manager)
    → Distinct is
    → IsLists ss
    → All (λ j. CanTake k j (at ss j)) is
    → (ss' : Manager) × (flush_loop k is ss ≡ some ss') × Loop k is ss ss'
unfolding flush_loop
flush_loop-Loop k [] ss d l c = (
  ss,
  refl,
  record {
    streams = λ j. (refl, l j);
    batch = refl;
    others = λ j _. (refl, refl);
    flushed = tt;
    clean = λ j h. h;
  },
)
flush_loop-Loop k (i ∷ is) ss (ne, d) l (c, cs) =
    let (mid, q, t) = flush_one k ss i l c in
    let (ss', r, u) =
      flush_loop-Loop k is mid d (λ j. (t.streams j).1)
        (carry k i ss mid is (λ j n. (t.others j n).0) ne cs) in
    (ss', rw q r, Loop-cons k i is ss mid ss' ne t u)

pub flush_dirty-Flushed :
    (k : Kernel) (ss : Manager)
    → Distinct ss.dirty_sockets
    → IsLists ss
    → All (λ j. CanTake k j (at ss j)) ss.dirty_sockets
    → (ss' : Manager) × (flush_dirty k ss ≡ some ss')
      × Streams ss ss'
      × (ss'.dirty_sockets ≡ [])
      × All (Flushed k ss ss') ss.dirty_sockets
      × ((j : ℕ)
          → All (λ i. j ≢ i) ss.dirty_sockets
          → (at ss' j ≡ at ss j) × (ss'.ports j ≡ ss.ports j))
      × ((j : ℕ) → (at ss j).dirty ≡ false → (at ss' j).dirty ≡ false)
unfolding flush_dirty
flush_dirty-Flushed k ss d l c =
    let (ss', r, u) = flush_loop-Loop k ss.dirty_sockets (record ss { dirty_sockets = [] }) d l c in
    (ss', r, u.streams, u.batch, u.flushed, u.others, u.clean)
