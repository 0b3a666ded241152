-- ===== src/Socket/Send/Batch.antt =====
-- The batch of dirty sockets as `mark_dirty` fills it.
use silly.Common.{
  ℕ, ◌<◌, ◌≡◌, ◌≢◌, refl, subst, inl, inr, List, [], ◌∷◌, ◌++◌, some, Bool, true, false, length,
  All-map, All, All-In, All-append, In, In-append_left, In-append_right, ◌⊎◌, arith, leb, update,
  update_all, Bool-cases, ==_refl,
}
use silly.Socket.State.{Socket, Manager, Kernel, dirty_size}
use silly.Socket.Pool.{at, put}
use silly.Socket.Send.{mark_dirty}
use silly.Socket.Send.Flush.{
  CanTake, Distinct, IsLists, Streams, Streams-trans, dirtied-Streams, Flushed, flush_dirty-Flushed,
}

-- The sockets with the mark are those in the batch, each once, and a batch that is full was
-- flushed.
pub record IsBatch (ss : Manager) : Type 0 where
  pub distinct : Distinct ss.dirty_sockets
  pub marked : All (λ j. (at ss j).dirty ≡ true) ss.dirty_sockets
  pub listed : (j : ℕ) → (at ss j).dirty ≡ true → In j ss.dirty_sockets
  pub room : length ss.dirty_sockets < dirty_size

pub clash : {b : Bool} → b ≡ true → b ≡ false → ⊥
clash h e = cc

unmarked_ne :
    (ss : Manager) (i : ℕ) (is : List ℕ)
    → (at ss i).dirty ≡ false
    → All (λ j. (at ss j).dirty ≡ true) is
    → All (λ j. j ≢ i) is
unmarked_ne ss i [] h m = tt
unmarked_ne ss i (j ∷ js) h (m, ms) =
    (λ e. clash (subst (λ j. (at ss j).dirty ≡ true) e m) h, unmarked_ne ss i js h ms)

Distinct-append :
    (i : ℕ) (is : List ℕ) → Distinct is → All (λ j. j ≢ i) is → Distinct (is ++ i ∷ [])
Distinct-append i [] d n = (tt, tt)
Distinct-append i (j ∷ js) (d, ds) (n, ns) =
    (All-append (λ k. j ≢ k) js (i ∷ []) d (n, tt), Distinct-append i js ds ns)

marked-CanTake :
    (k : Kernel) (ss : Manager) (i : ℕ) (s : Socket) (is : List ℕ)
    → (s.wloffset ≡ (at ss i).wloffset) × (s.wlhead ≡ (at ss i).wlhead)
    → All (λ j. CanTake k j (at ss j)) is
    → All (λ j. CanTake k j (update ss.slots i s j)) is
marked-CanTake k ss i s is (o, h) c =
    All-map is
      (update_all (λ j (s : Socket). CanTake k j (at ss j) → CanTake k j s) ss.slots i s
        (λ t. rw (o, h) t) (λ j ne t. t))
      c

none-IsBatch :
    (ss : Manager) → ss.dirty_sockets ≡ [] → ((j : ℕ) → (at ss j).dirty ≡ false) → IsBatch ss
none-IsBatch ss e f = record {
  distinct = rw e tt;
  marked = rw e tt;
  listed = λ j h. absurd (clash h (f j));
  room = rw e (omega arith);
}

module _ (k : Kernel) (ss : Manager) (i : ℕ) where
  abbrev marked_one : Manager
  marked_one =
      put (record ss { dirty_sockets = ss.dirty_sockets ++ i ∷ [] }) i
        (record (at ss i) { dirty = true })

  marked_one-listed :
      IsBatch ss → (j : ℕ) → (at marked_one j).dirty ≡ true → In j marked_one.dirty_sockets
  marked_one-listed b =
      update_all (λ j (s : Socket). s.dirty ≡ true → In j (ss.dirty_sockets ++ i ∷ [])) ss.slots i _
        (λ h. In-append_right i ss.dirty_sockets (i ∷ []) (inl refl))
        (λ j ne h. In-append_left j ss.dirty_sockets (i ∷ []) (b.listed j h))

  marked_one-IsBatch :
      IsBatch ss
      → (at ss i).dirty ≡ false
      → leb dirty_size (length marked_one.dirty_sockets) ≡ false
      → IsBatch marked_one
  marked_one-IsBatch b u e = record {
    distinct =
        Distinct-append i ss.dirty_sockets b.distinct
          (unmarked_ne ss i ss.dirty_sockets u b.marked);
    marked =
        All-append (λ j. (at marked_one j).dirty ≡ true) ss.dirty_sockets (i ∷ [])
          (All-map ss.dirty_sockets
            (update_all (λ j (s : Socket). (at ss j).dirty ≡ true → s.dirty ≡ true) ss.slots i _
              (λ h. refl) (λ j ne h. h))
            b.marked)
          (rw (==_refl i) refl, tt);
    listed = marked_one-listed b;
    room = ground (arith, e);
  }

  -- The flush of the batch with the socket in it leaves no mark.
  Flushed-clean :
      (ss' : Manager)
      → ((j : ℕ) → (at marked_one j).dirty ≡ true → In j marked_one.dirty_sockets)
      → All (Flushed k marked_one ss') marked_one.dirty_sockets
      → ((j : ℕ) → (at marked_one j).dirty ≡ false → (at ss' j).dirty ≡ false)
      → (j : ℕ) → (at ss' j).dirty ≡ false
  Flushed-clean ss' listed all rest j = elim (Bool-cases (at marked_one j).dirty) [
    | inl e ↦ (All-In (Flushed k marked_one ss') marked_one.dirty_sockets j all (listed j e)).0
    | inr e ↦ rest j e
  ]

  -- `mark_dirty` of a socket whose list has grown, where `writev` takes some or none of what it is
  -- offered: it never fails, keeps every stream, and the batch stays within its array. The socket
  -- is in the batch then, or was flushed with it.
  pub mark_dirty-Streams :
      IsBatch ss
      → IsLists ss
      → All (λ j. CanTake k j (at ss j)) (ss.dirty_sockets ++ i ∷ [])
      → (ss' : Manager) × (mark_dirty k ss i ≡ some ss')
        × Streams ss ss'
        × IsBatch ss'
        × (In i ss'.dirty_sockets ⊎ Flushed k ss ss' i)
  unfolding mark_dirty
  mark_dirty-Streams b l c = elim (Bool-cases (at ss i).dirty) [
    | inl e ↦ (ss, rw e refl, (λ j. (refl, l j)), b, inl (b.listed i e))
    | inr u ↦ elim (Bool-cases (leb dirty_size (length marked_one.dirty_sockets))) [
      | inr e ↦ (
        marked_one,
        rw (u, e) refl,
        dirtied-Streams true i ss l,
        marked_one-IsBatch b u e,
        inl (In-append_right i ss.dirty_sockets (i ∷ []) (inl refl)),
      )
      | inl e ↦
          let s : Streams ss marked_one = dirtied-Streams true i ss l in
          let (ss', r, s', none_left, all, _, rest) =
            flush_dirty-Flushed k marked_one
              (Distinct-append i ss.dirty_sockets b.distinct
                (unmarked_ne ss i ss.dirty_sockets u b.marked))
              (λ j. (s j).1)
              (marked-CanTake k ss i (record (at ss i) { dirty = true })
                (ss.dirty_sockets ++ i ∷ []) (refl, refl) c) in
          let own : Flushed k marked_one ss' i =
            All-In (Flushed k marked_one ss') marked_one.dirty_sockets i all
              (In-append_right i ss.dirty_sockets (i ∷ []) (inl refl)) in
          (
            ss',
            rw (u, e) r,
            Streams-trans ss marked_one ss' s s',
            none-IsBatch ss' none_left (Flushed-clean ss' (marked_one-listed b) all rest),
            inr (rw (==_refl i) at own),
          )
    ]
  ]
