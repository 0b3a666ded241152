-- ===== src/Socket/Ops/Append.antt =====
-- `op_tcp_send`: the bytes of a send go to the end of the stream of their socket.
use silly.Common.{
  ℕ, ◌<◌, ◌≡◌, ◌≢◌, refl, sym, ap, subst, ◌∙◌, inl, inr, List, [], ◌∷◌, ◌++◌, append-nil,
  append_assoc, some, true, length, drop, All-map, All, In, ◌⊎◌, update_all, Bool-cases, ==_refl,
  ==-eq-false,
}
use native.Mathlib.Decide.{ℕ_discrete}
use silly.Socket.State.{tcp_connection, Wlist, Socket, Manager, Kernel}
use silly.Socket.Pool.{at, wlist_append}
use silly.Socket.Sp.{is_kind}
use silly.Socket.Send.Stream.{waiting, IsList, stream}
use silly.Socket.Send.Flush.{CanTake, IsLists, Streams, Flushed}
use silly.Socket.Send.Batch.{IsBatch, mark_dirty-Streams}
use silly.Socket.Ops.{count_sent, op_tcp_send}

waiting-append :
    (offset : ℕ) (ws : List Wlist) (w : Wlist)
    → IsList offset ws
    → waiting offset (ws ++ w ∷ []) ≡ waiting offset ws ++ w.buf
waiting-append offset [] w h = subst (λ o. drop o w.buf ++ [] ≡ w.buf) (sym h) (append-nil w.buf)
waiting-append offset (v ∷ ws) w (h, hs) =
    ap (λ xs. drop offset v.buf ++ xs) (waiting-append 0 ws w hs)
    ∙ sym (append_assoc (drop offset v.buf) (waiting 0 ws) w.buf)

IsList-append :
    (offset : ℕ) (ws : List Wlist) (w : Wlist)
    → 0 < length w.buf
    → IsList offset ws
    → IsList offset (ws ++ w ∷ [])
IsList-append offset [] w p h = (subst (λ o. o < length w.buf) (sym h) p, refl)
IsList-append offset (v ∷ ws) w p (h, hs) = (h, IsList-append 0 ws w p hs)

-- The state in which `op_tcp_send` marks the socket as dirty.
abbrev pub appended : Manager → ℕ → List ℕ → Manager
appended ss i buf = wlist_append (count_sent ss i (length buf)) i buf

module _ (ss : Manager) (i : ℕ) (buf : List ℕ) where
  appended-stream : IsLists ss → stream (appended ss i buf) i ≡ stream ss i ++ buf
  unfolding wlist_append
  appended-stream l = rw (==_refl i) (
      ap (λ xs. (ss.ports i).wire ++ xs)
        (waiting-append (at ss i).wloffset (at ss i).wlhead _ (l i))
      ∙ sym (append_assoc (ss.ports i).wire (waiting (at ss i).wloffset (at ss i).wlhead) buf))

  appended-others : (j : ℕ) → i ≢ j → stream (appended ss i buf) j ≡ stream ss j
  unfolding wlist_append
  appended-others j ne = rw (==-eq-false i j ne) refl

  appended-IsLists : 0 < length buf → IsLists ss → IsLists (appended ss i buf)
  unfolding wlist_append
  appended-IsLists p l j = elim (ℕ_discrete i j) [
    | yes e ↦
        subst (λ j. IsList (at (appended ss i buf) j).wloffset (at (appended ss i buf) j).wlhead) e
          (rw (==_refl i) (IsList-append (at ss i).wloffset (at ss i).wlhead _ p (l i)))
    | no ne ↦ rw (==-eq-false i j ne) (l j)
  ]

  appended-IsBatch : IsBatch ss → IsBatch (appended ss i buf)
  unfolding wlist_append
  appended-IsBatch b = record {
    distinct = b.distinct;
    marked =
        All-map ss.dirty_sockets
          (update_all (λ j (s : Socket). (at ss j).dirty ≡ true → s.dirty ≡ true)
            (count_sent ss i (length buf)).slots i _ (λ h. rw (==_refl i) h)
            (λ j ne h. rw (==-eq-false i j ne) h))
          b.marked;
    listed =
        update_all (λ j (s : Socket). s.dirty ≡ true → In j ss.dirty_sockets)
          (count_sent ss i (length buf)).slots i _ (λ h. b.listed i (rw (==_refl i) at h))
          (λ j ne h. b.listed j (rw (==-eq-false i j ne) at h));
    room = b.room;
  }

same_batch :
    (P : ℕ → Type 0) (ss : Manager) (i : ℕ) (buf : List ℕ)
    → All P (ss.dirty_sockets ++ i ∷ [])
    → All P ((appended ss i buf).dirty_sockets ++ i ∷ [])
unfolding wlist_append
same_batch P ss i buf t = t

same_wire :
    (ss : Manager) (i : ℕ) (buf : List ℕ) → ((appended ss i buf).ports i).wire ≡ (ss.ports i).wire
unfolding wlist_append
same_wire ss i buf = refl

-- Where the bytes of the socket are to leave from.
abbrev pub Queued : Kernel → ℕ → List ℕ → Manager → Manager → Type 0
Queued k i buf ss ss' =
    (((at ss i).state.connecting ≡ true) × ((ss'.ports i).wire ≡ (ss.ports i).wire))
    ⊎ In i ss'.dirty_sockets
    ⊎ Flushed k (appended ss i buf) ss' i

-- What a send ends with: its bytes behind those of its socket, every other stream as before, and
-- the lists and the batch in order. The socket is in the batch, or its list, with the new bytes,
-- was flushed, or the connection is not there yet and nothing was sent.
pub record Appends (k : Kernel) (i : ℕ) (buf : List ℕ) (ss ss' : Manager) : Type 0 where
  pub own : stream ss' i ≡ stream ss i ++ buf
  pub others : (j : ℕ) → i ≢ j → stream ss' j ≡ stream ss j
  pub lists : IsLists ss'
  pub batch : IsBatch ss'
  pub queued : Queued k i buf ss ss'

appended-Appends :
    (k : Kernel) (ss ss' : Manager) (i : ℕ) (buf : List ℕ)
    → IsLists ss
    → Streams (appended ss i buf) ss'
    → IsBatch ss'
    → Queued k i buf ss ss'
    → Appends k i buf ss ss'
appended-Appends k ss ss' i buf l s b q = record {
  own = (s i).0 ∙ appended-stream ss i buf l;
  others = λ j ne. (s j).0 ∙ appended-others ss i buf j ne;
  lists = λ j. (s j).1;
  batch = b;
  queued = q;
}

-- `op_tcp_send` of bytes on a connection, where `writev` takes some or none of what it is offered:
-- it never fails, and the bytes go to the end of the stream of their socket, which is in the batch
-- to be flushed, or was flushed at once with it, or, while its connection is not there yet, has
-- sent nothing. No other stream changes, and the batch holds just the sockets with the mark.
pub op_tcp_send-Appends :
    (k : Kernel) (ss : Manager) (i : ℕ) (buf : List ℕ)
    → is_kind (at ss i).kind tcp_connection ≡ true
    → 0 < length buf
    → IsLists ss
    → IsBatch ss
    → All (λ j. CanTake k j (at (appended ss i buf) j)) (ss.dirty_sockets ++ i ∷ [])
    → (ss' : Manager) × (op_tcp_send k ss i buf ≡ some ss') × Appends k i buf ss ss'
unfolding op_tcp_send
op_tcp_send-Appends k ss i buf c p l b t =
    let mid : Manager = appended ss i buf in
    let lists : IsLists mid = appended-IsLists ss i buf p l in
    let batch : IsBatch mid = appended-IsBatch ss i buf b in
    elim (Bool-cases (at ss i).state.connecting) [
      | inl e ↦ (
        mid,
        rw (c, e) refl,
        appended-Appends k ss mid i buf l (λ j. (refl, lists j)) batch
            (inl (e, same_wire ss i buf)),
      )
      | inr e ↦
          let (ss', r, s, b', q) =
            mark_dirty-Streams k mid i batch lists
              (same_batch (λ j. CanTake k j (at mid j)) ss i buf t) in
          (ss', rw (c, e) r, appended-Appends k ss ss' i buf l s b' (inr q))
    ]
