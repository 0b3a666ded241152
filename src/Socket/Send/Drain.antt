-- ===== src/Socket/Send/Drain.antt =====
-- `drain_wlist_tcp`: what one call of `writev` leaves of a connection.
use silly.Common.{
  ℕ, zero, suc, ◌≤◌, ◌≡◌, refl, sym, ◌∙◌, inl, inr, List, [], ◌∷◌, ◌++◌, append-nil, take, some,
  Bool, true, false, not, length, Bool-cases, ==_refl, ==-eq-false,
}
use silly.Socket.State.{Kind, reserve, tcp_connection, Wlist, Manager, Kernel, iov_size}
use silly.Socket.Pool.{at, no_flags, wlist_empty}
use silly.Socket.Sp.{is_kind, write_enable, sub_connection}
use silly.Socket.Sp.Ends.{
  Others, Others-trans, Enabled, write_enable-Enabled, Freed, free_socket-Freed,
}
use silly.Socket.Send.{iov_bytes, took, after_send, drained, sent_some, drain_wlist_tcp}
use silly.Socket.Send.Stream.{IsList, stream, took-stream}

-- The stream is as before, the list in order, a mark that is not set stays so, and the poller watches for room just as long as
-- bytes wait; other sockets are left alone.
pub record Settled (i : ℕ) (ss ss' : Manager) : Type 0 where
  pub kept : stream ss' i ≡ stream ss i
  pub list : IsList (at ss' i).wloffset (at ss' i).wlhead
  pub watch : (at ss' i).state.writing ≡ not (wlist_empty (at ss' i))
  pub clean : (at ss i).dirty ≡ false → (at ss' i).dirty ≡ false
  pub others : Others i ss ss'
  pub batch : ss'.dirty_sockets ≡ ss.dirty_sockets

Enabled-Settled :
    (b : Bool) (i : ℕ) (ss ss' : Manager)
    → IsList (at ss i).wloffset (at ss i).wlhead
    → b ≡ not (wlist_empty (at ss i))
    → Enabled b i ss ss'
    → Settled i ss ss'
Enabled-Settled b i ss ss' l e n = record {
  kept = rw (n.wire, n.wloffset, n.wlhead);
  list = rw (n.wloffset, n.wlhead) l;
  watch = rw (n.flag, wlist_empty, n.wlhead) e;
  clean = λ h. n.dirty ∙ h;
  others = n.others;
  batch = n.batch;
}

empty_list : (ws : List Wlist) → elim ws [ [] ↦ true | w ∷ ws ↦ false ] ≡ true → ws ≡ []
empty_list [] h = refl
empty_list (w ∷ ws) h = cc

Freed-Settled :
    (b : Bool) (i : ℕ) (ss ss' ss'' : Manager)
    → wlist_empty (at ss i) ≡ true
    → Enabled b i ss ss'
    → Freed i ss' ss''
    → Settled i ss ss''
Freed-Settled b i ss ss' ss'' e n f =
    let none_left : (at ss i).wlhead ≡ [] = empty_list (at ss i).wlhead e in
    record {
      kept = rw (f.wire, f.wloffset, f.wlhead, n.wire, none_left);
      list = rw (f.wloffset, f.wlhead);
      watch = rw (f.state, wlist_empty, f.wlhead);
      clean = λ _. f.dirty;
      others = Others-trans i ss ss' ss'' n.others f.others;
      batch = f.batch ∙ n.batch;
    }

after_send-Settled :
    (ss : Manager) (i : ℕ)
    → is_kind (at ss i).kind reserve ≡ false
    → IsList (at ss i).wloffset (at ss i).wlhead
    → (ss' : Manager) × (after_send ss i ≡ some ss')
      × Settled i ss ss'
      × ((ss'.ports i).wire ≡ (ss.ports i).wire)
unfolding after_send
after_send-Settled ss i live l =
    let off : Manager = write_enable ss i false in
    let n : Enabled false i ss off = write_enable-Enabled false i ss in
    elim (Bool-cases (wlist_empty (at ss i))) [
      | inr e ↦ (
        write_enable ss i true,
        rw e,
        Enabled-Settled true i ss (write_enable ss i true) l (rw e)
            (write_enable-Enabled true i ss),
        (write_enable-Enabled true i ss).wire,
      )
      | inl e ↦ elim (Bool-cases (at off i).state.closewait) [
        | inr c ↦ (off, rw (e, c), Enabled-Settled false i ss off l (rw e) n, n.wire)
        | inl c ↦
            let (ss', r, f) = free_socket-Freed (sub_connection off) i (rw n.kind live) in
            (
              ss',
              rw (e, c) r,
              Freed-Settled false i ss off ss' e n (record {
                sid = f.sid;
                fd = f.fd;
                dirty = f.dirty;
                wlbytes = f.wlbytes;
                sent_bytes = f.sent_bytes;
                received_bytes = f.received_bytes;
                closed = f.closed;
                wlhead = f.wlhead;
                wloffset = f.wloffset;
                kind = f.kind;
                state = f.state;
                wire = f.wire;
                version = f.version;
                free = f.free;
                others = f.others;
                batch = f.batch;
              }),
              f.wire ∙ n.wire,
            )
      ]
    ]

pub connection_live : (c : Kind) → is_kind c tcp_connection ≡ true → is_kind c reserve ≡ false
connection_live tcp_connection h = refl
connection_live _ h = cc

took-kind :
    (ss : Manager) (i n : ℕ)
    → is_kind (at ss i).kind reserve ≡ false
    → is_kind (at (took ss i n) i).kind reserve ≡ false
unfolding took
took-kind ss i n h = rw (==_refl i) h

took-Others : (ss : Manager) (i n : ℕ) → Others i ss (took ss i n)
unfolding took
took-Others ss i n j ne = rw (==-eq-false i j ne) (refl, refl)

took-batch : (ss : Manager) (i n : ℕ) → (took ss i n).dirty_sockets ≡ ss.dirty_sockets
unfolding took
took-batch ss i n = refl

took-closewait :
    (ss : Manager) (i n : ℕ)
    → (at ss i).state.closewait ≡ true
    → (at (took ss i n) i).state.closewait ≡ true
unfolding took
took-closewait ss i n h = rw (==_refl i) h

-- The wire grows by the first `n` of the bytes that `writev` is offered.
abbrev pub Sends : ℕ → ℕ → Manager → Manager → Type 0
Sends i n ss ss' =
    (ss'.ports i).wire
    ≡ (ss.ports i).wire ++ take n (iov_bytes iov_size (at ss i).wloffset (at ss i).wlhead)

took-Sends : (ss : Manager) (i n : ℕ) → Sends i n ss (took ss i n)
unfolding took
took-Sends ss i n = rw (==_refl i)

clean-took : (ss : Manager) (i n : ℕ) → (at ss i).dirty ≡ false → (at (took ss i n) i).dirty ≡ false
unfolding took
clean-took ss i n h = rw (==_refl i) h

sent_some-Settled :
    (ss : Manager) (i n : ℕ)
    → is_kind (at ss i).kind reserve ≡ false
    → IsList (at ss i).wloffset (at ss i).wlhead
    → wlist_empty (at ss i) ≡ false
    → n ≤ length (iov_bytes iov_size (at ss i).wloffset (at ss i).wlhead)
    → (ss' : Manager) × (sent_some ss i (some n) ≡ some (drained ss'))
      × Settled i ss ss'
      × Sends i n ss ss'
unfolding sent_some
sent_some-Settled ss i zero live l e h = (
  write_enable ss i true,
  refl,
  Enabled-Settled true i ss (write_enable ss i true) l (rw e) (write_enable-Enabled true i ss),
  (write_enable-Enabled true i ss).wire ∙ sym (append-nil (ss.ports i).wire),
)
sent_some-Settled ss i (suc n) live l e h =
    let mid : Manager = took ss i (suc n) in
    let (same, list) = took-stream ss i (suc n) l h in
    let (ss', r, s, w) = after_send-Settled mid i (took-kind ss i (suc n) live) list in
    (
      ss',
      rw r,
      record {
        kept = s.kept ∙ same;
        list = s.list;
        watch = s.watch;
        clean = λ h. s.clean (clean-took ss i (suc n) h);
        others = Others-trans i ss mid ss' (took-Others ss i (suc n)) s.others;
        batch = s.batch ∙ took-batch ss i (suc n);
      },
      w ∙ took-Sends ss i (suc n),
    )

pub drain_wlist_tcp-Settled :
    (k : Kernel) (ss : Manager) (i n : ℕ)
    → is_kind (at ss i).kind tcp_connection ≡ true
    → IsList (at ss i).wloffset (at ss i).wlhead
    → wlist_empty (at ss i) ≡ false
    → k.writev i ≡ some n
    → n ≤ length (iov_bytes iov_size (at ss i).wloffset (at ss i).wlhead)
    → (ss' : Manager) × (drain_wlist_tcp k ss i ≡ some (drained ss'))
      × Settled i ss ss'
      × Sends i n ss ss'
unfolding drain_wlist_tcp
drain_wlist_tcp-Settled k ss i n c l e a h =
    let (ss', r, s, w) = sent_some-Settled ss i n (connection_live (at ss i).kind c) l e h in
    (ss', rw (e, a) r, s, w)

-- A connection that waits to close is freed by the `writev` that takes its last bytes.
pub drain_wlist_tcp-Freed :
    (k : Kernel) (ss : Manager) (i n : ℕ)
    → is_kind (at ss i).kind tcp_connection ≡ true
    → (at ss i).state.closewait ≡ true
    → wlist_empty (at ss i) ≡ false
    → k.writev i ≡ some (suc n)
    → wlist_empty (at (took ss i (suc n)) i) ≡ true
    → (ss' : Manager) × (drain_wlist_tcp k ss i ≡ some (drained ss'))
      × ((at ss' i).kind ≡ reserve)
      × ((at ss' i).state ≡ no_flags)
unfolding drain_wlist_tcp sent_some after_send
drain_wlist_tcp-Freed k ss i n c cw ne a all =
    let mid : Manager = took ss i (suc n) in
    let off : Manager = write_enable mid i false in
    let en : Enabled false i mid off = write_enable-Enabled false i mid in
    let (ss', r, f) =
      free_socket-Freed (sub_connection off) i
        (rw en.kind (took-kind ss i (suc n) (connection_live (at ss i).kind c))) in
    (ss', rw (ne, a, all, en.closewait, took-closewait ss i (suc n) cw) (rw r), f.kind, f.state)
