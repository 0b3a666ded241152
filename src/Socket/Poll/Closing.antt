-- ===== src/Socket/Poll/Closing.antt =====
-- A connection that is closing: what the worker still hears of it, and an event that aborts.
use silly.Common.{ℕ, suc, ◌≡◌, refl, ap, none, some, true, false}
use silly.Socket.State.{tcp_connection, Flags, Manager, Kernel}
use silly.Socket.Pool.{at, wlist_empty}
use silly.Socket.Sp.{is_kind, is_connection, report_close}
use silly.Socket.Poll.{
  Event, Seen, read_eof, forward_msg_tcp, forward_msg_udp, parse_read_error, final_error, poll_read,
  poll_write, poll_end, poll_tcp,
}
use silly.Socket.Send.{took, drained, drain_wlist_tcp}
use silly.Socket.Send.Drain.{drain_wlist_tcp-Freed}

-- From a socket that is closing the worker gets neither a second close nor data.
pub closing-quiet :
    (k : Kernel) (ss : Manager) (i err : ℕ)
    → (at ss i).state.closing ≡ true
    → (report_close ss i err ≡ some ss)
      × (forward_msg_tcp k ss i ≡ some (read_eof, ss))
      × (forward_msg_udp k ss i ≡ some ss)
unfolding report_close forward_msg_tcp forward_msg_udp
closing-quiet k ss i err c = (rw c refl, rw c refl, rw c refl)

abbrev seen_eof : Seen
seen_eof = record { eof = true; err = 0; more = false }

closing_read :
    (k : Kernel) (e : Event) (ss : Manager) (i : ℕ)
    → e.can_read ≡ true
    → (at ss i).state.closing ≡ true
    → poll_read k e ss i ≡ some (seen_eof, ss)
unfolding poll_read forward_msg_tcp parse_read_error
closing_read k e ss i er cl = rw (er, cl) refl

drained_write :
    (k : Kernel) (e : Event) (seen : Seen) (ss ss' : Manager) (i : ℕ)
    → e.can_write ≡ true
    → drain_wlist_tcp k ss i ≡ some (drained ss')
    → poll_write k e seen ss i ≡ some (seen, ss')
unfolding poll_write
drained_write k e seen ss ss' i ew r = rw (ew, r) refl

-- The end of an event whose socket was freed by its own drain: the report finds the slot with
-- neither STATE_CLOSING nor the type of a connection, and the assertion fails.
freed_end :
    (k : Kernel) (e : Event) (ss : Manager) (i : ℕ)
    → e.has_error ≡ false
    → (at ss i).state.closing ≡ false
    → is_connection (at ss i).kind ≡ false
    → poll_end k e seen_eof ss i ≡ none
unfolding poll_end final_error report_close
freed_end k e ss i he hc hk = rw (he, hc, hk) refl

-- A connection that waits to close, with its last bytes still to write, aborts the process at an
-- event that it can be both read and written, where `writev` takes all of them: the drain frees
-- the socket, and the end of file that the read found is then reported of the free slot.
pub poll_tcp-aborts :
    (k : Kernel) (e : Event) (ss : Manager) (i n : ℕ)
    → is_kind (at ss i).kind tcp_connection ≡ true
    → (at ss i).state.connecting ≡ false
    → (at ss i).state.closing ≡ true
    → (at ss i).state.closewait ≡ true
    → wlist_empty (at ss i) ≡ false
    → k.writev i ≡ some (suc n)
    → wlist_empty (at (took ss i (suc n)) i) ≡ true
    → e.can_read ≡ true
    → e.can_write ≡ true
    → e.has_error ≡ false
    → poll_tcp k e ss i ≡ none
unfolding poll_tcp
poll_tcp-aborts k e ss i n c nc cl cw ne a all er ew ee =
    let (ss', r, kind, state) = drain_wlist_tcp-Freed k ss i n c cw ne a all in
    rw (nc, closing_read k e ss i er cl, drained_write k e seen_eof ss ss' i ew r)
      (freed_end k e ss' i ee (ap (λ (f : Flags). f.closing) state) (ap is_connection kind))
