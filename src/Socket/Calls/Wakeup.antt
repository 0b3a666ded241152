-- ===== src/Socket/Calls/Wakeup.antt =====
-- The trigger between the worker threads and the socket thread.
use silly.Common.{
  ℕ, ◌≡◌, refl, ◌∙◌, sym, List, [], ◌∷◌, ◌++◌, not, append-nil, append_assoc, Option, none, some,
  Bool, true, false, ◌⊎◌, inl, inr, if◌then◌else◌, assert, ◌>>=◌, Bool-cases, length,
}
use silly.Socket.State.{
  Kind, reserve, tcp_connection, Op, op_enable, op_exit, op_send_tcp, op_send_udp, Manager, Kernel,
}
use silly.Socket.Pool.{at, pool_alloc, take_slot, pool_get, pool_free, wlist_free, wlist_empty}
use silly.Socket.Sp.{is_kind, leave_connection, free_socket, remove_from_sp}
use silly.Socket.Calls.{
  op_push, request, open_socket, Answer, accepted, ex_closed, is_gone, add_wlbytes, push_send,
  is_nil, socket_read_enable, close_found, socket_close, socket_tcp_send, socket_udp_send,
  socket_stop,
}
use silly.Socket.Ops.{op_loop, op_process}

-- The trigger is fired where an operation waits.
abbrev pub IsAwake : Manager → Type 0
IsAwake ss = (ss.opbuf ≡ []) ⊎ (ss.fired ≡ true)

fired_after :
    (ops : List Op) (b : Bool)
    → (ops ≡ []) ⊎ (b ≡ true)
    → elim ops [ [] ↦ true | o ∷ os ↦ b ] ≡ true
fired_after [] b h = refl
fired_after (o ∷ os) b (inl e) = cc
fired_after (o ∷ os) b (inr e) = e

op_push-fired : (ss : Manager) (op : Op) → IsAwake ss → (op_push ss op).fired ≡ true
unfolding op_push
op_push-fired ss op h = fired_after ss.opbuf ss.fired h

-- Operations pushed one after another.
abbrev pub push_all : Manager → List Op → Manager
push_all ss [] = ss
push_all ss (op ∷ ops) = push_all (op_push ss op) ops

push_all-fired : (ops : List Op) (ss : Manager) → ss.fired ≡ true → (push_all ss ops).fired ≡ true
push_all-fired [] ss h = h
push_all-fired (op ∷ ops) ss h = push_all-fired ops (op_push ss op) (op_push-fired ss op (inr h))

push_all-opbuf : (ops : List Op) (ss : Manager) → (push_all ss ops).opbuf ≡ ss.opbuf ++ ops
unfolding op_push
push_all-opbuf [] ss = sym (append-nil ss.opbuf)
push_all-opbuf (op ∷ ops) ss =
    push_all-opbuf ops (op_push ss op) ∙ append_assoc ss.opbuf (op ∷ []) ops

-- No wake-up is lost: after one operation or more is pushed on a manager where the trigger is fired
-- if an operation waits, the next `op_process` runs its loop over all that wait, the old and the
-- new, in the order in which they were pushed.
pub op_process-all :
    (k : ℕ → Kernel) (ss : Manager) (op : Op) (ops : List Op)
    → IsAwake ss
    → let after = push_all ss (op ∷ ops) in
      op_process k after
      ≡ op_loop k 0 (ss.opbuf ++ op ∷ ops) (record after { fired = false; opbuf = [] })
unfolding op_process
op_process-all k ss op ops h =
    let after : Manager = push_all ss (op ∷ ops) in
    rw (push_all-fired ops (op_push ss op) (op_push-fired ss op h), push_all-opbuf (op ∷ ops) ss)
      refl

op_push-IsAwake : (ss : Manager) (op : Op) → IsAwake ss → IsAwake (op_push ss op)
op_push-IsAwake ss op h = inr (op_push-fired ss op h)

-- An aborted call has no state.
abbrev pub AwakeAfter : Option Manager → Type 0
AwakeAfter none = Unit
AwakeAfter (some ss) = IsAwake ss

either-IsAwake :
    (b : Bool) (ss ss' : Manager) → IsAwake ss → IsAwake ss' → IsAwake (if b then ss else ss')
either-IsAwake true ss ss' h h' = h
either-IsAwake false ss ss' h h' = h'

assert-IsAwake : (b : Bool) (r : Option Manager) → AwakeAfter r → AwakeAfter (assert b r)
assert-IsAwake true r h = h
assert-IsAwake false r h = tt

remove_from_sp-IsAwake : (ss : Manager) (i : ℕ) → IsAwake ss → IsAwake (remove_from_sp ss i)
unfolding remove_from_sp
remove_from_sp-IsAwake ss i h = either-IsAwake (at ss i).state.polling _ ss h h

pool_free-IsAwake : (ss : Manager) (i : ℕ) → IsAwake ss → AwakeAfter (pool_free ss i)
unfolding pool_free
pool_free-IsAwake ss i h = assert-IsAwake (wlist_empty (at ss i)) _ h

wlist_free-IsAwake : (ss : Manager) (i : ℕ) → IsAwake ss → IsAwake (wlist_free ss i)
unfolding wlist_free
wlist_free-IsAwake ss i h = h

free_socket-IsAwake : (ss : Manager) (i : ℕ) → IsAwake ss → AwakeAfter (free_socket ss i)
unfolding free_socket
free_socket-IsAwake ss i h = assert-IsAwake (not (is_kind (at ss i).kind reserve)) _ (
    pool_free-IsAwake (remove_from_sp (wlist_free ss i) i) i
      (remove_from_sp-IsAwake (wlist_free ss i) i (wlist_free-IsAwake ss i h)))

request-IsAwake :
    (kind : Kind) (op : ℕ → Op) (ss : Manager) (fd : ℕ) (is : List ℕ)
    → IsAwake ss
    → IsAwake (request op ss fd (take_slot is ss (some fd) kind)).1
unfolding request take_slot op_push
request-IsAwake kind op ss fd [] h = h
request-IsAwake kind op ss fd (i ∷ is) h = inr (fired_after ss.opbuf ss.fired h)

-- After a call that opens a socket the trigger is fired if an operation waits, if it was so before;
-- there may be a descriptor and a slot for it or not.
pub open_socket-IsAwake :
    (kind : Kind) (op : ℕ → Op) (ss : Manager) (r : ℕ ⊎ ℕ)
    → IsAwake ss
    → IsAwake (open_socket kind op ss r).1
unfolding open_socket pool_alloc
open_socket-IsAwake kind op ss (inl err) h = h
open_socket-IsAwake kind op ss (inr fd) h = request-IsAwake kind op ss fd ss.free h

send-IsAwake :
    (ss : Manager) (i : Option ℕ) (sz : ℕ) (op : Op) → IsAwake ss → IsAwake (push_send ss i sz op)
send-IsAwake ss none sz op h = h
send-IsAwake ss (some i) sz op h = op_push-IsAwake (add_wlbytes ss i sz) op h

abbrev pub state_of : Option (Answer × Manager) → Option Manager
state_of none = none
state_of (some (a, ss)) = some ss

leave_connection-IsAwake : (ss : Manager) (c : Kind) → IsAwake ss → IsAwake (leave_connection ss c)
leave_connection-IsAwake ss c h = either-IsAwake (is_kind c tcp_connection) _ ss h h

freed-IsAwake :
    (r : Option Manager) → AwakeAfter r → AwakeAfter (state_of (r >>= λ ss'. some (accepted, ss')))
freed-IsAwake none h = tt
freed-IsAwake (some ss) h = h

close_found-IsAwake :
    (ss : Manager) (id : ℕ) (i : Option ℕ)
    → IsAwake ss
    → AwakeAfter (state_of (close_found ss id i))
unfolding close_found op_push
close_found-IsAwake ss id none h = h
close_found-IsAwake ss id (some i) h = elim (Bool-cases (at ss i).state.closewait) [
  | inl c ↦ rw c h
  | inr c ↦ elim (Bool-cases (at ss i).state.zombine) [
    | inl z ↦
        rw (c, z)
          (freed-IsAwake (free_socket (leave_connection ss (at ss i).kind) i) (
            free_socket-IsAwake (leave_connection ss (at ss i).kind) i
              (leave_connection-IsAwake ss (at ss i).kind h)))
    | inr z ↦ rw (c, z) (inr (fired_after ss.opbuf ss.fired h))
  ]
]

answer-IsAwake :
    (b : Bool) (r r' : Answer × Manager)
    → IsAwake (r.1)
    → IsAwake (r'.1)
    → IsAwake (if b then r else r').1
answer-IsAwake true r r' h h' = h
answer-IsAwake false r r' h h' = h'

-- After `socket_close`, `socket_read_enable`, `socket_tcp_send`, `socket_udp_send` or `socket_stop`
-- the trigger is fired if an operation waits, if it was so before; the id may be of an open socket
-- or not.
pub calls-IsAwake :
    (ss : Manager) (id : ℕ) (flag : Bool) (buf : List ℕ) (addr : ℕ)
    → IsAwake ss
    → AwakeAfter (state_of (socket_close ss id))
      × IsAwake (socket_read_enable ss id flag)
      × IsAwake (socket_tcp_send ss id buf).1
      × IsAwake (socket_udp_send ss id buf addr).1
      × IsAwake (socket_stop ss)
unfolding socket_close socket_read_enable socket_tcp_send socket_udp_send socket_stop
calls-IsAwake ss id flag buf addr h = (
  close_found-IsAwake ss id (pool_get ss id) h,
  either-IsAwake (is_gone ss (pool_get ss id)) ss _ h (op_push-IsAwake ss (op_enable id flag) h),
  answer-IsAwake (is_gone ss (pool_get ss id)) (ex_closed, ss) _ h
      (answer-IsAwake (is_nil buf) (accepted, ss) _ h
        (send-IsAwake ss (pool_get ss id) (length buf) (op_send_tcp id buf) h)),
  answer-IsAwake (is_gone ss (pool_get ss id)) (ex_closed, ss) _ h
      (send-IsAwake ss (pool_get ss id) (length buf) (op_send_udp id buf addr) h),
  op_push-IsAwake ss op_exit h,
)
