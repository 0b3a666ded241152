-- ===== src/Socket/Life/Stats.antt =====
-- What `socket_init` and `socket_stat` guarantee.
use silly.Common.{
  ℕ, ◌≡◌, refl, ap, Option, none, some, Bool, true, false, ◌⊎◌, inl, inr, if◌then◌else◌, Bool-cases,
  ◌==◌, count, arith, [], update_all, ==_refl,
}
use silly.Socket.State.{
  Kind, reserve, tcp_listen, udp_listen, tcp_connection, udp_connection, pipe_ctrl, Socket, Manager,
}
use silly.Socket.Pool.{at, has_sid, socket_default, pool_get, pool_init, wcache_init}
use silly.Socket.Sp.{add_to_sp}
use silly.Socket.Pool.Ids.{IsPool, pool_init-IsPool, pool_alloc-Opens}
use silly.Socket.Calls.{is_gone}
use silly.Socket.Life.{
  type_of, protocol_of, SocketStat, anyone, stat_addr, stat_found, socket_stat, blank, started,
  init_trigger, socket_init,
}

-- An address of the peer stands in no statistics.
abbrev pub IsBlind : SocketStat → Type 0
IsBlind info = (info.remoteaddr ≡ none) ⊎ (info.remoteaddr ≡ some anyone)

no_peer : (c : Kind) → (type_of c == 18) ≡ false
no_peer reserve = refl
no_peer tcp_listen = refl
no_peer udp_listen = refl
no_peer tcp_connection = refl
no_peer udp_connection = refl
no_peer pipe_ctrl = refl

stat_addr-IsBlind :
    (local peer : ℕ → ℕ) (c : Kind) (fd : Option ℕ) (info : SocketStat)
    → info.remoteaddr ≡ none
    → IsBlind (stat_addr local peer c fd info)
unfolding stat_addr
stat_addr-IsBlind local peer c none info h = inl h
stat_addr-IsBlind local peer c (some fd) info h = elim (Bool-cases (protocol_of c == 3)) [
  | inl p ↦ rw p (inl h)
  | inr p ↦ rw (p, no_peer c) (inr refl)
]

IsBlind-if : (b : Bool) (x y : SocketStat) → IsBlind x → IsBlind y → IsBlind (if b then x else y)
IsBlind-if true x y hx hy = hx
IsBlind-if false x y hx hy = hy

stat_found-IsBlind :
    (local peer : ℕ → ℕ) (ss : Manager) (i : Option ℕ) (gone : Bool) (id : ℕ)
    → IsBlind (stat_found local peer ss i gone id)
unfolding stat_found
stat_found-IsBlind local peer ss none gone id = inl refl
stat_found-IsBlind local peer ss (some i) gone id =
    IsBlind-if gone _ _ (inl refl) (stat_addr-IsBlind local peer (at ss i).kind (at ss i).fd _ refl)

-- `socket_stat` never gives the peer's address, of a TCP connection neither: the test for one
-- compares the type without its protocol with the type that has it.
pub socket_stat-IsBlind :
    (local peer : ℕ → ℕ) (ss ss' : Manager) (id : ℕ) → IsBlind (socket_stat local peer ss ss' id)
unfolding socket_stat
socket_stat-IsBlind local peer ss ss' id =
    stat_found-IsBlind local peer ss (pool_get ss id) (is_gone ss' (pool_get ss' id)) id

kept-IsPool :
    (ss ss' : Manager)
    → ss'.free ≡ ss.free
    → ((j : ℕ) → ((at ss' j).sid ≡ (at ss j).sid) × ((at ss' j).version ≡ (at ss j).version))
    → IsPool ss
    → IsPool ss'
kept-IsPool ss ss' f s v = record {
  frees = λ j. rw (f, has_sid, (s j).0) (v.frees j);
  ids = λ j. rw ((s j).0, (s j).1) (v.ids j);
}

add_to_sp-IsPool : (ss : Manager) (i : ℕ) → IsPool ss → IsPool (add_to_sp ss i true)
unfolding add_to_sp
add_to_sp-IsPool ss i v =
    kept-IsPool ss _ refl
      (update_all (λ j (s : Socket). (s.sid ≡ (at ss j).sid) × (s.version ≡ (at ss j).version))
        ss.slots i _ (refl, refl) (λ j ne. (refl, refl)))
      v

watched-fd :
    {fd : ℕ} (ss : Manager) (i : ℕ)
    → (at ss i).fd ≡ some fd
    → (at (add_to_sp ss i true) i).fd ≡ some fd
unfolding add_to_sp
watched-fd ss i h = rw (==_refl i) h

watched-in : (ss : Manager) (i : ℕ) → ((add_to_sp ss i true).ports i).watch_in ≡ true
unfolding add_to_sp
watched-in ss i = rw (==_refl i) refl

abbrev initial : Manager
initial = wcache_init (pool_init blank)

initial-IsPool : IsPool initial
unfolding wcache_init
initial-IsPool =
    kept-IsPool (pool_init blank) initial refl (λ j. (refl, refl)) (pool_init-IsPool blank)

initial-free : (initial.free ≡ []) → ⊥
unfolding wcache_init pool_init socket_default
initial-free e =
    let one : count 0 initial.free ≡ 1 = initial-IsPool.frees 0 in
    absurd (omega (arith, ap (count 0) e))

-- `socket_init` starts with a pool in order of which a slot has the descriptor of the trigger,
-- watched for input.
pub socket_init-started :
    (fd : ℕ)
    → (ss : Manager) × (i : ℕ) × (socket_init true (some fd) true ≡ some (started ss))
      × IsPool ss
      × ((at ss i).fd ≡ some fd)
      × ((ss.ports i).watch_in ≡ true)
unfolding socket_init init_trigger
socket_init-started fd = elim (pool_alloc-Opens initial (some fd) pipe_ctrl initial-IsPool) [
  | inl (e, r) ↦ absurd (initial-free e)
  | inr (i, ss, r, (lt, un, v, f, g, o)) ↦
      (add_to_sp ss i true, i, rw r, add_to_sp-IsPool ss i v, watched-fd ss i f, watched-in ss i)
]
