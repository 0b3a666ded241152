-- ===== src/Cluster/Tests.antt =====
-- The cluster theorems at concrete inputs: an object of `lcreate`, and bytes of one response.
use silly.Common.{ℕ, ◌+◌, ◌*◌, ◌≤◌, length, ◌≡◌, ◌⊎◌, refl, List, [], ◌∷◌, ◌++◌, none, some, arith}
use silly.Cluster.State.{Packet, Ring, NetPacket}
use silly.Cluster.Ring.{push_complete, pop_packet}
use silly.Cluster.Ring.Fifo.{IsValid, contents, push_complete-contents, pop_packet-contents}
use silly.Cluster.Frame.{
  Pushed, ate, fresh, find, absorb, get_incomplete, put_incomplete, push_once, push,
}
use silly.Cluster.Frame.Stream.{feed, emit}
use silly.Cluster.Frame.Table.{pending}
use silly.Cluster.Frame.Push.{Took, report, left_over, push-Took}
use silly.Cluster.Frame.Cuts.{push-cuts}
use silly.Cluster.Pack.{new_netpacket, lrequest, unpack, packed}
use silly.Cluster.Pack.Fresh.{new_netpacket-IsHeld}
use silly.Cluster.Pack.RoundTrip.{lrequest-read}

abbrev object : NetPacket
object = new_netpacket 100 50

-- A header that announces 6 bytes, and a response to session 7 with the body 1 2.
abbrev first_read : List ℕ
first_read = 6 ∷ 0 ∷ 0 ∷ []

abbrev second_read : List ℕ
second_read = 0 ∷ 7 ∷ 0 ∷ 0 ∷ 128 ∷ 1 ∷ 2 ∷ []

abbrev one_packet : Packet
one_packet = record { fd = 3; buff = 7 ∷ 0 ∷ 0 ∷ 128 ∷ 1 ∷ 2 ∷ [] }

-- A ring of two places that one packet fills.
abbrev small_ring : Ring
small_ring = record { cap = 2; head = 0; tail = 1; queue = λ _. one_packet }

small_ring-IsValid : IsValid small_ring
small_ring-IsValid = record { head_in = omega arith; tail_in = omega arith }

abbrev after_first : NetPacket
after_first =
    put_incomplete (get_incomplete object 3).1 (record { fd = 3; hdr = first_read; buff = none })

after_first-push : push 20 object 3 first_read ≡ some (ate 0, after_first)
unfolding push push_once absorb find
after_first-push = refl

push-Took_example :
    let f = feed 100 (first_read ++ second_read) (pending object 3) in
    (p' : NetPacket) × (push 20 object 3 (first_read ++ second_read) ≡ some (report f.end, p'))
    × Took object p' 3 f.packets (left_over 3 f.end)
    × (p'.ring.cap ≤ object.ring.cap + 2048 * length (first_read ++ second_read))
push-Took_example =
    push-Took 20 object 3 (first_read ++ second_read) (new_netpacket-IsHeld 100 50 (omega arith))
      (omega arith) (omega arith)

push-cuts_example :
    (r : Pushed) × (p₂ q : NetPacket) × (push 20 after_first 3 second_read ≡ some (r, p₂))
    × (push 20 object 3 (first_read ++ second_read) ≡ some (r, q))
    × (contents q.ring ≡ contents p₂.ring)
    × (pending q 3 ≡ pending p₂ 3)
push-cuts_example =
    push-cuts 20 object after_first 3 first_read second_read
      (new_netpacket-IsHeld 100 50 (omega arith)) (omega arith) (omega arith) after_first-push

push_complete-contents_example :
    (r' : Ring) × (push_complete small_ring one_packet ≡ some r')
    × IsValid r'
    × (contents r' ≡ contents small_ring ++ one_packet ∷ [])
    × (r'.cap ≤ small_ring.cap + 2048)
push_complete-contents_example =
    push_complete-contents small_ring one_packet small_ring-IsValid (omega arith) (omega arith)

pop_packet-contents_example :
    ((contents small_ring ≡ []) × (pop_packet small_ring ≡ some (none, small_ring)))
    ⊎ ((pk : Packet) × (r' : Ring) × (pop_packet small_ring ≡ some (some pk, r'))
        × IsValid r'
        × (contents small_ring ≡ pk ∷ contents r'))
pop_packet-contents_example = pop_packet-contents small_ring small_ring-IsValid

lrequest-read_example :
    (bytes : List ℕ) × (pk : Packet) × (lrequest 7 object 5 9 (1 ∷ 2 ∷ [])
      ≡ some (packed 7 bytes, 8))
    × (feed 100 (bytes ++ first_read) (fresh 3) ≡ emit pk (feed 100 first_read (fresh 3)))
    × (unpack pk ≡ record { fd = 3; body = 1 ∷ 2 ∷ []; session = 7; cmd = some 5; traceid = 9 })
lrequest-read_example =
    lrequest-read object 100 3 7 5 9 (1 ∷ 2 ∷ []) first_read (omega arith) (omega arith)
      (omega arith) (omega arith) (omega arith) (omega arith)
