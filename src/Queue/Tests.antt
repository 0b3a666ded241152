-- ===== src/Queue/Tests.antt =====
-- Runs of the queue, and of the pool of its ids, at concrete inputs.
use silly.Common.{◌+◌, ◌≡◌, [], ◌∷◌, some, arith}
use silly.Buffer.{IdPool}
use silly.Buffer.Laws.Ids.{IsOwned}
use silly.Queue.{Queue, lpush}
use silly.Queue.Fifo.{Pushes, Pops, queue-fifo}

abbrev one_id : IdPool
one_id = record { freelist = []; max_id = 1 }

one_id-IsOwned : IsOwned one_id (1 ∷ [])
one_id-IsOwned j = ground arith

-- A full array with one value, behind one that was taken.
abbrev one_value : Queue
one_value = record {
  idx = one_id;
  readi = 1;
  bufcap = 2;
  buf = 5 ∷ 1 ∷ [];
  objects = λ ref. some (ref + 40);
}

queue-fifo_example :
    ((q' : Queue) × (lpush one_value 7 ≡ some q') × Pushes one_value 7 q') × Pops one_value
queue-fifo_example =
    queue-fifo one_value 7 (omega arith, one_id-IsOwned) (omega arith) (omega arith)
