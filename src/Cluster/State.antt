-- ===== src/Cluster/State.antt =====
-- The data of luaclib-src/lcluster.c. A buffer is the list of the bytes that are filled in.
use silly.Common.{ℕ, ◌^◌, List, Option}

-- `struct packet`; `size` is the length of `buff`.
pub record Packet : Type 0 where
  pub fd : ℕ
  pub buff : List ℕ

-- `struct incomplete`: `hdr` is the first `hdr_off` bytes of the header, `buff` is NULL or the
-- first `rsize` bytes of the body.
pub record Incomplete : Type 0 where
  pub fd : ℕ
  pub hdr : List ℕ
  pub buff : Option (List ℕ)

-- The packet queue of `struct netpacket`.
pub record Ring : Type 0 where
  pub cap : ℕ
  pub head : ℕ
  pub tail : ℕ
  pub queue : ℕ → Packet

-- `struct netpacket`; a chain of `hash` is the list that `next` links.
pub record NetPacket : Type 0 where
  pub ring : Ring
  pub hardlimit : ℕ
  pub softlimit : ℕ
  pub hash : ℕ → List Incomplete

-- ERR_HARDLIMIT and ERR_PSIZE.
pub data Error : Type 0 where
  err_hardlimit err_psize : Error

abbrev pub header_size : ℕ
header_size = 4

-- DEFAULT_QUEUE_SIZE and HASH_SIZE.
abbrev pub default_queue_size : ℕ
default_queue_size = 2048

abbrev pub hash_size : ℕ
hash_size = 2048

-- The sizes of `struct request_header` and `struct response_header`.
abbrev pub request_header : ℕ
request_header = 16

abbrev pub response_header : ℕ
response_header = 4

abbrev pub ack_bit : ℕ
ack_bit = 2 ^ 31
