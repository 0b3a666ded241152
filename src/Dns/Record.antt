-- ===== src/Dns/Record.antt =====
-- luaclib-src/ldns.c: the resource records of a response, one reader for each type.
use silly.Common.{
  ℕ, zero, suc, ◌+◌, ◌-◌, ◌*◌, List, [], ◌∷◌, Option, none, some, ltb, ◌==◌, if◌then◌else◌, length,
}
use silly.Dns.{Parse, invalid, done, ◌>>=◌, byte, unpack_u16, unpack_u32, read_name}

-- The address families of `inet_ntop`.
pub data Family : Type 0 where
  inet : Family
  inet6 : Family

-- The part of `struct rr_ctx` that `parse_rr_begin` fills.
pub record RrCtx : Type 0 where
  pub rname : List ℕ
  pub rtype : ℕ
  pub ttl : ℕ
  pub rdlen : ℕ
  pub rdpos : ℕ

-- The value at index 4 of a record's table: a string, or the table of a SRV record.
pub data Rdata : Type 0 where
  text : List ℕ → Rdata
  srv : ℕ → ℕ → ℕ → List ℕ → Rdata

-- The table of a record: name, type, milliseconds to live, and the value, which a negative answer
-- does not have.
pub record Rr : Type 0 where
  pub name : List ℕ
  pub rtype : ℕ
  pub ttl_ms : ℕ
  pub value : Option Rdata

-- `rr_begin`, and what is stored at index 4.
unfoldable pub rr_begin : RrCtx → Option Rdata → Rr
rr_begin ctx value = record {
  name = ctx.rname;
  rtype = ctx.rtype;
  ttl_ms = ctx.ttl * 1000;
  value = value;
}

unfoldable pub push_negative_rr : List ℕ → ℕ → ℕ → Rr
push_negative_rr qname qtype ttl_ms = record {
  name = qname;
  rtype = qtype;
  ttl_ms = ttl_ms;
  value = none;
}

-- The record whose fixed header stands at `next`, if its data lies in the message.
unfoldable pub fixed_header : List ℕ → ℕ → List ℕ → ℕ → ℕ → ℕ → Parse RrCtx
fixed_header msg next rname rtype ttl rdlen =
    if ltb (length msg) (next + 10 + rdlen)
    then invalid
    else done (record { rname = rname; rtype = rtype; ttl = ttl; rdlen = rdlen; rdpos = next + 10 })

unfoldable pub read_fixed : List ℕ → ℕ → List ℕ → Parse RrCtx
unfolding fixed_header
read_fixed msg next rname =
    if ltb (length msg) (next + 10)
    then invalid
    else unpack_u16 msg next >>= λ rtype. unpack_u32 msg (next + 4) >>= λ ttl.
        unpack_u16 msg (next + 8) >>= λ rdlen. fixed_header msg next rname rtype ttl rdlen

unfoldable pub parse_rr_begin : List ℕ → ℕ → Parse RrCtx
unfolding read_fixed
parse_rr_begin msg pos = read_name msg pos >>= λ r. read_fixed msg r.0 r.1

-- The bytes that `inet_ntop` reads.
unfoldable pub address_bytes : ℕ → List ℕ → ℕ → Parse (List ℕ)
address_bytes zero msg pos = done []
address_bytes (suc n) msg pos =
    byte msg pos >>= λ b. address_bytes n msg (pos + 1) >>= λ bs. done (b ∷ bs)

unfoldable pub parse_rr_cname : List ℕ → RrCtx → Parse Rdata
parse_rr_cname msg ctx = read_name msg ctx.rdpos >>= λ r. done (text r.1)

unfoldable pub parse_rr_srv : List ℕ → RrCtx → Parse Rdata
parse_rr_srv msg ctx =
    if ltb ctx.rdlen 6
    then invalid
    else unpack_u16 msg ctx.rdpos >>= λ priority. unpack_u16 msg (ctx.rdpos + 2) >>= λ weight.
        unpack_u16 msg (ctx.rdpos + 4) >>= λ port.
        read_name msg (ctx.rdpos + 6) >>= λ r. done (srv priority weight port r.1)

-- The end of `parse_rr_soa`, with the position behind the two names.
unfoldable pub soa_minimum : List ℕ → RrCtx → ℕ → Parse RrCtx
soa_minimum msg ctx newpos =
    if ltb (length msg) (newpos + 20)
    then invalid
    else unpack_u32 msg (newpos + 20 - 4) >>= λ minimum.
        done (record ctx { ttl = if ltb minimum ctx.ttl then minimum else ctx.ttl })

unfoldable pub parse_rr_soa : List ℕ → RrCtx → Parse RrCtx
unfolding soa_minimum
parse_rr_soa msg ctx = read_name msg ctx.rdpos >>= λ mname.
    read_name msg mname.0 >>= λ rname. soa_minimum msg ctx rname.0

-- `inet_ntop` is the C library's: the text of an address.
module _ (inet_ntop : Family → List ℕ → List ℕ) where
  unfoldable pub parse_rr_a : List ℕ → RrCtx → Parse Rdata
  parse_rr_a msg ctx =
      if ltb ctx.rdlen 4
      then invalid
      else address_bytes 4 msg ctx.rdpos >>= λ bs. done (text (inet_ntop inet bs))

  unfoldable pub parse_rr_aaaa : List ℕ → RrCtx → Parse Rdata
  parse_rr_aaaa msg ctx =
      if ltb ctx.rdlen 16
      then invalid
      else address_bytes 16 msg ctx.rdpos >>= λ bs. done (text (inet_ntop inet6 bs))

  -- The `switch` of `push_rr`.
  unfoldable pub parse_rdata : List ℕ → RrCtx → Parse Rdata
  unfolding parse_rr_a parse_rr_aaaa parse_rr_cname parse_rr_srv
  parse_rdata msg ctx =
      if ctx.rtype == 1
      then parse_rr_a msg ctx
      else if ctx.rtype == 28
      then parse_rr_aaaa msg ctx
      else if ctx.rtype == 5
      then parse_rr_cname msg ctx
      else if ctx.rtype == 33
      then parse_rr_srv msg ctx
      else invalid

  unfoldable pub push_rr : List ℕ → RrCtx → Parse Rr
  unfolding parse_rdata rr_begin
  push_rr msg ctx = parse_rdata msg ctx >>= λ value. done (rr_begin ctx (some value))
