-- ===== src/Dns/Answer.antt =====
-- luaclib-src/ldns.c: `lanswer` and the loop over a response's records.
use silly.Common.{
  ℕ, zero, suc, ◌+◌, ◌/◌, ◌%◌, List, [], ◌∷◌, none, not, ◌&&◌, ltb, ◌==◌, if◌then◌else◌, length,
}
use silly.Dns.{Parse, outside, invalid, done, ◌>>=◌, unpack_u16, read_name, dns_hdr_size}
use silly.Dns.Record.{
  Family, RrCtx, Rr, rr_begin, push_negative_rr, parse_rr_begin, parse_rr_soa, push_rr,
}

-- What the question section says.
pub record Question : Type 0 where
  pub qname : List ℕ
  pub qtype : ℕ

-- The values that `lanswer` returns: nil alone; four of which the last is `tc`; five with nil as
-- records; or five with a table of records.
pub data Reply : Type 0 where
  no_reply : Reply
  truncated : ℕ → Question → Reply
  failed : ℕ → Question → Reply
  answered : ℕ → Question → List Rr → Reply

module _ (inet_ntop : Family → List ℕ → List ℕ) where
  -- A SOA record becomes a negative answer to the question.
  unfoldable pub parse_rr : List ℕ → Question → RrCtx → Parse Rr
  parse_rr msg q ctx =
      if ctx.rtype == 6
      then (parse_rr_soa msg ctx >>= λ soa.
          done (rr_begin (record soa { rname = q.qname; rtype = q.qtype }) none))
      else push_rr inet_ntop msg ctx

  -- `lua_rawseti(L, tbl, ++n)`, unless the record was refused.
  unfoldable pub keep_rr : Parse Rr → Parse (List Rr) → Parse (List Rr)
  keep_rr outside rest = outside
  keep_rr invalid rest = rest
  keep_rr (done rr) rest = rest >>= λ rrs. done (rr ∷ rrs)

  -- The body of the loop of `push_rrs` after `parse_rr_begin`: its failure is the `break`. `next`
  -- is the rest of the loop.
  unfoldable pub push_step :
      (ℕ → Parse (List Rr)) → List ℕ → Question → Parse RrCtx → Parse (List Rr)
  unfolding parse_rr keep_rr
  push_step next msg q outside = outside
  push_step next msg q invalid = done []
  push_step next msg q (done ctx) = keep_rr (parse_rr msg q ctx) (next (ctx.rdpos + ctx.rdlen))

  unfoldable pub push_rrs : ℕ → List ℕ → Question → ℕ → Parse (List Rr)
  unfolding push_step
  push_rrs zero msg q offset = done []
  push_rrs (suc count) msg q offset =
      push_step (push_rrs count msg q) msg q (parse_rr_begin msg offset)

  -- A name error with no usable record.
  unfoldable pub add_negative : ℕ → Question → List Rr → List Rr
  unfolding push_negative_rr
  add_negative rcode q [] = if rcode == 3 then push_negative_rr q.qname q.qtype 5000 ∷ [] else []
  add_negative rcode q (rr ∷ rrs) = rr ∷ rrs

  -- `lanswer` from the five pushes on.
  unfoldable pub answer_records : List ℕ → ℕ → ℕ → Question → ℕ → ℕ → Parse Reply
  unfolding push_rrs add_negative
  answer_records msg id flags q total_rr offset =
      if flags / 512 % 2 == 1
      then done (truncated id q)
      else if not (flags % 16 == 0) && not (flags % 16 == 3)
      then done (failed id q)
      else if ltb 1000 total_rr
      then done no_reply
      else push_rrs total_rr msg q offset >>= λ rrs.
          done (answered id q (add_negative (flags % 16) q rrs))

  -- `lanswer` behind the question's name.
  unfoldable pub answer_question : List ℕ → ℕ → ℕ → ℕ → ℕ × List ℕ → Parse Reply
  unfolding answer_records
  answer_question msg id flags total_rr (newpos, qname) =
      if ltb (length msg) (newpos + 4)
      then done no_reply
      else unpack_u16 msg newpos >>= λ qtype.
          answer_records msg id flags (record { qname = qname; qtype = qtype }) total_rr
            (newpos + 4)

  -- A name that is refused ends `lanswer` with nil.
  unfoldable pub answer_name : List ℕ → ℕ → ℕ → ℕ → Parse (ℕ × List ℕ) → Parse Reply
  unfolding answer_question
  answer_name msg id flags total_rr outside = outside
  answer_name msg id flags total_rr invalid = done no_reply
  answer_name msg id flags total_rr (done r) = answer_question msg id flags total_rr r

  unfoldable pub answer_header : List ℕ → ℕ → Parse Reply
  unfolding answer_name
  answer_header msg flags =
      if not (flags / 32768 % 2 == 1)
      then done no_reply
      else unpack_u16 msg 0 >>= λ id. unpack_u16 msg 4 >>= λ qdcount.
          unpack_u16 msg 6 >>= λ ancount. unpack_u16 msg 8 >>= λ nscount.
          unpack_u16 msg 10 >>= λ arcount.
          if not (qdcount == 1)
          then done no_reply
          else answer_name msg id flags (ancount + nscount + arcount) (read_name msg dns_hdr_size)

  unfoldable pub lanswer : List ℕ → Parse Reply
  unfolding answer_header
  lanswer msg =
      if ltb (length msg) dns_hdr_size
      then done no_reply
      else unpack_u16 msg 2 >>= λ flags. answer_header msg flags
