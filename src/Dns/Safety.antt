-- ===== src/Dns/Safety.antt =====
-- luaclib-src/ldns.c: `lanswer` on any message.
use silly.Common.{
  ℕ, zero, suc, ◌+◌, ◌/◌, ◌%◌, ◌≤◌, refl, List, [], ◌∷◌, arith, length, All, inl, inr, not, ◌&&◌,
  Bool-cases, ltb, ◌==◌,
}
use silly.Dns.{Parse, outside, invalid, done, ◌>>=◌, unpack_u16, read_name}
use silly.Dns.Access.{Inside, Inside-map, Always, >>=-Inside, unpack_u16-Inside}
use silly.Dns.Name.{IsRead, read_name-Inside}
use silly.Dns.Rdata.{IsHeader, Answers, parse_rr_begin-Inside, parse_rr-Inside}
use silly.Dns.Record.{Family, RrCtx, Rr, push_negative_rr, parse_rr_begin}
use silly.Dns.Answer.{
  Question, Reply, no_reply, truncated, failed, answered, parse_rr, keep_rr, push_step, push_rrs,
  add_negative, answer_records, answer_question, answer_name, answer_header, lanswer,
}

-- At most `n` records, each of which answers the question.
abbrev pub AllAnswer : Question → ℕ → List Rr → Type 0
AllAnswer q n rrs = All (Answers q) rrs × (length rrs ≤ n)

-- A table of records holds at most 1000, each with a value of its type or a negative answer to
-- the question, whose name fits its buffer.
abbrev pub IsReply : Reply → Type 0
IsReply no_reply = Unit {0}
IsReply (truncated id q) = length q.qname ≤ 254
IsReply (failed id q) = length q.qname ≤ 254
IsReply (answered id q rrs) = AllAnswer q 1000 rrs × (length q.qname ≤ 254)

keep_rr-Inside :
    (inet_ntop : Family → List ℕ → List ℕ) (q : Question) (n : ℕ) (r : Parse Rr)
    (rest : Parse (List Rr))
    → Inside (Answers q) r
    → Inside (AllAnswer q n) rest
    → Inside (AllAnswer q (suc n)) (keep_rr inet_ntop r rest)
unfolding keep_rr
keep_rr-Inside ntop q n outside rest h k = h
keep_rr-Inside ntop q n invalid rest h k =
    Inside-map (AllAnswer q n) (AllAnswer q (suc n)) rest (λ rrs e. (e.0, omega arith)) k
keep_rr-Inside ntop q n (done rr) rest h k =
    >>=-Inside (AllAnswer q n) (AllAnswer q (suc n)) rest _ k λ rrs e. ((h, e.0), omega arith)

push_step-Inside :
    (inet_ntop : Family → List ℕ → List ℕ) (next : ℕ → Parse (List Rr)) (count : ℕ) (msg : List ℕ)
    (q : Question) (r : Parse RrCtx)
    → Inside (IsHeader msg) r
    → ((off : ℕ) → Inside (AllAnswer q count) (next off))
    → Inside (AllAnswer q (suc count)) (push_step inet_ntop next msg q r)
unfolding push_step
push_step-Inside ntop next count msg q outside h ih = h
push_step-Inside ntop next count msg q invalid h ih = (tt, omega arith)
push_step-Inside ntop next count msg q (done ctx) h ih =
    keep_rr-Inside ntop q count (parse_rr ntop msg q ctx) _ (parse_rr-Inside msg ctx h ntop q)
      (ih (ctx.rdpos + ctx.rdlen))

push_rrs-Inside :
    (inet_ntop : Family → List ℕ → List ℕ) (count : ℕ) (msg : List ℕ) (q : Question) (offset : ℕ)
    → Inside (AllAnswer q count) (push_rrs inet_ntop count msg q offset)
unfolding push_rrs
push_rrs-Inside ntop zero msg q offset = (tt, omega arith)
push_rrs-Inside ntop (suc count) msg q offset =
    push_step-Inside ntop (push_rrs ntop count msg q) count msg q (parse_rr_begin msg offset)
      (parse_rr_begin-Inside msg offset) (push_rrs-Inside ntop count msg q)

module _ (inet_ntop : Family → List ℕ → List ℕ) where
  add_negative_lem :
      (rcode : ℕ) (q : Question) (n : ℕ) (rrs : List Rr)
      → n ≤ 1000
      → AllAnswer q n rrs
      → AllAnswer q 1000 (add_negative inet_ntop rcode q rrs)
  unfolding add_negative push_negative_rr
  add_negative_lem rcode q n [] hn h = elim (Bool-cases (rcode == 3)) [
    | inl e ↦ rw e (((refl, refl), tt), omega arith)
    | inr e ↦ rw e (tt, omega arith)
  ]
  add_negative_lem rcode q n (rr ∷ rrs) hn h = (h.0, omega arith)

  answer_records-Inside :
      (msg : List ℕ) (id flags : ℕ) (q : Question) (total offset : ℕ)
      → length q.qname ≤ 254
      → Inside IsReply (answer_records inet_ntop msg id flags q total offset)
  unfolding answer_records
  answer_records-Inside msg id flags q total offset hq = elim (Bool-cases (flags / 512 % 2 == 1)) [
    | inl e ↦ rw e hq
    | inr e ↦ rw e (elim (Bool-cases (not (flags % 16 == 0) && not (flags % 16 == 3))) [
      | inl f ↦ rw f hq
      | inr f ↦ rw f (elim (Bool-cases (ltb 1000 total)) [
        | inl g ↦ rw g tt
        | inr g ↦ rw g (
            >>=-Inside (AllAnswer q total) IsReply (push_rrs inet_ntop total msg q offset) _
              (push_rrs-Inside inet_ntop total msg q offset)
              λ rrs h. (add_negative_lem (flags % 16) q total rrs (ground arith) h, hq))
      ])
    ])
  ]

  answer_question-Inside :
      (msg : List ℕ) (id flags total newpos : ℕ) (qname : List ℕ)
      → length qname ≤ 254
      → Inside IsReply (answer_question inet_ntop msg id flags total (newpos, qname))
  unfolding answer_question
  answer_question-Inside msg id flags total newpos qname hq =
      elim (Bool-cases (ltb (length msg) (newpos + 4))) [
        | inl e ↦ rw e tt
        | inr e ↦ rw e (
            >>=-Inside Always IsReply (unpack_u16 msg newpos) _
              (unpack_u16-Inside msg newpos (ground arith))
              λ qtype _.
                answer_records-Inside msg id flags (record { qname = qname; qtype = qtype }) total
                  (newpos + 4) hq)
      ]

  answer_name-Inside :
      (msg : List ℕ) (id flags total : ℕ) (r : Parse (ℕ × List ℕ))
      → Inside (IsRead msg) r
      → Inside IsReply (answer_name inet_ntop msg id flags total r)
  unfolding answer_name
  answer_name-Inside msg id flags total outside h = h
  answer_name-Inside msg id flags total invalid h = tt
  answer_name-Inside msg id flags total (done r) h =
      answer_question-Inside msg id flags total r.0 r.1 (omega arith)

  answer_header-Inside :
      (msg : List ℕ) (flags : ℕ)
      → 12 ≤ length msg
      → Inside IsReply (answer_header inet_ntop msg flags)
  unfolding answer_header
  answer_header-Inside msg flags hm = elim (Bool-cases (not (flags / 32768 % 2 == 1))) [
    | inl e ↦ rw e tt
    | inr e ↦ rw e (
        field 0 _ (omega arith) λ id. field 4 _ (omega arith) λ qd. field 6 _ (omega arith) λ an.
          field 8 _ (omega arith) λ ns. field 10 _ (omega arith) λ ar.
            elim (Bool-cases (not (qd == 1))) [
              | inl f ↦ rw f tt
              | inr f ↦ rw f (
                  answer_name-Inside msg id flags (an + ns + ar) (read_name msg 12)
                    (read_name-Inside msg 12))
            ])
  ]
    where
      field :
          (i : ℕ) (f : ℕ → Parse Reply)
          → i + 2 ≤ length msg
          → ((v : ℕ) → Inside IsReply (f v))
          → Inside IsReply (unpack_u16 msg i >>= f)
      field i f h k =
          >>=-Inside Always IsReply (unpack_u16 msg i) f (unpack_u16-Inside msg i h) (λ v _. k v)

  -- On any message, `lanswer` reads no byte outside it and writes no byte outside its buffers.
  -- Where it returns a table of records, these are at most 1000, each either has the value of its
  -- type (a string for A, AAAA and CNAME, a table for SRV) or is a negative answer, which has the
  -- question's name and type and no value; and the question's name has at most 254 bytes.
  pub lanswer-Inside : (msg : List ℕ) → Inside IsReply (lanswer inet_ntop msg)
  unfolding lanswer
  lanswer-Inside msg = elim (Bool-cases (ltb (length msg) 12)) [
    | inl e ↦ rw e tt
    | inr e ↦ rw e (
        >>=-Inside Always IsReply (unpack_u16 msg 2) _ (unpack_u16-Inside msg 2 (ground arith))
          λ flags _. answer_header-Inside msg flags (ground arith))
  ]
