-- ===== src/Dns/Echo.antt =====
-- luaclib-src/ldns.c: `lanswer` on a response that repeats the query of `lquestion`.
use silly.Common.{
  ℕ, ◌+◌, ◌*◌, ◌/◌, ◌%◌, ◌<◌, ◌≤◌, ◌≡◌, refl, ap, ap₂, ◌∙◌, List, [], ◌∷◌, ◌++◌, map, arith, length,
  drop, take, some, true, false, not, ◌&&◌, Bool-cases, inl, inr, ltb, leb, ◌==◌,
}
use silly.Dns.{done, byte, unpack_u16, unpack_u32, read_name, drop_last, tolower}
use silly.Dns.Access.{byte-drop}
use silly.Common.Int.{pos}
use silly.Dns.Query.{
  lvalidname, pack_u16, q_header, q_name, q_type, q_opt, in_range, build_query, lquestion,
}
use silly.Dns.RoundTrip.{drop-step, lt-length_of_drop, read_loop-root}
use silly.Dns.Spelling.{without_dot, read_name-q_name}
use silly.Dns.Record.{
  Family, RrCtx, push_negative_rr, parse_rr_begin, read_fixed, fixed_header, parse_rdata, push_rr,
}
use silly.Dns.Answer.{
  Question, answered, parse_rr, keep_rr, push_step, push_rrs, add_negative, answer_records,
  answer_question, answer_name, answer_header, lanswer,
}

-- The query with other flags: what a server returns that knows no record of the name.
unfoldable pub with_flags : ℕ → List ℕ → List ℕ
with_flags flags query = take 2 query ++ (pack_u16 flags ++ drop 4 query)

unpack_u16-drop :
    (msg : List ℕ) (i a b : ℕ) (r : List ℕ)
    → drop i msg ≡ a ∷ b ∷ r
    → unpack_u16 msg i ≡ done (a * 256 + b)
unfolding unpack_u16
unpack_u16-drop msg i a b r e =
    rw (byte-drop msg i a (b ∷ r) e, byte-drop msg (i + 1) b r (drop-step i msg (a ∷ []) (b ∷ r) e))

unpack_u32-drop :
    (msg : List ℕ) (i a b c d : ℕ) (r : List ℕ)
    → drop i msg ≡ a ∷ b ∷ c ∷ d ∷ r
    → unpack_u32 msg i ≡ done (a * 16777216 + b * 65536 + c * 256 + d)
unfolding unpack_u32
unpack_u32-drop msg i a b c d r e = rw (
  byte-drop msg i a (b ∷ c ∷ d ∷ r) e,
  byte-drop msg (i + 1) b (c ∷ d ∷ r) (drop-step i msg (a ∷ []) (b ∷ c ∷ d ∷ r) e),
  byte-drop msg (i + 2) c (d ∷ r) (drop-step i msg (a ∷ b ∷ []) (c ∷ d ∷ r) e),
  byte-drop msg (i + 3) d r (drop-step i msg (a ∷ b ∷ c ∷ []) (d ∷ r) e),
)

abbrev opt_ctx : ℕ → RrCtx
opt_ctx rdpos = record { rname = []; rtype = 41; ttl = 0; rdlen = 0; rdpos = rdpos }

read_fixed-q_opt :
    (msg : List ℕ) (i : ℕ)
    → drop i msg ≡ 0 ∷ 41 ∷ 16 ∷ 0 ∷ 0 ∷ 0 ∷ 0 ∷ 0 ∷ 0 ∷ 0 ∷ []
    → read_fixed msg i [] ≡ done (opt_ctx (i + 10))
unfolding read_fixed fixed_header
read_fixed-q_opt msg i e =
    let tail : List ℕ = 0 ∷ 0 ∷ 0 ∷ 0 ∷ 0 ∷ 0 ∷ [] in
    let long : i + 10 ≤ length msg =
      lt-length_of_drop i msg (0 ∷ 41 ∷ 16 ∷ 0 ∷ tail) [] e (omega arith) in
    let a : ltb (length msg) (i + 10) ≡ false = ground arith in
    let b : ltb (length msg) (i + 10 + 0) ≡ false = ground arith in
    rw (
      a,
      unpack_u16-drop msg i 0 41 (16 ∷ 0 ∷ tail) e,
      unpack_u32-drop msg (i + 4) 0 0 0 0 (0 ∷ 0 ∷ [])
          (drop-step i msg (0 ∷ 41 ∷ 16 ∷ 0 ∷ []) tail e),
      unpack_u16-drop msg (i + 8) 0 0 []
          (drop-step i msg (0 ∷ 41 ∷ 16 ∷ 0 ∷ 0 ∷ 0 ∷ 0 ∷ 0 ∷ []) (0 ∷ 0 ∷ []) e),
      b,
    )

parse_rr_begin-q_opt :
    (msg : List ℕ) (i : ℕ) → drop i msg ≡ q_opt → parse_rr_begin msg i ≡ done (opt_ctx (i + 1 + 10))
unfolding parse_rr_begin q_opt read_name drop_last
parse_rr_begin-q_opt msg i e =
    let fields : List ℕ = 0 ∷ 41 ∷ 16 ∷ 0 ∷ 0 ∷ 0 ∷ 0 ∷ 0 ∷ 0 ∷ 0 ∷ [] in
    rw (read_loop-root 127 fields msg i [] e (omega arith))
      (read_fixed-q_opt msg (i + 1) (drop-step i msg (0 ∷ []) fields e))

module _ (inet_ntop : Family → List ℕ → List ℕ) where
  -- The EDNS0 record of the query is skipped.
  push_rrs-q_opt :
      (msg : List ℕ) (q : Question) (i : ℕ)
      → drop i msg ≡ q_opt
      → push_rrs inet_ntop 1 msg q i ≡ done []
  unfolding push_rrs push_step parse_rr keep_rr push_rr parse_rdata
  push_rrs-q_opt msg q i e = rw (parse_rr_begin-q_opt msg i e)

  -- The question section of the query, and what follows from it.
  answer_name-query :
      (msg name : List ℕ) (qtype id flags : ℕ)
      → lvalidname name ≡ true
      → qtype ≤ 65535
      → (flags / 512 % 2 == 1) ≡ false
      → (flags % 16 == 3) ≡ true
      → drop 12 msg ≡ q_name name ++ (q_type qtype ++ q_opt)
      → answer_name inet_ntop msg id flags 1 (read_name msg 12)
        ≡ done (
            answered id
              (record { qname = map tolower (without_dot name); qtype = qtype })
              (push_negative_rr (map tolower (without_dot name)) qtype 5000 ∷ []))
  unfolding answer_name answer_question answer_records add_negative q_type pack_u16
  answer_name-query msg name qtype id flags valid hq tc rcode e =
      let lower : List ℕ = map tolower (without_dot name) in
      let i : ℕ = 12 + length (q_name name) in
      let q : Question = record { qname = lower; qtype = qtype } in
      let typed : drop i msg ≡ q_type qtype ++ q_opt =
        drop-step 12 msg (q_name name) (q_type qtype ++ q_opt) e in
      let behind : drop (i + 4) msg ≡ q_opt = drop-step i msg (q_type qtype) q_opt typed in
      let long : i + 4 ≤ length msg =
        lt-length_of_drop i msg (q_type qtype) q_opt typed (omega arith) in
      let fits : ltb (length msg) (i + 4) ≡ false = ground arith in
      let read : unpack_u16 msg i ≡ done qtype =
        unpack_u16-drop msg i (qtype / 256 % 256) (qtype % 256) (0 ∷ 1 ∷ q_opt) typed
        ∙ ap (λ (k : ℕ). done k) (omega arith) in
      let ok : (not (flags % 16 == 0) && not (flags % 16 == 3)) ≡ false = ground arith in
      rw (read_name-q_name name (q_type qtype ++ q_opt) msg 12 valid e)
        (rw (fits, read, tc, ok, push_rrs-q_opt msg q (i + 4) behind, rcode))

  -- The header of such a message.
  lanswer-header :
      (ih il fh fl : ℕ) (body : List ℕ)
      → ((fh * 256 + fl) / 32768 % 2 == 1) ≡ true
      → let msg : List ℕ = ih ∷ il ∷ fh ∷ fl ∷ 0 ∷ 1 ∷ 0 ∷ 0 ∷ 0 ∷ 0 ∷ 0 ∷ 1 ∷ body in
        lanswer inet_ntop msg
        ≡ answer_name inet_ntop msg (ih * 256 + il) (fh * 256 + fl) 1 (read_name msg 12)
  unfolding lanswer answer_header unpack_u16 byte
  lanswer-header ih il fh fl body qr =
      let msg : List ℕ = ih ∷ il ∷ fh ∷ fl ∷ 0 ∷ 1 ∷ 0 ∷ 0 ∷ 0 ∷ 0 ∷ 0 ∷ 1 ∷ body in
      let long : ltb (length msg) 12 ≡ false = ground arith in rw (long, qr)

  lquestion_lem :
      (name : List ℕ) (qtype id : ℕ) (query : List ℕ)
      → lquestion name (pos qtype) (pos id) ≡ some query
      → (qtype ≤ 65535)
        × (id ≤ 65535)
        × (query ≡ q_header id ++ (q_name name ++ (q_type qtype ++ q_opt)))
  unfolding lquestion in_range build_query
  lquestion_lem name qtype id query h = elim (Bool-cases (leb 1 qtype && leb qtype 65535)) [
    | inl e ↦ elim (Bool-cases (leb 0 id && leb id 65535)) [
      | inl f ↦
          let same : some (q_header id ++ (q_name name ++ (q_type qtype ++ q_opt))) ≡ some query =
            rw (e, f) at h in
          (ground arith, ground arith, cc)
      | inr f ↦ cc (rw (e, f) at h)
    ]
    | inr e ↦ cc (rw e at h)
  ]

  -- A server's name error that repeats the query of `lquestion`, with the response bit and without
  -- the truncation bit: `lanswer` returns the query's id and type, its name in lower case and
  -- without a trailing dot, and one negative answer to it that lives for 5000 ms. The name is one
  -- that `lvalidname` accepts.
  pub lanswer-lquestion :
      (name : List ℕ) (qtype id flags : ℕ) (query : List ℕ)
      → lvalidname name ≡ true
      → lquestion name (pos qtype) (pos id) ≡ some query
      → flags < 65536
      → 32768 ≤ flags
      → flags / 512 % 2 ≡ 0
      → flags % 16 ≡ 3
      → let lower = map tolower (without_dot name) in
        lanswer inet_ntop (with_flags flags query)
        ≡ done (
            answered id
              (record { qname = lower; qtype = qtype })
              (push_negative_rr lower qtype 5000 ∷ []))
  unfolding with_flags q_header pack_u16
  lanswer-lquestion name qtype id flags query valid sent hf qr tc rcode =
      let (hq, hi, e) = lquestion_lem name qtype id query sent in
      let body : List ℕ = q_name name ++ (q_type qtype ++ q_opt) in
      let msg : List ℕ = with_flags flags (q_header id ++ body) in
      ap (λ (m : List ℕ). lanswer inet_ntop (with_flags flags m)) e
      ∙ lanswer-header (id / 256 % 256) (id % 256) (flags / 256 % 256) (flags % 256) body
          (ground arith)
      ∙ ap₂ (λ (i f : ℕ). answer_name inet_ntop msg i f 1 (read_name msg 12)) (omega arith)
          (omega arith)
      ∙ answer_name-query msg name qtype id flags valid hq (ground arith) (ground arith) refl
