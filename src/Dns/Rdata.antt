-- ===== src/Dns/Rdata.antt =====
-- luaclib-src/ldns.c: the readers of a resource record on any message.
use silly.Common.{
  ℕ, ◌+◌, ◌-◌, ◌≤◌, ◌≡◌, refl, List, arith, length, ◌⊎◌, inl, inr, Option, none, some, Bool-cases,
  ltb, ◌==◌, ==_iff,
}
use silly.Dns.{unpack_u16, unpack_u32, read_name}
use silly.Dns.Access.{
  Inside, Always, >>=-Inside, unpack_u16-Inside, unpack_u32-Inside, address_bytes-Inside,
}
use silly.Dns.Name.{IsRead, read_name-Inside}
use silly.Dns.Record.{
  Family, RrCtx, Rdata, text, srv, Rr, rr_begin, fixed_header, read_fixed, parse_rr_begin,
  address_bytes, parse_rr_cname, parse_rr_srv, soa_minimum, parse_rr_soa, parse_rr_a, parse_rr_aaaa,
  parse_rdata, push_rr,
}
use silly.Dns.Answer.{Question, parse_rr}

-- The data lies in the message, and the name in its buffer.
abbrev pub IsHeader : List ℕ → RrCtx → Type 0
IsHeader msg ctx = (ctx.rdpos + ctx.rdlen ≤ length msg) × (length ctx.rname ≤ 254)

-- The value that a record of a type carries: a string for A, AAAA and CNAME, a table for SRV.
abbrev pub HasType : ℕ → Rdata → Type 0
HasType rtype (text s) = (rtype ≡ 1) ⊎ (rtype ≡ 28) ⊎ (rtype ≡ 5)
HasType rtype (srv p w q t) = rtype ≡ 33

-- A record with a value of its type, or a negative answer to the question, which has none.
abbrev ValueAnswers : Question → Rr → Option Rdata → Type 0
ValueAnswers q rr none = (rr.name ≡ q.qname) × (rr.rtype ≡ q.qtype)
ValueAnswers q rr (some v) = HasType rr.rtype v

abbrev pub Answers : Question → Rr → Type 0
Answers q rr = ValueAnswers q rr rr.value

read_fixed-Inside :
    (msg : List ℕ) (next : ℕ) (rname : List ℕ)
    → length rname ≤ 254
    → Inside (IsHeader msg) (read_fixed msg next rname)
unfolding read_fixed fixed_header
read_fixed-Inside msg next rname h = elim (Bool-cases (ltb (length msg) (next + 10))) [
  | inl e ↦ rw e tt
  | inr e ↦ rw e (
      >>=-Inside Always (IsHeader msg) (unpack_u16 msg next) _
        (unpack_u16-Inside msg next (ground arith))
        λ rtype _.
          >>=-Inside Always (IsHeader msg) (unpack_u32 msg (next + 4)) _
            (unpack_u32-Inside msg (next + 4) (ground arith))
            λ ttl _.
              >>=-Inside Always (IsHeader msg) (unpack_u16 msg (next + 8)) _
                (unpack_u16-Inside msg (next + 8) (ground arith))
                λ rdlen _. elim (Bool-cases (ltb (length msg) (next + 10 + rdlen))) [
                  | inl f ↦ rw f tt
                  | inr f ↦ rw f (ground arith, h)
                ])
]

pub parse_rr_begin-Inside :
    (msg : List ℕ) (pos : ℕ) → Inside (IsHeader msg) (parse_rr_begin msg pos)
unfolding parse_rr_begin
parse_rr_begin-Inside msg pos =
    >>=-Inside (IsRead msg) (IsHeader msg) (read_name msg pos) _ (read_name-Inside msg pos)
      λ r h. read_fixed-Inside msg r.0 r.1 (omega arith)

module _ (msg : List ℕ) (ctx : RrCtx) (header : IsHeader msg ctx) where
  cname-Inside : ctx.rtype ≡ 5 → Inside (HasType ctx.rtype) (parse_rr_cname msg ctx)
  unfolding parse_rr_cname
  cname-Inside e =
      >>=-Inside (IsRead msg) (HasType ctx.rtype) (read_name msg ctx.rdpos) _
        (read_name-Inside msg ctx.rdpos) λ r h. inr (inr e)

  srv-Inside : ctx.rtype ≡ 33 → Inside (HasType ctx.rtype) (parse_rr_srv msg ctx)
  unfolding parse_rr_srv
  srv-Inside e = elim (Bool-cases (ltb ctx.rdlen 6)) [
    | inl f ↦ rw f tt
    | inr f ↦ rw f (
        >>=-Inside Always (HasType ctx.rtype) (unpack_u16 msg ctx.rdpos) _
          (unpack_u16-Inside msg ctx.rdpos (ground arith))
          λ p _.
            >>=-Inside Always (HasType ctx.rtype) (unpack_u16 msg (ctx.rdpos + 2)) _
              (unpack_u16-Inside msg (ctx.rdpos + 2) (ground arith))
              λ w _.
                >>=-Inside Always (HasType ctx.rtype) (unpack_u16 msg (ctx.rdpos + 4)) _
                  (unpack_u16-Inside msg (ctx.rdpos + 4) (ground arith))
                  λ q _.
                    >>=-Inside (IsRead msg) (HasType ctx.rtype) (read_name msg (ctx.rdpos + 6)) _
                      (read_name-Inside msg (ctx.rdpos + 6)) λ r h. e)
  ]

  soa_minimum-Inside : (newpos : ℕ) → Inside Always (soa_minimum msg ctx newpos)
  unfolding soa_minimum
  soa_minimum-Inside newpos = elim (Bool-cases (ltb (length msg) (newpos + 20))) [
    | inl f ↦ rw f tt
    | inr f ↦ rw f (
        >>=-Inside Always Always (unpack_u32 msg (newpos + 20 - 4)) _
          (unpack_u32-Inside msg (newpos + 20 - 4) (ground arith)) λ m _. tt)
  ]

  soa-Inside : Inside Always (parse_rr_soa msg ctx)
  unfolding parse_rr_soa
  soa-Inside =
      >>=-Inside (IsRead msg) Always (read_name msg ctx.rdpos) _ (read_name-Inside msg ctx.rdpos)
        λ m _.
          >>=-Inside (IsRead msg) Always (read_name msg m.0) _ (read_name-Inside msg m.0)
            λ r _. soa_minimum-Inside r.0

  module _ (inet_ntop : Family → List ℕ → List ℕ) where
    a-Inside : ctx.rtype ≡ 1 → Inside (HasType ctx.rtype) (parse_rr_a inet_ntop msg ctx)
    unfolding parse_rr_a
    a-Inside e = elim (Bool-cases (ltb ctx.rdlen 4)) [
      | inl f ↦ rw f tt
      | inr f ↦ rw f (
          >>=-Inside Always (HasType ctx.rtype) (address_bytes 4 msg ctx.rdpos) _
            (address_bytes-Inside 4 msg ctx.rdpos (ground arith)) λ bs _. inl e)
    ]

    aaaa-Inside : ctx.rtype ≡ 28 → Inside (HasType ctx.rtype) (parse_rr_aaaa inet_ntop msg ctx)
    unfolding parse_rr_aaaa
    aaaa-Inside e = elim (Bool-cases (ltb ctx.rdlen 16)) [
      | inl f ↦ rw f tt
      | inr f ↦ rw f (
          >>=-Inside Always (HasType ctx.rtype) (address_bytes 16 msg ctx.rdpos) _
            (address_bytes-Inside 16 msg ctx.rdpos (ground arith)) λ bs _. inr (inl e))
    ]

    parse_rdata-Inside : Inside (HasType ctx.rtype) (parse_rdata inet_ntop msg ctx)
    unfolding parse_rdata
    parse_rdata-Inside = elim (Bool-cases (ctx.rtype == 1)) [
      | inl e ↦ rw e (a-Inside ((==_iff _ _).0 e))
      | inr e ↦ rw e (elim (Bool-cases (ctx.rtype == 28)) [
        | inl f ↦ rw f (aaaa-Inside ((==_iff _ _).0 f))
        | inr f ↦ rw f (elim (Bool-cases (ctx.rtype == 5)) [
          | inl g ↦ rw g (cname-Inside ((==_iff _ _).0 g))
          | inr g ↦ rw g (elim (Bool-cases (ctx.rtype == 33)) [
            | inl k ↦ rw k (srv-Inside ((==_iff _ _).0 k))
            | inr k ↦ rw k tt
          ])
        ])
      ])
    ]

    pub parse_rr-Inside : (q : Question) → Inside (Answers q) (parse_rr inet_ntop msg q ctx)
    unfolding parse_rr push_rr rr_begin
    parse_rr-Inside q = elim (Bool-cases (ctx.rtype == 6)) [
      | inl e ↦
          rw e (
            >>=-Inside Always (Answers q) (parse_rr_soa msg ctx) _ soa-Inside λ soa _. (refl, refl))
      | inr e ↦ rw e (
          >>=-Inside (HasType ctx.rtype) (Answers q) (parse_rdata inet_ntop msg ctx) _
            parse_rdata-Inside λ v h. h)
    ]
