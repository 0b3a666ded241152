-- ===== src/Dns/Tests.antt =====
-- luaclib-src/ldns.c: runs on small messages, and the theorems at concrete inputs.
use silly.Common.{
  ℕ, ◌+◌, ◌<◌, ◌≤◌, ◌≡◌, ◌↔◌, refl, List, [], ◌∷◌, ◌++◌, some, true, arith, length, map,
}
use silly.Dns.{done, invalid, read_name, tolower, byte, copy_label, write, unpack_u16, unpack_u32}
use silly.Dns.Access.{Inside}
use silly.Dns.Name.{IsRead, read_name-Inside}
use silly.Dns.Safety.{IsReply, lanswer-Inside}
use silly.Dns.Labels.{ValidLabels, lvalidname_iff}
use silly.Dns.Spelling.{without_dot, read_name-q_name}
use silly.Dns.Echo.{with_flags, lanswer-lquestion}
use silly.Dns.Query.{lvalidname, labels, q_name, lquestion}
use silly.Dns.Record.{Family, text, push_negative_rr, parse_rr_begin, push_rr, address_bytes}
use silly.Dns.Answer.{answered, lanswer}

-- The bytes of an address stand for its text.
abbrev plain : Family → List ℕ → List ℕ
plain family bytes = bytes

-- "aB.c", and what `q_name` makes of it.
abbrev name : List ℕ
name = 97 ∷ 66 ∷ 46 ∷ 99 ∷ []

abbrev written : List ℕ
written = 2 ∷ 97 ∷ 66 ∷ 1 ∷ 99 ∷ 0 ∷ []

-- A label, a pointer to "c", and a pointer to itself.
pointers :
    read_name (written ++ 1 ∷ 120 ∷ 192 ∷ 3 ∷ 192 ∷ 10 ∷ []) 6 ≡ done (10, 120 ∷ 46 ∷ 99 ∷ [])
unfolding read_name byte copy_label write tolower
pointers = refl

pointer_to_itself : read_name (written ++ 1 ∷ 120 ∷ 192 ∷ 3 ∷ 192 ∷ 10 ∷ []) 10 ≡ invalid
unfolding read_name byte
pointer_to_itself = refl

-- A response to a query for "c" of type A, with one record of 60 seconds, named by a pointer.
abbrev response : List ℕ
response =
    0 ∷ 7 ∷ 129 ∷ 128 ∷ 0 ∷ 1 ∷ 0 ∷ 1 ∷ 0 ∷ 0 ∷ 0 ∷ 0 ∷ 1 ∷ 67 ∷ 0 ∷ 0 ∷ 1 ∷ 0 ∷ 1 ∷ 192 ∷ 12 ∷ 0
    ∷ 1 ∷ 0 ∷ 1 ∷ 0 ∷ 0 ∷ 0 ∷ 60 ∷ 0 ∷ 4 ∷ 10 ∷ 0 ∷ 0 ∷ 9 ∷ []

address :
    lanswer plain response
    ≡ done (
        answered 7
          (record { qname = 99 ∷ []; qtype = 1 })
          (record {
            name = 99 ∷ [];
            rtype = 1;
            ttl_ms = 60000;
            value = some (text (10 ∷ 0 ∷ 0 ∷ 9 ∷ []));
          }
            ∷ []))
unfolding lanswer read_name unpack_u16 byte copy_label write parse_rr_begin unpack_u32 push_rr
    address_bytes tolower
address = refl

lanswer-Inside_example : Inside IsReply (lanswer plain response)
lanswer-Inside_example = lanswer-Inside plain response

read_name-Inside_example : Inside (IsRead response) (read_name response 19)
read_name-Inside_example = read_name-Inside response 19

lvalidname_iff_example :
    (lvalidname name ≡ true) ↔ ((0 < length name) × (length name ≤ 253) × ValidLabels (labels name))
lvalidname_iff_example = lvalidname_iff name

read_name-q_name_example :
    read_name written 0 ≡ done (0 + length (q_name name), map tolower (without_dot name))
unfolding lvalidname q_name
read_name-q_name_example = read_name-q_name name [] written 0 refl refl

-- The query for "aB.c" of type 28 under the number 300.
abbrev query : List ℕ
query =
    1 ∷ 44 ∷ 1 ∷ 0 ∷ 0 ∷ 1 ∷ 0 ∷ 0 ∷ 0 ∷ 0 ∷ 0 ∷ 1 ∷ 2 ∷ 97 ∷ 66 ∷ 1 ∷ 99 ∷ 0 ∷ 0 ∷ 28 ∷ 0 ∷ 1 ∷ 0
    ∷ 0 ∷ 41 ∷ 16 ∷ 0 ∷ 0 ∷ 0 ∷ 0 ∷ 0 ∷ 0 ∷ 0 ∷ []

lanswer-lquestion_example :
    lanswer plain (with_flags 33155 query)
    ≡ done (
        answered 300
          (record { qname = map tolower (without_dot name); qtype = 28 })
          (push_negative_rr (map tolower (without_dot name)) 28 5000 ∷ []))
unfolding lvalidname lquestion
lanswer-lquestion_example =
    lanswer-lquestion plain name 28 300 33155 query refl refl (omega arith) (omega arith) refl refl
